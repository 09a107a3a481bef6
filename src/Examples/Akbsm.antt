-- ===== src/Examples/Akbsm.antt =====
-- Examples for clc/akbsm/akbsm_association_field.py.
use rnde_m.Prelude.{
  ◌≡◌, refl, ℕ, List, [], ◌∷◌, All, none, some, pos, codes, map, take_last, eq_text,
}
use rnde_m.Akbsm.Associations.{Observed, decay, update_association}
use rnde_m.Akbsm.Associations.Bounds.{IsEntry, Call, updates, decays, serve_all, serve_all_bounded}
use rnde_m.Examples.Thousandths.{thousandths}

abbrev observed_at : ℕ → Observed thousandths
observed_at tick = record {
  source_pattern_id = codes "p-1";
  associated_pattern_id = codes "p-2";
  relation_type = some (codes "near");
  score = pos 400;
  distance = 0;
  path = some (codes "p-1" ∷ codes "p-2" ∷ []);
  source_probe_id = codes "probe-1";
  target_kind = none;
  target_roles = codes "cause" ∷ codes "cause" ∷ [];
  activation = pos 1500;
  ttl = 2;
  tick = tick;
}

abbrev calls : List (Call thousandths)
calls = updates (observed_at 1) ∷ decays 2 ∷ decays 2 ∷ updates (observed_at 3) ∷ []

-- One entry stands under the key, and its lists do not repeat what is observed twice.
calls_run :
    map
      (λ e. e.target_roles)
      (serve_all thousandths calls (record { entries = []; last_decay_tick = none })).entries
    ≡ (codes "cause" ∷ []) ∷ []
unfolding serve_all update_association decay eq_text take_last
calls_run = refl

serve_all_bounded_example :
    All
      (IsEntry thousandths)
      (serve_all thousandths calls (record { entries = []; last_decay_tick = none })).entries
serve_all_bounded_example = serve_all_bounded thousandths calls
