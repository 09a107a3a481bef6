-- ===== src/Examples/Field.antt =====
-- Examples for clc/field/active_context_field.py.
use rnde_m.Prelude.{◌≡◌, refl, ℕ, List, [], ◌∷◌, some, pos, ℤ, codes, map, eq_text}
use rnde_m.Field.Active.{Activation, Patterns, activate, decay_all, suppress}
use rnde_m.Field.Active.Invariant.{
  IsField, Call, activates, decays, suppresses, serve_all, serve_all-IsField,
}
use rnde_m.Field.Active.Decay.{decay_all-decay_all}
use rnde_m.Examples.Thousandths.{thousandths}

abbrev seen_at : ℕ → Activation thousandths
seen_at tick = record {
  tick = tick;
  kind = codes "visual";
  source_event_id = some (codes "event-1");
  decay_rate = pos 100;
  ttl = some 9;
  mode = codes "reinforce";
}

abbrev calls : List (Call thousandths)
calls =
    activates (codes "p-1") (pos 500) (seen_at 1)
    ∷ activates (codes "p-2") (pos 2000) (seen_at 1)
    ∷ decays 3
    ∷ activates (codes "p-1") (pos 500) (seen_at 3)
    ∷ suppresses (codes "p-2") (pos 1000)
    ∷ []

abbrev field : Patterns ℤ
field = serve_all thousandths calls []

-- 0.5 fades to 0.3 and is reinforced to 0.65; the other pattern is suppressed.
calls_run : map (λ e. e.1.activation) field ≡ pos 650 ∷ []
unfolding serve_all suppress activate decay_all eq_text
calls_run = refl

serve_all-IsField_example : IsField thousandths (serve_all thousandths calls [])
serve_all-IsField_example = serve_all-IsField thousandths calls

decay_all-decay_all_example :
    decay_all thousandths 5 (decay_all thousandths 5 field) ≡ decay_all thousandths 5 field
decay_all-decay_all_example = decay_all-decay_all thousandths 5 field
