-- ===== src/Akbsm/Associations/Bounds.antt =====
-- What holds of the association field (clc/akbsm/akbsm_association_field.py) after any calls.
use rnde_m.Prelude.{
  ℕ, ◌≤◌, ◌≡◌, Bool, true, false, Option, none, some, List, [], ◌∷◌, ◌++◌, All, Pairwise, arith,
  length, ◌-◌, take_last, length-take_last, Pairwise-snoc, Pairwise-drop, Bool-cases, inl, inr,
  Text, eq_text, is_empty,
}
use rnde_m.Prelude.Floats.{Floats, clamp_bounds, max_f}
use rnde_m.Akbsm.Associations.{
  AssociationEntry, AssociationField, max_paths, max_probes, max_target_kinds, max_target_roles,
  eq_path, is_listed, append_unique_bounded, append_path, append_kind, append_roles, Observed,
  new_entry, updated, is_keyed, update_entries, update_association, faded, is_spent, fade_all,
  is_tick, decay,
}

-- At most so many values, none of which the test finds equal to a later one.
pub record IsShort {A : Type 0} (eq : A → A → Bool) (limit : ℕ) (values : List A) : Type 0 where
  pub at_most : length values ≤ limit
  pub distinct : Pairwise (λ a b. eq a b ≡ false) values

is_listed-All :
    {A : Type 0} (eq : A → A → Bool) (value : A) (values : List A)
    → is_listed eq value values ≡ false
    → All (λ a. eq a value ≡ false) values
unfolding is_listed
is_listed-All eq value [] h = tt
is_listed-All eq value (x ∷ xs) h = elim (Bool-cases (eq x value)) [
  | inl same ↦ absurd (ground arith)
  | inr other ↦ (other, is_listed-All eq value xs (ground arith))
]

append_unique_bounded-IsShort :
    {A : Type 0} (eq : A → A → Bool) (values : List A) (value : A) (limit : ℕ)
    → IsShort eq limit values
    → IsShort eq limit (append_unique_bounded eq values value limit)
unfolding append_unique_bounded take_last
append_unique_bounded-IsShort eq values value limit h =
    elim (Bool-cases (is_listed eq value values)) [
      | inl known ↦ rw known h
      | inr new ↦ rw new (record {
        at_most = length-take_last limit (values ++ value ∷ []);
        distinct =
            Pairwise-drop (λ a b. eq a b ≡ false) (length (values ++ value ∷ []) - limit)
              (values ++ value ∷ [])
              (Pairwise-snoc (λ a b. eq a b ≡ false) values value h.distinct
                (is_listed-All eq value values new));
      })
    ]

append_path-IsShort :
    (paths : List (List Text)) (o : Option (List Text))
    → IsShort eq_path max_paths paths
    → IsShort eq_path max_paths (append_path paths o)
append_path-IsShort paths none h = h
append_path-IsShort paths (some []) h = h
append_path-IsShort paths (some (step ∷ path)) h =
    append_unique_bounded-IsShort eq_path paths (step ∷ path) max_paths h

append_kind-IsShort :
    (kinds : List Text) (o : Option Text)
    → IsShort eq_text max_target_kinds kinds
    → IsShort eq_text max_target_kinds (append_kind kinds o)
append_kind-IsShort kinds none h = h
append_kind-IsShort kinds (some kind) h = elim (Bool-cases (is_empty kind)) [
  | inl empty ↦ rw empty h
  | inr given ↦ rw given (append_unique_bounded-IsShort eq_text kinds kind max_target_kinds h)
]

append_roles-IsShort :
    (roles more : List Text)
    → IsShort eq_text max_target_roles roles
    → IsShort eq_text max_target_roles (append_roles roles more)
unfolding append_roles
append_roles-IsShort roles [] h = h
append_roles-IsShort roles (role ∷ more) h =
    append_roles-IsShort (append_unique_bounded eq_text roles role max_target_roles) more
      (append_unique_bounded-IsShort eq_text roles role max_target_roles h)

module _ (F : Floats) where
  open F use {
    Float, zero_f, one_f, eighty_five_hundredths_f, ninety_two_hundredths_f, le_f, lt_f, mul_f,
  }

  abbrev pub IsUnit : Float → Type 0
  IsUnit v = (le_f zero_f v ≡ true) × (le_f v one_f ≡ true)

  -- The bounds of the lists and the distance of an entry.
  pub record IsLimited (e : AssociationEntry Float) : Type 0 where
    pub remote : 1 ≤ e.distance
    pub few_paths : IsShort eq_path max_paths e.paths
    pub few_probes : IsShort eq_text max_probes e.source_probe_ids
    pub few_kinds : IsShort eq_text max_target_kinds e.target_kinds
    pub few_roles : IsShort eq_text max_target_roles e.target_roles

  pub record IsEntry (e : AssociationEntry Float) : Type 0 where
    pub limited : IsLimited e
    pub scored : IsUnit e.score
    pub active : IsUnit e.activation

  new_entry-IsLimited : (o : Observed F) → IsLimited (new_entry F o)
  new_entry-IsLimited o = record {
    remote = ground arith;
    few_paths = record { at_most = omega arith; distinct = tt };
    few_probes = record { at_most = omega arith; distinct = tt };
    few_kinds = record { at_most = omega arith; distinct = tt };
    few_roles = record { at_most = omega arith; distinct = tt };
  }

  updated-IsEntry :
      (o : Observed F) (e : AssociationEntry Float) → IsLimited e → IsEntry (updated F o e)
  unfolding updated
  updated-IsEntry o e h = record {
    limited = record {
      remote = ground (arith, h.remote);
      few_paths = append_path-IsShort e.paths o.path h.few_paths;
      few_probes =
          append_unique_bounded-IsShort eq_text e.source_probe_ids o.source_probe_id max_probes
            h.few_probes;
      few_kinds = append_kind-IsShort e.target_kinds o.target_kind h.few_kinds;
      few_roles = append_roles-IsShort e.target_roles o.target_roles h.few_roles;
    };
    scored = clamp_bounds F (max_f F (mul_f e.score eighty_five_hundredths_f) o.score);
    active = clamp_bounds F (max_f F (mul_f e.activation eighty_five_hundredths_f) o.activation);
  }

  update_entries-All :
      (o : Observed F) (es : List (AssociationEntry Float))
      → All IsEntry es
      → All IsEntry (update_entries F o es)
  unfolding update_entries
  update_entries-All o [] h = (updated-IsEntry o (new_entry F o) (new_entry-IsLimited o), tt)
  update_entries-All o (e ∷ es) h = elim (Bool-cases (is_keyed F o e)) [
    | inl same ↦ rw same (updated-IsEntry o e h.0.limited, h.1)
    | inr other ↦ rw other (h.0, update_entries-All o es h.1)
  ]

  faded-IsEntry : (e : AssociationEntry Float) → IsEntry e → IsEntry (faded F e)
  unfolding faded
  faded-IsEntry e h = record {
    limited = record {
      remote = h.limited.remote;
      few_paths = h.limited.few_paths;
      few_probes = h.limited.few_probes;
      few_kinds = h.limited.few_kinds;
      few_roles = h.limited.few_roles;
    };
    scored = clamp_bounds F (mul_f e.score ninety_two_hundredths_f);
    active = clamp_bounds F (mul_f e.activation ninety_two_hundredths_f);
  }

  fade_all-All : (es : List (AssociationEntry Float)) → All IsEntry es → All IsEntry (fade_all F es)
  unfolding fade_all
  fade_all-All [] h = tt
  fade_all-All (e ∷ es) h = elim (Bool-cases (is_spent F (faded F e))) [
    | inl spent ↦ rw spent (fade_all-All es h.1)
    | inr remains ↦ rw remains (faded-IsEntry e h.0, fade_all-All es h.1)
  ]

  decay-All :
      (tick : ℕ) (s : AssociationField Float)
      → All IsEntry s.entries
      → All IsEntry (decay F tick s).entries
  unfolding decay
  decay-All tick s h = elim (Bool-cases (is_tick F tick s.last_decay_tick)) [
    | inl again ↦ rw again h
    | inr later ↦ rw later (fade_all-All s.entries h)
  ]

  -- The calls that change the field.
  pub data Call : Type 0 where
    updates : Observed F → Call
    decays : ℕ → Call

  unfoldable pub serve_all : List Call → AssociationField Float → AssociationField Float
  serve_all [] s = s
  serve_all (updates o ∷ cs) s = serve_all cs (update_association F o s)
  serve_all (decays tick ∷ cs) s = serve_all cs (decay F tick s)

  serve_all-All :
      (cs : List Call) (s : AssociationField Float)
      → All IsEntry s.entries
      → All IsEntry (serve_all cs s).entries
  unfolding serve_all update_association
  serve_all-All [] s h = h
  serve_all-All (updates o ∷ cs) s h =
      serve_all-All cs (update_association F o s) (update_entries-All o s.entries h)
  serve_all-All (decays tick ∷ cs) s h = serve_all-All cs (decay F tick s) (decay-All tick s h)

  -- After any updates and decays of an empty field, every entry has its score and its activation in
  -- the unit interval and a distance of at least 1, and its lists are without repetition and within
  -- their limits: 5 paths, 12 probes, 8 kinds and 12 roles.
  pub serve_all_bounded :
      (cs : List Call)
      → All IsEntry (serve_all cs (record { entries = []; last_decay_tick = none })).entries
  serve_all_bounded cs = serve_all-All cs (record { entries = []; last_decay_tick = none }) tt
