-- ===== src/Experience/Serialized/Reread.antt =====
-- A pattern of clc/experience/expsm_representation.py that a constructor returned is read back as it
-- was written.
use rnde_m.Prelude.{
  ℕ, ◌≡◌, refl, ap, true, false, not, List, [], ◌∷◌, map, any, All, subst, arith, ℤ, pos, String,
  Result, ok, Result-cases, inl, inr, Text, eq_text, is_empty,
}
use rnde_m.Prelude.Floats.{Floats}
use rnde_m.Patterns.Model.{
  PatternModality, visual, audio, internal, pain_damage, reward_success, action, is_positive,
  magnitude,
}
use rnde_m.Transduction.Visual.Laws.{map-magnitude-pos, still_positive}
use rnde_m.Experience.Effects.Laws.{IsUnit}
use rnde_m.Experience.Json.{
  Json, text, items_of, to_list, string, int, ints, stable_topology, integers_json, topology_json,
  parse_topology, number_of, unit_float, activation, effect_delta, mapping, sequence,
}
use rnde_m.Experience.Serialized.{
  modality_value, modality_of, parse_modality, activations, effect_deltas, numbers_json,
}

-- The value of a modality is read as it is.
abbrev pub IsModality : Text → Type 0
IsModality t = (m : PatternModality) × (t ≡ modality_value m)

modality_of-value : (m : PatternModality) → modality_of (modality_value m) ≡ ok m
unfolding modality_of eq_text
modality_of-value visual = refl
modality_of-value audio = refl
modality_of-value internal = refl
modality_of-value pain_damage = refl
modality_of-value reward_success = refl
modality_of-value action = refl

pub ok-injective : {A : Type 0} (a b : A) → Result.ok a ≡ ok b → a ≡ b
ok-injective a b h = cc

pub to_list-items_of : {V : Type 0} (js : List (Json V)) → to_list (items_of js) ≡ js
to_list-items_of [] = refl
to_list-items_of (j ∷ js) = ap (λ l. j ∷ l) (to_list-items_of js)

module _ {V : Type 0} where
  pub parse_modality-IsModality :
      (kind unsupported : String) (j : Json V) (t : Text)
      → parse_modality kind unsupported j ≡ ok t
      → IsModality t
  unfolding parse_modality
  parse_modality-IsModality kind unsupported j t h = elim (Result-cases (string kind j)) [
    | inl (e, bad) ↦ absurd (ground arith)
    | inr (s, good) ↦ elim (Result-cases (modality_of s)) [
      | inl (e, bad) ↦ absurd (ground arith)
      | inr (m, known) ↦ (m, ground arith)
    ]
  ]

-- Dimensions that are accepted.
pub record IsShape (ds : List ℕ) : Type 0 where
  pub some_dims : is_empty ds ≡ false
  pub positive : any (λ (d : ℤ). not (is_positive d)) (map pos ds) ≡ false

is_empty-magnitude : (ds : List ℤ) → is_empty (map magnitude ds) ≡ is_empty ds
is_empty-magnitude [] = refl
is_empty-magnitude (d ∷ ds) = refl

is_empty-pos : (ds : List ℕ) → is_empty (map pos ds) ≡ is_empty ds
is_empty-pos [] = refl
is_empty-pos (d ∷ ds) = refl

module _ (V : Type 0) where
  pub parse_modality-read :
      (kind unsupported : String) (t : Text)
      → IsModality t
      → parse_modality {V = V} kind unsupported (text t) ≡ ok t
  unfolding parse_modality string
  parse_modality-read kind unsupported t (m, e) = rw e (ground (arith, modality_of-value m))

  ints-integers_json : (ds : List ℕ) → ints {V = V} (integers_json ds) ≡ ok (map pos ds)
  unfolding ints int
  ints-integers_json [] = refl
  ints-integers_json (d ∷ ds) = rw (ints-integers_json ds) refl

  is_empty-integers_json : (ds : List ℕ) → is_empty (integers_json {V = V} ds) ≡ is_empty ds
  is_empty-integers_json [] = refl
  is_empty-integers_json (d ∷ ds) = refl

  is_empty-ints : (js : List (Json V)) (ns : List ℤ) → ints js ≡ ok ns → is_empty ns ≡ is_empty js
  unfolding ints
  is_empty-ints [] ns h = ground arith
  is_empty-ints (j ∷ js) ns h = elim (Result-cases (int "topology dimensions must be integers" j)) [
    | inl (e, bad) ↦ absurd (ground arith)
    | inr (n, good) ↦ elim (Result-cases (ints js)) [
      | inl (e, bad) ↦ absurd (ground arith)
      | inr (more, rest) ↦ ground arith
    ]
  ]

  pub stable_topology-IsShape :
      (js : List (Json V)) (ds : List ℕ) → stable_topology js ≡ ok ds → IsShape ds
  unfolding stable_topology
  stable_topology-IsShape js ds h = elim (Result-cases (ints js)) [
    | inl (e, bad) ↦ absurd (ground arith)
    | inr (ns, good) ↦
        let same : map magnitude ns ≡ ds = ground arith in
        record {
          some_dims = ground (arith, is_empty-ints js ns good, is_empty-magnitude ns, same);
          positive =
              subst (λ l. any (λ (d : ℤ). not (is_positive d)) (map pos l) ≡ false) same
                (still_positive ns (ground arith));
        }
  ]

  pub stable_topology-read :
      (ds : List ℕ) → IsShape ds → stable_topology {V = V} (integers_json ds) ≡ ok ds
  unfolding stable_topology
  stable_topology-read ds h = ground (
    arith,
    is_empty-integers_json ds,
    ints-integers_json ds,
    h.some_dims,
    h.positive,
    map-magnitude-pos ds,
  )

  pub parse_topology-read :
      (ds : List ℕ) → IsShape ds → parse_topology {V = V} (topology_json ds) ≡ ok ds
  unfolding parse_topology mapping sequence eq_text
  parse_topology-read ds h =
      rw (to_list-items_of (integers_json {V = V} ds)) (stable_topology-read ds h)

module _ (F : Floats) where
  open F use {Float, neg_one_f, one_f, lt_f, is_finite}

  pub record IsDelta (v : Float) : Type 0 where
    pub finite : is_finite v ≡ true
    pub not_below : lt_f v neg_one_f ≡ false
    pub not_above : lt_f one_f v ≡ false

  activation-IsUnit : (j : Json Float) (v : Float) → activation F j ≡ ok v → IsUnit F v
  unfolding activation unit_float number_of
  activation-IsUnit j v h = record {
    finite = ground arith;
    not_below = ground arith;
    not_above = ground arith;
  }

  pub activations-IsUnit :
      (js : List (Json Float)) (vs : List Float) → activations F js ≡ ok vs → All (IsUnit F) vs
  unfolding activations
  activations-IsUnit [] vs h = subst (All (IsUnit F)) (ok-injective [] vs h) tt
  activations-IsUnit (j ∷ js) vs h = elim (Result-cases (activation F j)) [
    | inl (e, bad) ↦ absurd (ground arith)
    | inr (v, good) ↦ elim (Result-cases (activations F js)) [
      | inl (e, bad) ↦ absurd (ground arith)
      | inr (more, rest) ↦
          subst (All (IsUnit F)) (let same : v ∷ more ≡ vs = ground arith in same)
            (activation-IsUnit j v good, activations-IsUnit js more rest)
    ]
  ]

  pub activations-read :
      (vs : List Float) → All (IsUnit F) vs → activations F (numbers_json vs) ≡ ok vs
  unfolding activations activation unit_float number_of
  activations-read [] h = refl
  activations-read (v ∷ vs) h =
      rw (h.0.finite, h.0.not_below, h.0.not_above) (rw (activations-read vs h.1) refl)

  effect_delta-IsDelta : (j : Json Float) (v : Float) → effect_delta F j ≡ ok v → IsDelta v
  unfolding effect_delta number_of
  effect_delta-IsDelta j v h = record {
    finite = ground arith;
    not_below = ground arith;
    not_above = ground arith;
  }

  pub effect_deltas-IsDelta :
      (js : List (Json Float)) (vs : List Float) → effect_deltas F js ≡ ok vs → All IsDelta vs
  unfolding effect_deltas
  effect_deltas-IsDelta [] vs h = subst (All IsDelta) (ok-injective [] vs h) tt
  effect_deltas-IsDelta (j ∷ js) vs h = elim (Result-cases (effect_delta F j)) [
    | inl (e, bad) ↦ absurd (ground arith)
    | inr (v, good) ↦ elim (Result-cases (effect_deltas F js)) [
      | inl (e, bad) ↦ absurd (ground arith)
      | inr (more, rest) ↦
          subst (All IsDelta) (let same : v ∷ more ≡ vs = ground arith in same)
            (effect_delta-IsDelta j v good, effect_deltas-IsDelta js more rest)
    ]
  ]

  pub effect_deltas-read :
      (vs : List Float) → All IsDelta vs → effect_deltas F (numbers_json vs) ≡ ok vs
  unfolding effect_deltas effect_delta number_of
  effect_deltas-read [] h = refl
  effect_deltas-read (v ∷ vs) h =
      rw (h.0.finite, h.0.not_below, h.0.not_above) (rw (effect_deltas-read vs h.1) refl)
