-- ===== src/Akbsm/Associations.antt =====
-- clc/akbsm/akbsm_association_field.py. The dictionary of entries is the list of them in their order,
-- and an entry that is changed in place is replaced in that list. Ticks, lifetimes and distances are
-- naturals.
pub mod Bounds
use rnde_m.Prelude.{
  ℕ, ◌-◌, Bool, true, false, ◌&&◌, Option, none, some, List, [], ◌∷◌, ◌++◌, ltb, ◌==◌, take_last,
  if◌then◌else◌, Text, eq_text, is_empty,
}
use rnde_m.Prelude.Floats.{Floats, clamp, max_f}

pub record AssociationEntry (V : Type 0) : Type 0 where
  pub source_pattern_id : Text
  pub associated_pattern_id : Text
  pub relation_type : Option Text
  pub score : V
  pub distance : ℕ
  pub activation : V
  pub ttl : ℕ
  pub last_updated_tick : ℕ
  pub paths : List (List Text)
  pub source_probe_ids : List Text
  pub target_kinds : List Text
  pub target_roles : List Text

pub record AssociationField (V : Type 0) : Type 0 where
  pub entries : List (AssociationEntry V)
  pub last_decay_tick : Option ℕ

abbrev pub max_paths : ℕ
max_paths = 5

abbrev pub max_probes : ℕ
max_probes = 12

abbrev pub max_target_kinds : ℕ
max_target_kinds = 8

abbrev pub max_target_roles : ℕ
max_target_roles = 12

unfoldable pub eq_path : List Text → List Text → Bool
eq_path [] [] = true
eq_path [] (y ∷ ys) = false
eq_path (x ∷ xs) [] = false
eq_path (x ∷ xs) (y ∷ ys) = eq_text x y && eq_path xs ys

abbrev pub eq_relation : Option Text → Option Text → Bool
eq_relation none none = true
eq_relation none (some b) = false
eq_relation (some a) none = false
eq_relation (some a) (some b) = eq_text a b

-- `value in values`
unfoldable pub is_listed : {A : Type 0} → (A → A → Bool) → A → List A → Bool
is_listed eq value [] = false
is_listed eq value (x ∷ xs) = if eq x value then true else is_listed eq value xs

-- `_append_unique_bounded`, for a positive limit
unfoldable pub append_unique_bounded : {A : Type 0} → (A → A → Bool) → List A → A → ℕ → List A
unfolding is_listed
append_unique_bounded eq values value limit =
    if is_listed eq value values then values else take_last limit (values ++ value ∷ [])

abbrev pub append_path : List (List Text) → Option (List Text) → List (List Text)
append_path paths none = paths
append_path paths (some []) = paths
append_path paths (some (step ∷ path)) = append_unique_bounded eq_path paths (step ∷ path) max_paths

abbrev pub append_kind : List Text → Option Text → List Text
append_kind kinds none = kinds
append_kind kinds (some kind) =
    if is_empty kind then kinds else append_unique_bounded eq_text kinds kind max_target_kinds

-- The loop over the target roles.
unfoldable pub append_roles : List Text → List Text → List Text
append_roles roles [] = roles
append_roles roles (role ∷ rest) =
    append_roles (append_unique_bounded eq_text roles role max_target_roles) rest

-- `max(a, b)` and `min(a, b)` of ints
abbrev pub max_ℕ : ℕ → ℕ → ℕ
max_ℕ a b = if ltb a b then b else a

abbrev pub min_ℕ : ℕ → ℕ → ℕ
min_ℕ a b = if ltb b a then b else a

module _ (F : Floats) where
  open F use {
    Float, zero_f, three_hundredths_f, eighty_five_hundredths_f, ninety_two_hundredths_f, lt_f,
    mul_f,
  }

  -- The arguments of `update_association`.
  pub record Observed : Type 0 where
    pub source_pattern_id : Text
    pub associated_pattern_id : Text
    pub relation_type : Option Text
    pub score : Float
    pub distance : ℕ
    pub path : Option (List Text)
    pub source_probe_id : Text
    pub target_kind : Option Text
    pub target_roles : List Text
    pub activation : Float
    pub ttl : ℕ
    pub tick : ℕ

  abbrev pub new_entry : Observed → AssociationEntry Float
  new_entry o = record {
    source_pattern_id = o.source_pattern_id;
    associated_pattern_id = o.associated_pattern_id;
    relation_type = o.relation_type;
    score = zero_f;
    distance = max_ℕ 1 o.distance;
    activation = zero_f;
    ttl = 0;
    last_updated_tick = 0;
    paths = [];
    source_probe_ids = [];
    target_kinds = [];
    target_roles = [];
  }

  -- What the observation makes of the entry that stands under its key.
  unfoldable pub updated : Observed → AssociationEntry Float → AssociationEntry Float
  unfolding clamp append_unique_bounded append_roles
  updated o e = record e {
    score = clamp F (max_f F (mul_f e.score eighty_five_hundredths_f) o.score);
    activation = clamp F (max_f F (mul_f e.activation eighty_five_hundredths_f) o.activation);
    ttl = max_ℕ e.ttl o.ttl;
    distance = min_ℕ e.distance (max_ℕ 1 o.distance);
    last_updated_tick = o.tick;
    paths = append_path e.paths o.path;
    source_probe_ids =
        append_unique_bounded eq_text e.source_probe_ids o.source_probe_id max_probes;
    target_kinds = append_kind e.target_kinds o.target_kind;
    target_roles = append_roles e.target_roles o.target_roles;
  }

  abbrev pub is_keyed : Observed → AssociationEntry Float → Bool
  is_keyed o e =
      eq_text e.source_pattern_id o.source_pattern_id
      && eq_text e.associated_pattern_id o.associated_pattern_id
      && eq_relation e.relation_type o.relation_type

  unfoldable pub update_entries :
      Observed → List (AssociationEntry Float) → List (AssociationEntry Float)
  unfolding updated
  update_entries o [] = updated o (new_entry o) ∷ []
  update_entries o (e ∷ rest) =
      if is_keyed o e then updated o e ∷ rest else e ∷ update_entries o rest

  unfoldable pub update_association : Observed → AssociationField Float → AssociationField Float
  unfolding update_entries
  update_association o s = record s { entries = update_entries o s.entries }

  unfoldable pub faded : AssociationEntry Float → AssociationEntry Float
  unfolding clamp
  faded e = record e {
    score = clamp F (mul_f e.score ninety_two_hundredths_f);
    activation = clamp F (mul_f e.activation ninety_two_hundredths_f);
    ttl = e.ttl - 1;
  }

  abbrev pub is_spent : AssociationEntry Float → Bool
  is_spent e = e.ttl == 0 && lt_f e.score three_hundredths_f && lt_f e.activation three_hundredths_f

  unfoldable pub fade_all : List (AssociationEntry Float) → List (AssociationEntry Float)
  unfolding faded
  fade_all [] = []
  fade_all (e ∷ rest) =
      let remaining = fade_all rest in if is_spent (faded e) then remaining else faded e ∷ remaining

  abbrev pub is_tick : ℕ → Option ℕ → Bool
  is_tick tick none = false
  is_tick tick (some t) = t == tick

  unfoldable pub decay : ℕ → AssociationField Float → AssociationField Float
  unfolding fade_all
  decay tick s =
      if is_tick tick s.last_decay_tick
      then s
      else record { entries = fade_all s.entries; last_decay_tick = some tick }
