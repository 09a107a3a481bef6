-- ===== src/Field/Active.antt =====
-- clc/field/active_context_field.py and clc/field/active_pattern.py. The dictionary of patterns is the
-- list of its entries in their order. Ticks and lifetimes are naturals.
pub mod Decay
pub mod Invariant
use rnde_m.Prelude.{
  ℕ, ◌+◌, ◌-◌, Bool, false, not, ◌&&◌, Option, none, some, List, [], ◌∷◌, ◌++◌, leb, ◌==◌, select,
  take, length, if◌then◌else◌, Result, ok, raised, value_error, Text, codes, eq_text, is_empty,
}
use rnde_m.Prelude.Floats.{Floats, clamp, min_f, max_f}
use rnde_m.Prelude.State.{Method}
use rnde_m.Core.Ids.{is_in}

pub record ActivePattern (V : Type 0) : Type 0 where
  pub pattern_id : Text
  pub activation : V
  pub kind : Text
  pub source_event_ids : List Text
  pub created_at_tick : ℕ
  pub updated_at_tick : ℕ
  pub last_decay_tick : Option ℕ
  pub decay_rate : V
  pub ttl : Option ℕ
  pub expires_at_tick : Option ℕ

abbrev pub Patterns : Type 0 → Type 0
Patterns V = List (Text × ActivePattern V)

module _ {V : Type 0} where
  -- `patterns.get(id)`, `patterns[id] = p` and `del patterns[id]`
  unfoldable pub find : Text → Patterns V → Option (ActivePattern V)
  find id [] = none
  find id ((k, p) ∷ rest) = if eq_text k id then some p else find id rest

  unfoldable pub store : Text → ActivePattern V → Patterns V → Patterns V
  store id p [] = (id, p) ∷ []
  store id p ((k, q) ∷ rest) = if eq_text k id then (k, p) ∷ rest else (k, q) ∷ store id p rest

  unfoldable pub remove : Text → Patterns V → Patterns V
  remove id [] = []
  remove id ((k, q) ∷ rest) = if eq_text k id then rest else (k, q) ∷ remove id rest

-- `tuple(dict.fromkeys(ids))`, after the ids already seen
unfoldable pub distinct_from : List Text → List Text → List Text
distinct_from seen [] = []
distinct_from seen (id ∷ ids) =
    let fresh = distinct_from (id ∷ seen) ids in
    let known = distinct_from seen ids in if is_in seen id then known else id ∷ fresh

-- `(source,) if source else ()`
abbrev pub sources_of : Option Text → List Text
sources_of none = []
sources_of (some source) = if is_empty source then [] else source ∷ []

-- `tick + ttl if ttl is not None else None`
abbrev pub expiry_of : ℕ → Option ℕ → Option ℕ
expiry_of tick none = none
expiry_of tick (some ttl) = some (tick + ttl)

-- `expires_at_tick is not None and tick >= expires_at_tick`
abbrev pub has_expired : ℕ → Option ℕ → Bool
has_expired tick none = false
has_expired tick (some t) = leb t tick

-- `last_decay_tick if last_decay_tick is not None else updated_at_tick`
abbrev pub decayed_at : Option ℕ → ℕ → ℕ
decayed_at none updated = updated
decayed_at (some t) updated = t

module _ (F : Floats) where
  open F use {Float, zero_f, one_f, hundredth_f, le_f, lt_f, add_f, sub_f, mul_f, from_int}

  -- The arguments of `activate` behind the amount.
  pub record Activation : Type 0 where
    pub tick : ℕ
    pub kind : Text
    pub source_event_id : Option Text
    pub decay_rate : Float
    pub ttl : Option ℕ
    pub mode : Text

  -- `_activation_for_mode`
  unfoldable pub activation_for_mode : Float → Float → Text → Result Float
  unfolding clamp
  activation_for_mode old amount mode =
      if eq_text mode (codes "reinforce")
      then ok (clamp F (add_f old (mul_f amount (sub_f one_f old))))
      else if eq_text mode (codes "set")
      then ok (clamp F amount)
      else if eq_text mode (codes "max")
      then ok (clamp F (max_f F old amount))
      else raised (value_error "Unsupported active field activation mode")

  abbrev pub new_pattern : Text → Float → Activation → ActivePattern Float
  new_pattern id amount a = record {
    pattern_id = id;
    activation = amount;
    kind = a.kind;
    source_event_ids = sources_of a.source_event_id;
    created_at_tick = a.tick;
    updated_at_tick = a.tick;
    last_decay_tick = some a.tick;
    decay_rate = a.decay_rate;
    ttl = a.ttl;
    expires_at_tick = expiry_of a.tick a.ttl;
  }

  abbrev pub renewed : ActivePattern Float → Float → Activation → ActivePattern Float
  renewed existing activation a = record existing {
    activation = activation;
    kind = a.kind;
    source_event_ids = distinct_from [] (existing.source_event_ids ++ sources_of a.source_event_id);
    updated_at_tick = a.tick;
    last_decay_tick = some a.tick;
    decay_rate = min_f F existing.decay_rate a.decay_rate;
    ttl = a.ttl;
    expires_at_tick = expiry_of a.tick a.ttl;
  }

  -- What `activate` stores once the new activation is computed, or the error of that.
  abbrev pub activate_to :
      Result Float → ActivePattern Float → Text → Activation → Method (Patterns Float) (Unit {0})
  activate_to (raised e) existing id a s = (raised e, s)
  activate_to (ok activation) existing id a s = (ok tt, store id (renewed existing activation a) s)

  -- `activate` with the clamped amount, by what is stored under the id
  abbrev pub activate_over :
      Option (ActivePattern Float) → Text → Float → Activation → Method (Patterns Float) (Unit {0})
  activate_over none id amount a s = (ok tt, store id (new_pattern id amount a) s)
  activate_over (some existing) id amount a s =
      activate_to (activation_for_mode existing.activation amount a.mode) existing id a s

  unfoldable pub activate : Text → Float → Activation → Method (Patterns Float) (Unit {0})
  unfolding clamp find store distinct_from activation_for_mode
  activate id amount a s =
      if le_f (clamp F amount) zero_f && not (eq_text a.mode (codes "set"))
      then (ok tt, s)
      else activate_over (find id s) id (clamp F amount) a s

  -- One round of `decay_all`: what remains of a pattern.
  unfoldable pub decayed : ℕ → ActivePattern Float → Option (ActivePattern Float)
  unfolding clamp
  decayed tick p =
      if has_expired tick p.expires_at_tick
      then none
      else let elapsed = tick - decayed_at p.last_decay_tick p.updated_at_tick in
        if elapsed == 0
        then some p
        else let activation =
            clamp F (sub_f p.activation (mul_f p.decay_rate (from_int elapsed))) in
          if le_f activation hundredth_f
          then none
          else some (record p { activation = activation; last_decay_tick = some tick })

  abbrev pub keep : Text → Option (ActivePattern Float) → Patterns Float → Patterns Float
  keep id none rest = rest
  keep id (some p) rest = (id, p) ∷ rest

  unfoldable pub decay_all : ℕ → Patterns Float → Patterns Float
  unfolding decayed
  decay_all tick [] = []
  decay_all tick ((id, p) ∷ rest) = keep id (decayed tick p) (decay_all tick rest)

  abbrev pub suppress_found :
      Option (ActivePattern Float) → Text → Float → Patterns Float → Patterns Float
  suppress_found none id amount s = s
  suppress_found (some existing) id amount s =
      let activation = clamp F (mul_f existing.activation (sub_f one_f (clamp F amount))) in
      if le_f activation hundredth_f
      then remove id s
      else store id (record existing { activation = activation }) s

  unfoldable pub suppress : Text → Float → Patterns Float → Patterns Float
  unfolding clamp find store remove
  suppress id amount s = suppress_found (find id s) id amount s

  -- `sorted(..., key=activation, reverse=True)`: equal ones stay in their order.
  unfoldable pub insert_by_activation :
      ActivePattern Float → List (ActivePattern Float) → List (ActivePattern Float)
  insert_by_activation p [] = p ∷ []
  insert_by_activation p (q ∷ qs) =
      if lt_f p.activation q.activation then q ∷ insert_by_activation p qs else p ∷ q ∷ qs

  unfoldable pub by_activation : List (ActivePattern Float) → List (ActivePattern Float)
  unfolding insert_by_activation
  by_activation [] = []
  by_activation (p ∷ ps) = insert_by_activation p (by_activation ps)

  abbrev values : Patterns Float → List (ActivePattern Float)
  values [] = []
  values ((k, p) ∷ rest) = p ∷ values rest

  unfoldable pub get_top_patterns : ℕ → Patterns Float → List (ActivePattern Float)
  unfolding by_activation
  get_top_patterns limit s = take limit (by_activation (values s))

  unfoldable pub get_patterns_above : Float → Patterns Float → List (ActivePattern Float)
  unfolding get_top_patterns
  get_patterns_above threshold s =
      select (λ p. le_f threshold p.activation) (get_top_patterns (length s) s)
