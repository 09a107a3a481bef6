-- ===== src/Context/ShortMemory.antt =====
-- `ShortMemory` of clc/context/short_memory.py: recent transitions, bounded in number and in age.
pub mod Retained
pub mod History
pub mod Calls
use rnde_m.Prelude.{
  ℕ, ◌-◌, Bool, false, List, [], ◌∷◌, ◌++◌, ltb, leb, ◌==◌, any, select, take_last, ℤ, pos, negsuc,
  Result, ok, raised, value_error, raise_if, eq_text, if◌then◌else◌,
}
use rnde_m.Prelude.State.{Method, lift, gets, modify, pure, ◌>>=◌, ◌>>◌}
use rnde_m.Context.Causal.{RecentCausalTransition, validate_active_tick}

pub record ShortMemory (V : Type 0) : Type 0 where
  pub max_entries : ℕ
  pub max_age_ticks : ℕ
  pub entries : List (RecentCausalTransition V)
  pub current_tick : ℕ
  -- -1 before the first observation
  pub last_observation_tick : ℤ

-- `observation_tick < last_observation_tick`
abbrev pub is_before : ℕ → ℤ → Bool
is_before tick (pos last) = ltb tick last
is_before tick (negsuc n) = false

module _ {V : Type 0} where
  abbrev pub fresh_memory : ℕ → ℕ → ShortMemory V
  fresh_memory max_entries max_age_ticks = record {
    max_entries = max_entries;
    max_age_ticks = max_age_ticks;
    entries = [];
    current_tick = 0;
    last_observation_tick = negsuc 0;
  }

  -- `__init__`
  unfoldable pub make_short_memory : ℤ → ℤ → Result (ShortMemory V)
  make_short_memory max_entries max_age_ticks = elim (validate_active_tick max_entries) [
    | raised e ↦ raised e
    | ok n ↦ elim (validate_active_tick max_age_ticks) [
      | raised e ↦ raised e
      | ok age ↦
          if n == 0 then raised (value_error "max_entries must be > 0") else ok (fresh_memory n age)
    ]
  ]

  -- `current_tick - entry.observation_tick <= max_age_ticks`; where the difference is negative in
  -- Python the test holds, as it does for the difference 0 here.
  abbrev pub is_recent : ℕ → ℕ → RecentCausalTransition V → Bool
  is_recent age tick r = leb (tick - r.observation_tick) age

  -- `_retained`
  unfoldable pub retained :
      ℕ → ℕ → List (RecentCausalTransition V) → ℕ → List (RecentCausalTransition V)
  retained max_entries age entries tick =
      take_last max_entries (select (is_recent age tick) entries)

  -- `_validate_tick`
  unfoldable pub validate_tick : ℤ → Method (ShortMemory V) ℕ
  validate_tick tick = do
    t ← lift (validate_active_tick tick)
    current ← gets (λ m. m.current_tick)
    lift (raise_if (ltb t current) "active time must not go backwards")
    pure t

  unfoldable pub remember : RecentCausalTransition V → ℤ → Method (ShortMemory V) (Unit {0})
  remember r tick = do
    t ← validate_tick tick
    lift (raise_if (ltb t r.observation_tick) "cannot remember a future observation")
    last ← gets (λ m. m.last_observation_tick)
    lift (
        raise_if (is_before r.observation_tick last) "transitions must arrive in observation order")
    old ← gets (λ m. m.entries)
    lift (
        raise_if
          (any (λ (e : RecentCausalTransition V). eq_text e.transition_id r.transition_id) old)
          "transition_id is already retained")
    let entries = old ++ r ∷ []
    modify (λ m. record m { entries = retained m.max_entries m.max_age_ticks entries t })
    modify (λ m. record m { current_tick = t })
    modify (λ m. record m { last_observation_tick = pos r.observation_tick })

  unfoldable pub prune : ℤ → Method (ShortMemory V) (Unit {0})
  prune tick = do
    t ← validate_tick tick
    modify (λ m. record m { entries = retained m.max_entries m.max_age_ticks m.entries t })
    modify (λ m. record m { current_tick = t })
