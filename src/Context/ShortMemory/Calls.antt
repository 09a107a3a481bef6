-- ===== src/Context/ShortMemory/Calls.antt =====
-- The memory over a sequence of calls, and the manager's transitions handed to it.
use rnde_m.Prelude.{
  ℕ, ltb, value_error, ap₂, take_last-short, if◌then◌else◌, ◌+◌, ◌≤◌, ◌≡◌, refl, sym, ap, ◌∙◌,
  subst, List, [], ◌∷◌, ◌++◌, append-nil, append_assoc, arith, length, select, All, All-map,
  Pairwise, ℤ, pos, negsuc, Result, ok, raised, accepts, Result-cases, Bool-cases, inl, inr,
  length-take_last, All-take_last, select-holds, Error,
}
use rnde_m.Context.Causal.{RecentCausalTransition}
use rnde_m.Context.ShortMemory.{
  ShortMemory, fresh_memory, is_recent, retained, validate_tick, remember, prune,
}
use rnde_m.Context.ShortMemory.Retained.{InOrder, retained-retained}
use rnde_m.Context.ShortMemory.History.{
  Refines, OtherId, remember_iff, remembered-Refines, Pairwise-retained, LastBy-le,
}

pub data Call (V : Type 0) : Type 0 where
  remember_call : RecentCausalTransition V → ℤ → Call V
  prune_call : ℤ → Call V

module _ {V : Type 0} where
  unfoldable pub call : Call V → ShortMemory V → Result (Unit {0}) × ShortMemory V
  call (remember_call r tick) m = remember r tick m
  call (prune_call tick) m = prune tick m

  -- What a call that returned adds to the history.
  abbrev pub added : Call V → Result (Unit {0}) → List (RecentCausalTransition V)
  added (remember_call r tick) (ok _) = r ∷ []
  added _ _ = []

  -- The memory after the calls, a call that raises being passed over, and what was taken in.
  unfoldable pub serve :
      List (Call V) → ShortMemory V → ShortMemory V × List (RecentCausalTransition V)
  serve [] m = (m, [])
  serve (c ∷ cs) m =
      let (r, m') = call c m in let (end, rest) = serve cs m' in (end, added c r ++ rest)

  pruned-Refines :
      (m : ShortMemory V) (tick : ℕ) (history : List (RecentCausalTransition V))
      → Refines m history
      → m.current_tick ≤ tick
      → Refines
          (record m {
            entries = retained m.max_entries m.max_age_ticks m.entries tick;
            current_tick = tick;
          })
          history
  pruned-Refines m tick history h le = record {
    holds =
        ap (λ es. retained m.max_entries m.max_age_ticks es tick) (h.holds ∙ sym (append-nil _))
        ∙ (retained-retained m.max_entries m.max_age_ticks m.current_tick tick history [] h.in_order
              le
            ∙ ap (λ es. retained m.max_entries m.max_age_ticks es tick) (append-nil history));
    in_order = h.in_order;
    seen = h.seen;
    clock = LastBy-le m.last_observation_tick m.current_tick tick h.clock le;
    distinct = Pairwise-retained OtherId m.max_entries m.max_age_ticks tick m.entries h.distinct;
  }

  remember_negative :
      (r : RecentCausalTransition V) (n : ℕ) (m : ShortMemory V)
      → (e : Error) × (remember r (negsuc n) m ≡ (raised e, m))
  unfolding remember validate_tick
  remember_negative r n m = (value_error "active tick must be >= 0", refl)

  remember-Refines :
      (r : RecentCausalTransition V) (tick : ℤ) (m : ShortMemory V)
      (history : List (RecentCausalTransition V))
      → Refines m history
      → Refines
          (remember r tick m).1
          (history ++ added (remember_call r tick) (remember r tick m).0)
  remember-Refines r (negsuc n) m history h =
      let (e, failed) = remember_negative r n m in rw (failed, append-nil) h
  remember-Refines r (pos tick) m history h = elim (Result-cases (remember r (pos tick) m).0) [
    | inl (e, failed) ↦
        let same = (remember_iff m r tick).2 (ap accepts failed) in rw (failed, same, append-nil) h
    | inr (u, done) ↦
        let can = (remember_iff m r tick).0.0 (ap accepts done) in
        rw (done, (remember_iff m r tick).1 can) (remembered-Refines m r tick history h can)
  ]

  prune_lem :
      (tick : ℕ) (m : ShortMemory V)
      → (prune (pos tick) m).1 ≡ (
          if ltb tick m.current_tick then m else record m {
            entries = retained m.max_entries m.max_age_ticks m.entries tick;
            current_tick = tick;
          })
  unfolding prune validate_tick
  prune_lem tick m = ground arith

  prune_negative : (n : ℕ) (m : ShortMemory V) → (prune (negsuc n) m).1 ≡ m
  unfolding prune validate_tick
  prune_negative n m = refl

  prune-Refines :
      (tick : ℤ) (m : ShortMemory V) (history : List (RecentCausalTransition V))
      → Refines m history
      → Refines (prune tick m).1 (history ++ [])
  prune-Refines (negsuc n) m history h = rw (prune_negative, append-nil) h
  prune-Refines (pos tick) m history h = elim (Bool-cases (ltb tick m.current_tick)) [
    | inl past ↦ rw (prune_lem, past, append-nil) h
    | inr due ↦ rw (prune_lem, due, append-nil) (pruned-Refines m tick history h (ground arith))
  ]

  -- A call that raises changes nothing, one that returns adds its transition to the history.
  call-Refines :
      (c : Call V) (m : ShortMemory V) (history : List (RecentCausalTransition V))
      → Refines m history
      → Refines (call c m).1 (history ++ added c (call c m).0)
  unfolding call
  call-Refines (remember_call r tick) m history h = remember-Refines r tick m history h
  call-Refines (prune_call tick) m history h = prune-Refines tick m history h

  serve-Refines :
      (cs : List (Call V)) (m : ShortMemory V) (history : List (RecentCausalTransition V))
      → Refines m history
      → Refines (serve cs m).0 (history ++ (serve cs m).1)
  unfolding serve
  serve-Refines [] m history h = rw append-nil h
  serve-Refines (c ∷ cs) m history h =
      subst (Refines (serve cs (call c m).1).0) (append_assoc history _ _) (
        serve-Refines cs (call c m).1 (history ++ added c (call c m).0)
          (call-Refines c m history h))

  fresh_memory-Refines : (n age : ℕ) → Refines (fresh_memory {V = V} n age) []
  unfolding retained
  fresh_memory-Refines n age = record {
    holds = sym (take_last-short n [] (omega arith));
    in_order = tt;
    seen = tt;
    clock = tt;
    distinct = tt;
  }

  -- The configured bounds never change.
  call_bounds :
      (c : Call V) (m : ShortMemory V)
      → ((call c m).1.max_entries ≡ m.max_entries) × ((call c m).1.max_age_ticks ≡ m.max_age_ticks)
  unfolding call remember prune validate_tick
  call_bounds (remember_call r tick) m = ground arith
  call_bounds (prune_call tick) m = ground arith

  serve_bounds :
      (cs : List (Call V)) (m : ShortMemory V)
      → ((serve cs m).0.max_entries ≡ m.max_entries)
        × ((serve cs m).0.max_age_ticks ≡ m.max_age_ticks)
  unfolding serve
  serve_bounds [] m = (refl, refl)
  serve_bounds (c ∷ cs) m =
      let now = call_bounds c m in
      let later = serve_bounds cs (call c m).1 in (later.0 ∙ now.0, later.1 ∙ now.1)

  -- After any calls on a new memory, its entries are the retained part, at its clock, of the whole
  -- list of transitions that were taken in: pruning earlier or more often makes no difference.
  pub serve-retained :
      (n age : ℕ) (cs : List (Call V))
      → let (m, history) = serve cs (fresh_memory n age) in
        m.entries ≡ retained n age history m.current_tick
  serve-retained n age cs =
      let m = (serve cs (fresh_memory n age)).0 in
      let bounds = serve_bounds cs (fresh_memory n age) in
      let h = serve-Refines cs (fresh_memory n age) [] (fresh_memory-Refines n age) in
      h.holds
      ∙ ap₂ (λ k a. retained k a (serve cs (fresh_memory n age)).1 m.current_tick) bounds.0 bounds.1

  -- After any calls on a new memory it holds at most the configured number of entries, none older
  -- than the configured age, in observation order, with pairwise different ids.
  pub serve_bounded :
      (n age : ℕ) (cs : List (Call V))
      → let m = (serve cs (fresh_memory n age)).0 in
        (length m.entries ≤ n)
        × All
            (λ (r : RecentCausalTransition V). m.current_tick ≤ r.observation_tick + age)
            m.entries
        × InOrder m.entries
        × Pairwise OtherId m.entries
  unfolding retained
  serve_bounded n age cs =
      let m = (serve cs (fresh_memory n age)).0 in
      let history = (serve cs (fresh_memory n age)).1 in
      let h = serve-Refines cs (fresh_memory n age) [] (fresh_memory-Refines n age) in
      let kept = select (is_recent age m.current_tick) history in
      rw (serve-retained n age cs) (
        length-take_last n kept,
        All-take_last _ n kept (
            All-map (λ r passes. ground arith) kept
              (select-holds (is_recent age m.current_tick) history)),
        Pairwise-retained _ n age m.current_tick history h.in_order,
        subst (Pairwise OtherId) (serve-retained n age cs) h.distinct,
      )
