-- ===== src/Context/ShortMemory/History.antt =====
-- The memory against the whole history of what it was given: it is the bounded recent part of it.
use rnde_m.Prelude.{
  ℕ, ◌≤◌, ◌≡◌, ◌≢◌, ◌↔◌, ap, ◌∙◌, true, false, List, [], ◌∷◌, ◌++◌, arith, select, take_last, any,
  All, All-map, Pairwise, ℤ, pos, negsuc, accepts, eq_text, eq_text_iff, Pairwise-select,
  Pairwise-drop, Pairwise-snoc, All-append,
}
use rnde_m.Context.Causal.{RecentCausalTransition}
use rnde_m.Context.ShortMemory.{
  ShortMemory, is_before, is_recent, retained, validate_tick, remember,
}
use rnde_m.Context.ShortMemory.Retained.{InOrder, retained-retained}

-- `tick ≤ last`, for the tick -1 of a memory that has seen nothing
abbrev pub AtMost : ℕ → ℤ → Type 0
AtMost tick (pos last) = tick ≤ last
AtMost tick (negsuc n) = ⊥

abbrev pub LastBy : ℤ → ℕ → Type 0
LastBy (pos last) tick = last ≤ tick
LastBy (negsuc n) tick = Unit

AtMost-trans : (n k : ℕ) (last : ℤ) → AtMost n last → is_before k last ≡ false → n ≤ k
AtMost-trans n k (pos l) h b = ground arith
AtMost-trans n k (negsuc l) h b = absurd h

pub LastBy-le : (last : ℤ) (tick later : ℕ) → LastBy last tick → tick ≤ later → LastBy last later
LastBy-le (pos l) tick later h le = omega arith
LastBy-le (negsuc n) tick later h le = tt

module _ {V : Type 0} where
  abbrev pub OtherId : RecentCausalTransition V → RecentCausalTransition V → Type 0
  OtherId r q = r.transition_id ≢ q.transition_id

  -- The memory holds the retained part of the history, the history is in observation order and not
  -- after the last observation, and no two entries have one id.
  pub record Refines (m : ShortMemory V) (history : List (RecentCausalTransition V)) : Type 0 where
    pub holds : m.entries ≡ retained m.max_entries m.max_age_ticks history m.current_tick
    pub in_order : InOrder history
    pub seen :
        All
          (λ (r : RecentCausalTransition V). AtMost r.observation_tick m.last_observation_tick)
          history
    pub clock : LastBy m.last_observation_tick m.current_tick
    pub distinct : Pairwise OtherId m.entries

  unused_iff :
      (r : RecentCausalTransition V) (xs : List (RecentCausalTransition V))
      → (any (λ (e : RecentCausalTransition V). eq_text e.transition_id r.transition_id) xs ≡ false)
        ↔ All (λ e. OtherId e r) xs
  unused_iff r [] = ground arith
  unused_iff r (e ∷ xs) =
      ground (arith, eq_text_iff e.transition_id r.transition_id, unused_iff r xs)

  -- When a transition is taken in.
  pub record CanRemember (m : ShortMemory V) (r : RecentCausalTransition V) (tick : ℕ)
      : Type 0 where
    pub not_past : m.current_tick ≤ tick
    pub observed : r.observation_tick ≤ tick
    pub after_last : is_before r.observation_tick m.last_observation_tick ≡ false
    pub unused : All (λ e. OtherId e r) m.entries

  abbrev pub remembered : ShortMemory V → RecentCausalTransition V → ℕ → ShortMemory V
  remembered m r tick = record m {
    entries = retained m.max_entries m.max_age_ticks (m.entries ++ r ∷ []) tick;
    current_tick = tick;
    last_observation_tick = pos r.observation_tick;
  }

  -- `remember` takes a transition in exactly when the tick is not in the past of the memory, the
  -- observation is neither in the future nor older than the last one, and no retained entry has the
  -- transition's id; the entry is then appended and the memory pruned at the tick. Otherwise the
  -- memory is unchanged.
  pub remember_iff :
      (m : ShortMemory V) (r : RecentCausalTransition V) (tick : ℕ)
      → ((accepts (remember r (pos tick) m).0 ≡ true) ↔ CanRemember m r tick)
        × (CanRemember m r tick → (remember r (pos tick) m).1 ≡ remembered m r tick)
        × ((accepts (remember r (pos tick) m).0 ≡ false) → (remember r (pos tick) m).1 ≡ m)
  unfolding remember validate_tick
  remember_iff m r tick = ground (arith, unused_iff r m.entries)

  pub Pairwise-retained :
      (R : RecentCausalTransition V → RecentCausalTransition V → Type 0) (n age tick : ℕ)
      (xs : List (RecentCausalTransition V))
      → Pairwise R xs
      → Pairwise R (retained n age xs tick)
  unfolding retained take_last
  Pairwise-retained R n age tick xs h =
      Pairwise-drop R _ (select (is_recent age tick) xs)
        (Pairwise-select R (is_recent age tick) xs h)

  pub remembered-Refines :
      (m : ShortMemory V) (r : RecentCausalTransition V) (tick : ℕ)
      (history : List (RecentCausalTransition V))
      → Refines m history
      → CanRemember m r tick
      → Refines (remembered m r tick) (history ++ r ∷ [])
  remembered-Refines m r tick history h c =
      let earlier : All (λ (q : RecentCausalTransition V). q.observation_tick ≤ r.observation_tick)
          history =
        All-map
          (λ (q : RecentCausalTransition V) k.
            AtMost-trans q.observation_tick r.observation_tick m.last_observation_tick k
              c.after_last)
          history h.seen in
      record {
        holds =
            ap (λ es. retained m.max_entries m.max_age_ticks (es ++ r ∷ []) tick) h.holds
            ∙ retained-retained m.max_entries m.max_age_ticks m.current_tick tick history (r ∷ [])
                h.in_order c.not_past;
        in_order = Pairwise-snoc _ history r h.in_order earlier;
        seen = All-append _ history (r ∷ []) earlier (omega arith, tt);
        clock = c.observed;
        distinct =
            Pairwise-retained OtherId m.max_entries m.max_age_ticks tick (m.entries ++ r ∷ [])
              (Pairwise-snoc OtherId m.entries r h.distinct c.unused);
      }
