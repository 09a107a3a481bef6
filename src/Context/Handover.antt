-- ===== src/Context/Handover.antt =====
-- The two halves of clc/context together: the transitions that the manager completes, handed to
-- the short memory as they are observed.
use rnde_m.Prelude.{
  ℕ, ◌≡◌, refl, ap, List, [], ◌∷◌, ◌++◌, map, arith, All, All-zip, Pairwise, pos, ok, Result-cases,
  inl, inr, All-take_last, All-select, All-append, select,
}
use rnde_m.Context.Causal.{RecentCausalTransition}
use rnde_m.Context.Manager.{initial}
use rnde_m.Context.Manager.Traces.{Event, run, CompletedBefore, run_ordered}
use rnde_m.Context.ShortMemory.{ShortMemory, fresh_memory, is_recent, retained, remember}
use rnde_m.Context.ShortMemory.History.{OtherId, CanRemember, remembered, remember_iff}
use rnde_m.Context.ShortMemory.Calls.{Call, remember_call, call, serve}

module _ {V : Type 0} where
  -- A completed transition is remembered at the tick at which it was observed.
  abbrev pub handed : RecentCausalTransition V → Call V
  handed r = remember_call r (pos r.observation_tick)

  Welcome : ShortMemory V → RecentCausalTransition V → Type 0
  Welcome m r = CanRemember m r r.observation_tick

  retained-OtherId :
      (q : RecentCausalTransition V) (n age tick : ℕ) (xs : List (RecentCausalTransition V))
      → All (λ e. OtherId e q) xs
      → All (λ e. OtherId e q) (retained n age xs tick)
  unfolding retained
  retained-OtherId q n age tick xs h =
      All-take_last _ n (select (is_recent age tick) xs) (All-select _ (is_recent age tick) xs h)

  still-Welcome :
      (m : ShortMemory V) (r q : RecentCausalTransition V)
      → CompletedBefore r q
      → Welcome m q
      → Welcome (remembered m r r.observation_tick) q
  unfolding Welcome
  still-Welcome m r q before c = record {
    not_past = omega arith;
    observed = omega arith;
    after_last = ground arith;
    unused =
        retained-OtherId q m.max_entries m.max_age_ticks r.observation_tick (m.entries ++ r ∷ [])
          (All-append _ m.entries (r ∷ []) c.unused (before.other_name, tt));
  }

  remember-ok :
      (m : ShortMemory V) (r : RecentCausalTransition V)
      → Welcome m r
      → ((remember r (pos r.observation_tick) m).0 ≡ ok tt)
        × ((remember r (pos r.observation_tick) m).1 ≡ remembered m r r.observation_tick)
  unfolding Welcome
  remember-ok m r c =
      let known = remember_iff m r r.observation_tick in
      elim (Result-cases (remember r (pos r.observation_tick) m).0) [
        | inl (e, failed) ↦ absurd (ground (arith, known.0.1 c))
        | inr (u, done) ↦ (done, known.1 c)
      ]

  serve-handed :
      (m : ShortMemory V) (rs : List (RecentCausalTransition V))
      → Pairwise CompletedBefore rs
      → All (Welcome m) rs
      → (serve (map handed rs) m).1 ≡ rs
  unfolding serve call
  serve-handed m [] h k = refl
  serve-handed m (r ∷ rs) h k =
      rw ((remember-ok m r k.0).0, (remember-ok m r k.0).1)
        (ap (λ l. r ∷ l)
          (serve-handed (remembered m r r.observation_tick) rs h.1
            (All-zip (still-Welcome m r) rs h.0 k.1)))

  fresh-Welcome : (n age : ℕ) (r : RecentCausalTransition V) → Welcome (fresh_memory n age) r
  unfolding Welcome
  fresh-Welcome n age r = record {
    not_past = omega arith;
    observed = omega arith;
    after_last = refl;
    unused = tt;
  }

  All-always :
      (P : RecentCausalTransition V → Type 0) (rs : List (RecentCausalTransition V))
      → ((r : RecentCausalTransition V) → P r)
      → All P rs
  All-always P [] f = tt
  All-always P (r ∷ rs) f = (f r, All-always P rs f)

  -- A new short memory of any size takes in every transition that the manager completes, each at
  -- its observation tick: none is refused for its time, its order or its id.
  pub handover_complete :
      (es : List (Event V)) (n age : ℕ)
      → let rs = (run es initial).0 in (serve (map handed rs) (fresh_memory n age)).1 ≡ rs
  handover_complete es n age =
      serve-handed (fresh_memory n age) (run es initial).0 (run_ordered es)
        (All-always (Welcome (fresh_memory n age)) (run es initial).0 (fresh-Welcome n age))
