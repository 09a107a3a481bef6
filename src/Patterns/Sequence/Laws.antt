-- ===== src/Patterns/Sequence/Laws.antt =====
-- The order that `NFPSequence` checks, and the ticks derived from it.
use rnde_m.Prelude.{
  ℕ, ◌≤◌, ◌≡◌, refl, ◌∙◌, true, Option, some, List, [], ◌∷◌, arith, ok, accepts, Text, ap, subst,
  All, ltb, if◌then◌else◌,
}
use rnde_m.Patterns.Model.{PatternModality, PatternTopology}
use rnde_m.Patterns.Window
use rnde_m.Patterns.Window.{NfpWindow}
use rnde_m.Patterns.Sequence.{
  NfpSequence, check_windows, make_sequence, windows, min_of, max_of, starts, ends, start_tick,
  end_tick,
}

le-max_of : (best : ℕ) (ns : List ℕ) → best ≤ max_of best ns
unfolding max_of
le-max_of best [] = omega arith
le-max_of best (n ∷ ns) = ground (arith, le-max_of n ns, le-max_of best ns)

module _ {V : Type 0} where
  -- No window starts before the one in front of it.
  abbrev pub Ordered : ℕ → List (NfpWindow V) → Type 0
  Ordered start [] = Unit
  Ordered start (w ∷ ws) = (start ≤ Window.start_tick w) × Ordered (Window.start_tick w) ws

  check_windows-Ordered :
      (m : PatternModality) (t : PatternTopology) (start : ℕ) (ws : List (NfpWindow V))
      → accepts (check_windows m t (some start) ws) ≡ true
      → Ordered start ws
  unfolding check_windows
  check_windows-Ordered m t start [] h = tt
  check_windows-Ordered m t start (w ∷ ws) h =
      ground (arith, check_windows-Ordered m t (Window.start_tick w) ws)

  min_of-Ordered :
      (best start : ℕ) (ws : List (NfpWindow V))
      → best ≤ start
      → Ordered start ws
      → min_of best (starts ws) ≡ best
  unfolding min_of
  min_of-Ordered best start [] h o = refl
  min_of-Ordered best start (w ∷ ws) h o =
      ap (λ b. min_of b (starts ws)) (ground arith)
      ∙ min_of-Ordered best (Window.start_tick w) ws (omega arith) o.1

  ends-le-max_of :
      (best : ℕ) (ws : List (NfpWindow V)) → All (λ w. Window.end_tick w ≤ max_of best (ends ws)) ws
  unfolding max_of
  ends-le-max_of best [] = tt
  ends-le-max_of best (w ∷ ws) =
      let b = if ltb best (Window.end_tick w) then Window.end_tick w else best in
      (ground (arith, le-max_of b (ends ws)), ends-le-max_of b ws)

  Ordered-starts :
      (start low : ℕ) (ws : List (NfpWindow V))
      → low ≤ start
      → Ordered start ws
      → All (λ w. low ≤ Window.start_tick w) ws
  Ordered-starts start low [] h o = tt
  Ordered-starts start low (w ∷ ws) h o =
      (omega arith, Ordered-starts (Window.start_tick w) low ws (omega arith) o.1)

  make_sequence-Ordered :
      (id : Text) (ws : List (NfpWindow V)) (provenance debug : Option Text) (s : NfpSequence V)
      → make_sequence id ws provenance debug ≡ ok s
      → (windows s ≡ ws) × Ordered (Window.start_tick s.first) s.rest
  unfolding make_sequence check_windows
  make_sequence-Ordered id [] provenance debug s e = ground arith
  make_sequence-Ordered id (w ∷ ws) provenance debug s e = ground (
    arith,
    check_windows-Ordered (Window.modality w) (Window.topology w) (Window.start_tick w) ws,
  )

  -- Of a sequence that the constructor returned, the minimum of the start ticks is the first
  -- window's start, and every window starts and ends within the sequence's two ticks.
  pub make_sequence-ticks :
      (id : Text) (ws : List (NfpWindow V)) (provenance debug : Option Text) (s : NfpSequence V)
      → make_sequence id ws provenance debug ≡ ok s
      → (windows s ≡ ws)
        × (start_tick s ≡ Window.start_tick s.first)
        × All (λ w. start_tick s ≤ Window.start_tick w) ws
        × All (λ w. Window.end_tick w ≤ end_tick s) ws
  unfolding start_tick end_tick
  make_sequence-ticks id ws provenance debug s e =
      let kept = make_sequence-Ordered id ws provenance debug s e in
      let start = Window.start_tick s.first in
      let least : start_tick s ≡ start = min_of-Ordered start start s.rest (omega arith) kept.1 in
      (
        kept.0,
        least,
        subst (All (λ w. start_tick s ≤ Window.start_tick w)) kept.0
            (omega arith, Ordered-starts start (start_tick s) s.rest (omega arith) kept.1),
        subst (All (λ w. Window.end_tick w ≤ end_tick s)) kept.0 (
          le-max_of (Window.end_tick s.first) (ends s.rest),
          ends-le-max_of (Window.end_tick s.first) s.rest,
        ),
      )
