-- ===== src/Transduction/Windowing/Feeds.antt =====
-- Frames pushed one after the other: the windows that come out.
use rnde_m.Prelude.{
  ℕ, suc, ◌-◌, ◌<◌, ◌≡◌, refl, sym, ap, ◌∙◌, subst, Option, none, some, List, [], ◌∷◌, ◌++◌,
  append_assoc, append-nil, map, arith, ltb, length, take_last, take_last-short, if◌then◌else◌,
  Bool-cases, inl, inr, Result, ok, raised, ◌⊎◌, Error,
}
use rnde_m.Patterns.Model.{NfpFrame}
use rnde_m.Patterns.Window.{NfpWindow, frames}
use rnde_m.Transduction.Windowing.{NfpWindowAssembler, push, fresh_assembler}
use rnde_m.Transduction.Windowing.Series.{in_order, Fits, IsSeries, state_of}
use rnde_m.Transduction.Windowing.Outcomes.{
  window_of, output, Answer, fitting, refused, push_answer, length_of_last,
}

module _ {V : Type 0} where
  abbrev pub emitted : Result (Option (NfpWindow V)) → List (NfpWindow V)
  emitted (ok none) = []
  emitted (ok (some w)) = w ∷ []
  emitted (raised e) = []

  -- The windows that pushing the frames gives, a frame that raises being passed over.
  unfoldable pub feed :
      List (NfpFrame V) → NfpWindowAssembler V → List (NfpWindow V) × NfpWindowAssembler V
  feed [] s = ([], s)
  feed (f ∷ fs) s = let (r, s') = push f s in let (ws, end) = feed fs s' in (emitted r ++ ws, end)

  -- The last `n` frames of a series, if it has so many, and those of every shorter series, in order.
  abbrev pub latest : ℕ → List (NfpFrame V) → List (List (NfpFrame V))
  latest n h = if ltb (length h) n then [] else take_last n (in_order h) ∷ []

  unfoldable pub sliding : ℕ → List (NfpFrame V) → List (List (NfpFrame V))
  sliding n [] = []
  sliding n (f ∷ older) = sliding n older ++ latest n (f ∷ older)

  frames_of_window :
      (k : ℕ) (fs : List (NfpFrame V))
      → 0 < length fs
      → map frames (emitted (ok (window_of k fs))) ≡ fs ∷ []
  frames_of_window k [] h = absurd (omega arith)
  frames_of_window k (f ∷ fs) h = refl

  frames_of_output :
      (n : ℕ) (f : NfpFrame V) (h : List (NfpFrame V))
      → 0 < n
      → map frames (emitted (ok (output n (f ∷ h)))) ≡ latest n (f ∷ h)
  frames_of_output n f h p = elim (Bool-cases (ltb (suc (length h)) n)) [
    | inl few ↦ rw few refl
    | inr enough ↦
        let fs = take_last n (in_order (f ∷ h)) in
        let some_left : 0 < length fs = ground (arith, length_of_last n (f ∷ h)) in
        rw enough (frames_of_window (suc (suc (length h)) - n) fs some_left)
  ]

  map-append_frames :
      (xs ys : List (NfpWindow V)) → map frames (xs ++ ys) ≡ map frames xs ++ map frames ys
  map-append_frames [] ys = refl
  map-append_frames (x ∷ xs) ys = ap (λ l. frames x ∷ l) (map-append_frames xs ys)

  feed_step :
      (f : NfpFrame V) (fs : List (NfpFrame V)) (s s' : NfpWindowAssembler V)
      (r : Result (Option (NfpWindow V)))
      → push f s ≡ (r, s')
      → feed (f ∷ fs) s ≡ (emitted r ++ (feed fs s').0, (feed fs s').1)
  unfolding feed
  feed_step f fs s s' r e =
      ap
        (λ (p : Result (Option (NfpWindow V)) × NfpWindowAssembler V).
          (emitted p.0 ++ (feed fs p.1).0, (feed fs p.1).1))
        e

  -- The series that frames make of an older one: those that fit join it, the others are left out.
  pub data Grows : List (NfpFrame V) → List (NfpFrame V) → List (NfpFrame V) → Type 0 where
    done : {h : List (NfpFrame V)} → Grows [] h h
    takes :
        {f : NfpFrame V} {fs h longer : List (NfpFrame V)}
        → Fits f h
        → Grows fs (f ∷ h) longer
        → Grows (f ∷ fs) h longer
    skips :
        {f : NfpFrame V} {fs h longer : List (NfpFrame V)}
        → ¬ Fits f h
        → Grows fs h longer
        → Grows (f ∷ fs) h longer

  -- What feeding has made of a series, with the frames of the windows that came out.
  pub record Fed (n : ℕ) (fs h : List (NfpFrame V))
      (out : List (NfpWindow V) × NfpWindowAssembler V) (longer : List (NfpFrame V)) : Type 0 where
    pub grown : Grows fs h longer
    pub series : IsSeries longer
    pub state : out.1 ≡ state_of n longer
    pub windows : sliding n h ++ map frames out.0 ≡ sliding n longer

  windows_step :
      (n : ℕ) (f : NfpFrame V) (h : List (NfpFrame V)) (now rest : List (NfpWindow V))
      → map frames now ≡ latest n (f ∷ h)
      → sliding n h ++ map frames (now ++ rest) ≡ sliding n (f ∷ h) ++ map frames rest
  unfolding sliding
  windows_step n f h now rest e =
      ap (λ l. sliding n h ++ l) (map-append_frames now rest ∙ ap (λ l. l ++ map frames rest) e)
      ∙ sym (append_assoc (sliding n h) (latest n (f ∷ h)) (map frames rest))

  answered :
      (n : ℕ) (f : NfpFrame V) (h : List (NfpFrame V))
      (r : Result (Option (NfpWindow V)) × NfpWindowAssembler V)
      → Answer n f h r
      → (Fits f h × (r ≡ (ok (output n (f ∷ h)), state_of n (f ∷ h))))
        ⊎ ((e : Error) × (¬ Fits f h) × (r ≡ (raised e, state_of n h)))
  answered n f h r (fitting k) = inl (k, refl)
  answered n f h r (refused k e) = inr (e, k, refl)

  Fed-takes :
      (n : ℕ) (f : NfpFrame V) (fs h longer : List (NfpFrame V))
      → 0 < n
      → Fits f h
      → push f (state_of n h) ≡ (ok (output n (f ∷ h)), state_of n (f ∷ h))
      → Fed n fs (f ∷ h) (feed fs (state_of n (f ∷ h))) longer
      → Fed n (f ∷ fs) h (feed (f ∷ fs) (state_of n h)) longer
  Fed-takes n f fs h longer p k e fed =
      let now = emitted (ok (output n (f ∷ h))) in
      let rest = (feed fs (state_of n (f ∷ h))).0 in
      subst (λ out. Fed n (f ∷ fs) h out longer)
        (sym (feed_step f fs (state_of n h) (state_of n (f ∷ h)) (ok (output n (f ∷ h))) e))
        (record {
          grown = takes k fed.grown;
          series = fed.series;
          state = fed.state;
          windows = windows_step n f h now rest (frames_of_output n f h p) ∙ fed.windows;
        })

  Fed-skips :
      (n : ℕ) (f : NfpFrame V) (fs h longer : List (NfpFrame V)) (x : Error)
      → ¬ Fits f h
      → push f (state_of n h) ≡ (raised x, state_of n h)
      → Fed n fs h (feed fs (state_of n h)) longer
      → Fed n (f ∷ fs) h (feed (f ∷ fs) (state_of n h)) longer
  Fed-skips n f fs h longer x k e fed =
      subst (λ out. Fed n (f ∷ fs) h out longer)
        (sym (feed_step f fs (state_of n h) (state_of n h) (raised x) e))
        (record {
          grown = skips k fed.grown;
          series = fed.series;
          state = fed.state;
          windows = fed.windows;
        })

  feed-Fed :
      (n : ℕ) (fs h : List (NfpFrame V))
      → 0 < n
      → IsSeries h
      → (longer : List (NfpFrame V)) × Fed n fs h (feed fs (state_of n h)) longer
  unfolding feed
  feed-Fed n [] h p s =
      (h, record { grown = done; series = s; state = refl; windows = append-nil (sliding n h) })
  feed-Fed n (f ∷ fs) h p s =
      elim (answered n f h (push f (state_of n h)) (push_answer n f h p s)) [
        | inl (k, e) ↦
            let (longer, fed) = feed-Fed n fs (f ∷ h) p (k, s) in
            (longer, Fed-takes n f fs h longer p k e fed)
        | inr (x, k, e) ↦
            let (longer, fed) = feed-Fed n fs h p s in (longer, Fed-skips n f fs h longer x k e fed)
      ]

  fresh_state : (n : ℕ) → 0 < n → state_of {V = V} n [] ≡ fresh_assembler n
  unfolding in_order
  fresh_state n p =
      let first : suc (1 - n) ≡ 1 = omega arith in
      let none_kept : take_last {A = NfpFrame V} n [] ≡ [] = take_last-short n [] (omega arith) in
      rw (first, none_kept) refl

  -- Whatever frames are pushed to a new assembler of windows of `n` frames, `n` positive: the series
  -- that it accepts is made of the frames that fit what was accepted before them, its state is the one that
  -- belongs to that series, and the windows that came out hold the last `n` frames of each beginning
  -- of the series that has so many, in order and none left out.
  pub feed_sliding :
      (n : ℕ) (fs : List (NfpFrame V))
      → 0 < n
      → (h : List (NfpFrame V)) × Fed n fs [] (feed fs (fresh_assembler n)) h
  feed_sliding n fs p =
      subst (λ s. (h : List (NfpFrame V)) × Fed n fs [] (feed fs s) h) (fresh_state n p)
        (feed-Fed n fs [] p tt)
