-- ===== src/Transduction/Windowing/Sliding.antt =====
-- The assembler against the list of the frames that it has accepted.
use rnde_m.Prelude.{
  ℕ, zero, suc, ◌-◌, ◌≤◌, ◌<◌, ◌≡◌, refl, sym, true, false, List, [], ◌∷◌, ◌++◌, arith, leb, length,
  length-append, length-drop, drop, take_last, take_last-short, Bool-cases, inl, inr,
}
use rnde_m.Patterns.Model.{NfpFrame}
use rnde_m.Transduction.Windowing.{append_bounded}

module _ {A : Type 0} where
  drop-append : (k : ℕ) (xs ys : List A) → k ≤ length xs → drop k (xs ++ ys) ≡ drop k xs ++ ys
  drop-append zero xs ys h = refl
  drop-append (suc k) [] ys h = absurd (omega arith)
  drop-append (suc k) (x ∷ xs) ys h = drop-append k xs ys (omega arith)

  drop_one-drop : (k : ℕ) (xs : List A) → drop 1 (drop k xs) ≡ drop (suc k) xs
  drop_one-drop zero xs = refl
  drop_one-drop (suc k) [] = refl
  drop_one-drop (suc k) (x ∷ xs) = drop_one-drop k xs

module _ {V : Type 0} where
  append_below :
      (n : ℕ) (h : List (NfpFrame V)) (f : NfpFrame V)
      → length h < n
      → append_bounded n (take_last n h) f ≡ take_last n (h ++ f ∷ [])
  unfolding append_bounded
  append_below n h f p =
      let whole : length (h ++ f ∷ []) ≤ n = omega (arith, length-append h (f ∷ [])) in
      let below : leb n (length h) ≡ false = ground arith in
      rw (take_last-short n h (omega arith), take_last-short n (h ++ f ∷ []) whole, below) refl

  append_above :
      (n : ℕ) (h : List (NfpFrame V)) (f : NfpFrame V)
      → 0 < n
      → n ≤ length h
      → append_bounded n (take_last n h) f ≡ take_last n (h ++ f ∷ [])
  unfolding append_bounded take_last
  append_above n h f p q =
      let one_more : length (h ++ f ∷ []) - n ≡ suc (length h - n) =
        omega (arith, length-append h (f ∷ [])) in
      let full : leb n (length (drop (length h - n) h)) ≡ true =
        ground (arith, length-drop (length h - n) h) in
      let tail : drop 1 (drop (length h - n) h) ≡ drop (suc (length h - n)) h =
        drop_one-drop (length h - n) h in
      rw (full, tail, one_more) (sym (drop-append (suc (length h - n)) h (f ∷ []) (omega arith)))

  -- Appending to the last frames of a history gives the last frames of the longer history.
  pub append_bounded-take_last :
      (n : ℕ) (h : List (NfpFrame V)) (f : NfpFrame V)
      → 0 < n
      → append_bounded n (take_last n h) f ≡ take_last n (h ++ f ∷ [])
  append_bounded-take_last n h f p = elim (Bool-cases (leb n (length h))) [
    | inl full ↦ append_above n h f p (ground arith)
    | inr room ↦ append_below n h f (ground arith)
  ]
