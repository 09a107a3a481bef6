-- ===== src/Context/ShortMemory/Retained.antt =====
-- Forgetting now and again later is forgetting once: the retained part of a history in observation
-- order does not depend on when the memory was pruned.
use rnde_m.Prelude.{
  ℕ, suc, ◌≤◌, ◌≡◌, refl, sym, ap, ◌∙◌, Bool, true, List, [], ◌∷◌, ◌++◌, arith, length, select,
  take_last, leb, All, All-map, Pairwise, take_last-short, take_last-cons, select-append,
  select-select, select-All, length-append, Pairwise-select, Bool-cases, inl, inr,
}
use rnde_m.Context.Causal.{RecentCausalTransition}
use rnde_m.Context.ShortMemory.{retained, is_recent}

module _ {A : Type 0} (p : A → Bool) where
  -- Once an element passes, every later one does.
  abbrev pub Monotone : List A → Type 0
  Monotone xs = Pairwise (λ x y. p x ≡ true → p y ≡ true) xs

  skip_first :
      (n : ℕ) (x : A) (xs zs : List A)
      → All (λ y. p x ≡ true → p y ≡ true) xs
      → n ≤ length xs
      → take_last n (select p xs ++ zs) ≡ take_last n (select p (x ∷ xs) ++ zs)
  skip_first n x xs zs h long = elim (Bool-cases (p x)) [
    | inl passes ↦
        let all_pass = select-All p xs (All-map (λ y f. f passes) xs h) in
        rw (passes, all_pass)
          (sym (take_last-cons n x (xs ++ zs) (omega (arith, length-append xs zs))))
    | inr fails ↦ rw fails refl
  ]

  take_last-select :
      (n : ℕ) (xs zs : List A)
      → Monotone xs
      → take_last n (select p (take_last n xs) ++ zs) ≡ take_last n (select p xs ++ zs)
  take_last-select n [] zs h =
      ap (λ l. take_last n (select p l ++ zs)) (take_last-short n [] (omega arith))
  take_last-select n (x ∷ xs) zs h = elim (Bool-cases (leb (suc (length xs)) n)) [
    | inl short ↦ rw (take_last-short n (x ∷ xs) (ground arith))
    | inr long ↦
        rw (take_last-cons n x xs (ground arith))
          (take_last-select n xs zs h.1 ∙ skip_first n x xs zs h.0 (ground arith))
  ]

module _ {V : Type 0} where
  -- Observation ticks never go down along the list.
  abbrev pub InOrder : List (RecentCausalTransition V) → Type 0
  InOrder xs =
      Pairwise (λ (r q : RecentCausalTransition V). r.observation_tick ≤ q.observation_tick) xs

  recent-Monotone :
      (age tick : ℕ) (xs : List (RecentCausalTransition V))
      → InOrder xs
      → Monotone (is_recent age tick) xs
  recent-Monotone age tick [] h = tt
  recent-Monotone age tick (x ∷ xs) h =
      (All-map (λ y le passes. ground arith) xs h.0, recent-Monotone age tick xs h.1)

  -- What is retained at a later tick of what was retained at an earlier one, with new entries added,
  -- is what is retained of everything.
  pub retained-retained :
      (n age tick later : ℕ) (xs ys : List (RecentCausalTransition V))
      → InOrder xs
      → tick ≤ later
      → retained n age (retained n age xs tick ++ ys) later ≡ retained n age (xs ++ ys) later
  unfolding retained
  retained-retained n age tick later xs ys h le =
      let now = is_recent age tick in
      let then_on = is_recent age later in
      ap (take_last n) (select-append then_on (take_last n (select now xs)) ys)
      ∙ (take_last-select then_on n (select now xs) (select then_on ys)
            (Pairwise-select _ now xs (recent-Monotone age later xs h))
          ∙ ap (take_last n) (
              ap (λ l. l ++ select then_on ys)
                (select-select then_on now xs (λ r passes. ground arith))
              ∙ sym (select-append then_on xs ys)))
