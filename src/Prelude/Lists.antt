-- ===== src/Prelude/Lists.antt =====
-- Lists (Python's tuples, lists and deques) measured by native numbers, under the library's names.
use Prim.Native.Nat.{ℕ, zero, suc, ◌+◌, ◌-◌, ◌≤◌}
use mathlib.Core.Path.{◌≡◌, refl, ap}
use mathlib.Core.Bool.{Bool, true, false, ◌||◌, ◌&&◌}
use mathlib.Core.List.{List, [], ◌∷◌, ◌++◌}
use native.Mathlib.Omega.{arith}
use rnde_m.Prelude.Tests.{if◌then◌else◌}

module _ {ℓ} {A : Type ℓ} where
  abbrev pub length : List A → ℕ
  length [] = 0
  length (x ∷ xs) = suc (length xs)

  -- A filter by a Boolean test: the comprehension `[x for x in xs if p(x)]`.
  abbrev pub select : (A → Bool) → List A → List A
  select p [] = []
  select p (x ∷ xs) = let rest = select p xs in if p x then x ∷ rest else rest

  -- `any(p(x) for x in xs)` and `all(p(x) for x in xs)`
  abbrev pub any : (A → Bool) → List A → Bool
  any p [] = false
  any p (x ∷ xs) = p x || any p xs

  abbrev pub all : (A → Bool) → List A → Bool
  all p [] = true
  all p (x ∷ xs) = p x && all p xs

  abbrev pub drop : ℕ → List A → List A
  drop zero xs = xs
  drop (suc n) [] = []
  drop (suc n) (x ∷ xs) = drop n xs

  abbrev pub take : ℕ → List A → List A
  take zero xs = []
  take (suc n) [] = []
  take (suc n) (x ∷ xs) = x ∷ take n xs

  -- `xs[-1]` of the non-empty `x ∷ xs`
  abbrev pub last_of : A → List A → A
  last_of x [] = x
  last_of x (y ∷ ys) = last_of y ys

module _ {ℓ} {A : Type ℓ} where
  -- `xs[-n:]` for a positive `n`
  unfoldable pub take_last : ℕ → List A → List A
  take_last n xs = drop (length xs - n) xs

  pub length-append : (xs ys : List A) → length (xs ++ ys) ≡ length xs + length ys
  length-append [] ys = omega arith
  length-append (x ∷ xs) ys = omega (arith, length-append xs ys)

  pub length-drop : (n : ℕ) (xs : List A) → length (drop n xs) ≡ length xs - n
  length-drop zero xs = omega arith
  length-drop (suc n) [] = omega arith
  length-drop (suc n) (x ∷ xs) = omega (arith, length-drop n xs)

-- Every element has the property; a tuple that the tactics read.
abbrev pub All {ℓ κ} : {A : Type ℓ} → (A → Type κ) → List A → Type κ
All P [] = Unit
All P (x ∷ xs) = P x × All P xs

-- Every element is related to every later one.
abbrev pub Pairwise {ℓ} : {A : Type ℓ} → (A → A → Type 0) → List A → Type 0
Pairwise R [] = Unit
Pairwise R (x ∷ xs) = All (R x) xs × Pairwise R xs

pub All-map {ℓ κ} :
    {A : Type ℓ} {P Q : A → Type κ} (f : (a : A) → P a → Q a) (xs : List A) → All P xs → All Q xs
All-map f [] h = tt
All-map f (x ∷ xs) h = (f x h.0, All-map f xs h.1)

pub All-zip {ℓ κ} :
    {A : Type ℓ} {P Q R : A → Type κ} (f : (a : A) → P a → Q a → R a) (xs : List A)
    → All P xs
    → All Q xs
    → All R xs
All-zip f [] h k = tt
All-zip f (x ∷ xs) h k = (f x h.0 k.0, All-zip f xs h.1 k.1)

module _ {ℓ} {A : Type ℓ} where
  pub take_last-short : (n : ℕ) (xs : List A) → length xs ≤ n → take_last n xs ≡ xs
  unfolding take_last
  take_last-short n xs h = ap (λ k. drop k xs) (let e : length xs - n ≡ 0 = omega arith in e)

  pub take_last-cons :
      (n : ℕ) (x : A) (xs : List A) → n ≤ length xs → take_last n (x ∷ xs) ≡ take_last n xs
  unfolding take_last
  take_last-cons n x xs h =
      ap (λ k. drop k (x ∷ xs))
        (let e : suc (length xs) - n ≡ suc (length xs - n) = omega arith in e)

  pub length-take_last : (n : ℕ) (xs : List A) → length (take_last n xs) ≤ n
  unfolding take_last
  length-take_last n xs = omega (arith, length-drop (length xs - n) xs)

  pub select-append :
      (p : A → Bool) (xs ys : List A) → select p (xs ++ ys) ≡ select p xs ++ select p ys
  select-append p [] ys = refl
  select-append p (x ∷ xs) ys = ground (arith, select-append p xs ys)

  -- A weaker test first changes nothing.
  pub select-select :
      (p q : A → Bool) (xs : List A)
      → ((a : A) → p a ≡ true → q a ≡ true)
      → select p (select q xs) ≡ select p xs
  select-select p q [] h = refl
  select-select p q (x ∷ xs) h = ground (arith, select-select p q xs h, h x)

  pub select-All : (p : A → Bool) (xs : List A) → All (λ a. p a ≡ true) xs → select p xs ≡ xs
  select-All p [] h = refl
  select-All p (x ∷ xs) h = ground (arith, select-All p xs h.1)

  pub All-select : (P : A → Type 0) (p : A → Bool) (xs : List A) → All P xs → All P (select p xs)
  All-select P p [] h = tt
  All-select P p (x ∷ xs) h = ground (arith, All-select P p xs h.1)

  pub select-holds : (p : A → Bool) (xs : List A) → All (λ a. p a ≡ true) (select p xs)
  select-holds p [] = tt
  select-holds p (x ∷ xs) = ground (arith, select-holds p xs)

  pub All-drop : (P : A → Type 0) (n : ℕ) (xs : List A) → All P xs → All P (drop n xs)
  All-drop P zero xs h = h
  All-drop P (suc n) [] h = tt
  All-drop P (suc n) (x ∷ xs) h = All-drop P n xs h.1

  pub All-take_last : (P : A → Type 0) (n : ℕ) (xs : List A) → All P xs → All P (take_last n xs)
  unfolding take_last
  All-take_last P n xs h = All-drop P (length xs - n) xs h

  pub All-append : (P : A → Type 0) (xs ys : List A) → All P xs → All P ys → All P (xs ++ ys)
  All-append P [] ys h k = k
  All-append P (x ∷ xs) ys h k = (h.0, All-append P xs ys h.1 k)

  pub Pairwise-select :
      (R : A → A → Type 0) (p : A → Bool) (xs : List A) → Pairwise R xs → Pairwise R (select p xs)
  Pairwise-select R p [] h = tt
  Pairwise-select R p (x ∷ xs) h =
      ground (arith, Pairwise-select R p xs h.1, All-select (R x) p xs h.0)

  pub Pairwise-drop :
      (R : A → A → Type 0) (n : ℕ) (xs : List A) → Pairwise R xs → Pairwise R (drop n xs)
  Pairwise-drop R zero xs h = h
  Pairwise-drop R (suc n) [] h = tt
  Pairwise-drop R (suc n) (x ∷ xs) h = Pairwise-drop R n xs h.1

  -- A list of related elements takes one more at its end that all are related to.
  pub Pairwise-snoc :
      (R : A → A → Type 0) (xs : List A) (y : A)
      → Pairwise R xs
      → All (λ x. R x y) xs
      → Pairwise R (xs ++ y ∷ [])
  Pairwise-snoc R [] y h k = (tt, tt)
  Pairwise-snoc R (x ∷ xs) y h k =
      (All-append (R x) xs (y ∷ []) h.0 (k.0, tt), Pairwise-snoc R xs y h.1 k.1)

pub All-last_of {ℓ κ} :
    {A : Type ℓ} (P : A → Type κ) (x : A) (xs : List A) → P x → All P xs → P (last_of x xs)
All-last_of P x [] h k = h
All-last_of P x (y ∷ ys) h k = All-last_of P y ys k.0 k.1
