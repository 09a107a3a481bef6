-- ===== src/Prelude/Stages.antt =====
-- A method with early returns: a stage goes on with a value or stops with the method's result.
pub data Next {ℓ} (R A : Type ℓ) : Type ℓ where
  go : A → Next R A
  stop : R → Next R A

abbrev pub Stage : Type 0 → Type 0 → Type 0 → Type 0
Stage S R A = S → Next R A × S

infixl 5 ◌>>=◌ ◌>>◌
abbrev pub ◌>>=◌ : {S R A B : Type 0} → Stage S R A → (A → Stage S R B) → Stage S R B
◌>>=◌ m f s = let (n, s') = m s in elim n [ go a ↦ f a s' | stop r ↦ (stop r, s') ]

abbrev pub ◌>>◌ : {S R B : Type 0} → Stage S R (Unit {0}) → Stage S R B → Stage S R B
m >> k = m >>= λ _. k

-- `return`
abbrev pub returns : {S R A : Type 0} → R → Stage S R A
returns r s = (stop r, s)

-- The result of the whole method.
abbrev pub settle : {R : Type 0} → Next R R → R
settle (go r) = r
settle (stop r) = r
