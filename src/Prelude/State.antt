-- ===== src/Prelude/State.antt =====
-- A method call: state and exceptions. The state comes back after a raise too, since what was
-- written before it stays written.
use rnde_m.Prelude.Results.{Result, ok, raised}

abbrev pub Method {ℓ} : Type 0 → Type ℓ → Type ℓ
Method S A = S → Result A × S

module _ {ℓ} {S : Type 0} {A : Type ℓ} where
  abbrev pub pure : A → Method S A
  pure a s = (ok a, s)

  abbrev pub lift : Result A → Method S A
  lift r s = (r, s)

  abbrev pub gets : (S → A) → Method S A
  gets f s = (ok (f s), s)

abbrev pub modify : {S : Type 0} → (S → S) → Method S (Unit {0})
modify f s = (ok tt, f s)

infixl 5 ◌>>=◌ ◌>>◌
abbrev pub ◌>>=◌ {ℓ κ} :
    {S : Type 0} {A : Type ℓ} {B : Type κ} → Method S A → (A → Method S B) → Method S B
◌>>=◌ m f s = let (r, s') = m s in elim r [ ok a ↦ f a s' | raised e ↦ (raised e, s') ]

abbrev pub ◌>>◌ {ℓ} : {S : Type 0} {B : Type ℓ} → Method S (Unit {0}) → Method S B → Method S B
m >> k = m >>= λ _. k
