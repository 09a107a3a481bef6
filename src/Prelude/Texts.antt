-- ===== src/Prelude/Texts.antt =====
-- Python's `str` as its list of code points, with the methods that the program calls.
use Prim.Native.Nat.{ℕ}
use Prim.Native.Char.{code}
use Prim.Native.String.{String}
use mathlib.Core.Path.{◌≡◌, refl, ap, ◌∙◌}
use mathlib.Core.Logic.{◌↔◌, inl, inr}
use mathlib.Core.Bool.{Bool, true, false, ◌||◌, ◌&&◌}
use mathlib.Core.List.{List, [], ◌∷◌, ◌++◌}
use native.Mathlib.Omega.{arith}
use rnde_m.Prelude.Tests.{Bool-cases, leb, ◌==◌, if◌then◌else◌}

abbrev pub Text : Type 0
Text = List ℕ

-- A literal of the source.
abbrev pub codes : String → Text
codes String.[] = []
codes (String.◌∷◌ c s) = code c ∷ codes s

unfoldable pub eq_text : Text → Text → Bool
eq_text [] [] = true
eq_text (c ∷ s) (d ∷ t) = c == d && eq_text s t
eq_text _ _ = false

pub eq_text_iff : (s t : Text) → (eq_text s t ≡ true) ↔ (s ≡ t)
unfolding eq_text
eq_text_iff [] [] = ground arith
eq_text_iff [] (d ∷ t) = ground arith
eq_text_iff (c ∷ s) [] = ground arith
eq_text_iff (c ∷ s) (d ∷ t) = ground (arith, eq_text_iff s t)

pub eq_text_refl : (s : Text) → eq_text s s ≡ true
eq_text_refl s = (eq_text_iff s s).1 refl

abbrev pub is_empty {ℓ} : {A : Type ℓ} → List A → Bool
is_empty [] = true
is_empty (x ∷ xs) = false

-- `str.isspace` of one character
unfoldable pub is_space : ℕ → Bool
is_space c =
    (leb 9 c && leb c 13)
    || ((leb 28 c && leb c 32)
        || (c == 133
            || (c == 160
                || (c == 5760
                    || ((leb 8192 c && leb c 8202)
                        || (c == 8232
                            || (c == 8233 || (c == 8239 || (c == 8287 || c == 12288)))))))))

unfoldable pub strip_left : Text → Text
strip_left [] = []
strip_left (c ∷ s) = let rest = strip_left s in if is_space c then rest else c ∷ s

unfoldable pub strip_right : Text → Text
strip_right [] = []
strip_right (c ∷ s) =
    let rest = strip_right s in if is_empty rest && is_space c then [] else c ∷ rest

-- `str.strip()`
unfoldable pub strip : Text → Text
unfolding strip_left strip_right is_space
strip s = strip_right (strip_left s)

-- `not text.strip()`
abbrev pub is_blank : Text → Bool
is_blank s = is_empty (strip s)

strip_right_visible :
    (c : ℕ) (s : Text) → is_space c ≡ false → is_empty (strip_right (c ∷ s)) ≡ false
unfolding strip_right
strip_right_visible c s h = ground arith

-- A text whose first character is no space is not blank.
pub visible-blank : (c : ℕ) (s : Text) → is_space c ≡ false → is_blank (c ∷ s) ≡ false
unfolding strip
visible-blank c s h = rw h (strip_right_visible c s h)

-- A text without spaces.
abbrev pub IsUnspaced : Text → Type 0
IsUnspaced [] = Unit
IsUnspaced (c ∷ s) = (is_space c ≡ false) × IsUnspaced s

pub append-IsUnspaced : (s t : Text) → IsUnspaced s → IsUnspaced t → IsUnspaced (s ++ t)
append-IsUnspaced [] t h k = k
append-IsUnspaced (c ∷ s) t h k = (h.0, append-IsUnspaced s t h.1 k)

strip_right-unspaced : (s : Text) → IsUnspaced s → strip_right s ≡ s
unfolding strip_right
strip_right-unspaced [] h = refl
strip_right-unspaced (c ∷ s) h = ground (arith, strip_right-unspaced s h.1)

-- Nothing is stripped off it.
pub strip-unspaced : (s : Text) → IsUnspaced s → strip s ≡ s
unfolding strip strip_left
strip-unspaced [] h = refl
strip-unspaced (c ∷ s) h = rw h.0 (strip_right-unspaced (c ∷ s) h)

and-false : (b : Bool) → (b && false) ≡ false
and-false true = refl
and-false false = refl

-- A text that does not begin with a space.
abbrev Leads : Text → Type 0
Leads [] = Unit
Leads (c ∷ s) = is_space c ≡ false

strip_left-Leads : (s : Text) → Leads (strip_left s)
unfolding strip_left
strip_left-Leads [] = tt
strip_left-Leads (c ∷ s) = elim (Bool-cases (is_space c)) [
  | inl space ↦ rw space (strip_left-Leads s)
  | inr other ↦ rw other other
]

strip_left-kept : (s : Text) → Leads s → strip_left s ≡ s
unfolding strip_left
strip_left-kept [] h = refl
strip_left-kept (c ∷ s) h = rw h refl

strip_right-Leads : (s : Text) → Leads s → Leads (strip_right s)
unfolding strip_right
strip_right-Leads [] h = tt
strip_right-Leads (c ∷ s) h = rw (h, and-false (is_empty (strip_right s))) h

strip_right-strip_right : (s : Text) → strip_right (strip_right s) ≡ strip_right s
unfolding strip_right
strip_right-strip_right [] = refl
strip_right-strip_right (c ∷ s) = ground (arith, strip_right-strip_right s)

-- Stripping a second time changes nothing.
pub strip-strip : (s : Text) → strip (strip s) ≡ strip s
unfolding strip
strip-strip s =
    ap strip_right (
      strip_left-kept (strip_right (strip_left s))
        (strip_right-Leads (strip_left s) (strip_left-Leads s)))
    ∙ strip_right-strip_right (strip_left s)
