-- ===== src/Core/Ids/Laws.antt =====
-- The ids of one prefix are numbered one after the other, and different numbers name different ids.
use rnde_m.Prelude.{
  ℕ, ◌-◌, ◌≡◌, refl, sym, ap, ◌∙◌, false, List, [], ◌∷◌, ◌++◌, arith, length, Text, any, is_blank,
  is_empty, strip, strip-unspaced, eq_text_refl, IsUnspaced, append-IsUnspaced, is_space,
}
use rnde_m.Prelude.Decimal.{
  decimal, value_from, value_from-zeros, value_from-decimal, prefix-injective, padded-IsUnspaced,
}
use rnde_m.Core.Ids.{count_of, set_count, decimal03, id_name}

value_from-decimal03 : (n : ℕ) → value_from 0 (decimal03 n) ≡ n
unfolding decimal03
value_from-decimal03 n =
    value_from-zeros (3 - length (decimal n)) (decimal n) ∙ value_from-decimal n

decimal03-injective : (m n : ℕ) → decimal03 m ≡ decimal03 n → m ≡ n
decimal03-injective m n e =
    sym (value_from-decimal03 m) ∙ ap (value_from 0) e ∙ value_from-decimal03 n

pub id_name-injective : (prefix : Text) (m n : ℕ) → id_name prefix m ≡ id_name prefix n → m ≡ n
unfolding id_name
id_name-injective prefix m n e = decimal03-injective m n (
    prefix-injective (95 ∷ []) (decimal03 m) (decimal03 n)
      (prefix-injective prefix (95 ∷ decimal03 m) (95 ∷ decimal03 n) e))

pub count_of-set_count :
    (prefix : Text) (k : ℕ) (counters : List (Text × ℕ))
    → count_of prefix (set_count prefix k counters) ≡ k
unfolding count_of set_count
count_of-set_count prefix k [] = ground (arith, eq_text_refl prefix)
count_of-set_count prefix k ((p, n) ∷ rest) = ground (arith, count_of-set_count prefix k rest)

-- An id of a prefix without spaces has none, so that nothing is stripped off it.
pub id_name-IsUnspaced : (prefix : Text) (n : ℕ) → IsUnspaced prefix → IsUnspaced (id_name prefix n)
unfolding id_name decimal03 is_space
id_name-IsUnspaced prefix n h =
    append-IsUnspaced prefix (95 ∷ decimal03 n) h
      (refl, padded-IsUnspaced (3 - length (decimal n)) n)

unspaced : (s : Text) → any is_space s ≡ false → IsUnspaced s
unspaced [] h = tt
unspaced (c ∷ s) h = (ground arith, unspaced s (ground arith))

longer : (s : Text) (c : ℕ) (t : Text) → is_empty (s ++ c ∷ t) ≡ false
longer [] c t = refl
longer (x ∷ s) c t = refl

-- Such an id is not blank and is kept as it is.
pub id_name_kept :
    (prefix : Text) (n : ℕ)
    → any is_space prefix ≡ false
    → (is_blank (id_name prefix n) ≡ false) × (strip (id_name prefix n) ≡ id_name prefix n)
id_name_kept prefix n h =
    let kept =
      strip-unspaced (id_name prefix n) (id_name-IsUnspaced prefix n (unspaced prefix h)) in
    (rw kept (unfold id_name in longer prefix 95 (decimal03 n)), kept)
