-- ===== src/Core/Ids/Fresh.antt =====
-- The search for a free id ends: every round that fails uses up one forbidden id.
use rnde_m.Prelude.{
  ℕ, zero, suc, ◌+◌, ◌≤◌, ◌<◌, ◌≡◌, ◌≢◌, refl, true, false, Option, none, some, List, [], ◌∷◌,
  arith, length, if◌then◌else◌, Text, eq_text, eq_text_iff, Bool-cases, inl, inr,
}
use rnde_m.Core.Ids.{IdGenerator, count_of, id_name, next_id, counted, is_in, search_id}
use rnde_m.Core.Ids.Laws.{id_name-injective, count_of-set_count}

-- The list without the first occurrence of an id.
unfoldable pub without : Text → List Text → List Text
without id [] = []
without id (x ∷ xs) = if eq_text id x then xs else x ∷ without id xs

length-without :
    (id : Text) (xs : List Text) → is_in xs id ≡ true → suc (length (without id xs)) ≡ length xs
unfolding without
length-without id [] h = absurd (cc)
length-without id (x ∷ xs) h = ground (arith, length-without id xs)

is_in-without :
    (id other : Text) (xs : List Text) → id ≢ other → is_in (without id xs) other ≡ is_in xs other
unfolding without
is_in-without id other [] h = refl
is_in-without id other (x ∷ xs) h =
    ground (arith, is_in-without id other xs h, eq_text_iff id x, eq_text_iff other x)

-- Forbidding an id with a number that is already given out makes no difference.
search-without :
    (fuel : ℕ) (prefix : Text) (forbidden : List Text) (g : IdGenerator) (m : ℕ)
    → m ≤ count_of prefix g.counters
    → search_id fuel prefix (without (id_name prefix m) forbidden) g
      ≡ search_id fuel prefix forbidden g
unfolding search_id next_id
search-without zero prefix forbidden g m h = refl
search-without (suc fuel) prefix forbidden g m h =
    let n = count_of prefix g.counters + 1 in
    let g' = counted prefix n g in
    let other : id_name prefix m ≢ id_name prefix n =
      λ e. absurd (omega (arith, id_name-injective prefix m n e)) in
    let later : m ≤ count_of prefix g'.counters =
      omega (arith, count_of-set_count prefix n g.counters) in
    rw
      (
        is_in-without (id_name prefix m) (id_name prefix n) forbidden other,
        search-without fuel prefix forbidden g' m later,
      )
      refl

-- With more rounds than there are forbidden ids the search for a free id ends, whatever the
-- generator has counted.
pub search_id-total :
    (prefix : Text) (fuel : ℕ) (forbidden : List Text) (g : IdGenerator)
    → length forbidden < fuel
    → search_id fuel prefix forbidden g ≢ none
unfolding search_id next_id
search_id-total prefix zero forbidden g h = absurd (omega arith)
search_id-total prefix (suc fuel) forbidden g h =
    let n = count_of prefix g.counters + 1 in
    let g' = counted prefix n g in
    let id = id_name prefix n in
    let counted_now : n ≤ count_of prefix g'.counters =
      omega (arith, count_of-set_count prefix n g.counters) in
    elim (Bool-cases (is_in forbidden id)) [
      | inr free ↦ rw free (λ e. absurd (cc))
      | inl taken ↦
          let fewer : length (without id forbidden) < fuel =
            omega (arith, length-without id forbidden taken) in
          rw (taken, ← search-without fuel prefix forbidden g' n counted_now)
            (search_id-total prefix fuel (without id forbidden) g' fewer)
    ]

abbrev the : {A : Type 0} (o : Option A) → o ≢ none → A
the (some a) h = a
the none h = absurd (h refl)

-- `_fresh_frame_id` for any prefix and forbidden ids, with rounds enough.
abbrev pub fresh_id : Text → List Text → IdGenerator → Text × IdGenerator
fresh_id prefix forbidden g =
    the (search_id (suc (length forbidden)) prefix forbidden g)
      (search_id-total prefix (suc (length forbidden)) forbidden g (omega arith))

search_id-free :
    (prefix : Text) (fuel : ℕ) (forbidden : List Text) (g : IdGenerator) (id : Text)
    (end : IdGenerator)
    → search_id fuel prefix forbidden g ≡ some (id, end)
    → (is_in forbidden id ≡ false) × ((n : ℕ) × (id ≡ id_name prefix n))
unfolding search_id next_id
search_id-free prefix zero forbidden g id end e = absurd (cc)
search_id-free prefix (suc fuel) forbidden g id end e =
    let n = count_of prefix g.counters + 1 in
    elim (Bool-cases (is_in forbidden (id_name prefix n))) [
      | inr free ↦ let same : id ≡ id_name prefix n = ground arith in (rw same free, (n, same))
      | inl taken ↦ search_id-free prefix fuel forbidden (counted prefix n g) id end (ground arith)
    ]

the-some : {A : Type 0} (o : Option A) (h : o ≢ none) → o ≡ some (the o h)
the-some (some a) h = refl
the-some none h = absurd (h refl)

-- The id is not forbidden, and it is the prefix with a number.
pub fresh_id-free :
    (prefix : Text) (forbidden : List Text) (g : IdGenerator)
    → let id = (fresh_id prefix forbidden g).0 in
      (is_in forbidden id ≡ false) × ((n : ℕ) × (id ≡ id_name prefix n))
fresh_id-free prefix forbidden g =
    let rounds = suc (length forbidden) in
    let found = search_id rounds prefix forbidden g in
    let ends = search_id-total prefix rounds forbidden g (omega arith) in
    search_id-free prefix rounds forbidden g (the found ends).0 (the found ends).1
      (the-some found ends)
