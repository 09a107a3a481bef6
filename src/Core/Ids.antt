-- ===== src/Core/Ids.antt =====
-- `IdGenerator` of clc/core/ids.py, and the loop `_fresh_frame_id` of
-- clc/actuation/remembered_action_execution.py that asks it until an id is free. The dictionary of
-- counters is a list of its entries; a prefix that is missing counts as 0.
pub mod Laws
pub mod Fresh
use rnde_m.Prelude.{
  ℕ, zero, suc, ◌+◌, ◌-◌, Bool, true, false, ◌||◌, Option, none, some, List, [], ◌∷◌, ◌++◌, any,
  length, if◌then◌else◌, Text, eq_text,
}
use rnde_m.Prelude.Decimal.{decimal, zeros}

pub record IdGenerator : Type 0 where
  pub counters : List (Text × ℕ)

unfoldable pub count_of : Text → List (Text × ℕ) → ℕ
count_of prefix [] = 0
count_of prefix ((p, n) ∷ rest) = if eq_text p prefix then n else count_of prefix rest

unfoldable pub set_count : Text → ℕ → List (Text × ℕ) → List (Text × ℕ)
set_count prefix k [] = (prefix, k) ∷ []
set_count prefix k ((p, n) ∷ rest) =
    if eq_text p prefix then (p, k) ∷ rest else (p, n) ∷ set_count prefix k rest

-- `{n:03d}`
unfoldable pub decimal03 : ℕ → Text
decimal03 n = zeros (3 - length (decimal n)) (decimal n)

-- `f"{prefix}_{n:03d}"`
unfoldable pub id_name : Text → ℕ → Text
id_name prefix n = prefix ++ 95 ∷ decimal03 n

abbrev pub counted : Text → ℕ → IdGenerator → IdGenerator
counted prefix n g = record { counters = set_count prefix n g.counters }

-- `next`
unfoldable pub next_id : Text → IdGenerator → Text × IdGenerator
next_id prefix g = let n = count_of prefix g.counters + 1 in (id_name prefix n, counted prefix n g)

abbrev pub is_in : List Text → Text → Bool
is_in ids id = any (eq_text id) ids

-- `while True` on fuel: the first next id that is not forbidden, `none` if the fuel runs out.
unfoldable pub search_id : ℕ → Text → List Text → IdGenerator → Option (Text × IdGenerator)
search_id zero prefix forbidden g = none
search_id (suc fuel) prefix forbidden g =
    let (id, g') = next_id prefix g in
    let rest = search_id fuel prefix forbidden g' in
    if is_in forbidden id then rest else some (id, g')
