-- ===== src/Scenarios/World/Setup.antt =====
-- The constructor of SyntheticClosedLoopVisualWorld and its validators, in
-- scenarios/support/synthetic_closed_loop_visual_world.py.
use rnde_m.Prelude.{
  ℕ, ◌/◌, not, ◌||◌, Option, none, some, List, [], ◌∷◌, leb, if◌then◌else◌, ℤ, pos, negsuc, String,
  Result, ok, raised, value_error, non_negative, ◌>>=◌, ◌<◌, ◌≡◌, arith, Result-cases, inl, inr,
}
use rnde_m.Patterns.Model.{is_positive, magnitude}
use rnde_m.Scenarios.World.{VisualWorld}

-- `_validate_shape`
unfoldable pub validate_shape : List ℤ → Result (ℕ × ℕ)
validate_shape (r ∷ c ∷ []) =
    if not (is_positive r) || not (is_positive c)
    then raised (value_error "shape dimensions must be positive")
    else ok (magnitude r, magnitude c)
validate_shape [] = raised (value_error "shape must have exactly 2 dimensions")
validate_shape (r ∷ []) = raised (value_error "shape must have exactly 2 dimensions")
validate_shape (r ∷ c ∷ d ∷ ds) = raised (value_error "shape must have exactly 2 dimensions")

-- `_validate_coordinate`, with its message
unfoldable pub validate_coordinate : ℤ → ℕ → String → Result ℕ
validate_coordinate (pos n) bound message =
    if leb bound n then raised (value_error message) else ok n
validate_coordinate (negsuc n) bound message = raised (value_error message)

-- `size // 2 if initial is None else initial`
abbrev pub start : Option ℤ → ℕ → ℤ
start none size = pos (size / 2)
start (some initial) size = initial

-- `__init__`
unfoldable pub make_world : List ℤ → Option ℤ → Option ℤ → ℤ → Result VisualWorld
make_world shape initial_row initial_column initial_tick = do
  size ← validate_shape shape
  tick ← non_negative initial_tick "initial_tick must be >= 0"
  row ← validate_coordinate (start initial_row size.0) size.0 "initial_row out of bounds"
  column ← validate_coordinate (start initial_column size.1) size.1 "initial_column out of bounds"
  ok (record {
    rows = size.0;
    columns = size.1;
    current_tick = tick;
    row = row;
    column = column;
    next_snapshot_id = 0;
  })

-- The position is inside the field.
pub record IsPlaced (w : VisualWorld) : Type 0 where
  pub in_rows : w.row < w.rows
  pub in_columns : w.column < w.columns

coordinate_bound :
    (value : ℤ) (bound n : ℕ) (message : String)
    → validate_coordinate value bound message ≡ ok n
    → n < bound
unfolding validate_coordinate
coordinate_bound (pos k) bound n message h = ground arith
coordinate_bound (negsuc k) bound n message h = absurd (cc)

pub make_world-IsPlaced :
    (shape : List ℤ) (row column : Option ℤ) (tick : ℤ) (w : VisualWorld)
    → make_world shape row column tick ≡ ok w
    → IsPlaced w
unfolding make_world
make_world-IsPlaced shape row column (negsuc t) w h = absurd (ground arith)
make_world-IsPlaced shape row column (pos t) w h = elim (Result-cases (validate_shape shape)) [
  | inl (e, failed) ↦ absurd (ground arith)
  | inr (size, shaped) ↦
      elim (Result-cases
        (validate_coordinate (start row size.0) size.0 "initial_row out of bounds")) [
          | inl (e, failed) ↦ absurd (ground arith)
          | inr (r, in_rows) ↦
              elim (Result-cases
                (validate_coordinate (start column size.1) size.1 "initial_column out of bounds")) [
                  | inl (e, failed) ↦ absurd (ground arith)
                  | inr (c, in_columns) ↦ ground (
                    arith,
                    coordinate_bound (start row size.0) size.0 r "initial_row out of bounds"
                        in_rows,
                    coordinate_bound (start column size.1) size.1 c "initial_column out of bounds"
                        in_columns,
                  )
                ]
        ]
]
