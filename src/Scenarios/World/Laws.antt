-- ===== src/Scenarios/World/Laws.antt =====
-- What the world shows and how a signal moves it.
use rnde_m.Prelude.{
  ℕ, zero, suc, ◌+◌, ◌*◌, ◌<◌, ◌≡◌, ◌≢◌, refl, ◌∙◌, false, List, [], ◌∷◌, arith, length, pos, ok,
  accepts, ◌==◌, if◌then◌else◌, Option, some, none,
}
use rnde_m.Prelude.Floats.{Floats}
use rnde_m.Patterns.Model.{product}
use rnde_m.Transduction.Visual.{VisualFieldSnapshot, make_snapshot, check_snapshot}
use rnde_m.Transduction.Visual.Laws.{IsSnapshot}
use rnde_m.Actuation.Motor.{ActuatorSignal}
use rnde_m.Scenarios.World.{
  VisualWorld, repeated, set, field_values, snapshot, drive, shifted, apply_signal,
}
use rnde_m.Scenarios.World.Setup.{IsPlaced}

length-repeated : {A : Type 0} (n : ℕ) (a : A) → length (repeated n a) ≡ n
unfolding repeated
length-repeated zero a = refl
length-repeated (suc n) a = omega (arith, length-repeated n a)

length-set : {A : Type 0} (xs : List A) (i : ℕ) (v : A) → length (set xs i v) ≡ length xs
unfolding set
length-set [] i v = refl
length-set (x ∷ xs) zero v = refl
length-set (x ∷ xs) (suc i) v = omega (arith, length-set xs i v)

abbrev pub get_elem? : {A : Type 0} → List A → ℕ → Option A
get_elem? [] i = none
get_elem? (x ∷ xs) zero = some x
get_elem? (x ∷ xs) (suc i) = get_elem? xs i

get_elem?-repeated :
    {A : Type 0} (n : ℕ) (a : A) (i : ℕ) → i < n → get_elem? (repeated n a) i ≡ some a
unfolding repeated
get_elem?-repeated zero a i h = absurd (omega arith)
get_elem?-repeated (suc n) a zero h = refl
get_elem?-repeated (suc n) a (suc i) h = get_elem?-repeated n a i (omega arith)

get_elem?-set :
    {A : Type 0} (xs : List A) (i j : ℕ) (v : A)
    → i < length xs
    → get_elem? (set xs i v) j ≡ (if j == i then some v else get_elem? xs j)
unfolding set
get_elem?-set [] i j v h = absurd (omega arith)
get_elem?-set (x ∷ xs) zero zero v h = refl
get_elem?-set (x ∷ xs) zero (suc j) v h = ground arith
get_elem?-set (x ∷ xs) (suc i) zero v h = ground arith
get_elem?-set (x ∷ xs) (suc i) (suc j) v h = ground (arith, get_elem?-set xs i j v)

-- The lit cell has an index.
position : (w : VisualWorld) → IsPlaced w → w.row * w.columns + w.column < w.rows * w.columns
position w h = grind arith

module _ (F : Floats) where
  open F use {
    Float, sub_f, zero_f, one_f, lt_f, is_finite, finite-zero, finite-one, lt-irrefl, one-lt-zero,
  }

  dark_passes : (n : ℕ) → check_snapshot F (repeated n zero_f) ≡ ok tt
  unfolding check_snapshot repeated
  dark_passes zero = refl
  dark_passes (suc n) = rw (finite-zero, lt-irrefl zero_f, one-lt-zero) (dark_passes n)

  lit_passes :
      (vs : List Float) (i : ℕ)
      → check_snapshot F vs ≡ ok tt
      → check_snapshot F (set vs i one_f) ≡ ok tt
  unfolding check_snapshot set
  lit_passes [] i h = refl
  lit_passes (v ∷ vs) zero h = ground (arith, finite-one, one-lt-zero, lt-irrefl one_f)
  lit_passes (v ∷ vs) (suc i) h = ground (arith, lit_passes vs i)

  -- The field with one lit cell.
  abbrev pub lit_field : VisualWorld → List Float
  lit_field w = set (repeated (w.rows * w.columns) zero_f) (w.row * w.columns + w.column) one_f

  abbrev pub shown : VisualWorld → VisualFieldSnapshot Float
  shown w = record {
    shape = w.rows ∷ w.columns ∷ [];
    values = lit_field w;
    active_tick = w.current_tick;
    snapshot_id = w.next_snapshot_id;
  }

  field_values-lit : (w : VisualWorld) → IsPlaced w → field_values F w ≡ ok (lit_field w)
  unfolding field_values
  field_values-lit w h = ground (arith, position w h, length-repeated (w.rows * w.columns) zero_f)

  shown_made :
      (w : VisualWorld)
      → IsPlaced w
      → make_snapshot F
          (pos w.rows ∷ pos w.columns ∷ [])
          (lit_field w)
          (pos w.current_tick)
          (pos w.next_snapshot_id)
        ≡ ok (shown w)
  unfolding make_snapshot product
  shown_made w h =
      let dark = repeated (w.rows * w.columns) zero_f in
      let i = w.row * w.columns + w.column in
      ground (
        arith,
        length-set dark i one_f,
        length-repeated (w.rows * w.columns) zero_f,
        lit_passes dark i (dark_passes (w.rows * w.columns)),
      )

  pub snapshot_total :
      (w : VisualWorld)
      → IsPlaced w
      → snapshot F w ≡ (ok (shown w), record w { next_snapshot_id = w.next_snapshot_id + 1 })
  unfolding snapshot
  snapshot_total w h = ground (arith, field_values-lit w h, shown_made w h)

  -- A snapshot of a world with its position inside the field is taken: it has the world's shape,
  -- tick and next number and a value for each cell; the value at the index of the position is 1, and
  -- at every other index of the field it is 0. Only the number of the next snapshot changes.
  pub snapshot_shows :
      (w : VisualWorld) (i : ℕ)
      → IsPlaced w
      → i < w.rows * w.columns
      → (values : List Float) × (snapshot F w ≡ (
        ok (record {
          shape = w.rows ∷ w.columns ∷ [];
          values = values;
          active_tick = w.current_tick;
          snapshot_id = w.next_snapshot_id;
        }),
        record w { next_snapshot_id = w.next_snapshot_id + 1 },
      ))
        × (length values ≡ w.rows * w.columns)
        × (get_elem? values i ≡ some (if i == w.row * w.columns + w.column then one_f else zero_f))
  snapshot_shows w i h inside =
      let n = w.rows * w.columns in
      let at = w.row * w.columns + w.column in
      let dark = repeated n zero_f in
      (
        lit_field w,
        snapshot_total w h,
        length-set dark at one_f ∙ length-repeated n zero_f,
        ground (
          arith,
          position w h,
          length-repeated n zero_f,
          get_elem?-set dark at i one_f,
          get_elem?-repeated n zero_f i,
        ),
      )

  -- Where a signal of this tick leaves the world.
  abbrev pub moved : VisualWorld → Float → VisualWorld
  moved w d = record w {
    column = shifted F d w.columns w.column;
    current_tick = w.current_tick + 1;
  }

  shifted-lt :
      (d : Float) (columns column : ℕ) → column < columns → shifted F d columns column < columns
  unfolding shifted
  shifted-lt d columns column h = ground arith

  pub moved-IsPlaced : (w : VisualWorld) (d : Float) → IsPlaced w → IsPlaced (moved w d)
  moved-IsPlaced w d h = record {
    in_rows = h.in_rows;
    in_columns = shifted-lt d w.columns w.column h.in_columns;
  }

  -- A signal of two values for this tick is taken.
  pub apply_signal_total :
      (w : VisualWorld) (signal : ActuatorSignal Float) (d : Float)
      → signal.active_tick ≡ w.current_tick
      → drive F signal.values ≡ ok d
      → apply_signal F signal w ≡ (ok tt, moved w d)
  unfolding apply_signal
  apply_signal_total w signal d h k = ground arith

  pub drive_two : (vs : List Float) → length vs ≡ 2 → (d : Float) × (drive F vs ≡ ok d)
  unfolding drive
  drive_two [] h = absurd (omega arith)
  drive_two (a ∷ []) h = absurd (omega arith)
  drive_two (a ∷ b ∷ rest) h = (sub_f b a, refl)

  -- A call that raises leaves the world as it was.
  pub apply_signal_error :
      (w : VisualWorld) (signal : ActuatorSignal Float)
      → signal.active_tick ≢ w.current_tick
      → (accepts (apply_signal F signal w).0 ≡ false) × ((apply_signal F signal w).1 ≡ w)
  unfolding apply_signal
  apply_signal_error w signal h = ground arith

  pub shown-IsSnapshot : (w : VisualWorld) → IsPlaced w → IsSnapshot F (shown w)
  unfolding product
  shown-IsSnapshot w h = record {
    plane = refl;
    positive = ground arith;
    sized =
        length-set (repeated (w.rows * w.columns) zero_f) (w.row * w.columns + w.column) one_f
        ∙ length-repeated (w.rows * w.columns) zero_f
        ∙ omega arith;
    in_unit =
        lit_passes (repeated (w.rows * w.columns) zero_f) _ (dark_passes (w.rows * w.columns));
  }
