-- ===== src/Experience/Json.antt =====
-- The values that `json` reads and writes, and the readers of clc/experience/expsm_representation.py
-- that take them: `_mapping`, `_sequence`, `_number` and the others below it. A value handed to a
-- constructor directly is read by the same functions.
use rnde_m.Prelude.{
  ℕ, non_negative, Bool, true, false, not, ◌||◌, List, [], ◌∷◌, map, any, if◌then◌else◌, ℤ, pos,
  Result, ok, raised, type_error, value_error, raise_if, ◌>>=◌, ◌>>◌, Text, codes, eq_text,
  is_empty, strip, String, ◌==◌, Option, some, none, overflow_error,
}
use rnde_m.Prelude.Floats.{Floats}
use rnde_m.Patterns.Model.{is_positive, magnitude}

mutual
  pub data Json (V : Type 0) : Type 0 where
    null : Json V
    boolean : Bool → Json V
    integer : ℤ → Json V
    number : V → Json V
    text : Text → Json V
    list : Items V → Json V
    object : Fields V → Json V

  pub data Items (V : Type 0) : Type 0 where
    nil : Items V
    cons : Json V → Items V → Items V

  pub data Fields (V : Type 0) : Type 0 where
    end : Fields V
    field : Text → Json V → Fields V → Fields V

module _ {V : Type 0} where
  abbrev pub items_of : List (Json V) → Items V
  items_of [] = nil
  items_of (j ∷ js) = cons j (items_of js)

  abbrev pub to_list : Items V → List (Json V)
  to_list nil = []
  to_list (cons j js) = j ∷ to_list js

  -- `mapping.get(key)`, with None for a missing key
  abbrev pub get : Text → Fields V → Json V
  get key end = null
  get key (field k v rest) = if eq_text k key then v else get key rest

  -- `value is None`
  abbrev pub is_null : Json V → Bool
  is_null null = true
  is_null (boolean b) = false
  is_null (integer n) = false
  is_null (number v) = false
  is_null (text t) = false
  is_null (list js) = false
  is_null (object fields) = false

  -- `_mapping` and `_sequence` with their message
  unfoldable pub mapping : String → Json V → Result (Fields V)
  mapping message (object fields) = ok fields
  mapping message null = raised (type_error message)
  mapping message (boolean b) = raised (type_error message)
  mapping message (integer n) = raised (type_error message)
  mapping message (number v) = raised (type_error message)
  mapping message (text t) = raised (type_error message)
  mapping message (list js) = raised (type_error message)

  unfoldable pub sequence : String → Json V → Result (List (Json V))
  sequence message (list js) = ok (to_list js)
  sequence message null = raised (type_error message)
  sequence message (boolean b) = raised (type_error message)
  sequence message (integer n) = raised (type_error message)
  sequence message (number v) = raised (type_error message)
  sequence message (text t) = raised (type_error message)
  sequence message (object fields) = raised (type_error message)

  -- The test that a value is a string.
  unfoldable pub string : String → Json V → Result Text
  string message (text t) = ok t
  string message null = raised (type_error message)
  string message (boolean b) = raised (type_error message)
  string message (integer n) = raised (type_error message)
  string message (number v) = raised (type_error message)
  string message (list js) = raised (type_error message)
  string message (object fields) = raised (type_error message)

  -- The test that a value is an integer and no bool.
  unfoldable pub int : String → Json V → Result ℤ
  int message (integer n) = ok n
  int message null = raised (type_error message)
  int message (boolean b) = raised (type_error message)
  int message (number v) = raised (type_error message)
  int message (text t) = raised (type_error message)
  int message (list js) = raised (type_error message)
  int message (object fields) = raised (type_error message)

  -- `_non_negative_int`, with its two messages
  unfoldable pub non_negative_int : String → String → Json V → Result ℕ
  non_negative_int kind range j = do n ← int kind j; non_negative n range

  -- `_positive_int`
  unfoldable pub positive_int : String → String → String → Json V → Result ℕ
  unfolding non_negative_int
  positive_int kind range zero_message j = do
    n ← non_negative_int kind range j
    raise_if (n == 0) zero_message
    ok n

  -- `_non_empty_string`
  unfoldable pub non_empty_string : String → String → Json V → Result Text
  non_empty_string kind message j = do
    t ← string kind j
    raise_if (is_empty (strip t)) message
    ok (strip t)

  -- The loops of `_stable_topology`: all are integers, and then all are positive.
  unfoldable pub ints : List (Json V) → Result (List ℤ)
  unfolding int
  ints [] = ok []
  ints (j ∷ js) = do n ← int "topology dimensions must be integers" j; ns ← ints js; ok (n ∷ ns)

  unfoldable pub stable_topology : List (Json V) → Result (List ℕ)
  unfolding ints
  stable_topology values = do
    raise_if (is_empty values) "topology must not be empty"
    dims ← ints values
    raise_if (any (λ (d : ℤ). not (is_positive d)) dims) "topology dimensions must be positive"
    ok (map magnitude dims)

  -- `_topology_json` and `_parse_topology`
  abbrev pub integers_json : List ℕ → List (Json V)
  integers_json [] = []
  integers_json (d ∷ ds) = integer (pos d) ∷ integers_json ds

  abbrev pub topology_json : List ℕ → Json V
  topology_json topology =
      object (field (codes "shape") (list (items_of (integers_json topology))) end)

  unfoldable pub parse_topology : Json V → Result (List ℕ)
  unfolding mapping sequence stable_topology
  parse_topology j = do
    fields ← mapping "topology must be a mapping" j
    shape ← sequence "topology.shape must be a sequence" (get (codes "shape") fields)
    stable_topology shape

module _ (F : Floats) where
  open F use {Float, zero_f, one_f, neg_one_f, lt_f, is_finite, float_of}

  abbrev finite : String → Float → Result Float
  finite message v = if is_finite v then ok v else raised (value_error message)

  -- `float(value)` of an integer, and the test of the result
  abbrev finite_float : String → Option Float → Result Float
  finite_float message (some v) = finite message v
  finite_float message none = raised (overflow_error "int too large to convert to float")

  -- `_number`
  unfoldable pub number_of : String → String → Json Float → Result Float
  number_of kind message (number v) = finite message v
  number_of kind message (integer n) = finite_float message (float_of n)
  number_of kind message null = raised (type_error kind)
  number_of kind message (boolean b) = raised (type_error kind)
  number_of kind message (text t) = raised (type_error kind)
  number_of kind message (list js) = raised (type_error kind)
  number_of kind message (object fields) = raised (type_error kind)

  -- `_unit_float`
  unfoldable pub unit_float : String → String → String → Json Float → Result Float
  unfolding number_of
  unit_float kind message range j = do
    v ← number_of kind message j
    raise_if (lt_f v zero_f || lt_f one_f v) range
    ok v

  -- `_activation` and `_effect_delta`
  unfoldable pub activation : Json Float → Result Float
  unfolding unit_float
  activation =
      unit_float "activation must be numeric" "activation must be finite"
        "activation must be in [0.0, 1.0]"

  unfoldable pub effect_delta : Json Float → Result Float
  unfolding number_of
  effect_delta j = do
    v ← number_of "effect delta must be numeric" "effect delta must be finite" j
    raise_if (lt_f v neg_one_f || lt_f one_f v) "effect delta must be in [-1.0, 1.0]"
    ok v
