-- ===== src/Runtime/Metadata.antt =====
-- clc/runtime/context_temporary_metadata.py: entries that live for a bounded number of ticks. Values
-- are immutable, so the freezing of dictionaries, lists and sets into tuples has no counterpart: a
-- payload is given in its frozen form. `lower` is `str.lower`.
pub mod Laws
use rnde_m.Prelude.{
  ℕ, ◌+◌, Bool, true, false, not, ◌||◌, ◌&&◌, Option, none, some, List, [], ◌∷◌, ◌++◌, map, leb,
  any, length, select, if◌then◌else◌, ◌==◌, ℤ, Checked, String, Result, ok, raised, value_error,
  ◌>>=◌, ◌>>◌, raise_if, non_negative, Text, codes, eq_text, strip, is_blank,
}
use rnde_m.Prelude.Decimal.{decimal}

abbrev pub harness_authority : Text
harness_authority = codes "explicit_test_scenario_harness"

-- `FORBIDDEN_TEMPORARY_METADATA_FRAGMENTS`
abbrev pub forbidden_fragments : List Text
forbidden_fragments =
    codes "commit"
    ∷ codes "apply"
    ∷ codes "save"
    ∷ codes "write"
    ∷ codes "persist"
    ∷ codes "mutate"
    ∷ codes "store"
    ∷ codes "enqueue"
    ∷ codes "flush"
    ∷ codes "sync"
    ∷ codes "akbsm_write"
    ∷ codes "approved_for_akbsm"
    ∷ codes "accepted_for_write"
    ∷ codes "ready_to_write"
    ∷ codes "behavior_instruction"
    ∷ codes "scoring_instruction"
    ∷ codes "guard_instruction"
    ∷ codes "mode_c_instruction"
    ∷ codes "policy_pressure_instruction"
    ∷ []

-- A frozen value: a text, a tuple, or a value that is neither, such as a number.
mutual
  pub data Value : Type 0 where
    text : Text → Value
    tuple : Values → Value
    other : Value

  pub data Values : Type 0 where
    none_left : Values
    followed : Value → Values → Values

-- The texts of `_flatten`.
unfoldable mutual
  pub texts_of : Value → List Text
  texts_of (text t) = t ∷ []
  texts_of (tuple vs) = texts_in vs
  texts_of other = []

  pub texts_in : Values → List Text
  texts_in none_left = []
  texts_in (followed v vs) = texts_of v ++ texts_in vs

-- `fragment in lowered`
unfoldable pub starts_with : Text → Text → Bool
starts_with [] s = true
starts_with (c ∷ t) [] = false
starts_with (c ∷ t) (d ∷ s) = c == d && starts_with t s

unfoldable pub is_within : Text → Text → Bool
is_within t [] = starts_with t []
is_within t (d ∷ s) = starts_with t (d ∷ s) || is_within t s

-- The policy's defaults are the only values that its `__post_init__` lets through, but for the
-- authority.
pub record PlacementPolicy : Type 0 where
  pub authority : Option Text

abbrev is_authority : Option Text → Bool
is_authority none = false
is_authority (some a) = eq_text a harness_authority

unfoldable pub allows : PlacementPolicy → Option Text → Bool
allows policy none = is_authority policy.authority
allows policy (some a) = is_authority (some a)

-- The flags, the storage kind and the placement kind are the defaults, the only values that
-- `__post_init__` lets through. `expires_at_tick` is given, or absent until `__post_init__` sets it.
pub record MetadataEntry (E : Type 0) : Type 0 where
  pub entry_id : Text
  pub namespace : Text
  pub source : Text
  pub payload_kind : Text
  pub payload_reference : List (Text × Text)
  pub payload : List (Text × Value)
  pub created_tick : ℕ
  pub updated_tick : ℕ
  pub ttl_ticks : Option ℕ
  pub expires_at_tick : E
  pub notes : Text

pub record PlacementResult : Type 0 where
  pub entry : Option (MetadataEntry ℕ)
  pub accepted : Bool
  pub reason : Text

abbrev payload_texts : List (Text × Value) → List Text
payload_texts [] = []
payload_texts ((key, v) ∷ rest) = key ∷ texts_of v ++ payload_texts rest

abbrev reference_texts : List (Text × Text) → List Text
reference_texts [] = []
reference_texts ((key, t) ∷ rest) = key ∷ t ∷ reference_texts rest

-- The mapping that `_reject_forbidden_content` is given, flattened; its keys are literals.
abbrev pub entry_texts : {E : Type 0} → MetadataEntry E → List Text
entry_texts e =
    codes "namespace"
      ∷ e.namespace
      ∷ codes "source"
      ∷ e.source
      ∷ codes "payload_kind"
      ∷ e.payload_kind
      ∷ codes "payload_reference"
      ∷ reference_texts e.payload_reference
    ++ codes "payload" ∷ payload_texts e.payload
    ++ codes "notes" ∷ e.notes ∷ []

abbrev pub is_forbidden : (Text → Text) → Text → Bool
is_forbidden lower t = any (λ fragment. is_within fragment (lower t)) forbidden_fragments

abbrev is_zero : Option ℕ → Bool
is_zero none = false
is_zero (some n) = n == 0

abbrev is_not_later : Option ℕ → ℕ → Bool
is_not_later none created = false
is_not_later (some tick) created = leb tick created

-- `expires_at_tick or created_tick + ttl_ticks`
abbrev expiry : Option ℕ → Option ℕ → ℕ → Result ℕ
expiry none none created =
    raised (value_error "temporary metadata requires ttl_ticks or expires_at_tick")
expiry none (some ttl) created = ok (created + ttl)
expiry (some tick) ttl created = ok tick

-- `__post_init__`, on integers that have been seen to be non-negative
unfoldable pub make_entry : (Text → Text) → MetadataEntry (Option ℕ) → Result (MetadataEntry ℕ)
make_entry lower e = do
  raise_if (not (leb e.created_tick e.updated_tick))
      "updated_tick must not be less than created_tick"
  raise_if (is_zero e.ttl_ticks) "ttl_ticks must be a positive integer"
  raise_if (is_not_later e.expires_at_tick e.created_tick)
      "expires_at_tick must be greater than created_tick"
  expires ← expiry e.expires_at_tick e.ttl_ticks e.created_tick
  raise_if (is_blank e.entry_id) "entry_id must be non-empty metadata"
  raise_if (is_blank e.namespace) "namespace must be non-empty metadata"
  raise_if (is_blank e.source) "source must be non-empty metadata"
  raise_if (is_blank e.payload_kind) "payload_kind must be non-empty metadata"
  raise_if (any (is_forbidden lower) (entry_texts e))
      "temporary metadata cannot contain forbidden instructions"
  ok (record {
    entry_id = strip e.entry_id;
    namespace = strip e.namespace;
    source = strip e.source;
    payload_kind = strip e.payload_kind;
    payload_reference = e.payload_reference;
    payload = e.payload;
    created_tick = e.created_tick;
    updated_tick = e.updated_tick;
    ttl_ticks = e.ttl_ticks;
    expires_at_tick = expires;
    notes = e.notes;
  })

-- `is_expired`, at a tick that is no error
unfoldable pub is_expired : ℕ → MetadataEntry ℕ → Bool
is_expired tick e = leb e.expires_at_tick tick

-- `_entry_id`
unfoldable pub entry_name : Text → Text → ℕ → ℕ → Text
entry_name namespace source tick index =
    strip namespace ++ 58 ∷ strip source ++ 58 ∷ decimal tick ++ 58 ∷ decimal index

pub record Placement : Type 0 where
  pub policy : PlacementPolicy
  pub entries : List (MetadataEntry ℕ)

-- `_rejected_result`
abbrev pub rejection : Text → PlacementResult
rejection why = record { entry = none; accepted = false; reason = why }

-- The arguments of `place_temporary_metadata`.
pub record PlacementRequest : Type 0 where
  pub payload : List (Text × Value)
  pub namespace : Text
  pub source : Text
  pub created_tick : ℤ
  pub ttl_ticks : Option ℤ
  pub expires_at_tick : Option ℤ
  pub notes : Text
  pub payload_kind : Text
  pub payload_reference : List (Text × Text)

abbrev pub given : Option ℤ → String → Result (Option ℕ)
given none message = ok none
given (some n) message = non_negative n message >>= λ t. ok (some t)

-- The arguments of the constructor in the `try` block.
abbrev pub draft : PlacementRequest → ℕ → Option ℕ → Option ℕ → ℕ → MetadataEntry (Option ℕ)
draft q created ttl expires index = record {
  entry_id = entry_name q.namespace q.source created index;
  namespace = q.namespace;
  source = q.source;
  payload_kind = q.payload_kind;
  payload_reference = q.payload_reference;
  payload = q.payload;
  created_tick = created;
  updated_tick = created;
  ttl_ticks = ttl;
  expires_at_tick = expires;
  notes = q.notes;
}

-- The entry that the `try` block makes, `index` being the number of entries.
unfoldable pub entry_of : (Text → Text) → PlacementRequest → ℕ → Result (MetadataEntry ℕ)
entry_of lower q index = do
  created ← non_negative q.created_tick "created_tick must be a non-negative integer"
  ttl ← given q.ttl_ticks "ttl_ticks must be a non-negative integer"
  expires ← given q.expires_at_tick "expires_at_tick must be a non-negative integer"
  make_entry lower (draft q created ttl expires index)

abbrev append_entry : Result (MetadataEntry ℕ) → Placement → PlacementResult × Placement
append_entry (raised e) p = (rejection (codes "invalid_metadata"), p)
append_entry (ok e) p = (
  record { entry = some e; accepted = true; reason = codes "temporary_metadata_accepted" },
  record p { entries = p.entries ++ e ∷ [] },
)

unfoldable pub place_temporary_metadata :
    (Text → Text) → PlacementRequest → Option Text → Placement → PlacementResult × Placement
place_temporary_metadata lower q authority p =
    if not (allows p.policy authority)
    then (rejection (codes "unauthorized"), p)
    else append_entry (entry_of lower q (length p.entries)) p

unfoldable pub list_active_metadata : ℤ → Option Text → Placement → Result (List (MetadataEntry ℕ))
list_active_metadata current authority p = if not (allows p.policy authority) then ok [] else (do
  tick ← non_negative current "current_tick must be a non-negative integer"
  ok (select (λ e. not (is_expired tick e)) p.entries))

unfoldable pub expire_metadata :
    ℤ → Option Text → Placement → Result (List (MetadataEntry ℕ)) × Placement
expire_metadata current authority p =
    if not (allows p.policy authority)
    then (ok [], p)
    else elim (non_negative current "current_tick must be a non-negative integer") [
      | raised e ↦ (raised e, p)
      | ok tick ↦ (
        ok (select (is_expired tick) p.entries),
        record p { entries = select (λ e. not (is_expired tick e)) p.entries },
      )
    ]
