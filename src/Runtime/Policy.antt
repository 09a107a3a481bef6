-- ===== src/Runtime/Policy.antt =====
-- clc/runtime/memory_mutation_policy.py: what each runtime profile may write.
use rnde_m.Prelude.{
  ◌≡◌, ◌↔◌, Bool, true, false, Option, none, some, arith, if◌then◌else◌, Result, ok, raised,
  value_error, Text, codes, eq_text,
}

pub data RuntimeProfile : Type 0 where
  safe_demo draft_only mutating_memory : RuntimeProfile

-- `RuntimeProfile(value)` of a string
unfoldable pub profile_of : Text → Result RuntimeProfile
profile_of value =
    if eq_text value (codes "safe_demo")
    then ok safe_demo
    else if eq_text value (codes "draft_only")
    then ok draft_only
    else if eq_text value (codes "mutating_memory")
    then ok mutating_memory
    else raised (value_error "not a valid RuntimeProfile")

pub record MemoryMutationPolicy : Type 0 where
  pub profile : RuntimeProfile
  pub allow_draft_writes : Bool
  pub allow_expsm_commit : Bool
  pub allow_expsm_update : Bool
  pub allow_value_feedback_update : Bool
  pub allow_akbsm_write : Bool
  pub akbsm_draft_proposals_enabled : Bool
  pub mode_c_memory_gate_advisory_enabled : Bool
  pub real_memory_root : Option Text
  pub memory_is_temporary : Bool

abbrev real_root : Option Text → Bool → Option Text
real_root none temporary = none
real_root (some root) temporary = if temporary then none else some root

-- The part that follows the conversion of the profile.
unfoldable pub policy_for_profile : RuntimeProfile → Option Text → Bool → MemoryMutationPolicy
policy_for_profile safe_demo root temporary = record {
  profile = safe_demo;
  allow_draft_writes = temporary;
  allow_expsm_commit = false;
  allow_expsm_update = false;
  allow_value_feedback_update = false;
  allow_akbsm_write = false;
  akbsm_draft_proposals_enabled = false;
  mode_c_memory_gate_advisory_enabled = false;
  real_memory_root = real_root root temporary;
  memory_is_temporary = temporary;
}
policy_for_profile draft_only root temporary = record {
  profile = draft_only;
  allow_draft_writes = true;
  allow_expsm_commit = false;
  allow_expsm_update = false;
  allow_value_feedback_update = false;
  allow_akbsm_write = false;
  akbsm_draft_proposals_enabled = false;
  mode_c_memory_gate_advisory_enabled = false;
  real_memory_root = real_root root temporary;
  memory_is_temporary = temporary;
}
policy_for_profile mutating_memory root temporary = record {
  profile = mutating_memory;
  allow_draft_writes = true;
  allow_expsm_commit = true;
  allow_expsm_update = true;
  allow_value_feedback_update = true;
  allow_akbsm_write = false;
  akbsm_draft_proposals_enabled = false;
  mode_c_memory_gate_advisory_enabled = false;
  real_memory_root = real_root root temporary;
  memory_is_temporary = temporary;
}

-- A policy made for a profile never allows a write to the AKBSM store and never turns the draft
-- proposals on; it allows a commit, an update or a feedback update to the ExpSM store exactly in the
-- profile mutating_memory; and its real memory root is the given one,
-- or none when the memory is temporary.
pub policy_for_profile_lem :
    (profile : RuntimeProfile) (root : Option Text) (temporary : Bool)
    → let p = policy_for_profile profile root temporary in
      (p.allow_akbsm_write ≡ false)
      × (p.akbsm_draft_proposals_enabled ≡ false)
      × ((p.allow_expsm_commit ≡ true) ↔ (profile ≡ mutating_memory))
      × ((p.allow_expsm_update ≡ true) ↔ (profile ≡ mutating_memory))
      × ((p.allow_value_feedback_update ≡ true) ↔ (profile ≡ mutating_memory))
      × (p.real_memory_root ≡ (if temporary then none else root))
unfolding policy_for_profile
policy_for_profile_lem profile root temporary = ground arith
