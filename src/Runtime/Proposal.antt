-- ===== src/Runtime/Proposal.antt =====
-- `AKBSMAssociationProposal` of clc/runtime/akbsm_draft_proposal.py.
use rnde_m.Prelude.{
  Bool, ◌||◌, List, map, any, ℤ, Result, ok, ◌>>◌, raise_if, Text, is_empty, is_blank, strip,
}
use rnde_m.Prelude.Floats.{Floats}

pub record AssociationProposal (V : Type 0) : Type 0 where
  pub source : Text
  pub tick : ℤ
  pub subject_id : Text
  pub relation_type : Text
  pub object_id : Text
  pub confidence : V
  pub evidence : List Text
  pub reason : Text
  pub commit_allowed : Bool

module _ (F : Floats) where
  open F use {Float, zero_f, one_f, lt_f}

  -- `__post_init__` on the fields as given: it raises, or returns them with the evidence stripped.
  unfoldable pub make_proposal : AssociationProposal Float → Result (AssociationProposal Float)
  make_proposal p = do
    raise_if (lt_f p.confidence zero_f || lt_f one_f p.confidence)
        "confidence must be between 0.0 and 1.0"
    raise_if p.commit_allowed "AKBSM association proposals cannot be commit-enabled"
    raise_if (is_blank p.source) "source must be non-empty string metadata"
    raise_if (is_blank p.subject_id) "subject_id must be non-empty string metadata"
    raise_if (is_blank p.relation_type) "relation_type must be non-empty string metadata"
    raise_if (is_blank p.object_id) "object_id must be non-empty string metadata"
    raise_if (is_blank p.reason) "reason must be non-empty string metadata"
    raise_if (is_empty p.evidence || any (λ (item : Text). is_empty item) (map strip p.evidence))
        "evidence must be non-empty metadata"
    ok (record p { evidence = map strip p.evidence })
