-- ===== src/Content/Vocabulary.antt =====
-- states.py, origin.py and the errors of domain/errors.py and application/errors.py that the model
-- raises. An identity is the UUID that its class wraps.
use eduvijna_aieos_backend.Prelude.{Bool, true, false, Result}
use eduvijna_aieos_backend.Python.Text.{Text, codes}

pub data StewardshipState : Type 0 where
  draft generated in_review approved archived : StewardshipState

pub data ContentOrigin : Type 0 where
  human ai imported system : ContentOrigin

pub data ContentError : Type 0 where
  content_domain invalid_aggregate invalid_content_type invalid_payload parent_lineage :
      ContentError
  immutability review_decision_binding publication_binding : ContentError
  content_not_found content_version_not_found aggregate_revision_conflict : ContentError
  version_lineage_conflict tenant_context_mismatch version_already_exists : ContentError
  content_already_exists persistence_invariant_violation persistence_operation_failed : ContentError
  invalid_content_request version_append_not_allowed idempotency_key_reused : ContentError
  review_submit_not_allowed review_decision_not_allowed review_version_not_current : ContentError
  review_requires_new_version review_already_decided workflow_coordination_failed : ContentError
  publication_version_not_current publication_approval_required : ContentError
  version_already_published publication_payload_invalid publication_schema_unavailable :
      ContentError
  publication_not_allowed invalid_security_audit : ContentError
  -- What a port raises that is injected into a service.
  refused_by_port : ContentError

abbrev pub ContentResult {ℓ} : Type ℓ → Type ℓ
ContentResult A = Result ContentError A

abbrev pub is_same_state : StewardshipState → StewardshipState → Bool
is_same_state draft draft = true
is_same_state generated generated = true
is_same_state in_review in_review = true
is_same_state approved approved = true
is_same_state archived archived = true
is_same_state _ _ = false

-- The `.value` of a member.
abbrev pub state_value : StewardshipState → Text
state_value draft = codes "DRAFT"
state_value generated = codes "GENERATED"
state_value in_review = codes "IN_REVIEW"
state_value approved = codes "APPROVED"
state_value archived = codes "ARCHIVED"

abbrev pub origin_value : ContentOrigin → Text
origin_value human = codes "HUMAN"
origin_value ai = codes "AI"
origin_value imported = codes "IMPORT"
origin_value system = codes "SYSTEM"
