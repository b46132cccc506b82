-- ===== src/Workflows/Intents.antt =====
-- models.py, constants.py, and the insertions and the read of persistence/repositories.py that a
-- content command uses. `str` of a UUID is a parameter.
use eduvijna_aieos_backend.Prelude.{
  ℕ, Bool, false, not, ◌&&◌, ◌||◌, Option, List, [], ◌∷◌, ◌++◌, ◌==◌, ok, ◌>>◌, guard, first,
}
use eduvijna_aieos_backend.Python.Text.{Text, codes, text_eq}
use eduvijna_aieos_backend.Python.Scalars.{Uuid, Datetime}
use eduvijna_aieos_backend.Content.Vocabulary.{ContentResult, persistence_operation_failed}
use eduvijna_aieos_backend.Content.Json.{Value}

-- The `INTENT_…` constants.
pub data IntentStatus : Type 0 where
  pending claimed delivered quarantined : IntentStatus

pub record WorkflowStartIntent : Type 0 where
  pub workflow_start_intent_id : Uuid
  pub tenant_id : Uuid
  pub workflow_instance_id : Uuid
  pub workflow_type : Text
  pub workflow_major_version : ℕ
  pub temporal_workflow_id : Text
  pub task_queue : Text
  pub business_key : Text
  pub input : Value
  pub status : IntentStatus
  pub attempt_count : ℕ
  pub available_at : Datetime
  pub claimed_by : Option Text
  pub claimed_until : Option Datetime
  pub delivered_at : Option Datetime
  pub last_error_code : Option Text
  pub created_at : Datetime

pub record WorkflowCommandIntent : Type 0 where
  pub workflow_command_intent_id : Uuid
  pub tenant_id : Uuid
  pub workflow_instance_id : Uuid
  pub temporal_workflow_id : Text
  pub command_id : Uuid
  pub command_type : Text
  pub business_key : Text
  pub payload : Value
  pub status : IntentStatus
  pub attempt_count : ℕ
  pub available_at : Datetime
  pub claimed_by : Option Text
  pub claimed_until : Option Datetime
  pub delivered_at : Option Datetime
  pub last_error_code : Option Text
  pub created_at : Datetime

abbrev pub content_review_workflow_type : Text
content_review_workflow_type = codes "ContentReviewWorkflowV1"

abbrev pub content_review_task_queue : Text
content_review_task_queue = codes "aieos.content.review"

abbrev pub signal_review_decision_recorded : Text
signal_review_decision_recorded = codes "review_decision_recorded"

module _ (str_uuid : Uuid → Text) where
  abbrev pub content_review_business_key : (content_id version_id : Uuid) → Text
  content_review_business_key content_id version_id =
      codes "content-review:v1:" ++ (str_uuid content_id ++ (codes ":" ++ str_uuid version_id))

  abbrev pub content_review_temporal_workflow_id : Uuid → Text
  content_review_temporal_workflow_id u = codes "aieos:content-review:v1:" ++ str_uuid u

  abbrev pub review_decision_command_business_key : Uuid → Text
  review_decision_command_business_key u = codes "review-decision:" ++ str_uuid u

-- The keys of the two tables: primary keys and unique constraints.
abbrev pub is_same_start : WorkflowStartIntent → WorkflowStartIntent → Bool
is_same_start a b =
    a.workflow_start_intent_id == b.workflow_start_intent_id
    || a.workflow_instance_id == b.workflow_instance_id
    || text_eq a.temporal_workflow_id b.temporal_workflow_id
    || (a.tenant_id == b.tenant_id
        && text_eq a.workflow_type b.workflow_type
        && text_eq a.business_key b.business_key)

unfoldable pub has_start : WorkflowStartIntent → List WorkflowStartIntent → Bool
has_start a [] = false
has_start a (b ∷ rows) = is_same_start a b || has_start a rows

unfoldable pub insert_start_intent :
    WorkflowStartIntent → List WorkflowStartIntent → ContentResult (List WorkflowStartIntent)
unfolding has_start
insert_start_intent a rows = do
  guard (not (has_start a rows)) persistence_operation_failed
  ok (a ∷ rows)

abbrev pub is_start_of :
    (tenant_id : Uuid) → (workflow_type business_key : Text) → WorkflowStartIntent → Bool
is_start_of tenant workflow_type business_key i =
    i.tenant_id == tenant
    && text_eq i.workflow_type workflow_type
    && text_eq i.business_key business_key

-- The row-level policies of the database show the rows of the tenant only.
unfoldable pub get_start_intent_by_business_key :
    (tenant_id : Uuid) (workflow_type business_key : Text)
    → List WorkflowStartIntent
    → Option WorkflowStartIntent
unfolding first
get_start_intent_by_business_key tenant workflow_type business_key rows =
    first (is_start_of tenant workflow_type business_key) rows

abbrev pub is_same_command : WorkflowCommandIntent → WorkflowCommandIntent → Bool
is_same_command a b =
    a.workflow_command_intent_id == b.workflow_command_intent_id
    || a.command_id == b.command_id
    || (a.tenant_id == b.tenant_id && text_eq a.business_key b.business_key)

unfoldable pub has_command : WorkflowCommandIntent → List WorkflowCommandIntent → Bool
has_command a [] = false
has_command a (b ∷ rows) = is_same_command a b || has_command a rows

unfoldable pub insert_command_intent :
    WorkflowCommandIntent → List WorkflowCommandIntent → ContentResult (List WorkflowCommandIntent)
unfolding has_command
insert_command_intent a rows = do
  guard (not (has_command a rows)) persistence_operation_failed
  ok (a ∷ rows)
