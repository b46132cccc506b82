-- ===== src/Content/Commands/Review.antt =====
-- review.py: the submission of a version for review, and the decision on it.
use eduvijna_aieos_backend.Prelude.{
  ℕ, Bool, true, false, Option, none, some, [], ◌∷◌, ◌==◌, ok, err, ◌>>=◌, ◌>>◌, guard,
}
use eduvijna_aieos_backend.Python.Text.{Text, codes}
use eduvijna_aieos_backend.Python.Scalars.{Uuid}
use eduvijna_aieos_backend.Content.Vocabulary.{
  ContentResult, StewardshipState, generated, in_review, is_same_state, aggregate_revision_conflict,
  review_version_not_current, review_submit_not_allowed, review_requires_new_version,
  review_decision_not_allowed, review_already_decided, workflow_coordination_failed,
}
use eduvijna_aieos_backend.Content.Json.{string, dict}
use eduvijna_aieos_backend.Content.Version.{is_same_id}
use eduvijna_aieos_backend.Content.Review.{ReviewDecision, ReviewDecisionCode, construct}
use eduvijna_aieos_backend.Content.Database.{Database, LockedContentHead}
use eduvijna_aieos_backend.Content.Database.Rows.{
  transition_stewardship, insert_review, get_review_for_version, insert_message,
}
use eduvijna_aieos_backend.Events.ContentEvents.{
  decision_value, submitted_for_review_outbox, review_decision_outbox,
}
use eduvijna_aieos_backend.Workflows.Intents.{
  WorkflowStartIntent, WorkflowCommandIntent, pending, content_review_workflow_type,
  content_review_task_queue, signal_review_decision_recorded, content_review_business_key,
  content_review_temporal_workflow_id, review_decision_command_business_key, insert_start_intent,
  get_start_intent_by_business_key, insert_command_intent,
}
use eduvijna_aieos_backend.Content.Commands.{
  Ports, Request, Occasion, require_head, require_visible_version, require_resulting,
}

-- `_require_current`
abbrev pub require_current : LockedContentHead → Uuid → ContentResult (Unit {0})
require_current head version =
    guard (is_same_id head.current_version_id (some version)) review_version_not_current

abbrev pub is_absent : Option ReviewDecision → Bool
is_absent none = true
is_absent (some r) = false

-- The intent to start the workflow of the review.
abbrev pub start_intent : Ports → Request → Occasion → WorkflowStartIntent
start_intent ports r o = record {
  workflow_start_intent_id = o.fresh.workflow_start_intent_id;
  tenant_id = r.execution_tenant_id;
  workflow_instance_id = o.fresh.workflow_instance_id;
  workflow_type = content_review_workflow_type;
  workflow_major_version = 1;
  temporal_workflow_id =
      content_review_temporal_workflow_id ports.str_uuid o.fresh.workflow_instance_id;
  task_queue = content_review_task_queue;
  business_key = content_review_business_key ports.str_uuid r.content_id r.version_id;
  input = dict (
      (codes "workflow_instance_id", string (ports.str_uuid o.fresh.workflow_instance_id))
      ∷ (codes "tenant_id", string (ports.str_uuid r.execution_tenant_id))
      ∷ (codes "content_id", string (ports.str_uuid r.content_id))
      ∷ (codes "version_id", string (ports.str_uuid r.version_id))
      ∷ (codes "correlation_id", string (ports.str_uuid o.event_context.correlation_id))
      ∷ []);
  status = pending;
  attempt_count = 0;
  available_at = o.now;
  claimed_by = none;
  claimed_until = none;
  delivered_at = none;
  last_error_code = none;
  created_at = o.now;
}

unfoldable pub submit_for_review_in_uow :
    Ports → Request → Occasion → Database → ContentResult (Database × ℕ)
unfolding require_head require_visible_version get_review_for_version transition_stewardship
    insert_start_intent insert_message
submit_for_review_in_uow ports r o d = do
  head ← require_head r.execution_tenant_id r.content_id d
  version ← require_visible_version r.execution_tenant_id r.content_id r.version_id d
  guard (head.aggregate_revision == r.expected_aggregate_revision) aggregate_revision_conflict
  require_current head r.version_id
  guard (is_same_state head.stewardship_state generated) review_submit_not_allowed
  guard (is_absent (get_review_for_version r.execution_tenant_id r.content_id r.version_id d))
      review_requires_new_version
  moved ← require_resulting (
      transition_stewardship r.content_id r.execution_tenant_id r.expected_aggregate_revision
        r.version_id generated in_review o.now d)
  starts ← insert_start_intent (start_intent ports r o) moved.0.start_intents
  d2 ←
      insert_message
        (submitted_for_review_outbox ports.str_uuid o.fresh.event_id r.execution_tenant_id
          r.content_id r.version_id moved.1 o.event_context o.now)
        (record moved.0 { start_intents = starts })
  ok (d2, moved.1)

abbrev pub found_intent : Option WorkflowStartIntent → ContentResult WorkflowStartIntent
found_intent none = err workflow_coordination_failed
found_intent (some i) = ok i

-- The intent to signal the decision to the workflow.
abbrev pub command_intent :
    Ports
    → Request
    → Occasion
    → ReviewDecisionCode
    → WorkflowStartIntent
    → ReviewDecision
    → WorkflowCommandIntent
command_intent ports r o decision start stored = record {
  workflow_command_intent_id = o.fresh.workflow_command_intent_id;
  tenant_id = r.execution_tenant_id;
  workflow_instance_id = start.workflow_instance_id;
  temporal_workflow_id = start.temporal_workflow_id;
  command_id = o.fresh.workflow_command_id;
  command_type = signal_review_decision_recorded;
  business_key = review_decision_command_business_key ports.str_uuid stored.review_decision_id;
  payload = dict (
      (codes "command_id", string (ports.str_uuid o.fresh.workflow_command_id))
      ∷ (codes "workflow_instance_id", string (ports.str_uuid start.workflow_instance_id))
      ∷ (codes "review_decision_id", string (ports.str_uuid stored.review_decision_id))
      ∷ (codes "content_id", string (ports.str_uuid r.content_id))
      ∷ (codes "version_id", string (ports.str_uuid r.version_id))
      ∷ (codes "decision", string (decision_value decision))
      ∷ (codes "correlation_id", string (ports.str_uuid o.event_context.correlation_id))
      ∷ []);
  status = pending;
  attempt_count = 0;
  available_at = o.now;
  claimed_by = none;
  claimed_until = none;
  delivered_at = none;
  last_error_code = none;
  created_at = o.now;
}

-- The decision that is constructed.
abbrev pub given_decision :
    Request → Occasion → ReviewDecisionCode → (reason_code comment : Option Text) → ReviewDecision
given_decision r o decision code text = record {
  review_decision_id = o.fresh.review_decision_id;
  tenant_id = r.execution_tenant_id;
  content_id = r.content_id;
  version_id = r.version_id;
  decision = decision;
  reason_code = code;
  comment = text;
  reviewer_principal_id = r.principal_id;
  effective_actor_id = r.principal_id;
  delegation_id = none;
  decided_at = o.now;
  correlation_id = o.event_context.correlation_id;
}

-- `_decide_new`: the decision that was stored, and the revision that it led to.
unfoldable pub decide_new :
    Ports
    → ReviewDecisionCode
    → StewardshipState
    → (reason_code comment : Option Text) → Request
    → Occasion
    → Database
    → ContentResult (Database × (ReviewDecision × ℕ))
unfolding require_head require_visible_version get_review_for_version
    get_start_intent_by_business_key construct insert_review transition_stewardship
    insert_command_intent insert_message
decide_new ports decision target code text r o d = do
  head ← require_head r.execution_tenant_id r.content_id d
  version ← require_visible_version r.execution_tenant_id r.content_id r.version_id d
  guard (head.aggregate_revision == r.expected_aggregate_revision) aggregate_revision_conflict
  require_current head r.version_id
  guard (is_same_state head.stewardship_state in_review) review_decision_not_allowed
  guard (is_absent (get_review_for_version r.execution_tenant_id r.content_id r.version_id d))
      review_already_decided
  start ← found_intent (
      get_start_intent_by_business_key r.execution_tenant_id content_review_workflow_type
        (content_review_business_key ports.str_uuid r.content_id r.version_id) d.start_intents)
  stored ← construct (given_decision r o decision code text)
  d1 ← insert_review stored d
  moved ← require_resulting (
      transition_stewardship r.content_id r.execution_tenant_id r.expected_aggregate_revision
        r.version_id in_review target o.now d1)
  commands ←
      insert_command_intent (command_intent ports r o decision start stored) moved.0.command_intents
  d2 ←
      insert_message
        (review_decision_outbox ports.str_uuid o.fresh.event_id r.execution_tenant_id r.content_id
          r.version_id stored.review_decision_id decision target moved.1 o.event_context o.now)
        (record moved.0 { command_intents = commands })
  ok (d2, (stored, moved.1))
