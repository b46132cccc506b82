-- ===== src/Content/Commands/Decision.antt =====
-- review.py: the service around a decision: authorization, the texts, idempotency and audit.
use eduvijna_aieos_backend.Prelude.{
  ℕ, Bool, true, false, not, ◌&&◌, Option, none, some, List, [], ◌∷◌, ok, err, ◌>>=◌, ◌>>◌, guard,
}
use eduvijna_aieos_backend.Python.Text.{Text, codes, text_eq}
use eduvijna_aieos_backend.Python.Scalars.{Uuid, Datetime}
use eduvijna_aieos_backend.Content.Vocabulary.{
  ContentResult, StewardshipState, generated, approved, invalid_content_request,
  idempotency_key_reused, persistence_invariant_violation,
}
use eduvijna_aieos_backend.Content.Review.{
  ReviewDecision, ReviewDecisionCode, approve, request_changes, reject, normalize_reason_code,
  normalize_review_comment,
}
use eduvijna_aieos_backend.Content.Database.{
  Database, IdempotencyOutcome, Operation, approve_v1, request_changes_v1, reject_v1,
}
use eduvijna_aieos_backend.Content.Database.Rows.{get_review, get_outcome, insert_outcome}
use eduvijna_aieos_backend.Security.Audit.{
  SecurityAuditAction, AuditRecord, content_review_approve, content_review_request_changes,
  content_review_reject, insert_required_content_audit,
}
use eduvijna_aieos_backend.Content.Commands.{Ports, Request, Occasion, ref}
use eduvijna_aieos_backend.Content.Commands.Review.{decide_new}
use eduvijna_aieos_backend.Content.Commands.Service.{scope_of, require_id, decision_fingerprint}

-- `ReviewDecisionResult`
pub record ReviewDecisionResult : Type 0 where
  pub review_decision_id : Uuid
  pub content_id : Uuid
  pub version_id : Uuid
  pub decision : ReviewDecisionCode
  pub reason_code : Option Text
  pub comment : Option Text
  pub decided_at : Datetime
  pub stewardship_state : StewardshipState
  pub aggregate_revision : ℕ

abbrev is_missing : Option Text → Bool
is_missing none = true
is_missing (some t) = false

abbrev as_invalid_request : {A : Type 0} → ContentResult A → ContentResult A
as_invalid_request (ok a) = ok a
as_invalid_request (err e) = err invalid_content_request

-- `_parse_review_text`
unfoldable pub parse_review_text :
    (reason_code comment : Option Text)
    → (require_comment : Bool) → ContentResult (Option Text × Option Text)
unfolding normalize_reason_code normalize_review_comment
parse_review_text reason_code comment require_comment = do
  code ← as_invalid_request (normalize_reason_code reason_code)
  text ← as_invalid_request (normalize_review_comment comment)
  guard (not (require_comment && is_missing text)) invalid_content_request
  ok (code, text)

-- `_decision_audit_action`
abbrev decision_audit_action : ReviewDecisionCode → SecurityAuditAction
decision_audit_action approve = content_review_approve
decision_audit_action request_changes = content_review_request_changes
decision_audit_action reject = content_review_reject

abbrev pub decision_result : ReviewDecision → StewardshipState → ℕ → ReviewDecisionResult
decision_result stored frozen_state revision = record {
  review_decision_id = stored.review_decision_id;
  content_id = stored.content_id;
  version_id = stored.version_id;
  decision = stored.decision;
  reason_code = stored.reason_code;
  comment = stored.comment;
  decided_at = stored.decided_at;
  stewardship_state = frozen_state;
  aggregate_revision = revision;
}

abbrev pub require_review : Option ReviewDecision → ContentResult ReviewDecision
require_review none = err persistence_invariant_violation
require_review (some r) = ok r

-- `_replay_decision`
unfoldable pub replay_decision :
    (tenant_id : Uuid)
    → IdempotencyOutcome
    → StewardshipState
    → Database
    → ContentResult ReviewDecisionResult
unfolding get_review
replay_decision tenant existing frozen_state d = do
  review ← require_id existing.result_review_decision_id
  stored ← require_review (get_review tenant review d)
  ok (decision_result stored frozen_state existing.result_aggregate_revision)

-- What the three decisions pass to `_decide`.
abbrev pub operation_of : ReviewDecisionCode → Operation
operation_of approve = approve_v1
operation_of request_changes = request_changes_v1
operation_of reject = reject_v1

abbrev pub target_state : ReviewDecisionCode → StewardshipState
target_state approve = approved
target_state request_changes = generated
target_state reject = generated

abbrev pub requires_comment : ReviewDecisionCode → Bool
requires_comment approve = false
requires_comment request_changes = true
requires_comment reject = false

-- The audit record of a decision, and its outcome.
unfoldable pub decision_audit :
    ReviewDecisionCode
    → Request
    → Occasion
    → (review_decision_id : Uuid) → (revision : ℕ) → List AuditRecord
    → ContentResult (List AuditRecord)
unfolding insert_required_content_audit
decision_audit decision r o review revision rows =
    insert_required_content_audit o.fresh.audit_record_id r.execution_tenant_id
      (decision_audit_action decision) r.content_id (some r.expected_aggregate_revision) revision
      (ref (codes "content.content_version") r.version_id
        ∷ ref (codes "content.review_decision") review
        ∷ [])
      o.event_context o.audit_provenance o.now rows

abbrev pub decision_outcome :
    Ports
    → ReviewDecisionCode
    → (reason_code comment : Option Text) → Request
    → (review_decision_id : Uuid) → (revision : ℕ) → IdempotencyOutcome
decision_outcome ports decision code text r review revision = record {
  scope = scope_of ports (operation_of decision) r;
  request_fingerprint_sha256 = decision_fingerprint ports r code text;
  result_content_id = r.content_id;
  result_version_id = some r.version_id;
  result_review_decision_id = some review;
  result_publication_id = none;
  result_aggregate_revision = revision;
}

-- The outcome of the scope, or the command.
unfoldable pub decide_scoped :
    Ports
    → ReviewDecisionCode
    → (reason_code comment : Option Text) → Request
    → Occasion
    → Option IdempotencyOutcome
    → Database
    → ContentResult (Database × ReviewDecisionResult)
unfolding decide_new replay_decision decision_audit insert_outcome
decide_scoped ports decision code text r o (some existing) d = do
  guard (text_eq existing.request_fingerprint_sha256 (decision_fingerprint ports r code text))
      idempotency_key_reused
  result ← replay_decision r.execution_tenant_id existing (target_state decision) d
  ok (d, result)
decide_scoped ports decision code text r o none d = do
  ports.evaluate_comment text
  decided ← decide_new ports decision (target_state decision) code text r o d
  audit ← decision_audit decision r o decided.1.0.review_decision_id decided.1.1 decided.0.audit
  d2 ←
      insert_outcome
        (decision_outcome ports decision code text r decided.1.0.review_decision_id decided.1.1)
        (record decided.0 { audit = audit })
  ok (d2, decision_result decided.1.0 (target_state decision) decided.1.1)

-- `ReviewCommandService._decide` with the arguments of `approve`, `request_changes` and `reject`.
unfoldable pub decide :
    Ports
    → ReviewDecisionCode
    → (reason_code comment : Option Text) → Request
    → Occasion
    → Database
    → ContentResult (Database × ReviewDecisionResult)
unfolding parse_review_text get_outcome decide_scoped
decide ports decision reason_code comment r o d = do
  ports.authorize r.execution_tenant_id r.principal_id r.content_id r.version_id
      (codes "content.review.decide")
  texts ← parse_review_text reason_code comment (requires_comment decision)
  decide_scoped ports decision texts.0 texts.1 r o
      (get_outcome (scope_of ports (operation_of decision) r) d) d
