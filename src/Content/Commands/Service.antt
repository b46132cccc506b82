-- ===== src/Content/Commands/Service.antt =====
-- review.py: the service around a submission: authorization, idempotency and audit.
use eduvijna_aieos_backend.Prelude.{
  ℕ, Option, none, some, List, [], ◌∷◌, ◌++◌, ok, err, ◌>>=◌, ◌>>◌, guard, first,
}
use eduvijna_aieos_backend.Python.Text.{Text, codes, text_eq}
use eduvijna_aieos_backend.Python.Scalars.{Uuid}
use eduvijna_aieos_backend.Content.Vocabulary.{
  ContentResult, StewardshipState, in_review, idempotency_key_reused,
  persistence_invariant_violation,
}
use eduvijna_aieos_backend.Content.Json.{Value, null, string, dict}
use eduvijna_aieos_backend.Content.Version.{Content}
use eduvijna_aieos_backend.Content.Database.{
  Database, IdempotencyScope, IdempotencyOutcome, Operation, submit_v1, is_content,
}
use eduvijna_aieos_backend.Content.Database.Rows.{get_outcome, insert_outcome}
use eduvijna_aieos_backend.Security.Audit.{
  AuditRecord, content_review_submit, insert_required_content_audit,
}
use eduvijna_aieos_backend.Content.Commands.{Ports, Request, Occasion, request_material, ref}
use eduvijna_aieos_backend.Content.Commands.Review.{submit_for_review_in_uow}

-- `ReviewSubmissionResult`
pub record ReviewSubmissionResult : Type 0 where
  pub content_id : Uuid
  pub version_id : Uuid
  pub stewardship_state : StewardshipState
  pub aggregate_revision : ℕ

abbrev optional_string : Option Text → Value
optional_string none = null
optional_string (some t) = string t

-- `_review_fingerprint` without and with the texts.
abbrev pub submit_fingerprint : Ports → Request → Text
submit_fingerprint ports r = ports.fingerprint_material (dict (request_material ports r))

abbrev pub decision_fingerprint : Ports → Request → (reason_code comment : Option Text) → Text
decision_fingerprint ports r code text = ports.fingerprint_material (
    dict (
      request_material ports r
      ++ ((codes "reason_code", optional_string code)
          ∷ (codes "comment", optional_string text)
          ∷ [])))

abbrev pub scope_of : Ports → Operation → Request → IdempotencyScope
scope_of ports operation r = record {
  tenant_id = r.execution_tenant_id;
  principal_id = r.principal_id;
  operation = operation;
  key_sha256 = ports.hash_idempotency_key r.idempotency_key;
}

abbrev pub require_id : Option Uuid → ContentResult Uuid
require_id none = err persistence_invariant_violation
require_id (some u) = ok u

abbrev pub require_content : Option Content → ContentResult (Unit {0})
require_content none = err persistence_invariant_violation
require_content (some c) = ok tt

-- The audit record of a submission, and its outcome.
unfoldable pub submit_audit :
    Request → Occasion → (revision : ℕ) → List AuditRecord → ContentResult (List AuditRecord)
unfolding insert_required_content_audit
submit_audit r o revision rows =
    insert_required_content_audit o.fresh.audit_record_id r.execution_tenant_id
      content_review_submit r.content_id (some r.expected_aggregate_revision) revision
      (ref (codes "content.content_version") r.version_id ∷ []) o.event_context o.audit_provenance
      o.now rows

abbrev pub submit_outcome : Ports → Request → (revision : ℕ) → IdempotencyOutcome
submit_outcome ports r revision = record {
  scope = scope_of ports submit_v1 r;
  request_fingerprint_sha256 = submit_fingerprint ports r;
  result_content_id = r.content_id;
  result_version_id = some r.version_id;
  result_review_decision_id = none;
  result_publication_id = none;
  result_aggregate_revision = revision;
}

-- The outcome of the scope, or the command.
unfoldable pub submit_scoped :
    Ports
    → Request
    → Occasion
    → Option IdempotencyOutcome
    → Database
    → ContentResult (Database × ReviewSubmissionResult)
unfolding first submit_for_review_in_uow submit_audit insert_outcome
submit_scoped ports r o (some existing) d = do
  guard (text_eq existing.request_fingerprint_sha256 (submit_fingerprint ports r))
      idempotency_key_reused
  version ← require_id existing.result_version_id
  require_content (first (is_content r.execution_tenant_id existing.result_content_id) d.contents)
  ok (
    d,
    record {
      content_id = existing.result_content_id;
      version_id = version;
      stewardship_state = in_review;
      aggregate_revision = existing.result_aggregate_revision;
    },
  )
submit_scoped ports r o none d = do
  moved ← submit_for_review_in_uow ports r o d
  audit ← submit_audit r o moved.1 moved.0.audit
  d2 ← insert_outcome (submit_outcome ports r moved.1) (record moved.0 { audit = audit })
  ok (
    d2,
    record {
      content_id = r.content_id;
      version_id = r.version_id;
      stewardship_state = in_review;
      aggregate_revision = moved.1;
    },
  )

-- `ReviewCommandService.submit`
unfoldable pub submit :
    Ports → Request → Occasion → Database → ContentResult (Database × ReviewSubmissionResult)
unfolding get_outcome submit_scoped
submit ports r o d = do
  ports.authorize r.execution_tenant_id r.principal_id r.content_id r.version_id
      (codes "content.review.submit")
  submit_scoped ports r o (get_outcome (scope_of ports submit_v1 r) d) d
