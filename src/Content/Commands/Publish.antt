-- ===== src/Content/Commands/Publish.antt =====
-- publish.py: the publication of the current version of an approved content.
use eduvijna_aieos_backend.Prelude.{
  ℕ, Bool, true, false, not, Option, none, some, List, [], ◌∷◌, ◌==◌, ok, err, ◌>>=◌, ◌>>◌, guard,
}
use eduvijna_aieos_backend.Python.Text.{Text, codes, text_eq}
use eduvijna_aieos_backend.Python.Scalars.{Uuid, Datetime, require_aware}
use eduvijna_aieos_backend.Content.Vocabulary.{
  ContentResult, approved, archived, is_same_state, aggregate_revision_conflict,
  publication_version_not_current, publication_not_allowed, publication_approval_required,
  version_already_published, publication_schema_unavailable, publication_binding,
  idempotency_key_reused, persistence_invariant_violation,
}
use eduvijna_aieos_backend.Content.Json.{dict}
use eduvijna_aieos_backend.Content.Version.{ContentVersion, Publication, is_same_id}
use eduvijna_aieos_backend.Content.Review.{ReviewDecision, is_approve}
use eduvijna_aieos_backend.Content.Database.{
  Database, IdempotencyScope, IdempotencyOutcome, publish_v1,
}
use eduvijna_aieos_backend.Content.Database.Rows.{
  get_review_for_version, get_publication, get_publication_for_version, insert_publication,
  set_published_version, insert_message, get_outcome, insert_outcome,
}
use eduvijna_aieos_backend.Events.ContentEvents.{published_outbox}
use eduvijna_aieos_backend.Security.Audit.{
  AuditRecord, content_publish, insert_required_content_audit,
}
use eduvijna_aieos_backend.Content.Commands.{
  Ports, Request, Occasion, require_head, require_visible_version, require_resulting,
  request_material, ref,
}

-- `PublicationResult`
pub record PublicationResult : Type 0 where
  pub publication_id : Uuid
  pub content_id : Uuid
  pub version_id : Uuid
  pub approval_decision_id : Uuid
  pub published_at : Datetime
  pub published_version_id : Uuid
  pub aggregate_revision : ℕ

-- The exact version has an APPROVE decision.
abbrev pub require_approval : Option ReviewDecision → ContentResult ReviewDecision
require_approval none = err publication_approval_required
require_approval (some r) = do guard (is_approve r.decision) publication_approval_required; ok r

abbrev pub is_unpublished : Option Publication → Bool
is_unpublished none = true
is_unpublished (some p) = false

abbrev matches_type : Option Text → Text → Bool
matches_type none content_type = false
matches_type (some registered) content_type = text_eq registered content_type

-- The checks of the registered schema: it is there, it is that of the content, and it accepts the
-- payload.
unfoldable pub validate_schema : Ports → ContentVersion → Text → ContentResult (Unit {0})
validate_schema ports v content_type = do
  guard (matches_type (ports.schema_content_type v.schema_id v.schema_version) content_type)
      publication_schema_unavailable
  ports.validate_payload v.schema_id v.schema_version v.payload.body

-- The publication that is constructed.
abbrev pub new_publication : Request → Occasion → ReviewDecision → Publication
new_publication r o decision = record {
  publication_id = o.fresh.publication_id;
  tenant_id = r.execution_tenant_id;
  content_id = r.content_id;
  version_id = r.version_id;
  approval_decision_id = decision.review_decision_id;
  published_by_principal_id = r.principal_id;
  effective_actor_id = r.principal_id;
  published_at = o.now;
  correlation_id = o.event_context.correlation_id;
}

abbrev pub publication_result : Request → Occasion → ReviewDecision → ℕ → PublicationResult
publication_result r o decision revision = record {
  publication_id = o.fresh.publication_id;
  content_id = r.content_id;
  version_id = r.version_id;
  approval_decision_id = decision.review_decision_id;
  published_at = o.now;
  published_version_id = r.version_id;
  aggregate_revision = revision;
}

-- `_publish_new`
unfoldable pub publish_new :
    Ports → Request → Occasion → Database → ContentResult (Database × PublicationResult)
unfolding require_head require_visible_version get_review_for_version get_publication_for_version
    validate_schema insert_publication set_published_version insert_message
publish_new ports r o d = do
  head ← require_head r.execution_tenant_id r.content_id d
  version ← require_visible_version r.execution_tenant_id r.content_id r.version_id d
  guard (head.aggregate_revision == r.expected_aggregate_revision) aggregate_revision_conflict
  guard (is_same_id head.current_version_id (some r.version_id)) publication_version_not_current
  guard (not (is_same_state head.stewardship_state archived)) publication_not_allowed
  guard (is_same_state head.stewardship_state approved) publication_not_allowed
  decision ←
      require_approval (get_review_for_version r.execution_tenant_id r.content_id r.version_id d)
  guard
      (is_unpublished
        (get_publication_for_version r.execution_tenant_id r.content_id r.version_id d))
      version_already_published
  guard (not (is_same_id head.published_version_id (some r.version_id))) version_already_published
  validate_schema ports version head.content_type
  ports.validate_current_use r.execution_tenant_id r.principal_id r.content_id r.version_id
  ports.evaluate_publication r.execution_tenant_id r.content_id r.version_id
  require_aware publication_binding o.now
  d1 ← insert_publication (new_publication r o decision) d
  moved ← require_resulting (
      set_published_version r.content_id r.execution_tenant_id r.version_id
        r.expected_aggregate_revision o.now d1)
  d2 ←
      insert_message
        (published_outbox ports.str_uuid o.fresh.event_id r.execution_tenant_id r.content_id
          r.version_id o.fresh.publication_id moved.1 o.event_context o.now)
        moved.0
  ok (d2, publication_result r o decision moved.1)

-- `_publish_fingerprint`
abbrev pub publish_fingerprint : Ports → Request → Text
publish_fingerprint ports r = ports.fingerprint_material (dict (request_material ports r))

abbrev pub publish_scope : Ports → Request → IdempotencyScope
publish_scope ports r = record {
  tenant_id = r.execution_tenant_id;
  principal_id = r.principal_id;
  operation = publish_v1;
  key_sha256 = ports.hash_idempotency_key r.idempotency_key;
}

abbrev pub require_publication_id : Option Uuid → ContentResult Uuid
require_publication_id none = err persistence_invariant_violation
require_publication_id (some u) = ok u

abbrev pub require_publication : Option Publication → ContentResult Publication
require_publication none = err persistence_invariant_violation
require_publication (some p) = ok p

-- `_replay`
unfoldable pub replay :
    (tenant_id : Uuid) → IdempotencyOutcome → Database → ContentResult PublicationResult
unfolding get_publication
replay tenant existing d = do
  publication ← require_publication_id existing.result_publication_id
  stored ← require_publication (get_publication tenant publication d)
  ok (record {
    publication_id = stored.publication_id;
    content_id = stored.content_id;
    version_id = stored.version_id;
    approval_decision_id = stored.approval_decision_id;
    published_at = stored.published_at;
    published_version_id = stored.version_id;
    aggregate_revision = existing.result_aggregate_revision;
  })

-- The audit record of a publication, and its outcome.
unfoldable pub publish_audit :
    Request → Occasion → PublicationResult → List AuditRecord → ContentResult (List AuditRecord)
unfolding insert_required_content_audit
publish_audit r o result rows =
    insert_required_content_audit o.fresh.audit_record_id r.execution_tenant_id content_publish
      r.content_id (some r.expected_aggregate_revision) result.aggregate_revision
      (ref (codes "content.content_version") r.version_id
        ∷ ref (codes "content.review_decision") result.approval_decision_id
        ∷ ref (codes "content.publication") result.publication_id
        ∷ [])
      o.event_context o.audit_provenance o.now rows

abbrev pub publish_outcome : Ports → Request → PublicationResult → IdempotencyOutcome
publish_outcome ports r result = record {
  scope = publish_scope ports r;
  request_fingerprint_sha256 = publish_fingerprint ports r;
  result_content_id = r.content_id;
  result_version_id = some r.version_id;
  result_review_decision_id = none;
  result_publication_id = some result.publication_id;
  result_aggregate_revision = result.aggregate_revision;
}

-- The outcome of the scope, or the command.
unfoldable pub publish_scoped :
    Ports
    → Request
    → Occasion
    → Option IdempotencyOutcome
    → Database
    → ContentResult (Database × PublicationResult)
unfolding publish_new replay publish_audit insert_outcome
publish_scoped ports r o (some existing) d = do
  guard (text_eq existing.request_fingerprint_sha256 (publish_fingerprint ports r))
      idempotency_key_reused
  result ← replay r.execution_tenant_id existing d
  ok (d, result)
publish_scoped ports r o none d = do
  done ← publish_new ports r o d
  audit ← publish_audit r o done.1 done.0.audit
  d2 ← insert_outcome (publish_outcome ports r done.1) (record done.0 { audit = audit })
  ok (d2, done.1)

-- `PublishContentService.publish`
unfoldable pub publish :
    Ports → Request → Occasion → Database → ContentResult (Database × PublicationResult)
unfolding get_outcome publish_scoped
publish ports r o d = do
  ports.authorize r.execution_tenant_id r.principal_id r.content_id r.version_id
      (codes "content.publish")
  publish_scoped ports r o (get_outcome (publish_scope ports r) d) d
