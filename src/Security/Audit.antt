-- ===== src/Security/Audit.antt =====
-- audit/models.py, builders.py and actions.py, and the `insert_required_content_audit` of the content
-- commands: the audit record of a committed mutation, for the actions on content.
use eduvijna_aieos_backend.Prelude.{
  ℕ, ◌+◌, Bool, true, false, not, ◌&&◌, ◌||◌, Option, none, some, List, [], ◌∷◌, length, leb, ◌==◌,
  ok, ◌>>=◌, ◌>>◌, guard,
}
use eduvijna_aieos_backend.Python.Text.{Text, codes, text_eq}
use eduvijna_aieos_backend.Python.Scalars.{Uuid, Datetime, require_aware}
use eduvijna_aieos_backend.Content.Vocabulary.{
  ContentResult, invalid_security_audit, invalid_content_request, persistence_operation_failed,
}
use eduvijna_aieos_backend.Content.Payload.{all_hex}
use eduvijna_aieos_backend.Events.ContentEvents.{MutationEventContext}

-- The actions on content.
pub data SecurityAuditAction : Type 0 where
  content_create content_version_create content_review_submit : SecurityAuditAction
  content_review_approve content_review_request_changes content_review_reject : SecurityAuditAction
  content_publish content_ai_materialize content_migration_import : SecurityAuditAction

pub data ExecutionChannel : Type 0 where
  api workflow_activity ai_materialization migration system : ExecutionChannel

pub record ResourceRef : Type 0 where
  pub resource_type : Text
  pub resource_id : Uuid
  pub resource_revision : Option ℕ

-- `MutationAuditProvenance`
pub record MutationAuditProvenance : Type 0 where
  pub executing_principal_id : Uuid
  pub execution_channel : ExecutionChannel
  pub delegation_id : Option Uuid
  pub trace_id : Option Text

-- `SecurityMutationAuditRecord` with its context.
pub record AuditRecord : Type 0 where
  pub audit_record_id : Uuid
  pub tenant_id : Uuid
  pub action : SecurityAuditAction
  pub primary_resource_ref : ResourceRef
  pub resource_revision_before : Option ℕ
  pub resource_revision_after : ℕ
  pub related_resource_refs : List ResourceRef
  pub mutation_event_context : MutationEventContext
  pub provenance : MutationAuditProvenance
  pub occurred_at : Datetime

abbrev pub is_same_revision : Option ℕ → Option ℕ → Bool
is_same_revision none none = true
is_same_revision (some a) (some b) = a == b
is_same_revision _ _ = false

abbrev pub is_same_ref : ResourceRef → ResourceRef → Bool
is_same_ref r s =
    text_eq r.resource_type s.resource_type
    && r.resource_id == s.resource_id
    && is_same_revision r.resource_revision s.resource_revision

unfoldable pub contains_ref : ResourceRef → List ResourceRef → Bool
contains_ref r [] = false
contains_ref r (s ∷ refs) = is_same_ref r s || contains_ref r refs

unfoldable pub has_duplicate : List ResourceRef → Bool
unfolding contains_ref
has_duplicate [] = false
has_duplicate (r ∷ refs) = contains_ref r refs || has_duplicate refs

-- `_validate_related_refs`
unfoldable pub validate_related_refs : ResourceRef → List ResourceRef → ContentResult (Unit {0})
unfolding contains_ref has_duplicate
validate_related_refs primary related = do
  guard (leb (length related) 16) invalid_security_audit
  guard (not (contains_ref primary related)) invalid_security_audit
  guard (not (has_duplicate related)) invalid_security_audit
  ok tt

unfoldable pub all_zero : Text → Bool
all_zero [] = true
all_zero (c ∷ s) = c == b'0' && all_zero s

-- `_normalize_trace_id`: the digits are those of lowercase hexadecimal numbers.
unfoldable pub normalize_trace_id : Option Text → ContentResult (Unit {0})
unfolding all_hex all_zero
normalize_trace_id none = ok tt
normalize_trace_id (some t) = do
  guard (length t == 32) invalid_security_audit
  guard (all_hex t) invalid_security_audit
  guard (not (all_zero t)) invalid_security_audit
  ok tt

abbrev incremented : Option ℕ → ℕ → Bool
incremented none after = false
incremented (some before) after = after == before + 1

abbrev created_at_revision : Option ℕ → ℕ → ℕ → Bool
created_at_revision none after revision = after == revision
created_at_revision (some before) after revision = false

-- `_validate_revision_pair`
abbrev pub fits_revisions : SecurityAuditAction → Option ℕ → ℕ → Bool
fits_revisions content_create before after = created_at_revision before after 0
fits_revisions content_migration_import before after = created_at_revision before after 1
fits_revisions content_version_create before after = incremented before after
fits_revisions content_review_submit before after = incremented before after
fits_revisions content_review_approve before after = incremented before after
fits_revisions content_review_request_changes before after = incremented before after
fits_revisions content_review_reject before after = incremented before after
fits_revisions content_publish before after = incremented before after
fits_revisions content_ai_materialize before after = incremented before after

-- `_require_specialized_channel`
abbrev pub fits_channel : SecurityAuditAction → ExecutionChannel → Bool
fits_channel content_ai_materialize ai_materialization = true
fits_channel content_ai_materialize _ = false
fits_channel content_migration_import migration = true
fits_channel content_migration_import _ = false
fits_channel _ _ = true

-- `SecurityMutationAuditRecord.__post_init__` and that of its context. The revision of the primary
-- resource is the revision after, as every action on content requires.
unfoldable pub build_record : AuditRecord → ContentResult AuditRecord
unfolding normalize_trace_id validate_related_refs
build_record r = do
  normalize_trace_id r.provenance.trace_id
  guard (fits_revisions r.action r.resource_revision_before r.resource_revision_after)
      invalid_security_audit
  guard (is_same_revision r.primary_resource_ref.resource_revision (some r.resource_revision_after))
      invalid_security_audit
  validate_related_refs r.primary_resource_ref r.related_resource_refs
  require_aware invalid_security_audit r.occurred_at
  ok r

unfoldable pub has_record : Uuid → List AuditRecord → Bool
has_record u [] = false
has_record u (r ∷ rows) = r.audit_record_id == u || has_record u rows

-- `insert_required_content_audit`: the identity of the record is generated.
unfoldable pub insert_required_content_audit :
    (audit_record_id tenant_id : Uuid) (action : SecurityAuditAction) (content_id : Uuid)
    (before : Option ℕ) (after : ℕ) (related : List ResourceRef) (context : MutationEventContext)
    (provenance : MutationAuditProvenance) (occurred_at : Datetime)
    → List AuditRecord
    → ContentResult (List AuditRecord)
unfolding build_record has_record
insert_required_content_audit audit_record_id tenant action content before after related context
      provenance occurred_at rows =
    do
      guard (fits_channel action provenance.execution_channel) invalid_content_request
      built ← build_record (record {
        audit_record_id = audit_record_id;
        tenant_id = tenant;
        action = action;
        primary_resource_ref = record {
          resource_type = codes "content.content";
          resource_id = content;
          resource_revision = some after;
        };
        resource_revision_before = before;
        resource_revision_after = after;
        related_resource_refs = related;
        mutation_event_context = context;
        provenance = provenance;
        occurred_at = occurred_at;
      })
      guard (not (has_record audit_record_id rows)) persistence_operation_failed
      ok (built ∷ rows)
