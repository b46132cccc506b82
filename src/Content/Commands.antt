-- ===== src/Content/Commands.antt =====
-- What the commands of the application layer share: the ports that are injected into the services, the
-- identities that a command generates, the request, and the reads that a command begins with.
pub mod Append
pub mod Review
pub mod Service
pub mod Decision
pub mod Publish
pub mod Soundness
pub mod Approvals
pub mod Publications
pub mod Services
pub mod Create
pub mod History
pub mod Lineage
pub mod Replay
pub mod Retry
use eduvijna_aieos_backend.Prelude.{
  ℕ, Bool, true, not, Option, none, some, List, [], ◌∷◌, ◌==◌, ok, err, ◌>>=◌, ◌>>◌, guard,
}
use eduvijna_aieos_backend.Python.Text.{Text, codes}
use eduvijna_aieos_backend.Python.Scalars.{pos, Uuid, Datetime}
use eduvijna_aieos_backend.Content.Vocabulary.{
  ContentResult, content_not_found, content_version_not_found, aggregate_revision_conflict,
}
use eduvijna_aieos_backend.Content.Json.{Value, string, integer, dict}
use eduvijna_aieos_backend.Content.Version.{ContentVersion}
use eduvijna_aieos_backend.Content.Database.{
  Database, LockedContentHead, get_head_for_update, get_version,
}
use eduvijna_aieos_backend.Events.ContentEvents.{MutationEventContext}
use eduvijna_aieos_backend.Security.Audit.{MutationAuditProvenance, ResourceRef}

-- The ports of the services, `str` of a UUID, and the two hashes of hashing.py, which are SHA-256 of a
-- text and of the canonical JSON of a dict. A port returns or raises. `schema_content_type` is none
-- when the registry has no such schema.
pub record Ports : Type 0 where
  pub str_uuid : Uuid → Text
  pub fingerprint_material : Value → Text
  pub hash_idempotency_key : Text → Text
  pub authorize :
      (tenant_id principal_id content_id version_id : Uuid) → Text → ContentResult (Unit {0})
  pub evaluate_comment : Option Text → ContentResult (Unit {0})
  pub schema_content_type : Text → ℕ → Option Text
  pub validate_payload : Text → ℕ → Value → ContentResult (Unit {0})
  pub validate_current_use :
      (tenant_id principal_id content_id version_id : Uuid) → ContentResult (Unit {0})
  pub evaluate_publication : (tenant_id content_id version_id : Uuid) → ContentResult (Unit {0})

-- The UUIDs that one command generates, of which each command uses some.
pub record Fresh : Type 0 where
  pub review_decision_id : Uuid
  pub publication_id : Uuid
  pub workflow_instance_id : Uuid
  pub workflow_start_intent_id : Uuid
  pub workflow_command_id : Uuid
  pub workflow_command_intent_id : Uuid
  pub event_id : Uuid
  pub audit_record_id : Uuid

-- What the three commands are called with, and `Occasion` what may differ when a caller retries.
pub record Request : Type 0 where
  pub execution_tenant_id : Uuid
  pub principal_id : Uuid
  pub content_id : Uuid
  pub version_id : Uuid
  pub expected_aggregate_revision : ℕ
  pub idempotency_key : Text

pub record Occasion : Type 0 where
  pub event_context : MutationEventContext
  pub audit_provenance : MutationAuditProvenance
  pub now : Datetime
  pub fresh : Fresh

-- The head is locked, and it belongs to the tenant.
abbrev pub found_head : Uuid → Option LockedContentHead → ContentResult LockedContentHead
found_head tenant none = err content_not_found
found_head tenant (some head) = do guard (head.tenant_id == tenant) content_not_found; ok head

unfoldable pub require_head :
    (tenant_id content_id : Uuid) → Database → ContentResult LockedContentHead
unfolding get_head_for_update
require_head tenant content d = do
  head ← get_head_for_update tenant content d
  found_head tenant head

abbrev found_version : Uuid → Option ContentVersion → ContentResult ContentVersion
found_version content none = err content_version_not_found
found_version content (some v) = do guard (v.content_id == content) content_version_not_found; ok v

-- `_require_visible_version`
unfoldable pub require_visible_version :
    (tenant_id content_id version_id : Uuid) → Database → ContentResult ContentVersion
unfolding get_version
require_visible_version tenant content version d =
    found_version content (get_version tenant version d)

-- `if resulting is None: raise AggregateRevisionConflict`
abbrev pub require_resulting : Database × Option ℕ → ContentResult (Database × ℕ)
require_resulting (d, none) = err aggregate_revision_conflict
require_resulting (d, some revision) = ok (d, revision)

-- The material that each fingerprint starts with.
abbrev pub request_material : Ports → Request → List (Text × Value)
request_material ports r =
    (codes "content_id", string (ports.str_uuid r.content_id))
    ∷ (codes "version_id", string (ports.str_uuid r.version_id))
    ∷ (codes "expected_aggregate_revision", integer (pos r.expected_aggregate_revision))
    ∷ []

abbrev pub ref : Text → Uuid → ResourceRef
ref resource_type u = record {
  resource_type = resource_type;
  resource_id = u;
  resource_revision = none;
}
