-- ===== src/Content/Database.antt =====
-- infrastructure/persistence/repositories.py and the idempotency records: the tables that a unit of
-- work of the content commands reads and writes. A unit of work is bound to a tenant, and the row-level
-- policies of the database show it the rows of that tenant only. A command returns the tables that it
-- commits; when it raises, its unit of work is rolled back and the tables are what they were.
pub mod Rows
pub mod Soundness
pub mod Approval
use eduvijna_aieos_backend.Prelude.{
  ℕ, ◌+◌, Bool, true, false, not, ◌&&◌, ◌||◌, Option, none, some, List, [], ◌∷◌, ◌==◌, Result, ok,
  err, ◌>>=◌, ◌>>◌, guard, if◌then◌else◌, first,
}
use eduvijna_aieos_backend.Python.Text.{Text, text_eq}
use eduvijna_aieos_backend.Python.Scalars.{Uuid, Datetime}
use eduvijna_aieos_backend.Content.Vocabulary.{
  ContentResult, StewardshipState, generated, approved, is_same_state, version_already_exists,
  content_already_exists, persistence_invariant_violation, persistence_operation_failed,
  review_already_decided, version_already_published,
}
use eduvijna_aieos_backend.Content.Version.{Content, ContentVersion, Publication, is_same_id}
use eduvijna_aieos_backend.Content.Review.{ReviewDecision}
use eduvijna_aieos_backend.Workflows.Intents.{WorkflowStartIntent, WorkflowCommandIntent}
use eduvijna_aieos_backend.Events.ContentEvents.{Message}
use eduvijna_aieos_backend.Events.Outbox as Outbox
use eduvijna_aieos_backend.Security.Audit.{AuditRecord}

-- The `CONTENT_…_V1` operations of the content commands that are modelled.
pub data Operation : Type 0 where
  submit_v1 approve_v1 request_changes_v1 reject_v1 publish_v1 : Operation

abbrev pub is_same_operation : Operation → Operation → Bool
is_same_operation submit_v1 submit_v1 = true
is_same_operation approve_v1 approve_v1 = true
is_same_operation request_changes_v1 request_changes_v1 = true
is_same_operation reject_v1 reject_v1 = true
is_same_operation publish_v1 publish_v1 = true
is_same_operation _ _ = false

pub record IdempotencyScope : Type 0 where
  pub tenant_id : Uuid
  pub principal_id : Uuid
  pub operation : Operation
  pub key_sha256 : Text

-- `IdempotencyOutcome`, with its scope as one field and without its two times.
pub record IdempotencyOutcome : Type 0 where
  pub scope : IdempotencyScope
  pub request_fingerprint_sha256 : Text
  pub result_content_id : Uuid
  pub result_version_id : Option Uuid
  pub result_review_decision_id : Option Uuid
  pub result_publication_id : Option Uuid
  pub result_aggregate_revision : ℕ

pub record Database : Type 0 where
  pub contents : List Content
  pub versions : List ContentVersion
  pub reviews : List ReviewDecision
  pub publications : List Publication
  pub start_intents : List WorkflowStartIntent
  pub command_intents : List WorkflowCommandIntent
  pub outbox : List Message
  pub audit : List AuditRecord
  pub outcomes : List IdempotencyOutcome

-- `LockedContentHead`
pub record LockedContentHead : Type 0 where
  pub tenant_id : Uuid
  pub content_id : Uuid
  pub aggregate_revision : ℕ
  pub current_version_id : Option Uuid
  pub current_version_number : Option ℕ
  pub published_version_id : Option Uuid
  pub stewardship_state : StewardshipState
  pub content_type : Text

-- Whether a row passes the test.
unfoldable pub any : {A : Type 0} → (A → Bool) → List A → Bool
any test [] = false
any test (x ∷ xs) = test x || any test xs

abbrev pub is_content : (tenant_id content_id : Uuid) → Content → Bool
is_content tenant content c = c.content_id == content && c.tenant_id == tenant

abbrev pub is_version : (tenant_id version_id : Uuid) → ContentVersion → Bool
is_version tenant version v = v.version_id == version && v.tenant_id == tenant

-- `versions.get`
unfoldable pub get_version : (tenant_id version_id : Uuid) → Database → Option ContentVersion
unfolding first
get_version tenant version d = first (is_version tenant version) d.versions

abbrev pub head_of : Content → Option ℕ → LockedContentHead
head_of c number = record {
  tenant_id = c.tenant_id;
  content_id = c.content_id;
  aggregate_revision = c.aggregate_revision;
  current_version_id = c.current_version_id;
  current_version_number = number;
  published_version_id = c.published_version_id;
  stewardship_state = c.stewardship_state;
  content_type = c.content_type;
}

abbrev pub numbered_head :
    Content → Option ContentVersion → ContentResult (Option LockedContentHead)
numbered_head c none = err persistence_invariant_violation
numbered_head c (some v) = ok (some (head_of c (some v.version_number)))

-- The version number of the current version, if there is one.
abbrev pub locked_head :
    Content → Option Uuid → List ContentVersion → ContentResult (Option LockedContentHead)
locked_head c none versions = ok (some (head_of c none))
locked_head c (some current) versions =
    numbered_head c
      (first (λ v. is_version c.tenant_id current v && v.content_id == c.content_id) versions)

abbrev pub locked_row :
    Option Content → List ContentVersion → ContentResult (Option LockedContentHead)
locked_row none versions = ok none
locked_row (some c) versions = locked_head c c.current_version_id versions

-- `contents.get_head_for_update`
unfoldable pub get_head_for_update :
    (tenant_id content_id : Uuid) → Database → ContentResult (Option LockedContentHead)
unfolding first
get_head_for_update tenant content d =
    locked_row (first (is_content tenant content) d.contents) d.versions

-- `update(…).where(…).values(…)`
unfoldable pub update_contents :
    (Content → Bool) → (Content → Content) → List Content → List Content
update_contents test change [] = []
update_contents test change (c ∷ rows) =
    (if test c then change c else c) ∷ update_contents test change rows

abbrev revision_of : (Content → Content) → Option Content → Option ℕ
revision_of change none = none
revision_of change (some c) = some (change c).aggregate_revision

-- `returning(aggregate_revision)`: the revision of the row that the update changed.
unfoldable pub returned_revision : (Content → Bool) → (Content → Content) → List Content → Option ℕ
unfolding first
returned_revision test change rows = revision_of change (first test rows)
