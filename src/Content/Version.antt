-- ===== src/Content/Version.antt =====
-- domain/version.py, content.py and publication.py: a version with its place in the history, the head of
-- a content, and the fact of a publication.
use eduvijna_aieos_backend.Prelude.{
  ℕ, ◌+◌, Bool, true, false, not, Option, none, some, [], ◌∷◌, ◌==◌, ok, err, ◌>>=◌, ◌>>◌, guard,
}
use eduvijna_aieos_backend.Python.Text.{Text, strip}
use eduvijna_aieos_backend.Python.Scalars.{Uuid, Datetime, require_aware, require_optional_aware}
use eduvijna_aieos_backend.Content.Vocabulary.{
  ContentResult, StewardshipState, draft, generated, in_review, approved, archived, ContentOrigin,
  content_domain, invalid_aggregate, parent_lineage,
}
use eduvijna_aieos_backend.Content.Payload.{ContentPayload}

-- `==` of two optional identities.
abbrev pub is_same_id : Option Uuid → Option Uuid → Bool
is_same_id none none = true
is_same_id (some a) (some b) = a == b
is_same_id _ _ = false

-- `VersionNumber`, `AggregateRevision` and `SchemaVersion` are the numbers that they wrap, and a
-- version number is at least 1.
pub record ContentVersion : Type 0 where
  pub version_id : Uuid
  pub tenant_id : Uuid
  pub content_id : Uuid
  pub version_number : ℕ
  pub parent_version_id : Option Uuid
  pub schema_id : Text
  pub schema_version : ℕ
  pub payload : ContentPayload
  pub origin : ContentOrigin
  pub created_at : Datetime
  pub created_by_principal_id : Uuid

abbrev pub is_some : Option Uuid → Bool
is_some none = false
is_some (some u) = true

-- `is_first == has_parent`
abbrev pub is_same_bool : Bool → Bool → Bool
is_same_bool true b = b
is_same_bool false b = not b

-- `ContentVersion.__post_init__`
unfoldable pub construct_version : ContentVersion → ContentResult ContentVersion
construct_version v = do
  require_aware content_domain v.created_at
  guard (not (is_same_bool (v.version_number == 1) (is_some v.parent_version_id))) parent_lineage
  guard (not (is_same_id v.parent_version_id (some v.version_id))) parent_lineage
  ok v

abbrev require_parent : Option Uuid → ContentResult (Unit {0})
require_parent none = err parent_lineage
require_parent (some u) = ok tt

-- `validate_linear_parent`
unfoldable pub validate_linear_parent : (child parent : ContentVersion) → ContentResult (Unit {0})
validate_linear_parent child parent = do
  require_parent child.parent_version_id
  guard (parent.tenant_id == child.tenant_id) parent_lineage
  guard (parent.content_id == child.content_id) parent_lineage
  guard (is_same_id child.parent_version_id (some parent.version_id)) parent_lineage
  guard (child.version_number == parent.version_number + 1) parent_lineage
  guard (not (is_same_id parent.parent_version_id (some child.version_id))) parent_lineage
  ok tt

-- `Content`, which is also a row of its table. `ContentType` is the text that it wraps.
pub record Content : Type 0 where
  pub content_id : Uuid
  pub tenant_id : Uuid
  pub owner_principal_id : Uuid
  pub content_type : Text
  pub title : Text
  pub description : Text
  pub locale : Text
  pub stewardship_state : StewardshipState
  pub current_version_id : Option Uuid
  pub published_version_id : Option Uuid
  pub aggregate_revision : ℕ
  pub created_at : Datetime
  pub created_by_principal_id : Uuid
  pub updated_at : Datetime
  pub archived_at : Option Datetime

abbrev non_empty : Text → ContentResult Text
non_empty [] = err invalid_aggregate
non_empty (c ∷ s) = ok (c ∷ s)

-- `_require_text` of content.py, which has no limit.
abbrev pub require_content_text : Text → ContentResult Text
require_content_text value = non_empty (strip value)

-- The tests on `archived_at` and the published pointer.
abbrev pub assert_archive :
    StewardshipState → Option Datetime → Option Uuid → ContentResult (Unit {0})
assert_archive archived none published = err invalid_aggregate
assert_archive archived (some t) (some v) = err invalid_aggregate
assert_archive archived (some t) none = ok tt
assert_archive draft (some t) published = err invalid_aggregate
assert_archive generated (some t) published = err invalid_aggregate
assert_archive in_review (some t) published = err invalid_aggregate
assert_archive approved (some t) published = err invalid_aggregate
assert_archive draft none published = ok tt
assert_archive generated none published = ok tt
assert_archive in_review none published = ok tt
assert_archive approved none published = ok tt

-- `Content.__post_init__`
unfoldable pub construct_content : Content → ContentResult Content
construct_content c = do
  title ← require_content_text c.title
  locale ← require_content_text c.locale
  require_aware invalid_aggregate c.created_at
  require_aware invalid_aggregate c.updated_at
  require_optional_aware invalid_aggregate c.archived_at
  assert_archive c.stewardship_state c.archived_at c.published_version_id
  ok (record c { title = title; locale = locale })

-- `Publication`
pub record Publication : Type 0 where
  pub publication_id : Uuid
  pub tenant_id : Uuid
  pub content_id : Uuid
  pub version_id : Uuid
  pub approval_decision_id : Uuid
  pub published_by_principal_id : Uuid
  pub effective_actor_id : Uuid
  pub published_at : Datetime
  pub correlation_id : Uuid
