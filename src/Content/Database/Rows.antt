-- ===== src/Content/Database/Rows.antt =====
-- The statements that change a table.
use eduvijna_aieos_backend.Prelude.{
  ℕ, ◌+◌, Bool, not, ◌&&◌, ◌||◌, Option, some, List, ◌∷◌, ◌==◌, Result, ok, err, ◌>>◌, guard, first,
}
use eduvijna_aieos_backend.Python.Text.{text_eq}
use eduvijna_aieos_backend.Python.Scalars.{Uuid, Datetime}
use eduvijna_aieos_backend.Content.Vocabulary.{
  ContentResult, StewardshipState, generated, approved, is_same_state, version_already_exists,
  content_already_exists, persistence_operation_failed, review_already_decided,
  version_already_published,
}
use eduvijna_aieos_backend.Content.Version.{Content, ContentVersion, Publication, is_same_id}
use eduvijna_aieos_backend.Content.Review.{ReviewDecision}
use eduvijna_aieos_backend.Content.Database.{
  IdempotencyScope, IdempotencyOutcome, is_same_operation, Database, any, is_content,
  update_contents, returned_revision,
}
use eduvijna_aieos_backend.Events.ContentEvents.{Message}
use eduvijna_aieos_backend.Events.Outbox.{OutboxError, insert}

-- `contents.insert`
unfoldable pub insert_content : Content → Database → ContentResult Database
unfolding any
insert_content c d = do
  guard (not (any (λ row. row.content_id == c.content_id) d.contents)) content_already_exists
  ok (record d { contents = c ∷ d.contents })

abbrev pub is_same_version : ContentVersion → ContentVersion → Bool
is_same_version v row =
    row.version_id == v.version_id
    || (row.tenant_id == v.tenant_id
        && row.content_id == v.content_id
        && row.version_number == v.version_number)

-- `versions.insert`
unfoldable pub insert_version : ContentVersion → Database → ContentResult Database
unfolding any
insert_version v d = do
  guard (not (any (is_same_version v) d.versions)) version_already_exists
  ok (record d { versions = v ∷ d.versions })

abbrev pub is_current :
    (tenant_id content_id : Uuid) → Option Uuid → StewardshipState → ℕ → Content → Bool
is_current tenant content current state revision c =
    is_content tenant content c
    && is_same_id c.current_version_id current
    && is_same_state c.stewardship_state state
    && c.aggregate_revision == revision

abbrev pub with_current : Uuid → Datetime → Content → Content
with_current version updated_at c = record c {
  current_version_id = some version;
  aggregate_revision = c.aggregate_revision + 1;
  updated_at = updated_at;
  stewardship_state = generated;
}

-- `contents.advance_current_version`: with no revision, no row was updated.
unfoldable pub advance_current_version :
    (content_id tenant_id : Uuid) (expected_revision : ℕ) (expected_current : Option Uuid)
    (expected_state : StewardshipState) (new_version_id : Uuid) (updated_at : Datetime)
    → Database
    → Database × Option ℕ
unfolding update_contents returned_revision
advance_current_version content tenant revision current state version updated_at d =
    let test = is_current tenant content current state revision in
    let change = with_current version updated_at in
    (
      record d { contents = update_contents test change d.contents },
      returned_revision test change d.contents,
    )

abbrev pub with_state : StewardshipState → Datetime → Content → Content
with_state state updated_at c = record c {
  stewardship_state = state;
  aggregate_revision = c.aggregate_revision + 1;
  updated_at = updated_at;
}

-- `contents.transition_stewardship`
unfoldable pub transition_stewardship :
    (content_id tenant_id : Uuid) (expected_revision : ℕ) (expected_current : Uuid)
    (expected_state target_state : StewardshipState) (updated_at : Datetime)
    → Database
    → Database × Option ℕ
unfolding update_contents returned_revision
transition_stewardship content tenant revision current state target updated_at d =
    let test = is_current tenant content (some current) state revision in
    let change = with_state target updated_at in
    (
      record d { contents = update_contents test change d.contents },
      returned_revision test change d.contents,
    )

abbrev pub is_publishable : (tenant_id content_id version_id : Uuid) → ℕ → Content → Bool
is_publishable tenant content version revision c =
    is_current tenant content (some version) approved revision c
    && not (is_same_id c.published_version_id (some version))

abbrev pub with_published : Uuid → Datetime → Content → Content
with_published version updated_at c = record c {
  published_version_id = some version;
  aggregate_revision = c.aggregate_revision + 1;
  updated_at = updated_at;
}

-- `contents.set_published_version`
unfoldable pub set_published_version :
    (content_id tenant_id version_id : Uuid) (expected_revision : ℕ) (updated_at : Datetime)
    → Database
    → Database × Option ℕ
unfolding update_contents returned_revision
set_published_version content tenant version revision updated_at d =
    let test = is_publishable tenant content version revision in
    let change = with_published version updated_at in
    (
      record d { contents = update_contents test change d.contents },
      returned_revision test change d.contents,
    )

abbrev pub is_review_of : (tenant_id content_id version_id : Uuid) → ReviewDecision → Bool
is_review_of tenant content version r =
    r.tenant_id == tenant && r.content_id == content && r.version_id == version

-- `reviews.insert`
unfoldable pub insert_review : ReviewDecision → Database → ContentResult Database
unfolding any
insert_review r d = do
  guard (not (any (λ row. row.review_decision_id == r.review_decision_id) d.reviews))
      review_already_decided
  guard (not (any (is_review_of r.tenant_id r.content_id r.version_id) d.reviews))
      review_already_decided
  ok (record d { reviews = r ∷ d.reviews })

abbrev pub is_review : (tenant_id review_decision_id : Uuid) → ReviewDecision → Bool
is_review tenant review r = r.review_decision_id == review && r.tenant_id == tenant

-- `reviews.get`
unfoldable pub get_review : (tenant_id review_decision_id : Uuid) → Database → Option ReviewDecision
unfolding first
get_review tenant review d = first (is_review tenant review) d.reviews

-- `reviews.get_for_version`
unfoldable pub get_review_for_version :
    (tenant_id content_id version_id : Uuid) → Database → Option ReviewDecision
unfolding first
get_review_for_version tenant content version d =
    first (is_review_of tenant content version) d.reviews

abbrev pub is_publication_of : (tenant_id content_id version_id : Uuid) → Publication → Bool
is_publication_of tenant content version p =
    p.tenant_id == tenant && p.content_id == content && p.version_id == version

-- `publications.insert`
unfoldable pub insert_publication : Publication → Database → ContentResult Database
unfolding any
insert_publication p d = do
  guard (not (any (λ row. row.publication_id == p.publication_id) d.publications))
      version_already_published
  guard (not (any (is_publication_of p.tenant_id p.content_id p.version_id) d.publications))
      version_already_published
  ok (record d { publications = p ∷ d.publications })

abbrev pub is_publication : (tenant_id publication_id : Uuid) → Publication → Bool
is_publication tenant publication p = p.publication_id == publication && p.tenant_id == tenant

-- `publications.get`
unfoldable pub get_publication : (tenant_id publication_id : Uuid) → Database → Option Publication
unfolding first
get_publication tenant publication d = first (is_publication tenant publication) d.publications

-- `publications.get_for_version`
unfoldable pub get_publication_for_version :
    (tenant_id content_id version_id : Uuid) → Database → Option Publication
unfolding first
get_publication_for_version tenant content version d =
    first (is_publication_of tenant content version) d.publications

abbrev pub is_outcome_of : IdempotencyScope → IdempotencyOutcome → Bool
is_outcome_of s o =
    o.scope.tenant_id == s.tenant_id
    && o.scope.principal_id == s.principal_id
    && is_same_operation o.scope.operation s.operation
    && text_eq o.scope.key_sha256 s.key_sha256

-- `idempotency.get`
unfoldable pub get_outcome : IdempotencyScope → Database → Option IdempotencyOutcome
unfolding first
get_outcome s d = first (is_outcome_of s) d.outcomes

-- `idempotency.insert`: a second outcome of a scope violates the unique constraint of the table.
unfoldable pub insert_outcome : IdempotencyOutcome → Database → ContentResult Database
unfolding any
insert_outcome o d = do
  guard (not (any (is_outcome_of o.scope) d.outcomes)) persistence_operation_failed
  ok (record d { outcomes = o ∷ d.outcomes })

abbrev pub inserted : Result OutboxError (List Message) → Database → ContentResult Database
inserted (err e) d = err persistence_operation_failed
inserted (ok rows) d = ok (record d { outbox = rows })

-- `outbox.insert`
unfoldable pub insert_message : Message → Database → ContentResult Database
unfolding insert
insert_message m d = inserted (insert m d.outbox) d
