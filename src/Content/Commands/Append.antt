-- ===== src/Content/Commands/Append.antt =====
-- services.py: the append of a version, for a version that references no asset. `provenance` is what
-- the normalization of the provenance of its origin returns or raises.
use eduvijna_aieos_backend.Prelude.{
  ℕ, ◌+◌, Bool, true, false, ◌&&◌, Option, none, some, ◌==◌, ok, ◌>>=◌, ◌>>◌, guard,
}
use eduvijna_aieos_backend.Python.Text.{Text}
use eduvijna_aieos_backend.Python.Scalars.{Uuid, Datetime, require_aware}
use eduvijna_aieos_backend.Content.Vocabulary.{
  ContentResult, StewardshipState, draft, generated, in_review, approved, archived,
  tenant_context_mismatch, persistence_invariant_violation, aggregate_revision_conflict,
  version_append_not_allowed, version_lineage_conflict,
}
use eduvijna_aieos_backend.Content.Version.{ContentVersion, is_same_id}
use eduvijna_aieos_backend.Content.Database.{Database, LockedContentHead}
use eduvijna_aieos_backend.Content.Database.Rows.{
  insert_version, advance_current_version, insert_message,
}
use eduvijna_aieos_backend.Events.ContentEvents.{MutationEventContext, version_created_outbox}
use eduvijna_aieos_backend.Content.Commands.{require_head, require_resulting}

-- `_APPEND_ALLOWED`
abbrev pub allows_append : StewardshipState → Bool
allows_append draft = true
allows_append generated = true
allows_append approved = true
allows_append in_review = false
allows_append archived = false

abbrev pub follows_number : Option ℕ → ℕ → Bool
follows_number none number = false
follows_number (some current) number = number == current + 1

abbrev pub is_linear : Option Uuid → Option ℕ → ContentVersion → Bool
is_linear none number v = v.version_number == 1 && is_same_id v.parent_version_id none
is_linear (some current) number v =
    is_same_id v.parent_version_id (some current) && follows_number number v.version_number

-- `_assert_linear_append`
unfoldable pub assert_linear_append : LockedContentHead → ContentVersion → ContentResult (Unit {0})
assert_linear_append head v =
    guard (is_linear head.current_version_id head.current_version_number v) version_lineage_conflict

unfoldable pub append_version_in_uow :
    (str_uuid : Uuid → Text) (execution_tenant_id : Uuid) (expected_aggregate_revision : ℕ)
    (version : ContentVersion) (provenance : ContentResult (Unit {0})) (now : Datetime)
    (event_context : MutationEventContext) (event_id : Uuid)
    → Database
    → ContentResult (Database × ℕ)
unfolding require_head assert_linear_append insert_version advance_current_version insert_message
append_version_in_uow str_uuid tenant expected version provenance now context event_id d = do
  guard (tenant == version.tenant_id) tenant_context_mismatch
  provenance
  require_aware persistence_invariant_violation now
  head ← require_head tenant version.content_id d
  guard (head.aggregate_revision == expected) aggregate_revision_conflict
  guard (allows_append head.stewardship_state) version_append_not_allowed
  assert_linear_append head version
  d1 ← insert_version version d
  moved ← require_resulting (
      advance_current_version version.content_id tenant expected head.current_version_id
        head.stewardship_state version.version_id now d1)
  d2 ←
      insert_message
        (version_created_outbox str_uuid event_id tenant version.content_id version.version_id
          version.version_number version.origin moved.1 context now)
        moved.0
  ok (d2, moved.1)
