-- ===== src/Content/Commands/Create.antt =====
-- in_uow.py: the creation of a content, which is a draft without a version.
use eduvijna_aieos_backend.Prelude.{none, [], ◌∷◌, ok, err, ◌>>=◌}
use eduvijna_aieos_backend.Python.Text.{Text, strip}
use eduvijna_aieos_backend.Python.Scalars.{Uuid, Datetime}
use eduvijna_aieos_backend.Content.Vocabulary.{
  ContentResult, draft, invalid_content_type, invalid_content_request,
}
use eduvijna_aieos_backend.Content.Version.{Content, construct_content}
use eduvijna_aieos_backend.Content.Database.{Database}
use eduvijna_aieos_backend.Content.Database.Rows.{insert_content, insert_message}
use eduvijna_aieos_backend.Events.ContentEvents.{content_created_outbox}
use eduvijna_aieos_backend.Security.Audit.{content_create, insert_required_content_audit}
use eduvijna_aieos_backend.Content.Commands.{Ports, Occasion}

pub record CreateContentCommand : Type 0 where
  pub content_type : Text
  pub title : Text
  pub description : Text
  pub locale : Text

abbrev type_of_bare : Text → ContentResult Text
type_of_bare [] = err invalid_content_type
type_of_bare (c ∷ s) = ok (c ∷ s)

-- `ContentType.__post_init__`
unfoldable pub construct_type : Text → ContentResult Text
construct_type value = type_of_bare (strip value)

abbrev pub new_content :
    (tenant principal content_id : Uuid) → CreateContentCommand → Text → Datetime → Content
new_content tenant principal content_id command content_type created_at = record {
  content_id = content_id;
  tenant_id = tenant;
  owner_principal_id = principal;
  content_type = content_type;
  title = command.title;
  description = command.description;
  locale = command.locale;
  stewardship_state = draft;
  current_version_id = none;
  published_version_id = none;
  aggregate_revision = 0;
  created_at = created_at;
  created_by_principal_id = principal;
  updated_at = created_at;
  archived_at = none;
}

-- A domain error is an invalid request.
abbrev pub requested : ContentResult Content → ContentResult Content
requested (err e) = err invalid_content_request
requested (ok c) = ok c

unfoldable pub create_content_in_uow :
    Ports
    → (execution_tenant_id principal_id content_id : Uuid) → CreateContentCommand
    → Occasion
    → Database
    → ContentResult (Database × Content)
unfolding construct_type construct_content insert_content insert_message
    insert_required_content_audit
create_content_in_uow ports tenant principal content_id command o d = do
  c ← requested (
      construct_type command.content_type >>= λ content_type.
      construct_content (new_content tenant principal content_id command content_type o.now))
  d1 ← insert_content c d
  d2 ←
      insert_message
        (content_created_outbox ports.str_uuid o.fresh.event_id tenant c.content_id
          command.content_type o.event_context o.now)
        d1
  audit ←
      insert_required_content_audit o.fresh.audit_record_id tenant content_create c.content_id none
        0 [] o.event_context o.audit_provenance o.now d2.audit
  ok (record d2 { audit = audit }, c)
