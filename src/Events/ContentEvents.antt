-- ===== src/Events/ContentEvents.antt =====
-- content_events.py and build_content_cloudevent of cloudevents.py: the outbox row of each content
-- mutation. An envelope holds its UUIDs and its time where the program holds their texts. `str` of a
-- UUID is a parameter, and the event id that is generated an argument.
use eduvijna_aieos_backend.Prelude.{ℕ, none, [], ◌∷◌, ◌++◌}
use eduvijna_aieos_backend.Python.Text.{Text, codes}
use eduvijna_aieos_backend.Python.Scalars.{pos, Uuid, Datetime}
use eduvijna_aieos_backend.Content.Vocabulary.{
  StewardshipState, in_review, draft, generated, ContentOrigin, state_value, origin_value,
}
use eduvijna_aieos_backend.Content.Json.{Value, string, integer, dict}
use eduvijna_aieos_backend.Content.Review.{ReviewDecisionCode, approve, request_changes, reject}
use eduvijna_aieos_backend.Events.Outbox.{OutboxMessage, pending}

pub record MutationEventContext : Type 0 where
  pub correlation_id : Uuid
  pub causation_id : Uuid
  pub actor_principal_id : Uuid
  pub effective_actor_id : Uuid

-- The entries of the envelope that are not constants.
pub record CloudEvent : Type 0 where
  pub event_id : Uuid
  pub event_type : Text
  pub subject : Text
  pub time : Datetime
  pub data_ : Value
  pub tenant_id : Uuid
  pub correlation_id : Uuid
  pub causation_id : Uuid
  pub actor_id : Uuid
  pub effective_actor_id : Uuid
  pub aggregate_revision : ℕ

abbrev pub Message : Type 0
Message = OutboxMessage CloudEvent

abbrev pub aggregate_type_content : Text
aggregate_type_content = codes "content"

-- `decision.value`
abbrev pub decision_value : ReviewDecisionCode → Text
decision_value approve = codes "APPROVE"
decision_value request_changes = codes "REQUEST_CHANGES"
decision_value reject = codes "REJECT"

-- `_REVIEW_EVENT_TYPES`
abbrev pub review_event_type : ReviewDecisionCode → Text
review_event_type approve = codes "io.eduvijna.aieos.content.content.review_approved.v1"
review_event_type request_changes =
    codes "io.eduvijna.aieos.content.content.review_changes_requested.v1"
review_event_type reject = codes "io.eduvijna.aieos.content.content.review_rejected.v1"

module _ (str_uuid : Uuid → Text) where
  abbrev pub content_subject : Uuid → Text
  content_subject content_id = codes "content/" ++ str_uuid content_id

  -- `build_content_cloudevent` and `_base`
  abbrev pub base :
      (event_id tenant_id : Uuid) (event_type : Text) (content_id : Uuid) (aggregate_revision : ℕ)
      (context : MutationEventContext) (payload : Value) (created_at : Datetime)
      → Message
  base event_id tenant_id event_type content_id revision context payload created_at = record {
    event_id = event_id;
    tenant_id = tenant_id;
    event_type = event_type;
    subject = content_subject content_id;
    aggregate_type = aggregate_type_content;
    aggregate_id = content_id;
    aggregate_revision = revision;
    envelope = record {
      event_id = event_id;
      event_type = event_type;
      subject = content_subject content_id;
      time = created_at;
      data_ = payload;
      tenant_id = tenant_id;
      correlation_id = context.correlation_id;
      causation_id = context.causation_id;
      actor_id = context.actor_principal_id;
      effective_actor_id = context.effective_actor_id;
      aggregate_revision = revision;
    };
    status = pending;
    attempt_count = 0;
    available_at = created_at;
    claimed_by = none;
    claimed_until = none;
    published_at = none;
    broker_stream = none;
    broker_sequence = none;
    last_error_code = none;
    created_at = created_at;
  }

  abbrev pub content_created_outbox :
      (event_id tenant_id content_id : Uuid) (content_type : Text) (context : MutationEventContext)
      (created_at : Datetime)
      → Message
  content_created_outbox event_id tenant content content_type context created_at =
      base event_id tenant (codes "io.eduvijna.aieos.content.content.created.v1") content 0 context
        (dict (
          (codes "content_id", string (str_uuid content))
          ∷ (codes "content_type", string content_type)
          ∷ (codes "stewardship_state", string (state_value draft))
          ∷ []))
        created_at

  abbrev pub version_created_outbox :
      (event_id tenant_id content_id version_id : Uuid) (version_number : ℕ)
      (origin : ContentOrigin) (aggregate_revision : ℕ) (context : MutationEventContext)
      (created_at : Datetime)
      → Message
  version_created_outbox event_id tenant content version number origin revision context created_at =
      base event_id tenant (codes "io.eduvijna.aieos.content.content.version_created.v1") content
        revision context
        (dict (
          (codes "content_id", string (str_uuid content))
          ∷ (codes "version_id", string (str_uuid version))
          ∷ (codes "version_number", integer (pos number))
          ∷ (codes "origin", string (origin_value origin))
          ∷ (codes "stewardship_state", string (state_value generated))
          ∷ []))
        created_at

  abbrev pub submitted_for_review_outbox :
      (event_id tenant_id content_id version_id : Uuid) (aggregate_revision : ℕ)
      (context : MutationEventContext) (created_at : Datetime)
      → Message
  submitted_for_review_outbox event_id tenant content version revision context created_at =
      base event_id tenant (codes "io.eduvijna.aieos.content.content.submitted_for_review.v1")
        content revision context
        (dict (
          (codes "content_id", string (str_uuid content))
          ∷ (codes "version_id", string (str_uuid version))
          ∷ (codes "stewardship_state", string (state_value in_review))
          ∷ []))
        created_at

  abbrev pub review_decision_outbox :
      (event_id tenant_id content_id version_id review_decision_id : Uuid)
      (decision : ReviewDecisionCode) (state : StewardshipState) (aggregate_revision : ℕ)
      (context : MutationEventContext) (created_at : Datetime)
      → Message
  review_decision_outbox event_id tenant content version review decision state revision context
        created_at =
      base event_id tenant (review_event_type decision) content revision context
        (dict (
          (codes "content_id", string (str_uuid content))
          ∷ (codes "version_id", string (str_uuid version))
          ∷ (codes "review_decision_id", string (str_uuid review))
          ∷ (codes "decision", string (decision_value decision))
          ∷ (codes "stewardship_state", string (state_value state))
          ∷ []))
        created_at

  abbrev pub published_outbox :
      (event_id tenant_id content_id published_version_id publication_id : Uuid)
      (aggregate_revision : ℕ) (context : MutationEventContext) (created_at : Datetime)
      → Message
  published_outbox event_id tenant content version publication revision context created_at =
      base event_id tenant (codes "io.eduvijna.aieos.content.content.published.v1") content revision
        context
        (dict (
          (codes "content_id", string (str_uuid content))
          ∷ (codes "published_version_id", string (str_uuid version))
          ∷ (codes "publication_id", string (str_uuid publication))
          ∷ []))
        created_at
