-- ===== src/Content/Commands/Services.antt =====
-- The services leave the tables sound, whether they run the command or replay its outcome.
use eduvijna_aieos_backend.Prelude.{
  ◌≡◌, ◌≢◌, refl, Option, none, some, [], ok, err, ◌>>=◌, guard, first, not, Ensures, Ensures-guard,
}
use eduvijna_aieos_backend.Python.Text.{Text, codes, text_eq}
use eduvijna_aieos_backend.Python.Scalars.{Uuid, require_aware, require_optional_aware}
use eduvijna_aieos_backend.Content.Vocabulary.{
  ContentResult, draft, approved, idempotency_key_reused, persistence_operation_failed,
  invalid_aggregate,
}
use eduvijna_aieos_backend.Content.Version.{
  Content, construct_content, require_content_text, assert_archive,
}
use eduvijna_aieos_backend.Content.Review.{ReviewDecisionCode}
use eduvijna_aieos_backend.Content.Database.{
  Database, any, IdempotencyOutcome, submit_v1, is_content,
}
use eduvijna_aieos_backend.Content.Database.Rows.{
  is_outcome_of, get_outcome, insert_outcome, insert_content, insert_message,
}
use eduvijna_aieos_backend.Content.Database.Soundness.{
  IsReviewed, insert_content-IsReviewed, insert_message-IsReviewed,
}
use eduvijna_aieos_backend.Security.Audit.{content_create, insert_required_content_audit}
use eduvijna_aieos_backend.Events.ContentEvents.{content_created_outbox}
use eduvijna_aieos_backend.Content.Commands.{Ports, Request, Occasion}
use eduvijna_aieos_backend.Content.Commands.Create.{
  CreateContentCommand, create_content_in_uow, construct_type, new_content, requested,
}
use eduvijna_aieos_backend.Content.Commands.Review.{submit_for_review_in_uow, decide_new}
use eduvijna_aieos_backend.Content.Commands.Service.{
  ReviewSubmissionResult, submit, submit_scoped, submit_audit, submit_outcome, scope_of,
  submit_fingerprint, decision_fingerprint, require_id, require_content,
}
use eduvijna_aieos_backend.Content.Commands.Decision.{
  ReviewDecisionResult, decision_audit, decision_outcome, decide, decide_scoped, operation_of,
  target_state, requires_comment, parse_review_text, replay_decision,
}
use eduvijna_aieos_backend.Content.Commands.Publish.{
  publish_audit, publish_outcome, publish, publish_scoped, publish_new, publish_fingerprint,
  publish_scope, replay,
}
use eduvijna_aieos_backend.Content.Commands.Soundness.{
  after, keeps, MovedIsReviewed, submit_for_review_in_uow-IsReviewed,
}
use eduvijna_aieos_backend.Content.Commands.Approvals.{DecidedIsReviewed, decide_new-IsReviewed}
use eduvijna_aieos_backend.Content.Commands.Publications.{
  PublishedIsReviewed, publish_new-IsReviewed,
}

-- A statement after which only the outcomes differ.
insert_outcome-IsReviewed :
    (o : IdempotencyOutcome) (d : Database) → IsReviewed d → Ensures IsReviewed (insert_outcome o d)
unfolding insert_outcome
insert_outcome-IsReviewed o d s =
    Ensures-guard IsReviewed (not (any (is_outcome_of o.scope) d.outcomes))
      persistence_operation_failed _ λ h. s

-- A draft without a published version.
abbrev IsNew : Content → Type 0
IsNew c = (c.stewardship_state ≢ approved) × (c.published_version_id ≡ none)

draft-ne-approved : draft ≢ approved
draft-ne-approved h = cc

requested-IsNew : (m : ContentResult Content) → Ensures IsNew m → Ensures IsNew (requested m)
requested-IsNew (ok c) h = h
requested-IsNew (err e) h = tt

construct_content-IsNew : (c : Content) → IsNew c → Ensures IsNew (construct_content c)
unfolding construct_content
construct_content-IsNew c h = after _ (require_content_text c.title) _ λ title.
    after _ (require_content_text c.locale) _ λ locale.
      after _ (require_aware invalid_aggregate c.created_at) _ λ u1.
        after _ (require_aware invalid_aggregate c.updated_at) _ λ u2.
          after _ (require_optional_aware invalid_aggregate c.archived_at) _ λ u3.
            after _ (assert_archive c.stewardship_state c.archived_at c.published_version_id) _
              λ u4. h

abbrev pub CreatedIsReviewed : Database × Content → Type 0
CreatedIsReviewed out = IsReviewed out.0

pub create_content_in_uow-IsReviewed :
    (ports : Ports) (tenant principal content_id : Uuid) (command : CreateContentCommand)
    (o : Occasion) (d : Database)
    → IsReviewed d
    → Ensures CreatedIsReviewed
        (create_content_in_uow ports tenant principal content_id command o d)
unfolding create_content_in_uow
create_content_in_uow-IsReviewed ports tenant principal content_id command o d s =
    keeps IsNew _
      (requested (
        construct_type command.content_type >>= λ content_type.
        construct_content (new_content tenant principal content_id command content_type o.now)))
      _
      (requested-IsNew _ (
        after IsNew (construct_type command.content_type) _ λ content_type.
          construct_content-IsNew
            (new_content tenant principal content_id command content_type o.now)
            (draft-ne-approved, refl)))
      λ c new.
        keeps IsReviewed _ (insert_content c d) _ (insert_content-IsReviewed c d new.0 new.1 s)
          λ d1 s1.
            keeps IsReviewed _
              (insert_message
                (content_created_outbox ports.str_uuid o.fresh.event_id tenant c.content_id
                  command.content_type o.event_context o.now)
                d1)
              _ (insert_message-IsReviewed _ d1 s1)
              λ d2 s2.
                after _
                  (insert_required_content_audit o.fresh.audit_record_id tenant content_create
                    c.content_id none 0 [] o.event_context o.audit_provenance o.now d2.audit)
                  _ λ audit. s2

abbrev pub SubmittedIsReviewed : Database × ReviewSubmissionResult → Type 0
SubmittedIsReviewed out = IsReviewed out.0

pub submit-IsReviewed :
    (ports : Ports) (r : Request) (o : Occasion) (d : Database)
    → IsReviewed d
    → Ensures SubmittedIsReviewed (submit ports r o d)
unfolding submit submit_scoped
submit-IsReviewed ports r o d s =
    after _
      (ports.authorize r.execution_tenant_id r.principal_id r.content_id r.version_id
        (codes "content.review.submit"))
      _ λ u. scoped (get_outcome (scope_of ports submit_v1 r) d)
  where
    scoped :
        (existing : Option IdempotencyOutcome)
        → Ensures SubmittedIsReviewed (submit_scoped ports r o existing d)
    scoped (some existing) =
        after _
          (guard (text_eq existing.request_fingerprint_sha256 (submit_fingerprint ports r))
            idempotency_key_reused)
          _
          λ u1. after _ (require_id existing.result_version_id) _ λ version.
            after _
              (require_content
                (first (is_content r.execution_tenant_id existing.result_content_id) d.contents))
              _ λ u2. s
    scoped none =
        keeps MovedIsReviewed _ (submit_for_review_in_uow ports r o d) _
          (submit_for_review_in_uow-IsReviewed ports r o d s)
          λ moved s1. after _ (submit_audit r o moved.1 moved.0.audit) _ λ audit.
            keeps IsReviewed _
              (insert_outcome (submit_outcome ports r moved.1) (record moved.0 { audit = audit })) _
              (insert_outcome-IsReviewed _ (record moved.0 { audit = audit }) s1) λ d2 s2. s2

abbrev pub ReviewedIsReviewed : Database × ReviewDecisionResult → Type 0
ReviewedIsReviewed out = IsReviewed out.0

pub decide-IsReviewed :
    (ports : Ports) (decision : ReviewDecisionCode) (reason_code comment : Option Text)
    (r : Request) (o : Occasion) (d : Database)
    → IsReviewed d
    → Ensures ReviewedIsReviewed (decide ports decision reason_code comment r o d)
unfolding decide decide_scoped
decide-IsReviewed ports decision reason_code comment r o d s =
    after _
      (ports.authorize r.execution_tenant_id r.principal_id r.content_id r.version_id
        (codes "content.review.decide"))
      _
      λ u.
        after _ (parse_review_text reason_code comment (requires_comment decision)) _
          λ texts. scoped texts.0 texts.1 (get_outcome (scope_of ports (operation_of decision) r) d)
  where
    scoped :
        (code text : Option Text) (existing : Option IdempotencyOutcome)
        → Ensures ReviewedIsReviewed (decide_scoped ports decision code text r o existing d)
    scoped code text (some existing) =
        after _
          (guard
            (text_eq existing.request_fingerprint_sha256 (decision_fingerprint ports r code text))
            idempotency_key_reused)
          _
          λ u1.
            after _ (replay_decision r.execution_tenant_id existing (target_state decision) d) _
              λ result. s
    scoped code text none = after _ (ports.evaluate_comment text) _ λ u1.
        keeps DecidedIsReviewed _
          (decide_new ports decision (target_state decision) code text r o d) _
          (decide_new-IsReviewed ports decision code text r o d s)
          λ decided s1.
            after _
              (decision_audit decision r o decided.1.0.review_decision_id decided.1.1
                decided.0.audit)
              _
              λ audit.
                keeps IsReviewed _
                  (insert_outcome
                    (decision_outcome ports decision code text r decided.1.0.review_decision_id
                      decided.1.1)
                    (record decided.0 { audit = audit }))
                  _ (insert_outcome-IsReviewed _ (record decided.0 { audit = audit }) s1)
                  λ d2 s2. s2

pub publish-IsReviewed :
    (ports : Ports) (r : Request) (o : Occasion) (d : Database)
    → IsReviewed d
    → Ensures PublishedIsReviewed (publish ports r o d)
unfolding publish publish_scoped
publish-IsReviewed ports r o d s =
    after _
      (ports.authorize r.execution_tenant_id r.principal_id r.content_id r.version_id
        (codes "content.publish"))
      _ λ u. scoped (get_outcome (publish_scope ports r) d)
  where
    scoped :
        (existing : Option IdempotencyOutcome)
        → Ensures PublishedIsReviewed (publish_scoped ports r o existing d)
    scoped (some existing) =
        after _
          (guard (text_eq existing.request_fingerprint_sha256 (publish_fingerprint ports r))
            idempotency_key_reused)
          _ λ u1. after _ (replay r.execution_tenant_id existing d) _ λ result. s
    scoped none =
        keeps PublishedIsReviewed _ (publish_new ports r o d) _
          (publish_new-IsReviewed ports r o d s)
          λ done s1. after _ (publish_audit r o done.1 done.0.audit) _ λ audit.
            keeps IsReviewed _
              (insert_outcome (publish_outcome ports r done.1) (record done.0 { audit = audit })) _
              (insert_outcome-IsReviewed _ (record done.0 { audit = audit }) s1) λ d2 s2. s2
