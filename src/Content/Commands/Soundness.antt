-- ===== src/Content/Commands/Soundness.antt =====
-- Every command that returns leaves the tables sound.
use eduvijna_aieos_backend.Prelude.{
  ℕ, ◌≡◌, ◌≢◌, refl, true, not, Option, none, some, ◌==◌, Result, ok, ◌>>=◌, guard, Ensures,
  Ensures-bind, Ensures-ok,
}
use eduvijna_aieos_backend.Python.Text.{Text}
use eduvijna_aieos_backend.Python.Scalars.{Uuid, Datetime, require_aware}
use eduvijna_aieos_backend.Content.Vocabulary.{
  ContentResult, generated, in_review, approved, is_same_state, review_decision_binding,
}
use eduvijna_aieos_backend.Content.Version.{ContentVersion}
use eduvijna_aieos_backend.Content.Review.{
  ReviewDecision, ReviewDecisionCode, approve, request_changes, reject, construct,
  normalize_reason_code, normalize_review_comment, lacks_comment,
}
use eduvijna_aieos_backend.Content.Database.{Database}
use eduvijna_aieos_backend.Content.Database.Rows.{
  is_review_of, get_review_for_version, transition_stewardship, insert_version, insert_message,
  advance_current_version,
}
use eduvijna_aieos_backend.Content.Database.Soundness.{
  IsReviewed, insert_version-IsReviewed, insert_message-IsReviewed,
  advance_current_version-IsReviewed,
}
use eduvijna_aieos_backend.Content.Database.Approval.{transition_stewardship-IsReviewed}
use eduvijna_aieos_backend.Events.ContentEvents.{MutationEventContext, Message}
use eduvijna_aieos_backend.Content.Commands.{
  Ports, Request, Occasion, require_head, require_visible_version, require_resulting,
}
use eduvijna_aieos_backend.Content.Commands.Append.{
  append_version_in_uow, allows_append, assert_linear_append,
}
use eduvijna_aieos_backend.Workflows.Intents.{insert_start_intent}
use eduvijna_aieos_backend.Content.Commands.Review.{
  submit_for_review_in_uow, require_current, is_absent, start_intent,
}
use eduvijna_aieos_backend.Content.Commands.Decision.{target_state}

-- A step that binds what it checks and goes on with the same tables.
pub after {ℓ κ μ ν} :
    {E : Type ℓ} {A : Type κ} {B : Type μ} (Q : B → Type ν) (m : Result E A) (f : A → Result E B)
    → ((a : A) → Ensures Q (f a))
    → Ensures Q (m >>= f)
after Q m f h = Ensures-bind Q m f (λ a e. h a)

-- A step that changes the tables and leaves them sound.
pub keeps {ℓ} :
    {A : Type 0} {B : Type 0} (P : A → Type 0) (Q : B → Type ℓ) (m : ContentResult A)
    (f : A → ContentResult B)
    → Ensures P m
    → ((a : A) → P a → Ensures Q (f a))
    → Ensures Q (m >>= f)
keeps P Q m f p h = Ensures-bind Q m f (λ a e. h a (Ensures-ok P m a p e))

abbrev pub MovedIsReviewed : Database × ℕ → Type 0
MovedIsReviewed moved = IsReviewed moved.0

pub require_resulting-IsReviewed :
    (out : Database × Option ℕ) → IsReviewed out.0 → Ensures MovedIsReviewed (require_resulting out)
require_resulting-IsReviewed (d, none) s = tt
require_resulting-IsReviewed (d, some revision) s = s

-- The last step of a command: its message is inserted.
pub insert_last :
    {A : Type 0} (m : Message) (d : Database) (a : A)
    → IsReviewed d
    → Ensures (λ (out : Database × A). IsReviewed out.0) (insert_message m d >>= λ d2. ok (d2, a))
insert_last m d a s =
    keeps IsReviewed _ (insert_message m d) _ (insert_message-IsReviewed m d s) λ d2 s2. s2

pub append_version_in_uow-IsReviewed :
    (str_uuid : Uuid → Text) (tenant : Uuid) (expected : ℕ) (v : ContentVersion)
    (provenance : ContentResult (Unit {0})) (now : Datetime) (context : MutationEventContext)
    (event_id : Uuid) (d : Database)
    → IsReviewed d
    → Ensures
        (λ out. IsReviewed out.0)
        (append_version_in_uow str_uuid tenant expected v provenance now context event_id d)
unfolding append_version_in_uow
append_version_in_uow-IsReviewed str_uuid tenant expected v provenance now context event_id d s =
    after _ (guard (tenant == v.tenant_id) _) _ λ u1. after _ provenance _ λ u2.
      after _ (guard now.is_aware _) _ λ u3. after _ (require_head tenant v.content_id d) _ λ head.
        after _ (guard (head.aggregate_revision == expected) _) _ λ u4.
          after _ (guard (allows_append head.stewardship_state) _) _ λ u5.
            after _ (assert_linear_append head v) _ λ u6.
              keeps IsReviewed _ (insert_version v d) _ (insert_version-IsReviewed v d s) λ d1 s1.
                keeps MovedIsReviewed _
                  (require_resulting (
                    advance_current_version v.content_id tenant expected head.current_version_id
                      head.stewardship_state v.version_id now d1))
                  _
                  (require_resulting-IsReviewed _ (
                    advance_current_version-IsReviewed v.content_id tenant expected
                      head.current_version_id head.stewardship_state v.version_id now d1 s1))
                  λ moved s2. insert_last _ moved.0 moved.1 s2

in_review-ne-approved : in_review ≢ approved
in_review-ne-approved h = cc

pub submit_for_review_in_uow-IsReviewed :
    (ports : Ports) (r : Request) (o : Occasion) (d : Database)
    → IsReviewed d
    → Ensures MovedIsReviewed (submit_for_review_in_uow ports r o d)
unfolding submit_for_review_in_uow
submit_for_review_in_uow-IsReviewed ports r o d s =
    after _ (require_head r.execution_tenant_id r.content_id d) _ λ head.
      after _ (require_visible_version r.execution_tenant_id r.content_id r.version_id d) _ λ v.
        after _ (guard (head.aggregate_revision == r.expected_aggregate_revision) _) _ λ u1.
          after _ (require_current head r.version_id) _ λ u2.
            after _ (guard (is_same_state head.stewardship_state generated) _) _ λ u3.
              after _
                (guard
                  (is_absent
                    (get_review_for_version r.execution_tenant_id r.content_id r.version_id d))
                  _)
                _
                λ u4.
                  keeps MovedIsReviewed _
                    (require_resulting (
                      transition_stewardship r.content_id r.execution_tenant_id
                        r.expected_aggregate_revision r.version_id generated in_review o.now d))
                    _
                    (require_resulting-IsReviewed _ (
                      transition_stewardship-IsReviewed r.content_id r.execution_tenant_id
                        r.expected_aggregate_revision r.version_id generated in_review o.now d
                        (λ e. absurd (in_review-ne-approved e)) s))
                    λ moved s1.
                      after _ (insert_start_intent (start_intent ports r o) moved.0.start_intents) _
                        λ starts.
                          insert_last _ (record moved.0 { start_intents = starts }) moved.1 s1

-- What the constructor of a decision keeps of its arguments.
pub record IsDecisionOf (r : Request) (decision : ReviewDecisionCode) (stored : ReviewDecision)
    : Type 0 where
  pub same_version : is_review_of r.execution_tenant_id r.content_id r.version_id stored ≡ true
  pub same_decision : stored.decision ≡ decision
  pub same_tenant : stored.tenant_id ≡ r.execution_tenant_id

pub construct-IsDecisionOf :
    (r : Request) (decision : ReviewDecisionCode) (given : ReviewDecision)
    → IsDecisionOf r decision given
    → Ensures (IsDecisionOf r decision) (construct given)
unfolding construct
construct-IsDecisionOf r decision given h =
    after _ (require_aware review_decision_binding given.decided_at) _ λ u1.
      after _ (normalize_reason_code given.reason_code) _ λ code.
        after _ (normalize_review_comment given.comment) _ λ comment.
          after _ (guard (not (lacks_comment given.decision comment)) review_decision_binding) _
            λ u2. record {
              same_version = h.same_version;
              same_decision = h.same_decision;
              same_tenant = h.same_tenant;
            }

pub target-approves :
    (decision : ReviewDecisionCode) → target_state decision ≡ approved → decision ≡ approve
target-approves approve h = refl
target-approves request_changes h = cc
target-approves reject h = cc
