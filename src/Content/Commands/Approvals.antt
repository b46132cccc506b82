-- ===== src/Content/Commands/Approvals.antt =====
-- A decision leaves the tables sound.
use eduvijna_aieos_backend.Prelude.{
  ℕ, ◌≡◌, refl, ◌∙◌, true, Option, List, ◌==◌, ==_iff, ok, ◌>>=◌, guard, In, Ensures,
}
use eduvijna_aieos_backend.Python.Text.{Text}
use eduvijna_aieos_backend.Content.Vocabulary.{in_review, approved, is_same_state}
use eduvijna_aieos_backend.Content.Review.{ReviewDecision, ReviewDecisionCode, construct}
use eduvijna_aieos_backend.Content.Database.{Database}
use eduvijna_aieos_backend.Content.Database.Rows.{
  get_review_for_version, transition_stewardship, insert_review, insert_message,
}
use eduvijna_aieos_backend.Content.Database.Soundness.{Approval, IsReviewed}
use eduvijna_aieos_backend.Content.Database.Approval.{
  insert_review-IsReviewed, transition_stewardship-IsReviewed,
}
use eduvijna_aieos_backend.Events.ContentEvents.{review_decision_outbox}
use eduvijna_aieos_backend.Content.Commands.{
  Ports, Request, Occasion, require_head, require_visible_version, require_resulting,
}
use eduvijna_aieos_backend.Workflows.Intents.{
  insert_command_intent, get_start_intent_by_business_key, content_review_business_key,
  content_review_workflow_type, WorkflowStartIntent,
}
use eduvijna_aieos_backend.Content.Commands.Review.{
  decide_new, require_current, is_absent, found_intent, command_intent, given_decision,
}
use eduvijna_aieos_backend.Content.Commands.Decision.{target_state}
use eduvijna_aieos_backend.Content.Commands.Soundness.{
  after, keeps, MovedIsReviewed, require_resulting-IsReviewed, insert_last, IsDecisionOf,
  construct-IsDecisionOf, target-approves,
}

-- The approval that an APPROVE decision is, once it is stored.
approval_of_decision :
    (r : Request) (decision : ReviewDecisionCode) (stored : ReviewDecision)
    (reviews : List ReviewDecision)
    → IsDecisionOf r decision stored
    → In stored reviews
    → target_state decision ≡ approved
    → Approval reviews r.execution_tenant_id r.content_id r.version_id
approval_of_decision r decision stored reviews is_decision i e = record {
  review = stored;
  stored = i;
  same_version = is_decision.same_version;
  approving = is_decision.same_decision ∙ target-approves decision e;
}

pub ==_refl : (a : ℕ) → (a == a) ≡ true
==_refl a = (==_iff a a).1 refl

given-IsDecisionOf :
    (r : Request) (o : Occasion) (decision : ReviewDecisionCode) (code text : Option Text)
    → IsDecisionOf r decision (given_decision r o decision code text)
given-IsDecisionOf r o decision code text = record {
  same_version = simp (==_refl r.execution_tenant_id, ==_refl r.content_id, ==_refl r.version_id);
  same_decision = refl;
  same_tenant = refl;
}

-- The tables after a decision and its revision.
abbrev pub DecidedIsReviewed : Database × (ReviewDecision × ℕ) → Type 0
DecidedIsReviewed out = IsReviewed out.0

pub decide_new-IsReviewed :
    (ports : Ports) (decision : ReviewDecisionCode) (code text : Option Text) (r : Request)
    (o : Occasion) (d : Database)
    → IsReviewed d
    → Ensures DecidedIsReviewed (decide_new ports decision (target_state decision) code text r o d)
unfolding decide_new
decide_new-IsReviewed ports decision code text r o d s =
    after _ (require_head r.execution_tenant_id r.content_id d) _ λ head.
      after _ (require_visible_version r.execution_tenant_id r.content_id r.version_id d) _ λ v.
        after _ (guard (head.aggregate_revision == r.expected_aggregate_revision) _) _ λ u1.
          after _ (require_current head r.version_id) _ λ u2.
            after _ (guard (is_same_state head.stewardship_state in_review) _) _ λ u3.
              after _
                (guard
                  (is_absent
                    (get_review_for_version r.execution_tenant_id r.content_id r.version_id d))
                  _)
                _
                λ u4.
                  after _
                    (found_intent (
                      get_start_intent_by_business_key r.execution_tenant_id
                        content_review_workflow_type
                        (content_review_business_key ports.str_uuid r.content_id r.version_id)
                        d.start_intents))
                    _
                    λ start.
                      keeps (IsDecisionOf r decision) _
                        (construct (given_decision r o decision code text)) _
                        (construct-IsDecisionOf r decision _
                          (given-IsDecisionOf r o decision code text))
                        λ stored is_decision. decided-IsReviewed stored start is_decision
  where
    decided-IsReviewed :
        (stored : ReviewDecision) (start : WorkflowStartIntent)
        → IsDecisionOf r decision stored
        → Ensures DecidedIsReviewed (
            insert_review stored d >>= λ d1.
            require_resulting (
              transition_stewardship r.content_id r.execution_tenant_id
                r.expected_aggregate_revision r.version_id in_review
                (target_state decision)
                o.now
                d1)
            >>= λ moved.
                insert_command_intent
                  (command_intent ports r o decision start stored)
                  moved.0.command_intents
                >>= λ commands.
                    insert_message
                      (review_decision_outbox ports.str_uuid o.fresh.event_id r.execution_tenant_id
                        r.content_id r.version_id stored.review_decision_id decision
                        (target_state decision)
                        moved.1
                        o.event_context
                        o.now)
                      (record moved.0 { command_intents = commands })
                    >>= λ d2. ok (d2, (stored, moved.1)))
    decided-IsReviewed stored start is_decision =
        keeps _ _ (insert_review stored d) _ (insert_review-IsReviewed stored d s) λ d1 s1.
          keeps MovedIsReviewed _
            (require_resulting (
              transition_stewardship r.content_id r.execution_tenant_id
                r.expected_aggregate_revision r.version_id in_review (target_state decision) o.now
                d1))
            _
            (require_resulting-IsReviewed _ (
              transition_stewardship-IsReviewed r.content_id r.execution_tenant_id
                r.expected_aggregate_revision r.version_id in_review (target_state decision) o.now
                d1 (approval_of_decision r decision stored d1.reviews is_decision s1.1) s1.0))
            λ moved s2.
              after _
                (insert_command_intent (command_intent ports r o decision start stored)
                  moved.0.command_intents)
                _
                λ commands.
                  insert_last _ (record moved.0 { command_intents = commands }) (stored, moved.1) s2
