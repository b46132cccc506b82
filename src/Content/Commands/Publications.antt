-- ===== src/Content/Commands/Publications.antt =====
-- A publication leaves the tables sound.
use eduvijna_aieos_backend.Prelude.{
  ◌≡◌, refl, ap, true, not, Option, none, some, List, ◌==◌, ok, ◌>>=◌, guard, first, first-In,
  Ensures, Ensures-guard,
}
use eduvijna_aieos_backend.Python.Scalars.{Uuid, require_aware}
use eduvijna_aieos_backend.Content.Vocabulary.{
  approved, archived, is_same_state, publication_approval_required, publication_binding,
}
use eduvijna_aieos_backend.Content.Version.{is_same_id}
use eduvijna_aieos_backend.Content.Review.{
  ReviewDecision, ReviewDecisionCode, approve, request_changes, reject, is_approve,
}
use eduvijna_aieos_backend.Content.Database.{Database}
use eduvijna_aieos_backend.Content.Database.Rows.{
  is_review_of, get_publication_for_version, get_review_for_version, insert_message,
  insert_publication, set_published_version,
}
use eduvijna_aieos_backend.Content.Database.Soundness.{Approval, IsReviewed}
use eduvijna_aieos_backend.Content.Database.Approval.{
  insert_publication-IsReviewed, set_published_version-IsReviewed,
}
use eduvijna_aieos_backend.Events.ContentEvents.{published_outbox}
use eduvijna_aieos_backend.Content.Commands.{
  Ports, Request, Occasion, require_head, require_visible_version, require_resulting,
}
use eduvijna_aieos_backend.Content.Commands.Publish.{
  PublicationResult, require_approval, is_unpublished, validate_schema, new_publication,
  publication_result, publish_new,
}
use eduvijna_aieos_backend.Content.Commands.Soundness.{
  after, keeps, MovedIsReviewed, require_resulting-IsReviewed, insert_last,
}
use eduvijna_aieos_backend.Content.Commands.Approvals.{==_refl}

-- What is found by the approval that a publication requires.
abbrev IsApprovalOf :
    (reviews : List ReviewDecision) → (tenant content version : Uuid) → ReviewDecision → Type 0
IsApprovalOf reviews tenant content version review =
    (a : Approval reviews tenant content version) × (a.review ≡ review)

is_approve-approve : (c : ReviewDecisionCode) → is_approve c ≡ true → c ≡ approve
is_approve-approve approve h = refl
is_approve-approve request_changes h = cc
is_approve-approve reject h = cc

require_approval-Approval :
    (reviews : List ReviewDecision) (tenant content version : Uuid) (found : Option ReviewDecision)
    → first (is_review_of tenant content version) reviews ≡ found
    → Ensures (IsApprovalOf reviews tenant content version) (require_approval found)
require_approval-Approval reviews tenant content version none h = tt
require_approval-Approval reviews tenant content version (some review) h =
    let i = first-In _ reviews review h in
    Ensures-guard _ (is_approve review.decision) publication_approval_required _ λ e. (
      record {
        review = review;
        stored = i.0;
        same_version = i.1;
        approving = is_approve-approve review.decision e;
      },
      refl,
    )

-- The tables after a publication.
abbrev pub PublishedIsReviewed : Database × PublicationResult → Type 0
PublishedIsReviewed out = IsReviewed out.0

published-IsReviewed :
    (ports : Ports) (r : Request) (o : Occasion) (d : Database) (decision : ReviewDecision)
    → IsReviewed d
    → IsApprovalOf d.reviews r.execution_tenant_id r.content_id r.version_id decision
    → Ensures PublishedIsReviewed (
        insert_publication (new_publication r o decision) d >>= λ d1.
        require_resulting (
          set_published_version r.content_id r.execution_tenant_id r.version_id
            r.expected_aggregate_revision o.now d1)
        >>= λ moved.
            insert_message
              (published_outbox ports.str_uuid o.fresh.event_id r.execution_tenant_id r.content_id
                r.version_id o.fresh.publication_id moved.1 o.event_context o.now)
              moved.0
            >>= λ d2. ok (d2, publication_result r o decision moved.1))
published-IsReviewed ports r o d decision s a =
    keeps _ _ (insert_publication (new_publication r o decision) d) _
      (insert_publication-IsReviewed (new_publication r o decision) d
        (record { approval = a.0; named = ap ReviewDecision.review_decision_id a.1 }) s)
      λ d1 s1.
        keeps MovedIsReviewed _
          (require_resulting (
            set_published_version r.content_id r.execution_tenant_id r.version_id
              r.expected_aggregate_revision o.now d1))
          _
          (require_resulting-IsReviewed _ (
            set_published_version-IsReviewed r.content_id r.execution_tenant_id r.version_id
              r.expected_aggregate_revision o.now d1
              (record {
                publication = new_publication r o decision;
                stored = s1.1;
                same_version =
                    simp
                      (==_refl r.execution_tenant_id, ==_refl r.content_id, ==_refl r.version_id);
              })
              s1.0))
          λ moved s2. insert_last _ moved.0 (publication_result r o decision moved.1) s2

pub publish_new-IsReviewed :
    (ports : Ports) (r : Request) (o : Occasion) (d : Database)
    → IsReviewed d
    → Ensures PublishedIsReviewed (publish_new ports r o d)
unfolding publish_new get_review_for_version
publish_new-IsReviewed ports r o d s =
    after _ (require_head r.execution_tenant_id r.content_id d) _ λ head.
      after _ (require_visible_version r.execution_tenant_id r.content_id r.version_id d) _ λ v.
        after _ (guard (head.aggregate_revision == r.expected_aggregate_revision) _) _ λ u1.
          after _ (guard (is_same_id head.current_version_id (some r.version_id)) _) _ λ u2.
            after _ (guard (not (is_same_state head.stewardship_state archived)) _) _ λ u3.
              after _ (guard (is_same_state head.stewardship_state approved) _) _ λ u4.
                keeps (IsApprovalOf d.reviews r.execution_tenant_id r.content_id r.version_id) _
                  (require_approval
                    (get_review_for_version r.execution_tenant_id r.content_id r.version_id d))
                  _ (require_approval-Approval d.reviews _ _ _ _ refl)
                  λ decision a.
                    after _
                      (guard
                        (is_unpublished (
                          get_publication_for_version r.execution_tenant_id r.content_id
                            r.version_id d))
                        _)
                      _
                      λ u5.
                        after _
                          (guard (not (is_same_id head.published_version_id (some r.version_id))) _)
                          _
                          λ u6. after _ (validate_schema ports v head.content_type) _ λ u7.
                            after _
                              (ports.validate_current_use r.execution_tenant_id r.principal_id
                                r.content_id r.version_id)
                              _
                              λ u8.
                                after _
                                  (ports.evaluate_publication r.execution_tenant_id r.content_id
                                    r.version_id)
                                  _
                                  λ u9.
                                    after _ (require_aware publication_binding o.now) _
                                      λ u10. published-IsReviewed ports r o d decision s a
