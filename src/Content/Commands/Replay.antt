-- ===== src/Content/Commands/Replay.antt =====
-- A command that is sent again with its idempotency key: the outcome that was stored is returned and
-- nothing changes.
use eduvijna_aieos_backend.Prelude.{
  ℕ, ◌≡◌, refl, true, not, Option, none, some, List, ◌∷◌, ◌==◌, Result, ok, err, ◌>>=◌, guard,
  first, Ensures, Ensures-guard,
}
use eduvijna_aieos_backend.Python.Text.{text_eq_refl}
use eduvijna_aieos_backend.Python.Scalars.{require_aware}
use eduvijna_aieos_backend.Content.Vocabulary.{
  persistence_operation_failed, approved, archived, is_same_state, publication_binding,
}
use eduvijna_aieos_backend.Content.Version.{Publication, is_same_id}
use eduvijna_aieos_backend.Content.Review.{ReviewDecision}
use eduvijna_aieos_backend.Content.Database.{
  Database, any, IdempotencyOutcome, Operation, submit_v1, approve_v1, request_changes_v1,
  reject_v1, publish_v1, is_same_operation,
}
use eduvijna_aieos_backend.Content.Database.Rows.{
  is_outcome_of, get_outcome, insert_outcome, is_publication_of, insert_publication,
  set_published_version, insert_message, inserted, get_publication_for_version,
  get_review_for_version,
}
use eduvijna_aieos_backend.Events.ContentEvents.{Message, published_outbox}
use eduvijna_aieos_backend.Events.Outbox.{OutboxError, insert}
use eduvijna_aieos_backend.Content.Commands.{
  Ports, Request, Occasion, require_head, require_visible_version, require_resulting,
}
use eduvijna_aieos_backend.Content.Commands.Publish.{
  PublicationResult, publish_new, new_publication, publication_result, require_approval,
  is_unpublished, validate_schema,
}
use eduvijna_aieos_backend.Content.Commands.Soundness.{after, keeps}
use eduvijna_aieos_backend.Content.Commands.Approvals.{==_refl}

is_same_operation_refl : (o : Operation) → is_same_operation o o ≡ true
is_same_operation_refl submit_v1 = refl
is_same_operation_refl approve_v1 = refl
is_same_operation_refl request_changes_v1 = refl
is_same_operation_refl reject_v1 = refl
is_same_operation_refl publish_v1 = refl

-- The outcome that was inserted is the one that its scope finds, and the other tables are kept.
pub record HasOutcome (o : IdempotencyOutcome) (d e : Database) : Type 0 where
  pub found : get_outcome o.scope e ≡ some o
  pub same_reviews : e.reviews ≡ d.reviews
  pub same_publications : e.publications ≡ d.publications

pub insert_outcome-HasOutcome :
    (o : IdempotencyOutcome) (d : Database) → Ensures (HasOutcome o d) (insert_outcome o d)
unfolding insert_outcome get_outcome first
insert_outcome-HasOutcome o d =
    Ensures-guard (HasOutcome o d) (not (any (is_outcome_of o.scope) d.outcomes))
      persistence_operation_failed _
      λ h. record {
        found = simp (
          ==_refl o.scope.tenant_id,
          ==_refl o.scope.principal_id,
          is_same_operation_refl o.scope.operation,
          text_eq_refl o.scope.key_sha256,
        );
        same_reviews = refl;
        same_publications = refl;
      }

-- A publication is the first of its table, and is found by its identity.
abbrev HasFirst : Publication → Database → Type 0
HasFirst p d = (rest : List Publication) × (d.publications ≡ p ∷ rest)

insert_publication-HasFirst :
    (p : Publication) (d : Database) → Ensures (HasFirst p) (insert_publication p d)
unfolding insert_publication
insert_publication-HasFirst p d =
    after _ (guard (not (any (λ row. row.publication_id == p.publication_id) d.publications)) _) _
      λ u1.
        after _
          (guard
            (not (any (is_publication_of p.tenant_id p.content_id p.version_id) d.publications)) _)
          _ λ u2. (d.publications, refl)

insert_message-HasFirst :
    (p : Publication) (m : Message) (d : Database)
    → HasFirst p d
    → Ensures (HasFirst p) (insert_message m d)
unfolding insert_message
insert_message-HasFirst p m d h = go (insert m d.outbox)
  where
    go : (o : Result OutboxError (List Message)) → Ensures (HasFirst p) (inserted o d)
    go (err e) = tt
    go (ok rows) = h

abbrev MovedHasFirst : Publication → Database × ℕ → Type 0
MovedHasFirst p moved = HasFirst p moved.0

require_resulting-HasFirst :
    (p : Publication) (out : Database × Option ℕ)
    → HasFirst p out.0
    → Ensures (MovedHasFirst p) (require_resulting out)
require_resulting-HasFirst p (d, none) h = tt
require_resulting-HasFirst p (d, some revision) h = h

-- The publication that a result reports stands first in the tables, which is what a replay reads.
abbrev pub Reports : Request → Database × PublicationResult → Type 0
Reports r out =
    (p : Publication) × HasFirst p out.0
    × (p.tenant_id ≡ r.execution_tenant_id)
    × (record {
      publication_id = p.publication_id;
      content_id = p.content_id;
      version_id = p.version_id;
      approval_decision_id = p.approval_decision_id;
      published_at = p.published_at;
      published_version_id = p.version_id;
      aggregate_revision = out.1.aggregate_revision;
    }
        ≡ out.1)

stored-Reports :
    (ports : Ports) (r : Request) (o : Occasion) (d : Database) (decision : ReviewDecision)
    → Ensures (Reports r) (
        insert_publication (new_publication r o decision) d >>= λ d1.
        require_resulting (
          set_published_version r.content_id r.execution_tenant_id r.version_id
            r.expected_aggregate_revision o.now d1)
        >>= λ moved.
            insert_message
              (published_outbox ports.str_uuid o.fresh.event_id r.execution_tenant_id r.content_id
                r.version_id o.fresh.publication_id moved.1 o.event_context o.now)
              moved.0
            >>= λ d2. ok (d2, publication_result r o decision moved.1))
unfolding set_published_version
stored-Reports ports r o d decision =
    let p = new_publication r o decision in
    keeps (HasFirst p) _ (insert_publication p d) _ (insert_publication-HasFirst p d) λ d1 h1.
      keeps (MovedHasFirst p) _
        (require_resulting (
          set_published_version r.content_id r.execution_tenant_id r.version_id
            r.expected_aggregate_revision o.now d1))
        _ (require_resulting-HasFirst p _ h1)
        λ moved h2.
          keeps (HasFirst p) _
            (insert_message
              (published_outbox ports.str_uuid o.fresh.event_id r.execution_tenant_id r.content_id
                r.version_id o.fresh.publication_id moved.1 o.event_context o.now)
              moved.0)
            _ (insert_message-HasFirst p _ moved.0 h2) λ d2 h3. (p, h3, refl, refl)

pub publish_new-Reports :
    (ports : Ports) (r : Request) (o : Occasion) (d : Database)
    → Ensures (Reports r) (publish_new ports r o d)
unfolding publish_new
publish_new-Reports ports r o d =
    after _ (require_head r.execution_tenant_id r.content_id d) _ λ head.
      after _ (require_visible_version r.execution_tenant_id r.content_id r.version_id d) _ λ v.
        after _ (guard (head.aggregate_revision == r.expected_aggregate_revision) _) _ λ u1.
          after _ (guard (is_same_id head.current_version_id (some r.version_id)) _) _ λ u2.
            after _ (guard (not (is_same_state head.stewardship_state archived)) _) _ λ u3.
              after _ (guard (is_same_state head.stewardship_state approved) _) _ λ u4.
                after _
                  (require_approval
                    (get_review_for_version r.execution_tenant_id r.content_id r.version_id d))
                  _
                  λ decision.
                    after _
                      (guard
                        (is_unpublished (
                          get_publication_for_version r.execution_tenant_id r.content_id
                            r.version_id d))
                        _)
                      _
                      λ u5.
                        after _
                          (guard (not (is_same_id head.published_version_id (some r.version_id))) _)
                          _
                          λ u6. after _ (validate_schema ports v head.content_type) _ λ u7.
                            after _
                              (ports.validate_current_use r.execution_tenant_id r.principal_id
                                r.content_id r.version_id)
                              _
                              λ u8.
                                after _
                                  (ports.evaluate_publication r.execution_tenant_id r.content_id
                                    r.version_id)
                                  _
                                  λ u9.
                                    after _ (require_aware publication_binding o.now) _
                                      λ u10. stored-Reports ports r o d decision
