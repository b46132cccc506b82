-- ===== src/Content/Database/Approval.antt =====
-- The statements that record an approval or rest on one keep the tables sound.
use eduvijna_aieos_backend.Prelude.{
  ℕ, ◌≡◌, refl, not, Option, none, some, List, ◌∷◌, ◌==◌, inl, inr, All-impl, In, Ensures,
  Ensures-guard,
}
use eduvijna_aieos_backend.Python.Scalars.{Uuid, Datetime}
use eduvijna_aieos_backend.Content.Vocabulary.{
  StewardshipState, approved, review_already_decided, version_already_published,
}
use eduvijna_aieos_backend.Content.Version.{Content, Publication}
use eduvijna_aieos_backend.Content.Review.{ReviewDecision}
use eduvijna_aieos_backend.Content.Database.{Database, any}
use eduvijna_aieos_backend.Content.Database.Rows.{
  with_state, transition_stewardship, with_published, set_published_version, is_review_of,
  insert_review, is_publication_of, insert_publication,
}
use eduvijna_aieos_backend.Content.Database.Soundness.{
  Approval, ApprovalOfCurrent, IsApproved, PublicationOf, PublicationOfPointer, IsReviewed, IsRowOf,
  is_current-IsRowOf, update_contents-All, and-both, not-true,
}

-- A decision more leaves every approval.
more_reviews :
    (r : ReviewDecision) (reviews : List ReviewDecision) (tenant content version : Uuid)
    → Approval reviews tenant content version
    → Approval (r ∷ reviews) tenant content version
more_reviews r reviews tenant content version a = record {
  review = a.review;
  stored = inr a.stored;
  same_version = a.same_version;
  approving = a.approving;
}

more_reviews-current :
    (r : ReviewDecision) (reviews : List ReviewDecision) (tenant content : Uuid)
    (current : Option Uuid)
    → ApprovalOfCurrent reviews tenant content current
    → ApprovalOfCurrent (r ∷ reviews) tenant content current
more_reviews-current r reviews tenant content none a = absurd a
more_reviews-current r reviews tenant content (some version) a =
    more_reviews r reviews tenant content version a

-- The tables are sound, and the decision is stored.
pub insert_review-IsReviewed :
    (r : ReviewDecision) (d : Database)
    → IsReviewed d
    → Ensures (λ d1. IsReviewed d1 × In r d1.reviews) (insert_review r d)
unfolding insert_review more_reviews
insert_review-IsReviewed r d s =
    Ensures-guard _ (not (any (λ row. row.review_decision_id == r.review_decision_id) d.reviews))
      review_already_decided _
      λ h1.
        Ensures-guard _ (not (any (is_review_of r.tenant_id r.content_id r.version_id) d.reviews))
          review_already_decided _
          λ h2. (
            record {
              approved_heads =
                  All-impl _ _ d.contents
                    (λ c h e. more_reviews-current r d.reviews c.tenant_id c.content_id _ (h e))
                    s.approved_heads;
              published_heads = s.published_heads;
              approved_publications =
                  All-impl _ _ d.publications
                    (λ p h. record {
                      approval = more_reviews r d.reviews _ _ _ h.approval;
                      named = h.named;
                    })
                    s.approved_publications;
              one_review = (not-true _ h2, s.one_review);
              one_publication = s.one_publication;
            },
            inl refl,
          )

approval_of_row :
    (reviews : List ReviewDecision) (tenant content version : Uuid) (c : Content)
    → IsRowOf tenant content (some version) c
    → Approval reviews tenant content version
    → ApprovalOfCurrent reviews c.tenant_id c.content_id c.current_version_id
approval_of_row reviews tenant content version c row a =
    rw (row.same_tenant, row.same_content, row.same_current version refl) a

-- The target state may be approved only for a version that has an approval.
pub transition_stewardship-IsReviewed :
    (content tenant : Uuid) (revision : ℕ) (version : Uuid) (state target : StewardshipState)
    (now : Datetime) (d : Database)
    → (target ≡ approved → Approval d.reviews tenant content version)
    → IsReviewed d
    → IsReviewed (transition_stewardship content tenant revision version state target now d).0
unfolding transition_stewardship
transition_stewardship-IsReviewed content tenant revision version state target now d approval s =
    record {
      approved_heads =
          update_contents-All _ _ _ (with_state target now) d.contents
            (λ c t h e.
              approval_of_row d.reviews tenant content version c
                (is_current-IsRowOf tenant content (some version) state revision c t) (approval e))
            (λ c h. h) s.approved_heads;
      published_heads =
          update_contents-All _ _ _ (with_state target now) d.contents (λ c t h. h) (λ c h. h)
            s.published_heads;
      approved_publications = s.approved_publications;
      one_review = s.one_review;
      one_publication = s.one_publication;
    }

more_publications :
    (p : Publication) (publications : List Publication) (tenant content : Uuid)
    (pointer : Option Uuid)
    → PublicationOfPointer publications tenant content pointer
    → PublicationOfPointer (p ∷ publications) tenant content pointer
more_publications p publications tenant content none h = tt
more_publications p publications tenant content (some version) h = record {
  publication = h.publication;
  stored = inr h.stored;
  same_version = h.same_version;
}

-- The tables are sound, and the publication is stored.
pub insert_publication-IsReviewed :
    (p : Publication) (d : Database)
    → IsApproved d.reviews p
    → IsReviewed d
    → Ensures (λ d1. IsReviewed d1 × In p d1.publications) (insert_publication p d)
unfolding insert_publication
insert_publication-IsReviewed p d a s =
    Ensures-guard _ (not (any (λ row. row.publication_id == p.publication_id) d.publications))
      version_already_published _
      λ h1.
        Ensures-guard _
          (not (any (is_publication_of p.tenant_id p.content_id p.version_id) d.publications))
          version_already_published _
          λ h2. (
            record {
              approved_heads = s.approved_heads;
              published_heads =
                  All-impl _ _ d.contents
                    (λ c h. more_publications p d.publications c.tenant_id c.content_id _ h)
                    s.published_heads;
              approved_publications = (a, s.approved_publications);
              one_review = s.one_review;
              one_publication = (not-true _ h2, s.one_publication);
            },
            inl refl,
          )

pub set_published_version-IsReviewed :
    (content tenant version : Uuid) (revision : ℕ) (now : Datetime) (d : Database)
    → PublicationOf d.publications tenant content version
    → IsReviewed d
    → IsReviewed (set_published_version content tenant version revision now d).0
unfolding set_published_version
set_published_version-IsReviewed content tenant version revision now d published s = record {
  approved_heads =
      update_contents-All _ _ _ (with_published version now) d.contents (λ c t h. h) (λ c h. h)
        s.approved_heads;
  published_heads =
      update_contents-All _ _ _ (with_published version now) d.contents
        (λ c t h.
          let row =
            is_current-IsRowOf tenant content (some version) approved revision c
              (and-both _ _ t).0 in
          rw (row.same_tenant, row.same_content) published)
        (λ c h. h) s.published_heads;
  approved_publications = s.approved_publications;
  one_review = s.one_review;
  one_publication = s.one_publication;
}
