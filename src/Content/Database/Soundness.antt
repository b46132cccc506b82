-- ===== src/Content/Database/Soundness.antt =====
-- What holds between the tables: an approval lies behind each approved head and each publication, a
-- publication behind each published pointer. Every statement that changes a table keeps it.
use mathlib.Core.Path.{subst}
use eduvijna_aieos_backend.Prelude.{
  ℕ, ◌≡◌, ◌≢◌, refl, sym, ap, Result, Bool, true, false, not, ◌&&◌, Option, none, some, List, [],
  ◌∷◌, ◌==◌, ==_iff, inl, inr, ok, err, All, In, Bool-cases, Ensures, Ensures-guard,
}
use eduvijna_aieos_backend.Python.Scalars.{Uuid, Datetime}
use eduvijna_aieos_backend.Content.Vocabulary.{
  StewardshipState, generated, approved, content_already_exists, version_already_exists,
}
use eduvijna_aieos_backend.Content.Version.{Content, ContentVersion, Publication, is_same_id}
use eduvijna_aieos_backend.Content.Review.{ReviewDecision, approve}
use eduvijna_aieos_backend.Content.Database.{Database, any, update_contents}
use eduvijna_aieos_backend.Content.Database.Rows.{
  insert_content, insert_version, is_current, with_current, advance_current_version, is_review_of,
  is_publication_of, insert_message, inserted, is_same_version,
}
use eduvijna_aieos_backend.Events.Outbox.{OutboxError, insert}
use eduvijna_aieos_backend.Events.ContentEvents.{Message}

-- An APPROVE decision on exactly the version.
pub record Approval (reviews : List ReviewDecision) (tenant content version : Uuid) : Type 0 where
  pub review : ReviewDecision
  pub stored : In review reviews
  pub same_version : is_review_of tenant content version review ≡ true
  pub approving : review.decision ≡ approve

abbrev pub ApprovalOfCurrent : List ReviewDecision → (tenant content : Uuid) → Option Uuid → Type 0
ApprovalOfCurrent reviews tenant content none = ⊥
ApprovalOfCurrent reviews tenant content (some version) = Approval reviews tenant content version

abbrev pub HasApproval : List ReviewDecision → Content → Type 0
HasApproval reviews c =
    c.stewardship_state ≡ approved
    → ApprovalOfCurrent reviews c.tenant_id c.content_id c.current_version_id

-- The publication names the approval of its version.
pub record IsApproved (reviews : List ReviewDecision) (p : Publication) : Type 0 where
  pub approval : Approval reviews p.tenant_id p.content_id p.version_id
  pub named : approval.review.review_decision_id ≡ p.approval_decision_id

pub record PublicationOf (publications : List Publication) (tenant content version : Uuid)
    : Type 0 where
  pub publication : Publication
  pub stored : In publication publications
  pub same_version : is_publication_of tenant content version publication ≡ true

abbrev pub PublicationOfPointer : List Publication → (tenant content : Uuid) → Option Uuid → Type 0
PublicationOfPointer publications tenant content none = Unit
PublicationOfPointer publications tenant content (some version) =
    PublicationOf publications tenant content version

abbrev pub HasPublication : List Publication → Content → Type 0
HasPublication publications c =
    PublicationOfPointer publications c.tenant_id c.content_id c.published_version_id

abbrev pub HaveOneReview : List ReviewDecision → Type 0
HaveOneReview [] = Unit
HaveOneReview (r ∷ reviews) =
    (any (is_review_of r.tenant_id r.content_id r.version_id) reviews ≡ false)
    × HaveOneReview reviews

abbrev pub HaveOnePublication : List Publication → Type 0
HaveOnePublication [] = Unit
HaveOnePublication (p ∷ publications) =
    (any (is_publication_of p.tenant_id p.content_id p.version_id) publications ≡ false)
    × HaveOnePublication publications

pub record AreSound (contents : List Content) (reviews : List ReviewDecision)
    (publications : List Publication) : Type 0 where
  pub approved_heads : All (HasApproval reviews) contents
  pub published_heads : All (HasPublication publications) contents
  pub approved_publications : All (IsApproved reviews) publications
  pub one_review : HaveOneReview reviews
  pub one_publication : HaveOnePublication publications

abbrev pub IsReviewed : Database → Type 0
IsReviewed d = AreSound d.contents d.reviews d.publications

pub and-both : (a b : Bool) → (a && b) ≡ true → (a ≡ true) × (b ≡ true)
and-both true b h = (refl, h)
and-both false b h = cc

pub not-true : (b : Bool) → not b ≡ true → b ≡ false
not-true false h = refl
not-true true h = cc

pub same_id-some : (o : Option Uuid) (u : Uuid) → is_same_id o (some u) ≡ true → o ≡ some u
same_id-some none u h = cc
same_id-some (some a) u h = ap some ((==_iff a u).0 h)

-- What the tests of an update say of the row that it changes.
pub record IsRowOf (tenant content : Uuid) (current : Option Uuid) (c : Content) : Type 0 where
  pub same_tenant : c.tenant_id ≡ tenant
  pub same_content : c.content_id ≡ content
  pub same_current : (u : Uuid) → current ≡ some u → c.current_version_id ≡ some u

pub is_current-IsRowOf :
    (tenant content : Uuid) (current : Option Uuid) (state : StewardshipState) (revision : ℕ)
    (c : Content)
    → is_current tenant content current state revision c ≡ true
    → IsRowOf tenant content current c
is_current-IsRowOf tenant content current state revision c h =
    let a = and-both _ _ h in
    let b = and-both _ _ a.0 in
    let e = and-both _ _ b.0 in
    let f = and-both _ _ e.0 in
    record {
      same_tenant = (==_iff c.tenant_id tenant).0 f.1;
      same_content = (==_iff c.content_id content).0 f.0;
      same_current = λ u p.
          same_id-some c.current_version_id u
            (subst (λ o. is_same_id c.current_version_id o ≡ true) p e.1);
    }

pub update_contents-All :
    (P Q : Content → Type 0) (test : Content → Bool) (change : Content → Content)
    (rows : List Content)
    → ((c : Content) → test c ≡ true → P c → Q (change c))
    → ((c : Content) → P c → Q c)
    → All P rows
    → All Q (update_contents test change rows)
unfolding update_contents
update_contents-All P Q test change [] f g h = tt
update_contents-All P Q test change (c ∷ rows) f g h = (
  elim (Bool-cases (test c)) [ inl e ↦ rw e (f c e h.0) | inr e ↦ rw e (g c h.0) ],
  update_contents-All P Q test change rows f g h.1,
)

pub insert_content-IsReviewed :
    (c : Content) (d : Database)
    → c.stewardship_state ≢ approved
    → c.published_version_id ≡ none
    → IsReviewed d
    → Ensures IsReviewed (insert_content c d)
unfolding insert_content
insert_content-IsReviewed c d draft unpublished s =
    Ensures-guard IsReviewed (not (any (λ row. row.content_id == c.content_id) d.contents))
      content_already_exists _
      λ h. record {
        approved_heads = (λ e. absurd (draft e), s.approved_heads);
        published_heads = (
          subst (PublicationOfPointer d.publications c.tenant_id c.content_id) (sym unpublished) tt,
          s.published_heads,
        );
        approved_publications = s.approved_publications;
        one_review = s.one_review;
        one_publication = s.one_publication;
      }

pub insert_version-IsReviewed :
    (v : ContentVersion) (d : Database) → IsReviewed d → Ensures IsReviewed (insert_version v d)
unfolding insert_version
insert_version-IsReviewed v d s =
    Ensures-guard IsReviewed (not (any (is_same_version v) d.versions)) version_already_exists _
      λ h. s

pub insert_message-IsReviewed :
    (m : Message) (d : Database) → IsReviewed d → Ensures IsReviewed (insert_message m d)
unfolding insert_message
insert_message-IsReviewed m d s = go (insert m d.outbox)
  where
    go : (o : Result OutboxError (List Message)) → Ensures IsReviewed (inserted o d)
    go (err e) = tt
    go (ok rows) = s

generated-ne-approved : generated ≢ approved
generated-ne-approved h = cc

-- A version that is appended takes its content out of the approved state.
pub advance_current_version-IsReviewed :
    (content tenant : Uuid) (revision : ℕ) (current : Option Uuid) (state : StewardshipState)
    (version : Uuid) (now : Datetime) (d : Database)
    → IsReviewed d
    → IsReviewed (advance_current_version content tenant revision current state version now d).0
unfolding advance_current_version
advance_current_version-IsReviewed content tenant revision current state version now d s = record {
  approved_heads =
      update_contents-All _ _ _ (with_current version now) d.contents
        (λ c t h e. absurd (generated-ne-approved e)) (λ c h. h) s.approved_heads;
  published_heads =
      update_contents-All _ _ _ (with_current version now) d.contents (λ c t h. h) (λ c h. h)
        s.published_heads;
  approved_publications = s.approved_publications;
  one_review = s.one_review;
  one_publication = s.one_publication;
}
