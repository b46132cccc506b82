-- ===== src/Content/Commands/History.antt =====
-- The histories of the tables: every sequence of commands, each of which is rolled back or commits.
use mathlib.Core.Path.{subst}
use eduvijna_aieos_backend.Prelude.{
  ℕ, ◌≡◌, sym, true, Option, some, List, [], ◌∷◌, ==_iff, inl, inr, ok, All, In, Ensures-ok,
}
use eduvijna_aieos_backend.Python.Text.{Text}
use eduvijna_aieos_backend.Python.Scalars.{Uuid, Datetime}
use eduvijna_aieos_backend.Content.Vocabulary.{ContentResult}
use eduvijna_aieos_backend.Content.Version.{Content, ContentVersion, Publication}
use eduvijna_aieos_backend.Content.Review.{ReviewDecisionCode, ReviewDecision}
use eduvijna_aieos_backend.Content.Database.{Database}
use eduvijna_aieos_backend.Content.Database.Rows.{is_publication_of}
use eduvijna_aieos_backend.Content.Database.Soundness.{
  IsReviewed, Approval, IsApproved, PublicationOfPointer, HasPublication, and-both,
}
use eduvijna_aieos_backend.Events.ContentEvents.{MutationEventContext}
use eduvijna_aieos_backend.Content.Commands.{Ports, Request, Occasion}
use eduvijna_aieos_backend.Content.Commands.Create.{CreateContentCommand, create_content_in_uow}
use eduvijna_aieos_backend.Content.Commands.Append.{append_version_in_uow}
use eduvijna_aieos_backend.Content.Commands.Service.{ReviewSubmissionResult, submit}
use eduvijna_aieos_backend.Content.Commands.Decision.{ReviewDecisionResult, decide}
use eduvijna_aieos_backend.Content.Commands.Publish.{PublicationResult, publish}
use eduvijna_aieos_backend.Content.Commands.Soundness.{append_version_in_uow-IsReviewed}
use eduvijna_aieos_backend.Content.Commands.Services.{
  create_content_in_uow-IsReviewed, submit-IsReviewed, decide-IsReviewed, publish-IsReviewed,
}

abbrev pub no_rows : Database
no_rows = record {
  contents = [];
  versions = [];
  reviews = [];
  publications = [];
  start_intents = [];
  command_intents = [];
  outbox = [];
  audit = [];
  outcomes = [];
}

module _ (ports : Ports) where
  -- One command that commits.
  pub data Step : Database → Database → Type 0 where
    created :
        (tenant principal content_id : Uuid) (command : CreateContentCommand) (o : Occasion)
        (c : Content) (d e : Database)
        → create_content_in_uow ports tenant principal content_id command o d ≡ ok (e, c)
        → Step d e
    appended :
        (tenant : Uuid) (expected : ℕ) (v : ContentVersion) (provenance : ContentResult (Unit {0}))
        (now : Datetime) (context : MutationEventContext) (event_id : Uuid) (revision : ℕ)
        (d e : Database)
        → append_version_in_uow ports.str_uuid tenant expected v provenance now context event_id d
          ≡ ok (e, revision)
        → Step d e
    submitted :
        (r : Request) (o : Occasion) (result : ReviewSubmissionResult) (d e : Database)
        → submit ports r o d ≡ ok (e, result)
        → Step d e
    decided :
        (decision : ReviewDecisionCode) (reason_code comment : Option Text) (r : Request)
        (o : Occasion) (result : ReviewDecisionResult) (d e : Database)
        → decide ports decision reason_code comment r o d ≡ ok (e, result)
        → Step d e
    published :
        (r : Request) (o : Occasion) (result : PublicationResult) (d e : Database)
        → publish ports r o d ≡ ok (e, result)
        → Step d e

  pub data Reach : Database → Type 0 where
    start : Reach no_rows
    step : (d e : Database) → Reach d → Step d e → Reach e

  Step-IsReviewed : (d e : Database) → Step d e → IsReviewed d → IsReviewed e
  Step-IsReviewed _ _ (created tenant principal content_id command o c d e h) s =
      Ensures-ok _ _ (e, c)
        (create_content_in_uow-IsReviewed ports tenant principal content_id command o d s) h
  Step-IsReviewed _ _ (appended tenant expected v provenance now context event_id revision d e h)
        s =
      Ensures-ok _ _ (e, revision)
        (append_version_in_uow-IsReviewed ports.str_uuid tenant expected v provenance now context
          event_id d s)
        h
  Step-IsReviewed _ _ (submitted r o result d e h) s =
      Ensures-ok _ _ (e, result) (submit-IsReviewed ports r o d s) h
  Step-IsReviewed _ _ (decided decision reason_code comment r o result d e h) s =
      Ensures-ok _ _ (e, result) (decide-IsReviewed ports decision reason_code comment r o d s) h
  Step-IsReviewed _ _ (published r o result d e h) s =
      Ensures-ok _ _ (e, result) (publish-IsReviewed ports r o d s) h

  -- After any sequence of creations, appends, submissions, decisions and publications: a content that is
  -- APPROVED has an APPROVE decision on its current version, a published pointer has a publication of
  -- that version, each publication names an APPROVE decision on its version, and no version has two
  -- decisions or two publications.
  pub Reach-IsReviewed : (d : Database) → Reach d → IsReviewed d
  Reach-IsReviewed _ start = record {
    approved_heads = tt;
    published_heads = tt;
    approved_publications = tt;
    one_review = tt;
    one_publication = tt;
  }
  Reach-IsReviewed _ (step d e h t) = Step-IsReviewed d e t (Reach-IsReviewed d h)

In-All : {A : Type 0} (P : A → Type 0) (x : A) (xs : List A) → In x xs → All P xs → P x
In-All P x [] i h = absurd i
In-All P x (y ∷ ys) (inl p) h = subst P (sym p) h.0
In-All P x (y ∷ ys) (inr i) h = In-All P x ys i h.1

approval_of_publication :
    (reviews : List ReviewDecision) (tenant content version : Uuid) (p : Publication)
    → is_publication_of tenant content version p ≡ true
    → IsApproved reviews p
    → Approval reviews tenant content version
approval_of_publication reviews tenant content version p h a =
    let b = and-both _ _ h in
    let e = and-both _ _ b.0 in
    subst (Approval reviews tenant content) ((==_iff p.version_id version).0 b.1) (
      subst (λ u. Approval reviews tenant u p.version_id) ((==_iff p.content_id content).0 e.1)
        (subst (λ u. Approval reviews u p.content_id p.version_id)
          ((==_iff p.tenant_id tenant).0 e.0) a.approval))

-- After any such sequence, the published version of a content has an APPROVE decision on exactly that
-- version, whatever was appended or decided after it.
pub Reach-Approval :
    (ports : Ports) (d : Database) (c : Content) (version : Uuid)
    → Reach ports d
    → In c d.contents
    → c.published_version_id ≡ some version
    → Approval d.reviews c.tenant_id c.content_id version
Reach-Approval ports d c version h i p =
    let sound = Reach-IsReviewed ports d h in
    let pointed =
      subst (PublicationOfPointer d.publications c.tenant_id c.content_id) p
        (In-All (HasPublication d.publications) c d.contents i sound.published_heads) in
    approval_of_publication d.reviews c.tenant_id c.content_id version pointed.publication
      pointed.same_version
      (In-All (IsApproved d.reviews) pointed.publication d.publications pointed.stored
        sound.approved_publications)
