-- ===== src/Content/Commands/Retry.antt =====
-- A publication that is sent again with its idempotency key.
use mathlib.Core.Path.{subst}
use eduvijna_aieos_backend.Prelude.{
  ℕ, ◌≡◌, refl, sym, Option, none, some, List, ◌∷◌, ==_iff, ok, guard, first, Ensures, Ensures-bind,
  Ensures-ok,
}
use eduvijna_aieos_backend.Python.Text.{codes, text_eq, text_eq_refl}
use eduvijna_aieos_backend.Python.Scalars.{Uuid}
use eduvijna_aieos_backend.Content.Vocabulary.{idempotency_key_reused}
use eduvijna_aieos_backend.Content.Version.{Publication}
use eduvijna_aieos_backend.Content.Database.{Database, IdempotencyOutcome}
use eduvijna_aieos_backend.Content.Database.Rows.{get_outcome, insert_outcome, get_publication}
use eduvijna_aieos_backend.Content.Commands.{Ports, Request, Occasion}
use eduvijna_aieos_backend.Content.Commands.Publish.{
  PublicationResult, publish, publish_scoped, publish_new, publish_audit, publish_outcome,
  publish_scope, publish_fingerprint, replay,
}
use eduvijna_aieos_backend.Content.Commands.Approvals.{==_refl}
use eduvijna_aieos_backend.Content.Commands.Replay.{
  HasOutcome, insert_outcome-HasOutcome, Reports, publish_new-Reports,
}

found_publication :
    (e : Database) (p : Publication) (rest : List Publication) (tenant : Uuid)
    → e.publications ≡ p ∷ rest
    → p.tenant_id ≡ tenant
    → get_publication tenant p.publication_id e ≡ some p
unfolding get_publication first
found_publication e p rest tenant h t =
    rw h (simp (==_refl p.publication_id, (==_iff p.tenant_id tenant).1 t))

-- The result that a stored publication is read as.
abbrev result_of : Publication → ℕ → PublicationResult
result_of p revision = record {
  publication_id = p.publication_id;
  content_id = p.content_id;
  version_id = p.version_id;
  approval_decision_id = p.approval_decision_id;
  published_at = p.published_at;
  published_version_id = p.version_id;
  aggregate_revision = revision;
}

replayed :
    (ports : Ports) (r : Request) (o : Occasion) (e : Database) (p : Publication) (revision : ℕ)
    → get_publication r.execution_tenant_id p.publication_id e ≡ some p
    → publish_scoped ports r o (some (publish_outcome ports r (result_of p revision))) e
      ≡ ok (e, result_of p revision)
unfolding publish_scoped replay
replayed ports r o e p revision h = simp (text_eq_refl (publish_fingerprint ports r), h)

-- A call that is answered by the outcome of its scope.
answered :
    (ports : Ports) (r : Request) (o : Occasion) (existing : IdempotencyOutcome) (e : Database)
    (out : Database × PublicationResult)
    → ports.authorize r.execution_tenant_id r.principal_id r.content_id r.version_id
        (codes "content.publish")
      ≡ ok tt
    → get_outcome (publish_scope ports r) e ≡ some existing
    → publish_scoped ports r o (some existing) e ≡ ok out
    → publish ports r o e ≡ ok out
unfolding publish
answered ports r o existing e out a g h = simp (a, g, h)

-- The same call again, at another occasion, changes nothing and gives the same result.
abbrev Repeats : Ports → Request → Occasion → Database × PublicationResult → Type 0
Repeats ports r later out = publish ports r later out.0 ≡ ok out

first-Repeats :
    (ports : Ports) (r : Request) (later : Occasion) (done d2 : Database)
    (result : PublicationResult)
    → ports.authorize r.execution_tenant_id r.principal_id r.content_id r.version_id
        (codes "content.publish")
      ≡ ok tt
    → Reports r (done, result)
    → HasOutcome (publish_outcome ports r result) done d2
    → Repeats ports r later (d2, result)
first-Repeats ports r later done d2 result a reported stored =
    answered ports r later (publish_outcome ports r result) d2 (d2, result) a stored.found
      (subst (λ x. publish_scoped ports r later (some (publish_outcome ports r x)) d2 ≡ ok (d2, x))
        reported.3
        (replayed ports r later d2 reported.0 result.aggregate_revision (
          found_publication d2 reported.0 reported.1.0 r.execution_tenant_id
            (subst (λ rows. rows ≡ reported.0 ∷ reported.1.0) (sym stored.same_publications)
              reported.1.1)
            reported.2)))

publish_scoped-Repeats :
    (ports : Ports) (r : Request) (o later : Occasion) (d : Database)
    (existing : Option IdempotencyOutcome)
    → ports.authorize r.execution_tenant_id r.principal_id r.content_id r.version_id
        (codes "content.publish")
      ≡ ok tt
    → get_outcome (publish_scope ports r) d ≡ existing
    → Ensures (Repeats ports r later) (publish_scoped ports r o existing d)
unfolding publish_scoped
publish_scoped-Repeats ports r o later d (some existing) a g =
    Ensures-bind (Repeats ports r later)
      (guard (text_eq existing.request_fingerprint_sha256 (publish_fingerprint ports r))
        idempotency_key_reused)
      _
      λ u h1.
        Ensures-bind (Repeats ports r later) (replay r.execution_tenant_id existing d) _
          λ result h2. answered ports r later existing d (d, result) a g (simp (h1, h2))
publish_scoped-Repeats ports r o later d none a g =
    Ensures-bind (Repeats ports r later) (publish_new ports r o d) _ λ done h1.
      Ensures-bind (Repeats ports r later) (publish_audit r o done.1 done.0.audit) _ λ audit h2.
        Ensures-bind (Repeats ports r later)
          (insert_outcome (publish_outcome ports r done.1) (record done.0 { audit = audit })) _
          λ d2 h3.
            first-Repeats ports r later (record done.0 { audit = audit }) d2 done.1 a
              (Ensures-ok (Reports r) _ done (publish_new-Reports ports r o d) h1)
              (Ensures-ok
                (HasOutcome (publish_outcome ports r done.1) (record done.0 { audit = audit })) _ d2
                (insert_outcome-HasOutcome (publish_outcome ports r done.1)
                  (record done.0 { audit = audit }))
                h3)

-- A publication that succeeded, when the same request is sent again with its idempotency key to the
-- tables that it left, and the ports answer as before, succeeds: it returns the same result and
-- changes nothing, whatever the time, the context and the identities that the second call generates.
pub publish-publish :
    (ports : Ports) (r : Request) (o later : Occasion) (d e : Database) (result : PublicationResult)
    → publish ports r o d ≡ ok (e, result)
    → publish ports r later e ≡ ok (e, result)
unfolding publish
publish-publish ports r o later d e result h =
    Ensures-ok (Repeats ports r later) (publish ports r o d) (e, result)
      (Ensures-bind (Repeats ports r later)
        (ports.authorize r.execution_tenant_id r.principal_id r.content_id r.version_id
          (codes "content.publish"))
        _ λ u a. publish_scoped-Repeats ports r o later d _ a refl)
      h
