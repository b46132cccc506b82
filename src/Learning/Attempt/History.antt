-- ===== src/Learning/Attempt/History.antt =====
-- What holds of every attempt that any sequence of calls leads to.
use mathlib.Core.Path.{subst}
use eduvijna_aieos_backend.Prelude.{
  ℕ, suc, ◌+◌, ◌≡◌, refl, Option, Bool, not, true, false, ok, err, ok-injective, err-ne-ok, arith,
  if◌then◌else◌, guard, ◌>>◌, Ensures-ok, Ensures-guard, ◌∙◌, sym, ap,
}
use eduvijna_aieos_backend.Python.Text.{Text}
use eduvijna_aieos_backend.Python.Scalars.{ℤ, Uuid, Datetime, earlier}
use eduvijna_aieos_backend.Learning.Vocabulary.{
  Learning, LearningError, AttemptId, SubmissionId, AttemptLifecycleState, in_progress, submitted,
  invalid_attempt, already_submitted,
}
use eduvijna_aieos_backend.Learning.Attempt.{
  LearnerAttempt, IsValid, start_in_progress, record_material_response_save,
  bind_submitted_submission, is_in_progress,
}
use eduvijna_aieos_backend.Learning.Attempt.Validity.{post_init-Ensures}
use eduvijna_aieos_backend.Learning.Attempt.Lifecycle.{
  admits, saved, bound, save_working, bind_working,
}

-- One successful call of a method.
pub data Step (a b : LearnerAttempt) : Type 0 where
  save : (t : Datetime) → record_material_response_save a t ≡ ok b → Step a b
  submit : (sid : SubmissionId) (t : Datetime) → bind_submitted_submission a sid t ≡ ok b → Step a b

-- `b` is reached from `a` by `n` successful calls.
pub data Reach (a : LearnerAttempt) : ℕ → LearnerAttempt → Type 0 where
  here : Reach a 0 a
  more : {n : ℕ} {b c : LearnerAttempt} → Reach a n b → Step b c → Reach a (suc n) c

-- What no method changes.
pub record SameLineage (a b : LearnerAttempt) : Type 0 where
  pub attempt_id : b.attempt_id ≡ a.attempt_id
  pub tenant_id : b.tenant_id ≡ a.tenant_id
  pub learner_principal_id : b.learner_principal_id ≡ a.learner_principal_id
  pub teaching_assignment_id : b.teaching_assignment_id ≡ a.teaching_assignment_id
  pub content_id : b.content_id ≡ a.content_id
  pub content_version_id : b.content_version_id ≡ a.content_version_id
  pub class_ref : b.class_ref ≡ a.class_ref
  pub attempt_number : b.attempt_number ≡ a.attempt_number
  pub started_at : b.started_at ≡ a.started_at
  pub created_at : b.created_at ≡ a.created_at

working_of_ok :
    (a : LearnerAttempt) (r : Learning LearnerAttempt) {b : LearnerAttempt}
    → (guard (is_in_progress a.lifecycle_state) already_submitted >> r) ≡ ok b
    → a.lifecycle_state ≡ in_progress
working_of_ok a r {b} h = go a.lifecycle_state h
  where
    go :
        (l : AttemptLifecycleState)
        → (guard (is_in_progress l) already_submitted >> r) ≡ ok b
        → l ≡ in_progress
    go in_progress h = refl
    go submitted h = absurd (err-ne-ok _ _ h)

-- What one successful call does.
pub record StepFacts (a b : LearnerAttempt) : Type 0 where
  pub was_working : a.lifecycle_state ≡ in_progress
  pub valid : IsValid b
  pub lineage : SameLineage a b
  pub revision : b.aggregate_revision.value ≡ a.aggregate_revision.value + 1

if_ok :
    (c : Bool) (x b : LearnerAttempt) (e : LearningError)
    → (if c then ok x else err e) ≡ ok b
    → x ≡ b
if_ok true x b e h = ok-injective _ _ h
if_ok false x b e h = absurd (err-ne-ok _ _ h)

lineage_refl : (a : LearnerAttempt) → SameLineage a a
lineage_refl a = record {
  attempt_id = refl;
  tenant_id = refl;
  learner_principal_id = refl;
  teaching_assignment_id = refl;
  content_id = refl;
  content_version_id = refl;
  class_ref = refl;
  attempt_number = refl;
  started_at = refl;
  created_at = refl;
}

lineage_saved : (a : LearnerAttempt) (t : Datetime) → SameLineage a (saved a t)
lineage_saved a t = record {
  attempt_id = refl;
  tenant_id = refl;
  learner_principal_id = refl;
  teaching_assignment_id = refl;
  content_id = refl;
  content_version_id = refl;
  class_ref = refl;
  attempt_number = refl;
  started_at = refl;
  created_at = refl;
}

lineage_bound :
    (a : LearnerAttempt) (sid : SubmissionId) (t : Datetime) → SameLineage a (bound a sid t)
lineage_bound a sid t = record {
  attempt_id = refl;
  tenant_id = refl;
  learner_principal_id = refl;
  teaching_assignment_id = refl;
  content_id = refl;
  content_version_id = refl;
  class_ref = refl;
  attempt_number = refl;
  started_at = refl;
  created_at = refl;
}

save-was_working :
    (a b : LearnerAttempt) (t : Datetime)
    → record_material_response_save a t ≡ ok b
    → a.lifecycle_state ≡ in_progress
unfolding record_material_response_save
save-was_working a b t h = working_of_ok a _ h

bind-was_working :
    (a b : LearnerAttempt) (sid : SubmissionId) (t : Datetime)
    → bind_submitted_submission a sid t ≡ ok b
    → a.lifecycle_state ≡ in_progress
unfolding bind_submitted_submission
bind-was_working a b sid t h = working_of_ok a _ h

save-IsValid :
    (a b : LearnerAttempt) (t : Datetime) → record_material_response_save a t ≡ ok b → IsValid b
unfolding record_material_response_save
save-IsValid a b t h =
    Ensures-ok IsValid (record_material_response_save a t) b
      (Ensures-guard IsValid (is_in_progress a.lifecycle_state) already_submitted _ λ _.
        Ensures-guard IsValid t.is_aware invalid_attempt _ λ _.
          Ensures-guard IsValid (not (earlier t a.started_at)) invalid_attempt _
            λ _. post_init-Ensures (saved a t))
      h

pub bind-IsValid :
    (a b : LearnerAttempt) (sid : SubmissionId) (t : Datetime)
    → bind_submitted_submission a sid t ≡ ok b
    → IsValid b
unfolding bind_submitted_submission
bind-IsValid a b sid t h =
    Ensures-ok IsValid (bind_submitted_submission a sid t) b
      (Ensures-guard IsValid (is_in_progress a.lifecycle_state) already_submitted _ λ _.
        Ensures-guard IsValid t.is_aware invalid_attempt _ λ _.
          Ensures-guard IsValid (not (earlier t a.started_at)) invalid_attempt _
            λ _. post_init-Ensures (bound a sid t))
      h

pub start-IsValid :
    (generated : AttemptId) (tenant learner assignment content content_version : Uuid)
    (class_ref : Text) (t : Datetime) (number : ℤ) (given : Option AttemptId) (a : LearnerAttempt)
    → start_in_progress generated tenant learner assignment content content_version class_ref t
        number given
      ≡ ok a
    → IsValid a
unfolding start_in_progress
start-IsValid generated tenant learner assignment content content_version class_ref t number given a
      h =
    Ensures-ok IsValid
      (start_in_progress generated tenant learner assignment content content_version class_ref t
        number given)
      a (Ensures-guard IsValid t.is_aware invalid_attempt _ λ _. post_init-Ensures _) h

-- Every successful call starts from a working attempt, keeps its identity, lineage and start, adds
-- one to the revision, and leaves a valid attempt.
pub Step-StepFacts : {a b : LearnerAttempt} → IsValid a → Step a b → StepFacts a b
Step-StepFacts {a} {b} v (save t h) =
    let working : a.lifecycle_state ≡ in_progress = save-was_working a b t h in
    let e : saved a t ≡ b = if_ok (admits a t) _ _ _ (sym (save_working a t v working) ∙ h) in
    record {
      was_working = working;
      valid = save-IsValid a b t h;
      lineage = subst (SameLineage a) e (lineage_saved a t);
      revision = sym (ap (λ (x : LearnerAttempt). x.aggregate_revision.value) e);
    }
Step-StepFacts {a} {b} v (submit sid t h) =
    let working : a.lifecycle_state ≡ in_progress = bind-was_working a b sid t h in
    let e : bound a sid t ≡ b =
      if_ok (admits a t) _ _ _ (sym (bind_working a sid t v working) ∙ h) in
    record {
      was_working = working;
      valid = bind-IsValid a b sid t h;
      lineage = subst (SameLineage a) e (lineage_bound a sid t);
      revision = sym (ap (λ (x : LearnerAttempt). x.aggregate_revision.value) e);
    }

-- What holds of `b` after `n` successful calls from `a`.
pub record History (a : LearnerAttempt) (n : ℕ) (b : LearnerAttempt) : Type 0 where
  pub valid : IsValid b
  pub lineage : SameLineage a b
  pub revision : b.aggregate_revision.value ≡ a.aggregate_revision.value + n

lineage_trans : (a b c : LearnerAttempt) → SameLineage a b → SameLineage b c → SameLineage a c
lineage_trans a b c p q = record {
  attempt_id = q.attempt_id ∙ p.attempt_id;
  tenant_id = q.tenant_id ∙ p.tenant_id;
  learner_principal_id = q.learner_principal_id ∙ p.learner_principal_id;
  teaching_assignment_id = q.teaching_assignment_id ∙ p.teaching_assignment_id;
  content_id = q.content_id ∙ p.content_id;
  content_version_id = q.content_version_id ∙ p.content_version_id;
  class_ref = q.class_ref ∙ p.class_ref;
  attempt_number = q.attempt_number ∙ p.attempt_number;
  started_at = q.started_at ∙ p.started_at;
  created_at = q.created_at ∙ p.created_at;
}

-- From a valid attempt, every sequence of n successful calls leads to a valid attempt of the same
-- identity, lineage and start, whose revision is n more.
pub Reach-History : {a b : LearnerAttempt} {n : ℕ} → IsValid a → Reach a n b → History a n b
Reach-History {a} v here = record { valid = v; lineage = lineage_refl a; revision = omega arith }
Reach-History {a} {b = c} v (more {n} {b} r s) =
    let past = Reach-History v r in
    let facts = Step-StepFacts past.valid s in
    record {
      valid = facts.valid;
      lineage = lineage_trans a b c past.lineage facts.lineage;
      revision = omega (arith, past.revision, facts.revision);
    }
