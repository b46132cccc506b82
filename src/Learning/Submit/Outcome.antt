-- ===== src/Learning/Submit/Outcome.antt =====
-- When a submission succeeds and what it makes: the attempt and the submission agree, and no check
-- that follows the guards can fail.
use eduvijna_aieos_backend.Prelude.{
  ◌≡◌, refl, ap, ◌∙◌, true, ◌==◌, ==_iff, Option, List, [], ◌∷◌, map, ok, err, arith, All,
  if◌then◌else◌,
}
use eduvijna_aieos_backend.Python.Text.{Text, text_eq_refl}
use eduvijna_aieos_backend.Python.Sorting.{sort_by, HasDistinct}
use eduvijna_aieos_backend.Python.Scalars.{ℤ, Uuid, Datetime, IsAware}
use eduvijna_aieos_backend.Learning.Vocabulary.{
  Learning, AttemptId, SubmissionId, in_progress, invalid_attempt,
}
use eduvijna_aieos_backend.Learning.ResponseItem
use eduvijna_aieos_backend.Learning.ResponseItem.{AttemptResponseItem}
use eduvijna_aieos_backend.Learning.Attempt
use eduvijna_aieos_backend.Learning.Attempt.{
  LearnerAttempt, is_in_progress, bind_submitted_submission,
}
use eduvijna_aieos_backend.Learning.Attempt.Lifecycle.{admits, bound, bind_working}
use eduvijna_aieos_backend.Learning.Snapshot.{SubmissionResponseItem, canonical_response_snapshot}
use eduvijna_aieos_backend.Learning.Snapshot.Rows.{row_of}
use eduvijna_aieos_backend.Learning.Snapshot.Order.{canonical_of_distinct, canonical-IsSnapshot}
use eduvijna_aieos_backend.Learning.Submission
use eduvijna_aieos_backend.Learning.Submission.{LearnerSubmission, NonNegative, DueFits}
use eduvijna_aieos_backend.Learning.Submit.{
  check_owned, assert_identity_parity, or_generated, transition_in_progress_attempt_to_submitted,
}

abbrev question_of : AttemptResponseItem → Text
question_of i = i.question_id

-- The snapshot that the items have.
abbrev pub snapshot_of : List AttemptResponseItem → List SubmissionResponseItem
snapshot_of items = sort_by (λ (row : SubmissionResponseItem). row.question_id) (map row_of items)

-- The submission of an attempt.
abbrev pub submission_of :
    LearnerAttempt
    → SubmissionId
    → Datetime
    → ℤ
    → Option Datetime
    → List SubmissionResponseItem
    → LearnerSubmission
submission_of a sid t revision due rows = record {
  submission_id = sid;
  tenant_id = a.tenant_id;
  attempt_id = a.attempt_id;
  learner_principal_id = a.learner_principal_id;
  teaching_assignment_id = a.teaching_assignment_id;
  content_id = a.content_id;
  content_version_id = a.content_version_id;
  class_ref = a.class_ref;
  response_snapshot = rows;
  submitted_at = t;
  assignment_revision_at_submit = revision;
  due_at_at_submit = due;
  created_at = t;
}

check_owned_of_All :
    (aid : AttemptId) (items : List AttemptResponseItem)
    → All (λ (i : AttemptResponseItem). i.attempt_id ≡ aid) items
    → check_owned aid items ≡ ok tt
unfolding check_owned
check_owned_of_All aid [] h = refl
check_owned_of_All aid (i ∷ items) h = simp (
  (==_iff i.attempt_id.value aid.value).1 (ap (λ (x : AttemptId). x.value) h.0),
  check_owned_of_All aid items h.1,
)

==_refl : (n : Uuid) → (n == n) ≡ true
==_refl n = (==_iff n n).1 refl

parity_holds :
    (a : LearnerAttempt) (sid : SubmissionId) (t : Datetime) (revision : ℤ) (due : Option Datetime)
    (rows : List SubmissionResponseItem)
    → assert_identity_parity (bound a sid t) (submission_of a sid t revision due rows) ≡ ok tt
unfolding assert_identity_parity
parity_holds a sid t revision due rows = simp (==_refl, text_eq_refl)

-- What a call is given, and what it needs to succeed.
pub record Request : Type 0 where
  pub generated : SubmissionId
  pub attempt : LearnerAttempt
  pub responses : List AttemptResponseItem
  pub submitted_at : Datetime
  pub revision : ℤ
  pub due_at : Option Datetime
  pub submission_id : Option SubmissionId

pub record IsAcceptable (r : Request) : Type 0 where
  pub valid_attempt : Attempt.IsValid r.attempt
  pub working : r.attempt.lifecycle_state ≡ in_progress
  pub valid_items : All ResponseItem.IsValid r.responses
  pub owned : All (λ (i : AttemptResponseItem). i.attempt_id ≡ r.attempt.attempt_id) r.responses
  pub distinct : HasDistinct (λ (i : AttemptResponseItem). i.question_id) r.responses
  pub admitted : admits r.attempt r.submitted_at ≡ true
  pub revision_fits : NonNegative r.revision
  pub due_fits : DueFits r.due_at

abbrev pub run : Request → Learning (LearnerAttempt × LearnerSubmission)
run r =
    transition_in_progress_attempt_to_submitted r.generated r.attempt r.responses r.submitted_at
      r.revision r.due_at r.submission_id

abbrev pub sid_of : Request → SubmissionId
sid_of r = or_generated r.submission_id r.generated

bind_admitted :
    (r : Request)
    → IsAcceptable r
    → bind_submitted_submission r.attempt (sid_of r) r.submitted_at
      ≡ ok (bound r.attempt (sid_of r) r.submitted_at)
bind_admitted r h =
    bind_working r.attempt (sid_of r) r.submitted_at h.valid_attempt h.working
    ∙ ap (λ b. if b then ok (bound r.attempt (sid_of r) r.submitted_at) else err invalid_attempt)
        h.admitted

snapshot_ready :
    (r : Request)
    → IsAcceptable r
    → canonical_response_snapshot r.responses ≡ ok (snapshot_of r.responses)
snapshot_ready r h = canonical_of_distinct r.responses h.valid_items h.distinct

admits-IsAware : (a : LearnerAttempt) (t : Datetime) → admits a t ≡ true → IsAware t
admits-IsAware a t h = ground arith

submission-IsValid :
    (r : Request)
    → IsAcceptable r
    → Submission.IsValid (
        submission_of r.attempt
          (sid_of r)
          r.submitted_at
          r.revision
          r.due_at
          (snapshot_of r.responses))
submission-IsValid r h = record {
  clean_class_ref = h.valid_attempt.clean_class_ref;
  revision = h.revision_fits;
  aware_submission = admits-IsAware r.attempt r.submitted_at h.admitted;
  aware_creation = admits-IsAware r.attempt r.submitted_at h.admitted;
  due_fits = h.due_fits;
  snapshot = (canonical-IsSnapshot r.responses _ h.valid_items (snapshot_ready r h)).0;
}

-- A working attempt with valid responses of its own, no two to one question, is submitted at a
-- moment that it admits: the call returns the attempt with its submission bound and the submission
-- that copies the identity and lineage of the attempt and holds the ordered rows of the responses.
-- So the parity check at the end cannot fail.
pub submit_succeeds :
    (r : Request)
    → IsAcceptable r
    → run r
      ≡ ok (
        bound r.attempt (sid_of r) r.submitted_at,
        submission_of r.attempt
            (sid_of r)
            r.submitted_at
            r.revision
            r.due_at
            (snapshot_of r.responses),
      )
unfolding transition_in_progress_attempt_to_submitted
submit_succeeds r h = simp (
  ap is_in_progress h.working,
  check_owned_of_All r.attempt.attempt_id r.responses h.owned,
  bind_admitted r h,
  snapshot_ready r h,
  Submission.post_init_of_IsValid _ (submission-IsValid r h),
  parity_holds r.attempt (sid_of r) r.submitted_at r.revision r.due_at (snapshot_of r.responses),
)
