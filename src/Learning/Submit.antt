-- ===== src/Learning/Submit.antt =====
-- submit.py: the pure transition of a working attempt to a submitted one and its submission.
pub mod Outcome
pub mod Refusal
use eduvijna_aieos_backend.Prelude.{
  ℕ, ◌≡◌, Bool, true, false, ◌&&◌, ◌==◌, not, Option, none, some, List, [], ◌∷◌, Result, ok, err,
  ◌>>=◌, ◌>>◌, guard,
}
use eduvijna_aieos_backend.Python.Text.{text_eq}
use eduvijna_aieos_backend.Python.Scalars.{ℤ, Uuid, Datetime}
use eduvijna_aieos_backend.Learning.Vocabulary.{
  Learning, AttemptId, SubmissionId, in_progress, invalid_response, invalid_submission,
  already_submitted, assertion_error,
}
use eduvijna_aieos_backend.Learning.ResponseItem.{AttemptResponseItem}
use eduvijna_aieos_backend.Learning.Attempt.{
  LearnerAttempt, is_in_progress, bind_submitted_submission,
}
use eduvijna_aieos_backend.Learning.Snapshot.{canonical_response_snapshot}
use eduvijna_aieos_backend.Learning.Submission
use eduvijna_aieos_backend.Learning.Submission.{LearnerSubmission}

-- The loop that checks that the responses belong to the attempt.
unfoldable pub check_owned : AttemptId → List AttemptResponseItem → Learning (Unit {0})
check_owned attempt_id [] = ok tt
check_owned attempt_id (item ∷ items) = do
  guard (item.attempt_id.value == attempt_id.value) invalid_response
  check_owned attempt_id items

abbrev same_submission_id : Option SubmissionId → SubmissionId → Bool
same_submission_id none s = false
same_submission_id (some r) s = r.value == s.value

-- Equality of the aware datetimes that are compared here.
abbrev same_moment : Option Datetime → Datetime → Bool
same_moment none t = false
same_moment (some s) t = s.instant == t.instant

-- `_assert_identity_parity`
unfoldable pub assert_identity_parity : LearnerAttempt → LearnerSubmission → Learning (Unit {0})
assert_identity_parity a s = do
  guard (a.tenant_id == s.tenant_id) invalid_submission
  guard (a.attempt_id.value == s.attempt_id.value) invalid_submission
  guard (a.learner_principal_id == s.learner_principal_id) invalid_submission
  guard (a.teaching_assignment_id == s.teaching_assignment_id) invalid_submission
  guard (a.content_id == s.content_id) invalid_submission
  guard (a.content_version_id == s.content_version_id) invalid_submission
  guard (text_eq a.class_ref s.class_ref) invalid_submission
  guard (same_submission_id a.submission_id s.submission_id) invalid_submission
  guard (same_moment a.submitted_at s.submitted_at) invalid_submission

abbrev pub or_generated : Option SubmissionId → SubmissionId → SubmissionId
or_generated none generated = generated
or_generated (some sid) generated = sid

-- The `submitted_at` of an attempt as the submission takes it: `_require_aware` raises at `None`.
abbrev required : Option Datetime → Learning Datetime
required none = err invalid_submission
required (some t) = ok t

-- `generated` is what `SubmissionId.generate()` returns, if it is called.
unfoldable pub transition_in_progress_attempt_to_submitted :
    (generated : SubmissionId) (attempt : LearnerAttempt) (responses : List AttemptResponseItem)
    (submitted_at : Datetime) (assignment_revision_at_submit : ℤ)
    (due_at_at_submit : Option Datetime) (submission_id : Option SubmissionId)
    → Learning (LearnerAttempt × LearnerSubmission)
unfolding check_owned assert_identity_parity
transition_in_progress_attempt_to_submitted generated attempt responses submitted_at revision due
      submission_id =
    do
      guard (is_in_progress attempt.lifecycle_state) already_submitted
      check_owned attempt.attempt_id responses
      let sid = or_generated submission_id generated
      submitted_attempt ← bind_submitted_submission attempt sid submitted_at
      snapshot ← canonical_response_snapshot responses
      moment ← required submitted_attempt.submitted_at
      submission ← Submission.post_init (record {
        submission_id = sid;
        tenant_id = attempt.tenant_id;
        attempt_id = attempt.attempt_id;
        learner_principal_id = attempt.learner_principal_id;
        teaching_assignment_id = attempt.teaching_assignment_id;
        content_id = attempt.content_id;
        content_version_id = attempt.content_version_id;
        class_ref = attempt.class_ref;
        response_snapshot = snapshot;
        submitted_at = moment;
        assignment_revision_at_submit = revision;
        due_at_at_submit = due;
        created_at = moment;
      })
      assert_identity_parity submitted_attempt submission
      ok (submitted_attempt, submission)
