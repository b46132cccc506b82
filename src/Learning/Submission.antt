-- ===== src/Learning/Submission.antt =====
-- submission.py, the aggregate: the immutable evidence of one submitted attempt.
use eduvijna_aieos_backend.Prelude.{
  ◌≡◌, refl, Option, none, some, List, map, ok, err, ◌>>=◌, ◌>>◌, Ensures, Ensures-bind,
  Ensures-guard, Ensures-ok, err-ne-ok, arith,
}
use eduvijna_aieos_backend.Python.Text.{
  Text, IsClean, require_text, require_text-IsClean, require_text_of_IsClean,
}
use eduvijna_aieos_backend.Python.Scalars.{
  ℤ, pos, negsuc, Uuid, Datetime, IsAware, require_aware, require_optional_aware,
}
use eduvijna_aieos_backend.Learning.Vocabulary.{
  Learning, AttemptId, SubmissionId, invalid_submission,
}
use eduvijna_aieos_backend.Learning.Attempt.{max_class_ref_length}
use eduvijna_aieos_backend.Learning.Snapshot.{
  SubmissionResponseItem, item, sequence, validate_response_snapshot, IsSnapshot,
}
use eduvijna_aieos_backend.Learning.Snapshot.Validation.{
  validate-IsSnapshot, validate_of_IsSnapshot,
}

pub record LearnerSubmission : Type 0 where
  pub submission_id : SubmissionId
  pub tenant_id : Uuid
  pub attempt_id : AttemptId
  pub learner_principal_id : Uuid
  pub teaching_assignment_id : Uuid
  pub content_id : Uuid
  pub content_version_id : Uuid
  pub class_ref : Text
  pub response_snapshot : List SubmissionResponseItem
  pub submitted_at : Datetime
  pub assignment_revision_at_submit : ℤ
  pub due_at_at_submit : Option Datetime
  pub created_at : Datetime

abbrev require_revision : ℤ → Learning (Unit {0})
require_revision (pos n) = ok tt
require_revision (negsuc n) = err invalid_submission

-- `LearnerSubmission.__post_init__`
unfoldable pub post_init : LearnerSubmission → Learning LearnerSubmission
post_init s = do
  class_ref ← require_text invalid_submission max_class_ref_length s.class_ref
  require_revision s.assignment_revision_at_submit
  require_aware invalid_submission s.submitted_at
  require_aware invalid_submission s.created_at
  require_optional_aware invalid_submission s.due_at_at_submit
  snapshot ← validate_response_snapshot (sequence (map item s.response_snapshot))
  ok (record s { class_ref = class_ref; response_snapshot = snapshot })

abbrev pub NonNegative : ℤ → Type 0
NonNegative (pos n) = Unit
NonNegative (negsuc n) = ⊥

abbrev pub DueFits : Option Datetime → Type 0
DueFits none = Unit
DueFits (some t) = IsAware t

-- What holds of every submission that exists.
pub record IsValid (s : LearnerSubmission) : Type 0 where
  pub clean_class_ref : IsClean max_class_ref_length s.class_ref
  pub revision : NonNegative s.assignment_revision_at_submit
  pub aware_submission : IsAware s.submitted_at
  pub aware_creation : IsAware s.created_at
  pub due_fits : DueFits s.due_at_at_submit
  pub snapshot : IsSnapshot s.response_snapshot

revision-NonNegative : (n : ℤ) → require_revision n ≡ ok tt → NonNegative n
revision-NonNegative (pos n) h = tt
revision-NonNegative (negsuc n) h = absurd (err-ne-ok _ _ h)

revision_of_NonNegative : (n : ℤ) → NonNegative n → require_revision n ≡ ok tt
revision_of_NonNegative (pos n) h = refl
revision_of_NonNegative (negsuc n) h = absurd h

due-DueFits :
    (t : Option Datetime) → require_optional_aware invalid_submission t ≡ ok tt → DueFits t
due-DueFits none h = tt
due-DueFits (some t) h = ground arith

due_of_DueFits :
    (t : Option Datetime) → DueFits t → require_optional_aware invalid_submission t ≡ ok tt
due_of_DueFits none h = refl
due_of_DueFits (some t) h = rw h

post_init-Ensures : (s : LearnerSubmission) → Ensures IsValid (post_init s)
unfolding post_init
post_init-Ensures s =
    Ensures-bind IsValid (require_text invalid_submission max_class_ref_length s.class_ref) _
      λ c hc. Ensures-bind IsValid (require_revision s.assignment_revision_at_submit) _ λ u1 h1.
        Ensures-guard IsValid s.submitted_at.is_aware invalid_submission _ λ h2.
          Ensures-guard IsValid s.created_at.is_aware invalid_submission _ λ h3.
            Ensures-bind IsValid (require_optional_aware invalid_submission s.due_at_at_submit) _
              λ u4 h4.
                Ensures-bind IsValid
                  (validate_response_snapshot (sequence (map item s.response_snapshot))) _
                  λ rows h5. record {
                    clean_class_ref = require_text-IsClean _ _ _ c hc;
                    revision = revision-NonNegative _ h1;
                    aware_submission = h2;
                    aware_creation = h3;
                    due_fits = due-DueFits _ h4;
                    snapshot = validate-IsSnapshot _ rows h5;
                  }

-- What the constructor returns is valid.
pub post_init-IsValid : (s r : LearnerSubmission) → post_init s ≡ ok r → IsValid r
post_init-IsValid s r h = Ensures-ok IsValid (post_init s) r (post_init-Ensures s) h

-- A valid submission is accepted as it is.
pub post_init_of_IsValid : (s : LearnerSubmission) → IsValid s → post_init s ≡ ok s
unfolding post_init
post_init_of_IsValid s v = simp (
  require_text_of_IsClean invalid_submission _ s.class_ref v.clean_class_ref,
  revision_of_NonNegative _ v.revision,
  v.aware_submission,
  v.aware_creation,
  due_of_DueFits _ v.due_fits,
  (validate_of_IsSnapshot s.response_snapshot v.snapshot).0,
)
