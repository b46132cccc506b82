-- ===== src/Learning/Attempt.antt =====
-- attempt.py: the working attempt of a learner. A method returns the new attempt or its exception;
-- `dataclasses.replace` runs `__post_init__` again, and so does each method here.
pub mod Validity
pub mod Lifecycle
pub mod History
use eduvijna_aieos_backend.Prelude.{
  ℕ, suc, ◌≤◌, ◌≡◌, Bool, true, false, not, Option, none, some, Result, ok, err, ◌>>=◌, ◌>>◌, guard,
}
use eduvijna_aieos_backend.Python.Text.{Text, IsClean, require_text}
use eduvijna_aieos_backend.Python.Scalars.{
  ℤ, pos, negsuc, Uuid, Datetime, IsAware, earlier, require_aware,
}
use eduvijna_aieos_backend.Learning.Vocabulary.{
  Learning, AttemptId, SubmissionId, AggregateRevision, next, AttemptLifecycleState, in_progress,
  submitted, invalid_attempt, already_submitted,
}

abbrev pub max_class_ref_length : ℕ
max_class_ref_length = 512

pub record LearnerAttempt : Type 0 where
  pub attempt_id : AttemptId
  pub tenant_id : Uuid
  pub learner_principal_id : Uuid
  pub teaching_assignment_id : Uuid
  pub content_id : Uuid
  pub content_version_id : Uuid
  pub class_ref : Text
  pub attempt_number : ℤ
  pub lifecycle_state : AttemptLifecycleState
  pub started_at : Datetime
  pub last_saved_at : Option Datetime
  pub submitted_at : Option Datetime
  pub submission_id : Option SubmissionId
  pub aggregate_revision : AggregateRevision
  pub created_at : Datetime
  pub updated_at : Datetime

unfoldable pub require_class_ref : Text → Learning Text
require_class_ref value = require_text invalid_attempt max_class_ref_length value

unfoldable pub require_attempt_number : ℤ → Learning ℤ
require_attempt_number (pos (suc n)) = ok (pos (suc n))
require_attempt_number _ = err invalid_attempt

-- The check of `last_saved_at`, skipped at `None`.
abbrev check_last_saved : Option Datetime → Datetime → Learning (Unit {0})
check_last_saved none started_at = ok tt
check_last_saved (some t) started_at = do
  require_aware invalid_attempt t
  guard (not (earlier t started_at)) invalid_attempt

-- The checks that depend on the lifecycle state.
abbrev check_lifecycle :
    AttemptLifecycleState → Option Datetime → Option SubmissionId → Datetime → Learning (Unit {0})
check_lifecycle in_progress none none started_at = ok tt
check_lifecycle submitted (some t) (some sid) started_at = do
  require_aware invalid_attempt t
  guard (not (earlier t started_at)) invalid_attempt
check_lifecycle _ _ _ started_at = err invalid_attempt

-- `LearnerAttempt.__post_init__`
unfoldable pub post_init : LearnerAttempt → Learning LearnerAttempt
unfolding require_class_ref
post_init a = do
  class_ref ← require_class_ref a.class_ref
  attempt_number ← require_attempt_number a.attempt_number
  require_aware invalid_attempt a.started_at
  require_aware invalid_attempt a.created_at
  require_aware invalid_attempt a.updated_at
  guard (not (earlier a.updated_at a.created_at)) invalid_attempt
  check_last_saved a.last_saved_at a.started_at
  check_lifecycle a.lifecycle_state a.submitted_at a.submission_id a.started_at
  ok (record a { class_ref = class_ref; attempt_number = attempt_number })

abbrev or_generated : Option AttemptId → AttemptId → AttemptId
or_generated none generated = generated
or_generated (some attempt_id) generated = attempt_id

-- `generated` is what `AttemptId.generate()` returns, if it is called.
unfoldable pub start_in_progress :
    (generated : AttemptId)
    (tenant_id learner_principal_id teaching_assignment_id content_id content_version_id : Uuid)
    (class_ref : Text) (started_at : Datetime) (attempt_number : ℤ) (attempt_id : Option AttemptId)
    → Learning LearnerAttempt
start_in_progress generated tenant learner assignment content version class_ref started_at number
      attempt_id =
    do
      require_aware invalid_attempt started_at
      post_init (record {
        attempt_id = or_generated attempt_id generated;
        tenant_id = tenant;
        learner_principal_id = learner;
        teaching_assignment_id = assignment;
        content_id = content;
        content_version_id = version;
        class_ref = class_ref;
        attempt_number = number;
        lifecycle_state = in_progress;
        started_at = started_at;
        last_saved_at = none;
        submitted_at = none;
        submission_id = none;
        aggregate_revision = record { value = 0 };
        created_at = started_at;
        updated_at = started_at;
      })

abbrev pub is_in_progress : AttemptLifecycleState → Bool
is_in_progress in_progress = true
is_in_progress submitted = false

unfoldable pub record_material_response_save : LearnerAttempt → Datetime → Learning LearnerAttempt
unfolding next
record_material_response_save a last_saved_at = do
  guard (is_in_progress a.lifecycle_state) already_submitted
  require_aware invalid_attempt last_saved_at
  guard (not (earlier last_saved_at a.started_at)) invalid_attempt
  revision ← next a.aggregate_revision
  post_init (record a {
    last_saved_at = some last_saved_at;
    aggregate_revision = revision;
    updated_at = last_saved_at;
  })

unfoldable pub bind_submitted_submission :
    LearnerAttempt → SubmissionId → Datetime → Learning LearnerAttempt
unfolding next
bind_submitted_submission a submission_id submitted_at = do
  guard (is_in_progress a.lifecycle_state) already_submitted
  require_aware invalid_attempt submitted_at
  guard (not (earlier submitted_at a.started_at)) invalid_attempt
  revision ← next a.aggregate_revision
  post_init (record a {
    lifecycle_state = submitted;
    submitted_at = some submitted_at;
    submission_id = some submission_id;
    aggregate_revision = revision;
    updated_at = submitted_at;
  })

abbrev pub IsPositive : ℤ → Type 0
IsPositive (pos (suc n)) = Unit
IsPositive _ = ⊥

-- A moment that is not before the start.
abbrev pub NotBefore : Datetime → Datetime → Type 0
NotBefore start t = IsAware t × (start.instant ≤ t.instant)

abbrev pub SavedFits : Option Datetime → Datetime → Type 0
SavedFits none started_at = Unit
SavedFits (some t) started_at = NotBefore started_at t

abbrev pub LifecycleFits :
    AttemptLifecycleState → Option Datetime → Option SubmissionId → Datetime → Type 0
LifecycleFits in_progress none none started_at = Unit
LifecycleFits submitted (some t) (some sid) started_at = NotBefore started_at t
LifecycleFits _ _ _ started_at = ⊥

-- What holds of every attempt that exists.
pub record IsValid (a : LearnerAttempt) : Type 0 where
  pub clean_class_ref : IsClean max_class_ref_length a.class_ref
  pub positive_number : IsPositive a.attempt_number
  pub aware_start : IsAware a.started_at
  pub aware_creation : IsAware a.created_at
  pub aware_update : IsAware a.updated_at
  pub ordered : a.created_at.instant ≤ a.updated_at.instant
  pub saved_fits : SavedFits a.last_saved_at a.started_at
  pub lifecycle_fits : LifecycleFits a.lifecycle_state a.submitted_at a.submission_id a.started_at
