-- ===== src/Learning/Attempt/Lifecycle.antt =====
-- What the methods of an attempt do on every branch.
use eduvijna_aieos_backend.Prelude.{
  ◌+◌, ◌≡◌, some, Bool, not, ◌&&◌, true, ok, err, arith, if◌then◌else◌, Bool-cases, inl, inr, ap,
}
use eduvijna_aieos_backend.Python.Text.{require_text_of_IsClean}
use eduvijna_aieos_backend.Python.Scalars.{Datetime, IsAware, earlier}
use eduvijna_aieos_backend.Learning.Vocabulary.{
  SubmissionId, AggregateRevision, in_progress, submitted, invalid_attempt,
}
use eduvijna_aieos_backend.Learning.Attempt.{
  LearnerAttempt, IsValid, post_init, record_material_response_save, bind_submitted_submission,
  is_in_progress,
}
use eduvijna_aieos_backend.Learning.Attempt.Validity.{
  number_of_IsPositive, saved_of_SavedFits, lifecycle_of_LifecycleFits,
}

-- The moments that a method accepts as its timestamp.
abbrev pub admits : LearnerAttempt → Datetime → Bool
admits a t = t.is_aware && not (earlier t a.started_at) && not (earlier t a.created_at)

abbrev bumped : LearnerAttempt → AggregateRevision
bumped a = record { value = a.aggregate_revision.value + 1 }

-- The attempt after a save.
abbrev pub saved : LearnerAttempt → Datetime → LearnerAttempt
saved a t = record a { last_saved_at = some t; aggregate_revision = bumped a; updated_at = t }

-- The attempt after its submission.
abbrev pub bound : LearnerAttempt → SubmissionId → Datetime → LearnerAttempt
bound a sid t = record a {
  lifecycle_state = submitted;
  submitted_at = some t;
  submission_id = some sid;
  aggregate_revision = bumped a;
  updated_at = t;
}

-- The constructor on a valid attempt whose `updated_at` is replaced.
post_init_touched :
    (a : LearnerAttempt) (t : Datetime)
    → IsValid a
    → IsAware t
    → post_init (record a { updated_at = t }) ≡ (
        if not (earlier t a.created_at)
        then ok (record a { updated_at = t })
        else err invalid_attempt)
unfolding post_init
post_init_touched a t v aware =
    simp
      (
        require_text_of_IsClean invalid_attempt _ a.class_ref v.clean_class_ref,
        number_of_IsPositive a.attempt_number v.positive_number,
        v.aware_start,
        v.aware_creation,
        aware,
      )
      (elim (Bool-cases (not (earlier t a.created_at))) [
        | inl e ↦ simp (
          e,
          saved_of_SavedFits a.last_saved_at a.started_at v.saved_fits,
          lifecycle_of_LifecycleFits _ _ _ _ v.lifecycle_fits,
        )
        | inr e ↦ simp e
      ])

saved-IsValid :
    (a : LearnerAttempt) (t : Datetime)
    → IsValid a
    → IsAware t
    → not (earlier t a.started_at) ≡ true
    → IsValid (record a { last_saved_at = some t; aggregate_revision = bumped a })
saved-IsValid a t v aware late = record {
  clean_class_ref = v.clean_class_ref;
  positive_number = v.positive_number;
  aware_start = v.aware_start;
  aware_creation = v.aware_creation;
  aware_update = v.aware_update;
  ordered = v.ordered;
  saved_fits = (aware, ground arith);
  lifecycle_fits = v.lifecycle_fits;
}

bound-IsValid :
    (a : LearnerAttempt) (sid : SubmissionId) (t : Datetime)
    → IsValid a
    → IsAware t
    → not (earlier t a.started_at) ≡ true
    → IsValid (record a {
      lifecycle_state = submitted;
      submitted_at = some t;
      submission_id = some sid;
      aggregate_revision = bumped a;
    })
bound-IsValid a sid t v aware late = record {
  clean_class_ref = v.clean_class_ref;
  positive_number = v.positive_number;
  aware_start = v.aware_start;
  aware_creation = v.aware_creation;
  aware_update = v.aware_update;
  ordered = v.ordered;
  saved_fits = v.saved_fits;
  lifecycle_fits = (aware, ground arith);
}

-- A working attempt is saved at an aware moment that is neither before its start nor before its
-- creation, which changes `last_saved_at`, `updated_at` and the revision, by one; any other moment
-- raises.
pub save_working :
    (a : LearnerAttempt) (t : Datetime)
    → IsValid a
    → a.lifecycle_state ≡ in_progress
    → record_material_response_save a t
      ≡ (if admits a t then ok (saved a t) else err invalid_attempt)
unfolding record_material_response_save
save_working a t v working = simp (ap is_in_progress working) (elim (Bool-cases t.is_aware) [
  | inr e ↦ simp e
  | inl e ↦ simp e (elim (Bool-cases (not (earlier t a.started_at))) [
    | inr f ↦ simp f
    | inl f ↦ simp f (post_init_touched _ t (saved-IsValid a t v e f) e)
  ])
])

-- A working attempt is submitted at an aware moment that is neither before its start nor before its
-- creation, which sets the state, the two submission fields, `updated_at` and the revision, by one;
-- any other moment raises.
pub bind_working :
    (a : LearnerAttempt) (sid : SubmissionId) (t : Datetime)
    → IsValid a
    → a.lifecycle_state ≡ in_progress
    → bind_submitted_submission a sid t
      ≡ (if admits a t then ok (bound a sid t) else err invalid_attempt)
unfolding bind_submitted_submission
bind_working a sid t v working = simp (ap is_in_progress working) (elim (Bool-cases t.is_aware) [
  | inr e ↦ simp e
  | inl e ↦ simp e (elim (Bool-cases (not (earlier t a.started_at))) [
    | inr f ↦ simp f
    | inl f ↦ simp f (post_init_touched _ t (bound-IsValid a sid t v e f) e)
  ])
])
