-- ===== src/Learning/Attempt/Validity.antt =====
-- Which attempts exist: the constructor accepts exactly the valid ones as they are, and what it
-- returns is valid.
use mathlib.Core.Path.{subst}
use eduvijna_aieos_backend.Prelude.{
  ◌≤◌, ◌≡◌, refl, Option, none, some, not, true, ok, ok-injective, err-ne-ok, arith, Ensures,
  Ensures-bind, Ensures-ok, Ensures-guard, suc, zero,
}
use eduvijna_aieos_backend.Python.Text.{require_text, require_text-IsClean, require_text_of_IsClean}
use eduvijna_aieos_backend.Python.Scalars.{ℤ, pos, negsuc, Datetime, earlier}
use eduvijna_aieos_backend.Learning.Vocabulary.{
  SubmissionId, AttemptLifecycleState, in_progress, submitted, invalid_attempt,
}
use eduvijna_aieos_backend.Learning.Attempt.{
  LearnerAttempt, IsValid, post_init, require_attempt_number, check_last_saved, check_lifecycle,
  IsPositive, SavedFits, LifecycleFits, max_class_ref_length,
}

number-IsPositive : (n m : ℤ) → require_attempt_number n ≡ ok m → IsPositive m
unfolding require_attempt_number
number-IsPositive (pos zero) m h = absurd (err-ne-ok _ _ h)
number-IsPositive (pos (suc n)) m h = subst IsPositive (ok-injective _ _ h) tt
number-IsPositive (negsuc n) m h = absurd (err-ne-ok _ _ h)

pub number_of_IsPositive : (n : ℤ) → IsPositive n → require_attempt_number n ≡ ok n
unfolding require_attempt_number
number_of_IsPositive (pos zero) h = absurd h
number_of_IsPositive (pos (suc n)) h = refl
number_of_IsPositive (negsuc n) h = absurd h

saved-SavedFits :
    (t : Option Datetime) (s : Datetime) → check_last_saved t s ≡ ok tt → SavedFits t s
saved-SavedFits none s h = tt
saved-SavedFits (some t) s h = (ground arith, ground arith)

pub saved_of_SavedFits :
    (t : Option Datetime) (s : Datetime) → SavedFits t s → check_last_saved t s ≡ ok tt
saved_of_SavedFits none s h = refl
saved_of_SavedFits (some t) s h = ground arith

lifecycle-LifecycleFits :
    (l : AttemptLifecycleState) (t : Option Datetime) (i : Option SubmissionId) (s : Datetime)
    → check_lifecycle l t i s ≡ ok tt
    → LifecycleFits l t i s
lifecycle-LifecycleFits in_progress none none s h = tt
lifecycle-LifecycleFits submitted (some t) (some i) s h = (ground arith, ground arith)
lifecycle-LifecycleFits _ _ _ s h = absurd (err-ne-ok _ _ h)

pub lifecycle_of_LifecycleFits :
    (l : AttemptLifecycleState) (t : Option Datetime) (i : Option SubmissionId) (s : Datetime)
    → LifecycleFits l t i s
    → check_lifecycle l t i s ≡ ok tt
lifecycle_of_LifecycleFits in_progress none none s h = refl
lifecycle_of_LifecycleFits submitted (some t) (some i) s h = ground arith
lifecycle_of_LifecycleFits _ _ _ s h = absurd h

pub post_init-Ensures : (a : LearnerAttempt) → Ensures IsValid (post_init a)
unfolding post_init
post_init-Ensures a =
    Ensures-bind IsValid (require_text invalid_attempt max_class_ref_length a.class_ref) _ λ c hc.
      Ensures-bind IsValid (require_attempt_number a.attempt_number) _ λ n hn.
        Ensures-guard IsValid a.started_at.is_aware invalid_attempt _ λ h1.
          Ensures-guard IsValid a.created_at.is_aware invalid_attempt _ λ h2.
            Ensures-guard IsValid a.updated_at.is_aware invalid_attempt _ λ h3.
              Ensures-guard IsValid (not (earlier a.updated_at a.created_at)) invalid_attempt _
                λ h4.
                  Ensures-bind IsValid (check_last_saved a.last_saved_at a.started_at) _ λ u5 h5.
                    Ensures-bind IsValid
                      (check_lifecycle a.lifecycle_state a.submitted_at a.submission_id
                        a.started_at)
                      _
                      λ u6 h6. record {
                        clean_class_ref = require_text-IsClean _ _ _ c hc;
                        positive_number = number-IsPositive _ n hn;
                        aware_start = h1;
                        aware_creation = h2;
                        aware_update = h3;
                        ordered = ground arith;
                        saved_fits = saved-SavedFits _ _ h5;
                        lifecycle_fits = lifecycle-LifecycleFits _ _ _ _ h6;
                      }

-- What the constructor returns is valid.
pub post_init-IsValid : (a b : LearnerAttempt) → post_init a ≡ ok b → IsValid b
post_init-IsValid a b h = Ensures-ok IsValid (post_init a) b (post_init-Ensures a) h

pub not-earlier : (s t : Datetime) → s.instant ≤ t.instant → not (earlier t s) ≡ true
not-earlier s t h = ground arith

-- A valid attempt is accepted as it is.
pub post_init_of_IsValid : (a : LearnerAttempt) → IsValid a → post_init a ≡ ok a
unfolding post_init
post_init_of_IsValid a v = simp (
  require_text_of_IsClean invalid_attempt _ a.class_ref v.clean_class_ref,
  number_of_IsPositive a.attempt_number v.positive_number,
  v.aware_start,
  v.aware_creation,
  v.aware_update,
  not-earlier a.created_at a.updated_at v.ordered,
  saved_of_SavedFits a.last_saved_at a.started_at v.saved_fits,
  lifecycle_of_LifecycleFits _ _ _ _ v.lifecycle_fits,
)
