-- ===== src/Learning/Vocabulary.antt =====
-- errors.py, lifecycle.py, response_kind.py and identities.py of the Learning domain. An argument
-- that is annotated as an enum is a member of it here, so that its `parse_…` returns it unchanged.
use eduvijna_aieos_backend.Prelude.{
  ℕ, ◌+◌, ◌≡◌, refl, none, some, ◌==◌, if◌then◌else◌, Result, ok, err, ◌>>=◌,
}
use eduvijna_aieos_backend.Python.Text.{Text, codes, text_eq}
use eduvijna_aieos_backend.Python.Scalars.{
  ℤ, pos, negsuc, Uuid, version, Value, text, boolean, other,
}

-- The exceptions; the last two are Python's own.
pub data LearningError : Type 0 where
  invalid_identity invalid_revision invalid_attempt already_submitted invalid_response
        invalid_submission assertion_error key_error :
      LearningError

abbrev pub Learning {ℓ} : Type ℓ → Type ℓ
Learning A = Result LearningError A

pub data AttemptLifecycleState : Type 0 where
  in_progress submitted : AttemptLifecycleState

unfoldable pub parse_attempt_lifecycle_state : Value → Learning AttemptLifecycleState
parse_attempt_lifecycle_state (text t) =
    if text_eq t (codes "IN_PROGRESS")
    then ok in_progress
    else if text_eq t (codes "SUBMITTED")
    then ok submitted
    else err invalid_attempt
parse_attempt_lifecycle_state (boolean b) = err invalid_attempt
parse_attempt_lifecycle_state other = err invalid_attempt

pub data AttemptResponseKind : Type 0 where
  multiple_choice short_answer true_false : AttemptResponseKind

-- `AttemptResponseKind.value`
unfoldable pub kind_value : AttemptResponseKind → Text
kind_value multiple_choice = codes "MULTIPLE_CHOICE"
kind_value short_answer = codes "SHORT_ANSWER"
kind_value true_false = codes "TRUE_FALSE"

-- An argument that may be a member of the enum or any other value.
pub data KindArgument : Type 0 where
  member : AttemptResponseKind → KindArgument
  raw : Value → KindArgument

unfoldable pub parse_attempt_response_kind : KindArgument → Learning AttemptResponseKind
unfolding kind_value
parse_attempt_response_kind (member kind) = ok kind
parse_attempt_response_kind (raw (text t)) =
    if text_eq t (kind_value multiple_choice)
    then ok multiple_choice
    else if text_eq t (kind_value short_answer)
    then ok short_answer
    else if text_eq t (kind_value true_false)
    then ok true_false
    else err invalid_response
parse_attempt_response_kind (raw (boolean b)) = err invalid_response
parse_attempt_response_kind (raw other) = err invalid_response

-- The code of a kind is parsed back to it.
pub parse_kind-kind_value :
    (kind : AttemptResponseKind)
    → parse_attempt_response_kind (raw (text (kind_value kind))) ≡ ok kind
unfolding parse_attempt_response_kind text_eq
parse_kind-kind_value multiple_choice = refl
parse_kind-kind_value short_answer = refl
parse_kind-kind_value true_false = refl

pub record AttemptId : Type 0 where
  pub value : Uuid

pub record SubmissionId : Type 0 where
  pub value : Uuid

-- `_require_uuid7` of a `UUID`
unfoldable pub require_uuid7 : Uuid → Learning Uuid
unfolding version
require_uuid7 value = elim (version value) [
  | none ↦ err invalid_identity
  | some v ↦ if v == 7 then ok value else err invalid_identity
]

unfoldable pub make_attempt_id : Uuid → Learning AttemptId
make_attempt_id u = do value ← require_uuid7 u; ok (record { value = value })

unfoldable pub make_submission_id : Uuid → Learning SubmissionId
make_submission_id u = do value ← require_uuid7 u; ok (record { value = value })

pub record AggregateRevision : Type 0 where
  pub value : ℕ

unfoldable pub make_revision : ℤ → Learning AggregateRevision
make_revision (pos n) = ok (record { value = n })
make_revision (negsuc n) = err invalid_revision

unfoldable pub next : AggregateRevision → Learning AggregateRevision
unfolding make_revision
next r = make_revision (pos (r.value + 1))
