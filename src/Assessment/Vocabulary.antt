-- ===== src/Assessment/Vocabulary.antt =====
-- errors.py, evaluation_vocabulary.py, lifecycle.py, result.py and the revision of identities.py. An
-- argument that is annotated as an enum is a member of it here, so that its `parse_…` returns it
-- unchanged; question types and response kinds may also be other texts.
use eduvijna_aieos_backend.Prelude.{ℕ, ◌+◌, if◌then◌else◌, [], ◌∷◌, Result, ok, err}
use eduvijna_aieos_backend.Python.Text.{Text, codes, text_eq, strip}
use eduvijna_aieos_backend.Python.Scalars.{ℤ, pos, negsuc}

pub data AssessmentError : Type 0 where
  invalid_identity invalid_revision invalid_classroom invalid_evaluation : AssessmentError

abbrev pub Assessment {ℓ} : Type ℓ → Type ℓ
Assessment A = Result AssessmentError A

pub data ItemOutcome : Type 0 where
  correct incorrect unanswered open_response_unevaluated unevaluated_policy_reject : ItemOutcome

pub data EvaluationMethod : Type 0 where
  deterministic_content_answer no_response open_response_baseline policy_reject : EvaluationMethod

pub data ObjectiveEvidenceResult : Type 0 where
  insufficient_evidence demonstrated mixed not_yet_demonstrated : ObjectiveEvidenceResult

-- `EvaluationQuestionType | str`
pub data QuestionType : Type 0 where
  multiple_choice true_false short_answer : QuestionType
  unlisted : Text → QuestionType

-- `EvaluationResponseKind | str`
pub data ResponseKind : Type 0 where
  multiple_choice true_false short_answer : ResponseKind
  unlisted : Text → ResponseKind

-- `_question_type_value`
unfoldable pub type_value : QuestionType → Text
type_value QuestionType.multiple_choice = codes "multiple_choice"
type_value QuestionType.true_false = codes "true_false"
type_value QuestionType.short_answer = codes "short_answer"
type_value (QuestionType.unlisted t) = t

-- `_response_kind_value`
unfoldable pub kind_value : ResponseKind → Text
kind_value ResponseKind.multiple_choice = codes "MULTIPLE_CHOICE"
kind_value ResponseKind.true_false = codes "TRUE_FALSE"
kind_value ResponseKind.short_answer = codes "SHORT_ANSWER"
kind_value (ResponseKind.unlisted t) = t

-- The member with the code, or the text itself.
abbrev pub listed_type : Text → QuestionType
listed_type t =
    if text_eq t (codes "multiple_choice")
    then QuestionType.multiple_choice
    else if text_eq t (codes "true_false")
    then QuestionType.true_false
    else if text_eq t (codes "short_answer")
    then QuestionType.short_answer
    else QuestionType.unlisted t

abbrev pub listed_kind : Text → ResponseKind
listed_kind t =
    if text_eq t (codes "MULTIPLE_CHOICE")
    then ResponseKind.multiple_choice
    else if text_eq t (codes "TRUE_FALSE")
    then ResponseKind.true_false
    else if text_eq t (codes "SHORT_ANSWER")
    then ResponseKind.short_answer
    else ResponseKind.unlisted t

abbrev pub type_of_stripped : Text → Assessment QuestionType
type_of_stripped [] = err invalid_evaluation
type_of_stripped (c ∷ s) = ok (listed_type (c ∷ s))

abbrev pub kind_of_stripped : Text → Assessment ResponseKind
kind_of_stripped [] = err invalid_evaluation
kind_of_stripped (c ∷ s) = ok (listed_kind (c ∷ s))

unfoldable pub parse_evaluation_question_type : QuestionType → Assessment QuestionType
parse_evaluation_question_type (QuestionType.unlisted t) = type_of_stripped (strip t)
parse_evaluation_question_type QuestionType.multiple_choice = ok QuestionType.multiple_choice
parse_evaluation_question_type QuestionType.true_false = ok QuestionType.true_false
parse_evaluation_question_type QuestionType.short_answer = ok QuestionType.short_answer

unfoldable pub parse_evaluation_response_kind : ResponseKind → Assessment ResponseKind
parse_evaluation_response_kind (ResponseKind.unlisted t) = kind_of_stripped (strip t)
parse_evaluation_response_kind ResponseKind.multiple_choice = ok ResponseKind.multiple_choice
parse_evaluation_response_kind ResponseKind.true_false = ok ResponseKind.true_false
parse_evaluation_response_kind ResponseKind.short_answer = ok ResponseKind.short_answer

pub data AssessmentLifecycleState : Type 0 where
  recorded voided : AssessmentLifecycleState

pub data ClassResultLevel : Type 0 where
  demonstrated mixed not_yet_demonstrated : ClassResultLevel

pub record AggregateRevision : Type 0 where
  pub value : ℕ

unfoldable pub make_revision : ℤ → Assessment AggregateRevision
make_revision (pos n) = ok (record { value = n })
make_revision (negsuc n) = err invalid_revision

unfoldable pub next : AggregateRevision → Assessment AggregateRevision
unfolding make_revision
next r = make_revision (pos (r.value + 1))
