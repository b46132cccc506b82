-- ===== src/Assessment/Questions.antt =====
-- evaluation_input.py: the questions of the exact content version, the responses of the snapshot,
-- and the request that joins them.
pub mod Validity
pub mod Requests
use eduvijna_aieos_backend.Prelude.{
  ℕ, ◌≤◌, ◌≡◌, ◌≢◌, Bool, true, false, not, List, [], ◌∷◌, map, Result, ok, err, ◌>>=◌, ◌>>◌, guard,
  leb, length, All,
}
use eduvijna_aieos_backend.Python.Text.{Text, IsClean, require_text, strip, text_mem, codes}
use eduvijna_aieos_backend.Python.Sorting.{HasDistinct}
use eduvijna_aieos_backend.Python.Scalars.{
  Uuid, Datetime, IsAware, Value, text, boolean, other, require_aware,
}
use eduvijna_aieos_backend.Assessment.Vocabulary.{
  Assessment, QuestionType, ResponseKind, type_value, kind_value, parse_evaluation_question_type,
  parse_evaluation_response_kind, invalid_evaluation,
}
use eduvijna_aieos_backend.Assessment.Objectives.{require_objective_ids, AreObjectives}

abbrev pub max_class_ref_length : ℕ
max_class_ref_length = 512

abbrev pub max_question_id_length : ℕ
max_question_id_length = 128

abbrev pub max_option_length : ℕ
max_option_length = 256

abbrev pub max_answer_length : ℕ
max_answer_length = 4096

abbrev pub max_question_type_length : ℕ
max_question_type_length = 64

abbrev pub max_response_kind_length : ℕ
max_response_kind_length = 64

unfoldable pub require_options : List Text → Assessment (List Text)
require_options [] = ok []
require_options (item ∷ items) = do
  option ← require_text invalid_evaluation max_option_length item
  rest ← require_options items
  ok (option ∷ rest)

pub record EvaluationContentQuestion : Type 0 where
  pub question_id : Text
  pub question_type : QuestionType
  pub options : List Text
  pub answer : Text
  pub objective_ids : List Text

-- `EvaluationContentQuestion.__post_init__`
unfoldable pub make_question : EvaluationContentQuestion → Assessment EvaluationContentQuestion
make_question q = do
  question_id ← require_text invalid_evaluation max_question_id_length q.question_id
  question_type ← parse_evaluation_question_type q.question_type
  guard (leb (length (type_value question_type)) max_question_type_length) invalid_evaluation
  options ← require_options q.options
  guard (leb (length q.answer) max_answer_length) invalid_evaluation
  objective_ids ← require_objective_ids q.objective_ids
  ok (record {
    question_id = question_id;
    question_type = question_type;
    options = options;
    answer = strip q.answer;
    objective_ids = objective_ids;
  })

pub record EvaluationSubmittedResponse : Type 0 where
  pub question_id : Text
  pub response_kind : ResponseKind
  pub value : Value

abbrev require_response_value : Value → Assessment Value
require_response_value (boolean b) = ok (boolean b)
require_response_value (text t) = do
  stripped ← require_text invalid_evaluation max_answer_length t
  ok (text stripped)
require_response_value other = err invalid_evaluation

-- `EvaluationSubmittedResponse.__post_init__`
unfoldable pub make_response : EvaluationSubmittedResponse → Assessment EvaluationSubmittedResponse
make_response r = do
  question_id ← require_text invalid_evaluation max_question_id_length r.question_id
  response_kind ← parse_evaluation_response_kind r.response_kind
  guard (leb (length (kind_value response_kind)) max_response_kind_length) invalid_evaluation
  value ← require_response_value r.value
  ok (record { question_id = question_id; response_kind = response_kind; value = value })

pub record LearnerAssessmentEvaluationRequest : Type 0 where
  pub tenant_id : Uuid
  pub learner_principal_id : Uuid
  pub submission_id : Uuid
  pub attempt_id : Uuid
  pub teaching_assignment_id : Uuid
  pub content_id : Uuid
  pub content_version_id : Uuid
  pub class_ref : Text
  pub questions : List EvaluationContentQuestion
  pub responses : List EvaluationSubmittedResponse
  pub evaluated_at : Datetime

-- The loop over the questions, with its `seen_questions` set.
unfoldable pub check_questions : List Text → List EvaluationContentQuestion → Assessment (Unit {0})
check_questions seen [] = ok tt
check_questions seen (q ∷ qs) = do
  guard (not (text_mem q.question_id seen)) invalid_evaluation
  check_questions (q.question_id ∷ seen) qs

-- The loop over the responses: no question twice, and only questions of the version.
unfoldable pub check_responses :
    List Text → List Text → List EvaluationSubmittedResponse → Assessment (Unit {0})
check_responses questions seen [] = ok tt
check_responses questions seen (r ∷ rs) = do
  guard (not (text_mem r.question_id seen)) invalid_evaluation
  guard (text_mem r.question_id questions) invalid_evaluation
  check_responses questions (r.question_id ∷ seen) rs

-- `LearnerAssessmentEvaluationRequest.__post_init__`, of questions and responses that exist.
unfoldable pub make_request :
    LearnerAssessmentEvaluationRequest → Assessment LearnerAssessmentEvaluationRequest
unfolding check_questions check_responses
make_request r = do
  class_ref ← require_text invalid_evaluation max_class_ref_length r.class_ref
  require_aware invalid_evaluation r.evaluated_at
  check_questions [] r.questions
  check_responses (map (λ (q : EvaluationContentQuestion). q.question_id) r.questions) []
      r.responses
  ok (record r { class_ref = class_ref })

-- The text of a question type that is kept: one that is parsed to the same type.
abbrev pub TypeFits : QuestionType → Type 0
TypeFits t =
    (parse_evaluation_question_type (QuestionType.unlisted (type_value t)) ≡ ok t)
    × (length (type_value t) ≤ max_question_type_length)

abbrev pub KindFits : ResponseKind → Type 0
KindFits k =
    (parse_evaluation_response_kind (ResponseKind.unlisted (kind_value k)) ≡ ok k)
    × (length (kind_value k) ≤ max_response_kind_length)

-- What holds of every question that exists.
pub record IsValidQuestion (q : EvaluationContentQuestion) : Type 0 where
  pub clean_id : IsClean max_question_id_length q.question_id
  pub type_fits : TypeFits q.question_type
  pub clean_options : All (IsClean max_option_length) q.options
  pub stripped_answer : strip q.answer ≡ q.answer
  pub objectives : AreObjectives q.objective_ids

abbrev pub ResponseValueFits : Value → Type 0
ResponseValueFits (boolean b) = Unit
ResponseValueFits (text t) = IsClean max_answer_length t
ResponseValueFits other = ⊥

-- What holds of every response that exists.
pub record IsValidResponse (r : EvaluationSubmittedResponse) : Type 0 where
  pub clean_id : IsClean max_question_id_length r.question_id
  pub kind_fits : KindFits r.response_kind
  pub value_fits : ResponseValueFits r.value

-- What holds of every request that exists.
pub record IsValidRequest (r : LearnerAssessmentEvaluationRequest) : Type 0 where
  pub clean_class_ref : IsClean max_class_ref_length r.class_ref
  pub aware : IsAware r.evaluated_at
  pub valid_questions : All IsValidQuestion r.questions
  pub valid_responses : All IsValidResponse r.responses
  pub distinct_questions :
      HasDistinct (λ (q : EvaluationContentQuestion). q.question_id) r.questions
  pub distinct_responses :
      HasDistinct (λ (s : EvaluationSubmittedResponse). s.question_id) r.responses
  pub known_questions :
      All
        (λ (s : EvaluationSubmittedResponse).
          text_mem s.question_id
            (map (λ (q : EvaluationContentQuestion). q.question_id) r.questions)
          ≡ true)
        r.responses
