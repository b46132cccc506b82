-- ===== src/Assessment/Examples.antt =====
-- A choice and a statement with one response: the properties at these concrete values.
use eduvijna_aieos_backend.Prelude.{
  ℕ, ◌≡◌, refl, ◌↔◌, true, none, some, List, [], ◌∷◌, ok, err, arith, All,
}
use eduvijna_aieos_backend.Python.Text.{codes, IsClean, strip, text_mem, text_eq, require_text}
use eduvijna_aieos_backend.Python.Scalars.{Datetime, text}
use eduvijna_aieos_backend.Assessment.Vocabulary.{
  QuestionType, ResponseKind, correct, incorrect, ClassResultLevel, recorded, invalid_classroom,
  parse_evaluation_question_type, parse_evaluation_response_kind, type_value, kind_value,
}
use eduvijna_aieos_backend.Assessment.Objectives.{
  AreObjectives, require_objective_ids, collect_objective_ids,
}
use eduvijna_aieos_backend.Assessment.Questions.{
  EvaluationContentQuestion, EvaluationSubmittedResponse, LearnerAssessmentEvaluationRequest,
  IsValidQuestion, IsValidResponse, IsValidRequest, make_request, make_question, make_response,
  require_options, check_questions, check_responses,
}
use eduvijna_aieos_backend.Assessment.Questions.Validity.{
  make_question-IsValid, make_response-IsValid,
}
use eduvijna_aieos_backend.Assessment.Questions.Requests.{make_request-IsValid}
use eduvijna_aieos_backend.Assessment.Items.{
  EvaluationId, LearnerAssessmentEvaluation, LearnerAssessmentEvaluationItem,
  LearnerAssessmentObjectiveEvidence,
}
use eduvijna_aieos_backend.Assessment.Answers.{item_with, compatible, evaluate_question}
use eduvijna_aieos_backend.Assessment.Answers.Outcomes.{item_of}
use eduvijna_aieos_backend.Assessment.Answers.Correct.{Agrees, evaluate_question-correct}
use eduvijna_aieos_backend.Assessment.Evidence.{objective_evidence, group_outcomes, outcomes_at}
use eduvijna_aieos_backend.Assessment.Evidence.Rollup.{RollupFacts, rollup-RollupFacts}
use eduvijna_aieos_backend.Assessment.Evidence.Grouping.{outcomes_for, outcomes_at-group_outcomes}
use eduvijna_aieos_backend.Assessment.Evidence.Rows.{IsEvidence, objective_evidence-IsEvidence}
use eduvijna_aieos_backend.Assessment.Policy.{evaluate}
use eduvijna_aieos_backend.Assessment.Policy.Total.{IsEvaluationOf, evaluate-IsEvaluationOf}
use eduvijna_aieos_backend.Assessment.Classroom
use eduvijna_aieos_backend.Assessment.Classroom.{optional_note}
use eduvijna_aieos_backend.Assessment.Classroom.Validity.{construct_of_IsValid}
use eduvijna_aieos_backend.Assessment.Classroom.Lifecycle.{
  Step, annulment, Step-IsValid, corrected, annulled, correct_recorded, void_recorded,
}

abbrev choice : EvaluationContentQuestion
choice = record {
  question_id = codes "q1";
  question_type = QuestionType.multiple_choice;
  options = codes "A" ∷ codes "B" ∷ [];
  answer = codes "A";
  objective_ids = codes "o1" ∷ [];
}

abbrev statement : EvaluationContentQuestion
statement = record {
  question_id = codes "q2";
  question_type = QuestionType.true_false;
  options = [];
  answer = codes "True";
  objective_ids = codes "o1" ∷ codes "o2" ∷ [];
}

abbrev response : EvaluationSubmittedResponse
response = record {
  question_id = codes "q1";
  response_kind = ResponseKind.multiple_choice;
  value = text (codes "A");
}

abbrev request : LearnerAssessmentEvaluationRequest
request = record {
  tenant_id = 1;
  learner_principal_id = 2;
  submission_id = 21;
  attempt_id = 11;
  teaching_assignment_id = 3;
  content_id = 4;
  content_version_id = 5;
  class_ref = codes "6A";
  questions = choice ∷ statement ∷ [];
  responses = response ∷ [];
  evaluated_at = record { is_aware = true; instant = 500 };
}

choice-made : make_question choice ≡ ok choice
choice-made =
    unfold make_question require_text require_options require_objective_ids collect_objective_ids
      parse_evaluation_question_type type_value strip text_mem text_eq in
    refl

statement-made : make_question statement ≡ ok statement
statement-made =
    unfold make_question require_text require_options require_objective_ids collect_objective_ids
      parse_evaluation_question_type type_value strip text_mem text_eq in
    refl

response-made : make_response response ≡ ok response
response-made =
    unfold make_response require_text parse_evaluation_response_kind kind_value strip in refl

request-made : make_request request ≡ ok request
request-made =
    unfold make_request require_text check_questions check_responses strip text_mem text_eq in refl

make_question-IsValid_example : IsValidQuestion choice
make_question-IsValid_example = make_question-IsValid choice choice choice-made

make_response-IsValid_example : IsValidResponse response
make_response-IsValid_example = make_response-IsValid response response response-made

valid_questions : All IsValidQuestion (choice ∷ statement ∷ [])
valid_questions = (
  make_question-IsValid choice choice choice-made,
  (make_question-IsValid statement statement statement-made, tt),
)

valid_responses : All IsValidResponse (response ∷ [])
valid_responses = (make_response-IsValid response response response-made, tt)

make_request-IsValid_example : IsValidRequest request
make_request-IsValid_example =
    make_request-IsValid request request valid_questions valid_responses request-made

abbrev evaluation_id : EvaluationId
evaluation_id = record { value = 31 }

evaluate-IsEvaluationOf_example :
    (e : LearnerAssessmentEvaluation) × (evaluate evaluation_id request ≡ ok e)
    × IsEvaluationOf evaluation_id request e
evaluate-IsEvaluationOf_example =
    evaluate-IsEvaluationOf evaluation_id request
      (make_request-IsValid request request valid_questions valid_responses request-made)

evaluate_question-correct_example :
    (i : LearnerAssessmentEvaluationItem) × (evaluate_question choice (some response) ≡ ok i)
    × ((i.outcome ≡ correct) ↔ (
        (compatible choice.question_type response.response_kind ≡ true)
        × Agrees choice.question_type response.value choice.options choice.answer))
evaluate_question-correct_example =
    evaluate_question-correct choice response (make_question-IsValid choice choice choice-made)
      (make_response-IsValid response response response-made)

abbrev items : List LearnerAssessmentEvaluationItem
items = item_of choice (some response) ∷ item_of statement none ∷ []

items-HaveObjectives :
    All (λ (i : LearnerAssessmentEvaluationItem). AreObjectives i.objective_ids) items
items-HaveObjectives =
    unfold item_with in (valid_questions.0.objectives, (valid_questions.1.0.objectives, tt))

objective_evidence-IsEvidence_example :
    (rows : List LearnerAssessmentObjectiveEvidence) × (objective_evidence items ≡ ok rows)
    × IsEvidence items rows
objective_evidence-IsEvidence_example = objective_evidence-IsEvidence items items-HaveObjectives

outcomes_at-group_outcomes_example :
    outcomes_at (codes "o1") (group_outcomes items []) ≡ outcomes_for (codes "o1") items
outcomes_at-group_outcomes_example =
    outcomes_at-group_outcomes (codes "o1") items items-HaveObjectives

rollup-RollupFacts_example : RollupFacts (correct ∷ incorrect ∷ [])
rollup-RollupFacts_example = rollup-RollupFacts (correct ∷ incorrect ∷ [])

abbrev at : ℕ → Datetime
at n = record { is_aware = true; instant = n }

abbrev judgement : Classroom.ClassroomAssessment
judgement = record {
  assessment_id = record { value = 41 };
  tenant_id = 1;
  teacher_principal_id = 6;
  class_ref = codes "6A";
  content_id = 4;
  content_version_id = 5;
  class_result_level = ClassResultLevel.mixed;
  class_result_note = some (codes "fractions");
  lifecycle_state = recorded;
  work_id = none;
  execution_id = none;
  assignment_id = none;
  aggregate_revision = record { value = 0 };
  recorded_at = at 100;
  voided_at = none;
  created_at = at 100;
  updated_at = at 100;
}

class_ref-IsClean : IsClean 512 (codes "6A")
class_ref-IsClean =
    unfold strip in record { stripped = refl; non_empty = λ h. cc; bounded = omega arith }

note-IsClean : IsClean 4096 (codes "fractions")
note-IsClean =
    unfold strip in record { stripped = refl; non_empty = λ h. cc; bounded = omega arith }

judgement-IsValid : Classroom.IsValid judgement
judgement-IsValid = record {
  clean_class_ref = class_ref-IsClean;
  note_fits = note-IsClean;
  aware_record = refl;
  aware_creation = refl;
  aware_update = refl;
  ordered = omega arith;
  void_fits = tt;
}

construct_of_IsValid_example : Classroom.construct judgement ≡ ok judgement
construct_of_IsValid_example = construct_of_IsValid judgement judgement-IsValid

correct_recorded_example :
    Classroom.correct judgement ClassResultLevel.demonstrated none (at 200)
    ≡ ok (corrected judgement ClassResultLevel.demonstrated none (at 200))
correct_recorded_example =
    unfold optional_note in
    correct_recorded judgement ClassResultLevel.demonstrated none (at 200) judgement-IsValid refl

void_recorded_example : Classroom.void judgement (at 50) ≡ err invalid_classroom
void_recorded_example = void_recorded judgement (at 50) judgement-IsValid refl

annulled-Step : Step judgement (annulled judgement (at 200))
annulled-Step = annulment (at 200) (void_recorded judgement (at 200) judgement-IsValid refl)

Step-IsValid_example : Classroom.IsValid (annulled judgement (at 200))
Step-IsValid_example = Step-IsValid judgement (annulled judgement (at 200)) annulled-Step
