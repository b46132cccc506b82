-- ===== src/Assessment/Policy.antt =====
-- evaluation_policy_v1.py: the deterministic evaluator.
pub mod Total
use eduvijna_aieos_backend.Prelude.{
  ℕ, ◌≡◌, Bool, true, false, ◌&&◌, ◌||◌, not, Option, none, some, List, [], ◌∷◌, ◌++◌, map, Result,
  ok, err, ◌>>=◌, if◌then◌else◌,
}
use eduvijna_aieos_backend.Python.Text.{Text, codes, text_eq, text_mem, strip, lower}
use eduvijna_aieos_backend.Python.Sorting.{sort_by}
use eduvijna_aieos_backend.Python.Scalars.{pos, Value, text, boolean, other}
use eduvijna_aieos_backend.Assessment.Vocabulary.{
  Assessment, ItemOutcome, correct, incorrect, unanswered, open_response_unevaluated,
  unevaluated_policy_reject, EvaluationMethod, deterministic_content_answer, no_response,
  open_response_baseline, policy_reject, ObjectiveEvidenceResult, QuestionType, ResponseKind,
  type_value, kind_value,
}
use eduvijna_aieos_backend.Assessment.Questions.{
  EvaluationContentQuestion, EvaluationSubmittedResponse, LearnerAssessmentEvaluationRequest,
}
use eduvijna_aieos_backend.Assessment.Items.{
  LearnerAssessmentEvaluationItem, make_item, LearnerAssessmentObjectiveEvidence, make_evidence,
  EvaluationId, LearnerAssessmentEvaluation, issue,
}
use eduvijna_aieos_backend.Assessment.Answers.{evaluate_question}
use eduvijna_aieos_backend.Assessment.Evidence.{objective_evidence}

abbrev pub policy_id : Text
policy_id = codes "aieos.learner_assessment.deterministic"

abbrev pub policy_version : ℕ
policy_version = 1

-- `responses.get(question_id)` in the dict of the responses: of two to one question the later wins.
unfoldable pub response_for :
    Text → List EvaluationSubmittedResponse → Option EvaluationSubmittedResponse
response_for question_id [] = none
response_for question_id (r ∷ rs) = elim (response_for question_id rs) [
  | some later ↦ some later
  | none ↦ if text_eq r.question_id question_id then some r else none
]

unfoldable pub evaluate_questions :
    List EvaluationSubmittedResponse
    → List EvaluationContentQuestion
    → Assessment (List LearnerAssessmentEvaluationItem)
unfolding evaluate_question
evaluate_questions responses [] = ok []
evaluate_questions responses (q ∷ qs) = do
  item ← evaluate_question q (response_for q.question_id responses)
  items ← evaluate_questions responses qs
  ok (item ∷ items)

-- `DeterministicLearnerAssessmentEvaluatorV1.evaluate`
unfoldable pub evaluate :
    EvaluationId → LearnerAssessmentEvaluationRequest → Assessment LearnerAssessmentEvaluation
unfolding evaluate_questions objective_evidence issue
evaluate generated r = do
  items ← evaluate_questions r.responses r.questions
  evidence ← objective_evidence items
  issue generated r.tenant_id r.learner_principal_id r.submission_id r.attempt_id
      r.teaching_assignment_id r.content_id r.content_version_id r.class_ref policy_id
      (pos policy_version) r.evaluated_at items evidence none
