-- ===== src/Assessment/Answers.antt =====
-- evaluation_policy_v1.py: the evaluation of one question with its response, if there is one.
pub mod Outcomes
pub mod Correct
use eduvijna_aieos_backend.Prelude.{
  ℕ, ◌≡◌, Bool, true, false, ◌&&◌, ◌||◌, not, Option, none, some, List, [], ◌∷◌, ◌++◌, map, Result,
  ok, err, ◌>>=◌, if◌then◌else◌,
}
use eduvijna_aieos_backend.Python.Text.{Text, codes, text_eq, text_mem, strip, lower}
use eduvijna_aieos_backend.Python.Sorting.{sort_by}
use eduvijna_aieos_backend.Python.Scalars.{pos, Value, text, boolean, other}
use eduvijna_aieos_backend.Assessment.Vocabulary.{
  Assessment, ItemOutcome, correct, incorrect, unanswered, open_response_unevaluated,
  unevaluated_policy_reject, EvaluationMethod, deterministic_content_answer, no_response,
  open_response_baseline, policy_reject, ObjectiveEvidenceResult, QuestionType, ResponseKind,
  type_value, kind_value,
}
use eduvijna_aieos_backend.Assessment.Questions.{
  EvaluationContentQuestion, EvaluationSubmittedResponse, LearnerAssessmentEvaluationRequest,
}
use eduvijna_aieos_backend.Assessment.Items.{
  LearnerAssessmentEvaluationItem, make_item, LearnerAssessmentObjectiveEvidence, make_evidence,
  EvaluationId, LearnerAssessmentEvaluation, issue,
}

-- An item for a response to the question, with its outcome and method.
unfoldable pub item_with :
    EvaluationContentQuestion
    → Option Text
    → ItemOutcome
    → EvaluationMethod
    → LearnerAssessmentEvaluationItem
item_with q kind outcome method = record {
  question_id = q.question_id;
  question_type = type_value q.question_type;
  outcome = outcome;
  evaluation_method = method;
  objective_ids = q.objective_ids;
  response_kind = kind;
}

unfoldable pub reject_by_policy :
    EvaluationContentQuestion
    → EvaluationSubmittedResponse
    → Assessment LearnerAssessmentEvaluationItem
unfolding item_with
reject_by_policy q r =
    make_item
      (item_with q (some (kind_value r.response_kind)) unevaluated_policy_reject policy_reject)

unfoldable pub leave_unanswered :
    EvaluationContentQuestion → Assessment LearnerAssessmentEvaluationItem
unfolding item_with
leave_unanswered q = make_item (item_with q none unanswered no_response)

-- `QUESTION_TYPE_TO_RESPONSE_KIND`, and whether the kind is the expected one: by identity, or as an
-- equal text.
abbrev pub compatible : QuestionType → ResponseKind → Bool
compatible QuestionType.multiple_choice ResponseKind.multiple_choice = true
compatible QuestionType.true_false ResponseKind.true_false = true
compatible QuestionType.short_answer ResponseKind.short_answer = true
compatible QuestionType.multiple_choice (ResponseKind.unlisted t) =
    text_eq t (kind_value ResponseKind.multiple_choice)
compatible QuestionType.true_false (ResponseKind.unlisted t) =
    text_eq t (kind_value ResponseKind.true_false)
compatible QuestionType.short_answer (ResponseKind.unlisted t) =
    text_eq t (kind_value ResponseKind.short_answer)
compatible _ _ = false

unfoldable pub kinds_compatible : EvaluationContentQuestion → EvaluationSubmittedResponse → Bool
kinds_compatible q r = compatible q.question_type r.response_kind

abbrev evaluated :
    EvaluationContentQuestion
    → EvaluationSubmittedResponse
    → ItemOutcome
    → EvaluationMethod
    → Assessment LearnerAssessmentEvaluationItem
evaluated q r outcome method =
    make_item (item_with q (some (kind_value r.response_kind)) outcome method)

-- `_evaluate_multiple_choice` on the value of the response.
abbrev pub choice_evaluated :
    Value
    → EvaluationContentQuestion
    → EvaluationSubmittedResponse
    → Assessment LearnerAssessmentEvaluationItem
choice_evaluated (text t) q r =
    if not (text_mem t q.options)
    then reject_by_policy q r
    else if not (text_mem q.answer q.options)
    then reject_by_policy q r
    else evaluated q r (if text_eq t q.answer then correct else incorrect)
        deterministic_content_answer
choice_evaluated _ q r = reject_by_policy q r

unfoldable pub evaluate_multiple_choice :
    EvaluationContentQuestion
    → EvaluationSubmittedResponse
    → Assessment LearnerAssessmentEvaluationItem
unfolding reject_by_policy
evaluate_multiple_choice q r = choice_evaluated r.value q r

-- `_TRUE_FALSE_CONTENT_ANSWERS.get(…)`
abbrev pub true_false_content_answer : Text → Option Bool
true_false_content_answer t =
    if text_eq t (codes "true")
    then some true
    else if text_eq t (codes "false")
    then some false
    else none

abbrev pub same_bool : Bool → Bool → Bool
same_bool true b = b
same_bool false b = not b

-- `_evaluate_true_false` on a value of the response and the answer that the content has, if it has.
abbrev pub boolean_evaluated :
    Value
    → Option Bool
    → EvaluationContentQuestion
    → EvaluationSubmittedResponse
    → Assessment LearnerAssessmentEvaluationItem
boolean_evaluated (boolean b) (some expected) q r =
    evaluated q r (if same_bool b expected then correct else incorrect) deterministic_content_answer
boolean_evaluated _ _ q r = reject_by_policy q r

unfoldable pub evaluate_true_false :
    EvaluationContentQuestion
    → EvaluationSubmittedResponse
    → Assessment LearnerAssessmentEvaluationItem
unfolding reject_by_policy
evaluate_true_false q r =
    boolean_evaluated r.value (true_false_content_answer (lower (strip q.answer))) q r

-- `_evaluate_short_answer` on the value of the response.
abbrev pub text_evaluated :
    Value
    → EvaluationContentQuestion
    → EvaluationSubmittedResponse
    → Assessment LearnerAssessmentEvaluationItem
text_evaluated (text t) q r = evaluated q r open_response_unevaluated open_response_baseline
text_evaluated _ q r = reject_by_policy q r

unfoldable pub evaluate_short_answer :
    EvaluationContentQuestion
    → EvaluationSubmittedResponse
    → Assessment LearnerAssessmentEvaluationItem
unfolding reject_by_policy
evaluate_short_answer q r = text_evaluated r.value q r

-- The dispatch of `_evaluate_question` on the type of the question.
abbrev pub evaluate_by_type :
    QuestionType
    → EvaluationContentQuestion
    → EvaluationSubmittedResponse
    → Assessment LearnerAssessmentEvaluationItem
evaluate_by_type QuestionType.multiple_choice q r = evaluate_multiple_choice q r
evaluate_by_type QuestionType.true_false q r = evaluate_true_false q r
evaluate_by_type QuestionType.short_answer q r = evaluate_short_answer q r
evaluate_by_type (QuestionType.unlisted t) q r = reject_by_policy q r

unfoldable pub evaluate_question :
    EvaluationContentQuestion
    → Option EvaluationSubmittedResponse
    → Assessment LearnerAssessmentEvaluationItem
unfolding leave_unanswered kinds_compatible reject_by_policy evaluate_multiple_choice
    evaluate_true_false evaluate_short_answer
evaluate_question q none = leave_unanswered q
evaluate_question q (some r) =
    if not (kinds_compatible q r)
    then reject_by_policy q r
    else evaluate_by_type q.question_type q r
