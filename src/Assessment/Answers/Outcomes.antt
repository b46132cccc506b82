-- ===== src/Assessment/Answers/Outcomes.antt =====
-- The evaluation of a question never raises, and what each outcome means.
use eduvijna_aieos_backend.Prelude.{
  ◌≡◌, refl, inl, inr, Bool, true, false, not, Option, none, some, List, ok, if◌then◌else◌,
  Bool-cases,
}
use eduvijna_aieos_backend.Python.Text.{Text, text_eq, text_mem, strip, lower}
use eduvijna_aieos_backend.Python.Scalars.{Value, text, boolean, other}
use eduvijna_aieos_backend.Assessment.Vocabulary.{
  ItemOutcome, correct, incorrect, unanswered, open_response_unevaluated, unevaluated_policy_reject,
  EvaluationMethod, deterministic_content_answer, no_response, open_response_baseline,
  policy_reject, QuestionType, kind_value,
}
use eduvijna_aieos_backend.Assessment.Questions.{
  EvaluationContentQuestion, EvaluationSubmittedResponse, IsValidQuestion, IsValidResponse,
}
use eduvijna_aieos_backend.Assessment.Items.{
  LearnerAssessmentEvaluationItem, make_item, assert_outcome_method_pairing,
}
use eduvijna_aieos_backend.Assessment.Items.Construction.{make_item_of, absent, present}
use eduvijna_aieos_backend.Assessment.Answers.{
  item_with, compatible, true_false_content_answer, same_bool, evaluate_question,
  evaluate_multiple_choice, evaluate_true_false, evaluate_short_answer, choice_evaluated,
  boolean_evaluated, text_evaluated, evaluate_by_type, reject_by_policy, leave_unanswered,
  kinds_compatible,
}

-- The outcome of a Boolean against the answer of the content, if it has one.
abbrev pub judged : Bool → Option Bool → ItemOutcome
judged b none = unevaluated_policy_reject
judged b (some expected) = if same_bool b expected then correct else incorrect

-- The outcome of a response of a compatible kind.
abbrev pub graded : QuestionType → Value → List Text → Text → ItemOutcome
graded QuestionType.multiple_choice (text t) options answer =
    if not (text_mem t options)
    then unevaluated_policy_reject
    else if not (text_mem answer options)
    then unevaluated_policy_reject
    else if text_eq t answer
    then correct
    else incorrect
graded QuestionType.true_false (boolean b) options answer =
    judged b (true_false_content_answer (lower (strip answer)))
graded QuestionType.short_answer (text t) options answer = open_response_unevaluated
graded _ _ options answer = unevaluated_policy_reject

-- The outcome of a question with its response, if there is one.
abbrev pub outcome_of : EvaluationContentQuestion → Option EvaluationSubmittedResponse → ItemOutcome
outcome_of q none = unanswered
outcome_of q (some r) =
    if not (compatible q.question_type r.response_kind)
    then unevaluated_policy_reject
    else graded q.question_type r.value q.options q.answer

-- The method that goes with an outcome.
abbrev pub method_of : ItemOutcome → EvaluationMethod
method_of correct = deterministic_content_answer
method_of incorrect = deterministic_content_answer
method_of unanswered = no_response
method_of open_response_unevaluated = open_response_baseline
method_of unevaluated_policy_reject = policy_reject

abbrev kind_of : Option EvaluationSubmittedResponse → Option Text
kind_of none = none
kind_of (some r) = some (kind_value r.response_kind)

-- The item of a question with its response, if there is one.
abbrev pub item_of :
    EvaluationContentQuestion → Option EvaluationSubmittedResponse → LearnerAssessmentEvaluationItem
item_of q o = item_with q (kind_of o) (outcome_of q o) (method_of (outcome_of q o))

-- An answered outcome passes its pairing.
paired :
    (o : ItemOutcome) (kind : Text)
    → (unanswered ≡ o → ⊥)
    → assert_outcome_method_pairing o (method_of o) (some kind) ≡ ok tt
unfolding assert_outcome_method_pairing
paired correct kind ne = refl
paired incorrect kind ne = refl
paired unanswered kind ne = absurd (ne refl)
paired open_response_unevaluated kind ne = refl
paired unevaluated_policy_reject kind ne = refl

make_item_with :
    (q : EvaluationContentQuestion) (r : EvaluationSubmittedResponse) (o : ItemOutcome)
    → IsValidQuestion q
    → IsValidResponse r
    → (unanswered ≡ o → ⊥)
    → make_item (item_with q (some (kind_value r.response_kind)) o (method_of o))
      ≡ ok (item_with q (some (kind_value r.response_kind)) o (method_of o))
unfolding item_with
make_item_with q r o vq vr ne =
    make_item_of q.question_id q.question_type o (method_of o) q.objective_ids _ vq.clean_id
      vq.type_fits vq.objectives (present r.response_kind vr.kind_fits) (paired o _ ne)

-- The test of the last two branches chooses the outcome only.
answered :
    (q : EvaluationContentQuestion) (r : EvaluationSubmittedResponse) (b : Bool)
    → IsValidQuestion q
    → IsValidResponse r
    → make_item (
        item_with q
          (some (kind_value r.response_kind))
          (if b then correct else incorrect)
          deterministic_content_answer)
      ≡ ok (
          item_with q
            (some (kind_value r.response_kind))
            (if b then correct else incorrect)
            (method_of (if b then correct else incorrect)))
answered q r true vq vr = make_item_with q r correct vq vr (λ h. cc)
answered q r false vq vr = make_item_with q r incorrect vq vr (λ h. cc)

choice_of :
    (v : Value) (q : EvaluationContentQuestion) (r : EvaluationSubmittedResponse)
    → IsValidQuestion q
    → IsValidResponse r
    → choice_evaluated v q r
      ≡ ok (
          item_with q
            (some (kind_value r.response_kind))
            (graded QuestionType.multiple_choice v q.options q.answer)
            (method_of (graded QuestionType.multiple_choice v q.options q.answer)))
unfolding reject_by_policy
choice_of (boolean b) q r vq vr = make_item_with q r unevaluated_policy_reject vq vr (λ h. cc)
choice_of other q r vq vr = make_item_with q r unevaluated_policy_reject vq vr (λ h. cc)
choice_of (text t) q r vq vr = elim (Bool-cases (text_mem t q.options)) [
  | inr h ↦ simp (h, make_item_with q r unevaluated_policy_reject vq vr (λ h. cc))
  | inl h ↦ elim (Bool-cases (text_mem q.answer q.options)) [
    | inr g ↦ simp (h, g, make_item_with q r unevaluated_policy_reject vq vr (λ h. cc))
    | inl g ↦ simp (h, g) (answered q r (text_eq t q.answer) vq vr)
  ]
]

boolean_of :
    (v : Value) (expected : Option Bool) (q : EvaluationContentQuestion)
    (r : EvaluationSubmittedResponse)
    → IsValidQuestion q
    → IsValidResponse r
    → true_false_content_answer (lower (strip q.answer)) ≡ expected
    → boolean_evaluated v expected q r
      ≡ ok (
          item_with q
            (some (kind_value r.response_kind))
            (graded QuestionType.true_false v q.options q.answer)
            (method_of (graded QuestionType.true_false v q.options q.answer)))
unfolding reject_by_policy
boolean_of (text t) expected q r vq vr e =
    make_item_with q r unevaluated_policy_reject vq vr (λ h. cc)
boolean_of other expected q r vq vr e = make_item_with q r unevaluated_policy_reject vq vr (λ h. cc)
boolean_of (boolean b) none q r vq vr e =
    simp e (make_item_with q r unevaluated_policy_reject vq vr (λ h. cc))
boolean_of (boolean b) (some expected) q r vq vr e =
    simp e (answered q r (same_bool b expected) vq vr)

text_of :
    (v : Value) (q : EvaluationContentQuestion) (r : EvaluationSubmittedResponse)
    → IsValidQuestion q
    → IsValidResponse r
    → text_evaluated v q r
      ≡ ok (
          item_with q
            (some (kind_value r.response_kind))
            (graded QuestionType.short_answer v q.options q.answer)
            (method_of (graded QuestionType.short_answer v q.options q.answer)))
unfolding reject_by_policy
text_of (text t) q r vq vr = make_item_with q r open_response_unevaluated vq vr (λ h. cc)
text_of (boolean b) q r vq vr = make_item_with q r unevaluated_policy_reject vq vr (λ h. cc)
text_of other q r vq vr = make_item_with q r unevaluated_policy_reject vq vr (λ h. cc)

by_type_of :
    (t : QuestionType) (q : EvaluationContentQuestion) (r : EvaluationSubmittedResponse)
    → IsValidQuestion q
    → IsValidResponse r
    → evaluate_by_type t q r
      ≡ ok (
          item_with q
            (some (kind_value r.response_kind))
            (graded t r.value q.options q.answer)
            (method_of (graded t r.value q.options q.answer)))
unfolding reject_by_policy evaluate_multiple_choice evaluate_true_false evaluate_short_answer
by_type_of QuestionType.multiple_choice q r vq vr = choice_of r.value q r vq vr
by_type_of QuestionType.true_false q r vq vr = boolean_of r.value _ q r vq vr refl
by_type_of QuestionType.short_answer q r vq vr = text_of r.value q r vq vr
by_type_of (QuestionType.unlisted t) q r vq vr =
    make_item_with q r unevaluated_policy_reject vq vr (λ h. cc)

-- The evaluation of a valid question without a response returns its item.
pub unanswered_of :
    (q : EvaluationContentQuestion)
    → IsValidQuestion q
    → evaluate_question q none ≡ ok (item_of q none)
unfolding evaluate_question leave_unanswered item_with
unanswered_of q vq =
    make_item_of q.question_id q.question_type unanswered no_response q.objective_ids none
      vq.clean_id vq.type_fits vq.objectives absent (unfold assert_outcome_method_pairing in refl)

pub answered_of :
    (q : EvaluationContentQuestion) (r : EvaluationSubmittedResponse)
    → IsValidQuestion q
    → IsValidResponse r
    → evaluate_question q (some r) ≡ ok (item_of q (some r))
unfolding evaluate_question kinds_compatible reject_by_policy
answered_of q r vq vr = elim (Bool-cases (compatible q.question_type r.response_kind)) [
  | inl h ↦ simp (h, by_type_of q.question_type q r vq vr)
  | inr h ↦ simp (h, make_item_with q r unevaluated_policy_reject vq vr (λ h. cc))
]
