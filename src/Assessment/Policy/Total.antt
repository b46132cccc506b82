-- ===== src/Assessment/Policy/Total.antt =====
-- The evaluator on a valid request: it never raises, and what it returns.
use mathlib.Core.Path.{subst}
use mathlib.Core.Option.{some-injective}
use eduvijna_aieos_backend.Prelude.{
  ℕ, ◌≡◌, refl, ap, ◌∙◌, true, Option, none, some, List, [], ◌∷◌, map, All, arith, Bool-cases,
  Option-cases, inl, inr, ok, ◌==◌,
}
use eduvijna_aieos_backend.Python.Text.{
  Text, IsClean, strip, text_eq, text_mem, require_text_of_IsClean,
}
use eduvijna_aieos_backend.Python.Sorting.{HasDistinct, IsSortedBy-HasDistinct, Unseen-nil}
use eduvijna_aieos_backend.Python.Scalars.{pos}
use eduvijna_aieos_backend.Assessment.Vocabulary.{invalid_evaluation}
use eduvijna_aieos_backend.Assessment.Objectives.{AreObjectives}
use eduvijna_aieos_backend.Assessment.Questions.{
  EvaluationContentQuestion, EvaluationSubmittedResponse, LearnerAssessmentEvaluationRequest,
  IsValidQuestion, IsValidResponse, IsValidRequest,
}
use eduvijna_aieos_backend.Assessment.Items.{
  LearnerAssessmentEvaluationItem, LearnerAssessmentObjectiveEvidence, EvaluationId,
  LearnerAssessmentEvaluation, max_policy_id_length, issue, make_evaluation,
}
use eduvijna_aieos_backend.Assessment.Items.Construction.{check_distinct_of}
use eduvijna_aieos_backend.Assessment.Answers.{item_with, evaluate_question}
use eduvijna_aieos_backend.Assessment.Answers.Outcomes.{item_of, unanswered_of, answered_of}
use eduvijna_aieos_backend.Assessment.Evidence.Rows.{IsEvidence, objective_evidence-IsEvidence}
use eduvijna_aieos_backend.Assessment.Policy.{
  policy_id, policy_version, response_for, evaluate_questions, evaluate,
}

-- The response that the dict has for a question is one of the responses.
response_for-All :
    (P : EvaluationSubmittedResponse → Type 0) (qid : Text) (rs : List EvaluationSubmittedResponse)
    (r : EvaluationSubmittedResponse)
    → All P rs
    → response_for qid rs ≡ some r
    → P r
unfolding response_for
response_for-All P qid [] r h e = cc
response_for-All P qid (s ∷ rs) r h e = elim (Option-cases (response_for qid rs)) [
  | inr (later, found) ↦
      let same : ◌≡◌ {A = Option EvaluationSubmittedResponse} (some later) (some r) =
        rw found at e in
      subst P (some-injective _ _ same) (response_for-All P qid rs later h.1 found)
  | inl absent ↦ elim (Bool-cases (text_eq s.question_id qid)) [
    | inl f ↦
        let same : ◌≡◌ {A = Option EvaluationSubmittedResponse} (some s) (some r) =
          rw (absent, f) at e in
        subst P (some-injective _ _ same) h.0
    | inr f ↦
        let same : ◌≡◌ {A = Option EvaluationSubmittedResponse} none (some r) =
          rw (absent, f) at e in
        cc
  ]
]

evaluate_question_of :
    (q : EvaluationContentQuestion) (rs : List EvaluationSubmittedResponse)
    → IsValidQuestion q
    → All IsValidResponse rs
    → evaluate_question q (response_for q.question_id rs)
      ≡ ok (item_of q (response_for q.question_id rs))
evaluate_question_of q rs vq vr = go (response_for q.question_id rs) refl
  where
    go :
        (o : Option EvaluationSubmittedResponse)
        → response_for q.question_id rs ≡ o
        → evaluate_question q o ≡ ok (item_of q o)
    go none e = unanswered_of q vq
    go (some r) e = answered_of q r vq (response_for-All IsValidResponse q.question_id rs r vr e)

-- The items of the questions, each with its response, if there is one.
abbrev pub items_of :
    List EvaluationSubmittedResponse
    → List EvaluationContentQuestion
    → List LearnerAssessmentEvaluationItem
items_of rs qs =
    map (λ (q : EvaluationContentQuestion). item_of q (response_for q.question_id rs)) qs

-- The evaluation of valid questions and responses returns the item of each question, in order.
pub evaluate_questions_of :
    (rs : List EvaluationSubmittedResponse) (qs : List EvaluationContentQuestion)
    → All IsValidResponse rs
    → All IsValidQuestion qs
    → evaluate_questions rs qs ≡ ok (items_of rs qs)
unfolding evaluate_questions
evaluate_questions_of rs [] vr vq = refl
evaluate_questions_of rs (q ∷ qs) vr vq =
    simp (evaluate_question_of q rs vq.0 vr, evaluate_questions_of rs qs vr vq.1)

items-HaveObjectives :
    (rs : List EvaluationSubmittedResponse) (qs : List EvaluationContentQuestion)
    → All IsValidQuestion qs
    → All (λ (i : LearnerAssessmentEvaluationItem). AreObjectives i.objective_ids) (items_of rs qs)
unfolding item_with
items-HaveObjectives rs [] h = tt
items-HaveObjectives rs (q ∷ qs) h = (h.0.objectives, items-HaveObjectives rs qs h.1)

abbrev item_key : LearnerAssessmentEvaluationItem → Text
item_key i = i.question_id

abbrev evidence_key : LearnerAssessmentObjectiveEvidence → Text
evidence_key e = e.objective_id

abbrev question_key : EvaluationContentQuestion → Text
question_key q = q.question_id

keys-items :
    (rs : List EvaluationSubmittedResponse) (qs : List EvaluationContentQuestion)
    → map item_key (items_of rs qs) ≡ map question_key qs
unfolding item_with
keys-items rs [] = refl
keys-items rs (q ∷ qs) = ap (λ xs. q.question_id ∷ xs) (keys-items rs qs)

items-HasDistinct :
    (rs : List EvaluationSubmittedResponse) (qs : List EvaluationContentQuestion)
    → HasDistinct question_key qs
    → HasDistinct item_key (items_of rs qs)
unfolding item_with
items-HasDistinct rs [] d = tt
items-HasDistinct rs (q ∷ qs) d =
    (ap (λ xs. text_mem q.question_id xs) (keys-items rs qs) ∙ d.0, items-HasDistinct rs qs d.1)

-- What the evaluation of a request is.
pub record IsEvaluationOf (generated : EvaluationId) (r : LearnerAssessmentEvaluationRequest)
    (e : LearnerAssessmentEvaluation) : Type 0 where
  pub evaluation_id : e.evaluation_id ≡ generated
  pub tenant_id : e.tenant_id ≡ r.tenant_id
  pub learner_principal_id : e.learner_principal_id ≡ r.learner_principal_id
  pub submission_id : e.submission_id ≡ r.submission_id
  pub attempt_id : e.attempt_id ≡ r.attempt_id
  pub teaching_assignment_id : e.teaching_assignment_id ≡ r.teaching_assignment_id
  pub content_id : e.content_id ≡ r.content_id
  pub content_version_id : e.content_version_id ≡ r.content_version_id
  pub class_ref : e.class_ref ≡ r.class_ref
  pub evaluated_at : e.evaluated_at ≡ r.evaluated_at
  pub created_at : e.created_at ≡ r.evaluated_at
  pub items :
      e.items
      ≡ map
          (λ (q : EvaluationContentQuestion). item_of q (response_for q.question_id r.responses))
          r.questions
  pub evidence : IsEvidence e.items e.objective_evidence

policy_id-IsClean : IsClean max_policy_id_length policy_id
unfolding strip
policy_id-IsClean = record { stripped = refl; non_empty = λ h. cc; bounded = omega arith }

abbrev evaluation_over :
    EvaluationId
    → LearnerAssessmentEvaluationRequest
    → List LearnerAssessmentEvaluationItem
    → List LearnerAssessmentObjectiveEvidence
    → LearnerAssessmentEvaluation
evaluation_over generated r items rows = record {
  evaluation_id = generated;
  tenant_id = r.tenant_id;
  learner_principal_id = r.learner_principal_id;
  submission_id = r.submission_id;
  attempt_id = r.attempt_id;
  teaching_assignment_id = r.teaching_assignment_id;
  content_id = r.content_id;
  content_version_id = r.content_version_id;
  class_ref = r.class_ref;
  evaluation_policy_id = policy_id;
  evaluation_policy_version = pos policy_version;
  evaluated_at = r.evaluated_at;
  created_at = r.evaluated_at;
  items = items;
  objective_evidence = rows;
}

same_instant : (n : ℕ) → (n == n) ≡ true
same_instant n = ground arith

make_evaluation_over :
    (generated : EvaluationId) (r : LearnerAssessmentEvaluationRequest)
    (items : List LearnerAssessmentEvaluationItem) (rows : List LearnerAssessmentObjectiveEvidence)
    → IsValidRequest r
    → HasDistinct item_key items
    → HasDistinct evidence_key rows
    → make_evaluation (evaluation_over generated r items rows)
      ≡ ok (evaluation_over generated r items rows)
unfolding make_evaluation
make_evaluation_over generated r items rows v di de = simp (
  require_text_of_IsClean invalid_evaluation _ r.class_ref v.clean_class_ref,
  require_text_of_IsClean invalid_evaluation _ policy_id policy_id-IsClean,
  v.aware,
  same_instant r.evaluated_at.instant,
  check_distinct_of item_key [] items (Unseen-nil item_key items) di,
  check_distinct_of evidence_key [] rows (Unseen-nil evidence_key rows) de,
)

-- The evaluation of a valid request returns, without an exception, an evaluation with the identity,
-- lineage and moment of the request, whose items are those of the questions in their order, each with
-- its response, if there is one, and whose evidence is that of its items.
pub evaluate-IsEvaluationOf :
    (generated : EvaluationId) (r : LearnerAssessmentEvaluationRequest)
    → IsValidRequest r
    → (e : LearnerAssessmentEvaluation) × (evaluate generated r ≡ ok e)
      × IsEvaluationOf generated r e
unfolding evaluate issue
evaluate-IsEvaluationOf generated r v =
    let items = items_of r.responses r.questions in
    let (rows, made, is) =
      objective_evidence-IsEvidence items
        (items-HaveObjectives r.responses r.questions v.valid_questions) in
    (
      evaluation_over generated r items rows,
      simp (
        evaluate_questions_of r.responses r.questions v.valid_responses v.valid_questions,
        made,
        make_evaluation_over generated r items rows v
            (items-HasDistinct r.responses r.questions v.distinct_questions)
            (IsSortedBy-HasDistinct evidence_key rows is.ordered),
      ),
      record {
        evaluation_id = refl;
        tenant_id = refl;
        learner_principal_id = refl;
        submission_id = refl;
        attempt_id = refl;
        teaching_assignment_id = refl;
        content_id = refl;
        content_version_id = refl;
        class_ref = refl;
        evaluated_at = refl;
        created_at = refl;
        items = refl;
        evidence = is;
      },
    )
