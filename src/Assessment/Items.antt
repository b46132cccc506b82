-- ===== src/Assessment/Items.antt =====
-- evaluation.py: the evaluated items, the evidence for objectives, and the evaluation that joins
-- them.
pub mod Construction
use eduvijna_aieos_backend.Prelude.{
  ℕ, suc, ◌≤◌, ◌≡◌, Bool, true, false, not, Option, none, some, List, [], ◌∷◌, map, Result, ok, err,
  ◌>>=◌, ◌>>◌, guard, leb, length, ◌==◌,
}
use eduvijna_aieos_backend.Python.Text.{Text, require_text, text_mem}
use eduvijna_aieos_backend.Python.Scalars.{ℤ, pos, negsuc, Uuid, Datetime, require_aware, version}
use eduvijna_aieos_backend.Assessment.Vocabulary.{
  Assessment, ItemOutcome, correct, incorrect, unanswered, open_response_unevaluated,
  unevaluated_policy_reject, EvaluationMethod, deterministic_content_answer, no_response,
  open_response_baseline, policy_reject, ObjectiveEvidenceResult, QuestionType, ResponseKind,
  type_value, kind_value, parse_evaluation_question_type, parse_evaluation_response_kind,
  invalid_evaluation, invalid_identity,
}
use eduvijna_aieos_backend.Assessment.Objectives.{require_objective_ids, max_objective_id_length}
use eduvijna_aieos_backend.Assessment.Questions.{
  max_class_ref_length, max_question_id_length, max_question_type_length, max_response_kind_length,
}

abbrev pub max_policy_id_length : ℕ
max_policy_id_length = 128

-- `_assert_outcome_method_pairing`
unfoldable pub assert_outcome_method_pairing :
    ItemOutcome → EvaluationMethod → Option Text → Assessment (Unit {0})
assert_outcome_method_pairing unanswered no_response none = ok tt
assert_outcome_method_pairing correct deterministic_content_answer (some kind) = ok tt
assert_outcome_method_pairing incorrect deterministic_content_answer (some kind) = ok tt
assert_outcome_method_pairing open_response_unevaluated open_response_baseline (some kind) = ok tt
assert_outcome_method_pairing unevaluated_policy_reject policy_reject (some kind) = ok tt
assert_outcome_method_pairing _ _ _ = err invalid_evaluation

pub record LearnerAssessmentEvaluationItem : Type 0 where
  pub question_id : Text
  pub question_type : Text
  pub outcome : ItemOutcome
  pub evaluation_method : EvaluationMethod
  pub objective_ids : List Text
  pub response_kind : Option Text

-- The response kind of an item, which may be absent.
abbrev pub item_response_kind : Option Text → Assessment (Option Text)
item_response_kind none = ok none
item_response_kind (some t) = do
  kind ← parse_evaluation_response_kind (ResponseKind.unlisted t)
  guard (leb (length (kind_value kind)) max_response_kind_length) invalid_evaluation
  ok (some (kind_value kind))

-- `LearnerAssessmentEvaluationItem.__post_init__`
unfoldable pub make_item :
    LearnerAssessmentEvaluationItem → Assessment LearnerAssessmentEvaluationItem
unfolding assert_outcome_method_pairing
make_item i = do
  question_id ← require_text invalid_evaluation max_question_id_length i.question_id
  parsed ← parse_evaluation_question_type (QuestionType.unlisted i.question_type)
  guard (leb (length (type_value parsed)) max_question_type_length) invalid_evaluation
  objective_ids ← require_objective_ids i.objective_ids
  response_kind ← item_response_kind i.response_kind
  assert_outcome_method_pairing i.outcome i.evaluation_method response_kind
  ok (record {
    question_id = question_id;
    question_type = type_value parsed;
    outcome = i.outcome;
    evaluation_method = i.evaluation_method;
    objective_ids = objective_ids;
    response_kind = response_kind;
  })

pub record LearnerAssessmentObjectiveEvidence : Type 0 where
  pub objective_id : Text
  pub result : ObjectiveEvidenceResult

-- `LearnerAssessmentObjectiveEvidence.__post_init__`
unfoldable pub make_evidence :
    LearnerAssessmentObjectiveEvidence → Assessment LearnerAssessmentObjectiveEvidence
make_evidence e = do
  objective_id ← require_text invalid_evaluation max_objective_id_length e.objective_id
  ok (record { objective_id = objective_id; result = e.result })

pub record EvaluationId : Type 0 where
  pub value : Uuid

pub record LearnerAssessmentEvaluation : Type 0 where
  pub evaluation_id : EvaluationId
  pub tenant_id : Uuid
  pub learner_principal_id : Uuid
  pub submission_id : Uuid
  pub attempt_id : Uuid
  pub teaching_assignment_id : Uuid
  pub content_id : Uuid
  pub content_version_id : Uuid
  pub class_ref : Text
  pub evaluation_policy_id : Text
  pub evaluation_policy_version : ℤ
  pub evaluated_at : Datetime
  pub created_at : Datetime
  pub items : List LearnerAssessmentEvaluationItem
  pub objective_evidence : List LearnerAssessmentObjectiveEvidence

abbrev require_policy_version : ℤ → Assessment (Unit {0})
require_policy_version (pos (suc n)) = ok tt
require_policy_version _ = err invalid_evaluation

-- A loop that raises at the first repeated key, with its `seen` set.
unfoldable pub check_distinct {ℓ} :
    {A : Type ℓ} → (A → Text) → List Text → List A → Assessment (Unit {0})
check_distinct key seen [] = ok tt
check_distinct key seen (x ∷ xs) = do
  guard (not (text_mem (key x) seen)) invalid_evaluation
  check_distinct key (key x ∷ seen) xs

-- `LearnerAssessmentEvaluation.__post_init__`, of items and evidence that exist.
unfoldable pub make_evaluation :
    LearnerAssessmentEvaluation → Assessment LearnerAssessmentEvaluation
unfolding check_distinct
make_evaluation e = do
  class_ref ← require_text invalid_evaluation max_class_ref_length e.class_ref
  policy_id ← require_text invalid_evaluation max_policy_id_length e.evaluation_policy_id
  require_policy_version e.evaluation_policy_version
  require_aware invalid_evaluation e.evaluated_at
  require_aware invalid_evaluation e.created_at
  guard (e.created_at.instant == e.evaluated_at.instant) invalid_evaluation
  check_distinct (λ (i : LearnerAssessmentEvaluationItem). i.question_id) [] e.items
  check_distinct (λ (o : LearnerAssessmentObjectiveEvidence). o.objective_id) []
      e.objective_evidence
  ok (record e { class_ref = class_ref; evaluation_policy_id = policy_id })

abbrev or_generated : Option EvaluationId → EvaluationId → EvaluationId
or_generated none generated = generated
or_generated (some eid) generated = eid

-- `LearnerAssessmentEvaluation.issue`; `generated` is what `EvaluationId.generate()` returns, if it
-- is called.
unfoldable pub issue :
    (generated : EvaluationId)
    (tenant_id learner_principal_id submission_id attempt_id teaching_assignment_id content_id
      content_version_id : Uuid)
    (class_ref policy_id : Text) (policy_version : ℤ) (evaluated_at : Datetime)
    (items : List LearnerAssessmentEvaluationItem)
    (objective_evidence : List LearnerAssessmentObjectiveEvidence)
    (evaluation_id : Option EvaluationId)
    → Assessment LearnerAssessmentEvaluation
unfolding make_evaluation
issue generated tenant learner submission attempt assignment content content_version class_ref
      policy policy_version evaluated_at items evidence eid =
    make_evaluation (record {
      evaluation_id = or_generated eid generated;
      tenant_id = tenant;
      learner_principal_id = learner;
      submission_id = submission;
      attempt_id = attempt;
      teaching_assignment_id = assignment;
      content_id = content;
      content_version_id = content_version;
      class_ref = class_ref;
      evaluation_policy_id = policy;
      evaluation_policy_version = policy_version;
      evaluated_at = evaluated_at;
      created_at = evaluated_at;
      items = items;
      objective_evidence = evidence;
    })
