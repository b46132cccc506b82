-- ===== src/Assessment/Evidence.antt =====
-- evaluation_policy_v1.py: the evidence for each objective, from the outcomes of the items.
pub mod Rollup
pub mod Grouping
pub mod Rows
use eduvijna_aieos_backend.Prelude.{
  ℕ, ◌≡◌, Bool, true, false, ◌&&◌, ◌||◌, not, Option, none, some, List, [], ◌∷◌, ◌++◌, map, Result,
  ok, err, ◌>>=◌, if◌then◌else◌,
}
use eduvijna_aieos_backend.Python.Text.{Text, codes, text_eq, text_mem, strip, lower}
use eduvijna_aieos_backend.Python.Sorting.{sort_by}
use eduvijna_aieos_backend.Python.Scalars.{pos, Value, text, boolean, other}
use eduvijna_aieos_backend.Assessment.Vocabulary.{
  Assessment, ItemOutcome, correct, incorrect, unanswered, open_response_unevaluated,
  unevaluated_policy_reject, EvaluationMethod, deterministic_content_answer, no_response,
  open_response_baseline, policy_reject, ObjectiveEvidenceResult, QuestionType, ResponseKind,
  type_value, kind_value,
}
use eduvijna_aieos_backend.Assessment.Questions.{
  EvaluationContentQuestion, EvaluationSubmittedResponse, LearnerAssessmentEvaluationRequest,
}
use eduvijna_aieos_backend.Assessment.Items.{
  LearnerAssessmentEvaluationItem, make_item, LearnerAssessmentObjectiveEvidence, make_evidence,
  EvaluationId, LearnerAssessmentEvaluation, issue,
}

-- The dict `by_objective`, with its keys in the order of their insertion.
abbrev pub ByObjective : Type 0
ByObjective = List (Text × List ItemOutcome)

-- `by_objective.setdefault(objective_id, []).append(outcome)`
unfoldable pub append_outcome : Text → ItemOutcome → ByObjective → ByObjective
append_outcome oid outcome [] = (oid, outcome ∷ []) ∷ []
append_outcome oid outcome ((k, outcomes) ∷ rest) =
    if text_eq k oid
    then (k, outcomes ++ outcome ∷ []) ∷ rest
    else (k, outcomes) ∷ append_outcome oid outcome rest

-- The inner loop, over the objectives of one item.
unfoldable pub append_outcomes : List Text → ItemOutcome → ByObjective → ByObjective
append_outcomes [] outcome d = d
append_outcomes (oid ∷ oids) outcome d = append_outcomes oids outcome (append_outcome oid outcome d)

unfoldable pub group_outcomes : List LearnerAssessmentEvaluationItem → ByObjective → ByObjective
unfolding append_outcome append_outcomes
group_outcomes [] d = d
group_outcomes (i ∷ items) d = group_outcomes items (append_outcomes i.objective_ids i.outcome d)

-- `by_objective[objective_id]`
unfoldable pub outcomes_at : Text → ByObjective → List ItemOutcome
outcomes_at oid [] = []
outcomes_at oid ((k, outcomes) ∷ rest) = if text_eq k oid then outcomes else outcomes_at oid rest

abbrev pub is_insufficient : ItemOutcome → Bool
is_insufficient unanswered = true
is_insufficient open_response_unevaluated = true
is_insufficient unevaluated_policy_reject = true
is_insufficient _ = false

abbrev pub is_authoritative : ItemOutcome → Bool
is_authoritative correct = true
is_authoritative incorrect = true
is_authoritative _ = false

abbrev pub is_correct : ItemOutcome → Bool
is_correct correct = true
is_correct _ = false

abbrev pub is_incorrect : ItemOutcome → Bool
is_incorrect incorrect = true
is_incorrect _ = false

unfoldable pub any_outcome : (ItemOutcome → Bool) → List ItemOutcome → Bool
any_outcome p [] = false
any_outcome p (o ∷ os) = p o || any_outcome p os

unfoldable pub all_outcomes : (ItemOutcome → Bool) → List ItemOutcome → Bool
all_outcomes p [] = true
all_outcomes p (o ∷ os) = p o && all_outcomes p os

abbrev is_empty : List ItemOutcome → Bool
is_empty [] = true
is_empty (o ∷ os) = false

unfoldable pub rollup : List ItemOutcome → ObjectiveEvidenceResult
unfolding any_outcome all_outcomes
rollup outcomes =
    if any_outcome is_insufficient outcomes
    then ObjectiveEvidenceResult.insufficient_evidence
    else if is_empty outcomes || not (all_outcomes is_authoritative outcomes)
    then ObjectiveEvidenceResult.insufficient_evidence
    else if all_outcomes is_correct outcomes
    then ObjectiveEvidenceResult.demonstrated
    else if all_outcomes is_incorrect outcomes
    then ObjectiveEvidenceResult.not_yet_demonstrated
    else ObjectiveEvidenceResult.mixed

abbrev pub objectives_of : ByObjective → List Text
objectives_of d = map (λ (entry : Text × List ItemOutcome). entry.0) d

-- The loop over the sorted objectives.
unfoldable pub evidence_rows :
    ByObjective → List Text → Assessment (List LearnerAssessmentObjectiveEvidence)
unfolding rollup outcomes_at
evidence_rows d [] = ok []
evidence_rows d (oid ∷ oids) = do
  row ← make_evidence (record { objective_id = oid; result = rollup (outcomes_at oid d) })
  rows ← evidence_rows d oids
  ok (row ∷ rows)

unfoldable pub objective_evidence :
    List LearnerAssessmentEvaluationItem → Assessment (List LearnerAssessmentObjectiveEvidence)
unfolding group_outcomes evidence_rows
objective_evidence items =
    let by_objective = group_outcomes items [] in
    evidence_rows by_objective (sort_by (λ (t : Text). t) (objectives_of by_objective))
