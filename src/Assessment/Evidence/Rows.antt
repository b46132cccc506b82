-- ===== src/Assessment/Evidence/Rows.antt =====
-- The evidence rows: one for each objective of the items, in the order of the objectives.
use eduvijna_aieos_backend.Prelude.{
  ◌≡◌, refl, ap, ◌∙◌, true, ◌||◌, List, [], ◌∷◌, map, All, All-impl, All-map, arith, Bool-cases,
  inl, inr, ok, map_id,
}
use eduvijna_aieos_backend.Python.Text.{
  Text, IsClean, text_eq, text_lt, text_mem, require_text_of_IsClean,
}
use eduvijna_aieos_backend.Python.Sorting.{
  HasDistinct, IsSortedBy, sort_by, insert_by, sort_by-IsSortedBy, sort_by-All,
}
use eduvijna_aieos_backend.Assessment.Vocabulary.{invalid_evaluation}
use eduvijna_aieos_backend.Assessment.Objectives.{AreObjectives, max_objective_id_length}
use eduvijna_aieos_backend.Assessment.Items.{
  LearnerAssessmentEvaluationItem, LearnerAssessmentObjectiveEvidence, make_evidence,
}
use eduvijna_aieos_backend.Assessment.Evidence.{
  ByObjective, group_outcomes, outcomes_at, objectives_of, rollup, evidence_rows,
  objective_evidence,
}
use eduvijna_aieos_backend.Assessment.Evidence.Grouping.{
  outcomes_for, is_listed, outcomes_at-group_outcomes, keys-group_outcomes, entry_key,
  group_outcomes-HasDistinct, group_outcomes-All,
}

abbrev self : Text → Text
self t = t

abbrev evidence_key : LearnerAssessmentObjectiveEvidence → Text
evidence_key e = e.objective_id

-- The objectives of every item are clean and distinct.
abbrev pub HaveObjectives : List LearnerAssessmentEvaluationItem → Type 0
HaveObjectives = All (λ (i : LearnerAssessmentEvaluationItem). AreObjectives i.objective_ids)

-- What the evidence for a list of items is.
pub record IsEvidence (items : List LearnerAssessmentEvaluationItem)
    (rows : List LearnerAssessmentObjectiveEvidence) : Type 0 where
  pub ordered : IsSortedBy (λ (e : LearnerAssessmentObjectiveEvidence). e.objective_id) rows
  pub covering :
      (oid : Text)
      → text_mem oid (map (λ (e : LearnerAssessmentObjectiveEvidence). e.objective_id) rows)
        ≡ is_listed oid items
  pub rolled_up :
      All
        (λ (e : LearnerAssessmentObjectiveEvidence).
          e.result ≡ rollup (outcomes_for e.objective_id items))
        rows

abbrev row_of : ByObjective → Text → LearnerAssessmentObjectiveEvidence
row_of d oid = record { objective_id = oid; result = rollup (outcomes_at oid d) }

evidence_rows_of :
    (d : ByObjective) (oids : List Text)
    → All (IsClean max_objective_id_length) oids
    → evidence_rows d oids ≡ ok (map (row_of d) oids)
unfolding evidence_rows make_evidence
evidence_rows_of d [] h = refl
evidence_rows_of d (oid ∷ oids) h =
    simp (require_text_of_IsClean invalid_evaluation _ oid h.0, evidence_rows_of d oids h.1)

insert_by-mem :
    (t x : Text) (ys : List Text)
    → text_mem t (insert_by self x ys) ≡ (text_eq t x || text_mem t ys)
unfolding insert_by text_mem
insert_by-mem t x [] = refl
insert_by-mem t x (y ∷ ys) = elim (Bool-cases (text_lt y x)) [
  | inl e ↦ rw e (ground (arith, insert_by-mem t x ys))
  | inr e ↦ rw e refl
]

sort_by-mem : (t : Text) (xs : List Text) → text_mem t (sort_by self xs) ≡ text_mem t xs
unfolding sort_by text_mem
sort_by-mem t [] = refl
sort_by-mem t (x ∷ xs) = insert_by-mem t x (sort_by self xs) ∙ rw (sort_by-mem t xs) refl

keys-row_of : (d : ByObjective) (oids : List Text) → map evidence_key (map (row_of d) oids) ≡ oids
keys-row_of d [] = refl
keys-row_of d (oid ∷ oids) = ap (λ xs. oid ∷ xs) (keys-row_of d oids)

rows-IsSortedBy :
    (d : ByObjective) (oids : List Text)
    → IsSortedBy self oids
    → IsSortedBy evidence_key (map (row_of d) oids)
rows-IsSortedBy d [] h = tt
rows-IsSortedBy d (oid ∷ oids) h = (
  All-map (row_of d) (λ e. text_lt oid (evidence_key e) ≡ true) oids h.0,
  rows-IsSortedBy d oids h.1,
)

rows-rolled_up :
    (items : List LearnerAssessmentEvaluationItem) (oids : List Text)
    → HaveObjectives items
    → All
        (λ (e : LearnerAssessmentObjectiveEvidence).
          e.result ≡ rollup (outcomes_for e.objective_id items))
        (map (row_of (group_outcomes items [])) oids)
rows-rolled_up items [] h = tt
rows-rolled_up items (oid ∷ oids) h =
    (ap rollup (outcomes_at-group_outcomes oid items h), rows-rolled_up items oids h)

distinct_keys : (d : ByObjective) → HasDistinct entry_key d → HasDistinct self (objectives_of d)
distinct_keys [] h = tt
distinct_keys (e ∷ d) h =
    (ap (λ xs. text_mem e.0 xs) (map_id (objectives_of d)) ∙ h.0, distinct_keys d h.1)

-- The rows of the evidence that is made.
abbrev rows_for : List LearnerAssessmentEvaluationItem → List LearnerAssessmentObjectiveEvidence
rows_for items =
    map (row_of (group_outcomes items [])) (sort_by self (objectives_of (group_outcomes items [])))

rows_for-IsEvidence :
    (items : List LearnerAssessmentEvaluationItem)
    → HaveObjectives items
    → IsEvidence items (rows_for items)
rows_for-IsEvidence items h = record {
  ordered =
      rows-IsSortedBy _ _
        (sort_by-IsSortedBy self _ (distinct_keys _ (group_outcomes-HasDistinct items [] tt)));
  covering = λ oid.
      ap (λ xs. text_mem oid xs) (keys-row_of (group_outcomes items []) _)
      ∙ sort_by-mem oid (objectives_of (group_outcomes items []))
      ∙ keys-group_outcomes oid items;
  rolled_up = rows-rolled_up items _ h;
}

-- Over items with clean and distinct objectives the evidence is made, without an exception: its rows
-- are in strictly ascending order of their objectives, which are exactly those that the items list,
-- and the result of each is the roll-up of the outcomes of the items that list it.
pub objective_evidence-IsEvidence :
    (items : List LearnerAssessmentEvaluationItem)
    → All (λ (i : LearnerAssessmentEvaluationItem). AreObjectives i.objective_ids) items
    → (rows : List LearnerAssessmentObjectiveEvidence) × (objective_evidence items ≡ ok rows)
      × IsEvidence items rows
unfolding objective_evidence
objective_evidence-IsEvidence items h = (
  rows_for items,
  evidence_rows_of (group_outcomes items []) _ (
      sort_by-All self (IsClean max_objective_id_length) _ (
        group_outcomes-All (IsClean max_objective_id_length) items []
          (All-impl (λ (i : LearnerAssessmentEvaluationItem). AreObjectives i.objective_ids)
            (λ (i : LearnerAssessmentEvaluationItem).
              All (IsClean max_objective_id_length) i.objective_ids)
            items (λ i o. o.clean) h)
          tt)),
  rows_for-IsEvidence items h,
)
