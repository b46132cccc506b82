-- ===== src/Assessment/Evidence/Grouping.antt =====
-- The dict that the loop over the items builds: what it has for an objective, and its keys.
use mathlib.Core.List.{append-nil, append_assoc}
use eduvijna_aieos_backend.Prelude.{
  ◌≡◌, refl, sym, ap, ◌∙◌, Bool, true, false, ◌||◌, List, [], ◌∷◌, ◌++◌, All, arith, if◌then◌else◌,
  Bool-cases, inl, inr, map_id,
}
use eduvijna_aieos_backend.Python.Text.{
  Text, text_eq, text_mem, text_eq_comm, text_eq_refl, eq_of_text_eq,
}
use eduvijna_aieos_backend.Python.Sorting.{HasDistinct}
use eduvijna_aieos_backend.Assessment.Vocabulary.{ItemOutcome}
use eduvijna_aieos_backend.Assessment.Objectives.{AreObjectives}
use eduvijna_aieos_backend.Assessment.Items.{LearnerAssessmentEvaluationItem}
use eduvijna_aieos_backend.Assessment.Evidence.{
  ByObjective, append_outcome, append_outcomes, group_outcomes, outcomes_at, objectives_of,
}

-- The outcomes of the items that list an objective, in their order.
abbrev pub outcomes_for : Text → List LearnerAssessmentEvaluationItem → List ItemOutcome
outcomes_for oid [] = []
outcomes_for oid (i ∷ items) =
    if text_mem oid i.objective_ids
    then i.outcome ∷ outcomes_for oid items
    else outcomes_for oid items

-- Whether an item lists the objective.
abbrev pub is_listed : Text → List LearnerAssessmentEvaluationItem → Bool
is_listed oid [] = false
is_listed oid (i ∷ items) = text_mem oid i.objective_ids || is_listed oid items

outcomes_at-append_outcome :
    (oid k : Text) (o : ItemOutcome) (d : ByObjective)
    → outcomes_at oid (append_outcome k o d)
      ≡ (if text_eq oid k then outcomes_at oid d ++ o ∷ [] else outcomes_at oid d)
unfolding outcomes_at append_outcome
outcomes_at-append_outcome oid k o [] = rw (text_eq_comm oid k) refl
outcomes_at-append_outcome oid k o ((k', os) ∷ d) = elim (Bool-cases (text_eq k' k)) [
  | inl e ↦ rw (eq_of_text_eq k' k e) (
      simp (text_eq_refl k, text_eq_comm k oid)
        (elim (Bool-cases (text_eq oid k)) [ inl h ↦ simp h | inr h ↦ simp h ]))
  | inr e ↦ simp e (elim (Bool-cases (text_eq k' oid)) [
    | inl h ↦ simp (h, sym (ap (λ t. text_eq t k) (eq_of_text_eq k' oid h)) ∙ e)
    | inr h ↦ simp h (outcomes_at-append_outcome oid k o d)
  ])
]

keys-append_outcome :
    (t k : Text) (o : ItemOutcome) (d : ByObjective)
    → text_mem t (objectives_of (append_outcome k o d))
      ≡ (text_mem t (objectives_of d) || text_eq t k)
unfolding append_outcome text_mem
keys-append_outcome t k o [] = ground arith
keys-append_outcome t k o ((k', os) ∷ d) = elim (Bool-cases (text_eq k' k)) [
  | inl e ↦ rw (eq_of_text_eq k' k e) (simp (text_eq_refl k) (ground arith))
  | inr e ↦ rw e (ground (arith, keys-append_outcome t k o d))
]

not_mem_of_eq :
    (oid k : Text) (ks : List Text)
    → text_mem k ks ≡ false
    → text_eq oid k ≡ true
    → text_mem oid ks ≡ false
not_mem_of_eq oid k ks h e = ap (λ t. text_mem t ks) (eq_of_text_eq oid k e) ∙ h

outcomes_at-append_outcomes :
    (oid : Text) (ids : List Text) (o : ItemOutcome) (d : ByObjective)
    → HasDistinct (λ (t : Text). t) ids
    → outcomes_at oid (append_outcomes ids o d)
      ≡ (if text_mem oid ids then outcomes_at oid d ++ o ∷ [] else outcomes_at oid d)
unfolding append_outcomes text_mem
outcomes_at-append_outcomes oid [] o d n = refl
outcomes_at-append_outcomes oid (k ∷ ks) o d n =
    outcomes_at-append_outcomes oid ks o (append_outcome k o d) n.1
    ∙ rw (outcomes_at-append_outcome oid k o d) (elim (Bool-cases (text_eq oid k)) [
      | inl e ↦
          simp (e, not_mem_of_eq oid k ks (ap (λ xs. text_mem k xs) (sym (map_id ks)) ∙ n.0) e)
      | inr e ↦ simp e
    ])

-- What the dict has for an objective: what it had, and then the outcomes of the items that list it.
outcomes_at-group :
    (oid : Text) (items : List LearnerAssessmentEvaluationItem) (d : ByObjective)
    → All (λ (i : LearnerAssessmentEvaluationItem). AreObjectives i.objective_ids) items
    → outcomes_at oid (group_outcomes items d) ≡ outcomes_at oid d ++ outcomes_for oid items
unfolding group_outcomes
outcomes_at-group oid [] d h = sym (append-nil _)
outcomes_at-group oid (i ∷ items) d h =
    outcomes_at-group oid items (append_outcomes i.objective_ids i.outcome d) h.1
    ∙ rw (outcomes_at-append_outcomes oid i.objective_ids i.outcome d h.0.distinct)
        (elim (Bool-cases (text_mem oid i.objective_ids)) [
          | inl e ↦
              simp e (append_assoc (outcomes_at oid d) (i.outcome ∷ []) (outcomes_for oid items))
          | inr e ↦ simp e
        ])

-- From the empty dict: the outcomes of the items that list the objective.
pub outcomes_at-group_outcomes :
    (oid : Text) (items : List LearnerAssessmentEvaluationItem)
    → All (λ (i : LearnerAssessmentEvaluationItem). AreObjectives i.objective_ids) items
    → outcomes_at oid (group_outcomes items []) ≡ outcomes_for oid items
unfolding outcomes_at
outcomes_at-group_outcomes oid items h = outcomes_at-group oid items [] h

keys-append_outcomes :
    (t : Text) (ids : List Text) (o : ItemOutcome) (d : ByObjective)
    → text_mem t (objectives_of (append_outcomes ids o d))
      ≡ (text_mem t (objectives_of d) || text_mem t ids)
unfolding append_outcomes text_mem
keys-append_outcomes t [] o d = ground arith
keys-append_outcomes t (k ∷ ks) o d =
    keys-append_outcomes t ks o (append_outcome k o d)
    ∙ rw (keys-append_outcome t k o d) (ground arith)

keys-group :
    (t : Text) (items : List LearnerAssessmentEvaluationItem) (d : ByObjective)
    → text_mem t (objectives_of (group_outcomes items d))
      ≡ (text_mem t (objectives_of d) || is_listed t items)
unfolding group_outcomes
keys-group t [] d = ground arith
keys-group t (i ∷ items) d =
    keys-group t items (append_outcomes i.objective_ids i.outcome d)
    ∙ rw (keys-append_outcomes t i.objective_ids i.outcome d) (ground arith)

-- The keys are the objectives that the items list.
pub keys-group_outcomes :
    (t : Text) (items : List LearnerAssessmentEvaluationItem)
    → text_mem t (objectives_of (group_outcomes items [])) ≡ is_listed t items
unfolding text_mem
keys-group_outcomes t items = keys-group t items []

abbrev pub entry_key : Text × List ItemOutcome → Text
entry_key e = e.0

append_outcome-HasDistinct :
    (k : Text) (o : ItemOutcome) (d : ByObjective)
    → HasDistinct entry_key d
    → HasDistinct entry_key (append_outcome k o d)
unfolding append_outcome text_mem
append_outcome-HasDistinct k o [] h = (refl, tt)
append_outcome-HasDistinct k o ((k', os) ∷ d) h = elim (Bool-cases (text_eq k' k)) [
  | inl e ↦ rw e h
  | inr e ↦
      rw e (keys-append_outcome k' k o d ∙ rw (h.0, e) refl, append_outcome-HasDistinct k o d h.1)
]

append_outcomes-HasDistinct :
    (ids : List Text) (o : ItemOutcome) (d : ByObjective)
    → HasDistinct entry_key d
    → HasDistinct entry_key (append_outcomes ids o d)
unfolding append_outcomes
append_outcomes-HasDistinct [] o d h = h
append_outcomes-HasDistinct (k ∷ ks) o d h =
    append_outcomes-HasDistinct ks o (append_outcome k o d) (append_outcome-HasDistinct k o d h)

-- No key occurs twice.
pub group_outcomes-HasDistinct :
    (items : List LearnerAssessmentEvaluationItem) (d : ByObjective)
    → HasDistinct entry_key d
    → HasDistinct entry_key (group_outcomes items d)
unfolding group_outcomes
group_outcomes-HasDistinct [] d h = h
group_outcomes-HasDistinct (i ∷ items) d h =
    group_outcomes-HasDistinct items _ (append_outcomes-HasDistinct i.objective_ids i.outcome d h)

append_outcome-All :
    (P : Text → Type 0) (k : Text) (o : ItemOutcome) (d : ByObjective)
    → P k
    → All P (objectives_of d)
    → All P (objectives_of (append_outcome k o d))
unfolding append_outcome
append_outcome-All P k o [] p h = (p, tt)
append_outcome-All P k o ((k', os) ∷ d) p h = elim (Bool-cases (text_eq k' k)) [
  | inl e ↦ rw e h
  | inr e ↦ rw e (h.0, append_outcome-All P k o d p h.1)
]

append_outcomes-All :
    (P : Text → Type 0) (ids : List Text) (o : ItemOutcome) (d : ByObjective)
    → All P ids
    → All P (objectives_of d)
    → All P (objectives_of (append_outcomes ids o d))
unfolding append_outcomes
append_outcomes-All P [] o d p h = h
append_outcomes-All P (k ∷ ks) o d p h =
    append_outcomes-All P ks o (append_outcome k o d) p.1 (append_outcome-All P k o d p.0 h)

-- What holds of all objectives of the items holds of the keys.
pub group_outcomes-All :
    (P : Text → Type 0) (items : List LearnerAssessmentEvaluationItem) (d : ByObjective)
    → All (λ (i : LearnerAssessmentEvaluationItem). All P i.objective_ids) items
    → All P (objectives_of d)
    → All P (objectives_of (group_outcomes items d))
unfolding group_outcomes
group_outcomes-All P [] d p h = h
group_outcomes-All P (i ∷ items) d p h =
    group_outcomes-All P items _ p.1 (append_outcomes-All P i.objective_ids i.outcome d p.0 h)
