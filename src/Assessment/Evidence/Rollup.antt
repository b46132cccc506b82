-- ===== src/Assessment/Evidence/Rollup.antt =====
-- The result for one objective, by the outcomes of its items.
use eduvijna_aieos_backend.Prelude.{
  ◌≡◌, ◌≢◌, refl, ◌↔◌, Bool, true, false, not, List, [], ◌∷◌, All, if◌then◌else◌, sym, ◌∙◌, ◌⊎◌,
  inl, inr,
}
use eduvijna_aieos_backend.Assessment.Vocabulary.{
  ItemOutcome, correct, incorrect, unanswered, open_response_unevaluated, unevaluated_policy_reject,
  ObjectiveEvidenceResult, insufficient_evidence,
}
use eduvijna_aieos_backend.Assessment.Evidence.{
  rollup, any_outcome, all_outcomes, is_insufficient, is_authoritative, is_correct, is_incorrect,
}

-- An outcome is insufficient exactly when it is not authoritative.
any_insufficient :
    (os : List ItemOutcome)
    → any_outcome is_insufficient os ≡ not (all_outcomes is_authoritative os)
unfolding any_outcome all_outcomes
any_insufficient [] = refl
any_insufficient (correct ∷ os) = any_insufficient os
any_insufficient (incorrect ∷ os) = any_insufficient os
any_insufficient (unanswered ∷ os) = refl
any_insufficient (open_response_unevaluated ∷ os) = refl
any_insufficient (unevaluated_policy_reject ∷ os) = refl

every_correct_iff :
    (os : List ItemOutcome) → (all_outcomes is_correct os ≡ true) ↔ All (λ o. o ≡ correct) os
unfolding all_outcomes
every_correct_iff [] = (λ h. tt, λ h. refl)
every_correct_iff (correct ∷ os) =
    (λ h. (refl, (every_correct_iff os).0 h), λ h. (every_correct_iff os).1 h.1)
every_correct_iff (incorrect ∷ os) = (λ h. cc, λ h. cc)
every_correct_iff (unanswered ∷ os) = (λ h. cc, λ h. cc)
every_correct_iff (open_response_unevaluated ∷ os) = (λ h. cc, λ h. cc)
every_correct_iff (unevaluated_policy_reject ∷ os) = (λ h. cc, λ h. cc)

every_incorrect_iff :
    (os : List ItemOutcome) → (all_outcomes is_incorrect os ≡ true) ↔ All (λ o. o ≡ incorrect) os
unfolding all_outcomes
every_incorrect_iff [] = (λ h. tt, λ h. refl)
every_incorrect_iff (incorrect ∷ os) =
    (λ h. (refl, (every_incorrect_iff os).0 h), λ h. (every_incorrect_iff os).1 h.1)
every_incorrect_iff (correct ∷ os) = (λ h. cc, λ h. cc)
every_incorrect_iff (unanswered ∷ os) = (λ h. cc, λ h. cc)
every_incorrect_iff (open_response_unevaluated ∷ os) = (λ h. cc, λ h. cc)
every_incorrect_iff (unevaluated_policy_reject ∷ os) = (λ h. cc, λ h. cc)

all-correct_authoritative :
    (os : List ItemOutcome)
    → all_outcomes is_correct os ≡ true
    → all_outcomes is_authoritative os ≡ true
unfolding all_outcomes
all-correct_authoritative [] h = refl
all-correct_authoritative (correct ∷ os) h = all-correct_authoritative os h
all-correct_authoritative (_ ∷ os) h = cc

all-incorrect_authoritative :
    (os : List ItemOutcome)
    → all_outcomes is_incorrect os ≡ true
    → all_outcomes is_authoritative os ≡ true
unfolding all_outcomes
all-incorrect_authoritative [] h = refl
all-incorrect_authoritative (incorrect ∷ os) h = all-incorrect_authoritative os h
all-incorrect_authoritative (_ ∷ os) h = cc

-- Of authoritative outcomes, one is incorrect exactly when not all are correct, and conversely.
any_incorrect :
    (os : List ItemOutcome)
    → all_outcomes is_authoritative os ≡ true
    → (any_outcome is_incorrect os ≡ not (all_outcomes is_correct os))
      × (any_outcome is_correct os ≡ not (all_outcomes is_incorrect os))
unfolding any_outcome all_outcomes
any_incorrect [] h = (refl, refl)
any_incorrect (correct ∷ os) h = ((any_incorrect os h).0, refl)
any_incorrect (incorrect ∷ os) h = (refl, (any_incorrect os h).1)
any_incorrect (_ ∷ os) h = cc

abbrev verdict : Bool → Bool → Bool → ObjectiveEvidenceResult
verdict false c d = insufficient_evidence
verdict true true d = ObjectiveEvidenceResult.demonstrated
verdict true false true = ObjectiveEvidenceResult.not_yet_demonstrated
verdict true false false = ObjectiveEvidenceResult.mixed

verdict_tests :
    (a c d : Bool)
    → (if not a
        then insufficient_evidence
        else if not a
        then insufficient_evidence
        else if c
        then ObjectiveEvidenceResult.demonstrated
        else if d
        then ObjectiveEvidenceResult.not_yet_demonstrated
        else ObjectiveEvidenceResult.mixed)
      ≡ verdict a c d
verdict_tests false c d = refl
verdict_tests true true d = refl
verdict_tests true false true = refl
verdict_tests true false false = refl

rollup-verdict :
    (o : ItemOutcome) (os : List ItemOutcome)
    → rollup (o ∷ os)
      ≡ verdict
          (all_outcomes is_authoritative (o ∷ os))
          (all_outcomes is_correct (o ∷ os))
          (all_outcomes is_incorrect (o ∷ os))
unfolding rollup
rollup-verdict o os = rw (any_insufficient (o ∷ os)) (verdict_tests _ _ _)

verdict-demonstrated :
    (a c d : Bool)
    → (c ≡ true → a ≡ true)
    → (verdict a c d ≡ ObjectiveEvidenceResult.demonstrated) ↔ (c ≡ true)
verdict-demonstrated false true d f = (λ h. refl, λ h. let e : false ≡ true = f refl in cc)
verdict-demonstrated false false d f = (λ h. cc, λ h. cc)
verdict-demonstrated true true d f = (λ h. refl, λ h. refl)
verdict-demonstrated true false true f = (λ h. cc, λ h. cc)
verdict-demonstrated true false false f = (λ h. cc, λ h. cc)

-- The evidence is demonstrated exactly when there is an outcome and all are correct.
demonstrated_iff :
    (os : List ItemOutcome)
    → (rollup os ≡ ObjectiveEvidenceResult.demonstrated) ↔ (os ≢ [] × All (λ o. o ≡ correct) os)
unfolding rollup
demonstrated_iff [] = (λ h. cc, λ h. absurd (h.0 refl))
demonstrated_iff (o ∷ os) =
    let (f, g) =
      verdict-demonstrated _ _ (all_outcomes is_incorrect (o ∷ os))
        (all-correct_authoritative (o ∷ os)) in
    (
      λ h. (λ e. cc, (every_correct_iff (o ∷ os)).0 (f (sym (rollup-verdict o os) ∙ h))),
      λ h. rollup-verdict o os ∙ g ((every_correct_iff (o ∷ os)).1 h.1),
    )

verdict-not_yet :
    (a c d : Bool)
    → (d ≡ true → (a ≡ true) × (c ≡ false))
    → (verdict a c d ≡ ObjectiveEvidenceResult.not_yet_demonstrated) ↔ (d ≡ true)
verdict-not_yet false c true f = (λ h. refl, λ h. let e : false ≡ true = (f refl).0 in cc)
verdict-not_yet false c false f = (λ h. cc, λ h. cc)
verdict-not_yet true true true f = (λ h. refl, λ h. let e : true ≡ false = (f refl).1 in cc)
verdict-not_yet true true false f = (λ h. cc, λ h. cc)
verdict-not_yet true false true f = (λ h. refl, λ h. refl)
verdict-not_yet true false false f = (λ h. cc, λ h. cc)

not_correct_of_incorrect :
    (o : ItemOutcome) (os : List ItemOutcome)
    → all_outcomes is_incorrect (o ∷ os) ≡ true
    → all_outcomes is_correct (o ∷ os) ≡ false
unfolding all_outcomes
not_correct_of_incorrect incorrect os h = refl
not_correct_of_incorrect correct os h = cc
not_correct_of_incorrect _ os h = refl

-- The evidence is not yet demonstrated exactly when there is an outcome and all are incorrect.
not_yet_demonstrated_iff :
    (os : List ItemOutcome)
    → (rollup os ≡ ObjectiveEvidenceResult.not_yet_demonstrated)
      ↔ (os ≢ [] × All (λ o. o ≡ incorrect) os)
unfolding rollup
not_yet_demonstrated_iff [] = (λ h. cc, λ h. absurd (h.0 refl))
not_yet_demonstrated_iff (o ∷ os) =
    let (f, g) =
      verdict-not_yet (all_outcomes is_authoritative (o ∷ os)) (all_outcomes is_correct (o ∷ os)) _
        (λ h. (all-incorrect_authoritative (o ∷ os) h, not_correct_of_incorrect o os h)) in
    (
      λ h. (λ e. cc, (every_incorrect_iff (o ∷ os)).0 (f (sym (rollup-verdict o os) ∙ h))),
      λ h. rollup-verdict o os ∙ g ((every_incorrect_iff (o ∷ os)).1 h.1),
    )

-- An outcome that the comparison with the answer of the content has settled.
abbrev pub IsSettled : ItemOutcome → Type 0
IsSettled o = (o ≡ correct) ⊎ (o ≡ incorrect)

All-IsSettled_iff :
    (os : List ItemOutcome) → (all_outcomes is_authoritative os ≡ true) ↔ All IsSettled os
unfolding all_outcomes
All-IsSettled_iff [] = (λ h. tt, λ h. refl)
All-IsSettled_iff (correct ∷ os) =
    (λ h. (inl refl, (All-IsSettled_iff os).0 h), λ h. (All-IsSettled_iff os).1 h.1)
All-IsSettled_iff (incorrect ∷ os) =
    (λ h. (inr refl, (All-IsSettled_iff os).0 h), λ h. (All-IsSettled_iff os).1 h.1)
All-IsSettled_iff (unanswered ∷ os) = (λ h. cc, λ h. elim h.0 [ inl e ↦ cc | inr e ↦ cc ])
All-IsSettled_iff (open_response_unevaluated ∷ os) =
    (λ h. cc, λ h. elim h.0 [ inl e ↦ cc | inr e ↦ cc ])
All-IsSettled_iff (unevaluated_policy_reject ∷ os) =
    (λ h. cc, λ h. elim h.0 [ inl e ↦ cc | inr e ↦ cc ])

verdict-mixed :
    (a c d : Bool)
    → (verdict a c d ≡ ObjectiveEvidenceResult.mixed)
      ↔ ((a ≡ true) × (not c ≡ true) × (not d ≡ true))
verdict-mixed false c d = (λ h. cc, λ h. let e : false ≡ true = h.0 in cc)
verdict-mixed true true d = (λ h. cc, λ (_, h, _). let e : false ≡ true = h in cc)
verdict-mixed true false true = (λ h. cc, λ (_, _, h). let e : false ≡ true = h in cc)
verdict-mixed true false false = (λ h. (refl, refl, refl), λ h. refl)

-- The evidence is mixed exactly when every outcome is settled, one is correct and one incorrect.
mixed_iff :
    (os : List ItemOutcome)
    → (rollup os ≡ ObjectiveEvidenceResult.mixed) ↔ (
        All IsSettled os
        × (any_outcome is_correct os ≡ true)
        × (any_outcome is_incorrect os ≡ true))
unfolding rollup any_outcome
mixed_iff [] = (λ h. cc, λ (_, h, _). cc)
mixed_iff (o ∷ os) =
    let (f, g) =
      verdict-mixed (all_outcomes is_authoritative (o ∷ os)) (all_outcomes is_correct (o ∷ os))
        (all_outcomes is_incorrect (o ∷ os)) in
    (
      λ h.
          let (settled, not_correct, not_incorrect) = f (sym (rollup-verdict o os) ∙ h) in
          let (i, c) = any_incorrect (o ∷ os) settled in
          ((All-IsSettled_iff (o ∷ os)).0 settled, c ∙ not_incorrect, i ∙ not_correct),
      λ (all, hc, hi).
          let settled = (All-IsSettled_iff (o ∷ os)).1 all in
          let (i, c) = any_incorrect (o ∷ os) settled in
          rollup-verdict o os ∙ g (settled, sym i ∙ hi, sym c ∙ hc),
    )

-- What each result says of the outcomes; the fourth, insufficient evidence, is the rest.
pub record RollupFacts (os : List ItemOutcome) : Type 0 where
  pub all_correct :
      (rollup os ≡ ObjectiveEvidenceResult.demonstrated) ↔ (os ≢ [] × All (λ o. o ≡ correct) os)
  pub all_incorrect :
      (rollup os ≡ ObjectiveEvidenceResult.not_yet_demonstrated)
      ↔ (os ≢ [] × All (λ o. o ≡ incorrect) os)
  pub both : (rollup os ≡ ObjectiveEvidenceResult.mixed) ↔ (
      All IsSettled os × (any_outcome is_correct os ≡ true) × (any_outcome is_incorrect os ≡ true))

-- The evidence is demonstrated exactly when there are outcomes and all are correct, not yet
-- demonstrated exactly when there are outcomes and all are incorrect, and mixed exactly when all are
-- correct or incorrect and both occur.
pub rollup-RollupFacts : (os : List ItemOutcome) → RollupFacts os
rollup-RollupFacts os = record {
  all_correct = demonstrated_iff os;
  all_incorrect = not_yet_demonstrated_iff os;
  both = mixed_iff os;
}
