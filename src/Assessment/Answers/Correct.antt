-- ===== src/Assessment/Answers/Correct.antt =====
-- When an answer is evaluated as correct.
use mathlib.Core.Option.{some-injective}
use eduvijna_aieos_backend.Prelude.{
  ◌≡◌, refl, sym, ap, ◌∙◌, ◌↔◌, inl, inr, Bool, true, false, not, Option, none, some, List, ok,
  if◌then◌else◌, Bool-cases,
}
use eduvijna_aieos_backend.Python.Text.{Text, codes, text_eq, text_mem, strip, lower, text_eq_iff}
use eduvijna_aieos_backend.Python.Scalars.{Value, text, boolean}
use eduvijna_aieos_backend.Assessment.Vocabulary.{
  ItemOutcome, correct, incorrect, unevaluated_policy_reject, QuestionType,
}
use eduvijna_aieos_backend.Assessment.Questions.{
  EvaluationContentQuestion, EvaluationSubmittedResponse, IsValidQuestion, IsValidResponse,
}
use eduvijna_aieos_backend.Assessment.Items.{LearnerAssessmentEvaluationItem}
use eduvijna_aieos_backend.Assessment.Answers.{
  item_with, compatible, true_false_content_answer, evaluate_question,
}
use eduvijna_aieos_backend.Assessment.Answers.Outcomes.{graded, judged, item_of, answered_of}

-- The text of a Boolean answer of the content.
abbrev pub bool_text : Bool → Text
bool_text true = codes "true"
bool_text false = codes "false"

-- A value that agrees with the answer of the content: for a choice, one of the options that is the
-- answer; for a statement, the Boolean that the answer names, in any case of its letters. A short
-- answer is never compared.
abbrev pub Agrees : QuestionType → Value → List Text → Text → Type 0
Agrees QuestionType.multiple_choice (text t) options answer =
    (text_mem t options ≡ true) × (t ≡ answer)
Agrees QuestionType.true_false (boolean b) options answer = lower (strip answer) ≡ bool_text b
Agrees _ _ _ _ = ⊥

choice_tests :
    (m n e : Bool)
    → ((if not m
          then unevaluated_policy_reject
          else if not n
          then unevaluated_policy_reject
          else if e
          then correct
          else incorrect)
        ≡ correct)
      ↔ ((m ≡ true) × (n ≡ true) × (e ≡ true))
choice_tests true true true = (λ _. (refl, refl, refl), λ _. refl)
choice_tests true true false = (λ h. cc, λ (_, _, h). let p : false ≡ true = h in cc)
choice_tests true false e = (λ h. cc, λ (_, h, _). let p : false ≡ true = h in cc)
choice_tests false n e = (λ h. cc, λ (h, _, _). let p : false ≡ true = h in cc)

choice_iff :
    (t : Text) (options : List Text) (answer : Text)
    → (graded QuestionType.multiple_choice (text t) options answer ≡ correct)
      ↔ ((text_mem t options ≡ true) × (t ≡ answer))
choice_iff t options answer =
    let (f, g) = choice_tests (text_mem t options) (text_mem answer options) (text_eq t answer) in
    (
      λ h. let (m, n, e) = f h in (m, (text_eq_iff t answer).0 e),
      λ (m, e). g (m, ap (λ s. text_mem s options) (sym e) ∙ m, (text_eq_iff t answer).1 e),
    )

content_answer_iff :
    (s : Text) (b : Bool) → (true_false_content_answer s ≡ some b) ↔ (s ≡ bool_text b)
content_answer_iff s b = elim (Bool-cases (text_eq s (codes "true"))) [
  | inl e ↦ simp e (of_true b ((text_eq_iff s (codes "true")).0 e))
  | inr e ↦ elim (Bool-cases (text_eq s (codes "false"))) [
    | inl f ↦ simp (e, f) (of_false b ((text_eq_iff s (codes "false")).0 f))
    | inr f ↦ simp (e, f) (of_neither b e f)
  ]
]
  where
    of_true : (b : Bool) → s ≡ codes "true" → (some true ≡ some b) ↔ (s ≡ bool_text b)
    of_true true p = (λ _. p, λ _. refl)
    of_true false p = (λ h. cc, λ h. let q : codes "true" ≡ codes "false" = sym p ∙ h in cc)

    of_false : (b : Bool) → s ≡ codes "false" → (some false ≡ some b) ↔ (s ≡ bool_text b)
    of_false true p = (λ h. cc, λ h. let q : codes "false" ≡ codes "true" = sym p ∙ h in cc)
    of_false false p = (λ _. p, λ _. refl)

    of_neither :
        (b : Bool)
        → text_eq s (codes "true") ≡ false
        → text_eq s (codes "false") ≡ false
        → (none ≡ some b) ↔ (s ≡ bool_text b)
    of_neither true p q = (λ h. cc, λ h. let r = (text_eq_iff s (codes "true")).1 h in cc)
    of_neither false p q = (λ h. cc, λ h. let r = (text_eq_iff s (codes "false")).1 h in cc)

judged_iff : (b : Bool) (o : Option Bool) → (judged b o ≡ correct) ↔ (o ≡ some b)
judged_iff true none = (λ h. cc, λ h. cc)
judged_iff false none = (λ h. cc, λ h. cc)
judged_iff true (some true) = (λ h. refl, λ h. refl)
judged_iff false (some true) = (λ h. cc, λ h. let e = some-injective _ _ h in cc)
judged_iff true (some false) = (λ h. cc, λ h. let e = some-injective _ _ h in cc)
judged_iff false (some false) = (λ h. refl, λ h. refl)

graded_iff :
    (t : QuestionType) (v : Value) (options : List Text) (answer : Text)
    → (graded t v options answer ≡ correct) ↔ Agrees t v options answer
graded_iff QuestionType.multiple_choice (text t) options answer = choice_iff t options answer
graded_iff QuestionType.true_false (boolean b) options answer =
    let (f, g) = judged_iff b (true_false_content_answer (lower (strip answer))) in
    let (h, k) = content_answer_iff (lower (strip answer)) b in (λ p. h (f p), λ p. g (k p))
graded_iff QuestionType.short_answer (text t) options answer = (λ h. cc, λ h. absurd h)
graded_iff _ _ _ _ = (λ h. cc, λ h. absurd h)

outcome_iff :
    (c : Bool) (o : ItemOutcome) (P : Type 0)
    → ((o ≡ correct) ↔ P)
    → ((if not c then unevaluated_policy_reject else o) ≡ correct) ↔ ((c ≡ true) × P)
outcome_iff true o P h = (λ p. (refl, h.0 p), λ (_, p). h.1 p)
outcome_iff false o P h = (λ p. cc, λ (p, _). let q : false ≡ true = p in cc)

-- A response to a question is evaluated without an exception, and the item that is returned is
-- correct exactly when the kind of the response is compatible with the type of the question and its
-- value agrees with the answer of the content.
pub evaluate_question-correct :
    (q : EvaluationContentQuestion) (r : EvaluationSubmittedResponse)
    → IsValidQuestion q
    → IsValidResponse r
    → (i : LearnerAssessmentEvaluationItem) × (evaluate_question q (some r) ≡ ok i)
      × ((i.outcome ≡ correct) ↔ (
          (compatible q.question_type r.response_kind ≡ true)
          × Agrees q.question_type r.value q.options q.answer))
unfolding item_with
evaluate_question-correct q r vq vr = (
  item_of q (some r),
  answered_of q r vq vr,
  outcome_iff (compatible q.question_type r.response_kind) _ _
      (graded_iff q.question_type r.value q.options q.answer),
)
