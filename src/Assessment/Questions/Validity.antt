-- ===== src/Assessment/Questions/Validity.antt =====
-- The questions, responses and requests that the constructors return are valid.
use mathlib.Core.Path.{subst}
use eduvijna_aieos_backend.Prelude.{
  ℕ, ◌≤◌, ◌≡◌, refl, true, List, [], ◌∷◌, ok, arith, All, Ensures, Ensures-bind, leb, length,
  Ensures-guard, Ensures-ok, Bool-cases, inl, inr, ok-injective, err-ne-ok,
}
use eduvijna_aieos_backend.Python.Text.{
  Text, codes, IsClean, require_text, require_text-IsClean, strip, strip_idem, text_eq,
}
use eduvijna_aieos_backend.Python.Scalars.{Value, text, boolean, other}
use eduvijna_aieos_backend.Assessment.Vocabulary.{
  QuestionType, ResponseKind, type_value, kind_value, listed_type, listed_kind, type_of_stripped,
  kind_of_stripped, parse_evaluation_question_type, parse_evaluation_response_kind,
  invalid_evaluation,
}
use eduvijna_aieos_backend.Assessment.Objectives.{require_objective_ids, require-AreObjectives}
use eduvijna_aieos_backend.Assessment.Questions.{
  EvaluationContentQuestion, EvaluationSubmittedResponse, require_options, make_question,
  make_response, require_response_value, IsValidQuestion, IsValidResponse, ResponseValueFits,
  max_option_length, max_question_id_length, max_answer_length, max_question_type_length,
  max_response_kind_length,
}

-- Parsing the text of a parsed type gives that type again.
listed_type_again :
    (c : ℕ) (s : Text)
    → strip (c ∷ s) ≡ c ∷ s
    → parse_evaluation_question_type (QuestionType.unlisted (type_value (listed_type (c ∷ s))))
      ≡ ok (listed_type (c ∷ s))
unfolding parse_evaluation_question_type type_value
listed_type_again c s p = elim (Bool-cases (text_eq (c ∷ s) (codes "multiple_choice"))) [
  | inl e ↦ simp e (unfold strip text_eq in refl)
  | inr e ↦ elim (Bool-cases (text_eq (c ∷ s) (codes "true_false"))) [
    | inl f ↦ simp (e, f) (unfold strip text_eq in refl)
    | inr f ↦ elim (Bool-cases (text_eq (c ∷ s) (codes "short_answer"))) [
      | inl g ↦ simp (e, f, g) (unfold strip text_eq in refl)
      | inr g ↦ simp (e, f, g, p)
    ]
  ]
]

listed_kind_again :
    (c : ℕ) (s : Text)
    → strip (c ∷ s) ≡ c ∷ s
    → parse_evaluation_response_kind (ResponseKind.unlisted (kind_value (listed_kind (c ∷ s))))
      ≡ ok (listed_kind (c ∷ s))
unfolding parse_evaluation_response_kind kind_value
listed_kind_again c s p = elim (Bool-cases (text_eq (c ∷ s) (codes "MULTIPLE_CHOICE"))) [
  | inl e ↦ simp e (unfold strip text_eq in refl)
  | inr e ↦ elim (Bool-cases (text_eq (c ∷ s) (codes "TRUE_FALSE"))) [
    | inl f ↦ simp (e, f) (unfold strip text_eq in refl)
    | inr f ↦ elim (Bool-cases (text_eq (c ∷ s) (codes "SHORT_ANSWER"))) [
      | inl g ↦ simp (e, f, g) (unfold strip text_eq in refl)
      | inr g ↦ simp (e, f, g, p)
    ]
  ]
]

type_again :
    (s : Text) (t : QuestionType)
    → strip s ≡ s
    → type_of_stripped s ≡ ok t
    → parse_evaluation_question_type (QuestionType.unlisted (type_value t)) ≡ ok t
type_again [] t p h = absurd (err-ne-ok _ _ h)
type_again (c ∷ s) t p h =
    subst (λ u. parse_evaluation_question_type (QuestionType.unlisted (type_value u)) ≡ ok u)
      (ok-injective _ _ h) (listed_type_again c s p)

-- The text of a parsed type is parsed to that type.
pub parse_type-again :
    (t u : QuestionType)
    → parse_evaluation_question_type t ≡ ok u
    → parse_evaluation_question_type (QuestionType.unlisted (type_value u)) ≡ ok u
unfolding parse_evaluation_question_type text_eq
parse_type-again (QuestionType.unlisted s) u h = type_again (strip s) u (strip_idem s) h
parse_type-again QuestionType.multiple_choice u h =
    type_again (codes "multiple_choice") u (unfold strip in refl) h
parse_type-again QuestionType.true_false u h =
    type_again (codes "true_false") u (unfold strip in refl) h
parse_type-again QuestionType.short_answer u h =
    type_again (codes "short_answer") u (unfold strip in refl) h

kind_again :
    (s : Text) (k : ResponseKind)
    → strip s ≡ s
    → kind_of_stripped s ≡ ok k
    → parse_evaluation_response_kind (ResponseKind.unlisted (kind_value k)) ≡ ok k
kind_again [] k p h = absurd (err-ne-ok _ _ h)
kind_again (c ∷ s) k p h =
    subst (λ u. parse_evaluation_response_kind (ResponseKind.unlisted (kind_value u)) ≡ ok u)
      (ok-injective _ _ h) (listed_kind_again c s p)

-- The text of a parsed kind is parsed to that kind.
pub parse_kind-again :
    (k u : ResponseKind)
    → parse_evaluation_response_kind k ≡ ok u
    → parse_evaluation_response_kind (ResponseKind.unlisted (kind_value u)) ≡ ok u
unfolding parse_evaluation_response_kind text_eq
parse_kind-again (ResponseKind.unlisted s) u h = kind_again (strip s) u (strip_idem s) h
parse_kind-again ResponseKind.multiple_choice u h =
    kind_again (codes "MULTIPLE_CHOICE") u (unfold strip in refl) h
parse_kind-again ResponseKind.true_false u h =
    kind_again (codes "TRUE_FALSE") u (unfold strip in refl) h
parse_kind-again ResponseKind.short_answer u h =
    kind_again (codes "SHORT_ANSWER") u (unfold strip in refl) h

le_of_leb : (m n : ℕ) → leb m n ≡ true → m ≤ n
le_of_leb m n h = ground arith

options-Ensures :
    (items : List Text) → Ensures (All (IsClean max_option_length)) (require_options items)
unfolding require_options
options-Ensures [] = tt
options-Ensures (item ∷ items) =
    Ensures-bind (All (IsClean max_option_length))
      (require_text invalid_evaluation max_option_length item) _
      λ o ho. Ensures-bind (All (IsClean max_option_length)) (require_options items) _ λ rest hrest.
        (
          require_text-IsClean _ _ item o ho,
          Ensures-ok (All (IsClean max_option_length)) _ rest (options-Ensures items) hrest,
        )

question-Ensures : (q : EvaluationContentQuestion) → Ensures IsValidQuestion (make_question q)
unfolding make_question
question-Ensures q =
    Ensures-bind IsValidQuestion
      (require_text invalid_evaluation max_question_id_length q.question_id) _
      λ i hi.
        Ensures-bind IsValidQuestion (parse_evaluation_question_type q.question_type) _ λ t ht.
          Ensures-guard IsValidQuestion (leb (length (type_value t)) max_question_type_length)
            invalid_evaluation _
            λ ht2. Ensures-bind IsValidQuestion (require_options q.options) _ λ os hos.
              Ensures-guard IsValidQuestion (leb (length q.answer) max_answer_length)
                invalid_evaluation _
                λ _.
                  Ensures-bind IsValidQuestion (require_objective_ids q.objective_ids) _
                    λ oids hoids. record {
                      clean_id = require_text-IsClean _ _ _ i hi;
                      type_fits = (parse_type-again q.question_type t ht, le_of_leb _ _ ht2);
                      clean_options =
                          Ensures-ok (All (IsClean max_option_length)) _ os
                            (options-Ensures q.options) hos;
                      stripped_answer = strip_idem q.answer;
                      objectives = require-AreObjectives q.objective_ids oids hoids;
                    }

-- Every question that exists is valid.
pub make_question-IsValid :
    (raw q : EvaluationContentQuestion) → make_question raw ≡ ok q → IsValidQuestion q
make_question-IsValid raw q h = Ensures-ok IsValidQuestion _ q (question-Ensures raw) h

value-Ensures : (v : Value) → Ensures ResponseValueFits (require_response_value v)
value-Ensures (boolean b) = tt
value-Ensures (text t) =
    Ensures-bind ResponseValueFits (require_text invalid_evaluation max_answer_length t) _
      λ s h. require_text-IsClean _ _ t s h
value-Ensures other = tt

response-Ensures : (r : EvaluationSubmittedResponse) → Ensures IsValidResponse (make_response r)
unfolding make_response
response-Ensures r =
    Ensures-bind IsValidResponse
      (require_text invalid_evaluation max_question_id_length r.question_id) _
      λ i hi.
        Ensures-bind IsValidResponse (parse_evaluation_response_kind r.response_kind) _ λ k hk.
          Ensures-guard IsValidResponse (leb (length (kind_value k)) max_response_kind_length)
            invalid_evaluation _
            λ hk2. Ensures-bind IsValidResponse (require_response_value r.value) _ λ v hv. record {
              clean_id = require_text-IsClean _ _ _ i hi;
              kind_fits = (parse_kind-again r.response_kind k hk, le_of_leb _ _ hk2);
              value_fits = Ensures-ok ResponseValueFits _ v (value-Ensures r.value) hv;
            }

-- Every response that exists is valid.
pub make_response-IsValid :
    (raw r : EvaluationSubmittedResponse) → make_response raw ≡ ok r → IsValidResponse r
make_response-IsValid raw r h = Ensures-ok IsValidResponse _ r (response-Ensures raw) h
