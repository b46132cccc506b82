-- ===== src/Learning/ResponseItem/Validity.antt =====
-- Which items exist: the constructor accepts exactly the valid ones as they are, and what it
-- returns is valid.
use mathlib.Core.Path.{subst}
use eduvijna_aieos_backend.Prelude.{
  ◌≡◌, refl, Option, none, some, ok, first_returned, ok-injective, err-ne-ok, Bool, Ensures,
  Ensures-bind, Ensures-ok,
}
use eduvijna_aieos_backend.Python.Text.{
  Text, require_text, require_text-IsClean, require_text_of_IsClean,
}
use eduvijna_aieos_backend.Learning.Vocabulary.{
  AttemptResponseKind, multiple_choice, short_answer, true_false, invalid_response,
}
use eduvijna_aieos_backend.Learning.ResponseItem.{
  AttemptResponseItem, IsValid, post_init, exclusive_value, ValueFits, max_question_id_length,
}

exclusive_value-ValueFits :
    (kind : AttemptResponseKind) (choice t : Option Text) (b : Option Bool)
    {v : Option Text × Option Text × Option Bool}
    → exclusive_value kind choice t b ≡ ok v
    → ValueFits kind v.0 v.1 v.2
unfolding exclusive_value
exclusive_value-ValueFits multiple_choice choice none none h =
    let (s, p, q) = first_returned _ _ h in
    subst (λ w. ValueFits multiple_choice w.0 w.1 w.2) (ok-injective _ _ q)
      (require_text-IsClean _ _ _ s p)
exclusive_value-ValueFits short_answer none t none h =
    let (s, p, q) = first_returned _ _ h in
    subst (λ w. ValueFits short_answer w.0 w.1 w.2) (ok-injective _ _ q)
      (require_text-IsClean _ _ _ s p)
exclusive_value-ValueFits true_false none none (some b) h =
    subst (λ w. ValueFits true_false w.0 w.1 w.2) (ok-injective _ _ h) tt
exclusive_value-ValueFits _ _ _ _ h = absurd (err-ne-ok _ _ h)

post_init-Ensures : (item : AttemptResponseItem) → Ensures IsValid (post_init item)
unfolding post_init
post_init-Ensures item =
    Ensures-bind IsValid (require_text invalid_response max_question_id_length item.question_id) _
      λ q hq.
        Ensures-bind IsValid
          (exclusive_value item.response_kind item.choice_value item.text_value item.boolean_value)
          _
          λ v hv. record {
            clean_question = require_text-IsClean _ _ _ q hq;
            fits = exclusive_value-ValueFits _ _ _ _ hv;
          }

-- What the constructor returns is valid.
pub post_init-IsValid : (item b : AttemptResponseItem) → post_init item ≡ ok b → IsValid b
post_init-IsValid item b h = Ensures-ok IsValid (post_init item) b (post_init-Ensures item) h

exclusive_value_of_ValueFits :
    (kind : AttemptResponseKind) (choice t : Option Text) (b : Option Bool)
    → ValueFits kind choice t b
    → exclusive_value kind choice t b ≡ ok (choice, t, b)
unfolding exclusive_value
exclusive_value_of_ValueFits multiple_choice (some c) none none f =
    rw (require_text_of_IsClean _ _ c f)
exclusive_value_of_ValueFits short_answer none (some t) none f =
    rw (require_text_of_IsClean _ _ t f)
exclusive_value_of_ValueFits true_false none none (some b) f = refl
exclusive_value_of_ValueFits _ _ _ _ f = absurd f

-- A valid item is accepted as it is.
pub post_init_of_IsValid : (item : AttemptResponseItem) → IsValid item → post_init item ≡ ok item
unfolding post_init
post_init_of_IsValid item v =
    rw (require_text_of_IsClean _ _ item.question_id v.clean_question)
      (rw (exclusive_value_of_ValueFits _ _ _ _ v.fits))
