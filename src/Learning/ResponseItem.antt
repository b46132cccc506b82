-- ===== src/Learning/ResponseItem.antt =====
-- response_item.py: one typed answer of a working attempt.
pub mod Validity
pub mod Factories
use eduvijna_aieos_backend.Prelude.{
  ℕ, ◌≡◌, refl, Bool, Option, none, some, List, [], Result, ok, err, ◌>>=◌, arith,
}
use eduvijna_aieos_backend.Python.Text.{
  Text, IsClean, require_text, require_text-IsClean, require_text_of_IsClean,
}
use eduvijna_aieos_backend.Python.Scalars.{Value, text, boolean}
use eduvijna_aieos_backend.Learning.Vocabulary.{
  Learning, AttemptId, AttemptResponseKind, multiple_choice, short_answer, true_false,
  invalid_response, assertion_error,
}

abbrev pub max_question_id_length : ℕ
max_question_id_length = 128

abbrev pub max_choice_value_length : ℕ
max_choice_value_length = 256

abbrev pub max_text_value_length : ℕ
max_text_value_length = 4096

pub record AttemptResponseItem : Type 0 where
  pub attempt_id : AttemptId
  pub question_id : Text
  pub response_kind : AttemptResponseKind
  pub choice_value : Option Text
  pub text_value : Option Text
  pub boolean_value : Option Bool

unfoldable pub require_question_id : Text → Learning Text
require_question_id value = require_text invalid_response max_question_id_length value

-- `value or ""`
abbrev or_empty : Option Text → Text
or_empty none = []
or_empty (some t) = t

-- The part of `__post_init__` that depends on the kind: the three values as they are kept.
unfoldable pub exclusive_value :
    AttemptResponseKind
    → Option Text
    → Option Text
    → Option Bool
    → Learning (Option Text × Option Text × Option Bool)
exclusive_value multiple_choice choice none none = do
  t ← require_text invalid_response max_choice_value_length (or_empty choice)
  ok (some t, none, none)
exclusive_value short_answer none value none = do
  t ← require_text invalid_response max_text_value_length (or_empty value)
  ok (none, some t, none)
exclusive_value true_false none none (some b) = ok (none, none, some b)
exclusive_value _ _ _ _ = err invalid_response

-- `AttemptResponseItem.__post_init__`: the item as it is kept, or the exception.
unfoldable pub post_init : AttemptResponseItem → Learning AttemptResponseItem
unfolding require_question_id exclusive_value
post_init item = do
  question_id ← require_question_id item.question_id
  values ← exclusive_value item.response_kind item.choice_value item.text_value item.boolean_value
  ok (record item {
    question_id = question_id;
    choice_value = values.0;
    text_value = values.1;
    boolean_value = values.2;
  })

-- The dispatch of `snapshot_value`, with its three `assert`s.
abbrev pub value_of : AttemptResponseKind → Option Text → Option Text → Option Bool → Learning Value
value_of multiple_choice (some t) _ _ = ok (text t)
value_of short_answer _ (some t) _ = ok (text t)
value_of true_false _ _ (some b) = ok (boolean b)
value_of _ _ _ _ = err assertion_error

-- The value that a snapshot records.
unfoldable pub snapshot_value : AttemptResponseItem → Learning Value
snapshot_value item =
    value_of item.response_kind item.choice_value item.text_value item.boolean_value

-- Exactly the value of the kind is there, within its limit.
abbrev pub ValueFits : AttemptResponseKind → Option Text → Option Text → Option Bool → Type 0
ValueFits multiple_choice (some t) none none = IsClean max_choice_value_length t
ValueFits short_answer none (some t) none = IsClean max_text_value_length t
ValueFits true_false none none (some b) = Unit
ValueFits _ _ _ _ = ⊥

-- What holds of every item that exists.
pub record IsValid (item : AttemptResponseItem) : Type 0 where
  pub clean_question : IsClean max_question_id_length item.question_id
  pub fits : ValueFits item.response_kind item.choice_value item.text_value item.boolean_value

-- `AttemptResponseItem.multiple_choice`
unfoldable pub multiple_choice_item : AttemptId → Text → Text → Learning AttemptResponseItem
multiple_choice_item attempt_id question_id choice_value = post_init (record {
  attempt_id = attempt_id;
  question_id = question_id;
  response_kind = multiple_choice;
  choice_value = some choice_value;
  text_value = none;
  boolean_value = none;
})

-- `AttemptResponseItem.short_answer`
unfoldable pub short_answer_item : AttemptId → Text → Text → Learning AttemptResponseItem
short_answer_item attempt_id question_id text_value = post_init (record {
  attempt_id = attempt_id;
  question_id = question_id;
  response_kind = short_answer;
  choice_value = none;
  text_value = some text_value;
  boolean_value = none;
})

-- `AttemptResponseItem.true_false`
unfoldable pub true_false_item : AttemptId → Text → Bool → Learning AttemptResponseItem
true_false_item attempt_id question_id boolean_value = post_init (record {
  attempt_id = attempt_id;
  question_id = question_id;
  response_kind = true_false;
  choice_value = none;
  text_value = none;
  boolean_value = some boolean_value;
})
