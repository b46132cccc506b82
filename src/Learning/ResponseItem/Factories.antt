-- ===== src/Learning/ResponseItem/Factories.antt =====
-- The three factories: the item that each makes.
use eduvijna_aieos_backend.Prelude.{◌≡◌, Bool, Option, some, none, ok, ◌>>=◌}
use eduvijna_aieos_backend.Python.Text.{Text, IsClean, strip, require_text_of_strip}
use eduvijna_aieos_backend.Python.Scalars.{text, boolean}
use eduvijna_aieos_backend.Learning.Vocabulary.{
  AttemptId, AttemptResponseKind, multiple_choice, short_answer, true_false, invalid_response,
}
use eduvijna_aieos_backend.Learning.ResponseItem.{
  AttemptResponseItem, post_init, exclusive_value, require_question_id, snapshot_value,
  multiple_choice_item, short_answer_item, true_false_item, max_question_id_length,
  max_choice_value_length, max_text_value_length,
}

-- An item with its three values.
abbrev pub answer :
    AttemptId
    → Text
    → AttemptResponseKind
    → Option Text
    → Option Text
    → Option Bool
    → AttemptResponseItem
answer aid q kind choice t b = record {
  attempt_id = aid;
  question_id = q;
  response_kind = kind;
  choice_value = choice;
  text_value = t;
  boolean_value = b;
}

-- A question, a choice and a text that are, once stripped, not empty and within their limits make an
-- item of each kind, with the stripped question and the stripped value, and the value that a snapshot
-- records of each is the stripped choice, the stripped text or the Boolean.
pub factories_lem :
    (aid : AttemptId) (q c t : Text) (b : Bool)
    → IsClean max_question_id_length (strip q)
    → IsClean max_choice_value_length (strip c)
    → IsClean max_text_value_length (strip t)
    → ((multiple_choice_item aid q c >>= snapshot_value) ≡ ok (text (strip c)))
      × ((short_answer_item aid q t >>= snapshot_value) ≡ ok (text (strip t)))
      × ((true_false_item aid q b >>= snapshot_value) ≡ ok (boolean b))
      × (multiple_choice_item aid q c
          ≡ ok (answer aid (strip q) multiple_choice (some (strip c)) none none))
      × (short_answer_item aid q t
          ≡ ok (answer aid (strip q) short_answer none (some (strip t)) none))
      × (true_false_item aid q b ≡ ok (answer aid (strip q) true_false none none (some b)))
unfolding multiple_choice_item short_answer_item true_false_item post_init exclusive_value
    require_question_id snapshot_value
factories_lem aid q c t b hq hc ht =
    let eq = require_text_of_strip invalid_response max_question_id_length q hq in
    let ec = require_text_of_strip invalid_response max_choice_value_length c hc in
    let et = require_text_of_strip invalid_response max_text_value_length t ht in
    (simp (eq, ec), simp (eq, et), simp eq, simp (eq, ec), simp (eq, et), simp eq)
