-- ===== src/Learning/Snapshot.antt =====
-- submission.py, the snapshot of the responses: its rows, its construction from the working items
-- and its validation when it is read back.
pub mod Rows
pub mod Order
pub mod Validation
use eduvijna_aieos_backend.Prelude.{
  ℕ, ◌≤◌, ◌≡◌, Bool, true, false, not, ◌&&◌, ◌||◌, Option, none, some, List, [], ◌∷◌, map, Result,
  ok, err, ◌>>=◌, ◌>>◌, guard, if◌then◌else◌, All,
}
use eduvijna_aieos_backend.Python.Text.{Text, codes, IsClean, require_text, text_eq, text_mem}
use eduvijna_aieos_backend.Python.Sorting.{sort_by, HasDistinct, IsSortedBy}
use eduvijna_aieos_backend.Python.Scalars.{Value, text, boolean, other}
use eduvijna_aieos_backend.Learning.Vocabulary.{
  Learning, AttemptResponseKind, multiple_choice, short_answer, true_false, kind_value,
  KindArgument, member, raw, parse_attempt_response_kind, invalid_submission, key_error,
}
use eduvijna_aieos_backend.Learning.ResponseItem.{
  AttemptResponseItem, snapshot_value, max_question_id_length, max_choice_value_length,
  max_text_value_length,
}

pub record SubmissionResponseItem : Type 0 where
  pub question_id : Text
  pub response_kind : AttemptResponseKind
  pub value : Value

unfoldable pub require_snapshot_question_id : Value → Learning Text
require_snapshot_question_id (text t) = require_text invalid_submission max_question_id_length t
require_snapshot_question_id (boolean b) = err invalid_submission
require_snapshot_question_id other = err invalid_submission

abbrev pub max_value_length : AttemptResponseKind → ℕ
max_value_length multiple_choice = max_choice_value_length
max_value_length short_answer = max_text_value_length
max_value_length true_false = max_text_value_length

unfoldable pub require_snapshot_value : AttemptResponseKind → Value → Learning Value
require_snapshot_value true_false (boolean b) = ok (boolean b)
require_snapshot_value multiple_choice (text t) = do
  stripped ← require_text invalid_submission max_choice_value_length t
  ok (text stripped)
require_snapshot_value short_answer (text t) = do
  stripped ← require_text invalid_submission max_text_value_length t
  ok (text stripped)
require_snapshot_value _ _ = err invalid_submission

-- `SubmissionResponseItem(…)` with its `__post_init__`
unfoldable pub make_row : Value → KindArgument → Value → Learning SubmissionResponseItem
unfolding require_snapshot_question_id require_snapshot_value
make_row question_id response_kind value = do
  q ← require_snapshot_question_id question_id
  kind ← parse_attempt_response_kind response_kind
  v ← require_snapshot_value kind value
  ok (record { question_id = q; response_kind = kind; value = v })

-- A mapping by its items. `dict(entry)` is a copy of it, and values here are never shared.
abbrev pub Mapping : Type 0
Mapping = List (Text × Value)

unfoldable pub as_persistable_mapping : SubmissionResponseItem → Mapping
as_persistable_mapping row =
    (codes "question_id", text row.question_id)
    ∷ (codes "response_kind", text (kind_value row.response_kind))
    ∷ (codes "value", row.value)
    ∷ []

-- The loop of `canonical_response_snapshot`, with its `seen` set.
unfoldable pub snapshot_rows :
    List Text → List AttemptResponseItem → Learning (List SubmissionResponseItem)
snapshot_rows seen [] = ok []
snapshot_rows seen (item ∷ items) = do
  guard (not (text_mem item.question_id seen)) invalid_submission
  value ← snapshot_value item
  row ← make_row (text item.question_id) (member item.response_kind) value
  rows ← snapshot_rows (item.question_id ∷ seen) items
  ok (row ∷ rows)

unfoldable pub canonical_response_snapshot :
    List AttemptResponseItem → Learning (List SubmissionResponseItem)
canonical_response_snapshot items = do
  rows ← snapshot_rows [] items
  ok (sort_by (λ (row : SubmissionResponseItem). row.question_id) rows)

-- An entry of the array that is validated.
pub data Entry : Type 0 where
  item : SubmissionResponseItem → Entry
  mapping : Mapping → Entry
  object : Entry

unfoldable pub snapshot_entry_mapping : Entry → Learning Mapping
unfolding as_persistable_mapping
snapshot_entry_mapping (item row) = ok (as_persistable_mapping row)
snapshot_entry_mapping (mapping m) = ok m
snapshot_entry_mapping object = err invalid_submission

abbrev pub snapshot_keys : List Text
snapshot_keys = codes "question_id" ∷ codes "response_kind" ∷ codes "value" ∷ []

abbrev pub forbidden_snapshot_keys : List Text
forbidden_snapshot_keys =
    codes "score"
    ∷ codes "grade"
    ∷ codes "mastery"
    ∷ codes "misconception"
    ∷ codes "recommendation"
    ∷ codes "answer"
    ∷ codes "explanation"
    ∷ codes "teacher_notes"
    ∷ codes "teacher_summary"
    ∷ codes "ai"
    ∷ codes "correct"
    ∷ codes "correctness"
    ∷ codes "payload"
    ∷ []

abbrev pub keys_of : Mapping → List Text
keys_of m = map (λ (entry : Text × Value). entry.0) m

-- `any(key in texts for key in keys)` and `all(…)`
unfoldable pub meets : List Text → List Text → Bool
meets [] texts = false
meets (key ∷ keys) texts = text_mem key texts || meets keys texts

unfoldable pub within : List Text → List Text → Bool
within [] texts = true
within (key ∷ keys) texts = text_mem key texts && within keys texts

-- `mapping[key]`
unfoldable pub value_at : Text → Mapping → Learning Value
value_at key [] = err key_error
value_at key ((k, v) ∷ m) = if text_eq key k then ok v else value_at key m

-- The checks on one entry: no forbidden key, exactly the three keys, and a row made of them.
unfoldable pub validated_row : Entry → Learning SubmissionResponseItem
unfolding snapshot_entry_mapping meets within value_at
validated_row entry = do
  m ← snapshot_entry_mapping entry
  guard (not (meets (keys_of m) forbidden_snapshot_keys)) invalid_submission
  guard (within (keys_of m) snapshot_keys && within snapshot_keys (keys_of m)) invalid_submission
  question_id ← value_at (codes "question_id") m
  response_kind ← value_at (codes "response_kind") m
  value ← value_at (codes "value") m
  make_row question_id (raw response_kind) value

-- The loop of `validate_response_snapshot`, with its `seen` set.
unfoldable pub validated_rows : List Text → List Entry → Learning (List SubmissionResponseItem)
validated_rows seen [] = ok []
validated_rows seen (entry ∷ entries) = do
  row ← validated_row entry
  guard (not (text_mem row.question_id seen)) invalid_submission
  rows ← validated_rows (row.question_id ∷ seen) entries
  ok (row ∷ rows)

-- Equality of two lists of texts.
unfoldable pub texts_eq : List Text → List Text → Bool
texts_eq [] [] = true
texts_eq (s ∷ ss) (t ∷ ts) = text_eq s t && texts_eq ss ts
texts_eq _ _ = false

abbrev pub question_ids : List SubmissionResponseItem → List Text
question_ids rows = map (λ (row : SubmissionResponseItem). row.question_id) rows

pub data SnapshotArgument : Type 0 where
  sequence : List Entry → SnapshotArgument
  not_a_sequence : SnapshotArgument

unfoldable pub validate_response_snapshot :
    SnapshotArgument → Learning (List SubmissionResponseItem)
validate_response_snapshot (sequence entries) = do
  rows ← validated_rows [] entries
  guard (texts_eq (question_ids rows) (sort_by (λ (t : Text). t) (question_ids rows)))
      invalid_submission
  ok rows
validate_response_snapshot not_a_sequence = err invalid_submission

abbrev pub RowValueFits : AttemptResponseKind → Value → Type 0
RowValueFits true_false (boolean b) = Unit
RowValueFits multiple_choice (text t) = IsClean max_choice_value_length t
RowValueFits short_answer (text t) = IsClean max_text_value_length t
RowValueFits _ _ = ⊥

-- What holds of every row that exists.
pub record IsValidRow (row : SubmissionResponseItem) : Type 0 where
  pub clean_question : IsClean max_question_id_length row.question_id
  pub fits : RowValueFits row.response_kind row.value

-- What holds of every snapshot: valid rows, strictly ascending by question.
pub record IsSnapshot (rows : List SubmissionResponseItem) : Type 0 where
  pub valid_rows : All IsValidRow rows
  pub ascending : IsSortedBy (λ (row : SubmissionResponseItem). row.question_id) rows
