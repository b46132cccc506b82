-- ===== src/Learning/Snapshot/Rows.antt =====
-- One row: which exist, and that a row is read back from its mapping.
use eduvijna_aieos_backend.Prelude.{
  ◌≡◌, refl, none, some, Option, Bool, ok, err-ne-ok, Ensures, Ensures-bind, Ensures-guard,
  Ensures-ok, not, ◌&&◌,
}
use eduvijna_aieos_backend.Python.Text.{
  Text, codes, IsClean, require_text, text_eq, text_mem, require_text-IsClean,
  require_text_of_IsClean,
}
use eduvijna_aieos_backend.Python.Scalars.{Value, text, boolean, other}
use eduvijna_aieos_backend.Learning.Vocabulary.{
  AttemptResponseKind, multiple_choice, short_answer, true_false, kind_value, KindArgument, member,
  raw, parse_attempt_response_kind, parse_kind-kind_value, invalid_submission,
}
use eduvijna_aieos_backend.Learning.ResponseItem.{
  AttemptResponseItem, snapshot_value, ValueFits, value_of, IsValid, max_question_id_length,
}
use eduvijna_aieos_backend.Learning.Snapshot.{
  SubmissionResponseItem, require_snapshot_question_id, require_snapshot_value, make_row,
  as_persistable_mapping, Entry, item, mapping, snapshot_entry_mapping, validated_row, keys_of,
  snapshot_keys, forbidden_snapshot_keys, meets, within, value_at, RowValueFits, IsValidRow,
}

question-IsClean :
    (v : Value) (q : Text)
    → require_snapshot_question_id v ≡ ok q
    → IsClean max_question_id_length q
unfolding require_snapshot_question_id
question-IsClean (text t) q h = require_text-IsClean _ _ t q h
question-IsClean (boolean b) q h = absurd (err-ne-ok _ _ h)
question-IsClean other q h = absurd (err-ne-ok _ _ h)

require_snapshot_value-Ensures :
    (kind : AttemptResponseKind) (v : Value)
    → Ensures (RowValueFits kind) (require_snapshot_value kind v)
unfolding require_snapshot_value
require_snapshot_value-Ensures true_false (boolean b) = tt
require_snapshot_value-Ensures multiple_choice (text t) =
    Ensures-bind (RowValueFits multiple_choice) (require_text invalid_submission _ t) _
      λ s h. require_text-IsClean _ _ t s h
require_snapshot_value-Ensures short_answer (text t) =
    Ensures-bind (RowValueFits short_answer) (require_text invalid_submission _ t) _
      λ s h. require_text-IsClean _ _ t s h
require_snapshot_value-Ensures _ _ = tt

-- Every row that is made is valid.
pub make_row-Ensures :
    (q : Value) (k : KindArgument) (v : Value) → Ensures IsValidRow (make_row q k v)
unfolding make_row
make_row-Ensures q k v = Ensures-bind IsValidRow (require_snapshot_question_id q) _ λ s hs.
    Ensures-bind IsValidRow (parse_attempt_response_kind k) _ λ kind hk.
      Ensures-bind IsValidRow (require_snapshot_value kind v) _ λ w hw. record {
        clean_question = question-IsClean q s hs;
        fits = Ensures-ok (RowValueFits kind) _ w (require_snapshot_value-Ensures kind v) hw;
      }

value_of_fits :
    (kind : AttemptResponseKind) (v : Value)
    → RowValueFits kind v
    → require_snapshot_value kind v ≡ ok v
unfolding require_snapshot_value
value_of_fits true_false (boolean b) f = refl
value_of_fits multiple_choice (text t) f = rw (require_text_of_IsClean _ _ t f)
value_of_fits short_answer (text t) f = rw (require_text_of_IsClean _ _ t f)
value_of_fits _ _ f = absurd f

-- A valid row is made of its own fields, its kind given as a member or by its code.
pub make_row_of_member :
    (row : SubmissionResponseItem)
    → IsValidRow row
    → make_row (text row.question_id) (member row.response_kind) row.value ≡ ok row
unfolding make_row parse_attempt_response_kind
make_row_of_member row v = simp (
  require_text_of_IsClean invalid_submission _ row.question_id v.clean_question,
  value_of_fits row.response_kind row.value v.fits,
)

pub make_row_of_code :
    (row : SubmissionResponseItem)
    → IsValidRow row
    → make_row (text row.question_id) (raw (text (kind_value row.response_kind))) row.value ≡ ok row
unfolding make_row
make_row_of_code row v = simp (
  require_text_of_IsClean invalid_submission _ row.question_id v.clean_question,
  parse_kind-kind_value row.response_kind,
  value_of_fits row.response_kind row.value v.fits,
)

-- A valid row passes the validation of an entry, as itself and as the mapping that is stored.
pub validated_row-item :
    (row : SubmissionResponseItem) → IsValidRow row → validated_row (item row) ≡ ok row
unfolding validated_row text_mem text_eq
validated_row-item row v = make_row_of_code row v

pub validated_row-mapping :
    (row : SubmissionResponseItem)
    → IsValidRow row
    → validated_row (mapping (as_persistable_mapping row)) ≡ ok row
unfolding validated_row text_mem text_eq
validated_row-mapping row v = make_row_of_code row v

-- Every row that passes is valid.
pub validated_row-Ensures : (entry : Entry) → Ensures IsValidRow (validated_row entry)
unfolding validated_row
validated_row-Ensures entry = Ensures-bind IsValidRow (snapshot_entry_mapping entry) _ λ m _.
    Ensures-guard IsValidRow (not (meets (keys_of m) forbidden_snapshot_keys)) invalid_submission _
      λ _.
        Ensures-guard IsValidRow
          (within (keys_of m) snapshot_keys && within snapshot_keys (keys_of m)) invalid_submission
          _
          λ _. Ensures-bind IsValidRow (value_at (codes "question_id") m) _ λ q _.
            Ensures-bind IsValidRow (value_at (codes "response_kind") m) _ λ k _.
              Ensures-bind IsValidRow (value_at (codes "value") m) _
                λ v _. make_row-Ensures q (raw k) v

-- The row of a valid item.
abbrev value_row : AttemptResponseKind → Option Text → Option Text → Option Bool → Value
value_row multiple_choice (some t) _ _ = text t
value_row short_answer _ (some t) _ = text t
value_row true_false _ _ (some b) = boolean b
value_row _ _ _ _ = other

unfoldable pub row_of : AttemptResponseItem → SubmissionResponseItem
row_of i = record {
  question_id = i.question_id;
  response_kind = i.response_kind;
  value = value_row i.response_kind i.choice_value i.text_value i.boolean_value;
}

value_of-value_row :
    (k : AttemptResponseKind) (c t : Option Text) (b : Option Bool)
    → ValueFits k c t b
    → (value_of k c t b ≡ ok (value_row k c t b)) × RowValueFits k (value_row k c t b)
value_of-value_row multiple_choice (some c) none none f = (refl, f)
value_of-value_row short_answer none (some t) none f = (refl, f)
value_of-value_row true_false none none (some b) f = (refl, tt)
value_of-value_row _ _ _ _ f = absurd f

-- A valid item has a snapshot value, which makes its row.
pub row_of-IsValidRow : (i : AttemptResponseItem) → IsValid i → IsValidRow (row_of i)
unfolding row_of
row_of-IsValidRow i v = record {
  clean_question = v.clean_question;
  fits = (value_of-value_row _ _ _ _ v.fits).1;
}

pub snapshot_value-row_of :
    (i : AttemptResponseItem) → IsValid i → snapshot_value i ≡ ok (row_of i).value
unfolding snapshot_value row_of
snapshot_value-row_of i v = (value_of-value_row _ _ _ _ v.fits).0
