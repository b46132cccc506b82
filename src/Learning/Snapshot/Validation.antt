-- ===== src/Learning/Snapshot/Validation.antt =====
-- The validation of a snapshot: what it lets through, and that snapshots are read back.
use mathlib.Core.Path.{subst}
use eduvijna_aieos_backend.Prelude.{
  ◌≡◌, refl, sym, true, not, List, [], ◌∷◌, map, ok, arith, All, Ensures, Ensures-bind,
  Ensures-guard, Ensures-ok, err, err-ne-ok, All-of_map, map_id,
}
use eduvijna_aieos_backend.Python.Text.{Text, text_lt, text_mem, text_eq_refl, text_eq_iff}
use eduvijna_aieos_backend.Python.Sorting.{
  sort_by, HasDistinct, IsSortedBy, sort_by-IsSortedBy, sort_by_of_IsSortedBy, IsSortedBy-map,
  IsSortedBy-HasDistinct,
}
use eduvijna_aieos_backend.Learning.Vocabulary.{invalid_submission}
use eduvijna_aieos_backend.Learning.Snapshot.{
  SubmissionResponseItem, as_persistable_mapping, Entry, item, mapping, validated_row,
  validated_rows, texts_eq, question_ids, sequence, validate_response_snapshot, IsValidRow,
  IsSnapshot, SnapshotArgument, not_a_sequence, Mapping, meets, keys_of, forbidden_snapshot_keys,
}
use eduvijna_aieos_backend.Learning.Snapshot.Rows.{
  validated_row-item, validated_row-mapping, validated_row-Ensures,
}
use eduvijna_aieos_backend.Python.Sorting.{Unseen, Unseen-cons, Unseen-of_cons, Unseen-nil}

abbrev row_key : SubmissionResponseItem → Text
row_key r = r.question_id

-- The loop over entries that are read as the given rows.
validated_rows_of :
    (entry : SubmissionResponseItem → Entry)
    → ((row : SubmissionResponseItem) → IsValidRow row → validated_row (entry row) ≡ ok row)
    → (seen : List Text) (rows : List SubmissionResponseItem) → All IsValidRow rows
    → Unseen row_key seen rows
    → HasDistinct row_key rows
    → validated_rows seen (map entry rows) ≡ ok rows
unfolding validated_rows
validated_rows_of entry reads seen [] v u d = refl
validated_rows_of entry reads seen (row ∷ rows) v u d = simp (
  reads row v.0,
  u.0,
  validated_rows_of entry reads (row.question_id ∷ seen) rows v.1
      (Unseen-cons row_key row.question_id seen rows u.1 d.0) d.1,
)

texts_eq_refl : (ts : List Text) → texts_eq ts ts ≡ true
unfolding texts_eq
texts_eq_refl [] = refl
texts_eq_refl (t ∷ ts) = rw (text_eq_refl t) (texts_eq_refl ts)

eq_of_texts_eq : (ss ts : List Text) → texts_eq ss ts ≡ true → ss ≡ ts
unfolding texts_eq
eq_of_texts_eq [] [] h = refl
eq_of_texts_eq [] (t ∷ ts) h = cc
eq_of_texts_eq (s ∷ ss) [] h = cc
eq_of_texts_eq (s ∷ ss) (t ∷ ts) h = ground (arith, text_eq_iff s t, eq_of_texts_eq ss ts)

validate_of :
    (entry : SubmissionResponseItem → Entry)
    → ((row : SubmissionResponseItem) → IsValidRow row → validated_row (entry row) ≡ ok row)
    → (rows : List SubmissionResponseItem) → IsSnapshot rows
    → validate_response_snapshot (sequence (map entry rows)) ≡ ok rows
unfolding validate_response_snapshot
validate_of entry reads rows s = simp (
  validated_rows_of entry reads [] rows s.valid_rows (Unseen-nil row_key rows)
      (IsSortedBy-HasDistinct row_key rows s.ascending),
  sort_by_of_IsSortedBy (λ (t : Text). t) (question_ids rows)
      (IsSortedBy-map row_key rows s.ascending),
  texts_eq_refl (question_ids rows),
)

-- A snapshot is read back as it was, from its rows and from the mappings that are stored for them.
pub validate_of_IsSnapshot :
    (rows : List SubmissionResponseItem)
    → IsSnapshot rows
    → (validate_response_snapshot (sequence (map item rows)) ≡ ok rows)
      × (validate_response_snapshot
            (sequence (map (λ row. mapping (as_persistable_mapping row)) rows))
          ≡ ok rows)
validate_of_IsSnapshot rows s = (
  validate_of item validated_row-item rows s,
  validate_of (λ row. mapping (as_persistable_mapping row)) validated_row-mapping rows s,
)

validated_rows-Ensures :
    (seen : List Text) (entries : List Entry)
    → Ensures
        (λ rows. All IsValidRow rows × Unseen row_key seen rows × HasDistinct row_key rows)
        (validated_rows seen entries)
unfolding validated_rows
validated_rows-Ensures seen [] = (tt, tt, tt)
validated_rows-Ensures seen (entry ∷ entries) = Ensures-bind _ (validated_row entry) _ λ row hrow.
    Ensures-guard _ (not (text_mem row.question_id seen)) invalid_submission _ λ new.
      Ensures-bind _ (validated_rows (row.question_id ∷ seen) entries) _ λ rows hrows.
        let (v, u, d) =
          Ensures-ok
            (λ rs.
              All IsValidRow rs
              × Unseen row_key (row.question_id ∷ seen) rs
              × HasDistinct row_key rs)
            _ rows (validated_rows-Ensures (row.question_id ∷ seen) entries) hrows in
        let (w, n) = Unseen-of_cons row_key row.question_id seen rows u in
        (
          (Ensures-ok IsValidRow _ row (validated_row-Ensures entry) hrow, v),
          (ground arith, w),
          (n, d),
        )

keys-HasDistinct :
    (rows : List SubmissionResponseItem)
    → HasDistinct row_key rows
    → HasDistinct (λ (t : Text). t) (question_ids rows)
keys-HasDistinct [] d = tt
keys-HasDistinct (row ∷ rows) d = (rw (map_id (question_ids rows)) d.0, keys-HasDistinct rows d.1)

IsSortedBy-of_keys :
    (rows : List SubmissionResponseItem)
    → IsSortedBy (λ (t : Text). t) (question_ids rows)
    → IsSortedBy row_key rows
IsSortedBy-of_keys [] s = tt
IsSortedBy-of_keys (row ∷ rows) s = (
  All-of_map row_key (λ t. text_lt row.question_id t ≡ true) rows s.0,
  IsSortedBy-of_keys rows s.1,
)

validate-Ensures :
    (entries : List Entry) → Ensures IsSnapshot (validate_response_snapshot (sequence entries))
unfolding validate_response_snapshot
validate-Ensures entries = Ensures-bind IsSnapshot (validated_rows [] entries) _ λ rows h.
    Ensures-guard IsSnapshot
      (texts_eq (question_ids rows) (sort_by (λ (t : Text). t) (question_ids rows)))
      invalid_submission _
      λ same.
        let (v, u, d) =
          Ensures-ok (λ rs. All IsValidRow rs × Unseen row_key [] rs × HasDistinct row_key rs) _
            rows (validated_rows-Ensures [] entries) h in
        record {
          valid_rows = v;
          ascending = IsSortedBy-of_keys rows (
              subst (IsSortedBy (λ (t : Text). t)) (sym (eq_of_texts_eq _ _ same)) (
                sort_by-IsSortedBy (λ (t : Text). t) (question_ids rows)
                  (keys-HasDistinct rows d)));
        }

-- Whatever is validated, what comes out is a snapshot: valid rows, strictly ascending by question.
pub validate-IsSnapshot :
    (value : SnapshotArgument) (rows : List SubmissionResponseItem)
    → validate_response_snapshot value ≡ ok rows
    → IsSnapshot rows
validate-IsSnapshot (sequence entries) rows h =
    Ensures-ok IsSnapshot _ rows (validate-Ensures entries) h
validate-IsSnapshot not_a_sequence rows h =
    unfold validate_response_snapshot in absurd (err-ne-ok _ _ h)

-- An entry with a forbidden key ends the validation, whatever else it and the others hold.
pub forbidden_rejected :
    (m : Mapping) (entries : List Entry)
    → meets (keys_of m) forbidden_snapshot_keys ≡ true
    → validate_response_snapshot (sequence (mapping m ∷ entries)) ≡ err invalid_submission
unfolding validate_response_snapshot validated_rows validated_row
forbidden_rejected m entries h = simp h
