-- ===== src/Learning/Snapshot/Order.antt =====
-- When a snapshot is made of working items, and that it is in order.
use mathlib.Core.Path.{subst}
use mathlib.Core.List.{Perm}
use eduvijna_aieos_backend.Prelude.{
  ◌≡◌, refl, sym, ap, ◌∙◌, not, List, [], ◌∷◌, map, ok, arith, All, All-impl, All-map, Ensures,
  Ensures-bind, Ensures-guard, Ensures-ok, ok-injective,
}
use eduvijna_aieos_backend.Python.Text.{Text, text_mem}
use eduvijna_aieos_backend.Python.Sorting.{
  sort_by, HasDistinct, sort_by-perm, sort_by-IsSortedBy, sort_by-All,
}
use eduvijna_aieos_backend.Python.Scalars.{text}
use eduvijna_aieos_backend.Learning.Vocabulary.{member, invalid_submission}
use eduvijna_aieos_backend.Learning.ResponseItem.{AttemptResponseItem, IsValid, snapshot_value}
use eduvijna_aieos_backend.Learning.Snapshot.{
  SubmissionResponseItem, make_row, snapshot_rows, canonical_response_snapshot, IsValidRow,
  IsSnapshot,
}
use eduvijna_aieos_backend.Learning.Snapshot.Rows.{
  make_row_of_member, row_of, row_of-IsValidRow, snapshot_value-row_of,
}
use eduvijna_aieos_backend.Python.Sorting.{Unseen, Unseen-cons, Unseen-of_cons, Unseen-nil}

abbrev item_key : AttemptResponseItem → Text
item_key i = i.question_id

abbrev row_key : SubmissionResponseItem → Text
row_key r = r.question_id

-- The loop over valid items with distinct, unseen questions makes their rows.
snapshot_rows_of_distinct :
    (seen : List Text) (items : List AttemptResponseItem)
    → All IsValid items
    → Unseen item_key seen items
    → HasDistinct item_key items
    → snapshot_rows seen items ≡ ok (map row_of items)
unfolding snapshot_rows row_of
snapshot_rows_of_distinct seen [] v u d = refl
snapshot_rows_of_distinct seen (i ∷ items) v u d = simp (
  u.0,
  snapshot_value-row_of i v.0,
  make_row_of_member (row_of i) (row_of-IsValidRow i v.0),
  snapshot_rows_of_distinct (i.question_id ∷ seen) items v.1
      (Unseen-cons item_key i.question_id seen items u.1 d.0) d.1,
)

-- The loop returns only if the questions are distinct and unseen.
snapshot_rows-Ensures :
    (seen : List Text) (items : List AttemptResponseItem)
    → Ensures
        (λ (rows : List SubmissionResponseItem).
          Unseen item_key seen items × HasDistinct item_key items)
        (snapshot_rows seen items)
unfolding snapshot_rows
snapshot_rows-Ensures seen [] = (tt, tt)
snapshot_rows-Ensures seen (i ∷ items) =
    Ensures-guard _ (not (text_mem i.question_id seen)) invalid_submission _ λ h.
      Ensures-bind _ (snapshot_value i) _ λ value _.
        Ensures-bind _ (make_row (text i.question_id) (member i.response_kind) value) _ λ row _.
          Ensures-bind _ (snapshot_rows (i.question_id ∷ seen) items) _ λ rows hr.
            let (u, d) =
              Ensures-ok _ _ rows (snapshot_rows-Ensures (i.question_id ∷ seen) items) hr in
            let (v, n) = Unseen-of_cons item_key i.question_id seen items u in
            ((ground arith, v), (n, d))

rows_IsValidRow :
    (items : List AttemptResponseItem) → All IsValid items → All IsValidRow (map row_of items)
rows_IsValidRow items v =
    All-map row_of IsValidRow items
      (All-impl IsValid (λ i. IsValidRow (row_of i)) items row_of-IsValidRow v)

keys_of_rows :
    (items : List AttemptResponseItem) → map row_key (map row_of items) ≡ map item_key items
unfolding row_of
keys_of_rows [] = refl
keys_of_rows (i ∷ items) = ap (λ ks. i.question_id ∷ ks) (keys_of_rows items)

rows_HasDistinct :
    (items : List AttemptResponseItem)
    → HasDistinct item_key items
    → HasDistinct row_key (map row_of items)
unfolding row_of
rows_HasDistinct [] d = tt
rows_HasDistinct (i ∷ items) d = (rw (keys_of_rows items) d.0, rows_HasDistinct items d.1)

-- Valid items of distinct questions have a snapshot: their rows, ordered by question.
pub canonical_of_distinct :
    (items : List AttemptResponseItem)
    → All IsValid items
    → HasDistinct (λ (i : AttemptResponseItem). i.question_id) items
    → canonical_response_snapshot items
      ≡ ok (sort_by (λ (row : SubmissionResponseItem). row.question_id) (map row_of items))
unfolding canonical_response_snapshot
canonical_of_distinct items v d =
    simp (snapshot_rows_of_distinct [] items v (Unseen-nil item_key items) d)

canonical-Ensures :
    (items : List AttemptResponseItem)
    → Ensures
        (λ (rows : List SubmissionResponseItem). HasDistinct item_key items)
        (canonical_response_snapshot items)
unfolding canonical_response_snapshot
canonical-Ensures items =
    Ensures-bind _ (snapshot_rows [] items) _
      λ rows h. (Ensures-ok _ _ rows (snapshot_rows-Ensures [] items) h).1

-- A snapshot is made of no items of which two answer one question.
pub HasDistinct-of_canonical :
    (items : List AttemptResponseItem) (rows : List SubmissionResponseItem)
    → canonical_response_snapshot items ≡ ok rows
    → HasDistinct (λ (i : AttemptResponseItem). i.question_id) items
HasDistinct-of_canonical items rows h =
    Ensures-ok (λ (r : List SubmissionResponseItem). HasDistinct item_key items) _ rows
      (canonical-Ensures items) h

-- The snapshot of valid items consists of valid rows in strictly ascending order of their
-- questions, and is a permutation of the rows of the items.
pub canonical-IsSnapshot :
    (items : List AttemptResponseItem) (rows : List SubmissionResponseItem)
    → All IsValid items
    → canonical_response_snapshot items ≡ ok rows
    → IsSnapshot rows × Perm rows (map row_of items)
canonical-IsSnapshot items rows v h =
    let d = HasDistinct-of_canonical items rows h in
    let e : sort_by row_key (map row_of items) ≡ rows =
      ok-injective _ _ (sym (canonical_of_distinct items v d) ∙ h) in
    subst (λ rs. IsSnapshot rs × Perm rs (map row_of items)) e
      (
        record {
          valid_rows = sort_by-All row_key IsValidRow (map row_of items) (rows_IsValidRow items v);
          ascending = sort_by-IsSortedBy row_key (map row_of items) (rows_HasDistinct items d);
        },
        sort_by-perm row_key (map row_of items),
      )
