-- ===== src/Assessment/Objectives.antt =====
-- `_require_objective_ids` of evaluation.py and evaluation_input.py: the stripped identifiers, each
-- the first time that it occurs.
use eduvijna_aieos_backend.Prelude.{
  ℕ, ◌≡◌, refl, List, [], ◌∷◌, ok, ◌>>=◌, if◌then◌else◌, All, Ensures, Ensures-bind, Ensures-ok,
  Bool-cases, inl, inr,
}
use eduvijna_aieos_backend.Python.Text.{
  Text, IsClean, require_text, require_text-IsClean, require_text_of_IsClean, text_mem,
}
use eduvijna_aieos_backend.Python.Sorting.{
  HasDistinct, Unseen, Unseen-cons, Unseen-of_cons, Unseen-nil,
}
use eduvijna_aieos_backend.Assessment.Vocabulary.{Assessment, invalid_evaluation}

abbrev pub max_objective_id_length : ℕ
max_objective_id_length = 128

-- The loop, with its `seen` set: a repeated identifier is passed over.
unfoldable pub collect_objective_ids : List Text → List Text → Assessment (List Text)
collect_objective_ids seen [] = ok []
collect_objective_ids seen (item ∷ items) = do
  oid ← require_text invalid_evaluation max_objective_id_length item
  rest ← collect_objective_ids (if text_mem oid seen then seen else oid ∷ seen) items
  ok (if text_mem oid seen then rest else oid ∷ rest)

unfoldable pub require_objective_ids : List Text → Assessment (List Text)
unfolding collect_objective_ids
require_objective_ids value = collect_objective_ids [] value

abbrev self : Text → Text
self t = t

-- What holds of the identifiers that are kept: each is clean, and none occurs twice.
pub record AreObjectives (ids : List Text) : Type 0 where
  pub clean : All (IsClean max_objective_id_length) ids
  pub distinct : HasDistinct (λ (t : Text). t) ids

collect-Ensures :
    (seen items : List Text)
    → Ensures
        (λ ids.
          All (IsClean max_objective_id_length) ids × Unseen self seen ids × HasDistinct self ids)
        (collect_objective_ids seen items)
unfolding collect_objective_ids
collect-Ensures seen [] = (tt, tt, tt)
collect-Ensures seen (item ∷ items) =
    Ensures-bind _ (require_text invalid_evaluation max_objective_id_length item) _ λ oid hoid.
      Ensures-bind _ (collect_objective_ids (if text_mem oid seen then seen else oid ∷ seen) items)
        _
        λ rest hrest. elim (Bool-cases (text_mem oid seen)) [
          | inl old ↦ rw old (
              Ensures-ok
                (λ ids.
                  All (IsClean max_objective_id_length) ids
                  × Unseen self seen ids
                  × HasDistinct self ids)
                (collect_objective_ids seen items) rest (collect-Ensures seen items)
                (rw old at hrest))
          | inr new ↦
              let (c, u, d) =
                Ensures-ok
                  (λ ids.
                    All (IsClean max_objective_id_length) ids
                    × Unseen self (oid ∷ seen) ids
                    × HasDistinct self ids)
                  (collect_objective_ids (oid ∷ seen) items) rest
                  (collect-Ensures (oid ∷ seen) items) (rw new at hrest) in
              let (v, n) = Unseen-of_cons self oid seen rest u in
              rw new ((require_text-IsClean _ _ item oid hoid, c), (new, v), (n, d))
        ]

-- The identifiers that are kept are clean and distinct.
pub require-AreObjectives :
    (value ids : List Text) → require_objective_ids value ≡ ok ids → AreObjectives ids
unfolding require_objective_ids
require-AreObjectives value ids h =
    let (c, u, d) =
      Ensures-ok
        (λ ids.
          All (IsClean max_objective_id_length) ids × Unseen self [] ids × HasDistinct self ids)
        _ ids (collect-Ensures [] value) h in
    record { clean = c; distinct = d }

collect_of_distinct :
    (seen ids : List Text)
    → All (IsClean max_objective_id_length) ids
    → Unseen self seen ids
    → HasDistinct self ids
    → collect_objective_ids seen ids ≡ ok ids
unfolding collect_objective_ids
collect_of_distinct seen [] c u d = refl
collect_of_distinct seen (oid ∷ ids) c u d = simp (
  require_text_of_IsClean invalid_evaluation max_objective_id_length oid c.0,
  u.0,
  collect_of_distinct (oid ∷ seen) ids c.1 (Unseen-cons self oid seen ids u.1 d.0) d.1,
)

-- Clean and distinct identifiers are kept as they are.
pub require_of_AreObjectives :
    (ids : List Text) → AreObjectives ids → require_objective_ids ids ≡ ok ids
unfolding require_objective_ids
require_of_AreObjectives ids h = collect_of_distinct [] ids h.clean (Unseen-nil self ids) h.distinct
