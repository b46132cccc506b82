-- ===== src/Workflows/Tables.antt =====
-- The statements of persistence/repositories.py on one table, for rows of any type.
pub mod Keys
pub mod Lookup
use eduvijna_aieos_backend.Prelude.{
  ℕ, Bool, true, false, ◌||◌, Option, none, some, List, [], ◌∷◌, ltb, if◌then◌else◌,
}

module _ {A : Type 0} where
  module _ (available : A → ℕ) where
    abbrev pub earlier_row : Bool → A → Option A → Option A
    earlier_row false x best = best
    earlier_row true x none = some x
    earlier_row true x (some best) = some (if ltb (available best) (available x) then best else x)

    -- `ORDER BY available_at LIMIT 1` of the rows that pass the test.
    unfoldable pub select_first : (A → Bool) → List A → Option A
    select_first test [] = none
    select_first test (x ∷ rows) = earlier_row (test x) x (select_first test rows)

  -- `update(…).where(…).values(…)`
  unfoldable pub update_rows : (A → Bool) → (A → A) → List A → List A
  update_rows test change [] = []
  update_rows test change (x ∷ rows) =
      (if test x then change x else x) ∷ update_rows test change rows

  -- `bool(result.rowcount)`, and the rows that a join has.
  unfoldable pub any_row : (A → Bool) → List A → Bool
  any_row test [] = false
  any_row test (x ∷ rows) = test x || any_row test rows
