-- ===== src/Workflows/Tables/Lookup.antt =====
-- Lookups in the rows of a table before and after an update, and the selection of the earliest row.
use mathlib.Core.Option.{some-injective, none-ne-some}
use eduvijna_aieos_backend.Prelude.{
  ℕ, ◌≤◌, ◌≡◌, refl, sym, ap, ◌∙◌, Bool, true, false, ◌||◌, Option, none, some, List, [], ◌∷◌, ltb,
  In, first, Bool-cases, inl, inr, arith,
}
use eduvijna_aieos_backend.Workflows.Tables.{earlier_row, select_first, update_rows, any_row}

or_true : (a b : Bool) → a ≡ true → (a || b) ≡ true
or_true a b p = ground arith

or_right : (a b : Bool) → b ≡ true → (a || b) ≡ true
or_right a b p = ground arith

module _ {A : Type 0} where
  -- A row that is found and updated is found in its place.
  pub first-update_rows :
      (key test : A → Bool) (change : A → A) (rows : List A) (x : A)
      → ((y : A) → key (change y) ≡ key y)
      → test x ≡ true
      → first key rows ≡ some x
      → (first key (update_rows test change rows) ≡ some (change x)) × (any_row test rows ≡ true)
  unfolding first update_rows any_row
  first-update_rows key test change [] x keeps t h = absurd (none-ne-some x h)
  first-update_rows key test change (y ∷ rows) x keeps t h = elim (Bool-cases (key y)) [
    | inl e ↦
        let same : y ≡ x = some-injective _ _ (rw e at h) in
        let passes : test y ≡ true = ap test same ∙ t in
        (rw passes (rw (keeps y ∙ e) (ap (λ z. some (change z)) same)), or_true _ _ passes)
    | inr e ↦
        let (g, a) = first-update_rows key test change rows x keeps t (rw e at h) in
        (
          elim (Bool-cases (test y)) [ inl p ↦ rw p (rw (keeps y ∙ e) g) | inr p ↦ rw p (rw e g) ],
          or_right _ _ a,
        )
  ]

  -- A lookup finds what it found when the update does not reach the rows it is about.
  pub first-untouched :
      (key test : A → Bool) (change : A → A) (rows : List A)
      → ((y : A) → key (change y) ≡ key y)
      → ((y : A) → key y ≡ true → test y ≡ false)
      → first key (update_rows test change rows) ≡ first key rows
  unfolding first update_rows
  first-untouched key test change [] keeps spares = refl
  first-untouched key test change (y ∷ rows) keeps spares =
      let rest = first-untouched key test change rows keeps spares in
      elim (Bool-cases (key y)) [
        | inl e ↦ rw (spares y e) (rw e refl)
        | inr e ↦ elim (Bool-cases (test y)) [
          | inl p ↦ rw p (rw (keeps y ∙ e) (rw e rest))
          | inr p ↦ rw p (rw e rest)
        ]
      ]

  -- The one row of a key is found by it.
  pub first_of_In :
      (key : A → Bool) (rows : List A) (x : A)
      → key x ≡ true
      → In x rows
      → ((y : A) → In y rows → key y ≡ true → y ≡ x)
      → first key rows ≡ some x
  unfolding first
  first_of_In key [] x e i only = absurd i
  first_of_In key (y ∷ rows) x e (inl p) only = rw (sym p) (rw e refl)
  first_of_In key (y ∷ rows) x e (inr i) only = elim (Bool-cases (key y)) [
    | inl g ↦ rw g (ap some (only y (inl refl) g))
    | inr g ↦ rw g (first_of_In key rows x e i (λ z j h. only z (inr j) h))
  ]

  module _ (available : A → ℕ) where
    least_of_two :
        (x row : A) (best : Option A)
        → earlier_row available true x best ≡ some row
        → available row ≤ available x
    least_of_two x row none h = rw (sym (ap available (some-injective _ _ h))) (omega arith)
    least_of_two x row (some r) h = elim (Bool-cases (ltb (available r) (available x))) [
      | inl e ↦ rw (sym (ap available (some-injective _ _ (rw e at h)))) (ground arith)
      | inr e ↦ rw (sym (ap available (some-injective _ _ (rw e at h)))) (omega arith)
    ]

    earlier_of_rest :
        (b : Bool) (x r : A)
        → (row : A) × (earlier_row available b x (some r) ≡ some row)
          × (available row ≤ available r)
    earlier_of_rest false x r = (r, refl, omega arith)
    earlier_of_rest true x r = elim (Bool-cases (ltb (available r) (available x))) [
      | inl e ↦ rw e (r, refl, omega arith)
      | inr e ↦ rw e (x, refl, ground arith)
    ]

    -- When a row passes the test, one is selected, and it is not after that row.
    pub select_first-least :
        (test : A → Bool) (rows : List A) (x : A)
        → test x ≡ true
        → In x rows
        → (y : A) × (select_first available test rows ≡ some y) × (available y ≤ available x)
    unfolding select_first
    select_first-least test [] x e i = absurd i
    select_first-least test (y ∷ rows) x e (inl p) =
        let found = earlier_some y (select_first available test rows) in
        (
          found.0,
          rw (sym (ap test p)) (rw e found.1),
          rw p (least_of_two y found.0 (select_first available test rows) found.1),
        )
      where
        earlier_some :
            (z : A) (best : Option A) → (r : A) × (earlier_row available true z best ≡ some r)
        earlier_some z none = (z, refl)
        earlier_some z (some best) = (_, refl)
    select_first-least test (y ∷ rows) x e (inr i) =
        let found = select_first-least test rows x e i in
        let earlier = earlier_of_rest (test y) y found.0 in
        (earlier.0, rw found.1 earlier.1, below earlier.2 found.2)
      where
        below : {k m n : ℕ} → k ≤ m → m ≤ n → k ≤ n
        below p q = omega (arith, p, q)
