-- ===== src/Workflows/Tables/Keys.antt =====
-- What updates and selections do to the rows of a table with a primary key.
use mathlib.Core.Path.{subst}
use mathlib.Core.Option.{some-injective}
use eduvijna_aieos_backend.Prelude.{
  ℕ, ◌≡◌, ◌≢◌, refl, sym, ap, ◌∙◌, Bool, true, false, Option, none, some, List, [], ◌∷◌, ltb, All,
  In, Bool-cases, inl, inr, ◌⊎◌,
}
use eduvijna_aieos_backend.Workflows.Tables.{earlier_row, select_first, update_rows, any_row}

module _ {A : Type 0} where
  -- An update keeps what its change keeps on the rows that pass the test.
  pub update_rows-All :
      (P : A → Type 0) (test : A → Bool) (change : A → A) (rows : List A)
      → ((x : A) → In x rows → test x ≡ true → P x → P (change x))
      → All P rows
      → All P (update_rows test change rows)
  unfolding update_rows
  update_rows-All P test change [] f h = tt
  update_rows-All P test change (x ∷ rows) f h = (
    elim (Bool-cases (test x)) [ inl e ↦ rw e (f x (inl refl) e h.0) | inr e ↦ rw e h.0 ],
    update_rows-All P test change rows (λ y i. f y (inr i)) h.1,
  )

  -- A row that does not pass the test stays.
  pub update_rows-In :
      (test : A → Bool) (change : A → A) (rows : List A) (x : A)
      → test x ≡ false
      → In x rows
      → In x (update_rows test change rows)
  unfolding update_rows
  update_rows-In test change [] x e i = i
  update_rows-In test change (y ∷ rows) x e (inl p) = inl (rw (sym p) (rw e refl))
  update_rows-In test change (y ∷ rows) x e (inr i) = inr (update_rows-In test change rows x e i)

  module _ (available : A → ℕ) where
    earlier-or :
        (b : Bool) (x row : A) (best : Option A)
        → earlier_row available b x best ≡ some row
        → ((x ≡ row) × (b ≡ true)) ⊎ (best ≡ some row)
    earlier-or false x row best h = inr h
    earlier-or true x row none h = inl (some-injective _ _ h, refl)
    earlier-or true x row (some r) h = elim (Bool-cases (ltb (available r) (available x))) [
      | inl e ↦ inr (rw e at h)
      | inr e ↦ inl (some-injective _ _ (rw e at h), refl)
    ]

    -- The row that is selected is one of the rows, and passes the test.
    pub select_first-In :
        (test : A → Bool) (rows : List A) (row : A)
        → select_first available test rows ≡ some row
        → In row rows × (test row ≡ true)
    unfolding select_first
    select_first-In test [] row h = cc
    select_first-In test (x ∷ rows) row h =
        elim (earlier-or (test x) x row (select_first available test rows) h) [
          | inl (e, t) ↦ (inl (sym e), ap test (sym e) ∙ t)
          | inr g ↦ let (i, t) = select_first-In test rows row g in (inr i, t)
        ]

  -- A row of a join exists.
  pub any_row-In :
      (test : A → Bool) (rows : List A)
      → any_row test rows ≡ true
      → (x : A) × (In x rows × (test x ≡ true))
  unfolding any_row
  any_row-In test [] h = cc
  any_row-In test (x ∷ rows) h = elim (Bool-cases (test x)) [
    | inl e ↦ (x, (inl refl, e))
    | inr e ↦ let found = any_row-In test rows (rw e at h) in (found.0, (inr found.1.0, found.1.1))
  ]

  module _ (key : A → ℕ) where
    -- No two rows have one key.
    abbrev pub HaveKeys : List A → Type 0
    HaveKeys [] = Unit
    HaveKeys (x ∷ rows) = All (λ y. key y ≢ key x) rows × HaveKeys rows

    absent : (x y : A) (rows : List A) → In y rows → All (λ z. key z ≢ key x) rows → key y ≢ key x
    absent x y [] i h = absurd i
    absent x y (z ∷ rows) (inl p) h = subst (λ a. key a ≢ key x) (sym p) h.0
    absent x y (z ∷ rows) (inr i) h = absent x y rows i h.1

    -- Two rows with one key are one row.
    pub same_row :
        (x y : A) (rows : List A) → HaveKeys rows → In x rows → In y rows → key x ≡ key y → x ≡ y
    same_row x y [] k i j e = absurd i
    same_row x y (z ∷ rows) k (inl p) (inl q) e = p ∙ sym q
    same_row x y (z ∷ rows) k (inl p) (inr j) e = absurd (absent z y rows j k.0 (sym e ∙ ap key p))
    same_row x y (z ∷ rows) k (inr i) (inl q) e = absurd (absent z x rows i k.0 (e ∙ ap key q))
    same_row x y (z ∷ rows) k (inr i) (inr j) e = same_row x y rows k.1 i j e

    other_keys :
        (test : A → Bool) (change : A → A) (x : A) (rows : List A)
        → ((y : A) → key (change y) ≡ key y)
        → All (λ y. key y ≢ key x) rows
        → All (λ y. key y ≢ key x) (update_rows test change rows)
    other_keys test change x rows keeps h =
        update_rows-All (λ y. key y ≢ key x) test change rows (λ y i e ne q. ne (sym (keeps y) ∙ q))
          h

    pub update_rows-HaveKeys :
        (test : A → Bool) (change : A → A) (rows : List A)
        → ((y : A) → key (change y) ≡ key y)
        → HaveKeys rows
        → HaveKeys (update_rows test change rows)
    unfolding update_rows
    update_rows-HaveKeys test change [] keeps h = tt
    update_rows-HaveKeys test change (x ∷ rows) keeps h =
        let rest = update_rows-HaveKeys test change rows keeps h.1 in
        elim (Bool-cases (test x)) [
          | inl e ↦ rw e (rw (keeps x) (other_keys test change x rows keeps h.0), rest)
          | inr e ↦ rw e (other_keys test change x rows keeps h.0, rest)
        ]
