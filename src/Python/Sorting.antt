-- ===== src/Python/Sorting.antt =====
-- `list.sort(key=…)` and `sorted` by a text key, as the stable insertion sort, and the loops that
-- look for a repeated key by a `seen` set.
use mathlib.Core.List.{Perm}
use mathlib.Core.List.Perm
use eduvijna_aieos_backend.Prelude.{
  ◌≡◌, refl, ap, ◌∙◌, true, false, List, [], ◌∷◌, map, arith, if◌then◌else◌, Bool-cases, inl, inr,
  All, All-impl, All-map,
}
use eduvijna_aieos_backend.Python.Text.{
  Text, text_eq, text_lt, text_mem, text_eq_iff, text_eq_comm, text_lt_irrefl, text_lt_trans,
  text_lt_total,
}

module _ {ℓ} {A : Type ℓ} (key : A → Text) where
  -- An element goes before those with an equal key, which came after it.
  unfoldable pub insert_by : A → List A → List A
  insert_by x [] = x ∷ []
  insert_by x (y ∷ ys) =
      let rest = insert_by x ys in if text_lt (key y) (key x) then y ∷ rest else x ∷ y ∷ ys

  unfoldable pub sort_by : List A → List A
  unfolding insert_by
  sort_by [] = []
  sort_by (x ∷ xs) = insert_by x (sort_by xs)

  -- Every key is less than all later ones.
  abbrev pub IsSortedBy : List A → Type ℓ
  IsSortedBy [] = Unit
  IsSortedBy (x ∷ xs) = All (λ y. text_lt (key x) (key y) ≡ true) xs × IsSortedBy xs

  -- No key occurs twice.
  abbrev pub HasDistinct : List A → Type 0
  HasDistinct [] = Unit
  HasDistinct (x ∷ xs) = (text_mem (key x) (map key xs) ≡ false) × HasDistinct xs

  insert_by-perm : (x : A) (ys : List A) → Perm (insert_by x ys) (x ∷ ys)
  unfolding insert_by
  insert_by-perm x [] = Perm.refl (x ∷ [])
  insert_by-perm x (y ∷ ys) = elim (Bool-cases (text_lt (key y) (key x))) [
    | inl e ↦ rw e (Perm.trans (Perm.cons y (insert_by-perm x ys)) (Perm.swap x y ys))
    | inr e ↦ rw e (Perm.refl (x ∷ y ∷ ys))
  ]

  -- Sorting loses and repeats nothing.
  pub sort_by-perm : (xs : List A) → Perm (sort_by xs) xs
  unfolding sort_by
  sort_by-perm [] = Perm.refl []
  sort_by-perm (x ∷ xs) = Perm.trans (insert_by-perm x (sort_by xs)) (Perm.cons x (sort_by-perm xs))

  insert_by-All {κ} :
      (P : A → Type κ) (x : A) (ys : List A) → P x → All P ys → All P (insert_by x ys)
  unfolding insert_by
  insert_by-All P x [] p h = (p, tt)
  insert_by-All P x (y ∷ ys) p h = elim (Bool-cases (text_lt (key y) (key x))) [
    | inl e ↦ rw e (h.0, insert_by-All P x ys p h.1)
    | inr e ↦ rw e (p, h)
  ]

  -- What holds of every element holds of every element afterwards.
  pub sort_by-All {κ} : (P : A → Type κ) (xs : List A) → All P xs → All P (sort_by xs)
  unfolding sort_by
  sort_by-All P [] h = tt
  sort_by-All P (x ∷ xs) h = insert_by-All P x (sort_by xs) h.0 (sort_by-All P xs h.1)

  pub not_mem-All :
      (t : Text) (xs : List A)
      → text_mem t (map key xs) ≡ false
      → All (λ y. text_eq t (key y) ≡ false) xs
  unfolding text_mem
  not_mem-All t [] h = tt
  not_mem-All t (x ∷ xs) h = (ground arith, not_mem-All t xs (ground arith))

  lt_of_not_lt :
      (x y : A)
      → text_lt (key y) (key x) ≡ false
      → text_eq (key x) (key y) ≡ false
      → text_lt (key x) (key y) ≡ true
  lt_of_not_lt x y h k = ground (arith, text_lt_total (key x) (key y), text_eq_iff (key x) (key y))

  insert_by-IsSortedBy :
      (x : A) (ys : List A)
      → IsSortedBy ys
      → All (λ y. text_eq (key x) (key y) ≡ false) ys
      → IsSortedBy (insert_by x ys)
  unfolding insert_by
  insert_by-IsSortedBy x [] s f = (tt, tt)
  insert_by-IsSortedBy x (y ∷ ys) s f = elim (Bool-cases (text_lt (key y) (key x))) [
    | inl e ↦ rw e (
      insert_by-All (λ z. text_lt (key y) (key z) ≡ true) x ys e s.0,
      insert_by-IsSortedBy x ys s.1 f.1,
    )
    | inr e ↦
        let lt : text_lt (key x) (key y) ≡ true = lt_of_not_lt x y e f.0 in
        rw e (
          (
            lt,
            All-impl (λ z. text_lt (key y) (key z) ≡ true) (λ z. text_lt (key x) (key z) ≡ true) ys
                (λ z h. text_lt_trans (key x) (key y) (key z) lt h) s.0,
          ),
          s,
        )
  ]

  -- Sorting puts distinct keys into strictly ascending order.
  pub sort_by-IsSortedBy : (xs : List A) → HasDistinct xs → IsSortedBy (sort_by xs)
  unfolding sort_by
  sort_by-IsSortedBy [] d = tt
  sort_by-IsSortedBy (x ∷ xs) d =
      insert_by-IsSortedBy x (sort_by xs) (sort_by-IsSortedBy xs d.1)
        (sort_by-All (λ y. text_eq (key x) (key y) ≡ false) xs (not_mem-All (key x) xs d.0))

  not_lt_of_lt : (x y : A) → text_lt (key x) (key y) ≡ true → text_lt (key y) (key x) ≡ false
  not_lt_of_lt x y h = ground (arith, text_lt_trans (key x) (key y) (key x), text_lt_irrefl (key x))

  insert_by_of_IsSortedBy : (x : A) (ys : List A) → IsSortedBy (x ∷ ys) → insert_by x ys ≡ x ∷ ys
  unfolding insert_by
  insert_by_of_IsSortedBy x [] s = refl
  insert_by_of_IsSortedBy x (y ∷ ys) s = rw (not_lt_of_lt x y s.0.0)

  -- What is in order already is left as it is.
  pub sort_by_of_IsSortedBy : (xs : List A) → IsSortedBy xs → sort_by xs ≡ xs
  unfolding sort_by
  sort_by_of_IsSortedBy [] s = refl
  sort_by_of_IsSortedBy (x ∷ xs) s =
      ap (insert_by x) (sort_by_of_IsSortedBy xs s.1) ∙ insert_by_of_IsSortedBy x xs s

  not_mem_of_All :
      (t : Text) (xs : List A)
      → All (λ y. text_eq t (key y) ≡ false) xs
      → text_mem t (map key xs) ≡ false
  unfolding text_mem
  not_mem_of_All t [] h = refl
  not_mem_of_All t (x ∷ xs) h = rw h.0 (not_mem_of_All t xs h.1)

  text_eq_of_lt : (s t : Text) → text_lt s t ≡ true → text_eq s t ≡ false
  text_eq_of_lt s t h = ground (arith, text_eq_iff s t, text_lt_irrefl s)

  -- Strictly ascending keys are distinct.
  pub IsSortedBy-HasDistinct : (xs : List A) → IsSortedBy xs → HasDistinct xs
  IsSortedBy-HasDistinct [] s = tt
  IsSortedBy-HasDistinct (x ∷ xs) s = (
    not_mem_of_All (key x) xs (
        All-impl (λ y. text_lt (key x) (key y) ≡ true) (λ y. text_eq (key x) (key y) ≡ false) xs
          (λ y h. text_eq_of_lt (key x) (key y) h) s.0),
    IsSortedBy-HasDistinct xs s.1,
  )

-- The keys of a list in order are in order.
pub IsSortedBy-map {ℓ} :
    {A : Type ℓ} (key : A → Text) (xs : List A)
    → IsSortedBy key xs
    → IsSortedBy (λ (t : Text). t) (map key xs)
IsSortedBy-map key [] s = tt
IsSortedBy-map key (x ∷ xs) s =
    (All-map key (λ t. text_lt (key x) t ≡ true) xs s.0, IsSortedBy-map key xs s.1)

module _ {ℓ} {A : Type ℓ} (key : A → Text) where
  -- No key is in the `seen` set of a loop.
  abbrev pub Unseen : List Text → List A → Type 0
  Unseen seen xs = All (λ x. text_mem (key x) seen ≡ false) xs

  pub Unseen-cons :
      (q : Text) (seen : List Text) (xs : List A)
      → Unseen seen xs
      → text_mem q (map key xs) ≡ false
      → Unseen (q ∷ seen) xs
  unfolding text_mem
  Unseen-cons q seen [] u d = tt
  Unseen-cons q seen (x ∷ xs) u d =
      (ground (arith, text_eq_comm q (key x)), Unseen-cons q seen xs u.1 (ground arith))

  pub Unseen-of_cons :
      (q : Text) (seen : List Text) (xs : List A)
      → Unseen (q ∷ seen) xs
      → Unseen seen xs × (text_mem q (map key xs) ≡ false)
  unfolding text_mem
  Unseen-of_cons q seen [] u = (tt, refl)
  Unseen-of_cons q seen (x ∷ xs) u =
      let (rest, d) = Unseen-of_cons q seen xs u.1 in
      ((ground arith, rest), ground (arith, text_eq_comm q (key x)))

  pub Unseen-nil : (xs : List A) → Unseen [] xs
  unfolding text_mem
  Unseen-nil [] = tt
  Unseen-nil (x ∷ xs) = (refl, Unseen-nil xs)
