-- ===== src/Python/Text/Laws.antt =====
-- Stripping twice changes nothing, the order of texts is a strict total order, and the values that
-- `require_text` returns are those that it accepts unchanged.
use eduvijna_aieos_backend.Prelude.{
  ℕ, ◌≡◌, ◌↔◌, refl, ap, sym, ◌∙◌, true, false, [], ◌∷◌, arith, Bool-cases, inl, inr, ◌⊎◌, length,
  ok, ltb, err-ne-ok, ok-injective,
}
use eduvijna_aieos_backend.Python.Text.Defs.{
  Text, is_space, lstrip, rstrip, rstrip_cons, strip, text_eq, text_lt, IsClean, require_stripped,
  require_text,
}

-- Not beginning with a space.
abbrev Tight : Text → Type 0
Tight [] = Unit
Tight (c ∷ s) = is_space c ≡ false

lstrip-Tight : (s : Text) → Tight (lstrip s)
unfolding lstrip
lstrip-Tight [] = tt
lstrip-Tight (c ∷ s) = elim (Bool-cases (is_space c)) [
  | inl h ↦ rw h (lstrip-Tight s)
  | inr h ↦ rw h h
]

lstrip_of_Tight : (s : Text) → Tight s → lstrip s ≡ s
unfolding lstrip
lstrip_of_Tight [] h = refl
lstrip_of_Tight (c ∷ s) h = rw h

rstrip_cons-Tight : (c : ℕ) (s : Text) → is_space c ≡ false → Tight (rstrip_cons c s)
rstrip_cons-Tight c [] h = rw h h
rstrip_cons-Tight c (d ∷ s) h = h

rstrip-Tight : (s : Text) → Tight s → Tight (rstrip s)
unfolding rstrip
rstrip-Tight [] h = tt
rstrip-Tight (c ∷ s) h = rstrip_cons-Tight c (rstrip s) h

rstrip_cons_idem : (c : ℕ) (s : Text) → rstrip s ≡ s → rstrip (rstrip_cons c s) ≡ rstrip_cons c s
unfolding rstrip
rstrip_cons_idem c [] h = elim (Bool-cases (is_space c)) [ inl e ↦ rw e | inr e ↦ rw (e, e) ]
rstrip_cons_idem c (d ∷ s) h = ap (rstrip_cons c) h

rstrip_idem : (s : Text) → rstrip (rstrip s) ≡ rstrip s
unfolding rstrip
rstrip_idem [] = refl
rstrip_idem (c ∷ s) = rstrip_cons_idem c (rstrip s) (rstrip_idem s)

pub strip_idem : (s : Text) → strip (strip s) ≡ strip s
unfolding strip
strip_idem s =
    rw (lstrip_of_Tight (rstrip (lstrip s)) (rstrip-Tight (lstrip s) (lstrip-Tight s)))
      (rstrip_idem (lstrip s))

pub text_eq_refl : (s : Text) → text_eq s s ≡ true
unfolding text_eq
text_eq_refl [] = refl
text_eq_refl (c ∷ s) = ground (arith, text_eq_refl s)

pub eq_of_text_eq : (s t : Text) → text_eq s t ≡ true → s ≡ t
unfolding text_eq
eq_of_text_eq [] [] h = refl
eq_of_text_eq [] (d ∷ t) h = cc
eq_of_text_eq (c ∷ s) [] h = cc
eq_of_text_eq (c ∷ s) (d ∷ t) h = ground (arith, eq_of_text_eq s t)

pub text_eq_iff : (s t : Text) → (text_eq s t ≡ true) ↔ (s ≡ t)
text_eq_iff s t = (eq_of_text_eq s t, λ e. rw e (text_eq_refl t))

pub text_lt_irrefl : (s : Text) → text_lt s s ≡ false
unfolding text_lt
text_lt_irrefl [] = refl
text_lt_irrefl (c ∷ s) = ground (arith, text_lt_irrefl s)

pub text_lt_trans : (s t u : Text) → text_lt s t ≡ true → text_lt t u ≡ true → text_lt s u ≡ true
unfolding text_lt
text_lt_trans [] [] u h k = cc
text_lt_trans [] (d ∷ t) [] h k = cc
text_lt_trans [] (d ∷ t) (e ∷ u) h k = refl
text_lt_trans (c ∷ s) [] u h k = cc
text_lt_trans (c ∷ s) (d ∷ t) [] h k = cc
text_lt_trans (c ∷ s) (d ∷ t) (e ∷ u) h k = ground (arith, text_lt_trans s t u)

-- Of two texts neither of which is less, each is the other.
pub text_lt_total : (s t : Text) → (text_lt s t ≡ true) ⊎ ((s ≡ t) ⊎ (text_lt t s ≡ true))
unfolding text_lt
text_lt_total [] [] = inr (inl refl)
text_lt_total [] (d ∷ t) = inl refl
text_lt_total (c ∷ s) [] = inr (inr refl)
text_lt_total (c ∷ s) (d ∷ t) = ground (arith, text_lt_total s t)

require_stripped-IsClean {ℓ} :
    {E : Type ℓ} (e : E) (m : ℕ) (t s : Text)
    → strip t ≡ t
    → require_stripped e m t ≡ ok s
    → IsClean m s
require_stripped-IsClean e m [] s p h = cc
require_stripped-IsClean e m (c ∷ t) s p h = elim (Bool-cases (ltb m (length (c ∷ t)))) [
  | inl b ↦ absurd (err-ne-ok _ _ (rw b at h))
  | inr b ↦
      let q : c ∷ t ≡ s = ok-injective _ _ (rw b at h) in
      record { stripped = rw (← q) p; non_empty = λ n. cc; bounded = rw (← q) (ground arith) }
]

-- What `require_text` returns is clean.
pub require_text-IsClean {ℓ} :
    {E : Type ℓ} (e : E) (max_length : ℕ) (value s : Text)
    → require_text e max_length value ≡ ok s
    → IsClean max_length s
unfolding require_text
require_text-IsClean e m value s h =
    require_stripped-IsClean e m (strip value) s (strip_idem value) h

-- A clean text is accepted as it is.
pub require_text_of_IsClean {ℓ} :
    {E : Type ℓ} (e : E) (max_length : ℕ) (s : Text)
    → IsClean max_length s
    → require_text e max_length s ≡ ok s
unfolding require_text
require_text_of_IsClean e m [] c = absurd (c.non_empty refl)
require_text_of_IsClean e m (a ∷ s) c = rw c.stripped (ground (arith, c.bounded))

pub text_eq_comm : (s t : Text) → text_eq s t ≡ text_eq t s
text_eq_comm s t = ground (arith, text_eq_iff s t, text_eq_iff t s)

-- A text is accepted when it is clean once it is stripped, and is kept stripped.
pub require_text_of_strip {ℓ} :
    {E : Type ℓ} (e : E) (max_length : ℕ) (value : Text)
    → IsClean max_length (strip value)
    → require_text e max_length value ≡ ok (strip value)
unfolding require_text
require_text_of_strip e n value c =
    ap (require_stripped e n) (sym (strip_idem value)) ∙ require_text_of_IsClean e n (strip value) c
