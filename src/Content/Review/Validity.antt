-- ===== src/Content/Review/Validity.antt =====
-- The decisions that exist: their texts are in normal form, of bounded length, and a request for
-- changes says what to change.
use eduvijna_aieos_backend.Prelude.{
  ◌≡◌, refl, Bool, true, false, not, ◌||◌, Option, none, some, [], ◌∷◌, length, ltb, ok, arith,
  Ensures, Ensures-bind, Ensures-guard, Ensures-if, Ensures-ok,
}
use eduvijna_aieos_backend.Python.Text.{Text, strip, strip_idem}
use eduvijna_aieos_backend.Content.Vocabulary.{review_decision_binding}
use eduvijna_aieos_backend.Content.Review.{
  max_reason_code, max_comment, is_reason_code, code_of_stripped, normalize_reason_code,
  comment_of_stripped, normalize_review_comment, ReviewDecision, lacks_comment, construct, CodeFits,
  CommentFits, IsValid,
}

or-neither : (a b : Bool) → (a || not b) ≡ false → (a ≡ false) × (b ≡ true)
or-neither false true h = (refl, refl)
or-neither false false h = cc
or-neither true b h = cc

code_of_stripped-CodeFits : (s : Text) → strip s ≡ s → Ensures CodeFits (code_of_stripped s)
code_of_stripped-CodeFits [] p = tt
code_of_stripped-CodeFits (c ∷ s) p =
    Ensures-if CodeFits (ltb max_reason_code (length (c ∷ s)) || not (is_reason_code (c ∷ s))) _ _
      (λ e. tt)
      λ e.
        let tests = or-neither (ltb max_reason_code (length (c ∷ s))) _ e in
        let fits = tests.0 in
        record {
          clean = record { stripped = p; non_empty = λ h. cc; bounded = ground arith };
          in_alphabet = tests.1;
        }

code-Ensures : (o : Option Text) → Ensures CodeFits (normalize_reason_code o)
unfolding normalize_reason_code
code-Ensures none = tt
code-Ensures (some t) = code_of_stripped-CodeFits (strip t) (strip_idem t)

comment_of_stripped-CommentFits :
    (s : Text) → strip s ≡ s → Ensures CommentFits (comment_of_stripped s)
comment_of_stripped-CommentFits [] p = tt
comment_of_stripped-CommentFits (c ∷ s) p =
    Ensures-if CommentFits (ltb max_comment (length (c ∷ s))) _ _ (λ e. tt)
      λ e. record { stripped = p; non_empty = λ h. cc; bounded = ground arith }

comment-Ensures : (o : Option Text) → Ensures CommentFits (normalize_review_comment o)
unfolding normalize_review_comment
comment-Ensures none = tt
comment-Ensures (some t) = comment_of_stripped-CommentFits (strip t) (strip_idem t)

pub normalize_reason_code_of_CodeFits :
    (o : Option Text) → CodeFits o → normalize_reason_code o ≡ ok o
unfolding normalize_reason_code
normalize_reason_code_of_CodeFits none h = refl
normalize_reason_code_of_CodeFits (some []) h = absurd (h.clean.non_empty refl)
normalize_reason_code_of_CodeFits (some (c ∷ s)) h =
    rw h.clean.stripped (simp (not-longer, h.in_alphabet))
  where
    not-longer : ltb max_reason_code (length (c ∷ s)) ≡ false
    not-longer = ground (arith, h.clean.bounded)

pub normalize_review_comment_of_CommentFits :
    (o : Option Text) → CommentFits o → normalize_review_comment o ≡ ok o
unfolding normalize_review_comment
normalize_review_comment_of_CommentFits none h = refl
normalize_review_comment_of_CommentFits (some []) h = absurd (h.non_empty refl)
normalize_review_comment_of_CommentFits (some (c ∷ s)) h = rw h.stripped (ground (arith, h.bounded))

-- What the normalization of a reason code returns is absent, or has between 1 and 64 characters, all
-- of the alphabet of codes, with no blank at either end; a second normalization returns the same.
pub normalize_reason_code-CodeFits :
    (o kept : Option Text)
    → normalize_reason_code o ≡ ok kept
    → CodeFits kept × (normalize_reason_code kept ≡ ok kept)
normalize_reason_code-CodeFits o kept h =
    let fits = Ensures-ok CodeFits _ kept (code-Ensures o) h in
    (fits, normalize_reason_code_of_CodeFits kept fits)

pub normalize_review_comment-CommentFits :
    (o kept : Option Text) → normalize_review_comment o ≡ ok kept → CommentFits kept
normalize_review_comment-CommentFits o kept h = Ensures-ok CommentFits _ kept (comment-Ensures o) h

pub construct-Ensures : (d : ReviewDecision) → Ensures IsValid (construct d)
unfolding construct
construct-Ensures d = Ensures-guard IsValid d.decided_at.is_aware review_decision_binding _ λ h1.
    Ensures-bind IsValid (normalize_reason_code d.reason_code) _ λ code h2.
      Ensures-bind IsValid (normalize_review_comment d.comment) _ λ comment h3.
        Ensures-guard IsValid (not (lacks_comment d.decision comment)) review_decision_binding _
          λ h4. record {
            aware_decision = h1;
            code_fits = (normalize_reason_code-CodeFits d.reason_code code h2).0;
            comment_fits = normalize_review_comment-CommentFits d.comment comment h3;
            has_comment = not-true _ h4;
          }
  where
    not-true : (b : Bool) → not b ≡ true → b ≡ false
    not-true false h = refl
    not-true true h = cc

-- A decision of the normal form is accepted as it is.
pub construct_of_IsValid : (d : ReviewDecision) → IsValid d → construct d ≡ ok d
unfolding construct
construct_of_IsValid d v = simp (
  v.aware_decision,
  normalize_reason_code_of_CodeFits d.reason_code v.code_fits,
  normalize_review_comment_of_CommentFits d.comment v.comment_fits,
  v.has_comment,
)
