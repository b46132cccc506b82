-- ===== src/Assessment/Classroom/Validity.antt =====
-- Which assessments exist: the constructor accepts the valid ones as they are, and what it returns is
-- valid.
use eduvijna_aieos_backend.Prelude.{
  ◌≤◌, ◌≡◌, refl, Option, none, some, not, true, ok, err, [], ◌∷◌, arith, length, ltb, Ensures,
  Ensures-bind, Ensures-ok, Ensures-guard, Bool-cases, ◌⊎◌, inl, inr, err-ne-ok,
}
use eduvijna_aieos_backend.Python.Text.{
  Text, strip, strip_idem, require_text, require_text-IsClean, require_text_of_IsClean,
}
use eduvijna_aieos_backend.Python.Scalars.{Datetime, earlier, require_optional_aware}
use eduvijna_aieos_backend.Assessment.Vocabulary.{
  AssessmentLifecycleState, recorded, voided, invalid_classroom,
}
use eduvijna_aieos_backend.Assessment.Questions.{max_class_ref_length}
use eduvijna_aieos_backend.Assessment.Classroom.{
  ClassroomAssessment, IsValid, NoteFits, VoidFits, construct, optional_note, note_of_stripped,
  assert_lifecycle_timestamps, max_class_result_note_length,
}

note_of_stripped-NoteFits : (s : Text) → strip s ≡ s → Ensures NoteFits (note_of_stripped s)
note_of_stripped-NoteFits [] p = tt
note_of_stripped-NoteFits (c ∷ s) p =
    elim (Bool-cases (ltb max_class_result_note_length (length (c ∷ s)))) [
      | inl e ↦ rw e tt
      | inr e ↦ rw e (record { stripped = p; non_empty = λ h. cc; bounded = ground arith })
    ]

note-Ensures : (n : Option Text) → Ensures NoteFits (optional_note n)
unfolding optional_note
note-Ensures none = tt
note-Ensures (some t) = note_of_stripped-NoteFits (strip t) (strip_idem t)

pub note_of_NoteFits : (n : Option Text) → NoteFits n → optional_note n ≡ ok n
unfolding optional_note
note_of_NoteFits none h = refl
note_of_NoteFits (some []) h = absurd (h.non_empty refl)
note_of_NoteFits (some (c ∷ s)) h = rw h.stripped (ground (arith, h.bounded))

void-VoidFits :
    (l : AssessmentLifecycleState) (t : Option Datetime)
    → require_optional_aware invalid_classroom t ≡ ok tt
    → assert_lifecycle_timestamps l t ≡ ok tt
    → VoidFits l t
unfolding assert_lifecycle_timestamps
void-VoidFits recorded none h k = tt
void-VoidFits recorded (some t) h k = absurd (err-ne-ok _ _ k)
void-VoidFits voided none h k = absurd (err-ne-ok _ _ k)
void-VoidFits voided (some t) h k = ground arith

pub void_of_VoidFits :
    (l : AssessmentLifecycleState) (t : Option Datetime)
    → VoidFits l t
    → (require_optional_aware invalid_classroom t ≡ ok tt)
      × (assert_lifecycle_timestamps l t ≡ ok tt)
unfolding assert_lifecycle_timestamps
void_of_VoidFits recorded none h = (refl, refl)
void_of_VoidFits voided (some t) h = (simp h, refl)
void_of_VoidFits recorded (some t) h = absurd h
void_of_VoidFits voided none h = absurd h

pub construct-Ensures : (a : ClassroomAssessment) → Ensures IsValid (construct a)
unfolding construct
construct-Ensures a =
    Ensures-bind IsValid (require_text invalid_classroom max_class_ref_length a.class_ref) _ λ c hc.
      Ensures-bind IsValid (optional_note a.class_result_note) _ λ n hn.
        Ensures-guard IsValid a.recorded_at.is_aware invalid_classroom _ λ h1.
          Ensures-guard IsValid a.created_at.is_aware invalid_classroom _ λ h2.
            Ensures-guard IsValid a.updated_at.is_aware invalid_classroom _ λ h3.
              Ensures-bind IsValid (require_optional_aware invalid_classroom a.voided_at) _ λ u4 h4.
                Ensures-guard IsValid (not (earlier a.updated_at a.created_at)) invalid_classroom _
                  λ h5.
                    Ensures-bind IsValid (assert_lifecycle_timestamps a.lifecycle_state a.voided_at)
                      _
                      λ u6 h6. record {
                        clean_class_ref = require_text-IsClean _ _ _ c hc;
                        note_fits = Ensures-ok NoteFits _ n (note-Ensures a.class_result_note) hn;
                        aware_record = h1;
                        aware_creation = h2;
                        aware_update = h3;
                        ordered = ground arith;
                        void_fits = void-VoidFits _ _ h4 h6;
                      }

not-earlier : (s t : Datetime) → s.instant ≤ t.instant → not (earlier t s) ≡ true
not-earlier s t h = ground arith

-- A valid assessment is accepted as it is.
pub construct_of_IsValid : (a : ClassroomAssessment) → IsValid a → construct a ≡ ok a
unfolding construct
construct_of_IsValid a v = simp (
  require_text_of_IsClean invalid_classroom _ a.class_ref v.clean_class_ref,
  note_of_NoteFits a.class_result_note v.note_fits,
  v.aware_record,
  v.aware_creation,
  v.aware_update,
  (void_of_VoidFits _ _ v.void_fits).0,
  not-earlier a.created_at a.updated_at v.ordered,
  (void_of_VoidFits _ _ v.void_fits).1,
)

-- A note is kept in some form, or refused.
pub note-cases :
    (n : Option Text)
    → ((kept : Option Text) × (optional_note n ≡ ok kept))
      ⊎ (optional_note n ≡ err invalid_classroom)
unfolding optional_note
note-cases none = inl (none, refl)
note-cases (some t) = go (strip t)
  where
    go :
        (s : Text)
        → ((kept : Option Text) × (note_of_stripped s ≡ ok kept))
          ⊎ (note_of_stripped s ≡ err invalid_classroom)
    go [] = inl (none, refl)
    go (c ∷ s) = elim (Bool-cases (ltb max_class_result_note_length (length (c ∷ s)))) [
      | inl e ↦ inr (simp e)
      | inr e ↦ inl (some (c ∷ s), simp e)
    ]
