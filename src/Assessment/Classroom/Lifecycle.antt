-- ===== src/Assessment/Classroom/Lifecycle.antt =====
-- What correcting and voiding an assessment do, on every branch.
use eduvijna_aieos_backend.Prelude.{
  ◌+◌, ◌≡◌, refl, ap, Bool, not, ◌&&◌, Option, some, ok, err, ◌>>=◌, if◌then◌else◌, Bool-cases,
  Ensures-guard, Ensures-ok, inl, inr,
}
use eduvijna_aieos_backend.Python.Text.{Text, require_text_of_IsClean}
use eduvijna_aieos_backend.Python.Scalars.{Uuid, Datetime, earlier}
use eduvijna_aieos_backend.Assessment.Vocabulary.{
  AggregateRevision, ClassResultLevel, recorded, voided, invalid_classroom,
}
use eduvijna_aieos_backend.Assessment.Classroom.{
  AssessmentId, ClassroomAssessment, IsValid, construct, optional_note, record_assessment, correct,
  void, is_recorded, assert_lifecycle_timestamps,
}
use eduvijna_aieos_backend.Assessment.Classroom.Validity.{
  construct-Ensures, note_of_NoteFits, note-cases, void_of_VoidFits,
}

-- The moments that a method accepts as its timestamp.
abbrev pub admits : ClassroomAssessment → Datetime → Bool
admits a t = t.is_aware && not (earlier t a.created_at)

abbrev bumped : ClassroomAssessment → AggregateRevision
bumped a = record { value = a.aggregate_revision.value + 1 }

-- The assessment after a correction, with the note as it is kept.
abbrev pub corrected :
    ClassroomAssessment → ClassResultLevel → Option Text → Datetime → ClassroomAssessment
corrected a level new_note t = record a {
  class_result_level = level;
  class_result_note = new_note;
  aggregate_revision = bumped a;
  updated_at = t;
}

-- The assessment after it is voided.
abbrev pub annulled : ClassroomAssessment → Datetime → ClassroomAssessment
annulled a t = record a {
  lifecycle_state = voided;
  voided_at = some t;
  aggregate_revision = bumped a;
  updated_at = t;
}

-- A recorded assessment is corrected at an aware moment that is not before its creation, with a note
-- that is absent or, stripped, within the limit: the level, the note as it is kept, `updated_at` and
-- the revision, by one, change. Any other call raises.
pub correct_recorded :
    (a : ClassroomAssessment) (level : ClassResultLevel) (new_note : Option Text) (t : Datetime)
    → IsValid a
    → a.lifecycle_state ≡ recorded
    → correct a level new_note t ≡ (
        optional_note new_note >>= λ kept.
        if admits a t then ok (corrected a level kept t) else err invalid_classroom)
unfolding correct construct
correct_recorded a level new_note t v working =
    simp (ap is_recorded working) (elim (Bool-cases t.is_aware) [
      | inr e ↦ simp e (elim (note-cases new_note) [ inl (kept, h) ↦ simp h | inr h ↦ simp h ])
      | inl e ↦
          simp (e, require_text_of_IsClean invalid_classroom _ a.class_ref v.clean_class_ref)
            (elim (note-cases new_note) [
              | inr h ↦ simp h
              | inl (kept, h) ↦
                  simp (h, v.aware_record, v.aware_creation, (void_of_VoidFits _ _ v.void_fits).0)
                    (elim (Bool-cases (not (earlier t a.created_at))) [
                      | inr f ↦ simp f
                      | inl f ↦ simp (f, (void_of_VoidFits _ _ v.void_fits).1)
                    ])
            ])
    ])

-- A recorded assessment is voided at an aware moment that is not before its creation: the state,
-- `voided_at`, `updated_at` and the revision, by one, change. Any other moment raises.
pub void_recorded :
    (a : ClassroomAssessment) (t : Datetime)
    → IsValid a
    → a.lifecycle_state ≡ recorded
    → void a t ≡ (if admits a t then ok (annulled a t) else err invalid_classroom)
unfolding void construct
void_recorded a t v working = simp (ap is_recorded working) (elim (Bool-cases t.is_aware) [
  | inr e ↦ simp e
  | inl e ↦
      simp
        (
          e,
          require_text_of_IsClean invalid_classroom _ a.class_ref v.clean_class_ref,
          note_of_NoteFits a.class_result_note v.note_fits,
          v.aware_record,
          v.aware_creation,
        )
        (elim (Bool-cases (not (earlier t a.created_at))) [
          | inr f ↦ simp f
          | inl f ↦ simp f (unfold assert_lifecycle_timestamps in refl)
        ])
])

-- One successful call of a method.
pub data Step (a b : ClassroomAssessment) : Type 0 where
  correction :
      (level : ClassResultLevel) (new_note : Option Text) (t : Datetime)
      → correct a level new_note t ≡ ok b
      → Step a b
  annulment : (t : Datetime) → void a t ≡ ok b → Step a b

correct-IsValid :
    (a b : ClassroomAssessment) (level : ClassResultLevel) (new_note : Option Text) (t : Datetime)
    → correct a level new_note t ≡ ok b
    → IsValid b
unfolding correct
correct-IsValid a b level new_note t h =
    Ensures-ok IsValid _ b
      (Ensures-guard IsValid (is_recorded a.lifecycle_state) invalid_classroom _ λ _.
        Ensures-guard IsValid t.is_aware invalid_classroom _
          λ _. construct-Ensures (corrected a level new_note t))
      h

void-IsValid : (a b : ClassroomAssessment) (t : Datetime) → void a t ≡ ok b → IsValid b
unfolding void
void-IsValid a b t h =
    Ensures-ok IsValid _ b
      (Ensures-guard IsValid (is_recorded a.lifecycle_state) invalid_classroom _ λ _.
        Ensures-guard IsValid t.is_aware invalid_classroom _ λ _. construct-Ensures (annulled a t))
      h

-- Every assessment that a correction or an annulment returns is valid.
pub Step-IsValid : (a b : ClassroomAssessment) → Step a b → IsValid b
Step-IsValid a b (correction level new_note t h) = correct-IsValid a b level new_note t h
Step-IsValid a b (annulment t h) = void-IsValid a b t h

-- Every assessment that is recorded is valid.
pub record_assessment-IsValid :
    (generated : AssessmentId) (tenant teacher : Uuid) (class_ref : Text)
    (content content_version : Uuid) (level : ClassResultLevel) (t : Datetime)
    (new_note : Option Text) (work execution assignment : Option Uuid) (given : Option AssessmentId)
    (a : ClassroomAssessment)
    → record_assessment generated tenant teacher class_ref content content_version level t new_note
        work execution assignment given
      ≡ ok a
    → IsValid a
unfolding record_assessment
record_assessment-IsValid generated tenant teacher class_ref content content_version level t
      new_note work execution assignment given a h =
    Ensures-ok IsValid
      (record_assessment generated tenant teacher class_ref content content_version level t new_note
        work execution assignment given)
      a (Ensures-guard IsValid t.is_aware invalid_classroom _ λ _. construct-Ensures _) h
