-- ===== src/Assessment/Classroom.antt =====
-- classroom_assessment.py: the class-level assessment that a teacher records, corrects and voids. A
-- method returns the new assessment or its exception; `dataclasses.replace` runs `__post_init__`
-- again, and so does each method here.
pub mod Validity
pub mod Lifecycle
use eduvijna_aieos_backend.Prelude.{
  ℕ, ◌≤◌, ◌≡◌, Bool, true, false, not, Option, none, some, List, [], ◌∷◌, length, ltb, ok, err,
  ◌>>=◌, ◌>>◌, guard, if◌then◌else◌,
}
use eduvijna_aieos_backend.Python.Text.{Text, IsClean, require_text, strip}
use eduvijna_aieos_backend.Python.Scalars.{
  Uuid, Datetime, IsAware, earlier, require_aware, require_optional_aware,
}
use eduvijna_aieos_backend.Assessment.Vocabulary.{
  Assessment, AssessmentLifecycleState, recorded, voided, ClassResultLevel, AggregateRevision, next,
  invalid_classroom,
}
use eduvijna_aieos_backend.Assessment.Questions.{max_class_ref_length}

abbrev pub max_class_result_note_length : ℕ
max_class_result_note_length = 4096

pub record AssessmentId : Type 0 where
  pub value : Uuid

-- A stripped note: an empty one is no note.
abbrev pub note_of_stripped : Text → Assessment (Option Text)
note_of_stripped [] = ok none
note_of_stripped (c ∷ s) =
    if ltb max_class_result_note_length (length (c ∷ s))
    then err invalid_classroom
    else ok (some (c ∷ s))

-- `_optional_note`
unfoldable pub optional_note : Option Text → Assessment (Option Text)
optional_note none = ok none
optional_note (some value) = note_of_stripped (strip value)

pub record ClassroomAssessment : Type 0 where
  pub assessment_id : AssessmentId
  pub tenant_id : Uuid
  pub teacher_principal_id : Uuid
  pub class_ref : Text
  pub content_id : Uuid
  pub content_version_id : Uuid
  pub class_result_level : ClassResultLevel
  pub class_result_note : Option Text
  pub lifecycle_state : AssessmentLifecycleState
  pub work_id : Option Uuid
  pub execution_id : Option Uuid
  pub assignment_id : Option Uuid
  pub aggregate_revision : AggregateRevision
  pub recorded_at : Datetime
  pub voided_at : Option Datetime
  pub created_at : Datetime
  pub updated_at : Datetime

-- `_assert_lifecycle_timestamps`
unfoldable pub assert_lifecycle_timestamps :
    AssessmentLifecycleState → Option Datetime → Assessment (Unit {0})
assert_lifecycle_timestamps recorded none = ok tt
assert_lifecycle_timestamps recorded (some t) = err invalid_classroom
assert_lifecycle_timestamps voided none = err invalid_classroom
assert_lifecycle_timestamps voided (some t) = ok tt

-- `ClassroomAssessment.__post_init__`
unfoldable pub construct : ClassroomAssessment → Assessment ClassroomAssessment
unfolding assert_lifecycle_timestamps
construct a = do
  class_ref ← require_text invalid_classroom max_class_ref_length a.class_ref
  note ← optional_note a.class_result_note
  require_aware invalid_classroom a.recorded_at
  require_aware invalid_classroom a.created_at
  require_aware invalid_classroom a.updated_at
  require_optional_aware invalid_classroom a.voided_at
  guard (not (earlier a.updated_at a.created_at)) invalid_classroom
  assert_lifecycle_timestamps a.lifecycle_state a.voided_at
  ok (record a { class_ref = class_ref; class_result_note = note })

abbrev or_generated : Option AssessmentId → AssessmentId → AssessmentId
or_generated none generated = generated
or_generated (some given) generated = given

-- `ClassroomAssessment.record`; `generated` is what `AssessmentId.generate()` returns, if it is
-- called.
unfoldable pub record_assessment :
    (generated : AssessmentId) (tenant_id teacher_principal_id : Uuid) (class_ref : Text)
    (content_id content_version_id : Uuid) (level : ClassResultLevel) (recorded_at : Datetime)
    (note : Option Text) (work_id execution_id assignment_id : Option Uuid)
    (assessment_id : Option AssessmentId)
    → Assessment ClassroomAssessment
record_assessment generated tenant teacher class_ref content version level recorded_at new_note work
      execution assignment given =
    do
      require_aware invalid_classroom recorded_at
      construct (record {
        assessment_id = or_generated given generated;
        tenant_id = tenant;
        teacher_principal_id = teacher;
        class_ref = class_ref;
        content_id = content;
        content_version_id = version;
        class_result_level = level;
        class_result_note = new_note;
        lifecycle_state = recorded;
        work_id = work;
        execution_id = execution;
        assignment_id = assignment;
        aggregate_revision = record { value = 0 };
        recorded_at = recorded_at;
        voided_at = none;
        created_at = recorded_at;
        updated_at = recorded_at;
      })

abbrev pub is_recorded : AssessmentLifecycleState → Bool
is_recorded recorded = true
is_recorded voided = false

-- `is_terminal`
abbrev pub is_terminal : ClassroomAssessment → Bool
is_terminal a = not (is_recorded a.lifecycle_state)

unfoldable pub correct :
    ClassroomAssessment → ClassResultLevel → Option Text → Datetime → Assessment ClassroomAssessment
unfolding next
correct a level new_note updated_at = do
  guard (is_recorded a.lifecycle_state) invalid_classroom
  require_aware invalid_classroom updated_at
  revision ← next a.aggregate_revision
  construct (record a {
    class_result_level = level;
    class_result_note = new_note;
    aggregate_revision = revision;
    updated_at = updated_at;
  })

unfoldable pub void : ClassroomAssessment → Datetime → Assessment ClassroomAssessment
unfolding next
void a voided_at = do
  guard (is_recorded a.lifecycle_state) invalid_classroom
  require_aware invalid_classroom voided_at
  revision ← next a.aggregate_revision
  construct (record a {
    lifecycle_state = voided;
    voided_at = some voided_at;
    aggregate_revision = revision;
    updated_at = voided_at;
  })

abbrev pub NoteFits : Option Text → Type 0
NoteFits none = Unit
NoteFits (some t) = IsClean max_class_result_note_length t

abbrev pub VoidFits : AssessmentLifecycleState → Option Datetime → Type 0
VoidFits recorded none = Unit
VoidFits voided (some t) = IsAware t
VoidFits _ _ = ⊥

-- What holds of every assessment that exists.
pub record IsValid (a : ClassroomAssessment) : Type 0 where
  pub clean_class_ref : IsClean max_class_ref_length a.class_ref
  pub note_fits : NoteFits a.class_result_note
  pub aware_record : IsAware a.recorded_at
  pub aware_creation : IsAware a.created_at
  pub aware_update : IsAware a.updated_at
  pub ordered : a.created_at.instant ≤ a.updated_at.instant
  pub void_fits : VoidFits a.lifecycle_state a.voided_at
