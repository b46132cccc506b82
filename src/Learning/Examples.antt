-- ===== src/Learning/Examples.antt =====
-- A learner answers two questions, saves, and submits: the properties at these concrete values.
use mathlib.Core.List.{Perm}
use eduvijna_aieos_backend.Prelude.{ℕ, ◌≡◌, ◌≢◌, refl, true, none, some, [], ◌∷◌, ok, err, arith}
use eduvijna_aieos_backend.Python.Text.{codes, IsClean, strip, text_mem, text_eq}
use eduvijna_aieos_backend.Python.Text.{text_lt}
use eduvijna_aieos_backend.Python.Sorting.{sort_by, insert_by}
use eduvijna_aieos_backend.Python.Scalars.{pos, Datetime}
use eduvijna_aieos_backend.Learning.Vocabulary.{
  AttemptId, SubmissionId, in_progress, multiple_choice, true_false, invalid_response,
  invalid_attempt,
}
use eduvijna_aieos_backend.Learning.ResponseItem.{AttemptResponseItem}
use eduvijna_aieos_backend.Learning.ResponseItem
use eduvijna_aieos_backend.Learning.Attempt.{
  LearnerAttempt, record_material_response_save, bind_submitted_submission,
}
use eduvijna_aieos_backend.Learning.ResponseItem.{
  multiple_choice_item, short_answer_item, true_false_item, snapshot_value,
}
use eduvijna_aieos_backend.Learning.ResponseItem.Factories.{answer, factories_lem}
use eduvijna_aieos_backend.Learning.Vocabulary.{short_answer}
use eduvijna_aieos_backend.Prelude.{◌>>=◌}
use eduvijna_aieos_backend.Python.Scalars.{text, boolean}
use eduvijna_aieos_backend.Learning.Attempt
use eduvijna_aieos_backend.Learning.Attempt.Lifecycle.{saved, bound, save_working, bind_working}
use eduvijna_aieos_backend.Learning.Attempt.History.{
  here, more, save, submit, History, Reach-History, Step, Step-StepFacts,
}
use eduvijna_aieos_backend.Learning.Snapshot.{
  canonical_response_snapshot, validate_response_snapshot, as_persistable_mapping, item, mapping,
  sequence, IsSnapshot,
}
use eduvijna_aieos_backend.Learning.Snapshot.Rows.{row_of}
use eduvijna_aieos_backend.Learning.Snapshot.Order.{canonical-IsSnapshot, canonical_of_distinct}
use eduvijna_aieos_backend.Learning.Snapshot.Validation.{
  validate_of_IsSnapshot, validate-IsSnapshot,
}
use eduvijna_aieos_backend.Learning.Submission
use eduvijna_aieos_backend.Learning.Submit.Outcome.{
  Request, IsAcceptable, run, snapshot_of, submission_of, submit_succeeds,
}
use eduvijna_aieos_backend.Learning.Submit.Refusal.{Accepted, submit-Accepted, submit_foreign}

abbrev at : ℕ → Datetime
at n = record { is_aware = true; instant = n }

abbrev attempt_id : AttemptId
attempt_id = record { value = 11 }

abbrev submission_id : SubmissionId
submission_id = record { value = 21 }

abbrev attempt : LearnerAttempt
attempt = record {
  attempt_id = attempt_id;
  tenant_id = 1;
  learner_principal_id = 2;
  teaching_assignment_id = 3;
  content_id = 4;
  content_version_id = 5;
  class_ref = codes "6A";
  attempt_number = pos 1;
  lifecycle_state = in_progress;
  started_at = at 100;
  last_saved_at = none;
  submitted_at = none;
  submission_id = none;
  aggregate_revision = record { value = 0 };
  created_at = at 100;
  updated_at = at 100;
}

class_ref-IsClean : IsClean 512 (codes "6A")
class_ref-IsClean =
    unfold strip in record { stripped = refl; non_empty = λ h. cc; bounded = omega arith }

attempt-IsValid : Attempt.IsValid attempt
attempt-IsValid = record {
  clean_class_ref = class_ref-IsClean;
  positive_number = tt;
  aware_start = refl;
  aware_creation = refl;
  aware_update = refl;
  ordered = omega arith;
  saved_fits = tt;
  lifecycle_fits = tt;
}

abbrev choice : AttemptResponseItem
choice = record {
  attempt_id = attempt_id;
  question_id = codes "q2";
  response_kind = multiple_choice;
  choice_value = some (codes "A");
  text_value = none;
  boolean_value = none;
}

abbrev statement : AttemptResponseItem
statement = record {
  attempt_id = attempt_id;
  question_id = codes "q1";
  response_kind = true_false;
  choice_value = none;
  text_value = none;
  boolean_value = some true;
}

q1-IsClean : IsClean 128 (codes "q1")
q1-IsClean = unfold strip in record { stripped = refl; non_empty = λ h. cc; bounded = omega arith }

q2-IsClean : IsClean 128 (codes "q2")
q2-IsClean = unfold strip in record { stripped = refl; non_empty = λ h. cc; bounded = omega arith }

choice-IsClean : IsClean 256 (codes "A")
choice-IsClean =
    unfold strip in record { stripped = refl; non_empty = λ h. cc; bounded = omega arith }

choice-IsValid : ResponseItem.IsValid choice
choice-IsValid = record { clean_question = q2-IsClean; fits = choice-IsClean }

statement-IsValid : ResponseItem.IsValid statement
statement-IsValid = record { clean_question = q1-IsClean; fits = tt }

abbrev request : Request
request = record {
  generated = submission_id;
  attempt = attempt;
  responses = choice ∷ statement ∷ [];
  submitted_at = at 300;
  revision = pos 2;
  due_at = some (at 400);
  submission_id = none;
}

request-IsAcceptable : IsAcceptable request
request-IsAcceptable = record {
  valid_attempt = attempt-IsValid;
  working = refl;
  valid_items = (choice-IsValid, (statement-IsValid, tt));
  owned = (refl, (refl, tt));
  distinct = unfold text_mem text_eq in (refl, (refl, tt));
  admitted = refl;
  revision_fits = tt;
  due_fits = refl;
}

submit_succeeds_example :
    run request
    ≡ ok (
      bound attempt submission_id (at 300),
      submission_of attempt submission_id
          (at 300)
          (pos 2)
          (some (at 400))
          (snapshot_of (choice ∷ statement ∷ [])),
    )
submit_succeeds_example = submit_succeeds request request-IsAcceptable

submit-Accepted_example : Accepted request (
  bound attempt submission_id (at 300),
  submission_of attempt submission_id
      (at 300)
      (pos 2)
      (some (at 400))
      (snapshot_of (choice ∷ statement ∷ [])),
)
submit-Accepted_example = submit-Accepted request _ (submit_succeeds request request-IsAcceptable)

-- The same request with a response of another attempt.
abbrev foreign : AttemptResponseItem
foreign = record choice { attempt_id = record { value = 12 } }

abbrev foreign_request : Request
foreign_request = record request { responses = statement ∷ foreign ∷ [] }

ids_differ : ◌≢◌ {A = ℕ} 12 11
ids_differ h = omega (arith, h)

submit_foreign_example : run foreign_request ≡ err invalid_response
submit_foreign_example =
    submit_foreign foreign_request (statement ∷ []) [] foreign refl refl ids_differ

save_working_example : record_material_response_save attempt (at 200) ≡ ok (saved attempt (at 200))
save_working_example = save_working attempt (at 200) attempt-IsValid refl

bind_working_example : bind_submitted_submission attempt submission_id (at 50) ≡ err invalid_attempt
bind_working_example = bind_working attempt submission_id (at 50) attempt-IsValid refl

saved-Step : Step attempt (saved attempt (at 200))
saved-Step = save (at 200) (save_working attempt (at 200) attempt-IsValid refl)

submitted-Step :
    Step (saved attempt (at 200)) (bound (saved attempt (at 200)) submission_id (at 300))
submitted-Step = submit submission_id (at 300) (
    bind_working (saved attempt (at 200)) submission_id (at 300)
      (Step-StepFacts attempt-IsValid saved-Step).valid refl)

Reach-History_example : History attempt 2 (bound (saved attempt (at 200)) submission_id (at 300))
Reach-History_example = Reach-History attempt-IsValid (more (more here saved-Step) submitted-Step)

snapshot-made :
    canonical_response_snapshot (choice ∷ statement ∷ [])
    ≡ ok (row_of statement ∷ row_of choice ∷ [])
snapshot-made =
    unfold sort_by insert_by text_lt row_of in
    canonical_of_distinct (choice ∷ statement ∷ []) request-IsAcceptable.valid_items
      request-IsAcceptable.distinct

canonical-IsSnapshot_example :
    IsSnapshot (row_of statement ∷ row_of choice ∷ [])
    × Perm (row_of statement ∷ row_of choice ∷ []) (row_of choice ∷ row_of statement ∷ [])
canonical-IsSnapshot_example =
    canonical-IsSnapshot (choice ∷ statement ∷ []) (row_of statement ∷ row_of choice ∷ [])
      request-IsAcceptable.valid_items snapshot-made

rows-IsSnapshot : IsSnapshot (row_of statement ∷ row_of choice ∷ [])
rows-IsSnapshot =
    (canonical-IsSnapshot (choice ∷ statement ∷ []) (row_of statement ∷ row_of choice ∷ [])
      request-IsAcceptable.valid_items snapshot-made).0

validate_of_IsSnapshot_example :
    (validate_response_snapshot (sequence (item (row_of statement) ∷ item (row_of choice) ∷ []))
      ≡ ok (row_of statement ∷ row_of choice ∷ []))
    × (validate_response_snapshot (
          sequence (
            mapping (as_persistable_mapping (row_of statement))
            ∷ mapping (as_persistable_mapping (row_of choice))
            ∷ []))
        ≡ ok (row_of statement ∷ row_of choice ∷ []))
validate_of_IsSnapshot_example =
    validate_of_IsSnapshot (row_of statement ∷ row_of choice ∷ []) rows-IsSnapshot

validate-IsSnapshot_example : IsSnapshot (row_of statement ∷ row_of choice ∷ [])
validate-IsSnapshot_example =
    validate-IsSnapshot (sequence (item (row_of statement) ∷ item (row_of choice) ∷ []))
      (row_of statement ∷ row_of choice ∷ [])
      (validate_of_IsSnapshot (row_of statement ∷ row_of choice ∷ []) rows-IsSnapshot).0

abbrev submission : Submission.LearnerSubmission
submission =
    submission_of attempt submission_id (at 300) (pos 2) (some (at 400))
      (row_of statement ∷ row_of choice ∷ [])

submission-IsValid : Submission.IsValid submission
submission-IsValid = record {
  clean_class_ref = class_ref-IsClean;
  revision = tt;
  aware_submission = refl;
  aware_creation = refl;
  due_fits = refl;
  snapshot = rows-IsSnapshot;
}

post_init_of_IsValid_example : Submission.post_init submission ≡ ok submission
post_init_of_IsValid_example = Submission.post_init_of_IsValid submission submission-IsValid

q1_kept : IsClean 128 (strip (codes " q1 "))
q1_kept = unfold strip in record { stripped = refl; non_empty = λ h. cc; bounded = omega arith }

choice_kept : IsClean 256 (strip (codes "A "))
choice_kept = unfold strip in record { stripped = refl; non_empty = λ h. cc; bounded = omega arith }

text_kept : IsClean 4096 (strip (codes " it grows"))
text_kept = unfold strip in record { stripped = refl; non_empty = λ h. cc; bounded = omega arith }

factories_lem_example :
    ((multiple_choice_item attempt_id (codes " q1 ") (codes "A ") >>= snapshot_value)
      ≡ ok (text (strip (codes "A "))))
    × ((short_answer_item attempt_id (codes " q1 ") (codes " it grows") >>= snapshot_value)
        ≡ ok (text (strip (codes " it grows"))))
    × ((true_false_item attempt_id (codes " q1 ") true >>= snapshot_value) ≡ ok (boolean true))
    × (multiple_choice_item attempt_id (codes " q1 ") (codes "A ")
        ≡ ok (
            answer attempt_id
              (strip (codes " q1 "))
              multiple_choice
              (some (strip (codes "A ")))
              none
              none))
    × (short_answer_item attempt_id (codes " q1 ") (codes " it grows")
        ≡ ok (
            answer attempt_id
              (strip (codes " q1 "))
              short_answer
              none
              (some (strip (codes " it grows")))
              none))
    × (true_false_item attempt_id (codes " q1 ") true
        ≡ ok (answer attempt_id (strip (codes " q1 ")) true_false none none (some true)))
factories_lem_example =
    factories_lem attempt_id (codes " q1 ") (codes "A ") (codes " it grows") true q1_kept
      choice_kept text_kept
