-- ===== src/Learning/Submit/Refusal.antt =====
-- What a submission that returned has checked, and which are refused.
use eduvijna_aieos_backend.Prelude.{
  ◌≡◌, ◌≢◌, refl, ap, true, false, Bool, ◌==◌, ==_iff, List, [], ◌∷◌, ◌++◌, ok, err, All, Ensures,
  Ensures-bind, Ensures-guard, Ensures-ok, Bool-cases, inl, inr, guard,
}
use eduvijna_aieos_backend.Python.Text.{text_eq, eq_of_text_eq}
use eduvijna_aieos_backend.Python.Sorting.{HasDistinct}
use eduvijna_aieos_backend.Learning.Vocabulary.{
  Learning, AttemptId, AttemptLifecycleState, in_progress, submitted, invalid_response,
  invalid_submission, already_submitted,
}
use eduvijna_aieos_backend.Learning.ResponseItem.{AttemptResponseItem}
use eduvijna_aieos_backend.Learning.Attempt
use eduvijna_aieos_backend.Learning.Attempt.{
  LearnerAttempt, is_in_progress, bind_submitted_submission,
}
use eduvijna_aieos_backend.Learning.Attempt.History.{bind-IsValid}
use eduvijna_aieos_backend.Learning.Snapshot.{canonical_response_snapshot}
use eduvijna_aieos_backend.Learning.Snapshot.Order.{HasDistinct-of_canonical}
use eduvijna_aieos_backend.Learning.Submission
use eduvijna_aieos_backend.Learning.Submission.{LearnerSubmission}
use eduvijna_aieos_backend.Learning.Submit.{
  check_owned, assert_identity_parity, same_submission_id, same_moment, required,
  transition_in_progress_attempt_to_submitted,
}
use eduvijna_aieos_backend.Learning.Submit.Outcome.{Request, run, sid_of}

-- The fields in which an attempt and its submission agree.
pub record SameIdentity (a : LearnerAttempt) (s : LearnerSubmission) : Type 0 where
  pub tenant_id : a.tenant_id ≡ s.tenant_id
  pub attempt_id : a.attempt_id.value ≡ s.attempt_id.value
  pub learner_principal_id : a.learner_principal_id ≡ s.learner_principal_id
  pub teaching_assignment_id : a.teaching_assignment_id ≡ s.teaching_assignment_id
  pub content_id : a.content_id ≡ s.content_id
  pub content_version_id : a.content_version_id ≡ s.content_version_id
  pub class_ref : a.class_ref ≡ s.class_ref

-- What holds when the call returned `p`.
pub record Accepted (r : Request) (p : LearnerAttempt × LearnerSubmission) : Type 0 where
  pub was_working : r.attempt.lifecycle_state ≡ in_progress
  pub owned :
      All (λ (i : AttemptResponseItem). i.attempt_id.value ≡ r.attempt.attempt_id.value) r.responses
  pub distinct : HasDistinct (λ (i : AttemptResponseItem). i.question_id) r.responses
  pub valid_attempt : Attempt.IsValid p.0
  pub valid_submission : Submission.IsValid p.1
  pub same_identity : SameIdentity p.0 p.1

working_of_test : (l : AttemptLifecycleState) → is_in_progress l ≡ true → l ≡ in_progress
working_of_test in_progress h = refl
working_of_test submitted h = cc

check_owned-Ensures :
    (aid : AttemptId) (items : List AttemptResponseItem)
    → Ensures
        (λ _. All (λ (i : AttemptResponseItem). i.attempt_id.value ≡ aid.value) items)
        (check_owned aid items)
unfolding check_owned
check_owned-Ensures aid [] = tt
check_owned-Ensures aid (i ∷ items) =
    Ensures-guard
      (λ (u : Unit {0}).
        All (λ (j : AttemptResponseItem). j.attempt_id.value ≡ aid.value) (i ∷ items))
      (i.attempt_id.value == aid.value) invalid_response (check_owned aid items)
      λ e.
        owned_more (check_owned aid items) ((==_iff i.attempt_id.value aid.value).0 e)
          (check_owned-Ensures aid items)
  where
    owned_more :
        (m : Learning (Unit {0}))
        → i.attempt_id.value ≡ aid.value
        → Ensures
            (λ (u : Unit {0}).
              All (λ (j : AttemptResponseItem). j.attempt_id.value ≡ aid.value) items)
            m
        → Ensures
            (λ (u : Unit {0}).
              All (λ (j : AttemptResponseItem). j.attempt_id.value ≡ aid.value) (i ∷ items))
            m
    owned_more (ok u) e h = (e, h)
    owned_more (err x) e h = tt

parity-Ensures :
    (a : LearnerAttempt) (s : LearnerSubmission)
    → Ensures (λ (u : Unit {0}). SameIdentity a s) (assert_identity_parity a s)
unfolding assert_identity_parity
parity-Ensures a s = Ensures-guard P (a.tenant_id == s.tenant_id) invalid_submission _ λ h1.
    Ensures-guard P (a.attempt_id.value == s.attempt_id.value) invalid_submission _ λ h2.
      Ensures-guard P (a.learner_principal_id == s.learner_principal_id) invalid_submission _ λ h3.
        Ensures-guard P (a.teaching_assignment_id == s.teaching_assignment_id) invalid_submission _
          λ h4. Ensures-guard P (a.content_id == s.content_id) invalid_submission _ λ h5.
            Ensures-guard P (a.content_version_id == s.content_version_id) invalid_submission _
              λ h6. Ensures-guard P (text_eq a.class_ref s.class_ref) invalid_submission _ λ h7.
                Ensures-guard P (same_submission_id a.submission_id s.submission_id)
                  invalid_submission _
                  λ _. last (same_moment a.submitted_at s.submitted_at) (record {
                    tenant_id = (==_iff _ _).0 h1;
                    attempt_id = (==_iff _ _).0 h2;
                    learner_principal_id = (==_iff _ _).0 h3;
                    teaching_assignment_id = (==_iff _ _).0 h4;
                    content_id = (==_iff _ _).0 h5;
                    content_version_id = (==_iff _ _).0 h6;
                    class_ref = eq_of_text_eq _ _ h7;
                  })
  where
    P : Unit {0} → Type 0
    P u = SameIdentity a s

    last : (b : Bool) → SameIdentity a s → Ensures P (guard b invalid_submission)
    last true h = h
    last false h = tt

run-Ensures : (r : Request) → Ensures (Accepted r) (run r)
unfolding transition_in_progress_attempt_to_submitted
run-Ensures r =
    Ensures-guard (Accepted r) (is_in_progress r.attempt.lifecycle_state) already_submitted _ λ h1.
      Ensures-bind (Accepted r) (check_owned r.attempt.attempt_id r.responses) _ λ u2 h2.
        Ensures-bind (Accepted r) (bind_submitted_submission r.attempt (sid_of r) r.submitted_at) _
          λ a h3. Ensures-bind (Accepted r) (canonical_response_snapshot r.responses) _ λ rows h4.
            Ensures-bind (Accepted r) (required a.submitted_at) _ λ t _.
              Ensures-bind (Accepted r) (Submission.post_init _) _ λ s h6.
                Ensures-bind (Accepted r) (assert_identity_parity a s) _ λ u7 h7. record {
                  was_working = working_of_test r.attempt.lifecycle_state h1;
                  owned =
                      Ensures-ok
                        (λ (u : Unit {0}).
                          All
                            (λ (i : AttemptResponseItem).
                              i.attempt_id.value ≡ r.attempt.attempt_id.value)
                            r.responses)
                        _ u2 (check_owned-Ensures r.attempt.attempt_id r.responses) h2;
                  distinct = HasDistinct-of_canonical r.responses rows h4;
                  valid_attempt = bind-IsValid r.attempt a (sid_of r) r.submitted_at h3;
                  valid_submission = Submission.post_init-IsValid _ s h6;
                  same_identity =
                      Ensures-ok (λ (u : Unit {0}). SameIdentity a s) _ u7 (parity-Ensures a s) h7;
                }

-- A submission that returned was made of a working attempt and of responses that are all its own and
-- answer distinct questions; both results are valid, and they agree on tenant, attempt, learner,
-- assignment, content, version and class.
pub submit-Accepted :
    (r : Request) (p : LearnerAttempt × LearnerSubmission) → run r ≡ ok p → Accepted r p
submit-Accepted r p h = Ensures-ok (Accepted r) (run r) p (run-Ensures r) h

check_owned-foreign :
    (aid : AttemptId) (xs ys : List AttemptResponseItem) (i : AttemptResponseItem)
    → i.attempt_id.value ≢ aid.value
    → check_owned aid (xs ++ (i ∷ ys)) ≡ err invalid_response
unfolding check_owned
check_owned-foreign aid [] ys i ne = elim (Bool-cases (i.attempt_id.value == aid.value)) [
  | inl e ↦ absurd (ne ((==_iff _ _).0 e))
  | inr e ↦ simp e
]
check_owned-foreign aid (x ∷ xs) ys i ne = elim (Bool-cases (x.attempt_id.value == aid.value)) [
  | inl e ↦ simp (e, check_owned-foreign aid xs ys i ne)
  | inr e ↦ simp e
]

-- A submitted attempt is not submitted again.
pub submit_final :
    (r : Request) → r.attempt.lifecycle_state ≡ submitted → run r ≡ err already_submitted
unfolding transition_in_progress_attempt_to_submitted
submit_final r h = simp (ap is_in_progress h)

-- One response of another attempt, wherever it stands, refuses the submission of a working attempt.
pub submit_foreign :
    (r : Request) (xs ys : List AttemptResponseItem) (i : AttemptResponseItem)
    → r.attempt.lifecycle_state ≡ in_progress
    → r.responses ≡ xs ++ (i ∷ ys)
    → i.attempt_id.value ≢ r.attempt.attempt_id.value
    → run r ≡ err invalid_response
unfolding transition_in_progress_attempt_to_submitted
submit_foreign r xs ys i h e ne =
    simp (ap is_in_progress h, e, check_owned-foreign r.attempt.attempt_id xs ys i ne)
