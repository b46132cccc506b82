-- ===== src/Assessment/Questions/Requests.antt =====
-- The requests that the constructor returns are valid.
use eduvijna_aieos_backend.Prelude.{
  ◌≡◌, true, List, [], ◌∷◌, map, ok, arith, All, Ensures, Ensures-bind, Ensures-guard, Ensures-ok,
}
use eduvijna_aieos_backend.Python.Text.{Text, require_text, require_text-IsClean, text_mem}
use eduvijna_aieos_backend.Python.Sorting.{HasDistinct, Unseen, Unseen-of_cons}
use eduvijna_aieos_backend.Assessment.Vocabulary.{invalid_evaluation}
use eduvijna_aieos_backend.Assessment.Questions.{
  EvaluationContentQuestion, EvaluationSubmittedResponse, LearnerAssessmentEvaluationRequest,
  make_request, check_questions, check_responses, IsValidQuestion, IsValidResponse, IsValidRequest,
  max_class_ref_length,
}

abbrev question_key : EvaluationContentQuestion → Text
question_key q = q.question_id

abbrev response_key : EvaluationSubmittedResponse → Text
response_key r = r.question_id

questions_distinct :
    (seen : List Text) (qs : List EvaluationContentQuestion)
    → check_questions seen qs ≡ ok tt
    → Unseen question_key seen qs × HasDistinct question_key qs
unfolding check_questions
questions_distinct seen [] h = (tt, tt)
questions_distinct seen (q ∷ qs) h =
    let (u, d) = questions_distinct (q.question_id ∷ seen) qs (ground arith) in
    let (v, n) = Unseen-of_cons question_key q.question_id seen qs u in ((ground arith, v), (n, d))

responses_known :
    (questions seen : List Text) (rs : List EvaluationSubmittedResponse)
    → check_responses questions seen rs ≡ ok tt
    → Unseen response_key seen rs
      × HasDistinct response_key rs
      × All (λ (r : EvaluationSubmittedResponse). text_mem r.question_id questions ≡ true) rs
unfolding check_responses
responses_known questions seen [] h = (tt, tt, tt)
responses_known questions seen (r ∷ rs) h =
    let (u, d, k) = responses_known questions (r.question_id ∷ seen) rs (ground arith) in
    let (v, n) = Unseen-of_cons response_key r.question_id seen rs u in
    ((ground arith, v), (n, d), (ground arith, k))

request-Ensures :
    (r : LearnerAssessmentEvaluationRequest)
    → All IsValidQuestion r.questions
    → All IsValidResponse r.responses
    → Ensures IsValidRequest (make_request r)
unfolding make_request
request-Ensures r vq vr =
    Ensures-bind IsValidRequest (require_text invalid_evaluation max_class_ref_length r.class_ref) _
      λ c hc. Ensures-guard IsValidRequest r.evaluated_at.is_aware invalid_evaluation _ λ aware.
        Ensures-bind IsValidRequest (check_questions [] r.questions) _ λ u1 h1.
          Ensures-bind IsValidRequest
            (check_responses (map question_key r.questions) [] r.responses) _
            λ u2 h2.
              let (n, d, k) = responses_known (map question_key r.questions) [] r.responses h2 in
              record {
                clean_class_ref = require_text-IsClean _ _ _ c hc;
                aware = aware;
                valid_questions = vq;
                valid_responses = vr;
                distinct_questions = (questions_distinct [] r.questions h1).1;
                distinct_responses = d;
                known_questions = k;
              }

-- Every request that exists, over questions and responses that exist, is valid: no question and no
-- response twice, and responses only to its questions.
pub make_request-IsValid :
    (raw r : LearnerAssessmentEvaluationRequest)
    → All IsValidQuestion raw.questions
    → All IsValidResponse raw.responses
    → make_request raw ≡ ok r
    → IsValidRequest r
make_request-IsValid raw r vq vr h = Ensures-ok IsValidRequest _ r (request-Ensures raw vq vr) h
