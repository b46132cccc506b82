-- ===== src/Content/Review.antt =====
-- domain/review.py: the normal form of the two texts of a review, and the decision that is bound to one
-- version.
pub mod Validity
use eduvijna_aieos_backend.Prelude.{
  ℕ, ◌≤◌, ◌≡◌, Bool, true, false, not, ◌&&◌, ◌||◌, Option, none, some, List, [], ◌∷◌, length, ltb,
  leb, ◌==◌, ok, err, ◌>>=◌, ◌>>◌, guard, if◌then◌else◌,
}
use eduvijna_aieos_backend.Python.Text.{Text, strip, IsClean}
use eduvijna_aieos_backend.Python.Scalars.{Uuid, Datetime, IsAware, require_aware}
use eduvijna_aieos_backend.Content.Vocabulary.{ContentResult, review_decision_binding}

pub data ReviewDecisionCode : Type 0 where
  approve request_changes reject : ReviewDecisionCode

abbrev pub max_reason_code : ℕ
max_reason_code = 64

abbrev pub max_comment : ℕ
max_comment = 4000

-- `[a-z0-9]`
abbrev pub starts_code : ℕ → Bool
starts_code c = (leb b'a' c && leb c b'z') || (leb b'0' c && leb c b'9')

-- `[a-z0-9._-]`
abbrev pub continues_code : ℕ → Bool
continues_code c = starts_code c || c == b'.' || c == b'_' || c == b'-'

unfoldable pub all_continue : Text → Bool
all_continue [] = true
all_continue (c ∷ s) = continues_code c && all_continue s

-- `_REASON_CODE.fullmatch`
unfoldable pub is_reason_code : Text → Bool
unfolding all_continue
is_reason_code [] = false
is_reason_code (c ∷ s) = starts_code c && all_continue s

abbrev pub code_of_stripped : Text → ContentResult (Option Text)
code_of_stripped [] = ok none
code_of_stripped (c ∷ s) =
    if ltb max_reason_code (length (c ∷ s)) || not (is_reason_code (c ∷ s))
    then err review_decision_binding
    else ok (some (c ∷ s))

unfoldable pub normalize_reason_code : Option Text → ContentResult (Option Text)
unfolding is_reason_code
normalize_reason_code none = ok none
normalize_reason_code (some value) = code_of_stripped (strip value)

abbrev pub comment_of_stripped : Text → ContentResult (Option Text)
comment_of_stripped [] = ok none
comment_of_stripped (c ∷ s) =
    if ltb max_comment (length (c ∷ s)) then err review_decision_binding else ok (some (c ∷ s))

unfoldable pub normalize_review_comment : Option Text → ContentResult (Option Text)
normalize_review_comment none = ok none
normalize_review_comment (some value) = comment_of_stripped (strip value)

-- `ReviewDecision`
pub record ReviewDecision : Type 0 where
  pub review_decision_id : Uuid
  pub tenant_id : Uuid
  pub content_id : Uuid
  pub version_id : Uuid
  pub decision : ReviewDecisionCode
  pub reason_code : Option Text
  pub comment : Option Text
  pub reviewer_principal_id : Uuid
  pub effective_actor_id : Uuid
  pub delegation_id : Option Uuid
  pub decided_at : Datetime
  pub correlation_id : Uuid

-- `decision is REQUEST_CHANGES and comment is None`
abbrev pub lacks_comment : ReviewDecisionCode → Option Text → Bool
lacks_comment request_changes none = true
lacks_comment _ _ = false

-- `ReviewDecision.__post_init__`
unfoldable pub construct : ReviewDecision → ContentResult ReviewDecision
unfolding normalize_reason_code normalize_review_comment
construct d = do
  require_aware review_decision_binding d.decided_at
  code ← normalize_reason_code d.reason_code
  comment ← normalize_review_comment d.comment
  guard (not (lacks_comment d.decision comment)) review_decision_binding
  ok (record d { reason_code = code; comment = comment })

abbrev pub applies_to : ReviewDecision → Uuid → Bool
applies_to d version_id = d.version_id == version_id

-- Each decision is one of the three that close a review.
abbrev pub closes_review_of : ReviewDecision → Uuid → Bool
closes_review_of d version_id = if not (applies_to d version_id) then false else true

abbrev pub is_approve : ReviewDecisionCode → Bool
is_approve approve = true
is_approve _ = false

-- The normal form of a reason code: at most 64 characters of the alphabet, no blank around them.
pub record IsReasonCode (t : Text) : Type 0 where
  pub clean : IsClean max_reason_code t
  pub in_alphabet : is_reason_code t ≡ true

abbrev pub CodeFits : Option Text → Type 0
CodeFits none = Unit
CodeFits (some t) = IsReasonCode t

abbrev pub CommentFits : Option Text → Type 0
CommentFits none = Unit
CommentFits (some t) = IsClean max_comment t

pub record IsValid (d : ReviewDecision) : Type 0 where
  pub aware_decision : IsAware d.decided_at
  pub code_fits : CodeFits d.reason_code
  pub comment_fits : CommentFits d.comment
  pub has_comment : lacks_comment d.decision d.comment ≡ false
