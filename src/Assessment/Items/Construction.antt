-- ===== src/Assessment/Items/Construction.antt =====
-- When an item is accepted: its pairing of outcome, method and response kind.
use eduvijna_aieos_backend.Prelude.{
  ℕ, ◌≤◌, ◌≡◌, refl, true, Option, none, some, List, [], ◌∷◌, ok, arith, leb,
}
use eduvijna_aieos_backend.Python.Text.{Text, IsClean, require_text_of_IsClean}
use eduvijna_aieos_backend.Python.Sorting.{HasDistinct, Unseen, Unseen-cons}
use eduvijna_aieos_backend.Assessment.Vocabulary.{
  ItemOutcome, EvaluationMethod, QuestionType, ResponseKind, type_value, kind_value,
  invalid_evaluation,
}
use eduvijna_aieos_backend.Assessment.Objectives.{AreObjectives, require_of_AreObjectives}
use eduvijna_aieos_backend.Assessment.Questions.{TypeFits, KindFits, max_question_id_length}
use eduvijna_aieos_backend.Assessment.Items.{
  LearnerAssessmentEvaluationItem, make_item, item_response_kind, assert_outcome_method_pairing,
  check_distinct,
}

pub leb_of_le : (m n : ℕ) → m ≤ n → leb m n ≡ true
leb_of_le m n h = ground arith

item_kind_of_fits :
    (k : ResponseKind)
    → KindFits k
    → item_response_kind (some (kind_value k)) ≡ ok (some (kind_value k))
item_kind_of_fits k h = simp (h.0, leb_of_le _ _ h.1)

-- The kind of an item is absent, or the text of a kind that is kept.
pub data ItemKindFits : Option Text → Type 0 where
  absent : ItemKindFits none
  present : (k : ResponseKind) → KindFits k → ItemKindFits (some (kind_value k))

kind_of_ItemKindFits : {t : Option Text} → ItemKindFits t → item_response_kind t ≡ ok t
kind_of_ItemKindFits absent = refl
kind_of_ItemKindFits (present k h) = item_kind_of_fits k h

abbrev pub item_over :
    Text
    → QuestionType
    → ItemOutcome
    → EvaluationMethod
    → List Text
    → Option Text
    → LearnerAssessmentEvaluationItem
item_over i t o m oids k = record {
  question_id = i;
  question_type = type_value t;
  outcome = o;
  evaluation_method = m;
  objective_ids = oids;
  response_kind = k;
}

-- An item over a kept question, whose outcome, method and kind are paired, is accepted as it is.
pub make_item_of :
    (question_id : Text) (t : QuestionType) (outcome : ItemOutcome) (method : EvaluationMethod)
    (objective_ids : List Text) (kind : Option Text)
    → IsClean max_question_id_length question_id
    → TypeFits t
    → AreObjectives objective_ids
    → ItemKindFits kind
    → assert_outcome_method_pairing outcome method kind ≡ ok tt
    → make_item (item_over question_id t outcome method objective_ids kind)
      ≡ ok (item_over question_id t outcome method objective_ids kind)
unfolding make_item
make_item_of i t o m oids k c f ho hk p = simp (
  require_text_of_IsClean invalid_evaluation _ i c,
  f.0,
  leb_of_le _ _ f.1,
  require_of_AreObjectives oids ho,
  kind_of_ItemKindFits hk,
  p,
)

-- A loop over distinct keys finds none repeated.
pub check_distinct_of {ℓ} :
    {A : Type ℓ} (key : A → Text) (seen : List Text) (xs : List A)
    → Unseen key seen xs
    → HasDistinct key xs
    → check_distinct key seen xs ≡ ok tt
unfolding check_distinct
check_distinct_of key seen [] u d = refl
check_distinct_of key seen (x ∷ xs) u d =
    simp
      (u.0, check_distinct_of key (key x ∷ seen) xs (Unseen-cons key (key x) seen xs u.1 d.0) d.1)
