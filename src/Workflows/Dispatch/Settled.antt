-- ===== src/Workflows/Dispatch/Settled.antt =====
-- What a dispatch that still holds its claim leaves of the intent, and returns.
pub mod Starts
pub mod Commands
use mathlib.Core.Path.{subst}
use mathlib.Core.Option.{some-injective, none-ne-some}
use eduvijna_aieos_backend.Prelude.{
  ℕ, ◌≡◌, ◌≢◌, refl, sym, ap, ◌∙◌, Bool, true, false, not, ◌&&◌, ◌||◌, Option, none, some, List, [],
  ◌∷◌, leb, ◌==◌, ==_iff, if◌then◌else◌, first, first-In, Bool-cases, inl, inr, arith,
}
use eduvijna_aieos_backend.Python.Text.{Text, codes, text_eq, text_eq_refl}
use eduvijna_aieos_backend.Python.Scalars.{Uuid, Datetime}
use eduvijna_aieos_backend.Content.Json.{Value}
use eduvijna_aieos_backend.Events.Dispatcher.{or_default, after, error_retry_exhausted}
use eduvijna_aieos_backend.Workflows.Intents.{
  IntentStatus, pending, claimed, delivered, quarantined, WorkflowStartIntent,
  WorkflowCommandIntent,
}
use eduvijna_aieos_backend.Workflows.Tables.{select_first, update_rows, any_row}
use eduvijna_aieos_backend.Workflows.Tables.Lookup.{first-update_rows, first-untouched}
use eduvijna_aieos_backend.Workflows.Dispatch.{
  Intents, is_claimed, is_start_row, with_start_claim, claim_selected_start, claim_start_intent,
  is_start_fenced, with_start_delivery, mark_start_delivered, with_start_release,
  release_start_for_retry, is_command_row, with_command_claim, claim_selected_command,
  claim_command_intent, is_command_fenced, with_command_delivery, mark_command_delivered,
  with_command_release, release_command_for_retry,
}
use eduvijna_aieos_backend.Workflows.Dispatch.Order.{and-both}
use eduvijna_aieos_backend.Workflows.Dispatch.Gateway.{
  DispatcherConfig, DeliveryResult, error_code_of, quarantines, finalize_start, finalize_command,
  after_start_claim, after_command_claim, dispatch_start, dispatch_command,
}

-- The columns of an intent that its delivery is about.
pub record Columns : Type 0 where
  pub status : IntentStatus
  pub attempt_count : ℕ
  pub available_at : Datetime
  pub claimed_by : Option Text
  pub claimed_until : Option Datetime
  pub delivered_at : Option Datetime
  pub last_error_code : Option Text

abbrev pub start_columns : WorkflowStartIntent → Columns
start_columns s = record {
  status = s.status;
  attempt_count = s.attempt_count;
  available_at = s.available_at;
  claimed_by = s.claimed_by;
  claimed_until = s.claimed_until;
  delivered_at = s.delivered_at;
  last_error_code = s.last_error_code;
}

abbrev pub command_columns : WorkflowCommandIntent → Columns
command_columns c = record {
  status = c.status;
  attempt_count = c.attempt_count;
  available_at = c.available_at;
  claimed_by = c.claimed_by;
  claimed_until = c.claimed_until;
  delivered_at = c.delivered_at;
  last_error_code = c.last_error_code;
}

-- The status and the error of an intent, by whether the engine accepted it, whether a refusal is
-- permanent, and whether the attempts are used up.
abbrev pub settled_status : (accepted permanent exhausted : Bool) → IntentStatus
settled_status true permanent exhausted = delivered
settled_status false true exhausted = quarantined
settled_status false false true = quarantined
settled_status false false false = pending

abbrev pub settled_error :
    (accepted permanent exhausted : Bool) → (reported : Option Text) → Option Text
settled_error true permanent exhausted reported = none
settled_error false false true reported = some (codes "retry_exhausted")
settled_error false _ _ none = some (codes "retry_exhausted")
settled_error false _ _ (some []) = some (codes "retry_exhausted")
settled_error false _ _ (some (c ∷ code)) = some (c ∷ code)

-- The columns after a dispatch, by those of the claim.
pub record AreSettled (config : DispatcherConfig) (finished : Datetime) (result : DeliveryResult)
    (before now : Columns) : Type 0 where
  pub status :
      now.status
      ≡ settled_status result.delivered result.permanent
          (leb config.max_attempts before.attempt_count)
  pub attempt_count : now.attempt_count ≡ before.attempt_count
  pub claimed_by : now.claimed_by ≡ none
  pub claimed_until : now.claimed_until ≡ none
  pub delivered_at :
      now.delivered_at ≡ (if result.delivered then some finished else before.delivered_at)
  pub available_at :
      now.available_at
      ≡ (if result.delivered then before.available_at else after finished config.retry_delay)
  pub last_error_code :
      now.last_error_code
      ≡ settled_error result.delivered result.permanent
          (leb config.max_attempts before.attempt_count)
          result.error_code

pub refused_status :
    (permanent exhausted : Bool)
    → (if permanent || exhausted then quarantined else pending)
      ≡ settled_status false permanent exhausted
refused_status true exhausted = refl
refused_status false true = refl
refused_status false false = refl

pub refused_error :
    (permanent exhausted : Bool) (reported : Option Text)
    → some (
        if not permanent && exhausted
        then error_retry_exhausted
        else or_default reported error_retry_exhausted)
      ≡ settled_error false permanent exhausted reported
refused_error false true none = refl
refused_error false true (some []) = refl
refused_error false true (some (c ∷ code)) = refl
refused_error true exhausted none = refl
refused_error true exhausted (some []) = refl
refused_error true exhausted (some (c ∷ code)) = refl
refused_error false false none = refl
refused_error false false (some []) = refl
refused_error false false (some (c ∷ code)) = refl

pub or_default_same : (t : Text) → or_default (some t) t ≡ t
or_default_same [] = refl
or_default_same (c ∷ s) = refl

pub is_same : (n : ℕ) → (n == n) ≡ true
is_same n = (==_iff n n).1 refl
