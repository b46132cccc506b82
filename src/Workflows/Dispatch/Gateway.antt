-- ===== src/Workflows/Dispatch/Gateway.antt =====
-- temporal/dispatchers.py: one dispatch of a start or of a command, with the workflow engine as a
-- parameter. While it is awaited other workers may change the tables, which is the parameter
-- `meanwhile`; `now` and `finished` are the two readings of the clock. Durations are in microseconds.
use eduvijna_aieos_backend.Prelude.{
  ℕ, Bool, false, not, ◌&&◌, ◌||◌, Option, none, some, leb, if◌then◌else◌,
}
use eduvijna_aieos_backend.Python.Text.{Text}
use eduvijna_aieos_backend.Python.Scalars.{Uuid, Datetime}
use eduvijna_aieos_backend.Content.Json.{Value}
use eduvijna_aieos_backend.Events.Dispatcher.{or_default, after, error_retry_exhausted}
use eduvijna_aieos_backend.Workflows.Intents.{WorkflowStartIntent, WorkflowCommandIntent}
use eduvijna_aieos_backend.Workflows.Dispatch.{
  Intents, claim_start_intent, mark_start_delivered, release_start_for_retry, claim_command_intent,
  mark_command_delivered, release_command_for_retry,
}

-- `StartDeliveryResult` and `CommandDeliveryResult`, which have the same fields.
pub record DeliveryResult : Type 0 where
  pub delivered : Bool
  pub error_code : Option Text
  pub permanent : Bool

-- The configuration, of which the time limits are part of the workflow engine here.
pub record DispatcherConfig : Type 0 where
  pub claim_lease : ℕ
  pub max_attempts : ℕ
  pub retry_delay : ℕ
  pub claimed_by : Text

module _ (config : DispatcherConfig) where
  abbrev pub quarantines : (attempt_count : ℕ) → DeliveryResult → Bool
  quarantines attempt_count result = result.permanent || leb config.max_attempts attempt_count

  abbrev pub error_code_of : (attempt_count : ℕ) → DeliveryResult → Text
  error_code_of attempt_count result =
      if not result.permanent && leb config.max_attempts attempt_count
      then error_retry_exhausted
      else or_default result.error_code error_retry_exhausted

  unfoldable pub finalize_start :
      Uuid → WorkflowStartIntent → DeliveryResult → Datetime → Intents → Intents × Bool
  unfolding mark_start_delivered release_start_for_retry
  finalize_start tenant s result finished d =
      let fence_by = or_default s.claimed_by config.claimed_by in
      if result.delivered
      then mark_start_delivered tenant s.workflow_start_intent_id fence_by s.attempt_count finished
          d
      else (
        (release_start_for_retry tenant s.workflow_start_intent_id fence_by s.attempt_count
            (after finished config.retry_delay) (error_code_of s.attempt_count result)
            (quarantines s.attempt_count result) d).0,
        false,
      )

  unfoldable pub finalize_command :
      Uuid → WorkflowCommandIntent → DeliveryResult → Datetime → Intents → Intents × Bool
  unfolding mark_command_delivered release_command_for_retry
  finalize_command tenant c result finished d =
      let fence_by = or_default c.claimed_by config.claimed_by in
      if result.delivered
      then mark_command_delivered tenant c.workflow_command_intent_id fence_by c.attempt_count
          finished d
      else (
        (release_command_for_retry tenant c.workflow_command_intent_id fence_by c.attempt_count
            (after finished config.retry_delay) (error_code_of c.attempt_count result)
            (quarantines c.attempt_count result) d).0,
        false,
      )

  module _
      (start_content_review : (temporal_workflow_id task_queue : Text) → Value → DeliveryResult)
      (meanwhile : Intents → Intents) where
    unfoldable pub after_start_claim :
        Uuid → Datetime → Intents × Option WorkflowStartIntent → Intents × Bool
    unfolding finalize_start
    after_start_claim tenant finished (d, none) = (d, false)
    after_start_claim tenant finished (d, some s) =
        finalize_start tenant s (start_content_review s.temporal_workflow_id s.task_queue s.input)
          finished (meanwhile d)

    -- `ContentReviewStartDispatcher.dispatch_once`
    unfoldable pub dispatch_start :
        Uuid → (now finished : Datetime) → (locked : Uuid → Bool) → Intents → Intents × Bool
    unfolding claim_start_intent after_start_claim
    dispatch_start tenant now finished locked d =
        after_start_claim tenant finished
          (claim_start_intent tenant config.claimed_by now (after now config.claim_lease) locked d)

  module _ (deliver_review_decision : (temporal_workflow_id : Text) → Value → DeliveryResult)
      (meanwhile : Intents → Intents) where
    unfoldable pub after_command_claim :
        Uuid → Datetime → Intents × Option WorkflowCommandIntent → Intents × Bool
    unfolding finalize_command
    after_command_claim tenant finished (d, none) = (d, false)
    after_command_claim tenant finished (d, some c) =
        finalize_command tenant c (deliver_review_decision c.temporal_workflow_id c.payload)
          finished (meanwhile d)

    -- `ContentReviewCommandDispatcher.dispatch_once`
    unfoldable pub dispatch_command :
        Uuid → (now finished : Datetime) → (locked : Uuid → Bool) → Intents → Intents × Bool
    unfolding claim_command_intent after_command_claim
    dispatch_command tenant now finished locked d =
        after_command_claim tenant finished (
          claim_command_intent tenant config.claimed_by now (after now config.claim_lease) locked d)
