-- ===== src/Workflows/Examples.antt =====
-- Tests: a start and the signal of its decision, from the insertion to the delivery.
use eduvijna_aieos_backend.Prelude.{
  some, first, arith, ℕ, ◌≡◌, refl, inl, Bool, true, false, none, [], ◌∷◌, ok,
}
use eduvijna_aieos_backend.Python.Text.{codes, text_eq}
use eduvijna_aieos_backend.Python.Scalars.{Uuid, Datetime}
use eduvijna_aieos_backend.Content.Json.{null}
use eduvijna_aieos_backend.Workflows.Intents.{
  WorkflowStartIntent, WorkflowCommandIntent, pending, insert_start_intent, insert_command_intent,
}
use eduvijna_aieos_backend.Workflows.Tables.{select_first, any_row, update_rows}
use eduvijna_aieos_backend.Workflows.Dispatch.{
  Intents, claim_command_intent, is_command_candidate, claim_start_intent, is_start_row,
  is_command_row, with_start_claim, with_command_claim,
}
use eduvijna_aieos_backend.Workflows.Dispatch.Gateway.{
  DispatcherConfig, DeliveryResult, dispatch_start, dispatch_command,
}
use eduvijna_aieos_backend.Workflows.Dispatch.Order.{IsOrdered}
use eduvijna_aieos_backend.Workflows.Dispatch.Delivery.{Delivers, IsFree, dispatch_start-Delivers}
use eduvijna_aieos_backend.Workflows.Dispatch.Settled.Starts.{
  StartSettled, dispatch_start-StartSettled,
}
use eduvijna_aieos_backend.Workflows.Dispatch.Settled.Commands.{
  CommandSettled, dispatch_command-CommandSettled,
}
use eduvijna_aieos_backend.Workflows.Dispatch.History.{
  Reach, empty, step, start_inserted, command_inserted, Reach-IsOrdered, dispatch-Reach,
}

abbrev at : ℕ → Datetime
at n = record { is_aware = true; instant = n }

abbrev start : WorkflowStartIntent
start = record {
  workflow_start_intent_id = 30;
  tenant_id = 1;
  workflow_instance_id = 20;
  workflow_type = codes "ContentReviewWorkflowV1";
  workflow_major_version = 1;
  temporal_workflow_id = codes "w20";
  task_queue = codes "q";
  business_key = codes "b";
  input = null;
  status = pending;
  attempt_count = 0;
  available_at = at 5;
  claimed_by = none;
  claimed_until = none;
  delivered_at = none;
  last_error_code = none;
  created_at = at 5;
}

abbrev signal : WorkflowCommandIntent
signal = record {
  workflow_command_intent_id = 50;
  tenant_id = 1;
  workflow_instance_id = 20;
  temporal_workflow_id = codes "w20";
  command_id = 51;
  command_type = codes "review_decision_recorded";
  business_key = codes "d";
  payload = null;
  status = pending;
  attempt_count = 0;
  available_at = at 6;
  claimed_by = none;
  claimed_until = none;
  delivered_at = none;
  last_error_code = none;
  created_at = at 6;
}

abbrev inserted : Intents
inserted = record { starts = start ∷ []; commands = signal ∷ [] }

abbrev unlocked : Uuid → Bool
unlocked u = false

abbrev config : DispatcherConfig
config = record { claim_lease = 30; max_attempts = 3; retry_delay = 10; claimed_by = codes "w" }

abbrev accepted : DeliveryResult
accepted = record { delivered = true; error_code = none; permanent = false }

-- The signal waits for its start.
signal_waits : (claim_command_intent 1 (codes "w") (at 9) (at 39) unlocked inserted).1 ≡ none
unfolding claim_command_intent select_first is_command_candidate any_row
signal_waits = refl

start-IsFree : IsFree 1 (at 9) unlocked start
start-IsFree = record { same_tenant = refl; due = omega arith; unlocked = refl }

-- The tables after a dispatch of the start.
unfoldable started : Intents
unfolding dispatch_start
started =
    (dispatch_start config (λ w q input. accepted) (λ d. d) 1 (at 9) (at 10) unlocked inserted).0

-- A dispatch of the signal reports its delivery then, and not before.
signal_delivered :
    (dispatch_command config (λ w payload. accepted) (λ d. d) 1 (at 9) (at 10) unlocked started).1
    ≡ true
unfolding started dispatch_command text_eq
signal_delivered = refl

signal_undelivered :
    (dispatch_command config (λ w payload. accepted) (λ d. d) 1 (at 9) (at 10) unlocked inserted).1
    ≡ false
unfolding dispatch_command
signal_undelivered = refl

start_accepted : insert_start_intent start [] ≡ ok (start ∷ [])
unfolding insert_start_intent
start_accepted = refl

signal_accepted : insert_command_intent signal [] ≡ ok (signal ∷ [])
unfolding insert_command_intent
signal_accepted = refl

Reach-inserted : Reach inserted
Reach-inserted =
    step (step empty (start_inserted start (start ∷ []) start_accepted))
      (command_inserted signal (signal ∷ []) (refl, refl) signal_accepted)

Reach-started : Reach started
unfolding started
Reach-started =
    (dispatch-Reach config (λ d. d) (λ d r. r) (λ w q input. accepted) (λ w payload. accepted) 1
      (at 9) (at 10) unlocked inserted Reach-inserted).0

Reach-delivered :
    Reach
      (dispatch_command config (λ w payload. accepted) (λ d. d) 1 (at 9) (at 10) unlocked started).0
Reach-delivered =
    (dispatch-Reach config (λ d. d) (λ d r. r) (λ w q input. accepted) (λ w payload. accepted) 1
      (at 9) (at 10) unlocked started Reach-started).1

Reach-IsOrdered_example :
    IsOrdered
      (dispatch_command config (λ w payload. accepted) (λ d. d) 1 (at 9) (at 10) unlocked started).0
Reach-IsOrdered_example = Reach-IsOrdered Reach-delivered

dispatch_start-Delivers_example :
    Delivers 1
      (at 9)
      (at 10)
      unlocked
      inserted.starts
      (dispatch_start config (λ w q input. accepted) (λ e. e) 1 (at 9) (at 10) unlocked inserted)
dispatch_start-Delivers_example =
    dispatch_start-Delivers config (λ w q input. accepted) (λ w q input. refl) 1 (at 9) (at 10)
      unlocked inserted start (tt, tt) (inl refl) start-IsFree

-- The engine refuses the start, and another worker inserts a row while it is awaited.
abbrev refused : DeliveryResult
refused = record { delivered = false; error_code = some (codes "down"); permanent = false }

abbrev other_start : WorkflowStartIntent
other_start = record start { workflow_start_intent_id = 31; workflow_instance_id = 21 }

abbrev inserting : Intents → Intents
inserting d = record d { starts = other_start ∷ d.starts }

abbrev held_start : WorkflowStartIntent
held_start = with_start_claim (codes "w") (at 39) start

start_claimed_9 :
    (claim_start_intent 1 (codes "w") (at 9) (at 39) unlocked inserted).1 ≡ some held_start
unfolding claim_start_intent select_first
start_claimed_9 = refl

start_held :
    first
      (is_start_row 1 30)
      (inserting (claim_start_intent 1 (codes "w") (at 9) (at 39) unlocked inserted).0).starts
    ≡ some held_start
unfolding claim_start_intent select_first update_rows first
start_held = refl

dispatch_start-StartSettled_example :
    StartSettled config 1
      (at 10)
      held_start
      refused
      (inserting (claim_start_intent 1 (codes "w") (at 9) (at 39) unlocked inserted).0)
      (dispatch_start config (λ w q input. refused) inserting 1 (at 9) (at 10) unlocked inserted)
dispatch_start-StartSettled_example =
    dispatch_start-StartSettled config (λ w q input. refused) inserting 1 (at 9) (at 10) unlocked
      inserted held_start start_claimed_9 start_held

abbrev held_signal : WorkflowCommandIntent
held_signal = with_command_claim (codes "w") (at 39) signal

signal_claimed_9 :
    (claim_command_intent 1 (codes "w") (at 9) (at 39) unlocked started).1 ≡ some held_signal
unfolding started claim_command_intent select_first text_eq
signal_claimed_9 = refl

signal_held :
    first
      (is_command_row 1 50)
      (claim_command_intent 1 (codes "w") (at 9) (at 39) unlocked started).0.commands
    ≡ some held_signal
unfolding started claim_command_intent select_first update_rows first text_eq
signal_held = refl

dispatch_command-CommandSettled_example :
    CommandSettled config 1
      (at 10)
      held_signal
      accepted
      (claim_command_intent 1 (codes "w") (at 9) (at 39) unlocked started).0
      (dispatch_command config (λ w payload. accepted) (λ d. d) 1 (at 9) (at 10) unlocked started)
dispatch_command-CommandSettled_example =
    dispatch_command-CommandSettled config (λ w payload. accepted) (λ d. d) 1 (at 9) (at 10)
      unlocked started held_signal signal_claimed_9 signal_held
