-- ===== src/Workflows/Dispatch/History.antt =====
-- The histories of the two tables: every sequence of insertions, claims and finalizations.
use eduvijna_aieos_backend.Prelude.{
  ℕ, ◌≡◌, refl, Bool, Option, none, some, List, [], ok, Bool-cases, inl, inr,
}
use eduvijna_aieos_backend.Python.Text.{Text}
use eduvijna_aieos_backend.Python.Scalars.{Uuid, Datetime}
use eduvijna_aieos_backend.Workflows.Intents.{
  WorkflowStartIntent, WorkflowCommandIntent, insert_start_intent, insert_command_intent,
}
use eduvijna_aieos_backend.Workflows.Dispatch.{
  Intents, claim_start_intent, with_start_delivery, mark_start_delivered, with_start_release,
  release_start_for_retry, claim_command_intent, with_command_delivery, mark_command_delivered,
  with_command_release, release_command_for_retry,
}
use eduvijna_aieos_backend.Workflows.Dispatch.Order.{
  IsOrdered, IsUntouched, insert_command-IsOrdered, insert_start-IsOrdered,
}
use eduvijna_aieos_backend.Workflows.Dispatch.Claims.{
  claim_command-IsOrdered, claim_start-IsOrdered, finalize_command-IsOrdered,
  finalize_start-IsOrdered,
}
use eduvijna_aieos_backend.Workflows.Dispatch.Gateway.{
  DispatcherConfig, DeliveryResult, finalize_start, finalize_command, after_start_claim,
  after_command_claim, dispatch_start, dispatch_command,
}
use eduvijna_aieos_backend.Content.Json.{Value}
use eduvijna_aieos_backend.Events.Dispatcher.{after}

-- One operation, of whichever worker. What a unit of work inserts is pending and without attempts.
pub data Step (d : Intents) : Intents → Type 0 where
  start_inserted :
      (s : WorkflowStartIntent) (rows : List WorkflowStartIntent)
      → insert_start_intent s d.starts ≡ ok rows
      → Step d (record d { starts = rows })
  command_inserted :
      (c : WorkflowCommandIntent) (rows : List WorkflowCommandIntent)
      → IsUntouched c
      → insert_command_intent c d.commands ≡ ok rows
      → Step d (record d { commands = rows })
  start_claimed :
      (tenant : Uuid) (worker : Text) (now lease : Datetime) (locked : Uuid → Bool)
      → Step d (claim_start_intent tenant worker now lease locked d).0
  start_marked :
      (tenant intent : Uuid) (worker : Text) (attempt : ℕ) (at : Datetime)
      → Step d (mark_start_delivered tenant intent worker attempt at d).0
  start_released :
      (tenant intent : Uuid) (worker : Text) (attempt : ℕ) (available : Datetime) (code : Text)
      (quarantine : Bool)
      → Step d (release_start_for_retry tenant intent worker attempt available code quarantine d).0
  command_claimed :
      (tenant : Uuid) (worker : Text) (now lease : Datetime) (locked : Uuid → Bool)
      → Step d (claim_command_intent tenant worker now lease locked d).0
  command_marked :
      (tenant intent : Uuid) (worker : Text) (attempt : ℕ) (at : Datetime)
      → Step d (mark_command_delivered tenant intent worker attempt at d).0
  command_released :
      (tenant intent : Uuid) (worker : Text) (attempt : ℕ) (available : Datetime) (code : Text)
      (quarantine : Bool)
      → Step d
          (release_command_for_retry tenant intent worker attempt available code quarantine d).0

abbrev pub no_intents : Intents
no_intents = record { starts = []; commands = [] }

-- What a sequence of operations on the empty tables leads to.
pub data Reach : Intents → Type 0 where
  empty : Reach no_intents
  step : {d e : Intents} → Reach d → Step d e → Reach e

Step-IsOrdered : {d e : Intents} → IsOrdered d → Step d e → IsOrdered e
unfolding mark_start_delivered release_start_for_retry mark_command_delivered
    release_command_for_retry
Step-IsOrdered {d} h (start_inserted s rows e) = insert_start-IsOrdered s d rows h e
Step-IsOrdered {d} h (command_inserted c rows u e) = insert_command-IsOrdered c d rows u h e
Step-IsOrdered {d} h (start_claimed tenant worker now lease locked) =
    claim_start-IsOrdered tenant worker now lease locked d h
Step-IsOrdered {d} h (start_marked tenant intent worker attempt at) =
    finalize_start-IsOrdered tenant intent worker attempt (with_start_delivery at) d (λ s. refl) h
Step-IsOrdered {d} h (start_released tenant intent worker attempt available code quarantine) =
    finalize_start-IsOrdered tenant intent worker attempt
      (with_start_release available code quarantine) d (λ s. refl) h
Step-IsOrdered {d} h (command_claimed tenant worker now lease locked) =
    claim_command-IsOrdered tenant worker now lease locked d h
Step-IsOrdered {d} h (command_marked tenant intent worker attempt at) =
    finalize_command-IsOrdered tenant intent worker attempt (with_command_delivery at) d (λ c. refl)
      (λ c. refl) (λ c. refl) h
Step-IsOrdered {d} h (command_released tenant intent worker attempt available code quarantine) =
    finalize_command-IsOrdered tenant intent worker attempt
      (with_command_release available code quarantine) d (λ c. refl) (λ c. refl) (λ c. refl) h

-- After any sequence of insertions, claims, deliveries and releases by any workers on empty tables,
-- where a command is inserted pending and without attempts: no two intents of a table have one
-- identity, and every command is still pending without an attempt, or the start of its workflow
-- instance is stored in the same tenant and delivered. So no signal is claimed, delivered, retried or
-- quarantined before its workflow was started.
pub Reach-IsOrdered : {d : Intents} → Reach d → IsOrdered d
Reach-IsOrdered empty = record { start_keys = tt; command_keys = tt; follow = tt }
Reach-IsOrdered (step r s) = Step-IsOrdered (Reach-IsOrdered r) s

-- The two dispatchers, while other workers do anything that leads from reached tables to reached ones.
module _ (config : DispatcherConfig) (meanwhile : Intents → Intents)
    (others : (d : Intents) → Reach d → Reach (meanwhile d)) where
  finalize_start-Reach :
      (tenant : Uuid) (s : WorkflowStartIntent) (result : DeliveryResult) (finished : Datetime)
      {d : Intents}
      → Reach d
      → Reach (finalize_start config tenant s result finished d).0
  unfolding finalize_start
  finalize_start-Reach tenant s result finished {d} r = elim (Bool-cases result.delivered) [
    | inl e ↦ rw e (step r (start_marked tenant s.workflow_start_intent_id _ s.attempt_count _))
    | inr e ↦
        rw e (step r (start_released tenant s.workflow_start_intent_id _ s.attempt_count _ _ _))
  ]

  finalize_command-Reach :
      (tenant : Uuid) (c : WorkflowCommandIntent) (result : DeliveryResult) (finished : Datetime)
      {d : Intents}
      → Reach d
      → Reach (finalize_command config tenant c result finished d).0
  unfolding finalize_command
  finalize_command-Reach tenant c result finished {d} r = elim (Bool-cases result.delivered) [
    | inl e ↦ rw e (step r (command_marked tenant c.workflow_command_intent_id _ c.attempt_count _))
    | inr e ↦
        rw e (step r (command_released tenant c.workflow_command_intent_id _ c.attempt_count _ _ _))
  ]

  after_start_claim-Reach :
      (start_content_review : (temporal_workflow_id task_queue : Text) → Value → DeliveryResult)
      (tenant : Uuid) (finished : Datetime) (claim : Intents × Option WorkflowStartIntent)
      → Reach claim.0
      → Reach (after_start_claim config start_content_review meanwhile tenant finished claim).0
  unfolding after_start_claim
  after_start_claim-Reach start tenant finished (d, none) r = r
  after_start_claim-Reach start tenant finished (d, some s) r =
      finalize_start-Reach tenant s _ finished (others d r)

  after_command_claim-Reach :
      (deliver_review_decision : (temporal_workflow_id : Text) → Value → DeliveryResult)
      (tenant : Uuid) (finished : Datetime) (claim : Intents × Option WorkflowCommandIntent)
      → Reach claim.0
      → Reach (after_command_claim config deliver_review_decision meanwhile tenant finished claim).0
  unfolding after_command_claim
  after_command_claim-Reach deliver tenant finished (d, none) r = r
  after_command_claim-Reach deliver tenant finished (d, some c) r =
      finalize_command-Reach tenant c _ finished (others d r)

  -- From tables that a history reaches, one dispatch of a start and one of a command lead to tables that
  -- a history reaches, so that what holds in every history holds after them.
  pub dispatch-Reach :
      (start_content_review : (temporal_workflow_id task_queue : Text) → Value → DeliveryResult)
      (deliver_review_decision : (temporal_workflow_id : Text) → Value → DeliveryResult)
      (tenant : Uuid) (now finished : Datetime) (locked : Uuid → Bool) (d : Intents)
      → Reach d
      → Reach (dispatch_start config start_content_review meanwhile tenant now finished locked d).0
        × Reach
            (dispatch_command config deliver_review_decision meanwhile tenant now finished locked
              d).0
  unfolding dispatch_start dispatch_command
  dispatch-Reach start deliver tenant now finished locked d r = (
    after_start_claim-Reach start tenant finished _
        (step r (start_claimed tenant config.claimed_by now (after now config.claim_lease) locked)),
    after_command_claim-Reach deliver tenant finished _ (
        step r
          (command_claimed tenant config.claimed_by now (after now config.claim_lease) locked)),
  )
