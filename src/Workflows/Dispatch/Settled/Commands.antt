-- ===== src/Workflows/Dispatch/Settled/Commands.antt =====
-- The dispatch of a command.
use mathlib.Core.Path.{subst}
use mathlib.Core.Option.{some-injective, none-ne-some}
use eduvijna_aieos_backend.Prelude.{
  ℕ, ◌≡◌, ◌≢◌, refl, sym, ap, ◌∙◌, Bool, true, false, Option, none, some, List, ==_iff, first,
  first-In, Bool-cases, inl, inr,
}
use eduvijna_aieos_backend.Python.Text.{Text, text_eq_refl}
use eduvijna_aieos_backend.Python.Scalars.{Uuid, Datetime}
use eduvijna_aieos_backend.Content.Json.{Value}
use eduvijna_aieos_backend.Events.Dispatcher.{or_default, after}
use eduvijna_aieos_backend.Workflows.Intents.{claimed, WorkflowCommandIntent}
use eduvijna_aieos_backend.Workflows.Tables.Lookup.{first-update_rows, first-untouched}
use eduvijna_aieos_backend.Workflows.Dispatch.{
  Intents, is_command_row, with_command_claim, claim_selected_command, claim_command_intent,
  is_command_fenced, with_command_delivery, mark_command_delivered, with_command_release,
  release_command_for_retry,
}
use eduvijna_aieos_backend.Workflows.Dispatch.Order.{and-both}
use eduvijna_aieos_backend.Workflows.Dispatch.Gateway.{
  DispatcherConfig, DeliveryResult, error_code_of, quarantines, finalize_command,
  after_command_claim, dispatch_command,
}
use eduvijna_aieos_backend.Workflows.Dispatch.Settled.{
  AreSettled, command_columns, refused_status, refused_error, or_default_same, is_same,
}

-- What a dispatch of a command that was claimed as `c` leaves and returns: the row that is found by the
-- identity is settled and is of the same workflow, the rows of all other identities and all starts are
-- those of `now`, and the result is the answer of the engine.
pub record CommandSettled (config : DispatcherConfig) (tenant : Uuid) (finished : Datetime)
    (c : WorkflowCommandIntent) (result : DeliveryResult) (now : Intents) (out : Intents × Bool)
    : Type 0 where
  pub row : WorkflowCommandIntent
  pub found : first (is_command_row tenant c.workflow_command_intent_id) out.0.commands ≡ some row
  pub instance_kept : row.workflow_instance_id ≡ c.workflow_instance_id
  pub settled : AreSettled config finished result (command_columns c) (command_columns row)
  pub others :
      (intent : Uuid)
      → intent ≢ c.workflow_command_intent_id
      → first (is_command_row tenant intent) out.0.commands
        ≡ first (is_command_row tenant intent) now.commands
  pub starts : out.0.starts ≡ now.starts
  pub returned : out.1 ≡ result.delivered

-- A fence holds of the row that it is about, while the claim is that of the worker.
command_fence :
    (config : DispatcherConfig) (tenant : Uuid) (s : WorkflowCommandIntent)
    (rows : List WorkflowCommandIntent)
    → first (is_command_row tenant s.workflow_command_intent_id) rows ≡ some s
    → s.status ≡ claimed
    → s.claimed_by ≡ some config.claimed_by
    → is_command_fenced tenant s.workflow_command_intent_id
        (or_default s.claimed_by config.claimed_by)
        s.attempt_count
        s
      ≡ true
command_fence config tenant s rows g h b =
    rw (b, or_default_same config.claimed_by)
      (simp (
        (first-In (is_command_row tenant s.workflow_command_intent_id) rows s g).1,
        h,
        text_eq_refl config.claimed_by,
        is_same s.attempt_count,
      ))

other_command :
    (tenant intent other : Uuid) (worker : Text) (attempt : ℕ) (s : WorkflowCommandIntent)
    → other ≢ intent
    → is_command_row tenant other s ≡ true
    → is_command_fenced tenant intent worker attempt s ≡ false
other_command tenant intent other worker attempt s ne h =
    elim (Bool-cases (is_command_fenced tenant intent worker attempt s)) [
      | inr e ↦ e
      | inl e ↦
          let row = (and-both _ _ (and-both _ _ (and-both _ _ e).0).0).0 in
          absurd (
            ne (
              sym ((==_iff s.workflow_command_intent_id other).0 (and-both _ _ h).1)
              ∙ (==_iff s.workflow_command_intent_id intent).0 (and-both _ _ row).1))
    ]

finalize_command-CommandSettled :
    (config : DispatcherConfig) (tenant : Uuid) (s : WorkflowCommandIntent)
    (result : DeliveryResult) (finished : Datetime) (d : Intents)
    → first (is_command_row tenant s.workflow_command_intent_id) d.commands ≡ some s
    → s.status ≡ claimed
    → s.claimed_by ≡ some config.claimed_by
    → CommandSettled config tenant finished s result d
        (finalize_command config tenant s result finished d)
unfolding finalize_command mark_command_delivered release_command_for_retry
finalize_command-CommandSettled config tenant s result finished d g h b =
    let fence = command_fence config tenant s d.commands g h b in
    elim (Bool-cases result.delivered) [
      | inl e ↦
          let after_mark =
            first-update_rows (is_command_row tenant s.workflow_command_intent_id) _
              (with_command_delivery finished) d.commands s (λ r. refl) fence g in
          rw e (record {
            row = with_command_delivery finished s;
            found = after_mark.0;
            instance_kept = refl;
            settled = record {
              status = refl;
              attempt_count = refl;
              claimed_by = refl;
              claimed_until = refl;
              delivered_at = refl;
              available_at = refl;
              last_error_code = refl;
            };
            others = λ intent ne.
                first-untouched (is_command_row tenant intent) _ _ d.commands (λ r. refl)
                  (λ r k. other_command tenant s.workflow_command_intent_id intent _ _ r ne k);
            starts = refl;
            returned = after_mark.1;
          })
      | inr e ↦
          let change =
            with_command_release (after finished config.retry_delay)
              (error_code_of config s.attempt_count result)
              (quarantines config s.attempt_count result) in
          let after_release =
            first-update_rows (is_command_row tenant s.workflow_command_intent_id) _ change
              d.commands s (λ r. refl) fence g in
          rw e (record {
            row = change s;
            found = after_release.0;
            instance_kept = refl;
            settled = record {
              status = refused_status result.permanent _;
              attempt_count = refl;
              claimed_by = refl;
              claimed_until = refl;
              delivered_at = refl;
              available_at = refl;
              last_error_code = refused_error result.permanent _ result.error_code;
            };
            others = λ intent ne.
                first-untouched (is_command_row tenant intent) _ _ d.commands (λ r. refl)
                  (λ r k. other_command tenant s.workflow_command_intent_id intent _ _ r ne k);
            starts = refl;
            returned = refl;
          })
    ]

-- A claim returns a row that is held by the worker.
claim_selected_command-held :
    (tenant : Uuid) (worker : Text) (lease : Datetime) (o : Option WorkflowCommandIntent)
    (d : Intents) (s : WorkflowCommandIntent)
    → (claim_selected_command tenant worker lease o d).1 ≡ some s
    → (s.status ≡ claimed) × (s.claimed_by ≡ some worker)
claim_selected_command-held tenant worker lease none d s h = absurd (none-ne-some s h)
claim_selected_command-held tenant worker lease (some row) d s h =
    let same : with_command_claim worker lease row ≡ s = some-injective _ _ h in
    (
      sym (ap (λ (x : WorkflowCommandIntent). x.status) same),
      sym (ap (λ (x : WorkflowCommandIntent). x.claimed_by) same),
    )

-- When the claim of a dispatch of a command took a row, and the table still holds that row unchanged under
-- its identity after the engine has answered, then the intent is delivered at that time if the engine
-- accepted it, otherwise quarantined if the refusal is permanent or the attempts are used up, and else
-- pending again after the delay. The claim is released, the error is that of the answer, no other
-- intent is changed but by what other workers do, and the dispatch returns whether the engine accepted.
pub dispatch_command-CommandSettled :
    (config : DispatcherConfig)
    (deliver_review_decision : (temporal_workflow_id : Text) → Value → DeliveryResult)
    (meanwhile : Intents → Intents) (tenant : Uuid) (now finished : Datetime) (locked : Uuid → Bool)
    (d : Intents) (s : WorkflowCommandIntent)
    → (claim_command_intent tenant config.claimed_by now (after now config.claim_lease) locked d).1
      ≡ some s
    → first
        (is_command_row tenant s.workflow_command_intent_id)
        (meanwhile
          (claim_command_intent tenant config.claimed_by now
            (after now config.claim_lease)
            locked
            d).0).commands
      ≡ some s
    → CommandSettled config tenant finished s
        (deliver_review_decision s.temporal_workflow_id s.payload)
        (meanwhile
          (claim_command_intent tenant config.claimed_by now
            (after now config.claim_lease)
            locked
            d).0)
        (dispatch_command config deliver_review_decision meanwhile tenant now finished locked d)
unfolding dispatch_command after_command_claim claim_command_intent
dispatch_command-CommandSettled config deliver_review_decision meanwhile tenant now finished locked
      d s c g =
    let held =
      claim_selected_command-held tenant config.claimed_by (after now config.claim_lease) _ d s c in
    let after_claim =
      meanwhile
        (claim_command_intent tenant config.claimed_by now (after now config.claim_lease) locked
          d).0 in
    let result = deliver_review_decision s.temporal_workflow_id s.payload in
    subst
      (λ o. CommandSettled config tenant finished s result after_claim (
        after_command_claim config deliver_review_decision meanwhile tenant finished (
          (claim_command_intent tenant config.claimed_by now (after now config.claim_lease) locked
              d).0,
          o,
        )))
      (sym c)
      (finalize_command-CommandSettled config tenant s result finished after_claim g held.0 held.1)
