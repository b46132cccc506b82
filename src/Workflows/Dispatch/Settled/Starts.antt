-- ===== src/Workflows/Dispatch/Settled/Starts.antt =====
-- The dispatch of a start.
use mathlib.Core.Path.{subst}
use mathlib.Core.Option.{some-injective, none-ne-some}
use eduvijna_aieos_backend.Prelude.{
  ℕ, ◌≡◌, ◌≢◌, refl, sym, ap, ◌∙◌, Bool, true, false, Option, none, some, List, ==_iff, first,
  first-In, Bool-cases, inl, inr,
}
use eduvijna_aieos_backend.Python.Text.{Text, text_eq_refl}
use eduvijna_aieos_backend.Python.Scalars.{Uuid, Datetime}
use eduvijna_aieos_backend.Content.Json.{Value}
use eduvijna_aieos_backend.Events.Dispatcher.{or_default, after}
use eduvijna_aieos_backend.Workflows.Intents.{claimed, WorkflowStartIntent}
use eduvijna_aieos_backend.Workflows.Tables.Lookup.{first-update_rows, first-untouched}
use eduvijna_aieos_backend.Workflows.Dispatch.{
  Intents, is_start_row, with_start_claim, claim_selected_start, claim_start_intent,
  is_start_fenced, with_start_delivery, mark_start_delivered, with_start_release,
  release_start_for_retry,
}
use eduvijna_aieos_backend.Workflows.Dispatch.Order.{and-both}
use eduvijna_aieos_backend.Workflows.Dispatch.Gateway.{
  DispatcherConfig, DeliveryResult, error_code_of, quarantines, finalize_start, after_start_claim,
  dispatch_start,
}
use eduvijna_aieos_backend.Workflows.Dispatch.Settled.{
  AreSettled, start_columns, refused_status, refused_error, or_default_same, is_same,
}

-- What a dispatch of a start that was claimed as `s` leaves and returns: the row that is found by the
-- identity is settled and is of the same workflow, the rows of all other identities and all commands
-- are those of `now`, and the result is the answer of the engine.
pub record StartSettled (config : DispatcherConfig) (tenant : Uuid) (finished : Datetime)
    (s : WorkflowStartIntent) (result : DeliveryResult) (now : Intents) (out : Intents × Bool)
    : Type 0 where
  pub row : WorkflowStartIntent
  pub found : first (is_start_row tenant s.workflow_start_intent_id) out.0.starts ≡ some row
  pub instance_kept : row.workflow_instance_id ≡ s.workflow_instance_id
  pub settled : AreSettled config finished result (start_columns s) (start_columns row)
  pub others :
      (intent : Uuid)
      → intent ≢ s.workflow_start_intent_id
      → first (is_start_row tenant intent) out.0.starts
        ≡ first (is_start_row tenant intent) now.starts
  pub commands : out.0.commands ≡ now.commands
  pub returned : out.1 ≡ result.delivered

-- A fence holds of the row that it is about, while the claim is that of the worker.
start_fence :
    (config : DispatcherConfig) (tenant : Uuid) (s : WorkflowStartIntent)
    (rows : List WorkflowStartIntent)
    → first (is_start_row tenant s.workflow_start_intent_id) rows ≡ some s
    → s.status ≡ claimed
    → s.claimed_by ≡ some config.claimed_by
    → is_start_fenced tenant s.workflow_start_intent_id
        (or_default s.claimed_by config.claimed_by)
        s.attempt_count
        s
      ≡ true
start_fence config tenant s rows g h b =
    rw (b, or_default_same config.claimed_by)
      (simp (
        (first-In (is_start_row tenant s.workflow_start_intent_id) rows s g).1,
        h,
        text_eq_refl config.claimed_by,
        is_same s.attempt_count,
      ))

other_start :
    (tenant intent other : Uuid) (worker : Text) (attempt : ℕ) (s : WorkflowStartIntent)
    → other ≢ intent
    → is_start_row tenant other s ≡ true
    → is_start_fenced tenant intent worker attempt s ≡ false
other_start tenant intent other worker attempt s ne h =
    elim (Bool-cases (is_start_fenced tenant intent worker attempt s)) [
      | inr e ↦ e
      | inl e ↦
          let row = (and-both _ _ (and-both _ _ (and-both _ _ e).0).0).0 in
          absurd (
            ne (
              sym ((==_iff s.workflow_start_intent_id other).0 (and-both _ _ h).1)
              ∙ (==_iff s.workflow_start_intent_id intent).0 (and-both _ _ row).1))
    ]

finalize_start-StartSettled :
    (config : DispatcherConfig) (tenant : Uuid) (s : WorkflowStartIntent) (result : DeliveryResult)
    (finished : Datetime) (d : Intents)
    → first (is_start_row tenant s.workflow_start_intent_id) d.starts ≡ some s
    → s.status ≡ claimed
    → s.claimed_by ≡ some config.claimed_by
    → StartSettled config tenant finished s result d
        (finalize_start config tenant s result finished d)
unfolding finalize_start mark_start_delivered release_start_for_retry
finalize_start-StartSettled config tenant s result finished d g h b =
    let fence = start_fence config tenant s d.starts g h b in
    elim (Bool-cases result.delivered) [
      | inl e ↦
          let after_mark =
            first-update_rows (is_start_row tenant s.workflow_start_intent_id) _
              (with_start_delivery finished) d.starts s (λ r. refl) fence g in
          rw e (record {
            row = with_start_delivery finished s;
            found = after_mark.0;
            instance_kept = refl;
            settled = record {
              status = refl;
              attempt_count = refl;
              claimed_by = refl;
              claimed_until = refl;
              delivered_at = refl;
              available_at = refl;
              last_error_code = refl;
            };
            others = λ intent ne.
                first-untouched (is_start_row tenant intent) _ _ d.starts (λ r. refl)
                  (λ r k. other_start tenant s.workflow_start_intent_id intent _ _ r ne k);
            commands = refl;
            returned = after_mark.1;
          })
      | inr e ↦
          let change =
            with_start_release (after finished config.retry_delay)
              (error_code_of config s.attempt_count result)
              (quarantines config s.attempt_count result) in
          let after_release =
            first-update_rows (is_start_row tenant s.workflow_start_intent_id) _ change d.starts s
              (λ r. refl) fence g in
          rw e (record {
            row = change s;
            found = after_release.0;
            instance_kept = refl;
            settled = record {
              status = refused_status result.permanent _;
              attempt_count = refl;
              claimed_by = refl;
              claimed_until = refl;
              delivered_at = refl;
              available_at = refl;
              last_error_code = refused_error result.permanent _ result.error_code;
            };
            others = λ intent ne.
                first-untouched (is_start_row tenant intent) _ _ d.starts (λ r. refl)
                  (λ r k. other_start tenant s.workflow_start_intent_id intent _ _ r ne k);
            commands = refl;
            returned = refl;
          })
    ]

-- A claim returns a row that is held by the worker.
claim_selected_start-held :
    (tenant : Uuid) (worker : Text) (lease : Datetime) (o : Option WorkflowStartIntent)
    (d : Intents) (s : WorkflowStartIntent)
    → (claim_selected_start tenant worker lease o d).1 ≡ some s
    → (s.status ≡ claimed) × (s.claimed_by ≡ some worker)
claim_selected_start-held tenant worker lease none d s h = absurd (none-ne-some s h)
claim_selected_start-held tenant worker lease (some row) d s h =
    let same : with_start_claim worker lease row ≡ s = some-injective _ _ h in
    (
      sym (ap (λ (x : WorkflowStartIntent). x.status) same),
      sym (ap (λ (x : WorkflowStartIntent). x.claimed_by) same),
    )

-- When the claim of a dispatch of a start took a row, and the table still holds that row unchanged under
-- its identity after the engine has answered, then the intent is delivered at that time if the engine
-- accepted it, otherwise quarantined if the refusal is permanent or the attempts are used up, and else
-- pending again after the delay. The claim is released, the error is that of the answer, no other
-- intent is changed but by what other workers do, and the dispatch returns whether the engine accepted.
pub dispatch_start-StartSettled :
    (config : DispatcherConfig)
    (start_content_review : (temporal_workflow_id task_queue : Text) → Value → DeliveryResult)
    (meanwhile : Intents → Intents) (tenant : Uuid) (now finished : Datetime) (locked : Uuid → Bool)
    (d : Intents) (s : WorkflowStartIntent)
    → (claim_start_intent tenant config.claimed_by now (after now config.claim_lease) locked d).1
      ≡ some s
    → first
        (is_start_row tenant s.workflow_start_intent_id)
        (meanwhile
          (claim_start_intent tenant config.claimed_by now
            (after now config.claim_lease)
            locked
            d).0).starts
      ≡ some s
    → StartSettled config tenant finished s
        (start_content_review s.temporal_workflow_id s.task_queue s.input)
        (meanwhile
          (claim_start_intent tenant config.claimed_by now
            (after now config.claim_lease)
            locked
            d).0)
        (dispatch_start config start_content_review meanwhile tenant now finished locked d)
unfolding dispatch_start after_start_claim claim_start_intent
dispatch_start-StartSettled config start_content_review meanwhile tenant now finished locked d s c
      g =
    let held =
      claim_selected_start-held tenant config.claimed_by (after now config.claim_lease) _ d s c in
    let after_claim =
      meanwhile
        (claim_start_intent tenant config.claimed_by now (after now config.claim_lease) locked
          d).0 in
    let result = start_content_review s.temporal_workflow_id s.task_queue s.input in
    subst
      (λ o. StartSettled config tenant finished s result after_claim (
        after_start_claim config start_content_review meanwhile tenant finished (
          (claim_start_intent tenant config.claimed_by now (after now config.claim_lease) locked
              d).0,
          o,
        )))
      (sym c)
      (finalize_start-StartSettled config tenant s result finished after_claim g held.0 held.1)
