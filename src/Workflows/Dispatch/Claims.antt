-- ===== src/Workflows/Dispatch/Claims.antt =====
-- The claims and the finalizations keep the order of starts and commands.
use eduvijna_aieos_backend.Prelude.{
  ℕ, ◌≡◌, ◌≢◌, refl, sym, ap, ◌∙◌, Bool, true, some, List, In, Option-cases, inl, inr, ==_iff,
}
use eduvijna_aieos_backend.Python.Text.{Text}
use eduvijna_aieos_backend.Python.Scalars.{Uuid, Datetime}
use eduvijna_aieos_backend.Workflows.Intents.{
  IntentStatus, pending, claimed, delivered, quarantined, WorkflowStartIntent,
  WorkflowCommandIntent,
}
use eduvijna_aieos_backend.Workflows.Tables.{select_first, update_rows}
use eduvijna_aieos_backend.Workflows.Tables.Keys.{select_first-In, any_row-In, same_row}
use eduvijna_aieos_backend.Workflows.Dispatch.{
  Intents, start_key, command_key, start_available, command_available, is_claimed, is_start_row,
  is_start_candidate, with_start_claim, claim_selected_start, claim_start_intent, is_start_fenced,
  starts_workflow, is_command_row, is_command_candidate, with_command_claim, claim_selected_command,
  claim_command_intent, is_command_fenced,
}
use eduvijna_aieos_backend.Workflows.Dispatch.Order.{
  Follows, IsOrdered, IsStarted, and-both, claimed_is_not_delivered, due_is_not_delivered,
  is_delivered-delivered, update_commands-IsOrdered, update_starts-IsOrdered,
}

pub claim_selected_start-IsOrdered :
    (tenant : Uuid) (worker : Text) (now lease : Datetime) (locked : Uuid → Bool) (d : Intents)
    (row : WorkflowStartIntent)
    → In row d.starts
    → is_start_candidate tenant now locked row ≡ true
    → IsOrdered d
    → IsOrdered (claim_selected_start tenant worker lease (some row) d).0
claim_selected_start-IsOrdered tenant worker now lease locked d row i p h =
    let due = and-both _ _ (and-both _ _ p).0 in
    update_starts-IsOrdered (is_start_row tenant (start_key row)) (with_start_claim worker lease) d
      (λ s. refl)
      (λ s j t e. due_is_not_delivered row.status row.available_at row.claimed_until now due.1 (
        ap (λ (x : WorkflowStartIntent). x.status)
          (sym (
            same_row start_key s row d.starts h.start_keys j i
              ((==_iff (start_key s) (start_key row)).0 (and-both _ _ t).1)))
        ∙ e))
      h

pub claim_start-IsOrdered :
    (tenant : Uuid) (worker : Text) (now lease : Datetime) (locked : Uuid → Bool) (d : Intents)
    → IsOrdered d
    → IsOrdered (claim_start_intent tenant worker now lease locked d).0
unfolding claim_start_intent
claim_start-IsOrdered tenant worker now lease locked d h =
    elim (Option-cases
      (select_first start_available (is_start_candidate tenant now locked) d.starts)) [
        | inl e ↦ rw e h
        | inr (row, e) ↦
            let found =
              select_first-In start_available (is_start_candidate tenant now locked) d.starts row
                e in
            rw e (
              claim_selected_start-IsOrdered tenant worker now lease locked d row found.0 found.1 h)
      ]

-- A command of which the workflow is started stays so.
pub IsStarted-of :
    (starts : List WorkflowStartIntent) (c e : WorkflowCommandIntent)
    → c.tenant_id ≡ e.tenant_id
    → c.workflow_instance_id ≡ e.workflow_instance_id
    → IsStarted starts c
    → IsStarted starts e
IsStarted-of starts c e p q t = record {
  start = t.start;
  stored = t.stored;
  same_tenant = t.same_tenant ∙ p;
  same_instance = t.same_instance ∙ q;
  start_delivered = t.start_delivered;
}

-- A candidate for a claim has a start that is delivered.
pub candidate-IsStarted :
    (tenant : Uuid) (now : Datetime) (locked : Uuid → Bool) (starts : List WorkflowStartIntent)
    (c : WorkflowCommandIntent)
    → is_command_candidate tenant now locked starts c ≡ true
    → IsStarted starts c
unfolding is_command_candidate
candidate-IsStarted tenant now locked starts c p =
    let joined = and-both _ _ (and-both _ _ (and-both _ _ p).0).0 in
    let found = any_row-In (starts_workflow tenant c) starts joined.1 in
    let both = and-both _ _ found.1.1 in
    let same = and-both _ _ both.0 in
    record {
      start = found.0;
      stored = found.1.0;
      same_tenant =
          (==_iff found.0.tenant_id tenant).0 same.0 ∙ sym ((==_iff c.tenant_id tenant).0 joined.0);
      same_instance = (==_iff found.0.workflow_instance_id c.workflow_instance_id).0 same.1;
      start_delivered = is_delivered-delivered found.0.status both.1;
    }

pub claim_selected_command-IsOrdered :
    (tenant : Uuid) (worker : Text) (now lease : Datetime) (locked : Uuid → Bool) (d : Intents)
    (row : WorkflowCommandIntent)
    → In row d.commands
    → is_command_candidate tenant now locked d.starts row ≡ true
    → IsOrdered d
    → IsOrdered (claim_selected_command tenant worker lease (some row) d).0
claim_selected_command-IsOrdered tenant worker now lease locked d row i p h =
    let started = candidate-IsStarted tenant now locked d.starts row p in
    update_commands-IsOrdered (is_command_row tenant (command_key row))
      (with_command_claim worker lease) d (λ c. refl)
      (λ c j t f.
        let e =
          same_row command_key row c d.commands h.command_keys i j
            (sym ((==_iff (command_key c) (command_key row)).0 (and-both _ _ t).1)) in
        inr (
          IsStarted-of d.starts row (with_command_claim worker lease c)
            (ap (λ (x : WorkflowCommandIntent). x.tenant_id) e)
            (ap (λ (x : WorkflowCommandIntent). x.workflow_instance_id) e) started))
      h

pub claim_command-IsOrdered :
    (tenant : Uuid) (worker : Text) (now lease : Datetime) (locked : Uuid → Bool) (d : Intents)
    → IsOrdered d
    → IsOrdered (claim_command_intent tenant worker now lease locked d).0
unfolding claim_command_intent
claim_command-IsOrdered tenant worker now lease locked d h =
    elim (Option-cases (
      select_first command_available (is_command_candidate tenant now locked d.starts)
        d.commands)) [
          | inl e ↦ rw e h
          | inr (row, e) ↦
              let found =
                select_first-In command_available (is_command_candidate tenant now locked d.starts)
                  d.commands row e in
              rw e (
                claim_selected_command-IsOrdered tenant worker now lease locked d row found.0
                  found.1 h)
        ]

pub claimed_is_not_pending : (s : IntentStatus) → is_claimed s ≡ true → s ≢ pending
claimed_is_not_pending pending h e = cc
claimed_is_not_pending claimed h e = cc
claimed_is_not_pending delivered h e = cc
claimed_is_not_pending quarantined h e = cc

-- The fence of a finalization asks for a claim.
pub fenced_start_is_claimed :
    (tenant intent : Uuid) (worker : Text) (attempt : ℕ) (s : WorkflowStartIntent)
    → is_start_fenced tenant intent worker attempt s ≡ true
    → is_claimed s.status ≡ true
fenced_start_is_claimed tenant intent worker attempt s h =
    (and-both _ _ (and-both _ _ (and-both _ _ h).0).0).1

pub finalize_start-IsOrdered :
    (tenant intent : Uuid) (worker : Text) (attempt : ℕ)
    (change : WorkflowStartIntent → WorkflowStartIntent) (d : Intents)
    → ((s : WorkflowStartIntent) → start_key (change s) ≡ start_key s)
    → IsOrdered d
    → IsOrdered (record d {
      starts = update_rows (is_start_fenced tenant intent worker attempt) change d.starts;
    })
finalize_start-IsOrdered tenant intent worker attempt change d keeps h =
    update_starts-IsOrdered (is_start_fenced tenant intent worker attempt) change d keeps
      (λ s i t.
        claimed_is_not_delivered s.status
          (fenced_start_is_claimed tenant intent worker attempt s t))
      h

-- A command that is claimed is started.
pub fenced-IsStarted :
    (tenant intent : Uuid) (worker : Text) (attempt : ℕ) (starts : List WorkflowStartIntent)
    (c : WorkflowCommandIntent)
    → is_command_fenced tenant intent worker attempt c ≡ true
    → Follows starts c
    → IsStarted starts c
fenced-IsStarted tenant intent worker attempt starts c t (inl u) =
    absurd
      (claimed_is_not_pending c.status (and-both _ _ (and-both _ _ (and-both _ _ t).0).0).1 u.0)
fenced-IsStarted tenant intent worker attempt starts c t (inr f) = f

pub finalize_command-IsOrdered :
    (tenant intent : Uuid) (worker : Text) (attempt : ℕ)
    (change : WorkflowCommandIntent → WorkflowCommandIntent) (d : Intents)
    → ((c : WorkflowCommandIntent) → command_key (change c) ≡ command_key c)
    → ((c : WorkflowCommandIntent) → c.tenant_id ≡ (change c).tenant_id)
    → ((c : WorkflowCommandIntent) → c.workflow_instance_id ≡ (change c).workflow_instance_id)
    → IsOrdered d
    → IsOrdered (record d {
      commands = update_rows (is_command_fenced tenant intent worker attempt) change d.commands;
    })
finalize_command-IsOrdered tenant intent worker attempt change d keeps tenants instances h =
    update_commands-IsOrdered (is_command_fenced tenant intent worker attempt) change d keeps
      (λ c i t f. inr (
        IsStarted-of d.starts c (change c) (tenants c) (instances c)
          (fenced-IsStarted tenant intent worker attempt d.starts c t f)))
      h
