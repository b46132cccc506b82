-- ===== src/Workflows/Dispatch.antt =====
-- The dispatcher repository of persistence/repositories.py: claims and finalizations of the two tables
-- of intents. Which rows other transactions have locked is an argument, and so is the tenant, whose
-- rows alone the row-level policies of the database show.
pub mod Gateway
pub mod Order
pub mod Claims
pub mod History
pub mod Settled
pub mod Delivery
use eduvijna_aieos_backend.Prelude.{
  ℕ, ◌+◌, Bool, true, false, not, ◌&&◌, Option, none, some, List, [], ◌∷◌, leb, ◌==◌, if◌then◌else◌,
}
use eduvijna_aieos_backend.Python.Text.{Text, text_eq}
use eduvijna_aieos_backend.Python.Scalars.{Uuid, Datetime}
use eduvijna_aieos_backend.Workflows.Intents.{
  IntentStatus, pending, claimed, delivered, quarantined, WorkflowStartIntent,
  WorkflowCommandIntent,
}
use eduvijna_aieos_backend.Workflows.Tables.{select_first, update_rows, any_row}

-- The two tables.
pub record Intents : Type 0 where
  pub starts : List WorkflowStartIntent
  pub commands : List WorkflowCommandIntent

abbrev pub is_claimed : IntentStatus → Bool
is_claimed claimed = true
is_claimed _ = false

abbrev pub is_delivered : IntentStatus → Bool
is_delivered delivered = true
is_delivered _ = false

-- The two alternatives of the `where` of a claim; a comparison with NULL is not true.
abbrev pub is_due : IntentStatus → Datetime → Option Datetime → Datetime → Bool
is_due pending available until now = leb available.instant now.instant
is_due claimed available (some until) now = leb until.instant now.instant
is_due _ _ _ _ = false

abbrev is_same_text : Option Text → Text → Bool
is_same_text none t = false
is_same_text (some s) t = text_eq s t

abbrev start_key : WorkflowStartIntent → Uuid
start_key s = s.workflow_start_intent_id

abbrev command_key : WorkflowCommandIntent → Uuid
command_key c = c.workflow_command_intent_id

abbrev pub start_available : WorkflowStartIntent → ℕ
start_available s = s.available_at.instant

abbrev pub command_available : WorkflowCommandIntent → ℕ
command_available c = c.available_at.instant

-- Start intents.
abbrev pub is_start_row : (tenant_id intent_id : Uuid) → WorkflowStartIntent → Bool
is_start_row tenant intent s = s.tenant_id == tenant && start_key s == intent

abbrev pub is_start_candidate : Uuid → Datetime → (Uuid → Bool) → WorkflowStartIntent → Bool
is_start_candidate tenant now locked s =
    s.tenant_id == tenant
    && is_due s.status s.available_at s.claimed_until now
    && not (locked (start_key s))

abbrev pub with_start_claim : Text → Datetime → WorkflowStartIntent → WorkflowStartIntent
with_start_claim claimed_by claim_until s = record s {
  status = claimed;
  claimed_by = some claimed_by;
  claimed_until = some claim_until;
  attempt_count = s.attempt_count + 1;
}

abbrev pub claim_selected_start :
    Uuid
    → Text
    → Datetime
    → Option WorkflowStartIntent
    → Intents
    → Intents × Option WorkflowStartIntent
claim_selected_start tenant claimed_by claim_until none d = (d, none)
claim_selected_start tenant claimed_by claim_until (some s) d = (
  record d {
    starts =
        update_rows (is_start_row tenant (start_key s)) (with_start_claim claimed_by claim_until)
          d.starts;
  },
  some (with_start_claim claimed_by claim_until s),
)

unfoldable pub claim_start_intent :
    (tenant_id : Uuid) (claimed_by : Text) (now claim_until : Datetime) (locked : Uuid → Bool)
    → Intents
    → Intents × Option WorkflowStartIntent
unfolding select_first update_rows
claim_start_intent tenant claimed_by now claim_until locked d =
    claim_selected_start tenant claimed_by claim_until
      (select_first start_available (is_start_candidate tenant now locked) d.starts) d

abbrev pub is_start_fenced : Uuid → Uuid → Text → ℕ → WorkflowStartIntent → Bool
is_start_fenced tenant intent claimed_by attempt_count s =
    is_start_row tenant intent s
    && is_claimed s.status
    && is_same_text s.claimed_by claimed_by
    && s.attempt_count == attempt_count

abbrev pub with_start_delivery : Datetime → WorkflowStartIntent → WorkflowStartIntent
with_start_delivery delivered_at s = record s {
  status = delivered;
  delivered_at = some delivered_at;
  claimed_by = none;
  claimed_until = none;
  last_error_code = none;
}

unfoldable pub mark_start_delivered :
    (tenant_id intent_id : Uuid) (claimed_by : Text) (attempt_count : ℕ) (delivered_at : Datetime)
    → Intents
    → Intents × Bool
unfolding update_rows any_row
mark_start_delivered tenant intent claimed_by attempt_count delivered_at d =
    let test = is_start_fenced tenant intent claimed_by attempt_count in
    (
      record d { starts = update_rows test (with_start_delivery delivered_at) d.starts },
      any_row test d.starts,
    )

abbrev pub with_start_release : Datetime → Text → Bool → WorkflowStartIntent → WorkflowStartIntent
with_start_release available_at error_code quarantine s = record s {
  status = if quarantine then quarantined else pending;
  available_at = available_at;
  claimed_by = none;
  claimed_until = none;
  last_error_code = some error_code;
}

unfoldable pub release_start_for_retry :
    (tenant_id intent_id : Uuid) (claimed_by : Text) (attempt_count : ℕ) (available_at : Datetime)
    (error_code : Text) (quarantine : Bool)
    → Intents
    → Intents × Bool
unfolding update_rows any_row
release_start_for_retry tenant intent claimed_by attempt_count available_at error_code quarantine
      d =
    let test = is_start_fenced tenant intent claimed_by attempt_count in
    (
      record d {
        starts = update_rows test (with_start_release available_at error_code quarantine) d.starts;
      },
      any_row test d.starts,
    )

-- Command intents. The start of its workflow, which the join finds, is delivered.
abbrev pub starts_workflow : Uuid → WorkflowCommandIntent → WorkflowStartIntent → Bool
starts_workflow tenant c s =
    s.tenant_id == tenant
    && s.workflow_instance_id == c.workflow_instance_id
    && is_delivered s.status

abbrev pub is_command_row : (tenant_id intent_id : Uuid) → WorkflowCommandIntent → Bool
is_command_row tenant intent c = c.tenant_id == tenant && command_key c == intent

unfoldable pub is_command_candidate :
    Uuid → Datetime → (Uuid → Bool) → List WorkflowStartIntent → WorkflowCommandIntent → Bool
unfolding any_row
is_command_candidate tenant now locked starts c =
    c.tenant_id == tenant
    && any_row (starts_workflow tenant c) starts
    && is_due c.status c.available_at c.claimed_until now
    && not (locked (command_key c))

abbrev pub with_command_claim : Text → Datetime → WorkflowCommandIntent → WorkflowCommandIntent
with_command_claim claimed_by claim_until c = record c {
  status = claimed;
  claimed_by = some claimed_by;
  claimed_until = some claim_until;
  attempt_count = c.attempt_count + 1;
}

abbrev pub claim_selected_command :
    Uuid
    → Text
    → Datetime
    → Option WorkflowCommandIntent
    → Intents
    → Intents × Option WorkflowCommandIntent
claim_selected_command tenant claimed_by claim_until none d = (d, none)
claim_selected_command tenant claimed_by claim_until (some c) d = (
  record d {
    commands =
        update_rows (is_command_row tenant (command_key c))
          (with_command_claim claimed_by claim_until) d.commands;
  },
  some (with_command_claim claimed_by claim_until c),
)

unfoldable pub claim_command_intent :
    (tenant_id : Uuid) (claimed_by : Text) (now claim_until : Datetime) (locked : Uuid → Bool)
    → Intents
    → Intents × Option WorkflowCommandIntent
unfolding select_first update_rows is_command_candidate
claim_command_intent tenant claimed_by now claim_until locked d =
    claim_selected_command tenant claimed_by claim_until
      (select_first command_available (is_command_candidate tenant now locked d.starts) d.commands)
      d

abbrev pub is_command_fenced : Uuid → Uuid → Text → ℕ → WorkflowCommandIntent → Bool
is_command_fenced tenant intent claimed_by attempt_count c =
    is_command_row tenant intent c
    && is_claimed c.status
    && is_same_text c.claimed_by claimed_by
    && c.attempt_count == attempt_count

abbrev pub with_command_delivery : Datetime → WorkflowCommandIntent → WorkflowCommandIntent
with_command_delivery delivered_at c = record c {
  status = delivered;
  delivered_at = some delivered_at;
  claimed_by = none;
  claimed_until = none;
  last_error_code = none;
}

unfoldable pub mark_command_delivered :
    (tenant_id intent_id : Uuid) (claimed_by : Text) (attempt_count : ℕ) (delivered_at : Datetime)
    → Intents
    → Intents × Bool
unfolding update_rows any_row
mark_command_delivered tenant intent claimed_by attempt_count delivered_at d =
    let test = is_command_fenced tenant intent claimed_by attempt_count in
    (
      record d { commands = update_rows test (with_command_delivery delivered_at) d.commands },
      any_row test d.commands,
    )

abbrev pub with_command_release :
    Datetime → Text → Bool → WorkflowCommandIntent → WorkflowCommandIntent
with_command_release available_at error_code quarantine c = record c {
  status = if quarantine then quarantined else pending;
  available_at = available_at;
  claimed_by = none;
  claimed_until = none;
  last_error_code = some error_code;
}

unfoldable pub release_command_for_retry :
    (tenant_id intent_id : Uuid) (claimed_by : Text) (attempt_count : ℕ) (available_at : Datetime)
    (error_code : Text) (quarantine : Bool)
    → Intents
    → Intents × Bool
unfolding update_rows any_row
release_command_for_retry tenant intent claimed_by attempt_count available_at error_code quarantine
      d =
    let test = is_command_fenced tenant intent claimed_by attempt_count in
    (
      record d {
        commands =
            update_rows test (with_command_release available_at error_code quarantine) d.commands;
      },
      any_row test d.commands,
    )
