-- ===== src/Workflows/Dispatch/Delivery.antt =====
-- What one dispatch of a start does when the workflow engine accepts it.
use mathlib.Core.Path.{subst}
use mathlib.Core.Option.{some-injective}
use eduvijna_aieos_backend.Prelude.{
  ℕ, ◌+◌, ◌≤◌, ◌≡◌, refl, sym, ap, ◌∙◌, Bool, true, false, not, Option, none, some, List, leb, In,
  first, ==_iff, arith, if◌then◌else◌,
}
use eduvijna_aieos_backend.Python.Text.{Text}
use eduvijna_aieos_backend.Python.Scalars.{Uuid, Datetime}
use eduvijna_aieos_backend.Content.Json.{Value}
use eduvijna_aieos_backend.Events.Dispatcher.{after}
use eduvijna_aieos_backend.Workflows.Intents.{
  IntentStatus, pending, claimed, delivered, quarantined, WorkflowStartIntent,
}
use eduvijna_aieos_backend.Workflows.Tables.Keys.{select_first-In, HaveKeys, same_row}
use eduvijna_aieos_backend.Workflows.Tables.Lookup.{
  first-update_rows, first_of_In, select_first-least,
}
use eduvijna_aieos_backend.Workflows.Dispatch.{
  Intents, is_due, start_key, start_available, is_start_row, is_start_candidate, with_start_claim,
  claim_selected_start, claim_start_intent,
}
use eduvijna_aieos_backend.Workflows.Dispatch.Order.{and-both}
use eduvijna_aieos_backend.Workflows.Dispatch.Gateway.{
  DispatcherConfig, DeliveryResult, dispatch_start,
}
use eduvijna_aieos_backend.Workflows.Dispatch.Settled.{is_same, settled_status, settled_error}
use eduvijna_aieos_backend.Workflows.Dispatch.Settled.Starts.{dispatch_start-StartSettled}

-- An intent is due: it is pending and available, or the lease of its claim has ended.
abbrev pub DueAt : IntentStatus → Datetime → Option Datetime → Datetime → Type 0
DueAt pending available until now = available.instant ≤ now.instant
DueAt claimed available (some until) now = until.instant ≤ now.instant
DueAt claimed available none now = ⊥
DueAt delivered available until now = ⊥
DueAt quarantined available until now = ⊥

-- A start of the tenant that is due, and that no other transaction has locked.
pub record IsFree (tenant : Uuid) (now : Datetime) (locked : Uuid → Bool) (s : WorkflowStartIntent)
    : Type 0 where
  pub same_tenant : s.tenant_id ≡ tenant
  pub due : DueAt s.status s.available_at s.claimed_until now
  pub unlocked : locked s.workflow_start_intent_id ≡ false

leb-of_le : (m n : ℕ) → m ≤ n → leb m n ≡ true
leb-of_le m n h = ground arith

le_of_leb : (m n : ℕ) → leb m n ≡ true → m ≤ n
le_of_leb m n h = ground arith

is_due-of_DueAt :
    (s : IntentStatus) (available : Datetime) (until : Option Datetime) (now : Datetime)
    → DueAt s available until now
    → is_due s available until now ≡ true
is_due-of_DueAt pending available until now h = leb-of_le _ _ h
is_due-of_DueAt claimed available (some until) now h = leb-of_le _ _ h
is_due-of_DueAt claimed available none now h = absurd h
is_due-of_DueAt delivered available until now h = absurd h
is_due-of_DueAt quarantined available until now h = absurd h

is_due-DueAt :
    (s : IntentStatus) (available : Datetime) (until : Option Datetime) (now : Datetime)
    → is_due s available until now ≡ true
    → DueAt s available until now
is_due-DueAt pending available until now h = le_of_leb _ _ h
is_due-DueAt claimed available (some until) now h = le_of_leb _ _ h
is_due-DueAt claimed available none now h = cc
is_due-DueAt delivered available until now h = cc
is_due-DueAt quarantined available until now h = cc

not-false : (b : Bool) → not b ≡ true → b ≡ false
not-false b h = ground arith

candidate-of_IsFree :
    (tenant : Uuid) (now : Datetime) (locked : Uuid → Bool) (s : WorkflowStartIntent)
    → IsFree tenant now locked s
    → is_start_candidate tenant now locked s ≡ true
candidate-of_IsFree tenant now locked s f = simp (
  (==_iff s.tenant_id tenant).1 f.same_tenant,
  is_due-of_DueAt s.status s.available_at s.claimed_until now f.due,
  f.unlocked,
)

candidate-IsFree :
    (tenant : Uuid) (now : Datetime) (locked : Uuid → Bool) (s : WorkflowStartIntent)
    → is_start_candidate tenant now locked s ≡ true
    → IsFree tenant now locked s
candidate-IsFree tenant now locked s h =
    let parts = and-both _ _ h in
    let due = and-both _ _ parts.0 in
    record {
      same_tenant = (==_iff s.tenant_id tenant).0 due.0;
      due = is_due-DueAt s.status s.available_at s.claimed_until now due.1;
      unlocked = not-false (locked s.workflow_start_intent_id) parts.1;
    }

-- The start that was chosen, and the row and the result that its dispatch leaves.
pub record Delivers (tenant : Uuid) (now finished : Datetime) (locked : Uuid → Bool)
    (starts : List WorkflowStartIntent) (out : Intents × Bool) : Type 0 where
  pub start : WorkflowStartIntent
  pub stored : In start starts
  pub free : IsFree tenant now locked start
  pub earliest :
      (s : WorkflowStartIntent)
      → In s starts
      → IsFree tenant now locked s
      → start.available_at.instant ≤ s.available_at.instant
  pub returned : out.1 ≡ true
  pub row : WorkflowStartIntent
  pub found : first (is_start_row tenant start.workflow_start_intent_id) out.0.starts ≡ some row
  pub status : row.status ≡ delivered
  pub delivered_at : row.delivered_at ≡ some finished
  pub claimed_by : row.claimed_by ≡ none
  pub claimed_until : row.claimed_until ≡ none
  pub last_error_code : row.last_error_code ≡ none
  pub attempt_count : row.attempt_count ≡ start.attempt_count + 1

-- The claim of a row that is the only one of its identity stores it and finds it.
claimed_row_found :
    (tenant : Uuid) (worker : Text) (lease : Datetime) (d : Intents) (s : WorkflowStartIntent)
    → HaveKeys start_key d.starts
    → In s d.starts
    → s.tenant_id ≡ tenant
    → first
        (is_start_row tenant s.workflow_start_intent_id)
        (claim_selected_start tenant worker lease (some s) d).0.starts
      ≡ some (with_start_claim worker lease s)
claimed_row_found tenant worker lease d s k i t =
    let key = is_start_row tenant s.workflow_start_intent_id in
    let mine : key s ≡ true =
      simp ((==_iff s.tenant_id tenant).1 t, is_same s.workflow_start_intent_id) in
    (first-update_rows key key (with_start_claim worker lease) d.starts s (λ r. refl) mine
      (first_of_In key d.starts s mine i (λ r j h.
        same_row start_key r s d.starts k j i
          ((==_iff r.workflow_start_intent_id s.workflow_start_intent_id).0 (and-both _ _ h).1)))).0

module _ (config : DispatcherConfig)
    (start_content_review : (temporal_workflow_id task_queue : Text) → Value → DeliveryResult)
    (accepts : (w q : Text) (input : Value)
      → (start_content_review w q input).delivered ≡ true) where
  -- When no two starts have one identity, a start of the tenant is due and not locked, the workflow
  -- engine accepts every start, and no other worker changes the tables meanwhile, then one dispatch
  -- returns true, and the earliest start of the tenant that was due and not locked is stored as
  -- delivered at the end of the dispatch, without claim and error, and with one attempt more.
  pub dispatch_start-Delivers :
      (tenant : Uuid) (now finished : Datetime) (locked : Uuid → Bool) (d : Intents)
      (s : WorkflowStartIntent)
      → HaveKeys start_key d.starts
      → In s d.starts
      → IsFree tenant now locked s
      → Delivers tenant now finished locked d.starts
          (dispatch_start config start_content_review (λ e. e) tenant now finished locked d)
  unfolding claim_start_intent
  dispatch_start-Delivers tenant now finished locked d s k i f =
      let test = is_start_candidate tenant now locked in
      let lease = after now config.claim_lease in
      let chosen =
        select_first-least start_available test d.starts s
          (candidate-of_IsFree tenant now locked s f) i in
      let start = chosen.0 in
      let inside = select_first-In start_available test d.starts start chosen.1 in
      let free = candidate-IsFree tenant now locked start inside.1 in
      let held = with_start_claim config.claimed_by lease start in
      let claim : Option WorkflowStartIntent → Intents × Option WorkflowStartIntent =
        λ o. claim_selected_start tenant config.claimed_by lease o d in
      let done =
        dispatch_start-StartSettled config start_content_review (λ e. e) tenant now finished locked
          d held (ap (λ o. (claim o).1) chosen.1)
          (ap (λ o. first (is_start_row tenant start.workflow_start_intent_id) (claim o).0.starts)
              chosen.1
            ∙ claimed_row_found tenant config.claimed_by lease d start k inside.0
                free.same_tenant) in
      let result = start_content_review start.temporal_workflow_id start.task_queue start.input in
      let accepted = accepts start.temporal_workflow_id start.task_queue start.input in
      let exhausted = leb config.max_attempts held.attempt_count in
      record {
        start = start;
        stored = inside.0;
        free = free;
        earliest = λ r j g.
            let other =
              select_first-least start_available test d.starts r
                (candidate-of_IsFree tenant now locked r g) j in
            subst (λ x. start_available x ≤ start_available r)
              (some-injective _ _ (sym other.1 ∙ chosen.1)) other.2;
        returned = done.returned ∙ accepted;
        row = done.row;
        found = done.found;
        status =
            done.settled.status ∙ ap (λ b. settled_status b result.permanent exhausted) accepted;
        delivered_at =
            done.settled.delivered_at
            ∙ ap (λ b. if b then some finished else held.delivered_at) accepted;
        claimed_by = done.settled.claimed_by;
        claimed_until = done.settled.claimed_until;
        last_error_code =
            done.settled.last_error_code
            ∙ ap (λ b. settled_error b result.permanent exhausted result.error_code) accepted;
        attempt_count = done.settled.attempt_count;
      }
