-- ===== src/Workflows/Dispatch/Order.antt =====
-- The order of starts and commands, and what the updates of one table do to it.
use eduvijna_aieos_backend.Prelude.{
  ℕ, ◌≡◌, ◌≢◌, refl, Bool, true, false, not, ◌&&◌, Option, List, [], ◌∷◌, ◌==◌, ok, All, All-impl,
  In, inl, inr, ◌⊎◌, Ensures-guard, Ensures-ok, arith,
}
use eduvijna_aieos_backend.Python.Scalars.{Datetime}
use eduvijna_aieos_backend.Content.Vocabulary.{persistence_operation_failed}
use eduvijna_aieos_backend.Workflows.Intents.{
  IntentStatus, pending, claimed, delivered, quarantined, WorkflowStartIntent,
  WorkflowCommandIntent, insert_start_intent, insert_command_intent, has_start, has_command,
}
use eduvijna_aieos_backend.Workflows.Tables.{update_rows}
use eduvijna_aieos_backend.Workflows.Tables.Keys.{
  update_rows-All, update_rows-In, HaveKeys, update_rows-HaveKeys,
}
use eduvijna_aieos_backend.Workflows.Dispatch.{
  Intents, start_key, command_key, is_due, is_claimed, is_delivered,
}

-- The workflow of a command is started: its start is delivered, in the same tenant.
pub record IsStarted (starts : List WorkflowStartIntent) (c : WorkflowCommandIntent) : Type 0 where
  pub start : WorkflowStartIntent
  pub stored : In start starts
  pub same_tenant : start.tenant_id ≡ c.tenant_id
  pub same_instance : start.workflow_instance_id ≡ c.workflow_instance_id
  pub start_delivered : start.status ≡ delivered

-- A command that no worker has claimed yet.
abbrev pub IsUntouched : WorkflowCommandIntent → Type 0
IsUntouched c = (c.status ≡ pending) × (c.attempt_count ≡ 0)

abbrev pub Follows : List WorkflowStartIntent → WorkflowCommandIntent → Type 0
Follows starts c = IsUntouched c ⊎ IsStarted starts c

pub record IsOrdered (d : Intents) : Type 0 where
  pub start_keys : HaveKeys start_key d.starts
  pub command_keys : HaveKeys command_key d.commands
  pub follow : All (Follows d.starts) d.commands

pub due_is_not_delivered :
    (s : IntentStatus) (available : Datetime) (until : Option Datetime) (now : Datetime)
    → is_due s available until now ≡ true
    → s ≢ delivered
due_is_not_delivered pending available until now h e = cc
due_is_not_delivered claimed available until now h e = cc
due_is_not_delivered delivered available until now h e = cc
due_is_not_delivered quarantined available until now h e = cc

pub claimed_is_not_delivered : (s : IntentStatus) → is_claimed s ≡ true → s ≢ delivered
claimed_is_not_delivered pending h e = cc
claimed_is_not_delivered claimed h e = cc
claimed_is_not_delivered delivered h e = cc
claimed_is_not_delivered quarantined h e = cc

pub is_delivered-delivered : (s : IntentStatus) → is_delivered s ≡ true → s ≡ delivered
is_delivered-delivered delivered h = refl
is_delivered-delivered pending h = cc
is_delivered-delivered claimed h = cc
is_delivered-delivered quarantined h = cc

pub false_of_not_true : (b : Bool) → (b ≡ true → ⊥) → b ≡ false
false_of_not_true true h = absurd (h refl)
false_of_not_true false h = refl

-- An update of starts that leaves delivered ones alone keeps every command in order.
pub update_starts-IsOrdered :
    (test : WorkflowStartIntent → Bool) (change : WorkflowStartIntent → WorkflowStartIntent)
    (d : Intents)
    → ((s : WorkflowStartIntent) → start_key (change s) ≡ start_key s)
    → ((s : WorkflowStartIntent) → In s d.starts → test s ≡ true → s.status ≢ delivered)
    → IsOrdered d
    → IsOrdered (record d { starts = update_rows test change d.starts })
update_starts-IsOrdered test change d keeps spares h = record {
  start_keys = update_rows-HaveKeys start_key test change d.starts keeps h.start_keys;
  command_keys = h.command_keys;
  follow =
      All-impl (Follows d.starts) (Follows (update_rows test change d.starts)) d.commands
        (λ c f. elim f [
          | inl u ↦ inl u
          | inr t ↦ inr (record {
            start = t.start;
            stored =
                update_rows-In test change d.starts t.start
                  (false_of_not_true (test t.start)
                    (λ e. spares t.start t.stored e t.start_delivered))
                  t.stored;
            same_tenant = t.same_tenant;
            same_instance = t.same_instance;
            start_delivered = t.start_delivered;
          })
        ])
        h.follow;
}

-- An update of commands that leaves each of them in order does so with the tables.
pub update_commands-IsOrdered :
    (test : WorkflowCommandIntent → Bool) (change : WorkflowCommandIntent → WorkflowCommandIntent)
    (d : Intents)
    → ((c : WorkflowCommandIntent) → command_key (change c) ≡ command_key c)
    → ((c : WorkflowCommandIntent)
        → In c d.commands
        → test c ≡ true
        → Follows d.starts c
        → Follows d.starts (change c))
    → IsOrdered d
    → IsOrdered (record d { commands = update_rows test change d.commands })
update_commands-IsOrdered test change d keeps orders h = record {
  start_keys = h.start_keys;
  command_keys = update_rows-HaveKeys command_key test change d.commands keeps h.command_keys;
  follow = update_rows-All (Follows d.starts) test change d.commands orders h.follow;
}

pub ne_of_test : (m n : ℕ) → (m == n) ≡ false → n ≢ m
ne_of_test m n h = ground arith

pub no_start :
    (s : WorkflowStartIntent) (rows : List WorkflowStartIntent)
    → not (has_start s rows) ≡ true
    → All (λ r. start_key r ≢ start_key s) rows
unfolding has_start
no_start s [] h = tt
no_start s (r ∷ rows) h =
    (ne_of_test (start_key s) (start_key r) (ground arith), no_start s rows (ground arith))

pub no_command :
    (c : WorkflowCommandIntent) (rows : List WorkflowCommandIntent)
    → not (has_command c rows) ≡ true
    → All (λ r. command_key r ≢ command_key c) rows
unfolding has_command
no_command c [] h = tt
no_command c (r ∷ rows) h =
    (ne_of_test (command_key c) (command_key r) (ground arith), no_command c rows (ground arith))

-- The start of a command stays when a row is inserted.
pub kept_start :
    (s : WorkflowStartIntent) (starts : List WorkflowStartIntent) (c : WorkflowCommandIntent)
    → Follows starts c
    → Follows (s ∷ starts) c
kept_start s starts c (inl u) = inl u
kept_start s starts c (inr t) = inr (record {
  start = t.start;
  stored = inr t.stored;
  same_tenant = t.same_tenant;
  same_instance = t.same_instance;
  start_delivered = t.start_delivered;
})

pub insert_start-IsOrdered :
    (s : WorkflowStartIntent) (d : Intents) (rows : List WorkflowStartIntent)
    → IsOrdered d
    → insert_start_intent s d.starts ≡ ok rows
    → IsOrdered (record d { starts = rows })
unfolding insert_start_intent
insert_start-IsOrdered s d rows h e =
    Ensures-ok (λ (r : List WorkflowStartIntent). IsOrdered (record d { starts = r })) _ rows
      (Ensures-guard (λ (r : List WorkflowStartIntent). IsOrdered (record d { starts = r }))
        (not (has_start s d.starts)) persistence_operation_failed (ok (s ∷ d.starts))
        λ fresh. record {
          start_keys = (no_start s d.starts fresh, h.start_keys);
          command_keys = h.command_keys;
          follow =
              All-impl (Follows d.starts) (Follows (s ∷ d.starts)) d.commands
                (kept_start s d.starts) h.follow;
        })
      e

pub insert_command-IsOrdered :
    (c : WorkflowCommandIntent) (d : Intents) (rows : List WorkflowCommandIntent)
    → IsUntouched c
    → IsOrdered d
    → insert_command_intent c d.commands ≡ ok rows
    → IsOrdered (record d { commands = rows })
unfolding insert_command_intent
insert_command-IsOrdered c d rows u h e =
    Ensures-ok (λ (r : List WorkflowCommandIntent). IsOrdered (record d { commands = r })) _ rows
      (Ensures-guard (λ (r : List WorkflowCommandIntent). IsOrdered (record d { commands = r }))
        (not (has_command c d.commands)) persistence_operation_failed (ok (c ∷ d.commands))
        λ fresh. record {
          start_keys = h.start_keys;
          command_keys = (no_command c d.commands fresh, h.command_keys);
          follow = (inl u, h.follow);
        })
      e

pub and-both : (a b : Bool) → a && b ≡ true → (a ≡ true) × (b ≡ true)
and-both true b h = (refl, h)
and-both false b h = cc
