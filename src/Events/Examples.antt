-- ===== src/Events/Examples.antt =====
-- An outbox of two rows, of which the earlier is claimed and published: the properties at these
-- concrete values.
use eduvijna_aieos_backend.Prelude.{
  ℕ, ◌≡◌, ◌≢◌, refl, Bool, true, false, Option, none, some, List, [], ◌∷◌, ok, arith,
}
use eduvijna_aieos_backend.Python.Text.{codes, text_eq}
use eduvijna_aieos_backend.Python.Scalars.{Uuid, Datetime}
use eduvijna_aieos_backend.Events.Outbox.{
  OutboxMessage, pending, HaveKeys, claim_once, insert, any_row, mark_published, release_for_retry,
  with_claim, get, select_first, update_rows,
}
use eduvijna_aieos_backend.Events.Outbox.History.{
  Reach, empty, step, inserted, claimed, IsSound, Reach-IsSound,
}
use eduvijna_aieos_backend.Events.Outbox.Fencing.{claim_once-fences}
use eduvijna_aieos_backend.Events.Dispatcher.{
  OutboxDispatcherConfig, PublishResult, dispatch_once_detailed, published_or_timeout,
}
use eduvijna_aieos_backend.Events.Dispatcher.Outcome.{IsSettled, dispatch_once_detailed-IsSettled}

abbrev at : ℕ → Datetime
at n = record { is_aware = true; instant = n }

abbrev message : Uuid → ℕ → OutboxMessage ℕ
message event_id n = record {
  event_id = event_id;
  tenant_id = 1;
  event_type = codes "content.published";
  subject = codes "content/4";
  aggregate_type = codes "content";
  aggregate_id = 4;
  aggregate_revision = 2;
  envelope = 7;
  status = pending;
  attempt_count = 0;
  available_at = at n;
  claimed_by = none;
  claimed_until = none;
  published_at = none;
  broker_stream = none;
  broker_sequence = none;
  last_error_code = none;
  created_at = at n;
}

abbrev rows : List (OutboxMessage ℕ)
rows = message 51 200 ∷ message 52 100 ∷ []

events_differ : ◌≢◌ {A = Uuid} 52 51
events_differ h = omega (arith, h)

rows-HaveKeys : HaveKeys rows
rows-HaveKeys = ((events_differ, tt), (tt, tt))

abbrev unlocked : Uuid → Bool
unlocked u = false

abbrev config : OutboxDispatcherConfig
config = record {
  claim_lease = 30;
  max_attempts = 3;
  retry_delay = 10;
  claimed_by = codes "worker";
}

abbrev held : OutboxMessage ℕ
held = with_claim (codes "worker") (at 330) (message 52 100)

claim-held : (claim_once 1 (codes "worker") (at 300) (at 330) unlocked rows).1 ≡ some held
claim-held = unfold claim_once select_first in refl

get-held : get 1 52 (claim_once 1 (codes "worker") (at 300) (at 330) unlocked rows).0 ≡ some held
get-held = unfold claim_once select_first update_rows get in refl

abbrev later : OutboxMessage ℕ
later = record (message 51 200) { aggregate_id = 5 }

inserted-once : insert later [] ≡ ok (later ∷ [])
inserted-once = unfold insert any_row in refl

inserted-twice : insert (message 52 100) (later ∷ []) ≡ ok (message 52 100 ∷ later ∷ [])
inserted-twice = unfold insert any_row text_eq in refl

claimed-once :
    Reach (claim_once 1 (codes "worker") (at 300) (at 330) unlocked (message 52 100 ∷ later ∷ [])).0
claimed-once =
    step
      (step (step empty (inserted later (later ∷ []) tt inserted-once))
        (inserted (message 52 100) (message 52 100 ∷ later ∷ []) tt inserted-twice))
      (claimed 1 (codes "worker") (at 300) (at 330) unlocked)

Reach-IsSound_example :
    IsSound
      (claim_once 1 (codes "worker") (at 300) (at 330) unlocked (message 52 100 ∷ later ∷ [])).0
Reach-IsSound_example = Reach-IsSound claimed-once

attempts_differ : ◌≢◌ {A = ℕ} 1 2
attempts_differ h = omega (arith, h)

claim_once-fences_example :
    (mark_published 1 52
        (codes "worker")
        2
        (at 350)
        (codes "events")
        9
        (claim_once 1 (codes "worker") (at 300) (at 330) unlocked rows).0
      ≡ ((claim_once 1 (codes "worker") (at 300) (at 330) unlocked rows).0, false))
    × (release_for_retry 1 52
          (codes "worker")
          2
          (at 400)
          (codes "nats_unavailable")
          true
          (claim_once 1 (codes "worker") (at 300) (at 330) unlocked rows).0
        ≡ ((claim_once 1 (codes "worker") (at 300) (at 330) unlocked rows).0, false))
claim_once-fences_example =
    claim_once-fences 1 (codes "worker") (codes "worker") (at 300) (at 330) unlocked rows held 2
      (at 350) (at 400) (codes "events") (codes "nats_unavailable") 9 true rows-HaveKeys claim-held
      attempts_differ

abbrev acknowledge : OutboxMessage ℕ → Option PublishResult
acknowledge m = some (record {
  published = true;
  ack = some (record { stream = codes "events"; sequence = 9 });
  error_code = none;
  permanent = false;
})

abbrev undisturbed : List (OutboxMessage ℕ) → List (OutboxMessage ℕ)
undisturbed rs = rs

dispatch_once_detailed-IsSettled_example :
    IsSettled config 1 held
      (published_or_timeout (acknowledge held))
      (dispatch_once_detailed config acknowledge undisturbed 1 (at 300) (at 350) unlocked rows)
dispatch_once_detailed-IsSettled_example =
    dispatch_once_detailed-IsSettled config acknowledge undisturbed 1 (at 300) (at 350) unlocked
      rows held claim-held get-held
