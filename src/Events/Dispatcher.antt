-- ===== src/Events/Dispatcher.antt =====
-- nats/dispatcher.py: one dispatch of the outbox, claim, publication and finalization, with the
-- publisher as a parameter. While it is awaited other workers may change the rows, which is the
-- parameter `meanwhile`. Durations are in microseconds. Logging is left out.
pub mod Outcome
use eduvijna_aieos_backend.Prelude.{
  ℕ, ◌+◌, Bool, true, false, not, ◌&&◌, ◌||◌, Option, none, some, List, [], ◌∷◌, leb, if◌then◌else◌,
}
use eduvijna_aieos_backend.Python.Text.{Text, codes}
use eduvijna_aieos_backend.Python.Scalars.{Uuid, Datetime}
use eduvijna_aieos_backend.Events.Outbox.{
  OutboxMessage, claim_once, mark_published, release_for_retry,
}

abbrev pub error_nats_unavailable : Text
error_nats_unavailable = codes "nats_unavailable"

abbrev pub error_retry_exhausted : Text
error_retry_exhausted = codes "retry_exhausted"

pub record PublishAck : Type 0 where
  pub stream : Text
  pub sequence : ℕ

pub record PublishResult : Type 0 where
  pub published : Bool
  pub ack : Option PublishAck
  pub error_code : Option Text
  pub permanent : Bool

-- The configuration, of which the time limit of a publication is part of the publisher here.
pub record OutboxDispatcherConfig : Type 0 where
  pub claim_lease : ℕ
  pub max_attempts : ℕ
  pub retry_delay : ℕ
  pub claimed_by : Text

pub record DispatchOnceOutcome : Type 0 where
  pub claimed : Bool
  pub published : Bool
  pub event_id : Option Uuid
  pub attempt_count : Option ℕ
  pub error_code : Option Text
  pub broker_stream : Option Text
  pub broker_sequence : Option ℕ
  pub quarantined : Bool
  pub fence_finalized : Option Bool

-- `value or default` of an optional text.
abbrev pub or_default : Option Text → Text → Text
or_default none d = d
or_default (some []) d = d
or_default (some (c ∷ s)) d = c ∷ s

abbrev pub after : Datetime → ℕ → Datetime
after t duration = record t { instant = t.instant + duration }

-- The result of the publication: `TimeoutError` is the result that the handler makes.
abbrev pub published_or_timeout : Option PublishResult → PublishResult
published_or_timeout none = record {
  published = false;
  ack = none;
  error_code = some error_nats_unavailable;
  permanent = false;
}
published_or_timeout (some result) = result

abbrev stream_of : Option PublishAck → Option Text
stream_of none = none
stream_of (some ack) = some ack.stream

abbrev sequence_of : Option PublishAck → Option ℕ
sequence_of none = none
sequence_of (some ack) = some ack.sequence

abbrev nothing_claimed : DispatchOnceOutcome
nothing_claimed = record {
  claimed = false;
  published = false;
  event_id = none;
  attempt_count = none;
  error_code = none;
  broker_stream = none;
  broker_sequence = none;
  quarantined = false;
  fence_finalized = none;
}

module _ {E : Type 0} where
  abbrev pub is_exhausted : OutboxDispatcherConfig → OutboxMessage E → Bool
  is_exhausted config m = leb config.max_attempts m.attempt_count

  abbrev pub error_code_of : OutboxDispatcherConfig → OutboxMessage E → PublishResult → Text
  error_code_of config m result =
      if not result.permanent && is_exhausted config m
      then error_retry_exhausted
      else or_default result.error_code error_retry_exhausted

  abbrev pub fence_of : OutboxDispatcherConfig → OutboxMessage E → Text
  fence_of config m = or_default m.claimed_by config.claimed_by

  -- The finalization of a publication that was acknowledged.
  unfoldable pub finalize_published :
      OutboxDispatcherConfig
      → Uuid
      → OutboxMessage E
      → PublishAck
      → Datetime
      → List (OutboxMessage E)
      → List (OutboxMessage E) × DispatchOnceOutcome
  unfolding mark_published
  finalize_published config tenant m ack finished rows =
      let (after_mark, finalized) =
        mark_published tenant m.event_id (fence_of config m) m.attempt_count finished ack.stream
          ack.sequence rows in
      (
        after_mark,
        record {
          claimed = true;
          published = finalized;
          event_id = some m.event_id;
          attempt_count = some m.attempt_count;
          error_code = none;
          broker_stream = some ack.stream;
          broker_sequence = some ack.sequence;
          quarantined = false;
          fence_finalized = some finalized;
        },
      )

  -- The finalization of any other result: a retry, or a quarantine.
  unfoldable pub finalize_failed :
      OutboxDispatcherConfig
      → Uuid
      → OutboxMessage E
      → PublishResult
      → Datetime
      → List (OutboxMessage E)
      → List (OutboxMessage E) × DispatchOnceOutcome
  unfolding release_for_retry
  finalize_failed config tenant m result finished rows =
      let quarantine = result.permanent || is_exhausted config m in
      let (after_release, finalized) =
        release_for_retry tenant m.event_id (fence_of config m) m.attempt_count
          (after finished config.retry_delay) (error_code_of config m result) quarantine rows in
      (
        after_release,
        record {
          claimed = true;
          published = false;
          event_id = some m.event_id;
          attempt_count = some m.attempt_count;
          error_code = some (error_code_of config m result);
          broker_stream = stream_of result.ack;
          broker_sequence = sequence_of result.ack;
          quarantined = quarantine;
          fence_finalized = some finalized;
        },
      )

  -- `if result.published and result.ack is not None`
  abbrev pub finalize :
      Bool
      → Option PublishAck
      → OutboxDispatcherConfig
      → Uuid
      → OutboxMessage E
      → PublishResult
      → Datetime
      → List (OutboxMessage E)
      → List (OutboxMessage E) × DispatchOnceOutcome
  finalize true (some ack) config tenant m result finished rows =
      finalize_published config tenant m ack finished rows
  finalize _ _ config tenant m result finished rows =
      finalize_failed config tenant m result finished rows

  -- What follows the claim: `publish` is the publisher, `none` when it does not return in time.
  abbrev pub dispatch_claimed :
      OutboxDispatcherConfig
      → Uuid
      → (OutboxMessage E → Option PublishResult)
      → (List (OutboxMessage E) → List (OutboxMessage E))
      → Datetime
      → List (OutboxMessage E)
      → Option (OutboxMessage E)
      → List (OutboxMessage E) × DispatchOnceOutcome
  dispatch_claimed config tenant publish meanwhile finished rows none = (rows, nothing_claimed)
  dispatch_claimed config tenant publish meanwhile finished rows (some m) =
      let result = published_or_timeout (publish m) in
      finalize result.published result.ack config tenant m result finished (meanwhile rows)

  -- `now` and `finished` are what the clock returns at the claim and at the finalization.
  unfoldable pub dispatch_once_detailed :
      (config : OutboxDispatcherConfig) (publish : OutboxMessage E → Option PublishResult)
      (meanwhile : List (OutboxMessage E) → List (OutboxMessage E)) (tenant_id : Uuid)
      (now finished : Datetime) (locked : Uuid → Bool)
      → List (OutboxMessage E)
      → List (OutboxMessage E) × DispatchOnceOutcome
  unfolding claim_once finalize_published finalize_failed
  dispatch_once_detailed config publish meanwhile tenant now finished locked rows =
      let (claimed_rows, row) =
        claim_once tenant config.claimed_by now (after now config.claim_lease) locked rows in
      dispatch_claimed config tenant publish meanwhile finished claimed_rows row
