-- ===== src/Events/Outbox.antt =====
-- persistence/repositories.py: the insertion, the claims and the finalization of outbox rows. An operation takes the
-- rows of the table and returns them with its result. `_set_tenant` makes the row-level policies of
-- the database show the rows of one tenant only, which is `is_visible` here.
pub mod Rows
pub mod Fencing
pub mod History
use eduvijna_aieos_backend.Prelude.{
  Result, ok, err, ◌>>=◌, ◌>>◌, guard, ℕ, ◌+◌, ◌≡◌, ◌≢◌, Bool, true, false, not, ◌&&◌, ◌||◌, Option,
  none, some, List, [], ◌∷◌, map, ltb, leb, ◌==◌, if◌then◌else◌, All,
}
use eduvijna_aieos_backend.Python.Text.{Text, text_eq}
use eduvijna_aieos_backend.Python.Scalars.{Uuid, Datetime}

-- The `OUTBOX_…` constants.
pub data OutboxStatus : Type 0 where
  pending claimed published quarantined : OutboxStatus

-- `PersistenceOperationFailed`
pub data OutboxError : Type 0 where
  persistence_operation_failed : OutboxError

-- A message, with the envelope of a type that the outbox does not look into, and its `EventId` as the
-- UUID that it wraps. The table checks that the revision and the attempts are not negative.
pub record OutboxMessage (Envelope : Type 0) : Type 0 where
  pub event_id : Uuid
  pub tenant_id : Uuid
  pub event_type : Text
  pub subject : Text
  pub aggregate_type : Text
  pub aggregate_id : Uuid
  pub aggregate_revision : ℕ
  pub envelope : Envelope
  pub status : OutboxStatus
  pub attempt_count : ℕ
  pub available_at : Datetime
  pub claimed_by : Option Text
  pub claimed_until : Option Datetime
  pub published_at : Option Datetime
  pub broker_stream : Option Text
  pub broker_sequence : Option ℕ
  pub last_error_code : Option Text
  pub created_at : Datetime

abbrev pub is_claimed : OutboxStatus → Bool
is_claimed claimed = true
is_claimed _ = false

-- The two alternatives of the `where` of a claim; a comparison with NULL is not true.
abbrev pub is_due : OutboxStatus → Datetime → Option Datetime → Datetime → Bool
is_due pending available until now = leb available.instant now.instant
is_due claimed available (some until) now = leb until.instant now.instant
is_due _ _ _ _ = false

abbrev pub is_same_text : Option Text → Text → Bool
is_same_text none t = false
is_same_text (some s) t = text_eq s t

module _ {E : Type 0} where
  abbrev pub is_visible : Uuid → OutboxMessage E → Bool
  is_visible tenant m = m.tenant_id == tenant

  -- A row that a claim may take: visible, due, and not locked by another transaction.
  abbrev pub is_candidate : Uuid → Datetime → (Uuid → Bool) → OutboxMessage E → Bool
  is_candidate tenant now locked m =
      is_visible tenant m
      && is_due m.status m.available_at m.claimed_until now
      && not (locked m.event_id)

  abbrev pub earlier_row :
      Bool → OutboxMessage E → Option (OutboxMessage E) → Option (OutboxMessage E)
  earlier_row false m best = best
  earlier_row true m none = some m
  earlier_row true m (some best) =
      some (if ltb best.available_at.instant m.available_at.instant then best else m)

  -- `order_by(available_at).limit(1)` of the rows that pass the test.
  unfoldable pub select_first :
      (OutboxMessage E → Bool) → List (OutboxMessage E) → Option (OutboxMessage E)
  select_first test [] = none
  select_first test (m ∷ rows) = earlier_row (test m) m (select_first test rows)

  -- `update(…).where(…).values(…)`
  unfoldable pub update_rows :
      (OutboxMessage E → Bool)
      → (OutboxMessage E → OutboxMessage E)
      → List (OutboxMessage E)
      → List (OutboxMessage E)
  update_rows test change [] = []
  update_rows test change (m ∷ rows) =
      (if test m then change m else m) ∷ update_rows test change rows

  -- `bool(result.rowcount)`
  unfoldable pub any_row : (OutboxMessage E → Bool) → List (OutboxMessage E) → Bool
  any_row test [] = false
  any_row test (m ∷ rows) = test m || any_row test rows

  abbrev pub is_row : Uuid → Uuid → OutboxMessage E → Bool
  is_row tenant event_id m = is_visible tenant m && m.event_id == event_id

  -- The unique constraint of the table on the business event.
  abbrev is_same_event : OutboxMessage E → OutboxMessage E → Bool
  is_same_event m r =
      m.tenant_id == r.tenant_id
      && text_eq m.aggregate_type r.aggregate_type
      && m.aggregate_id == r.aggregate_id
      && m.aggregate_revision == r.aggregate_revision
      && text_eq m.event_type r.event_type

  -- The database raises when a unique constraint is violated, and `_reraise` turns that into its own
  -- exception.
  unfoldable pub insert :
      OutboxMessage E → List (OutboxMessage E) → Result OutboxError (List (OutboxMessage E))
  unfolding any_row
  insert m rows = do
    guard (not (any_row (λ r. r.event_id == m.event_id) rows)) persistence_operation_failed
    guard (not (any_row (is_same_event m) rows)) persistence_operation_failed
    ok (m ∷ rows)

  abbrev pub with_claim : Text → Datetime → OutboxMessage E → OutboxMessage E
  with_claim claimed_by claim_until m = record m {
    status = claimed;
    claimed_by = some claimed_by;
    claimed_until = some claim_until;
    attempt_count = m.attempt_count + 1;
  }

  -- The update of `claim_once` at the row that was selected, of which the event is the primary key.
  abbrev pub claim_selected :
      Uuid
      → Text
      → Datetime
      → Option (OutboxMessage E)
      → List (OutboxMessage E)
      → List (OutboxMessage E) × Option (OutboxMessage E)
  claim_selected tenant claimed_by claim_until none rows = (rows, none)
  claim_selected tenant claimed_by claim_until (some row) rows = (
    update_rows (is_row tenant row.event_id) (with_claim claimed_by claim_until) rows,
    some (with_claim claimed_by claim_until row),
  )

  unfoldable pub claim_once :
      (tenant_id : Uuid) (claimed_by : Text) (now claim_until : Datetime) (locked : Uuid → Bool)
      → List (OutboxMessage E)
      → List (OutboxMessage E) × Option (OutboxMessage E)
  unfolding select_first update_rows
  claim_once tenant claimed_by now claim_until locked rows =
      claim_selected tenant claimed_by claim_until
        (select_first (is_candidate tenant now locked) rows) rows

  -- The fence of a finalization: the row is still held by the claim and the attempt.
  abbrev pub is_fenced : Uuid → Uuid → Text → ℕ → OutboxMessage E → Bool
  is_fenced tenant event_id claimed_by attempt_count m =
      is_row tenant event_id m
      && is_claimed m.status
      && is_same_text m.claimed_by claimed_by
      && m.attempt_count == attempt_count

  abbrev pub with_publication : Datetime → Text → ℕ → OutboxMessage E → OutboxMessage E
  with_publication published_at stream sequence m = record m {
    status = published;
    published_at = some published_at;
    broker_stream = some stream;
    broker_sequence = some sequence;
    claimed_by = none;
    claimed_until = none;
    last_error_code = none;
  }

  unfoldable pub mark_published :
      (tenant_id event_id : Uuid) (claimed_by : Text) (attempt_count : ℕ) (published_at : Datetime)
      (broker_stream : Text) (broker_sequence : ℕ)
      → List (OutboxMessage E)
      → List (OutboxMessage E) × Bool
  unfolding update_rows any_row
  mark_published tenant event_id claimed_by attempt_count published_at stream sequence rows = (
    update_rows (is_fenced tenant event_id claimed_by attempt_count)
        (with_publication published_at stream sequence) rows,
    any_row (is_fenced tenant event_id claimed_by attempt_count) rows,
  )

  abbrev pub with_release : Datetime → Text → Bool → OutboxMessage E → OutboxMessage E
  with_release available_at error_code quarantine m = record m {
    status = if quarantine then quarantined else pending;
    available_at = available_at;
    claimed_by = none;
    claimed_until = none;
    last_error_code = some error_code;
  }

  unfoldable pub release_for_retry :
      (tenant_id event_id : Uuid) (claimed_by : Text) (attempt_count : ℕ) (available_at : Datetime)
      (error_code : Text) (quarantine : Bool)
      → List (OutboxMessage E)
      → List (OutboxMessage E) × Bool
  unfolding update_rows any_row
  release_for_retry tenant event_id claimed_by attempt_count available_at error_code quarantine
        rows =
      (
        update_rows (is_fenced tenant event_id claimed_by attempt_count)
            (with_release available_at error_code quarantine) rows,
        any_row (is_fenced tenant event_id claimed_by attempt_count) rows,
      )

  -- The row of an event, if the tenant has it.
  unfoldable pub get :
      (tenant_id event_id : Uuid) → List (OutboxMessage E) → Option (OutboxMessage E)
  get tenant event_id [] = none
  get tenant event_id (m ∷ rows) =
      if is_row tenant event_id m then some m else get tenant event_id rows

-- The columns that go with each status.
abbrev pub StatusFits :
    OutboxStatus → Option Text → Option Datetime → Option Datetime → Option Text → Option ℕ → Type 0
StatusFits pending none none none none none = Unit
StatusFits claimed (some by) (some until) none none none = Unit
StatusFits published none none (some at) (some stream) (some sequence) = Unit
StatusFits quarantined none none none none none = Unit
StatusFits _ _ _ _ _ _ = ⊥

module _ {E : Type 0} where
  -- What holds of every row.
  abbrev pub IsCoherent : OutboxMessage E → Type 0
  IsCoherent m =
      StatusFits m.status m.claimed_by m.claimed_until m.published_at m.broker_stream
        m.broker_sequence

  -- The event is the primary key.
  abbrev pub HaveKeys : List (OutboxMessage E) → Type 0
  HaveKeys [] = Unit
  HaveKeys (m ∷ rows) = All (λ (r : OutboxMessage E). r.event_id ≢ m.event_id) rows × HaveKeys rows
