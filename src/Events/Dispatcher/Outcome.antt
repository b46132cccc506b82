-- ===== src/Events/Dispatcher/Outcome.antt =====
-- What a dispatch that still holds its claim leaves of the row, and reports.
use mathlib.Core.Path.{subst}
use mathlib.Core.Option.{some-injective, none-ne-some}
use eduvijna_aieos_backend.Prelude.{
  ℕ, ◌≡◌, refl, sym, ap, ◌∙◌, Bool, true, false, ◌&&◌, ◌||◌, Option, none, some, List, [], ◌∷◌,
  ◌==◌, arith, if◌then◌else◌, Bool-cases, inl, inr,
}
use eduvijna_aieos_backend.Python.Text.{Text, text_eq, text_eq_refl}
use eduvijna_aieos_backend.Python.Scalars.{Uuid, Datetime}
use eduvijna_aieos_backend.Events.Outbox.{
  OutboxStatus, pending, claimed, published, quarantined, OutboxMessage, update_rows, any_row,
  claim_once, mark_published, release_for_retry, is_fenced, is_row, claim_selected, is_claimed,
  is_same_text, with_claim, with_publication, with_release, get,
}
use eduvijna_aieos_backend.Events.Dispatcher.{
  PublishAck, PublishResult, OutboxDispatcherConfig, DispatchOnceOutcome, published_or_timeout,
  after, finalize, finalize_published, finalize_failed, dispatch_claimed, dispatch_once_detailed,
  is_exhausted, fence_of, or_default,
}

or_default_same : (t : Text) → or_default (some t) t ≡ t
or_default_same [] = refl
or_default_same (c ∷ s) = refl

all_true : (a b c d : Bool) → a ≡ true → b ≡ true → c ≡ true → d ≡ true → (a && b && c && d) ≡ true
all_true a b c d p q r s = ground arith

or_true : (a b : Bool) → a ≡ true → (a || b) ≡ true
or_true a b p = ground arith

or_right : (a b : Bool) → b ≡ true → (a || b) ≡ true
or_right a b p = ground arith

same_number : (n : ℕ) → (n == n) ≡ true
same_number n = ground arith

module _ {E : Type 0} where
  -- A row that is found has the tenant and the event, and a change of it is found in its place.
  get-is_row :
      (tenant event : Uuid) (rows : List (OutboxMessage E)) (m : OutboxMessage E)
      → get tenant event rows ≡ some m
      → is_row tenant event m ≡ true
  unfolding get
  get-is_row tenant event [] m h = absurd (none-ne-some m h)
  get-is_row tenant event (r ∷ rows) m h = elim (Bool-cases (is_row tenant event r)) [
    | inl e ↦ subst (λ x. is_row tenant event x ≡ true) (some-injective _ _ (rw e at h)) e
    | inr e ↦ get-is_row tenant event rows m (rw e at h)
  ]

  get-update_rows :
      (tenant event : Uuid) (test : OutboxMessage E → Bool)
      (change : OutboxMessage E → OutboxMessage E) (rows : List (OutboxMessage E))
      (m : OutboxMessage E)
      → ((r : OutboxMessage E) → is_row tenant event (change r) ≡ is_row tenant event r)
      → test m ≡ true
      → get tenant event rows ≡ some m
      → (get tenant event (update_rows test change rows) ≡ some (change m))
        × (any_row test rows ≡ true)
  unfolding get update_rows any_row
  get-update_rows tenant event test change [] m keeps t h = absurd (none-ne-some m h)
  get-update_rows tenant event test change (r ∷ rows) m keeps t h =
      elim (Bool-cases (is_row tenant event r)) [
        | inl e ↦
            let same : r ≡ m = some-injective _ _ (rw e at h) in
            let passes : test r ≡ true = ap test same ∙ t in
            (rw passes (rw (keeps r ∙ e) (ap (λ x. some (change x)) same)), or_true _ _ passes)
        | inr e ↦
            let (g, a) = get-update_rows tenant event test change rows m keeps t (rw e at h) in
            (
              elim (Bool-cases (test r)) [
                | inl p ↦ rw p (rw (keeps r ∙ e) g)
                | inr p ↦ rw p (rw e g)
              ],
              or_right _ _ a,
            )
      ]

abbrev is_published : OutboxStatus → Bool
is_published published = true
is_published _ = false

abbrev is_quarantined : OutboxStatus → Bool
is_quarantined quarantined = true
is_quarantined _ = false

-- The status that a result settles a row in, by whether it was published, its acknowledgement, and
-- whether the failure is permanent or the attempts are used up.
abbrev pub settled_status : Bool → Option PublishAck → Bool → OutboxStatus
settled_status true (some ack) final = published
settled_status _ _ final = if final then quarantined else pending

-- What a dispatch leaves of the row of `m`, and what it reports.
pub record IsSettled {E : Type 0} (config : OutboxDispatcherConfig) (tenant : Uuid)
    (m : OutboxMessage E) (result : PublishResult)
    (p : List (OutboxMessage E) × DispatchOnceOutcome) : Type 0 where
  pub row : OutboxMessage E
  pub found : get tenant m.event_id p.0 ≡ some row
  pub status :
      row.status
      ≡ settled_status result.published result.ack (result.permanent || is_exhausted config m)
  pub released : row.claimed_by ≡ none
  pub claimed : p.1.claimed ≡ true
  pub event_id : p.1.event_id ≡ some m.event_id
  pub fence_finalized : p.1.fence_finalized ≡ some true
  pub published : p.1.published ≡ is_published row.status
  pub quarantined : p.1.quarantined ≡ is_quarantined row.status

quarantined_status :
    (final : Bool) → final ≡ is_quarantined (if final then quarantined else pending)
quarantined_status true = refl
quarantined_status false = refl

unpublished_status : (final : Bool) → false ≡ is_published (if final then quarantined else pending)
unpublished_status true = refl
unpublished_status false = refl

module _ {E : Type 0} where
  -- The row is as the claim of this worker left it.
  record IsHeld (config : OutboxDispatcherConfig) (tenant : Uuid) (m : OutboxMessage E)
      (rows : List (OutboxMessage E)) : Type 0 where
    found : get tenant m.event_id rows ≡ some m
    held : m.status ≡ claimed
    by : m.claimed_by ≡ some config.claimed_by

  fence_holds :
      (config : OutboxDispatcherConfig) (tenant : Uuid) (m : OutboxMessage E)
      (rows : List (OutboxMessage E))
      → IsHeld config tenant m rows
      → is_fenced tenant m.event_id (fence_of config m) m.attempt_count m ≡ true
  fence_holds config tenant m rows h =
      let fence : fence_of config m ≡ config.claimed_by =
        ap (λ b. or_default b config.claimed_by) h.by ∙ or_default_same config.claimed_by in
      all_true (is_row tenant m.event_id m) (is_claimed m.status)
        (is_same_text m.claimed_by (fence_of config m)) (m.attempt_count == m.attempt_count)
        (get-is_row tenant m.event_id rows m h.found) (ap is_claimed h.held)
        (ap (λ b. is_same_text b (fence_of config m)) h.by
          ∙ ap (λ t. text_eq config.claimed_by t) fence
          ∙ text_eq_refl config.claimed_by)
        (same_number m.attempt_count)

  failed-IsSettled :
      (config : OutboxDispatcherConfig) (tenant : Uuid) (m : OutboxMessage E)
      (result : PublishResult) (finished : Datetime) (rows : List (OutboxMessage E))
      → IsHeld config tenant m rows
      → (settled_status result.published result.ack (result.permanent || is_exhausted config m)
          ≡ (if result.permanent || is_exhausted config m then quarantined else pending))
      → IsSettled config tenant m result (finalize_failed config tenant m result finished rows)
  unfolding finalize_failed release_for_retry
  failed-IsSettled config tenant m result finished rows h s =
      let final = result.permanent || is_exhausted config m in
      let (g, a) =
        get-update_rows tenant m.event_id _ (with_release _ _ final) rows m (λ r. refl)
          (fence_holds config tenant m rows h) h.found in
      record {
        row = with_release _ _ final m;
        found = g;
        status = sym s;
        released = refl;
        claimed = refl;
        event_id = refl;
        fence_finalized = ap some a;
        published = unpublished_status final;
        quarantined = quarantined_status final;
      }

  finalize-IsSettled :
      (published : Bool) (ack : Option PublishAck) (config : OutboxDispatcherConfig) (tenant : Uuid)
      (m : OutboxMessage E) (code : Option Text) (permanent : Bool) (finished : Datetime)
      (rows : List (OutboxMessage E))
      → IsHeld config tenant m rows
      → IsSettled config tenant m
          (record { published = published; ack = ack; error_code = code; permanent = permanent })
          (finalize published ack config tenant m
            (record { published = published; ack = ack; error_code = code; permanent = permanent })
            finished
            rows)
  unfolding finalize_published mark_published
  finalize-IsSettled true (some ack) config tenant m code permanent finished rows h =
      let (g, a) =
        get-update_rows tenant m.event_id _ (with_publication finished ack.stream ack.sequence) rows
          m (λ r. refl) (fence_holds config tenant m rows h) h.found in
      record {
        row = with_publication finished ack.stream ack.sequence m;
        found = g;
        status = refl;
        released = refl;
        claimed = refl;
        event_id = refl;
        fence_finalized = ap some a;
        published = a;
        quarantined = refl;
      }
  finalize-IsSettled true none config tenant m code permanent finished rows h =
      failed-IsSettled config tenant m _ finished rows h refl
  finalize-IsSettled false ack config tenant m code permanent finished rows h =
      failed-IsSettled config tenant m _ finished rows h refl

  claim_selected-held :
      (tenant : Uuid) (worker : Text) (lease : Datetime) (o : Option (OutboxMessage E))
      (rows : List (OutboxMessage E)) (m : OutboxMessage E)
      → (claim_selected tenant worker lease o rows).1 ≡ some m
      → (m.status ≡ claimed) × (m.claimed_by ≡ some worker)
  claim_selected-held tenant worker lease none rows m h = absurd (none-ne-some m h)
  claim_selected-held tenant worker lease (some row) rows m h =
      let same : with_claim worker lease row ≡ m = some-injective _ _ h in
      (
        sym (ap (λ (x : OutboxMessage E). x.status) same),
        sym (ap (λ (x : OutboxMessage E). x.claimed_by) same),
      )

  -- A dispatch whose claim took a row that is still the same when the publication ends finalizes it:
  -- the row is published if the result is published and acknowledged, otherwise quarantined if the
  -- failure is permanent or the attempts are used up, and else pending; the claim is released; and
  -- the outcome reports the event, that the fence held, and whether the row is published or
  -- quarantined.
  pub dispatch_once_detailed-IsSettled :
      (config : OutboxDispatcherConfig) (publish : OutboxMessage E → Option PublishResult)
      (meanwhile : List (OutboxMessage E) → List (OutboxMessage E)) (tenant : Uuid)
      (now finished : Datetime) (locked : Uuid → Bool) (rows : List (OutboxMessage E))
      (m : OutboxMessage E)
      → (claim_once tenant config.claimed_by now (after now config.claim_lease) locked rows).1
        ≡ some m
      → get tenant m.event_id (
          meanwhile
            (claim_once tenant config.claimed_by now (after now config.claim_lease) locked rows).0)
        ≡ some m
      → IsSettled config tenant m
          (published_or_timeout (publish m))
          (dispatch_once_detailed config publish meanwhile tenant now finished locked rows)
  unfolding dispatch_once_detailed claim_once
  dispatch_once_detailed-IsSettled config publish meanwhile tenant now finished locked rows m c g =
      let facts =
        claim_selected-held tenant config.claimed_by (after now config.claim_lease) _ rows m c in
      let result = published_or_timeout (publish m) in
      subst
        (λ o. IsSettled config tenant m result (
          dispatch_claimed config tenant publish meanwhile finished
            (claim_once tenant config.claimed_by now (after now config.claim_lease) locked rows).0
            o))
        (sym c)
        (finalize-IsSettled result.published result.ack config tenant m result.error_code
          result.permanent finished _ (record { found = g; held = facts.0; by = facts.1 }))
