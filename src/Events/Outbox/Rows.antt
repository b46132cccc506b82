-- ===== src/Events/Outbox/Rows.antt =====
-- The operations on the outbox leave every row with the columns of its status.
use mathlib.Core.Path.{subst}
use mathlib.Core.Option.{some-injective}
use eduvijna_aieos_backend.Prelude.{
  ℕ, ◌≡◌, ◌≢◌, refl, Bool, true, false, ◌&&◌, Option, none, some, List, [], ◌∷◌, ◌==◌, arith,
  if◌then◌else◌, All, Bool-cases, Option-cases, inl, inr, ◌⊎◌, sym, ap, ◌∙◌, ltb, All-impl,
}
use eduvijna_aieos_backend.Python.Text.{Text}
use eduvijna_aieos_backend.Python.Scalars.{Uuid, Datetime}
use eduvijna_aieos_backend.Events.Outbox.{
  OutboxStatus, pending, claimed, published, quarantined, OutboxMessage, update_rows, select_first,
  claim_once, mark_published, release_for_retry, is_fenced, is_row, is_candidate, is_due,
  is_claimed, earlier_row, with_claim, with_publication, with_release, IsCoherent, StatusFits,
  HaveKeys,
}

module _ {E : Type 0} where
  -- An update keeps what its change keeps on the rows that pass the test.
  update_rows-All :
      (P : OutboxMessage E → Type 0) (test : OutboxMessage E → Bool)
      (change : OutboxMessage E → OutboxMessage E) (rows : List (OutboxMessage E))
      → ((m : OutboxMessage E) → test m ≡ true → P m → P (change m))
      → All P rows
      → All P (update_rows test change rows)
  unfolding update_rows
  update_rows-All P test change [] f h = tt
  update_rows-All P test change (m ∷ rows) f h = (
    elim (Bool-cases (test m)) [ inl e ↦ rw e (f m e h.0) | inr e ↦ rw e h.0 ],
    update_rows-All P test change rows f h.1,
  )

  -- The same, with a second fact of every row.
  update_both :
      {P Q : OutboxMessage E → Type 0} (test : OutboxMessage E → Bool)
      (change : OutboxMessage E → OutboxMessage E) (rows : List (OutboxMessage E))
      → ((m : OutboxMessage E) → test m ≡ true → P m → Q m → P (change m))
      → All P rows
      → All Q rows
      → All P (update_rows test change rows)
  unfolding update_rows
  update_both test change [] f h g = tt
  update_both test change (m ∷ rows) f h g = (
    elim (Bool-cases (test m)) [ inl e ↦ rw e (f m e h.0 g.0) | inr e ↦ rw e h.0 ],
    update_both test change rows f h.1 g.1,
  )

  -- A row is one of the rows.
  pub In : OutboxMessage E → List (OutboxMessage E) → Type 0
  In m [] = ⊥
  In m (r ∷ rows) = (m ≡ r) ⊎ In m rows

  In-All :
      (P : OutboxMessage E → Type 0) (m : OutboxMessage E) (rows : List (OutboxMessage E))
      → In m rows
      → All P rows
      → P m
  unfolding In
  In-All P m [] i h = absurd i
  In-All P m (r ∷ rows) (inl e) h = subst P (sym e) h.0
  In-All P m (r ∷ rows) (inr i) h = In-All P m rows i h.1

  earlier-or :
      (b : Bool) (m row : OutboxMessage E) (best : Option (OutboxMessage E))
      → earlier_row b m best ≡ some row
      → ((m ≡ row) × (b ≡ true)) ⊎ (best ≡ some row)
  earlier-or false m row best h = inr h
  earlier-or true m row none h = inl (some-injective _ _ h, refl)
  earlier-or true m row (some r) h =
      elim (Bool-cases (ltb r.available_at.instant m.available_at.instant)) [
        | inl e ↦ inr (rw e at h)
        | inr e ↦ inl (some-injective _ _ (rw e at h), refl)
      ]

  -- The row that is selected is one of the rows, and passes the test.
  pub select_first-In :
      (test : OutboxMessage E → Bool) (rows : List (OutboxMessage E)) (row : OutboxMessage E)
      → select_first test rows ≡ some row
      → In row rows × (test row ≡ true)
  unfolding select_first In
  select_first-In test [] row h = cc
  select_first-In test (m ∷ rows) row h =
      elim (earlier-or (test m) m row (select_first test rows) h) [
        | inl (e, t) ↦ (inl (sym e), ap test (sym e) ∙ t)
        | inr g ↦ let (i, t) = select_first-In test rows row g in (inr i, t)
      ]

  -- With the event as the key, no other row has the event of a row.
  pub only_row :
      (rows : List (OutboxMessage E)) (row : OutboxMessage E)
      → HaveKeys rows
      → In row rows
      → All (λ (m : OutboxMessage E). m.event_id ≡ row.event_id → m ≡ row) rows
  unfolding In
  only_row [] row k i = tt
  only_row (r ∷ rows) row k (inl e) = (
    λ _. sym e,
    All-impl (λ (m : OutboxMessage E). m.event_id ≢ r.event_id)
        (λ (m : OutboxMessage E). m.event_id ≡ row.event_id → m ≡ row) rows
        (λ m ne same. absurd (ne (same ∙ ap (λ (x : OutboxMessage E). x.event_id) e))) k.0,
  )
  only_row (r ∷ rows) row k (inr i) = (
    λ same.
        absurd
          (In-All (λ (m : OutboxMessage E). m.event_id ≢ r.event_id) row rows i k.0 (sym same)),
    only_row rows row k.1 i,
  )

false-ne-true : false ≡ true → ⊥
false-ne-true e = cc

with_claim-StatusFits :
    (s : OutboxStatus) (by : Option Text) (available : Datetime) (until at : Option Datetime)
    (stream : Option Text) (sequence : Option ℕ) (now : Datetime) (worker : Text) (lease : Datetime)
    → StatusFits s by until at stream sequence
    → is_due s available until now ≡ true
    → StatusFits claimed (some worker) (some lease) at stream sequence
with_claim-StatusFits pending none available none none none none now worker lease h d = tt
with_claim-StatusFits claimed (some by) available (some until) none none none now worker lease h d =
    tt
with_claim-StatusFits published _ available _ _ _ _ now worker lease h d = absurd (false-ne-true d)
with_claim-StatusFits quarantined _ available _ _ _ _ now worker lease h d =
    absurd (false-ne-true d)
with_claim-StatusFits _ _ available _ _ _ _ now worker lease h d = absurd h

with_release-StatusFits :
    (quarantine : Bool) (s : OutboxStatus) (by : Option Text) (until at : Option Datetime)
    (stream : Option Text) (sequence : Option ℕ)
    → StatusFits s by until at stream sequence
    → is_claimed s ≡ true
    → StatusFits (if quarantine then quarantined else pending) none none at stream sequence
with_release-StatusFits true claimed (some by) (some until) none none none h d = tt
with_release-StatusFits false claimed (some by) (some until) none none none h d = tt
with_release-StatusFits _ pending _ _ _ _ _ h d = absurd (false-ne-true d)
with_release-StatusFits _ published _ _ _ _ _ h d = absurd (false-ne-true d)
with_release-StatusFits _ quarantined _ _ _ _ _ h d = absurd (false-ne-true d)
with_release-StatusFits _ _ _ _ _ _ _ h d = absurd h

candidate-is_due : (visible due free : Bool) → (visible && due && free) ≡ true → due ≡ true
candidate-is_due visible due free h = ground arith

fenced-is_claimed : (row held by count : Bool) → (row && held && by && count) ≡ true → held ≡ true
fenced-is_claimed row held by count h = ground arith

pub row-event_id : (visible : Bool) (m n : ℕ) → (visible && m == n) ≡ true → m ≡ n
row-event_id visible m n h = ground arith

module _ {E : Type 0} where
  -- A claim leaves every row with the columns of its status.
  pub claim_once-IsCoherent :
      (tenant : Uuid) (worker : Text) (now lease : Datetime) (locked : Uuid → Bool)
      (rows : List (OutboxMessage E))
      → HaveKeys rows
      → All IsCoherent rows
      → All IsCoherent (claim_once tenant worker now lease locked rows).0
  unfolding claim_once
  claim_once-IsCoherent tenant worker now lease locked rows k h =
      elim (Option-cases (select_first (is_candidate tenant now locked) rows)) [
        | inl e ↦ rw e h
        | inr (row, e) ↦
            rw e (claimed_rows row (select_first-In (is_candidate tenant now locked) rows row e))
      ]
    where
      claimed_rows :
          (row : OutboxMessage E)
          → In row rows × (is_candidate tenant now locked row ≡ true)
          → All IsCoherent (update_rows (is_row tenant row.event_id) (with_claim worker lease) rows)
      claimed_rows row (i, c) =
          update_both (is_row tenant row.event_id) (with_claim worker lease) rows
            (λ m t p only.
              with_claim-StatusFits m.status m.claimed_by m.available_at m.claimed_until
                m.published_at m.broker_stream m.broker_sequence now worker lease p
                (subst (λ r. is_due r.status r.available_at r.claimed_until now ≡ true)
                  (sym (only (row-event_id _ m.event_id row.event_id t)))
                  (candidate-is_due _ _ _ c)))
            h (only_row rows row k i)

  -- A publication that is recorded leaves every row with the columns of its status.
  pub mark_published-IsCoherent :
      (tenant event : Uuid) (worker : Text) (attempt : ℕ) (at : Datetime) (stream : Text)
      (sequence : ℕ) (rows : List (OutboxMessage E))
      → All IsCoherent rows
      → All IsCoherent (mark_published tenant event worker attempt at stream sequence rows).0
  unfolding mark_published
  mark_published-IsCoherent tenant event worker attempt at stream sequence rows h =
      update_rows-All IsCoherent (is_fenced tenant event worker attempt)
        (with_publication at stream sequence) rows (λ m t p. tt) h

  -- A release, with or without quarantine, leaves every row with the columns of its status.
  pub release_for_retry-IsCoherent :
      (tenant event : Uuid) (worker : Text) (attempt : ℕ) (available : Datetime) (code : Text)
      (quarantine : Bool) (rows : List (OutboxMessage E))
      → All IsCoherent rows
      → All IsCoherent
          (release_for_retry tenant event worker attempt available code quarantine rows).0
  unfolding release_for_retry
  release_for_retry-IsCoherent tenant event worker attempt available code quarantine rows h =
      update_rows-All IsCoherent (is_fenced tenant event worker attempt)
        (with_release available code quarantine) rows
        (λ m t p.
          with_release-StatusFits quarantine m.status m.claimed_by m.claimed_until m.published_at
            m.broker_stream m.broker_sequence p (fenced-is_claimed _ _ _ _ t))
        h
