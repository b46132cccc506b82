-- ===== src/Events/Outbox/History.antt =====
-- What holds of the outbox after any sequence of operations.
use eduvijna_aieos_backend.Prelude.{
  ℕ, ◌≡◌, ◌≢◌, refl, sym, ◌∙◌, Bool, true, false, not, Option, none, some, List, [], ◌∷◌, ok, ◌==◌,
  All, Bool-cases, inl, inr, Ensures-guard, Ensures-ok, arith,
}
use eduvijna_aieos_backend.Python.Text.{Text}
use eduvijna_aieos_backend.Python.Scalars.{Uuid, Datetime}
use eduvijna_aieos_backend.Events.Outbox.{
  OutboxMessage, persistence_operation_failed, insert, update_rows, any_row, claim_once,
  claim_selected, mark_published, release_for_retry, is_fenced, is_row, with_claim,
  with_publication, with_release, HaveKeys, IsCoherent,
}
use eduvijna_aieos_backend.Events.Outbox.Rows.{
  claim_once-IsCoherent, mark_published-IsCoherent, release_for_retry-IsCoherent,
}

ne_of_test : (m n : ℕ) → (m == n) ≡ false → m ≢ n
ne_of_test m n h = ground arith

module _ {E : Type 0} where
  -- One operation: an insertion, a claim, or a finalization, of whichever worker.
  pub data Step (rows : List (OutboxMessage E)) : List (OutboxMessage E) → Type 0 where
    inserted :
        (m : OutboxMessage E) (rows' : List (OutboxMessage E))
        → IsCoherent m
        → insert m rows ≡ ok rows'
        → Step rows rows'
    claimed :
        (tenant : Uuid) (worker : Text) (now lease : Datetime) (locked : Uuid → Bool)
        → Step rows (claim_once tenant worker now lease locked rows).0
    marked :
        (tenant event : Uuid) (worker : Text) (attempt : ℕ) (at : Datetime) (stream : Text)
        (sequence : ℕ)
        → Step rows (mark_published tenant event worker attempt at stream sequence rows).0
    released :
        (tenant event : Uuid) (worker : Text) (attempt : ℕ) (available : Datetime) (code : Text)
        (quarantine : Bool)
        → Step rows (release_for_retry tenant event worker attempt available code quarantine rows).0

  -- What a sequence of operations on an empty table leads to.
  pub data Reach : List (OutboxMessage E) → Type 0 where
    empty : Reach []
    step : {rows rows' : List (OutboxMessage E)} → Reach rows → Step rows rows' → Reach rows'

  pub record IsSound (rows : List (OutboxMessage E)) : Type 0 where
    pub keys : HaveKeys rows
    pub coherent : All IsCoherent rows

  other_keys :
      (test : OutboxMessage E → Bool) (change : OutboxMessage E → OutboxMessage E) (event : Uuid)
      (rows : List (OutboxMessage E))
      → ((m : OutboxMessage E) → (change m).event_id ≡ m.event_id)
      → All (λ (r : OutboxMessage E). r.event_id ≢ event) rows
      → All (λ (r : OutboxMessage E). r.event_id ≢ event) (update_rows test change rows)
  unfolding update_rows
  other_keys test change event [] keeps h = tt
  other_keys test change event (m ∷ rows) keeps h = (
    elim (Bool-cases (test m)) [ inl e ↦ rw e (λ q. h.0 (sym (keeps m) ∙ q)) | inr e ↦ rw e h.0 ],
    other_keys test change event rows keeps h.1,
  )

  update_rows-HaveKeys :
      (test : OutboxMessage E → Bool) (change : OutboxMessage E → OutboxMessage E)
      (rows : List (OutboxMessage E))
      → ((m : OutboxMessage E) → (change m).event_id ≡ m.event_id)
      → HaveKeys rows
      → HaveKeys (update_rows test change rows)
  unfolding update_rows
  update_rows-HaveKeys test change [] keeps h = tt
  update_rows-HaveKeys test change (m ∷ rows) keeps h =
      let rest = update_rows-HaveKeys test change rows keeps h.1 in
      elim (Bool-cases (test m)) [
        | inl e ↦ rw e (rw (keeps m) (other_keys test change m.event_id rows keeps h.0), rest)
        | inr e ↦ rw e (other_keys test change m.event_id rows keeps h.0, rest)
      ]

  no_row :
      (event : Uuid) (rows : List (OutboxMessage E))
      → not (any_row (λ r. r.event_id == event) rows) ≡ true
      → All (λ (r : OutboxMessage E). r.event_id ≢ event) rows
  unfolding any_row
  no_row event [] h = tt
  no_row event (r ∷ rows) h =
      (ne_of_test r.event_id event (ground arith), no_row event rows (ground arith))

  insert-IsSound :
      (m : OutboxMessage E) (rows rows' : List (OutboxMessage E))
      → IsCoherent m
      → IsSound rows
      → insert m rows ≡ ok rows'
      → IsSound rows'
  unfolding insert
  insert-IsSound m rows rows' c s h =
      Ensures-ok IsSound _ rows'
        (Ensures-guard IsSound (not (any_row (λ r. r.event_id == m.event_id) rows))
          persistence_operation_failed _
          λ fresh. Ensures-guard IsSound _ persistence_operation_failed (ok (m ∷ rows)) λ _.
            record { keys = (no_row m.event_id rows fresh, s.keys); coherent = (c, s.coherent) })
        h

  claim_selected-HaveKeys :
      (tenant : Uuid) (worker : Text) (lease : Datetime) (o : Option (OutboxMessage E))
      (rows : List (OutboxMessage E))
      → HaveKeys rows
      → HaveKeys (claim_selected tenant worker lease o rows).0
  claim_selected-HaveKeys tenant worker lease none rows h = h
  claim_selected-HaveKeys tenant worker lease (some row) rows h =
      update_rows-HaveKeys (is_row tenant row.event_id) (with_claim worker lease) rows (λ m. refl) h

  Step-IsSound :
      {rows rows' : List (OutboxMessage E)} → IsSound rows → Step rows rows' → IsSound rows'
  unfolding claim_once mark_published release_for_retry
  Step-IsSound {rows} s (inserted m rows' c h) = insert-IsSound m rows rows' c s h
  Step-IsSound {rows} s (claimed tenant worker now lease locked) = record {
    keys = claim_selected-HaveKeys tenant worker lease _ rows s.keys;
    coherent = claim_once-IsCoherent tenant worker now lease locked rows s.keys s.coherent;
  }
  Step-IsSound {rows} s (marked tenant event worker attempt at stream sequence) = record {
    keys =
        update_rows-HaveKeys (is_fenced tenant event worker attempt)
          (with_publication at stream sequence) rows (λ m. refl) s.keys;
    coherent =
        mark_published-IsCoherent tenant event worker attempt at stream sequence rows s.coherent;
  }
  Step-IsSound {rows} s (released tenant event worker attempt available code quarantine) = record {
    keys =
        update_rows-HaveKeys (is_fenced tenant event worker attempt)
          (with_release available code quarantine) rows (λ m. refl) s.keys;
    coherent =
        release_for_retry-IsCoherent tenant event worker attempt available code quarantine rows
          s.coherent;
  }

  -- After any sequence of insertions of coherent messages, claims, publications and releases on an
  -- empty table, no two rows have one event, and every row has exactly the columns of its status: a
  -- claim and its end when it is claimed, a moment, a stream and a sequence when it is published, and
  -- none of these otherwise.
  pub Reach-IsSound : {rows : List (OutboxMessage E)} → Reach rows → IsSound rows
  Reach-IsSound empty = record { keys = tt; coherent = tt }
  Reach-IsSound (step r s) = Step-IsSound (Reach-IsSound r) s
