-- ===== src/Events/Outbox/Fencing.antt =====
-- The fence: of all claims of an event only the last can finalize it.
use mathlib.Core.Path.{subst}
use mathlib.Core.Option.{some-injective, none-ne-some}
use eduvijna_aieos_backend.Prelude.{
  ℕ, ◌+◌, ◌≡◌, ◌≢◌, refl, sym, ap, ◌∙◌, Bool, true, false, ◌&&◌, Option, none, some, List, [], ◌∷◌,
  ◌==◌, arith, All, Bool-cases, inl, inr,
}
use eduvijna_aieos_backend.Python.Text.{Text}
use eduvijna_aieos_backend.Python.Scalars.{Uuid, Datetime}
use eduvijna_aieos_backend.Events.Outbox.{
  OutboxMessage, update_rows, any_row, select_first, claim_once, mark_published, release_for_retry,
  is_fenced, is_row, is_candidate, claim_selected, is_same_text, with_claim, with_publication,
  with_release, HaveKeys,
}
use eduvijna_aieos_backend.Events.Outbox.Rows.{select_first-In, only_row, row-event_id}

first_false : (a b c d : Bool) → a ≡ false → (a && b && c && d) ≡ false
first_false a b c d h = ground arith

last_false : (a b c d : Bool) → d ≡ false → (a && b && c && d) ≡ false
last_false a b c d h = ground arith

not_same : (m n : ℕ) → m ≢ n → (m == n) ≡ false
not_same m n h = ground arith

pair {ℓ} : {A : Type ℓ} {a c : A} {b d : Bool} → a ≡ c → b ≡ d → ◌≡◌ {A = A × Bool} (a, b) (c, d)
pair p q = rw (p, q) refl

module _ {E : Type 0} where
  -- What no row passes changes nothing.
  update_none :
      (test : OutboxMessage E → Bool) (change : OutboxMessage E → OutboxMessage E)
      (rows : List (OutboxMessage E))
      → All (λ m. test m ≡ false) rows
      → (update_rows test change rows ≡ rows) × (any_row test rows ≡ false)
  unfolding update_rows any_row
  update_none test change [] h = (refl, refl)
  update_none test change (m ∷ rows) h =
      let (u, a) = update_none test change rows h.1 in (rw h.0 (ap (λ rs. m ∷ rs) u), rw h.0 a)

  stale_rows :
      (tenant : Uuid) (worker other : Text) (lease : Datetime) (n : ℕ) (row : OutboxMessage E)
      (rows : List (OutboxMessage E))
      → row.attempt_count + 1 ≢ n
      → All (λ (m : OutboxMessage E). m.event_id ≡ row.event_id → m ≡ row) rows
      → All
          (λ m. is_fenced tenant row.event_id other n m ≡ false)
          (update_rows (is_row tenant row.event_id) (with_claim worker lease) rows)
  unfolding update_rows
  stale_rows tenant worker other lease n row [] ne only = tt
  stale_rows tenant worker other lease n row (m ∷ rows) ne only = (
    elim (Bool-cases (is_row tenant row.event_id m)) [
      | inr e ↦ rw e (first_false _ _ _ _ e)
      | inl e ↦ rw e (
          last_false (is_row tenant row.event_id m) true (is_same_text (some worker) other)
            (m.attempt_count + 1 == n)
            (ap (λ (r : OutboxMessage E). r.attempt_count + 1 == n) (only.0 (row-event_id _ _ _ e))
              ∙ not_same (row.attempt_count + 1) n ne))
    ],
    stale_rows tenant worker other lease n row rows ne only.1,
  )

  -- After a claim of an event, with events as keys, a finalization by any other attempt at it, by
  -- whichever worker, changes no row and reports that it did not finalize.
  pub claim_once-fences :
      (tenant : Uuid) (worker other : Text) (now lease : Datetime) (locked : Uuid → Bool)
      (rows : List (OutboxMessage E)) (m : OutboxMessage E) (n : ℕ) (at available : Datetime)
      (stream code : Text) (sequence : ℕ) (quarantine : Bool)
      → HaveKeys rows
      → (claim_once tenant worker now lease locked rows).1 ≡ some m
      → m.attempt_count ≢ n
      → (mark_published tenant m.event_id other n at stream sequence
            (claim_once tenant worker now lease locked rows).0
          ≡ ((claim_once tenant worker now lease locked rows).0, false))
        × (release_for_retry tenant m.event_id other n available code quarantine
              (claim_once tenant worker now lease locked rows).0
            ≡ ((claim_once tenant worker now lease locked rows).0, false))
  unfolding claim_once mark_published release_for_retry
  claim_once-fences tenant worker other now lease locked rows m n at available stream code sequence
        quarantine k c ne =
      go (select_first (is_candidate tenant now locked) rows) refl c
    where
      Unchanged : Uuid → List (OutboxMessage E) → Type 0
      Unchanged event rs =
          (mark_published tenant event other n at stream sequence rs ≡ (rs, false))
          × (release_for_retry tenant event other n available code quarantine rs ≡ (rs, false))

      unchanged :
          (row : OutboxMessage E)
          → select_first (is_candidate tenant now locked) rows ≡ some row
          → row.attempt_count + 1 ≢ n
          → Unchanged row.event_id
              (update_rows (is_row tenant row.event_id) (with_claim worker lease) rows)
      unchanged row e ne' =
          let stale =
            stale_rows tenant worker other lease n row rows ne' (
              only_row rows row k
                (select_first-In (is_candidate tenant now locked) rows row e).0) in
          let (p, a) = update_none _ (with_publication at stream sequence) _ stale in
          let (r, b) = update_none _ (with_release available code quarantine) _ stale in
          (pair p a, pair r b)

      go :
          (o : Option (OutboxMessage E))
          → select_first (is_candidate tenant now locked) rows ≡ o
          → (claim_selected tenant worker lease o rows).1 ≡ some m
          → Unchanged m.event_id (claim_selected tenant worker lease o rows).0
      go none e h = absurd (none-ne-some m h)
      go (some row) e h =
          let same : with_claim worker lease row ≡ m = some-injective _ _ h in
          subst
            (λ (x : OutboxMessage E).
              Unchanged x.event_id
                (update_rows (is_row tenant row.event_id) (with_claim worker lease) rows))
            same
            (unchanged row e
              (λ q. ne (sym (ap (λ (x : OutboxMessage E). x.attempt_count) same) ∙ q)))
