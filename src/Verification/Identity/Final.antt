-- ===== src/Verification/Identity/Final.antt =====
-- A final attempt is never rewritten, whatever arrives.
use wheelmatch.Base.{
  ℕ, ◌≡◌, refl, ◌∙◌, inl, inr, true, false, some, List, [], ◌∷◌, ◌==◌, Bool-cases, arith,
  find_key-update_first, find-append_some,
}
use wheelmatch.Verification.State.{one_of, terminal_statuses}
use wheelmatch.Verification.Identity.{IdentityVerification, Store, get_attempt}
use wheelmatch.Verification.Identity.Changes.{Change, kept, opened, referenced, moved, unique_ids}
use wheelmatch.Verification.Identity.Changes.Rows.{get_attempt-supersede, Change-unique}
use wheelmatch.Verification.Identity.Changes.Cases.{step-Change}
use wheelmatch.Verification.Identity.History.{Transaction, step, run}

-- everything but the mark that a newer attempt leaves
pub record Settled (a b : IdentityVerification) : Type 0 where
  pub same : b ≡ record a { superseded_at = b.superseded_at }

Settled-refl : (a : IdentityVerification) → Settled a a
Settled-refl a = record { same = refl }

Settled-trans : (a b c : IdentityVerification) → Settled a b → Settled b c → Settled a c
Settled-trans a b c p q = record { same = ground (arith, p.same, q.same) }

abbrev pub SettledAt : IdentityVerification → ℕ → Store → Type 0
SettledAt a id store =
    (b : IdentityVerification) × (get_attempt id store.attempts ≡ some b) × Settled a b

Change-Settled :
    (store next : Store) (id : ℕ) (a : IdentityVerification)
    → Change store next
    → unique_ids store ≡ true
    → get_attempt id store.attempts ≡ some a
    → one_of terminal_statuses a.status ≡ true
    → SettledAt a id next
Change-Settled store next id a (kept ra rs) u found final = (a, rw ra found, Settled-refl a)
Change-Settled store next id a (opened identifier c fresh idle ra rs) u found final =
    elim (get_attempt-supersede c.now c.actor_user_id id store.attempts u) [
      | inl same ↦
          (a, rw ra (find-append_some (λ row. row.id == id) _ _ a (same ∙ found)), Settled-refl a)
      | inr (b, stored, after) ↦
          let row : b ≡ a = ground arith in
          (
            record b { superseded_at = some c.now },
            rw ra (find-append_some (λ row. row.id == id) _ _ _ after),
            record { same = ground arith },
          )
    ]
Change-Settled store next id a (referenced b reference stored st ra rs) u found final =
    elim (Bool-cases (b.id == id)) [
      | inl same ↦
          let key : b.id ≡ id = ground arith in
          let row : get_attempt id store.attempts ≡ some b = rw (← key) stored in
          absurd (ground arith)
      | inr other ↦
          let written =
            find_key-update_first (λ row. row.id) (record b { provider_reference = some reference })
              store.attempts b id stored in
          (a, rw ra (rw (rw other at written)) ∙ found, Settled-refl a)
    ]
Change-Settled store next id a (moved b b' s t stored state current m ra rs) u found final =
    elim (Bool-cases (b.id == id)) [
      | inl same ↦
          let key : b.id ≡ id = ground arith in
          let row : get_attempt id store.attempts ≡ some b = rw (← key) stored in
          absurd (ground (arith, m.live))
      | inr other ↦
          let key : get_attempt b'.id store.attempts ≡ some b = rw (m.id) stored in
          let written = find_key-update_first (λ row. row.id) b' store.attempts b id key in
          let apart : (b'.id == id) ≡ false = rw (m.id) other in
          (a, rw ra (rw (rw apart at written)) ∙ found, Settled-refl a)
    ]

module _ (len : ℕ → ℕ) (identifier : ℕ) where
  run-Settled_from :
      (a b : IdentityVerification) (id : ℕ) (store : Store) (history : List Transaction)
      → unique_ids store ≡ true
      → get_attempt id store.attempts ≡ some b
      → Settled a b
      → one_of terminal_statuses a.status ≡ true
      → SettledAt a id (run len identifier store history)
  unfolding run
  run-Settled_from a b id store [] u found settled final = (b, found, settled)
  run-Settled_from a b id store (t ∷ rest) u found settled final =
      let change = step-Change len identifier store t u in
      let (c, found', more) =
        Change-Settled store (step len identifier store t) id b change u found
          (ground (arith, settled.same)) in
      run-Settled_from a c id (step len identifier store t) rest
        (Change-unique store (step len identifier store t) change u) found'
        (Settled-trans a b c settled more) final

  -- Once the status of an attempt is final (under review, verified, failed, expired or revoked), no
  -- history of transactions, for any users and with any results of the provider, changes a column
  -- of its row other than the mark that a newer attempt sets; where the ids of the stored attempts
  -- differ, as the primary key has it.
  pub run-Settled :
      (a : IdentityVerification) (id : ℕ) (store : Store) (history : List Transaction)
      → unique_ids store ≡ true
      → get_attempt id store.attempts ≡ some a
      → one_of terminal_statuses a.status ≡ true
      → SettledAt a id (run len identifier store history)
  run-Settled a id store history u found final =
      run-Settled_from a a id store history u found (Settled-refl a) final
