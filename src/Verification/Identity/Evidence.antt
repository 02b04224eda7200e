-- ===== src/Verification/Identity/Evidence.antt =====
-- The evidence of every attempt meets the CHECK constraints of its table, an attempt that waits for
-- its session or its result carries none, and a user has at most one active attempt, so the partial
-- unique index never fires.
use wheelmatch.Base.{
  unique, ℕ, ◌≡◌, ◌≤◌, refl, sym, ap, ◌∙◌, inl, inr, Bool, true, false, none, some, List, [], ◌∷◌,
  ◌==◌, Option-cases, Bool-cases, arith, all, all-update_first, all-append_one, all-find,
  count_where, count_where-append, count_where-update_first, top-count_where,
}
use wheelmatch.Verification.State.{verified, Status-cases}
use wheelmatch.Verification.Identity.{
  IdentityVerification, UserVerificationState, Store, get_attempt, get_state, write_attempt,
  get_latest_for_user, next_attempt_number, is_active_for,
}
use wheelmatch.Verification.Identity.Results.{unknown_level, bad_period}
use wheelmatch.Verification.Identity.Starting.{fresh_attempt, supersede}
use wheelmatch.Verification.Identity.Changes.{
  Change, kept, opened, referenced, moved, unique_ids, row_valid,
}
use wheelmatch.Verification.Identity.Changes.Rows.{latest_found, Change-unique}
use wheelmatch.Verification.Identity.Changes.Cases.{step-Change}
use wheelmatch.Verification.Identity.Projection.{Shown, run-Shown}
use wheelmatch.Verification.Identity.History.{Transaction, step, run}

abbrev pub all_valid : Store → Bool
all_valid store = all row_valid store.attempts

found_valid :
    (a : IdentityVerification) (id : ℕ) (store : Store)
    → all_valid store ≡ true
    → get_attempt id store.attempts ≡ some a
    → row_valid a ≡ true
found_valid a id store v found = all-find row_valid (λ row. row.id == id) store.attempts a v found

supersede-all_valid :
    (now user_id : ℕ) (store : Store)
    → unique_ids store ≡ true
    → all_valid store ≡ true
    → all row_valid (supersede now (get_latest_for_user user_id store.attempts) store.attempts)
      ≡ true
supersede-all_valid now user_id store u v =
    elim (Option-cases (get_latest_for_user user_id store.attempts)) [
      | inl empty ↦ rw empty v
      | inr (a, latest) ↦
          let valid = found_valid a a.id store v (latest_found user_id store.attempts a u latest) in
          rw latest (
            all-update_first row_valid (λ row. row.id == a.id)
              (record a { superseded_at = some now }) store.attempts (ground (arith, valid)) v)
    ]

Change-all_valid :
    (store next : Store)
    → Change store next
    → unique_ids store ≡ true
    → all_valid store ≡ true
    → all_valid next ≡ true
Change-all_valid store next (kept ra rs) u v = rw ra v
Change-all_valid store next (opened identifier c fresh idle ra rs) u v = rw ra (
    all-append_one row_valid
      (supersede c.now (get_latest_for_user c.actor_user_id store.attempts) store.attempts)
      (fresh_attempt c identifier (next_attempt_number c.actor_user_id store.attempts))
      (supersede-all_valid c.now c.actor_user_id store u v) refl)
Change-all_valid store next (referenced a reference found st ra rs) u v = rw ra (
    all-update_first row_valid (λ row. row.id == a.id)
      (record a { provider_reference = some reference }) store.attempts
      (ground (arith, found_valid a a.id store v found)) v)
Change-all_valid store next (moved a b s t found state current m ra rs) u v = rw ra (
    all-update_first row_valid (λ row. row.id == b.id) b store.attempts
      (m.evidence (found_valid a a.id store v found)) v)

-- the active attempts of a user
abbrev pub active_count : ℕ → Store → ℕ
active_count user_id store = count_where (is_active_for user_id) store.attempts

write-active_count :
    (a b : IdentityVerification) (user_id : ℕ) (rows : List IdentityVerification)
    → get_attempt a.id rows ≡ some a
    → b.id ≡ a.id
    → (is_active_for user_id b ≡ true → is_active_for user_id a ≡ true)
    → count_where (is_active_for user_id) (write_attempt b rows)
      ≤ count_where (is_active_for user_id) rows
write-active_count a b user_id rows found same h =
    count_where-update_first (is_active_for user_id) (λ row. row.id == b.id) b rows a
      (ap (λ k. get_attempt k rows) same ∙ found) h

supersede-active_count :
    (now user_id owner : ℕ) (rows : List IdentityVerification)
    → unique (λ row. row.id) rows ≡ true
    → count_where (is_active_for owner) (supersede now (get_latest_for_user user_id rows) rows)
      ≤ count_where (is_active_for owner) rows
supersede-active_count now user_id owner rows u =
    elim (Option-cases (get_latest_for_user user_id rows)) [
      | inl empty ↦ rw empty (omega arith)
      | inr (a, latest) ↦ rw latest (
          write-active_count a (record a { superseded_at = some now }) owner rows
            (latest_found user_id rows a u latest) refl (λ h. h))
    ]

Change-active_count :
    (store next : Store) (user_id : ℕ)
    → Change store next
    → unique_ids store ≡ true
    → active_count user_id store ≤ 1
    → active_count user_id next ≤ 1
Change-active_count store next user_id (kept ra rs) u h = rw ra h
Change-active_count store next user_id (opened identifier c fresh idle ra rs) u h =
    rw
      (
        ra,
        count_where-append (is_active_for user_id)
            (supersede c.now (get_latest_for_user c.actor_user_id store.attempts) store.attempts)
            (fresh_attempt c identifier _),
      )
      (elim (Bool-cases (c.actor_user_id == user_id)) [
        | inl own ↦
            let key : c.actor_user_id ≡ user_id = ground arith in
            let nothing =
              top-count_where (λ row. row.attempt_number) (is_active_for c.actor_user_id)
                store.attempts idle in
            let none_own : count_where (is_active_for user_id) store.attempts ≡ 0 =
              ap (λ k. count_where (is_active_for k) store.attempts) (sym key) ∙ nothing in
            ground (arith, supersede-active_count c.now c.actor_user_id user_id store.attempts u)
        | inr other ↦
            ground (arith, supersede-active_count c.now c.actor_user_id user_id store.attempts u)
      ])
Change-active_count store next user_id (referenced a reference found st ra rs) u h = rw ra (
    omega (
      arith,
      write-active_count a (record a { provider_reference = some reference }) user_id store.attempts
          found refl (λ k. k),
    ))
Change-active_count store next user_id (moved a b s t found state current m ra rs) u h =
    let live : is_active_for user_id b ≡ true → is_active_for user_id a ≡ true =
      λ k. ground (arith, m.live, m.user, Status-cases a.status) in
    rw ra (omega (arith, write-active_count a b user_id store.attempts found m.id live))

-- what a verified projection carries
pub record IsProven (s : UserVerificationState) : Type 0 where
  pub known : unknown_level s.assurance_level ≡ false
  pub period : bad_period s.verified_at s.expires_at ≡ false
  pub not_failed : s.safe_failure_code ≡ none
  pub not_revoked : s.revoked_at ≡ none

module _ (len : ℕ → ℕ) (identifier : ℕ) where
  run-all_valid :
      (store : Store) (history : List Transaction)
      → unique_ids store ≡ true
      → all_valid store ≡ true
      → all_valid (run len identifier store history) ≡ true
  unfolding run
  run-all_valid store [] u v = v
  run-all_valid store (t ∷ rest) u v =
      let next = step len identifier store t in
      let change = step-Change len identifier store t u in
      run-all_valid next rest (Change-unique store next change u)
        (Change-all_valid store next change u v)

  -- After any history of transactions, a projection that says `verified` carries a known assurance
  -- level, an expiry later than the verification, and neither a failure code nor a revocation. At
  -- the start the ids of the stored attempts differ, their evidence meets the CHECK constraints of
  -- the table, no attempt in session_pending or pending carries a verification time, an expiry or a
  -- revocation, and the user's projection, if any, shows its attempt.
  pub run-verified :
      (user_id : ℕ) (store : Store) (history : List Transaction)
      → unique_ids store ≡ true
      → all_valid store ≡ true
      → Shown user_id store
      → (s : UserVerificationState)
      → get_state user_id (run len identifier store history).states ≡ some s
      → s.effective_status ≡ verified
      → IsProven s
  run-verified user_id store history u v h s found status =
      let last = run len identifier store history in
      let (a, stored, agrees) = run-Shown len identifier user_id store history u h s found in
      let valid =
        found_valid a s.current_attempt_id last (run-all_valid store history u v) stored in
      let same : a.status ≡ verified = sym agrees.status ∙ status in
      let proven : row_valid a ≡ true = valid in
      record {
        known = ground (arith, agrees.level);
        period = ground (arith, agrees.since, agrees.until);
        not_failed = ground (arith, agrees.code);
        not_revoked = ground (arith, agrees.revoked);
      }

  -- A user has at most one attempt that is pending or under review, after any history of
  -- transactions from tables where that holds and the ids of the attempts differ; overlapping
  -- starts included.
  pub run-active_count :
      (user_id : ℕ) (store : Store) (history : List Transaction)
      → unique_ids store ≡ true
      → active_count user_id store ≤ 1
      → active_count user_id (run len identifier store history) ≤ 1
  unfolding run
  run-active_count user_id store [] u h = h
  run-active_count user_id store (t ∷ rest) u h =
      let next = step len identifier store t in
      let change = step-Change len identifier store t u in
      run-active_count user_id next rest (Change-unique store next change u)
        (Change-active_count store next user_id change u h)
