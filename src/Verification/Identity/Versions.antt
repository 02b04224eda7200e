-- ===== src/Verification/Identity/Versions.antt =====
-- The version of a projection tells whether it has changed.
use wheelmatch.Base.{
  ℕ, suc, ◌≡◌, ◌<◌, refl, ◌∙◌, ◌⊎◌, inl, inr, true, none, some, Option, List, [], ◌∷◌, ◌==◌,
  Option-cases, Bool-cases, arith, ap, update_first, if◌then◌else◌, find_sound,
  find_key-update_first, find-append_ne, find-append_none,
}
use wheelmatch.Verification.Identity.{UserVerificationState, Store, get_state}
use wheelmatch.Verification.Identity.Starting.{StartCall, fresh_state, project}
use wheelmatch.Verification.Identity.Changes.{Change, kept, opened, referenced, moved, unique_ids}
use wheelmatch.Verification.Identity.Changes.Rows.{Change-unique}
use wheelmatch.Verification.Identity.Changes.Cases.{step-Change}
use wheelmatch.Verification.Identity.History.{Transaction, step, run}

-- 0 for a user without a projection
abbrev pub version_of : Option UserVerificationState → ℕ
version_of none = 0
version_of (some state) = state.version

pub get_state_key :
    (user_id : ℕ) (rows : List UserVerificationState) (s : UserVerificationState)
    → get_state user_id rows ≡ some s
    → get_state s.user_id rows ≡ some s
get_state_key user_id rows s found =
    let own = find_sound (λ row. row.user_id == user_id) rows s found in
    let key : s.user_id ≡ user_id = ground arith in ap (λ k. get_state k rows) key ∙ found

-- a write under the user's key with the next version
pub get_state-write :
    (s t : UserVerificationState) (user_id : ℕ) (rows : List UserVerificationState)
    → get_state s.user_id rows ≡ some s
    → t.user_id ≡ s.user_id
    → get_state user_id (update_first (λ row. row.user_id == t.user_id) (λ row. t) rows)
      ≡ (if t.user_id == user_id then some t else get_state user_id rows)
get_state-write s t user_id rows found same =
    find_key-update_first (λ row. row.user_id) t rows s user_id (rw same found)

abbrev Bumps : Option UserVerificationState → Option UserVerificationState → Type 0
Bumps before after = (after ≡ before) ⊎ (version_of before < version_of after)

write-Bumps :
    (s t : UserVerificationState) (user_id : ℕ) (rows : List UserVerificationState)
    → get_state s.user_id rows ≡ some s
    → t.user_id ≡ s.user_id
    → t.version ≡ suc s.version
    → Bumps
        (get_state user_id rows)
        (get_state user_id (update_first (λ row. row.user_id == t.user_id) (λ row. t) rows))
write-Bumps s t user_id rows found same next = elim (Bool-cases (t.user_id == user_id)) [
  | inl own ↦
      let key : s.user_id ≡ user_id = ground arith in
      let stored : get_state user_id rows ≡ some s = rw (← key) found in
      inr (rw (get_state-write s t user_id rows found same, own, stored, next) (omega arith))
  | inr other ↦ inl (rw (get_state-write s t user_id rows found same, other) refl)
]

project-Bumps :
    (c : StartCall) (user_id : ℕ) (rows : List UserVerificationState)
    → Bumps
        (get_state user_id rows)
        (get_state user_id (project c (get_state c.actor_user_id rows) rows))
project-Bumps c user_id rows = elim (Option-cases (get_state c.actor_user_id rows)) [
  | inl new ↦ elim (Bool-cases (c.actor_user_id == user_id)) [
    | inl own ↦
        let key : c.actor_user_id ≡ user_id = ground arith in
        let missing : get_state user_id rows ≡ none = rw (← key) new in
        inr (
          rw
            (
              new,
              missing,
              find-append_none (λ row. row.user_id == user_id) rows (fresh_state c) missing own,
            )
            (omega arith))
    | inr other ↦
        inl (rw new (find-append_ne (λ row. row.user_id == user_id) rows (fresh_state c) other))
  ]
  | inr (s, stored) ↦
      let found = get_state_key c.actor_user_id rows s stored in
      rw stored (write-Bumps s _ user_id rows found refl refl)
]

Change-Bumps :
    (store next : Store) (user_id : ℕ)
    → Change store next
    → Bumps (get_state user_id store.states) (get_state user_id next.states)
Change-Bumps store next user_id (kept ra rs) = inl (rw rs refl)
Change-Bumps store next user_id (opened identifier c fresh idle ra rs) =
    rw rs (project-Bumps c user_id store.states)
Change-Bumps store next user_id (referenced a reference found st ra rs) = inl (rw rs refl)
Change-Bumps store next user_id (moved a b s t found state current m ra rs) =
    let stored = get_state_key a.user_id store.states s state in
    rw rs (write-Bumps s t user_id store.states stored m.owner m.version)

module _ (len : ℕ → ℕ) (identifier : ℕ) where
  -- After any history of transactions, the projection of a user is the row that it was, or its
  -- version is greater; so two reads that show one version show one projection. The ids of the
  -- stored attempts differ at the start, as the primary key has it.
  pub run-version :
      (user_id : ℕ) (store : Store) (history : List Transaction)
      → unique_ids store ≡ true
      → (get_state user_id (run len identifier store history).states
          ≡ get_state user_id store.states)
        ⊎ (version_of (get_state user_id store.states)
            < version_of (get_state user_id (run len identifier store history).states))
  unfolding run
  run-version user_id store [] u = inl refl
  run-version user_id store (t ∷ rest) u =
      let next = step len identifier store t in
      let change = step-Change len identifier store t u in
      ground (
        arith,
        Change-Bumps store next user_id change,
        run-version user_id next rest (Change-unique store next change u),
      )
