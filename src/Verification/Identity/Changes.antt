-- ===== src/Verification/Identity/Changes.antt =====
-- How the transactions of identity verification change the attempts and the projections.
pub mod Cases
pub mod Rows
use wheelmatch.Base.{
  ℕ, suc, ◌≡◌, refl, Bool, true, false, ◌&&◌, ◌||◌, Option, none, some, eq_option, is_some, is_none,
  any, unique, ◌==◌, not, if◌then◌else◌, ltb,
}
use wheelmatch.Core.Events.{add}
use wheelmatch.Verification.State.{
  Status, pending, manual_review, verified, failed, expired, revoked, one_of, terminal_statuses,
  eq_status,
}
use wheelmatch.Verification.Identity.{
  AssuranceLevel, FailureCode, IdentityVerification, UserVerificationState, Store, get_attempt,
  get_state, get_active_for_user, get_latest_for_user, next_attempt_number, write_attempt,
  write_state,
}
use wheelmatch.Verification.Identity.Results.{unknown_level, bad_period, no_code}
use wheelmatch.Verification.Identity.Starting.{StartCall, fresh_attempt, supersede, project}

-- the projection shows just what the attempt's row shows
pub record Agrees (s : UserVerificationState) (a : IdentityVerification) : Type 0 where
  pub current : s.current_attempt_id ≡ a.id
  pub user : s.user_id ≡ a.user_id
  pub status : s.effective_status ≡ a.status
  pub level : s.assurance_level ≡ a.assurance_level
  pub since : s.verified_at ≡ a.verified_at
  pub until : s.expires_at ≡ a.expires_at
  pub revoked : s.revoked_at ≡ a.revoked_at
  pub code : s.safe_failure_code ≡ a.safe_failure_code

-- the CHECK constraints of `identity_verifications` on a status and its evidence; beyond them, an
-- attempt in session_pending or pending carries none
abbrev pub evidence_valid : Status → IdentityVerification → Bool
evidence_valid verified a =
    not (bad_period a.verified_at a.expires_at)
    && (not (unknown_level a.assurance_level) && is_none a.safe_failure_code)
    && is_none a.revoked_at
evidence_valid failed a =
    is_some a.safe_failure_code
    && is_none a.verified_at
    && is_none a.expires_at
    && is_none a.revoked_at
evidence_valid revoked a = is_some a.revoked_at
evidence_valid expired a = true
evidence_valid manual_review a = true
evidence_valid _ a = is_none a.verified_at && is_none a.expires_at && is_none a.revoked_at

abbrev pub row_valid : IdentityVerification → Bool
row_valid a = evidence_valid a.status a

-- an attempt that is not final moves on, and takes its projection with it
pub record Moves (a b : IdentityVerification) (s t : UserVerificationState) : Type 0 where
  pub id : b.id ≡ a.id
  pub user : b.user_id ≡ a.user_id
  pub live : one_of terminal_statuses a.status ≡ false
  pub evidence : row_valid a ≡ true → row_valid b ≡ true
  pub owner : t.user_id ≡ s.user_id
  pub version : t.version ≡ suc s.version
  pub agrees : Agrees s a → Agrees t b

pub data Change (store next : Store) : Type 0 where
  kept : next.attempts ≡ store.attempts → next.states ≡ store.states → Change store next
  opened :
      (identifier : ℕ) (c : StartCall)
      → any (λ row. row.id == c.attempt_id) store.attempts ≡ false
      → get_active_for_user c.actor_user_id store.attempts ≡ none
      → next.attempts
        ≡ add
            (fresh_attempt c identifier (next_attempt_number c.actor_user_id store.attempts))
            (supersede c.now (get_latest_for_user c.actor_user_id store.attempts) store.attempts)
      → next.states ≡ project c (get_state c.actor_user_id store.states) store.states
      → Change store next
  referenced :
      (a : IdentityVerification) (reference : ℕ)
      → get_attempt a.id store.attempts ≡ some a
      → a.status ≡ pending
      → next.attempts
        ≡ write_attempt (record a { provider_reference = some reference }) store.attempts
      → next.states ≡ store.states
      → Change store next
  moved :
      (a b : IdentityVerification) (s t : UserVerificationState)
      → get_attempt a.id store.attempts ≡ some a
      → get_state a.user_id store.states ≡ some s
      → s.current_attempt_id ≡ a.id
      → Moves a b s t
      → next.attempts ≡ write_attempt b store.attempts
      → next.states ≡ write_state t store.states
      → Change store next

-- the primary key of the attempts
abbrev pub unique_ids : Store → Bool
unique_ids store = unique (λ row. row.id) store.attempts
