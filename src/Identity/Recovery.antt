-- ===== src/Identity/Recovery.antt =====
-- `IdentityService.reset_password`, backend/app/modules/identity/service.py: a new password for the
-- token of a recovery. `digest` is the keyed hash that the token is found by.
pub mod Reset
pub mod Once
mod Tests
use Prim.Native.String.{String}
use wheelmatch.Base.{
  ℕ, suc, Bool, true, false, not, ◌&&◌, ◌||◌, Option, none, some, List, [], ◌∷◌, ◌++◌, ◌==◌, leb,
  if◌then◌else◌, is_some, find, update_first, Result, ok, err,
}
use wheelmatch.Identity.Users.{User, get_user_by_id, write_user}
use wheelmatch.Identity.Sessions.{Store, Reason, revoke_user_sessions}
use wheelmatch.Identity.Login.{Passwords}
use wheelmatch.Identity.Signout.{changed_user, password_audit}
use wheelmatch.Identity.Challenges.{is_deleted}
use wheelmatch.Core.Events.{Value, add}

pub record PasswordRecoveryChallenge : Type 0 where
  pub id : ℕ
  pub user_id : ℕ
  pub token_hash : ℕ
  pub attempt_count : ℕ
  pub max_attempts : ℕ
  pub expires_at : ℕ
  pub consumed_at : Option ℕ

-- the tables of the sessions, and the challenges
pub record Accounts : Type 0 where
  pub tables : Store
  pub recoveries : List PasswordRecoveryChallenge

pub data ErrorCode : Type 0 where
  password_policy_failed recovery_failed : ErrorCode

abbrev pub get_recovery_by_hash :
    ℕ → List PasswordRecoveryChallenge → Option PasswordRecoveryChallenge
get_recovery_by_hash token_hash = find (λ row. row.token_hash == token_hash)

-- a write to the loaded row; `id` and `token_hash` never change
abbrev pub write_recovery :
    PasswordRecoveryChallenge → List PasswordRecoveryChallenge → List PasswordRecoveryChallenge
write_recovery challenge =
    update_first (λ row. row.id == challenge.id && row.token_hash == challenge.token_hash)
      (λ row. challenge)

abbrev pub is_unusable : ℕ → PasswordRecoveryChallenge → Bool
is_unusable now challenge =
    is_some challenge.consumed_at
    || leb challenge.expires_at now
    || leb challenge.max_attempts challenge.attempt_count

-- the writes of a reset, and the dropped cache entry
pub password_reset : ℕ → ℕ → User → Store → Store
password_reset now password_hash user store =
    let (_, ended) = revoke_user_sessions user.id now Reason.password_recovery store in
    record ended {
      users = write_user (changed_user now password_hash user) store.users;
      audit =
          add (password_audit "identity.password_recovery.completed" "success" none [] user.id)
            store.audit;
      outbox =
          add
            (record {
              event_type = "identity.password.changed";
              aggregate_type = "user";
              aggregate_id = user.id;
              payload =
                  ("reason", Value.text "recovery") ∷ ("sessions_revoked", Value.flag true) ∷ [];
            })
            store.outbox;
      invalidated = store.invalidated ++ user.id ∷ [];
    }

pub reset_user :
    ℕ → ℕ → PasswordRecoveryChallenge → Option User → Accounts → Result ErrorCode Unit × Accounts
reset_user now password_hash challenge none accounts = (err recovery_failed, accounts)
reset_user now password_hash challenge (some user) accounts =
    if is_deleted user.status then (err recovery_failed, accounts) else (
      ok tt,
      record {
        tables = password_reset now password_hash user accounts.tables;
        recoveries =
            write_recovery (record challenge { consumed_at = some now }) accounts.recoveries;
      },
    )

pub reset_found :
    ℕ → ℕ → Option PasswordRecoveryChallenge → Accounts → Result ErrorCode Unit × Accounts
reset_found now password_hash none accounts = (err recovery_failed, accounts)
reset_found now password_hash (some challenge) accounts =
    if is_unusable now challenge
    then (err recovery_failed, accounts)
    else reset_user now password_hash challenge
        (get_user_by_id challenge.user_id accounts.tables.users) accounts

pub reset_hashed : ℕ → ℕ → Option ℕ → Accounts → Result ErrorCode Unit × Accounts
reset_hashed now token_hash none accounts = (err password_policy_failed, accounts)
reset_hashed now token_hash (some password_hash) accounts =
    reset_found now password_hash (get_recovery_by_hash token_hash accounts.recoveries) accounts

pub reset_password : Passwords → (ℕ → ℕ) → ℕ → ℕ → ℕ → Accounts → Result ErrorCode Unit × Accounts
reset_password passwords digest now token new_password accounts =
    reset_hashed now (digest token) (passwords.hash new_password none) accounts
