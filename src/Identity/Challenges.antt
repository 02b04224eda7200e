-- ===== src/Identity/Challenges.antt =====
-- `IdentityService.verify_challenge`, backend/app/modules/identity/service.py: the codes that prove
-- an address or a phone number. `digest` is the keyed hash that a code is compared by.
pub mod Attempts
mod Tests
use Prim.Native.String.{String}
use wheelmatch.Base.{
  ℕ, suc, Bool, true, false, not, ◌&&◌, ◌||◌, Option, none, some, List, [], ◌∷◌, ◌++◌, ◌==◌, leb,
  if◌then◌else◌, is_some, find, update_first, Result, ok, err,
}
use wheelmatch.Authorization.{UserStatus}
use wheelmatch.Identity.Users.{User, get_user_by_id, write_user}
use wheelmatch.Core.Events.{Event, AuditLog, Value, add}

pub data Kind : Type 0 where
  email phone : Kind

abbrev pub eq_kind : Kind → Kind → Bool
eq_kind email email = true
eq_kind phone phone = true
eq_kind _ _ = false

pub record VerificationChallenge : Type 0 where
  pub id : ℕ
  pub user_id : ℕ
  pub kind : Kind
  pub secret_hash : ℕ
  pub attempt_count : ℕ
  pub max_attempts : ℕ
  pub expires_at : ℕ
  pub consumed_at : Option ℕ

-- the tables, and the users whose cached projection was dropped after the commit
pub record Store : Type 0 where
  pub users : List User
  pub challenges : List VerificationChallenge
  pub outbox : List Event
  pub audit : List AuditLog
  pub invalidated : List ℕ

pub data ErrorCode : Type 0 where
  verification_failed : ErrorCode

pub record VerifyCall : Type 0 where
  pub now : ℕ
  pub challenge_id : ℕ
  pub code : ℕ
  pub expected_kind : Kind

abbrev pub get_verification_challenge :
    ℕ → List VerificationChallenge → Option VerificationChallenge
get_verification_challenge id = find (λ row. row.id == id)

abbrev pub write_challenge :
    VerificationChallenge → List VerificationChallenge → List VerificationChallenge
write_challenge challenge = update_first (λ row. row.id == challenge.id) (λ row. challenge)

abbrev pub is_deleted : UserStatus → Bool
is_deleted UserStatus.deleted = true
is_deleted _ = false

-- the challenge can not be answered any more, or not for this kind
abbrev pub is_unusable : VerifyCall → VerificationChallenge → Bool
is_unusable call challenge =
    not (eq_kind challenge.kind call.expected_kind)
    || is_some challenge.consumed_at
    || leb challenge.expires_at call.now
    || leb challenge.max_attempts challenge.attempt_count

abbrev pub failed_action : Kind → String
failed_action email = "identity.email_verification.failed"
failed_action phone = "identity.phone_verification.failed"

abbrev pub verified_action : Kind → String
verified_action email = "identity.email_verified"
verified_action phone = "identity.phone_verified"

abbrev pub verified_change : Kind → String
verified_change email = "email_verified"
verified_change phone = "phone_verified"

abbrev pub challenge_audit : String → String → Option String → List (String × Value) → ℕ → AuditLog
challenge_audit action outcome reason_code changes user_id = record {
  action = action;
  outcome = outcome;
  reason_code = reason_code;
  resource_type = "user";
  actor_user_id = some user_id;
  resource_id = some user_id;
  organization_id = none;
  membership_id = none;
  changes = changes;
}

-- a wrong code
abbrev pub count_attempt : VerifyCall → VerificationChallenge → Store → Store
count_attempt call challenge store = record store {
  challenges =
      write_challenge (record challenge { attempt_count = suc challenge.attempt_count })
        store.challenges;
  audit =
      add
        (challenge_audit (failed_action call.expected_kind) "denied" (some "INVALID_CHALLENGE")
          (("attempt_count", Value.number (suc challenge.attempt_count)) ∷ []) challenge.user_id)
        store.audit;
}

abbrev pub verified_user : VerifyCall → User → User
verified_user call user = elim call.expected_kind [
  | email ↦ record user {
    email_verified_at = some call.now;
    authorization_version = suc user.authorization_version;
  }
  | phone ↦ record user {
    phone_verified_at = some call.now;
    authorization_version = suc user.authorization_version;
  }
]

abbrev pub consume : VerifyCall → VerificationChallenge → User → Store → Store
consume call challenge user store = record store {
  users = write_user (verified_user call user) store.users;
  challenges = write_challenge (record challenge { consumed_at = some call.now }) store.challenges;
  audit =
      add
        (challenge_audit (verified_action call.expected_kind) "success" none
          ((verified_change call.expected_kind, Value.flag true) ∷ []) user.id)
        store.audit;
  outbox =
      add
        (record {
          event_type = verified_action call.expected_kind;
          aggregate_type = "user";
          aggregate_id = user.id;
          payload = ("authorization_version", Value.number (suc user.authorization_version)) ∷ [];
        })
        store.outbox;
  invalidated = store.invalidated ++ user.id ∷ [];
}

abbrev pub answered :
    VerifyCall → VerificationChallenge → Option User → Store → Result ErrorCode Kind × Store
answered call challenge none store = (err verification_failed, store)
answered call challenge (some user) store =
    if is_deleted user.status
    then (err verification_failed, store)
    else (ok call.expected_kind, consume call challenge user store)

pub verify_found :
    (ℕ → ℕ) → VerifyCall → Option VerificationChallenge → Store → Result ErrorCode Kind × Store
verify_found digest call none store = (err verification_failed, store)
verify_found digest call (some challenge) store =
    if is_unusable call challenge
    then (err verification_failed, store)
    else if not (digest call.code == challenge.secret_hash)
    then (err verification_failed, count_attempt call challenge store)
    else answered call challenge (get_user_by_id challenge.user_id store.users) store

pub verify_challenge : (ℕ → ℕ) → VerifyCall → Store → Result ErrorCode Kind × Store
verify_challenge digest call store =
    verify_found digest call (get_verification_challenge call.challenge_id store.challenges) store

-- calls one after the other, whatever they answer
pub verify_all : (ℕ → ℕ) → List VerifyCall → Store → Store
verify_all digest [] store = store
verify_all digest (call ∷ calls) store =
    verify_all digest calls (verify_challenge digest call store).1
