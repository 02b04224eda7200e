-- ===== src/Verification/Identity.antt =====
-- Identity verification of a user: the tables and lookups of backend/app/modules/verification,
-- models.py and repository.py, and the errors of service.py. Ids, times and texts are numbers; a
-- projection's `updated_at`, which the database stamps, is left out.
pub mod Results
pub mod Applying
pub mod Starting
pub mod History
pub mod Changes
pub mod Final
pub mod Versions
pub mod Projection
pub mod Evidence
pub mod Once
pub mod Opening
mod Tests
use wheelmatch.Base.{
  ℕ, suc, Bool, true, false, not, ◌&&◌, ◌||◌, Option, none, some, List, ◌==◌, eq_option, find, any,
  select_where, update_first, top, Result,
}
use wheelmatch.Identity.Users.{User}
use wheelmatch.Core.Events.{Event, AuditLog}
use wheelmatch.Core.Idempotency.{IdempotencyRecord}
use wheelmatch.Verification.State.{Status, one_of, active_statuses, Disposition}

-- an assurance level, one of `ASSURANCE_LEVELS` or another text
pub data AssuranceLevel : Type 0 where
  basic standard enhanced : AssuranceLevel
  other_level : ℕ → AssuranceLevel

-- a failure code, one of `_SAFE_FAILURE_CODES` or another text, of which 0 is the empty one
pub data FailureCode : Type 0 where
  identity_mismatch manual_review_required provider_rejected provider_unavailable
        quality_insufficient verification_failed :
      FailureCode
  other_code : ℕ → FailureCode

pub record IdentityVerification : Type 0 where
  pub id : ℕ
  pub user_id : ℕ
  pub attempt_number : ℕ
  pub provider_identifier : ℕ
  pub provider_reference : Option ℕ
  pub provider_result_event_id : Option ℕ
  pub status : Status
  pub assurance_level : Option AssuranceLevel
  pub safe_failure_code : Option FailureCode
  pub verified_at : Option ℕ
  pub expires_at : Option ℕ
  pub revoked_at : Option ℕ
  pub superseded_at : Option ℕ

pub record UserVerificationState : Type 0 where
  pub user_id : ℕ
  pub current_attempt_id : ℕ
  pub effective_status : Status
  pub assurance_level : Option AssuranceLevel
  pub verified_at : Option ℕ
  pub expires_at : Option ℕ
  pub revoked_at : Option ℕ
  pub version : ℕ
  pub safe_failure_code : Option FailureCode

-- The tables. The body that an idempotency key records is the id of an attempt.
pub record Store : Type 0 where
  pub users : List User
  pub attempts : List IdentityVerification
  pub states : List UserVerificationState
  pub idempotency : List (IdempotencyRecord ℕ)
  pub outbox : List Event
  pub audit : List AuditLog

-- `integrity_error` is the database's: a primary key or a unique constraint is violated.
pub data ErrorCode : Type 0 where
  idempotency_key_conflict idempotency_in_progress verification_not_found verification_in_review
        verification_attempt_closed verification_attempt_superseded
        verification_provider_unavailable verification_result_not_found verification_result_invalid
        verification_result_conflict integrity_error :
      ErrorCode

-- A raise inside the transaction rolls the store back, so an error carries none.
abbrev pub Outcome : Type 0 → Type 0
Outcome A = Result ErrorCode (A × Store)

abbrev pub get_attempt : ℕ → List IdentityVerification → Option IdentityVerification
get_attempt id = find (λ row. row.id == id)

abbrev pub has_reference : ℕ → ℕ → IdentityVerification → Bool
has_reference identifier reference row =
    row.provider_identifier == identifier && eq_option row.provider_reference (some reference)

abbrev pub get_by_provider_reference :
    ℕ → ℕ → List IdentityVerification → Option IdentityVerification
get_by_provider_reference identifier reference = find (has_reference identifier reference)

abbrev pub has_event : ℕ → ℕ → IdentityVerification → Bool
has_event identifier event row =
    row.provider_identifier == identifier && eq_option row.provider_result_event_id (some event)

abbrev pub get_by_result_event : ℕ → ℕ → List IdentityVerification → Option IdentityVerification
get_by_result_event identifier event = find (has_event identifier event)

abbrev pub is_active_for : ℕ → IdentityVerification → Bool
is_active_for user_id row = row.user_id == user_id && one_of active_statuses row.status

abbrev pub get_active_for_user : ℕ → List IdentityVerification → Option IdentityVerification
get_active_for_user user_id rows =
    top (λ row. row.attempt_number) (select_where (is_active_for user_id) rows)

abbrev pub get_latest_for_user : ℕ → List IdentityVerification → Option IdentityVerification
get_latest_for_user user_id rows =
    top (λ row. row.attempt_number) (select_where (λ row. row.user_id == user_id) rows)

-- `max(attempt_number) or 0`
abbrev pub number_of : Option IdentityVerification → ℕ
number_of none = 0
number_of (some row) = row.attempt_number

abbrev pub next_attempt_number : ℕ → List IdentityVerification → ℕ
next_attempt_number user_id rows = suc (number_of (get_latest_for_user user_id rows))

abbrev pub get_state : ℕ → List UserVerificationState → Option UserVerificationState
get_state user_id = find (λ row. row.user_id == user_id)

abbrev pub write_attempt :
    IdentityVerification → List IdentityVerification → List IdentityVerification
write_attempt attempt = update_first (λ row. row.id == attempt.id) (λ row. attempt)

abbrev pub write_state :
    UserVerificationState → List UserVerificationState → List UserVerificationState
write_state state = update_first (λ row. row.user_id == state.user_id) (λ row. state)

-- `ProviderResultApplyResponse`
pub record ApplyResponse : Type 0 where
  pub attempt_id : ℕ
  pub status : Status
  pub projection_version : ℕ
  pub disposition : Disposition
