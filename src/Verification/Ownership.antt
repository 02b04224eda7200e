-- ===== src/Verification/Ownership.antt =====
-- Ownership verification of a vehicle: the tables and lookups of backend/app/modules/verification,
-- ownership_models.py and ownership_repository.py, and the errors of ownership_service.py. Ids,
-- times, texts and keyed hashes are numbers; a fingerprint is the list of its character codes.
pub mod Access
pub mod Canonical
pub mod Claims
pub mod Claiming
pub mod Validating
pub mod Finalizing
pub mod Applying
pub mod Starting
pub mod Opening
pub mod Evidence
pub mod Named
pub mod Current
pub mod Fresh
mod Tests
use wheelmatch.Base.{
  ℕ, suc, Bool, true, false, ◌&&◌, ◌||◌, Option, none, some, List, [], ◌∷◌, ◌==◌, eq_option,
  is_none, leb, if◌then◌else◌, find, any, select_where, update_first, top, Result,
}
use wheelmatch.Identity.Users.{User}
use wheelmatch.Dealers.{DealerOrganization, DealerMembership}
use wheelmatch.Core.Events.{Event, AuditLog}
use wheelmatch.Core.Idempotency.{IdempotencyRecord}
use wheelmatch.Listings.Drafts.{Listing, VehicleType}
use wheelmatch.Verification.State.{Status, one_of, active_statuses}
use wheelmatch.Verification.Reuse.{OwnershipBasis}
use wheelmatch.Verification.Identity.{UserVerificationState}

-- a failure code, one of `_SAFE_FAILURE_CODES` or another text, of which 0 is the empty one
pub data OwnershipFailure : Type 0 where
  manual_review_required ownership_mismatch provider_rejected provider_unavailable
        quality_insufficient verification_failed :
      OwnershipFailure
  other_failure : ℕ → OwnershipFailure

-- Of `identity_status` the services ask only whether it is `active`.
pub record CanonicalVehicle : Type 0 where
  pub id : ℕ
  pub vehicle_type : VehicleType
  pub jurisdiction : Option ℕ
  pub registration_hmac : Option ℕ
  pub vin_hmac : Option ℕ
  pub chassis_hmac : Option ℕ
  pub hash_version : ℕ
  pub identity_version : ℕ
  pub identity_active : Bool

pub record OwnershipVerification : Type 0 where
  pub id : ℕ
  pub listing_id : ℕ
  pub owner_user_id : ℕ
  pub canonical_vehicle_id : ℕ
  pub attempt_number : ℕ
  pub identity_verification_id : ℕ
  pub identity_projection_version : ℕ
  pub vehicle_identity_version : ℕ
  pub hash_version : ℕ
  pub jurisdiction : ℕ
  pub ownership_basis : OwnershipBasis
  pub material_fingerprint : List ℕ
  pub provider_identifier : ℕ
  pub provider_reference : Option ℕ
  pub provider_result_event_id : Option ℕ
  pub provider_result_version : Option ℕ
  pub status : Status
  pub safe_failure_code : Option OwnershipFailure
  pub verified_at : Option ℕ
  pub expires_at : Option ℕ
  pub revoked_at : Option ℕ
  pub superseded_at : Option ℕ

-- `OwnershipClaim`, also the body that an idempotency key records
pub record OwnershipClaim : Type 0 where
  pub attempt_id : ℕ
  pub reused : Bool
  pub provider_required : Bool

pub record Store : Type 0 where
  pub users : List User
  pub organizations : List DealerOrganization
  pub memberships : List DealerMembership
  pub listings : List Listing
  pub states : List UserVerificationState
  pub canonicals : List CanonicalVehicle
  pub attempts : List OwnershipVerification
  pub idempotency : List (IdempotencyRecord OwnershipClaim)
  pub outbox : List Event
  pub audit : List AuditLog

-- `integrity_error` is the database's, and `stop_iteration` that of a `next` that finds nothing.
pub data ErrorCode : Type 0 where
  idempotency_key_conflict idempotency_in_progress ownership_verification_not_found
        dealer_ownership_verification_unsupported listing_not_active listing_version_conflict
        current_identity_verification_required vehicle_identity_conflict
        vehicle_identity_unavailable vehicle_identity_invalid ownership_verification_in_review
        ownership_verification_closed ownership_verification_provider_unavailable
        ownership_result_not_found ownership_result_invalid ownership_result_conflict
        integrity_error stop_iteration :
      ErrorCode

-- A raise inside the transaction rolls the store back, so an error carries none.
abbrev pub Outcome : Type 0 → Type 0
Outcome A = Result ErrorCode (A × Store)

abbrev pub get_canonical : ℕ → List CanonicalVehicle → Option CanonicalVehicle
get_canonical id = find (λ row. row.id == id)

abbrev pub write_canonical : CanonicalVehicle → List CanonicalVehicle → List CanonicalVehicle
write_canonical canonical = update_first (λ row. row.id == canonical.id) (λ row. canonical)

abbrev pub get_ownership : ℕ → List OwnershipVerification → Option OwnershipVerification
get_ownership id = find (λ row. row.id == id)

abbrev pub write_ownership :
    OwnershipVerification → List OwnershipVerification → List OwnershipVerification
write_ownership attempt = update_first (λ row. row.id == attempt.id) (λ row. attempt)

abbrev pub has_ownership_reference : ℕ → ℕ → OwnershipVerification → Bool
has_ownership_reference identifier reference row =
    row.provider_identifier == identifier && eq_option row.provider_reference (some reference)

abbrev pub has_ownership_event : ℕ → ℕ → OwnershipVerification → Bool
has_ownership_event identifier event row =
    row.provider_identifier == identifier && eq_option row.provider_result_event_id (some event)

abbrev pub is_about : ℕ → ℕ → OwnershipVerification → Bool
is_about owner_user_id canonical_vehicle_id row =
    row.owner_user_id == owner_user_id && row.canonical_vehicle_id == canonical_vehicle_id

abbrev pub is_unresolved : ℕ → ℕ → OwnershipVerification → Bool
is_unresolved owner_user_id canonical_vehicle_id row =
    is_about owner_user_id canonical_vehicle_id row
    && (one_of active_statuses row.status && is_none row.superseded_at)

abbrev pub get_active : ℕ → ℕ → List OwnershipVerification → Option OwnershipVerification
get_active owner_user_id canonical_vehicle_id rows =
    top (λ row. row.attempt_number)
      (select_where (is_unresolved owner_user_id canonical_vehicle_id) rows)

abbrev pub get_latest : ℕ → ℕ → List OwnershipVerification → Option OwnershipVerification
get_latest owner_user_id canonical_vehicle_id rows =
    top (λ row. row.attempt_number)
      (select_where (is_about owner_user_id canonical_vehicle_id) rows)

abbrev pub ownership_number : Option OwnershipVerification → ℕ
ownership_number none = 0
ownership_number (some row) = row.attempt_number

abbrev pub next_ownership_number : ℕ → ℕ → List OwnershipVerification → ℕ
next_ownership_number owner_user_id canonical_vehicle_id rows =
    suc (ownership_number (get_latest owner_user_id canonical_vehicle_id rows))

-- `ORDER BY attempt_number DESC`
abbrev pub insert_by_number :
    OwnershipVerification → List OwnershipVerification → List OwnershipVerification
insert_by_number row [] = row ∷ []
insert_by_number row (x ∷ xs) =
    let rest = insert_by_number row xs in
    if leb x.attempt_number row.attempt_number then row ∷ x ∷ xs else x ∷ rest

abbrev pub by_number : List OwnershipVerification → List OwnershipVerification
by_number [] = []
by_number (row ∷ rows) = insert_by_number row (by_number rows)

abbrev pub list_for_reuse : ℕ → ℕ → List OwnershipVerification → List OwnershipVerification
list_for_reuse owner_user_id canonical_vehicle_id rows =
    by_number (select_where (is_about owner_user_id canonical_vehicle_id) rows)
