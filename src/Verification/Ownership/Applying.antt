-- ===== src/Verification/Ownership/Applying.antt =====
-- `apply_provider_result` of backend/app/modules/verification/ownership_service.py.
use wheelmatch.Base.{
  ℕ, Bool, true, not, ◌&&◌, ◌||◌, Option, none, some, List, ◌==◌, eq_option, is_some, or_default,
  if◌then◌else◌, Result, ok, err, ◌>>=◌, ◌>>◌, or_raise, find,
}
use wheelmatch.Authorization.{is_active_user}
use wheelmatch.Identity.Users.{User, get_user_by_id}
use wheelmatch.Listings.Drafts.{Listing, get}
use wheelmatch.Verification.State.{
  Status, Disposition, stale, duplicate, applied, StateError, ownership_result_disposition,
  require_transition,
}
use wheelmatch.Verification.Identity.{UserVerificationState, get_state}
use wheelmatch.Verification.Ownership.{
  CanonicalVehicle, OwnershipVerification, Store, Outcome, ErrorCode, get_canonical,
  write_ownership, has_ownership_reference, has_ownership_event,
}
use wheelmatch.Verification.Ownership.Access.{identity_valid, identity_stale}
use wheelmatch.Verification.Ownership.Claims.{Material, material_of}
use wheelmatch.Verification.Ownership.Validating.{
  OwnershipProviderResult, expected_failure, ownership_matches, validate_ownership_result,
  when_verified,
}
use wheelmatch.Verification.Ownership.Finalizing.{finalize_ownership}

abbrev pub no_active_user : Option User → Bool
no_active_user none = true
no_active_user (some user) = not (is_active_user user.status)

abbrev pub no_current_identity : ℕ → OwnershipVerification → Option UserVerificationState → Bool
no_current_identity now attempt none = true
no_current_identity now attempt (some state) =
    not (identity_valid now state) || identity_stale attempt state

abbrev pub listing_moved : OwnershipVerification → Option Listing → Bool
listing_moved attempt none = true
listing_moved attempt (some listing) =
    not (eq_option listing.owner_user_id (some attempt.owner_user_id))
    || is_some listing.owner_organization_id
    || not (eq_option listing.canonical_vehicle_id (some attempt.canonical_vehicle_id))

abbrev pub vehicle_changed : OwnershipVerification → Option CanonicalVehicle → Bool
vehicle_changed attempt none = true
vehicle_changed attempt (some canonical) =
    not (canonical.identity_version == attempt.vehicle_identity_version)

-- the condition `stale` of `apply_provider_result`
unfoldable pub is_stale : ℕ → OwnershipVerification → Store → Bool
is_stale now attempt store =
    is_some attempt.superseded_at
    || no_active_user (get_user_by_id attempt.owner_user_id store.users)
    || no_current_identity now attempt (get_state attempt.owner_user_id store.states)
    || listing_moved attempt (get attempt.listing_id store.listings)
    || vehicle_changed attempt (get_canonical attempt.canonical_vehicle_id store.canonicals)

pub record OwnershipResponse : Type 0 where
  pub attempt_id : ℕ
  pub status : Status
  pub disposition : Disposition

abbrev pub ownership_response : OwnershipVerification → Disposition → OwnershipResponse
ownership_response attempt disposition = record {
  attempt_id = attempt.id;
  status = attempt.status;
  disposition = disposition;
}

-- `except ValueError: raise conflict`
abbrev pub or_ownership_conflict : {A : Type 0} → Result StateError A → Result ErrorCode A
or_ownership_conflict (ok a) = ok a
or_ownership_conflict (err e) = err ErrorCode.ownership_result_conflict

module _ (fingerprint : Material → List ℕ) where
  -- `_apply_result`
  unfoldable pub apply_ownership_result :
      OwnershipVerification → OwnershipProviderResult → CanonicalVehicle → OwnershipVerification
  apply_ownership_result attempt result canonical = record attempt {
    provider_result_event_id = some result.event_id;
    provider_result_version = some result.result_version;
    status = result.status;
    verified_at = when_verified result result.verified_at;
    expires_at = when_verified result result.expires_at;
    revoked_at = none;
    safe_failure_code = expected_failure result result.status;
    material_fingerprint = fingerprint (
        material_of canonical attempt.owner_user_id attempt.identity_verification_id
          attempt.identity_projection_version attempt.ownership_basis result.result_version
          result.material_attributes);
  }

  -- by the disposition of a result whose event is new
  unfoldable pub dispose_ownership :
      ℕ
      → OwnershipProviderResult
      → OwnershipVerification
      → Store
      → Disposition
      → Outcome OwnershipResponse
  unfolding apply_ownership_result finalize_ownership
  dispose_ownership now result attempt store stale = ok (
    ownership_response attempt stale,
    record store {
      attempts =
          write_ownership (record attempt { superseded_at = or_default attempt.superseded_at now })
            store.attempts;
    },
  )
  dispose_ownership now result attempt store duplicate =
      ok (ownership_response attempt duplicate, store)
  dispose_ownership now result attempt store applied = do
    canonical ←
        or_raise (get_canonical attempt.canonical_vehicle_id store.canonicals)
          ErrorCode.ownership_result_not_found
    or_ownership_conflict (require_transition attempt.status result.status)
    let next = apply_ownership_result attempt result canonical
    ok (ownership_response next applied, finalize_ownership next store)

  unfoldable pub deliver_ownership :
      ℕ
      → OwnershipProviderResult
      → OwnershipVerification
      → Option OwnershipVerification
      → Store
      → Outcome OwnershipResponse
  unfolding dispose_ownership is_stale ownership_matches
  deliver_ownership now result attempt (some existing) store =
      if (existing.id == attempt.id) && ownership_matches attempt result
      then ok (ownership_response attempt duplicate, store)
      else err ErrorCode.ownership_result_conflict
  deliver_ownership now result attempt none store = do
    disposition ← or_ownership_conflict (
        ownership_result_disposition
          (record {
            attempt_status = attempt.status;
            attempt_event_id = attempt.provider_result_event_id;
            result_event_id = result.event_id;
            result_matches = ownership_matches attempt result;
          })
          (is_stale now attempt store))
    dispose_ownership now result attempt store disposition

  unfoldable pub apply_ownership :
      (ℕ → ℕ) → ℕ → ℕ → OwnershipProviderResult → Store → Outcome OwnershipResponse
  unfolding validate_ownership_result deliver_ownership
  apply_ownership len identifier now result store = do
    validate_ownership_result len result
    attempt ←
        or_raise
          (find (has_ownership_reference identifier result.provider_reference) store.attempts)
          ErrorCode.ownership_result_not_found
    deliver_ownership now result attempt
        (find (has_ownership_event identifier result.event_id) store.attempts) store
