-- ===== src/Verification/Ownership/Access.antt =====
-- The checks and the selection of evidence that the handlers of
-- backend/app/modules/verification/ownership_service.py share.
use wheelmatch.Base.{
  ℕ, Bool, true, false, not, ◌&&◌, ◌||◌, Option, none, some, List, map, ◌==◌, eq_option, ltb, find,
  is_some, is_none, Result, ok, err, ◌>>=◌, ◌>>◌, raise_if, or_raise,
}
use wheelmatch.Authorization.{inventory_manage, can_manage_owned_resource, is_active_user}
use wheelmatch.Identity.Users.{User, get_user_by_id}
use wheelmatch.Dealers.{get_organization, get_membership_for_user}
use wheelmatch.Dealers.Service.{context_of}
use wheelmatch.Listings.Drafts.{OwnerType, Listing}
use wheelmatch.Verification.State.{verified, eq_status}
use wheelmatch.Verification.Reuse.{
  OwnershipBasis, registered_owner, OwnershipReuseContext, OwnershipEvidence, OwnershipReusePolicy,
  OwnershipSelection, select,
}
use wheelmatch.Verification.Identity.{UserVerificationState, get_state}
use wheelmatch.Verification.Ownership.{CanonicalVehicle, OwnershipVerification, Store, ErrorCode}

-- a dealer's listing: never accepted, and shown only to who manages the inventory
authorize_dealer : User → Option ℕ → Store → Result ErrorCode Unit
authorize_dealer user none store = err ErrorCode.ownership_verification_not_found
authorize_dealer user (some organization_id) store = do
  organization ←
      or_raise (get_organization organization_id store.organizations)
        ErrorCode.ownership_verification_not_found
  membership ←
      or_raise (get_membership_for_user organization_id user.id store.memberships)
        ErrorCode.ownership_verification_not_found
  raise_if
      (not (
        can_manage_owned_resource
          (context_of
            (record { actor = user; organization = organization; membership = membership }))
          none (some organization_id) inventory_manage))
      ErrorCode.ownership_verification_not_found
  err ErrorCode.dealer_ownership_verification_unsupported

authorize_type : User → Listing → OwnerType → Store → Result ErrorCode Unit
unfolding authorize_dealer
authorize_type user listing OwnerType.dealer_organization store =
    authorize_dealer user listing.owner_organization_id store
authorize_type user listing OwnerType.user store =
    raise_if
      (not (eq_option listing.owner_user_id (some user.id))
        || is_some listing.owner_organization_id)
      ErrorCode.ownership_verification_not_found

-- `_authorize_listing`, with the listing that it has then been given
unfoldable pub authorize_listing : ℕ → Option Listing → Store → Result ErrorCode Listing
unfolding authorize_type
authorize_listing actor_user_id listing store = do
  user ←
      or_raise (get_user_by_id actor_user_id store.users) ErrorCode.ownership_verification_not_found
  raise_if (not (is_active_user user.status)) ErrorCode.ownership_verification_not_found
  row ← or_raise listing ErrorCode.ownership_verification_not_found
  authorize_type user row row.owner_type store
  ok row

-- `value is not None and value > now`
abbrev pub is_ahead : Option ℕ → ℕ → Bool
is_ahead none now = false
is_ahead (some t) now = ltb now t

-- `_identity_valid`
unfoldable pub identity_valid : ℕ → UserVerificationState → Bool
identity_valid now state =
    eq_status state.effective_status verified
    && (is_some state.verified_at && (is_ahead state.expires_at now && is_none state.revoked_at))

-- `_require_current_identity`
unfoldable pub require_current_identity : ℕ → ℕ → Store → Result ErrorCode UserVerificationState
unfolding identity_valid
require_current_identity now user_id store = do
  state ← or_raise (get_state user_id store.states) ErrorCode.current_identity_verification_required
  raise_if (not (identity_valid now state)) ErrorCode.current_identity_verification_required
  ok state

-- `_identity_stale`
abbrev pub identity_stale : OwnershipVerification → UserVerificationState → Bool
identity_stale attempt state =
    not (state.current_attempt_id == attempt.identity_verification_id)
    || not (state.version == attempt.identity_projection_version)

-- `_reuse_evidence`
abbrev pub reuse_evidence : OwnershipVerification → OwnershipEvidence
reuse_evidence attempt = record {
  attempt_id = attempt.id;
  listing_id = attempt.listing_id;
  attempt_number = attempt.attempt_number;
  owner_user_id = attempt.owner_user_id;
  canonical_vehicle_id = attempt.canonical_vehicle_id;
  identity_verification_id = attempt.identity_verification_id;
  identity_projection_version = attempt.identity_projection_version;
  vehicle_identity_version = attempt.vehicle_identity_version;
  hash_version = attempt.hash_version;
  ownership_basis = attempt.ownership_basis;
  material_fingerprint = attempt.material_fingerprint;
  provider_result_version = attempt.provider_result_version;
  status = attempt.status;
  verified_at = attempt.verified_at;
  expires_at = attempt.expires_at;
  revoked_at = attempt.revoked_at;
  superseded_at = attempt.superseded_at;
}

abbrev pub is_verified : OwnershipVerification → Bool
is_verified row = eq_status row.status verified

abbrev pub is_verified_for : ℕ → OwnershipVerification → Bool
is_verified_for listing_id row = row.listing_id == listing_id && is_verified row

-- `verified.ownership_basis if verified else "registered_owner"`
abbrev pub basis_or_registered : Option OwnershipVerification → OwnershipBasis
basis_or_registered none = registered_owner
basis_or_registered (some row) = row.ownership_basis

-- `current or next(…)`
abbrev pub or_else : {A : Type 0} → Option A → Option A → Option A
or_else none other = other
or_else (some a) other = some a

-- the basis of the listing's verified attempt, or of any
abbrev pub current_basis : ℕ → List OwnershipVerification → OwnershipBasis
current_basis listing_id attempts =
    basis_or_registered
      (or_else (find (is_verified_for listing_id) attempts) (find is_verified attempts))

abbrev pub preferred_basis : Option OwnershipBasis → ℕ → List OwnershipVerification → OwnershipBasis
preferred_basis (some basis) listing_id attempts = basis
preferred_basis none listing_id attempts = current_basis listing_id attempts

abbrev pub is_user_type : OwnerType → Bool
is_user_type OwnerType.user = true
is_user_type OwnerType.dealer_organization = false

-- the context that `_select_ownership` builds
abbrev pub reuse_context :
    ℕ → Listing → CanonicalVehicle → UserVerificationState → OwnershipBasis → OwnershipReuseContext
reuse_context now listing canonical state basis = record {
  now = now;
  owner_user_id = state.user_id;
  canonical_vehicle_id = canonical.id;
  identity_verification_id = state.current_attempt_id;
  identity_projection_version = state.version;
  vehicle_identity_version = canonical.identity_version;
  vehicle_hash_version = canonical.hash_version;
  vehicle_identity_active = canonical.identity_active;
  ownership_basis = basis;
  identity_verified = identity_valid now state;
  personal_listing =
      is_user_type listing.owner_type
      && (eq_option listing.owner_user_id (some state.user_id)
          && is_none listing.owner_organization_id);
}

-- `_select_ownership`
unfoldable pub select_ownership :
    OwnershipReusePolicy
    → ℕ
    → Listing
    → CanonicalVehicle
    → UserVerificationState
    → List OwnershipVerification
    → Option OwnershipBasis
    → OwnershipSelection
select_ownership policy now listing canonical state attempts basis =
    select policy
      (reuse_context now listing canonical state (preferred_basis basis listing.id attempts))
      (map reuse_evidence attempts) listing.id
