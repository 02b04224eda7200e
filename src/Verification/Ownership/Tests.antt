-- ===== src/Verification/Ownership/Tests.antt =====
-- A verified attempt that a second start reuses, and a result that is delivered twice.
use wheelmatch.Base.{Result, ℕ, zero, suc, ◌≡◌, refl, true, false, none, some, List, [], ◌∷◌, ok}
use wheelmatch.Authorization.{UserStatus}
use wheelmatch.Core.Idempotency.{reserve, complete}
use wheelmatch.Identity.Users.{User}
use wheelmatch.Listings.Drafts.{
  OwnerType, VehicleType, draft, PublicationStatus, ModerationStatus, Listing,
}
use wheelmatch.Verification.State.{
  ProviderError, verified, pending, applied, duplicate, ownership_result_disposition,
  require_transition, transition_allowed,
}
use wheelmatch.Verification.Reuse.{
  registered_owner, OwnershipReusePolicy, select, evaluate, refusal, mismatch, effective_expiry,
  newer_conflicting, newest_first, fingerprint_valid,
}
use wheelmatch.Verification.Identity.{standard, UserVerificationState}
use wheelmatch.Verification.Ownership.{
  CanonicalVehicle, OwnershipVerification, OwnershipClaim, Store,
}
use wheelmatch.Verification.Ownership.Access.{
  authorize_listing, identity_valid, require_current_identity, select_ownership,
}
use wheelmatch.Verification.Ownership.Canonical.{resolve_canonical, resolve_matches}
use wheelmatch.Verification.Ownership.Claims.{Material, ClaimCall}
use wheelmatch.Verification.Ownership.Claiming.{claim_acquired, decide_claim, record_reuse}
use wheelmatch.Verification.Ownership.Validating.{
  OwnershipProviderResult, validate_ownership_result, ownership_matches,
}
use wheelmatch.Verification.Ownership.Finalizing.{finalize_ownership, record_ownership}
use wheelmatch.Verification.Ownership.Applying.{
  is_stale, OwnershipResponse, apply_ownership_result, dispose_ownership, deliver_ownership,
  apply_ownership,
}
use wheelmatch.Core.Idempotency.Once.{once}
use wheelmatch.Verification.Ownership.Claiming.{claim_ownership, open_ownership}
use wheelmatch.Verification.Ownership.Finalizing.{
  finalize_ownership_session, open_ownership_session,
}
use wheelmatch.Verification.Ownership.Starting.{
  StartResponse, start_ownership, read_claimed, continue_start, answer_start,
}
use wheelmatch.Verification.Ownership.Opening.{Answered, start_ownership-Answered}
use wheelmatch.Verification.Ownership.Fresh.{
  Applied, apply_ownership-Applied, apply_ownership-redelivered,
}

abbrev repeat : ℕ → List ℕ
repeat zero = []
repeat (suc n) = b'a' ∷ repeat n

abbrev print : Material → List ℕ
print material = repeat 64

abbrev policy : OwnershipReusePolicy
policy = record { freshness_days = 180; policy_version = 1 }

abbrev owner : User
owner = record {
  id = 1;
  normalized_email = 5;
  password_hash = 6;
  status = UserStatus.active;
  email_verified_at = some 1;
  phone_verified_at = some 1;
  password_changed_at = 1;
  failed_login_attempts = 0;
  login_locked_until = none;
  authorization_version = 1;
  deleted_at = none;
}

abbrev car_listing : Listing
car_listing = record {
  id = 70;
  owner_type = OwnerType.user;
  owner_user_id = some 1;
  owner_organization_id = none;
  created_by_user_id = 1;
  vehicle_type = VehicleType.car;
  variant_id = none;
  canonical_vehicle_id = some 50;
  lifecycle_status = draft;
  publication_status = PublicationStatus.private;
  moderation_status = ModerationStatus.not_started;
  submitted_listing_version = none;
  submitted_at = none;
  title = none;
  description = none;
  asking_price = none;
  currency = 1;
  version = 3;
  created_at = 10;
  updated_at = 10;
}

abbrev identity : UserVerificationState
identity = record {
  user_id = 1;
  current_attempt_id = 40;
  effective_status = verified;
  assurance_level = some standard;
  verified_at = some 200;
  expires_at = some 9000;
  revoked_at = none;
  version = 3;
  safe_failure_code = none;
}

abbrev vehicle : CanonicalVehicle
vehicle = record {
  id = 50;
  vehicle_type = VehicleType.car;
  jurisdiction = some 7;
  registration_hmac = some 8;
  vin_hmac = none;
  chassis_hmac = none;
  hash_version = 1;
  identity_version = 1;
  identity_active = true;
}

abbrev waiting : OwnershipVerification
waiting = record {
  id = 60;
  listing_id = 70;
  owner_user_id = 1;
  canonical_vehicle_id = 50;
  attempt_number = 1;
  identity_verification_id = 40;
  identity_projection_version = 3;
  vehicle_identity_version = 1;
  hash_version = 1;
  jurisdiction = 7;
  ownership_basis = registered_owner;
  material_fingerprint = repeat 64;
  provider_identifier = 2;
  provider_reference = some 500;
  provider_result_event_id = none;
  provider_result_version = none;
  status = pending;
  safe_failure_code = none;
  verified_at = none;
  expires_at = none;
  revoked_at = none;
  superseded_at = none;
}

abbrev proven : OwnershipVerification
proven = record waiting {
  provider_result_event_id = some 600;
  provider_result_version = some 1;
  status = verified;
  verified_at = some 1000;
  expires_at = some 8000;
}

abbrev store_of : OwnershipVerification → Store
store_of attempt = record {
  users = owner ∷ [];
  organizations = [];
  memberships = [];
  listings = car_listing ∷ [];
  states = identity ∷ [];
  canonicals = vehicle ∷ [];
  attempts = attempt ∷ [];
  idempotency = [];
  outbox = [];
  audit = [];
}

abbrev again : ClaimCall
again = record {
  now = 2000;
  attempt_id = 61;
  canonical_id = 51;
  actor_user_id = 1;
  listing_id = 70;
  expected_listing_version = 3;
  ownership_basis = registered_owner;
  keyed = record {
    jurisdiction = 7;
    registration_hmac = 8;
    vin_hmac = none;
    chassis_hmac = none;
    hash_version = 1;
  };
  idempotency_key = 9;
  request_hash = 77;
}

abbrev kept : OwnershipClaim
kept = record { attempt_id = 60; reused = false; provider_required = false }

-- what the claim of the verified attempt leaves
abbrev claimed_store : Store
claimed_store = store_of proven

abbrev ten : ℕ → ℕ
ten text = 10

abbrev good : OwnershipProviderResult
good = record {
  provider_reference = 500;
  event_id = 600;
  status = verified;
  result_version = 1;
  verified_at = some 1000;
  expires_at = some 8000;
  safe_failure_code = none;
  material_attributes = [];
}

abbrev answer : OwnershipResponse
answer = record { attempt_id = 60; status = verified; disposition = applied }

abbrev answered_store : Store
answered_store = finalize_ownership proven (store_of waiting)

answers : apply_ownership print ten 2 1500 good (store_of waiting) ≡ ok (answer, answered_store)
unfolding apply_ownership validate_ownership_result deliver_ownership dispose_ownership
    apply_ownership_result finalize_ownership record_ownership ownership_matches is_stale
    identity_valid ownership_result_disposition require_transition transition_allowed
answers = refl

apply_ownership-Applied_example :
    Applied print ten 2 1500 good (store_of waiting) answered_store answer
apply_ownership-Applied_example =
    apply_ownership-Applied print ten 2 1500 good (store_of waiting) answered_store answer answers
      refl

apply_ownership-redelivered_example :
    apply_ownership print ten 2 9500 good answered_store
    ≡ ok (record answer { disposition = duplicate }, answered_store)
apply_ownership-redelivered_example =
    apply_ownership-redelivered print ten 2 1500 good 9500 (store_of waiting) answered_store answer
      answers refl

abbrev asked : ℕ → ℕ → Result ProviderError ℕ
asked attempt_id user_id = ok 500

abbrev opened : StartResponse
opened = record {
  attempt_id = 60;
  canonical_vehicle_id = 50;
  listing_version = 3;
  status = pending;
  ownership_basis = registered_owner;
  reused = false;
}

starts :
    (start_ownership policy 2 print asked (λ store. store) again (store_of waiting)).0 ≡ ok opened
unfolding start_ownership claim_ownership once reserve claim_acquired decide_claim record_reuse
    authorize_listing identity_valid require_current_identity select_ownership resolve_canonical
    resolve_matches select evaluate refusal mismatch effective_expiry newer_conflicting newest_first
    fingerprint_valid complete open_ownership finalize_ownership_session open_ownership_session
    read_claimed continue_start answer_start
starts = refl

start_ownership-Answered_example :
    Answered
      (claim_ownership policy 2 print again (store_of waiting))
      (λ id. asked id 1)
      opened
      (start_ownership policy 2 print asked (λ store. store) again (store_of waiting)).1
start_ownership-Answered_example =
    start_ownership-Answered policy 2 print asked (λ store. store) again (store_of waiting) opened
      starts
