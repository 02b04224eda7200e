-- ===== src/Verification/Ownership/Claims.antt =====
-- What a claim of `_claim_attempt` is asked with and remembers, of
-- backend/app/modules/verification/ownership_service.py.
use wheelmatch.Base.{
  ℕ, suc, Bool, false, not, ◌&&◌, Option, none, some, List, ◌==◌, if◌then◌else◌, any,
}
use wheelmatch.Core.Events.{Event, eq_text, payload_is}
use wheelmatch.Core.Idempotency.{RequestKey, ownership_verification_start}
use wheelmatch.Listings.Drafts.{Listing, write_listing}
use wheelmatch.Verification.Reuse.{OwnershipBasis, OwnershipEvidence, OwnershipSelection}
use wheelmatch.Verification.Identity.{UserVerificationState}
use wheelmatch.Verification.Ownership.{
  CanonicalVehicle, OwnershipVerification, Store, write_ownership,
}
use wheelmatch.Verification.Ownership.Canonical.{KeyedVehicleIdentity}

-- what a fingerprint is taken of
pub record Material : Type 0 where
  pub canonical_vehicle_id : ℕ
  pub canonical_identity_version : ℕ
  pub owner_user_id : ℕ
  pub identity_attempt_id : ℕ
  pub identity_projection_version : ℕ
  pub jurisdiction : Option ℕ
  pub ownership_basis : OwnershipBasis
  pub registration_hmac : Option ℕ
  pub vin_hmac : Option ℕ
  pub chassis_hmac : Option ℕ
  pub provider_result_version : ℕ
  pub provider_material_attributes : List (ℕ × ℕ)

-- `_fingerprint`, before the digest
abbrev pub material_of : CanonicalVehicle → ℕ → ℕ → ℕ → OwnershipBasis → ℕ → List (ℕ × ℕ) → Material
material_of canonical owner identity version basis result_version attributes = record {
  canonical_vehicle_id = canonical.id;
  canonical_identity_version = canonical.identity_version;
  owner_user_id = owner;
  identity_attempt_id = identity;
  identity_projection_version = version;
  jurisdiction = canonical.jurisdiction;
  ownership_basis = basis;
  registration_hmac = canonical.registration_hmac;
  vin_hmac = canonical.vin_hmac;
  chassis_hmac = canonical.chassis_hmac;
  provider_result_version = result_version;
  provider_material_attributes = attributes;
}

-- What a claim was asked with: the time, the ids that would be drawn, and the request with its
-- keyed identifiers.
pub record ClaimCall : Type 0 where
  pub now : ℕ
  pub attempt_id : ℕ
  pub canonical_id : ℕ
  pub actor_user_id : ℕ
  pub listing_id : ℕ
  pub expected_listing_version : ℕ
  pub ownership_basis : OwnershipBasis
  pub keyed : KeyedVehicleIdentity
  pub idempotency_key : ℕ
  pub request_hash : ℕ

abbrev pub claim_key : ClaimCall → RequestKey
claim_key c = record {
  scope = c.actor_user_id;
  operation = ownership_verification_start c.listing_id;
  key = c.idempotency_key;
}

-- 24 hours, in microseconds
abbrev pub key_ttl : ℕ
key_ttl = 86400000000

-- `listing.canonical_vehicle_id not in {None, canonical.id}`
abbrev pub other_vehicle : Option ℕ → ℕ → Bool
other_vehicle none id = false
other_vehicle (some old) id = not (old == id)

-- the listing gets its vehicle, and a new version
abbrev pub associate : ℕ → Listing → Option ℕ → CanonicalVehicle → Store → Listing × Store
associate now listing (some old) canonical store = (listing, store)
associate now listing none canonical store =
    let next : Listing = record listing {
      canonical_vehicle_id = some canonical.id;
      version = suc listing.version;
      updated_at = now;
    } in
    (next, record store { listings = write_listing next store.listings })

-- `_reuse_recorded`
abbrev pub is_reuse_of : ℕ → ℕ → Event → Bool
is_reuse_of listing_id attempt_id event =
    eq_text event.event_type "ownership.verification.reused"
    && (event.aggregate_id == attempt_id && payload_is "listing_id" listing_id event.payload)

abbrev pub reuse_recorded : ℕ → ℕ → Store → Bool
reuse_recorded listing_id attempt_id store = any (is_reuse_of listing_id attempt_id) store.outbox

-- the evidence that serves
abbrev pub eligible_evidence : OwnershipSelection → Option OwnershipEvidence
eligible_evidence selection = if selection.decision.eligible then selection.evidence else none

abbrev pub supersede_latest :
    ℕ → Option OwnershipVerification → List OwnershipVerification → List OwnershipVerification
supersede_latest now none rows = rows
supersede_latest now (some latest) rows =
    write_ownership (record latest { superseded_at = some now }) rows

-- what the transaction knows after its checks
pub record Claimant : Type 0 where
  pub listing : Listing
  pub canonical : CanonicalVehicle
  pub state : UserVerificationState
