-- ===== src/Verification/Ownership/Evidence.antt =====
-- What a claim without the provider rests on: stored evidence that is verified and current.
use mathlib.Core.List.{Mem}
use wheelmatch.Base.{◌⊎◌, ℕ, ◌≡◌, true, none, some, List, map}
use wheelmatch.Listings.Drafts.{Listing, get}
use wheelmatch.Verification.Reuse.{
  OwnershipReusePolicy, OwnershipEvidence, newer_conflicting, effective_expiry,
}
use wheelmatch.Verification.Reuse.Eligible.{IsEligible}
use wheelmatch.Verification.Identity.{get_state}
use wheelmatch.Verification.Ownership.{OwnershipClaim, Store, list_for_reuse}
use wheelmatch.Verification.Ownership.Access.{identity_valid, reuse_context, reuse_evidence}
use wheelmatch.Verification.Ownership.Canonical.{is_match}
use wheelmatch.Verification.Ownership.Claims.{Material, ClaimCall, Claimant}

module _ (policy : OwnershipReusePolicy) (identifier : ℕ) (fingerprint : Material → List ℕ)
    (c : ClaimCall) where
  -- An attempt of the claimant about the listing's vehicle, stored before the claim, that was
  -- eligible at the time of the claim, for the identity that the transaction had read. The vehicle
  -- is one that the request's identifiers match, and the stored listing has it or has none yet.
  pub record Proven (store : Store) (claim : OwnershipClaim) : Type 0 where
    pub known : Claimant
    pub asked : Listing
    pub listed : get c.listing_id store.listings ≡ some asked
    pub keeps :
        (asked.canonical_vehicle_id ≡ none) ⊎ (asked.canonical_vehicle_id ≡ some known.canonical.id)
    pub matched : is_match c.keyed known.canonical ≡ true
    pub listing :
        (known.listing.id ≡ asked.id)
        × (known.listing.owner_type ≡ asked.owner_type)
        × (known.listing.owner_user_id ≡ asked.owner_user_id)
        × (known.listing.owner_organization_id ≡ asked.owner_organization_id)
    pub evidence : OwnershipEvidence
    pub stored :
        Mem evidence
          (map reuse_evidence (list_for_reuse c.actor_user_id known.canonical.id store.attempts))
    pub vehicle : known.listing.canonical_vehicle_id ≡ some known.canonical.id
    pub attempt : claim.attempt_id ≡ evidence.attempt_id
    pub identity : get_state c.actor_user_id store.states ≡ some known.state
    pub valid : identity_valid c.now known.state ≡ true
    pub eligible :
        IsEligible
          (reuse_context c.now known.listing known.canonical known.state c.ownership_basis)
          evidence
          (newer_conflicting evidence
            (map reuse_evidence (list_for_reuse c.actor_user_id known.canonical.id store.attempts)))
          (effective_expiry policy evidence claim.reused)
