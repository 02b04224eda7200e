-- ===== src/Verification/Ownership/Claiming.antt =====
-- `_claim_attempt` and `_new_attempt` of backend/app/modules/verification/ownership_service.py.
-- `fingerprint` is the keyed digest of an attempt's material.
use Prim.Native.String.{String}
use wheelmatch.Base.{
  ℕ, ◌+◌, Bool, true, false, not, ◌&&◌, Option, none, some, List, [], ◌∷◌, ◌==◌, if◌then◌else◌,
  find, any, ok, err, ◌>>=◌, ◌>>◌, raise_if, or_raise,
}
use wheelmatch.Core.Events.{Value, add}
use wheelmatch.Core.Idempotency.{IdempotencyRecord, reserve, complete}
use wheelmatch.Core.Idempotency.Once.{once}
use wheelmatch.Listings.Drafts.{get}
use wheelmatch.Listings.Drafts.Updating.{is_draft}
use wheelmatch.Verification.State.{session_pending}
use wheelmatch.Verification.Reuse.{OwnershipEvidence, OwnershipReusePolicy, OwnershipSelection}
use wheelmatch.Verification.Ownership.{
  OwnershipVerification, OwnershipClaim, Store, Outcome, ErrorCode, write_ownership, get_active,
  get_latest, next_ownership_number, list_for_reuse,
}
use wheelmatch.Verification.Ownership.Access.{
  authorize_listing, require_current_identity, identity_stale, select_ownership,
}
use wheelmatch.Verification.Ownership.Canonical.{resolve_canonical}
use wheelmatch.Verification.Ownership.Claims.{
  ClaimCall, Claimant, Material, associate, claim_key, eligible_evidence, key_ttl, material_of,
  other_vehicle, reuse_recorded, supersede_latest,
}

module _ (policy : OwnershipReusePolicy) (identifier : ℕ) (fingerprint : Material → List ℕ) where
  abbrev pub reuse_changes : Claimant → OwnershipVerification → List (String × Value)
  reuse_changes k attempt =
      ("listing_id", Value.uuid k.listing.id)
      ∷ ("listing_version", Value.number k.listing.version)
      ∷ ("ownership_verification_id", Value.uuid attempt.id)
      ∷ ("canonical_vehicle_id", Value.uuid k.canonical.id)
      ∷ ("identity_projection_version", Value.number k.state.version)
      ∷ ("vehicle_identity_version", Value.number k.canonical.identity_version)
      ∷ ("reuse_policy_version", Value.number policy.policy_version)
      ∷ ("result", Value.text "reused")
      ∷ []

  -- `_record_reuse`
  unfoldable pub record_reuse : ℕ → Claimant → OwnershipVerification → Store → Store
  record_reuse actor_user_id k attempt store = record store {
    audit =
        add
          (record {
            action = "ownership.verification.reused";
            outcome = "success";
            reason_code = none;
            resource_type = "vehicle_ownership_verification";
            actor_user_id = some actor_user_id;
            resource_id = some attempt.id;
            organization_id = none;
            membership_id = none;
            changes = reuse_changes k attempt;
          })
          store.audit;
    outbox =
        add
          (record {
            event_type = "ownership.verification.reused";
            aggregate_type = "vehicle_ownership_verification";
            aggregate_id = attempt.id;
            payload = reuse_changes k attempt;
          })
          store.outbox;
  }

  abbrev pub fresh_ownership : ClaimCall → Claimant → ℕ → ℕ → OwnershipVerification
  fresh_ownership c k owner number = record {
    id = c.attempt_id;
    listing_id = k.listing.id;
    owner_user_id = owner;
    canonical_vehicle_id = k.canonical.id;
    attempt_number = number;
    identity_verification_id = k.state.current_attempt_id;
    identity_projection_version = k.state.version;
    vehicle_identity_version = k.canonical.identity_version;
    hash_version = k.canonical.hash_version;
    jurisdiction = c.keyed.jurisdiction;
    ownership_basis = c.ownership_basis;
    material_fingerprint = fingerprint (
        material_of k.canonical owner k.state.current_attempt_id k.state.version c.ownership_basis 0
          []);
    provider_identifier = identifier;
    provider_reference = none;
    provider_result_event_id = none;
    provider_result_version = none;
    status = session_pending;
    safe_failure_code = none;
    verified_at = none;
    expires_at = none;
    revoked_at = none;
    superseded_at = none;
  }

  -- `_new_attempt`, by the listing's owner
  unfoldable pub new_ownership : ClaimCall → Claimant → Option ℕ → Store → Outcome ℕ
  new_ownership c k none store = err ErrorCode.ownership_verification_not_found
  new_ownership c k (some owner) store = do
    raise_if (any (λ row. row.id == c.attempt_id) store.attempts) ErrorCode.integrity_error
    ok (
      c.attempt_id,
      record store {
        attempts =
            add
              (fresh_ownership c k owner
                (next_ownership_number owner k.canonical.id store.attempts))
              (supersede_latest c.now (get_latest owner k.canonical.id store.attempts)
                store.attempts);
      },
    )

  -- the active attempt, if it still is about the current identity, or a new one
  unfoldable pub open_ownership :
      ClaimCall → Claimant → Option OwnershipVerification → Store → Outcome ℕ
  unfolding new_ownership
  open_ownership c k none store = new_ownership c k k.listing.owner_user_id store
  open_ownership c k (some active) store =
      if identity_stale active k.state
      then new_ownership c k k.listing.owner_user_id (record store {
        attempts = write_ownership (record active { superseded_at = some c.now }) store.attempts;
      })
      else ok (active.id, store)

  abbrev pub complete_claim :
      ClaimCall
      → OwnershipClaim
      → List (IdempotencyRecord OwnershipClaim)
      → Store
      → OwnershipClaim × Store
  complete_claim c claim rows store =
      (claim, record store { idempotency = complete (claim_key c) 201 claim rows })

  -- by the evidence that serves, if any does
  unfoldable pub decide_claim :
      ClaimCall
      → Claimant
      → Bool
      → Option OwnershipEvidence
      → List (IdempotencyRecord OwnershipClaim)
      → Store
      → Outcome OwnershipClaim
  unfolding open_ownership record_reuse
  decide_claim c k reused (some evidence) rows store = do
    selected ←
        or_raise
          (find (λ row. row.id == evidence.attempt_id)
            (list_for_reuse c.actor_user_id k.canonical.id store.attempts))
          ErrorCode.stop_iteration
    ok (
        complete_claim c
          (record { attempt_id = selected.id; reused = reused; provider_required = false }) rows
          (if reused && not (reuse_recorded k.listing.id selected.id store)
            then record_reuse c.actor_user_id k selected store
            else store))
  decide_claim c k reused none rows store = do
    opened ← open_ownership c k (get_active c.actor_user_id k.canonical.id store.attempts) store
    ok (
        complete_claim c
          (record { attempt_id = opened.0; reused = false; provider_required = true }) rows
          opened.1)

  abbrev pub selection_of : ClaimCall → Claimant → Store → OwnershipSelection
  selection_of c k store =
      select_ownership policy c.now k.listing k.canonical k.state
        (list_for_reuse c.actor_user_id k.canonical.id store.attempts) (some c.ownership_basis)

  unfoldable pub claim_acquired :
      ClaimCall → List (IdempotencyRecord OwnershipClaim) → Store → Outcome OwnershipClaim
  unfolding decide_claim
  claim_acquired c rows store = do
    listing ← authorize_listing c.actor_user_id (get c.listing_id store.listings) store
    raise_if (not (is_draft listing.lifecycle_status)) ErrorCode.listing_not_active
    raise_if (not (listing.version == c.expected_listing_version))
        ErrorCode.listing_version_conflict
    state ← require_current_identity c.now c.actor_user_id store
    resolved ← resolve_canonical c.canonical_id listing c.keyed store
    raise_if (other_vehicle listing.canonical_vehicle_id resolved.0.id)
        ErrorCode.vehicle_identity_conflict
    let associated = associate c.now listing listing.canonical_vehicle_id resolved.0 resolved.1
    let k : Claimant = record { listing = associated.0; canonical = resolved.0; state = state }
    let selection = selection_of c k associated.1
    decide_claim c k selection.decision.reused (eligible_evidence selection) rows associated.1

  unfoldable pub claim_ownership : ClaimCall → Store → Outcome OwnershipClaim
  unfolding claim_acquired
  claim_ownership c store =
      once ErrorCode.idempotency_key_conflict ErrorCode.idempotency_in_progress
        (λ claim. ok (claim, store)) (λ rows. claim_acquired c rows store)
        (reserve (claim_key c) c.request_hash (c.now + key_ttl) store.idempotency)
