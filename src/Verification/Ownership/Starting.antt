-- ===== src/Verification/Ownership/Starting.antt =====
-- `start` and `status` of backend/app/modules/verification/ownership_service.py. The normalizer of
-- identifiers is asked before, and `keyed` is what it answered with their keyed hashes.
use wheelmatch.Base.{
  ℕ, Bool, false, not, Option, none, some, List, ◌==◌, if◌then◌else◌, find, Result, ok, err, ◌>>=◌,
  ◌>>◌, raise_if, or_raise,
}
use wheelmatch.Listings.Drafts.{Listing, get}
use wheelmatch.Verification.State.{
  Status, verified, pending, manual_review, eq_status, one_of, terminal_statuses, ProviderError,
  SafeFailureCode, provider_temporary, classify_provider_failure,
}
use wheelmatch.Verification.Reuse.{OwnershipReusePolicy, OwnershipBasis, OwnershipEvidence}
use wheelmatch.Verification.Identity.{UserVerificationState}
use wheelmatch.Verification.Ownership.{
  OwnershipFailure, provider_unavailable, other_failure, OwnershipVerification, OwnershipClaim,
  Store, ErrorCode, get_canonical, get_ownership, list_for_reuse,
}
use wheelmatch.Verification.Ownership.Access.{
  authorize_listing, require_current_identity, identity_stale, select_ownership,
}
use wheelmatch.Verification.Ownership.Canonical.{KeyedVehicleIdentity}
use wheelmatch.Verification.Ownership.Claims.{Material, ClaimCall, eligible_evidence}
use wheelmatch.Verification.Ownership.Claiming.{claim_ownership}
use wheelmatch.Verification.Ownership.Finalizing.{
  finalize_ownership_session, finalize_ownership_failure,
}

-- how the normalizer fails
pub data NormalizerError : Type 0 where
  unavailable invalid : NormalizerError

-- `_normalize_and_key`
abbrev pub normalize_and_key :
    Result NormalizerError KeyedVehicleIdentity → Result ErrorCode KeyedVehicleIdentity
normalize_and_key (ok keyed) = ok keyed
normalize_and_key (err NormalizerError.unavailable) = err ErrorCode.vehicle_identity_unavailable
normalize_and_key (err NormalizerError.invalid) = err ErrorCode.vehicle_identity_invalid

pub record StartResponse : Type 0 where
  pub attempt_id : ℕ
  pub canonical_vehicle_id : ℕ
  pub listing_version : ℕ
  pub status : Status
  pub ownership_basis : OwnershipBasis
  pub reused : Bool

-- the attempt and the listing that the start reads between its transactions
unfoldable pub read_claimed :
    ℕ → ℕ → OwnershipClaim → Store → Result ErrorCode (OwnershipVerification × Listing)
read_claimed actor_user_id listing_id claim store = do
  attempt ←
      or_raise (get_ownership claim.attempt_id store.attempts)
        ErrorCode.ownership_verification_not_found
  listing ← or_raise (get listing_id store.listings) ErrorCode.ownership_verification_not_found
  raise_if (not (attempt.owner_user_id == actor_user_id)) ErrorCode.ownership_verification_not_found
  ok (attempt, listing)

abbrev pub ownership_failure : SafeFailureCode → OwnershipFailure
ownership_failure SafeFailureCode.provider_unavailable = provider_unavailable
ownership_failure provider_temporary = other_failure 1

-- the answer to the caller, after the provider's
unfoldable pub answer_start :
    ℕ
    → OwnershipVerification
    → Result ProviderError ℕ
    → Store
    → Result ErrorCode StartResponse × Store
answer_start listing_id attempt (err e) store =
    let classification = classify_provider_failure e in
    (
      err ErrorCode.ownership_verification_provider_unavailable,
      if not classification.retryable
          then finalize_ownership_failure attempt.id
              (ownership_failure classification.safe_failure_code) store
          else store,
    )
answer_start listing_id attempt (ok reference) store =
    elim (finalize_ownership_session attempt.id reference store) [
      | err e ↦ (err e, store)
      | ok next ↦ (
        or_raise (get listing_id next.listings) ErrorCode.ownership_verification_not_found
            >>= λ listing. ok (record {
              attempt_id = attempt.id;
              canonical_vehicle_id = attempt.canonical_vehicle_id;
              listing_version = listing.version;
              status = pending;
              ownership_basis = attempt.ownership_basis;
              reused = false;
            }),
        next,
      )
    ]

-- `if claim.provider_required` and the checks of the attempt's status
unfoldable pub continue_start :
    (ℕ → ℕ → Result ProviderError ℕ)
    → (Store → Store)
    → ClaimCall
    → OwnershipClaim
    → OwnershipVerification × Listing
    → Store
    → Result ErrorCode StartResponse × Store
unfolding answer_start
continue_start provider meanwhile c claim (attempt, listing) store =
    if not claim.provider_required
    then (
      ok (record {
        attempt_id = claim.attempt_id;
        canonical_vehicle_id = attempt.canonical_vehicle_id;
        listing_version = listing.version;
        status = verified;
        ownership_basis = attempt.ownership_basis;
        reused = claim.reused;
      }),
      store,
    )
    else if eq_status attempt.status manual_review
    then (err ErrorCode.ownership_verification_in_review, store)
    else if one_of terminal_statuses attempt.status
    then (err ErrorCode.ownership_verification_closed, store)
    else answer_start c.listing_id attempt (provider claim.attempt_id c.actor_user_id)
        (meanwhile store)

module _ (policy : OwnershipReusePolicy) (identifier : ℕ) (fingerprint : Material → List ℕ) where
  -- `provider` answers an attempt with a reference or an exception, and `meanwhile` is what other
  -- transactions do while it is asked.
  unfoldable pub start_ownership :
      (ℕ → ℕ → Result ProviderError ℕ)
      → (Store → Store)
      → ClaimCall
      → Store
      → Result ErrorCode StartResponse × Store
  unfolding read_claimed continue_start
  start_ownership provider meanwhile c store =
      elim (claim_ownership policy identifier fingerprint c store) [
        | err e ↦ (err e, store)
        | ok (claim, claimed) ↦ elim (read_claimed c.actor_user_id c.listing_id claim claimed) [
          | err e ↦ (err e, claimed)
          | ok found ↦ continue_start provider meanwhile c claim found claimed
        ]
      ]

  -- the attempt that `status` shows, and whether it is reused
  abbrev pub shown_attempt :
      Listing
      → UserVerificationState
      → List OwnershipVerification
      → Option OwnershipEvidence
      → Bool
      → Result ErrorCode (OwnershipVerification × Bool)
  shown_attempt listing state attempts (some evidence) reused = do
    selected ←
        or_raise (find (λ row. row.id == evidence.attempt_id) attempts) ErrorCode.stop_iteration
    ok (selected, reused)
  shown_attempt listing state attempts none reused = do
    attempt ←
        or_raise (find (λ row. row.listing_id == listing.id) attempts)
          ErrorCode.ownership_verification_not_found
    raise_if (identity_stale attempt state) ErrorCode.ownership_verification_not_found
    ok (attempt, false)

  unfoldable pub ownership_status :
      ℕ → ℕ → ℕ → Store → Result ErrorCode (OwnershipVerification × Bool)
  ownership_status now actor_user_id listing_id store = do
    listing ← authorize_listing actor_user_id (get listing_id store.listings) store
    canonical_id ← or_raise listing.canonical_vehicle_id ErrorCode.ownership_verification_not_found
    state ← require_current_identity now actor_user_id store
    canonical ←
        or_raise (get_canonical canonical_id store.canonicals)
          ErrorCode.ownership_verification_not_found
    let attempts = list_for_reuse actor_user_id canonical_id store.attempts
    let selection = select_ownership policy now listing canonical state attempts none
    shown_attempt listing state attempts (eligible_evidence selection) selection.decision.reused
