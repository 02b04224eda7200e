-- ===== src/Listings/Readiness.antt =====
-- The readiness policy of a listing, backend/app/modules/listings/readiness.py: ten gates, the
-- last of which is moderation.
-- A datetime is a number; the texts for the seller are kept as they are.
pub mod Outcome
pub mod Gates
pub mod Submission
mod Tests
use Prim.Native.String.{String}
use wheelmatch.Base.{
  ℕ, Bool, true, false, not, ◌&&◌, ◌||◌, Option, none, some, List, [], ◌∷◌, ◌++◌, ◌==◌, leb,
  if◌then◌else◌, is_none, is_some, any, all, select_where,
}
use wheelmatch.Media.{MediaStatus}
use wheelmatch.Verification.State.{
  Status, verified, expired, revoked, active_statuses, one_of, eq_status,
}

pub data GateName : Type 0 where
  account_owner seller_readiness listing_details canonical_vehicle location identity_verification
        ownership_verification sanitized_media media_moderation_queue moderation_approval :
      GateName

pub data GateState : Type 0 where
  ready blocked stale pending not_started : GateState

pub data GateCode : Type 0 where
  seller_restricted listing_version_changed listing_details_incomplete
        ownership_verification_required listing_location_required identity_verification_required
        identity_verification_pending identity_verification_failed identity_verification_expired
        ownership_verification_expired ownership_fingerprint_mismatch ownership_verification_pending
        ownership_verification_revoked ownership_verification_failed media_processing_incomplete
        moderation_pending :
      GateCode

pub record GateDecision : Type 0 where
  pub name : GateName
  pub state : GateState
  pub code : Option GateCode
  pub remediation_action : String

pub record ReadinessSnapshot : Type 0 where
  pub now : ℕ
  pub account_authorized : Bool
  pub seller_ready : Bool
  pub details_complete : Bool
  pub canonical_associated : Bool
  pub location_present : Bool
  pub identity_status : Option Status
  pub identity_expires_at : Option ℕ
  pub identity_revoked_at : Option ℕ
  pub ownership_status : Option Status
  pub ownership_expires_at : Option ℕ
  pub ownership_revoked_at : Option ℕ
  pub ownership_matches_current : Bool
  pub ownership_fingerprint_matches : Bool
  pub active_media_statuses : List MediaStatus
  pub listing_evidence_stale : Bool
  pub media_evidence_stale : Bool

pub record ReadinessEvaluation : Type 0 where
  pub gates : List GateDecision
  pub moderation_status : GateState
  pub publishable : Bool

abbrev pub is_ready : GateState → Bool
is_ready ready = true
is_ready _ = false

unfoldable pub simple : GateName → Bool → GateCode → String → GateDecision
simple name is_ready code remediation = record {
  name = name;
  state = if is_ready then ready else GateState.blocked;
  code = if is_ready then none else some code;
  remediation_action = if is_ready then "No action required." else remediation;
}

unfoldable pub details_gate : ReadinessSnapshot → GateDecision
unfolding simple
details_gate snapshot =
    if snapshot.listing_evidence_stale
    then record {
      name = listing_details;
      state = stale;
      code = some listing_version_changed;
      remediation_action = "Submit the current listing version again.";
    }
    else simple listing_details snapshot.details_complete listing_details_incomplete
        "Complete the listing details and typed vehicle specification."

-- `expires_at is None or expires_at <= now`
abbrev pub has_expired : Option ℕ → ℕ → Bool
has_expired none now = true
has_expired (some t) now = leb t now

-- the codes that the call of `_verification_gate` passes
pub record GateCodes : Type 0 where
  pub required : GateCode
  pub pending : GateCode
  pub failed : GateCode
  pub expired : GateCode

-- the state and the code, and the action that goes with them
abbrev pub decided : GateName → GateState → Option GateCode → String → GateDecision
decided name state code remediation = record {
  name = name;
  state = state;
  code = code;
  remediation_action = if is_none code then "No action required." else remediation;
}

unfoldable pub verification_gate :
    GateName → Option Status → ℕ → Option ℕ → Option ℕ → GateCodes → String → GateDecision
verification_gate name none now expires_at revoked_at codes remediation =
    decided name GateState.blocked (some codes.required) remediation
verification_gate name (some status) now expires_at revoked_at codes remediation =
    if one_of active_statuses status
    then decided name GateState.pending (some codes.pending) remediation
    else if eq_status status expired || eq_status status verified && has_expired expires_at now
    then decided name GateState.blocked (some codes.expired) remediation
    else if eq_status status verified && is_none revoked_at
    then decided name ready none remediation
    else decided name GateState.blocked (some codes.failed) remediation

abbrev ownership_remediation : String
ownership_remediation = "Complete a current vehicle ownership verification."

abbrev owned : GateState → Option GateCode → GateDecision
owned state code = decided ownership_verification state code ownership_remediation

-- `_ownership_gate`, by the snapshot's ownership status
ownership_gate_of : ReadinessSnapshot → Option Status → GateDecision
ownership_gate_of snapshot none = owned GateState.blocked (some ownership_verification_required)
ownership_gate_of snapshot (some status) =
    if eq_status status verified && is_none snapshot.ownership_revoked_at
    then if has_expired snapshot.ownership_expires_at snapshot.now
      then owned GateState.blocked (some ownership_verification_expired)
      else if not snapshot.ownership_matches_current
      then owned GateState.blocked (some ownership_verification_required)
      else if not snapshot.ownership_fingerprint_matches
      then owned stale (some ownership_fingerprint_mismatch)
      else owned ready none
    else if one_of active_statuses status
    then owned GateState.pending (some ownership_verification_pending)
    else if eq_status status expired
    then owned GateState.blocked (some ownership_verification_expired)
    else if eq_status status revoked || is_some snapshot.ownership_revoked_at
    then owned GateState.blocked (some ownership_verification_revoked)
    else owned GateState.blocked (some ownership_verification_failed)

unfoldable pub ownership_gate : ReadinessSnapshot → GateDecision
unfolding ownership_gate_of
ownership_gate snapshot = ownership_gate_of snapshot snapshot.ownership_status

abbrev pub in_queue : MediaStatus → Bool
in_queue MediaStatus.moderation_pending = true
in_queue _ = false

unfoldable pub sanitized_media_gate : List MediaStatus → GateDecision
unfolding simple
sanitized_media_gate statuses =
    simple sanitized_media (any in_queue statuses) media_processing_incomplete
      "Add and finish processing at least one listing image."

-- `bool(statuses)`
abbrev pub is_nonempty : List MediaStatus → Bool
is_nonempty [] = false
is_nonempty (s ∷ rest) = true

unfoldable pub media_queue_gate : ReadinessSnapshot → GateDecision
media_queue_gate snapshot =
    if snapshot.media_evidence_stale
    then record {
      name = media_moderation_queue;
      state = stale;
      code = some listing_version_changed;
      remediation_action = "Submit the current media set again.";
    }
    else let queued =
        is_nonempty snapshot.active_media_statuses && all in_queue snapshot.active_media_statuses in
      record {
        name = media_moderation_queue;
        state = if queued then ready else GateState.pending;
        code = if queued then none else some media_processing_incomplete;
        remediation_action =
            if queued
            then "No action required."
            else "Wait for all selected listing images to finish processing.";
      }

-- the call of `_verification_gate` in `evaluate`
identity_codes : GateCodes
identity_codes = record {
  required = identity_verification_required;
  pending = identity_verification_pending;
  failed = identity_verification_failed;
  expired = identity_verification_expired;
}

unfoldable pub identity_gate : ReadinessSnapshot → GateDecision
unfolding verification_gate identity_codes
identity_gate snapshot =
    verification_gate identity_verification snapshot.identity_status snapshot.now
      snapshot.identity_expires_at snapshot.identity_revoked_at identity_codes
      "Complete current identity verification."

-- the gates before moderation, in the order of `evaluate`
unfoldable pub pre_moderation_gates : ReadinessSnapshot → List GateDecision
unfolding simple details_gate identity_gate ownership_gate sanitized_media_gate media_queue_gate
pre_moderation_gates snapshot =
    simple account_owner snapshot.account_authorized seller_restricted
      "Restore an active authorized personal-owner account."
    ∷ simple seller_readiness snapshot.seller_ready seller_restricted
        "Complete seller activation requirements."
    ∷ details_gate snapshot
    ∷ simple canonical_vehicle snapshot.canonical_associated ownership_verification_required
        "Complete vehicle ownership verification."
    ∷ simple location snapshot.location_present listing_location_required
        "Add the private listing location."
    ∷ identity_gate snapshot
    ∷ ownership_gate snapshot
    ∷ sanitized_media_gate snapshot.active_media_statuses
    ∷ media_queue_gate snapshot
    ∷ []

abbrev pub all_ready : List GateDecision → Bool
all_ready = all (λ gate. is_ready gate.state)

unfoldable pub moderation_gate : Bool → GateDecision
moderation_gate pre_moderation_ready = record {
  name = moderation_approval;
  state = if pre_moderation_ready then GateState.pending else not_started;
  code = if pre_moderation_ready then some GateCode.moderation_pending else none;
  remediation_action =
      if pre_moderation_ready
      then "Wait for moderation processing."
      else "Resolve the preceding readiness gates.";
}

unfoldable pub evaluate : ReadinessSnapshot → ReadinessEvaluation
unfolding moderation_gate
evaluate snapshot =
    let gates = pre_moderation_gates snapshot in
    record {
      gates = gates ++ moderation_gate (all_ready gates) ∷ [];
      moderation_status = if all_ready gates then GateState.pending else not_started;
      publishable = false;
    }
