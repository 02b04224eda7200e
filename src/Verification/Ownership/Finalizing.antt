-- ===== src/Verification/Ownership/Finalizing.antt =====
-- The writes of an attempt and the records of them, and the ends of a provider session, of
-- backend/app/modules/verification/ownership_service.py.
use Prim.Native.String.{String}
use wheelmatch.Base.{
  ℕ, Bool, false, not, ◌&&◌, Option, none, some, List, [], ◌∷◌, ◌==◌, any, if◌then◌else◌, Result,
  ok, err, ◌>>=◌, ◌>>◌, raise_if, or_raise,
}
use wheelmatch.Core.Events.{Value, add}
use wheelmatch.Verification.State.{Status, session_pending, pending, failed, eq_status}
use wheelmatch.Verification.Reuse.{
  OwnershipBasis, registered_owner, company_vehicle, financed_or_leased, inherited,
  authorized_representative,
}
use wheelmatch.Verification.Identity.Applying.{status_text}
use wheelmatch.Verification.Ownership.{
  OwnershipFailure, manual_review_required, ownership_mismatch, provider_rejected,
  provider_unavailable, quality_insufficient, verification_failed, other_failure,
  OwnershipVerification, Store, ErrorCode, get_ownership, write_ownership, has_ownership_reference,
}
use wheelmatch.Verification.Ownership.Validating.{safe_failure}

abbrev pub basis_text : OwnershipBasis → String
basis_text registered_owner = "registered_owner"
basis_text company_vehicle = "company_vehicle"
basis_text financed_or_leased = "financed_or_leased"
basis_text inherited = "inherited"
basis_text authorized_representative = "authorized_representative"

abbrev pub failure_text : Option OwnershipFailure → Value
failure_text none = Value.unset
failure_text (some manual_review_required) = Value.text "MANUAL_REVIEW_REQUIRED"
failure_text (some ownership_mismatch) = Value.text "OWNERSHIP_MISMATCH"
failure_text (some provider_rejected) = Value.text "PROVIDER_REJECTED"
failure_text (some provider_unavailable) = Value.text "PROVIDER_UNAVAILABLE"
failure_text (some quality_insufficient) = Value.text "QUALITY_INSUFFICIENT"
failure_text (some verification_failed) = Value.text "VERIFICATION_FAILED"
failure_text (some (other_failure n)) = Value.number n

-- `_record_finalization`
unfoldable pub record_ownership : OwnershipVerification → Store → Store
record_ownership attempt store = record store {
  audit =
      add
        (record {
          action = "vehicle.ownership_verification.state_changed";
          outcome = "success";
          reason_code = none;
          resource_type = "vehicle_ownership_verification";
          actor_user_id = some attempt.owner_user_id;
          resource_id = some attempt.id;
          organization_id = none;
          membership_id = none;
          changes =
              ("status", Value.text (status_text attempt.status))
              ∷ ("ownership_basis", Value.text (basis_text attempt.ownership_basis))
              ∷ ("failure_code", failure_text attempt.safe_failure_code)
              ∷ ("identity_projection_version", Value.number attempt.identity_projection_version)
              ∷ ("vehicle_identity_version", Value.number attempt.vehicle_identity_version)
              ∷ [];
        })
        store.audit;
  outbox =
      add
        (record {
          event_type = "vehicle.ownership_verification.state_changed";
          aggregate_type = "canonical_vehicle";
          aggregate_id = attempt.canonical_vehicle_id;
          payload =
              ("owner_user_id", Value.uuid attempt.owner_user_id)
              ∷ ("listing_id", Value.uuid attempt.listing_id)
              ∷ ("canonical_vehicle_id", Value.uuid attempt.canonical_vehicle_id)
              ∷ ("attempt_id", Value.uuid attempt.id)
              ∷ ("identity_projection_version", Value.number attempt.identity_projection_version)
              ∷ ("vehicle_identity_version", Value.number attempt.vehicle_identity_version)
              ∷ ("status", Value.text (status_text attempt.status))
              ∷ ("ownership_basis", Value.text (basis_text attempt.ownership_basis))
              ∷ ("failure_code", failure_text attempt.safe_failure_code)
              ∷ [];
        })
        store.outbox;
}

-- a write of the attempt, and its record
unfoldable pub finalize_ownership : OwnershipVerification → Store → Store
unfolding record_ownership
finalize_ownership attempt store =
    record_ownership attempt (record store { attempts = write_ownership attempt store.attempts })

-- `provider_reference not in {None, reference}`
abbrev pub other_session : Option ℕ → ℕ → Bool
other_session none reference = false
other_session (some old) reference = not (old == reference)

abbrev pub session_taken : OwnershipVerification → ℕ → List OwnershipVerification → Bool
session_taken attempt reference = any (λ row.
    has_ownership_reference attempt.provider_identifier reference row && not (row.id == attempt.id))

unfoldable pub open_ownership_session :
    OwnershipVerification → Status → Store → Result ErrorCode Store
unfolding finalize_ownership
open_ownership_session attempt session_pending store =
    ok (finalize_ownership (record attempt { status = pending }) store)
open_ownership_session attempt pending store =
    ok (record store { attempts = write_ownership attempt store.attempts })
open_ownership_session attempt _ store = err ErrorCode.ownership_verification_closed

-- `_finalize_session`
unfoldable pub finalize_ownership_session : ℕ → ℕ → Store → Result ErrorCode Store
unfolding open_ownership_session
finalize_ownership_session attempt_id reference store = do
  attempt ←
      or_raise (get_ownership attempt_id store.attempts) ErrorCode.ownership_verification_not_found
  raise_if (other_session attempt.provider_reference reference)
      ErrorCode.ownership_verification_provider_unavailable
  next ←
      open_ownership_session (record attempt { provider_reference = some reference }) attempt.status
        store
  raise_if (session_taken attempt reference store.attempts) ErrorCode.integrity_error
  ok next

unfoldable pub fail_ownership : OwnershipFailure → Option OwnershipVerification → Store → Store
unfolding finalize_ownership
fail_ownership code none store = store
fail_ownership code (some attempt) store =
    if not (eq_status attempt.status session_pending)
    then store
    else finalize_ownership
        (record attempt { status = failed; safe_failure_code = some (safe_failure (some code)) })
        store

-- `_finalize_session_failure`
unfoldable pub finalize_ownership_failure : ℕ → OwnershipFailure → Store → Store
unfolding fail_ownership
finalize_ownership_failure attempt_id code store =
    fail_ownership code (get_ownership attempt_id store.attempts) store
