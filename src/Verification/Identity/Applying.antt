-- ===== src/Verification/Identity/Applying.antt =====
-- `apply_provider_result` of backend/app/modules/verification/service.py, with the writes that it
-- shares with the start of an attempt.
use Prim.Native.String.{String}
use wheelmatch.Base.{
  ℕ, ◌&&◌, Option, none, some, [], ◌∷◌, ◌==◌, is_some, if◌then◌else◌, Result, ok, err, ◌>>=◌, ◌>>◌,
  or_raise,
}
use wheelmatch.Core.Events.{Value, add}
use wheelmatch.Verification.State.{
  Status, session_pending, pending, manual_review, verified, failed, expired, revoked, StateError,
  Disposition, duplicate, applied, Arrival, result_disposition, require_transition,
}
use wheelmatch.Verification.Identity.{
  FailureCode, identity_mismatch, manual_review_required, provider_rejected, provider_unavailable,
  quality_insufficient, verification_failed, other_code, IdentityVerification,
  UserVerificationState, Store, Outcome, ErrorCode, ApplyResponse, get_by_provider_reference,
  get_by_result_event, get_state, write_attempt, write_state,
}
use wheelmatch.Verification.Identity.Results.{
  ProviderResult, apply_attempt_to_state, apply_result_to_attempt, result_matches, validate_result,
}

abbrev pub status_text : Status → String
status_text session_pending = "session_pending"
status_text pending = "pending"
status_text manual_review = "manual_review"
status_text verified = "verified"
status_text failed = "failed"
status_text expired = "expired"
status_text revoked = "revoked"

abbrev pub failure_value : Option FailureCode → Value
failure_value none = Value.unset
failure_value (some identity_mismatch) = Value.text "IDENTITY_MISMATCH"
failure_value (some manual_review_required) = Value.text "MANUAL_REVIEW_REQUIRED"
failure_value (some provider_rejected) = Value.text "PROVIDER_REJECTED"
failure_value (some provider_unavailable) = Value.text "PROVIDER_UNAVAILABLE"
failure_value (some quality_insufficient) = Value.text "QUALITY_INSUFFICIENT"
failure_value (some verification_failed) = Value.text "VERIFICATION_FAILED"
failure_value (some (other_code n)) = Value.number n

abbrev pub time_value : Option ℕ → Value
time_value none = Value.unset
time_value (some t) = Value.number t

-- `_record_finalization`
unfoldable pub record_finalization : IdentityVerification → UserVerificationState → Store → Store
record_finalization attempt state store = record store {
  audit =
      add
        (record {
          action = "identity.verification.state_changed";
          outcome = "success";
          reason_code = none;
          resource_type = "identity_verification";
          actor_user_id = some attempt.user_id;
          resource_id = some attempt.id;
          organization_id = none;
          membership_id = none;
          changes =
              ("status", Value.text (status_text attempt.status))
              ∷ ("projection_version", Value.number state.version)
              ∷ ("failure_code", failure_value attempt.safe_failure_code)
              ∷ [];
        })
        store.audit;
  outbox =
      add
        (record {
          event_type = "identity.verification.state_changed";
          aggregate_type = "user";
          aggregate_id = attempt.user_id;
          payload =
              ("user_id", Value.uuid attempt.user_id)
              ∷ ("attempt_id", Value.uuid attempt.id)
              ∷ ("projection_version", Value.number state.version)
              ∷ ("state", Value.text (status_text state.effective_status))
              ∷ ("expiry", time_value state.expires_at)
              ∷ ("failure_code", failure_value state.safe_failure_code)
              ∷ [];
        })
        store.outbox;
}

-- the writes of an attempt and of its projection, and their record
unfoldable pub finalize : IdentityVerification → UserVerificationState → Store → Store
unfolding record_finalization
finalize attempt state store = record_finalization attempt state (record store {
  attempts = write_attempt attempt store.attempts;
  states = write_state state store.states;
})

abbrev pub apply_response : IdentityVerification → ℕ → Disposition → ApplyResponse
apply_response attempt version disposition = record {
  attempt_id = attempt.id;
  status = attempt.status;
  projection_version = version;
  disposition = disposition;
}

-- `except ValueError: raise conflict`
abbrev pub or_conflict : {A : Type 0} → Result StateError A → Result ErrorCode A
or_conflict (ok a) = ok a
or_conflict (err e) = err ErrorCode.verification_result_conflict

abbrev pub arrival : IdentityVerification → ProviderResult → Arrival
arrival attempt result = record {
  attempt_status = attempt.status;
  attempt_event_id = attempt.provider_result_event_id;
  result_event_id = result.event_id;
  result_matches = result_matches attempt result;
}

-- the disposition of a result whose event is new
unfoldable pub dispose :
    ProviderResult
    → IdentityVerification
    → UserVerificationState
    → Store
    → Disposition
    → Outcome ApplyResponse
unfolding apply_result_to_attempt apply_attempt_to_state finalize
dispose result attempt state store applied = do
  or_conflict (require_transition attempt.status result.status)
  let next = apply_result_to_attempt attempt result
  let projection = apply_attempt_to_state state next
  ok (apply_response next projection.version applied, finalize next projection store)
dispose result attempt state store disposition =
    ok (apply_response attempt state.version disposition, store)

unfoldable pub deliver :
    ProviderResult
    → IdentityVerification
    → UserVerificationState
    → Option IdentityVerification
    → Store
    → Outcome ApplyResponse
unfolding result_matches dispose
deliver result attempt state (some existing) store =
    if (existing.id == attempt.id) && result_matches attempt result
    then ok (apply_response attempt state.version duplicate, store)
    else err ErrorCode.verification_result_conflict
deliver result attempt state none store = do
  disposition ← or_conflict (
      result_disposition (arrival attempt result) (is_some attempt.superseded_at)
        (state.current_attempt_id == attempt.id))
  dispose result attempt state store disposition

-- `identifier` is the provider's.
unfoldable pub apply_provider_result : (ℕ → ℕ) → ℕ → ProviderResult → Store → Outcome ApplyResponse
unfolding validate_result deliver
apply_provider_result len identifier result store = do
  validate_result len result
  attempt ←
      or_raise (get_by_provider_reference identifier result.provider_reference store.attempts)
        ErrorCode.verification_result_not_found
  state ← or_raise (get_state attempt.user_id store.states) ErrorCode.verification_result_not_found
  deliver result attempt state (get_by_result_event identifier result.event_id store.attempts) store
