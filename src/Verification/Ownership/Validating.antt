-- ===== src/Verification/Ownership/Validating.antt =====
-- A provider's result, the checks of it, and whether an attempt shows it already, of
-- backend/app/modules/verification/ownership_service.py. `len` is the length of a text.
use wheelmatch.Base.{
  ℕ, suc, Bool, true, false, not, ◌&&◌, ◌||◌, Option, none, some, List, ◌==◌, ltb, eq_option, any,
  is_some, if◌then◌else◌, Result, ◌>>◌, raise_if,
}
use wheelmatch.Verification.State.{
  Status, manual_review, verified, failed, eq_status, one_of, provider_result_statuses,
}
use wheelmatch.Verification.Identity.Results.{bad_text, bad_period}
use wheelmatch.Verification.Ownership.{
  OwnershipFailure, manual_review_required, ownership_mismatch, provider_rejected,
  provider_unavailable, quality_insufficient, verification_failed, other_failure,
  OwnershipVerification, ErrorCode,
}

-- A status that is not one of a provider's, or no status at all, is refused alike.
pub record OwnershipProviderResult : Type 0 where
  pub provider_reference : ℕ
  pub event_id : ℕ
  pub status : Status
  pub result_version : ℕ
  pub verified_at : Option ℕ
  pub expires_at : Option ℕ
  pub safe_failure_code : Option OwnershipFailure
  pub material_attributes : List (ℕ × ℕ)

-- `not key or len(key) > 64 or len(value) > 200`
abbrev pub bad_attribute : (ℕ → ℕ) → ℕ × ℕ → Bool
bad_attribute len entry = len entry.0 == 0 || ltb 64 (len entry.0) || ltb 200 (len entry.1)

-- `not safe_failure_code`
abbrev pub no_failure : Option OwnershipFailure → Bool
no_failure none = true
no_failure (some (other_failure n)) = n == 0
no_failure (some _) = false

unfoldable pub validate_ownership_result : (ℕ → ℕ) → OwnershipProviderResult → Result ErrorCode Unit
validate_ownership_result len result = do
  raise_if
      (bad_text len result.provider_reference
        || bad_text len result.event_id
        || result.result_version == 0
        || not (one_of provider_result_statuses result.status)
        || any (bad_attribute len) result.material_attributes)
      ErrorCode.ownership_result_invalid
  raise_if
      (eq_status result.status verified
        && (bad_period result.verified_at result.expires_at || is_some result.safe_failure_code))
      ErrorCode.ownership_result_invalid
  raise_if (eq_status result.status failed && no_failure result.safe_failure_code)
      ErrorCode.ownership_result_invalid

-- `_safe_failure_code`
abbrev pub safe_failure : Option OwnershipFailure → OwnershipFailure
safe_failure none = verification_failed
safe_failure (some (other_failure n)) = verification_failed
safe_failure (some code) = code

abbrev pub expected_failure : OwnershipProviderResult → Status → Option OwnershipFailure
expected_failure result manual_review = some manual_review_required
expected_failure result failed = some (safe_failure result.safe_failure_code)
expected_failure result _ = none

-- `value if result.status == "verified" else None`
abbrev pub when_verified : OwnershipProviderResult → Option ℕ → Option ℕ
when_verified result value = if eq_status result.status verified then value else none

abbrev pub failure_index : Option OwnershipFailure → Option ℕ
failure_index none = none
failure_index (some manual_review_required) = some 0
failure_index (some ownership_mismatch) = some 1
failure_index (some provider_rejected) = some 2
failure_index (some provider_unavailable) = some 3
failure_index (some quality_insufficient) = some 4
failure_index (some verification_failed) = some 5
failure_index (some (other_failure n)) = some (suc (suc (suc (suc (suc (suc n))))))

-- `_result_matches`
unfoldable pub ownership_matches : OwnershipVerification → OwnershipProviderResult → Bool
ownership_matches attempt result =
    eq_option attempt.provider_result_event_id (some result.event_id)
    && eq_option attempt.provider_result_version (some result.result_version)
    && eq_status attempt.status result.status
    && eq_option attempt.verified_at (when_verified result result.verified_at)
    && eq_option attempt.expires_at (when_verified result result.expires_at)
    && eq_option (failure_index attempt.safe_failure_code)
        (failure_index (expected_failure result result.status))
