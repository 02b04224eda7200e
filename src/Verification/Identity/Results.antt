-- ===== src/Verification/Identity/Results.antt =====
-- A provider's result, the checks of it, and the rows that it is written to, of
-- backend/app/modules/verification/service.py. `len` is the length of a text.
use wheelmatch.Base.{
  ℕ, suc, Bool, true, false, not, ◌&&◌, ◌||◌, Option, none, some, ◌==◌, ltb, leb, eq_option,
  is_some, if◌then◌else◌, Result, ok, ◌>>◌, raise_if,
}
use wheelmatch.Verification.State.{
  Status, manual_review, verified, failed, eq_status, one_of, provider_result_statuses,
}
use wheelmatch.Verification.Identity.{
  AssuranceLevel, basic, standard, enhanced, other_level, FailureCode, identity_mismatch,
  manual_review_required, provider_rejected, provider_unavailable, quality_insufficient,
  verification_failed, other_code, IdentityVerification, UserVerificationState, ErrorCode,
}

-- A status that is not one of a provider's, or no status at all, is refused alike.
pub record ProviderResult : Type 0 where
  pub provider_reference : ℕ
  pub event_id : ℕ
  pub status : Status
  pub assurance_level : Option AssuranceLevel
  pub verified_at : Option ℕ
  pub expires_at : Option ℕ
  pub safe_failure_code : Option FailureCode

-- `not text or len(text) > 200`
abbrev pub bad_text : (ℕ → ℕ) → ℕ → Bool
bad_text len text = len text == 0 || ltb 200 (len text)

-- `assurance_level not in ASSURANCE_LEVELS`
abbrev pub unknown_level : Option AssuranceLevel → Bool
unknown_level none = true
unknown_level (some (other_level n)) = true
unknown_level (some _) = false

-- `verified_at is None or expires_at is None or expires_at <= verified_at`
abbrev pub bad_period : Option ℕ → Option ℕ → Bool
bad_period (some verified_at) (some expires_at) = leb expires_at verified_at
bad_period _ _ = true

-- `not safe_failure_code`
abbrev pub no_code : Option FailureCode → Bool
no_code none = true
no_code (some (other_code n)) = n == 0
no_code (some _) = false

unfoldable pub validate_evidence : ProviderResult → Status → Result ErrorCode Unit
validate_evidence result verified =
    raise_if
      (unknown_level result.assurance_level
        || bad_period result.verified_at result.expires_at
        || is_some result.safe_failure_code)
      ErrorCode.verification_result_invalid
validate_evidence result failed =
    raise_if (no_code result.safe_failure_code) ErrorCode.verification_result_invalid
validate_evidence result _ = ok tt

unfoldable pub validate_result : (ℕ → ℕ) → ProviderResult → Result ErrorCode Unit
unfolding validate_evidence
validate_result len result = do
  raise_if
      (bad_text len result.provider_reference
        || bad_text len result.event_id
        || not (one_of provider_result_statuses result.status))
      ErrorCode.verification_result_invalid
  validate_evidence result result.status

-- `_safe_failure_code`
abbrev pub safe_failure_code : Option FailureCode → FailureCode
safe_failure_code none = verification_failed
safe_failure_code (some (other_code n)) = verification_failed
safe_failure_code (some code) = code

-- the failure code that goes with a result
abbrev pub result_failure : ProviderResult → Status → Option FailureCode
result_failure result manual_review = some manual_review_required
result_failure result failed = some (safe_failure_code result.safe_failure_code)
result_failure result _ = none

-- `value if result.status == "verified" else None`
abbrev pub if_verified : {A : Type 0} → ProviderResult → Option A → Option A
if_verified result value = if eq_status result.status verified then value else none

abbrev pub level_index : Option AssuranceLevel → Option ℕ
level_index none = none
level_index (some basic) = some 0
level_index (some standard) = some 1
level_index (some enhanced) = some 2
level_index (some (other_level n)) = some (suc (suc (suc n)))

abbrev pub code_index : Option FailureCode → Option ℕ
code_index none = none
code_index (some identity_mismatch) = some 0
code_index (some manual_review_required) = some 1
code_index (some provider_rejected) = some 2
code_index (some provider_unavailable) = some 3
code_index (some quality_insufficient) = some 4
code_index (some verification_failed) = some 5
code_index (some (other_code n)) = some (suc (suc (suc (suc (suc (suc n))))))

unfoldable pub result_matches : IdentityVerification → ProviderResult → Bool
result_matches attempt result =
    eq_option attempt.provider_result_event_id (some result.event_id)
    && eq_status attempt.status result.status
    && eq_option (level_index attempt.assurance_level)
        (level_index (if_verified result result.assurance_level))
    && eq_option attempt.verified_at (if_verified result result.verified_at)
    && eq_option attempt.expires_at (if_verified result result.expires_at)
    && eq_option (code_index attempt.safe_failure_code)
        (code_index (result_failure result result.status))

unfoldable pub apply_result_to_attempt :
    IdentityVerification → ProviderResult → IdentityVerification
apply_result_to_attempt attempt result = record attempt {
  provider_result_event_id = some result.event_id;
  status = result.status;
  assurance_level = if_verified result result.assurance_level;
  verified_at = if_verified result result.verified_at;
  expires_at = if_verified result result.expires_at;
  revoked_at = none;
  safe_failure_code = result_failure result result.status;
}

unfoldable pub apply_attempt_to_state :
    UserVerificationState → IdentityVerification → UserVerificationState
apply_attempt_to_state state attempt = record state {
  current_attempt_id = attempt.id;
  effective_status = attempt.status;
  assurance_level = attempt.assurance_level;
  verified_at = attempt.verified_at;
  expires_at = attempt.expires_at;
  revoked_at = attempt.revoked_at;
  safe_failure_code = attempt.safe_failure_code;
  version = suc state.version;
}
