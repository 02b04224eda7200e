-- ===== src/Verification/Identity/Tests.antt =====
-- A verification that is opened, answered and answered again.
use wheelmatch.Base.{ℕ, ◌≡◌, ◌≤◌, ◌<◌, ◌⊎◌, refl, none, some, List, [], ◌∷◌, Result, ok, arith}
use wheelmatch.Authorization.{UserStatus}
use wheelmatch.Identity.Users.{User}
use wheelmatch.Core.Idempotency.Once.{once}
use wheelmatch.Core.Idempotency.{reserve, complete}
use wheelmatch.Verification.State.{
  verified, pending, applied, duplicate, ProviderError, require_transition, result_disposition,
  transition_allowed,
}
use wheelmatch.Verification.Identity.{
  standard, IdentityVerification, UserVerificationState, Store, ApplyResponse, get_state,
}
use wheelmatch.Verification.Identity.Results.{
  ProviderResult, validate_result, validate_evidence, result_matches, apply_result_to_attempt,
  apply_attempt_to_state,
}
use wheelmatch.Verification.Identity.Applying.{
  apply_provider_result, deliver, dispose, finalize, record_finalization,
}
use wheelmatch.Verification.Identity.Starting.{
  StartCall, start, claim_attempt, claim_acquired, open_attempt, new_attempt, check_attempt,
  answered, finalize_session, open_session,
}
use wheelmatch.Verification.Identity.History.{Transaction, claim, open_reference, apply, step, run}
use wheelmatch.Verification.Identity.Final.{SettledAt, run-Settled}
use wheelmatch.Verification.Identity.Versions.{version_of, run-version}
use wheelmatch.Verification.Identity.Projection.{Shown, run-Shown}
use wheelmatch.Verification.Identity.Evidence.{
  IsProven, run-verified, active_count, run-active_count,
}
use wheelmatch.Verification.Identity.Once.{apply_provider_result-redelivered}
use wheelmatch.Verification.Identity.Opening.{Opened, start-Opened}

abbrev user : User
user = record {
  id = 1;
  normalized_email = 5;
  password_hash = 6;
  status = UserStatus.active;
  email_verified_at = some 1;
  phone_verified_at = none;
  password_changed_at = 1;
  failed_login_attempts = 0;
  login_locked_until = none;
  authorization_version = 1;
  deleted_at = none;
}

abbrev empty : Store
empty = record {
  users = user ∷ [];
  attempts = [];
  states = [];
  idempotency = [];
  outbox = [];
  audit = [];
}

abbrev first_call : StartCall
first_call = record {
  now = 100;
  attempt_id = 40;
  actor_user_id = 1;
  idempotency_key = 9;
  request_hash = 77;
}

abbrev second_call : StartCall
second_call = record first_call { now = 900; attempt_id = 41; idempotency_key = 10 }

-- every text has 12 characters
abbrev twelve : ℕ → ℕ
twelve text = 12

abbrev good_result : ProviderResult
good_result = record {
  provider_reference = 500;
  event_id = 600;
  status = verified;
  assurance_level = some standard;
  verified_at = some 200;
  expires_at = some 300;
  safe_failure_code = none;
}

abbrev opening : List Transaction
opening = claim first_call ∷ open_reference 40 500 ∷ []

abbrev closing : List Transaction
closing = apply good_result ∷ claim second_call ∷ []

abbrev opened_row : IdentityVerification
opened_row = record {
  id = 40;
  user_id = 1;
  attempt_number = 1;
  provider_identifier = 3;
  provider_reference = some 500;
  provider_result_event_id = none;
  status = pending;
  assurance_level = none;
  safe_failure_code = none;
  verified_at = none;
  expires_at = none;
  revoked_at = none;
  superseded_at = none;
}

abbrev opened_state : UserVerificationState
opened_state = record {
  user_id = 1;
  current_attempt_id = 40;
  effective_status = pending;
  assurance_level = none;
  verified_at = none;
  expires_at = none;
  revoked_at = none;
  version = 2;
  safe_failure_code = none;
}

-- a store that holds the open attempt
abbrev open_store : Store
open_store = record empty { attempts = opened_row ∷ []; states = opened_state ∷ [] }

abbrev final_row : IdentityVerification
final_row = record opened_row {
  provider_result_event_id = some 600;
  status = verified;
  assurance_level = some standard;
  verified_at = some 200;
  expires_at = some 300;
}

abbrev final_state : UserVerificationState
final_state = record opened_state {
  effective_status = verified;
  assurance_level = some standard;
  verified_at = some 200;
  expires_at = some 300;
  version = 3;
}

abbrev final_store : Store
final_store = record empty { attempts = final_row ∷ []; states = final_state ∷ [] }

open_Shown : Shown 1 open_store
open_Shown s e = (opened_row, ground arith, ground arith)

run-Settled_example : SettledAt final_row 40 (run twelve 3 final_store closing)
run-Settled_example = run-Settled twelve 3 final_row 40 final_store closing refl refl refl

run-version_example :
    (get_state 1 (run twelve 3 empty opening).states ≡ none)
    ⊎ (0 < version_of (get_state 1 (run twelve 3 empty opening).states))
run-version_example = run-version twelve 3 1 empty opening refl

run-Shown_example : Shown 1 (run twelve 3 open_store closing)
run-Shown_example = run-Shown twelve 3 1 open_store closing refl open_Shown

verified_after :
    get_state 1 (run twelve 3 open_store (apply good_result ∷ [])).states ≡ some final_state
unfolding run step apply_provider_result validate_result validate_evidence deliver result_matches
    dispose finalize record_finalization apply_result_to_attempt apply_attempt_to_state
    result_disposition require_transition transition_allowed
verified_after = refl

run-verified_example : IsProven final_state
run-verified_example =
    run-verified twelve 3 1 open_store (apply good_result ∷ []) refl refl open_Shown final_state
      verified_after refl

run-active_count_example : active_count 1 (run twelve 3 empty opening) ≤ 1
run-active_count_example = run-active_count twelve 3 1 empty opening refl (omega arith)

abbrev response : ApplyResponse
response = record {
  attempt_id = 40;
  status = verified;
  projection_version = 3;
  disposition = applied;
}

abbrev applied_store : Store
applied_store = step twelve 3 open_store (apply good_result)

applies_first : apply_provider_result twelve 3 good_result open_store ≡ ok (response, applied_store)
unfolding step apply_provider_result validate_result validate_evidence deliver result_matches
    dispose finalize record_finalization apply_result_to_attempt apply_attempt_to_state
    result_disposition require_transition transition_allowed
applies_first = refl

apply_provider_result-redelivered_example :
    apply_provider_result twelve 3 good_result applied_store
    ≡ ok (record response { disposition = duplicate }, applied_store)
apply_provider_result-redelivered_example =
    apply_provider_result-redelivered twelve 3 good_result open_store applied_store response
      applies_first refl

abbrev provider : ℕ → ℕ → Result ProviderError ℕ
provider attempt_id user_id = ok 500

starts : (start provider (λ store. store) 3 first_call empty).0 ≡ ok 40
unfolding start claim_attempt once reserve claim_acquired open_attempt new_attempt complete
    check_attempt answered finalize_session open_session
starts = refl

start-Opened_example :
    (reference : ℕ) × (provider 40 1 ≡ ok reference)
    × Opened 40 reference (start provider (λ store. store) 3 first_call empty).1
start-Opened_example = start-Opened provider (λ store. store) 3 first_call empty 40 starts
