-- ===== src/Verification/Identity/Starting.antt =====
-- `start` of backend/app/modules/verification/service.py: the attempt is claimed in one transaction,
-- the provider is asked outside of any, and another transaction records what it answered.
use wheelmatch.Base.{
  ℕ, suc, Bool, false, not, ◌&&◌, Option, none, some, List, ◌==◌, ◌+◌, if◌then◌else◌, any, Result,
  ok, err, ◌>>=◌, ◌>>◌, raise_if, or_raise,
}
use wheelmatch.Authorization.{is_active_user}
use wheelmatch.Identity.Users.{get_user_by_id}
use wheelmatch.Core.Events.{add}
use wheelmatch.Core.Idempotency.{
  RequestKey, IdempotencyRecord, identity_verification_start, reserve, complete,
}
use wheelmatch.Core.Idempotency.Once.{once}
use wheelmatch.Verification.State.{
  Status, session_pending, pending, manual_review, failed, eq_status, one_of, terminal_statuses,
  ProviderError, SafeFailureCode, provider_temporary, classify_provider_failure,
}
use wheelmatch.Verification.Identity.{
  FailureCode, provider_unavailable, other_code, IdentityVerification, UserVerificationState, Store,
  Outcome, ErrorCode, get_attempt, get_active_for_user, get_latest_for_user, next_attempt_number,
  get_state, write_attempt, write_state, has_reference,
}
use wheelmatch.Verification.Identity.Results.{safe_failure_code, apply_attempt_to_state}
use wheelmatch.Verification.Identity.Applying.{finalize}

-- What a start was asked with: the time, the id that would be drawn, and the request.
pub record StartCall : Type 0 where
  pub now : ℕ
  pub attempt_id : ℕ
  pub actor_user_id : ℕ
  pub idempotency_key : ℕ
  pub request_hash : ℕ

abbrev pub start_key : StartCall → RequestKey
start_key c = record {
  scope = c.actor_user_id;
  operation = identity_verification_start;
  key = c.idempotency_key;
}

-- 24 hours, in seconds
abbrev pub key_ttl : ℕ
key_ttl = 86400

-- `latest.superseded_at = now`
abbrev pub supersede :
    ℕ → Option IdentityVerification → List IdentityVerification → List IdentityVerification
supersede now none rows = rows
supersede now (some latest) rows = write_attempt (record latest { superseded_at = some now }) rows

abbrev pub fresh_attempt : StartCall → ℕ → ℕ → IdentityVerification
fresh_attempt c identifier number = record {
  id = c.attempt_id;
  user_id = c.actor_user_id;
  attempt_number = number;
  provider_identifier = identifier;
  provider_reference = none;
  provider_result_event_id = none;
  status = session_pending;
  assurance_level = none;
  safe_failure_code = none;
  verified_at = none;
  expires_at = none;
  revoked_at = none;
  superseded_at = none;
}

abbrev pub fresh_state : StartCall → UserVerificationState
fresh_state c = record {
  user_id = c.actor_user_id;
  current_attempt_id = c.attempt_id;
  effective_status = session_pending;
  assurance_level = none;
  verified_at = none;
  expires_at = none;
  revoked_at = none;
  version = 1;
  safe_failure_code = none;
}

abbrev pub restarted : StartCall → UserVerificationState → UserVerificationState
restarted c state = record state {
  current_attempt_id = c.attempt_id;
  effective_status = session_pending;
  assurance_level = none;
  verified_at = none;
  expires_at = none;
  revoked_at = none;
  safe_failure_code = none;
  version = suc state.version;
}

-- the projection of a new attempt, inserted or written over the old one
abbrev pub project :
    StartCall
    → Option UserVerificationState
    → List UserVerificationState
    → List UserVerificationState
project c none rows = add (fresh_state c) rows
project c (some state) rows = write_state (restarted c state) rows

-- `_new_attempt` and the completion of the key
unfoldable pub new_attempt : ℕ → StartCall → Store → Outcome ℕ
new_attempt identifier c store = do
  raise_if (any (λ row. row.id == c.attempt_id) store.attempts) ErrorCode.integrity_error
  ok (
    c.attempt_id,
    record store {
      attempts =
          add (fresh_attempt c identifier (next_attempt_number c.actor_user_id store.attempts))
            (supersede c.now (get_latest_for_user c.actor_user_id store.attempts) store.attempts);
      states = project c (get_state c.actor_user_id store.states) store.states;
    },
  )

-- `active or await self._new_attempt(…)`, unless the active attempt is under review
unfoldable pub open_attempt : ℕ → StartCall → Option IdentityVerification → Store → Outcome ℕ
unfolding new_attempt
open_attempt identifier c none store = new_attempt identifier c store
open_attempt identifier c (some active) store =
    if eq_status active.status manual_review
    then err ErrorCode.verification_in_review
    else ok (active.id, store)

unfoldable pub claim_acquired : ℕ → StartCall → List (IdempotencyRecord ℕ) → Store → Outcome ℕ
unfolding open_attempt
claim_acquired identifier c rows store = do
  user ← or_raise (get_user_by_id c.actor_user_id store.users) ErrorCode.verification_not_found
  raise_if (not (is_active_user user.status)) ErrorCode.verification_not_found
  opened ← open_attempt identifier c (get_active_for_user c.actor_user_id store.attempts) store
  ok (opened.0, record opened.1 { idempotency = complete (start_key c) 201 opened.0 rows })

unfoldable pub claim_attempt : ℕ → StartCall → Store → Outcome ℕ
unfolding claim_acquired
claim_attempt identifier c store =
    once ErrorCode.idempotency_key_conflict ErrorCode.idempotency_in_progress
      (λ attempt_id. ok (attempt_id, store)) (λ rows. claim_acquired identifier c rows store)
      (reserve (start_key c) c.request_hash (c.now + key_ttl) store.idempotency)

-- `provider_reference not in {None, reference}`
abbrev pub other_reference : Option ℕ → ℕ → Bool
other_reference none reference = false
other_reference (some old) reference = not (old == reference)

-- `uq_identity_verification_provider_reference`
abbrev pub reference_taken : IdentityVerification → ℕ → List IdentityVerification → Bool
reference_taken attempt reference =
    any
      (λ row. has_reference attempt.provider_identifier reference row && not (row.id == attempt.id))

-- the branches on the attempt's status, which has its reference already
unfoldable pub open_session :
    IdentityVerification → UserVerificationState → Status → Store → Result ErrorCode Store
open_session attempt state session_pending store = ok (
    finalize (record attempt { status = pending })
      (record state { effective_status = pending; version = suc state.version }) store)
open_session attempt state pending store =
    ok (record store { attempts = write_attempt attempt store.attempts })
open_session attempt state _ store = err ErrorCode.verification_attempt_closed

unfoldable pub finalize_session : ℕ → ℕ → Store → Result ErrorCode Store
unfolding open_session
finalize_session attempt_id reference store = do
  attempt ← or_raise (get_attempt attempt_id store.attempts) ErrorCode.verification_not_found
  state ←
      or_raise (get_state attempt.user_id store.states) ErrorCode.verification_attempt_superseded
  raise_if (not (state.current_attempt_id == attempt.id)) ErrorCode.verification_attempt_superseded
  raise_if (other_reference attempt.provider_reference reference)
      ErrorCode.verification_provider_unavailable
  next ←
      open_session (record attempt { provider_reference = some reference }) state attempt.status
        store
  raise_if (reference_taken attempt reference store.attempts) ErrorCode.integrity_error
  ok next

unfoldable pub fail_current :
    FailureCode → IdentityVerification → Option UserVerificationState → Store → Store
fail_current code attempt none store = store
fail_current code attempt (some state) store =
    if not (state.current_attempt_id == attempt.id)
    then store
    else let next : IdentityVerification = record attempt {
      status = failed;
      safe_failure_code = some (safe_failure_code (some code));
    } in
      finalize next (apply_attempt_to_state state next) store

unfoldable pub fail_found : FailureCode → Option IdentityVerification → Store → Store
unfolding fail_current
fail_found code none store = store
fail_found code (some attempt) store =
    if not (eq_status attempt.status session_pending)
    then store
    else fail_current code attempt (get_state attempt.user_id store.states) store

unfoldable pub finalize_session_failure : ℕ → FailureCode → Store → Store
unfolding fail_found
finalize_session_failure attempt_id code store =
    fail_found code (get_attempt attempt_id store.attempts) store

abbrev pub failure_code : SafeFailureCode → FailureCode
failure_code SafeFailureCode.provider_unavailable = provider_unavailable
failure_code provider_temporary = other_code 1

-- the answer to the caller, after the provider's
unfoldable pub answered : ℕ → Result ProviderError ℕ → Store → Result ErrorCode ℕ × Store
unfolding finalize_session finalize_session_failure
answered attempt_id (err e) store =
    let classification = classify_provider_failure e in
    (
      err ErrorCode.verification_provider_unavailable,
      if not classification.retryable
          then finalize_session_failure attempt_id (failure_code classification.safe_failure_code)
              store
          else store,
    )
answered attempt_id (ok reference) store = elim (finalize_session attempt_id reference store) [
  | err e ↦ (err e, store)
  | ok next ↦ (ok attempt_id, next)
]

-- the checks between the two transactions
unfoldable pub check_attempt : ℕ → ℕ → Store → Result ErrorCode Unit
check_attempt actor_user_id attempt_id store = do
  attempt ← or_raise (get_attempt attempt_id store.attempts) ErrorCode.verification_not_found
  raise_if (not (attempt.user_id == actor_user_id)) ErrorCode.verification_not_found
  raise_if (eq_status attempt.status manual_review) ErrorCode.verification_in_review
  raise_if (one_of terminal_statuses attempt.status) ErrorCode.verification_attempt_closed

-- `provider` answers an attempt with a reference or an exception, and `meanwhile` is what other
-- transactions do while it is asked. The capture URL that is passed on is left out.
unfoldable pub start :
    (ℕ → ℕ → Result ProviderError ℕ)
    → (Store → Store)
    → ℕ
    → StartCall
    → Store
    → Result ErrorCode ℕ × Store
unfolding claim_attempt check_attempt answered
start provider meanwhile identifier c store = elim (claim_attempt identifier c store) [
  | err e ↦ (err e, store)
  | ok (attempt_id, claimed) ↦ elim (check_attempt c.actor_user_id attempt_id claimed) [
    | err e ↦ (err e, claimed)
    | ok _ ↦ answered attempt_id (provider attempt_id c.actor_user_id) (meanwhile claimed)
  ]
]
