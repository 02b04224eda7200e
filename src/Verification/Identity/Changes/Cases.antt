-- ===== src/Verification/Identity/Changes/Cases.antt =====
-- Every transaction of identity verification is one of the changes.
use wheelmatch.Base.{
  ℕ, suc, ◌+◌, ◌≡◌, refl, true, some, List, ok, ◌==◌, inl, inr, find_key, Option-cases, Bool-cases,
  Result-cases, arith, is_some,
}
use wheelmatch.Core.Idempotency.{IdempotencyRecord, reserve}
use wheelmatch.Core.Idempotency.Once.{once-ok}
use wheelmatch.Verification.State.{
  session_pending, pending, failed, stale, duplicate, applied, result_disposition,
  require_transition, Status-cases,
}
use wheelmatch.Verification.Identity.{
  FailureCode, IdentityVerification, UserVerificationState, Store, ApplyResponse, get_attempt,
  get_state, get_by_provider_reference, get_by_result_event, has_reference, get_active_for_user,
}
use wheelmatch.Verification.Identity.Results.{
  safe_failure_code, ProviderResult, validate_result, validate_evidence, apply_result_to_attempt,
  apply_attempt_to_state,
}
use wheelmatch.Verification.Identity.Applying.{
  finalize, record_finalization, dispose, deliver, apply_provider_result, arrival,
}
use wheelmatch.Verification.Identity.Starting.{
  StartCall, start_key, key_ttl, new_attempt, open_attempt, claim_acquired, claim_attempt,
  open_session, finalize_session, fail_current, fail_found, finalize_session_failure,
}
use wheelmatch.Verification.Identity.History.{
  Transaction, claim, open_reference, fail_session, apply, step,
}
use wheelmatch.Verification.Identity.Changes.{
  eq_status, Moves, Change, kept, opened, referenced, moved, unique_ids,
}

claim_acquired-Change :
    (identifier : ℕ) (c : StartCall) (rows : List (IdempotencyRecord ℕ)) (store next : Store)
    (id : ℕ)
    → claim_acquired identifier c rows store ≡ ok (id, next)
    → Change store next
unfolding claim_acquired open_attempt new_attempt
claim_acquired-Change identifier c rows store next id e =
    elim (Option-cases (get_active_for_user c.actor_user_id store.attempts)) [
      | inl none_active ↦
          opened identifier c (ground arith) none_active (ground arith) (ground arith)
      | inr (active, a) ↦ kept (ground arith) (ground arith)
    ]

claim_attempt-Change :
    (identifier : ℕ) (c : StartCall) (store next : Store) (id : ℕ)
    → claim_attempt identifier c store ≡ ok (id, next)
    → Change store next
unfolding claim_attempt
claim_attempt-Change identifier c store next id e =
    elim (once-ok _ _ _ _ (reserve (start_key c) c.request_hash (c.now + key_ttl) store.idempotency)
      (id, next) e) [
        | inl (body, replayed) ↦ kept (ground arith) (ground arith)
        | inr (rows, acquired) ↦ claim_acquired-Change identifier c rows store next id acquired
      ]

-- the session of a new attempt is opened
opens-Moves :
    (a : IdentityVerification) (s : UserVerificationState) (reference : ℕ)
    → a.status ≡ session_pending
    → Moves a
        (record a { provider_reference = some reference; status = pending })
        s
        (record s { effective_status = pending; version = suc s.version })
opens-Moves a s reference st = record {
  id = refl;
  user = refl;
  live = ground arith;
  evidence = λ h. ground arith;
  owner = refl;
  version = refl;
  agrees = λ h. ground arith;
}

finalize_session-Change :
    (id reference : ℕ) (store next : Store)
    → unique_ids store ≡ true
    → finalize_session id reference store ≡ ok next
    → Change store next
unfolding finalize_session open_session finalize record_finalization
finalize_session-Change id reference store next u e =
    elim (Option-cases (get_attempt id store.attempts)) [
      | inl missing ↦ absurd (ground arith)
      | inr (a, found) ↦ elim (Option-cases (get_state a.user_id store.states)) [
        | inl missing ↦ absurd (ground arith)
        | inr (s, state) ↦
            let stored = find_key (λ row. row.id) (λ row. row.id == id) store.attempts a u found in
            elim (Status-cases a.status) [
              | inl st ↦
                  moved a _ s _ stored state (ground arith) (opens-Moves a s reference st)
                    (ground arith) (ground arith)
              | inr (inl st) ↦ referenced a reference stored st (ground arith) (ground arith)
              | inr (inr st) ↦ absurd (ground arith)
            ]
      ]
    ]

fails-Moves :
    (a : IdentityVerification) (s : UserVerificationState) (code : FailureCode)
    → a.status ≡ session_pending
    → let b : IdentityVerification = record a {
      status = failed;
      safe_failure_code = some (safe_failure_code (some code));
    } in
      Moves a b s (apply_attempt_to_state s b)
unfolding apply_attempt_to_state
fails-Moves a s code st = record {
  id = refl;
  user = refl;
  live = ground arith;
  evidence = λ h. ground arith;
  owner = refl;
  version = refl;
  agrees = λ h. ground arith;
}

finalize_session_failure-Change :
    (id : ℕ) (code : FailureCode) (store : Store)
    → unique_ids store ≡ true
    → Change store (finalize_session_failure id code store)
unfolding finalize_session_failure fail_found fail_current finalize record_finalization
finalize_session_failure-Change id code store u =
    elim (Option-cases (get_attempt id store.attempts)) [
      | inl missing ↦ rw missing (kept refl refl)
      | inr (a, found) ↦ elim (Bool-cases (eq_status a.status session_pending)) [
        | inl begun ↦ elim (Option-cases (get_state a.user_id store.states)) [
          | inl missing ↦ rw (found, begun, missing) (kept refl refl)
          | inr (s, state) ↦ elim (Bool-cases (s.current_attempt_id == a.id)) [
            | inl current ↦
                let stored =
                  find_key (λ row. row.id) (λ row. row.id == id) store.attempts a u found in
                rw (found, begun, state, current)
                  (moved a _ s _ stored state (ground arith) (fails-Moves a s code (ground arith))
                    refl refl)
            | inr other ↦ rw (found, begun, state, other) (kept refl refl)
          ]
        ]
        | inr later ↦ rw (found, later) (kept refl refl)
      ]
    ]

-- a valid result that is applied
applies-Moves :
    (len : ℕ → ℕ) (result : ProviderResult) (a : IdentityVerification) (s : UserVerificationState)
    → validate_result len result ≡ ok tt
    → require_transition a.status result.status ≡ ok tt
    → let b = apply_result_to_attempt a result in Moves a b s (apply_attempt_to_state s b)
unfolding apply_attempt_to_state apply_result_to_attempt validate_result validate_evidence
    require_transition
applies-Moves len result a s valid allowed = record {
  id = refl;
  user = refl;
  live = ground arith;
  evidence = λ h. ground arith;
  owner = refl;
  version = refl;
  agrees = λ h. ground arith;
}

apply_provider_result-Change :
    (len : ℕ → ℕ) (identifier : ℕ) (result : ProviderResult) (store next : Store)
    (r : ApplyResponse)
    → unique_ids store ≡ true
    → apply_provider_result len identifier result store ≡ ok (r, next)
    → Change store next
unfolding apply_provider_result deliver dispose finalize record_finalization result_disposition
apply_provider_result-Change len identifier result store next r u e =
    elim (Result-cases (validate_result len result)) [
      | inl (x, invalid) ↦ absurd (ground arith)
      | inr (_, valid) ↦
          elim (Option-cases
            (get_by_provider_reference identifier result.provider_reference store.attempts)) [
              | inl missing ↦ absurd (ground arith)
              | inr (a, found) ↦ elim (Option-cases (get_state a.user_id store.states)) [
                | inl missing ↦ absurd (ground arith)
                | inr (s, state) ↦
                    elim (Option-cases
                      (get_by_result_event identifier result.event_id store.attempts)) [
                        | inl fresh ↦
                            elim (Result-cases (
                              result_disposition (arrival a result) (is_some a.superseded_at)
                                (s.current_attempt_id == a.id))) [
                                  | inl (x, conflict) ↦ absurd (ground arith)
                                  | inr (stale, d) ↦ kept (ground arith) (ground arith)
                                  | inr (duplicate, d) ↦ kept (ground arith) (ground arith)
                                  | inr (applied, d) ↦
                                      elim (Result-cases
                                        (require_transition a.status result.status)) [
                                          | inl (x, refused) ↦ absurd (ground arith)
                                          | inr (_, allowed) ↦
                                              moved a _ s _
                                                (find_key (λ row. row.id)
                                                  (has_reference identifier
                                                    result.provider_reference)
                                                  store.attempts a u found)
                                                state (ground arith)
                                                (applies-Moves len result a s valid allowed)
                                                (ground arith) (ground arith)
                                        ]
                                ]
                        | inr (existing, seen) ↦ kept (ground arith) (ground arith)
                      ]
              ]
            ]
    ]

module _ (len : ℕ → ℕ) (identifier : ℕ) where
  pub step-Change :
      (store : Store) (t : Transaction)
      → unique_ids store ≡ true
      → Change store (step len identifier store t)
  unfolding step
  step-Change store (claim c) u = elim (Result-cases (claim_attempt identifier c store)) [
    | inl (x, failed_call) ↦ rw failed_call (kept refl refl)
    | inr ((id, next), e) ↦ rw e (claim_attempt-Change identifier c store next id e)
  ]
  step-Change store (open_reference id reference) u =
      elim (Result-cases (finalize_session id reference store)) [
        | inl (x, failed_call) ↦ rw failed_call (kept refl refl)
        | inr (next, e) ↦ rw e (finalize_session-Change id reference store next u e)
      ]
  step-Change store (fail_session id code) u = finalize_session_failure-Change id code store u
  step-Change store (apply result) u =
      elim (Result-cases (apply_provider_result len identifier result store)) [
        | inl (x, failed_call) ↦ rw failed_call (kept refl refl)
        | inr ((r, next), e) ↦
            rw e (apply_provider_result-Change len identifier result store next r u e)
      ]
