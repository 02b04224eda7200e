-- ===== src/Verification/Identity/Once.antt =====
-- A provider's result is applied once: its redelivery is a duplicate that changes nothing.
use wheelmatch.Base.{
  ℕ, suc, ◌≡◌, refl, ap, ◌∙◌, inl, inr, true, none, some, ok, ◌==◌, Option-cases, Result-cases,
  arith, find_sound, find-update_first, find-update_first_new, is_some, eq_option_refl,
}
use wheelmatch.Verification.State.{stale, duplicate, applied, result_disposition}
use wheelmatch.Verification.Identity.{
  IdentityVerification, UserVerificationState, Store, ApplyResponse, get_state,
  get_by_provider_reference, get_by_result_event, has_reference, has_event, write_attempt,
  write_state,
}
use wheelmatch.Verification.Identity.Results.{
  ProviderResult, validate_result, apply_result_to_attempt, apply_attempt_to_state, result_matches,
  level_index, code_index, if_verified, result_failure,
}
use wheelmatch.Verification.Identity.Applying.{
  finalize, record_finalization, dispose, deliver, apply_provider_result, arrival, apply_response,
}

-- A result matches the attempt that it was written to.
result_matches-apply :
    (a : IdentityVerification) (result : ProviderResult)
    → result_matches (apply_result_to_attempt a result) result ≡ true
unfolding result_matches apply_result_to_attempt
result_matches-apply a result = ground (
  arith,
  eq_option_refl (some result.event_id),
  eq_option_refl (level_index (if_verified result result.assurance_level)),
  eq_option_refl (if_verified result result.verified_at),
  eq_option_refl (if_verified result result.expires_at),
  eq_option_refl (code_index (result_failure result result.status)),
)

-- what an applied result shows of the rows before it
record Applied (len : ℕ → ℕ) (identifier : ℕ) (result : ProviderResult) (store next : Store)
    (r : ApplyResponse) : Type 0 where
  attempt : IdentityVerification
  state : UserVerificationState
  valid : validate_result len result ≡ ok tt
  found :
      get_by_provider_reference identifier result.provider_reference store.attempts ≡ some attempt
  owner : get_state attempt.user_id store.states ≡ some state
  fresh : get_by_result_event identifier result.event_id store.attempts ≡ none
  attempts : next.attempts ≡ write_attempt (apply_result_to_attempt attempt result) store.attempts
  states :
      next.states
      ≡ write_state
          (apply_attempt_to_state state (apply_result_to_attempt attempt result))
          store.states
  response : r ≡ record {
    attempt_id = attempt.id;
    status = result.status;
    projection_version = suc state.version;
    disposition = applied;
  }

apply_provider_result-Applied :
    (len : ℕ → ℕ) (identifier : ℕ) (result : ProviderResult) (store next : Store)
    (r : ApplyResponse)
    → apply_provider_result len identifier result store ≡ ok (r, next)
    → r.disposition ≡ applied
    → Applied len identifier result store next r
unfolding apply_provider_result deliver dispose finalize record_finalization apply_attempt_to_state
    apply_result_to_attempt
apply_provider_result-Applied len identifier result store next r e done =
    elim (Result-cases (validate_result len result)) [
      | inl (x, invalid) ↦ absurd (ground arith)
      | inr (_, valid) ↦
          elim (Option-cases
            (get_by_provider_reference identifier result.provider_reference store.attempts)) [
              | inl missing ↦ absurd (ground arith)
              | inr (a, found) ↦ elim (Option-cases (get_state a.user_id store.states)) [
                | inl missing ↦ absurd (ground arith)
                | inr (s, state) ↦
                    elim (Option-cases
                      (get_by_result_event identifier result.event_id store.attempts)) [
                        | inl fresh ↦
                            elim (Result-cases (
                              result_disposition (arrival a result) (is_some a.superseded_at)
                                (s.current_attempt_id == a.id))) [
                                  | inl (x, conflict) ↦ absurd (ground arith)
                                  | inr (stale, d) ↦ absurd (ground arith)
                                  | inr (duplicate, d) ↦ absurd (ground arith)
                                  | inr (applied, d) ↦ record {
                                    attempt = a;
                                    state = s;
                                    valid = valid;
                                    found = found;
                                    owner = state;
                                    fresh = fresh;
                                    attempts = ground arith;
                                    states = ground arith;
                                    response = ground arith;
                                  }
                                ]
                        | inr (existing, seen) ↦ absurd (ground arith)
                      ]
              ]
            ]
    ]

-- what the three lookups find after the writes
module _ (identifier : ℕ) (result : ProviderResult) (a b : IdentityVerification)
    (s t : UserVerificationState) (store next : Store)
    (found : get_by_provider_reference identifier result.provider_reference store.attempts ≡ some a)
    (owner : get_state a.user_id store.states ≡ some s)
    (attempts : next.attempts ≡ write_attempt b store.attempts)
    (states : next.states ≡ write_state t store.states) (same : b.id ≡ a.id)
    (user : b.user_id ≡ a.user_id) (mine : t.user_id ≡ s.user_id) where
  found_again :
      has_reference identifier result.provider_reference b ≡ true
      → get_by_provider_reference identifier result.provider_reference next.attempts ≡ some b
  found_again h = rw attempts (
      find-update_first (λ row. row.id == b.id) (has_reference identifier result.provider_reference)
        b store.attempts a found (ground arith) h)

  state_again : get_state b.user_id next.states ≡ some t
  state_again =
      let own = find_sound (λ row. row.user_id == a.user_id) store.states s owner in
      let key : get_state b.user_id store.states ≡ some s =
        ap (λ k. get_state k store.states) user ∙ owner in
      rw states (
        find-update_first (λ row. row.user_id == t.user_id) (λ row. row.user_id == b.user_id) t
          store.states s key (ground arith) (ground arith))

  event_seen :
      get_by_result_event identifier result.event_id store.attempts ≡ none
      → has_event identifier result.event_id b ≡ true
      → get_by_result_event identifier result.event_id next.attempts ≡ some b
  event_seen fresh h = rw attempts (
      find-update_first_new (λ row. row.id == b.id)
        (has_reference identifier result.provider_reference) (has_event identifier result.event_id)
        b store.attempts a fresh found (ground arith) h)

-- a valid result that finds its attempt with its own event on it
apply_provider_result-duplicate :
    (len : ℕ → ℕ) (identifier : ℕ) (result : ProviderResult) (b : IdentityVerification)
    (t : UserVerificationState) (next : Store)
    → validate_result len result ≡ ok tt
    → get_by_provider_reference identifier result.provider_reference next.attempts ≡ some b
    → get_state b.user_id next.states ≡ some t
    → get_by_result_event identifier result.event_id next.attempts ≡ some b
    → result_matches b result ≡ true
    → apply_provider_result len identifier result next
      ≡ ok (apply_response b t.version duplicate, next)
unfolding apply_provider_result deliver
apply_provider_result-duplicate len identifier result b t next valid found state seen matches =
    rw (valid, found, state, seen, matches) (ground arith)

-- When a result has been applied, delivering it again answers `duplicate` with the same attempt,
-- status and projection version, and changes nothing: no row, no event and no audit entry.
pub apply_provider_result-redelivered :
    (len : ℕ → ℕ) (identifier : ℕ) (result : ProviderResult) (store next : Store)
    (r : ApplyResponse)
    → apply_provider_result len identifier result store ≡ ok (r, next)
    → r.disposition ≡ applied
    → apply_provider_result len identifier result next
      ≡ ok (record r { disposition = duplicate }, next)
unfolding apply_result_to_attempt apply_attempt_to_state
apply_provider_result-redelivered len identifier result store next r e done =
    let h = apply_provider_result-Applied len identifier result store next r e done in
    let a = h.attempt in
    let b = apply_result_to_attempt a result in
    let t = apply_attempt_to_state h.state b in
    let mine =
      find_sound (has_reference identifier result.provider_reference) store.attempts a h.found in
    let again =
      found_again identifier result a b h.state t store next h.found h.owner h.attempts h.states
        refl refl refl mine in
    let state =
      state_again identifier result a b h.state t store next h.found h.owner h.attempts h.states
        refl refl refl in
    let seen =
      event_seen identifier result a b h.state t store next h.found h.owner h.attempts h.states refl
        refl refl h.fresh (ground arith) in
    apply_provider_result-duplicate len identifier result b t next h.valid again state seen
      (result_matches-apply a result)
    ∙ rw (h.response) refl
