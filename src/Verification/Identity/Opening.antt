-- ===== src/Verification/Identity/Opening.antt =====
-- What a start that succeeds leaves: an open attempt that the user's projection shows.
use wheelmatch.Base.{
  subst, sym, ℕ, suc, ◌≡◌, refl, ap, ◌∙◌, inl, inr, some, ok, ◌==◌, Option-cases, Result-cases,
  Result, arith, find_sound, find-update_first,
}
use wheelmatch.Verification.State.{pending, ProviderError, Status-cases}
use wheelmatch.Verification.Identity.{
  IdentityVerification, UserVerificationState, Store, get_attempt, get_state,
}
use wheelmatch.Verification.Identity.Applying.{finalize, record_finalization}
use wheelmatch.Verification.Identity.Starting.{
  StartCall, claim_attempt, check_attempt, open_session, finalize_session, answered, start,
}

-- the attempt waits for the provider's result under its reference, and is its user's current one
pub record Opened (id reference : ℕ) (store : Store) : Type 0 where
  pub attempt : IdentityVerification
  pub state : UserVerificationState
  pub found : get_attempt id store.attempts ≡ some attempt
  pub referenced : attempt.provider_reference ≡ some reference
  pub waiting : attempt.status ≡ pending
  pub projected : get_state attempt.user_id store.states ≡ some state
  pub current : state.current_attempt_id ≡ id

finalize_session-Opened :
    (id reference : ℕ) (store next : Store)
    → finalize_session id reference store ≡ ok next
    → Opened id reference next
unfolding finalize_session open_session finalize record_finalization
finalize_session-Opened id reference store next e =
    elim (Option-cases (get_attempt id store.attempts)) [
      | inl missing ↦ absurd (ground arith)
      | inr (a, found) ↦ elim (Option-cases (get_state a.user_id store.states)) [
        | inl missing ↦ absurd (ground arith)
        | inr (s, state) ↦
            let own = find_sound (λ row. row.id == id) store.attempts a found in
            let mine = find_sound (λ row. row.user_id == a.user_id) store.states s state in
            let b : IdentityVerification = record a {
              provider_reference = some reference;
              status = pending;
            } in
            elim (Status-cases a.status) [
              | inl st ↦
                  let t : UserVerificationState = record s {
                    effective_status = pending;
                    version = suc s.version;
                  } in
                  record {
                    attempt = b;
                    state = t;
                    found =
                        ap (get_attempt id) (ground arith)
                        ∙ find-update_first (λ row. row.id == b.id) (λ row. row.id == id) b
                            store.attempts a found (ground arith) own;
                    referenced = refl;
                    waiting = refl;
                    projected =
                        ap (get_state a.user_id) (ground arith)
                        ∙ find-update_first (λ row. row.user_id == t.user_id)
                            (λ row. row.user_id == a.user_id) t store.states s state (ground arith)
                            mine;
                    current = ground arith;
                  }
              | inr (inl st) ↦ record {
                attempt = record a { provider_reference = some reference };
                state = s;
                found =
                    ap (get_attempt id) (ground arith)
                    ∙ find-update_first (λ row. row.id == a.id) (λ row. row.id == id)
                        (record a { provider_reference = some reference }) store.attempts a found
                        (ground arith) own;
                referenced = refl;
                waiting = st;
                projected = ap (get_state a.user_id) (ground arith) ∙ state;
                current = ground arith;
              }
              | inr (inr st) ↦ absurd (ground arith)
            ]
      ]
    ]

-- A start that returns an attempt was answered by the provider with a reference for it, and leaves
-- the attempt pending under that reference, as the current one of its user's projection, whatever
-- other transactions ran while the provider was asked.
pub start-Opened :
    (provider : ℕ → ℕ → Result ProviderError ℕ) (meanwhile : Store → Store) (identifier : ℕ)
    (c : StartCall) (store : Store) (id : ℕ)
    → (start provider meanwhile identifier c store).0 ≡ ok id
    → (reference : ℕ) × (provider id c.actor_user_id ≡ ok reference)
      × Opened id reference (start provider meanwhile identifier c store).1
unfolding start answered
start-Opened provider meanwhile identifier c store id e =
    elim (Result-cases (claim_attempt identifier c store)) [
      | inl (x, refused) ↦ absurd (ground arith)
      | inr ((claimed_id, claimed), k) ↦
          elim (Result-cases (check_attempt c.actor_user_id claimed_id claimed)) [
            | inl (x, refused) ↦ absurd (ground arith)
            | inr (_, passed) ↦ elim (Result-cases (provider claimed_id c.actor_user_id)) [
              | inl (x, failed_call) ↦ absurd (ground arith)
              | inr (reference, p) ↦
                  elim (Result-cases (finalize_session claimed_id reference (meanwhile claimed))) [
                    | inl (x, refused) ↦ absurd (ground arith)
                    | inr (next, f) ↦
                        let same : claimed_id ≡ id = ground arith in
                        let last : (start provider meanwhile identifier c store).1 ≡ next =
                          ground arith in
                        (
                          reference,
                          ap (λ i. provider i c.actor_user_id) (sym same) ∙ p,
                          subst (Opened id reference) (sym last) (
                              subst (λ i. Opened i reference next) same
                                (finalize_session-Opened claimed_id reference (meanwhile claimed)
                                  next f)),
                        )
                  ]
            ]
          ]
    ]
