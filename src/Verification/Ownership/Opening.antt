-- ===== src/Verification/Ownership/Opening.antt =====
-- What a start of an ownership verification that succeeds leaves.
use wheelmatch.Base.{
  subst, sym, ℕ, ◌≡◌, refl, ap, ◌∙◌, ◌⊎◌, inl, inr, false, List, some, ok, ◌==◌, Option-cases,
  Result-cases, Bool-cases, Result, arith, find_sound, find-update_first,
}
use wheelmatch.Listings.Drafts.{Listing, get}
use wheelmatch.Verification.State.{
  verified, pending, manual_review, eq_status, one_of, terminal_statuses, ProviderError,
  Status-cases,
}
use wheelmatch.Verification.Reuse.{OwnershipReusePolicy}
use wheelmatch.Verification.Ownership.{
  ErrorCode, OwnershipVerification, OwnershipClaim, Store, get_ownership,
}
use wheelmatch.Verification.Ownership.Claims.{Material, ClaimCall}
use wheelmatch.Verification.Ownership.Claiming.{claim_ownership}
use wheelmatch.Verification.Ownership.Finalizing.{
  finalize_ownership_session, open_ownership_session, finalize_ownership, record_ownership,
}
use wheelmatch.Verification.Ownership.Starting.{
  StartResponse, read_claimed, continue_start, answer_start, start_ownership,
}

-- the attempt waits for the provider's result under its reference
pub record IsWaiting (id reference : ℕ) (store : Store) : Type 0 where
  pub attempt : OwnershipVerification
  pub found : get_ownership id store.attempts ≡ some attempt
  pub referenced : attempt.provider_reference ≡ some reference
  pub waiting : attempt.status ≡ pending

finalize_ownership_session-IsWaiting :
    (id reference : ℕ) (store next : Store)
    → finalize_ownership_session id reference store ≡ ok next
    → IsWaiting id reference next
unfolding finalize_ownership_session open_ownership_session finalize_ownership record_ownership
finalize_ownership_session-IsWaiting id reference store next e =
    elim (Option-cases (get_ownership id store.attempts)) [
      | inl missing ↦ absurd (ground arith)
      | inr (a, found) ↦
          let own = find_sound (λ row. row.id == id) store.attempts a found in
          let b : OwnershipVerification = record a {
            provider_reference = some reference;
            status = pending;
          } in
          elim (Status-cases a.status) [
            | inl st ↦ record {
              attempt = b;
              found =
                  ap (get_ownership id) (ground arith)
                  ∙ find-update_first (λ row. row.id == b.id) (λ row. row.id == id) b store.attempts
                      a found (ground arith) own;
              referenced = refl;
              waiting = refl;
            }
            | inr (inl st) ↦ record {
              attempt = record a { provider_reference = some reference };
              found =
                  ap (get_ownership id) (ground arith)
                  ∙ find-update_first (λ row. row.id == a.id) (λ row. row.id == id)
                      (record a { provider_reference = some reference }) store.attempts a found
                      (ground arith) own;
              referenced = refl;
              waiting = st;
            }
            | inr (inr st) ↦ absurd (ground arith)
          ]
    ]

answer_start-IsWaiting :
    (listing_id : ℕ) (attempt : OwnershipVerification) (reference : ℕ) (store : Store)
    (r : StartResponse)
    → (answer_start listing_id attempt (ok reference) store).0 ≡ ok r
    → (r.status ≡ pending)
      × (r.attempt_id ≡ attempt.id)
      × IsWaiting attempt.id reference (answer_start listing_id attempt (ok reference) store).1
unfolding answer_start
answer_start-IsWaiting listing_id attempt reference store r e =
    elim (Result-cases (finalize_ownership_session attempt.id reference store)) [
      | inl (x, refused) ↦ absurd (ground arith)
      | inr (next, f) ↦ elim (Option-cases (get listing_id next.listings)) [
        | inl missing ↦ absurd (ground arith)
        | inr (listing, l) ↦
            let last : (answer_start listing_id attempt (ok reference) store).1 ≡ next =
              ground arith in
            (
              ground arith,
              ground arith,
              subst (IsWaiting attempt.id reference) (sym last)
                  (finalize_ownership_session-IsWaiting attempt.id reference store next f),
            )
      ]
    ]

-- what an answer says of the claim, or of the provider and of the attempt's row
abbrev pub Answered :
    Result ErrorCode (OwnershipClaim × Store)
    → (ℕ → Result ProviderError ℕ)
    → StartResponse
    → Store
    → Type 0
Answered claimed provider r store =
    ((claim : OwnershipClaim) × (claimed ≡ ok (claim, store))
      × (claim.provider_required ≡ false)
      × (r.status ≡ verified)
      × (r.attempt_id ≡ claim.attempt_id))
    ⊎ ((reference : ℕ) × (provider r.attempt_id ≡ ok reference)
        × (r.status ≡ pending)
        × IsWaiting r.attempt_id reference store)

continue_start-Answered :
    (provider : ℕ → ℕ → Result ProviderError ℕ) (meanwhile : Store → Store) (c : ClaimCall)
    (claim : OwnershipClaim) (attempt : OwnershipVerification) (listing : Listing) (store : Store)
    (r : StartResponse)
    → attempt.id ≡ claim.attempt_id
    → (continue_start provider meanwhile c claim (attempt, listing) store).0 ≡ ok r
    → Answered
        (ok (claim, store))
        (λ id. provider id c.actor_user_id)
        r
        (continue_start provider meanwhile c claim (attempt, listing) store).1
unfolding continue_start
continue_start-Answered provider meanwhile c claim attempt listing store r same e =
    elim (Bool-cases claim.provider_required) [
      | inr free ↦ inl (claim, ground arith, free, ground arith, ground arith)
      | inl needed ↦ elim (Bool-cases (eq_status attempt.status manual_review)) [
        | inl review ↦ absurd (ground arith)
        | inr unreviewed ↦ elim (Bool-cases (one_of terminal_statuses attempt.status)) [
          | inl closed ↦ absurd (ground arith)
          | inr live ↦ elim (Result-cases (provider claim.attempt_id c.actor_user_id)) [
            | inl (x, failed_call) ↦ absurd (ground arith)
            | inr (reference, p) ↦
                let run : continue_start provider meanwhile c claim (attempt, listing) store
                    ≡ answer_start c.listing_id attempt (ok reference) (meanwhile store) =
                  ground arith in
                let (status, id, waiting) =
                  answer_start-IsWaiting c.listing_id attempt reference (meanwhile store) r
                    (ap (λ x. x.0) (sym run) ∙ e) in
                inr (
                  reference,
                  ap (λ i. provider i c.actor_user_id) (id ∙ same) ∙ p,
                  status,
                  subst
                      (λ i.
                        IsWaiting i reference
                          (continue_start provider meanwhile c claim (attempt, listing) store).1)
                      (sym id)
                      (subst (IsWaiting attempt.id reference) (ap (λ x. x.1) (sym run)) waiting),
                )
          ]
        ]
      ]
    ]

read_claimed-id :
    (actor listing_id : ℕ) (claim : OwnershipClaim) (store : Store)
    (attempt : OwnershipVerification) (listing : Listing)
    → read_claimed actor listing_id claim store ≡ ok (attempt, listing)
    → attempt.id ≡ claim.attempt_id
unfolding read_claimed
read_claimed-id actor listing_id claim store attempt listing e =
    elim (Option-cases (get_ownership claim.attempt_id store.attempts)) [
      | inl missing ↦ absurd (ground arith)
      | inr (row, found) ↦ elim (Option-cases (get listing_id store.listings)) [
        | inl missing ↦ absurd (ground arith)
        | inr (l, listed) ↦
            let mine = find_sound (λ row. row.id == claim.attempt_id) store.attempts row found in
            ground arith
      ]
    ]

-- A start that succeeds answers `verified` for an attempt that its claim found to need no provider,
-- and leaves the rows as the claim did; or it answers `pending`, and then the provider answered for
-- that attempt with a reference, under which the attempt is stored as pending, whatever other
-- transactions ran while the provider was asked.
pub start_ownership-Answered :
    (policy : OwnershipReusePolicy) (identifier : ℕ) (fingerprint : Material → List ℕ)
    (provider : ℕ → ℕ → Result ProviderError ℕ) (meanwhile : Store → Store) (c : ClaimCall)
    (store : Store) (r : StartResponse)
    → (start_ownership policy identifier fingerprint provider meanwhile c store).0 ≡ ok r
    → Answered
        (claim_ownership policy identifier fingerprint c store)
        (λ id. provider id c.actor_user_id)
        r
        (start_ownership policy identifier fingerprint provider meanwhile c store).1
unfolding start_ownership
start_ownership-Answered policy identifier fingerprint provider meanwhile c store r e =
    elim (Result-cases (claim_ownership policy identifier fingerprint c store)) [
      | inl (x, refused) ↦ absurd (ground arith)
      | inr ((claim, claimed), k) ↦
          elim (Result-cases (read_claimed c.actor_user_id c.listing_id claim claimed)) [
            | inl (x, refused) ↦ absurd (ground arith)
            | inr ((attempt, listing), found) ↦
                let same =
                  read_claimed-id c.actor_user_id c.listing_id claim claimed attempt listing
                    found in
                let go : start_ownership policy identifier fingerprint provider meanwhile c store
                    ≡ continue_start provider meanwhile c claim (attempt, listing) claimed =
                  ground arith in
                let last =
                  (start_ownership policy identifier fingerprint provider meanwhile c store).1 in
                let asked : ℕ → Result ProviderError ℕ = λ id. provider id c.actor_user_id in
                let answered : Answered (ok (claim, claimed)) asked r last =
                  subst (Answered (ok (claim, claimed)) asked r) (ap (λ x. x.1) (sym go)) (
                    continue_start-Answered provider meanwhile c claim attempt listing claimed r
                      same (ap (λ x. x.0) (sym go) ∙ e)) in
                subst (λ outcome. Answered outcome asked r last) (sym k) answered
          ]
    ]
