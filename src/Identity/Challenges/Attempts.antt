-- ===== src/Identity/Challenges/Attempts.antt =====
-- Wrong codes are counted, and the last one closes the challenge.
use wheelmatch.Base.{
  ℕ, suc, ◌+◌, ◌<◌, ◌≤◌, ◌≡◌, refl, subst, ◌⊎◌, inl, inr, Bool, true, false, ◌||◌, some, List, [],
  ◌∷◌, ◌==◌, leb, length, is_some, find_sound, find-update_first, All, err, Bool-cases, arith,
}
use wheelmatch.Identity.Challenges.{
  VerificationChallenge, Store, VerifyCall, eq_kind, verification_failed,
  get_verification_challenge, is_unusable, count_attempt, verify_found, verify_challenge,
  verify_all,
}

-- no code is accepted for the challenge any more
abbrev pub is_closed : VerificationChallenge → Bool
is_closed row = is_some row.consumed_at || leb row.max_attempts row.attempt_count

-- The challenge after some calls: what a call compares with is as it was, and it is closed or has
-- counted at least `n` wrong codes.
record Counted (start : VerificationChallenge) (n : ℕ) (store : Store) : Type 0 where
  row : VerificationChallenge
  found : get_verification_challenge start.id store.challenges ≡ some row
  same_kind : row.kind ≡ start.kind
  same_secret : row.secret_hash ≡ start.secret_hash
  same_expiry : row.expires_at ≡ start.expires_at
  same_bound : row.max_attempts ≡ start.max_attempts
  progress : (is_closed row ≡ true) ⊎ (n ≤ row.attempt_count)

-- a wrong code for the challenge, asked for with its kind and before it expires
pub record Wrong (digest : ℕ → ℕ) (start : VerificationChallenge) (call : VerifyCall) : Type 0 where
  pub about : call.challenge_id ≡ start.id
  pub kind : eq_kind start.kind call.expected_kind ≡ true
  pub in_time : call.now < start.expires_at
  pub wrong : (digest call.code == start.secret_hash) ≡ false

module _ (digest : ℕ → ℕ) (start : VerificationChallenge) where
  count-Counted :
      (n : ℕ) (call : VerifyCall) (store : Store)
      → (c : Counted start n store) → is_closed c.row ≡ false
      → Counted start (suc n) (count_attempt call c.row store)
  count-Counted n call store c usable =
      let p = c.progress in
      record {
        row = record (c.row) { attempt_count = suc c.row.attempt_count };
        found =
            find-update_first (λ (r : VerificationChallenge). r.id == c.row.id)
              (λ (r : VerificationChallenge). r.id == start.id)
              (record (c.row) { attempt_count = suc c.row.attempt_count }) store.challenges c.row
              c.found (ground arith)
              (find_sound (λ (r : VerificationChallenge). r.id == start.id) store.challenges c.row
                c.found);
        same_kind = c.same_kind;
        same_secret = c.same_secret;
        same_expiry = c.same_expiry;
        same_bound = c.same_bound;
        progress = inr (ground arith);
      }

  step-Counted :
      (n : ℕ) (call : VerifyCall) (store : Store)
      → Counted start n store
      → Wrong digest start call
      → Counted start (suc n) (verify_challenge digest call store).1
  unfolding verify_challenge verify_found
  step-Counted n call store c w =
      let at : get_verification_challenge call.challenge_id store.challenges ≡ some c.row =
        rw w.about c.found in
      let kind : eq_kind c.row.kind call.expected_kind ≡ true = rw c.same_kind w.kind in
      let in_time : leb c.row.expires_at call.now ≡ false =
        rw c.same_expiry (let t = w.in_time in ground arith) in
      let wrong : (digest call.code == c.row.secret_hash) ≡ false = rw c.same_secret w.wrong in
      elim (Bool-cases (is_closed c.row)) [
        | inl closed ↦
            let unusable : is_unusable call c.row ≡ true = ground arith in
            rw (at, unusable)
              (record {
                row = c.row;
                found = c.found;
                same_kind = c.same_kind;
                same_secret = c.same_secret;
                same_expiry = c.same_expiry;
                same_bound = c.same_bound;
                progress = inl closed;
              })
        | inr live ↦
            let usable : is_unusable call c.row ≡ false = ground arith in
            rw (at, usable, wrong) (count-Counted n call store c live)
      ]

  verify_all-Counted :
      (calls : List VerifyCall) (n : ℕ) (store : Store)
      → Counted start n store
      → All (Wrong digest start) calls
      → Counted start (n + length calls) (verify_all digest calls store)
  unfolding verify_all
  verify_all-Counted [] n store c w =
      let same : n ≡ n + 0 = omega arith in subst (λ k. Counted start k store) same c
  verify_all-Counted (call ∷ calls) n store c w =
      let rest =
        verify_all-Counted calls (suc n) (verify_challenge digest call store).1
          (step-Counted n call store c w.0) w.1 in
      let same : suc n + length calls ≡ n + suc (length calls) = omega arith in
      subst (λ k. Counted start k (verify_all digest calls (verify_challenge digest call store).1))
        same rest

-- As many wrong codes as a challenge allows close it: no later call for it succeeds, whatever
-- code, kind and time it comes with.
pub verify_challenge-exhausted :
    (digest : ℕ → ℕ) (start : VerificationChallenge) (calls : List VerifyCall) (last : VerifyCall)
    (store : Store)
    → get_verification_challenge start.id store.challenges ≡ some start
    → All (Wrong digest start) calls
    → start.max_attempts ≤ length calls
    → last.challenge_id ≡ start.id
    → verify_challenge digest last (verify_all digest calls store)
      ≡ (err verification_failed, verify_all digest calls store)
unfolding verify_challenge verify_found
verify_challenge-exhausted digest start calls last store found wrong enough about =
    let c =
      verify_all-Counted digest start calls 0 store
        (record {
          row = start;
          found = found;
          same_kind = refl;
          same_secret = refl;
          same_expiry = refl;
          same_bound = refl;
          progress = inr (omega arith);
        })
        wrong in
    let at : get_verification_challenge last.challenge_id (verify_all digest calls store).challenges
        ≡ some c.row =
      rw about c.found in
    let bound = c.same_bound in
    let p = c.progress in
    let unusable : is_unusable last c.row ≡ true = ground arith in rw (at, unusable) refl
