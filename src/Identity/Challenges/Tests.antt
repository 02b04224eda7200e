-- ===== src/Identity/Challenges/Tests.antt =====
-- A challenge that allows two attempts, and the right code after two wrong ones.
use wheelmatch.Base.{ℕ, ◌+◌, ◌≡◌, refl, none, List, [], ◌∷◌, err, arith}
use wheelmatch.Identity.Challenges.{
  VerificationChallenge, Store, VerifyCall, Kind, verification_failed, verify_challenge, verify_all,
}
use wheelmatch.Identity.Challenges.Attempts.{Wrong, verify_challenge-exhausted}

abbrev challenge : VerificationChallenge
challenge = record {
  id = 4;
  user_id = 1;
  kind = Kind.email;
  secret_hash = 1005;
  attempt_count = 0;
  max_attempts = 2;
  expires_at = 100;
  consumed_at = none;
}

abbrev waiting : Store
waiting = record {
  users = [];
  challenges = challenge ∷ [];
  outbox = [];
  audit = [];
  invalidated = [];
}

abbrev digest : ℕ → ℕ
digest code = 1000 + code

abbrev guess : ℕ → ℕ → VerifyCall
guess code now = record { now = now; challenge_id = 4; code = code; expected_kind = Kind.email }

abbrev guesses : List VerifyCall
guesses = guess 3 10 ∷ guess 4 11 ∷ []

first-Wrong : Wrong digest challenge (guess 3 10)
first-Wrong = record { about = refl; kind = refl; in_time = omega arith; wrong = refl }

second-Wrong : Wrong digest challenge (guess 4 11)
second-Wrong = record { about = refl; kind = refl; in_time = omega arith; wrong = refl }

verify_challenge-exhausted_example :
    verify_challenge digest (guess 5 12) (verify_all digest guesses waiting)
    ≡ (err verification_failed, verify_all digest guesses waiting)
verify_challenge-exhausted_example =
    verify_challenge-exhausted digest challenge guesses (guess 5 12) waiting refl
      (first-Wrong, (second-Wrong, tt)) (omega arith) refl
