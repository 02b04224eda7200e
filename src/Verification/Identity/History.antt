-- ===== src/Verification/Identity/History.antt =====
-- Histories of identity verification: the transactions of its service, in any order and for any
-- users, so also those of starts that overlap.
use wheelmatch.Base.{ℕ, List, [], ◌∷◌, Result, ok, err}
use wheelmatch.Verification.Identity.{FailureCode, Store, Outcome, ErrorCode}
use wheelmatch.Verification.Identity.Results.{ProviderResult}
use wheelmatch.Verification.Identity.Applying.{apply_provider_result}
use wheelmatch.Verification.Identity.Starting.{
  StartCall, claim_attempt, finalize_session, finalize_session_failure,
}

pub data Transaction : Type 0 where
  claim : StartCall → Transaction
  open_reference : (attempt_id reference : ℕ) → Transaction
  fail_session : (attempt_id : ℕ) → FailureCode → Transaction
  apply : ProviderResult → Transaction

-- A transaction that raises leaves the store as it was.
abbrev pub after : {A : Type 0} → Store → Outcome A → Store
after store (ok (a, next)) = next
after store (err e) = store

abbrev pub after_write : Store → Result ErrorCode Store → Store
after_write store (ok next) = next
after_write store (err e) = store

module _ (len : ℕ → ℕ) (identifier : ℕ) where
  unfoldable pub step : Store → Transaction → Store
  step store (claim c) = after store (claim_attempt identifier c store)
  step store (open_reference id reference) = after_write store (finalize_session id reference store)
  step store (fail_session id code) = finalize_session_failure id code store
  step store (apply result) = after store (apply_provider_result len identifier result store)

  unfoldable pub run : Store → List Transaction → Store
  unfolding step
  run store [] = store
  run store (t ∷ rest) = run (step store t) rest
