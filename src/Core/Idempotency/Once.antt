-- ===== src/Core/Idempotency/Once.antt =====
-- What a handler does with its reservation: a mismatch and a key in use raise, a completed key is
-- replayed, and an acquired key goes on.
use wheelmatch.Base.{
  ◌≡◌, ◌⊎◌, inl, inr, Option, none, some, List, Result, ok, err, if◌then◌else◌, Bool-cases,
  Option-cases, arith,
}
use wheelmatch.Core.Idempotency.{IdempotencyRecord, Reservation, ConflictError, payload_mismatch}

module _ {B E A : Type 0} where
  replay_or : E → (B → Result E A) → Option B → Result E A
  replay_or in_progress replay none = err in_progress
  replay_or in_progress replay (some body) = replay body

  unfoldable pub once :
      E
      → E
      → (B → Result E A)
      → (List (IdempotencyRecord B) → Result E A)
      → Result ConflictError (Reservation B × List (IdempotencyRecord B))
      → Result E A
  unfolding replay_or
  once conflict in_progress replay acquired (err payload_mismatch) = err conflict
  once conflict in_progress replay acquired (ok (reservation, rows)) =
      if reservation.acquired
      then acquired rows
      else replay_or in_progress replay reservation.replay_body

  -- What is returned was replayed, or comes from an acquired key.
  pub once-ok :
      (conflict in_progress : E) (replay : B → Result E A)
      (acquired : List (IdempotencyRecord B) → Result E A)
      (r : Result ConflictError (Reservation B × List (IdempotencyRecord B))) (a : A)
      → once conflict in_progress replay acquired r ≡ ok a
      → ((body : B) × (replay body ≡ ok a))
        ⊎ ((rows : List (IdempotencyRecord B)) × (acquired rows ≡ ok a))
  unfolding once replay_or
  once-ok conflict in_progress replay acquired (err payload_mismatch) a e = absurd (cc)
  once-ok conflict in_progress replay acquired (ok (reservation, rows)) a e =
      elim (Bool-cases reservation.acquired) [
        | inl got ↦ inr (rows, ground arith)
        | inr held ↦ elim (Option-cases reservation.replay_body) [
          | inl empty ↦ absurd (ground arith)
          | inr (body, b) ↦ inl (body, ground arith)
        ]
      ]
