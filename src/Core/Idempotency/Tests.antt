-- ===== src/Core/Idempotency/Tests.antt =====
-- A key that is acquired, completed and asked for again.
use wheelmatch.Base.{ℕ, ◌≡◌, refl, true, false, none, some, List, [], ◌∷◌, ok}
use wheelmatch.Core.Idempotency.{
  RequestKey, Reservation, IdempotencyRecord, reserved, reserve, complete, organization_create,
}
use wheelmatch.Core.Idempotency.Replay.{Use, reserves, completes, run_uses, reserve-complete}

abbrev creation : RequestKey
creation = record { scope = 1; operation = organization_create; key = 9 }

abbrev acquired : Reservation ℕ
acquired = record { acquired = true; replay_status = none; replay_body = none }

abbrev row : IdempotencyRecord ℕ
row = record {
  request = creation;
  request_hash = 77;
  state = reserved;
  response_status = none;
  response_body = none;
  expires_at = 100;
}

acquires : reserve {B = ℕ} creation 77 100 [] ≡ ok (acquired, row ∷ [])
unfolding reserve
acquires = refl

-- another key is reserved and completed between the two calls
abbrev between : List (Use ℕ)
between =
    reserves (record { scope = 2; operation = organization_create; key = 9 }) 78 150
    ∷ completes (record { scope = 2; operation = organization_create; key = 9 }) 201 6
    ∷ []

reserve-complete_example :
    reserve creation 77 200 (run_uses between (complete creation 201 5 (row ∷ [])))
    ≡ ok (
      record { acquired = false; replay_status = some 201; replay_body = some 5 },
      run_uses between (complete creation 201 5 (row ∷ [])),
    )
reserve-complete_example =
    reserve-complete creation 77 100 [] (row ∷ []) acquired acquires refl 201 5 between 77 200
