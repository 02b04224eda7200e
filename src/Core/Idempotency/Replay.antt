-- ===== src/Core/Idempotency/Replay.antt =====
-- A key is acquired once; later calls replay what the first recorded.
use wheelmatch.Base.{
  Bool-cases, Result, find-append_some, find-append_none, find-update_where, ℕ, ◌≡◌, refl, ◌∙◌,
  true, false, none, some, List, [], ◌∷◌, arith, find, ok, err, ◌==◌, Option-cases, inl, inr,
  if◌then◌else◌,
}
use wheelmatch.Core.Idempotency.{
  RequestKey, IdempotencyRecord, Reservation, ConflictError, reserved, completed, reserve,
  reserve_row, complete, eq_key, payload_mismatch,
}

eq_key_refl : (k : RequestKey) → eq_key k k ≡ true
eq_key_refl k = ground arith

-- what other calls do to the table: they reserve keys, and complete keys
pub data Use (B : Type 0) : Type 0 where
  reserves : RequestKey → (request_hash expires_at : ℕ) → Use B
  completes : RequestKey → (status : ℕ) → B → Use B

module _ {B : Type 0} where
  -- A key that was acquired is found again, with what it was acquired for.
  reserve-find :
      (k : RequestKey) (h e : ℕ) (rows after : List (IdempotencyRecord B)) (r : Reservation B)
      → reserve k h e rows ≡ ok (r, after)
      → r.acquired ≡ true
      → (row : IdempotencyRecord B) × (find (λ x. eq_key x.request k) after ≡ some row)
        × (row.request_hash ≡ h)
        × (row.state ≡ reserved)
        × (eq_key row.request k ≡ true)
  unfolding reserve
  reserve-find k h e rows after r done got =
      elim (Option-cases (find (λ (x : IdempotencyRecord B). eq_key x.request k) rows)) [
        | inl new ↦ (
          record {
            request = k;
            request_hash = h;
            state = reserved;
            response_status = none;
            response_body = none;
            expires_at = e;
          },
          ground (
            arith,
            find-append_none (λ (x : IdempotencyRecord B). eq_key x.request k) rows
                (record {
                  request = k;
                  request_hash = h;
                  state = reserved;
                  response_status = none;
                  response_body = none;
                  expires_at = e;
                })
                new (eq_key_refl k),
          ),
          refl,
          refl,
          eq_key_refl k,
        )
        | inr (old, found) ↦ absurd (ground arith)
      ]

  complete-find :
      (k : RequestKey) (status : ℕ) (body : B) (rows : List (IdempotencyRecord B))
      (row : IdempotencyRecord B)
      → find (λ x. eq_key x.request k) rows ≡ some row
      → row.state ≡ reserved
      → eq_key row.request k ≡ true
      → find (λ x. eq_key x.request k) (complete k status body rows)
        ≡ some (record row {
          state = completed;
          response_status = some status;
          response_body = some body;
        })
  unfolding complete
  complete-find k status body rows row found st same =
      find-update_where _ (λ (x : IdempotencyRecord B). eq_key x.request k) _ rows row (λ x. refl)
        found
      ∙ rw (same, st) refl

  -- A reservation that raises leaves the table as it was.
  abbrev pub kept_rows :
      List (IdempotencyRecord B)
      → Result ConflictError (Reservation B × List (IdempotencyRecord B))
      → List (IdempotencyRecord B)
  kept_rows rows (ok (r, next)) = next
  kept_rows rows (err e) = rows

  unfoldable pub use_key : Use B → List (IdempotencyRecord B) → List (IdempotencyRecord B)
  use_key (reserves k h e) rows = kept_rows rows (reserve k h e rows)
  use_key (completes k status body) rows = complete k status body rows

  unfoldable pub run_uses : List (Use B) → List (IdempotencyRecord B) → List (IdempotencyRecord B)
  unfolding use_key
  run_uses [] rows = rows
  run_uses (u ∷ uses) rows = run_uses uses (use_key u rows)

  -- A completed key keeps its row.
  use_key-find :
      (k : RequestKey) (u : Use B) (rows : List (IdempotencyRecord B)) (row : IdempotencyRecord B)
      → find (λ x. eq_key x.request k) rows ≡ some row
      → row.state ≡ completed
      → find (λ x. eq_key x.request k) (use_key u rows) ≡ some row
  unfolding use_key reserve reserve_row complete
  use_key-find k (reserves other h e) rows row found st =
      elim (Option-cases (find (λ (x : IdempotencyRecord B). eq_key x.request other) rows)) [
        | inl new ↦
            rw new
              (find-append_some (λ (x : IdempotencyRecord B). eq_key x.request k) rows _ row found)
        | inr (old, held) ↦ elim (Bool-cases (old.request_hash == h)) [
          | inl same ↦ rw (held, same) found
          | inr differs ↦ rw (held, differs) found
        ]
      ]
  use_key-find k (completes other status body) rows row found st =
      find-update_where _ (λ (x : IdempotencyRecord B). eq_key x.request k) _ rows row (λ x. refl)
        found
      ∙ ground (arith)

  run_uses-find :
      (k : RequestKey) (uses : List (Use B)) (rows : List (IdempotencyRecord B))
      (row : IdempotencyRecord B)
      → find (λ x. eq_key x.request k) rows ≡ some row
      → row.state ≡ completed
      → find (λ x. eq_key x.request k) (run_uses uses rows) ≡ some row
  unfolding run_uses
  run_uses-find k [] rows row found st = found
  run_uses-find k (u ∷ uses) rows row found st =
      run_uses-find k uses (use_key u rows) row (use_key-find k u rows row found st) st

  -- Once a call has acquired a key and recorded its response, every later call with that key and
  -- the same request replays the recorded status and body, and one with another request is refused,
  -- whatever reservations and completions of any keys come between; neither acquires the key nor
  -- changes a row.
  pub reserve-complete :
      (k : RequestKey) (h e : ℕ) (rows after : List (IdempotencyRecord B)) (r : Reservation B)
      → reserve k h e rows ≡ ok (r, after)
      → r.acquired ≡ true
      → (status : ℕ) (body : B) (uses : List (Use B)) (h' e' : ℕ)
      → let later = run_uses uses (complete k status body after) in
        reserve k h' e' later ≡ (
          if h == h'
          then ok (
            record { acquired = false; replay_status = some status; replay_body = some body },
            later,
          )
          else err payload_mismatch)
  unfolding reserve
  reserve-complete k h e rows after r done got status body uses h' e' =
      let (row, found, hash, st, same) = reserve-find k h e rows after r done got in
      let stays =
        run_uses-find k uses (complete k status body after) _
          (complete-find k status body after row found st same) refl in
      rw (stays, reserve, reserve_row, hash) (ground arith)
