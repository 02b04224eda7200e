-- ===== src/Core/Idempotency.antt =====
-- Reservations of idempotency keys, backend/app/core/idempotency/repository.py. A request hash and
-- a key are numbers, since they are only compared; `B` is the type of the recorded bodies.
pub mod Replay
pub mod Once
mod Tests
use Prim.Native.String.{String}
use wheelmatch.Base.{
  ℕ, Bool, true, false, not, ◌&&◌, Option, none, some, List, [], ◌∷◌, ◌++◌, ◌==◌, if◌then◌else◌,
  find, update_where, Result, ok, err,
}

-- the operation texts, of which some name an organization or a listing
pub data Operation : Type 0 where
  organization_create : Operation
  membership_invite : ℕ → Operation
  identity_verification_start listing_draft_create : Operation
  ownership_verification_start listing_submit : ℕ → Operation
  named : ℕ → Operation

abbrev pub eq_operation : Operation → Operation → Bool
eq_operation organization_create organization_create = true
eq_operation (membership_invite a) (membership_invite b) = a == b
eq_operation identity_verification_start identity_verification_start = true
eq_operation listing_draft_create listing_draft_create = true
eq_operation (ownership_verification_start a) (ownership_verification_start b) = a == b
eq_operation (listing_submit a) (listing_submit b) = a == b
eq_operation (named a) (named b) = a == b
eq_operation _ _ = false

-- the columns of `uq_idempotency_scope_operation_key`
pub record RequestKey : Type 0 where
  pub scope : ℕ
  pub operation : Operation
  pub key : ℕ

abbrev pub eq_key : RequestKey → RequestKey → Bool
eq_key a b = a.scope == b.scope && (eq_operation a.operation b.operation && a.key == b.key)

pub data State : Type 0 where
  reserved completed : State

pub record IdempotencyRecord (B : Type 0) : Type 0 where
  pub request : RequestKey
  pub request_hash : ℕ
  pub state : State
  pub response_status : Option ℕ
  pub response_body : Option B
  pub expires_at : ℕ

pub record Reservation (B : Type 0) : Type 0 where
  pub acquired : Bool
  pub replay_status : Option ℕ
  pub replay_body : Option B

pub data ConflictError : Type 0 where
  payload_mismatch : ConflictError

abbrev pub is_reserved : State → Bool
is_reserved reserved = true
is_reserved completed = false

module _ {B : Type 0} where
  -- the row that the key has after `ON CONFLICT DO NOTHING`
  reserve_row :
      RequestKey
      → ℕ
      → ℕ
      → Option (IdempotencyRecord B)
      → List (IdempotencyRecord B)
      → Result ConflictError (Reservation B × List (IdempotencyRecord B))
  reserve_row request request_hash expires_at none rows = ok (
    record { acquired = true; replay_status = none; replay_body = none },
    rows
        ++ record {
          request = request;
          request_hash = request_hash;
          state = reserved;
          response_status = none;
          response_body = none;
          expires_at = expires_at;
        }
          ∷ [],
  )
  reserve_row request request_hash expires_at (some existing) rows =
      if not (existing.request_hash == request_hash)
      then err payload_mismatch
      else ok (
        record {
          acquired = false;
          replay_status = existing.response_status;
          replay_body = existing.response_body;
        },
        rows,
      )

  unfoldable pub reserve :
      RequestKey
      → ℕ
      → ℕ
      → List (IdempotencyRecord B)
      → Result ConflictError (Reservation B × List (IdempotencyRecord B))
  unfolding reserve_row
  reserve request request_hash expires_at rows =
      reserve_row request request_hash expires_at (find (λ row. eq_key row.request request) rows)
        rows

  unfoldable pub complete :
      RequestKey → ℕ → B → List (IdempotencyRecord B) → List (IdempotencyRecord B)
  complete request response_status response_body =
      update_where (λ row. eq_key row.request request && is_reserved row.state)
        (λ row. record row {
          state = completed;
          response_status = some response_status;
          response_body = some response_body;
        })
