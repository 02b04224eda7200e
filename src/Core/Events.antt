-- ===== src/Core/Events.antt =====
-- The rows that every handler appends: events for the outbox, backend/app/core/outbox/service.py,
-- and audit entries, backend/app/modules/audit/service.py. Request ids and traces are left out.
use Prim.Native.String.{String, compare}
use Prim.Native.Nat.{Ordering}
use wheelmatch.Base.{ℕ, Bool, true, false, ◌&&◌, Option, List, [], ◌∷◌, ◌++◌, ◌==◌, any}

-- a value of a JSON payload
pub data Value : Type 0 where
  uuid : ℕ → Value
  text : String → Value
  number : ℕ → Value
  flag : Bool → Value
  unset : Value

pub record Event : Type 0 where
  pub event_type : String
  pub aggregate_type : String
  pub aggregate_id : ℕ
  pub payload : List (String × Value)

pub record AuditLog : Type 0 where
  pub action : String
  pub outcome : String
  pub reason_code : Option String
  pub resource_type : String
  pub actor_user_id : Option ℕ
  pub resource_id : Option ℕ
  pub organization_id : Option ℕ
  pub membership_id : Option ℕ
  pub changes : List (String × Value)

-- `session.add` of a new row
abbrev pub add {ℓ} : {A : Type ℓ} → A → List A → List A
add row rows = rows ++ row ∷ []

abbrev pub eq_text : String → String → Bool
eq_text a b = elim (compare a b) [ Ordering.eq ↦ true | _ ↦ false ]

abbrev pub is_uuid : ℕ → Value → Bool
is_uuid id (Value.uuid other) = other == id
is_uuid id _ = false

-- `payload[name] == str(id)`
abbrev pub payload_is : String → ℕ → List (String × Value) → Bool
payload_is name id = any (λ entry. eq_text entry.0 name && is_uuid id entry.1)
