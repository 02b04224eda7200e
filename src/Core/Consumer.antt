-- ===== src/Core/Consumer.antt =====
-- `SqlEventProcessor.process`, backend/app/workers/consumer.py: an event is handled in the
-- transaction that records its marker. `A` is what the handlers change.
pub mod Duplicates
mod Tests
use Prim.Native.String.{String}
use wheelmatch.Base.{
  ℕ, Bool, true, false, ◌&&◌, Option, none, some, List, [], ◌∷◌, ◌++◌, ◌==◌, if◌then◌else◌, any,
  Result, ok, err,
}
use wheelmatch.Core.Events.{Event, add}

pub record EventEnvelope : Type 0 where
  pub event_id : ℕ
  pub content : Event

-- a row of `consumer_events`, unique by consumer and event
pub record ConsumerEvent : Type 0 where
  pub consumer_name : ℕ
  pub event_id : ℕ

pub data ProcessingResult : Type 0 where
  processed duplicate : ProcessingResult

-- a missing handler, or a handler that raised
pub data Failure : Type 0 where
  unsupported raised : Failure

pub record Inbox (A : Type 0) : Type 0 where
  pub markers : List ConsumerEvent
  pub state : A

abbrev pub Handlers : Type 0 → Type 0
Handlers A = String → Option (EventEnvelope → A → Option A)

abbrev pub is_marked : ℕ → ℕ → List ConsumerEvent → Bool
is_marked consumer_name event_id =
    any (λ row. row.consumer_name == consumer_name && row.event_id == event_id)

module _ {A : Type 0} where
  -- the end of the transaction: a handler that raised takes the marker back with it
  abbrev pub finish : ConsumerEvent → Option A → Inbox A → Result Failure ProcessingResult × Inbox A
  finish marker none inbox = (err raised, inbox)
  finish marker (some next) inbox =
      (ok processed, record { markers = add marker inbox.markers; state = next })

  abbrev pub process_with :
      ℕ
      → EventEnvelope
      → Option (EventEnvelope → A → Option A)
      → Inbox A
      → Result Failure ProcessingResult × Inbox A
  process_with consumer_name envelope none inbox = (err unsupported, inbox)
  process_with consumer_name envelope (some handler) inbox =
      if is_marked consumer_name envelope.event_id inbox.markers
      then (ok duplicate, inbox)
      else finish (record { consumer_name = consumer_name; event_id = envelope.event_id })
          (handler envelope inbox.state) inbox

  pub process : Handlers A → ℕ → EventEnvelope → Inbox A → Result Failure ProcessingResult × Inbox A
  process handlers consumer_name envelope inbox =
      process_with consumer_name envelope (handlers envelope.content.event_type) inbox

  -- what a consumer is delivered, one message after the other
  pub consume : Handlers A → ℕ → List EventEnvelope → Inbox A → Inbox A
  consume handlers consumer_name [] inbox = inbox
  consume handlers consumer_name (envelope ∷ rest) inbox =
      consume handlers consumer_name rest (process handlers consumer_name envelope inbox).1
