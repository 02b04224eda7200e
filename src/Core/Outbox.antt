-- ===== src/Core/Outbox.antt =====
-- The outbox table and its relay, backend/app/core/outbox/models.py and relay.py. A time is in
-- microseconds; the content of an event does not change and is an `Event`.
pub mod Steps
pub mod Delivery
mod Tests
use Prim.Native.String.{String}
use wheelmatch.Base.{
  ℕ, zero, suc, ◌+◌, ◌-◌, ◌*◌, ◌^◌, min, Bool, true, false, not, ◌&&◌, ◌||◌, Option, none, some,
  List, [], ◌∷◌, ◌++◌, map, length, ◌==◌, ltb, leb, if◌then◌else◌, find, any, select_where,
  update_where, update_first, count_where,
}
use wheelmatch.Core.Events.{Event}

pub data OutboxStatus : Type 0 where
  pending publishing published : OutboxStatus

pub record OutboxEvent : Type 0 where
  pub id : ℕ
  pub event : Event
  pub available_at : ℕ
  pub status : OutboxStatus
  pub attempts : ℕ
  pub locked_at : Option ℕ
  pub published_at : Option ℕ
  pub last_error_code : Option String

-- the table, and the ids of the events that the publisher took, in order
pub record Relay : Type 0 where
  pub events : List OutboxEvent
  pub sent : List ℕ

abbrev pub is_pending : OutboxStatus → Bool
is_pending pending = true
is_pending _ = false

abbrev pub is_publishing : OutboxStatus → Bool
is_publishing publishing = true
is_publishing _ = false

abbrev pub is_published : OutboxStatus → Bool
is_published published = true
is_published _ = false

-- `ORDER BY available_at, id`
abbrev pub precedes : OutboxEvent → OutboxEvent → Bool
precedes a b =
    ltb a.available_at b.available_at || (a.available_at == b.available_at && leb a.id b.id)

pub insert_event : OutboxEvent → List OutboxEvent → List OutboxEvent
insert_event a [] = a ∷ []
insert_event a (b ∷ rows) = if precedes a b then a ∷ b ∷ rows else b ∷ insert_event a rows

pub order_events : List OutboxEvent → List OutboxEvent
order_events [] = []
order_events (a ∷ rows) = insert_event a (order_events rows)

pub limit : ℕ → List OutboxEvent → List OutboxEvent
limit zero rows = []
limit (suc n) [] = []
limit (suc n) (a ∷ rows) = a ∷ limit n rows

-- `locked` are the rows that another relay holds, which `SKIP LOCKED` leaves out.
abbrev pub is_due : ℕ → (ℕ → Bool) → OutboxEvent → Bool
is_due now locked row = is_pending row.status && leb row.available_at now && not (locked row.id)

pub due : ℕ → ℕ → (ℕ → Bool) → List OutboxEvent → List ℕ
unfolding order_events limit
due batch_size now locked events =
    map (λ row. row.id) (limit batch_size (order_events (select_where (is_due now locked) events)))

abbrev pub claimed : ℕ → OutboxEvent → OutboxEvent
claimed now row = record row {
  status = publishing;
  locked_at = some now;
  attempts = suc row.attempts;
}

abbrev pub is_one_of : List ℕ → ℕ → Bool
is_one_of ids id = any (λ other. other == id) ids

-- the ids of the batch, and the table with the rows of the batch claimed
pub claim_batch : ℕ → ℕ → (ℕ → Bool) → Relay → List ℕ × Relay
claim_batch batch_size now locked relay =
    let ids = due batch_size now locked relay.events in
    (
      ids,
      record relay {
        events =
            update_where (λ row. is_due now locked row && is_one_of ids row.id) (claimed now)
              relay.events;
      },
    )

-- the publisher took the envelope of the event
abbrev pub send : ℕ → Relay → Relay
send id relay = record relay { sent = relay.sent ++ id ∷ [] }

abbrev pub done : ℕ → OutboxEvent → OutboxEvent
done now row = record row {
  status = published;
  published_at = some now;
  locked_at = none;
  last_error_code = none;
}

pub mark_published : ℕ → ℕ → Relay → Relay
mark_published now event_id relay = record relay {
  events =
      update_where (λ row. row.id == event_id && is_publishing row.status) (done now) relay.events;
}

-- `min(300, 2 ** min(event.attempts, 8))`
abbrev pub delay_seconds : ℕ → ℕ
delay_seconds attempts = min 300 (2 ^ min attempts 8)

abbrev pub failed : ℕ → String → OutboxEvent → OutboxEvent
failed now error_code row = record row {
  status = pending;
  available_at = now + delay_seconds row.attempts * 1000000;
  locked_at = none;
  last_error_code = some error_code;
}

-- `error_code` is already cut to 80 characters.
pub mark_failed : ℕ → ℕ → String → Relay → Relay
mark_failed now event_id error_code relay = record relay {
  events =
      update_where (λ row. row.id == event_id && is_publishing row.status) (failed now error_code)
        relay.events;
}

-- `locked_at < threshold`, false on a null column
abbrev pub is_stale : ℕ → Option ℕ → Bool
is_stale threshold none = false
is_stale threshold (some t) = ltb t threshold

abbrev pub is_stale_claim : ℕ → OutboxEvent → Bool
is_stale_claim threshold row = is_publishing row.status && is_stale threshold row.locked_at

abbrev pub recovered : ℕ → OutboxEvent → OutboxEvent
recovered now row = record row {
  status = pending;
  locked_at = none;
  available_at = now;
  last_error_code = some "STALE_CLAIM_RECOVERED";
}

-- the number of recovered claims, and the table
pub recover_stale_claims : ℕ → ℕ → Relay → ℕ × Relay
recover_stale_claims now older_than relay =
    let stale = is_stale_claim (now - older_than) in
    (
      count_where stale relay.events,
      record relay { events = update_where stale (recovered now) relay.events },
    )

-- the publisher's answer for an event: none, or the name of the error that it raised
abbrev pub Publisher : Type 0
Publisher = ℕ → Option String

abbrev pub finish_publish : ℕ → ℕ → Option String → Relay → Relay
finish_publish now event_id none relay = mark_published now event_id (send event_id relay)
finish_publish now event_id (some error_code) relay = mark_failed now event_id error_code relay

abbrev pub publish_found : Publisher → ℕ → ℕ → Option OutboxEvent → Relay → Relay
publish_found publisher now event_id none relay = relay
publish_found publisher now event_id (some row) relay =
    if is_publishing row.status
    then finish_publish now event_id (publisher event_id) relay
    else relay

pub publish_one : Publisher → ℕ → ℕ → Relay → Relay
publish_one publisher now event_id relay =
    publish_found publisher now event_id (find (λ row. row.id == event_id) relay.events) relay

pub publish_all : Publisher → ℕ → List ℕ → Relay → Relay
publish_all publisher now [] relay = relay
publish_all publisher now (id ∷ ids) relay =
    publish_all publisher now ids (publish_one publisher now id relay)

-- one round of the relay, with the time of its claims and that of its marks
pub run_once : Publisher → ℕ → ℕ → ℕ → (ℕ → Bool) → Relay → ℕ × Relay
run_once publisher batch_size now later locked relay =
    let (ids, next) = claim_batch batch_size now locked relay in
    (length ids, publish_all publisher later ids next)
