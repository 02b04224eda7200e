-- ===== src/Core/Outbox/Tests.antt =====
-- Two events and one round of a relay, whose publisher refuses the second.
use wheelmatch.Base.{ℕ, ◌≡◌, refl, false, none, some, [], ◌∷◌, if◌then◌else◌, ◌==◌}
use wheelmatch.Core.Events.{Event}
use wheelmatch.Core.Outbox.{
  Relay, OutboxEvent, OutboxStatus, pending, Publisher, run_once, delay_seconds, published,
  is_published, claim_batch, due, publish_all, publish_one, mark_published, mark_failed,
}
use wheelmatch.Core.Outbox.Steps.{Steps, run_once-Steps}
use wheelmatch.Core.Outbox.Delivery.{
  IsDelivered, is_delivered, lookup, Steps-IsDelivered, Steps-published,
}

abbrev event : Event
event = record {
  event_type = "media.ready";
  aggregate_type = "media";
  aggregate_id = 1;
  payload = [];
}

abbrev waiting : ℕ → OutboxEvent
waiting id = record {
  id = id;
  event = event;
  available_at = 0;
  status = pending;
  attempts = 0;
  locked_at = none;
  published_at = none;
  last_error_code = none;
}

abbrev table : Relay
table = record { events = waiting 1 ∷ waiting 2 ∷ []; sent = [] }

abbrev refuses_second : Publisher
refuses_second id = if id == 2 then some "ClientError" else none

abbrev after_round : Relay
after_round = (run_once refuses_second 10 5 6 (λ id. false) table).1

-- the first event is sent, the second waits for two seconds
round_sends : after_round.sent ≡ 1 ∷ []
unfolding run_once claim_batch due publish_all publish_one mark_published mark_failed
    wheelmatch.Core.Outbox.insert_event
round_sends = refl

one_round : Steps table after_round
one_round = run_once-Steps refuses_second 10 5 6 (λ id. false) table

run_once-Steps_example : Steps table (run_once refuses_second 10 5 6 (λ id. false) table).1
run_once-Steps_example = run_once-Steps refuses_second 10 5 6 (λ id. false) table

table-IsDelivered : IsDelivered table
unfolding is_delivered
table-IsDelivered = refl

Steps-IsDelivered_example : IsDelivered after_round
Steps-IsDelivered_example = Steps-IsDelivered table after_round one_round table-IsDelivered

abbrev sent_row : OutboxEvent
sent_row = record (waiting 1) { status = published; attempts = 1; published_at = some 6 }

abbrev later_table : Relay
later_table = record { events = sent_row ∷ waiting 2 ∷ []; sent = 1 ∷ [] }

Steps-published_example :
    lookup 1 (run_once refuses_second 10 7 8 (λ id. false) later_table).1 ≡ some sent_row
Steps-published_example =
    Steps-published later_table (run_once refuses_second 10 7 8 (λ id. false) later_table).1 1
      sent_row (run_once-Steps refuses_second 10 7 8 (λ id. false) later_table) refl refl
