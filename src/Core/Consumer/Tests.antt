-- ===== src/Core/Consumer/Tests.antt =====
-- A counter that a consumer raises with each event.
use wheelmatch.Base.{ℕ, suc, ◌≡◌, refl, some, [], ◌∷◌, ok}
use wheelmatch.Core.Consumer.{
  EventEnvelope, processed, duplicate, Inbox, Handlers, process, consume,
}
use wheelmatch.Core.Consumer.Duplicates.{process-duplicate}

abbrev counting : Handlers ℕ
counting event_type = some (λ envelope n. some (suc n))

abbrev envelope : ℕ → EventEnvelope
envelope id = record {
  event_id = id;
  content = record {
    event_type = "media.ready";
    aggregate_type = "media";
    aggregate_id = 1;
    payload = [];
  };
}

abbrev empty_inbox : Inbox ℕ
empty_inbox = record { markers = []; state = 0 }

abbrev counted_once : Inbox ℕ
counted_once = record { markers = record { consumer_name = 3; event_id = 7 } ∷ []; state = 1 }

processes : process counting 3 (envelope 7) empty_inbox ≡ (ok processed, counted_once)
unfolding process
processes = refl

process-duplicate_example :
    process counting 3 (envelope 7) (consume counting 3 (envelope 8 ∷ []) counted_once)
    ≡ (ok duplicate, consume counting 3 (envelope 8 ∷ []) counted_once)
process-duplicate_example =
    process-duplicate counting 3 (envelope 7) empty_inbox counted_once (envelope 8 ∷ []) processes
