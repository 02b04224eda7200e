-- ===== src/Core/Outbox/Steps.antt =====
-- The steps of several relays on one table, in any order, as a relation.
use Prim.Native.String.{String}
use wheelmatch.Base.{
  ℕ, ◌≡◌, Bool, true, Option, none, some, List, [], ◌∷◌, ◌++◌, ◌==◌, find, Bool-cases, inl, inr,
  arith,
}
use wheelmatch.Core.Outbox.{
  Relay, OutboxEvent, claim_batch, send, mark_published, mark_failed, recover_stale_claims,
  publish_one, publish_all, publish_found, finish_publish, run_once, Publisher, is_publishing,
  is_one_of,
}

pub data Step : Relay → Relay → Type 0 where
  claim :
      (batch_size now : ℕ) (locked : ℕ → Bool) (relay : Relay)
      → Step relay (claim_batch batch_size now locked relay).1
  publish : (id : ℕ) (relay : Relay) → Step relay (send id relay)
  finish :
      (now id : ℕ) (relay : Relay)
      → is_one_of relay.sent id ≡ true
      → Step relay (mark_published now id relay)
  fail :
      (now id : ℕ) (error_code : String) (relay : Relay)
      → Step relay (mark_failed now id error_code relay)
  recover :
      (now older_than : ℕ) (relay : Relay)
      → Step relay (recover_stale_claims now older_than relay).1

pub data Steps : Relay → Relay → Type 0 where
  stop : (relay : Relay) → Steps relay relay
  more : (first next last : Relay) → Step first next → Steps next last → Steps first last

Steps-trans : (first next last : Relay) → Steps first next → Steps next last → Steps first last
Steps-trans first next last (stop _) g = g
Steps-trans first next last (more _ middle _ s f) g =
    more first middle last s (Steps-trans middle next last f g)

one : (first next : Relay) → Step first next → Steps first next
one first next s = more first next next s (stop next)

is_one_of_append : (ids : List ℕ) (id : ℕ) → is_one_of (ids ++ id ∷ []) id ≡ true
is_one_of_append [] id = ground arith
is_one_of_append (x ∷ ids) id = ground (arith, is_one_of_append ids id)

finish_publish-Steps :
    (now id : ℕ) (answer : Option String) (relay : Relay)
    → Steps relay (finish_publish now id answer relay)
finish_publish-Steps now id none relay =
    more relay (send id relay) _ (publish id relay)
      (one (send id relay) _ (finish now id (send id relay) (is_one_of_append relay.sent id)))
finish_publish-Steps now id (some error_code) relay = one relay _ (fail now id error_code relay)

publish_found-Steps :
    (publisher : Publisher) (now id : ℕ) (row : Option OutboxEvent) (relay : Relay)
    → Steps relay (publish_found publisher now id row relay)
publish_found-Steps publisher now id none relay = stop relay
publish_found-Steps publisher now id (some row) relay =
    elim (Bool-cases (is_publishing row.status)) [
      | inl held ↦ rw held (finish_publish-Steps now id (publisher id) relay)
      | inr other ↦ rw other (stop relay)
    ]

publish_all-Steps :
    (publisher : Publisher) (now : ℕ) (ids : List ℕ) (relay : Relay)
    → Steps relay (publish_all publisher now ids relay)
unfolding publish_all publish_one
publish_all-Steps publisher now [] relay = stop relay
publish_all-Steps publisher now (id ∷ ids) relay =
    Steps-trans relay (publish_one publisher now id relay) _
      (publish_found-Steps publisher now id (find (λ row. row.id == id) relay.events) relay)
      (publish_all-Steps publisher now ids (publish_one publisher now id relay))

-- A round of a relay, whatever the publisher answers, is a sequence of the steps that any number
-- of relays take on the table.
pub run_once-Steps :
    (publisher : Publisher) (batch_size now later : ℕ) (locked : ℕ → Bool) (relay : Relay)
    → Steps relay (run_once publisher batch_size now later locked relay).1
unfolding run_once
run_once-Steps publisher batch_size now later locked relay =
    more relay (claim_batch batch_size now locked relay).1 _ (claim batch_size now locked relay) (
      publish_all-Steps publisher later (claim_batch batch_size now locked relay).0
        (claim_batch batch_size now locked relay).1)
