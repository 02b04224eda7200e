-- ===== src/Core/Outbox/Delivery.antt =====
-- What no step of a relay breaks: what was published was sent, and stays as it is.
use wheelmatch.Base.{
  ℕ, ◌-◌, ◌≡◌, refl, sym, subst, ◌∙◌, Bool, true, not, ◌&&◌, ◌||◌, Option, some, List, [], ◌∷◌,
  ◌++◌, ◌==◌, find, find-update_where, all, all-update_where, all_mono, any-append, arith,
}
use wheelmatch.Core.Outbox.{
  Relay, OutboxEvent, claim_batch, mark_published, mark_failed, recover_stale_claims, is_published,
  is_publishing, is_one_of, is_due, is_stale_claim, claimed, done, failed, recovered, due,
}
use wheelmatch.Core.Outbox.Steps.{Step, Steps, claim, publish, finish, fail, recover, stop, more}

-- a row that is published was sent
unfoldable pub is_delivered : List ℕ → OutboxEvent → Bool
is_delivered sent row = not (is_published row.status) || is_one_of sent row.id

abbrev pub IsDelivered : Relay → Type 0
IsDelivered relay = all (is_delivered relay.sent) relay.events ≡ true

is_delivered-send :
    (sent : List ℕ) (id : ℕ) (row : OutboxEvent)
    → is_delivered sent row ≡ true
    → is_delivered (sent ++ id ∷ []) row ≡ true
unfolding is_delivered
is_delivered-send sent id row h =
    ground (arith, any-append (λ other. other == row.id) sent (id ∷ []))

step-IsDelivered : (relay next : Relay) → Step relay next → IsDelivered relay → IsDelivered next
unfolding claim_batch mark_published mark_failed recover_stale_claims is_delivered
step-IsDelivered relay _ (claim batch_size now locked _) h =
    all-update_where (is_delivered relay.sent) _ (claimed now) relay.events (λ x p c. refl) h
step-IsDelivered relay _ (publish id _) h =
    all_mono (is_delivered relay.sent) (is_delivered (relay.sent ++ id ∷ [])) relay.events
      (λ x c. is_delivered-send relay.sent id x c) h
step-IsDelivered relay _ (finish now id _ sent) h =
    all-update_where (is_delivered relay.sent) (λ row. row.id == id && is_publishing row.status)
      (done now) relay.events
      (λ x p c.
        let same : x.id ≡ id = ground arith in
        subst (λ i. is_one_of relay.sent i ≡ true) (sym same) sent)
      h
step-IsDelivered relay _ (fail now id error_code _) h =
    all-update_where (is_delivered relay.sent) (λ row. row.id == id && is_publishing row.status)
      (failed now error_code) relay.events (λ x p c. refl) h
step-IsDelivered relay _ (recover now older_than _) h =
    all-update_where (is_delivered relay.sent) (is_stale_claim (now - older_than)) (recovered now)
      relay.events (λ x p c. refl) h

-- Whatever relays do, in any order, with failures and recovered claims in between: an event that is
-- marked published was handed to the publisher, if that was so at the start.
pub Steps-IsDelivered :
    (relay next : Relay) → Steps relay next → IsDelivered relay → IsDelivered next
Steps-IsDelivered relay _ (stop _) h = h
Steps-IsDelivered relay next (more _ middle _ s rest) h =
    Steps-IsDelivered middle next rest (step-IsDelivered relay middle s h)

abbrev pub lookup : ℕ → Relay → Option OutboxEvent
lookup id relay = find (λ row. row.id == id) relay.events

step-published :
    (relay next : Relay) (id : ℕ) (row : OutboxEvent)
    → Step relay next
    → lookup id relay ≡ some row
    → is_published row.status ≡ true
    → lookup id next ≡ some row
unfolding claim_batch mark_published mark_failed recover_stale_claims
step-published relay _ id row (claim batch_size now locked _) found e =
    find-update_where
      (λ r. is_due now locked r && is_one_of (due batch_size now locked relay.events) r.id)
      (λ (r : OutboxEvent). r.id == id) (claimed now) relay.events row (λ x. refl) found
    ∙ ground arith
step-published relay _ id row (publish other _) found e = found
step-published relay _ id row (finish now other _ sent) found e =
    find-update_where (λ r. r.id == other && is_publishing r.status)
      (λ (r : OutboxEvent). r.id == id) (done now) relay.events row (λ x. refl) found
    ∙ ground arith
step-published relay _ id row (fail now other error_code _) found e =
    find-update_where (λ r. r.id == other && is_publishing r.status)
      (λ (r : OutboxEvent). r.id == id) (failed now error_code) relay.events row (λ x. refl) found
    ∙ ground arith
step-published relay _ id row (recover now older_than _) found e =
    find-update_where (is_stale_claim (now - older_than)) (λ (r : OutboxEvent). r.id == id)
      (recovered now) relay.events row (λ x. refl) found
    ∙ ground arith

-- A published event is final: no sequence of steps changes its row.
pub Steps-published :
    (relay next : Relay) (id : ℕ) (row : OutboxEvent)
    → Steps relay next
    → lookup id relay ≡ some row
    → is_published row.status ≡ true
    → lookup id next ≡ some row
Steps-published relay _ id row (stop _) found e = found
Steps-published relay next id row (more _ middle _ s rest) found e =
    Steps-published middle next id row rest (step-published relay middle id row s found e) e
