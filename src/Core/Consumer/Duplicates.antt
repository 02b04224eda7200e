-- ===== src/Core/Consumer/Duplicates.antt =====
-- An event has its effect once, however often it is delivered.
use wheelmatch.Base.{
  ℕ, ◌≡◌, refl, Bool, true, ◌&&◌, List, [], ◌∷◌, ◌++◌, ◌==◌, any, any-append, ok, Option-cases, inl,
  inr, arith,
}
use wheelmatch.Core.Consumer.{
  EventEnvelope, ConsumerEvent, processed, duplicate, Inbox, Handlers, is_marked, process, consume,
}

module _ {A : Type 0} (handlers : Handlers A) (consumer_name event_id : ℕ) where
  process-is_marked :
      (envelope : EventEnvelope) (inbox : Inbox A)
      → is_marked consumer_name event_id inbox.markers ≡ true
      → is_marked consumer_name event_id (process handlers consumer_name envelope inbox).1.markers
        ≡ true
  unfolding process
  process-is_marked envelope inbox h = elim (Option-cases (handlers envelope.content.event_type)) [
    | inl missing ↦ rw missing h
    | inr (handler, f) ↦ elim (Option-cases (handler envelope inbox.state)) [
      | inl failed ↦ ground (arith, f, failed)
      | inr (next, done) ↦ ground (
        arith,
        f,
        done,
        any-append (λ row. row.consumer_name == consumer_name && row.event_id == event_id)
            inbox.markers
            (record { consumer_name = consumer_name; event_id = envelope.event_id } ∷ []) h,
      )
    ]
  ]

  consume-is_marked :
      (envelopes : List EventEnvelope) (inbox : Inbox A)
      → is_marked consumer_name event_id inbox.markers ≡ true
      → is_marked consumer_name event_id (consume handlers consumer_name envelopes inbox).markers
        ≡ true
  unfolding consume
  consume-is_marked [] inbox h = h
  consume-is_marked (envelope ∷ rest) inbox h =
      consume-is_marked rest (process handlers consumer_name envelope inbox).1
        (process-is_marked envelope inbox h)

any_last :
    (p : ConsumerEvent → Bool) (rows : List ConsumerEvent) (row : ConsumerEvent)
    → p row ≡ true
    → any p (rows ++ row ∷ []) ≡ true
any_last p [] row h = ground arith
any_last p (x ∷ rows) row h = ground (arith, any_last p rows row h)

process-marks :
    {A : Type 0} (handlers : Handlers A) (consumer_name : ℕ) (envelope : EventEnvelope)
    (inbox next : Inbox A)
    → process handlers consumer_name envelope inbox ≡ (ok processed, next)
    → is_marked consumer_name envelope.event_id next.markers ≡ true
unfolding process
process-marks handlers consumer_name envelope inbox next e =
    elim (Option-cases (handlers envelope.content.event_type)) [
      | inl missing ↦ absurd (ground arith)
      | inr (handler, f) ↦ elim (Option-cases (handler envelope inbox.state)) [
        | inl failed ↦ absurd (ground arith)
        | inr (after, done) ↦
            let marker : ConsumerEvent = record {
              consumer_name = consumer_name;
              event_id = envelope.event_id;
            } in
            ground (
              arith,
              f,
              done,
              any_last
                  (λ row. row.consumer_name == consumer_name && row.event_id == envelope.event_id)
                  inbox.markers marker,
            )
      ]
    ]

-- An event that a consumer processed is a duplicate for it from then on, whatever it is delivered
-- in between: a later delivery changes nothing.
pub process-duplicate :
    {A : Type 0} (handlers : Handlers A) (consumer_name : ℕ) (envelope : EventEnvelope)
    (inbox next : Inbox A) (between : List EventEnvelope)
    → process handlers consumer_name envelope inbox ≡ (ok processed, next)
    → process handlers consumer_name envelope (consume handlers consumer_name between next)
      ≡ (ok duplicate, consume handlers consumer_name between next)
unfolding process
process-duplicate handlers consumer_name envelope inbox next between e =
    let marked =
      consume-is_marked handlers consumer_name envelope.event_id between next
        (process-marks handlers consumer_name envelope inbox next e) in
    elim (Option-cases (handlers envelope.content.event_type)) [
      | inl missing ↦ absurd (ground arith)
      | inr (handler, f) ↦ rw (f, marked) refl
    ]
