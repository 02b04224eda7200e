-- ===== src/Verification/Ownership/Fresh.antt =====
-- When a provider's result is applied to an ownership attempt, and that it is applied once.
use wheelmatch.Base.{
  ℕ, ◌≡◌, refl, sym, ap, ◌∙◌, inl, inr, Bool, true, false, none, some, List, ok, ◌==◌, Option-cases,
  Bool-cases, Result-cases, arith, find, find_sound, find-update_first, find-update_first_new,
  eq_option_refl,
}
use wheelmatch.Verification.State.{
  Disposition, Arrival, stale, duplicate, applied, ownership_result_disposition, one_of,
  terminal_statuses,
}
use wheelmatch.Verification.Ownership.{
  CanonicalVehicle, OwnershipVerification, Store, get_canonical, write_ownership,
  has_ownership_reference, has_ownership_event,
}
use wheelmatch.Verification.Ownership.Claims.{Material}
use wheelmatch.Verification.Ownership.Validating.{
  OwnershipProviderResult, validate_ownership_result, ownership_matches, expected_failure,
  when_verified, failure_index,
}
use wheelmatch.Verification.Ownership.Finalizing.{record_ownership, finalize_ownership}
use wheelmatch.Verification.Ownership.Applying.{
  is_stale, OwnershipResponse, ownership_response, apply_ownership_result, dispose_ownership,
  deliver_ownership, apply_ownership,
}
use wheelmatch.Verification.Ownership.Current.{IsCurrent, is_stale-IsCurrent}

-- A result matches the attempt that it was written to.
ownership_matches-apply :
    (fingerprint : Material → List ℕ) (a : OwnershipVerification) (result : OwnershipProviderResult)
    (canonical : CanonicalVehicle)
    → ownership_matches (apply_ownership_result fingerprint a result canonical) result ≡ true
unfolding ownership_matches apply_ownership_result
ownership_matches-apply fingerprint a result canonical = ground (
  arith,
  eq_option_refl (some result.event_id),
  eq_option_refl (some result.result_version),
  eq_option_refl (when_verified result result.verified_at),
  eq_option_refl (when_verified result result.expires_at),
  eq_option_refl (failure_index (expected_failure result result.status)),
)

module _ (fingerprint : Material → List ℕ) (len : ℕ → ℕ) (identifier now : ℕ)
    (result : OwnershipProviderResult) where
  -- what an applied result shows of the rows before it
  pub record Applied (store next : Store) (r : OwnershipResponse) : Type 0 where
    pub attempt : OwnershipVerification
    pub vehicle : CanonicalVehicle
    pub valid : validate_ownership_result len result ≡ ok tt
    pub found :
        find (has_ownership_reference identifier result.provider_reference) store.attempts
        ≡ some attempt
    pub fresh : find (has_ownership_event identifier result.event_id) store.attempts ≡ none
    pub current : IsCurrent now attempt store
    pub live : one_of terminal_statuses attempt.status ≡ false
    pub canonical : get_canonical attempt.canonical_vehicle_id store.canonicals ≡ some vehicle
    pub attempts :
        next.attempts
        ≡ write_ownership (apply_ownership_result fingerprint attempt result vehicle) store.attempts
    pub response :
        r ≡ record { attempt_id = attempt.id; status = result.status; disposition = applied }

  deliver_ownership-seen :
      (a existing : OwnershipVerification) (store next : Store) (r : OwnershipResponse)
      → deliver_ownership fingerprint now result a (some existing) store ≡ ok (r, next)
      → ¬ (r.disposition ≡ applied)
  unfolding deliver_ownership
  deliver_ownership-seen a existing store next r e done = absurd (ground arith)

  dispose_ownership-applied :
      (a : OwnershipVerification) (store next : Store) (r : OwnershipResponse) (d : Disposition)
      (vehicle : CanonicalVehicle)
      → get_canonical a.canonical_vehicle_id store.canonicals ≡ some vehicle
      → dispose_ownership fingerprint now result a store d ≡ ok (r, next)
      → r.disposition ≡ applied
      → (d ≡ applied)
        × (next.attempts
            ≡ write_ownership (apply_ownership_result fingerprint a result vehicle) store.attempts)
        × (r ≡ record { attempt_id = a.id; status = result.status; disposition = applied })
  unfolding dispose_ownership finalize_ownership record_ownership apply_ownership_result
  dispose_ownership-applied a store next r stale vehicle found e done = absurd (ground arith)
  dispose_ownership-applied a store next r duplicate vehicle found e done = absurd (ground arith)
  dispose_ownership-applied a store next r applied vehicle found e done =
      (refl, ground arith, ground arith)

  disposition-applied :
      (arrival : Arrival) (late : Bool)
      → ownership_result_disposition arrival late ≡ ok applied
      → (late ≡ false) × (one_of terminal_statuses arrival.attempt_status ≡ false)
  unfolding ownership_result_disposition
  disposition-applied arrival late h = (ground arith, ground arith)

  disposition-stale : (arrival : Arrival) → ownership_result_disposition arrival true ≡ ok stale
  unfolding ownership_result_disposition
  disposition-stale arrival = refl

  abbrev arrival_of : OwnershipVerification → Arrival
  arrival_of a = record {
    attempt_status = a.status;
    attempt_event_id = a.provider_result_event_id;
    result_event_id = result.event_id;
    result_matches = ownership_matches a result;
  }

  -- a result with a new event that is applied was delivered in time
  deliver_ownership-timely :
      (a : OwnershipVerification) (store next : Store) (r : OwnershipResponse)
      → deliver_ownership fingerprint now result a none store ≡ ok (r, next)
      → r.disposition ≡ applied
      → is_stale now a store ≡ false
  unfolding deliver_ownership dispose_ownership
  deliver_ownership-timely a store next r e done = elim (Bool-cases (is_stale now a store)) [
    | inl late ↦ absurd (ground (arith, disposition-stale (arrival_of a)))
    | inr timely ↦ timely
  ]

  deliver_ownership-applied :
      (a : OwnershipVerification) (store next : Store) (r : OwnershipResponse)
      (vehicle : CanonicalVehicle)
      → get_canonical a.canonical_vehicle_id store.canonicals ≡ some vehicle
      → deliver_ownership fingerprint now result a none store ≡ ok (r, next)
      → r.disposition ≡ applied
      → (one_of terminal_statuses a.status ≡ false)
        × (next.attempts
            ≡ write_ownership (apply_ownership_result fingerprint a result vehicle) store.attempts)
        × (r ≡ record { attempt_id = a.id; status = result.status; disposition = applied })
  unfolding deliver_ownership
  deliver_ownership-applied a store next r vehicle found e done =
      elim (Result-cases (ownership_result_disposition (arrival_of a) (is_stale now a store))) [
        | inl (x, conflict) ↦ absurd (ground arith)
        | inr (d, answer) ↦
            let given : dispose_ownership fingerprint now result a store d ≡ ok (r, next) =
              rw (rw answer at e) in
            let (is_applied, wrote, response) =
              dispose_ownership-applied a store next r d vehicle found given done in
            let fine =
              disposition-applied (arrival_of a) (is_stale now a store)
                (answer ∙ ap ok is_applied) in
            (fine.1, wrote, response)
      ]

  -- A provider's result is applied only to an attempt that is not final and not superseded, whose
  -- owner is active with a valid identity that is still the attempt's, and whose listing and
  -- vehicle are still those that it was opened for; it is then written to just that attempt.
  pub apply_ownership-Applied :
      (store next : Store) (r : OwnershipResponse)
      → apply_ownership fingerprint len identifier now result store ≡ ok (r, next)
      → r.disposition ≡ applied
      → Applied store next r
  unfolding apply_ownership
  apply_ownership-Applied store next r e done =
      elim (Result-cases (validate_ownership_result len result)) [
        | inl (x, invalid) ↦ absurd (ground arith)
        | inr (_, valid) ↦
            elim (Option-cases (
              find (has_ownership_reference identifier result.provider_reference) store.attempts)) [
                | inl missing ↦ absurd (ground arith)
                | inr (a, found) ↦
                    elim (Option-cases
                      (find (has_ownership_event identifier result.event_id) store.attempts)) [
                        | inr (existing, seen) ↦ absurd (
                            deliver_ownership-seen a existing store next r
                              (rw (rw (valid, found, seen) at e)) done)
                        | inl fresh ↦
                            let given : deliver_ownership fingerprint now result a none store
                                ≡ ok (r, next) =
                              rw (rw (valid, found, fresh) at e) in
                            let h =
                              is_stale-IsCurrent now a store
                                (deliver_ownership-timely a store next r given done) in
                            let (live, wrote, response) =
                              deliver_ownership-applied a store next r h.canonical h.registered
                                given done in
                            record {
                              attempt = a;
                              vehicle = h.canonical;
                              valid = valid;
                              found = found;
                              fresh = fresh;
                              current = h;
                              live = live;
                              canonical = h.registered;
                              attempts = wrote;
                              response = response;
                            }
                      ]
              ]
      ]

  apply_ownership-duplicate :
      (later : ℕ) (b : OwnershipVerification) (next : Store)
      → validate_ownership_result len result ≡ ok tt
      → find (has_ownership_reference identifier result.provider_reference) next.attempts ≡ some b
      → find (has_ownership_event identifier result.event_id) next.attempts ≡ some b
      → ownership_matches b result ≡ true
      → apply_ownership fingerprint len identifier later result next
        ≡ ok (ownership_response b duplicate, next)
  unfolding apply_ownership deliver_ownership
  apply_ownership-duplicate later b next valid found seen matches =
      rw (valid, found, seen, matches) (ground arith)

  -- When a result has been applied, delivering it again next, at whatever time, also after the
  -- identity has expired, answers `duplicate` with the same attempt and status, and changes nothing.
  pub apply_ownership-redelivered :
      (later : ℕ) (store next : Store) (r : OwnershipResponse)
      → apply_ownership fingerprint len identifier now result store ≡ ok (r, next)
      → r.disposition ≡ applied
      → apply_ownership fingerprint len identifier later result next
        ≡ ok (record r { disposition = duplicate }, next)
  unfolding apply_ownership_result
  apply_ownership-redelivered later store next r e done =
      let h = apply_ownership-Applied store next r e done in
      let a = h.attempt in
      let b = apply_ownership_result fingerprint a result h.vehicle in
      let mine =
        find_sound (has_ownership_reference identifier result.provider_reference) store.attempts a
          h.found in
      let again : find (has_ownership_reference identifier result.provider_reference) next.attempts
          ≡ some b =
        ap (find (has_ownership_reference identifier result.provider_reference)) h.attempts
        ∙ find-update_first (λ row. row.id == b.id)
            (has_ownership_reference identifier result.provider_reference) b store.attempts a
            h.found (ground arith) mine in
      let seen : find (has_ownership_event identifier result.event_id) next.attempts ≡ some b =
        ap (find (has_ownership_event identifier result.event_id)) h.attempts
        ∙ find-update_first_new (λ row. row.id == b.id)
            (has_ownership_reference identifier result.provider_reference)
            (has_ownership_event identifier result.event_id) b store.attempts a h.fresh h.found
            (ground arith) (ground arith) in
      apply_ownership-duplicate later b next h.valid again seen
        (ownership_matches-apply fingerprint a result h.vehicle)
      ∙ ap (λ x. ok (x, next))
          (ap {B = OwnershipResponse}
            (λ (x : OwnershipResponse). record x { disposition = duplicate }) (sym h.response))
