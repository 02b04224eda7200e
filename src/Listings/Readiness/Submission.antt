-- ===== src/Listings/Readiness/Submission.antt =====
-- The status that a submission of a listing gets.
use wheelmatch.Base.{not, ◌||◌, if◌then◌else◌, arith, ◌≡◌, ◌↔◌, inl, inr, Bool-cases}
use wheelmatch.Listings.Readiness.Outcome.{
  verification_pending, pre_moderation_ready, SubmissionStatus, submission_status,
}
use wheelmatch.Listings.Readiness.{
  is_ready, sanitized_media_gate, simple, identity_verification, listing_details,
  media_moderation_queue, ownership_verification, pre_moderation_gates, details_gate, identity_gate,
  media_queue_gate, ownership_gate, ReadinessSnapshot, evaluate,
}
use wheelmatch.Listings.Readiness.Gates.{
  IsReady, IdentityHolds, OwnershipHolds, pre_moderation_ready_iff, identity_gate-holds,
  ownership_gate-holds, identity_gate-ready, ownership_gate-ready,
}

identity_gate-name : (s : ReadinessSnapshot) → (identity_gate s).name ≡ identity_verification
unfolding identity_gate
identity_gate-name s = ground arith

ownership_gate-name : (s : ReadinessSnapshot) → (ownership_gate s).name ≡ ownership_verification
unfolding ownership_gate
ownership_gate-name s = ground arith

details_gate-name : (s : ReadinessSnapshot) → (details_gate s).name ≡ listing_details
unfolding details_gate
details_gate-name s = ground arith

media_queue_gate-name : (s : ReadinessSnapshot) → (media_queue_gate s).name ≡ media_moderation_queue
unfolding media_queue_gate
media_queue_gate-name s = ground arith

verification_open :
    (s : ReadinessSnapshot)
    → submission_status (evaluate s) ≡ (
        if not (is_ready (identity_gate s).state) || not (is_ready (ownership_gate s).state)
        then verification_pending
        else if not (pre_moderation_ready (evaluate s))
        then SubmissionStatus.blocked
        else SubmissionStatus.moderation_pending)
unfolding submission_status evaluate pre_moderation_gates simple sanitized_media_gate
verification_open s = ground (
  arith,
  identity_gate-name s,
  ownership_gate-name s,
  details_gate-name s,
  media_queue_gate-name s,
)

-- The status of a submission: it waits for moderation exactly if the listing is ready, for
-- verification exactly if the identity or the ownership verification does not hold, and is
-- blocked otherwise.
pub submission_status_cases :
    (s : ReadinessSnapshot)
    → ((submission_status (evaluate s) ≡ SubmissionStatus.moderation_pending) ↔ IsReady s)
      × ((submission_status (evaluate s) ≡ verification_pending)
          ↔ (¬ (IdentityHolds s × OwnershipHolds s)))
submission_status_cases s = ((ready_only, when_ready), (open_only, when_open))
  where
    ready_only : submission_status (evaluate s) ≡ SubmissionStatus.moderation_pending → IsReady s
    ready_only h = (pre_moderation_ready_iff s).0 (ground (arith, verification_open s))

    when_ready : IsReady s → submission_status (evaluate s) ≡ SubmissionStatus.moderation_pending
    when_ready r = ground (
      arith,
      verification_open s,
      (pre_moderation_ready_iff s).1 r,
      identity_gate-holds s r.identity,
      ownership_gate-holds s r.ownership,
    )

    open_only :
        submission_status (evaluate s) ≡ verification_pending
        → IdentityHolds s × OwnershipHolds s
        → ⊥
    open_only h (i, o) =
        ground (arith, verification_open s, identity_gate-holds s i, ownership_gate-holds s o)

    when_open :
        ¬ (IdentityHolds s × OwnershipHolds s)
        → submission_status (evaluate s) ≡ verification_pending
    when_open h = elim (Bool-cases (is_ready (identity_gate s).state)) [
      | inl i ↦ elim (Bool-cases (is_ready (ownership_gate s).state)) [
        | inl o ↦ absurd (h (identity_gate-ready s i, ownership_gate-ready s o))
        | inr o ↦ ground (arith, verification_open s)
      ]
      | inr i ↦ ground (arith, verification_open s)
    ]
