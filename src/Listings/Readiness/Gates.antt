-- ===== src/Listings/Readiness/Gates.antt =====
-- The gates against the conditions that they stand for.
use Prim.Native.String.{String}
use wheelmatch.Base.{
  ℕ, ◌<◌, ◌≡◌, refl, sym, ◌∙◌, ◌↔◌, true, false, ◌&&◌, Option, none, some, List, [], ◌∷◌, arith,
  any, all,
}
use wheelmatch.Verification.State.{Status, verified}
use wheelmatch.Media.{MediaStatus}
use wheelmatch.Listings.Readiness.Outcome.{pre_moderation_ready}
use wheelmatch.Listings.Readiness.{
  ReadinessSnapshot, GateName, evaluate, is_nonempty, in_queue, pre_moderation_gates,
  ownership_gate, verification_gate, GateCodes, simple, details_gate, sanitized_media_gate,
  media_queue_gate, identity_gate, has_expired, is_ready, identity_verification,
}

-- Verified, not revoked, and not yet expired.
pub record IsCurrent (now : ℕ) (status : Option Status) (expires revoked : Option ℕ) : Type 0 where
  pub status_verified : status ≡ some verified
  pub not_revoked : revoked ≡ none
  pub not_expired : (t : ℕ) × (expires ≡ some t) × (now < t)

pub record OwnershipHolds (s : ReadinessSnapshot) : Type 0 where
  pub current : IsCurrent s.now s.ownership_status s.ownership_expires_at s.ownership_revoked_at
  pub matches : s.ownership_matches_current ≡ true
  pub fingerprint : s.ownership_fingerprint_matches ≡ true

abbrev pub IdentityHolds : ReadinessSnapshot → Type 0
IdentityHolds s = IsCurrent s.now s.identity_status s.identity_expires_at s.identity_revoked_at

-- At least one image, all of them in the moderation queue, and the evidence still about them.
pub record MediaHolds (s : ReadinessSnapshot) : Type 0 where
  pub media_current : s.media_evidence_stale ≡ false
  pub some_media : is_nonempty s.active_media_statuses ≡ true
  pub all_queued : all in_queue s.active_media_statuses ≡ true

-- What a listing needs before moderation.
pub record IsReady (s : ReadinessSnapshot) : Type 0 where
  pub account : s.account_authorized ≡ true
  pub seller : s.seller_ready ≡ true
  pub details : s.details_complete ≡ true
  pub details_current : s.listing_evidence_stale ≡ false
  pub canonical : s.canonical_associated ≡ true
  pub located : s.location_present ≡ true
  pub identity : IdentityHolds s
  pub ownership : OwnershipHolds s
  pub media : MediaHolds s

later_expiry :
    (now : ℕ) (e : Option ℕ) → has_expired e now ≡ false → (t : ℕ) × (e ≡ some t) × (now < t)
later_expiry now none h = absurd (cc)
later_expiry now (some t) h = (t, refl, ground arith)

verification_gate-ready :
    (name : GateName) (status : Option Status) (now : ℕ) (expires revoked : Option ℕ)
    (codes : GateCodes) (remediation : String)
    → is_ready (verification_gate name status now expires revoked codes remediation).state ≡ true
    → IsCurrent now status expires revoked
unfolding verification_gate
verification_gate-ready name none now expires revoked codes r h = absurd (cc)
verification_gate-ready name (some status) now none revoked codes r h = absurd (ground arith)
verification_gate-ready name (some status) now (some t) revoked codes r h = record {
  status_verified = ground arith;
  not_revoked = ground arith;
  not_expired = (t, refl, ground arith);
}

verification_gate-current :
    (name : GateName) (status : Option Status) (now : ℕ) (expires revoked : Option ℕ)
    (codes : GateCodes) (remediation : String)
    → IsCurrent now status expires revoked
    → is_ready (verification_gate name status now expires revoked codes remediation).state ≡ true
unfolding verification_gate
verification_gate-current name status now expires revoked codes r h =
    let (t, e, later) = h.not_expired in rw (h.status_verified, e, h.not_revoked) (ground arith)

pub ownership_gate-ready :
    (s : ReadinessSnapshot) → is_ready (ownership_gate s).state ≡ true → OwnershipHolds s
unfolding ownership_gate
ownership_gate-ready s h = record {
  current = record {
    status_verified = ground arith;
    not_revoked = ground arith;
    not_expired = later_expiry s.now s.ownership_expires_at (ground arith);
  };
  matches = ground arith;
  fingerprint = ground arith;
}

pub ownership_gate-holds :
    (s : ReadinessSnapshot) → OwnershipHolds s → is_ready (ownership_gate s).state ≡ true
unfolding ownership_gate
ownership_gate-holds s h =
    let (t, e, later) = h.current.not_expired in
    ground (arith, h.current.status_verified, h.current.not_revoked)

-- The gates before moderation, as one conjunction.
gates_ready :
    (s : ReadinessSnapshot)
    → pre_moderation_ready (evaluate s) ≡ (
        s.account_authorized
        && (s.seller_ready
            && (is_ready (details_gate s).state
                && (s.canonical_associated
                    && (s.location_present
                        && (is_ready (identity_gate s).state
                            && (is_ready (ownership_gate s).state
                                && (is_ready (sanitized_media_gate s.active_media_statuses).state
                                    && is_ready (media_queue_gate s).state))))))))
unfolding pre_moderation_ready evaluate pre_moderation_gates simple
gates_ready s = ground arith

pub identity_gate-ready :
    (s : ReadinessSnapshot) → is_ready (identity_gate s).state ≡ true → IdentityHolds s
unfolding identity_gate
identity_gate-ready s h =
    verification_gate-ready identity_verification s.identity_status s.now s.identity_expires_at
      s.identity_revoked_at _ _ h

pub identity_gate-holds :
    (s : ReadinessSnapshot) → IdentityHolds s → is_ready (identity_gate s).state ≡ true
unfolding identity_gate
identity_gate-holds s h =
    verification_gate-current identity_verification s.identity_status s.now s.identity_expires_at
      s.identity_revoked_at _ _ h

details_gate_iff :
    (s : ReadinessSnapshot)
    → (is_ready (details_gate s).state ≡ true)
      ↔ ((s.details_complete ≡ true) × (s.listing_evidence_stale ≡ false))
unfolding details_gate
details_gate_iff s = (λ h. (ground arith, ground arith), λ h. ground arith)

media_queue_gate_iff :
    (s : ReadinessSnapshot) → (is_ready (media_queue_gate s).state ≡ true) ↔ MediaHolds s
unfolding media_queue_gate
media_queue_gate_iff s = (
  λ h. record {
    media_current = ground arith;
    some_media = ground arith;
    all_queued = ground arith;
  },
  λ h. ground arith,
)

any-in_queue :
    (l : List MediaStatus) → is_nonempty l ≡ true → all in_queue l ≡ true → any in_queue l ≡ true
any-in_queue [] h k = cc
any-in_queue (x ∷ l) h k = ground arith

-- an image is sanitized once the whole queue is
sanitized_media_gate-holds :
    (s : ReadinessSnapshot)
    → MediaHolds s
    → is_ready (sanitized_media_gate s.active_media_statuses).state ≡ true
unfolding sanitized_media_gate
sanitized_media_gate-holds s h =
    ground (arith, any-in_queue s.active_media_statuses h.some_media h.all_queued)

-- A listing passes every gate before moderation exactly if all the conditions hold: an authorized
-- account, a ready seller, complete and current details, a canonical vehicle, a location, a
-- current identity verification, a current ownership verification of this vehicle with a matching
-- fingerprint, and a nonempty current set of images that all wait for moderation.
pub pre_moderation_ready_iff :
    (s : ReadinessSnapshot) → (pre_moderation_ready (evaluate s) ≡ true) ↔ IsReady s
pre_moderation_ready_iff s = (forth, back)
  where
    forth : pre_moderation_ready (evaluate s) ≡ true → IsReady s
    forth h =
        let joined = sym (gates_ready s) ∙ h in
        record {
          account = ground arith;
          seller = ground arith;
          details = ((details_gate_iff s).0 (ground arith)).0;
          details_current = ((details_gate_iff s).0 (ground arith)).1;
          canonical = ground arith;
          located = ground arith;
          identity = identity_gate-ready s (ground arith);
          ownership = ownership_gate-ready s (ground arith);
          media = (media_queue_gate_iff s).0 (ground arith);
        }

    back : IsReady s → pre_moderation_ready (evaluate s) ≡ true
    back r = ground (
      arith,
      gates_ready s,
      r.account,
      r.seller,
      (details_gate_iff s).1 (r.details, r.details_current),
      r.canonical,
      r.located,
      identity_gate-holds s r.identity,
      ownership_gate-holds s r.ownership,
      sanitized_media_gate-holds s r.media,
      (media_queue_gate_iff s).1 r.media,
    )
