-- ===== src/Listings/Readiness/Tests.antt =====
-- A listing that is ready for moderation, and one that waits for its ownership verification.
use wheelmatch.Base.{◌≡◌, refl, true, false, none, some, [], ◌∷◌, arith}
use wheelmatch.Verification.State.{verified, pending}
use wheelmatch.Media.{MediaStatus}
use wheelmatch.Listings.Readiness.Outcome.{
  verification_pending, pre_moderation_ready, submission_status,
}
use wheelmatch.Listings.Readiness.{pre_moderation_gates, ReadinessSnapshot, evaluate}
use wheelmatch.Listings.Readiness.Gates.{IsReady, pre_moderation_ready_iff}

abbrev ready_listing : ReadinessSnapshot
ready_listing = record {
  now = 10;
  account_authorized = true;
  seller_ready = true;
  details_complete = true;
  canonical_associated = true;
  location_present = true;
  identity_status = some verified;
  identity_expires_at = some 20;
  identity_revoked_at = none;
  ownership_status = some verified;
  ownership_expires_at = some 30;
  ownership_revoked_at = none;
  ownership_matches_current = true;
  ownership_fingerprint_matches = true;
  active_media_statuses = MediaStatus.moderation_pending ∷ [];
  listing_evidence_stale = false;
  media_evidence_stale = false;
}

abbrev waiting : ReadinessSnapshot
waiting = record ready_listing { ownership_status = some pending; seller_ready = false }

ready_listing-IsReady : IsReady ready_listing
ready_listing-IsReady = record {
  account = refl;
  seller = refl;
  details = refl;
  details_current = refl;
  canonical = refl;
  located = refl;
  identity = record {
    status_verified = refl;
    not_revoked = refl;
    not_expired = (20, refl, omega arith);
  };
  ownership = record {
    current = record {
      status_verified = refl;
      not_revoked = refl;
      not_expired = (30, refl, omega arith);
    };
    matches = refl;
    fingerprint = refl;
  };
  media = record { media_current = refl; some_media = refl; all_queued = refl };
}

waiting_status : submission_status (evaluate waiting) ≡ verification_pending
unfolding submission_status evaluate pre_moderation_gates
waiting_status = refl

pre_moderation_ready_iff_example : pre_moderation_ready (evaluate ready_listing) ≡ true
pre_moderation_ready_iff_example = (pre_moderation_ready_iff ready_listing).1 ready_listing-IsReady
