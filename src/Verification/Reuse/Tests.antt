-- ===== src/Verification/Reuse/Tests.antt =====
-- Ownership evidence of another listing of the same vehicle, reused within the policy's days.
use wheelmatch.Base.{ℕ, ◌*◌, ◌≡◌, refl, true, none, some, List, [], ◌∷◌}
use wheelmatch.Verification.State.{verified, failed}
use wheelmatch.Verification.Reuse.{
  mismatch, fingerprint_valid, refusal, OwnershipReusePolicy, OwnershipReuseContext,
  OwnershipEvidence, registered_owner, select, evaluate, effective_expiry, newest_first, day,
  newer_conflicting,
}
use wheelmatch.Verification.Reuse.Selection.{Rests, select_sound}

abbrev policy : OwnershipReusePolicy
policy = record { freshness_days = 30; policy_version = 1 }

abbrev context : OwnershipReuseContext
context = record {
  now = 100 * day;
  owner_user_id = 5;
  canonical_vehicle_id = 8;
  identity_verification_id = 2;
  identity_projection_version = 1;
  vehicle_identity_version = 1;
  vehicle_hash_version = 1;
  vehicle_identity_active = true;
  ownership_basis = registered_owner;
  identity_verified = true;
  personal_listing = true;
}

abbrev print : List ℕ
print =
    0x61 ∷ 0x61 ∷ 0x61 ∷ 0x61 ∷ 0x61 ∷ 0x61 ∷ 0x61 ∷ 0x61 ∷ 0x61 ∷ 0x61 ∷ 0x61 ∷ 0x61 ∷ 0x61 ∷ 0x61
    ∷ 0x61 ∷ 0x61 ∷ 0x62 ∷ 0x62 ∷ 0x62 ∷ 0x62 ∷ 0x62 ∷ 0x62 ∷ 0x62 ∷ 0x62 ∷ 0x62 ∷ 0x62 ∷ 0x62
    ∷ 0x62 ∷ 0x62 ∷ 0x62 ∷ 0x62 ∷ 0x62 ∷ 0x63 ∷ 0x63 ∷ 0x63 ∷ 0x63 ∷ 0x63 ∷ 0x63 ∷ 0x63 ∷ 0x63
    ∷ 0x63 ∷ 0x63 ∷ 0x63 ∷ 0x63 ∷ 0x63 ∷ 0x63 ∷ 0x63 ∷ 0x63 ∷ 0x30 ∷ 0x30 ∷ 0x30 ∷ 0x30 ∷ 0x30
    ∷ 0x30 ∷ 0x30 ∷ 0x30 ∷ 0x30 ∷ 0x30 ∷ 0x30 ∷ 0x30 ∷ 0x30 ∷ 0x30 ∷ 0x30 ∷ 0x30 ∷ []

abbrev proof : OwnershipEvidence
proof = record {
  attempt_id = 11;
  listing_id = 70;
  attempt_number = 4;
  owner_user_id = 5;
  canonical_vehicle_id = 8;
  identity_verification_id = 2;
  identity_projection_version = 1;
  vehicle_identity_version = 1;
  hash_version = 1;
  ownership_basis = registered_owner;
  material_fingerprint = print;
  provider_result_version = some 1;
  status = verified;
  verified_at = some (90 * day);
  expires_at = some (400 * day);
  revoked_at = none;
  superseded_at = none;
}

abbrev earlier : OwnershipEvidence
earlier = record proof { attempt_id = 10; attempt_number = 3; status = failed }

abbrev attempts : List OwnershipEvidence
attempts = earlier ∷ proof ∷ []

select_reuses : select policy context attempts 71 ≡ record {
  evidence = some proof;
  decision = record {
    eligible = true;
    reused = true;
    code = none;
    effective_expires_at = some (120 * day);
    policy_version = some 1;
  };
}
unfolding select newest_first evaluate effective_expiry newer_conflicting refusal mismatch
    fingerprint_valid
select_reuses = refl

select_sound_example : Rests policy context attempts 71 (select policy context attempts 71) proof
unfolding select newest_first evaluate effective_expiry newer_conflicting refusal mismatch
    fingerprint_valid
select_sound_example = select_sound policy context attempts 71 proof refl
