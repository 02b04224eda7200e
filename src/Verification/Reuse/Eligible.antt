-- ===== src/Verification/Reuse/Eligible.antt =====
-- When one piece of evidence is eligible, and until when it counts.
use wheelmatch.Base.{ℕ, ◌<◌, ◌≡◌, refl, ◌↔◌, Bool, true, false, Option, none, some, arith}
use wheelmatch.Verification.State.{verified}
use wheelmatch.Verification.Reuse.{
  OwnershipReuseContext, OwnershipEvidence, OwnershipReusePolicy, basis_index, mismatch, refusal,
  evaluate, effective_expiry, OwnershipBasis, none_or_le, fingerprint_valid,
}

-- The evidence is about the vehicle, the owner and the identity of the context.
pub record Matches (c : OwnershipReuseContext) (e : OwnershipEvidence) : Type 0 where
  pub identity_verified : c.identity_verified ≡ true
  pub owner : e.owner_user_id ≡ c.owner_user_id
  pub vehicle : e.canonical_vehicle_id ≡ c.canonical_vehicle_id
  pub identity : e.identity_verification_id ≡ c.identity_verification_id
  pub projection : e.identity_projection_version ≡ c.identity_projection_version
  pub version : e.vehicle_identity_version ≡ c.vehicle_identity_version
  pub hash : e.hash_version ≡ c.vehicle_hash_version
  pub basis : e.ownership_basis ≡ c.ownership_basis
  pub active : c.vehicle_identity_active ≡ true
  pub fingerprint : fingerprint_valid e.material_fingerprint ≡ true
  pub provider : (v : ℕ) × (e.provider_result_version ≡ some v) × (0 < v)

-- What makes evidence eligible until the time `expiry`.
pub record IsEligible (c : OwnershipReuseContext) (e : OwnershipEvidence) (newer : Bool)
    (expiry : Option ℕ) : Type 0 where
  pub personal : c.personal_listing ≡ true
  pub status : e.status ≡ verified
  pub not_revoked : e.revoked_at ≡ none
  pub not_superseded : e.superseded_at ≡ none
  pub newest : newer ≡ false
  pub current : (t : ℕ) × (expiry ≡ some t) × (c.now < t)
  pub about : Matches c e

positive_version : (v : Option ℕ) → none_or_le v 0 ≡ false → (n : ℕ) × (v ≡ some n) × (0 < n)
positive_version none h = absurd (cc)
positive_version (some n) h = (n, refl, ground arith)

later_expiry :
    (now : ℕ) (v : Option ℕ) → none_or_le v now ≡ false → (n : ℕ) × (v ≡ some n) × (now < n)
later_expiry now none h = absurd (cc)
later_expiry now (some n) h = (n, refl, ground arith)

basis_index-injective : (a b : OwnershipBasis) → basis_index a ≡ basis_index b → a ≡ b
basis_index-injective a b h = ground arith

-- each of the comparisons that `mismatch` joins
mismatch_parts :
    (c : OwnershipReuseContext) (e : OwnershipEvidence)
    → mismatch c e ≡ false
    → (c.identity_verified ≡ true)
      × (none_or_le e.provider_result_version 0 ≡ false)
      × (basis_index e.ownership_basis ≡ basis_index c.ownership_basis)
      × (c.vehicle_identity_active ≡ true)
      × (fingerprint_valid e.material_fingerprint ≡ true)
      × (e.owner_user_id ≡ c.owner_user_id)
      × (e.canonical_vehicle_id ≡ c.canonical_vehicle_id)
      × (e.identity_verification_id ≡ c.identity_verification_id)
      × (e.identity_projection_version ≡ c.identity_projection_version)
      × (e.vehicle_identity_version ≡ c.vehicle_identity_version)
      × (e.hash_version ≡ c.vehicle_hash_version)
unfolding mismatch
mismatch_parts c e h = ground arith

mismatch-Matches :
    (c : OwnershipReuseContext) (e : OwnershipEvidence) → mismatch c e ≡ false → Matches c e
mismatch-Matches c e h =
    let (known, version, basis, active, print, o, v, i, p, n, k) = mismatch_parts c e h in
    record {
      identity_verified = known;
      owner = o;
      vehicle = v;
      identity = i;
      projection = p;
      version = n;
      hash = k;
      basis = basis_index-injective _ _ basis;
      active = active;
      fingerprint = print;
      provider = positive_version e.provider_result_version version;
    }

Matches-mismatch :
    (c : OwnershipReuseContext) (e : OwnershipEvidence) → Matches c e → mismatch c e ≡ false
unfolding mismatch
Matches-mismatch c e m =
    let (v, some_version, positive) = m.provider in
    ground (
      arith, m.identity_verified, m.owner, m.vehicle, m.identity, m.projection, m.version, m.hash,
      m.basis, m.active, m.fingerprint,
    )

refusal-IsEligible :
    (c : OwnershipReuseContext) (e : OwnershipEvidence) (newer : Bool) (expiry : Option ℕ)
    → refusal c e newer expiry ≡ none
    → IsEligible c e newer expiry
unfolding refusal
refusal-IsEligible c e newer expiry h = record {
  personal = ground arith;
  status = ground arith;
  not_revoked = ground arith;
  not_superseded = ground arith;
  newest = ground arith;
  current = later_expiry c.now expiry (ground arith);
  about = mismatch-Matches c e (ground arith);
}

IsEligible-refusal :
    (c : OwnershipReuseContext) (e : OwnershipEvidence) (newer : Bool) (expiry : Option ℕ)
    → IsEligible c e newer expiry
    → refusal c e newer expiry ≡ none
unfolding refusal
IsEligible-refusal c e newer expiry h =
    let (t, later, over) = h.current in
    ground (
      arith,
      Matches-mismatch c e h.about,
      h.personal,
      h.status,
      h.not_revoked,
      h.not_superseded,
      h.newest,
    )

-- Evidence is eligible exactly if the listing is personal, the evidence is verified, neither
-- revoked nor superseded, no newer attempt conflicts, its effective expiry lies ahead, and it is
-- about the vehicle, the owner and the identity of the context.
pub evaluate-eligible_iff :
    (policy : OwnershipReusePolicy) (c : OwnershipReuseContext) (e : OwnershipEvidence)
    (newer reuse : Bool)
    → ((evaluate policy c e newer reuse).eligible ≡ true)
      ↔ IsEligible c e newer (effective_expiry policy e reuse)
unfolding evaluate
evaluate-eligible_iff policy c e newer reuse = (
  λ h. refusal-IsEligible c e newer (effective_expiry policy e reuse) (ground arith),
  λ h. ground (arith, IsEligible-refusal c e newer (effective_expiry policy e reuse) h),
)
