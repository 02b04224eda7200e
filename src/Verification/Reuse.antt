-- ===== src/Verification/Reuse.antt =====
-- Which ownership evidence a listing may rest on,
-- backend/app/modules/verification/ownership_reuse.py.
-- A datetime is a number of microseconds, an id or a version a number, a fingerprint the list of
-- its character codes.
pub mod Eligible
pub mod Ordering
pub mod Selection
mod Tests
use wheelmatch.Base.{
  ℕ, ◌+◌, ◌*◌, min, Bool, true, false, not, ◌&&◌, ◌||◌, Option, none, some, List, [], ◌∷◌, ◌==◌,
  ltb, leb, if◌then◌else◌, is_none, is_some, find, any, all, length, Result, ok, err,
}
use wheelmatch.Verification.State.{
  Status, verified, expired, revoked, active_statuses, one_of, eq_status,
}

pub data OwnershipBasis : Type 0 where
  registered_owner company_vehicle financed_or_leased inherited authorized_representative :
      OwnershipBasis

abbrev pub basis_index : OwnershipBasis → ℕ
basis_index registered_owner = 0
basis_index company_vehicle = 1
basis_index financed_or_leased = 2
basis_index inherited = 3
basis_index authorized_representative = 4

pub record OwnershipReuseContext : Type 0 where
  pub now : ℕ
  pub owner_user_id : ℕ
  pub canonical_vehicle_id : ℕ
  pub identity_verification_id : ℕ
  pub identity_projection_version : ℕ
  pub vehicle_identity_version : ℕ
  pub vehicle_hash_version : ℕ
  -- `vehicle_identity_status == "active"`
  pub vehicle_identity_active : Bool
  pub ownership_basis : OwnershipBasis
  pub identity_verified : Bool
  pub personal_listing : Bool

pub record OwnershipEvidence : Type 0 where
  pub attempt_id : ℕ
  pub listing_id : ℕ
  pub attempt_number : ℕ
  pub owner_user_id : ℕ
  pub canonical_vehicle_id : ℕ
  pub identity_verification_id : ℕ
  pub identity_projection_version : ℕ
  pub vehicle_identity_version : ℕ
  pub hash_version : ℕ
  pub ownership_basis : OwnershipBasis
  pub material_fingerprint : List ℕ
  pub provider_result_version : Option ℕ
  pub status : Status
  pub verified_at : Option ℕ
  pub expires_at : Option ℕ
  pub revoked_at : Option ℕ
  pub superseded_at : Option ℕ

pub data ReuseCode : Type 0 where
  dealer_ownership_verification_unsupported ownership_verification_pending
        ownership_verification_revoked ownership_verification_expired
        ownership_verification_required ownership_reuse_not_available ownership_reuse_conflict :
      ReuseCode

pub record OwnershipReuseDecision : Type 0 where
  pub eligible : Bool
  pub reused : Bool
  pub code : Option ReuseCode
  pub effective_expires_at : Option ℕ
  pub policy_version : Option ℕ

pub record OwnershipSelection : Type 0 where
  pub evidence : Option OwnershipEvidence
  pub decision : OwnershipReuseDecision

pub record OwnershipReusePolicy : Type 0 where
  pub freshness_days : ℕ
  pub policy_version : ℕ

pub data PolicyError : Type 0 where
  freshness_out_of_range version_out_of_range : PolicyError

-- `OwnershipReusePolicy.__init__`
unfoldable pub make_policy : ℕ → ℕ → Result PolicyError OwnershipReusePolicy
make_policy freshness_days policy_version =
    if not (leb 1 freshness_days && leb freshness_days 365)
    then err freshness_out_of_range
    else if not (leb 1 policy_version && leb policy_version 1000)
    then err version_out_of_range
    else ok (record { freshness_days = freshness_days; policy_version = policy_version })

-- `timedelta(days=1)`
abbrev pub day : ℕ
day = 86400000000

-- one character of `"0123456789abcdef"`
abbrev pub is_hex : ℕ → Bool
is_hex c = (leb b'0' c && leb c b'9') || (leb b'a' c && leb c b'f')

unfoldable pub fingerprint_valid : List ℕ → Bool
fingerprint_valid value = length value == 64 && all is_hex value

-- the `min` over two columns that may be null
expiry_of : Bool → Option ℕ → Option ℕ → ℕ → Option ℕ
expiry_of reuse none expires_at freshness = none
expiry_of reuse (some verified_at) none freshness = none
expiry_of reuse (some verified_at) (some expires_at) freshness =
    if not reuse then some expires_at else some (min expires_at (verified_at + freshness))

unfoldable pub effective_expiry : OwnershipReusePolicy → OwnershipEvidence → Bool → Option ℕ
unfolding expiry_of
effective_expiry policy evidence reuse =
    expiry_of reuse evidence.verified_at evidence.expires_at (policy.freshness_days * day)

-- `value is None or value <= bound`
abbrev pub none_or_le : Option ℕ → ℕ → Bool
none_or_le none bound = true
none_or_le (some value) bound = leb value bound

-- the last condition of `evaluate`: the evidence is about something else
unfoldable pub mismatch : OwnershipReuseContext → OwnershipEvidence → Bool
mismatch context evidence =
    not context.identity_verified
    || not (evidence.owner_user_id == context.owner_user_id)
    || not (evidence.canonical_vehicle_id == context.canonical_vehicle_id)
    || not (evidence.identity_verification_id == context.identity_verification_id)
    || not (evidence.identity_projection_version == context.identity_projection_version)
    || not (evidence.vehicle_identity_version == context.vehicle_identity_version)
    || not (evidence.hash_version == context.vehicle_hash_version)
    || not (basis_index evidence.ownership_basis == basis_index context.ownership_basis)
    || not context.vehicle_identity_active
    || none_or_le evidence.provider_result_version 0
    || not (fingerprint_valid evidence.material_fingerprint)

-- the code that `evaluate` computes
unfoldable pub refusal :
    OwnershipReuseContext → OwnershipEvidence → Bool → Option ℕ → Option ReuseCode
refusal context evidence newer_conflicting expiry =
    if not context.personal_listing
    then some dealer_ownership_verification_unsupported
    else if one_of active_statuses evidence.status
    then some ownership_verification_pending
    else if eq_status evidence.status revoked || is_some evidence.revoked_at
    then some ownership_verification_revoked
    else if not (eq_status evidence.status verified)
    then some ownership_reuse_not_available
    else if is_some evidence.superseded_at || newer_conflicting
    then some ownership_reuse_conflict
    else if none_or_le expiry context.now
    then some ownership_verification_expired
    else if mismatch context evidence
    then some ownership_reuse_not_available
    else none

unfoldable pub evaluate :
    OwnershipReusePolicy
    → OwnershipReuseContext
    → OwnershipEvidence
    → Bool
    → Bool
    → OwnershipReuseDecision
evaluate policy context evidence newer_conflicting reuse =
    let expiry = effective_expiry policy evidence reuse in
    let code = refusal context evidence newer_conflicting expiry in
    record {
      eligible = is_none code;
      reused = reuse && is_none code;
      code = code;
      effective_expires_at = if is_none code then expiry else none;
      policy_version = if reuse && is_none code then some policy.policy_version else none;
    }

unfoldable pub newer_conflicting : OwnershipEvidence → List OwnershipEvidence → Bool
newer_conflicting candidate =
    any (λ item. ltb candidate.attempt_number item.attempt_number && is_none item.superseded_at)

unfoldable pub latest_safe_code : List OwnershipEvidence → ReuseCode
latest_safe_code [] = ownership_verification_required
latest_safe_code (latest ∷ rest) =
    if one_of active_statuses latest.status
    then ownership_verification_pending
    else if eq_status latest.status revoked || is_some latest.revoked_at
    then ownership_verification_revoked
    else if eq_status latest.status expired
    then ownership_verification_expired
    else ownership_reuse_not_available

-- `sorted(evidence, key=attempt_number, reverse=True)`: stable, so equal numbers keep their order.
insert_attempt : OwnershipEvidence → List OwnershipEvidence → List OwnershipEvidence
insert_attempt item [] = item ∷ []
insert_attempt item (x ∷ xs) =
    if leb x.attempt_number item.attempt_number then item ∷ x ∷ xs else x ∷ insert_attempt item xs

unfoldable pub newest_first : List OwnershipEvidence → List OwnershipEvidence
unfolding insert_attempt
newest_first [] = []
newest_first (x ∷ xs) = insert_attempt x (newest_first xs)

abbrev pub verified_for : ℕ → OwnershipEvidence → Bool
verified_for listing item = item.listing_id == listing && eq_status item.status verified

abbrev pub verified_elsewhere : ℕ → OwnershipEvidence → Bool
verified_elsewhere listing item = not (item.listing_id == listing) && eq_status item.status verified

-- the second half of `select`: evidence of another listing
select_reusable :
    OwnershipReusePolicy
    → OwnershipReuseContext
    → List OwnershipEvidence
    → Option OwnershipEvidence
    → OwnershipSelection
select_reusable policy context ordered none = record {
  evidence = none;
  decision = record {
    eligible = false;
    reused = false;
    code = some (latest_safe_code ordered);
    effective_expires_at = none;
    policy_version = none;
  };
}
select_reusable policy context ordered (some item) =
    let decision = evaluate policy context item (newer_conflicting item ordered) true in
    record { evidence = if decision.eligible then some item else none; decision = decision }

-- the first half: evidence of the listing itself, with what is done if it does not serve
select_current :
    OwnershipReusePolicy
    → OwnershipReuseContext
    → List OwnershipEvidence
    → Option OwnershipEvidence
    → OwnershipSelection
    → OwnershipSelection
select_current policy context ordered none otherwise = otherwise
select_current policy context ordered (some item) otherwise =
    let decision = evaluate policy context item (newer_conflicting item ordered) false in
    if decision.eligible then record { evidence = some item; decision = decision } else otherwise

unfoldable pub select :
    OwnershipReusePolicy → OwnershipReuseContext → List OwnershipEvidence → ℕ → OwnershipSelection
unfolding select_reusable select_current
select policy context evidence current_listing_id =
    let ordered = newest_first evidence in
    select_current policy context ordered (find (verified_for current_listing_id) ordered) (
      select_reusable policy context ordered (find (verified_elsewhere current_listing_id) ordered))
