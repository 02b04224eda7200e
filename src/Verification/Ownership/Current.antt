-- ===== src/Verification/Ownership/Current.antt =====
-- What holds of an attempt that `apply_provider_result` does not find stale.
use wheelmatch.Base.{
  ℕ, ◌≡◌, ap, inl, inr, true, false, none, some, Option, Option-cases, arith, eq_option,
}
use wheelmatch.Authorization.{UserStatus}
use wheelmatch.Identity.Users.{User, get_user_by_id}
use wheelmatch.Listings.Drafts.{Listing, get}
use wheelmatch.Verification.Identity.{UserVerificationState, get_state}
use wheelmatch.Verification.Ownership.{
  CanonicalVehicle, OwnershipVerification, Store, get_canonical,
}
use wheelmatch.Verification.Ownership.Access.{identity_valid}
use wheelmatch.Verification.Ownership.Applying.{is_stale}

-- the owner is active, with a valid identity that is still the one of the attempt, and the listing
-- and the vehicle are still those that the attempt was opened for
pub record IsCurrent (now : ℕ) (a : OwnershipVerification) (store : Store) : Type 0 where
  pub not_superseded : a.superseded_at ≡ none
  pub user : User
  pub owner : get_user_by_id a.owner_user_id store.users ≡ some user
  pub active : user.status ≡ UserStatus.active
  pub state : UserVerificationState
  pub identity : get_state a.owner_user_id store.states ≡ some state
  pub valid : identity_valid now state ≡ true
  pub same_attempt : state.current_attempt_id ≡ a.identity_verification_id
  pub same_version : state.version ≡ a.identity_projection_version
  pub listing : Listing
  pub listed : get a.listing_id store.listings ≡ some listing
  pub personal : listing.owner_organization_id ≡ none
  pub own : listing.owner_user_id ≡ some a.owner_user_id
  pub vehicle : listing.canonical_vehicle_id ≡ some a.canonical_vehicle_id
  pub canonical : CanonicalVehicle
  pub registered : get_canonical a.canonical_vehicle_id store.canonicals ≡ some canonical
  pub same_identity : canonical.identity_version ≡ a.vehicle_identity_version

eq_option-some : (o : Option ℕ) (n : ℕ) → eq_option o (some n) ≡ true → o ≡ some n
eq_option-some none n h = absurd (ground arith)
eq_option-some (some m) n h = ap some (ground arith)

pub is_stale-IsCurrent :
    (now : ℕ) (a : OwnershipVerification) (store : Store)
    → is_stale now a store ≡ false
    → IsCurrent now a store
unfolding is_stale
is_stale-IsCurrent now a store h =
    elim (Option-cases (get_user_by_id a.owner_user_id store.users)) [
      | inl missing ↦ absurd (ground arith)
      | inr (user, u) ↦ elim (Option-cases (get_state a.owner_user_id store.states)) [
        | inl missing ↦ absurd (ground arith)
        | inr (state, s) ↦ elim (Option-cases (get a.listing_id store.listings)) [
          | inl missing ↦ absurd (ground arith)
          | inr (listing, l) ↦
              elim (Option-cases (get_canonical a.canonical_vehicle_id store.canonicals)) [
                | inl missing ↦ absurd (ground arith)
                | inr (canonical, k) ↦ record {
                  not_superseded = ground arith;
                  user = user;
                  owner = u;
                  active = ground arith;
                  state = state;
                  identity = s;
                  valid = ground arith;
                  same_attempt = ground arith;
                  same_version = ground arith;
                  listing = listing;
                  listed = l;
                  personal = ground arith;
                  own = eq_option-some listing.owner_user_id a.owner_user_id (ground arith);
                  vehicle =
                      eq_option-some listing.canonical_vehicle_id a.canonical_vehicle_id
                        (ground arith);
                  canonical = canonical;
                  registered = k;
                  same_identity = ground arith;
                }
              ]
        ]
      ]
    ]
