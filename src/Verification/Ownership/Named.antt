-- ===== src/Verification/Ownership/Named.antt =====
-- The vehicle that the identifiers of a request name, and the listing that it is written to.
use wheelmatch.Base.{
  ◌⊎◌, all, eq_option, eq_option_refl, select_where-all, ℕ, ◌≡◌, refl, ap, subst, ◌∙◌, inl, inr,
  true, false, none, some, Option, List, [], ◌∷◌, ok, arith,
}
use wheelmatch.Listings.Drafts.{Listing}
use wheelmatch.Verification.Ownership.{CanonicalVehicle, Store}
use wheelmatch.Verification.Ownership.Canonical.{
  KeyedVehicleIdentity, resolve_canonical, resolve_matches, find_canonical, is_match, completed,
  or_supplied, same_hmac, new_canonical,
}
use wheelmatch.Verification.Ownership.Claims.{associate, other_vehicle}

pub associate-attempts :
    (now : ℕ) (listing : Listing) (old : Option ℕ) (canonical : CanonicalVehicle) (store : Store)
    → (associate now listing old canonical store).1.attempts ≡ store.attempts
associate-attempts now listing none canonical store = refl
associate-attempts now listing (some old) canonical store = refl

pub associate-known :
    (now : ℕ) (listing : Listing) (old : Option ℕ) (canonical : CanonicalVehicle) (store : Store)
    → let known = (associate now listing old canonical store).0 in
      (known.id ≡ listing.id)
      × (known.owner_type ≡ listing.owner_type)
      × (known.owner_user_id ≡ listing.owner_user_id)
      × (known.owner_organization_id ≡ listing.owner_organization_id)
associate-known now listing none canonical store = (refl, refl, refl, refl)
associate-known now listing (some old) canonical store = (refl, refl, refl, refl)

-- the vehicle that the request's identifiers name is the listing's, if it has one
pub names_vehicle :
    (old : Option ℕ) (id : ℕ) → other_vehicle old id ≡ false → (old ≡ none) ⊎ (old ≡ some id)
names_vehicle none id h = inl refl
names_vehicle (some old) id h = inr (ap some (ground arith))

same_hmac-or_supplied :
    (column supplied : Option ℕ)
    → same_hmac column supplied ≡ true
    → same_hmac (or_supplied column supplied) supplied ≡ true
same_hmac-or_supplied none none h = h
same_hmac-or_supplied none (some v) h = absurd (ground arith)
same_hmac-or_supplied (some u) none h = h
same_hmac-or_supplied (some u) (some v) h = h

eq_option-or_supplied :
    (column : Option ℕ) (supplied : ℕ)
    → eq_option column (some supplied) ≡ true
    → eq_option (or_supplied column (some supplied)) (some supplied) ≡ true
eq_option-or_supplied none supplied h = absurd (ground arith)
eq_option-or_supplied (some u) supplied h = h

-- a row that matches still does when its missing identifiers are filled in
is_match-completed :
    (keyed : KeyedVehicleIdentity) (row : CanonicalVehicle)
    → is_match keyed row ≡ true
    → is_match keyed (completed row keyed) ≡ true
is_match-completed keyed row h = ground (
  arith,
  eq_option-or_supplied row.jurisdiction keyed.jurisdiction,
  eq_option-or_supplied row.registration_hmac keyed.registration_hmac,
  same_hmac-or_supplied row.vin_hmac keyed.vin_hmac,
  same_hmac-or_supplied row.chassis_hmac keyed.chassis_hmac,
)

resolve_matches-is_match :
    (id : ℕ) (listing : Listing) (keyed : KeyedVehicleIdentity) (rows : List CanonicalVehicle)
    (store next : Store) (canonical : CanonicalVehicle)
    → all (is_match keyed) rows ≡ true
    → resolve_matches id listing keyed rows store ≡ ok (canonical, next)
    → is_match keyed canonical ≡ true
unfolding resolve_matches
resolve_matches-is_match id listing keyed [] store next canonical m h =
    let made : new_canonical id listing keyed ≡ canonical = ground arith in
    subst (λ c. is_match keyed c ≡ true) made
      (ground (
        arith,
        eq_option_refl (some keyed.jurisdiction),
        eq_option_refl (some keyed.registration_hmac),
      ))
resolve_matches-is_match id listing keyed (row ∷ rows) store next canonical m h =
    let made : completed row keyed ≡ canonical = ground arith in
    subst (λ c. is_match keyed c ≡ true) made (is_match-completed keyed row (ground arith))

pub resolve_canonical-is_match :
    (id : ℕ) (listing : Listing) (keyed : KeyedVehicleIdentity) (store next : Store)
    (canonical : CanonicalVehicle)
    → resolve_canonical id listing keyed store ≡ ok (canonical, next)
    → is_match keyed canonical ≡ true
unfolding resolve_canonical
resolve_canonical-is_match id listing keyed store next canonical h =
    resolve_matches-is_match id listing keyed (find_canonical keyed store.canonicals) store next
      canonical (select_where-all (is_match keyed) store.canonicals) h

pub associate-vehicle :
    (now : ℕ) (listing : Listing) (canonical : CanonicalVehicle) (store : Store) (old : Option ℕ)
    → listing.canonical_vehicle_id ≡ old
    → other_vehicle old canonical.id ≡ false
    → (associate now listing old canonical store).0.canonical_vehicle_id ≡ some canonical.id
associate-vehicle now listing canonical store none h same = refl
associate-vehicle now listing canonical store (some old) h same = h ∙ ap some (ground arith)
