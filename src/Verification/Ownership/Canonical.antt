-- ===== src/Verification/Ownership/Canonical.antt =====
-- `_resolve_canonical` of backend/app/modules/verification/ownership_service.py: one canonical
-- vehicle for the keyed identifiers of a request.
use wheelmatch.Base.{
  ℕ, Bool, true, false, not, ◌&&◌, ◌||◌, Option, none, some, List, [], ◌∷◌, ◌==◌, eq_option,
  select_where, any, all, ok, ◌>>◌, raise_if,
}
use wheelmatch.Core.Events.{add}
use wheelmatch.Listings.Drafts.{Listing, eq_type}
use wheelmatch.Verification.Ownership.{CanonicalVehicle, Store, Outcome, ErrorCode, write_canonical}

-- `KeyedVehicleIdentity`
pub record KeyedVehicleIdentity : Type 0 where
  pub jurisdiction : ℕ
  pub registration_hmac : ℕ
  pub vin_hmac : Option ℕ
  pub chassis_hmac : Option ℕ
  pub hash_version : ℕ

-- `supplied is not None and column == supplied`
abbrev pub same_hmac : Option ℕ → Option ℕ → Bool
same_hmac column none = false
same_hmac column (some supplied) = eq_option column (some supplied)

-- the predicates of `find_canonical`
abbrev pub is_match : KeyedVehicleIdentity → CanonicalVehicle → Bool
is_match keyed row =
    row.hash_version == keyed.hash_version
    && (eq_option row.jurisdiction (some keyed.jurisdiction)
          && eq_option row.registration_hmac (some keyed.registration_hmac)
        || same_hmac row.vin_hmac keyed.vin_hmac
        || same_hmac row.chassis_hmac keyed.chassis_hmac)

abbrev pub find_canonical : KeyedVehicleIdentity → List CanonicalVehicle → List CanonicalVehicle
find_canonical keyed = select_where (is_match keyed)

-- `current is not None and supplied is not None and current != supplied`
abbrev pub contradicts : Option ℕ → Option ℕ → Bool
contradicts (some current) (some supplied) = not (current == supplied)
contradicts _ _ = false

abbrev pub new_canonical : ℕ → Listing → KeyedVehicleIdentity → CanonicalVehicle
new_canonical id listing keyed = record {
  id = id;
  vehicle_type = listing.vehicle_type;
  jurisdiction = some keyed.jurisdiction;
  registration_hmac = some keyed.registration_hmac;
  vin_hmac = keyed.vin_hmac;
  chassis_hmac = keyed.chassis_hmac;
  hash_version = keyed.hash_version;
  identity_version = 1;
  identity_active = true;
}

abbrev pub or_supplied : Option ℕ → Option ℕ → Option ℕ
or_supplied none supplied = supplied
or_supplied (some current) supplied = some current

-- the identifiers that were missing are filled in
abbrev pub completed : CanonicalVehicle → KeyedVehicleIdentity → CanonicalVehicle
completed canonical keyed = record canonical {
  jurisdiction = or_supplied canonical.jurisdiction (some keyed.jurisdiction);
  registration_hmac = or_supplied canonical.registration_hmac (some keyed.registration_hmac);
  vin_hmac = or_supplied canonical.vin_hmac keyed.vin_hmac;
  chassis_hmac = or_supplied canonical.chassis_hmac keyed.chassis_hmac;
}

-- by the rows that match, of which ids that repeat count once
unfoldable pub resolve_matches :
    ℕ → Listing → KeyedVehicleIdentity → List CanonicalVehicle → Store → Outcome CanonicalVehicle
resolve_matches id listing keyed [] store = do
  raise_if (any (λ row. row.id == id) store.canonicals) ErrorCode.integrity_error
  let canonical = new_canonical id listing keyed
  ok (canonical, record store { canonicals = add canonical store.canonicals })
resolve_matches id listing keyed (canonical ∷ others) store = do
  raise_if (not (all (λ row. row.id == canonical.id) others)) ErrorCode.vehicle_identity_conflict
  raise_if
      (not (eq_type canonical.vehicle_type listing.vehicle_type)
        || contradicts canonical.registration_hmac (some keyed.registration_hmac)
        || contradicts canonical.vin_hmac keyed.vin_hmac
        || contradicts canonical.chassis_hmac keyed.chassis_hmac)
      ErrorCode.vehicle_identity_conflict
  let next = completed canonical keyed
  ok (next, record store { canonicals = write_canonical next store.canonicals })

-- `id` is the one that a new row would get.
unfoldable pub resolve_canonical :
    ℕ → Listing → KeyedVehicleIdentity → Store → Outcome CanonicalVehicle
unfolding resolve_matches
resolve_canonical id listing keyed store =
    resolve_matches id listing keyed (find_canonical keyed store.canonicals) store
