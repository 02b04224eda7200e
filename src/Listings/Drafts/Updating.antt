-- ===== src/Listings/Drafts/Updating.antt =====
-- `update` of backend/app/modules/listings/service.py, which refuses a stale version.
use Prim.Native.String.{String}
use wheelmatch.Base.{
  ℕ, suc, Bool, true, false, not, ◌&&◌, ◌||◌, Option, none, some, List, [], ◌∷◌, ◌++◌, ◌==◌,
  eq_option, if◌then◌else◌, is_some, map, Result, ok, ◌>>=◌, ◌>>◌, raise_if, or_raise,
}
use wheelmatch.Core.Events.{Value, add}
use wheelmatch.Identity.Users.{User}
use wheelmatch.Listings.Drafts.{
  car, bike, eq_type, LifecycleStatus, draft, removed, Listing, VehicleSpecInput, CarSpecInput,
  BikeSpecInput, SpecOf, ListingResponse, Store, Outcome, ErrorCode, get, write_listing, merge,
  delete_spec, response,
}
use wheelmatch.Listings.Drafts.Access.{authorize}

-- A price that a request carries is a float: `amount` is what is stored of it, and `exact` tells
-- whether the float is just that amount. A stored price equals the float only if it is.
pub record Price : Type 0 where
  pub amount : ℕ
  pub exact : Bool

-- A field that the request does not set is absent; one that is set may be null. The specifications
-- of a car and of a bike are never both given.
pub data SpecificSpec : Type 0 where
  no_spec : SpecificSpec
  car_spec : CarSpecInput → SpecificSpec
  bike_spec : BikeSpecInput → SpecificSpec

pub record UpdateRequest : Type 0 where
  pub expected_version : ℕ
  pub title : Option (Option ℕ)
  pub description : Option (Option ℕ)
  pub asking_price : Option (Option Price)
  pub vehicle_spec : Option VehicleSpecInput
  pub specific_spec : SpecificSpec

pub data Field : Type 0 where
  title description asking_price specifications : Field

abbrev pub field_text : Field → String
field_text title = "title"
field_text description = "description"
field_text asking_price = "asking_price"
field_text specifications = "specifications"

abbrev pub is_draft : LifecycleStatus → Bool
is_draft draft = true
is_draft removed = false

-- `_validate_specific_spec`
unfoldable pub validate_specific_spec : Listing → SpecificSpec → Result ErrorCode Unit
validate_specific_spec listing no_spec = ok tt
validate_specific_spec listing (car_spec entered) =
    raise_if (not (eq_type listing.vehicle_type car)) ErrorCode.vehicle_spec_type_mismatch
validate_specific_spec listing (bike_spec entered) =
    raise_if (not (eq_type listing.vehicle_type bike)) ErrorCode.vehicle_spec_type_mismatch

-- a text field that is set to something new
abbrev pub text_differs : Option (Option ℕ) → Option ℕ → Bool
text_differs none stored = false
text_differs (some value) stored = not (eq_option stored value)

-- a price that is set, where the stored one is not the float
abbrev pub price_differs : Option (Option Price) → Option ℕ → Bool
price_differs none stored = false
price_differs (some none) stored = is_some stored
price_differs (some (some price)) none = true
price_differs (some (some price)) (some amount) = not (amount == price.amount && price.exact)

abbrev pub text_value : Option (Option ℕ) → Option ℕ → Option ℕ
text_value none stored = stored
text_value (some value) stored = value

abbrev pub price_value : Option (Option Price) → Option ℕ → Option ℕ
price_value none stored = stored
price_value (some none) stored = none
price_value (some (some price)) stored = some price.amount

abbrev pub changed_if : Bool → Field → List Field
changed_if condition field = if condition then field ∷ [] else []

-- `_apply_scalar_updates`
unfoldable pub apply_scalar_updates : Listing → UpdateRequest → Listing × List Field
apply_scalar_updates listing request = (
  record listing {
    title = text_value request.title listing.title;
    description = text_value request.description listing.description;
    asking_price =
        if price_differs request.asking_price listing.asking_price
        then price_value request.asking_price listing.asking_price
        else listing.asking_price;
  },
  changed_if (text_differs request.title listing.title) title
      ++ changed_if (text_differs request.description listing.description) description
      ++ changed_if (price_differs request.asking_price listing.asking_price) asking_price,
)

abbrev pub is_specific : SpecificSpec → Bool
is_specific no_spec = false
is_specific _ = true

abbrev pub merge_vehicle :
    ℕ → Option VehicleSpecInput → List (SpecOf VehicleSpecInput) → List (SpecOf VehicleSpecInput)
merge_vehicle listing_id none rows = rows
merge_vehicle listing_id (some entered) rows =
    merge (record { listing_id = listing_id; entered = entered }) rows

-- `replace_specs`
unfoldable pub replace_specs : ℕ → UpdateRequest → SpecificSpec → Store → Store
replace_specs listing_id request no_spec store = record store {
  vehicle_specs = merge_vehicle listing_id request.vehicle_spec store.vehicle_specs;
}
replace_specs listing_id request (car_spec entered) store = record store {
  vehicle_specs = merge_vehicle listing_id request.vehicle_spec store.vehicle_specs;
  bike_specs = delete_spec listing_id store.bike_specs;
  car_specs = merge (record { listing_id = listing_id; entered = entered }) store.car_specs;
}
replace_specs listing_id request (bike_spec entered) store = record store {
  vehicle_specs = merge_vehicle listing_id request.vehicle_spec store.vehicle_specs;
  car_specs = delete_spec listing_id store.car_specs;
  bike_specs = merge (record { listing_id = listing_id; entered = entered }) store.bike_specs;
}

-- the fields that an update changes
abbrev pub changed_fields : Listing → UpdateRequest → List Field
changed_fields listing request =
    (apply_scalar_updates listing request).1
    ++ changed_if (is_some request.vehicle_spec || is_specific request.specific_spec) specifications

abbrev pub field_values : List Field → List (String × Value)
field_values fields = map (λ field. ("changed_fields", Value.text (field_text field))) fields

-- the record of a change; the changed fields are listed one by one
unfoldable pub record_update : Listing → User → Option ℕ → List Field → Store → Store
record_update listing actor membership_id changed store = record store {
  audit =
      add
        (record {
          action = "listing.draft.updated";
          outcome = "success";
          reason_code = none;
          resource_type = "listing";
          actor_user_id = some actor.id;
          resource_id = some listing.id;
          organization_id = listing.owner_organization_id;
          membership_id = membership_id;
          changes = field_values changed ++ ("version", Value.number listing.version) ∷ [];
        })
        store.audit;
  outbox =
      add
        (record {
          event_type = "listing.draft.updated";
          aggregate_type = "listing";
          aggregate_id = listing.id;
          payload = field_values changed ++ ("version", Value.number listing.version) ∷ [];
        })
        store.outbox;
}

-- the writes after the checks
unfoldable pub write_update :
    ℕ → Listing → User → Option ℕ → UpdateRequest → List Field → Store → ListingResponse × Store
unfolding apply_scalar_updates record_update
write_update now listing actor membership_id request [] store = (response listing store, store)
write_update now listing actor membership_id request (field ∷ fields) store =
    let next : Listing = record ((apply_scalar_updates listing request).0) {
      version = suc listing.version;
      updated_at = now;
    } in
    let specs = replace_specs listing.id request request.specific_spec store in
    (
      response next specs,
      record_update next actor membership_id (field ∷ fields)
          (record specs { listings = write_listing next store.listings }),
    )

unfoldable pub update : ℕ → ℕ → ℕ → UpdateRequest → Store → Outcome ListingResponse
unfolding write_update
update now actor_user_id listing_id request store = do
  listing ← or_raise (get listing_id store.listings) ErrorCode.listing_not_found
  actor ← authorize actor_user_id listing store
  raise_if (not (is_draft listing.lifecycle_status)) ErrorCode.listing_not_editable
  raise_if (not (listing.version == request.expected_version)) ErrorCode.listing_version_conflict
  validate_specific_spec listing request.specific_spec
  ok (write_update now listing actor.0 actor.1 request (changed_fields listing request) store)
