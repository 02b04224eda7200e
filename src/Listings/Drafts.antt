-- ===== src/Listings/Drafts.antt =====
-- Private listings: the tables of backend/app/modules/listings/models.py, the requests of
-- schemas.py and the lookups of repository.py. Ids, times and texts are numbers, and a price is
-- a number of hundredths.
pub mod Access
pub mod Creating
pub mod Updating
pub mod Changes
pub mod History
pub mod Cursors
pub mod Order
pub mod Paging
mod Tests
use wheelmatch.Base.{
  ℕ, Bool, true, false, not, ◌&&◌, Option, none, some, List, [], ◌∷◌, ◌==◌, if◌then◌else◌, find,
  any, update_first, select_where, Result,
}
use wheelmatch.Core.Events.{Event, AuditLog, add}
use wheelmatch.Core.Idempotency.{IdempotencyRecord}
use wheelmatch.Identity.Users.{User}
use wheelmatch.Dealers.{DealerOrganization, DealerMembership}

pub data OwnerType : Type 0 where
  user dealer_organization : OwnerType

pub data VehicleType : Type 0 where
  car bike : VehicleType

abbrev pub eq_type : VehicleType → VehicleType → Bool
eq_type car car = true
eq_type bike bike = true
eq_type _ _ = false

pub data LifecycleStatus : Type 0 where
  draft removed : LifecycleStatus

pub data PublicationStatus : Type 0 where
  private pending : PublicationStatus

pub data ModerationStatus : Type 0 where
  not_started pending : ModerationStatus

pub record Listing : Type 0 where
  pub id : ℕ
  pub owner_type : OwnerType
  pub owner_user_id : Option ℕ
  pub owner_organization_id : Option ℕ
  pub created_by_user_id : ℕ
  pub vehicle_type : VehicleType
  pub variant_id : Option ℕ
  pub canonical_vehicle_id : Option ℕ
  pub lifecycle_status : LifecycleStatus
  pub publication_status : PublicationStatus
  pub moderation_status : ModerationStatus
  pub submitted_listing_version : Option ℕ
  pub submitted_at : Option ℕ
  pub title : Option ℕ
  pub description : Option ℕ
  pub asking_price : Option ℕ
  pub currency : ℕ
  pub version : ℕ
  pub created_at : ℕ
  pub updated_at : ℕ

pub record VehicleSpecInput : Type 0 where
  pub manufacture_year : ℕ
  pub odometer_km : ℕ
  pub fuel_type : ℕ
  pub transmission : ℕ
  pub ownership_count : ℕ
  pub colour : ℕ
  pub condition : ℕ

pub record CarSpecInput : Type 0 where
  pub body_type : ℕ
  pub seats : ℕ
  pub engine_cc : Option ℕ
  pub drivetrain : ℕ
  pub emission_standard : Option ℕ

pub record BikeSpecInput : Type 0 where
  pub bike_category : ℕ
  pub engine_cc : Option ℕ
  pub start_type : ℕ
  pub braking_system : ℕ

-- `VehicleSpec`, `CarSpec` and `BikeSpec`: what was entered, under the listing's id
pub record SpecOf (A : Type 0) : Type 0 where
  pub listing_id : ℕ
  pub entered : A

-- `VehicleVariant` and `VehicleModel` of the catalogue
pub record VehicleVariant : Type 0 where
  pub id : ℕ
  pub model_id : ℕ

pub record VehicleModel : Type 0 where
  pub id : ℕ
  pub vehicle_type : VehicleType

-- `ListingPrivateResponse`: the listing's columns and its specifications
pub record ListingResponse : Type 0 where
  pub listing : Listing
  pub vehicle_spec : Option VehicleSpecInput
  pub car_spec : Option CarSpecInput
  pub bike_spec : Option BikeSpecInput

pub record Store : Type 0 where
  pub users : List User
  pub organizations : List DealerOrganization
  pub memberships : List DealerMembership
  pub variants : List VehicleVariant
  pub models : List VehicleModel
  pub listings : List Listing
  pub vehicle_specs : List (SpecOf VehicleSpecInput)
  pub car_specs : List (SpecOf CarSpecInput)
  pub bike_specs : List (SpecOf BikeSpecInput)
  pub idempotency : List (IdempotencyRecord ListingResponse)
  pub outbox : List Event
  pub audit : List AuditLog

pub data ErrorCode : Type 0 where
  idempotency_key_conflict idempotency_in_progress listing_not_found catalogue_variant_invalid
        draft_creation_not_permitted listing_not_editable listing_version_conflict
        vehicle_spec_type_mismatch owner_context_invalid listing_cursor_invalid integrity_error :
      ErrorCode

-- A raise inside the transaction rolls the store back, so an error carries none.
abbrev pub Outcome : Type 0 → Type 0
Outcome A = Result ErrorCode (A × Store)

abbrev pub get : ℕ → List Listing → Option Listing
get id = find (λ row. row.id == id)

abbrev pub write_listing : Listing → List Listing → List Listing
write_listing listing = update_first (λ row. row.id == listing.id) (λ row. listing)

abbrev pub variant_matches_type : ℕ → VehicleType → Store → Bool
variant_matches_type variant_id vehicle_type store =
    any
      (λ variant.
        variant.id == variant_id
        && any (λ model. model.id == variant.model_id && eq_type model.vehicle_type vehicle_type)
            store.models)
      store.variants

-- `session.get` of a specification
abbrev pub entered_of : {A : Type 0} → Option (SpecOf A) → Option A
entered_of none = none
entered_of (some row) = some row.entered

abbrev pub get_spec : {A : Type 0} → ℕ → List (SpecOf A) → Option A
get_spec listing_id rows = entered_of (find (λ row. row.listing_id == listing_id) rows)

-- `session.merge`: the row of the primary key is written, or inserted
abbrev pub merge : {A : Type 0} → SpecOf A → List (SpecOf A) → List (SpecOf A)
merge spec rows =
    if any (λ row. row.listing_id == spec.listing_id) rows
    then update_first (λ row. row.listing_id == spec.listing_id) (λ row. spec) rows
    else add spec rows

-- `delete(…).where(listing_id == …)`
abbrev pub delete_spec : {A : Type 0} → ℕ → List (SpecOf A) → List (SpecOf A)
delete_spec listing_id = select_where (λ row. not (row.listing_id == listing_id))

abbrev pub response : Listing → Store → ListingResponse
response listing store = record {
  listing = listing;
  vehicle_spec = get_spec listing.id store.vehicle_specs;
  car_spec = get_spec listing.id store.car_specs;
  bike_spec = get_spec listing.id store.bike_specs;
}
