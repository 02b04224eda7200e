-- ===== src/Listings/Drafts/Tests.antt =====
-- Two listings of one seller: an update, a stale update, and pages of one listing each.
use wheelmatch.Base.{ℕ, ◌+◌, ◌≡◌, ◌<◌, ◌⊎◌, refl, none, some, [], ◌∷◌, ok, err, arith}
use wheelmatch.Authorization.{UserStatus}
use wheelmatch.Identity.Users.{User}
use wheelmatch.Listings.Drafts.{
  OwnerType, car, draft, PublicationStatus, ModerationStatus, Listing, ListingResponse, Store,
  ErrorCode, response,
}
use wheelmatch.Listings.Drafts.Access.{authorize, authorize_owner}
use wheelmatch.Listings.Drafts.Updating.{
  UpdateRequest, Field, no_spec, update, write_update, apply_scalar_updates, replace_specs,
  record_update, validate_specific_spec,
}
use wheelmatch.Listings.Drafts.Changes.{SucceededIn}
use wheelmatch.Listings.Drafts.History.{change, run, run-Succeeded, update-stale}
use wheelmatch.Listings.Drafts.Cursors.{Payload}
use wheelmatch.Listings.Drafts.Paging.{FilterKey, PageCall, owner_columns}
use wheelmatch.Listings.Drafts.Paging.Complete.{follow, follow-inventory}

abbrev seller : User
seller = record {
  id = 1;
  normalized_email = 5;
  password_hash = 6;
  status = UserStatus.active;
  email_verified_at = some 1;
  phone_verified_at = some 1;
  password_changed_at = 1;
  failed_login_attempts = 0;
  login_locked_until = none;
  authorization_version = 1;
  deleted_at = none;
}

abbrev first : Listing
first = record {
  id = 70;
  owner_type = OwnerType.user;
  owner_user_id = some 1;
  owner_organization_id = none;
  created_by_user_id = 1;
  vehicle_type = car;
  variant_id = none;
  canonical_vehicle_id = none;
  lifecycle_status = draft;
  publication_status = PublicationStatus.private;
  moderation_status = ModerationStatus.not_started;
  submitted_listing_version = none;
  submitted_at = none;
  title = none;
  description = none;
  asking_price = none;
  currency = 1;
  version = 1;
  created_at = 10;
  updated_at = 10;
}

abbrev second : Listing
second = record first { id = 71; updated_at = 20 }

abbrev store : Store
store = record {
  users = seller ∷ [];
  organizations = [];
  memberships = [];
  variants = [];
  models = [];
  listings = first ∷ second ∷ [];
  vehicle_specs = [];
  car_specs = [];
  bike_specs = [];
  idempotency = [];
  outbox = [];
  audit = [];
}

abbrev retitle : UpdateRequest
retitle = record {
  expected_version = 1;
  title = some (some 99);
  description = none;
  asking_price = none;
  vehicle_spec = none;
  specific_spec = no_spec;
}

run-Succeeded_example : SucceededIn first 70 (run store (change 30 1 70 retitle ∷ []))
run-Succeeded_example = run-Succeeded first 70 store (change 30 1 70 retitle ∷ []) refl

abbrev retitled : ListingResponse × Store
retitled = write_update 30 first seller none retitle (Field.title ∷ []) store

updates : update 30 1 70 retitle store ≡ ok retitled
unfolding update write_update apply_scalar_updates replace_specs record_update authorize
    authorize_owner validate_specific_spec
updates = refl

grows : 1 < retitled.0.listing.version
unfolding write_update apply_scalar_updates replace_specs record_update
grows = omega arith

update-stale_example :
    (update 32 1 70 retitle (run retitled.1 (change 31 1 70 retitle ∷ []))
      ≡ err ErrorCode.listing_version_conflict)
    ⊎ (update 32 1 70 retitle (run retitled.1 (change 31 1 70 retitle ∷ []))
        ≡ err ErrorCode.listing_not_found)
update-stale_example =
    update-stale 30 32 1 1 70 retitle retitle store retitled.1 retitled.0
      (change 31 1 70 retitle ∷ []) updates grows refl

-- a signature and a digest to run the codec with
abbrev mac : Payload → ℕ
mac payload = payload.listing_id + payload.expires_at

abbrev digest : FilterKey → ℕ
digest key = key.actor_id

abbrev key : FilterKey
key = record {
  actor_id = 1;
  owner_type = OwnerType.user;
  organization_id = none;
  lifecycle_status = draft;
}

abbrev paging : PageCall
paging = record {
  now = 100;
  actor_user_id = 1;
  owner_type = OwnerType.user;
  organization_id = none;
  lifecycle_status = draft;
  limit = 1;
}

own_columns : owner_columns seller OwnerType.user none store ≡ ok (some 1, none)
unfolding owner_columns
own_columns = refl

follow-inventory_example :
    follow mac digest 3600 3 paging none store
    ≡ some (response second store ∷ response first store ∷ [])
follow-inventory_example =
    follow-inventory mac digest 3600 3 paging store seller (some 1, none) refl refl own_columns refl
      (omega arith) (omega arith)
