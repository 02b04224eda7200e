-- ===== src/Listings/Drafts/Creating.antt =====
-- `create` of backend/app/modules/listings/service.py.
use Prim.Native.String.{String}
use wheelmatch.Base.{
  ℕ, ◌+◌, Bool, false, not, Option, none, some, List, [], ◌∷◌, ◌==◌, any, ok, ◌>>=◌, ◌>>◌, raise_if,
  or_raise,
}
use wheelmatch.Core.Events.{Value, add}
use wheelmatch.Core.Idempotency.{
  RequestKey, IdempotencyRecord, listing_draft_create, reserve, complete,
}
use wheelmatch.Core.Idempotency.Once.{once}
use wheelmatch.Identity.Users.{get_user_by_id}
use wheelmatch.Listings.Drafts.{
  OwnerType, VehicleType, car, bike, draft, PublicationStatus, ModerationStatus, Listing,
  ListingResponse, Store, Outcome, ErrorCode, variant_matches_type, response,
}
use wheelmatch.Listings.Drafts.Access.{Owner, creation_owner}

-- What a creation was asked with: the time, the id that would be drawn, and the request. The
-- owner's organization is absent for a personal owner.
pub record CreateCall : Type 0 where
  pub now : ℕ
  pub listing_id : ℕ
  pub actor_user_id : ℕ
  pub organization_id : Option ℕ
  pub vehicle_type : VehicleType
  pub variant_id : Option ℕ
  pub idempotency_key : ℕ
  pub request_hash : ℕ

abbrev pub create_key : CreateCall → RequestKey
create_key c = record {
  scope = c.actor_user_id;
  operation = listing_draft_create;
  key = c.idempotency_key;
}

-- 24 hours, in seconds
abbrev pub key_ttl : ℕ
key_ttl = 86400

-- the text of the default currency, INR
abbrev pub inr_text : ℕ
inr_text = 1

abbrev pub new_listing : CreateCall → Owner → Listing
new_listing c owner = record {
  id = c.listing_id;
  owner_type = owner.owner_type;
  owner_user_id = owner.owner_user_id;
  owner_organization_id = owner.owner_organization_id;
  created_by_user_id = c.actor_user_id;
  vehicle_type = c.vehicle_type;
  variant_id = c.variant_id;
  canonical_vehicle_id = none;
  lifecycle_status = draft;
  publication_status = PublicationStatus.private;
  moderation_status = ModerationStatus.not_started;
  submitted_listing_version = none;
  submitted_at = none;
  title = none;
  description = none;
  asking_price = none;
  currency = inr_text;
  version = 1;
  created_at = c.now;
  updated_at = c.now;
}

abbrev pub owner_text : OwnerType → String
owner_text OwnerType.user = "user"
owner_text OwnerType.dealer_organization = "dealer_organization"

abbrev pub type_text : VehicleType → String
type_text car = "car"
type_text bike = "bike"

-- `variant_id is not None and not variant_matches_type(…)`
abbrev pub variant_refused : Option ℕ → VehicleType → Store → Bool
variant_refused none vehicle_type store = false
variant_refused (some variant_id) vehicle_type store =
    not (variant_matches_type variant_id vehicle_type store)

-- the rows of a creation
unfoldable pub insert_listing :
    CreateCall → Owner → List (IdempotencyRecord ListingResponse) → Store → ListingResponse × Store
insert_listing c owner rows store =
    let listing = new_listing c owner in
    (
      response listing store,
      record store {
        listings = add listing store.listings;
        audit =
            add
              (record {
                action = "listing.draft.created";
                outcome = "success";
                reason_code = none;
                resource_type = "listing";
                actor_user_id = some c.actor_user_id;
                resource_id = some listing.id;
                organization_id = owner.owner_organization_id;
                membership_id = owner.membership_id;
                changes =
                    ("owner_type", Value.text (owner_text owner.owner_type))
                    ∷ ("vehicle_type", Value.text (type_text listing.vehicle_type))
                    ∷ [];
              })
              store.audit;
        outbox =
            add
              (record {
                event_type = "listing.draft.created";
                aggregate_type = "listing";
                aggregate_id = listing.id;
                payload =
                    ("owner_type", Value.text (owner_text owner.owner_type))
                    ∷ ("vehicle_type", Value.text (type_text listing.vehicle_type))
                    ∷ ("version", Value.number listing.version)
                    ∷ [];
              })
              store.outbox;
        idempotency = complete (create_key c) 201 (response listing store) rows;
      },
    )

unfoldable pub create_acquired :
    CreateCall → List (IdempotencyRecord ListingResponse) → Store → Outcome ListingResponse
unfolding insert_listing
create_acquired c rows store = do
  actor ← or_raise (get_user_by_id c.actor_user_id store.users) ErrorCode.listing_not_found
  owner ← creation_owner actor c.organization_id store
  raise_if (variant_refused c.variant_id c.vehicle_type store) ErrorCode.catalogue_variant_invalid
  raise_if (any (λ row. row.id == c.listing_id) store.listings) ErrorCode.integrity_error
  ok (insert_listing c owner rows store)

unfoldable pub create : CreateCall → Store → Outcome ListingResponse
unfolding create_acquired
create c store =
    once ErrorCode.idempotency_key_conflict ErrorCode.idempotency_in_progress
      (λ body. ok (body, store)) (λ rows. create_acquired c rows store)
      (reserve (create_key c) c.request_hash (c.now + key_ttl) store.idempotency)
