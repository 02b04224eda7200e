-- ===== src/Listings/Drafts/Access.antt =====
-- Who may see and change a listing: `_authorize`, `_creation_owner` and
-- `_authorize_organization_inventory` of backend/app/modules/listings/service.py.
use wheelmatch.Base.{
  ℕ, false, not, ◌||◌, Option, none, some, ◌==◌, is_some, Result, ok, err, ◌>>=◌, ◌>>◌, raise_if,
  or_raise,
}
use wheelmatch.Authorization.{
  AuthorizationContext, inventory_manage, permits, can_manage_owned_resource,
  can_create_private_draft, is_active_user,
}
use wheelmatch.Identity.Users.{User, get_user_by_id}
use wheelmatch.Dealers.{get_organization, get_membership_for_user}
use wheelmatch.Dealers.Service.{Loaded, context_of}
use wheelmatch.Listings.Drafts.{OwnerType, Listing, Store, ErrorCode, get}

-- the organization and the actor's membership in it
unfoldable pub load_membership : User → ℕ → Store → Result ErrorCode Loaded
load_membership actor organization_id store = do
  organization ←
      or_raise (get_organization organization_id store.organizations) ErrorCode.listing_not_found
  membership ←
      or_raise (get_membership_for_user organization_id actor.id store.memberships)
        ErrorCode.listing_not_found
  ok (record { actor = actor; organization = organization; membership = membership })

-- `_authorize_organization_inventory`
unfoldable pub authorize_organization_inventory : User → ℕ → Store → Result ErrorCode ℕ
unfolding load_membership
authorize_organization_inventory actor organization_id store = do
  loaded ← load_membership actor organization_id store
  raise_if (not (permits (context_of loaded) inventory_manage)) ErrorCode.listing_not_found
  ok loaded.membership.id

-- the context of the user alone
abbrev pub base_context : User → AuthorizationContext
base_context actor = record {
  user_id = actor.id;
  user_status = actor.status;
  email_verified = is_some actor.email_verified_at;
  phone_verified = is_some actor.phone_verified_at;
  seller_profile_active = false;
  seller_readiness_ready = false;
  organization = none;
}

-- the owner columns of a new listing, and the membership that acts
pub record Owner : Type 0 where
  pub owner_type : OwnerType
  pub owner_user_id : Option ℕ
  pub owner_organization_id : Option ℕ
  pub membership_id : Option ℕ

-- `_creation_owner`, for the organization that the request names, if any
unfoldable pub creation_owner : User → Option ℕ → Store → Result ErrorCode Owner
unfolding authorize_organization_inventory
creation_owner actor none store = do
  raise_if (not (can_create_private_draft (base_context actor)))
      ErrorCode.draft_creation_not_permitted
  ok (record {
    owner_type = OwnerType.user;
    owner_user_id = some actor.id;
    owner_organization_id = none;
    membership_id = none;
  })
creation_owner actor (some organization_id) store = do
  membership_id ← authorize_organization_inventory actor organization_id store
  ok (record {
    owner_type = OwnerType.dealer_organization;
    owner_user_id = none;
    owner_organization_id = some organization_id;
    membership_id = some membership_id;
  })

-- the branches of `_authorize` on the owner columns
unfoldable pub authorize_owner :
    User → Option ℕ → Option ℕ → Store → Result ErrorCode (User × Option ℕ)
unfolding load_membership
authorize_owner actor (some owner_user_id) owner_organization_id store = do
  raise_if (not (owner_user_id == actor.id) || is_some owner_organization_id)
      ErrorCode.listing_not_found
  ok (actor, none)
authorize_owner actor none none store = err ErrorCode.listing_not_found
authorize_owner actor none (some organization_id) store = do
  loaded ← load_membership actor organization_id store
  raise_if
      (not (
        can_manage_owned_resource (context_of loaded) none (some organization_id) inventory_manage))
      ErrorCode.listing_not_found
  ok (actor, some loaded.membership.id)

-- `_authorize`
unfoldable pub authorize : ℕ → Listing → Store → Result ErrorCode (User × Option ℕ)
unfolding authorize_owner
authorize actor_user_id listing store = do
  actor ← or_raise (get_user_by_id actor_user_id store.users) ErrorCode.listing_not_found
  raise_if (not (is_active_user actor.status)) ErrorCode.listing_not_found
  authorize_owner actor listing.owner_user_id listing.owner_organization_id store

-- `get_authorized_listing`
unfoldable pub get_authorized_listing :
    ℕ → ℕ → Store → Result ErrorCode (Listing × (User × Option ℕ))
unfolding authorize
get_authorized_listing actor_user_id listing_id store = do
  listing ← or_raise (get listing_id store.listings) ErrorCode.listing_not_found
  actor ← authorize actor_user_id listing store
  ok (listing, actor)
