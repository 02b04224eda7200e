-- ===== src/Listings/Drafts/Paging.antt =====
-- `list_owned` of backend/app/modules/listings/service.py: pages of the listings of an owner.
pub mod Complete
use wheelmatch.Base.{
  ℕ, zero, suc, ◌+◌, Bool, true, false, not, ◌&&◌, ◌||◌, Option, none, some, List, [], ◌∷◌, ◌==◌,
  ltb, eq_option, if◌then◌else◌, is_none, length, map, select_where, Result, ok, err, ◌>>=◌, ◌>>◌,
  raise_if, or_raise,
}
use wheelmatch.Authorization.{is_active_user}
use wheelmatch.Identity.Users.{User, get_user_by_id}
use wheelmatch.Listings.Drafts.{
  OwnerType, LifecycleStatus, draft, removed, Listing, ListingResponse, Store, ErrorCode, response,
}
use wheelmatch.Listings.Drafts.Access.{authorize_organization_inventory}
use wheelmatch.Listings.Drafts.Cursors.{ListingCursor, Payload, Text, encode, decode}
use wheelmatch.Listings.Drafts.Order.{cursor_of, is_after, order_by}

-- `filter_key`
pub record FilterKey : Type 0 where
  pub actor_id : ℕ
  pub owner_type : OwnerType
  pub organization_id : Option ℕ
  pub lifecycle_status : LifecycleStatus

-- What a page was asked with.
pub record PageCall : Type 0 where
  pub now : ℕ
  pub actor_user_id : ℕ
  pub owner_type : OwnerType
  pub organization_id : Option ℕ
  pub lifecycle_status : LifecycleStatus
  pub limit : ℕ

-- the owner columns that are selected
abbrev pub OwnerColumns : Type 0
OwnerColumns = Option ℕ × Option ℕ

abbrev pub eq_lifecycle : LifecycleStatus → LifecycleStatus → Bool
eq_lifecycle draft draft = true
eq_lifecycle removed removed = true
eq_lifecycle _ _ = false

-- the `WHERE` of `list_owned` in backend/app/modules/listings/repository.py, less the cursor
abbrev pub owned_by : OwnerColumns → LifecycleStatus → Listing → Bool
owned_by (some owner_user_id, organization) status row =
    eq_lifecycle row.lifecycle_status status
    && (eq_option row.owner_user_id (some owner_user_id) && is_none row.owner_organization_id)
owned_by (none, organization) status row =
    eq_lifecycle row.lifecycle_status status
    && (is_none row.owner_user_id && eq_option row.owner_organization_id organization)

abbrev pub after_cursor : Option ListingCursor → Listing → Bool
after_cursor none row = true
after_cursor (some cursor) row = is_after cursor row

abbrev pub take : {A : Type 0} → ℕ → List A → List A
take zero xs = []
take (suc n) [] = []
take (suc n) (x ∷ xs) = x ∷ take n xs

-- all that an owner has, in the order of the pages
abbrev pub inventory : OwnerColumns → LifecycleStatus → List Listing → List Listing
inventory owner status rows = select_where (owned_by owner status) (order_by rows)

-- the query; a condition selects before or after the sort alike
unfoldable pub query_owned :
    OwnerColumns → LifecycleStatus → Option ListingCursor → ℕ → List Listing → List Listing
query_owned owner status cursor limit rows =
    take limit (select_where (after_cursor cursor) (inventory owner status rows))

abbrev pub last_of : {A : Type 0} → List A → Option A
last_of [] = none
last_of (x ∷ xs) = elim (last_of xs) [ none ↦ some x | some y ↦ some y ]

-- `ListingPageResponse`
pub record Page : Type 0 where
  pub items : List ListingResponse
  pub next_cursor : Option Text

-- the owner columns that a caller may list
unfoldable pub owner_columns : User → OwnerType → Option ℕ → Store → Result ErrorCode OwnerColumns
owner_columns actor OwnerType.dealer_organization none store = err ErrorCode.owner_context_invalid
owner_columns actor OwnerType.dealer_organization (some organization_id) store = do
  membership_id ← authorize_organization_inventory actor organization_id store
  ok (none, some organization_id)
owner_columns actor OwnerType.user none store = ok (some actor.id, none)
owner_columns actor OwnerType.user (some organization_id) store =
    err ErrorCode.owner_context_invalid

module _ (mac : Payload → ℕ) (digest : FilterKey → ℕ) (ttl : ℕ) where
  abbrev pub decode_cursor : ℕ → Option Text → FilterKey → Result ErrorCode (Option ListingCursor)
  decode_cursor now none filter_key = ok none
  decode_cursor now (some text) filter_key = do
    cursor ← decode mac digest ttl now text filter_key
    ok (some cursor)

  abbrev pub next_cursor : ℕ → FilterKey → Bool → Option Listing → Option Text
  next_cursor now filter_key false last = none
  next_cursor now filter_key true none = none
  next_cursor now filter_key true (some last) =
      some (encode mac digest ttl now (cursor_of last) filter_key)

  unfoldable pub list_owned : PageCall → Option Text → Store → Result ErrorCode Page
  unfolding query_owned owner_columns
  list_owned c cursor store = do
    actor ← or_raise (get_user_by_id c.actor_user_id store.users) ErrorCode.listing_not_found
    raise_if (not (is_active_user actor.status)) ErrorCode.listing_not_found
    owner ← owner_columns actor c.owner_type c.organization_id store
    let filter_key : FilterKey = record {
      actor_id = actor.id;
      owner_type = c.owner_type;
      organization_id = c.organization_id;
      lifecycle_status = c.lifecycle_status;
    }
    decoded ← decode_cursor c.now cursor filter_key
    let rows = query_owned owner c.lifecycle_status decoded (suc c.limit) store.listings
    let page_rows = take c.limit rows
    ok (record {
      items = map (λ row. response row store) page_rows;
      next_cursor = next_cursor c.now filter_key (ltb c.limit (length rows)) (last_of page_rows);
    })
