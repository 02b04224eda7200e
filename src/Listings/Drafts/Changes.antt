-- ===== src/Listings/Drafts/Changes.antt =====
-- What a creation and an update of a draft do to the table of listings.
use wheelmatch.Base.{
  subst, ℕ, ◌+◌, ◌≡◌, ◌<◌, refl, sym, ap, ◌∙◌, ◌⊎◌, inl, inr, true, some, Option, List, [], ◌∷◌, ok,
  ◌==◌, Option-cases, Bool-cases, Result-cases, arith, find_sound, find_key-update_first,
}
use wheelmatch.Core.Idempotency.{reserve}
use wheelmatch.Core.Idempotency.Once.{once-ok}
use wheelmatch.Identity.Users.{User, get_user_by_id}
use wheelmatch.Listings.Drafts.{add, Listing, ListingResponse, Store, get, write_listing}
use wheelmatch.Listings.Drafts.Access.{Owner, authorize, creation_owner}
use wheelmatch.Listings.Drafts.Creating.{
  CreateCall, create, create_acquired, insert_listing, create_key, key_ttl, new_listing,
}
use wheelmatch.Listings.Drafts.Updating.{
  UpdateRequest, Field, is_draft, validate_specific_spec, update, write_update, changed_fields,
  apply_scalar_updates, record_update, replace_specs, no_spec, car_spec, bike_spec,
}

-- a later state of a listing: its owner, creator, vehicle type and lifecycle are kept, and a row
-- with the same version is the same row
pub record Succeeds (a b : Listing) : Type 0 where
  pub id : b.id ≡ a.id
  pub owner_type : b.owner_type ≡ a.owner_type
  pub owner_user : b.owner_user_id ≡ a.owner_user_id
  pub owner_organization : b.owner_organization_id ≡ a.owner_organization_id
  pub creator : b.created_by_user_id ≡ a.created_by_user_id
  pub vehicle_type : b.vehicle_type ≡ a.vehicle_type
  pub lifecycle : b.lifecycle_status ≡ a.lifecycle_status
  pub version : (b ≡ a) ⊎ (a.version < b.version)

pub Succeeds-refl : (a : Listing) → Succeeds a a
Succeeds-refl a = record {
  id = refl;
  owner_type = refl;
  owner_user = refl;
  owner_organization = refl;
  creator = refl;
  vehicle_type = refl;
  lifecycle = refl;
  version = inl refl;
}

pub Succeeds-trans : (a b c : Listing) → Succeeds a b → Succeeds b c → Succeeds a c
Succeeds-trans a b c p q = record {
  id = q.id ∙ p.id;
  owner_type = q.owner_type ∙ p.owner_type;
  owner_user = q.owner_user ∙ p.owner_user;
  owner_organization = q.owner_organization ∙ p.owner_organization;
  creator = q.creator ∙ p.creator;
  vehicle_type = q.vehicle_type ∙ p.vehicle_type;
  lifecycle = q.lifecycle ∙ p.lifecycle;
  version = ground (arith, p.version, q.version);
}

abbrev pub SucceededIn : Listing → ℕ → Store → Type 0
SucceededIn a id store = (b : Listing) × (get id store.listings ≡ some b) × Succeeds a b

-- what a creation does to the listings
pub create-listings :
    (c : CreateCall) (store next : Store) (r : ListingResponse)
    → create c store ≡ ok (r, next)
    → (next.listings ≡ store.listings)
      ⊎ ((owner : Owner) × (next.listings ≡ add (new_listing c owner) store.listings))
unfolding create create_acquired insert_listing
create-listings c store next r e =
    elim (once-ok _ _ _ _
      (reserve (create_key c) c.request_hash (c.now + key_ttl) store.idempotency) (r, next) e) [
        | inl (body, replayed) ↦ inl (ground arith)
        | inr (rows, acquired) ↦ elim (Option-cases (get_user_by_id c.actor_user_id store.users)) [
          | inl missing ↦ absurd (ground arith)
          | inr (actor, found) ↦
              elim (Result-cases (creation_owner actor c.organization_id store)) [
                | inl (x, refused) ↦ absurd (ground arith)
                | inr (owner, o) ↦ inr (owner, ground arith)
              ]
        ]
      ]

write_update-listing :
    (now : ℕ) (listing : Listing) (actor : User) (membership_id : Option ℕ)
    (request : UpdateRequest) (fields : List Field) (listing_id : ℕ) (store : Store)
    → get listing_id store.listings ≡ some listing
    → let done = write_update now listing actor membership_id request fields store in
      Succeeds listing done.0.listing
      × (is_draft done.0.listing.lifecycle_status ≡ is_draft listing.lifecycle_status)
      × ((done.1.listings ≡ store.listings) × (done.0.listing ≡ listing)
          ⊎ (done.1.listings ≡ write_listing done.0.listing store.listings))
unfolding write_update apply_scalar_updates record_update replace_specs
write_update-listing now listing actor membership_id request [] listing_id store found =
    (Succeeds-refl listing, refl, inl (refl, refl))
write_update-listing now listing actor membership_id request (field ∷ fields) listing_id store
      found =
    (
      record {
        id = refl;
        owner_type = refl;
        owner_user = refl;
        owner_organization = refl;
        creator = refl;
        vehicle_type = refl;
        lifecycle = refl;
        version = inr (omega arith);
      },
      refl,
      elim request.specific_spec [
        | no_spec ↦ inr refl
        | car_spec entered ↦ inr refl
        | bike_spec entered ↦ inr refl
      ],
    )

-- what an update that returns shows of the stored listing
pub record Updated (now actor_user_id listing_id : ℕ) (request : UpdateRequest) (store next : Store)
    (r : ListingResponse) : Type 0 where
  pub old : Listing
  pub found : get listing_id store.listings ≡ some old
  pub editable : is_draft old.lifecycle_status ≡ true
  pub expected : old.version ≡ request.expected_version
  pub succeeds : Succeeds old r.listing
  pub still : is_draft r.listing.lifecycle_status ≡ true
  pub written :
      (next.listings ≡ store.listings) × (r.listing ≡ old)
      ⊎ (next.listings ≡ write_listing r.listing store.listings)

pub update-Updated :
    (now actor_user_id listing_id : ℕ) (request : UpdateRequest) (store next : Store)
    (r : ListingResponse)
    → update now actor_user_id listing_id request store ≡ ok (r, next)
    → Updated now actor_user_id listing_id request store next r
unfolding update
update-Updated now actor_user_id listing_id request store next r e =
    elim (Option-cases (get listing_id store.listings)) [
      | inl missing ↦ absurd (ground arith)
      | inr (old, found) ↦ elim (Result-cases (authorize actor_user_id old store)) [
        | inl (x, refused) ↦ absurd (ground arith)
        | inr ((actor, membership_id), allowed) ↦
            elim (Result-cases (validate_specific_spec old request.specific_spec)) [
              | inl (x, invalid) ↦ absurd (ground arith)
              | inr (_, valid) ↦
                  let (later, kept, wrote) =
                    write_update-listing now old actor membership_id request
                      (changed_fields old request) listing_id store found in
                  let done : write_update now old actor membership_id request
                        (changed_fields old request) store
                      ≡ (r, next) =
                    ground arith in
                  let first : (write_update now old actor membership_id request
                        (changed_fields old request) store).0
                      ≡ r =
                    ap (λ x. x.0) done in
                  let second : (write_update now old actor membership_id request
                        (changed_fields old request) store).1
                      ≡ next =
                    ap (λ x. x.1) done in
                  record {
                    old = old;
                    found = found;
                    editable = ground arith;
                    expected = ground arith;
                    succeeds = subst (λ x. Succeeds old x.listing) first later;
                    still = ground (arith, kept, first);
                    written = elim wrote [
                      | inl (same, row) ↦ inl (ground arith, ground arith)
                      | inr new ↦ inr (ground arith)
                    ];
                  }
            ]
      ]
    ]

pub written :
    (a : Listing) (id listing_id : ℕ) (old new : Listing) (rows next : List Listing)
    → get id rows ≡ some a
    → get listing_id rows ≡ some old
    → Succeeds old new
    → next ≡ write_listing new rows
    → (b : Listing) × (get id next ≡ some b) × Succeeds a b
written a id listing_id old new rows next found stored later wrote =
    let mine = find_sound (λ row. row.id == listing_id) rows old stored in
    let key : listing_id ≡ new.id = ground (arith, later.id) in
    let here : get new.id rows ≡ some old = ap (λ k. get k rows) (sym key) ∙ stored in
    let after_write = find_key-update_first (λ row. row.id) new rows old id here in
    elim (Bool-cases (new.id == id)) [
      | inl own ↦
          let at : id ≡ new.id = ground arith in
          let row : old ≡ a = ground (arith, ap (λ k. get k rows) at, here, found) in
          (
            new,
            ap (get id) wrote ∙ after_write ∙ rw own refl,
            subst (λ o. Succeeds o new) row later,
          )
      | inr other ↦ (a, ap (get id) wrote ∙ after_write ∙ rw other found, Succeeds-refl a)
    ]
