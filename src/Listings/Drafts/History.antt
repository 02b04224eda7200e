-- ===== src/Listings/Drafts/History.antt =====
-- Histories of private listings: every creation and update, in any order, by anyone; what they keep
-- of a listing, and that its version tells whether it has changed.
use wheelmatch.Base.{
  true, ℕ, ◌≡◌, ◌<◌, ap, ◌∙◌, ◌⊎◌, inl, inr, some, List, [], ◌∷◌, ok, err, ◌==◌, Result-cases,
  arith, find_sound, find-append_some, find-update_first,
}
use wheelmatch.Listings.Drafts.{Listing, ListingResponse, Store, Outcome, ErrorCode, get}
use wheelmatch.Listings.Drafts.Access.{load_membership, authorize_owner, authorize}
use wheelmatch.Listings.Drafts.Creating.{CreateCall, create}
use wheelmatch.Listings.Drafts.Updating.{is_draft, UpdateRequest, update}
use wheelmatch.Listings.Drafts.Changes.{
  Updated, SucceededIn, Succeeds-refl, Succeeds-trans, create-listings, update-Updated, written,
}

pub data Call : Type 0 where
  creation : CreateCall → Call
  change : (now actor_user_id listing_id : ℕ) → UpdateRequest → Call

-- A call that raises leaves the store as it was.
abbrev pub after : {A : Type 0} → Store → Outcome A → Store
after store (ok (a, next)) = next
after store (err e) = store

unfoldable pub step : Store → Call → Store
step store (creation c) = after store (create c store)
step store (change now actor listing request) = after store (update now actor listing request store)

unfoldable pub run : Store → List Call → Store
unfolding step
run store [] = store
run store (c ∷ calls) = run (step store c) calls

step-Succeeded :
    (a : Listing) (id : ℕ) (store : Store) (c : Call)
    → get id store.listings ≡ some a
    → SucceededIn a id (step store c)
unfolding step
step-Succeeded a id store (creation c) found = elim (Result-cases (create c store)) [
  | inl (x, refused) ↦ rw refused (a, found, Succeeds-refl a)
  | inr ((r, next), e) ↦ elim (create-listings c store next r e) [
    | inl same ↦ rw e (a, rw same found, Succeeds-refl a)
    | inr (owner, added) ↦ rw e (
      a,
      rw added (find-append_some (λ row. row.id == id) store.listings _ a found),
      Succeeds-refl a,
    )
  ]
]
step-Succeeded a id store (change now actor listing request) found =
    elim (Result-cases (update now actor listing request store)) [
      | inl (x, refused) ↦ rw refused (a, found, Succeeds-refl a)
      | inr ((r, next), e) ↦
          let h = update-Updated now actor listing request store next r e in
          rw e (elim h.written [
            | inl (same, row) ↦ (a, rw same found, Succeeds-refl a)
            | inr wrote ↦
                written a id listing h.old r.listing store.listings next.listings found h.found
                  h.succeeds wrote
          ])
    ]

-- A listing's owner, creator, vehicle type and lifecycle are those of its creation after any history
-- of creations and updates by anyone, and the listing is the row that it was unless its version has
-- grown.
pub run-Succeeded :
    (a : Listing) (id : ℕ) (store : Store) (calls : List Call)
    → get id store.listings ≡ some a
    → SucceededIn a id (run store calls)
unfolding run
run-Succeeded a id store [] found = (a, found, Succeeds-refl a)
run-Succeeded a id store (c ∷ calls) found =
    let (b, found', later) = step-Succeeded a id store c found in
    let (d, last, more) = run-Succeeded b id (step store c) calls found' in
    (d, last, Succeeds-trans a b d later more)

-- `_authorize` refuses in one way.
authorize-error :
    (actor_user_id : ℕ) (listing : Listing) (store : Store) (x : ErrorCode)
    → authorize actor_user_id listing store ≡ err x
    → x ≡ ErrorCode.listing_not_found
unfolding authorize authorize_owner load_membership
authorize-error actor_user_id listing store x e = ground arith

-- the row that an update which grew the version leaves
update-row :
    (now actor_user_id listing_id : ℕ) (request : UpdateRequest) (store next : Store)
    (r : ListingResponse)
    → Updated now actor_user_id listing_id request store next r
    → request.expected_version < r.listing.version
    → get listing_id next.listings ≡ some r.listing
update-row now actor listing_id request store next r h grown =
    let mine = find_sound (λ row. row.id == listing_id) store.listings h.old h.found in
    elim h.written [
      | inl (kept, row) ↦ absurd (ground (arith, h.expected))
      | inr wrote ↦
          ap (get listing_id) wrote
          ∙ find-update_first (λ row. row.id == r.listing.id) (λ row. row.id == listing_id)
              r.listing store.listings h.old h.found (ground (arith, h.succeeds.id))
              (ground (arith, h.succeeds.id))
    ]

-- When an update has changed a listing, every later update that expects the version from before it
-- is refused, whatever creations and updates by anyone come between: with a version conflict, or
-- with not found.
pub update-stale :
    (now now' actor_user_id actor_user_id' listing_id : ℕ) (request request' : UpdateRequest)
    (store next : Store) (r : ListingResponse) (calls : List Call)
    → update now actor_user_id listing_id request store ≡ ok (r, next)
    → request.expected_version < r.listing.version
    → request'.expected_version ≡ request.expected_version
    → (update now' actor_user_id' listing_id request' (run next calls)
        ≡ err ErrorCode.listing_version_conflict)
      ⊎ (update now' actor_user_id' listing_id request' (run next calls)
          ≡ err ErrorCode.listing_not_found)
unfolding update
update-stale now now' actor actor' listing_id request request' store next r calls e grown same =
    let h = update-Updated now actor listing_id request store next r e in
    let row = update-row now actor listing_id request store next r h grown in
    let last = run next calls in
    let (b, found, later) = run-Succeeded r.listing listing_id next calls row in
    let draft : is_draft b.lifecycle_status ≡ true = ap is_draft later.lifecycle ∙ h.still in
    let newer : request'.expected_version < b.version = ground (arith, later.version) in
    elim (Result-cases (authorize actor' b last)) [
      | inl (x, refused) ↦
          inr (rw (found, refused) (ap err (authorize-error actor' b last x refused)))
      | inr (who, allowed) ↦ inl (rw (found, allowed, draft) (ground arith))
    ]
