-- ===== src/Listings/Drafts/Paging/Complete.antt =====
-- Following the cursors lists every listing of the owner once, in order.
use mathlib.Core.List.{map-append, append_assoc}
use wheelmatch.Base.{
  ℕ, zero, suc, ◌≡◌, ◌≤◌, ◌<◌, refl, sym, ap, ◌∙◌, inl, inr, true, none, some, Option, List, [],
  ◌∷◌, ◌++◌, ltb, arith, Bool-cases, unique, select_where, length, map, Result, ok, err,
}
use wheelmatch.Authorization.{is_active_user}
use wheelmatch.Identity.Users.{User, get_user_by_id}
use wheelmatch.Listings.Drafts.{Listing, ListingResponse, Store, ErrorCode, response}
use wheelmatch.Listings.Drafts.Cursors.{ListingCursor, Payload, Text, encode, decode-encode}
use wheelmatch.Listings.Drafts.Order.{
  cursor_of, is_after, order_by, descending, order_by-descending, select_where-descending,
  select_where-is_after,
}
use wheelmatch.Listings.Drafts.Paging.{
  FilterKey, PageCall, Page, OwnerColumns, owned_by, after_cursor, take, inventory, query_owned,
  last_of, owner_columns, decode_cursor, next_cursor, list_owned,
}

module _ {A : Type 0} where
  drop : ℕ → List A → List A
  drop zero xs = xs
  drop (suc n) [] = []
  drop (suc n) (x ∷ xs) = drop n xs

  take-take-suc : (n : ℕ) (xs : List A) → take n (take (suc n) xs) ≡ take n xs
  take-take-suc zero xs = refl
  take-take-suc (suc n) [] = refl
  take-take-suc (suc n) (x ∷ xs) = ap (λ rest. x ∷ rest) (take-take-suc n xs)

  length-take-suc : (n : ℕ) (xs : List A) → ltb n (length (take (suc n) xs)) ≡ ltb n (length xs)
  length-take-suc zero [] = refl
  length-take-suc zero (x ∷ xs) = ground arith
  length-take-suc (suc n) [] = refl
  length-take-suc (suc n) (x ∷ xs) = ground (arith, length-take-suc n xs)

  take-append-drop : (n : ℕ) (xs : List A) → take n xs ++ drop n xs ≡ xs
  unfolding drop
  take-append-drop zero xs = refl
  take-append-drop (suc n) [] = refl
  take-append-drop (suc n) (x ∷ xs) = ap (λ rest. x ∷ rest) (take-append-drop n xs)

  take-all : (n : ℕ) (xs : List A) → length xs ≤ n → take n xs ≡ xs
  take-all zero [] h = refl
  take-all zero (x ∷ xs) h = absurd (omega arith)
  take-all (suc n) [] h = refl
  take-all (suc n) (x ∷ xs) h = ap (λ rest. x ∷ rest) (take-all n xs (omega arith))

  length-drop-le : (n : ℕ) (xs : List A) → length (drop n xs) ≤ length xs
  unfolding drop
  length-drop-le zero xs = omega arith
  length-drop-le (suc n) [] = omega arith
  length-drop-le (suc n) (x ∷ xs) = omega (arith, length-drop-le n xs)

  length-drop-lt : (n : ℕ) (xs : List A) → 0 < n → n < length xs → length (drop n xs) < length xs
  unfolding drop
  length-drop-lt zero xs h k = absurd (omega arith)
  length-drop-lt (suc n) [] h k = absurd (omega arith)
  length-drop-lt (suc n) (x ∷ xs) h k = omega (arith, length-drop-le n xs)

  select_where-every : (xs : List A) → select_where (λ x. true) xs ≡ xs
  select_where-every [] = refl
  select_where-every (x ∷ xs) = ap (λ rest. x ∷ rest) (select_where-every xs)

  -- a nonempty list, as what comes before its last element
  last_of-split :
      (x : A) (xs : List A)
      → (before : List A) × (last : A) × (x ∷ xs ≡ before ++ last ∷ [])
        × (last_of (x ∷ xs) ≡ some last)
  last_of-split x [] = ([], x, refl, refl)
  last_of-split x (y ∷ ys) =
      let (before, last, split, found) = last_of-split y ys in
      (x ∷ before, last, ap (λ rest. x ∷ rest) split, rw found refl)

  take-split :
      (n : ℕ) (xs : List A)
      → 0 < n
      → n < length xs
      → (before : List A) × (last : A) × (take n xs ≡ before ++ last ∷ [])
        × (last_of (take n xs) ≡ some last)
  take-split zero xs h k = absurd (omega arith)
  take-split (suc n) [] h k = absurd (omega arith)
  take-split (suc n) (x ∷ xs) h k = last_of-split x (take n xs)

module _ (mac : Payload → ℕ) (digest : FilterKey → ℕ) (ttl : ℕ) where
  abbrev prepend :
      List ListingResponse → Option (List ListingResponse) → Option (List ListingResponse)
  prepend items none = none
  prepend items (some more) = some (items ++ more)

  -- the page, and what the next cursor leads to
  abbrev next_page :
      List ListingResponse
      → Option Text
      → (Text → Option (List ListingResponse))
      → Option (List ListingResponse)
  next_page items none visit = some items
  next_page items (some text) visit = prepend items (visit text)

  abbrev visit_page :
      Result ErrorCode Page → (Text → Option (List ListingResponse)) → Option (List ListingResponse)
  visit_page (err e) visit = none
  visit_page (ok page) visit = next_page page.items page.next_cursor visit

  -- A client that follows the cursors, for at most `fuel` pages; `none` if a page is refused or the
  -- fuel runs out.
  pub follow : ℕ → PageCall → Option Text → Store → Option (List ListingResponse)
  follow zero c cursor store = none
  follow (suc fuel) c cursor store =
      visit_page (list_owned mac digest ttl c cursor store)
        (λ text. follow fuel c (some text) store)

  abbrev filter_key_of : PageCall → User → FilterKey
  filter_key_of c actor = record {
    actor_id = actor.id;
    owner_type = c.owner_type;
    organization_id = c.organization_id;
    lifecycle_status = c.lifecycle_status;
  }

  abbrev page_items : PageCall → List Listing → Store → List ListingResponse
  page_items c rows store = map (λ row. response row store) (take c.limit rows)

  list_owned-page :
      (c : PageCall) (cursor : Option Text) (decoded : Option ListingCursor) (store : Store)
      (actor : User) (owner : OwnerColumns) (rest : List Listing)
      → get_user_by_id c.actor_user_id store.users ≡ some actor
      → is_active_user actor.status ≡ true
      → owner_columns actor c.owner_type c.organization_id store ≡ ok owner
      → decode_cursor mac digest ttl c.now cursor (filter_key_of c actor) ≡ ok decoded
      → select_where (after_cursor decoded) (inventory owner c.lifecycle_status store.listings)
        ≡ rest
      → list_owned mac digest ttl c cursor store
        ≡ ok (record {
          items = page_items c rest store;
          next_cursor =
              next_cursor mac digest ttl c.now
                (filter_key_of c actor)
                (ltb c.limit (length rest))
                (last_of (take c.limit rest));
        })
  unfolding list_owned query_owned
  list_owned-page c cursor decoded store actor owner rest found active columns reads remains =
      rw
        (
          found,
          active,
          columns,
          reads,
          remains,
          take-take-suc c.limit rest,
          length-take-suc c.limit rest,
        )
        refl

  decode_cursor-encode :
      (now : ℕ) (cursor : ListingCursor) (filter_key : FilterKey)
      → decode_cursor mac digest ttl now
          (some (encode mac digest ttl now cursor filter_key))
          filter_key
        ≡ ok (some cursor)
  decode_cursor-encode now cursor filter_key =
      rw (decode-encode mac digest ttl now now cursor filter_key filter_key) (ground arith)

  -- the place of the next page
  after-split :
      (all_rows before rest items later : List Listing) (last : Listing)
      → all_rows ≡ before ++ rest
      → rest ≡ items ++ last ∷ later
      → descending all_rows ≡ true
      → (select_where (is_after (cursor_of last)) all_rows ≡ later)
        × (all_rows ≡ ((before ++ items) ++ last ∷ []) ++ later)
  after-split all_rows before rest items later last i whole s =
      let place : all_rows ≡ (before ++ items) ++ last ∷ later =
        i ∙ ap (λ x. before ++ x) whole ∙ sym (append_assoc before items (last ∷ later)) in
      (
        rw place
            (select_where-is_after (before ++ items) last later (ap descending (sym place) ∙ s)),
        place ∙ sym (append_assoc (before ++ items) (last ∷ []) later),
      )

  -- the remaining rows, from any place in the inventory
  follow-rest :
      (fuel : ℕ) (c : PageCall) (cursor : Option Text) (decoded : Option ListingCursor)
      (store : Store) (actor : User) (owner : OwnerColumns) (before rest : List Listing)
      → get_user_by_id c.actor_user_id store.users ≡ some actor
      → is_active_user actor.status ≡ true
      → owner_columns actor c.owner_type c.organization_id store ≡ ok owner
      → decode_cursor mac digest ttl c.now cursor (filter_key_of c actor) ≡ ok decoded
      → select_where (after_cursor decoded) (inventory owner c.lifecycle_status store.listings)
        ≡ rest
      → inventory owner c.lifecycle_status store.listings ≡ before ++ rest
      → descending (inventory owner c.lifecycle_status store.listings) ≡ true
      → 0 < c.limit
      → length rest < fuel
      → follow fuel c cursor store ≡ some (map (λ row. response row store) rest)
  unfolding follow
  follow-rest zero c cursor decoded store actor owner before rest f a o d r i s l n =
      absurd (omega arith)
  follow-rest (suc fuel) c cursor decoded store actor owner before rest f a o d r i s l n =
      let page = list_owned-page c cursor decoded store actor owner rest f a o d r in
      elim (Bool-cases (ltb c.limit (length rest))) [
        | inr last_page ↦
            let whole = take-all c.limit rest (ground arith) in rw (page, last_page, whole) refl
        | inl more ↦
            let (items, last, split, found) = take-split c.limit rest l (ground arith) in
            let later = drop c.limit rest in
            let whole : rest ≡ items ++ last ∷ later =
              sym (take-append-drop c.limit rest)
              ∙ ap (λ x. x ++ later) split
              ∙ append_assoc items (last ∷ []) later in
            let (remains, place) =
              after-split (inventory owner c.lifecycle_status store.listings) before rest items
                later last i whole s in
            let rec =
              follow-rest fuel c
                (some (encode mac digest ttl c.now (cursor_of last) (filter_key_of c actor)))
                (some (cursor_of last)) store actor owner ((before ++ items) ++ last ∷ []) later f a
                o (decode_cursor-encode c.now (cursor_of last) (filter_key_of c actor)) remains
                place s l (omega (arith, length-drop-lt c.limit rest l (ground arith))) in
            let joined = map-append (λ row. response row store) (take c.limit rest) later in
            rw (page, more, found, rec)
              (ap some
                (sym joined ∙ ap (map (λ row. response row store)) (take-append-drop c.limit rest)))
      ]

  -- Following the cursors from the first page, at one time, returns every listing of the owner with
  -- the status that was asked for, each once and the newest first, and ends: one page more than
  -- there are listings is enough. The caller is active and may list the owner's inventory, a
  -- page holds at least one listing, and the ids of the listings differ.
  pub follow-inventory :
      (fuel : ℕ) (c : PageCall) (store : Store) (actor : User) (owner : OwnerColumns)
      → get_user_by_id c.actor_user_id store.users ≡ some actor
      → is_active_user actor.status ≡ true
      → owner_columns actor c.owner_type c.organization_id store ≡ ok owner
      → unique (λ row. row.id) store.listings ≡ true
      → 0 < c.limit
      → length (inventory owner c.lifecycle_status store.listings) < fuel
      → follow fuel c none store
        ≡ some (map (λ row. response row store) (inventory owner c.lifecycle_status store.listings))
  follow-inventory fuel c store actor owner found active columns u l n =
      let all_rows = inventory owner c.lifecycle_status store.listings in
      follow-rest fuel c none none store actor owner [] all_rows found active columns refl
        (select_where-every all_rows) refl
        (select_where-descending (owned_by owner c.lifecycle_status) (order_by store.listings)
          (order_by-descending store.listings u))
        l n
