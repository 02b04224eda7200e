-- ===== src/Listings/Drafts/Order.antt =====
-- The order of a page, `ORDER BY updated_at DESC, id DESC`, and the rows after a cursor.
use wheelmatch.Base.{
  ℕ, ◌≡◌, refl, inl, inr, Bool, true, false, not, ◌&&◌, ◌||◌, List, [], ◌∷◌, ◌++◌, ◌==◌, ltb, arith,
  if◌then◌else◌, Bool-cases, all, any, unique, select_where,
}
use wheelmatch.Listings.Drafts.{Listing}
use wheelmatch.Listings.Drafts.Cursors.{ListingCursor}

abbrev pub cursor_of : Listing → ListingCursor
cursor_of row = record { updated_at = row.updated_at; listing_id = row.id }

-- the row comes after the cursor
abbrev pub is_after : ListingCursor → Listing → Bool
is_after cursor row =
    ltb row.updated_at cursor.updated_at
    || (row.updated_at == cursor.updated_at) && ltb row.id cursor.listing_id

abbrev pub insert : Listing → List Listing → List Listing
insert row [] = row ∷ []
insert row (x ∷ xs) =
    let rest = insert row xs in if is_after (cursor_of row) x then row ∷ x ∷ xs else x ∷ rest

abbrev pub order_by : List Listing → List Listing
order_by [] = []
order_by (row ∷ rows) = insert row (order_by rows)

-- every row comes before all that follow it
abbrev pub descending : List Listing → Bool
descending [] = true
descending (x ∷ xs) = all (is_after (cursor_of x)) xs && descending xs

all-is_after :
    (a b : Listing) (xs : List Listing)
    → is_after (cursor_of a) b ≡ true
    → all (is_after (cursor_of b)) xs ≡ true
    → all (is_after (cursor_of a)) xs ≡ true
all-is_after a b [] h k = refl
all-is_after a b (x ∷ xs) h k = ground (arith, all-is_after a b xs h)

all-insert :
    (p : Listing → Bool) (row : Listing) (xs : List Listing)
    → p row ≡ true
    → all p xs ≡ true
    → all p (insert row xs) ≡ true
all-insert p row [] h k = ground arith
all-insert p row (x ∷ xs) h k = ground (arith, all-insert p row xs)

abbrev is_other : ℕ → Listing → Bool
is_other id row = not (row.id == id)

insert-descending :
    (row : Listing) (xs : List Listing)
    → all (is_other row.id) xs ≡ true
    → descending xs ≡ true
    → descending (insert row xs) ≡ true
insert-descending row [] h d = refl
insert-descending row (x ∷ xs) h d = elim (Bool-cases (is_after (cursor_of row) x)) [
  | inl first ↦ ground (arith, all-is_after row x xs first)
  | inr later ↦
      let here : is_after (cursor_of x) row ≡ true = ground arith in
      ground (arith, all-insert (is_after (cursor_of x)) row xs here, insert-descending row xs)
]

all-order_by :
    (p : Listing → Bool) (xs : List Listing) → all p xs ≡ true → all p (order_by xs) ≡ true
all-order_by p [] h = refl
all-order_by p (x ∷ xs) h =
    all-insert p x (order_by xs) (ground arith) (all-order_by p xs (ground arith))

any-is_other :
    (id : ℕ) (xs : List Listing)
    → any (λ row. row.id == id) xs ≡ false
    → all (is_other id) xs ≡ true
any-is_other id [] h = refl
any-is_other id (x ∷ xs) h = ground (arith, any-is_other id xs)

pub order_by-descending :
    (xs : List Listing) → unique (λ row. row.id) xs ≡ true → descending (order_by xs) ≡ true
order_by-descending [] u = refl
order_by-descending (x ∷ xs) u =
    insert-descending x (order_by xs)
      (all-order_by (is_other x.id) xs (any-is_other x.id xs (ground arith)))
      (order_by-descending xs (ground arith))

all-select_where_of :
    (p q : Listing → Bool) (xs : List Listing) → all q xs ≡ true → all q (select_where p xs) ≡ true
all-select_where_of p q [] h = refl
all-select_where_of p q (x ∷ xs) h = ground (arith, all-select_where_of p q xs)

pub select_where-descending :
    (p : Listing → Bool) (xs : List Listing)
    → descending xs ≡ true
    → descending (select_where p xs) ≡ true
select_where-descending p [] d = refl
select_where-descending p (x ∷ xs) d =
    ground (arith, all-select_where_of p (is_after (cursor_of x)) xs, select_where-descending p xs)

after_none :
    (x : Listing) (xs : List Listing) (last : Listing) (rest : List Listing)
    → all (is_after (cursor_of x)) (xs ++ last ∷ rest) ≡ true
    → is_after (cursor_of last) x ≡ false
after_none x [] last rest h = ground arith
after_none x (y ∷ ys) last rest h = after_none x ys last rest (ground arith)

select_where-all :
    (p : Listing → Bool) (xs : List Listing) → all p xs ≡ true → select_where p xs ≡ xs
select_where-all p [] h = refl
select_where-all p (x ∷ xs) h = ground (arith, select_where-all p xs)

-- The rows after the cursor of a row are those that follow it.
pub select_where-is_after :
    (before : List Listing) (last : Listing) (rest : List Listing)
    → descending (before ++ last ∷ rest) ≡ true
    → select_where (is_after (cursor_of last)) (before ++ last ∷ rest) ≡ rest
select_where-is_after [] last rest d =
    ground (arith, select_where-all (is_after (cursor_of last)) rest)
select_where-is_after (x ∷ xs) last rest d =
    ground (arith, after_none x xs last rest, select_where-is_after xs last rest)
