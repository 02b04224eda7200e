-- ===== src/Base/Newest.antt =====
-- The newest row of a selection, and writes under a key.
use mathlib.Core.Path.{◌≡◌, refl, subst}
use mathlib.Core.Logic.{◌⊎◌, inl, inr}
use mathlib.Core.Bool.{Bool, true, false, not}
use mathlib.Core.Option.{none, some}
use mathlib.Core.List.{◌++◌, List, [], ◌∷◌}
use native.Mathlib.Omega.{arith}
use Prim.Native.Nat.{ℕ}
use wheelmatch.Base.Tests.{Bool-cases, Option-cases, ◌==◌, ltb, if◌then◌else◌}
use wheelmatch.Base.Tables.{any, all, find, select_where, count_where, update_first}
use wheelmatch.Base.Keys.{unique, top}

module _ {ℓ} {A : Type ℓ} where
  -- After a write of a row under its key, the key finds the row and every other key what it found.
  pub find_key-update_first :
      (key : A → ℕ) (b : A) (xs : List A) (a : A) (k : ℕ)
      → find (λ x. key x == key b) xs ≡ some a
      → find (λ x. key x == k) (update_first (λ x. key x == key b) (λ x. b) xs)
        ≡ (if key b == k then some b else find (λ x. key x == k) xs)
  find_key-update_first key b [] a k found = absurd (cc)
  find_key-update_first key b (x ∷ xs) a k found =
      ground (arith, find_key-update_first key b xs a k)

  pub all-update_first :
      (c p : A → Bool) (b : A) (xs : List A)
      → c b ≡ true
      → all c xs ≡ true
      → all c (update_first p (λ x. b) xs) ≡ true
  all-update_first c p b [] h k = refl
  all-update_first c p b (x ∷ xs) h k = ground (arith, all-update_first c p b xs h)

  pub all-append_one :
      (c : A → Bool) (xs : List A) (b : A)
      → all c xs ≡ true
      → c b ≡ true
      → all c (xs ++ b ∷ []) ≡ true
  all-append_one c [] b h k = ground arith
  all-append_one c (x ∷ xs) b h k = ground (arith, all-append_one c xs b)

  pub all-find :
      (c p : A → Bool) (xs : List A) (a : A) → all c xs ≡ true → find p xs ≡ some a → c a ≡ true
  all-find c p [] a h e = absurd (cc)
  all-find c p (x ∷ xs) a h e = ground (arith, all-find c p xs a)

  top-cases :
      (number : A → ℕ) (x : A) (xs : List A) (a : A)
      → top number (x ∷ xs) ≡ some a
      → (x ≡ a) ⊎ (top number xs ≡ some a)
  top-cases number x xs a e = elim (Option-cases (top number xs)) [
    | inl empty ↦ inl (ground arith)
    | inr (y, t) ↦ elim (Bool-cases (ltb (number x) (number y))) [
      | inl below ↦ inr (ground arith)
      | inr above ↦ inl (ground arith)
    ]
  ]

  pub top-all :
      (c : A → Bool) (number : A → ℕ) (xs : List A) (a : A)
      → all c xs ≡ true
      → top number xs ≡ some a
      → c a ≡ true
  top-all c number [] a h e = absurd (cc)
  top-all c number (x ∷ xs) a h e = elim (top-cases number x xs a e) [
    | inl here ↦ subst (λ y. c y ≡ true) here (ground arith)
    | inr rest ↦ top-all c number xs a (ground arith) rest
  ]

  pub all-select_where :
      (c p : A → Bool) (xs : List A) → all c xs ≡ true → all c (select_where p xs) ≡ true
  all-select_where c p [] h = refl
  all-select_where c p (x ∷ xs) h = ground (arith, all-select_where c p xs)

  pub select_where-all : (p : A → Bool) (xs : List A) → all p (select_where p xs) ≡ true
  select_where-all p [] = refl
  select_where-all p (x ∷ xs) = ground (arith, select_where-all p xs)

  -- a key that no row has is not the key of a row that a test on all rows shows
  pub all-any-not : (p : A → Bool) (xs : List A) → any p xs ≡ false → all (λ x. not (p x)) xs ≡ true
  all-any-not p [] h = refl
  all-any-not p (x ∷ xs) h = ground (arith, all-any-not p xs)

  pub find-any : (p : A → Bool) (xs : List A) → any p xs ≡ false → find p xs ≡ none
  find-any p [] h = refl
  find-any p (x ∷ xs) h = ground (arith, find-any p xs)

  select_where-apart :
      (key number : A → ℕ) (p : A → Bool) (x : A) (xs : List A) (a : A)
      → any (λ y. key y == key x) xs ≡ false
      → top number (select_where p xs) ≡ some a
      → (key a == key x) ≡ false
  select_where-apart key number p x xs a free e =
      let others = all-any-not (λ y. key y == key x) xs free in
      let apart =
        top-all (λ y. not (key y == key x)) number (select_where p xs) a
          (all-select_where (λ y. not (key y == key x)) p xs others) e in
      ground (arith, apart)

  -- The newest row of a selection is found by its key.
  pub top-find_key :
      (key number : A → ℕ) (p : A → Bool) (xs : List A) (a : A)
      → unique key xs ≡ true
      → top number (select_where p xs) ≡ some a
      → find (λ x. key x == key a) xs ≡ some a
  top-find_key key number p [] a u e = absurd (cc)
  top-find_key key number p (x ∷ xs) a u e = elim (Bool-cases (p x)) [
    | inl hit ↦
        let e' : top number (x ∷ select_where p xs) ≡ some a = ground arith in
        elim (top-cases number x (select_where p xs) a e') [
          | inl here ↦ subst (λ b. find (λ y. key y == key b) (x ∷ xs) ≡ some b) here (ground arith)
          | inr rest ↦
              ground (arith, select_where-apart key number p x xs a, top-find_key key number p xs a)
        ]
    | inr miss ↦
        ground (arith, select_where-apart key number p x xs a, top-find_key key number p xs a)
  ]

  -- Where a selection is empty, nothing counts.
  pub top-count_where :
      (number : A → ℕ) (p : A → Bool) (xs : List A)
      → top number (select_where p xs) ≡ none
      → count_where p xs ≡ 0
  top-count_where number p [] e = refl
  top-count_where number p (x ∷ xs) e = elim (Bool-cases (p x)) [
    | inl hit ↦ elim (Option-cases (top number (select_where p xs))) [
      | inl empty ↦ absurd (ground arith)
      | inr (y, t) ↦ elim (Bool-cases (ltb (number x) (number y))) [
        | inl below ↦ absurd (ground arith)
        | inr above ↦ absurd (ground arith)
      ]
    ]
    | inr miss ↦ ground (arith, top-count_where number p xs)
  ]

  -- A key that is new to the table finds the appended row.
  pub find-append_new :
      (p : A → Bool) (xs : List A) (b : A)
      → any p xs ≡ false
      → p b ≡ true
      → find p (xs ++ b ∷ []) ≡ some b
  find-append_new p [] b h k = ground arith
  find-append_new p (x ∷ xs) b h k = ground (arith, find-append_new p xs b)
