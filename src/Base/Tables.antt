-- ===== src/Base/Tables.antt =====
-- A table of the database as the list of its rows: select, update and count under a Boolean test.
use Prim.Native.Nat.{◌<◌, ℕ, suc}
use mathlib.Core.Path.{◌≡◌, refl, subst}
use mathlib.Core.Logic.{◌⊎◌, inl, inr}
use mathlib.Core.Bool.{not, Bool, true, false, ◌&&◌, ◌||◌}
use mathlib.Core.Option.{Option, none, some}
use mathlib.Core.List.{◌++◌, List, [], ◌∷◌, Mem, mem-cons_self, mem-cons_of_mem}
use native.Mathlib.Omega.{arith}
use wheelmatch.Base.Tests.{if◌then◌else◌, Bool-cases}

module _ {ℓ} {A : Type ℓ} where
  abbrev pub length : List A → ℕ
  length [] = 0
  length (x ∷ xs) = suc (length xs)

  -- the first row that passes, `None` if there is none
  abbrev pub find : (A → Bool) → List A → Option A
  find p [] = none
  find p (x ∷ xs) = if p x then some x else find p xs

  -- `UPDATE … SET f WHERE p`
  abbrev pub update_where : (A → Bool) → (A → A) → List A → List A
  update_where p f [] = []
  update_where p f (x ∷ xs) = (if p x then f x else x) ∷ update_where p f xs

  abbrev pub count_where : (A → Bool) → List A → ℕ
  count_where p [] = 0
  count_where p (x ∷ xs) = let rest = count_where p xs in if p x then suc rest else rest

  abbrev pub select_where : (A → Bool) → List A → List A
  select_where p [] = []
  select_where p (x ∷ xs) = let rest = select_where p xs in if p x then x ∷ rest else rest

  abbrev pub any : (A → Bool) → List A → Bool
  any p [] = false
  any p (x ∷ xs) = p x || any p xs

  abbrev pub all : (A → Bool) → List A → Bool
  all p [] = true
  all p (x ∷ xs) = p x && all p xs

  -- Every row of a table has a property.
  abbrev pub All {κ} : (A → Type κ) → List A → Type κ
  All P [] = Unit
  All P (x ∷ xs) = P x × All P xs

  -- An update changes no row that its test refuses.
  pub find-update_where_ne :
      (p q : A → Bool) (f : A → A) (xs : List A)
      → ((x : A) → q x ≡ true → p x ≡ false)
      → ((x : A) → p x ≡ true → q (f x) ≡ false)
      → find q (update_where p f xs) ≡ find q xs
  find-update_where_ne p q f [] h k = refl
  find-update_where_ne p q f (x ∷ xs) h k =
      ground (arith, h x, k x, find-update_where_ne p q f xs h k)

  -- What a selection finds passes its test.
  pub find_sound : (p : A → Bool) (xs : List A) (a : A) → find p xs ≡ some a → p a ≡ true
  find_sound p [] a e = cc
  find_sound p (x ∷ xs) a e = ground (arith, find_sound p xs a)

  pub All-find {κ} :
      (P : A → Type κ) (p : A → Bool) (xs : List A) (a : A) → All P xs → find p xs ≡ some a → P a
  All-find P p [] a h e = absurd (cc)
  All-find P p (x ∷ xs) a h e = elim (Bool-cases (p x)) [
    | inl hit ↦ let same : x ≡ a = ground arith in subst P same h.0
    | inr miss ↦ let rest : find p xs ≡ some a = ground arith in All-find P p xs a h.1 rest
  ]

  pub find-mem : (p : A → Bool) (xs : List A) (a : A) → find p xs ≡ some a → Mem a xs
  find-mem p [] a e = absurd (cc)
  find-mem p (x ∷ xs) a e = elim (Bool-cases (p x)) [
    | inl hit ↦ let same : x ≡ a = ground arith in subst (λ y. Mem y (x ∷ xs)) same mem-cons_self
    | inr miss ↦
        let rest : find p xs ≡ some a = ground arith in mem-cons_of_mem x (find-mem p xs a rest)
  ]

  -- a write to the row of a primary key: the first that passes
  abbrev pub update_first : (A → Bool) → (A → A) → List A → List A
  update_first p f [] = []
  update_first p f (x ∷ xs) = if p x then f x ∷ xs else x ∷ update_first p f xs

  any-other :
      (p q : A → Bool) (xs : List A) → any (λ x. p x && not (q x)) xs ≡ true → any p xs ≡ true
  any-other p q [] h = h
  any-other p q (x ∷ xs) h = ground (arith, any-other p q xs)

  -- A row that some test counts is still there after a write to another, or to itself if the
  -- written row passes the test too.
  pub any-update_first :
      (p q : A → Bool) (f : A → A) (xs : List A) (m : A)
      → any p xs ≡ true
      → find q xs ≡ some m
      → ((p m ≡ false) ⊎ ((p (f m) ≡ true) ⊎ (any (λ x. p x && not (q x)) xs ≡ true)))
      → any p (update_first q f xs) ≡ true
  any-update_first p q f [] m there found keeps = there
  any-update_first p q f (x ∷ xs) m there found keeps =
      ground (arith, any-other p q xs, any-update_first p q f xs m)

  pub find-append_none :
      (p : A → Bool) (xs : List A) (y : A)
      → find p xs ≡ none
      → p y ≡ true
      → find p (xs ++ y ∷ []) ≡ some y
  find-append_none p [] y h k = ground arith
  find-append_none p (x ∷ xs) y h k = ground (arith, find-append_none p xs y)

  -- An update that keeps what the selection looks at changes just the row that is found.
  pub find-update_where :
      (p q : A → Bool) (f : A → A) (xs : List A) (a : A)
      → ((x : A) → q (f x) ≡ q x)
      → find q xs ≡ some a
      → find q (update_where p f xs) ≡ some (if p a then f a else a)
  find-update_where p q f [] a h e = cc
  find-update_where p q f (x ∷ xs) a h e = ground (arith, h x, find-update_where p q f xs a h)

  pub any-count_where : (p : A → Bool) (xs : List A) → 0 < count_where p xs → any p xs ≡ true
  any-count_where p [] h = absurd (omega arith)
  any-count_where p (x ∷ xs) h = ground (arith, any-count_where p xs)

  pub any-append : (p : A → Bool) (xs ys : List A) → any p xs ≡ true → any p (xs ++ ys) ≡ true
  any-append p [] ys h = absurd (cc)
  any-append p (x ∷ xs) ys h = ground (arith, any-append p xs ys)
