-- ===== src/Base/Rows.antt =====
-- What a lookup finds after the writes to a table.
use mathlib.Core.Logic.{inl, inr}
use mathlib.Core.Path.{sym, subst, ◌≡◌, refl}
use mathlib.Core.Bool.{Bool, true, false}
use mathlib.Core.Option.{Option, none, some}
use mathlib.Core.List.{◌++◌, List, [], ◌∷◌, map}
use native.Mathlib.Omega.{arith}
use wheelmatch.Base.Tests.{Bool-cases}
use wheelmatch.Base.Tables.{all, any, find, update_first, update_where}

-- the test of a row that a lookup may not find
abbrev pub has {ℓ} : {A : Type ℓ} → (A → Bool) → Option A → Bool
has c none = false
has c (some a) = c a

module _ {ℓ} {A : Type ℓ} where
  -- A loaded row that is written back is found, if the new row passes.
  pub find-update_first :
      (p q : A → Bool) (b : A) (xs : List A) (a : A)
      → find q xs ≡ some a
      → p a ≡ true
      → q b ≡ true
      → find q (update_first p (λ x. b) xs) ≡ some b
  find-update_first p q b [] a e h k = absurd (cc)
  find-update_first p q b (x ∷ xs) a e h k = ground (arith, find-update_first p q b xs a)

  -- A write to other rows is not seen.
  pub find-update_first_ne :
      (p q : A → Bool) (b : A) (xs : List A)
      → ((x : A) → p x ≡ true → q x ≡ false)
      → q b ≡ false
      → find q (update_first p (λ x. b) xs) ≡ find q xs
  find-update_first_ne p q b [] h k = refl
  find-update_first_ne p q b (x ∷ xs) h k = ground (arith, h x, find-update_first_ne p q b xs h k)

  -- A write to another row is not seen, if what it writes is not looked for.
  pub find-update_first_apart :
      (p q : A → Bool) (b : A) (xs : List A) (a : A)
      → find q xs ≡ some a
      → p a ≡ false
      → q b ≡ false
      → find q (update_first p (λ x. b) xs) ≡ some a
  find-update_first_apart p q b [] a e h k = absurd (cc)
  find-update_first_apart p q b (x ∷ xs) a e h k = elim (Bool-cases (q x)) [
    | inl hit ↦
        let same : x ≡ a = ground arith in
        let keeps : p x ≡ false = subst (λ y. p y ≡ false) (sym same) h in ground arith
    | inr miss ↦ ground (arith, find-update_first_apart p q b xs a)
  ]

  -- A row that is found stays found when rows are appended.
  pub has-find-append :
      (c p : A → Bool) (xs ys : List A)
      → has c (find p xs) ≡ true
      → has c (find p (xs ++ ys)) ≡ true
  has-find-append c p [] ys h = absurd (cc)
  has-find-append c p (x ∷ xs) ys h = ground (arith, has-find-append c p xs ys)

  pub has-find-update_where :
      (c p q : A → Bool) (f : A → A) (xs : List A)
      → ((x : A) → q (f x) ≡ q x)
      → ((x : A) → c x ≡ true → c (f x) ≡ true)
      → has c (find q xs) ≡ true
      → has c (find q (update_where p f xs)) ≡ true
  has-find-update_where c p q f [] h k e = absurd (cc)
  has-find-update_where c p q f (x ∷ xs) h k e =
      ground (arith, h x, k x, has-find-update_where c p q f xs h k)

  -- A write of a row that passes keeps what the lookup shows.
  pub has-find-update_first :
      (c p q : A → Bool) (b : A) (xs : List A)
      → ((x : A) → p x ≡ true → q x ≡ q b)
      → c b ≡ true
      → has c (find q xs) ≡ true
      → has c (find q (update_first p (λ x. b) xs)) ≡ true
  has-find-update_first c p q b [] h k e = absurd (cc)
  has-find-update_first c p q b (x ∷ xs) h k e =
      ground (arith, h x, has-find-update_first c p q b xs h k)

  -- A wider lookup that finds a row which passes the narrower test finds it for both.
  pub find-narrow :
      (p q : A → Bool) (xs : List A) (a : A)
      → ((x : A) → q x ≡ true → p x ≡ true)
      → find p xs ≡ some a
      → q a ≡ true
      → find q xs ≡ some a
  find-narrow p q [] a h e k = absurd (cc)
  find-narrow p q (x ∷ xs) a h e k = ground (arith, h x, find-narrow p q xs a h)

  pub any-find :
      (p q : A → Bool) (xs : List A) (a : A) → find q xs ≡ some a → p a ≡ true → any p xs ≡ true
  any-find p q [] a e h = absurd (cc)
  any-find p q (x ∷ xs) a e h = ground (arith, any-find p q xs a)

  pub all-update_where :
      (c p : A → Bool) (f : A → A) (xs : List A)
      → ((x : A) → p x ≡ true → c x ≡ true → c (f x) ≡ true)
      → all c xs ≡ true
      → all c (update_where p f xs) ≡ true
  all-update_where c p f [] h e = refl
  all-update_where c p f (x ∷ xs) h e = ground (arith, h x, all-update_where c p f xs h)

  pub all_mono :
      (c d : A → Bool) (xs : List A)
      → ((x : A) → c x ≡ true → d x ≡ true)
      → all c xs ≡ true
      → all d xs ≡ true
  all_mono c d [] h e = refl
  all_mono c d (x ∷ xs) h e = ground (arith, h x, all_mono c d xs h)

  -- An update keeps every column that it does not write.
  pub map-update_where {κ} :
      {B : Type κ} (g : A → B) (p : A → Bool) (f : A → A) (xs : List A)
      → ((x : A) → g (f x) ≡ g x)
      → map g (update_where p f xs) ≡ map g xs
  map-update_where g p f [] h = refl
  map-update_where g p f (x ∷ xs) h = elim (Bool-cases (p x)) [
    | inl hit ↦ rw (hit, h x, map-update_where g p f xs h) refl
    | inr miss ↦ rw (miss, map-update_where g p f xs h) refl
  ]
