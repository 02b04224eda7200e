-- ===== src/Base/Keys.antt =====
-- Primary keys of a table, the row with the greatest number, and what a key finds after a write.
use Prim.Native.Nat.{suc, ℕ, ◌≤◌}
use mathlib.Core.Path.{sym, ◌≡◌, refl, subst}
use mathlib.Core.Logic.{inl, inr}
use mathlib.Core.Bool.{Bool, true, false, not, ◌&&◌}
use mathlib.Core.Option.{Option, none, some}
use mathlib.Core.List.{◌++◌, List, [], ◌∷◌}
use native.Mathlib.Omega.{arith}
use wheelmatch.Base.Tests.{Bool-cases, ◌==◌, ltb, eq_option, if◌then◌else◌}
use wheelmatch.Base.Tables.{any, find, update_first, count_where}

pub eq_option_refl : (o : Option ℕ) → eq_option o o ≡ true
eq_option_refl none = refl
eq_option_refl (some a) = ground arith

module _ {ℓ} {A : Type ℓ} where
  -- No two rows share a key.
  abbrev pub unique : (A → ℕ) → List A → Bool
  unique key [] = true
  unique key (x ∷ xs) = not (any (λ y. key y == key x) xs) && unique key xs

  -- `ORDER BY number DESC LIMIT 1`
  abbrev pub top : (A → ℕ) → List A → Option A
  top number [] = none
  top number (x ∷ xs) = elim (top number xs) [
    | none ↦ some x
    | some y ↦ if ltb (number x) (number y) then some y else some x
  ]

  find-other :
      (key : A → ℕ) (k : ℕ) (p : A → Bool) (xs : List A) (a : A)
      → any (λ y. key y == k) xs ≡ false
      → find p xs ≡ some a
      → (key a == k) ≡ false
  find-other key k p [] a free found = absurd (cc)
  find-other key k p (x ∷ xs) a free found = ground (arith, find-other key k p xs a)

  -- A row that any lookup finds is found by its key.
  pub find_key :
      (key : A → ℕ) (p : A → Bool) (xs : List A) (a : A)
      → unique key xs ≡ true
      → find p xs ≡ some a
      → find (λ x. key x == key a) xs ≡ some a
  find_key key p [] a u found = absurd (cc)
  find_key key p (x ∷ xs) a u found = elim (Bool-cases (p x)) [
    | inl hit ↦
        let same : x ≡ a = ground arith in
        subst (λ b. find (λ y. key y == key b) (x ∷ xs) ≡ some b) same (ground arith)
    | inr miss ↦ ground (arith, find-other key (key x) p xs a, find_key key p xs a)
  ]

  pub any-update_first_key :
      (key : A → ℕ) (k : ℕ) (p : A → Bool) (b : A) (xs : List A)
      → ((x : A) → p x ≡ true → key x ≡ key b)
      → any (λ y. key y == k) (update_first p (λ x. b) xs) ≡ any (λ y. key y == k) xs
  any-update_first_key key k p b [] h = refl
  any-update_first_key key k p b (x ∷ xs) h =
      ground (arith, h x, any-update_first_key key k p b xs h)

  -- A write of a row under its own key keeps the keys unique.
  pub unique-update_first :
      (key : A → ℕ) (p : A → Bool) (b : A) (xs : List A)
      → ((x : A) → p x ≡ true → key x ≡ key b)
      → unique key (update_first p (λ x. b) xs) ≡ unique key xs
  unique-update_first key p b [] h = refl
  unique-update_first key p b (x ∷ xs) h =
      ground
        (arith, h x, any-update_first_key key (key x) p b xs h, unique-update_first key p b xs h)

  any-append_one :
      (p : A → Bool) (xs : List A) (b : A)
      → any p xs ≡ false
      → p b ≡ false
      → any p (xs ++ b ∷ []) ≡ false
  any-append_one p [] b h k = ground arith
  any-append_one p (x ∷ xs) b h k = ground (arith, any-append_one p xs b)

  pub unique-append :
      (key : A → ℕ) (xs : List A) (b : A)
      → unique key xs ≡ true
      → any (λ y. key y == key b) xs ≡ false
      → unique key (xs ++ b ∷ []) ≡ true
  unique-append key [] b u free = refl
  unique-append key (x ∷ xs) b u free =
      ground (arith, any-append_one (λ y. key y == key x) xs b, unique-append key xs b)

  -- A lookup that found nothing finds the written row that passes.
  pub find-update_first_new :
      (p r q : A → Bool) (b : A) (xs : List A) (a : A)
      → find q xs ≡ none
      → find r xs ≡ some a
      → p a ≡ true
      → q b ≡ true
      → find q (update_first p (λ x. b) xs) ≡ some b
  find-update_first_new p r q b [] a free found k h = absurd (cc)
  find-update_first_new p r q b (x ∷ xs) a free found k h =
      ground (arith, find-update_first_new p r q b xs a)

  -- A row that a lookup finds stays when another is appended.
  pub find-append_some :
      (p : A → Bool) (xs ys : List A) (a : A) → find p xs ≡ some a → find p (xs ++ ys) ≡ some a
  find-append_some p [] ys a found = absurd (cc)
  find-append_some p (x ∷ xs) ys a found = ground (arith, find-append_some p xs ys a)

  pub find-append_ne :
      (p : A → Bool) (xs : List A) (b : A) → p b ≡ false → find p (xs ++ b ∷ []) ≡ find p xs
  find-append_ne p [] b h = ground arith
  find-append_ne p (x ∷ xs) b h = ground (arith, find-append_ne p xs b h)

  pub count_where-append :
      (p : A → Bool) (xs : List A) (b : A)
      → count_where p (xs ++ b ∷ []) ≡ (if p b then suc (count_where p xs) else count_where p xs)
  count_where-append p [] b = refl
  count_where-append p (x ∷ xs) b = ground (arith, count_where-append p xs b)

  -- A write whose row counts only if the old one did never raises a count.
  pub count_where-update_first :
      (c p : A → Bool) (b : A) (xs : List A) (a : A)
      → find p xs ≡ some a
      → (c b ≡ true → c a ≡ true)
      → count_where c (update_first p (λ x. b) xs) ≤ count_where c xs
  count_where-update_first c p b [] a found h = absurd (cc)
  count_where-update_first c p b (x ∷ xs) a found h = elim (Bool-cases (p x)) [
    | inl hit ↦
        let same : x ≡ a = ground arith in
        let here : c b ≡ true → c x ≡ true = subst (λ y. c b ≡ true → c y ≡ true) (sym same) h in
        ground arith
    | inr miss ↦ ground (arith, count_where-update_first c p b xs a)
  ]

  pub find-count_where : (p : A → Bool) (xs : List A) → find p xs ≡ none → count_where p xs ≡ 0
  find-count_where p [] h = refl
  find-count_where p (x ∷ xs) h = ground (arith, find-count_where p xs)
