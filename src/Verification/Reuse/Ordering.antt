-- ===== src/Verification/Reuse/Ordering.antt =====
-- The order in which `select` looks at the evidence.
use wheelmatch.Base.{
  ℕ, ◌≤◌, ◌≡◌, refl, ◌||◌, Bool, List, [], ◌∷◌, any, find, find-mem, some, arith, All,
}
use mathlib.Core.List.{Perm, Mem}
use mathlib.Core.List.Perm
use wheelmatch.Verification.Reuse.{OwnershipEvidence, newest_first, insert_attempt}

insert_attempt-perm :
    (item : OwnershipEvidence) (xs : List OwnershipEvidence)
    → Perm (insert_attempt item xs) (item ∷ xs)
unfolding insert_attempt
insert_attempt-perm item [] = Perm.refl (item ∷ [])
insert_attempt-perm item (x ∷ xs) = ground (
  arith,
  Perm.refl (item ∷ x ∷ xs),
  Perm.trans (Perm.cons x (insert_attempt-perm item xs)) (Perm.swap item x xs),
)

-- The attempts of a list fall.
abbrev pub Descending : List OwnershipEvidence → Type 0
Descending [] = Unit
Descending (x ∷ xs) = All (λ y. y.attempt_number ≤ x.attempt_number) xs × Descending xs

All-trans :
    (a b : ℕ) (xs : List OwnershipEvidence)
    → a ≤ b
    → All (λ y. y.attempt_number ≤ a) xs
    → All (λ y. y.attempt_number ≤ b) xs
All-trans a b [] h k = tt
All-trans a b (x ∷ xs) h k = (omega arith, All-trans a b xs h k.1)

All-insert_attempt :
    (a : ℕ) (item : OwnershipEvidence) (xs : List OwnershipEvidence)
    → item.attempt_number ≤ a
    → All (λ y. y.attempt_number ≤ a) xs
    → All (λ y. y.attempt_number ≤ a) (insert_attempt item xs)
unfolding insert_attempt
All-insert_attempt a item [] h k = (h, tt)
All-insert_attempt a item (x ∷ xs) h k = ground (arith, All-insert_attempt a item xs h k.1)

insert_attempt-Descending :
    (item : OwnershipEvidence) (xs : List OwnershipEvidence)
    → Descending xs
    → Descending (insert_attempt item xs)
unfolding insert_attempt
insert_attempt-Descending item [] h = (tt, tt)
insert_attempt-Descending item (x ∷ xs) h = ground (
  arith,
  insert_attempt-Descending item xs h.1,
  All-trans x.attempt_number item.attempt_number xs,
  All-insert_attempt x.attempt_number item xs,
)

-- The evidence is looked at newest attempt first, none is lost and none is made up.
pub newest_first-sorts :
    (xs : List OwnershipEvidence) → Perm (newest_first xs) xs × Descending (newest_first xs)
unfolding newest_first
newest_first-sorts [] = (Perm.refl [], tt)
newest_first-sorts (x ∷ xs) =
    let (same, falls) = newest_first-sorts xs in
    (
      Perm.trans (insert_attempt-perm x (newest_first xs)) (Perm.cons x same),
      insert_attempt-Descending x (newest_first xs) falls,
    )

any-insert_attempt :
    (p : OwnershipEvidence → Bool) (item : OwnershipEvidence) (xs : List OwnershipEvidence)
    → any p (insert_attempt item xs) ≡ (p item || any p xs)
unfolding insert_attempt
any-insert_attempt p item [] = refl
any-insert_attempt p item (x ∷ xs) = ground (arith, any-insert_attempt p item xs)

-- A test of all the evidence does not see the order.
pub any-newest_first :
    (p : OwnershipEvidence → Bool) (xs : List OwnershipEvidence)
    → any p (newest_first xs) ≡ any p xs
unfolding newest_first
any-newest_first p [] = refl
any-newest_first p (x ∷ xs) =
    ground (arith, any-insert_attempt p x (newest_first xs), any-newest_first p xs)

-- What is found in the ordered evidence stands in the evidence.
pub find-newest_first :
    (p : OwnershipEvidence → Bool) (xs : List OwnershipEvidence) (e : OwnershipEvidence)
    → find p (newest_first xs) ≡ some e
    → Mem e xs
find-newest_first p xs e h =
    (Perm.mem_iff (newest_first-sorts xs).0).0 (find-mem p (newest_first xs) e h)
