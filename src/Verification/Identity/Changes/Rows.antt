-- ===== src/Verification/Identity/Changes/Rows.antt =====
-- What a change does to the row of an attempt and to the primary key.
use wheelmatch.Base.{
  ℕ, ◌≡◌, refl, ◌∙◌, ◌⊎◌, inl, inr, true, some, List, ◌==◌, Option-cases, Bool-cases, arith, any,
  unique, top-find_key, find_key-update_first, unique-update_first, unique-append,
  any-update_first_key,
}
use wheelmatch.Verification.Identity.{IdentityVerification, Store, get_attempt, get_latest_for_user}
use wheelmatch.Verification.Identity.Starting.{fresh_attempt, supersede}
use wheelmatch.Verification.Identity.Changes.{Change, kept, opened, referenced, moved, unique_ids}

abbrev pub latest_found :
    (user_id : ℕ) (rows : List IdentityVerification) (a : IdentityVerification)
    → unique (λ row. row.id) rows ≡ true
    → get_latest_for_user user_id rows ≡ some a
    → get_attempt a.id rows ≡ some a
latest_found user_id rows a u latest =
    top-find_key (λ row. row.id) (λ row. row.attempt_number) (λ row. row.user_id == user_id) rows a
      u latest

-- the superseded row is marked, and every other is as it was
pub get_attempt-supersede :
    (now user_id id : ℕ) (rows : List IdentityVerification)
    → unique (λ row. row.id) rows ≡ true
    → let after = get_attempt id (supersede now (get_latest_for_user user_id rows) rows) in
      (after ≡ get_attempt id rows)
      ⊎ ((a : IdentityVerification) × (get_attempt id rows ≡ some a)
          × (after ≡ some (record a { superseded_at = some now })))
get_attempt-supersede now user_id id rows u =
    elim (Option-cases (get_latest_for_user user_id rows)) [
      | inl empty ↦ inl (rw empty refl)
      | inr (a, latest) ↦
          let found = latest_found user_id rows a u latest in
          let b : IdentityVerification = record a { superseded_at = some now } in
          let written = find_key-update_first (λ row. row.id) b rows a id found in
          elim (Bool-cases (a.id == id)) [
            | inl same ↦
                let key : a.id ≡ id = ground arith in
                let stored : get_attempt id rows ≡ some a = rw (← key) found in
                inr (a, stored, rw latest (rw (rw same at written)))
            | inr other ↦ inl (rw latest (rw (rw other at written)))
          ]
    ]

pub supersede-unique :
    (now user_id : ℕ) (rows : List IdentityVerification)
    → unique (λ row. row.id) (supersede now (get_latest_for_user user_id rows) rows)
      ≡ unique (λ row. row.id) rows
supersede-unique now user_id rows = elim (Option-cases (get_latest_for_user user_id rows)) [
  | inl empty ↦ rw empty refl
  | inr (a, latest) ↦ rw latest (
      unique-update_first (λ row. row.id) (λ row. row.id == a.id)
        (record a { superseded_at = some now }) rows (λ x h. ground arith))
]

pub any-supersede :
    (now user_id id : ℕ) (rows : List IdentityVerification)
    → any (λ row. row.id == id) (supersede now (get_latest_for_user user_id rows) rows)
      ≡ any (λ row. row.id == id) rows
any-supersede now user_id id rows = elim (Option-cases (get_latest_for_user user_id rows)) [
  | inl empty ↦ rw empty refl
  | inr (a, latest) ↦ rw latest (
      any-update_first_key (λ row. row.id) id (λ row. row.id == a.id)
        (record a { superseded_at = some now }) rows (λ x h. ground arith))
]

-- Every change keeps the ids of the attempts different.
pub Change-unique :
    (store next : Store) → Change store next → unique_ids store ≡ true → unique_ids next ≡ true
Change-unique store next (kept ra rs) u = rw ra u
Change-unique store next (opened identifier c fresh idle ra rs) u = rw ra (
    unique-append (λ row. row.id) _ (fresh_attempt c identifier _)
      (supersede-unique c.now c.actor_user_id store.attempts ∙ u)
      (any-supersede c.now c.actor_user_id c.attempt_id store.attempts ∙ fresh))
Change-unique store next (referenced a reference found st ra rs) u = rw ra (
    unique-update_first (λ row. row.id) (λ row. row.id == a.id) _ store.attempts
      (λ x h. ground arith)
    ∙ u)
Change-unique store next (moved a b s t found state current m ra rs) u = rw ra (
    unique-update_first (λ row. row.id) (λ row. row.id == b.id) b store.attempts
      (λ x h. ground arith)
    ∙ u)
