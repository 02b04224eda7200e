-- ===== src/Identity/Sessions/Closed.antt =====
-- Revoked session families, and that no write of the handlers opens one again.
use wheelmatch.Base.{
  ℕ, ◌≡◌, refl, Bool, true, ◌&&◌, some, List, ◌++◌, ◌==◌, is_some, has, has-find-append,
  has-find-update_where, has-find-update_first, find-update_first_ne, find-update_first, Bool-cases,
  inl, inr, arith,
}
use wheelmatch.Identity.Sessions.{
  Store, SessionFamily, Reason, get_session_family_for_user, write_family, revoked_family,
  revoke_family, revoke_user_sessions,
}

abbrev pub is_revoked : SessionFamily → Bool
is_revoked f = is_some f.revoked_at

-- the row of the family is there and revoked
unfoldable pub is_closed : ℕ → ℕ → List SessionFamily → Bool
is_closed family_id user_id families =
    has is_revoked (get_session_family_for_user family_id user_id families)

abbrev pub IsClosed : ℕ → ℕ → Store → Type 0
IsClosed family_id user_id store = is_closed family_id user_id store.families ≡ true

pub append-is_closed :
    (family_id user_id : ℕ) (families new : List SessionFamily)
    → is_closed family_id user_id families ≡ true
    → is_closed family_id user_id (families ++ new) ≡ true
unfolding is_closed
append-is_closed family_id user_id families new h = has-find-append is_revoked _ families new h

-- A write leaves a revoked family revoked unless it writes that family without a revocation.
pub write_family-is_closed :
    (family_id user_id : ℕ) (b : SessionFamily) (families : List SessionFamily)
    → is_closed family_id user_id families ≡ true
    → ((b.id == family_id && b.user_id == user_id) ≡ true → is_revoked b ≡ true)
    → is_closed family_id user_id (write_family b families) ≡ true
unfolding is_closed
write_family-is_closed family_id user_id b families h k =
    elim (Bool-cases (b.id == family_id && b.user_id == user_id)) [
      | inl same ↦
          has-find-update_first is_revoked _ (λ f. f.id == family_id && f.user_id == user_id) b
            families (λ x e. ground arith) (k same) h
      | inr other ↦
          rw
            (find-update_first_ne (λ f. f.id == b.id && f.user_id == b.user_id)
              (λ f. f.id == family_id && f.user_id == user_id) b families (λ x e. ground arith)
              other)
            h
    ]

pub revoke_family-IsClosed :
    (family_id user_id : ℕ) (f : SessionFamily) (now : ℕ) (reason : Reason) (reuse : Bool)
    (store : Store)
    → IsClosed family_id user_id store
    → IsClosed family_id user_id (revoke_family f now reason reuse store)
unfolding revoke_family
revoke_family-IsClosed family_id user_id f now reason reuse store h =
    write_family-is_closed family_id user_id _ store.families h λ e. ground arith

pub revoke_user_sessions-IsClosed :
    (family_id user_id owner_id : ℕ) (now : ℕ) (reason : Reason) (store : Store)
    → IsClosed family_id user_id store
    → IsClosed family_id user_id (revoke_user_sessions owner_id now reason store).1
unfolding revoke_user_sessions is_closed
revoke_user_sessions-IsClosed family_id user_id owner_id now reason store h =
    has-find-update_where is_revoked _ _ _ store.families (λ x. refl) (λ x e. refl) h

-- A family that is written back revoked is closed.
pub revoke_family-closes :
    (f : SessionFamily) (now : ℕ) (reason : Reason) (reuse : Bool) (store : Store)
    → get_session_family_for_user f.id f.user_id store.families ≡ some f
    → IsClosed f.id f.user_id (revoke_family f now reason reuse store)
unfolding revoke_family is_closed
revoke_family-closes f now reason reuse store found =
    rw
      (find-update_first (λ (g : SessionFamily). g.id == f.id && g.user_id == f.user_id)
        (λ (g : SessionFamily). g.id == f.id && g.user_id == f.user_id)
        (revoked_family f now reason reuse) store.families f found (ground arith) (ground arith))
      (ground arith)
