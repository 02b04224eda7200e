-- ===== src/Identity/Sessions/Found.antt =====
-- What a refresh token is found with: its session, the family and the user.
use wheelmatch.Base.{
  ℕ, ◌≡◌, subst, ◌&&◌, some, ◌==◌, find, find_sound, find-narrow, Option-cases, inl, inr, arith,
}
use wheelmatch.Identity.Users.{User}
use wheelmatch.Identity.Sessions.{
  Store, SessionFamily, RefreshSession, Joined, get_session_family_for_user,
  get_refresh_session_by_hash, join_session, join_family, join_user,
}

pub record IsJoined (token_hash : ℕ) (store : Store) (found : Joined) : Type 0 where
  pub session : find (λ s. s.token_hash == token_hash) store.sessions ≡ some found.current
  pub family : find (λ f. f.id == found.current.family_id) store.families ≡ some found.family
  pub user : find (λ u. u.id == found.family.user_id) store.users ≡ some found.user

pub get_refresh_session_by_hash-IsJoined :
    (token_hash : ℕ) (store : Store) (found : Joined)
    → get_refresh_session_by_hash token_hash store ≡ some found
    → IsJoined token_hash store found
unfolding get_refresh_session_by_hash join_session join_family join_user
get_refresh_session_by_hash-IsJoined token_hash store found e =
    elim (Option-cases (find (λ (s : RefreshSession). s.token_hash == token_hash) store.sessions)) [
      | inl missing ↦ absurd (ground arith)
      | inr (current, c) ↦
          elim (Option-cases
            (find (λ (f : SessionFamily). f.id == current.family_id) store.families)) [
              | inl missing ↦ absurd (ground arith)
              | inr (family, f) ↦
                  elim (Option-cases (find (λ (u : User). u.id == family.user_id) store.users)) [
                    | inl missing ↦ absurd (ground arith)
                    | inr (user, u) ↦
                        let joined : Joined = record {
                          current = current;
                          family = family;
                          user = user;
                        } in
                        let same : joined ≡ found = ground arith in
                        subst (IsJoined token_hash store) same
                          (record { session = c; family = f; user = u })
                  ]
            ]
    ]

-- The family that a token is found with is the one that its own lookup finds.
pub IsJoined-family :
    (token_hash : ℕ) (store : Store) (found : Joined)
    → IsJoined token_hash store found
    → get_session_family_for_user found.family.id found.family.user_id store.families
      ≡ some found.family
IsJoined-family token_hash store found h =
    let same =
      find_sound (λ (f : SessionFamily). f.id == found.current.family_id) store.families
        found.family h.family in
    find-narrow (λ (f : SessionFamily). f.id == found.current.family_id)
      (λ f. f.id == found.family.id && f.user_id == found.family.user_id) store.families
      found.family (λ x e. ground arith) h.family (ground arith)
