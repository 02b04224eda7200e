-- ===== src/Identity/Tokens.antt =====
-- Refresh tokens: what a refresh needs, and what a second use of a token does.
use mathlib.Core.List.{Mem, mem-cons_self, mem-cons_of_mem}
use wheelmatch.Base.{
  find-update_first, find-update_first_ne, subst, sym, find, List, [], ◌∷◌, ◌++◌, ◌==◌, ◌&&◌,
  if◌then◌else◌, Bool-cases, ℕ, ◌≡◌, refl, true, none, some, is_some, Option-cases, inl, inr, arith,
  ok, err, ◌<◌,
}
use wheelmatch.Authorization.{is_active_user}
use wheelmatch.Identity.Sessions.{
  SessionFamily, RefreshSession, get_session_family_for_user, write_family, Store, Joined,
  session_invalid, get_refresh_session_by_hash, refresh_replay,
}
use wheelmatch.Identity.Sessions.Closed.{IsClosed, revoke_family-closes}
use wheelmatch.Identity.Sessions.Found.{
  IsJoined, get_refresh_session_by_hash-IsJoined, IsJoined-family,
}
use wheelmatch.Identity.Login.{token_response, Config, TokenResponse}
use wheelmatch.Identity.Refresh.{
  next_session, use_session, RefreshCall, refresh, refresh_found, replayed, rotated, is_refused,
}

-- What a refresh that returns tokens shows of its rows.
pub record Renewable (digest : ℕ → ℕ) (call : RefreshCall) (store : Store) (found : Joined)
    : Type 0 where
  pub rows : IsJoined (digest call.refresh_token) store found
  pub unused : found.current.used_at ≡ none
  pub session_open : found.current.revoked_at ≡ none
  pub session_valid : call.now < found.current.expires_at
  pub family_open : found.family.revoked_at ≡ none
  pub family_valid : call.now < found.family.expires_at
  pub active : is_active_user found.user.status ≡ true

-- what a refresh that returns tokens shows, and the rows that it writes
pub refresh-rotated :
    (config : Config) (digest : ℕ → ℕ) (call : RefreshCall) (store next : Store)
    (response : TokenResponse)
    → refresh config digest call store ≡ (ok response, next)
    → (found : Joined) × Renewable digest call store found
      × (response ≡ token_response config found.user.id found.family call.rotated_token call.now)
      × (next ≡ rotated digest call found store)
unfolding refresh refresh_found is_refused
refresh-rotated config digest call store next response e =
    elim (Option-cases (get_refresh_session_by_hash (digest call.refresh_token) store)) [
      | inl missing ↦ absurd (ground arith)
      | inr (found, f) ↦ (
        found,
        record {
          rows = get_refresh_session_by_hash-IsJoined (digest call.refresh_token) store found f;
          unused = ground arith;
          session_open = ground arith;
          session_valid = ground arith;
          family_open = ground arith;
          family_valid = ground arith;
          active = ground arith;
        },
        ground arith,
        ground arith,
      )
    ]

-- What a refresh leaves: a new session of the same family that expires with it, and every family as
-- it was, but for the time of the last use of the one that was renewed.
pub record Renewed (digest : ℕ → ℕ) (call : RefreshCall) (found : Joined) (store next : Store)
    (response : TokenResponse) : Type 0 where
  pub session_id : response.session_id ≡ found.family.id
  pub user_id : response.access_token.user_id ≡ found.user.id
  pub until : response.refresh_expires_at ≡ found.family.expires_at
  pub families :
      (id user_id : ℕ)
      → get_session_family_for_user id user_id next.families ≡ (
          if (found.family.id == id) && found.family.user_id == user_id
          then some (record (found.family) { last_used_at = call.now })
          else get_session_family_for_user id user_id store.families)
  pub session : RefreshSession
  pub added : Mem session next.sessions
  pub token : session.token_hash ≡ digest response.refresh_token
  pub family : session.family_id ≡ found.family.id
  pub session_until : session.expires_at ≡ found.family.expires_at
  pub unused : session.used_at ≡ none
  pub session_open : session.revoked_at ≡ none

write_family-find :
    (family renewed : SessionFamily) (families : List SessionFamily) (id user_id : ℕ)
    → get_session_family_for_user family.id family.user_id families ≡ some family
    → renewed.id ≡ family.id
    → renewed.user_id ≡ family.user_id
    → get_session_family_for_user id user_id (write_family renewed families) ≡ (
        if (family.id == id) && family.user_id == user_id
        then some renewed
        else get_session_family_for_user id user_id families)
write_family-find family renewed families id user_id found same owner =
    elim (Bool-cases ((family.id == id) && family.user_id == user_id)) [
      | inl own ↦ rw own (
          find-update_first (λ f. f.id == renewed.id && f.user_id == renewed.user_id)
            (λ f. f.id == id && f.user_id == user_id) renewed families family
            (subst (λ i. find (λ f. f.id == i && f.user_id == user_id) families ≡ some family)
              (ground arith)
              (subst (λ u. find (λ f. f.id == family.id && f.user_id == u) families ≡ some family)
                (ground arith) found))
            (ground arith) (ground arith))
      | inr other ↦ rw other (
          find-update_first_ne (λ f. f.id == renewed.id && f.user_id == renewed.user_id)
            (λ f. f.id == id && f.user_id == user_id) renewed families (λ x e. ground arith)
            (ground arith))
    ]

mem-last : {A : Type 0} → (xs : List A) (a : A) → Mem a (xs ++ a ∷ [])
mem-last [] a = mem-cons_self
mem-last (x ∷ xs) a = mem-cons_of_mem x (mem-last xs a)

rotated-Renewed :
    (config : Config) (digest : ℕ → ℕ) (call : RefreshCall) (store : Store) (found : Joined)
    → IsJoined (digest call.refresh_token) store found
    → Renewed digest call found store
        (rotated digest call found store)
        (token_response config found.user.id found.family call.rotated_token call.now)
unfolding rotated
rotated-Renewed config digest call store found rows = record {
  session_id = refl;
  user_id = refl;
  until = refl;
  families = λ id user_id.
      write_family-find found.family (record (found.family) { last_used_at = call.now })
        store.families id user_id (IsJoined-family (digest call.refresh_token) store found rows)
        refl refl;
  session = next_session digest call found;
  added =
      mem-last (use_session call.now found.current store.sessions) (next_session digest call found);
  token = refl;
  family = refl;
  session_until = refl;
  unused = refl;
  session_open = refl;
}

-- A refresh returns tokens only for a session that is there, unused, open and not expired, of a
-- family that is open and not expired, of an active user. The new tokens belong to that user and
-- family, the stored session of the new token expires with the family, and no family's expiry or
-- owner is moved.
pub refresh-Renewable :
    (config : Config) (digest : ℕ → ℕ) (call : RefreshCall) (store next : Store)
    (response : TokenResponse)
    → refresh config digest call store ≡ (ok response, next)
    → (found : Joined) × Renewable digest call store found
      × Renewed digest call found store next response
refresh-Renewable config digest call store next response e =
    let (found, renewable, answer, to) = refresh-rotated config digest call store next response e in
    (
      found,
      renewable,
      subst (λ s. Renewed digest call found store s response) (sym to)
          (subst (Renewed digest call found store (rotated digest call found store)) (sym answer)
            (rotated-Renewed config digest call store found renewable.rows)),
    )

-- A token whose session was used is refused, and its family is revoked with it.
pub refresh-used :
    (config : Config) (digest : ℕ → ℕ) (call : RefreshCall) (store : Store) (found : Joined)
    → get_refresh_session_by_hash (digest call.refresh_token) store ≡ some found
    → is_some found.current.used_at ≡ true
    → ((refresh config digest call store).0 ≡ err session_invalid)
      × IsClosed found.family.id found.family.user_id (refresh config digest call store).1
unfolding refresh refresh_found replayed
refresh-used config digest call store found f used =
    let closed = revoke_family-closes found.family call.now refresh_replay true store (
      IsJoined-family (digest call.refresh_token) store found
        (get_refresh_session_by_hash-IsJoined (digest call.refresh_token) store found f)) in
    rw (f, used) (refl, closed)
