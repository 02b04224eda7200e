-- ===== src/Identity/Once.antt =====
-- One use of each refresh token, and what a second use costs.
use wheelmatch.Base.{
  ℕ, ◌≡◌, refl, sym, subst, true, ◌&&◌, some, List, [], ◌∷◌, ◌==◌, is_some, has, arith, ok, err,
  find_sound, has-find-append, find-update_first,
}
use wheelmatch.Identity.Sessions.{
  Store, RefreshSession, Joined, session_invalid, get_refresh_session_by_hash,
}
use wheelmatch.Identity.Sessions.Closed.{IsClosed}
use wheelmatch.Identity.Sessions.Found.{IsJoined}
use wheelmatch.Identity.Login.{Config, TokenResponse}
use wheelmatch.Identity.Refresh.{RefreshCall, refresh, rotated, use_session, next_session}
use wheelmatch.Identity.Signout.{Principal, authenticate_access_token}
use wheelmatch.Identity.History.{Service, Call, run}
use wheelmatch.Identity.Revocation.{run-IsClosed}
use wheelmatch.Identity.Ends.{authenticate-IsClosed}
use wheelmatch.Identity.Tokens.{refresh-rotated, refresh-used}
use wheelmatch.Identity.Spent.{is_used, is_spent, IsSpent, run-IsSpent}

rotated-IsSpent :
    (digest : ℕ → ℕ) (call : RefreshCall) (found : Joined) (store : Store)
    → IsJoined (digest call.refresh_token) store found
    → IsSpent (digest call.refresh_token) (rotated digest call found store)
unfolding rotated is_spent
rotated-IsSpent digest call found store j =
    let same =
      find_sound (λ (s : RefreshSession). s.token_hash == digest call.refresh_token) store.sessions
        found.current j.session in
    has-find-append is_used (λ s. s.token_hash == digest call.refresh_token)
      (use_session call.now found.current store.sessions) (next_session digest call found ∷ [])
      (rw
        (find-update_first
          (λ (s : RefreshSession).
            s.id == found.current.id && s.token_hash == found.current.token_hash)
          (λ (s : RefreshSession). s.token_hash == digest call.refresh_token)
          (record (found.current) { used_at = some call.now }) store.sessions found.current
          j.session (ground arith) same)
        refl)

-- A token whose session is used gets nothing.
refresh-IsSpent :
    (config : Config) (digest : ℕ → ℕ) (call : RefreshCall) (store next : Store)
    (response : TokenResponse)
    → IsSpent (digest call.refresh_token) store
    → ¬ (refresh config digest call store ≡ (ok response, next))
unfolding is_spent
refresh-IsSpent config digest call store next response spent e =
    let (found, ok_, _, _) = refresh-rotated config digest call store next response e in
    let used : has is_used (some found.current) ≡ true =
      subst (λ r. has is_used r ≡ true) ok_.rows.session spent in
    let unused = ok_.unused in ground arith

IsClosed-subst :
    {i j u v : ℕ} (store : Store) → i ≡ j → u ≡ v → IsClosed j v store → IsClosed i u store
IsClosed-subst {i} {j} {u} {v} store same owner_id h =
    subst (λ x. IsClosed x u store) (sym same) (subst (λ x. IsClosed j x store) (sym owner_id) h)

-- A refresh token that was exchanged once is never exchanged again, at any time and after any
-- history of calls.
pub refresh-run_once :
    (service : Service) (call again : RefreshCall) (store next last : Store) (calls : List Call)
    (response second : TokenResponse)
    → refresh service.config service.digest call store ≡ (ok response, next)
    → again.refresh_token ≡ call.refresh_token
    → ¬ (refresh service.config service.digest again (run service next calls) ≡ (ok second, last))
refresh-run_once service call again store next last calls response second e same =
    let (found, renewable, _, to) =
      refresh-rotated service.config service.digest call store next response e in
    let spent = rotated-IsSpent service.digest call found store renewable.rows in
    let later =
      run-IsSpent (service.digest call.refresh_token) service next calls
        (subst (IsSpent (service.digest call.refresh_token)) (sym to) spent) in
    refresh-IsSpent service.config service.digest again (run service next calls) last second
      (subst (λ t. IsSpent (service.digest t) (run service next calls)) (sym same) later)

-- A used refresh token that is presented again is refused, and no access token of its family is
-- accepted at any time after it, whatever calls follow.
pub refresh-replay_run :
    (service : Service) (call : RefreshCall) (store : Store) (found : Joined) (calls : List Call)
    (now : ℕ) (claims : Principal)
    → get_refresh_session_by_hash (service.digest call.refresh_token) store ≡ some found
    → is_some found.current.used_at ≡ true
    → claims.session_family_id ≡ found.family.id
    → claims.user_id ≡ found.family.user_id
    → ((refresh service.config service.digest call store).0 ≡ err session_invalid)
      × (authenticate_access_token now
            (some claims)
            (run service (refresh service.config service.digest call store).1 calls)
          ≡ err session_invalid)
refresh-replay_run service call store found calls now claims f used same owner_id =
    let next = (refresh service.config service.digest call store).1 in
    let (denied, closed) = refresh-used service.config service.digest call store found f used in
    let after = run-IsClosed found.family.id found.family.user_id service next calls closed in
    (
      denied,
      authenticate-IsClosed now claims (run service next calls)
          (IsClosed-subst (run service next calls) same owner_id after),
    )
