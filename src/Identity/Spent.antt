-- ===== src/Identity/Spent.antt =====
-- A refresh token is used at most once.
use wheelmatch.Base.{
  ℕ, ◌≡◌, refl, Bool, true, false, ◌&&◌, Option, none, some, List, [], ◌∷◌, ◌++◌, ◌==◌, is_none,
  is_some, has, Option-cases, inl, inr, arith, find, has-find-append, has-find-update_first,
  has-find-update_where,
}
use wheelmatch.Identity.Users.{User, get_user_by_id, get_user_by_email}
use wheelmatch.Identity.Sessions.{
  Store, SessionFamily, RefreshSession, Joined, Reason, get_session_family_for_user, revoke_family,
  revoke_user_sessions, close_sessions,
}
use wheelmatch.Identity.Login.{
  Config, LoginCall, first_session, login, login_user, login_succeeded, login_failed,
}
use wheelmatch.Identity.Refresh.{
  RefreshCall, refresh, refresh_found, replayed, refused, rotated, use_session, next_session,
}
use wheelmatch.Identity.Signout.{
  Principal, logout_session, logout_every_session, revoke_session, change_password, change_hashed,
  change_user, password_changed, end_family, end_found,
}
use wheelmatch.Identity.History.{
  Service, Call, step, stored, run, log_in, renew, log_out, log_out_all, revoke, set_password,
}

abbrev pub is_used : RefreshSession → Bool
is_used s = is_some s.used_at

-- the session of the token is there and used
unfoldable pub is_spent : ℕ → List RefreshSession → Bool
is_spent token_hash sessions = has is_used (find (λ s. s.token_hash == token_hash) sessions)

abbrev pub IsSpent : ℕ → Store → Type 0
IsSpent token_hash store = is_spent token_hash store.sessions ≡ true

module _ (token_hash : ℕ) where
  append-is_spent :
      (sessions new : List RefreshSession)
      → is_spent token_hash sessions ≡ true
      → is_spent token_hash (sessions ++ new) ≡ true
  unfolding is_spent
  append-is_spent sessions new h = has-find-append is_used _ sessions new h

  close_sessions-is_spent :
      (in_family : ℕ → Bool) (now : ℕ) (sessions : List RefreshSession)
      → is_spent token_hash sessions ≡ true
      → is_spent token_hash (close_sessions in_family now sessions) ≡ true
  unfolding is_spent
  close_sessions-is_spent in_family now sessions h =
      has-find-update_where is_used (λ s. in_family s.family_id && is_none s.revoked_at)
        (λ s. s.token_hash == token_hash) (λ s. record s { revoked_at = some now }) sessions
        (λ x. refl) (λ x e. e) h

  use_session-is_spent :
      (now : ℕ) (current : RefreshSession) (sessions : List RefreshSession)
      → is_spent token_hash sessions ≡ true
      → is_spent token_hash (use_session now current sessions) ≡ true
  unfolding is_spent
  use_session-is_spent now current sessions h =
      has-find-update_first is_used _ (λ s. s.token_hash == token_hash)
        (record current { used_at = some now }) sessions (λ x e. ground arith) refl h

  login_user-IsSpent :
      (config : Config) (call : LoginCall) (verified : Bool) (candidate replacement : Option ℕ)
      (user : Option User) (store : Store)
      → IsSpent token_hash store
      → IsSpent token_hash (login_user config call verified candidate replacement user store).1
  unfolding login_user login_succeeded login_failed
  login_user-IsSpent config call verified candidate replacement none store h = h
  login_user-IsSpent config call verified candidate replacement (some user) store h =
      ground (arith, append-is_spent store.sessions (first_session config call ∷ []) h)

  rotated-IsSpent :
      (digest : ℕ → ℕ) (call : RefreshCall) (found : Joined) (store : Store)
      → IsSpent token_hash store
      → IsSpent token_hash (rotated digest call found store)
  unfolding rotated
  rotated-IsSpent digest call found store h =
      append-is_spent (use_session call.now found.current store.sessions)
        (next_session digest call found ∷ [])
        (use_session-is_spent call.now found.current store.sessions h)

  revoke_family-IsSpent :
      (f : SessionFamily) (now : ℕ) (reason : Reason) (reuse : Bool) (store : Store)
      → IsSpent token_hash store
      → IsSpent token_hash (revoke_family f now reason reuse store)
  unfolding revoke_family
  revoke_family-IsSpent f now reason reuse store h =
      close_sessions-is_spent (λ id. id == f.id) now store.sessions h

  revoke_user_sessions-IsSpent :
      (user_id now : ℕ) (reason : Reason) (store : Store)
      → IsSpent token_hash store
      → IsSpent token_hash (revoke_user_sessions user_id now reason store).1
  unfolding revoke_user_sessions
  revoke_user_sessions-IsSpent user_id now reason store h =
      close_sessions-is_spent _ now store.sessions h

  refresh_found-IsSpent :
      (config : Config) (digest : ℕ → ℕ) (call : RefreshCall) (found : Option Joined)
      (store : Store)
      → IsSpent token_hash store
      → IsSpent token_hash (refresh_found config digest call found store).1
  unfolding refresh_found replayed refused
  refresh_found-IsSpent config digest call none store h = h
  refresh_found-IsSpent config digest call (some found) store h = ground (
    arith,
    revoke_family-IsSpent found.family call.now Reason.refresh_replay true store h,
    revoke_family-IsSpent found.family call.now Reason.account_inactive false store h,
    rotated-IsSpent digest call found store h,
  )

  end_family-IsSpent :
      (now : ℕ) (principal : Principal) (reason : Reason) (family : SessionFamily) (store : Store)
      → IsSpent token_hash store
      → IsSpent token_hash (end_family now principal reason family store)
  end_family-IsSpent now principal reason family store h =
      ground (arith, revoke_family-IsSpent family now reason false store h)

  end_found-IsSpent :
      (now : ℕ) (principal : Principal) (family : Option SessionFamily) (store : Store)
      → IsSpent token_hash store
      → IsSpent token_hash (end_found now principal family store)
  end_found-IsSpent now principal none store h = h
  end_found-IsSpent now principal (some family) store h =
      end_family-IsSpent now principal Reason.logout family store h

  revoke_session-IsSpent :
      (now : ℕ) (principal : Principal) (id : ℕ) (store : Store)
      → IsSpent token_hash store
      → IsSpent token_hash (stored store (revoke_session now principal id store))
  unfolding revoke_session
  revoke_session-IsSpent now principal id store h =
      elim (Option-cases (get_session_family_for_user id principal.user_id store.families)) [
        | inl missing ↦ rw missing h
        | inr (family, f) ↦
            rw f (end_family-IsSpent now principal Reason.user_revocation family store h)
      ]

  change_user-IsSpent :
      (now : ℕ) (verified : Bool) (candidate : Option ℕ) (new_hash : ℕ) (user : Option User)
      (store : Store)
      → IsSpent token_hash store
      → IsSpent token_hash (change_user now verified candidate new_hash user store).1
  unfolding change_user password_changed
  change_user-IsSpent now verified candidate new_hash none store h = h
  change_user-IsSpent now verified candidate new_hash (some user) store h =
      ground (arith, revoke_user_sessions-IsSpent user.id now Reason.password_change store h)

  change_hashed-IsSpent :
      (now : ℕ) (verified : Bool) (candidate new_hash : Option ℕ) (id : ℕ) (store : Store)
      → IsSpent token_hash store
      → IsSpent token_hash (change_hashed now verified candidate new_hash id store).1
  unfolding change_hashed
  change_hashed-IsSpent now verified candidate none id store h = h
  change_hashed-IsSpent now verified candidate (some new_hash) id store h =
      change_user-IsSpent now verified candidate new_hash (get_user_by_id id store.users) store h

  step-IsSpent :
      (service : Service) (store : Store) (call : Call)
      → IsSpent token_hash store
      → IsSpent token_hash (step service store call)
  unfolding step login refresh logout_session logout_every_session change_password
  step-IsSpent service store (log_in call before) h =
      login_user-IsSpent service.config call _ _ _ (get_user_by_email call.email store.users) store
        h
  step-IsSpent service store (renew call) h =
      refresh_found-IsSpent service.config service.digest call _ store h
  step-IsSpent service store (log_out now principal) h = end_found-IsSpent now principal _ store h
  step-IsSpent service store (log_out_all now principal) h =
      revoke_user_sessions-IsSpent principal.user_id now Reason.logout_all store h
  step-IsSpent service store (revoke now principal id) h =
      revoke_session-IsSpent now principal id store h
  step-IsSpent service store (set_password now principal old new before) h =
      change_hashed-IsSpent now _ _ _ principal.user_id store h

  pub run-IsSpent :
      (service : Service) (store : Store) (calls : List Call)
      → IsSpent token_hash store
      → IsSpent token_hash (run service store calls)
  unfolding run
  run-IsSpent service store [] h = h
  run-IsSpent service store (call ∷ calls) h =
      run-IsSpent service (step service store call) calls (step-IsSpent service store call h)
