-- ===== src/Identity/Revocation.antt =====
-- A revoked session family stays revoked, whatever is called afterwards.
use wheelmatch.Base.{
  ℕ, ◌≡◌, refl, subst, Bool, true, false, Option, none, some, List, [], ◌∷◌, has, Option-cases,
  Bool-cases, inl, inr, arith, ok, err, Result,
}
use wheelmatch.Identity.Users.{User, get_user_by_id, get_user_by_email}
use wheelmatch.Identity.Sessions.{
  Store, SessionFamily, Joined, ErrorCode, Reason, get_session_family_for_user,
  get_refresh_session_by_hash,
}
use wheelmatch.Identity.Sessions.Closed.{
  is_closed, is_revoked, IsClosed, append-is_closed, write_family-is_closed, revoke_family-IsClosed,
  revoke_user_sessions-IsClosed,
}
use wheelmatch.Identity.Sessions.Found.{
  IsJoined, get_refresh_session_by_hash-IsJoined, IsJoined-family,
}
use wheelmatch.Identity.Login.{
  Config, Passwords, LoginCall, new_family, login, login_user, login_succeeded, login_failed,
}
use wheelmatch.Identity.Refresh.{
  RefreshCall, refresh, refresh_found, replayed, refused, rotated, is_refused,
}
use wheelmatch.Identity.Signout.{
  Principal, logout_session, logout_every_session, revoke_session, change_password, change_hashed,
  change_user, password_changed, end_family,
}
use wheelmatch.Identity.History.{
  Service, Call, step, stored, run, log_in, renew, log_out, log_out_all, revoke, set_password,
}

module _ (family_id user_id : ℕ) where
  login_user-IsClosed :
      (config : Config) (call : LoginCall) (verified : Bool) (candidate replacement : Option ℕ)
      (user : Option User) (store : Store)
      → IsClosed family_id user_id store
      → IsClosed family_id user_id
          (login_user config call verified candidate replacement user store).1
  unfolding login_user login_succeeded login_failed
  login_user-IsClosed config call verified candidate replacement none store h = h
  login_user-IsClosed config call verified candidate replacement (some user) store h = ground (
    arith,
    append-is_closed family_id user_id store.families (new_family config call user ∷ []) h,
  )

  login-IsClosed :
      (config : Config) (passwords : Passwords) (call : LoginCall) (before : List User)
      (store : Store)
      → IsClosed family_id user_id store
      → IsClosed family_id user_id (login config passwords call before store).1
  unfolding login
  login-IsClosed config passwords call before store h =
      login_user-IsClosed config call _ _ _ (get_user_by_email call.email store.users) store h

  rotated-IsClosed :
      (digest : ℕ → ℕ) (call : RefreshCall) (found : Joined) (store : Store)
      → IsJoined (digest call.refresh_token) store found
      → is_revoked found.family ≡ false
      → IsClosed family_id user_id store
      → IsClosed family_id user_id (rotated digest call found store)
  unfolding rotated is_closed
  rotated-IsClosed digest call found store j live h =
      write_family-is_closed family_id user_id _ store.families h λ e.
        let id : found.family.id ≡ family_id = ground arith in
        let owner_id : found.family.user_id ≡ user_id = ground arith in
        let row : get_session_family_for_user family_id user_id store.families ≡ some found.family =
          subst (λ i. get_session_family_for_user i user_id store.families ≡ some found.family) id
            (subst
              (λ u.
                get_session_family_for_user found.family.id u store.families ≡ some found.family)
              owner_id (IsJoined-family (digest call.refresh_token) store found j)) in
        let unrevoked : has is_revoked
              (get_session_family_for_user family_id user_id store.families)
            ≡ false =
          rw row live in
        absurd (cc)

  refresh_found-IsClosed :
      (config : Config) (digest : ℕ → ℕ) (call : RefreshCall) (found : Joined) (store : Store)
      → IsJoined (digest call.refresh_token) store found
      → IsClosed family_id user_id store
      → IsClosed family_id user_id (refresh_found config digest call (some found) store).1
  unfolding refresh_found replayed refused is_refused
  refresh_found-IsClosed config digest call found store j h =
      let replay =
        revoke_family-IsClosed family_id user_id found.family call.now Reason.refresh_replay true
          store h in
      let inactive =
        revoke_family-IsClosed family_id user_id found.family call.now Reason.account_inactive false
          store h in
      elim (Bool-cases (is_revoked found.family)) [
        | inl revoked ↦ ground (arith, replay, inactive)
        | inr live ↦
            ground (arith, replay, inactive, rotated-IsClosed digest call found store j live h)
      ]

  refresh-IsClosed :
      (config : Config) (digest : ℕ → ℕ) (call : RefreshCall) (store : Store)
      → IsClosed family_id user_id store
      → IsClosed family_id user_id (refresh config digest call store).1
  unfolding refresh refresh_found
  refresh-IsClosed config digest call store h =
      elim (Option-cases (get_refresh_session_by_hash (digest call.refresh_token) store)) [
        | inl none_found ↦ rw none_found h
        | inr (found, f) ↦ rw f (
            refresh_found-IsClosed config digest call found store
              (get_refresh_session_by_hash-IsJoined (digest call.refresh_token) store found f) h)
      ]

  end_family-IsClosed :
      (now : ℕ) (principal : Principal) (reason : Reason) (family : SessionFamily) (store : Store)
      → IsClosed family_id user_id store
      → IsClosed family_id user_id (end_family now principal reason family store)
  end_family-IsClosed now principal reason family store h =
      ground (arith, revoke_family-IsClosed family_id user_id family now reason false store h)

  logout_session-IsClosed :
      (now : ℕ) (principal : Principal) (store : Store)
      → IsClosed family_id user_id store
      → IsClosed family_id user_id (logout_session now principal store)
  unfolding logout_session
  logout_session-IsClosed now principal store h =
      elim (Option-cases (
        get_session_family_for_user principal.session_family_id principal.user_id store.families)) [
          | inl missing ↦ rw missing h
          | inr (family, f) ↦ rw f (end_family-IsClosed now principal Reason.logout family store h)
        ]

  revoke_session-IsClosed :
      (now : ℕ) (principal : Principal) (id : ℕ) (store next : Store)
      → IsClosed family_id user_id store
      → revoke_session now principal id store ≡ ok next
      → IsClosed family_id user_id next
  unfolding revoke_session
  revoke_session-IsClosed now principal id store next h e =
      elim (Option-cases (get_session_family_for_user id principal.user_id store.families)) [
        | inl missing ↦ absurd (ground arith)
        | inr (family, f) ↦
            ground (arith, end_family-IsClosed now principal Reason.user_revocation family store h)
      ]

  change_user-IsClosed :
      (now : ℕ) (verified : Bool) (candidate : Option ℕ) (new_hash : ℕ) (user : Option User)
      (store : Store)
      → IsClosed family_id user_id store
      → IsClosed family_id user_id (change_user now verified candidate new_hash user store).1
  unfolding change_user password_changed
  change_user-IsClosed now verified candidate new_hash none store h = h
  change_user-IsClosed now verified candidate new_hash (some user) store h = ground (
    arith,
    revoke_user_sessions-IsClosed family_id user_id user.id now Reason.password_change store h,
  )

  change_hashed-IsClosed :
      (now : ℕ) (verified : Bool) (candidate new_hash : Option ℕ) (id : ℕ) (store : Store)
      → IsClosed family_id user_id store
      → IsClosed family_id user_id (change_hashed now verified candidate new_hash id store).1
  unfolding change_hashed
  change_hashed-IsClosed now verified candidate none id store h = h
  change_hashed-IsClosed now verified candidate (some new_hash) id store h =
      change_user-IsClosed now verified candidate new_hash (get_user_by_id id store.users) store h

  stored-IsClosed :
      (store : Store) (result : Result ErrorCode Store)
      → IsClosed family_id user_id store
      → ((next : Store) → result ≡ ok next → IsClosed family_id user_id next)
      → IsClosed family_id user_id (stored store result)
  stored-IsClosed store (ok next) h keeps = keeps next refl
  stored-IsClosed store (err e) h keeps = h

  step-IsClosed :
      (service : Service) (store : Store) (call : Call)
      → IsClosed family_id user_id store
      → IsClosed family_id user_id (step service store call)
  unfolding step logout_every_session change_password
  step-IsClosed service store (log_in call before) h =
      login-IsClosed service.config service.passwords call before store h
  step-IsClosed service store (renew call) h =
      refresh-IsClosed service.config service.digest call store h
  step-IsClosed service store (log_out now principal) h =
      logout_session-IsClosed now principal store h
  step-IsClosed service store (log_out_all now principal) h =
      revoke_user_sessions-IsClosed family_id user_id principal.user_id now Reason.logout_all store
        h
  step-IsClosed service store (revoke now principal id) h =
      stored-IsClosed store _ h λ next e. revoke_session-IsClosed now principal id store next h e
  step-IsClosed service store (set_password now principal old new before) h =
      change_hashed-IsClosed now _ _ _ principal.user_id store h

  -- A session family that is revoked stays there and revoked after any history of logins,
  -- refreshes, logouts, revocations and password changes, by anyone, failed calls included.
  pub run-IsClosed :
      (service : Service) (store : Store) (calls : List Call)
      → IsClosed family_id user_id store
      → IsClosed family_id user_id (run service store calls)
  unfolding run
  run-IsClosed service store [] h = h
  run-IsClosed service store (call ∷ calls) h =
      run-IsClosed service (step service store call) calls (step-IsClosed service store call h)
