-- ===== src/Identity/Written.antt =====
-- What logins, refreshes and ends of sessions write to the users.
use wheelmatch.Base.{
  ◌⊎◌, ℕ, ◌≡◌, refl, inl, inr, Bool, true, Option, none, some, List, arith, Option-cases,
  Bool-cases,
}
use wheelmatch.Identity.Users.{User, get_user_by_email, write_user}
use wheelmatch.Identity.Sessions.{
  get_refresh_session_by_hash, get_session_family_for_user, Store, revoke_family,
  revoke_user_sessions,
}
use wheelmatch.Identity.Login.{
  Config, LoginCall, login, login_user, login_failed, login_succeeded, is_valid_login, is_locked,
  count_failure, cleared, hash_of, replacement,
}
use wheelmatch.Identity.Refresh.{RefreshCall, refresh, refresh_found, replayed, refused, rotated}
use wheelmatch.Identity.Signout.{Principal, logout_session, logout_every_session, revoke_session}
use wheelmatch.Identity.History.{stored, Service}

cleared-same :
    (replaced : Option ℕ) (user : User)
    → ((cleared replaced user).id ≡ user.id)
      × ((cleared replaced user).normalized_email ≡ user.normalized_email)
cleared-same none user = (refl, refl)
cleared-same (some hash) user = (refl, refl)

-- what a login writes to the users
login_user-users :
    (config : Config) (call : LoginCall) (verified : Bool) (candidate replaced : Option ℕ)
    (user : User) (store : Store)
    → let next = (login_user config call verified candidate replaced (some user) store).1 in
      (next.users ≡ store.users)
      ⊎ ((w : User) × (w.id ≡ user.id)
          × (w.normalized_email ≡ user.normalized_email)
          × (next.users ≡ write_user w store.users))
unfolding login_user login_failed login_succeeded
login_user-users config call verified candidate replaced user store =
    elim (Bool-cases (is_valid_login verified candidate call.now user)) [
      | inl valid ↦
          let (id, email) = cleared-same replaced user in
          inr (cleared replaced user, id, email, ground arith)
      | inr invalid ↦ elim (Bool-cases (is_locked user call.now)) [
        | inl locked ↦ inl (ground arith)
        | inr open_ ↦ inr (count_failure config call.now user, refl, refl, ground arith)
      ]
    ]

pub login-users :
    (service : Service) (call : LoginCall) (before : List User) (user : User) (store : Store)
    → get_user_by_email call.email store.users ≡ some user
    → let next = (login service.config service.passwords call before store).1 in
      (next.users ≡ store.users)
      ⊎ ((w : User) × (w.id ≡ user.id)
          × (w.normalized_email ≡ user.normalized_email)
          × (next.users ≡ write_user w store.users))
unfolding login
login-users service call before user store found =
    let candidate = hash_of (get_user_by_email call.email before) in
    let verified = service.passwords.verify_or_dummy candidate call.password in
    rw found (
      login_user-users service.config call verified candidate
        (replacement service.passwords verified candidate call.password) user store)

pub login-none :
    (service : Service) (call : LoginCall) (before : List User) (store : Store)
    → get_user_by_email call.email store.users ≡ none
    → (login service.config service.passwords call before store).1 ≡ store
unfolding login login_user
login-none service call before store missing = rw missing refl

pub login-locked_users :
    (service : Service) (call : LoginCall) (before : List User) (user : User) (store : Store)
    → get_user_by_email call.email store.users ≡ some user
    → is_locked user call.now ≡ true
    → (login service.config service.passwords call before store).1.users ≡ store.users
unfolding login login_user login_failed is_valid_login
login-locked_users service call before user store found locked = rw found (ground arith)

pub refresh-users :
    (service : Service) (call : RefreshCall) (store : Store)
    → (refresh service.config service.digest call store).1.users ≡ store.users
unfolding refresh refresh_found replayed refused rotated revoke_family
refresh-users service call store =
    elim (Option-cases (get_refresh_session_by_hash (service.digest call.refresh_token) store)) [
      | inl missing ↦ rw missing refl
      | inr (found, f) ↦ ground arith
    ]

pub logout_session-users :
    (now : ℕ) (principal : Principal) (store : Store)
    → (logout_session now principal store).users ≡ store.users
unfolding logout_session revoke_family
logout_session-users now principal store =
    elim (Option-cases
      (get_session_family_for_user principal.session_family_id principal.user_id store.families)) [
        | inl missing ↦ rw missing refl
        | inr (family, f) ↦ ground arith
      ]

pub logout_every_session-users :
    (now : ℕ) (principal : Principal) (store : Store)
    → (logout_every_session now principal store).1.users ≡ store.users
unfolding logout_every_session revoke_user_sessions
logout_every_session-users now principal store = refl

pub revoke_session-users :
    (now : ℕ) (principal : Principal) (family_id : ℕ) (store : Store)
    → (stored store (revoke_session now principal family_id store)).users ≡ store.users
unfolding revoke_session revoke_family
revoke_session-users now principal family_id store =
    elim (Option-cases (get_session_family_for_user family_id principal.user_id store.families)) [
      | inl missing ↦ rw missing refl
      | inr (family, f) ↦ ground arith
    ]
