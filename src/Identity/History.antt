-- ===== src/Identity/History.antt =====
-- Histories of the session handlers: logins, refreshes and the ends of sessions, in any order.
use wheelmatch.Base.{ℕ, List, [], ◌∷◌, Result, ok, err}
use wheelmatch.Identity.Users.{User}
use wheelmatch.Identity.Sessions.{Store, ErrorCode}
use wheelmatch.Identity.Login.{Config, Passwords, LoginCall, login}
use wheelmatch.Identity.Refresh.{RefreshCall, refresh}
use wheelmatch.Identity.Signout.{
  Principal, logout_session, logout_every_session, revoke_session, change_password,
}

-- What the service is built with: the settings, the password hashing and the keyed digest.
pub record Service : Type 0 where
  pub config : Config
  pub passwords : Passwords
  pub digest : ℕ → ℕ

pub data Call : Type 0 where
  log_in : LoginCall → (before : List User) → Call
  renew : RefreshCall → Call
  log_out : (now : ℕ) → Principal → Call
  log_out_all : (now : ℕ) → Principal → Call
  revoke : (now : ℕ) → Principal → (family_id : ℕ) → Call
  set_password :
      (now : ℕ) → Principal → (current_password new_password : ℕ) → (before : List User) → Call

-- A call that raises leaves the store as it was.
abbrev pub stored : Store → Result ErrorCode Store → Store
stored store (ok next) = next
stored store (err e) = store

unfoldable pub step : Service → Store → Call → Store
step service store (log_in call before) =
    (login service.config service.passwords call before store).1
step service store (renew call) = (refresh service.config service.digest call store).1
step service store (log_out now principal) = logout_session now principal store
step service store (log_out_all now principal) = (logout_every_session now principal store).1
step service store (revoke now principal family_id) =
    stored store (revoke_session now principal family_id store)
step service store (set_password now principal current_password new_password before) =
    (change_password service.passwords now principal current_password new_password before store).1

unfoldable pub run : Service → Store → List Call → Store
run service store [] = store
run service store (call ∷ calls) = run service (step service store call) calls
