-- ===== src/Identity/Locking.antt =====
-- Failed logins, and the lock that they set.
use wheelmatch.Base.{
  ap, ◌∙◌, is_ok, ℕ, ◌≡◌, subst, Bool, true, false, Option, some, List, ◌==◌, arith, err,
  find_sound, find-update_first,
}
use wheelmatch.Identity.Users.{User, get_user_by_email, has_email, write_user}
use wheelmatch.Identity.Sessions.{Store, authentication_failed}
use wheelmatch.Identity.Login.{
  Config, Passwords, LoginCall, login, login_user, login_failed, is_valid_login, is_locked,
  count_failure, hash_of, replacement,
}

login_user-counts :
    (config : Config) (call : LoginCall) (verified : Bool) (candidate replaced : Option ℕ)
    (user : User) (store : Store)
    → is_ok (login_user config call verified candidate replaced (some user) store).0 ≡ false
    → is_locked user call.now ≡ false
    → (login_user config call verified candidate replaced (some user) store).1.users
      ≡ write_user (count_failure config call.now user) store.users
unfolding login_user login_failed
login_user-counts config call verified candidate replaced user store e unlocked = ground arith

pub login-counts :
    (config : Config) (passwords : Passwords) (call : LoginCall) (before : List User) (user : User)
    (store : Store)
    → get_user_by_email call.email store.users ≡ some user
    → is_ok (login config passwords call before store).0 ≡ false
    → is_locked user call.now ≡ false
    → (login config passwords call before store).1.users
      ≡ write_user (count_failure config call.now user) store.users
unfolding login
login-counts config passwords call before user store found e unlocked =
    let candidate = hash_of (get_user_by_email call.email before) in
    let verified = passwords.verify_or_dummy candidate call.password in
    let replaced = replacement passwords verified candidate call.password in
    let failed : is_ok (login_user config call verified candidate replaced (some user) store).0
        ≡ false =
      subst (λ u. is_ok (login_user config call verified candidate replaced u store).0 ≡ false)
        found e in
    rw found (login_user-counts config call verified candidate replaced user store failed unlocked)

-- A lock in force refuses every password.
pub login-locked :
    (config : Config) (passwords : Passwords) (call : LoginCall) (before : List User) (user : User)
    (store : Store)
    → get_user_by_email call.email store.users ≡ some user
    → is_locked user call.now ≡ true
    → (login config passwords call before store).0 ≡ err authentication_failed
unfolding login login_user is_valid_login
login-locked config passwords call before user store found locked = rw found (ground arith)

-- The failure that reaches the threshold leaves the user locked.
pub login-lock :
    (config : Config) (passwords : Passwords) (call : LoginCall) (before : List User) (user : User)
    (store : Store)
    → get_user_by_email call.email store.users ≡ some user
    → is_ok (login config passwords call before store).0 ≡ false
    → is_locked user call.now ≡ false
    → get_user_by_email call.email (login config passwords call before store).1.users
      ≡ some (count_failure config call.now user)
login-lock config passwords call before user store found failed unlocked =
    let hit = find_sound (has_email call.email) store.users user found in
    ap (get_user_by_email call.email)
      (login-counts config passwords call before user store found failed unlocked)
    ∙ find-update_first (λ row. row.id == user.id) (has_email call.email)
        (count_failure config call.now user) store.users user found (ground arith) (ground arith)
