-- ===== src/Identity/Login.antt =====
-- `SessionService.login`, backend/app/modules/identity/session_service.py.
-- Password hashing is a record of functions; an address that cannot be normalized arrives as the
-- number of the placeholder address.
use Prim.Native.String.{String}
use wheelmatch.Base.{
  ℕ, suc, ◌+◌, Bool, false, not, ◌&&◌, Option, none, some, List, [], ◌∷◌, ltb, leb, if◌then◌else◌,
  eq_option, Result, ok, err,
}
use wheelmatch.Authorization.{is_active_user}
use wheelmatch.Identity.Users.{User, get_user_by_email, write_user}
use wheelmatch.Identity.Sessions.{
  Store, SessionFamily, RefreshSession, ErrorCode, authentication_failed,
}
use wheelmatch.Core.Events.{Value, add}

-- backend/app/core/security/passwords.py, as far as the handlers call it; `hash` is none where
-- the policy refuses the password.
pub record Passwords : Type 0 where
  pub verify_or_dummy : Option ℕ → ℕ → Bool
  pub needs_rehash : ℕ → Bool
  pub rehash : ℕ → ℕ
  pub hash : ℕ → Option ℕ → Option ℕ

pub record Config : Type 0 where
  pub refresh_ttl : ℕ
  pub login_failure_threshold : ℕ
  pub login_lock : ℕ
  pub access_ttl_seconds : ℕ

-- A login request, with the time and what is drawn for it; `digest` is the digest of the token.
pub record LoginCall : Type 0 where
  pub email : ℕ
  pub password : ℕ
  pub device_name : Option String
  pub device_platform : Option String
  pub now : ℕ
  pub family_id : ℕ
  pub session_id : ℕ
  pub refresh_token : ℕ
  pub digest : ℕ

-- an access token by what it was issued for
pub record AccessToken : Type 0 where
  pub user_id : ℕ
  pub session_family_id : ℕ
  pub issued_at : ℕ

pub record TokenResponse : Type 0 where
  pub access_token : AccessToken
  pub refresh_token : ℕ
  pub expires_in : ℕ
  pub refresh_expires_at : ℕ
  pub session_id : ℕ

abbrev pub token_response : Config → ℕ → SessionFamily → ℕ → ℕ → TokenResponse
token_response config user_id family refresh_token now = record {
  access_token = record { user_id = user_id; session_family_id = family.id; issued_at = now };
  refresh_token = refresh_token;
  expires_in = config.access_ttl_seconds;
  refresh_expires_at = family.expires_at;
  session_id = family.id;
}

abbrev pub text_or_unset : Option String → Value
text_or_unset none = Value.unset
text_or_unset (some text) = Value.text text

-- `login_locked_until is not None and login_locked_until > now`
abbrev pub later : Option ℕ → ℕ → Bool
later none now = false
later (some t) now = ltb now t

abbrev pub is_locked : User → ℕ → Bool
is_locked user now = later user.login_locked_until now

-- the counter and the lock after a failed attempt
abbrev pub count_failure : Config → ℕ → User → User
count_failure config now user =
    let attempts = suc user.failed_login_attempts in
    record user {
      failed_login_attempts = attempts;
      login_locked_until =
          if leb config.login_failure_threshold attempts
          then some (now + config.login_lock)
          else user.login_locked_until;
    }

unfoldable pub login_failed : Config → ℕ → User → Store → Store
login_failed config now user store = record store {
  users =
      if is_locked user now
      then store.users
      else write_user (count_failure config now user) store.users;
  audit =
      add
        (record {
          action = "identity.login.failed";
          outcome = "denied";
          reason_code = some "AUTHENTICATION_FAILED";
          resource_type = "user";
          actor_user_id = some user.id;
          resource_id = some user.id;
          organization_id = none;
          membership_id = none;
          changes = [];
        })
        store.audit;
}

abbrev pub new_family : Config → LoginCall → User → SessionFamily
new_family config call user = record {
  id = call.family_id;
  user_id = user.id;
  device_name = call.device_name;
  device_platform = call.device_platform;
  created_at = call.now;
  last_used_at = call.now;
  expires_at = call.now + config.refresh_ttl;
  revoked_at = none;
  revocation_reason = none;
  reuse_detected_at = none;
}

abbrev pub first_session : Config → LoginCall → RefreshSession
first_session config call = record {
  id = call.session_id;
  family_id = call.family_id;
  parent_session_id = none;
  token_hash = call.digest;
  created_at = call.now;
  expires_at = call.now + config.refresh_ttl;
  used_at = none;
  revoked_at = none;
}

-- the user after a login, with the password hashed anew if that was asked for
abbrev pub cleared : Option ℕ → User → User
cleared none user = record user { failed_login_attempts = 0; login_locked_until = none }
cleared (some hash) user = record user {
  failed_login_attempts = 0;
  login_locked_until = none;
  password_hash = hash;
}

unfoldable pub login_succeeded : Config → LoginCall → Option ℕ → User → Store → Store
login_succeeded config call replacement_hash user store = record store {
  users = write_user (cleared replacement_hash user) store.users;
  families = add (new_family config call user) store.families;
  sessions = add (first_session config call) store.sessions;
  audit =
      add
        (record {
          action = "identity.session.created";
          outcome = "success";
          reason_code = none;
          resource_type = "session_family";
          actor_user_id = some user.id;
          resource_id = some call.family_id;
          organization_id = none;
          membership_id = none;
          changes = ("device_platform", text_or_unset call.device_platform) ∷ [];
        })
        store.audit;
  outbox =
      add
        (record {
          event_type = "identity.session.created";
          aggregate_type = "user";
          aggregate_id = user.id;
          payload =
              ("session_family_id", Value.uuid call.family_id)
              ∷ ("device_platform", text_or_unset call.device_platform)
              ∷ [];
        })
        store.outbox;
}

unfoldable pub is_valid_login : Bool → Option ℕ → ℕ → User → Bool
is_valid_login verified candidate_hash now user =
    verified
    && eq_option (some user.password_hash) candidate_hash
    && is_active_user user.status
    && not (is_locked user now)

-- the transaction, on the user that it locks
unfoldable pub login_user :
    Config
    → LoginCall
    → Bool
    → Option ℕ
    → Option ℕ
    → Option User
    → Store
    → Result ErrorCode TokenResponse × Store
login_user config call verified candidate_hash replacement_hash none store =
    (err authentication_failed, store)
login_user config call verified candidate_hash replacement_hash (some user) store =
    if not (is_valid_login verified candidate_hash call.now user)
    then (err authentication_failed, login_failed config call.now user store)
    else (
      ok (token_response config user.id (new_family config call user) call.refresh_token call.now),
      login_succeeded config call replacement_hash user store,
    )

-- `replacement_hash`, computed outside the transaction
abbrev pub replacement : Passwords → Bool → Option ℕ → ℕ → Option ℕ
replacement passwords verified none password = none
replacement passwords verified (some hash) password =
    if verified && passwords.needs_rehash hash then some (passwords.rehash password) else none

abbrev pub hash_of : Option User → Option ℕ
hash_of none = none
hash_of (some user) = some user.password_hash

-- `before` are the users as the first read saw them, `store` is what the transaction finds.
unfoldable pub login :
    Config → Passwords → LoginCall → List User → Store → Result ErrorCode TokenResponse × Store
login config passwords call before store =
    let candidate_hash = hash_of (get_user_by_email call.email before) in
    let verified = passwords.verify_or_dummy candidate_hash call.password in
    login_user config call verified candidate_hash
      (replacement passwords verified candidate_hash call.password)
      (get_user_by_email call.email store.users) store
