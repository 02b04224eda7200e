-- ===== src/Identity/Tests.antt =====
-- One user with a session: the token is exchanged, presented again, and the session ended.
use wheelmatch.Base.{
  ℕ, suc, ◌+◌, ◌==◌, ◌≡◌, refl, Bool, false, Option, none, some, List, [], ◌∷◌, ok, err, arith,
  is_ok,
}
use wheelmatch.Authorization.{UserStatus}
use wheelmatch.Identity.Users.{User}
use wheelmatch.Identity.Sessions.{
  Store, SessionFamily, RefreshSession, Joined, session_invalid, authentication_failed, Reason,
  get_refresh_session_by_hash,
}
use wheelmatch.Identity.Sessions.Closed.{IsClosed, is_closed}
use wheelmatch.Identity.Login.{LoginCall, TokenResponse, login, login_user, is_valid_login}
use wheelmatch.Identity.Refresh.{RefreshCall, refresh, refresh_found, rotated, is_refused}
use wheelmatch.Identity.Signout.{
  Principal, authenticate_access_token, logout_session, logout_every_session, change_password,
  change_hashed, change_user, password_changed,
}
use wheelmatch.Identity.History.{log_out, Service, Call, run, log_in, renew}
use wheelmatch.Identity.Revocation.{run-IsClosed}
use wheelmatch.Identity.Ends.{logout_session-run, logout_every_session-run}
use wheelmatch.Identity.PasswordChange.{change_password-run}
use wheelmatch.Identity.Tokens.{Renewable, Renewed, refresh-Renewable}
use wheelmatch.Identity.Once.{refresh-run_once, refresh-replay_run}
use wheelmatch.Identity.Locked.{login-locks}

-- a password verifies against the hash that is its successor
abbrev matches : Option ℕ → ℕ → Bool
matches none password = false
matches (some hash) password = hash == suc password

abbrev service : Service
service = record {
  config = record {
    refresh_ttl = 50;
    login_failure_threshold = 1;
    login_lock = 20;
    access_ttl_seconds = 900;
  };
  passwords = record {
    verify_or_dummy = matches;
    needs_rehash = λ hash. false;
    rehash = λ password. suc password;
    hash = λ password email. some (suc password);
  };
  digest = λ token. 1000 + token;
}

abbrev alice : User
alice = record {
  id = 1;
  normalized_email = 10;
  password_hash = 101;
  status = UserStatus.active;
  email_verified_at = some 1;
  phone_verified_at = none;
  password_changed_at = 0;
  failed_login_attempts = 0;
  login_locked_until = none;
  authorization_version = 1;
  deleted_at = none;
}

abbrev family : SessionFamily
family = record {
  id = 7;
  user_id = 1;
  device_name = none;
  device_platform = none;
  created_at = 0;
  last_used_at = 0;
  expires_at = 50;
  revoked_at = none;
  revocation_reason = none;
  reuse_detected_at = none;
}

abbrev session : RefreshSession
session = record {
  id = 70;
  family_id = 7;
  parent_session_id = none;
  token_hash = 1005;
  created_at = 0;
  expires_at = 50;
  used_at = none;
  revoked_at = none;
}

abbrev start : Store
start = record {
  users = alice ∷ [];
  families = family ∷ [];
  sessions = session ∷ [];
  outbox = [];
  audit = [];
  invalidated = [];
}

abbrev joined : Joined
joined = record { current = session; family = family; user = alice }

abbrev renewal : RefreshCall
renewal = record { refresh_token = 5; now = 10; session_id = 71; rotated_token = 6 }

abbrev entry : ℕ → LoginCall
entry password = record {
  email = 10;
  password = password;
  device_name = none;
  device_platform = none;
  now = 12;
  family_id = 8;
  session_id = 80;
  refresh_token = 9;
  digest = 1009;
}

abbrev principal : Principal
principal = record { user_id = 1; session_family_id = 7; token_id = 3 }

abbrev calls : List Call
calls = log_in (entry 100) (alice ∷ []) ∷ renew renewal ∷ []

abbrev response : TokenResponse
response = record {
  access_token = record { user_id = 1; session_family_id = 7; issued_at = 10 };
  refresh_token = 6;
  expires_in = 900;
  refresh_expires_at = 50;
  session_id = 7;
}

abbrev renewed : Store
renewed = rotated service.digest renewal joined start

renews : refresh service.config service.digest renewal start ≡ (ok response, renewed)
unfolding refresh refresh_found is_refused get_refresh_session_by_hash
renews = refl

accepted : authenticate_access_token 11 (some principal) start ≡ ok principal
unfolding authenticate_access_token
accepted = refl

abbrev used : Joined
used = record {
  current = record session { used_at = some 10 };
  family = record family { last_used_at = 10 };
  user = alice;
}

finds_used : get_refresh_session_by_hash (service.digest renewal.refresh_token) renewed ≡ some used
unfolding get_refresh_session_by_hash rotated
finds_used = refl

-- the new token of the family, found after the replay of the old one
abbrev after_replay : Store
after_replay = (refresh service.config service.digest renewal renewed).1

abbrev closed_family : SessionFamily
closed_family = record family {
  last_used_at = 10;
  revoked_at = some 10;
  revocation_reason = some Reason.refresh_replay;
  reuse_detected_at = some 10;
}

abbrev closed_session : RefreshSession
closed_session = record session {
  id = 71;
  parent_session_id = some 70;
  token_hash = 1006;
  created_at = 10;
  revoked_at = some 10;
}

abbrev late : Joined
late = record { current = closed_session; family = closed_family; user = alice }

abbrev closed_store : Store
closed_store = record start { families = closed_family ∷ [] }

closed : IsClosed 7 1 closed_store
unfolding is_closed
closed = refl

run-IsClosed_example : IsClosed 7 1 (run service closed_store calls)
run-IsClosed_example = run-IsClosed 7 1 service closed_store calls closed

logout_session-run_example :
    authenticate_access_token 13
      (some principal)
      (run service (logout_session 12 principal start) calls)
    ≡ err session_invalid
logout_session-run_example = logout_session-run service 12 11 13 principal start calls accepted

logout_every_session-run_example :
    authenticate_access_token 13
      (some principal)
      (run service (logout_every_session 12 principal start).1 calls)
    ≡ err session_invalid
logout_every_session-run_example =
    logout_every_session-run service 12 11 13 principal principal start calls refl accepted

abbrev after_change : Store
after_change = password_changed 12 201 alice start

changes :
    change_password service.passwords 12 principal 100 200 (alice ∷ []) start
    ≡ (ok tt, after_change)
unfolding change_password change_hashed change_user
changes = refl

change_password-run_example :
    authenticate_access_token 13 (some principal) (run service after_change calls)
    ≡ err session_invalid
change_password-run_example =
    change_password-run service 12 11 13 principal principal 100 200 (alice ∷ []) start after_change
      calls refl accepted changes

refresh-Renewable_example :
    (found : Joined) × Renewable service.digest renewal start found
    × Renewed service.digest renewal found start renewed response
refresh-Renewable_example =
    refresh-Renewable service.config service.digest renewal start renewed response renews

refresh-run_once_example : ¬ (
    refresh service.config service.digest renewal (run service renewed calls)
    ≡ (ok response, start))
refresh-run_once_example =
    refresh-run_once service renewal renewal start renewed start calls response response renews refl

refresh-replay_run_example :
    ((refresh service.config service.digest renewal renewed).0 ≡ err session_invalid)
    × (authenticate_access_token 11 (some principal) (run service after_replay calls)
        ≡ err session_invalid)
refresh-replay_run_example =
    refresh-replay_run service renewal renewed used calls 11 principal finds_used refl refl refl

wrong_password :
    is_ok (login service.config service.passwords (entry 3) (alice ∷ []) start).0 ≡ false
unfolding login login_user is_valid_login
wrong_password = refl

abbrev after_failure : Store
after_failure = (login service.config service.passwords (entry 3) (alice ∷ []) start).1

-- the address is tried again while it is locked, and a session ends
abbrev tries : List Call
tries = log_in (entry 3) (alice ∷ []) ∷ log_out 12 principal ∷ []

login-locks_example :
    (login service.config service.passwords
      (entry 100)
      (alice ∷ [])
      (run service after_failure tries)).0
    ≡ err authentication_failed
login-locks_example =
    login-locks service (entry 3) (entry 100) (alice ∷ []) (alice ∷ []) alice start tries refl refl
      wrong_password refl (omega arith) refl refl (omega arith)
