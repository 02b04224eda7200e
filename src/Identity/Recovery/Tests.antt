-- ===== src/Identity/Recovery/Tests.antt =====
-- A user with one session resets the password with a recovery token.
use wheelmatch.Base.{suc, ◌+◌, ◌≡◌, refl, true, false, none, some, [], ◌∷◌, ok, err, is_ok}
use wheelmatch.Authorization.{UserStatus}
use wheelmatch.Identity.Users.{User}
use wheelmatch.Identity.Sessions.{Store, session_invalid}
use wheelmatch.Identity.Signout.{Principal, authenticate_access_token}
use wheelmatch.Identity.History.{Service, run, log_out}
use wheelmatch.Identity.Recovery.{
  PasswordRecoveryChallenge, Accounts, password_reset, reset_user, reset_found, reset_hashed,
  reset_password,
}
use wheelmatch.Identity.Recovery.Reset.{reset_password-run}
use wheelmatch.Identity.Recovery.Once.{session, reset, account_run, reset_password-run_once}

abbrev service : Service
service = record {
  config = record {
    refresh_ttl = 50;
    login_failure_threshold = 3;
    login_lock = 20;
    access_ttl_seconds = 900;
  };
  passwords = record {
    verify_or_dummy = λ hash password. true;
    needs_rehash = λ hash. false;
    rehash = λ password. suc password;
    hash = λ password email. some (suc password);
  };
  digest = λ token. 1000 + token;
}

abbrev bob : User
bob = record {
  id = 1;
  normalized_email = 10;
  password_hash = 101;
  status = UserStatus.active;
  email_verified_at = none;
  phone_verified_at = none;
  password_changed_at = 0;
  failed_login_attempts = 2;
  login_locked_until = none;
  authorization_version = 1;
  deleted_at = none;
}

abbrev tables : Store
tables = record {
  users = bob ∷ [];
  families =
      record {
        id = 7;
        user_id = 1;
        device_name = none;
        device_platform = none;
        created_at = 0;
        last_used_at = 0;
        expires_at = 50;
        revoked_at = none;
        revocation_reason = none;
        reuse_detected_at = none;
      }
      ∷ [];
  sessions = [];
  outbox = [];
  audit = [];
  invalidated = [];
}

abbrev recovery : PasswordRecoveryChallenge
recovery = record {
  id = 3;
  user_id = 1;
  token_hash = 1006;
  attempt_count = 0;
  max_attempts = 5;
  expires_at = 40;
  consumed_at = none;
}

abbrev before : Accounts
before = record { tables = tables; recoveries = recovery ∷ [] }

abbrev after : Accounts
after = record {
  tables = password_reset 10 201 bob tables;
  recoveries = record recovery { consumed_at = some 10 } ∷ [];
}

abbrev claims : Principal
claims = record { user_id = 1; session_family_id = 7; token_id = 2 }

accepted : authenticate_access_token 5 (some claims) tables ≡ ok claims
unfolding authenticate_access_token
accepted = refl

resets : reset_password service.passwords service.digest 10 6 200 before ≡ (ok tt, after)
unfolding reset_password reset_hashed reset_found reset_user
resets = refl

reset_password-run_example :
    authenticate_access_token 11 (some claims) (run service after.tables (log_out 11 claims ∷ []))
    ≡ err session_invalid
reset_password-run_example =
    reset_password-run service 10 5 11 6 200 recovery claims before after (log_out 11 claims ∷ [])
      refl refl accepted resets

reset_password-run_once_example :
    is_ok
      (reset_password service.passwords service.digest 13 6 300
        (account_run service after (session (log_out 11 claims) ∷ reset 12 8 400 ∷ []))).0
    ≡ false
reset_password-run_once_example =
    reset_password-run_once service 10 13 6 200 300 before after
      (session (log_out 11 claims) ∷ reset 12 8 400 ∷ []) resets
