-- ===== src/Identity/Signout.antt =====
-- Access tokens and the ends of a session: `authenticate_access_token`, `logout`, `logout_all`,
-- `revoke_session` and `change_password` of backend/app/modules/identity/session_service.py.
use Prim.Native.String.{String}
use wheelmatch.Base.{
  ℕ, suc, Bool, true, false, ◌&&◌, Option, none, some, List, [], ◌∷◌, ◌++◌, ltb, if◌then◌else◌,
  eq_option, is_none, Result, ok, err,
}
use wheelmatch.Authorization.{is_active_user}
use wheelmatch.Identity.Users.{User, get_user_by_id, write_user}
use wheelmatch.Identity.Sessions.{
  Store, SessionFamily, ErrorCode, authentication_failed, session_invalid, session_not_found,
  password_policy_failed, Reason, reason_text, user_revocation, password_change,
  get_session_family_for_user, revoke_family, revoke_user_sessions,
}
use wheelmatch.Identity.Login.{Passwords, hash_of}
use wheelmatch.Core.Events.{AuditLog, Value, add}

-- `CurrentPrincipal`; a decoded access token has the same claims
pub record Principal : Type 0 where
  pub user_id : ℕ
  pub session_family_id : ℕ
  pub token_id : ℕ

abbrev pub is_live_user : Option User → Bool
is_live_user none = false
is_live_user (some user) = is_active_user user.status

abbrev pub is_live_family : ℕ → Option SessionFamily → Bool
is_live_family now none = false
is_live_family now (some family) = is_none family.revoked_at && ltb now family.expires_at

-- `claims` is none where the token cannot be decoded.
unfoldable pub authenticate_access_token : ℕ → Option Principal → Store → Result ErrorCode Principal
authenticate_access_token now none store = err session_invalid
authenticate_access_token now (some claims) store =
    if is_live_user (get_user_by_id claims.user_id store.users)
      && is_live_family now
          (get_session_family_for_user claims.session_family_id claims.user_id store.families)
    then ok claims
    else err session_invalid

abbrev pub invalidate : ℕ → Store → Store
invalidate user_id store = record store { invalidated = store.invalidated ++ user_id ∷ [] }

-- `_record_session_revocation`
abbrev pub record_session_revocation : Principal → SessionFamily → Reason → Store → Store
record_session_revocation principal family reason store = record store {
  audit =
      add
        (record {
          action = "identity.session.revoked";
          outcome = "success";
          reason_code = none;
          resource_type = "session_family";
          actor_user_id = some principal.user_id;
          resource_id = some family.id;
          organization_id = none;
          membership_id = none;
          changes = ("reason", Value.text (reason_text reason)) ∷ [];
        })
        store.audit;
  outbox =
      add
        (record {
          event_type = "identity.session.revoked";
          aggregate_type = "user";
          aggregate_id = principal.user_id;
          payload =
              ("session_family_id", Value.uuid family.id)
              ∷ ("reason", Value.text (reason_text reason))
              ∷ [];
        })
        store.outbox;
}

-- the revocation of a family that is still open
abbrev pub end_family : ℕ → Principal → Reason → SessionFamily → Store → Store
end_family now principal reason family store =
    if is_none family.revoked_at
    then record_session_revocation principal family reason
        (revoke_family family now reason false store)
    else store

abbrev pub end_found : ℕ → Principal → Option SessionFamily → Store → Store
end_found now principal none store = store
end_found now principal (some family) store = end_family now principal Reason.logout family store

unfoldable pub logout_session : ℕ → Principal → Store → Store
logout_session now principal store = invalidate principal.user_id (
    end_found now principal
      (get_session_family_for_user principal.session_family_id principal.user_id store.families)
      store)

unfoldable pub logout_every_session : ℕ → Principal → Store → ℕ × Store
logout_every_session now principal store =
    let (count, ended) = revoke_user_sessions principal.user_id now Reason.logout_all store in
    (
      count,
      record ended {
        audit =
            add
              (record {
                action = "identity.sessions.revoked_all";
                outcome = "success";
                reason_code = none;
                resource_type = "user";
                actor_user_id = some principal.user_id;
                resource_id = some principal.user_id;
                organization_id = none;
                membership_id = none;
                changes = ("revoked_count", Value.number count) ∷ [];
              })
              store.audit;
        outbox =
            add
              (record {
                event_type = "identity.sessions.revoked_all";
                aggregate_type = "user";
                aggregate_id = principal.user_id;
                payload = ("reason", Value.text "logout_all") ∷ [];
              })
              store.outbox;
        invalidated = store.invalidated ++ principal.user_id ∷ [];
      },
    )

abbrev pub revoke_found : ℕ → Principal → Option SessionFamily → Store → Result ErrorCode Store
revoke_found now principal none store = err session_not_found
revoke_found now principal (some family) store =
    ok (invalidate principal.user_id (end_family now principal user_revocation family store))

unfoldable pub revoke_session : ℕ → Principal → ℕ → Store → Result ErrorCode Store
revoke_session now principal family_id store =
    revoke_found now principal
      (get_session_family_for_user family_id principal.user_id store.families) store

abbrev pub password_audit : String → String → Option String → List (String × Value) → ℕ → AuditLog
password_audit action outcome reason_code changes user_id = record {
  action = action;
  outcome = outcome;
  reason_code = reason_code;
  resource_type = "user";
  actor_user_id = some user_id;
  resource_id = some user_id;
  organization_id = none;
  membership_id = none;
  changes = changes;
}

abbrev pub changed_user : ℕ → ℕ → User → User
changed_user now new_hash user = record user {
  password_hash = new_hash;
  password_changed_at = now;
  authorization_version = suc user.authorization_version;
  failed_login_attempts = 0;
  login_locked_until = none;
}

unfoldable pub password_changed : ℕ → ℕ → User → Store → Store
password_changed now new_hash user store =
    let (_, ended) = revoke_user_sessions user.id now password_change store in
    record ended {
      users = write_user (changed_user now new_hash user) store.users;
      audit =
          add
            (password_audit "identity.password.changed" "success" none
              (("sessions_revoked", Value.flag true) ∷ []) user.id)
            store.audit;
      outbox =
          add
            (record {
              event_type = "identity.password.changed";
              aggregate_type = "user";
              aggregate_id = user.id;
              payload =
                  ("reason", Value.text "password_change")
                  ∷ ("sessions_revoked", Value.flag true)
                  ∷ [];
            })
            store.outbox;
      invalidated = store.invalidated ++ user.id ∷ [];
    }

abbrev pub email_of : Option User → Option ℕ
email_of none = none
email_of (some user) = some user.normalized_email

-- the transaction; a caller whose proof fails still leaves an audit entry
unfoldable pub change_user :
    ℕ → Bool → Option ℕ → ℕ → Option User → Store → Result ErrorCode Unit × Store
change_user now verified candidate_hash new_hash none store = (err authentication_failed, store)
change_user now verified candidate_hash new_hash (some user) store =
    if verified && is_active_user user.status && eq_option (some user.password_hash) candidate_hash
    then (ok tt, password_changed now new_hash user store)
    else (
      err authentication_failed,
      record store {
        audit =
            add
              (password_audit "identity.password.change_failed" "denied"
                (some "AUTHENTICATION_FAILED") [] user.id)
              store.audit;
      },
    )

-- the call after the new password was hashed, or refused by the policy
unfoldable pub change_hashed :
    ℕ → Bool → Option ℕ → Option ℕ → ℕ → Store → Result ErrorCode Unit × Store
change_hashed now verified candidate_hash none user_id store = (err password_policy_failed, store)
change_hashed now verified candidate_hash (some new_hash) user_id store =
    change_user now verified candidate_hash new_hash (get_user_by_id user_id store.users) store

-- `before` are the users as the first read saw them.
unfoldable pub change_password :
    Passwords → ℕ → Principal → ℕ → ℕ → List User → Store → Result ErrorCode Unit × Store
change_password passwords now principal current_password new_password before store =
    let candidate = get_user_by_id principal.user_id before in
    change_hashed now (passwords.verify_or_dummy (hash_of candidate) current_password)
      (hash_of candidate) (passwords.hash new_password (email_of candidate)) principal.user_id store
