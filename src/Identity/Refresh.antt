-- ===== src/Identity/Refresh.antt =====
-- `SessionService.refresh`, backend/app/modules/identity/session_service.py. `digest` is
-- `SecretHasher.digest`, a keyed hash; `verify` compares with it.
use Prim.Native.String.{String}
use wheelmatch.Base.{
  ℕ, Bool, true, false, not, ◌&&◌, ◌||◌, Option, none, some, List, [], ◌∷◌, ◌++◌, ◌==◌, leb,
  if◌then◌else◌, is_none, is_some, update_first, Result, ok, err,
}
use wheelmatch.Authorization.{is_active_user}
use wheelmatch.Identity.Sessions.{
  Store, RefreshSession, ErrorCode, authentication_failed, session_invalid, Joined,
  get_refresh_session_by_hash, revoke_family, write_family, refresh_replay, account_inactive,
}
use wheelmatch.Identity.Login.{Config, TokenResponse, token_response}
use wheelmatch.Core.Events.{AuditLog, Value, add}

-- What a refresh is called with, and what it draws.
pub record RefreshCall : Type 0 where
  pub refresh_token : ℕ
  pub now : ℕ
  pub session_id : ℕ
  pub rotated_token : ℕ

abbrev pub family_audit : String → String → Option String → Joined → AuditLog
family_audit action outcome reason_code record_ = record {
  action = action;
  outcome = outcome;
  reason_code = reason_code;
  resource_type = "session_family";
  actor_user_id = some record_.user.id;
  resource_id = some record_.family.id;
  organization_id = none;
  membership_id = none;
  changes = [];
}

-- a token that was used before
unfoldable pub replayed : ℕ → Joined → Store → Store
replayed now found store =
    let revoked = revoke_family found.family now refresh_replay true store in
    record revoked {
      audit =
          add
            (family_audit "identity.session.refresh_replay_detected" "revoked"
              (some "REFRESH_REPLAY") found)
            store.audit;
      outbox =
          add
            (record {
              event_type = "identity.session.revoked";
              aggregate_type = "user";
              aggregate_id = found.user.id;
              payload =
                  ("session_family_id", Value.uuid found.family.id)
                  ∷ ("reason", Value.text "refresh_replay")
                  ∷ [];
            })
            store.outbox;
      invalidated = store.invalidated ++ found.user.id ∷ [];
    }

-- the conditions under which the token is refused
unfoldable pub is_refused : (ℕ → ℕ) → RefreshCall → Joined → Bool
is_refused digest call found =
    not (digest call.refresh_token == found.current.token_hash)
    || is_some found.current.revoked_at
    || leb found.current.expires_at call.now
    || is_some found.family.revoked_at
    || leb found.family.expires_at call.now
    || not (is_active_user found.user.status)

unfoldable pub refused : ℕ → Joined → Store → Store
refused now found store =
    if not (is_active_user found.user.status) && is_none found.family.revoked_at
    then revoke_family found.family now account_inactive false store
    else store

abbrev pub next_session : (ℕ → ℕ) → RefreshCall → Joined → RefreshSession
next_session digest call found = record {
  id = call.session_id;
  family_id = found.family.id;
  parent_session_id = some found.current.id;
  token_hash = digest call.rotated_token;
  created_at = call.now;
  expires_at = found.family.expires_at;
  used_at = none;
  revoked_at = none;
}

-- a write to the loaded row; `id` and `token_hash` never change
abbrev pub use_session : ℕ → RefreshSession → List RefreshSession → List RefreshSession
use_session now current =
    update_first (λ s. s.id == current.id && s.token_hash == current.token_hash)
      (λ s. record current { used_at = some now })

unfoldable pub rotated : (ℕ → ℕ) → RefreshCall → Joined → Store → Store
rotated digest call found store = record store {
  sessions =
      add (next_session digest call found) (use_session call.now found.current store.sessions);
  families = write_family (record (found.family) { last_used_at = call.now }) store.families;
  audit = add (family_audit "identity.session.refreshed" "success" none found) store.audit;
}

unfoldable pub refresh_found :
    Config → (ℕ → ℕ) → RefreshCall → Option Joined → Store → Result ErrorCode TokenResponse × Store
refresh_found config digest call none store = (err authentication_failed, store)
refresh_found config digest call (some found) store =
    if is_some found.current.used_at
    then (err session_invalid, replayed call.now found store)
    else if is_refused digest call found
    then (err authentication_failed, refused call.now found store)
    else (
      ok (token_response config found.user.id found.family call.rotated_token call.now),
      rotated digest call found store,
    )

unfoldable pub refresh :
    Config → (ℕ → ℕ) → RefreshCall → Store → Result ErrorCode TokenResponse × Store
refresh config digest call store =
    refresh_found config digest call (get_refresh_session_by_hash (digest call.refresh_token) store)
      store
