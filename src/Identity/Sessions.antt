-- ===== src/Identity/Sessions.antt =====
-- Session families and refresh sessions: the tables of backend/app/modules/identity/models.py and
-- the queries of repository.py that `SessionService` uses.
-- A token hash is a number; the handlers stand in `Login`, `Refresh` and `Signout`.
pub mod Closed
pub mod Found
use Prim.Native.String.{String}
use wheelmatch.Base.{
  ℕ, Bool, true, false, not, ◌&&◌, ◌||◌, Option, none, some, List, [], ◌∷◌, ◌++◌, ◌==◌,
  if◌then◌else◌, is_none, is_some, or_default, find, any, update_where, update_first, count_where,
}
use wheelmatch.Identity.Users.{User}
use wheelmatch.Core.Events.{Event, AuditLog}

-- `revocation_reason`
pub data Reason : Type 0 where
  refresh_replay account_inactive logout logout_all user_revocation password_change
        password_recovery :
      Reason

abbrev pub reason_text : Reason → String
reason_text refresh_replay = "refresh_replay"
reason_text account_inactive = "account_inactive"
reason_text logout = "logout"
reason_text logout_all = "logout_all"
reason_text user_revocation = "user_revocation"
reason_text password_change = "password_change"
reason_text password_recovery = "password_recovery"

pub record SessionFamily : Type 0 where
  pub id : ℕ
  pub user_id : ℕ
  pub device_name : Option String
  pub device_platform : Option String
  pub created_at : ℕ
  pub last_used_at : ℕ
  pub expires_at : ℕ
  pub revoked_at : Option ℕ
  pub revocation_reason : Option Reason
  pub reuse_detected_at : Option ℕ

pub record RefreshSession : Type 0 where
  pub id : ℕ
  pub family_id : ℕ
  pub parent_session_id : Option ℕ
  pub token_hash : ℕ
  pub created_at : ℕ
  pub expires_at : ℕ
  pub used_at : Option ℕ
  pub revoked_at : Option ℕ

-- The tables, and the users whose cached projection was dropped after the commit.
pub record Store : Type 0 where
  pub users : List User
  pub families : List SessionFamily
  pub sessions : List RefreshSession
  pub outbox : List Event
  pub audit : List AuditLog
  pub invalidated : List ℕ

pub data ErrorCode : Type 0 where
  authentication_failed session_invalid session_not_found password_policy_failed : ErrorCode

-- a refresh session with its family and its user
pub record Joined : Type 0 where
  pub current : RefreshSession
  pub family : SessionFamily
  pub user : User

join_user : RefreshSession → SessionFamily → Option User → Option Joined
join_user current family none = none
join_user current family (some user) =
    some (record { current = current; family = family; user = user })

join_family : RefreshSession → Option SessionFamily → List User → Option Joined
unfolding join_user
join_family current none users = none
join_family current (some family) users =
    join_user current family (find (λ u. u.id == family.user_id) users)

join_session : Option RefreshSession → Store → Option Joined
unfolding join_family
join_session none store = none
join_session (some current) store =
    join_family current (find (λ f. f.id == current.family_id) store.families) store.users

unfoldable pub get_refresh_session_by_hash : ℕ → Store → Option Joined
unfolding join_session
get_refresh_session_by_hash token_hash store =
    join_session (find (λ s. s.token_hash == token_hash) store.sessions) store

abbrev pub get_session_family_for_user : ℕ → ℕ → List SessionFamily → Option SessionFamily
get_session_family_for_user family_id user_id =
    find (λ f. f.id == family_id && f.user_id == user_id)

-- A write to a loaded row; `id` and `user_id` never change.
abbrev pub write_family : SessionFamily → List SessionFamily → List SessionFamily
write_family family =
    update_first (λ f. f.id == family.id && f.user_id == family.user_id) (λ f. family)

-- the revocation of the family's open refresh sessions
abbrev pub close_sessions : (ℕ → Bool) → ℕ → List RefreshSession → List RefreshSession
close_sessions in_family revoked_at =
    update_where (λ s. in_family s.family_id && is_none s.revoked_at)
      (λ s. record s { revoked_at = some revoked_at })

abbrev pub revoked_family : SessionFamily → ℕ → Reason → Bool → SessionFamily
revoked_family family now reason reuse_detected = record family {
  revoked_at = or_default family.revoked_at now;
  revocation_reason = or_default family.revocation_reason reason;
  reuse_detected_at =
      if reuse_detected then or_default family.reuse_detected_at now else family.reuse_detected_at;
}

unfoldable pub revoke_family : SessionFamily → ℕ → Reason → Bool → Store → Store
revoke_family family now reason reuse_detected store = record store {
  sessions = close_sessions (λ id. id == family.id) now store.sessions;
  families = write_family (revoked_family family now reason reuse_detected) store.families;
}

-- the families that `revoke_user_sessions` selects
abbrev pub is_open_of : ℕ → SessionFamily → Bool
is_open_of user_id f = f.user_id == user_id && is_none f.revoked_at

abbrev pub open_family_id : ℕ → List SessionFamily → ℕ → Bool
open_family_id user_id families id = any (λ f. is_open_of user_id f && f.id == id) families

-- the number of revoked families and the store; no call excludes a family
unfoldable pub revoke_user_sessions : ℕ → ℕ → Reason → Store → ℕ × Store
revoke_user_sessions user_id now reason store =
    let selected = open_family_id user_id store.families in
    (
      count_where (λ f. selected f.id) store.families,
      record store {
        sessions = close_sessions selected now store.sessions;
        families =
            update_where (λ f. selected f.id)
              (λ f. record f { revoked_at = some now; revocation_reason = some reason })
              store.families;
      },
    )
