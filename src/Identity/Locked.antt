-- ===== src/Identity/Locked.antt =====
-- How long a lock on an account lasts.
use wheelmatch.Base.{
  is_ok, ℕ, suc, ◌+◌, ◌≡◌, ◌≤◌, ◌<◌, sym, ap, subst, ◌∙◌, inl, inr, Bool, true, false, some, List,
  [], ◌∷◌, ◌==◌, ltb, all, unique, arith, err, Option-cases, Bool-cases, find, find_sound, find_key,
  unique-update_first, find-update_first_apart,
}
use wheelmatch.Identity.Users.{User, get_user_by_email, has_email, write_user}
use wheelmatch.Identity.Sessions.{Store, authentication_failed}
use wheelmatch.Identity.Login.{LoginCall, login, is_locked, count_failure}
use wheelmatch.Identity.History.{
  Service, Call, log_in, renew, log_out, log_out_all, revoke, set_password, step, run,
}
use wheelmatch.Identity.Locking.{login-counts, login-locked, login-lock}
use wheelmatch.Identity.Written.{
  login-locked_users, login-none, login-users, logout_every_session-users, logout_session-users,
  refresh-users, revoke_session-users,
}

-- a login before the lock ends, or any other call but a change of a password, which clears the lock
abbrev pub within_lock : ℕ → Call → Bool
within_lock end (log_in call before) = ltb call.now end
within_lock end (set_password now principal current new before) = false
within_lock end _ = true

abbrev pub unique_users : Store → Bool
unique_users store = unique (λ row. row.id) store.users

-- the user of the address is locked until a time
record LockedAt (email end : ℕ) (store : Store) : Type 0 where
  user : User
  found : get_user_by_email email store.users ≡ some user
  lock : user.login_locked_until ≡ some end
  distinct : unique_users store ≡ true

LockedAt-users :
    (email end : ℕ) (store next : Store)
    → next.users ≡ store.users
    → LockedAt email end store
    → LockedAt email end next
LockedAt-users email end store next same h = record {
  user = h.user;
  found = ap (get_user_by_email email) same ∙ h.found;
  lock = h.lock;
  distinct = ap (unique (λ row. row.id)) same ∙ h.distinct;
}

-- another user's row is written
LockedAt-write :
    (email end other : ℕ) (v w : User) (store next : Store)
    → get_user_by_email other store.users ≡ some v
    → w.id ≡ v.id
    → w.normalized_email ≡ v.normalized_email
    → (other == email) ≡ false
    → next.users ≡ write_user w store.users
    → LockedAt email end store
    → LockedAt email end next
LockedAt-write email end other v w store next found same_id same_email apart wrote h =
    let u = h.user in
    let mine = find_sound (has_email email) store.users u h.found in
    let theirs = find_sound (has_email other) store.users v found in
    let by_id_u = find_key (λ row. row.id) (has_email email) store.users u h.distinct h.found in
    let by_id_v = find_key (λ row. row.id) (has_email other) store.users v h.distinct found in
    let differs : (u.id == w.id) ≡ false = elim (Bool-cases (u.id == w.id)) [
      | inr other ↦ other
      | inl equal ↦
          let key : v.id ≡ u.id = ground arith in
          let rows : u ≡ v = ground (
            arith,
            ap (λ k. find (λ (row : User). row.id == k) store.users) key,
            by_id_u,
            by_id_v,
          ) in
          let emails : u.normalized_email ≡ v.normalized_email =
            ap (λ (x : User). x.normalized_email) rows in
          absurd (ground arith)
    ] in
    record {
      user = u;
      found =
          ap (get_user_by_email email) wrote
          ∙ find-update_first_apart (λ row. row.id == w.id) (has_email email) w store.users u
              h.found differs (ground arith);
      lock = h.lock;
      distinct =
          ap (unique (λ row. row.id)) wrote
          ∙ unique-update_first (λ row. row.id) (λ row. row.id == w.id) w store.users
              (λ x e. ground arith)
          ∙ h.distinct;
    }

log_in-LockedAt :
    (service : Service) (email end : ℕ) (store : Store) (call : LoginCall) (before : List User)
    → call.now < end
    → LockedAt email end store
    → LockedAt email end (login service.config service.passwords call before store).1
log_in-LockedAt service email end store call before soon h =
    let next = (login service.config service.passwords call before store).1 in
    elim (Option-cases (get_user_by_email call.email store.users)) [
      | inl missing ↦
          subst (LockedAt email end) (sym (login-none service call before store missing)) h
      | inr (v, found) ↦ elim (Bool-cases (call.email == email)) [
        | inl own ↦
            let same : call.email ≡ email = ground arith in
            let here : get_user_by_email call.email store.users ≡ some h.user =
              ap (λ k. get_user_by_email k store.users) same ∙ h.found in
            LockedAt-users email end store next
              (login-locked_users service call before h.user store here (ground (arith, h.lock))) h
        | inr apart ↦ elim (login-users service call before v store found) [
          | inl same ↦ LockedAt-users email end store next same h
          | inr (w, id, address, wrote) ↦
              LockedAt-write email end call.email v w store next found id address apart wrote h
        ]
      ]
    ]

step-LockedAt :
    (service : Service) (email end : ℕ) (store : Store) (call : Call)
    → within_lock end call ≡ true
    → LockedAt email end store
    → LockedAt email end (step service store call)
unfolding step
step-LockedAt service email end store (log_in call before) soon h =
    log_in-LockedAt service email end store call before (ground arith) h
step-LockedAt service email end store (set_password now principal current new before) soon h =
    absurd (ground arith)
step-LockedAt service email end store (renew call) soon h =
    LockedAt-users email end store _ (refresh-users service call store) h
step-LockedAt service email end store (log_out now principal) soon h =
    LockedAt-users email end store _ (logout_session-users now principal store) h
step-LockedAt service email end store (log_out_all now principal) soon h =
    LockedAt-users email end store _ (logout_every_session-users now principal store) h
step-LockedAt service email end store (revoke now principal family) soon h =
    LockedAt-users email end store _ (revoke_session-users now principal family store) h

run-LockedAt :
    (service : Service) (email end : ℕ) (store : Store) (calls : List Call)
    → all (within_lock end) calls ≡ true
    → LockedAt email end store
    → LockedAt email end (run service store calls)
unfolding run
run-LockedAt service email end store [] soon h = h
run-LockedAt service email end store (call ∷ calls) soon h =
    run-LockedAt service email end (step service store call) calls (ground arith)
      (step-LockedAt service email end store call (ground arith) h)

-- The failure that reaches the threshold locks the account: until the lock ends, no login for the
-- address returns tokens, even with the right password, whatever logins of any address before that
-- time, refreshes and ends of sessions come between. The ids of the users differ, and no change of a
-- password, which clears its user's lock, is among the calls.
pub login-locks :
    (service : Service) (call again : LoginCall) (before later_read : List User) (user : User)
    (store : Store) (calls : List Call)
    → unique_users store ≡ true
    → get_user_by_email call.email store.users ≡ some user
    → is_ok (login service.config service.passwords call before store).0 ≡ false
    → is_locked user call.now ≡ false
    → service.config.login_failure_threshold ≤ suc user.failed_login_attempts
    → all (within_lock (call.now + service.config.login_lock)) calls ≡ true
    → again.email ≡ call.email
    → again.now < call.now + service.config.login_lock
    → (login service.config service.passwords again later_read
        (run service (login service.config service.passwords call before store).1 calls)).0
      ≡ err authentication_failed
login-locks service call again before later_read user store calls distinct found failed unlocked
      reached soon same early =
    let next = (login service.config service.passwords call before store).1 in
    let end = call.now + service.config.login_lock in
    let locked : LockedAt call.email end next = record {
      user = count_failure service.config call.now user;
      found =
          login-lock service.config service.passwords call before user store found failed unlocked;
      lock = ground arith;
      distinct =
          ap (unique (λ row. row.id)) (
            login-counts service.config service.passwords call before user store found failed
              unlocked)
          ∙ unique-update_first (λ row. row.id) (λ row. row.id == user.id)
              (count_failure service.config call.now user) store.users (λ x e. ground arith)
          ∙ distinct;
    } in
    let last = run-LockedAt service call.email end next calls soon locked in
    login-locked service.config service.passwords again later_read last.user
      (run service next calls)
      (ap (λ k. get_user_by_email k (run service next calls).users) same ∙ last.found)
      (ground (arith, last.lock))
