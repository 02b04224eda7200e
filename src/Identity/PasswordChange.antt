-- ===== src/Identity/PasswordChange.antt =====
-- A changed password ends every session of the user.
use wheelmatch.Base.{
  ℕ, ◌≡◌, sym, subst, Bool, Option, none, some, List, Option-cases, inl, inr, arith, ok, err,
  find_sound,
}
use wheelmatch.Identity.Users.{User, get_user_by_id, has_id}
use wheelmatch.Identity.Sessions.{Store, session_invalid, Reason, revoke_user_sessions}
use wheelmatch.Identity.Sessions.Closed.{IsClosed}
use wheelmatch.Identity.Login.{hash_of}
use wheelmatch.Identity.Signout.{
  Principal, authenticate_access_token, change_password, change_hashed, change_user,
  password_changed, email_of,
}
use wheelmatch.Identity.History.{Service, Call, run}
use wheelmatch.Identity.Revocation.{run-IsClosed}
use wheelmatch.Identity.Ends.{authenticate-IsClosed, revoke_user_sessions-closes}

change_user-closes :
    (now issued : ℕ) (verified : Bool) (candidate : Option ℕ) (new_hash : ℕ) (user : User)
    (store next : Store) (claims : Principal)
    → claims.user_id ≡ user.id
    → authenticate_access_token issued (some claims) store ≡ ok claims
    → change_user now verified candidate new_hash (some user) store ≡ (ok tt, next)
    → IsClosed claims.session_family_id claims.user_id next
unfolding change_user password_changed
change_user-closes now issued verified candidate new_hash user store next claims same e done =
    let closed = revoke_user_sessions-closes now issued claims Reason.password_change store e in
    let of_user =
      subst
        (λ u.
          IsClosed claims.session_family_id claims.user_id
            (revoke_user_sessions u now Reason.password_change store).1)
        same closed in
    ground arith

change_hashed-closes :
    (now issued : ℕ) (verified : Bool) (candidate new_hash : Option ℕ) (store next : Store)
    (claims : Principal)
    → authenticate_access_token issued (some claims) store ≡ ok claims
    → change_hashed now verified candidate new_hash claims.user_id store ≡ (ok tt, next)
    → IsClosed claims.session_family_id claims.user_id next
unfolding change_hashed change_user
change_hashed-closes now issued verified candidate none store next claims e done =
    absurd (ground arith)
change_hashed-closes now issued verified candidate (some new_hash) store next claims e done =
    elim (Option-cases (get_user_by_id claims.user_id store.users)) [
      | inl missing ↦ absurd (ground arith)
      | inr (user, u) ↦
          let hit = find_sound (has_id claims.user_id) store.users user u in
          let same : claims.user_id ≡ user.id = ground arith in
          let step : change_user now verified candidate new_hash (some user) store ≡ (ok tt, next) =
            subst (λ x. change_user now verified candidate new_hash x store ≡ (ok tt, next)) u
              done in
          change_user-closes now issued verified candidate new_hash user store next claims same e
            step
    ]

-- Once a password is changed, no access token of the user that was accepted before is ever accepted
-- again.
pub change_password-run :
    (service : Service) (now issued later : ℕ) (principal claims : Principal)
    (current_password new_password : ℕ) (before : List User) (store next : Store)
    (calls : List Call)
    → claims.user_id ≡ principal.user_id
    → authenticate_access_token issued (some claims) store ≡ ok claims
    → change_password service.passwords now principal current_password new_password before store
      ≡ (ok tt, next)
    → authenticate_access_token later (some claims) (run service next calls) ≡ err session_invalid
unfolding change_password
change_password-run service now issued later principal claims old new before store next calls same e
      done =
    let candidate = hash_of (get_user_by_id principal.user_id before) in
    let verified = service.passwords.verify_or_dummy candidate old in
    let new_hash =
      service.passwords.hash new (email_of (get_user_by_id principal.user_id before)) in
    let of_user : change_hashed now verified candidate new_hash claims.user_id store
        ≡ (ok tt, next) =
      subst (λ u. change_hashed now verified candidate new_hash u store ≡ (ok tt, next)) (sym same)
        done in
    authenticate-IsClosed later claims _ (
      run-IsClosed claims.session_family_id claims.user_id service next calls
        (change_hashed-closes now issued verified candidate new_hash store next claims e of_user))
