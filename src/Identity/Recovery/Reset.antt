-- ===== src/Identity/Recovery/Reset.antt =====
-- The use of a recovery token ends every session.
use wheelmatch.Base.{
  ℕ, ◌≡◌, subst, none, some, List, find_sound, ok, err, Option-cases, inl, inr, arith,
}
use wheelmatch.Identity.Users.{get_user_by_id, has_id}
use wheelmatch.Identity.Sessions.{session_invalid, Reason, revoke_user_sessions}
use wheelmatch.Identity.Sessions.Closed.{IsClosed}
use wheelmatch.Identity.Signout.{Principal, authenticate_access_token}
use wheelmatch.Identity.History.{Service, Call, run}
use wheelmatch.Identity.Revocation.{run-IsClosed}
use wheelmatch.Identity.Ends.{authenticate-IsClosed, revoke_user_sessions-closes}
use wheelmatch.Identity.Recovery.{
  PasswordRecoveryChallenge, Accounts, get_recovery_by_hash, password_reset, reset_user,
  reset_found, reset_hashed, reset_password,
}

reset_user-closes :
    (now issued password_hash : ℕ) (challenge : PasswordRecoveryChallenge) (claims : Principal)
    (accounts next : Accounts)
    → claims.user_id ≡ challenge.user_id
    → authenticate_access_token issued (some claims) accounts.tables ≡ ok claims
    → reset_user now password_hash challenge
        (get_user_by_id challenge.user_id accounts.tables.users)
        accounts
      ≡ (ok tt, next)
    → IsClosed claims.session_family_id claims.user_id next.tables
unfolding reset_user password_reset
reset_user-closes now issued password_hash challenge claims accounts next same e done =
    elim (Option-cases (get_user_by_id challenge.user_id accounts.tables.users)) [
      | inl missing ↦ absurd (ground arith)
      | inr (user, u) ↦
          let hit = find_sound (has_id challenge.user_id) accounts.tables.users user u in
          let owner_id : claims.user_id ≡ user.id = ground arith in
          let closed =
            revoke_user_sessions-closes now issued claims Reason.password_recovery accounts.tables
              e in
          let of_user =
            subst
              (λ i.
                IsClosed claims.session_family_id claims.user_id
                  (revoke_user_sessions i now Reason.password_recovery accounts.tables).1)
              owner_id closed in
          ground arith
    ]

-- No access token of the user that was accepted before a reset of the password is ever accepted
-- after it, whatever calls of the session handlers follow.
pub reset_password-run :
    (service : Service) (now issued later token new_password : ℕ)
    (challenge : PasswordRecoveryChallenge) (claims : Principal) (accounts next : Accounts)
    (calls : List Call)
    → get_recovery_by_hash (service.digest token) accounts.recoveries ≡ some challenge
    → claims.user_id ≡ challenge.user_id
    → authenticate_access_token issued (some claims) accounts.tables ≡ ok claims
    → reset_password service.passwords service.digest now token new_password accounts
      ≡ (ok tt, next)
    → authenticate_access_token later (some claims) (run service next.tables calls)
      ≡ err session_invalid
unfolding reset_password reset_hashed reset_found
reset_password-run service now issued later token new_password challenge claims accounts next calls
      found same e done =
    elim (Option-cases (service.passwords.hash new_password none)) [
      | inl refused ↦ absurd (ground arith)
      | inr (password_hash, h) ↦
          let at : reset_user now password_hash challenge
                (get_user_by_id challenge.user_id accounts.tables.users) accounts
              ≡ (ok tt, next) =
            ground arith in
          authenticate-IsClosed later claims (run service next.tables calls) (
            run-IsClosed claims.session_family_id claims.user_id service next.tables calls
              (reset_user-closes now issued password_hash challenge claims accounts next same e at))
    ]
