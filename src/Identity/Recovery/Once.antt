-- ===== src/Identity/Recovery/Once.antt =====
-- A recovery token resets one password.
use wheelmatch.Base.{
  ℕ, ◌≡◌, refl, ap, true, false, ◌&&◌, Bool, Option, none, some, List, [], ◌∷◌, ◌==◌, is_some,
  is_ok, has, Bool-cases, find_sound, find-update_first, has-find-update_first, ok, Option-cases,
  inl, inr, arith,
}
use wheelmatch.Identity.Users.{User, get_user_by_id}
use wheelmatch.Identity.History.{Service, Call, step}
use wheelmatch.Identity.Challenges.{is_deleted}
use wheelmatch.Identity.Recovery.{
  PasswordRecoveryChallenge, Accounts, get_recovery_by_hash, write_recovery, is_unusable,
  reset_user, reset_found, reset_hashed, reset_password,
}

-- a call of a session handler, or a reset with some token
pub data AccountCall : Type 0 where
  session : Call → AccountCall
  reset : (now token new_password : ℕ) → AccountCall

unfoldable pub account_step : Service → Accounts → AccountCall → Accounts
account_step service accounts (session call) = record accounts {
  tables = step service accounts.tables call;
}
account_step service accounts (reset now token new_password) =
    (reset_password service.passwords service.digest now token new_password accounts).1

unfoldable pub account_run : Service → Accounts → List AccountCall → Accounts
account_run service accounts [] = accounts
account_run service accounts (call ∷ calls) =
    account_run service (account_step service accounts call) calls

-- the token's row is there, and was used
abbrev is_consumed : PasswordRecoveryChallenge → Bool
is_consumed row = is_some row.consumed_at

abbrev IsUsed : ℕ → Accounts → Type 0
IsUsed token_hash accounts =
    has is_consumed (get_recovery_by_hash token_hash accounts.recoveries) ≡ true

reset_user-consumes :
    (now password_hash token_hash : ℕ) (challenge : PasswordRecoveryChallenge) (user : Option User)
    (accounts next : Accounts)
    → get_recovery_by_hash token_hash accounts.recoveries ≡ some challenge
    → reset_user now password_hash challenge user accounts ≡ (ok tt, next)
    → get_recovery_by_hash token_hash next.recoveries
      ≡ some (record challenge { consumed_at = some now })
unfolding reset_user
reset_user-consumes now password_hash token_hash challenge none accounts next found done =
    absurd (ground arith)
reset_user-consumes now password_hash token_hash challenge (some user) accounts next found done =
    let hit =
      find_sound (λ (r : PasswordRecoveryChallenge). r.token_hash == token_hash) accounts.recoveries
        challenge found in
    let written =
      find-update_first
        (λ (r : PasswordRecoveryChallenge).
          r.id == challenge.id && r.token_hash == challenge.token_hash)
        (λ (r : PasswordRecoveryChallenge). r.token_hash == token_hash)
        (record challenge { consumed_at = some now }) accounts.recoveries challenge found
        (ground arith) hit in
    ground arith

write_recovery-consumed :
    (now token_hash : ℕ) (challenge : PasswordRecoveryChallenge)
    (rows : List PasswordRecoveryChallenge)
    → has is_consumed (get_recovery_by_hash token_hash rows) ≡ true
    → has is_consumed (
        get_recovery_by_hash token_hash
          (write_recovery (record challenge { consumed_at = some now }) rows))
      ≡ true
write_recovery-consumed now token_hash challenge rows used =
    has-find-update_first is_consumed
      (λ row. row.id == challenge.id && row.token_hash == challenge.token_hash)
      (λ row. row.token_hash == token_hash) (record challenge { consumed_at = some now }) rows
      (λ x e. ground arith) refl used

reset_found-IsUsed :
    (now password_hash token_hash : ℕ) (challenge : PasswordRecoveryChallenge) (accounts : Accounts)
    → IsUsed token_hash accounts
    → IsUsed token_hash (reset_found now password_hash (some challenge) accounts).1
unfolding reset_found reset_user
reset_found-IsUsed now password_hash token_hash challenge accounts used =
    elim (Bool-cases (is_unusable now challenge)) [
      | inl closed ↦ rw closed used
      | inr usable ↦ elim (Option-cases (get_user_by_id challenge.user_id accounts.tables.users)) [
        | inl missing ↦ rw (usable, missing) used
        | inr (user, u) ↦ elim (Bool-cases (is_deleted user.status)) [
          | inl deleted ↦ rw (usable, u, deleted) used
          | inr there ↦
              rw (usable, u, there)
                (write_recovery-consumed now token_hash challenge accounts.recoveries used)
        ]
      ]
    ]

reset_hashed-IsUsed :
    (now other token_hash : ℕ) (password_hash : Option ℕ) (accounts : Accounts)
    → IsUsed token_hash accounts
    → IsUsed token_hash (reset_hashed now other password_hash accounts).1
unfolding reset_hashed reset_found
reset_hashed-IsUsed now other token_hash none accounts used = used
reset_hashed-IsUsed now other token_hash (some password_hash) accounts used =
    elim (Option-cases (get_recovery_by_hash other accounts.recoveries)) [
      | inl missing ↦ rw missing used
      | inr (challenge, found) ↦
          rw found (reset_found-IsUsed now password_hash token_hash challenge accounts used)
    ]

account_run-IsUsed :
    (service : Service) (token_hash : ℕ) (accounts : Accounts) (calls : List AccountCall)
    → IsUsed token_hash accounts
    → IsUsed token_hash (account_run service accounts calls)
unfolding account_run account_step reset_password
account_run-IsUsed service token_hash accounts [] used = used
account_run-IsUsed service token_hash accounts (session call ∷ calls) used =
    account_run-IsUsed service token_hash (account_step service accounts (session call)) calls used
account_run-IsUsed service token_hash accounts (reset now token new_password ∷ calls) used =
    account_run-IsUsed service token_hash
      (account_step service accounts (reset now token new_password)) calls
      (reset_hashed-IsUsed now (service.digest token) token_hash
        (service.passwords.hash new_password none) accounts used)

reset_hashed-refused :
    (now token_hash : ℕ) (password_hash : Option ℕ) (accounts : Accounts)
    → IsUsed token_hash accounts
    → is_ok (reset_hashed now token_hash password_hash accounts).0 ≡ false
unfolding reset_hashed reset_found
reset_hashed-refused now token_hash none accounts used = refl
reset_hashed-refused now token_hash (some password_hash) accounts used =
    elim (Option-cases (get_recovery_by_hash token_hash accounts.recoveries)) [
      | inl missing ↦ rw missing refl
      | inr (challenge, found) ↦
          let consumed : is_some challenge.consumed_at ≡ true = rw (rw found at used) in
          rw found (ground arith)
    ]

reset_hashed-uses :
    (now token_hash : ℕ) (password_hash : Option ℕ) (accounts next : Accounts)
    → reset_hashed now token_hash password_hash accounts ≡ (ok tt, next)
    → IsUsed token_hash next
unfolding reset_hashed reset_found
reset_hashed-uses now token_hash none accounts next e = absurd (ground arith)
reset_hashed-uses now token_hash (some password_hash) accounts next e =
    elim (Option-cases (get_recovery_by_hash token_hash accounts.recoveries)) [
      | inl missing ↦ absurd (ground arith)
      | inr (challenge, found) ↦
          let at : reset_user now password_hash challenge
                (get_user_by_id challenge.user_id accounts.tables.users) accounts
              ≡ (ok tt, next) =
            ground arith in
          ap (has is_consumed) (
            reset_user-consumes now password_hash token_hash challenge
              (get_user_by_id challenge.user_id accounts.tables.users) accounts next found at)
    ]

-- A recovery token that reset a password, of whatever user, resets none again, whatever calls of
-- the session handlers and resets with any tokens come between.
pub reset_password-run_once :
    (service : Service) (now again token new_password other_password : ℕ) (accounts next : Accounts)
    (calls : List AccountCall)
    → reset_password service.passwords service.digest now token new_password accounts
      ≡ (ok tt, next)
    → is_ok
        (reset_password service.passwords service.digest again token other_password
          (account_run service next calls)).0
      ≡ false
unfolding reset_password
reset_password-run_once service now again token new_password other_password accounts next calls
      done =
    reset_hashed-refused again (service.digest token) (service.passwords.hash other_password none)
      (account_run service next calls)
      (account_run-IsUsed service (service.digest token) next calls (
        reset_hashed-uses now (service.digest token) (service.passwords.hash new_password none)
          accounts next done))
