-- ===== src/Identity/Users.antt =====
-- The `users` table, backend/app/modules/identity/models.py and repository.py. An address, a hash
-- and a phone number are numbers, since they are only compared.
use wheelmatch.Base.{ℕ, Bool, ◌&&◌, Option, List, ◌==◌, is_none, find, update_first}
use wheelmatch.Authorization.{UserStatus}

pub record User : Type 0 where
  pub id : ℕ
  pub normalized_email : ℕ
  pub password_hash : ℕ
  pub status : UserStatus
  pub email_verified_at : Option ℕ
  pub phone_verified_at : Option ℕ
  pub password_changed_at : ℕ
  pub failed_login_attempts : ℕ
  pub login_locked_until : Option ℕ
  pub authorization_version : ℕ
  pub deleted_at : Option ℕ

abbrev pub has_id : ℕ → User → Bool
has_id id user = user.id == id && is_none user.deleted_at

abbrev pub has_email : ℕ → User → Bool
has_email email user = user.normalized_email == email && is_none user.deleted_at

abbrev pub get_user_by_id : ℕ → List User → Option User
get_user_by_id id = find (has_id id)

abbrev pub get_user_by_email : ℕ → List User → Option User
get_user_by_email email = find (has_email email)

-- a write to the row of a loaded user
abbrev pub write_user : User → List User → List User
write_user user = update_first (λ row. row.id == user.id) (λ row. user)
