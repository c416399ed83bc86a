-- ===== src/Auth/Profile.antt =====
-- The profile, the password and the logout of users
-- (src/v1/auth/services/user-auth.service.ts), and the account that an access token names
-- (src/v1/auth/strategies).
use hotel_booking_management.Auth.Images.{
  ObjectStore, UploadedFile, resolve_profile_image_url, replace_profile_image, delete_profile_image,
}
use hotel_booking_management.Auth.Register.{image_of}
use hotel_booking_management.Auth.UserAuth.{or_else, save_user, hash_password}
use hotel_booking_management.Auth.PasswordReset.{ResetLibraries}
use hotel_booking_management.Base.Exec.{
  ◌>>=◌, ◌>>◌, gets, pure, throw_if, or_throw, modify, not_found, bad_request, internal,
}
use hotel_booking_management.Auth.State.{Accounts, write_activity_log}
use hotel_booking_management.Auth.Token.{TokenLibraries, revoke_all_user_tokens, revoke_token}
use hotel_booking_management.Entities.{
  Surroundings, User, LogAction, LoginProvider, AuthenticatedUser,
}
use hotel_booking_management.Base.Table.{Orm, delete}
use hotel_booking_management.Base.{String, ℕ, Bool, Option, not, ◌==◌, some, none, true}

-- The body of a profile update: the optional fields of `CreateUserDto`.
pub record UpdateProfile : Type 0 where
  pub email : Option String
  pub full_name : Option String
  pub password : Option String
  pub phone : Option String
  pub date_of_birth : Option String
  pub gender : Option String
  pub is_banned : Option Bool
  pub profile_image_url : Option String
  pub login_provider : Option LoginProvider

module _ (orm : Orm) (env : Surroundings) (lib : TokenLibraries) (reset : ResetLibraries) where
  -- `preload`: the stored user with the fields of the body that are given.
  abbrev pub preload_user : UpdateProfile → String → User → User
  preload_user dto image user = record user {
    email = or_else dto.email user.email;
    full_name = or_else dto.full_name user.full_name;
    password = or_else dto.password user.password;
    phone = elim dto.phone [ none ↦ user.phone | some p ↦ p ];
    date_of_birth = or_else dto.date_of_birth user.date_of_birth;
    gender = or_else dto.gender user.gender;
    is_banned = elim dto.is_banned [ none ↦ user.is_banned | some b ↦ b ];
    profile_image_url = some image;
    login_provider = elim dto.login_provider [ none ↦ user.login_provider | some p ↦ some p ];
  }

  -- The second query of `preload` finds the same row. `preload` has copied the password already.
  unfoldable pub update_user_profile :
      ObjectStore → ℕ → UpdateProfile → Option UploadedFile → Accounts User
  unfolding resolve_profile_image_url replace_profile_image write_activity_log hash_password
  update_user_profile store user_id dto file = do
    found ← gets (λ db. orm.find_one User (λ u. u.id == user_id) db.users)
    user ← or_throw found (not_found "User not found")
    let new_url =
        resolve_profile_image_url store file dto.profile_image_url (image_of user) "users/profile"
    let updated = preload_user dto new_url user
    save_user reset updated
    replace_profile_image new_url (image_of user)
    write_activity_log env user.id LogAction.update_profile
    pure (hash_password reset updated)

  -- `compare` is bcrypt's, which throws where there is no hash.
  unfoldable pub change_user_password :
      (String → String → Bool) → ℕ → String → String → Accounts (Unit {0})
  unfolding revoke_all_user_tokens write_activity_log
  change_user_password compare user_id current_password new_password = do
    found ← gets (λ db. orm.find_one User (λ u. u.id == user_id) db.users)
    user ← or_throw found (not_found "User not found")
    hash ← or_throw user.password (internal "Illegal arguments")
    throw_if (not (compare current_password hash)) (bad_request "Incorrect current password")
    save_user reset (record user { password = some new_password })
    revoke_all_user_tokens orm env lib user_id true
    write_activity_log env user.id LogAction.change_password

  -- `softRemove` takes the row from those that the queries see.
  unfoldable pub delete_profile : ℕ → Accounts (Unit {0})
  unfolding write_activity_log revoke_all_user_tokens delete_profile_image
  delete_profile user_id = do
    found ← gets (λ db. orm.find_one User (λ u. u.id == user_id) db.users)
    user ← or_throw found (not_found "User not found")
    write_activity_log env user.id LogAction.delete_account
    revoke_all_user_tokens orm env lib user_id true
    delete_profile_image (image_of user)
    modify (λ db. record db { users = delete (λ (u : User). u.id == user.id) db.users })

  unfoldable pub logout : String → Option AuthenticatedUser → Accounts (Unit {0})
  unfolding revoke_token revoke_all_user_tokens
  logout refresh_token user = do
    revoke_token orm env lib refresh_token
    elim user [ none ↦ pure tt | some u ↦ revoke_all_user_tokens orm env lib u.id true ]
