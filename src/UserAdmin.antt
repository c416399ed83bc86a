-- ===== src/UserAdmin.antt =====
-- The administration of users (src/v1/user/services/user.service.ts).
pub mod Phones
mod Tests
use hotel_booking_management.Auth.Register.{image_of}
use hotel_booking_management.Auth.Profile.{UpdateProfile, preload_user}
use hotel_booking_management.Base.Exec.{
  pure, ◌>>=◌, gets, ◌>>◌, throw_if, or_throw, not_found, conflict, modify,
}
use hotel_booking_management.Auth.State.{Accounts}
use hotel_booking_management.Auth.UserAuth.{insert_user, hash_password, save_user}
use hotel_booking_management.Auth.Images.{
  ObjectStore, upload_profile_image, resolve_profile_image_url, delete_profile_image, UploadedFile,
  replace_profile_image,
}
use hotel_booking_management.Auth.PasswordReset.{ResetLibraries}
use hotel_booking_management.Auth.Token.{TokenLibraries}
use hotel_booking_management.Entities.{Surroundings, LoginProvider, User, RegistrationStage}
use hotel_booking_management.Base.{
  Option, String, Bool, ℕ, str_eq, some, if◌then◌else◌, ◌==◌, not, ◌&&◌, is_some, none, false,
}
use hotel_booking_management.Base.Table.{Orm, delete}

-- `CreateUserDto`, which names no role.
pub record CreateUser : Type 0 where
  pub email : Option String
  pub full_name : String
  pub password : String
  pub phone : String
  pub date_of_birth : Option String
  pub gender : Option String
  pub is_banned : Option Bool
  pub profile_image_url : Option String
  pub login_provider : Option LoginProvider

module _ (orm : Orm) (env : Surroundings) (lib : TokenLibraries) (reset : ResetLibraries)
    (store : ObjectStore) where
  abbrev pub has_phone : String → User → Bool
  has_phone phone u = str_eq u.phone phone

  -- The image of a new user: the file, else the address of the body.
  unfoldable image_of_new : Option UploadedFile → Option String → String
  unfolding upload_profile_image
  image_of_new none body_url = elim body_url [ none ↦ "" | some url ↦ url ]
  image_of_new (some file) body_url = elim (upload_profile_image store file "users/profile") [
    | some key ↦ key
    | none ↦ elim body_url [ none ↦ "" | some url ↦ url ]
  ]

  abbrev pub new_user : CreateUser → String → String → ℕ → User
  new_user dto image phone role_id = record {
    id = env.fresh_id 0;
    phone = phone;
    email = dto.email;
    full_name = some dto.full_name;
    password = some dto.password;
    is_banned = elim dto.is_banned [ none ↦ false | some b ↦ b ];
    registration_stage = RegistrationStage.otp_verified;
    fcm_token = none;
    last_login_at = none;
    last_logout_at = none;
    profile_image_url = some image;
    date_of_birth = dto.date_of_birth;
    gender = dto.gender;
    prefer_language = none;
    google_id = none;
    apple_id = none;
    login_provider = dto.login_provider;
    role_id = role_id;
  }

  -- The code uploads the file before the row is inserted; the objects of the store are no part of the
  -- state, so a file that is left there when the insertion fails is not seen. No role is set.
  unfoldable pub create_user : CreateUser → Option UploadedFile → Accounts User
  unfolding insert_user image_of_new
  create_user dto file = do
    existing ← gets (λ db. orm.find_one User (has_phone dto.phone) db.users)
    throw_if (is_some existing) (conflict "User with this phone already exists")
    insert_user reset (some dto.phone) none (new_user dto (image_of_new file dto.profile_image_url))

  unfoldable pub find_one_user : ℕ → Accounts User
  find_one_user id = do
    found ← gets (λ db. orm.find_one User (λ u. u.id == id) db.users)
    or_throw found (not_found "User not found")

  abbrev pub assert_phone_free : String → Accounts (Unit {0})
  assert_phone_free phone = do
    duplicate ← gets (λ db. orm.find_one User (has_phone phone) db.users)
    throw_if (is_some duplicate) (conflict "User with this phone already exists")

  -- A phone that is given and changes is looked up.
  unfoldable pub check_phone : User → Option String → Accounts (Unit {0})
  check_phone user none = pure tt
  check_phone user (some phone) =
      if not (str_eq phone "") && not (str_eq phone user.phone)
      then assert_phone_free phone
      else pure tt

  unfoldable pub update_user : ℕ → UpdateProfile → Option UploadedFile → Accounts User
  unfolding check_phone resolve_profile_image_url replace_profile_image hash_password
  update_user id dto file = do
    found ← gets (λ db. orm.find_one User (λ u. u.id == id) db.users)
    user ← or_throw found (not_found "User not found")
    check_phone user dto.phone
    let new_url =
        resolve_profile_image_url store file dto.profile_image_url (image_of user) "users/profile"
    let updated = preload_user orm env lib reset dto new_url user
    save_user reset updated
    replace_profile_image new_url (image_of user)
    pure (hash_password reset updated)

  unfoldable pub remove_user : ℕ → Accounts (Unit {0})
  unfolding delete_profile_image
  remove_user id = do
    found ← gets (λ db. orm.find_one User (λ u. u.id == id) db.users)
    user ← or_throw found (not_found "User not found")
    delete_profile_image (image_of user)
    modify (λ db. record db { users = delete (λ (u : User). u.id == user.id) db.users })
