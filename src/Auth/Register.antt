-- ===== src/Auth/Register.antt =====
-- The registration of users (src/v1/auth/services/user-auth.service.ts).
use hotel_booking_management.Auth.Images.{
  ObjectStore, UploadedFile, resolve_profile_image_url, replace_profile_image, upload_profile_image,
}
use hotel_booking_management.Auth.UserAuth.{
  UserLogin, or_else, save_user, insert_user, complete_user_login,
}
use hotel_booking_management.Auth.PasswordReset.{ResetLibraries}
use hotel_booking_management.Base.Exec.{
  ◌>>=◌, ◌>>◌, gets, pure, throw_if, or_throw, unauthorized, bad_request, internal, conflict, throw,
}
use hotel_booking_management.Auth.State.{Accounts, AccountDb, RoleRow, write_activity_log}
use hotel_booking_management.Auth.Token.{TokenLibraries}
use hotel_booking_management.Entities.{
  Surroundings, User, LogAction, RegistrationStage, LoginProvider, same_stage,
}
use hotel_booking_management.Base.Table.{Orm}
use hotel_booking_management.Base.{
  String, ℕ, Bool, Option, str_eq, not, ◌==◌, some, none, false, true, ◌&&◌,
}

-- Where a registration stands.
pub record StageAnswer : Type 0 where
  pub user_id : ℕ
  pub current_stage : RegistrationStage
  pub next_stage : RegistrationStage

pub record AccountSetup : Type 0 where
  pub user_id : ℕ
  pub email : Option String
  pub full_name : String
  pub date_of_birth : String
  pub gender : Option String
  pub prefer_language : Option String
  pub profile_image_url : Option String
  pub fcm_token : Option String

pub record UserRegister : Type 0 where
  pub phone : String
  pub password : String
  pub full_name : String
  pub email : Option String
  pub date_of_birth : Option String
  pub gender : Option String
  pub prefer_language : Option String

abbrev pub is_registered : String → User → Bool
is_registered phone u =
    str_eq u.phone phone && same_stage u.registration_stage RegistrationStage.completed

abbrev pub is_at_stage : ℕ → RegistrationStage → User → Bool
is_at_stage id stage u = u.id == id && same_stage u.registration_stage stage

-- `user.profileImageUrl || ''`
abbrev pub image_of : User → String
image_of u = elim u.profile_image_url [ none ↦ "" | some url ↦ url ]

module _ (orm : Orm) (env : Surroundings) (lib : TokenLibraries) (reset : ResetLibraries) where
  -- The SMS provider draws the code and sends it, or its client throws.
  unfoldable pub user_register_otp_request : String → Accounts (Option String)
  user_register_otp_request phone = do
    existing ← gets (λ db. orm.find_one User (is_registered phone) db.users)
    throw_if (elim existing [ none ↦ false | some u ↦ true ]) (unauthorized "User already exists")
    or_throw (reset.send_sms phone) (internal "SMS provider failed")

  abbrev pub find_customer_role : AccountDb → Option RoleRow
  find_customer_role db = orm.find_one RoleRow (λ r. str_eq r.name "Customer") db.roles

  -- The row of a user whose code is right.
  abbrev pub new_verified_user : String → String → ℕ → User
  new_verified_user fcm_token phone role_id = record {
    id = env.fresh_id 0;
    phone = phone;
    email = none;
    full_name = none;
    password = none;
    is_banned = false;
    registration_stage = RegistrationStage.otp_verified;
    fcm_token = some fcm_token;
    last_login_at = none;
    last_logout_at = none;
    profile_image_url = none;
    date_of_birth = none;
    gender = none;
    prefer_language = none;
    google_id = none;
    apple_id = none;
    login_provider = none;
    role_id = role_id;
  }

  -- The SMS client throws where the code is wrong.
  unfoldable pub verify_new_user : String → String → String → String → Accounts StageAnswer
  unfolding insert_user
  verify_new_user phone otp fcm_token request_id = do
    throw_if (not (reset.verify_sms request_id otp)) (bad_request "Invalid OTP or request ID")
    found ← gets find_customer_role
    customer_role ← or_throw found (internal "Registration is unavailable")
    new_user ← insert_user reset (some phone) (some customer_role.id) (new_verified_user fcm_token)
    pure (record {
      user_id = new_user.id;
      current_stage = new_user.registration_stage;
      next_stage = RegistrationStage.password_set;
    })

  -- The answer for a phone that is already known.
  unfoldable pub known_phone : ℕ → RegistrationStage → Accounts StageAnswer
  known_phone user_id RegistrationStage.otp_verified = pure (record {
    user_id = user_id;
    current_stage = RegistrationStage.otp_verified;
    next_stage = RegistrationStage.password_set;
  })
  known_phone user_id RegistrationStage.password_set = pure (record {
    user_id = user_id;
    current_stage = RegistrationStage.password_set;
    next_stage = RegistrationStage.completed;
  })
  known_phone user_id RegistrationStage.completed =
      throw (unauthorized "User is already ACCOUNT_SETUP and cannot be registered again")

  unfoldable pub user_register_otp_verify : String → String → String → String → Accounts StageAnswer
  unfolding verify_new_user known_phone
  user_register_otp_verify phone otp fcm_token request_id = do
    user ← gets (λ db. orm.find_one User (λ u. str_eq u.phone phone) db.users)
    elim user [
      | none ↦ verify_new_user phone otp fcm_token request_id
      | some u ↦ known_phone u.id u.registration_stage
    ]

  unfoldable pub user_register_password_setup : ℕ → String → String → Accounts StageAnswer
  user_register_password_setup user_id password confirm_password = do
    found ←
        gets (λ db. orm.find_one User (is_at_stage user_id RegistrationStage.otp_verified) db.users)
    user ← or_throw found (unauthorized "User not found")
    throw_if (not (str_eq password confirm_password)) (bad_request "Passwords do not match")
    save_user reset (record user {
      password = some password;
      registration_stage = RegistrationStage.password_set;
    })
    pure (record {
      user_id = user.id;
      current_stage = RegistrationStage.password_set;
      next_stage = RegistrationStage.completed;
    })

  -- The user whose account is set up.
  abbrev pub set_up_user : AccountSetup → String → User → User
  set_up_user dto image user = record user {
    email = or_else dto.email user.email;
    full_name = some dto.full_name;
    date_of_birth = some dto.date_of_birth;
    gender = or_else dto.gender user.gender;
    prefer_language = or_else dto.prefer_language user.prefer_language;
    profile_image_url = some image;
    registration_stage = RegistrationStage.completed;
    fcm_token = or_else dto.fcm_token user.fcm_token;
  }

  unfoldable pub user_register_account_setup :
      ObjectStore → String → AccountSetup → Option UploadedFile → Accounts UserLogin
  unfolding resolve_profile_image_url replace_profile_image write_activity_log complete_user_login
  user_register_account_setup store token dto file = do
    found ←
        gets (λ db.
          orm.find_one User (is_at_stage dto.user_id RegistrationStage.password_set) db.users)
    user ← or_throw found (unauthorized "User not found")
    let existing_url = image_of user
    let new_url =
        resolve_profile_image_url store file dto.profile_image_url existing_url "users/profile"
    let set_up = set_up_user dto new_url user
    save_user reset set_up
    replace_profile_image new_url existing_url
    write_activity_log env set_up.id LogAction.register
    complete_user_login orm env lib reset token set_up

  -- `profileImageUrl` of a registration in one step.
  unfoldable pub new_image : ObjectStore → Option UploadedFile → String
  unfolding upload_profile_image
  new_image store none = ""
  new_image store (some file) = elim (upload_profile_image store file "users/profile") [
    | none ↦ ""
    | some key ↦ key
  ]

  -- The row that a registration in one step adds.
  abbrev pub new_registered_user : UserRegister → String → String → ℕ → User
  new_registered_user dto image phone role_id = record {
    id = env.fresh_id 0;
    phone = phone;
    email = dto.email;
    full_name = some dto.full_name;
    password = some dto.password;
    is_banned = false;
    registration_stage = RegistrationStage.completed;
    fcm_token = none;
    last_login_at = some env.now;
    last_logout_at = none;
    profile_image_url = some image;
    date_of_birth = dto.date_of_birth;
    gender = dto.gender;
    prefer_language = dto.prefer_language;
    google_id = none;
    apple_id = none;
    login_provider = some LoginProvider.sms;
    role_id = role_id;
  }

  unfoldable pub user_register :
      ObjectStore → String → UserRegister → Option UploadedFile → Accounts UserLogin
  unfolding new_image write_activity_log complete_user_login insert_user
  user_register store token dto file = do
    existing ← gets (λ db. orm.find_one User (is_registered dto.phone) db.users)
    throw_if (elim existing [ none ↦ false | some u ↦ true ])
        (conflict "User with this phone number already exists")
    found ← gets find_customer_role
    customer_role ← or_throw found (internal "Registration is unavailable")
    saved_user ←
        insert_user reset (some dto.phone) (some customer_role.id)
          (new_registered_user dto (new_image store file))
    write_activity_log env saved_user.id LogAction.register
    complete_user_login orm env lib reset token saved_user
