-- ===== src/Auth/Requests.antt =====
-- The requests of users to the user-auth service, one after the other
-- (src/v1/auth/controllers/auth.controller.ts): all of its operations.
use hotel_booking_management.Auth.Profile.{
  UpdateProfile, update_user_profile, change_user_password, delete_profile, logout,
}
use hotel_booking_management.Auth.UserAuth.{OauthProvider, user_login, handle_oauth_login}
use hotel_booking_management.Auth.Images.{ObjectStore, UploadedFile}
use hotel_booking_management.Auth.Register.{
  AccountSetup, user_register_otp_request, user_register_otp_verify, user_register_password_setup,
  UserRegister, user_register_account_setup, user_register,
}
use hotel_booking_management.Entities.{Surroundings, AuthenticatedUser}
use hotel_booking_management.Auth.State.{AccountDb}
use hotel_booking_management.Auth.PasswordReset.{ResetLibraries}
use hotel_booking_management.Base.Table.{Orm}
use hotel_booking_management.Auth.Token.{TokenLibraries}
use hotel_booking_management.Base.Exec.{Result}
use hotel_booking_management.Base.{String, ℕ, List, Option, Bool, ◌∷◌, All, [], ◌≢◌, ◌==◌, false}

pub data UserRequest : Type 0 where
  send_code : (phone : String) → UserRequest
  verify_code : (phone otp fcm_token request_id : String) → UserRequest
  set_password : (user_id : ℕ) (password confirm_password : String) → UserRequest
  set_up : (token : String) → AccountSetup → Option UploadedFile → UserRequest
  register : (token : String) → UserRegister → Option UploadedFile → UserRequest
  log_in : (token email password : String) → UserRequest
  log_in_with :
      OauthProvider
      → (provider_id : String) (email full_name fcm_token : Option String) (token : String)
      → UserRequest
  update_profile : (user_id : ℕ) → UpdateProfile → Option UploadedFile → UserRequest
  renew_password : (user_id : ℕ) (current_password new_password : String) → UserRequest
  remove_profile : (user_id : ℕ) → UserRequest
  log_out : (refresh_token : String) → Option AuthenticatedUser → UserRequest

-- A user asks for the deletion of an account.
abbrev pub removes : ℕ → UserRequest → Bool
removes i (remove_profile user_id) = user_id == i
removes i _ = false

-- The libraries of the account services.
pub record UserLibraries : Type 0 where
  pub tokens : TokenLibraries
  pub reset : ResetLibraries
  pub store : ObjectStore
  pub compare : String → String → Bool

abbrev pub left_by : {A : Type 0} → Result A × AccountDb → AccountDb
left_by (r, db) = db

module _ (orm : Orm) (lib : UserLibraries) where
  unfoldable pub handle_user : Surroundings → UserRequest → AccountDb → AccountDb
  handle_user env (send_code phone) db =
      left_by (user_register_otp_request orm env lib.tokens lib.reset phone db)
  handle_user env (verify_code phone otp fcm_token request_id) db =
      left_by
        (user_register_otp_verify orm env lib.tokens lib.reset phone otp fcm_token request_id db)
  handle_user env (set_password user_id password confirm_password) db = left_by (
      user_register_password_setup orm env lib.tokens lib.reset user_id password confirm_password
        db)
  handle_user env (set_up token dto file) db =
      left_by (user_register_account_setup orm env lib.tokens lib.reset lib.store token dto file db)
  handle_user env (register token dto file) db =
      left_by (user_register orm env lib.tokens lib.reset lib.store token dto file db)
  handle_user env (log_in token email password) db =
      left_by (user_login orm env lib.tokens lib.reset lib.compare token email password db)
  handle_user env (log_in_with provider provider_id email full_name fcm_token token) db = left_by (
      handle_oauth_login orm env lib.tokens lib.reset provider provider_id email full_name fcm_token
        token db)
  handle_user env (update_profile user_id dto file) db =
      left_by (update_user_profile orm env lib.tokens lib.reset lib.store user_id dto file db)
  handle_user env (renew_password user_id current_password new_password) db = left_by (
      change_user_password orm env lib.tokens lib.reset lib.compare user_id current_password
        new_password db)
  handle_user env (remove_profile user_id) db =
      left_by (delete_profile orm env lib.tokens lib.reset user_id db)
  handle_user env (log_out refresh_token user) db =
      left_by (logout orm env lib.tokens lib.reset refresh_token user db)

  unfoldable pub run_users : List (Surroundings × UserRequest) → AccountDb → AccountDb
  run_users [] db = db
  run_users (r ∷ rs) db = run_users rs (handle_user r.0 r.1 db)

  -- The identifiers that the database generates are not in use.
  abbrev pub AllFresh : List (Surroundings × UserRequest) → AccountDb → Type 0
  AllFresh [] db = Unit
  AllFresh (r ∷ rs) db =
      All (λ u. u.id ≢ r.0.fresh_id 0) db.users × AllFresh rs (handle_user r.0 r.1 db)
