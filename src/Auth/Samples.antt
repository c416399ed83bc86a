-- ===== src/Auth/Samples.antt =====
-- A small database of accounts: a guest with a session, and an admin who has been sent a code.
use hotel_booking_management.Auth.Register.{AccountSetup}
use hotel_booking_management.Auth.Profile.{UpdateProfile}
use hotel_booking_management.Auth.PasswordReset.{ResetLibraries}
use hotel_booking_management.Auth.Images.{ObjectStore}
use hotel_booking_management.Auth.State.{AccountDb}
use hotel_booking_management.Entities.{
  OtpRecord, User, Admin, RefreshToken, OtpStatus, RegistrationStage, OtpPurpose, LoginProvider,
}
use hotel_booking_management.Auth.Token.{TokenLibraries}
use hotel_booking_management.Base.{
  String, none, false, some, ◌∷◌, if◌then◌else◌, Bool, [], str_eq, true,
}

abbrev pub guest : User
guest = record {
  id = 7;
  phone = "0911";
  email = some "guest@mail";
  full_name = some "Guest";
  password = some "hash";
  is_banned = false;
  registration_stage = RegistrationStage.completed;
  fcm_token = some "device";
  last_login_at = none;
  last_logout_at = none;
  profile_image_url = none;
  date_of_birth = none;
  gender = none;
  prefer_language = none;
  google_id = none;
  apple_id = none;
  login_provider = some LoginProvider.sms;
  role_id = 5;
}

abbrev pub clerk : Admin
clerk = record {
  id = 1;
  email = "clerk@hotel";
  full_name = "Clerk";
  password = "hash";
  role_id = 3;
  is_banned = false;
  is_two_factor_enabled = false;
  last_login_at = none;
  last_logout_at = none;
}

abbrev pub sent_code : OtpRecord
sent_code = record {
  id = 90;
  user_id = none;
  admin_id = some 1;
  status = OtpStatus.pending;
  purpose = OtpPurpose.two_factor;
  code = "123456";
  expires_at = 5000;
  request_id = none;
  attempts = 0;
  max_attempts = 3;
  created_at = 500;
}

abbrev pub session : RefreshToken
session = record {
  id = 80;
  token = "#a";
  user_id = some 7;
  admin_id = none;
  expires_at = some 9000;
  is_revoked = false;
  created_at = 500;
}

abbrev pub accounts : AccountDb
accounts = record {
  users = guest ∷ [];
  admins = clerk ∷ [];
  otp_records = sent_code ∷ [];
  refresh_tokens = session ∷ [];
  audit_logs = [];
  activity_logs = [];
  events = [];
  roles = record { id = 5; name = "Customer" } ∷ [];
  deleted_objects = [];
}

-- The code has been tried three times.
abbrev pub tried_out : AccountDb
tried_out = record accounts { otp_records = record sent_code { attempts = 3 } ∷ [] }

-- A code has been verified.
abbrev pub enabled : AccountDb
enabled = record accounts { otp_records = record sent_code { status = OtpStatus.verified } ∷ [] }

abbrev pub lib : TokenLibraries
lib = record {
  sign = λ payload. "jwt";
  sha256 = λ token. if str_eq token "a" then "#a" else "#other";
  jwt_expiration = 900000;
  jwt_refresh_expiration = 2592000000;
}

abbrev pub compare : String → String → Bool
compare password hash = str_eq password "secret"

abbrev pub reset_lib : ResetLibraries
reset_lib = record {
  sign_reset = λ id. "reset";
  verify_token = λ now token. str_eq token "reset";
  decode = λ token. some (record { user_id = some 7; token_type = some OtpPurpose.reset_password });
  is_bcrypt_hash = λ password. false;
  bcrypt_hash = λ password. "hash";
  send_mail = λ to code. true;
  send_sms = λ to. some (some "request");
  verify_sms = λ request code. str_eq code "246810";
}

-- A user who has set a password, but not set up the account.
abbrev pub newcomer : User
newcomer = record guest {
  id = 9;
  phone = "0922";
  email = none;
  registration_stage = RegistrationStage.password_set;
}

abbrev pub store : ObjectStore
store = record {
  put = λ key file. true;
  trim = λ name. name;
  sanitize = λ name. name;
  random_uuid = "uuid";
}

abbrev pub set_up_body : AccountSetup
set_up_body = record {
  user_id = 9;
  email = some "new@mail";
  full_name = "New";
  date_of_birth = "2000-01-01";
  gender = none;
  prefer_language = none;
  profile_image_url = none;
  fcm_token = none;
}

abbrev pub profile_body : UpdateProfile
profile_body = record {
  email = none;
  full_name = none;
  password = none;
  phone = none;
  date_of_birth = none;
  gender = none;
  is_banned = some false;
  profile_image_url = none;
  login_provider = none;
}
