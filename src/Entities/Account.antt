-- ===== src/Entities/Account.antt =====
-- The rows of accounts, one-time codes, tokens and logs (src/v1/user/entities,
-- src/v1/admin/entities, src/v1/otp/entities, src/v1/auth/entities, src/v1/log), and what a request
-- finds around it. Times are milliseconds since 1970.
use hotel_booking_management.Base.{ℕ, String, Bool, true, false, Option}

pub data SubjectType : Type 0 where
  admin_subject user_subject : SubjectType

-- `AuthenticatedUser`: the account that the token names, and its kind.
pub record AuthenticatedUser : Type 0 where
  pub id : ℕ
  pub subject_type : SubjectType

-- `currentUser.subjectType === 'ADMIN'`
abbrev pub is_admin : AuthenticatedUser → Bool
is_admin u = elim u.subject_type [ admin_subject ↦ true | user_subject ↦ false ]

pub data RegistrationStage : Type 0 where
  otp_verified password_set completed : RegistrationStage

abbrev pub same_stage : RegistrationStage → RegistrationStage → Bool
same_stage RegistrationStage.otp_verified RegistrationStage.otp_verified = true
same_stage RegistrationStage.password_set RegistrationStage.password_set = true
same_stage RegistrationStage.completed RegistrationStage.completed = true
same_stage _ _ = false

pub data LoginProvider : Type 0 where
  sms google apple : LoginProvider

pub record User : Type 0 where
  pub id : ℕ
  pub phone : String
  pub email : Option String
  pub full_name : Option String
  pub password : Option String
  pub is_banned : Bool
  pub registration_stage : RegistrationStage
  pub fcm_token : Option String
  pub last_login_at : Option ℕ
  pub last_logout_at : Option ℕ
  pub profile_image_url : Option String
  pub date_of_birth : Option String
  pub gender : Option String
  pub prefer_language : Option String
  pub google_id : Option String
  pub apple_id : Option String
  pub login_provider : Option LoginProvider
  pub role_id : ℕ

pub record Admin : Type 0 where
  pub id : ℕ
  pub email : String
  pub full_name : String
  pub password : String
  pub role_id : ℕ
  pub is_banned : Bool
  pub is_two_factor_enabled : Bool
  pub last_login_at : Option ℕ
  pub last_logout_at : Option ℕ

pub data OtpStatus : Type 0 where
  pending verified expired used : OtpStatus

abbrev pub same_otp_status : OtpStatus → OtpStatus → Bool
same_otp_status OtpStatus.pending OtpStatus.pending = true
same_otp_status OtpStatus.verified OtpStatus.verified = true
same_otp_status OtpStatus.expired OtpStatus.expired = true
same_otp_status OtpStatus.used OtpStatus.used = true
same_otp_status _ _ = false

pub data OtpPurpose : Type 0 where
  two_factor reset_password : OtpPurpose

abbrev pub same_otp_purpose : OtpPurpose → OtpPurpose → Bool
same_otp_purpose OtpPurpose.two_factor OtpPurpose.two_factor = true
same_otp_purpose OtpPurpose.reset_password OtpPurpose.reset_password = true
same_otp_purpose _ _ = false

pub record OtpRecord : Type 0 where
  pub id : ℕ
  pub user_id : Option ℕ
  pub admin_id : Option ℕ
  pub status : OtpStatus
  pub purpose : OtpPurpose
  pub code : String
  pub expires_at : ℕ
  pub request_id : Option String
  pub attempts : ℕ
  pub max_attempts : ℕ
  pub created_at : ℕ

pub record RefreshToken : Type 0 where
  pub id : ℕ
  pub token : String
  pub user_id : Option ℕ
  pub admin_id : Option ℕ
  pub expires_at : Option ℕ
  pub is_revoked : Bool
  pub created_at : ℕ

pub data LogAction : Type 0 where
  login logout register update_profile change_password forgot_password_otp reset_password :
      LogAction
  enable_two_factor disable_two_factor verify_two_factor delete_account create update delete :
      LogAction

-- A row of `audit_logs` or `activity_logs`: whose action, and which.
pub record LogEntry : Type 0 where
  pub subject : AuthenticatedUser
  pub action : LogAction

-- What a request finds around it: the clock, the server's last local midnight, the identifiers that
-- the database generates for its rows, and whether the log tables take a row (the services catch
-- the error where they do not).
pub record Surroundings : Type 0 where
  pub now : ℕ
  pub midnight : ℕ
  pub fresh_id : ℕ → ℕ
  pub logs_written : Bool
