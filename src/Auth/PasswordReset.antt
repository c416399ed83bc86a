-- ===== src/Auth/PasswordReset.antt =====
-- The reset of a forgotten password (src/v1/auth/services/password-reset.service.ts;
-- hashPasswordIfNeeded of src/common/utils/password-hash.util.ts).
use hotel_booking_management.Auth.Token.{revoke_all_user_tokens, TokenLibraries}
use hotel_booking_management.Base.Exec.{
  ◌>>◌, ◌>>=◌, gets, throw_if, or_throw, not_found, unauthorized, bad_request, throw, internal,
  modify, pure,
}
use hotel_booking_management.Auth.Otp.{verify, new_otp_record, save_otp_record, insert_otp_record}
use hotel_booking_management.Auth.State.{write_activity_log, Accounts, is_expired, write_audit_log}
use hotel_booking_management.Entities.{
  OtpPurpose, Surroundings, OtpRecord, same_otp_purpose, same_otp_status, Admin, User, OtpStatus,
  LogAction,
}
use hotel_booking_management.Base.Table.{Orm, find_newest, save}
use hotel_booking_management.Base.{
  ℕ, String, Bool, Option, if◌then◌else◌, str_eq, is_owner, ◌||◌, ◌&&◌, ◌+◌, some, not, ◌==◌, leb,
  none, false, ◌++◌, true, ◌∷◌, [],
}

-- What `jwtService.decode` reads from a token that is accepted.
pub record ResetClaims : Type 0 where
  pub user_id : Option ℕ
  pub token_type : Option OtpPurpose

-- The libraries: JWT, bcrypt, the mail server and the SMS provider. `verify_token` is `verifyAsync`
-- at a time; `send_mail` says whether a code is sent to an address; `send_sms` answers a request identifier, or nothing where the provider fails.
pub record ResetLibraries : Type 0 where
  pub sign_reset : ℕ → String
  pub verify_token : ℕ → String → Bool
  pub decode : String → Option ResetClaims
  pub is_bcrypt_hash : String → Bool
  pub bcrypt_hash : String → String
  pub send_mail : String → String → Bool
  pub send_sms : String → Option (Option String)
  pub verify_sms : String → String → Bool

-- `BeforeUpdate` of both account entities.
unfoldable pub hash_password_if_needed : ResetLibraries → String → String
hash_password_if_needed lib password =
    if str_eq password "" || lib.is_bcrypt_hash password then password else lib.bcrypt_hash password

-- A pending code for a new password, of a user or of an admin.
abbrev pub is_user_reset : ℕ → OtpRecord → Bool
is_user_reset id r =
    is_owner r.user_id id
    && (same_otp_purpose r.purpose OtpPurpose.reset_password
        && same_otp_status r.status OtpStatus.pending)

abbrev pub is_admin_reset : ℕ → OtpRecord → Bool
is_admin_reset id r =
    is_owner r.admin_id id
    && (same_otp_purpose r.purpose OtpPurpose.reset_password
        && same_otp_status r.status OtpStatus.pending)

abbrev pub claims_reset : ResetClaims → Bool
claims_reset c = elim c.token_type [
  | none ↦ false
  | some t ↦ same_otp_purpose t OtpPurpose.reset_password
]

module _ (orm : Orm) (env : Surroundings) (lib : ResetLibraries) where
  -- `code` is what `generateCode` draws. The record stays where the mail fails.
  unfoldable pub password_reset_otp_send : String → String → Accounts ℕ
  unfolding write_audit_log new_otp_record
  password_reset_otp_send code email = do
    found ← gets (λ db. orm.find_one Admin (λ a. str_eq a.email email) db.admins)
    admin ← or_throw found (not_found "Admin not found")
    write_audit_log env admin.id LogAction.forgot_password_otp
    insert_otp_record (
        new_otp_record env OtpPurpose.reset_password code
          (record { user_id = none; admin_id = some admin.id }) none 3)
    modify
        (λ db. record db { events = db.events ++ record { email = admin.email; code = code } ∷ [] })
    pure admin.id

  -- The code of a user is looked for first, then that of an admin. The checks of the code are those
  -- of `verify`, with the same messages.
  unfoldable pub verify_password_reset_otp_code : ℕ → String → Accounts (ℕ × String)
  unfolding verify
  verify_password_reset_otp_code id code = do
    of_user ← gets (λ db. orm.find_one OtpRecord (is_user_reset id) db.otp_records)
    of_admin ← gets (λ db. orm.find_one OtpRecord (is_admin_reset id) db.otp_records)
    r ←
        or_throw (elim of_user [ none ↦ of_admin | some u ↦ some u ])
          (bad_request "No pending otp verification found")
    _ ← verify env r code
    pure (id, lib.sign_reset id)

  unfoldable pub reset_password : String → String → Accounts (Unit {0})
  unfolding write_audit_log write_activity_log hash_password_if_needed
  reset_password token new_password = do
    throw_if (not (lib.verify_token env.now token))
        (unauthorized "Access token verification failed")
    claims ← or_throw (lib.decode token) (bad_request "Invalid reset password token")
    id ← or_throw claims.user_id (bad_request "Invalid reset password token")
    user ← gets (λ db. orm.find_one User (λ u. u.id == id) db.users)
    elim user [
      | none ↦ do
        found ← gets (λ db. orm.find_one Admin (λ a. a.id == id) db.admins)
        admin ← or_throw found (not_found "Account not found after token verification")
        throw_if (not (claims_reset claims)) (bad_request "Invalid access token type")
        modify (λ db. record db {
          admins =
              save (λ (a : Admin). a.id)
                (record admin { password = hash_password_if_needed lib new_password }) db.admins;
        })
        write_audit_log env admin.id LogAction.reset_password
      | some u ↦ do
        throw_if (not (claims_reset claims)) (not_found "Invalid access token type")
        modify (λ db. record db {
          users =
              save (λ (x : User). x.id)
                (record u { password = some (hash_password_if_needed lib new_password) }) db.users;
        })
        write_activity_log env u.id LogAction.reset_password
    ]

  unfoldable pub user_password_reset_otp_send : String → Accounts ℕ
  unfolding write_activity_log new_otp_record
  user_password_reset_otp_send phone = do
    found ← gets (λ db. orm.find_one User (λ u. str_eq u.phone phone) db.users)
    user ← or_throw found (not_found "User not found")
    write_activity_log env user.id LogAction.forgot_password_otp
    request_id ← or_throw (lib.send_sms user.phone) (internal "SMS provider failed")
    insert_otp_record (
        new_otp_record env OtpPurpose.reset_password "SMS_OTP"
          (record { user_id = some user.id; admin_id = none }) request_id 3)
    pure user.id

  -- The checks of a user's code that was found; the SMS provider compares the code.
  unfoldable pub check_sms_code : ℕ → String → OtpRecord → Accounts (ℕ × String)
  unfolding is_expired
  check_sms_code id code r =
      let tried : OtpRecord = record r { attempts = r.attempts + 1 } in
      if is_expired env.now (some r.expires_at)
      then save_otp_record (record r { status = OtpStatus.expired })
        >> throw (bad_request "Verification code expired")
      else if leb r.max_attempts r.attempts
      then save_otp_record (record r { status = OtpStatus.expired })
        >> throw (bad_request "Maximum verification attempts exceeded")
      else if elim r.request_id [
        | none ↦ false
        | some request ↦ not (str_eq request "") && lib.verify_sms request code
      ]
      then save_otp_record (record tried { status = OtpStatus.verified; code = code })
        >> pure (id, lib.sign_reset id)
      else save_otp_record tried >> throw (bad_request "Invalid verification code")

  unfoldable pub user_verify_password_reset_otp_code : ℕ → String → Accounts (ℕ × String)
  unfolding check_sms_code
  user_verify_password_reset_otp_code id code = do
    user ← gets (λ db. orm.find_one User (λ u. u.id == id) db.users)
    _ ← or_throw user (not_found "User not found")
    found ←
        gets (λ db.
          find_newest orm (λ (r : OtpRecord). r.created_at) (is_user_reset id) db.otp_records)
    r ← or_throw found (bad_request "Invalid verification code")
    check_sms_code id code r

  unfoldable pub user_reset_password : TokenLibraries → String → String → Accounts (Unit {0})
  unfolding write_activity_log hash_password_if_needed revoke_all_user_tokens
  user_reset_password tokens token new_password = do
    throw_if (not (lib.verify_token env.now token))
        (unauthorized "Access token verification failed")
    claims ← or_throw (lib.decode token) (bad_request "Invalid reset password token")
    id ← or_throw claims.user_id (bad_request "Invalid reset password token")
    throw_if (not (claims_reset claims)) (bad_request "Invalid reset password token")
    found ← gets (λ db. orm.find_one User (λ u. u.id == id) db.users)
    user ← or_throw found (not_found "Account not found after token verification")
    modify (λ db. record db {
      users =
          save (λ (x : User). x.id)
            (record user { password = some (hash_password_if_needed lib new_password) }) db.users;
    })
    revoke_all_user_tokens orm env tokens id true
    write_activity_log env user.id LogAction.reset_password
