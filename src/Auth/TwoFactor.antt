-- ===== src/Auth/TwoFactor.antt =====
-- Two-factor authentication of admins (src/v1/auth/services/two-factor.service.ts).
use hotel_booking_management.Base.Exec.{
  ◌>>=◌, ◌>>◌, modify, gets, or_throw, pure, bad_request, throw_if, throw, unauthorized,
}
use hotel_booking_management.Auth.State.{AccountDb, write_audit_log, is_expired, Accounts}
use hotel_booking_management.Entities.{
  OtpStatus, Surroundings, OtpRecord, Admin, same_otp_purpose, OtpPurpose, same_otp_status,
  LogAction,
}
use hotel_booking_management.Base.Table.{Orm, update, find_newest}
use hotel_booking_management.Auth.Otp.{new_otp_record, insert_otp_record, save_otp_record}
use hotel_booking_management.Base.{
  ℕ, Bool, String, is_owner, Option, ◌+◌, ◌&&◌, ◌==◌, if◌then◌else◌, some, str_eq, none, ◌++◌,
  false, ◌∷◌, not, leb, is_some, [], true,
}

-- `{ adminId, purpose: TWO_FACTOR, status }`
abbrev pub is_two_factor : ℕ → OtpStatus → OtpRecord → Bool
is_two_factor admin_id status r =
    is_owner r.admin_id admin_id
    && (same_otp_purpose r.purpose OtpPurpose.two_factor && same_otp_status r.status status)

-- A new code: its record is saved and the mail requested.
unfoldable pub request_code : Surroundings → Admin → ℕ → String → Accounts (Unit {0})
unfolding new_otp_record
request_code env admin admin_id code = do
  insert_otp_record (
      new_otp_record env OtpPurpose.two_factor code
        (record { user_id = none; admin_id = some admin_id }) none 3)
  modify
      (λ db. record db { events = db.events ++ record { email = admin.email; code = code } ∷ [] })

-- `bcrypt.compare` and `crypto.randomInt` are libraries: `compare` is the first, `code` what the
-- second draws.
module _ (orm : Orm) (env : Surroundings) where
  abbrev pub find_admin : ℕ → AccountDb → Option Admin
  find_admin id db = orm.find_one Admin (λ a. a.id == id) db.admins

  abbrev pub set_two_factor : ℕ → Bool → Accounts (Unit {0})
  set_two_factor id enabled = modify (λ db. record db {
    admins =
        update (λ (a : Admin). a.id == id) (λ a. record a { is_two_factor_enabled = enabled })
          db.admins;
  })

  unfoldable pub enable_two_factor : String → ℕ → String → Accounts (Unit {0})
  unfolding request_code write_audit_log
  enable_two_factor code admin_id email = do
    found ← gets (find_admin admin_id)
    admin ← or_throw found (bad_request "User not found")
    throw_if (not (str_eq admin.email email)) (bad_request "Email does not match user account")
    request_code env admin admin_id code
    write_audit_log env admin_id LogAction.enable_two_factor

  -- The checks of a code that was found.
  unfoldable pub check_code : ℕ → String → OtpRecord → Accounts Bool
  unfolding is_expired write_audit_log
  check_code admin_id code r =
      let tried : OtpRecord = record r { attempts = r.attempts + 1 } in
      if is_expired env.now (some r.expires_at)
      then save_otp_record (record r { status = OtpStatus.expired })
        >> throw (bad_request "Verification code has expired")
      else if leb r.max_attempts r.attempts
      then save_otp_record (record r { status = OtpStatus.expired })
        >> throw (bad_request "Maximum verification attempts exceeded")
      else if not (str_eq r.code code)
      then save_otp_record tried >> throw (bad_request "Invalid verification code")
      else do
        save_otp_record (record tried { status = OtpStatus.verified })
        set_two_factor admin_id true
        write_audit_log env admin_id LogAction.verify_two_factor
        pure true

  unfoldable pub verify_two_factor : ℕ → String → Accounts Bool
  unfolding check_code
  verify_two_factor admin_id code = do
    found ← gets (λ db.
        find_newest orm (λ r. r.created_at) (is_two_factor admin_id OtpStatus.pending)
          db.otp_records)
    r ← or_throw found (bad_request "No pending two-factor authentication code found")
    check_code admin_id code r

  unfoldable pub disable_two_factor : (String → String → Bool) → ℕ → String → Accounts (Unit {0})
  unfolding write_audit_log
  disable_two_factor compare admin_id password = do
    found ← gets (find_admin admin_id)
    admin ← or_throw found (bad_request "User not found")
    throw_if (str_eq password "") (bad_request "Password is required to disable 2FA")
    throw_if (not (compare password admin.password)) (unauthorized "Password does not match")
    modify (λ db. record db {
      otp_records =
          update (is_two_factor admin_id OtpStatus.verified)
            (λ r. record r { status = OtpStatus.expired }) db.otp_records;
    })
    set_two_factor admin_id false
    write_audit_log env admin_id LogAction.disable_two_factor

  unfoldable pub send_verification_code : String → ℕ → Accounts (Unit {0})
  unfolding request_code
  send_verification_code code admin_id = do
    found ← gets (find_admin admin_id)
    admin ← or_throw found (bad_request "User not found")
    existing ←
        gets
          (λ db. orm.find_one OtpRecord (is_two_factor admin_id OtpStatus.verified) db.otp_records)
    throw_if (is_some existing) (bad_request "Two-factor verification code is already sent")
    request_code env admin admin_id code

  -- A record is found by its code, so the comparison that follows never fails.
  unfoldable pub validate_login_code : ℕ → String → Accounts Bool
  unfolding is_expired
  validate_login_code admin_id code = do
    found ← gets (λ db.
        orm.find_one OtpRecord
          (λ r. is_two_factor admin_id OtpStatus.pending r && str_eq r.code code) db.otp_records)
    elim found [
      | none ↦ pure false
      | some r ↦
          let tried : OtpRecord = record r { attempts = r.attempts + 1 } in
          if is_expired env.now (some r.expires_at)
          then save_otp_record (record r { status = OtpStatus.expired }) >> pure false
          else if leb r.max_attempts r.attempts
          then save_otp_record (record r { status = OtpStatus.expired }) >> pure false
          else if not (str_eq r.code code)
          then save_otp_record tried >> pure false
          else save_otp_record (record tried { status = OtpStatus.used }) >> pure true
    ]

  unfoldable pub is_two_factor_enabled : ℕ → Accounts Bool
  is_two_factor_enabled admin_id = do
    found ← gets (find_admin admin_id)
    pure (elim found [ none ↦ false | some a ↦ a.is_two_factor_enabled ])
