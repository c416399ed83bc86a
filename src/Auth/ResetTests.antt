-- ===== src/Auth/ResetTests.antt =====
-- The reset of passwords and the login of admins at the small database.
use hotel_booking_management.Auth.Login.{admin_login_locked_out}
use hotel_booking_management.Auth.AdminAuth.{admin_login}
use hotel_booking_management.Base.Exec.{Exception, ok, err}
use hotel_booking_management.Entities.{Admin}
use hotel_booking_management.Auth.Samples.{accounts, lib, session, clerk, compare, guest, reset_lib}
use hotel_booking_management.Samples.{env}
use hotel_booking_management.Base.{str_eq, some, ◌≡◌, false, true, refl, arith}
use hotel_booking_management.Base.Table.{scan_order}
use hotel_booking_management.Auth.Reset.{Reset, user_reset_password-Reset, sms_code_bypass}
use hotel_booking_management.Auth.TwoFactor.{verify_two_factor, check_code}
use hotel_booking_management.Auth.State.{is_expired, write_audit_log}
use hotel_booking_management.Auth.PasswordReset.{
  user_password_reset_otp_send, user_reset_password, verify_password_reset_otp_code,
}

sms_code_bypass_example :
    let (r, db) = user_password_reset_otp_send scan_order env reset_lib "0911" accounts in
    (r ≡ ok 7)
    × ((verify_password_reset_otp_code scan_order env reset_lib 7 "SMS_OTP" db).0 ≡ ok (7, "reset"))
sms_code_bypass_example =
    sms_code_bypass scan_order env reset_lib env "0911" guest (some "request") accounts refl refl
      (refl, tt) (omega arith)

user_reset_password-Reset_example :
    Reset scan_order env reset_lib "reset" "new" accounts
      (user_reset_password scan_order env reset_lib lib "reset" "new" accounts)
user_reset_password-Reset_example =
    user_reset_password-Reset scan_order env reset_lib lib "reset" "new" accounts

session_is_live : is_expired env.now session.expires_at ≡ false
unfolding is_expired
session_is_live = refl

enables : (verify_two_factor scan_order env 1 "123456" accounts).0 ≡ ok true
unfolding verify_two_factor check_code is_expired write_audit_log
enables = refl

finds_clerk :
    scan_order.find_one Admin
      (λ x. str_eq x.email "clerk@hotel")
      (verify_two_factor scan_order env 1 "123456" accounts).1.admins
    ≡ some (record clerk { is_two_factor_enabled = true })
unfolding verify_two_factor check_code is_expired write_audit_log
finds_clerk = refl

admin_login_locked_out_example :
    let db = (verify_two_factor scan_order env 1 "123456" accounts).1 in
    (e : Exception) × (admin_login scan_order env lib compare "b" "654321" "clerk@hotel" "secret" db
      ≡ (err e, db))
admin_login_locked_out_example =
    admin_login_locked_out scan_order env env lib compare "b" "123456" "654321" "clerk@hotel"
      "secret" clerk accounts enables finds_clerk
