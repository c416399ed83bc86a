-- ===== src/Auth/Tests.antt =====
-- The account services at a small database.
use hotel_booking_management.Auth.Samples.{
  compare, accounts, lib, sent_code, tried_out, guest, clerk, enabled,
}
use hotel_booking_management.Auth.Issued.{refresh_access_token-generate_refresh_token}
use hotel_booking_management.Auth.Lockout.{disable_two_factor_unlocks, CodeSent}
use hotel_booking_management.Auth.Otp.{verify}
use hotel_booking_management.Base.Exec.{ok, err, unauthorized}
use hotel_booking_management.Base.Table.{scan_order}
use hotel_booking_management.Samples.{env}
use hotel_booking_management.Auth.Codes.{
  Verified, IsBounded, verify_two_factor-IsBounded, verify-Verified,
}
use hotel_booking_management.Auth.State.{is_expired, write_audit_log, add_days, AccountDb}
use hotel_booking_management.Auth.TwoFactor.{
  verify_two_factor, disable_two_factor, send_verification_code, check_code, is_two_factor,
  find_admin,
}
use hotel_booking_management.Entities.{OtpRecord, OtpStatus, SubjectType}
use hotel_booking_management.Auth.Token.{
  refresh_access_token, generate_refresh_token, revoke_all_user_tokens, access_of, answer_of,
  user_payload,
}
use hotel_booking_management.Auth.Sessions.{
  Refreshed, refresh_access_token-Refreshed, revoke_all_user_tokens_refuses,
}
use hotel_booking_management.Base.{
  ◌≢◌, false, some, if◌then◌else◌, In, arith, ◌≡◌, true, leb, ◌≤◌, refl, inl, inr, str_eq_iff,
}

refresh_sample :
    (refresh_access_token scan_order env lib "a" accounts).0
    ≡ ok (record { access_token = "jwt"; access_token_expires_at = 900000; user_id = 7 })
unfolding refresh_access_token access_of is_expired
refresh_sample = refl

revoke_all_user_tokens_refuses_example :
    let db = (revoke_all_user_tokens scan_order env lib 7 true accounts).1 in
    refresh_access_token scan_order env lib "a" db
    ≡ (err (unauthorized "Invalid or expired refresh token"), db)
revoke_all_user_tokens_refuses_example =
    revoke_all_user_tokens_refuses scan_order env lib env 7 true "a" accounts ((λ h. refl), tt)

refresh_access_token-Refreshed_example :
    Refreshed scan_order env lib "a" accounts (refresh_access_token scan_order env lib "a" accounts)
refresh_access_token-Refreshed_example =
    refresh_access_token-Refreshed scan_order env lib "a" accounts

refresh_access_token-generate_refresh_token_example :
    let db =
      (generate_refresh_token scan_order env lib "b" 7 SubjectType.user_subject accounts).1 in
    (refresh_access_token scan_order env lib "b" db).0 ≡ (
      if leb 1000 (add_days 30 1000)
      then ok (answer_of scan_order env lib (user_payload 7 7) 7)
      else err (unauthorized "Expired refresh token"))
refresh_access_token-generate_refresh_token_example =
    refresh_access_token-generate_refresh_token scan_order env lib env "b" guest accounts (inl refl)
      (refl, tt)

verify-Verified_example :
    Verified env sent_code "123456" accounts (verify env sent_code "123456" accounts)
verify-Verified_example = verify-Verified env sent_code "123456" accounts

accounts-IsBounded : IsBounded accounts
accounts-IsBounded = omega arith

verify_two_factor-IsBounded_example :
    IsBounded (verify_two_factor scan_order env 1 "123456" accounts).1
verify_two_factor-IsBounded_example =
    verify_two_factor-IsBounded scan_order env 1 "123456" accounts accounts-IsBounded

all_tried_out :
    (r : OtpRecord)
    → In r tried_out.otp_records
    → is_two_factor 1 OtpStatus.pending r ≡ true
    → r.max_attempts ≤ r.attempts
all_tried_out r (inl e) h = rw e (omega arith)
all_tried_out r (inr m) h = elim m [ ]

enables : (verify_two_factor scan_order env 1 "123456" accounts).0 ≡ ok true
unfolding verify_two_factor check_code is_expired write_audit_log
enables = refl

disables : (disable_two_factor scan_order env compare 1 "secret" enabled).0 ≡ ok tt
unfolding disable_two_factor write_audit_log
disables = refl

abbrev disabled : AccountDb
disabled = (disable_two_factor scan_order env compare 1 "secret" enabled).1

clerk_stays :
    find_admin scan_order env 1 (disable_two_factor scan_order env compare 1 "secret" enabled).1
    ≡ some clerk
unfolding disable_two_factor write_audit_log
clerk_stays = refl

disable_two_factor_unlocks_example :
    CodeSent env clerk 1 "654321" disabled
      (send_verification_code scan_order env "654321" 1 disabled)
disable_two_factor_unlocks_example =
    disable_two_factor_unlocks scan_order env env compare 1 "secret" "654321" clerk enabled disabled
      disables (λ r m h. m) clerk_stays

other_code : sent_code.code ≢ "111111"
other_code h = (let y : false ≡ true = (str_eq_iff sent_code.code "111111").1 h in cc y)
