-- ===== src/Auth/AdminAuth.antt =====
-- The login of admins (src/v1/auth/services/admin-auth.service.ts).
use hotel_booking_management.Auth.PasswordReset.{hash_password_if_needed, ResetLibraries}
use hotel_booking_management.Base.Exec.{
  ◌>>=◌, gets, ◌>>◌, pure, throw_if, or_throw, modify, unauthorized, not_found, bad_request,
}
use hotel_booking_management.Auth.State.{Accounts, write_audit_log}
use hotel_booking_management.Auth.TwoFactor.{
  validate_login_code, is_two_factor_enabled, send_verification_code, find_admin,
}
use hotel_booking_management.Auth.Token.{
  TokenLibraries, revoke_all_admin_tokens, generate_refresh_token, admin_payload,
}
use hotel_booking_management.Entities.{Surroundings, Admin, SubjectType, LogAction}
use hotel_booking_management.Base.Table.{Orm, update, save}
use hotel_booking_management.Base.{String, ℕ, Bool, Option, if◌then◌else◌, str_eq, not, ◌==◌, some}

-- The tokens that a login answers.
pub record LoginTokens : Type 0 where
  pub access_token : String
  pub refresh_token : String
  pub access_token_expires_at : ℕ
  pub refresh_token_expires_at : ℕ
  pub user_id : ℕ

-- What `adminLogin` answers: the tokens, or the admin whose code is asked for.
pub data LoginAnswer : Type 0 where
  logged_in : LoginTokens → LoginAnswer
  requires_two_factor : ℕ → LoginAnswer

-- `compare` is bcrypt's, and `token` the refresh token that the JWT library signs.
module _ (orm : Orm) (env : Surroundings) (lib : TokenLibraries) where
  unfoldable pub validate_admin_by_id : ℕ → Accounts (Option Admin)
  validate_admin_by_id id = gets (find_admin orm env id)

  unfoldable pub validate_admin : (String → String → Bool) → String → String → Accounts Admin
  validate_admin compare email password = do
    found ← gets (λ db. orm.find_one Admin (λ a. str_eq a.email email) db.admins)
    admin ← or_throw found (unauthorized "Invalid credentials")
    throw_if (not (compare password admin.password)) (unauthorized "Invalid password")
    pure admin

  unfoldable pub complete_admin_login : String → Admin → Accounts LoginTokens
  unfolding revoke_all_admin_tokens generate_refresh_token write_audit_log
  complete_admin_login token admin = do
    revoke_all_admin_tokens orm env lib admin.id
    refresh_token ← generate_refresh_token orm env lib token admin.id SubjectType.admin_subject
    modify (λ db. record db {
      admins =
          update (λ (a : Admin). a.id == admin.id) (λ a. record a { last_login_at = some env.now })
            db.admins;
    })
    write_audit_log env admin.id LogAction.login
    pure (record {
      access_token = lib.sign (admin_payload admin.id admin.id admin.role_id);
      refresh_token = refresh_token;
      access_token_expires_at = lib.jwt_expiration;
      refresh_token_expires_at = lib.jwt_refresh_expiration;
      user_id = admin.id;
    })

  -- `code` is what the two-factor service draws.
  unfoldable pub admin_login :
      (String → String → Bool) → String → String → String → String → Accounts LoginAnswer
  unfolding validate_admin is_two_factor_enabled send_verification_code complete_admin_login
  admin_login compare token code email password = do
    admin ← validate_admin compare email password
    enabled ← is_two_factor_enabled orm env admin.id
    if enabled
        then send_verification_code orm env code admin.id >> pure (requires_two_factor admin.id)
        else do
          found ← gets (find_admin orm env admin.id)
          full_admin ← or_throw found (unauthorized "Admin not found")
          tokens ← complete_admin_login token full_admin
          pure (logged_in tokens)

  unfoldable pub verify_two_factor_and_login : String → ℕ → String → Accounts LoginTokens
  unfolding validate_login_code complete_admin_login
  verify_two_factor_and_login token id code = do
    is_valid_code ← validate_login_code orm env id code
    throw_if (not is_valid_code) (unauthorized "Invalid or expired verification code")
    found ← gets (find_admin orm env id)
    admin ← or_throw found (unauthorized "Admin not found")
    complete_admin_login token admin

  unfoldable pub change_password :
      (String → String → Bool) → ResetLibraries → ℕ → String → String → Accounts (Unit {0})
  unfolding revoke_all_admin_tokens hash_password_if_needed write_audit_log
  change_password compare reset id current_password new_password = do
    found ← gets (find_admin orm env id)
    admin ← or_throw found (not_found "Admin not found")
    throw_if (not (compare current_password admin.password))
        (bad_request "Incorrect current password")
    modify (λ db. record db {
      admins =
          save (λ (a : Admin). a.id)
            (record admin { password = hash_password_if_needed reset new_password }) db.admins;
    })
    revoke_all_admin_tokens orm env lib id
    write_audit_log env admin.id LogAction.change_password
