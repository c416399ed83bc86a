-- ===== src/Auth/Login.antt =====
-- The login of an admin who uses two-factor authentication.
use hotel_booking_management.Auth.Lockout.{verify_two_factor_locks_out}
use hotel_booking_management.Base.Exec.{ok, Exception, err}
use hotel_booking_management.Auth.Token.{TokenLibraries}
use hotel_booking_management.Auth.State.{write_audit_log, AccountDb, is_expired}
use hotel_booking_management.Auth.AdminAuth.{admin_login, validate_admin}
use hotel_booking_management.Auth.TwoFactor.{
  check_code, verify_two_factor, is_two_factor_enabled, is_two_factor, find_admin,
}
use hotel_booking_management.Base.{
  ℕ, List, String, ◌==◌, All, ◌≡◌, true, Bool, ◌∷◌, Bool-cases, str_eq, inl, some, inr,
  Option-cases, sym, leb, ◌∙◌, [], All-In, refl,
}
use hotel_booking_management.Entities.{Surroundings, Admin, OtpRecord, OtpStatus}
use hotel_booking_management.Base.Table.{Orm, update, find_newest}

module _ (orm : Orm) (env : Surroundings) where
  abbrev IsEnabledFor : ℕ → Admin → Type 0
  IsEnabledFor id a = (a.id == id) ≡ true → a.is_two_factor_enabled ≡ true

  enable_lem :
      (id : ℕ) (admins : List Admin)
      → All (IsEnabledFor id) (
          update
            (λ (a : Admin). a.id == id)
            (λ a. record a { is_two_factor_enabled = true })
            admins)
  enable_lem id [] = tt
  enable_lem id (a ∷ rest) = elim (Bool-cases (a.id == id)) [
    | inl e ↦ rw e ((λ _. refl), enable_lem id rest)
    | inr e ↦ rw e ((λ same. absurd (cc (sym e ∙ same))), enable_lem id rest)
  ]

  code_enables :
      (id : ℕ) (code : String) (r : OtpRecord) (db : AccountDb)
      → (check_code orm env id code r db).0 ≡ ok true
      → All (IsEnabledFor id) (check_code orm env id code r db).1.admins
  unfolding check_code write_audit_log
  code_enables id code r db h = elim (Bool-cases (is_expired env.now (some r.expires_at))) [
    | inl late ↦ absurd (cc (rw late at h))
    | inr valid ↦ elim (Bool-cases (leb r.max_attempts r.attempts)) [
      | inl out ↦ absurd (cc (rw (valid, out) at h))
      | inr left ↦ elim (Bool-cases (str_eq r.code code)) [
        | inr wrong ↦ absurd (cc (rw (valid, left, wrong) at h))
        | inl right ↦ rw (valid, left, right) (enable_lem id db.admins)
      ]
    ]
  ]

  verify_enables :
      (id : ℕ) (code : String) (db : AccountDb)
      → (verify_two_factor orm env id code db).0 ≡ ok true
      → All (IsEnabledFor id) (verify_two_factor orm env id code db).1.admins
  unfolding verify_two_factor
  verify_enables id code db h =
      let p = is_two_factor id OtpStatus.pending in
      elim (Option-cases (find_newest orm (λ (r : OtpRecord). r.created_at) p db.otp_records)) [
        | inl e ↦ absurd (cc (rw e at h))
        | inr (r, e) ↦ rw e (code_enables id code r db (rw e at h))
      ]

  -- An admin who has enabled two-factor authentication with a code cannot log in any more: if the
  -- query by e-mail finds that admin, the login throws at any time and with any password, and nothing
  -- changes.
  pub admin_login_locked_out :
      (later : Surroundings) (lib : TokenLibraries) (compare : String → String → Bool)
      (token code next email password : String) (a : Admin) (db : AccountDb)
      → (verify_two_factor orm env a.id code db).0 ≡ ok true
      → let db' = (verify_two_factor orm env a.id code db).1 in
        orm.find_one Admin (λ x. str_eq x.email email) db'.admins
          ≡ some (record a { is_two_factor_enabled = true })
        → (e : Exception) × (admin_login orm later lib compare token next email password db'
            ≡ (err e, db'))
  unfolding admin_login validate_admin is_two_factor_enabled
  admin_login_locked_out later lib compare token code next email password a db h found =
      let db' = (verify_two_factor orm env a.id code db).1 in
      let (refusal, refused) = verify_two_factor_locks_out orm env later a.id code next db h in
      elim (Bool-cases (compare password a.password)) [
        | inr wrong ↦ rw (found, wrong) (_, refl)
        | inl right ↦ elim (Option-cases (find_admin orm later a.id db')) [
          | inl gone ↦ rw (found, right, gone, gone) (_, refl)
          | inr (b, e) ↦
              let (m, same) = orm.find_one_sound Admin (λ x. x.id == a.id) db'.admins b e in
              let enabled =
                All-In (IsEnabledFor a.id) db'.admins (verify_enables a.id code db h) m same in
              rw (found, right, e, enabled, refused) (refusal, refl)
        ]
      ]
