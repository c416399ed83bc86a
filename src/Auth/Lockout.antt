-- ===== src/Auth/Lockout.antt =====
-- What becomes of the codes of an admin who uses two-factor authentication.
use hotel_booking_management.Auth.Otp.{new_otp_record}
use hotel_booking_management.Base.Query.{find_some, find_newest_sound, find_none}
use hotel_booking_management.Base.Exec.{ok, Exception, err, Result}
use hotel_booking_management.Auth.State.{write_audit_log, AccountDb, is_expired, add_minutes}
use hotel_booking_management.Auth.TwoFactor.{
  verify_two_factor, check_code, send_verification_code, validate_login_code, is_two_factor,
  request_code, disable_two_factor, find_admin,
}
use hotel_booking_management.Base.{
  ℕ, ◌+◌, String, List, All, ◌≡◌, Bool, true, false, In, arith, ◌≢◌, Option-cases, ◌∷◌, some, ◌&&◌,
  Bool-cases, inl, str_eq, inr, leb, str_eq_iff, refl, [], All-imp, ◌++◌, All-In, sym, ◌∙◌, In-All,
  none,
}
use hotel_booking_management.Entities.{Surroundings, OtpRecord, OtpStatus, Admin, OtpPurpose}
use hotel_booking_management.Base.Table.{Orm, update, In-save_self, find_newest}

-- No code of the admin has been verified in the rows after, that was not among the rows before.
abbrev pub NoneVerifiedSince : ℕ → List OtpRecord → List OtpRecord → Type 0
NoneVerifiedSince admin_id before after =
    (r : OtpRecord) → In r after → is_two_factor admin_id OtpStatus.verified r ≡ true → In r before

-- The call succeeds: a pending record of the code is added for the admin, with the time limit and
-- the attempts of a new one, and a mail of the code to the admin's address is requested.
abbrev pub CodeSent :
    Surroundings → Admin → ℕ → String → AccountDb → Result (Unit {0}) × AccountDb → Type 0
CodeSent later a admin_id code db (answer, db') =
    (answer ≡ ok tt)
    × ((r : OtpRecord) × (db'.otp_records ≡ db.otp_records ++ r ∷ [])
        × (is_two_factor admin_id OtpStatus.pending r ≡ true)
        × (r.code ≡ code)
        × (r.attempts ≡ 0)
        × (is_expired later.now (some r.expires_at) ≡ false))
    × (db'.events ≡ db.events ++ record { email = a.email; code = code } ∷ [])

module _ (orm : Orm) (env : Surroundings) where
  abbrev verified_now : OtpRecord → OtpRecord
  verified_now r = record r { attempts = r.attempts + 1; status = OtpStatus.verified }

  -- A code that passes is saved as VERIFIED.
  passed_code :
      (admin_id : ℕ) (code : String) (r : OtpRecord) (db : AccountDb)
      → (check_code orm env admin_id code r db).0 ≡ ok true
      → In (verified_now r) (check_code orm env admin_id code r db).1.otp_records
  unfolding check_code write_audit_log
  passed_code admin_id code r db h =
      let there = In-save_self (λ (x : OtpRecord). x.id) (verified_now r) db.otp_records in
      elim (Bool-cases (is_expired env.now (some r.expires_at))) [
        | inl late ↦ absurd (cc (rw late at h))
        | inr valid ↦ elim (Bool-cases (leb r.max_attempts r.attempts)) [
          | inl out ↦ absurd (cc (rw (valid, out) at h))
          | inr left ↦ elim (Bool-cases (str_eq r.code code)) [
            | inr wrong ↦ absurd (cc (rw (valid, left, wrong) at h))
            | inl right ↦ rw (valid, left, right) there
          ]
        ]
      ]

  turned :
      (admin_id : ℕ) (r : OtpRecord)
      → is_two_factor admin_id OtpStatus.pending r ≡ true
      → is_two_factor admin_id OtpStatus.verified (verified_now r) ≡ true
  turned admin_id r h = ground arith

  leaves_verified :
      (admin_id : ℕ) (code : String) (db : AccountDb)
      → (verify_two_factor orm env admin_id code db).0 ≡ ok true
      → (r : OtpRecord) × In r (verify_two_factor orm env admin_id code db).1.otp_records
        × (is_two_factor admin_id OtpStatus.verified r ≡ true)
  unfolding verify_two_factor
  leaves_verified admin_id code db h =
      let p = is_two_factor admin_id OtpStatus.pending in
      let created : OtpRecord → ℕ = λ r. r.created_at in
      elim (Option-cases (find_newest orm created p db.otp_records)) [
        | inl e ↦ absurd (cc (rw e at h))
        | inr (r, e) ↦
            let (m, found) = find_newest_sound orm created p db.otp_records r e in
            rw e
              (verified_now r, passed_code admin_id code r db (rw e at h), turned admin_id r found)
      ]

  -- Once an admin has enabled two-factor authentication with a code, no code for a login is sent: the
  -- call throws at any time, and nothing changes.
  pub verify_two_factor_locks_out :
      (later : Surroundings) (admin_id : ℕ) (code next : String) (db : AccountDb)
      → (verify_two_factor orm env admin_id code db).0 ≡ ok true
      → let db' = (verify_two_factor orm env admin_id code db).1 in
        (e : Exception) × (send_verification_code orm later next admin_id db' ≡ (err e, db'))
  unfolding send_verification_code
  verify_two_factor_locks_out later admin_id code next db h =
      let db' = (verify_two_factor orm env admin_id code db).1 in
      let (r, m, verified) = leaves_verified admin_id code db h in
      let p = is_two_factor admin_id OtpStatus.verified in
      let (b, found) = find_some orm p r db'.otp_records m verified in
      elim (Option-cases (find_admin orm later admin_id db')) [
        | inl e ↦ rw e (_, refl)
        | inr (a, e) ↦ rw (e, found) (_, refl)
      ]

  none_verified :
      (admin_id : ℕ) (rows : List OtpRecord)
      → All
          (λ r. is_two_factor admin_id OtpStatus.verified r ≡ false)
          (update
            (is_two_factor admin_id OtpStatus.verified)
            (λ r. record r { status = OtpStatus.expired })
            rows)
  none_verified admin_id [] = tt
  none_verified admin_id (r ∷ rs) =
      elim (Bool-cases (is_two_factor admin_id OtpStatus.verified r)) [
        | inl e ↦ rw e (ground arith, none_verified admin_id rs)
        | inr e ↦ rw e (e, none_verified admin_id rs)
      ]

  -- After two-factor authentication has been disabled with success: in every later state in which no
  -- code of the admin has been verified since, and for an admin that the query finds there, a request
  -- for a login code succeeds, adds a pending record of that code for the admin that is not expired,
  -- and requests one mail of it to the admin's address.
  pub disable_two_factor_unlocks :
      (later : Surroundings) (compare : String → String → Bool) (admin_id : ℕ)
      (password next : String) (a : Admin) (db now : AccountDb)
      → (disable_two_factor orm env compare admin_id password db).0 ≡ ok tt
      → NoneVerifiedSince admin_id
          (disable_two_factor orm env compare admin_id password db).1.otp_records
          now.otp_records
      → find_admin orm later admin_id now ≡ some a
      → CodeSent later a admin_id next now (send_verification_code orm later next admin_id now)
  unfolding send_verification_code request_code disable_two_factor write_audit_log new_otp_record
      add_minutes is_expired
  disable_two_factor_unlocks later compare admin_id password next a db now h since found =
      let db' = (disable_two_factor orm env compare admin_id password db).1 in
      let none_now : (r : OtpRecord)
          → In r now.otp_records
          → is_two_factor admin_id OtpStatus.verified r ≡ false =
        λ r m. elim (Bool-cases (is_two_factor admin_id OtpStatus.verified r)) [
          | inr e ↦ e
          | inl e ↦
              let clean =
                All-In (λ x. is_two_factor admin_id OtpStatus.verified x ≡ false) db'.otp_records
                  (cleared h) (since r m e) in
              absurd (cc (sym e ∙ clean))
        ] in
      let clean =
        find_none orm (is_two_factor admin_id OtpStatus.verified) now.otp_records
          (In-All now.otp_records none_now) in
      rw (found, clean)
        (
          refl,
          (
            new_otp_record later OtpPurpose.two_factor next
                (record { user_id = none; admin_id = some admin_id }) none 3,
            refl,
            ground arith,
            refl,
            refl,
            ground arith,
          ),
          refl,
        )
    where
      cleared :
          (disable_two_factor orm env compare admin_id password db).0 ≡ ok tt
          → All
              (λ r. is_two_factor admin_id OtpStatus.verified r ≡ false)
              (disable_two_factor orm env compare admin_id password db).1.otp_records
      cleared h = elim (Option-cases (find_admin orm env admin_id db)) [
        | inl e ↦ absurd (cc (rw e at h))
        | inr (b, e) ↦ elim (Bool-cases (str_eq password "")) [
          | inl empty ↦ absurd (cc (rw (e, empty) at h))
          | inr given ↦ elim (Bool-cases (compare password b.password)) [
            | inr wrong ↦ absurd (cc (rw (e, given, wrong) at h))
            | inl right ↦ rw (e, given, right) (none_verified admin_id db.otp_records)
          ]
        ]
      ]

  -- A login code that no pending record of the admin has changes nothing, so wrong codes are not
  -- counted.
  pub validate_login_code_uncounted :
      (admin_id : ℕ) (code : String) (db : AccountDb)
      → All (λ r. is_two_factor admin_id OtpStatus.pending r ≡ true → r.code ≢ code) db.otp_records
      → validate_login_code orm env admin_id code db ≡ (ok false, db)
  unfolding validate_login_code
  validate_login_code_uncounted admin_id code db h =
      let p : OtpRecord → Bool =
        λ r. is_two_factor admin_id OtpStatus.pending r && str_eq r.code code in
      let none_there =
        All-imp (λ r. is_two_factor admin_id OtpStatus.pending r ≡ true → r.code ≢ code)
          (λ r. p r ≡ false) db.otp_records (λ r ne. unmatched r ne) h in
      rw (find_none orm p db.otp_records none_there) refl
    where
      unmatched :
          (r : OtpRecord)
          → (is_two_factor admin_id OtpStatus.pending r ≡ true → r.code ≢ code)
          → (is_two_factor admin_id OtpStatus.pending r && str_eq r.code code) ≡ false
      unmatched r ne = elim (Bool-cases (is_two_factor admin_id OtpStatus.pending r)) [
        | inr e ↦ rw e refl
        | inl e ↦ elim (Bool-cases (str_eq r.code code)) [
          | inr d ↦ rw (e, d) refl
          | inl s ↦ absurd (ne e ((str_eq_iff r.code code).0 s))
        ]
      ]
