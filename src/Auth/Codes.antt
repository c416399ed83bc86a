-- ===== src/Auth/Codes.antt =====
-- How often a one-time code can be tried.
use hotel_booking_management.Base.Query.{find_newest_sound}
use hotel_booking_management.Base.Table.{save, All-save, Orm, find_newest}
use hotel_booking_management.Base.Exec.{Result, ok, err, Exception}
use hotel_booking_management.Auth.TwoFactor.{verify_two_factor, check_code, is_two_factor}
use hotel_booking_management.Auth.Otp.{verify}
use hotel_booking_management.Entities.{OtpRecord, Surroundings, OtpStatus}
use hotel_booking_management.Auth.State.{AccountDb, is_expired, write_audit_log}
use hotel_booking_management.Base.{
  String, leb, str_eq, Bool-cases, All, ◌≤◌, ◌≡◌, some, true, false, ℕ, ◌<◌, arith, ◌≢◌, inl, In,
  ◌+◌, str_eq_iff, inr, sym, Option-cases, ◌⊎◌, ◌∙◌, refl, All-In,
}

abbrev pub saved : OtpRecord → AccountDb → AccountDb
saved r db = record db { otp_records = save (λ (x : OtpRecord). x.id) r db.otp_records }

-- What checking a code answers and leaves: a right code in time is VERIFIED, a wrong one is counted,
-- and a code that has expired or run out of attempts is EXPIRED.
abbrev pub Verified :
    Surroundings → OtpRecord → String → AccountDb → Result OtpRecord × AccountDb → Type 0
Verified env r code db (ok answer, db') =
    (is_expired env.now (some r.expires_at) ≡ false)
    × (r.attempts < r.max_attempts)
    × (r.code ≡ code)
    × (answer ≡ record r { attempts = r.attempts + 1; status = OtpStatus.verified })
    × (db' ≡ saved answer db)
Verified env r code db (err e, db') =
    (((is_expired env.now (some r.expires_at) ≡ true) ⊎ (r.max_attempts ≤ r.attempts))
      × (db' ≡ saved (record r { status = OtpStatus.expired }) db))
    ⊎ ((r.attempts < r.max_attempts)
        × (r.code ≢ code)
        × (db' ≡ saved (record r { attempts = r.attempts + 1 }) db))

exhausted : (r : OtpRecord) → leb r.max_attempts r.attempts ≡ true → r.max_attempts ≤ r.attempts
exhausted r h = ground arith

attempts_left :
    (r : OtpRecord) → leb r.max_attempts r.attempts ≡ false → r.attempts < r.max_attempts
attempts_left r h = ground arith

one_more : (r : OtpRecord) → leb r.max_attempts r.attempts ≡ false → r.attempts + 1 ≤ r.max_attempts
one_more r h = ground arith

wrong_code : (a b : String) → str_eq a b ≡ false → a ≢ b
wrong_code a b h e = let y = (str_eq_iff a b).1 e in cc (sym h ∙ y)

-- For every record and code: `verify` makes a right code VERIFIED if it is in time and has
-- attempts left, only counts a wrong one, and makes a code EXPIRED that is late or has no
-- attempts left; in each case that record is saved and nothing else changes.
pub verify-Verified :
    (env : Surroundings) (r : OtpRecord) (code : String) (db : AccountDb)
    → Verified env r code db (verify env r code db)
unfolding verify is_expired
verify-Verified env r code db = elim (Bool-cases (is_expired env.now (some r.expires_at))) [
  | inl late ↦ rw late (inl (inl late, refl))
  | inr valid ↦ rw valid (elim (Bool-cases (leb r.max_attempts r.attempts)) [
    | inl out ↦ rw out (inl (inr (exhausted r out), refl))
    | inr left ↦ rw left (elim (Bool-cases (str_eq r.code code)) [
      | inl right ↦
          rw right (valid, attempts_left r left, (str_eq_iff r.code code).0 right, refl, refl)
      | inr wrong ↦ rw wrong (inr (attempts_left r left, wrong_code r.code code wrong, refl))
    ])
  ])
]

-- No code has been tried more often than it may be.
abbrev pub IsBounded : AccountDb → Type 0
IsBounded db = All (λ r. r.attempts ≤ r.max_attempts) db.otp_records

IsBounded-saved :
    (r : OtpRecord) (db : AccountDb)
    → r.attempts ≤ r.max_attempts
    → IsBounded db
    → IsBounded (saved r db)
IsBounded-saved r db h hs =
    All-save (λ r. r.attempts ≤ r.max_attempts) (λ (x : OtpRecord). x.id) r db.otp_records h hs

-- If no code has been tried too often, none has after a code that an admin has been sent is checked.
pub verify_two_factor-IsBounded :
    (orm : Orm) (env : Surroundings) (admin_id : ℕ) (code : String) (db : AccountDb)
    → IsBounded db
    → IsBounded (verify_two_factor orm env admin_id code db).1
unfolding verify_two_factor check_code write_audit_log is_expired
verify_two_factor-IsBounded orm env admin_id code db h =
    let p = is_two_factor admin_id OtpStatus.pending in
    elim (Option-cases (find_newest orm (λ (r : OtpRecord). r.created_at) p db.otp_records)) [
      | inl e ↦ rw e h
      | inr (r, e) ↦
          let (m, found) =
            find_newest_sound orm (λ (r : OtpRecord). r.created_at) p db.otp_records r e in
          let was = All-In (λ (r : OtpRecord). r.attempts ≤ r.max_attempts) db.otp_records h m in
          rw e (elim (Bool-cases (is_expired env.now (some r.expires_at))) [
            | inl late ↦
                rw late (IsBounded-saved (record r { status = OtpStatus.expired }) db was h)
            | inr valid ↦ rw valid (elim (Bool-cases (leb r.max_attempts r.attempts)) [
              | inl out ↦
                  rw out (IsBounded-saved (record r { status = OtpStatus.expired }) db was h)
              | inr left ↦ rw left (elim (Bool-cases (str_eq r.code code)) [
                | inl right ↦ rw right (
                    (IsBounded-saved
                      (record r { attempts = r.attempts + 1; status = OtpStatus.verified }) db
                      (one_more r left) h))
                | inr wrong ↦ rw wrong (
                    IsBounded-saved (record r { attempts = r.attempts + 1 }) db (one_more r left) h)
              ])
            ])
          ])
    ]

-- If all pending codes of an admin have run out of attempts, no code enables two-factor
-- authentication: the call throws, and the admins are unchanged.
pub verify_two_factor_exhausted :
    (orm : Orm) (env : Surroundings) (admin_id : ℕ) (code : String) (db : AccountDb)
    → ((r : OtpRecord)
        → In r db.otp_records
        → is_two_factor admin_id OtpStatus.pending r ≡ true
        → r.max_attempts ≤ r.attempts)
    → let (r, db') = verify_two_factor orm env admin_id code db in
      ((e : Exception) × (r ≡ err e)) × (db'.admins ≡ db.admins)
unfolding verify_two_factor check_code is_expired
verify_two_factor_exhausted orm env admin_id code db h =
    let p = is_two_factor admin_id OtpStatus.pending in
    elim (Option-cases (find_newest orm (λ (r : OtpRecord). r.created_at) p db.otp_records)) [
      | inl e ↦ rw e ((_, refl), refl)
      | inr (r, e) ↦
          let (m, found) =
            find_newest_sound orm (λ (r : OtpRecord). r.created_at) p db.otp_records r e in
          let out : leb r.max_attempts r.attempts ≡ true = is_out r (h r m found) in
          rw e (elim (Bool-cases (is_expired env.now (some r.expires_at))) [
            | inl late ↦ rw late ((_, refl), refl)
            | inr valid ↦ rw (valid, out) ((_, refl), refl)
          ])
    ]
  where
    is_out : (r : OtpRecord) → r.max_attempts ≤ r.attempts → leb r.max_attempts r.attempts ≡ true
    is_out r h = ground arith
