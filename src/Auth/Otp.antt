-- ===== src/Auth/Otp.antt =====
-- One-time codes (src/v1/otp/services/otp.service.ts).
use hotel_booking_management.Base.Exec.{gets, modify, ◌>>◌, pure, throw, bad_request}
use hotel_booking_management.Auth.State.{
  is_expired, add_minutes, Accounts, otp_ttl_minutes, a_week_before,
}
use hotel_booking_management.Base.{
  Option, ℕ, String, Bool, true, some, ◌+◌, is_owner, ◌++◌, ◌&&◌, if◌then◌else◌, none, ◌∷◌, [],
  ◌||◌, leb, ltb, not, str_eq,
}
use hotel_booking_management.Entities.{
  Surroundings, OtpPurpose, OtpRecord, OtpStatus, same_otp_purpose, same_otp_status,
}
use hotel_booking_management.Base.Table.{Orm, save, find_newest, delete, update}

-- Whose code it is: the account that the caller names, if any.
pub record CodeOwner : Type 0 where
  pub user_id : Option ℕ
  pub admin_id : Option ℕ

-- `...(id ? { id } : {})`: an identifier that is not given is not asked for.
abbrev pub asked_for : Option ℕ → Option ℕ → Bool
asked_for none column = true
asked_for (some i) column = is_owner column i

unfoldable pub new_otp_record :
    Surroundings → OtpPurpose → String → CodeOwner → Option String → ℕ → OtpRecord
unfolding add_minutes
new_otp_record env purpose code owner request_id max_attempts = record {
  id = env.fresh_id 0;
  user_id = owner.user_id;
  admin_id = owner.admin_id;
  status = OtpStatus.pending;
  purpose = purpose;
  code = code;
  expires_at = add_minutes otp_ttl_minutes env.now;
  request_id = request_id;
  attempts = 0;
  max_attempts = max_attempts;
  created_at = env.now;
}

abbrev pub insert_otp_record : OtpRecord → Accounts (Unit {0})
insert_otp_record r = modify (λ db. record db { otp_records = db.otp_records ++ r ∷ [] })

abbrev pub save_otp_record : OtpRecord → Accounts (Unit {0})
save_otp_record r =
    modify (λ db. record db { otp_records = save (λ (x : OtpRecord). x.id) r db.otp_records })

abbrev ttl_or_default : Option ℕ → ℕ
ttl_or_default none = otp_ttl_minutes
ttl_or_default (some minutes) = minutes

abbrev attempts_or_default : Option ℕ → ℕ
attempts_or_default none = 3
attempts_or_default (some n) = n

-- The options that the caller leaves out have defaults.
unfoldable pub create_otp :
    Surroundings
    → OtpPurpose
    → String
    → CodeOwner
    → Option String
    → Option ℕ
    → Option ℕ
    → Accounts OtpRecord
unfolding new_otp_record add_minutes
create_otp env purpose code owner request_id ttl max_attempts = do
  let base = new_otp_record env purpose code owner request_id (attempts_or_default max_attempts)
  let r = record base { expires_at = add_minutes (ttl_or_default ttl) env.now }
  insert_otp_record r
  pure r

unfoldable pub is_pending_code : OtpPurpose → CodeOwner → OtpRecord → Bool
is_pending_code purpose owner r =
    same_otp_purpose r.purpose purpose
    && (same_otp_status r.status OtpStatus.pending
        && (asked_for owner.user_id r.user_id && asked_for owner.admin_id r.admin_id))

unfoldable pub find_pending : Orm → OtpPurpose → CodeOwner → Accounts (Option OtpRecord)
unfolding is_pending_code
find_pending orm purpose owner =
    gets (λ db. find_newest orm (λ r. r.created_at) (is_pending_code purpose owner) db.otp_records)

-- The caller keeps the record that `verify` changes: it is the result.
unfoldable pub verify : Surroundings → OtpRecord → String → Accounts OtpRecord
unfolding is_expired
verify env r code =
    let tried : OtpRecord = record r { attempts = r.attempts + 1 } in
    let verified : OtpRecord = record tried { status = OtpStatus.verified } in
    if is_expired env.now (some r.expires_at)
    then save_otp_record (record r { status = OtpStatus.expired })
      >> throw (bad_request "Verification code has expired")
    else if leb r.max_attempts r.attempts
    then save_otp_record (record r { status = OtpStatus.expired })
      >> throw (bad_request "Maximum verification attempts exceeded")
    else if not (str_eq r.code code)
    then save_otp_record tried >> throw (bad_request "Invalid verification code")
    else save_otp_record verified >> pure verified

unfoldable pub mark_used : OtpRecord → Accounts (Unit {0})
mark_used r = save_otp_record (record r { status = OtpStatus.used })

unfoldable pub cleanup_expired_otp_records : Surroundings → Accounts (Unit {0})
cleanup_expired_otp_records env = modify (λ db. record db {
  otp_records =
      delete
        (λ r.
          (same_otp_status r.status OtpStatus.expired || same_otp_status r.status OtpStatus.used)
          && ltb r.created_at (a_week_before env.now))
        db.otp_records;
})

unfoldable pub expire_all : OtpPurpose → OtpStatus → CodeOwner → Accounts (Unit {0})
expire_all purpose status owner = modify (λ db. record db {
  otp_records =
      update
        (λ r.
          same_otp_purpose r.purpose purpose
          && (same_otp_status r.status status
              && (asked_for owner.user_id r.user_id && asked_for owner.admin_id r.admin_id)))
        (λ r. record r { status = OtpStatus.expired }) db.otp_records;
})
