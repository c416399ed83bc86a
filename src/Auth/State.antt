-- ===== src/Auth/State.antt =====
-- The tables of the account services, the expiry of codes and tokens
-- (src/common/utils/date-time.util.ts), and the audit log
-- (src/v1/log/services/audit-log.service.ts). A soft-deleted account is not among the rows.
use hotel_booking_management.Entities.{
  Surroundings, User, LogAction, Admin, OtpRecord, RefreshToken, LogEntry, SubjectType,
}
use hotel_booking_management.Base.Exec.{Exec, modify}
use hotel_booking_management.Base.{
  String, ℕ, List, ◌+◌, Option, ◌-◌, ◌*◌, Bool, true, if◌then◌else◌, some, ◌++◌, ltb, ◌∷◌, none, [],
}

-- `TwoFactorCodeRequestedEvent`, which a listener sends by mail.
pub record CodeRequested : Type 0 where
  pub email : String
  pub code : String

-- The columns of a role that the account services read.
pub record RoleRow : Type 0 where
  pub id : ℕ
  pub name : String

pub record AccountDb : Type 0 where
  pub users : List User
  pub admins : List Admin
  pub otp_records : List OtpRecord
  pub refresh_tokens : List RefreshToken
  pub audit_logs : List LogEntry
  pub activity_logs : List LogEntry
  pub events : List CodeRequested
  pub roles : List RoleRow
  -- the keys that the object store was told to delete
  pub deleted_objects : List String

abbrev pub Accounts : Type 0 → Type 0
Accounts A = Exec AccountDb A

abbrev pub otp_ttl_minutes : ℕ
otp_ttl_minutes = 10

abbrev pub refresh_token_ttl_days : ℕ
refresh_token_ttl_days = 30

unfoldable pub add_minutes : ℕ → ℕ → ℕ
add_minutes minutes from = from + minutes * 60000

unfoldable pub add_days : ℕ → ℕ → ℕ
add_days days from = from + days * 86400000

-- A date in the past is expired, and so is none at all.
unfoldable pub is_expired : ℕ → Option ℕ → Bool
is_expired now none = true
is_expired now (some expires_at) = ltb expires_at now

-- `Date.now() - 7 * 24 * 60 * 60 * 1000`
abbrev pub a_week_before : ℕ → ℕ
a_week_before now = now - 604800000

-- `auditLogService.create(…).catch(…)`: an error of the log is only reported.
unfoldable pub write_audit_log : Surroundings → ℕ → LogAction → Accounts (Unit {0})
write_audit_log env admin_id action = modify (λ db. record db {
  audit_logs =
      if env.logs_written
      then db.audit_logs
        ++ record {
          subject = record { id = admin_id; subject_type = SubjectType.admin_subject };
          action = action;
        }
          ∷ []
      else db.audit_logs;
})

-- `activityLogService.create(…).catch(…)`
unfoldable pub write_activity_log : Surroundings → ℕ → LogAction → Accounts (Unit {0})
write_activity_log env user_id action = modify (λ db. record db {
  activity_logs =
      if env.logs_written
      then db.activity_logs
        ++ record {
          subject = record { id = user_id; subject_type = SubjectType.user_subject };
          action = action;
        }
          ∷ []
      else db.activity_logs;
})
