-- ===== src/Log/Intercept.antt =====
-- The log of a route (intercept and logActivity of
-- src/v1/log/interceptors/activity-log.interceptor.ts). The columns of a row beside the account and
-- the action are left out.
use hotel_booking_management.Base.Exec.{Result, ok, ◌>>=◌, ◌>>◌, pure, continue, err}
use hotel_booking_management.Auth.State.{AccountDb, write_audit_log, write_activity_log, Accounts}
use hotel_booking_management.Entities.{Surroundings, AuthenticatedUser, LogAction, LogEntry}
use hotel_booking_management.Entities.{SubjectType}
use hotel_booking_management.Base.{
  ℕ, Option, length, ◌+◌, some, if◌then◌else◌, none, List, ◌≡◌, ◌++◌, arith, ◌∷◌, [], refl,
  Bool-cases, inl, inr,
}

unfoldable pub log_activity : Surroundings → SubjectType → ℕ → LogAction → Accounts (Unit {0})
unfolding write_audit_log write_activity_log
log_activity env SubjectType.admin_subject id action = write_audit_log env id action
log_activity env SubjectType.user_subject id action = write_activity_log env id action

-- `options` is the action that the route's decorator names, if it has one.
unfoldable pub intercept :
    {A : Type 0}
    → Surroundings
    → Option LogAction
    → Option AuthenticatedUser
    → Accounts A
    → Accounts A
unfolding log_activity
intercept env none user handler = handler
intercept env (some action) none handler = handler
intercept env (some action) (some user) handler = do
  result ← handler
  log_activity env user.subject_type user.id action
  pure result

abbrev pub log_rows : AccountDb → ℕ
log_rows db = length db.audit_logs + length db.activity_logs

-- How many rows a route adds, by its outcome.
abbrev pub rows_due :
    {A : Type 0} → Surroundings → Option LogAction → Option AuthenticatedUser → Result A → ℕ
rows_due env (some action) (some user) (ok a) = if env.logs_written then 1 else 0
rows_due env _ _ _ = 0

length-append_one : {A : Type 0} (xs : List A) (a : A) → length (xs ++ a ∷ []) ≡ length xs + 1
length-append_one [] a = refl
length-append_one (x ∷ xs) a = (let ih = length-append_one xs a in omega arith)

-- The end of a logged route.
logged_rows :
    {A : Type 0} (env : Surroundings) (subject : SubjectType) (id : ℕ) (action : LogAction) (a : A)
    (db : AccountDb)
    → let after = (log_activity env subject id action >> pure a) db in
      (after.0 ≡ ok a) × (log_rows after.1 ≡ log_rows db + (if env.logs_written then 1 else 0))
unfolding log_activity
logged_rows env SubjectType.admin_subject id action a db = elim (Bool-cases env.logs_written) [
  | inl w ↦
      let entry : LogEntry = record {
        subject = record { id = id; subject_type = SubjectType.admin_subject };
        action = action;
      } in
      let longer = length-append_one db.audit_logs entry in rw (w, longer) (refl, omega arith)
  | inr w ↦ rw w (refl, omega arith)
]
logged_rows env SubjectType.user_subject id action a db = elim (Bool-cases env.logs_written) [
  | inl w ↦
      let entry : LogEntry = record {
        subject = record { id = id; subject_type = SubjectType.user_subject };
        action = action;
      } in
      let longer = length-append_one db.activity_logs entry in rw (w, longer) (refl, omega arith)
  | inr w ↦ rw w (refl, omega arith)
]

-- Whatever the route's handler does: the log leaves its answer or exception as it is, and adds one
-- row where the handler has returned, the route is to be logged, the caller is known and the log can
-- be written, and none otherwise.
pub intercept_rows :
    {A : Type 0} (env : Surroundings) (options : Option LogAction) (user : Option AuthenticatedUser)
    (handler : Accounts A) (db : AccountDb)
    → ((intercept env options user handler db).0 ≡ (handler db).0)
      × (log_rows (intercept env options user handler db).1
          ≡ log_rows (handler db).1 + rows_due env options user (handler db).0)
unfolding intercept
intercept_rows env none user handler db = (refl, omega arith)
intercept_rows env (some action) none handler db = (refl, omega arith)
intercept_rows {A} env (some action) (some user) handler db = ended (handler db)
  where
    ended :
        (x : Result A × AccountDb)
        → ((continue (λ a. log_activity env user.subject_type user.id action >> pure a) x).0 ≡ x.0)
          × (log_rows
                (continue (λ a. log_activity env user.subject_type user.id action >> pure a) x).1
              ≡ log_rows x.1 + rows_due env (some action) (some user) x.0)
    ended (ok a, left) = logged_rows env user.subject_type user.id action a left
    ended (err e, left) = (refl, omega arith)
