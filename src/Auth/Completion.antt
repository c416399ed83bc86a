-- ===== src/Auth/Completion.antt =====
-- The registrations over every run of requests.
use hotel_booking_management.Base.Keys.{UniqueIds-delete}
use hotel_booking_management.Base.Query.{In-delete}
use hotel_booking_management.Auth.Images.{delete_profile_image}
use hotel_booking_management.Auth.Profile.{delete_profile}
use hotel_booking_management.Auth.Progress.{
  user_register_otp_verify-Steps, found-In, user_register_password_setup-Steps,
  user_register_account_setup-Steps, user_register-Steps, user_login-Steps, signed_out_Steps,
}
use hotel_booking_management.Auth.Registration.{
  known_oauth_login-Steps, update_user_profile-Steps, change_user_password-Steps, logout-Steps,
}
use hotel_booking_management.Auth.UserAuth.{handle_oauth_login, OauthProvider, is_oauth_account}
use hotel_booking_management.Auth.State.{AccountDb, write_activity_log}
use hotel_booking_management.Auth.Register.{user_register_otp_request, is_registered}
use hotel_booking_management.Base.{
  List, String, Option, All, Option-cases, ◌≢◌, In, inl, ◌≡◌, inr, ◌∷◌, ◌∙◌, [], refl, Bool, ℕ, ◌⊎◌,
  false, ◌==◌, any, Bool-cases, true, arith, eq_of_==, some,
}
use hotel_booking_management.Auth.PasswordReset.{ResetLibraries}
use hotel_booking_management.Auth.Stages.{StageStep, key, Steps, same_Steps}
use hotel_booking_management.Auth.Token.{TokenLibraries, revoke_all_user_tokens}
use hotel_booking_management.Entities.{RegistrationStage, Surroundings, User}
use hotel_booking_management.Auth.Requests.{
  UserLibraries, handle_user, run_users, UserRequest, AllFresh, send_code, verify_code,
  set_password, set_up, register, log_in, log_in_with, update_profile, renew_password, log_out,
  removes, remove_profile,
}
use hotel_booking_management.Base.Table.{Orm, UniqueIds, delete, update}

-- The stages that follow one another.
pub data Reaches : RegistrationStage → RegistrationStage → Type 0 where
  at_end : (s : RegistrationStage) → Reaches s s
  after_step : {a b c : RegistrationStage} → StageStep a b → Reaches b c → Reaches a c

-- The users but those with one property are still there, at most one stage further on.
record KeepsOthers (gone : User → Bool) (before after : List User) : Type 0 where
  kept :
      (u : User)
      → In u before
      → gone u ≡ false
      → (v : User) × In v after
        × (v.id ≡ u.id)
        × StageStep u.registration_stage v.registration_stage
  unique : UniqueIds key after

all_kept :
    (gone : User → Bool) (before after : List User)
    → Steps before after
    → KeepsOthers gone before after
all_kept gone before after s = record { kept = λ u m h. s.kept u m; unique = s.unique }

delete-KeepsOthers :
    (i : ℕ) (before after : List User)
    → Steps before after
    → KeepsOthers (λ u. i == u.id) before (delete (λ (u : User). u.id == i) after)
delete-KeepsOthers i before after s = record {
  kept = λ u m other.
      let (v, mv, same, step) = s.kept u m in
      let stays : (v.id == i) ≡ false = ground (arith, same, other) in
      (v, In-delete (λ (x : User). x.id == i) v after mv stays, same, step);
  unique = UniqueIds-delete key (λ u. u.id == i) after s.unique;
}

module _ (orm : Orm) (env : Surroundings) (lib : TokenLibraries) (reset : ResetLibraries) where
  delete_profile-KeepsOthers :
      (id : ℕ) (db : AccountDb)
      → UniqueIds key db.users
      → KeepsOthers (λ u. id == u.id) db.users (delete_profile orm env lib reset id db).1.users
  unfolding delete_profile revoke_all_user_tokens write_activity_log delete_profile_image
  delete_profile-KeepsOthers id db unique =
      let asked : User → Bool = λ u. u.id == id in
      elim (Option-cases (orm.find_one User asked db.users)) [
        | inl e ↦ rw e (all_kept (λ u. id == u.id) db.users db.users (same_Steps db.users unique))
        | inr (u, e) ↦
            let same = eq_of_== u.id id (orm.find_one_sound User asked db.users u e).1 in
            rw (e, same)
              (delete-KeepsOthers id db.users
                (update (λ (x : User). x.id == id)
                  (λ x. record x { last_logout_at = some env.now; fcm_token = some "" }) db.users)
                (signed_out_Steps orm env lib reset id db.users db.users
                  (same_Steps db.users unique)))
      ]

  user_register_otp_request-Steps :
      (phone : String) (db : AccountDb)
      → UniqueIds key db.users
      → Steps db.users (user_register_otp_request orm env lib reset phone db).1.users
  unfolding user_register_otp_request
  user_register_otp_request-Steps phone db unique =
      elim (Option-cases (orm.find_one User (is_registered phone) db.users)) [
        | inr (u, e) ↦ rw e (same_Steps db.users unique)
        | inl e ↦ elim (Option-cases (reset.send_sms phone)) [
          | inl no_sms ↦ rw (e, no_sms) (same_Steps db.users unique)
          | inr (id, sent) ↦ rw (e, sent) (same_Steps db.users unique)
        ]
      ]

  pub handle_oauth_login-Steps :
      (provider : OauthProvider) (provider_id : String) (email full_name fcm_token : Option String)
      (token : String) (db : AccountDb)
      → UniqueIds key db.users
      → Steps db.users
          (handle_oauth_login orm env lib reset provider provider_id email full_name fcm_token token
            db).1.users
  unfolding handle_oauth_login
  handle_oauth_login-Steps provider provider_id email full_name fcm_token token db unique =
      let p = is_oauth_account provider provider_id email in
      elim (Option-cases (orm.find_one User p db.users)) [
        | inl e ↦ rw e (same_Steps db.users unique)
        | inr (u, e) ↦ rw e (
            known_oauth_login-Steps orm env lib reset provider provider_id fcm_token token u db
              unique (found-In orm env lib reset p db u e))
      ]

module _ (orm : Orm) (lib : UserLibraries) where
  -- A request takes every registration at most one step further, but of the user that it removes.
  handle_user-KeepsOthers :
      (env : Surroundings) (q : UserRequest) (db : AccountDb)
      → UniqueIds key db.users
      → All (λ u. u.id ≢ env.fresh_id 0) db.users
      → KeepsOthers (λ u. removes u.id q) db.users (handle_user orm lib env q db).users
  unfolding handle_user
  handle_user-KeepsOthers env (send_code phone) db u free =
      all_kept _ db.users _
        (user_register_otp_request-Steps orm env lib.tokens lib.reset phone db u)
  handle_user-KeepsOthers env (verify_code phone otp fcm_token request_id) db u free =
      all_kept _ db.users _ (
        user_register_otp_verify-Steps orm env lib.tokens lib.reset phone otp fcm_token request_id
          db u free)
  handle_user-KeepsOthers env (set_password user_id password confirm_password) db u free =
      all_kept _ db.users _ (
        user_register_password_setup-Steps orm env lib.tokens lib.reset user_id password
          confirm_password db u)
  handle_user-KeepsOthers env (set_up token dto file) db u free =
      all_kept _ db.users _ (
        user_register_account_setup-Steps orm env lib.tokens lib.reset lib.store token dto file db
          u)
  handle_user-KeepsOthers env (register token dto file) db u free =
      all_kept _ db.users _
        (user_register-Steps orm env lib.tokens lib.reset lib.store token dto file db u free)
  handle_user-KeepsOthers env (log_in token email password) db u free =
      all_kept _ db.users _
        (user_login-Steps orm env lib.tokens lib.reset lib.compare token email password db u)
  handle_user-KeepsOthers env (log_in_with provider provider_id email full_name fcm_token token) db
        u free =
      all_kept _ db.users _ (
        handle_oauth_login-Steps orm env lib.tokens lib.reset provider provider_id email full_name
          fcm_token token db u)
  handle_user-KeepsOthers env (update_profile user_id dto file) db u free =
      all_kept _ db.users _
        (update_user_profile-Steps orm env lib.tokens lib.reset lib.store user_id dto file db u)
  handle_user-KeepsOthers env (renew_password user_id current_password new_password) db u free =
      all_kept _ db.users _ (
        change_user_password-Steps orm env lib.tokens lib.reset lib.compare user_id current_password
          new_password db u)
  handle_user-KeepsOthers env (log_out refresh_token user) db u free =
      all_kept _ db.users _ (logout-Steps orm env lib.tokens lib.reset refresh_token user db u)
  handle_user-KeepsOthers env (remove_profile user_id) db u free =
      delete_profile-KeepsOthers orm env lib.tokens lib.reset user_id db u

  abbrev pub IsRemoved : ℕ → List (Surroundings × UserRequest) → Type 0
  IsRemoved i qs = any (λ (r : Surroundings × UserRequest). removes i r.1) qs ≡ true

  -- Over every run of requests to the user-auth service, with identifiers that are unique and fresh
  -- ones that are not in use: every user stays, unless the run has a request that removes this user,
  -- and the stage of the registration of a user who stays only moves from OTP_VERIFIED to
  -- PASSWORD_SET and from there to COMPLETED, never back and never past the password.
  pub run_users-Reaches :
      (qs : List (Surroundings × UserRequest)) (db : AccountDb) (u : User)
      → UniqueIds key db.users
      → AllFresh orm lib qs db
      → In u db.users
      → IsRemoved u.id qs
        ⊎ ((v : User) × In v (run_users orm lib qs db).users
            × (v.id ≡ u.id)
            × Reaches u.registration_stage v.registration_stage)
  unfolding run_users
  run_users-Reaches [] db u unique fresh m = inr (u, m, refl, at_end u.registration_stage)
  run_users-Reaches (r ∷ rs) db u unique fresh m =
      let s = handle_user-KeepsOthers r.0 r.1 db unique fresh.0 in
      elim (Bool-cases (removes u.id r.1)) [
        | inl e ↦ inl (rw e refl)
        | inr e ↦
            let (v, mv, i, step) = s.kept u m e in
            elim (run_users-Reaches rs (handle_user orm lib r.0 r.1 db) v s.unique fresh.1 mv) [
              | inl later ↦ let same : IsRemoved u.id rs = rw i at later in inl (rw (e, same) refl)
              | inr (w, mw, j, rest) ↦ inr (w, mw, j ∙ i, after_step step rest)
            ]
      ]
