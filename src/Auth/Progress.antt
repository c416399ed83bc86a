-- ===== src/Auth/Progress.antt =====
-- How a request moves the registrations.
use hotel_booking_management.Auth.Stages.{waits}
use hotel_booking_management.Auth.Images.{ObjectStore, UploadedFile, resolve_profile_image_url}
use hotel_booking_management.Auth.Register.{
  is_at_stage, user_register_password_setup, user_register_account_setup, user_register_otp_verify,
  user_register, AccountSetup, UserRegister, known_phone, find_customer_role, new_verified_user,
  is_registered, image_of, new_registered_user, set_up_user, new_image,
}
use hotel_booking_management.Auth.Stages.{
  Steps, update-Steps, stage_of, key, same_Steps, save-Steps, sets_password, append_Steps, sets_up,
}
use hotel_booking_management.Auth.State.{AccountDb}
use hotel_booking_management.Auth.UserAuth.{
  user_login, complete_user_login, hash_password, holds_text,
}
use hotel_booking_management.Base.{
  ℕ, List, Bool, ◌≡◌, ◌==◌, some, String, In, arith, refl, Option-cases, inl, inr, Bool-cases, not,
  str_eq, All, false, ◌≢◌, Option, ◌++◌, ◌∷◌, [],
}
use hotel_booking_management.Auth.PasswordReset.{ResetLibraries}
use hotel_booking_management.Auth.Token.{TokenLibraries, revoke_all_user_tokens}
use hotel_booking_management.Entities.{Surroundings, User, RegistrationStage}
use hotel_booking_management.Base.Table.{Orm, update, UniqueIds, save}

module _ (orm : Orm) (env : Surroundings) (lib : TokenLibraries) (reset : ResetLibraries) where
  -- The update of a login, after a step.
  pub ended_Steps :
      (i : ℕ) (before after : List User)
      → Steps before after
      → Steps before
          (update (λ (u : User). u.id == i) (λ u. record u { last_logout_at = some env.now }) after)
  ended_Steps i before after s =
      update-Steps (λ u. u.id == i) (λ u. record u { last_logout_at = some env.now }) before after
        (λ a. refl) (λ a. refl) s

  pub signed_out_Steps :
      (i : ℕ) (before after : List User)
      → Steps before after
      → Steps before (
          update
            (λ (u : User). u.id == i)
            (λ u. record u { last_logout_at = some env.now; fcm_token = some "" })
            after)
  signed_out_Steps i before after s =
      update-Steps (λ u. u.id == i)
        (λ u. record u { last_logout_at = some env.now; fcm_token = some "" }) before after
        (λ a. refl) (λ a. refl) s

  pub found-In :
      (p : User → Bool) (db : AccountDb) (u : User)
      → orm.find_one User p db.users ≡ some u
      → In u db.users
  found-In p db u e = (orm.find_one_sound User p db.users u e).0

  pub at_stage :
      (id : ℕ) (stage : RegistrationStage) (db : AccountDb) (u : User)
      → orm.find_one User (is_at_stage id stage) db.users ≡ some u
      → u.registration_stage ≡ stage
  at_stage id stage db u e =
      let (m, h) = orm.find_one_sound User (is_at_stage id stage) db.users u e in
      stage_of u.registration_stage stage (ground arith)

  pub user_login-Steps :
      (compare : String → String → Bool) (token email password : String) (db : AccountDb)
      → UniqueIds key db.users
      → Steps db.users (user_login orm env lib reset compare token email password db).1.users
  unfolding user_login complete_user_login hash_password revoke_all_user_tokens
  user_login-Steps compare token email password db unique =
      elim (Option-cases (orm.find_one User (λ u. holds_text u.email email) db.users)) [
        | inl e ↦ rw e (same_Steps db.users unique)
        | inr (u, e) ↦ elim (Option-cases u.password) [
          | inl no_password ↦ rw (e, no_password) (same_Steps db.users unique)
          | inr (hash, p) ↦ elim (Bool-cases (not (str_eq hash ""))) [
            | inr empty ↦ rw (e, p, empty) (same_Steps db.users unique)
            | inl given ↦ elim (Bool-cases (compare password hash)) [
              | inr wrong ↦ rw (e, p, given, wrong) (same_Steps db.users unique)
              | inl right ↦ elim (Bool-cases u.is_banned) [
                | inl banned ↦ rw (e, p, given, right, banned) (same_Steps db.users unique)
                | inr welcome ↦
                    let seen : User = record u {
                      password = some hash;
                      is_banned = false;
                      last_login_at = some env.now;
                    } in
                    rw (e, p, given, right, welcome)
                      (ended_Steps u.id db.users (save key (hash_password reset seen) db.users) (
                        save-Steps u (hash_password reset seen) db.users unique
                          (found-In (λ x. holds_text x.email email) db u e) refl
                          (waits u.registration_stage)))
              ]
            ]
          ]
        ]
      ]

  pub user_register_password_setup-Steps :
      (id : ℕ) (password confirm_password : String) (db : AccountDb)
      → UniqueIds key db.users
      → Steps db.users
          (user_register_password_setup orm env lib reset id password confirm_password db).1.users
  unfolding user_register_password_setup hash_password
  user_register_password_setup-Steps id password confirm_password db unique =
      let stage = RegistrationStage.otp_verified in
      elim (Option-cases (orm.find_one User (is_at_stage id stage) db.users)) [
        | inl e ↦ rw e (same_Steps db.users unique)
        | inr (u, e) ↦ elim (Bool-cases (str_eq password confirm_password)) [
          | inr differ ↦ rw (e, differ) (same_Steps db.users unique)
          | inl same ↦
              let new : User = record u {
                password = some password;
                registration_stage = RegistrationStage.password_set;
              } in
              let old_stage = at_stage id stage db u e in
              rw (e, same)
                (save-Steps u (hash_password reset new) db.users unique
                  (found-In (is_at_stage id stage) db u e) refl (rw old_stage sets_password))
        ]
      ]

  pub user_register_account_setup-Steps :
      (store : ObjectStore) (token : String) (dto : AccountSetup) (file : Option UploadedFile)
      (db : AccountDb)
      → UniqueIds key db.users
      → Steps db.users
          (user_register_account_setup orm env lib reset store token dto file db).1.users
  unfolding user_register_account_setup complete_user_login hash_password revoke_all_user_tokens
  user_register_account_setup-Steps store token dto file db unique =
      let stage = RegistrationStage.password_set in
      elim (Option-cases (orm.find_one User (is_at_stage dto.user_id stage) db.users)) [
        | inl e ↦ rw e (same_Steps db.users unique)
        | inr (u, e) ↦
            let url =
              resolve_profile_image_url store file dto.profile_image_url (image_of u)
                "users/profile" in
            let new = hash_password reset (set_up_user orm env lib reset dto url u) in
            let old_stage = at_stage dto.user_id stage db u e in
            rw e (
              ended_Steps u.id db.users (save key new db.users) (
                save-Steps u new db.users unique (found-In (is_at_stage dto.user_id stage) db u e)
                  refl (rw old_stage sets_up)))
      ]

  known_phone-Steps :
      (id : ℕ) (stage : RegistrationStage) (db : AccountDb)
      → UniqueIds key db.users
      → Steps db.users (known_phone orm env lib reset id stage db).1.users
  unfolding known_phone
  known_phone-Steps id RegistrationStage.otp_verified db unique = same_Steps db.users unique
  known_phone-Steps id RegistrationStage.password_set db unique = same_Steps db.users unique
  known_phone-Steps id RegistrationStage.completed db unique = same_Steps db.users unique

  pub user_register_otp_verify-Steps :
      (phone otp fcm_token request_id : String) (db : AccountDb)
      → UniqueIds key db.users
      → All (λ u. u.id ≢ env.fresh_id 0) db.users
      → Steps db.users
          (user_register_otp_verify orm env lib reset phone otp fcm_token request_id db).1.users
  unfolding user_register_otp_verify hash_password
  user_register_otp_verify-Steps phone otp fcm_token request_id db unique free =
      elim (Option-cases (orm.find_one User (λ u. str_eq u.phone phone) db.users)) [
        | inl e ↦ elim (Bool-cases (reset.verify_sms request_id otp)) [
          | inr wrong ↦ rw (e, wrong) (same_Steps db.users unique)
          | inl right ↦ elim (Option-cases (find_customer_role orm env lib reset db)) [
            | inl no_role ↦ rw (e, right, no_role) (same_Steps db.users unique)
            | inr (role, r) ↦
                let new =
                  hash_password reset
                    (new_verified_user orm env lib reset fcm_token phone role.id) in
                rw (e, right, r) (append_Steps new db.users unique free)
          ]
        ]
        | inr (u, e) ↦ rw e (known_phone-Steps u.id u.registration_stage db unique)
      ]

  pub user_register-Steps :
      (store : ObjectStore) (token : String) (dto : UserRegister) (file : Option UploadedFile)
      (db : AccountDb)
      → UniqueIds key db.users
      → All (λ u. u.id ≢ env.fresh_id 0) db.users
      → Steps db.users (user_register orm env lib reset store token dto file db).1.users
  unfolding user_register complete_user_login hash_password revoke_all_user_tokens
  user_register-Steps store token dto file db unique free =
      elim (Option-cases (orm.find_one User (is_registered dto.phone) db.users)) [
        | inr (u, e) ↦ rw e (same_Steps db.users unique)
        | inl e ↦ elim (Option-cases (find_customer_role orm env lib reset db)) [
          | inl no_role ↦ rw (e, no_role) (same_Steps db.users unique)
          | inr (role, r) ↦
              let new = hash_password reset (
                new_registered_user orm env lib reset dto (new_image orm env lib reset store file)
                  dto.phone role.id) in
              rw (e, r)
                (ended_Steps (env.fresh_id 0) db.users (db.users ++ new ∷ [])
                  (append_Steps new db.users unique free))
        ]
      ]
