-- ===== src/Auth/Registration.antt =====
-- The registrations over a run of requests of users.
use hotel_booking_management.Base.Keys.{save-update}
use hotel_booking_management.Auth.Register.{image_of}
use hotel_booking_management.Auth.Progress.{signed_out_Steps, found-In, ended_Steps}
use hotel_booking_management.Auth.Stages.{key, Steps, same_Steps, save-Steps, waits}
use hotel_booking_management.Auth.State.{AccountDb}
use hotel_booking_management.Base.{
  ℕ, String, Option, Bool, In, Option-cases, ◌==◌, inl, str_eq, inr, Bool-cases, some, none, refl,
  List, ◌≡◌, if◌then◌else◌, false,
}
use hotel_booking_management.Auth.Images.{ObjectStore, UploadedFile, resolve_profile_image_url}
use hotel_booking_management.Auth.UserAuth.{
  known_oauth_login, complete_user_login, hash_password, OauthProvider, with_provider_id, has_text,
  provider_id_of,
}
use hotel_booking_management.Auth.Profile.{
  update_user_profile, logout, change_user_password, UpdateProfile, preload_user,
}
use hotel_booking_management.Auth.PasswordReset.{ResetLibraries}
use hotel_booking_management.Auth.Token.{TokenLibraries, revoke_token, revoke_all_user_tokens}
use hotel_booking_management.Entities.{
  Surroundings, User, AuthenticatedUser, RefreshToken, same_stage, RegistrationStage,
}
use hotel_booking_management.Base.Table.{Orm, UniqueIds, save, update}

module _ (orm : Orm) (env : Surroundings) (lib : TokenLibraries) (reset : ResetLibraries) where
  key-with_provider_id :
      (provider : OauthProvider) (id : String) (u : User)
      → key (with_provider_id provider id u) ≡ key u
  key-with_provider_id OauthProvider.google id u = refl
  key-with_provider_id OauthProvider.apple id u = refl

  -- A save forgets the account that was linked just before.
  pub link_lem :
      (provider : OauthProvider) (id : String) (u : User) (rows : List User)
      → UniqueIds key rows
      → save key u (update (λ (x : User). x.id == u.id) (with_provider_id provider id) rows)
        ≡ save key u rows
  link_lem provider id u rows unique =
      save-update key (with_provider_id provider id) u rows unique
        (key-with_provider_id provider id)

  -- The user that a login by Google or Apple saves, before and after the account is set up.
  abbrev pub waiting_user : Option String → User → User
  waiting_user fcm_token u = record u {
    is_banned = false;
    fcm_token = if has_text fcm_token then fcm_token else u.fcm_token;
  }

  abbrev pub seen_user : Option String → User → User
  seen_user fcm_token u = record (waiting_user fcm_token u) { last_login_at = some env.now }

  -- The users after a login by Google or Apple: the same, or with the user saved.
  pub known_oauth_login-users :
      (P : List User → Type 0) (provider : OauthProvider) (provider_id : String)
      (fcm_token : Option String) (token : String) (u : User) (db : AccountDb)
      → UniqueIds key db.users
      → P db.users
      → P (save key (hash_password reset (waiting_user fcm_token u)) db.users)
      → P (
          update
            (λ (x : User). x.id == u.id)
            (λ x. record x { last_logout_at = some env.now })
            (save key (hash_password reset (seen_user fcm_token u)) db.users))
      → P (known_oauth_login orm env lib reset provider provider_id fcm_token token u db).1.users
  unfolding known_oauth_login complete_user_login hash_password revoke_all_user_tokens
  known_oauth_login-users P provider provider_id fcm_token token u db unique same saved ended =
      let waiting = hash_password reset (waiting_user fcm_token u) in
      let seen = hash_password reset (seen_user fcm_token u) in
      elim (Bool-cases u.is_banned) [
        | inl banned ↦ rw banned same
        | inr welcome ↦
            elim (Bool-cases (same_stage u.registration_stage RegistrationStage.password_set)) [
              | inl unfinished ↦ elim (Bool-cases (has_text (provider_id_of provider u))) [
                | inl linked ↦ rw (linked, welcome, unfinished) saved
                | inr unlinked ↦
                    rw
                      (
                        unlinked,
                        welcome,
                        unfinished,
                        link_lem provider provider_id waiting db.users unique,
                      )
                      saved
              ]
              | inr finished ↦ elim (Bool-cases (has_text (provider_id_of provider u))) [
                | inl linked ↦ rw (linked, welcome, finished) ended
                | inr unlinked ↦
                    rw
                      (
                        unlinked,
                        welcome,
                        finished,
                        link_lem provider provider_id seen db.users unique,
                      )
                      ended
              ]
            ]
      ]

  pub known_oauth_login-Steps :
      (provider : OauthProvider) (provider_id : String) (fcm_token : Option String) (token : String)
      (u : User) (db : AccountDb)
      → UniqueIds key db.users
      → In u db.users
      → Steps db.users
          (known_oauth_login orm env lib reset provider provider_id fcm_token token u db).1.users
  unfolding hash_password
  known_oauth_login-Steps provider provider_id fcm_token token u db unique m =
      let waiting = hash_password reset (waiting_user fcm_token u) in
      let seen = hash_password reset (seen_user fcm_token u) in
      known_oauth_login-users (Steps db.users) provider provider_id fcm_token token u db unique
        (same_Steps db.users unique)
        (save-Steps u waiting db.users unique m refl (waits u.registration_stage))
        (ended_Steps orm env lib reset u.id db.users (save key seen db.users)
          (save-Steps u seen db.users unique m refl (waits u.registration_stage)))

  pub update_user_profile-Steps :
      (store : ObjectStore) (id : ℕ) (dto : UpdateProfile) (file : Option UploadedFile)
      (db : AccountDb)
      → UniqueIds key db.users
      → Steps db.users (update_user_profile orm env lib reset store id dto file db).1.users
  unfolding update_user_profile hash_password
  update_user_profile-Steps store id dto file db unique =
      elim (Option-cases (orm.find_one User (λ u. u.id == id) db.users)) [
        | inl e ↦ rw e (same_Steps db.users unique)
        | inr (u, e) ↦
            let url =
              resolve_profile_image_url store file dto.profile_image_url (image_of u)
                "users/profile" in
            rw e (
              save-Steps u (hash_password reset (preload_user orm env lib reset dto url u)) db.users
                unique (found-In orm env lib reset (λ u. u.id == id) db u e) refl
                (waits u.registration_stage))
      ]

  pub change_user_password-Steps :
      (compare : String → String → Bool) (id : ℕ) (current_password new_password : String)
      (db : AccountDb)
      → UniqueIds key db.users
      → Steps db.users
          (change_user_password orm env lib reset compare id current_password new_password
            db).1.users
  unfolding change_user_password hash_password revoke_all_user_tokens
  change_user_password-Steps compare id current_password new_password db unique =
      elim (Option-cases (orm.find_one User (λ u. u.id == id) db.users)) [
        | inl e ↦ rw e (same_Steps db.users unique)
        | inr (u, e) ↦ elim (Option-cases u.password) [
          | inl no_password ↦ rw (e, no_password) (same_Steps db.users unique)
          | inr (hash, p) ↦ elim (Bool-cases (compare current_password hash)) [
            | inr wrong ↦ rw (e, p, wrong) (same_Steps db.users unique)
            | inl right ↦
                let new = hash_password reset (record u { password = some new_password }) in
                rw (e, p, right)
                  (signed_out_Steps orm env lib reset id db.users (save key new db.users) (
                    save-Steps u new db.users unique
                      (found-In orm env lib reset (λ u. u.id == id) db u e) refl
                      (waits u.registration_stage)))
          ]
        ]
      ]

  pub logout-Steps :
      (token : String) (user : Option AuthenticatedUser) (db : AccountDb)
      → UniqueIds key db.users
      → Steps db.users (logout orm env lib reset token user db).1.users
  unfolding logout revoke_token revoke_all_user_tokens
  logout-Steps token none db unique =
      elim (Option-cases
        (orm.find_one RefreshToken (λ t. str_eq t.token (lib.sha256 token)) db.refresh_tokens)) [
          | inl e ↦ rw e (same_Steps db.users unique)
          | inr (t, e) ↦ rw e (same_Steps db.users unique)
        ]
  logout-Steps token (some user) db unique =
      let out =
        signed_out_Steps orm env lib reset user.id db.users db.users (same_Steps db.users unique) in
      elim (Option-cases
        (orm.find_one RefreshToken (λ t. str_eq t.token (lib.sha256 token)) db.refresh_tokens)) [
          | inl e ↦ rw e out
          | inr (t, e) ↦ rw e out
        ]
