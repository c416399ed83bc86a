-- ===== src/Auth/Takeover.antt =====
-- What the login of users lets through
-- (src/v1/auth/services/user-auth.service.ts, src/v1/auth/services/token.service.ts).
use hotel_booking_management.Auth.Registration.{waiting_user, seen_user, known_oauth_login-users}
use hotel_booking_management.Auth.OneSession.{OneSession, complete_user_login-OneSession}
use hotel_booking_management.Base.Exec.{err, ok, Exception, query_failed}
use hotel_booking_management.Auth.Stages.{key}
use hotel_booking_management.Auth.State.{AccountDb}
use hotel_booking_management.Auth.Images.{ObjectStore, UploadedFile, resolve_profile_image_url}
use hotel_booking_management.Base.{
  String, Option, str_eq, All, ◌==◌, ◌≡◌, some, false, none, In, refl, ℕ, In-All, ◌∙◌, List,
  Option-cases, inl, inr, sym, ◌⊎◌, any, true,
}
use hotel_booking_management.Auth.Register.{
  user_register_otp_verify, known_phone, user_register_account_setup, AccountSetup, is_at_stage,
  image_of,
}
use hotel_booking_management.Auth.UserAuth.{
  handle_oauth_login, insert_user, OauthProvider, hash_password, is_oauth_account, provider_id_of,
  UserLogin,
}
use hotel_booking_management.Auth.Profile.{update_user_profile, UpdateProfile, preload_user}
use hotel_booking_management.Auth.PasswordReset.{ResetLibraries}
use hotel_booking_management.Auth.Token.{TokenLibraries}
use hotel_booking_management.Entities.{Surroundings, User, RegistrationStage}
use hotel_booking_management.Base.Table.{
  Orm, UniqueIds, eq_of_key, save, All-save, In-save_self, All-update, any_of_In,
}

module _ (orm : Orm) (env : Surroundings) (lib : TokenLibraries) (reset : ResetLibraries) where
  known_phone_lem :
      (id : ℕ) (stage : RegistrationStage) (db : AccountDb)
      → stage ≡ RegistrationStage.password_set
      → known_phone orm env lib reset id stage db ≡ (
        ok (record {
          user_id = id;
          current_stage = RegistrationStage.password_set;
          next_stage = RegistrationStage.completed;
        }),
        db,
      )
  unfolding known_phone
  known_phone_lem id stage db h = rw h refl

  -- Where the queries by a phone and by an identifier find one user at PASSWORD_SET, whoever names
  -- the phone is logged in as that user, whatever code and request identifier it sends: the check of
  -- the code is passed over and answers the user's identifier, with which the account is set up, and
  -- the refresh token of the answer is then the user's only live one.
  pub phone_takes_over :
      (store : ObjectStore) (phone otp fcm_token request_id token : String) (dto : AccountSetup)
      (file : Option UploadedFile) (u : User) (db : AccountDb)
      → orm.find_one User (λ x. str_eq x.phone phone) db.users ≡ some u
      → u.registration_stage ≡ RegistrationStage.password_set
      → orm.find_one User (is_at_stage dto.user_id RegistrationStage.password_set) db.users ≡ some u
      → dto.user_id ≡ u.id
      → let checked =
          user_register_otp_verify orm env lib reset phone otp fcm_token request_id db in
        let (answer, db') =
          user_register_account_setup orm env lib reset store token dto file checked.1 in
        (checked.0
          ≡ ok (record {
            user_id = dto.user_id;
            current_stage = RegistrationStage.password_set;
            next_stage = RegistrationStage.completed;
          }))
        × ((login : UserLogin) × (answer ≡ ok login) × (login.tokens.refresh_token ≡ token))
        × OneSession lib u.id token db'.refresh_tokens
  unfolding user_register_otp_verify known_phone user_register_account_setup
  phone_takes_over store phone otp fcm_token request_id token dto file u db found stage there same =
      rw (found, known_phone_lem u.id u.registration_stage db stage, there)
        (
          (rw same refl),
          (_, refl, refl),
          complete_user_login-OneSession orm env lib reset token u db,
        )

  -- A row of these users, with what was written to it.
  abbrev pub IsOfOneOf : List User → User → Type 0
  IsOfOneOf rows v =
      (u : User) × In u rows × (u.id ≡ v.id) × (u.registration_stage ≡ v.registration_stage)

  stored_before : (rows : List User) → All (IsOfOneOf rows) rows
  stored_before rows = In-All rows (λ u m. (u, m, refl, refl))

  -- A login by Google or Apple never registers anybody: whatever it answers, each user who is stored
  -- after it was stored before, at the same stage of registration, and it throws, unless a stored user
  -- has linked the account or has its address.
  pub oauth_login_adds_none :
      (provider : OauthProvider) (provider_id : String) (email full_name fcm_token : Option String)
      (token : String) (db : AccountDb)
      → UniqueIds key db.users
      → let (answer, db') =
          handle_oauth_login orm env lib reset provider provider_id email full_name fcm_token token
            db in
        All (IsOfOneOf db.users) db'.users
        × (((e : Exception) × (answer ≡ err e))
            ⊎ (any (is_oauth_account provider provider_id email) db.users ≡ true))
  unfolding handle_oauth_login insert_user hash_password
  oauth_login_adds_none provider provider_id email full_name fcm_token token db unique =
      let p = is_oauth_account provider provider_id email in
      let before = stored_before db.users in
      elim (Option-cases (orm.find_one User p db.users)) [
        | inl e ↦ rw e (before, inl (query_failed "not-null violation", refl))
        | inr (u, e) ↦
            let (m, met) = orm.find_one_sound User p db.users u e in
            let Q = IsOfOneOf db.users in
            let saved : (x : User)
                → x.id ≡ u.id
                → x.registration_stage ≡ u.registration_stage
                → All Q (save key x db.users) =
              λ x i st. All-save Q key x db.users (u, m, sym i, sym st) before in
            let seen = hash_password reset (seen_user orm env lib reset fcm_token u) in
            let waiting = hash_password reset (waiting_user orm env lib reset fcm_token u) in
            rw e (
              known_oauth_login-users orm env lib reset (All Q) provider provider_id fcm_token token
                  u db unique before (saved waiting refl refl)
                  (All-update Q (λ (x : User). x.id == u.id)
                    (λ x. record x { last_logout_at = some env.now }) (save key seen db.users)
                    (λ a _ q. q) (saved seen refl refl)),
              inr (any_of_In p u db.users m met),
            )
      ]

  waiting_id :
      (provider : OauthProvider) (fcm_token : Option String) (u : User)
      → provider_id_of provider (hash_password reset (waiting_user orm env lib reset fcm_token u))
        ≡ provider_id_of provider u
  unfolding hash_password
  waiting_id OauthProvider.google fcm_token u = refl
  waiting_id OauthProvider.apple fcm_token u = refl

  seen_id :
      (provider : OauthProvider) (fcm_token : Option String) (u : User)
      → provider_id_of provider (hash_password reset (seen_user orm env lib reset fcm_token u))
        ≡ provider_id_of provider u
  unfolding hash_password
  seen_id OauthProvider.google fcm_token u = refl
  seen_id OauthProvider.apple fcm_token u = refl

  left_id :
      (provider : OauthProvider) (u : User)
      → provider_id_of provider (record u { last_logout_at = some env.now })
        ≡ provider_id_of provider u
  left_id OauthProvider.google u = refl
  left_id OauthProvider.apple u = refl

  -- A stored user who is found by the address and has not linked the account is not linked by the
  -- login either: after it, whatever it answers, the user's row still has no such identifier.
  pub oauth_link_lost :
      (provider : OauthProvider) (provider_id : String) (email full_name fcm_token : Option String)
      (token : String) (u : User) (db : AccountDb)
      → UniqueIds key db.users
      → orm.find_one User (is_oauth_account provider provider_id email) db.users ≡ some u
      → provider_id_of provider u ≡ none
      → All
          (λ v. v.id ≡ u.id → provider_id_of provider v ≡ none)
          (handle_oauth_login orm env lib reset provider provider_id email full_name fcm_token token
            db).1.users
  unfolding handle_oauth_login
  oauth_link_lost provider provider_id email full_name fcm_token token u db unique found unlinked =
      let p = is_oauth_account provider provider_id email in
      let (m, met) = orm.find_one_sound User p db.users u found in
      let P : User → Type 0 = λ v. v.id ≡ u.id → provider_id_of provider v ≡ none in
      let before : All P db.users =
        In-All db.users (λ v mv h.
          let one : v ≡ u = eq_of_key key v u db.users unique mv m h in rw one unlinked) in
      let saved : (e : User)
          → provider_id_of provider e ≡ provider_id_of provider u
          → All P (save key e db.users) =
        λ e h. All-save P key e db.users (λ _. h ∙ unlinked) before in
      let seen =
        saved (hash_password reset (seen_user orm env lib reset fcm_token u))
          (seen_id provider fcm_token u) in
      rw found (
        known_oauth_login-users orm env lib reset (λ rows. All P rows) provider provider_id
          fcm_token token u db unique before
          (saved (hash_password reset (waiting_user orm env lib reset fcm_token u))
            (waiting_id provider fcm_token u))
          (All-update P (λ (x : User). x.id == u.id)
            (λ x. record x { last_logout_at = some env.now })
            (save key (hash_password reset (seen_user orm env lib reset fcm_token u)) db.users)
            (λ a hit h i. left_id provider a ∙ h i) seen))

  -- An update of the own profile that sets isBanned to false succeeds and is stored: afterwards the
  -- user is not banned, banned before or not.
  pub banned_user_unbans :
      (store : ObjectStore) (dto : UpdateProfile) (file : Option UploadedFile) (u : User)
      (db : AccountDb)
      → orm.find_one User (λ x. x.id == u.id) db.users ≡ some u
      → dto.is_banned ≡ some false
      → let (answer, db') = update_user_profile orm env lib reset store u.id dto file db in
        (v : User) × (answer ≡ ok v) × In v db'.users × (v.id ≡ u.id) × (v.is_banned ≡ false)
  unfolding update_user_profile hash_password
  banned_user_unbans store dto file u db found free =
      let url =
        resolve_profile_image_url store file dto.profile_image_url (image_of u) "users/profile" in
      let v = hash_password reset (preload_user orm env lib reset dto url u) in
      rw found (v, refl, In-save_self key v db.users, refl, rw free refl)
