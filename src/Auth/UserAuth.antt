-- ===== src/Auth/UserAuth.antt =====
-- The login of users (src/v1/auth/services/user-auth.service.ts).
use hotel_booking_management.Auth.AdminAuth.{LoginTokens}
use hotel_booking_management.Auth.PasswordReset.{hash_password_if_needed, ResetLibraries}
use hotel_booking_management.Base.Exec.{
  ◌>>=◌, ◌>>◌, gets, pure, throw, throw_if, or_throw, modify, unauthorized, query_failed,
}
use hotel_booking_management.Auth.State.{Accounts, write_activity_log}
use hotel_booking_management.Auth.Token.{
  TokenLibraries, revoke_all_user_tokens, generate_refresh_token, user_payload,
}
use hotel_booking_management.Entities.{
  Surroundings, User, SubjectType, LogAction, RegistrationStage, LoginProvider, same_stage,
}
use hotel_booking_management.Base.Table.{Orm, update, save}
use hotel_booking_management.Base.{
  String, ℕ, Bool, Option, if◌then◌else◌, str_eq, not, ◌==◌, some, none, false, ◌||◌, ◌++◌, ◌∷◌, [],
  ◌&&◌,
}

-- What `completeUserLogin` answers.
pub record UserLogin : Type 0 where
  pub tokens : LoginTokens
  pub fcm_token : Option String

-- A nullable column holds_text a text.
abbrev pub holds_text : Option String → String → Bool
holds_text none text = false
holds_text (some t) text = str_eq t text

-- A text that JavaScript takes for true.
abbrev pub has_text : Option String → Bool
has_text none = false
has_text (some t) = not (str_eq t "")

abbrev pub or_else : Option String → Option String → Option String
or_else none old = old
or_else (some t) old = some t

-- `hashPassword`, which TypeORM calls before each insert and update of a user.
unfoldable pub hash_password : ResetLibraries → User → User
unfolding hash_password_if_needed
hash_password reset u = record u {
  password = elim u.password [ none ↦ none | some p ↦ some (hash_password_if_needed reset p) ];
}

abbrev pub save_user : ResetLibraries → User → Accounts (Unit {0})
save_user reset u =
    modify (λ db. record db { users = save (λ (x : User). x.id) (hash_password reset u) db.users })

-- The insertion of a user, by its phone and its role, which are not nullable.
unfoldable pub insert_user :
    ResetLibraries → Option String → Option ℕ → (String → ℕ → User) → Accounts User
unfolding hash_password
insert_user reset (some phone) (some role_id) new = do
  let user = hash_password reset (new phone role_id)
  modify (λ db. record db { users = db.users ++ user ∷ [] })
  pure user
insert_user reset _ _ new = throw (query_failed "not-null violation")

-- `'GOOGLE' | 'APPLE'`
pub data OauthProvider : Type 0 where
  google apple : OauthProvider

abbrev pub provider_id_of : OauthProvider → User → Option String
provider_id_of OauthProvider.google u = u.google_id
provider_id_of OauthProvider.apple u = u.apple_id

abbrev pub with_provider_id : OauthProvider → String → User → User
with_provider_id OauthProvider.google id u = record u { google_id = some id }
with_provider_id OauthProvider.apple id u = record u { apple_id = some id }

abbrev pub login_provider_of : OauthProvider → LoginProvider
login_provider_of OauthProvider.google = LoginProvider.google
login_provider_of OauthProvider.apple = LoginProvider.apple

-- What `handleOAuthLogin` answers: the tokens, or the user whose account is to be set up.
pub data OauthAnswer : Type 0 where
  oauth_logged_in : UserLogin → OauthAnswer
  setup_required : (user_id : ℕ) (current next : RegistrationStage) → OauthAnswer

-- The account that an identity token names, as its library reads it.
pub record IdClaims : Type 0 where
  pub sub : Option String
  pub email : Option String
  pub name : Option String

-- A row of the account, or of the address where one is given.
abbrev pub is_oauth_account : OauthProvider → String → Option String → User → Bool
is_oauth_account provider provider_id email u =
    holds_text (provider_id_of provider u) provider_id
    || elim email [ none ↦ false | some e ↦ not (str_eq e "") && holds_text u.email e ]

module _ (orm : Orm) (env : Surroundings) (lib : TokenLibraries) (reset : ResetLibraries) where
  unfoldable pub validate_user_by_id : ℕ → Accounts (Option User)
  validate_user_by_id id = gets (λ db. orm.find_one User (λ u. u.id == id) db.users)

  -- `token` is the refresh token that the JWT library signs.
  unfoldable pub complete_user_login : String → User → Accounts UserLogin
  unfolding revoke_all_user_tokens generate_refresh_token write_activity_log
  complete_user_login token user = do
    revoke_all_user_tokens orm env lib user.id false
    refresh_token ← generate_refresh_token orm env lib token user.id SubjectType.user_subject
    write_activity_log env user.id LogAction.login
    pure (record {
      tokens = record {
        access_token = lib.sign (user_payload user.id user.id);
        refresh_token = refresh_token;
        access_token_expires_at = lib.jwt_expiration;
        refresh_token_expires_at = lib.jwt_refresh_expiration;
        user_id = user.id;
      };
      fcm_token = user.fcm_token;
    })

  -- `compare` is bcrypt's.
  unfoldable pub user_login :
      (String → String → Bool) → String → String → String → Accounts UserLogin
  unfolding complete_user_login
  user_login compare token email password = do
    found ← gets (λ db. orm.find_one User (λ u. holds_text u.email email) db.users)
    user ← or_throw found (unauthorized "Invalid email or password")
    throw_if (not (has_text user.password)) (unauthorized "Invalid email or password")
    throw_if (not (elim user.password [ none ↦ false | some hash ↦ compare password hash ]))
        (unauthorized "Invalid email or password")
    throw_if user.is_banned (unauthorized "Your account has been banned")
    let seen : User = record user { last_login_at = some env.now }
    save_user reset seen
    complete_user_login token seen

  -- The row of a new account; it has neither a phone nor a role.
  abbrev pub new_oauth_user :
      OauthProvider → String → Option String → Option String → Option String → String → ℕ → User
  new_oauth_user provider provider_id email full_name fcm_token phone role_id =
      with_provider_id provider provider_id (record {
        id = env.fresh_id 0;
        phone = phone;
        email = email;
        full_name = full_name;
        password = none;
        is_banned = false;
        registration_stage = RegistrationStage.password_set;
        fcm_token = fcm_token;
        last_login_at = some env.now;
        last_logout_at = none;
        profile_image_url = none;
        date_of_birth = none;
        gender = none;
        prefer_language = none;
        google_id = none;
        apple_id = none;
        login_provider = some (login_provider_of provider);
        role_id = role_id;
      })

  -- The login of a user that was found.
  unfoldable pub known_oauth_login :
      OauthProvider → String → Option String → String → User → Accounts OauthAnswer
  unfolding complete_user_login write_activity_log
  known_oauth_login provider provider_id fcm_token token found = do
    throw_if found.is_banned (unauthorized "Your account has been banned")
    if has_text (provider_id_of provider found)
        then pure tt
        else modify (λ db. record db {
          users =
              update (λ (u : User). u.id == found.id) (with_provider_id provider provider_id)
                db.users;
        })
    let user : User = record found {
      fcm_token = if has_text fcm_token then fcm_token else found.fcm_token;
    }
    if same_stage user.registration_stage RegistrationStage.password_set
        then save_user reset user
          >> pure (setup_required user.id user.registration_stage RegistrationStage.completed)
        else do
          let seen : User = record user { last_login_at = some env.now }
          save_user reset seen
          write_activity_log env seen.id LogAction.login
          answer ← complete_user_login token seen
          pure (oauth_logged_in answer)

  unfoldable pub handle_oauth_login :
      OauthProvider
      → String
      → Option String
      → Option String
      → Option String
      → String
      → Accounts OauthAnswer
  unfolding known_oauth_login insert_user
  handle_oauth_login provider provider_id email full_name fcm_token token = do
    found ← gets (λ db. orm.find_one User (is_oauth_account provider provider_id email) db.users)
    elim found [
      | none ↦ do
        user ←
            insert_user reset none none
              (new_oauth_user provider provider_id email full_name fcm_token)
        pure (setup_required user.id user.registration_stage RegistrationStage.completed)
      | some user ↦ known_oauth_login provider provider_id fcm_token token user
    ]

  -- `verify_id_token` is that of Google's and of Apple's library, which reads the claims or throws.
  unfoldable pub user_google_login :
      (String → Option IdClaims) → String → String → Option String → Accounts OauthAnswer
  unfolding handle_oauth_login
  user_google_login verify_id_token token id_token fcm_token = do
    payload ← or_throw (verify_id_token id_token) (unauthorized "Invalid Google token")
    throw_if (not (has_text payload.sub)) (unauthorized "Invalid Google token")
    sub ← or_throw payload.sub (unauthorized "Invalid Google token")
    handle_oauth_login OauthProvider.google sub payload.email payload.name fcm_token token

  unfoldable pub user_apple_login :
      (String → Option IdClaims) → String → String → Option String → Accounts OauthAnswer
  unfolding handle_oauth_login
  user_apple_login verify_id_token token id_token fcm_token = do
    claims ← or_throw (verify_id_token id_token) (unauthorized "Invalid Apple token")
    throw_if (not (has_text claims.sub)) (unauthorized "Invalid Apple token")
    sub ← or_throw claims.sub (unauthorized "Invalid Apple token")
    handle_oauth_login OauthProvider.apple sub claims.email none fcm_token token
