-- ===== src/Auth/UserTests.antt =====
-- The login and the registration of users at the small database.
use hotel_booking_management.Auth.Takeover.{
  oauth_link_lost, oauth_login_adds_none, banned_user_unbans, phone_takes_over, IsOfOneOf,
}
use hotel_booking_management.Base.Exec.{err, unauthorized, ok, Result, Exception}
use hotel_booking_management.Auth.Completion.{Reaches, run_users-Reaches, IsRemoved}
use hotel_booking_management.Samples.{env}
use hotel_booking_management.Auth.Stages.{key}
use hotel_booking_management.Auth.Samples.{
  accounts, guest, lib, reset_lib, newcomer, store, compare, set_up_body, profile_body,
}
use hotel_booking_management.Auth.Register.{
  user_register_otp_verify, user_register_password_setup, user_register_account_setup,
}
use hotel_booking_management.Entities.{User, Surroundings, RegistrationStage}
use hotel_booking_management.Auth.UserAuth.{
  user_login, handle_oauth_login, provider_id_of, hash_password, OauthProvider, complete_user_login,
  UserLogin, is_oauth_account, OauthAnswer,
}
use hotel_booking_management.Base.{
  List, All, In, ◌≡◌, ◌∷◌, true, arith, [], some, none, inr, false, refl, inl, ◌⊎◌, any,
}
use hotel_booking_management.Auth.Profile.{update_user_profile}
use hotel_booking_management.Auth.OneSession.{LoggedIn, user_login-LoggedIn, OneSession}
use hotel_booking_management.Auth.State.{AccountDb}
use hotel_booking_management.Auth.Requests.{
  handle_user, UserLibraries, UserRequest, run_users, set_password, set_up, log_in, AllFresh,
  remove_profile,
}
use hotel_booking_management.Base.Table.{scan_order, UniqueIds}

abbrev newcomers : AccountDb
newcomers = record accounts { users = guest ∷ newcomer ∷ [] }

abbrev banned : User
banned = record guest { is_banned = true }

abbrev user_lib : UserLibraries
user_lib = record { tokens = lib; reset = reset_lib; store = store; compare = compare }

abbrev requests : List (Surroundings × UserRequest)
requests =
    (env, set_password 8 "a" "b")
    ∷ (env, set_up "b" set_up_body none)
    ∷ (env, log_in "c" "new@mail" "secret")
    ∷ (env, remove_profile 7)
    ∷ []

user_login_sample :
    (user_login scan_order env lib reset_lib compare "b" "guest@mail" "wrong" accounts).0
    ≡ err (unauthorized "Invalid email or password")
unfolding user_login
user_login_sample = refl

user_login-LoggedIn_example :
    LoggedIn scan_order env lib reset_lib compare "b" "guest@mail" "secret" accounts
      (user_login scan_order env lib reset_lib compare "b" "guest@mail" "secret" accounts)
user_login-LoggedIn_example =
    user_login-LoggedIn scan_order env lib reset_lib compare "b" "guest@mail" "secret" accounts

newcomers_unique : UniqueIds key newcomers.users
newcomers_unique = omega arith

requests_fresh : AllFresh scan_order user_lib requests newcomers
unfolding handle_user user_register_password_setup user_register_account_setup hash_password
    complete_user_login user_login
requests_fresh = (omega arith, (omega arith, (omega arith, (omega arith, tt))))

run_users-Reaches_example :
    IsRemoved scan_order user_lib 9 requests
    ⊎ ((v : User) × In v (run_users scan_order user_lib requests newcomers).users
        × (v.id ≡ 9)
        × Reaches RegistrationStage.password_set v.registration_stage)
run_users-Reaches_example =
    run_users-Reaches scan_order user_lib requests newcomers newcomer newcomers_unique
      requests_fresh (inr (inl refl))

phone_takes_over_example :
    let checked =
      user_register_otp_verify scan_order env lib reset_lib "0922" "no" "device" "none" newcomers in
    let (answer, db') =
      user_register_account_setup scan_order env lib reset_lib store "b" set_up_body none
        checked.1 in
    (checked.0
      ≡ ok (record {
        user_id = 9;
        current_stage = RegistrationStage.password_set;
        next_stage = RegistrationStage.completed;
      }))
    × ((login : UserLogin) × (answer ≡ ok login) × (login.tokens.refresh_token ≡ "b"))
    × OneSession lib 9 "b" db'.refresh_tokens
phone_takes_over_example =
    phone_takes_over scan_order env lib reset_lib store "0922" "no" "device" "none" "b" set_up_body
      none newcomer newcomers refl refl refl refl

abbrev first_login : Result OauthAnswer × AccountDb
first_login =
    handle_oauth_login scan_order env lib reset_lib OauthProvider.google "g-1" (some "other@mail")
      none none "b" accounts

oauth_login_adds_none_example :
    All (IsOfOneOf scan_order env lib reset_lib accounts.users) first_login.1.users
    × (((e : Exception) × (first_login.0 ≡ err e))
        ⊎ (any (is_oauth_account OauthProvider.google "g-1" (some "other@mail")) accounts.users
            ≡ true))
oauth_login_adds_none_example =
    oauth_login_adds_none scan_order env lib reset_lib OauthProvider.google "g-1"
      (some "other@mail") none none "b" accounts (tt, tt)

oauth_link_lost_example :
    All
      (λ v. v.id ≡ 7 → provider_id_of OauthProvider.google v ≡ none)
      (handle_oauth_login scan_order env lib reset_lib OauthProvider.google "g-1"
        (some "guest@mail")
        none
        none
        "b"
        accounts).1.users
oauth_link_lost_example =
    oauth_link_lost scan_order env lib reset_lib OauthProvider.google "g-1" (some "guest@mail") none
      none "b" guest accounts (tt, tt) refl refl

banned_user_unbans_example :
    let (answer, db') =
      update_user_profile scan_order env lib reset_lib store 7 profile_body none
        (record accounts { users = banned ∷ [] }) in
    (v : User) × (answer ≡ ok v) × In v db'.users × (v.id ≡ 7) × (v.is_banned ≡ false)
banned_user_unbans_example =
    banned_user_unbans scan_order env lib reset_lib store profile_body none banned
      (record accounts { users = banned ∷ [] }) refl refl
