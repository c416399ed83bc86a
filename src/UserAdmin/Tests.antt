-- ===== src/UserAdmin/Tests.antt =====
-- The administration of users at the small database.
use hotel_booking_management.Auth.UserAuth.{UserLogin}
use hotel_booking_management.Auth.Samples.{store}
use hotel_booking_management.Samples.{env}
use hotel_booking_management.UserAdmin.Phones.{
  phone_of, update_user-UniqueNames, register_repeats_phone,
}
use hotel_booking_management.Auth.Samples.{accounts, profile_body, guest, lib, reset_lib, newcomer}
use hotel_booking_management.Base.{
  none, some, ◌∷◌, [], ◌≡◌, arith, any, ◌==◌, ◌&&◌, str_eq, true, inr, inl, refl, ◌≢◌, str_eq_iff,
}
use hotel_booking_management.UserAdmin.{update_user}
use hotel_booking_management.Base.Names.{UniqueNames}
use hotel_booking_management.Auth.State.{AccountDb}
use hotel_booking_management.Base.Exec.{err, ok, conflict}
use hotel_booking_management.Auth.Profile.{UpdateProfile}
use hotel_booking_management.Auth.Register.{user_register, UserRegister}
use hotel_booking_management.Base.Table.{scan_order}

abbrev with_newcomer : AccountDb
with_newcomer = record accounts { users = guest ∷ newcomer ∷ [] }

abbrev to_free_phone : UpdateProfile
to_free_phone = record profile_body { phone = some "0944" }

abbrev register_body : UserRegister
register_body = record {
  phone = "0922";
  password = "secret";
  full_name = "Other";
  email = none;
  date_of_birth = none;
  gender = none;
  prefer_language = none;
}

taken_phone :
    (update_user scan_order env lib reset_lib store 9
      (record profile_body { phone = some "0911" })
      none
      with_newcomer).0
    ≡ err (conflict "User with this phone already exists")
unfolding update_user
taken_phone = refl

phones_differ : newcomer.phone ≢ guest.phone
phones_differ h =
    let same : str_eq newcomer.phone guest.phone ≡ true =
      (str_eq_iff newcomer.phone guest.phone).1 h in
    absurd (cc same)

update_user-UniqueNames_example :
    UniqueNames phone_of
      (update_user scan_order env lib reset_lib store 9 to_free_phone none with_newcomer).1.users
update_user-UniqueNames_example =
    update_user-UniqueNames scan_order env lib reset_lib store 9 to_free_phone none with_newcomer
      (λ h. absurd (cc h)) (omega arith) ((phones_differ, tt), (tt, tt))

register_repeats_phone_example :
    let (answer, db') =
      user_register scan_order env lib reset_lib store "b" register_body none with_newcomer in
    ((login : UserLogin) × (answer ≡ ok login) × (login.tokens.user_id ≡ 100))
    × any (λ v. v.id == 9 && str_eq v.phone "0922") db'.users ≡ true
    × any (λ v. v.id == 100 && str_eq v.phone "0922") db'.users ≡ true
register_repeats_phone_example =
    register_repeats_phone scan_order env lib reset_lib store "b" register_body none newcomer
      (record { id = 5; name = "Customer" }) with_newcomer (inr (inl refl)) refl (refl, (refl, tt))
      refl
