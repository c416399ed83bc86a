-- ===== src/UserAdmin/Phones.antt =====
-- The phones of users.
use hotel_booking_management.Base.Keys.{In-update}
use hotel_booking_management.Base.Query.{find_none}
use hotel_booking_management.Auth.Stages.{key}
use hotel_booking_management.Base.Names.{UniqueNames, UniqueNames-save, name_of_other}
use hotel_booking_management.Base.Exec.{Exception, err, ok}
use hotel_booking_management.Auth.Profile.{UpdateProfile, preload_user}
use hotel_booking_management.Auth.State.{AccountDb, RoleRow}
use hotel_booking_management.Auth.UserAuth.{hash_password, complete_user_login, UserLogin}
use hotel_booking_management.Auth.Register.{
  user_register, UserRegister, is_registered, find_customer_role, image_of, new_registered_user,
  new_image,
}
use hotel_booking_management.UserAdmin.{check_phone, update_user, has_phone}
use hotel_booking_management.Auth.Images.{ObjectStore, UploadedFile, resolve_profile_image_url}
use hotel_booking_management.Auth.PasswordReset.{ResetLibraries}
use hotel_booking_management.Auth.Token.{TokenLibraries, revoke_all_user_tokens}
use hotel_booking_management.Base.{
  String, Option, ℕ, ◌≢◌, ◌≡◌, some, In, Option-cases, ◌⊎◌, All, ◌==◌, inl, false, inr, refl, any,
  ◌&&◌, str_eq, true, In-All, List, none, Bool-cases, Bool, ap, ==_refl, ◌++◌, str_eq_iff, ◌∷◌, ◌∙◌,
  [], All-imp, In-append_left, In-append_right,
}
use hotel_booking_management.Entities.{Surroundings, User}
use hotel_booking_management.Base.Table.{Orm, UniqueIds, update, any_of_In, In-update_hit}

abbrev pub phone_of : User → String
phone_of u = u.phone

abbrev new_phone : User → Option String → String
new_phone user none = user.phone
new_phone user (some phone) = phone

module _ (orm : Orm) (env : Surroundings) (lib : TokenLibraries) (reset : ResetLibraries)
    (store : ObjectStore) where
  phone_checked :
      (user : User) (phone : Option String) (db : AccountDb)
      → phone ≢ some ""
      → UniqueNames phone_of db.users
      → In user db.users
      → ((e : Exception) × (check_phone orm env lib reset store user phone db ≡ (err e, db)))
        ⊎ ((check_phone orm env lib reset store user phone db ≡ (ok tt, db))
            × All (λ u. u.id ≢ user.id → u.phone ≢ new_phone user phone) db.users)
  unfolding check_phone
  phone_checked user none db ne u m = inr (
    refl,
    In-All db.users (λ x mx other. name_of_other phone_of key x user db.users u mx m other),
  )
  phone_checked user (some phone) db ne u m = elim (Bool-cases (str_eq phone "")) [
    | inl empty ↦ absurd (ne (ap some ((str_eq_iff phone "").0 empty)))
    | inr text ↦ elim (Bool-cases (str_eq phone user.phone)) [
      | inl same ↦
          rw (text, same)
            (inr (
              refl,
              In-All db.users (λ x mx other h.
                  name_of_other phone_of key x user db.users u mx m other
                    (h ∙ (str_eq_iff phone user.phone).0 same)),
            ))
      | inr differs ↦
          elim (Option-cases
            (orm.find_one User (has_phone orm env lib reset store phone) db.users)) [
              | inr (v, e) ↦ rw (text, differs, e) (inl (_, refl))
              | inl e ↦
                  rw (text, differs, e)
                    (inr (
                      refl,
                      All-imp (λ x. str_eq x.phone phone ≡ false)
                          (λ x. x.id ≢ user.id → x.phone ≢ phone) db.users
                          (λ x f other same.
                            let t : str_eq x.phone phone ≡ true =
                              (str_eq_iff x.phone phone).1 same in
                            absurd (cc (rw t at f)))
                          (orm.find_one_complete User (has_phone orm env lib reset store phone)
                            db.users e),
                    ))
            ]
    ]
  ]

  -- An administrator's update of a user, to a phone that is not empty, keeps the phones of users
  -- unique, whether it throws or not.
  pub update_user-UniqueNames :
      (id : ℕ) (dto : UpdateProfile) (file : Option UploadedFile) (db : AccountDb)
      → dto.phone ≢ some ""
      → UniqueIds key db.users
      → UniqueNames phone_of db.users
      → UniqueNames phone_of (update_user orm env lib reset store id dto file db).1.users
  unfolding update_user hash_password
  update_user-UniqueNames id dto file db ne ids u =
      elim (Option-cases (orm.find_one User (λ u. u.id == id) db.users)) [
        | inl e ↦ rw e u
        | inr (user, e) ↦
            let (m, same) = orm.find_one_sound User (λ u. u.id == id) db.users user e in
            let url =
              resolve_profile_image_url store file dto.profile_image_url (image_of user)
                "users/profile" in
            let new = hash_password reset (preload_user orm env lib reset dto url user) in
            elim (phone_checked user dto.phone db ne u m) [
              | inl (x, taken) ↦ rw (e, taken) u
              | inr (fine, free) ↦
                  rw (e, fine) (UniqueNames-save phone_of key new db.users ids u free)
            ]
      ]

  -- A user's row after the update of a login.
  kept_phone :
      (a : User) (phone : String) (i : ℕ) (rows : List User)
      → In a rows
      → a.phone ≡ phone
      → any
          (λ v. v.id == a.id && str_eq v.phone phone)
          (update (λ (x : User). x.id == i) (λ x. record x { last_logout_at = some env.now }) rows)
        ≡ true
  kept_phone a phone i rows m same =
      let f : User → User = λ x. record x { last_logout_at = some env.now } in
      let p : User → Bool = λ x. x.id == i in
      let q : User → Bool = λ v. v.id == a.id && str_eq v.phone phone in
      let mine : q a ≡ true = rw (==_refl a.id, (str_eq_iff a.phone phone).1 same) refl in
      elim (Bool-cases (p a)) [
        | inl e ↦ any_of_In q (f a) (update p f rows) (In-update_hit p f a rows m e) mine
        | inr e ↦
            let there : In a (update p f rows) = rw e at (In-update p f a rows m) in
            any_of_In q a (update p f rows) there mine
      ]

  -- A registration in one step does not keep them unique: where a stored user has a phone, but none
  -- has completed the registration with it, the registration succeeds, and both that user's row and
  -- the row of the new identifier have the phone.
  pub register_repeats_phone :
      (token : String) (dto : UserRegister) (file : Option UploadedFile) (u : User) (role : RoleRow)
      (db : AccountDb)
      → In u db.users
      → u.phone ≡ dto.phone
      → All (λ v. is_registered dto.phone v ≡ false) db.users
      → find_customer_role orm env lib reset db ≡ some role
      → let (answer, db') = user_register orm env lib reset store token dto file db in
        ((login : UserLogin) × (answer ≡ ok login) × (login.tokens.user_id ≡ env.fresh_id 0))
        × any (λ v. v.id == u.id && str_eq v.phone dto.phone) db'.users ≡ true
        × any (λ v. v.id == env.fresh_id 0 && str_eq v.phone dto.phone) db'.users ≡ true
  unfolding user_register complete_user_login hash_password revoke_all_user_tokens
  register_repeats_phone token dto file u role db m same unfinished r =
      let free = find_none orm (is_registered dto.phone) db.users unfinished in
      let new = hash_password reset (
        new_registered_user orm env lib reset dto (new_image orm env lib reset store file) dto.phone
          role.id) in
      rw (free, r)
        (
          (_, refl, refl),
          kept_phone u dto.phone (env.fresh_id 0) (db.users ++ new ∷ [])
              (In-append_left u db.users (new ∷ []) m) same,
          kept_phone new dto.phone (env.fresh_id 0) (db.users ++ new ∷ [])
              (In-append_right new db.users (new ∷ []) (inl refl)) refl,
        )
