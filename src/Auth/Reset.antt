-- ===== src/Auth/Reset.antt =====
-- Who can reset a password, and what becomes of the sessions.
use hotel_booking_management.Base.Query.{find_appended}
use hotel_booking_management.Base.Exec.{Result, ok, err}
use hotel_booking_management.Auth.Otp.{verify, new_otp_record}
use hotel_booking_management.Auth.Token.{revoke_all_user_tokens, TokenLibraries}
use hotel_booking_management.Auth.State.{AccountDb, write_activity_log, is_expired, add_minutes}
use hotel_booking_management.Base.{
  String, ℕ, Option, List, some, All, is_owner, Bool-cases, ◌≡◌, inr, str_eq, true, inl, In,
  Option-cases, false, ◌&&◌, ◌≤◌, not, ◌==◌, ◌+◌, ◌∷◌, eq_of_==, ltb, arith, none, [], ==_refl,
  refl, ◌∙◌, ap, sym,
}
use hotel_booking_management.Auth.PasswordReset.{
  ResetLibraries, user_password_reset_otp_send, user_reset_password, verify_password_reset_otp_code,
  hash_password_if_needed, ResetClaims, is_user_reset, claims_reset,
}
use hotel_booking_management.Entities.{
  Surroundings, User, OtpPurpose, RefreshToken, same_otp_purpose,
}
use hotel_booking_management.Base.Table.{Orm, update, In-update_hit, save, In-save_self}

module _ (orm : Orm) (env : Surroundings) (lib : ResetLibraries) where
  -- The record of a code that the SMS provider sends holds the text SMS_OTP in place of the code, and
  -- the check for admins compares with it: if a user whom the query finds by phone asks for a code and
  -- has no other pending one, the text SMS_OTP passes as that user's code for ten minutes, and a
  -- token to set a new password is answered, whatever the provider sent.
  pub sms_code_bypass :
      (later : Surroundings) (phone : String) (u : User) (request : Option String) (db : AccountDb)
      → orm.find_one User (λ x. str_eq x.phone phone) db.users ≡ some u
      → lib.send_sms u.phone ≡ some request
      → All (λ r. is_user_reset u.id r ≡ false) db.otp_records
      → later.now ≤ env.now + 600000
      → let (r, db') = user_password_reset_otp_send orm env lib phone db in
        (r ≡ ok u.id)
        × ((verify_password_reset_otp_code orm later lib u.id "SMS_OTP" db').0
            ≡ ok (u.id, lib.sign_reset u.id))
  unfolding user_password_reset_otp_send verify_password_reset_otp_code verify is_expired
      new_otp_record write_activity_log add_minutes
  sms_code_bypass later phone u request db found sent free soon =
      let row =
        new_otp_record env OtpPurpose.reset_password "SMS_OTP"
          (record { user_id = some u.id; admin_id = none }) request 3 in
      let pending : is_user_reset u.id row ≡ true = rw (==_refl u.id) refl in
      let stored = find_appended orm (is_user_reset u.id) row db.otp_records free pending in
      let in_time : ltb (env.now + 600000) later.now ≡ false =
        not_later (env.now + 600000) later.now soon in
      rw (found, sent, stored, in_time) (refl, refl)
    where
      not_later : (a b : ℕ) → b ≤ a → ltb a b ≡ false
      not_later a b h = ground arith

  -- The user with the new password, signed out.
  abbrev pub with_password : String → User → User
  with_password new_password u = record u {
    password = some (hash_password_if_needed lib new_password);
    last_logout_at = some env.now;
    fcm_token = some "";
  }

  -- What `userResetPassword` requires and leaves.
  abbrev pub Reset : String → String → AccountDb → Result (Unit {0}) × AccountDb → Type 0
  Reset token new_password db (ok answer, db') =
      (c : ResetClaims) × (u : User) × (lib.verify_token env.now token ≡ true)
      × (lib.decode token ≡ some c)
      × (c.token_type ≡ some OtpPurpose.reset_password)
      × (c.user_id ≡ some u.id)
      × In u db.users
      × In (with_password new_password u) db'.users
      × All (λ t. is_owner t.user_id u.id ≡ true → t.is_revoked ≡ true) db'.refresh_tokens
  Reset token new_password db (err e, db') = db' ≡ db

  revoke_lem :
      (id : ℕ) (rows : List RefreshToken)
      → All
          (λ t. is_owner t.user_id id ≡ true → t.is_revoked ≡ true)
          (update
            (λ t. is_owner t.user_id id && not t.is_revoked)
            (λ t. record t { is_revoked = true })
            rows)
  revoke_lem id [] = tt
  revoke_lem id (t ∷ ts) = elim (Bool-cases (is_owner t.user_id id && not t.is_revoked)) [
    | inl e ↦ rw e ((λ _. refl), revoke_lem id ts)
    | inr e ↦ rw e ((λ own. ground arith), revoke_lem id ts)
  ]

  claims_reset_type :
      (t : Option OtpPurpose)
      → (elim t [ none ↦ false | some x ↦ same_otp_purpose x OtpPurpose.reset_password ]) ≡ true
      → t ≡ some OtpPurpose.reset_password
  claims_reset_type none h = absurd (cc h)
  claims_reset_type (some OtpPurpose.two_factor) h = absurd (cc h)
  claims_reset_type (some OtpPurpose.reset_password) h = refl

  -- For every database that answers queries as documented: `userResetPassword` either throws and
  -- changes nothing, or the token was accepted, was issued for a reset, and names a stored user, who
  -- has the new password and all of whose refresh tokens are revoked.
  pub user_reset_password-Reset :
      (tokens : TokenLibraries) (token new_password : String) (db : AccountDb)
      → Reset token new_password db (user_reset_password orm env lib tokens token new_password db)
  unfolding user_reset_password revoke_all_user_tokens write_activity_log
  user_reset_password-Reset tokens token new_password db =
      elim (Bool-cases (lib.verify_token env.now token)) [
        | inr refused ↦ rw refused refl
        | inl accepted ↦ rw accepted (elim (Option-cases (lib.decode token)) [
          | inl e ↦ rw e refl
          | inr (c, e) ↦ rw e (elim (Option-cases c.user_id) [
            | inl nobody ↦ rw nobody refl
            | inr (id, who) ↦ rw who (elim (Bool-cases (claims_reset c)) [
              | inr other ↦ rw other refl
              | inl reset ↦
                  rw reset (elim (Option-cases (orm.find_one User (λ u. u.id == id) db.users)) [
                    | inl missing ↦ rw missing refl
                    | inr (u, found) ↦
                        let (m, same) =
                          orm.find_one_sound User (λ u. u.id == id) db.users u found in
                        let i : u.id ≡ id = eq_of_== u.id id same in
                        let key : User → ℕ = λ x. x.id in
                        let saved : User = record u {
                          password = some (hash_password_if_needed lib new_password);
                        } in
                        let there =
                          In-update_hit (λ (x : User). x.id == id)
                            (λ x. record x { last_logout_at = some env.now; fcm_token = some "" })
                            saved (save key saved db.users) (In-save_self key saved db.users)
                            same in
                        rw found (
                          (
                            c,
                            u,
                            accepted,
                            e,
                            claims_reset_type c.token_type reset,
                            who ∙ ap some (sym i),
                            m,
                            there,
                            rw i (revoke_lem id db.refresh_tokens),
                          ))
                  ])
            ])
          ])
        ])
      ]
