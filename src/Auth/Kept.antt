-- ===== src/Auth/Kept.antt =====
-- `resetPassword` (src/v1/auth/services/password-reset.service.ts) and the sessions of its user.
use hotel_booking_management.Auth.Issued.{joins_user}
use hotel_booking_management.Base.Exec.{ok}
use hotel_booking_management.Auth.Sessions.{is_live_token}
use hotel_booking_management.Auth.State.{write_audit_log, write_activity_log, AccountDb, is_expired}
use hotel_booking_management.Auth.Token.{
  refresh_access_token, access_of, TokenLibraries, answer_of, user_payload, joined,
}
use hotel_booking_management.Auth.PasswordReset.{
  ResetLibraries, reset_password, claims_reset, hash_password_if_needed,
}
use hotel_booking_management.Base.{
  List, In, ◌≡◌, ℕ, Bool-cases, String, ◌==◌, inl, inr, Option-cases, some, sym, none, eq_of_==,
  false, ne_of_==, refl,
}
use hotel_booking_management.Entities.{User, Surroundings, RefreshToken, Admin}
use hotel_booking_management.Base.Table.{Orm, save, In-save_self, In-save_ne}

kept_user :
    (e u : User) (users : List User)
    → In u users
    → (v : User) × In v (save (λ (x : User). x.id) e users) × (v.id ≡ u.id)
kept_user e u users m =
    let key : User → ℕ = λ x. x.id in
    elim (Bool-cases (u.id == e.id)) [
      | inl same ↦ (e, In-save_self key e users, sym (eq_of_== u.id e.id same))
      | inr other ↦ (u, In-save_ne key e u users m (ne_of_== u.id e.id other), refl)
    ]

module _ (orm : Orm) (env : Surroundings) (lib : ResetLibraries) where
  -- Whatever its outcome, `resetPassword` keeps refresh tokens and users, apart from their columns.
  keeps_rows :
      (token new_password : String) (u : User) (db : AccountDb)
      → In u db.users
      → let db' = (reset_password orm env lib token new_password db).1 in
        (db'.refresh_tokens ≡ db.refresh_tokens) × ((v : User) × In v db'.users × (v.id ≡ u.id))
  unfolding reset_password write_audit_log write_activity_log
  keeps_rows token new_password u db m = elim (Bool-cases (lib.verify_token env.now token)) [
    | inr refused ↦ rw refused (refl, (u, m, refl))
    | inl accepted ↦ rw accepted (elim (Option-cases (lib.decode token)) [
      | inl e ↦ rw e (refl, (u, m, refl))
      | inr (c, e) ↦ rw e (elim (Option-cases c.user_id) [
        | inl nobody ↦ rw nobody (refl, (u, m, refl))
        | inr (id, who) ↦
            rw who (elim (Option-cases (orm.find_one User (λ x. x.id == id) db.users)) [
              | inl none_there ↦
                  rw none_there
                    (elim (Option-cases (orm.find_one Admin (λ x. x.id == id) db.admins)) [
                      | inl missing ↦ rw missing (refl, (u, m, refl))
                      | inr (a, found) ↦ rw found (elim (Bool-cases (claims_reset c)) [
                        | inr other ↦ rw other (refl, (u, m, refl))
                        | inl reset ↦ rw reset ((refl, (u, m, refl)))
                      ])
                    ])
              | inr (x, found) ↦ rw found (elim (Bool-cases (claims_reset c)) [
                | inr other ↦ rw other (refl, (u, m, refl))
                | inl reset ↦
                    let kept =
                      kept_user
                        (record x { password = some (hash_password_if_needed lib new_password) }) u
                        db.users m in
                    rw reset ((refl, kept))
              ])
            ])
      ])
    ])
  ]

  -- `resetPassword` ends no session: if the query finds a live row of a refresh token, of a stored
  -- user and no admin, then after any call of `resetPassword` the token still gets an access token of
  -- that user until the row expires.
  pub reset_password_keeps_sessions :
      (later : Surroundings) (tokens : TokenLibraries) (token new_password session : String)
      (t : RefreshToken) (u : User) (db : AccountDb)
      → orm.find_one RefreshToken (is_live_token tokens session) db.refresh_tokens ≡ some t
      → t.admin_id ≡ none
      → t.user_id ≡ some u.id
      → In u db.users
      → is_expired later.now t.expires_at ≡ false
      → (refresh_access_token orm later tokens session
          (reset_password orm env lib token new_password db).1).0
        ≡ ok (answer_of orm later tokens (user_payload u.id u.id) u.id)
  unfolding refresh_access_token access_of
  reset_password_keeps_sessions later tokens token new_password session t u db live no_admin of_user
        m valid =
      let db' = (reset_password orm env lib token new_password db).1 in
      let (same_tokens, (v, mv, iv)) = keeps_rows token new_password u db m in
      let (w, joins, iw) = joins_user orm env tokens v db'.users mv in
      let joins' : joined orm (λ (x : User). x.id) (some u.id) db'.users ≡ some w =
        rw (← iv) joins in
      rw (same_tokens, live, valid, no_admin, of_user, joins', iw, iv) refl
