-- ===== src/Auth/OneSession.antt =====
-- The sessions that a login of a user leaves.
use hotel_booking_management.Base.Exec.{Result, ok, err}
use hotel_booking_management.Auth.Sessions.{is_live_token}
use hotel_booking_management.Auth.State.{
  AccountDb, write_activity_log, add_days, refresh_token_ttl_days,
}
use hotel_booking_management.Auth.UserAuth.{
  complete_user_login, user_login, UserLogin, holds_text, hash_password,
}
use hotel_booking_management.Auth.PasswordReset.{ResetLibraries}
use hotel_booking_management.Auth.Token.{
  TokenLibraries, revoke_all_user_tokens, generate_refresh_token, user_payload,
}
use hotel_booking_management.Entities.{Surroundings, RefreshToken, User}
use hotel_booking_management.Base.{
  ℕ, String, List, All, is_owner, ◌≡◌, true, false, In, ◌&&◌, not, ◌∷◌, Bool-cases, inl, inr, sym,
  ◌∙◌, [], refl, some, ◌++◌, ◌==◌, All-append, Bool, none, In-append_right, Option-cases, ==_refl,
  str_eq_iff, str_eq,
}
use hotel_booking_management.Base.Table.{Orm, update, save}

-- Every refresh token of the user that is not revoked is this one, and it is there.
abbrev pub OneSession : TokenLibraries → ℕ → String → List RefreshToken → Type 0
OneSession lib user_id token rows =
    All (λ t. is_owner t.user_id user_id ≡ true → t.is_revoked ≡ false → t.token ≡ lib.sha256 token)
      rows
    × ((t : RefreshToken) × In t rows
        × (is_owner t.user_id user_id ≡ true)
        × (is_live_token lib token t ≡ true))

revoked-All :
    (user_id : ℕ) (hash : String) (rows : List RefreshToken)
    → All
        (λ t. is_owner t.user_id user_id ≡ true → t.is_revoked ≡ false → t.token ≡ hash)
        (update
          (λ t. is_owner t.user_id user_id && not t.is_revoked)
          (λ t. record t { is_revoked = true })
          rows)
revoked-All user_id hash [] = tt
revoked-All user_id hash (t ∷ ts) = (
  elim (Bool-cases (is_owner t.user_id user_id && not t.is_revoked)) [
    | inl e ↦ rw e (λ o r. absurd (cc r))
    | inr e ↦ rw e (λ o r. absurd (cc (sym (and_true o r) ∙ e)))
  ],
  revoked-All user_id hash ts,
)
  where
    and_true :
        is_owner t.user_id user_id ≡ true
        → t.is_revoked ≡ false
        → (is_owner t.user_id user_id && not t.is_revoked) ≡ true
    and_true o r = rw (o, r) refl

module _ (orm : Orm) (env : Surroundings) (lib : TokenLibraries) (reset : ResetLibraries) where
  abbrev session_of : String → ℕ → RefreshToken
  session_of token user_id = record {
    id = env.fresh_id 0;
    token = lib.sha256 token;
    user_id = some user_id;
    admin_id = none;
    expires_at = some (add_days refresh_token_ttl_days env.now);
    is_revoked = false;
    created_at = env.now;
  }

  -- The rows of the refresh tokens after a login, and of the users.
  complete_user_login-refresh_tokens :
      (token : String) (user : User) (db : AccountDb)
      → (complete_user_login orm env lib reset token user db).1.refresh_tokens
        ≡ update
            (λ t. is_owner t.user_id user.id && not t.is_revoked)
            (λ t. record t { is_revoked = true })
            db.refresh_tokens
          ++ session_of token user.id ∷ []
  unfolding complete_user_login revoke_all_user_tokens generate_refresh_token write_activity_log
  complete_user_login-refresh_tokens token user db = refl

  pub complete_user_login-users :
      (token : String) (user : User) (db : AccountDb)
      → (complete_user_login orm env lib reset token user db).1.users
        ≡ update (λ u. u.id == user.id) (λ u. record u { last_logout_at = some env.now }) db.users
  unfolding complete_user_login revoke_all_user_tokens generate_refresh_token write_activity_log
  complete_user_login-users token user db = refl

  pub complete_user_login-OneSession :
      (token : String) (user : User) (db : AccountDb)
      → OneSession lib user.id token
          (complete_user_login orm env lib reset token user db).1.refresh_tokens
  complete_user_login-OneSession token user db =
      let hash = lib.sha256 token in
      let new = session_of token user.id in
      let before =
        update (λ t. is_owner t.user_id user.id && not t.is_revoked)
          (λ t. record t { is_revoked = true }) db.refresh_tokens in
      rw (complete_user_login-refresh_tokens token user db) (
        All-append (λ t. is_owner t.user_id user.id ≡ true → t.is_revoked ≡ false → t.token ≡ hash)
            before (new ∷ []) (revoked-All user.id hash db.refresh_tokens) ((λ o r. refl), tt),
        (
          new,
          In-append_right new before (new ∷ []) (inl refl),
          ==_refl user.id,
          rw ((str_eq_iff hash hash).1 refl) refl,
        ),
      )

  -- What `userLogin` requires and leaves.
  abbrev pub LoggedIn :
      (String → String → Bool)
      → String
      → String
      → String
      → AccountDb
      → Result UserLogin × AccountDb
      → Type 0
  LoggedIn compare token email password db (ok answer, db') =
      (u : User) × (hash : String) × In u db.users
      × (holds_text u.email email ≡ true)
      × (u.password ≡ some hash)
      × (compare password hash ≡ true)
      × (u.is_banned ≡ false)
      × (answer.tokens.access_token ≡ lib.sign (user_payload u.id u.id))
      × (answer.tokens.refresh_token ≡ token)
      × OneSession lib u.id token db'.refresh_tokens
  LoggedIn compare token email password db (err e, db') = db' ≡ db

  -- For every database that answers queries as documented: `userLogin` either throws and changes
  -- nothing, or it has found a stored user by the email, who has a password that bcrypt accepts and
  -- is not banned; the answer is that user's access token and the new refresh token, which is then
  -- the only refresh token of the user that is not revoked.
  pub user_login-LoggedIn :
      (compare : String → String → Bool) (token email password : String) (db : AccountDb)
      → LoggedIn compare token email password db
          (user_login orm env lib reset compare token email password db)
  unfolding user_login
  user_login-LoggedIn compare token email password db =
      elim (Option-cases (orm.find_one User (λ u. holds_text u.email email) db.users)) [
        | inl e ↦ rw e refl
        | inr (u, e) ↦
            let (m, same) = orm.find_one_sound User (λ u. holds_text u.email email) db.users u e in
            elim (Option-cases u.password) [
              | inl no_password ↦ rw (e, no_password) refl
              | inr (hash, p) ↦ elim (Bool-cases (not (str_eq hash ""))) [
                | inr empty ↦ rw (e, p, empty) refl
                | inl given ↦ elim (Bool-cases (compare password hash)) [
                  | inr wrong ↦ rw (e, p, given, wrong) refl
                  | inl right ↦ elim (Bool-cases u.is_banned) [
                    | inl banned ↦ rw (e, p, given, right, banned) refl
                    | inr welcome ↦
                        let seen : User = record u {
                          password = some hash;
                          is_banned = false;
                          last_login_at = some env.now;
                        } in
                        let saved = save (λ (x : User). x.id) (hash_password reset seen) db.users in
                        rw (e, p, given, right, welcome)
                          (
                            u,
                            hash,
                            m,
                            same,
                            p,
                            right,
                            welcome,
                            refl,
                            refl,
                            complete_user_login-OneSession token seen (record db { users = saved }),
                          )
                  ]
                ]
              ]
            ]
      ]
