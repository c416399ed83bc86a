-- ===== src/Auth/Sessions.antt =====
-- Which refresh tokens are honoured.
use hotel_booking_management.Base.Query.{find_none}
use hotel_booking_management.Base.Exec.{Result, ok, err, unauthorized}
use hotel_booking_management.Auth.State.{AccountDb, is_expired}
use hotel_booking_management.Entities.{Surroundings, RefreshToken, Admin, User}
use hotel_booking_management.Base.{
  String, ℕ, Bool, All, Option, str_eq, List, ◌≡◌, Option-cases, In, ◌&&◌, true, false, inl, not,
  is_owner, some, inr, ◌∷◌, ◌==◌, Bool-cases, arith, ap, ◌⊎◌, sym, refl, [], eq_of_==, none,
}
use hotel_booking_management.Base.Table.{Orm, update, save}
use hotel_booking_management.Auth.Token.{
  TokenLibraries, refresh_access_token, revoke_all_user_tokens, access_of, Access, joined,
  answer_of, admin_payload, user_payload,
}

-- The row of a token that is not revoked.
abbrev pub is_live_token : TokenLibraries → String → RefreshToken → Bool
is_live_token lib token t = str_eq t.token (lib.sha256 token) && not t.is_revoked

module _ (orm : Orm) (env : Surroundings) (lib : TokenLibraries) where
  none_live_after :
      (token : String) (owned : RefreshToken → Bool) (rows : List RefreshToken)
      → All (λ t. str_eq t.token (lib.sha256 token) ≡ true → owned t ≡ true) rows
      → All
          (λ t. is_live_token lib token t ≡ false)
          (update (λ t. owned t && not t.is_revoked) (λ t. record t { is_revoked = true }) rows)
  none_live_after token owned [] h = tt
  none_live_after token owned (t ∷ ts) h = (
    elim (Bool-cases (str_eq t.token (lib.sha256 token))) [
      | inl e ↦
          (let o = h.0 e in
            elim (Bool-cases t.is_revoked) [
              | inl r ↦ rw (o, r) (ground arith)
              | inr r ↦ rw (o, r) (ground arith)
            ])
      | inr e ↦ elim (Bool-cases (owned t && not t.is_revoked)) [
        | inl r ↦ rw (r, e) refl
        | inr r ↦ rw (r, e) refl
      ]
    ],
    none_live_after token owned ts h.1,
  )

  refused :
      (token : String) (db : AccountDb)
      → All (λ t. is_live_token lib token t ≡ false) db.refresh_tokens
      → refresh_access_token orm env lib token db
        ≡ (err (unauthorized "Invalid or expired refresh token"), db)
  unfolding refresh_access_token
  refused token db h = rw (find_none orm (is_live_token lib token) db.refresh_tokens h) refl

  -- Once all tokens of a user are revoked, at any later time, a refresh token whose rows are all of
  -- that user is refused, and nothing changes.
  pub revoke_all_user_tokens_refuses :
      (later : Surroundings) (user_id : ℕ) (clear_fcm_token : Bool) (token : String)
      (db : AccountDb)
      → All
          (λ t. str_eq t.token (lib.sha256 token) ≡ true → is_owner t.user_id user_id ≡ true)
          db.refresh_tokens
      → let db' = (revoke_all_user_tokens orm later lib user_id clear_fcm_token db).1 in
        refresh_access_token orm env lib token db'
        ≡ (err (unauthorized "Invalid or expired refresh token"), db')
  unfolding revoke_all_user_tokens
  revoke_all_user_tokens_refuses later user_id clear_fcm_token token db h =
      refused token (revoke_all_user_tokens orm later lib user_id clear_fcm_token db).1
        (none_live_after token (λ t. is_owner t.user_id user_id) db.refresh_tokens h)

  -- What `refreshAccessToken` answers and leaves.
  abbrev pub Refreshed : String → AccountDb → Result Access × AccountDb → Type 0
  Refreshed token db (ok answer, db') =
      (t : RefreshToken) × In t db.refresh_tokens
      × (is_live_token lib token t ≡ true)
      × (is_expired env.now t.expires_at ≡ false)
      × (((a : Admin) × In a db.admins
            × (t.admin_id ≡ some a.id)
            × (answer ≡ answer_of orm env lib (admin_payload a.id a.id a.role_id) a.id))
          ⊎ ((u : User) × In u db.users
              × (t.user_id ≡ some u.id)
              × (answer ≡ answer_of orm env lib (user_payload u.id u.id) u.id)))
      × (db' ≡ db)
  Refreshed token db (err e, db') =
      (db' ≡ db)
      ⊎ ((t : RefreshToken) × In t db.refresh_tokens
          × (is_expired env.now t.expires_at ≡ true)
          × (db' ≡ record db {
            refresh_tokens =
                save (λ (x : RefreshToken). x.id) (record t { is_revoked = true })
                  db.refresh_tokens;
          }))

  joined_sound :
      {A : Type 0} (key : A → ℕ) (i : Option ℕ) (rows : List A) (a : A)
      → joined orm key i rows ≡ some a
      → In a rows × (i ≡ some (key a))
  joined_sound key none rows a h = cc h
  joined_sound {A} key (some i) rows a h =
      let (m, e) = orm.find_one_sound A (λ r. key r == i) rows a h in
      (m, ap some (sym (eq_of_== (key a) i e)))

  -- For every database that answers queries as documented: an access token, and no refresh token, is
  -- answered only for a row of the refresh token that is neither revoked nor expired, to the admin or
  -- the user that the row names, and nothing changes, so the refresh token stays as it was; where the
  -- call throws, the database is unchanged, or an expired row has been revoked.
  pub refresh_access_token-Refreshed :
      (token : String) (db : AccountDb)
      → Refreshed token db (refresh_access_token orm env lib token db)
  unfolding refresh_access_token access_of
  refresh_access_token-Refreshed token db =
      elim (Option-cases (orm.find_one RefreshToken (is_live_token lib token) db.refresh_tokens)) [
        | inl e ↦ rw e (inl refl)
        | inr (t, e) ↦
            let (m, live) =
              orm.find_one_sound RefreshToken (is_live_token lib token) db.refresh_tokens t e in
            elim (Bool-cases (is_expired env.now t.expires_at)) [
              | inl late ↦ rw (e, late) (inr (t, m, late, refl))
              | inr valid ↦
                  rw (e, valid)
                    (elim (Option-cases (joined orm (λ (a : Admin). a.id) t.admin_id db.admins)) [
                      | inr (a, ea) ↦
                          (let (ma, ia) =
                              joined_sound (λ (a : Admin). a.id) t.admin_id db.admins a ea in
                            rw ea (t, m, live, valid, inl (a, ma, ia, refl), refl))
                      | inl no_admin ↦
                          rw no_admin
                            (elim (Option-cases
                              (joined orm (λ (u : User). u.id) t.user_id db.users)) [
                                | inr (u, eu) ↦
                                    (let (mu, iu) =
                                        joined_sound (λ (u : User). u.id) t.user_id db.users u eu in
                                      rw eu (t, m, live, valid, inr (u, mu, iu, refl), refl))
                                | inl no_user ↦ rw no_user (inl refl)
                              ])
                    ])
            ]
      ]
