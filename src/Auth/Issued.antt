-- ===== src/Auth/Issued.antt =====
-- A refresh token from its issue to its expiry.
use hotel_booking_management.Base.Exec.{ok, err, unauthorized}
use hotel_booking_management.Auth.Sessions.{is_live_token}
use hotel_booking_management.Base.Query.{find_some, find_appended}
use hotel_booking_management.Auth.State.{is_expired, AccountDb, add_days, refresh_token_ttl_days}
use hotel_booking_management.Base.{
  String, ℕ, List, In, some, All, none, str_eq, ◌≡◌, false, ◌==◌, ◌++◌, ==_refl, if◌then◌else◌, ◌∷◌,
  eq_of_==, leb, [], true, str_eq_iff, inl, ltb, arith, Bool-cases, inr, refl, All-imp,
}
use hotel_booking_management.Auth.Token.{
  TokenLibraries, generate_refresh_token, refresh_access_token, access_of, joined, answer_of,
  user_payload,
}
use hotel_booking_management.Entities.{Surroundings, User, RefreshToken, SubjectType}
use hotel_booking_management.Base.Table.{Orm}

module _ (orm : Orm) (env : Surroundings) (lib : TokenLibraries) where
  abbrev issued : String → ℕ → RefreshToken
  issued token user_id = record {
    id = env.fresh_id 0;
    token = lib.sha256 token;
    user_id = some user_id;
    admin_id = none;
    expires_at = some (add_days refresh_token_ttl_days env.now);
    is_revoked = false;
    created_at = env.now;
  }

  -- The query for an issued token finds its row.
  finds_issued :
      (token : String) (user_id : ℕ) (rows : List RefreshToken)
      → All (λ t. str_eq t.token (lib.sha256 token) ≡ false) rows
      → orm.find_one RefreshToken (is_live_token lib token) (rows ++ issued token user_id ∷ [])
        ≡ some (issued token user_id)
  finds_issued token user_id rows h =
      find_appended orm (is_live_token lib token) (issued token user_id) rows
        (All-imp (λ t. str_eq t.token (lib.sha256 token) ≡ false)
          (λ t. is_live_token lib token t ≡ false) rows (λ t ne. rw ne refl) h)
        (rw ((str_eq_iff (lib.sha256 token) (lib.sha256 token)).1 refl) refl)

  -- The row of the user that a token names.
  pub joins_user :
      (u : User) (users : List User)
      → In u users
      → (v : User) × (joined orm (λ (x : User). x.id) (some u.id) users ≡ some v) × (v.id ≡ u.id)
  joins_user u users m =
      let (v, e) = find_some orm (λ (x : User). x.id == u.id) u users m (==_refl u.id) in
      let (mv, same) = orm.find_one_sound User (λ x. x.id == u.id) users v e in
      (v, e, eq_of_== v.id u.id same)

  -- A refresh token that was issued to a stored user, with a hash that no earlier row has, gets an
  -- access token of that user until thirty days have passed, and is refused as expired afterwards.
  pub refresh_access_token-generate_refresh_token :
      (later : Surroundings) (token : String) (u : User) (db : AccountDb)
      → In u db.users
      → All (λ t. str_eq t.token (lib.sha256 token) ≡ false) db.refresh_tokens
      → let db' = (generate_refresh_token orm env lib token u.id SubjectType.user_subject db).1 in
        (refresh_access_token orm later lib token db').0 ≡ (
          if leb later.now (add_days 30 env.now)
          then ok (answer_of orm later lib (user_payload u.id u.id) u.id)
          else err (unauthorized "Expired refresh token"))
  unfolding generate_refresh_token refresh_access_token access_of is_expired
  refresh_access_token-generate_refresh_token later token u db m h =
      let (v, ev, same) = joins_user u db.users m in
      let until = add_days 30 env.now in
      elim (Bool-cases (leb later.now until)) [
        | inl valid ↦
            let not_yet : ltb until later.now ≡ false = in_time later.now until valid in
            rw (finds_issued token u.id db.refresh_tokens h, valid, not_yet, ev, same) refl
        | inr late ↦
            let over : ltb until later.now ≡ true = too_late later.now until late in
            rw (finds_issued token u.id db.refresh_tokens h, late, over) refl
      ]
    where
      in_time : (a b : ℕ) → leb a b ≡ true → ltb b a ≡ false
      in_time a b h = ground arith

      too_late : (a b : ℕ) → leb a b ≡ false → ltb b a ≡ true
      too_late a b h = ground arith
