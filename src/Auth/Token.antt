-- ===== src/Auth/Token.antt =====
-- Refresh tokens (src/v1/auth/services/token.service.ts).
use hotel_booking_management.Base.Exec.{
  ◌>>=◌, ◌>>◌, modify, pure, gets, throw, unauthorized, or_throw, query_failed,
}
use hotel_booking_management.Auth.State.{add_days, Accounts, is_expired, refresh_token_ttl_days}
use hotel_booking_management.Entities.{Surroundings, RefreshToken, Admin, SubjectType, User}
use hotel_booking_management.Base.Table.{Orm, save, update}
use hotel_booking_management.Base.{
  ℕ, String, Option, List, Bool, some, false, ◌==◌, is_owner, str_eq, ◌&&◌, if◌then◌else◌, none,
  not, true, ◌++◌, ◌∷◌, [],
}

-- The payload of an access token (src/v1/auth/interfaces/user.interface.ts).
pub data JwtPayload : Type 0 where
  admin_payload : (sub admin_id role_id : ℕ) → JwtPayload
  user_payload : (sub user_id : ℕ) → JwtPayload

-- What `refreshAccessToken` answers.
pub record Access : Type 0 where
  pub access_token : String
  pub access_token_expires_at : ℕ
  pub user_id : ℕ

-- JWT and SHA-256 are libraries, and the lifetimes come from the configuration.
pub record TokenLibraries : Type 0 where
  pub sign : JwtPayload → String
  pub sha256 : String → String
  pub jwt_expiration : ℕ
  pub jwt_refresh_expiration : ℕ

abbrev pub joined : {A : Type 0} → Orm → (A → ℕ) → Option ℕ → List A → Option A
joined orm key none rows = none
joined orm key (some i) rows = orm.find_one _ (λ r. key r == i) rows

module _ (orm : Orm) (env : Surroundings) (lib : TokenLibraries) where
  -- `token` is the refresh token that the JWT library signs for the owner.
  unfoldable pub generate_refresh_token : String → ℕ → SubjectType → Accounts String
  unfolding add_days
  generate_refresh_token token owner_id owner_type = do
    let row : RefreshToken = record {
      id = env.fresh_id 0;
      token = lib.sha256 token;
      user_id = elim owner_type [
        | SubjectType.user_subject ↦ some owner_id
        | SubjectType.admin_subject ↦ none
      ];
      admin_id = elim owner_type [
        | SubjectType.user_subject ↦ none
        | SubjectType.admin_subject ↦ some owner_id
      ];
      expires_at = some (add_days refresh_token_ttl_days env.now);
      is_revoked = false;
      created_at = env.now;
    }
    modify (λ db. record db { refresh_tokens = db.refresh_tokens ++ row ∷ [] })
    pure token

  abbrev pub save_refresh_token : RefreshToken → Accounts (Unit {0})
  save_refresh_token t =
      modify
        (λ db. record db { refresh_tokens = save (λ (x : RefreshToken). x.id) t db.refresh_tokens })

  abbrev pub answer_of : JwtPayload → ℕ → Access
  answer_of payload owner_id = record {
    access_token = lib.sign payload;
    access_token_expires_at = lib.jwt_expiration;
    user_id = owner_id;
  }

  -- The payload for the owner that the query joined.
  unfoldable pub access_of : Option Admin → Option User → Accounts Access
  access_of (some a) user = pure (answer_of (admin_payload a.id a.id a.role_id) a.id)
  access_of none (some u) = pure (answer_of (user_payload u.id u.id) u.id)
  access_of none none = throw (unauthorized "Invalid refresh token owner")

  unfoldable pub refresh_access_token : String → Accounts Access
  unfolding is_expired access_of
  refresh_access_token token = do
    found ← gets (λ db.
        orm.find_one RefreshToken (λ t. str_eq t.token (lib.sha256 token) && not t.is_revoked)
          db.refresh_tokens)
    t ← or_throw found (unauthorized "Invalid or expired refresh token")
    if is_expired env.now t.expires_at
        then save_refresh_token (record t { is_revoked = true })
          >> throw (unauthorized "Expired refresh token")
        else do
          admin ← gets (λ db. joined orm (λ (a : Admin). a.id) t.admin_id db.admins)
          user ← gets (λ db. joined orm (λ (u : User). u.id) t.user_id db.users)
          access_of admin user

  -- `update({ userId, isRevoked: false }, { isRevoked: true })`, by a test of the owner.
  abbrev pub revoke_all : (RefreshToken → Bool) → Accounts (Unit {0})
  revoke_all owned = modify (λ db. record db {
    refresh_tokens =
        update (λ t. owned t && not t.is_revoked) (λ t. record t { is_revoked = true })
          db.refresh_tokens;
  })

  unfoldable pub revoke_all_user_tokens : ℕ → Bool → Accounts (Unit {0})
  revoke_all_user_tokens user_id clear_fcm_token = do
    revoke_all (λ t. is_owner t.user_id user_id)
    modify (λ db. record db {
      users =
          update (λ (u : User). u.id == user_id)
            (λ u. record u {
              last_logout_at = some env.now;
              fcm_token = if clear_fcm_token then some "" else u.fcm_token;
            })
            db.users;
    })

  unfoldable pub revoke_all_admin_tokens : ℕ → Accounts (Unit {0})
  revoke_all_admin_tokens admin_id = do
    revoke_all (λ t. is_owner t.admin_id admin_id)
    modify (λ db. record db {
      admins =
          update (λ (a : Admin). a.id == admin_id) (λ a. record a { last_logout_at = some env.now })
            db.admins;
    })

  -- The query names the columns created_at, is_revoked and expires_at. The table's columns are
  -- "createdAt", "isRevoked" and "expiresAt", so the database refuses it.
  unfoldable pub cleanup_expired_refresh_tokens : Accounts (Unit {0})
  cleanup_expired_refresh_tokens = throw (query_failed "column created_at does not exist")

  unfoldable pub revoke_token : String → Accounts (Unit {0})
  revoke_token token = do
    found ←
        gets (λ db.
          orm.find_one RefreshToken (λ t. str_eq t.token (lib.sha256 token)) db.refresh_tokens)
    elim found [ none ↦ pure tt | some t ↦ save_refresh_token (record t { is_revoked = true }) ]
