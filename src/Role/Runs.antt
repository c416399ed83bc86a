-- ===== src/Role/Runs.antt =====
-- The runs of requests of the role service, and a removal.
use hotel_booking_management.Role.Updates.{update_in_transaction-AreSound}
use hotel_booking_management.Base.Exec.{transaction_lem, ok}
use hotel_booking_management.Role.Sound.{
  RoleRequest, add_role, AreSound, change_role, drop_role, create_in_transaction-AreSound,
  remove_role-AreSound,
}
use hotel_booking_management.Role.Service.{
  remove_role, create_role, RoleDb, update_role, RoleEntry, create_in_transaction,
  update_in_transaction,
}
use hotel_booking_management.Entities.{Surroundings, User, Admin}
use hotel_booking_management.Base.{
  List, ℕ, ◌∷◌, All, ◌==◌, [], ◌≢◌, ◌≡◌, some, any, false, In, true, Bool-cases, inl, inr, ne_of_==,
  ◌∙◌, refl,
}
use hotel_booking_management.Base.Table.{Orm, delete}

module _ (orm : Orm) (env : Surroundings) where
  -- The requests of the service, on the tables that they leave.
  unfoldable pub handle_role : RoleRequest → RoleDb → RoleDb
  handle_role (add_role dto) db = (create_role orm env dto db).1
  handle_role (change_role id dto) db = (update_role orm env id dto db).1
  handle_role (drop_role id) db = (remove_role orm env id db).1

  -- A new identifier is not in use, and the validation of the body refuses an empty name.
  abbrev pub AdmitsRole : RoleRequest → RoleDb → Type 0
  AdmitsRole (add_role dto) db = All (λ r. r.id ≢ env.fresh_id 0) db.roles
  AdmitsRole (change_role id dto) db = dto.name ≢ some ""
  AdmitsRole (drop_role id) db = Unit

  handle_role-AreSound :
      (q : RoleRequest) (db : RoleDb) → AdmitsRole q db → AreSound db → AreSound (handle_role q db)
  unfolding handle_role create_role update_role
  handle_role-AreSound (add_role dto) db a s =
      transaction_lem AreSound (create_in_transaction orm env dto) db s
        (create_in_transaction-AreSound orm env dto db a s)
  handle_role-AreSound (change_role id dto) db a s =
      transaction_lem AreSound (update_in_transaction orm env id dto) db s
        (update_in_transaction-AreSound orm env id dto db a s)
  handle_role-AreSound (drop_role id) db a s = remove_role-AreSound orm env id db s

module _ (orm : Orm) where
  unfoldable pub run_roles : List (Surroundings × RoleRequest) → RoleDb → RoleDb
  run_roles [] db = db
  run_roles (r ∷ rs) db = run_roles rs (handle_role orm r.0 r.1 db)

  abbrev pub AdmitsRoles : List (Surroundings × RoleRequest) → RoleDb → Type 0
  AdmitsRoles [] db = Unit
  AdmitsRoles (r ∷ rs) db = AdmitsRole orm r.0 r.1 db × AdmitsRoles rs (handle_role orm r.0 r.1 db)

  -- Over every run of creations, updates and removals of roles, with new identifiers and names that
  -- are not empty: the names of roles stay unique, a role only has permissions that exist, and the
  -- role of every admin exists.
  pub run_roles-AreSound :
      (qs : List (Surroundings × RoleRequest)) (db : RoleDb)
      → AdmitsRoles qs db
      → AreSound db
      → AreSound (run_roles qs db)
  unfolding run_roles
  run_roles-AreSound [] db a s = s
  run_roles-AreSound (r ∷ rs) db a s =
      run_roles-AreSound rs (handle_role orm r.0 r.1 db) a.1
        (handle_role-AreSound orm r.0 r.1 db a.0 s)

  -- A stored role that no admin has is removed, even where users have it, who are then left with a
  -- role that does not exist.
  pub role_removed_under_users :
      (env : Surroundings) (id : ℕ) (r : RoleEntry) (u : User) (db : RoleDb)
      → orm.find_one RoleEntry (λ r. r.id == id) db.roles ≡ some r
      → any (λ (a : Admin). a.role_id == r.id) db.admins ≡ false
      → In u db.users
      → u.role_id ≡ id
      → let (answer, db') = remove_role orm env id db in
        (answer ≡ ok true) × In u db'.users × All (λ r. r.id ≢ u.role_id) db'.roles
  unfolding remove_role
  role_removed_under_users env id r u db found free m theirs =
      rw (found, free) (refl, m, gone db.roles)
    where
      gone : (roles : List RoleEntry) → All (λ r. r.id ≢ u.role_id) (delete (λ r. r.id == id) roles)
      gone [] = tt
      gone (x ∷ xs) = elim (Bool-cases (x.id == id)) [
        | inl e ↦ rw e (gone xs)
        | inr e ↦ rw e ((λ h. ne_of_== x.id id e (h ∙ theirs)), gone xs)
      ]
