-- ===== src/Role/Sound.antt =====
-- The roles over every run of requests (src/v1/auth/controllers/role.controller.ts).
use hotel_booking_management.Base.Counting.{every_key_found}
use hotel_booking_management.Base.Keys.{UniqueIds-append, UniqueIds-delete}
use hotel_booking_management.Base.Exec.{Exception, err, ok}
use hotel_booking_management.Base.Names.{UniqueNames, UniqueNames-append, UniqueNames-delete}
use hotel_booking_management.Entities.{Surroundings, Admin}
use hotel_booking_management.Base.{
  List, ℕ, String, any, All, ◌≢◌, ◌==◌, ◌≡◌, inl, true, ◌&&◌, inr, ◌∷◌, ◌⊎◌, Bool-cases, map,
  Option-cases, length, str_eq, All-append, eq_of_==, [], select, All-imp, false, ◌++◌, str_eq_iff,
  any-append, In-All, refl, All-In, any-false, false_of_ne, sym, ◌∙◌, ne_of_==,
}
use hotel_booking_management.Role.Service.{
  CreateRole, RoleEntry, RoleDb, validate_permission_ids, remove_role, UpdateRole, new_role,
  assert_name_free, RoleLink, create_in_transaction,
}
use hotel_booking_management.Base.Table.{Orm, UniqueIds, delete}

pub data RoleRequest : Type 0 where
  add_role : CreateRole → RoleRequest
  change_role : ℕ → UpdateRole → RoleRequest
  drop_role : ℕ → RoleRequest

abbrev pub role_id_of : RoleEntry → ℕ
role_id_of r = r.id

abbrev pub role_name_of : RoleEntry → String
role_name_of r = r.name

abbrev pub HasRole : List RoleEntry → ℕ → Type 0
HasRole roles id = any (λ r. r.id == id) roles ≡ true

-- Identifiers and names of roles are unique, a role has only permissions that exist, and the role of
-- every admin exists.
pub record AreSound (db : RoleDb) : Type 0 where
  pub ids : UniqueIds role_id_of db.roles
  pub names : UniqueNames role_name_of db.roles
  pub permissions : UniqueIds (λ (p : ℕ). p) db.permission_ids
  pub links :
      All
        (λ l. any (λ p. p == l.permission_id && true) db.permission_ids ≡ true)
        db.role_permissions
  pub admins : All (λ (a : Admin). HasRole db.roles a.role_id) db.admins

-- Links to permissions that have been checked.
pub links_known :
    (known : List ℕ) (id : ℕ) (ids : List ℕ)
    → All (λ i. any (λ p. p == i && true) known ≡ true) ids
    → All
        (λ (l : RoleLink). any (λ p. p == l.permission_id && true) known ≡ true)
        (map (λ i. record { role_id = id; permission_id = i }) ids)
links_known known id [] h = tt
links_known known id (i ∷ is) h = (h.0, links_known known id is h.1)

-- A deletion of another role.
still_there :
    (j id : ℕ) (roles : List RoleEntry)
    → j ≢ id
    → HasRole roles j
    → HasRole (delete (λ r. r.id == id) roles) j
still_there j id [] ne h = absurd (cc h)
still_there j id (r ∷ rs) ne h = elim (Bool-cases (r.id == id)) [
  | inl gone ↦
      let other : (r.id == j) ≡ false =
        false_of_ne r.id j (λ k. ne (sym k ∙ eq_of_== r.id id gone)) in
      rw gone (still_there j id rs ne (rw other at h))
  | inr kept ↦ elim (Bool-cases (r.id == j)) [
    | inl here ↦ rw (kept, here) refl
    | inr other ↦ rw (kept, other) (still_there j id rs ne (rw other at h))
  ]
]

module _ (orm : Orm) (env : Surroundings) where
  -- A check throws, or leaves the tables and has established what the write needs.
  pub permissions_checked :
      (ids : List ℕ) (db : RoleDb)
      → UniqueIds (λ (p : ℕ). p) db.permission_ids
      → ((e : Exception) × (validate_permission_ids orm env ids db ≡ (err e, db)))
        ⊎ ((validate_permission_ids orm env ids db ≡ (ok tt, db))
            × All (λ i. any (λ p. p == i && true) db.permission_ids ≡ true) ids)
  unfolding validate_permission_ids
  permissions_checked [] db u = inr (refl, tt)
  permissions_checked (i ∷ is) db u =
      let ids = i ∷ is in
      let found = length (select (λ p. any (λ j. p == j) ids && true) db.permission_ids) in
      elim (Bool-cases (found == length ids)) [
        | inr short ↦ rw short (inl (_, refl))
        | inl full ↦ rw full (
            inr (
              refl,
              every_key_found (λ (p : ℕ). p) (λ p. true) ids db.permission_ids u
                  (eq_of_== found (length ids) full),
            ))
      ]

  pub name_checked :
      (name : String) (db : RoleDb)
      → ((e : Exception) × (assert_name_free orm env name db ≡ (err e, db)))
        ⊎ ((assert_name_free orm env name db ≡ (ok tt, db)) × All (λ r. r.name ≢ name) db.roles)
  unfolding assert_name_free
  name_checked name db =
      elim (Option-cases (orm.find_one RoleEntry (λ r. str_eq r.name name) db.roles)) [
        | inr (r, e) ↦ rw e (inl (_, refl))
        | inl e ↦ rw e (
            inr (
              refl,
              All-imp (λ r. str_eq r.name name ≡ false) (λ r. r.name ≢ name) db.roles
                  (λ r f same.
                    let t : str_eq r.name name ≡ true = (str_eq_iff r.name name).1 same in
                    absurd (cc (rw t at f)))
                  (orm.find_one_complete RoleEntry (λ r. str_eq r.name name) db.roles e),
            ))
      ]

  pub create_in_transaction-AreSound :
      (dto : CreateRole) (db : RoleDb)
      → All (λ r. r.id ≢ env.fresh_id 0) db.roles
      → AreSound db
      → AreSound (create_in_transaction orm env dto db).1
  unfolding create_in_transaction new_role
  create_in_transaction-AreSound dto db fresh s = elim (name_checked dto.name db) [
    | inl (e, taken) ↦ rw taken s
    | inr (free, others) ↦ elim (permissions_checked dto.permission_ids db s.permissions) [
      | inl (e, wrong) ↦ rw (free, wrong) s
      | inr (right, known) ↦
          let role = new_role (env.fresh_id 0) dto in
          rw (free, right)
            (record {
              ids = UniqueIds-append role_id_of role db.roles fresh s.ids;
              names = UniqueNames-append role_name_of role db.roles others s.names;
              permissions = s.permissions;
              links =
                  All-append
                    (λ (l : RoleLink).
                      any (λ p. p == l.permission_id && true) db.permission_ids ≡ true)
                    db.role_permissions
                    (map (λ i. record { role_id = env.fresh_id 0; permission_id = i })
                      dto.permission_ids)
                    s.links
                    (links_known db.permission_ids (env.fresh_id 0) dto.permission_ids known);
              admins =
                  All-imp (λ (a : Admin). HasRole db.roles a.role_id)
                    (λ (a : Admin). HasRole (db.roles ++ role ∷ []) a.role_id) db.admins
                    (λ a h.
                      rw (any-append (λ r. r.id == a.role_id) db.roles (role ∷ [])) (rw h refl))
                    s.admins;
            })
    ]
  ]

  pub remove_role-AreSound :
      (id : ℕ) (db : RoleDb) → AreSound db → AreSound (remove_role orm env id db).1
  unfolding remove_role
  remove_role-AreSound id db s =
      elim (Option-cases (orm.find_one RoleEntry (λ r. r.id == id) db.roles)) [
        | inl e ↦ rw e s
        | inr (r, e) ↦ elim (Bool-cases (any (λ (a : Admin). a.role_id == r.id) db.admins)) [
          | inl assigned ↦ rw (e, assigned) s
          | inr free ↦
              let (m, same) = orm.find_one_sound RoleEntry (λ r. r.id == id) db.roles r e in
              let i : r.id ≡ id = eq_of_== r.id id same in
              rw (e, free)
                (record {
                  ids = UniqueIds-delete role_id_of (λ r. r.id == id) db.roles s.ids;
                  names = UniqueNames-delete role_name_of (λ r. r.id == id) db.roles s.names;
                  permissions = s.permissions;
                  links = s.links;
                  admins = In-All db.admins (λ a ma.
                      still_there a.role_id id db.roles
                        (λ h.
                          ne_of_== a.role_id r.id
                            (All-In (λ (a : Admin). (a.role_id == r.id) ≡ false) db.admins
                              (any-false (λ (a : Admin). a.role_id == r.id) db.admins free) ma)
                            (h ∙ sym i))
                        (All-In (λ (a : Admin). HasRole db.roles a.role_id) db.admins s.admins ma));
                })
        ]
      ]
