-- ===== src/Role/Updates.antt =====
-- The update of a role.
use hotel_booking_management.Base.Keys.{UniqueIds-update}
use hotel_booking_management.Base.Names.{UniqueNames, name_of_other, UniqueNames-update}
use hotel_booking_management.Base.Exec.{Exception, err, ok, ◌>>◌, gets}
use hotel_booking_management.Role.Sound.{
  AreSound, role_name_of, permissions_checked, role_id_of, links_known, name_checked, HasRole,
}
use hotel_booking_management.Role.Service.{
  update_in_transaction, RoleEntry, replace_permissions, check_role_name, check_permission_ids,
  write_role, updated_role, UpdateRole, RoleDb, value_or, changes_row, RoleLink,
}
use hotel_booking_management.Entities.{Surroundings, Admin}
use hotel_booking_management.Base.{
  ℕ, List, Option, ◌≡◌, String, any, ◌≢◌, ◌==◌, some, In, All, ◌&&◌, ◌∷◌, ◌⊎◌, Bool-cases, true,
  inl, [], inr, In-All, All-append, refl, Option-cases, none, str_eq, map, eq_of_==, ap, str_eq_iff,
  ◌∙◌, sym, All-imp,
}
use hotel_booking_management.Base.Table.{Orm, UniqueIds, update, delete, eq_of_key, All-delete}

-- An update that leaves the identifiers finds the same ones.
any_role-update :
    (j id : ℕ) (f : RoleEntry → RoleEntry) (roles : List RoleEntry)
    → ((r : RoleEntry) → (f r).id ≡ r.id)
    → any (λ (r : RoleEntry). r.id == j) (update (λ r. r.id == id) f roles)
      ≡ any (λ r. r.id == j) roles
any_role-update j id f [] k = refl
any_role-update j id f (r ∷ rs) k = elim (Bool-cases (r.id == id)) [
  | inl e ↦ rw (e, k r, any_role-update j id f rs k) refl
  | inr e ↦ rw (e, any_role-update j id f rs k) refl
]

module _ (orm : Orm) (env : Surroundings) where
  role_name_checked :
      (role : RoleEntry) (name : Option String) (db : RoleDb)
      → name ≢ some ""
      → UniqueNames role_name_of db.roles
      → In role db.roles
      → ((e : Exception) × (check_role_name orm env role name db ≡ (err e, db)))
        ⊎ ((check_role_name orm env role name db ≡ (ok tt, db))
            × All (λ r. r.id ≢ role.id → r.name ≢ value_or name role.name) db.roles)
  unfolding check_role_name
  role_name_checked role none db ne u m = inr (
    refl,
    In-All db.roles
        (λ r mr other. name_of_other role_name_of role_id_of r role db.roles u mr m other),
  )
  role_name_checked role (some name) db ne u m = elim (Bool-cases (str_eq name "")) [
    | inl empty ↦ absurd (ne (ap some ((str_eq_iff name "").0 empty)))
    | inr text ↦ elim (Bool-cases (str_eq name role.name)) [
      | inl same ↦
          rw (text, same)
            (inr (
              refl,
              In-All db.roles (λ r mr other h.
                  name_of_other role_name_of role_id_of r role db.roles u mr m other
                    (h ∙ (str_eq_iff name role.name).0 same)),
            ))
      | inr differs ↦ elim (name_checked orm env name db) [
        | inl (e, taken) ↦ rw (text, differs, taken) (inl (e, refl))
        | inr (free, others) ↦
            rw (text, differs, free)
              (inr (
                refl,
                All-imp (λ r. r.name ≢ name) (λ r. r.id ≢ role.id → r.name ≢ name) db.roles
                    (λ r f other. f) others,
              ))
      ]
    ]
  ]

  ids_checked :
      (ids : Option (List ℕ)) (db : RoleDb)
      → UniqueIds (λ (p : ℕ). p) db.permission_ids
      → ((e : Exception) × (check_permission_ids orm env ids db ≡ (err e, db)))
        ⊎ ((check_permission_ids orm env ids db ≡ (ok tt, db))
            × All (λ i. any (λ p. p == i && true) db.permission_ids ≡ true) (value_or ids []))
  unfolding check_permission_ids
  ids_checked none db u = inr (refl, tt)
  ids_checked (some ids) db u = permissions_checked orm env ids db u

  write_role-AreSound :
      (id : ℕ) (dto : UpdateRole) (role : RoleEntry) (db : RoleDb)
      → AreSound db
      → In role db.roles
      → role.id ≡ id
      → All (λ r. r.id ≢ role.id → r.name ≢ value_or dto.name role.name) db.roles
      → AreSound (write_role orm env id dto db).1
  unfolding write_role updated_role
  write_role-AreSound id dto role db s m i free = elim (Bool-cases (changes_row orm env dto)) [
    | inr unchanged ↦ rw unchanged s
    | inl changed ↦
        let f = updated_role dto in
        rw changed (record {
          ids = UniqueIds-update role_id_of (λ r. r.id == id) f (λ r. refl) db.roles s.ids;
          names = UniqueNames-update role_name_of role_id_of id f db.roles s.ids s.names (
              In-All db.roles (λ r mr k.
                let one : r ≡ role = eq_of_key role_id_of r role db.roles s.ids mr m (k ∙ sym i) in
                rw one (
                  All-imp (λ y. y.id ≢ role.id → y.name ≢ value_or dto.name role.name)
                    (λ y. y.id ≢ id → y.name ≢ value_or dto.name role.name) db.roles
                    (λ y g ne. g (λ h. ne (h ∙ i))) free)));
          permissions = s.permissions;
          links = s.links;
          admins =
              All-imp (λ (a : Admin). HasRole db.roles a.role_id)
                (λ (a : Admin). HasRole (update (λ r. r.id == id) f db.roles) a.role_id) db.admins
                (λ a h. any_role-update a.role_id id f db.roles (λ r. refl) ∙ h) s.admins;
        })
  ]

  replace_permissions-AreSound :
      (id : ℕ) (ids : Option (List ℕ)) (db : RoleDb)
      → AreSound db
      → All (λ i. any (λ p. p == i && true) db.permission_ids ≡ true) (value_or ids [])
      → AreSound
          ((replace_permissions orm env id ids
              >> gets (λ db. orm.find_one RoleEntry (λ r. r.id == id) db.roles))
            db).1
  unfolding replace_permissions
  replace_permissions-AreSound id none db s known = s
  replace_permissions-AreSound id (some ids) db s known =
      let P : RoleLink → Type 0 =
        λ l. any (λ p. p == l.permission_id && true) db.permission_ids ≡ true in
      record {
        ids = s.ids;
        names = s.names;
        permissions = s.permissions;
        links =
            All-append P (delete (λ (l : RoleLink). l.role_id == id) db.role_permissions)
              (map (λ i. record { role_id = id; permission_id = i }) ids)
              (All-delete P (λ (l : RoleLink). l.role_id == id) db.role_permissions s.links)
              (links_known db.permission_ids id ids known);
        admins = s.admins;
      }

  pub update_in_transaction-AreSound :
      (id : ℕ) (dto : UpdateRole) (db : RoleDb)
      → dto.name ≢ some ""
      → AreSound db
      → AreSound (update_in_transaction orm env id dto db).1
  unfolding update_in_transaction
  update_in_transaction-AreSound id dto db ne s =
      elim (Option-cases (orm.find_one RoleEntry (λ r. r.id == id) db.roles)) [
        | inl e ↦ rw e s
        | inr (role, e) ↦
            let (m, same) = orm.find_one_sound RoleEntry (λ r. r.id == id) db.roles role e in
            elim (role_name_checked role dto.name db ne s.names m) [
              | inl (x, taken) ↦ rw (e, taken) s
              | inr (fine, free) ↦ elim (ids_checked dto.permission_ids db s.permissions) [
                | inl (x, wrong) ↦ rw (e, fine, wrong) s
                | inr (right, known) ↦
                    rw (e, fine, right)
                      (replace_permissions-AreSound id dto.permission_ids
                        (write_role orm env id dto db).1
                        (write_role-AreSound id dto role db s m (eq_of_== role.id id same) free)
                        known)
              ]
            ]
      ]
