-- ===== src/Role/Service.antt =====
-- The operations of the role service (src/v1/auth/services/role.service.ts). A soft-deleted role is
-- not among the rows; the audit metadata of an update is left out.
use hotel_booking_management.Base.Exec.{
  gets, modify, transaction, Exec, ◌>>=◌, throw_if, pure, ◌>>◌, conflict, bad_request,
}
use hotel_booking_management.Entities.{Surroundings, Admin, User}
use hotel_booking_management.Base.{
  ℕ, String, List, Option, Bool, some, false, ◌==◌, ◌&&◌, ◌++◌, str_eq, if◌then◌else◌, none, ◌∷◌,
  not, map, is_some, any, true, length, [], ◌||◌, select,
}
use hotel_booking_management.Base.Table.{Orm, delete, update}

pub record RoleEntry : Type 0 where
  pub id : ℕ
  pub name : String
  pub description : Option String
  pub rank : ℕ

-- A row of `role_permissions`.
pub record RoleLink : Type 0 where
  pub role_id : ℕ
  pub permission_id : ℕ

-- The tables, of which `permission_ids` holds the identifiers of the permissions.
pub record RoleDb : Type 0 where
  pub roles : List RoleEntry
  pub permission_ids : List ℕ
  pub role_permissions : List RoleLink
  pub admins : List Admin
  pub users : List User

pub record CreateRole : Type 0 where
  pub name : String
  pub description : Option String
  pub rank : Option ℕ
  pub permission_ids : List ℕ

pub record UpdateRole : Type 0 where
  pub name : Option String
  pub description : Option String
  pub rank : Option ℕ
  pub permission_ids : Option (List ℕ)

abbrev pub has_any : {A : Type 0} → List A → Bool
has_any [] = false
has_any (x ∷ xs) = true

abbrev pub value_or : {A : Type 0} → Option A → A → A
value_or none old = old
value_or (some a) old = a

abbrev pub some_or : {A : Type 0} → Option A → Option A → Option A
some_or none old = old
some_or (some a) old = some a

-- The rank of a role is 99 if none is given.
unfoldable pub new_role : ℕ → CreateRole → RoleEntry
new_role id dto = record {
  id = id;
  name = dto.name;
  description = dto.description;
  rank = value_or dto.rank 99;
}

unfoldable pub updated_role : UpdateRole → RoleEntry → RoleEntry
updated_role dto r = record r {
  name = value_or dto.name r.name;
  description = some_or dto.description r.description;
  rank = value_or dto.rank r.rank;
}

module _ (orm : Orm) (env : Surroundings) where
  abbrev pub RoleExec : Type 0 → Type 0
  RoleExec A = Exec RoleDb A

  unfoldable pub find_role : ℕ → RoleExec (Option RoleEntry)
  find_role id = gets (λ db. orm.find_one RoleEntry (λ r. r.id == id) db.roles)

  unfoldable pub validate_permission_ids : List ℕ → RoleExec (Unit {0})
  validate_permission_ids ids db =
      throw_if
        (has_any ids
          && not (
              length (select (λ p. any (λ i. p == i) ids && true) db.permission_ids) == length ids))
        (bad_request "Invalid permission IDs") db

  unfoldable pub assign_permissions_to_role : ℕ → List ℕ → RoleExec (Unit {0})
  assign_permissions_to_role role_id ids = modify (λ db. record db {
    role_permissions =
        db.role_permissions ++ map (λ i. record { role_id = role_id; permission_id = i }) ids;
  })

  unfoldable pub assert_name_free : String → RoleExec (Unit {0})
  assert_name_free name = do
    existing ← gets (λ db. orm.find_one RoleEntry (λ r. str_eq r.name name) db.roles)
    throw_if (is_some existing) (conflict "Role with this name already exists")

  unfoldable pub create_in_transaction : CreateRole → RoleExec (Option RoleEntry)
  unfolding assert_name_free validate_permission_ids new_role assign_permissions_to_role
  create_in_transaction dto = do
    assert_name_free dto.name
    validate_permission_ids dto.permission_ids
    let role = new_role (env.fresh_id 0) dto
    modify (λ db. record db { roles = db.roles ++ role ∷ [] })
    assign_permissions_to_role role.id dto.permission_ids
    gets (λ db. orm.find_one RoleEntry (λ r. r.id == role.id) db.roles)

  -- `@Transactional()`: an exception undoes what was written.
  unfoldable pub create_role : CreateRole → RoleExec (Option RoleEntry)
  create_role dto = transaction (create_in_transaction dto)

  -- A name that is given and changes is checked.
  unfoldable pub check_role_name : RoleEntry → Option String → RoleExec (Unit {0})
  unfolding assert_name_free
  check_role_name role none = pure tt
  check_role_name role (some name) =
      if not (str_eq name "") && not (str_eq name role.name) then assert_name_free name else pure tt

  unfoldable pub check_permission_ids : Option (List ℕ) → RoleExec (Unit {0})
  unfolding validate_permission_ids
  check_permission_ids none = pure tt
  check_permission_ids (some ids) = validate_permission_ids ids

  -- Whether a field of the row is to be written.
  abbrev pub changes_row : UpdateRole → Bool
  changes_row dto =
      elim dto.name [ none ↦ false | some n ↦ not (str_eq n "") ]
      || (elim dto.description [ none ↦ false | some d ↦ not (str_eq d "") ] || is_some dto.rank)

  unfoldable pub replace_permissions : ℕ → Option (List ℕ) → RoleExec (Unit {0})
  unfolding assign_permissions_to_role
  replace_permissions id none = pure tt
  replace_permissions id (some ids) =
      modify (λ db. record db {
        role_permissions = delete (λ (l : RoleLink). l.role_id == id) db.role_permissions;
      })
      >> assign_permissions_to_role id ids

  -- `manager.update` writes the fields that are given.
  unfoldable pub write_role : ℕ → UpdateRole → RoleExec (Unit {0})
  unfolding updated_role
  write_role id dto = modify (λ db. record db {
    roles =
        if changes_row dto
        then update (λ (r : RoleEntry). r.id == id) (updated_role dto) db.roles
        else db.roles;
  })

  unfoldable pub update_in_transaction : ℕ → UpdateRole → RoleExec (Option RoleEntry)
  unfolding find_role check_role_name check_permission_ids write_role replace_permissions
  update_in_transaction id dto = do
    found ← find_role id
    elim found [
      | none ↦ pure none
      | some role ↦ do
        check_role_name role dto.name
        check_permission_ids dto.permission_ids
        write_role id dto
        replace_permissions id dto.permission_ids
        gets (λ db. orm.find_one RoleEntry (λ r. r.id == id) db.roles)
    ]

  unfoldable pub update_role : ℕ → UpdateRole → RoleExec (Option RoleEntry)
  update_role id dto = transaction (update_in_transaction id dto)

  unfoldable pub remove_role : ℕ → RoleExec Bool
  unfolding find_role
  remove_role id = do
    found ← find_role id
    elim found [
      | none ↦ pure false
      | some role ↦ do
        assigned ← gets (λ db. any (λ (a : Admin). a.role_id == role.id) db.admins)
        throw_if assigned (conflict "Cannot delete role that has admins assigned to it")
        modify (λ db. record db { roles = delete (λ (r : RoleEntry). r.id == id) db.roles })
        pure true
    ]
