-- ===== src/Guard.antt =====
-- The guards of the routes (src/v1/auth/guards). What a route requires is metadata of its decorators,
-- and may be absent; relations of the account may not have been loaded.
pub mod Permissions
mod Tests
use hotel_booking_management.Base.Exec.{Result, ok, err, forbidden}
use hotel_booking_management.Entities.{SubjectType}
use hotel_booking_management.Base.{
  String, ℕ, Bool, Option, true, List, some, false, if◌then◌else◌, none, str_eq, any, not, ◌&&◌,
  ◌==◌, ltb,
}

pub data ActionType : Type 0 where
  create read update delete : ActionType

abbrev pub same_action : ActionType → ActionType → Bool
same_action ActionType.create ActionType.create = true
same_action ActionType.read ActionType.read = true
same_action ActionType.update ActionType.update = true
same_action ActionType.delete ActionType.delete = true
same_action _ _ = false

-- `PermissionRequirement`: the code of a module and an action.
pub record PermissionRequirement : Type 0 where
  pub module_code : String
  pub permission : ActionType

pub record Permission : Type 0 where
  pub module_code : Option String
  pub action : ActionType

pub record RolePermission : Type 0 where
  pub permission : Option Permission

pub record Role : Type 0 where
  pub name : String
  pub rank : ℕ
  pub role_permissions : Option (List RolePermission)

-- The signed-in account as the guards read it.
pub record Principal : Type 0 where
  pub id : ℕ
  pub subject_type : Option SubjectType
  pub role : Option Role

unfoldable pub permission_matches : PermissionRequirement → RolePermission → Bool
permission_matches required r = elim r.permission [
  | none ↦ false
  | some p ↦ elim p.module_code [
    | none ↦ false
    | some code ↦ str_eq code required.module_code && same_action p.action required.permission
  ]
]

abbrev pub permissions_of : Principal → Option (List RolePermission)
permissions_of user = elim user.role [ none ↦ none | some role ↦ role.role_permissions ]

unfoldable pub check_object_permission : PermissionRequirement → Principal → Bool
unfolding permission_matches
check_object_permission required user = elim (permissions_of user) [
  | none ↦ false
  | some rs ↦ any (permission_matches required) rs
]

unfoldable pub permissions_guard :
    Option (List PermissionRequirement) → Option Principal → Result Bool
unfolding check_object_permission
permissions_guard none user = ok true
permissions_guard (some required) none = err (forbidden "Access denied: No permissions")
permissions_guard (some required) (some user) = elim (permissions_of user) [
  | none ↦ err (forbidden "Access denied: No permissions")
  | some rs ↦
      if any (λ r. check_object_permission r user) required
      then ok true
      else err (forbidden "Access denied: Insufficient permissions")
]

abbrev role_of : Option Principal → Option Role
role_of none = none
role_of (some user) = user.role

unfoldable pub roles_guard : Option (List String) → Option Principal → Result Bool
roles_guard none user = ok true
roles_guard (some required) user = elim (role_of user) [
  | none ↦ err (forbidden "Access denied: No role assigned")
  | some role ↦
      if any (λ name. str_eq name role.name) required
      then ok true
      else err (forbidden "Access denied: Insufficient role")
]

abbrev rank_or_default : Option Role → ℕ
rank_or_default none = 99
rank_or_default (some role) = role.rank

-- `find_target` is the query of an admin by identifier with its role.
unfoldable pub resource_ownership_guard :
    (ℕ → Option (Option Role)) → Bool → Option ℕ → Principal → Result Bool
resource_ownership_guard find_target check_ownership target user =
    if not check_ownership then ok true else elim target [
      | none ↦ ok true
      | some id ↦ elim user.subject_type [
        | none ↦ ok true
        | some kind ↦ elim kind [
          | SubjectType.user_subject ↦
              if user.id == id
              then ok true
              else err (forbidden "You do not have permission to access this resource")
          | SubjectType.admin_subject ↦ elim (find_target id) [
            | none ↦ ok true
            | some role ↦
                if ltb (rank_or_default role) (rank_or_default user.role)
                then err (forbidden "You do not have sufficient privileges to modify this admin")
                else ok true
          ]
        ]
      ]
    ]
