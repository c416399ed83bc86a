-- ===== src/Role/Tests.antt =====
-- The role service at a small database.
use hotel_booking_management.Base.Exec.{err, ok, bad_request, conflict}
use hotel_booking_management.Auth.Samples.{clerk, guest}
use hotel_booking_management.Samples.{env}
use hotel_booking_management.Entities.{Surroundings}
use hotel_booking_management.Role.Runs.{
  AdmitsRoles, run_roles, run_roles-AreSound, role_removed_under_users,
}
use hotel_booking_management.Role.Service.{
  RoleDb, remove_role, create_role, RoleEntry, CreateRole, UpdateRole, create_in_transaction,
}
use hotel_booking_management.Base.{
  List, none, ◌∷◌, some, arith, [], ◌≡◌, true, In, refl, All, ◌≢◌, inl,
}
use hotel_booking_management.Role.Sound.{AreSound, RoleRequest, add_role, change_role, drop_role}
use hotel_booking_management.Base.Table.{scan_order}

abbrev manager_role : RoleEntry
manager_role = record { id = 3; name = "Manager"; description = none; rank = 2 }

abbrev customer_role : RoleEntry
customer_role = record { id = 5; name = "Customer"; description = none; rank = 99 }

abbrev role_db : RoleDb
role_db = record {
  roles = manager_role ∷ customer_role ∷ [];
  permission_ids = 1 ∷ 2 ∷ [];
  role_permissions = record { role_id = 3; permission_id = 1 } ∷ [];
  admins = clerk ∷ [];
  users = guest ∷ [];
}

abbrev cashier : CreateRole
cashier = record { name = "Cashier"; description = none; rank = none; permission_ids = 2 ∷ 1 ∷ [] }

abbrev renamed : UpdateRole
renamed = record {
  name = some "Guest";
  description = none;
  rank = none;
  permission_ids = some (2 ∷ []);
}

abbrev requests : List (Surroundings × RoleRequest)
requests = (env, add_role cashier) ∷ (env, change_role 5 renamed) ∷ (env, drop_role 3) ∷ []

unknown_permission :
    (create_role scan_order env (record cashier { permission_ids = 7 ∷ [] }) role_db)
    ≡ (err (bad_request "Invalid permission IDs"), role_db)
unfolding create_role create_in_transaction
unknown_permission = refl

assigned_role :
    (remove_role scan_order env 3 role_db).0
    ≡ err (conflict "Cannot delete role that has admins assigned to it")
unfolding remove_role
assigned_role = refl

role_db-AreSound : AreSound role_db
role_db-AreSound = record {
  ids = omega arith;
  names = (((λ h. absurd (cc h)), tt), (tt, tt));
  permissions = omega arith;
  links = (refl, tt);
  admins = (refl, tt);
}

requests_admitted : AdmitsRoles scan_order requests role_db
requests_admitted = (omega arith, ((λ h. absurd (cc h)), (tt, tt)))

run_roles-AreSound_example : AreSound (run_roles scan_order requests role_db)
run_roles-AreSound_example =
    run_roles-AreSound scan_order requests role_db requests_admitted role_db-AreSound

role_removed_under_users_example :
    let (answer, db') = remove_role scan_order env 5 role_db in
    (answer ≡ ok true) × In guest db'.users × All (λ r. r.id ≢ 5) db'.roles
role_removed_under_users_example =
    role_removed_under_users scan_order env 5 customer_role guest role_db refl refl (inl refl) refl
