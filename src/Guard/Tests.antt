-- ===== src/Guard/Tests.antt =====
-- The guards at sample accounts.
use hotel_booking_management.Guard.Permissions.{IsPermitted, permissions_guard_iff}
use hotel_booking_management.Base.Exec.{err, ok, forbidden}
use hotel_booking_management.Entities.{SubjectType}
use hotel_booking_management.Base.{some, ◌∷◌, none, [], true, ◌≡◌, ◌↔◌, refl}
use hotel_booking_management.Guard.{
  Principal, resource_ownership_guard, permissions_guard, roles_guard, PermissionRequirement,
  ActionType,
}

abbrev cashier : Principal
cashier = record {
  id = 1;
  subject_type = some SubjectType.admin_subject;
  role = some (record {
    name = "Cashier";
    rank = 5;
    role_permissions = some (
        record {
          permission = some (record { module_code = some "PAYMENTS"; action = ActionType.create });
        }
        ∷ []);
  });
}

abbrev create_payments : PermissionRequirement
create_payments = record { module_code = "PAYMENTS"; permission = ActionType.create }

roles_sample :
    roles_guard (some ("Manager" ∷ [])) (some cashier)
    ≡ err (forbidden "Access denied: Insufficient role")
unfolding roles_guard
roles_sample = refl

ownership_sample :
    resource_ownership_guard
      (λ id. some (some (record { name = "Owner"; rank = 1; role_permissions = none })))
      true
      (some 2)
      cashier
    ≡ err (forbidden "You do not have sufficient privileges to modify this admin")
unfolding resource_ownership_guard
ownership_sample = refl

permissions_guard_iff_example :
    (permissions_guard (some (create_payments ∷ [])) (some cashier) ≡ ok true)
    ↔ IsPermitted (some (create_payments ∷ [])) (some cashier)
permissions_guard_iff_example = permissions_guard_iff (some (create_payments ∷ [])) (some cashier)
