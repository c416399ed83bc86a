-- ===== src/Guard/Permissions.antt =====
-- Which accounts pass the permissions guard.
use hotel_booking_management.Base.Table.{In-of_any, any_of_In}
use hotel_booking_management.Base.Exec.{ok}
use hotel_booking_management.Base.{
  Option, List, ◌≡◌, some, true, ◌↔◌, In, arith, none, Option-cases, inl, inr, Bool-cases, str_eq,
  any, ◌∙◌, ap, str_eq_iff, refl,
}
use hotel_booking_management.Guard.{
  PermissionRequirement, ActionType, RolePermission, same_action, Permission, Principal,
  permissions_of, permission_matches, permissions_guard, check_object_permission,
}

-- The permission is for the module and the action that are required.
abbrev pub Grants : PermissionRequirement → RolePermission → Type 0
Grants required r =
    (p : Permission) × (r.permission ≡ some p)
    × (p.module_code ≡ some required.module_code)
    × (p.action ≡ required.permission)

-- The route asks for nothing, or the account's role has a permission that grants one of the
-- requirements.
abbrev pub IsPermitted : Option (List PermissionRequirement) → Option Principal → Type 0
IsPermitted none user = Unit
IsPermitted (some required) none = ⊥
IsPermitted (some required) (some user) =
    (rs : List RolePermission) × (permissions_of user ≡ some rs)
    × ((q : PermissionRequirement) × In q required × ((r : RolePermission) × In r rs × Grants q r))

same_action_iff : (a b : ActionType) → (same_action a b ≡ true) ↔ (a ≡ b)
same_action_iff a b = ground arith

matches-Grants :
    (q : PermissionRequirement) (r : RolePermission) → (permission_matches q r ≡ true) ↔ Grants q r
unfolding permission_matches
matches-Grants q r = (there, back)
  where
    there : permission_matches q r ≡ true → Grants q r
    there h = elim (Option-cases r.permission) [
      | inl e ↦ absurd (cc (rw e at h))
      | inr (p, e) ↦ elim (Option-cases p.module_code) [
        | inl c ↦ absurd (cc (rw (e, c) at h))
        | inr (code, c) ↦ elim (Bool-cases (str_eq code q.module_code)) [
          | inr other ↦ absurd (cc (rw (e, c, other) at h))
          | inl same ↦ (
            p,
            e,
            c ∙ ap some ((str_eq_iff code q.module_code).0 same),
            (same_action_iff p.action q.permission).0 (rw (e, c, same) at h),
          )
        ]
      ]
    ]

    back : Grants q r → permission_matches q r ≡ true
    back (p, e, c, a) =
        rw
          (
            e,
            c,
            (str_eq_iff q.module_code q.module_code).1 refl,
            (same_action_iff p.action q.permission).1 a,
          )
          refl

-- The guard passes exactly the accounts that are permitted: a route that asks for nothing lets
-- everyone pass, and any other asks for a signed-in account whose role has, for at least one of the
-- requirements, a permission for its module and its action.
pub permissions_guard_iff :
    (required : Option (List PermissionRequirement)) (user : Option Principal)
    → (permissions_guard required user ≡ ok true) ↔ IsPermitted required user
unfolding permissions_guard check_object_permission
permissions_guard_iff none user = ((λ h. tt), (λ h. refl))
permissions_guard_iff (some required) none = ((λ h. absurd (cc h)), (λ h. elim h [ ]))
permissions_guard_iff (some required) (some user) = (there, back)
  where
    there :
        permissions_guard (some required) (some user) ≡ ok true
        → IsPermitted (some required) (some user)
    there h = elim (Option-cases (permissions_of user)) [
      | inl e ↦ absurd (cc (rw (permissions_guard, e) at h))
      | inr (rs, e) ↦ elim (Bool-cases (any (λ q. check_object_permission q user) required)) [
        | inr refused ↦ absurd (cc (rw (permissions_guard, e, refused) at h))
        | inl passed ↦
            let (q, mq, hq) = In-of_any (λ q. check_object_permission q user) required passed in
            let some_right : any (permission_matches q) rs ≡ true =
              rw (check_object_permission, e) at hq in
            let (r, mr, hr) = In-of_any (permission_matches q) rs some_right in
            (rs, e, (q, mq, (r, mr, (matches-Grants q r).0 hr)))
      ]
    ]

    back :
        IsPermitted (some required) (some user)
        → permissions_guard (some required) (some user) ≡ ok true
    back (rs, e, (q, mq, (r, mr, g))) =
        let one = any_of_In (permission_matches q) r rs mr ((matches-Grants q r).1 g) in
        let checked : check_object_permission q user ≡ true = rw (check_object_permission, e) one in
        let passed = any_of_In (λ q. check_object_permission q user) q required mq checked in
        rw (permissions_guard, e, passed) refl
