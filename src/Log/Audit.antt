-- ===== src/Log/Audit.antt =====
-- The changes of an entity (src/v1/log/utils/audit-log-metadata.util.ts), and the log of a route
-- (intercept and logActivity of src/v1/log/interceptors/activity-log.interceptor.ts).
use hotel_booking_management.Base.Table.{In-of_any}
use hotel_booking_management.Base.Query.{In-select, In-select_intro}
use hotel_booking_management.Base.{
  String, List, Bool, ◌∷◌, select, if◌then◌else◌, not, any, str_eq, [], In, ◌≢◌, ◌≡◌, ◌↔◌, false,
  Bool-cases, true, inl, inr, str_eq_iff, ap, refl,
}

-- `[...new Set(names)]`
abbrev pub distinct_names : List String → List String
distinct_names [] = []
distinct_names (n ∷ ns) =
    let rest = distinct_names ns in if any (λ m. str_eq n m) ns then rest else n ∷ rest

-- A field that changed, with its old and its new value.
pub record Change (V : Type 0) : Type 0 where
  pub name : String
  pub old_value : V
  pub new_value : V

module _ {V : Type 0} where
  -- An entity is the function from its fields to their values, and `same` is JavaScript's `===`.
  abbrev pub changes_of :
      (V → V → Bool) → (String → V) → (String → V) → List String → List (Change V)
  changes_of same old new [] = []
  changes_of same old new (f ∷ fs) =
      let rest = changes_of same old new fs in
      if same (old f) (new f)
      then rest
      else record { name = f; old_value = old f; new_value = new f } ∷ rest

  unfoldable pub diff_audit_values :
      (V → V → Bool) → (String → V) → (String → V) → List String → List (Change V)
  diff_audit_values same old new fields =
      changes_of same old new (select (λ f. not (str_eq f "password")) (distinct_names fields))

  abbrev pub change_of : (String → V) → (String → V) → String → Change V
  change_of old new f = record { name = f; old_value = old f; new_value = new f }

  -- A field that is asked for, is not the password and has changed.
  abbrev pub IsChange :
      (V → V → Bool) → (String → V) → (String → V) → List String → Change V → Type 0
  IsChange same old new fields c =
      In c.name fields
      × (c.name ≢ "password")
      × (same (old c.name) (new c.name) ≡ false)
      × (c ≡ change_of old new c.name)

  changes_of_sound :
      (same : V → V → Bool) (old new : String → V) (fs : List String) (c : Change V)
      → In c (changes_of same old new fs)
      → In c.name fs × (same (old c.name) (new c.name) ≡ false) × (c ≡ change_of old new c.name)
  changes_of_sound same old new [] c m = elim m [ ]
  changes_of_sound same old new (f ∷ fs) c m = elim (Bool-cases (same (old f) (new f))) [
    | inl e ↦
        let m' : In c (changes_of same old new fs) = rw e at m in
        let (a, b, d) = changes_of_sound same old new fs c m' in (inr a, b, d)
    | inr e ↦
        let m' : In c (change_of old new f ∷ changes_of same old new fs) = rw e at m in
        elim m' [
          | inl here ↦ (rw here (inl refl, e, refl))
          | inr later ↦ let (a, b, d) = changes_of_sound same old new fs c later in (inr a, b, d)
        ]
  ]

  changes_of_complete :
      (same : V → V → Bool) (old new : String → V) (fs : List String) (f : String)
      → In f fs
      → same (old f) (new f) ≡ false
      → In (change_of old new f) (changes_of same old new fs)
  changes_of_complete same old new [] f m h = elim m [ ]
  changes_of_complete same old new (g ∷ gs) f (inl here) h =
      let k : same (old g) (new g) ≡ false = rw (← here) h in
      rw k (inl (ap (change_of old new) here))
  changes_of_complete same old new (g ∷ gs) f (inr later) h =
      elim (Bool-cases (same (old g) (new g))) [
        | inl e ↦ rw e (changes_of_complete same old new gs f later h)
        | inr e ↦ rw e (inr (changes_of_complete same old new gs f later h))
      ]

In-distinct_names : (f : String) (fs : List String) → In f (distinct_names fs) ↔ In f fs
In-distinct_names f [] = (λ m. m, λ m. m)
In-distinct_names f (g ∷ gs) =
    let (down, up) = In-distinct_names f gs in
    elim (Bool-cases (any (λ m. str_eq g m) gs)) [
      | inr e ↦ rw e (
        (λ m. elim m [ inl h ↦ inl h | inr t ↦ inr (down t) ]),
        (λ m. elim m [ inl h ↦ inl h | inr t ↦ inr (up t) ]),
      )
      | inl e ↦
          let (k, mk, same) = In-of_any (λ m. str_eq g m) gs e in
          let again : In g gs = rw ((str_eq_iff g k).0 same) mk in
          rw e ((λ m. inr (down m)), (λ m. elim m [ inl h ↦ up (rw h again) | inr t ↦ up t ]))
    ]

-- Whatever entity, fields and comparison: what the audit log gets are exactly the fields that were
-- asked for and have changed, each with its old and its new value, and never the password.
pub diff_audit_values_iff :
    {V : Type 0} (same : V → V → Bool) (old new : String → V) (fields : List String) (c : Change V)
    → In c (diff_audit_values same old new fields) ↔ IsChange same old new fields c
unfolding diff_audit_values
diff_audit_values_iff same old new fields c =
    let names = distinct_names fields in
    let p : String → Bool = λ f. not (str_eq f "password") in
    (
      λ m.
          let (a, b, d) = changes_of_sound same old new (select p names) c m in
          let (n, q) = In-select p c.name names a in
          ((In-distinct_names c.name fields).0 n, not_password c.name q, b, d),
      λ (m, ne, changed, same_change). rw same_change (
          changes_of_complete same old new (select p names) c.name
            (In-select_intro p c.name names ((In-distinct_names c.name fields).1 m)
              (is_other c.name ne))
            changed),
    )
  where
    not_password : (f : String) → not (str_eq f "password") ≡ true → f ≢ "password"
    not_password f h e =
        let t : str_eq f "password" ≡ true = (str_eq_iff f "password").1 e in
        absurd (cc (rw t at h))

    is_other : (f : String) → f ≢ "password" → not (str_eq f "password") ≡ true
    is_other f ne = elim (Bool-cases (str_eq f "password")) [
      | inl e ↦ absurd (ne ((str_eq_iff f "password").0 e))
      | inr e ↦ rw e refl
    ]
