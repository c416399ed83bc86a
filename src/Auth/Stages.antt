-- ===== src/Auth/Stages.antt =====
-- The stages of a registration, over the requests of users
-- (src/v1/auth/services/user-auth.service.ts).
use hotel_booking_management.Base.{
  List, ℕ, In, Bool, All, ◌≡◌, ◌≢◌, Bool-cases, ◌++◌, refl, ◌==◌, inl, ◌∷◌, eq_of_==, [], ◌∙◌,
  In-append_left, sym, inr, ne_of_==, true,
}
use hotel_booking_management.Entities.{User, RegistrationStage, same_stage}
use hotel_booking_management.Base.Table.{
  UniqueIds, save, update, In-save_self, In-save_ne, eq_of_key, In-update_hit,
}
use hotel_booking_management.Base.Keys.{
  UniqueIds-append, UniqueIds-save, UniqueIds-update, In-update,
}

-- A registration in steps: the code, then the password, then the account.
pub data StageStep : RegistrationStage → RegistrationStage → Type 0 where
  waits : (s : RegistrationStage) → StageStep s s
  sets_password : StageStep RegistrationStage.otp_verified RegistrationStage.password_set
  sets_up : StageStep RegistrationStage.password_set RegistrationStage.completed

pub stage_of : (a b : RegistrationStage) → same_stage a b ≡ true → a ≡ b
stage_of RegistrationStage.otp_verified RegistrationStage.otp_verified h = refl
stage_of RegistrationStage.password_set RegistrationStage.password_set h = refl
stage_of RegistrationStage.completed RegistrationStage.completed h = refl
stage_of RegistrationStage.otp_verified RegistrationStage.password_set h = absurd (cc h)
stage_of RegistrationStage.otp_verified RegistrationStage.completed h = absurd (cc h)
stage_of RegistrationStage.password_set RegistrationStage.otp_verified h = absurd (cc h)
stage_of RegistrationStage.password_set RegistrationStage.completed h = absurd (cc h)
stage_of RegistrationStage.completed RegistrationStage.otp_verified h = absurd (cc h)
stage_of RegistrationStage.completed RegistrationStage.password_set h = absurd (cc h)

abbrev pub key : User → ℕ
key u = u.id

-- Every user is still there, at most one stage further on, and identifiers are unique.
pub record Steps (before after : List User) : Type 0 where
  pub kept :
      (u : User)
      → In u before
      → (v : User) × In v after
        × (v.id ≡ u.id)
        × StageStep u.registration_stage v.registration_stage
  pub unique : UniqueIds key after

pub same_Steps : (rows : List User) → UniqueIds key rows → Steps rows rows
same_Steps rows u = record { kept = λ a m. (a, m, refl, waits a.registration_stage); unique = u }

-- A stored user is saved.
pub save-Steps :
    (old new : User) (rows : List User)
    → UniqueIds key rows
    → In old rows
    → new.id ≡ old.id
    → StageStep old.registration_stage new.registration_stage
    → Steps rows (save key new rows)
save-Steps old new rows u m same step = record {
  kept = λ a ma. elim (Bool-cases (a.id == new.id)) [
    | inl e ↦
        let one : a ≡ old = eq_of_key key a old rows u ma m (eq_of_== a.id new.id e ∙ same) in
        (new, In-save_self key new rows, sym (eq_of_== a.id new.id e), rw one step)
    | inr e ↦
        (a, In-save_ne key new a rows ma (ne_of_== a.id new.id e), refl, waits a.registration_stage)
  ];
  unique = UniqueIds-save key new rows u;
}

-- An update that leaves identifiers and stages, after a step.
pub update-Steps :
    (p : User → Bool) (f : User → User) (before after : List User)
    → ((a : User) → (f a).id ≡ a.id)
    → ((a : User) → (f a).registration_stage ≡ a.registration_stage)
    → Steps before after
    → Steps before (update p f after)
update-Steps p f before after ids stages s = record {
  kept = λ a m.
      let (v, mv, i, step) = s.kept a m in
      elim (Bool-cases (p v)) [
        | inl e ↦ (f v, In-update_hit p f v after mv e, ids v ∙ i, rw (stages v) step)
        | inr e ↦ (v, rw e at (In-update p f v after mv), i, step)
      ];
  unique = UniqueIds-update key p f ids after s.unique;
}

pub append_Steps :
    (new : User) (rows : List User)
    → UniqueIds key rows
    → All (λ u. u.id ≢ new.id) rows
    → Steps rows (rows ++ new ∷ [])
append_Steps new rows u free = record {
  kept = λ a m. (a, In-append_left a rows (new ∷ []) m, refl, waits a.registration_stage);
  unique = UniqueIds-append key new rows free u;
}
