-- ===== src/Booking/Statuses.antt =====
-- What `patchStatus` allows, and what it does to the bookings.
use hotel_booking_management.Booking.Request.{not_terminal}
use hotel_booking_management.Booking.Service.{
  sync_rooms, find_one_or_fail, patch_status, is_visible,
}
use hotel_booking_management.Base.Table.{Orm, save, In-save_self}
use hotel_booking_management.Base.Exec.{ok, Exception, err, Result, bad_request, forbidden}
use hotel_booking_management.Entities.{
  BookingStatus, StayDb, same_booking_status, Booking, AuthenticatedUser, is_admin,
}
use hotel_booking_management.Base.{
  Bool, true, ◌≡◌, arith, ◌↔◌, ◌⊎◌, ℕ, false, refl, In, Option-cases, Bool-cases, inl, inr, ◌∙◌,
  none, All, All-In, sym, ◌≢◌,
}
use hotel_booking_management.Booking.Transitions.{is_allowed, assert_valid_transition}

-- The status changes of the API: cancellation before check-in, and check-in and check-out by an
-- admin.
pub data Change : Bool → BookingStatus → BookingStatus → Type 0 where
  cancel_pending : (admin : Bool) → Change admin BookingStatus.pending BookingStatus.cancelled
  cancel_confirmed : (admin : Bool) → Change admin BookingStatus.confirmed BookingStatus.cancelled
  check_in : Change true BookingStatus.confirmed BookingStatus.checked_in
  check_out : Change true BookingStatus.checked_in BookingStatus.checked_out

Change-of_is_allowed :
    (admin : Bool) (s t : BookingStatus) → is_allowed s t admin ≡ true → Change admin s t
unfolding is_allowed
Change-of_is_allowed admin BookingStatus.pending BookingStatus.cancelled h = cancel_pending admin
Change-of_is_allowed admin BookingStatus.confirmed BookingStatus.cancelled h =
    cancel_confirmed admin
Change-of_is_allowed true BookingStatus.confirmed BookingStatus.checked_in h = check_in
Change-of_is_allowed true BookingStatus.checked_in BookingStatus.checked_out h = check_out
Change-of_is_allowed true s t h = absurd (ground arith)
Change-of_is_allowed false s t h = absurd (ground arith)

is_allowed_of_Change :
    {admin : Bool} {s t : BookingStatus} → Change admin s t → is_allowed s t admin ≡ true
unfolding is_allowed
is_allowed_of_Change (cancel_pending admin) = ground arith
is_allowed_of_Change (cancel_confirmed admin) = ground arith
is_allowed_of_Change check_in = refl
is_allowed_of_Change check_out = refl

Change-ne :
    {admin : Bool} {s t : BookingStatus} → Change admin s t → same_booking_status s t ≡ false
Change-ne (cancel_pending admin) = refl
Change-ne (cancel_confirmed admin) = refl
Change-ne check_in = refl
Change-ne check_out = refl

-- A booking that changes was neither cancelled nor checked out.
pub Change-live : {admin : Bool} {s t : BookingStatus} → Change admin s t → not_terminal s ≡ true
Change-live (cancel_pending admin) = refl
Change-live (cancel_confirmed admin) = refl
Change-live check_in = refl
Change-live check_out = refl

pub Change-not_confirmed :
    {admin : Bool} {s t : BookingStatus} → Change admin s t → t ≢ BookingStatus.confirmed
Change-not_confirmed (cancel_pending admin) e = cc
Change-not_confirmed (cancel_confirmed admin) e = cc
Change-not_confirmed check_in e = cc
Change-not_confirmed check_out e = cc

-- A booking that can be cancelled is not checked in.
pub not_checked_in :
    {admin : Bool} {s : BookingStatus}
    → Change admin s BookingStatus.cancelled
    → s ≢ BookingStatus.checked_in
not_checked_in (cancel_pending admin) e = cc
not_checked_in (cancel_confirmed admin) e = cc

-- The transition check passes exactly on the status changes of the API: cancellation of a PENDING
-- or CONFIRMED booking, and check-in and check-out by an admin.
pub assert_valid_transition_iff :
    (s t : BookingStatus) (admin : Bool) (db : StayDb)
    → (assert_valid_transition s t admin db ≡ (ok tt, db)) ↔ Change admin s t
unfolding assert_valid_transition
assert_valid_transition_iff s t admin db = (
  λ h. Change-of_is_allowed admin s t (ground arith),
  λ c. let a = is_allowed_of_Change c in let ne = Change-ne c in ground arith,
)

assert_cases :
    (s t : BookingStatus) (admin : Bool) (db : StayDb)
    → ((assert_valid_transition s t admin db ≡ (ok tt, db)) × Change admin s t)
      ⊎ ((x : Exception) × (assert_valid_transition s t admin db ≡ (err x, db)))
unfolding assert_valid_transition
assert_cases s t admin db = elim (Bool-cases (same_booking_status s t)) [
  | inl same ↦ inr (bad_request "Booking is already in this status", rw same)
  | inr other ↦ elim (Bool-cases (is_allowed s t admin)) [
    | inl a ↦ inl (rw (other, a), Change-of_is_allowed admin s t a)
    | inr no_way ↦ elim (Bool-cases (same_booking_status t BookingStatus.confirmed)) [
      | inl c ↦
          inr (forbidden "Bookings are confirmed automatically upon payment", rw (other, no_way, c))
      | inr c ↦ inr (forbidden "Cannot transition booking", rw (other, no_way, c))
    ]
  ]
]

-- The database after an accepted change of a booking's status.
abbrev pub changed : Booking → BookingStatus → StayDb → StayDb
changed b t db =
    sync_rooms b.id t
      (record db { bookings = save (λ (x : Booking). x.id) (record b { status = t }) db.bookings })

pub bookings-sync_rooms :
    (id : ℕ) (t : BookingStatus) (db : StayDb) → (sync_rooms id t db).bookings ≡ db.bookings
unfolding sync_rooms
bookings-sync_rooms id BookingStatus.pending db = refl
bookings-sync_rooms id _ db = refl

pub booking_rooms-sync_rooms :
    (id : ℕ) (t : BookingStatus) (db : StayDb)
    → (sync_rooms id t db).booking_rooms ≡ db.booking_rooms
unfolding sync_rooms
booking_rooms-sync_rooms id BookingStatus.pending db = refl
booking_rooms-sync_rooms id _ db = refl

-- What `patchStatus` answers and leaves: a visible booking changes as the API allows, or nothing
-- changes.
abbrev pub Patched :
    ℕ → BookingStatus → AuthenticatedUser → StayDb → Result Booking × StayDb → Type 0
Patched id t user db (ok answer, db') =
    (b : Booking) × In b db.bookings
    × (is_visible id user b ≡ true)
    × Change (is_admin user) b.status t
    × (db' ≡ changed b t db)
    × In answer db'.bookings
    × (answer.id ≡ id)
Patched id t user db (err e, db') = db' ≡ db

pub visible_id :
    (id : ℕ) (user : AuthenticatedUser) (b : Booking) → is_visible id user b ≡ true → b.id ≡ id
visible_id id user b h = ground arith

module _ (orm : Orm) where
  saved_visible :
      (id : ℕ) (t : BookingStatus) (user : AuthenticatedUser) (b : Booking)
      → is_visible id user b ≡ true
      → is_visible b.id user (record b { status = t }) ≡ true
  saved_visible id t user b v = ground arith

  -- the saved booking is found again
  not_missing :
      (id : ℕ) (t : BookingStatus) (user : AuthenticatedUser) (db : StayDb) (b : Booking)
      → is_visible id user b ≡ true
      → orm.find_one Booking (is_visible b.id user) (changed b t db).bookings ≡ none
      → ⊥
  not_missing id t user db b v e =
      let saved : Booking = record b { status = t } in
      let all_hidden : All (λ x. is_visible b.id user x ≡ false)
          (save (λ (x : Booking). x.id) saved db.bookings) =
        rw (bookings-sync_rooms b.id t) at
          (orm.find_one_complete Booking (is_visible b.id user) (changed b t db).bookings e) in
      let hidden =
        All-In (λ x. is_visible b.id user x ≡ false)
          (save (λ (x : Booking). x.id) saved db.bookings) all_hidden
          (In-save_self (λ (x : Booking). x.id) saved db.bookings) in
      let shown = saved_visible id t user b v in cc (sym shown ∙ hidden)

  finish :
      (id : ℕ) (t : BookingStatus) (user : AuthenticatedUser) (db : StayDb) (b : Booking)
      → In b db.bookings
      → is_visible id user b ≡ true
      → Change (is_admin user) b.status t
      → Patched id t user db (find_one_or_fail orm b.id user (changed b t db))
  unfolding find_one_or_fail
  finish id t user db b m v c =
      elim (Option-cases (orm.find_one Booking (is_visible b.id user) (changed b t db).bookings)) [
        | inl e ↦ absurd (not_missing id t user db b v e)
        | inr (answer, e) ↦
            let found =
              orm.find_one_sound Booking (is_visible b.id user) (changed b t db).bookings answer
                e in
            rw e (
              b,
              m,
              v,
              c,
              refl,
              found.0,
              visible_id b.id user answer found.1 ∙ visible_id id user b v,
            )
      ]

  -- For every database that answers queries as documented: `patchStatus` either throws and changes
  -- nothing, or it finds a booking of that identifier that the caller may see, whose change of status
  -- the API allows, saves the new status, and sets the status of the rooms that the change calls for.
  pub patch_status-Patched :
      (id : ℕ) (t : BookingStatus) (user : AuthenticatedUser) (db : StayDb)
      → Patched id t user db (patch_status orm id t user db)
  unfolding patch_status
  patch_status-Patched id t user db =
      elim (Option-cases (orm.find_one Booking (is_visible id user) db.bookings)) [
        | inl e ↦ rw e refl
        | inr (b, e) ↦ rw e (elim (assert_cases b.status t (is_admin user) db) [
          | inl (passed, c) ↦ rw passed (
              let found = orm.find_one_sound Booking (is_visible id user) db.bookings b e in
              finish id t user db b found.0 found.1 c)
          | inr (x, refused) ↦ rw refused refl
        ])
      ]
