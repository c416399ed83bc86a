-- ===== src/Booking/Overlap.antt =====
-- The calendar: the stays that are still to come or going on, and the nights that they take.
use hotel_booking_management.Base.{
  ℕ, ◌+◌, ◌≤◌, ◌≡◌, refl, Bool, true, false, ◌&&◌, List, [], ◌∷◌, ◌++◌, All, All-append, ltb, leb,
  ◌==◌, if◌then◌else◌, Bool-cases, inl, inr, arith,
}
use hotel_booking_management.Entities.{Booking, BookingRoom}
use hotel_booking_management.Booking.Request.{is_live}

-- Two rows of `booking_rooms` claim one room for a common night.
abbrev pub overlaps : BookingRoom → BookingRoom → Bool
overlaps x y =
    y.room_id == x.room_id
    && (ltb x.check_in_date y.check_out_date && ltb y.check_in_date x.check_out_date)

abbrev pub clash : List Booking → BookingRoom → BookingRoom → Bool
clash bookings x y = overlaps x y && (is_live bookings x && is_live bookings y)

abbrev pub NoOverlap : List Booking → List BookingRoom → Type 0
NoOverlap bookings [] = Unit
NoOverlap bookings (x ∷ xs) = All (λ y. clash bookings x y ≡ false) xs × NoOverlap bookings xs

pub NoOverlap-append :
    (bookings : List Booking) (xs ys : List BookingRoom)
    → NoOverlap bookings xs
    → NoOverlap bookings ys
    → All (λ x. All (λ y. clash bookings x y ≡ false) ys) xs
    → NoOverlap bookings (xs ++ ys)
NoOverlap-append bookings [] ys hx hy h = hy
NoOverlap-append bookings (x ∷ xs) ys hx hy h = (
  All-append (λ y. clash bookings x y ≡ false) xs ys hx.0 h.0,
  NoOverlap-append bookings xs ys hx.1 hy h.1,
)

-- Where each row is live only if it was live before, what did not overlap still does not.
pub NoOverlap-mono :
    (before after : List Booking) (xs : List BookingRoom)
    → All (λ x. is_live after x ≡ true → is_live before x ≡ true) xs
    → NoOverlap before xs
    → NoOverlap after xs
NoOverlap-mono before after [] live h = tt
NoOverlap-mono before after (x ∷ xs) live h =
    (keep xs live.1 h.0, NoOverlap-mono before after xs live.1 h.1)
  where
    keep :
        (ys : List BookingRoom)
        → All (λ y. is_live after y ≡ true → is_live before y ≡ true) ys
        → All (λ y. clash before x y ≡ false) ys
        → All (λ y. clash after x y ≡ false) ys
    keep [] l c = tt
    keep (y ∷ ys) l c = (no_clash y l.0 c.0, keep ys l.1 c.1)
      where
        no_clash :
            (y : BookingRoom)
            → (is_live after y ≡ true → is_live before y ≡ true)
            → clash before x y ≡ false
            → clash after x y ≡ false
        no_clash y ly cy = ground (arith, live.0, ly)

-- How many live stays hold a room on a night.
abbrev pub holds : List Booking → ℕ → ℕ → BookingRoom → Bool
holds bookings room night br =
    is_live bookings br
    && (br.room_id == room && (leb br.check_in_date night && ltb night br.check_out_date))

abbrev pub guests_of_night : List Booking → ℕ → ℕ → List BookingRoom → ℕ
guests_of_night bookings room night [] = 0
guests_of_night bookings room night (x ∷ xs) =
    (if holds bookings room night x then 1 else 0) + guests_of_night bookings room night xs

held_alone :
    (bookings : List Booking) (room night : ℕ) (x : BookingRoom) (xs : List BookingRoom)
    → holds bookings room night x ≡ true
    → All (λ y. clash bookings x y ≡ false) xs
    → guests_of_night bookings room night xs ≡ 0
held_alone bookings room night x [] h c = refl
held_alone bookings room night x (y ∷ ys) h c =
    ground (arith, held_alone bookings room night x ys h c.1)

-- Without overlaps a room has at most one stay each night.
pub guests_of_night-le-one :
    (bookings : List Booking) (room night : ℕ) (xs : List BookingRoom)
    → NoOverlap bookings xs
    → guests_of_night bookings room night xs ≤ 1
guests_of_night-le-one bookings room night [] h = omega arith
guests_of_night-le-one bookings room night (x ∷ xs) h =
    elim (Bool-cases (holds bookings room night x)) [
      | inl e ↦ rw (e, held_alone bookings room night x xs e h.0) (omega arith)
      | inr e ↦ rw e (omega (arith, guests_of_night-le-one bookings room night xs h.1))
    ]
