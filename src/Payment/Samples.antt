-- ===== src/Payment/Samples.antt =====
-- The sample database with an empty cache, and with a payment under way.
use hotel_booking_management.Samples.{payment_at, stays, paid_checked_in, paid_confirmed}
use hotel_booking_management.Cache.Memory.{memory}
use hotel_booking_management.Payment.Keys.{PaymentFilter, same_key, same_key_iff}
use hotel_booking_management.Payment.Service.{ListQuery, PayState, Manager}
use hotel_booking_management.Entities.{Payment, Currency, PaymentStatus}
use hotel_booking_management.Base.{
  ℕ, none, Bool, select, false, List, length, Option, All, ◌∷◌, String, ◌≡◌, some, true, [],
  Bool-cases, inl, inr,
}

abbrev pub cache : Manager
cache = memory same_key same_key_iff (List Payment × ℕ)

abbrev pub empty : cache.Store
empty = λ k. none

pub select-All : (p : Payment → Bool) (rows : List Payment) → All (λ x. p x ≡ true) (select p rows)
select-All p [] = tt
select-All p (x ∷ xs) = elim (Bool-cases (p x)) [
  | inl e ↦ rw e (e, select-All p xs)
  | inr e ↦ rw e (select-All p xs)
]

abbrev pub all_rows : ListQuery
all_rows = record {
  run = λ p q rows. (select p rows, length (select p rows));
  run_sound = λ p q rows. select-All p rows;
}

abbrev pub paid_stays : PayState cache
paid_stays = record { db = stays; store = empty }

abbrev pub pending_payment : Payment
pending_payment = payment_at 62 12 "pi_c" PaymentStatus.pending

-- The pending booking's payment has been initiated.
abbrev pub initiated : PayState cache
initiated = record paid_stays {
  db = record stays { payments = paid_checked_in ∷ paid_confirmed ∷ pending_payment ∷ [] };
}

abbrev pub filter : PaymentFilter
filter = record {
  page = 1;
  limit = 10;
  get_all = false;
  sort_by = none;
  ascending = false;
  user_id = none;
  payment_status = none;
  booking_id = none;
}

abbrev pub stripe : ℕ → Currency → Option (String × String)
stripe amount currency = some ("pi_d", "secret")
