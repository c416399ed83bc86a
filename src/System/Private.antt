-- ===== src/System/Private.antt =====
-- Who sees which payments, over every run of requests and lists: `findAll` of
-- src/v1/payment/services/payment.service.ts with its cache.
use hotel_booking_management.Payment.Intents.{Initiated, create_payment_intent-Initiated}
use hotel_booking_management.Base.Exec.{ok, Result, err}
use hotel_booking_management.Cache.{invalidate_lists, keys, listing}
use hotel_booking_management.Payment.Service.{
  Manager, PayState, handle_stripe_webhook, ListQuery, handle_payment_success,
  handle_payment_failure, confirm_cash_payment, find_all, by_intent, list_condition,
  create_payment_intent, list_query, payment_succeeded, payment_failed, other_event,
}
use hotel_booking_management.Base.Table.{Orm}
use hotel_booking_management.Entities.{
  Surroundings, Payment, AuthenticatedUser, Currency, Booking, SubjectType, same_payment_status,
  same_booking_status, PaymentStatus, BookingStatus,
}
use hotel_booking_management.Base.{
  ℕ, List, All, String, ◌≡◌, Option, Option-cases, ◌∷◌, none, [], inl, ◌==◌, inr, sym, ap,
  Bool-cases, ◌∙◌, true, All-imp, subst, refl, arith, eq_of_==,
}
use hotel_booking_management.Cache.Holds.{Holds, Holds-invalidate_lists, Holds-cache_list}
use hotel_booking_management.Payment.Keys.{
  same_key, same_key_iff, registry, PaymentKey, PaymentFilter, payment_list_key, list_key,
}
use hotel_booking_management.System.{handle, Request, book, patch, initiate, webhook, cash}

-- The payments of one user.
abbrev pub IsOwn : ℕ → List Payment × ℕ → Type 0
IsOwn i result = All (λ (p : Payment). p.user_id ≡ i) result.0

-- A listing under a key of a customer holds payments of that customer only.
abbrev FitsKey : PaymentKey → List Payment × ℕ → Type 0
FitsKey (list_key SubjectType.user_subject i f) result = IsOwn i result
FitsKey (list_key SubjectType.admin_subject i f) result = Unit
FitsKey registry result = Unit

-- A request that may write, or the list of payments that somebody asks for.
pub data PaymentAccess : Type 0 where
  request : Request → PaymentAccess
  list_payments : Surroundings → PaymentFilter → AuthenticatedUser → PaymentAccess

module _ (orm : Orm) (cache : Manager) where
  abbrev IsPrivate : PayState cache → Type 0
  IsPrivate s = Holds same_key same_key_iff cache registry FitsKey s.store

  module _ (env : Surroundings) (s : PayState cache) where
    invalidated :
        (s' : PayState cache)
        → s'.store ≡ invalidate_lists same_key cache registry env.now s.store
        → IsPrivate s
        → IsPrivate s'
    invalidated s' e h =
        rw e (Holds-invalidate_lists same_key same_key_iff cache registry FitsKey env.now s.store h)

    Initiated-IsPrivate :
        (stripe : ℕ → Currency → Option (String × String)) (id : ℕ) (user : AuthenticatedUser)
        (r : Result (String × ℕ) × PayState cache)
        → Initiated orm cache env stripe id user s r
        → IsPrivate s
        → IsPrivate r.1
    Initiated-IsPrivate stripe id user (err e, s') i h = rw i h
    Initiated-IsPrivate stripe id user (ok answer, s') (_, _, _, _, _, _, _, _, _, e) h =
        invalidated s' (ap (λ (x : PayState cache). x.store) e) h

    success-IsPrivate :
        (intent : String)
        → IsPrivate s
        → IsPrivate (handle_payment_success orm cache env intent s).1
    unfolding handle_payment_success
    success-IsPrivate intent h =
        elim (Option-cases (orm.find_one Payment (by_intent orm cache env intent) s.db.payments)) [
          | inl e ↦ rw e h
          | inr (p, e) ↦ elim (Bool-cases (same_payment_status p.status PaymentStatus.completed)) [
            | inl done ↦ rw (e, done) h
            | inr open_payment ↦
                rw (e, open_payment)
                  (Holds-invalidate_lists same_key same_key_iff cache registry FitsKey env.now
                    s.store h)
          ]
        ]

    failure-IsPrivate :
        (intent : String)
        → IsPrivate s
        → IsPrivate (handle_payment_failure orm cache env intent s).1
    unfolding handle_payment_failure
    failure-IsPrivate intent h =
        elim (Option-cases (orm.find_one Payment (by_intent orm cache env intent) s.db.payments)) [
          | inl e ↦ rw e h
          | inr (p, e) ↦ rw e (
              Holds-invalidate_lists same_key same_key_iff cache registry FitsKey env.now s.store h)
        ]

    cash-IsPrivate :
        (id : ℕ) (user : AuthenticatedUser)
        → IsPrivate s
        → IsPrivate (confirm_cash_payment orm cache env id user s).1
    unfolding confirm_cash_payment
    cash-IsPrivate id user h =
        elim (Option-cases (orm.find_one Booking (λ b. b.id == id) s.db.bookings)) [
          | inl e ↦ rw e h
          | inr (b, e) ↦ elim (Bool-cases (same_booking_status b.status BookingStatus.pending)) [
            | inr other ↦ rw (e, other) h
            | inl pending ↦
                rw (e, pending)
                  (Holds-invalidate_lists same_key same_key_iff cache registry FitsKey env.now
                    s.store h)
          ]
        ]

  handle-IsPrivate :
      (q : Request) (s : PayState cache) → IsPrivate s → IsPrivate (handle orm cache q s)
  unfolding handle handle_stripe_webhook
  handle-IsPrivate (book env reference items user) s h = h
  handle-IsPrivate (patch id status user) s h = h
  handle-IsPrivate (initiate env stripe id user) s h =
      Initiated-IsPrivate env s stripe id user
        (create_payment_intent orm cache env stripe id user s)
        (create_payment_intent-Initiated orm cache env stripe id user s) h
  handle-IsPrivate (webhook env payment_succeeded intent) s h = success-IsPrivate env s intent h
  handle-IsPrivate (webhook env payment_failed intent) s h = failure-IsPrivate env s intent h
  handle-IsPrivate (webhook env other_event intent) s h = h
  handle-IsPrivate (cash env id user) s h = cash-IsPrivate env s id user h

  module _ (query : ListQuery) (ttl : ℕ) (stable : PaymentFilter → String) where
    own_condition :
        (filter : PaymentFilter) (user : AuthenticatedUser)
        → user.subject_type ≡ SubjectType.user_subject
        → (p : Payment) → list_condition filter user p ≡ true
        → p.user_id ≡ user.id
    unfolding list_condition
    own_condition filter user customer p h =
        let own : (p.user_id == user.id) ≡ true = ground arith in eq_of_== p.user_id user.id own

    -- The rows that the database selects for a caller fit the key of the caller.
    selected :
        (filter : PaymentFilter) (user : AuthenticatedUser) (rows : List Payment) (t : SubjectType)
        → user.subject_type ≡ t
        → FitsKey
            (list_key t user.id (stable filter))
            (query.run (list_condition filter user) (list_query filter) rows)
    selected filter user rows SubjectType.admin_subject e = tt
    selected filter user rows SubjectType.user_subject e =
        All-imp (λ p. list_condition filter user p ≡ true) (λ (p : Payment). p.user_id ≡ user.id)
          (query.run (list_condition filter user) (list_query filter) rows).0
          (own_condition filter user e)
          (query.run_sound (list_condition filter user) (list_query filter) rows)

    module _ (env : Surroundings) (filter : PaymentFilter) (user : AuthenticatedUser)
        (s : PayState cache) where
      -- The answer of `findAll` fits the key.
      listed :
          (result : List Payment × ℕ)
          → IsPrivate s
          → (find_all orm cache env query ttl stable filter user s).0 ≡ ok result
          → FitsKey (payment_list_key stable filter user) result
      unfolding find_all payment_list_key
      listed result h answer =
          let key = payment_list_key stable filter user in
          let computed = query.run (list_condition filter user) (list_query filter) s.db.payments in
          let fits = selected filter user s.db.payments user.subject_type refl in
          elim (Option-cases (cache.get env.now key s.store)) [
            | inl e ↦
                let same : ok computed ≡ ok result = rw (find_all, e) at answer in
                let c : computed ≡ result = cc in subst (FitsKey key) c fits
            | inr (keys ks, e) ↦
                let same : ok computed ≡ ok result = rw (find_all, e) at answer in
                let c : computed ≡ result = cc in subst (FitsKey key) c fits
            | inr (listing cached, e) ↦
                let same : ok cached ≡ ok result = rw (find_all, e) at answer in
                let c : cached ≡ result = cc in subst (FitsKey key) c (h env.now key cached e)
          ]

      -- What `findAll` caches fits as well.
      listed-IsPrivate :
          IsPrivate s → IsPrivate (find_all orm cache env query ttl stable filter user s).1
      unfolding find_all payment_list_key
      listed-IsPrivate h =
          let key = payment_list_key stable filter user in
          let computed = query.run (list_condition filter user) (list_query filter) s.db.payments in
          let fits = selected filter user s.db.payments user.subject_type refl in
          elim (Option-cases (cache.get env.now key s.store)) [
            | inl e ↦
                rw (find_all, e)
                  (Holds-cache_list same_key same_key_iff cache registry FitsKey env.now ttl key
                    computed s.store fits h)
            | inr (keys ks, e) ↦ rw (find_all, e) h
            | inr (listing cached, e) ↦ rw (find_all, e) h
          ]

    unfoldable pub access : PaymentAccess → PayState cache → PayState cache
    access (request q) s = handle orm cache q s
    access (list_payments env filter user) s =
        (find_all orm cache env query ttl stable filter user s).1

    unfoldable pub run_accesses : List PaymentAccess → PayState cache → PayState cache
    run_accesses [] s = s
    run_accesses (a ∷ others) s = run_accesses others (access a s)

    run_accesses-IsPrivate :
        (accesses : List PaymentAccess) (s : PayState cache)
        → IsPrivate s
        → IsPrivate (run_accesses accesses s)
    unfolding run_accesses access
    run_accesses-IsPrivate [] s h = h
    run_accesses-IsPrivate (request q ∷ rest) s h =
        run_accesses-IsPrivate rest (handle orm cache q s) (handle-IsPrivate q s h)
    run_accesses-IsPrivate (list_payments env filter user ∷ rest) s h =
        run_accesses-IsPrivate rest (find_all orm cache env query ttl stable filter user s).1
          (listed-IsPrivate env filter user s h)

    -- Whatever requests and lists of payments came before, from an empty cache on: the list of
    -- payments that a customer gets, from the cache or from the database, holds only payments of
    -- that customer.
    pub find_all_private :
        (accesses : List PaymentAccess) (env : Surroundings) (filter : PaymentFilter)
        (user : AuthenticatedUser) (s : PayState cache) (result : List Payment × ℕ)
        → ((t : ℕ) (k : PaymentKey) → cache.get t k s.store ≡ none)
        → user.subject_type ≡ SubjectType.user_subject
        → (find_all orm cache env query ttl stable filter user (run_accesses accesses s)).0
          ≡ ok result
        → All (λ (p : Payment). p.user_id ≡ user.id) result.0
    unfolding payment_list_key
    find_all_private accesses env filter user s result empty customer h =
        let start : IsPrivate s = λ t k v e. absurd (cc (sym (empty t k) ∙ e)) in
        let s' = run_accesses accesses s in
        let fits = listed env filter user s' result (run_accesses-IsPrivate accesses s start) h in
        rw customer at fits
