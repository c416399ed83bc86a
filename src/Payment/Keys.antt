-- ===== src/Payment/Keys.antt =====
-- The filters of the payment list and the keys of its cache
-- (src/v1/payment/dto/filter-payment.dto.ts; paymentListKey and the sort fields of
-- src/v1/payment/services/payment.service.ts).
use hotel_booking_management.Entities.{SubjectType, PaymentStatus, AuthenticatedUser}
use hotel_booking_management.Base.{
  ℕ, String, Bool, Option, ◌≡◌, some, ◌&&◌, true, if◌then◌else◌, ◌==◌, ◌↔◌, str_eq, arith, false,
  str_eq_iff, none, refl,
}

pub data SortField : Type 0 where
  created_at amount status : SortField

-- `FilterPaymentDto`, with the defaults of `PaginationFilterDto` filled in.
pub record PaymentFilter : Type 0 where
  pub page : ℕ
  pub limit : ℕ
  pub get_all : Bool
  pub sort_by : Option String
  pub ascending : Bool
  pub user_id : Option ℕ
  pub payment_status : Option PaymentStatus
  pub booking_id : Option ℕ

-- A field that is not in the list of the valid ones falls back to `createdAt`.
unfoldable pub sort_field : Option String → SortField
sort_field none = SortField.created_at
sort_field (some name) =
    if str_eq name "amount"
    then SortField.amount
    else if str_eq name "status"
    then SortField.status
    else SortField.created_at

-- A key of the payment cache: `payments:list:${subjectType}:${id}:${stable}`, or the registry's.
pub data PaymentKey : Type 0 where
  list_key : SubjectType → ℕ → String → PaymentKey
  registry : PaymentKey

abbrev pub same_subject : SubjectType → SubjectType → Bool
same_subject SubjectType.admin_subject SubjectType.admin_subject = true
same_subject SubjectType.user_subject SubjectType.user_subject = true
same_subject _ _ = false

abbrev pub same_key : PaymentKey → PaymentKey → Bool
same_key (list_key s i f) (list_key s' i' f') = same_subject s s' && (i == i' && str_eq f f')
same_key registry registry = true
same_key _ _ = false

pub same_key_iff : (a b : PaymentKey) → (same_key a b ≡ true) ↔ (a ≡ b)
same_key_iff (list_key s i f) (list_key s' i' f') =
    (λ h. ground (arith, str_eq_iff f f'), λ h. ground (arith, str_eq_iff f f'))
same_key_iff (list_key s i f) registry = (λ h. cc, λ h. cc)
same_key_iff registry (list_key s i f) = (λ h. cc, λ h. cc)
same_key_iff registry registry = (λ h. refl, λ h. refl)

-- `stable` stands for the text of `JSON.stringify(filter, Object.keys(filter).sort())`.
unfoldable pub payment_list_key :
    (PaymentFilter → String) → PaymentFilter → AuthenticatedUser → PaymentKey
payment_list_key stable filter user = list_key user.subject_type user.id (stable filter)
