-- ===== src/Log/Body.antt =====
-- The body of a request, as the log keeps it (sanitizeBody of
-- src/v1/log/interceptors/activity-log.interceptor.ts).
use hotel_booking_management.Base.{
  String, ℕ, Bool, List, if◌then◌else◌, ◌≡◌, ◌∷◌, any, ◌+◌, true, [], str_eq,
}

mutual
  -- A value that JSON can hold.
  pub data JsonValue : Type 0 where
    json_null : JsonValue
    json_bool : Bool → JsonValue
    json_number : ℕ → JsonValue
    json_text : String → JsonValue
    json_array : JsonItems → JsonValue
    json_object : JsonFields → JsonValue

  pub data JsonItems : Type 0 where
    json_no_items : JsonItems
    json_item : JsonValue → JsonItems → JsonItems

  pub data JsonFields : Type 0 where
    json_no_fields : JsonFields
    json_field : String → JsonValue → JsonFields → JsonFields

abbrev pub redacted : JsonValue
redacted = json_text "[REDACTED]"

abbrev pub sensitive_keys : List String
sensitive_keys =
    "password" ∷ "currentPassword" ∷ "newPassword" ∷ "confirmPassword" ∷ "smtpPassword" ∷ "token"
    ∷ "accessToken" ∷ "refreshToken" ∷ "otp" ∷ "code" ∷ "secret" ∷ []

unfoldable pub is_sensitive : String → Bool
is_sensitive key = any (λ k. str_eq k key) sensitive_keys

-- `index_name` is the text of an array's index, the key that `Object.entries` gives its items.
module _ (index_name : ℕ → String) where
  unfoldable mutual
    unfolding is_sensitive

    pub sanitize_body : JsonValue → JsonValue
    sanitize_body json_null = json_null
    sanitize_body (json_bool b) = json_bool b
    sanitize_body (json_number n) = json_number n
    sanitize_body (json_text t) = json_text t
    sanitize_body (json_array items) = json_object (sanitize_items 0 items)
    sanitize_body (json_object fields) = json_object (sanitize_fields fields)

    pub sanitize_items : ℕ → JsonItems → JsonFields
    sanitize_items i json_no_items = json_no_fields
    sanitize_items i (json_item v vs) =
        let clean = sanitize_body v in
        json_field (index_name i) (if is_sensitive (index_name i) then redacted else clean)
          (sanitize_items (i + 1) vs)

    pub sanitize_fields : JsonFields → JsonFields
    sanitize_fields json_no_fields = json_no_fields
    sanitize_fields (json_field key v fs) =
        let clean = sanitize_body v in
        json_field key (if is_sensitive key then redacted else clean) (sanitize_fields fs)

-- Under a sensitive key nothing but the mark is left, at any depth, and there are no arrays.
unfoldable mutual
  pub IsClean : JsonValue → Type 0
  IsClean (json_array items) = ⊥
  IsClean (json_object fields) = AreClean fields
  IsClean _ = Unit

  pub AreClean : JsonFields → Type 0
  AreClean json_no_fields = Unit
  AreClean (json_field key v fs) =
      (is_sensitive key ≡ true → v ≡ redacted) × IsClean v × AreClean fs
