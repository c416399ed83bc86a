-- ===== src/Log/Tests.antt =====
-- The log at sample bodies and entities.
use hotel_booking_management.Auth.Samples.{lib, reset_lib}
use hotel_booking_management.Base.Table.{scan_order}
use hotel_booking_management.Log.Paths.{at_path, sanitize_body-IsClean, at_path-sanitize_body}
use hotel_booking_management.Auth.Profile.{logout}
use hotel_booking_management.Log.Audit.{
  change_of, diff_audit_values, IsChange, diff_audit_values_iff,
}
use hotel_booking_management.Samples.{env, customer}
use hotel_booking_management.Auth.State.{Accounts}
use hotel_booking_management.Log.Body.{
  json_null, json_field, json_item, json_no_items, json_no_fields, json_object, json_text,
  json_array, JsonValue, sanitize_body, IsClean, is_sensitive, redacted,
}
use hotel_booking_management.Base.{
  String, ℕ, if◌then◌else◌, In, ◌≡◌, All, str_eq, false, ◌∷◌, some, [], refl, ◌↔◌,
}

abbrev index_name : ℕ → String
index_name i = "0"

abbrev user_body : JsonValue
user_body = json_object (
    json_field "name" (json_text "Ko") (
      json_field "logins"
        (json_array (
          json_item
            (json_object
              (json_field "password" (json_text "p") (json_field "at" json_null json_no_fields)))
            json_no_items))
        json_no_fields))

sanitize_sample :
    sanitize_body index_name user_body
    ≡ json_object (
        json_field "name" (json_text "Ko") (
          json_field "logins"
            (json_object (
              json_field "0"
                (json_object
                  (json_field "password" redacted (json_field "at" json_null json_no_fields)))
                json_no_fields))
            json_no_fields))
unfolding sanitize_body
sanitize_sample = refl

sanitize_body-IsClean_example : IsClean (sanitize_body index_name user_body)
sanitize_body-IsClean_example = sanitize_body-IsClean index_name user_body

plain_path : All (λ key. is_sensitive key ≡ false) ("logins" ∷ "0" ∷ "at" ∷ [])
unfolding is_sensitive
plain_path = (refl, (refl, (refl, tt)))

at_path-sanitize_body_example :
    at_path index_name ("logins" ∷ "0" ∷ "at" ∷ []) (sanitize_body index_name user_body)
    ≡ some json_null
unfolding sanitize_body
at_path-sanitize_body_example =
    at_path-sanitize_body index_name ("logins" ∷ "0" ∷ "at" ∷ []) user_body plain_path

abbrev old_entity : String → String
old_entity f = if str_eq f "status" then "AVAILABLE" else "same"

abbrev new_entity : String → String
new_entity f = if str_eq f "status" then "OCCUPIED" else "same"

diff_audit_values_iff_example :
    In
      (change_of old_entity new_entity "status")
      (diff_audit_values str_eq old_entity new_entity ("floor" ∷ "status" ∷ []))
    ↔ IsChange str_eq old_entity new_entity
        ("floor" ∷ "status" ∷ [])
        (change_of old_entity new_entity "status")
diff_audit_values_iff_example =
    diff_audit_values_iff str_eq old_entity new_entity ("floor" ∷ "status" ∷ [])
      (change_of old_entity new_entity "status")

abbrev sign_out : Accounts (Unit {0})
sign_out = logout scan_order env lib reset_lib "a" (some customer)
