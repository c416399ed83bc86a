-- ===== src/Log/Paths.antt =====
-- What sanitising keeps and what it hides.
use hotel_booking_management.Log.Body.{
  json_null, json_bool, json_number, json_text, json_array, json_object, json_item, json_field,
  json_no_items, json_no_fields,
}
use hotel_booking_management.Log.Body.{
  JsonItems, JsonValue, sanitize_body, JsonFields, json_array, is_sensitive, IsClean, json_object,
  json_bool, sanitize_fields, sanitize_items, json_number, json_text, AreClean,
}
use hotel_booking_management.Base.{
  String, ℕ, Bool, List, Option, none, some, All, true, ◌∷◌, ◌≡◌, false, str_eq, Option-cases, [],
  Bool-cases, inl, ap, inr, str_eq_iff, refl, ◌∙◌, ◌+◌,
}

abbrev pub first : Bool → Option JsonValue → Option JsonValue → Option JsonValue
first true a b = a
first false a b = b

-- `value[key]`: the value under a key of an object, or at an index of an array.
module _ (index_name : ℕ → String) where
  abbrev pub get_item : String → ℕ → JsonItems → Option JsonValue
  get_item key i json_no_items = none
  get_item key i (json_item v vs) =
      first (str_eq (index_name i) key) (some v) (get_item key (i + 1) vs)

  abbrev pub get_field : String → JsonFields → Option JsonValue
  get_field key json_no_fields = none
  get_field key (json_field k v fs) = first (str_eq k key) (some v) (get_field key fs)

  abbrev pub get_value : String → JsonValue → Option JsonValue
  get_value key (json_array items) = get_item key 0 items
  get_value key (json_object fields) = get_field key fields
  get_value key _ = none

  abbrev pub and_then : Option JsonValue → (JsonValue → Option JsonValue) → Option JsonValue
  and_then none f = none
  and_then (some v) f = f v

  abbrev pub at_path : List String → JsonValue → Option JsonValue
  at_path [] v = some v
  at_path (key ∷ path) v = and_then (get_value key v) (at_path path)

  abbrev pub sanitized : Option JsonValue → Option JsonValue
  sanitized none = none
  sanitized (some v) = some (sanitize_body index_name v)

  get_field-sanitize_fields :
      (key : String) (fields : JsonFields)
      → is_sensitive key ≡ false
      → get_field key (sanitize_fields index_name fields) ≡ sanitized (get_field key fields)
  unfolding sanitize_body
  get_field-sanitize_fields key json_no_fields h = refl
  get_field-sanitize_fields key (json_field k v fs) h = elim (Bool-cases (str_eq k key)) [
    | inl same ↦
        let plain : is_sensitive k ≡ false = ap is_sensitive ((str_eq_iff k key).0 same) ∙ h in
        rw (same, plain) refl
    | inr other ↦ rw other (get_field-sanitize_fields key fs h)
  ]

  get_field-sanitize_items :
      (key : String) (i : ℕ) (items : JsonItems)
      → is_sensitive key ≡ false
      → get_field key (sanitize_items index_name i items) ≡ sanitized (get_item key i items)
  unfolding sanitize_body
  get_field-sanitize_items key i json_no_items h = refl
  get_field-sanitize_items key i (json_item v vs) h =
      elim (Bool-cases (str_eq (index_name i) key)) [
        | inl same ↦
            let plain : is_sensitive (index_name i) ≡ false =
              ap is_sensitive ((str_eq_iff (index_name i) key).0 same) ∙ h in
            rw (same, plain) refl
        | inr other ↦ rw other (get_field-sanitize_items key (i + 1) vs h)
      ]

  get_value-sanitize_body :
      (key : String) (v : JsonValue)
      → is_sensitive key ≡ false
      → get_value key (sanitize_body index_name v) ≡ sanitized (get_value key v)
  unfolding sanitize_body
  get_value-sanitize_body key json_null h = refl
  get_value-sanitize_body key (json_bool b) h = refl
  get_value-sanitize_body key (json_number n) h = refl
  get_value-sanitize_body key (json_text t) h = refl
  get_value-sanitize_body key (json_array items) h = get_field-sanitize_items key 0 items h
  get_value-sanitize_body key (json_object fields) h = get_field-sanitize_fields key fields h

  -- Along every path of keys that are not sensitive, the sanitised body has what the body has there,
  -- itself sanitised: nothing else is lost or changed.
  pub at_path-sanitize_body :
      (path : List String) (v : JsonValue)
      → All (λ key. is_sensitive key ≡ false) path
      → at_path path (sanitize_body index_name v) ≡ sanitized (at_path path v)
  at_path-sanitize_body [] v h = refl
  at_path-sanitize_body (key ∷ path) v h = elim (Option-cases (get_value key v)) [
    | inl e ↦ rw (get_value-sanitize_body key v h.0, e) refl
    | inr (w, e) ↦ rw (get_value-sanitize_body key v h.0, e) (at_path-sanitize_body path w h.1)
  ]

  mutual
    unfolding sanitize_body IsClean

    body_lem : (v : JsonValue) → IsClean (sanitize_body index_name v)
    body_lem json_null = tt
    body_lem (json_bool b) = tt
    body_lem (json_number n) = tt
    body_lem (json_text t) = tt
    body_lem (json_array items) = items_lem 0 items
    body_lem (json_object fields) = fields_lem fields

    items_lem : (i : ℕ) (items : JsonItems) → AreClean (sanitize_items index_name i items)
    items_lem i json_no_items = tt
    items_lem i (json_item v vs) =
        let rest = items_lem (i + 1) vs in
        let inside = body_lem v in
        elim (Bool-cases (is_sensitive (index_name i))) [
          | inl e ↦ rw e ((λ s. refl), tt, rest)
          | inr e ↦ rw e ((λ s. absurd (cc s)), inside, rest)
        ]

    fields_lem : (fields : JsonFields) → AreClean (sanitize_fields index_name fields)
    fields_lem json_no_fields = tt
    fields_lem (json_field key v fs) =
        let rest = fields_lem fs in
        let inside = body_lem v in
        elim (Bool-cases (is_sensitive key)) [
          | inl e ↦ rw e ((λ s. refl), tt, rest)
          | inr e ↦ rw e ((λ s. absurd (cc s)), inside, rest)
        ]

  -- No sensitive key of a body, at any depth, keeps its value in the log, whatever the body.
  pub sanitize_body-IsClean : (v : JsonValue) → IsClean (sanitize_body index_name v)
  sanitize_body-IsClean v = body_lem v
