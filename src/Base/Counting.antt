-- ===== src/Base/Counting.antt =====
-- A query by a list of keys, of which the rows are counted.
use hotel_booking_management.Base.{
  Bool, List, ℕ, any, All, length, ◌≤◌, ◌==◌, ◌≢◌, select, ◌&&◌, ◌∷◌, ◌≡◌, false_of_ne, arith, ◌+◌,
  true, Bool-cases, [], inr, inl, refl, eq_of_==, All-imp, ◌∙◌, sym,
}
use hotel_booking_management.Base.Table.{UniqueIds}

module _ {A : Type 0} (key : A → ℕ) (q : A → Bool) where
  abbrev pub one_of : List ℕ → A → Bool
  one_of is t = any (λ i. key t == i) is && q t

  none_with :
      (i : ℕ) (rows : List A)
      → All (λ t. key t ≢ i) rows
      → length (select (λ t. key t == i && q t) rows) ≡ 0
  none_with i [] h = refl
  none_with i (t ∷ ts) h = rw (false_of_ne (key t) i h.0) (none_with i ts h.1)

  -- A key selects one row at most.
  at_most_one :
      (i : ℕ) (rows : List A)
      → UniqueIds key rows
      → length (select (λ t. key t == i && q t) rows) ≤ 1
  at_most_one i [] u = omega arith
  at_most_one i (t ∷ ts) u = elim (Bool-cases (key t == i && q t)) [
    | inr e ↦ rw e (at_most_one i ts u.1)
    | inl e ↦
        let here : key t ≡ i = eq_of_== (key t) i (ground arith) in
        let rest =
          none_with i ts
            (All-imp (λ y. key y ≢ key t) (λ y. key y ≢ i) ts (λ y ne h. ne (h ∙ sym here)) u.0) in
        rw (e, rest) (omega arith)
  ]

  -- A further key selects no more than its own rows.
  selects_more :
      (i : ℕ) (is : List ℕ) (rows : List A)
      → length (select (one_of (i ∷ is)) rows)
        ≤ length (select (λ t. key t == i && q t) rows) + length (select (one_of is) rows)
  selects_more i is [] = omega arith
  selects_more i is (t ∷ ts) =
      let ih = selects_more i is ts in
      elim (Bool-cases (key t == i)) [
        | inl a ↦ elim (Bool-cases (q t)) [
          | inl b ↦ elim (Bool-cases (any (λ j. key t == j) is)) [
            | inl c ↦ rw (a, b, c) (omega arith)
            | inr c ↦ rw (a, b, c) (omega arith)
          ]
          | inr b ↦ elim (Bool-cases (any (λ j. key t == j) is)) [
            | inl c ↦ rw (a, b, c) ih
            | inr c ↦ rw (a, b, c) ih
          ]
        ]
        | inr a ↦ elim (Bool-cases (any (λ j. key t == j) is && q t)) [
          | inl c ↦ rw (a, c) (omega arith)
          | inr c ↦ rw (a, c) ih
        ]
      ]

  selects_at_most :
      (is : List ℕ) (rows : List A)
      → UniqueIds key rows
      → length (select (one_of is) rows) ≤ length is
  selects_at_most [] rows u = rw (none_selected rows) (omega arith)
    where
      none_selected : (rows : List A) → length (select (one_of []) rows) ≡ 0
      none_selected [] = refl
      none_selected (t ∷ ts) = none_selected ts
  selects_at_most (i ∷ is) rows u =
      let a = selects_more i is rows in
      let b = at_most_one i rows u in let c = selects_at_most is rows u in omega arith

  selected_any :
      (i : ℕ) (rows : List A)
      → 1 ≤ length (select (λ t. key t == i && q t) rows)
      → any (λ t. key t == i && q t) rows ≡ true
  selected_any i [] h = absurd (omega arith)
  selected_any i (t ∷ ts) h = elim (Bool-cases (key t == i && q t)) [
    | inl e ↦ rw e refl
    | inr e ↦
        (let rest : 1 ≤ length (select (λ t. key t == i && q t) ts) = rw e at h in
          rw e (selected_any i ts rest))
  ]

  -- Where as many rows are found as there are keys, every key has a row.
  pub every_key_found :
      (is : List ℕ) (rows : List A)
      → UniqueIds key rows
      → length (select (one_of is) rows) ≡ length is
      → All (λ i. any (λ t. key t == i && q t) rows ≡ true) is
  every_key_found [] rows u h = tt
  every_key_found (i ∷ is) rows u h =
      let a = selects_more i is rows in
      let b = at_most_one i rows u in
      let c = selects_at_most is rows u in
      (selected_any i rows (omega arith), every_key_found is rows u (omega arith))
