-- ===== src/Clarity/Cases.antt =====
-- The types behind each case of the switches.
use stacks_k8s.Common.{ℕ, ◌≡◌, true, false, ◌||◌, ◌==◌, nat_eq, inl, inr, Bool-cases}
use stacks_k8s.Clarity.{
  int_type, uint_type, buffer_type, ascii_type, utf8_type, true_type, false_type, none_type,
  standard_principal, contract_principal, some_type, response_ok, response_err, list_type,
  tuple_type, Case, integer_case, buffer_case, text_case, principal_case, case_of,
}

-- What the case of a type says of it.
abbrev pub Selects : Case → ℕ → Type 0
Selects integer_case t = (t == int_type || t == uint_type) ≡ true
Selects buffer_case t = (t == buffer_type) ≡ true
Selects text_case t = (t == buffer_type) ≡ false
Selects principal_case t = (t == standard_principal || t == contract_principal) ≡ true
Selects c t = Unit

pub case_of-Selects : (t : ℕ) → Selects (case_of t) t
unfolding case_of
case_of-Selects t = elim (Bool-cases (t == int_type || t == uint_type)) [
  | inl e ↦ rw e e
  | inr e ↦ elim (Bool-cases (t == buffer_type)) [
    | inl f ↦ rw (e, f) f
    | inr f ↦ elim (Bool-cases (t == ascii_type || t == utf8_type)) [
      | inl g ↦ rw (e, f, g) f
      | inr g ↦ elim (Bool-cases (t == true_type || t == false_type || t == none_type)) [
        | inl h ↦ rw (e, f, g, h) tt
        | inr h ↦ elim (Bool-cases (t == standard_principal || t == contract_principal)) [
          | inl i ↦ rw (e, f, g, h, i) i
          | inr i ↦ elim (Bool-cases (t == some_type || t == response_ok || t == response_err)) [
            | inl j ↦ rw (e, f, g, h, i, j) tt
            | inr j ↦ elim (Bool-cases (t == list_type)) [
              | inl k ↦ rw (e, f, g, h, i, j, k) tt
              | inr k ↦ elim (Bool-cases (t == tuple_type)) [
                | inl l ↦ rw (e, f, g, h, i, j, k, l) tt
                | inr l ↦ rw (e, f, g, h, i, j, k, l) tt
              ]
            ]
          ]
        ]
      ]
    ]
  ]
]
