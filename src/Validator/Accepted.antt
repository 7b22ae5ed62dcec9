-- ===== src/Validator/Accepted.antt =====
-- When `Validate` of a struct gives no error.
use kiya.Base.{
  ◌≡◌, refl, sym, ap, ◌∙◌, Option, ◌↔◌, true, false, List, [], ◌∷◌, ◌++◌, ℕ, ◌+◌, none, some, arith,
  All,
}
use kiya.Text.{Text, codes}
use kiya.Strconv.{format_uint}
use kiya.Validator.{Form, custom, Verdict, Rules, Validator, field_value, append_at, add_error}
use kiya.Validator.Rule.{Rule, Registry, rule_at}
use kiya.Validator.Run.{
  rule_verdict, note, check_rules, check_fields, check_funcs, check_customs, check_all,
  add_binding_errors, has_none, validate_bound, validate_struct,
}

pub append_at_lem {ℓ} :
    {A : Type ℓ} (key : Text) (items : List A) (m : List (Text × List A))
    → has_none (append_at key items m) ≡ false
unfolding append_at
append_at_lem key items [] = refl
append_at_lem key items ((k, w) ∷ m) = ground arith

abbrev pub IsClean : Validator → Type 0
IsClean v = has_none v.validate_errors ≡ true

note_iff :
    (field : Text) (verdict : Verdict) (acc : Validator)
    → IsClean (note field verdict acc) ↔ (IsClean acc × (verdict ≡ none))
unfolding note add_error
note_iff field none acc = ground arith
note_iff field (some msg) acc = ground (arith, append_at_lem field (msg ∷ []) acc.validate_errors)

module _ (registry : Registry) (v : Validator) where
  abbrev pub PassesRule : Text → Text × Text → Type 0
  PassesRule field r =
      (fn : Rule) → rule_at r.0 registry ≡ some fn → fn v r.1 (field_value field v.values) ≡ none

  abbrev pub PassesRules : Text × Rules → Type 0
  PassesRules f = All (PassesRule f.0) f.1

  abbrev pub PassesFunc : Text → (Form → Verdict) → Type 0
  PassesFunc field fn = fn (field_value field v.values) ≡ none

  abbrev pub PassesFuncs : Text × List (Form → Verdict) → Type 0
  PassesFuncs f = All (PassesFunc f.0) f.1

  rule_verdict_iff :
      (known : Option Rule) (param : Text) (val : Form)
      → (rule_verdict known v param val ≡ none)
        ↔ ((fn : Rule) → known ≡ some fn → fn v param val ≡ none)
  unfolding rule_verdict
  rule_verdict_iff none param val = ((λ e fn k. cc), λ h. refl)
  rule_verdict_iff (some rule) param val =
      ((λ e fn k. ap (λ o. rule_verdict o v param val) (sym k) ∙ e), λ h. h rule refl)

  check_rules_iff :
      (field : Text) (rules : Rules) (acc : Validator)
      → IsClean (check_rules registry v field rules acc)
        ↔ (IsClean acc × All (PassesRule field) rules)
  unfolding check_rules
  check_rules_iff field [] acc = ground arith
  check_rules_iff field ((name, param) ∷ rules) acc =
      let verdict = rule_verdict (rule_at name registry) v param (field_value field v.values) in
      ground (
        arith,
        note_iff field verdict acc,
        rule_verdict_iff (rule_at name registry) param (field_value field v.values),
        check_rules_iff field rules (note field verdict acc),
      )

  check_fields_iff :
      (parsed : List (Text × Rules)) (acc : Validator)
      → IsClean (check_fields registry v parsed acc) ↔ (IsClean acc × All PassesRules parsed)
  unfolding check_fields
  check_fields_iff [] acc = ground arith
  check_fields_iff ((field, rules) ∷ parsed) acc = ground (
    arith,
    check_rules_iff field rules acc,
    check_fields_iff parsed (check_rules registry v field rules acc),
  )

  check_funcs_iff :
      (field : Text) (fns : List (Form → Verdict)) (acc : Validator)
      → IsClean (check_funcs registry v field fns acc) ↔ (IsClean acc × All (PassesFunc field) fns)
  unfolding check_funcs
  check_funcs_iff field [] acc = ground arith
  check_funcs_iff field (fn ∷ fns) acc =
      let verdict = fn (field_value field v.values) in
      ground (arith, note_iff field verdict acc, check_funcs_iff field fns (note field verdict acc))

  check_customs_iff :
      (customs : List (Text × List (Form → Verdict))) (acc : Validator)
      → IsClean (check_customs registry v customs acc) ↔ (IsClean acc × All PassesFuncs customs)
  unfolding check_customs
  check_customs_iff [] acc = ground arith
  check_customs_iff ((field, fns) ∷ customs) acc = ground (
    arith,
    check_funcs_iff field fns acc,
    check_customs_iff customs (check_funcs registry v field fns acc),
  )

add_binding_errors_lem :
    (i : ℕ) (e : Text) (errors : List Text) (v : Validator)
    → has_none (add_binding_errors i (e ∷ errors) v).validate_errors ≡ false
unfolding add_binding_errors add_error
add_binding_errors_lem i e [] v = append_at_lem _ _ v.validate_errors
add_binding_errors_lem i e (f ∷ errors) v =
    add_binding_errors_lem (i + 1) f errors
      (add_error (codes "binding_error_" ++ format_uint i) (custom e) v)

validate_bound_lem :
    (registry : Registry) (v : Validator) (errors : List Text)
    → has_none (validate_bound registry v errors).1.validate_errors
      ≡ (validate_bound registry v errors).0
unfolding validate_bound
validate_bound_lem registry v [] = refl
validate_bound_lem registry v (e ∷ errors) = add_binding_errors_lem 0 e errors v

-- an error is answered exactly if one is noted
pub validate_struct_lem :
    (registry : Registry) (v : Validator)
    → has_none (validate_struct registry v).1.validate_errors ≡ (validate_struct registry v).0
unfolding validate_struct
validate_struct_lem registry v = validate_bound_lem registry v v.global_errors

has_none_iff {ℓ} : {A : Type ℓ} (xs : List A) → (has_none xs ≡ true) ↔ (xs ≡ [])
has_none_iff [] = ground arith
has_none_iff (x ∷ xs) = ground arith

validate_bound_iff :
    (registry : Registry) (v : Validator) (errors : List Text)
    → ((validate_bound registry v errors).0 ≡ true) ↔ (
        (errors ≡ [])
        × (v.validate_errors ≡ [])
        × All (PassesRules registry v) v.parsed_rules
        × All (PassesFuncs registry v) v.custom_funcs)
unfolding validate_bound check_all
validate_bound_iff registry v [] = ground (
  arith,
  has_none_iff v.validate_errors,
  check_fields_iff registry v v.parsed_rules v,
  check_customs_iff registry v v.custom_funcs (check_fields registry v v.parsed_rules v),
)
validate_bound_iff registry v (e ∷ errors) = ground arith

-- With registered rules that only read the validator: Validate of a struct gives no error exactly if the binding
-- gave none, none was noted before, and the value of each field passes all of its functions and every one of its rules
-- whose name the registry knows, called with the validator, the rule's parameter and the value.
pub validate_struct_iff :
    (registry : Registry) (v : Validator)
    → ((validate_struct registry v).0 ≡ true) ↔ (
        (v.global_errors ≡ [])
        × (v.validate_errors ≡ [])
        × All (PassesRules registry v) v.parsed_rules
        × All (PassesFuncs registry v) v.custom_funcs)
unfolding validate_struct
validate_struct_iff registry v = validate_bound_iff registry v v.global_errors
