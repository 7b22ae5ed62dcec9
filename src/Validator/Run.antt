-- ===== src/Validator/Run.antt =====
-- validator.go: Validate, validateRows and the validation of several validators.
use kiya.Base.{
  Bool, true, false, ◌&&◌, List, [], ◌∷◌, ◌++◌, ℕ, ◌+◌, Option, none, some, if◌then◌else◌,
}
use kiya.Text.{Text, codes}
use kiya.Strconv.{format_uint}
use kiya.Validator.{
  Form, Message, custom, Verdict, Rules, Validator, new_validator, field_value, append_at,
  add_error, is_empty_value,
}
use kiya.Validator.Rule.{Registry, Rule, rule_at}
use kiya.Validator.Bind.{Fields, bind_struct}

-- the verdict of a rule, where a rule that is not known is skipped
unfoldable pub rule_verdict : Option Rule → Validator → Text → Form → Verdict
rule_verdict none v param val = none
rule_verdict (some fn) v param val = fn v param val

unfoldable pub note : Text → Verdict → Validator → Validator
note field none v = v
note field (some msg) v = add_error field msg v

-- The errors go to the validator behind; the rules see the validator as it was, whose errors
-- no rule reads.
module _ (registry : Registry) (v : Validator) where
  unfoldable pub check_rules : Text → Rules → Validator → Validator
  check_rules field [] acc = acc
  check_rules field ((name, param) ∷ rules) acc =
      check_rules field rules
        (note field (rule_verdict (rule_at name registry) v param (field_value field v.values)) acc)

  unfoldable pub check_fields : List (Text × Rules) → Validator → Validator
  check_fields [] acc = acc
  check_fields ((field, rules) ∷ parsed) acc = check_fields parsed (check_rules field rules acc)

  unfoldable pub check_funcs : Text → List (Form → Verdict) → Validator → Validator
  check_funcs field [] acc = acc
  check_funcs field (fn ∷ fns) acc =
      check_funcs field fns (note field (fn (field_value field v.values)) acc)

  unfoldable pub check_customs : List (Text × List (Form → Verdict)) → Validator → Validator
  check_customs [] acc = acc
  check_customs ((field, fns) ∷ customs) acc = check_customs customs (check_funcs field fns acc)

  unfoldable pub check_all : Validator
  check_all = check_customs v.custom_funcs (check_fields v.parsed_rules v)

-- the errors of the binding, under the numbers that they have in the list
unfoldable pub add_binding_errors : ℕ → List Text → Validator → Validator
add_binding_errors i [] v = v
add_binding_errors i (e ∷ errors) v =
    add_binding_errors (i + 1) errors
      (add_error (codes "binding_error_" ++ format_uint i) (custom e) v)

abbrev pub has_none {ℓ} : {A : Type ℓ} → List A → Bool
has_none [] = true
has_none (x ∷ xs) = false

unfoldable pub validate_bound : Registry → Validator → List Text → Bool × Validator
validate_bound registry v [] =
    let checked = check_all registry v in (has_none checked.validate_errors, checked)
validate_bound registry v (e ∷ errors) = (false, add_binding_errors 0 (e ∷ errors) v)

-- `Validate` of a struct; the first part of the answer is whether there is no error
unfoldable pub validate_struct : Registry → Validator → Bool × Validator
validate_struct registry v = validate_bound registry v v.global_errors

-- a row of a bound slice: the values of its pivot fields, and all its fields with the column and
-- the value of the primary key
pub record Row : Type 0 where
  pub pivots : List Form
  pub fields : Fields
  pub table : Text
  pub pk_col : Text
  pub pk_val : Option (Form × Bool)

unfoldable pub all_empty : List Form → Bool
all_empty [] = true
all_empty (val ∷ vals) = is_empty_value val && all_empty vals

-- `subV`, after `Bind`
unfoldable pub row_validator : Row → Validator
row_validator row = bind_struct row.table row.pk_col row.pk_val row.fields new_validator

unfoldable pub validate_row : Registry → Row → Bool × Validator
validate_row registry row = validate_struct registry (row_validator row)

abbrev pub Errors : Type 0
Errors = List (Text × List Message)

-- the errors of a row, each under its key with the number of the row
unfoldable pub row_errors : Text → ℕ → Errors → Errors → Errors
row_errors prefix i [] errors = errors
row_errors prefix i ((field, msgs) ∷ more) errors =
    row_errors prefix i more
      (append_at (prefix ++ (field ++ (codes "_" ++ format_uint i))) msgs errors)

-- the rows that are kept, and the errors
abbrev pub Compacted : Type 0
Compacted = List Row × Errors

unfoldable pub keep_row : Row → Compacted → Compacted
keep_row row (rows, errors) = (row ∷ rows, errors)

-- the loop of `validateRows`, from the row `i` on
unfoldable pub compact_rows : Registry → Text → ℕ → List Row → Errors → Compacted
compact_rows registry prefix i [] errors = ([], errors)
compact_rows registry prefix i (row ∷ rows) errors =
    let (valid, sub) = validate_row registry row in
    let skipped = compact_rows registry prefix (i + 1) rows errors in
    let refused =
      compact_rows registry prefix (i + 1) rows (row_errors prefix i sub.validate_errors errors) in
    if all_empty row.pivots then skipped else if valid then keep_row row skipped else refused

-- `validateRows`: whether there is no error, and the slice and the errors after it
unfoldable pub validate_rows : Registry → Text → List Row → Errors → Bool × Compacted
validate_rows registry prefix rows errors =
    let after = compact_rows registry prefix 0 rows errors in (has_none after.1, after)

-- what `Validate` of several reads of one: whether it has an error, the prefix and suffix of its
-- form, and its errors
pub record Checked : Type 0 where
  pub failed : Bool
  pub prefix : Text
  pub suffix : Text
  pub errors : Errors

unfoldable pub add_merged : Checked → Errors → Errors → Errors
add_merged c [] merged = merged
add_merged c ((field, msgs) ∷ more) merged =
    add_merged c more (append_at (c.prefix ++ (field ++ c.suffix)) msgs merged)

unfoldable pub merge_all : List Checked → Bool → Errors → Bool × Errors
merge_all [] has_error merged = (has_error, merged)
merge_all (c ∷ checks) has_error merged =
    merge_all checks (if c.failed then true else has_error) (add_merged c c.errors merged)

-- `Validate(validators...)`: the errors that the first validator has after a failure
unfoldable pub validate_many : List Checked → Option Errors
validate_many checks =
    let (has_error, merged) = merge_all checks false [] in if has_error then some merged else none
