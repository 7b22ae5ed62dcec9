-- ===== src/Validator/Tests.antt =====
-- A form with a name, a password and an address.
use kiya.Base.{◌≡◌, ◌≤◌, refl, ◌↔◌, true, false, List, [], ◌∷◌, none, some, All, length}
use kiya.Text.{split_first, split_at, Text, codes, text_eq, all_in, trim_left, trim_space}
use kiya.Strconv.{format_uint, format_from}
use kiya.Validator.{
  text, Message, must_be_filled, Validator, new_validator, cut_bracket, drop_bracket, with_param,
  parse_rule, merge_parts, assign, rules_at, merge_rules, field_value, append_at, add_error,
  is_empty_value, valid_column_name,
}
use kiya.Validator.Rule.{Registry, default_rules, val_required, val_sec_pass, rule_at, is_symbol}
use kiya.Validator.Bind.{
  FieldType, Fields, field, no_fields, leaf, flatten_struct, field_key, full_key, bind_leaf,
  bind_struct,
}
use kiya.Validator.Run.{
  Row, compact_rows, row_validator, all_empty, keep_row, row_errors, validate_struct, validate_rows,
  validate_row, validate_bound, check_all, check_fields, check_rules, check_customs, note,
  rule_verdict, has_none,
}
use kiya.Validator.Password.{any_of, is_upper, is_lower, is_decimal, val_sec_pass_iff}
use kiya.Validator.RoundTrip.{printable, print_rules, assign_all, merge_rules-print_rules}
use kiya.Validator.Accepted.{PassesRules, PassesFuncs, validate_struct_iff}
use kiya.Validator.Rows.{filled_rows, valid_rows, IsValidRow, validate_rows_lem}

abbrev password : Text
password = codes "Rahasia-1"

val_sec_pass_iff_example : (val_sec_pass (text password) ≡ none) ↔ (
    (8 ≤ length password)
    × (any_of is_upper password ≡ true)
    × (any_of is_lower password ≡ true)
    × (any_of is_decimal password ≡ true)
    × (any_of is_symbol password ≡ true))
val_sec_pass_iff_example = val_sec_pass_iff password

abbrev length_rule : Text × Text
length_rule = (codes "minlength", codes "3")

abbrev required_rule : Text × Text
required_rule = (codes "required", [])

merge_rules-print_rules_example :
    (merge_rules
      (codes "name")
      (print_rules length_rule (required_rule ∷ []))
      new_validator).parsed_rules
    ≡ assign
        (codes "name")
        (assign_all (length_rule ∷ required_rule ∷ []) (rules_at (codes "name") []))
        []
unfolding codes
merge_rules-print_rules_example =
    merge_rules-print_rules (codes "name") length_rule (required_rule ∷ []) new_validator
      (printable b'm' (codes "inlength") (codes "3") (unfold all_in in refl)
        (unfold all_in in refl))
      (printable b'r' (codes "equired") [] (unfold all_in in refl) (unfold all_in in refl), tt)

-- Spaces around a rule do not count, and a rule needs no brackets.
merge_rules-spaces :
    (merge_rules (codes "name") (codes " required | minlength[3]|") new_validator).parsed_rules
    ≡ (codes "name", (required_rule ∷ length_rule ∷ [])) ∷ []
unfolding merge_rules merge_parts split_at split_first trim_space trim_left parse_rule cut_bracket
    with_param drop_bracket assign rules_at text_eq codes
merge_rules-spaces = refl

abbrev registry : Registry
registry =
    default_rules (record { address = λ s. some s; scheme = λ s. none; is_float = λ s. false }) none

abbrev name_type : FieldType
name_type = record {
  exported = true;
  name = codes "Name";
  form_tag = codes "name";
  validate_tag = codes "required";
}

abbrev filled : Fields
filled = field name_type (leaf (text (codes "Ani"))) no_fields

abbrev unfilled : Fields
unfilled = field name_type (leaf (text [])) no_fields

abbrev bound : Validator
bound = record new_validator {
  values = (codes "name", text (codes "Ani")) ∷ [];
  parsed_rules = (codes "name", (codes "required", []) ∷ []) ∷ [];
}

bind_struct-filled : bind_struct [] [] none filled new_validator ≡ bound
unfolding bind_struct flatten_struct field_key full_key bind_leaf merge_rules merge_parts split_at
    split_first trim_space trim_left parse_rule cut_bracket with_param assign rules_at text_eq codes
    valid_column_name
bind_struct-filled = refl

validate_struct_iff_example : ((validate_struct registry bound).0 ≡ true) ↔ (
    (bound.global_errors ≡ [])
    × (bound.validate_errors ≡ [])
    × All (PassesRules registry bound) bound.parsed_rules
    × All (PassesFuncs registry bound) bound.custom_funcs)
validate_struct_iff_example = validate_struct_iff registry bound

validate_struct-bound : (validate_struct registry bound).0 ≡ true
unfolding validate_struct validate_bound check_all check_fields check_rules check_customs note
    rule_verdict rule_at default_rules field_value text_eq codes val_required is_empty_value
validate_struct-bound = refl

-- a row, by the text of its pivot and its fields
abbrev row_of : Text → Fields → Row
row_of pivot fields = record {
  pivots = text pivot ∷ [];
  fields = fields;
  table = [];
  pk_col = [];
  pk_val = none;
}

abbrev rows : List Row
rows = row_of (codes "a") filled ∷ row_of [] filled ∷ row_of (codes "b") unfilled ∷ []

validate_rows_lem_example :
    ((validate_rows registry (codes "item_") rows []).1.0 ≡ valid_rows registry (filled_rows rows))
    × (((validate_rows registry (codes "item_") rows []).0 ≡ true) ↔ (
        (has_none {A = Text × List Message} [] ≡ true)
        × All (IsValidRow registry) (filled_rows rows)))
validate_rows_lem_example = validate_rows_lem registry (codes "item_") rows []

-- The row with an empty pivot is left out, and the third is refused under its own number.
validate_rows-third :
    ((validate_rows registry (codes "item_") rows []).1.0 ≡ row_of (codes "a") filled ∷ [])
    × ((validate_rows registry (codes "item_") rows []).1.1
        ≡ (codes "item_name_2", must_be_filled ∷ []) ∷ [])
unfolding validate_rows compact_rows validate_row row_validator all_empty keep_row row_errors
    append_at add_error validate_struct validate_bound check_all check_fields check_rules
    check_customs note rule_verdict rule_at default_rules field_value text_eq codes val_required
    is_empty_value bind_struct flatten_struct field_key full_key bind_leaf merge_rules merge_parts
    split_at split_first trim_space trim_left parse_rule cut_bracket with_param assign rules_at
    valid_column_name format_uint format_from
validate_rows-third = (refl, refl)
