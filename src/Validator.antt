-- ===== src/Validator.antt =====
-- validator.go: the values that are validated, the state of a `Validator` and the reading of its rules. Its
-- maps are association lists, in any order. Log lines and the lock of the registry are left out.
pub mod Unique
pub mod Rule
pub mod Bind
pub mod Run
pub mod Lengths
pub mod Password
pub mod RoundTrip
pub mod Accepted
pub mod Rows
pub mod Tests
use kiya.Base.{
  ℕ, zero, suc, ◌+◌, ◌%◌, ◌^◌, Bool, true, false, not, ◌&&◌, ◌||◌, List, [], ◌∷◌, ◌++◌, Option,
  none, some, ltb, leb, ◌==◌, if◌then◌else◌,
}
use kiya.Base.Int.{ℤ, pos, negsuc}
use kiya.Text.{split_first, split_at, Text, codes, text_eq, all_in, is_letter, is_digit, trim_space}

-- A value of type `any`, by the kinds that the rules tell apart: a float is its float64 bits, the zero
-- time is `none`, and `collection` is an array, map or slice of that length.
pub data Form : Type 0 where
  nil nil_pointer structure other : Form
  text : Text → Form
  flag : Bool → Form
  int : ℤ → Form
  uint float collection : ℕ → Form
  time : Option ℕ → Form
  pointer : Form → Form

abbrev pub is_int_zero : ℤ → Bool
is_int_zero (pos n) = n == 0
is_int_zero (negsuc n) = false

abbrev pub is_missing : Text → Bool
is_missing [] = true
is_missing (c ∷ s) = false

-- `isEmpty`
unfoldable pub is_empty_value : Form → Bool
is_empty_value nil = true
is_empty_value nil_pointer = true
is_empty_value structure = false
is_empty_value other = false
is_empty_value (text t) = is_missing t
is_empty_value (flag b) = not b
is_empty_value (int z) = is_int_zero z
is_empty_value (uint n) = n == 0
is_empty_value (float f) = f % 2 ^ 63 == 0
is_empty_value (collection n) = n == 0
is_empty_value (time none) = true
is_empty_value (time (some t)) = false
is_empty_value (pointer v) = is_empty_value v

-- the text of an error; `custom` is of a rule that the application adds
pub data Message : Type 0 where
  must_be_filled bad_format bad_scheme password_too_short password_too_weak must_be_number : Message
  exact_length max_length min_length : ℤ → Message
  in_use table_not_set no_database bad_primary_key validation_failed : Message
  bad_column custom : Text → Message

abbrev pub Verdict : Type 0
Verdict = Option Message

-- `map[string]map[string]string`, and its entries
abbrev pub Rules : Type 0
Rules = List (Text × Text)

pub record Validator : Type 0 where
  pub global_errors : List Text
  pub values : List (Text × Form)
  pub validate_errors : List (Text × List Message)
  pub unique_table : Text
  pub parsed_rules : List (Text × Rules)
  pub custom_funcs : List (Text × List (Form → Verdict))
  pub pk_col : Text
  -- the value with the answer of `reflect.Value.IsZero`
  pub pk_val : Option (Form × Bool)

abbrev pub new_validator : Validator
new_validator = record {
  global_errors = [];
  values = [];
  validate_errors = [];
  unique_table = [];
  parsed_rules = [];
  custom_funcs = [];
  pk_col = [];
  pk_val = none;
}

-- `v.values[field]`, where nil is what a missing key gives
unfoldable pub field_value : Text → List (Text × Form) → Form
field_value field [] = nil
field_value field ((k, v) ∷ m) =
    let rest = field_value field m in if text_eq k field then v else rest

-- an assignment to a key of a map
unfoldable pub assign {ℓ} : {A : Type ℓ} → Text → A → List (Text × A) → List (Text × A)
assign key v [] = (key, v) ∷ []
assign key v ((k, w) ∷ m) =
    let rest = assign key v m in if text_eq k key then (key, v) ∷ m else (k, w) ∷ rest

-- `m[key] = append(m[key], items...)`
unfoldable pub append_at {ℓ} :
    {A : Type ℓ} → Text → List A → List (Text × List A) → List (Text × List A)
append_at key items [] = (key, items) ∷ []
append_at key items ((k, w) ∷ m) =
    let rest = append_at key items m in if text_eq k key then (k, w ++ items) ∷ m else (k, w) ∷ rest

-- `addError`
unfoldable pub add_error : Text → Message → Validator → Validator
add_error field msg v = record v { validate_errors = append_at field (msg ∷ []) v.validate_errors }

-- `Error`
unfoldable pub report_error : Text → Text → Validator → Validator
report_error field err v = add_error field (custom err) v

-- `^[a-zA-Z_][a-zA-Z0-9_]*$`
unfoldable pub column_start : ℕ → Bool
column_start c = is_letter c || c == b'_'

unfoldable pub column_byte : ℕ → Bool
column_byte c = is_letter c || is_digit c || c == b'_'

unfoldable pub valid_column_name : Text → Bool
valid_column_name [] = false
valid_column_name (c ∷ s) = column_start c && all_in column_byte s

unfoldable pub set_table : Text → Validator → Validator
set_table table v = if valid_column_name table then record v { unique_table = table } else v

unfoldable pub reset_rules : Validator → Validator
reset_rules v = record v { parsed_rules = []; custom_funcs = [] }

-- `Func`
unfoldable pub add_funcs : Text → List (Form → Verdict) → Validator → Validator
add_funcs field fns v = record v { custom_funcs = append_at field fns v.custom_funcs }

-- `strings.SplitN(s, "[", 2)` of a text with that byte; `none` is a text without
unfoldable pub cut_bracket : Text → Option (Text × Text)
cut_bracket [] = none
cut_bracket (c ∷ s) =
    let rest = behind c (cut_bracket s) in if c == b'[' then some ([], s) else rest
  where
    behind : ℕ → Option (Text × Text) → Option (Text × Text)
    behind c none = none
    behind c (some (a, b)) = some (c ∷ a, b)

-- whether the last byte is a closing bracket, and the text without it
unfoldable pub drop_bracket : Text → Option Text
drop_bracket [] = none
drop_bracket (c ∷ []) = if c == b']' then some [] else none
drop_bracket (c ∷ d ∷ s) = before c (drop_bracket (d ∷ s))
  where
    before : ℕ → Option Text → Option Text
    before c none = none
    before c (some t) = some (c ∷ t)

unfoldable pub with_param : Text → Option (Text × Text) → Text × Text
with_param rule none = (rule, [])
with_param rule (some (name, param)) = cut_param (drop_bracket param)
  where
    cut_param : Option Text → Text × Text
    cut_param none = (rule, [])
    cut_param (some p) = (name, p)

-- one rule with its parameter
unfoldable pub parse_rule : Text → Text × Text
parse_rule rule = with_param rule (cut_bracket rule)

unfoldable pub merge_parts : List Text → Rules → Rules
merge_parts [] rules = rules
merge_parts (part ∷ parts) rules =
    let rule = trim_space part in
    let (name, param) = parse_rule rule in
    let skipped = merge_parts parts rules in
    let merged = merge_parts parts (assign name param rules) in
    if is_missing rule then skipped else merged

unfoldable pub rules_at : Text → List (Text × Rules) → Rules
rules_at field [] = []
rules_at field ((k, r) ∷ m) = let rest = rules_at field m in if text_eq k field then r else rest

-- `mergeRules`
unfoldable pub merge_rules : Text → Text → Validator → Validator
merge_rules field rules_str v = record v {
  parsed_rules =
      assign field (merge_parts (split_at b'|' rules_str) (rules_at field v.parsed_rules))
        v.parsed_rules;
}

-- `Rules`
unfoldable pub add_rules : Text → Text → List (Form → Verdict) → Validator → Validator
add_rules field rules [] v = merge_rules field rules v
add_rules field rules (fn ∷ fns) v = add_funcs field (fn ∷ fns) (merge_rules field rules v)
