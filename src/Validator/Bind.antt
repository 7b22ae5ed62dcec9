-- ===== src/Validator/Bind.antt =====
-- validator.go: flattenStruct, on a struct as `reflect` describes it. The tree holds what the code asks of a
-- field: whether it is exported, its tags, and whether a struct or a pointer to one lies behind it.
use kiya.Base.{Bool, Option, [], ◌++◌, not, if◌then◌else◌}
use kiya.Text.{Text, codes, text_eq}
use kiya.Validator.{Form, Validator, is_missing, assign, merge_rules, valid_column_name}

-- the tags `form` and `validate`, empty where they are missing
pub record FieldType : Type 0 where
  pub exported : Bool
  pub name : Text
  pub form_tag : Text
  pub validate_tag : Text

-- A `time.Time` is a leaf, and so is a pointer to anything but a struct.
mutual
  pub data Fields : Type 0 where
    no_fields : Fields
    field : FieldType → FieldValue → Fields → Fields

  pub data FieldValue : Type 0 where
    nil_field : FieldValue
    leaf : Form → FieldValue
    nested : Fields → FieldValue

unfoldable pub field_key : FieldType → Text
field_key f = if is_missing f.form_tag then f.name else f.form_tag

unfoldable pub full_key : Text → Text → Text
full_key prefix key = if is_missing prefix then key else prefix ++ (codes "." ++ key)

unfoldable pub bind_leaf : FieldType → Text → Form → Validator → Validator
bind_leaf f key val v =
    let stored = record v { values = assign key val v.values } in
    if is_missing f.validate_tag then stored else merge_rules key f.validate_tag stored

-- `flattenStruct`
unfoldable mutual
  pub flatten_struct : Fields → Text → Validator → Validator
  flatten_struct no_fields prefix v = v
  flatten_struct (field f val rest) prefix v =
      let bound = flatten_field f val (full_key prefix (field_key f)) v in
      let after = flatten_struct rest prefix bound in
      let skipped = flatten_struct rest prefix v in
      if not f.exported
      then skipped
      else if text_eq (field_key f) (codes "-")
      then skipped
      else after

  pub flatten_field : FieldType → FieldValue → Text → Validator → Validator
  flatten_field f nil_field key v = v
  flatten_field f (leaf val) key v = bind_leaf f key val v
  flatten_field f (nested fields) key v = flatten_struct fields key v

-- `Bind` of a pointer to a struct, after the decoder: `table` is the name that the model gives, `pk_col`
-- the column with the tag `primary`, where there is one, and `pk_val` its value
unfoldable pub bind_struct : Text → Text → Option (Form × Bool) → Fields → Validator → Validator
bind_struct table pk_col pk_val fields v = flatten_struct fields [] (record v {
  values = [];
  unique_table = if is_missing v.unique_table then table else v.unique_table;
  pk_col = if valid_column_name pk_col then pk_col else [];
  pk_val = pk_val;
})
