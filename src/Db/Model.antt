-- ===== src/Db/Model.antt =====
-- internal/db/reflect.go and the primary keys of helpers.go. A model is a struct as `reflect` shows it: the name of
-- its type, the answer of its method TableName, and its fields with their tags, kinds and values. The cache of
-- struct descriptions, which only saves time, and log lines are left out.
pub mod Keys
pub mod Scanning
pub mod Lookup
pub mod RoundTrip
pub mod Writing
pub mod Batch
pub mod WellFormed
pub mod Tests
use kiya.Base.{
  ℕ, zero, suc, ◌+◌, ◌-◌, ◌%◌, ◌^◌, Bool, true, false, not, ◌&&◌, ◌||◌, List, [], ◌∷◌, ◌++◌, Option,
  none, some, if◌then◌else◌, ltb, leb, ◌==◌,
}
use kiya.Base.Int.{ℤ, pos, negsuc, to_signed, to_unsigned}
use kiya.Text.{Text, codes, text_eq, to_lower, trim_space, split_first}
use kiya.Db.Builder.{Value, null, int, text, bool, other, Columns, is_empty, is_zero}
use kiya.Db.Write.{member}

-- the kinds of fields; integers by their number of bits
pub data FieldKind : Type 0 where
  text_kind float_kind bool_kind struct_kind other_kind : FieldKind
  signed_kind unsigned_kind : ℕ → FieldKind

pub record StructField : Type 0 where
  pub field_name : Text
  pub exported : Bool
  pub anonymous : Bool
  pub db_tag : Text
  pub history_tag : Text
  pub kind : FieldKind
  pub value : Value

pub record Model : Type 0 where
  pub type_name : Text
  -- empty where there is no such method
  pub method_name : Text
  pub fields : List StructField

-- `dbCachedField`
pub record CachedField : Type 0 where
  pub name : Text
  pub is_autofill : Bool
  pub is_nullable : Bool
  pub is_primary : Bool
  pub is_autoincrement : Bool
  pub history_exclude : Bool

-- `util.ToSnakeCase` on ASCII, with the letter before
abbrev pub is_upper_rune : ℕ → Bool
is_upper_rune c = leb b'A' c && leb c b'Z'

abbrev pub is_lower_rune : ℕ → Bool
is_lower_rune c = leb b'a' c && leb c b'z'

abbrev starts_lower : Text → Bool
starts_lower [] = false
starts_lower (c ∷ s) = is_lower_rune c

unfoldable pub snake_from : ℕ → Text → Text
unfolding to_lower
snake_from before [] = []
snake_from before (c ∷ s) =
    let rest = to_lower (c ∷ []) ++ snake_from c s in
    if is_upper_rune c && (starts_lower s || is_lower_rune before) then b'_' ∷ rest else rest

unfoldable pub to_snake_case : Text → Text
unfolding to_lower
to_snake_case [] = []
to_snake_case (c ∷ s) = to_lower (c ∷ []) ++ snake_from c s

-- `info.defaultName`, which `getTableNameFromModel` returns
unfoldable pub table_name : Model → Text
table_name m = if is_empty m.method_name then to_snake_case m.type_name else m.method_name

unfoldable pub apply_option : Text → CachedField → CachedField
apply_option opt f =
    if text_eq opt (codes "autofill")
    then record f { is_autofill = true }
    else if text_eq opt (codes "nullable")
    then record f { is_nullable = true }
    else if text_eq opt (codes "primary")
    then record f { is_primary = true }
    else if text_eq opt (codes "autoincrement")
    then record f { is_autoincrement = true; is_primary = true }
    else f

unfoldable pub apply_options : List Text → CachedField → CachedField
apply_options [] f = f
apply_options (opt ∷ opts) f = apply_options opts (apply_option (trim_space opt) f)

abbrev pub reserved : List Text
reserved =
    codes "__db" ∷ codes "__res" ∷ codes "__self" ∷ codes "__hasSoftDelete" ∷ codes "__tx" ∷ []

unfoldable pub cached_column : Text → List Text → Bool → Option CachedField
cached_column [] opts excluded = none
cached_column (c ∷ s) opts excluded = some (
    apply_options opts (record {
      name = c ∷ s;
      is_autofill = false;
      is_nullable = false;
      is_primary = false;
      is_autoincrement = false;
      history_exclude = excluded;
    }))

-- one round of the loop of `getStructInfo`; `none` is a field that is skipped
unfoldable pub cached_field : StructField → Option CachedField
cached_field f =
    let (first, opts) = split_first b',' f.db_tag in
    let column = cached_column first opts (text_eq f.history_tag (codes "-")) in
    if not f.exported && not f.anonymous
    then none
    else if member f.field_name reserved
    then none
    else if is_empty f.db_tag || text_eq f.db_tag (codes "-")
    then none
    else column

abbrev pub cons_cached :
    Option CachedField
    → StructField
    → List (CachedField × StructField)
    → List (CachedField × StructField)
cons_cached none f rest = rest
cons_cached (some c) f rest = (c, f) ∷ rest

-- `info.fields`, each with its field
unfoldable pub cached_fields : List StructField → List (CachedField × StructField)
cached_fields [] = []
cached_fields (f ∷ fs) = cons_cached (cached_field f) f (cached_fields fs)

-- the columns that `Find` and `FindAll` select
unfoldable pub column_names : List (CachedField × StructField) → List Text
column_names [] = []
column_names ((c, f) ∷ cs) = c.name ∷ column_names cs

-- `primaryKeys` and `autoIncCol`
unfoldable pub primary_keys_of : List (CachedField × StructField) → List Text
primary_keys_of [] = []
primary_keys_of ((c, f) ∷ cs) =
    let rest = primary_keys_of cs in if c.is_primary then c.name ∷ rest else rest

unfoldable pub auto_inc_col_of : List (CachedField × StructField) → Text
auto_inc_col_of [] = []
auto_inc_col_of ((c, f) ∷ cs) =
    let rest = auto_inc_col_of cs in if c.is_autoincrement then c.name else rest

-- an assignment to a key of a map
unfoldable pub put_column : Text → Value → Columns → Columns
put_column key v [] = (key, v) ∷ []
put_column key v ((k, w) ∷ m) =
    let rest = put_column key v m in if text_eq k key then (key, v) ∷ m else (k, w) ∷ rest

-- whether `structToMap` takes the field
unfoldable pub is_taken : List Text → CachedField → Bool
is_taken [] c = not c.is_autofill && not c.is_autoincrement
is_taken (s ∷ selected) c = member c.name (s ∷ selected)

unfoldable pub stored_value : CachedField → Value → Value
stored_value c v = if c.is_nullable && is_zero v then null else v

-- the columns of the fields that are taken, each with its value
unfoldable pub put_columns :
    (CachedField → Bool)
    → (CachedField → Value → Value)
    → List (CachedField × StructField)
    → Columns
    → Columns
put_columns take value_of [] m = m
put_columns take value_of ((c, f) ∷ cs) m =
    let taken = put_columns take value_of cs (put_column c.name (value_of c f.value) m) in
    let skipped = put_columns take value_of cs m in if take c then taken else skipped

-- `structToMap`
unfoldable pub struct_to_map : Model → List Text → Columns
struct_to_map d selected = put_columns (is_taken selected) stored_value (cached_fields d.fields) []

-- whether `StructToHistoryMap` takes the field
unfoldable pub is_tracked : List Text → CachedField → Bool
is_tracked [] c = not (c.history_exclude || (c.is_primary || c.is_autoincrement))
is_tracked (s ∷ selected) c =
    not (c.history_exclude || (c.is_primary || c.is_autoincrement)) && member c.name (s ∷ selected)

-- `StructToHistoryMap`
unfoldable pub struct_to_history_map : Model → List Text → Columns
struct_to_history_map d selected =
    put_columns (is_tracked selected) (λ c v. v) (cached_fields d.fields) []

unfoldable pub upsert_columns : List (CachedField × StructField) → List Text
upsert_columns [] = []
upsert_columns ((c, f) ∷ cs) =
    let rest = upsert_columns cs in
    if c.is_primary || (c.is_autoincrement || c.is_autofill) then rest else c.name ∷ rest

-- `columnsForUpsert`
unfoldable pub columns_for_upsert : Model → List Text
columns_for_upsert d = upsert_columns (cached_fields d.fields)
