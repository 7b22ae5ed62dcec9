-- ===== src/Db/Model/Keys.antt =====
-- internal/db/reflect.go and helpers.go: the primary key of a model, and the fields that are set by name.
use kiya.Base.{zero, Bool, true, false, ◌||◌, List, [], ◌∷◌, Option, none, some, if◌then◌else◌}
use kiya.Base.Int.{ℤ, pos, negsuc, to_signed, to_unsigned}
use kiya.Text.{Text, codes, text_eq, to_lower}
use kiya.Db.Builder.{Value, int, text, is_empty, is_zero}
use kiya.Db.Model.{
  text_kind, signed_kind, unsigned_kind, StructField, Model, CachedField, cached_field,
  cached_fields, primary_keys_of,
}

-- `PrimaryKeyInfo`
pub record PrimaryKeyInfo : Type 0 where
  pub column_name : Text
  pub key_value : Value
  pub key_is_zero : Bool

abbrev key_info : CachedField → StructField → PrimaryKeyInfo
key_info c f = record { column_name = c.name; key_value = f.value; key_is_zero = is_zero f.value }

unfoldable pub primary_infos : List (CachedField × StructField) → List PrimaryKeyInfo
primary_infos [] = []
primary_infos ((c, f) ∷ cs) =
    let rest = primary_infos cs in if c.is_primary then key_info c f ∷ rest else rest

unfoldable pub id_info : List (CachedField × StructField) → List PrimaryKeyInfo
id_info [] = []
id_info ((c, f) ∷ cs) =
    let rest = id_info cs in if text_eq c.name (codes "id") then key_info c f ∷ [] else rest

abbrev pub is_none_listed : List Text → Bool
is_none_listed [] = true
is_none_listed (k ∷ ks) = false

-- `GetPrimaryKeys`
unfoldable pub get_primary_keys : Model → List PrimaryKeyInfo
get_primary_keys m =
    let cs = cached_fields m.fields in
    if is_none_listed (primary_keys_of cs) then id_info cs else primary_infos cs

abbrev pub first_column : List PrimaryKeyInfo → Text
first_column [] = codes "id"
first_column (p ∷ ps) = p.column_name

-- `PrimaryKeyColumn`
unfoldable pub primary_key_column : Model → Text
primary_key_column m = first_column (get_primary_keys m)

-- `toInt64`; `none` is an error
unfoldable pub to_int64 : Value → Option ℤ
to_int64 (int z) = some (to_signed 64 z)
to_int64 _ = none

abbrev pub first_value : List PrimaryKeyInfo → Option ℤ
first_value [] = none
first_value (p ∷ ps) = to_int64 p.key_value

-- `PrimaryKeyValue`
unfoldable pub primary_key_value : Model → Option ℤ
primary_key_value m = first_value (get_primary_keys m)

-- `SetInt` and `SetUint` on the field; `none` is a field of another kind
unfoldable pub set_id : ℤ → StructField → Option StructField
set_id id f = elim f.kind [
  | signed_kind w ↦ some (record f { value = int (to_signed w id) })
  | unsigned_kind w ↦ some (record f { value = int (pos (to_unsigned w id)) })
  | _ ↦ none
]

abbrev pub satisfies : (CachedField → Bool) → Option CachedField → Bool
satisfies p none = false
satisfies p (some c) = p c

abbrev pub keep_after : StructField → Option (List StructField) → Option (List StructField)
keep_after f none = none
keep_after f (some fs) = some (f ∷ fs)

abbrev pub put_first : Option StructField → List StructField → Option (List StructField)
put_first none fs = none
put_first (some f) fs = some (f ∷ fs)

-- the first field of the info that passes the test is set; `none` is an error
unfoldable pub set_first : (CachedField → Bool) → ℤ → List StructField → Option (List StructField)
set_first p id [] = none
set_first p id (f ∷ fs) =
    let here = put_first (set_id id f) fs in
    let later = keep_after f (set_first p id fs) in
    if satisfies p (cached_field f) then here else later

abbrev pub is_primary_field : CachedField → Bool
is_primary_field c = c.is_primary

abbrev pub is_id_field : CachedField → Bool
is_id_field c = text_eq c.name (codes "id")

-- `SetPrimaryKeyValue`
unfoldable pub set_primary_key_value : ℤ → Model → Option (List StructField)
set_primary_key_value id m =
    if is_none_listed (primary_keys_of (cached_fields m.fields))
    then set_first is_id_field id m.fields
    else set_first is_primary_field id m.fields

unfoldable pub with_fields : Model → Option (List StructField) → Model
with_fields m none = m
with_fields m (some fs) = record m { fields = fs }

unfoldable pub sync_with : Model → Option ℤ → Model
sync_with self none = self
sync_with self (some id) = with_fields self (set_primary_key_value id self)

-- `syncPrimaryKey`, which drops errors
unfoldable pub sync_primary_key : Model → Model → Model
sync_primary_key self old = sync_with self (primary_key_value old)

abbrev pub is_zero_id : ℤ → Bool
is_zero_id (pos n) = elim n [ zero ↦ true | _ ↦ false ]
is_zero_id (negsuc n) = false

unfoldable pub has_cached : (CachedField → Bool) → List StructField → Bool
has_cached p [] = false
has_cached p (f ∷ fs) = satisfies p (cached_field f) || has_cached p fs

abbrev pub is_autoincrement_field : CachedField → Bool
is_autoincrement_field c = c.is_autoincrement

-- `strings.EqualFold(f.name, "id")`
abbrev pub is_id_folded : CachedField → Bool
is_id_folded c = text_eq (to_lower c.name) (codes "id")

-- `assignAutoIncrementID`
unfoldable pub assign_auto_increment_id : ℤ → Model → Model
assign_auto_increment_id id m =
    let auto = with_fields m (set_first is_autoincrement_field id m.fields) in
    let by_name = with_fields m (set_first is_id_folded id m.fields) in
    if is_zero_id id
    then m
    else if has_cached is_autoincrement_field m.fields
    then auto
    else by_name

-- `hasField`, by the name of the field in Go
unfoldable pub has_field : Text → List StructField → Bool
has_field name [] = false
has_field name (f ∷ fs) = text_eq f.field_name name || has_field name fs

abbrev pub text_value : Value → Text
text_value (text s) = s
text_value _ = []

-- the string in the field of a kind string with that name: `historyFieldIndex` with `getHistoryString`
unfoldable pub string_field : Text → List StructField → Option Text
string_field name [] = none
string_field name (f ∷ fs) =
    let rest = string_field name fs in
    if text_eq f.field_name name
    then elim f.kind [ text_kind ↦ some (text_value f.value) | _ ↦ none ]
    else rest

abbrev pub set_text : Text → StructField → StructField
set_text s f = elim f.kind [ text_kind ↦ record f { value = text s } | _ ↦ f ]

-- `setHistoryString`, and `setActorField` of a name that is not empty
unfoldable pub set_string_field : Text → Text → List StructField → List StructField
set_string_field name s [] = []
set_string_field name s (f ∷ fs) =
    let rest = set_string_field name s fs in
    if text_eq f.field_name name then set_text s f ∷ fs else f ∷ rest

unfoldable pub set_actor_field : Text → Text → List StructField → List StructField
set_actor_field name actor fs = if is_empty actor then fs else set_string_field name actor fs
