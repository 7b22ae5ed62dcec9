-- ===== src/Db/Model/Scanning.antt =====
-- internal/db/reflect.go: scanMapToStruct and setFieldValue, for fields that are no pointers. A row is a map of
-- what the driver gives for a column; the conversions of floats, and those of `reflect` for other kinds, are
-- arguments.
use kiya.Base.{
  ℕ, ◌%◌, ◌^◌, Bool, true, false, not, ◌==◌, List, [], ◌∷◌, Option, none, some, if◌then◌else◌,
}
use kiya.Base.Int.{ℤ, pos, negsuc, to_signed, to_unsigned}
use kiya.Text.{Text, text_eq}
use kiya.Db.Builder.{Value, int, text, bool, other}
use kiya.Db.Model.{
  FieldKind, text_kind, float_kind, bool_kind, struct_kind, other_kind, signed_kind, unsigned_kind,
  StructField, Model, CachedField, cached_field,
}

-- what `MapScan` gives: a float is its bits
pub data Cell : Type 0 where
  null_cell : Cell
  bytes_cell string_cell : Text → Cell
  int64_cell : ℤ → Cell
  uint64_cell float64_cell time_cell : ℕ → Cell
  bool_cell : Bool → Cell

-- `int64(f)`, `uint64(f)`, and the default case of `setFieldValue`
pub record Conversions : Type 0 where
  pub float_to_int : ℕ → ℤ
  pub convert : Cell → Value → Value

abbrev pub is_nonzero : ℤ → Bool
is_nonzero (pos n) = not (n == 0)
is_nonzero (negsuc n) = true

-- `setFieldValue`, which leaves a field alone where it knows no conversion
unfoldable pub set_field_value : Conversions → FieldKind → Cell → Value → Value
set_field_value conv text_kind (bytes_cell s) v = text s
set_field_value conv text_kind (string_cell s) v = text s
set_field_value conv (signed_kind w) (int64_cell z) v = int (to_signed w z)
set_field_value conv (signed_kind w) (uint64_cell n) v = int (to_signed w (pos n))
set_field_value conv (signed_kind w) (float64_cell f) v = int (to_signed w (conv.float_to_int f))
set_field_value conv (unsigned_kind w) (uint64_cell n) v = int (pos (to_unsigned w (pos n)))
set_field_value conv (unsigned_kind w) (int64_cell z) v = int (pos (to_unsigned w z))
set_field_value conv (unsigned_kind w) (float64_cell f) v =
    int (pos (to_unsigned w (conv.float_to_int f)))
set_field_value conv float_kind (float64_cell f) v = other (f % 2 ^ 63 == 0) f
set_field_value conv bool_kind (int64_cell z) v = bool (is_nonzero z)
set_field_value conv bool_kind (bool_cell b) v = bool b
set_field_value conv struct_kind (time_cell t) v = other false t
set_field_value conv other_kind cell v = conv.convert cell v
set_field_value conv _ _ v = v

abbrev pub Cells : Type 0
Cells = List (Text × Cell)

-- `data[f.name]`, where a missing key and nil are both left out
unfoldable pub cell_at : Text → Cells → Cell
cell_at key [] = null_cell
cell_at key ((k, c) ∷ row) = let rest = cell_at key row in if text_eq k key then c else rest

unfoldable pub scan_cell : Conversions → Cell → StructField → StructField
scan_cell conv null_cell f = f
scan_cell conv c f = record f { value = set_field_value conv f.kind c f.value }

unfoldable pub scan_cached : Conversions → Cells → Option CachedField → StructField → StructField
scan_cached conv row none f = f
scan_cached conv row (some c) f = scan_cell conv (cell_at c.name row) f

unfoldable pub scan_fields : Conversions → Cells → List StructField → List StructField
scan_fields conv row [] = []
scan_fields conv row (f ∷ fs) = scan_cached conv row (cached_field f) f ∷ scan_fields conv row fs

-- `scanMapToStruct`
unfoldable pub scan_map_to_struct : Conversions → Cells → Model → Model
scan_map_to_struct conv row m = record m { fields = scan_fields conv row m.fields }

-- the zero value of a kind; for a struct or another kind it is some value that is zero
unfoldable pub zero_value : FieldKind → Value
zero_value text_kind = text []
zero_value float_kind = other true 0
zero_value bool_kind = bool false
zero_value struct_kind = other true 0
zero_value other_kind = other true 0
zero_value (signed_kind w) = int (pos 0)
zero_value (unsigned_kind w) = int (pos 0)

unfoldable pub zero_fields : List StructField → List StructField
zero_fields [] = []
zero_fields (f ∷ fs) = record f { value = zero_value f.kind } ∷ zero_fields fs

-- `reflect.New` of the type of a model
unfoldable pub new_model : Model → Model
new_model m = record m { fields = zero_fields m.fields }
