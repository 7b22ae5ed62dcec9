-- ===== src/Db/Model/RoundTrip.antt =====
-- A model that is written to a row and read back from it.
use kiya.Base.{
  ℕ, ◌≡◌, refl, sym, ap, ◌∙◌, Bool, true, false, ◌&&◌, List, [], ◌∷◌, Option, none, some, arith,
  All, Bool-cases, inl, inr,
}
use kiya.Base.Int.{ℤ, pos, negsuc, to_signed, to_unsigned}
use kiya.Text.{Text}
use mathlib.Core.Path.{subst}
use kiya.Db.Builder.{Value, null, int, text, bool, Columns, is_zero}
use kiya.Db.Write.{member}
use kiya.Db.Sql.{value_at}
use kiya.Db.Model.{
  FieldKind, text_kind, bool_kind, signed_kind, unsigned_kind, StructField, Model, CachedField,
  cached_field, cached_fields, column_names, cons_cached, put_column, is_taken, stored_value,
  put_columns, struct_to_map,
}
use kiya.Db.Model.Lookup.{put_columns_frame, value_at-put_column}
use kiya.Db.Model.Scanning.{
  Cell, null_cell, bytes_cell, string_cell, int64_cell, uint64_cell, bool_cell, Conversions,
  set_field_value, Cells, cell_at, scan_cell, scan_cached, scan_fields, scan_map_to_struct,
  zero_value, zero_fields, new_model,
}

-- the values of text, bool and integer kinds
pub data IsStorable : FieldKind → Value → Type 0 where
  is_text : (s : Text) → IsStorable text_kind (text s)
  is_bool : (b : Bool) → IsStorable bool_kind (bool b)
  is_signed : (w : ℕ) (z : ℤ) → to_signed w z ≡ z → IsStorable (signed_kind w) (int z)
  is_unsigned : (w n : ℕ) → to_unsigned w (pos n) ≡ n → IsStorable (unsigned_kind w) (int (pos n))

-- what a database may return for a value that was stored
pub data IsReturned : Value → Cell → Type 0 where
  as_null : IsReturned null null_cell
  as_bytes : (s : Text) → IsReturned (text s) (bytes_cell s)
  as_string : (s : Text) → IsReturned (text s) (string_cell s)
  as_int64 : (z : ℤ) → IsReturned (int z) (int64_cell z)
  as_uint64 : (n : ℕ) → IsReturned (int (pos n)) (uint64_cell n)
  as_bool : (b : Bool) → IsReturned (bool b) (bool_cell b)
  as_one : IsReturned (bool true) (int64_cell (pos 1))
  as_zero : IsReturned (bool false) (int64_cell (pos 0))

set_field_value_lem :
    (conv : Conversions) (k : FieldKind) (v z : Value) (cell : Cell)
    → IsStorable k v
    → IsReturned v cell
    → set_field_value conv k cell z ≡ v
unfolding set_field_value
set_field_value_lem conv k v z cell (is_text s) (as_bytes t) = refl
set_field_value_lem conv k v z cell (is_text s) (as_string t) = refl
set_field_value_lem conv k v z cell (is_bool b) (as_bool c) = refl
set_field_value_lem conv k v z cell (is_bool b) as_one = refl
set_field_value_lem conv k v z cell (is_bool b) as_zero = refl
set_field_value_lem conv k v z cell (is_signed w n h) (as_int64 m) = ap int h
set_field_value_lem conv k v z cell (is_signed w n h) (as_uint64 m) = ap int h
set_field_value_lem conv k v z cell (is_unsigned w n h) (as_int64 m) = ap (λ t. int (pos t)) h
set_field_value_lem conv k v z cell (is_unsigned w n h) (as_uint64 m) = ap (λ t. int (pos t)) h

not-null : {k : FieldKind} (v : Value) → IsStorable k v → v ≡ null → ⊥
not-null v (is_text s) e = cc
not-null v (is_bool b) e = cc
not-null v (is_signed w z h) e = cc
not-null v (is_unsigned w n h) e = cc

scan_cell_lem :
    (conv : Conversions) (g : StructField) (v : Value) (cell : Cell)
    → IsStorable g.kind v
    → IsReturned v cell
    → scan_cell conv cell g ≡ record g { value = v }
unfolding scan_cell
scan_cell_lem conv g v cell s as_null = absurd (not-null null s refl)
scan_cell_lem conv g v cell s (as_bytes t) =
    ap (λ x. record g { value = x }) (set_field_value_lem conv g.kind v g.value cell s (as_bytes t))
scan_cell_lem conv g v cell s (as_string t) =
    ap (λ x. record g { value = x })
      (set_field_value_lem conv g.kind v g.value cell s (as_string t))
scan_cell_lem conv g v cell s (as_int64 t) =
    ap (λ x. record g { value = x }) (set_field_value_lem conv g.kind v g.value cell s (as_int64 t))
scan_cell_lem conv g v cell s (as_uint64 t) =
    ap (λ x. record g { value = x })
      (set_field_value_lem conv g.kind v g.value cell s (as_uint64 t))
scan_cell_lem conv g v cell s (as_bool t) =
    ap (λ x. record g { value = x }) (set_field_value_lem conv g.kind v g.value cell s (as_bool t))
scan_cell_lem conv g v cell s as_one =
    ap (λ x. record g { value = x }) (set_field_value_lem conv g.kind v g.value cell s as_one)
scan_cell_lem conv g v cell s as_zero =
    ap (λ x. record g { value = x }) (set_field_value_lem conv g.kind v g.value cell s as_zero)

zero_int : (z : ℤ) → is_zero (int z) ≡ true → pos 0 ≡ z
unfolding is_zero
zero_int (pos n) h = ground arith
zero_int (negsuc n) h = absurd (cc)

zero_value_lem : (k : FieldKind) (v : Value) → IsStorable k v → is_zero v ≡ true → zero_value k ≡ v
unfolding zero_value
zero_value_lem k v (is_text []) h = refl
zero_value_lem k v (is_text (c ∷ s)) h = absurd (unfold is_zero in cc)
zero_value_lem k v (is_bool false) h = refl
zero_value_lem k v (is_bool true) h = absurd (unfold is_zero in cc)
zero_value_lem k v (is_signed w z e) h = ap int (zero_int z h)
zero_value_lem k v (is_unsigned w n e) h = ap int (zero_int (pos n) h)

abbrev pub IsDistinct : List (CachedField × StructField) → Type 0
IsDistinct [] = Unit
IsDistinct ((c, f) ∷ cs) = (member c.name (column_names cs) ≡ false) × IsDistinct cs

abbrev pub IsTaken : List Text → CachedField × StructField → Type 0
IsTaken selected (c, f) = is_taken selected c ≡ true

abbrev pub Holds : Columns → CachedField × StructField → Type 0
Holds m (c, f) = value_at c.name m ≡ stored_value c f.value

put_columns_lem :
    (selected : List Text) (cs : List (CachedField × StructField)) (m result : Columns)
    → put_columns (is_taken selected) stored_value cs m ≡ result
    → IsDistinct cs
    → All (IsTaken selected) cs
    → All (Holds result) cs
unfolding put_columns
put_columns_lem selected [] m result h d t = tt
put_columns_lem selected ((c, f) ∷ cs) m result h (n, d) (e, t) =
    let m1 = put_column c.name (stored_value c f.value) m in
    let tail = sym (rw e refl) ∙ h in
    (
      ap (value_at c.name) (sym tail)
          ∙ (put_columns_frame (is_taken selected) stored_value c.name cs m1 n
              ∙ value_at-put_column c.name (stored_value c f.value) m),
      put_columns_lem selected cs m1 result tail d t,
    )

-- the row gives the value of the columns back, which the field can hold
abbrev pub Gives : Cells → Columns → CachedField × StructField → Type 0
Gives row m (c, f) = IsStorable f.kind f.value × IsReturned (value_at c.name m) (cell_at c.name row)

abbrev zeroed : StructField → StructField
zeroed f = record f { value = zero_value f.kind }

unfoldable pub kept_or_zero : Option CachedField → StructField → StructField
kept_or_zero none f = zeroed f
kept_or_zero (some c) f = f

-- the fields that are columns as they are, the others zero
unfoldable pub restored_fields : List StructField → List StructField
restored_fields [] = []
restored_fields (f ∷ fs) = kept_or_zero (cached_field f) f ∷ restored_fields fs

null_cell_lem : (cell : Cell) → IsReturned null cell → cell ≡ null_cell
null_cell_lem cell as_null = refl

restore_field :
    (conv : Conversions) (row : Cells) (m : Columns) (c : CachedField) (f : StructField)
    → Holds m (c, f)
    → Gives row m (c, f)
    → scan_cached conv row (some c) (zeroed f) ≡ f
unfolding scan_cached scan_cell stored_value
restore_field conv row m c f h (s, r) = elim (Bool-cases (c.is_nullable && is_zero f.value)) [
  | inl e ↦
      let cell =
        null_cell_lem (cell_at c.name row)
          (subst (λ v. IsReturned v (cell_at c.name row)) (h ∙ rw e refl) r) in
      rw cell (ap (λ v. record f { value = v }) (zero_value_lem f.kind f.value s (ground arith)))
  | inr e ↦
      scan_cell_lem conv (zeroed f) f.value (cell_at c.name row) s
        (subst (λ v. IsReturned v (cell_at c.name row)) (h ∙ rw e refl) r)
]

restore_cached :
    (conv : Conversions) (row : Cells) (m : Columns) (c : Option CachedField) (f : StructField)
    (fs : List StructField)
    → (All (Holds m) (cached_fields fs)
        → All (Gives row m) (cached_fields fs)
        → scan_fields conv row (zero_fields fs) ≡ restored_fields fs)
    → All (Holds m) (cons_cached c f (cached_fields fs))
    → All (Gives row m) (cons_cached c f (cached_fields fs))
    → (scan_cached conv row c (zeroed f) ∷ scan_fields conv row (zero_fields fs))
      ≡ (kept_or_zero c f ∷ restored_fields fs)
unfolding scan_cached kept_or_zero
restore_cached conv row m none f fs rest h g = ap (λ t. zeroed f ∷ t) (rest h g)
restore_cached conv row m (some c) f fs rest (h, hs) (g, gs) =
    rw (restore_field conv row m c f h g, rest hs gs) refl

restore_fields :
    (conv : Conversions) (row : Cells) (m : Columns) (fs : List StructField)
    → All (Holds m) (cached_fields fs)
    → All (Gives row m) (cached_fields fs)
    → scan_fields conv row (zero_fields fs) ≡ restored_fields fs
unfolding scan_fields zero_fields restored_fields cached_field cached_fields
restore_fields conv row m [] h g = refl
restore_fields conv row m (f ∷ fs) h g =
    restore_cached conv row m (cached_field f) f fs (restore_fields conv row m fs) h g

-- A model whose columns have distinct names, are all taken and hold texts, Booleans and integers of their fields'
-- width is written to a row (`struct_to_map`, where a nullable zero value is NULL). A row that returns these values,
-- in any of the forms a driver may use, read into a new model of the same type, gives every field that is a column
-- its value back, and leaves the others zero.
pub scan_map_to_struct-struct_to_map :
    (conv : Conversions) (selected : List Text) (d : Model) (row : Cells)
    → IsDistinct (cached_fields d.fields)
    → All (IsTaken selected) (cached_fields d.fields)
    → All (Gives row (struct_to_map d selected)) (cached_fields d.fields)
    → scan_map_to_struct conv row (new_model d) ≡ record d { fields = restored_fields d.fields }
unfolding scan_map_to_struct new_model struct_to_map
scan_map_to_struct-struct_to_map conv selected d row distinct taken gives =
    let holds =
      put_columns_lem selected (cached_fields d.fields) [] (struct_to_map d selected) refl distinct
        taken in
    ap (λ fs. record d { fields = fs })
      (restore_fields conv row (struct_to_map d selected) d.fields holds gives)
