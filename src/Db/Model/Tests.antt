-- ===== src/Db/Model/Tests.antt =====
-- A user with a key, a name, an age that may be NULL and a history.
use kiya.Base.{ℕ, ◌≡◌, refl, Bool, true, false, List, [], ◌∷◌, ◌++◌, Option, none, some, All, arith}
use kiya.Base.Int.{ℤ, pos}
use kiya.Text.{Text, codes}
use kiya.Db.Builder.{Value, int, text}
use kiya.Db.Model.{
  FieldKind, text_kind, signed_kind, StructField, Model, CachedField, cached_fields, struct_to_map,
}
use kiya.Db.Model.Scanning.{
  Cell, bytes_cell, int64_cell, null_cell, Cells, Conversions, scan_map_to_struct, new_model,
}
use kiya.Db.Model.RoundTrip.{
  IsDistinct, IsTaken, Gives, is_text, is_signed, as_null, as_bytes, as_int64, restored_fields,
  scan_map_to_struct-struct_to_map,
}

abbrev pub field : Text → Text → FieldKind → Value → StructField
field name tag kind v = record {
  field_name = name;
  exported = true;
  anonymous = false;
  db_tag = tag;
  history_tag = [];
  kind = kind;
  value = v;
}

-- with the text of the history and the name
abbrev pub user : Text → Text → Model
user hist name = record {
  type_name = codes "User";
  method_name = [];
  fields =
      field (codes "ID") (codes "id,primary") (signed_kind 64) (int (pos 7))
      ∷ field (codes "Name") (codes "name") text_kind (text name)
      ∷ field (codes "Age") (codes "age,nullable") (signed_kind 64) (int (pos 0))
      ∷ field (codes "Cache") (codes "-") text_kind (text (codes "x"))
      ∷ field (codes "History") (codes "history") text_kind (text hist)
      ∷ [];
}

abbrev pub conversions : Conversions
conversions = record { float_to_int = λ n. pos n; convert = λ c v. v }

abbrev pub user_row : Text → Text → Cells
user_row hist name =
    (codes "id", int64_cell (pos 7))
    ∷ (codes "name", bytes_cell name)
    ∷ (codes "age", null_cell)
    ∷ (codes "history", bytes_cell hist)
    ∷ []

abbrev ani : Model
ani = user (codes "[]") (codes "Ani")

ani-IsDistinct : IsDistinct (cached_fields ani.fields)
unfolding codes kiya.Db.Model.cached_fields kiya.Db.Model.cached_field kiya.Db.Model.cached_column
    kiya.Db.Model.apply_options kiya.Db.Model.apply_option kiya.Db.Model.column_names
    kiya.Db.Model.is_taken kiya.Db.Model.struct_to_map kiya.Db.Model.put_columns
    kiya.Db.Model.put_column kiya.Db.Model.stored_value kiya.Db.Sql.value_at kiya.Db.Write.member
    kiya.Text.text_eq kiya.Text.split_first kiya.Text.split_at kiya.Text.trim_space
    kiya.Db.Builder.is_zero kiya.Base.Int.to_signed kiya.Db.Model.Scanning.cell_at
ani-IsDistinct = (refl, (refl, (refl, (refl, tt))))

ani-IsTaken : All (IsTaken []) (cached_fields ani.fields)
unfolding codes kiya.Db.Model.cached_fields kiya.Db.Model.cached_field kiya.Db.Model.cached_column
    kiya.Db.Model.apply_options kiya.Db.Model.apply_option kiya.Db.Model.column_names
    kiya.Db.Model.is_taken kiya.Db.Model.struct_to_map kiya.Db.Model.put_columns
    kiya.Db.Model.put_column kiya.Db.Model.stored_value kiya.Db.Sql.value_at kiya.Db.Write.member
    kiya.Text.text_eq kiya.Text.split_first kiya.Text.split_at kiya.Text.trim_space
    kiya.Db.Builder.is_zero kiya.Base.Int.to_signed kiya.Db.Model.Scanning.cell_at
ani-IsTaken = (refl, (refl, (refl, (refl, tt))))

ani-Gives :
    All
      (Gives (user_row (codes "[]") (codes "Ani")) (struct_to_map ani []))
      (cached_fields ani.fields)
unfolding codes kiya.Db.Model.cached_fields kiya.Db.Model.cached_field kiya.Db.Model.cached_column
    kiya.Db.Model.apply_options kiya.Db.Model.apply_option kiya.Db.Model.column_names
    kiya.Db.Model.is_taken kiya.Db.Model.struct_to_map kiya.Db.Model.put_columns
    kiya.Db.Model.put_column kiya.Db.Model.stored_value kiya.Db.Sql.value_at kiya.Db.Write.member
    kiya.Text.text_eq kiya.Text.split_first kiya.Text.split_at kiya.Text.trim_space
    kiya.Db.Builder.is_zero kiya.Base.Int.to_signed kiya.Db.Model.Scanning.cell_at
ani-Gives = (
  (is_signed 64 (pos 7) refl, as_int64 (pos 7)),
  (
    (is_text (codes "Ani"), as_bytes (codes "Ani")),
    ((is_signed 64 (pos 0) refl, as_null), ((is_text (codes "[]"), as_bytes (codes "[]")), tt)),
  ),
)

scan_map_to_struct-struct_to_map_example :
    scan_map_to_struct conversions (user_row (codes "[]") (codes "Ani")) (new_model ani)
    ≡ record ani { fields = restored_fields ani.fields }
scan_map_to_struct-struct_to_map_example =
    scan_map_to_struct-struct_to_map conversions [] ani (user_row (codes "[]") (codes "Ani"))
      ani-IsDistinct ani-IsTaken ani-Gives

-- All but the field that is no column.
restored-ani : restored_fields ani.fields ≡ (
    field (codes "ID") (codes "id,primary") (signed_kind 64) (int (pos 7))
    ∷ field (codes "Name") (codes "name") text_kind (text (codes "Ani"))
    ∷ field (codes "Age") (codes "age,nullable") (signed_kind 64) (int (pos 0))
    ∷ field (codes "Cache") (codes "-") text_kind (text [])
    ∷ field (codes "History") (codes "history") text_kind (text (codes "[]"))
    ∷ [])
unfolding codes kiya.Db.Model.cached_fields kiya.Db.Model.cached_field kiya.Db.Model.cached_column
    kiya.Db.Model.apply_options kiya.Db.Model.apply_option kiya.Db.Model.column_names
    kiya.Db.Model.is_taken kiya.Db.Model.struct_to_map kiya.Db.Model.put_columns
    kiya.Db.Model.put_column kiya.Db.Model.stored_value kiya.Db.Sql.value_at kiya.Db.Write.member
    kiya.Text.text_eq kiya.Text.split_first kiya.Text.split_at kiya.Text.trim_space
    kiya.Db.Builder.is_zero kiya.Base.Int.to_signed kiya.Db.Model.Scanning.cell_at
    kiya.Db.Model.RoundTrip.restored_fields kiya.Db.Model.RoundTrip.kept_or_zero
    kiya.Db.Model.Scanning.zero_value
restored-ani = refl
