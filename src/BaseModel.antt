-- ===== src/BaseModel.antt =====
-- models.go: the methods of BaseModel, which build a query for the row whose encrypted id stands in the URL, and the
-- ids of context.go. The context of the request is the value that the scope gets, the `id` of its query string, and
-- the key; a method that answers with an error before any statement gives `none`.
pub mod Rows
pub mod Tests
use kiya.Base.{ℕ, Bool, true, false, List, [], ◌∷◌, Option, none, some, if◌then◌else◌}
use kiya.Base.Int.{ℤ}
use kiya.Text.{Text, codes}
use kiya.Strconv.{Parsed, number, syntax, range, format_int, parse_int, int64_cutoff}
use kiya.Crypto.{Crypted, ok, failed, Cipher, is_nil, encrypt, decrypt}
use kiya.Db.Sanitize.{sanitize_identifier}
use kiya.Db.Builder.{
  Value, int, Columns, Dest, Dialect, Builder, new_builder, bind, set_resources,
  set_soft_delete_condition, clear_soft_delete_condition, cols, where_eq,
}
use kiya.Db.Model.{Model, cached_fields, column_names, table_name}
use kiya.Db.Model.Keys.{has_field, primary_key_column}
use kiya.Db.Model.Writing.{retain}
use kiya.Db.Write.{Result}
use kiya.Db.History.Models.{ModelMethod, row_update, row_delete, row_restore, row_purge}

unfoldable pub number_of : Parsed ℤ → Option ℤ
number_of (number z) = some z
number_of syntax = none
number_of (range z) = none

unfoldable pub id_of : Crypted → Option ℤ
id_of (failed e) = none
id_of (ok plaintext) = number_of (parse_int int64_cutoff plaintext)

-- `EncryptID` and `DecryptID` of a text that is given
unfoldable pub encrypt_id : Cipher → Text → Option Text → ℤ → Crypted
encrypt_id cipher key random id = encrypt cipher (format_int id) key random

unfoldable pub decrypt_id : Cipher → Text → Text → Option ℤ
decrypt_id cipher key encoded = if is_nil encoded then none else id_of (decrypt cipher encoded key)

pub record Base : Type 0 where
  pub self : Model
  pub dialect : Dialect
  pub scope : Option (List Text → Value → Columns)
  -- a nil context is a pointer, and so no nil to the builder
  pub context : Value
  pub has_context : Bool
  pub url_id : Text
  pub encrypt_key : Text

-- `Init` looks for the field
unfoldable pub has_soft_delete : Model → Bool
has_soft_delete d = has_field (codes "DeletedAt") d.fields

-- `Table` of a database
unfoldable pub table_builder : Text → Base → Builder
table_builder name m = record (new_builder (sanitize_identifier name) m.dialect) { scope = m.scope }

-- `newBuilder` of a model that is initialized
unfoldable pub new_base_builder : Base → Builder
new_base_builder m =
    let bound =
      bind (Dest.columns (column_names (cached_fields m.self.fields)))
        (table_builder (table_name m.self) m) in
    let builder = set_resources (some m.context) bound in
    if has_soft_delete m.self
    then set_soft_delete_condition (codes "deleted_at IS NULL") builder
    else builder

unfoldable pub with_deleted : Base → Builder
with_deleted m = clear_soft_delete_condition (new_base_builder m)

-- the builders of `Update`, `Delete`, `Restore` and `Purge`
pub data BaseMethod : Type 0 where
  base_update : List Text → BaseMethod
  base_delete base_restore base_purge : BaseMethod

unfoldable pub selecting : BaseMethod → Base → Builder
selecting (base_update names) m = cols names (new_base_builder m)
selecting _ m = new_base_builder m

-- the method of the builder that is called then
unfoldable pub builder_method : BaseMethod → ModelMethod
builder_method (base_update names) = row_update
builder_method base_delete = row_delete
builder_method base_restore = row_restore
builder_method base_purge = row_purge

module _ (cipher : Cipher) where
  -- `resolveIDFromURL`
  unfoldable pub resolve_id_from_url : Base → Option ℤ
  resolve_id_from_url m = if m.has_context then decrypt_id cipher m.encrypt_key m.url_id else none

  abbrev pub at_id : Base → Builder → Option ℤ → Option Builder
  at_id m b none = none
  at_id m b (some id) = some (where_eq (primary_key_column m.self) (int id) b)

  unfoldable pub base_builder : BaseMethod → Base → Option Builder
  base_builder method m = at_id m (selecting method m) (resolve_id_from_url m)

  -- the builder of `Find` and `FindOrFail`
  unfoldable pub finding_base : Base → Option Builder
  finding_base m = at_id m (new_base_builder m) (resolve_id_from_url m)

  -- the builder of `Upsert`, which inserts without an id in the URL
  unfoldable pub upserting_base : List Text → Base → Option Builder
  upserting_base names m =
      let b = cols names (new_base_builder m) in
      if m.has_context
      then (if is_nil m.url_id
          then some b
          else at_id m b (decrypt_id cipher m.encrypt_key m.url_id))
      else none

-- `Retain`
unfoldable pub base_retain :
    Base → Value → List ℤ → Bool → List (Builder → Builder) → Result Builder
base_retain m now ids purge wheres = retain m.self now ids purge wheres (new_base_builder m)
