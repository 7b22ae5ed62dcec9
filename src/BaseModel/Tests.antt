-- ===== src/BaseModel/Tests.antt =====
-- A user whose id stands in the URL.
use kiya.Base.{◌≡◌, refl, true, [], ◌∷◌, none, some, arith}
use kiya.Base.Int.{pos}
use kiya.Text.{codes}
use kiya.Strconv.{format_int}
use kiya.Crypto.Seal.{token_of}
use kiya.Crypto.Tests.{key, nonce, cipher, key-IsKey, cipher-Opens}
use kiya.Db.Builder.{null, Builder, Dialect}
use kiya.Db.Model.Keys.{primary_key_column}
use kiya.Db.Model.Tests.{user}
use kiya.Db.History.Models.{row_builder}
use kiya.BaseModel.{Base, base_update, base_builder, builder_method}
use kiya.BaseModel.Rows.{SelectsRow, base_builder-SelectsRow}

abbrev renamed : Base
renamed = record {
  self = user [] (codes "Budi");
  dialect = Dialect.mysql;
  scope = none;
  context = null;
  has_context = true;
  url_id = token_of cipher key nonce (format_int (pos 7));
  encrypt_key = key;
}

base_builder-SelectsRow_example :
    (b : Builder) × (base_builder cipher (base_update (codes "name" ∷ [])) renamed ≡ some b)
    × SelectsRow
        (primary_key_column (user [] (codes "Budi")))
        (pos 7)
        (row_builder (builder_method (base_update (codes "name" ∷ []))) b).wheres
unfolding codes kiya.Db.Sanitize.sanitize_identifier kiya.Db.Sanitize.ident_byte kiya.Text.all_in
    kiya.Text.is_letter kiya.Text.is_digit kiya.Db.Model.Keys.primary_key_column
    kiya.Db.Model.Keys.get_primary_keys kiya.Db.Model.Keys.primary_infos kiya.Db.Model.Keys.id_info
    kiya.Db.Model.primary_keys_of kiya.Db.Model.cached_fields kiya.Db.Model.cached_field
    kiya.Db.Model.cached_column kiya.Db.Model.apply_options kiya.Db.Model.apply_option
    kiya.Db.Write.member kiya.Text.text_eq kiya.Text.split_first kiya.Text.split_at
    kiya.Text.trim_space
base_builder-SelectsRow_example =
    base_builder-SelectsRow cipher (base_update (codes "name" ∷ [])) renamed nonce (pos 7)
      cipher-Opens key-IsKey refl (omega arith) refl refl refl refl
