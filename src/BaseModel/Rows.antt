-- ===== src/BaseModel/Rows.antt =====
-- The rows that a method of BaseModel selects.
use mathlib.Core.Path.{subst}
use kiya.Base.{
  ◌≡◌, refl, sym, if◌then◌else◌, ap, ◌∙◌, Bool, true, false, List, [], ◌∷◌, ◌++◌, Option, none,
  some, arith, length, Bool-cases, inl, inr,
}
use kiya.Base.Int.{ℤ}
use kiya.Text.{Text, codes}
use kiya.Strconv.{format_int, int64_cutoff}
use kiya.Strconv.RoundTrip.{Fits, parse_int-format_int}
use kiya.Crypto.{Cipher, is_nil}
use kiya.Crypto.Seal.{IsKey, Opens, token_of, decrypt-encrypt}
use kiya.Db.Sanitize.{sanitize_identifier}
use kiya.Db.Builder.{
  Value, int, and, Columns, WhereClause, Builder, new_builder, bind, set_resources,
  set_soft_delete_condition, cols, and_where, compare_with, unless_empty, where_eq,
}
use kiya.Db.Scope.{
  apply_scope, apply_scope_once, scope_query, add_conditions, add_group, add_nonempty, scope_fields,
  grouped, scoped_wheres,
}
use kiya.Db.Sql.{Output, write_clauses, more_clauses, nothing_written, write, push}
use kiya.Db.Model.Keys.{primary_key_column}
use kiya.Db.History.Models.{
  ModelMethod, row_update, row_upsert, row_delete, row_restore, row_purge, row_builder,
}
use kiya.BaseModel.{
  Base, BaseMethod, base_update, base_delete, base_restore, base_purge, id_of, number_of,
  decrypt_id, resolve_id_from_url, at_id, selecting, base_builder, builder_method, new_base_builder,
  table_builder, has_soft_delete,
}

abbrev id_text : Text → Text
id_text column = column ++ codes " = ?"

-- The first condition is the one on the column, and what follows it is joined by AND.
pub data SelectsRow (column : Text) (id : ℤ) : List WhereClause → Type 0 where
  by_id :
      SelectsRow column id
        (record { boolean = and; expr = id_text column; args = int id ∷ [] } ∷ [])
  by_id_and_scope :
      (g : WhereClause)
      → g.boolean ≡ and
      → SelectsRow column id (
          record {
            boolean = and;
            expr = codes "(" ++ id_text column ++ codes ")";
            args = int id ∷ [];
          }
          ∷ g
          ∷ [])

abbrev id_clause : Text → ℤ → WhereClause
id_clause column id = record { boolean = and; expr = id_text column; args = int id ∷ [] }

SelectsRow-scoped :
    (column : Text) (id : ℤ) (group : Output)
    → SelectsRow column id (scoped_wheres (id_clause column id ∷ []) group)
unfolding scoped_wheres grouped write_clauses more_clauses nothing_written write push
SelectsRow-scoped column id group = by_id_and_scope (grouped group) refl

SelectsRow-add_nonempty :
    (column : Text) (id : ℤ) (s : Text) (group : Output) (b : Builder)
    → b.wheres ≡ id_clause column id ∷ []
    → SelectsRow column id (add_nonempty s group b).wheres
unfolding add_nonempty
SelectsRow-add_nonempty column id [] group b e = subst (SelectsRow column id) (sym e) by_id
SelectsRow-add_nonempty column id (c ∷ s) group b e =
    subst (SelectsRow column id) (ap (λ ws. scoped_wheres ws group) (sym e))
      (SelectsRow-scoped column id group)

SelectsRow-scope_query :
    (column : Text) (id : ℤ) (scope : Option (List Text → Value → Columns)) (res : Option Value)
    (skipped : Bool) (fields : Option (List Text)) (b : Builder)
    → b.wheres ≡ id_clause column id ∷ []
    → SelectsRow column id (scope_query scope res skipped fields b).wheres
unfolding scope_query add_conditions add_group
SelectsRow-scope_query column id (some scope) (some res) false (some fields) b e =
    SelectsRow-add_nonempty column id _ _ b e
SelectsRow-scope_query column id _ _ _ _ b e = subst (SelectsRow column id) (sym e) by_id

SelectsRow-apply_scope :
    (column : Text) (id : ℤ) (applied : Bool) (b : Builder)
    → b.wheres ≡ id_clause column id ∷ []
    → SelectsRow column id (apply_scope_once applied b).wheres
unfolding apply_scope_once
SelectsRow-apply_scope column id true b e = subst (SelectsRow column id) (sym e) by_id
SelectsRow-apply_scope column id false b e =
    SelectsRow-scope_query column id b.scope b.res b.scope_skipped (scope_fields b.selects b.dest)
      (record b { scope_applied = true }) e

wheres-new_base_builder : (m : Base) → (new_base_builder m).wheres ≡ []
unfolding new_base_builder bind set_resources set_soft_delete_condition table_builder new_builder
wheres-new_base_builder m = elim (Bool-cases (has_soft_delete m.self)) [
  | inl e ↦ rw e refl
  | inr e ↦ rw e refl
]

wheres-where_eq :
    (column : Text) (id : ℤ) (b : Builder)
    → sanitize_identifier column ≡ column
    → is_nil column ≡ false
    → b.wheres ≡ []
    → (where_eq column (int id) b).wheres ≡ id_clause column id ∷ []
unfolding where_eq unless_empty compare_with and_where
wheres-where_eq [] id b s n e = absurd cc
wheres-where_eq (c ∷ column) id b s n e = rw s (ap (λ ws. ws ++ id_clause (c ∷ column) id ∷ []) e)

module _ (cipher : Cipher) where
  wheres-selecting : (method : BaseMethod) (m : Base) → (selecting method m).wheres ≡ []
  unfolding selecting cols
  wheres-selecting (base_update names) m = wheres-new_base_builder m
  wheres-selecting base_delete m = wheres-new_base_builder m
  wheres-selecting base_restore m = wheres-new_base_builder m
  wheres-selecting base_purge m = wheres-new_base_builder m

  SelectsRow-row_builder :
      (column : Text) (id : ℤ) (method : ModelMethod) (b : Builder)
      → b.wheres ≡ id_clause column id ∷ []
      → SelectsRow column id (row_builder method b).wheres
  unfolding row_builder apply_scope
  SelectsRow-row_builder column id row_update b e =
      SelectsRow-apply_scope column id b.scope_applied b e
  SelectsRow-row_builder column id row_upsert b e =
      SelectsRow-apply_scope column id b.scope_applied b e
  SelectsRow-row_builder column id row_delete b e =
      SelectsRow-apply_scope column id b.scope_applied b e
  SelectsRow-row_builder column id row_restore b e =
      SelectsRow-apply_scope column id b.scope_applied _ e
  SelectsRow-row_builder column id row_purge b e =
      SelectsRow-apply_scope column id b.scope_applied _ e

  decrypt_id_lem :
      (key nonce : Text) (id : ℤ)
      → Opens cipher
      → IsKey cipher key
      → length nonce ≡ cipher.nonce_size
      → Fits int64_cutoff id
      → decrypt_id cipher key (token_of cipher key nonce (format_int id)) ≡ some id
  unfolding decrypt_id id_of number_of
  decrypt_id_lem key [] id laws k n f = absurd (omega (arith, laws.positive))
  decrypt_id_lem key (c ∷ nonce) id laws k n f =
      rw (laws.encode-nonempty c (nonce ++ cipher.sealed key (c ∷ nonce) (format_int id))) (
        rw ((decrypt-encrypt cipher key (c ∷ nonce) (format_int id) laws k n).1)
          (ap number_of (parse_int-format_int int64_cutoff id f)))

  -- In a request whose URL has the id that EncryptID gave for a row under the application's key: Update, Delete,
  -- Restore and Purge of a model go to the database with a condition on the column of its primary key, an
  -- identifier, for that id and with nothing but AND behind it, whatever the scope adds.
  pub base_builder-SelectsRow :
      (method : BaseMethod) (m : Base) (nonce : Text) (id : ℤ)
      → Opens cipher
      → IsKey cipher m.encrypt_key
      → length nonce ≡ cipher.nonce_size
      → Fits int64_cutoff id
      → m.has_context ≡ true
      → m.url_id ≡ token_of cipher m.encrypt_key nonce (format_int id)
      → sanitize_identifier (primary_key_column m.self) ≡ primary_key_column m.self
      → is_nil (primary_key_column m.self) ≡ false
      → (b : Builder) × (base_builder cipher method m ≡ some b)
        × SelectsRow (primary_key_column m.self) id (row_builder (builder_method method) b).wheres
  unfolding base_builder resolve_id_from_url
  base_builder-SelectsRow method m nonce id laws k n f context url safe nonempty =
      let b = where_eq (primary_key_column m.self) (int id) (selecting method m) in
      let found : resolve_id_from_url cipher m ≡ some id =
        ap (λ t. if t then decrypt_id cipher m.encrypt_key m.url_id else none) context
        ∙ ap (decrypt_id cipher m.encrypt_key) url
        ∙ decrypt_id_lem m.encrypt_key nonce id laws k n f in
      (
        b,
        ap (at_id cipher m (selecting method m)) found,
        SelectsRow-row_builder (primary_key_column m.self) id (builder_method method) b (
            wheres-where_eq (primary_key_column m.self) id (selecting method m) safe nonempty
              (wheres-selecting method m)),
      )
