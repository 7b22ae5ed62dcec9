-- ===== src/Db/Model/Writing.antt =====
-- internal/db/builder_write.go and builder.go for an operand that is a model: `execInsertRaw`, `execUpdate`,
-- `execDelete`, `execHardDelete`, `InsertBatch`, `Retain` and `upsertRawConstraint`, up to the call of the executor,
-- which gets the statement of the builder that is returned here.
use kiya.Base.{Bool, true, List, [], ◌∷◌, ◌++◌, map, if◌then◌else◌}
use kiya.Base.Int.{ℤ}
use kiya.Text.{Text, codes, join}
use kiya.Db.Sanitize.{sanitize_identifier}
use kiya.Db.Builder.{Value, int, Columns, Action, Builder, where_not_in}
use kiya.Db.Scope.{apply_scope}
use kiya.Db.Sql.{value_at, sorted_keys}
use kiya.Db.Write.{
  empty_data, table_required, invalid_table_name, Result, ok, err, ◌>>◌, ◌>>=◌, check_data,
  check_where, exec_update,
}
use kiya.Db.Model.{
  Model, cached_fields, table_name, struct_to_map, primary_keys_of, auto_inc_col_of,
  columns_for_upsert,
}
use kiya.Db.Model.Keys.{primary_key_column}

abbrev pub selected_names : Builder → List Text
selected_names b = map (λ s. s.expr) b.selects

-- `SanitizeIdentifier(tableName)`, which must not be empty
unfoldable pub sanitized_table : Text → Result Text
sanitized_table [] = err invalid_table_name
sanitized_table (c ∷ s) = ok (c ∷ s)

-- the table of the builder, or else that of the model
unfoldable pub table_or_model : Text → Text → Result Text
table_or_model (c ∷ s) name = ok (c ∷ s)
table_or_model [] [] = err table_required
table_or_model [] (c ∷ s) = sanitized_table (sanitize_identifier (c ∷ s))

unfoldable pub table_for_delete : Text → Text → Result Text
table_for_delete (c ∷ s) name = ok (c ∷ s)
table_for_delete [] name = sanitized_table (sanitize_identifier name)

abbrev pub or_text : Text → Text → Text
or_text [] t = t
or_text (c ∷ s) t = c ∷ s

abbrev pub or_list : List Text → List Text → List Text
or_list [] ks = ks
or_list (k ∷ ks) _ = k ∷ ks

unfoldable pub insert_model : Model → Builder → Result Builder
insert_model d b =
    let data_map = struct_to_map d (selected_names b) in
    let cs = cached_fields d.fields in
    check_data data_map
    >> (table_or_model b.table (table_name d) >>= λ table. ok (record b {
      action = Action.insert;
      inserts = data_map;
      primary_keys = or_list (primary_keys_of cs) b.primary_keys;
      auto_inc_col = or_text (auto_inc_col_of cs) b.auto_inc_col;
      table = table;
    }))

unfoldable pub update_model_scoped : Model → Bool → Builder → Result Builder
update_model_scoped d skip b =
    let data_map = struct_to_map d (selected_names b) in
    check_where skip b
    >> check_data data_map
    >> (table_or_model b.table (table_name d) >>= λ table.
        ok (record b { action = Action.update; updates = data_map; table = table }))

unfoldable pub update_model : Model → Bool → Builder → Result Builder
update_model d skip b = update_model_scoped d skip (apply_scope b)

unfoldable pub delete_model_scoped : Model → Value → Bool → Text → Builder → Result Builder
delete_model_scoped d now skip (c ∷ s) b = exec_update ((codes "deleted_at", now) ∷ []) skip b
delete_model_scoped d now skip [] b =
    check_where skip b
    >> (table_for_delete b.table (table_name d) >>= λ table.
        ok (record b { action = Action.delete; table = table }))

unfoldable pub delete_model : Model → Value → Bool → Builder → Result Builder
delete_model d now skip b =
    let scoped = apply_scope b in delete_model_scoped d now skip scoped.soft_delete_condition scoped

unfoldable pub hard_delete_model : Model → Builder → Result Builder
hard_delete_model d b = table_for_delete b.table (table_name d) >>= λ table.
    ok (record b { soft_delete_condition = []; action = Action.delete; table = table })

-- the conditions that `Retain` is given are functions on the builder
unfoldable pub apply_wheres : List (Builder → Builder) → Builder → Builder
apply_wheres [] b = b
apply_wheres (w ∷ ws) b = apply_wheres ws (w b)

abbrev pub keep_ids : Text → List ℤ → Builder → Builder
keep_ids column [] b = b
keep_ids column (id ∷ ids) b = where_not_in column (map int (id ∷ ids)) b

-- `Retain` with a model that is bound
unfoldable pub retain :
    Model → Value → List ℤ → Bool → List (Builder → Builder) → Builder → Result Builder
retain d now ids purge wheres b =
    let kept = apply_wheres wheres (keep_ids (primary_key_column d) ids b) in
    let purged = record kept { soft_delete_condition = [] } in
    delete_model d now true (if purge then purged else kept)

abbrev pub upsert_names : List Text → Model → List Text
upsert_names [] d = columns_for_upsert d
upsert_names (c ∷ cs) d = c ∷ cs

-- `upsertRawConstraint` of a struct that is no pointer
unfoldable pub upsert_raw_constraint : Model → Builder → Result Builder
upsert_raw_constraint d b = insert_model d (record b {
  on_duplicate_update_cols = or_list b.on_duplicate_update_cols (upsert_names (selected_names b) d);
})

abbrev keep_nonempty : Columns → List Columns → List Columns
keep_nonempty [] ms = ms
keep_nonempty (e ∷ m) ms = (e ∷ m) ∷ ms

-- `mapDataList`
unfoldable pub data_of_models : List Model → List Text → List Columns
data_of_models [] selected = []
data_of_models (d ∷ ds) selected =
    keep_nonempty (struct_to_map d selected) (data_of_models ds selected)

unfoldable pub batch_args : List Text → List Columns → List Value
batch_args cols [] = []
batch_args cols (m ∷ ms) = map (λ c. value_at c m) cols ++ batch_args cols ms

abbrev pub row_placeholder : List Text → Text
row_placeholder cols = codes "(" ++ join (map (λ _. codes "?") cols) (codes ", ") ++ codes ")"

unfoldable pub batch_of : Model → List Columns → Builder → Result Builder
batch_of first [] b = err empty_data
batch_of first (m ∷ ms) b =
    let cols = sorted_keys m in
    ok (record b {
      action = Action.insert_batch;
      table = sanitize_identifier (table_name first);
      insert_batch_cols = cols;
      insert_batch_placeholders = map (λ _. row_placeholder cols) (m ∷ ms);
      insert_batch_args = batch_args cols (m ∷ ms);
      primary_keys = or_list (primary_keys_of (cached_fields first.fields)) b.primary_keys;
    })

-- `InsertBatch`
unfoldable pub exec_insert_batch : List Model → Builder → Result Builder
exec_insert_batch [] b = err empty_data
exec_insert_batch (first ∷ rest) b =
    batch_of first (data_of_models (first ∷ rest) (selected_names b)) b

-- a call that writes models, with the flag that skips the check for a condition
pub data ModelWrite : Type 0 where
  insert_one upsert_one : Model → ModelWrite
  update_one : Model → Bool → ModelWrite
  delete_one purge_one : Model → Value → Bool → ModelWrite
  insert_all : List Model → ModelWrite

unfoldable pub exec_model : ModelWrite → Builder → Result Builder
exec_model (insert_one d) b = insert_model d b
exec_model (upsert_one d) b = upsert_raw_constraint d b
exec_model (update_one d skip) b = update_model d skip b
exec_model (delete_one d now skip) b = delete_model d now skip b
exec_model (purge_one d now skip) b =
    delete_model d now skip (record b { soft_delete_condition = [] })
exec_model (insert_all ds) b = exec_insert_batch ds b
