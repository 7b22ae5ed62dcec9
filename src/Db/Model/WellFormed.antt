-- ===== src/Db/Model/WellFormed.antt =====
-- The weights of a builder under the writes of models.
use kiya.Base.{Bool, List, [], ◌∷◌, map, All}
use kiya.Text.{Text, codes}
use kiya.Db.Sanitize.{sanitize_identifier}
use kiya.Db.Builder.{Value, Columns, Action, Builder}
use kiya.Db.Sql.{sorted_keys}
use kiya.Db.Sql.Balanced.{Weight}
use kiya.Db.Sql.Statement.{WellFormed, Silent}
use kiya.Db.Sql.Writing.{Silent-sanitize_identifier}
use kiya.Db.Scope.Laws.{WellFormed-apply_scope}
use kiya.Db.Write.{Result, check_data, check_where, ◌>>◌, ◌>>=◌}
use kiya.Db.Write.Laws.{
  Ensures, holds, fails, Ensures-guard, exec_update-WellFormed, WellFormed-unguarded,
}
use kiya.Db.Model.{
  Model, cached_fields, table_name, struct_to_map, primary_keys_of, auto_inc_col_of,
}
use kiya.Db.Model.Batch.{Silent-sorted_keys, batch_rows-count}
use kiya.Db.Model.Writing.{
  selected_names, sanitized_table, table_or_model, table_for_delete, or_text, or_list, insert_model,
  update_model_scoped, update_model, delete_model_scoped, delete_model, upsert_names,
  upsert_raw_constraint, data_of_models, batch_args, row_placeholder, batch_of, exec_insert_batch,
  ModelWrite, insert_one, upsert_one, update_one, delete_one, purge_one, insert_all, exec_model,
}

-- the step after a table
pub Ensures-bind :
    {P : Builder → Type 0} {Q : Text → Type 0} {r : Result Text} (f : Text → Result Builder)
    → Ensures Q r
    → ((t : Text) → Q t → Ensures P (f t))
    → Ensures P (r >>= f)
Ensures-bind f (holds {c = t} q) h = h t q
Ensures-bind f fails h = fails

module _ (weight : Weight) where
  -- the names of the primary keys, which stand in a statement as they are written in the tags
  abbrev pub ModelFits : Model → Type 0
  ModelFits d = All (Silent weight) (primary_keys_of (cached_fields d.fields))

  abbrev pub WriteFits : ModelWrite → Type 0
  WriteFits (insert_one d) = ModelFits d
  WriteFits (upsert_one d) = ModelFits d
  WriteFits (update_one d skip) = Unit
  WriteFits (delete_one d now skip) = Unit
  WriteFits (purge_one d now skip) = Unit
  WriteFits (insert_all ds) = All ModelFits ds

  sanitized_table-Silent :
      (t : Text) → Silent weight t → Ensures (Silent weight) (sanitized_table t)
  unfolding sanitized_table
  sanitized_table-Silent [] h = fails
  sanitized_table-Silent (c ∷ s) h = holds h

  table_or_model-Silent :
      (t name : Text) → Silent weight t → Ensures (Silent weight) (table_or_model t name)
  unfolding table_or_model
  table_or_model-Silent (c ∷ s) name h = holds h
  table_or_model-Silent [] [] h = fails
  table_or_model-Silent [] (c ∷ s) h =
      sanitized_table-Silent (sanitize_identifier (c ∷ s))
        (Silent-sanitize_identifier weight (c ∷ s))

  table_for_delete-Silent :
      (t name : Text) → Silent weight t → Ensures (Silent weight) (table_for_delete t name)
  unfolding table_for_delete
  table_for_delete-Silent (c ∷ s) name h = holds h
  table_for_delete-Silent [] name h =
      sanitized_table-Silent (sanitize_identifier name) (Silent-sanitize_identifier weight name)

  or_list-Silent :
      (ks js : List Text)
      → All (Silent weight) ks
      → All (Silent weight) js
      → All (Silent weight) (or_list ks js)
  or_list-Silent [] js hk hj = hj
  or_list-Silent (k ∷ ks) js hk hj = hk

  insert_model-Ensures :
      (d : Model) (b : Builder)
      → ModelFits d
      → WellFormed weight b
      → Ensures (WellFormed weight) (insert_model d b)
  unfolding insert_model
  insert_model-Ensures d b hd h =
      let keys =
        or_list-Silent (primary_keys_of (cached_fields d.fields)) b.primary_keys hd
          h.primary_keys in
      Ensures-guard (check_data (struct_to_map d (selected_names b))) (
        Ensures-bind _ (table_or_model-Silent b.table (table_name d) h.table) (λ t ht.
          holds
            {c = record b {
              action = Action.insert;
              inserts = struct_to_map d (selected_names b);
              primary_keys = or_list (primary_keys_of (cached_fields d.fields)) b.primary_keys;
              auto_inc_col = or_text (auto_inc_col_of (cached_fields d.fields)) b.auto_inc_col;
              table = t;
            }}
            (assumption (keys, ht))))

  update_model_scoped-Ensures :
      (d : Model) (skip : Bool) (b : Builder)
      → WellFormed weight b
      → Ensures (WellFormed weight) (update_model_scoped d skip b)
  unfolding update_model_scoped
  update_model_scoped-Ensures d skip b h =
      Ensures-guard (check_where skip b >> check_data (struct_to_map d (selected_names b))) (
        Ensures-bind _ (table_or_model-Silent b.table (table_name d) h.table) (λ t ht.
          holds
            {c = record b {
              action = Action.update;
              updates = struct_to_map d (selected_names b);
              table = t;
            }}
            (assumption ht)))

  update_model-Ensures :
      (d : Model) (skip : Bool) (b : Builder)
      → WellFormed weight b
      → Ensures (WellFormed weight) (update_model d skip b)
  unfolding update_model
  update_model-Ensures d skip b h =
      update_model_scoped-Ensures d skip _ (WellFormed-apply_scope weight b h)

  delete_model_scoped-Ensures :
      (d : Model) (now : Value) (skip : Bool) (soft : Text) (b : Builder)
      → WellFormed weight b
      → Ensures (WellFormed weight) (delete_model_scoped d now skip soft b)
  unfolding delete_model_scoped
  delete_model_scoped-Ensures d now skip (c ∷ s) b h =
      exec_update-WellFormed weight ((codes "deleted_at", now) ∷ []) skip b h
  delete_model_scoped-Ensures d now skip [] b h = Ensures-guard (check_where skip b) (
      Ensures-bind _ (table_for_delete-Silent b.table (table_name d) h.table)
        (λ t ht. holds {c = record b { action = Action.delete; table = t }} (assumption ht)))

  delete_model-Ensures :
      (d : Model) (now : Value) (skip : Bool) (b : Builder)
      → WellFormed weight b
      → Ensures (WellFormed weight) (delete_model d now skip b)
  unfolding delete_model
  delete_model-Ensures d now skip b h =
      delete_model_scoped-Ensures d now skip _ _ (WellFormed-apply_scope weight b h)

  upsert_raw_constraint-Ensures :
      (d : Model) (b : Builder)
      → ModelFits d
      → WellFormed weight b
      → Ensures (WellFormed weight) (upsert_raw_constraint d b)
  unfolding upsert_raw_constraint
  upsert_raw_constraint-Ensures d b hd h =
      insert_model-Ensures d
        (record b {
          on_duplicate_update_cols =
              or_list b.on_duplicate_update_cols (upsert_names (selected_names b) d);
        })
        hd assumption

  batch_of-Ensures :
      (d : Model) (ms : List Columns) (b : Builder)
      → ModelFits d
      → WellFormed weight b
      → Ensures (WellFormed weight) (batch_of d ms b)
  unfolding batch_of
  batch_of-Ensures d [] b hd h = fails
  batch_of-Ensures d (m ∷ ms) b hd h =
      let keys =
        or_list-Silent (primary_keys_of (cached_fields d.fields)) b.primary_keys hd
          h.primary_keys in
      let table = Silent-sanitize_identifier weight (table_name d) in
      let columns = Silent-sorted_keys weight m in
      let rows = batch_rows-count weight (sorted_keys m) (m ∷ ms) in
      holds
        {c = record b {
          action = Action.insert_batch;
          table = sanitize_identifier (table_name d);
          insert_batch_cols = sorted_keys m;
          insert_batch_placeholders = map (λ _. row_placeholder (sorted_keys m)) (m ∷ ms);
          insert_batch_args = batch_args (sorted_keys m) (m ∷ ms);
          primary_keys = or_list (primary_keys_of (cached_fields d.fields)) b.primary_keys;
        }}
        (assumption (keys, table, columns, rows))

  exec_insert_batch-Ensures :
      (ds : List Model) (b : Builder)
      → All ModelFits ds
      → WellFormed weight b
      → Ensures (WellFormed weight) (exec_insert_batch ds b)
  unfolding exec_insert_batch
  exec_insert_batch-Ensures [] b hd h = fails
  exec_insert_batch-Ensures (d ∷ ds) b (hd, hs) h =
      batch_of-Ensures d (data_of_models (d ∷ ds) (selected_names b)) b hd h

  pub exec_model-Ensures :
      (w : ModelWrite) (b : Builder)
      → WriteFits w
      → WellFormed weight b
      → Ensures (WellFormed weight) (exec_model w b)
  unfolding exec_model
  exec_model-Ensures (insert_one d) b hd h = insert_model-Ensures d b hd h
  exec_model-Ensures (upsert_one d) b hd h = upsert_raw_constraint-Ensures d b hd h
  exec_model-Ensures (update_one d skip) b hd h = update_model-Ensures d skip b h
  exec_model-Ensures (delete_one d now skip) b hd h = delete_model-Ensures d now skip b h
  exec_model-Ensures (purge_one d now skip) b hd h =
      delete_model-Ensures d now skip _ (WellFormed-unguarded weight b h)
  exec_model-Ensures (insert_all ds) b hd h = exec_insert_batch-Ensures ds b hd h
