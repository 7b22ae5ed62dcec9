-- ===== src/Db/History/Models.antt =====
-- internal/db/history_ops.go and history.go: what a write of a model with history asks the database, and the changes
-- that it records. Values are compared by `reflect.DeepEqual`, an argument.
use kiya.Base.{Bool, true, not, ◌||◌, List, [], ◌∷◌, Option, if◌then◌else◌}
use kiya.Base.Int.{ℤ, pos}
use kiya.Text.{Text, text_eq}
use kiya.Db.Sanitize.{sanitize_identifier}
use kiya.Db.Builder.{Value, Columns, Builder, is_empty, lock, cols, set_limit}
use kiya.Db.Scope.{apply_scope}
use kiya.Db.Write.{Result, ok, err, check_where_required, table_required, Result, ok, err, member}
use kiya.Db.Transaction.{Fault}
use kiya.Db.Model.{Model, cached_fields, column_names, table_name, struct_to_history_map}
use kiya.Db.Model.Keys.{is_none_listed, has_field}
use kiya.Db.Model.Scanning.{Cells}
use kiya.Db.Model.Writing.{selected_names}
use kiya.Db.History.{Affected}

-- the answers of `Get` into a model, and of an INSERT with the id of the row, where there is one
pub data Fetch : Type 0 where
  fetched : Cells → Fetch
  not_fetched : Fetch
  fetch_fault : Fault → Fetch

pub data Inserted : Type 0 where
  inserted : Option ℤ → Inserted
  insert_fault : Fault → Inserted

pub record ModelStatements (W : Type 0) : Type 0 where
  pub fetch : Builder → W → Fetch × W
  pub insert_row : Builder → W → Inserted × W
  pub execute_model : Builder → W → Affected × W

abbrev pub all_columns : List Text → Model → Builder → Builder
all_columns [] d b = cols (column_names (cached_fields d.fields)) b
all_columns (c ∷ names) d b = b

abbrev pub with_table : Text → Builder → Result Builder
with_table [] b = err table_required
with_table (c ∷ s) b = ok (record b { table = c ∷ s })

-- the clone of `Find` whose statement is run
unfoldable pub finding_model : Model → Builder → Result Builder
finding_model d b =
    let scoped = apply_scope b in
    let limited = set_limit (pos 1) scoped in
    let table =
      if is_empty scoped.table then sanitize_identifier (table_name d) else scoped.table in
    if is_empty scoped.raw_query
    then with_table table (all_columns (selected_names scoped) d limited)
    else ok scoped

-- the query of `lockCurrentRow`
unfoldable pub lock_query : Model → Builder → Result Builder
lock_query d b = finding_model d (lock (record b { selects = [] }))

unfoldable pub ensure_aux_col : Model → Text → Text → Builder → Builder
ensure_aux_col self field column b =
    if is_none_listed (selected_names b)
      || not (has_field field self.fields)
      || member column (selected_names b)
    then b
    else cols (column ∷ []) b

-- whether the old value is missing or another one
unfoldable pub has_changed : (Value → Value → Bool) → Text → Value → Columns → Bool
has_changed same key v [] = true
has_changed same key v ((k, w) ∷ old) =
    let rest = has_changed same key v old in if text_eq k key then not (same w v) else rest

unfoldable pub changed_columns : (Value → Value → Bool) → Columns → Columns → Columns
changed_columns same old [] = []
changed_columns same old ((k, v) ∷ m) =
    let rest = changed_columns same old m in
    if has_changed same k v old then (k, v) ∷ rest else rest

unfoldable pub diff_for_history : (Value → Value → Bool) → Model → Model → List Text → Columns
diff_for_history same old self names =
    changed_columns same (struct_to_history_map old names) (struct_to_history_map self names)

-- a call of one of the methods on a model whose row exists
pub data ModelMethod : Type 0 where
  row_update row_upsert row_delete row_restore row_purge : ModelMethod

-- the builder of the transaction
unfoldable pub row_builder : ModelMethod → Builder → Builder
row_builder row_restore b = apply_scope (record b { soft_delete_condition = [] })
row_builder row_purge b = apply_scope (record b { soft_delete_condition = [] })
row_builder _ b = apply_scope b

-- `upsertWithHistory` asks for a condition of its own before the scope
unfoldable pub row_check : ModelMethod → Builder → Result (Unit {0})
row_check row_upsert b = ok tt
row_check _ b = check_where_required b.wheres b.unsafe_allow_empty_where
