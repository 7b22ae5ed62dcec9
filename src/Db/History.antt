-- ===== src/Db/History.antt =====
-- internal/db/history.go and history_ops.go: an insert and an update from a map, a delete and a restore without a model, with the
-- history of the row. encoding/json, the clock, the actor and the answers of the database are arguments. The
-- writes of models are those of Models and Steps.
pub mod Atomic
pub mod Recorded
pub mod Models
pub mod Steps
pub mod Transactions
pub mod Column
pub mod Audit
pub mod Tests
pub mod UserTests
use kiya.Base.{
  ℕ, zero, suc, Bool, true, false, List, [], ◌∷◌, ◌++◌, Option, none, some, if◌then◌else◌,
}
use kiya.Base.Int.{ℤ, pos}
use kiya.Text.{Text, codes, text_eq}
use kiya.Db.Builder.{Value, null, text, Columns, Action, Builder, is_empty, lock, cols, set_limit}
use kiya.Db.Scope.{apply_scope}
use kiya.Db.Write.{
  Error, Result, ok, err, ◌>>◌, check_table, check_where_required, exec_insert, exec_update,
}
use kiya.Db.Read.{exec_exist}
use kiya.Db.Transaction.{Fault, Driver, Outcome, returned, Executor, with_tx}

-- `HistoryEntry`; `changes` is empty where the code has nil
pub record HistoryEntry : Type 0 where
  pub action : Text
  pub changes : Columns
  pub actor_id : Value
  pub actor_name : Text
  pub at : ℕ

-- `json.Unmarshal` into a list of entries, whose error leaves it as it is read, and `json.Marshal`
pub record Json : Type 0 where
  pub unmarshal : Text → List HistoryEntry
  pub marshal : List HistoryEntry → Option Text

unfoldable pub entries_of : Json → Text → List HistoryEntry
entries_of json [] = []
entries_of json (c ∷ s) = json.unmarshal (c ∷ s)

unfoldable pub marshalled : Text → Option Text → Text
marshalled existing none = existing
marshalled existing (some t) = t

unfoldable pub append_history_json : Json → Text → HistoryEntry → Text
append_history_json json existing entry =
    marshalled existing (json.marshal (entries_of json existing ++ entry ∷ []))

-- `CurrentUser` of the resources, or nil and an empty name
pub record Actor : Type 0 where
  pub id : Value
  pub name : Text

unfoldable pub build_history_entry : Text → Columns → Actor → ℕ → HistoryEntry
build_history_entry action changes actor now = record {
  action = action;
  changes = changes;
  actor_id = actor.id;
  actor_name = actor.name;
  at = now;
}

pub data HistoryError : Type 0 where
  database : Fault → HistoryError
  rejected : Error → HistoryError
  record_not_found : HistoryError
  history_column : Fault → HistoryError

-- the answers of `Get`: into a row with a history, and of a row at all
pub data Lookup : Type 0 where
  found : Text → Lookup
  no_row : Lookup
  lookup_fault : Fault → Lookup

-- the answer of `Exec` with its number of rows
pub data Affected : Type 0 where
  rows : ℕ → Affected
  exec_fault : Fault → Affected

-- The executor: the statement of a builder is run in a world.
pub record Statements (W : Type 0) : Type 0 where
  pub get_row : Builder → W → Lookup × W
  pub execute : Builder → W → Affected × W

-- one step after the other, and the end without a step
unfoldable pub then_run : {W A B : Type 0} → (W → A × W) → (A → W → B × W) → W → B × W
then_run f g w = let (a, after) = f w in g a after

unfoldable pub finish : {W A : Type 0} → A → W → A × W
finish a w = (a, w)

-- `newData[key] = value`
unfoldable pub set_column : Text → Value → Columns → Columns
set_column key v [] = (key, v) ∷ []
set_column key v ((k, w) ∷ m) =
    let rest = set_column key v m in if text_eq k key then (key, v) ∷ m else (k, w) ∷ rest

-- `Find` into a `historyOnlyRow`, which gives its name where the builder has no table
unfoldable pub finding_row : Builder → Builder
finding_row b =
    let limited = set_limit (pos 1) b in
    if is_empty b.raw_query
    then (if is_empty limited.table
        then record limited { table = codes "history_only_row" }
        else limited)
    else b

-- the clone of `loadRawHistoryColumn(true)` whose statement is run
unfoldable pub history_query : Builder → Builder
history_query b =
    finding_row (apply_scope (lock (cols (codes "history" ∷ []) (record b { selects = [] }))))

-- the clone of `execHardDelete(nil)`
unfoldable pub hard_delete : Builder → Result Builder
hard_delete b =
    check_table b.table >> ok (record b { soft_delete_condition = []; action = Action.delete })

module _ {W : Type 0} (db : Statements W) where
  abbrev pub HistoryEnding : Type 0
  HistoryEnding = Outcome HistoryError

  abbrev pub fails : HistoryError → W → HistoryEnding × W
  fails e = finish (returned (some e))

  unfoldable pub need_rows : Affected → W → HistoryEnding × W
  need_rows (exec_fault f) = fails (database f)
  need_rows (rows zero) = fails record_not_found
  need_rows (rows (suc n)) = finish (returned none)

  unfoldable pub run_update : Result Builder → W → HistoryEnding × W
  run_update (err e) = fails (rejected e)
  run_update (ok b) = then_run (db.execute b) need_rows

  -- what follows the history of the row: the write of the columns that it gives
  unfoldable pub write_with_history : (Text → Columns) → Builder → Lookup → W → HistoryEnding × W
  write_with_history data_of tb (lookup_fault f) = fails (history_column f)
  write_with_history data_of tb no_row = fails record_not_found
  write_with_history data_of tb (found hist) =
      run_update (exec_update (data_of hist) true (record tb { selects = [] }))

  unfoldable pub change_row : (Text → Columns) → Builder → W → HistoryEnding × W
  change_row data_of tb = then_run (db.get_row (history_query tb)) (write_with_history data_of tb)

  -- any number of rows will do after a hard delete
  unfoldable pub ignore_rows : Affected → W → HistoryEnding × W
  ignore_rows (exec_fault f) = fails (database f)
  ignore_rows (rows n) = finish (returned none)

  unfoldable pub run_delete : Result Builder → W → HistoryEnding × W
  run_delete (err e) = fails (rejected e)
  run_delete (ok b) = then_run (db.execute b) ignore_rows

  unfoldable pub delete_if_exists : Builder → Lookup → W → HistoryEnding × W
  delete_if_exists tb (lookup_fault f) = fails (database f)
  delete_if_exists tb no_row = fails record_not_found
  delete_if_exists tb (found s) = run_delete (hard_delete tb)

  unfoldable pub delete_existing : Builder → Result Builder → W → HistoryEnding × W
  delete_existing tb (err e) = fails (rejected e)
  delete_existing tb (ok b) = then_run (db.get_row b) (delete_if_exists tb)

  module _ (json : Json) (actor : Actor) (now : ℕ) where
    unfoldable pub with_history : Text → Columns → Columns → Text → Columns
    with_history action changes columns hist =
        set_column (codes "history")
          (text (append_history_json json hist (build_history_entry action changes actor now)))
          columns

    -- a value for the time of `nowFunc`
    abbrev pub time_value : Value
    time_value = Value.other false now

    unfoldable pub update_row : Columns → Builder → W → HistoryEnding × W
    update_row m = change_row (with_history (codes "modified") m m)

    unfoldable pub delete_row : Text → Builder → W → HistoryEnding × W
    delete_row [] tb = delete_existing tb (exec_exist tb)
    delete_row (c ∷ s) tb =
        change_row (with_history (codes "deleted") [] ((codes "deleted_at", time_value) ∷ [])) tb

    unfoldable pub restore_row : Builder → W → HistoryEnding × W
    restore_row = change_row (with_history (codes "restored") [] ((codes "deleted_at", null) ∷ []))

    -- the INSERT, whose row starts its history
    unfoldable pub insert_map_with_history : Columns → Builder → Result Builder
    insert_map_with_history m = exec_insert (with_history (codes "created") m m [])

    unfoldable pub checked_tx :
        Driver W → Executor → (W → HistoryEnding × W) → Result (Unit {0}) → W → HistoryEnding × W
    checked_tx driver executor fn (err e) = fails (rejected e)
    checked_tx driver executor fn (ok u) = with_tx driver database executor fn

    -- the three methods, from the builder after `applyScope`
    unfoldable pub scoped_tx :
        Driver W → Executor → (Builder → W → HistoryEnding × W) → Builder → W → HistoryEnding × W
    scoped_tx driver executor fn b =
        checked_tx driver executor (fn b) (check_where_required b.wheres b.unsafe_allow_empty_where)

    unfoldable pub update_map_with_history :
        Driver W → Executor → Columns → Builder → W → HistoryEnding × W
    update_map_with_history driver executor m b =
        scoped_tx driver executor (update_row m) (apply_scope b)

    unfoldable pub delete_raw_with_history : Driver W → Executor → Builder → W → HistoryEnding × W
    delete_raw_with_history driver executor b =
        scoped_tx driver executor (λ tb. delete_row tb.soft_delete_condition tb) (apply_scope b)

    unfoldable pub restore_raw_with_history : Driver W → Executor → Builder → W → HistoryEnding × W
    restore_raw_with_history driver executor b =
        scoped_tx driver executor restore_row
          (apply_scope (record b { soft_delete_condition = [] }))
