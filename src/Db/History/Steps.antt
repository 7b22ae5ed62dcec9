-- ===== src/Db/History/Steps.antt =====
-- internal/db/history_ops.go: the writes of a model with its history. The model is a pointer that the steps read and
-- change, so that it is a part of the world; a rollback leaves it as it is. Warnings in the log are left out.
use kiya.Base.{
  ℕ, zero, suc, Bool, true, false, List, [], ◌∷◌, ◌++◌, Option, none, some, if◌then◌else◌,
}
use kiya.Text.{Text, codes}
use kiya.Db.Builder.{Value, null, text, Columns, Builder, WhereClause}
use kiya.Db.Write.{Result, ok, err, exec_update}
use kiya.Db.Transaction.{Driver, Outcome, returned, Executor, with_tx}
use kiya.Db.Model.{Model, struct_to_history_map}
use kiya.Db.Model.Keys.{
  sync_primary_key, assign_auto_increment_id, has_field, string_field, set_string_field,
  set_actor_field,
}
use kiya.Db.Model.Scanning.{Conversions, scan_map_to_struct, new_model}
use kiya.Db.Model.Writing.{selected_names, insert_model, update_model, hard_delete_model}
use kiya.Db.History.{
  Json, Actor, append_history_json, build_history_entry, HistoryError, database, rejected,
  record_not_found, Affected, rows, exec_fault, then_run, finish,
}
use kiya.Db.History.Models.{
  Fetch, fetched, not_fetched, fetch_fault, Inserted, inserted, insert_fault, ModelStatements,
  lock_query, ModelMethod, row_update, row_upsert, row_delete, row_restore, row_purge, row_builder,
  row_check, ensure_aux_col, diff_for_history,
}

-- a step on the world and the model
abbrev pub Step : Type 0 → Type 0 → Type 0
Step W A = W × Model → A × (W × Model)

unfoldable pub on_world : {W A : Type 0} → (W → A × W) → Step W A
on_world f s = let (a, after) = f s.0 in (a, (after, s.1))

unfoldable pub reading : {W A : Type 0} → (Model → Step W A) → Step W A
reading f s = f s.1 s

unfoldable pub setting : {W A : Type 0} → Model → Step W A → Step W A
setting m f s = f (s.0, m)

-- the answer of `lockCurrentRow`
pub data Locked : Type 0 where
  locked : Model → Locked
  not_locked : Locked
  not_queried : HistoryError → Locked

module _ {W : Type 0} (db : ModelStatements W) (conv : Conversions) where
  abbrev pub RowEnding : Type 0
  RowEnding = Outcome HistoryError

  unfoldable pub locked_row : Model → Fetch → Locked
  locked_row self (fetched cells) = locked (scan_map_to_struct conv cells (new_model self))
  locked_row self not_fetched = not_locked
  locked_row self (fetch_fault f) = not_queried (database f)

  unfoldable pub run_lock : Model → Result Builder → Step W Locked
  run_lock self (err e) = finish (not_queried (rejected e))
  run_lock self (ok b) = then_run (on_world (db.fetch b)) (λ a. finish (locked_row self a))

  unfoldable pub lock_current_row : Builder → Step W Locked
  lock_current_row tb = reading (λ self. run_lock self (lock_query self tb))

  unfoldable pub synced : Model → Step W RowEnding
  synced old = reading (λ self. setting (sync_primary_key self old) (finish (returned none)))

  unfoldable pub need_model_rows : Model → Affected → Step W RowEnding
  need_model_rows old (exec_fault f) = finish (returned (some (database f)))
  need_model_rows old (rows zero) = finish (returned (some record_not_found))
  need_model_rows old (rows (suc n)) = synced old

  unfoldable pub any_model_rows : Model → Affected → Step W RowEnding
  any_model_rows old (exec_fault f) = finish (returned (some (database f)))
  any_model_rows old (rows n) = synced old

  -- a statement, and what follows its number of rows
  unfoldable pub run_rows : (Affected → Step W RowEnding) → Result Builder → Step W RowEnding
  run_rows next (err e) = finish (returned (some (rejected e)))
  run_rows next (ok b) = then_run (on_world (db.execute_model b)) next

  unfoldable pub for_locked : (Model → Step W RowEnding) → Locked → Step W RowEnding
  for_locked next (not_queried e) = finish (returned (some e))
  for_locked next not_locked = finish (returned (some record_not_found))
  for_locked next (locked old) = next old

  -- `lockCurrentRow` and what follows it
  unfoldable pub with_row : (Model → Step W RowEnding) → Builder → Step W RowEnding
  with_row next tb = then_run (lock_current_row tb) (for_locked next)

  module _ (same : Value → Value → Bool) (json : Json) (actor : Actor) (now : ℕ) where
    abbrev pub entry_text : Text → Columns → Text → Text
    entry_text action changes existing =
        append_history_json json existing (build_history_entry action changes actor now)

    -- `historyFieldIndex` of one model, and `setHistoryString` of another of its type
    abbrev pub with_entry : Text → Columns → Option Text → Model → Model
    with_entry action changes none self = self
    with_entry action changes (some hist) self = record self {
      fields = set_string_field (codes "History") (entry_text action changes hist) self.fields;
    }

    abbrev pub ensured : Option Text → Model → Builder → Builder
    ensured none self b = b
    ensured (some hist) self b = ensure_aux_col self (codes "History") (codes "history") b

    -- `setActorField` under `hasField`
    unfoldable pub stamped : Text → Model → Model
    stamped field self =
        if has_field field self.fields
        then record self { fields = set_actor_field field actor.name self.fields }
        else self

    abbrev pub history_of : Model → Option Text
    history_of m = string_field (codes "History") m.fields

    abbrev pub tracked_history : Builder → Columns → Model → Option Text
    tracked_history b [] old = none
    tracked_history b (e ∷ changes) old =
        if b.history_tracking_disabled then none else history_of old

    -- the model and the builder before the UPDATE of `updateExistingOrNotFound`
    unfoldable pub updated_model : Model → Builder → Model → Model
    updated_model old tb self =
        let changes = diff_for_history same old self (selected_names tb) in
        stamped (codes "ModifiedBy")
          (with_entry (codes "modified") changes (tracked_history tb changes old) self)

    unfoldable pub updating_builder : Model → Builder → Model → Builder
    updating_builder old tb self =
        let changes = diff_for_history same old self (selected_names tb) in
        ensure_aux_col self (codes "ModifiedBy") (codes "modified_by")
          (ensured (tracked_history tb changes old) self tb)

    unfoldable pub update_locked : Builder → Model → Step W RowEnding
    update_locked tb old = reading (λ self. setting (updated_model old tb self) (
        run_rows (need_model_rows old)
          (update_model (updated_model old tb self) true (updating_builder old tb self))))

    unfoldable pub update_existing_or_not_found : Builder → Step W RowEnding
    update_existing_or_not_found tb = with_row (update_locked tb) tb

    -- a value for the time of `nowFunc`
    abbrev pub model_time : Value
    model_time = Value.other false now

    -- the columns of a soft delete or a restore: `by` is the value of deleted_by
    abbrev by_column : Bool → Value → Columns
    by_column true by = (codes "deleted_by", by) ∷ []
    by_column false by = []

    abbrev entry_column : Text → Option Text → Columns
    entry_column action none = []
    entry_column action (some hist) = (codes "history", text (entry_text action [] hist)) ∷ []

    unfoldable pub mark_columns : Text → Value → Value → Builder → Model → Model → Columns
    mark_columns action at by tb old self =
        let hist = if tb.history_tracking_disabled then none else history_of old in
        (codes "deleted_at", at) ∷ by_column (has_field (codes "DeletedBy") self.fields) by
        ++ entry_column action hist

    unfoldable pub mark_locked : Text → Value → Value → Builder → Model → Step W RowEnding
    mark_locked action at by tb old = reading (λ self.
        run_rows (need_model_rows old)
          (exec_update (mark_columns action at by tb old self) true (record tb { selects = [] })))

    unfoldable pub remove_locked : Builder → Model → Step W RowEnding
    remove_locked tb old =
        reading (λ self. run_rows (any_model_rows old) (hard_delete_model self tb))

    unfoldable pub delete_locked : Text → Builder → Model → Step W RowEnding
    delete_locked [] tb old = remove_locked tb old
    delete_locked (c ∷ s) tb old = mark_locked (codes "deleted") model_time (text actor.name) tb old

    -- what runs in the transaction
    unfoldable pub row_body : ModelMethod → Builder → Step W RowEnding
    row_body row_update tb = update_existing_or_not_found tb
    row_body row_upsert tb = update_existing_or_not_found tb
    row_body row_delete tb = with_row (delete_locked tb.soft_delete_condition tb) tb
    row_body row_restore tb = with_row (mark_locked (codes "restored") null null tb) tb
    row_body row_purge tb = with_row (remove_locked tb) tb

    unfoldable pub checked_row_tx :
        Driver (W × Model) → Executor → Step W RowEnding → Result (Unit {0}) → Step W RowEnding
    checked_row_tx driver executor fn (err e) = finish (returned (some (rejected e)))
    checked_row_tx driver executor fn (ok u) = with_tx driver database executor fn

    unfoldable pub row_with_history :
        ModelMethod → Driver (W × Model) → Executor → Builder → Step W RowEnding
    row_with_history method driver executor b =
        let tb = row_builder method b in
        checked_row_tx driver executor (row_body method tb) (row_check method tb)

    -- the history of a new row starts empty
    abbrev blank : Option Text → Option Text
    blank none = none
    blank (some hist) = some []

    -- `insertWithHistory`: the model and the builder of the INSERT
    abbrev pub created_history : Builder → Model → Option Text
    created_history b self = if b.history_tracking_disabled then none else blank (history_of self)

    unfoldable pub inserted_model : Builder → Model → Model
    inserted_model b self =
        let changes = struct_to_history_map self (selected_names b) in
        stamped (codes "CreatedBy")
          (with_entry (codes "created") changes (created_history b self) self)

    unfoldable pub inserting_builder : Builder → Model → Builder
    inserting_builder b self =
        ensure_aux_col self (codes "CreatedBy") (codes "created_by")
          (ensured (created_history b self) self b)

    unfoldable pub assigned : Inserted → Step W RowEnding
    assigned (insert_fault f) = finish (returned (some (database f)))
    assigned (inserted none) = finish (returned none)
    assigned (inserted (some id)) =
        reading (λ self. setting (assign_auto_increment_id id self) (finish (returned none)))

    unfoldable pub run_insert : Result Builder → Step W RowEnding
    run_insert (err e) = finish (returned (some (rejected e)))
    run_insert (ok b) = then_run (on_world (db.insert_row b)) assigned

    unfoldable pub insert_with_history : Builder → Step W RowEnding
    insert_with_history b = reading (λ self.
        setting (inserted_model b self)
          (run_insert (insert_model (inserted_model b self) (inserting_builder b self))))

    unfoldable pub upsert_with_history :
        Driver (W × Model) → Executor → List WhereClause → Builder → Step W RowEnding
    upsert_with_history driver executor [] b = insert_with_history b
    upsert_with_history driver executor (w ∷ ws) b = row_with_history row_upsert driver executor b
