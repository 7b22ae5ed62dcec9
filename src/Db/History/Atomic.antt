-- ===== src/Db/History/Atomic.antt =====
-- The writes with history in a transaction: the history and the row change together or not at all.
use kiya.Base.{ℕ, zero, suc, ◌≡◌, refl, ◌∙◌, [], ◌∷◌, Option, none}
use kiya.Text.{Text}
use kiya.Db.Builder.{Columns, Builder}
use kiya.Db.Scope.{apply_scope}
use kiya.Db.Write.{Result, ok, err, check_where_required}
use kiya.Db.Read.{exec_exist}
use kiya.Db.Transaction.{Driver, connection}
use kiya.Db.Transaction.Atomic.{IsTransactional, Within, Ended, refused, last_world, with_tx-Ended}
use kiya.Db.History.{
  Json, Actor, database, rejected, Lookup, found, no_row, lookup_fault, Affected, rows, exec_fault,
  Statements, then_run, finish, history_query, HistoryEnding, need_rows, run_update,
  write_with_history, change_row, ignore_rows, run_delete, delete_if_exists, delete_existing,
  update_row, delete_row, restore_row, checked_tx, scoped_tx, update_map_with_history,
  delete_raw_with_history, restore_raw_with_history,
}

module _ {W D : Type 0} (view : W → D) (open_data : W → Option D) where
  pub Within-finish : {A : Type 0} (a : A) → Within view open_data (finish a)
  unfolding finish
  Within-finish a = record { view_kept = λ w. refl; stays_open = λ w d o. (d, o) }

  pub Within-then_run :
      {A B : Type 0} (f : W → A × W) (g : A → W → B × W)
      → Within view open_data f
      → ((a : A) → Within view open_data (g a))
      → Within view open_data (then_run f g)
  unfolding then_run
  Within-then_run f g hf hg = record {
    view_kept = λ w. (hg (f w).0).view_kept (f w).1 ∙ hf.view_kept w;
    stays_open =
        λ w d o. let (e, still) = hf.stays_open w d o in (hg (f w).0).stays_open (f w).1 e still;
  }

  -- the statements of the executor run in its transaction
  pub record RunsWithin (db : Statements W) : Type 0 where
    pub get_row-Within : (b : Builder) → Within view open_data (db.get_row b)
    pub execute-Within : (b : Builder) → Within view open_data (db.execute b)

  module _ (db : Statements W) (laws : RunsWithin db) where
    Within-need_rows : (a : Affected) → Within view open_data (need_rows db a)
    unfolding need_rows
    Within-need_rows (exec_fault f) = Within-finish _
    Within-need_rows (rows zero) = Within-finish _
    Within-need_rows (rows (suc n)) = Within-finish _

    Within-run_update : (r : Result Builder) → Within view open_data (run_update db r)
    unfolding run_update
    Within-run_update (err e) = Within-finish _
    Within-run_update (ok b) =
        Within-then_run (db.execute b) (need_rows db) (laws.execute-Within b) Within-need_rows

    Within-write_with_history :
        (data_of : Text → Columns) (tb : Builder) (l : Lookup)
        → Within view open_data (write_with_history db data_of tb l)
    unfolding write_with_history
    Within-write_with_history data_of tb (lookup_fault f) = Within-finish _
    Within-write_with_history data_of tb no_row = Within-finish _
    Within-write_with_history data_of tb (found hist) = Within-run_update _

    Within-change_row :
        (data_of : Text → Columns) (tb : Builder) → Within view open_data (change_row db data_of tb)
    unfolding change_row
    Within-change_row data_of tb =
        Within-then_run (db.get_row (history_query tb)) (write_with_history db data_of tb)
          (laws.get_row-Within (history_query tb)) (Within-write_with_history data_of tb)

    Within-ignore_rows : (a : Affected) → Within view open_data (ignore_rows db a)
    unfolding ignore_rows
    Within-ignore_rows (exec_fault f) = Within-finish _
    Within-ignore_rows (rows n) = Within-finish _

    Within-run_delete : (r : Result Builder) → Within view open_data (run_delete db r)
    unfolding run_delete
    Within-run_delete (err e) = Within-finish _
    Within-run_delete (ok b) =
        Within-then_run (db.execute b) (ignore_rows db) (laws.execute-Within b) Within-ignore_rows

    Within-delete_if_exists :
        (tb : Builder) (l : Lookup) → Within view open_data (delete_if_exists db tb l)
    unfolding delete_if_exists
    Within-delete_if_exists tb (lookup_fault f) = Within-finish _
    Within-delete_if_exists tb no_row = Within-finish _
    Within-delete_if_exists tb (found s) = Within-run_delete _

    Within-delete_existing :
        (tb : Builder) (r : Result Builder) → Within view open_data (delete_existing db tb r)
    unfolding delete_existing
    Within-delete_existing tb (err e) = Within-finish _
    Within-delete_existing tb (ok b) =
        Within-then_run (db.get_row b) (delete_if_exists db tb) (laws.get_row-Within b)
          (Within-delete_if_exists tb)

    module _ (json : Json) (actor : Actor) (now : ℕ) where
      Within-update_row :
          (m : Columns) (tb : Builder) → Within view open_data (update_row db json actor now m tb)
      unfolding update_row
      Within-update_row m tb = Within-change_row _ tb

      Within-delete_row :
          (condition : Text) (tb : Builder)
          → Within view open_data (delete_row db json actor now condition tb)
      unfolding delete_row
      Within-delete_row [] tb = Within-delete_existing tb (exec_exist tb)
      Within-delete_row (c ∷ s) tb = Within-change_row _ tb

      Within-restore_row : (tb : Builder) → Within view open_data (restore_row db json actor now tb)
      unfolding restore_row
      Within-restore_row tb = Within-change_row _ tb

-- a call of one of the three methods
pub data Method : Type 0 where
  updating : Columns → Method
  deleting restoring : Method

module _ {W : Type 0} (db : Statements W) (json : Json) (actor : Actor) (now : ℕ) where
  unfoldable pub exec_with_history : Method → Driver W → Builder → W → HistoryEnding db × W
  exec_with_history (updating m) driver =
      update_map_with_history db json actor now driver connection m
  exec_with_history deleting driver = delete_raw_with_history db json actor now driver connection
  exec_with_history restoring driver = restore_raw_with_history db json actor now driver connection

  -- the builder of the transaction, and what runs in it
  abbrev pub tx_builder : Method → Builder → Builder
  tx_builder (updating m) b = apply_scope b
  tx_builder deleting b = apply_scope b
  tx_builder restoring b = apply_scope (record b { soft_delete_condition = [] })

  abbrev pub tx_body : Method → Builder → W → HistoryEnding db × W
  tx_body (updating m) tb = update_row db json actor now m tb
  tx_body deleting tb = delete_row db json actor now tb.soft_delete_condition tb
  tx_body restoring tb = restore_row db json actor now tb

  -- the three methods as one transaction each
  pub exec_with_history_lem :
      (method : Method) (driver : Driver W) (b : Builder)
      → exec_with_history method driver b
        ≡ scoped_tx db json actor now driver connection (tx_body method) (tx_builder method b)
  unfolding exec_with_history update_map_with_history delete_raw_with_history
      restore_raw_with_history
  exec_with_history_lem (updating m) driver b = refl
  exec_with_history_lem deleting driver b = refl
  exec_with_history_lem restoring driver b = refl

  module _ {D : Type 0} (driver : Driver W) (view : W → D) (open_data : W → Option D) where
    -- no transaction is open, and the data are those that the answer tells of
    abbrev pub IsAtomic : (W → HistoryEnding db × W) → W → HistoryEnding db × W → Type 0
    IsAtomic fn w after =
        (open_data after.1 ≡ none)
        × Ended view open_data (view w) (last_world driver database view open_data fn w)
            (view after.1) after.0

    checked_tx-IsAtomic :
        (fn : W → HistoryEnding db × W) (w : W) (r : Result (Unit {0}))
        → IsTransactional driver view open_data
        → Within view open_data fn
        → open_data w ≡ none
        → IsAtomic fn w (checked_tx db json actor now driver connection fn r w)
    unfolding checked_tx finish
    checked_tx-IsAtomic fn w (err e) laws within o = (o, refused (rejected e) refl)
    checked_tx-IsAtomic fn w (ok u) laws within o =
        with_tx-Ended driver database view open_data fn w laws within o

    Within-tx_body :
        (method : Method) (tb : Builder)
        → RunsWithin view open_data db
        → Within view open_data (tx_body method tb)
    Within-tx_body (updating m) tb laws =
        Within-update_row view open_data db laws json actor now m tb
    Within-tx_body deleting tb laws =
        Within-delete_row view open_data db laws json actor now tb.soft_delete_condition tb
    Within-tx_body restoring tb laws = Within-restore_row view open_data db laws json actor now tb

    -- An update from a map, a delete without a model and a restore, with history and on a connection without
    -- an open transaction, whose driver keeps transactions apart and whose statements run in them: none is
    -- left open; an answer without an error means that the row and its history are as the statements
    -- left them, and after any error, a missing row among them, the data are those from before.
    pub exec_with_history-IsAtomic :
        (method : Method) (b : Builder) (w : W)
        → IsTransactional driver view open_data
        → RunsWithin view open_data db
        → open_data w ≡ none
        → IsAtomic (tx_body method (tx_builder method b)) w (exec_with_history method driver b w)
    unfolding scoped_tx
    exec_with_history-IsAtomic method b w laws runs o =
        let tb = tx_builder method b in
        rw (exec_with_history_lem method driver b) (
          checked_tx-IsAtomic (tx_body method tb) w
            (check_where_required tb.wheres tb.unsafe_allow_empty_where) laws
            (Within-tx_body method tb runs) o)
