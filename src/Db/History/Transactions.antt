-- ===== src/Db/History/Transactions.antt =====
-- The writes of a model with history in a transaction, on a world with a model that is not rolled back.
use kiya.Base.{ℕ, zero, suc, ◌≡◌, refl, Bool, [], ◌∷◌, Option, none}
use kiya.Text.{Text}
use kiya.Db.Builder.{Value, Builder}
use kiya.Db.Write.{Result, ok, err}
use kiya.Db.Transaction.{Fault, Outcome, Driver, connection}
use kiya.Db.Transaction.Atomic.{IsTransactional, Within, Ended, refused, last_world, with_tx-Ended}
use kiya.Db.Model.{Model}
use kiya.Db.Model.Scanning.{Conversions}
use kiya.Db.History.{Json, Actor, database, rejected, Affected, rows, exec_fault, then_run, finish}
use kiya.Db.History.Atomic.{Within-finish, Within-then_run}
use kiya.Db.History.Models.{
  ModelStatements, lock_query, ModelMethod, row_update, row_upsert, row_delete, row_restore,
  row_purge, row_builder, row_check,
}
use kiya.Db.History.Steps.{
  RowEnding, Step, on_world, reading, setting, Locked, locked, not_locked, not_queried, locked_row,
  run_lock, lock_current_row, synced, need_model_rows, any_model_rows, run_rows, for_locked,
  with_row, update_locked, update_existing_or_not_found, mark_locked, remove_locked, delete_locked,
  row_body, checked_row_tx, row_with_history,
}

-- a driver that leaves the model alone
unfoldable pub driver_with_model : {W : Type 0} → Driver W → Driver (W × Model)
unfolding on_world
driver_with_model driver = record {
  begin = on_world driver.begin;
  commit = on_world driver.commit;
  rollback = on_world driver.rollback;
}

module _ {W D : Type 0} (view : W → D) (open_data : W → Option D) where
  abbrev pub model_view : W × Model → D
  model_view s = view s.0

  abbrev pub model_open : W × Model → Option D
  model_open s = open_data s.0

  -- the statements of the executor run in its transaction
  pub record RunModelsWithin (db : ModelStatements W) : Type 0 where
    pub fetch-Within : (b : Builder) → Within view open_data (db.fetch b)
    pub execute_model-Within : (b : Builder) → Within view open_data (db.execute_model b)

  driver_with_model-IsTransactional :
      (driver : Driver W)
      → IsTransactional driver view open_data
      → IsTransactional (driver_with_model driver) model_view model_open
  unfolding driver_with_model on_world
  driver_with_model-IsTransactional driver laws = record {
    begin-open = λ s. laws.begin-open s.0;
    begin-view = λ s. laws.begin-view s.0;
    begin-fault = λ s. laws.begin-fault s.0;
    commit-view = λ s. laws.commit-view s.0;
    commit-fault = λ s. laws.commit-fault s.0;
    commit-open = λ s. laws.commit-open s.0;
    rollback-view = λ s. laws.rollback-view s.0;
    rollback-open = λ s. laws.rollback-open s.0;
  }

  abbrev InModel : {A : Type 0} → Step W A → Type 0
  InModel f = Within model_view model_open f

  InModel-finish : {A : Type 0} (a : A) → InModel (finish a)
  InModel-finish a = Within-finish model_view model_open a

  InModel-then_run :
      {A B : Type 0} (f : Step W A) (g : A → Step W B)
      → InModel f
      → ((a : A) → InModel (g a))
      → InModel (then_run f g)
  InModel-then_run f g = Within-then_run model_view model_open f g

  InModel-on_world : {A : Type 0} (f : W → A × W) → Within view open_data f → InModel (on_world f)
  unfolding on_world
  InModel-on_world f h = record {
    view_kept = λ s. h.view_kept s.0;
    stays_open = λ s. h.stays_open s.0;
  }

  InModel-reading :
      {A : Type 0} (f : Model → Step W A) → ((m : Model) → InModel (f m)) → InModel (reading f)
  unfolding reading
  InModel-reading f h = record {
    view_kept = λ s. (h s.1).view_kept s;
    stays_open = λ s. (h s.1).stays_open s;
  }

  InModel-setting : {A : Type 0} (m : Model) (f : Step W A) → InModel f → InModel (setting m f)
  unfolding setting
  InModel-setting m f h = record {
    view_kept = λ s. h.view_kept (s.0, m);
    stays_open = λ s. h.stays_open (s.0, m);
  }

  module _ (db : ModelStatements W) (conv : Conversions) (laws : RunModelsWithin db) where
    InModel-run_lock : (self : Model) (r : Result Builder) → InModel (run_lock db conv self r)
    unfolding run_lock
    InModel-run_lock self (err e) = InModel-finish _
    InModel-run_lock self (ok b) =
        InModel-then_run _ _ (InModel-on_world (db.fetch b) (laws.fetch-Within b))
          (λ a. InModel-finish (locked_row db conv self a))

    InModel-lock_current_row : (tb : Builder) → InModel (lock_current_row db conv tb)
    unfolding lock_current_row
    InModel-lock_current_row tb =
        InModel-reading _ (λ self. InModel-run_lock self (lock_query self tb))

    InModel-synced : (old : Model) → InModel (synced db conv old)
    unfolding synced
    InModel-synced old = InModel-reading _ (λ self. InModel-setting _ _ (InModel-finish _))

    InModel-need_model_rows : (old : Model) (a : Affected) → InModel (need_model_rows db conv old a)
    unfolding need_model_rows
    InModel-need_model_rows old (exec_fault f) = InModel-finish _
    InModel-need_model_rows old (rows zero) = InModel-finish _
    InModel-need_model_rows old (rows (suc n)) = InModel-synced old

    InModel-any_model_rows : (old : Model) (a : Affected) → InModel (any_model_rows db conv old a)
    unfolding any_model_rows
    InModel-any_model_rows old (exec_fault f) = InModel-finish _
    InModel-any_model_rows old (rows n) = InModel-synced old

    InModel-run_rows :
        (next : Affected → Step W (RowEnding db conv)) (r : Result Builder)
        → ((a : Affected) → InModel (next a))
        → InModel (run_rows db conv next r)
    unfolding run_rows
    InModel-run_rows next (err e) h = InModel-finish _
    InModel-run_rows next (ok b) h =
        InModel-then_run _ next
          (InModel-on_world (db.execute_model b) (laws.execute_model-Within b)) h

    InModel-for_locked :
        (next : Model → Step W (RowEnding db conv)) (l : Locked)
        → ((m : Model) → InModel (next m))
        → InModel (for_locked db conv next l)
    unfolding for_locked
    InModel-for_locked next (not_queried e) h = InModel-finish _
    InModel-for_locked next not_locked h = InModel-finish _
    InModel-for_locked next (locked m) h = h m

    InModel-with_row :
        (next : Model → Step W (RowEnding db conv)) (tb : Builder)
        → ((m : Model) → InModel (next m))
        → InModel (with_row db conv next tb)
    unfolding with_row
    InModel-with_row next tb h =
        InModel-then_run _ _ (InModel-lock_current_row tb) (λ l. InModel-for_locked next l h)

    module _ (same : Value → Value → Bool) (json : Json) (actor : Actor) (now : ℕ) where
      InModel-update_existing :
          (tb : Builder) → InModel (update_existing_or_not_found db conv same json actor now tb)
      unfolding update_existing_or_not_found update_locked
      InModel-update_existing tb = InModel-with_row _ tb (λ old.
          InModel-reading _
            (λ self. InModel-setting _ _ (InModel-run_rows _ _ (InModel-need_model_rows old))))

      InModel-mark_locked :
          (action : Text) (at by : Value) (tb : Builder) (old : Model)
          → InModel (mark_locked db conv same json actor now action at by tb old)
      unfolding mark_locked
      InModel-mark_locked action at by tb old =
          InModel-reading _ (λ self. InModel-run_rows _ _ (InModel-need_model_rows old))

      InModel-remove_locked :
          (tb : Builder) (old : Model) → InModel (remove_locked db conv same json actor now tb old)
      unfolding remove_locked
      InModel-remove_locked tb old =
          InModel-reading _ (λ self. InModel-run_rows _ _ (InModel-any_model_rows old))

      InModel-delete_locked :
          (condition : Text) (tb : Builder) (old : Model)
          → InModel (delete_locked db conv same json actor now condition tb old)
      unfolding delete_locked
      InModel-delete_locked [] tb old = InModel-remove_locked tb old
      InModel-delete_locked (c ∷ s) tb old = InModel-mark_locked _ _ _ tb old

      InModel-row_body :
          (method : ModelMethod) (tb : Builder)
          → InModel (row_body db conv same json actor now method tb)
      unfolding row_body
      InModel-row_body row_update tb = InModel-update_existing tb
      InModel-row_body row_upsert tb = InModel-update_existing tb
      InModel-row_body row_delete tb =
          InModel-with_row _ tb (InModel-delete_locked tb.soft_delete_condition tb)
      InModel-row_body row_restore tb = InModel-with_row _ tb (InModel-mark_locked _ _ _ tb)
      InModel-row_body row_purge tb = InModel-with_row _ tb (InModel-remove_locked tb)

-- no transaction is open, and the data are those that the answer tells of
abbrev pub IsRowAtomic :
    {W D E : Type 0}
    → (driver : Driver W) → (fault : Fault → E) → (view : W → D) → (open_data : W → Option D)
    → (W × Model → Outcome E × (W × Model))
    → W × Model
    → Outcome E × (W × Model)
    → Type 0
IsRowAtomic driver fault view open_data fn s after =
    (open_data after.1.0 ≡ none)
    × Ended (model_view view open_data) (model_open view open_data) (view s.0)
        (last_world (driver_with_model driver) fault (model_view view open_data)
          (model_open view open_data) fn s)
        (view after.1.0) after.0

module _ {W D : Type 0} (db : ModelStatements W) (conv : Conversions) (same : Value → Value → Bool)
    (json : Json) (actor : Actor) (now : ℕ) (driver : Driver W) (view : W → D)
    (open_data : W → Option D) where
  checked_row_tx-IsRowAtomic :
      (fn : Step W (RowEnding db conv)) (s : W × Model) (r : Result (Unit {0}))
      → IsTransactional driver view open_data
      → Within (model_view view open_data) (model_open view open_data) fn
      → open_data s.0 ≡ none
      → IsRowAtomic driver database view open_data fn s
          (checked_row_tx db conv same json actor now (driver_with_model driver) connection fn r s)
  unfolding checked_row_tx finish
  checked_row_tx-IsRowAtomic fn s (err e) laws within o = (o, refused (rejected e) refl)
  checked_row_tx-IsRowAtomic fn s (ok u) laws within o =
      with_tx-Ended (driver_with_model driver) database (model_view view open_data)
        (model_open view open_data) fn s
        (driver_with_model-IsTransactional view open_data driver laws) within o

  -- An update, an upsert, a delete, a restore and a purge of a model, with its history or without, on a
  -- connection without an open transaction, whose driver keeps transactions apart and whose statements run in
  -- them: none is left open; an answer without an error means that the row and its history are as the
  -- statements left them, and after any error, a missing row among them, the data are those from before.
  pub row_with_history-IsRowAtomic :
      (method : ModelMethod) (b : Builder) (s : W × Model)
      → IsTransactional driver view open_data
      → RunModelsWithin view open_data db
      → open_data s.0 ≡ none
      → IsRowAtomic driver database view open_data
          (row_body db conv same json actor now method (row_builder method b))
          s
          (row_with_history db conv same json actor now method
            (driver_with_model driver)
            connection
            b
            s)
  unfolding row_with_history
  row_with_history-IsRowAtomic method b s laws runs o =
      let tb = row_builder method b in
      checked_row_tx-IsRowAtomic (row_body db conv same json actor now method tb) s
        (row_check method tb) laws
        (InModel-row_body view open_data db conv runs same json actor now method tb) o
