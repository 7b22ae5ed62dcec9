-- ===== src/Db/History/Tests.antt =====
-- A table with one row, as the number of its changes, and entries that have a time only.
use kiya.Base.{ℕ, ◌+◌, ◌≡◌, refl, ap, List, [], ◌∷◌, map, none, some}
use kiya.Text.{Text, codes}
use kiya.Base.Int.{pos}
use kiya.Db.Builder.{null, int, text, Columns, Action, Builder, Dialect, new_builder, and_where}
use kiya.Db.Transaction.{Outcome, returned}
use kiya.Db.Transaction.Tests.{
  Store, store_view, store_open, driver, driver-IsTransactional, incremented,
}
use kiya.Db.History.{
  insert_map_with_history, HistoryEntry, Json, entries_of, append_history_json, marshalled, Actor,
  Lookup, found, Affected, rows, Statements, rejected,
}
use kiya.Db.Write.{where_clause_required, ok}
use kiya.Db.History.Recorded.{Recorded, exec_with_history-Recorded}
use kiya.Db.History.Atomic.{tx_builder, RunsWithin, updating, exec_with_history}

abbrev entry_at : ℕ → HistoryEntry
entry_at n = record { action = []; changes = []; actor_id = null; actor_name = []; at = n }

abbrev read_entries : Text → List HistoryEntry
read_entries [] = []
read_entries (n ∷ t) = entry_at n ∷ read_entries t

abbrev pub json : Json
json = record { unmarshal = read_entries; marshal = λ es. some (map (λ e. e.at) es) }

-- the row is always there, and every statement changes one row
abbrev db : Statements Store
db = record { get_row = λ b w. (found [], w); execute = λ b w. (rows 1, (w.0, incremented w.1)) }

db-RunsWithin : RunsWithin store_view store_open db
db-RunsWithin = record {
  get_row-Within = λ b. record { view_kept = λ w. refl; stays_open = λ w d o. (d, o) };
  execute-Within =
      λ b. record { view_kept = λ w. refl; stays_open = λ w d o. (d + 1, ap incremented o) };
}

abbrev pub actor : Actor
actor = record { id = null; name = codes "Ani" }

abbrev pub selected : Builder
selected = and_where (codes "id = ?") (int (pos 7) ∷ []) (new_builder (codes "users") Dialect.mysql)

abbrev renaming : Columns
renaming = (codes "name", text (codes "Budi")) ∷ []

exec_with_history-Recorded_example :
    Recorded db json actor 100 driver store_view store_open
      (updating renaming)
      (tx_builder db json actor 100 (updating renaming) selected)
      (3, none)
      (found [])
      (3, some 3)
      (exec_with_history db json actor 100 (updating renaming) driver selected (3, none))
unfolding kiya.Db.Scope.apply_scope kiya.Db.Scope.apply_scope_once and_where new_builder
    kiya.Db.Scope.scope_query kiya.Db.Write.check_where_required
exec_with_history-Recorded_example =
    exec_with_history-Recorded db json actor 100 driver store_view store_open (updating renaming)
      selected (3, none) driver-IsTransactional db-RunsWithin refl refl tt

-- The update is committed.
exec_with_history-updates :
    exec_with_history db json actor 100 (updating renaming) driver selected (3, none)
    ≡ (returned none, (4, none))
unfolding exec_with_history kiya.Db.History.update_map_with_history kiya.Db.History.scoped_tx
    kiya.Db.History.checked_tx kiya.Db.Write.check_where_required kiya.Db.Scope.apply_scope
    kiya.Db.Scope.apply_scope_once and_where new_builder kiya.Db.Scope.scope_query
    kiya.Db.Transaction.with_tx kiya.Db.Transaction.run_in_tx kiya.Db.Transaction.end_tx
    kiya.Db.History.update_row kiya.Db.History.change_row kiya.Db.History.then_run
    kiya.Db.History.write_with_history kiya.Db.History.run_update kiya.Db.Write.exec_update
    kiya.Db.Write.update_scoped kiya.Db.Write.check_where kiya.Db.Write.check_data
    kiya.Db.Write.check_table kiya.Db.Write.map_data kiya.Db.Write.accepted
    kiya.Db.Sanitize.sanitize_identifier kiya.Db.Sanitize.ident_byte kiya.Text.all_in
    kiya.Text.is_letter kiya.Text.is_digit codes kiya.Db.History.with_history
    kiya.Db.History.set_column kiya.Text.text_eq kiya.Db.History.need_rows kiya.Db.History.finish
    kiya.Db.Write.stored kiya.Db.Write.member
exec_with_history-updates = refl

-- Without a condition nothing is begun.
exec_with_history-rejects :
    exec_with_history db json actor 100
      (updating renaming)
      driver
      (new_builder (codes "users") Dialect.mysql)
      (3, none)
    ≡ (returned (some (rejected where_clause_required)), (3, none))
unfolding exec_with_history kiya.Db.History.update_map_with_history kiya.Db.History.scoped_tx
    kiya.Db.History.checked_tx kiya.Db.Write.check_where_required kiya.Db.Scope.apply_scope
    kiya.Db.Scope.apply_scope_once new_builder kiya.Db.Scope.scope_query kiya.Db.History.finish
exec_with_history-rejects = refl

-- A new row starts with a history of one entry.
insert_map_with_history-users :
    insert_map_with_history db json actor 100 renaming (new_builder (codes "users") Dialect.mysql)
    ≡ ok (record (new_builder (codes "users") Dialect.mysql) {
      action = Action.insert;
      inserts = (codes "name", text (codes "Budi")) ∷ (codes "history", text (100 ∷ [])) ∷ [];
    })
unfolding insert_map_with_history kiya.Db.Write.exec_insert kiya.Db.Write.check_data
    kiya.Db.Write.check_table kiya.Db.Write.map_data kiya.Db.Write.accepted new_builder codes
    kiya.Db.Sanitize.sanitize_identifier kiya.Db.Sanitize.ident_byte kiya.Text.all_in
    kiya.Text.is_letter kiya.Text.is_digit kiya.Db.History.with_history kiya.Db.History.set_column
    kiya.Text.text_eq kiya.Db.Write.stored kiya.Db.Write.member kiya.Db.History.append_history_json
    kiya.Db.History.marshalled kiya.Db.History.entries_of kiya.Db.History.build_history_entry
insert_map_with_history-users = refl
