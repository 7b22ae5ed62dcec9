-- ===== src/Db/History/Recorded.antt =====
-- What a write with history leaves in the database, by the answers that it gets: internal/db/history_ops.go.
use kiya.Base.{
  ℕ, zero, suc, ◌≡◌, ◌≢◌, refl, sym, ap, ◌∙◌, true, false, [], ◌∷◌, ◌++◌, Option, none, some,
  Bool-cases, inl, inr,
}
use kiya.Text.{Text, codes, text_eq}
use kiya.Text.Laws.{text_eq_iff}
use kiya.Db.Builder.{Value, null, text, Columns, Builder}
use kiya.Db.Sql.{value_at}
use kiya.Db.Write.{Result, ok, err, check_where_required, exec_update}
use kiya.Db.Transaction.{Fault, Driver, returned, fault_outcome, end_tx, run_in_tx, with_tx}
use kiya.Db.Transaction.Atomic.{IsTransactional}
use kiya.Db.History.{
  HistoryEntry, Json, Actor, append_history_json, build_history_entry, entries_of, marshalled,
  HistoryError, database, rejected, record_not_found, history_column, Lookup, found, no_row,
  lookup_fault, Affected, rows, exec_fault, Statements, then_run, finish, set_column, history_query,
  HistoryEnding, need_rows, run_update, write_with_history, change_row, with_history, update_row,
  delete_row, restore_row, scoped_tx, checked_tx,
}
use kiya.Db.History.Atomic.{
  RunsWithin, Method, updating, deleting, restoring, exec_with_history, exec_with_history_lem,
  tx_builder, tx_body,
}

abbrev or_before : Text → Option Text → Text
or_before hist none = hist
or_before hist (some t) = t

-- the JSON of the entries of a history and one more behind them; the history itself, where JSON cannot write them
abbrev pub appended : Json → Text → HistoryEntry → Text
appended json [] entry = or_before [] (json.marshal (entry ∷ []))
appended json (c ∷ s) entry =
    or_before (c ∷ s) (json.marshal (json.unmarshal (c ∷ s) ++ entry ∷ []))

marshalled-or_before : (h : Text) (o : Option Text) → marshalled h o ≡ or_before h o
unfolding marshalled
marshalled-or_before h none = refl
marshalled-or_before h (some t) = refl

append_history_json-appended :
    (json : Json) (hist : Text) (entry : HistoryEntry)
    → append_history_json json hist entry ≡ appended json hist entry
unfolding append_history_json entries_of
append_history_json-appended json [] entry = marshalled-or_before [] _
append_history_json-appended json (c ∷ s) entry = marshalled-or_before (c ∷ s) _

value_at-set_column : (k : Text) (v : Value) (m : Columns) → value_at k (set_column k v m) ≡ v
unfolding value_at set_column
value_at-set_column k v [] = rw ((text_eq_iff k k).1 refl) refl
value_at-set_column k v ((j, w) ∷ m) = elim (Bool-cases (text_eq j k)) [
  | inl e ↦ rw (e, (text_eq_iff k k).1 refl) refl
  | inr e ↦ rw e (rw e (value_at-set_column k v m))
]

module _ {W D : Type 0} (db : Statements W) (json : Json) (actor : Actor) (now : ℕ)
    (driver : Driver W) (view : W → D) (open_data : W → Option D) where
  abbrev entry : Text → Columns → HistoryEntry
  entry action changes = record {
    action = action;
    changes = changes;
    actor_id = actor.id;
    actor_name = actor.name;
    at = now;
  }

  -- the entry that each method appends, and the columns that it changes
  abbrev pub entry_of : Method → HistoryEntry
  entry_of (updating m) = entry (codes "modified") m
  entry_of deleting = entry (codes "deleted") []
  entry_of restoring = entry (codes "restored") []

  abbrev pub columns_of : Method → Columns
  columns_of (updating m) = m
  columns_of deleting = (codes "deleted_at", Value.other false now) ∷ []
  columns_of restoring = (codes "deleted_at", null) ∷ []

  -- a delete marks its row
  abbrev pub IsMarking : Method → Builder → Type 0
  IsMarking deleting tb = tb.soft_delete_condition ≢ []
  IsMarking _ tb = Unit

  -- the error is answered, and the data are those from before
  abbrev pub Undone : W → HistoryError → HistoryEnding db × W → Type 0
  Undone w e after = (after.0 ≡ returned (some e)) × (view after.1 ≡ view w)

  -- after the UPDATE, by the number of its rows and the answer of Commit
  abbrev pub Ran : W → Affected → W → HistoryEnding db × W → Type 0
  Ran w (exec_fault f) w2 after = Undone w (database f) after
  Ran w (rows zero) w2 after = Undone w record_not_found after
  Ran w (rows (suc n)) w2 after =
      ((driver.commit w2).0 ≡ none
        → (after.0 ≡ returned none) × (some (view after.1) ≡ open_data w2))
      × ((f : Fault) → (driver.commit w2).0 ≡ some f → Undone w (database f) after)

  abbrev pub Executed : W → Result Builder → W → HistoryEnding db × W → Type 0
  Executed w (err e) w1 after = Undone w (rejected e) after
  Executed w (ok u) w1 after = Ran w (db.execute u w1).0 (db.execute u w1).1 after

  -- after the query for the history of the row, by its answer
  abbrev pub Recorded : Method → Builder → W → Lookup → W → HistoryEnding db × W → Type 0
  Recorded method tb w (lookup_fault f) w1 after = Undone w (history_column f) after
  Recorded method tb w no_row w1 after = Undone w record_not_found after
  Recorded method tb w (found hist) w1 after =
      (m : Columns) × (m
        ≡ set_column (codes "history") (text (appended json hist (entry_of method)))
            (columns_of method))
      × (value_at (codes "history") m ≡ text (appended json hist (entry_of method)))
      × Executed w (exec_update m true (record tb { selects = [] })) w1 after

  abbrev data_of : Method → Text → Columns
  data_of (updating m) = with_history db json actor now (codes "modified") m m
  data_of deleting =
      with_history db json actor now (codes "deleted") []
        ((codes "deleted_at", Value.other false now) ∷ [])
  data_of restoring =
      with_history db json actor now (codes "restored") [] ((codes "deleted_at", null) ∷ [])

  data_of_lem :
      (method : Method) (hist : Text)
      → data_of method hist
        ≡ set_column
            (codes "history")
            (text (appended json hist (entry_of method)))
            (columns_of method)
  unfolding with_history build_history_entry
  data_of_lem (updating m) hist =
      ap (λ t. set_column (codes "history") (text t) m) (append_history_json-appended json hist _)
  data_of_lem deleting hist =
      ap (λ t. set_column (codes "history") (text t) (columns_of deleting))
        (append_history_json-appended json hist _)
  data_of_lem restoring hist =
      ap (λ t. set_column (codes "history") (text t) (columns_of restoring))
        (append_history_json-appended json hist _)

  tx_body_lem :
      (method : Method) (tb : Builder)
      → IsMarking method tb
      → tx_body db json actor now method tb ≡ change_row db (data_of method) tb
  unfolding update_row restore_row delete_row
  tx_body_lem (updating m) tb h = refl
  tx_body_lem deleting tb h = marked tb.soft_delete_condition h
    where
      marked :
          (s : Text)
          → s ≢ []
          → delete_row db json actor now s tb ≡ change_row db (data_of deleting) tb
      marked [] n = absurd (n refl)
      marked (c ∷ s) n = refl
  tx_body_lem restoring tb h = refl

  module _ (w : W) (laws : IsTransactional driver view open_data)
      (runs : RunsWithin view open_data db) where
    abbrev ended : HistoryEnding db × W → HistoryEnding db × W
    ended o = end_tx driver database o.0 o.1

    Undone-ended :
        (e : HistoryError) (last : W)
        → view last ≡ view w
        → Undone w e (ended (returned (some e), last))
    unfolding end_tx
    Undone-ended e last h = (refl, laws.rollback-view last ∙ h)

    committed :
        (last : W) (c : Option Fault) (d : D)
        → (driver.commit last).0 ≡ c
        → view last ≡ view w
        → open_data last ≡ some d
        → Ran w (rows 1) last (fault_outcome driver database c, (driver.commit last).1)
    committed last none d e h o =
        (λ z. (refl, ap some (laws.commit-view last d o e) ∙ sym o), λ f z. absurd cc)
    committed last (some f) d e h o = (
      λ z. absurd cc,
      λ g z. (ap (λ x. returned (some (database x))) cc, laws.commit-fault last f e ∙ h),
    )

    Ran-need_rows :
        (a : Affected) (last : W) (d : D)
        → view last ≡ view w
        → open_data last ≡ some d
        → Ran w a last (ended (need_rows db a last))
    unfolding need_rows finish end_tx
    Ran-need_rows (exec_fault f) last d h o = Undone-ended (database f) last h
    Ran-need_rows (rows zero) last d h o = Undone-ended record_not_found last h
    Ran-need_rows (rows (suc n)) last d h o = committed last (driver.commit last).0 d refl h o

    Executed-run_update :
        (r : Result Builder) (w1 : W) (d : D)
        → view w1 ≡ view w
        → open_data w1 ≡ some d
        → Executed w r w1 (ended (run_update db r w1))
    unfolding run_update then_run finish
    Executed-run_update (err e) w1 d h o = Undone-ended (rejected e) w1 h
    Executed-run_update (ok u) w1 d h o =
        let (d2, o2) = (runs.execute-Within u).stays_open w1 d o in
        Ran-need_rows (db.execute u w1).0 (db.execute u w1).1 d2
          ((runs.execute-Within u).view_kept w1 ∙ h) o2

    Recorded-write_with_history :
        (method : Method) (tb : Builder) (l : Lookup) (w1 : W) (d : D)
        → view w1 ≡ view w
        → open_data w1 ≡ some d
        → Recorded method tb w l w1 (ended (write_with_history db (data_of method) tb l w1))
    unfolding write_with_history finish
    Recorded-write_with_history method tb (lookup_fault f) w1 d h o =
        Undone-ended (history_column f) w1 h
    Recorded-write_with_history method tb no_row w1 d h o = Undone-ended record_not_found w1 h
    Recorded-write_with_history method tb (found hist) w1 d h o = (
      data_of method hist,
      data_of_lem method hist,
      ap (value_at (codes "history")) (data_of_lem method hist)
          ∙ value_at-set_column (codes "history") _ (columns_of method),
      Executed-run_update (exec_update (data_of method hist) true (record tb { selects = [] })) w1 d
          h o,
    )

  -- An update from a map, a delete without a model that marks its row and a restore, with history, on a connection without
  -- an open transaction, whose driver keeps transactions apart, whose statements run in them and whose Begin
  -- succeeds, after the check for a condition: if the query for the history fails, or finds no row, the error of the
  -- history column, or that there is no such record, is answered. Otherwise the columns of the write, with the JSON of
  -- the entries of the row and one more (of the action, the changes, the actor and the time) in the column history, go
  -- into one UPDATE. Its refusal, its error and that it changed no row are answered as errors; and if it
  -- changed rows, nil is answered and the data are those that it left in the transaction exactly if Commit succeeds. After
  -- every error the data are those from before.
  pub exec_with_history-Recorded :
      (method : Method) (b : Builder) (w : W)
      → IsTransactional driver view open_data
      → RunsWithin view open_data db
      → (driver.begin w).0 ≡ none
      → check_where_required
          (tx_builder db json actor now method b).wheres
          (tx_builder db json actor now method b).unsafe_allow_empty_where
        ≡ ok tt
      → IsMarking method (tx_builder db json actor now method b)
      → Recorded method
          (tx_builder db json actor now method b)
          w
          (db.get_row (history_query (tx_builder db json actor now method b)) (driver.begin w).1).0
          (db.get_row (history_query (tx_builder db json actor now method b)) (driver.begin w).1).1
          (exec_with_history db json actor now method driver b w)
  unfolding scoped_tx checked_tx with_tx run_in_tx change_row then_run
  exec_with_history-Recorded method b w laws runs begun checked marking =
      let tb = tx_builder db json actor now method b in
      let started = (driver.begin w).1 in
      let query = runs.get_row-Within (history_query tb) in
      let (d, o) = query.stays_open started (view w) (laws.begin-open w begun) in
      rw (exec_with_history_lem db json actor now method driver b) (
        rw (checked, begun)
          (rw (tx_body_lem method tb marking) (
            Recorded-write_with_history w laws runs method tb _ _ d
              (query.view_kept started ∙ laws.begin-view w) o)))
