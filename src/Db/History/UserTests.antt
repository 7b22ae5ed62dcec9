-- ===== src/Db/History/UserTests.antt =====
-- Users of a table with one row, whose history has one entry.
use kiya.Base.{◌+◌, ◌≡◌, refl, ap, Bool, true, false, [], ◌∷◌, none}
use kiya.Text.{Text, codes, text_eq}
use kiya.Text.Laws.{text_eq_iff}
use kiya.Db.Builder.{Value, text, Action, Builder, Dialect, new_builder, and_where}
use kiya.Db.Sql.{value_at}
use kiya.Db.Write.{ok}
use kiya.Db.Transaction.Tests.{Store, store_view, store_open, incremented}
use kiya.Db.Model.{Model, CachedField, struct_to_map}
use kiya.Db.Model.Writing.{update_model}
use kiya.Db.Model.Tests.{user, user_row, conversions}
use kiya.Db.History.{Json, database, rows}
use kiya.Db.History.Tests.{json, actor, selected}
use kiya.Db.History.Models.{
  ModelStatements, fetched, inserted, ModelMethod, row_update, row_builder, diff_for_history,
}
use kiya.Db.History.Steps.{row_body, row_with_history, updated_model, updating_builder}
use kiya.Db.History.Transactions.{RunModelsWithin}
use kiya.Db.History.Column.{HistoryAt, history_here, history_later}
use kiya.Db.History.Audit.{kept_history, update_model-history}

abbrev old_history : Text
old_history = 3 ∷ []

abbrev db : ModelStatements Store
db = record {
  fetch = λ b w. (fetched (user_row old_history (codes "Ani")), w);
  insert_row = λ b w. (inserted none, (w.0, incremented w.1));
  execute_model = λ b w. (rows 1, (w.0, incremented w.1));
}

db-RunModelsWithin : RunModelsWithin store_view store_open db
db-RunModelsWithin = record {
  fetch-Within = λ b. record { view_kept = λ w. refl; stays_open = λ w d o. (d, o) };
  execute_model-Within =
      λ b. record { view_kept = λ w. refl; stays_open = λ w d o. (d + 1, ap incremented o) };
}

-- `reflect.DeepEqual` of texts
abbrev same : Value → Value → Bool
same (text s) (text t) = text_eq s t
same _ _ = true

-- a model with the new name and without the history of the row
abbrev budi : Model
budi = user [] (codes "Budi")

abbrev history_cached : CachedField
history_cached = record {
  name = codes "history";
  is_autofill = false;
  is_nullable = false;
  is_primary = false;
  is_autoincrement = false;
  history_exclude = false;
}

user-HistoryAt : (hist name : Text) → HistoryAt history_cached hist (user hist name).fields
unfolding codes kiya.Db.Model.cached_fields kiya.Db.Model.cached_field kiya.Db.Model.cached_column
    kiya.Db.Model.apply_options kiya.Db.Model.apply_option kiya.Db.Model.column_names
    kiya.Db.Model.is_taken kiya.Db.Model.is_tracked kiya.Db.Write.member kiya.Text.text_eq
    kiya.Text.split_first kiya.Text.split_at kiya.Text.trim_space
user-HistoryAt hist name = history_later _ _ refl (
    history_later _ _ refl (
      history_later _ _ refl (history_later _ _ refl (history_here _ [] refl refl refl refl refl))))

abbrev old_user : Model
old_user = user old_history (codes "Ani")

abbrev tx_builder : Builder
tx_builder = record selected { scope_applied = true }

abbrev updated : Model
updated = updated_model db conversions same json actor 100 old_user tx_builder budi

update_model-history_example :
    value_at (codes "history") (struct_to_map updated [])
    ≡ text (
        kept_history db conversions same json actor 100
          (diff_for_history same old_user budi [])
          old_history)
unfolding codes kiya.Db.Model.cached_fields kiya.Db.Model.cached_field kiya.Db.Model.cached_column
    kiya.Db.Model.apply_options kiya.Db.Model.apply_option kiya.Db.Model.column_names
    kiya.Db.Model.is_taken kiya.Db.Model.is_tracked kiya.Db.Write.member kiya.Text.text_eq
    kiya.Text.split_first kiya.Text.split_at kiya.Text.trim_space kiya.Db.Model.struct_to_map
    kiya.Db.Model.put_columns kiya.Db.Model.put_column kiya.Db.Model.stored_value
    kiya.Db.Builder.is_zero kiya.Db.Builder.and_where kiya.Db.Builder.new_builder
    kiya.Db.Model.Writing.update_model kiya.Db.Model.Writing.update_model_scoped
    kiya.Db.Write.check_where kiya.Db.Write.check_data kiya.Db.Model.Writing.table_or_model
    kiya.Db.Scope.apply_scope kiya.Db.Scope.apply_scope_once kiya.Db.History.Steps.updating_builder
    kiya.Db.History.Models.ensure_aux_col kiya.Db.History.Models.diff_for_history
    kiya.Db.History.Models.has_changed kiya.Db.History.Models.changed_columns
    kiya.Db.Model.struct_to_history_map kiya.Db.Model.Keys.has_field
    kiya.Db.History.Steps.updated_model kiya.Db.History.Steps.stamped
    kiya.Db.Model.Keys.set_actor_field kiya.Db.Model.Keys.set_string_field
    kiya.Db.Model.Keys.string_field
update_model-history_example =
    update_model-history db conversions same json actor 100 history_cached old_history [] old_user
      budi tx_builder
      {u = record tx_builder { action = Action.update; updates = struct_to_map updated [] }}
      (user-HistoryAt old_history (codes "Ani")) (user-HistoryAt [] (codes "Budi")) refl refl refl
      refl (λ s t e. (text_eq_iff s t).0 e) refl
