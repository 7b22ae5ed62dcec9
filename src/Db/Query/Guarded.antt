-- ===== src/Db/Query/Guarded.antt =====
-- The conditions of what a write executes.
use kiya.Base.{◌≡◌, false, [], ◌∷◌, arith}
use kiya.Text.{Text}
use kiya.Db.Builder.{Value, Builder}
use kiya.Db.Scope.{apply_scope}
use kiya.Db.Write.{ok, check_where, check_where_required, check_data}
use kiya.Db.Write.Laws.{IsGuarded, IsChecked, exec-IsGuarded, exec_update-IsGuarded}
use kiya.Db.Model.{Model}
use kiya.Db.Model.Writing.{
  sanitized_table, table_or_model, table_for_delete, update_model_scoped, update_model,
  delete_model_scoped, delete_model, ModelWrite, insert_one, upsert_one, update_one, delete_one,
  purge_one, insert_all, exec_model,
}
use kiya.Db.Query.{find, Ending, build, count, exist, write, write_models, prepare}

update_model_scoped-IsGuarded :
    (d : Model) (b : Builder) {c : Builder} → update_model_scoped d false b ≡ ok c → IsGuarded c
unfolding update_model_scoped check_where check_where_required check_data table_or_model
    sanitized_table
update_model_scoped-IsGuarded d b e = ground arith

delete_model_scoped-IsGuarded :
    (d : Model) (now : Value) (soft : Text) (b : Builder) {c : Builder}
    → delete_model_scoped d now false soft b ≡ ok c
    → IsGuarded c
unfolding delete_model_scoped check_where check_where_required table_for_delete sanitized_table
delete_model_scoped-IsGuarded d now [] b e = ground arith
delete_model_scoped-IsGuarded d now (x ∷ soft) b e = exec_update-IsGuarded _ b e

-- A call that may replace or remove the rows of models and that checks for a condition.
abbrev pub IsCheckedModel : ModelWrite → Type 0
IsCheckedModel (update_one d skip) = skip ≡ false
IsCheckedModel (delete_one d now skip) = skip ≡ false
IsCheckedModel (purge_one d now skip) = skip ≡ false
IsCheckedModel _ = ⊥

exec_model-IsGuarded :
    (w : ModelWrite) (b : Builder) {c : Builder}
    → IsCheckedModel w
    → exec_model w b ≡ ok c
    → IsGuarded c
unfolding exec_model update_model delete_model
exec_model-IsGuarded (insert_one d) b h e = absurd h
exec_model-IsGuarded (upsert_one d) b h e = absurd h
exec_model-IsGuarded (insert_all ds) b h e = absurd h
exec_model-IsGuarded (update_one d skip) b h e = update_model_scoped-IsGuarded d _ (rw h at e)
exec_model-IsGuarded (delete_one d now skip) b h e =
    delete_model_scoped-IsGuarded d now _ (apply_scope b) (rw h at e)
exec_model-IsGuarded (purge_one d now skip) b h e =
    delete_model_scoped-IsGuarded d now _ (apply_scope _) (rw h at e)

abbrev pub IsCheckedEnding : Ending → Type 0
IsCheckedEnding (write w) = IsChecked w
IsCheckedEnding (write_models w) = IsCheckedModel w
IsCheckedEnding _ = ⊥

-- An UPDATE or a DELETE, of a map, of a model or of no operand, that is executed after the check has a
-- condition, its own or one of the scope, unless the builder was marked unsafe.
pub prepare-IsGuarded :
    (ending : Ending) (b : Builder) {c : Builder}
    → IsCheckedEnding ending
    → prepare ending b ≡ ok c
    → IsGuarded c
unfolding prepare
prepare-IsGuarded build b h e = absurd h
prepare-IsGuarded count b h e = absurd h
prepare-IsGuarded exist b h e = absurd h
prepare-IsGuarded (find d) b h e = absurd h
prepare-IsGuarded (write w) b h e = exec-IsGuarded w b h e
prepare-IsGuarded (write_models w) b h e = exec_model-IsGuarded w b h e
