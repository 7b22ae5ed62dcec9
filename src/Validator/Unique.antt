-- ===== src/Validator/Unique.antt =====
-- validator.go: the rule `unique`, which asks the database by a query of the builder. What the database answers to
-- the statement is an argument.
use kiya.Base.{Bool, true, false, [], ◌∷◌, ◌++◌, Option, none, some, if◌then◌else◌}
use kiya.Text.{Text, codes}
use kiya.Db.Sanitize.{sanitize_identifier}
use kiya.Db.Builder.{Builder, Value, null, and_where}
use kiya.Db.Read.{exec_exist}
use kiya.Db.Write.{Result, ok, err}
use kiya.Validator.{
  Form, nil, text, flag, int, is_empty_value, is_missing, in_use, table_not_set, no_database,
  bad_primary_key, validation_failed, bad_column, Verdict, Validator, valid_column_name,
}

-- the database of the context: an empty builder on its handle, and what the statement of `Exist` finds,
-- where `none` is an error
pub record Connection : Type 0 where
  pub handle : Builder
  pub finds : Builder → Option Bool

-- a value as the builder takes it
unfoldable pub as_argument : Form → Value
as_argument nil = null
as_argument (text s) = Value.text s
as_argument (flag b) = Value.bool b
as_argument (int n) = Value.int n
as_argument v = Value.other (is_empty_value v) 0

-- `Table` of the handle, and the first condition of `valUnique`
unfoldable pub unique_builder : Connection → Validator → Builder
unique_builder db v =
    and_where (codes "deleted_at IS NULL") []
      (record db.handle { table = sanitize_identifier v.unique_table })

unfoldable pub found_verdict : Option Bool → Verdict
found_verdict none = some validation_failed
found_verdict (some true) = some in_use
found_verdict (some false) = none

unfoldable pub exist_verdict : Connection → Result Builder → Verdict
exist_verdict db (err e) = some validation_failed
exist_verdict db (ok b) = found_verdict (db.finds b)

unfoldable pub unique_with : Connection → Validator → Text → Form → Option (Form × Bool) → Verdict
unique_with db v param val (some (pk, false)) =
    if is_missing v.pk_col
    then exist_verdict db (
        exec_exist (and_where (param ++ codes " = ?") (as_argument val ∷ []) (unique_builder db v)))
    else if valid_column_name v.pk_col
    then exist_verdict db (
        exec_exist (
          and_where (v.pk_col ++ (codes " != ? AND " ++ (param ++ codes " = ?")))
            (as_argument pk ∷ as_argument val ∷ []) (unique_builder db v)))
    else some bad_primary_key
unique_with db v param val _ =
    exist_verdict db
      (exec_exist (and_where (param ++ codes " = ?") (as_argument val ∷ []) (unique_builder db v)))

unfoldable pub unique_in : Option Connection → Validator → Text → Form → Verdict
unique_in none v param val = some no_database
unique_in (some db) v param val = unique_with db v param val v.pk_val

-- `valUnique`
unfoldable pub val_unique : Option Connection → Validator → Text → Form → Verdict
val_unique db v param val =
    if is_missing v.unique_table
    then some table_not_set
    else if valid_column_name param
    then unique_in db v param val
    else some (bad_column param)
