-- ===== src/Db/Query.antt =====
-- A query from its first call to the statement: a chain of calls on the builder of `Table` (internal/db/database.go),
-- with the scope of the handle, the preparation of the statement (Count, Exist, Find of a model, a write of a map or
-- of models, or `Build` alone), and what `buildRaw` gives. `Build`
-- (internal/db/builder_read.go) then converts the placeholders of that text for PostgreSQL, as Placeholders
-- has it.
pub mod Safety
pub mod Guarded
use kiya.Base.{List, Option}
use kiya.Text.{Text}
use kiya.Db.Builder.{Action, Value, Columns, Dialect, Builder, new_builder}
use kiya.Db.Sql.{Output, build_action}
use kiya.Db.Write.{Result, ok, ◌>>=◌, Write, exec}
use kiya.Db.Read.{exec_count, exec_exist}
use kiya.Db.Sanitize.{sanitize_identifier}
use kiya.Db.Model.{Model}
use kiya.Db.History.Models.{finding_model}
use kiya.Db.Model.Writing.{ModelWrite, exec_model}
use kiya.Db.Chain.{Call, run}

pub data Ending : Type 0 where
  build count exist : Ending
  find : Model → Ending
  write : Write → Ending
  write_models : ModelWrite → Ending

unfoldable pub prepare : Ending → Builder → Result Builder
prepare build b = ok b
prepare count b = exec_count b
prepare exist b = exec_exist b
prepare (find d) b = finding_model d b
prepare (write w) b = exec w b
prepare (write_models w) b = exec_model w b

-- what the application sets for a handle: from the fields of a model and a context, columns with their values
abbrev pub ScopeFunc : Type 0
ScopeFunc = List Text → Value → Columns

unfoldable pub scoped_table : Text → Dialect → Option ScopeFunc → Builder
scoped_table name d scope = record (new_builder (sanitize_identifier name) d) { scope = scope }

unfoldable pub query : Text → Dialect → Option ScopeFunc → List Call → Ending → Result Output
query table d scope calls ending = do
  c ← prepare ending (run calls (scoped_table table d scope))
  ok (build_action c.action c)
