-- ===== src/Db/Write.antt =====
-- The parts of internal/db/builder_write.go that decide what is written: `execInsertRaw`,
-- `execUpdate` and `execDelete` for an operand that is a map, up to the call of the executor, which
-- gets the statement that is returned here. Model/Writing has those that are structs.
pub mod Laws
use kiya.Base.{ℕ, Bool, true, false, ◌&&◌, ◌||◌, not, List, [], ◌∷◌, map, if◌then◌else◌, ◌==◌}
use kiya.Base.Int.{ℤ, pos}
use kiya.Text.{Text, codes, text_eq}
use kiya.Db.Sanitize.{sanitize_identifier}
use kiya.Db.Builder.{Value, null, Columns, Action, WhereClause, Builder, is_empty, is_zero}
use kiya.Db.Sql.{Output, build_action}
use kiya.Db.Scope.{apply_scope}

-- internal/db/errors.go
pub data Error : Type 0 where
  where_clause_required empty_data table_required invalid_table_name : Error

pub data Result {ℓ} (A : Type ℓ) : Type ℓ where
  ok : A → Result A
  err : Error → Result A

infixl 5 ◌>>◌ ◌>>=◌
abbrev pub ◌>>=◌ {ℓ κ} : {A : Type ℓ} {B : Type κ} → Result A → (A → Result B) → Result B
ok a >>= f = f a
err e >>= f = err e

abbrev pub ◌>>◌ {ℓ} : {B : Type ℓ} → Result (Unit {0}) → Result B → Result B
m >> n = m >>= λ _. n

unfoldable pub member : Text → List Text → Bool
member k [] = false
member k (j ∷ js) = text_eq j k || member k js

-- `safe identifier, and listed if columns are selected`
unfoldable pub accepted : List Text → Text → Bool
accepted [] k = not (is_empty (sanitize_identifier k))
accepted (c ∷ names) k = not (is_empty (sanitize_identifier k)) && member k (c ∷ names)

-- the value that is stored: nil for the zero value of a nullable column
unfoldable pub stored : List Text → Text → Value → Value
stored nullable_cols k v = if member k nullable_cols && is_zero v then null else v

-- `mapData`: what is left of the operand
unfoldable pub map_data : List Text → List Text → Columns → Columns
map_data selected nullable_cols [] = []
map_data selected nullable_cols ((k, v) ∷ m) =
    let rest = map_data selected nullable_cols m in
    if accepted selected k then (k, stored nullable_cols k v) ∷ rest else rest

-- `len(mapData) == 0` and `clone.table == ""`, where a map gives no table name
unfoldable pub check_data : Columns → Result (Unit {0})
check_data [] = err empty_data
check_data (e ∷ m) = ok tt

unfoldable pub check_table : Text → Result (Unit {0})
check_table [] = err table_required
check_table (c ∷ s) = ok tt

unfoldable pub check_where_required : List WhereClause → Bool → Result (Unit {0})
check_where_required (w ∷ ws) unsafe = ok tt
check_where_required [] true = ok tt
check_where_required [] false = err where_clause_required

-- `if !skipWhereCheck { … }`
unfoldable pub check_where : Bool → Builder → Result (Unit {0})
check_where true b = ok tt
check_where false b = check_where_required b.wheres b.unsafe_allow_empty_where

abbrev pub operand : Builder → Columns → Columns
operand b m = map_data (map (λ s. s.expr) b.selects) b.nullable_cols m

-- Each function returns the clone whose statement is executed.
unfoldable pub exec_insert : Columns → Builder → Result Builder
exec_insert m b = do
  check_data (operand b m)
  check_table b.table
  ok (record b { action = Action.insert; inserts = operand b m })

unfoldable pub update_scoped : Columns → Bool → Builder → Result Builder
update_scoped m skip b = do
  check_where skip b
  check_data (operand b m)
  check_table b.table
  ok (record b { action = Action.update; updates = operand b m })

unfoldable pub exec_update : Columns → Bool → Builder → Result Builder
exec_update m skip b = update_scoped m skip (apply_scope b)

unfoldable pub delete_scoped : Value → Bool → Text → Builder → Result Builder
delete_scoped now skip (c ∷ s) b = exec_update ((codes "deleted_at", now) ∷ []) skip b
delete_scoped now skip [] b = do
  check_where skip b
  check_table b.table
  ok (record b { action = Action.delete })

-- `now` is the time that `nowFunc` returns; no model is given
unfoldable pub exec_delete : Value → Bool → Builder → Result Builder
exec_delete now skip b =
    let scoped = apply_scope b in delete_scoped now skip scoped.soft_delete_condition scoped

-- `Purge`, `PurgeAll` and `Restore` without a model and without history
unfoldable pub purge : Value → Bool → Builder → Result Builder
purge now skip b = exec_delete now skip (record b { soft_delete_condition = [] })

unfoldable pub restore : Builder → Result Builder
restore b =
    exec_update ((codes "deleted_at", null) ∷ []) false (record b { soft_delete_condition = [] })

-- a call that writes, with the flag that skips the check for a condition
pub data Write : Type 0 where
  insert : Columns → Write
  update : Columns → Bool → Write
  delete purging : Value → Bool → Write
  restoring : Write

unfoldable pub exec : Write → Builder → Result Builder
exec (insert m) b = exec_insert m b
exec (update m skip) b = exec_update m skip b
exec (delete now skip) b = exec_delete now skip b
exec (purging now skip) b = purge now skip b
exec restoring b = restore b
