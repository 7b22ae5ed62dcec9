-- ===== src/Db/Sql.antt =====
-- internal/db/builder_sql.go: the text of a statement and its arguments. What is written to the log
-- is not modelled.
pub mod Balanced
pub mod Statement
pub mod Writing
pub mod Meaning
pub mod SoftDelete
use kiya.Base.{
  Bool, true, false, ◌||◌, List, [], ◌∷◌, ◌++◌, Option, none, some, map, ◌▷◌, if◌then◌else◌,
}
use kiya.Base.Int.{ℤ}
use kiya.Text.{Text, codes, join, sort_texts, text_eq}
use kiya.Db.Sanitize.{sanitize_identifier}
use kiya.Db.Builder.{
  Value, int, null, Junction, and, or, WhereClause, JoinClause, SelectClause, Action, Dialect,
  mysql, postgres, Columns, Builder,
}

-- the `strings.Builder` and the field `args` of the builder, which every part extends
pub record Output : Type 0 where
  pub sql : Text
  pub args : List Value

unfoldable pub nothing_written : Output
nothing_written = record { sql = []; args = [] }

-- `sql.WriteString(s)`
unfoldable pub write : Text → Output → Output
write s out = record out { sql = out.sql ++ s }

-- `b.args = append(b.args, vs...)`
unfoldable pub push : List Value → Output → Output
push vs out = record out { args = out.args ++ vs }

unfoldable pub junction_text : Junction → Text
junction_text and = codes "AND"
junction_text or = codes "OR"

-- the rounds after the first of `for i, w := range b.wheres`, with the junction before each
unfoldable pub more_clauses : List WhereClause → Output → Output
more_clauses [] out = out
more_clauses (w ∷ ws) out = more_clauses ws (
    out
    ▷ write (codes " ")
    ▷ write (junction_text w.boolean)
    ▷ write (codes " ")
    ▷ write w.expr
    ▷ push w.args)

unfoldable pub write_clauses : List WhereClause → Output → Output
write_clauses [] out = out
write_clauses (w ∷ ws) out = more_clauses ws (out ▷ write w.expr ▷ push w.args)

-- the same loop where no condition is joined by OR
unfoldable pub and_clauses : List WhereClause → Output → Output
and_clauses [] out = out
and_clauses (w ∷ ws) out = and_clauses ws (out ▷ write (codes " AND ") ▷ write w.expr ▷ push w.args)

abbrev is_or : Junction → Bool
is_or and = false
is_or or = true

unfoldable pub has_or : List WhereClause → Bool
has_or [] = false
has_or (w ∷ ws) = is_or w.boolean || has_or ws

unfoldable pub soft_wheres : List WhereClause → Output → Output
soft_wheres [] out = out
soft_wheres (w ∷ ws) out =
    if has_or (w ∷ ws)
    then out ▷ write (codes " AND (") ▷ write_clauses (w ∷ ws) ▷ write (codes ")")
    else and_clauses (w ∷ ws) out

unfoldable pub build_wheres : Text → List WhereClause → Output → Output
build_wheres [] [] out = out
build_wheres [] (w ∷ ws) out = out ▷ write (codes " WHERE ") ▷ write_clauses (w ∷ ws)
build_wheres (c ∷ soft) ws out = out ▷ write (codes " WHERE ") ▷ write (c ∷ soft) ▷ soft_wheres ws

unfoldable pub select_exprs : List SelectClause → Output → Output
select_exprs [] out = out
select_exprs (s ∷ ss) out = select_exprs ss (out ▷ write (codes ", ") ▷ write s.expr ▷ push s.args)

unfoldable pub write_selects : List SelectClause → Output → Output
write_selects [] out = write (codes "*") out
write_selects (s ∷ ss) out = select_exprs ss (out ▷ write s.expr ▷ push s.args)

unfoldable pub write_table : Text → Output → Output
write_table [] out = write (codes " FROM undefined_table ") out
write_table (c ∷ table) out = out ▷ write (codes " FROM ") ▷ write (c ∷ table)

-- `fmt.Sprintf(" %s JOIN %s ON %s", j.typ, j.table, j.on)` for each join
unfoldable pub write_joins : List JoinClause → Output → Output
write_joins [] out = out
write_joins (j ∷ js) out =
    write_joins js
      (write (codes " " ++ j.typ ++ codes " JOIN " ++ j.table ++ codes " ON " ++ j.on) out)

-- a keyword and a list of texts, or nothing where the list is empty
unfoldable pub write_list : Text → List Text → Output → Output
write_list keyword [] out = out
write_list keyword (s ∷ ss) out = out ▷ write keyword ▷ write (join (s ∷ ss) (codes ", "))

unfoldable pub write_havings : List WhereClause → Output → Output
write_havings [] out = out
write_havings (h ∷ hs) out = out ▷ write (codes " HAVING ") ▷ write_clauses (h ∷ hs)

-- a keyword with a placeholder and its number, or nothing
unfoldable pub write_count : Text → Option ℤ → Output → Output
write_count keyword none out = out
write_count keyword (some n) out = out ▷ write keyword ▷ push (int n ∷ [])

unfoldable pub write_lock : Bool → Output → Output
write_lock false out = out
write_lock true out = write (codes " FOR UPDATE") out

unfoldable pub build_select : Builder → Output → Output
build_select b out =
    out
    ▷ write (codes "SELECT ")
    ▷ write_selects b.selects
    ▷ write_table b.table
    ▷ write_joins b.joins
    ▷ build_wheres b.soft_delete_condition b.wheres
    ▷ write_list (codes " GROUP BY ") b.group_bys
    ▷ write_havings b.havings
    ▷ write_list (codes " ORDER BY ") b.order_bys
    ▷ write_count (codes " LIMIT ?") b.limit
    ▷ write_count (codes " OFFSET ?") b.offset
    ▷ write_lock b.lock_for_update

-- the value at a key of a map, nil where there is none
unfoldable pub value_at : Text → Columns → Value
value_at k [] = null
value_at k ((j, v) ∷ m) = if text_eq j k then v else value_at k m

abbrev pub keep_key : Text → Text → List Text → List Text
keep_key [] k keys = keys
keep_key (c ∷ s) k keys = k ∷ keys

-- the keys of a map that are identifiers
unfoldable pub valid_keys : Columns → List Text
valid_keys [] = []
valid_keys ((k, v) ∷ m) = keep_key (sanitize_identifier k) k (valid_keys m)

-- `keys` after `sort.Strings(keys)`
unfoldable pub sorted_keys : Columns → List Text
sorted_keys m = sort_texts (valid_keys m)

-- `updates`: the assignments of an upsert, `lhs = before rhs after` for each identifier
unfoldable pub upsert_sets : Text → Text → List Text → List Text
upsert_sets before after [] = []
upsert_sets before after (col ∷ names) =
    let safe_col = sanitize_identifier col in
    keep_key safe_col (safe_col ++ codes " = " ++ before ++ safe_col ++ after)
      (upsert_sets before after names)

abbrev conflict_cols : List Text → Text
conflict_cols [] = codes "id"
conflict_cols (k ∷ ks) = join (k ∷ ks) (codes ", ")

-- the part of `buildInsert` and of `buildInsertBatch` under `len(b.onDuplicateUpdateCols) > 0`; for
-- no columns there are no assignments
unfoldable pub upsert_for : Dialect → Builder → Output → Output
upsert_for mysql b out =
    write_list (codes " ON DUPLICATE KEY UPDATE ")
      (upsert_sets (codes "VALUES(") (codes ")") b.on_duplicate_update_cols) out
upsert_for postgres b out =
    write_list (codes " ON CONFLICT (" ++ conflict_cols b.primary_keys ++ codes ") DO UPDATE SET ")
      (upsert_sets (codes "EXCLUDED.") [] b.on_duplicate_update_cols) out

unfoldable pub write_returning : Dialect → Text → Output → Output
write_returning postgres (c ∷ col) out =
    write (codes " RETURNING " ++ sanitize_identifier (c ∷ col)) out
write_returning _ _ out = out

unfoldable pub insert_columns : List Text → Builder → Output → Output
insert_columns [] b out = out
insert_columns (k ∷ ks) b out =
    out
    ▷ push (map (λ c. value_at c b.inserts) (k ∷ ks))
    ▷ write (
        codes "INSERT INTO "
        ++ b.table
        ++ codes " ("
        ++ join (map sanitize_identifier (k ∷ ks)) (codes ", ")
        ++ codes ") VALUES ("
        ++ join (map (λ _. codes "?") (k ∷ ks)) (codes ", ")
        ++ codes ")")
    ▷ upsert_for b.dialect b
    ▷ write_returning b.dialect b.auto_inc_col

unfoldable pub build_insert : Builder → Output → Output
build_insert b out = insert_columns (sorted_keys b.inserts) b out

unfoldable pub insert_rows : List Text → List Text → Builder → Output → Output
insert_rows (c ∷ names) (p ∷ rows) b out =
    out
    ▷ write (
        codes "INSERT INTO "
        ++ b.table
        ++ codes " ("
        ++ join (c ∷ names) (codes ", ")
        ++ codes ") VALUES "
        ++ join (p ∷ rows) (codes ", "))
    ▷ push b.insert_batch_args
    ▷ upsert_for b.dialect b
insert_rows _ _ b out = out

unfoldable pub build_insert_batch : Builder → Output → Output
build_insert_batch b out = insert_rows b.insert_batch_cols b.insert_batch_placeholders b out

unfoldable pub update_columns : List Text → Builder → Output → Output
update_columns [] b out = out
update_columns (k ∷ ks) b out =
    out
    ▷ push (map (λ c. value_at c b.updates) (k ∷ ks))
    ▷ write (
        codes "UPDATE "
        ++ b.table
        ++ codes " SET "
        ++ join (map (λ c. sanitize_identifier c ++ codes " = ?") (k ∷ ks)) (codes ", "))
    ▷ build_wheres b.soft_delete_condition b.wheres

unfoldable pub build_update : Builder → Output → Output
build_update b out = update_columns (sorted_keys b.updates) b out

unfoldable pub build_delete : Builder → Output → Output
build_delete b out =
    out
    ▷ write (codes "DELETE FROM ")
    ▷ write b.table
    ▷ build_wheres b.soft_delete_condition b.wheres

unfoldable pub build_action : Action → Builder → Output
build_action Action.insert b = build_insert b nothing_written
build_action Action.insert_batch b = build_insert_batch b nothing_written
build_action Action.update b = build_update b nothing_written
build_action Action.delete b = build_delete b nothing_written
build_action Action.select b = build_select b nothing_written

-- `sqlx.Named` is a parameter; nothing is returned where it fails.
module _ (named : Text → Columns → Option Output) where
  raw_statement : Text → Option Columns → List Value → Output
  raw_statement query (some args) _ = elim (named query args) [
    | none ↦ record { sql = query; args = [] }
    | some out ↦ out
  ]
  raw_statement query none args = record { sql = query; args = args }

  pub build_raw : Builder → Output
  build_raw b = elim b.raw_query [
    | [] ↦ build_action b.action b
    | _ ∷ _ ↦ raw_statement b.raw_query b.named_args b.raw_args
  ]
