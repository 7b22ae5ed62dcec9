-- ===== src/Db/Query/Safety.antt =====
-- About every statement that a query gives (internal/db): its placeholders and its bytes.
use kiya.Base.{
  All-append, Option, Bool-cases, inl, inr, ℕ, ◌*◌, ◌≡◌, refl, Bool, true, false, not, ◌||◌, List,
  [], ◌∷◌, arith, All, length, ◌==◌,
}
use kiya.Text.{Text, count_in}
use kiya.Base.Int.{pos}
use kiya.Db.Sanitize.{sanitize_identifier}
use kiya.Db.Builder
use kiya.Db.Builder.{Dialect, Builder, set_limit, is_empty}
use kiya.Db.Sql.Writing.{Silent-sanitize_identifier}
use kiya.Db.Scope.{apply_scope}
use kiya.Db.Scope.Laws.{WellFormed-apply_scope}
use kiya.Db.Model.{Model, column_names, cached_fields, table_name}
use kiya.Db.Model.Writing.{selected_names}
use kiya.Db.History.Models.{finding_model, all_columns, with_table}
use kiya.Db.Sql.{Output, build_action}
use kiya.Db.Sql.Balanced.{plain, Weight, Fits, count-of_Fits}
use kiya.Db.Sql.Statement.{WellFormed, Silent, SelectFits}
use kiya.Db.Sql.Writing.{Fits-build_action}
use kiya.Db.Write.{Result, ok, ◌>>=◌}
use kiya.Db.Write.Laws.{Ensures, of_Ensures, holds, fails, exec-Ensures}
use kiya.Db.Read.Laws.{exec_count-Ensures, exec_exist-Ensures}
use kiya.Db.Chain.{Call}
use kiya.Db.Chain.WellFormed.{
  CallFits, SelectFits-cols, Silent-if, WellFormed-run, WellFormed-new_builder,
}
use kiya.Db.Model.WellFormed.{WriteFits, exec_model-Ensures}
use kiya.Db.Query.{
  Ending, build, count, exist, find, ScopeFunc, scoped_table, write, write_models, prepare, query,
}

abbrev pub is_mark : ℕ → Bool
is_mark c = c == b'?'

-- a byte that no identifier, keyword or placeholder holds, such as a quote, a semicolon or a dash
abbrev pub is_foreign : ℕ → Bool
is_foreign c = not (plain c || c == b'?')

pub quiet_mark : (c : ℕ) → plain c ≡ true → is_mark c ≡ false
unfolding plain
quiet_mark c h = ground arith

pub quiet_foreign : (c : ℕ) → plain c ≡ true → is_foreign c ≡ false
quiet_foreign c h = ground arith

pub count-mark : count_in is_mark (b'?' ∷ []) ≡ 1
unfolding count_in
count-mark = refl

pub count-foreign : count_in is_foreign (b'?' ∷ []) ≡ 0
unfolding count_in plain
count-foreign = refl

-- Placeholders weigh 1.
abbrev pub mark_weight : Weight
mark_weight = record { counted = is_mark; unit = 1; quiet = quiet_mark; mark = count-mark }

-- Foreign bytes are counted, and placeholders hold none.
abbrev pub foreign_weight : Weight
foreign_weight = record {
  counted = is_foreign;
  unit = 0;
  quiet = quiet_foreign;
  mark = count-foreign;
}

module _ (weight : Weight) where
  open weight use {counted as p, unit as k}

  abbrev pub EndingFits : Ending → Type 0
  EndingFits (write_models w) = WriteFits weight w
  EndingFits (find d) = All (Silent weight) (column_names (cached_fields d.fields))
  EndingFits _ = Unit

  WellFormed-all_columns :
      (names : List Text) (d : Model) (b : Builder)
      → All (Silent weight) (column_names (cached_fields d.fields))
      → WellFormed weight b
      → WellFormed weight (all_columns names d b)
  unfolding Builder.cols
  WellFormed-all_columns [] d b f h =
      assumption (All-append (SelectFits weight) b.selects _ h.selects (SelectFits-cols weight _ f))
  WellFormed-all_columns (c ∷ names) d b f h = h

  with_table-Ensures :
      (t : Text) (b : Builder)
      → Silent weight t
      → WellFormed weight b
      → Ensures (WellFormed weight) (with_table t b)
  with_table-Ensures [] b z h = fails
  with_table-Ensures (c ∷ s) b z h =
      let u : Builder = record b { table = c ∷ s } in holds {c = u} assumption

  finding_model-Ensures :
      (d : Model) (b : Builder)
      → All (Silent weight) (column_names (cached_fields d.fields))
      → WellFormed weight b
      → Ensures (WellFormed weight) (finding_model d b)
  unfolding finding_model Builder.set_limit
  finding_model-Ensures d b f h =
      let scoped = apply_scope b in
      let hs = WellFormed-apply_scope weight b h in
      let limited : Builder = set_limit (pos 1) scoped in
      let hl : WellFormed weight limited = assumption in
      elim (Bool-cases (is_empty scoped.raw_query)) [
        | inr e ↦ rw e (holds hs)
        | inl e ↦ rw e (
            with_table-Ensures _ _
              (Silent-if weight (is_empty scoped.table) _ _
                (Silent-sanitize_identifier weight (table_name d)) hs.table)
              (WellFormed-all_columns (selected_names scoped) d limited f hl))
      ]

  prepare-Ensures :
      (ending : Ending) (b : Builder)
      → EndingFits ending
      → WellFormed weight b
      → Ensures (WellFormed weight) (prepare ending b)
  unfolding prepare
  prepare-Ensures build b f h = holds h
  prepare-Ensures count b f h = exec_count-Ensures weight b h
  prepare-Ensures exist b f h = exec_exist-Ensures weight b h
  prepare-Ensures (find d) b f h = finding_model-Ensures d b f h
  prepare-Ensures (write w) b f h = exec-Ensures weight w b h
  prepare-Ensures (write_models w) b f h = exec_model-Ensures weight w b f h

  prepared-Fits :
      (r : Result Builder) {out : Output}
      → Ensures (WellFormed weight) r
      → (r >>= λ c. ok (build_action c.action c)) ≡ ok out
      → count_in p out.sql ≡ k * length out.args
  prepared-Fits r (holds {c} h) e =
      count-of_Fits weight _
        (of_Ensures {P = Fits weight} (holds (Fits-build_action weight c.action c h)) e)
  prepared-Fits r fails e = cc

  WellFormed-scoped_table :
      (table : Text) (d : Dialect) (scope : Option ScopeFunc)
      → WellFormed weight (scoped_table table d scope)
  unfolding scoped_table
  WellFormed-scoped_table table d scope =
      let h =
        WellFormed-new_builder weight (sanitize_identifier table) d
          (Silent-sanitize_identifier weight table) in
      assumption h

  -- The weight of a whole query, from the first call to the statement.
  query-Fits :
      (table : Text) (d : Dialect) (scope : Option ScopeFunc) (calls : List Call) (ending : Ending)
      {out : Output}
      → All (CallFits weight) calls
      → EndingFits ending
      → query table d scope calls ending ≡ ok out
      → count_in p out.sql ≡ k * length out.args
  unfolding query
  query-Fits table d scope calls ending hs f e =
      prepared-Fits _
        (prepare-Ensures ending _ f
          (WellFormed-run weight calls _ hs (WellFormed-scoped_table table d scope)))
        e

-- For every query of a table, under whatever scope, with any column names and values, that ends in Build, Count,
-- Exist, Find of a model or a write: the statement has as many placeholders as arguments, if each raw text that the
-- caller writes (conditions, ON clauses, kinds of a join, selected columns and the soft-delete condition) has as many
-- as arguments of its own, and the columns that the tags of the model of Find name, and the keys of a model that is
-- inserted, have none.
pub placeholders_match :
    (table : Text) (d : Dialect) (scope : Option ScopeFunc) (calls : List Call) (ending : Ending)
    {out : Output}
    → All (CallFits mark_weight) calls
    → EndingFits mark_weight ending
    → query table d scope calls ending ≡ ok out
    → count_in is_mark out.sql ≡ length out.args
placeholders_match table d scope calls ending hs f e =
    omega (arith, query-Fits mark_weight table d scope calls ending hs f e)

-- For every query as above: no byte of its statement is outside of letters, digits, white space and
-- `_.,=!<>()*?`, so that no quote, semicolon, comment or backslash gets in, if the raw texts listed above and the
-- columns of those models have none. Values, other column names, ORDER BY texts, tables and what the scope gives may
-- hold any bytes.
pub no_foreign_bytes :
    (table : Text) (d : Dialect) (scope : Option ScopeFunc) (calls : List Call) (ending : Ending)
    {out : Output}
    → All (CallFits foreign_weight) calls
    → EndingFits foreign_weight ending
    → query table d scope calls ending ≡ ok out
    → count_in is_foreign out.sql ≡ 0
no_foreign_bytes table d scope calls ending hs f e =
    omega (arith, query-Fits foreign_weight table d scope calls ending hs f e)
