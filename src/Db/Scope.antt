-- ===== src/Db/Scope.antt =====
-- `applyScope` of internal/db/builder.go: the conditions that a scope function adds to a query once.
pub mod Laws
use kiya.Base.{Bool, true, false, List, [], ◌∷◌, ◌++◌, Option, none, some, map, ◌▷◌}
use kiya.Text.{Text, codes, sort_texts}
use kiya.Db.Sanitize.{sanitize_identifier}
use kiya.Db.Builder.{Value, and, WhereClause, SelectClause, Columns, Dest, Builder}
use kiya.Db.Sql.{Output, nothing_written, write, push, write_clauses, value_at}

-- The fields that the scope function is told of; nothing for a destination that is a nil pointer,
-- where `applyScope` returns.
unfoldable pub scope_fields : List SelectClause → Dest → Option (List Text)
scope_fields (s ∷ ss) dest = some (map (λ s. s.expr) (s ∷ ss))
scope_fields [] Dest.nil_ptr = none
scope_fields [] (Dest.columns names) = some names
scope_fields [] Dest.absent = some []
scope_fields [] Dest.unstructured = some []

unfoldable pub all_keys : Columns → List Text
all_keys [] = []
all_keys ((k, v) ∷ m) = k ∷ all_keys m

-- one round of the loop over the sorted keys, and the flag `first` after it
unfoldable pub scope_round : Text → Value → Bool × Output → Bool × Output
scope_round [] v (first, out) = (first, out)
scope_round (c ∷ s) v (true, out) = (false, out ▷ write ((c ∷ s) ++ codes " = ?") ▷ push (v ∷ []))
scope_round (c ∷ s) v (false, out) =
    (false, out ▷ write (codes " AND ") ▷ write ((c ∷ s) ++ codes " = ?") ▷ push (v ∷ []))

unfoldable pub scope_group : List Text → Columns → Bool × Output → Output
scope_group [] conds (first, out) = out
scope_group (k ∷ ks) conds state =
    scope_group ks conds (scope_round (sanitize_identifier k) (value_at k conds) state)

-- `"(" + expr + ")"` with its arguments, as one condition
unfoldable pub grouped : Output → WhereClause
grouped out = record { boolean = and; expr = codes "(" ++ out.sql ++ codes ")"; args = out.args }

-- the conditions after the group is added
unfoldable pub scoped_wheres : List WhereClause → Output → List WhereClause
scoped_wheres [] group = grouped group ∷ []
scoped_wheres (w ∷ ws) group = grouped (write_clauses (w ∷ ws) nothing_written) ∷ grouped group ∷ []

-- `groupExpr.Len() == 0` returns
unfoldable pub add_nonempty : Text → Output → Builder → Builder
add_nonempty [] group b = b
add_nonempty (c ∷ s) group b = record b { wheres = scoped_wheres b.wheres group }

unfoldable pub add_group : Output → Builder → Builder
add_group group b = add_nonempty group.sql group b

unfoldable pub add_conditions : Columns → Builder → Builder
add_conditions conds b =
    add_group (scope_group (sort_texts (all_keys conds)) conds (true, nothing_written)) b

unfoldable pub scope_query :
    Option (List Text → Value → Columns)
    → Option Value
    → Bool
    → Option (List Text)
    → Builder
    → Builder
scope_query (some scope) (some res) false (some fields) b = add_conditions (scope fields res) b
scope_query _ _ _ _ b = b

unfoldable pub apply_scope_once : Bool → Builder → Builder
apply_scope_once true b = b
apply_scope_once false b =
    scope_query b.scope b.res b.scope_skipped (scope_fields b.selects b.dest)
      (record b { scope_applied = true })

unfoldable pub apply_scope : Builder → Builder
apply_scope b = apply_scope_once b.scope_applied b
