-- ===== src/Db/Chain.antt =====
-- A query is written as a chain of calls on a builder (internal/db/builder.go and helpers.go). The
-- calls as data, so that a theorem can range over all chains.
pub mod WellFormed
use kiya.Base.{List, [], ◌∷◌, Option}
use kiya.Base.Int.{ℤ}
use kiya.Text.{Text}
use kiya.Db.Builder
use kiya.Db.Builder.{Value, Columns, Dest, Builder}

-- the comparisons of `WhereEq` to `WhereLte`
pub data Comparison : Type 0 where
  eq not_eq gt gte lt lte : Comparison

pub data Call : Type 0 where
  compare : Comparison → Text → Value → Call
  like : Text → Text → Call
  is_null : Text → Call
  in_list not_in_list : Text → List Value → Call
  and_where or_where having : Text → List Value → Call
  left_join right_join inner_join : Text → Text → Call
  join_table : Text → Text → Text → Call
  cols group_by nullable on_conflict_update : List Text → Call
  order_by : Text → Call
  limit offset : ℤ → Call
  bind : Dest → Call
  set_resources : Option Value → Call
  no_scope unsafe no_history lock : Call
  set_soft_delete : Text → Call
  clear_soft_delete : Call

unfoldable pub call : Call → Builder → Builder
call (compare eq col v) = Builder.where_eq col v
call (compare not_eq col v) = Builder.where_not_eq col v
call (compare gt col v) = Builder.where_gt col v
call (compare gte col v) = Builder.where_gte col v
call (compare lt col v) = Builder.where_lt col v
call (compare lte col v) = Builder.where_lte col v
call (like col s) = Builder.where_like col s
call (is_null col) = Builder.where_null col
call (in_list col vs) = Builder.where_in col vs
call (not_in_list col vs) = Builder.where_not_in col vs
call (and_where e vs) = Builder.and_where e vs
call (or_where e vs) = Builder.or_where e vs
call (having e vs) = Builder.having e vs
call (left_join t on) = Builder.left_join t on
call (right_join t on) = Builder.right_join t on
call (inner_join t on) = Builder.inner_join t on
call (join_table t on typ) = Builder.join_table t on typ
call (cols names) = Builder.cols names
call (group_by names) = Builder.group_by names
call (nullable names) = Builder.nullable names
call (on_conflict_update names) = Builder.on_conflict_update names
call (order_by e) = Builder.order_by e
call (limit n) = Builder.set_limit n
call (offset n) = Builder.set_offset n
call (bind d) = Builder.bind d
call (set_resources r) = Builder.set_resources r
call no_scope = Builder.no_scope
call unsafe = Builder.unsafe
call no_history = Builder.no_history
call lock = Builder.lock
call (set_soft_delete c) = Builder.set_soft_delete_condition c
call clear_soft_delete = Builder.clear_soft_delete_condition

unfoldable pub run : List Call → Builder → Builder
run [] b = b
run (c ∷ cs) b = run cs (call c b)
