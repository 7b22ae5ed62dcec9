-- ===== src/Db/Builder.antt =====
-- internal/db/builder.go: the state of a query builder and the methods that extend it. A method
-- that changes the builder and returns it is a function from builders to builders. The setters of
-- the executor, the context and the destination value have no part in the text of a query.
use kiya.Base.{ℕ, Bool, true, false, List, [], ◌∷◌, ◌++◌, Option, none, some, map, not, ◌==◌}
use kiya.Base.Int.{ℤ, pos, negsuc}
use kiya.Text.{Text, codes, join}
use kiya.Db.Sanitize.{sanitize_identifier, sanitize_order_by, sanitize_on_clause}

-- A value of type `any`. `other` stands for values that the builder only hands on, with the answer of
-- `isZero` (internal/db/reflect.go) for them.
pub data Value : Type 0 where
  null : Value
  int : ℤ → Value
  text : Text → Value
  bool : Bool → Value
  other : Bool → ℕ → Value

pub data Junction : Type 0 where
  and or : Junction

-- `whereClause`: `boolean` is always "AND" or "OR"
pub record WhereClause : Type 0 where
  pub boolean : Junction
  pub expr : Text
  pub args : List Value

pub record JoinClause : Type 0 where
  pub typ : Text
  pub table : Text
  pub on : Text

pub record SelectClause : Type 0 where
  pub expr : Text
  pub args : List Value

-- the string that selects the statement in `buildRaw`; `select` is every other string
pub data Action : Type 0 where
  select insert insert_batch update delete : Action

-- the two implementations of `Dialect` in internal/db/dialect.go
pub data Dialect : Type 0 where
  mysql postgres : Dialect

-- a map with string keys, its entries in the order in which an iteration meets them
abbrev pub Columns : Type 0
Columns = List (Text × Value)

-- What `reflect` finds behind `dest`: nothing, a nil pointer, a struct with its columns, or a value
-- of another kind.
pub data Dest : Type 0 where
  absent nil_ptr : Dest
  columns : List Text → Dest
  unstructured : Dest

pub record Builder : Type 0 where
  pub table : Text
  pub selects : List SelectClause
  pub joins : List JoinClause
  pub wheres : List WhereClause
  pub group_bys : List Text
  pub havings : List WhereClause
  pub order_bys : List Text
  pub limit : Option ℤ
  pub offset : Option ℤ
  pub action : Action
  pub inserts : Columns
  pub updates : Columns
  pub insert_batch_cols : List Text
  pub insert_batch_placeholders : List Text
  pub insert_batch_args : List Value
  pub nullable_cols : List Text
  pub on_duplicate_update_cols : List Text
  pub primary_keys : List Text
  pub auto_inc_col : Text
  pub raw_query : Text
  pub raw_args : List Value
  pub named_args : Option Columns
  pub dialect : Dialect
  pub dest : Dest
  pub res : Option Value
  pub scope : Option (List Text → Value → Columns)
  pub soft_delete_condition : Text
  pub scope_skipped : Bool
  pub scope_applied : Bool
  pub unsafe_allow_empty_where : Bool
  pub lock_for_update : Bool
  pub history_tracking_disabled : Bool

-- a builder with nothing set but its table and its dialect
unfoldable pub new_builder : Text → Dialect → Builder
new_builder table dialect = record {
  table = table;
  selects = [];
  joins = [];
  wheres = [];
  group_bys = [];
  havings = [];
  order_bys = [];
  limit = none;
  offset = none;
  action = Action.select;
  inserts = [];
  updates = [];
  insert_batch_cols = [];
  insert_batch_placeholders = [];
  insert_batch_args = [];
  nullable_cols = [];
  on_duplicate_update_cols = [];
  primary_keys = [];
  auto_inc_col = [];
  raw_query = [];
  raw_args = [];
  named_args = none;
  dialect = dialect;
  dest = Dest.absent;
  res = none;
  scope = none;
  soft_delete_condition = [];
  scope_skipped = false;
  scope_applied = false;
  unsafe_allow_empty_where = false;
  lock_for_update = false;
  history_tracking_disabled = false;
}

unfoldable pub no_scope : Builder → Builder
no_scope b = record b { scope_skipped = true }

unfoldable pub unsafe : Builder → Builder
unsafe b = record b { unsafe_allow_empty_where = true }

unfoldable pub no_history : Builder → Builder
no_history b = record b { history_tracking_disabled = true }

unfoldable pub lock : Builder → Builder
lock b = record b { lock_for_update = true }

unfoldable pub cols : List Text → Builder → Builder
cols names b = record b { selects = b.selects ++ map (λ c. record { expr = c; args = [] }) names }

unfoldable pub nullable : List Text → Builder → Builder
nullable names b = record b { nullable_cols = b.nullable_cols ++ names }

unfoldable pub on_conflict_update : List Text → Builder → Builder
on_conflict_update names b = record b { on_duplicate_update_cols = names }

unfoldable pub and_where : Text → List Value → Builder → Builder
and_where expr args b = record b {
  wheres = b.wheres ++ record { boolean = and; expr = expr; args = args } ∷ [];
}

unfoldable pub or_where : Text → List Value → Builder → Builder
or_where expr args b = record b {
  wheres = b.wheres ++ record { boolean = or; expr = expr; args = args } ∷ [];
}

unfoldable pub bind : Dest → Builder → Builder
bind dest b = record b { dest = dest }

unfoldable pub set_resources : Option Value → Builder → Builder
set_resources res b = record b { res = res }

-- `if s == "" { return b }` before the rest of a method
unfoldable pub unless_empty : Text → (Text → Builder → Builder) → Builder → Builder
unless_empty [] method b = b
unless_empty (c ∷ s) method b = method (c ∷ s) b

-- `fmt.Sprintf("%s<op>", safeCol)` as one more condition
unfoldable pub compare_with : Text → List Value → Text → Builder → Builder
compare_with op args col b = and_where (col ++ op) args b

unfoldable pub where_eq : Text → Value → Builder → Builder
where_eq col val b =
    unless_empty (sanitize_identifier col) (compare_with (codes " = ?") (val ∷ [])) b

unfoldable pub where_not_eq : Text → Value → Builder → Builder
where_not_eq col val b =
    unless_empty (sanitize_identifier col) (compare_with (codes " != ?") (val ∷ [])) b

unfoldable pub where_gt : Text → Value → Builder → Builder
where_gt col val b =
    unless_empty (sanitize_identifier col) (compare_with (codes " > ?") (val ∷ [])) b

unfoldable pub where_gte : Text → Value → Builder → Builder
where_gte col val b =
    unless_empty (sanitize_identifier col) (compare_with (codes " >= ?") (val ∷ [])) b

unfoldable pub where_lt : Text → Value → Builder → Builder
where_lt col val b =
    unless_empty (sanitize_identifier col) (compare_with (codes " < ?") (val ∷ [])) b

unfoldable pub where_lte : Text → Value → Builder → Builder
where_lte col val b =
    unless_empty (sanitize_identifier col) (compare_with (codes " <= ?") (val ∷ [])) b

unfoldable pub where_like : Text → Text → Builder → Builder
where_like col pattern_text b =
    unless_empty (sanitize_identifier col) (compare_with (codes " LIKE ?") (text pattern_text ∷ []))
      b

unfoldable pub where_null : Text → Builder → Builder
where_null col b = unless_empty (sanitize_identifier col) (compare_with (codes " IS NULL") []) b

-- one "?" for each value, joined by ", "
unfoldable pub placeholders : List Value → Text
placeholders vals = join (map (λ _. codes "?") vals) (codes ", ")

unfoldable pub where_in_safe : List Value → Text → Builder → Builder
where_in_safe [] col b = and_where (codes "1 = 0") [] b
where_in_safe (v ∷ vals) col b =
    and_where (col ++ codes " IN (" ++ placeholders (v ∷ vals) ++ codes ")") (v ∷ vals) b

unfoldable pub where_in : Text → List Value → Builder → Builder
where_in col vals b = unless_empty (sanitize_identifier col) (where_in_safe vals) b

unfoldable pub where_not_in_safe : List Value → Text → Builder → Builder
where_not_in_safe [] col b = b
where_not_in_safe (v ∷ vals) col b =
    and_where (col ++ codes " NOT IN (" ++ placeholders (v ∷ vals) ++ codes ")") (v ∷ vals) b

unfoldable pub where_not_in : Text → List Value → Builder → Builder
where_not_in col vals b = unless_empty (sanitize_identifier col) (where_not_in_safe vals) b

unfoldable pub join_safe : Text → Text → Text → Builder → Builder
join_safe on typ table b = record b {
  joins = b.joins ++ record { typ = typ; table = table; on = sanitize_on_clause on } ∷ [];
}

unfoldable pub join_table : Text → Text → Text → Builder → Builder
join_table table on typ b = unless_empty (sanitize_identifier table) (join_safe on typ) b

unfoldable pub left_join : Text → Text → Builder → Builder
left_join table on b = join_table table on (codes "LEFT") b

unfoldable pub right_join : Text → Text → Builder → Builder
right_join table on b = join_table table on (codes "RIGHT") b

unfoldable pub inner_join : Text → Text → Builder → Builder
inner_join table on b = join_table table on (codes "INNER") b

-- `if c != "" { validCols = append(validCols, c) }`
abbrev pub keep : Text → List Text → List Text
keep [] rest = rest
keep (c ∷ s) rest = (c ∷ s) ∷ rest

-- the columns that are left when each is sanitised and the empty ones are dropped
unfoldable pub valid_cols : List Text → List Text
valid_cols [] = []
valid_cols (c ∷ names) = keep (sanitize_identifier c) (valid_cols names)

unfoldable pub group_by : List Text → Builder → Builder
group_by names b = record b { group_bys = b.group_bys ++ valid_cols names }

unfoldable pub having : Text → List Value → Builder → Builder
having expr args b = record b {
  havings = b.havings ++ record { boolean = and; expr = expr; args = args } ∷ [];
}

unfoldable pub order_by_safe : Text → Builder → Builder
order_by_safe expr b = record b { order_bys = b.order_bys ++ expr ∷ [] }

unfoldable pub order_by : Text → Builder → Builder
order_by expr b = unless_empty (sanitize_order_by expr) order_by_safe b

unfoldable pub set_limit : ℤ → Builder → Builder
set_limit n b = record b { limit = some n }

unfoldable pub set_offset : ℤ → Builder → Builder
set_offset n b = record b { offset = some n }

-- `SetSoftDeleteCondition` and `ClearSoftDeleteCondition` of internal/db/helpers.go
unfoldable pub set_soft_delete_condition : Text → Builder → Builder
set_soft_delete_condition cond b = record b { soft_delete_condition = cond }

unfoldable pub clear_soft_delete_condition : Builder → Builder
clear_soft_delete_condition b = record b { soft_delete_condition = [] }

abbrev is_zero_int : ℤ → Bool
is_zero_int (pos n) = n == 0
is_zero_int (negsuc n) = false

-- `s == ""`
abbrev pub is_empty : Text → Bool
is_empty [] = true
is_empty (c ∷ s) = false

-- `isZero` of internal/db/reflect.go, and nil
unfoldable pub is_zero : Value → Bool
is_zero null = true
is_zero (int n) = is_zero_int n
is_zero (text s) = is_empty s
is_zero (bool v) = not v
is_zero (other z _) = z
