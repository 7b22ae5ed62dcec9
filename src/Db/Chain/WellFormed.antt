-- ===== src/Db/Chain/WellFormed.antt =====
-- The weights of a builder under the calls of internal/db/builder.go.
use kiya.Base.{
  String, ◌*◌, ◌≡◌, refl, Bool, true, false, List, [], ◌∷◌, ◌++◌, map, arith, length, All,
  All-append, All-snoc, if◌then◌else◌,
}
use kiya.Text.{Text, codes, join, count_in}
use kiya.Text.Laws.{count_in-append}
use kiya.Db.Sanitize.{sanitize_identifier, sanitize_on_clause}
use kiya.Db.Builder
use kiya.Db.Builder.{
  Value, Dialect, Builder, WhereClause, JoinClause, and, or, unless_empty, compare_with,
  placeholders, where_in_safe, where_not_in_safe, join_safe, order_by_safe, valid_cols, keep,
}
use kiya.Db.Sql.Balanced.{Weight, is_plain, ClauseFits}
use kiya.Db.Sql.Statement.{Silent, WellFormed, JoinFits, SelectFits, Silent-literal, count-marked}
use kiya.Db.Sql.Writing.{
  Silent-nil, Silent-sanitize_identifier, Silent-sanitize_order_by, count-join-map, count-mark,
}
use kiya.Db.Chain.{Call, Comparison, call, run}

module _ (weight : Weight) where
  open weight use {counted as p, unit as k}

  -- What a call has to respect: raw texts weigh what their arguments weigh.
  abbrev pub CallFits : Call → Type 0
  CallFits (Call.and_where e vs) = count_in p e ≡ k * length vs
  CallFits (Call.or_where e vs) = count_in p e ≡ k * length vs
  CallFits (Call.having e vs) = count_in p e ≡ k * length vs
  CallFits (Call.left_join t on) = Silent weight on
  CallFits (Call.right_join t on) = Silent weight on
  CallFits (Call.inner_join t on) = Silent weight on
  CallFits (Call.join_table t on typ) = Silent weight on × Silent weight typ
  CallFits (Call.cols names) = All (Silent weight) names
  CallFits (Call.set_soft_delete c) = Silent weight c
  CallFits _ = Unit

  WellFormed-and_where :
      (e : Text) (vs : List Value) (b : Builder)
      → count_in p e ≡ k * length vs
      → WellFormed weight b
      → WellFormed weight (Builder.and_where e vs b)
  unfolding Builder.and_where
  WellFormed-and_where e vs b z h =
      let w : WhereClause = record { boolean = and; expr = e; args = vs } in
      assumption (All-snoc (ClauseFits weight) b.wheres w h.wheres z)

  WellFormed-unless_empty :
      (s : Text) (method : Text → Builder → Builder) (b : Builder)
      → ((t : Text) → Silent weight t → WellFormed weight (method t b))
      → Silent weight s
      → WellFormed weight b
      → WellFormed weight (unless_empty s method b)
  unfolding unless_empty
  WellFormed-unless_empty [] method b f z h = h
  WellFormed-unless_empty (c ∷ s) method b f z h = f (c ∷ s) z

  WellFormed-compare_with :
      (op : Text) (vs : List Value) (col : Text) (b : Builder)
      → count_in p op ≡ k * length vs
      → Silent weight col
      → WellFormed weight b
      → WellFormed weight (compare_with op vs col b)
  unfolding compare_with
  WellFormed-compare_with op vs col b z hc h =
      WellFormed-and_where _ vs b (omega (arith, count_in-append p col op)) h

  -- a comparison of a sanitised column with a placeholder
  WellFormed-where_op :
      (op : Text) (vs : List Value) (col : Text) (b : Builder)
      → count_in p op ≡ k * length vs
      → WellFormed weight b
      → WellFormed weight (unless_empty (sanitize_identifier col) (compare_with op vs) b)
  WellFormed-where_op op vs col b z h =
      WellFormed-unless_empty _ _ b (λ t ht. WellFormed-compare_with op vs t b z ht h)
        (Silent-sanitize_identifier weight col) h

  -- "<op> ?"
  count-op :
      (s : Text) → Silent weight s → (v : Value) → count_in p (s ++ b'?' ∷ []) ≡ k * length (v ∷ [])
  count-op s z v = omega (arith, count-marked weight s z)

  WellFormed-compare :
      (c : Comparison) (col : Text) (v : Value) (b : Builder)
      → WellFormed weight b
      → WellFormed weight (call (Call.compare c col v) b)
  unfolding call Builder.where_eq Builder.where_not_eq Builder.where_gt Builder.where_gte
      Builder.where_lt Builder.where_lte is_plain
  WellFormed-compare Comparison.eq col v b =
      WellFormed-where_op _ _ col b (count-op _ (Silent-literal weight " = " refl) v)
  WellFormed-compare Comparison.not_eq col v b =
      WellFormed-where_op _ _ col b (count-op _ (Silent-literal weight " != " refl) v)
  WellFormed-compare Comparison.gt col v b =
      WellFormed-where_op _ _ col b (count-op _ (Silent-literal weight " > " refl) v)
  WellFormed-compare Comparison.gte col v b =
      WellFormed-where_op _ _ col b (count-op _ (Silent-literal weight " >= " refl) v)
  WellFormed-compare Comparison.lt col v b =
      WellFormed-where_op _ _ col b (count-op _ (Silent-literal weight " < " refl) v)
  WellFormed-compare Comparison.lte col v b =
      WellFormed-where_op _ _ col b (count-op _ (Silent-literal weight " <= " refl) v)

  WellFormed-in_list :
      (keyword : String) (v : Value) (vs : List Value) (col : Text) (b : Builder)
      → Silent weight (codes keyword)
      → Silent weight col
      → WellFormed weight b
      → WellFormed weight (
          Builder.and_where (col ++ codes keyword ++ placeholders (v ∷ vs) ++ codes ")") (v ∷ vs) b)
  unfolding placeholders is_plain
  WellFormed-in_list keyword v vs col b hk hc h =
      WellFormed-and_where _ _ b
        (simp count_in-append (
          omega (
            arith,
            Silent-literal weight ")" refl,
            count-join-map weight (λ (_ : Value). codes "?") (λ _. count-mark weight) (v ∷ vs),
          )))
        h

  WellFormed-where_in :
      (vs : List Value) (col : Text) (b : Builder)
      → Silent weight col
      → WellFormed weight b
      → WellFormed weight (where_in_safe vs col b)
  unfolding where_in_safe is_plain
  WellFormed-where_in [] col b hc h =
      WellFormed-and_where _ _ b (omega (arith, Silent-literal weight "1 = 0" refl)) h
  WellFormed-where_in (v ∷ vs) col b hc h =
      WellFormed-in_list " IN (" v vs col b (Silent-literal weight " IN (" refl) hc h

  WellFormed-where_not_in :
      (vs : List Value) (col : Text) (b : Builder)
      → Silent weight col
      → WellFormed weight b
      → WellFormed weight (where_not_in_safe vs col b)
  unfolding where_not_in_safe is_plain
  WellFormed-where_not_in [] col b hc h = h
  WellFormed-where_not_in (v ∷ vs) col b hc h =
      WellFormed-in_list " NOT IN (" v vs col b (Silent-literal weight " NOT IN (" refl) hc h

  pub Silent-if :
      (test : Bool) (s t : Text)
      → Silent weight s
      → Silent weight t
      → Silent weight (if test then s else t)
  Silent-if true s t hs ht = hs
  Silent-if false s t hs ht = ht

  Silent-sanitize_on_clause : (on : Text) → Silent weight on → Silent weight (sanitize_on_clause on)
  unfolding sanitize_on_clause is_plain
  Silent-sanitize_on_clause on h = search (Silent-if, Silent-literal weight "1=0" refl)

  WellFormed-join :
      (table on typ : Text) (b : Builder)
      → Silent weight on
      → Silent weight typ
      → WellFormed weight b
      → WellFormed weight (Builder.join_table table on typ b)
  unfolding Builder.join_table join_safe
  WellFormed-join table on typ b ho ht h =
      WellFormed-unless_empty _ _ b
        (λ t z. assumption (
          let j : JoinClause = record { typ = typ; table = t; on = sanitize_on_clause on } in
          All-snoc (JoinFits weight) b.joins j h.joins (ht, z, Silent-sanitize_on_clause on ho)))
        (Silent-sanitize_identifier weight table) h

  Silent-valid_cols : (names : List Text) → All (Silent weight) (valid_cols names)
  unfolding valid_cols
  Silent-valid_cols [] = tt
  Silent-valid_cols (c ∷ names) =
      Silent-keep _ _ (Silent-sanitize_identifier weight c) (Silent-valid_cols names)
    where
      Silent-keep :
          (s : Text) (ss : List Text)
          → Silent weight s
          → All (Silent weight) ss
          → All (Silent weight) (keep s ss)
      Silent-keep [] ss z hs = hs
      Silent-keep (d ∷ s) ss z hs = (z, hs)

  pub SelectFits-cols :
      (names : List Text)
      → All (Silent weight) names
      → All (SelectFits weight) (map (λ c. record { expr = c; args = [] }) names)
  SelectFits-cols [] h = tt
  SelectFits-cols (c ∷ names) (z, h) = (omega arith, SelectFits-cols names h)

  WellFormed-order_by :
      (e : Text) (b : Builder) → WellFormed weight b → WellFormed weight (Builder.order_by e b)
  unfolding Builder.order_by order_by_safe
  WellFormed-order_by e b h =
      WellFormed-unless_empty _ _ b
        (λ t z. assumption (All-snoc (Silent weight) b.order_bys t h.order_bys z))
        (Silent-sanitize_order_by weight e) h

  WellFormed-call :
      (c : Call) (b : Builder) → CallFits c → WellFormed weight b → WellFormed weight (call c b)
  unfolding call is_plain Builder.where_like Builder.where_null Builder.where_in
      Builder.where_not_in Builder.or_where Builder.having Builder.left_join Builder.right_join
      Builder.inner_join Builder.cols Builder.group_by Builder.nullable Builder.on_conflict_update
      Builder.set_limit Builder.set_offset Builder.bind Builder.set_resources Builder.no_scope
      Builder.unsafe Builder.no_history Builder.lock Builder.set_soft_delete_condition
      Builder.clear_soft_delete_condition
  WellFormed-call (Call.compare c col v) b f h = unfold call in WellFormed-compare c col v b h
  WellFormed-call (Call.like col s) b f h =
      WellFormed-where_op _ _ col b
        (count-op _ (Silent-literal weight " LIKE " refl) (Value.text s)) h
  WellFormed-call (Call.is_null col) b f h =
      WellFormed-where_op _ _ col b (omega (arith, Silent-literal weight " IS NULL" refl)) h
  WellFormed-call (Call.in_list col vs) b f h =
      WellFormed-unless_empty _ _ b (λ t z. WellFormed-where_in vs t b z h)
        (Silent-sanitize_identifier weight col) h
  WellFormed-call (Call.not_in_list col vs) b f h =
      WellFormed-unless_empty _ _ b (λ t z. WellFormed-where_not_in vs t b z h)
        (Silent-sanitize_identifier weight col) h
  WellFormed-call (Call.and_where e vs) b f h = WellFormed-and_where e vs b f h
  WellFormed-call (Call.or_where e vs) b f h =
      let w : WhereClause = record { boolean = or; expr = e; args = vs } in
      assumption (All-snoc (ClauseFits weight) b.wheres w h.wheres f)
  WellFormed-call (Call.having e vs) b f h =
      let w : WhereClause = record { boolean = and; expr = e; args = vs } in
      assumption (All-snoc (ClauseFits weight) b.havings w h.havings f)
  WellFormed-call (Call.left_join t on) b f h =
      WellFormed-join t on _ b f (Silent-literal weight "LEFT" refl) h
  WellFormed-call (Call.right_join t on) b f h =
      WellFormed-join t on _ b f (Silent-literal weight "RIGHT" refl) h
  WellFormed-call (Call.inner_join t on) b f h =
      WellFormed-join t on _ b f (Silent-literal weight "INNER" refl) h
  WellFormed-call (Call.join_table t on typ) b f h = WellFormed-join t on typ b f.0 f.1 h
  WellFormed-call (Call.cols names) b f h =
      assumption (All-append (SelectFits weight) b.selects _ h.selects (SelectFits-cols names f))
  WellFormed-call (Call.group_by names) b f h =
      assumption (All-append (Silent weight) b.group_bys _ h.group_bys (Silent-valid_cols names))
  WellFormed-call (Call.order_by e) b f h = WellFormed-order_by e b h
  WellFormed-call (Call.set_soft_delete c) b f h = assumption
  WellFormed-call Call.clear_soft_delete b f h = assumption (Silent-nil weight)
  WellFormed-call _ b f h = assumption

  -- Every chain of calls that respects the weights keeps them.
  pub WellFormed-run :
      (cs : List Call) (b : Builder)
      → All CallFits cs
      → WellFormed weight b
      → WellFormed weight (run cs b)
  unfolding run
  WellFormed-run [] b fs h = h
  WellFormed-run (c ∷ cs) b (f, fs) h = WellFormed-run cs (call c b) fs (WellFormed-call c b f h)

  pub WellFormed-new_builder :
      (table : Text) (d : Dialect)
      → Silent weight table
      → WellFormed weight (Builder.new_builder table d)
  unfolding Builder.new_builder count_in join
  WellFormed-new_builder table d z = record {
    table = z;
    selects = tt;
    joins = tt;
    wheres = tt;
    group_bys = tt;
    havings = tt;
    order_bys = tt;
    soft_delete = refl;
    batch_cols = tt;
    batch_rows = omega arith;
    primary_keys = tt;
  }
