-- ===== src/Db/Scope/Laws.antt =====
-- About `applyScope` of internal/db/builder.go: its repetition, and the weights of a builder under it.
use kiya.Base.{
  ◌*◌, ◌≡◌, refl, Bool, true, false, List, [], ◌∷◌, ◌++◌, Option, some, arith, length, All,
}
use kiya.Text.{Text, codes, count_in}
use kiya.Text.Laws.{count_in-append}
use kiya.Db.Sanitize.{sanitize_identifier}
use kiya.Db.Builder.{Value, Columns, Builder, WhereClause}
use kiya.Db.Sql.{Output, nothing_written, value_at}
use kiya.Db.Sql.Balanced.{
  Weight, Fits, is_plain, ClauseFits, Fits-push, Fits-literal, Fits-nothing_written,
  Fits-write_clauses, count-of_Fits,
}
use kiya.Db.Sql.Statement.{Silent, WellFormed, Silent-literal}
use kiya.Db.Sql.Writing.{Silent-sanitize_identifier, count-set}
use kiya.Db.Scope.{
  scope_round, scope_group, grouped, scoped_wheres, add_nonempty, add_group, add_conditions,
  scope_query, apply_scope_once, apply_scope,
}

scope_applied-add_nonempty :
    (s : Text) (group : Output) (b : Builder)
    → (add_nonempty s group b).scope_applied ≡ b.scope_applied
unfolding add_nonempty
scope_applied-add_nonempty [] group b = refl
scope_applied-add_nonempty (c ∷ s) group b = refl

scope_applied-scope_query :
    (scope : Option (List Text → Value → Columns)) (res : Option Value) (skipped : Bool)
    (fields : Option (List Text)) (b : Builder)
    → (scope_query scope res skipped fields b).scope_applied ≡ b.scope_applied
unfolding scope_query add_conditions add_group
scope_applied-scope_query (some scope) (some res) false (some fields) b =
    scope_applied-add_nonempty _ _ b
scope_applied-scope_query _ _ _ _ b = refl

scope_applied-apply_scope_once :
    (applied : Bool) (b : Builder)
    → b.scope_applied ≡ applied
    → (apply_scope_once applied b).scope_applied ≡ true
unfolding apply_scope_once
scope_applied-apply_scope_once true b e = e
scope_applied-apply_scope_once false b e = scope_applied-scope_query _ _ _ _ _

-- A second application changes nothing.
pub apply_scope_idem : (b : Builder) → apply_scope (apply_scope b) ≡ apply_scope b
unfolding apply_scope
apply_scope_idem b =
    rw (scope_applied-apply_scope_once b.scope_applied b refl) (unfold apply_scope_once in refl)

soft_delete-add_nonempty :
    (s : Text) (group : Output) (b : Builder)
    → (add_nonempty s group b).soft_delete_condition ≡ b.soft_delete_condition
unfolding add_nonempty
soft_delete-add_nonempty [] group b = refl
soft_delete-add_nonempty (c ∷ s) group b = refl

soft_delete-scope_query :
    (scope : Option (List Text → Value → Columns)) (res : Option Value) (skipped : Bool)
    (fields : Option (List Text)) (b : Builder)
    → (scope_query scope res skipped fields b).soft_delete_condition ≡ b.soft_delete_condition
unfolding scope_query add_conditions add_group
soft_delete-scope_query (some scope) (some res) false (some fields) b =
    soft_delete-add_nonempty _ _ b
soft_delete-scope_query _ _ _ _ b = refl

soft_delete-apply_scope_once :
    (applied : Bool) (b : Builder)
    → (apply_scope_once applied b).soft_delete_condition ≡ b.soft_delete_condition
unfolding apply_scope_once
soft_delete-apply_scope_once true b = refl
soft_delete-apply_scope_once false b = soft_delete-scope_query _ _ _ _ _

pub soft_delete-apply_scope :
    (b : Builder) → (apply_scope b).soft_delete_condition ≡ b.soft_delete_condition
unfolding apply_scope
soft_delete-apply_scope b = soft_delete-apply_scope_once b.scope_applied b

selects-add_nonempty :
    (s : Text) (group : Output) (b : Builder) → (add_nonempty s group b).selects ≡ b.selects
unfolding add_nonempty
selects-add_nonempty [] group b = refl
selects-add_nonempty (c ∷ s) group b = refl

selects-scope_query :
    (scope : Option (List Text → Value → Columns)) (res : Option Value) (skipped : Bool)
    (fields : Option (List Text)) (b : Builder)
    → (scope_query scope res skipped fields b).selects ≡ b.selects
unfolding scope_query add_conditions add_group
selects-scope_query (some scope) (some res) false (some fields) b = selects-add_nonempty _ _ b
selects-scope_query _ _ _ _ b = refl

selects-apply_scope_once :
    (applied : Bool) (b : Builder) → (apply_scope_once applied b).selects ≡ b.selects
unfolding apply_scope_once
selects-apply_scope_once true b = refl
selects-apply_scope_once false b = selects-scope_query _ _ _ _ _

pub selects-apply_scope : (b : Builder) → (apply_scope b).selects ≡ b.selects
unfolding apply_scope
selects-apply_scope b = selects-apply_scope_once b.scope_applied b

module _ (weight : Weight) where
  open weight use {counted as p, unit as k}

  count-equality :
      (col : Text) (v : Value)
      → Silent weight col
      → count_in p (col ++ codes " = ?") ≡ k * length (v ∷ [])
  count-equality col v z = omega (arith, count-set weight col z)

  Fits-scope_round :
      (s : Text) (v : Value) (first : Bool) (out : Output)
      → Silent weight s
      → Fits weight out
      → Fits weight (scope_round s v (first, out)).1
  unfolding scope_round is_plain
  Fits-scope_round [] v first out z h = h
  Fits-scope_round (c ∷ s) v true out z h = search (Fits-push, count-equality)
  Fits-scope_round (c ∷ s) v false out z h = search (Fits-push, Fits-literal, count-equality)

  Fits-scope_group :
      (ks : List Text) (conds : Columns) (first : Bool) (out : Output)
      → Fits weight out
      → Fits weight (scope_group ks conds (first, out))
  unfolding scope_group
  Fits-scope_group [] conds first out h = h
  Fits-scope_group (c ∷ ks) conds first out h =
      let v = value_at c conds in
      let (first', out') = scope_round (sanitize_identifier c) v (first, out) in
      Fits-scope_group ks conds first' out' (
        Fits-scope_round (sanitize_identifier c) v first out (Silent-sanitize_identifier weight c)
          h)

  ClauseFits-grouped : (out : Output) → Fits weight out → ClauseFits weight (grouped out)
  unfolding grouped is_plain
  ClauseFits-grouped out h = simp count_in-append (
      omega (
        arith,
        count-of_Fits weight out h,
        Silent-literal weight "(" refl,
        Silent-literal weight ")" refl,
      ))

  ClauseFits-scoped_wheres :
      (ws : List WhereClause) (group : Output)
      → All (ClauseFits weight) ws
      → Fits weight group
      → All (ClauseFits weight) (scoped_wheres ws group)
  unfolding scoped_wheres
  ClauseFits-scoped_wheres [] group hs h = (ClauseFits-grouped group h, tt)
  ClauseFits-scoped_wheres (w ∷ ws) group hs h = (
    ClauseFits-grouped _
        (Fits-write_clauses weight (w ∷ ws) nothing_written hs (Fits-nothing_written weight)),
    (ClauseFits-grouped group h, tt),
  )

  WellFormed-add_nonempty :
      (s : Text) (group : Output) (b : Builder)
      → Fits weight group
      → WellFormed weight b
      → WellFormed weight (add_nonempty s group b)
  unfolding add_nonempty
  WellFormed-add_nonempty [] group b h wf = wf
  WellFormed-add_nonempty (c ∷ s) group b h wf =
      assumption (ClauseFits-scoped_wheres b.wheres group wf.wheres h)

  WellFormed-scope_query :
      (scope : Option (List Text → Value → Columns)) (res : Option Value) (skipped : Bool)
      (fields : Option (List Text)) (b : Builder)
      → WellFormed weight b
      → WellFormed weight (scope_query scope res skipped fields b)
  unfolding scope_query add_conditions add_group
  WellFormed-scope_query (some scope) (some res) false (some fields) b wf =
      WellFormed-add_nonempty _ _ b
        (Fits-scope_group _ _ true nothing_written (Fits-nothing_written weight)) wf
  WellFormed-scope_query _ _ _ _ b wf = wf

  WellFormed-apply_scope_once :
      (applied : Bool) (b : Builder)
      → WellFormed weight b
      → WellFormed weight (apply_scope_once applied b)
  unfolding apply_scope_once
  WellFormed-apply_scope_once true b wf = wf
  WellFormed-apply_scope_once false b wf = WellFormed-scope_query _ _ _ _ _ assumption

  -- The conditions of a scope weigh what their arguments weigh.
  pub WellFormed-apply_scope :
      (b : Builder) → WellFormed weight b → WellFormed weight (apply_scope b)
  unfolding apply_scope
  WellFormed-apply_scope b wf = WellFormed-apply_scope_once b.scope_applied b wf
