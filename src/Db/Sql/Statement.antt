-- ===== src/Db/Sql/Statement.antt =====
-- The weight of the parts of the four kinds of statement (internal/db/builder_sql.go).
use kiya.Base.{
  String, ◌*◌, ◌≡◌, refl, Bool, true, false, List, [], ◌∷◌, ◌++◌, Option, some, none, arith, length,
  All, ◌▷◌,
}
use kiya.Base.Int.{ℤ}
use kiya.Text.{Text, codes, join, count_in}
use kiya.Text.Laws.{count_in-append, count_in-join}
use kiya.Db.Builder.{int, WhereClause, JoinClause, SelectClause, Builder}
use kiya.Db.Sql.{
  Output, select_exprs, write_selects, write_table, write_joins, write_list, write_havings,
  write_count, write_lock, build_select,
}
use kiya.Db.Sql.Balanced.{
  is_plain, Weight, Fits, count-plain, Fits-write, Fits-push, Fits-literal, ClauseFits,
  Fits-write_clauses, Fits-build_wheres,
}

module _ (weight : Weight) where
  open weight use {counted as p, unit as k, mark}

  abbrev pub SelectFits : SelectClause → Type 0
  SelectFits s = count_in p s.expr ≡ k * length s.args

  abbrev pub JoinFits : JoinClause → Type 0
  JoinFits j = (count_in p j.typ ≡ 0) × (count_in p j.table ≡ 0) × (count_in p j.on ≡ 0)

  abbrev pub Silent : Text → Type 0
  Silent s = count_in p s ≡ 0

  -- Every raw text of the builder weighs what its own arguments weigh.
  pub record WellFormed (b : Builder) : Type 0 where
    pub table : Silent b.table
    pub selects : All SelectFits b.selects
    pub joins : All JoinFits b.joins
    pub wheres : All (ClauseFits weight) b.wheres
    pub group_bys : All Silent b.group_bys
    pub havings : All (ClauseFits weight) b.havings
    pub order_bys : All Silent b.order_bys
    pub soft_delete : Silent b.soft_delete_condition
    pub batch_cols : All Silent b.insert_batch_cols
    pub batch_rows :
        count_in p (join b.insert_batch_placeholders (codes ", ")) ≡ k * length b.insert_batch_args
    pub primary_keys : All Silent b.primary_keys

  Fits-select_exprs :
      (ss : List SelectClause) (out : Output)
      → All SelectFits ss
      → Fits weight out
      → Fits weight (select_exprs ss out)
  unfolding select_exprs is_plain
  Fits-select_exprs [] out hs h = h
  Fits-select_exprs (s ∷ ss) out (hw, hs) h =
      Fits-select_exprs ss _ hs (search (Fits-literal, Fits-push))

  Fits-write_selects :
      (ss : List SelectClause) (out : Output)
      → All SelectFits ss
      → Fits weight out
      → Fits weight (write_selects ss out)
  unfolding write_selects is_plain
  Fits-write_selects [] out hs h = search (Fits-literal)
  Fits-write_selects (s ∷ ss) out (hw, hs) h = Fits-select_exprs ss _ hs (search (Fits-push))

  pub Fits-write_table :
      (table : Text) (out : Output)
      → Silent table
      → Fits weight out
      → Fits weight (write_table table out)
  unfolding write_table is_plain
  Fits-write_table [] out z h = search (Fits-literal)
  Fits-write_table (c ∷ s) out z h = search (Fits-literal, Fits-write)

  pub Silent-literal : (t : String) → is_plain t ≡ true → Silent (codes t)
  unfolding is_plain
  Silent-literal t h = count-plain weight (codes t) h

  pub Silent-append : (s t : Text) → Silent s → Silent t → Silent (s ++ t)
  Silent-append s t hs ht = omega (arith, count_in-append p s t)

  pub Silent-join : (ss : List Text) → All Silent ss → Silent (join ss (codes ", "))
  unfolding is_plain
  Silent-join ss hs = omega (arith, count_in-join p (codes ", ") (Silent-literal ", " refl) 0 ss hs)

  Fits-write_joins :
      (js : List JoinClause) (out : Output)
      → All JoinFits js
      → Fits weight out
      → Fits weight (write_joins js out)
  unfolding write_joins is_plain
  Fits-write_joins [] out hs h = h
  Fits-write_joins (j ∷ js) out ((h_typ, h_table, h_on), hs) h =
      Fits-write_joins js _ hs (search (Fits-write, Silent-append, Silent-literal) depth 8)

  pub Fits-write_list :
      (t : Text) (ss : List Text) (out : Output)
      → Silent t
      → All Silent ss
      → Fits weight out
      → Fits weight (write_list t ss out)
  unfolding write_list
  Fits-write_list t [] out z hs h = h
  Fits-write_list t (s ∷ ss) out z hs h =
      Fits-write weight _ _ (Silent-join (s ∷ ss) hs) (Fits-write weight t out z h)

  Fits-write_havings :
      (ws : List WhereClause) (out : Output)
      → All (ClauseFits weight) ws
      → Fits weight out
      → Fits weight (write_havings ws out)
  unfolding write_havings is_plain
  Fits-write_havings [] out hs h = h
  Fits-write_havings (w ∷ ws) out hs h = search (Fits-literal, Fits-write_clauses)

  Fits-write_count :
      (t : Text) (n : Option ℤ) (out : Output)
      → count_in p t ≡ k
      → Fits weight out
      → Fits weight (write_count t n out)
  unfolding write_count
  Fits-write_count t none out z h = h
  Fits-write_count t (some n) out z h = Fits-push weight t (int n ∷ []) out (omega (arith, z)) h

  Fits-write_lock : (l : Bool) (out : Output) → Fits weight out → Fits weight (write_lock l out)
  unfolding write_lock is_plain
  Fits-write_lock false out h = h
  Fits-write_lock true out h = search (Fits-literal)

  -- a plain text with one placeholder behind it
  pub count-marked : (s : Text) → Silent s → count_in p (s ++ b'?' ∷ []) ≡ k
  count-marked s z = omega (arith, count_in-append p s (b'?' ∷ []), mark)

  count-limit : count_in p (codes " LIMIT ?") ≡ k
  unfolding is_plain
  count-limit = count-marked (codes " LIMIT ") (Silent-literal " LIMIT " refl)

  count-offset : count_in p (codes " OFFSET ?") ≡ k
  unfolding is_plain
  count-offset = count-marked (codes " OFFSET ") (Silent-literal " OFFSET " refl)

  pub Fits-build_select :
      (b : Builder) (out : Output)
      → WellFormed b
      → Fits weight out
      → Fits weight (build_select b out)
  unfolding build_select is_plain
  Fits-build_select b out h start =
      start
      ▷ Fits-literal weight "SELECT " _ refl
      ▷ Fits-write_selects b.selects _ h.selects
      ▷ Fits-write_table b.table _ h.table
      ▷ Fits-write_joins b.joins _ h.joins
      ▷ Fits-build_wheres weight b.soft_delete_condition b.wheres _ h.soft_delete h.wheres
      ▷ Fits-write_list _ b.group_bys _ (Silent-literal " GROUP BY " refl) h.group_bys
      ▷ Fits-write_havings b.havings _ h.havings
      ▷ Fits-write_list _ b.order_bys _ (Silent-literal " ORDER BY " refl) h.order_bys
      ▷ Fits-write_count _ b.limit _ count-limit
      ▷ Fits-write_count _ b.offset _ count-offset
      ▷ Fits-write_lock b.lock_for_update _
