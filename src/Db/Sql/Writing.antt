-- ===== src/Db/Sql/Writing.antt =====
-- The weight of INSERT, UPDATE and DELETE (internal/db/builder_sql.go), and of the choice between the
-- statements.
use kiya.Base.{
  ℕ, ◌*◌, ◌≡◌, refl, true, List, [], ◌∷◌, ◌++◌, map, arith, length, All, ◌▷◌, length-map,
}
use kiya.Text.{Text, codes, join, count_in}
use kiya.Text.Laws.{count_in-append, count_in-join, all_in_mono}
use kiya.Db.Sanitize.{ident_byte, order_byte, sanitize_identifier, sanitize_order_by}
use kiya.Db.Sanitize.Laws.{all_in-sanitize_identifier, all_in-sanitize_order_by}
use kiya.Db.Builder.{Action, Dialect, mysql, postgres, Builder}
use kiya.Db.Sql.{
  Output, keep_key, conflict_cols, upsert_sets, upsert_for, write_returning, insert_columns,
  build_insert, insert_rows, build_insert_batch, update_columns, build_update, build_delete,
  build_action,
}
use kiya.Db.Sql.Balanced.{
  plain, is_plain, Weight, Fits, count-plain, Fits-nothing_written, Fits-write, Fits-push,
  Fits-push-write, Fits-literal, Fits-build_wheres,
}
use kiya.Db.Sql.Statement.{
  Silent, WellFormed, Silent-literal, Silent-append, Silent-join, Fits-write_list,
  Fits-build_select, count-marked,
}

plain_of_ident_byte : (c : ℕ) → ident_byte c ≡ true → plain c ≡ true
unfolding ident_byte plain
plain_of_ident_byte c h = ground arith

plain_of_order_byte : (c : ℕ) → order_byte c ≡ true → plain c ≡ true
unfolding order_byte plain
plain_of_order_byte c h = ground arith

module _ (weight : Weight) where
  open weight use {counted as p, unit as k, mark}

  pub Silent-sanitize_identifier : (s : Text) → Silent weight (sanitize_identifier s)
  Silent-sanitize_identifier s =
      count-plain weight _
        (all_in_mono ident_byte plain plain_of_ident_byte _ (all_in-sanitize_identifier s))

  pub Silent-sanitize_order_by : (s : Text) → Silent weight (sanitize_order_by s)
  Silent-sanitize_order_by s =
      count-plain weight _
        (all_in_mono order_byte plain plain_of_order_byte _ (all_in-sanitize_order_by s))

  Silent-map_sanitize : (ks : List Text) → All (Silent weight) (map sanitize_identifier ks)
  Silent-map_sanitize [] = tt
  Silent-map_sanitize (s ∷ ks) = (Silent-sanitize_identifier s, Silent-map_sanitize ks)

  Silent-keep_key :
      (s t : Text) (ts : List Text)
      → Silent weight t
      → All (Silent weight) ts
      → All (Silent weight) (keep_key s t ts)
  Silent-keep_key [] t ts z hs = hs
  Silent-keep_key (c ∷ s) t ts z hs = (z, hs)

  Silent-upsert_sets :
      (before after : Text) (names : List Text)
      → Silent weight before
      → Silent weight after
      → All (Silent weight) (upsert_sets before after names)
  unfolding upsert_sets is_plain
  Silent-upsert_sets before after [] hb ha = tt
  Silent-upsert_sets before after (col ∷ names) hb ha =
      Silent-keep_key _ _ _
        (search (Silent-append, Silent-literal, Silent-sanitize_identifier) depth 8)
        (Silent-upsert_sets before after names hb ha)

  Silent-conflict_cols :
      (ks : List Text) → All (Silent weight) ks → Silent weight (conflict_cols ks)
  unfolding is_plain
  Silent-conflict_cols [] hs = Silent-literal weight "id" refl
  Silent-conflict_cols (s ∷ ks) hs = Silent-join weight (s ∷ ks) hs

  pub Silent-nil : Silent weight []
  unfolding count_in
  Silent-nil = refl

  Fits-upsert_for :
      (d : Dialect) (b : Builder) (out : Output)
      → WellFormed weight b
      → Fits weight out
      → Fits weight (upsert_for d b out)
  unfolding upsert_for is_plain
  Fits-upsert_for mysql b out h =
      Fits-write_list weight _ _ _ (Silent-literal weight " ON DUPLICATE KEY UPDATE " refl) (
        Silent-upsert_sets _ _ _ (Silent-literal weight "VALUES(" refl)
          (Silent-literal weight ")" refl))
  Fits-upsert_for postgres b out h =
      Fits-write_list weight _ _ _
        (Silent-append weight _ _
          (Silent-append weight _ _ (Silent-literal weight " ON CONFLICT (" refl)
            (Silent-conflict_cols _ h.primary_keys))
          (Silent-literal weight ") DO UPDATE SET " refl))
        (Silent-upsert_sets _ _ _ (Silent-literal weight "EXCLUDED." refl) Silent-nil)

  Fits-write_returning :
      (d : Dialect) (col : Text) (out : Output)
      → Fits weight out
      → Fits weight (write_returning d col out)
  unfolding write_returning is_plain
  Fits-write_returning postgres (c ∷ col) out h =
      Fits-write weight _ _
        (Silent-append weight _ _ (Silent-literal weight " RETURNING " refl)
          (Silent-sanitize_identifier _))
        h
  Fits-write_returning _ _ out h = h

  pub All-map_const :
      {A : Type 0} (f : A → Text) (n : ℕ)
      → ((a : A) → count_in p (f a) ≡ n)
      → (xs : List A) → All (λ s. count_in p s ≡ n) (map f xs)
  All-map_const f n h [] = tt
  All-map_const f n h (x ∷ xs) = (h x, All-map_const f n h xs)

  -- one placeholder for each item
  pub count-join-map :
      {A : Type 0} (f : A → Text)
      → ((a : A) → count_in p (f a) ≡ k)
      → (xs : List A) → count_in p (join (map f xs) (codes ", ")) ≡ k * length xs
  unfolding is_plain
  count-join-map f h xs =
      rw (← length-map f xs) (
        count_in-join p (codes ", ") (Silent-literal weight ", " refl) k _ (All-map_const f k h xs))

  pub count-mark : count_in p (codes "?") ≡ k
  unfolding codes
  count-mark = mark

  -- an assignment or an equality with a placeholder
  pub count-set : (col : Text) → Silent weight col → count_in p (col ++ codes " = ?") ≡ k
  unfolding is_plain
  count-set col z = omega (
    arith,
    count_in-append p col (codes " = ?"),
    count-marked weight (codes " = ") (Silent-literal weight " = " refl),
  )

  Fits-insert_columns :
      (ks : List Text) (b : Builder) (out : Output)
      → WellFormed weight b
      → Fits weight out
      → Fits weight (insert_columns ks b out)
  unfolding insert_columns is_plain
  Fits-insert_columns [] b out h start = start
  Fits-insert_columns (c ∷ ks) b out h start =
      Fits-push-write weight _ _ out
        (rw length-map (
          simp count_in-append (
            omega (
              arith,
              h.table,
              Silent-literal weight "INSERT INTO " refl,
              Silent-literal weight " (" refl,
              Silent-literal weight ") VALUES (" refl,
              Silent-literal weight ")" refl,
              Silent-join weight (map sanitize_identifier (c ∷ ks)) (Silent-map_sanitize (c ∷ ks)),
              count-join-map (λ (_ : Text). codes "?") (λ _. count-mark) (c ∷ ks),
            ))))
        start
      ▷ Fits-upsert_for b.dialect b _ h
      ▷ Fits-write_returning b.dialect b.auto_inc_col _

  Fits-insert_rows :
      (cols rows : List Text) (b : Builder) (out : Output)
      → WellFormed weight b
      → All (Silent weight) cols
      → count_in p (join rows (codes ", ")) ≡ k * length b.insert_batch_args
      → Fits weight out
      → Fits weight (insert_rows cols rows b out)
  unfolding insert_rows is_plain
  Fits-insert_rows (c ∷ cols) (r ∷ rows) b out h hc hr start =
      Fits-push weight _ _ out
        (simp count_in-append (
          omega (
            arith,
            h.table,
            hr,
            Silent-literal weight "INSERT INTO " refl,
            Silent-literal weight " (" refl,
            Silent-literal weight ") VALUES " refl,
            Silent-join weight (c ∷ cols) hc,
          )))
        start
      ▷ Fits-upsert_for b.dialect b _ h
  Fits-insert_rows _ _ b out h hc hr start = start

  Fits-update_columns :
      (ks : List Text) (b : Builder) (out : Output)
      → WellFormed weight b
      → Fits weight out
      → Fits weight (update_columns ks b out)
  unfolding update_columns is_plain
  Fits-update_columns [] b out h start = start
  Fits-update_columns (c ∷ ks) b out h start =
      Fits-push-write weight _ _ out
        (rw length-map (
          simp count_in-append (
            omega (
              arith,
              h.table,
              Silent-literal weight "UPDATE " refl,
              Silent-literal weight " SET " refl,
              count-join-map (λ col. sanitize_identifier col ++ codes " = ?")
                  (λ col. count-set (sanitize_identifier col) (Silent-sanitize_identifier col))
                  (c ∷ ks),
            ))))
        start
      ▷ Fits-build_wheres weight b.soft_delete_condition b.wheres _ h.soft_delete h.wheres

  pub Fits-build_action :
      (a : Action) (b : Builder) → WellFormed weight b → Fits weight (build_action a b)
  unfolding build_action build_insert build_insert_batch build_update build_delete is_plain
  Fits-build_action Action.select b h = Fits-build_select weight b _ h (Fits-nothing_written weight)
  Fits-build_action Action.insert b h = Fits-insert_columns _ b _ h (Fits-nothing_written weight)
  Fits-build_action Action.insert_batch b h =
      Fits-insert_rows _ _ b _ h h.batch_cols h.batch_rows (Fits-nothing_written weight)
  Fits-build_action Action.update b h = Fits-update_columns _ b _ h (Fits-nothing_written weight)
  Fits-build_action Action.delete b h =
      (Fits-nothing_written weight)
      ▷ Fits-literal weight "DELETE FROM " _ refl
      ▷ Fits-write weight b.table _ h.table
      ▷ Fits-build_wheres weight b.soft_delete_condition b.wheres _ h.soft_delete h.wheres
