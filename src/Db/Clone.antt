-- ===== src/Db/Clone.antt =====
-- `clone` of internal/db/builder.go: the copy that an ending makes before it changes the builder. A nil
-- slice and an empty one are both the empty list.
use kiya.Base.{◌≡◌, refl, ap, List, [], ◌∷◌, Option, none, some, map}
use kiya.Db.Builder.{WhereClause, SelectClause, Columns, Builder}

-- `make` and `copy`; nothing is made for an empty slice of arguments
copy_all : {A : Type 0} → List A → List A
copy_all [] = []
copy_all (x ∷ xs) = x ∷ copy_all xs

copy_select : SelectClause → SelectClause
copy_select s = record { expr = s.expr; args = copy_all s.args }

copy_where : WhereClause → WhereClause
copy_where w = record { boolean = w.boolean; expr = w.expr; args = copy_all w.args }

copy_named : Option Columns → Option Columns
copy_named none = none
copy_named (some args) = some (copy_all args)

pub clone : Builder → Builder
clone b = record b {
  selects = map copy_select b.selects;
  wheres = map copy_where b.wheres;
  joins = copy_all b.joins;
  group_bys = copy_all b.group_bys;
  havings = map copy_where b.havings;
  order_bys = copy_all b.order_bys;
  nullable_cols = copy_all b.nullable_cols;
  on_duplicate_update_cols = copy_all b.on_duplicate_update_cols;
  primary_keys = copy_all b.primary_keys;
  inserts = copy_all b.inserts;
  updates = copy_all b.updates;
  raw_args = copy_all b.raw_args;
  named_args = copy_named b.named_args;
  insert_batch_cols = copy_all b.insert_batch_cols;
  insert_batch_placeholders = copy_all b.insert_batch_placeholders;
  insert_batch_args = copy_all b.insert_batch_args;
}

copy_all_lem : {A : Type 0} (xs : List A) → copy_all xs ≡ xs
unfolding copy_all
copy_all_lem [] = refl
copy_all_lem (x ∷ xs) = ap (◌∷◌ x) (copy_all_lem xs)

copy_select_lem : (s : SelectClause) → copy_select s ≡ s
unfolding copy_select
copy_select_lem s = rw (copy_all_lem s.args) refl

copy_where_lem : (w : WhereClause) → copy_where w ≡ w
unfolding copy_where
copy_where_lem w = rw (copy_all_lem w.args) refl

copy_named_lem : (o : Option Columns) → copy_named o ≡ o
unfolding copy_named
copy_named_lem none = refl
copy_named_lem (some args) = rw (copy_all_lem args) refl

map-same : {A : Type 0} (f : A → A) (xs : List A) → ((x : A) → f x ≡ x) → map f xs ≡ xs
map-same f [] h = refl
map-same f (x ∷ xs) h = rw (h x, map-same f xs h) refl

-- A clone has every part of its builder: each clause, column and argument, in the same order.
pub clone_lem : (b : Builder) → clone b ≡ b
unfolding clone
clone_lem b =
    rw
      (
        map-same copy_select b.selects copy_select_lem,
        map-same copy_where b.wheres copy_where_lem,
        map-same copy_where b.havings copy_where_lem,
        copy_named_lem b.named_args,
      )
      (simp copy_all_lem)
