-- ===== src/Db/Write/Laws.antt =====
-- What the writes of internal/db/builder_write.go hand to the executor.
use mathlib.Core.Path.{subst}
use kiya.Base.{◌≡◌, ◌≢◌, ◌⊎◌, refl, ap, Bool, true, false, [], ◌∷◌, arith}
use kiya.Text.{Text}
use kiya.Db.Builder.{Value, Columns, Action, Builder}
use kiya.Db.Sql.Balanced.{Weight}
use kiya.Db.Sql.Statement.{WellFormed}
use kiya.Db.Sql.Writing.{Silent-nil}
use kiya.Db.Scope.{apply_scope}
use kiya.Db.Scope.Laws.{WellFormed-apply_scope, soft_delete-apply_scope}
use kiya.Db.Write.{
  Result, ok, err, Error, check_data, check_table, check_where, check_where_required, operand,
  update_scoped, exec_insert, exec_update, delete_scoped, exec_delete, purge, restore, Write,
  insert, update, delete, purging, restoring, exec, ◌>>◌,
}

-- A whole-table statement was asked for.
abbrev pub IsGuarded : Builder → Type 0
IsGuarded c = (c.wheres ≢ []) ⊎ (c.unsafe_allow_empty_where ≡ true)

check_where_required-IsGuarded :
    (b : Builder) → check_where_required b.wheres b.unsafe_allow_empty_where ≡ ok tt → IsGuarded b
unfolding check_where_required
check_where_required-IsGuarded b e = ground arith

update_scoped-IsGuarded :
    (m : Columns) (b : Builder) {c : Builder} → update_scoped m false b ≡ ok c → IsGuarded c
unfolding update_scoped check_where check_where_required check_data check_table
update_scoped-IsGuarded m b e = ground arith

-- An UPDATE that is executed has a condition, its own or one of the scope, unless the builder was
-- marked unsafe.
pub exec_update-IsGuarded :
    (m : Columns) (b : Builder) {c : Builder} → exec_update m false b ≡ ok c → IsGuarded c
unfolding exec_update
exec_update-IsGuarded m b e = update_scoped-IsGuarded m _ e

delete_scoped-IsGuarded :
    (now : Value) (soft : Text) (b : Builder) {c : Builder}
    → delete_scoped now false soft b ≡ ok c
    → IsGuarded c
unfolding delete_scoped check_where check_where_required check_table
delete_scoped-IsGuarded now [] b e = ground arith
delete_scoped-IsGuarded now (x ∷ soft) b e = exec_update-IsGuarded _ b e

-- A call that may replace or remove rows and that checks for a condition.
abbrev pub IsChecked : Write → Type 0
IsChecked (insert m) = ⊥
IsChecked (update m skip) = skip ≡ false
IsChecked (delete now skip) = skip ≡ false
IsChecked (purging now skip) = skip ≡ false
IsChecked restoring = Unit

exec_delete-IsGuarded :
    (now : Value) (b : Builder) {c : Builder} → exec_delete now false b ≡ ok c → IsGuarded c
unfolding exec_delete
exec_delete-IsGuarded now b e = delete_scoped-IsGuarded now _ (apply_scope b) e

-- An UPDATE or a DELETE that is executed after the check has a condition, its own or one of the
-- scope, unless the builder was marked unsafe.
pub exec-IsGuarded :
    (w : Write) (b : Builder) {c : Builder} → IsChecked w → exec w b ≡ ok c → IsGuarded c
unfolding exec purge restore
exec-IsGuarded (insert m) b h e = absurd h
exec-IsGuarded (update m skip) b h e = exec_update-IsGuarded m b (rw h at e)
exec-IsGuarded (delete now skip) b h e = exec_delete-IsGuarded now b (rw h at e)
exec-IsGuarded (purging now skip) b h e = exec_delete-IsGuarded now _ (rw h at e)
exec-IsGuarded restoring b h e = exec_update-IsGuarded _ _ e

-- what holds of a result, if there is one
pub data Ensures {A : Type 0} (P : A → Type 0) : Result A → Type 0 where
  holds : {c : A} → P c → Ensures P (ok c)
  fails : {e : Error} → Ensures P (err e)

pub Ensures-guard :
    {P : Builder → Type 0} (m : Result (Unit {0})) {r : Result Builder}
    → Ensures P r
    → Ensures P (m >> r)
Ensures-guard (ok tt) h = h
Ensures-guard (err e) h = fails

abbrev or_else : {A : Type 0} → A → Result A → A
or_else a (ok c) = c
or_else a (err e) = a

pub of_Ensures : {A : Type 0} {P : A → Type 0} {r : Result A} {c : A} → Ensures P r → r ≡ ok c → P c
of_Ensures {P} (holds {c = a} h) e = subst P (ap (or_else a) e) h
of_Ensures fails e = cc

module _ (weight : Weight) where
  update_scoped-WellFormed :
      (m : Columns) (skip : Bool) (b : Builder)
      → WellFormed weight b
      → Ensures (WellFormed weight) (update_scoped m skip b)
  unfolding update_scoped
  update_scoped-WellFormed m skip b h =
      let c : Builder = record b { action = Action.update; updates = operand b m } in
      Ensures-guard (check_where skip b) (
        Ensures-guard (check_data (operand b m))
          (Ensures-guard (check_table b.table) (holds {c = c} assumption)))

  pub exec_update-WellFormed :
      (m : Columns) (skip : Bool) (b : Builder)
      → WellFormed weight b
      → Ensures (WellFormed weight) (exec_update m skip b)
  unfolding exec_update
  exec_update-WellFormed m skip b h =
      update_scoped-WellFormed m skip _ (WellFormed-apply_scope weight b h)

  delete_scoped-WellFormed :
      (now : Value) (skip : Bool) (soft : Text) (b : Builder)
      → WellFormed weight b
      → Ensures (WellFormed weight) (delete_scoped now skip soft b)
  unfolding delete_scoped
  delete_scoped-WellFormed now skip [] b h =
      let c : Builder = record b { action = Action.delete } in
      Ensures-guard (check_where skip b)
        (Ensures-guard (check_table b.table) (holds {c = c} assumption))
  delete_scoped-WellFormed now skip (c ∷ soft) b h = exec_update-WellFormed _ skip b h

  exec_delete-WellFormed :
      (now : Value) (skip : Bool) (b : Builder)
      → WellFormed weight b
      → Ensures (WellFormed weight) (exec_delete now skip b)
  unfolding exec_delete
  exec_delete-WellFormed now skip b h =
      delete_scoped-WellFormed now skip _ _ (WellFormed-apply_scope weight b h)

  pub WellFormed-unguarded :
      (b : Builder)
      → WellFormed weight b
      → WellFormed weight (record b { soft_delete_condition = [] })
  WellFormed-unguarded b h = assumption (Silent-nil weight)

  pub exec-Ensures :
      (w : Write) (b : Builder) → WellFormed weight b → Ensures (WellFormed weight) (exec w b)
  unfolding exec exec_insert purge restore
  exec-Ensures (insert m) b h =
      let c : Builder = record b { action = Action.insert; inserts = operand b m } in
      Ensures-guard (check_data (operand b m))
        (Ensures-guard (check_table b.table) (holds {c = c} assumption))
  exec-Ensures (update m skip) b h = exec_update-WellFormed m skip b h
  exec-Ensures (delete now skip) b h = exec_delete-WellFormed now skip b h
  exec-Ensures (purging now skip) b h = exec_delete-WellFormed now skip _ (WellFormed-unguarded b h)
  exec-Ensures restoring b h = exec_update-WellFormed _ false _ (WellFormed-unguarded b h)

update_scoped-action :
    (m : Columns) (skip : Bool) (b : Builder)
    → Ensures (λ c. c.action ≡ Action.update) (update_scoped m skip b)
unfolding update_scoped
update_scoped-action m skip b =
    let c : Builder = record b { action = Action.update; updates = operand b m } in
    Ensures-guard (check_where skip b) (
      Ensures-guard (check_data (operand b m))
        (Ensures-guard (check_table b.table) (holds {c = c} refl)))

-- what a delete of rows with a soft-delete condition becomes
delete_scoped-soft :
    (now : Value) (skip : Bool) (soft : Text) (b : Builder)
    → soft ≢ []
    → Ensures (λ c. c.action ≡ Action.update) (delete_scoped now skip soft b)
unfolding delete_scoped exec_update
delete_scoped-soft now skip [] b h = absurd (h refl)
delete_scoped-soft now skip (c ∷ soft) b h = update_scoped-action _ skip (apply_scope b)

-- While a soft-delete condition is set, Delete never removes a row: what it executes is an UPDATE.
pub exec_delete-soft :
    (now : Value) (skip : Bool) (b : Builder) {c : Builder}
    → b.soft_delete_condition ≢ []
    → exec_delete now skip b ≡ ok c
    → c.action ≡ Action.update
unfolding exec_delete
exec_delete-soft now skip b h e =
    of_Ensures (delete_scoped-soft now skip _ (apply_scope b) (rw soft_delete-apply_scope h)) e
