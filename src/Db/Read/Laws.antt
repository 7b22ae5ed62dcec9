-- ===== src/Db/Read/Laws.antt =====
-- The weights of a builder under `Count` and `Exist` (internal/db/builder_read.go).
use kiya.Base.{refl, [], ◌∷◌, arith, All}
use kiya.Text.{codes}
use kiya.Db.Builder.{Builder, SelectClause}
use kiya.Db.Sql.Balanced.{Weight, is_plain}
use kiya.Db.Sql.Statement.{WellFormed, SelectFits, Silent-literal}
use kiya.Db.Scope.{apply_scope}
use kiya.Db.Scope.Laws.{WellFormed-apply_scope}
use kiya.Db.Write.{check_table}
use kiya.Db.Write.Laws.{Ensures, holds, Ensures-guard}
use kiya.Db.Read.{counting, testing, exec_count, exec_exist}

module _ (weight : Weight) where
  WellFormed-counting : (b : Builder) → WellFormed weight b → WellFormed weight (counting b)
  unfolding counting is_plain
  WellFormed-counting b h =
      let z = Silent-literal weight "COUNT(*)" refl in
      let s : SelectClause = record { expr = codes "COUNT(*)"; args = [] } in
      let one : All (SelectFits weight) (s ∷ []) = (omega (arith, z), tt) in assumption one

  WellFormed-testing : (b : Builder) → WellFormed weight b → WellFormed weight (testing b)
  unfolding testing is_plain
  WellFormed-testing b h =
      let z = Silent-literal weight "1" refl in
      let s : SelectClause = record { expr = codes "1"; args = [] } in
      let one : All (SelectFits weight) (s ∷ []) = (omega (arith, z), tt) in assumption one

  pub exec_count-Ensures :
      (b : Builder) → WellFormed weight b → Ensures (WellFormed weight) (exec_count b)
  unfolding exec_count
  exec_count-Ensures b h =
      Ensures-guard (check_table (apply_scope b).table)
        (holds (WellFormed-counting _ (WellFormed-apply_scope weight b h)))

  pub exec_exist-Ensures :
      (b : Builder) → WellFormed weight b → Ensures (WellFormed weight) (exec_exist b)
  unfolding exec_exist
  exec_exist-Ensures b h =
      Ensures-guard (check_table (apply_scope b).table)
        (holds (WellFormed-testing _ (WellFormed-apply_scope weight b h)))
