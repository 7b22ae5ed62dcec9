-- ===== src/Db/Read.antt =====
-- `Count`, `Exist` and the numbers of `Paginate` of internal/db/builder_read.go. The functions return
-- the clone whose statement is executed. `Find` and `FindAll` go through reflection on their
-- destination and are not modelled.
pub mod Pages
pub mod Laws
use kiya.Base.{ℕ, ◌+◌, ◌-◌, ◌*◌, ◌/◌, [], ◌∷◌, some, ltb, leb, if◌then◌else◌}
use kiya.Base.Int.{ℤ, pos, negsuc, ltb_ℤ}
use kiya.Text.{codes}
use kiya.Db.Builder.{Builder, SelectClause}
use kiya.Db.Scope.{apply_scope}
use kiya.Db.Write.{Result, ok, ◌>>=◌, ◌>>◌, check_table}

-- `clone.selects = nil; clone.Cols(…)` of `Count`
unfoldable pub counting : Builder → Builder
counting b = record b { selects = record { expr = codes "COUNT(*)"; args = [] } ∷ [] }

-- the same of `Exist`, with `clone.Limit(1)`
unfoldable pub testing : Builder → Builder
testing b = record b { selects = record { expr = codes "1"; args = [] } ∷ []; limit = some (pos 1) }

unfoldable pub exec_count : Builder → Result Builder
exec_count b = let scoped = apply_scope b in do check_table scoped.table; ok (counting scoped)

unfoldable pub exec_exist : Builder → Result Builder
exec_exist b = let scoped = apply_scope b in do check_table scoped.table; ok (testing scoped)

-- the arguments of `Paginate` after its first three tests; both are positive
unfoldable pub clamp_page : ℤ → ℕ
clamp_page (pos n) = if ltb n 1 then 1 else n
clamp_page (negsuc n) = 1

unfoldable pub clamp_per_page : ℤ → ℕ
clamp_per_page (pos n) = if ltb n 1 then 10 else if ltb 100 n then 100 else n
clamp_per_page (negsuc n) = 10

-- `Pagination`, and the LIMIT and OFFSET of the page, where there is something to list
pub record Page : Type 0 where
  pub total : ℕ
  pub page : ℕ
  pub per_page : ℕ
  pub last_page : ℕ
  pub limit : ℕ
  pub offset : ℕ

-- The total is a count of rows; sums are taken where they stay below 2 ^ 63.
unfoldable pub paginate : ℤ → ℤ → ℕ → Page
paginate page per_page total =
    let p = clamp_page page in
    let n = clamp_per_page per_page in
    record {
      total = total;
      page = p;
      per_page = n;
      last_page = (total + n - 1) / n;
      limit = n;
      offset = (p - 1) * n;
    }
