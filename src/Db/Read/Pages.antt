-- ===== src/Db/Read/Pages.antt =====
-- The pages of `Paginate` (internal/db/builder_read.go) and the rows that they list.
use kiya.Base.{ℕ, ◌+◌, ◌-◌, ◌*◌, ◌/◌, ◌≤◌, ◌<◌, ◌≡◌, ◌↔◌, arith}
use kiya.Base.Int.{ℤ, pos, negsuc}
use kiya.Db.Read.{clamp_page, clamp_per_page, Page, paginate}

per_page_bounds : (n : ℤ) → (1 ≤ clamp_per_page n) × (clamp_per_page n ≤ 100)
unfolding clamp_per_page
per_page_bounds (pos n) = ground arith
per_page_bounds (negsuc n) = omega arith

clamp_page-pos : (p : ℤ) → 1 ≤ clamp_page p
unfolding clamp_page
clamp_page-pos (pos n) = ground arith
clamp_page-pos (negsuc n) = omega arith

-- The window of a page: what LIMIT and OFFSET select of `total` rows.
abbrev pub InWindow : Page → ℕ → Type 0
InWindow w row = (w.offset ≤ row) × (row < w.offset + w.limit) × (row < w.total)

-- the number of the page that lists a row
abbrev pub page_of : ℤ → ℕ → ℕ
page_of per_page row = row / clamp_per_page per_page + 1

page_unique : (n row q : ℕ) → 1 ≤ n → q * n ≤ row → row < q * n + n → q ≡ row / n
page_unique n row q h lo hi = grind arith

page_window : (n row : ℕ) → 1 ≤ n → (row / n * n ≤ row) × (row < row / n * n + n)
page_window n row h = grind arith

page_last : (n row total : ℕ) → 1 ≤ n → row < total → row / n + 1 ≤ (total + n - 1) / n
page_last n row total h lt = grind arith

clamp_page_of : (p : ℕ) → 1 ≤ p → clamp_page (pos p) ≡ p
unfolding clamp_page
clamp_page_of p h = ground arith

window_iff :
    (n total row p : ℕ)
    → 1 ≤ n
    → 1 ≤ p
    → (((p - 1) * n ≤ row) × (row < (p - 1) * n + n) × (row < total))
      ↔ ((row < total) × (p ≡ row / n + 1))
window_iff n total row p hn hp = (
  λ w. (w.2, omega (arith, page_unique n row (p - 1) hn w.0 w.1)),
  λ (lt, e).
      let q : p - 1 ≡ row / n = omega arith in
      rw q ((page_window n row hn).0, (page_window n row hn).1, lt),
)

-- the last page is not before a page that lists a row
listed :
    {W : Type 0} (n row total p : ℕ)
    → W ↔ ((row < total) × (p ≡ row / n + 1))
    → (row < total → row / n + 1 ≤ (total + n - 1) / n)
    → W ↔ ((row < total) × (p ≡ row / n + 1) × (p ≤ (total + n - 1) / n))
listed n row total p (f, g) last =
    (λ w. ((f w).0, (f w).1, rw ((f w).1) (last (f w).0)), λ (lt, e, le). g (lt, e))

-- A row is listed on page p exactly if it is one of the rows and p is its page, and then p is not
-- behind the last page: the pages up to the last list every row once.
pub paginate_covers :
    (per_page : ℤ) (total row p : ℕ)
    → 1 ≤ p
    → InWindow (paginate (pos p) per_page total) row ↔ (
        (row < total)
        × (p ≡ page_of per_page row)
        × (p ≤ (paginate (pos p) per_page total).last_page))
unfolding paginate
paginate_covers per_page total row p h =
    let n = clamp_per_page per_page in
    let (pos_n, _) = per_page_bounds per_page in
    rw (clamp_page_of p h)
      (listed n row total p (window_iff n total row p pos_n h) (page_last n row total pos_n))
