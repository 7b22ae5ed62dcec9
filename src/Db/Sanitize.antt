-- ===== src/Db/Sanitize.antt =====
-- internal/db/sanitize.go. What it writes to the log is not modelled.
pub mod Laws
use kiya.Base.{ℕ, Bool, true, ◌&&◌, ◌||◌, [], ◌∷◌, ◌==◌, if◌then◌else◌}
use kiya.Text.{Text, codes, contains, all_in, is_digit, is_letter, is_space, to_lower, trim_space}

-- the class `[a-zA-Z0-9_\.]` of `reValidIdentifier`
unfoldable pub ident_byte : ℕ → Bool
unfolding is_digit is_letter
ident_byte c = is_letter c || is_digit c || c == b'_' || c == b'.'

-- the class `[a-zA-Z0-9_\.\s,]` of `reValidOrderBy`
unfoldable pub order_byte : ℕ → Bool
unfolding ident_byte is_space
order_byte c = ident_byte c || is_space c || c == b','

unfoldable pub sanitize_identifier : Text → Text
sanitize_identifier [] = []
sanitize_identifier (c ∷ s) = if all_in ident_byte (c ∷ s) then c ∷ s else []

unfoldable pub order_by_checked : Text → Text
order_by_checked [] = []
order_by_checked (c ∷ s) =
    let lower_expr = to_lower (c ∷ s) in
    if contains lower_expr (codes "select")
      || contains lower_expr (codes "case")
      || contains lower_expr (codes "when")
    then []
    else if all_in order_byte (c ∷ s)
    then c ∷ s
    else []

unfoldable pub sanitize_order_by : Text → Text
sanitize_order_by expr = order_by_checked (trim_space expr)

unfoldable pub sanitize_on_clause : Text → Text
sanitize_on_clause on =
    let on_lower = to_lower on in
    if contains on (codes "--") || contains on (codes "/*")
    then codes "1=0"
    else if contains on (codes ";")
    then codes "1=0"
    else if contains on (codes "(") || contains on (codes ")")
    then codes "1=0"
    else if contains on_lower (codes "select ") || contains on_lower (codes " union ")
    then codes "1=0"
    else on
