-- ===== src/Db/Placeholders.antt =====
-- internal/db/dialect.go: ConvertPlaceholders. The matches of the regular expression
--   ('(?:[^']|'')*')|(\$\$.*?\$\$)|(\?)
-- are found from the left, as package `regexp` does, with the first alternative that matches.
pub mod Numbering
pub mod Tests
use kiya.Base.{
  ℕ, zero, suc, ◌+◌, Bool, true, false, List, [], ◌∷◌, ◌++◌, Option, none, some, if◌then◌else◌,
  ◌==◌,
}
use kiya.Text.{Text}
use kiya.Strconv.{format_uint}
use kiya.Db.Builder.{Dialect, mysql, postgres}

abbrev pub quote : ℕ
quote = 39

abbrev pub longer : ℕ → Option ℕ → Option ℕ
longer k none = none
longer k (some n) = some (k + n)

-- a pair of quotes goes on if a closing quote follows later, or else its first one closes
abbrev pub pair_or_close : Option ℕ → Option ℕ
pair_or_close none = some 1
pair_or_close (some n) = some (2 + n)

-- The bytes of a string literal behind its opening quote, with the closing one.
unfoldable pub literal_len : Text → Option ℕ
literal_len [] = none
literal_len (c ∷ []) = if c == quote then some 1 else none
literal_len (c ∷ d ∷ s) =
    let pair = pair_or_close (literal_len s) in
    let more = longer 1 (literal_len (d ∷ s)) in
    if c == quote then (if d == quote then pair else some 1) else more

-- The bytes behind two dollars up to the next two on the line, with them.
unfoldable pub dollar_len : Text → Option ℕ
dollar_len [] = none
dollar_len (c ∷ []) = none
dollar_len (c ∷ d ∷ s) =
    let more = longer 1 (dollar_len (d ∷ s)) in
    if c == b'$' then (if d == b'$' then some 2 else more) else if c == 10 then none else more

abbrev pub or_zero : Option ℕ → ℕ
or_zero none = 0
or_zero (some n) = n

-- the bytes of a match behind a first dollar
unfoldable pub dollar_skip : Text → ℕ
dollar_skip [] = 0
dollar_skip (c ∷ s) = if c == b'$' then or_zero (longer 1 (dollar_len s)) else 0

-- `ReplaceAllStringFunc`: `skip` bytes of a literal are still to be copied, and `i` marks are behind.
unfoldable pub replace_marks : ℕ → ℕ → Text → Text
replace_marks skip i [] = []
replace_marks (suc skip) i (c ∷ s) = c ∷ replace_marks skip i s
replace_marks zero i (c ∷ s) =
    let after_literal = replace_marks (or_zero (literal_len s)) i s in
    let after_dollar = replace_marks (dollar_skip s) i s in
    let next = replace_marks 0 (suc i) s in
    let copied = replace_marks 0 i s in
    if c == quote
    then c ∷ after_literal
    else if c == b'$'
    then c ∷ after_dollar
    else if c == b'?'
    then b'$' ∷ (format_uint (suc i) ++ next)
    else c ∷ copied

-- `ConvertPlaceholders`
unfoldable pub convert_placeholders : Dialect → Text → Text
convert_placeholders mysql query = query
convert_placeholders postgres query = replace_marks 0 0 query
