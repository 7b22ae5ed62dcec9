-- ===== src/Validator/Rows.antt =====
-- The rows of a slice: which are kept, and when there is no error.
use kiya.Base.{
  ◌≡◌, refl, ◌↔◌, true, false, Bool, not, ◌||◌, ◌&&◌, List, [], ◌∷◌, ◌++◌, ℕ, ◌+◌, arith, All,
  if◌then◌else◌,
}
use kiya.Text.{Text, codes}
use kiya.Strconv.{format_uint}
use kiya.Validator.{append_at, Form, is_empty_value}
use kiya.Validator.Rule.{Registry}
use kiya.Validator.Run.{
  has_none, Row, all_empty, row_validator, validate_row, Errors, row_errors, keep_row, compact_rows,
  validate_rows,
}
use kiya.Validator.Accepted.{append_at_lem, validate_struct_lem}

-- some pivot is not empty
unfoldable pub has_filled : List Form → Bool
has_filled [] = false
has_filled (val ∷ vals) = not (is_empty_value val) || has_filled vals

all_empty_lem : (vals : List Form) → all_empty vals ≡ not (has_filled vals)
unfolding all_empty has_filled
all_empty_lem [] = refl
all_empty_lem (val ∷ vals) = ground (arith, all_empty_lem vals)

unfoldable pub filled_rows : List Row → List Row
filled_rows [] = []
filled_rows (row ∷ rows) =
    let rest = filled_rows rows in if has_filled row.pivots then row ∷ rest else rest

unfoldable pub valid_rows : Registry → List Row → List Row
valid_rows registry [] = []
valid_rows registry (row ∷ rows) =
    let rest = valid_rows registry rows in
    if (validate_row registry row).0 then row ∷ rest else rest

abbrev pub IsValidRow : Registry → Row → Type 0
IsValidRow registry row = (validate_row registry row).0 ≡ true

row_errors_lem :
    (prefix : Text) (i : ℕ) (more errors : Errors)
    → has_none (row_errors prefix i more errors) ≡ (has_none more && has_none errors)
unfolding row_errors
row_errors_lem prefix i [] errors = refl
row_errors_lem prefix i ((field, msgs) ∷ more) errors =
    let key = prefix ++ (field ++ (codes "_" ++ format_uint i)) in
    ground (
      arith,
      row_errors_lem prefix i more (append_at key msgs errors),
      append_at_lem key msgs errors,
    )

validate_row_lem :
    (registry : Registry) (row : Row)
    → has_none (validate_row registry row).1.validate_errors ≡ (validate_row registry row).0
unfolding validate_row
validate_row_lem registry row = validate_struct_lem registry (row_validator row)

compact_rows_kept :
    (registry : Registry) (prefix : Text) (i : ℕ) (rows : List Row) (errors : Errors)
    → (compact_rows registry prefix i rows errors).0 ≡ valid_rows registry (filled_rows rows)
unfolding compact_rows valid_rows filled_rows keep_row
compact_rows_kept registry prefix i [] errors = refl
compact_rows_kept registry prefix i (row ∷ rows) errors =
    let sub = (validate_row registry row).1 in
    let refused = row_errors prefix i sub.validate_errors errors in
    ground (
      arith,
      all_empty_lem row.pivots,
      compact_rows_kept registry prefix (i + 1) rows errors,
      compact_rows_kept registry prefix (i + 1) rows refused,
    )

compact_rows_iff :
    (registry : Registry) (prefix : Text) (i : ℕ) (rows : List Row) (errors : Errors)
    → (has_none (compact_rows registry prefix i rows errors).1 ≡ true)
      ↔ ((has_none errors ≡ true) × All (IsValidRow registry) (filled_rows rows))
unfolding compact_rows filled_rows keep_row
compact_rows_iff registry prefix i [] errors = ground arith
compact_rows_iff registry prefix i (row ∷ rows) errors =
    let sub = (validate_row registry row).1 in
    let refused = row_errors prefix i sub.validate_errors errors in
    ground (
      arith,
      all_empty_lem row.pivots,
      compact_rows_iff registry prefix (i + 1) rows errors,
      compact_rows_iff registry prefix (i + 1) rows refused,
      row_errors_lem prefix i sub.validate_errors errors,
      validate_row_lem registry row,
    )

-- Of a slice, the rows that are kept are those that have a pivot field that is not empty and that are
-- valid, in their order, and there is no error exactly if there was none before and every row that
-- has such a field is valid.
pub validate_rows_lem :
    (registry : Registry) (prefix : Text) (rows : List Row) (errors : Errors)
    → ((validate_rows registry prefix rows errors).1.0 ≡ valid_rows registry (filled_rows rows))
      × (((validate_rows registry prefix rows errors).0 ≡ true)
          ↔ ((has_none errors ≡ true) × All (IsValidRow registry) (filled_rows rows)))
unfolding validate_rows
validate_rows_lem registry prefix rows errors = (
  compact_rows_kept registry prefix 0 rows errors,
  compact_rows_iff registry prefix 0 rows errors,
)
