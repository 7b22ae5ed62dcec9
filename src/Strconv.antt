-- ===== src/Strconv.antt =====
-- What the program uses of the package `strconv`: numbers in base 10.
pub mod RoundTrip
use kiya.Base.{
  ℕ, zero, suc, ◌+◌, ◌-◌, ◌*◌, ◌/◌, ◌%◌, ◌^◌, Bool, true, false, ◌&&◌, ◌||◌, not, List, [], ◌∷◌,
  ◌++◌, ltb, leb, ◌==◌, if◌then◌else◌,
}
use kiya.Base.Int.{ℤ, pos, negsuc}
use kiya.Text.{Text, is_digit}

-- a number, or one of the errors ErrSyntax and ErrRange, the second with the nearest number
pub data Parsed (A : Type 0) : Type 0 where
  number : A → Parsed A
  syntax : Parsed A
  range : A → Parsed A

-- The digits of `n`; the fuel is above the number of digits.
unfoldable pub format_from : ℕ → ℕ → Text
format_from zero n = []
format_from (suc fuel) n =
    let more = format_from fuel (n / 10) ++ (b'0' + n % 10) ∷ [] in
    if ltb n 10 then (b'0' + n) ∷ [] else more

-- `FormatUint(n, 10)`
unfoldable pub format_uint : ℕ → Text
format_uint n = format_from (suc n) n

-- `FormatInt(n, 10)` and `%d`
unfoldable pub format_int : ℤ → Text
format_int (pos n) = format_uint n
format_int (negsuc n) = b'-' ∷ format_uint (suc n)

-- the loop of `ParseUint`, with the greatest number allowed
unfoldable pub scan : ℕ → ℕ → Text → Parsed ℕ
scan max n [] = number n
scan max n (c ∷ s) =
    let m = n * 10 + (c - b'0') in
    let rest = scan max m s in
    if not (is_digit c) then syntax else if ltb max m then range max else rest

-- `ParseUint(s, 10, bits)`, by the greatest number of that many bits
unfoldable pub parse_uint : ℕ → Text → Parsed ℕ
parse_uint max [] = syntax
parse_uint max (c ∷ s) = scan max 0 (c ∷ s)

abbrev pub negative : ℕ → ℤ
negative zero = pos 0
negative (suc n) = negsuc n

-- the end of `ParseInt`, where `cutoff` is 2 ^ (bits - 1)
unfoldable pub with_sign : Bool → ℕ → Parsed ℕ → Parsed ℤ
with_sign neg cutoff syntax = syntax
with_sign false cutoff (number n) =
    if leb cutoff n then range (pos (cutoff - 1)) else number (pos n)
with_sign false cutoff (range n) = range (pos (cutoff - 1))
with_sign true cutoff (number n) =
    if ltb cutoff n then range (negative cutoff) else number (negative n)
with_sign true cutoff (range n) = range (negative cutoff)

-- `ParseInt(s, 10, bits)`
unfoldable pub parse_int : ℕ → Text → Parsed ℤ
parse_int cutoff [] = syntax
parse_int cutoff (c ∷ s) =
    if c == b'+'
    then with_sign false cutoff (parse_uint (2 * cutoff - 1) s)
    else if c == b'-'
    then with_sign true cutoff (parse_uint (2 * cutoff - 1) s)
    else with_sign false cutoff (parse_uint (2 * cutoff - 1) (c ∷ s))

-- 2 ^ 63
abbrev pub int64_cutoff : ℕ
int64_cutoff = 2 ^ 63

-- `Atoi`
unfoldable pub atoi : Text → Parsed ℤ
atoi s = parse_int int64_cutoff s
