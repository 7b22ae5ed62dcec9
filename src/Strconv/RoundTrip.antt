-- ===== src/Strconv/RoundTrip.antt =====
-- Numbers that are printed and read back by `strconv`.
use kiya.Base.{
  ℕ, zero, suc, ◌+◌, ◌-◌, ◌*◌, ◌/◌, ◌%◌, ◌≤◌, ◌<◌, ◌≡◌, refl, ap, ◌∙◌, true, false, [], ◌∷◌, ◌++◌,
  ltb, arith, Bool-cases, inl, inr,
}
use kiya.Base.Int.{ℤ, pos, negsuc}
use kiya.Text.{Text, is_digit}
use kiya.Strconv.{
  number, format_from, format_uint, format_int, scan, parse_uint, with_sign, parse_int,
}

-- one more digit
scan-snoc :
    (max n m c : ℕ) (s : Text)
    → scan max n s ≡ number m
    → is_digit c ≡ true
    → m * 10 + (c - b'0') ≤ max
    → scan max n (s ++ c ∷ []) ≡ number (m * 10 + (c - b'0'))
unfolding scan
scan-snoc max n m c [] e d h = ground arith
scan-snoc max n m c (x ∷ s) e d h = ground (arith, scan-snoc max (n * 10 + (x - b'0')) m c s)

digit_lem : (d : ℕ) → d < 10 → (is_digit (b'0' + d) ≡ true) × (b'0' + d - b'0' ≡ d)
unfolding is_digit
digit_lem d h = ground arith

one_digit :
    (max n : ℕ)
    → (is_digit (b'0' + n) ≡ true) × (b'0' + n - b'0' ≡ n)
    → n ≤ max
    → scan max 0 ((b'0' + n) ∷ []) ≡ number n
unfolding scan
one_digit max n (d, v) h = ground arith

last_digit : (n : ℕ) → n / 10 * 10 + (b'0' + n % 10 - b'0') ≡ n
last_digit n = omega arith

scan-format_from :
    (fuel max n : ℕ) → n < fuel → n ≤ max → scan max 0 (format_from fuel n) ≡ number n
unfolding format_from scan
scan-format_from zero max n f h = absurd (omega arith)
scan-format_from (suc fuel) max n f h = elim (Bool-cases (ltb n 10)) [
  | inl e ↦ rw e (one_digit max n (digit_lem n (ground arith)) h)
  | inr e ↦ rw e (
      let big : 10 ≤ n = ground arith in
      let ih = scan-format_from fuel max (n / 10) (omega arith) (omega arith) in
      let (d, v) = digit_lem (n % 10) (omega arith) in
      scan-snoc max 0 (n / 10) (b'0' + n % 10) (format_from fuel (n / 10)) ih d (omega arith)
      ∙ ap number (last_digit n))
]

-- a text whose first byte is a digit
data StartsDigit : Text → Type 0 where
  starts : (d : ℕ) (r : Text) → is_digit d ≡ true → StartsDigit (d ∷ r)

StartsDigit-append : {s : Text} (t : Text) → StartsDigit s → StartsDigit (s ++ t)
StartsDigit-append t (starts d r e) = starts d (r ++ t) e

StartsDigit-format_from : (fuel n : ℕ) → n < fuel → StartsDigit (format_from fuel n)
unfolding format_from
StartsDigit-format_from zero n h = absurd (omega arith)
StartsDigit-format_from (suc fuel) n h = elim (Bool-cases (ltb n 10)) [
  | inl e ↦ rw e (starts (b'0' + n) [] (digit_lem n (ground arith)).0)
  | inr e ↦
      let big : 10 ≤ n = ground arith in
      rw e (StartsDigit-append _ (StartsDigit-format_from fuel (n / 10) (omega arith)))
]

parse_uint-scan : (max : ℕ) {s : Text} → StartsDigit s → parse_uint max s ≡ scan max 0 s
unfolding parse_uint
parse_uint-scan max (starts d r e) = refl

-- Every number up to the greatest is read back from its print.
pub parse_uint-format_uint : (max n : ℕ) → n ≤ max → parse_uint max (format_uint n) ≡ number n
unfolding format_uint
parse_uint-format_uint max n h =
    parse_uint-scan max (StartsDigit-format_from (suc n) n (omega arith))
    ∙ scan-format_from (suc n) max n (omega arith) h

parse_int-unsigned :
    (cutoff : ℕ) {s : Text}
    → StartsDigit s
    → parse_int cutoff s ≡ with_sign false cutoff (parse_uint (2 * cutoff - 1) s)
unfolding parse_int is_digit
parse_int-unsigned cutoff (starts d r e) = ground arith

-- the numbers of a signed type of that many bits
abbrev pub Fits : ℕ → ℤ → Type 0
Fits cutoff (pos n) = n < cutoff
Fits cutoff (negsuc n) = n < cutoff

StartsDigit-format_uint : (n : ℕ) → StartsDigit (format_uint n)
unfolding format_uint
StartsDigit-format_uint n = StartsDigit-format_from (suc n) n (omega arith)

with_sign-pos : (cutoff n : ℕ) → n < cutoff → with_sign false cutoff (number n) ≡ number (pos n)
unfolding with_sign
with_sign-pos cutoff n h = ground arith

with_sign-neg :
    (cutoff n : ℕ) → n < cutoff → with_sign true cutoff (number (suc n)) ≡ number (negsuc n)
unfolding with_sign
with_sign-neg cutoff n h = ground arith

parse_int-minus :
    (cutoff : ℕ) (s : Text)
    → parse_int cutoff (b'-' ∷ s) ≡ with_sign true cutoff (parse_uint (2 * cutoff - 1) s)
unfolding parse_int
parse_int-minus cutoff s = refl

-- Every number of a signed type is read back from its print by a parse for that type.
pub parse_int-format_int :
    (cutoff : ℕ) (z : ℤ) → Fits cutoff z → parse_int cutoff (format_int z) ≡ number z
unfolding format_int
parse_int-format_int cutoff (pos n) h =
    parse_int-unsigned cutoff (StartsDigit-format_uint n)
    ∙ rw (parse_uint-format_uint (2 * cutoff - 1) n (omega arith)) (with_sign-pos cutoff n h)
parse_int-format_int cutoff (negsuc n) h =
    parse_int-minus cutoff (format_uint (suc n))
    ∙ rw (parse_uint-format_uint (2 * cutoff - 1) (suc n) (omega arith)) (with_sign-neg cutoff n h)
