-- ===== src/Validator/Password.antt =====
-- The rule secpass against its description by classes of bytes.
use kiya.Base.{
  ℕ, ◌≤◌, ◌≡◌, refl, ◌∙◌, ◌↔◌, Bool, true, false, ◌&&◌, ◌||◌, [], ◌∷◌, none, arith, length, leb,
}
use kiya.Text.{Text, codes}
use kiya.Validator.{text}
use kiya.Validator.Rule.{Seen, none_seen, see, see_all, is_symbol, is_one_of, strong, val_sec_pass}

-- whether some byte passes the test
unfoldable pub any_of : (ℕ → Bool) → Text → Bool
any_of p [] = false
any_of p (c ∷ s) = p c || any_of p s

abbrev pub is_upper : ℕ → Bool
is_upper c = leb b'A' c && leb c b'Z'

abbrev pub is_lower : ℕ → Bool
is_lower c = leb b'a' c && leb c b'z'

abbrev pub is_decimal : ℕ → Bool
is_decimal c = leb b'0' c && leb c b'9'

-- the flags of a text, each by itself
abbrev pub seen_of : Text → Seen → Seen
seen_of s seen = record {
  upper = seen.upper || any_of is_upper s;
  lower = seen.lower || any_of is_lower s;
  digit = seen.digit || any_of is_decimal s;
  symbol = seen.symbol || any_of is_symbol s;
}

-- a symbol is in no other class
symbol_only :
    (c : ℕ)
    → is_symbol c ≡ true
    → (is_upper c ≡ false) × (is_lower c ≡ false) × (is_decimal c ≡ false)
unfolding is_symbol is_one_of codes
symbol_only c h = ground arith

see_lem :
    (c : ℕ) (seen : Seen)
    → ((see c seen).upper ≡ (seen.upper || is_upper c))
      × ((see c seen).lower ≡ (seen.lower || is_lower c))
      × ((see c seen).digit ≡ (seen.digit || is_decimal c))
      × ((see c seen).symbol ≡ (seen.symbol || is_symbol c))
unfolding see
see_lem c seen = (
  ground (arith, symbol_only c),
  ground (arith, symbol_only c),
  ground (arith, symbol_only c),
  ground (arith, symbol_only c),
)

or_assoc : (a b c : Bool) → ((a || b) || c) ≡ (a || (b || c))
or_assoc true b c = refl
or_assoc false b c = refl

or_false : (a : Bool) → a ≡ (a || false)
or_false true = refl
or_false false = refl

-- The flag of a class is set by the loop exactly if it was or a byte is in the class.
flag_lem :
    (flag_of : Seen → Bool) (p : ℕ → Bool)
    → ((c : ℕ) (seen : Seen) → flag_of (see c seen) ≡ (flag_of seen || p c))
    → (s : Text) (seen : Seen) → flag_of (see_all s seen) ≡ (flag_of seen || any_of p s)
unfolding see_all any_of
flag_lem flag_of p h [] seen = or_false (flag_of seen)
flag_lem flag_of p h (c ∷ s) seen =
    flag_lem flag_of p h s (see c seen) ∙ rw (h c seen) (or_assoc (flag_of seen) (p c) (any_of p s))

strong_iff :
    (s : Seen)
    → (strong s ≡ none)
      ↔ ((s.upper ≡ true) × (s.lower ≡ true) × (s.digit ≡ true) × (s.symbol ≡ true))
unfolding strong
strong_iff s = ground arith

-- A text passes secpass exactly if it has 8 bytes or more and, among them, a letter from A to Z, one
-- from a to z, a digit and one of the symbols.
pub val_sec_pass_iff :
    (s : Text)
    → (val_sec_pass (text s) ≡ none) ↔ (
        (8 ≤ length s)
        × (any_of is_upper s ≡ true)
        × (any_of is_lower s ≡ true)
        × (any_of is_decimal s ≡ true)
        × (any_of is_symbol s ≡ true))
unfolding val_sec_pass
val_sec_pass_iff s = ground (
  arith,
  strong_iff (see_all s none_seen),
  flag_lem (λ seen. seen.upper) is_upper (λ c seen. (see_lem c seen).0) s none_seen,
  flag_lem (λ seen. seen.lower) is_lower (λ c seen. (see_lem c seen).1) s none_seen,
  flag_lem (λ seen. seen.digit) is_decimal (λ c seen. (see_lem c seen).2) s none_seen,
  flag_lem (λ seen. seen.symbol) is_symbol (λ c seen. (see_lem c seen).3) s none_seen,
)
