-- ===== src/Decoder/Scalars.antt =====
-- Numbers that are printed, sent in a form and decoded.
use kiya.Base.{ℕ, ◌-◌, ◌^◌, ◌≤◌, ◌≡◌, refl, ap, ◌∙◌, [], ◌∷◌}
use kiya.Base.Int.{ℤ}
use kiya.Text.{Text}
use kiya.Strconv.{number, format_int, format_uint, parse_int, parse_uint}
use kiya.Strconv.RoundTrip.{Fits, parse_int-format_int, parse_uint-format_uint}
use kiya.Decoder.{
  Field, set_int, set_uint, int_field, uint_field, unless_blank, int_kind, uint_kind, set_scalar,
}

-- a text that is parsed to a number is not blank
unless_blank-int :
    (cutoff : ℕ) (s : Text) (z : ℤ) (f : Field)
    → parse_int cutoff s ≡ number z
    → unless_blank s f ≡ f
unfolding parse_int
unless_blank-int cutoff [] z f e = absurd cc
unless_blank-int cutoff (c ∷ s) z f e = refl

unless_blank-uint :
    (max : ℕ) (s : Text) (n : ℕ) (f : Field) → parse_uint max s ≡ number n → unless_blank s f ≡ f
unfolding parse_uint
unless_blank-uint max [] n f e = absurd cc
unless_blank-uint max (c ∷ s) n f e = refl

-- A number of a signed kind with that many bits is decoded from its print to itself, and so is a number
-- up to the greatest of an unsigned kind.
pub set_scalar-format_int :
    (bits : ℕ) (z : ℤ) (n : ℕ)
    → Fits (2 ^ (bits - 1)) z
    → n ≤ 2 ^ bits - 1
    → (set_scalar (int_kind bits) (format_int z) ≡ set_int z)
      × (set_scalar (uint_kind bits) (format_uint n) ≡ set_uint n)
unfolding set_scalar int_field uint_field
set_scalar-format_int bits z n hz hn =
    let ez = parse_int-format_int (2 ^ (bits - 1)) z hz in
    let en = parse_uint-format_uint (2 ^ bits - 1) n hn in
    (
      unless_blank-int (2 ^ (bits - 1)) (format_int z) z _ ez ∙ ap int_field ez,
      unless_blank-uint (2 ^ bits - 1) (format_uint n) n _ en ∙ ap uint_field en,
    )
