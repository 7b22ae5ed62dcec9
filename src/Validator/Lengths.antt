-- ===== src/Validator/Lengths.antt =====
-- The rules on lengths with a parameter that the application prints.
use kiya.Base.{ℕ, ◌^◌, ◌≤◌, ◌<◌, ◌≡◌, refl, ◌↔◌, ◌⊎◌, [], ◌∷◌, none, arith, length}
use kiya.Base.Int.{ℤ, pos}
use kiya.Text.{Text}
use kiya.Strconv.{atoi, format_int, int64_cutoff}
use kiya.Strconv.RoundTrip.{parse_int-format_int}
use kiya.Validator.{text, Verdict}
use kiya.Validator.Rule.{
  with_number, at_most, at_least, longer_than, shorter_than, val_max_length, val_min_length,
}

with_number-format_int :
    (f : ℤ → Verdict) (n : ℕ) → n < 2 ^ 63 → with_number f (atoi (format_int (pos n))) ≡ f (pos n)
unfolding with_number atoi
with_number-format_int f n h = rw (parse_int-format_int int64_cutoff (pos n) h) refl

-- Under a printed bound of int64 each, a text passes both minlength and maxlength exactly if it is
-- empty or its length in bytes is within the bounds.
pub val_length_bounds :
    (p q : ℕ) (s : Text)
    → p < 2 ^ 63
    → q < 2 ^ 63
    → ((val_min_length (format_int (pos p)) (text s) ≡ none)
        × (val_max_length (format_int (pos q)) (text s) ≡ none))
      ↔ ((s ≡ []) ⊎ ((p ≤ length s) × (length s ≤ q)))
unfolding val_min_length val_max_length
val_length_bounds p q [] hp hq = ground arith
val_length_bounds p q (c ∷ s) hp hq =
    rw
      (
        with_number-format_int (at_least (length (c ∷ s))) p hp,
        with_number-format_int (at_most (length (c ∷ s))) q hq,
      )
      (unfold at_least at_most longer_than shorter_than in ground arith)
