-- ===== src/Db/Sanitize/Laws.antt =====
-- The bytes of a text that internal/db/sanitize.go returns.
use kiya.Base.{ℕ, Bool, true, false, ◌≡◌, refl, [], ◌∷◌, if◌then◌else◌, Bool-cases, inl, inr}
use kiya.Text.{Text, all_in}
use kiya.Db.Sanitize.{
  ident_byte, order_byte, order_by_checked, sanitize_identifier, sanitize_order_by,
}

-- a text that passes its test, or the empty one
all_in-keep :
    (p : ℕ → Bool) (blocked : Bool) (s : Text)
    → all_in p (if blocked then [] else if all_in p s then s else []) ≡ true
unfolding all_in
all_in-keep p true s = refl
all_in-keep p false s = elim (Bool-cases (all_in p s)) [ inl e ↦ rw (e, e) | inr e ↦ rw e ]

pub all_in-sanitize_identifier : (s : Text) → all_in ident_byte (sanitize_identifier s) ≡ true
unfolding sanitize_identifier
all_in-sanitize_identifier [] = unfold all_in in refl
all_in-sanitize_identifier (c ∷ s) = all_in-keep ident_byte false (c ∷ s)

all_in-order_by_checked : (s : Text) → all_in order_byte (order_by_checked s) ≡ true
unfolding order_by_checked
all_in-order_by_checked [] = unfold all_in in refl
all_in-order_by_checked (c ∷ s) = all_in-keep order_byte _ (c ∷ s)

pub all_in-sanitize_order_by : (s : Text) → all_in order_byte (sanitize_order_by s) ≡ true
unfolding sanitize_order_by
all_in-sanitize_order_by s = all_in-order_by_checked _
