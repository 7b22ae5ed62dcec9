-- ===== src/Text/Laws.antt =====
-- Laws of the text functions.
use kiya.Base.{
  ℕ, ◌+◌, ◌*◌, ◌≡◌, refl, ◌↔◌, Bool, true, false, List, [], ◌∷◌, ◌++◌, arith, length, All,
}
use kiya.Text.{Text, text_eq, join, all_in, count_in}

pub text_eq_iff : (s t : Text) → (text_eq s t ≡ true) ↔ (s ≡ t)
unfolding text_eq
text_eq_iff [] [] = ground arith
text_eq_iff [] (b ∷ t) = ground arith
text_eq_iff (a ∷ s) [] = ground arith
text_eq_iff (a ∷ s) (b ∷ t) = ground (arith, text_eq_iff s t)

pub text_eq_refl : (s : Text) → text_eq s s ≡ true
text_eq_refl s = (text_eq_iff s s).1 refl

pub all_in_mono :
    (p q : ℕ → Bool)
    → ((c : ℕ) → p c ≡ true → q c ≡ true)
    → (s : Text) → all_in p s ≡ true
    → all_in q s ≡ true
unfolding all_in
all_in_mono p q h [] e = refl
all_in_mono p q h (c ∷ s) e = ground (arith, h c, all_in_mono p q h s)

module _ (p : ℕ → Bool) where
  pub count_in-append : (s t : Text) → count_in p (s ++ t) ≡ count_in p s + count_in p t
  unfolding count_in
  count_in-append [] t = omega arith
  count_in-append (c ∷ s) t = ground (arith, count_in-append s t)

  pub count_in-eq-zero :
      (q : ℕ → Bool)
      → ((c : ℕ) → q c ≡ true → p c ≡ false)
      → (s : Text) → all_in q s ≡ true
      → count_in p s ≡ 0
  unfolding count_in all_in
  count_in-eq-zero q h [] e = refl
  count_in-eq-zero q h (c ∷ s) e = ground (arith, h c, count_in-eq-zero q h s)

  -- A joined list weighs what its items weigh, where the separator weighs nothing.
  pub count_in-join :
      (sep : Text)
      → count_in p sep ≡ 0
      → (n : ℕ) (ss : List Text) → All (λ s. count_in p s ≡ n) ss
      → count_in p (join ss sep) ≡ n * length ss
  unfolding join
  count_in-join sep z n [] h = unfold count_in in omega arith
  count_in-join sep z n (s ∷ []) h = omega arith
  count_in-join sep z n (s ∷ t ∷ ss) (h, hs) = omega (
    arith,
    count_in-append s (sep ++ join (t ∷ ss) sep),
    count_in-append sep (join (t ∷ ss) sep),
    count_in-join sep z n (t ∷ ss) hs,
  )
