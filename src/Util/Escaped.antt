-- ===== src/Util/Escaped.antt =====
-- Escaped text against the reading of entities in HTML.
use kiya.Base.{
  ℕ, zero, suc, ◌≡◌, refl, ap, ◌∙◌, Bool, true, false, not, ◌&&◌, [], ◌∷◌, ◌++◌, if◌then◌else◌,
  ◌==◌, arith,
}
use kiya.Text.{Text, codes, all_in, has_prefix}
use kiya.Util.{escape_byte, html_escape}

-- a byte that ends neither a text nor an attribute in quotes
abbrev pub inert : ℕ → Bool
inert c = not (c == b'<') && (not (c == b'>') && (not (c == 34) && not (c == 39)))

-- the text of the five entities, where `skip` bytes of one are still to be left out
unfoldable pub unescape_from : ℕ → Text → Text
unescape_from skip [] = []
unescape_from (suc skip) (c ∷ s) = unescape_from skip s
unescape_from zero (c ∷ s) =
    let rest = unescape_from 0 s in
    let after_3 = unescape_from 3 s in
    let after_4 = unescape_from 4 s in
    let after_5 = unescape_from 5 s in
    if has_prefix (c ∷ s) (codes "&amp;")
    then b'&' ∷ after_4
    else if has_prefix (c ∷ s) (codes "&lt;")
    then b'<' ∷ after_3
    else if has_prefix (c ∷ s) (codes "&gt;")
    then b'>' ∷ after_3
    else if has_prefix (c ∷ s) (codes "&quot;")
    then 34 ∷ after_5
    else if has_prefix (c ∷ s) (codes "&#39;")
    then 39 ∷ after_4
    else c ∷ rest

all_in-append :
    (p : ℕ → Bool) (s t : Text) → all_in p s ≡ true → all_in p t ≡ true → all_in p (s ++ t) ≡ true
unfolding all_in
all_in-append p [] t hs ht = ht
all_in-append p (c ∷ s) t hs ht = ground (arith, all_in-append p s t)

escape_byte-inert : (c : ℕ) → all_in inert (escape_byte c) ≡ true
unfolding escape_byte all_in codes
escape_byte-inert c = ground arith

html_escape-inert : (s : Text) → all_in inert (html_escape s) ≡ true
unfolding html_escape
html_escape-inert [] = unfold all_in in refl
html_escape-inert (c ∷ s) =
    all_in-append inert (escape_byte c) (html_escape s) (escape_byte-inert c) (html_escape-inert s)

unescape_from-other :
    (c : ℕ) (t : Text) → (c == b'&') ≡ false → unescape_from 0 (c ∷ t) ≡ c ∷ unescape_from 0 t
unfolding unescape_from has_prefix codes
unescape_from-other c t e = ground arith

unescape_from-escape_byte :
    (c : ℕ) (t : Text) → unescape_from 0 (escape_byte c ++ t) ≡ c ∷ unescape_from 0 t
unfolding escape_byte unescape_from has_prefix codes
unescape_from-escape_byte c t = ground (arith, unescape_from-other c t)

unescape_from-html_escape : (s : Text) → unescape_from 0 (html_escape s) ≡ s
unfolding html_escape
unescape_from-html_escape [] = unfold unescape_from in refl
unescape_from-html_escape (c ∷ s) =
    unescape_from-escape_byte c (html_escape s) ∙ ap (λ t. c ∷ t) (unescape_from-html_escape s)

-- Escaped text holds no angle bracket and no quote, and reading its entities gives the text back.
pub html_escape_lem :
    (s : Text) → (all_in inert (html_escape s) ≡ true) × (unescape_from 0 (html_escape s) ≡ s)
html_escape_lem s = (html_escape-inert s, unescape_from-html_escape s)
