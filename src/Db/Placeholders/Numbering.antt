-- ===== src/Db/Placeholders/Numbering.antt =====
-- What ConvertPlaceholders does to a statement, piece by piece.
use kiya.Base.{
  ℕ, suc, ◌≡◌, refl, sym, ap, ◌∙◌, Bool, true, false, not, ◌&&◌, List, [], ◌∷◌, ◌++◌, some, ◌==◌,
  arith, All, length, append_assoc,
}
use kiya.Text.{Text, all_in}
use kiya.Strconv.{format_uint}
use kiya.Db.Builder.{postgres}
use kiya.Db.Placeholders.{
  quote, literal_len, dollar_len, longer, or_zero, dollar_skip, replace_marks, convert_placeholders,
}

-- a byte that is neither a quote, a dollar nor a question mark
abbrev pub plain_byte : ℕ → Bool
plain_byte c = not (c == quote) && (not (c == b'$') && not (c == b'?'))

abbrev pub not_quote : ℕ → Bool
not_quote c = not (c == quote)

abbrev pub in_dollars : ℕ → Bool
in_dollars c = not (c == b'$') && not (c == 10)

-- A statement: bytes, marks, and literals in quotes or dollars with the byte that follows them.
pub data Piece : Type 0 where
  byte : ℕ → Piece
  mark : Piece
  quoted dollared : Text → ℕ → Piece

abbrev pub IsPiece : Piece → Type 0
IsPiece (byte c) = plain_byte c ≡ true
IsPiece mark = Unit
IsPiece (quoted s c) = (all_in not_quote s ≡ true) × (plain_byte c ≡ true)
IsPiece (dollared s c) = (all_in in_dollars s ≡ true) × (plain_byte c ≡ true)

unfoldable pub query_of : List Piece → Text
query_of [] = []
query_of (byte c ∷ ps) = c ∷ query_of ps
query_of (mark ∷ ps) = b'?' ∷ query_of ps
query_of (quoted s c ∷ ps) = quote ∷ (s ++ quote ∷ c ∷ query_of ps)
query_of (dollared s c ∷ ps) = b'$' ∷ b'$' ∷ (s ++ b'$' ∷ b'$' ∷ c ∷ query_of ps)

-- the same, where `i` marks are behind: the marks are numbered and all else is as it was
unfoldable pub numbered : ℕ → List Piece → Text
numbered i [] = []
numbered i (byte c ∷ ps) = c ∷ numbered i ps
numbered i (mark ∷ ps) = b'$' ∷ (format_uint (suc i) ++ numbered (suc i) ps)
numbered i (quoted s c ∷ ps) = quote ∷ (s ++ quote ∷ c ∷ numbered i ps)
numbered i (dollared s c ∷ ps) = b'$' ∷ b'$' ∷ (s ++ b'$' ∷ b'$' ∷ c ∷ numbered i ps)

replace_marks-copied :
    (i : ℕ) (s t : Text) → replace_marks (length s) i (s ++ t) ≡ s ++ replace_marks 0 i t
unfolding replace_marks
replace_marks-copied i [] t = refl
replace_marks-copied i (c ∷ s) t = ap (λ r. c ∷ r) (replace_marks-copied i s t)

one_more : (n : ℕ) → longer 1 (some n) ≡ some (suc n)
one_more n = ap some (omega arith)

literal_len-other :
    (c d : ℕ) (s : Text)
    → (c == quote) ≡ false
    → literal_len (c ∷ d ∷ s) ≡ longer 1 (literal_len (d ∷ s))
unfolding literal_len
literal_len-other c d s e = rw e refl

literal_len-append :
    (s : Text) (c : ℕ) (t : Text)
    → all_in not_quote s ≡ true
    → plain_byte c ≡ true
    → literal_len (s ++ quote ∷ c ∷ t) ≡ some (length (s ++ quote ∷ []))
unfolding all_in
literal_len-append [] c t h p = unfold literal_len in ground arith
literal_len-append (d ∷ []) c t h p =
    literal_len-other d quote (c ∷ t) (ground arith)
    ∙ ap (longer 1) (literal_len-append [] c t refl p)
literal_len-append (d ∷ e ∷ s) c t h p =
    literal_len-other d e (s ++ quote ∷ c ∷ t) (ground arith)
    ∙ ap (longer 1) (literal_len-append (e ∷ s) c t (ground arith) p)
    ∙ one_more (length (e ∷ (s ++ quote ∷ [])))

dollar_len-other :
    (c d : ℕ) (s : Text)
    → in_dollars c ≡ true
    → dollar_len (c ∷ d ∷ s) ≡ longer 1 (dollar_len (d ∷ s))
unfolding dollar_len
dollar_len-other c d s e = ground arith

dollar_len-append :
    (s t : Text)
    → all_in in_dollars s ≡ true
    → dollar_len (s ++ b'$' ∷ b'$' ∷ t) ≡ some (length (s ++ b'$' ∷ b'$' ∷ []))
unfolding all_in
dollar_len-append [] t h = unfold dollar_len in refl
dollar_len-append (d ∷ []) t h =
    dollar_len-other d b'$' (b'$' ∷ t) (ground arith) ∙ ap (longer 1) (dollar_len-append [] t refl)
dollar_len-append (d ∷ e ∷ s) t h =
    dollar_len-other d e (s ++ b'$' ∷ b'$' ∷ t) (ground arith)
    ∙ ap (longer 1) (dollar_len-append (e ∷ s) t (ground arith))
    ∙ one_more (length (e ∷ (s ++ b'$' ∷ b'$' ∷ [])))

replace_marks-byte :
    (i c : ℕ) (s : Text) → plain_byte c ≡ true → replace_marks 0 i (c ∷ s) ≡ c ∷ replace_marks 0 i s
unfolding replace_marks
replace_marks-byte i c s h = ground arith

replace_marks-quoted :
    (i : ℕ) (s : Text) (c : ℕ) (t : Text)
    → all_in not_quote s ≡ true
    → plain_byte c ≡ true
    → replace_marks 0 i (quote ∷ (s ++ quote ∷ c ∷ t))
      ≡ quote ∷ (s ++ quote ∷ replace_marks 0 i (c ∷ t))
replace_marks-quoted i s c t h p =
    unfold replace_marks in
    ap (λ n. quote ∷ replace_marks (or_zero n) i (s ++ quote ∷ c ∷ t))
      (literal_len-append s c t h p)
    ∙ ap (λ u. quote ∷ replace_marks (length (s ++ quote ∷ [])) i u)
        (sym (append_assoc s (quote ∷ []) (c ∷ t)))
    ∙ ap (λ u. quote ∷ u) (replace_marks-copied i (s ++ quote ∷ []) (c ∷ t))
    ∙ ap (λ u. quote ∷ u) (append_assoc s (quote ∷ []) (replace_marks 0 i (c ∷ t)))

dollar_skip-append :
    (s t : Text)
    → all_in in_dollars s ≡ true
    → dollar_skip (b'$' ∷ (s ++ b'$' ∷ b'$' ∷ t)) ≡ length (b'$' ∷ (s ++ b'$' ∷ b'$' ∷ []))
unfolding dollar_skip
dollar_skip-append s t h = rw (dollar_len-append s t h) (omega arith)

replace_marks-dollared :
    (i : ℕ) (s t : Text)
    → all_in in_dollars s ≡ true
    → replace_marks 0 i (b'$' ∷ b'$' ∷ (s ++ b'$' ∷ b'$' ∷ t))
      ≡ b'$' ∷ b'$' ∷ (s ++ b'$' ∷ b'$' ∷ replace_marks 0 i t)
replace_marks-dollared i s t h =
    let closed = b'$' ∷ (s ++ b'$' ∷ b'$' ∷ []) in
    unfold replace_marks in
    ap (λ n. b'$' ∷ replace_marks n i (b'$' ∷ (s ++ b'$' ∷ b'$' ∷ t))) (dollar_skip-append s t h)
    ∙ ap (λ u. b'$' ∷ replace_marks (length closed) i (b'$' ∷ u))
        (sym (append_assoc s (b'$' ∷ b'$' ∷ []) t))
    ∙ ap (λ u. b'$' ∷ u) (replace_marks-copied i closed t)
    ∙ ap (λ u. b'$' ∷ b'$' ∷ u) (append_assoc s (b'$' ∷ b'$' ∷ []) (replace_marks 0 i t))

replace_marks-mark :
    (i : ℕ) (s : Text)
    → replace_marks 0 i (b'?' ∷ s) ≡ b'$' ∷ (format_uint (suc i) ++ replace_marks 0 (suc i) s)
unfolding replace_marks
replace_marks-mark i s = refl

replace_marks-query_of :
    (i : ℕ) (ps : List Piece) → All IsPiece ps → replace_marks 0 i (query_of ps) ≡ numbered i ps
unfolding query_of numbered
replace_marks-query_of i [] h = unfold replace_marks in refl
replace_marks-query_of i (byte c ∷ ps) (p, h) =
    replace_marks-byte i c (query_of ps) p ∙ ap (λ u. c ∷ u) (replace_marks-query_of i ps h)
replace_marks-query_of i (mark ∷ ps) (p, h) =
    replace_marks-mark i (query_of ps)
    ∙ ap (λ u. b'$' ∷ (format_uint (suc i) ++ u)) (replace_marks-query_of (suc i) ps h)
replace_marks-query_of i (quoted s c ∷ ps) ((q, p), h) =
    replace_marks-quoted i s c (query_of ps) q p
    ∙ ap (λ u. quote ∷ (s ++ quote ∷ u))
        (replace_marks-byte i c (query_of ps) p ∙ ap (λ u. c ∷ u) (replace_marks-query_of i ps h))
replace_marks-query_of i (dollared s c ∷ ps) ((q, p), h) =
    replace_marks-dollared i s (c ∷ query_of ps) q
    ∙ ap (λ u. b'$' ∷ b'$' ∷ (s ++ b'$' ∷ b'$' ∷ u))
        (replace_marks-byte i c (query_of ps) p ∙ ap (λ u. c ∷ u) (replace_marks-query_of i ps h))

-- A statement of plain bytes, question marks and literals, in quotes without a quote in them or in pairs of
-- dollars without a dollar or a line end in them, each with a plain byte behind: for PostgreSQL the
-- question marks outside the literals become $1, $2 and so on, in their order, and all else is kept.
pub convert_placeholders-query_of :
    (ps : List Piece) → All IsPiece ps → convert_placeholders postgres (query_of ps) ≡ numbered 0 ps
unfolding convert_placeholders
convert_placeholders-query_of ps h = replace_marks-query_of 0 ps h
