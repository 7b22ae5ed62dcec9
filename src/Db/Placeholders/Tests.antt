-- ===== src/Db/Placeholders/Tests.antt =====
-- A statement with a literal that holds a question mark.
use kiya.Base.{◌≡◌, refl, List, [], ◌∷◌}
use kiya.Text.{codes, all_in}
use kiya.Strconv.{format_uint, format_from}
use kiya.Db.Builder.{postgres}
use kiya.Db.Placeholders.{literal_len, dollar_len, dollar_skip, replace_marks, convert_placeholders}
use kiya.Db.Placeholders.Numbering.{
  Piece, byte, mark, quoted, dollared, query_of, numbered, convert_placeholders-query_of,
}

abbrev pieces : List Piece
pieces =
    byte b'a'
    ∷ byte b'='
    ∷ mark
    ∷ byte b','
    ∷ quoted (codes "who?") b','
    ∷ dollared (codes "?") b','
    ∷ mark
    ∷ []

convert_placeholders-query_of_example :
    convert_placeholders postgres (query_of pieces) ≡ numbered 0 pieces
convert_placeholders-query_of_example = convert_placeholders-query_of pieces (
  refl,
  (
    refl,
    (
      tt,
      (
        refl,
        ((unfold all_in codes in refl, refl), ((unfold all_in codes in refl, refl), (tt, tt))),
      ),
    ),
  ),
)

-- a doubled quote stays in its literal, and a literal without an end is none
convert_placeholders-doubled :
    convert_placeholders postgres (codes "x = 'it''s ?' AND y = ? AND z = '?")
    ≡ codes "x = 'it''s ?' AND y = $1 AND z = '$2"
unfolding convert_placeholders replace_marks literal_len dollar_skip dollar_len format_uint
    format_from codes
convert_placeholders-doubled = refl
