-- ===== src/Db/Model/Lookup.antt =====
-- What stands at a column in the map of a model.
use kiya.Base.{◌≡◌, refl, ◌∙◌, Bool, true, false, List, [], ◌∷◌, arith, Bool-cases, inl, inr}
use kiya.Text.{Text, text_eq}
use kiya.Text.Laws.{text_eq_iff, text_eq_refl}
use kiya.Db.Builder.{Value, Columns}
use kiya.Db.Write.{member}
use kiya.Db.Sql.{value_at}
use kiya.Db.Model.{StructField, CachedField, column_names, put_column, put_columns}

pub value_at-put_column : (k : Text) (v : Value) (m : Columns) → value_at k (put_column k v m) ≡ v
unfolding value_at put_column
value_at-put_column k v [] = ground (arith, text_eq_refl k)
value_at-put_column k v ((j, w) ∷ m) = ground (arith, text_eq_refl k, value_at-put_column k v m)

value_at-put_column_frame :
    (k j : Text) (v : Value) (m : Columns)
    → text_eq k j ≡ false
    → value_at j (put_column k v m) ≡ value_at j m
unfolding value_at put_column
value_at-put_column_frame k j v [] h = ground arith
value_at-put_column_frame k j v ((i, w) ∷ m) h = elim (Bool-cases (text_eq i k)) [
  | inl e ↦ ground (arith, (text_eq_iff i k).0 e)
  | inr e ↦ rw (e, value_at-put_column_frame k j v m h) refl
]

-- the field, with no column of its name after it
pub data IsLast (c : CachedField) (f : StructField)
    : List (CachedField × StructField) → Type 0 where
  last_here :
      {cs : List (CachedField × StructField)}
      → member c.name (column_names cs) ≡ false
      → IsLast c f ((c, f) ∷ cs)
  last_later :
      {d : CachedField} {g : StructField} {cs : List (CachedField × StructField)}
      → IsLast c f cs
      → IsLast c f ((d, g) ∷ cs)

module _ (take : CachedField → Bool) (value_of : CachedField → Value → Value) where
  -- a column that is not named is left alone
  pub put_columns_frame :
      (j : Text) (cs : List (CachedField × StructField)) (m : Columns)
      → member j (column_names cs) ≡ false
      → value_at j (put_columns take value_of cs m) ≡ value_at j m
  unfolding put_columns column_names member
  put_columns_frame j [] m h = refl
  put_columns_frame j ((c, f) ∷ cs) m h = elim (Bool-cases (take c)) [
    | inl e ↦ rw e (
        put_columns_frame j cs (put_column c.name (value_of c f.value) m) (ground arith)
        ∙ value_at-put_column_frame c.name j (value_of c f.value) m (ground arith))
    | inr e ↦ rw e (put_columns_frame j cs m (ground arith))
  ]

  -- the last field of a name gives the value
  pub put_columns_at :
      (c : CachedField) (f : StructField) (cs : List (CachedField × StructField)) (m : Columns)
      → take c ≡ true
      → IsLast c f cs
      → value_at c.name (put_columns take value_of cs m) ≡ value_of c f.value
  unfolding put_columns
  put_columns_at c f _ m t (last_here {cs} n) = rw t (
      put_columns_frame c.name cs (put_column c.name (value_of c f.value) m) n
      ∙ value_at-put_column c.name (value_of c f.value) m)
  put_columns_at c f _ m t (last_later {d} {g} {cs} l) = elim (Bool-cases (take d)) [
    | inl e ↦ rw e (put_columns_at c f cs (put_column d.name (value_of d g.value) m) t l)
    | inr e ↦ rw e (put_columns_at c f cs m t l)
  ]
