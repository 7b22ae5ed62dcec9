-- ===== src/Db/History/Column.antt =====
-- The history column among the fields of a model (internal/db/history.go).
use kiya.Base.{
  ◌≡◌, refl, sym, ap, ◌∙◌, Bool, true, false, List, [], ◌∷◌, Option, none, some, Bool-cases, inl,
  inr,
}
use kiya.Text.{Text, codes, text_eq}
use kiya.Text.Laws.{text_eq_iff}
use kiya.Db.Builder.{Value, text}
use kiya.Db.Sql.{value_at}
use kiya.Db.Write.{member}
use kiya.Db.Model.{
  text_kind, StructField, CachedField, cached_field, cached_fields, column_names, cons_cached,
  put_columns,
}
use kiya.Db.Model.Keys.{string_field, set_text, text_value, set_string_field, set_actor_field}
use kiya.Db.Model.Lookup.{IsLast, last_here, last_later, put_columns_at}

-- The first field `History` is a string with a text, and the last column of its name.
pub data HistoryAt (c : CachedField) (hist : Text) : List StructField → Type 0 where
  history_here :
      (f : StructField) (fs : List StructField)
      → text_eq f.field_name (codes "History") ≡ true
      → f.kind ≡ text_kind
      → f.value ≡ text hist
      → cached_field f ≡ some c
      → member c.name (column_names (cached_fields fs)) ≡ false
      → HistoryAt c hist (f ∷ fs)
  history_later :
      (f : StructField) (fs : List StructField)
      → text_eq f.field_name (codes "History") ≡ false
      → HistoryAt c hist fs
      → HistoryAt c hist (f ∷ fs)

pub string_field-HistoryAt :
    (c : CachedField) (hist : Text) (fs : List StructField)
    → HistoryAt c hist fs
    → string_field (codes "History") fs ≡ some hist
unfolding string_field
string_field-HistoryAt c hist _ (history_here f fs n k v e m) =
    rw n (rw k (ap (λ x. some (text_value x)) v))
string_field-HistoryAt c hist _ (history_later f fs n h) = rw n (string_field-HistoryAt c hist fs h)

-- the columns of a model do not depend on its values
cached_field-set_text : (s : Text) (f : StructField) → cached_field (set_text s f) ≡ cached_field f
unfolding cached_field
cached_field-set_text s f =
    elim f.kind
      as (λ k.
        cached_field (set_text s (record f { kind = k })) ≡ cached_field (record f { kind = k })) [
          | text_kind ↦ refl
          | _ ↦ refl
        ]

cons_names : Option CachedField → List Text → List Text
cons_names none ns = ns
cons_names (some c) ns = c.name ∷ ns

names-cons_cached :
    (c : Option CachedField) (f : StructField) (cs : List (CachedField × StructField))
    → column_names (cons_cached c f cs) ≡ cons_names c (column_names cs)
unfolding column_names cons_names
names-cons_cached none f cs = refl
names-cons_cached (some c) f cs = refl

names-set_string_field :
    (name s : Text) (fs : List StructField)
    → column_names (cached_fields (set_string_field name s fs)) ≡ column_names (cached_fields fs)
unfolding cached_fields set_string_field
names-set_string_field name s [] = refl
names-set_string_field name s (f ∷ fs) = elim (Bool-cases (text_eq f.field_name name)) [
  | inl e ↦ rw e (
      names-cons_cached (cached_field (set_text s f)) (set_text s f) (cached_fields fs)
      ∙ (ap (λ c. cons_names c (column_names (cached_fields fs))) (cached_field-set_text s f)
          ∙ sym (names-cons_cached (cached_field f) f (cached_fields fs))))
  | inr e ↦ rw e (
      names-cons_cached (cached_field f) f (cached_fields (set_string_field name s fs))
      ∙ (ap (cons_names (cached_field f)) (names-set_string_field name s fs)
          ∙ sym (names-cons_cached (cached_field f) f (cached_fields fs))))
]

set_text-text_kind :
    (s : Text) (f : StructField) → f.kind ≡ text_kind → set_text s f ≡ record f { value = text s }
set_text-text_kind s f k = ap (λ t. elim t [ text_kind ↦ record f { value = text s } | _ ↦ f ]) k

field_name-set_text : (s : Text) (f : StructField) → (set_text s f).field_name ≡ f.field_name
field_name-set_text s f =
    elim f.kind as (λ k. (set_text s (record f { kind = k })).field_name ≡ f.field_name) [
      | text_kind ↦ refl
      | _ ↦ refl
    ]

-- the text is set where it is found
pub HistoryAt-set :
    (c : CachedField) (hist s : Text) (fs : List StructField)
    → HistoryAt c hist fs
    → HistoryAt c s (set_string_field (codes "History") s fs)
unfolding set_string_field cached_field
HistoryAt-set c hist s _ (history_here f fs n k v e m) =
    rw n
      (rw (set_text-text_kind s f k) (history_here (record f { value = text s }) fs n k refl e m))
HistoryAt-set c hist s _ (history_later f fs n h) =
    rw n (history_later f _ n (HistoryAt-set c hist s fs h))

-- another field is set
HistoryAt-set_other :
    (c : CachedField) (hist name s : Text) (fs : List StructField)
    → text_eq (codes "History") name ≡ false
    → HistoryAt c hist fs
    → HistoryAt c hist (set_string_field name s fs)
unfolding set_string_field
HistoryAt-set_other c hist name s _ d (history_here f fs n k v e m) =
    let other : text_eq f.field_name name ≡ false =
      ap (λ t. text_eq t name) ((text_eq_iff f.field_name (codes "History")).0 n) ∙ d in
    rw other (history_here f _ n k v e (ap (member c.name) (names-set_string_field name s fs) ∙ m))
HistoryAt-set_other c hist name s _ d (history_later f fs n h) =
    elim (Bool-cases (text_eq f.field_name name)) [
      | inl e ↦ rw e (
          history_later (set_text s f) fs
            (ap (λ t. text_eq t (codes "History")) (field_name-set_text s f) ∙ n) h)
      | inr e ↦ rw e (history_later f _ n (HistoryAt-set_other c hist name s fs d h))
    ]

pub HistoryAt-actor :
    (c : CachedField) (hist name actor : Text) (fs : List StructField)
    → text_eq (codes "History") name ≡ false
    → HistoryAt c hist fs
    → HistoryAt c hist (set_actor_field name actor fs)
unfolding set_actor_field
HistoryAt-actor c hist name [] fs d h = h
HistoryAt-actor c hist name (a ∷ actor) fs d h = HistoryAt-set_other c hist name (a ∷ actor) fs d h

-- the column of the history, as the cached fields have it
IsLast-cons :
    (c : CachedField) (g : StructField) (d : Option CachedField) (f : StructField)
    (cs : List (CachedField × StructField))
    → IsLast c g cs
    → IsLast c g (cons_cached d f cs)
IsLast-cons c g none f cs l = l
IsLast-cons c g (some d) f cs l = last_later l

IsLast-HistoryAt :
    (c : CachedField) (hist : Text) (fs : List StructField)
    → HistoryAt c hist fs
    → (g : StructField) × (IsLast c g (cached_fields fs) × (g.value ≡ text hist))
unfolding cached_fields
IsLast-HistoryAt c hist _ (history_here f fs n k v e m) = (f, (rw e (last_here m), v))
IsLast-HistoryAt c hist _ (history_later f fs n h) =
    let (g, (l, v)) = IsLast-HistoryAt c hist fs h in
    (g, (IsLast-cons c g (cached_field f) f _ l, v))

pub put_columns-HistoryAt :
    (take : CachedField → Bool) (value_of : CachedField → Value → Value) (c : CachedField)
    (hist : Text) (fs : List StructField)
    → take c ≡ true
    → HistoryAt c hist fs
    → value_at c.name (put_columns take value_of (cached_fields fs) []) ≡ value_of c (text hist)
put_columns-HistoryAt take value_of c hist fs t h =
    let (g, (l, v)) = IsLast-HistoryAt c hist fs h in
    put_columns_at take value_of c g (cached_fields fs) [] t l ∙ ap (value_of c) v
