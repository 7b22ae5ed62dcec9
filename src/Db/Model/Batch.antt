-- ===== src/Db/Model/Batch.antt =====
-- The rows of `InsertBatch` (internal/db/builder_write.go): their placeholders and arguments.
use kiya.Base.{
  ◌*◌, ◌≡◌, refl, sym, ap, ◌∙◌, List, [], ◌∷◌, ◌++◌, map, arith, length, length-append, length-map,
  All, Bool-cases, inl, inr,
}
use native.Mathlib.Nat.{mul_assoc, mul-zero, mul-suc}
use kiya.Text.{Text, codes, join, count_in, all_in, text_lt, insert_text, sort_texts}
use kiya.Text.Laws.{count_in-append, count_in-join}
use kiya.Db.Sanitize.{ident_byte, sanitize_identifier}
use kiya.Db.Builder.{Columns}
use kiya.Db.Sql.{keep_key, valid_keys, sorted_keys, value_at}
use kiya.Db.Sql.Balanced.{Weight, is_plain}
use kiya.Db.Sql.Statement.{Silent, Silent-literal}
use kiya.Db.Sql.Writing.{Silent-sanitize_identifier, count-join-map, count-mark, All-map_const}
use kiya.Db.Model.Writing.{batch_args, row_placeholder}

module _ (weight : Weight) where
  open weight use {counted as p, unit as k}

  Silent-insert_text :
      (s : Text) (ts : List Text)
      → Silent weight s
      → All (Silent weight) ts
      → All (Silent weight) (insert_text s ts)
  unfolding insert_text
  Silent-insert_text s [] h hs = (h, tt)
  Silent-insert_text s (t ∷ ts) h (ht, hs) = elim (Bool-cases (text_lt t s)) [
    | inl e ↦ rw e (ht, Silent-insert_text s ts h hs)
    | inr e ↦ rw e (h, (ht, hs))
  ]

  Silent-sort_texts :
      (ts : List Text) → All (Silent weight) ts → All (Silent weight) (sort_texts ts)
  unfolding sort_texts
  Silent-sort_texts [] h = tt
  Silent-sort_texts (t ∷ ts) (h, hs) =
      Silent-insert_text t (sort_texts ts) h (Silent-sort_texts ts hs)

  -- a key is kept where it is an identifier
  Silent-keep_key :
      (k : Text) (ks : List Text)
      → All (Silent weight) ks
      → (safe : Text) → safe ≡ sanitize_identifier k
      → All (Silent weight) (keep_key safe k ks)
  unfolding sanitize_identifier
  Silent-keep_key k ks h [] e = h
  Silent-keep_key [] ks h (c ∷ s) e = absurd cc
  Silent-keep_key (a ∷ k) ks h (c ∷ s) e =
      let safe = Silent-sanitize_identifier weight (a ∷ k) in
      elim (Bool-cases (all_in ident_byte (a ∷ k))) [
        | inl t ↦ (rw t at safe, h)
        | inr t ↦ absurd (ground arith)
      ]

  Silent-valid_keys : (m : Columns) → All (Silent weight) (valid_keys m)
  unfolding valid_keys
  Silent-valid_keys [] = tt
  Silent-valid_keys ((k, v) ∷ m) =
      Silent-keep_key k (valid_keys m) (Silent-valid_keys m) (sanitize_identifier k) refl

  pub Silent-sorted_keys : (m : Columns) → All (Silent weight) (sorted_keys m)
  unfolding sorted_keys
  Silent-sorted_keys m = Silent-sort_texts (valid_keys m) (Silent-valid_keys m)

  row_placeholder-count : (cols : List Text) → count_in p (row_placeholder cols) ≡ k * length cols
  unfolding is_plain
  row_placeholder-count cols = omega (
    arith,
    count_in-append p (codes "(") (join (map (λ _. codes "?") cols) (codes ", ") ++ codes ")"),
    count_in-append p (join (map (λ _. codes "?") cols) (codes ", ")) (codes ")"),
    Silent-literal weight "(" refl,
    Silent-literal weight ")" refl,
    count-join-map weight (λ (_ : Text). codes "?") (λ _. count-mark weight) cols,
  )

  length-batch_args :
      (cols : List Text) (ms : List Columns) → length (batch_args cols ms) ≡ length cols * length ms
  unfolding batch_args
  length-batch_args cols [] = sym (mul-zero (length cols))
  length-batch_args cols (m ∷ ms) =
      length-append (map (λ c. value_at c m) cols) (batch_args cols ms)
      ∙ omega (
        arith,
        length-map (λ c. value_at c m) cols,
        length-batch_args cols ms,
        mul-suc (length cols) (length ms),
      )

  pub batch_rows-count :
      (cols : List Text) (ms : List Columns)
      → count_in p (join (map (λ _. row_placeholder cols) ms) (codes ", "))
        ≡ k * length (batch_args cols ms)
  unfolding is_plain
  batch_rows-count cols ms =
      let row =
        All-map_const weight (λ (_ : Columns). row_placeholder cols) (k * length cols)
          (λ _. row_placeholder-count cols) ms in
      count_in-join p (codes ", ") (Silent-literal weight ", " refl) (k * length cols) _ row
      ∙ ap (λ n. k * length cols * n) (length-map (λ (_ : Columns). row_placeholder cols) ms)
      ∙ mul_assoc k (length cols) (length ms)
      ∙ ap (λ n. k * n) (sym (length-batch_args cols ms))
