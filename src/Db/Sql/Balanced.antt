-- ===== src/Db/Sql/Balanced.antt =====
-- What a statement weighs. A weight counts some bytes, none of which stands in an identifier or in a
-- keyword; `k` of them stand in a placeholder. For k = 1 the placeholders themselves are counted, for
-- k = 0 the bytes that a statement must not hold.
use kiya.Base.{
  ℕ, String, ◌*◌, ◌≡◌, refl, Bool, true, false, ◌||◌, List, [], ◌∷◌, arith, length, All, ◌▷◌, ◌==◌,
  length-append, Bool-cases, inl, inr,
}
use kiya.Text.{Text, codes, all_in, count_in, is_digit, is_letter, is_space}
use kiya.Text.Laws.{count_in-append, count_in-eq-zero}
use kiya.Db.Builder.{Value, WhereClause, Junction, and, or}
use kiya.Db.Sql.{
  Output, write, push, junction_text, more_clauses, write_clauses, and_clauses, has_or, soft_wheres,
  build_wheres, nothing_written,
}

-- the bytes of identifiers, ORDER BY texts and keywords
unfoldable pub plain : ℕ → Bool
unfolding is_digit is_letter is_space
plain c =
    is_letter c
    || is_digit c
    || is_space c
    || c == b'_'
    || c == b'.'
    || c == b','
    || c == b'='
    || c == b'!'
    || c == b'<'
    || c == b'>'
    || c == b'('
    || c == b')'
    || c == b'*'

unfoldable pub is_plain : String → Bool
unfolding all_in codes plain
is_plain t = all_in plain (codes t)

pub record Weight : Type 0 where
  pub counted : ℕ → Bool
  pub unit : ℕ
  pub quiet : (c : ℕ) → plain c ≡ true → counted c ≡ false
  pub mark : count_in counted (b'?' ∷ []) ≡ unit

module _ (weight : Weight) where
  open weight use {counted as p, unit as k, quiet, mark}

  pub Fits : Output → Type 0
  Fits out = count_in p out.sql ≡ k * length out.args

  pub count-of_Fits : (out : Output) → Fits out → count_in p out.sql ≡ k * length out.args
  unfolding Fits
  count-of_Fits out h = h

  pub Fits-nothing_written : Fits nothing_written
  unfolding nothing_written Fits count_in
  Fits-nothing_written = omega arith

  pub count-plain : (s : Text) → all_in plain s ≡ true → count_in p s ≡ 0
  count-plain = count_in-eq-zero p plain quiet

  pub Fits-write : (s : Text) (out : Output) → count_in p s ≡ 0 → Fits out → Fits (write s out)
  unfolding write Fits
  Fits-write s out z h = omega (arith, count_in-append p out.sql s)

  pub Fits-push :
      (s : Text) (vs : List Value) (out : Output)
      → count_in p s ≡ k * length vs
      → Fits out
      → Fits (out ▷ write s ▷ push vs)
  unfolding write push Fits
  Fits-push s vs out z h = simp (count_in-append, length-append) (omega arith)

  -- the same with the arguments pushed first
  pub Fits-push-write :
      (vs : List Value) (s : Text) (out : Output)
      → count_in p s ≡ k * length vs
      → Fits out
      → Fits (out ▷ push vs ▷ write s)
  unfolding write push Fits
  Fits-push-write vs s out z h = simp (count_in-append, length-append) (omega arith)

  -- What a condition, a selected column or a placeholder adds to both sides.
  abbrev pub ClauseFits : WhereClause → Type 0
  ClauseFits w = count_in p w.expr ≡ k * length w.args

  pub Fits-literal :
      (t : String) (out : Output) → is_plain t ≡ true → Fits out → Fits (write (codes t) out)
  unfolding is_plain
  Fits-literal t out z h = Fits-write (codes t) out (count-plain (codes t) z) h

  count-junction : (j : Junction) → count_in p (junction_text j) ≡ 0
  unfolding junction_text is_plain
  count-junction and = count-plain (codes "AND") refl
  count-junction or = count-plain (codes "OR") refl

  Fits-more_clauses :
      (ws : List WhereClause) (out : Output)
      → All ClauseFits ws
      → Fits out
      → Fits (more_clauses ws out)
  unfolding more_clauses is_plain
  Fits-more_clauses [] out hs h = h
  Fits-more_clauses (w ∷ ws) out (hw, hs) h =
      Fits-more_clauses ws _ hs (search (Fits-literal, Fits-write, Fits-push, count-junction))

  pub Fits-write_clauses :
      (ws : List WhereClause) (out : Output)
      → All ClauseFits ws
      → Fits out
      → Fits (write_clauses ws out)
  unfolding write_clauses
  Fits-write_clauses [] out hs h = h
  Fits-write_clauses (w ∷ ws) out (hw, hs) h = Fits-more_clauses ws _ hs (search (Fits-push))

  Fits-and_clauses :
      (ws : List WhereClause) (out : Output)
      → All ClauseFits ws
      → Fits out
      → Fits (and_clauses ws out)
  unfolding and_clauses is_plain
  Fits-and_clauses [] out hs h = h
  Fits-and_clauses (w ∷ ws) out (hw, hs) h =
      Fits-and_clauses ws _ hs (search (Fits-literal, Fits-push))

  Fits-soft_wheres :
      (ws : List WhereClause) (out : Output)
      → All ClauseFits ws
      → Fits out
      → Fits (soft_wheres ws out)
  unfolding soft_wheres is_plain
  Fits-soft_wheres [] out hs h = h
  Fits-soft_wheres (w ∷ ws) out hs h = elim (Bool-cases (has_or (w ∷ ws))) [
    | inl e ↦ rw e (search (Fits-literal, Fits-write_clauses))
    | inr e ↦ rw e (search (Fits-and_clauses))
  ]

  pub Fits-build_wheres :
      (soft : Text) (ws : List WhereClause) (out : Output)
      → count_in p soft ≡ 0
      → All ClauseFits ws
      → Fits out
      → Fits (build_wheres soft ws out)
  unfolding build_wheres is_plain
  Fits-build_wheres [] [] out z hs h = h
  Fits-build_wheres [] (w ∷ ws) out z hs h = search (Fits-literal, Fits-write_clauses)
  Fits-build_wheres (c ∷ soft) ws out z hs h = search (Fits-literal, Fits-write, Fits-soft_wheres)
