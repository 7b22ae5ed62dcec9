-- ===== src/Db/Sql/SoftDelete.antt =====
-- `buildWheres` of internal/db/builder_sql.go: the soft-delete condition and the conditions behind it.
use mathlib.Core.Bool.{and_assoc}
use kiya.Base.{
  ◌≡◌, ◌≢◌, refl, Bool, true, false, ◌&&◌, List, [], ◌∷◌, ◌++◌, arith, append_assoc, ap, ◌∙◌,
  Bool-cases, inl, inr, ◌▷◌,
}
use kiya.Text.{Text, codes}
use kiya.Db.Builder.{WhereClause, and}
use kiya.Db.Sql.{
  Output, write, push, junction_text, write_clauses, and_clauses, has_or, soft_wheres, build_wheres,
}
use kiya.Db.Sql.Meaning.{
  Condition, leaf, group, both, either, holds, print, IsReadable, chain_truth_from, chain_truth,
  truth_step, join_clause, chain_from, soft_condition, groups, print-join_clause,
  IsReadable-chain_from, sql-more_clauses, holds-chain_from,
}

no_or_head : (w : WhereClause) (ws : List WhereClause) → has_or (w ∷ ws) ≡ false → w.boolean ≡ and
unfolding has_or
no_or_head w ws h = ground arith

no_or_tail : (w : WhereClause) (ws : List WhereClause) → has_or (w ∷ ws) ≡ false → has_or ws ≡ false
unfolding has_or
no_or_tail w ws h = ground arith

sql-write_clauses :
    (start : Text) (w : WhereClause) (ws : List WhereClause) (out : Output)
    → out.sql ≡ start
    → (write_clauses (w ∷ ws) out).sql ≡ start ++ print (chain_from (leaf w.expr) ws)
unfolding write_clauses
sql-write_clauses start w ws out h =
    sql-more_clauses start (leaf w.expr) ws _ (unfold write push print in rw h)

sql-and_clauses :
    (start : Text) (c : Condition) (ws : List WhereClause) (out : Output)
    → has_or ws ≡ false
    → out.sql ≡ start ++ print c
    → (and_clauses ws out).sql ≡ start ++ print (chain_from c ws)
unfolding and_clauses chain_from
sql-and_clauses start c [] out n h = h
sql-and_clauses start c (w ∷ ws) out n h = rw (no_or_head w ws n) (
    sql-and_clauses start (join_clause and c w.expr) ws _ (no_or_tail w ws n) (
      unfold write push in
      rw (h, print-join_clause and c w.expr) (unfold codes junction_text in simp append_assoc)))

-- without an OR, a truth in front of the chain is a truth of the whole
chain_truth-and :
    (v : Text → Bool) (a b : Bool) (ws : List WhereClause)
    → has_or ws ≡ false
    → chain_truth_from v (false, a && b) ws ≡ (a && chain_truth_from v (false, b) ws)
unfolding chain_truth_from truth_step
chain_truth-and v a b [] n = ground arith
chain_truth-and v a b (w ∷ ws) n =
    rw (no_or_head w ws n, and_assoc a b (v w.expr))
      (chain_truth-and v a (b && v w.expr) ws (no_or_tail w ws n))

-- the same behind the soft-delete condition
holds-soft_chain :
    (v : Text → Bool) (soft : Text) (w : WhereClause) (ws : List WhereClause)
    → has_or (w ∷ ws) ≡ false
    → holds v (chain_from (leaf soft) (w ∷ ws)) ≡ (v soft && chain_truth v (w ∷ ws))
holds-soft_chain v soft w ws n = rw (holds-chain_from v (leaf soft) (w ∷ ws)) (
    unfold chain_truth_from groups holds chain_truth in
    rw (no_or_head w ws n)
      (unfold truth_step in chain_truth-and v (v soft) (v w.expr) ws (no_or_tail w ws n)))

holds-group_chain :
    (v : Text → Bool) (soft : Text) (w : WhereClause) (ws : List WhereClause)
    → holds v (both (leaf soft) (group (chain_from (leaf w.expr) ws)))
      ≡ (v soft && chain_truth v (w ∷ ws))
unfolding holds chain_truth
holds-group_chain v soft w ws =
    rw (holds-chain_from v (leaf w.expr) ws) (unfold groups holds in refl)

pub holds-soft_condition :
    (v : Text → Bool) (soft : Text) (ws : List WhereClause)
    → holds v (soft_condition soft ws) ≡ (v soft && chain_truth v ws)
unfolding soft_condition
holds-soft_condition v soft [] = unfold holds chain_truth in ground arith
holds-soft_condition v soft (w ∷ ws) = elim (Bool-cases (has_or (w ∷ ws))) [
  | inl e ↦ rw e (holds-group_chain v soft w ws)
  | inr e ↦ rw e (holds-soft_chain v soft w ws e)
]

IsReadable-soft_condition :
    (soft : Text) (ws : List WhereClause) → IsReadable (soft_condition soft ws)
unfolding soft_condition
IsReadable-soft_condition soft [] = tt
IsReadable-soft_condition soft (w ∷ ws) = elim (Bool-cases (has_or (w ∷ ws))) [
  | inl e ↦ rw e (tt, tt, IsReadable-chain_from (leaf w.expr) ws tt, tt)
  | inr e ↦ rw e (IsReadable-chain_from (leaf soft) (w ∷ ws) tt)
]

sql-brackets :
    (start soft : Text) (w : WhereClause) (ws : List WhereClause) (out : Output)
    → out.sql ≡ start ++ soft
    → (out ▷ write (codes " AND (") ▷ write_clauses (w ∷ ws) ▷ write (codes ")")).sql
      ≡ start ++ print (both (leaf soft) (group (chain_from (leaf w.expr) ws)))
unfolding print write
sql-brackets start soft w ws out h =
    let inner =
      sql-write_clauses (out.sql ++ codes " AND (") w ws (write (codes " AND (") out) refl in
    rw (inner, h) (unfold codes in simp append_assoc)

sql-soft_wheres :
    (start soft : Text) (ws : List WhereClause) (out : Output)
    → out.sql ≡ start ++ soft
    → (soft_wheres ws out).sql ≡ start ++ print (soft_condition soft ws)
unfolding soft_wheres soft_condition
sql-soft_wheres start soft [] out h = unfold print in h
sql-soft_wheres start soft (w ∷ ws) out h = elim (Bool-cases (has_or (w ∷ ws))) [
  | inl e ↦ rw e (sql-brackets start soft w ws out h)
  | inr e ↦ rw e (sql-and_clauses start (leaf soft) (w ∷ ws) out e (unfold print in h))
]

-- For every soft-delete condition and every conditions of the caller, what is written after WHERE
-- is a condition that reads back as itself, and that is true of a row exactly if the soft-delete
-- condition is true of it and the caller's chain of AND and OR is. (The text of each clause is taken
-- as one condition, which has no OR of its own outside of brackets.)
pub soft_delete_binds :
    (soft : Text) (ws : List WhereClause) (out : Output)
    → soft ≢ []
    → ((build_wheres soft ws out).sql
        ≡ out.sql ++ (codes " WHERE " ++ print (soft_condition soft ws)))
      × IsReadable (soft_condition soft ws)
      × ((v : Text → Bool) → holds v (soft_condition soft ws) ≡ (v soft && chain_truth v ws))
unfolding build_wheres write
soft_delete_binds [] ws out h = absurd (h refl)
soft_delete_binds (c ∷ soft) ws out h = (
  sql-soft_wheres (out.sql ++ codes " WHERE ") (c ∷ soft) ws _ refl
      ∙ append_assoc out.sql (codes " WHERE ") _,
  IsReadable-soft_condition (c ∷ soft) ws,
  λ v. holds-soft_condition v (c ∷ soft) ws,
)

print-escaped :
    (soft a b : Text) (w : WhereClause)
    → w.boolean ≡ and
    → w.expr ≡ a ++ (codes " OR " ++ b)
    → print (soft_condition soft (w ∷ [])) ≡ print (either (both (leaf soft) (leaf a)) (leaf b))
unfolding soft_condition has_or chain_from join_clause print
print-escaped soft a b w e t = rw (e, t) (simp append_assoc)

-- A clause whose own text is `a OR b` is not bracketed: what is written reads as
-- `(soft AND a) OR b`, which is true of a row that b selects and the soft-delete condition does not.
pub raw_or_escapes :
    (soft a b : Text) (w : WhereClause) (out : Output) (v : Text → Bool)
    → soft ≢ []
    → w.boolean ≡ and
    → w.expr ≡ a ++ (codes " OR " ++ b)
    → v soft ≡ false
    → v b ≡ true
    → let escaped = either (both (leaf soft) (leaf a)) (leaf b) in
      ((build_wheres soft (w ∷ []) out).sql ≡ out.sql ++ (codes " WHERE " ++ print escaped))
      × IsReadable escaped
      × (holds v escaped ≡ true)
raw_or_escapes soft a b w out v h e t vs vb = (
  (soft_delete_binds soft (w ∷ []) out h).0
      ∙ ap (λ c. out.sql ++ (codes " WHERE " ++ c)) (print-escaped soft a b w e t),
  ((tt, tt, tt, tt), tt, tt),
  unfold holds in rw (vs, vb) refl,
)
