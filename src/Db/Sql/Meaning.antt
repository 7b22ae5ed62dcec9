-- ===== src/Db/Sql/Meaning.antt =====
-- What the WHERE part of a statement says. A condition is a tree over the texts of its clauses, with
-- its truth under a valuation of these texts. AND binds tighter than OR: a printed tree is readable
-- where no OR stands under an AND without brackets.
use kiya.Base.{
  ◌≡◌, refl, Bool, true, false, ◌&&◌, ◌||◌, List, [], ◌∷◌, ◌++◌, append_assoc, if◌then◌else◌,
}
use kiya.Text.{Text, codes}
use kiya.Db.Builder.{WhereClause, Junction, and, or}
use kiya.Db.Sql.{Output, write, push, junction_text, more_clauses, has_or}

pub data Condition : Type 0 where
  leaf : Text → Condition
  group : Condition → Condition
  both either : Condition → Condition → Condition

unfoldable pub holds : (Text → Bool) → Condition → Bool
holds v (leaf e) = v e
holds v (group a) = holds v a
holds v (both a b) = holds v a && holds v b
holds v (either a b) = holds v a || holds v b

unfoldable pub print : Condition → Text
print (leaf e) = e
print (group a) = codes "(" ++ print a ++ codes ")"
print (both a b) = print a ++ (codes " AND " ++ print b)
print (either a b) = print a ++ (codes " OR " ++ print b)

abbrev pub IsTight : Condition → Type 0
IsTight (either a b) = ⊥
IsTight _ = Unit

abbrev pub IsReadable : Condition → Type 0
IsReadable (leaf e) = Unit
IsReadable (group a) = IsReadable a
IsReadable (both a b) = IsReadable a × IsTight a × IsReadable b × IsTight b
IsReadable (either a b) = IsReadable a × IsReadable b × IsTight b

-- The truth of a chain `w B w B w …`, read from the left: the truth of the groups before the last OR,
-- and that of the group after it.
unfoldable pub truth_step : (Text → Bool) → Junction → Text → Bool × Bool → Bool × Bool
truth_step v and e (found, last) = (found, last && v e)
truth_step v or e (found, last) = (found || last, v e)

unfoldable pub chain_truth_from : (Text → Bool) → Bool × Bool → List WhereClause → Bool
chain_truth_from v state [] = state.0 || state.1
chain_truth_from v state (w ∷ ws) = chain_truth_from v (truth_step v w.boolean w.expr state) ws

-- what the caller's conditions say; no condition is true
unfoldable pub chain_truth : (Text → Bool) → List WhereClause → Bool
chain_truth v [] = true
chain_truth v (w ∷ ws) = chain_truth_from v (false, v w.expr) ws

-- the tree of a chain
unfoldable pub join_clause : Junction → Condition → Text → Condition
join_clause or c e = either c (leaf e)
join_clause and (either a b) e = either a (both b (leaf e))
join_clause and c e = both c (leaf e)

unfoldable pub chain_from : Condition → List WhereClause → Condition
chain_from c [] = c
chain_from c (w ∷ ws) = chain_from (join_clause w.boolean c w.expr) ws

-- the condition that is written for a soft-delete condition and the caller's conditions
unfoldable pub soft_condition : Text → List WhereClause → Condition
soft_condition soft [] = leaf soft
soft_condition soft (w ∷ ws) =
    if has_or (w ∷ ws)
    then both (leaf soft) (group (chain_from (leaf w.expr) ws))
    else chain_from (leaf soft) (w ∷ ws)

pub print-join_clause :
    (j : Junction) (c : Condition) (e : Text)
    → print (join_clause j c e) ≡ print c ++ (codes " " ++ (junction_text j ++ (codes " " ++ e)))
unfolding print join_clause junction_text codes
print-join_clause or c e = refl
print-join_clause and (leaf s) e = refl
print-join_clause and (group a) e = refl
print-join_clause and (both a b) e = refl
print-join_clause and (either a b) e = simp append_assoc

IsReadable-join_clause :
    (j : Junction) (c : Condition) (e : Text) → IsReadable c → IsReadable (join_clause j c e)
unfolding join_clause
IsReadable-join_clause or c e h = (h, tt, tt)
IsReadable-join_clause and (leaf s) e h = (tt, tt, tt, tt)
IsReadable-join_clause and (group a) e h = (h, tt, tt, tt)
IsReadable-join_clause and (both a b) e h = (h, tt, tt, tt)
IsReadable-join_clause and (either a b) e (ha, hb, tb) = (ha, (hb, tb, tt, tt), tt)

pub IsReadable-chain_from :
    (c : Condition) (ws : List WhereClause) → IsReadable c → IsReadable (chain_from c ws)
unfolding chain_from
IsReadable-chain_from c [] h = h
IsReadable-chain_from c (w ∷ ws) h =
    IsReadable-chain_from (join_clause w.boolean c w.expr) ws
      (IsReadable-join_clause w.boolean c w.expr h)

-- the loop writes the chain behind what is already there
pub sql-more_clauses :
    (start : Text) (c : Condition) (ws : List WhereClause) (out : Output)
    → out.sql ≡ start ++ print c
    → (more_clauses ws out).sql ≡ start ++ print (chain_from c ws)
unfolding more_clauses chain_from
sql-more_clauses start c [] out h = h
sql-more_clauses start c (w ∷ ws) out h =
    sql-more_clauses start (join_clause w.boolean c w.expr) ws _
      (unfold write push in rw (h, print-join_clause w.boolean c w.expr) (simp append_assoc))

-- the truth of the groups before the last one of a condition, and of that one
unfoldable pub groups : (Text → Bool) → Condition → Bool × Bool
groups v (either a b) = (holds v a, holds v b)
groups v c = (false, holds v c)

groups-join_clause :
    (v : Text → Bool) (j : Junction) (c : Condition) (e : Text)
    → groups v (join_clause j c e) ≡ truth_step v j e (groups v c)
unfolding groups join_clause truth_step holds
groups-join_clause v or (either a b) e = refl
groups-join_clause v or _ e = refl
groups-join_clause v and (either a b) e = refl
groups-join_clause v and _ e = refl

pub holds-chain_from :
    (v : Text → Bool) (c : Condition) (ws : List WhereClause)
    → holds v (chain_from c ws) ≡ chain_truth_from v (groups v c) ws
unfolding chain_from chain_truth_from
holds-chain_from v (either a b) [] = unfold holds groups in refl
holds-chain_from v c [] = unfold holds groups in refl
holds-chain_from v c (w ∷ ws) =
    rw (← groups-join_clause v w.boolean c w.expr)
      (holds-chain_from v (join_clause w.boolean c w.expr) ws)
