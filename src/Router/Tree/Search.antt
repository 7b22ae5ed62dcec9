-- ===== src/Router/Tree/Search.antt =====
-- `search` of internal/router/tree.go against the relation `Matches`.
use kiya.Base.{
  ℕ, ◌≡◌, refl, Bool, true, false, List, [], ◌∷◌, ◌++◌, Option, none, some, append-nil, ◌⊎◌, inl,
  inr, Bool-cases, if◌then◌else◌,
}
use mathlib.Core.Path.{subst}
use kiya.Text.{Text, codes, join}
use kiya.Router.Tree.{
  Label, Param, Node, node, Nodes, nil, cons, label, Found, or_pop, captured, is_static_for,
  is_regex_for, is_param, is_wildcard, search_node, try_static, try_regex, try_param, try_wildcard,
}
use kiya.Router.Tree.Matching.{
  Among, first, later, Matches, at_end, by_static, by_regex, by_param, by_wildcard, IsTree, tree,
  AreTrees, trees, Decides, found, missed, Decides-map, Decides-or_next, Decides-or_pop, ViaStatic,
  ViaNamed, ViaWildcard, ViaStatic-cons, ViaNamed-cons,
}

static_step :
    (c : Node) (cs : Nodes) (seg : Text) (rest : List Text) (ps : List Param)
    → Decides (Matches c rest) ps (search_node c rest ps)
    → Decides (ViaStatic cs seg rest) ps (try_static cs seg rest ps)
    → Decides (ViaStatic (cons c cs) seg rest) ps (try_static (cons c cs) seg rest ps)
unfolding try_static
static_step c cs seg rest ps here next = elim (Bool-cases (is_static_for (label c) seg)) [
  | inl e ↦ rw e (
      Decides-or_next (try_static cs seg rest) (λ qs h m. (c, first, e, m))
        (λ qs h (d, a, t, m). (d, later a, t, m))
        (λ qs h v. elim (ViaStatic-cons c cs seg rest qs h v) [
          | inl (t, m) ↦ inl m
          | inr w ↦ inr w
        ])
        here next)
  | inr e ↦ rw e (
      Decides-map (λ qs h (d, a, t, m). (d, later a, t, m))
        (λ qs h v. elim (ViaStatic-cons c cs seg rest qs h v) [ inl (t, m) ↦ cc | inr w ↦ w ]) next)
]

-- one child of the loops that push a parameter
named_step :
    (test : Label → Bool) (c : Node) (cs : Nodes) (seg : Text) (rest : List Text) (ps : List Param)
    (loop : List Param → Found)
    → Decides
        (Matches c rest)
        (ps ++ captured (label c) seg ∷ [])
        (search_node c rest (ps ++ captured (label c) seg ∷ []))
    → Decides (ViaNamed test cs seg rest) ps (loop ps)
    → Decides (ViaNamed test (cons c cs) seg rest) ps (
        if test (label c)
        then or_pop (search_node c rest (ps ++ captured (label c) seg ∷ [])) loop
        else loop ps)
named_step test c cs seg rest ps loop here next = elim (Bool-cases (test (label c))) [
  | inl e ↦ rw e (
      Decides-or_pop ps (captured (label c) seg) loop (λ qs h m. (c, first, e, qs, refl, m))
        (λ qs h (d, a, t, qs', p, w). (d, later a, t, qs', p, w))
        (λ qs h v. elim (ViaNamed-cons test c cs seg rest qs h v) [
          | inl (t, w) ↦ inl w
          | inr w ↦ inr w
        ])
        here next)
  | inr e ↦ rw e (
      Decides-map (λ qs h (d, a, t, qs', p, w). (d, later a, t, qs', p, w))
        (λ qs h v. elim (ViaNamed-cons test c cs seg rest qs h v) [ inl (t, w) ↦ cc | inr w ↦ w ])
        next)
]

not-Among_nil : {c : Node} → ¬ Among c nil
not-Among_nil a = elim a [ ]

tail_trees : {c : Node} {cs : Nodes} → AreTrees (cons c cs) → AreTrees cs
tail_trees (trees t ts) = ts

-- the first wildcard child has a handler, and takes the segments that are left
handled_wildcard :
    (l : Label) (o : Option ℕ) (cs' cs : Nodes) (seg : Text) (rest : List Text) (ps : List Param)
    → AreTrees (cons (node l o cs') cs)
    → is_wildcard l ≡ true
    → Decides
        (ViaWildcard (cons (node l o cs') cs) seg rest)
        ps
        (o, ps ++ captured l (join (seg ∷ rest) (codes "/")) ∷ [])
handled_wildcard l none cs' cs seg rest ps (trees (tree ok ts') ts) e = absurd (ok.0 e refl)
handled_wildcard l (some h) cs' cs seg rest ps t e = found _ h (l, cs', first, e, refl)

skip_wildcard :
    (l : Label) (o : Option ℕ) (cs' cs : Nodes) (seg : Text) (rest : List Text) (qs : List Param)
    (h : ℕ)
    → is_wildcard l ≡ false
    → ViaWildcard (cons (node l o cs') cs) seg rest qs h
    → ViaWildcard cs seg rest qs h
skip_wildcard l o cs' cs seg rest qs h e (m, ms, first, t, p) = cc
skip_wildcard l o cs' cs seg rest qs h e (m, ms, later a, t, p) = (m, ms, a, t, p)

no_end : {l : Label} {cs : Nodes} {qs : List Param} {h : ℕ} → ¬ Matches (node l none cs) [] qs h
no_end m = elim m [ ]

wildcard-Decides :
    (cs : Nodes) (seg : Text) (rest : List Text) (ps : List Param)
    → AreTrees cs
    → Decides (ViaWildcard cs seg rest) ps (try_wildcard cs seg rest ps)
unfolding try_wildcard
wildcard-Decides nil seg rest ps t = missed (λ qs h (l, cs', a, t, p). not-Among_nil a)
wildcard-Decides (cons (node l o cs') cs) seg rest ps t = elim (Bool-cases (is_wildcard l)) [
  | inl e ↦ rw e (handled_wildcard l o cs' cs seg rest ps t e)
  | inr e ↦ rw e (
      Decides-map (λ qs h (m, ms, a, t, p). (m, ms, later a, t, p))
        (λ qs h v. skip_wildcard l o cs' cs seg rest qs h e v)
        (wildcard-Decides cs seg rest ps (tail_trees t)))
]

-- The four ways on from a node, in the order in which they are tried.
abbrev AfterRegex : Nodes → Text → List Text → List Param → ℕ → Type 0
AfterRegex cs seg rest qs h = ViaNamed is_param cs seg rest qs h ⊎ ViaWildcard cs seg rest qs h

abbrev AfterStatic : Nodes → Text → List Text → List Param → ℕ → Type 0
AfterStatic cs seg rest qs h =
    ViaNamed (λ l. is_regex_for l seg) cs seg rest qs h ⊎ AfterRegex cs seg rest qs h

step_cases :
    (l : Label) (o : Option ℕ) (cs : Nodes) (seg : Text) (rest : List Text) (qs : List Param)
    (h : ℕ)
    → Matches (node l o cs) (seg ∷ rest) qs h
    → ViaStatic cs seg rest qs h ⊎ AfterStatic cs seg rest qs h
step_cases l o cs seg rest qs h (by_static c a e m) = inl (c, a, e, m)
step_cases l o cs seg rest _ h (by_regex c a e m) = inr (inl (c, a, e, _, refl, m))
step_cases l o cs seg rest _ h (by_param c a e m) = inr (inr (inl (c, a, e, _, refl, m)))
step_cases l o cs seg rest _ h (by_wildcard a e) = inr (inr (inr (_, _, a, e, refl)))

from_static :
    (l : Label) (o : Option ℕ) (cs : Nodes) (seg : Text) (rest : List Text) (qs : List Param)
    (h : ℕ)
    → ViaStatic cs seg rest qs h
    → Matches (node l o cs) (seg ∷ rest) qs h
from_static l o cs seg rest qs h (c, a, e, m) = by_static c a e m

from_after :
    (l : Label) (o : Option ℕ) (cs : Nodes) (seg : Text) (rest : List Text) (qs : List Param)
    (h : ℕ)
    → AfterStatic cs seg rest qs h
    → Matches (node l o cs) (seg ∷ rest) qs h
from_after l o cs seg rest qs h (inl (c, a, e, qs', p, m)) = rw p (by_regex c a e m)
from_after l o cs seg rest qs h (inr (inl (c, a, e, qs', p, m))) = rw p (by_param c a e m)
from_after l o cs seg rest qs h (inr (inr (m, ms, a, e, p))) = rw p (by_wildcard a e)

mutual
  unfolding search_node try_static try_regex try_param

  pub search-Decides :
      (n : Node) (segs : List Text) (ps : List Param)
      → IsTree n
      → Decides (Matches n segs) ps (search_node n segs ps)
  search-Decides (node l (some h) cs) [] ps t =
      subst (λ qs. Decides (Matches (node l (some h) cs) []) ps (some h, qs)) (append-nil ps)
        (found [] h at_end)
  search-Decides (node l none cs) [] ps t = missed (λ qs h m. no_end m)
  search-Decides (node l o cs) (seg ∷ rest) ps (tree ok ts) =
      Decides-or_next {Q = AfterStatic cs seg rest} _ (from_static l o cs seg rest)
        (from_after l o cs seg rest) (step_cases l o cs seg rest) (static-Decides cs seg rest ps ts)
        (Decides-or_next {Q = AfterRegex cs seg rest} _ (λ qs h v. inl v) (λ qs h v. inr v)
          (λ qs h v. v) (regex-Decides cs seg rest ps ts)
          (Decides-or_next {Q = ViaWildcard cs seg rest} _ (λ qs h v. inl v) (λ qs h v. inr v)
            (λ qs h v. v) (param-Decides cs seg rest ps ts) (wildcard-Decides cs seg rest ps ts)))

  static-Decides :
      (cs : Nodes) (seg : Text) (rest : List Text) (ps : List Param)
      → AreTrees cs
      → Decides (ViaStatic cs seg rest) ps (try_static cs seg rest ps)
  static-Decides nil seg rest ps t = missed (λ qs h (c, a, e, w). not-Among_nil a)
  static-Decides (cons c cs) seg rest ps (trees t ts) =
      static_step c cs seg rest ps (search-Decides c rest ps t) (static-Decides cs seg rest ps ts)

  regex-Decides :
      (cs : Nodes) (seg : Text) (rest : List Text) (ps : List Param)
      → AreTrees cs
      → Decides (ViaNamed (λ l. is_regex_for l seg) cs seg rest) ps (try_regex cs seg rest ps)
  regex-Decides nil seg rest ps t = missed (λ qs h (c, a, e, qs', p, w). not-Among_nil a)
  regex-Decides (cons c cs) seg rest ps (trees t ts) =
      named_step (λ l. is_regex_for l seg) c cs seg rest ps (try_regex cs seg rest)
        (search-Decides c rest _ t) (regex-Decides cs seg rest ps ts)

  param-Decides :
      (cs : Nodes) (seg : Text) (rest : List Text) (ps : List Param)
      → AreTrees cs
      → Decides (ViaNamed is_param cs seg rest) ps (try_param cs seg rest ps)
  param-Decides nil seg rest ps t = missed (λ qs h (c, a, e, qs', p, w). not-Among_nil a)
  param-Decides (cons c cs) seg rest ps (trees t ts) =
      named_step is_param c cs seg rest ps (try_param cs seg rest) (search-Decides c rest _ t)
        (param-Decides cs seg rest ps ts)
