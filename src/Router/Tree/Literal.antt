-- ===== src/Router/Tree/Literal.antt =====
-- A route without parameters in the tree of internal/router/tree.go.
use mathlib.Core.Option
use mathlib.Core.Path.{subst}
use kiya.Base.{
  ℕ, ◌≡◌, refl, ap, ◌∙◌, Bool, true, false, List, [], ◌∷◌, Option, none, some, inl, inr, Bool-cases,
  All, ◌==◌, ◌&&◌, ◌||◌,
}
use kiya.Text.{Text, text_eq}
use kiya.Text.Laws.{text_eq_iff}
use kiya.Router.Tree.{
  Kind, static, param, wildcard, regex, Label, Param, Node, node, Nodes, nil, cons, label,
  add_segments, parse_segment, same_label, same_kind, has_same, has_conflict, conflicting,
  update_same, add_last, place_child, enter_child, is_static_for, search_node, try_static, or_next,
  static_label, set_handler, with_children, is_wildcard,
}
use kiya.Router.Path.{segments}
use kiya.Router.Tree.{
  Roots, root_of, set_root, Route, register, add_route, find_route, find_in, find_in_root,
}
use kiya.Router.Tree.Routing.{root-IsTree, register-AreRoots, root_of-set_root}
use kiya.Router.Tree.Matching.{IsTree, tree, AreTrees, no_trees, trees}

-- A segment of a route that stands for itself.
abbrev pub IsLiteral : Text → Type 0
IsLiteral [] = Unit
IsLiteral (c ∷ s) = (c == b'{') ≡ false

parse-literal :
    (compile : Text → Option (Text → Bool)) (seg : Text)
    → IsLiteral seg
    → parse_segment compile seg ≡ some (static_label seg)
unfolding parse_segment
parse-literal compile [] e = refl
parse-literal compile (c ∷ s) e = rw e refl

-- An operation keeps the label of a node and makes the search for `segs` find `h`.
data Leads (l : Label) (segs : List Text) (h : ℕ) : Option Node → Type 0 where
  no_node : Leads l segs h none
  leads :
      {n : Node}
      → label n ≡ l
      → ((ps : List Param) → search_node n segs ps ≡ (some h, ps))
      → Leads l segs h (some n)

-- the same for the loop over the static children
data LoopLeads (seg : Text) (rest : List Text) (h : ℕ) : Option Nodes → Type 0 where
  no_loop : LoopLeads seg rest h none
  loop_leads :
      {cs : Nodes}
      → ((ps : List Param) → try_static cs seg rest ps ≡ (some h, ps))
      → LoopLeads seg rest h (some cs)

and_true : (b : Bool) → b ≡ (b && true)
and_true true = refl
and_true false = refl

or-false : (a b : Bool) → (a || b) ≡ false → (a ≡ false) × (b ≡ false)
or-false true b e = cc
or-false false b e = (refl, e)

or-true : (a b : Bool) → a ≡ false → (a || b) ≡ true → b ≡ true
or-true true b p e = cc
or-true false b p e = e

kind_same :
    (k : Kind) (a seg name : Text)
    → (k ≡ static → name ≡ [])
    → (elim k [ static ↦ text_eq a seg | _ ↦ false ])
      ≡ (same_kind k static && (text_eq a seg && text_eq name []))
unfolding same_kind
kind_same static a seg name ok = rw (ok refl, (text_eq_iff [] []).1 refl) (and_true _)
kind_same param a seg name ok = refl
kind_same wildcard a seg name ok = refl
kind_same (regex m) a seg name ok = refl

static_same :
    (l : Label) (seg : Text)
    → (l.kind ≡ static → l.param_name ≡ [])
    → is_static_for l seg ≡ same_label l (static_label seg)
unfolding is_static_for same_label same_kind
static_same l seg ok = kind_same l.kind l.part seg l.param_name ok

try_here :
    (d : Node) (cs : Nodes) (seg : Text) (rest : List Text) (h : ℕ)
    → is_static_for (label d) seg ≡ true
    → ((ps : List Param) → search_node d rest ps ≡ (some h, ps))
    → (ps : List Param) → try_static (cons d cs) seg rest ps ≡ (some h, ps)
unfolding try_static or_next
try_here d cs seg rest h e s ps = rw (e, s ps) refl

try_later :
    (c : Node) (cs : Nodes) (seg : Text) (rest : List Text) (h : ℕ)
    → is_static_for (label c) seg ≡ false
    → ((ps : List Param) → try_static cs seg rest ps ≡ (some h, ps))
    → (ps : List Param) → try_static (cons c cs) seg rest ps ≡ (some h, ps)
unfolding try_static
try_later c cs seg rest h e s ps = rw e (s ps)

static_label-found : (seg : Text) → is_static_for (static_label seg) seg ≡ true
unfolding is_static_for
static_label-found seg = (text_eq_iff seg seg).1 refl

named : {c : Node} → IsTree c → (label c).kind ≡ static → (label c).param_name ≡ []
unfolding label
named (tree ok ts) = ok.1

module _ (seg : Text) (rest : List Text) (h : ℕ) (enter : Node → Option Node)
    (enters : (c : Node) → IsTree c → Leads (label c) rest h (enter c)) where
  Leads-here :
      (cs : Nodes) (l : Label) {r : Option Node}
      → is_static_for l seg ≡ true
      → Leads l rest h r
      → LoopLeads seg rest h (Option.map (λ d. cons d cs) r)
  Leads-here cs l e no_node = no_loop
  Leads-here cs l e (leads {n} p s) =
      loop_leads (try_here n cs seg rest h (ap (λ k. is_static_for k seg) p ∙ e) s)

  Leads-later :
      (c : Node) {r : Option Nodes}
      → is_static_for (label c) seg ≡ false
      → LoopLeads seg rest h r
      → LoopLeads seg rest h (Option.map (cons c) r)
  Leads-later c e no_loop = no_loop
  Leads-later c e (loop_leads {cs} s) = loop_leads (try_later c cs seg rest h e s)

  update-Leads :
      (cs : Nodes)
      → AreTrees cs
      → has_same (static_label seg) cs ≡ true
      → LoopLeads seg rest h (update_same (static_label seg) enter cs)
  unfolding update_same has_same
  update-Leads nil t e = cc
  update-Leads (cons c cs) (trees t ts) e =
      elim (Bool-cases (same_label (label c) (static_label seg))) [
        | inl p ↦
            rw p (Leads-here cs (label c) (static_same (label c) seg (named t) ∙ p) (enters c t))
        | inr p ↦ rw p (
            Leads-later c (static_same (label c) seg (named t) ∙ p)
              (update-Leads cs ts (or-true (same_label (label c) (static_label seg)) _ p e)))
      ]

  skip_all :
      (cs : Nodes) (d : Node)
      → AreTrees cs
      → has_same (static_label seg) cs ≡ false
      → is_static_for (label d) seg ≡ true
      → ((ps : List Param) → search_node d rest ps ≡ (some h, ps))
      → (ps : List Param) → try_static (add_last d cs) seg rest ps ≡ (some h, ps)
  unfolding add_last has_same
  skip_all nil d t e p s = try_here d nil seg rest h p s
  skip_all (cons c cs) d (trees t ts) e p s =
      try_later c _ seg rest h (static_same (label c) seg (named t) ∙ (or-false _ _ e).0)
        (skip_all cs d ts (or-false (same_label (label c) (static_label seg)) _ e).1 p s)

  append-Leads :
      (cs : Nodes) {r : Option Node}
      → AreTrees cs
      → has_same (static_label seg) cs ≡ false
      → Leads (static_label seg) rest h r
      → LoopLeads seg rest h (Option.map (λ d. add_last d cs) r)
  append-Leads cs t e no_node = no_loop
  append-Leads cs t e (leads {n} p s) =
      loop_leads (skip_all cs n t e (ap (λ k. is_static_for k seg) p ∙ static_label-found seg) s)

no_conflict : (seg : Text) (cs : Nodes) → has_conflict (static_label seg) cs ≡ false
unfolding has_conflict conflicting
no_conflict seg nil = refl
no_conflict seg (cons c cs) = rw (no_conflict_with (label c).kind, no_conflict seg cs) refl
  where
    no_conflict_with : (k : Kind) → conflicting k static ≡ false
    no_conflict_with static = refl
    no_conflict_with param = refl
    no_conflict_with wildcard = refl
    no_conflict_with (regex m) = refl

Leads-below :
    (l : Label) (o : Option ℕ) (cs : Nodes) (seg : Text) (rest : List Text) (h : ℕ)
    {r : Option Nodes}
    → LoopLeads seg rest h r
    → Leads l (seg ∷ rest) h (Option.map (with_children (node l o cs)) r)
unfolding search_node or_next label
Leads-below l o cs seg rest h no_loop = no_node
Leads-below l o cs seg rest h (loop_leads s) = leads refl (λ ps. rw (s ps) refl)

appended_below :
    (l : Label) (o : Option ℕ) (cs : Nodes) (seg : Text) (rest : List Text) (h : ℕ)
    (r : Option Node)
    → LoopLeads seg rest h (Option.map (λ d. add_last d cs) r)
    → Leads l (seg ∷ rest) h (Option.map (λ d. with_children (node l o cs) (add_last d cs)) r)
unfolding search_node or_next label
appended_below l o cs seg rest h none s = no_node
appended_below l o cs seg rest h (some d) (loop_leads s) = leads refl (λ ps. rw (s ps) refl)

fresh : (seg : Text) → IsTree (node (static_label seg) none nil)
unfolding is_wildcard
fresh seg = tree ((λ e p. cc), λ e. refl) no_trees

place-Leads :
    (seg : Text) (rest : List Text) (h : ℕ) (enter : Node → Option Node) (n : Node)
    → ((c : Node) → IsTree c → Leads (label c) rest h (enter c))
    → IsTree n
    → Leads (label n) (seg ∷ rest) h (place_child (static_label seg) enter n)
unfolding place_child label
place-Leads seg rest h enter (node l o cs) enters (tree ok ts) =
    elim (Bool-cases (has_same (static_label seg) cs)) [
      | inl e ↦ rw e (Leads-below l o cs seg rest h (update-Leads seg rest h enter enters cs ts e))
      | inr e ↦
          rw (e, no_conflict seg cs)
            (appended_below l o cs seg rest h _ (
              append-Leads seg rest h enter enters cs ts e
                (enters (node (static_label seg) none nil) (fresh seg))))
    ]

set_handler-Leads : (h : ℕ) (n : Node) → Leads (label n) [] h (some (set_handler h n))
unfolding label search_node
set_handler-Leads h (node l o cs) = leads refl (λ ps. refl)

add_segments-Leads :
    (compile : Text → Option (Text → Bool)) (segs : List Text) (h : ℕ) (n : Node)
    → All IsLiteral segs
    → IsTree n
    → Leads (label n) segs h (add_segments compile segs h n)
unfolding add_segments enter_child
add_segments-Leads compile [] h n ls t = set_handler-Leads h n
add_segments-Leads compile (seg ∷ rest) h n (l, ls) t =
    rw (parse-literal compile seg l, add_segments)
      (place-Leads seg rest h (enter_child static h (add_segments compile rest h)) n
        (λ c u. add_segments-Leads compile rest h c ls u) t)

some-injective : {rs rs' : Roots} → some rs ≡ some rs' → rs ≡ rs'
some-injective e = cc

find_in_root-set :
    (method path : Text) (h : ℕ) (n : Node) (old rs : Roots)
    → ((ps : List Param) → search_node n (segments path) ps ≡ (some h, ps))
    → some (set_root method n old) ≡ some rs
    → find_route rs method path ≡ (some h, [])
unfolding find_route find_in find_in_root
find_in_root-set method path h n old rs s e =
    subst (λ k. find_in (root_of method k) path ≡ (some h, [])) (some-injective e)
      (rw (root_of-set_root method n old) (s []))

find_route-set :
    (method path : Text) (h : ℕ) (old rs : Roots) (l : Label) {r : Option Node}
    → Leads l (segments path) h r
    → Option.map (λ n. set_root method n old) r ≡ some rs
    → find_route rs method path ≡ (some h, [])
find_route-set method path h old rs l no_node e = cc
find_route-set method path h old rs l (leads {n} p s) e =
    find_in_root-set method path h n old rs s e

-- A route whose segments have no brace in front is found under its own path as soon as AddRoute has
-- returned, with its handler and no parameters, whatever was registered before it: no parameter,
-- expression or wildcard takes precedence, and no conflict refuses it.
pub add_route-literal :
    (compile : Text → Option (Text → Bool)) (routes : List Route) (old rs : Roots)
    (method path : Text) (h : ℕ)
    → All IsLiteral (segments path)
    → register compile [] routes ≡ some old
    → add_route compile method path h old ≡ some rs
    → find_route rs method path ≡ (some h, [])
unfolding add_route
add_route-literal compile routes old rs method path h ls r e =
    find_route-set method path h old rs _
      (add_segments-Leads compile (segments path) h _ ls
        (root-IsTree method old (register-AreRoots compile routes old r)))
      e
