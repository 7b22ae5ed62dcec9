-- ===== src/Router/Tree/Adding.antt =====
-- What the tree of internal/router/tree.go keeps while routes are added.
use mathlib.Core.Option
use mathlib.Core.Path.{subst}
use kiya.Base.{
  ℕ, ◌≡◌, ◌≢◌, refl, sym, ap, ◌∙◌, Bool, true, List, [], ◌∷◌, Option, none, some, arith, inl, inr,
  Bool-cases, Option-cases, if◌then◌else◌, length, ltb, ◌==◌,
}
use kiya.Text.{Text}
use kiya.Router.Tree.{
  Kind, static, param, wildcard, regex, Label, Node, node, Nodes, nil, cons, label, is_wildcard,
  parse_segment, brace_label, body_label, pattern_label, pattern_kind, cut_colon, same_label,
  has_same, has_conflict, update_same, add_last, place_child, enter_child, add_segments,
  static_label, set_handler, with_children,
}
use kiya.Router.Tree.Matching.{LabelOk, IsTree, tree, AreTrees, no_trees, trees}

-- A static label has no name.
abbrev IsNamedRight : Label → Type 0
IsNamedRight l = l.kind ≡ static → l.param_name ≡ []

pattern_kind-not-static :
    (compile : Text → Option (Text → Bool)) (s : Text) → pattern_kind compile s ≢ static
unfolding pattern_kind
pattern_kind-not-static compile s = λ e. ground arith

pattern_label-IsNamedRight :
    (compile : Text → Option (Text → Bool)) (cut : Text × Option Text)
    → IsNamedRight (pattern_label compile cut)
unfolding pattern_label
pattern_label-IsNamedRight compile (name, none) e = cc
pattern_label-IsNamedRight compile (name, some s) e = absurd (pattern_kind-not-static compile s e)

body_label-IsNamedRight :
    (compile : Text → Option (Text → Bool)) (body : Text) → IsNamedRight (body_label compile body)
unfolding body_label
body_label-IsNamedRight compile body = elim (Bool-cases (ltb 100 (length body))) [
  | inl e ↦ rw e (λ p. cc)
  | inr e ↦ rw e (pattern_label-IsNamedRight compile (cut_colon body))
]

or_label : Label → Option Label → Label
or_label l none = l
or_label l (some l') = l'

named_some : {a l : Label} → IsNamedRight a → some a ≡ some l → IsNamedRight l
unfolding or_label
named_some {a} r e = subst IsNamedRight (ap (or_label a) e) r

brace_label-IsNamedRight :
    (compile : Text → Option (Text → Bool)) (s : Text) (l : Label)
    → brace_label compile s ≡ some l
    → IsNamedRight l
unfolding brace_label
brace_label-IsNamedRight compile [] l e = cc
brace_label-IsNamedRight compile (c ∷ s) l e = named_some (body_label-IsNamedRight compile _) e

parse_segment-IsNamedRight :
    (compile : Text → Option (Text → Bool)) (s : Text) (l : Label)
    → parse_segment compile s ≡ some l
    → IsNamedRight l
unfolding parse_segment
parse_segment-IsNamedRight compile [] l e = named_some (λ p. refl) e
parse_segment-IsNamedRight compile (c ∷ s) l e = elim (Bool-cases (c == b'{')) [
  | inl t ↦
      brace_label-IsNamedRight compile s l (
        subst (λ b. (if b then brace_label compile s else some (static_label (c ∷ s))) ≡ some l) t
          e)
  | inr t ↦
      named_some {a = static_label (c ∷ s)} (λ p. refl)
        (subst (λ b. (if b then brace_label compile s else some (static_label (c ∷ s))) ≡ some l) t
          e)
]

-- An operation on a node gives a tree again, or panics.
pub data Kept : Option Node → Type 0 where
  panicked : Kept none
  kept : {n : Node} → IsTree n → Kept (some n)

data AllKept : Option Nodes → Type 0 where
  all_panicked : AllKept none
  all_kept : {cs : Nodes} → AreTrees cs → AllKept (some cs)

-- what the rest of the path is added to: a child that is there, or a new one of kind `k`
data Entered (k : Kind) : Node → Type 0 where
  old : {c : Node} → IsTree c → Entered k c
  new : {l : Label} → l.kind ≡ k → IsNamedRight l → Entered k (node l none nil)

set_handler-Kept : (k : Kind) (h : ℕ) (c : Node) → Entered k c → Kept (some (set_handler h c))
set_handler-Kept k h (node l o cs) (old (tree ok ts)) = kept (tree (λ w. λ p. cc, ok.1) ts)
set_handler-Kept k h (node l o cs) (new e r) = kept (tree (λ w. λ p. cc, r) no_trees)

kind_of_wildcard : (l : Label) → is_wildcard l ≡ true → l.kind ≡ wildcard
unfolding is_wildcard
kind_of_wildcard l e = ground arith

Entered-old : (k : Kind) (c : Node) → k ≢ wildcard → Entered k c → IsTree c
unfolding is_wildcard
Entered-old k c w (old t) = t
Entered-old k (node l none nil) w (new e r) =
    tree ((λ t p. w (sym e ∙ kind_of_wildcard l t)), r) no_trees

enter_child-Kept :
    (k : Kind) (h : ℕ) (add_rest : Node → Option Node) (c : Node)
    → ((d : Node) → IsTree d → Kept (add_rest d))
    → Entered k c
    → Kept (enter_child k h add_rest c)
unfolding enter_child
enter_child-Kept wildcard h add_rest c r t = set_handler-Kept wildcard h c t
enter_child-Kept static h add_rest c r t = r c (Entered-old _ c (λ e. cc) t)
enter_child-Kept param h add_rest c r t = r c (Entered-old _ c (λ e. cc) t)
enter_child-Kept (regex m) h add_rest c r t = r c (Entered-old _ c (λ e. cc) t)

consed_update :
    {cs : Nodes} {r : Option Node} → Kept r → AreTrees cs → AllKept (Option.map (λ d. cons d cs) r)
consed_update panicked ts = all_panicked
consed_update (kept t) ts = all_kept (trees t ts)

consed_rest : {c : Node} {r : Option Nodes} → IsTree c → AllKept r → AllKept (Option.map (cons c) r)
consed_rest t all_panicked = all_panicked
consed_rest t (all_kept ts) = all_kept (trees t ts)

update_same-Kept :
    (l : Label) (update : Node → Option Node) (cs : Nodes)
    → ((c : Node) → IsTree c → Kept (update c))
    → AreTrees cs
    → AllKept (update_same l update cs)
unfolding update_same
update_same-Kept l update nil u t = all_kept no_trees
update_same-Kept l update (cons c cs) u (trees t ts) = elim (Bool-cases (same_label (label c) l)) [
  | inl e ↦ rw e (consed_update (u c t) ts)
  | inr e ↦ rw e (consed_rest t (update_same-Kept l update cs u ts))
]

add_last-AreTrees : (d : Node) (cs : Nodes) → IsTree d → AreTrees cs → AreTrees (add_last d cs)
unfolding add_last
add_last-AreTrees d nil t ts = trees t no_trees
add_last-AreTrees d (cons c cs) t (trees u us) = trees u (add_last-AreTrees d cs t us)

replaced :
    (l : Label) (o : Option ℕ) (cs : Nodes) {r : Option Nodes}
    → LabelOk l o
    → AllKept r
    → Kept (Option.map (with_children (node l o cs)) r)
replaced l o cs ok all_panicked = panicked
replaced l o cs ok (all_kept ts) = kept (tree ok ts)

added :
    (l : Label) (o : Option ℕ) (cs : Nodes) {r : Option Node}
    → LabelOk l o
    → AreTrees cs
    → Kept r
    → Kept (Option.map (λ d. with_children (node l o cs) (add_last d cs)) r)
added l o cs ok ts panicked = panicked
added l o cs ok ts (kept t) = kept (tree ok (add_last-AreTrees _ cs t ts))

place_child-Kept :
    (l : Label) (enter : Node → Option Node) (n : Node)
    → ((c : Node) → Entered l.kind c → Kept (enter c))
    → IsNamedRight l
    → IsTree n
    → Kept (place_child l enter n)
unfolding place_child
place_child-Kept l enter (node l' o cs) u r (tree ok ts) = elim (Bool-cases (has_same l cs)) [
  | inl e ↦ rw e (replaced l' o cs ok (update_same-Kept l enter cs (λ c t. u c (old t)) ts))
  | inr e ↦ rw e (elim (Bool-cases (has_conflict l cs)) [
    | inl f ↦ rw f (kept (tree ok ts))
    | inr f ↦ rw f (added l' o cs ok ts (u _ (new refl r)))
  ])
]

set_end : (h : ℕ) (n : Node) → IsTree n → Kept (some (set_handler h n))
set_end h n t = set_handler-Kept static h n (old t)

-- Adding a route to a tree gives a tree again.
pub add_segments-Kept :
    (compile : Text → Option (Text → Bool)) (segs : List Text) (h : ℕ) (n : Node)
    → IsTree n
    → Kept (add_segments compile segs h n)
unfolding add_segments
add_segments-Kept compile [] h n t = set_end h n t
add_segments-Kept compile (seg ∷ rest) h n t = elim (Option-cases (parse_segment compile seg)) [
  | inl e ↦ rw (e, add_segments) panicked
  | inr (l, e) ↦
      rw (e, add_segments)
        (place_child-Kept l (enter_child l.kind h (add_segments compile rest h)) n
          (λ c u.
            enter_child-Kept l.kind h (add_segments compile rest h) c
              (add_segments-Kept compile rest h) u)
          (parse_segment-IsNamedRight compile seg l e) t)
]
