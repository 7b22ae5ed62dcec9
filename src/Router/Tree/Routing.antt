-- ===== src/Router/Tree/Routing.antt =====
-- `AddRoute` and `FindRoute` of internal/router/tree.go together.
use mathlib.Core.Option
use mathlib.Core.Path.{subst}
use kiya.Base.{
  ℕ, ◌≡◌, refl, sym, ap, ◌∙◌, Bool, List, [], ◌∷◌, Option, none, some, inl, inr, Bool-cases,
  Option-cases,
}
use kiya.Text.{Text, text_eq}
use kiya.Text.Laws.{text_eq_iff}
use kiya.Router.Path.{segments}
use kiya.Router.Tree.{
  Param, Node, Roots, empty_node, root_of, set_root, or_empty, add_route, find_in, find_in_root,
  find_route, Route, register, is_wildcard,
}
use kiya.Router.Tree.Matching.{Matches, IsTree, tree, no_trees, Decides, missed, Decides-map}
use kiya.Router.Tree.Adding.{Kept, panicked, kept, add_segments-Kept}
use kiya.Router.Tree.Search.{search-Decides}

-- every method's root is a tree
pub data AreRoots : Roots → Type 0 where
  no_roots : AreRoots []
  more_roots : {m : Text} {n : Node} {rs : Roots} → IsTree n → AreRoots rs → AreRoots ((m, n) ∷ rs)

data RootsKept : Option Roots → Type 0 where
  roots_panicked : RootsKept none
  roots_kept : {rs : Roots} → AreRoots rs → RootsKept (some rs)

empty-IsTree : IsTree empty_node
unfolding empty_node is_wildcard
empty-IsTree = tree ((λ e p. cc), λ e. refl) no_trees

pub root-IsTree : (method : Text) (rs : Roots) → AreRoots rs → IsTree (or_empty (root_of method rs))
unfolding or_empty root_of
root-IsTree method [] t = empty-IsTree
root-IsTree method ((m, n) ∷ rs) (more_roots t ts) = elim (Bool-cases (text_eq m method)) [
  | inl e ↦ rw e t
  | inr e ↦ rw e (root-IsTree method rs ts)
]

set_root-AreRoots :
    (method : Text) (n : Node) (rs : Roots)
    → IsTree n
    → AreRoots rs
    → AreRoots (set_root method n rs)
unfolding set_root
set_root-AreRoots method n [] t ts = more_roots t no_roots
set_root-AreRoots method n ((m, old) ∷ rs) t (more_roots u us) =
    elim (Bool-cases (text_eq m method)) [
      | inl e ↦ rw e (more_roots t us)
      | inr e ↦ rw e (more_roots u (set_root-AreRoots method n rs t us))
    ]

add_route-RootsKept :
    (compile : Text → Option (Text → Bool)) (method path : Text) (h : ℕ) (rs : Roots)
    → AreRoots rs
    → RootsKept (add_route compile method path h rs)
unfolding add_route
add_route-RootsKept compile method path h rs ts =
    mapped (add_segments-Kept compile (segments path) h _ (root-IsTree method rs ts))
  where
    mapped : {r : Option Node} → Kept r → RootsKept (Option.map (λ n. set_root method n rs) r)
    mapped panicked = roots_panicked
    mapped (kept t) = roots_kept (set_root-AreRoots method _ rs t ts)

or_roots : Roots → Option Roots → Roots
or_roots rs none = rs
or_roots rs (some rs') = rs'

AreRoots-kept : {o : Option Roots} {rs : Roots} → RootsKept o → o ≡ some rs → AreRoots rs
unfolding or_roots
AreRoots-kept roots_panicked e = cc
AreRoots-kept (roots_kept {rs = old} ts) e = subst AreRoots (ap (or_roots old) e) ts

register-RootsKept :
    (compile : Text → Option (Text → Bool)) (routes : List Route) (rs : Roots)
    → AreRoots rs
    → RootsKept (register compile rs routes)
unfolding register
register-RootsKept compile [] rs ts = roots_kept ts
register-RootsKept compile (r ∷ routes) rs ts =
    elim (Option-cases (add_route compile r.method r.path r.handler rs)) [
      | inl p ↦ rw (p, register) roots_panicked
      | inr (next, p) ↦
          rw (p, register)
            (register-RootsKept compile routes next
              (AreRoots-kept (add_route-RootsKept compile r.method r.path r.handler rs ts) p))
    ]

-- Some way of nodes in the tree of the method matches the segments of the path.
pub data Routed (rs : Roots) (method path : Text) (ps : List Param) (h : ℕ) : Type 0 where
  routed :
      (n : Node)
      → root_of method rs ≡ some n
      → Matches n (segments path) ps h
      → Routed rs method path ps h

find_in_root-Decides :
    (n : Node) (rs : Roots) (method path : Text)
    → IsTree n
    → root_of method rs ≡ some n
    → Decides (Routed rs method path) [] (find_in_root n path)
unfolding find_in_root or_empty
find_in_root-Decides n rs method path t e =
    Decides-map (λ ps h m. routed n e m) (λ ps h v. below v) (search-Decides n (segments path) [] t)
  where
    below : {ps : List Param} {h : ℕ} → Routed rs method path ps h → Matches n (segments path) ps h
    below {ps} {h} (routed n' e' m) =
        subst (λ k. Matches k (segments path) ps h) (ap or_empty (sym e' ∙ e)) m

-- In the tree of nodes that calls of AddRoute leave when none of them panics, FindRoute decides whether the path
-- matches: it returns a handler with parameters only if a way of nodes from the root of the method to a node with
-- that handler matches the segments with those parameters, and if it returns none there is no such way, and no
-- parameter is left.
pub find_route-Decides :
    (compile : Text → Option (Text → Bool)) (routes : List Route) (rs : Roots) (method path : Text)
    → register compile [] routes ≡ some rs
    → Decides (Routed rs method path) [] (find_route rs method path)
unfolding find_route find_in or_empty
find_route-Decides compile routes rs method path e = elim (Option-cases (root_of method rs)) [
  | inl p ↦ rw p (missed (λ ps h v. unrouted p v))
  | inr (n, p) ↦ rw p (find_in_root-Decides n rs method path (found_tree p) p)
]
  where
    unrouted : {ps : List Param} {h : ℕ} → root_of method rs ≡ none → ¬ Routed rs method path ps h
    unrouted p (routed n q m) = cc

    found_tree : {n : Node} → root_of method rs ≡ some n → IsTree n
    found_tree p =
        subst IsTree (ap or_empty p)
          (root-IsTree method rs (AreRoots-kept (register-RootsKept compile routes [] no_roots) e))

pub register-AreRoots :
    (compile : Text → Option (Text → Bool)) (routes : List Route) (rs : Roots)
    → register compile [] routes ≡ some rs
    → AreRoots rs
register-AreRoots compile routes rs e =
    AreRoots-kept (register-RootsKept compile routes [] no_roots) e

pub root_of-set_root :
    (method : Text) (n : Node) (rs : Roots) → root_of method (set_root method n rs) ≡ some n
unfolding root_of set_root
root_of-set_root method n [] = rw ((text_eq_iff method method).1 refl) refl
root_of-set_root method n ((m, old) ∷ rs) = elim (Bool-cases (text_eq m method)) [
  | inl e ↦ rw (e, (text_eq_iff method method).1 refl) refl
  | inr e ↦ rw e (rw e (root_of-set_root method n rs))
]
