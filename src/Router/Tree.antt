-- ===== src/Router/Tree.antt =====
-- internal/router/tree.go: routes as a tree of segments. Handlers are named by numbers. The compiler of
-- regular expressions is a parameter; locks and the log are not modelled.
pub mod Matching
pub mod Search
pub mod Adding
pub mod Routing
pub mod Literal
pub mod Tests
use mathlib.Core.Option
use mathlib.Core.List.{reverse}
use kiya.Base.{
  ℕ, Bool, true, false, ◌&&◌, ◌||◌, List, [], ◌∷◌, ◌++◌, Option, none, some, length, ltb, ◌==◌,
  if◌then◌else◌,
}
use kiya.Text.{Text, codes, text_eq, join}
use kiya.Router.Path.{segments}

-- `nodeType`; a node for a regular expression holds its matcher
pub data Kind : Type 0 where
  static param wildcard : Kind
  regex : (Text → Bool) → Kind

-- `part`, `nType` with `regex`, and `paramName` of a node
pub record Label : Type 0 where
  pub part : Text
  pub kind : Kind
  pub param_name : Text

-- `Param`
pub record Param : Type 0 where
  pub key : Text
  pub value : Text

mutual
  pub data Node : Type 0 where
    node : Label → Option ℕ → Nodes → Node

  pub data Nodes : Type 0 where
    nil : Nodes
    cons : Node → Nodes → Nodes

pub label : Node → Label
label (node l h cs) = l

-- `strings.SplitN(body, ":", 2)`: what stands before the first colon, and behind it if there is one
pub cut_colon : Text → Text × Option Text
cut_colon [] = ([], none)
cut_colon (c ∷ s) =
    let (name, pattern_text) = cut_colon s in
    if c == b':' then ([], some s) else (c ∷ name, pattern_text)

-- `s[:len(s)-1]`
pub drop_last : Text → Text
drop_last [] = []
drop_last (c ∷ []) = []
drop_last (c ∷ d ∷ s) = c ∷ drop_last (d ∷ s)

abbrev pub static_label : Text → Label
static_label seg = record { part = seg; kind = static; param_name = [] }

abbrev pub param_label : Text → Label
param_label name = record { part = []; kind = param; param_name = name }

module _ (compile : Text → Option (Text → Bool)) where
  pub pattern_kind : Text → Kind
  pattern_kind pattern_text =
      if text_eq pattern_text (codes "*")
      then wildcard
      else elim (compile (codes "^" ++ pattern_text ++ codes "$")) [
        | none ↦ param
        | some accepts ↦ regex accepts
      ]

  pub pattern_label : Text × Option Text → Label
  pattern_label (name, none) = param_label name
  pattern_label (name, some pattern_text) = record {
    part = [];
    kind = pattern_kind pattern_text;
    param_name = name;
  }

  pub body_label : Text → Label
  body_label body =
      if ltb 100 (length body) then param_label body else pattern_label (cut_colon body)

  -- `seg[1 : len(seg)-1]` panics on "{" alone; the last byte is dropped whatever it is.
  pub brace_label : Text → Option Label
  brace_label [] = none
  brace_label (c ∷ s) = some (body_label (drop_last (c ∷ s)))

  -- `none` is a panic
  pub parse_segment : Text → Option Label
  parse_segment [] = some (static_label [])
  parse_segment (c ∷ s) = if c == b'{' then brace_label s else some (static_label (c ∷ s))

pub same_kind : Kind → Kind → Bool
same_kind static static = true
same_kind param param = true
same_kind wildcard wildcard = true
same_kind (regex _) (regex _) = true
same_kind _ _ = false

-- `sameNode`: the matchers are not compared
pub same_label : Label → Label → Bool
same_label a b =
    same_kind a.kind b.kind && (text_eq a.part b.part && text_eq a.param_name b.param_name)

-- the three tests for a conflict of the existing kind with the new one
pub conflicting : Kind → Kind → Bool
conflicting param param = true
conflicting param (regex _) = true
conflicting (regex _) param = true
conflicting (regex _) (regex _) = true
conflicting wildcard param = true
conflicting wildcard (regex _) = true
conflicting wildcard wildcard = true
conflicting _ _ = false

pub has_same : Label → Nodes → Bool
has_same l nil = false
has_same l (cons c cs) = same_label (label c) l || has_same l cs

pub has_conflict : Label → Nodes → Bool
has_conflict l nil = false
has_conflict l (cons c cs) = conflicting (label c).kind l.kind || has_conflict l cs

-- the first child with the same label is replaced by its update
pub update_same : Label → (Node → Option Node) → Nodes → Option Nodes
update_same l update nil = some nil
update_same l update (cons c cs) =
    let rest = update_same l update cs in
    if same_label (label c) l
    then Option.map (λ d. cons d cs) (update c)
    else Option.map (cons c) rest

pub add_last : Node → Nodes → Nodes
add_last d nil = cons d nil
add_last d (cons c cs) = cons c (add_last d cs)

abbrev pub set_handler : ℕ → Node → Node
set_handler h (node l _ cs) = node l (some h) cs

abbrev pub with_children : Node → Nodes → Node
with_children (node l h _) cs = node l h cs

abbrev pub children : Node → Nodes
children (node l h cs) = cs

-- the choice between the child that is there, a conflict (nothing more is changed) and a new child
pub place_child : Label → (Node → Option Node) → Node → Option Node
place_child l enter n =
    if has_same l (children n)
    then Option.map (with_children n) (update_same l enter (children n))
    else if has_conflict l (children n)
    then some n
    else Option.map (λ d. with_children n (add_last d (children n))) (enter (node l none nil))

-- what follows at the child: a wildcard takes the handler, and the rest of the path is not read
pub enter_child : Kind → ℕ → (Node → Option Node) → Node → Option Node
enter_child wildcard h add_rest d = some (set_handler h d)
enter_child _ h add_rest d = add_rest d

-- the loop of `AddRoute` over the segments; what a conflict leaves behind stays in the tree
pub add_segments : (Text → Option (Text → Bool)) → List Text → ℕ → Node → Option Node
add_segments compile [] h n = some (set_handler h n)
add_segments compile (seg ∷ rest) h n = elim (parse_segment compile seg) [
  | none ↦ none
  | some l ↦ place_child l (enter_child l.kind h (add_segments compile rest h)) n
]

-- the tree of a method, or `&node{}`
abbrev pub Roots : Type 0
Roots = List (Text × Node)

pub empty_node : Node
empty_node = node (static_label []) none nil

-- a search returns the handler, if there is one, and the parameters as they are left
abbrev pub Found : Type 0
Found = Option ℕ × List Param

-- goes on where no handler is found
pub or_next : Found → (List Param → Found) → Found
or_next (some h, ps) next = (some h, ps)
or_next (none, ps) next = next ps

-- `*params = (*params)[:len(*params)-1]`
pub pop : List Param → List Param
pop [] = []
pop (p ∷ []) = []
pop (p ∷ q ∷ ps) = p ∷ pop (q ∷ ps)

-- the parameter is taken off again where no handler is found
pub or_pop : Found → (List Param → Found) → Found
or_pop r next = or_next r (λ ps. next (pop ps))

abbrev pub captured : Label → Text → Param
captured l value = record { key = l.param_name; value = value }

pub is_static_for : Label → Text → Bool
is_static_for l seg = elim l.kind [ static ↦ text_eq l.part seg | _ ↦ false ]

pub is_regex_for : Label → Text → Bool
is_regex_for l seg = elim l.kind [ regex accepts ↦ accepts seg | _ ↦ false ]

pub is_param : Label → Bool
is_param l = elim l.kind [ param ↦ true | _ ↦ false ]

pub is_wildcard : Label → Bool
is_wildcard l = elim l.kind [ wildcard ↦ true | _ ↦ false ]

-- `search`, with one function for each of its four loops over the children
mutual
  pub search_node : Node → List Text → List Param → Found
  search_node (node l h cs) [] ps = (h, ps)
  search_node (node l h cs) (seg ∷ rest) ps = or_next (try_static cs seg rest ps) (λ ps.
      or_next (try_regex cs seg rest ps)
        (λ ps. or_next (try_param cs seg rest ps) (λ ps. try_wildcard cs seg rest ps)))

  pub try_static : Nodes → Text → List Text → List Param → Found
  try_static nil seg rest ps = (none, ps)
  try_static (cons c cs) seg rest ps =
      let here = or_next (search_node c rest ps) (try_static cs seg rest) in
      let next = try_static cs seg rest ps in if is_static_for (label c) seg then here else next

  pub try_regex : Nodes → Text → List Text → List Param → Found
  try_regex nil seg rest ps = (none, ps)
  try_regex (cons c cs) seg rest ps =
      let here =
        or_pop (search_node c rest (ps ++ captured (label c) seg ∷ [])) (try_regex cs seg rest) in
      let next = try_regex cs seg rest ps in if is_regex_for (label c) seg then here else next

  pub try_param : Nodes → Text → List Text → List Param → Found
  try_param nil seg rest ps = (none, ps)
  try_param (cons c cs) seg rest ps =
      let here =
        or_pop (search_node c rest (ps ++ captured (label c) seg ∷ [])) (try_param cs seg rest) in
      let next = try_param cs seg rest ps in if is_param (label c) then here else next

  pub try_wildcard : Nodes → Text → List Text → List Param → Found
  try_wildcard nil seg rest ps = (none, ps)
  try_wildcard (cons (node l h cs') cs) seg rest ps =
      let next = try_wildcard cs seg rest ps in
      if is_wildcard l then (h, ps ++ captured l (join (seg ∷ rest) (codes "/")) ∷ []) else next

-- `t.roots[method]`
pub root_of : Text → Roots → Option Node
root_of method [] = none
root_of method ((m, n) ∷ roots) =
    let rest = root_of method roots in if text_eq m method then some n else rest

-- `t.roots[method] = n`
pub set_root : Text → Node → Roots → Roots
set_root method n [] = (method, n) ∷ []
set_root method n ((m, old) ∷ roots) =
    let rest = set_root method n roots in
    if text_eq m method then (method, n) ∷ roots else (m, old) ∷ rest

pub or_empty : Option Node → Node
or_empty none = empty_node
or_empty (some n) = n

-- `AddRoute`; `none` is a panic
pub add_route : (Text → Option (Text → Bool)) → Text → Text → ℕ → Roots → Option Roots
add_route compile method path h roots =
    Option.map (λ n. set_root method n roots)
      (add_segments compile (segments path) h (or_empty (root_of method roots)))

-- `findRouteInRoot`
pub find_in_root : Node → Text → Found
find_in_root n path = search_node n (segments path) []

pub find_in : Option Node → Text → Found
find_in none path = (none, [])
find_in (some n) path = find_in_root n path

-- `FindRoute`
pub find_route : Roots → Text → Text → Found
find_route roots method path = find_in (root_of method roots) path

pub is_found : Found → Bool
is_found (some h, ps) = true
is_found (none, ps) = false

-- `AnyMethodExists`; the order of the map does not show in the answer
pub any_method_exists : Roots → Text → Bool
any_method_exists [] path = false
any_method_exists ((m, n) ∷ roots) path =
    is_found (find_in_root n path) || any_method_exists roots path

-- a tree from the calls of `AddRoute` in order
pub record Route : Type 0 where
  pub method : Text
  pub path : Text
  pub handler : ℕ

pub register : (Text → Option (Text → Bool)) → Roots → List Route → Option Roots
register compile roots [] = some roots
register compile roots (r ∷ rs) = elim (add_route compile r.method r.path r.handler roots) [
  | none ↦ none
  | some next ↦ register compile next rs
]
