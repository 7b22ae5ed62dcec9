-- ===== src/Router/Tree/Matching.antt =====
-- When a path matches a route of the tree (internal/router/tree.go), as a relation, and what it is for
-- a search to decide it.
use kiya.Base.{
  ℕ, ◌≡◌, ◌≢◌, refl, ap, Bool, true, List, [], ◌∷◌, ◌++◌, Option, none, some, append_assoc, ◌⊎◌,
  inl, inr,
}
use kiya.Text.{Text, codes, join}
use kiya.Router.Tree.{
  static, Label, Param, Node, node, Nodes, nil, cons, label, Found, or_next, or_pop, pop, captured,
  is_static_for, is_regex_for, is_param, is_wildcard,
}

-- `c` is one of the children
pub data Among (c : Node) : Nodes → Type 0 where
  first : {cs : Nodes} → Among c (cons c cs)
  later : {d : Node} {cs : Nodes} → Among c cs → Among c (cons d cs)

-- Some route below a node has the handler `h` and matches the segments, with these parameters.
pub data Matches : Node → List Text → List Param → ℕ → Type 0 where
  at_end : {l : Label} {h : ℕ} {cs : Nodes} → Matches (node l (some h) cs) [] [] h
  by_static :
      {l : Label} {o : Option ℕ} {cs : Nodes} {seg : Text} {rest : List Text} {qs : List Param}
      {h : ℕ} (c : Node)
      → Among c cs
      → is_static_for (label c) seg ≡ true
      → Matches c rest qs h
      → Matches (node l o cs) (seg ∷ rest) qs h
  by_regex :
      {l : Label} {o : Option ℕ} {cs : Nodes} {seg : Text} {rest : List Text} {qs : List Param}
      {h : ℕ} (c : Node)
      → Among c cs
      → is_regex_for (label c) seg ≡ true
      → Matches c rest qs h
      → Matches (node l o cs) (seg ∷ rest) (captured (label c) seg ∷ qs) h
  by_param :
      {l : Label} {o : Option ℕ} {cs : Nodes} {seg : Text} {rest : List Text} {qs : List Param}
      {h : ℕ} (c : Node)
      → Among c cs
      → is_param (label c) ≡ true
      → Matches c rest qs h
      → Matches (node l o cs) (seg ∷ rest) (captured (label c) seg ∷ qs) h
  by_wildcard :
      {l l' : Label} {o : Option ℕ} {cs cs' : Nodes} {seg : Text} {rest : List Text} {h : ℕ}
      → Among (node l' (some h) cs') cs
      → is_wildcard l' ≡ true
      → Matches (node l o cs) (seg ∷ rest) (captured l' (join (seg ∷ rest) (codes "/")) ∷ []) h

-- What a node of a tree keeps: a wildcard has a handler, and a static segment has no name.
abbrev pub LabelOk : Label → Option ℕ → Type 0
LabelOk l h = (is_wildcard l ≡ true → h ≢ none) × (l.kind ≡ static → l.param_name ≡ [])

mutual
  pub data IsTree : Node → Type 0 where
    tree :
        {l : Label} {h : Option ℕ} {cs : Nodes} → LabelOk l h → AreTrees cs → IsTree (node l h cs)

  pub data AreTrees : Nodes → Type 0 where
    no_trees : AreTrees nil
    trees : {c : Node} {cs : Nodes} → IsTree c → AreTrees cs → AreTrees (cons c cs)

-- A search from the parameters `ps` decides P: it finds a handler and adds its parameters, or there is
-- none and the parameters are as they were.
pub data Decides (P : List Param → ℕ → Type 0) (ps : List Param) : Found → Type 0 where
  found : (qs : List Param) (h : ℕ) → P qs h → Decides P ps (some h, ps ++ qs)
  missed : ((qs : List Param) (h : ℕ) → ¬ P qs h) → Decides P ps (none, ps)

pub Decides-map :
    {P Q : List Param → ℕ → Type 0} {ps : List Param} {r : Found}
    → ((qs : List Param) (h : ℕ) → P qs h → Q qs h)
    → ((qs : List Param) (h : ℕ) → Q qs h → P qs h)
    → Decides P ps r
    → Decides Q ps r
Decides-map f g (found qs h p) = found qs h (f qs h p)
Decides-map f g (missed np) = missed (λ qs h q. np qs h (g qs h q))

-- two searches in turn decide a union
pub Decides-or_next :
    {P Q R : List Param → ℕ → Type 0} {ps : List Param} {r : Found} (next : List Param → Found)
    → ((qs : List Param) (h : ℕ) → P qs h → R qs h)
    → ((qs : List Param) (h : ℕ) → Q qs h → R qs h)
    → ((qs : List Param) (h : ℕ) → R qs h → P qs h ⊎ Q qs h)
    → Decides P ps r
    → Decides Q ps (next ps)
    → Decides R ps (or_next r next)
unfolding or_next
Decides-or_next next f g back (found qs h p) d = found qs h (f qs h p)
Decides-or_next next f g back (missed np) d =
    Decides-map g (λ qs h r. elim (back qs h r) [ inl p ↦ absurd (np qs h p) | inr q ↦ q ]) d

pop-snoc : (ps : List Param) (p : Param) → pop (ps ++ p ∷ []) ≡ ps
unfolding pop
pop-snoc [] p = refl
pop-snoc (q ∷ []) p = refl
pop-snoc (q ∷ r ∷ ps) p = ap (◌∷◌ q) (pop-snoc (r ∷ ps) p)

-- the same behind a parameter that is pushed and popped
pub Decides-or_pop :
    {P Q R : List Param → ℕ → Type 0} (ps : List Param) (p : Param) {r : Found}
    (next : List Param → Found)
    → ((qs : List Param) (h : ℕ) → P qs h → R (p ∷ qs) h)
    → ((qs : List Param) (h : ℕ) → Q qs h → R qs h)
    → ((qs : List Param) (h : ℕ)
        → R qs h
        → ((qs' : List Param) × (qs ≡ p ∷ qs') × P qs' h) ⊎ Q qs h)
    → Decides P (ps ++ p ∷ []) r
    → Decides Q ps (next ps)
    → Decides R ps (or_pop r next)
unfolding or_pop or_next
Decides-or_pop ps p next f g back (found qs h w) d =
    rw (append_assoc ps (p ∷ []) qs) (found (p ∷ qs) h (f qs h w))
Decides-or_pop ps p next f g back (missed np) d = rw (pop-snoc ps p) (
    Decides-map g
      (λ qs h r. elim (back qs h r) [ inl (qs', e, w) ↦ absurd (np qs' h w) | inr q ↦ q ]) d)

-- What each of the four loops looks for among the children.
abbrev pub ViaStatic : Nodes → Text → List Text → List Param → ℕ → Type 0
ViaStatic cs seg rest qs h =
    (c : Node) × Among c cs × (is_static_for (label c) seg ≡ true) × Matches c rest qs h

abbrev pub ViaNamed : (Label → Bool) → Nodes → Text → List Text → List Param → ℕ → Type 0
ViaNamed test cs seg rest qs h =
    (c : Node) × Among c cs
    × (test (label c) ≡ true)
    × (qs' : List Param) × (qs ≡ captured (label c) seg ∷ qs')
    × Matches c rest qs' h

abbrev pub ViaWildcard : Nodes → Text → List Text → List Param → ℕ → Type 0
ViaWildcard cs seg rest qs h =
    (l : Label) × (cs' : Nodes) × Among (node l (some h) cs') cs
    × (is_wildcard l ≡ true)
    × (qs ≡ captured l (join (seg ∷ rest) (codes "/")) ∷ [])

pub ViaStatic-cons :
    (d : Node) (cs : Nodes) (seg : Text) (rest : List Text) (qs : List Param) (h : ℕ)
    → ViaStatic (cons d cs) seg rest qs h
    → ((is_static_for (label d) seg ≡ true) × Matches d rest qs h) ⊎ ViaStatic cs seg rest qs h
ViaStatic-cons d cs seg rest qs h (c, first, e, m) = inl (e, m)
ViaStatic-cons d cs seg rest qs h (c, later a, e, m) = inr (c, a, e, m)

pub ViaNamed-cons :
    (test : Label → Bool) (d : Node) (cs : Nodes) (seg : Text) (rest : List Text) (qs : List Param)
    (h : ℕ)
    → ViaNamed test (cons d cs) seg rest qs h
    → ((test (label d) ≡ true)
        × ((qs' : List Param) × (qs ≡ captured (label d) seg ∷ qs') × Matches d rest qs' h))
      ⊎ ViaNamed test cs seg rest qs h
ViaNamed-cons test d cs seg rest qs h (c, first, e, w, p, m) = inl (e, (w, p, m))
ViaNamed-cons test d cs seg rest qs h (c, later a, e, w, p, m) = inr (c, a, e, w, p, m)
