-- ===== src/Router/Path/Segments.antt =====
-- The segments of a path (`cleanPath` and `splitPath` of internal/router/tree.go).
use mathlib.Core.List.{reverse, tail, reverse-append, reverse-reverse, reverse-cons}
use kiya.Base.{
  ℕ, ◌≡◌, ◌≢◌, refl, sym, ap, ◌∙◌, false, List, [], ◌∷◌, ◌++◌, arith, All, All-snoc, append_assoc,
  append-nil, Bool-cases, inl, inr,
}
use kiya.Text.{Text, codes, text_eq, join, has_prefix}
use kiya.Text.Laws.{text_eq_iff}
use kiya.Router.Path.{
  prepend, split_slash, resolve, resolve_all, clean_rooted, clean_path, trim_slash_left, trim_slash,
  split_nonempty, split_path, segments,
}

abbrev pub NoSlash : Text → Type 0
NoSlash = All (λ c. c ≢ b'/')

-- a name that stays below the directory that it is looked up in
abbrev pub IsPlain : Text → Type 0
IsPlain s = (s ≢ []) × (s ≢ codes ".") × (s ≢ codes "..") × NoSlash s

NoSlash-prepend : (c : ℕ) (ss : List Text) → c ≢ b'/' → All NoSlash ss → All NoSlash (prepend c ss)
unfolding prepend
NoSlash-prepend c [] h hs = ((h, tt), tt)
NoSlash-prepend c (s ∷ ss) h (hs, hss) = ((h, hs), hss)

NoSlash-split_slash : (s : Text) → All NoSlash (split_slash s)
unfolding split_slash
NoSlash-split_slash [] = (tt, tt)
NoSlash-split_slash (c ∷ s) =
    ground (arith, NoSlash-split_slash s, NoSlash-prepend c (split_slash s))

IsPlain-tail : (stack : List Text) → All IsPlain stack → All IsPlain (tail stack)
IsPlain-tail [] h = tt
IsPlain-tail (s ∷ stack) h = h.1

IsPlain-resolve :
    (stack : List Text) (part : Text)
    → All IsPlain stack
    → NoSlash part
    → All IsPlain (resolve stack part)
unfolding resolve
IsPlain-resolve stack part h n = ground (
  arith,
  IsPlain-tail stack h,
  text_eq_iff part [],
  text_eq_iff part (codes "."),
  text_eq_iff part (codes ".."),
)

All-reverse {ℓ} : {A : Type ℓ} (P : A → Type 0) (xs : List A) → All P xs → All P (reverse xs)
All-reverse P [] h = h
All-reverse P (x ∷ xs) (p, h) = rw reverse-cons (All-snoc P (reverse xs) x (All-reverse P xs h) p)

IsPlain-resolve_all :
    (stack parts : List Text)
    → All IsPlain stack
    → All NoSlash parts
    → All IsPlain (resolve_all stack parts)
unfolding resolve_all
IsPlain-resolve_all stack [] h n = All-reverse IsPlain stack h
IsPlain-resolve_all stack (part ∷ parts) h (n, ns) =
    IsPlain-resolve_all (resolve stack part) parts (IsPlain-resolve stack part h n) ns

-- splitting undoes joining
split_slash-append : (s : Text) → NoSlash s → split_slash s ≡ s ∷ []
unfolding split_slash prepend
split_slash-append [] h = refl
split_slash-append (c ∷ s) (n, h) = ground (arith, split_slash-append s h)

split_slash-cons :
    (s rest : Text) → NoSlash s → split_slash (s ++ b'/' ∷ rest) ≡ s ∷ split_slash rest
unfolding split_slash prepend
split_slash-cons [] rest h = refl
split_slash-cons (c ∷ s) rest (n, h) = ground (arith, split_slash-cons s rest h)

split_slash-join :
    (s : Text) (ss : List Text)
    → All NoSlash (s ∷ ss)
    → split_slash (join (s ∷ ss) (codes "/")) ≡ s ∷ ss
unfolding join codes
split_slash-join s [] (h, _) = split_slash-append s h
split_slash-join s (t ∷ ss) (h, hs) =
    split_slash-cons s (join (t ∷ ss) (codes "/")) h ∙ ap (◌∷◌ s) (split_slash-join t ss hs)

-- A joined list of plain names begins and ends with a byte that is no slash.
join_first :
    (s : Text) (ss : List Text)
    → IsPlain s
    → (c : ℕ) × (r : Text) × (join (s ∷ ss) (codes "/") ≡ c ∷ r) × (c ≢ b'/')
unfolding join
join_first [] ss h = absurd (h.0 refl)
join_first (c ∷ s) [] h = (c, s, refl, h.3.0)
join_first (c ∷ s) (t ∷ ss) h = (c, s ++ (codes "/" ++ join (t ∷ ss) (codes "/")), refl, h.3.0)

last_byte :
    (c : ℕ) (s : Text) → NoSlash (c ∷ s) → (r : Text) × (d : ℕ) × (c ∷ s ≡ r ++ d ∷ []) × (d ≢ b'/')
last_byte c [] h = ([], c, refl, h.0)
last_byte c (d ∷ s) h = let (r, e, p, n) = last_byte d s h.1 in (c ∷ r, e, ap (◌∷◌ c) p, n)

join_last :
    (s : Text) (ss : List Text)
    → All IsPlain (s ∷ ss)
    → (r : Text) × (d : ℕ) × (join (s ∷ ss) (codes "/") ≡ r ++ d ∷ []) × (d ≢ b'/')
unfolding join
join_last [] [] h = absurd (h.0.0 refl)
join_last (c ∷ s) [] h = last_byte c s h.0.3
join_last s (t ∷ ss) h =
    let (r, d, p, n) = join_last t ss h.1 in (s ++ (codes "/" ++ r), d, rw p (simp append_assoc), n)

trim_slash_left_id : (c : ℕ) (s : Text) → c ≢ b'/' → trim_slash_left (c ∷ s) ≡ c ∷ s
unfolding trim_slash_left
trim_slash_left_id c s n = ground arith

trim_slash_left-snoc :
    (r : Text) (d : ℕ) → d ≢ b'/' → trim_slash_left (reverse (r ++ d ∷ [])) ≡ reverse (r ++ d ∷ [])
trim_slash_left-snoc r d n = rw (reverse-append r (d ∷ [])) (trim_slash_left_id d (reverse r) n)

trim_slash-join :
    (s : Text) (ss : List Text)
    → All IsPlain (s ∷ ss)
    → trim_slash (b'/' ∷ join (s ∷ ss) (codes "/")) ≡ join (s ∷ ss) (codes "/")
unfolding trim_slash
trim_slash-join s ss h =
    let (c, t, first, n) = join_first s ss h.0 in
    let (r, d, last, m) = join_last s ss h in
    let left : trim_slash_left (b'/' ∷ join (s ∷ ss) (codes "/")) ≡ join (s ∷ ss) (codes "/") =
      unfold trim_slash_left in rw first (trim_slash_left_id c t n) in
    rw (left, last) (rw (trim_slash_left-snoc r d m) (reverse-reverse _))

NoSlash-of_IsPlain : (ss : List Text) → All IsPlain ss → All NoSlash ss
NoSlash-of_IsPlain [] h = tt
NoSlash-of_IsPlain (s ∷ ss) (h, hs) = (h.3, NoSlash-of_IsPlain ss hs)

split_nonempty_of : (p : Text) {c : ℕ} {t : Text} → p ≡ c ∷ t → split_nonempty p ≡ split_slash p
unfolding split_nonempty
split_nonempty_of p e = rw e refl

split_path-join : (ss : List Text) → All IsPlain ss → split_path (b'/' ∷ join ss (codes "/")) ≡ ss
unfolding split_path
split_path-join [] h = unfold text_eq codes join in refl
split_path-join (s ∷ ss) h =
    let (c, t, first, n) = join_first s ss h.0 in
    let not_root : text_eq (b'/' ∷ join (s ∷ ss) (codes "/")) (codes "/") ≡ false =
      rw first (unfold text_eq codes in refl) in
    rw (not_root, trim_slash-join s ss h, split_nonempty_of _ first)
      (split_slash-join s ss (NoSlash-of_IsPlain (s ∷ ss) h))

-- a slash in front of a path adds an empty part
resolve_slash :
    (p : Text) → resolve_all [] (split_slash (b'/' ∷ p)) ≡ resolve_all [] (split_slash p)
unfolding split_slash resolve_all resolve text_eq
resolve_slash p = refl

clean_path_lem :
    (p : Text) → clean_path p ≡ b'/' ∷ join (resolve_all [] (split_slash p)) (codes "/")
unfolding clean_path clean_rooted
clean_path_lem [] = unfold split_slash resolve_all resolve text_eq join codes in refl
clean_path_lem (c ∷ s) = elim (Bool-cases (has_prefix (c ∷ s) (codes "/"))) [
  | inl e ↦ rw e refl
  | inr e ↦ rw (e, resolve_slash (c ∷ s)) refl
]

-- The segments of a path are its parts between slashes, without empty and "." parts and with ".."
-- resolved.
pub segments_lem : (p : Text) → segments p ≡ resolve_all [] (split_slash p)
unfolding segments
segments_lem p =
    rw (clean_path_lem p)
      (split_path-join _ (IsPlain-resolve_all [] (split_slash p) tt (NoSlash-split_slash p)))

resolve_of_IsPlain :
    (stack : List Text) (part : Text) → IsPlain part → resolve stack part ≡ part ∷ stack
unfolding resolve
resolve_of_IsPlain stack part h =
    ground (arith, text_eq_iff part [], text_eq_iff part (codes "."), text_eq_iff part (codes ".."))

resolve_all_of_IsPlain :
    (stack ss : List Text) → All IsPlain ss → resolve_all stack ss ≡ reverse stack ++ ss
unfolding resolve_all
resolve_all_of_IsPlain stack [] h = sym (append-nil (reverse stack))
resolve_all_of_IsPlain stack (s ∷ ss) (h, hs) =
    rw (resolve_of_IsPlain stack s h, resolve_all_of_IsPlain (s ∷ stack) ss hs, reverse-cons)
      (simp append_assoc)

segments-join : (ss : List Text) → All IsPlain ss → segments (b'/' ∷ join ss (codes "/")) ≡ ss
segments-join [] h =
    segments_lem _ ∙ (unfold split_slash resolve_all resolve text_eq join codes in refl)
segments-join (s ∷ ss) h =
    rw (segments_lem _, resolve_slash _, split_slash-join s ss (NoSlash-of_IsPlain (s ∷ ss) h))
      (resolve_all_of_IsPlain [] (s ∷ ss) h)

-- Whatever the path, no segment is empty, "." or "..", and none holds a slash; the path that is put
-- together from the segments has these segments again.
pub segments-IsPlain :
    (p : Text)
    → All IsPlain (segments p) × (segments (b'/' ∷ join (segments p) (codes "/")) ≡ segments p)
segments-IsPlain p =
    let plain_segments : All IsPlain (segments p) =
      rw (segments_lem p) (IsPlain-resolve_all [] (split_slash p) tt (NoSlash-split_slash p)) in
    (plain_segments, segments-join (segments p) plain_segments)
