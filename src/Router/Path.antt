-- ===== src/Router/Path.antt =====
-- `cleanPath` and `splitPath` of internal/router/tree.go, with what they use of the packages `path`
-- and `strings`.
pub mod Segments
use mathlib.Core.List.{reverse, tail}
use kiya.Base.{ℕ, Bool, List, [], ◌∷◌, ◌++◌, ◌||◌, ◌==◌, if◌then◌else◌}
use kiya.Text.{Text, codes, text_eq, join, has_prefix}

-- `strings.Split` by a slash: the part before the first slash, and the parts behind it
unfoldable pub prepend : ℕ → List Text → List Text
prepend c [] = (c ∷ []) ∷ []
prepend c (s ∷ ss) = (c ∷ s) ∷ ss

unfoldable pub split_slash : Text → List Text
split_slash [] = [] ∷ []
split_slash (c ∷ s) = let rest = split_slash s in if c == b'/' then [] ∷ rest else prepend c rest

-- one element of `path.Clean` on a rooted path; the stack has its top at the head
unfoldable pub resolve : List Text → Text → List Text
resolve stack part =
    if text_eq part [] || text_eq part (codes ".")
    then stack
    else if text_eq part (codes "..")
    then tail stack
    else part ∷ stack

unfoldable pub resolve_all : List Text → List Text → List Text
resolve_all stack [] = reverse stack
resolve_all stack (part ∷ parts) = resolve_all (resolve stack part) parts

-- `path.Clean` on a path that begins with a slash
unfoldable pub clean_rooted : Text → Text
clean_rooted p = b'/' ∷ join (resolve_all [] (split_slash p)) (codes "/")

unfoldable pub clean_path : Text → Text
clean_path [] = codes "/"
clean_path (c ∷ s) =
    if has_prefix (c ∷ s) (codes "/") then clean_rooted (c ∷ s) else clean_rooted (b'/' ∷ c ∷ s)

-- `strings.Trim(p, "/")`
unfoldable pub trim_slash_left : Text → Text
trim_slash_left [] = []
trim_slash_left (c ∷ s) = let rest = trim_slash_left s in if c == b'/' then rest else c ∷ s

unfoldable pub trim_slash : Text → Text
trim_slash p = reverse (trim_slash_left (reverse (trim_slash_left p)))

unfoldable pub split_nonempty : Text → List Text
split_nonempty [] = []
split_nonempty (c ∷ s) = split_slash (c ∷ s)

unfoldable pub split_path : Text → List Text
split_path p = if text_eq p (codes "/") then [] else split_nonempty (trim_slash p)

-- the segments of a request path or of a route, as `AddRoute` and `FindRoute` compute them
unfoldable pub segments : Text → List Text
segments p = split_path (clean_path p)
