-- ===== src/Router/Tree/Tests.antt =====
-- Routes at concrete inputs.
use kiya.Base.{
  ◌≡◌, refl, List, [], ◌∷◌, Bool, false, Option, none, some, All, if◌then◌else◌, ltb, ◌&&◌,
}
use kiya.Text.{Text, codes, text_eq, has_prefix, join}
use kiya.Router.Path.{
  prepend, split_slash, resolve, resolve_all, clean_rooted, clean_path, trim_slash_left, trim_slash,
  split_nonempty, split_path, segments,
}
use kiya.Router.Path.Segments.{segments-IsPlain, IsPlain}
use kiya.Router.Tree.{
  Route, Roots, label, cut_colon, drop_last, pattern_kind, pattern_label, body_label, brace_label,
  parse_segment, same_kind, same_label, conflicting, has_same, has_conflict, update_same, add_last,
  place_child, enter_child, add_segments, empty_node, or_next, pop, or_pop, is_static_for,
  is_regex_for, is_param, is_wildcard, search_node, try_static, try_regex, try_param, try_wildcard,
  root_of, set_root, or_empty, add_route, find_in_root, find_in, find_route, is_found,
  any_method_exists, register,
}
use kiya.Router.Tree.Matching.{Decides}
use kiya.Router.Tree.Routing.{Routed, find_route-Decides}
use kiya.Router.Tree.Literal.{add_route-literal}

-- a compiler that knows one expression: a digit in front
abbrev starts_with_digit : Text → Bool
starts_with_digit [] = false
starts_with_digit (c ∷ s) = ltb 47 c && ltb c 58

abbrev compile_digits : Text → Option (Text → Bool)
compile_digits s = if text_eq s (codes "^[0-9]+$") then some starts_with_digit else none

abbrev get_method : Text
get_method = codes "GET"

abbrev routes : List Route
routes =
    record { method = get_method; path = codes "/users/{id:[0-9]+}"; handler = 1 }
    ∷ record { method = get_method; path = codes "/users/me"; handler = 2 }
    ∷ record { method = get_method; path = codes "/files/{rest:*}"; handler = 3 }
    ∷ []

abbrev or_no_roots : Option Roots → Roots
or_no_roots none = []
or_no_roots (some rs) = rs

abbrev known : Roots
known = or_no_roots (register compile_digits [] routes)

abbrev user_42 : Text
user_42 = codes "/users/42"

register-known : register compile_digits [] routes ≡ some known
unfolding codes text_eq has_prefix join prepend split_slash resolve resolve_all clean_rooted
    clean_path trim_slash_left trim_slash split_nonempty split_path segments label cut_colon
    drop_last pattern_kind pattern_label body_label brace_label parse_segment same_kind same_label
    conflicting has_same has_conflict update_same add_last place_child enter_child add_segments
    empty_node or_next pop or_pop is_static_for is_regex_for is_param is_wildcard search_node
    try_static try_regex try_param try_wildcard root_of set_root or_empty add_route find_in_root
    find_in find_route is_found any_method_exists register
register-known = refl

find_route-regex :
    find_route known get_method user_42
    ≡ (some 1, record { key = codes "id"; value = codes "42" } ∷ [])
unfolding codes text_eq has_prefix join prepend split_slash resolve resolve_all clean_rooted
    clean_path trim_slash_left trim_slash split_nonempty split_path segments label cut_colon
    drop_last pattern_kind pattern_label body_label brace_label parse_segment same_kind same_label
    conflicting has_same has_conflict update_same add_last place_child enter_child add_segments
    empty_node or_next pop or_pop is_static_for is_regex_for is_param is_wildcard search_node
    try_static try_regex try_param try_wildcard root_of set_root or_empty add_route find_in_root
    find_in find_route is_found any_method_exists register
find_route-regex = refl

find_route-static : find_route known get_method (codes "/users/me") ≡ (some 2, [])
unfolding codes text_eq has_prefix join prepend split_slash resolve resolve_all clean_rooted
    clean_path trim_slash_left trim_slash split_nonempty split_path segments label cut_colon
    drop_last pattern_kind pattern_label body_label brace_label parse_segment same_kind same_label
    conflicting has_same has_conflict update_same add_last place_child enter_child add_segments
    empty_node or_next pop or_pop is_static_for is_regex_for is_param is_wildcard search_node
    try_static try_regex try_param try_wildcard root_of set_root or_empty add_route find_in_root
    find_in find_route is_found any_method_exists register
find_route-static = refl

find_route-wildcard :
    find_route known get_method (codes "/files//a/../b/c")
    ≡ (some 3, record { key = codes "rest"; value = codes "b/c" } ∷ [])
unfolding codes text_eq has_prefix join prepend split_slash resolve resolve_all clean_rooted
    clean_path trim_slash_left trim_slash split_nonempty split_path segments label cut_colon
    drop_last pattern_kind pattern_label body_label brace_label parse_segment same_kind same_label
    conflicting has_same has_conflict update_same add_last place_child enter_child add_segments
    empty_node or_next pop or_pop is_static_for is_regex_for is_param is_wildcard search_node
    try_static try_regex try_param try_wildcard root_of set_root or_empty add_route find_in_root
    find_in find_route is_found any_method_exists register
find_route-wildcard = refl

any_method_exists-none : any_method_exists known (codes "/users") ≡ false
unfolding codes text_eq has_prefix join prepend split_slash resolve resolve_all clean_rooted
    clean_path trim_slash_left trim_slash split_nonempty split_path segments label cut_colon
    drop_last pattern_kind pattern_label body_label brace_label parse_segment same_kind same_label
    conflicting has_same has_conflict update_same add_last place_child enter_child add_segments
    empty_node or_next pop or_pop is_static_for is_regex_for is_param is_wildcard search_node
    try_static try_regex try_param try_wildcard root_of set_root or_empty add_route find_in_root
    find_in find_route is_found any_method_exists register
any_method_exists-none = refl

find_route-Decides_example :
    Decides (Routed known get_method user_42) [] (find_route known get_method user_42)
find_route-Decides_example =
    find_route-Decides compile_digits routes known get_method user_42 register-known

abbrev posts : Text
posts = codes "/users/posts"

abbrev with_posts : Roots
with_posts = or_no_roots (add_route compile_digits get_method posts 4 known)

add_route-with_posts : add_route compile_digits get_method posts 4 known ≡ some with_posts
unfolding codes text_eq has_prefix join prepend split_slash resolve resolve_all clean_rooted
    clean_path trim_slash_left trim_slash split_nonempty split_path segments label cut_colon
    drop_last pattern_kind pattern_label body_label brace_label parse_segment same_kind same_label
    conflicting has_same has_conflict update_same add_last place_child enter_child add_segments
    empty_node or_next pop or_pop is_static_for is_regex_for is_param is_wildcard search_node
    try_static try_regex try_param try_wildcard root_of set_root or_empty add_route find_in_root
    find_in find_route is_found any_method_exists register
add_route-with_posts = refl

add_route-literal_example : find_route with_posts get_method posts ≡ (some 4, [])
unfolding codes text_eq has_prefix join prepend split_slash resolve resolve_all clean_rooted
    clean_path trim_slash_left trim_slash split_nonempty split_path segments label cut_colon
    drop_last pattern_kind pattern_label body_label brace_label parse_segment same_kind same_label
    conflicting has_same has_conflict update_same add_last place_child enter_child add_segments
    empty_node or_next pop or_pop is_static_for is_regex_for is_param is_wildcard search_node
    try_static try_regex try_param try_wildcard root_of set_root or_empty add_route find_in_root
    find_in find_route is_found any_method_exists register
add_route-literal_example =
    add_route-literal compile_digits routes known with_posts get_method posts 4 (refl, (refl, tt))
      register-known add_route-with_posts

abbrev winding : Text
winding = codes "a//./b/../c/"

segments-IsPlain_example :
    All IsPlain (segments winding)
    × (segments (b'/' ∷ join (segments winding) (codes "/")) ≡ segments winding)
segments-IsPlain_example = segments-IsPlain winding
