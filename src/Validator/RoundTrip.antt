-- ===== src/Validator/RoundTrip.antt =====
-- Rules that are printed into one text, and read back by mergeRules.
use mathlib.Core.List.{reverse, reverse-append, reverse-reverse}
use kiya.Base.{
  ◌≡◌, refl, sym, ap, ◌∙◌, Bool, true, false, not, ◌&&◌, ◌||◌, List, [], ◌∷◌, ◌++◌, ℕ, some, arith,
  All, leb, ◌==◌, append_assoc,
}
use kiya.Text.{split_first, split_at, Text, all_in, trim_left, trim_space}
use kiya.Text.Laws.{all_in_mono}
use kiya.Validator.{
  Rules, Validator, cut_bracket, drop_bracket, with_param, parse_rule, merge_parts, assign,
  rules_at, merge_rules, is_missing,
}

abbrev pub is_blank_byte : ℕ → Bool
is_blank_byte c = c == 32 || leb 9 c && leb c 13

-- a byte of a name, and one of a parameter
abbrev pub name_byte : ℕ → Bool
name_byte c = not (is_blank_byte c) && not (c == b'|') && not (c == b'[')

abbrev pub param_byte : ℕ → Bool
param_byte c = not (c == b'|')

-- A name is not empty.
pub data IsPrintable : Text × Text → Type 0 where
  printable :
      (c : ℕ) (name param : Text)
      → all_in name_byte (c ∷ name) ≡ true
      → all_in param_byte param ≡ true
      → IsPrintable (c ∷ name, param)

abbrev pub print_rule : Text × Text → Text
print_rule (name, param) = name ++ b'[' ∷ (param ++ b']' ∷ [])

unfoldable pub print_rules : Text × Text → Rules → Text
print_rules r [] = print_rule r
print_rules r (s ∷ rules) = print_rule r ++ b'|' ∷ print_rules s rules

-- the rules one after the other, as assignments
unfoldable pub assign_all : Rules → Rules → Rules
assign_all [] acc = acc
assign_all ((name, param) ∷ rules) acc = assign_all rules (assign name param acc)

cut_bracket-append :
    (name rest : Text)
    → all_in name_byte name ≡ true
    → cut_bracket (name ++ b'[' ∷ rest) ≡ some (name, rest)
unfolding cut_bracket all_in
cut_bracket-append [] rest h = refl
cut_bracket-append (c ∷ name) rest h =
    rw (cut_bracket-append name rest (ground arith)) (ground arith)

drop_bracket-snoc : (param : Text) → drop_bracket (param ++ b']' ∷ []) ≡ some param
unfolding drop_bracket
drop_bracket-snoc [] = refl
drop_bracket-snoc (c ∷ []) = refl
drop_bracket-snoc (c ∷ d ∷ s) = rw (drop_bracket-snoc (d ∷ s)) refl

parse_rule-print_rule : (r : Text × Text) → IsPrintable r → parse_rule (print_rule r) ≡ r
unfolding parse_rule with_param
parse_rule-print_rule r (printable c name param hn hp) =
    rw (cut_bracket-append (c ∷ name) (param ++ b']' ∷ []) hn) (rw (drop_bracket-snoc param) refl)

all_in-append :
    (p : ℕ → Bool) (s t : Text) → all_in p s ≡ true → all_in p t ≡ true → all_in p (s ++ t) ≡ true
unfolding all_in
all_in-append p [] t hs ht = ht
all_in-append p (c ∷ s) t hs ht = ground (arith, all_in-append p s t)

name_byte_mono : (c : ℕ) → name_byte c ≡ true → param_byte c ≡ true
name_byte_mono c h = ground arith

print_rule-bytes : (r : Text × Text) → IsPrintable r → all_in param_byte (print_rule r) ≡ true
print_rule-bytes r (printable c name param hn hp) =
    all_in-append param_byte (c ∷ name) (b'[' ∷ (param ++ b']' ∷ []))
      (all_in_mono name_byte param_byte name_byte_mono (c ∷ name) hn)
      (unfold all_in in
        all_in-append param_byte (b'[' ∷ param) (b']' ∷ []) (unfold all_in in hp)
          (unfold all_in in refl))

trim_left_lem : (c : ℕ) (s : Text) → is_blank_byte c ≡ false → trim_left (c ∷ s) ≡ c ∷ s
unfolding trim_left
trim_left_lem c s h = rw h refl

trim_space_lem :
    (c : ℕ) (s x : Text) (d : ℕ)
    → is_blank_byte c ≡ false
    → is_blank_byte d ≡ false
    → c ∷ s ≡ x ++ d ∷ []
    → trim_space (c ∷ s) ≡ c ∷ s
unfolding trim_space
trim_space_lem c s x d hc hd e =
    let turned = ap reverse e ∙ reverse-append x (d ∷ []) in
    rw (trim_left_lem c s hc) (
      ap (λ t. reverse (trim_left t)) turned
      ∙ ap reverse (trim_left_lem d (reverse x) hd ∙ sym turned)
      ∙ reverse-reverse (c ∷ s))

first_name_byte : (c : ℕ) (s : Text) → all_in name_byte (c ∷ s) ≡ true → is_blank_byte c ≡ false
unfolding all_in
first_name_byte c s h = ground arith

trim_space-print_rule : (r : Text × Text) → IsPrintable r → trim_space (print_rule r) ≡ print_rule r
trim_space-print_rule r (printable c name param hn hp) =
    trim_space_lem c (name ++ b'[' ∷ (param ++ b']' ∷ [])) (c ∷ (name ++ b'[' ∷ param)) b']'
      (first_name_byte c name hn) refl
      (ap (λ t. c ∷ t) (sym (append_assoc name (b'[' ∷ param) (b']' ∷ []))))

split_first-plain : (s : Text) → all_in param_byte s ≡ true → split_first b'|' s ≡ (s, [])
unfolding split_first all_in
split_first-plain [] h = refl
split_first-plain (c ∷ s) h = rw (split_first-plain s (ground arith)) (ground arith)

split_first-append :
    (s t : Text)
    → all_in param_byte s ≡ true
    → split_first b'|' (s ++ b'|' ∷ t) ≡ (s, split_at b'|' t)
unfolding split_first split_at all_in
split_first-append [] t h = refl
split_first-append (c ∷ s) t h = rw (split_first-append s t (ground arith)) (ground arith)

print_rule-nonempty : (r : Text × Text) → IsPrintable r → is_missing (print_rule r) ≡ false
print_rule-nonempty r (printable c name param hn hp) = refl

merge_parts-print_rule :
    (r : Text × Text) (parts : List Text) (acc : Rules)
    → IsPrintable r
    → merge_parts (print_rule r ∷ parts) acc ≡ merge_parts parts (assign r.0 r.1 acc)
unfolding merge_parts
merge_parts-print_rule r parts acc h =
    rw (trim_space-print_rule r h) (rw (print_rule-nonempty r h, parse_rule-print_rule r h) refl)

split_at-plain : (s : Text) → all_in param_byte s ≡ true → split_at b'|' s ≡ s ∷ []
unfolding split_at
split_at-plain s h = rw (split_first-plain s h) refl

split_at-append :
    (s t : Text) → all_in param_byte s ≡ true → split_at b'|' (s ++ b'|' ∷ t) ≡ s ∷ split_at b'|' t
unfolding split_at
split_at-append s t h = rw (split_first-append s t h) refl

merge_parts-print_rules :
    (r : Text × Text) (rules acc : Rules)
    → IsPrintable r
    → All IsPrintable rules
    → merge_parts (split_at b'|' (print_rules r rules)) acc ≡ assign_all (r ∷ rules) acc
unfolding print_rules assign_all
merge_parts-print_rules r [] acc h hs =
    ap (λ parts. merge_parts parts acc) (split_at-plain (print_rule r) (print_rule-bytes r h))
    ∙ merge_parts-print_rule r [] acc h
    ∙ unfold merge_parts in refl
merge_parts-print_rules r (s ∷ rules) acc h (hs, more) =
    ap (λ parts. merge_parts parts acc)
      (split_at-append (print_rule r) (print_rules s rules) (print_rule-bytes r h))
    ∙ merge_parts-print_rule r (split_at b'|' (print_rules s rules)) acc h
    ∙ merge_parts-print_rules s rules (assign r.0 r.1 acc) hs more

-- A text of rules, each written as name[param] with a bar between two, where no name is empty, a name holds
-- no white space, bar or opening bracket and a parameter no bar, is read back as those rules: their
-- parameters are assigned to the field one after the other.
pub merge_rules-print_rules :
    (field : Text) (r : Text × Text) (rules : Rules) (v : Validator)
    → IsPrintable r
    → All IsPrintable rules
    → (merge_rules field (print_rules r rules) v).parsed_rules
      ≡ assign field (assign_all (r ∷ rules) (rules_at field v.parsed_rules)) v.parsed_rules
unfolding merge_rules
merge_rules-print_rules field r rules v h hs =
    ap (λ parsed. assign field parsed v.parsed_rules)
      (merge_parts-print_rules r rules (rules_at field v.parsed_rules) h hs)
