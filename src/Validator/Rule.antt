-- ===== src/Validator/Rule.antt =====
-- validator.go: the ten rules and their registry. The parsers of net/mail, net/url and strconv are
-- arguments.
use kiya.Base.{
  ℕ, Bool, true, false, not, ◌&&◌, ◌||◌, List, [], ◌∷◌, ◌++◌, Option, none, some, ltb, leb, ◌==◌,
  if◌then◌else◌, length,
}
use kiya.Base.Int.{ℤ, pos, negsuc}
use kiya.Text.{Text, codes, text_eq, trim_space}
use kiya.Strconv.{Parsed, number, syntax, range, atoi}
use kiya.Validator.{
  Form, text, flag, int, uint, float, is_empty_value, is_missing, must_be_filled, bad_format,
  bad_scheme, password_too_short, password_too_weak, must_be_number, exact_length, max_length,
  min_length, Verdict, Validator, assign,
}
use kiya.Validator.Unique.{Connection, val_unique}

-- `valRequired`
unfoldable pub val_required : Form → Verdict
val_required (flag b) = none
val_required v = if is_empty_value v then some must_be_filled else none

-- the flags of the loop of `valSecPass`
pub record Seen : Type 0 where
  pub upper : Bool
  pub lower : Bool
  pub digit : Bool
  pub symbol : Bool

unfoldable pub is_one_of : ℕ → Text → Bool
is_one_of c [] = false
is_one_of c (d ∷ s) = c == d || is_one_of c s

-- quotes are written by their numbers
unfoldable pub is_symbol : ℕ → Bool
is_symbol c = is_one_of c (codes "!@#$%^&*()-_=+[]{}|;:',.<>?/`~" ++ 34 ∷ [])

unfoldable pub see : ℕ → Seen → Seen
see c seen =
    if leb b'A' c && leb c b'Z'
    then record seen { upper = true }
    else if leb b'a' c && leb c b'z'
    then record seen { lower = true }
    else if leb b'0' c && leb c b'9'
    then record seen { digit = true }
    else if is_symbol c
    then record seen { symbol = true }
    else seen

-- The loop goes over runes; those above 127 set no flag, and neither do their bytes.
unfoldable pub see_all : Text → Seen → Seen
see_all [] seen = seen
see_all (c ∷ s) seen = see_all s (see c seen)

abbrev pub none_seen : Seen
none_seen = record { upper = false; lower = false; digit = false; symbol = false }

unfoldable pub strong : Seen → Verdict
strong seen =
    if not seen.upper || (not seen.lower || (not seen.digit || not seen.symbol))
    then some password_too_weak
    else none

-- `valSecPass`
unfoldable pub val_sec_pass : Form → Verdict
val_sec_pass (text s) =
    if ltb (length s) 8 then some password_too_short else strong (see_all s none_seen)
val_sec_pass _ = some bad_format

-- what the rules ask of other packages: the address of `mail.ParseAddress`, the scheme of
-- `url.ParseRequestURI`, and whether `strconv.ParseFloat` succeeds
pub record Parsers : Type 0 where
  pub address : Text → Option Text
  pub scheme : Text → Option Text
  pub is_float : Text → Bool

unfoldable pub address_verdict : Option Text → Verdict
address_verdict none = some bad_format
address_verdict (some address) = if is_missing address then some bad_format else none

unfoldable pub email_text : Parsers → Form → Verdict
email_text p (text s) = address_verdict (p.address s)
email_text p _ = some bad_format

-- `valEmail`
unfoldable pub val_email : Parsers → Form → Verdict
val_email p v = if is_empty_value v then none else email_text p v

unfoldable pub allowed_scheme : Text → Bool
allowed_scheme scheme =
    text_eq scheme (codes "http")
    || (text_eq scheme (codes "https")
        || (text_eq scheme (codes "ftp") || text_eq scheme (codes "mailto")))

unfoldable pub scheme_verdict : Option Text → Verdict
scheme_verdict none = some bad_format
scheme_verdict (some scheme) = if allowed_scheme scheme then none else some bad_scheme

unfoldable pub url_text : Parsers → Form → Verdict
url_text p (text s) = scheme_verdict (p.scheme s)
url_text p _ = some bad_format

-- `valUrl`
unfoldable pub val_url : Parsers → Form → Verdict
val_url p v = if is_empty_value v then none else url_text p v

unfoldable pub numeric_value : Parsers → Form → Verdict
numeric_value p (int n) = none
numeric_value p (uint n) = none
numeric_value p (float f) = none
numeric_value p (text s) = if p.is_float s then none else some must_be_number
numeric_value p _ = some must_be_number

-- `valNumeric`
unfoldable pub val_numeric : Parsers → Form → Verdict
val_numeric p v = if is_empty_value v then none else numeric_value p v

-- `len(str) > p` and `len(str) < p`
unfoldable pub longer_than : ℕ → ℤ → Bool
longer_than n (pos p) = ltb p n
longer_than n (negsuc p) = true

unfoldable pub shorter_than : ℕ → ℤ → Bool
shorter_than n (pos p) = ltb n p
shorter_than n (negsuc p) = false

-- the verdict on a parameter, where a parameter that is no number lets all pass
unfoldable pub with_number : (ℤ → Verdict) → Parsed ℤ → Verdict
with_number f (number p) = f p
with_number f syntax = none
with_number f (range p) = none

unfoldable pub exactly : ℕ → ℤ → Verdict
exactly n p = if longer_than n p || shorter_than n p then some (exact_length p) else none

unfoldable pub at_most : ℕ → ℤ → Verdict
at_most n p = if longer_than n p then some (max_length p) else none

unfoldable pub at_least : ℕ → ℤ → Verdict
at_least n p = if shorter_than n p then some (min_length p) else none

-- `valLength`
unfoldable pub val_length : Text → Form → Verdict
val_length param (text s) =
    if is_missing s then none else with_number (exactly (length s)) (atoi param)
val_length param _ = none

-- `valOpLength`
unfoldable pub val_op_length : Text → Form → Verdict
val_op_length param (text s) =
    if is_missing (trim_space s) then none else with_number (exactly (length s)) (atoi param)
val_op_length param _ = none

-- `valMaxLength`
unfoldable pub val_max_length : Text → Form → Verdict
val_max_length param (text s) =
    if is_missing s then none else with_number (at_most (length s)) (atoi param)
val_max_length param _ = none

-- `valMinLength`
unfoldable pub val_min_length : Text → Form → Verdict
val_min_length param (text s) =
    if is_missing s then none else with_number (at_least (length s)) (atoi param)
val_min_length param _ = none

-- what a rule is: `func(v *Validator, param string) RulesFunc`
abbrev pub Rule : Type 0
Rule = Validator → Text → Form → Verdict

abbrev pub Registry : Type 0
Registry = List (Text × Rule)

-- the registry that `init` makes
unfoldable pub default_rules : Parsers → Option Connection → Registry
default_rules p db =
    (codes "required", λ v param. val_required)
    ∷ (codes "email", λ v param. val_email p)
    ∷ (codes "length", λ v. val_length)
    ∷ (codes "op_length", λ v. val_op_length)
    ∷ (codes "maxlength", λ v. val_max_length)
    ∷ (codes "minlength", λ v. val_min_length)
    ∷ (codes "url", λ v param. val_url p)
    ∷ (codes "numeric", λ v param. val_numeric p)
    ∷ (codes "unique", val_unique db)
    ∷ (codes "secpass", λ v param. val_sec_pass)
    ∷ []

-- `RegisterRules`
unfoldable pub register_rules : Text → Rule → Registry → Registry
register_rules name fn registry = assign name fn registry

-- `RegisterSimpleRule`
unfoldable pub register_simple_rule : Text → (Form → Verdict) → Registry → Registry
register_simple_rule name fn registry = register_rules name (λ v param. fn) registry

unfoldable pub rule_at : Text → Registry → Option Rule
rule_at name [] = none
rule_at name ((k, fn) ∷ registry) =
    let rest = rule_at name registry in if text_eq k name then some fn else rest
