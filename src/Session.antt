-- ===== src/Session.antt =====
-- internal/security/session.go: a session of a request, with its values, its flag for unsaved changes and
-- what the store holds: what was saved last, or nothing after a save with a lifetime that is not positive, as
-- internal/security/redisstore.go has it. Random bytes and the answer of the store's Save are arguments; the id that
-- the store makes for a session without one is left out. Locks are not modelled.
pub mod Saving
pub mod Values
pub mod Tests
use mathlib.Core.List.{reverse}
use kiya.Base.{
  ℕ, Bool, true, false, ◌||◌, List, [], ◌∷◌, ◌++◌, Option, none, some, if◌then◌else◌, ◌/◌, ◌%◌, ◌+◌,
  ◌-◌, ltb,
}
use kiya.Base.Int.{ℤ, pos, negsuc, ltb_ℤ}
use kiya.Text.{Text, codes, text_eq}
use kiya.Strconv.{Parsed, number, syntax, range, format_int, parse_int, int64_cutoff}

-- A value of type `any`. A float is its bit pattern, and `small` is an int8, int16 or int32.
pub data Value : Type 0 where
  text bytes : Text → Value
  int int64 small : ℤ → Value
  float32 float64 : ℕ → Value
  bool : Bool → Value
  time other : ℕ → Value

abbrev pub Values : Type 0
Values = List (Text × Value)

-- the part of `sessions.Session` that is read and written here
pub record Raw : Type 0 where
  pub id : Text
  pub values : Values
  pub max_age : ℤ

-- `Session`; `stored` is what the store holds of it
pub record Session : Type 0 where
  pub raw : Raw
  pub dirty : Bool
  pub stored : Option Raw

unfoldable pub value_of : Text → Values → Option Value
value_of key [] = none
value_of key ((k, v) ∷ m) = let rest = value_of key m in if text_eq k key then some v else rest

unfoldable pub set_value : Text → Value → Values → Values
set_value key v [] = (key, v) ∷ []
set_value key v ((k, w) ∷ m) =
    let rest = set_value key v m in if text_eq k key then (key, v) ∷ m else (k, w) ∷ rest

unfoldable pub delete_value : Text → Values → Values
delete_value key [] = []
delete_value key ((k, w) ∷ m) =
    let rest = delete_value key m in if text_eq k key then rest else (k, w) ∷ rest

-- `NewSession`, of a session that the store has just given
unfoldable pub new_session : Raw → Session
new_session raw = record { raw = raw; dirty = false; stored = some raw }

-- `none` is nil
unfoldable pub get : Text → Session → Option Value
get key s = value_of key s.raw.values

-- a change of the raw session, which sets the flag
unfoldable pub change : Raw → Session → Session
change raw s = record s { raw = raw; dirty = true }

unfoldable pub set : Text → Value → Session → Session
unfolding change
set key v s = change (record s.raw { values = set_value key v s.raw.values }) s

unfoldable pub delete : Text → Session → Session
unfolding change
delete key s = change (record s.raw { values = delete_value key s.raw.values }) s

unfoldable pub clear : Session → Session
unfolding change
clear s = change (record s.raw { values = [] }) s

unfoldable pub destroy : Session → Session
unfolding change
destroy s = change (record s.raw { values = []; max_age = negsuc 0 }) s

-- `hex.EncodeToString`
abbrev hex_digit : ℕ → ℕ
hex_digit d = if ltb d 10 then b'0' + d else b'a' + (d - 10)

unfoldable pub hex : Text → Text
hex [] = []
hex (c ∷ s) = hex_digit (c / 16) ∷ hex_digit (c % 16) ∷ hex s

unfoldable pub regenerate_id : Text → Session → Session
unfolding change hex
regenerate_id random s = change (record s.raw { id = hex random }) s

unfoldable pub set_max_age : ℤ → Session → Session
unfolding change
set_max_age seconds s = change (record s.raw { max_age = seconds }) s

-- what the store holds after its own Save
unfoldable pub stored_of : Raw → Option Raw
stored_of raw = if ltb_ℤ (pos 0) raw.max_age then some raw else none

-- `Save`, with whether the store's own Save succeeds; the answer is whether there is no error
unfoldable pub save_when : Bool → Bool → Session → Bool × Session
save_when false succeeds s = (true, s)
save_when true false s = (false, record s { dirty = true })
save_when true true s = (true, record s { stored = stored_of s.raw; dirty = false })

unfoldable pub save : Bool → Session → Bool × Session
save succeeds s = save_when s.dirty succeeds s

unfoldable pub keys : Session → List Text
keys s = names s.raw.values
  where
    names : Values → List Text
    names [] = []
    names ((k, v) ∷ m) = k ∷ names m

abbrev pub flash_key : Text → Text
flash_key key = codes "_flash_" ++ key

unfoldable pub flash : Text → Value → Session → Session
unfolding set
flash key v s = set (flash_key key) v s

unfoldable pub take_flash : Text → Option Value → Session → Option Value × Session
unfolding delete
take_flash key none s = (none, s)
take_flash key (some v) s = (some v, delete (flash_key key) s)

-- `GetFlash`
unfoldable pub get_flash : Text → Session → Option Value × Session
get_flash key s = take_flash key (get (flash_key key) s) s

-- what the getters use of floats: conversions, `FormatFloat(t, 'f', -1, 64)` and `ParseFloat(t, 64)`
pub record Floats : Type 0 where
  pub widen : ℕ → ℕ
  pub truncate : ℕ → ℤ
  pub of_int : ℤ → ℕ
  pub format : ℕ → Text
  pub parse : Text → Option ℕ

module _ (floats : Floats) where
  unfoldable pub text_of : Option Value → Text
  text_of (some (text t)) = t
  text_of (some (bytes t)) = t
  text_of (some (int n)) = format_int n
  text_of (some (int64 n)) = format_int n
  text_of (some (float64 f)) = floats.format f
  text_of _ = []

  unfoldable pub get_string : Text → Session → Text
  get_string key s = text_of (get key s)

  unfoldable pub number_or_zero : Parsed ℤ → ℤ
  number_or_zero (number n) = n
  number_or_zero syntax = pos 0
  number_or_zero (range n) = pos 0

  unfoldable pub int64_of : Option Value → ℤ
  unfolding number_or_zero
  int64_of (some (int n)) = n
  int64_of (some (small n)) = n
  int64_of (some (int64 n)) = n
  int64_of (some (float32 f)) = floats.truncate (floats.widen f)
  int64_of (some (float64 f)) = floats.truncate f
  int64_of (some (text t)) = number_or_zero (parse_int int64_cutoff t)
  int64_of _ = pos 0

  -- `GetInt64`, and `GetInt` where int has 64 bits
  unfoldable pub get_int64 : Text → Session → ℤ
  get_int64 key s = int64_of (get key s)

  unfoldable pub float_or_zero : Option ℕ → ℕ
  float_or_zero none = 0
  float_or_zero (some f) = f

  unfoldable pub float_of : Option Value → ℕ
  unfolding float_or_zero
  float_of (some (float32 f)) = floats.widen f
  float_of (some (float64 f)) = f
  float_of (some (int n)) = floats.of_int n
  float_of (some (int64 n)) = floats.of_int n
  float_of (some (text t)) = float_or_zero (floats.parse t)
  float_of _ = 0

  unfoldable pub get_float : Text → Session → ℕ
  get_float key s = float_of (get key s)

-- `strconv.ParseBool`, with false for an error
unfoldable pub parse_bool : Text → Bool
parse_bool t =
    text_eq t (codes "1")
    || (text_eq t (codes "t")
        || (text_eq t (codes "T")
            || (text_eq t (codes "TRUE")
                || (text_eq t (codes "true") || text_eq t (codes "True")))))

unfoldable pub nonzero : ℤ → Bool
nonzero (pos n) = ltb 0 n
nonzero (negsuc n) = true

unfoldable pub bool_of : Option Value → Bool
unfolding parse_bool nonzero
bool_of (some (bool b)) = b
bool_of (some (text t)) = parse_bool t
bool_of (some (int n)) = nonzero n
bool_of _ = false

unfoldable pub get_bool : Text → Session → Bool
get_bool key s = bool_of (get key s)

-- `GetBytes`, where nil is the empty text
unfoldable pub bytes_of : Option Value → Text
bytes_of (some (bytes t)) = t
bytes_of (some (text t)) = t
bytes_of _ = []

unfoldable pub get_bytes : Text → Session → Text
get_bytes key s = bytes_of (get key s)

-- `GetTime`; `none` is the zero time
unfoldable pub time_of : Option Value → Option ℕ
time_of (some (time t)) = some t
time_of _ = none

unfoldable pub get_time : Text → Session → Option ℕ
get_time key s = time_of (get key s)
