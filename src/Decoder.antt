-- ===== src/Decoder.antt =====
-- internal/decoder/traverse.go: the parser of the keys of a form, the room for a slice, and the values of fields
-- of the scalar kinds. `maxKeyLen`, which only sets a capacity, and log lines are left out.
pub mod Bounds
pub mod Scalars
pub mod Tests
use kiya.Base.{
  ℕ, zero, suc, ◌+◌, ◌-◌, ◌^◌, Bool, true, false, not, ◌&&◌, ◌||◌, List, [], ◌∷◌, ◌++◌, Option,
  none, some, if◌then◌else◌, ltb, ◌==◌,
}
use kiya.Base.Int.{ℤ, pos, negsuc, ltb_ℤ}
use kiya.Text.{Text, codes, text_eq, is_digit, slice_to, slice_from}
use kiya.Strconv.{Parsed, number, syntax, range, atoi, parse_uint, parse_int}

-- `key`; `ivalue` is -1 where the text in the brackets is no number
pub record FormKey : Type 0 where
  pub ivalue : ℤ
  pub value : Text
  pub search_value : Text

pub record RecursiveData : Type 0 where
  pub alias : Text
  pub slice_len : ℤ
  pub form_keys : List FormKey

-- the variables of the loop over a key
pub record Cursor : Type 0 where
  pub idx : ℕ
  pub inside_bracket : Bool
  pub is_num : Bool

-- `strconv.Atoi` without its error
unfoldable pub atoi_value : Parsed ℤ → ℤ
atoi_value (number n) = n
atoi_value syntax = pos 0
atoi_value (range n) = n

unfoldable pub with_key : Bool → FormKey → RecursiveData → RecursiveData
with_key is_num k rd =
    if is_num && ltb_ℤ rd.slice_len k.ivalue
    then record rd { slice_len = k.ivalue; form_keys = rd.form_keys ++ k ∷ [] }
    else record rd { form_keys = rd.form_keys ++ k ∷ [] }

-- the entry with the alias, found by `findAlias` or new
unfoldable pub add_key : Bool → Text → FormKey → List RecursiveData → List RecursiveData
add_key is_num alias k [] =
    with_key is_num k (record { alias = alias; slice_len = pos 0; form_keys = [] }) ∷ []
add_key is_num alias k (rd ∷ dm) =
    let rest = add_key is_num alias k dm in
    if text_eq rd.alias alias then with_key is_num k rd ∷ dm else rd ∷ rest

-- the key between the bracket at `idx` and the one at `i`
unfoldable pub key_at : Text → Cursor → ℕ → FormKey
key_at k cur i =
    let inner = slice_from (suc cur.idx) (slice_to i k) in
    record {
      ivalue = if cur.is_num then atoi_value (atoi inner) else negsuc 0;
      value = inner;
      search_value = slice_from cur.idx (slice_to (suc i) k);
    }

-- the loop over the bytes of a key, with those from `i` on
unfoldable pub scan_key : Text → ℕ → Text → Cursor → List RecursiveData → List RecursiveData
scan_key k i [] cur dm = dm
scan_key k i (c ∷ s) cur dm =
    let opened =
      scan_key k (suc i) s (record { idx = i; inside_bracket = true; is_num = true }) dm in
    let skipped = scan_key k (suc i) s cur dm in
    let closed =
      scan_key k (suc i) s (record cur { inside_bracket = false })
        (add_key cur.is_num (slice_to cur.idx k) (key_at k cur i) dm) in
    let not_num = scan_key k (suc i) s (record cur { is_num = false }) dm in
    if c == b'['
    then opened
    else if c == b']'
    then (if cur.inside_bracket then closed else skipped)
    else if cur.inside_bracket && not (is_digit c)
    then not_num
    else skipped

abbrev pub start_cursor : Cursor
start_cursor = record { idx = 0; inside_bracket = false; is_num = false }

unfoldable pub scan_keys : List Text → List RecursiveData → List RecursiveData
scan_keys [] dm = dm
scan_keys (k ∷ ks) dm = scan_keys ks (scan_key k 0 k start_cursor dm)

-- `parseMapData`
unfoldable pub parse_map_data : List Text → List RecursiveData → List RecursiveData
parse_map_data ks [] = scan_keys ks []
parse_map_data ks (rd ∷ dm) = rd ∷ dm

unfoldable pub find_alias : Text → List RecursiveData → Option RecursiveData
find_alias ns [] = none
find_alias ns (rd ∷ dm) =
    let rest = find_alias ns dm in if text_eq rd.alias ns then some rd else rest

-- `rd.sliceLen + 1` of int64
unfoldable pub next_int64 : ℤ → ℤ
next_int64 (pos n) = if ltb n (2 ^ 63 - 1) then pos (n + 1) else negsuc (2 ^ 63 - 1)
next_int64 (negsuc zero) = pos 0
next_int64 (negsuc (suc n)) = negsuc n

-- the slice of a field: refused, made with that many items, or a panic of `reflect.MakeSlice`
pub data Room : Type 0 where
  exceeds : ℤ → Room
  made : ℕ → Room
  panics : Room

unfoldable pub make_slice : ℤ → Room
make_slice (pos n) = made n
make_slice (negsuc n) = panics

-- for a field that is nil
unfoldable pub slice_room : ℤ → RecursiveData → Room
slice_room max_array_size rd =
    let sl = next_int64 rd.slice_len in
    if ltb_ℤ max_array_size sl then exceeds sl else make_slice sl

-- whether the value of a key is put into the slice of that length
unfoldable pub is_placed : ℕ → FormKey → Bool
is_placed n k = not (ltb_ℤ k.ivalue (pos 0)) && ltb_ℤ k.ivalue (pos n)

unfoldable pub is_listed : Text → List Text → Bool
is_listed s [] = false
is_listed s (t ∷ ts) = text_eq s t || is_listed s ts

-- `parseBool`
unfoldable pub parse_form_bool : Text → Option Bool
parse_form_bool s =
    if is_listed s (
      codes "1"
      ∷ codes "t"
      ∷ codes "T"
      ∷ codes "true"
      ∷ codes "TRUE"
      ∷ codes "True"
      ∷ codes "on"
      ∷ codes "yes"
      ∷ codes "ok"
      ∷ [])
    then some true
    else if is_listed s (
        []
        ∷ codes "0"
        ∷ codes "f"
        ∷ codes "F"
        ∷ codes "false"
        ∷ codes "FALSE"
        ∷ codes "False"
        ∷ codes "off"
        ∷ codes "no"
        ∷ [])
    then some false
    else none

-- the scalar kinds, integers by their number of bits
pub data Target : Type 0 where
  string_kind bool_kind : Target
  uint_kind int_kind : ℕ → Target

-- what becomes of a field
pub data Field : Type 0 where
  unset invalid : Field
  set_string : Text → Field
  set_uint : ℕ → Field
  set_int : ℤ → Field
  set_bool : Bool → Field

unfoldable pub uint_field : Parsed ℕ → Field
uint_field (number n) = set_uint n
uint_field syntax = invalid
uint_field (range n) = invalid

unfoldable pub int_field : Parsed ℤ → Field
int_field (number n) = set_int n
int_field syntax = invalid
int_field (range n) = invalid

unfoldable pub bool_field : Option Bool → Field
bool_field none = invalid
bool_field (some b) = set_bool b

abbrev pub unless_blank : Text → Field → Field
unless_blank [] f = unset
unless_blank (c ∷ s) f = f

-- the cases of `setFieldByType`, for the cleaned value of a key that is there
unfoldable pub set_scalar : Target → Text → Field
set_scalar string_kind s = set_string s
set_scalar bool_kind s = bool_field (parse_form_bool s)
set_scalar (uint_kind bits) s = unless_blank s (uint_field (parse_uint (2 ^ bits - 1) s))
set_scalar (int_kind bits) s = unless_blank s (int_field (parse_int (2 ^ (bits - 1)) s))
