-- ===== src/Session/Values.antt =====
-- Reads of a session after its writes.
use kiya.Base.{◌≡◌, refl, ◌∙◌, ap, false, [], ◌∷◌, none, some, if◌then◌else◌, arith}
use kiya.Base.Int.{ℤ}
use kiya.Text.{Text, text_eq}
use kiya.Text.Laws.{text_eq_refl, text_eq_iff}
use kiya.Strconv.{number, format_int, parse_int, int64_cutoff}
use kiya.Strconv.RoundTrip.{Fits, parse_int-format_int}
use kiya.Session.{
  Value, int, text, Values, Session, value_of, set_value, delete_value, get, change, set, delete,
  flash, flash_key, take_flash, get_flash, Floats, text_of, get_string, number_or_zero, int64_of,
  get_int64,
}

value_of-set_value :
    (k key : Text) (v : Value) (m : Values)
    → value_of k (set_value key v m) ≡ (if text_eq key k then some v else value_of k m)
unfolding value_of set_value
value_of-set_value k key v [] = refl
value_of-set_value k key v ((a, w) ∷ m) =
    ground
      (arith, value_of-set_value k key v m, text_eq_iff a key, text_eq_iff key k, text_eq_iff a k)

value_of-delete_value :
    (k key : Text) (m : Values)
    → value_of k (delete_value key m) ≡ (if text_eq key k then none else value_of k m)
unfolding value_of delete_value
value_of-delete_value k key [] = ground arith
value_of-delete_value k key ((a, w) ∷ m) =
    ground
      (arith, value_of-delete_value k key m, text_eq_iff a key, text_eq_iff key k, text_eq_iff a k)

get-set :
    (k key : Text) (v : Value) (s : Session)
    → get k (set key v s) ≡ (if text_eq key k then some v else get k s)
unfolding get set change
get-set k key v s = value_of-set_value k key v s.raw.values

get-delete :
    (k key : Text) (s : Session) → get k (delete key s) ≡ (if text_eq key k then none else get k s)
unfolding get delete change
get-delete k key s = value_of-delete_value k key s.raw.values

get_flash-some :
    (key : Text) (v : Value) (s : Session)
    → get (flash_key key) s ≡ some v
    → get_flash key s ≡ (some v, delete (flash_key key) s)
unfolding get_flash take_flash
get_flash-some key v s e = rw e refl

get_flash-none :
    (key : Text) (s : Session) → get (flash_key key) s ≡ none → get_flash key s ≡ (none, s)
unfolding get_flash take_flash
get_flash-none key s e = rw e refl

-- the session after a flash and its read
abbrev pub read_flash : Text → Value → Session → Session
read_flash key v s = delete (flash_key key) (flash key v s)

-- A flash is read once: the first read gives its value and the second one none, and the value of
-- any other key is what it was before the flash.
pub get_flash-flash :
    (key k : Text) (v : Value) (s : Session)
    → text_eq (flash_key key) k ≡ false
    → (get_flash key (flash key v s) ≡ (some v, read_flash key v s))
      × (get_flash key (read_flash key v s) ≡ (none, read_flash key v s))
      × (get k (read_flash key v s) ≡ get k s)
unfolding flash
get_flash-flash key k v s e = (
  get_flash-some key v (set (flash_key key) v s)
      (get-set (flash_key key) (flash_key key) v s ∙ rw (text_eq_refl (flash_key key)) refl),
  get_flash-none key (delete (flash_key key) (set (flash_key key) v s)) (
      get-delete (flash_key key) (flash_key key) (set (flash_key key) v s)
      ∙ rw (text_eq_refl (flash_key key)) refl),
  get-delete k (flash_key key) (set (flash_key key) v s)
      ∙ rw e (get-set k (flash_key key) v s ∙ rw e refl),
)

get_string-set :
    (floats : Floats) (key : Text) (n : ℤ) (s : Session)
    → get_string floats key (set key (int n) s) ≡ format_int n
unfolding get_string text_of
get_string-set floats key n s = rw (get-set key key (int n) s, text_eq_refl key) refl

get_int64-set :
    (floats : Floats) (key t : Text) (n : ℤ) (s : Session)
    → parse_int int64_cutoff t ≡ number n
    → get_int64 floats key (set key (text t) s) ≡ n
unfolding get_int64 int64_of number_or_zero
get_int64-set floats key t n s e = rw (get-set key key (text t) s, text_eq_refl key, e) refl

-- An int64 that is set as a number, read as a string and set as that string is read back as the
-- number it was, whatever the conversions of floats are.
pub get_int64-get_string :
    (floats : Floats) (key : Text) (n : ℤ) (s : Session)
    → Fits int64_cutoff n
    → get_int64 floats key (set key (text (get_string floats key (set key (int n) s))) s) ≡ n
get_int64-get_string floats key n s h =
    get_int64-set floats key (get_string floats key (set key (int n) s)) n s (
      ap (parse_int int64_cutoff) (get_string-set floats key n s)
      ∙ parse_int-format_int int64_cutoff n h)
