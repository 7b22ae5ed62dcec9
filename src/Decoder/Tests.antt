-- ===== src/Decoder/Tests.antt =====
-- The keys of a form with items, one of them with a number that int64 does not hold.
use kiya.Base.{◌^◌, ◌-◌, ◌≡◌, refl, true, List, [], ◌∷◌, some}
use kiya.Base.Int.{pos}
use kiya.Text.{Text, codes, text_eq, is_digit, slice_to, slice_from}
use kiya.Strconv.{atoi, parse_int, parse_uint, scan, with_sign}
use kiya.Decoder.{
  RecursiveData, panics, set_scalar, bool_kind, set_bool, parse_map_data, scan_keys, scan_key,
  add_key, with_key, key_at, atoi_value, find_alias, slice_room, next_int64, make_slice,
  parse_form_bool, bool_field, is_listed,
}

abbrev item_keys : List Text
item_keys = codes "items[0][name]" ∷ codes "items[2]" ∷ codes "title" ∷ []

abbrev items : RecursiveData
items = record {
  alias = codes "items";
  slice_len = pos 2;
  form_keys =
      record { ivalue = pos 0; value = codes "0"; search_value = codes "[0]" }
      ∷ record { ivalue = pos 2; value = codes "2"; search_value = codes "[2]" }
      ∷ [];
}

abbrev huge : RecursiveData
huge = record {
  alias = codes "a";
  slice_len = pos (2 ^ 63 - 1);
  form_keys =
      record {
        ivalue = pos (2 ^ 63 - 1);
        value = codes "99999999999999999999";
        search_value = codes "[99999999999999999999]";
      }
      ∷ [];
}

find_alias-huge :
    find_alias (codes "a") (parse_map_data (codes "a[99999999999999999999]" ∷ []) []) ≡ some huge
unfolding find_alias parse_map_data scan_keys scan_key add_key with_key key_at atoi_value atoi
    parse_int parse_uint scan with_sign slice_to slice_from text_eq is_digit codes
find_alias-huge = refl

slice_room-huge : slice_room (pos 1000) huge ≡ panics
unfolding slice_room next_int64 make_slice codes
slice_room-huge = refl

set_scalar-on : set_scalar bool_kind (codes "on") ≡ set_bool true
unfolding set_scalar bool_field parse_form_bool is_listed text_eq codes
set_scalar-on = refl
