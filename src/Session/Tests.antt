-- ===== src/Session/Tests.antt =====
-- A session that is changed, saved with a failure and read.
use kiya.Base.{◌≡◌, refl, true, false, List, [], ◌∷◌, none, some}
use kiya.Base.Int.{pos, negsuc}
use kiya.Text.{codes, text_eq}
use kiya.Session.{
  int, text, Raw, value_of, set_value, delete_value, new_session, get, change, set, delete, flash,
  get_flash, take_flash, save, save_when, keys, Floats, get_bool, bool_of, parse_bool, hex,
}
use kiya.Session.Saving.{Call, call_set, call_save, call_get_flash, call_flash, run, step}
use kiya.Session.Values.{read_flash, get_flash-flash}

abbrev raw_session : Raw
raw_session = record {
  id = codes "a1";
  values = (codes "name", text (codes "Ani")) ∷ [];
  max_age = pos 3600;
}

abbrev calls : List Call
calls =
    call_flash (codes "notice") (text (codes "saved"))
    ∷ call_save false
    ∷ call_get_flash (codes "notice")
    ∷ call_set (codes "age") (int (pos 30))
    ∷ []

dirty-run : (run calls (new_session raw_session)).dirty ≡ true
unfolding run step new_session flash set change save save_when get_flash take_flash get value_of
    set_value delete delete_value text_eq codes
dirty-run = refl

keys-run : keys (run calls (new_session raw_session)) ≡ codes "name" ∷ codes "age" ∷ []
unfolding run step new_session flash set change save save_when get_flash take_flash get value_of
    set_value delete delete_value text_eq codes keys
keys-run = refl

get_flash-flash_example :
    (get_flash
        (codes "notice")
        (flash (codes "notice") (text (codes "saved")) (new_session raw_session))
      ≡ (
        some (text (codes "saved")),
        read_flash (codes "notice") (text (codes "saved")) (new_session raw_session),
      ))
    × (get_flash
          (codes "notice")
          (read_flash (codes "notice") (text (codes "saved")) (new_session raw_session))
        ≡ (none, read_flash (codes "notice") (text (codes "saved")) (new_session raw_session)))
    × (get
          (codes "name")
          (read_flash (codes "notice") (text (codes "saved")) (new_session raw_session))
        ≡ get (codes "name") (new_session raw_session))
get_flash-flash_example =
    get_flash-flash (codes "notice") (codes "name") (text (codes "saved")) (new_session raw_session)
      (unfold text_eq codes in refl)

-- floats as whole numbers, printed as one byte
abbrev floats : Floats
floats = record {
  widen = λ f. f;
  truncate = λ f. pos f;
  of_int = λ z. elim z [ pos n ↦ n | negsuc n ↦ 0 ];
  format = λ f. f ∷ [];
  parse = λ t. none;
}

get_bool-text :
    get_bool (codes "on") (set (codes "on") (text (codes "true")) (new_session raw_session)) ≡ true
unfolding get_bool bool_of parse_bool get value_of set change set_value new_session text_eq codes
get_bool-text = refl

hex-bytes : hex (0 ∷ 175 ∷ []) ≡ codes "00af"
unfolding hex codes
hex-bytes = refl
