-- ===== src/Crypto/Tests.antt =====
-- A cipher that adds nothing but its key's first byte, and a session with an id.
use kiya.Base.{
  ◌+◌, ◌≡◌, ◌≤◌, refl, ◌↔◌, true, false, [], ◌∷◌, Option, none, some, arith, length, leb, ◌-◌, ◌^◌,
}
use kiya.Base.Int.{bits, pos, negsuc}
use kiya.Text.{Text, codes, all_in}
use kiya.Session.{Value, Session}
use kiya.Crypto.{
  ok, failed, ciphertext_too_short, Cipher, encrypt, decrypt, open_decoded, open_bytes, session_id,
  token_text, generate_csrf_token, verify_csrf_token, elapsed_bits, in_window,
}
use kiya.Crypto.Seal.{IsKey, Opens, token_of, decrypt-encrypt}
use kiya.Crypto.Csrf.{verify-generate}

abbrev pub key : Text
key = 7 ∷ 8 ∷ []

abbrev pub nonce : Text
nonce = 1 ∷ 2 ∷ []

-- the last byte as a tag
abbrev tagged : Text → Text → Text → Text
tagged k n plaintext = 99 ∷ plaintext

abbrev untagged : Text → Text → Text → Option Text
untagged k n [] = none
untagged k n (c ∷ s) = some s

abbrev pub cipher : Cipher
cipher = record {
  accepts_key = λ k. leb 2 (length k);
  gcm_accepts_key = λ k. true;
  nonce_size = 2;
  sealed = tagged;
  opens = untagged;
  encode = λ s. s;
  decode = λ s. some s;
}

pub key-IsKey : IsKey cipher key
key-IsKey = record { set = refl; accepted = refl; gcm_accepted = refl }

pub cipher-Opens : Opens cipher
cipher-Opens = record {
  decode-encode = λ s. refl;
  encode-nonempty = λ c s. refl;
  positive = omega arith;
  open-sealed = λ k n plaintext. refl;
}

decrypt-encrypt_example :
    (encrypt cipher (codes "text") key (some nonce) ≡ ok (token_of cipher key nonce (codes "text")))
    × (decrypt cipher (token_of cipher key nonce (codes "text")) key ≡ ok (codes "text"))
decrypt-encrypt_example =
    decrypt-encrypt cipher key nonce (codes "text") cipher-Opens key-IsKey refl

decrypt-short : decrypt cipher (1 ∷ []) key ≡ failed ciphertext_too_short
unfolding decrypt open_decoded open_bytes
decrypt-short = refl

abbrev session : Session
session = record {
  raw = record { id = codes "a1"; values = []; max_age = pos 3600 };
  dirty = false;
  stored = none;
}

-- what is printed of a missing value
abbrev show : Option Value → Text
show v = codes "<nil>"

abbrev token : Text
token = token_of cipher key nonce (token_text show session 100)

verify-generate_example :
    (generate_csrf_token show cipher (some session) key 100 (some nonce) ≡ ok token)
    × ((verify_csrf_token show cipher token (some session) key 7300 ≡ true) ↔ (
        (session_id show session ≡ session_id show session) × (100 ≤ 7300) × (7300 ≤ 100 + 7200)))
verify-generate_example =
    verify-generate show cipher key nonce session session 100 7300 cipher-Opens key-IsKey refl
      (unfold session_id all_in codes in refl) (omega arith) (omega arith)

-- A difference that wraps around is negative.
in_window-wraps : in_window 100 (negsuc (2 ^ 63 - 1)) ≡ false
unfolding in_window elapsed_bits bits
in_window-wraps = refl
