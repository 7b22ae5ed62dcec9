-- ===== src/Crypto.antt =====
-- internal/security/crypto.go: encryption with a key, and CSRF tokens. The ciphers of crypto/aes and crypto/cipher,
-- base64, the random nonce and the clock are arguments.
pub mod Seal
pub mod Csrf
pub mod Tests
use kiya.Base.{
  ℕ, zero, suc, ◌+◌, ◌-◌, ◌%◌, ◌^◌, Bool, true, false, ◌&&◌, ◌||◌, not, List, [], ◌∷◌, ◌++◌, Option,
  none, some, ltb, leb, ◌==◌, if◌then◌else◌, length,
}
use kiya.Base.Int.{bits, ℤ, pos, negsuc}
use kiya.Text.{slice_to, slice_from, Text, codes, text_eq}
use kiya.Strconv.{Parsed, number, syntax, range, format_int, parse_int, int64_cutoff}
use kiya.Session.{Value, Session, get}

pub data CryptError : Type 0 where
  key_not_configured create_cipher create_gcm generate_nonce : CryptError
  decode_base64 ciphertext_too_short open_failed session_not_available : CryptError

pub data Crypted : Type 0 where
  ok : Text → Crypted
  failed : CryptError → Crypted

-- the packages: `sealed` is `Seal` without the nonce it is appended to
pub record Cipher : Type 0 where
  pub accepts_key : Text → Bool
  pub gcm_accepts_key : Text → Bool
  pub nonce_size : ℕ
  pub sealed : Text → Text → Text → Text
  pub opens : Text → Text → Text → Option Text
  pub encode : Text → Text
  pub decode : Text → Option Text

abbrev pub is_nil : Text → Bool
is_nil [] = true
is_nil (c ∷ s) = false

-- `strings.SplitN(s, "|", 2)`, where one part only is `none`
unfoldable pub cut_bar : Text → Option (Text × Text)
cut_bar [] = none
cut_bar (c ∷ s) = let rest = longer c (cut_bar s) in if c == b'|' then some ([], s) else rest
  where
    longer : ℕ → Option (Text × Text) → Option (Text × Text)
    longer c none = none
    longer c (some (a, b)) = some (c ∷ a, b)

-- `now - timestamp` of int64
unfoldable pub elapsed_bits : ℕ → ℤ → ℕ
unfolding bits
elapsed_bits now timestamp = (bits (pos now) + 2 ^ 64 - bits timestamp) % 2 ^ 64

-- the negation of `elapsed < 0 || elapsed > 7200`
unfoldable pub in_window : ℕ → ℤ → Bool
unfolding elapsed_bits
in_window now timestamp =
    not (leb (2 ^ 63) (elapsed_bits now timestamp) || ltb 7200 (elapsed_bits now timestamp))

unfoldable pub timestamp_in_window : ℕ → Parsed ℤ → Bool
timestamp_in_window now syntax = false
timestamp_in_window now (range n) = false
timestamp_in_window now (number n) = in_window now n

-- the checks of the plaintext
unfoldable pub verify_parts : Text → ℕ → Option (Text × Text) → Bool
verify_parts id now none = false
verify_parts id now (some (token_id, timestamp)) =
    text_eq token_id id && timestamp_in_window now (parse_int int64_cutoff timestamp)

unfoldable pub verify_plaintext : Text → ℕ → Crypted → Bool
verify_plaintext id now (failed e) = false
verify_plaintext id now (ok plaintext) = verify_parts id now (cut_bar plaintext)

module _ (cipher : Cipher) where
  unfoldable pub seal_with : Text → Text → Option Text → Crypted
  seal_with key plaintext none = failed generate_nonce
  seal_with key plaintext (some nonce) =
      ok (cipher.encode (nonce ++ cipher.sealed key nonce plaintext))

  -- `Encrypt`, with what `io.ReadFull` gives as the nonce
  unfoldable pub encrypt : Text → Text → Option Text → Crypted
  encrypt plaintext key random =
      if is_nil key
      then failed key_not_configured
      else if not (cipher.accepts_key key)
      then failed create_cipher
      else if not (cipher.gcm_accepts_key key)
      then failed create_gcm
      else seal_with key plaintext random

  unfoldable pub opened : Option Text → Crypted
  opened none = failed open_failed
  opened (some plaintext) = ok plaintext

  unfoldable pub open_bytes : Text → Text → Crypted
  open_bytes key bytes =
      if not (cipher.accepts_key key)
      then failed create_cipher
      else if not (cipher.gcm_accepts_key key)
      then failed create_gcm
      else if ltb (length bytes) cipher.nonce_size
      then failed ciphertext_too_short
      else opened
          (cipher.opens key (slice_to cipher.nonce_size bytes) (slice_from cipher.nonce_size bytes))

  unfoldable pub open_decoded : Text → Option Text → Crypted
  open_decoded key none = failed decode_base64
  open_decoded key (some bytes) = open_bytes key bytes

  -- `Decrypt`
  unfoldable pub decrypt : Text → Text → Crypted
  decrypt encoded key =
      if is_nil key then failed key_not_configured else open_decoded key (cipher.decode encoded)

-- `show` is `fmt.Sprintf("%v", …)`, and `none` is nil
module _ (show : Option Value → Text) where
  unfoldable pub session_id : Session → Text
  session_id s = if is_nil s.raw.id then show (get (codes "_t") s) else s.raw.id

  unfoldable pub token_text : Session → ℕ → Text
  token_text s now = session_id s ++ b'|' ∷ format_int (pos now)

  -- `GenerateCSRFToken`; `none` is a nil session
  unfoldable pub generate_csrf_token : Cipher → Option Session → Text → ℕ → Option Text → Crypted
  generate_csrf_token cipher none key now random =
      if is_nil key then failed key_not_configured else failed session_not_available
  generate_csrf_token cipher (some s) key now random =
      if is_nil key then failed key_not_configured else encrypt cipher (token_text s now) key random

  -- `VerifyCSRFToken`
  unfoldable pub verify_csrf_token : Cipher → Text → Option Session → Text → ℕ → Bool
  verify_csrf_token cipher token none key now = false
  verify_csrf_token cipher token (some s) key now =
      if is_nil key || is_nil token
      then false
      else verify_plaintext (session_id s) now (decrypt cipher token key)
