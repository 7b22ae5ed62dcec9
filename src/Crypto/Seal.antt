-- ===== src/Crypto/Seal.antt =====
-- Encryption and decryption together, over a cipher that opens what it has sealed.
use kiya.Base.{
  ℕ, ◌≤◌, ◌≡◌, refl, ap, true, false, [], ◌∷◌, ◌++◌, some, arith, length, ltb, length-append,
}
use kiya.Text.{Text, slice_to, slice_from}
use kiya.Crypto.{ok, Cipher, is_nil, seal_with, encrypt, opened, open_bytes, open_decoded, decrypt}

slice_to-append : (s t : Text) → slice_to (length s) (s ++ t) ≡ s
unfolding slice_to
slice_to-append [] t = refl
slice_to-append (c ∷ s) t = ap (λ r. c ∷ r) (slice_to-append s t)

slice_from-append : (s t : Text) → slice_from (length s) (s ++ t) ≡ t
unfolding slice_from
slice_from-append [] t = refl
slice_from-append (c ∷ s) t = slice_from-append s t

-- a key that both packages take
pub record IsKey (cipher : Cipher) (key : Text) : Type 0 where
  pub set : is_nil key ≡ false
  pub accepted : cipher.accepts_key key ≡ true
  pub gcm_accepted : cipher.gcm_accepts_key key ≡ true

-- what the packages document
pub record Opens (cipher : Cipher) : Type 0 where
  pub decode-encode : (s : Text) → cipher.decode (cipher.encode s) ≡ some s
  pub encode-nonempty : (c : ℕ) (s : Text) → is_nil (cipher.encode (c ∷ s)) ≡ false
  pub positive : 1 ≤ cipher.nonce_size
  pub open-sealed :
      (key nonce plaintext : Text)
      → cipher.opens key nonce (cipher.sealed key nonce plaintext) ≡ some plaintext

long_enough : (nonce rest : Text) → ltb (length (nonce ++ rest)) (length nonce) ≡ false
long_enough nonce rest = ground (arith, length-append nonce rest)

-- the text that `encrypt` gives
abbrev pub token_of : Cipher → Text → Text → Text → Text
token_of cipher key nonce plaintext = cipher.encode (nonce ++ cipher.sealed key nonce plaintext)

pub encrypt_ok :
    (cipher : Cipher) (key nonce plaintext : Text)
    → IsKey cipher key
    → encrypt cipher plaintext key (some nonce) ≡ ok (token_of cipher key nonce plaintext)
unfolding encrypt seal_with
encrypt_ok cipher key nonce plaintext k = rw (k.set, k.accepted, k.gcm_accepted) refl

open_bytes_lem :
    (cipher : Cipher) (key nonce rest : Text)
    → IsKey cipher key
    → length nonce ≡ cipher.nonce_size
    → open_bytes cipher key (nonce ++ rest) ≡ opened cipher (cipher.opens key nonce rest)
unfolding open_bytes
open_bytes_lem cipher key nonce rest k n =
    rw (k.accepted, k.gcm_accepted)
      (rw⁻¹ n (
        rw (long_enough nonce rest, slice_to-append nonce rest, slice_from-append nonce rest) refl))

-- With a key that the cipher takes and a nonce of its size, encryption succeeds, and the
-- decryption of its text with the same key gives the plaintext back.
pub decrypt-encrypt :
    (cipher : Cipher) (key nonce plaintext : Text)
    → Opens cipher
    → IsKey cipher key
    → length nonce ≡ cipher.nonce_size
    → (encrypt cipher plaintext key (some nonce) ≡ ok (token_of cipher key nonce plaintext))
      × (decrypt cipher (token_of cipher key nonce plaintext) key ≡ ok plaintext)
decrypt-encrypt cipher key nonce plaintext laws k n = (
  encrypt_ok cipher key nonce plaintext k,
  unfold decrypt open_decoded opened in
      rw (k.set, laws.decode-encode (nonce ++ cipher.sealed key nonce plaintext))
        (rw (open_bytes_lem cipher key nonce (cipher.sealed key nonce plaintext) k n)
          (rw (laws.open-sealed key nonce plaintext) refl)),
)

pub token_of-nonempty :
    (cipher : Cipher) (key nonce plaintext : Text)
    → Opens cipher
    → length nonce ≡ cipher.nonce_size
    → is_nil (token_of cipher key nonce plaintext) ≡ false
token_of-nonempty cipher key [] plaintext laws n = absurd (omega (arith, laws.positive))
token_of-nonempty cipher key (c ∷ nonce) plaintext laws n =
    laws.encode-nonempty c (nonce ++ cipher.sealed key (c ∷ nonce) plaintext)
