-- ===== src/Crypto/Csrf.antt =====
-- A CSRF token from the session that it was made for to the session that it comes back with.
use kiya.Base.{
  ℕ, ◌+◌, ◌^◌, ◌≤◌, ◌<◌, ◌≡◌, refl, ◌↔◌, Bool, true, not, [], ◌∷◌, ◌++◌, Option, some, arith,
  length, ◌==◌,
}
use kiya.Base.Int.{bits, pos}
use kiya.Text.{Text, all_in}
use kiya.Text.Laws.{text_eq_iff}
use kiya.Strconv.{format_int, parse_int, int64_cutoff}
use kiya.Strconv.RoundTrip.{parse_int-format_int}
use kiya.Session.{Value, Session}
use kiya.Crypto.{
  ok, Cipher, cut_bar, elapsed_bits, in_window, timestamp_in_window, verify_parts, verify_plaintext,
  session_id, token_text, generate_csrf_token, verify_csrf_token,
}
use kiya.Crypto.Seal.{IsKey, Opens, token_of, encrypt_ok, decrypt-encrypt, token_of-nonempty}

abbrev pub not_bar : ℕ → Bool
not_bar c = not (c == b'|')

cut_bar-append : (id t : Text) → all_in not_bar id ≡ true → cut_bar (id ++ b'|' ∷ t) ≡ some (id, t)
unfolding cut_bar all_in
cut_bar-append [] t h = refl
cut_bar-append (c ∷ id) t h = rw (cut_bar-append id t (ground arith)) (ground arith)

in_window_iff :
    (now t : ℕ)
    → now < 2 ^ 63
    → t < 2 ^ 63
    → (in_window now (pos t) ≡ true) ↔ ((t ≤ now) × (now ≤ t + 7200))
unfolding in_window elapsed_bits bits
in_window_iff now t hn ht = ground arith

timestamp_in_window-format_int :
    (now t : ℕ)
    → t < 2 ^ 63
    → timestamp_in_window now (parse_int int64_cutoff (format_int (pos t))) ≡ in_window now (pos t)
unfolding timestamp_in_window
timestamp_in_window-format_int now t h = rw (parse_int-format_int int64_cutoff (pos t) h) refl

verify_plaintext_iff :
    (id ida : Text) (now t : ℕ)
    → all_in not_bar ida ≡ true
    → now < 2 ^ 63
    → t < 2 ^ 63
    → (verify_plaintext id now (ok (ida ++ b'|' ∷ format_int (pos t))) ≡ true)
      ↔ ((id ≡ ida) × (t ≤ now) × (now ≤ t + 7200))
unfolding verify_plaintext verify_parts
verify_plaintext_iff id ida now t h hn ht =
    rw (cut_bar-append ida (format_int (pos t)) h, timestamp_in_window-format_int now t ht)
      (ground (arith, text_eq_iff ida id, in_window_iff now t hn ht))

-- With a usable key and nonce, and before the end of int64 times: a session whose id has no `|`
-- gets a token, and the token is accepted of a session exactly if that session has the same id
-- and at most 7,200 seconds have gone by, and not before it was made.
pub verify-generate :
    (show : Option Value → Text) (cipher : Cipher) (key nonce : Text) (a b : Session) (t now : ℕ)
    → Opens cipher
    → IsKey cipher key
    → length nonce ≡ cipher.nonce_size
    → all_in not_bar (session_id show a) ≡ true
    → now < 2 ^ 63
    → t < 2 ^ 63
    → (generate_csrf_token show cipher (some a) key t (some nonce)
        ≡ ok (token_of cipher key nonce (token_text show a t)))
      × ((verify_csrf_token show cipher
              (token_of cipher key nonce (token_text show a t))
              (some b)
              key
              now
            ≡ true)
          ↔ ((session_id show b ≡ session_id show a) × (t ≤ now) × (now ≤ t + 7200)))
unfolding generate_csrf_token verify_csrf_token
verify-generate show cipher key nonce a b t now laws k n h hn ht = (
  rw k.set (encrypt_ok cipher key nonce (token_text show a t) k),
  rw
      (
        k.set,
        token_of-nonempty cipher key nonce (token_text show a t) laws n,
        (decrypt-encrypt cipher key nonce (token_text show a t) laws k n).1,
      )
      (unfold token_text in
        verify_plaintext_iff (session_id show b) (session_id show a) now t h hn ht),
)
