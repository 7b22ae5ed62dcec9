-- ===== src/Util.antt =====
-- internal/util: HTMLEscape on valid UTF-8, where the bytes that it replaces are no part of another character,
-- and RealIP. What the package net makes of addresses is an argument.
pub mod Escaped
pub mod Forwarded
pub mod Tests
use kiya.Base.{
  ℕ, Bool, true, false, ◌&&◌, List, [], ◌∷◌, ◌++◌, Option, none, some, if◌then◌else◌, ◌==◌,
}
use kiya.Text.{split_first, split_at, Text, codes, trim_space}

-- one character of `HTMLEscape`; 34 and 39 are the quotes
unfoldable pub escape_byte : ℕ → Text
escape_byte c =
    if c == b'&'
    then codes "&amp;"
    else if c == b'<'
    then codes "&lt;"
    else if c == b'>'
    then codes "&gt;"
    else if c == 34
    then codes "&quot;"
    else if c == 39
    then codes "&#39;"
    else c ∷ []

-- `HTMLEscape`
unfoldable pub html_escape : Text → Text
html_escape [] = []
html_escape (c ∷ s) = escape_byte c ++ html_escape s

-- `net.SplitHostPort`, where `none` is an error, and `IsPrivateIP`
pub record Addresses : Type 0 where
  pub host_of : Text → Option Text
  pub is_private : Text → Bool

unfoldable pub some_part : Text → Option Text
some_part [] = none
some_part (c ∷ s) = some (c ∷ s)

-- the loop over the parts, from the last one on
unfoldable pub last_part : List Text → Option Text
last_part [] = none
last_part (p ∷ ps) = or_part (last_part ps) (some_part (trim_space p))
  where
    or_part : Option Text → Option Text → Option Text
    or_part (some found) here = some found
    or_part none here = here

unfoldable pub remote_ip : Addresses → Text → Text
remote_ip net remote_addr = host_or (net.host_of remote_addr)
  where
    host_or : Option Text → Text
    host_or none = remote_addr
    host_or (some host) = host

-- the headers X-Forwarded-For and X-Real-IP, empty where they are missing, against the address of the connection
unfoldable pub forwarded_ip : Option Text → Text → Text → Text
forwarded_ip (some ip) real_ip remote = ip
forwarded_ip none [] remote = remote
forwarded_ip none (c ∷ s) remote = c ∷ s

-- `RealIP`; `trusted` is `TrustProxyHeaders`
unfoldable pub real_ip : Addresses → Bool → Text → Text → Text → Text
real_ip net trusted remote_addr forwarded_for x_real_ip =
    let remote = remote_ip net remote_addr in
    let forwarded = forwarded_ip (last_part (split_at b',' forwarded_for)) x_real_ip remote in
    if net.is_private remote && trusted then forwarded else remote
