-- ===== src/Util/Forwarded.antt =====
-- The address of a client behind a proxy that appends it to X-Forwarded-For.
use kiya.Base.{
  ℕ, ◌≡◌, refl, Bool, true, not, ◌&&◌, List, [], ◌∷◌, ◌++◌, some, if◌then◌else◌, ◌==◌, arith,
  Bool-cases, inl, inr,
}
use kiya.Text.{split_first, split_at, Text, all_in, trim_space}
use kiya.Util.{Addresses, some_part, last_part, forwarded_ip, remote_ip, real_ip}

abbrev pub not_comma : ℕ → Bool
not_comma c = not (c == b',')

split_first-plain : (s : Text) → all_in not_comma s ≡ true → split_first b',' s ≡ (s, [])
unfolding split_first all_in
split_first-plain [] h = refl
split_first-plain (c ∷ s) h = rw (split_first-plain s (ground arith)) (ground arith)

last_part-cons :
    (p : Text) (ps : List Text) (ip : Text) → last_part ps ≡ some ip → last_part (p ∷ ps) ≡ some ip
unfolding last_part
last_part-cons p ps ip h = rw h refl

last_part-one : (p ip : Text) → some_part (trim_space p) ≡ some ip → last_part (p ∷ []) ≡ some ip
unfolding last_part
last_part-one p ip h = h

split_first-appended :
    (forged appended ip : Text)
    → all_in not_comma appended ≡ true
    → some_part (trim_space appended) ≡ some ip
    → last_part (split_first b',' (forged ++ b',' ∷ appended)).1 ≡ some ip
unfolding split_first
split_first-appended [] appended ip h e =
    rw (split_first-plain appended h) (last_part-one appended ip e)
split_first-appended (c ∷ forged) appended ip h e =
    let ih = split_first-appended forged appended ip h e in
    elim (Bool-cases (c == b',')) [ inl t ↦ rw t (last_part-cons _ _ ip ih) | inr t ↦ rw t ih ]

-- Where the headers of proxies are trusted and the connection is from a private address: whatever stands in
-- X-Forwarded-For in front of the last comma and in X-Real-IP, the address is the one behind that comma,
-- without the space around it, if it is not blank. Otherwise the headers have no part in the answer.
pub real_ip-appended :
    (net : Addresses) (trusted : Bool) (remote_addr forged appended ip x_real_ip : Text)
    → all_in not_comma appended ≡ true
    → some_part (trim_space appended) ≡ some ip
    → real_ip net trusted remote_addr (forged ++ b',' ∷ appended) x_real_ip ≡ (
        if net.is_private (remote_ip net remote_addr) && trusted
        then ip
        else remote_ip net remote_addr)
unfolding real_ip forwarded_ip split_at
real_ip-appended net trusted remote_addr forged appended ip x_real_ip h e =
    rw
      (last_part-cons (split_first b',' (forged ++ b',' ∷ appended)).0 _ ip
        (split_first-appended forged appended ip h e))
      refl
