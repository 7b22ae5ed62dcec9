-- ===== src/Decoder/Bounds.antt =====
-- The indexes in the keys of a form against the length of the slice that is made for them.
use kiya.Base.{ℕ, suc, ◌-◌, ◌^◌, ◌≡◌, false, not, List, [], ◌∷◌, ◌⊎◌, if◌then◌else◌, ltb, All}
use kiya.Base.Int.{ℤ, pos, negsuc, ltb_ℤ}
use kiya.Text.{Text}
use kiya.Strconv.{Parsed, number, syntax, range, atoi}
use kiya.Decoder.{FormKey, RecursiveData, Room, exceeds, made, panics, is_placed}

-- a key whose index is at most `m`
abbrev pub IsUpTo : ℕ → FormKey → Type 0
IsUpTo m k = ltb_ℤ (pos m) k.ivalue ≡ false

-- the integer is the one that Atoi reads, 0 where it reads none
abbrev pub IsRead : ℤ → Parsed ℤ → Type 0
IsRead z (number n) = z ≡ n
IsRead z syntax = z ≡ pos 0
IsRead z (range n) = z ≡ n

-- a key without an index has -1, and one with an index what stands in its bracket
abbrev pub Reads : FormKey → Type 0
Reads k = (k.ivalue ≡ negsuc 0) ⊎ IsRead k.ivalue (atoi k.value)

abbrev pub HasIndex : ℕ → List FormKey → Type 0
HasIndex m [] = ⊥
HasIndex m (k ∷ ks) = (k.ivalue ≡ pos m) ⊎ HasIndex m ks

-- the greatest index of the keys, or 0 without one
pub record IsGreatest (m : ℕ) (ks : List FormKey) : Type 0 where
  pub bounds : All (IsUpTo m) ks
  pub attained : (m ≡ 0) ⊎ HasIndex m ks
  pub reads : All Reads ks

pub data InRange (rd : RecursiveData) : Type 0 where
  in_range : (m : ℕ) → rd.slice_len ≡ pos m → IsGreatest m rd.form_keys → InRange rd

-- the keys whose value goes into the slice are those with an index, all of them
abbrev pub PlacesAll : ℕ → RecursiveData → Type 0
PlacesAll n rd = All (λ k. is_placed n k ≡ not (ltb_ℤ k.ivalue (pos 0))) rd.form_keys

abbrev pub room_of : ℕ → ℕ → Room
room_of max_array_size m =
    if ltb m (2 ^ 63 - 1)
    then (if ltb max_array_size (suc m) then exceeds (pos (suc m)) else made (suc m))
    else panics
