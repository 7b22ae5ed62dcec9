-- ===== src/Limit/Shards.antt =====
-- The shards of internal/security/ratelimit.go: their keys and their size.
use kiya.Base.{
  ℕ, zero, suc, ◌+◌, ◌≤◌, ◌<◌, ◌≡◌, ◌≢◌, refl, sym, ap, Bool, true, false, [], ◌∷◌, arith, ltb, leb,
  Bool-cases, Option-cases, inl, inr, length, Option, none, some,
}
use kiya.Text.{Text, text_eq}
use kiya.Text.Laws.{text_eq_iff}
use kiya.Limit.{
  Limits, Limiter, Shard, max_entries, limiter_of, set_limiter, delete_key, exchange, sort_oldest,
  delete_first, evict_oldest, with_room, allow_entry, allow_in, allow_known, new_limiter,
}

-- some entry of the shard has the key
data HasKey (key : Text) : Shard → Type 0 where
  here : {lim : Limiter} {shard : Shard} → HasKey key ((key, lim) ∷ shard)
  there : {e : Text × Limiter} {shard : Shard} → HasKey key shard → HasKey key (e ∷ shard)

delete_key-shorter : (key : Text) (shard : Shard) → length (delete_key key shard) ≤ length shard
unfolding delete_key
delete_key-shorter key [] = omega arith
delete_key-shorter key ((k, lim) ∷ shard) = elim (Bool-cases (text_eq k key)) [
  | inl e ↦ rw e (omega arith)
  | inr e ↦ rw e (omega (arith, delete_key-shorter key shard))
]

delete_key-HasKey :
    (key : Text) (shard : Shard)
    → HasKey key shard
    → length (delete_key key shard) + 1 ≤ length shard
unfolding delete_key
delete_key-HasKey key [] h = elim h [ ]
delete_key-HasKey key ((k, lim) ∷ shard) here = rw ((text_eq_iff key key).1 refl) (omega arith)
delete_key-HasKey key ((k, lim) ∷ shard) (there h) = elim (Bool-cases (text_eq k key)) [
  | inl e ↦ rw e (omega arith)
  | inr e ↦ rw e (omega (arith, delete_key-HasKey key shard h))
]

delete_first-shorter :
    (n : ℕ) (entries shard : Shard) → length (delete_first n entries shard) ≤ length shard
unfolding delete_first
delete_first-shorter zero entries shard = omega arith
delete_first-shorter (suc n) [] shard = omega arith
delete_first-shorter (suc n) ((k, lim) ∷ entries) shard =
    omega (arith, delete_first-shorter n entries (delete_key k shard), delete_key-shorter k shard)

-- what the inner loop puts at the place i is an entry of the shard
exchange-HasKey : (e : Text × Limiter) (rest : Shard) → HasKey (exchange e rest).0.0 (e ∷ rest)
unfolding exchange
exchange-HasKey (k, lim) [] = here
exchange-HasKey (k, lim) ((k', lim') ∷ rest) = elim (Bool-cases (ltb lim'.last lim.last)) [
  | inl e ↦ rw e (there (exchange-HasKey (k', lim') rest))
  | inr e ↦ rw e (skip (exchange-HasKey (k, lim) rest))
]
  where
    skip : {key : Text} → HasKey key ((k, lim) ∷ rest) → HasKey key ((k, lim) ∷ (k', lim') ∷ rest)
    skip here = here
    skip (there h) = there (there h)

delete_first-HasKey :
    (n : ℕ) (e : Text × Limiter) (entries shard : Shard)
    → HasKey e.0 shard
    → length (delete_first (suc n) (e ∷ entries) shard) + 1 ≤ length shard
unfolding delete_first
delete_first-HasKey n (k, lim) entries shard h =
    omega (arith, delete_first-shorter n entries (delete_key k shard), delete_key-HasKey k shard h)

sort-shard :
    (e : Text × Limiter) (shard : Shard)
    → sort_oldest (length (e ∷ shard)) (e ∷ shard)
      ≡ (exchange e shard).0 ∷ sort_oldest (length shard) (exchange e shard).1
unfolding sort_oldest
sort-shard e shard = refl

evict_oldest-shorter :
    (e : Text × Limiter) (shard : Shard)
    → length (evict_oldest (e ∷ shard)) + 1 ≤ length (e ∷ shard)
unfolding evict_oldest
evict_oldest-shorter e shard =
    rw (sort-shard e shard)
      (delete_first-HasKey 999 (exchange e shard).0 _ (e ∷ shard) (exchange-HasKey e shard))

with_room-bounded :
    (shard : Shard) → length shard ≤ max_entries → length (with_room shard) + 1 ≤ max_entries
unfolding with_room
with_room-bounded [] h = omega arith
with_room-bounded (e ∷ shard) h = elim (Bool-cases (leb max_entries (length (e ∷ shard)))) [
  | inl p ↦ rw p (omega (arith, evict_oldest-shorter e shard))
  | inr p ↦ rw p (ground arith)
]

set_limiter-length :
    (key : Text) (lim : Limiter) (shard : Shard)
    → length (set_limiter key lim shard) ≤ length shard + 1
unfolding set_limiter
set_limiter-length key lim [] = omega arith
set_limiter-length key lim ((k, old) ∷ shard) = elim (Bool-cases (text_eq k key)) [
  | inl e ↦ rw e (omega arith)
  | inr e ↦ rw e (omega (arith, set_limiter-length key lim shard))
]

set_limiter-known :
    (key : Text) (lim old : Limiter) (shard : Shard)
    → limiter_of key shard ≡ some old
    → length (set_limiter key lim shard) ≡ length shard
unfolding set_limiter limiter_of
set_limiter-known key lim old [] h = cc
set_limiter-known key lim old ((k, l) ∷ shard) h = elim (Bool-cases (text_eq k key)) [
  | inl e ↦ rw e refl
  | inr e ↦ rw e (ap suc (set_limiter-known key lim old shard (rw e at h)))
]

-- However many keys come, a shard never holds more than 10,000 of them.
pub allow_in-bounded :
    (s : Limits) (key : Text) (now : ℕ) (shard : Shard)
    → length shard ≤ max_entries
    → length (allow_in s key now shard).1 ≤ max_entries
unfolding allow_in allow_entry
allow_in-bounded s key now shard h = elim (Option-cases (limiter_of key shard)) [
  | inl e ↦ rw e (
      omega (
        arith,
        set_limiter-length key (new_limiter s now) (with_room shard),
        with_room-bounded shard h,
      ))
  | inr (lim, e) ↦ rw e (rw (set_limiter-known key (allow_known s now lim).1 lim shard e) h)
]

text_eq-other : (key other : Text) → other ≢ key → text_eq key other ≡ false
text_eq-other key other h = elim (Bool-cases (text_eq key other)) [
  | inl e ↦ absurd (h (sym ((text_eq_iff key other).0 e)))
  | inr e ↦ e
]

limiter_of-set_limiter :
    (key other : Text) (lim : Limiter) (shard : Shard)
    → other ≢ key
    → limiter_of other (set_limiter key lim shard) ≡ limiter_of other shard
unfolding limiter_of set_limiter
limiter_of-set_limiter key other lim [] h = rw (text_eq-other key other h) refl
limiter_of-set_limiter key other lim ((k, old) ∷ shard) h = elim (Bool-cases (text_eq k key)) [
  | inl e ↦
      rw (e, text_eq-other key other h)
        (rw ((text_eq_iff k key).0 e, text_eq-other key other h) refl)
  | inr e ↦ rw e (rw (limiter_of-set_limiter key other lim shard h) refl)
]

limiter_of-set_limiter_same :
    (key : Text) (lim : Limiter) (shard : Shard)
    → limiter_of key (set_limiter key lim shard) ≡ some lim
unfolding limiter_of set_limiter
limiter_of-set_limiter_same key lim [] = rw ((text_eq_iff key key).1 refl) refl
limiter_of-set_limiter_same key lim ((k, old) ∷ shard) = elim (Bool-cases (text_eq k key)) [
  | inl e ↦ rw e (rw ((text_eq_iff key key).1 refl) refl)
  | inr e ↦ rw e (rw e (limiter_of-set_limiter_same key lim shard))
]

with_room-below : (shard : Shard) → length shard < max_entries → with_room shard ≡ shard
unfolding with_room
with_room-below shard h = ground arith

-- A bucket by itself, where a new key gets a new one.
abbrev pub own_bucket : Limits → ℕ → Option Limiter → Bool × Limiter
own_bucket s now none = (true, new_limiter s now)
own_bucket s now (some lim) = allow_known s now lim

-- In a shard with fewer than 10,000 keys, a request is answered by the bucket of its key alone, that bucket is stored, and
-- the bucket of any other key stays as it is.
pub allow_in-isolated :
    (s : Limits) (key other : Text) (now : ℕ) (shard : Shard)
    → other ≢ key
    → length shard < max_entries
    → ((allow_in s key now shard).0 ≡ (own_bucket s now (limiter_of key shard)).0)
      × (limiter_of key (allow_in s key now shard).1
          ≡ some (own_bucket s now (limiter_of key shard)).1)
      × (limiter_of other (allow_in s key now shard).1 ≡ limiter_of other shard)
unfolding allow_in allow_entry
allow_in-isolated s key other now shard h room = elim (Option-cases (limiter_of key shard)) [
  | inl e ↦
      rw (e, with_room-below shard room)
        (refl, limiter_of-set_limiter_same key _ shard, limiter_of-set_limiter key other _ shard h)
  | inr (lim, e) ↦
      rw e
        (refl, limiter_of-set_limiter_same key _ shard, limiter_of-set_limiter key other _ shard h)
]
