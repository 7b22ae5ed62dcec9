-- ===== src/Limit.antt =====
-- internal/security/ratelimit.go: the token bucket of each key, in shards of bounded size. Times are
-- exact: `one` units are a token, `rate` units are added for each nanosecond, and the rounding of float64
-- is not modelled. The burst is positive, as kiya.go, the only caller of NewStore, makes it. Every
-- operation on a shard runs under the shard's lock, so locks are not modelled.
pub mod Bound
pub mod Shards
pub mod Tests
use kiya.Base.{
  ℕ, zero, suc, ◌+◌, ◌-◌, ◌*◌, ◌/◌, ◌%◌, ◌^◌, Bool, true, false, List, [], ◌∷◌, Option, none, some,
  ltb, leb, length, if◌then◌else◌,
}
use kiya.Text.{Text, text_eq}

-- `rate`, `burst` and `ttl` of `Store`
pub record Limits : Type 0 where
  pub one : ℕ
  pub rate : ℕ
  pub burst : ℕ
  pub ttl : ℕ

-- `rateLimiter`
pub record Limiter : Type 0 where
  pub tokens : ℕ
  pub last : ℕ

-- `rateLimitShard`
abbrev pub Shard : Type 0
Shard = List (Text × Limiter)

abbrev pub max_entries : ℕ
max_entries = 10000

abbrev pub delete_count : ℕ
delete_count = max_entries / 10

-- `now.Sub(lim.last)`, or 0 where it is negative
unfoldable pub elapsed : ℕ → ℕ → ℕ
elapsed now last = if ltb now last then 0 else now - last

unfoldable pub capped : ℕ → ℕ → ℕ
capped cap tokens = if ltb cap tokens then cap else tokens

unfoldable pub refilled : Limits → ℕ → Limiter → ℕ
refilled s now lim = capped (s.burst * s.one) (lim.tokens + elapsed now lim.last * s.rate)

-- the end of `Allow`, with the tokens after the refill
unfoldable pub take_token : Limits → ℕ → ℕ → Bool × Limiter
take_token s now tokens =
    if ltb tokens s.one
    then (false, record { tokens = tokens; last = now })
    else (true, record { tokens = tokens - s.one; last = now })

-- `Allow` for a key that has a limiter
unfoldable pub allow_known : Limits → ℕ → Limiter → Bool × Limiter
allow_known s now lim = take_token s now (refilled s now lim)

unfoldable pub new_limiter : Limits → ℕ → Limiter
new_limiter s now = record { tokens = (s.burst - 1) * s.one; last = now }

unfoldable pub limiter_of : Text → Shard → Option Limiter
limiter_of key [] = none
limiter_of key ((k, lim) ∷ shard) =
    let rest = limiter_of key shard in if text_eq k key then some lim else rest

-- `shard.limiters[key] = lim`
unfoldable pub set_limiter : Text → Limiter → Shard → Shard
set_limiter key lim [] = (key, lim) ∷ []
set_limiter key lim ((k, old) ∷ shard) =
    let rest = set_limiter key lim shard in
    if text_eq k key then (key, lim) ∷ shard else (k, old) ∷ rest

-- `delete(shard.limiters, key)`
unfoldable pub delete_key : Text → Shard → Shard
delete_key key [] = []
delete_key key ((k, lim) ∷ shard) =
    let rest = delete_key key shard in if text_eq k key then shard else (k, lim) ∷ rest

-- the inner loop of `evictOldest` from `j = i + 1`: what stands at i after it, and what stands behind
unfoldable pub exchange : Text × Limiter → Shard → (Text × Limiter) × Shard
exchange e [] = (e, [])
exchange (k, lim) ((k', lim') ∷ rest) =
    let (kept, passed) = exchange (k, lim) rest in
    let (taken, passed') = exchange (k', lim') rest in
    if ltb lim'.last lim.last then (taken, (k, lim) ∷ passed') else (kept, (k', lim') ∷ passed)

-- The outer loop; the fuel is the number of entries that are left.
unfoldable pub sort_oldest : ℕ → Shard → Shard
sort_oldest zero shard = shard
sort_oldest (suc n) [] = []
sort_oldest (suc n) (e ∷ shard) =
    let (oldest, rest) = exchange e shard in oldest ∷ sort_oldest n rest

unfoldable pub delete_first : ℕ → Shard → Shard → Shard
delete_first zero entries shard = shard
delete_first (suc n) [] shard = shard
delete_first (suc n) ((k, lim) ∷ entries) shard = delete_first n entries (delete_key k shard)

unfoldable pub evict_oldest : Shard → Shard
evict_oldest shard = delete_first delete_count (sort_oldest (length shard) shard) shard

unfoldable pub with_room : Shard → Shard
with_room shard = if leb max_entries (length shard) then evict_oldest shard else shard

unfoldable pub allow_entry : Limits → Text → ℕ → Shard → Option Limiter → Bool × Shard
allow_entry s key now shard none = (true, set_limiter key (new_limiter s now) (with_room shard))
allow_entry s key now shard (some lim) =
    let (allowed, after) = allow_known s now lim in (allowed, set_limiter key after shard)

-- `Allow` on the shard of the key
unfoldable pub allow_in : Limits → Text → ℕ → Shard → Bool × Shard
allow_in s key now shard = allow_entry s key now shard (limiter_of key shard)

-- one tick of `cleanup` on a shard
unfoldable pub cleanup_shard : Limits → ℕ → Shard → Shard
cleanup_shard s now [] = []
cleanup_shard s now ((k, lim) ∷ shard) =
    let rest = cleanup_shard s now shard in
    if ltb s.ttl (elapsed now lim.last) then rest else (k, lim) ∷ rest

-- The exclusive or of two bytes, for `fnv.New32a`.
unfoldable pub xor_bits : ℕ → ℕ → ℕ → ℕ
xor_bits zero a b = 0
xor_bits (suc n) a b = (a + b) % 2 + 2 * xor_bits n (a / 2) (b / 2)

unfoldable pub fnv_round : ℕ → ℕ → ℕ
fnv_round h c = (h - h % 256 + xor_bits 8 (h % 256) c) * 16777619 % 2 ^ 32

unfoldable pub fnv_from : ℕ → Text → ℕ
fnv_from h [] = h
fnv_from h (c ∷ s) = fnv_from (fnv_round h c) s

-- `getShard`
unfoldable pub shard_of : Text → ℕ
shard_of key = fnv_from 2166136261 key % 32

-- `Store.shards`
abbrev pub Shards : Type 0
Shards = ℕ → Shard

-- `Allow`
unfoldable pub allow : Limits → Text → ℕ → Shards → Bool × Shards
allow s key now shards =
    let (allowed, shard) = allow_in s key now (shards (shard_of key)) in
    (
      allowed,
      λ i.
          if leb i (shard_of key)
          then (if leb (shard_of key) i then shard else shards i)
          else shards i,
    )
