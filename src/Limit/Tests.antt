-- ===== src/Limit/Tests.antt =====
-- Buckets and shards at concrete inputs: a token is 1000 units, and a unit is added each nanosecond.
use kiya.Base.{ℕ, ◌≡◌, refl, ◌+◌, ◌*◌, ◌≤◌, true, List, [], ◌∷◌, some, length, arith}
use kiya.Text.{codes}
use kiya.Limit.{
  Limits, Limiter, Shard, max_entries, elapsed, capped, refilled, take_token, allow_known,
  new_limiter, limiter_of, set_limiter, with_room, allow_entry, allow_in, cleanup_shard, fnv_from,
  fnv_round, xor_bits, shard_of, allow, evict_oldest, delete_first, delete_key, sort_oldest,
  exchange,
}
use kiya.Limit.Bound.{served, sum, served-bounded, allow_known-refilled}
use kiya.Limit.Shards.{own_bucket, allow_in-bounded, allow_in-isolated}

abbrev limits : Limits
limits = record { one = 1000; rate = 1; burst = 2; ttl = 5000 }

abbrev gaps : List ℕ
gaps = 0 ∷ 0 ∷ 1500 ∷ 100 ∷ []

served-gaps : served limits (new_limiter limits 10) gaps ≡ 2
unfolding served new_limiter allow_known take_token refilled capped elapsed
served-gaps = refl

served-bounded_example :
    (1 + served limits (new_limiter limits 10) gaps) * 1000 ≤ 2 * 1000 + sum gaps * 1
served-bounded_example = served-bounded limits 10 gaps (omega arith)

abbrev empty_bucket : Limiter
empty_bucket = record { tokens = 0; last = 10 }

allow_known-refilled_example : (allow_known limits (10 + 1000) empty_bucket).0 ≡ true
allow_known-refilled_example =
    allow_known-refilled limits empty_bucket 1000 (omega arith) (omega arith)

abbrev shard : Shard
shard = (codes "ip:1", empty_bucket) ∷ (codes "ip:12", record { tokens = 500; last = 9000 }) ∷ []

cleanup-shard : length (cleanup_shard limits 6000 shard) ≡ 1
unfolding cleanup_shard elapsed
cleanup-shard = refl

sort-oldest-shard : length (sort_oldest 2 shard) ≡ 2
unfolding sort_oldest exchange evict_oldest delete_first delete_key
sort-oldest-shard = refl

-- the hash of `fnv.New32a` on "a" is 0xe40c292c
fnv_from-a : fnv_from 2166136261 (codes "a") ≡ 3826002220
unfolding fnv_from fnv_round xor_bits codes
fnv_from-a = refl

allow-a : (allow limits (codes "a") 10 (λ i. [])).0 ≡ true
unfolding allow shard_of fnv_from fnv_round xor_bits codes allow_in allow_entry limiter_of with_room
    set_limiter
allow-a = refl

allow_in-bounded_example : length (allow_in limits (codes "ip:3") 6000 shard).1 ≤ max_entries
allow_in-bounded_example = allow_in-bounded limits (codes "ip:3") 6000 shard (omega arith)

allow_in-isolated_example :
    ((allow_in limits (codes "ip:1") 6000 shard).0
      ≡ (own_bucket limits 6000 (limiter_of (codes "ip:1") shard)).0)
    × (limiter_of (codes "ip:1") (allow_in limits (codes "ip:1") 6000 shard).1
        ≡ some (own_bucket limits 6000 (limiter_of (codes "ip:1") shard)).1)
    × (limiter_of (codes "ip:12") (allow_in limits (codes "ip:1") 6000 shard).1
        ≡ limiter_of (codes "ip:12") shard)
unfolding codes
allow_in-isolated_example =
    allow_in-isolated limits (codes "ip:1") (codes "ip:12") 6000 shard (λ e. cc) (omega arith)
