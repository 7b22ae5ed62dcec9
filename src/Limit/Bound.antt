-- ===== src/Limit/Bound.antt =====
-- How many requests a bucket of internal/security/ratelimit.go lets through.
use kiya.Base.{
  ℕ, zero, suc, ◌+◌, ◌-◌, ◌*◌, ◌≤◌, ◌≡◌, Bool, true, false, List, [], ◌∷◌, arith, ltb,
  if◌then◌else◌,
}
use kiya.Limit.{Limits, Limiter, elapsed, capped, refilled, take_token, allow_known, new_limiter}

abbrev pub sum : List ℕ → ℕ
sum [] = 0
sum (g ∷ gaps) = g + sum gaps

abbrev pub one_if : Bool → ℕ
one_if true = 1
one_if false = 0

-- The number of allowed requests in a run, where each request comes some nanoseconds after the one before.
unfoldable pub served : Limits → Limiter → List ℕ → ℕ
served s lim [] = 0
served s lim (gap ∷ gaps) =
    let (allowed, after) = allow_known s (lim.last + gap) lim in
    one_if allowed + served s after gaps

elapsed_gap : (last gap : ℕ) → elapsed (last + gap) last ≡ gap
unfolding elapsed
elapsed_gap last gap = ground arith

capped_le : (cap tokens : ℕ) → capped cap tokens ≤ tokens
unfolding capped
capped_le cap tokens = ground arith

-- what a request takes and leaves
take_token_lem :
    (s : Limits) (now tokens : ℕ)
    → (one_if (take_token s now tokens).0 * s.one + (take_token s now tokens).1.tokens ≡ tokens)
      × ((take_token s now tokens).1.last ≡ now)
unfolding take_token
take_token_lem s now tokens = ground arith

refilled_le :
    (s : Limits) (lim : Limiter) (gap : ℕ)
    → refilled s (lim.last + gap) lim ≤ lim.tokens + gap * s.rate
unfolding refilled
refilled_le s lim gap = rw (elapsed_gap lim.last gap) (capped_le _ _)

step_bound :
    (one rate gap rest n a t u : ℕ)
    → a * one + u ≤ t + gap * rate
    → n * one ≤ u + rest * rate
    → (a + n) * one ≤ t + (gap + rest) * rate
step_bound one rate gap rest n a t u h k = grind arith

served_le :
    (s : Limits) (lim : Limiter) (gaps : List ℕ)
    → served s lim gaps * s.one ≤ lim.tokens + sum gaps * s.rate
unfolding served allow_known
served_le s lim [] = omega arith
served_le s lim (gap ∷ gaps) =
    let (allowed, after) = allow_known s (lim.last + gap) lim in
    let (taken, _) = take_token_lem s (lim.last + gap) (refilled s (lim.last + gap) lim) in
    step_bound s.one s.rate gap (sum gaps) (served s after gaps) (one_if allowed) lim.tokens
      after.tokens (omega (arith, taken, refilled_le s lim gap)) (served_le s after gaps)

not_one_le : ¬ (1 ≤ 0)
not_one_le h = omega arith

suc_sub : (b : ℕ) → suc b - 1 ≡ b
suc_sub b = omega arith

suc_times : (b one : ℕ) → b * one + one ≡ suc b * one
suc_times b one = grind arith

burst_split : (burst one : ℕ) → 1 ≤ burst → (burst - 1) * one + one ≡ burst * one
burst_split zero one h = absurd (not_one_le h)
burst_split (suc b) one h = rw (suc_sub b) (suc_times b one)

one_le_burst : (burst one : ℕ) → 1 ≤ burst → one ≤ burst * one
one_le_burst burst one h = grind arith

capped_ge : (one cap tokens : ℕ) → one ≤ cap → one ≤ tokens → one ≤ capped cap tokens
unfolding capped
capped_ge one cap tokens h k = ground arith

taken :
    (tokens one : ℕ) (x y : Limiter)
    → one ≤ tokens
    → (if◌then◌else◌ {A = Bool × Limiter} (ltb tokens one) (false, x) (true, y)).0 ≡ true
taken tokens one x y h = ground arith

first_bound :
    (one gained n t u : ℕ) → u + one ≡ t → n * one ≤ u + gained → (1 + n) * one ≤ t + gained
first_bound one gained n t u h k = grind arith

-- Under a positive burst, and while its bucket is neither cleaned up nor evicted, a key gets at most `burst` requests, from
-- the one that makes the bucket on, and one for each token that the rate adds until the last of them, whatever the times
-- between them.
pub served-bounded :
    (s : Limits) (now : ℕ) (gaps : List ℕ)
    → 1 ≤ s.burst
    → (1 + served s (new_limiter s now) gaps) * s.one ≤ s.burst * s.one + sum gaps * s.rate
unfolding new_limiter
served-bounded s now gaps h =
    first_bound s.one (sum gaps * s.rate) (served s (new_limiter s now) gaps) (s.burst * s.one)
      ((s.burst - 1) * s.one) (burst_split s.burst s.one h) (served_le s (new_limiter s now) gaps)

-- Under a positive burst, a request is allowed if one token or more has been added since the request before.
pub allow_known-refilled :
    (s : Limits) (lim : Limiter) (gap : ℕ)
    → 1 ≤ s.burst
    → s.one ≤ gap * s.rate
    → (allow_known s (lim.last + gap) lim).0 ≡ true
unfolding allow_known take_token refilled
allow_known-refilled s lim gap h k = taken _ s.one _ _ (
    capped_ge s.one (s.burst * s.one) _ (one_le_burst s.burst s.one h)
      (rw (elapsed_gap lim.last gap) (omega arith)))
