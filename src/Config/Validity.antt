-- ===== src/Config/Validity.antt =====
-- The configurations that `validate` of config.go accepts.
use kiya.Base.{◌≡◌, ◌≢◌, ◌↔◌, ◌⊎◌, refl, Bool, true, false, ◌&&◌, none, arith, ◌∷◌, []}
use kiya.Text.{Text, codes, text_eq}
use kiya.Text.Laws.{text_eq_iff}
use kiya.Config.{
  Config, Server, Database, RateLimiter, Refusal, is_blank, refuse, unusable_session,
  unsupported_driver, incomplete_database, unusable_limiter, validate,
}

-- What is kept in redis has an address.
abbrev pub IsReachable : Bool → Text → Text → Type 0
IsReachable enabled kind addr = ¬ ((enabled ≡ true) × (kind ≡ codes "redis") × (addr ≡ []))

-- An enabled database has a known driver and all by which it is reached.
abbrev pub IsComplete : Database → Type 0
IsComplete d =
    (d.enabled ≡ false)
    ⊎ (((d.driver ≡ codes "mysql") ⊎ (d.driver ≡ codes "postgres"))
        × (d.host ≢ [])
        × (d.port ≢ [])
        × (d.name ≢ [])
        × (d.user ≢ []))

blank_iff : (s : Text) → (is_blank s ≡ true) ↔ (s ≡ [])
blank_iff [] = (λ e. refl, λ e. refl)
blank_iff (c ∷ s) = (λ e. cc, λ e. cc)

IsReachable-iff :
    (enabled : Bool) (kind addr : Text)
    → ((enabled && text_eq kind (codes "redis") && is_blank addr) ≡ false)
      ↔ IsReachable enabled kind addr
IsReachable-iff enabled kind addr = ground (arith, text_eq_iff kind (codes "redis"), blank_iff addr)

IsComplete-iff :
    (d : Database)
    → ((unsupported_driver d ≡ false) × (incomplete_database d ≡ false)) ↔ IsComplete d
unfolding unsupported_driver incomplete_database
IsComplete-iff d = ground (
  arith,
  text_eq_iff d.driver (codes "mysql"),
  text_eq_iff d.driver (codes "postgres"),
  blank_iff d.host,
  blank_iff d.port,
  blank_iff d.name,
  blank_iff d.user,
)

tests_iff :
    (a b d e : Bool) (p q r s : Refusal)
    → (refuse a p (refuse b q (refuse d r (refuse e s none))) ≡ none)
      ↔ ((a ≡ false) × ((b ≡ false) × (d ≡ false)) × (e ≡ false))
tests_iff a b d e p q r s = ground arith

limiter_iff :
    (r : RateLimiter) → (unusable_limiter r ≡ false) ↔ IsReachable r.enabled r.backend r.addr
unfolding unusable_limiter
limiter_iff r = IsReachable-iff r.enabled r.backend r.addr

session_iff :
    (s : Server)
    → (unusable_session s ≡ false) ↔ IsReachable s.session_enabled s.session_store s.session_addr
unfolding unusable_session
session_iff s = IsReachable-iff s.session_enabled s.session_store s.session_addr

-- A configuration is accepted exactly if sessions and rate limits that are kept in redis have an address, and
-- the database, where it is enabled, has one of the two drivers and a host, port, name and user.
pub validate_iff :
    (c : Config)
    → (validate c ≡ none) ↔ (
        IsReachable c.server.session_enabled c.server.session_store c.server.session_addr
        × IsComplete c.database
        × IsReachable c.rate_limiter.enabled c.rate_limiter.backend c.rate_limiter.addr)
unfolding validate
validate_iff c =
    let (f, g) =
      tests_iff (unusable_session c.server) (unsupported_driver c.database)
        (incomplete_database c.database) (unusable_limiter c.rate_limiter)
        Refusal.session_addr_empty Refusal.driver_unsupported Refusal.database_incomplete
        Refusal.limiter_addr_empty in
    let (s, s') = session_iff c.server in
    let (d, d') = IsComplete-iff c.database in
    let (l, l') = limiter_iff c.rate_limiter in
    (λ e. (s (f e).0, d (f e).1, l (f e).2), λ (u, v, w). g (s' u, d' v, l' w))
