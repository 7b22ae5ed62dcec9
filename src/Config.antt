-- ===== src/Config.antt =====
-- `validate` of config.go, with the parts of the configuration that it reads.
pub mod Validity
pub mod Tests
use kiya.Base.{Bool, true, false, ◌&&◌, ◌||◌, not, Option, none, some, if◌then◌else◌, ◌∷◌, []}
use kiya.Text.{Text, codes, text_eq}

-- `ServerConfig` with its `SessionStoreConfig`
pub record Server : Type 0 where
  pub session_enabled : Bool
  pub session_store : Text
  pub session_addr : Text

-- `DatabaseConfig`
pub record Database : Type 0 where
  pub enabled : Bool
  pub driver : Text
  pub host : Text
  pub port : Text
  pub user : Text
  pub name : Text

-- `RateLimiterConfig`
pub record RateLimiter : Type 0 where
  pub enabled : Bool
  pub backend : Text
  pub addr : Text

pub record Config : Type 0 where
  pub server : Server
  pub database : Database
  pub rate_limiter : RateLimiter

-- the errors of `validate`, in the order of its tests
pub data Refusal : Type 0 where
  session_addr_empty driver_unsupported database_incomplete limiter_addr_empty : Refusal

abbrev pub is_blank : Text → Bool
is_blank [] = true
is_blank (c ∷ s) = false

-- a test that returns an error, and the tests after it
abbrev pub refuse : Bool → Refusal → Option Refusal → Option Refusal
refuse true r rest = some r
refuse false r rest = rest

pub unusable_session : Server → Bool
unusable_session s =
    s.session_enabled && text_eq s.session_store (codes "redis") && is_blank s.session_addr

pub unsupported_driver : Database → Bool
unsupported_driver d =
    d.enabled && not (text_eq d.driver (codes "mysql")) && not (text_eq d.driver (codes "postgres"))

pub incomplete_database : Database → Bool
incomplete_database d =
    d.enabled && (is_blank d.host || is_blank d.port || is_blank d.name || is_blank d.user)

pub unusable_limiter : RateLimiter → Bool
unusable_limiter r = r.enabled && text_eq r.backend (codes "redis") && is_blank r.addr

-- `none` is nil
pub validate : Config → Option Refusal
validate c = refuse (unusable_session c.server) session_addr_empty (
    refuse (unsupported_driver c.database) driver_unsupported (
      refuse (incomplete_database c.database) database_incomplete
        (refuse (unusable_limiter c.rate_limiter) limiter_addr_empty none)))
