-- ===== src/Config/Tests.antt =====
-- A configuration with a database and sessions in redis.
use kiya.Base.{◌≡◌, ◌↔◌, true, false, none, some, [], refl}
use kiya.Text.{codes, text_eq}
use kiya.Config.{
  Config, Refusal, validate, unusable_session, unsupported_driver, incomplete_database,
  unusable_limiter,
}
use kiya.Config.Validity.{IsReachable, IsComplete, validate_iff}

abbrev config : Config
config = record {
  server = record {
    session_enabled = true;
    session_store = codes "redis";
    session_addr = codes "localhost:6379";
  };
  database = record {
    enabled = true;
    driver = codes "postgres";
    host = codes "localhost";
    port = codes "5432";
    user = codes "app";
    name = codes "app";
  };
  rate_limiter = record { enabled = false; backend = codes "redis"; addr = [] };
}

validate-config : validate config ≡ none
unfolding validate unusable_session unsupported_driver incomplete_database unusable_limiter codes
    text_eq
validate-config = refl

validate-sqlite :
    validate (record config { database = record config.database { driver = codes "sqlite" } })
    ≡ some Refusal.driver_unsupported
unfolding validate unusable_session unsupported_driver incomplete_database unusable_limiter codes
    text_eq
validate-sqlite = refl

validate_iff_example : (validate config ≡ none) ↔ (
    IsReachable true (codes "redis") (codes "localhost:6379")
    × IsComplete config.database
    × IsReachable false (codes "redis") [])
validate_iff_example = validate_iff config
