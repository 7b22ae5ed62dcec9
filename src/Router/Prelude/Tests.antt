-- ===== src/Router/Prelude/Tests.antt =====
-- A server with CORS for one origin behind HTTPS.
use kiya.Base.{◌⊎◌, ◌≡◌, refl, true, false, [], ◌∷◌, if◌then◌else◌, some, none}
use kiya.Text.{codes}
use kiya.Router.Prelude.{
  header_at, Headers, set_headers, origin_headers, common_headers, Cors, RouterConfig, HttpRequest,
  ended, goes_on, origin_allowed, prelude,
}
use kiya.Router.Prelude.Headers.{IsAllowed, prelude-IsReady}

abbrev server : RouterConfig
server = record {
  cors = record {
    enabled = true;
    allow_origins = codes "https://a.id" ∷ [];
    allow_methods = codes "GET" ∷ [];
    allow_headers = [];
    expose_headers = [];
    allow_credentials = true;
    max_age = 60;
  };
  force_https = true;
  csp = [];
  csp_exempt_paths = [];
  cache_paths = codes "/static" ∷ [];
}

abbrev request : HttpRequest
request = record {
  request_id = codes "r1";
  origin = codes "https://a.id";
  is_options = false;
  has_tls = true;
  forwarded_proto = [];
  host = codes "b.id";
  uri = codes "/";
  path = codes "/";
}

abbrev answered : Headers
answered = set_headers (common_headers server request) (
    set_headers (origin_headers server.cors request.origin)
      ((codes "X-Request-Id", codes "r1") ∷ []))

prelude-IsReady_example :
    (server.force_https ≡ true
      → (request.has_tls ≡ true) ⊎ (request.forwarded_proto ≡ codes "https"))
    × (header_at (codes "X-Content-Type-Options") answered ≡ some (codes "nosniff"))
    × (header_at (codes "X-Frame-Options") answered ≡ some (codes "SAMEORIGIN"))
    × (header_at (codes "Strict-Transport-Security") answered
        ≡ (if server.force_https then some (codes "max-age=31536000; includeSubDomains") else none))
    × (IsAllowed server.cors request.origin
        → header_at (codes "Access-Control-Allow-Origin") answered ≡ some request.origin)
    × (¬ IsAllowed server.cors request.origin
        → header_at (codes "Access-Control-Allow-Origin") answered ≡ none)
unfolding codes kiya.Router.Prelude.prelude kiya.Router.Prelude.origin_allowed
    kiya.Router.Prelude.origin_listed kiya.Router.Prelude.any_origin
    kiya.Router.Prelude.origin_answer kiya.Router.Prelude.secure_answer
    kiya.Router.Prelude.set_headers kiya.Router.Prelude.set_header
    kiya.Router.Prelude.origin_headers kiya.Router.Prelude.list_header kiya.Router.Prelude.is_secure
    kiya.Text.text_eq kiya.Text.join
prelude-IsReady_example = prelude-IsReady server (codes "f") request answered refl

-- A preflight request over plain HTTP is ended before the redirect.
prelude-preflight :
    prelude server (codes "f") (record request { is_options = true; has_tls = false })
    ≡ ended 204 (
        (codes "X-Request-Id", codes "r1")
        ∷ (codes "Access-Control-Allow-Origin", codes "https://a.id")
        ∷ (codes "Access-Control-Allow-Credentials", codes "true")
        ∷ (codes "Access-Control-Allow-Methods", codes "GET")
        ∷ (codes "Access-Control-Max-Age", codes "60")
        ∷ [])
unfolding codes kiya.Router.Prelude.prelude kiya.Router.Prelude.origin_allowed
    kiya.Router.Prelude.origin_listed kiya.Router.Prelude.any_origin
    kiya.Router.Prelude.origin_answer kiya.Router.Prelude.secure_answer
    kiya.Router.Prelude.set_headers kiya.Router.Prelude.set_header
    kiya.Router.Prelude.origin_headers kiya.Router.Prelude.list_header kiya.Router.Prelude.is_secure
    kiya.Text.text_eq kiya.Text.join kiya.Router.Prelude.preflight_headers kiya.Strconv.format_int
    kiya.Strconv.format_uint kiya.Strconv.format_from
prelude-preflight = refl
