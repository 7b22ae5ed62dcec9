-- ===== src/Router/Prelude.antt =====
-- router.go: what serveInternal does before the handler is chosen: CORS, the redirect to HTTPS, the headers of every
-- response and the cookie of the browser. Headers are a list by their canonical names. The hash of the cookie and
-- random bytes are arguments.
pub mod Headers
pub mod Tests
use kiya.Base.{
  ℕ, Bool, true, false, not, ◌&&◌, ◌||◌, List, [], ◌∷◌, ◌++◌, Option, none, some, if◌then◌else◌,
  ltb,
}
use kiya.Base.Int.{pos}
use kiya.Text.{Text, codes, text_eq, join, split_at}
use kiya.Strconv.{format_int}
use kiya.Router.Request.{has_any_prefix}

abbrev pub Headers : Type 0
Headers = List (Text × Text)

unfoldable pub set_header : Text → Text → Headers → Headers
set_header key v [] = (key, v) ∷ []
set_header key v ((k, w) ∷ h) =
    let rest = set_header key v h in if text_eq k key then (key, v) ∷ h else (k, w) ∷ rest

unfoldable pub set_headers : Headers → Headers → Headers
set_headers [] h = h
set_headers ((k, v) ∷ vs) h = set_headers vs (set_header k v h)

unfoldable pub header_at : Text → Headers → Option Text
header_at key [] = none
header_at key ((k, v) ∷ h) = let rest = header_at key h in if text_eq k key then some v else rest

pub record Cors : Type 0 where
  pub enabled : Bool
  pub allow_origins : List Text
  pub allow_methods : List Text
  pub allow_headers : List Text
  pub expose_headers : List Text
  pub allow_credentials : Bool
  pub max_age : ℕ

pub record RouterConfig : Type 0 where
  pub cors : Cors
  pub force_https : Bool
  pub csp : Text
  pub csp_exempt_paths : List Text
  pub cache_paths : List Text

pub record HttpRequest : Type 0 where
  pub request_id : Text
  pub origin : Text
  pub is_options : Bool
  pub has_tls : Bool
  pub forwarded_proto : Text
  pub host : Text
  pub uri : Text
  pub path : Text

-- the response is ended with a status, or goes on
pub data Answer : Type 0 where
  ended : ℕ → Headers → Answer
  redirected : Text → Headers → Answer
  goes_on : Headers → Answer

unfoldable pub any_origin : Text → List Text → Bool
any_origin origin [] = false
any_origin origin (o ∷ os) = text_eq o (codes "*") || text_eq o origin || any_origin origin os

unfoldable pub origin_listed : Text → List Text → Bool
origin_listed origin [] = true
origin_listed origin (o ∷ os) = any_origin origin (o ∷ os)

abbrev pub is_blank : Text → Bool
is_blank [] = true
is_blank (c ∷ s) = false

unfoldable pub origin_allowed : Cors → Text → Bool
origin_allowed cors origin =
    cors.enabled && not (is_blank origin) && origin_listed origin cors.allow_origins

-- a list that is not empty becomes a header
unfoldable pub list_header : Text → List Text → Headers
list_header name [] = []
list_header name (v ∷ vs) = (name, join (v ∷ vs) (codes ", ")) ∷ []

unfoldable pub origin_headers : Cors → Text → Headers
origin_headers cors origin =
    (codes "Access-Control-Allow-Origin", origin)
    ∷ (if cors.allow_credentials
        then (codes "Access-Control-Allow-Credentials", codes "true") ∷ []
        else [])

unfoldable pub preflight_headers : Cors → Headers
preflight_headers cors =
    list_header (codes "Access-Control-Allow-Methods") cors.allow_methods
    ++ list_header (codes "Access-Control-Allow-Headers") cors.allow_headers
    ++ (if ltb 0 cors.max_age
        then (codes "Access-Control-Max-Age", format_int (pos cors.max_age)) ∷ []
        else [])

unfoldable pub is_secure : HttpRequest → Bool
is_secure req = req.has_tls || text_eq req.forwarded_proto (codes "https")

abbrev pub fixed_headers : Headers
fixed_headers =
    (codes "X-Content-Type-Options", codes "nosniff")
    ∷ (codes "X-Frame-Options", codes "SAMEORIGIN")
    ∷ (codes "Referrer-Policy", codes "strict-origin-when-cross-origin")
    ∷ (codes "Permissions-Policy", codes "geolocation=(), microphone=(), camera=()")
    ∷ (codes "Cross-Origin-Opener-Policy", codes "same-origin")
    ∷ (codes "Cross-Origin-Resource-Policy", codes "same-origin")
    ∷ (codes "X-DNS-Prefetch-Control", codes "off")
    ∷ []

unfoldable pub transport_headers : Bool → Headers
transport_headers true =
    (codes "Strict-Transport-Security", codes "max-age=31536000; includeSubDomains") ∷ []
transport_headers false = []

unfoldable pub csp_headers : Text → Bool → Headers
csp_headers [] exempt = []
csp_headers (c ∷ s) true = []
csp_headers (c ∷ s) false = (codes "Content-Security-Policy", c ∷ s) ∷ []

unfoldable pub cache_headers : Bool → Headers
cache_headers true = (codes "Cache-Control", codes "public, max-age=3600") ∷ []
cache_headers false =
    (codes "Cache-Control", codes "no-store, no-cache, must-revalidate, max-age=0")
    ∷ (codes "Pragma", codes "no-cache")
    ∷ (codes "Expires", codes "0")
    ∷ []

abbrev pub common_headers : RouterConfig → HttpRequest → Headers
common_headers server req =
    fixed_headers
    ++ transport_headers server.force_https
    ++ csp_headers server.csp (has_any_prefix req.path server.csp_exempt_paths)
    ++ cache_headers (has_any_prefix req.path server.cache_paths)

-- from the redirect on
unfoldable pub secure_answer : RouterConfig → HttpRequest → Headers → Answer
secure_answer server req h =
    if server.force_https && not (is_secure req)
    then redirected (codes "https://" ++ req.host ++ req.uri) h
    else goes_on (set_headers (common_headers server req) h)

unfoldable pub origin_answer : RouterConfig → HttpRequest → Headers → Answer
origin_answer server req h =
    let allowed = set_headers (origin_headers server.cors req.origin) h in
    if req.is_options
    then ended 204 (set_headers (preflight_headers server.cors) allowed)
    else secure_answer server req (
        set_headers (list_header (codes "Access-Control-Expose-Headers") server.cors.expose_headers)
          allowed)

-- the headers before the context is made, or the end of the request; `fresh` is a new id
unfoldable pub prelude : RouterConfig → Text → HttpRequest → Answer
prelude server fresh req =
    let id = if is_blank req.request_id then fresh else req.request_id in
    let h = set_header (codes "X-Request-Id") id [] in
    if origin_allowed server.cors req.origin
    then origin_answer server req h
    else secure_answer server req h

-- the cookie: a salt and its signature with the user agent
module _ (mac : Text → Text) where
  abbrev pub agent : Text → Text
  agent [] = codes "unknown-ua"
  agent (c ∷ s) = c ∷ s

  unfoldable pub signature : Text → Text → Text
  signature ua salt = mac (salt ++ b':' ∷ agent ua)

  unfoldable pub valid_parts : Text → List Text → Bool
  valid_parts ua (salt ∷ sig ∷ []) =
      not (is_blank salt) && not (is_blank sig) && text_eq sig (signature ua salt)
  valid_parts ua _ = false

  -- a request without the cookie gives the empty text
  unfoldable pub cookie_valid : Text → Text → Bool
  cookie_valid ua [] = false
  cookie_valid ua (c ∷ s) = valid_parts ua (split_at b'.' (c ∷ s))

  unfoldable pub new_cookie : Text → Text → Text
  new_cookie ua salt = salt ++ b'.' ∷ signature ua salt

  -- the cookie of the response, and whether it came with the request
  unfoldable pub browser_cookie : Text → Text → Text → Text × Bool
  browser_cookie ua cookie salt =
      if cookie_valid ua cookie then (cookie, true) else (new_cookie ua salt, false)
