-- ===== src/Router/Prelude/Headers.antt =====
-- The headers of a request that goes on to its handler.
use mathlib.Core.Path.{subst}
use kiya.Base.{
  ◌≡◌, refl, ap, ◌∙◌, Bool, true, false, not, ◌&&◌, ◌||◌, List, [], ◌∷◌, ◌++◌, Option, none, some,
  if◌then◌else◌, arith, ◌≢◌, ◌⊎◌, ◌↔◌, Bool-cases, inl, inr,
}
use kiya.Text.{Text, codes, text_eq}
use kiya.Text.Laws.{text_eq_iff}
use kiya.Router.Request.{has_any_prefix}
use kiya.Router.Prelude.{
  Headers, set_header, set_headers, header_at, Cors, RouterConfig, HttpRequest, Answer, ended,
  redirected, goes_on, any_origin, origin_listed, is_blank, origin_allowed, list_header,
  origin_headers, is_secure, fixed_headers, transport_headers, csp_headers, cache_headers,
  common_headers, secure_answer, origin_answer, prelude,
}

header_at-set_header :
    (k j v : Text) (h : Headers)
    → header_at k (set_header j v h) ≡ (if text_eq j k then some v else header_at k h)
unfolding header_at set_header
header_at-set_header k j v [] = refl
header_at-set_header k j v ((i, w) ∷ h) =
    ground (arith, header_at-set_header k j v h, text_eq_iff i j, text_eq_iff i k, text_eq_iff j k)

-- the last value of a name in a list, or else the one from before
unfoldable last_in : Text → Headers → Option Text → Option Text
last_in k [] before = before
last_in k ((j, v) ∷ vs) before = last_in k vs (if text_eq j k then some v else before)

header_at-set_headers :
    (k : Text) (vs h : Headers) → header_at k (set_headers vs h) ≡ last_in k vs (header_at k h)
unfolding set_headers last_in
header_at-set_headers k [] h = refl
header_at-set_headers k ((j, v) ∷ vs) h =
    header_at-set_headers k vs (set_header j v h) ∙ ap (last_in k vs) (header_at-set_header k j v h)

last_in-append :
    (k : Text) (xs ys : Headers) (before : Option Text)
    → last_in k (xs ++ ys) before ≡ last_in k ys (last_in k xs before)
unfolding last_in
last_in-append k [] ys before = refl
last_in-append k ((j, v) ∷ xs) ys before =
    last_in-append k xs ys (if text_eq j k then some v else before)

-- a name that neither the policy nor the caches use
abbrev IsApart : Text → Type 0
IsApart k =
    (text_eq (codes "Content-Security-Policy") k ≡ false)
    × (text_eq (codes "Cache-Control") k ≡ false)
    × (text_eq (codes "Pragma") k ≡ false)
    × (text_eq (codes "Expires") k ≡ false)

last_in-csp :
    (k policy : Text) (exempt : Bool) (before : Option Text)
    → IsApart k
    → last_in k (csp_headers policy exempt) before ≡ before
unfolding last_in csp_headers
last_in-csp k [] exempt before a = refl
last_in-csp k (c ∷ s) true before a = refl
last_in-csp k (a ∷ s) false before (p, c, g, e) = rw p refl

last_in-cache :
    (k : Text) (cached : Bool) (before : Option Text)
    → IsApart k
    → last_in k (cache_headers cached) before ≡ before
unfolding last_in cache_headers
last_in-cache k true before (p, c, g, e) = rw c refl
last_in-cache k false before (p, c, g, e) = rw (c, g, e) refl

last_in-common :
    (k : Text) (server : RouterConfig) (req : HttpRequest) (before : Option Text)
    → IsApart k
    → last_in k (common_headers server req) before
      ≡ last_in k (transport_headers server.force_https) (last_in k fixed_headers before)
last_in-common k server req before a =
    let exempt = has_any_prefix req.path server.csp_exempt_paths in
    let cached = has_any_prefix req.path server.cache_paths in
    let csp = csp_headers server.csp exempt in
    last_in-append k fixed_headers
      (transport_headers server.force_https ++ csp ++ cache_headers cached) before
    ∙ last_in-append k (transport_headers server.force_https ++ csp) (cache_headers cached)
        (last_in k fixed_headers before)
    ∙ last_in-cache k cached _ a
    ∙ last_in-append k (transport_headers server.force_https) csp (last_in k fixed_headers before)
    ∙ last_in-csp k server.csp exempt _ a

-- what holds of a request that goes on
abbrev pub IsReady : RouterConfig → HttpRequest → Option Text → Answer → Type 0
IsReady server req allowed (ended n h) = Unit
IsReady server req allowed (redirected t h) = Unit
IsReady server req allowed (goes_on h) =
    ((not server.force_https || is_secure req) ≡ true)
    × (header_at (codes "X-Content-Type-Options") h ≡ some (codes "nosniff"))
    × (header_at (codes "X-Frame-Options") h ≡ some (codes "SAMEORIGIN"))
    × (header_at (codes "Strict-Transport-Security") h
        ≡ (if server.force_https then some (codes "max-age=31536000; includeSubDomains") else none))
    × (header_at (codes "Access-Control-Allow-Origin") h ≡ allowed)

common_at :
    (k : Text) (server : RouterConfig) (req : HttpRequest) (h : Headers)
    → IsApart k
    → header_at k (set_headers (common_headers server req) h)
      ≡ last_in k (transport_headers server.force_https) (last_in k fixed_headers (header_at k h))
common_at k server req h a =
    header_at-set_headers k _ h ∙ last_in-common k server req (header_at k h) a

transport_other :
    (k : Text) (forced : Bool) (before : Option Text)
    → text_eq (codes "Strict-Transport-Security") k ≡ false
    → last_in k (transport_headers forced) before ≡ before
unfolding last_in transport_headers
transport_other k true before e = rw e refl
transport_other k false before e = refl

transport_own :
    (forced : Bool)
    → last_in (codes "Strict-Transport-Security") (transport_headers forced) none
      ≡ (if forced then some (codes "max-age=31536000; includeSubDomains") else none)
unfolding last_in transport_headers text_eq codes
transport_own true = refl
transport_own false = refl

-- the names that the claims are about are apart, and the fixed headers are not changed behind
fixed_at :
    (k : Text) (server : RouterConfig) (req : HttpRequest) (h : Headers)
    → IsApart k
    → text_eq (codes "Strict-Transport-Security") k ≡ false
    → header_at k (set_headers (common_headers server req) h)
      ≡ last_in k fixed_headers (header_at k h)
fixed_at k server req h a e = common_at k server req h a ∙ transport_other k server.force_https _ e

secure_answer-IsReady :
    (server : RouterConfig) (req : HttpRequest) (h : Headers) (allowed : Option Text)
    → header_at (codes "Strict-Transport-Security") h ≡ none
    → header_at (codes "Access-Control-Allow-Origin") h ≡ allowed
    → IsReady server req allowed (secure_answer server req h)
unfolding secure_answer last_in text_eq codes
secure_answer-IsReady server req h allowed sts origin =
    elim (Bool-cases (server.force_https && not (is_secure req))) [
      | inl e ↦ rw e tt
      | inr e ↦ rw e (
        ground arith,
        fixed_at (codes "X-Content-Type-Options") server req h (refl, refl, refl, refl) refl,
        fixed_at (codes "X-Frame-Options") server req h (refl, refl, refl, refl) refl,
        common_at (codes "Strict-Transport-Security") server req h (refl, refl, refl, refl)
            ∙ ap
                (last_in (codes "Strict-Transport-Security") (transport_headers server.force_https))
                sts
            ∙ transport_own server.force_https,
        fixed_at (codes "Access-Control-Allow-Origin") server req h (refl, refl, refl, refl) refl
            ∙ origin,
      )
    ]

last_in-expose :
    (k : Text) (vs : List Text) (before : Option Text)
    → text_eq (codes "Access-Control-Expose-Headers") k ≡ false
    → last_in k (list_header (codes "Access-Control-Expose-Headers") vs) before ≡ before
unfolding last_in list_header
last_in-expose k [] before e = refl
last_in-expose k (v ∷ vs) before e = rw e refl

last_in-origin :
    (cors : Cors) (origin : Text) (before : Option Text)
    → last_in (codes "Access-Control-Allow-Origin") (origin_headers cors origin) before
      ≡ some origin
unfolding last_in origin_headers text_eq codes
last_in-origin cors origin before = elim (Bool-cases cors.allow_credentials) [
  | inl e ↦ rw e refl
  | inr e ↦ rw e refl
]

last_in-transport :
    (cors : Cors) (origin : Text)
    → last_in (codes "Strict-Transport-Security") (origin_headers cors origin) none ≡ none
unfolding last_in origin_headers text_eq codes
last_in-transport cors origin = elim (Bool-cases cors.allow_credentials) [
  | inl e ↦ rw e refl
  | inr e ↦ rw e refl
]

origin_answer-IsReady :
    (server : RouterConfig) (req : HttpRequest) (h : Headers)
    → header_at (codes "Strict-Transport-Security") h ≡ none
    → IsReady server req (some req.origin) (origin_answer server req h)
unfolding origin_answer text_eq codes is_secure secure_answer
origin_answer-IsReady server req h sts =
    let exposed = list_header (codes "Access-Control-Expose-Headers") server.cors.expose_headers in
    let allowed = set_headers (origin_headers server.cors req.origin) h in
    elim (Bool-cases req.is_options) [
      | inl e ↦ rw e tt
      | inr e ↦ rw e (
          secure_answer-IsReady server req (set_headers exposed allowed) (some req.origin)
            (header_at-set_headers (codes "Strict-Transport-Security") exposed allowed
              ∙ last_in-expose (codes "Strict-Transport-Security") server.cors.expose_headers _ refl
              ∙ header_at-set_headers (codes "Strict-Transport-Security")
                  (origin_headers server.cors req.origin) h
              ∙ ap
                  (last_in (codes "Strict-Transport-Security")
                    (origin_headers server.cors req.origin))
                  sts
              ∙ last_in-transport server.cors req.origin)
            (header_at-set_headers (codes "Access-Control-Allow-Origin") exposed allowed
              ∙ last_in-expose (codes "Access-Control-Allow-Origin") server.cors.expose_headers _
                  refl
              ∙ header_at-set_headers (codes "Access-Control-Allow-Origin")
                  (origin_headers server.cors req.origin) h
              ∙ last_in-origin server.cors req.origin _))
    ]

prelude-Holds :
    (server : RouterConfig) (fresh : Text) (req : HttpRequest)
    → IsReady server req
        (if origin_allowed server.cors req.origin then some req.origin else none)
        (prelude server fresh req)
unfolding prelude header_at set_header text_eq codes
prelude-Holds server fresh req = elim (Bool-cases (origin_allowed server.cors req.origin)) [
  | inl e ↦ rw e (origin_answer-IsReady server req _ refl)
  | inr e ↦ rw e (secure_answer-IsReady server req _ none refl refl)
]

-- the list holds the origin or *
abbrev pub Lists : Text → List Text → Type 0
Lists origin [] = ⊥
Lists origin (o ∷ os) = (o ≡ codes "*") ⊎ (o ≡ origin) ⊎ Lists origin os

-- whether CORS is enabled, the request has an origin, and the list of origins is empty or holds it or *
abbrev pub IsAllowed : Cors → Text → Type 0
IsAllowed cors origin =
    (cors.enabled ≡ true)
    × (origin ≢ [])
    × ((cors.allow_origins ≡ []) ⊎ Lists origin cors.allow_origins)

any_origin_iff : (origin : Text) (os : List Text) → (any_origin origin os ≡ true) ↔ Lists origin os
unfolding any_origin
any_origin_iff origin [] = ground arith
any_origin_iff origin (o ∷ os) =
    ground (arith, text_eq_iff o (codes "*"), text_eq_iff o origin, any_origin_iff origin os)

origin_listed_iff :
    (origin : Text) (os : List Text)
    → (origin_listed origin os ≡ true) ↔ ((os ≡ []) ⊎ Lists origin os)
unfolding origin_listed
origin_listed_iff origin [] = ground arith
origin_listed_iff origin (o ∷ os) = ground (arith, any_origin_iff origin (o ∷ os))

is_blank_iff : (s : Text) → (is_blank s ≡ true) ↔ (s ≡ [])
is_blank_iff [] = ground arith
is_blank_iff (c ∷ s) = ground arith

not_allowed : (b : Bool) (s : Text) → b ≢ true → (if b then some s else none) ≡ none
not_allowed true s h = absurd (h refl)
not_allowed false s h = refl

origin_allowed_iff :
    (cors : Cors) (origin : Text) → (origin_allowed cors origin ≡ true) ↔ IsAllowed cors origin
unfolding origin_allowed
origin_allowed_iff cors origin =
    ground (arith, is_blank_iff origin, origin_listed_iff origin cors.allow_origins)

is_secure_iff :
    (req : HttpRequest)
    → is_secure req ≡ true
    → (req.has_tls ≡ true) ⊎ (req.forwarded_proto ≡ codes "https")
unfolding is_secure
is_secure_iff req e = ground (arith, text_eq_iff req.forwarded_proto (codes "https"))

-- Where a request goes on to its handler: if HTTPS is forced, it came over TLS or its X-Forwarded-Proto is https; its
-- response has the headers against sniffing and framing, and the one of strict transport exactly if HTTPS is forced;
-- and its own origin is allowed, if CORS is enabled, the request has one and the list of origins is empty, holds it
-- or holds *, and otherwise none is.
pub prelude-IsReady :
    (server : RouterConfig) (fresh : Text) (req : HttpRequest) (h : Headers)
    → prelude server fresh req ≡ goes_on h
    → (server.force_https ≡ true → (req.has_tls ≡ true) ⊎ (req.forwarded_proto ≡ codes "https"))
      × (header_at (codes "X-Content-Type-Options") h ≡ some (codes "nosniff"))
      × (header_at (codes "X-Frame-Options") h ≡ some (codes "SAMEORIGIN"))
      × (header_at (codes "Strict-Transport-Security") h ≡ (
          if server.force_https then some (codes "max-age=31536000; includeSubDomains") else none))
      × (IsAllowed server.cors req.origin
          → header_at (codes "Access-Control-Allow-Origin") h ≡ some req.origin)
      × (¬ IsAllowed server.cors req.origin
          → header_at (codes "Access-Control-Allow-Origin") h ≡ none)
prelude-IsReady server fresh req h e =
    let allowed = if origin_allowed server.cors req.origin then some req.origin else none in
    let (secure, sniff, frame, transport, origin) : IsReady server req allowed (goes_on h) =
      subst (IsReady server req allowed) e (prelude-Holds server fresh req) in
    let iff = origin_allowed_iff server.cors req.origin in
    (
      (λ f. is_secure_iff req (ground arith)),
      sniff,
      frame,
      transport,
      (λ a. origin ∙ rw (iff.1 a) refl),
      (λ n. origin ∙ not_allowed _ req.origin (λ t. n (iff.0 t))),
    )
