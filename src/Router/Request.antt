-- ===== src/Router/Request.antt =====
-- router.go: the chain of middleware, the choice of the handler and the transaction of a request. What a
-- handler does to the context, the response and the database is a step on a world; a handler returns an
-- error or nil, or panics.
pub mod Order
pub mod Scope
pub mod Tests
use kiya.Base.{ℕ, Bool, true, false, List, [], ◌∷◌, ◌++◌, Option, none, some, if◌then◌else◌}
use kiya.Text.{Text, has_prefix, text_eq}
use kiya.Db.Transaction.{Fault, Driver, Outcome, returned, panicked}

abbrev pub Handler : Type 0 → Type 0
Handler W = W → Outcome ℕ × W

abbrev pub Middleware : Type 0 → Type 0
Middleware W = Handler W → Handler W

-- `IsAborted` of the context in the world
module _ {W : Type 0} (is_aborted : W → Bool) where
  unfoldable pub unless_aborted : Handler W → Handler W
  unless_aborted wrapped w =
      let rest = wrapped w in if is_aborted w then (returned none, w) else rest

  -- `chain`, for a handler that is not nil
  unfoldable pub chain : Handler W → List (Middleware W) → Handler W
  chain h [] = h
  chain h (m ∷ ms) = unless_aborted (m (chain h ms))

  -- The handler of `serveInternal`: what `FindRoute` gives, or else one of the two others, by the answer of
  -- `AnyMethodExists`. The handlers of routes are chained where they are added.
  unfoldable pub final_handler :
      Option (Handler W) → Bool → Handler W → Handler W → List (Middleware W) → Handler W
  final_handler (some h) exists no_method no_route ms = h
  final_handler none true no_method no_route ms = chain no_method ms
  final_handler none false no_method no_route ms = chain no_route ms

-- what `requestScopeFunc` returns: an error, or the text of the first statement
pub data ScopeAnswer : Type 0 where
  scope_error : ScopeAnswer
  scope_statement : Text → ScopeAnswer

pub data Reply : Type 0 where
  internal_server_error : Reply
  handled : Outcome ℕ → Reply

-- the outer `recover` answers a panic
unfoldable pub recovered : Outcome ℕ → Reply
recovered (panicked p) = internal_server_error
recovered (returned e) = handled (returned e)

module _ {W : Type 0} (driver : Driver W) where
  -- the end of the request; the deferred Rollback comes last
  unfoldable pub end_request : Outcome ℕ → W → Reply × W
  end_request (returned none) w = (handled (returned none), (driver.rollback (driver.commit w).1).1)
  end_request (returned (some e)) w =
      (handled (returned (some e)), (driver.rollback (driver.rollback w).1).1)
  end_request (panicked p) w = (internal_server_error, (driver.rollback w).1)

  -- after the first statement
  unfoldable pub handle_in_tx : Handler W → Option Fault → W → Reply × W
  handle_in_tx h (some f) w = (internal_server_error, (driver.rollback w).1)
  handle_in_tx h none w = let (o, after) = h w in end_request o after

  unfoldable pub init_tx : (W → Option Fault × W) → Handler W → Option Fault → W → Reply × W
  init_tx init h (some f) w = (internal_server_error, w)
  init_tx init h none w = let (e, after) = init w in handle_in_tx h e after

  -- the request from `requestScopeFunc` on; `init` runs the first statement in the transaction
  unfoldable pub serve_scoped :
      (Text → W → Option Fault × W) → Handler W → ScopeAnswer → W → Reply × W
  serve_scoped init h scope_error w = (internal_server_error, w)
  serve_scoped init h (scope_statement []) w = let (o, after) = h w in (recovered o, after)
  serve_scoped init h (scope_statement (c ∷ s)) w =
      let (begun, after) = driver.begin w in init_tx (init (c ∷ s)) h begun after

-- `shouldCache` and the other tests of a path against prefixes
unfoldable pub has_any_prefix : Text → List Text → Bool
has_any_prefix path [] = false
has_any_prefix path (p ∷ ps) =
    let rest = has_any_prefix path ps in if has_prefix path p then true else rest
