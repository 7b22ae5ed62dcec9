-- ===== src/Waf.antt =====
-- internal/security/waf.go: the writer that holds a response back, and WrapWithWAF. A transaction of coraza is an
-- argument, as the state that its calls change. Handlers set no header but Content-Type, which is then the only one
-- that WriteHeader hands to the transaction. What goes to the connection is the list of calls of the writer below.
-- A method of the writer enters with its lock: where its caller holds the mutex, it never returns, which is `none`.
pub mod Delivery
pub mod Overflow
pub mod Locking
pub mod Tests
use kiya.Base.{
  ℕ, zero, suc, ◌*◌, ◌^◌, ◌+◌, Bool, true, false, not, ◌&&◌, ◌||◌, List, [], ◌∷◌, ◌++◌, Option,
  none, some, if◌then◌else◌, ltb, length,
}
use kiya.Base.Int.{ℤ, pos}
use kiya.Text.{Text, codes, text_eq, has_prefix}

pub data ClientCall : Type 0 where
  head : ℕ → ClientCall
  chunk : Text → ClientCall
  client_flush : ClientCall

-- the phases of a transaction; `interruption` has the status
pub record Transaction (T : Type 0) : Type 0 where
  pub request_headers : T → T
  pub request_body : Text → T → T
  pub response_headers : Text → ℕ → T → T
  pub response_body : Text → T → T
  pub interruption : T → Option ℕ

pub record Writer (T : Type 0) : Type 0 where
  pub status : ℕ
  pub body : Text
  pub wrote : Bool
  pub streaming : Bool
  pub max_buffer_size : ℕ
  pub buffer_limit_exceeded : Bool
  pub blocked : Bool
  pub content_type : Text
  pub tx : T
  pub sent : List ClientCall

-- what a handler does with its writer
pub data HandlerCall : Type 0 where
  set_content_type : Text → HandlerCall
  call_write_header : ℕ → HandlerCall
  call_write : Text → HandlerCall
  call_flush : HandlerCall

-- what `ReadAll` gives of a body that is cut at the maximum
pub data ReadBody : Type 0 where
  read_ok : Text → ReadBody
  read_too_large read_failed : ReadBody

pub record WafHandler : Type 0 where
  pub calls : List HandlerCall
  pub panics : Bool

unfoldable pub buffer_size : ℤ → ℕ
buffer_size (pos (suc n)) = suc n
buffer_size _ = 10 * 2 ^ 20

unfoldable pub new_writer : {T : Type 0} → ℤ → T → Writer T
new_writer max tx = record {
  status = 200;
  body = [];
  wrote = false;
  streaming = false;
  max_buffer_size = buffer_size max;
  buffer_limit_exceeded = false;
  blocked = false;
  content_type = [];
  tx = tx;
  sent = [];
}

unfoldable pub is_binary : Text → Bool
is_binary ct =
    has_prefix ct (codes "image/")
    || has_prefix ct (codes "video/")
    || has_prefix ct (codes "audio/")
    || text_eq ct (codes "application/octet-stream")
    || text_eq ct (codes "application/pdf")
    || has_prefix ct (codes "application/font-")
    || has_prefix ct (codes "font/")

module _ {T : Type 0} (waf : Transaction T) where
  abbrev pub send : List ClientCall → Writer T → Writer T
  send calls w = record w { sent = w.sent ++ calls }

  -- the end of `WriteHeader`, from the interruption on
  unfoldable pub decide_header : Option ℕ → ℕ → Writer T → Writer T
  decide_header (some st) code w = record w {
    body = codes "Blocked by WAF";
    content_type = codes "text/plain";
    status = st;
    wrote = true;
    blocked = true;
  }
  decide_header none code w =
      let streamed = send (head code ∷ []) (record w { wrote = true; streaming = true }) in
      let held = record w { status = code; wrote = true } in
      if is_binary w.content_type then streamed else held

  unfoldable pub inspect_header : ℕ → Writer T → Writer T
  inspect_header code w =
      let after = waf.response_headers w.content_type code w.tx in
      decide_header (waf.interruption after) code (record w { tx = after })

  unfoldable pub write_header : ℕ → Writer T → Writer T
  write_header code w = if w.wrote then w else inspect_header code w

  unfoldable pub flush_held : Writer T → Writer T
  flush_held w = send (head w.status ∷ chunk w.body ∷ []) w

  -- `FlushToClient`
  unfoldable pub flush_to_client : Writer T → Writer T
  flush_to_client w =
      if w.streaming
      then w
      else if ltb 0 (length w.body) || w.wrote
      then flush_held (if w.wrote then w else write_header 200 w)
      else w

  unfoldable pub hold_or_stream : Text → Writer T → Writer T
  hold_or_stream b w =
      let full = flush_to_client (record w { buffer_limit_exceeded = true; streaming = true }) in
      if ltb 0 w.max_buffer_size && ltb w.max_buffer_size (length w.body + length b)
      then send (chunk b ∷ []) full
      else record w { body = w.body ++ b }

  abbrev pub write_headed : Text → Writer T → Option (Writer T)
  write_headed b w =
      if w.blocked
      then some w
      else if w.streaming
      then some (send (chunk b ∷ []) w)
      else some (hold_or_stream b w)

  abbrev pub and_then : {A : Type 0} → Option A → (A → Option A) → Option A
  and_then none f = none
  and_then (some a) f = f a

  -- `w.mu.Lock()`, from whether the caller holds the mutex, and the rest of the method
  unfoldable pub enter : Bool → Option (Writer T) → Option (Writer T)
  enter true rest = none
  enter false rest = rest

  -- `WriteHeader` with its lock
  unfoldable pub locked_header : Bool → ℕ → Writer T → Option (Writer T)
  locked_header held code w = enter held (some (write_header code w))

  -- `if !w.wrote { w.WriteHeader(code) }` of a method that holds the mutex
  unfoldable pub head_first : ℕ → Writer T → Option (Writer T)
  head_first code w = if not w.wrote then locked_header true code w else some w

  -- `Write`
  unfoldable pub write_bytes : Text → Writer T → Option (Writer T)
  write_bytes b w = enter false (and_then (head_first 200 w) (write_headed b))

  abbrev held_body : Text → List ClientCall
  held_body [] = []
  held_body (c ∷ s) = chunk (c ∷ s) ∷ []

  abbrev pub flush_headed : Writer T → Option (Writer T)
  flush_headed w =
      let rest =
        send (head w.status ∷ held_body w.body ++ client_flush ∷ [])
          (record w { body = []; streaming = true }) in
      if w.streaming then some (send (client_flush ∷ []) w) else some rest

  -- `Flush` of a writer whose connection can be flushed
  unfoldable pub flush : Writer T → Option (Writer T)
  flush w = enter false (and_then (head_first w.status w) flush_headed)

  unfoldable pub handler_call : HandlerCall → Writer T → Option (Writer T)
  handler_call (set_content_type ct) w = some (record w { content_type = ct })
  handler_call (call_write_header code) w = locked_header false code w
  handler_call (call_write b) w = write_bytes b w
  handler_call call_flush w = flush w

  unfoldable pub run_calls : List HandlerCall → Writer T → Option (Writer T)
  run_calls [] w = some w
  run_calls (c ∷ cs) w = and_then (handler_call c w) (run_calls cs)

  -- the recovery from a panic of the handler
  unfoldable pub recover_panic : Writer T → Writer T
  recover_panic w = flush_to_client (record w {
    wrote = true;
    status = 500;
    body = codes "Internal Server Error";
    content_type = codes "text/plain; charset=utf-8";
  })

  -- the response phase that follows the handler
  unfoldable pub decide_body : Option ℕ → Writer T → Writer T
  decide_body none w = flush_to_client w
  decide_body (some st) w =
      let stopped = record w {
        body = codes "Blocked by WAF (Response Body)";
        status = st;
        content_type = codes "text/plain";
        blocked = true;
      } in
      flush_to_client (if w.streaming then w else stopped)

  unfoldable pub inspect_body : Writer T → Writer T
  inspect_body w =
      let after = waf.response_body (if w.streaming then [] else w.body) w.tx in
      decide_body (waf.interruption after) (record w { tx = after })

  unfoldable pub after_handler : Writer T → Writer T
  after_handler w = if w.buffer_limit_exceeded then w else inspect_body w

  -- the end of a handler: it returns or panics
  unfoldable pub end_handler : Bool → Writer T → Writer T
  end_handler panics w = if panics then recover_panic w else after_handler w

  abbrev pub with_handler : Bool → Option (Writer T) → Option (Writer T)
  with_handler panics none = none
  with_handler panics (some w) = some (end_handler panics w)

  unfoldable pub blocked_by_waf : ℕ → Writer T → Writer T
  blocked_by_waf st w = send (head st ∷ chunk (codes "Blocked by WAF") ∷ []) w

  -- from the interruption of the body phase on
  unfoldable pub run_handler : Option ℕ → WafHandler → Writer T → Option (Writer T)
  run_handler (some st) h w = some (blocked_by_waf st w)
  run_handler none h w = with_handler h.panics (run_calls h.calls w)

  unfoldable pub with_body : Text → (Text → WafHandler) → Writer T → Option (Writer T)
  with_body b next w =
      let after = waf.request_body b w.tx in
      run_handler (waf.interruption after) (next b) (record w { tx = after })

  -- `has_body` is a request by POST, PUT or PATCH
  unfoldable pub read_body : Bool → ReadBody → (Text → WafHandler) → Writer T → Option (Writer T)
  read_body false b next w = with_body [] next w
  read_body true (read_ok b) next w = with_body b next w
  read_body true read_too_large next w = some (send (head 413 ∷ []) w)
  read_body true read_failed next w = with_body [] next w

  unfoldable pub inspect_request :
      Option ℕ → Bool → ReadBody → (Text → WafHandler) → Writer T → Option (Writer T)
  inspect_request (some st) has_body b next w = some (blocked_by_waf st w)
  inspect_request none has_body b next w = read_body has_body b next w

  -- `WrapWithWAF`: the writer after the request, from a new transaction
  unfoldable pub wrap_with_waf : ℤ → T → Bool → ReadBody → (Text → WafHandler) → Option (Writer T)
  wrap_with_waf max tx has_body b next =
      let after = waf.request_headers tx in
      inspect_request (waf.interruption after) has_body b next (new_writer max after)
