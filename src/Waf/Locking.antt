-- ===== src/Waf/Locking.antt =====
-- The handlers that return from their writer.
use kiya.Base.{
  ℕ, ◌≡◌, refl, Bool, true, false, List, [], ◌∷◌, Option, none, some, Bool-cases, inl, inr, ◌+◌,
  not, ◌&&◌, if◌then◌else◌, ltb, length, ap, ◌∙◌,
}
use kiya.Base.Int.{ℤ}
use kiya.Text.{Text}
use kiya.Waf.{
  enter, head_first, locked_header, Transaction, Writer, decide_header, inspect_header,
  write_header, write_bytes, hold_or_stream, flush_to_client, flush, is_binary, and_then,
  HandlerCall, set_content_type, call_write_header, call_write, call_flush, handler_call, run_calls,
  WafHandler, new_writer, run_handler, with_handler,
}

-- a status is written before anything else is written or flushed
unfoldable pub is_headed : List HandlerCall → Bool
is_headed [] = true
is_headed (set_content_type ct ∷ cs) = is_headed cs
is_headed (call_write_header code ∷ cs) = true
is_headed (call_write b ∷ cs) = false
is_headed (call_flush ∷ cs) = false

abbrev pub returns : {A : Type 0} → Option A → Bool
returns none = false
returns (some a) = true

module _ {T : Type 0} (waf : Transaction T) where
  -- a call of a writer with a header: it returns, and the header stays
  pub data Goes : Option (Writer T) → Type 0 where
    goes : (w : Writer T) → w.wrote ≡ true → Goes (some w)

  Goes-if :
      (t : Bool) (x y : Option (Writer T))
      → (t ≡ true → Goes x)
      → (t ≡ false → Goes y)
      → Goes (if t then x else y)
  Goes-if true x y hx hy = hx refl
  Goes-if false x y hx hy = hy refl

  wrote-if :
      (t : Bool) (x y : Writer T)
      → (t ≡ true → x.wrote ≡ true)
      → (t ≡ false → y.wrote ≡ true)
      → (if t then x else y).wrote ≡ true
  wrote-if true x y hx hy = hx refl
  wrote-if false x y hx hy = hy refl

  wrote-decide_header :
      (decision : Option ℕ) (code : ℕ) (w : Writer T)
      → (decide_header waf decision code w).wrote ≡ true
  unfolding decide_header
  wrote-decide_header (some st) code w = refl
  wrote-decide_header none code w = elim (Bool-cases (is_binary w.content_type)) [
    | inl e ↦ rw e refl
    | inr e ↦ rw e refl
  ]

  wrote-write_header : (code : ℕ) (w : Writer T) → (write_header waf code w).wrote ≡ true
  unfolding write_header inspect_header
  wrote-write_header code w = wrote-if w.wrote w _ (λ e. e) (λ e. wrote-decide_header _ code _)

  wrote-hold_or_stream :
      (b : Text) (w : Writer T) → w.wrote ≡ true → (hold_or_stream waf b w).wrote ≡ true
  unfolding hold_or_stream flush_to_client
  wrote-hold_or_stream b w e =
      wrote-if (ltb 0 w.max_buffer_size && ltb w.max_buffer_size (length w.body + length b)) _ _
        (λ _. e) (λ _. e)

  head_first-wrote : (code : ℕ) (w : Writer T) → w.wrote ≡ true → head_first waf code w ≡ some w
  unfolding head_first
  head_first-wrote code w e = ap (λ t. if not t then locked_header waf true code w else some w) e

  -- the second lock
  head_first-blocks : (code : ℕ) (w : Writer T) → w.wrote ≡ false → head_first waf code w ≡ none
  unfolding head_first locked_header enter
  head_first-blocks code w e = ap (λ t. if not t then none else some w) e

  handler_call-Goes :
      (c : HandlerCall) (w : Writer T) → w.wrote ≡ true → Goes (handler_call waf c w)
  unfolding handler_call write_bytes flush enter locked_header
  handler_call-Goes (set_content_type ct) w e = goes _ e
  handler_call-Goes (call_write_header code) w e = goes _ (wrote-write_header code w)
  handler_call-Goes (call_write b) w e = rw (head_first-wrote 200 w e) (
      Goes-if w.blocked (some w) _ (λ _. goes w e)
        (λ _. Goes-if w.streaming _ _ (λ _. goes _ e) (λ _. goes _ (wrote-hold_or_stream b w e))))
  handler_call-Goes call_flush w e =
      rw (head_first-wrote w.status w e) (Goes-if w.streaming _ _ (λ _. goes _ e) (λ _. goes _ e))

  returns-and_then :
      (f : Writer T → Option (Writer T)) (o : Option (Writer T))
      → Goes o
      → ((u : Writer T) → u.wrote ≡ true → returns (f u) ≡ true)
      → returns (and_then waf o f) ≡ true
  returns-and_then f _ (goes u e) h = h u e

  returns-run_calls :
      (cs : List HandlerCall) (w : Writer T) → w.wrote ≡ true → returns (run_calls waf cs w) ≡ true
  unfolding run_calls
  returns-run_calls [] w e = refl
  returns-run_calls (c ∷ cs) w e =
      returns-and_then (run_calls waf cs) _ (handler_call-Goes c w e)
        (λ u h. returns-run_calls cs u h)

  returns-headed :
      (cs : List HandlerCall) (w : Writer T)
      → w.wrote ≡ false
      → returns (run_calls waf cs w) ≡ is_headed cs
  unfolding run_calls handler_call is_headed write_bytes flush enter locked_header
  returns-headed [] w e = refl
  returns-headed (set_content_type ct ∷ cs) w e =
      returns-headed cs (record w { content_type = ct }) e
  returns-headed (call_write_header code ∷ cs) w e =
      returns-run_calls cs (write_header waf code w) (wrote-write_header code w)
  returns-headed (call_write b ∷ cs) w e = rw (head_first-blocks 200 w e) refl
  returns-headed (call_flush ∷ cs) w e = rw (head_first-blocks w.status w e) refl

  returns-with_handler :
      (panics : Bool) (o : Option (Writer T)) → returns (with_handler waf panics o) ≡ returns o
  returns-with_handler panics none = refl
  returns-with_handler panics (some w) = refl

  -- A handler behind a request that was let through comes back from its writer, exactly if it writes a status before
  -- it writes a text or flushes, or does neither. Otherwise the first such call, which holds the mutex of the writer,
  -- calls WriteHeader, which locks it again and never returns.
  pub returns-run_handler :
      (h : WafHandler) (max : ℤ) (tx : T)
      → returns (run_handler waf none h (new_writer max tx)) ≡ is_headed h.calls
  unfolding run_handler new_writer
  returns-run_handler h max tx =
      returns-with_handler h.panics (run_calls waf h.calls (new_writer max tx))
      ∙ returns-headed h.calls (new_writer max tx) refl
