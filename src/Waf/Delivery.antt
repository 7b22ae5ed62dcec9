-- ===== src/Waf/Delivery.antt =====
-- A response that fits into the buffer, from the calls of its handler to the calls on the connection.
use kiya.Base.{
  ℕ, ◌+◌, ◌≤◌, ◌≡◌, refl, sym, ap, ◌∙◌, Bool, true, false, List, [], ◌∷◌, ◌++◌, map, Option, none,
  some, arith, length, length-append, Bool-cases, inl, inr, ltb, append_assoc, append-nil,
}
use kiya.Base.Int.{ℤ}
use kiya.Text.{Text, codes}
use kiya.Waf.{
  enter, head_first, locked_header, WafHandler, with_handler, ClientCall, head, chunk, Transaction,
  Writer, is_binary, decide_header, inspect_header, write_header, write_bytes, hold_or_stream,
  set_content_type, call_write_header, call_write, handler_call, run_calls, run_handler,
  buffer_size, new_writer, flush_to_client, flush_held, decide_body, inspect_body, after_handler,
  end_handler,
}

unfoldable pub concat_all : List Text → Text
concat_all [] = []
concat_all (b ∷ bs) = b ++ concat_all bs

-- a writer behind `WriteHeader` that holds a body back, or drops what is written
abbrev pub holding : {T : Type 0} → Bool → ℕ → ℕ → Text → T → Text → Writer T
holding blocked status max ct tx body = record {
  status = status;
  body = body;
  wrote = true;
  streaming = false;
  max_buffer_size = max;
  buffer_limit_exceeded = false;
  blocked = blocked;
  content_type = ct;
  tx = tx;
  sent = [];
}

module _ {T : Type 0} (waf : Transaction T) where
  pub hold_or_stream-fits :
      (status max : ℕ) (ct : Text) (tx : T) (body b : Text)
      → length body + length b ≤ max
      → hold_or_stream waf b (holding false status max ct tx body)
        ≡ holding false status max ct tx (body ++ b)
  unfolding hold_or_stream
  hold_or_stream-fits status max ct tx body b h =
      let e : ltb max (length body + length b) ≡ false = ground arith in
      elim (Bool-cases (ltb 0 max)) [ inl z ↦ rw (z, e) refl | inr z ↦ rw z refl ]

  -- writes that fit are held
  pub writes_held :
      (status max : ℕ) (ct : Text) (tx : T) (bs : List Text) (body : Text)
      → length body + length (concat_all bs) ≤ max
      → run_calls waf (map (λ b. call_write b) bs) (holding false status max ct tx body)
        ≡ some (holding false status max ct tx (body ++ concat_all bs))
  unfolding run_calls handler_call concat_all write_bytes enter head_first locked_header
  writes_held status max ct tx [] body h =
      ap (λ b. some (holding false status max ct tx b)) (sym (append-nil body))
  writes_held status max ct tx (b ∷ bs) body h =
      let sizes = length-append b (concat_all bs) in
      rw (hold_or_stream-fits status max ct tx body b (omega arith)) (
        writes_held status max ct tx bs (body ++ b) (omega (arith, length-append body b))
        ∙ ap (λ x. some (holding false status max ct tx x)) (append_assoc body b (concat_all bs)))

  -- writes behind an interruption are dropped
  pub writes_blocked :
      (status max : ℕ) (ct : Text) (tx : T) (bs : List Text) (body : Text)
      → run_calls waf (map (λ b. call_write b) bs) (holding true status max ct tx body)
        ≡ some (holding true status max ct tx body)
  unfolding run_calls handler_call write_bytes enter head_first locked_header
  writes_blocked status max ct tx [] body = refl
  writes_blocked status max ct tx (b ∷ bs) body = writes_blocked status max ct tx bs body

  -- the calls on the connection, unless the handler never returns
  abbrev pub sent_of : Option (Writer T) → Option (List ClientCall)
  sent_of none = none
  sent_of (some w) = some w.sent

  -- a handler that writes a header and then a body
  abbrev pub header_and_body : Text → ℕ → List Text → WafHandler
  header_and_body ct code bs = record {
    calls = set_content_type ct ∷ call_write_header code ∷ map (λ b. call_write b) bs;
    panics = false;
  }

  -- what is held when the handler has returned
  abbrev pub held_status : Option ℕ → ℕ → ℕ
  held_status none code = code
  held_status (some st) code = st

  abbrev pub held_text : Option ℕ → Text → Text
  held_text none body = body
  held_text (some st) body = codes "Blocked by WAF"

  abbrev pub delivered : Option ℕ → ℕ → Text → List ClientCall
  delivered none status body = head status ∷ chunk body ∷ []
  delivered (some st) status body = head st ∷ chunk (codes "Blocked by WAF (Response Body)") ∷ []

  sent-after_handler :
      (blocked : Bool) (status max : ℕ) (ct : Text) (tx : T) (body : Text) (decision : Option ℕ)
      → waf.interruption (waf.response_body body tx) ≡ decision
      → (after_handler waf (holding blocked status max ct tx body)).sent
        ≡ delivered decision status body
  unfolding after_handler inspect_body decide_body flush_to_client flush_held codes
  sent-after_handler blocked status max ct tx body none e =
      rw e (elim (Bool-cases (ltb 0 (length body))) [ inl z ↦ rw z refl | inr z ↦ rw z refl ])
  sent-after_handler blocked status max ct tx body (some st) e = rw e refl

  sent-run_decided :
      (max : ℤ) (tx : T) (ct : Text) (code : ℕ) (bs : List Text) (decision : Option ℕ)
      → is_binary ct ≡ false
      → length (concat_all bs) ≤ buffer_size max
      → sent_of (
          with_handler waf false (
            run_calls waf
              (map (λ b. call_write b) bs)
              (decide_header waf decision code (record (new_writer max tx) { content_type = ct }))))
        ≡ some (
            delivered
              (waf.interruption (waf.response_body (held_text decision (concat_all bs)) tx))
              (held_status decision code)
              (held_text decision (concat_all bs)))
  unfolding decide_header new_writer end_handler
  sent-run_decided max tx ct code bs none binary h = rw binary (
      rw (writes_held code (buffer_size max) ct tx bs [] (omega arith))
        (ap some (sent-after_handler false code (buffer_size max) ct tx (concat_all bs) _ refl)))
  sent-run_decided max tx ct code bs (some st) binary h =
      rw (writes_blocked st (buffer_size max) (codes "text/plain") tx bs (codes "Blocked by WAF")) (
        ap some (
          sent-after_handler true st (buffer_size max) (codes "text/plain") tx
            (codes "Blocked by WAF") _ refl))

  abbrev pub header_decision : Text → ℕ → T → Option ℕ
  header_decision ct code tx = waf.interruption (waf.response_headers ct code tx)

  -- A handler that sets a content type that is not sent on at once, writes a status and then chunks that fit into
  -- the buffer together, behind a request that was let through: the connection gets one status and one text. They
  -- are those of the handler if the transaction interrupts neither at the headers nor, after it has seen the whole
  -- text, at the body; otherwise they are the status of the interruption and a notice, and nothing of the handler's
  -- text.
  pub sent-run_handler :
      (max : ℤ) (tx : T) (ct : Text) (code : ℕ) (bs : List Text)
      → is_binary ct ≡ false
      → length (concat_all bs) ≤ buffer_size max
      → sent_of (run_handler waf none (header_and_body ct code bs) (new_writer max tx))
        ≡ some (
            delivered
              (waf.interruption (
                waf.response_body
                  (held_text (header_decision ct code tx) (concat_all bs))
                  (waf.response_headers ct code tx)))
              (held_status (header_decision ct code tx) code)
              (held_text (header_decision ct code tx) (concat_all bs)))
  unfolding run_handler run_calls handler_call enter locked_header write_header inspect_header
      new_writer decide_header
  sent-run_handler max tx ct code bs binary h =
      sent-run_decided max (waf.response_headers ct code tx) ct code bs
        (waf.interruption (waf.response_headers ct code tx)) binary h
