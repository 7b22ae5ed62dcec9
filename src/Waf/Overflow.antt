-- ===== src/Waf/Overflow.antt =====
-- A response that does not fit into the buffer.
use kiya.Base.{
  Option, ℕ, zero, suc, ◌+◌, ◌≤◌, ◌<◌, ◌≡◌, refl, sym, ap, ◌∙◌, true, false, append_assoc,
  append-nil, List, [], ◌∷◌, ◌++◌, map, none, some, arith, length, length-append, ltb,
}
use kiya.Base.Int.{ℤ, pos, negsuc}
use kiya.Text.{Text}
use kiya.Waf.{
  enter, head_first, locked_header, ClientCall, chunk, Transaction, Writer, is_binary,
  decide_header, inspect_header, write_header, write_bytes, hold_or_stream, call_write,
  handler_call, run_calls, run_handler, buffer_size, new_writer, flush_to_client, after_handler,
  end_handler,
}
use kiya.Waf.Delivery.{concat_all, holding, hold_or_stream-fits, header_and_body, header_decision}

-- a writer that has given up holding
abbrev overflowed : {T : Type 0} → ℕ → ℕ → Text → T → Text → List ClientCall → Writer T
overflowed status max ct tx body sent = record (holding false status max ct tx body) {
  streaming = true;
  buffer_limit_exceeded = true;
  sent = sent;
}

buffer_size-positive : (max : ℤ) → ltb 0 (buffer_size max) ≡ true
unfolding buffer_size
buffer_size-positive (pos zero) = refl
buffer_size-positive (pos (suc n)) = ground arith
buffer_size-positive (negsuc n) = refl

module _ {T : Type 0} (waf : Transaction T) where
  -- what is written then goes to the connection
  writes_streamed :
      (status max : ℕ) (ct : Text) (tx : T) (body : Text) (bs : List Text) (sent : List ClientCall)
      → run_calls waf (map (λ b. call_write b) bs) (overflowed status max ct tx body sent)
        ≡ some (overflowed status max ct tx body (sent ++ map chunk bs))
  unfolding run_calls handler_call write_bytes enter head_first locked_header
  writes_streamed status max ct tx body [] sent =
      ap (λ x. some (overflowed status max ct tx body x)) (sym (append-nil sent))
  writes_streamed status max ct tx body (b ∷ bs) sent =
      writes_streamed status max ct tx body bs (sent ++ chunk b ∷ [])
      ∙ ap (λ x. some (overflowed status max ct tx body x))
          (append_assoc sent (chunk b ∷ []) (map chunk bs))

  hold_or_stream-full :
      (status max : ℕ) (ct : Text) (tx : T) (body b : Text)
      → ltb 0 max ≡ true
      → max < length body + length b
      → hold_or_stream waf b (holding false status max ct tx body)
        ≡ overflowed status max ct tx body (chunk b ∷ [])
  unfolding hold_or_stream flush_to_client
  hold_or_stream-full status max ct tx body b p h =
      let e : ltb max (length body + length b) ≡ true = ground arith in rw (p, e) refl

  writes_overflow :
      (status max : ℕ) (ct : Text) (tx : T) (before : List Text) (b : Text) (after : List Text)
      (body : Text)
      → ltb 0 max ≡ true
      → length body + length (concat_all before) ≤ max
      → max < length body + length (concat_all before) + length b
      → run_calls waf
          (map (λ x. call_write x) (before ++ b ∷ after))
          (holding false status max ct tx body)
        ≡ some (overflowed status max ct tx (body ++ concat_all before) (map chunk (b ∷ after)))
  unfolding run_calls handler_call write_bytes concat_all enter head_first locked_header
  writes_overflow status max ct tx [] b after body p h full =
      rw (hold_or_stream-full status max ct tx body b p (omega arith), append-nil body)
        (writes_streamed status max ct tx body after (chunk b ∷ []))
  writes_overflow status max ct tx (c ∷ before) b after body p h full =
      let sizes = length-append c (concat_all before) in
      rw (hold_or_stream-fits waf status max ct tx body c (omega arith)) (
        writes_overflow status max ct tx before b after (body ++ c) p
          (omega (arith, length-append body c)) (omega (arith, length-append body c))
        ∙ ap (λ x. some (overflowed status max ct tx x (map chunk (b ∷ after))))
            (append_assoc body c (concat_all before)))

  -- the calls that the connection got, and the state of the transaction
  abbrev pub end_of : Option (Writer T) → Option (List ClientCall × T)
  end_of none = none
  end_of (some w) = some (w.sent, w.tx)

  -- A handler that sets a content type that is not sent on at once, writes a status and then chunks, whose
  -- headers are not interrupted, and whose chunks fit into the buffer up to one: the
  -- connection gets that chunk and those behind it, without the status and without the chunks in front of it, and
  -- the transaction ends as the phase of the response headers left it: no part of the body is inspected.
  pub sent-overflow :
      (max : ℤ) (tx : T) (ct : Text) (code : ℕ) (before : List Text) (b : Text) (after : List Text)
      → is_binary ct ≡ false
      → header_decision waf ct code tx ≡ none
      → length (concat_all before) ≤ buffer_size max
      → buffer_size max < length (concat_all before) + length b
      → end_of (
          run_handler waf none
            (header_and_body waf ct code (before ++ b ∷ after))
            (new_writer max tx))
        ≡ some (map chunk (b ∷ after), waf.response_headers ct code tx)
  unfolding run_handler run_calls handler_call enter locked_header write_header inspect_header
      new_writer decide_header end_handler after_handler
  sent-overflow max tx ct code before b after binary pass h full =
      rw (pass, binary)
        (rw
          (writes_overflow code (buffer_size max) ct (waf.response_headers ct code tx) before b
            after [] (buffer_size-positive max) (omega arith) (omega arith))
          refl)
