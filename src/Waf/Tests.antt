-- ===== src/Waf/Tests.antt =====
-- A transaction that counts the bytes it has seen, and interrupts a response with more than five.
use kiya.Base.{
  ℕ, ◌+◌, ◌≡◌, refl, true, false, [], ◌∷◌, none, some, if◌then◌else◌, ltb, length, arith,
}
use kiya.Base.Int.{pos}
use kiya.Text.{codes}
use kiya.Waf.{
  ClientCall, head, chunk, Transaction, new_writer, run_handler, WafHandler, set_content_type,
  call_write_header, call_write, call_flush, read_ok, wrap_with_waf,
}
use kiya.Waf.Delivery.{sent_of, header_and_body, sent-run_handler}
use kiya.Waf.Overflow.{end_of, sent-overflow}
use kiya.Waf.Locking.{returns, returns-run_handler}

abbrev waf : Transaction ℕ
waf = record {
  request_headers = λ n. n;
  request_body = λ b n. n;
  response_headers = λ ct code n. n;
  response_body = λ b n. n + length b;
  interruption = λ n. if ltb 5 n then some 403 else none;
}

sent-run_handler_example :
    sent_of waf (
      run_handler waf none
        (header_and_body waf (codes "text/html") 200 (codes "ab" ∷ codes "cd" ∷ []))
        (new_writer (pos 10) 0))
    ≡ some (head 200 ∷ chunk (codes "abcd") ∷ [])
unfolding codes kiya.Waf.is_binary kiya.Text.has_prefix kiya.Text.text_eq kiya.Waf.buffer_size
    kiya.Waf.Delivery.concat_all
sent-run_handler_example =
    sent-run_handler waf (pos 10) 0 (codes "text/html") 200 (codes "ab" ∷ codes "cd" ∷ []) refl
      (omega arith)

sent-overflow_example :
    end_of waf (
      run_handler waf none
        (header_and_body waf (codes "text/html") 404 (codes "ab" ∷ codes "cd" ∷ codes "e" ∷ []))
        (new_writer (pos 3) 0))
    ≡ some (
      chunk (codes "cd") ∷ chunk (codes "e") ∷ [],
      waf.response_headers (codes "text/html") 404 0,
    )
unfolding codes kiya.Waf.is_binary kiya.Text.has_prefix kiya.Text.text_eq kiya.Waf.buffer_size
    kiya.Waf.Delivery.concat_all
sent-overflow_example =
    sent-overflow waf (pos 3) 0 (codes "text/html") 404 (codes "ab" ∷ []) (codes "cd")
      (codes "e" ∷ []) refl refl (omega arith) (omega arith)

abbrev unheaded : WafHandler
unheaded = record {
  calls = set_content_type (codes "text/html") ∷ call_write (codes "ab") ∷ [];
  panics = false;
}

returns-run_handler_example :
    returns (run_handler waf none unheaded (new_writer (pos 10) 0)) ≡ false
unfolding kiya.Waf.Locking.is_headed
returns-run_handler_example = returns-run_handler waf unheaded (pos 10) 0

-- A text of six bytes is interrupted.
wrap_with_waf-interrupts :
    sent_of waf (
      wrap_with_waf waf
        (pos 10)
        0
        true
        (read_ok (codes "x"))
        (λ b. header_and_body waf (codes "text/html") 200 (codes "abcdef" ∷ [])))
    ≡ some (head 403 ∷ chunk (codes "Blocked by WAF (Response Body)") ∷ [])
unfolding codes kiya.Waf.is_binary kiya.Text.has_prefix kiya.Text.text_eq kiya.Waf.buffer_size
    kiya.Waf.Delivery.concat_all kiya.Waf.wrap_with_waf kiya.Waf.inspect_request kiya.Waf.read_body
    kiya.Waf.with_body kiya.Waf.run_handler kiya.Waf.run_calls kiya.Waf.handler_call kiya.Waf.enter
    kiya.Waf.head_first kiya.Waf.locked_header kiya.Waf.write_header kiya.Waf.inspect_header
    kiya.Waf.decide_header kiya.Waf.write_bytes kiya.Waf.hold_or_stream kiya.Waf.new_writer
    kiya.Waf.end_handler kiya.Waf.after_handler kiya.Waf.inspect_body kiya.Waf.decide_body
    kiya.Waf.flush_to_client kiya.Waf.flush_held
wrap_with_waf-interrupts = refl
