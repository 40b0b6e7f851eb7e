-- ===== src/Client/Exchange/Laws.antt =====
-- What the waiting client of src/coap/client/cli_exchange.c takes for an answer.
use tfg_edhoc.Base.{
  ℕ, ◌+◌, ◌-◌, ◌*◌, ◌%◌, ◌<◌, ◌≡◌, refl, subst, ◌≢◌, ◌⊎◌, inl, inr, Bool, true, false, not, some,
  List, [], ◌∷◌, ◌++◌, append-nil, append_assoc, arith, Bool-cases,
}
use tfg_edhoc.Common.Buffers.{ReadonlyBuffer, WritableBuffer, readonly_buffer_has_content}
use tfg_edhoc.Library.{Libcoap, empty_code}
use tfg_edhoc.Suites.Int.{pos}
use tfg_edhoc.Coap.{StatusCoap, content_edhoc}
use tfg_edhoc.Coap.Data.{pdu_is_empty}
use tfg_edhoc.Coap.Request.{ParseStatus, parse_edhoc_request}
use tfg_edhoc.Coap.Pdu.{coap_response_indicates_success}
use tfg_edhoc.Client.Exchange.{
  Exchange, is_empty_code, IoEvent, WaitAndGetResult, response_handler, deliver, wait_loop,
  wait_for_coap_response, exchange_wait_and_get,
}
use tfg_edhoc.Client.Exchange.Ends.{elapsed_cases}

-- The responses of the events, in order.
abbrev pub responses : {P : Type 0} → List (IoEvent P) → List P
responses [] = []
responses (event ∷ events) = event.received ++ responses events

module _ {P O : Type 0} (coap : Libcoap P O) where
  -- The answer is the content of the response `pdu`, which is an EDHOC message, and the error flag
  -- says whether its code is other than 2.04.
  pub record Answers (buffer : WritableBuffer) (pdu : P) (response : ReadonlyBuffer)
      (is_error : Bool) : Type 0 where
    pub not_empty : coap.get_code pdu ≢ empty_code
    pub parsed : (parse_edhoc_request coap (some pdu) content_edhoc buffer).status ≡ ParseStatus.ok
    pub is_content :
        response ≡ (parse_edhoc_request coap (some pdu) content_edhoc buffer).parsed_request
    pub flag : is_error ≡ not (coap_response_indicates_success (coap.get_code pdu))

  -- One of the responses answers.
  abbrev pub AnsweredBy : WritableBuffer → List P → ReadonlyBuffer → Bool → Type 0
  AnsweredBy buffer [] response is_error = ⊥
  AnsweredBy buffer (pdu ∷ pdus) response is_error =
      Answers buffer pdu response is_error ⊎ AnsweredBy buffer pdus response is_error

  -- Before Message 3 is sent, what the exchange holds, if anything, answers.
  record Sound (buffer : WritableBuffer) (seen : List P) (e : Exchange) : Type 0 where
    same_buffer : e.incoming_response_buffer ≡ buffer
    running : e.edhoc_exchange_is_complete ≡ false
    answered :
        readonly_buffer_has_content e.internal_parsed_response ≡ true
        → AnsweredBy buffer seen e.internal_parsed_response e.response_is_error

  AnsweredBy-left :
      (b : WritableBuffer) (xs ys : List P) (r : ReadonlyBuffer) (f : Bool)
      → AnsweredBy b xs r f
      → AnsweredBy b (xs ++ ys) r f
  AnsweredBy-left b [] ys r f h = elim h [ ]
  AnsweredBy-left b (x ∷ xs) ys r f (inl h) = inl h
  AnsweredBy-left b (x ∷ xs) ys r f (inr h) = inr (AnsweredBy-left b xs ys r f h)

  AnsweredBy-last :
      (b : WritableBuffer) (xs : List P) (x : P) (r : ReadonlyBuffer) (f : Bool)
      → Answers b x r f
      → AnsweredBy b (xs ++ x ∷ []) r f
  AnsweredBy-last b [] x r f h = inl h
  AnsweredBy-last b (y ∷ ys) x r f h = inr (AnsweredBy-last b ys x r f h)

  parse_cases : (s : ParseStatus) → (s ≡ ParseStatus.ok) ⊎ (s ≢ ParseStatus.ok)
  parse_cases ParseStatus.ok = inl refl
  parse_cases ParseStatus.err_pdu = inr (λ h. cc)
  parse_cases ParseStatus.err_data_buffer = inr (λ h. cc)
  parse_cases ParseStatus.err_missing_format = inr (λ h. cc)
  parse_cases ParseStatus.err_unsupported_format = inr (λ h. cc)
  parse_cases ParseStatus.err_no_payload = inr (λ h. cc)

  -- A response either answers, or leaves what the exchange holds.
  handler_cases :
      (b : WritableBuffer) (pdu : P) (e : Exchange)
      → e.incoming_response_buffer ≡ b
      → e.edhoc_exchange_is_complete ≡ false
      → ((response_handler coap pdu e).internal_parsed_response ≡ e.internal_parsed_response)
          × ((response_handler coap pdu e).response_is_error ≡ e.response_is_error)
        ⊎ Answers b pdu
            (response_handler coap pdu e).internal_parsed_response
            (response_handler coap pdu e).response_is_error
  unfolding response_handler
  handler_cases b pdu e same running = elim (Bool-cases (is_empty_code (coap.get_code pdu))) [
    | inl m ↦ inl (ground arith, ground arith)
    | inr m ↦ elim (parse_cases (parse_edhoc_request coap (some pdu) content_edhoc b).status) [
      | inl ok ↦ inr (record {
        not_empty = λ q. cc (rw q at m);
        parsed = ok;
        is_content = rw (same, m, running, ok) (ground arith);
        flag = rw (same, m, running, ok) (ground arith);
      })
      | inr n ↦ inl (rw same (ground arith), rw same (ground arith))
    ]
  ]

  response_handler-Sound :
      (b : WritableBuffer) (seen : List P) (pdu : P) (e : Exchange)
      → Sound b seen e
      → Sound b (seen ++ pdu ∷ []) (response_handler coap pdu e)
  unfolding response_handler
  response_handler-Sound b seen pdu e s = record {
    same_buffer = ground (arith, s.same_buffer);
    running = ground (arith, s.running);
    answered = λ h. elim (handler_cases b pdu e s.same_buffer s.running) [
      | inl (r, f) ↦ rw (r, f) (AnsweredBy-left b seen (pdu ∷ []) _ _ (s.answered (rw r at h)))
      | inr a ↦ AnsweredBy-last b seen pdu _ _ a
    ];
  }

  deliver-Sound :
      (b : WritableBuffer) (seen pdus : List P) (e : Exchange)
      → Sound b seen e
      → Sound b (seen ++ pdus) (deliver coap pdus e)
  unfolding deliver
  deliver-Sound b seen [] e s = rw append-nil s
  deliver-Sound b seen (pdu ∷ pdus) e s =
      let next =
        deliver-Sound b (seen ++ pdu ∷ []) pdus (response_handler coap pdu e)
          (response_handler-Sound b seen pdu e s) in
      subst (λ l. Sound b l (deliver coap pdus (response_handler coap pdu e)))
        (append_assoc seen (pdu ∷ []) pdus) next

  Sound-more :
      (b : WritableBuffer) (seen more : List P) (e : Exchange)
      → Sound b seen e
      → Sound b (seen ++ more) e
  Sound-more b seen more e s = record {
    same_buffer = s.same_buffer;
    running = s.running;
    answered = λ h. AnsweredBy-left b seen more _ _ (s.answered h);
  }

  wait_loop-Sound :
      (b : WritableBuffer) (seen : List P) (events : List (IoEvent P)) (remaining : ℕ)
      (e : Exchange)
      → Sound b seen e
      → Sound b (seen ++ responses events) (wait_loop coap events remaining e).exchange
  unfolding wait_loop
  wait_loop-Sound b seen [] remaining e s = rw append-nil s
  wait_loop-Sound b seen (event ∷ events) remaining e s =
      let e' = deliver coap event.received e in
      let all = seen ++ (event.received ++ responses events) in
      let split = append_assoc seen event.received (responses events) in
      let delivered = deliver-Sound b seen event.received e s in
      let stopped : Sound b all e = Sound-more b seen (event.received ++ responses events) e s in
      let ended : Sound b all e' =
        subst (λ l. Sound b l e') split
          (Sound-more b (seen ++ event.received) (responses events) e' delivered) in
      elim (elapsed_cases event.elapsed_milliseconds) [
        | inl (n, q) ↦
            let on : Sound b all (wait_loop coap events (remaining - n) e').exchange =
              subst (λ l. Sound b l (wait_loop coap events (remaining - n) e').exchange) split
                (wait_loop-Sound b (seen ++ event.received) events (remaining - n) e' delivered) in
            ground (arith, q, stopped, ended, on)
        | inr (n, q) ↦ ground (arith, q, stopped, ended)
      ]

  -- Before Message 3 is sent, from an exchange that holds no content, an answer that the client
  -- goes on with is the whole content of one of the responses that arrived, which carried an EDHOC
  -- message and was not an empty one; and the error flag says whether that response's code was
  -- other than 2.04.
  pub wait_and_get_answered :
      (events : List (IoEvent P)) (leisure : ℕ) (e : Exchange) (r : WaitAndGetResult)
      → readonly_buffer_has_content e.internal_parsed_response ≡ false
      → e.edhoc_exchange_is_complete ≡ false
      → (exchange_wait_and_get coap events leisure e).0 ≡ some r
      → r.status ≡ StatusCoap.ok
      → AnsweredBy e.incoming_response_buffer (responses events) r.response r.response_is_error
  unfolding exchange_wait_and_get wait_for_coap_response
  wait_and_get_answered events leisure e r blank running h ok =
      let start : Sound e.incoming_response_buffer [] e = record {
        same_buffer = refl;
        running = running;
        answered = λ c. absurd (cc);
      } in
      let s =
        wait_loop-Sound e.incoming_response_buffer [] events ((leisure + 1) % 65536 * 1000) e
          start in
      let after = (wait_loop coap events ((leisure + 1) % 65536 * 1000) e).exchange in
      let has_content : readonly_buffer_has_content after.internal_parsed_response ≡ true =
        ground (arith, h, ok, s.running) in
      let response : r.response ≡ after.internal_parsed_response =
        ground (arith, h, ok, s.running) in
      let flag : r.response_is_error ≡ after.response_is_error = ground (arith, h, ok, s.running) in
      rw (response, flag) (s.answered has_content)

  -- After Message 3 was sent, a reply that arrives alone and in time, and has a payload but is no
  -- EDHOC message, ends the wait with success, whatever its code: the answer and the error flag are
  -- those that the exchange held before.
  pub unparsed_confirmation :
      (pdu : P) (event : IoEvent P) (leisure ms : ℕ) (e : Exchange)
      → e.edhoc_exchange_is_complete ≡ true
      → e.have_response ≡ false
      → event.received ≡ pdu ∷ []
      → event.elapsed_milliseconds ≡ pos ms
      → ms < (leisure + 1) % 65536 * 1000
      → pdu_is_empty coap pdu ≡ false
      → (parse_edhoc_request coap (some pdu) content_edhoc e.incoming_response_buffer).status
        ≢ ParseStatus.ok
      → (exchange_wait_and_get coap (event ∷ []) leisure e).0
        ≡ some (record {
          status = StatusCoap.ok;
          response = e.internal_parsed_response;
          response_is_error = e.response_is_error;
        })
  unfolding exchange_wait_and_get wait_for_coap_response wait_loop deliver response_handler
  unparsed_confirmation pdu event leisure ms e complete waiting received elapsed small empty
        unparsed =
      rw (received, elapsed) (ground arith)
