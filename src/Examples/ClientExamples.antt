-- ===== src/Examples/ClientExamples.antt =====
-- The client's theorems on its exchange, applied to a reply to Message 1 and one to Message 3.
use tfg_edhoc.Base.{
  ℕ, zero, suc, ◌+◌, ◌*◌, ◌≤◌, ◌≡◌, refl, ◌≢◌, ◌⊎◌, true, false, none, some, List, [], ◌∷◌, arith,
  length, replicate, length-replicate, All,
}
use tfg_edhoc.Examples.{libedhoc, libcoap, libcoap_client, parameters, view, buffer, Pdu}
use tfg_edhoc.Common.Buffers.{empty_buffer}
use tfg_edhoc.Library.{changed, bad_request}
use tfg_edhoc.Suites.Int.{pos}
use tfg_edhoc.Coap.{StatusCoap}
use tfg_edhoc.Coap.Data.{get_data, pdu_is_empty}
use tfg_edhoc.Coap.Request.{ParseStatus, parse_edhoc_request}
use tfg_edhoc.Client.Exchange.{Exchange, IoEvent, WaitAndGetResult, exchange_wait_and_get}
use tfg_edhoc.Client.Exchange.Ends.{Takes, wait_and_get_ends}
use tfg_edhoc.Client.Exchange.Laws.{AnsweredBy, wait_and_get_answered, unparsed_confirmation}
use tfg_edhoc.Client.Handshake.{HandsOutMessage3, respond_to_message_2, respond_to_message_2_ok, ok}
use tfg_edhoc.Client.Send.{initial_fields, send_message_1, send_message_3}
use tfg_edhoc.Client.Send.Laws.{Fits, Sent, send_message-Sent}
use tfg_edhoc.Client.Negotiation.{Resources, resolve_negotiation}
use tfg_edhoc.Client.Negotiation.Keeps.{Keeps}
use tfg_edhoc.Client.Negotiation.Laws.{resolve_negotiation_no_fault}
use tfg_edhoc.Examples.SuiteExamples.{parameters-IsValid, both_suites-Consistent}

abbrev started : Exchange
started = record {
  have_response = false;
  response_is_error = false;
  edhoc_exchange_is_complete = false;
  incoming_response_buffer = buffer;
  internal_parsed_response = empty_buffer;
}

abbrev message_2 : Pdu
message_2 = record { code = changed; content_format = some (64 ∷ []); payload = some (5 ∷ 6 ∷ []) }

abbrev arrives : Pdu → IoEvent Pdu
arrives pdu = record { elapsed_milliseconds = pos 3; received = pdu ∷ [] }

abbrev answer : WaitAndGetResult
answer = record {
  status = StatusCoap.ok;
  response = record { bytes = some (5 ∷ 6 ∷ 0 ∷ 0 ∷ []); length = 2 };
  response_is_error = false;
}

waited : (exchange_wait_and_get libcoap (arrives message_2 ∷ []) 5 started).0 ≡ some answer
unfolding exchange_wait_and_get pdu_is_empty parse_edhoc_request get_data
waited = refl

wait_and_get_answered_example : AnsweredBy libcoap buffer (message_2 ∷ []) answer.response false
wait_and_get_answered_example =
    wait_and_get_answered libcoap (arrives message_2 ∷ []) 5 started answer refl refl waited refl

abbrev tick : IoEvent Pdu
tick = record { elapsed_milliseconds = pos 1; received = [] }

abbrev quiet : List (IoEvent Pdu)
quiet = replicate 1000 tick

All-quiet : (n : ℕ) → All (Takes {P = Pdu}) (replicate n tick)
All-quiet zero = tt
All-quiet (suc n) = (ground arith, All-quiet n)

wait_and_get_ends_example : (exchange_wait_and_get libcoap quiet 0 started).0 ≢ none
wait_and_get_ends_example =
    wait_and_get_ends libcoap quiet 0 started (ground arith) (All-quiet 1000) enough
  where
    enough : (0 + 1) * 1000 ≤ length quiet
    enough = omega (arith, length-replicate 1000 tick)

abbrev finished : Exchange
finished = record started { edhoc_exchange_is_complete = true }

-- A refusal that is not an EDHOC message.
abbrev text_reply : Pdu
text_reply = record { code = bad_request; content_format = some (0 ∷ []); payload = some (33 ∷ []) }

text_is_no_message :
    (parse_edhoc_request libcoap (some text_reply) 64 buffer).status ≢ ParseStatus.ok
unfolding parse_edhoc_request
text_is_no_message h = cc

has_payload : pdu_is_empty libcoap text_reply ≡ false
unfolding pdu_is_empty
has_payload = refl

unparsed_confirmation_example :
    (exchange_wait_and_get libcoap (arrives text_reply ∷ []) 5 finished).0
    ≡ some (record { status = StatusCoap.ok; response = empty_buffer; response_is_error = false })
unparsed_confirmation_example =
    unparsed_confirmation libcoap text_reply (arrives text_reply) 5 3 finished refl refl refl refl
      (ground arith) has_payload text_is_no_message

respond_to_message_2_ok_example :
    HandsOutMessage3 libedhoc 2
      (view (7 ∷ []))
      buffer
      (respond_to_message_2 libedhoc (some 2) (view (7 ∷ [])) buffer)
    ⊎ (((respond_to_message_2 libedhoc (some 2) (view (7 ∷ [])) buffer).status ≢ ok)
        × ((respond_to_message_2 libedhoc (some 2) (view (7 ∷ [])) buffer).buffer ≡ empty_buffer))
respond_to_message_2_ok_example = respond_to_message_2_ok libedhoc 2 (view (7 ∷ [])) buffer refl

flow-Fits : Fits (libedhoc.prepend_flow initial_fields)
unfolding initial_fields
flow-Fits = omega (arith, length-replicate {A = ℕ} 1023 0)

cid-Fits : Fits (libedhoc.prepend_connection_id 2 initial_fields)
unfolding initial_fields
cid-Fits = omega (arith, length-replicate {A = ℕ} 1023 0)

send_message-Sent_example :
    Sent libcoap libcoap_client libedhoc false started
      (send_message_1 libcoap libcoap_client libedhoc (some started) (view (7 ∷ [])))
    × Sent libcoap libcoap_client libedhoc true started
        (send_message_3 libcoap libcoap_client libedhoc (some started) (some 2) (view (7 ∷ [])))
send_message-Sent_example =
    send_message-Sent libcoap libcoap_client libedhoc started 2 (view (7 ∷ [])) flow-Fits cid-Fits
      (ground arith)

pub libedhoc-Keeps : Keeps libedhoc
libedhoc-Keeps = record {
  composes = λ c bytes capacity. ground arith;
  flow_fits = flow-Fits;
  reports = λ b code info wrong h.
      (pos 2 ∷ [], record { content = cc; written = ground (arith, h); fits = ground arith });
  fits = λ b code info h. ground (arith, h);
}

abbrev resources : Resources ℕ
resources = record { edhoc_context = 2; exchange = started }

-- The peer refuses the suite of the first Message 1 and answers the second.
abbrev refusal : Pdu
refusal = record { code = bad_request; content_format = some (64 ∷ []); payload = some (1 ∷ []) }

resolve_negotiation_no_fault_example :
    resolve_negotiation libcoap libcoap_client libedhoc true
      (record { events = arrives refusal ∷ []; leisure = 5 })
      (record { events = arrives message_2 ∷ []; leisure = 5 })
      parameters
      buffer
      resources
    ≢ none
resolve_negotiation_no_fault_example =
    resolve_negotiation_no_fault libcoap libcoap_client libedhoc libedhoc-Keeps true
      (record { events = arrives refusal ∷ []; leisure = 5 })
      (record { events = arrives message_2 ∷ []; leisure = 5 }) parameters buffer resources
      parameters-IsValid both_suites-Consistent
