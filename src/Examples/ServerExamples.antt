-- ===== src/Examples/ServerExamples.antt =====
-- The server's theorems, applied to requests to the server of the parent.
use tfg_edhoc.Base.{
  ℕ, ◌≡◌, refl, ◌≢◌, true, none, some, List, [], ◌∷◌, arith, ◌==◌, if◌then◌else◌, replicate, All,
}
use tfg_edhoc.Examples.{libedhoc, libcoap, libcoap_oscore, parameters, view, buffer, Pdu, blank_pdu}
use tfg_edhoc.Library.{changed}
use tfg_edhoc.Suites.{suite_0, cipher_suite_0, cipher_suite_2}
use tfg_edhoc.Suites.Setup.Laws.{Coherent, setup_context_no_fault, setup_context_ok, configured}
use tfg_edhoc.Suites.Setup.{SetupContextStatus, setup_context}
use tfg_edhoc.Server.Session.{
  Dictionary, find_index_by_cid, matches, store_in_first_free, clear_at, Entry, SetStatus,
  RemoveStatus, GetStatus, set_context_by_cid, remove_context_by_cid, get_context_by_cid,
  empty_dictionary, zeroed_entry,
}
use tfg_edhoc.Server.Session.Laws.{EqualityLaws}
use tfg_edhoc.Server.Session.Laws.Map.{Apart, Distinct, lookup, get-set, get-remove}
use tfg_edhoc.Server.Dispatch.{update, State, Environment, Answer, route_message_3}
use tfg_edhoc.Server.Dispatch.Memory.{Inv, Bound}
use tfg_edhoc.Server.Dispatch.Replay.{route_message_3_once}
use tfg_edhoc.Server.Lifetime.{
  Post, initial_state, serve, serve_from_start, Reached, All-zeroed, Distinct-zeroed, owners_zeroed,
}
use tfg_edhoc.Server.Extract.{
  extract_connection_id, connection_id_is_expected, ExtractCidStatus, extract_message_1,
  is_message_1, is_message_1-extract_message_1, extracted,
}
use tfg_edhoc.Server.Handshake.Responders.{
  respond_to_message_1, respond_to_message_3, process_message_3_result, respond_to_message_1_ok,
  respond_to_message_3_ok, Responder1Status, Responder3Status, AnswersWithMessage2,
}
use tfg_edhoc.Server.Handshake.Message1.{process_message_1}
use tfg_edhoc.Server.Handshake.Message2.{compose_message_2}
use tfg_edhoc.Server.Handshake.Message3.{process_message_3}
use tfg_edhoc.Server.Dispatch.{response_buffer}
use tfg_edhoc.Oscore.{build_config}
use tfg_edhoc.Oscore.Sessions.{bind_session}
use tfg_edhoc.Coap.Data.{GetDataStatus, get_data, get_data_ok, ShowsBody}
use tfg_edhoc.ConnectionId.{odd}
use tfg_edhoc.Suites.{cipher_suites_are_valid}
use tfg_edhoc.Suites.Parameters.{
  validate_parameters, methods_are_missing, duplicated_suites_in, suite_in_suites_list,
}
use tfg_edhoc.Suites.Setup.{build_cipher_suites}
use tfg_edhoc.ConnectionId.{generate}

pub libedhoc-EqualityLaws : EqualityLaws libedhoc
libedhoc-EqualityLaws = record {
  reflexive = λ k. ground arith;
  symmetric = λ j k. ground arith;
  congruent = λ i j k h. ground (arith, h);
}

pub parameters-Coherent : Coherent parameters suite_0 cipher_suite_0
parameters-Coherent = record {
  selected = refl;
  metadata = refl;
  has_functions = (refl, refl);
  all_have = (refl, (refl, tt));
  agree = (λ h. refl, (λ h. absurd (ground arith), tt));
}

abbrev always : Environment
always = record { calloc_succeeds = true; psa_init_succeeds = true }

abbrev post : List ℕ → Post Pdu
post bytes = record {
  environment = always;
  request = record { code = changed; content_format = some (65 ∷ []); payload = some bytes };
  response = blank_pdu;
}

-- A Message 1, and a Message 3 under the identifier 2 that the server gave it.
abbrev pub handshake : List (Post Pdu)
handshake = post (245 ∷ 7 ∷ []) ∷ post (2 ∷ 7 ∷ []) ∷ []

serve_from_start_example : Reached libedhoc libcoap libcoap_oscore (
    serve libedhoc libcoap libcoap_oscore parameters handshake
      (initial_state libedhoc libcoap libcoap_oscore 0))
serve_from_start_example =
    serve_from_start libedhoc libcoap libcoap_oscore libedhoc-EqualityLaws parameters suite_0
      cipher_suite_0 parameters-Coherent 0 handshake

abbrev empty : Dictionary ℕ
empty = empty_dictionary libedhoc

abbrev with_2 : Dictionary ℕ
with_2 =
    record { connection_id = 2; context = some 40; occupied = true }
    ∷ replicate 9 (zeroed_entry libedhoc)

stored : set_context_by_cid libedhoc (some 2) (some 40) empty ≡ (SetStatus.ok, with_2)
unfolding set_context_by_cid find_index_by_cid matches store_in_first_free
stored = refl

get-set_example : lookup libedhoc 2 with_2 ≡ some 40
get-set_example = get-set libedhoc libedhoc-EqualityLaws empty with_2 2 2 40 stored

removed : remove_context_by_cid libedhoc (some 2) with_2 ≡ (RemoveStatus.ok, empty)
unfolding remove_context_by_cid find_index_by_cid matches clear_at
removed = refl

zeroed-Apart : (e : Entry ℕ) → All (Apart libedhoc e) (replicate 9 (zeroed_entry libedhoc))
zeroed-Apart e = All-zeroed libedhoc libcoap libcoap_oscore (Apart libedhoc e) 9 (λ o p. cc)

with_2-Distinct : Distinct libedhoc with_2
with_2-Distinct = (
  zeroed-Apart (record { connection_id = 2; context = some 40; occupied = true }),
  Distinct-zeroed libedhoc libcoap libcoap_oscore 9,
)

get-remove_example : lookup libedhoc 2 empty ≡ none
get-remove_example =
    get-remove libedhoc libedhoc-EqualityLaws with_2 empty 2 2 with_2-Distinct removed

-- After the first request of the handshake: the context 2 at address 40 waits for its Message 3.
abbrev pending : State ℕ ℕ ℕ
pending = record {
  dictionary = with_2;
  heap = λ a. if a == 40 then some 2 else none;
  next = 41;
  coap_context = 0;
}

pending-Inv : Inv libedhoc pending
pending-Inv = record {
  accounted = λ a. ground (arith, owners_zeroed libedhoc libcoap libcoap_oscore a 9);
  fresh = λ a h. ground (arith, h);
  capacity = refl;
  bound = (
    λ o. (40, 2, refl, refl, refl),
    All-zeroed libedhoc libcoap libcoap_oscore (Bound libedhoc pending.heap) 9 (λ o. cc),
  );
  distinct = with_2-Distinct;
}

abbrev answer : Answer ℕ ℕ Pdu ℕ
answer = record {
  code = changed;
  response = blank_pdu;
  state = record {
    dictionary = empty;
    heap = update (update pending.heap 40 (some 2)) 40 none;
    next = 41;
    coap_context = 1;
  };
}

answered :
    route_message_3 libedhoc libcoap libcoap_oscore (view (2 ∷ 7 ∷ [])) blank_pdu pending
    ≡ some answer
unfolding route_message_3 extract_connection_id get_context_by_cid find_index_by_cid matches
    respond_to_message_3 response_buffer process_message_3 connection_id_is_expected
    process_message_3_result bind_session remove_context_by_cid build_config clear_at
answered = refl

found :
    ((extract_connection_id libedhoc (view (2 ∷ 7 ∷ []))).status ≡ ExtractCidStatus.ok)
    × ((get_context_by_cid libedhoc
          (some (extract_connection_id libedhoc (view (2 ∷ 7 ∷ []))).cid)
          with_2).status
        ≡ GetStatus.ok)
unfolding extract_connection_id get_context_by_cid find_index_by_cid matches
found = (refl, refl)

route_message_3_once_example : lookup libedhoc 2 empty ≡ none
unfolding extract_connection_id
route_message_3_once_example =
    route_message_3_once libedhoc libcoap libcoap_oscore libedhoc-EqualityLaws (view (2 ∷ 7 ∷ []))
      blank_pdu pending answer 2 pending-Inv found.0 found.1 answered

setup_context_no_fault_example : setup_context libedhoc true 0 parameters ≢ none
setup_context_no_fault_example =
    setup_context_no_fault libedhoc true 0 parameters suite_0 cipher_suite_0 parameters-Coherent

set_up : setup_context libedhoc true 0 parameters ≡ some (SetupContextStatus.ok, 2)
unfolding setup_context validate_parameters cipher_suites_are_valid methods_are_missing
    duplicated_suites_in suite_in_suites_list build_cipher_suites generate
set_up = refl

setup_context_ok_example :
    2
    ≡ configured libedhoc suite_0 300 400
        (0 ∷ [])
        (some cipher_suite_2 ∷ some cipher_suite_0 ∷ [])
        odd
        500
        0
setup_context_ok_example =
    setup_context_ok libedhoc true 0 parameters suite_0 cipher_suite_0 parameters-Coherent 2 300 400
      (0 ∷ []) odd 500 refl refl refl refl refl set_up

responded_1 :
    (respond_to_message_1 libedhoc (view (7 ∷ [])) (some 2) buffer).status ≡ Responder1Status.ok
unfolding respond_to_message_1 process_message_1 compose_message_2
responded_1 = refl

respond_to_message_1_ok_example :
    AnswersWithMessage2 libedhoc
      (view (7 ∷ []))
      2
      buffer
      (respond_to_message_1 libedhoc (view (7 ∷ [])) (some 2) buffer)
respond_to_message_1_ok_example =
    respond_to_message_1_ok libedhoc (view (7 ∷ [])) 2 buffer responded_1

responded_3 :
    (respond_to_message_3 libedhoc (some 2) (view (7 ∷ [])) buffer).status ≡ Responder3Status.ok
unfolding respond_to_message_3 process_message_3
responded_3 = refl

respond_to_message_3_ok_example :
    (true ≡ true)
    × (true ≡ true)
    × ((respond_to_message_3 libedhoc (some 2) (view (7 ∷ [])) buffer).response.length ≡ 0)
respond_to_message_3_ok_example =
    respond_to_message_3_ok libedhoc 2 (view (7 ∷ [])) buffer responded_3

is_message_1-extract_message_1_example :
    is_message_1 libedhoc (view (245 ∷ 7 ∷ []))
    ≡ extracted libedhoc (extract_message_1 libedhoc (view (245 ∷ 7 ∷ [])) buffer).status
is_message_1-extract_message_1_example =
    is_message_1-extract_message_1 libedhoc (view (245 ∷ 7 ∷ [])) buffer refl

abbrev reply : Pdu
reply = record { code = changed; content_format = some (64 ∷ []); payload = some (7 ∷ 7 ∷ []) }

got : (get_data libcoap (some reply) buffer).status ≡ GetDataStatus.ok
unfolding get_data
got = refl

get_data_ok_example :
    ShowsBody libcoap (some reply) buffer (get_data libcoap (some reply) buffer).buffer
get_data_ok_example = get_data_ok libcoap (some reply) buffer got
