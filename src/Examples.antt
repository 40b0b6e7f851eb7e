-- ===== src/Examples.antt =====
-- Concrete libraries, states and messages at which the theorems apply. They stand in for libedhoc and
-- libcoap in examples only.
pub mod ServerExamples
pub mod ClientExamples
pub mod SuiteExamples
pub mod OscoreExamples
pub mod SessionExamples
pub mod InteropExamples
pub mod DispatchExamples
pub mod ProgramExamples
pub mod ServerRunExamples
pub mod ApplicationExamples
use tfg_edhoc.Base.{
  ℕ, zero, suc, ◌+◌, ◌-◌, ◌*◌, ◌/◌, ◌%◌, ◌≤◌, ◌<◌, ◌≡◌, refl, sym, ap, subst, ◌∙◌, ◌≢◌, ◌⊎◌, inl,
  inr, Bool, true, false, not, ◌&&◌, ◌||◌, Option, none, some, List, [], ◌∷◌, ◌++◌, map, append-nil,
  append_assoc, arith, ltb, leb, ◌==◌, if◌then◌else◌, is_some, or_else, same_address, ◌>>=◌,
  Bool-cases, Option-cases, same_address_eq, same_address_refl, length, get_elem?, write, replicate,
  take, last_or, length-append, length-replicate, length-map, write-append, All, write_next,
  take-append, All-append, drop,
}
use tfg_edhoc.Common.Buffers.{ReadonlyBuffer, WritableBuffer}
use tfg_edhoc.Library.{
  Libedhoc, Libcoap, Composed, PrependedFields, OscoreSecrets, ErrorInfo, ErrorCode, PduCode,
  LargeData, wrong_selected_cipher_suite, cipher_suites, changed,
}
use tfg_edhoc.Oscore.Sessions.{LibcoapOscore}
use tfg_edhoc.Suites.Int.{ℤ, pos, negsuc}
use tfg_edhoc.Suites.{
  CipherSuite, CipherSuiteDetails, CipherSuiteList, suite_0, suite_2, cipher_suite_0,
  cipher_suite_2,
}
use tfg_edhoc.Suites.Parameters.{EdhocParameters}
use tfg_edhoc.Client.Send.{LibcoapClient}
use tfg_edhoc.ConnectionId.{even, odd}

abbrev identifier_of : ℤ → ℕ
identifier_of (pos n) = n
identifier_of (negsuc n) = 0

abbrev composed : ℕ → List ℕ → ℕ → Composed ℕ
composed c bytes capacity = record { success = true; context = c; bytes = 7 ∷ 7 ∷ []; written = 2 }

abbrev prepended : ℕ → PrependedFields → Option PrependedFields
prepended b f = some (record f {
  buffer = b ∷ drop 1 f.buffer;
  offset = 1;
  edhoc_message_size = f.edhoc_message_size - 1;
})

abbrev flow_of : List ℕ → Option (Bool × ReadonlyBuffer)
flow_of [] = none
flow_of (b ∷ bs) = some (b == 245, record { bytes = some bs; length = length bs })

abbrev cid_of : List ℕ → Option (ℕ × ReadonlyBuffer)
cid_of [] = none
cid_of (b ∷ bs) = some (b, record { bytes = some bs; length = length bs })

-- A context is its own connection identifier, every message is accepted, and the peer supports suite 2.
abbrev pub libedhoc : Libedhoc ℕ ℕ
libedhoc = record {
  zeroed_context = 0;
  context_init = λ c. (true, c);
  set_methods = λ m c. (true, c);
  set_cipher_suites = λ s c. (true, c);
  set_connection_id = λ k c. (true, k);
  bind_keys = λ k c. (true, c);
  set_user_context = λ d c. (true, c);
  bind_crypto = λ k c. (true, c);
  bind_credentials = λ k c. (true, c);
  context_deinit = λ c. (true, 0);
  private_cid = λ c. c;
  private_peer_cid = λ c. c;
  selected_suite_value = λ c. pos 2;
  one_byte_integer_cid = identifier_of;
  zeroed_cid = 0;
  connection_id_equal = λ j k. j == k;
  message_1_compose = composed;
  message_1_process = λ c m. (true, c);
  message_2_compose = composed;
  message_2_process = λ c m. (true, c);
  message_3_compose = composed;
  message_3_process = λ c m. (true, c);
  message_4_compose = composed;
  message_4_process = λ c m. (true, c);
  error_get_code = λ c. some wrong_selected_cipher_suite;
  error_get_cipher_suites = λ c n. some (pos 2 ∷ []);
  message_error_compose = λ bytes n code info. some (9 ∷ [], 1);
  message_error_process = λ b n. some (
    wrong_selected_cipher_suite,
    record { content = cipher_suites (pos 2 ∷ []); total_entries = 1; written_entries = 1 },
  );
  extract_flow_info = λ b. flow_of (or_else b.bytes []);
  extract_connection_id = λ b. cid_of (or_else b.bytes []);
  prepend_flow = prepended 245;
  prepend_connection_id = prepended;
  prepend_recalculate_size = λ f. some (record f { buffer_size = f.offset + f.edhoc_message_size });
  export_oscore_session = λ c a b d. some (record {
    context = c;
    master_secret = λ i. (171 + i) % 256;
    master_salt = λ i. i % 256;
    sender_id = λ i. (2 + i) % 256;
    sender_id_len = 1;
    recipient_id = λ i. (3 + i) % 256;
    recipient_id_len = 1;
  });
}

pub record Pdu : Type 0 where
  pub code : PduCode
  pub content_format : Option (List ℕ)
  pub payload : Option (List ℕ)

abbrev whole_body : Option (List ℕ) → Option LargeData
whole_body none = none
whole_body (some body) = some (record {
  length = length body;
  data_bytes = some body;
  offset = 0;
  total_length = length body;
})

-- The option list is the value of the content format.
abbrev pub libcoap : Libcoap Pdu (List ℕ)
libcoap = record {
  get_code = λ p. p.code;
  set_code = λ c p. record p { code = c };
  get_data_large = λ p. whole_body p.payload;
  check_content_format = λ p. p.content_format;
  decode_var_bytes = λ bytes. last_or 0 bytes;
  add_data = λ bytes n p. (true, record p { payload = some (take n bytes) });
  encode_var_safe = λ capacity n. n ∷ [];
  new_optlist = λ bytes. some bytes;
  insert_optlist = λ o. some o;
  add_optlist_pdu = λ o p. (true, record p { content_format = some o });
}

abbrev pub blank_pdu : Pdu
blank_pdu = record { code = changed; content_format = none; payload = none }

abbrev pub libcoap_client : LibcoapClient Pdu (List ℕ)
libcoap_client = record {
  pdu_init = some blank_pdu;
  add_token = λ p. (true, p);
  uri_into_optlist = λ o. some o;
  send = λ p. true;
}

abbrev pub libcoap_oscore : LibcoapOscore ℕ (List ℕ) ℕ
libcoap_oscore = record {
  new_oscore_conf = λ text. some text;
  context_oscore_server = λ conf x. (true, x + 1);
  new_client_session_oscore = λ conf x. (some x, x);
}

abbrev pub view : List ℕ → ReadonlyBuffer
view bytes = record { bytes = some bytes; length = length bytes }

abbrev pub buffer : WritableBuffer
buffer = record { bytes = some (0 ∷ 0 ∷ 0 ∷ 0 ∷ []); capacity = 4 }

abbrev pub both_suites : CipherSuiteList
both_suites = record { suites = some (some suite_0 ∷ some suite_2 ∷ []) }

abbrev pub parameters : EdhocParameters
parameters = record {
  credentials = some 500;
  supported_cipher_suites = both_suites;
  selected_cipher_suite = some suite_0;
  methods = some (0 ∷ []);
  generate_connection_id = some odd;
}
