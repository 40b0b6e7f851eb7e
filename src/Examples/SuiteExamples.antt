-- ===== src/Examples/SuiteExamples.antt =====
-- The theorems on suites and credentials, applied to a client with the suites 0 and 2 whose peer
-- supports suite 2 only.
use tfg_edhoc.Base.{
  ℕ, ◌-◌, ◌≡◌, refl, ◌≢◌, true, false, none, some, List, [], ◌∷◌, arith, replicate,
}
use tfg_edhoc.Examples.{libedhoc, parameters, view, both_suites}
use tfg_edhoc.Library.{ErrorInfo, wrong_selected_cipher_suite, cipher_suites}
use tfg_edhoc.Suites.Int.{ℤ, pos}
use tfg_edhoc.Common.Arguments.{StrtolResult, parse_suites_arguments}
use tfg_edhoc.Common.Arguments.Laws.{Parsed, parse_suites_arguments-Parsed}
use tfg_edhoc.Suites.{CipherSuiteDetails, suite_0, suite_2, cipher_suites_are_valid}
use tfg_edhoc.Suites.Parameters.{
  EdhocParameters, IsValid, entries, validate_parameters, validate_parameters-IsValid,
  duplicated_suites_in, suite_in_suites_list, methods_are_missing,
}
use tfg_edhoc.Suites.Setup.{setup_context}
use tfg_edhoc.Suites.Setup.Laws.{setup_context_null_metadata}
use tfg_edhoc.Suites.Negotiate.{RenegotiationList, negotiate_suites, success}
use tfg_edhoc.Suites.Negotiate.Laws.{Reports, Outcome, negotiate_suites-Outcome}
use tfg_edhoc.Client.Renegotiate.{new_parameters, reset_edhoc_context_with_new_suites_data}
use tfg_edhoc.Client.Renegotiate.Prefix.{Consistent}
use tfg_edhoc.Client.Renegotiate.Laws.{Usable, renegotiation-Usable}
use tfg_edhoc.Credentials.{
  AuthCreds, ImportKey, kid, integer, client_credential_fetch, server_credential_fetch,
  client_credential_verify, server_credential_verify,
}
use tfg_edhoc.Credentials.Keys.{srv_suite_2_public_key, cli_suite_2_public_key}
use tfg_edhoc.Credentials.Agreement.{
  SameId, Accepts, Refuses, client_verify-server_fetch, server_verify-client_fetch,
  reflected-Refuses,
}
use tfg_edhoc.ConnectionId.{
  even, odd, generate, run_generators, initial_counters, generate_constant,
}

parameters_valid : validate_parameters parameters ≡ true
unfolding validate_parameters cipher_suites_are_valid methods_are_missing duplicated_suites_in
    suite_in_suites_list
parameters_valid = refl

pub parameters-IsValid : IsValid parameters
parameters-IsValid = validate_parameters-IsValid parameters parameters_valid

pub both_suites-Consistent : Consistent (entries both_suites)
both_suites-Consistent = (
  (refl, (refl, tt)),
  (
    (λ h. refl, (λ h. absurd (ground arith), tt)),
    ((λ h. absurd (ground arith), (λ h. refl, tt)), tt),
  ),
  ((refl, refl), ((refl, refl), tt)),
)

abbrev info : ErrorInfo
info = record { content = cipher_suites (pos 2 ∷ []); total_entries = 1; written_entries = 1 }

info-Reports : Reports info (pos 2 ∷ [])
info-Reports = record { content = refl; written = refl; fits = ground arith }

negotiate_suites-Outcome_example :
    Outcome
      (pos 2 ∷ [])
      (some suite_0 ∷ some suite_2 ∷ [])
      (negotiate_suites libedhoc both_suites (view (1 ∷ [])))
negotiate_suites-Outcome_example =
    negotiate_suites-Outcome libedhoc both_suites (view (1 ∷ [])) wrong_selected_cipher_suite info
      (pos 2 ∷ []) refl parameters-IsValid.details_valid (ground arith) both_suites-Consistent.0
      refl info-Reports

abbrev chosen : RenegotiationList
chosen = record { suites = some suite_0 ∷ some suite_2 ∷ replicate 8 none; number_of_suites = 2 }

negotiated : negotiate_suites libedhoc both_suites (view (1 ∷ [])) ≡ some (success chosen)
unfolding negotiate_suites cipher_suites_are_valid
negotiated = refl

renegotiation-Usable_example :
    Usable chosen (new_parameters parameters chosen)
    × (reset_edhoc_context_with_new_suites_data libedhoc true (some 2) parameters chosen ≢ none)
renegotiation-Usable_example =
    renegotiation-Usable libedhoc parameters (view (1 ∷ [])) wrong_selected_cipher_suite info
      (pos 2 ∷ []) chosen true 2 parameters-IsValid both_suites-Consistent refl info-Reports
      negotiated

abbrev blank_credentials : AuthCreds
blank_credentials = record {
  label = kid;
  cred = [];
  cred_len = 0;
  cred_is_cbor = false;
  encode_type = integer;
  key_id_int = pos 0;
  priv_key_id = 0;
}

abbrev import_key : ImportKey
import_key = λ key n. some 1

abbrev sent_by : List ℕ → ℤ → AuthCreds
sent_by key key_id = record blank_credentials {
  cred = key;
  cred_len = 65;
  key_id_int = key_id;
  priv_key_id = 1;
}

-- What the peer decodes from the message.
abbrev received_with : ℤ → AuthCreds
received_with key_id = record blank_credentials { key_id_int = key_id }

server_fetched_2 :
    server_credential_fetch import_key suite_2 (some blank_credentials)
    ≡ some (true, some (sent_by srv_suite_2_public_key (pos 20)))
unfolding server_credential_fetch
server_fetched_2 = refl

client_fetched_2 :
    client_credential_fetch import_key suite_2 (some blank_credentials)
    ≡ some (true, some (sent_by cli_suite_2_public_key (pos 18)))
unfolding client_credential_fetch
client_fetched_2 = refl

same_20 : SameId (sent_by srv_suite_2_public_key (pos 20)) (received_with (pos 20))
same_20 = record { label = refl; encoding = refl; key_id = refl }

same_18 : SameId (sent_by cli_suite_2_public_key (pos 18)) (received_with (pos 18))
same_18 = record { label = refl; encoding = refl; key_id = refl }

client_verify-server_fetch_example :
    Accepts
      (sent_by srv_suite_2_public_key (pos 20))
      (client_credential_verify suite_2 (some (received_with (pos 20))))
client_verify-server_fetch_example =
    client_verify-server_fetch import_key suite_2 suite_2 (some blank_credentials)
      (sent_by srv_suite_2_public_key (pos 20)) (received_with (pos 20)) refl same_20
      server_fetched_2

server_verify-client_fetch_example :
    Accepts
      (sent_by cli_suite_2_public_key (pos 18))
      (server_credential_verify suite_2 (some (received_with (pos 18))))
server_verify-client_fetch_example =
    server_verify-client_fetch import_key suite_2 suite_2 (some blank_credentials)
      (sent_by cli_suite_2_public_key (pos 18)) (received_with (pos 18)) refl same_18
      client_fetched_2

reflected-Refuses_example :
    Refuses (client_credential_verify suite_2 (some (received_with (pos 18))))
reflected-Refuses_example =
    reflected-Refuses import_key suite_2 suite_2 (some blank_credentials)
      (sent_by cli_suite_2_public_key (pos 18)) (received_with (pos 18)) (pos 2) client_fetched_2
      same_18 refl

generate_constant_example :
    ((generate even (run_generators (odd ∷ even ∷ []) initial_counters)).0 ≡ pos 1)
    × ((generate odd (run_generators (odd ∷ even ∷ []) initial_counters)).0 ≡ pos 2)
generate_constant_example = generate_constant (odd ∷ even ∷ [])

-- A suite with functions but no metadata passes the validation.
abbrev no_metadata : CipherSuiteDetails
no_metadata = record suite_0 { metadata = none }

abbrev null_parameters : EdhocParameters
null_parameters = record parameters {
  supported_cipher_suites = record { suites = some (some no_metadata ∷ []) };
  selected_cipher_suite = some no_metadata;
}

null_parameters_valid : validate_parameters null_parameters ≡ true
unfolding validate_parameters cipher_suites_are_valid methods_are_missing duplicated_suites_in
    suite_in_suites_list
null_parameters_valid = refl

setup_context_null_metadata_example : setup_context libedhoc true 0 null_parameters ≡ none
setup_context_null_metadata_example =
    setup_context_null_metadata libedhoc 0 null_parameters no_metadata null_parameters_valid refl
      refl refl refl

-- Decimal digits only.
abbrev one_digit : List ℕ → StrtolResult
one_digit [] = record { sets_errno = false; end_offset = 0; value = pos 0 }
one_digit (d ∷ ds) = record { sets_errno = false; end_offset = 1; value = pos (d - 48) }

-- The arguments "2" and "0".
parse_suites_arguments-Parsed_example :
    Parsed one_digit
      (some (50 ∷ []) ∷ some (48 ∷ []) ∷ [])
      (parse_suites_arguments one_digit (some (some (50 ∷ []) ∷ some (48 ∷ []) ∷ [])))
parse_suites_arguments-Parsed_example =
    parse_suites_arguments-Parsed one_digit (some (50 ∷ [])) (some (48 ∷ []) ∷ [])
