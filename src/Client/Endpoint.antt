-- ===== src/Client/Endpoint.antt =====
-- The client's way to its session: the URIs of src/core/app_client.c, the resolution of addresses of
-- src/coap/common/com_coap_helpers.c, and what src/coap/client/cli_utils.c makes of them. `U` is libcoap's URI, `A` its address, `X` its context,
-- `S` its session.
use tfg_edhoc.Base.{
  ℕ, zero, suc, ◌*◌, Bool, true, false, Option, none, some, List, ◌++◌, leb, ◌==◌, if◌then◌else◌,
  ◌>>=◌, length,
}
use tfg_edhoc.Library.{Libcoap}
use tfg_edhoc.Coap.{StatusCoap}
use tfg_edhoc.Coap.Context.{LibcoapContext}
use tfg_edhoc.Server.AddError.{codes}
use tfg_edhoc.Client.Send.{
  LibcoapClient, PreparePduStatus, PreparePduResult, create_request_pdu, add_uri_into_pdu,
}

pub data Protocol : Type 0 where
  udp tcp : Protocol

pub record LibcoapEndpoint (P O U A X S : Type 0) : Type 0 where
  -- `none` where the call does not return 0.
  pub split_uri : List ℕ → Option U
  pub uri_host : U → List ℕ
  pub uri_port : U → ℕ
  pub uri_scheme : U → ℕ
  -- COAP_URI_SCHEME_COAP_TCP
  pub scheme_coap_tcp : ℕ
  -- The first address, for a host, a port and the scheme's bit.
  pub resolve_address_info : List ℕ → ℕ → ℕ → Option A
  pub contexts : LibcoapContext X
  pub new_client_session : X → A → Protocol → Option S
  -- The calls on a session with a URI and an address, for requests with POST and with GET.
  pub post : S → U → A → LibcoapClient P O
  pub get : S → U → A → LibcoapClient P O
  -- NULL, the empty list of options.
  pub null_optlist : O

pub data ParseAndResolveStatus : Type 0 where
  ok err_invalid_uri err_address_resolution : ParseAndResolveStatus

pub record ParseAndResolveResult (U A : Type 0) : Type 0 where
  pub status : ParseAndResolveStatus
  pub target : Option (U × A)

pub record CreateSessionResult (S : Type 0) : Type 0 where
  pub is_ok : Bool
  pub session : Option S

-- A buffer of the size holds the text and its NUL, or the text is refused.
unfoldable pub build_server_uri : ℕ → List ℕ → List ℕ → Option (List ℕ)
build_server_uri buffer_size server_ip resource_path =
    let text = codes "coap://" ++ (server_ip ++ (codes ":5683/" ++ resource_path)) in
    if leb buffer_size (length text) then none else some text

module _ {P O U A X S : Type 0} (endpoint : LibcoapEndpoint P O U A X S) where
  -- The status and, with it, what was written to `destination_address`.
  unfoldable pub resolve_address : List ℕ → ℕ → ℕ → StatusCoap × Option A
  resolve_address host port scheme_hint_bits =
      elim (endpoint.resolve_address_info host port scheme_hint_bits) [
        | none ↦ (StatusCoap.err, none)
        | some address ↦ (StatusCoap.ok, some address)
      ]

  -- `1 << scheme`
  abbrev scheme_bit : ℕ → ℕ
  scheme_bit zero = 1
  scheme_bit (suc n) = 2 * scheme_bit n

  abbrev parse_and_resolve_failure : ParseAndResolveStatus → ParseAndResolveResult U A
  parse_and_resolve_failure s = record { status = s; target = none }

  unfoldable pub parse_and_resolve_coap_uri : List ℕ → ParseAndResolveResult U A
  unfolding resolve_address
  parse_and_resolve_coap_uri uri_string = elim (endpoint.split_uri uri_string) [
    | none ↦ parse_and_resolve_failure err_invalid_uri
    | some uri ↦
        let (status, address) =
          resolve_address (endpoint.uri_host uri) (endpoint.uri_port uri)
            (scheme_bit (endpoint.uri_scheme uri)) in
        elim status [
          | StatusCoap.err ↦ parse_and_resolve_failure err_address_resolution
          | StatusCoap.ok ↦ record { status = ok; target = address >>= λ a. some (uri, a) }
        ]
  ]

  unfoldable pub create_session : X → U → A → CreateSessionResult S
  create_session context uri address =
      let protocol = if endpoint.uri_scheme uri == endpoint.scheme_coap_tcp then tcp else udp in
      elim (endpoint.new_client_session context address protocol) [
        | none ↦ record { is_ok = false; session = none }
        | some s ↦ record { is_ok = true; session = some s }
      ]

  abbrev get_failure : PreparePduResult P
  get_failure = record { status = PreparePduStatus.err_add_uri_opts; pdu = none }

  -- `none` is NULL handed to `coap_add_optlist_pdu` as the PDU.
  unfoldable pub prepare_get_request : Libcoap P O → S → U → A → Option (PreparePduResult P)
  prepare_get_request coap session uri address =
      let client = endpoint.get session uri address in
      elim (create_request_pdu coap client) [
        | none ↦ elim (client.uri_into_optlist endpoint.null_optlist) [
          | none ↦ some get_failure
          | some options ↦ none
        ]
        | some pdu ↦ elim (add_uri_into_pdu coap client endpoint.null_optlist pdu) [
          | none ↦ some get_failure
          | some pdu' ↦ some (record { status = PreparePduStatus.ok; pdu = some pdu' })
        ]
      ]
