-- ===== src/Client/Application/Main.antt =====
-- `core_run_client` of src/core/app_client.c, whole: the URIs, the context and the session, then the
-- handshake. A result `none` is a memory fault.
use tfg_edhoc.Base.{ℕ, not, Option, none, some, List, [], ◌∷◌, if◌then◌else◌, ◌>>=◌}
use tfg_edhoc.Library.{Libedhoc, Libcoap}
use tfg_edhoc.Server.AddError.{codes}
use tfg_edhoc.Oscore.Sessions.{LibcoapOscore}
use tfg_edhoc.Suites.Parameters.{EdhocParameters}
use tfg_edhoc.Coap.Context.{create_context}
use tfg_edhoc.Client.Endpoint.{
  LibcoapEndpoint, ParseAndResolveStatus, build_server_uri, parse_and_resolve_coap_uri,
  create_session,
}
use tfg_edhoc.Client.Resources.{Resource, ResourceEvent, acquired}
use tfg_edhoc.Client.Confirmation.{Flags}
use tfg_edhoc.Client.Application.Run.{server_uri_buffer_size, Environment, failure, RunResult}
use tfg_edhoc.Client.Application.Handshake.{run_handshake}

module _ {P O C K U A X F S : Type 0} (coap : Libcoap P O) (endpoint : LibcoapEndpoint P O U A X S)
    (oscore : LibcoapOscore X F S) (lib : Libedhoc C K) where
  -- Before there is a context and a session, the run returns without a clean-up.
  abbrev pub gives_up : List ResourceEvent → Flags → Option (RunResult C)
  gives_up log flags =
      some
        (record { status = failure; log = log; edhoc_context = lib.zeroed_context; flags = flags })

  unfoldable pub open_session :
      Environment P → EdhocParameters → Flags → List ℕ → U → A → Option (RunResult C)
  unfolding create_context create_session run_handshake
  open_session env parameters flags resource_uri uri address =
      let created = create_context endpoint.contexts in
      if not created.is_ok
      then gives_up [] flags
      else created.context >>= λ context.
          let opened = create_session endpoint context uri address in
          if not opened.is_ok
          then gives_up (acquired Resource.coap_context ∷ []) flags
          else opened.session >>= λ session.
              run_handshake coap endpoint oscore lib env parameters resource_uri uri address context
                session
                (record {
                  resources = record {
                    edhoc_context = lib.zeroed_context;
                    coap_context = some context;
                    exchange_session = some session;
                    oscore_session = none;
                    exchange = none;
                  };
                  log = acquired Resource.coap_context ∷ acquired Resource.exchange_session ∷ [];
                  flags = flags;
                })

  -- `flags` are the static variables when the run starts.
  unfoldable pub core_run_client : Environment P → EdhocParameters → Flags → Option (RunResult C)
  unfolding open_session
  core_run_client env parameters flags =
      let uri_of = build_server_uri server_uri_buffer_size env.server_ip in
      elim (uri_of (codes ".well-known/edhoc")) [
        | none ↦ gives_up [] flags
        | some edhoc_uri ↦ elim (uri_of (codes "sensors/temperature")) [
          | none ↦ gives_up [] flags
          | some resource_uri ↦
              let resolved = parse_and_resolve_coap_uri endpoint edhoc_uri in
              elim resolved.status [
                | ParseAndResolveStatus.ok ↦ resolved.target >>= λ (uri, address).
                    open_session env parameters flags resource_uri uri address
                | _ ↦ gives_up [] flags
              ]
        ]
      ]
