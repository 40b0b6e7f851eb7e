-- ===== src/Client/Application/Whole.antt =====
-- The whole run of the client of src/core/app_client.c ends in one of its ways.
use tfg_edhoc.Base.{ℕ, refl, Bool, true, false, not, some, List, [], ◌∷◌, arith, or_else}
use tfg_edhoc.Library.{Libedhoc, Libcoap}
use tfg_edhoc.Oscore.Sessions.{LibcoapOscore}
use tfg_edhoc.Suites.Parameters.{EdhocParameters}
use tfg_edhoc.Server.AddError.{codes}
use tfg_edhoc.Client.Exchange.{Exchange}
use tfg_edhoc.Client.Renegotiate.{initialize_edhoc_context_with_parameters}
use tfg_edhoc.Client.Send.{LibcoapClient}
use tfg_edhoc.Client.Negotiation.{resolve_negotiation}
use tfg_edhoc.Coap.Context.{create_context}
use tfg_edhoc.Client.Endpoint.{
  LibcoapEndpoint, create_session, build_server_uri, parse_and_resolve_coap_uri,
}
use tfg_edhoc.Client.Resources.{acquired, coap_context, exchange, new_exchange, cleanup_resources}
use tfg_edhoc.Client.Confirmation.{Flags}
use tfg_edhoc.Client.Application.Run.{
  server_uri_buffer_size, Environment, failure, Run, notes, with_exchange, with_edhoc, clean_up,
}
use tfg_edhoc.Client.Application.Handshake.{run_handshake, negotiate, open_exchange}
use tfg_edhoc.Client.Application.Main.{gives_up, open_session, core_run_client}
use tfg_edhoc.Client.Application.Outcome.{
  Outcome, Outcomes, IsOpen, HasSession, final_flags, Outcomes-bind, Outcomes-option, Outcomes-if,
  Outcomes-resolved,
}
use tfg_edhoc.Client.Application.Steps.{answer_message_2-Outcomes}

module _ {P O C K U A X F S : Type 0} (coap : Libcoap P O) (endpoint : LibcoapEndpoint P O U A X S)
    (oscore : LibcoapOscore X F S) (lib : Libedhoc C K) where
  with_exchange-IsOpen_of_HasSession :
      (e : Exchange) (run : Run C X S)
      → HasSession run
      → IsOpen (notes (acquired exchange ∷ []) (with_exchange e run))
  with_exchange-IsOpen_of_HasSession e run o = ground (arith, o)

  with_edhoc-HasSession : (c : C) (run : Run C X S) → HasSession run → HasSession (with_edhoc c run)
  with_edhoc-HasSession c run o = ground (arith, o)

  negotiate-Outcomes :
      (env : Environment P) (parameters : EdhocParameters) (client : LibcoapClient P O)
      (resource_uri : List ℕ) (context : X) (e : Exchange) (run : Run C X S)
      → HasSession run
      → Outcomes
          (final_flags coap env.confirmation run.flags)
          (negotiate coap endpoint oscore lib env parameters client resource_uri context e run)
  unfolding negotiate
  negotiate-Outcomes env parameters client resource_uri context e run o =
      Outcomes-bind (final_flags coap env.confirmation run.flags)
        (resolve_negotiation coap client lib env.psa env.first env.second parameters
          env.payload_buffer (record { edhoc_context = run.resources.edhoc_context; exchange = e }))
        _
        λ attempt.
          answer_message_2-Outcomes coap endpoint oscore lib env client resource_uri context attempt
            (notes (acquired exchange ∷ []) (with_exchange e run))
            (with_exchange-IsOpen_of_HasSession e run o)

  refused_run-Outcome :
      (final : Flags) (run : Run C X S) → HasSession run → Outcome final (clean_up lib failure run)
  unfolding clean_up cleanup_resources
  refused_run-Outcome final run o = ground (arith, o)

  open_exchange-Outcomes :
      (env : Environment P) (parameters : EdhocParameters) (resource_uri : List ℕ) (uri : U)
      (address : A) (context : X) (session : S) (is_set_up : Bool) (run : Run C X S)
      → HasSession run
      → Outcomes (final_flags coap env.confirmation run.flags) (
          open_exchange coap endpoint oscore lib env parameters resource_uri uri address context
            session is_set_up run)
  unfolding open_exchange
  open_exchange-Outcomes env parameters resource_uri uri address context session false run o =
      refused_run-Outcome (final_flags coap env.confirmation run.flags) run o
  open_exchange-Outcomes env parameters resource_uri uri address context session true run o =
      Outcomes-option (final_flags coap env.confirmation run.flags)
        (new_exchange env.exchange_allocated _ env.payload_buffer) _ _
        (refused_run-Outcome (final_flags coap env.confirmation run.flags) run o)
        (λ e.
          negotiate-Outcomes env parameters (endpoint.post session uri address) resource_uri context
            e run o)

  run_handshake-Outcomes :
      (env : Environment P) (parameters : EdhocParameters) (resource_uri : List ℕ) (uri : U)
      (address : A) (context : X) (session : S) (run : Run C X S)
      → HasSession run
      → Outcomes (final_flags coap env.confirmation run.flags) (
          run_handshake coap endpoint oscore lib env parameters resource_uri uri address context
            session run)
  unfolding run_handshake
  run_handshake-Outcomes env parameters resource_uri uri address context session run o =
      Outcomes-bind (final_flags coap env.confirmation run.flags)
        (initialize_edhoc_context_with_parameters lib env.psa (some run.resources.edhoc_context)
          parameters)
        _
        λ (is_set_up, c).
          open_exchange-Outcomes env parameters resource_uri uri address context session is_set_up
            (with_edhoc (or_else c run.resources.edhoc_context) run)
            (with_edhoc-HasSession (or_else c run.resources.edhoc_context) run o)

  open_session-Outcomes :
      (env : Environment P) (parameters : EdhocParameters) (flags : Flags) (resource_uri : List ℕ)
      (uri : U) (address : A)
      → Outcomes
          (final_flags coap env.confirmation flags)
          (open_session coap endpoint oscore lib env parameters flags resource_uri uri address)
  unfolding open_session
  open_session-Outcomes env parameters flags resource_uri uri address =
      Outcomes-if (final_flags coap env.confirmation flags)
        (not (create_context endpoint.contexts).is_ok) _ _ no_context
        (Outcomes-bind (final_flags coap env.confirmation flags)
          (create_context endpoint.contexts).context _
          λ context.
            Outcomes-if (final_flags coap env.confirmation flags)
              (not (create_session endpoint context uri address).is_ok) _ _ no_session
              (Outcomes-bind (final_flags coap env.confirmation flags)
                (create_session endpoint context uri address).session _
                λ session.
                  run_handshake-Outcomes env parameters resource_uri uri address context session _
                    (record {
                      has_log = refl;
                      has_context = refl;
                      has_session = refl;
                      no_exchange = refl;
                      no_oscore = refl;
                    })))
    where
      no_context :
          Outcomes
            (final_flags coap env.confirmation flags)
            (gives_up coap endpoint oscore lib [] flags)
      no_context = ground arith

      no_session :
          Outcomes
            (final_flags coap env.confirmation flags)
            (gives_up coap endpoint oscore lib (acquired coap_context ∷ []) flags)
      no_session = ground arith

  pub core_run_client-Outcomes :
      (env : Environment P) (parameters : EdhocParameters) (flags : Flags)
      → Outcomes
          (final_flags coap env.confirmation flags)
          (core_run_client coap endpoint oscore lib env parameters flags)
  unfolding core_run_client
  core_run_client-Outcomes env parameters flags =
      let uri_of = build_server_uri server_uri_buffer_size env.server_ip in
      Outcomes-option (final_flags coap env.confirmation flags) (uri_of (codes ".well-known/edhoc"))
        _ _ no_context
        λ edhoc_uri.
          Outcomes-option (final_flags coap env.confirmation flags)
            (uri_of (codes "sensors/temperature")) _ _ no_context
            λ resource_uri.
              Outcomes-resolved (final_flags coap env.confirmation flags)
                (parse_and_resolve_coap_uri endpoint edhoc_uri).status _ _
                (Outcomes-bind (final_flags coap env.confirmation flags)
                  (parse_and_resolve_coap_uri endpoint edhoc_uri).target _
                  λ (uri, address).
                    open_session-Outcomes env parameters flags resource_uri uri address)
                no_context
    where
      no_context :
          Outcomes
            (final_flags coap env.confirmation flags)
            (gives_up coap endpoint oscore lib [] flags)
      no_context = ground arith
