-- ===== src/Client/Application/Confirm.antt =====
-- `core_run_client` of src/core/app_client.c from the activation of OSCORE on: the encrypted GET request
-- and the key confirmation. libcoap frees the PDU that it is given to send, sent or not, as it documents.
-- A result `none` is a read through NULL; a second release, of the session or of the PDU, is in the log.
use tfg_edhoc.Base.{ℕ, false, not, Option, none, some, List, [], ◌∷◌, if◌then◌else◌, ◌>>=◌}
use tfg_edhoc.Library.{Libedhoc, Libcoap}
use tfg_edhoc.Coap.{StatusCoap}
use tfg_edhoc.Oscore.Sessions.{LibcoapOscore}
use tfg_edhoc.Client.Send.{PreparePduStatus, send_coap_request}
use tfg_edhoc.Client.Negotiation.{Attempt}
use tfg_edhoc.Client.Endpoint.{
  LibcoapEndpoint, ParseAndResolveStatus, parse_and_resolve_coap_uri, prepare_get_request,
}
use tfg_edhoc.Client.Resources.{Resource, acquired, released}
use tfg_edhoc.Client.Confirmation.{Flags, wait_for_confirmation}
use tfg_edhoc.Oscore.Sessions
use tfg_edhoc.Client.Application.Run.{
  RunStatus, success, failure, waiting, RunResult, Run, ends, notes, with_oscore, clean_up,
}

-- Behind the wait for the answer to the GET request.
abbrev pub judge_confirmation : Flags → RunStatus
judge_confirmation flags =
    if flags.error_response
    then failure
    else if not flags.response_received
    then failure
    else success

module _ {P O C K U A X F S : Type 0} (coap : Libcoap P O) (endpoint : LibcoapEndpoint P O U A X S)
    (oscore : LibcoapOscore X F S) (lib : Libedhoc C K) where
  -- `coap_session_release` on the OSCORE session, whose pointer stays, then the clean-up.
  abbrev pub release_session_and_clean_up : RunStatus → Run C X S → RunResult C
  release_session_and_clean_up status run =
      clean_up lib status (notes (released Resource.oscore_session ∷ []) run)

  -- From the GET request on.
  unfoldable pub confirm_keys : Attempt P → U → A → S → Run C X S → Option (RunResult C)
  unfolding prepare_get_request send_coap_request wait_for_confirmation clean_up
  confirm_keys attempt uri address session before =
      prepare_get_request endpoint coap session uri address >>= λ prepared. elim prepared.status [
        | PreparePduStatus.ok ↦ prepared.pdu >>= λ pdu.
            let sending =
              record (notes (acquired Resource.request_pdu ∷ released Resource.request_pdu ∷ [])
                before) { flags = record (before.flags) { response_received = false } } in
            let waited = wait_for_confirmation coap attempt.events attempt.leisure sending.flags in
            let run = record sending { flags = waited.flags } in
            some (elim (send_coap_request coap (endpoint.get session uri address) pdu) [
              | StatusCoap.err ↦
                  release_session_and_clean_up failure
                    (notes (released Resource.request_pdu ∷ []) sending)
              | StatusCoap.ok ↦ elim waited.status [
                | none ↦ ends waiting run
                | some w ↦ release_session_and_clean_up (judge_confirmation waited.flags) run
              ]
            ])
        | _ ↦ some (release_session_and_clean_up failure before)
      ]

  -- From the creation of the OSCORE session on.
  unfoldable pub open_oscore_session : Attempt P → X → U → A → Run C X S → Option (RunResult C)
  unfolding Sessions.create_session confirm_keys
  open_oscore_session attempt context uri address run =
      let (session, context') =
        Sessions.create_session lib oscore (some run.resources.edhoc_context) context in
      elim session [
        | none ↦ some (clean_up lib failure (with_oscore none context' run))
        | some s ↦
            confirm_keys attempt uri address s
              (notes (acquired Resource.oscore_session ∷ []) (with_oscore (some s) context' run))
      ]

  -- From "Activating OSCORE" on.
  unfoldable pub activate_oscore : Attempt P → List ℕ → X → Run C X S → Option (RunResult C)
  unfolding parse_and_resolve_coap_uri open_oscore_session
  activate_oscore attempt server_oscore_resource_uri context run =
      let resolved = parse_and_resolve_coap_uri endpoint server_oscore_resource_uri in
      elim resolved.status [
        | ParseAndResolveStatus.ok ↦ resolved.target >>= λ (uri, address).
            open_oscore_session attempt context uri address run
        | _ ↦ some (clean_up lib failure run)
      ]
