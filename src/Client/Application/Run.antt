-- ===== src/Client/Application/Run.antt =====
-- A run of the client of src/core/app_client.c: its state, the resources that it has made and freed, the
-- clean-up, and the sending of a message. What a run meets is in a record: the events of each wait,
-- whether PSA starts and whether memory is given.
use tfg_edhoc.Base.{ℕ, Bool, true, false, not, Option, none, some, List, ◌++◌, if◌then◌else◌}
use tfg_edhoc.Common.Buffers.{ReadonlyBuffer, WritableBuffer, readonly_buffer_has_content}
use tfg_edhoc.Library.{Libedhoc, Libcoap}
use tfg_edhoc.Coap.{StatusCoap, content_cid_edhoc}
use tfg_edhoc.Client.Exchange.{Exchange}
use tfg_edhoc.Client.Send.{LibcoapClient, SendResult, default_send}
use tfg_edhoc.Client.Negotiation.{Attempt}
use tfg_edhoc.Client.Resources.{ResourceEvent, ClientResources, cleanup_resources}
use tfg_edhoc.Client.Confirmation.{Flags}

abbrev pub server_uri_buffer_size : ℕ
server_uri_buffer_size = 256

-- What a run meets.
pub record Environment (P : Type 0) : Type 0 where
  pub server_ip : List ℕ
  pub psa : Bool
  pub exchange_allocated : Bool
  pub payload_buffer : WritableBuffer
  pub first : Attempt P
  pub second : Attempt P
  pub third : Attempt P
  pub confirmation : Attempt P

-- COM_EMULATION_SUCCESS, COM_EMULATION_FAILURE, or the client still waits.
pub data RunStatus : Type 0 where
  success failure waiting : RunStatus

pub record RunResult (C : Type 0) : Type 0 where
  pub status : RunStatus
  pub log : List ResourceEvent
  pub edhoc_context : C
  pub flags : Flags

abbrev pub has_returned : {C : Type 0} → RunResult C → Bool
has_returned r = elim r.status [ waiting ↦ false | _ ↦ true ]

-- A run under way; `resources.edhoc_context` is zeros until it is set up.
pub record Run (C X S : Type 0) : Type 0 where
  pub resources : ClientResources C X S
  pub log : List ResourceEvent
  pub flags : Flags

module _ {C X S : Type 0} where
  abbrev pub ends : RunStatus → Run C X S → RunResult C
  ends status run = record {
    status = status;
    log = run.log;
    edhoc_context = run.resources.edhoc_context;
    flags = run.flags;
  }

  abbrev pub notes : List ResourceEvent → Run C X S → Run C X S
  notes events run = record run { log = run.log ++ events }

  abbrev pub with_exchange : Exchange → Run C X S → Run C X S
  with_exchange e run = record run { resources = record (run.resources) { exchange = some e } }

  abbrev pub with_edhoc : C → Run C X S → Run C X S
  with_edhoc c run = record run { resources = record (run.resources) { edhoc_context = c } }

  abbrev pub with_oscore : Option S → X → Run C X S → Run C X S
  with_oscore session context run = record run {
    resources = record (run.resources) { oscore_session = session; coap_context = some context };
  }

module _ {C X S K : Type 0} (lib : Libedhoc C K) where
  -- `cli_cleanup_resources`, and the return.
  unfoldable pub clean_up : RunStatus → Run C X S → RunResult C
  unfolding cleanup_resources
  clean_up status run =
      let (events, context) = cleanup_resources lib run.resources in
      record {
        status = status;
        log = run.log ++ events;
        edhoc_context = context;
        flags = run.flags;
      }

module _ {P O : Type 0} (coap : Libcoap P O) where
  -- The function `send_message`: what it sends, if it sends.
  unfoldable pub send_message :
      LibcoapClient P O → Option Exchange → ReadonlyBuffer → Bool × Option (SendResult P)
  unfolding default_send
  send_message client none payload = (false, none)
  send_message client (some e) payload =
      if not (readonly_buffer_has_content payload)
      then (false, none)
      else let sent =
          default_send coap client e
            (record { buffer = payload; content_format = content_cid_edhoc }) in
        (elim sent.status [ StatusCoap.ok ↦ true | StatusCoap.err ↦ false ], some sent)
