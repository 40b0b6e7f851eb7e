-- ===== src/Client/Application/Outcome.antt =====
-- The ways a run of the client of src/core/app_client.c ends, each with what it has made and freed, and the
-- states on the way.
use tfg_edhoc.Base.{
  ◌≡◌, ◌⊎◌, Bool, true, false, Option, none, some, List, [], ◌∷◌, ◌++◌, arith, if◌then◌else◌,
  is_some, ◌>>=◌,
}
use tfg_edhoc.Library.{Libedhoc, Libcoap}
use tfg_edhoc.Client.Exchange.{Exchange}
use tfg_edhoc.Client.Negotiation.{Attempt}
use tfg_edhoc.Client.Endpoint.{ParseAndResolveStatus}
use tfg_edhoc.Client.Resources.{
  ResourceEvent, acquired, released, coap_context, exchange_session, oscore_session, exchange,
  request_pdu, cleanup_resources,
}
use tfg_edhoc.Client.Confirmation.{Flags, wait_for_confirmation}
use tfg_edhoc.Client.Application.Run.{
  failure, waiting, RunResult, Run, with_exchange, with_edhoc, clean_up,
}
use tfg_edhoc.Client.Application.Confirm.{judge_confirmation}

abbrev pub session_log : List ResourceEvent
session_log = acquired coap_context ∷ acquired exchange_session ∷ []

abbrev pub closing_log : List ResourceEvent
closing_log = released exchange_session ∷ released coap_context ∷ []

abbrev pub handshake_log : List ResourceEvent
handshake_log = session_log ++ acquired exchange ∷ []

abbrev pub oscore_log : List ResourceEvent
oscore_log = handshake_log ++ acquired oscore_session ∷ []

abbrev pub request_log : List ResourceEvent
request_log = oscore_log ++ acquired request_pdu ∷ released request_pdu ∷ []

-- The OSCORE session is released, and again with the other resources.
abbrev pub oscore_closing_log : List ResourceEvent
oscore_closing_log =
    released oscore_session
    ∷ released exchange
    ∷ released exchange_session
    ∷ released oscore_session
    ∷ released coap_context
    ∷ []

-- The ways a run ends: it still waits, in the handshake or for the answer to its GET request; there is no context, no session, no exchange, no handshake, no
-- GET request, none sent, or it was sent and the wait is over, with the flags `final`.
abbrev pub Outcome : {C : Type 0} → Flags → RunResult C → Type 0
Outcome final r =
    ((r.status ≡ waiting) × ((r.log ≡ handshake_log) ⊎ (r.log ≡ request_log)))
    ⊎ (((r.status ≡ failure) × (r.log ≡ []))
        ⊎ (((r.status ≡ failure) × (r.log ≡ acquired coap_context ∷ []))
            ⊎ (((r.status ≡ failure) × (r.log ≡ session_log ++ closing_log))
                ⊎ (((r.status ≡ failure)
                      × (r.log ≡ handshake_log ++ released exchange ∷ closing_log))
                    ⊎ (((r.status ≡ failure) × (r.log ≡ oscore_log ++ oscore_closing_log))
                        ⊎ (((r.status ≡ failure)
                              × (r.log ≡ request_log ++ released request_pdu ∷ oscore_closing_log))
                            ⊎ ((r.log ≡ request_log ++ oscore_closing_log)
                                × (r.flags ≡ final)
                                × (r.status ≡ judge_confirmation final))))))))

abbrev pub Outcomes : {C : Type 0} → Flags → Option (RunResult C) → Type 0
Outcomes final none = Unit
Outcomes final (some r) = Outcome final r

-- The state of the run once the exchange is made.
pub record IsOpen {C X S : Type 0} (run : Run C X S) : Type 0 where
  pub has_log : run.log ≡ handshake_log
  pub has_context : is_some run.resources.coap_context ≡ true
  pub has_session : is_some run.resources.exchange_session ≡ true
  pub has_exchange : is_some run.resources.exchange ≡ true
  pub no_oscore : run.resources.oscore_session ≡ none

module _ {C X S : Type 0} where
  pub with_exchange-IsOpen :
      (e : Exchange) (run : Run C X S) → IsOpen run → IsOpen (with_exchange e run)
  with_exchange-IsOpen e run o = ground (arith, o)

  pub with_edhoc-IsOpen : (c : C) (run : Run C X S) → IsOpen run → IsOpen (with_edhoc c run)
  with_edhoc-IsOpen c run o = ground (arith, o)

module _ {C X S K : Type 0} (lib : Libedhoc C K) where
  pub clean_up-Outcome :
      (final : Flags) (run : Run C X S) → IsOpen run → Outcome final (clean_up lib failure run)
  unfolding clean_up cleanup_resources
  clean_up-Outcome final run o = ground (arith, o)

-- The state once the OSCORE session is made, too.
pub record IsConfirming {C X S : Type 0} (run : Run C X S) : Type 0 where
  pub has_log : run.log ≡ oscore_log
  pub has_context : is_some run.resources.coap_context ≡ true
  pub has_session : is_some run.resources.exchange_session ≡ true
  pub has_exchange : is_some run.resources.exchange ≡ true
  pub has_oscore : is_some run.resources.oscore_session ≡ true

module _ {C : Type 0} (final : Flags) where
  pub Outcomes-bind :
      {A : Type 0} (o : Option A) (f : A → Option (RunResult C))
      → ((a : A) → Outcomes final (f a))
      → Outcomes final (o >>= f)
  Outcomes-bind none f h = tt
  Outcomes-bind (some a) f h = h a

  pub Outcomes-option :
      {A : Type 0} (o : Option A) (n : Option (RunResult C)) (f : A → Option (RunResult C))
      → Outcomes final n
      → ((a : A) → Outcomes final (f a))
      → Outcomes final (elim o [ none ↦ n | some a ↦ f a ])
  Outcomes-option none n f hn h = hn
  Outcomes-option (some a) n f hn h = h a

  pub Outcomes-if :
      (b : Bool) (x y : Option (RunResult C))
      → Outcomes final x
      → Outcomes final y
      → Outcomes final (if b then x else y)
  Outcomes-if true x y hx hy = hx
  Outcomes-if false x y hx hy = hy

  pub Outcomes-resolved :
      (s : ParseAndResolveStatus) (x y : Option (RunResult C))
      → Outcomes final x
      → Outcomes final y
      → Outcomes final (elim s [ ParseAndResolveStatus.ok ↦ x | _ ↦ y ])
  Outcomes-resolved ParseAndResolveStatus.ok x y hx hy = hx
  Outcomes-resolved ParseAndResolveStatus.err_invalid_uri x y hx hy = hy
  Outcomes-resolved ParseAndResolveStatus.err_address_resolution x y hx hy = hy

-- The run once there is a session.
pub record HasSession {C X S : Type 0} (run : Run C X S) : Type 0 where
  pub has_log : run.log ≡ session_log
  pub has_context : is_some run.resources.coap_context ≡ true
  pub has_session : is_some run.resources.exchange_session ≡ true
  pub no_exchange : run.resources.exchange ≡ none
  pub no_oscore : run.resources.oscore_session ≡ none

module _ {P O : Type 0} (coap : Libcoap P O) where
  -- The flags once the wait for the answer to the GET request is over.
  abbrev pub final_flags : Attempt P → Flags → Flags
  final_flags attempt flags =
      (wait_for_confirmation coap attempt.events attempt.leisure
        (record flags { response_received = false })).flags
