-- ===== src/Client/Resources.antt =====
-- src/coap/client/cli_resources.c: the resources of a run of the client and their release, with the
-- checked creation of an exchange of src/coap/client/cli_exchange.c. `X` is libcoap's context and `S`
-- its session. Each call that makes or frees a resource is written to a list of events.
pub mod Laws
use tfg_edhoc.Base.{
  ℕ, zero, suc, ◌+◌, ◌-◌, ◌*◌, ◌/◌, ◌%◌, ◌≤◌, ◌<◌, ◌≡◌, refl, sym, ap, subst, ◌∙◌, ◌≢◌, ◌⊎◌, inl,
  inr, Bool, true, false, not, ◌&&◌, ◌||◌, Option, none, some, List, [], ◌∷◌, ◌++◌, map, append-nil,
  append_assoc, arith, ltb, leb, ◌==◌, if◌then◌else◌, is_some, or_else, same_address, ◌>>=◌,
  Bool-cases, Option-cases, same_address_eq, same_address_refl, length, get_elem?, write, replicate,
  take, last_or, length-append, length-replicate, length-map, write-append, All, write_next,
  take-append, All-append, drop,
}
use tfg_edhoc.Common.Buffers.{WritableBuffer}
use tfg_edhoc.Library.{Libedhoc}
use tfg_edhoc.Client.Exchange.{Exchange, init_exchange}

-- The resources that `struct cli_resources` owns, and the PDU of the GET request.
pub data Resource : Type 0 where
  coap_context exchange_session oscore_session exchange request_pdu : Resource

pub data ResourceEvent : Type 0 where
  acquired released : Resource → ResourceEvent

-- `struct cli_resources`; the payload buffer is handed on by value.
pub record ClientResources (C X S : Type 0) : Type 0 where
  pub edhoc_context : C
  pub coap_context : Option X
  pub exchange_session : Option S
  pub oscore_session : Option S
  pub exchange : Option Exchange

pub record SessionData (X S : Type 0) : Type 0 where
  pub context : Option X
  pub session : Option S

unfoldable pub session_data_is_valid : {X S : Type 0} → Option (SessionData X S) → Bool
session_data_is_valid none = false
session_data_is_valid (some d) = is_some d.context && is_some d.session

-- `calloc` gives memory or not; a new session has no earlier exchange to free.
unfoldable pub new_exchange :
    {X S : Type 0} → Bool → Option (SessionData X S) → WritableBuffer → Option Exchange
unfolding session_data_is_valid init_exchange
new_exchange allocated session_data response_buffer =
    if not (session_data_is_valid session_data)
    then none
    else if not allocated
    then none
    else some (init_exchange response_buffer)

abbrev release_if : {A : Type 0} → Resource → Option A → List ResourceEvent
release_if r none = []
release_if r (some a) = released r ∷ []

module _ {C X S K : Type 0} (lib : Libedhoc C K) where
  unfoldable pub cleanup_resources : ClientResources C X S → List ResourceEvent × C
  cleanup_resources resources = (
    release_if exchange resources.exchange
        ++ (release_if exchange_session resources.exchange_session
            ++ (release_if oscore_session resources.oscore_session
                ++ release_if coap_context resources.coap_context)),
    (lib.context_deinit resources.edhoc_context).1,
  )

-- `payload` is the array in the struct; NULL resources give the buffer of zeros.
unfoldable pub resources_get_payload : Option (List ℕ) → WritableBuffer
resources_get_payload none = record { bytes = none; capacity = 0 }
resources_get_payload (some payload) = record { bytes = some payload; capacity = length payload }
