-- ===== src/Coap/Context.antt =====
-- src/coap/common/com_coap_context.c and src/common/com_session_resources.c: libcoap's context, of a type
-- `X`, and its release.
use tfg_edhoc.Base.{ℕ, Bool, true, false, Option, none, some}

pub record LibcoapContext (X : Type 0) : Type 0 where
  pub new_context : Option X
  pub set_block_mode : X → X

pub record CreateContextResult (X : Type 0) : Type 0 where
  pub is_ok : Bool
  pub context : Option X

-- The status is COM_COAP_INIT_OK or the one error.
unfoldable pub create_context : {X : Type 0} → LibcoapContext X → CreateContextResult X
create_context contexts = elim contexts.new_context [
  | none ↦ record { is_ok = false; context = none }
  | some x ↦ record { is_ok = true; context = some (contexts.set_block_mode x) }
]

-- `struct com_session_resources`
pub record SessionResources (X : Type 0) : Type 0 where
  pub coap_context : Option X

-- How often `coap_free_context` is called, and the resources afterwards.
unfoldable pub cleanup_resources :
    {X : Type 0} → Option (SessionResources X) → ℕ × Option (SessionResources X)
cleanup_resources none = (0, none)
cleanup_resources (some r) = elim r.coap_context [
  | none ↦ (0, some r)
  | some x ↦ (1, some (record { coap_context = none }))
]
