-- ===== src/Oscore/Sessions.antt =====
-- src/oscore/server/srv_oscore_bind_session.c and src/oscore/client/cli_oscore_create_session.c.
-- `X` is libcoap's context, `F` its OSCORE configurations, `S` its sessions.
use tfg_edhoc.Base.{ℕ, Bool, Option, none, some, List, if◌then◌else◌}
use tfg_edhoc.Library.{Libedhoc}
use tfg_edhoc.Coap.{StatusCoap, ok, err}
use tfg_edhoc.Oscore.{build_config, config_csv_max_size}

pub record LibcoapOscore (X F S : Type 0) : Type 0 where
  pub new_oscore_conf : List ℕ → Option F
  -- Whether the call returned 1, and the context.
  pub context_oscore_server : F → X → Bool × X
  pub new_client_session_oscore : F → X → Option S × X

module _ {C K X F S : Type 0} (lib : Libedhoc C K) (oscore : LibcoapOscore X F S) where
  unfoldable pub bind_session : Option C → X → StatusCoap × X
  bind_session edhoc_context coap_context =
      elim (build_config lib edhoc_context config_csv_max_size) [
        | none ↦ (err, coap_context)
        | some text ↦ elim (oscore.new_oscore_conf text) [
          | none ↦ (err, coap_context)
          | some conf ↦
              let (bound, coap_context') = oscore.context_oscore_server conf coap_context in
              (if bound then ok else err, coap_context')
        ]
      ]

  -- NULL is `none`.
  unfoldable pub create_session : Option C → X → Option S × X
  create_session edhoc_context coap_context =
      elim (build_config lib edhoc_context config_csv_max_size) [
        | none ↦ (none, coap_context)
        | some text ↦ elim (oscore.new_oscore_conf text) [
          | none ↦ (none, coap_context)
          | some conf ↦ oscore.new_client_session_oscore conf coap_context
        ]
      ]
