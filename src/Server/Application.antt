-- ===== src/Server/Application.antt =====
-- `core_run_server` of src/core/app_server.c with src/coap/server/srv_utils.c: the endpoints, the
-- resources and the loop. `X` is libcoap's context, `E` an address to listen at, `R` a resource; libcoap
-- hands each POST request to the handler. A result `none` is a memory fault.
pub mod Laws
use tfg_edhoc.Base.{
  ℕ, zero, suc, ◌+◌, ◌-◌, ◌*◌, ◌/◌, ◌%◌, ◌≤◌, ◌<◌, ◌≡◌, refl, sym, ap, subst, ◌∙◌, ◌≢◌, ◌⊎◌, inl,
  inr, Bool, true, false, not, ◌&&◌, ◌||◌, Option, none, some, List, [], ◌∷◌, ◌++◌, map, append-nil,
  append_assoc, arith, ltb, leb, ◌==◌, if◌then◌else◌, is_some, or_else, same_address, ◌>>=◌,
  Bool-cases, Option-cases, same_address_eq, same_address_refl, length, get_elem?, write, replicate,
  take, last_or, length-append, length-replicate, length-map, write-append, All, write_next,
  take-append, All-append, drop,
}
use tfg_edhoc.Library.{Libedhoc, Libcoap, content}
use tfg_edhoc.Coap.{StatusCoap}
use tfg_edhoc.Coap.Context.{LibcoapContext, SessionResources, create_context, cleanup_resources}
use tfg_edhoc.Oscore.Sessions.{LibcoapOscore}
use tfg_edhoc.Suites.Int.{ℤ, pos, negsuc}
use tfg_edhoc.Suites.Parameters.{EdhocParameters}
use tfg_edhoc.Server.AddError.{codes}
use tfg_edhoc.Server.Dispatch.{State}
use tfg_edhoc.Server.Lifetime.{Post, initial_state, serve}

pub data Method : Type 0 where
  get post : Method

-- The handlers of app_server.c.
pub data Handler : Type 0 where
  edhoc_post_handler temperature_get_handler : Handler

pub record LibcoapServer (X E R : Type 0) : Type 0 where
  pub contexts : LibcoapContext X
  -- The earlier data, and the context with the new.
  pub set_app_data2 : X → Option ℕ × X
  -- With neither PKI nor PSK, without web sockets.
  pub available_scheme_hint_bits : ℕ
  pub resolve_local : List ℕ → ℕ → List E
  -- Whether there is an endpoint, and the context.
  pub new_endpoint : E → X → Bool × X
  -- For a path; the flag is COAP_RESOURCE_FLAGS_OSCORE_ONLY.
  pub resource_init : List ℕ → Bool → Option R
  pub register_request_handler : Method → Handler → R → R
  pub add_resource : R → X → X

-- What one call of `coap_io_process` returned, and the POST requests that it gave to the handler before.
pub record IoCall (P : Type 0) : Type 0 where
  pub posts : List (Post P)
  pub returned : ℤ

-- `enum com_emulation_status`
pub data EmulationStatus : Type 0 where
  success failure : EmulationStatus

-- `status` is `none` while the server runs; the contexts that it created and freed are counted.
pub record ServerRun (C K X : Type 0) : Type 0 where
  pub status : Option EmulationStatus
  pub created : ℕ
  pub freed : ℕ
  pub state : Option (State C K X)

abbrev pub is_negative : ℤ → Bool
is_negative (pos n) = false
is_negative (negsuc n) = true

abbrev temperature_text : List ℕ
temperature_text = codes "{\"temp\": 23.5, \"unit\": \"C\"}"

-- The handler `temperature_get_handler`, which does not read whether the data was added.
unfoldable pub temperature_response : {P O : Type 0} → Libcoap P O → P → P
temperature_response coap response =
    coap.set_code content (coap.add_data temperature_text (length temperature_text) response).1

module _ {X E R : Type 0} (server : LibcoapServer X E R) where
  -- The loop over the addresses.
  unfoldable pub new_endpoints : List E → Bool → X → Bool × X
  new_endpoints [] has_endpoint x = (has_endpoint, x)
  new_endpoints (e ∷ es) has_endpoint x =
      let (made, x') = server.new_endpoint e x in
      new_endpoints es (if made then true else has_endpoint) x'

  unfoldable pub setup_endpoints : Option X → Option (List ℕ) → StatusCoap × Option X
  unfolding new_endpoints
  setup_endpoints none address = (StatusCoap.err, none)
  setup_endpoints (some x) none = (StatusCoap.err, some x)
  setup_endpoints (some x) (some address) =
      let (has_endpoint, x') =
        new_endpoints (server.resolve_local address server.available_scheme_hint_bits) false x in
      (if not has_endpoint then StatusCoap.err else StatusCoap.ok, some x')

  unfoldable pub add_resource_with_extra_flags :
      Option X → Option (List ℕ) → Option Handler → Method → Bool → StatusCoap × Option X
  add_resource_with_extra_flags (some x) (some path) (some handler) method oscore_only =
      elim (server.resource_init path oscore_only) [
        | none ↦ (StatusCoap.err, some x)
        | some r ↦ (
          StatusCoap.ok,
          some (server.add_resource (server.register_request_handler method handler r) x),
        )
      ]
  add_resource_with_extra_flags x path handler method oscore_only = (StatusCoap.err, x)

  unfoldable pub add_post_resource :
      Option X → Option (List ℕ) → Option Handler → StatusCoap × Option X
  unfolding add_resource_with_extra_flags
  add_post_resource x path handler = add_resource_with_extra_flags x path handler post false

  unfoldable pub add_oscore_only_get_resource :
      Option X → Option (List ℕ) → Option Handler → StatusCoap × Option X
  unfolding add_resource_with_extra_flags
  add_oscore_only_get_resource x path handler =
      add_resource_with_extra_flags x path handler get true

module _ {C K P O X F S : Type 0} (lib : Libedhoc C K) (coap : Libcoap P O)
    (oscore : LibcoapOscore X F S) where
  -- The loop, over the calls of `coap_io_process`; the status is `none` while it runs. The context is
  -- not NULL.
  unfoldable pub run_input_output_loop :
      EdhocParameters → List (IoCall P) → State C K X → Option (Option StatusCoap × State C K X)
  unfolding serve
  run_input_output_loop parameters [] s = some (none, s)
  run_input_output_loop parameters (call ∷ calls) s =
      serve lib coap oscore parameters call.posts s >>= λ s'. elim (is_negative call.returned) [
        | true ↦ some (some StatusCoap.err, s')
        | false ↦ run_input_output_loop parameters calls s'
      ]

  module _ {E R : Type 0} (server : LibcoapServer X E R) where
    -- `com_cleanup_resources`, and the return.
    abbrev pub clean_up : EmulationStatus → Option X → Option (State C K X) → ServerRun C K X
    clean_up status x s = record {
      status = some status;
      created = 1;
      freed = (cleanup_resources (some (record { coap_context = x }))).0;
      state = s;
    }

    -- From the loop on.
    unfoldable pub run_loop :
        EdhocParameters → List (IoCall P) → Option X → Option (ServerRun C K X)
    unfolding run_input_output_loop cleanup_resources
    run_loop parameters calls none = some (clean_up failure none none)
    run_loop parameters calls (some x) =
        run_input_output_loop parameters calls (initial_state lib coap oscore x) >>= λ (status, s).
        some (elim status [
          | none ↦ record { status = none; created = 1; freed = 0; state = some s }
          | some StatusCoap.ok ↦ clean_up success (some s.coap_context) (some s)
          | some StatusCoap.err ↦ clean_up failure (some s.coap_context) (some s)
        ])

    -- From the GET resource on.
    unfoldable pub serve_temperature :
        EdhocParameters → List (IoCall P) → Option X → Option (ServerRun C K X)
    unfolding run_loop add_oscore_only_get_resource
    serve_temperature parameters calls x =
        let (added, x') =
          add_oscore_only_get_resource server x (some (codes "sensors/temperature"))
            (some temperature_get_handler) in
        elim added [
          | StatusCoap.err ↦ some (clean_up failure x' none)
          | StatusCoap.ok ↦ run_loop parameters calls x'
        ]

    -- From the POST resource on.
    unfoldable pub serve_edhoc :
        EdhocParameters → List (IoCall P) → Option X → Option (ServerRun C K X)
    unfolding serve_temperature add_post_resource
    serve_edhoc parameters calls x =
        let (added, x') =
          add_post_resource server x (some (codes ".well-known/edhoc")) (some edhoc_post_handler) in
        elim added [
          | StatusCoap.err ↦ some (clean_up failure x' none)
          | StatusCoap.ok ↦ serve_temperature parameters calls x'
        ]

    -- With the context and the application's data in it.
    unfoldable pub open_server : EdhocParameters → List (IoCall P) → X → Option (ServerRun C K X)
    unfolding serve_edhoc setup_endpoints
    open_server parameters calls x =
        let (listens, x') = setup_endpoints server (some x) (some (codes "::")) in
        elim listens [
          | StatusCoap.err ↦ some (clean_up failure x' none)
          | StatusCoap.ok ↦ serve_edhoc parameters calls x'
        ]

    -- Where the context already has data, the run returns without a clean-up.
    unfoldable pub core_run_server : EdhocParameters → List (IoCall P) → Option (ServerRun C K X)
    unfolding create_context open_server
    core_run_server parameters calls =
        let initialization_result = create_context server.contexts in
        if not initialization_result.is_ok
        then some (record { status = some failure; created = 0; freed = 0; state = none })
        else initialization_result.context >>= λ context.
            let (earlier, x) = server.set_app_data2 context in
            if is_some earlier
            then some (record { status = some failure; created = 1; freed = 0; state = none })
            else open_server parameters calls x
