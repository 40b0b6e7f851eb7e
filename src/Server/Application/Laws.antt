-- ===== src/Server/Application/Laws.antt =====
-- How the server of src/core/app_server.c ends: without a memory fault, with a failure, and with its
-- context freed.
use tfg_edhoc.Base.{
  sym, is_some, ℕ, ◌≡◌, refl, sym, ◌≢◌, ◌⊎◌, inl, inr, Bool, true, false, Option, none, some, List,
  [], ◌∷◌, arith, if◌then◌else◌, is_some, ◌>>=◌,
}
use tfg_edhoc.Library.{Libedhoc, Libcoap}
use tfg_edhoc.Coap.{StatusCoap}
use tfg_edhoc.Coap.Context.{create_context, cleanup_resources}
use tfg_edhoc.Oscore.Sessions.{LibcoapOscore}
use tfg_edhoc.Suites.{CipherSuite, CipherSuiteDetails}
use tfg_edhoc.Suites.Parameters.{EdhocParameters}
use tfg_edhoc.Suites.Setup.Laws.{Coherent}
use tfg_edhoc.Server.Session.Laws.{EqualityLaws}
use tfg_edhoc.Server.AddError.{codes}
use tfg_edhoc.Server.Dispatch.{State}
use tfg_edhoc.Server.Dispatch.Memory.{Inv}
use tfg_edhoc.Server.Lifetime.{Reached, initial_state, serve, serve-Reached, initial_state-Inv}
use tfg_edhoc.Server.Application.{
  LibcoapServer, IoCall, success, failure, clean_up, ServerRun, is_negative, setup_endpoints,
  add_resource_with_extra_flags, add_post_resource, add_oscore_only_get_resource,
  run_input_output_loop, run_loop, serve_temperature, serve_edhoc, Handler, Method, get, post,
  edhoc_post_handler, temperature_get_handler, open_server, core_run_server,
}

module _ {C K P O X F S : Type 0} (lib : Libedhoc C K) (coap : Libcoap P O)
    (oscore : LibcoapOscore X F S) where
  abbrev KeepsState : Option (State C K X) → Type 0
  KeepsState none = Unit
  KeepsState (some s) = Inv lib s

  -- No fault; the server still runs, or it failed and freed the context if it had created it; and the
  -- state is sound.
  abbrev pub Ends : Option (ServerRun C K X) → Type 0
  Ends none = ⊥
  Ends (some r) =
      ((r.status ≡ none) ⊎ ((r.status ≡ some failure) × (r.freed ≡ r.created))) × KeepsState r.state

  abbrev LoopEnds : Option (Option StatusCoap × State C K X) → Type 0
  LoopEnds none = ⊥
  LoopEnds (some (status, s)) = (status ≢ some StatusCoap.ok) × Inv lib s

  module _ (eq : EqualityLaws lib) (p : EdhocParameters) (d : CipherSuiteDetails) (m : CipherSuite)
      (co : Coherent p d m) where
    LoopEnds-next :
        (o : Option (State C K X)) (negative : Bool) (calls : List (IoCall P))
        → ((s : State C K X)
            → Inv lib s
            → LoopEnds (run_input_output_loop lib coap oscore p calls s))
        → Reached lib coap oscore o
        → LoopEnds (
            o >>= λ s'. elim negative [
              | true ↦ some (some StatusCoap.err, s')
              | false ↦ run_input_output_loop lib coap oscore p calls s'
            ])
    LoopEnds-next none negative calls rest h = h
    LoopEnds-next (some s) true calls rest h = (λ e. cc, h)
    LoopEnds-next (some s) false calls rest h = rest s h

    run_input_output_loop-LoopEnds :
        (calls : List (IoCall P)) (s : State C K X)
        → Inv lib s
        → LoopEnds (run_input_output_loop lib coap oscore p calls s)
    unfolding run_input_output_loop
    run_input_output_loop-LoopEnds [] s v = (λ e. cc, v)
    run_input_output_loop-LoopEnds (call ∷ calls) s v =
        LoopEnds-next (serve lib coap oscore p call.posts s) (is_negative call.returned) calls
          (run_input_output_loop-LoopEnds calls)
          (serve-Reached lib coap oscore eq p d m co call.posts s v)

    module _ {E R : Type 0} (server : LibcoapServer X E R) where
      Ends-loop :
          (o : Option (Option StatusCoap × State C K X))
          → LoopEnds o
          → Ends (
              o >>= λ (status, s). some (elim status [
                | none ↦ record { status = none; created = 1; freed = 0; state = some s }
                | some StatusCoap.ok ↦
                    clean_up lib coap oscore server success (some s.coap_context) (some s)
                | some StatusCoap.err ↦
                    clean_up lib coap oscore server failure (some s.coap_context) (some s)
              ]))
      unfolding cleanup_resources
      Ends-loop none h = h
      Ends-loop (some (none, s)) h = (inl refl, h.1)
      Ends-loop (some (some StatusCoap.ok, s)) h = absurd (h.0 refl)
      Ends-loop (some (some StatusCoap.err, s)) h = (inr (refl, refl), h.1)

      run_loop-Ends :
          (calls : List (IoCall P)) (x : X)
          → Ends (run_loop lib coap oscore server p calls (some x))
      unfolding run_loop
      run_loop-Ends calls x =
          Ends-loop
            (run_input_output_loop lib coap oscore p calls (initial_state lib coap oscore x))
            (run_input_output_loop-LoopEnds calls _ (initial_state-Inv lib coap oscore x))

      -- A step that keeps the context and fails with the clean-up.
      Ends-step :
          (made : StatusCoap × Option X) (rest : Option X → Option (ServerRun C K X))
          → is_some made.1 ≡ true
          → ((y : X) → Ends (rest (some y)))
          → Ends (elim made.0 [
            | StatusCoap.err ↦ some (clean_up lib coap oscore server failure made.1 none)
            | StatusCoap.ok ↦ rest made.1
          ])
      unfolding cleanup_resources
      Ends-step (s, none) rest h g = cc
      Ends-step (StatusCoap.err, some y) rest h g = (inr (refl, refl), tt)
      Ends-step (StatusCoap.ok, some y) rest h g = g y

      keeps_context :
          (x : X) (path : List ℕ) (handler : Handler) (method : Method) (oscore_only : Bool)
          → is_some
              (add_resource_with_extra_flags server
                (some x)
                (some path)
                (some handler)
                method
                oscore_only).1
            ≡ true
      unfolding add_resource_with_extra_flags
      keeps_context x path handler method oscore_only = ground arith

      serve_temperature-Ends :
          (calls : List (IoCall P)) (x : X)
          → Ends (serve_temperature lib coap oscore server p calls (some x))
      unfolding serve_temperature add_oscore_only_get_resource
      serve_temperature-Ends calls x =
          Ends-step
            (add_oscore_only_get_resource server (some x) (some (codes "sensors/temperature"))
              (some temperature_get_handler))
            (run_loop lib coap oscore server p calls) (keeps_context x _ _ get true)
            (run_loop-Ends calls)

      serve_edhoc-Ends :
          (calls : List (IoCall P)) (x : X)
          → Ends (serve_edhoc lib coap oscore server p calls (some x))
      unfolding serve_edhoc add_post_resource
      serve_edhoc-Ends calls x =
          Ends-step
            (add_post_resource server (some x) (some (codes ".well-known/edhoc"))
              (some edhoc_post_handler))
            (serve_temperature lib coap oscore server p calls) (keeps_context x _ _ post false)
            (serve_temperature-Ends calls)

      open_server-Ends :
          (calls : List (IoCall P)) (x : X) → Ends (open_server lib coap oscore server p calls x)
      unfolding open_server setup_endpoints
      open_server-Ends calls x =
          Ends-step (setup_endpoints server (some x) (some (codes "::")))
            (serve_edhoc lib coap oscore server p calls) refl (serve_edhoc-Ends calls)

      Ends-opened :
          (calls : List (IoCall P)) (made : Option ℕ × X)
          → made.0 ≡ none
          → Ends (
              if is_some made.0
              then some (record { status = some failure; created = 1; freed = 0; state = none })
              else open_server lib coap oscore server p calls made.1)
      Ends-opened calls (none, x) h = open_server-Ends calls x
      Ends-opened calls (some a, x) h = cc

      Ends-created :
          (calls : List (IoCall P)) (context : Option X)
          → ((x : X) → (server.set_app_data2 x).0 ≡ none)
          → context ≡ server.contexts.new_context
          → Ends (core_run_server lib coap oscore server p calls)
      unfolding core_run_server create_context
      Ends-created calls none fresh e = rw (sym e) (inr (refl, refl), tt)
      Ends-created calls (some x) fresh e =
          let y = server.contexts.set_block_mode x in
          rw (sym e) (Ends-opened calls (server.set_app_data2 y) (fresh y))

      -- A new context holds no data. Then the server makes no memory fault, whatever requests come;
      -- it runs on, or it has failed and freed the context that it had created; it never
      -- returns success. What it leaves is sound: each live context is held by exactly one entry of the
      -- dictionary. For coherent parameters, and identifiers whose equality is an equivalence.
      pub core_run_server-Ends :
          (calls : List (IoCall P))
          → ((x : X) → (server.set_app_data2 x).0 ≡ none)
          → Ends (core_run_server lib coap oscore server p calls)
      core_run_server-Ends calls fresh = Ends-created calls server.contexts.new_context fresh refl
