-- ===== src/Programs/NoFault.antt =====
-- From any command line, src/main_server.c and src/main_client.c make no memory fault.
use tfg_edhoc.Base.{
  ℕ, zero, suc, ◌-◌, ◌≤◌, ◌<◌, ◌≡◌, refl, Bool, true, false, Option, none, some, List, [], ◌∷◌, map,
  arith, if◌then◌else◌, length, length-map, drop,
}
use tfg_edhoc.Library.{Libedhoc, Libcoap}
use tfg_edhoc.Common.Arguments.{StrtolResult}
use tfg_edhoc.ConnectionId.{CidGenerator, odd}
use tfg_edhoc.Oscore.Sessions.{LibcoapOscore}
use tfg_edhoc.Server.Session.Laws.{EqualityLaws}
use tfg_edhoc.Server.Application.{LibcoapServer, IoCall, ServerRun, core_run_server}
use tfg_edhoc.Server.Application.Laws.{Ends, core_run_server-Ends}
use tfg_edhoc.Suites.Parameters.{EdhocParameters}
use tfg_edhoc.Programs.{
  ProgramRun, usage, usage_is_asked, delete_created_cipher_suite_list, prepare_parameters,
  server_returned, main_server,
}
use tfg_edhoc.Programs.Laws.{
  Sound, Prepared, prepare_parameters-Prepared, Completed, Returns, Completed-Prepared,
}

Completed-usage :
    {R : Type 0} (returned : R → Bool) (Q : R → Type 0) (asked : Bool) (o : Option (ProgramRun R))
    → (asked ≡ false → Completed returned Q o)
    → Completed returned Q (if asked then some (usage none) else o)
unfolding delete_created_cipher_suite_list
Completed-usage returned Q true o h = refl
Completed-usage returned Q false o h = h refl

Prepared-from_any :
    (strtol : List ℕ → StrtolResult) (allocated : Bool) (arguments : List (Option (List ℕ)))
    (generator : CidGenerator) (credentials : ℕ)
    → 0 < length arguments
    → Prepared (prepare_parameters strtol allocated arguments generator credentials)
Prepared-from_any strtol allocated [] generator credentials h = elim h [ ]
Prepared-from_any strtol allocated (a ∷ rest) generator credentials h =
    prepare_parameters-Prepared generator credentials strtol allocated a rest

length-drop : (n : ℕ) (xs : List (List ℕ)) → length (drop n xs) ≡ length xs - n
length-drop zero xs = omega arith
length-drop (suc n) [] = omega arith
length-drop (suc n) (x ∷ xs) = omega (arith, length-drop n xs)

module _ {C K P O X F S : Type 0} (lib : Libedhoc C K) (coap : Libcoap P O)
    (oscore : LibcoapOscore X F S) (strtol : List ℕ → StrtolResult) (allocated : Bool)
    (credentials : ℕ) (argv : List (List ℕ)) where
  some_arguments :
      (least : ℕ)
      → usage_is_asked (suc (suc (suc least))) argv ≡ false
      → 0 < length (map some (drop 2 argv))
  some_arguments least h =
      let enough : 3 ≤ length argv = ground (arith, h) in
      omega (arith, enough, length-drop 2 argv, length-map some (drop 2 argv))

  of_Ends :
      (o : Option (ServerRun C K X))
      → Ends lib coap oscore o
      → Returns (λ r. Ends lib coap oscore (some r)) o
  of_Ends none h = h
  of_Ends (some r) h = h

  -- Whatever its arguments are, and whatever strtol makes of them, the server's program makes no
  -- memory fault. It deletes the list of suites it has created once the run has returned, and not
  -- before. The run goes on, or ends as a failure with its context freed, and every live context is in
  -- exactly one entry. A new context of libcoap holds no data, and libedhoc's equality of identifiers is
  -- an equivalence.
  pub main_server-Completed :
      {E R : Type 0} (server : LibcoapServer X E R) (calls : List (IoCall P))
      → EqualityLaws lib
      → ((x : X) → (server.set_app_data2 x).0 ≡ none)
      → Completed server_returned
          (λ r. Ends lib coap oscore (some r))
          (main_server lib coap oscore strtol allocated credentials argv server calls)
  unfolding main_server
  main_server-Completed server calls eq fresh =
      Completed-usage _ _ (usage_is_asked 3 argv) _ λ not_asked. Completed-Prepared _ _ _ _ runs (
        Prepared-from_any strtol allocated (map some (drop 2 argv)) odd credentials
          (some_arguments 0 not_asked))
    where
      runs :
          (p : EdhocParameters)
          → Sound p
          → Returns
              (λ r. Ends lib coap oscore (some r))
              (core_run_server lib coap oscore server p calls)
      runs p sound = of_Ends (core_run_server lib coap oscore server p calls) (
          core_run_server-Ends lib coap oscore eq p sound.details sound.metadata sound.coherent
            server calls fresh)
