-- ===== src/Programs.antt =====
-- src/main_server.c and src/main_client.c: from the arguments to the parameters, and the run. A result
-- `none` is a memory fault. `strtol` is the C library's, `allocated` says whether `calloc` gives memory.
pub mod Laws
pub mod NoFault
use tfg_edhoc.Base.{
  ℕ, zero, suc, ◌+◌, ◌-◌, ◌*◌, ◌/◌, ◌%◌, ◌≤◌, ◌<◌, ◌≡◌, refl, sym, ap, subst, ◌∙◌, ◌≢◌, ◌⊎◌, inl,
  inr, Bool, true, false, not, ◌&&◌, ◌||◌, Option, none, some, List, [], ◌∷◌, ◌++◌, map, append-nil,
  append_assoc, arith, ltb, leb, ◌==◌, if◌then◌else◌, is_some, or_else, same_address, ◌>>=◌,
  Bool-cases, Option-cases, same_address_eq, same_address_refl, length, get_elem?, write, replicate,
  take, last_or, length-append, length-replicate, length-map, write-append, All, write_next,
  take-append, All-append, drop,
}
use Prim.Native.String.{String}
use tfg_edhoc.Library.{Libedhoc, Libcoap}
use tfg_edhoc.Common.Arguments.{StrtolResult, parse_suites_arguments}
use tfg_edhoc.ConnectionId.{CidGenerator, even, odd}
use tfg_edhoc.Oscore.Sessions.{LibcoapOscore}
use tfg_edhoc.Server.AddError.{codes}
use tfg_edhoc.Suites.{CipherSuiteList, CreateCipherSuitesResult, create_cipher_suites_from}
use tfg_edhoc.Suites.Parameters.{EdhocParameters, entries, validate_parameters}
use tfg_edhoc.Server.Application.{LibcoapServer, IoCall, ServerRun, core_run_server}
use tfg_edhoc.Client.Endpoint.{LibcoapEndpoint}
use tfg_edhoc.Client.Confirmation.{Flags}
use tfg_edhoc.Client.Application.Run.{Environment, RunResult, has_returned}
use tfg_edhoc.Client.Application.Main.{core_run_client}

-- `strcmp(a, b) == 0`
abbrev same_text : List ℕ → List ℕ → Bool
same_text [] [] = true
same_text (a ∷ s) (b ∷ t) = let rest = same_text s t in (a == b) && rest
same_text _ _ = false

-- How often `free` is called, and the list afterwards.
unfoldable pub delete_created_cipher_suite_list :
    Option CipherSuiteList → ℕ × Option CipherSuiteList
delete_created_cipher_suite_list none = (0, none)
delete_created_cipher_suite_list (some list) = elim list.suites [
  | none ↦ (0, some list)
  | some suites ↦ (1, some (record { suites = none }))
]

-- Either the usage is shown, with the list of suites that is left, or the parameters are ready.
pub data Preparation : Type 0 where
  refused : Option CipherSuiteList → Preparation
  ready : EdhocParameters → Preparation

-- A program that has shown its usage or has called the application; `created` and `freed` count the
-- lists of suites.
pub record ProgramRun (R : Type 0) : Type 0 where
  pub run : Option R
  pub created : ℕ
  pub freed : ℕ

-- EDHOC_METHOD_0
abbrev supported_methods : List ℕ
supported_methods = 0 ∷ []

-- The parameters from the list of suites on.
unfoldable pub choose_parameters : CreateCipherSuitesResult → CidGenerator → ℕ → Option Preparation
choose_parameters created generator credentials =
    if not created.success
    then some (refused (some created.cipher_suites))
    else get_elem? (entries created.cipher_suites) 0 >>= λ selected.
        let parameters : EdhocParameters = record {
          credentials = some credentials;
          supported_cipher_suites = created.cipher_suites;
          selected_cipher_suite = selected;
          methods = some supported_methods;
          generate_connection_id = some generator;
        } in
        if not (validate_parameters parameters)
        then some (refused (some created.cipher_suites))
        else some (ready parameters)

-- What the two programs do with the arguments that name suites.
unfoldable pub prepare_parameters :
    (List ℕ → StrtolResult) → Bool → List (Option (List ℕ)) → CidGenerator → ℕ → Option Preparation
unfolding choose_parameters
prepare_parameters strtol allocated arguments generator credentials =
    parse_suites_arguments strtol (some arguments) >>= λ parsed.
    if not parsed.success
    then some (refused none)
    else choose_parameters
        (create_cipher_suites_from allocated (take parsed.suites.count parsed.suites.identifiers))
        generator credentials

-- Whether a list was allocated.
abbrev list_created : Option CipherSuiteList → ℕ
list_created none = 0
list_created (some list) = if is_some list.suites then 1 else 0

abbrev pub usage : {R : Type 0} → Option CipherSuiteList → ProgramRun R
usage list = record {
  run = none;
  created = list_created list;
  freed = (delete_created_cipher_suite_list list).0;
}

-- Once the application has returned the list is deleted.
abbrev called : {R : Type 0} → (R → Bool) → EdhocParameters → R → ProgramRun R
called returned parameters r = record {
  run = some r;
  created = list_created (some parameters.supported_cipher_suites);
  freed =
      if returned r
      then (delete_created_cipher_suite_list (some parameters.supported_cipher_suites)).0
      else 0;
}

-- With the preparation behind it; `returned` says whether a run of the application is over.
unfoldable pub run_prepared :
    {R : Type 0} → (R → Bool) → (EdhocParameters → Option R) → Preparation → Option (ProgramRun R)
unfolding delete_created_cipher_suite_list
run_prepared returned application (refused list) = some (usage list)
run_prepared returned application (ready parameters) =
    application parameters >>= λ r. some (called returned parameters r)

-- `-s` or `--supported` comes first; fewer than `least` strings, or a call for help, show the usage.
abbrev pub usage_is_asked : ℕ → List (List ℕ) → Bool
usage_is_asked least argv =
    let first_argument = or_else (get_elem? argv 1) [] in
    ltb (length argv) least
    || (same_text first_argument (codes "-h")
        || (same_text first_argument (codes "--help")
            || (not (same_text first_argument (codes "-s"))
                && not (same_text first_argument (codes "--supported")))))

-- A server that goes on has no status yet.
abbrev pub server_returned : {C K X : Type 0} → ServerRun C K X → Bool
server_returned r = is_some r.status

module _ {C K P O X F S : Type 0} (lib : Libedhoc C K) (coap : Libcoap P O)
    (oscore : LibcoapOscore X F S) (strtol : List ℕ → StrtolResult) (allocated : Bool)
    (credentials : ℕ) (argv : List (List ℕ)) where
  -- `main` of the server; the run is over when the last of its calls of `coap_io_process` failed.
  unfoldable pub main_server :
      {E R : Type 0} → LibcoapServer X E R → List (IoCall P) → Option (ProgramRun (ServerRun C K X))
  unfolding prepare_parameters run_prepared core_run_server
  main_server server calls =
      if usage_is_asked 3 argv
      then some (usage none)
      else prepare_parameters strtol allocated (map some (drop 2 argv)) odd credentials
        >>= run_prepared server_returned (λ p. core_run_server lib coap oscore server p calls)

  -- `main` of the client; the last argument is the address of the server.
  unfoldable pub main_client :
      {U A : Type 0}
      → LibcoapEndpoint P O U A X S
      → Environment P
      → Flags
      → Option (ProgramRun (RunResult C))
  unfolding prepare_parameters run_prepared core_run_client
  main_client endpoint env flags =
      if usage_is_asked 4 argv
      then some (usage none)
      else prepare_parameters strtol allocated (map some (take (length argv - 3) (drop 2 argv)))
          even credentials
        >>= run_prepared has_returned (λ p.
          core_run_client coap endpoint oscore lib (record env { server_ip = last_or [] argv }) p
            flags)
