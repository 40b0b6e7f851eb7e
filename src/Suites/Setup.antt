-- ===== src/Suites/Setup.antt =====
-- com_edhoc_setup_context of src/edhoc/common/com_edhoc_manage_context.c, with the statuses of
-- include/edhoc/common/com_edhoc_manage_context.h.
-- A result `none` is a memory fault: a read or a call through NULL, or a write outside the array of suites.
pub mod Arrays
pub mod Laws
use tfg_edhoc.Base.{
  ℕ, zero, suc, ◌+◌, ◌-◌, ◌*◌, ◌/◌, ◌%◌, ◌≤◌, ◌<◌, ◌≡◌, refl, sym, ap, subst, ◌∙◌, ◌≢◌, ◌⊎◌, inl,
  inr, Bool, true, false, not, ◌&&◌, ◌||◌, Option, none, some, List, [], ◌∷◌, ◌++◌, map, append-nil,
  append_assoc, arith, ltb, leb, ◌==◌, if◌then◌else◌, is_some, or_else, same_address, ◌>>=◌,
  Bool-cases, Option-cases, same_address_eq, same_address_refl, length, get_elem?, write, replicate,
  take, last_or, length-append, length-replicate, length-map, write-append, All,
}
use tfg_edhoc.ConnectionId.{CidGenerator, generate, initial_counters}
use tfg_edhoc.Library.{Libedhoc}
use tfg_edhoc.Suites.{
  CipherSuite, CipherSuiteDetails, CipherSuiteList, metadata_address, metadata_of,
}
use tfg_edhoc.Suites.Parameters.{EdhocParameters, entries, validate_parameters}

pub data SetupContextStatus : Type 0 where
  ok err_invalid_error_buffer err_invalid_edhoc_parameters err_psa_init err_context_init
        err_set_methods err_set_cipher_suites err_set_connection_id err_bind_keys
        err_set_user_context err_bind_crypto err_bind_credentials :
      SetupContextStatus

-- The loop that copies every supported suite but the selected one, from `write_index` on.
unfoldable pub fill_array :
    Option CipherSuite
    → List (Option CipherSuiteDetails)
    → ℕ
    → List (Option CipherSuite)
    → Option (List (Option CipherSuite))
fill_array selected [] write_index suites = some suites
fill_array selected (x ∷ xs) write_index suites =
    elim (same_address (metadata_address selected) (metadata_address (metadata_of x))) [
      | true ↦ fill_array selected xs write_index suites
      | false ↦ elim (metadata_of x) [
        | none ↦ none
        | some m ↦ write suites write_index (some m) >>= fill_array selected xs (write_index + 1)
      ]
    ]

-- The array for `edhoc_set_cipher_suites`: uninitialised, filled, and the selected suite put last.
unfoldable pub build_cipher_suites :
    CipherSuiteDetails → List (Option CipherSuiteDetails) → Option (List (Option CipherSuite))
unfolding fill_array
build_cipher_suites selected supported =
    fill_array selected.metadata supported 0 (replicate (length supported) none) >>= λ suites.
    selected.metadata >>= λ m. write suites (length supported - 1) (some m)

module _ {C K : Type 0} (lib : Libedhoc C K) where
  -- `if (call != EDHOC_SUCCESS) return failure(status);` and on.
  abbrev attempt :
      Bool × C
      → SetupContextStatus
      → (C → Option (SetupContextStatus × C))
      → Option (SetupContextStatus × C)
  attempt (true, c) status next = next c
  attempt (false, c) status next = some (status, c)

  -- `psa` says whether `psa_crypto_init` succeeded. A NULL method, credential or generator is read
  -- as an empty one: the validation returns before.
  unfoldable pub setup_context : Bool → C → EdhocParameters → Option (SetupContextStatus × C)
  setup_context psa c p =
      if not (validate_parameters p)
      then some (err_invalid_edhoc_parameters, c)
      else if not psa
      then some (err_psa_init, c)
      else attempt (lib.context_init c) err_context_init λ c1.
        attempt (lib.set_methods (or_else p.methods []) c1) err_set_methods λ c2.
          p.selected_cipher_suite >>= λ selected.
          build_cipher_suites selected (entries p.supported_cipher_suites) >>= λ suites.
          attempt (lib.set_cipher_suites suites c2) err_set_cipher_suites λ c3.
            p.generate_connection_id >>= λ generator.
            attempt
              (lib.set_connection_id
                (lib.one_byte_integer_cid (generate generator initial_counters).0) c3)
              err_set_connection_id
              λ c4. selected.get_keys >>= λ get_keys.
                attempt (lib.bind_keys get_keys c4) err_bind_keys λ c5.
                  attempt (lib.set_user_context selected c5) err_set_user_context λ c6.
                    selected.get_crypto >>= λ get_crypto.
                    attempt (lib.bind_crypto get_crypto c6) err_bind_crypto λ c7.
                      p.credentials >>= λ credentials.
                      attempt (lib.bind_credentials credentials c7) err_bind_credentials
                        λ c8. some (ok, c8)
