-- ===== src/Client/Renegotiate.antt =====
-- src/coap/client/cli_resources.c, the part that sets up and resets the EDHOC context of the client.
-- Its release of the resources is in Client/Resources. A result `none` is a memory fault.
pub mod Prefix
pub mod Laws
use tfg_edhoc.Base.{
  ℕ, zero, suc, ◌+◌, ◌-◌, ◌*◌, ◌/◌, ◌%◌, ◌≤◌, ◌<◌, ◌≡◌, refl, sym, ap, subst, ◌∙◌, ◌≢◌, ◌⊎◌, inl,
  inr, Bool, true, false, not, ◌&&◌, ◌||◌, Option, none, some, List, [], ◌∷◌, ◌++◌, map, append-nil,
  append_assoc, arith, ltb, leb, ◌==◌, if◌then◌else◌, is_some, or_else, same_address, ◌>>=◌,
  Bool-cases, Option-cases, same_address_eq, same_address_refl, length, get_elem?, write, replicate,
  take, last_or, length-append, length-replicate, length-map, write-append, All, write_next,
  take-append, All-append, drop,
}
use tfg_edhoc.Library.{Libedhoc}
use tfg_edhoc.Suites.{CipherSuiteDetails}
use tfg_edhoc.Suites.Parameters.{EdhocParameters}
use tfg_edhoc.Suites.Setup.{SetupContextStatus, setup_context}
use tfg_edhoc.Suites.Negotiate.{RenegotiationList}

abbrev setup_ok : SetupContextStatus → Bool
setup_ok SetupContextStatus.ok = true
setup_ok _ = false

-- `negotiated_suites.suites[negotiated_suites.number_of_suites - 1]`; the index of an empty list
-- wraps round, and lies outside the array.
unfoldable pub last_suite : RenegotiationList → Option (Option CipherSuiteDetails)
last_suite l = elim l.number_of_suites [ zero ↦ none | suc n ↦ get_elem? l.suites n ]

unfoldable pub new_parameters : EdhocParameters → RenegotiationList → Option EdhocParameters
unfolding last_suite
new_parameters original negotiated = last_suite negotiated >>= λ selected. some (record {
  credentials = original.credentials;
  methods = original.methods;
  supported_cipher_suites = record {
    suites = some (take negotiated.number_of_suites negotiated.suites);
  };
  selected_cipher_suite = selected;
  generate_connection_id = original.generate_connection_id;
})

module _ {C K : Type 0} (lib : Libedhoc C K) where
  unfoldable pub reset_edhoc_context : Option C → Bool × Option C
  reset_edhoc_context none = (false, none)
  reset_edhoc_context (some context) = (true, some (lib.context_deinit context).1)

  unfoldable pub initialize_edhoc_context_with_parameters :
      Bool → Option C → EdhocParameters → Option (Bool × Option C)
  initialize_edhoc_context_with_parameters psa none parameters = some (false, none)
  initialize_edhoc_context_with_parameters psa (some context) parameters =
      setup_context lib psa context parameters >>= λ r. some (setup_ok r.0, some r.1)

  unfoldable pub reset_edhoc_context_with_new_suites_data :
      Bool → Option C → EdhocParameters → RenegotiationList → Option (Bool × Option C)
  unfolding reset_edhoc_context new_parameters initialize_edhoc_context_with_parameters
  reset_edhoc_context_with_new_suites_data psa context original negotiated =
      let (was_reset, context') = reset_edhoc_context context in
      if not was_reset
      then some (false, context')
      else new_parameters original negotiated >>= λ parameters.
          initialize_edhoc_context_with_parameters psa context' parameters
