-- ===== src/Suites/Setup/Laws.antt =====
-- What com_edhoc_setup_context does on every path.
use tfg_edhoc.Base.{
  ℕ, ◌≡◌, subst, ◌≢◌, inl, inr, Bool, true, Option, none, some, List, [], ◌∷◌, ◌++◌, arith, or_else,
  Bool-cases, Option-cases, length, replicate, All,
}
use tfg_edhoc.ConnectionId.{CidGenerator, generate, initial_counters}
use tfg_edhoc.Library.{Libedhoc}
use tfg_edhoc.Suites.{CipherSuite, CipherSuiteDetails}
use tfg_edhoc.Suites.Parameters.{
  EdhocParameters, entries, suite_in_suites_list, validate_parameters, validate_parameters-IsValid,
}
use tfg_edhoc.Suites.Setup.{fill_array, ok, setup_context, build_cipher_suites}
use tfg_edhoc.Suites.Setup.Arrays.{
  HasMetadata, HasFunctions, AgreesWith, other_suites, build_cipher_suites_lem,
}

-- The pointers of the parameters mean one struct each, each suite has its metadata, and the selected
-- one its functions.
pub record Coherent (p : EdhocParameters) (d : CipherSuiteDetails) (m : CipherSuite) : Type 0 where
  pub selected : p.selected_cipher_suite ≡ some d
  pub metadata : d.metadata ≡ some m
  pub has_functions : HasFunctions (some d)
  pub all_have : All HasMetadata (entries p.supported_cipher_suites)
  pub agree : All (AgreesWith (some d)) (entries p.supported_cipher_suites)

module _ {C K : Type 0} (lib : Libedhoc C K) where
  -- The context after the eight calls that prepare it, each given what the parameters say.
  abbrev pub configured :
      CipherSuiteDetails → ℕ → ℕ → List ℕ → List (Option CipherSuite) → CidGenerator → ℕ → C → C
  configured selected get_keys get_crypto methods suites g credentials c =
      let c1 = (lib.context_init c).1 in
      let c2 = (lib.set_methods methods c1).1 in
      let c3 = (lib.set_cipher_suites suites c2).1 in
      let c4 =
        (lib.set_connection_id (lib.one_byte_integer_cid (generate g initial_counters).0) c3).1 in
      let c5 = (lib.bind_keys get_keys c4).1 in
      let c6 = (lib.set_user_context selected c5).1 in
      let c7 = (lib.bind_crypto get_crypto c6).1 in (lib.bind_credentials credentials c7).1

  -- Success needs valid parameters and a started PSA library.
  pub setup_context_ok_needs :
      (psa : Bool) (c c' : C) (p : EdhocParameters)
      → setup_context lib psa c p ≡ some (ok, c')
      → (validate_parameters p ≡ true) × (psa ≡ true)
  unfolding setup_context
  setup_context_ok_needs psa c c' p h = ground arith

  module _ (psa : Bool) (c : C) (p : EdhocParameters) (d : CipherSuiteDetails) (m : CipherSuite)
      (co : Coherent p d m) where
    array :
        validate_parameters p ≡ true
        → build_cipher_suites d (entries p.supported_cipher_suites)
          ≡ some (other_suites (some d) (entries p.supported_cipher_suites) ++ some m ∷ [])
    array h =
        let v = validate_parameters-IsValid p h in
        build_cipher_suites_lem d m _ co.metadata co.all_have co.agree v.no_duplicates (
          subst (λ s. suite_in_suites_list s (entries p.supported_cipher_suites) ≡ true) co.selected
            v.selected_in)

    -- For coherent parameters there is no memory fault, whatever libedhoc answers: nothing is read or
    -- called through NULL, nor written outside the array.
    pub setup_context_no_fault : setup_context lib psa c p ≢ none
    unfolding setup_context
    setup_context_no_fault = elim (Bool-cases (validate_parameters p)) [
      | inl valid ↦
          ground
            (arith, array valid, co.selected, co.has_functions, validate_parameters-IsValid p valid)
      | inr refused ↦ ground arith
    ]

    -- On success, for coherent parameters, the context went through all eight calls, in order. libedhoc
    -- was given the other supported suites in order with the selected suite last, and what the selected
    -- suite's two functions return.
    pub setup_context_ok :
        (c' : C) (keys crypto : ℕ) (ms : List ℕ) (g : CidGenerator) (cr : ℕ)
        → d.get_keys ≡ some keys
        → d.get_crypto ≡ some crypto
        → p.methods ≡ some ms
        → p.generate_connection_id ≡ some g
        → p.credentials ≡ some cr
        → setup_context lib psa c p ≡ some (ok, c')
        → c'
          ≡ configured d keys crypto ms
              (other_suites (some d) (entries p.supported_cipher_suites) ++ some m ∷ [])
              g
              cr
              c
    unfolding setup_context
    setup_context_ok c' keys crypto ms g cr hk hy hm hg hc h =
        ground (arith, array (setup_context_ok_needs psa c c' p h).0, co.selected)

build_cipher_suites_null :
    (d : CipherSuiteDetails) (xs : List (Option CipherSuiteDetails))
    → d.metadata ≡ none
    → build_cipher_suites d xs ≡ none
unfolding build_cipher_suites
build_cipher_suites_null d xs h =
    elim (Option-cases (fill_array d.metadata xs 0 (replicate (length xs) none))) [
      | inl n ↦ rw n
      | inr (suites, n) ↦ rw (n, h)
    ]

-- Parameters that pass the validation although their selected suite has no metadata make the set-up
-- read through NULL, once PSA has started and libedhoc has taken the context and the methods.
pub setup_context_null_metadata :
    {C K : Type 0} (lib : Libedhoc C K) (c : C) (p : EdhocParameters) (d : CipherSuiteDetails)
    → validate_parameters p ≡ true
    → p.selected_cipher_suite ≡ some d
    → d.metadata ≡ none
    → (lib.context_init c).0 ≡ true
    → (lib.set_methods (or_else p.methods []) (lib.context_init c).1).0 ≡ true
    → setup_context lib true c p ≡ none
unfolding setup_context
setup_context_null_metadata lib c p d valid selected null init methods = ground (
  arith,
  valid,
  selected,
  init,
  methods,
  build_cipher_suites_null d (entries p.supported_cipher_suites) null,
)
