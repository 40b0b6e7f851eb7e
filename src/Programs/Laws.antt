-- ===== src/Programs/Laws.antt =====
-- From any command line, src/main_server.c and src/main_client.c make no memory fault.
use tfg_edhoc.Base.{
  ℕ, suc, ◌+◌, ◌-◌, ◌≡◌, refl, sym, subst, ◌∙◌, inl, inr, Bool, true, false, not, Option, none,
  some, List, [], ◌∷◌, arith, leb, if◌then◌else◌, ◌>>=◌, length, replicate, take, All, take-append,
}
use tfg_edhoc.Common.Arguments.{
  StrtolResult, ParseSuitesArgumentsResult, identifiers_of, parse_identifier, outcome, filled,
  parse_failure, parse_suites_arguments_lem,
}
use tfg_edhoc.ConnectionId.{CidGenerator}
use tfg_edhoc.Suites.Int.{ℤ, pos}
use tfg_edhoc.Suites.{
  CipherSuite, CipherSuiteDetails, CreateCipherSuitesResult, suite_0, suite_2, cipher_suite_0,
  cipher_suite_2, create_cipher_suites_from,
}
use tfg_edhoc.Suites.Parameters.{EdhocParameters, IsValid, entries, validate_parameters-IsValid}
use tfg_edhoc.Suites.Setup.Arrays.{AgreesWith}
use tfg_edhoc.Suites.Setup.Laws.{Coherent}
use tfg_edhoc.Suites.Known.{Known, Created, create_cipher_suites_from-Created, Known-Consistent}
use tfg_edhoc.Client.Renegotiate.Prefix.{Consistent}
use tfg_edhoc.Programs.{
  Preparation, refused, ready, ProgramRun, choose_parameters, prepare_parameters, run_prepared,
  delete_created_cipher_suite_list,
}

-- What parameters from the command line are, whatever the identifiers.
pub record Sound (p : EdhocParameters) : Type 0 where
  pub valid : IsValid p
  pub consistent : Consistent (entries p.supported_cipher_suites)
  pub details : CipherSuiteDetails
  pub metadata : CipherSuite
  pub coherent : Coherent p details metadata

abbrev pub Prepared : Option Preparation → Type 0
Prepared none = ⊥
Prepared (some (refused l)) = Unit
Prepared (some (ready p)) = Sound p

-- The parameters over a list of known suites whose first is selected.
Known-Sound :
    (p : EdhocParameters) (d : Option CipherSuiteDetails) (ds : List (Option CipherSuiteDetails))
    → p.supported_cipher_suites.suites ≡ some (d ∷ ds)
    → p.selected_cipher_suite ≡ d
    → All Known (d ∷ ds)
    → IsValid p
    → Sound p
Known-Sound p d ds e f (inl k, ks) v = record {
  valid = v;
  consistent = rw e (Known-Consistent (d ∷ ds) (inl k, ks));
  details = suite_0;
  metadata = cipher_suite_0;
  coherent = record {
    selected = f ∙ k;
    metadata = refl;
    has_functions = (refl, refl);
    all_have = rw e (Known-Consistent (d ∷ ds) (inl k, ks)).0;
    agree =
        rw e
          (subst (λ x. All (AgreesWith x) (d ∷ ds)) k (Known-Consistent (d ∷ ds) (inl k, ks)).1.0);
  };
}
Known-Sound p d ds e f (inr k, ks) v = record {
  valid = v;
  consistent = rw e (Known-Consistent (d ∷ ds) (inr k, ks));
  details = suite_2;
  metadata = cipher_suite_2;
  coherent = record {
    selected = f ∙ k;
    metadata = refl;
    has_functions = (refl, refl);
    all_have = rw e (Known-Consistent (d ∷ ds) (inr k, ks)).0;
    agree =
        rw e
          (subst (λ x. All (AgreesWith x) (d ∷ ds)) k (Known-Consistent (d ∷ ds) (inr k, ks)).1.0);
  };
}

module _ (generator : CidGenerator) (credentials : ℕ) where
  choose_parameters-Prepared :
      (i : ℤ) (is : List ℤ) (created : CreateCipherSuitesResult)
      → Created (i ∷ is) created
      → Prepared (choose_parameters created generator credentials)
  unfolding choose_parameters
  choose_parameters-Prepared i is created (inr (s, l, u)) = ground (arith, s)
  choose_parameters-Prepared i is created (inl ([], s, l, si, k, v)) = cc
  choose_parameters-Prepared i is created (inl (d ∷ ds, s, l, si, k, v)) =
      let p : EdhocParameters = record {
        credentials = some credentials;
        supported_cipher_suites = created.cipher_suites;
        selected_cipher_suite = d;
        methods = some (0 ∷ []);
        generate_connection_id = some generator;
      } in
      ground (
        arith,
        s,
        l,
        λ (v : IsValid p). Known-Sound p d ds l refl k v,
        validate_parameters-IsValid p,
      )

  choose_unallocated :
      (ids : List ℤ)
      → Prepared (choose_parameters (create_cipher_suites_from false ids) generator credentials)
  unfolding choose_parameters create_cipher_suites_from
  choose_unallocated ids = tt

  chosen-Prepared :
      (allocated : Bool) (i : ℤ) (is : List ℤ)
      → Prepared
          (choose_parameters (create_cipher_suites_from allocated (i ∷ is)) generator credentials)
  chosen-Prepared false i is = choose_unallocated (i ∷ is)
  chosen-Prepared true i is =
      choose_parameters-Prepared i is (create_cipher_suites_from true (i ∷ is))
        (create_cipher_suites_from-Created (i ∷ is))

  -- Behind the parsing of one or more arguments.
  abbrev behind : Bool → ParseSuitesArgumentsResult → Option Preparation
  behind allocated parsed =
      if not parsed.success
      then some (refused none)
      else choose_parameters
          (create_cipher_suites_from allocated (take parsed.suites.count parsed.suites.identifiers))
          generator credentials

  outcome-Prepared :
      (allocated : Bool) (first : Option ℤ) (rest : Option (List ℤ))
      → Prepared (behind allocated (outcome [] (first >>= λ i. rest >>= λ is. some (i ∷ is))))
  outcome-Prepared allocated none rest = tt
  outcome-Prepared allocated (some i) none = tt
  outcome-Prepared allocated (some i) (some is) = few_or_many (leb (0 + suc (length is)) 3)
    where
      few_or_many :
          (few : Bool)
          → Prepared (
              behind allocated (
                if few then record { success = true; suites = filled (i ∷ is) } else parse_failure))
      few_or_many false = tt
      few_or_many true =
          subst
            (λ ids.
              Prepared
                (choose_parameters (create_cipher_suites_from allocated ids) generator credentials))
            (sym (take-append (i ∷ is) (replicate (3 - suc (length is)) (pos 0))))
            (chosen-Prepared allocated i is)

  -- Every command line gives sound parameters, or is refused; there is no fault on the way.
  pub prepare_parameters-Prepared :
      (strtol : List ℕ → StrtolResult) (allocated : Bool) (argument : Option (List ℕ))
      (arguments : List (Option (List ℕ)))
      → Prepared (prepare_parameters strtol allocated (argument ∷ arguments) generator credentials)
  unfolding prepare_parameters
  prepare_parameters-Prepared strtol allocated argument arguments =
      rw (parse_suites_arguments_lem strtol argument arguments) (
        outcome-Prepared allocated (parse_identifier strtol argument)
          (identifiers_of strtol arguments))

-- No fault; the list of suites is freed as often as it is created, unless the application has not
-- returned, and then not at all; and its run, if there is one, ends as the application promises.
abbrev pub Completed : {R : Type 0} → (R → Bool) → (R → Type 0) → Option (ProgramRun R) → Type 0
Completed returned Q none = ⊥
Completed returned Q (some r) = elim r.run [
  | none ↦ r.freed ≡ r.created
  | some x ↦ (r.freed ≡ (if returned x then r.created else 0)) × Q x
]

abbrev pub Returns : {R : Type 0} → (R → Type 0) → Option R → Type 0
Returns Q none = ⊥
Returns Q (some x) = Q x

Completed-ready :
    {R : Type 0} (returned : R → Bool) (Q : R → Type 0) (application : EdhocParameters → Option R)
    (p : EdhocParameters) (o : Option R)
    → Returns Q o
    → application p ≡ o
    → Completed returned Q (run_prepared returned application (ready p))
unfolding run_prepared delete_created_cipher_suite_list
Completed-ready returned Q application p none h e = elim h [ ]
Completed-ready returned Q application p (some x) h e = rw e (ground arith, h)

pub Completed-Prepared :
    {R : Type 0} (returned : R → Bool) (Q : R → Type 0) (application : EdhocParameters → Option R)
    (o : Option Preparation)
    → ((p : EdhocParameters) → Sound p → Returns Q (application p))
    → Prepared o
    → Completed returned Q (o >>= run_prepared returned application)
unfolding run_prepared delete_created_cipher_suite_list
Completed-Prepared returned Q application none h g = elim g [ ]
Completed-Prepared returned Q application (some (refused none)) h g = refl
Completed-Prepared returned Q application (some (refused (some l))) h g = ground arith
Completed-Prepared returned Q application (some (ready p)) h g =
    Completed-ready returned Q application p (application p) (h p g) refl
