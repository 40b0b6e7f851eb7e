-- ===== src/Suites/Parameters.antt =====
-- include/edhoc/common/com_edhoc_parameters.h and src/edhoc/common/com_edhoc_parameters.c.
use tfg_edhoc.Base.{
  ℕ, ◌≡◌, Bool, true, false, not, Option, none, some, List, [], ◌∷◌, arith, ◌==◌, if◌then◌else◌,
  is_some, or_else, same_address, length,
}
use tfg_edhoc.ConnectionId.{CidGenerator}
use tfg_edhoc.Suites.{
  CipherSuiteDetails, CipherSuiteList, details_address, metadata_address, metadata_of,
  cipher_suites_are_valid,
}

-- A pointer to `size` methods is an option of a list; the credentials are known by their address.
pub record EdhocParameters : Type 0 where
  pub credentials : Option ℕ
  pub supported_cipher_suites : CipherSuiteList
  pub selected_cipher_suite : Option CipherSuiteDetails
  pub methods : Option (List ℕ)
  pub generate_connection_id : Option CidGenerator

-- The loop of `suite_in_suites_list`, which runs on after a hit.
unfoldable pub suite_in_from :
    Bool → Option CipherSuiteDetails → List (Option CipherSuiteDetails) → Bool
suite_in_from found d [] = found
suite_in_from found d (x ∷ xs) =
    suite_in_from (if same_address (details_address d) (details_address x) then true else found) d
      xs

unfoldable pub suite_in_suites_list :
    Option CipherSuiteDetails → List (Option CipherSuiteDetails) → Bool
unfolding suite_in_from
suite_in_suites_list d xs = suite_in_from false d xs

-- The inner loop of `duplicated_suites_in`: the entries behind the i-th.
unfoldable pub metadata_repeated :
    Option CipherSuiteDetails → List (Option CipherSuiteDetails) → Bool
metadata_repeated d [] = false
metadata_repeated d (x ∷ xs) =
    let rest = metadata_repeated d xs in
    if same_address (metadata_address (metadata_of d)) (metadata_address (metadata_of x))
    then true
    else rest

unfoldable pub duplicated_suites_in : List (Option CipherSuiteDetails) → Bool
unfolding metadata_repeated
duplicated_suites_in [] = false
duplicated_suites_in (x ∷ xs) =
    let rest = duplicated_suites_in xs in if metadata_repeated x xs then true else rest

unfoldable pub methods_are_missing : Option (List ℕ) → Bool
methods_are_missing none = true
methods_are_missing (some ms) = length ms == 0

-- The entries of a list that has been found valid; the validation returns before it reads NULL.
abbrev pub entries : CipherSuiteList → List (Option CipherSuiteDetails)
entries l = or_else l.suites []

unfoldable pub validate_parameters : EdhocParameters → Bool
validate_parameters p =
    if not (cipher_suites_are_valid p.supported_cipher_suites)
    then false
    else if methods_are_missing p.methods
    then false
    else if not (is_some p.credentials)
    then false
    else if not (is_some p.selected_cipher_suite)
    then false
    else if not (is_some p.generate_connection_id)
    then false
    else if duplicated_suites_in (entries p.supported_cipher_suites)
    then false
    else if not (suite_in_suites_list p.selected_cipher_suite (entries p.supported_cipher_suites))
    then false
    else true

-- What the validation promises to those who use the parameters.
pub record IsValid (p : EdhocParameters) : Type 0 where
  pub details_valid : cipher_suites_are_valid p.supported_cipher_suites ≡ true
  pub has_methods : methods_are_missing p.methods ≡ false
  pub has_credentials : is_some p.credentials ≡ true
  pub has_selected : is_some p.selected_cipher_suite ≡ true
  pub has_generator : is_some p.generate_connection_id ≡ true
  pub no_duplicates : duplicated_suites_in (entries p.supported_cipher_suites) ≡ false
  pub selected_in :
      suite_in_suites_list p.selected_cipher_suite (entries p.supported_cipher_suites) ≡ true

module _ (p : EdhocParameters) where
  pub validate_parameters-IsValid : validate_parameters p ≡ true → IsValid p
  unfolding validate_parameters
  validate_parameters-IsValid h = ground arith

  pub IsValid-validate_parameters : IsValid p → validate_parameters p ≡ true
  unfolding validate_parameters
  IsValid-validate_parameters v = ground arith
