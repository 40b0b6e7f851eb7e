-- ===== src/Suites.antt =====
-- include/edhoc/common/com_edhoc_cipher_suites.h and src/edhoc/common/com_edhoc_cipher_suites.c.
-- A pointer to a suite's details is an option of a record that holds the record's address: C
-- compares the pointers, so the model compares the addresses. The function pointers are the numbers
-- of the functions of libedhoc. A pointer to `number_of_suites` entries is an option of a list.
pub mod Int
pub mod Parameters
pub mod Setup
pub mod Negotiate
pub mod Known
use tfg_edhoc.Base.{
  ℕ, zero, suc, ◌+◌, ◌-◌, ◌*◌, ◌/◌, ◌%◌, ◌≤◌, ◌<◌, ◌≡◌, refl, sym, ap, subst, ◌∙◌, ◌≢◌, ◌⊎◌, inl,
  inr, Bool, true, false, not, ◌&&◌, ◌||◌, Option, none, some, List, [], ◌∷◌, ◌++◌, map, append-nil,
  append_assoc, arith, ltb, leb, ◌==◌, if◌then◌else◌, is_some, or_else, same_address, ◌>>=◌,
  Bool-cases, Option-cases, same_address_eq, same_address_refl, length, get_elem?, write, replicate,
  take, last_or, length-append, length-replicate, length-map, write-append, All,
}
use Int.{ℤ, pos, negsuc}

-- libedhoc's metadata of a suite, with its address.
pub record CipherSuite : Type 0 where
  pub address : ℕ
  pub value : ℤ
  pub aead_key_length : ℕ
  pub aead_tag_length : ℕ
  pub aead_iv_length : ℕ
  pub hash_length : ℕ
  pub mac_length : ℕ
  pub ecc_key_length : ℕ
  pub ecc_sign_length : ℕ

pub record CipherSuiteDetails : Type 0 where
  pub address : ℕ
  pub metadata : Option CipherSuite
  pub get_keys : Option ℕ
  pub get_crypto : Option ℕ

pub record CipherSuiteList : Type 0 where
  pub suites : Option (List (Option CipherSuiteDetails))

pub record CreateCipherSuitesResult : Type 0 where
  pub success : Bool
  pub cipher_suites : CipherSuiteList

-- `&COM_EDHOC_SUITE_0 == p` and the like.
abbrev pub details_address : Option CipherSuiteDetails → Option ℕ
details_address none = none
details_address (some d) = some d.address

abbrev pub metadata_address : Option CipherSuite → Option ℕ
metadata_address none = none
metadata_address (some m) = some m.address

-- `p->metadata`, for the pointers that the validation has found not to be NULL.
abbrev pub metadata_of : Option CipherSuiteDetails → Option CipherSuite
metadata_of none = none
metadata_of (some d) = d.metadata

unfoldable pub suites_details_are_valid : Option CipherSuiteDetails → Bool
suites_details_are_valid none = false
suites_details_are_valid (some d) =
    is_some d.metadata || (is_some d.get_keys || is_some d.get_crypto)

unfoldable pub all_details_are_valid : List (Option CipherSuiteDetails) → Bool
unfolding suites_details_are_valid
all_details_are_valid [] = true
all_details_are_valid (d ∷ ds) =
    let rest = all_details_are_valid ds in if not (suites_details_are_valid d) then false else rest

unfoldable pub cipher_suites_are_valid : CipherSuiteList → Bool
unfolding all_details_are_valid
cipher_suites_are_valid l = elim l.suites [
  | none ↦ false
  | some ds ↦ if length ds == 0 then false else all_details_are_valid ds
]

abbrev pub cipher_suite_0 : CipherSuite
cipher_suite_0 = record {
  address = 100;
  value = pos 0;
  aead_key_length = 16;
  aead_tag_length = 8;
  aead_iv_length = 13;
  hash_length = 32;
  mac_length = 8;
  ecc_key_length = 32;
  ecc_sign_length = 64;
}

abbrev pub cipher_suite_2 : CipherSuite
cipher_suite_2 = record {
  address = 102;
  value = pos 2;
  aead_key_length = 16;
  aead_tag_length = 8;
  aead_iv_length = 13;
  hash_length = 32;
  mac_length = 8;
  ecc_key_length = 32;
  ecc_sign_length = 64;
}

abbrev pub suite_0 : CipherSuiteDetails
suite_0 = record {
  address = 200;
  metadata = some cipher_suite_0;
  get_keys = some 300;
  get_crypto = some 400;
}

abbrev pub suite_2 : CipherSuiteDetails
suite_2 = record {
  address = 202;
  metadata = some cipher_suite_2;
  get_keys = some 302;
  get_crypto = some 402;
}

unfoldable pub get_cipher_suite_from_identifier : ℤ → Option CipherSuiteDetails
get_cipher_suite_from_identifier (pos n) =
    if n == 0 then some suite_0 else if n == 2 then some suite_2 else none
get_cipher_suite_from_identifier (negsuc n) = none

-- The loop that fills the buffer; `none` is the early return with `success = false`.
unfoldable pub fill_suites : List ℤ → Option (List (Option CipherSuiteDetails))
unfolding get_cipher_suite_from_identifier
fill_suites [] = some []
fill_suites (i ∷ is) = elim (get_cipher_suite_from_identifier i) [
  | none ↦ none
  | some d ↦ fill_suites is >>= λ ds. some (some d ∷ ds)
]

-- `allocated` says whether `calloc` gave memory.
unfoldable pub create_cipher_suites_from : Bool → List ℤ → CreateCipherSuitesResult
unfolding fill_suites
create_cipher_suites_from allocated identifiers =
    if allocated
    then elim (fill_suites identifiers) [
      | none ↦ record { success = false; cipher_suites = record { suites = none } }
      | some ds ↦ record { success = true; cipher_suites = record { suites = some ds } }
    ]
    else record { success = false; cipher_suites = record { suites = none } }
