-- ===== src/Suites/Negotiate.antt =====
-- src/edhoc/client/handshake/cli_negotiate_cipher_suites.c and its header.
-- A result `none` is a memory fault: a NULL read, a write outside the array of ten suites or
-- behind that of the decoded error, or a read of the peer's suites outside what libedhoc has written.
pub mod Laws
use tfg_edhoc.Base.{
  ℕ, zero, suc, ◌+◌, ◌-◌, ◌*◌, ◌/◌, ◌%◌, ◌≤◌, ◌<◌, ◌≡◌, refl, sym, ap, subst, ◌∙◌, ◌≢◌, ◌⊎◌, inl,
  inr, Bool, true, false, not, ◌&&◌, ◌||◌, Option, none, some, List, [], ◌∷◌, ◌++◌, map, append-nil,
  append_assoc, arith, ltb, leb, ◌==◌, if◌then◌else◌, is_some, or_else, same_address, ◌>>=◌,
  Bool-cases, Option-cases, same_address_eq, same_address_refl, length, get_elem?, write, replicate,
  take, last_or, length-append, length-replicate, length-map, write-append, All, write_next,
  take-append, All-append,
}
use tfg_edhoc.Common.Buffers.{ReadonlyBuffer, readonly_buffer_has_content}
use tfg_edhoc.Library.{
  Libedhoc, ErrorContent, no_content, text_string, cipher_suites, ErrorInfo, ErrorCode,
  unspecified_error, wrong_selected_cipher_suite, other_error,
}
use tfg_edhoc.Suites.Int.{ℤ, eq_ℤ}
use tfg_edhoc.Suites.{CipherSuiteDetails, CipherSuiteList, metadata_of, cipher_suites_are_valid}
use tfg_edhoc.Suites.Parameters.{entries}

pub data NegotiationStatus : Type 0 where
  ok no_common_suites err_empty_error_buffer err_invalid_supported_suites
        err_internal_buffer_too_small err_processing_error :
      NegotiationStatus

abbrev pub max_renegotiation_size : ℕ
max_renegotiation_size = 10

abbrev pub error_size : ℕ
error_size = 100

pub record RenegotiationList : Type 0 where
  pub suites : List (Option CipherSuiteDetails)
  pub number_of_suites : ℕ

pub record NegotiationResult : Type 0 where
  pub status : NegotiationStatus
  pub renegotiation_suites : RenegotiationList

abbrev pub zeroed_list : RenegotiationList
zeroed_list = record { suites = replicate max_renegotiation_size none; number_of_suites = 0 }

abbrev pub success : RenegotiationList → NegotiationResult
success l = record { status = ok; renegotiation_suites = l }

abbrev pub failure : NegotiationStatus → NegotiationResult
failure s = record { status = s; renegotiation_suites = zeroed_list }

-- The loop of `merge_suite_list`, from index `i` on.
unfoldable pub copy_suites :
    ℕ
    → List (Option CipherSuiteDetails)
    → List (Option CipherSuiteDetails)
    → Option (List (Option CipherSuiteDetails))
copy_suites i [] suites = some suites
copy_suites i (x ∷ xs) suites = write suites i x >>= copy_suites (i + 1) xs

unfoldable pub merge_suite_list :
    List (Option CipherSuiteDetails) → Option CipherSuiteDetails → Option RenegotiationList
unfolding copy_suites
merge_suite_list preferred new_selected =
    copy_suites 0 preferred (replicate max_renegotiation_size none) >>= λ suites.
    write suites (length preferred) new_selected >>= λ all.
    some (record { suites = all; number_of_suites = length preferred + 1 })

-- The loop over the first `written` suites of the peer.
unfoldable pub identifier_in : List ℤ → ℕ → ℤ → Option Bool
identifier_in suites zero identifier = some false
identifier_in [] (suc n) identifier = none
identifier_in (x ∷ xs) (suc n) identifier = elim (eq_ℤ x identifier) [
  | true ↦ some true
  | false ↦ identifier_in xs n identifier
]

-- The union holds suites only if libedhoc has put suites there.
unfoldable pub suite_identifier_in_error_info : ErrorInfo → ℤ → Option Bool
unfolding identifier_in
suite_identifier_in_error_info info identifier = elim info.content [
  | no_content ↦ identifier_in [] info.written_entries identifier
  | text_string _ ↦ identifier_in [] info.written_entries identifier
  | cipher_suites suites ↦ identifier_in suites info.written_entries identifier
]

-- The loop of `cli_edhoc_negotiate_suites`, from index `i` on.
unfoldable pub negotiate_from :
    ErrorInfo
    → List (Option CipherSuiteDetails)
    → ℕ
    → List (Option CipherSuiteDetails)
    → Option NegotiationResult
unfolding merge_suite_list suite_identifier_in_error_info
negotiate_from info own i [] = some (failure no_common_suites)
negotiate_from info own i (current ∷ rest) = elim (metadata_of current) [
  | none ↦ none
  | some m ↦ elim (suite_identifier_in_error_info info m.value) [
    | none ↦ none
    | some true ↦ merge_suite_list (take i own) current >>= λ l. some (success l)
    | some false ↦ negotiate_from info own (i + 1) rest
  ]
]

-- The array for the error has 100 bytes, room for 25 suites, which are `int32_t`; a text stays within
-- the 100 entries that libedhoc is offered.
abbrev pub fits_array : ErrorContent → Bool
fits_array no_content = true
fits_array (text_string t) = true
fits_array (cipher_suites suites) = leb (length suites) 25

module _ {C K : Type 0} (lib : Libedhoc C K) where
  -- `edhoc_message_error_process` into the array, with its own failure inside; `none` is a write behind
  -- the array.
  unfoldable pub process_error : ReadonlyBuffer → Option (Option (ErrorCode × ErrorInfo))
  process_error encoded = elim (lib.message_error_process encoded error_size) [
    | none ↦ some none
    | some (code, info) ↦ if fits_array info.content then some (some (code, info)) else none
  ]

  unfoldable pub negotiate_suites : CipherSuiteList → ReadonlyBuffer → Option NegotiationResult
  unfolding negotiate_from process_error
  negotiate_suites own encoded =
      if not (readonly_buffer_has_content encoded)
      then some (failure err_empty_error_buffer)
      else if not (cipher_suites_are_valid own)
      then some (failure err_invalid_supported_suites)
      else if ltb max_renegotiation_size (length (entries own))
      then some (failure err_internal_buffer_too_small)
      else process_error encoded >>= λ r. elim r [
        | none ↦ some (failure err_processing_error)
        | some (code, info) ↦ negotiate_from info (entries own) 0 (entries own)
      ]

  abbrev is_wrong_suite : ErrorCode → Bool
  is_wrong_suite wrong_selected_cipher_suite = true
  is_wrong_suite unspecified_error = false
  is_wrong_suite (other_error n) = false

  unfoldable pub error_suggests_renegotiation : ReadonlyBuffer → Option Bool
  unfolding process_error
  error_suggests_renegotiation encoded = process_error encoded >>= λ r. elim r [
    | none ↦ some false
    | some (code, info) ↦ some (is_wrong_suite code)
  ]
