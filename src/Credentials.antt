-- ===== src/Credentials.antt =====
-- src/edhoc/credentials: the credentials that both sides fetch for themselves and expect of the peer.
-- The result of a call that returns an int is whether it is EDHOC_SUCCESS.
pub mod Keys
pub mod Agreement
use tfg_edhoc.Base.{
  ℕ, zero, suc, ◌+◌, ◌-◌, ◌*◌, ◌/◌, ◌%◌, ◌≤◌, ◌<◌, ◌≡◌, refl, sym, ap, subst, ◌∙◌, ◌≢◌, ◌⊎◌, inl,
  inr, Bool, true, false, not, ◌&&◌, ◌||◌, Option, none, some, List, [], ◌∷◌, ◌++◌, map, append-nil,
  append_assoc, arith, ltb, leb, ◌==◌, if◌then◌else◌, is_some, or_else, same_address, ◌>>=◌,
  Bool-cases, Option-cases, same_address_eq, same_address_refl, length, get_elem?, write, replicate,
  take, last_or, length-append, length-replicate, length-map, write-append, All, write_next,
  take-append, All-append, drop,
}
use tfg_edhoc.Suites.Int.{ℤ, pos, negsuc, eq_ℤ}
use tfg_edhoc.Suites.{CipherSuiteDetails}
use Keys.*

pub record PublicCredentialsData : Type 0 where
  pub key : List ℕ
  pub length_of_key : ℕ
  pub key_id : ℤ

-- By the value of the suite; `none` is `credentials_found = false`.
unfoldable pub get_client_public_data : ℤ → Option PublicCredentialsData
get_client_public_data (pos n) =
    if n == 2
    then some (record {
      key = cli_suite_2_public_key;
      length_of_key = length cli_suite_2_public_key;
      key_id = pos 18;
    })
    else if n == 0
    then some (record {
      key = cli_suite_0_public_key;
      length_of_key = length cli_suite_0_public_key;
      key_id = pos 19;
    })
    else none
get_client_public_data (negsuc n) = none

unfoldable pub get_server_public_data : ℤ → Option PublicCredentialsData
get_server_public_data (pos n) =
    if n == 2
    then some (record {
      key = srv_suite_2_public_key;
      length_of_key = length srv_suite_2_public_key;
      key_id = pos 20;
    })
    else if n == 0
    then some (record {
      key = srv_suite_0_public_key;
      length_of_key = length srv_suite_0_public_key;
      key_id = pos 21;
    })
    else none
get_server_public_data (negsuc n) = none

-- `EDHOC_COSE_HEADER_KID` and the others, `EDHOC_ENCODE_TYPE_INTEGER` and the others.
pub data CoseHeader : Type 0 where
  kid other_header : CoseHeader

pub data EncodeType : Type 0 where
  integer other_encoding : EncodeType

-- `struct edhoc_auth_creds`, the members that the program touches.
pub record AuthCreds : Type 0 where
  pub label : CoseHeader
  pub cred : List ℕ
  pub cred_len : ℕ
  pub cred_is_cbor : Bool
  pub encode_type : EncodeType
  pub key_id_int : ℤ
  pub priv_key_id : ℕ

abbrev is_kid : CoseHeader → Bool
is_kid kid = true
is_kid other_header = false

abbrev is_integer : EncodeType → Bool
is_integer integer = true
is_integer other_encoding = false

-- `own_key_bindings->import_key`, of libedhoc: a private key and its length, to a key identifier.
abbrev pub ImportKey : Type 0
ImportKey = List ℕ → ℕ → Option ℕ

unfoldable pub auth_fetch :
    Option AuthCreds → ImportKey → PublicCredentialsData → List ℕ → ℕ → Bool × Option AuthCreds
auth_fetch none import_key own private_key private_key_length = (false, none)
auth_fetch (some c) import_key own private_key private_key_length =
    let filled = record c {
      label = kid;
      cred = own.key;
      cred_len = own.length_of_key;
      cred_is_cbor = false;
      encode_type = integer;
      key_id_int = own.key_id;
    } in
    elim (import_key private_key private_key_length) [
      | none ↦ (false, some filled)
      | some key_id ↦ (true, some (record filled { priv_key_id = key_id }))
    ]

-- What `*public_key_reference` and `*public_key_length` become.
pub record VerifyResult : Type 0 where
  pub success : Bool
  pub credentials : Option AuthCreds
  pub public_key : Option (List ℕ × ℕ)

abbrev refused : Option AuthCreds → VerifyResult
refused c = record { success = false; credentials = c; public_key = none }

unfoldable pub auth_verify : Option AuthCreds → PublicCredentialsData → VerifyResult
auth_verify none expected = refused none
auth_verify (some c) expected =
    if not (is_kid c.label)
      || (not (is_integer c.encode_type) || not (eq_ℤ expected.key_id c.key_id_int))
    then refused (some c)
    else record {
      success = true;
      credentials = some (record c {
        cred = expected.key;
        cred_len = expected.length_of_key;
        cred_is_cbor = false;
      });
      public_key = some (expected.key, expected.length_of_key);
    }

-- `cipher_suite_details->metadata->value`; `none` is a read through NULL.
abbrev pub suite_value : CipherSuiteDetails → Option ℤ
suite_value d = d.metadata >>= λ m. some m.value

-- The switch over the suite's value.
abbrev pub private_key_for : List ℕ → List ℕ → ℤ → Option (List ℕ)
private_key_for suite_0 suite_2 (pos n) =
    if n == 0 then some suite_0 else if n == 2 then some suite_2 else none
private_key_for suite_0 suite_2 (negsuc n) = none

abbrev fetch_with :
    Option PublicCredentialsData
    → Option (List ℕ)
    → Option AuthCreds
    → ImportKey
    → Bool × Option AuthCreds
fetch_with none key c import_key = (false, c)
fetch_with (some own) none c import_key = (false, c)
fetch_with (some own) (some key) c import_key = auth_fetch c import_key own key (length key)

unfoldable pub client_credential_fetch :
    ImportKey → CipherSuiteDetails → Option AuthCreds → Option (Bool × Option AuthCreds)
unfolding get_client_public_data auth_fetch
client_credential_fetch import_key d c = suite_value d >>= λ v. some (
    fetch_with (get_client_public_data v)
      (private_key_for cli_suite_0_private_key cli_suite_2_private_key v) c import_key)

unfoldable pub server_credential_fetch :
    ImportKey → CipherSuiteDetails → Option AuthCreds → Option (Bool × Option AuthCreds)
unfolding get_server_public_data auth_fetch
server_credential_fetch import_key d c = suite_value d >>= λ v. some (
    fetch_with (get_server_public_data v)
      (private_key_for srv_suite_0_private_key srv_suite_2_private_key v) c import_key)

abbrev verify_with : Option PublicCredentialsData → Option AuthCreds → VerifyResult
verify_with none c = refused c
verify_with (some expected) c = auth_verify c expected

unfoldable pub client_credential_verify :
    CipherSuiteDetails → Option AuthCreds → Option VerifyResult
unfolding get_server_public_data auth_verify
client_credential_verify d c =
    suite_value d >>= λ v. some (verify_with (get_server_public_data v) c)

unfoldable pub server_credential_verify :
    CipherSuiteDetails → Option AuthCreds → Option VerifyResult
unfolding get_client_public_data auth_verify
server_credential_verify d c =
    suite_value d >>= λ v. some (verify_with (get_client_public_data v) c)
