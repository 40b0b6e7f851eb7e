-- ===== src/Oscore.antt =====
-- src/oscore/internal/common/com_oscore_get_configuration.c: the OSCORE configuration text, and the
-- sessions that src/oscore/server and src/oscore/client make from it.
pub mod Sessions
pub mod Text
use tfg_edhoc.Base.{
  ℕ, zero, suc, ◌+◌, ◌-◌, ◌*◌, ◌/◌, ◌%◌, ◌≤◌, ◌<◌, ◌≡◌, refl, sym, ap, subst, ◌∙◌, ◌≢◌, ◌⊎◌, inl,
  inr, Bool, true, false, not, ◌&&◌, ◌||◌, Option, none, some, List, [], ◌∷◌, ◌++◌, map, append-nil,
  append_assoc, arith, ltb, leb, ◌==◌, if◌then◌else◌, is_some, or_else, same_address, ◌>>=◌,
  Bool-cases, Option-cases, same_address_eq, same_address_refl, length, get_elem?, write, replicate,
  take, last_or, length-append, length-replicate, length-map, write-append, All, write_next,
  take-append, All-append, drop,
}
use Prim.Native.String.{String}
use tfg_edhoc.Library.{Libedhoc, OscoreSecrets}
use tfg_edhoc.Server.AddError.{codes}
use tfg_edhoc.Suites.Int.{ℤ, pos, negsuc}

abbrev pub config_csv_max_size : ℕ
config_csv_max_size = 512

pub record OscoreAlgorithms : Type 0 where
  pub aead_algorithm : String
  pub hkdf_algorithm : String

-- By the value of the chosen suite; `none` is `success = false`.
unfoldable pub get_algorithms : ℤ → Option OscoreAlgorithms
get_algorithms (pos n) =
    if n == 0 || n == 2
    then some
        (record { aead_algorithm = "AES-CCM-16-64-128"; hkdf_algorithm = "direct+HKDF-SHA-256" })
    else none
get_algorithms (negsuc n) = none

-- The digits of "%02x".
abbrev pub hex_digit : ℕ → ℕ
hex_digit d = if ltb d 10 then 48 + d else 87 + d

unfoldable pub bytes_to_hex_string : List ℕ → List ℕ
bytes_to_hex_string [] = []
bytes_to_hex_string (b ∷ bs) = hex_digit (b / 16) ∷ hex_digit (b % 16) ∷ bytes_to_hex_string bs

-- The first bytes of an array.
unfoldable pub array_bytes : (ℕ → ℕ) → ℕ → List ℕ
array_bytes array zero = []
array_bytes array (suc n) = array 0 ∷ array_bytes (λ i. array (suc i)) n

-- A line of the format.
abbrev pub line : String → List ℕ → List ℕ
line key value = codes key ++ (value ++ 10 ∷ [])

-- The text of the format, before `snprintf` cuts it.
unfoldable pub configuration_text : List ℕ → List ℕ → List ℕ → List ℕ → OscoreAlgorithms → List ℕ
configuration_text secret_hex salt_hex sender_hex recipient_hex algorithms =
    line "master_secret,hex," secret_hex
    ++ (line "master_salt,hex," salt_hex
        ++ (line "sender_id,hex," sender_hex
            ++ (line "recipient_id,hex," recipient_hex
                ++ (line "aead_alg,text," (codes algorithms.aead_algorithm)
                    ++ line "hkdf_alg,text," (codes algorithms.hkdf_algorithm)))))

module _ {C K : Type 0} (lib : Libedhoc C K) where
  -- The text in a buffer of the capacity; `none` is `false`. `snprintf` leaves a place for the NUL.
  unfoldable pub build_config : Option C → ℕ → Option (List ℕ)
  unfolding bytes_to_hex_string get_algorithms configuration_text
  build_config none capacity = none
  build_config (some context) capacity = elim (lib.export_oscore_session context 16 8 8) [
    | none ↦ none
    | some s ↦ elim (get_algorithms (lib.selected_suite_value s.context)) [
      | none ↦ none
      | some algorithms ↦
          if ltb capacity config_csv_max_size
          then none
          else some (
              take (capacity - 1) (
                configuration_text (bytes_to_hex_string (array_bytes s.master_secret 16))
                  (bytes_to_hex_string (array_bytes s.master_salt 8))
                  (bytes_to_hex_string (array_bytes s.sender_id s.sender_id_len))
                  (bytes_to_hex_string (array_bytes s.recipient_id s.recipient_id_len)) algorithms))
    ]
  ]
