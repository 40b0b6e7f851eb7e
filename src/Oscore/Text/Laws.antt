-- ===== src/Oscore/Text/Laws.antt =====
-- The configuration text of src/oscore/internal/common/com_oscore_get_configuration.c fits its buffer, and
-- reading it back gives the exported secrets.
use tfg_edhoc.Base.{
  ℕ, zero, suc, ◌+◌, ◌*◌, ◌≤◌, ◌<◌, ◌≡◌, refl, ap, ◌≢◌, ◌⊎◌, inl, inr, ◌||◌, none, some, List, [],
  ◌∷◌, ◌++◌, arith, ◌==◌, Bool-cases, length, take, length-append,
}
use Prim.Native.String.{String}
use tfg_edhoc.Library.{Libedhoc, OscoreSecrets}
use tfg_edhoc.Suites.Int.{ℤ, pos, negsuc}
use tfg_edhoc.Server.AddError.{codes}
use tfg_edhoc.Oscore.{
  OscoreAlgorithms, bytes_to_hex_string, line, configuration_text, get_algorithms, build_config,
  config_csv_max_size, array_bytes,
}
use tfg_edhoc.Oscore.Text.{Secrets, read_configuration, AreBytes, read_line-line}

take_all : (n : ℕ) (xs : List ℕ) → length xs ≤ n → take n xs ≡ xs
take_all zero [] h = refl
take_all zero (x ∷ xs) h = absurd (omega (arith, h))
take_all (suc n) [] h = refl
take_all (suc n) (x ∷ xs) h = rw (take_all n xs (omega (arith, h)))

length-bytes_to_hex_string : (bs : List ℕ) → length (bytes_to_hex_string bs) ≡ 2 * length bs
unfolding bytes_to_hex_string
length-bytes_to_hex_string [] = refl
length-bytes_to_hex_string (b ∷ bs) = omega (arith, length-bytes_to_hex_string bs)

length-line :
    (key : String) (value rest : List ℕ)
    → length (line key value ++ rest) ≡ length (codes key) + length value + 1 + length rest
length-line key value rest = omega (
  arith,
  length-append (codes key ++ (value ++ 10 ∷ [])) rest,
  length-append (codes key) (value ++ 10 ∷ []),
  length-append value (10 ∷ []),
)

AreBytes-array_bytes :
    (n : ℕ) (array : ℕ → ℕ) → ((i : ℕ) → array i < 256) → AreBytes (array_bytes array n)
unfolding array_bytes
AreBytes-array_bytes zero array h = tt
AreBytes-array_bytes (suc n) array h =
    (h 0, AreBytes-array_bytes n (λ i. array (suc i)) (λ i. h (suc i)))

length-array_bytes : (n : ℕ) (array : ℕ → ℕ) → length (array_bytes array n) ≡ n
unfolding array_bytes
length-array_bytes zero array = refl
length-array_bytes (suc n) array = omega (arith, length-array_bytes n (λ i. array (suc i)))

-- What libedhoc exports: bytes, with identifiers within the sizes that it was given.
pub record IsExported {C : Type 0} (s : OscoreSecrets C) : Type 0 where
  pub sender_size : s.sender_id_len ≤ 8
  pub recipient_size : s.recipient_id_len ≤ 8
  pub secret_bytes : (i : ℕ) → s.master_secret i < 256
  pub salt_bytes : (i : ℕ) → s.master_salt i < 256
  pub sender_bytes : (i : ℕ) → s.sender_id i < 256
  pub recipient_bytes : (i : ℕ) → s.recipient_id i < 256

abbrev pub secrets : {C : Type 0} → OscoreSecrets C → Secrets
secrets s = record {
  master_secret = array_bytes s.master_secret 16;
  master_salt = array_bytes s.master_salt 8;
  sender_id = array_bytes s.sender_id s.sender_id_len;
  recipient_id = array_bytes s.recipient_id s.recipient_id_len;
}

abbrev algorithms : OscoreAlgorithms
algorithms = record { aead_algorithm = "AES-CCM-16-64-128"; hkdf_algorithm = "direct+HKDF-SHA-256" }

abbrev pub algorithm_lines : List ℕ
algorithm_lines =
    line "aead_alg,text," (codes "AES-CCM-16-64-128")
    ++ line "hkdf_alg,text," (codes "direct+HKDF-SHA-256")

module _ {C : Type 0} (s : OscoreSecrets C) (exported : IsExported s) where
  abbrev text_of : OscoreAlgorithms → List ℕ
  text_of algorithms =
      configuration_text (bytes_to_hex_string (array_bytes s.master_secret 16))
        (bytes_to_hex_string (array_bytes s.master_salt 8))
        (bytes_to_hex_string (array_bytes s.sender_id s.sender_id_len))
        (bytes_to_hex_string (array_bytes s.recipient_id s.recipient_id_len)) algorithms

  text_fits :
      (a : OscoreAlgorithms)
      → length (codes a.aead_algorithm) ≤ 17
      → length (codes a.hkdf_algorithm) ≤ 19
      → length (text_of a) ≤ 511
  unfolding configuration_text
  text_fits a ha hk =
      let t5 = line "hkdf_alg,text," (codes a.hkdf_algorithm) in
      let t4 = line "aead_alg,text," (codes a.aead_algorithm) ++ t5 in
      let t3 =
        line "recipient_id,hex,"
          (bytes_to_hex_string (array_bytes s.recipient_id s.recipient_id_len))
        ++ t4 in
      let t2 =
        line "sender_id,hex," (bytes_to_hex_string (array_bytes s.sender_id s.sender_id_len))
        ++ t3 in
      let t1 = line "master_salt,hex," (bytes_to_hex_string (array_bytes s.master_salt 8)) ++ t2 in
      omega (
        arith,
        ha,
        hk,
        length-array_bytes 16 s.master_secret,
        length-array_bytes 8 s.master_salt,
        length-array_bytes s.sender_id_len s.sender_id,
        length-array_bytes s.recipient_id_len s.recipient_id,
        exported.sender_size,
        exported.recipient_size,
        length-line "master_secret,hex," (bytes_to_hex_string (array_bytes s.master_secret 16)) t1,
        length-line "master_salt,hex," (bytes_to_hex_string (array_bytes s.master_salt 8)) t2,
        length-line "sender_id,hex," (bytes_to_hex_string (array_bytes s.sender_id s.sender_id_len))
            t3,
        length-line "recipient_id,hex,"
            (bytes_to_hex_string (array_bytes s.recipient_id s.recipient_id_len)) t4,
        length-line "aead_alg,text," (codes a.aead_algorithm) t5,
        length-append (codes "hkdf_alg,text,") (codes a.hkdf_algorithm ++ 10 ∷ []),
        length-append (codes a.hkdf_algorithm) (10 ∷ []),
        length-bytes_to_hex_string (array_bytes s.master_secret 16),
        length-bytes_to_hex_string (array_bytes s.master_salt 8),
        length-bytes_to_hex_string (array_bytes s.sender_id s.sender_id_len),
        length-bytes_to_hex_string (array_bytes s.recipient_id s.recipient_id_len),
      )

  read_configuration-text_of :
      (a : OscoreAlgorithms)
      → read_configuration (text_of a)
        ≡ some (
          secrets s,
          line "aead_alg,text," (codes a.aead_algorithm)
              ++ line "hkdf_alg,text," (codes a.hkdf_algorithm),
        )
  unfolding read_configuration configuration_text
  read_configuration-text_of a =
      rw
        (
          read_line-line "master_secret,hex," (array_bytes s.master_secret 16) _
              (AreBytes-array_bytes 16 s.master_secret exported.secret_bytes),
          read_line-line "master_salt,hex," (array_bytes s.master_salt 8) _
              (AreBytes-array_bytes 8 s.master_salt exported.salt_bytes),
          read_line-line "sender_id,hex," (array_bytes s.sender_id s.sender_id_len) _
              (AreBytes-array_bytes s.sender_id_len s.sender_id exported.sender_bytes),
          read_line-line "recipient_id,hex," (array_bytes s.recipient_id s.recipient_id_len) _
              (AreBytes-array_bytes s.recipient_id_len s.recipient_id exported.recipient_bytes),
        )
        refl

-- The suites 0 and 2 have the same algorithms, and no other suite has any.
get_algorithms_cases :
    (v : ℤ)
    → (((v ≡ pos 0) ⊎ (v ≡ pos 2))
        × (get_algorithms v
            ≡ some (record {
              aead_algorithm = "AES-CCM-16-64-128";
              hkdf_algorithm = "direct+HKDF-SHA-256";
            })))
      ⊎ ((v ≢ pos 0) × (v ≢ pos 2) × (get_algorithms v ≡ none))
unfolding get_algorithms
get_algorithms_cases (pos n) = elim (Bool-cases (n == 0 || n == 2)) [
  | inl known ↦ inl (ground (arith, known), rw known refl)
  | inr other ↦
      inr ((λ e. ground (arith, other, e)), (λ e. ground (arith, other, e)), rw other refl)
]
get_algorithms_cases (negsuc n) = inr ((λ e. cc), (λ e. cc), refl)

module _ {C K : Type 0} (lib : Libedhoc C K) where
  -- Where libedhoc exports bytes, and identifiers within the sizes given, the configuration of a context
  -- whose suite is 0 or 2 fits the buffer whole, and reading it back gives the 16 bytes of the secret, the
  -- 8 bytes of the salt and exactly the identifiers, followed by the lines of the algorithms; for any
  -- other suite there is no configuration.
  pub read_configuration-build_config :
      (context : C) (s : OscoreSecrets C)
      → lib.export_oscore_session context 16 8 8 ≡ some s
      → IsExported s
      → ((text : List ℕ) × ((lib.selected_suite_value s.context ≡ pos 0)
            ⊎ (lib.selected_suite_value s.context ≡ pos 2))
          × (build_config lib (some context) config_csv_max_size ≡ some text)
          × (read_configuration text ≡ some (secrets s, algorithm_lines)))
        ⊎ ((lib.selected_suite_value s.context ≢ pos 0)
            × (lib.selected_suite_value s.context ≢ pos 2)
            × (build_config lib (some context) config_csv_max_size ≡ none))
  unfolding build_config
  read_configuration-build_config context s e exported =
      elim (get_algorithms_cases (lib.selected_suite_value s.context)) [
        | inl (known, a) ↦ inl (
          text_of s exported algorithms,
          known,
          rw (e, a, build_config)
              (ap some (
                take_all 511 (text_of s exported algorithms)
                  (text_fits s exported algorithms (ground arith) (ground arith)))),
          read_configuration-text_of s exported algorithms,
        )
        | inr (not_0, not_2, a) ↦ inr (not_0, not_2, rw (e, a, build_config) refl)
      ]
