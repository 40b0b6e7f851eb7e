-- ===== src/Oscore/Text.antt =====
-- The text of src/oscore/internal/common/com_oscore_get_configuration.c, read back: the reader here is
-- independent of how the text is written.
pub mod Laws
use tfg_edhoc.Base.{
  ℕ, zero, suc, ◌+◌, ◌-◌, ◌*◌, ◌/◌, ◌%◌, ◌≤◌, ◌<◌, ◌≡◌, refl, sym, ap, subst, ◌∙◌, ◌≢◌, ◌⊎◌, inl,
  inr, Bool, true, false, not, ◌&&◌, ◌||◌, Option, none, some, List, [], ◌∷◌, ◌++◌, map, append-nil,
  append_assoc, arith, ltb, leb, ◌==◌, if◌then◌else◌, is_some, or_else, same_address, ◌>>=◌,
  Bool-cases, Option-cases, same_address_eq, same_address_refl, length, get_elem?, write, replicate,
  take, last_or, length-append, length-replicate, length-map, write-append, All, write_next,
  take-append, All-append, drop,
}
use Prim.Native.String.{String}
use tfg_edhoc.Library.{Libedhoc, OscoreSecrets}
use tfg_edhoc.Suites.Int.{ℤ, pos, negsuc}
use tfg_edhoc.Server.AddError.{codes}
use tfg_edhoc.Oscore.{
  OscoreAlgorithms, hex_digit, bytes_to_hex_string, line, configuration_text, get_algorithms,
  build_config, config_csv_max_size,
}

-- The value of a hexadecimal digit, as `0` to `9` or `a` to `f`.
abbrev digit_value : ℕ → Option ℕ
digit_value c =
    if leb 48 c && leb c 57
    then some (c - 48)
    else if leb 97 c && leb c 102
    then some (c - 87)
    else none

-- Two digits.
abbrev byte_value : Option ℕ → Option ℕ → Option ℕ
byte_value high low = high >>= λ h. low >>= λ l. some (h * 16 + l)

-- The bytes up to the end of the line, and what is behind it.
unfoldable pub read_hex : List ℕ → Option (List ℕ × List ℕ)
read_hex [] = none
read_hex (a ∷ []) = if a == 10 then some ([], []) else none
read_hex (a ∷ b ∷ rest) =
    let behind = read_hex rest in
    if a == 10
    then some ([], b ∷ rest)
    else byte_value (digit_value a) (digit_value b) >>= λ byte.
        behind >>= λ (bytes, text). some (byte ∷ bytes, text)

-- What is behind a key.
unfoldable pub strip_key : List ℕ → List ℕ → Option (List ℕ)
strip_key [] text = some text
strip_key (k ∷ ks) [] = none
strip_key (k ∷ ks) (c ∷ cs) = let rest = strip_key ks cs in if k == c then rest else none

unfoldable pub read_line : String → List ℕ → Option (List ℕ × List ℕ)
unfolding read_hex strip_key
read_line key text = strip_key (codes key) text >>= read_hex

pub record Secrets : Type 0 where
  pub master_secret : List ℕ
  pub master_salt : List ℕ
  pub sender_id : List ℕ
  pub recipient_id : List ℕ

-- The four keyed lines of bytes, and what is behind them.
unfoldable pub read_configuration : List ℕ → Option (Secrets × List ℕ)
unfolding read_line
read_configuration text = read_line "master_secret,hex," text >>= λ (secret, t1).
    read_line "master_salt,hex," t1 >>= λ (salt, t2).
    read_line "sender_id,hex," t2 >>= λ (sender, t3).
    read_line "recipient_id,hex," t3 >>= λ (recipient, t4). some (
      record {
        master_secret = secret;
        master_salt = salt;
        sender_id = sender;
        recipient_id = recipient;
      },
      t4,
    )

abbrev pub AreBytes : List ℕ → Type 0
AreBytes bs = All (λ b. b < 256) bs

digit_value-hex_digit : (d : ℕ) → d < 16 → digit_value (hex_digit d) ≡ some d
digit_value-hex_digit d h = ground arith

hex_digit_ne : (d : ℕ) → (hex_digit d == 10) ≡ false
hex_digit_ne d = ground arith

byte_value_lem :
    (b : ℕ)
    → b < 256
    → byte_value (digit_value (hex_digit (b / 16))) (digit_value (hex_digit (b % 16))) ≡ some b
byte_value_lem b h =
    rw
      (
        digit_value-hex_digit (b / 16) (omega (arith, h)),
        digit_value-hex_digit (b % 16) (omega arith),
      )
      (ap some (omega arith))

read_hex_end : (rest : List ℕ) → read_hex (10 ∷ rest) ≡ some ([], rest)
unfolding read_hex
read_hex_end [] = refl
read_hex_end (b ∷ rest) = refl

read_hex-bytes_to_hex_string :
    (bs rest : List ℕ)
    → AreBytes bs
    → read_hex (bytes_to_hex_string bs ++ 10 ∷ rest) ≡ some (bs, rest)
unfolding read_hex bytes_to_hex_string
read_hex-bytes_to_hex_string [] rest h = read_hex_end rest
read_hex-bytes_to_hex_string (b ∷ bs) rest (hb, hs) =
    rw
      (
        hex_digit_ne (b / 16),
        byte_value_lem b hb,
        read_hex-bytes_to_hex_string bs rest hs,
        read_hex,
      )
      refl

strip_key-append : (key text : List ℕ) → strip_key key (key ++ text) ≡ some text
unfolding strip_key
strip_key-append [] text = refl
strip_key-append (k ∷ ks) text = ground (arith, strip_key-append ks text)

pub read_line-line :
    (key : String) (bs rest : List ℕ)
    → AreBytes bs
    → read_line key (line key (bytes_to_hex_string bs) ++ rest) ≡ some (bs, rest)
unfolding read_line
read_line-line key bs rest h =
    let value = bytes_to_hex_string bs in
    let behind : (value ++ 10 ∷ []) ++ rest ≡ value ++ 10 ∷ rest =
      append_assoc value (10 ∷ []) rest in
    let whole : line key value ++ rest ≡ codes key ++ (value ++ 10 ∷ rest) =
      append_assoc (codes key) (value ++ 10 ∷ []) rest ∙ ap (λ t. codes key ++ t) behind in
    rw (whole, strip_key-append (codes key) (value ++ 10 ∷ rest))
      (read_hex-bytes_to_hex_string bs rest h)
