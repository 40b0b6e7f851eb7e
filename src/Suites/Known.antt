-- ===== src/Suites/Known.antt =====
-- The suites that src/edhoc/common/com_edhoc_cipher_suites.c creates from identifiers.
use tfg_edhoc.Base.{
  ◌≡◌, refl, ◌⊎◌, inl, inr, true, false, Option, none, some, List, [], ◌∷◌, map, arith, ◌>>=◌,
  Option-cases, All,
}
use tfg_edhoc.Suites.Int.{ℤ, pos, negsuc}
use tfg_edhoc.Suites.{
  CipherSuiteDetails, suite_0, suite_2, metadata_of, get_cipher_suite_from_identifier, fill_suites,
  create_cipher_suites_from, CreateCipherSuitesResult,
}
use tfg_edhoc.Suites.Setup.Arrays.{HasMetadata, HasFunctions, AgreesWith}
use tfg_edhoc.Client.Renegotiate.Prefix.{Consistent}

-- A pointer to one of the two static structs.
abbrev pub Known : Option CipherSuiteDetails → Type 0
Known d = (d ≡ some suite_0) ⊎ (d ≡ some suite_2)

-- The identifier 0 or 2.
abbrev pub SupportedId : ℤ → Type 0
SupportedId i = (i ≡ pos 0) ⊎ (i ≡ pos 2)

-- `suites[i]->metadata->value`
abbrev pub value_of : Option CipherSuiteDetails → Option ℤ
value_of d = metadata_of d >>= λ m. some m.value

-- One of the identifiers is neither 0 nor 2.
abbrev pub HasUnknown : List ℤ → Type 0
HasUnknown [] = ⊥
HasUnknown (i ∷ is) = (¬ SupportedId i) ⊎ HasUnknown is

Known-identifier :
    (i : ℤ) (d : CipherSuiteDetails)
    → get_cipher_suite_from_identifier i ≡ some d
    → SupportedId i × Known (some d) × (value_of (some d) ≡ some i)
unfolding get_cipher_suite_from_identifier
Known-identifier (pos n) d h = ground (arith, h)
Known-identifier (negsuc n) d h = cc

unknown_identifier : (i : ℤ) → get_cipher_suite_from_identifier i ≡ none → ¬ SupportedId i
unfolding get_cipher_suite_from_identifier
unknown_identifier (pos n) h (inl e) = ground (arith, h, e)
unknown_identifier (pos n) h (inr e) = ground (arith, h, e)
unknown_identifier (negsuc n) h (inl e) = cc
unknown_identifier (negsuc n) h (inr e) = cc

-- What the loop leaves for the identifiers.
abbrev Filled : List ℤ → Option (List (Option CipherSuiteDetails)) → Type 0
Filled ids none = HasUnknown ids
Filled ids (some ds) = All SupportedId ids × All Known ds × (map value_of ds ≡ map some ids)

Filled-behind :
    (i : ℤ) (is : List ℤ) (d : CipherSuiteDetails) (o : Option (List (Option CipherSuiteDetails)))
    → SupportedId i × Known (some d) × (value_of (some d) ≡ some i)
    → Filled is o
    → Filled (i ∷ is) (o >>= λ ds. some (some d ∷ ds))
Filled-behind i is d none k f = inr f
Filled-behind i is d (some ds) (s, k, v) (fs, fk, fv) = ((s, fs), (k, fk), cc)

fill_suites-Filled : (ids : List ℤ) → Filled ids (fill_suites ids)
unfolding fill_suites
fill_suites-Filled [] = (tt, tt, refl)
fill_suites-Filled (i ∷ is) = elim (Option-cases (get_cipher_suite_from_identifier i)) [
  | inl n ↦ rw (n, fill_suites) (inl (unknown_identifier i n))
  | inr (d, e) ↦
      rw (e, fill_suites)
        (Filled-behind i is d (fill_suites is) (Known-identifier i d e) (fill_suites-Filled is))
]

-- What `com_edhoc_create_cipher_suites_from` promises, where memory is given.
abbrev pub Created : List ℤ → CreateCipherSuitesResult → Type 0
Created ids r =
    ((ds : List (Option CipherSuiteDetails)) × (r.success ≡ true)
      × (r.cipher_suites.suites ≡ some ds)
      × All SupportedId ids
      × All Known ds
      × (map value_of ds ≡ map some ids))
    ⊎ ((r.success ≡ false) × (r.cipher_suites.suites ≡ none) × HasUnknown ids)

Created-of_Filled :
    (ids : List ℤ) (o : Option (List (Option CipherSuiteDetails)))
    → Filled ids o
    → Created ids (elim o [
      | none ↦ record { success = false; cipher_suites = record { suites = none } }
      | some ds ↦ record { success = true; cipher_suites = record { suites = some ds } }
    ])
Created-of_Filled ids none f = inr (refl, refl, f)
Created-of_Filled ids (some ds) (fs, fk, fv) = inl (ds, refl, refl, fs, fk, fv)

-- Where memory is given, either every identifier is 0 or 2, and the list has a static suite for each,
-- with the identifiers as its values in order; or one of them is not, and no list is left.
pub create_cipher_suites_from-Created :
    (ids : List ℤ) → Created ids (create_cipher_suites_from true ids)
unfolding create_cipher_suites_from
create_cipher_suites_from-Created ids =
    Created-of_Filled ids (fill_suites ids) (fill_suites-Filled ids)

Known-HasMetadata : (d : Option CipherSuiteDetails) → Known d → HasMetadata d
Known-HasMetadata d k = ground (arith, k)

Known-HasFunctions : (d : Option CipherSuiteDetails) → Known d → HasFunctions d
Known-HasFunctions d (inl k) = rw k (refl, refl)
Known-HasFunctions d (inr k) = rw k (refl, refl)

pub Known-AgreesWith : (d x : Option CipherSuiteDetails) → Known d → Known x → AgreesWith d x
Known-AgreesWith d x (inl e) (inl f) h = cc
Known-AgreesWith d x (inl e) (inr f) h = ground (arith, e, f, h)
Known-AgreesWith d x (inr e) (inl f) h = ground (arith, e, f, h)
Known-AgreesWith d x (inr e) (inr f) h = cc

pub All-Known :
    (Q : Option CipherSuiteDetails → Type 0) (ds : List (Option CipherSuiteDetails))
    → ((x : Option CipherSuiteDetails) → Known x → Q x)
    → All Known ds
    → All Q ds
All-Known Q [] h k = tt
All-Known Q (d ∷ ds) h (k, ks) = (h d k, All-Known Q ds h ks)

-- Pointers to the static structs mean one struct each, with its metadata and functions.
pub Known-Consistent : (ds : List (Option CipherSuiteDetails)) → All Known ds → Consistent ds
Known-Consistent ds k = (
  All-Known HasMetadata ds Known-HasMetadata k,
  All-Known (λ d. All (AgreesWith d) ds) ds
      (λ d kd. All-Known (AgreesWith d) ds (λ x kx. Known-AgreesWith d x kd kx) k) k,
  All-Known HasFunctions ds Known-HasFunctions k,
)
