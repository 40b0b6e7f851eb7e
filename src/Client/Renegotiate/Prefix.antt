-- ===== src/Client/Renegotiate/Prefix.antt =====
-- What a prefix of the client's suites keeps of the conditions on them, for the lists that
-- src/coap/client/cli_resources.c takes from a negotiation.
use tfg_edhoc.Base.{
  ℕ, zero, suc, ◌+◌, ◌≡◌, refl, sym, Bool, true, false, Option, some, List, [], ◌∷◌, ◌++◌, arith,
  if◌then◌else◌, is_some, same_address, same_address_refl, length, get_elem?, take, length-append,
  All,
}
use tfg_edhoc.Suites.{
  CipherSuiteList, CipherSuiteDetails, details_address, all_details_are_valid,
  cipher_suites_are_valid,
}
use tfg_edhoc.Suites.Parameters.{
  EdhocParameters, IsValid, entries, suite_in_from, suite_in_suites_list, metadata_repeated,
  duplicated_suites_in,
}
use tfg_edhoc.Suites.Setup.Arrays.{HasMetadata, HasFunctions, AgreesWith}
use tfg_edhoc.Suites.Negotiate.{RenegotiationList}
use tfg_edhoc.Client.Renegotiate.{last_suite}

all_valid-append :
    (xs ys : List (Option CipherSuiteDetails))
    → all_details_are_valid (xs ++ ys) ≡ true
    → all_details_are_valid xs ≡ true
unfolding all_details_are_valid
all_valid-append [] ys h = refl
all_valid-append (x ∷ xs) ys h = ground (arith, all_valid-append xs ys)

metadata_repeated-append :
    (d : Option CipherSuiteDetails) (xs ys : List (Option CipherSuiteDetails))
    → metadata_repeated d (xs ++ ys) ≡ false
    → metadata_repeated d xs ≡ false
unfolding metadata_repeated
metadata_repeated-append d [] ys h = refl
metadata_repeated-append d (x ∷ xs) ys h = ground (arith, metadata_repeated-append d xs ys)

duplicated-append :
    (xs ys : List (Option CipherSuiteDetails))
    → duplicated_suites_in (xs ++ ys) ≡ false
    → duplicated_suites_in xs ≡ false
unfolding duplicated_suites_in
duplicated-append [] ys h = refl
duplicated-append (x ∷ xs) ys h =
    ground (arith, duplicated-append xs ys, metadata_repeated-append x xs ys)

in_last :
    (d : Option CipherSuiteDetails) (xs : List (Option CipherSuiteDetails)) (found : Bool)
    → suite_in_from found d (xs ++ d ∷ []) ≡ true
unfolding suite_in_from
in_last d [] found = rw (same_address_refl (details_address d))
in_last d (x ∷ xs) found =
    in_last d xs (if same_address (details_address d) (details_address x) then true else found)

get_of_take :
    {A : Type 0} (xs before : List A) (x : A) (n : ℕ)
    → n ≡ length before
    → take (suc n) xs ≡ before ++ x ∷ []
    → get_elem? xs n ≡ some x
get_of_take [] [] x n e h = cc
get_of_take [] (b ∷ bs) x n e h = cc
get_of_take (y ∷ ys) [] x n e h = rw e (cc)
get_of_take (y ∷ ys) (b ∷ bs) x zero e h = absurd (omega (arith, e))
get_of_take (y ∷ ys) (b ∷ bs) x (suc n) e h = get_of_take ys bs x n (omega (arith, e)) (cc)

pub All-prefix : {A : Type 0} (P : A → Type 0) (xs ys : List A) → All P (xs ++ ys) → All P xs
All-prefix P [] ys h = tt
All-prefix P (x ∷ xs) ys h = (h.0, All-prefix P xs ys h.1)

pub All-at : {A : Type 0} (P : A → Type 0) (xs ys : List A) (x : A) → All P (xs ++ x ∷ ys) → P x
All-at P [] ys x h = h.0
All-at P (y ∷ xs) ys x h = All-at P xs ys x h.1

pub last_suite_lem :
    (l : RenegotiationList) (before : List (Option CipherSuiteDetails))
    (x : Option CipherSuiteDetails)
    → l.number_of_suites ≡ length before + 1
    → take l.number_of_suites l.suites ≡ before ++ x ∷ []
    → last_suite l ≡ some x
unfolding last_suite
last_suite_lem l before x e h =
    let count : l.number_of_suites ≡ suc (length before) = omega (arith, e) in
    rw (count, last_suite) (get_of_take l.suites before x (length before) refl (rw count at h))

-- The own suites of the client, one struct at each address, each with its metadata
-- and its functions.
abbrev pub Consistent : List (Option CipherSuiteDetails) → Type 0
Consistent own = All HasMetadata own × All (λ d. All (AgreesWith d) own) own × All HasFunctions own

abbrev pub negotiated_parameters :
    EdhocParameters → List (Option CipherSuiteDetails) → Option CipherSuiteDetails → EdhocParameters
negotiated_parameters original before chosen = record {
  credentials = original.credentials;
  methods = original.methods;
  supported_cipher_suites = record { suites = some (before ++ chosen ∷ []) };
  selected_cipher_suite = chosen;
  generate_connection_id = original.generate_connection_id;
}

entries_valid :
    (l : CipherSuiteList)
    → cipher_suites_are_valid l ≡ true
    → all_details_are_valid (entries l) ≡ true
unfolding cipher_suites_are_valid
entries_valid l h = ground arith

prefix_valid :
    (ds : List (Option CipherSuiteDetails)) (d : Option CipherSuiteDetails)
    → all_details_are_valid (ds ++ d ∷ []) ≡ true
    → cipher_suites_are_valid (record { suites = some (ds ++ d ∷ []) }) ≡ true
unfolding cipher_suites_are_valid
prefix_valid ds d h = ground (arith, length-append ds (d ∷ []))

module _ (original : EdhocParameters) (before after : List (Option CipherSuiteDetails))
    (chosen : Option CipherSuiteDetails) (valid : IsValid original)
    (splits : entries original.supported_cipher_suites ≡ (before ++ chosen ∷ []) ++ after) where
  pub negotiated-IsValid :
      is_some chosen ≡ true → IsValid (negotiated_parameters original before chosen)
  negotiated-IsValid h = record {
    details_valid = prefix_valid before chosen (
        all_valid-append (before ++ chosen ∷ []) after
          (rw (sym splits) (entries_valid original.supported_cipher_suites valid.details_valid)));
    has_methods = valid.has_methods;
    has_credentials = valid.has_credentials;
    has_selected = h;
    has_generator = valid.has_generator;
    no_duplicates =
        duplicated-append (before ++ chosen ∷ []) after (rw (sym splits) valid.no_duplicates);
    selected_in = unfold suite_in_suites_list in in_last chosen before false;
  }
