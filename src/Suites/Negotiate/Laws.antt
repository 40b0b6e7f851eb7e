-- ===== src/Suites/Negotiate/Laws.antt =====
-- The negotiation of src/edhoc/client/handshake/cli_negotiate_cipher_suites.c against RFC 9528, 6.3.1.
use tfg_edhoc.Base.{
  ℕ, suc, ◌+◌, ◌-◌, ◌≤◌, ◌<◌, ◌≡◌, refl, ap, ◌∙◌, ◌⊎◌, inl, inr, true, false, Option, none, some,
  List, [], ◌∷◌, ◌++◌, append-nil, append_assoc, arith, leb, ltb, Bool-cases, Option-cases, length,
  replicate, take, length-append, All, write_next, take-append, All-append,
}
use tfg_edhoc.Common.Buffers.{ReadonlyBuffer, readonly_buffer_has_content}
use tfg_edhoc.Library.{Libedhoc, ErrorInfo, ErrorCode, cipher_suites}
use tfg_edhoc.Suites.Int.{ℤ, pos, negsuc, eq_ℤ}
use tfg_edhoc.Suites.{
  CipherSuiteDetails, CipherSuiteList, CipherSuite, metadata_of, cipher_suites_are_valid,
}
use tfg_edhoc.Suites.Parameters.{entries}
use tfg_edhoc.Suites.Setup.Arrays.{HasMetadata}
use tfg_edhoc.Suites.Negotiate.{
  NegotiationResult, RenegotiationList, no_common_suites, success, failure, copy_suites,
  merge_suite_list, identifier_in, suite_identifier_in_error_info, negotiate_from, negotiate_suites,
  process_error, fits_array, error_size,
}

eq_ℤ-eq : (a b : ℤ) → eq_ℤ a b ≡ true → a ≡ b
eq_ℤ-eq (pos a) (pos b) h = ground arith
eq_ℤ-eq (pos a) (negsuc b) h = cc
eq_ℤ-eq (negsuc a) (pos b) h = cc
eq_ℤ-eq (negsuc a) (negsuc b) h = ground arith

eq_ℤ-refl : (a : ℤ) → eq_ℤ a a ≡ true
eq_ℤ-refl (pos a) = ground arith
eq_ℤ-refl (negsuc a) = ground arith

-- The peer supports the suite.
abbrev pub Offers : List ℤ → ℤ → Type 0
Offers [] v = ⊥
Offers (x ∷ xs) v = (x ≡ v) ⊎ Offers xs v

identifier_in_cases :
    (xs : List ℤ) (v : ℤ)
    → ((identifier_in xs (length xs) v ≡ some true) × Offers xs v)
      ⊎ ((identifier_in xs (length xs) v ≡ some false) × (¬ Offers xs v))
unfolding identifier_in
identifier_in_cases [] v = inr (refl, λ h. h)
identifier_in_cases (x ∷ xs) v = elim (Bool-cases (eq_ℤ x v)) [
  | inl e ↦ inl (rw (e, identifier_in), inl (eq_ℤ-eq x v e))
  | inr e ↦ elim (identifier_in_cases xs v) [
    | inl (h, o) ↦ inl (rw (e, identifier_in) h, inr o)
    | inr (h, o) ↦ inr (
      rw (e, identifier_in) h,
      λ s. elim s [ inl q ↦ cc (eq_ℤ-refl x, ap (eq_ℤ x) q) | inr q ↦ o q ],
    )
  ]
]

copy_suites_lem :
    (xs written : List (Option CipherSuiteDetails)) (room i : ℕ)
    → i ≡ length written
    → length xs ≤ room
    → copy_suites i xs (written ++ replicate room none)
      ≡ some ((written ++ xs) ++ replicate (room - length xs) none)
unfolding copy_suites
copy_suites_lem [] written room i e h =
    let all_left : room - 0 ≡ room = omega arith in rw (append-nil, all_left) refl
copy_suites_lem (x ∷ xs) written room i e h =
    let less : room - 1 - length xs ≡ room - suc (length xs) = omega arith in
    rw (write_next written room i none x e (omega arith)) (
      copy_suites_lem xs (written ++ x ∷ []) (room - 1) (i + 1)
        (omega (arith, length-append written (x ∷ []))) (omega arith)
      ∙ simp append_assoc (rw less))

abbrev merged : List (Option CipherSuiteDetails) → Option CipherSuiteDetails → RenegotiationList
merged xs x = record {
  suites = (xs ++ x ∷ []) ++ replicate (10 - length xs - 1) none;
  number_of_suites = length xs + 1;
}

merge_suite_list_lem :
    (xs : List (Option CipherSuiteDetails)) (x : Option CipherSuiteDetails)
    → length xs < 10
    → merge_suite_list xs x ≡ some (merged xs x)
unfolding merge_suite_list
merge_suite_list_lem xs x h = rw (
  copy_suites_lem xs [] 10 0 refl (omega arith),
  write_next xs (10 - length xs) (length xs) none x refl (omega arith),
)

-- libedhoc reports the peer's suites, all of them, and they fit the array.
pub record Reports (info : ErrorInfo) (peer : List ℤ) : Type 0 where
  pub content : info.content ≡ cipher_suites peer
  pub written : info.written_entries ≡ length peer
  pub fits : length peer ≤ 25

-- A suite that the peer does not support, and one that it does.
abbrev pub IsRejected : List ℤ → Option CipherSuiteDetails → Type 0
IsRejected peer x = (m : CipherSuite) × (metadata_of x ≡ some m) × (¬ Offers peer m.value)

abbrev pub IsCommon : List ℤ → Option CipherSuiteDetails → Type 0
IsCommon peer x = (m : CipherSuite) × (metadata_of x ≡ some m) × Offers peer m.value

-- What a new Message 1 must offer: the own suites down to the first that the peer supports too.
pub record Selects (peer : List ℤ) (own : List (Option CipherSuiteDetails)) (l : RenegotiationList)
    : Type 0 where
  pub before : List (Option CipherSuiteDetails)
  pub chosen : Option CipherSuiteDetails
  pub after : List (Option CipherSuiteDetails)
  pub splits : own ≡ before ++ chosen ∷ after
  pub rejected : All (IsRejected peer) before
  pub common : IsCommon peer chosen
  pub listed : take l.number_of_suites l.suites ≡ before ++ chosen ∷ []
  pub counted : l.number_of_suites ≡ length before + 1
  pub in_bounds : l.number_of_suites ≤ 10

abbrev pub Outcome : List ℤ → List (Option CipherSuiteDetails) → Option NegotiationResult → Type 0
Outcome peer own r =
    ((r ≡ some (failure no_common_suites)) × All (IsRejected peer) own)
    ⊎ ((l : RenegotiationList) × (r ≡ some (success l)) × Selects peer own l)

merged-Selects :
    (peer : List ℤ) (pre after : List (Option CipherSuiteDetails)) (x : Option CipherSuiteDetails)
    → length pre < 10
    → All (IsRejected peer) pre
    → IsCommon peer x
    → Selects peer (pre ++ x ∷ after) (merged pre x)
merged-Selects peer pre after x h rejected common = record {
  before = pre;
  chosen = x;
  after = after;
  splits = refl;
  rejected = rejected;
  common = common;
  listed =
      let n : length pre + 1 ≡ length (pre ++ x ∷ []) = omega (arith, length-append pre (x ∷ [])) in
      rw n (take-append (pre ++ x ∷ []) (replicate (10 - length pre - 1) none));
  counted = refl;
  in_bounds = omega arith;
}

module _ (info : ErrorInfo) (peer : List ℤ) (reports : Reports info peer) where
  in_error_info :
      (v : ℤ)
      → ((suite_identifier_in_error_info info v ≡ some true) × Offers peer v)
        ⊎ ((suite_identifier_in_error_info info v ≡ some false) × (¬ Offers peer v))
  unfolding suite_identifier_in_error_info
  in_error_info v =
      rw (reports.content, reports.written, suite_identifier_in_error_info)
        (identifier_in_cases peer v)

  negotiate_from-Outcome :
      (own pre xs : List (Option CipherSuiteDetails)) (i : ℕ)
      → own ≡ pre ++ xs
      → i ≡ length pre
      → length own ≤ 10
      → All HasMetadata xs
      → All (IsRejected peer) pre
      → Outcome peer own (negotiate_from info own i xs)
  unfolding negotiate_from
  negotiate_from-Outcome own pre [] i e f h k r = inl (refl, rw (e, append-nil) r)
  negotiate_from-Outcome own pre (x ∷ xs) i e f h k r = elim (Option-cases (metadata_of x)) [
    | inl n ↦ absurd (cc (rw n at k.0))
    | inr (m, n) ↦ elim (in_error_info m.value) [
      | inl (t, o) ↦
          let room : length pre < 10 = omega (arith, ap length e, length-append pre (x ∷ xs)) in
          inr (
            merged pre x,
            rw
                (
                  n,
                  t,
                  e,
                  f,
                  take-append pre (x ∷ xs),
                  merge_suite_list_lem pre x room,
                  negotiate_from,
                )
                refl,
            rw e (merged-Selects peer pre xs x room r (m, n, o)),
          )
      | inr (t, o) ↦
          rw (n, t, negotiate_from)
            (negotiate_from-Outcome own (pre ++ x ∷ []) xs (i + 1) (rw (append_assoc) e)
              (omega (arith, length-append pre (x ∷ []))) h k.1
              (All-append (IsRejected peer) pre (x ∷ []) r ((m, n, o), tt)))
    ]
  ]

reported_fits :
    (info : ErrorInfo) (peer : List ℤ) → Reports info peer → fits_array info.content ≡ true
reported_fits info peer reports =
    let few : leb (length peer) 25 ≡ true = ground (arith, reports.fits) in
    rw (reports.content, few)

module _ {C K : Type 0} (lib : Libedhoc C K) where
  process_error_lem :
      (encoded : ReadonlyBuffer) (code : ErrorCode) (info : ErrorInfo)
      → lib.message_error_process encoded error_size ≡ some (code, info)
      → fits_array info.content ≡ true
      → process_error lib encoded ≡ some (some (code, info))
  unfolding process_error
  process_error_lem encoded code info processed fits = ground (arith, processed, fits)

  -- On a decoded error that reports the peer's suites, which fit the array, with at most ten valid own
  -- suites that all have their metadata, the negotiation makes no memory fault: it either chooses the
  -- first own suite that the peer supports, listing it behind exactly the own suites before it, within
  -- the ten places; or it reports that there is none, and then the peer supports no own suite.
  pub negotiate_suites-Outcome :
      (own : CipherSuiteList) (encoded : ReadonlyBuffer) (code : ErrorCode) (info : ErrorInfo)
      (peer : List ℤ)
      → readonly_buffer_has_content encoded ≡ true
      → cipher_suites_are_valid own ≡ true
      → length (entries own) ≤ 10
      → All HasMetadata (entries own)
      → lib.message_error_process encoded error_size ≡ some (code, info)
      → Reports info peer
      → Outcome peer (entries own) (negotiate_suites lib own encoded)
  unfolding negotiate_suites
  negotiate_suites-Outcome own encoded code info peer content valid few have processed reports =
      let small : ltb 10 (length (entries own)) ≡ false = ground arith in
      let decoded : process_error lib encoded ≡ some (some (code, info)) =
        process_error_lem encoded code info processed (reported_fits info peer reports) in
      rw (content, valid, small, decoded, negotiate_suites)
        (negotiate_from-Outcome info peer reports (entries own) [] (entries own) 0 refl refl few
          have tt)
