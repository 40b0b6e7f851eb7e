-- ===== src/Suites/Setup/Arrays.antt =====
-- The array of suites that com_edhoc_setup_context hands to libedhoc.
use tfg_edhoc.Base.{
  ℕ, suc, ◌+◌, ◌-◌, ◌≤◌, ◌≡◌, refl, ◌∙◌, ◌⊎◌, inl, inr, Bool, true, false, Option, none, some, List,
  [], ◌∷◌, ◌++◌, map, append_assoc, arith, if◌then◌else◌, is_some, same_address, Bool-cases,
  Option-cases, same_address_eq, same_address_refl, length, replicate, length-append, length-map,
  write-append, All, write_next,
}
use tfg_edhoc.Suites.{
  CipherSuite, CipherSuiteDetails, details_address, metadata_address, metadata_of,
}
use tfg_edhoc.Suites.Parameters.{
  suite_in_from, suite_in_suites_list, metadata_repeated, duplicated_suites_in,
}
use tfg_edhoc.Suites.Setup.{fill_array, build_cipher_suites}

-- The metadata of the entries whose metadata is not that of `d`, in order.
abbrev pub other_suites :
    Option CipherSuiteDetails → List (Option CipherSuiteDetails) → List (Option CipherSuite)
other_suites d [] = []
other_suites d (x ∷ xs) =
    let rest = other_suites d xs in
    if same_address (metadata_address (metadata_of d)) (metadata_address (metadata_of x))
    then rest
    else metadata_of x ∷ rest

abbrev pub HasMetadata : Option CipherSuiteDetails → Type 0
HasMetadata d = is_some (metadata_of d) ≡ true

-- The functions that the set-up calls are there.
abbrev pub HasFunctions : Option CipherSuiteDetails → Type 0
HasFunctions none = ⊥
HasFunctions (some d) = (is_some d.get_keys ≡ true) × (is_some d.get_crypto ≡ true)

-- One address is one struct: an entry at the address of `d` is `d`.
abbrev pub AgreesWith : Option CipherSuiteDetails → Option CipherSuiteDetails → Type 0
AgreesWith d x = same_address (details_address d) (details_address x) ≡ true → x ≡ d

module _ (d : Option CipherSuiteDetails) where
  metadata_repeated_of_in :
      (found : Bool) (xs : List (Option CipherSuiteDetails))
      → All (AgreesWith d) xs
      → suite_in_from found d xs ≡ true
      → (found ≡ true) ⊎ (metadata_repeated d xs ≡ true)
  unfolding suite_in_from metadata_repeated
  metadata_repeated_of_in found [] a h = inl h
  metadata_repeated_of_in found (x ∷ xs) a h =
      elim (Bool-cases (same_address (details_address d) (details_address x))) [
        | inl e ↦ inr (rw (a.0 e, same_address_refl (metadata_address (metadata_of d))))
        | inr e ↦ elim (metadata_repeated_of_in found xs a.1 (rw e at h)) [
          | inl f ↦ inl f
          | inr r ↦ inr (ground arith)
        ]
      ]

  other_suites_of_not_repeated :
      (xs : List (Option CipherSuiteDetails))
      → metadata_repeated d xs ≡ false
      → other_suites d xs ≡ map metadata_of xs
  unfolding metadata_repeated
  other_suites_of_not_repeated [] h = refl
  other_suites_of_not_repeated (x ∷ xs) h = ground (arith, other_suites_of_not_repeated xs)

  metadata_repeated_congr :
      (x : Option CipherSuiteDetails) (xs : List (Option CipherSuiteDetails))
      → metadata_address (metadata_of d) ≡ metadata_address (metadata_of x)
      → metadata_repeated d xs ≡ metadata_repeated x xs
  unfolding metadata_repeated
  metadata_repeated_congr x [] e = refl
  metadata_repeated_congr x (y ∷ ys) e = rw (e, metadata_repeated_congr x ys e)

  length-other_suites :
      (xs : List (Option CipherSuiteDetails))
      → metadata_repeated d xs ≡ true
      → duplicated_suites_in xs ≡ false
      → length (other_suites d xs) + 1 ≡ length xs
  unfolding metadata_repeated duplicated_suites_in
  length-other_suites [] h k = cc
  length-other_suites (x ∷ xs) h k =
      elim (Bool-cases
        (same_address (metadata_address (metadata_of d)) (metadata_address (metadata_of x)))) [
          | inl e ↦
              rw (e, other_suites_of_not_repeated xs (not_later e), length-map metadata_of xs)
                (omega arith)
          | inr e ↦ rw e (ground (arith, length-other_suites xs))
        ]
    where
      not_later :
          same_address (metadata_address (metadata_of d)) (metadata_address (metadata_of x)) ≡ true
          → metadata_repeated d xs ≡ false
      not_later e = metadata_repeated_congr x xs (same_address_eq _ _ e) ∙ ground arith

-- The loop, from a prefix of the array that is written already.
fill_array_lem :
    (d : Option CipherSuiteDetails) (xs : List (Option CipherSuiteDetails))
    (written : List (Option CipherSuite)) (room w : ℕ)
    → w ≡ length written
    → All HasMetadata xs
    → length (other_suites d xs) ≤ room
    → fill_array (metadata_of d) xs w (written ++ replicate room none)
      ≡ some (written ++ (other_suites d xs ++ replicate (room - length (other_suites d xs)) none))
unfolding fill_array
fill_array_lem d [] written room w e m h = ground arith
fill_array_lem d (x ∷ xs) written room w e m h =
    elim (Bool-cases
      (same_address (metadata_address (metadata_of d)) (metadata_address (metadata_of x)))) [
        | inl q ↦ rw (q, fill_array) (fill_array_lem d xs written room w e m.1 (rw q at h))
        | inr q ↦ elim (Option-cases (metadata_of x)) [
          | inl n ↦ absurd (cc (rw n at m.0))
          | inr (s, n) ↦
              let fits : length (other_suites d xs) + 1 ≤ room = omega (arith, rw q at h) in
              let less : room - 1 - length (other_suites d xs)
                  ≡ room - suc (length (other_suites d xs)) =
                omega arith in
              rw (q, n, fill_array, write_next written room w none (some s) e (omega arith))
                (fill_array_lem d xs (written ++ some s ∷ []) (room - 1) (w + 1)
                    (omega (arith, length-append written (some s ∷ []))) m.1 (omega arith)
                  ∙ rw (append_assoc, less))
        ]
      ]

module _ (d : CipherSuiteDetails) (m : CipherSuite) (xs : List (Option CipherSuiteDetails))
    (has : d.metadata ≡ some m) (all_have : All HasMetadata xs)
    (agree : All (AgreesWith (some d)) xs) (distinct : duplicated_suites_in xs ≡ false)
    (listed : suite_in_suites_list (some d) xs ≡ true) where
  one_less : length (other_suites (some d) xs) + 1 ≡ length xs
  unfolding suite_in_suites_list
  one_less = elim (metadata_repeated_of_in (some d) false xs agree listed) [
    | inl f ↦ cc
    | inr r ↦ length-other_suites (some d) xs r distinct
  ]

  -- No read through NULL and no write outside the array: the array holds every other supported
  -- suite, in order, and then the selected one.
  pub build_cipher_suites_lem :
      build_cipher_suites d xs ≡ some (other_suites (some d) xs ++ some m ∷ [])
  unfolding build_cipher_suites
  build_cipher_suites_lem =
      let os = other_suites (some d) xs in
      let one_left : length xs - length os ≡ 1 = omega (arith, one_less) in
      let at_end : length xs - 1 ≡ length os = omega (arith, one_less) in
      rw
        (
          fill_array_lem (some d) xs [] (length xs) 0 refl all_have (omega (arith, one_less)),
          one_left,
          at_end,
        )
        (simp has (write-append os [] none (some m)))
