-- ===== src/Common/Arguments/Laws.antt =====
-- The arguments of src/common/com_parse_suites_arguments.c against a description of what they denote, which does
-- not use the code's own tests.
use tfg_edhoc.Base.{
  ℕ, ◌+◌, ◌≤◌, ◌<◌, ◌≡◌, refl, sym, ◌∙◌, ◌⊎◌, inl, inr, true, false, Option, none, some, List, [],
  ◌∷◌, arith, leb, Bool-cases, Option-cases, length,
}
use tfg_edhoc.Suites.Int.{ℤ, pos, negsuc}
use tfg_edhoc.Common.Arguments.{
  StrtolResult, ParseSuitesArgumentsResult, parse_identifier, identifiers_of, filled, parse_failure,
  parse_suites_arguments, parse_suites_arguments_lem,
}

-- At least INT_MIN and at most INT_MAX.
abbrev pub IsInt : ℤ → Type 0
IsInt (pos n) = n ≤ 2147483647
IsInt (negsuc n) = n + 1 ≤ 2147483648

module _ (strtol : List ℕ → StrtolResult) where
  -- The text is, to its end, a number that `strtol` takes without an error, and it is within `int`.
  abbrev pub Denotes : Option (List ℕ) → ℤ → Type 0
  Denotes none i = ⊥
  Denotes (some text) i =
      ((strtol text).sets_errno ≡ false)
      × (0 < (strtol text).end_offset)
      × ((strtol text).end_offset ≡ length text)
      × ((strtol text).value ≡ i)
      × IsInt i

  -- One identifier for each argument, in order.
  abbrev pub DenoteAll : List (Option (List ℕ)) → List ℤ → Type 0
  DenoteAll [] [] = Unit
  DenoteAll [] (i ∷ is) = ⊥
  DenoteAll (argument ∷ arguments) [] = ⊥
  DenoteAll (argument ∷ arguments) (i ∷ is) = Denotes argument i × DenoteAll arguments is

  parse_identifier-Denotes :
      (text : List ℕ) (i : ℤ) → parse_identifier strtol (some text) ≡ some i → Denotes (some text) i
  unfolding parse_identifier
  parse_identifier-Denotes text (pos n) h =
      let value : (strtol text).value ≡ pos n = ground (arith, h) in
      let fits : n ≤ 2147483647 = ground (arith, h, value) in
      (ground (arith, h), ground (arith, h), ground (arith, h), value, fits)
  parse_identifier-Denotes text (negsuc n) h =
      let value : (strtol text).value ≡ negsuc n = ground (arith, h) in
      let fits : n + 1 ≤ 2147483648 = ground (arith, h, value) in
      (ground (arith, h), ground (arith, h), ground (arith, h), value, fits)

  Denotes-parse_identifier :
      (text : List ℕ) (i : ℤ) → Denotes (some text) i → parse_identifier strtol (some text) ≡ some i
  unfolding parse_identifier
  Denotes-parse_identifier text (pos n) (e, some_digit, whole, value, fits) =
      rw (e, value) (ground (arith, some_digit, whole, fits))
  Denotes-parse_identifier text (negsuc n) (e, some_digit, whole, value, fits) =
      rw (e, value) (ground (arith, some_digit, whole, fits))

  identifiers_of-DenoteAll :
      (arguments : List (Option (List ℕ))) (ids : List ℤ)
      → identifiers_of strtol arguments ≡ some ids
      → DenoteAll arguments ids
  unfolding parse_identifier
  identifiers_of-DenoteAll [] [] h = tt
  identifiers_of-DenoteAll [] (i ∷ is) h = cc
  identifiers_of-DenoteAll (none ∷ rest) ids h = cc
  identifiers_of-DenoteAll (some text ∷ rest) [] h = ground (arith, h)
  identifiers_of-DenoteAll (some text ∷ rest) (i ∷ is) h = (
    parse_identifier-Denotes text i (ground (arith, h)),
    identifiers_of-DenoteAll rest is (ground (arith, h)),
  )

  DenoteAll-identifiers_of :
      (arguments : List (Option (List ℕ))) (ids : List ℤ)
      → DenoteAll arguments ids
      → identifiers_of strtol arguments ≡ some ids
  DenoteAll-identifiers_of [] [] h = refl
  DenoteAll-identifiers_of [] (i ∷ is) h = elim h [ ]
  DenoteAll-identifiers_of (a ∷ rest) [] h = elim h [ ]
  DenoteAll-identifiers_of (none ∷ rest) (i ∷ is) (h, hs) = elim h [ ]
  DenoteAll-identifiers_of (some text ∷ rest) (i ∷ is) (h, hs) =
      rw (Denotes-parse_identifier text i h, DenoteAll-identifiers_of rest is hs) refl

  -- The identifiers that the arguments denote, at the front of the array, if they are at most three; and a
  -- failure if the arguments denote none or more.
  abbrev pub Parsed : List (Option (List ℕ)) → Option ParseSuitesArgumentsResult → Type 0
  Parsed arguments r =
      ((ids : List ℤ) × DenoteAll arguments ids
        × (length ids ≤ 3)
        × (r ≡ some (record { success = true; suites = filled ids })))
      ⊎ ((¬ ((ids : List ℤ) × DenoteAll arguments ids × (length ids ≤ 3)))
          × (r ≡ some parse_failure))

  -- For an array of one or more arguments, either each is, to its end, a number that `strtol` takes
  -- without an error and that is within `int`, there are at most three, and the result is the identifiers
  -- of all of them in order from the start of the array; or that is not so, and the result is a failure.
  -- Nothing is written outside the array.
  pub parse_suites_arguments-Parsed :
      (argument : Option (List ℕ)) (arguments : List (Option (List ℕ)))
      → Parsed (argument ∷ arguments) (parse_suites_arguments strtol (some (argument ∷ arguments)))
  parse_suites_arguments-Parsed argument arguments =
      let all = argument ∷ arguments in
      elim (Option-cases (identifiers_of strtol all)) [
        | inl n ↦ inr (
          (λ (ids, h, few). cc (rw (DenoteAll-identifiers_of all ids h) at n)),
          rw (parse_suites_arguments_lem strtol argument arguments, n),
        )
        | inr (ids, n) ↦ elim (Bool-cases (leb (0 + length ids) 3)) [
          | inl few ↦ inl (
            ids,
            identifiers_of-DenoteAll all ids n,
            ground (arith, few),
            rw (parse_suites_arguments_lem strtol argument arguments, n, few),
          )
          | inr many ↦ inr (
            (λ (js, h, few).
                let same : some js ≡ some ids = sym (DenoteAll-identifiers_of all js h) ∙ n in
                ground (arith, many, few, same)),
            rw (parse_suites_arguments_lem strtol argument arguments, n, many),
          )
        ]
      ]
