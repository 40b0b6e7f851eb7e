-- ===== src/Common/Arguments.antt =====
-- src/common/com_parse_suites_arguments.h and com_parse_suites_arguments.c: the suites that the
-- programs take from their arguments. `strtol` of the C library is a parameter.
-- A text is the list of its bytes before the NUL. A result `none` of a function that fills the array
-- is a write outside it.
pub mod Laws
use tfg_edhoc.Base.{
  ℕ, suc, ◌+◌, ◌-◌, ◌≤◌, ◌<◌, ◌≡◌, refl, sym, ap, ◌∙◌, inl, inr, Bool, true, false, not, ◌||◌,
  Option, none, some, List, [], ◌∷◌, ◌++◌, append-nil, append_assoc, arith, ltb, leb, ◌==◌,
  if◌then◌else◌, ◌>>=◌, Bool-cases, Option-cases, length, write, replicate, length-append,
  write_next,
}
use tfg_edhoc.Suites.Int.{ℤ, pos, negsuc}

abbrev pub max_suites_identifiers : ℕ
max_suites_identifiers = 3

-- What `strtol` gives: whether it set `errno`, the offset of `end`, and the value.
pub record StrtolResult : Type 0 where
  pub sets_errno : Bool
  pub end_offset : ℕ
  pub value : ℤ

pub record CipherSuiteIdentifiers : Type 0 where
  pub identifiers : List ℤ
  pub count : ℕ

pub record ParseSuitesArgumentsResult : Type 0 where
  pub success : Bool
  pub suites : CipherSuiteIdentifiers

-- Between INT_MIN and INT_MAX.
abbrev fits_int : ℤ → Bool
fits_int (pos n) = ltb n 2147483648
fits_int (negsuc n) = ltb n 2147483648

abbrev pub zeroed_identifiers : CipherSuiteIdentifiers
zeroed_identifiers = record { identifiers = replicate max_suites_identifiers (pos 0); count = 0 }

abbrev pub parse_failure : ParseSuitesArgumentsResult
parse_failure = record { success = false; suites = zeroed_identifiers }

-- `false` with the list as it was, or `true`.
unfoldable pub append_suite_identifier :
    CipherSuiteIdentifiers → ℤ → Option (Bool × CipherSuiteIdentifiers)
append_suite_identifier l identifier =
    if leb max_suites_identifiers l.count
    then some (false, l)
    else write l.identifiers l.count identifier >>= λ written.
        some (true, record { identifiers = written; count = l.count + 1 })

module _ (strtol : List ℕ → StrtolResult) where
  unfoldable pub parse_identifier : Option (List ℕ) → Option ℤ
  parse_identifier none = none
  parse_identifier (some text) =
      let r = strtol text in
      if r.sets_errno
        || (r.end_offset == 0 || (not (r.end_offset == length text) || not (fits_int r.value)))
      then none
      else some r.value

  -- The loop over the arguments.
  unfoldable pub parse_from :
      List (Option (List ℕ)) → CipherSuiteIdentifiers → Option ParseSuitesArgumentsResult
  unfolding append_suite_identifier
  parse_from [] l = some (record { success = true; suites = l })
  parse_from (argument ∷ arguments) l = elim (parse_identifier argument) [
    | none ↦ some parse_failure
    | some identifier ↦ append_suite_identifier l identifier >>= λ r. elim r.0 [
      | false ↦ some parse_failure
      | true ↦ parse_from arguments r.1
    ]
  ]

  -- `arguments` is NULL or an array of `size` strings.
  unfoldable pub parse_suites_arguments :
      Option (List (Option (List ℕ))) → Option ParseSuitesArgumentsResult
  unfolding parse_from
  parse_suites_arguments none = some parse_failure
  parse_suites_arguments (some []) = some parse_failure
  parse_suites_arguments (some (argument ∷ arguments)) =
      parse_from (argument ∷ arguments) zeroed_identifiers

  -- The identifiers of all arguments, in order, if each is one.
  abbrev pub identifiers_of : List (Option (List ℕ)) → Option (List ℤ)
  identifiers_of [] = some []
  identifiers_of (argument ∷ arguments) =
      let rest = identifiers_of arguments in
      parse_identifier argument >>= λ i. rest >>= λ is. some (i ∷ is)

-- The array with the identifiers at its front.
abbrev pub filled : List ℤ → CipherSuiteIdentifiers
filled ids = record { identifiers = ids ++ replicate (3 - length ids) (pos 0); count = length ids }

-- What all identifiers behind `before` make.
abbrev pub outcome : List ℤ → Option (List ℤ) → ParseSuitesArgumentsResult
outcome before none = parse_failure
outcome before (some ids) =
    if leb (length before + length ids) 3
    then record { success = true; suites = filled (before ++ ids) }
    else parse_failure

append_suite_identifier_lem :
    (before : List ℤ) (i : ℤ)
    → length before < 3
    → append_suite_identifier (filled before) i ≡ some (true, filled (before ++ i ∷ []))
unfolding append_suite_identifier
append_suite_identifier_lem before i h =
    let room : leb 3 (length before) ≡ false = ground arith in
    let left : 3 - length before - 1 ≡ 3 - (length before + 1) = omega arith in
    rw
      (
        room,
        write_next before (3 - length before) (length before) (pos 0) i refl (omega arith),
        length-append before (i ∷ []),
        left,
      )
      refl

too_many :
    (before : List ℤ) (i : ℤ) (o : Option (List ℤ))
    → leb 3 (length before) ≡ true
    → some (outcome before (o >>= λ ids. some (i ∷ ids))) ≡ some parse_failure
too_many before i none h = refl
too_many before i (some ids) h =
    let over : leb (length before + suc (length ids)) 3 ≡ false = ground arith in rw over

outcome_next :
    (before : List ℤ) (i : ℤ) (o : Option (List ℤ))
    → outcome (before ++ i ∷ []) o ≡ outcome before (o >>= λ ids. some (i ∷ ids))
outcome_next before i none = refl
outcome_next before i (some ids) =
    let count : length (before ++ i ∷ []) + length ids ≡ length before + suc (length ids) =
      omega (arith, length-append before (i ∷ [])) in
    rw count (
      let same : (before ++ i ∷ []) ++ ids ≡ before ++ i ∷ ids = append_assoc before (i ∷ []) ids in
      ap
        (λ l.
          if leb (length before + suc (length ids)) 3
          then record { success = true; suites = filled l }
          else parse_failure)
        same)

module _ (strtol : List ℕ → StrtolResult) where
  parse_from_lem :
      (arguments : List (Option (List ℕ))) (before : List ℤ)
      → length before ≤ 3
      → parse_from strtol arguments (filled before)
        ≡ some (outcome before (identifiers_of strtol arguments))
  unfolding parse_from
  parse_from_lem [] before h =
      let small : leb (length before + 0) 3 ≡ true = ground arith in rw (small, append-nil)
  parse_from_lem (a ∷ rest) before h = elim (Option-cases (parse_identifier strtol a)) [
    | inl n ↦ rw (n, parse_from) refl
    | inr (i, n) ↦ elim (Bool-cases (leb 3 (length before))) [
      | inl full ↦
          rw (n, full, parse_from, append_suite_identifier)
            (sym (too_many before i (identifiers_of strtol rest) full))
      | inr room ↦
          rw (n, append_suite_identifier_lem before i (ground (arith, room)), parse_from)
            (parse_from_lem rest (before ++ i ∷ [])
                (ground (arith, room, length-append before (i ∷ [])))
              ∙ ap some (outcome_next before i (identifiers_of strtol rest)))
    ]
  ]

  -- An array of one or more arguments gives the identifiers of all of them, in order from the start of
  -- the array, if `parse_identifier` gives one for each and there are at most three; and otherwise a
  -- failure.
  pub parse_suites_arguments_lem :
      (argument : Option (List ℕ)) (arguments : List (Option (List ℕ)))
      → parse_suites_arguments strtol (some (argument ∷ arguments))
        ≡ some (outcome [] (identifiers_of strtol (argument ∷ arguments)))
  unfolding parse_suites_arguments
  parse_suites_arguments_lem argument arguments =
      parse_from_lem (argument ∷ arguments) [] (omega arith)
