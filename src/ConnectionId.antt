-- ===== src/ConnectionId.antt =====
-- src/edhoc/common/com_generate_connection_id.c. The two counters are static variables: a generator
-- takes their values and returns its identifier together with the values that it leaves.
use tfg_edhoc.Base.{
  ℕ, zero, suc, ◌+◌, ◌≤◌, ◌≡◌, refl, Bool, false, List, [], ◌∷◌, arith, ltb, ◌==◌, if◌then◌else◌,
}
use tfg_edhoc.Suites.Int.{ℤ, pos, negsuc}

abbrev max_int_cid : ℕ
max_int_cid = 23

abbrev libedhoc_min_int_cid : ℤ
libedhoc_min_int_cid = pos 0

pub record CidGenerationDetails : Type 0 where
  pub connection_identifier : ℤ
  pub initial_value : ℤ

-- `++` on an `int8_t`; from 127 it goes to -128.
abbrev increment_int8 : ℤ → ℤ
increment_int8 (pos n) = if n == 127 then negsuc 127 else pos (n + 1)
increment_int8 (negsuc zero) = pos 0
increment_int8 (negsuc (suc n)) = negsuc n

-- `x > COM_EDHOC_MAX_INT_CID`
abbrev above_max : ℤ → Bool
above_max (pos n) = ltb max_int_cid n
above_max (negsuc n) = false

-- The argument is a copy: the caller's variable is not written.
abbrev pub get_next_single_byte_integer_cid : CidGenerationDetails → ℤ
get_next_single_byte_integer_cid details =
    let next = increment_int8 details.connection_identifier in
    if above_max next then details.initial_value else next

pub record CidCounters : Type 0 where
  pub even_cid_counter : CidGenerationDetails
  pub odd_cid_counter : CidGenerationDetails

abbrev initial_even_cid : ℤ
initial_even_cid = libedhoc_min_int_cid

-- `COM_EDHOC_LIBEDHOC_MIN_INT_CID + 1`
abbrev initial_odd_cid : ℤ
initial_odd_cid = increment_int8 libedhoc_min_int_cid

abbrev pub initial_counters : CidCounters
initial_counters = record {
  even_cid_counter = record {
    connection_identifier = initial_even_cid;
    initial_value = initial_even_cid;
  };
  odd_cid_counter = record {
    connection_identifier = initial_odd_cid;
    initial_value = initial_odd_cid;
  };
}

unfoldable pub generate_even_cid : CidCounters → ℤ × CidCounters
generate_even_cid s = (get_next_single_byte_integer_cid s.even_cid_counter, s)

unfoldable pub generate_odd_cid : CidCounters → ℤ × CidCounters
generate_odd_cid s = (get_next_single_byte_integer_cid s.odd_cid_counter, s)

-- The generators that the program passes on as function pointers.
pub data CidGenerator : Type 0 where
  even odd : CidGenerator

unfoldable pub generate : CidGenerator → CidCounters → ℤ × CidCounters
unfolding generate_even_cid generate_odd_cid
generate even s = generate_even_cid s
generate odd s = generate_odd_cid s

-- The counters after any calls of the generators, from the start of the program.
pub run_generators : List CidGenerator → CidCounters → CidCounters
run_generators [] s = s
run_generators (g ∷ gs) s = run_generators gs (generate g s).1

run_generators-same : (gs : List CidGenerator) (s : CidCounters) → run_generators gs s ≡ s
unfolding run_generators generate
run_generators-same [] s = refl
run_generators-same (even ∷ gs) s = run_generators-same gs s
run_generators-same (odd ∷ gs) s = run_generators-same gs s

-- After any calls of the generators, the "even" generator returns 1 and the "odd" generator 2:
-- neither ever returns another identifier, since the counters are passed by value.
pub generate_constant :
    (gs : List CidGenerator)
    → ((generate even (run_generators gs initial_counters)).0 ≡ pos 1)
      × ((generate odd (run_generators gs initial_counters)).0 ≡ pos 2)
unfolding generate
generate_constant gs = rw (run_generators-same gs initial_counters) (refl, refl)

-- The identifier in range: what a generator returns is encoded in one byte as itself, 0 to 23.
abbrev InRange : ℤ → Type 0
InRange (pos n) = n ≤ 23
InRange (negsuc n) = ⊥

-- From a counter within 0 and 23 the next identifier is again within 0 and 23.
pub get_next-InRange :
    (d : CidGenerationDetails)
    → InRange d.connection_identifier
    → InRange d.initial_value
    → InRange (get_next_single_byte_integer_cid d)
get_next-InRange d h k = go d.connection_identifier d.initial_value h k
  where
    go :
        (c i : ℤ)
        → InRange c
        → InRange i
        → InRange (
            get_next_single_byte_integer_cid
              (record { connection_identifier = c; initial_value = i }))
    go (pos c) (pos i) h k = ground arith
    go (pos c) (negsuc i) h k = elim k [ ]
    go (negsuc c) i h k = elim h [ ]
