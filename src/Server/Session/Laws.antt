-- ===== src/Server/Session/Laws.antt =====
-- The dictionary of src/coap/server/internal/srv_session.c: what its loops find, store and clear.
pub mod Map
use tfg_edhoc.Base.{
  ℕ, zero, suc, ◌+◌, ◌-◌, ◌*◌, ◌/◌, ◌%◌, ◌≤◌, ◌<◌, ◌≡◌, refl, sym, ap, subst, ◌∙◌, ◌≢◌, ◌⊎◌, inl,
  inr, Bool, true, false, not, ◌&&◌, ◌||◌, Option, none, some, List, [], ◌∷◌, ◌++◌, map, append-nil,
  append_assoc, arith, ltb, leb, ◌==◌, if◌then◌else◌, is_some, or_else, same_address, ◌>>=◌,
  Bool-cases, Option-cases, same_address_eq, same_address_refl, length, get_elem?, write, replicate,
  take, last_or, length-append, length-replicate, length-map, write-append, All, write_next,
  take-append, All-append,
}
use tfg_edhoc.Library.{Libedhoc}
use tfg_edhoc.Server.Session.{
  Dictionary, Entry, matches, find_index_by_cid, store_in_first_free, clear_at, zeroed_entry,
}

-- `edhoc_connection_id_equal` is an equivalence.
pub record EqualityLaws {C K : Type 0} (lib : Libedhoc C K) : Type 0 where
  pub reflexive : (k : K) → lib.connection_id_equal k k ≡ true
  pub symmetric : (j k : K) → lib.connection_id_equal j k ≡ lib.connection_id_equal k j
  pub congruent :
      (i j k : K)
      → lib.connection_id_equal i j ≡ true
      → lib.connection_id_equal i k ≡ lib.connection_id_equal j k

abbrev pub one_at : ℕ → ℕ → ℕ
one_at a b = if a == b then 1 else 0

module _ {K : Type 0} where
  -- Whether an entry holds the context at address `a`, as a count.
  abbrev pub owns : ℕ → Entry K → ℕ
  owns a e = if e.occupied && same_address e.context (some a) then 1 else 0

  -- How many entries hold the context at address `a`.
  abbrev pub owners : ℕ → Dictionary K → ℕ
  owners a [] = 0
  owners a (e ∷ es) = owns a e + owners a es

  abbrev pub new_entry : K → ℕ → Entry K
  new_entry cid a = record { connection_id = cid; context = some a; occupied = true }

module _ {C K : Type 0} (lib : Libedhoc C K) where
  pub find_index_some :
      (d : Dictionary K) (k : K) (i : ℕ)
      → find_index_by_cid lib d k ≡ some i
      → (e : Entry K) × (get_elem? d i ≡ some e) × (matches lib e k ≡ true)
  unfolding find_index_by_cid
  find_index_some [] k i h = cc
  find_index_some (e ∷ es) k i h = elim (Bool-cases (matches lib e k)) [
    | inl m ↦ let at : i ≡ 0 = ground arith in rw at (e, refl, m)
    | inr m ↦ elim (Option-cases (find_index_by_cid lib es k)) [
      | inl n ↦ absurd (ground arith)
      | inr (j, n) ↦ let at : i ≡ suc j = ground arith in rw at (find_index_some es k j n)
    ]
  ]

  pub find_index_none :
      (d : Dictionary K) (k : K)
      → find_index_by_cid lib d k ≡ none
      → All (λ e. matches lib e k ≡ false) d
  unfolding find_index_by_cid
  find_index_none [] k h = tt
  find_index_none (e ∷ es) k h = ground (arith, find_index_none es k)

  -- A store goes to the first entry if that is free, and otherwise behind it.
  pub store_cases :
      (e : Entry K) (es d' : Dictionary K) (k : K) (a : ℕ)
      → store_in_first_free lib (e ∷ es) k a ≡ some d'
      → ((rest : Dictionary K) × (store_in_first_free lib es k a ≡ some rest) × (d' ≡ e ∷ rest))
        ⊎ ((e.occupied ≡ false) × (d' ≡ new_entry k a ∷ es))
  unfolding store_in_first_free
  store_cases e es d' k a h = elim (Option-cases (store_in_first_free lib es k a)) [
    | inl n ↦ inr (ground arith, ground arith)
    | inr (rest, n) ↦ elim (Bool-cases e.occupied) [
      | inl o ↦ inl (rest, n, ground arith)
      | inr o ↦ inr (o, ground arith)
    ]
  ]

  pub store_in_empty :
      (d' : Dictionary K) (k : K) (a : ℕ) → store_in_first_free lib [] k a ≢ some d'
  unfolding store_in_first_free
  store_in_empty d' k a h = cc

  pub owners-store :
      (d d' : Dictionary K) (k : K) (a b : ℕ)
      → store_in_first_free lib d k a ≡ some d'
      → owners b d' ≡ owners b d + one_at a b
  owners-store [] d' k a b h = absurd (store_in_empty d' k a h)
  owners-store (e ∷ es) d' k a b h = elim (store_cases e es d' k a h) [
    | inl (rest, n, q) ↦ rw q (omega (arith, owners-store es rest k a b n))
    | inr (o, q) ↦ rw q (ground arith)
  ]

  pub owners-clear :
      (d : Dictionary K) (i : ℕ) (e : Entry K) (b : ℕ)
      → get_elem? d i ≡ some e
      → owners b d ≡ owners b (clear_at lib i d) + owns b e
  unfolding clear_at
  owners-clear [] i e b h = cc
  owners-clear (x ∷ xs) zero e b h = let same : x ≡ e = cc in rw same (omega arith)
  owners-clear (x ∷ xs) (suc i) e b h = omega (arith, owners-clear xs i e b h)

  pub All-store {ℓ} :
      (P : Entry K → Type ℓ) (d d' : Dictionary K) (k : K) (a : ℕ)
      → store_in_first_free lib d k a ≡ some d'
      → All P d
      → P (new_entry k a)
      → All P d'
  All-store P [] d' k a h all new = absurd (store_in_empty d' k a h)
  All-store P (e ∷ es) d' k a h all new = elim (store_cases e es d' k a h) [
    | inl (rest, n, q) ↦ rw q (all.0, All-store P es rest k a n all.1 new)
    | inr (o, q) ↦ rw q (new, all.1)
  ]

  pub All-clear {ℓ} :
      (P : Entry K → Type ℓ) (d : Dictionary K) (i : ℕ)
      → All P d
      → P (zeroed_entry lib)
      → All P (clear_at lib i d)
  unfolding clear_at
  All-clear P [] i all z = tt
  All-clear P (e ∷ es) zero all z = (z, all.1)
  All-clear P (e ∷ es) (suc i) all z = (all.0, All-clear P es i all.1 z)

  pub All-get {ℓ} :
      (P : Entry K → Type ℓ) (d : Dictionary K) (i : ℕ) (e : Entry K)
      → get_elem? d i ≡ some e
      → All P d
      → P e
  All-get P [] i e h all = cc
  All-get P (x ∷ xs) zero e h all = subst P (cc) all.0
  All-get P (x ∷ xs) (suc i) e h all = All-get P xs i e h all.1

  pub length-store :
      (d d' : Dictionary K) (k : K) (a : ℕ)
      → store_in_first_free lib d k a ≡ some d'
      → length d' ≡ length d
  length-store [] d' k a h = absurd (store_in_empty d' k a h)
  length-store (e ∷ es) d' k a h = elim (store_cases e es d' k a h) [
    | inl (rest, n, q) ↦ rw q (ap suc (length-store es rest k a n))
    | inr (o, q) ↦ rw q
  ]

  pub length-clear : (d : Dictionary K) (i : ℕ) → length (clear_at lib i d) ≡ length d
  unfolding clear_at
  length-clear [] i = refl
  length-clear (e ∷ es) zero = refl
  length-clear (e ∷ es) (suc i) = ap suc (length-clear es i)
