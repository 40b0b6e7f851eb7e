-- ===== src/Server/Session/Laws/Map.antt =====
-- The dictionary of src/coap/server/internal/srv_session.c as a finite map: what a look-up gives
-- after a store or a removal, for every identifier.
use tfg_edhoc.Base.{
  ℕ, zero, suc, ◌≡◌, refl, ◌∙◌, inl, inr, true, false, Option, none, some, [], ◌∷◌, arith,
  if◌then◌else◌, Bool-cases, Option-cases, All,
}
use tfg_edhoc.Library.{Libedhoc}
use tfg_edhoc.Server.Session.{
  Dictionary, Entry, SetStatus, RemoveStatus, matches, find_index_by_cid, store_in_first_free,
  set_context_by_cid, context_at, get_context_by_cid, clear_at, remove_context_by_cid, zeroed_entry,
}
use tfg_edhoc.Server.Session.Laws.{
  EqualityLaws, new_entry, store_cases, store_in_empty, find_index_none, All-store, All-clear,
}

module _ {C K : Type 0} (lib : Libedhoc C K) where
  -- What the program reads under an identifier.
  abbrev pub lookup : K → Dictionary K → Option ℕ
  lookup k d = (get_context_by_cid lib (some k) d).context

  -- The context of the first entry that matches.
  abbrev first_match : K → Dictionary K → Option ℕ
  first_match k [] = none
  first_match k (e ∷ es) =
      let rest = first_match k es in if matches lib e k then e.context else rest

  -- Two entries under way have different identifiers.
  abbrev pub Apart : Entry K → Entry K → Type 0
  Apart e f =
      e.occupied ≡ true
      → f.occupied ≡ true
      → lib.connection_id_equal e.connection_id f.connection_id ≡ false

  abbrev pub Distinct : Dictionary K → Type 0
  Distinct [] = Unit {0}
  Distinct (e ∷ es) = All (Apart e) es × Distinct es

  lookup_lem : (k : K) (d : Dictionary K) → lookup k d ≡ first_match k d
  unfolding get_context_by_cid find_index_by_cid context_at
  lookup_lem k [] = refl
  lookup_lem k (e ∷ es) = ground (arith, lookup_lem k es)

  first_match-none :
      (k : K) (d : Dictionary K) → All (λ e. matches lib e k ≡ false) d → first_match k d ≡ none
  first_match-none k [] h = refl
  first_match-none k (e ∷ es) h = rw h.0 (first_match-none k es h.1)

  pub set_ok :
      (d d' : Dictionary K) (k : K) (a : ℕ)
      → set_context_by_cid lib (some k) (some a) d ≡ (SetStatus.ok, d')
      → (find_index_by_cid lib d k ≡ none) × (store_in_first_free lib d k a ≡ some d')
  unfolding set_context_by_cid
  set_ok d d' k a h = ground arith

  pub remove_ok :
      (d d' : Dictionary K) (k : K)
      → remove_context_by_cid lib (some k) d ≡ (RemoveStatus.ok, d')
      → (i : ℕ) × (find_index_by_cid lib d k ≡ some i) × (d' ≡ clear_at lib i d)
  unfolding remove_context_by_cid
  remove_ok d d' k h = elim (Option-cases (find_index_by_cid lib d k)) [
    | inl n ↦ absurd (ground arith)
    | inr (i, n) ↦ (i, n, ground arith)
  ]

module _ {C K : Type 0} (lib : Libedhoc C K) where
  pub clear-Distinct : (d : Dictionary K) (i : ℕ) → Distinct lib d → Distinct lib (clear_at lib i d)
  unfolding clear_at
  clear-Distinct [] i w = tt
  clear-Distinct (e ∷ es) zero w = (free_apart es, w.1)
    where
      free_apart : (xs : Dictionary K) → All (Apart lib (zeroed_entry lib)) xs
      free_apart [] = tt
      free_apart (x ∷ xs) = (λ o _. cc, free_apart xs)
  clear-Distinct (e ∷ es) (suc i) w =
      (All-clear lib (Apart lib e) es i w.0 (λ _ o. cc), clear-Distinct es i w.1)

module _ {C K : Type 0} (lib : Libedhoc C K) (eq : EqualityLaws lib) where
  -- Equal identifiers match the same entries.
  matches_congr :
      (e : Entry K) (j k : K)
      → lib.connection_id_equal k j ≡ true
      → matches lib e j ≡ matches lib e k
  unfolding matches
  matches_congr e j k h = rw (
    eq.symmetric e.connection_id j,
    eq.symmetric e.connection_id k,
    eq.congruent k j e.connection_id h,
  )

  first_match-store :
      (d d' : Dictionary K) (k j : K) (a : ℕ)
      → store_in_first_free lib d k a ≡ some d'
      → All (λ e. matches lib e k ≡ false) d
      → first_match lib j d' ≡ (if lib.connection_id_equal k j then some a else first_match lib j d)
  first_match-store [] d' k j a h all = absurd (store_in_empty lib d' k a h)
  first_match-store (e ∷ es) d' k j a h all = elim (store_cases lib e es d' k a h) [
    | inl (rest, n, q) ↦
        rw q (ground (arith, first_match-store es rest k j a n all.1, matches_congr e j k))
    | inr (o, q) ↦ rw q (unfold matches in ground (arith))
  ]

  -- After a successful store, a look-up gives the new context under the identifiers equal to the
  -- stored one, and what it gave before under all others; the equality of identifiers is an
  -- equivalence.
  pub get-set :
      (d d' : Dictionary K) (k j : K) (a : ℕ)
      → set_context_by_cid lib (some k) (some a) d ≡ (SetStatus.ok, d')
      → lookup lib j d' ≡ (if lib.connection_id_equal k j then some a else lookup lib j d)
  get-set d d' k j a h =
      let (new, stored) = set_ok lib d d' k a h in
      rw (lookup_lem lib j d', lookup_lem lib j d)
        (first_match-store d d' k j a stored (find_index_none lib d k new))

  -- No entry apart from one that matches `j` matches `j` too.
  unmatched_of_Apart :
      (e : Entry K) (xs : Dictionary K) (j : K)
      → All (Apart lib e) xs
      → matches lib e j ≡ true
      → All (λ f. matches lib f j ≡ false) xs
  unfolding matches
  unmatched_of_Apart e [] j w m = tt
  unmatched_of_Apart e (f ∷ fs) j w m = (
    ground (
      arith,
      eq.congruent e.connection_id j f.connection_id,
      eq.symmetric f.connection_id j,
      w.0,
    ),
    unmatched_of_Apart e fs j w.1 m,
  )

  -- An entry that matches `k` does not match what differs from `k`.
  matches_other :
      (e : Entry K) (j k : K)
      → matches lib e k ≡ true
      → lib.connection_id_equal k j ≡ false
      → matches lib e j ≡ false
  unfolding matches
  matches_other e j k m h = ground (arith, eq.congruent e.connection_id k j)

  first_match-cleared :
      (e : Entry K) (es : Dictionary K) (k j : K)
      → All (Apart lib e) es
      → matches lib e k ≡ true
      → first_match lib j es
        ≡ (if lib.connection_id_equal k j then none else first_match lib j (e ∷ es))
  first_match-cleared e es k j w m = elim (Bool-cases (lib.connection_id_equal k j)) [
    | inl q ↦
        rw q (first_match-none lib j es (unmatched_of_Apart e es j w (matches_congr e j k q ∙ m)))
    | inr q ↦ rw (q, matches_other e j k m q)
  ]

  first_match-clear :
      (d : Dictionary K) (k j : K) (i : ℕ)
      → Distinct lib d
      → find_index_by_cid lib d k ≡ some i
      → first_match lib j (clear_at lib i d)
        ≡ (if lib.connection_id_equal k j then none else first_match lib j d)
  unfolding find_index_by_cid clear_at
  first_match-clear [] k j i w h = cc
  first_match-clear (e ∷ es) k j i w h = elim (Bool-cases (matches lib e k)) [
    | inl m ↦
        let at : i ≡ 0 = ground arith in
        rw (at, clear_at) (unfold matches in first_match-cleared e es k j w.0 m)
    | inr m ↦ elim (Option-cases (find_index_by_cid lib es k)) [
      | inl n ↦ absurd (ground arith)
      | inr (i', n) ↦
          let at : i ≡ suc i' = ground arith in
          rw at (ground (arith, first_match-clear es k j i' w.1 n, matches_congr e j k))
    ]
  ]

  -- After a successful removal from a dictionary whose occupied entries have different identifiers,
  -- a look-up finds nothing under the identifiers equal to the removed one, and what it found
  -- before under all others; the equality of identifiers is an equivalence.
  pub get-remove :
      (d d' : Dictionary K) (k j : K)
      → Distinct lib d
      → remove_context_by_cid lib (some k) d ≡ (RemoveStatus.ok, d')
      → lookup lib j d' ≡ (if lib.connection_id_equal k j then none else lookup lib j d)
  get-remove d d' k j w h =
      let (i, found, cleared) = remove_ok lib d d' k h in
      rw (lookup_lem lib j d', lookup_lem lib j d, cleared) (first_match-clear d k j i w found)

  pub store-Distinct :
      (d d' : Dictionary K) (k : K) (a : ℕ)
      → store_in_first_free lib d k a ≡ some d'
      → All (λ e. matches lib e k ≡ false) d
      → Distinct lib d
      → Distinct lib d'
  store-Distinct [] d' k a h all w = absurd (store_in_empty lib d' k a h)
  store-Distinct (e ∷ es) d' k a h all w = elim (store_cases lib e es d' k a h) [
    | inl (rest, n, q) ↦ rw q (
      All-store lib (Apart lib e) es rest k a n w.0 (unfold matches in λ o _. ground (arith)),
      store-Distinct es rest k a n all.1 w.1,
    )
    | inr (o, q) ↦ rw q (new_apart es all.1, w.1)
  ]
    where
      new_apart :
          (xs : Dictionary K)
          → All (λ e. matches lib e k ≡ false) xs
          → All (Apart lib (new_entry k a)) xs
      new_apart [] h = tt
      new_apart (x ∷ xs) h = (
        λ _ o. unfold matches in ground (arith, eq.symmetric x.connection_id k),
        new_apart xs h.1,
      )
