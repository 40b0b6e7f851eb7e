-- ===== src/Server/Session/Refinement.antt =====
-- The dictionary of src/coap/server/internal/srv_session.c refines a finite map from identifiers to
-- addresses of contexts: every sequence of stores and removals from the empty dictionary is one of
-- updates of the map, and an operation that fails has a reason that the map or the capacity shows.
pub mod Laws
use tfg_edhoc.Base.{
  ℕ, zero, suc, ◌+◌, ◌-◌, ◌*◌, ◌/◌, ◌%◌, ◌≤◌, ◌<◌, ◌≡◌, refl, sym, ap, subst, ◌∙◌, ◌≢◌, ◌⊎◌, inl,
  inr, Bool, true, false, not, ◌&&◌, ◌||◌, Option, none, some, List, [], ◌∷◌, ◌++◌, map, append-nil,
  append_assoc, arith, ltb, leb, ◌==◌, if◌then◌else◌, is_some, or_else, same_address, ◌>>=◌,
  Bool-cases, Option-cases, same_address_eq, same_address_refl, length, get_elem?, write, replicate,
  take, last_or, length-append, length-replicate, length-map, write-append, All, write_next,
  take-append, All-append, drop,
}
use tfg_edhoc.Library.{Libedhoc}
use tfg_edhoc.Server.Session.{
  Dictionary, Entry, SetStatus, RemoveStatus, matches, find_index_by_cid, store_in_first_free,
  set_context_by_cid, get_context_by_cid, context_at, remove_context_by_cid, clear_at, zeroed_entry,
  empty_dictionary,
}
use tfg_edhoc.Server.Session.Laws.{
  EqualityLaws, find_index_some, find_index_none, All-store, All-clear, All-get,
}
use tfg_edhoc.Server.Session.Laws.Map.{
  lookup, Apart, Distinct, get-set, get-remove, store-Distinct, clear-Distinct,
}

pub data Operation (K : Type 0) : Type 0 where
  store : K → ℕ → Operation K
  discard : K → Operation K

abbrev pub set_succeeds : SetStatus → Bool
set_succeeds SetStatus.ok = true
set_succeeds _ = false

abbrev pub remove_succeeds : RemoveStatus → Bool
remove_succeeds RemoveStatus.ok = true
remove_succeeds _ = false

-- An occupied entry holds a context.
abbrev pub HoldsContext : {K : Type 0} → Entry K → Type 0
HoldsContext e = e.occupied ≡ true → is_some e.context ≡ true

module _ {C K : Type 0} (lib : Libedhoc C K) where
  abbrev pub perform : Operation K → Dictionary K → Dictionary K
  perform (store k a) d = (set_context_by_cid lib (some k) (some a) d).1
  perform (discard k) d = (remove_context_by_cid lib (some k) d).1

  abbrev pub succeeds : Operation K → Dictionary K → Bool
  succeeds (store k a) d = set_succeeds (set_context_by_cid lib (some k) (some a) d).0
  succeeds (discard k) d = remove_succeeds (remove_context_by_cid lib (some k) d).0

  -- The operation on the map, if it succeeds.
  abbrev pub apply : Operation K → Bool → (K → Option ℕ) → K → Option ℕ
  apply op false m j = m j
  apply (store k a) true m j = if lib.connection_id_equal k j then some a else m j
  apply (discard k) true m j = if lib.connection_id_equal k j then none else m j

  -- Why an operation succeeded or not: a new identifier is stored, an identifier that is in use or a
  -- full dictionary is refused, and exactly an identifier in use is removed.
  abbrev pub Justified : Operation K → Bool → Dictionary K → (K → Option ℕ) → Type 0
  Justified (store k a) true d m = m k ≡ none
  Justified (store k a) false d m = (is_some (m k) ≡ true) ⊎ All (λ e. e.occupied ≡ true) d
  Justified (discard k) true d m = is_some (m k) ≡ true
  Justified (discard k) false d m = m k ≡ none

  -- At every step the dictionary shows the map, and the outcome is justified.
  abbrev pub Refines : List (Operation K) → Dictionary K → (K → Option ℕ) → Type 0
  Refines [] d m = (j : K) → lookup lib j d ≡ m j
  Refines (op ∷ ops) d m =
      ((j : K) → lookup lib j d ≡ m j)
      × Justified op (succeeds op d) d m
      × Refines ops (perform op d) (apply op (succeeds op d) m)

  pub record Sound (d : Dictionary K) : Type 0 where
    pub distinct : Distinct lib d
    pub holding : All HoldsContext d

  pub full_of_unstored :
      (d : Dictionary K) (k : K) (a : ℕ)
      → store_in_first_free lib d k a ≡ none
      → All (λ e. e.occupied ≡ true) d
  unfolding store_in_first_free
  full_of_unstored [] k a h = tt
  full_of_unstored (e ∷ es) k a h = (ground (arith, h), full_of_unstored es k a (ground (arith, h)))

  pub lookup_of_none :
      (d : Dictionary K) (k : K) → find_index_by_cid lib d k ≡ none → lookup lib k d ≡ none
  unfolding get_context_by_cid
  lookup_of_none d k n = ground (arith, n)

  pub lookup_of_some :
      (d : Dictionary K) (k : K) (i : ℕ)
      → All HoldsContext d
      → find_index_by_cid lib d k ≡ some i
      → is_some (lookup lib k d) ≡ true
  unfolding get_context_by_cid context_at matches
  lookup_of_some d k i all n =
      let (e, at, m) = find_index_some lib d k i n in
      ground (arith, n, at, m, All-get lib HoldsContext d i e at all)

  pub find_in_zeroed :
      (j : K) (n : ℕ) → find_index_by_cid lib (replicate n (zeroed_entry lib)) j ≡ none
  unfolding find_index_by_cid matches
  find_in_zeroed j zero = refl
  find_in_zeroed j (suc n) = rw (find_in_zeroed j n)

  pub every_zeroed :
      (Q : Entry K → Type 0) (n : ℕ) → Q (zeroed_entry lib) → All Q (replicate n (zeroed_entry lib))
  every_zeroed Q zero h = tt
  every_zeroed Q (suc n) h = (h, every_zeroed Q n h)

  pub replicate-Distinct : (n : ℕ) → Distinct lib (replicate n (zeroed_entry lib))
  replicate-Distinct zero = tt
  replicate-Distinct (suc n) =
      (every_zeroed (Apart lib (zeroed_entry lib)) n (λ o p. cc), replicate-Distinct n)

  pub set_duplicate :
      (d : Dictionary K) (k : K) (a i : ℕ)
      → find_index_by_cid lib d k ≡ some i
      → set_context_by_cid lib (some k) (some a) d ≡ (SetStatus.err_duplicate_cid, d)
  unfolding set_context_by_cid
  set_duplicate d k a i n = ground (arith, n)

  pub set_full :
      (d : Dictionary K) (k : K) (a : ℕ)
      → find_index_by_cid lib d k ≡ none
      → store_in_first_free lib d k a ≡ none
      → set_context_by_cid lib (some k) (some a) d ≡ (SetStatus.err_full, d)
  unfolding set_context_by_cid
  set_full d k a n full = ground (arith, n, full)

  pub set_stored :
      (d d' : Dictionary K) (k : K) (a : ℕ)
      → find_index_by_cid lib d k ≡ none
      → store_in_first_free lib d k a ≡ some d'
      → set_context_by_cid lib (some k) (some a) d ≡ (SetStatus.ok, d')
  unfolding set_context_by_cid
  set_stored d d' k a n stored = ground (arith, n, stored)

  pub remove_unknown :
      (d : Dictionary K) (k : K)
      → find_index_by_cid lib d k ≡ none
      → remove_context_by_cid lib (some k) d ≡ (RemoveStatus.err_not_found, d)
  unfolding remove_context_by_cid
  remove_unknown d k n = ground (arith, n)

  pub remove_found :
      (d : Dictionary K) (k : K) (i : ℕ)
      → find_index_by_cid lib d k ≡ some i
      → remove_context_by_cid lib (some k) d ≡ (RemoveStatus.ok, clear_at lib i d)
  unfolding remove_context_by_cid
  remove_found d k i n = ground (arith, n)
