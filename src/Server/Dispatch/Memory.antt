-- ===== src/Server/Dispatch/Memory.antt =====
-- The contexts that the server of src/coap/server/internal/srv_dispatch_engine.c owns: each lives in
-- exactly one entry of the dictionary, or is the one in flight while a request is served.
use tfg_edhoc.Base.{
  ℕ, ◌+◌, ◌≤◌, ◌≡◌, refl, ap, ◌∙◌, inl, inr, true, Option, none, some, [], ◌∷◌, arith, Option-cases,
  length, get_elem?, All,
}
use tfg_edhoc.Library.{Libedhoc}
use tfg_edhoc.Server.Session.{
  Dictionary, Entry, SetStatus, GetStatus, set_context_by_cid, get_context_by_cid,
  remove_context_by_cid, find_index_by_cid, context_at, matches,
}
use tfg_edhoc.Server.Session.Laws.{
  EqualityLaws, owns, owners, one_at, find_index_none, find_index_some, All-get, owners-store,
  owners-clear, All-store, All-clear, length-store, length-clear,
}
use tfg_edhoc.Server.Session.Laws.Map.{Distinct, set_ok, store-Distinct, clear-Distinct}
use tfg_edhoc.Server.Dispatch.{State, update, put}

abbrev pub live : {C : Type 0} → Option C → ℕ
live none = 0
live (some c) = 1

live_le : {C : Type 0} (o : Option C) → live o ≤ 1
live_le none = omega arith
live_le (some c) = omega arith

one_at_self : (a : ℕ) → one_at a a ≡ 1
one_at_self a = ground arith

module _ {C K : Type 0} (lib : Libedhoc C K) where
  -- An occupied entry points to a live context whose own identifier is that of the entry.
  abbrev pub Bound : (ℕ → Option C) → Entry K → Type 0
  Bound heap e =
      e.occupied ≡ true
      → (a : ℕ) × (c : C) × (e.context ≡ some a)
        × (heap a ≡ some c)
        × (lib.private_cid c ≡ e.connection_id)

  -- Entries that do not hold `a` are bound as before when `a` is written.
  Bound-update :
      (h : ℕ → Option C) (a : ℕ) (v : Option C) (d : Dictionary K)
      → owners a d ≡ 0
      → All (Bound h) d
      → All (Bound (update h a v)) d
  Bound-update h a v [] none_own b = tt
  Bound-update h a v (e ∷ es) none_own b = (
    λ o. let (x, c, at, holds, cid) = b.0 o in (x, c, at, ground (arith, holds), cid),
    Bound-update h a v es (omega arith) b.1,
  )

module _ {C K X : Type 0} (lib : Libedhoc C K) where
  -- Between two requests.
  pub record Inv (s : State C K X) : Type 0 where
    -- As many entries hold an address as there are live contexts at it: none is lost, none is held
    -- twice, and no entry points to freed memory.
    pub accounted : (a : ℕ) → owners a s.dictionary ≡ live (s.heap a)
    pub fresh : (a : ℕ) → s.next ≤ a → s.heap a ≡ none
    pub capacity : length s.dictionary ≡ 10
    pub bound : All (Bound lib s.heap) s.dictionary
    pub distinct : Distinct lib s.dictionary

  -- While the context at `a`, which holds `c`, belongs to the handler.
  pub record InFlight (a : ℕ) (c : C) (s : State C K X) : Type 0 where
    pub holds : s.heap a ≡ some c
    pub accounted : (b : ℕ) → owners b s.dictionary + one_at a b ≡ live (s.heap b)
    pub fresh : (b : ℕ) → s.next ≤ b → s.heap b ≡ none
    pub capacity : length s.dictionary ≡ 10
    pub bound : All (Bound lib s.heap) s.dictionary
    pub distinct : Distinct lib s.dictionary

  module _ (a : ℕ) (c : C) (s : State C K X) (f : InFlight a c s) where
    not_owned : owners a s.dictionary ≡ 0
    not_owned = omega (arith, f.accounted a, one_at_self a, live_le (s.heap a))

    pub put-InFlight : (c' : C) → InFlight a c' (put a c' s)
    put-InFlight c' = record {
      holds = ground arith;
      accounted = λ b. ground (arith, f.accounted b, f.holds);
      fresh = λ b h. ground (arith, f.fresh b h, f.holds);
      capacity = f.capacity;
      bound = Bound-update lib s.heap a (some c') s.dictionary not_owned f.bound;
      distinct = f.distinct;
    }

    pub free-Inv : Inv (record s { heap = update s.heap a none })
    free-Inv = record {
      accounted = λ b. ground (arith, f.accounted b, not_owned);
      fresh = λ b h. ground (arith, f.fresh b h);
      capacity = f.capacity;
      bound = Bound-update lib s.heap a none s.dictionary not_owned f.bound;
      distinct = f.distinct;
    }

owns_one :
    {K : Type 0} (e : Entry K) (a b : ℕ)
    → e.occupied ≡ true
    → e.context ≡ some a
    → owns b e ≡ one_at a b
owns_one e a b o at = rw (o, at)

module _ {C K : Type 0} (lib : Libedhoc C K) where
  get_ok :
      (d : Dictionary K) (k : K)
      → (get_context_by_cid lib (some k) d).status ≡ GetStatus.ok
      → (i : ℕ) × (find_index_by_cid lib d k ≡ some i)
  unfolding get_context_by_cid
  get_ok d k h = elim (Option-cases (find_index_by_cid lib d k)) [
    | inl n ↦ absurd (ground arith)
    | inr r ↦ r
  ]

module _ {C K X : Type 0} (lib : Libedhoc C K) where
  -- A new context is in flight.
  pub alloc-InFlight :
      (s : State C K X) (c : C)
      → Inv lib s
      → InFlight lib s.next c (put s.next c (record s { next = s.next + 1 }))
  alloc-InFlight s c v =
      let none_own : owners s.next s.dictionary ≡ 0 =
        v.accounted s.next ∙ ap live (v.fresh s.next (omega arith)) in
      record {
        holds = ground arith;
        accounted = λ b. ground (arith, v.accounted b, none_own);
        fresh = λ b h. ground (arith, v.fresh b);
        capacity = v.capacity;
        bound = Bound-update lib s.heap s.next (some c) s.dictionary none_own v.bound;
        distinct = v.distinct;
      }

  -- Stored under its own identifier, it belongs to the dictionary.
  pub store-Inv :
      (eq : EqualityLaws lib) (a : ℕ) (c : C) (s : State C K X) (d' : Dictionary K)
      → InFlight lib a c s
      → set_context_by_cid lib (some (lib.private_cid c)) (some a) s.dictionary ≡ (SetStatus.ok, d')
      → Inv lib (record s { dictionary = d' })
  store-Inv eq a c s d' f h =
      let (new, stored) = set_ok lib s.dictionary d' (lib.private_cid c) a h in
      record {
        accounted =
            λ b. omega (arith, owners-store lib s.dictionary d' _ a b stored, f.accounted b);
        fresh = f.fresh;
        capacity = length-store lib s.dictionary d' _ a stored ∙ f.capacity;
        bound =
            All-store lib (Bound lib s.heap) s.dictionary d' _ a stored f.bound
              (λ _. (a, c, refl, f.holds, refl));
        distinct =
            store-Distinct lib eq s.dictionary d' _ a stored
              (find_index_none lib s.dictionary _ new) f.distinct;
      }

  -- What a look-up under `k` finds: a live context with an equal identifier, which is in flight once
  -- its entry is removed.
  pub record Found (k : K) (s : State C K X) : Type 0 where
    pub address : ℕ
    pub context : C
    pub points : (get_context_by_cid lib (some k) s.dictionary).context ≡ some address
    pub holds : s.heap address ≡ some context
    pub same_cid : lib.connection_id_equal (lib.private_cid context) k ≡ true
    pub in_flight :
        InFlight lib address context
          (record s { dictionary = (remove_context_by_cid lib (some k) s.dictionary).1 })

  Found-at :
      (k : K) (s : State C K X) (i : ℕ) (e : Entry K) (a : ℕ) (c : C)
      → Inv lib s
      → find_index_by_cid lib s.dictionary k ≡ some i
      → get_elem? s.dictionary i ≡ some e
      → matches lib e k ≡ true
      → e.context ≡ some a
      → s.heap a ≡ some c
      → lib.private_cid c ≡ e.connection_id
      → Found k s
  unfolding get_context_by_cid context_at remove_context_by_cid matches
  Found-at k s i e a c v found at m points holds cid =
      let occupied : e.occupied ≡ true = ground arith in
      record {
        address = a;
        context = c;
        points = rw (get_context_by_cid, found, context_at, at, points);
        holds = holds;
        same_cid = rw cid (ground arith);
        in_flight =
            rw (remove_context_by_cid, found)
              (record {
                holds = holds;
                accounted = λ b. omega (
                  arith,
                  owners-clear lib s.dictionary i e b at,
                  owns_one e a b occupied points,
                  v.accounted b,
                );
                fresh = v.fresh;
                capacity = length-clear lib s.dictionary i ∙ v.capacity;
                bound = All-clear lib (Bound lib s.heap) s.dictionary i v.bound (λ o. cc);
                distinct = clear-Distinct lib s.dictionary i v.distinct;
              });
      }

  pub get-Found :
      (k : K) (s : State C K X)
      → Inv lib s
      → (get_context_by_cid lib (some k) s.dictionary).status ≡ GetStatus.ok
      → Found k s
  unfolding matches
  get-Found k s v h =
      let (i, found) = get_ok lib s.dictionary k h in
      let (e, at, m) = find_index_some lib s.dictionary k i found in
      let (a, c, points, holds, cid) =
        All-get lib (Bound lib s.heap) s.dictionary i e at v.bound (ground (arith, m)) in
      Found-at k s i e a c v found at m points holds cid
