-- ===== src/Server/Session.antt =====
-- src/coap/server/internal/srv_session.h and srv_session.c: the dictionary of the handshakes under
-- way. A context is known by its address; NULL is `none`.
pub mod Laws
pub mod Refinement
use tfg_edhoc.Base.{
  ℕ, zero, suc, ◌+◌, ◌-◌, ◌*◌, ◌/◌, ◌%◌, ◌≤◌, ◌<◌, ◌≡◌, refl, sym, ap, subst, ◌∙◌, ◌≢◌, ◌⊎◌, inl,
  inr, Bool, true, false, not, ◌&&◌, ◌||◌, Option, none, some, List, [], ◌∷◌, ◌++◌, map, append-nil,
  append_assoc, arith, ltb, leb, ◌==◌, if◌then◌else◌, is_some, or_else, same_address, ◌>>=◌,
  Bool-cases, Option-cases, same_address_eq, same_address_refl, length, get_elem?, write, replicate,
  take, last_or, length-append, length-replicate, length-map, write-append, All, write_next,
  take-append, All-append,
}
use tfg_edhoc.Library.{Libedhoc}

abbrev pub max_capacity : ℕ
max_capacity = 10

pub record Entry (K : Type 0) : Type 0 where
  pub connection_id : K
  pub context : Option ℕ
  pub occupied : Bool

abbrev pub Dictionary : Type 0 → Type 0
Dictionary K = List (Entry K)

pub data SetStatus : Type 0 where
  ok err_full err_duplicate_cid err_null_context err_invalid_cid : SetStatus

pub data GetStatus : Type 0 where
  ok err_not_found err_invalid_cid : GetStatus

pub record GetResult : Type 0 where
  pub status : GetStatus
  pub context : Option ℕ

pub data RemoveStatus : Type 0 where
  ok err_not_found err_invalid_cid : RemoveStatus

module _ {C K : Type 0} (lib : Libedhoc C K) where
  abbrev pub zeroed_entry : Entry K
  zeroed_entry = record { connection_id = lib.zeroed_cid; context = none; occupied = false }

  abbrev pub empty_dictionary : Dictionary K
  empty_dictionary = replicate max_capacity zeroed_entry

  unfoldable pub matches : Entry K → K → Bool
  matches e cid = e.occupied && lib.connection_id_equal e.connection_id cid

  -- `none` is SRV_SESSION_SEARCH_NOT_FOUND.
  unfoldable pub find_index_by_cid : Dictionary K → K → Option ℕ
  find_index_by_cid [] cid = none
  find_index_by_cid (e ∷ es) cid = elim (matches e cid) [
    | true ↦ some 0
    | false ↦ find_index_by_cid es cid >>= λ i. some (suc i)
  ]

  -- The loop that looks for a free entry; `none` if it runs off the end.
  unfoldable pub store_in_first_free : Dictionary K → K → ℕ → Option (Dictionary K)
  store_in_first_free [] cid context = none
  store_in_first_free (e ∷ es) cid context = elim e.occupied [
    | false ↦ some (record { connection_id = cid; context = some context; occupied = true } ∷ es)
    | true ↦ store_in_first_free es cid context >>= λ rest. some (e ∷ rest)
  ]

  unfoldable pub set_context_by_cid : Option K → Option ℕ → Dictionary K → SetStatus × Dictionary K
  set_context_by_cid none context d = (err_invalid_cid, d)
  set_context_by_cid (some cid) none d = (err_null_context, d)
  set_context_by_cid (some cid) (some context) d = elim (find_index_by_cid d cid) [
    | some i ↦ (err_duplicate_cid, d)
    | none ↦ elim (store_in_first_free d cid context) [ none ↦ (err_full, d) | some d' ↦ (ok, d') ]
  ]

  abbrev get_failure : GetStatus → GetResult
  get_failure s = record { status = s; context = none }

  -- `session_dictionary[index].context`
  unfoldable pub context_at : Dictionary K → ℕ → Option ℕ
  context_at d i = get_elem? d i >>= λ e. e.context

  unfoldable pub get_context_by_cid : Option K → Dictionary K → GetResult
  unfolding context_at
  get_context_by_cid none d = get_failure err_invalid_cid
  get_context_by_cid (some cid) d = elim (find_index_by_cid d cid) [
    | none ↦ get_failure err_not_found
    | some i ↦ record { status = ok; context = context_at d i }
  ]

  unfoldable pub clear_at : ℕ → Dictionary K → Dictionary K
  clear_at i [] = []
  clear_at zero (e ∷ es) = zeroed_entry ∷ es
  clear_at (suc i) (e ∷ es) = e ∷ clear_at i es

  unfoldable pub remove_context_by_cid : Option K → Dictionary K → RemoveStatus × Dictionary K
  remove_context_by_cid none d = (err_invalid_cid, d)
  remove_context_by_cid (some cid) d = elim (find_index_by_cid d cid) [
    | none ↦ (err_not_found, d)
    | some i ↦ (ok, clear_at i d)
  ]
