-- ===== src/Server/Session/Refinement/Laws.antt =====
-- Every operation of src/coap/server/internal/srv_session.c is a step of the finite map that its dictionary shows.
use tfg_edhoc.Base.{
  ℕ, ◌≡◌, refl, sym, ap, subst, ◌∙◌, inl, inr, Bool, true, false, Option, none, some, List, [], ◌∷◌,
  is_some, Option-cases,
}
use tfg_edhoc.Library.{Libedhoc}
use tfg_edhoc.Server.Session.{
  Dictionary, SetStatus, RemoveStatus, find_index_by_cid, store_in_first_free, set_context_by_cid,
  remove_context_by_cid, clear_at, empty_dictionary,
}
use tfg_edhoc.Server.Session.Laws.{EqualityLaws, find_index_none, All-store, All-clear}
use tfg_edhoc.Server.Session.Laws.Map.{lookup, get-set, get-remove, store-Distinct, clear-Distinct}
use tfg_edhoc.Server.Session.Refinement.{
  Operation, store, discard, set_succeeds, remove_succeeds, HoldsContext, perform, succeeds, apply,
  Justified, Refines, Sound, full_of_unstored, lookup_of_none, lookup_of_some, find_in_zeroed,
  every_zeroed, replicate-Distinct, set_duplicate, set_full, set_stored, remove_unknown,
  remove_found,
}

module _ {C K : Type 0} (lib : Libedhoc C K) (eq : EqualityLaws lib) where
  -- One operation that leaves `after`, with success or not.
  abbrev StepTo : Operation K → Dictionary K → Bool → Dictionary K → Type 0
  StepTo op d success after =
      ((j : K) → lookup lib j after ≡ apply lib op success (λ i. lookup lib i d) j)
      × Justified lib op success d (λ i. lookup lib i d)
      × Sound lib after

  abbrev StepOf : Operation K → Dictionary K → Type 0
  StepOf op d = StepTo op d (succeeds lib op d) (perform lib op d)

  store-StepOf : (k : K) (a : ℕ) (d : Dictionary K) → Sound lib d → StepOf (store k a) d
  store-StepOf k a d s = elim (Option-cases (find_index_by_cid lib d k)) [
    | inr (i, n) ↦
        by_result (set_duplicate lib d k a i n)
          (λ j. refl, inl (lookup_of_some lib d k i s.holding n), s)
    | inl n ↦ elim (Option-cases (store_in_first_free lib d k a)) [
      | inl full ↦
          by_result (set_full lib d k a n full)
            (λ j. refl, inr (full_of_unstored lib d k a full), s)
      | inr (d', stored) ↦
          let done = set_stored lib d d' k a n stored in
          by_result done (
            λ j. get-set lib eq d d' k j a done,
            lookup_of_none lib d k n,
            record {
              distinct =
                  store-Distinct lib eq d d' k a stored (find_index_none lib d k n) s.distinct;
              holding = All-store lib HoldsContext d d' k a stored s.holding (λ o. refl);
            },
          )
    ]
  ]
    where
      by_result :
          {r : SetStatus × Dictionary K}
          → set_context_by_cid lib (some k) (some a) d ≡ r
          → StepTo (store k a) d (set_succeeds r.0) r.1
          → StepOf (store k a) d
      by_result e h = subst (λ r. StepTo (store k a) d (set_succeeds r.0) r.1) (sym e) h

  discard-StepOf : (k : K) (d : Dictionary K) → Sound lib d → StepOf (discard k) d
  discard-StepOf k d s = elim (Option-cases (find_index_by_cid lib d k)) [
    | inl n ↦ by_result (remove_unknown lib d k n) (λ j. refl, lookup_of_none lib d k n, s)
    | inr (i, n) ↦
        let done = remove_found lib d k i n in
        by_result done (
          λ j. get-remove lib eq d (clear_at lib i d) k j s.distinct done,
          lookup_of_some lib d k i s.holding n,
          record {
            distinct = clear-Distinct lib d i s.distinct;
            holding = All-clear lib HoldsContext d i s.holding (λ o. cc);
          },
        )
  ]
    where
      by_result :
          {r : RemoveStatus × Dictionary K}
          → remove_context_by_cid lib (some k) d ≡ r
          → StepTo (discard k) d (remove_succeeds r.0) r.1
          → StepOf (discard k) d
      by_result e h = subst (λ r. StepTo (discard k) d (remove_succeeds r.0) r.1) (sym e) h

  step-StepOf : (op : Operation K) (d : Dictionary K) → Sound lib d → StepOf op d
  step-StepOf (store k a) d s = store-StepOf k a d s
  step-StepOf (discard k) d s = discard-StepOf k d s

  apply_congr :
      (op : Operation K) (b : Bool) (m n : K → Option ℕ)
      → ((j : K) → m j ≡ n j)
      → (j : K) → apply lib op b m j ≡ apply lib op b n j
  apply_congr op false m n e j = e j
  apply_congr (store k a) true m n e j = rw (e j) refl
  apply_congr (discard k) true m n e j = rw (e j) refl

  congr-Justified :
      (op : Operation K) (b : Bool) (d : Dictionary K) (m n : K → Option ℕ)
      → ((j : K) → m j ≡ n j)
      → Justified lib op b d m
      → Justified lib op b d n
  congr-Justified (store k a) true d m n e h = sym (e k) ∙ h
  congr-Justified (store k a) false d m n e (inl h) = inl (sym (ap is_some (e k)) ∙ h)
  congr-Justified (store k a) false d m n e (inr h) = inr h
  congr-Justified (discard k) true d m n e h = sym (ap is_some (e k)) ∙ h
  congr-Justified (discard k) false d m n e h = sym (e k) ∙ h

  Sound-Refines :
      (ops : List (Operation K)) (d : Dictionary K) (m : K → Option ℕ)
      → ((j : K) → lookup lib j d ≡ m j)
      → Sound lib d
      → Refines lib ops d m
  Sound-Refines [] d m e s = e
  Sound-Refines (op ∷ ops) d m e s =
      let (shows, justified, sound) = step-StepOf op d s in
      let b = succeeds lib op d in
      (
        e,
        congr-Justified op b d (λ i. lookup lib i d) m e justified,
        Sound-Refines ops (perform lib op d) (apply lib op b m)
            (λ j. shows j ∙ apply_congr op b (λ i. lookup lib i d) m e j) sound,
      )

  -- From the empty dictionary, whatever is stored and removed, the dictionary shows after each
  -- operation what a map from identifiers to addresses shows after the updates that succeeded. A store
  -- succeeds exactly if its identifier is not in use, unless every entry is occupied, and a removal
  -- exactly if its identifier is in use. The equality of identifiers is an equivalence.
  pub empty_dictionary-Refines :
      (ops : List (Operation K)) → Refines lib ops (empty_dictionary lib) (λ j. none)
  empty_dictionary-Refines ops =
      Sound-Refines ops (empty_dictionary lib) (λ j. none) unknown
        (record {
          distinct = replicate-Distinct lib 10;
          holding = every_zeroed lib HoldsContext 10 (λ o. cc);
        })
    where
      unknown : (j : K) → lookup lib j (empty_dictionary lib) ≡ none
      unknown j = lookup_of_none lib (empty_dictionary lib) j (find_in_zeroed lib j 10)
