-- ===== src/Examples/SessionExamples.antt =====
-- A sequence of stores and removals on the dictionary of ten entries.
use tfg_edhoc.Base.{none, [], ◌∷◌}
use tfg_edhoc.Examples.{libedhoc}
use tfg_edhoc.Examples.ServerExamples.{libedhoc-EqualityLaws}
use tfg_edhoc.Server.Session.{empty_dictionary}
use tfg_edhoc.Server.Session.Refinement.{store, discard, Refines}
use tfg_edhoc.Server.Session.Refinement.Laws.{empty_dictionary-Refines}

-- The second store meets the identifier of the first.
empty_dictionary-Refines_example :
    Refines libedhoc
      (store 2 40 ∷ store 2 41 ∷ discard 2 ∷ discard 3 ∷ [])
      (empty_dictionary libedhoc)
      (λ j. none)
empty_dictionary-Refines_example =
    empty_dictionary-Refines libedhoc libedhoc-EqualityLaws
      (store 2 40 ∷ store 2 41 ∷ discard 2 ∷ discard 3 ∷ [])
