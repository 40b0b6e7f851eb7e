-- ===== src/Client/Resources/Laws.antt =====
-- How often a run makes and frees a resource, counted in its list of events.
use tfg_edhoc.Base.{ℕ, ◌+◌, ◌-◌, Bool, true, false, List, [], ◌∷◌, ◌==◌, if◌then◌else◌}
use tfg_edhoc.Client.Resources.{
  Resource, ResourceEvent, acquired, released, coap_context, exchange_session, oscore_session,
  exchange, request_pdu,
}

abbrev rank : Resource → ℕ
rank coap_context = 0
rank exchange_session = 1
rank oscore_session = 2
rank exchange = 3
rank request_pdu = 4

abbrev pub made : Resource → List ResourceEvent → ℕ
made r [] = 0
made r (acquired q ∷ log) = if rank r == rank q then 1 + made r log else made r log
made r (released q ∷ log) = made r log

abbrev pub freed : Resource → List ResourceEvent → ℕ
freed r [] = 0
freed r (released q ∷ log) = if rank r == rank q then 1 + freed r log else freed r log
freed r (acquired q ∷ log) = freed r log

-- What is held, by resource, behind an event.
abbrev more : Resource → (Resource → ℕ) → Resource → ℕ
more r held q = if rank r == rank q then held q + 1 else held q

abbrev less : Resource → (Resource → ℕ) → Resource → ℕ
less r held q = if rank r == rank q then held q - 1 else held q

-- Whether some event releases a resource of which none is held: a second release.
abbrev pub releases_unheld : (Resource → ℕ) → List ResourceEvent → Bool
releases_unheld held [] = false
releases_unheld held (acquired r ∷ log) = releases_unheld (more r held) log
releases_unheld held (released r ∷ log) =
    let rest = releases_unheld (less r held) log in if held r == 0 then true else rest

abbrev pub releases_twice : List ResourceEvent → Bool
releases_twice log = releases_unheld (λ r. 0) log
