-- ===== src/Server/Lifetime.antt =====
-- The server's life: src/core/app_server.c gives each POST request to the dispatch engine of
-- src/coap/server/internal/srv_dispatch_engine.c, one after the other, with the same parameters.
use tfg_edhoc.Base.{
  true, ℕ, zero, suc, ◌≡◌, refl, Option, none, some, List, [], ◌∷◌, arith, ◌>>=◌, replicate, All,
}
use tfg_edhoc.Library.{Libedhoc, Libcoap}
use tfg_edhoc.Oscore.Sessions.{LibcoapOscore}
use tfg_edhoc.Suites.{CipherSuite, CipherSuiteDetails}
use tfg_edhoc.Suites.Parameters.{EdhocParameters}
use tfg_edhoc.Suites.Setup.Laws.{Coherent}
use tfg_edhoc.Server.Session.{Entry, empty_dictionary, zeroed_entry}
use tfg_edhoc.Server.Session.Laws.{EqualityLaws, owners}
use tfg_edhoc.Server.Session.Laws.Map.{Apart, Distinct}
use tfg_edhoc.Server.Dispatch.{State, Answer, Environment, dispatch_edhoc_post}
use tfg_edhoc.Server.Dispatch.Guards.{Dispatched, coap_dispatch_edhoc_post}
use tfg_edhoc.Server.Dispatch.Memory.{Inv, Bound}
use tfg_edhoc.Server.Dispatch.Safety.{Safe, dispatch_edhoc_post-Safe}

-- A POST request as libcoap hands it to the handler, with what the calls of other libraries answer.
pub record Post (P : Type 0) : Type 0 where
  pub environment : Environment
  pub request : P
  pub response : P

module _ {C K P O X F S : Type 0} (lib : Libedhoc C K) (coap : Libcoap P O)
    (oscore : LibcoapOscore X F S) where
  -- No context is allocated yet, the static dictionary is all zeros.
  abbrev pub initial_state : X → State C K X
  initial_state coap_context = record {
    dictionary = empty_dictionary lib;
    heap = λ a. none;
    next = 0;
    coap_context = coap_context;
  }

  -- `edhoc_post_handler`
  abbrev edhoc_post_handler : EdhocParameters → Post P → State C K X → Option (State C K X)
  edhoc_post_handler parameters post s =
      coap_dispatch_edhoc_post lib coap oscore post.environment parameters (some post.request)
        (some post.response) true s
      >>= λ d. some d.state

  -- The requests that the loop of the server has handled, in order.
  unfoldable pub serve : EdhocParameters → List (Post P) → State C K X → Option (State C K X)
  serve parameters [] s = some s
  serve parameters (post ∷ posts) s =
      edhoc_post_handler parameters post s >>= λ s'. serve parameters posts s'

  abbrev pub Reached : Option (State C K X) → Type 0
  Reached none = ⊥
  Reached (some s) = Inv lib s

  pub All-zeroed :
      (Q : Entry K → Type 0) (n : ℕ) → Q (zeroed_entry lib) → All Q (replicate n (zeroed_entry lib))
  All-zeroed Q zero h = tt
  All-zeroed Q (suc n) h = (h, All-zeroed Q n h)

  pub Distinct-zeroed : (n : ℕ) → Distinct lib (replicate n (zeroed_entry lib))
  Distinct-zeroed zero = tt
  Distinct-zeroed (suc n) =
      (All-zeroed (Apart lib (zeroed_entry lib)) n (λ o _. cc), Distinct-zeroed n)

  pub owners_zeroed : (a n : ℕ) → owners a (replicate n (zeroed_entry lib)) ≡ 0
  owners_zeroed a zero = refl
  owners_zeroed a (suc n) = omega (arith, owners_zeroed a n)

  pub initial_state-Inv : (x : X) → Inv lib (initial_state x)
  initial_state-Inv x = record {
    accounted = λ a. owners_zeroed a 10;
    fresh = λ a h. refl;
    capacity = refl;
    bound = All-zeroed (Bound lib (λ a. none)) 10 (λ o. cc);
    distinct = Distinct-zeroed 10;
  }

  abbrev dispatched : Answer C K P X → Dispatched C K P X
  dispatched a = record { response = some a.response; state = a.state }

  Reached-after :
      (p : EdhocParameters) (o : Option (Answer C K P X)) (posts : List (Post P))
      → ((s' : State C K X) → Inv lib s' → Reached (serve p posts s'))
      → Safe lib coap oscore o
      → Reached
          (o >>= (λ a. some (dispatched a)) >>= (λ d. some d.state) >>= λ s'. serve p posts s')
  Reached-after p none posts rest h = elim h [ ]
  Reached-after p (some r) posts rest h = rest r.state h

  module _ (eq : EqualityLaws lib) (p : EdhocParameters) (d : CipherSuiteDetails) (m : CipherSuite)
      (co : Coherent p d m) where
    pub serve-Reached :
        (posts : List (Post P)) (s : State C K X) → Inv lib s → Reached (serve p posts s)
    unfolding serve coap_dispatch_edhoc_post
    serve-Reached [] s v = v
    serve-Reached (post ∷ posts) s v =
        Reached-after p
          (dispatch_edhoc_post lib coap oscore post.environment p post.request post.response s)
          posts (serve-Reached posts)
          (dispatch_edhoc_post-Safe lib coap oscore eq post.environment p d m post.request
            post.response s co v)

    -- From the start of the server, no sequence of requests makes it fault; and behind every one,
    -- each live context is held by exactly one entry of the dictionary, each occupied entry points to a
    -- live context with the entry's identifier, and occupied entries have different identifiers. The
    -- parameters are those of a server whose supported suites have their metadata, and libedhoc's
    -- equality of identifiers is an equivalence.
    pub serve_from_start :
        (x : X) (posts : List (Post P)) → Reached (serve p posts (initial_state x))
    serve_from_start x posts = serve-Reached posts (initial_state x) (initial_state-Inv x)
