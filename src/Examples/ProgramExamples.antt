-- ===== src/Examples/ProgramExamples.antt =====
-- The two programs on a command line with the suites 0 and 2.
use tfg_edhoc.Base.{ℕ, ◌-◌, refl, true, false, some, List, [], ◌∷◌}
use tfg_edhoc.Examples.{libedhoc, libcoap, libcoap_oscore}
use tfg_edhoc.Examples.ServerExamples.{libedhoc-EqualityLaws}
use tfg_edhoc.Examples.ServerRunExamples.{libcoap_server, calls}
use tfg_edhoc.Common.Arguments.{StrtolResult}
use tfg_edhoc.Server.AddError.{codes}
use tfg_edhoc.Server.Application.Laws.{Ends}
use tfg_edhoc.Programs.{server_returned, main_server}
use tfg_edhoc.Programs.Laws.{Completed}
use tfg_edhoc.Programs.NoFault.{main_server-Completed}
use tfg_edhoc.Suites.{create_cipher_suites_from}
use tfg_edhoc.Suites.Int.{pos}
use tfg_edhoc.Suites.Known.{Created, create_cipher_suites_from-Created}

-- Texts of one decimal digit.
abbrev strtol : List ℕ → StrtolResult
strtol [] = record { sets_errno = false; end_offset = 0; value = pos 0 }
strtol (c ∷ cs) = record { sets_errno = false; end_offset = 1; value = pos (c - 48) }

abbrev server_line : List (List ℕ)
server_line = codes "server" ∷ codes "-s" ∷ codes "0" ∷ codes "2" ∷ []

abbrev client_line : List (List ℕ)
client_line = codes "client" ∷ codes "-s" ∷ codes "0" ∷ codes "2" ∷ codes "::1" ∷ []

main_server-Completed_example :
    Completed server_returned
      (λ r. Ends libedhoc libcoap libcoap_oscore (some r))
      (main_server libedhoc libcoap libcoap_oscore strtol true 500 server_line libcoap_server calls)
main_server-Completed_example =
    main_server-Completed libedhoc libcoap libcoap_oscore strtol true 500 server_line libcoap_server
      calls libedhoc-EqualityLaws (λ x. refl)

create_cipher_suites_from-Created_example :
    Created (pos 2 ∷ pos 0 ∷ []) (create_cipher_suites_from true (pos 2 ∷ pos 0 ∷ []))
create_cipher_suites_from-Created_example = create_cipher_suites_from-Created (pos 2 ∷ pos 0 ∷ [])
