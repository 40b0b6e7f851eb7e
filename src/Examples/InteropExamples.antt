-- ===== src/Examples/InteropExamples.antt =====
-- A server that supports suite 2, and a client of the suites 0 and 2.
use tfg_edhoc.Base.{◌≡◌, refl, true, some, [], ◌∷◌, arith}
use tfg_edhoc.Examples.{libedhoc, buffer, both_suites}
use tfg_edhoc.Examples.SuiteExamples.{parameters-IsValid, both_suites-Consistent}
use tfg_edhoc.Library.{ErrorInfo, cipher_suites}
use tfg_edhoc.Interop.{Decodes, mismatch_error-negotiate_suites}
use tfg_edhoc.Server.AddError.{add_cipher_suite_mismatch_error}
use tfg_edhoc.Suites.{suite_0, suite_2}
use tfg_edhoc.Suites.Int.{pos}
use tfg_edhoc.Suites.Negotiate.{negotiate_suites, error_suggests_renegotiation}
use tfg_edhoc.Suites.Negotiate.Laws.{Outcome}

abbrev info : ErrorInfo
info = record { content = cipher_suites (pos 2 ∷ []); total_entries = 1; written_entries = 1 }

suite_2-Decodes : Decodes libedhoc (pos 2 ∷ [])
suite_2-Decodes = record {
  decoded = λ bytes out capacity written composed. (
    ground (arith, composed),
    (info, refl, record { content = refl; written = refl; fits = ground arith }),
  );
}

mismatch_error-negotiate_suites_example :
    (error_suggests_renegotiation libedhoc (add_cipher_suite_mismatch_error libedhoc 2 buffer)
      ≡ some true)
    × Outcome
        (pos 2 ∷ [])
        (some suite_0 ∷ some suite_2 ∷ [])
        (negotiate_suites libedhoc both_suites (add_cipher_suite_mismatch_error libedhoc 2 buffer))
mismatch_error-negotiate_suites_example =
    mismatch_error-negotiate_suites libedhoc 2 (pos 2 ∷ []) buffer (9 ∷ []) 1 both_suites
      suite_2-Decodes refl refl (ground arith) refl refl parameters-IsValid.details_valid
      (ground arith) both_suites-Consistent.0
