-- ===== src/Examples/OscoreExamples.antt =====
-- The configuration text of an exported context of suite 2.
use tfg_edhoc.Base.{ℕ, ◌+◌, ◌%◌, ◌≡◌, refl, ◌≢◌, ◌⊎◌, none, some, List, arith}
use tfg_edhoc.Examples.{libedhoc}
use tfg_edhoc.Library.{OscoreSecrets}
use tfg_edhoc.Suites.Int.{pos}
use tfg_edhoc.Oscore.{build_config, config_csv_max_size}
use tfg_edhoc.Oscore.Text.{read_configuration}
use tfg_edhoc.Oscore.Text.Laws.{
  IsExported, secrets, algorithm_lines, read_configuration-build_config,
}

abbrev exported : OscoreSecrets ℕ
exported = record {
  context = 2;
  master_secret = λ i. (171 + i) % 256;
  master_salt = λ i. i % 256;
  sender_id = λ i. (2 + i) % 256;
  sender_id_len = 1;
  recipient_id = λ i. (3 + i) % 256;
  recipient_id_len = 1;
}

exported-IsExported : IsExported exported
exported-IsExported = record {
  sender_size = ground arith;
  recipient_size = ground arith;
  secret_bytes = λ i. omega arith;
  salt_bytes = λ i. omega arith;
  sender_bytes = λ i. omega arith;
  recipient_bytes = λ i. omega arith;
}

read_configuration-build_config_example :
    ((text : List ℕ) × ((libedhoc.selected_suite_value 2 ≡ pos 0)
        ⊎ (libedhoc.selected_suite_value 2 ≡ pos 2))
      × (build_config libedhoc (some 2) config_csv_max_size ≡ some text)
      × (read_configuration text ≡ some (secrets exported, algorithm_lines)))
    ⊎ ((libedhoc.selected_suite_value 2 ≢ pos 0)
        × (libedhoc.selected_suite_value 2 ≢ pos 2)
        × (build_config libedhoc (some 2) config_csv_max_size ≡ none))
read_configuration-build_config_example =
    read_configuration-build_config libedhoc 2 exported refl exported-IsExported
