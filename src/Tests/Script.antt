-- ===== src/Tests/Script.antt =====
-- The script of a migration on a small text.
use Prim.Native.String.{◌++◌}
use feeds_server.Base.{◌≡◌, ◌≢◌, refl, arith, eq_iff}
use feeds_server.Base.Text.{trim_space, to_upper}
use feeds_server.Storage.Attempt.{done}
use feeds_server.Storage.Apply.{byte_length, migration_body}
use feeds_server.Storage.Apply.Body.{migration_body-between}
use feeds_server.Tests.Samples.{sample_unicode}

script_there : trim_space " A " ≢ ""
unfolding trim_space
script_there = ground (arith, eq_iff "A" "")

word_tests :
    (to_upper "BEGIN;" ≡ "BEGIN;")
    × (to_upper "COMMIT;" ≡ "COMMIT;")
    × (byte_length "BEGIN;" ≡ 6)
    × (byte_length "COMMIT;" ≡ 7)
unfolding to_upper byte_length
word_tests = (refl, refl, refl, refl)

migration_body-between_example :
    migration_body ("BEGIN;" ++ (" A " ++ "COMMIT;")) ≡ done (trim_space " A ")
unfolding trim_space
migration_body-between_example =
    migration_body-between "BEGIN;" "COMMIT;" " A "
      (refl, (refl, (refl, (refl, (refl, (refl, tt))))))
      (refl, (refl, (refl, (refl, (refl, (refl, (refl, tt))))))) word_tests.0 word_tests.1
      word_tests.2 word_tests.3 script_there
