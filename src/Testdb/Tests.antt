-- ===== src/Testdb/Tests.antt =====
-- The migrations of the repository in a test's database, and a migration that does not run.
use dota_cuck.Prelude.{
  ◌⊎◌, ◌≡◌, refl, true, false, some, List, [], ◌∷◌, ◌++◌, Bytes, codes, bytes_eq, arith,
}
use dota_cuck.Prelude.Result.{ok, err}
use dota_cuck.Go.Decimal.{format_uint}
use dota_cuck.Go.Order.{bytes_lt}
use dota_cuck.Go.Order.Insertion.{insertion, insertion_sort}
use dota_cuck.Testdb.{
  Cluster, World, db_name, with_database, sql_files, run_files, add_scripts, apply_migrations,
  Fatal, after_test, new_test_db, apply_migration,
}
use dota_cuck.Testdb.Migrated.{Lacks, IsMigrated, with_new, after_test-new_test_db}

abbrev entries : List Bytes
entries =
    codes "002_user_kdf_salt.sql"
    ∷ codes "README.md"
    ∷ codes "001_init.sql"
    ∷ codes "004_refresh_token.sql"
    ∷ codes "003_steam_id_nullable.sql"
    ∷ []

abbrev without_slash : Bytes → Bytes
without_slash [] = []
without_slash (c ∷ s) = s

abbrev world : World
world = record {
  postgresql_url = codes "postgres://localhost/admin";
  connects = λ url. true;
  unix_nano = 7;
  creates = λ name. true;
  with_path = λ url path. some path;
  reaches = without_slash;
  read_dir = some entries;
  read_file = λ name. some (codes "-- " ++ name);
  runs = λ sql. true;
  opens = λ url. true;
  reconnects = true;
  drops = true;
}

abbrev cluster : Cluster
cluster = record { databases = (codes "dota", []) ∷ [] }

sorted :
    insertion_sort bytes_lt (sql_files entries)
    ≡ codes "001_init.sql"
      ∷ codes "002_user_kdf_salt.sql"
      ∷ codes "003_steam_id_nullable.sql"
      ∷ codes "004_refresh_token.sql"
      ∷ []
unfolding insertion_sort bytes_lt sql_files
sorted = refl

-- The database stays, with the first script.
stays :
    new_test_db insertion (record world { runs = bytes_eq (codes "-- 001_init.sql") }) cluster ≡ (
      with_new insertion world cluster (codes "-- 001_init.sql" ∷ []),
      false,
      err (apply_migration (codes "002_user_kdf_salt.sql")),
    )
unfolding new_test_db apply_migrations run_files add_scripts insertion_sort bytes_lt sql_files
    bytes_eq db_name format_uint with_database
stays = refl

world-Lacks : Lacks (db_name world) cluster.databases
unfolding db_name bytes_eq
world-Lacks = (refl, tt)

path_reached :
    (url : Bytes)
    → with_database world world.postgresql_url (db_name world) ≡ some url
    → world.reaches url ≡ db_name world
unfolding with_database
path_reached url parsed = ground arith

after_test-new_test_db_example :
    (scripts : List Bytes) × (((url : Bytes) × (new_test_db insertion world cluster
          ≡ (with_new insertion world cluster scripts, true, ok url))
        × IsMigrated insertion world cluster scripts
        × (after_test insertion world cluster ≡ cluster))
      ⊎ ((fatal : Fatal) × (new_test_db insertion world cluster
            ≡ (with_new insertion world cluster scripts, false, err fatal))
          × (after_test insertion world cluster ≡ with_new insertion world cluster scripts)))
after_test-new_test_db_example =
    after_test-new_test_db insertion world cluster world-Lacks path_reached refl refl refl refl refl
