-- ===== src/Testdb.antt =====
-- control-plane/internal/testdb/testdb.go: a fresh database for each test, with every migration
-- applied. `Cluster` is the PostgreSQL instance; `World` is what a test meets outside: the
-- environment, pgx, net/url, the clock and the files. A `t.Fatal` ends the test with its reason.
pub mod Migrated
mod Tests
use dota_cuck.Prelude.{
  ℕ, String, Bool, ◌||◌, true, false, Option, none, some, List, [], ◌∷◌, ◌++◌, Bytes, codes,
  bytes_eq, is_empty, map, if◌then◌else◌,
}
use dota_cuck.Prelude.Result.{Result, ok, err}
use dota_cuck.Go.Decimal.{format_uint}
use dota_cuck.Go.Order.{SliceSort, bytes_lt}

-- A database: its name, and the scripts that were run in it.
abbrev pub Database : Type 0
Database = Bytes × List Bytes

pub record Cluster : Type 0 where
  pub databases : List Database

pub record World : Type 0 where
  pub postgresql_url : Bytes
  pub connects : Bytes → Bool
  pub unix_nano : ℕ
  pub creates : Bytes → Bool  -- whether CREATE DATABASE succeeds
  pub with_path : Bytes → Bytes → Option Bytes  -- a URL with another path, if it parses
  pub reaches : Bytes → Bytes  -- the database that a URL leads to
  pub read_dir : Option (List Bytes)  -- the names in db/migrations
  pub read_file : Bytes → Option Bytes
  pub runs : Bytes → Bool  -- whether a script runs; one that fails changes nothing
  pub opens : Bytes → Bool  -- whether `store.New` succeeds
  pub reconnects : Bool  -- in the cleanup
  pub drops : Bool

pub data Fatal : Type 0 where
  no_url connect_admin create_database parse_url : Fatal
  connect_migrations read_migrations open_store : Fatal
  read_migration apply_migration : Bytes → Fatal

-- `fmt.Sprintf("dota_test_%d", time.Now().UnixNano())`
unfoldable pub db_name : World → Bytes
db_name w = codes "dota_test_" ++ format_uint w.unix_nano

-- `withDatabase`; `none` is a URL that does not parse.
unfoldable pub with_database : World → Bytes → Bytes → Option Bytes
with_database w raw_url name = w.with_path raw_url (b'/' ∷ name)

-- `strings.HasSuffix`
unfoldable pub has_suffix : Bytes → Bytes → Bool
unfolding bytes_eq
has_suffix suffix [] = bytes_eq [] suffix
has_suffix suffix (c ∷ s) = bytes_eq (c ∷ s) suffix || has_suffix suffix s

unfoldable pub sql_files : List Bytes → List Bytes
unfolding has_suffix
sql_files [] = []
sql_files (name ∷ names) =
    let rest = sql_files names in if has_suffix (codes ".sql") name then name ∷ rest else rest

-- The loop over the files: the scripts that were run, and what stopped it.
unfoldable pub run_files : World → List Bytes → List Bytes × Option Fatal
run_files w [] = ([], none)
run_files w (name ∷ names) =
    let (more, stopped) = run_files w names in
    elim (w.read_file name) [
      | none ↦ ([], some (read_migration name))
      | some sql ↦ if w.runs sql then (sql ∷ more, stopped) else ([], some (apply_migration name))
    ]

unfoldable pub add_scripts : Bytes → List Bytes → List Database → List Database
unfolding bytes_eq
add_scripts name scripts [] = []
add_scripts name scripts ((n, ss) ∷ dbs) =
    (if bytes_eq n name then (n, ss ++ scripts) else (n, ss)) ∷ add_scripts name scripts dbs

unfoldable pub drop_database : Bytes → List Database → List Database
unfolding bytes_eq
drop_database name [] = []
drop_database name ((n, ss) ∷ dbs) =
    let rest = drop_database name dbs in if bytes_eq n name then rest else (n, ss) ∷ rest

module _ (slice : SliceSort Bytes) where
  -- `sort.Strings`
  abbrev pub sort_strings : List Bytes → List Bytes
  sort_strings = slice.sort bytes_lt

  abbrev ran : Cluster → Bytes → List Bytes × Option Fatal → Cluster × Option Fatal
  ran c name (scripts, stopped) =
      (record { databases = add_scripts name scripts c.databases }, stopped)

  abbrev applied : World → Cluster → Bytes → Bool → Option (List Bytes) → Cluster × Option Fatal
  applied w c db_url false entries = (c, some connect_migrations)
  applied w c db_url true none = (c, some read_migrations)
  applied w c db_url true (some entries) =
      ran c (w.reaches db_url) (run_files w (sort_strings (sql_files entries)))

  unfoldable pub apply_migrations : World → Cluster → Bytes → Cluster × Option Fatal
  apply_migrations w c db_url = applied w c db_url (w.connects db_url) w.read_dir

  -- `New` ends: the cluster, whether `t.Cleanup` was called, and the URL of the store or what ended
  -- the test.
  abbrev pub Made : Type 0
  Made = Cluster × Bool × Result Fatal Bytes

  abbrev stopped_by : Cluster → Fatal → Made
  stopped_by c fatal = (c, false, err fatal)

  abbrev opened : World → Bytes → Cluster × Option Fatal → Made
  opened w url (c, some fatal) = stopped_by c fatal
  opened w url (c, none) = if w.opens url then (c, true, ok url) else stopped_by c open_store

  abbrev created : World → Cluster → Option Bytes → Made
  created w c none = stopped_by c parse_url
  created w c (some url) = opened w url (apply_migrations w c url)

  -- `New`. It calls `t.Cleanup` when the store is open.
  unfoldable pub new_test_db : World → Cluster → Made
  new_test_db w c =
      if is_empty w.postgresql_url
      then stopped_by c no_url
      else if w.connects w.postgresql_url
      then (if w.creates (db_name w)
          then created w (record { databases = (db_name w, []) ∷ c.databases })
              (with_database w w.postgresql_url (db_name w))
          else stopped_by c create_database)
      else stopped_by c connect_admin

-- The cleanup that `New` registers.
unfoldable pub cleanup : World → Cluster → Cluster
cleanup w c =
    if w.reconnects
    then (if w.drops then record { databases = drop_database (db_name w) c.databases } else c)
    else c

module _ (slice : SliceSort Bytes) where
  abbrev cleaned : World → Made slice → Cluster
  cleaned w (c, true, r) = cleanup w c
  cleaned w (c, false, r) = c

  -- The cluster after a test that does nothing but call `New`: what `New` left, and then the
  -- cleanup, if it was registered.
  unfoldable pub after_test : World → Cluster → Cluster
  unfolding new_test_db cleanup
  after_test w c = cleaned w (new_test_db slice w c)
