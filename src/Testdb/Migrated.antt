-- ===== src/Testdb/Migrated.antt =====
-- What a test's database holds, and what is left of it.
use mathlib.Core.List.{Perm}
use dota_cuck.Prelude.{
  if◌then◌else◌, ◌⊎◌, ◌≡◌, refl, ap, ◌∙◌, Bool, true, false, Bool-cases, Option-cases, inl, inr,
  Option, none, some, List, [], ◌∷◌, Bytes, bytes_eq, bytes_eq_refl, is_empty, map, All, arith,
}
use dota_cuck.Prelude.Result.{Result, ok, err}
use dota_cuck.Go.Order.{SliceSort, IsSorted, bytes_lt, bytes_lt-IsStrictWeak}
use dota_cuck.Testdb.{
  Database, Cluster, World, Fatal, db_name, with_database, sql_files, run_files, add_scripts,
  drop_database, sort_strings, applied, apply_migrations, opened, created, Made, parse_url,
  open_store, after_test, new_test_db, cleanup,
}

-- No database has this name.
abbrev pub Lacks : Bytes → List Database → Type 0
Lacks name = All (λ d. bytes_eq d.0 name ≡ false)

add_scripts_elsewhere :
    (name : Bytes) (scripts : List Bytes) (dbs : List Database)
    → Lacks name dbs
    → add_scripts name scripts dbs ≡ dbs
unfolding add_scripts
add_scripts_elsewhere name scripts [] h = refl
add_scripts_elsewhere name scripts ((n, ss) ∷ dbs) (other, h) =
    rw other (ap (λ more. (n, ss) ∷ more) (add_scripts_elsewhere name scripts dbs h))

drop_elsewhere :
    (name : Bytes) (dbs : List Database) → Lacks name dbs → drop_database name dbs ≡ dbs
unfolding drop_database
drop_elsewhere name [] h = refl
drop_elsewhere name ((n, ss) ∷ dbs) (other, h) =
    rw other (ap (λ more. (n, ss) ∷ more) (drop_elsewhere name dbs h))

add_scripts_new :
    (name : Bytes) (scripts : List Bytes) (dbs : List Database)
    → Lacks name dbs
    → add_scripts name scripts ((name, []) ∷ dbs) ≡ (name, scripts) ∷ dbs
unfolding add_scripts
add_scripts_new name scripts dbs h =
    rw (bytes_eq_refl name, add_scripts_elsewhere name scripts dbs h)

drop_new :
    (name : Bytes) (scripts : List Bytes) (dbs : List Database)
    → Lacks name dbs
    → drop_database name ((name, scripts) ∷ dbs) ≡ dbs
unfolding drop_database
drop_new name scripts dbs h = rw (bytes_eq_refl name, drop_elsewhere name dbs h)

run_files_all :
    (w : World) (names : List Bytes)
    → (run_files w names).1 ≡ none
    → map w.read_file names ≡ map some (run_files w names).0
unfolding run_files
run_files_all w [] h = refl
run_files_all w (name ∷ names) h = elim (Option-cases (w.read_file name)) [
  | inl missing ↦ absurd (let h' = rw (run_files, missing) at h in ground arith)
  | inr (sql, read) ↦ elim (Bool-cases (w.runs sql)) [
    | inl runs ↦
        let h' = rw (run_files, read, runs) at h in
        rw (run_files, read, runs) (ap (λ more. some sql ∷ more) (run_files_all w names h'))
    | inr fails ↦ absurd (let h' = rw (run_files, read, fails) at h in ground arith)
  ]
]

module _ (slice : SliceSort Bytes) (w : World) (c : Cluster) where
  -- The scripts are those of the `.sql` files, in the order of their names.
  abbrev pub IsMigrated : List Bytes → Type 0
  IsMigrated scripts =
      (entries : List Bytes) × (names : List Bytes) × (w.read_dir ≡ some entries)
      × Perm names (sql_files entries)
      × IsSorted bytes_lt names
      × (map w.read_file names ≡ map some scripts)

  abbrev pub with_new : List Bytes → Cluster
  with_new scripts = record { databases = (db_name w, scripts) ∷ c.databases }

  applied_lem :
      (url : Bytes) (up : Bool) (entries : Option (List Bytes))
      → Lacks (db_name w) c.databases
      → w.reaches url ≡ db_name w
      → w.read_dir ≡ entries
      → (scripts : List Bytes) × ((applied slice w (with_new []) url up entries).0
          ≡ with_new scripts)
        × ((applied slice w (with_new []) url up entries).1 ≡ none → IsMigrated scripts)
  applied_lem url false entries fresh same read = ([], refl, λ h. absurd (ground arith))
  applied_lem url true none fresh same read = ([], refl, λ h. absurd (ground arith))
  applied_lem url true (some entries) fresh same read =
      let names = sort_strings slice (sql_files entries) in
      let scripts = (run_files w names).0 in
      (
        scripts,
        ap (λ name. record { databases = add_scripts name scripts ((db_name w, []) ∷ c.databases) })
              same
            ∙ ap (λ dbs. record { databases = dbs })
                (add_scripts_new (db_name w) scripts c.databases fresh),
        λ h. (
          entries,
          names,
          read,
          slice.sort-perm bytes_lt (sql_files entries) (bytes_lt-IsStrictWeak (λ s. s)),
          slice.sort-IsSorted bytes_lt (sql_files entries) (bytes_lt-IsStrictWeak (λ s. s)),
          run_files_all w names h,
        ),
      )

  -- The two ways in which `New` ends once it has created the database: with a store, migrated
  -- scripts and the cleanup registered; or with a reason, and nothing registered.
  abbrev pub Ends : List Bytes → Made slice → Type 0
  Ends scripts made =
      ((url : Bytes) × (made ≡ (with_new scripts, true, ok url)) × IsMigrated scripts)
      ⊎ ((fatal : Fatal) × (made ≡ (with_new scripts, false, err fatal)))

  opened_lem :
      (url : Bytes) (scripts : List Bytes) (p : Cluster × Option Fatal)
      → p.0 ≡ with_new scripts
      → (p.1 ≡ none → IsMigrated scripts)
      → Ends scripts (opened slice w url p)
  opened_lem url scripts (c', some fatal) left all = inr (fatal, ground arith)
  opened_lem url scripts (c', none) left all = elim (Bool-cases (w.opens url)) [
    | inl opens ↦ inl (url, ground arith, all refl)
    | inr stays ↦ inr (open_store, ground arith)
  ]

  created_lem :
      (url : Option Bytes)
      → Lacks (db_name w) c.databases
      → ((u : Bytes) → url ≡ some u → w.reaches u ≡ db_name w)
      → (scripts : List Bytes) × Ends scripts (created slice w (with_new []) url)
  unfolding apply_migrations
  created_lem none fresh reached = ([], inr (parse_url, refl))
  created_lem (some u) fresh reached =
      let (scripts, left, all) =
        applied_lem u (w.connects u) w.read_dir fresh (reached u refl) refl in
      (
        scripts,
        opened_lem u scripts (applied slice w (with_new []) u (w.connects u) w.read_dir) left all,
      )

  new_test_db-created :
      is_empty w.postgresql_url ≡ false
      → w.connects w.postgresql_url ≡ true
      → w.creates (db_name w) ≡ true
      → new_test_db slice w c
        ≡ created slice w (with_new []) (with_database w w.postgresql_url (db_name w))
  unfolding new_test_db
  new_test_db-created has_url up made = simp (has_url, up, made)

  cleanup-with_new :
      (scripts : List Bytes)
      → Lacks (db_name w) c.databases
      → w.reconnects ≡ true
      → w.drops ≡ true
      → cleanup w (with_new scripts) ≡ c
  unfolding cleanup
  cleanup-with_new scripts fresh again dropped =
      simp (again, dropped)
        (ap (λ dbs. record { databases = dbs }) (drop_new (db_name w) scripts c.databases fresh))

  after_test_lem :
      (r : Cluster) (registered : Bool) (how : Result Fatal Bytes)
      → new_test_db slice w c ≡ (r, registered, how)
      → after_test slice w c ≡ (if registered then cleanup w r else r)
  unfolding after_test
  after_test_lem r true how e = rw e refl
  after_test_lem r false how e = rw e refl

  -- Once `New` has created the database, it ends in one of two ways. It returns a store, each `.sql`
  -- file of the directory was run in the new database, once, in the order of the names, and after
  -- the test, if the cleanup connects and drops, the cluster is as before. Or it ends the test with a
  -- reason, and after the test the cluster still has the new database: the cleanup was not
  -- registered.
  pub after_test-new_test_db :
      Lacks (db_name w) c.databases
      → ((url : Bytes)
          → with_database w w.postgresql_url (db_name w) ≡ some url
          → w.reaches url ≡ db_name w)
      → is_empty w.postgresql_url ≡ false
      → w.connects w.postgresql_url ≡ true
      → w.creates (db_name w) ≡ true
      → w.reconnects ≡ true
      → w.drops ≡ true
      → (scripts : List Bytes) × (((url : Bytes) × (new_test_db slice w c
              ≡ (with_new scripts, true, ok url))
            × IsMigrated scripts
            × (after_test slice w c ≡ c))
          ⊎ ((fatal : Fatal) × (new_test_db slice w c ≡ (with_new scripts, false, err fatal))
              × (after_test slice w c ≡ with_new scripts)))
  after_test-new_test_db fresh reached has_url up made again dropped =
      let e = new_test_db-created has_url up made in
      let (scripts, ends) =
        created_lem (with_database w w.postgresql_url (db_name w)) fresh reached in
      (
        scripts,
        elim ends [
          | inl (url, left, migrated) ↦ inl (
            url,
            e ∙ left,
            migrated,
            after_test_lem (with_new scripts) true (ok url) (e ∙ left)
                ∙ cleanup-with_new scripts fresh again dropped,
          )
          | inr (fatal, left) ↦
              inr (fatal, e ∙ left, after_test_lem (with_new scripts) false (err fatal) (e ∙ left))
        ],
      )
