-- ===== src/Examples/Migrations.antt =====
-- Runs of migrations over a database that is its list of versions, committed and as the connection sees it
-- (apps/api/kerislab/migrations.py).
use kerislab.Migrations.Once.{apply_sqlite_migrations-apply_sqlite_migrations, Lawful}
use kerislab.Migrations.Trace.{
  apply_sqlite_migrations-calls, recording, MigrationCall, pending, file_calls,
}
use kerislab.Migrations.{
  MigrationConnection, apply_files, apply_sqlite_migrations, apply_file, MigrationFile, is_applied,
  migrate, leaving,
}
use kerislab.Prelude.{List, ◌∷◌, String, [], ◌≡◌, any, some, refl, map, true, ◌++◌, eq_refl, arith}

-- The committed versions, and those that the connection sees.
record Versions : Type 0 where
  stored : List String
  seen : List String

abbrev listing : MigrationConnection Versions
listing = record {
  connect = λ d. (some tt, record { stored = d.stored; seen = d.stored });
  create_table = λ d. (some tt, d);
  versions = λ d. (some d.seen, d);
  run_script = λ text d. (some tt, d);
  insert_version = λ version d. (some tt, record { stored = d.stored; seen = version ∷ d.seen });
  commit = λ d. (some tt, record { stored = d.seen; seen = d.seen });
  leave = λ returned d. (some tt, record { stored = d.stored; seen = [] });
}

abbrev Seen : String → Versions → Type 0
Seen version d = is_applied d.seen version ≡ true

abbrev Committed : String → Versions → Type 0
Committed version d = is_applied d.stored version ≡ true

abbrev sample_files : List MigrationFile
sample_files =
    record { stem = "001_init"; text = "CREATE TABLE users (id TEXT)" }
    ∷ record { stem = "002_scans"; text = "CREATE TABLE scans (id TEXT)" }
    ∷ []

later_seen :
    (version other : String) (versions : List String)
    → is_applied versions other ≡ true
    → is_applied (version ∷ versions) other ≡ true
unfolding any
later_seen version other versions h = ground (arith, h)

now_seen :
    (version : String) (versions : List String) → is_applied (version ∷ versions) version ≡ true
unfolding any
now_seen version versions = ground (arith, eq_refl version)

listing-Lawful : Lawful listing sample_files Seen Committed
listing-Lawful = record {
  connect_lists = λ d e h v listed.
      let same : record { stored = d.stored; seen = d.stored } ≡ e = cc in rw (← same) listed;
  create_keeps = λ d e h v listed. let same : d ≡ e = cc in rw (← same) listed;
  versions_keeps = λ vs d e h v listed. let same : d ≡ e = cc in rw (← same) listed;
  versions_lists =
      λ vs d e h v. let same : d.seen ≡ vs = cc in (λ l. rw same l, λ l. rw (← same) l);
  script_keeps = λ file among d e h v listed. let same : d ≡ e = cc in rw (← same) listed;
  insert_keeps = λ version d e h v listed.
      let same : record { stored = d.stored; seen = version ∷ d.seen } ≡ e = cc in
      rw (← same) (later_seen version v d.seen listed);
  insert_lists = λ version d e h.
      let same : record { stored = d.stored; seen = version ∷ d.seen } ≡ e = cc in
      rw (← same) (now_seen version d.seen);
  commit_stores = λ d e h v listed.
      let same : record { stored = d.seen; seen = d.seen } ≡ e = cc in rw (← same) listed;
  leave_keeps = λ d e h v listed.
      let same : record { stored = d.stored; seen = [] } ≡ e = cc in rw (← same) listed;
}

abbrev half_migrated : Versions
half_migrated = record { stored = "001_init" ∷ []; seen = [] }

abbrev migrated : Versions
migrated = record { stored = "002_scans" ∷ "001_init" ∷ []; seen = [] }

second-applied :
    apply_sqlite_migrations listing sample_files half_migrated ≡ (some ("002_scans" ∷ []), migrated)
unfolding apply_sqlite_migrations apply_files apply_file migrate leaving any
second-applied = refl

apply_sqlite_migrations-apply_sqlite_migrations_example :
    apply_sqlite_migrations listing sample_files migrated
    ≡ apply_sqlite_migrations listing [] migrated
apply_sqlite_migrations-apply_sqlite_migrations_example =
    apply_sqlite_migrations-apply_sqlite_migrations listing sample_files Seen Committed
      listing-Lawful half_migrated migrated ("002_scans" ∷ []) second-applied

abbrev calls_made : List MigrationCall
calls_made =
    MigrationCall.connected
    ∷ MigrationCall.created
    ∷ MigrationCall.listed ("001_init" ∷ [])
    ∷ MigrationCall.ran "CREATE TABLE scans (id TEXT)"
    ∷ MigrationCall.inserted "002_scans"
    ∷ MigrationCall.committed
    ∷ MigrationCall.left true
    ∷ []

second-noted :
    apply_sqlite_migrations (recording listing) sample_files (half_migrated, [])
    ≡ (some ("002_scans" ∷ []), (migrated, calls_made))
unfolding apply_sqlite_migrations apply_files apply_file migrate leaving any
second-noted = refl

apply_sqlite_migrations-calls_example :
    (versions : List String) × (("002_scans" ∷ [])
      ≡ map (λ file. file.stem) (pending versions sample_files))
    × (calls_made
        ≡ (MigrationCall.connected
            ∷ MigrationCall.created
            ∷ MigrationCall.listed versions
            ∷ file_calls (pending versions sample_files))
          ++ (MigrationCall.committed ∷ MigrationCall.left true ∷ []))
apply_sqlite_migrations-calls_example =
    apply_sqlite_migrations-calls listing sample_files half_migrated migrated ("002_scans" ∷ [])
      calls_made second-noted
