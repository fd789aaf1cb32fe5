-- ===== src/Migrations.antt =====
-- apps/api/kerislab/migrations.py: the scripts that bring a database to the current schema. The database and
-- its driver are outside: what their calls return or raise,
-- and what an exception leaves, are functions.
pub mod Once
pub mod Trace
pub mod Sequence
use kerislab.Prelude.{
  String, List, Option, some, Bool, ◌∷◌, none, any, ◌==◌, if◌then◌else◌, false, [], true,
}

-- A file of the directory of migrations, by its stem; `migration_files` hands them over in order.
pub record MigrationFile : Type 0 where
  pub stem : String
  pub text : String

-- A call on a database: what it returns, none being an exception, and what it leaves.
abbrev pub Call : Type 0 → Type 0 → Type 0
Call D A = D → Option A × D

-- `a; b`: an exception of the first part skips the rest
abbrev pub then_do : {D A B : Type 0} → Option A × D → (A → Call D B) → Option B × D
then_do (none, d) rest = (none, d)
then_do (some a, d) rest = rest a d

-- The calls of the module: a connection, the creation of the table if it does not exist, its rows, the run of a
-- script, the insertion of a row, the commit, and what ends the connection, which is told whether the
-- block returned: `close`, or the end of a `with` block.
pub record MigrationConnection (D : Type 0) : Type 0 where
  pub connect : Call D Unit
  pub create_table : Call D Unit
  pub versions : Call D (List String)
  pub run_script : String → Call D Unit
  pub insert_version : String → Call D Unit
  pub commit : Call D Unit
  pub leave : Bool → Call D Unit

-- `version in applied`
abbrev pub is_applied : List String → String → Bool
is_applied applied version = any (λ other. other == version) applied

module _ {D : Type 0} (connection : MigrationConnection D) where
  -- the script of one file and its row
  unfoldable pub apply_file : MigrationFile → Call D Unit
  apply_file file d =
      then_do (connection.run_script file.text d) (λ _ u. connection.insert_version file.stem u)

  -- the loop over the files
  unfoldable pub apply_files : List String → List MigrationFile → Call D (List String)
  unfolding apply_file
  apply_files applied [] d = (some [], d)
  apply_files applied (file ∷ files) d =
      let rest = λ (u : D). apply_files applied files u in
      if is_applied applied file.stem
      then rest d
      else then_do (apply_file file d)
          (λ _ u. then_do (rest u) (λ applied_now v. (some (file.stem ∷ applied_now), v)))

  -- the block on an open connection
  unfoldable pub migrate : List MigrationFile → Call D (List String)
  unfolding apply_files
  migrate files d = then_do (connection.create_table d) (λ _ created.
      then_do (connection.versions created) (λ applied read.
        then_do (apply_files applied files read) (λ applied_now ran.
          then_do (connection.commit ran) (λ _ committed. (some applied_now, committed)))))

  -- the end of the connection, behind a return and behind an exception
  unfoldable pub leaving : {A : Type 0} → Option A × D → Option A × D
  leaving (none, d) = (none, (connection.leave false d).1)
  leaving (some a, d) = then_do (connection.leave true d) (λ _ left. (some a, left))

  -- `apply_sqlite_migrations`
  unfoldable pub apply_sqlite_migrations : List MigrationFile → Call D (List String)
  unfolding migrate leaving
  apply_sqlite_migrations files d =
      then_do (connection.connect d) (λ _ opened. leaving (migrate files opened))

  -- `apply_postgres_migrations`: the same calls on a driver that may not be installed, where the end of
  -- the `with` block commits or rolls back before it closes
  unfoldable pub apply_postgres_migrations : Bool → List MigrationFile → Call D (List String)
  unfolding migrate leaving
  apply_postgres_migrations false files d = (none, d)
  apply_postgres_migrations true files d =
      then_do (connection.connect d) (λ _ opened. leaving (migrate files opened))

-- `a or b`, for a text that may be missing or empty
abbrev or_else : Option String → String → String
or_else none default = default
or_else (some text) default = if text == "" then default else text

-- `apply_configured_migrations`, over what the two ways to migrate answer for an address and a path
unfoldable pub apply_configured_migrations :
    {A : Type 0} → (String → A) → (String → A) → Option String → Option String → A
apply_configured_migrations postgres sqlite database_url sqlite_path =
    let address = or_else database_url "" in
    if address == "" then sqlite (or_else sqlite_path ".kerislab/kerislab.db") else postgres address
