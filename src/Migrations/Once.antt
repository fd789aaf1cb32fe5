-- ===== src/Migrations/Once.antt =====
-- Repeated runs of the migrations of apps/api/kerislab/migrations.py.
use kerislab.Migrations.Sequence.{call_cases, appended, last-some, then_do-some, leaving-some}
use kerislab.Migrations.{
  MigrationConnection, MigrationFile, is_applied, apply_files, apply_file, migrate,
  apply_sqlite_migrations,
}
use kerislab.Prelude.{
  List, String, ◌≡◌, some, true, ◌∷◌, Bool-cases, inl, inr, [], refl, Among, at_head, further,
}

-- What the module relies on, where no other connection writes: `Listed` are the versions in the table as the
-- connection sees it, `Stored` those a later connection finds. Each call that returns keeps the versions
-- that are listed, the scripts of the files among them; an insertion lists its version, the rows read
-- are the listed versions, a commit stores what is listed, and the end of a block keeps what is stored.
pub record Lawful {D : Type 0} (connection : MigrationConnection D) (files : List MigrationFile)
    (Listed Stored : String → D → Type 0) : Type 0 where
  pub connect_lists :
      (d e : D) → connection.connect d ≡ (some tt, e) → (v : String) → Stored v d → Listed v e
  pub create_keeps :
      (d e : D) → connection.create_table d ≡ (some tt, e) → (v : String) → Listed v d → Listed v e
  pub versions_keeps :
      (vs : List String) (d e : D)
      → connection.versions d ≡ (some vs, e)
      → (v : String) → Listed v d
      → Listed v e
  pub versions_lists :
      (vs : List String) (d e : D)
      → connection.versions d ≡ (some vs, e)
      → (v : String) → (is_applied vs v ≡ true → Listed v d) × (Listed v d → is_applied vs v ≡ true)
  pub script_keeps :
      (file : MigrationFile)
      → Among file files
      → (d e : D) → connection.run_script file.text d ≡ (some tt, e)
      → (v : String) → Listed v d
      → Listed v e
  pub insert_keeps :
      (version : String) (d e : D)
      → connection.insert_version version d ≡ (some tt, e)
      → (v : String) → Listed v d
      → Listed v e
  pub insert_lists :
      (version : String) (d e : D)
      → connection.insert_version version d ≡ (some tt, e)
      → Listed version e
  pub commit_stores :
      (d e : D) → connection.commit d ≡ (some tt, e) → (v : String) → Listed v d → Stored v e
  pub leave_keeps :
      (d e : D) → connection.leave true d ≡ (some tt, e) → (v : String) → Stored v d → Stored v e

each_of :
    {A : Type 0} (x : A) (xs : List A) (P : A → Type 0)
    → P x
    → ((y : A) → Among y xs → P y)
    → (y : A) → Among y (x ∷ xs)
    → P y
each_of x xs P h rest _ (at_head _) = h
each_of x xs P h rest y (further _ _ among) = rest y among

module _ {D : Type 0} (connection : MigrationConnection D) (all : List MigrationFile)
    (Listed Stored : String → D → Type 0) (lawful : Lawful connection all Listed Stored) where
  apply_file-lists :
      (file : MigrationFile) (d u : D)
      → Among file all
      → apply_file connection file d ≡ (some tt, u)
      → Listed file.stem u × ((v : String) → Listed v d → Listed v u)
  unfolding apply_file
  apply_file-lists file d u among applies =
      let (_, e, ran, inserted) = then_do-some (connection.run_script file.text d) _ tt u applies in
      (
        lawful.insert_lists file.stem e u inserted,
        λ v h.
            lawful.insert_keeps file.stem e u inserted v
              (lawful.script_keeps file among d e ran v h),
      )

  -- Each file is listed behind a run, if the versions taken as applied were listed before, and no version is lost.
  apply_files-lists :
      (applied : List String) (files : List MigrationFile) (d u : D) (now : List String)
      → ((file : MigrationFile) → Among file files → Among file all)
      → ((v : String) → is_applied applied v ≡ true → Listed v d)
      → apply_files connection applied files d ≡ (some now, u)
      → ((file : MigrationFile) → Among file files → Listed file.stem u)
        × ((v : String) → Listed v d → Listed v u)
  unfolding apply_files
  apply_files-lists applied [] d u now within old runs =
      let same : d ≡ u = cc in (λ file among. elim among [ ], λ v h. rw (← same) h)
  apply_files-lists applied (file ∷ files) d u now within old runs =
      elim (Bool-cases (is_applied applied file.stem)) [
        | inl is_old ↦
            let (each, keeps) =
              apply_files-lists applied files d u now
                (λ f among. within f (further file files among)) old (rw is_old at runs) in
            (
              each_of file files (λ f. Listed f.stem u) (keeps file.stem (old file.stem is_old))
                  each,
              keeps,
            )
        | inr is_new ↦
            let (_, e, applies, after) =
              then_do-some (apply_file connection file d) _ now u (rw is_new at runs) in
            let (rest, rest_runs, _) =
              appended file.stem (apply_files connection applied files e) now u after in
            let (listed, kept) = apply_file-lists file d e (within file (at_head files)) applies in
            let (each, keeps) =
              apply_files-lists applied files e u rest
                (λ f among. within f (further file files among)) (λ w h. kept w (old w h))
                rest_runs in
            (
              each_of file files (λ f. Listed f.stem u) (keeps file.stem listed) each,
              λ w h. keeps w (kept w h),
            )
      ]

  -- Behind a run that returns, the version of each file is stored.
  apply_sqlite_migrations-stores :
      (d u : D) (now : List String)
      → apply_sqlite_migrations connection all d ≡ (some now, u)
      → (file : MigrationFile) → Among file all
      → Stored file.stem u
  unfolding apply_sqlite_migrations migrate
  apply_sqlite_migrations-stores d u now runs file among =
      let (_, opened, connects, r1) = then_do-some (connection.connect d) _ now u runs in
      let (ran, body, left) = leaving-some connection (migrate connection all opened) now u r1 in
      let (_, created, creates, r2) =
        then_do-some (connection.create_table opened) _ now ran body in
      let (applied, read, reads, r3) = then_do-some (connection.versions created) _ now ran r2 in
      let (rest, applied_all, applies, r4) =
        then_do-some (apply_files connection applied all read) _ now ran r3 in
      let (_, commits, _) = last-some (connection.commit applied_all) rest now ran r4 in
      let (each, _) =
        apply_files-lists applied all read applied_all rest (λ f a. a)
          (λ v h.
            lawful.versions_keeps applied created read reads v
              ((lawful.versions_lists applied created read reads v).0 h))
          applies in
      let stored = lawful.commit_stores applied_all ran commits file.stem (each file among) in
      lawful.leave_keeps ran u left file.stem stored

  -- A loop over files that are all listed does nothing.
  apply_files-idle :
      (applied : List String) (files : List MigrationFile) (d : D)
      → ((file : MigrationFile) → Among file files → is_applied applied file.stem ≡ true)
      → apply_files connection applied files d ≡ apply_files connection applied [] d
  unfolding apply_files
  apply_files-idle applied [] d h = refl
  apply_files-idle applied (file ∷ files) d h =
      rw (h file (at_head files))
        (apply_files-idle applied files d (λ f among. h f (further file files among)))

  migrate-idle :
      (d : D)
      → ((file : MigrationFile) → Among file all → Listed file.stem d)
      → migrate connection all d ≡ migrate connection [] d
  unfolding migrate
  migrate-idle d listed = elim (call_cases (connection.create_table d)) [
    | inl (e, fails) ↦ rw fails refl
    | inr (_, e, creates) ↦ elim (call_cases (connection.versions e)) [
      | inl (f, fails) ↦ rw (creates, fails) refl
      | inr (applied, f, reads) ↦
          let idle = apply_files-idle applied all f (λ file among.
            (lawful.versions_lists applied e f reads file.stem).1
              (lawful.create_keeps d e creates file.stem (listed file among))) in
          rw (creates, reads, idle) refl
    ]
  ]

  -- A run of the migrations after one that returned is, in what it returns, raises and does to the
  -- database, a run with no files: it runs no script and inserts no version. The connection keeps the
  -- versions that it lists, the scripts of these files included, and stores them by the commit.
  pub apply_sqlite_migrations-apply_sqlite_migrations :
      (d u : D) (now : List String)
      → apply_sqlite_migrations connection all d ≡ (some now, u)
      → apply_sqlite_migrations connection all u ≡ apply_sqlite_migrations connection [] u
  unfolding apply_sqlite_migrations
  apply_sqlite_migrations-apply_sqlite_migrations d u now runs =
      elim (call_cases (connection.connect u)) [
        | inl (e, fails) ↦ rw fails refl
        | inr (_, e, connects) ↦
            let idle = migrate-idle e (λ file among.
              lawful.connect_lists u e connects file.stem
                (apply_sqlite_migrations-stores d u now runs file among)) in
            rw (connects, idle) refl
      ]
