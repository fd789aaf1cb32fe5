-- ===== src/Migrations/Trace.antt =====
-- The calls that the migrations of apps/api/kerislab/migrations.py make on a connection, in their order.
use kerislab.Migrations.Sequence.{appended, last-some, then_do-some, leaving-some}
use kerislab.Migrations.{
  MigrationConnection, MigrationFile, is_applied, Call, apply_file, apply_files,
  apply_sqlite_migrations, migrate,
}
use kerislab.Prelude.{
  List, String, ◌≡◌, some, ◌∷◌, [], Bool, Option, none, select, not, ◌++◌, ap, true, map, ◌∙◌, refl,
  sym, Bool-cases, inl, inr,
}

pub data MigrationCall : Type 0 where
  connected created committed : MigrationCall
  listed : List String → MigrationCall
  ran inserted : String → MigrationCall
  left : Bool → MigrationCall

abbrev note_result :
    {D A : Type 0}
    → (A → MigrationCall)
    → List MigrationCall
    → Option A × D
    → Option A × (D × List MigrationCall)
note_result note calls (none, d) = (none, (d, calls))
note_result note calls (some a, d) = (some a, (d, calls ++ (note a ∷ [])))

-- A call that is noted behind the others if it returns.
abbrev noted : {D A : Type 0} → (A → MigrationCall) → Call D A → Call (D × List MigrationCall) A
noted note call (d, calls) = note_result note calls (call d)

-- The files whose version is not in the list.
abbrev pub pending : List String → List MigrationFile → List MigrationFile
pending versions files = select (λ file. not (is_applied versions file.stem)) files

-- For each file its script, then its version.
abbrev pub file_calls : List MigrationFile → List MigrationCall
file_calls [] = []
file_calls (file ∷ files) = ran file.text ∷ inserted file.stem ∷ file_calls files

-- The connection that notes the calls that return.
abbrev pub recording :
    {D : Type 0} → MigrationConnection D → MigrationConnection (D × List MigrationCall)
recording connection = record {
  connect = noted (λ _. connected) connection.connect;
  create_table = noted (λ _. created) connection.create_table;
  versions = noted listed connection.versions;
  run_script = λ text. noted (λ _. ran text) (connection.run_script text);
  insert_version = λ version. noted (λ _. inserted version) (connection.insert_version version);
  commit = noted (λ _. committed) connection.commit;
  leave = λ returned. noted (λ _. left returned) (connection.leave returned);
}

module _ {D : Type 0} where
  noted-result :
      {A : Type 0} (note : A → MigrationCall) (calls calls' : List MigrationCall) (r : Option A × D)
      (a : A) (u : D)
      → note_result note calls r ≡ (some a, (u, calls'))
      → calls' ≡ calls ++ (note a ∷ [])
  noted-result note calls calls' (none, d) a u h = cc
  noted-result note calls calls' (some b, d) a u h = cc

  -- A call that returns is noted.
  noted-some :
      {A : Type 0} (note : A → MigrationCall) (call : Call D A) (d : D)
      (calls calls' : List MigrationCall) (a : A) (u : D)
      → noted note call (d, calls) ≡ (some a, (u, calls'))
      → calls' ≡ calls ++ (note a ∷ [])
  noted-some note call d calls calls' a u h = noted-result note calls calls' (call d) a u h

append-append : {A : Type 0} (xs ys zs : List A) → (xs ++ ys) ++ zs ≡ xs ++ (ys ++ zs)
append-append [] ys zs = refl
append-append (x ∷ xs) ys zs = ap (λ l. x ∷ l) (append-append xs ys zs)

append-nil : {A : Type 0} (xs : List A) → xs ≡ xs ++ []
append-nil [] = refl
append-nil (x ∷ xs) = ap (λ l. x ∷ l) (append-nil xs)

trace_of :
    (versions : List String) (files : List MigrationFile) (l1 l2 l3 l4 l5 l6 : List MigrationCall)
    → l1 ≡ connected ∷ []
    → l2 ≡ l1 ++ (created ∷ [])
    → l3 ≡ l2 ++ (listed versions ∷ [])
    → l4 ≡ l3 ++ file_calls files
    → l5 ≡ l4 ++ (committed ∷ [])
    → l6 ≡ l5 ++ (left true ∷ [])
    → l6
      ≡ (connected ∷ created ∷ listed versions ∷ file_calls files) ++ (committed ∷ left true ∷ [])
trace_of versions files l1 l2 l3 l4 l5 l6 n1 n2 n3 n4 n5 n6 =
    let head = connected ∷ created ∷ listed versions ∷ file_calls files in
    let before : l4 ≡ head = rw (n4, n3, n2, n1) refl in
    n6
    ∙ ap (λ l. l ++ (left true ∷ [])) (n5 ∙ ap (λ l. l ++ (committed ∷ [])) before)
    ∙ append-append head (committed ∷ []) (left true ∷ [])

module _ {D : Type 0} (connection : MigrationConnection D) where
  apply_file-noted :
      (file : MigrationFile) (d u : D) (calls calls' : List MigrationCall) (x : Unit)
      → apply_file (recording connection) file (d, calls) ≡ (some x, (u, calls'))
      → calls' ≡ calls ++ (ran file.text ∷ inserted file.stem ∷ [])
  unfolding apply_file
  apply_file-noted file d u calls calls' x runs =
      let (a, (e, between), runs_script, inserts) =
        then_do-some ((recording connection).run_script file.text (d, calls)) _ x (u, calls')
          runs in
      let first_note =
        noted-some (λ _. ran file.text) (connection.run_script file.text) d calls between a e
          runs_script in
      let second_note =
        noted-some (λ _. inserted file.stem) (connection.insert_version file.stem) e between calls'
          x u inserts in
      second_note
      ∙ ap (λ l. l ++ (inserted file.stem ∷ [])) first_note
      ∙ append-append calls (ran file.text ∷ []) (inserted file.stem ∷ [])

  apply_files-noted :
      (applied : List String) (files : List MigrationFile) (d u : D)
      (calls calls' : List MigrationCall) (now : List String)
      → apply_files (recording connection) applied files (d, calls) ≡ (some now, (u, calls'))
      → (now ≡ map (λ file. file.stem) (pending applied files))
        × (calls' ≡ calls ++ file_calls (pending applied files))
  unfolding apply_files select
  apply_files-noted applied [] d u calls calls' now runs =
      let same : calls ≡ calls' = cc in (cc, sym same ∙ append-nil calls)
  apply_files-noted applied (file ∷ files) d u calls calls' now runs =
      elim (Bool-cases (is_applied applied file.stem)) [
        | inl is_old ↦
            rw is_old (apply_files-noted applied files d u calls calls' now (rw is_old at runs))
        | inr is_new ↦
            let (x, (e, between), applies, after) =
              then_do-some (apply_file (recording connection) file (d, calls)) _ now (u, calls')
                (rw is_new at runs) in
            let (rest, rest_runs, now_is) =
              appended file.stem (apply_files (recording connection) applied files (e, between)) now
                (u, calls') after in
            let own = apply_file-noted file d e calls between x applies in
            let (names, others) =
              apply_files-noted applied files e u between calls' rest rest_runs in
            rw is_new (
              now_is ∙ ap (λ l. file.stem ∷ l) names,
              others
                  ∙ ap (λ l. l ++ file_calls (pending applied files)) own
                  ∙ append-append calls (ran file.text ∷ inserted file.stem ∷ [])
                      (file_calls (pending applied files)),
            )
      ]

-- A run of the migrations that returns has read some versions; for each file that is not one of them, in the files'
-- order, it has run the script and then inserted the version; it has then committed and ended the
-- connection; these are all its calls, and the files' versions are what it returns.
pub apply_sqlite_migrations-calls :
    {D : Type 0} (connection : MigrationConnection D) (files : List MigrationFile) (d u : D)
    (now : List String) (calls : List MigrationCall)
    → apply_sqlite_migrations (recording connection) files (d, []) ≡ (some now, (u, calls))
    → (versions : List String) × (now ≡ map (λ file. file.stem) (pending versions files))
      × (calls
          ≡ (connected ∷ created ∷ listed versions ∷ file_calls (pending versions files))
            ++ (committed ∷ left true ∷ []))
unfolding apply_sqlite_migrations migrate
apply_sqlite_migrations-calls connection files d u now calls runs =
    let c = recording connection in
    let (x1, (d1, l1), connects, r1) = then_do-some (c.connect (d, [])) _ now (u, calls) runs in
    let ((d5, l5), body, leaves) = leaving-some c (migrate c files (d1, l1)) now (u, calls) r1 in
    let (x2, (d2, l2), creates, r2) = then_do-some (c.create_table (d1, l1)) _ now (d5, l5) body in
    let (versions, (d3, l3), reads, r3) = then_do-some (c.versions (d2, l2)) _ now (d5, l5) r2 in
    let (rest, (d4, l4), applies, r4) =
      then_do-some (apply_files c versions files (d3, l3)) _ now (d5, l5) r3 in
    let (x5, commits, all_names) = last-some (c.commit (d4, l4)) rest now (d5, l5) r4 in
    let (names, ran_files) = apply_files-noted connection versions files d3 d4 l3 l4 rest applies in
    let n1 = noted-some (λ _. connected) connection.connect d [] l1 x1 d1 connects in
    let n2 = noted-some (λ _. created) connection.create_table d1 l1 l2 x2 d2 creates in
    let n3 = noted-some listed connection.versions d2 l2 l3 versions d3 reads in
    let n5 = noted-some (λ _. committed) connection.commit d4 l4 l5 x5 d5 commits in
    let n6 = noted-some (λ _. left true) (connection.leave true) d5 l5 calls tt u leaves in
    (
      versions,
      sym all_names ∙ names,
      trace_of versions (pending versions files) l1 l2 l3 l4 l5 calls n1 n2 n3 ran_files n5 n6,
    )
