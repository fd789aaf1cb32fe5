-- ===== src/Services/Lifecycle.antt =====
-- What the platform does with credits and scans (apps/api/kerislab/services.py) as one step
-- relation: any operation of `ScanService` and `AutonomousPentestService` and any grant, in any
-- order, refused ones included.
use kerislab.Prelude.{String, count, ◌≡◌, refl}
use kerislab.Dict.{lookup, values}
use kerislab.Exec.{World}
use kerislab.Store.State.{Store, empty}
use kerislab.Prelude.Int.{ℤ, ◌+ℤ◌, pos}
use kerislab.Services.Credits.{grant}
use kerislab.Services.Books.{Books, grant-Books}
use kerislab.Services.Scans.Creation.{
  FreshScan, Order, create_by, create_scan-Books, run_passive_scan-Books,
}
use kerislab.Services.Credits.Ledger.{balance_of, replay_from}
use kerislab.Services.Credits.Conservation.{granted_in, total_of_Agrees}
use kerislab.Services.Scans.{
  pause_scan, resume_scan, complete_scan, cancel_scan, run_passive_scan, update_instructions,
  fail_scan,
}
use kerislab.Services.Scans.Keeps.{
  pause_scan-Books, resume_scan-Books, complete_scan-Books, cancel_scan-Books,
  update_instructions-Books, fail_scan-Books,
}
use kerislab.Services.Credits.Reservations.{is_held, is_spent}
use kerislab.Services.Autonomous.{start, request_gated_upload_verification, approve, reject}
use kerislab.Services.Autonomous.Keeps.{
  start-Books, request_gated_upload_verification-Books, approve-Books, reject-Books,
}

pub data Operation : Type 0 where
  grants : String → ℤ → String → Operation
  creates : Order → Operation
  pauses resumes completes cancels runs starts requests : String → Operation
  instructs fails : String → String → Operation
  approves rejects : String → String → String → Operation

-- One operation, with its result or exception dropped.
unfoldable pub act : Operation → World → World
act (grants workspace_id amount note) w = (grant workspace_id amount note w).1
act (creates o) w = (create_by o w).1
act (pauses scan_id) w = (pause_scan scan_id w).1
act (resumes scan_id) w = (resume_scan scan_id w).1
act (completes scan_id) w = (complete_scan scan_id w).1
act (cancels scan_id) w = (cancel_scan scan_id w).1
act (runs scan_id) w = (run_passive_scan scan_id w).1
act (starts scan_id) w = (start scan_id w).1
act (requests scan_id) w = (request_gated_upload_verification scan_id w).1
act (instructs scan_id instructions) w = (update_instructions scan_id instructions w).1
act (fails scan_id reason) w = (fail_scan scan_id reason w).1
act (approves approval_id user_id note) w = (approve approval_id user_id note w).1
act (rejects approval_id user_id note) w = (reject approval_id user_id note w).1

-- The identifiers of scans are twelve digits of a random number: a new one is taken to be new.
unfoldable pub Drawn : Operation → World → Type 0
Drawn (creates o) w = FreshScan w
Drawn _ w = Unit

pub data Reaches (w : World) : World → Type 0 where
  here : Reaches w w
  step : (o : Operation) (v : World) → Reaches w v → Drawn o v → Reaches w (act o v)

act-Books : (o : Operation) (w : World) → Drawn o w → Books w.store → Books (act o w).store
unfolding act Drawn
act-Books (grants workspace_id amount note) w d b = grant-Books workspace_id amount note w b
act-Books (creates o) w d b = create_scan-Books o w d b
act-Books (pauses scan_id) w d b = pause_scan-Books scan_id w b
act-Books (resumes scan_id) w d b = resume_scan-Books scan_id w b
act-Books (completes scan_id) w d b = complete_scan-Books scan_id w b
act-Books (cancels scan_id) w d b = cancel_scan-Books scan_id w b
act-Books (runs scan_id) w d b = run_passive_scan-Books scan_id w b
act-Books (starts scan_id) w d b = start-Books scan_id w b
act-Books (requests scan_id) w d b = request_gated_upload_verification-Books scan_id w b
act-Books (instructs scan_id instructions) w d b =
    update_instructions-Books scan_id w b instructions
act-Books (fails scan_id reason) w d b = fail_scan-Books scan_id w b reason
act-Books (approves approval_id user_id note) w d b = approve-Books approval_id user_id note w b
act-Books (rejects approval_id user_id note) w d b = reject-Books approval_id user_id note w b

-- From books that fit, every sequence of operations leads to books that fit: each account is what its ledger
-- entries add up to, it holds a credit for each open reservation and has spent one for each
-- deducted one, each reservation belongs to the workspace of its scan, and each scan is stored
-- under its identifier.
pub Reaches-Books : {w v : World} → Reaches w v → Books w.store → Books v.store
Reaches-Books here b = b
Reaches-Books (step o v r d) b = act-Books o v d (Reaches-Books r b)

pub empty-Books : Books empty
unfolding lookup values count replay_from
empty-Books = record {
  agrees = λ j. refl;
  counted = record { held = λ j. refl; spent = λ j. refl };
  covered = λ j r h. cc;
  named = λ j scan h. cc;
}

-- What a workspace still has to spend, and what its reservations hold and have cost.
abbrev pub explained : String → Store → ℤ
explained workspace_id s =
    (balance_of workspace_id s).available
    +ℤ pos (count (is_held workspace_id) (values s.credit_reservations))
    +ℤ pos (count (is_spent workspace_id) (values s.credit_reservations))

-- After any sequence of operations on books that fit, the free credits of a workspace, its open reservations and
-- its deducted reservations add up to what its ledger entries grant it.
pub credits_explained :
    {w v : World} (workspace_id : String)
    → Reaches w v
    → Books w.store
    → explained workspace_id v.store ≡ granted_in workspace_id v.store.credit_ledger
credits_explained {w} {v} workspace_id r b =
    let books = Reaches-Books r b in
    rw (← books.counted.held workspace_id, ← books.counted.spent workspace_id)
      (total_of_Agrees workspace_id v.store books.agrees)
