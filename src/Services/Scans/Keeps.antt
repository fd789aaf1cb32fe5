-- ===== src/Services/Scans/Keeps.antt =====
-- Every operation of `ScanService` (apps/api/kerislab/services.py) keeps the books, whether it
-- returns or raises.
use kerislab.Models.Status.{ScanStatus}
use kerislab.Prelude.{
  String, Option-cases, inl, inr, Bool-cases, refl, some, ◌≡◌, arith, ◌∙◌, ◌+◌, eq_iff,
}
use kerislab.Exec.{World, Exec}
use kerislab.Models.Scanning.{Scan}
use kerislab.Services.Books.{Books, update-Books, proceed-keeps, release-Books, deduct-Books}
use kerislab.Dict.{insert, lookup, Dict, lookup-insert}
use kerislab.Services.Scans.{
  pause_scan, update_instructions, resume_scan, fail_scan, emit, cancel_scan, complete_scan,
  is_paused, can_pause,
}
use kerislab.Services.Credits.{release_scan, deduct_completed_scan}

-- A scan is written under the key by which it was fetched.
abbrev pub with_scan : String → Scan → World → World
with_scan scan_id scan w = record w {
  store = record w.store { scans = insert scan_id scan w.store.scans };
}

stored :
    (scan_id : String) (scan : Scan) (d : Dict Scan)
    → scan.id ≡ scan_id
    → lookup scan.id (insert scan_id scan d) ≡ some scan
stored scan_id scan d h =
    ground (arith, lookup-insert scan_id scan.id scan d, eq_iff scan_id scan.id)

-- A fetched scan gets a new status and its reservation is settled; the event behind it is no
-- matter of the books.
module _ (settle : Scan → Exec Unit)
    (settle-Books : (scan : Scan) (w : World)
      → lookup scan.id w.store.scans ≡ some scan
      → Books w.store
      → Books (settle scan w).1.store)
    (scan_id : String) (old new : Scan) (w : World)
    (found : lookup scan_id w.store.scans ≡ some old) (same_id : new.id ≡ old.id)
    (same_workspace : new.workspace_id ≡ old.workspace_id) (b : Books w.store) where
  settled-Books : Books (settle new (with_scan scan_id new w)).1.store
  settled-Books =
      settle-Books new (with_scan scan_id new w)
        (stored scan_id new w.store.scans (same_id ∙ b.named scan_id old found))
        (update-Books w.store scan_id old new found same_id same_workspace b)

module _ (scan_id : String) (w : World) (b : Books w.store) where
  pub pause_scan-Books : Books (pause_scan scan_id w).1.store
  unfolding pause_scan emit
  pause_scan-Books = elim (Option-cases (lookup scan_id w.store.scans)) [
    | inl e ↦ rw e b
    | inr (scan, e) ↦ elim (Bool-cases (can_pause scan.status)) [
      | inl may ↦
          rw (e, may)
            (update-Books w.store scan_id scan (record scan { status = ScanStatus.paused }) e refl
              refl b)
      | inr may_not ↦ rw (e, may_not) b
    ]
  ]

  pub resume_scan-Books : Books (resume_scan scan_id w).1.store
  unfolding resume_scan emit
  resume_scan-Books = elim (Option-cases (lookup scan_id w.store.scans)) [
    | inl e ↦ rw e b
    | inr (scan, e) ↦ elim (Bool-cases (is_paused scan.status)) [
      | inl may ↦
          rw (e, may)
            (update-Books w.store scan_id scan (record scan { status = ScanStatus.running }) e refl
              refl b)
      | inr may_not ↦ rw (e, may_not) b
    ]
  ]

  pub update_instructions-Books :
      (instructions : String) → Books (update_instructions scan_id instructions w).1.store
  unfolding update_instructions emit
  update_instructions-Books instructions = elim (Option-cases (lookup scan_id w.store.scans)) [
    | inl e ↦ rw e b
    | inr (scan, e) ↦ rw e (
        update-Books w.store scan_id scan (record scan { instructions = instructions }) e refl refl
          b)
  ]

  pub fail_scan-Books : (reason : String) → Books (fail_scan scan_id reason w).1.store
  unfolding fail_scan emit
  fail_scan-Books reason = elim (Option-cases (lookup scan_id w.store.scans)) [
    | inl e ↦ rw e b
    | inr (scan, e) ↦
        let failed : Scan = record scan { status = ScanStatus.failed } in
        rw e (
          proceed-keeps (λ v. Books v.store) (release_scan failed (with_scan scan_id failed w)) _
            (settled-Books release_scan (λ scan v at h. release-Books scan scan v at refl h) scan_id
              scan failed w e refl refl b)
            (λ _ v h. h))
  ]

  pub cancel_scan-Books : Books (cancel_scan scan_id w).1.store
  unfolding cancel_scan emit
  cancel_scan-Books = elim (Option-cases (lookup scan_id w.store.scans)) [
    | inl e ↦ rw e b
    | inr (scan, e) ↦
        let cancelled : Scan = record scan { status = ScanStatus.cancelled } in
        rw e (
          proceed-keeps (λ v. Books v.store)
            (release_scan cancelled (with_scan scan_id cancelled w)) _
            (settled-Books release_scan (λ scan v at h. release-Books scan scan v at refl h) scan_id
              scan cancelled w e refl refl b)
            (λ _ v h. h))
  ]

  pub complete_scan-Books : Books (complete_scan scan_id w).1.store
  unfolding complete_scan emit
  complete_scan-Books = elim (Option-cases (lookup scan_id w.store.scans)) [
    | inl e ↦ rw e b
    | inr (scan, e) ↦
        let completed : Scan = record scan {
          status = ScanStatus.completed;
          completed_at = some (w.env.clock w.ticks);
        } in
        let later : World = record w { ticks = w.ticks + 1 } in
        rw e (
          proceed-keeps (λ v. Books v.store)
            (deduct_completed_scan completed (with_scan scan_id completed later)) _
            (settled-Books deduct_completed_scan (λ scan v at h. deduct-Books scan scan v at refl h)
              scan_id scan completed later e refl refl b)
            (λ _ v h. h))
  ]
