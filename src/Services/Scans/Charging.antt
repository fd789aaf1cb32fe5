-- ===== src/Services/Scans/Charging.antt =====
-- The end of a scan and its price (`complete_scan`, `fail_scan` and `cancel_scan` of
-- apps/api/kerislab/services.py): a reservation is settled once, however often a scan is ended.
use kerislab.Prelude.{
  String, List, ◌∷◌, ◌≡◌, [], Option-cases, some, ap, arith, inl, none, ◌+◌, inr, sym, refl, ◌∙◌,
}
use kerislab.Models.Scanning.{Scan}
use kerislab.Exec.{World, Exec}
use kerislab.Services.Books.{Books, proceed-keeps}
use kerislab.Services.Credits.Settling.{
  hold, charge, entries, deduct-charge, deduct-settles, release-charge, release-settles,
}
use kerislab.Services.Scans.{complete_scan, cancel_scan, fail_scan, emit}
use kerislab.Dict.{lookup}
use kerislab.Services.Scans.Keeps.{
  complete_scan-Books, with_scan, cancel_scan-Books, fail_scan-Books,
}
use kerislab.Models.Status.{ScanStatus}
use kerislab.Services.Credits.{deduct_completed_scan, release_scan}

-- The three ways to end a scan.
pub data Ending : Type 0 where
  by_completion by_cancellation : Ending
  by_failure : String → Ending

unfoldable pub finish_by : Ending → String → Exec Scan
finish_by by_completion scan_id = complete_scan scan_id
finish_by by_cancellation scan_id = cancel_scan scan_id
finish_by (by_failure reason) scan_id = fail_scan scan_id reason

-- One ending after the other, with what each returns or raises dropped.
unfoldable pub end_all : List Ending → String → World → World
unfolding finish_by
end_all [] scan_id w = w
end_all (e ∷ es) scan_id w = end_all es scan_id (finish_by e scan_id w).1

-- The scan is written under the key by which it was fetched, and then its reservation is settled;
-- the event behind it is no matter of the ledger.
settled-charge :
    (settle : Scan → Exec Unit)
    → ((scan : Scan) (w : World) → charge scan.id (settle scan w).1.store ≡ charge scan.id w.store)
    → (scan_id : String) (scan : Scan) (w : World) → scan.id ≡ scan_id
    → charge scan_id (settle scan (with_scan scan_id scan w)).1.store ≡ charge scan_id w.store
settled-charge settle h scan_id scan w e =
    ap (λ i. charge i (settle scan (with_scan scan_id scan w)).1.store) (sym e)
    ∙ h scan (with_scan scan_id scan w)
    ∙ ap (λ i. charge i w.store) e

settled-hold :
    (settle : Scan → Exec Unit)
    → ((scan : Scan) (w : World) → hold scan.id (settle scan w).1.store ≡ 0)
    → (scan_id : String) (scan : Scan) (w : World) → scan.id ≡ scan_id
    → hold scan_id (settle scan (with_scan scan_id scan w)).1.store ≡ 0
settled-hold settle h scan_id scan w e =
    ap (λ i. hold i (settle scan (with_scan scan_id scan w)).1.store) (sym e)
    ∙ h scan (with_scan scan_id scan w)

module _ (scan_id : String) (w : World) (b : Books w.store) where
  -- the charge stays what it was, and nothing is held any more
  abbrev Settled : World → Type 0
  Settled v = (charge scan_id v.store ≡ charge scan_id w.store) × (hold scan_id v.store ≡ 0)

  end_found :
      (e : Ending) (scan : Scan)
      → lookup scan_id w.store.scans ≡ some scan
      → Settled (finish_by e scan_id w).1
  unfolding finish_by complete_scan cancel_scan fail_scan emit
  end_found by_completion scan found =
      let later : World = record w { ticks = w.ticks + 1 } in
      let completed : Scan = record scan {
        status = ScanStatus.completed;
        completed_at = some (w.env.clock w.ticks);
      } in
      let own = b.named scan_id scan found in
      rw found (
        proceed-keeps Settled (deduct_completed_scan completed (with_scan scan_id completed later))
          _
          (
            settled-charge deduct_completed_scan deduct-charge scan_id completed later own,
            settled-hold deduct_completed_scan deduct-settles scan_id completed later own,
          )
          (λ _ v h. h))
  end_found by_cancellation scan found =
      let cancelled : Scan = record scan { status = ScanStatus.cancelled } in
      let own = b.named scan_id scan found in
      rw found (
        proceed-keeps Settled (release_scan cancelled (with_scan scan_id cancelled w)) _
          (
            settled-charge release_scan release-charge scan_id cancelled w own,
            settled-hold release_scan release-settles scan_id cancelled w own,
          )
          (λ _ v h. h))
  end_found (by_failure reason) scan found =
      let failed : Scan = record scan { status = ScanStatus.failed } in
      let own = b.named scan_id scan found in
      rw found (
        proceed-keeps Settled (release_scan failed (with_scan scan_id failed w)) _
          (
            settled-charge release_scan release-charge scan_id failed w own,
            settled-hold release_scan release-settles scan_id failed w own,
          )
          (λ _ v h. h))

  end_missing : (e : Ending) → lookup scan_id w.store.scans ≡ none → (finish_by e scan_id w).1 ≡ w
  unfolding finish_by complete_scan cancel_scan fail_scan
  end_missing by_completion e = rw e refl
  end_missing by_cancellation e = rw e refl
  end_missing (by_failure reason) e = rw e refl

  end-Settled : (e : Ending) → hold scan_id w.store ≡ 0 → Settled (finish_by e scan_id w).1
  end-Settled e h = elim (Option-cases (lookup scan_id w.store.scans)) [
    | inl missing ↦ rw (end_missing e missing) (refl, h)
    | inr (scan, found) ↦ end_found e scan found
  ]

  finish_by-Books : (e : Ending) → Books (finish_by e scan_id w).1.store
  unfolding finish_by
  finish_by-Books by_completion = complete_scan-Books scan_id w b
  finish_by-Books by_cancellation = cancel_scan-Books scan_id w b
  finish_by-Books (by_failure reason) = fail_scan-Books scan_id w b reason

end_all_settled :
    (es : List Ending) (scan_id : String) (w : World)
    → Books w.store
    → hold scan_id w.store ≡ 0
    → (entries (end_all es scan_id w).store ≡ entries w.store)
      × (hold scan_id (end_all es scan_id w).store ≡ 0)
unfolding end_all
end_all_settled [] scan_id w b h = (refl, h)
end_all_settled (e ∷ es) scan_id w b h =
    let (same, gone) = end-Settled scan_id w b e h in
    let (later, still) =
      end_all_settled es scan_id (finish_by e scan_id w).1 (finish_by-Books scan_id w b e) gone in
    (omega (arith, same, gone, later, h), still)

-- On books that fit, a stored scan that is completed, failed or cancelled, and after that ended any number of times
-- in any order, adds one entry to the ledger if its reservation held a credit and none otherwise,
-- and holds no credit in the end.
pub end_all-charges_once :
    (e : Ending) (es : List Ending) (scan_id : String) (scan : Scan) (w : World)
    → Books w.store
    → lookup scan_id w.store.scans ≡ some scan
    → let s = (end_all (e ∷ es) scan_id w).store in
      (entries s ≡ entries w.store + hold scan_id w.store) × (hold scan_id s ≡ 0)
unfolding end_all
end_all-charges_once e es scan_id scan w b found =
    let (same, gone) = end_found scan_id w b e scan found in
    let (later, still) =
      end_all_settled es scan_id (finish_by e scan_id w).1 (finish_by-Books scan_id w b e) gone in
    (omega (arith, same, gone, later), still)
