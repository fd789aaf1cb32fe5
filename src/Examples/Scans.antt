-- ===== src/Examples/Scans.antt =====
-- Runs of the scan service.
use kerislab.Services.Scans.Charging.{end_all, by_completion, by_cancellation, end_all-charges_once}
use kerislab.Prelude.{String, any, ◌≡◌, some, refl, occurs_in, ◌∷◌, [], true, none, concat, ◌+◌}
use kerislab.Services.Lifecycle.{act, Drawn, cancels, Reaches-Books, step}
use kerislab.Services.Scans.{create_scan, emit, complete_scan, resume_scan, pause_scan, cancel_scan}
use kerislab.Services.Scans.Creation.{ordered, create_by}
use kerislab.Scope.{validate_target_scope, host_from_url, host_of, check_ip, check_excludes}
use kerislab.Examples.Sample.{
  sample_order, granted_world, ordered_world, sample_store, sample_target, in_world, sample_world,
  sample_env, sample_Books, ordered_Books, ordered-Reaches,
}
use kerislab.Services.Credits.{
  reserve_for_scan, grant, append_entry, account, or_new_account, reservation_at, release_scan,
}
use kerislab.Dict.{lookup, insert}
use kerislab.Models.Scanning.{Scan}
use kerislab.Models.Money.{CreditReservation}
use kerislab.Exec.{World, err, credit_error, next_id}
use kerislab.Scope.Decision.{in_scope}
use kerislab.Prelude.Int.{◌+ℤ◌, ◌-ℤ◌}
use kerislab.Services.Scans.Pausing.{resume_scan-pause_scan}
use kerislab.Models.Status.{CreditReservationStatus, ScanStatus}
use kerislab.Services.Credits.Settling.{entries, hold}
use kerislab.Services.Scans.Refusals.{create_scan-without_credit, status_at, complete_scan-released}
use kerislab.Services.Books.{Books}

abbrev sample_id : String
sample_id = (ordered sample_order granted_world).id

ordered-found :
    lookup sample_id ordered_world.store.scans ≡ some (ordered sample_order granted_world)
unfolding act create_scan validate_target_scope host_from_url host_of any check_ip check_excludes
    reserve_for_scan grant append_entry account or_new_account lookup insert emit occurs_in ◌+ℤ◌
    next_id concat
ordered-found = refl

end_all-charges_once_example :
    let s =
      (end_all
        (by_completion ∷ by_cancellation ∷ by_completion ∷ [])
        sample_id
        ordered_world).store in
    (entries s ≡ entries ordered_world.store + hold sample_id ordered_world.store)
    × (hold sample_id s ≡ 0)
end_all-charges_once_example =
    end_all-charges_once by_completion (by_cancellation ∷ by_completion ∷ []) sample_id
      (ordered sample_order granted_world) ordered_world ordered_Books ordered-found

-- a scan of the given status alone in the store
abbrev running_scan : Scan
running_scan = record (ordered sample_order sample_world) {
  status = ScanStatus.running;
  id = "scn";
}

abbrev running_world : World
running_world = in_world (record sample_store { scans = ("scn", running_scan) ∷ [] })

resume_scan-pause_scan_example :
    lookup "scn" (resume_scan "scn" (pause_scan "scn" running_world).1).1.store.scans
    ≡ some running_scan
unfolding lookup
resume_scan-pause_scan_example =
    resume_scan-pause_scan "scn" running_scan running_world refl refl "scn"

in_scope-sample : in_scope sample_env sample_target ≡ true
unfolding in_scope any occurs_in
in_scope-sample = refl

target-found : lookup "tgt" sample_store.targets ≡ some sample_target
unfolding lookup
target-found = refl

create_scan-without_credit_example :
    let (r, v) = create_by sample_order sample_world in
    (r ≡ err (credit_error "workspace has no available scan credits"))
    × (lookup (ordered sample_order sample_world).id v.store.scans
        ≡ some (ordered sample_order sample_world))
    × (lookup (ordered sample_order sample_world).id v.store.credit_reservations ≡ none)
unfolding lookup
create_scan-without_credit_example =
    create_scan-without_credit sample_order sample_target sample_world target-found in_scope-sample
      refl sample_Books refl

-- the ordered scan, cancelled
abbrev cancelled_world : World
cancelled_world = act (cancels sample_id) ordered_world

-- the world in which the reservation is made
abbrev placed_world : World
placed_world = record granted_world {
  ticks = granted_world.ticks + 1;
  drawn = granted_world.drawn + 1;
}

abbrev cancelled_reservation : CreditReservation
cancelled_reservation = record (reservation_at "wsp" sample_id placed_world) {
  status = CreditReservationStatus.released;
}

abbrev cancelled_scan : Scan
cancelled_scan = record (ordered sample_order granted_world) { status = ScanStatus.cancelled }

cancelled_Books : Books cancelled_world.store
unfolding Drawn
cancelled_Books =
    Reaches-Books (step (cancels sample_id) ordered_world ordered-Reaches tt) sample_Books

cancelled-found : lookup sample_id cancelled_world.store.scans ≡ some cancelled_scan
unfolding act create_scan validate_target_scope host_from_url host_of any check_ip check_excludes
    reserve_for_scan grant append_entry account or_new_account lookup insert emit occurs_in ◌+ℤ◌
    ◌-ℤ◌ next_id concat cancel_scan release_scan
cancelled-found = refl

cancelled-released :
    lookup sample_id cancelled_world.store.credit_reservations ≡ some cancelled_reservation
unfolding act create_scan validate_target_scope host_from_url host_of any check_ip check_excludes
    reserve_for_scan grant append_entry account or_new_account lookup insert emit occurs_in ◌+ℤ◌
    ◌-ℤ◌ next_id concat cancel_scan release_scan
cancelled-released = refl

complete_scan-released_example :
    let (result, v) = complete_scan sample_id cancelled_world in
    (result ≡ err (credit_error "cannot deduct a released credit reservation"))
    × (status_at sample_id v ≡ some ScanStatus.completed)
    × (v.store.credit_accounts ≡ cancelled_world.store.credit_accounts)
    × (v.store.credit_ledger ≡ cancelled_world.store.credit_ledger)
complete_scan-released_example =
    complete_scan-released sample_id cancelled_scan cancelled_reservation cancelled_world
      cancelled_Books cancelled-found cancelled-released refl
