-- ===== src/Services/Workers/Alive.antt =====
-- A worker that beats is seen (`heartbeat` and `components` of apps/api/kerislab/services.py).
use kerislab.Services.Workers.{components, heartbeat, Components, is_active, or_new_worker}
use kerislab.Prelude.{
  String, ℕ, ◌≡◌, ◌≤◌, some, ◌+◌, ◌*◌, ◌-◌, true, arith, Option-cases, inl, inr, refl,
}
use kerislab.Models.Running.{WorkerHeartbeat}
use kerislab.Prelude.Int.{ℤ}
use kerislab.Exec.{World, ok, Result}
use kerislab.Dict.{lookup, select-of_lookup, lookup-insert_self}

-- What a heartbeat returns is stored under the worker's identifier, and running.
abbrev Beats : String → Result WorkerHeartbeat × World → Type 0
Beats worker_id p =
    (beat : WorkerHeartbeat) × (p.0 ≡ ok beat)
    × (lookup worker_id p.1.store.worker_heartbeats ≡ some beat)
    × (beat.status ≡ "running")

heartbeat-Beats :
    (worker_id name queue_name error : String) (processed_jobs : ℤ) (w : World)
    → Beats worker_id (heartbeat worker_id name queue_name processed_jobs "running" error w)
unfolding heartbeat or_new_worker
heartbeat-Beats worker_id name queue_name error processed_jobs w =
    elim (Option-cases (lookup worker_id w.store.worker_heartbeats)) [
      | inl e ↦ rw e (_, refl, lookup-insert_self worker_id _ w.store.worker_heartbeats, refl)
      | inr (old, e) ↦
          rw e (_, refl, lookup-insert_self worker_id _ w.store.worker_heartbeats, refl)
    ]

is_active_lem :
    (seconds now : ℕ) (beat : WorkerHeartbeat)
    → beat.status ≡ "running"
    → now ≤ beat.last_seen_at + seconds * 1000000
    → is_active (now - seconds * 1000000) beat ≡ true
is_active_lem seconds now beat h le = rw h (ground arith)

alive :
    (worker_id : String) (seconds : ℕ) (v : World) (beat : WorkerHeartbeat)
    → lookup worker_id v.store.worker_heartbeats ≡ some beat
    → beat.status ≡ "running"
    → v.env.clock v.ticks ≤ beat.last_seen_at + seconds * 1000000
    → (c : Components) × ((components seconds v).0 ≡ ok c) × (c.status ≡ "ok")
unfolding components
alive worker_id seconds v beat found running late =
    let (x, xs, kept) =
      select-of_lookup (is_active (v.env.clock v.ticks - seconds * 1000000)) worker_id beat
        v.store.worker_heartbeats found
        (is_active_lem seconds (v.env.clock v.ticks) beat running late) in
    (_, refl, rw kept refl)

-- After a heartbeat of a running worker, the components are reported as ok as long as the clock shows no later time
-- than the given number of seconds behind the time that the heartbeat has noted.
pub components-heartbeat :
    (worker_id name queue_name error : String) (processed_jobs : ℤ) (seconds : ℕ) (w v : World)
    (beat : WorkerHeartbeat)
    → heartbeat worker_id name queue_name processed_jobs "running" error w ≡ (ok beat, v)
    → v.env.clock v.ticks ≤ beat.last_seen_at + seconds * 1000000
    → (c : Components) × ((components seconds v).0 ≡ ok c) × (c.status ≡ "ok")
components-heartbeat worker_id name queue_name error processed_jobs seconds w v beat returns late =
    let (stored, same, found, running) =
      rw returns at (heartbeat-Beats worker_id name queue_name error processed_jobs w) in
    alive worker_id seconds v stored found running (ground (arith, same, late))
