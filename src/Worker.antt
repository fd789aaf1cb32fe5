-- ===== src/Worker.antt =====
-- apps/api/kerislab/worker.py: one round of the worker's loop, and its end. The settings that
-- `os.getenv` and `socket` give, the signals and the pause between rounds are outside.
use kerislab.Exec.{World, Result, Exec, pure, ok, ◌>>=◌, ◌>>◌, attempt, err, message, proceed}
use kerislab.Prelude.Int.{ℤ, pos, ◌+ℤ◌}
use kerislab.Services.Workers.{heartbeat, or_new_worker}
use kerislab.Prelude.{String, ℕ, ◌≡◌, suc, some, zero, Option-cases, refl, inl, inr, ap, arith, ◌∙◌}
use kerislab.Dict.{Dict, lookup, lookup-insert_self}
use kerislab.Models.Running.{WorkerHeartbeat}
use kerislab.Services.Engine.{drain_available_jobs}

-- What the worker reads from its surroundings when it starts.
pub record Settings : Type 0 where
  pub worker_id : String
  pub worker_name : String
  pub redis_queue : String

abbrev beat : Settings → ℤ → String → String → Exec WorkerHeartbeat
beat settings processed_jobs status error =
    heartbeat settings.worker_id settings.worker_name settings.redis_queue processed_jobs status
      error

-- the body of the `try`, with the number of jobs that it has counted
try_round : Settings → ℤ → Exec ℤ
try_round settings processed_jobs = do
  beat settings processed_jobs "running" ""
  drained ← drain_available_jobs
  let processed : ℤ = processed_jobs +ℤ pos drained
  beat settings processed "running" ""
  pure processed

-- behind the `try`
close_round : Settings → ℤ → Result ℤ → Exec ℤ
close_round settings processed_jobs (ok processed) = pure processed
close_round settings processed_jobs (err e) = do
  beat settings processed_jobs "error" (message e)
  pure processed_jobs

-- One round of the loop: the number of processed jobs that the next one starts with.
unfoldable pub round : Settings → ℤ → Exec ℤ
unfolding try_round close_round
round settings processed_jobs = do
  outcome ← attempt (try_round settings processed_jobs)
  close_round settings processed_jobs outcome

-- Rounds until the worker is told to stop, and then the last heartbeat.
rounds : ℕ → Settings → ℤ → Exec ℤ
rounds zero settings processed_jobs = pure processed_jobs
rounds (suc n) settings processed_jobs = do
  processed ← round settings processed_jobs
  rounds n settings processed

unfoldable pub run_worker : ℕ → Settings → Exec WorkerHeartbeat
unfolding rounds
run_worker n settings = do
  processed ← rounds n settings (pos 0)
  beat settings processed "stopping" ""

abbrev pub stored_by : {A : Type 0} → A × World → Dict WorkerHeartbeat
stored_by p = p.1.store.worker_heartbeats

heartbeat-returns :
    (worker_id name queue_name status error : String) (processed_jobs : ℤ) (w : World)
    → (b : WorkerHeartbeat) × ((heartbeat worker_id name queue_name processed_jobs status error w).0
        ≡ ok b)
      × (b.status ≡ status)
      × (lookup worker_id
            (stored_by (heartbeat worker_id name queue_name processed_jobs status error w))
          ≡ some b)
unfolding heartbeat or_new_worker
heartbeat-returns worker_id name queue_name status error processed_jobs w =
    elim (Option-cases (lookup worker_id w.store.worker_heartbeats)) [
      | inl e ↦ rw e (_, refl, refl, lookup-insert_self worker_id _ w.store.worker_heartbeats)
      | inr (old, e) ↦
          rw e (_, refl, refl, lookup-insert_self worker_id _ w.store.worker_heartbeats)
    ]

proceed-ok :
    {A B : Type 0} (p : Result A × World) (f : A → Exec B) (a : A)
    → p.0 ≡ ok a
    → proceed p f ≡ f a p.1
proceed-ok (ok b, w) f a h = ground (arith, h)
proceed-ok (err e, w) f a h = cc

close_round-returns :
    (settings : Settings) (processed_jobs : ℤ) (outcome : Result ℤ) (w : World)
    → (n : ℤ) × ((close_round settings processed_jobs outcome w).0 ≡ ok n)
unfolding close_round
close_round-returns settings processed_jobs (ok n) w = (n, refl)
close_round-returns settings processed_jobs (err e) w =
    let (b, h, status, stored) =
      heartbeat-returns settings.worker_id settings.worker_name settings.redis_queue "error"
        (message e) processed_jobs w in
    (processed_jobs, ap (λ p. p.0) (proceed-ok _ (λ _. pure processed_jobs) b h))

rounds-returns :
    (n : ℕ) (settings : Settings) (processed_jobs : ℤ) (w : World)
    → (m : ℤ) × ((rounds n settings processed_jobs w).0 ≡ ok m)
unfolding rounds round
rounds-returns zero settings processed_jobs w = (processed_jobs, refl)
rounds-returns (suc n) settings processed_jobs w =
    let (m, h) = close_round-returns settings processed_jobs _ _ in
    let (k, later) = rounds-returns n settings m (round settings processed_jobs w).1 in
    (
      k,
      ap (λ p. p.0) (proceed-ok (round settings processed_jobs w) (rounds n settings) m h) ∙ later,
    )

-- However many rounds the worker makes, and whatever its jobs raise in them, it comes to its end: its last
-- heartbeat returns, and its record is stored as stopping.
pub run_worker-stops :
    (n : ℕ) (settings : Settings) (w : World)
    → (b : WorkerHeartbeat) × ((run_worker n settings w).0 ≡ ok b)
      × (b.status ≡ "stopping")
      × (lookup settings.worker_id (stored_by (run_worker n settings w)) ≡ some b)
unfolding run_worker
run_worker-stops n settings w =
    let (m, h) = rounds-returns n settings (pos 0) w in
    rw (proceed-ok (rounds n settings (pos 0) w) _ m h) (
      heartbeat-returns settings.worker_id settings.worker_name settings.redis_queue "stopping" "" m
        (rounds n settings (pos 0) w).1)
