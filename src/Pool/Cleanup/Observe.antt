-- ===== src/Pool/Cleanup/Observe.antt =====
-- The reconciliation of a job with GitHub leaves as it was what its calls leave as it was.
use ephemeral_action_runner.Shared.{ℕ, ℤ, Str, not, Option, none, some}
use ephemeral_action_runner.PoolState.Types.{Phase, Action, Lease, Record, ◌is◌}
use ephemeral_action_runner.Pool.Cleanup.Host.{
  RecordStore, StoreLaws, Host, Settings, Runner, World, read, release, acquire, current_time,
  runner_by_name,
}
use ephemeral_action_runner.Pool.Cleanup.Driver.{
  move, same_id, job, holder_of, release_job, note_busy, note_idle, record_job_observation,
  record_remote_absence, reconciles, reconcile_answer, reconcile_job_lease,
}
use ephemeral_action_runner.Pool.Cleanup.Rank.{IsJob}
use ephemeral_action_runner.Pool.Cleanup.Triple.{
  On, Keeps, Keeps-bind, Keeps-if, Keeps-pure, Keeps-fail, Below, read_keeps, job_keeps-Below,
  acquire_keeps, release_keeps,
}

-- What the calls of the reconciliation leave as it was.
pub record Observes (h : Host) (s : RecordStore) (c : Settings) (P : World h s → Type 0)
    : Type 0 where
  pub reads : (m : Str) → Keeps h s P (read h s m)
  pub clock : Keeps h s P (current_time h s)
  pub asks : (m : Str) → Keeps h s P (runner_by_name h s m)
  pub job : (m : Str) {a : Action} → IsJob a → Keeps h s P (move h s c m a)
  pub acquires : (m : Str) (l : Lease) → Keeps h s P (acquire h s m l)
  pub releases : (m p o : Str) → Keeps h s P (release h s m p o)

module _ (h : Host) (s : RecordStore) (c : Settings) (P : World h s → Type 0)
    (o : Observes h s c P) where
  release_job_keeps : (m : Str) (id : ℤ) → Keeps h s P (release_job h s c m id)
  unfolding release_job
  release_job_keeps m id = record { kept = (o.releases m job (holder_of h s c id)).kept }

  note_busy_keeps : (x : Runner) (r : Record) → Keeps h s P (note_busy h s c x r)
  unfolding note_busy
  note_busy_keeps x r =
      Keeps-bind h s
        (Keeps-if h s (r.phase is Phase.ready)
          (Keeps-bind h s (o.job x.name IsJob.started) (λ q. Keeps-pure h s)) (Keeps-pure h s))
        (λ u.
          Keeps-bind h s o.clock
            (λ now. Keeps-bind h s (o.acquires x.name _) (λ q. Keeps-pure h s)))

  note_idle_keeps : (x : Runner) (r : Record) → Keeps h s P (note_idle h s c x r)
  unfolding note_idle
  note_idle_keeps x r =
      Keeps-if h s (r.phase is Phase.busy)
        (Keeps-bind h s (o.job x.name IsJob.ended) (λ q. release_job_keeps x.name x.id))
        (Keeps-if h s _ (release_job_keeps x.name x.id) (Keeps-pure h s))

  observation_keeps : (x : Runner) → Keeps h s P (record_job_observation h s c x)
  unfolding record_job_observation
  observation_keeps x =
      Keeps-bind h s (o.reads x.name)
        (λ r. Keeps-if h s x.busy (note_busy_keeps x r) (note_idle_keeps x r))

  absence_keeps : (m : Str) → Keeps h s P (record_remote_absence h s c m)
  unfolding record_remote_absence
  absence_keeps m = Keeps-bind h s (o.reads m) (λ r.
      Keeps-bind h s
        (Keeps-if h s (r.phase is Phase.busy)
          (Keeps-bind h s (o.job m IsJob.ended) (λ q. Keeps-pure h s)) (Keeps-pure h s))
        (λ u. Keeps-if h s _ (release_job_keeps m r.git_hub.runner_id) (Keeps-pure h s)))

  answer_keeps : (r : Record) (found : Option Runner) → Keeps h s P (reconcile_answer h s c r found)
  unfolding reconcile_answer
  answer_keeps r none = Keeps-bind h s (absence_keeps r.name) (λ u. Keeps-pure h s)
  answer_keeps r (some x) =
      Keeps-if h s (not (same_id x.id r.git_hub.runner_id)) (Keeps-fail h s)
        (Keeps-bind h s (observation_keeps x) (λ u. Keeps-pure h s))

  pub reconcile_keeps : (r : Record) → Keeps h s P (reconcile_job_lease h s c r)
  unfolding reconcile_job_lease
  reconcile_keeps r = Keeps-if h s (not (reconciles h s c r)) (Keeps-pure h s) (
      Keeps-if h s _ (Keeps-fail h s)
        (Keeps-bind h s (o.asks r.git_hub.exact_name) (answer_keeps r)))

module _ (h : Host) (s : RecordStore) (view : s.State → Str → Option Record)
    (laws : StoreLaws s view) (n : Str) (c : Settings) (k : ℕ) where
  -- They leave a record as far from its end as it was.
  pub Near-Observes : Observes h s c (On h s (Below h s view laws n k))
  unfolding current_time runner_by_name
  Near-Observes = record {
    reads = read_keeps h s view laws n _;
    clock = record { kept = λ w p. p };
    asks = λ m. record { kept = λ w p. p };
    job = job_keeps-Below h s view laws n c k;
    acquires = acquire_keeps h s view laws n k;
    releases = release_keeps h s view laws n k;
  }
