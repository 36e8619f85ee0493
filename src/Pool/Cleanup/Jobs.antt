-- ===== src/Pool/Cleanup/Jobs.antt =====
-- internal/pool/lifecycle_state.go and lifecycle_cleanup.go: what is recorded of jobs and of instances
-- without a record, and the reconciliation of a job with GitHub.
use ephemeral_action_runner.Shared.{
  ◌+◌, ◌*◌, ◌^◌, ℤ, Str, codes, is_empty, Bool, true, false, not, ◌||◌, if◌then◌else◌, Option, none,
  some, List, [], ◌∷◌, ◌++◌,
}
use ephemeral_action_runner.PoolState.Types.{Phase, Action, Payload, Record, Discovery, ◌is◌}
use ephemeral_action_runner.Pool.Cleanup.Host.{
  RecordStore, Host, Settings, Runner, InventoryItem, Refusal, CleanupError, M, ◌>>=◌, ◌>>◌, pure,
  fail, ignoring, read, transition, acquire, release, report, current_time, runner_by_name,
}
use ephemeral_action_runner.Pool.Cleanup.Facts.{
  bare, zero_id, same_id, any_held, job, usable_receipt,
}

module _ (h : Host) (s : RecordStore) (k : Settings) where
  abbrev C : Type 0 → Type 0
  C A = M h s A

  abbrev refuse : {A : Type 0} → Refusal → C A
  refuse x = fail (CleanupError.refused x)

  abbrev pub move : Str → Action → C Record
  move n a = transition h s n (bare a)

  unfoldable pub discovery_of : InventoryItem → Discovery
  unfolding usable_receipt
  discovery_of i =
      let x = i.instance_of in
      record {
        provider_type = k.provider_type;
        provider_id =
            (if is_empty x.provider_id then codes "unidentified:" ++ x.name else x.provider_id);
        exact_name = x.name;
        receipt =
            (if usable_receipt x.receipt then x.receipt else record {
              version = codes "v1";
              payload = Payload.object (k.describe i.state i.source);
            });
        observed_at = 0;
      }

  unfoldable pub report_all : List InventoryItem → C (Unit {0})
  report_all [] = pure tt
  report_all (i ∷ is') = report h s (discovery_of i) >>= λ x. report_all is'

  unfoldable pub mark_cleanup_pending : Str → C (Unit {0})
  mark_cleanup_pending n = ignoring (move n Action.cleanup_pending)

  unfoldable pub quarantine_lifecycle : Str → Str → C (Unit {0})
  quarantine_lifecycle n reason =
      ignoring (transition h s n (record (bare Action.quarantine) { reason = reason }))

  unfoldable pub holder_of : ℤ → Str
  holder_of id = codes "github-" ++ k.decimal id

  unfoldable pub release_job : Str → ℤ → C (Unit {0})
  release_job n id = ignoring (release h s n job (holder_of id))

  -- recordLifecycleJobObservation, by what the read found.
  unfoldable pub note_busy : Runner → Record → C (Unit {0})
  note_busy x r =
      (if r.phase is Phase.ready
        then move x.name Action.job_started >>= (λ q. pure tt)
        else pure tt)
      >> (current_time h s >>= λ now.
          acquire h s x.name
            (record { purpose = job; holder = holder_of x.id; expires_at = now + 600 * 10 ^ 9 })
          >>= λ q. pure tt)

  unfoldable pub note_idle : Runner → Record → C (Unit {0})
  note_idle x r =
      if r.phase is Phase.busy
      then move x.name Action.job_finished >>= (λ q. release_job x.name x.id)
      else if any_held job (holder_of x.id) r.leases
      then release_job x.name x.id
      else pure tt

  unfoldable pub record_job_observation : Runner → C (Unit {0})
  record_job_observation x =
      read h s x.name >>= λ r. if x.busy then note_busy x r else note_idle x r

  unfoldable pub record_remote_absence : Str → C (Unit {0})
  record_remote_absence n = read h s n >>= λ r.
      (if r.phase is Phase.busy then move n Action.job_finished >>= (λ q. pure tt) else pure tt)
      >> (if not (zero_id r.git_hub.runner_id) then release_job n r.git_hub.runner_id else pure tt)

  unfoldable pub reconciles : Record → Bool
  reconciles r = r.phase is Phase.busy || any_held job (holder_of r.git_hub.runner_id) r.leases

  -- What follows from GitHub's answer.
  unfoldable pub reconcile_answer : Record → Option Runner → C Bool
  reconcile_answer r none = record_remote_absence r.name >> pure true
  reconcile_answer r (some x) =
      if not (same_id x.id r.git_hub.runner_id)
      then refuse Refusal.mismatch
      else (record_job_observation x >> pure false)

  unfoldable pub reconcile_job_lease : Record → C Bool
  reconcile_job_lease r =
      if not (reconciles r)
      then pure false
      else if not k.github || (is_empty r.git_hub.exact_name || zero_id r.git_hub.runner_id)
      then refuse Refusal.unverifiable
      else runner_by_name h s r.git_hub.exact_name >>= reconcile_answer r
