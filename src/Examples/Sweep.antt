-- ===== src/Examples/Sweep.antt =====
-- A sweep over the records of a pool that has one ready runner.
use ephemeral_action_runner.Shared.{
  codes, str_eq, false, ◌≡◌, refl, arith, Option, none, some, ok, [], ◌∷◌, not, ◌||◌, Result,
}
use ephemeral_action_runner.PoolState.Types.{Phase, Record, no_cleanup, ◌is◌}
use ephemeral_action_runner.PoolState.Validate.{
  validate_state, validate_sorted, validate_record, validate_identity, validate_leases,
  validate_quarantine, valid_stamp, valid_tombstone, valid_uncertainty, validate_name,
}
use ephemeral_action_runner.PoolState.Lookup.{lookup, find_record}
use ephemeral_action_runner.PoolState.Disk.{
  Attempt, Io, Disk, load, check_loaded, mutate, with_lock, read_in, forget_unknown,
}
use ephemeral_action_runner.PoolState.Store.{transition_in}
use ephemeral_action_runner.PoolState.Transition.{apply_transition, leased}
use ephemeral_action_runner.PoolState.Disk.Encoding.{stored, checksum}
use ephemeral_action_runner.Pool.Cleanup.Host.{
  CleanupError, World, ◌>>=◌, read, transition, current_time, runner_by_name, delete_runner,
  inventory, stop_instance, delete_instance,
}
use ephemeral_action_runner.Pool.Cleanup.Driver.{
  LoopError, cleanup_record, round, unless_leased, reconcile_job_lease, reconciles, act,
  act_on_live, act_on_remote, act_on_local, or_set_aside, remove_exact_runner, delete_exact,
  remove_exact_instance, remove_found, find_exact, any_of_id, recorded_instance,
  active_lifecycle_lease,
}
use ephemeral_action_runner.Pool.Cleanup.Orphans.{sweep_record, sweep_records}
use ephemeral_action_runner.Pool.Cleanup.Swept.{sweep_records-buries}
use mathlib.Core.List.{Memᴰ}
use ephemeral_action_runner.Pool.Cleanup.OnDisk.{disk_store, disk_laws}
use ephemeral_action_runner.Pool.Cleanup.View.{record_of}
use ephemeral_action_runner.Examples.PoolState.{plain, plain_laws}
use ephemeral_action_runner.Examples.Pool.{
  small_host, settings, my_item, ready_record, start, unowned,
}

abbrev after_sweep : World small_host (disk_store plain) × Result CleanupError (Option LoopError)
after_sweep =
    sweep_records small_host (disk_store plain) settings unowned 11 (my_item ∷ [])
      (ready_record ∷ []) none start

abbrev buried_record : Record
buried_record = record ready_record {
  phase = Phase.tombstoned;
  cleanup = record no_cleanup {
    fence_intent_at = some 20;
    remote_verify_at = some 20;
    remote_absent_at = some 20;
    local_remove_intent_at = some 20;
    local_absent_at = some 20;
  };
  generation = 12;
  updated_at = 20;
  tombstoned_at = some 20;
}

seen_after : record_of plain after_sweep.0.records (codes "r1") ≡ some buried_record
unfolding record_of load check_loaded checksum stored validate_state validate_sorted validate_record
    validate_identity validate_leases validate_quarantine valid_stamp valid_tombstone
    valid_uncertainty validate_name lookup sweep_records sweep_record cleanup_record round
    unless_leased reconcile_job_lease reconciles act act_on_live act_on_remote act_on_local
    or_set_aside remove_exact_runner delete_exact remove_exact_instance remove_found find_exact
    any_of_id recorded_instance active_lifecycle_lease ◌>>=◌ read transition current_time
    runner_by_name delete_runner inventory stop_instance delete_instance
    package.ephemeral_action_runner.PoolState.Disk.read
    package.ephemeral_action_runner.PoolState.Disk.transition mutate transition_in apply_transition
    find_record leased with_lock read_in
seen_after = refl

swept_well : after_sweep.1 ≡ ok none
unfolding cleanup_record sweep_records sweep_record round unless_leased reconcile_job_lease
    reconciles act act_on_live act_on_remote act_on_local or_set_aside remove_exact_runner
    delete_exact remove_exact_instance remove_found find_exact any_of_id recorded_instance
    active_lifecycle_lease ◌>>=◌ read transition current_time runner_by_name delete_runner inventory
    stop_instance delete_instance package.ephemeral_action_runner.PoolState.Disk.read
    package.ephemeral_action_runner.PoolState.Disk.transition mutate transition_in apply_transition
    find_record leased with_lock read_in record_of load check_loaded checksum stored validate_state
    validate_sorted validate_record validate_identity validate_leases validate_quarantine
    valid_stamp valid_tombstone valid_uncertainty validate_name lookup
swept_well = refl

swept_mine :
    not (str_eq ready_record.provider_type settings.provider_type)
      || ready_record.phase is Phase.tombstoned
    ≡ false
unfolding str_eq
swept_mine = refl

sweep_records-buries_example : buried_record.phase ≡ Phase.tombstoned
sweep_records-buries_example =
    sweep_records-buries small_host (disk_store plain) (record_of plain)
      (disk_laws plain plain_laws) settings unowned 11 (my_item ∷ []) (ready_record ∷ []) start
      ready_record buried_record (omega arith) swept_well (Memᴰ.head refl) swept_mine seen_after
