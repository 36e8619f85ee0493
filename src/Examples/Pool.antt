-- ===== src/Examples/Pool.antt =====
-- A ready runner is cleaned up, in a world that has one runner and two instances.
use ephemeral_action_runner.Shared.{
  pos, codes, str_eq, Bool, true, false, ◌≡◌, refl, sym, ap, arith, Option, none, some, ok, err, [],
  ◌∷◌, if◌then◌else◌,
}
use ephemeral_action_runner.PoolState.Types.{Phase, Payload, Receipt, Record, no_cleanup}
use ephemeral_action_runner.PoolState.Validate.{
  validate_state, validate_sorted, validate_record, validate_identity, validate_leases,
  validate_quarantine, valid_stamp, valid_tombstone, valid_uncertainty, validate_name,
}
use ephemeral_action_runner.PoolState.Lookup.{lookup, find_record}
use ephemeral_action_runner.PoolState.Disk.{
  Attempt, Io, Disk, load, check_loaded, mutate, with_lock, read_in, forget_unknown,
}
use ephemeral_action_runner.PoolState.Store.{transition_in}
use ephemeral_action_runner.PoolState.Transition.{apply_transition, leased}
use ephemeral_action_runner.PoolState.Disk.Encoding.{stored, checksum}
use ephemeral_action_runner.Pool.Cleanup.Host.{
  StoreLaws, Host, Settings, Runner, Instance, InventoryItem, ProviderError, World, ◌>>=◌, read,
  transition, current_time, runner_by_name, delete_runner, inventory, stop_instance,
  delete_instance,
}
use ephemeral_action_runner.Pool.Cleanup.Driver.{
  cleanup_record, round, unless_leased, reconcile_job_lease, reconciles, act, act_on_live,
  act_on_remote, act_on_local, or_set_aside, remove_exact_runner, delete_exact,
  remove_exact_instance, remove_found, find_exact, any_of_id, recorded_instance,
  active_lifecycle_lease,
}
use ephemeral_action_runner.Pool.Cleanup.Orphans.{Unowned, cleanup_orphan}
use ephemeral_action_runner.Pool.Cleanup.Unowned.{IsApart, cleanup_orphan-spares}
use ephemeral_action_runner.Pool.Cleanup.Idle.{IsIdle, cleanup_orphan-IsIdle}
use ephemeral_action_runner.Pool.Cleanup.OnDisk.{disk_store, disk_laws}
use ephemeral_action_runner.Pool.Cleanup.View.{record_of}
use ephemeral_action_runner.Pool.Cleanup.Loop.{IsOver, cleanup_record-IsOver}
use ephemeral_action_runner.Pool.Cleanup.Spared.{IsElsewhere, cleanup_record-spares}
use ephemeral_action_runner.Examples.PoolState.{plain, plain_laws}

pub record Place : Type 0 where
  pub runner : Option Runner
  pub mine : Bool
  pub other : Bool

abbrev pub calm : Io
calm = record {
  attempts = Attempt.taken ∷ [];
  readable = true;
  fault = none;
  removable = true;
  now = 20;
}

abbrev pub given_receipt : Receipt
given_receipt = record { version = codes "v1"; payload = Payload.object (codes "{}") }

abbrev pub my_instance : Instance
my_instance = record {
  name = codes "r1";
  provider_id = codes "i1";
  source = codes "wsl";
  state = codes "running";
  receipt = given_receipt;
}

abbrev pub my_item : InventoryItem
my_item = record { instance_of = my_instance; state = codes "running"; source = codes "wsl" }

abbrev pub delete_from : Place → Instance → Place
delete_from o x =
    if str_eq x.provider_id (codes "i1")
    then record o { mine = false }
    else if str_eq x.provider_id (codes "i2")
    then record o { other = false }
    else o

abbrev pub small_host : Host
small_host = record {
  Outside = Place;
  meet = λ o. (o, calm);
  now = λ o. (o, 20);
  runner_by_name = λ o n. (o, ok o.runner);
  delete_runner = λ o id. (record o { runner = none }, ok tt);
  inventory = λ o. (o, ok (if o.mine then my_item ∷ [] else []));
  stop_instance = λ o x. (o, err ProviderError.other);
  delete_instance = λ o x. (delete_from o x, ok tt);
  finalize_absent = λ o x. (o, ok tt);
}

abbrev pub settings : Settings
settings = record {
  github = true;
  finalizes = false;
  provider_type = codes "wsl";
  decimal = λ id. codes "7";
  describe = λ a b. codes "{}";
}

abbrev pub ready_record : Record
ready_record = record {
  name = codes "r1";
  provider_type = codes "wsl";
  provider_id = codes "i1";
  receipt = given_receipt;
  git_hub = record { exact_name = codes "r1"; runner_id = pos 7 };
  phase = Phase.ready;
  leases = [];
  quarantine = none;
  cleanup = no_cleanup;
  create_outcome_uncertain = false;
  recovery_inventory_uncertain = false;
  generation = 5;
  created_at = 10;
  updated_at = 15;
  tombstoned_at = none;
}

abbrev pub ready_disk : Disk plain
unfolding stored
ready_disk = record {
  file = some (record {
    schema = 1;
    generation = 5;
    records = ready_record ∷ [];
    discoveries = [];
    checksum = codes "sum";
  });
  temps = 0;
}

abbrev pub start : World small_host (disk_store plain)
start = record {
  outside = record {
    runner = some (record { id = pos 7; name = codes "r1"; busy = false });
    mine = true;
    other = true;
  };
  records = ready_disk;
}

disk_laws_example : StoreLaws (disk_store plain) (record_of plain)
disk_laws_example = disk_laws plain plain_laws

cleanup_record-IsOver_example :
    IsOver small_host
      (disk_store plain)
      (record_of plain)
      (disk_laws plain plain_laws)
      (codes "r1")
      settings
      (my_item ∷ [])
      false
      (cleanup_record small_host
        (disk_store plain)
        settings
        11
        (codes "r1")
        (my_item ∷ [])
        false
        false
        start)
cleanup_record-IsOver_example =
    cleanup_record-IsOver small_host (disk_store plain) (record_of plain)
      (disk_laws plain plain_laws) (codes "r1") settings (my_item ∷ []) false 11 false start
      (omega arith)

abbrev Keeper : Place → Type 0
Keeper o = o.other ≡ true

elsewhere : IsElsewhere small_host Keeper (codes "i1") (pos 7)
elsewhere = record {
  meets = λ o e. e;
  clock = λ o e. e;
  asks = λ o m e. e;
  lists = λ o e. e;
  deletes_runner = λ o id same e. e;
  stops = λ o x same e. e;
  deletes = λ o x same e. ground (arith, e, same);
  finalizes = λ o x same e. e;
}

ready_view : record_of plain ready_disk (codes "r1") ≡ some ready_record
unfolding record_of load check_loaded checksum stored validate_state validate_sorted validate_record
    validate_identity validate_leases validate_quarantine valid_stamp valid_tombstone
    valid_uncertainty validate_name lookup
ready_view = refl

ready_owned :
    (r : Record)
    → record_of plain ready_disk (codes "r1") ≡ some r
    → (r.provider_id ≡ codes "i1") × (r.git_hub.runner_id ≡ pos 7)
ready_owned r at =
    let it : ready_record ≡ r = ground (arith, at, ready_view) in
    (ap (λ x. x.provider_id) (sym it), ap (λ x. x.git_hub.runner_id) (sym it))

cleanup_record-spares_example :
    (cleanup_record small_host
      (disk_store plain)
      settings
      11
      (codes "r1")
      (my_item ∷ [])
      false
      false
      start).0.outside.other
    ≡ true
cleanup_record-spares_example =
    cleanup_record-spares small_host (disk_store plain) (record_of plain)
      (disk_laws plain plain_laws) settings (codes "r1") Keeper (codes "i1") (pos 7) elsewhere 11
      (my_item ∷ []) false false start (record { own = ready_owned }) refl

-- The whole run: the runner and its instance go, the record is tombstoned, the other instance stays.
cleaned :
    (cleanup_record small_host
      (disk_store plain)
      settings
      11
      (codes "r1")
      (my_item ∷ [])
      false
      false
      start).1
    ≡ ok tt
unfolding cleanup_record round unless_leased reconcile_job_lease reconciles act act_on_live
    act_on_remote act_on_local or_set_aside remove_exact_runner delete_exact remove_exact_instance
    remove_found find_exact any_of_id recorded_instance active_lifecycle_lease ◌>>=◌ read transition
    current_time runner_by_name delete_runner inventory stop_instance delete_instance
    package.ephemeral_action_runner.PoolState.Disk.read
    package.ephemeral_action_runner.PoolState.Disk.transition mutate transition_in apply_transition
    find_record leased with_lock read_in record_of load check_loaded checksum stored validate_state
    validate_sorted validate_record validate_identity validate_leases validate_quarantine
    valid_stamp valid_tombstone valid_uncertainty validate_name lookup
cleaned = refl

abbrev pub unowned : Unowned small_host (disk_store plain)
unowned = record {
  name_prefix = codes "r1";
  prepares = true;
  prepare = λ o i. (o, ok my_instance);
  list = λ io d. ok [];
  forget_unknown = λ io t id d. forget_unknown plain io t id d;
}

apart : IsApart small_host (disk_store plain) unowned Keeper (codes "i1")
apart = record {
  meets = λ o e. e;
  asks = λ o m e. e;
  lists = λ o e. e;
  prepares = λ o i e. e;
  deletes_runner = λ o id e. e;
  stops = λ o x same given e. e;
  deletes = λ o x same given e. ground (arith, e, same);
}

cleanup_orphan-spares_example :
    (cleanup_orphan small_host (disk_store plain) settings unowned my_item start).0.outside.other
    ≡ true
cleanup_orphan-spares_example =
    cleanup_orphan-spares small_host (disk_store plain) settings unowned my_item Keeper apart start
      refl

cleanup_orphan-IsIdle_example :
    IsIdle small_host
      (disk_store plain)
      (record_of plain)
      (disk_laws plain plain_laws)
      settings
      unowned
      (codes "r1")
      start
      (cleanup_orphan small_host (disk_store plain) settings unowned my_item start)
cleanup_orphan-IsIdle_example =
    cleanup_orphan-IsIdle small_host (disk_store plain) (record_of plain)
      (disk_laws plain plain_laws) settings unowned my_item start ready_record ready_view refl
