-- ===== src/Examples/PoolState.antt =====
-- A runner's record through its life, and the snapshot file it is kept in.
use ephemeral_action_runner.Shared.{
  pos, Str, true, false, [], ◌∷◌, none, some, ok, err, codes, ◌≡◌, refl, sym, ◌⊎◌, inl, inr, arith,
  str_eq, str_lt, is_empty, All, ◌&&◌, get_elem?,
}
use ephemeral_action_runner.PoolState.Types.{
  Phase, Action, Lease, Record, CreateSpec, Transition, StoreError, no_receipt, no_cleanup, Payload,
}
use ephemeral_action_runner.PoolState.Validate.{
  DiskState, validate_name, validate_state, validate_sorted, validate_record, validate_identity,
  validate_leases, validate_quarantine, valid_stamp, valid_tombstone, valid_uncertainty,
}
use ephemeral_action_runner.PoolState.Transition.{apply_transition, leased, resume_phase, is_active}
use ephemeral_action_runner.PoolState.Transition.Phases.{◌⟶◌, apply_transition-⟶}
use ephemeral_action_runner.PoolState.Transition.Burial.{MayBury, apply_transition-MayBury}
use ephemeral_action_runner.PoolState.Transition.History.{
  Step, IsStamped, Reach-IsStamped, here, next, step,
}
use ephemeral_action_runner.PoolState.Transition.Resume.{
  History, bare, set_aside, set_aside_round_trip, clean_anew, clean_anew_skips,
  apply_transition-IsAligned, IsAligned,
}
use ephemeral_action_runner.PoolState.Lookup.{Rising, find_record, lookup}
use ephemeral_action_runner.PoolState.Lookup.Search.{find_record-lookup}
use ephemeral_action_runner.PoolState.Store.{new_record, with_lease, without_lease, reserve_in}
use ephemeral_action_runner.PoolState.Store.Leases.{
  of_holder, active_of, with_lease-leases, without_lease-leases,
}
use ephemeral_action_runner.PoolState.Store.Frame.{Change, perform, IsWritten, perform-IsWritten}
use ephemeral_action_runner.PoolState.Disk.{
  Attempt, Io, Disk, mutate, load, with_lock, check_loaded,
}
use ephemeral_action_runner.PoolState.Disk.Encoding.{Codec, CodecLaws, checksum, stored}
use ephemeral_action_runner.PoolState.Disk.Atomic.{IsCommitted, IsUndone, mutate-all_or_nothing}
use ephemeral_action_runner.PoolState.Disk.Sound.{IsSound, load-IsSound}
use ephemeral_action_runner.PoolState.Disk.ReadBack.{Answers, request, request_reads_back}

abbrev spec : CreateSpec
spec = record {
  name = codes "r1";
  provider_type = codes "wsl";
  git_hub = record { exact_name = codes "r1"; runner_id = pos 0 };
}

abbrev second : CreateSpec
second = record {
  name = codes "r2";
  provider_type = codes "wsl";
  git_hub = record { exact_name = codes "r2"; runner_id = pos 0 };
}

abbrev reserved_record : Record
unfolding new_record
reserved_record = new_record spec 1 10

abbrev job_lease : Lease
job_lease = record { purpose = codes "job"; holder = codes "github-7"; expires_at = 100 }

abbrev removing_record : Record
removing_record = record reserved_record {
  phase = Phase.local_removing;
  provider_id = codes "id-1";
  cleanup = record {
    fence_intent_at = some 11;
    remote_verify_at = some 12;
    remote_absent_at = some 13;
    local_remove_intent_at = some 14;
    local_absent_at = none;
  };
}

abbrev uncertain : Transition
uncertain = record {
  action = Action.recovery_inventory_uncertain;
  provider_id = [];
  receipt = no_receipt;
  runner_id = pos 0;
  reason = codes "lost";
}

apply_transition-⟶_example : Phase.reserved ⟶ Phase.creating
unfolding apply_transition new_record
apply_transition-⟶_example =
    apply_transition-⟶ reserved_record (bare Action.create_intent) 11
      {s = record reserved_record { phase = Phase.creating; create_outcome_uncertain = true }} refl

abbrev gone_record : Record
gone_record = record removing_record {
  phase = Phase.local_absent;
  cleanup = record (removing_record.cleanup) { local_absent_at = some 15 };
}

apply_transition-MayBury_example : MayBury gone_record 16
unfolding apply_transition new_record leased
apply_transition-MayBury_example =
    apply_transition-MayBury gone_record (bare Action.tombstone) 16
      {s = record gone_record { phase = Phase.tombstoned; tombstoned_at = some 16 }} refl refl

abbrev buried_record : Record
buried_record = record reserved_record { phase = Phase.tombstoned }

abbrev creating_record : Record
creating_record = record reserved_record { phase = Phase.creating; create_outcome_uncertain = true }

reserved-Step : Step reserved_record creating_record
unfolding apply_transition new_record
reserved-Step = step (bare Action.create_intent) 11 refl

reserved-IsStamped : IsStamped reserved_record
unfolding new_record
reserved-IsStamped = ground arith

Reach-IsStamped_example : IsStamped creating_record
Reach-IsStamped_example = Reach-IsStamped reserved-IsStamped (next here reserved-Step)

apply_transition-IsAligned_example : IsAligned creating_record.phase creating_record.cleanup
unfolding apply_transition new_record resume_phase
apply_transition-IsAligned_example =
    apply_transition-IsAligned reserved_record (bare Action.create_intent) 11 {s = creating_record}
      refl (λ e. cc) refl

abbrev made : Transition
made = record (bare Action.created) {
  provider_id = codes "id-1";
  receipt = record { version = codes "v1"; payload = Payload.object (codes "{}") };
}

abbrev created_record : Record
created_record = record reserved_record {
  phase = Phase.created;
  provider_id = codes "id-1";
  receipt = made.receipt;
}

abbrev fencing_record : Record
fencing_record = record created_record {
  phase = Phase.fencing;
  cleanup = record no_cleanup { fence_intent_at = some 13 };
}

abbrev verifying_record : Record
verifying_record = record created_record {
  phase = Phase.remote_reconciling;
  cleanup = record no_cleanup { fence_intent_at = some 13; remote_verify_at = some 15 };
}

verifying-History : History reserved_record verifying_record
unfolding apply_transition new_record validate_name
verifying-History =
    History.then {s = record fencing_record { phase = Phase.fenced }}
      (History.then {s = fencing_record}
        (History.then {s = created_record}
          (History.then {s = creating_record}
            (History.then History.start (bare Action.create_intent) 11 (λ e. cc) refl) made 12
            (λ e. cc) refl)
          (bare Action.fence_intent) 13 (λ e. cc) refl)
        (bare Action.fenced) 14 (λ e. cc) refl)
      (bare Action.verify_remote_intent) 15 (λ e. cc) refl

reserved_bare : (reserved_record.phase ≡ Phase.reserved) × (reserved_record.cleanup ≡ no_cleanup)
unfolding new_record
reserved_bare = (refl, refl)

set_aside_round_trip_example : set_aside verifying_record 20 21 ≡ ok verifying_record
set_aside_round_trip_example =
    set_aside_round_trip reserved_record verifying_record 20 21 reserved_bare.0 reserved_bare.1
      verifying-History (inr (inl refl))

clean_anew_skips_example :
    (s : Record) × (u : Record) × (clean_anew removing_record uncertain 20 ≡ ok s)
    × (s.phase ≡ Phase.remote_reconciling)
    × (set_aside s 20 21 ≡ ok u)
    × (u.phase ≡ Phase.local_removing)
unfolding new_record is_empty
clean_anew_skips_example =
    clean_anew_skips removing_record uncertain 20 21 refl refl refl refl refl refl

abbrev second_record : Record
unfolding new_record
second_record = new_record second 2 11

find_record-lookup_example :
    ((find_record (reserved_record ∷ second_record ∷ []) (codes "r2")).1 ≡ true
      → get_elem?
          (reserved_record ∷ second_record ∷ [])
          (find_record (reserved_record ∷ second_record ∷ []) (codes "r2")).0
        ≡ lookup (codes "r2") (reserved_record ∷ second_record ∷ []))
    × ((find_record (reserved_record ∷ second_record ∷ []) (codes "r2")).1 ≡ false
        → lookup (codes "r2") (reserved_record ∷ second_record ∷ []) ≡ none)
unfolding new_record str_lt
find_record-lookup_example =
    find_record-lookup (reserved_record ∷ second_record ∷ []) (codes "r2") ((refl, tt), (tt, tt))

with_lease-leases_example :
    All (λ l. is_active 20 l ≡ true) (job_lease ∷ [])
    × (of_holder (codes "job") (codes "github-7") (job_lease ∷ []) ≡ job_lease ∷ [])
    × ((p h : Str)
        → (str_eq (codes "job") p && str_eq (codes "github-7") h) ≡ false
        → of_holder p h (job_lease ∷ []) ≡ active_of 20 p h [])
unfolding with_lease new_record
with_lease-leases_example =
    with_lease-leases job_lease 20 reserved_record
      {r' = record reserved_record { leases = job_lease ∷ [] }} refl

without_lease-leases_example :
    All (λ l. is_active 20 l ≡ true) []
    × (of_holder (codes "job") (codes "github-7") [] ≡ [])
    × ((p h : Str)
        → (str_eq (codes "job") p && str_eq (codes "github-7") h) ≡ false
        → of_holder p h [] ≡ active_of 20 p h (job_lease ∷ []))
unfolding without_lease new_record str_eq
without_lease-leases_example =
    without_lease-leases (codes "job") (codes "github-7") 20
      (record reserved_record { leases = job_lease ∷ [] }) {r' = reserved_record} refl

-- A codec that writes a state as it is.
abbrev pub plain : Codec
unfolding stored
plain = record {
  Bytes = DiskState;
  encode = λ s. some (stored s);
  decode = λ b. some b;
  digest = λ s. some (codes "sum");
}

pub plain_laws : CodecLaws plain
unfolding checksum plain
plain_laws = record { round_trip = λ s b e. sym e; one_digest = λ s. refl }

abbrev calm : Io
calm = record {
  attempts = Attempt.held ∷ Attempt.taken ∷ [];
  readable = true;
  fault = none;
  removable = true;
  now = 10;
}

abbrev empty_disk : Disk plain
empty_disk = record { file = none; temps = 0 }

mutate-all_or_nothing_example :
    ((d' : Disk plain) × (e : StoreError) × (mutate plain calm (reserve_in spec) empty_disk
        ≡ (d', err e))
      × IsUndone plain calm empty_disk d')
    ⊎ ((a : Record) × (d' : Disk plain) × (mutate plain calm (reserve_in spec) empty_disk
          ≡ (d', ok a))
        × IsCommitted plain calm (reserve_in spec) empty_disk a d')
mutate-all_or_nothing_example = mutate-all_or_nothing plain calm (reserve_in spec) empty_disk

abbrev one_record : Disk plain
unfolding stored
one_record = record {
  file = some (
      stored (record {
        schema = 1;
        generation = 1;
        records = reserved_record ∷ [];
        discoveries = [];
        checksum = codes "sum";
      }));
  temps = 0;
}

request_reads_back_example :
    (s : DiskState) × (load plain calm empty_disk ≡ ok s)
    × Answers plain plain_laws (Change.reserve spec) calm one_record reserved_record s
unfolding request mutate reserve_in find_record validate_name validate_state validate_sorted
    validate_record validate_identity validate_leases validate_quarantine valid_stamp
    valid_tombstone valid_uncertainty checksum stored plain new_record one_record with_lock load
request_reads_back_example =
    request_reads_back plain plain_laws (Change.reserve spec) calm calm empty_disk one_record
      reserved_record refl refl refl

perform-IsWritten_example :
    IsWritten
      (codes "r1")
      (record { schema = 1; generation = 0; records = []; discoveries = []; checksum = [] })
      10
      reserved_record
      (record {
        schema = 1;
        generation = 1;
        records = reserved_record ∷ [];
        discoveries = [];
        checksum = [];
      })
unfolding perform reserve_in find_record new_record
perform-IsWritten_example = perform-IsWritten (Change.reserve spec) _ 10 tt refl

abbrev snapshot : DiskState
unfolding stored
snapshot = stored (record {
  schema = 1;
  generation = 1;
  records = reserved_record ∷ [];
  discoveries = [];
  checksum = codes "sum";
})

snapshot_loads : load plain calm one_record ≡ ok snapshot
unfolding load validate_name validate_state validate_sorted validate_record validate_identity
    validate_leases validate_quarantine valid_stamp valid_tombstone valid_uncertainty checksum
    stored plain new_record one_record snapshot reserved_record check_loaded
snapshot_loads = refl

load-IsSound_example : Rising snapshot.records × All IsSound snapshot.records
load-IsSound_example = load-IsSound plain calm one_record snapshot_loads
