-- ===== src/PoolState/Disk.antt =====
-- internal/pool/state/store.go: the snapshot file, its lock, and the operations that go through them.
-- `encoding/json` and `crypto/sha256` are the parameter `Codec`; what the operating system answers is
-- the argument `Io` of each call.
pub mod Encoding
pub mod Atomic
pub mod ReadBack
pub mod Snapshot
pub mod Sound
use ephemeral_action_runner.Shared.{
  ℕ, ◌+◌, ◌-◌, Str, Bool, true, false, not, ◌==◌, List, [], ◌∷◌, Option, none, some, if◌then◌else◌,
  Result, ok, err, guard, ◌>>=◌, ◌>>◌, get_elem?, str_eq, codes, map,
}
use ephemeral_action_runner.PoolState.Types.{
  Lease, Record, CreateSpec, Transition, Discovery, IoError, StoreError,
}
use ephemeral_action_runner.PoolState.Validate.{
  DiskState, Check, validate_name, validate_receipt, validate_state, schema_version,
}
use ephemeral_action_runner.PoolState.Lookup.{find_record}
use ephemeral_action_runner.PoolState.Store.{
  Operation, reserve_in, transition_in, acquire_lease_in, release_lease_in, report_unknown_in,
  forget_unknown_in,
}
use Encoding.{Codec, checksum}

-- One try for the lock file: taken, held by another process, refused by the system, or the context of
-- the caller ends while it waits.
pub data Attempt : Type 0 where
  taken held refused done : Attempt

-- The loop of withLock. The list ends when the caller gives up.
unfoldable pub with_lock : List Attempt → Check
with_lock [] = err (StoreError.io IoError.canceled)
with_lock (Attempt.taken ∷ as') = ok tt
with_lock (Attempt.held ∷ as') = with_lock as'
with_lock (Attempt.refused ∷ as') = err (StoreError.io IoError.cannot_lock)
with_lock (Attempt.done ∷ as') = err (StoreError.io IoError.canceled)

-- Where writing the snapshot may fail.
pub data Stage : Type 0 where
  before_temp create write sync close before_rename rename : Stage

-- What the system answers during one call. That the temporary file cannot be removed is no error of the
-- call: the file stays.
pub record Io : Type 0 where
  pub attempts : List Attempt
  pub readable : Bool
  pub fault : Option Stage
  pub removable : Bool
  pub now : ℕ

unfoldable pub read_in : Str → DiskState → Result StoreError Record
read_in name s =
    let (index, found) = find_record s.records name in
    if found
    then (elim (get_elem? s.records index) [ none ↦ err StoreError.not_found | some r ↦ ok r ])
    else err StoreError.not_found

module _ (c : Codec) where
  open c use {Bytes, encode, decode}

  -- The snapshot, if there is one, and the number of temporary files beside it.
  pub record Disk : Type 0 where
    pub file : Option Bytes
    pub temps : ℕ

  -- What stands in a file is taken only if it decodes, has the schema and the checksum, and is valid.
  unfoldable pub check_loaded : DiskState → Result StoreError DiskState
  check_loaded s =
      if not (s.schema == schema_version) then err StoreError.corrupt else (elim (checksum c s) [
        | none ↦ err StoreError.corrupt
        | some sum ↦
            if not (str_eq s.checksum sum)
            then err StoreError.corrupt
            else (elim (validate_state s) [ ok u ↦ ok s | err e ↦ err StoreError.corrupt ])
      ])

  unfoldable pub load : Io → Disk → Result StoreError DiskState
  load io d = elim d.file [
    | none ↦ ok (record {
      schema = schema_version;
      generation = 0;
      records = [];
      discoveries = [];
      checksum = codes "";
    })
    | some b ↦
        if not io.readable
        then err (StoreError.io IoError.cannot_read)
        else (elim (decode b) [ none ↦ err StoreError.corrupt | some s ↦ check_loaded s ])
  ]

  -- The deferred clean-up: the temporary file is removed unless it was renamed, and the error of the
  -- removal is dropped.
  abbrev pub abort : Io → Disk → IoError → Disk × Check
  abort io t e =
      (if io.removable then record t { temps = t.temps - 1 } else t, err (StoreError.io e))

  unfoldable pub write_file : Io → Bytes → Disk → Disk × Check
  write_file io b d =
      let t = record d { temps = d.temps + 1 } in
      elim io.fault [
        | some Stage.before_temp ↦ (d, err (StoreError.io IoError.canceled))
        | some Stage.create ↦ (d, err (StoreError.io IoError.cannot_create))
        | some Stage.write ↦ abort io t IoError.cannot_write
        | some Stage.sync ↦ abort io t IoError.cannot_sync
        | some Stage.close ↦ abort io t IoError.cannot_close
        | some Stage.before_rename ↦ abort io t IoError.canceled
        | some Stage.rename ↦ abort io t IoError.cannot_rename
        | none ↦ (record t { file = some b; temps = t.temps - 1 }, ok tt)
      ]

  unfoldable pub save : Io → DiskState → Disk → Disk × Check
  unfolding write_file
  save io s d = elim (checksum c s) [
    | none ↦ (d, err (StoreError.io IoError.cannot_encode))
    | some sum ↦ elim (encode (record s { checksum = sum })) [
      | none ↦ (d, err (StoreError.io IoError.cannot_encode))
      | some b ↦ write_file io b d
    ]
  ]

  -- The result of the callback, under the error of what comes after it.
  abbrev pub answer {ℓ} : {A : Type ℓ} → A → Check → Result StoreError A
  answer a (ok u) = ok a
  answer a (err e) = err e

  -- What `mutate` computes before it saves.
  unfoldable pub prepare :
      {A : Type 0} → Io → Operation A → Disk → Result StoreError (A × DiskState)
  unfolding with_lock load
  prepare io operation d =
      with_lock io.attempts
      >> (load io d >>= λ s. operation s io.now >>= λ r. validate_state r.1 >> ok r)

  unfoldable pub commit :
      {A : Type 0} → Io → Disk → Result StoreError (A × DiskState) → Disk × Result StoreError A
  unfolding save
  commit io d (err e) = (d, err e)
  commit io d (ok (a, s)) = let (d', r) = save io s d in (d', answer a r)

  unfoldable pub mutate : {A : Type 0} → Io → Operation A → Disk → Disk × Result StoreError A
  unfolding prepare commit
  mutate io operation d = commit io d (prepare io operation d)

  -- A check that comes before the lock is taken.
  abbrev pub checked :
      {A : Type 0} → Disk → Check → Disk × Result StoreError A → Disk × Result StoreError A
  checked d (ok u) run = run
  checked d (err e) run = (d, err e)

  pub reserve : Io → CreateSpec → Disk → Disk × Result StoreError Record
  reserve io spec d =
      checked d
        (validate_name spec.name
          >> (validate_name spec.provider_type >> validate_name spec.git_hub.exact_name))
        (mutate io (reserve_in spec) d)

  unfoldable pub transition : Io → Str → Transition → Disk → Disk × Result StoreError Record
  transition io name t d = checked d (validate_name name) (mutate io (transition_in name t) d)

  unfoldable pub acquire_lease : Io → Str → Lease → Disk → Disk × Result StoreError Record
  acquire_lease io name lease d =
      checked d (validate_name name >> (validate_name lease.purpose >> validate_name lease.holder))
        (mutate io (acquire_lease_in name lease) d)

  unfoldable pub release_lease : Io → Str → Str → Str → Disk → Disk × Result StoreError Record
  release_lease io name purpose holder d =
      checked d (validate_name name >> (validate_name purpose >> validate_name holder))
        (mutate io (release_lease_in name purpose holder) d)

  unfoldable pub report_unknown : Io → Discovery → Disk → Disk × Result StoreError Discovery
  report_unknown io x d =
      checked d
        (validate_name x.provider_type
          >> (validate_name x.provider_id
              >> (validate_name x.exact_name >> validate_receipt x.receipt)))
        (mutate io (report_unknown_in x) d)

  pub forget_unknown : Io → Str → Str → Disk → Disk × Result StoreError (Unit {0})
  forget_unknown io provider_type provider_id d =
      checked d (validate_name provider_type >> validate_name provider_id)
        (mutate io (forget_unknown_in provider_type provider_id) d)

  unfoldable pub read : Io → Str → Disk → Result StoreError Record
  read io name d =
      validate_name name >> (with_lock io.attempts >> (load io d >>= λ s. read_in name s))

  pub list : Io → Disk → Result StoreError (List Record)
  list io d = with_lock io.attempts >> (load io d >>= λ s. ok s.records)

  pub discoveries : Io → Disk → Result StoreError (List Discovery)
  discoveries io d = with_lock io.attempts >> (load io d >>= λ s. ok s.discoveries)
