-- ===== src/PoolState/Disk/ReadBack.antt =====
-- internal/pool/state/store.go: what a change of a record leaves for the next reader.
use mathlib.Core.Option
use mathlib.Core.Path.{subst₂}
use ephemeral_action_runner.Shared.{
  Str, true, Option, none, some, Result, ok, err, Bool-cases, if◌then◌else◌, inl, inr, ◌≡◌, refl,
  arith, ◌∙◌, ap, sym, str_eq, str_eq_refl, ◌==◌, map,
}
use ephemeral_action_runner.PoolState.Types.{Record, StoreError}
use ephemeral_action_runner.PoolState.Validate.{
  DiskState, Check, schema_version, validate_name, validate_state,
}
use ephemeral_action_runner.PoolState.Lookup.{Rising, lookup, find_record}
use ephemeral_action_runner.PoolState.Lookup.Search.{find_record-lookup, find_record-some}
use ephemeral_action_runner.PoolState.Store.{Operation}
use ephemeral_action_runner.PoolState.Store.Frame.{Change, target, perform, perform-IsWritten}
use ephemeral_action_runner.PoolState.Disk.Encoding.{
  Codec, CodecLaws, checksum, stored, stored_record,
}
use ephemeral_action_runner.PoolState.Disk.{
  Io, Disk, with_lock, load, check_loaded, mutate, read_in, read, reserve, transition,
  acquire_lease, release_lease, checked,
}
use ephemeral_action_runner.PoolState.Disk.Atomic.{IsCommitted, mutate-all_or_nothing}
use ephemeral_action_runner.PoolState.Disk.Snapshot.{
  validate_state-Rising, validate_state-stored, load-valid, lookup-stored,
}

-- The answer for a name that a search from the left found or missed.
abbrev pub or_not_found : Option Record → Result StoreError Record
or_not_found none = err StoreError.not_found
or_not_found (some r) = ok r

pub read_in-lookup :
    (name : Str) (s : DiskState)
    → Rising s.records
    → read_in name s ≡ or_not_found (lookup name s.records)
unfolding read_in
read_in-lookup name s v = elim (Bool-cases (find_record s.records name).1) [
  | inl f ↦
      let (r, at, _) = find_record-some s.records name f in
      ground (arith, (find_record-lookup s.records name v).0)
  | inr f ↦ ground (arith, (find_record-lookup s.records name v).1)
]

module _ (c : Codec) (laws : CodecLaws c) where
  schema_of_valid : (s : DiskState) → validate_state s ≡ ok tt → (s.schema == schema_version) ≡ true
  unfolding validate_state
  schema_of_valid s e = ground arith

  load-eq :
      (io : Io) (d : Disk c) (b : c.Bytes) (s : DiskState)
      → io.readable ≡ true
      → d.file ≡ some b
      → c.decode b ≡ some s
      → load c io d ≡ check_loaded c s
  unfolding load
  load-eq io d b s readable at decoded = ground arith

  check_loaded-eq :
      (s : DiskState)
      → checksum c s ≡ some s.checksum
      → validate_state s ≡ ok tt
      → check_loaded c s ≡ ok s
  unfolding check_loaded
  check_loaded-eq s summed valid = ground (arith, schema_of_valid s valid, str_eq_refl s.checksum)

  checksum-blind :
      (s : DiskState) (sum : Str) → checksum c (record s { checksum = sum }) ≡ checksum c s
  unfolding checksum
  checksum-blind s sum = refl

  checksum-stored : (s : DiskState) → (stored s).checksum ≡ s.checksum
  unfolding stored
  checksum-stored s = refl

  -- What was committed loads again, with its empty payloads as `null`.
  pub committed_loads :
      {A : Type 0} (io io' : Io) {op : Operation A} (d : Disk c) (a : A) (d' : Disk c)
      → io'.readable ≡ true
      → (w : IsCommitted c io op d a d')
      → load c io' d' ≡ ok (stored (record (w.after) { checksum = w.sum }))
  committed_loads io io' d a d' readable w =
      let s = record (w.after) { checksum = w.sum } in
      let summed : checksum c (stored s) ≡ some (stored s).checksum =
        laws.one_digest s
        ∙ (checksum-blind w.after w.sum ∙ (w.summed ∙ ap some (sym (checksum-stored s)))) in
      load-eq io' d' w.bytes (stored s) readable (ap (λ (x : Disk c). x.file) w.written)
        (laws.round_trip s w.bytes w.encoded)
      ∙ check_loaded-eq (stored s) summed (validate_state-stored w.after w.sum ∙ w.valid)

  records-stored :
      (s : DiskState) (sum : Str)
      → (stored (record s { checksum = sum })).records ≡ map stored_record s.records
  unfolding stored
  records-stored s sum = refl

  read-eq :
      (io : Io) (n : Str) (d : Disk c) (s : DiskState)
      → validate_name n ≡ ok tt
      → with_lock io.attempts ≡ ok tt
      → load c io d ≡ ok s
      → read c io n d ≡ read_in n s
  unfolding read
  read-eq io n d s named locked loaded = rw (named, read) (rw (locked, read) (rw (loaded, read)))

  -- The answer of a reader after a change.
  abbrev pub Answers : Change → Io → Disk c → Record → DiskState → Type 0
  Answers ch io' d' r s =
      (n : Str)
      → validate_name n ≡ ok tt
      → read c io' n d'
        ≡ or_not_found
            (Option.map stored_record (if str_eq (target ch) n then some r else lookup n s.records))

  committed_reads :
      (ch : Change) (io io' : Io) (d d' : Disk c) (r : Record)
      → (w : IsCommitted c io (perform ch) d r d') → io'.readable ≡ true
      → with_lock io'.attempts ≡ ok tt
      → Answers ch io' d' r w.before
  committed_reads ch io io' d d' r w readable locked n named =
      let s = stored (record (w.after) { checksum = w.sum }) in
      let rising = validate_state-Rising w.before (load-valid c io d w.loaded) in
      let found = (perform-IsWritten ch w.before io.now rising w.operated).found n in
      read-eq io' n d' s named locked (committed_loads io io' d r d' readable w)
      ∙ (read_in-lookup n s
            (validate_state-Rising s (validate_state-stored w.after w.sum ∙ w.valid))
          ∙ ap or_not_found (
              ap (lookup n) (records-stored w.after w.sum)
              ∙ (lookup-stored n w.after.records ∙ ap (Option.map stored_record) found)))

  -- The store's four calls that change a record.
  unfoldable pub request : Change → Io → Disk c → Disk c × Result StoreError Record
  unfolding reserve transition acquire_lease release_lease
  request (Change.reserve spec) io = reserve c io spec
  request (Change.transition name t) io = transition c io name t
  request (Change.acquire_lease name lease) io = acquire_lease c io name lease
  request (Change.release_lease name purpose holder) io = release_lease c io name purpose holder

  checked-ok :
      (d : Disk c) (v : Check) (run : Disk c × Result StoreError Record) {d' : Disk c} {r : Record}
      → checked c d v run ≡ (d', ok r)
      → run ≡ (d', ok r)
  checked-ok d (ok u) run e = e
  checked-ok d (err x) run e = absurd (ground arith)

  request-mutate :
      (ch : Change) (io : Io) (d : Disk c) {d' : Disk c} {r : Record}
      → request ch io d ≡ (d', ok r)
      → mutate c io (perform ch) d ≡ (d', ok r)
  unfolding request perform
  request-mutate (Change.reserve spec) io d e = checked-ok d _ _ e
  request-mutate (Change.transition name t) io d e = checked-ok d _ _ e
  request-mutate (Change.acquire_lease name lease) io d e = checked-ok d _ _ e
  request-mutate (Change.release_lease name purpose holder) io d e = checked-ok d _ _ e

  -- After one of the store's four changes of a record was accepted and saved, every reader finds under
  -- the name of the change the record that the change returned, and under every other valid name what
  -- stood there before, each with an empty payload read as `null`.
  pub request_reads_back :
      (ch : Change) (io io' : Io) (d d' : Disk c) (r : Record)
      → request ch io d ≡ (d', ok r)
      → io'.readable ≡ true
      → with_lock io'.attempts ≡ ok tt
      → (s : DiskState) × (load c io d ≡ ok s) × Answers ch io' d' r s
  request_reads_back ch io io' d d' r e readable locked =
      elim (mutate-all_or_nothing c io (perform ch) d) [
        | inl (d'', x, f, undone) ↦ let e' = request-mutate ch io d e in absurd (ground arith)
        | inr (a, d'', f, w) ↦
            let e' = request-mutate ch io d e in
            let disks : d'' ≡ d' = ground arith in
            let records : a ≡ r = ground arith in
            let w' =
              subst₂ (λ (y : Record) (x : Disk c). IsCommitted c io (perform ch) d y x) records
                disks w in
            (w'.before, w'.loaded, committed_reads ch io io' d d' r w' readable locked)
      ]
