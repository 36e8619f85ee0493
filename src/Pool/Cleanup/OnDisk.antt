-- ===== src/Pool/Cleanup/OnDisk.antt =====
-- The store in its snapshot file is a store as the cleanup needs it.
use mathlib.Core.Option
use ephemeral_action_runner.Shared.{
  Str, str_eq, str_eq_refl, false, ◌≡◌, refl, sym, ap, ◌∙◌, subst, arith, some, ok, err,
  Result-cases, inl, inr, map,
}
use ephemeral_action_runner.PoolState.Types.{Record, Lease, Transition, Discovery, StoreError}
use ephemeral_action_runner.PoolState.Validate.{DiskState, Check, validate_name}
use ephemeral_action_runner.PoolState.Transition.{Outcome, apply_transition}
use ephemeral_action_runner.PoolState.Lookup.{Rising, lookup}
use ephemeral_action_runner.PoolState.Store.{
  Operation, update_in, transition_in, acquire_lease_in, release_lease_in, report_unknown_in,
  with_lease, without_lease,
}
use ephemeral_action_runner.PoolState.Store.Frame.{Change, target, perform, perform-IsWritten}
use ephemeral_action_runner.PoolState.Disk.{
  Io, Disk, mutate, read, transition, acquire_lease, release_lease, report_unknown, checked,
}
use ephemeral_action_runner.PoolState.Disk.Encoding.{Codec, CodecLaws, stored, stored_record}
use ephemeral_action_runner.PoolState.Disk.Atomic.{IsCommitted, mutate-all_or_nothing}
use ephemeral_action_runner.PoolState.Disk.Snapshot.{
  validate_state-Rising, load-valid, lookup-stored,
}
use ephemeral_action_runner.PoolState.Disk.ReadBack.{committed_loads}
use ephemeral_action_runner.Pool.Cleanup.Records.{IsKept-same}
use ephemeral_action_runner.Pool.Cleanup.Host.{RecordStore, StoreLaws, IsMoved, IsLeased, IsKept}
use ephemeral_action_runner.Pool.Cleanup.Written.{
  IsChanged, lookup-updated, stored-life, SameLife-trans, IsKept-storing, with_lease-life,
  without_lease-life, report_unknown_in-records,
}
use ephemeral_action_runner.Pool.Cleanup.View.{
  calm, record_of, view-loaded, record_of-file, read-found, read-missing,
}

module _ (c : Codec) where
  abbrev pub disk_store : RecordStore
  disk_store = record {
    State = Disk c;
    read = read c;
    transition = transition c;
    acquire_lease = acquire_lease c;
    release_lease = release_lease c;
    report_unknown = report_unknown c;
  }

module _ (c : Codec) (laws : CodecLaws c) where
  records-stored : (s : DiskState) → (stored s).records ≡ map stored_record s.records
  unfolding stored
  records-stored s = refl

  view-committed :
      {A : Type 0} {io : Io} {op : Operation A} {d d' : Disk c} {a : A}
      (w : IsCommitted c io op d a d') (n : Str)
      → record_of c d' n ≡ Option.map stored_record (lookup n w.after.records)
  view-committed {io = io} {d = d} {d' = d'} {a = a} w n =
      view-loaded c (calm c) n d' (committed_loads c laws io (calm c) d a d' refl w)
      ∙ (ap (lookup n) (records-stored (record (w.after) { checksum = w.sum }))
          ∙ lookup-stored n w.after.records)

  rising :
      {A : Type 0} {io : Io} {op : Operation A} {d d' : Disk c} {a : A}
      (w : IsCommitted c io op d a d')
      → Rising w.before.records
  rising {io = io} {d = d} w = validate_state-Rising w.before (load-valid c io d w.loaded)

  -- A call that came back with a value was committed, and one that came back with an error
  -- left every record as it was.
  ends-IsCommitted :
      {A : Type 0} (io : Io) (op : Operation A) (d : Disk c) (v : Check) {a : A}
      → (checked c d v (mutate c io op d)).1 ≡ ok a
      → IsCommitted c io op d a (checked c d v (mutate c io op d)).0
  ends-IsCommitted io op d (err x) e = absurd (ground (arith, e))
  ends-IsCommitted io op d (ok u) {a} e = elim (mutate-all_or_nothing c io op d) [
    | inl (d', x, m, undone) ↦ absurd (ground (arith, e, m))
    | inr (b, d', m, w) ↦
        let it : b ≡ a = ground (arith, e, m) in
        subst (λ y. IsCommitted c io op d y (mutate c io op d).0) it (rw m w)
  ]

  ends-refused :
      {A : Type 0} (io : Io) (op : Operation A) (d : Disk c) (v : Check) {x : StoreError}
      → (checked c d v (mutate c io op d)).1 ≡ err x
      → (n : Str) → record_of c (checked c d v (mutate c io op d)).0 n ≡ record_of c d n
  ends-refused io op d (err x) e n = refl
  ends-refused io op d (ok u) e n = elim (mutate-all_or_nothing c io op d) [
    | inl (d', x, m, undone) ↦ rw m (record_of-file c d d' n undone.file)
    | inr (b, d', m, w) ↦ absurd (ground (arith, e, m))
  ]

  -- What one of the changes of a record does to the names.
  module _ (ch : Change) (f : Record → Outcome) {io : Io} {d d' : Disk c} {r : Record}
      (w : IsCommitted c io (perform ch) d r d') where
    changed :
        update_in (target ch) f w.before io.now ≡ ok (r, w.after)
        → IsChanged f (record_of c d (target ch)) (record_of c d' (target ch))
    changed e =
        let (old, new, stands, good, life) =
          lookup-updated (target ch) f w.before io.now (rising w) e in
        let found =
          (perform-IsWritten ch w.before io.now (rising w) w.operated).found (target ch) in
        let now_here : lookup (target ch) w.after.records ≡ some r =
          ground (arith, found, str_eq_refl (target ch)) in
        record {
          old = old;
          new = new;
          next = stored_record r;
          was = view-loaded c io (target ch) d w.loaded ∙ stands;
          changed = good;
          life = SameLife-trans life (stored-life r);
          is_now = view-committed w (target ch) ∙ ap (Option.map stored_record) now_here;
        }

    kept : (n : Str) → str_eq (target ch) n ≡ false → IsKept (record_of c d n) (record_of c d' n)
    kept n other =
        let found = (perform-IsWritten ch w.before io.now (rising w) w.operated).found n in
        let same : lookup n w.after.records ≡ lookup n w.before.records =
          ground (arith, found, other) in
        let after : record_of c d' n ≡ Option.map stored_record (record_of c d n) =
          view-committed w n
          ∙ ap (Option.map stored_record) (same ∙ sym (view-loaded c io n d w.loaded)) in
        subst (IsKept (record_of c d n)) (sym after) (IsKept-storing (record_of c d n))

  -- A call that changes a record, and what it leaves of the other names, whether it went through or not.
  frame :
      (ch : Change) (io : Io) (d : Disk c) (v : Check) (n : Str)
      → str_eq (target ch) n ≡ false
      → IsKept (record_of c d n) (record_of c (checked c d v (mutate c io (perform ch) d)).0 n)
  frame ch io d v n other = elim (Result-cases (checked c d v (mutate c io (perform ch) d)).1) [
    | inl (r, e) ↦ kept ch (λ q. ok q) (ends-IsCommitted io (perform ch) d v e) n other
    | inr (x, e) ↦ IsKept-same (record_of c d n) (ends-refused io (perform ch) d v e n)
  ]

  transition_moves :
      (io : Io) (n : Str) (t : Transition) (d : Disk c) {r : Record}
      → (transition c io n t d).1 ≡ ok r
      → IsMoved t io.now (record_of c d n) (record_of c (transition c io n t d).0 n)
  unfolding transition perform transition_in
  transition_moves io n t d {r} e =
      let w = ends-IsCommitted io (perform (Change.transition n t)) d (validate_name n) e in
      let m = changed (Change.transition n t) (λ q. apply_transition q t io.now) w w.operated in
      record {
        from = m.old;
        to = m.new;
        next = m.next;
        was = m.was;
        applied = m.changed;
        same = m.life;
        is_now = m.is_now;
      }

  acquire_leases :
      (io : Io) (n : Str) (l : Lease) (d : Disk c) {r : Record}
      → (acquire_lease c io n l d).1 ≡ ok r
      → IsLeased (record_of c d n) (record_of c (acquire_lease c io n l d).0 n)
  unfolding acquire_lease perform acquire_lease_in
  acquire_leases io n l d e =
      let w = ends-IsCommitted io (perform (Change.acquire_lease n l)) d _ e in
      let m = changed (Change.acquire_lease n l) (with_lease l io.now) w w.operated in
      record {
        from = m.old;
        next = m.next;
        was = m.was;
        same = SameLife-trans (with_lease-life l io.now m.old m.changed) m.life;
        is_now = m.is_now;
      }

  release_leases :
      (io : Io) (n p h : Str) (d : Disk c) {r : Record}
      → (release_lease c io n p h d).1 ≡ ok r
      → IsLeased (record_of c d n) (record_of c (release_lease c io n p h d).0 n)
  unfolding release_lease perform release_lease_in
  release_leases io n p h d e =
      let w = ends-IsCommitted io (perform (Change.release_lease n p h)) d _ e in
      let m = changed (Change.release_lease n p h) (without_lease p h io.now) w w.operated in
      record {
        from = m.old;
        next = m.next;
        was = m.was;
        same = SameLife-trans (without_lease-life p h io.now m.old m.changed) m.life;
        is_now = m.is_now;
      }

  reported :
      (io : Io) (x : Discovery) (d : Disk c) (n : Str)
      → IsKept (record_of c d n) (record_of c (report_unknown c io x d).0 n)
  unfolding report_unknown
  reported io x d n = elim (Result-cases (report_unknown c io x d).1) [
    | inl (r, e) ↦
        let w = ends-IsCommitted io (report_unknown_in x) d _ e in
        let after : record_of c (report_unknown c io x d).0 n
            ≡ Option.map stored_record (record_of c d n) =
          view-committed w n
          ∙ ap (Option.map stored_record) (
              ap (lookup n) (report_unknown_in-records x w.before io.now w.operated)
              ∙ sym (view-loaded c io n d w.loaded)) in
        subst (IsKept (record_of c d n)) (sym after) (IsKept-storing (record_of c d n))
    | inr (y, e) ↦ IsKept-same (record_of c d n) (ends-refused io (report_unknown_in x) d _ e n)
  ]

  -- The snapshot file, read and written through an encoding that decodes, is a store as the cleanup of
  -- a record needs it.
  pub disk_laws : StoreLaws (disk_store c) (record_of c)
  unfolding transition acquire_lease release_lease perform
  disk_laws = record {
    read_view = λ io n d e. (read-found c io n d e).0;
    read_name = λ io n d e. (read-found c io n d e).1;
    read_missing = read-missing c;
    transition_moves = transition_moves;
    transition_frame =
        λ io n m t d other. frame (Change.transition n t) io d (validate_name n) m other;
    transition_refused =
        λ io n m t d e. ends-refused io (transition_in n t) d (validate_name n) e m;
    acquire_leases = acquire_leases;
    acquire_frame = λ io n m l d other. frame (Change.acquire_lease n l) io d _ m other;
    acquire_refused = λ io n m l d e. ends-refused io (acquire_lease_in n l) d _ e m;
    release_leases = release_leases;
    release_frame = λ io n m p h d other. frame (Change.release_lease n p h) io d _ m other;
    release_refused = λ io n m p h d e. ends-refused io (release_lease_in n p h) d _ e m;
    report_frame = reported;
  }
