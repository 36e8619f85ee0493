-- ===== src/PoolState/Store/Frame.antt =====
-- What an operation changes is the record of its name: every other name finds what it found before.
use ephemeral_action_runner.Shared.{
  ℕ, ◌+◌, Str, true, some, if◌then◌else◌, ok, get_elem?, str_eq, ◌≡◌, refl, sym, arith, u64,
  str_eq→≡, ◌∙◌, Bool-cases, Result-cases, inl, inr,
}
use mathlib.Core.Path.{subst₂}
use ephemeral_action_runner.PoolState.Types.{Lease, Record, CreateSpec, Transition}
use ephemeral_action_runner.PoolState.Validate.{DiskState}
use ephemeral_action_runner.PoolState.Transition.{Outcome, apply_transition}
use ephemeral_action_runner.PoolState.Transition.Phases.{apply_transition-name}
use ephemeral_action_runner.PoolState.Lookup.{find_record, lookup, Rising}
use ephemeral_action_runner.PoolState.Lookup.Search.{find_record-lookup, find_record-some}
use ephemeral_action_runner.PoolState.Store.Names.{lookup-set, lookup-sort_new}
use ephemeral_action_runner.PoolState.Store.{
  Operation, new_record, reserve_in, write_back, update_in, transition_in, acquire_lease_in,
  release_lease_in, with_lease, without_lease,
}

-- A change of the records by the name that it writes.
pub data Change : Type 0 where
  reserve : CreateSpec → Change
  transition : Str → Transition → Change
  acquire_lease : Str → Lease → Change
  release_lease : Str → Str → Str → Change

abbrev pub target : Change → Str
target (reserve spec) = spec.name
target (transition name t) = name
target (acquire_lease name lease) = name
target (release_lease name purpose holder) = name

unfoldable pub perform : Change → Operation Record
unfolding reserve_in transition_in acquire_lease_in release_lease_in
perform (reserve spec) = reserve_in spec
perform (transition name t) = transition_in name t
perform (acquire_lease name lease) = acquire_lease_in name lease
perform (release_lease name purpose holder) = release_lease_in name purpose holder

-- What an accepted change leaves behind.
pub record IsWritten (name : Str) (s : DiskState) (now : ℕ) (r : Record) (s' : DiskState)
    : Type 0 where
  pub found :
      (n : Str) → lookup n s'.records ≡ (if str_eq name n then some r else lookup n s.records)
  pub stamped : (r.generation ≡ s'.generation) × (r.updated_at ≡ now)
  pub counted : s'.generation ≡ u64 (s.generation + 1)
  pub others : s'.discoveries ≡ s.discoveries

reserve_in-IsWritten :
    (spec : CreateSpec) (s : DiskState) (now : ℕ) {r : Record} {s' : DiskState}
    → Rising s.records
    → reserve_in spec s now ≡ ok (r, s')
    → IsWritten spec.name s now r s'
unfolding reserve_in
reserve_in-IsWritten spec s now v e = elim (Bool-cases (find_record s.records spec.name).1) [
  | inl f ↦ absurd (ground arith)
  | inr f ↦
      let absent = (find_record-lookup s.records spec.name v).1 f in
      let q = new_record spec (u64 (s.generation + 1)) now in
      record {
        found = λ n. ground (arith, lookup-sort_new n s.records q v absent);
        stamped = ground arith;
        counted = ground arith;
        others = ground arith;
      }
]

-- A change of a record that leaves its name alone.
abbrev KeepsName : (Record → Outcome) → Type 0
KeepsName change = (r r' : Record) → change r ≡ ok r' → r'.name ≡ r.name

-- What the shape of the three changes of one record does: the record found by its name is changed,
-- and written back with its stamps.
record IsUpdated (name : Str) (change : Record → Outcome) (s : DiskState) (now : ℕ) (r : Record)
    (s' : DiskState) : Type 0 where
  index : ℕ
  old : Record
  new : Record
  at : get_elem? s.records index ≡ some old
  same : str_eq old.name name ≡ true
  changed : change old ≡ ok new
  record_result : r ≡ (write_back s index now new).0
  state_result : s' ≡ (write_back s index now new).1

update_in-IsUpdated :
    (name : Str) (change : Record → Outcome) (s : DiskState) (now : ℕ) {r : Record} {s' : DiskState}
    → update_in name change s now ≡ ok (r, s')
    → IsUpdated name change s now r s'
unfolding update_in
update_in-IsUpdated name change s now e = elim (Bool-cases (find_record s.records name).1) [
  | inr f ↦ absurd (ground arith)
  | inl f ↦
      let (old, at, same) = find_record-some s.records name f in
      elim (Result-cases (change old)) [
        | inr (x, bad) ↦ absurd (ground arith)
        | inl (new, good) ↦ record {
          index = (find_record s.records name).0;
          old = old;
          new = new;
          at = at;
          same = same;
          changed = good;
          record_result = ground arith;
          state_result = ground arith;
        }
      ]
]

update_in-IsWritten :
    (name : Str) (change : Record → Outcome) (s : DiskState) (now : ℕ) {r : Record} {s' : DiskState}
    → KeepsName change
    → Rising s.records
    → update_in name change s now ≡ ok (r, s')
    → IsWritten name s now r s'
unfolding write_back
update_in-IsWritten name change s now k v e =
    let u = update_in-IsUpdated name change s now e in
    let g = u64 (s.generation + 1) in
    let q = record (u.new) { generation = g; updated_at = now } in
    let same : u.old.name ≡ u.new.name = sym (k u.old u.new u.changed) in
    let named : name ≡ u.new.name = sym (str_eq→≡ _ _ u.same) ∙ same in
    let w : IsWritten name s now (write_back s u.index now u.new).0
        (write_back s u.index now u.new).1 =
      record {
        found = λ n. rw named (lookup-set n s.records u.index q v u.at same);
        stamped = (refl, refl);
        counted = refl;
        others = refl;
      } in
    subst₂ (λ (x : Record) (y : DiskState). IsWritten name s now x y) (sym u.record_result)
      (sym u.state_result) w

with_lease-name : (lease : Lease) (now : ℕ) → KeepsName (with_lease lease now)
unfolding with_lease
with_lease-name lease now r r' e = ground arith

without_lease-name : (purpose holder : Str) (now : ℕ) → KeepsName (without_lease purpose holder now)
unfolding without_lease
without_lease-name purpose holder now r r' e = ground arith

-- In a state whose records rise strictly by name, an accepted change is found under its name, with a new
-- generation and the time of the change; every other name finds what it found before, and the
-- discoveries stay.
pub perform-IsWritten :
    (c : Change) (s : DiskState) (now : ℕ) {r : Record} {s' : DiskState}
    → Rising s.records
    → perform c s now ≡ ok (r, s')
    → IsWritten (target c) s now r s'
unfolding perform
perform-IsWritten (reserve spec) s now v e = reserve_in-IsWritten spec s now v e
perform-IsWritten (transition name t) s now v e =
    update_in-IsWritten name (λ r. apply_transition r t now) s now
      (λ r r' h. apply_transition-name r t now h) v e
perform-IsWritten (acquire_lease name lease) s now v e =
    update_in-IsWritten name (with_lease lease now) s now (with_lease-name lease now) v e
perform-IsWritten (release_lease name purpose holder) s now v e =
    update_in-IsWritten name (without_lease purpose holder now) s now
      (without_lease-name purpose holder now) v e
