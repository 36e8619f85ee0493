-- ===== src/PoolState/Store.antt =====
-- internal/pool/state/store.go: what the operations of the store do to the state that was loaded.
pub mod Names
pub mod Frame
pub mod Leases
use ephemeral_action_runner.Shared.{
  ℕ, ◌+◌, pos, Str, Bool, true, false, not, ◌&&◌, ◌||◌, List, [], ◌∷◌, ◌++◌, Option, none, some,
  ltb, if◌then◌else◌, Result, ok, err, ◌>>=◌, ◌>>◌, get_elem?, set, str_eq, str_lt, keep, u64,
  codes,
}
use ephemeral_action_runner.PoolState.Types.{
  Phase, Lease, Record, CreateSpec, Transition, Discovery, StoreError, ◌is◌, no_receipt, no_cleanup,
}
use ephemeral_action_runner.PoolState.Validate.{DiskState, discovery_key}
use ephemeral_action_runner.PoolState.Transition.{Outcome, invalid, is_active, apply_transition}
use ephemeral_action_runner.PoolState.Lookup.{find_record}

-- The callback of `mutate`, at the time that `mutate` read: a result and the changed state.
abbrev pub Operation : Type 0 → Type 0
Operation A = DiskState → ℕ → Result StoreError (A × DiskState)

-- `sort.Slice` on keys that differ, which leave one order only.
module _ {ℓ} {A : Type ℓ} (key : A → Str) where
  unfoldable pub insert : A → List A → List A
  insert a [] = a ∷ []
  insert a (x ∷ xs) =
      let rest = insert a xs in if str_lt (key x) (key a) then x ∷ rest else a ∷ x ∷ xs

  unfoldable pub sort : List A → List A
  unfolding insert
  sort [] = []
  sort (x ∷ xs) = insert x (sort xs)

unfoldable pub new_record : CreateSpec → ℕ → ℕ → Record
new_record spec generation now = record {
  name = spec.name;
  provider_type = spec.provider_type;
  provider_id = codes "";
  receipt = no_receipt;
  git_hub = spec.git_hub;
  phase = Phase.reserved;
  leases = [];
  quarantine = none;
  cleanup = no_cleanup;
  create_outcome_uncertain = false;
  recovery_inventory_uncertain = false;
  generation = generation;
  created_at = now;
  updated_at = now;
  tombstoned_at = none;
}

unfoldable pub reserve_in : CreateSpec → Operation Record
unfolding new_record sort
reserve_in spec s now =
    let generation = u64 (s.generation + 1) in
    let r = new_record spec generation now in
    if (find_record s.records spec.name).1
    then err StoreError.already_exists
    else ok (
      r,
      record s {
        generation = generation;
        records = sort (λ (x : Record). x.name) (s.records ++ r ∷ []);
      },
    )

-- `state.Generation++` and the stamps of the changed record, which is written back to its index.
unfoldable pub write_back : DiskState → ℕ → ℕ → Record → Record × DiskState
write_back s index now r =
    let generation = u64 (s.generation + 1) in
    let q = record r { generation = generation; updated_at = now } in
    (q, record s { generation = generation; records = set s.records index q })

-- The shape of the three operations that change one record: found by name, changed on a copy, and
-- written back with a new generation.
unfoldable pub update_in : Str → (Record → Outcome) → Operation Record
unfolding write_back
update_in name change s now =
    let (index, found) = find_record s.records name in
    if found
    then (elim (get_elem? s.records index) [
      | none ↦ err StoreError.not_found
      | some r ↦ change r >>= λ r'. ok (write_back s index now r')
    ])
    else err StoreError.not_found

unfoldable pub transition_in : Str → Transition → Operation Record
unfolding update_in
transition_in name t s now = update_in name (λ r. apply_transition r t now) s now

-- `lease.Purpose == purpose && lease.Holder == holder`.
abbrev pub held_by : Str → Str → Lease → Bool
held_by purpose holder l = str_eq l.purpose purpose && str_eq l.holder holder

unfoldable pub with_lease : Lease → ℕ → Record → Outcome
with_lease lease now r =
    if r.phase is Phase.tombstoned || not (is_active now lease)
    then invalid
    else ok (record r {
      leases =
          keep (λ l. is_active now l && not (held_by lease.purpose lease.holder l)) r.leases
          ++ lease ∷ [];
    })

unfoldable pub acquire_lease_in : Str → Lease → Operation Record
unfolding update_in with_lease
acquire_lease_in name lease s now = update_in name (with_lease lease now) s now

unfoldable pub without_lease : Str → Str → ℕ → Record → Outcome
without_lease purpose holder now r =
    ok
      (record r { leases = keep (λ l. not (held_by purpose holder l) && is_active now l) r.leases })

unfoldable pub release_lease_in : Str → Str → Str → Operation Record
unfolding update_in without_lease
release_lease_in name purpose holder s now = update_in name (without_lease purpose holder now) s now

-- The same provider instance.
abbrev pub discovers : Str → Str → Discovery → Bool
discovers provider_type provider_id d =
    str_eq d.provider_type provider_type && str_eq d.provider_id provider_id

-- The first entry of the instance is replaced, if there is one.
unfoldable pub replace_discovery : Discovery → List Discovery → Option (List Discovery)
replace_discovery d [] = none
replace_discovery d (x ∷ xs) =
    let rest = replace_discovery d xs in
    if discovers d.provider_type d.provider_id x
    then some (d ∷ xs)
    else (elim rest [ none ↦ none | some ys ↦ some (x ∷ ys) ])

unfoldable pub report_unknown_in : Discovery → Operation Discovery
unfolding replace_discovery sort
report_unknown_in d s now =
    let d' = record d { observed_at = now } in
    let s' = record s { generation = u64 (s.generation + 1) } in
    elim (replace_discovery d' s.discoveries) [
      | some ds ↦ ok (d', record s' { discoveries = ds })
      | none ↦ ok (d', record s' { discoveries = sort discovery_key (s.discoveries ++ d' ∷ []) })
    ]

-- The first entry of the instance is taken out, if there is one.
unfoldable pub remove_discovery : Str → Str → List Discovery → Option (List Discovery)
remove_discovery provider_type provider_id [] = none
remove_discovery provider_type provider_id (x ∷ xs) =
    let rest = remove_discovery provider_type provider_id xs in
    if discovers provider_type provider_id x
    then some xs
    else (elim rest [ none ↦ none | some ys ↦ some (x ∷ ys) ])

unfoldable pub forget_unknown_in : Str → Str → Operation (Unit {0})
unfolding remove_discovery
forget_unknown_in provider_type provider_id s now =
    elim (remove_discovery provider_type provider_id s.discoveries) [
      | none ↦ ok (tt, s)
      | some ds ↦ ok (tt, record s { generation = u64 (s.generation + 1); discoveries = ds })
    ]
