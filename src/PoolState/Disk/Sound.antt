-- ===== src/PoolState/Disk/Sound.antt =====
-- internal/pool/state/store.go: what is known of the records of a snapshot that loads.
use ephemeral_action_runner.Shared.{
  ◌≤◌, Str, true, false, List, [], ◌∷◌, Option, none, some, ok, >>=-eq-ok, ◌≡◌, ◌≢◌, refl, arith,
  str_lt, is_empty, is_some, guard, All, ◌||◌, ◌⊎◌, inl, inr, Bool-cases, ◌==◌, ◌>>◌,
}
use ephemeral_action_runner.PoolState.Types.{Phase, Lease, Record, ◌is◌}
use ephemeral_action_runner.PoolState.Validate.{
  DiskState, Check, schema_version, validate_state, validate_sorted, validate_record, validate_name,
  valid_name, validate_identity, identityless, validate_leases, validate_lease, validate_receipt,
  validate_quarantine, valid_stamp, valid_tombstone, valid_uncertainty,
}
use ephemeral_action_runner.PoolState.Lookup.{Rising}
use ephemeral_action_runner.PoolState.Disk.Encoding.{Codec}
use ephemeral_action_runner.PoolState.Disk.{Io, Disk, load}
use ephemeral_action_runner.PoolState.Disk.Snapshot.{validate_state-Rising, load-valid}

-- A record is named, has a generation, was not updated before it was created, and holds leases that run
-- out; a tombstone is stamped, as are both of its removals; past the creation a record has an instance,
-- unless it is quarantined or a tombstone; and one whose inventory is uncertain is quarantined and has
-- one.
pub record IsSound (r : Record) : Type 0 where
  pub named : is_empty r.name ≡ false
  pub counted : r.generation ≢ 0
  pub created : r.created_at ≢ 0
  pub ordered : r.created_at ≤ r.updated_at
  pub leased : All (λ (l : Lease). l.expires_at ≢ 0) r.leases
  pub buried :
      r.phase ≡ Phase.tombstoned
      → (is_some r.tombstoned_at ≡ true)
        × (is_some r.cleanup.remote_absent_at ≡ true)
        × (is_some r.cleanup.local_absent_at ≡ true)
  pub identified :
      (is_empty r.provider_id ≡ false)
      ⊎ ((r.phase is Phase.reserved
            || r.phase is Phase.creating
            || r.phase is Phase.quarantined
            || r.phase is Phase.tombstoned)
          ≡ true)
  pub uncertain :
      r.recovery_inventory_uncertain ≡ true
      → (r.phase ≡ Phase.quarantined) × (is_empty r.provider_id ≡ false)

module _ {ℓ} {A : Type ℓ} (check : A → Check) (key : A → Str) where
  sorted_checked :
      (last : Option Str) (as' : List A)
      → validate_sorted check key last as' ≡ ok tt
      → All (λ a. check a ≡ ok tt) as'
  unfolding validate_sorted
  sorted_checked last [] e = tt
  sorted_checked none (a ∷ as') e =
      let (u, checked, rest) = >>=-eq-ok (check a) _ e in
      (checked, sorted_checked (some (key a)) as' rest)
  sorted_checked (some k) (a ∷ as') e =
      let (u, checked, e₁) = >>=-eq-ok (check a) _ e in
      let (v, above, rest) = >>=-eq-ok (guard (str_lt k (key a)) _) _ e₁ in
      (checked, sorted_checked (some (key a)) as' rest)

name_stands : (s : Str) → validate_name s ≡ ok tt → is_empty s ≡ false
unfolding validate_name valid_name is_empty
name_stands [] e = absurd (ground (arith, e))
name_stands (x ∷ s) e = refl

leases_expire :
    (ls : List Lease) → validate_leases ls ≡ ok tt → All (λ (l : Lease). l.expires_at ≢ 0) ls
unfolding validate_leases validate_lease
leases_expire [] e = tt
leases_expire (l ∷ ls) e =
    let (u, checked, rest) = >>=-eq-ok (validate_lease l) _ e in
    let (v, _, e₁) = >>=-eq-ok (validate_name l.purpose) _ checked in
    let (w, _, e₂) = >>=-eq-ok (validate_name l.holder) _ e₁ in
    (λ z. ground (arith, e₂, z), leases_expire ls rest)

identity_stands :
    (r : Record)
    → validate_identity r ≡ ok tt
    → (is_empty r.provider_id ≡ false)
      ⊎ ((r.phase is Phase.reserved
            || r.phase is Phase.creating
            || r.phase is Phase.quarantined
            || r.phase is Phase.tombstoned)
          ≡ true)
unfolding validate_identity identityless
identity_stands r e = elim (Bool-cases (identityless r)) [
  | inl h ↦ inr (ground (arith, h))
  | inr h ↦
      let there : (validate_name r.provider_id >> validate_receipt r.receipt) ≡ ok tt =
        ground (arith, e, h) in
      let (u, named, _) = >>=-eq-ok (validate_name r.provider_id) _ there in
      inl (name_stands r.provider_id named)
]

validate_record-IsSound : (r : Record) → validate_record r ≡ ok tt → IsSound r
unfolding validate_record valid_stamp valid_tombstone valid_uncertainty
validate_record-IsSound r e =
    let (u₁, named, e₁) = >>=-eq-ok (validate_name r.name) _ e in
    let (u₂, _, e₂) = >>=-eq-ok (validate_name r.provider_type) _ e₁ in
    let (u₃, _, e₃) = >>=-eq-ok (validate_name r.git_hub.exact_name) _ e₂ in
    let (u₄, stamped, e₄) = >>=-eq-ok (guard (valid_stamp r) _) _ e₃ in
    let (u₅, identity, e₅) = >>=-eq-ok (validate_identity r) _ e₄ in
    let (u₆, leases, e₆) = >>=-eq-ok (validate_leases r.leases) _ e₅ in
    let (u₇, _, e₇) = >>=-eq-ok (validate_quarantine r.quarantine) _ e₆ in
    let (u₈, grave, e₈) = >>=-eq-ok (guard (valid_tombstone r) _) _ e₇ in
    record {
      named = name_stands r.name named;
      counted = λ z. ground (arith, stamped, z);
      created = λ z. ground (arith, stamped, z);
      ordered = ground (arith, stamped);
      leased = leases_expire r.leases leases;
      buried = λ b. ground (arith, grave, b);
      identified = identity_stands r identity;
      uncertain = λ b. ground (arith, e₈, b);
    }

all-IsSound : (rs : List Record) → All (λ r. validate_record r ≡ ok tt) rs → All IsSound rs
all-IsSound [] a = tt
all-IsSound (r ∷ rs) (e, a) = (validate_record-IsSound r e, all-IsSound rs a)

-- The records of a snapshot that loads rise strictly by name, and each is named, has a generation and a
-- time of its creation, was not updated before it, holds no lease without a time at which it runs out,
-- bears the stamps of the tombstone and of both removals if it is a tombstone, has an instance if it is
-- past its creation and neither quarantined nor a tombstone, and is quarantined with an instance if its
-- inventory is uncertain.
pub load-IsSound :
    (c : Codec) (io : Io) (d : Disk c) {s : DiskState}
    → load c io d ≡ ok s
    → Rising s.records × All IsSound s.records
unfolding validate_state
load-IsSound c io d {s} e =
    let valid = load-valid c io d e in
    let (u, _, e₁) = >>=-eq-ok (guard (s.schema == schema_version) _) _ valid in
    let (v, sorted, _) =
      >>=-eq-ok (validate_sorted validate_record (λ r. r.name) none s.records) _ e₁ in
    (
      validate_state-Rising s valid,
      all-IsSound s.records (sorted_checked validate_record (λ r. r.name) none s.records sorted),
    )
