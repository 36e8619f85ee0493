-- ===== src/PoolState/Disk/Snapshot.antt =====
-- internal/pool/state/store.go: what a snapshot that loads is known to satisfy, and that writing and
-- reading a state does not change what is valid.
use ephemeral_action_runner.Shared.{
  Str, true, List, [], ◌∷◌, Option, none, some, ok, >>=-eq-ok, Option-cases, inl, inr, ◌≡◌, refl,
  arith, ◌∙◌, ap, sym, str_lt, str_lt_trans, map, guard, codes, ◌==◌,
}
use mathlib.Core.Option
use ephemeral_action_runner.PoolState.Types.{Receipt, Record, Discovery, empty_receipt}
use ephemeral_action_runner.PoolState.Validate.{
  DiskState, Check, schema_version, validate_state, validate_sorted, validate_record,
  validate_discovery, discovery_key, validate_receipt, validate_identity, valid_stamp,
  valid_tombstone, valid_uncertainty,
}
use ephemeral_action_runner.PoolState.Lookup.{Rising, Above, lookup}
use ephemeral_action_runner.PoolState.Disk.Encoding.{
  Codec, stored, stored_record, stored_discovery, stored_receipt,
}
use ephemeral_action_runner.PoolState.Disk.{Io, Disk, load, check_loaded}

Above-trans : (k j : Str) (rs : List Record) → str_lt k j ≡ true → Above j rs → Above k rs
Above-trans k j [] h a = tt
Above-trans k j (x ∷ rs) h a = (str_lt_trans k j x.name h a.0, Above-trans k j rs h a.1)

abbrev by_name : Record → Str
by_name r = r.name

sorted-Above :
    (k : Str) (rs : List Record)
    → validate_sorted validate_record by_name (some k) rs ≡ ok tt
    → Above k rs × Rising rs
unfolding validate_sorted
sorted-Above k [] e = (tt, tt)
sorted-Above k (x ∷ rs) e =
    let (u, _, e₁) = >>=-eq-ok (validate_record x) _ e in
    let (v, h, e₂) = >>=-eq-ok (guard (str_lt k x.name) _) _ e₁ in
    let (above, rising) = sorted-Above x.name rs e₂ in
    let lt : str_lt k x.name ≡ true = ground arith in
    ((lt, Above-trans k x.name rs lt above), (above, rising))

sorted-Rising :
    (rs : List Record) → validate_sorted validate_record by_name none rs ≡ ok tt → Rising rs
unfolding validate_sorted
sorted-Rising [] e = tt
sorted-Rising (x ∷ rs) e = sorted-Above x.name rs (>>=-eq-ok (validate_record x) _ e).2

-- The records of a valid state rise by name.
pub validate_state-Rising : (s : DiskState) → validate_state s ≡ ok tt → Rising s.records
unfolding validate_state
validate_state-Rising s e =
    let (u, _, e₁) = >>=-eq-ok (guard (s.schema == schema_version) _) _ e in
    let (v, sorted, _) = >>=-eq-ok (validate_sorted validate_record by_name none s.records) _ e₁ in
    sorted-Rising s.records sorted

module _ {ℓ} {A : Type ℓ} (check : A → Check) (key : A → Str) (f : A → A)
    (same_check : (a : A) → check (f a) ≡ check a) (same_key : (a : A) → key (f a) ≡ key a) where
  validate_sorted-map :
      (last : Option Str) (as' : List A)
      → validate_sorted check key last (map f as') ≡ validate_sorted check key last as'
  unfolding validate_sorted
  validate_sorted-map last [] = refl
  validate_sorted-map none (a ∷ as') =
      rw (same_check a, same_key a, validate_sorted-map (some (key a)) as')
  validate_sorted-map (some k) (a ∷ as') =
      rw (same_check a, same_key a, validate_sorted-map (some (key a)) as')

empty_receipt-stored : (r : Receipt) → empty_receipt (stored_receipt r) ≡ empty_receipt r
unfolding empty_receipt stored_receipt
empty_receipt-stored r = ground arith

validate_receipt-stored : (r : Receipt) → validate_receipt (stored_receipt r) ≡ validate_receipt r
unfolding validate_receipt stored_receipt
validate_receipt-stored r = ground arith

validate_identity-stored : (r : Record) → validate_identity (stored_record r) ≡ validate_identity r
unfolding validate_identity stored_record
validate_identity-stored r =
    ground (arith, empty_receipt-stored r.receipt, validate_receipt-stored r.receipt)

valid_stamp-stored : (r : Record) → valid_stamp (stored_record r) ≡ valid_stamp r
unfolding valid_stamp stored_record
valid_stamp-stored r = refl

valid_tombstone-stored : (r : Record) → valid_tombstone (stored_record r) ≡ valid_tombstone r
unfolding valid_tombstone stored_record
valid_tombstone-stored r = refl

valid_uncertainty-stored : (r : Record) → valid_uncertainty (stored_record r) ≡ valid_uncertainty r
unfolding valid_uncertainty stored_record
valid_uncertainty-stored r = refl

validate_record-stored : (r : Record) → validate_record (stored_record r) ≡ validate_record r
unfolding validate_record stored_record
validate_record-stored r = rw (
  validate_identity-stored r,
  valid_stamp-stored r,
  valid_tombstone-stored r,
  valid_uncertainty-stored r,
)

validate_discovery-stored :
    (d : Discovery) → validate_discovery (stored_discovery d) ≡ validate_discovery d
unfolding validate_discovery stored_discovery
validate_discovery-stored d = rw (validate_receipt-stored d.receipt)

name-stored : (r : Record) → by_name (stored_record r) ≡ by_name r
unfolding stored_record
name-stored r = refl

discovery_key-stored : (d : Discovery) → discovery_key (stored_discovery d) ≡ discovery_key d
unfolding discovery_key stored_discovery
discovery_key-stored d = refl

-- A state is as valid after it was written and read as before.
pub validate_state-stored :
    (s : DiskState) (sum : Str)
    → validate_state (stored (record s { checksum = sum })) ≡ validate_state s
unfolding validate_state stored
validate_state-stored s sum = rw (
  validate_sorted-map validate_record by_name stored_record validate_record-stored name-stored none
      s.records,
  validate_sorted-map validate_discovery discovery_key stored_discovery validate_discovery-stored
      discovery_key-stored none s.discoveries,
)

check_loaded-valid :
    (c : Codec) (s : DiskState) {s' : DiskState}
    → check_loaded c s ≡ ok s'
    → validate_state s' ≡ ok tt
unfolding check_loaded
check_loaded-valid c s e = ground arith

abbrev fresh : DiskState
fresh = record {
  schema = schema_version;
  generation = 0;
  records = [];
  discoveries = [];
  checksum = codes "";
}

fresh-valid : validate_state fresh ≡ ok tt
unfolding validate_state validate_sorted
fresh-valid = refl

-- Whatever loads is valid.
pub load-valid :
    (c : Codec) (io : Io) (d : Disk c) {s : DiskState}
    → load c io d ≡ ok s
    → validate_state s ≡ ok tt
unfolding load
load-valid c io d {s} e = elim (Option-cases d.file) [
  | inl f ↦ let same : fresh ≡ s = ground arith in ap validate_state (sym same) ∙ fresh-valid
  | inr (b, f) ↦ elim (Option-cases (c.decode b)) [
    | inl g ↦ absurd (ground arith)
    | inr (t, g) ↦ check_loaded-valid c t (ground arith)
  ]
]

pub lookup-stored :
    (n : Str) (rs : List Record)
    → lookup n (map stored_record rs) ≡ Option.map stored_record (lookup n rs)
unfolding lookup stored_record
lookup-stored n [] = refl
lookup-stored n (r ∷ rs) = ground (arith, lookup-stored n rs)
