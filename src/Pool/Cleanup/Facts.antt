-- ===== src/Pool/Cleanup/Facts.antt =====
-- internal/pool/lifecycle_cleanup.go and manager.go: the tests that the cleanup makes.
use ephemeral_action_runner.Shared.{
  ℕ, ℤ, pos, leb_ℤ, Str, codes, str_eq, is_empty, Bool, true, false, not, ◌&&◌, ◌||◌, ◌==◌, ltb,
  if◌then◌else◌, Option, none, some, List, [], ◌∷◌, Result, ok, err,
}
use ephemeral_action_runner.PoolState.Types.{
  Phase, Action, Payload, Receipt, Lease, Quarantine, Record, Transition, ◌is◌, no_receipt,
}
use ephemeral_action_runner.PoolState.Store.{held_by}
use ephemeral_action_runner.Pool.Cleanup.Host.{Runner, Instance, InventoryItem, Refusal}

abbrev pub bare : Action → Transition
bare a = record {
  action = a;
  provider_id = codes "";
  receipt = no_receipt;
  runner_id = pos 0;
  reason = codes "";
}

abbrev pub no_identity_reason : Str
no_identity_reason =
    codes "create was interrupted before an immutable provider identity was recorded"

abbrev pub github_identity_reason : Str
github_identity_reason =
    codes
      "create was interrupted and a same-name GitHub runner exists without a recorded immutable id"

abbrev uncertain_reason : Str
uncertain_reason =
    codes "provider create outcome is uncertain; immutable provider identity was not recorded"

unfoldable pub has_prefix : Str → Str → Bool
has_prefix s [] = true
has_prefix [] (d ∷ t) = false
has_prefix (c ∷ s) (d ∷ t) = c == d && has_prefix s t

uncertain_quarantine : Option Quarantine → Bool
unfolding has_prefix
uncertain_quarantine none = false
uncertain_quarantine (some q) =
    has_prefix q.reason uncertain_reason
    || (str_eq q.reason no_identity_reason || str_eq q.reason github_identity_reason)

unfoldable pub is_uncertain_create : Record → Bool
unfolding uncertain_quarantine
is_uncertain_create r =
    if not (is_empty r.provider_id)
    then false
    else if r.create_outcome_uncertain
    then true
    else if r.phase is Phase.creating
    then true
    else if not (r.phase is Phase.quarantined)
    then false
    else uncertain_quarantine r.quarantine

unfoldable pub active_lifecycle_lease : List Lease → ℕ → Option Lease
active_lifecycle_lease [] now = none
active_lifecycle_lease (l ∷ ls) now =
    let rest = active_lifecycle_lease ls now in if ltb now l.expires_at then some l else rest

abbrev pub zero_id : ℤ → Bool
zero_id id = leb_ℤ id (pos 0) && leb_ℤ (pos 0) id

abbrev pub same_id : ℤ → ℤ → Bool
same_id a b = leb_ℤ a b && leb_ℤ b a

abbrev pub any_held : Str → Str → List Lease → Bool
any_held p h [] = false
any_held p h (l ∷ ls) = held_by p h l || any_held p h ls

abbrev pub job : Str
job = codes "job"

-- The exact item among those of the same name: the last of the recorded identity, unless an item of
-- the record's name has another.
unfoldable pub find_exact :
    Record → List InventoryItem → Option Instance → Result Refusal (Option Instance)
find_exact r [] found = ok found
find_exact r (i ∷ is') found =
    let mine = find_exact r is' (some i.instance_of) in
    let passed = find_exact r is' found in
    if str_eq i.instance_of.provider_id r.provider_id
    then mine
    else if str_eq i.instance_of.name r.name
    then err Refusal.mismatch
    else passed

unfoldable pub any_of_id : Str → List InventoryItem → Bool
any_of_id id [] = false
any_of_id id (i ∷ is') = str_eq i.instance_of.provider_id id || any_of_id id is'

-- The loop over the items of a record whose inventory is uncertain.
unfoldable pub observe_exact : Record → List InventoryItem → Bool → Result Refusal Bool
observe_exact r [] found = ok found
observe_exact r (i ∷ is') found =
    let passed = observe_exact r is' found in
    let seen = observe_exact r is' true in
    if not (str_eq i.instance_of.name r.name)
    then passed
    else if not (str_eq i.instance_of.provider_id r.provider_id)
    then err Refusal.mismatch
    else seen

unfoldable pub usable_receipt : Receipt → Bool
usable_receipt x = elim x.payload [
  | Payload.absent ↦ false
  | Payload.malformed s ↦ false
  | _ ↦ not (is_empty x.version)
]

abbrev pub no_items : List InventoryItem → Bool
no_items [] = true
no_items (i ∷ is') = false

abbrev pub found_any : Option Runner → Bool
found_any none = false
found_any (some x) = true

abbrev pub other_runner : Record → Runner → Bool
other_runner r x = zero_id r.git_hub.runner_id || not (same_id x.id r.git_hub.runner_id)
