-- ===== src/PoolState/Validate.antt =====
-- internal/pool/state: validateName and validateReceipt of types.go, validateState and the checks
-- below it of store.go.
use ephemeral_action_runner.Shared.{
  ℕ, Str, Bool, true, false, not, ◌&&◌, ◌||◌, ◌==◌, ltb, leb, List, [], ◌∷◌, ◌++◌, Option, none,
  some, Result, ok, guard, ◌>>◌, if◌then◌else◌, str_eq, str_lt, is_empty, len, trim_space, is_some,
}
use ephemeral_action_runner.PoolState.Types.{
  Phase, Payload, Receipt, Lease, Quarantine, Record, Discovery, StoreError, ◌is◌, empty_receipt,
}

abbrev pub Check : Type 0
Check = Result StoreError (Unit {0})

abbrev pub require : Bool → Check
require b = guard b StoreError.invalid_record

unfoldable pub name_char : ℕ → Bool
name_char r =
    r == b'-'
    || r == b'_'
    || r == b'.'
    || r == b':'
    || leb b'a' r && leb r b'z'
    || leb b'A' r && leb r b'Z'
    || leb b'0' r && leb r b'9'

unfoldable pub name_chars : Str → Bool
unfolding name_char
name_chars [] = true
name_chars (r ∷ s) = name_char r && name_chars s

unfoldable pub valid_name : Str → Bool
unfolding name_chars len trim_space str_eq
valid_name value =
    not (ltb (len value) 1 || ltb 128 (len value) || not (str_eq (trim_space value) value))
    && name_chars value

unfoldable pub validate_name : Str → Check
unfolding valid_name
validate_name value = require (valid_name value)

abbrev pub is_object : Payload → Bool
is_object (Payload.object s) = true
is_object _ = false

-- No bytes, text that is not JSON, `null` and JSON that is no object are refused alike.
unfoldable pub validate_receipt : Receipt → Check
unfolding validate_name
validate_receipt r = validate_name r.version >> require (is_object r.payload)

unfoldable pub valid_phase : Phase → Bool
valid_phase Phase.unrecognized = false
valid_phase _ = true

unfoldable pub validate_lease : Lease → Check
unfolding validate_name
validate_lease l =
    validate_name l.purpose >> (validate_name l.holder >> require (not (l.expires_at == 0)))

unfoldable pub validate_leases : List Lease → Check
unfolding validate_lease
validate_leases [] = ok tt
validate_leases (l ∷ ls) = validate_lease l >> validate_leases ls

unfoldable pub validate_quarantine : Option Quarantine → Check
validate_quarantine none = ok tt
validate_quarantine (some q) = require (not (is_empty q.reason || q.reported_at == 0))

-- A record in one of these states may lack a provider's identity.
unfoldable pub identityless : Record → Bool
unfolding empty_receipt
identityless r =
    r.phase is Phase.reserved
    || r.phase is Phase.creating
    || r.phase is Phase.quarantined && is_empty r.provider_id && empty_receipt r.receipt
    || r.phase is Phase.tombstoned && is_empty r.provider_id && empty_receipt r.receipt

unfoldable pub validate_identity : Record → Check
unfolding identityless validate_name validate_receipt
validate_identity r =
    if identityless r then ok tt else (validate_name r.provider_id >> validate_receipt r.receipt)

unfoldable pub valid_stamp : Record → Bool
unfolding valid_phase
valid_stamp r = not (
    not (valid_phase r.phase)
    || r.generation == 0
    || r.created_at == 0
    || r.updated_at == 0
    || ltb r.updated_at r.created_at)

unfoldable pub valid_tombstone : Record → Bool
valid_tombstone r = not (
    r.phase is Phase.tombstoned
    && (not (is_some r.tombstoned_at)
        || not (is_some r.cleanup.remote_absent_at)
        || not (is_some r.cleanup.local_absent_at)))

unfoldable pub valid_uncertainty : Record → Bool
valid_uncertainty r = not (
    r.recovery_inventory_uncertain
    && (is_empty r.provider_id || not (r.phase is Phase.quarantined)))

unfoldable pub validate_record : Record → Check
validate_record r = do
  validate_name r.name
  validate_name r.provider_type
  validate_name r.git_hub.exact_name
  require (valid_stamp r)
  validate_identity r
  validate_leases r.leases
  validate_quarantine r.quarantine
  require (valid_tombstone r)
  require (valid_uncertainty r)

unfoldable pub validate_discovery : Discovery → Check
unfolding validate_name validate_receipt
validate_discovery d = do
  validate_name d.provider_type
  validate_name d.provider_id
  validate_name d.exact_name
  validate_receipt d.receipt
  require (not (d.observed_at == 0))

-- The two loops of validateState over a key that must rise strictly: `last` is the key of the entry
-- before, if there is one.
module _ {ℓ} {A : Type ℓ} (check : A → Check) (key : A → Str) where
  unfoldable pub validate_sorted : Option Str → List A → Check
  unfolding str_lt
  validate_sorted last [] = ok tt
  validate_sorted none (a ∷ as') = check a >> validate_sorted (some (key a)) as'
  validate_sorted (some k) (a ∷ as') =
      check a >> (require (str_lt k (key a)) >> validate_sorted (some (key a)) as')

-- A NUL between two names.
unfoldable pub discovery_key : Discovery → Str
discovery_key d = d.provider_type ++ 0 ∷ d.provider_id

abbrev pub schema_version : ℕ
schema_version = 1

pub record DiskState : Type 0 where
  pub schema : ℕ
  pub generation : ℕ
  pub records : List Record
  pub discoveries : List Discovery
  pub checksum : Str

unfoldable pub validate_state : DiskState → Check
validate_state s = do
  require (s.schema == schema_version)
  validate_sorted validate_record (λ r. r.name) none s.records
  validate_sorted validate_discovery discovery_key none s.discoveries
