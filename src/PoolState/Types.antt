-- ===== src/PoolState/Types.antt =====
-- internal/pool/state/types.go: the data of a lifecycle record. A time is a number of nanoseconds,
-- with 0 for Go's zero time; a `*time.Time` is an option.
use ephemeral_action_runner.Shared.{
  ℕ, ℤ, Str, Bool, true, false, List, Option, none, ◌==◌, codes, ◌&&◌, is_empty,
}

-- The last constructor stands for every string that is none of the constants.
pub data Phase : Type 0 where
  reserved creating created validating standby registering ready busy draining : Phase
  quarantined cleanup_pending fencing fenced remote_reconciling remote_absent : Phase
  local_removing local_absent tombstoned unrecognized : Phase

pub data Action : Type 0 where
  create_intent abandon_create created validate_intent validated register_intent : Action
  registered job_started job_finished quarantine recovery_inventory_uncertain : Action
  recovery_inventory_observed fence_intent fenced verify_remote_intent remote_absent : Action
  remove_local_intent local_absent cleanup_pending resume_cleanup tombstone : Action
  unrecognized : Action

-- A `json.RawMessage` up to white space between its tokens: no bytes, the text `null`, an object, any
-- other JSON value, or text that is not JSON.
pub data Payload : Type 0 where
  absent null : Payload
  object scalar malformed : Str → Payload

pub record Receipt : Type 0 where
  pub version : Str
  pub payload : Payload

pub record GitHubIdentity : Type 0 where
  pub exact_name : Str
  pub runner_id : ℤ

pub record Lease : Type 0 where
  pub purpose : Str
  pub holder : Str
  pub expires_at : ℕ

pub record Quarantine : Type 0 where
  pub reason : Str
  pub reported_at : ℕ

pub record Cleanup : Type 0 where
  pub fence_intent_at : Option ℕ
  pub remote_verify_at : Option ℕ
  pub remote_absent_at : Option ℕ
  pub local_remove_intent_at : Option ℕ
  pub local_absent_at : Option ℕ

pub record Record : Type 0 where
  pub name : Str
  pub provider_type : Str
  pub provider_id : Str
  pub receipt : Receipt
  pub git_hub : GitHubIdentity
  pub phase : Phase
  pub leases : List Lease
  pub quarantine : Option Quarantine
  pub cleanup : Cleanup
  pub create_outcome_uncertain : Bool
  pub recovery_inventory_uncertain : Bool
  pub generation : ℕ  -- uint64
  pub created_at : ℕ
  pub updated_at : ℕ
  pub tombstoned_at : Option ℕ

pub record CreateSpec : Type 0 where
  pub name : Str
  pub provider_type : Str
  pub git_hub : GitHubIdentity

pub record Transition : Type 0 where
  pub action : Action
  pub provider_id : Str
  pub receipt : Receipt
  pub runner_id : ℤ
  pub reason : Str

pub record Discovery : Type 0 where
  pub provider_type : Str
  pub provider_id : Str
  pub exact_name : Str
  pub receipt : Receipt
  pub observed_at : ℕ

-- What can go wrong in the file system below the store.
pub data IoError : Type 0 where
  cannot_lock cannot_read cannot_create cannot_write cannot_sync cannot_close cannot_rename :
      IoError
  cannot_encode canceled : IoError

-- The sentinel errors that callers test with `errors.Is`, and the others.
pub data StoreError : Type 0 where
  already_exists not_found invalid_record invalid_transition corrupt : StoreError
  io : IoError → StoreError

abbrev index : Phase → ℕ
index Phase.reserved = 0
index Phase.creating = 1
index Phase.created = 2
index Phase.validating = 3
index Phase.standby = 4
index Phase.registering = 5
index Phase.ready = 6
index Phase.busy = 7
index Phase.draining = 8
index Phase.quarantined = 9
index Phase.cleanup_pending = 10
index Phase.fencing = 11
index Phase.fenced = 12
index Phase.remote_reconciling = 13
index Phase.remote_absent = 14
index Phase.local_removing = 15
index Phase.local_absent = 16
index Phase.tombstoned = 17
index Phase.unrecognized = 18

-- `==` of two phases, one of which is always a constant of the source.
infix 50 ◌is◌
abbrev pub ◌is◌ : Phase → Phase → Bool
p is q = index p == index q

abbrev pub null_payload : Payload → Bool
null_payload Payload.absent = true
null_payload Payload.null = true
null_payload (Payload.object s) = false
null_payload (Payload.scalar s) = false
null_payload (Payload.malformed s) = false

unfoldable pub empty_receipt : Receipt → Bool
unfolding is_empty
empty_receipt r = is_empty r.version && null_payload r.payload

abbrev pub no_receipt : Receipt
no_receipt = record { version = codes ""; payload = Payload.absent }

abbrev pub no_cleanup : Cleanup
no_cleanup = record {
  fence_intent_at = none;
  remote_verify_at = none;
  remote_absent_at = none;
  local_remove_intent_at = none;
  local_absent_at = none;
}
