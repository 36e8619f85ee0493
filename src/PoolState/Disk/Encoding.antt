-- ===== src/PoolState/Disk/Encoding.antt =====
-- What internal/pool/state/store.go takes from `encoding/json` and `crypto/sha256`.
use ephemeral_action_runner.Shared.{ℕ, Str, List, map, Option, some, ◌≡◌}
use ephemeral_action_runner.PoolState.Types.{Payload, Receipt, Record, Discovery}
use ephemeral_action_runner.PoolState.Validate.{DiskState}

-- The state without its checksum.
pub record ChecksumState : Type 0 where
  pub schema : ℕ
  pub generation : ℕ
  pub records : List Record
  pub discoveries : List Discovery

-- `json.MarshalIndent` of a state, `json.Unmarshal` into one, and the hexadecimal SHA-256 of
-- `json.Marshal`. Encoding fails on a payload that is not JSON.
pub record Codec : Type 1 where
  pub Bytes : Type 0
  pub encode : DiskState → Option Bytes
  pub decode : Bytes → Option DiskState
  pub digest : ChecksumState → Option Str

unfoldable pub checksum : Codec → DiskState → Option Str
checksum c s = c.digest (record {
  schema = s.schema;
  generation = s.generation;
  records = s.records;
  discoveries = s.discoveries;
})

-- A payload with no bytes is written as `null` and read back so.
unfoldable pub stored_payload : Payload → Payload
stored_payload Payload.absent = Payload.null
stored_payload p = p

unfoldable pub stored_receipt : Receipt → Receipt
unfolding stored_payload
stored_receipt r = record r { payload = stored_payload r.payload }

unfoldable pub stored_record : Record → Record
unfolding stored_receipt
stored_record r = record r { receipt = stored_receipt r.receipt }

unfoldable pub stored_discovery : Discovery → Discovery
unfolding stored_receipt
stored_discovery d = record d { receipt = stored_receipt d.receipt }

unfoldable pub stored : DiskState → DiskState
unfolding stored_record stored_discovery
stored s = record s {
  records = map stored_record s.records;
  discoveries = map stored_discovery s.discoveries;
}

-- The documented behaviour of the two packages: a value that was encoded decodes to itself, up to the
-- payloads without bytes; and such a payload and `null` have one encoding, so one digest.
pub record CodecLaws (c : Codec) : Type 0 where
  pub round_trip :
      (s : DiskState) (b : c.Bytes) → c.encode s ≡ some b → c.decode b ≡ some (stored s)
  pub one_digest : (s : DiskState) → checksum c (stored s) ≡ checksum c s
