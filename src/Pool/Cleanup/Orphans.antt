-- ===== src/Pool/Cleanup/Orphans.antt =====
-- internal/pool/lifecycle_cleanup.go: the cleanup of instances without a record, and the sweep over all
-- instances and records.
use ephemeral_action_runner.Shared.{
  ℕ, Str, codes, str_eq, is_empty, Bool, true, false, not, ◌&&◌, ◌||◌, if◌then◌else◌, Option, none,
  some, List, [], ◌∷◌, ◌++◌, Result, ok, err, keep,
}
use ephemeral_action_runner.PoolState.Types.{Phase, Payload, Receipt, Record, StoreError, ◌is◌}
use ephemeral_action_runner.PoolState.Disk.{Io}
use ephemeral_action_runner.Pool.Cleanup.Host.{
  RecordStore, Host, Settings, Runner, Instance, InventoryItem, ProviderError, Refusal,
  CleanupError, M, ◌>>=◌, ◌>>◌, pure, fail, read, report, runner_by_name, delete_runner, inventory,
  stop_instance, delete_instance, stored,
}
use ephemeral_action_runner.Pool.Cleanup.Driver.{
  has_prefix, found_any, discovery_of, LoopError, cleanup_record,
}

-- What the sweep calls besides: the list of the records, the removal of a discovery, and the receipt
-- that a provider makes from an inventory item, if it can. The expected workspace of the item is the
-- provider's to compare.
pub record Unowned (h : Host) (s : RecordStore) : Type 0 where
  pub name_prefix : Str
  pub prepares : Bool
  pub prepare : h.Outside → InventoryItem → h.Outside × Result ProviderError Instance
  pub list : Io → s.State → Result StoreError (List Record)
  pub forget_unknown : Io → Str → Str → s.State → s.State × Result StoreError (Unit {0})

-- `HasPrefix`.
unfoldable pub has_pool_prefix : Str → Str → Bool
unfolding has_prefix
has_pool_prefix name prefix = str_eq name prefix || has_prefix name (prefix ++ codes "-")

has_payload : Receipt → Bool
has_payload x = elim x.payload [ Payload.absent ↦ false | _ ↦ true ]

-- The instance that the provider prepared is the one of the item.
unfoldable pub is_prepared : InventoryItem → Instance → Bool
unfolding has_payload
is_prepared i x = not (
    not (str_eq x.name i.instance_of.name)
    || (is_empty x.provider_id
        || (not (str_eq x.provider_id i.instance_of.provider_id)
            || (is_empty x.receipt.version || not (has_payload x.receipt)))))

-- What is left after the deletion.
unfoldable pub check_left : Instance → List InventoryItem → Result Refusal (Unit {0})
check_left x [] = ok tt
check_left x (i ∷ rest) =
    let later = check_left x rest in
    if str_eq i.instance_of.provider_id x.provider_id
    then err Refusal.instance_remains
    else if str_eq i.instance_of.name x.name
    then err Refusal.name_reused
    else later

module _ (h : Host) (s : RecordStore) (k : Settings) (u : Unowned h s) where
  abbrev C : Type 0 → Type 0
  C A = M h s A

  abbrev refuse : {A : Type 0} → Refusal → C A
  refuse x = fail (CleanupError.refused x)

  abbrev pub or_absent : Result CleanupError Record → Result CleanupError (Option Record)
  or_absent (ok r) = ok (some r)
  or_absent (err (CleanupError.store StoreError.not_found)) = ok none
  or_absent (err e) = err e

  -- A record, or none if there is none under the name.
  unfoldable pub read_any : Str → C (Option Record)
  read_any n w = ((read h s n w).0, or_absent (read h s n w).1)

  abbrev pub or_nothing : Result ProviderError Instance → Option Instance
  or_nothing (ok x) = some x
  or_nothing (err e) = none

  -- The error of the preparation is dropped.
  unfoldable pub prepare_orphan : InventoryItem → C (Option Instance)
  prepare_orphan i w =
      let (o, r) = u.prepare w.outside i in (record w { outside = o }, ok (or_nothing r))

  unfoldable pub forget : Str → C (Unit {0})
  forget id = stored h s (λ io d. u.forget_unknown io k.provider_type id d)

  -- An error after which the instance is recorded as one without a record.
  unfoldable pub or_retained : {A : Type 0} → InventoryItem → Instance → C A → C A
  or_retained i x m w = elim (m w).1 [
    | ok a ↦ m w
    | err e ↦ ((report h s (discovery_of h s k (record i { instance_of = x })) (m w).0).0, err e)
  ]

  -- The runner of the name, unless it is busy.
  abbrev pub delete_idle : Str → Option Runner → C (Unit {0})
  delete_idle n none = pure tt
  delete_idle n (some x) =
      if x.busy
      then refuse Refusal.runner_busy
      else (delete_runner h s x.id
          >> (runner_by_name h s n >>= λ after.
              if found_any after then refuse Refusal.runner_remains else pure tt))

  unfoldable pub delete_runner_of : Str → C (Unit {0})
  delete_runner_of n = if k.github then runner_by_name h s n >>= delete_idle n else pure tt

  abbrev pub or_refuse : Result Refusal (Unit {0}) → C (Unit {0})
  or_refuse (ok t) = pure tt
  or_refuse (err e) = refuse e

  unfoldable pub delete_orphan : InventoryItem → Instance → C Bool
  delete_orphan i x =
      delete_runner_of i.instance_of.name
      >> (stop_instance h s x
          >> (delete_instance h s x
              >> (inventory h s >>= λ left.
                  or_refuse (check_left x left) >> (forget x.provider_id >> pure true))))

  abbrev pub delete_prepared : InventoryItem → Option Instance → C Bool
  delete_prepared i none = pure false
  delete_prepared i (some x) =
      if is_prepared i x then or_retained i x (delete_orphan i x) else pure false

  abbrev pub unless_live : InventoryItem → Option Record → C Bool
  unless_live i none = if u.prepares then prepare_orphan i >>= delete_prepared i else pure false
  unless_live i (some r) =
      if not (r.phase is Phase.tombstoned)
      then pure false
      else if u.prepares
      then prepare_orphan i >>= delete_prepared i
      else pure false

  -- cleanupPrefixOrphanInventory.
  unfoldable pub cleanup_orphan : InventoryItem → C Bool
  cleanup_orphan i =
      if not (has_pool_prefix i.instance_of.name u.name_prefix)
      then pure false
      else read_any i.instance_of.name >>= unless_live i

  abbrev pub attempt : {A : Type 0} → C A → C (Result CleanupError A)
  attempt m w = ((m w).0, ok (m w).1)

  -- The first of the joined errors.
  abbrev pub join : Option LoopError → LoopError → Option LoopError
  join none e = some e
  join (some x) e = some x

  abbrev pub is_protected : Str → List Record → Bool
  is_protected n [] = false
  is_protected n (r ∷ rs) =
      not (r.phase is Phase.tombstoned) && str_eq r.name n || is_protected n rs

  abbrev pub report_uncleaned :
      InventoryItem → Option LoopError → Result CleanupError Bool → C (Option LoopError)
  report_uncleaned i first (err e) = pure (join first (LoopError.failed e))
  report_uncleaned i first (ok true) = pure first
  report_uncleaned i first (ok false) = report h s (discovery_of h s k i) >>= λ x. pure first

  unfoldable pub sweep_items :
      List Record → List InventoryItem → Option LoopError → C (Option LoopError)
  sweep_items records [] first = pure first
  sweep_items records (i ∷ rest) first =
      let skipped = sweep_items records rest first in
      if not (has_pool_prefix i.instance_of.name u.name_prefix)
        || is_protected i.instance_of.name records
      then skipped
      else (attempt (cleanup_orphan i) >>= report_uncleaned i first) >>= sweep_items records rest

  -- inventoryByName, at one name.
  abbrev pub same_name : Str → List InventoryItem → List InventoryItem
  same_name n = keep (λ i. str_eq i.instance_of.name n)

  abbrev pub after_record : Option LoopError → Result LoopError (Unit {0}) → Option LoopError
  after_record first (ok t) = first
  after_record first (err e) = join first e

  unfoldable pub sweep_record :
      ℕ → List InventoryItem → Record → Option LoopError → C (Option LoopError)
  sweep_record fuel items r first w =
      let (w', result) = cleanup_record h s k fuel r.name (same_name r.name items) false false w in
      (w', ok (after_record first result))

  unfoldable pub sweep_records :
      ℕ → List InventoryItem → List Record → Option LoopError → C (Option LoopError)
  sweep_records fuel items [] first = pure first
  sweep_records fuel items (r ∷ rest) first =
      let skipped = sweep_records fuel items rest first in
      if not (str_eq r.provider_type k.provider_type) || r.phase is Phase.tombstoned
      then skipped
      else (sweep_record fuel items r first >>= sweep_records fuel items rest)

  -- cleanupOwnedLifecycle: the first of its joined errors, or its own.
  unfoldable pub cleanup_owned : ℕ → C (Option LoopError)
  cleanup_owned fuel = stored h s (λ io d. (d, u.list io d)) >>= λ records.
      inventory h s >>= λ items. sweep_items records items none >>= sweep_records fuel items records
