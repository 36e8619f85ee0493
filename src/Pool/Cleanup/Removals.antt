-- ===== src/Pool/Cleanup/Removals.antt =====
-- internal/pool/lifecycle_cleanup.go: removeExactGitHubRunner and removeExactProviderInstance.
use ephemeral_action_runner.Shared.{
  codes, not, if◌then◌else◌, Option, none, some, List, Result, ok, err,
}
use ephemeral_action_runner.PoolState.Types.{Record}
use ephemeral_action_runner.Pool.Cleanup.Host.{
  RecordStore, Host, Settings, Runner, Instance, InventoryItem, Refusal, CleanupError, M, ◌>>=◌,
  ◌>>◌, pure, fail, runner_by_name, delete_runner, inventory, stop_instance, delete_instance,
  finalize_absent,
}
use ephemeral_action_runner.Pool.Cleanup.Facts.{
  zero_id, find_exact, any_of_id, found_any, other_runner,
}

module _ (h : Host) (s : RecordStore) (k : Settings) where
  abbrev C : Type 0 → Type 0
  C A = M h s A

  abbrev refuse : {A : Type 0} → Refusal → C A
  refuse x = fail (CleanupError.refused x)

  unfoldable pub delete_exact : Record → Runner → C (Unit {0})
  delete_exact r x =
      if other_runner r x
      then refuse Refusal.mismatch
      else delete_runner h s x.id
        >> (runner_by_name h s r.git_hub.exact_name >>= λ after.
            if found_any after then refuse Refusal.runner_remains else pure tt)

  abbrev pub delete_if_found : Record → Option Runner → C (Unit {0})
  delete_if_found r none = pure tt
  delete_if_found r (some x) = delete_exact r x

  unfoldable pub remove_exact_runner : Record → C (Unit {0})
  remove_exact_runner r =
      if not k.github
      then if not (zero_id r.git_hub.runner_id) then refuse Refusal.unverifiable else pure tt
      else runner_by_name h s r.git_hub.exact_name >>= delete_if_found r

  unfoldable pub recorded_instance : Record → Instance
  recorded_instance r = record {
    name = r.name;
    provider_id = r.provider_id;
    source = codes "";
    state = codes "";
    receipt = r.receipt;
  }

  unfoldable pub remove_found : Record → Option Instance → C (Unit {0})
  remove_found r none = if k.finalizes then finalize_absent h s (recorded_instance r) else pure tt
  remove_found r (some x) =
      let exact = record x { receipt = r.receipt } in
      stop_instance h s exact
      >> (delete_instance h s exact
          >> (inventory h s >>= λ left.
              if any_of_id r.provider_id left then refuse Refusal.instance_remains else pure tt))

  abbrev pub remove_checked : Record → Result Refusal (Option Instance) → C (Unit {0})
  remove_checked r (err e) = refuse e
  remove_checked r (ok found) = remove_found r found

  unfoldable pub remove_exact_instance : Record → List InventoryItem → C (Unit {0})
  remove_exact_instance r same_name = remove_checked r (find_exact r same_name none)
