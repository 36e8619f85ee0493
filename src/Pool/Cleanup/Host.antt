-- ===== src/Pool/Cleanup/Host.antt =====
-- What the cleanup of a record runs against: the store of the records, GitHub and the provider as the
-- operations that the controller calls, and the calls in sequence.
use ephemeral_action_runner.Shared.{ℕ, ℤ, Str, Bool, Option, Result, ok, err, List, ◌≡◌, arith}
use ephemeral_action_runner.PoolState.Types.{
  Receipt, Lease, Record, Transition, Discovery, StoreError,
}
use ephemeral_action_runner.PoolState.Disk.{Io}
pub use ephemeral_action_runner.Pool.Cleanup.Records.{
  RecordStore, SameLife, IsMoved, IsLeased, IsKept, StoreLaws,
}

pub record Runner : Type 0 where
  pub id : ℤ
  pub name : Str
  pub busy : Bool

-- `provider.Instance`, its receipt's version and payload in one record.
pub record Instance : Type 0 where
  pub name : Str
  pub provider_id : Str
  pub source : Str
  pub state : Str
  pub receipt : Receipt

pub record InventoryItem : Type 0 where
  pub instance_of : Instance
  pub state : Str
  pub source : Str

-- The kinds of a provider's error that the cleanup tells apart, after their classification.
pub data ProviderError : Type 0 where
  budget_timeout control_plane admission canceled other : ProviderError

-- The world outside the store: what the next call of the store meets, the time, GitHub's and the
-- provider's operations. Each of them may change that world in any way.
pub record Host : Type 1 where
  pub Outside : Type 0
  pub meet : Outside → Outside × Io
  pub now : Outside → Outside × ℕ
  pub runner_by_name : Outside → Str → Outside × Result Str (Option Runner)
  pub delete_runner : Outside → ℤ → Outside × Result Str (Unit {0})
  pub inventory : Outside → Outside × Result ProviderError (List InventoryItem)
  pub stop_instance : Outside → Instance → Outside × Result ProviderError (Unit {0})
  pub delete_instance : Outside → Instance → Outside × Result ProviderError (Unit {0})
  pub finalize_absent : Outside → Instance → Outside × Result ProviderError (Unit {0})

-- Whether there is a GitHub client, whether the provider finalizes absent instances, the provider's
-- type, how a number is printed, and the JSON object of a state and a source.
pub record Settings : Type 0 where
  pub github : Bool
  pub finalizes : Bool
  pub provider_type : Str
  pub decimal : ℤ → Str
  pub describe : Str → Str → Str

pub data Refusal : Type 0 where
  leased unidentified uncertain_create runner_exists unverifiable mismatch unobserved : Refusal
  no_identity unsupported runner_remains instance_remains runner_busy name_reused : Refusal

pub data CleanupError : Type 0 where
  store : StoreError → CleanupError
  github : Str → CleanupError
  provider : ProviderError → CleanupError
  refused : Refusal → CleanupError

-- A computation that changes a state and may fail; what it changed stays changed.
abbrev pub Run : Type 0 → Type 0 → Type 0 → Type 0
Run W E A = W → W × Result E A

infixl 5 ◌>>=◌
unfoldable pub ◌>>=◌ : {W E A B : Type 0} → Run W E A → (A → Run W E B) → Run W E B
◌>>=◌ m f w = elim (m w).1 [ err e ↦ ((m w).0, err e) | ok a ↦ f a (m w).0 ]

infixl 5 ◌>>◌
abbrev pub ◌>>◌ : {W E B : Type 0} → Run W E (Unit {0}) → Run W E B → Run W E B
m >> k = m >>= λ u. k

abbrev pub pure : {W E A : Type 0} → A → Run W E A
pure a w = (w, ok a)

abbrev pub fail : {W E A : Type 0} → E → Run W E A
fail e w = (w, err e)

-- An error that is only logged.
abbrev pub ignoring : {W E A : Type 0} → Run W E A → Run W E (Unit {0})
ignoring m w = ((m w).0, ok tt)

pub record World (h : Host) (s : RecordStore) : Type 0 where
  pub outside : h.Outside
  pub records : s.State

module _ (h : Host) (s : RecordStore) where
  abbrev pub M : Type 0 → Type 0
  M A = Run (World h s) CleanupError A

  abbrev pub lift :
      {E : Type 0} → (E → CleanupError) → {A : Type 0} → Result E A → Result CleanupError A
  lift wrap (ok a) = ok a
  lift wrap (err e) = err (wrap e)

  -- A call of the store, which meets what the host has for it.
  abbrev pub stored : {A : Type 0} → (Io → s.State → s.State × Result StoreError A) → M A
  stored call w =
      let (o, io) = h.meet w.outside in
      let (d, r) = call io w.records in
      (record { outside = o; records = d }, lift CleanupError.store r)

  abbrev pub outward :
      {E : Type 0} → (E → CleanupError) → {A : Type 0} → (h.Outside → h.Outside × Result E A) → M A
  outward wrap call w = let (o, r) = call w.outside in (record w { outside = o }, lift wrap r)

  unfoldable pub read : Str → M Record
  read n = stored (λ io d. (d, s.read io n d))

  unfoldable pub transition : Str → Transition → M Record
  transition n t = stored (λ io d. s.transition io n t d)

  unfoldable pub acquire : Str → Lease → M Record
  acquire n l = stored (λ io d. s.acquire_lease io n l d)

  unfoldable pub release : Str → Str → Str → M Record
  release n p holder = stored (λ io d. s.release_lease io n p holder d)

  unfoldable pub report : Discovery → M Discovery
  report x = stored (λ io d. s.report_unknown io x d)

  unfoldable pub current_time : M ℕ
  current_time w = let (o, t) = h.now w.outside in (record w { outside = o }, ok t)

  unfoldable pub runner_by_name : Str → M (Option Runner)
  runner_by_name n = outward CleanupError.github (λ o. h.runner_by_name o n)

  unfoldable pub delete_runner : ℤ → M (Unit {0})
  delete_runner id = outward CleanupError.github (λ o. h.delete_runner o id)

  unfoldable pub inventory : M (List InventoryItem)
  inventory = outward CleanupError.provider h.inventory

  unfoldable pub delete_instance : Instance → M (Unit {0})
  delete_instance x = outward CleanupError.provider (λ o. h.delete_instance o x)

  unfoldable pub finalize_absent : Instance → M (Unit {0})
  finalize_absent x = outward CleanupError.provider (λ o. h.finalize_absent o x)

  -- The stop of an instance ends the cleanup only if the provider itself may have failed.
  unfoldable pub stop_instance : Instance → M (Unit {0})
  stop_instance x w =
      let (o, r) = h.stop_instance w.outside x in
      (
        record w { outside = o },
        elim r [
          | err ProviderError.other ↦ ok tt
          | ok u ↦ ok tt
          | err e ↦ err (CleanupError.provider e)
        ],
      )

  pub lift-ok :
      {E : Type 0} (wrap : E → CleanupError) {A : Type 0} (r : Result E A) {a : A}
      → lift wrap r ≡ ok a
      → r ≡ ok a
  lift-ok wrap (ok b) e = ground (arith, e)
  lift-ok wrap (err x) e = absurd (ground (arith, e))
