-- ===== src/Pool/Cleanup/Records.antt =====
-- The store of the records behind an interface, with what the cleanup of a record relies on.
use ephemeral_action_runner.Shared.{
  ℕ, Str, false, Option, none, some, Result, ok, err, ◌≡◌, refl, sym, ◌∙◌, str_eq,
}
use ephemeral_action_runner.PoolState.Types.{Lease, Record, Transition, Discovery, StoreError}
use ephemeral_action_runner.PoolState.Transition.{apply_transition}
use ephemeral_action_runner.PoolState.Disk.{Io}

-- The operations of the store that the cleanup calls.
pub record RecordStore : Type 1 where
  pub State : Type 0
  pub read : Io → Str → State → Result StoreError Record
  pub transition : Io → Str → Transition → State → State × Result StoreError Record
  pub acquire_lease : Io → Str → Lease → State → State × Result StoreError Record
  pub release_lease : Io → Str → Str → Str → State → State × Result StoreError Record
  pub report_unknown : Io → Discovery → State → State × Result StoreError Discovery

-- What decides how a record goes on; the stamps, the leases and an empty payload may differ.
pub record SameLife (r q : Record) : Type 0 where
  pub phase : q.phase ≡ r.phase
  pub uncertain : q.recovery_inventory_uncertain ≡ r.recovery_inventory_uncertain
  pub provider : q.provider_id ≡ r.provider_id
  pub runner : q.git_hub ≡ r.git_hub

-- A transition from what stood under a name to what stands there after it.
pub record IsMoved (t : Transition) (now : ℕ) (before after : Option Record) : Type 0 where
  pub from : Record
  pub to : Record
  pub next : Record
  pub was : before ≡ some from
  pub applied : apply_transition from t now ≡ ok to
  pub same : SameLife to next
  pub is_now : after ≡ some next

-- A change of the leases only.
pub record IsLeased (before after : Option Record) : Type 0 where
  pub from : Record
  pub next : Record
  pub was : before ≡ some from
  pub same : SameLife from next
  pub is_now : after ≡ some next

-- What is found was found, and leads the same life; it may have been written anew.
pub record IsKept (before after : Option Record) : Type 0 where
  pub back : (q : Record) → after ≡ some q → (r : Record) × (before ≡ some r) × SameLife r q

pub IsKept-same : (o : Option Record) {o' : Option Record} → o' ≡ o → IsKept o o'
IsKept-same o same = record {
  back = λ q e.
      (q, sym same ∙ e, record { phase = refl; uncertain = refl; provider = refl; runner = refl });
}

-- What the cleanup relies on, for a view of the state that has at most one record for a name: reading
-- answers with that record, or that there is none if there is none, and a call that returns a record changed the record of its
-- name only, one that returns an error left every record as it was.
pub record StoreLaws (s : RecordStore) (view : s.State → Str → Option Record) : Type 0 where
  pub read_view :
      (io : Io) (n : Str) (d : s.State) {r : Record} → s.read io n d ≡ ok r → view d n ≡ some r
  pub read_name : (io : Io) (n : Str) (d : s.State) {r : Record} → s.read io n d ≡ ok r → r.name ≡ n
  pub read_missing :
      (io : Io) (n : Str) (d : s.State) → s.read io n d ≡ err StoreError.not_found → view d n ≡ none
  pub transition_moves :
      (io : Io) (n : Str) (t : Transition) (d : s.State) {r : Record}
      → (s.transition io n t d).1 ≡ ok r
      → IsMoved t io.now (view d n) (view (s.transition io n t d).0 n)
  pub transition_frame :
      (io : Io) (n m : Str) (t : Transition) (d : s.State)
      → str_eq n m ≡ false
      → IsKept (view d m) (view (s.transition io n t d).0 m)
  pub transition_refused :
      (io : Io) (n m : Str) (t : Transition) (d : s.State) {e : StoreError}
      → (s.transition io n t d).1 ≡ err e
      → view (s.transition io n t d).0 m ≡ view d m
  pub acquire_leases :
      (io : Io) (n : Str) (l : Lease) (d : s.State) {r : Record}
      → (s.acquire_lease io n l d).1 ≡ ok r
      → IsLeased (view d n) (view (s.acquire_lease io n l d).0 n)
  pub acquire_frame :
      (io : Io) (n m : Str) (l : Lease) (d : s.State)
      → str_eq n m ≡ false
      → IsKept (view d m) (view (s.acquire_lease io n l d).0 m)
  pub acquire_refused :
      (io : Io) (n m : Str) (l : Lease) (d : s.State) {e : StoreError}
      → (s.acquire_lease io n l d).1 ≡ err e
      → view (s.acquire_lease io n l d).0 m ≡ view d m
  pub release_leases :
      (io : Io) (n p h : Str) (d : s.State) {r : Record}
      → (s.release_lease io n p h d).1 ≡ ok r
      → IsLeased (view d n) (view (s.release_lease io n p h d).0 n)
  pub release_frame :
      (io : Io) (n m p h : Str) (d : s.State)
      → str_eq n m ≡ false
      → IsKept (view d m) (view (s.release_lease io n p h d).0 m)
  pub release_refused :
      (io : Io) (n m p h : Str) (d : s.State) {e : StoreError}
      → (s.release_lease io n p h d).1 ≡ err e
      → view (s.release_lease io n p h d).0 m ≡ view d m
  pub report_frame :
      (io : Io) (x : Discovery) (d : s.State) (m : Str)
      → IsKept (view d m) (view (s.report_unknown io x d).0 m)
