-- ===== src/Pool/Cleanup/Idle.antt =====
-- The cleanup of an instance without a record, where its name has one.
use ephemeral_action_runner.Shared.{
  Str, Bool, true, false, Option, some, Result, ok, err, ◌≡◌, ◌≢◌, ◌⊎◌, refl, ap, Bool-cases, arith,
  inl, inr,
}
use ephemeral_action_runner.PoolState.Types.{Phase, StoreError, Record, ◌is◌}
use ephemeral_action_runner.Pool.Cleanup.Host.{
  RecordStore, StoreLaws, CleanupError, Host, Settings, InventoryItem, World, lift, ◌>>=◌, read,
}
use ephemeral_action_runner.Pool.Cleanup.Orphans.{
  Unowned, has_pool_prefix, read_any, or_absent, cleanup_orphan,
}

module _ (h : Host) (s : RecordStore) (view : s.State → Str → Option Record)
    (laws : StoreLaws s view) (c : Settings) (u : Unowned h s) where
  -- A run that did nothing but ask the store for the record of a name, or not even that, and that did
  -- not answer that it cleaned up.
  pub record IsIdle (n : Str) (w : World h s) (x : World h s × Result CleanupError Bool)
      : Type 0 where
    pub world : (x.0 ≡ w) ⊎ (x.0 ≡ (read h s n w).0)
    pub answer : x.1 ≢ ok true

  -- A record, or an error; an answer that there is no record is neither.
  abbrev AnyOr : Record → Result CleanupError (Option Record) → Type 0
  AnyOr r x = (x ≡ ok (some r)) ⊎ ((e : CleanupError) × (x ≡ err e))

  answers :
      (r : Record) (x : Result StoreError Record)
      → ((q : Record) → x ≡ ok q → q ≡ r)
      → x ≢ err StoreError.not_found
      → AnyOr r (or_absent h s c u (lift h s CleanupError.store x))
  answers r (ok q) it n = inl (ap (λ y. ok (some y)) (it q refl))
  answers r (err StoreError.not_found) it n = absurd (n refl)
  answers r (err StoreError.already_exists) it n =
      inr (CleanupError.store StoreError.already_exists, refl)
  answers r (err StoreError.invalid_record) it n =
      inr (CleanupError.store StoreError.invalid_record, refl)
  answers r (err StoreError.invalid_transition) it n =
      inr (CleanupError.store StoreError.invalid_transition, refl)
  answers r (err StoreError.corrupt) it n = inr (CleanupError.store StoreError.corrupt, refl)
  answers r (err (StoreError.io y)) it n = inr (CleanupError.store (StoreError.io y), refl)

  any_live :
      (n : Str) (w : World h s) (r : Record)
      → view w.records n ≡ some r
      → AnyOr r (read_any h s c u n w).1
  unfolding read_any read
  any_live n w r at =
      let io = (h.meet w.outside).1 in
      answers r (s.read io n w.records) (λ q e. ground (arith, at, laws.read_view io n w.records e))
        (λ e. ground (arith, at, laws.read_missing io n w.records e))

  -- If a record that is not tombstoned stands in the store under the name of an inventory item, then
  -- the cleanup of the item as an instance without a record calls nothing but that store's reading,
  -- whatever the reading answers and whatever the name is, and does not answer that it cleaned up.
  pub cleanup_orphan-IsIdle :
      (i : InventoryItem) (w : World h s) (r : Record)
      → view w.records i.instance_of.name ≡ some r
      → (r.phase is Phase.tombstoned) ≡ false
      → IsIdle i.instance_of.name w (cleanup_orphan h s c u i w)
  unfolding cleanup_orphan ◌>>=◌ read_any
  cleanup_orphan-IsIdle i w r at live =
      let n = i.instance_of.name in
      let run = cleanup_orphan h s c u i w in
      elim (Bool-cases (has_pool_prefix n u.name_prefix)) [
        | inr foreign ↦
            let ends : run ≡ (w, ok false) = rw (foreign, cleanup_orphan) refl in
            record { world = inl (ap (λ x. x.0) ends); answer = λ e. ground (arith, e, ends) }
        | inl own ↦ elim (any_live n w r at) [
          | inl found ↦
              let ends : run ≡ ((read h s n w).0, ok false) =
                rw (own, cleanup_orphan) (rw (found, ◌>>=◌) (rw live refl)) in
              record { world = inr (ap (λ x. x.0) ends); answer = λ e. ground (arith, e, ends) }
          | inr (x, failed) ↦
              let ends : run ≡ ((read h s n w).0, err x) =
                rw (own, cleanup_orphan) (rw (failed, ◌>>=◌) refl) in
              record { world = inr (ap (λ x. x.0) ends); answer = λ e. ground (arith, e, ends) }
        ]
      ]
