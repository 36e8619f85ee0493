-- ===== src/Pool/Cleanup/Loop.antt =====
-- The loop of the cleanup: a round leaves the record nearer to its end, or the cleanup is over.
use ephemeral_action_runner.Shared.{
  ℕ, zero, suc, ◌<◌, ◌≤◌, Str, Bool, true, false, ◌≡◌, inl, inr, refl, arith, Option, none, some,
  ok, err, List, Result, Result-cases,
}
use ephemeral_action_runner.PoolState.Types.{Lease, Record}
use ephemeral_action_runner.Pool.Cleanup.Host.{
  RecordStore, StoreLaws, Host, Settings, InventoryItem, World, ◌>>=◌, read, CleanupError,
}
use ephemeral_action_runner.Pool.Cleanup.Driver.{
  Next, LoopError, go_on, act_unleased, active_lifecycle_lease, unless_leased, round,
  cleanup_record,
}
use ephemeral_action_runner.Pool.Cleanup.Rank.{rank, rank_bound}
use ephemeral_action_runner.Pool.Cleanup.Triple.{
  On, Gives, Gives-bind, Gives-if, Gives-pure, Gives_of_Keeps, Gives_of_Fails, Fails-fail, Below,
  Stands, read_keeps, read-Stands,
}
use ephemeral_action_runner.Pool.Cleanup.Observe.{reconcile_keeps, Near-Observes}
use ephemeral_action_runner.Pool.Cleanup.Tolerance.{On-Tolerates}
use ephemeral_action_runner.Pool.Cleanup.Ends.{Buried, Left, act_ends}

module _ (h : Host) (s : RecordStore) (view : s.State → Str → Option Record)
    (laws : StoreLaws s view) (n : Str) (c : Settings) (items : List InventoryItem)
    (allow : Bool) where
  abbrev Leaves : ℕ → Bool → Next → World h s → Type 0
  Leaves k known x w = Left h s view laws n k known x w.records

  unleased_ends :
      (k : ℕ) (known : Bool) (r : Record)
      → rank r < k
      → (l : Option Lease)
      → Gives h s
          (On h s (Stands h s view laws n k r))
          (act_unleased h s c r items known allow l)
          (Leaves k known)
  unleased_ends k known r low (some l) = Gives_of_Fails h s (Fails-fail h s)
  unleased_ends k known r low none =
      act_ends h s view laws n c k known r low r.phase refl items allow

  checked_ends :
      (k : ℕ) (known : Bool) (r : Record)
      → Gives h s
          (On h s (Stands h s view laws n k r))
          (unless_leased h s c items known allow r)
          (Leaves k known)
  unfolding unless_leased
  checked_ends k known r = record {
    given = λ w v.
        (Gives-bind h s
            (Gives_of_Keeps h s
              (On-Tolerates h s (Stands h s view laws n k r) r.provider_id
                r.git_hub.runner_id).clock)
            (λ now. unleased_ends k known r v.near (active_lifecycle_lease r.leases now))).given
          w v;
  }

  read_ends :
      (k : ℕ) (known : Bool)
      → Gives h s
          (On h s (Below h s view laws n k))
          (read h s n >>= unless_leased h s c items known allow)
          (Leaves k known)
  read_ends k known = Gives-bind h s (read-Stands h s view laws n k) (checked_ends k known)

  round_ends :
      (k : ℕ) (known : Bool)
      → Gives h s
          (On h s (Below h s view laws n k))
          (round h s c n items allow known)
          (Leaves k known)
  unfolding round
  round_ends k true = read_ends k true
  round_ends k false = Gives-bind h s (Gives_of_Keeps h s (read_keeps h s view laws n _ n)) (λ r.
      Gives-bind h s
        (Gives_of_Keeps h s (reconcile_keeps h s c _ (Near-Observes h s view laws n c k) r))
        (λ absent.
          Gives-if h s absent (Gives-pure h s (λ d b. Left.noted refl b)) (read_ends k false)))

  -- The rounds that are left at most.
  abbrev rounds : ℕ → Bool → ℕ
  rounds k true = k
  rounds k false = suc k

  -- How the cleanup comes back.
  pub data IsOver : World h s × Result LoopError (Unit {0}) → Type 0 where
    buried : {w : World h s} → Buried h s view laws n w.records → IsOver (w, ok tt)
    failed : {w : World h s} (e : CleanupError) → IsOver (w, err (LoopError.failed e))

  rounds_fall : (j k : ℕ) (known : Bool) → j < k → rounds j known < rounds k known
  rounds_fall j k true l = l
  rounds_fall j k false l = omega arith

  noted_falls : (k : ℕ) (known : Bool) → known ≡ false → rounds k true < rounds k known
  noted_falls k true e = absurd (ground (arith, e))
  noted_falls k false e = omega arith

  first_rounds : (known : Bool) → rounds 9 known ≤ 10
  first_rounds true = omega arith
  first_rounds false = omega arith

  -- The loop is over whatever it goes on with, if it is for fewer rounds.
  go_on_ends :
      (k : ℕ) (known : Bool) (rest : Bool → World h s → World h s × Result LoopError (Unit {0}))
      → ((j : ℕ) (known' : Bool)
          → rounds j known' < rounds k known
          → (w : World h s) → Below h s view laws n j w.records
          → IsOver (rest known' w))
      → (x : Next) (w : World h s) → Left h s view laws n k known x w.records
      → IsOver (go_on h s c rest x w)
  go_on_ends k known rest ends (Next.again known') w (Left.forward j l b) =
      ends j known (rounds_fall j k known l) w b
  go_on_ends k known rest ends (Next.again known') w (Left.noted e b) =
      ends k true (noted_falls k known e) w b
  go_on_ends k known rest ends Next.finished w (Left.done b) = IsOver.buried b

  cleanup_ends :
      (fuel k : ℕ) (known : Bool)
      → rounds k known < fuel
      → (w : World h s) → Below h s view laws n k w.records
      → IsOver (cleanup_record h s c fuel n items allow known w)
  unfolding cleanup_record
  cleanup_ends zero k known enough w b = absurd (omega arith)
  cleanup_ends (suc fuel) k known enough w b =
      let now = round h s c n items allow known w in
      elim (Result-cases now.1) [
        | inr (e, i) ↦ rw (i, cleanup_record) (IsOver.failed e)
        | inl (x, i) ↦
            rw (i, cleanup_record)
              (go_on_ends k known (cleanup_record h s c fuel n items allow)
                (λ j known' l w' b'. cleanup_ends fuel j known' (omega arith) w' b') x now.0
                ((round_ends k known).given w b x i))
      ]

  -- The cleanup of a record, with fuel for more than ten rounds, comes back: with an error of the code,
  -- or with the record of the name tombstoned.
  pub cleanup_record-IsOver :
      (fuel : ℕ) (known : Bool) (w : World h s)
      → 10 < fuel
      → IsOver (cleanup_record h s c fuel n items allow known w)
  cleanup_record-IsOver fuel known w enough =
      cleanup_ends fuel 9 known (omega (arith, first_rounds known)) w
        (record { near = λ r at. omega (arith, rank_bound r.phase r.recovery_inventory_uncertain) })
