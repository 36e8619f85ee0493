-- ===== src/Pool/Cleanup/Swept.antt =====
-- A sweep over the records that reports no error has tombstoned them.
use mathlib.Core.List.{Memᴰ}
use ephemeral_action_runner.Shared.{
  ℕ, ◌<◌, Str, str_eq, Bool, true, false, not, ◌||◌, Option, none, some, List, [], ◌∷◌, Result, ok,
  err, ◌≡◌, refl, sym, subst, arith, Bool-cases, inl, inr, All,
}
use ephemeral_action_runner.PoolState.Types.{Phase, Record, ◌is◌}
use ephemeral_action_runner.Pool.Cleanup.Host.{
  RecordStore, StoreLaws, Host, Settings, InventoryItem, CleanupError, World, ◌>>=◌,
}
use ephemeral_action_runner.Pool.Cleanup.Driver.{LoopError, cleanup_record}
use ephemeral_action_runner.Pool.Cleanup.Logic.{Keeps, Keeps-if, Keeps-bind, Keeps-pure, On}
use ephemeral_action_runner.Pool.Cleanup.Loop.{IsOver, cleanup_record-IsOver}
use ephemeral_action_runner.Pool.Cleanup.Exact.{cleanup_keeps}
use ephemeral_action_runner.Pool.Cleanup.Orphans.{
  Unowned, same_name, after_record, sweep_record, sweep_records,
}
use ephemeral_action_runner.Pool.Cleanup.Buried.{Down, Down-Spares}

module _ (h : Host) (s : RecordStore) (view : s.State → Str → Option Record)
    (laws : StoreLaws s view) (c : Settings) where
  module _ (u : Unowned h s) (fuel : ℕ) (items : List InventoryItem) where
    sweep_record_keeps :
        (n : Str) (r : Record) (first : Option LoopError) (w : World h s)
        → Down h s view laws c n w.records
        → Down h s view laws c n (sweep_record h s c u fuel items r first w).0.records
    unfolding sweep_record
    sweep_record_keeps n r first w p =
        cleanup_keeps h s c r.name (On h s (Down h s view laws c n))
          (Down-Spares h s view laws c n r.name) fuel (same_name h s c u r.name items) false false w
          p

    sweep_records_keep :
        (n : Str) (rs : List Record) (first : Option LoopError)
        → Keeps h s (On h s (Down h s view laws c n)) (sweep_records h s c u fuel items rs first)
    unfolding sweep_records
    sweep_records_keep n [] first = Keeps-pure h s
    sweep_records_keep n (r ∷ rest) first =
        Keeps-if h s (not (str_eq r.provider_type c.provider_type) || r.phase is Phase.tombstoned)
          (sweep_records_keep n rest first)
          (Keeps-bind h s {m = sweep_record h s c u fuel items r first}
            (record { kept = sweep_record_keeps n r first })
            (λ first'. sweep_records_keep n rest first'))

    after_none :
        (first : Option LoopError) (result : Result LoopError (Unit {0}))
        → after_record h s c u first result ≡ none
        → (first ≡ none) × (result ≡ ok tt)
    after_none first (ok t) e = (e, refl)
    after_none none (err x) e = absurd (ground (arith, e))
    after_none (some y) (err x) e = absurd (ground (arith, e))

    over-Down :
        (n : Str) (same : List InventoryItem) (x : World h s × Result LoopError (Unit {0}))
        → IsOver h s view laws n c same false x
        → x.1 ≡ ok tt
        → Down h s view laws c n x.0.records
    over-Down n same x (IsOver.buried b) e = record {
      down = λ r at.
          let it : b.of ≡ r = ground (arith, at, b.here) in
          subst (λ q. q.phase ≡ Phase.tombstoned) it b.ended;
    }
    over-Down n same x (IsOver.failed y) e = absurd (ground (arith, e))

    -- What the sweep leaves of a record that is not passed over.
    abbrev pub IsSwept : s.State → Record → Type 0
    IsSwept d r =
        (not (str_eq r.provider_type c.provider_type) || r.phase is Phase.tombstoned) ≡ false
        → Down h s view laws c r.name d

    abbrev skips : Record → Bool
    skips r = not (str_eq r.provider_type c.provider_type) || r.phase is Phase.tombstoned

    abbrev cleaned : Record → World h s → World h s × Result LoopError (Unit {0})
    cleaned r w = cleanup_record h s c fuel r.name (same_name h s c u r.name items) false false w

    skipped :
        (r : Record) (rest : List Record) (first : Option LoopError) (w : World h s)
        → skips r ≡ true
        → sweep_records h s c u fuel items (r ∷ rest) first w
          ≡ sweep_records h s c u fuel items rest first w
    unfolding sweep_records
    skipped r rest first w e = rw (e, sweep_records) refl

    taken :
        (r : Record) (rest : List Record) (first : Option LoopError) (w : World h s)
        → skips r ≡ false
        → sweep_records h s c u fuel items (r ∷ rest) first w
          ≡ sweep_records h s c u fuel items rest
              (after_record h s c u first (cleaned r w).1)
              (cleaned r w).0
    unfolding sweep_records sweep_record ◌>>=◌
    taken r rest first w e = rw (e, sweep_records) refl

    -- What a sweep over these records came to.
    abbrev Swept :
        List Record → Option LoopError → World h s × Result CleanupError (Option LoopError) → Type 0
    Swept rs first x = x.1 ≡ ok none → (first ≡ none) × All (IsSwept x.0.records) rs

    sweep_ends :
        (rs : List Record) (first : Option LoopError) (w : World h s)
        → 10 < fuel
        → Swept rs first (sweep_records h s c u fuel items rs first w)
    unfolding sweep_records
    sweep_ends [] first w enough = λ e. (ground (arith, e), tt)
    sweep_ends (r ∷ rest) first w enough = elim (Bool-cases (skips r)) [
      | inl skip ↦ subst (Swept (r ∷ rest) first) (sym (skipped r rest first w skip)) (λ e.
          let (none_yet, all) = sweep_ends rest first w enough e in
          (none_yet, ((λ t. absurd (ground (arith, t, skip))), all)))
      | inr take ↦ subst (Swept (r ∷ rest) first) (sym (taken r rest first w take)) (λ e.
          let now = cleaned r w in
          let first' = after_record h s c u first now.1 in
          let (none_yet, all) = sweep_ends rest first' now.0 enough e in
          let (none_before, through) = after_none first now.1 none_yet in
          let over =
            cleanup_record-IsOver h s view laws r.name c (same_name h s c u r.name items) false fuel
              false w enough in
          let down = over-Down r.name (same_name h s c u r.name items) now over through in
          (none_before, ((λ t. (sweep_records_keep r.name rest first').kept now.0 down), all)))
    ]

    among : (P : Record → Type 0) (r : Record) (rs : List Record) → Memᴰ r rs → All P rs → P r
    among P r [] m all = elim m [ ]
    among P r (x ∷ rest) (Memᴰ.head e) (p, all) = subst P (sym e) p
    among P r (x ∷ rest) (Memᴰ.tail m) (p, all) = among P r rest m all

    -- When a sweep over records, with fuel for more than ten rounds of each cleanup, comes back
    -- without an error, then every record of the list, save those of another provider and those
    -- that were tombstoned before, is tombstoned in the store, if a record of its name stands there.
    pub sweep_records-buries :
        (rs : List Record) (w : World h s) (r q : Record)
        → 10 < fuel
        → (sweep_records h s c u fuel items rs none w).1 ≡ ok none
        → Memᴰ r rs
        → (not (str_eq r.provider_type c.provider_type) || r.phase is Phase.tombstoned) ≡ false
        → view (sweep_records h s c u fuel items rs none w).0.records r.name ≡ some q
        → q.phase ≡ Phase.tombstoned
    sweep_records-buries rs w r q enough e mem mine at =
        (among (IsSwept _) r rs mem (sweep_ends rs none w enough e).1 mine).down q at
