-- ===== src/Pool/Cleanup/Buried.antt =====
-- No call of the cleanup brings a tombstoned record back.
use ephemeral_action_runner.Shared.{
  ℕ, Str, str_eq, str_eq→≡, Option, some, ◌≡◌, ◌∙◌, subst, arith, Result-cases, Bool-cases, inl,
  inr,
}
use ephemeral_action_runner.PoolState.Types.{Phase, Lease, Record, Transition, Discovery}
use ephemeral_action_runner.PoolState.Transition.Phases.{tombstoned_absorbs}
use ephemeral_action_runner.Pool.Cleanup.Records.{IsKept-same}
use ephemeral_action_runner.Pool.Cleanup.Host.{
  RecordStore, StoreLaws, IsMoved, IsLeased, IsKept, Host, Settings, read, report, transition,
  acquire, release, current_time, runner_by_name,
}
use ephemeral_action_runner.Pool.Cleanup.Logic.{Keeps, On}
use ephemeral_action_runner.Pool.Cleanup.Tolerance.{On-Tolerates}
use ephemeral_action_runner.Pool.Cleanup.Exact.{Spares}

module _ (h : Host) (s : RecordStore) (view : s.State → Str → Option Record)
    (laws : StoreLaws s view) (c : Settings) where
  -- The record of a name, if there is one, is tombstoned.
  pub record Down (n : Str) (d : s.State) : Type 0 where
    pub down : (r : Record) → view d n ≡ some r → r.phase ≡ Phase.tombstoned

  module _ (n : Str) where
    Down-kept : (d d' : s.State) → IsKept (view d n) (view d' n) → Down n d → Down n d'
    Down-kept d d' k p = record {
      down = λ q at. let (r, was, life) = k.back q at in life.phase ∙ p.down r was;
    }

    Down-leased : (d d' : s.State) → IsLeased (view d n) (view d' n) → Down n d → Down n d'
    Down-leased d d' m p = record {
      down = λ q at.
          let it : m.next ≡ q = ground (arith, at, m.is_now) in
          subst (λ x. x.phase ≡ Phase.tombstoned) it (m.same.phase ∙ p.down m.from m.was);
    }

    Down-moved :
        (d d' : s.State) (t : Transition) (now : ℕ)
        → IsMoved t now (view d n) (view d' n)
        → Down n d
        → Down n d'
    Down-moved d d' t now m p =
        absurd (ground (arith, m.applied, tombstoned_absorbs m.from t now (p.down m.from m.was)))

    moves-Down : (m : Str) (t : Transition) → Keeps h s (On h s (Down n)) (transition h s m t)
    unfolding transition
    moves-Down m t = record {
      kept = λ w p.
          let io = (h.meet w.outside).1 in
          let call = s.transition io m t w.records in
          elim (Bool-cases (str_eq m n)) [
            | inr far ↦ Down-kept w.records call.0 (laws.transition_frame io m n t w.records far) p
            | inl mine ↦ elim (Result-cases call.1) [
              | inl (r, e) ↦
                  Down-moved w.records call.0 t io.now
                    (subst (λ x. IsMoved t io.now (view w.records x) (view call.0 x))
                      (str_eq→≡ m n mine) (laws.transition_moves io m t w.records e))
                    p
              | inr (x, e) ↦
                  Down-kept w.records call.0
                    (IsKept-same (view w.records n) (laws.transition_refused io m n t w.records e))
                    p
            ]
          ];
    }

    acquires-Down : (m : Str) (l : Lease) → Keeps h s (On h s (Down n)) (acquire h s m l)
    unfolding acquire
    acquires-Down m l = record {
      kept = λ w p.
          let io = (h.meet w.outside).1 in
          let call = s.acquire_lease io m l w.records in
          elim (Bool-cases (str_eq m n)) [
            | inr far ↦ Down-kept w.records call.0 (laws.acquire_frame io m n l w.records far) p
            | inl mine ↦ elim (Result-cases call.1) [
              | inl (r, e) ↦
                  Down-leased w.records call.0
                    (subst (λ x. IsLeased (view w.records x) (view call.0 x)) (str_eq→≡ m n mine)
                      (laws.acquire_leases io m l w.records e))
                    p
              | inr (x, e) ↦
                  Down-kept w.records call.0
                    (IsKept-same (view w.records n) (laws.acquire_refused io m n l w.records e)) p
            ]
          ];
    }

    releases-Down : (m p o : Str) → Keeps h s (On h s (Down n)) (release h s m p o)
    unfolding release
    releases-Down m p o = record {
      kept = λ w q.
          let io = (h.meet w.outside).1 in
          let call = s.release_lease io m p o w.records in
          elim (Bool-cases (str_eq m n)) [
            | inr far ↦ Down-kept w.records call.0 (laws.release_frame io m n p o w.records far) q
            | inl mine ↦ elim (Result-cases call.1) [
              | inl (r, e) ↦
                  Down-leased w.records call.0
                    (subst (λ x. IsLeased (view w.records x) (view call.0 x)) (str_eq→≡ m n mine)
                      (laws.release_leases io m p o w.records e))
                    q
              | inr (x, e) ↦
                  Down-kept w.records call.0
                    (IsKept-same (view w.records n) (laws.release_refused io m n p o w.records e)) q
            ]
          ];
    }

    reports-Down : (x : Discovery) → Keeps h s (On h s (Down n)) (report h s x)
    unfolding report
    reports-Down x = record {
      kept = λ w p. Down-kept w.records _ (laws.report_frame (h.meet w.outside).1 x w.records n) p;
    }

    -- No call of the cleanup of any record brings a tombstoned record back.
    pub Down-Spares : (m : Str) → Spares h s c m (On h s (Down n))
    unfolding read current_time runner_by_name
    Down-Spares m = record {
      observes = record {
        reads = λ m'. record { kept = λ w p. p };
        clock = record { kept = λ w p. p };
        asks = λ m'. record { kept = λ w p. p };
        job = λ m' j. moves-Down m' _;
        acquires = acquires-Down;
        releases = releases-Down;
      };
      moves = λ m' t i. moves-Down m' t;
      reports = reports-Down;
      tolerates = λ w p r e. On-Tolerates h s (Down n) r.provider_id r.git_hub.runner_id;
    }
