-- ===== src/Pool/Cleanup/Triple.antt =====
-- What the calls of the cleanup leave of the record of a name, whatever the world outside answers.
use ephemeral_action_runner.Shared.{
  ℕ, ◌<◌, Str, str_eq, str_eq→≡, ◌≡◌, inl, inr, subst, arith, Bool-cases, Option, some, ok,
  Result-cases,
}
use ephemeral_action_runner.PoolState.Types.{Action, Lease, Record, Discovery}
use ephemeral_action_runner.Pool.Cleanup.Records.{IsKept-same}
use ephemeral_action_runner.Pool.Cleanup.Host.{
  RecordStore, StoreLaws, IsMoved, IsLeased, IsKept, Host, Settings, CleanupError, read, transition,
  acquire, release, report, lift-ok,
}
use ephemeral_action_runner.Pool.Cleanup.Driver.{bare, move}
use ephemeral_action_runner.Pool.Cleanup.Rank.{
  rank, SameLife-rank, IsJob, job_keeps, IsForward, forward_falls,
}
pub use ephemeral_action_runner.Pool.Cleanup.Logic.{
  Keeps, Keeps-bind, Keeps-bind_fact, Keeps-if, Keeps-test, Keeps-pure, Keeps-fail, Fails,
  Fails-fail, Fails-bind, Gives, Gives-bind, Gives-if, Gives_of_Keeps, Gives_of_Fails, Gives-pure,
  On,
}

module _ (h : Host) (s : RecordStore) (view : s.State → Str → Option Record)
    (laws : StoreLaws s view) (n : Str) where
  -- The record of the name, if there is one, is nearer to its end than a number says.
  pub record Below (k : ℕ) (d : s.State) : Type 0 where
    pub near : (r : Record) → view d n ≡ some r → rank r < k

  -- This record stands under the name.
  pub record Stands (k : ℕ) (r : Record) (d : s.State) : Type 0 where
    pub here : view d n ≡ some r
    pub named : r.name ≡ n
    pub near : rank r < k

  Below-kept : (k : ℕ) (d d' : s.State) → IsKept (view d n) (view d' n) → Below k d → Below k d'
  Below-kept k d d' m b = record {
    near = λ q at.
        let (r, was, life) = m.back q at in
        let low = b.near r was in let same = SameLife-rank life in omega arith;
  }

  Below-moved :
      (k : ℕ) (d d' : s.State) {a : Action} (now : ℕ)
      → IsJob a
      → IsMoved (bare a) now (view d n) (view d' n)
      → Below k d
      → Below k d'
  Below-moved k d d' now j m b = record {
    near = λ r at.
        let kept = job_keeps j m.from now m.applied in
        let same = SameLife-rank m.same in
        let low = b.near m.from m.was in
        let it : m.next ≡ r = ground (arith, m.is_now) in subst (λ q. rank q < k) it (omega arith);
  }

  Below-leased : (k : ℕ) (d d' : s.State) → IsLeased (view d n) (view d' n) → Below k d → Below k d'
  Below-leased k d d' m b = record {
    near = λ r at.
        let same = SameLife-rank m.same in
        let low = b.near m.from m.was in
        let it : m.next ≡ r = ground (arith, m.is_now) in subst (λ q. rank q < k) it (omega arith);
  }

  pub read_keeps : (P : s.State → Type 0) (m : Str) → Keeps h s (On h s P) (read h s m)
  unfolding read
  read_keeps P m = record { kept = λ w p. p }

  pub read-Stands : (k : ℕ) → Gives h s (On h s (Below k)) (read h s n) (λ r. On h s (Stands k r))
  unfolding read
  read-Stands k = record {
    given = λ w b r e.
        let io = (h.meet w.outside).1 in
        let done : s.read io n w.records ≡ ok r =
          lift-ok h s CleanupError.store (s.read io n w.records) e in
        record {
          here = laws.read_view io n w.records done;
          named = laws.read_name io n w.records done;
          near = b.near r (laws.read_view io n w.records done);
        };
  }

  pub report_keeps : (k : ℕ) (x : Discovery) → Keeps h s (On h s (Below k)) (report h s x)
  unfolding report
  report_keeps k x = record {
    kept = λ w b. Below-kept k w.records _ (laws.report_frame (h.meet w.outside).1 x w.records n) b;
  }

  pub job_keeps-Below :
      (c : Settings) (k : ℕ) (m : Str) {a : Action}
      → IsJob a
      → Keeps h s (On h s (Below k)) (move h s c m a)
  unfolding transition
  job_keeps-Below c k m {a} j = record {
    kept = λ w b.
        let io = (h.meet w.outside).1 in
        let call = s.transition io m (bare a) w.records in
        elim (Bool-cases (str_eq m n)) [
          | inr other ↦
              Below-kept k w.records call.0 (laws.transition_frame io m n (bare a) w.records other)
                b
          | inl own ↦ elim (Result-cases call.1) [
            | inl (r, e) ↦
                let moved = laws.transition_moves io m (bare a) w.records e in
                Below-moved k w.records call.0 io.now j
                  (subst (λ x. IsMoved (bare a) io.now (view w.records x) (view call.0 x))
                    (str_eq→≡ m n own) moved)
                  b
            | inr (x, e) ↦
                Below-kept k w.records call.0
                  (IsKept-same (view w.records n)
                    (laws.transition_refused io m n (bare a) w.records e))
                  b
          ]
        ];
  }

  pub acquire_keeps : (k : ℕ) (m : Str) (l : Lease) → Keeps h s (On h s (Below k)) (acquire h s m l)
  unfolding acquire
  acquire_keeps k m l = record {
    kept = λ w b.
        let io = (h.meet w.outside).1 in
        let call = s.acquire_lease io m l w.records in
        elim (Bool-cases (str_eq m n)) [
          | inr other ↦
              Below-kept k w.records call.0 (laws.acquire_frame io m n l w.records other) b
          | inl own ↦ elim (Result-cases call.1) [
            | inl (r, e) ↦
                Below-leased k w.records call.0
                  (subst (λ x. IsLeased (view w.records x) (view call.0 x)) (str_eq→≡ m n own)
                    (laws.acquire_leases io m l w.records e))
                  b
            | inr (x, e) ↦
                Below-kept k w.records call.0
                  (IsKept-same (view w.records n) (laws.acquire_refused io m n l w.records e)) b
          ]
        ];
  }

  pub release_keeps : (k : ℕ) (m p o : Str) → Keeps h s (On h s (Below k)) (release h s m p o)
  unfolding release
  release_keeps k m p o = record {
    kept = λ w b.
        let io = (h.meet w.outside).1 in
        let call = s.release_lease io m p o w.records in
        elim (Bool-cases (str_eq m n)) [
          | inr other ↦
              Below-kept k w.records call.0 (laws.release_frame io m n p o w.records other) b
          | inl own ↦ elim (Result-cases call.1) [
            | inl (r, e) ↦
                Below-leased k w.records call.0
                  (subst (λ x. IsLeased (view w.records x) (view call.0 x)) (str_eq→≡ m n own)
                    (laws.release_leases io m p o w.records e))
                  b
            | inr (x, e) ↦
                Below-kept k w.records call.0
                  (IsKept-same (view w.records n) (laws.release_refused io m n p o w.records e)) b
          ]
        ];
  }

  -- A transition of the cleanup proper brings the record nearer to its end.
  pub forward_nears :
      (c : Settings) (k : ℕ) (r : Record) {a : Action}
      → IsForward a
      → Gives h s (On h s (Stands k r)) (move h s c n a) (λ q. On h s (Below (rank r)))
  unfolding transition
  forward_nears c k r {a} f = record {
    given = λ w v q e.
        let io = (h.meet w.outside).1 in
        let call = s.transition io n (bare a) w.records in
        let done : call.1 ≡ ok q = lift-ok h s CleanupError.store call.1 e in
        let m = laws.transition_moves io n (bare a) w.records done in
        let it : m.from ≡ r = ground (arith, m.was, v.here) in
        let falls = forward_falls f m.from io.now m.applied in
        let same = SameLife-rank m.same in
        record {
          near = λ x at.
              let is : m.next ≡ x = ground (arith, m.is_now) in
              let less : rank m.next < rank m.from = omega arith in
              subst (λ y. rank x < rank y) it (subst (λ y. rank y < rank m.from) is less);
        };
  }
