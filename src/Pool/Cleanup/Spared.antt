-- ===== src/Pool/Cleanup/Spared.antt =====
-- The cleanup of a record deletes the runner and the instance that the record names, and no other.
use mathlib.Core.Path.{subst₂}
use ephemeral_action_runner.Shared.{
  ℕ, ℤ, Str, str_eq, str_eq→≡, Bool, true, false, ◌≡◌, refl, sym, ap, ◌∙◌, subst, arith, Option,
  some, ok, err, List, Result, Result-cases, Bool-cases, inl, inr,
}
use ephemeral_action_runner.PoolState.Types.{Action, Lease, Record, Transition, Discovery}
use ephemeral_action_runner.Pool.Cleanup.Records.{IsKept-same}
use ephemeral_action_runner.Pool.Cleanup.Host.{
  RecordStore, StoreLaws, IsMoved, IsLeased, IsKept, SameLife, Host, Settings, Instance,
  InventoryItem, World, read, report, transition, acquire, release, lift-ok, current_time,
  runner_by_name, delete_runner, inventory, stop_instance, delete_instance, finalize_absent,
  CleanupError,
}
use ephemeral_action_runner.Pool.Cleanup.Driver.{same_id, cleanup_record}
use ephemeral_action_runner.Pool.Cleanup.Triple.{Keeps}
use ephemeral_action_runner.Pool.Cleanup.Rank.{IsJob}
use ephemeral_action_runner.Pool.Cleanup.Identity.{is_inner, SameIdentity, inner_keeps}
use ephemeral_action_runner.Pool.Cleanup.Observe.{Observes}
use ephemeral_action_runner.Pool.Cleanup.Tolerance.{Tolerates}
use ephemeral_action_runner.Pool.Cleanup.Exact.{Spares, cleanup_keeps}

-- A property of the world outside, such as that some other runner exists, that no call changes but a
-- delete of another runner or a stop or a delete of another instance.
pub record IsElsewhere (h : Host) (Inv : h.Outside → Type 0) (provider_id : Str) (runner_id : ℤ)
    : Type 0 where
  pub meets : (o : h.Outside) → Inv o → Inv (h.meet o).0
  pub clock : (o : h.Outside) → Inv o → Inv (h.now o).0
  pub asks : (o : h.Outside) (m : Str) → Inv o → Inv (h.runner_by_name o m).0
  pub lists : (o : h.Outside) → Inv o → Inv (h.inventory o).0
  pub deletes_runner :
      (o : h.Outside) (id : ℤ) → same_id id runner_id ≡ true → Inv o → Inv (h.delete_runner o id).0
  pub stops :
      (o : h.Outside) (x : Instance)
      → str_eq x.provider_id provider_id ≡ true
      → Inv o
      → Inv (h.stop_instance o x).0
  pub deletes :
      (o : h.Outside) (x : Instance)
      → str_eq x.provider_id provider_id ≡ true
      → Inv o
      → Inv (h.delete_instance o x).0
  pub finalizes :
      (o : h.Outside) (x : Instance)
      → str_eq x.provider_id provider_id ≡ true
      → Inv o
      → Inv (h.finalize_absent o x).0

module _ (h : Host) (s : RecordStore) (view : s.State → Str → Option Record)
    (laws : StoreLaws s view) (c : Settings) (n : Str) (Inv : h.Outside → Type 0)
    (provider_id : Str) (runner_id : ℤ) (away : IsElsewhere h Inv provider_id runner_id) where
  -- The record of the name, if there is one, has these identities.
  pub record Owns (d : s.State) : Type 0 where
    pub own :
        (r : Record)
        → view d n ≡ some r
        → (r.provider_id ≡ provider_id) × (r.git_hub.runner_id ≡ runner_id)

  record Safe (w : World h s) : Type 0 where
    spared : Inv w.outside
    owns : Owns w.records

  Owns-next :
      (d : s.State) {r : Record} (q : Record)
      → view d n ≡ some r
      → SameIdentity r q
      → Owns d
      → (q.provider_id ≡ provider_id) × (q.git_hub.runner_id ≡ runner_id)
  Owns-next d q at i o =
      let (p, g) = o.own _ at in (i.provider ∙ p, ap (λ x. x.runner_id) i.runner ∙ g)

  of_life : {r q : Record} → SameLife r q → SameIdentity r q
  of_life l = record { provider = l.provider; runner = l.runner }

  Owns-kept : (d d' : s.State) → IsKept (view d n) (view d' n) → Owns d → Owns d'
  Owns-kept d d' m o = record {
    own = λ q at. let (r, was, life) = m.back q at in Owns-next d q was (of_life life) o;
  }

  Owns-some :
      (d' : s.State) (next : Record)
      → view d' n ≡ some next
      → (next.provider_id ≡ provider_id) × (next.git_hub.runner_id ≡ runner_id)
      → Owns d'
  Owns-some d' next is_now o = record {
    own = λ q at.
        let it : next ≡ q = ground (arith, at, is_now) in
        subst (λ x. (x.provider_id ≡ provider_id) × (x.git_hub.runner_id ≡ runner_id)) it o;
  }

  Owns-leased : (d d' : s.State) → IsLeased (view d n) (view d' n) → Owns d → Owns d'
  Owns-leased d d' m o = Owns-some d' m.next m.is_now (Owns-next d m.next m.was (of_life m.same) o)

  Owns-moved :
      (d d' : s.State) (t : Transition) (now : ℕ)
      → is_inner t.action ≡ true
      → IsMoved t now (view d n) (view d' n)
      → Owns d
      → Owns d'
  Owns-moved d d' t now i m o =
      let inner = inner_keeps t.action m.from t now i m.applied in
      let life = of_life m.same in
      Owns-some d' m.next m.is_now (
        Owns-next d m.next m.was
          (record {
            provider = life.provider ∙ inner.provider;
            runner = life.runner ∙ inner.runner;
          })
          o)

  moves :
      (m : Str) (t : Transition) → is_inner t.action ≡ true → Keeps h s Safe (transition h s m t)
  unfolding transition
  moves m t i = record {
    kept = λ w p.
        let io = (h.meet w.outside).1 in
        let call = s.transition io m t w.records in
        record {
          spared = away.meets w.outside p.spared;
          owns = elim (Bool-cases (str_eq m n)) [
            | inr other ↦
                Owns-kept w.records call.0 (laws.transition_frame io m n t w.records other) p.owns
            | inl mine ↦ elim (Result-cases call.1) [
              | inl (r, e) ↦
                  Owns-moved w.records call.0 t io.now i
                    (subst (λ x. IsMoved t io.now (view w.records x) (view call.0 x))
                      (str_eq→≡ m n mine) (laws.transition_moves io m t w.records e))
                    p.owns
              | inr (x, e) ↦
                  Owns-kept w.records call.0
                    (IsKept-same (view w.records n) (laws.transition_refused io m n t w.records e))
                    p.owns
            ]
          ];
        };
  }

  -- A call that changes the leases only.
  leases :
      (d d' : s.State) (m : Str) {E : Type 0} (answer : Result E Record)
      → ((r : Record) → answer ≡ ok r → IsLeased (view d m) (view d' m))
      → (str_eq m n ≡ false → IsKept (view d n) (view d' n))
      → ((x : E) → answer ≡ err x → view d' n ≡ view d n)
      → Owns d
      → Owns d'
  leases d d' m answer leased other refused o = elim (Bool-cases (str_eq m n)) [
    | inr far ↦ Owns-kept d d' (other far) o
    | inl mine ↦ elim (Result-cases answer) [
      | inl (r, e) ↦
          Owns-leased d d'
            (subst (λ x. IsLeased (view d x) (view d' x)) (str_eq→≡ m n mine) (leased r e)) o
      | inr (x, e) ↦ Owns-kept d d' (IsKept-same (view d n) (refused x e)) o
    ]
  ]

  acquires : (m : Str) (l : Lease) → Keeps h s Safe (acquire h s m l)
  unfolding acquire
  acquires m l = record {
    kept = λ w p.
        let io = (h.meet w.outside).1 in
        let call = s.acquire_lease io m l w.records in
        record {
          spared = away.meets w.outside p.spared;
          owns =
              leases w.records call.0 m call.1 (λ r e. laws.acquire_leases io m l w.records e)
                (λ far. laws.acquire_frame io m n l w.records far)
                (λ x e. laws.acquire_refused io m n l w.records e) p.owns;
        };
  }

  releases : (m p o : Str) → Keeps h s Safe (release h s m p o)
  unfolding release
  releases m p o = record {
    kept = λ w q.
        let io = (h.meet w.outside).1 in
        let call = s.release_lease io m p o w.records in
        record {
          spared = away.meets w.outside q.spared;
          owns =
              leases w.records call.0 m call.1 (λ r e. laws.release_leases io m p o w.records e)
                (λ far. laws.release_frame io m n p o w.records far)
                (λ x e. laws.release_refused io m n p o w.records e) q.owns;
        };
  }

  reports : (x : Discovery) → Keeps h s Safe (report h s x)
  unfolding report
  reports x = record {
    kept = λ w p. record {
      spared = away.meets w.outside p.spared;
      owns = Owns-kept w.records _ (laws.report_frame (h.meet w.outside).1 x w.records n) p.owns;
    };
  }

  job_inner : {a : Action} → IsJob a → is_inner a ≡ true
  job_inner IsJob.started = refl
  job_inner IsJob.ended = refl

  Safe-Observes : Observes h s c Safe
  unfolding read current_time runner_by_name
  Safe-Observes = record {
    reads = λ m. record {
      kept = λ w p. record { spared = away.meets w.outside p.spared; owns = p.owns };
    };
    clock = record {
      kept = λ w p. record { spared = away.clock w.outside p.spared; owns = p.owns };
    };
    asks = λ m. record {
      kept = λ w p. record { spared = away.asks w.outside m p.spared; owns = p.owns };
    };
    job = λ m j. moves m _ (job_inner j);
    acquires = acquires;
    releases = releases;
  }

  Safe-Tolerates : Tolerates h s Safe provider_id runner_id
  unfolding current_time runner_by_name inventory delete_runner stop_instance delete_instance
      finalize_absent
  Safe-Tolerates = record {
    clock = Safe-Observes.clock;
    asks = Safe-Observes.asks;
    lists = record {
      kept = λ w p. record { spared = away.lists w.outside p.spared; owns = p.owns };
    };
    deletes_runner = λ id e. record {
      kept = λ w p. record { spared = away.deletes_runner w.outside id e p.spared; owns = p.owns };
    };
    stops = λ x e. record {
      kept = λ w p. record { spared = away.stops w.outside x e p.spared; owns = p.owns };
    };
    deletes = λ x e. record {
      kept = λ w p. record { spared = away.deletes w.outside x e p.spared; owns = p.owns };
    };
    finalizes = λ x e. record {
      kept = λ w p. record { spared = away.finalizes w.outside x e p.spared; owns = p.owns };
    };
  }

  read_owns :
      (w : World h s)
      → Safe w
      → (r : Record) → (read h s n w).1 ≡ ok r
      → Tolerates h s Safe r.provider_id r.git_hub.runner_id
  unfolding read
  read_owns w p r e =
      let io = (h.meet w.outside).1 in
      let done = lift-ok h s CleanupError.store (s.read io n w.records) e in
      let (at, id) = p.owns.own r (laws.read_view io n w.records done) in
      subst₂ (λ x y. Tolerates h s Safe x y) (sym at) (sym id) Safe-Tolerates

  Safe-Spares : Spares h s c n Safe
  Safe-Spares = record {
    observes = Safe-Observes;
    moves = moves;
    reports = reports;
    tolerates = read_owns;
  }

  -- A property of the world outside that survives every call but a delete of a runner other than
  -- the recorded one and a stop, a delete or a finalization of an instance other than the recorded
  -- one survives the cleanup of the record, whatever GitHub and the provider answer and however it
  -- ends.
  pub cleanup_record-spares :
      (fuel : ℕ) (items : List InventoryItem) (allow known : Bool) (w : World h s)
      → Owns w.records
      → Inv w.outside
      → Inv (cleanup_record h s c fuel n items allow known w).0.outside
  cleanup_record-spares fuel items allow known w owns spared =
      (cleanup_keeps h s c n Safe Safe-Spares fuel items allow known w
        (record { spared = spared; owns = owns })).spared
