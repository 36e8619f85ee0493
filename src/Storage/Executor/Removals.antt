-- ===== src/Storage/Executor/Removals.antt =====
-- internal/storage/executor.go: which calls an execution makes, in which order, and what stood before
-- each removal.
use ephemeral_action_runner.Shared.{
  Str, ◌≢◌, subst, true, ◌≡◌, ◌⊎◌, inl, inr, refl, ap, arith, Option, none, List, [], ◌∷◌, ◌++◌,
  Bool-cases, Result, ok, err, Result-cases,
}
use ephemeral_action_runner.Storage.Types.{Decision}
use ephemeral_action_runner.Storage.Executor.{
  Observation, Removal, ExactExecutor, ExecutionReport, ExecutionError, Plan, Outcome, target_eq,
  validate_exact_target, removal_of, is_remove, verify_absence, remove_observed, attempt,
  count_removed, run, empty_report, execute, validate_plan_hash,
}
use ephemeral_action_runner.Storage.Executor.Journal.{planned, outcome_cases}

module _ (x : ExactExecutor) where
  -- The calls of the executor between two worlds, with the removals asked for, in order. A removal is
  -- asked for right after an observation of its own target, which is exact, found it there unchanged.
  pub data Calls (w' : x.World) : x.World → List Removal → Type 0 where
    done : Calls w' w' []
    observed :
        (w : x.World) (r : Removal) {rs : List Removal}
        → Calls w' (x.observe_exact w r.target).0 rs
        → Calls w' w rs
    asked :
        (w : x.World) (r : Removal) (o : Observation) {rs : List Removal}
        → validate_exact_target r.target ≡ true
        → (x.observe_exact w r.target).1 ≡ ok o
        → o.exists ≡ true
        → target_eq o.target r.target ≡ true
        → Calls w' (x.remove_exact (x.observe_exact w r.target).0 r).0 rs
        → Calls w' w (r ∷ rs)

  -- What an attempt is: it stops before the removal, or all the conditions of the removal hold.
  data Attempt (w : x.World) (r : Removal) : Type 0 where
    early :
        ((attempt x w r).0 ≡ w) ⊎ ((attempt x w r).0 ≡ (x.observe_exact w r.target).0)
        → (attempt x w r).1 ≢ Outcome.gone
        → Attempt w r
    full :
        (o : Observation)
        → validate_exact_target r.target ≡ true
        → (x.observe_exact w r.target).1 ≡ ok o
        → o.exists ≡ true
        → target_eq o.target r.target ≡ true
        → attempt x w r ≡ remove_observed x (x.observe_exact w r.target).0 r
        → Attempt w r

  attempt_cases : (w : x.World) (r : Removal) → Attempt w r
  unfolding attempt
  attempt_cases w r = elim (Bool-cases (validate_exact_target r.target)) [
    | inr n ↦ early (inl (rw n refl)) (λ g. ground arith)
    | inl y ↦ elim (Result-cases (x.observe_exact w r.target).1) [
      | inr (e, q) ↦ early (inr (rw (y, q) refl)) (λ g. ground arith)
      | inl (o, q) ↦ elim (Bool-cases o.exists) [
        | inr b ↦ early (inr (rw (y, q, b) refl)) (λ g. ground arith)
        | inl b ↦ elim (Bool-cases (target_eq o.target r.target)) [
          | inr t ↦ early (inr (rw (y, q, b, t) refl)) (λ g. ground arith)
          | inl t ↦ full o y q b t (rw (y, q, b, t) refl)
        ]
      ]
    ]
  ]

  after_removal :
      (w w' : x.World) (r : Removal) {rs : List Removal}
      → Calls w' (remove_observed x w r).0 rs
      → Calls w' (x.remove_exact w r).0 rs
  unfolding remove_observed verify_absence
  after_removal w w' r {rs} c = elim (Result-cases (x.remove_exact w r).1) [
    | inr (e, q) ↦ subst (λ v. Calls w' v rs) (same e q) c
    | inl (u, q) ↦ observed (x.remove_exact w r).0 r (subst (λ v. Calls w' v rs) (seen u q) c)
  ]
    where
      same :
          (e : Str)
          → (x.remove_exact w r).1 ≡ err e
          → (remove_observed x w r).0 ≡ (x.remove_exact w r).0
      same e q = rw (remove_observed, q) refl

      seen :
          (u : Unit {0})
          → (x.remove_exact w r).1 ≡ ok u
          → (remove_observed x w r).0 ≡ (x.observe_exact (x.remove_exact w r).0 r.target).0
      seen u q = rw (remove_observed, q) refl

  -- The calls of an attempt, with the removal among them or not, before any others.
  attempt-Calls :
      (w : x.World) (r : Removal)
      → (made : List Removal) × (((made ≡ []) × ((attempt x w r).1 ≢ Outcome.gone))
          ⊎ (made ≡ r ∷ []))
        × ((w' : x.World) (rs : List Removal)
            → Calls w' (attempt x w r).0 rs
            → Calls w' w (made ++ rs))
  attempt-Calls w r = elim (attempt_cases w r) [
    | early (inl q) n ↦ ([], inl (refl, n), λ w' rs c. subst (λ v. Calls w' v rs) q c)
    | early (inr q) n ↦
        ([], inl (refl, n), λ w' rs c. observed w r (subst (λ v. Calls w' v rs) q c))
    | full o y q b t e ↦ (
      r ∷ [],
      inr refl,
      λ w' rs c.
          asked w r o y q b t
            (after_removal (x.observe_exact w r.target).0 w' r (subst (λ p. Calls w' p.0 rs) e c)),
    )
  ]

  -- The removals asked for are the first of the planned ones, and all of them if there is no error.
  pub record IsExecuted (w : x.World) (plan : List Removal) (w' : x.World)
      (e : Option ExecutionError) : Type 0 where
    pub made : List Removal
    pub rest : List Removal
    pub split : plan ≡ made ++ rest
    pub calls : Calls w' w made
    pub whole : e ≡ none → rest ≡ []

  run-IsExecuted :
      (w : x.World) (report : ExecutionReport) (ds : List Decision)
      → IsExecuted w (planned ds) (run x w report ds).0 (run x w report ds).1.1
  unfolding run planned
  run-IsExecuted w report [] = record {
    made = [];
    rest = [];
    split = refl;
    calls = done;
    whole = λ n. refl;
  }
  run-IsExecuted w report (d ∷ ds) = elim (Bool-cases (is_remove d.action)) [
    | inr n ↦ rw (n, run, planned) (run-IsExecuted w report ds)
    | inl y ↦
        let r = removal_of d in
        let (made, which, extend) = attempt-Calls w r in
        elim (outcome_cases (attempt x w r).1) [
          | inl g ↦
              let next = run-IsExecuted (attempt x w r).0 (count_removed r report) ds in
              let all : made ≡ r ∷ [] = elim which [ inl (q, n) ↦ absurd (n g) | inr q ↦ q ] in
              rw (y, run, planned, g)
                (record {
                  made = made ++ next.made;
                  rest = next.rest;
                  split = rw all (ap (λ rs. r ∷ rs) next.split);
                  calls = extend _ next.made next.calls;
                  whole = next.whole;
                })
          | inr (entry, (e, g)) ↦
              rw (y, run, planned, g)
                (elim which [
                  | inl (q, n) ↦ record {
                    made = made ++ [];
                    rest = r ∷ planned ds;
                    split = rw q refl;
                    calls = extend _ [] done;
                    whole = λ k. absurd (ground arith);
                  }
                  | inr q ↦ record {
                    made = made ++ [];
                    rest = planned ds;
                    split = rw q refl;
                    calls = extend _ [] done;
                    whole = λ k. absurd (ground arith);
                  }
                ])
        ]
  ]

-- An execution of an approved plan asks for the planned removals only, in their order, each right after
-- an observation that found its exact target there and unchanged; with no error it asks for all.
pub execute-IsExecuted :
    (compute_plan_hash : Plan → Result Str Str) (x : ExactExecutor) (w : x.World) (plan : Plan)
    (approved : Str)
    → validate_plan_hash compute_plan_hash plan approved ≡ ok tt
    → IsExecuted x w
        (planned plan.decisions)
        (execute compute_plan_hash x w plan approved).0
        (execute compute_plan_hash x w plan approved).1.1
unfolding execute
execute-IsExecuted compute_plan_hash x w plan approved h =
    rw (execute, h) (run-IsExecuted x w (empty_report plan.hash) plan.decisions)
