-- ===== src/Storage/Executor/Journal.antt =====
-- internal/storage/executor.go: what the journal of an execution holds.
use ephemeral_action_runner.Shared.{
  ℕ, ◌+◌, u64, length, Str, true, false, ◌≡◌, ◌≢◌, ◌⊎◌, inl, inr, refl, sym, ap, ◌∙◌, arith, Option,
  none, some, List, [], ◌∷◌, ◌++◌, map, Result, ok, Result-cases, str_eq→≡,
}
use ephemeral_action_runner.Storage.Types.{Decision}
use ephemeral_action_runner.Storage.Executor.{
  Removal, ExactExecutor, ExecutionStatus, ExecutionEntry, ExecutionReport, ExecutionError, Plan,
  Outcome, removal_of, is_remove, removed_entry, empty_report, execute, validate_plan_hash,
}

-- The removals that a plan asks for, in its order.
unfoldable pub planned : List Decision → List Removal
planned [] = []
planned (d ∷ ds) =
    let rest = planned ds in
    (elim (is_remove d.action) [ true ↦ removal_of d ∷ rest | false ↦ rest ])

abbrev pub sizes : List Removal → ℕ
sizes [] = 0
sizes (r ∷ rs) = r.size_bytes + sizes rs

-- The entry of the removal at which an execution stopped.
pub record IsStop (r : Removal) (entry : ExecutionEntry) : Type 0 where
  pub about : entry.removal ≡ r
  pub status : entry.status ≢ ExecutionStatus.removed

-- How the rest of the plan and the end of the journal agree with the error.
pub data IsEnd : Option ExecutionError → List Removal → List ExecutionEntry → Type 0 where
  complete : IsEnd none [] []
  refused : (e : ExecutionError) (r : Removal) (rest : List Removal) → IsEnd (some e) (r ∷ rest) []
  stopped_at :
      (e : ExecutionError) (r : Removal) (rest : List Removal) (entry : ExecutionEntry)
      → IsStop r entry
      → IsEnd (some e) (r ∷ rest) (entry ∷ [])

pub record IsJournal (asked : List Removal) (before after : ExecutionReport)
    (e : Option ExecutionError) : Type 0 where
  pub gone : List Removal
  pub rest : List Removal
  pub last : List ExecutionEntry
  pub split : asked ≡ gone ++ rest
  pub hash : after.plan_hash ≡ before.plan_hash
  pub entries : after.entries ≡ before.entries ++ (map removed_entry gone ++ last)
  pub count : after.removed_count ≡ before.removed_count + length gone
  pub bytes : after.reclaimed_bytes ≡ u64 (before.reclaimed_bytes + sizes gone)
  pub end : IsEnd e rest last

pub outcome_cases :
    (o : Outcome)
    → (o ≡ Outcome.gone)
      ⊎ ((entry : Option ExecutionEntry) × ((e : ExecutionError) × (o ≡ Outcome.stopped entry e)))
outcome_cases Outcome.gone = inl refl
outcome_cases (Outcome.stopped entry e) = inr (entry, (e, refl))

validated :
    (compute_plan_hash : Plan → Result Str Str) (plan : Plan) (approved : Str)
    → validate_plan_hash compute_plan_hash plan approved ≡ ok tt
    → (compute_plan_hash plan ≡ ok approved) × (plan.hash ≡ approved)
unfolding validate_plan_hash
validated compute_plan_hash plan approved h = elim (Result-cases (compute_plan_hash plan)) [
  | inr (e, q) ↦ absurd (ground arith)
  | inl (actual, q) ↦
      let same : plan.hash ≡ actual = str_eq→≡ plan.hash actual (ground arith) in
      let mine : approved ≡ actual = str_eq→≡ approved actual (ground arith) in
      (q ∙ ap ok (sym mine), same ∙ sym mine)
]

-- A plan that is not approved by its own hash leaves the world alone, and the execution reports an error
-- and an empty journal.
pub execute_unapproved :
    (compute_plan_hash : Plan → Result Str Str) (x : ExactExecutor) (w : x.World) (plan : Plan)
    (approved : Str)
    → (compute_plan_hash plan ≢ ok approved) ⊎ (plan.hash ≢ approved)
    → ((execute compute_plan_hash x w plan approved).0 ≡ w)
      × (((execute compute_plan_hash x w plan approved).1.0.entries ≡ [])
          × ((execute compute_plan_hash x w plan approved).1.1 ≢ none))
unfolding execute empty_report
execute_unapproved compute_plan_hash x w plan approved h =
    elim (Result-cases (validate_plan_hash compute_plan_hash plan approved)) [
      | inl (u, q) ↦ let v = validated compute_plan_hash plan approved q in absurd (ground arith)
      | inr (e, q) ↦ rw (execute, q) (refl, (refl, λ k. ground arith))
    ]
