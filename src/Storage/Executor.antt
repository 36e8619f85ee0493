-- ===== src/Storage/Executor.antt =====
-- internal/storage/executor.go: the execution of an approved plan. The executor is the source's
-- interface ExactExecutor: it works on a world, which either of its calls may change. The hash of a
-- plan's content is a parameter.
pub mod Journal
pub mod Removals
use ephemeral_action_runner.Shared.{
  ℕ, ◌+◌, Str, codes, str_eq, is_empty, trim_space, Bool, true, false, not, ◌&&◌, ◌||◌,
  if◌then◌else◌, Option, none, some, List, [], ◌∷◌, ◌++◌, Result, err, ok, u64,
}
use ephemeral_action_runner.Storage.Types.{Target, Artifact, Action, Decision, match_exact}

pub record Observation : Type 0 where
  pub exists : Bool
  pub target : Target

pub record Removal : Type 0 where
  pub artifact_id : Str
  pub target : Target
  pub size_bytes : ℕ

pub record ExactExecutor : Type 1 where
  pub World : Type 0
  pub observe_exact : World → Target → World × Result Str Observation
  pub remove_exact : World → Removal → World × Result Str (Unit {0})

pub data ExecutionStatus : Type 0 where
  removed drifted failed : ExecutionStatus

pub record ExecutionEntry : Type 0 where
  pub removal : Removal
  pub status : ExecutionStatus
  pub error : Str

pub record ExecutionReport : Type 0 where
  pub plan_hash : Str
  pub entries : List ExecutionEntry
  pub removed_count : ℕ
  pub reclaimed_bytes : ℕ

pub data ExecutionError : Type 0 where
  no_executor no_approval hash_failed content_drifted wrong_approval : ExecutionError
  not_exact target_drifted still_exists : Str → ExecutionError
  observe_failed remove_failed verify_failed : Str → Str → ExecutionError

-- A plan, by its hash and its decisions; `content` is the rest of it.
pub record Plan : Type 0 where
  pub hash : Str
  pub decisions : List Decision
  pub content : Str

unfoldable pub target_eq : Target → Target → Bool
target_eq s t =
    str_eq s.kind t.kind
    && (str_eq s.locator t.locator
        && (str_eq s.identity t.identity
            && (str_eq s.fingerprint t.fingerprint && str_eq s.matching t.matching)))

unfoldable pub validate_exact_target : Target → Bool
validate_exact_target t =
    str_eq t.matching match_exact
    && not (is_empty t.kind || (is_empty t.locator || is_empty t.identity))

unfoldable pub removal_of : Decision → Removal
removal_of d = record {
  artifact_id = d.artifact.id;
  target = d.artifact.target;
  size_bytes = d.artifact.size_bytes;
}

abbrev pub is_remove : Action → Bool
is_remove Action.remove = true
is_remove _ = false

unfoldable pub failed_entry : Removal → Str → ExecutionEntry
failed_entry r text = record { removal = r; status = ExecutionStatus.failed; error = text }

unfoldable pub drifted_entry : Removal → ExecutionEntry
drifted_entry r = record {
  removal = r;
  status = ExecutionStatus.drifted;
  error = codes "exact target identity changed or disappeared";
}

unfoldable pub removed_entry : Removal → ExecutionEntry
removed_entry r = record { removal = r; status = ExecutionStatus.removed; error = codes "" }

-- What the loop does with one planned removal: it goes on, or it stops with an entry or none.
pub data Outcome : Type 0 where
  gone : Outcome
  stopped : Option ExecutionEntry → ExecutionError → Outcome

-- The computation of the hash is a parameter, since it encodes the plan as JSON and hashes it.
module _ (compute_plan_hash : Plan → Result Str Str) where
  unfoldable pub validate_plan_hash : Plan → Str → Result ExecutionError (Unit {0})
  validate_plan_hash plan approved =
      if is_empty (trim_space approved)
      then err ExecutionError.no_approval
      else (elim (compute_plan_hash plan) [
        | err e ↦ err ExecutionError.hash_failed
        | ok actual ↦
            if not (str_eq plan.hash actual)
            then err ExecutionError.content_drifted
            else if not (str_eq approved actual)
            then err ExecutionError.wrong_approval
            else ok tt
      ])

unfoldable pub add_entry : Option ExecutionEntry → ExecutionReport → ExecutionReport
add_entry none report = report
add_entry (some e) report = record report { entries = report.entries ++ (e ∷ []) }

unfoldable pub count_removed : Removal → ExecutionReport → ExecutionReport
count_removed r report = record report {
  entries = report.entries ++ (removed_entry r ∷ []);
  removed_count = report.removed_count + 1;
  reclaimed_bytes = u64 (report.reclaimed_bytes + r.size_bytes);
}

module _ (x : ExactExecutor) where
  -- The second observation, after the removal.
  unfoldable pub verify_absence : x.World → Removal → x.World × Outcome
  verify_absence w r =
      let (after, seen) = x.observe_exact w r.target in
      (
        after,
        (elim seen [
          | err e ↦
              Outcome.stopped (some (failed_entry r e))
                (ExecutionError.verify_failed r.artifact_id e)
          | ok o ↦
              if o.exists
              then Outcome.stopped
                  (some (failed_entry r (codes "exact target still exists after removal")))
                  (ExecutionError.still_exists r.artifact_id)
              else Outcome.gone
        ]),
      )

  unfoldable pub remove_observed : x.World → Removal → x.World × Outcome
  remove_observed w r =
      let (after, done) = x.remove_exact w r in
      (elim done [
        | err e ↦ (
          after,
          Outcome.stopped (some (failed_entry r e)) (ExecutionError.remove_failed r.artifact_id e),
        )
        | ok u ↦ verify_absence after r
      ])

  unfoldable pub attempt : x.World → Removal → x.World × Outcome
  attempt w r =
      let (seen, result) = x.observe_exact w r.target in
      if not (validate_exact_target r.target)
      then (w, Outcome.stopped none (ExecutionError.not_exact r.artifact_id))
      else (elim result [
        | err e ↦ (
          seen,
          Outcome.stopped (some (failed_entry r e)) (ExecutionError.observe_failed r.artifact_id e),
        )
        | ok o ↦
            if not o.exists || not (target_eq o.target r.target)
            then (
              seen,
              Outcome.stopped (some (drifted_entry r))
                  (ExecutionError.target_drifted r.artifact_id),
            )
            else remove_observed seen r
      ])

  unfoldable pub run :
      x.World
      → ExecutionReport
      → List Decision
      → x.World × (ExecutionReport × Option ExecutionError)
  run w report [] = (w, (report, none))
  run w report (d ∷ ds) = (elim (is_remove d.action) [
    | false ↦ run w report ds
    | true ↦
        let (after, outcome) = attempt w (removal_of d) in
        (elim outcome [
          | Outcome.stopped entry e ↦ (after, (add_entry entry report, some e))
          | Outcome.gone ↦ run after (count_removed (removal_of d) report) ds
        ])
  ])

unfoldable pub empty_report : Str → ExecutionReport
empty_report hash = record {
  plan_hash = hash;
  entries = [];
  removed_count = 0;
  reclaimed_bytes = 0;
}

unfoldable pub execute :
    (Plan → Result Str Str)
    → (x : ExactExecutor) → x.World
    → Plan
    → Str
    → x.World × (ExecutionReport × Option ExecutionError)
execute compute_plan_hash x w plan approved =
    (elim (validate_plan_hash compute_plan_hash plan approved) [
      | err e ↦ (w, (empty_report (codes ""), some e))
      | ok u ↦ run x w (empty_report plan.hash) plan.decisions
    ])
