-- ===== src/Pool/Cleanup/Exact.antt =====
-- Whatever GitHub and the provider answer, the cleanup leaves as it was what deleting the recorded
-- runner and the recorded instance leaves as it was.
use ephemeral_action_runner.Shared.{
  ℕ, zero, suc, Str, Bool, true, false, not, ◌≡◌, refl, Option, none, some, ok, err, List, [], ◌∷◌,
  Result, is_empty, Result-cases, inl, inr,
}
use ephemeral_action_runner.PoolState.Types.{Phase, Action, Lease, Record, Transition, Discovery}
use ephemeral_action_runner.Pool.Cleanup.Host.{
  RecordStore, Host, Settings, InventoryItem, Refusal, World, M, ◌>>=◌, read, report, transition,
}
use ephemeral_action_runner.Pool.Cleanup.Driver.{
  bare, Next, LoopError, report_all, discovery_of, no_items, quarantine_lifecycle,
  mark_cleanup_pending, or_set_aside, advance, abandon, go_on_observed, observe_exact,
  act_on_create, act_on_unidentified, act_on_uncertain, act_on_quarantined, act_on_live,
  act_on_remote, act_on_local, act, act_unleased, active_lifecycle_lease, unless_leased, round,
  go_on, cleanup_record,
}
use ephemeral_action_runner.Pool.Cleanup.Triple.{
  Keeps, Keeps-bind, Keeps-bind_fact, Keeps-if, Keeps-fail, Keeps-pure,
}
use ephemeral_action_runner.Pool.Cleanup.Identity.{is_inner}
use ephemeral_action_runner.Pool.Cleanup.Observe.{Observes, reconcile_keeps}
use ephemeral_action_runner.Pool.Cleanup.Tolerance.{
  Tolerates, runner_removal_keeps, instance_removal_keeps,
}

-- What the calls of the cleanup leave as it was, the deletes of the record that was read included.
pub record Spares (h : Host) (s : RecordStore) (c : Settings) (n : Str) (P : World h s → Type 0)
    : Type 0 where
  pub observes : Observes h s c P
  pub moves :
      (m : Str) (t : Transition) → is_inner t.action ≡ true → Keeps h s P (transition h s m t)
  pub reports : (x : Discovery) → Keeps h s P (report h s x)
  pub tolerates :
      (w : World h s)
      → P w
      → (r : Record) → (read h s n w).1 ≡ ok r
      → Tolerates h s P r.provider_id r.git_hub.runner_id

module _ (h : Host) (s : RecordStore) (c : Settings) (n : Str) (P : World h s → Type 0)
    (sp : Spares h s c n P) where
  advance_keeps :
      (m : Str) (a : Action) (known : Bool)
      → is_inner a ≡ true
      → Keeps h s P (advance h s c m a known)
  advance_keeps m a known i = Keeps-bind h s (sp.moves m (bare a) i) (λ r. Keeps-pure h s)

  abandon_keeps : (m : Str) → Keeps h s P (abandon h s c m)
  abandon_keeps m =
      Keeps-bind h s (sp.moves m (bare Action.abandon_create) refl) (λ r. Keeps-pure h s)

  report_all_keeps : (items : List InventoryItem) → Keeps h s P (report_all h s c items)
  unfolding report_all
  report_all_keeps [] = Keeps-pure h s
  report_all_keeps (i ∷ rest) =
      Keeps-bind h s (sp.reports (discovery_of h s c i)) (λ x. report_all_keeps rest)

  mark_keeps : (m : Str) → Keeps h s P (mark_cleanup_pending h s c m)
  unfolding mark_cleanup_pending
  mark_keeps m = record { kept = (sp.moves m (bare Action.cleanup_pending) refl).kept }

  quarantine_keeps : (m reason : Str) → Keeps h s P (quarantine_lifecycle h s c m reason)
  unfolding quarantine_lifecycle
  quarantine_keeps m reason = record {
    kept = (sp.moves m (record (bare Action.quarantine) { reason = reason }) refl).kept;
  }

  set_aside_keeps :
      (m : Str) (run : M h s (Unit {0})) → Keeps h s P run → Keeps h s P (or_set_aside h s c m run)
  unfolding or_set_aside
  set_aside_keeps m run keeps = record {
    kept = λ w p. elim (Result-cases (run w).1) [
      | inl (u, i) ↦ rw (i, or_set_aside) (keeps.kept w p)
      | inr (x, i) ↦
          rw (i, or_set_aside)
            ((Keeps-bind h s (mark_keeps m) (λ u. Keeps-fail h s)).kept (run w).0 (keeps.kept w p))
    ];
  }

  create_keeps :
      (r : Record) (items : List InventoryItem) (allow : Bool)
      → Keeps h s P (act_on_create h s c r items allow)
  unfolding act_on_create
  create_keeps r items allow =
      Keeps-if h s (not (no_items items))
        (Keeps-bind h s (report_all_keeps items)
          (λ u. Keeps-bind h s (quarantine_keeps _ _) (λ v. Keeps-fail h s)))
        (Keeps-if h s _ (Keeps-fail h s) (
          Keeps-if h s (not c.github) (abandon_keeps r.name) (
            Keeps-bind h s (sp.observes.asks _) (λ found.
              Keeps-if h s _ (Keeps-bind h s (quarantine_keeps _ _) (λ v. Keeps-fail h s))
                (abandon_keeps r.name)))))

  unidentified_keeps :
      (r : Record) (items : List InventoryItem) → Keeps h s P (act_on_unidentified h s c r items)
  unfolding act_on_unidentified
  unidentified_keeps r items =
      Keeps-if h s (not (no_items items))
        (Keeps-bind h s (report_all_keeps items) (λ u. Keeps-fail h s))
        (Keeps-if h s _ (Keeps-fail h s) (
          Keeps-if h s (not c.github) (Keeps-fail h s) (
            Keeps-bind h s (sp.observes.asks _)
              (λ found. Keeps-if h s _ (Keeps-fail h s) (abandon_keeps r.name)))))

  observed_keeps :
      (r : Record) (known : Bool) (answer : Result Refusal Bool)
      → Keeps h s P (go_on_observed h s c r known answer)
  observed_keeps r known (err e) = Keeps-fail h s
  observed_keeps r known (ok false) = Keeps-fail h s
  observed_keeps r known (ok true) = advance_keeps _ _ known refl

  quarantined_keeps :
      (r : Record) (items : List InventoryItem) (known : Bool)
      → Keeps h s P (act_on_quarantined h s c r items known)
  unfolding act_on_quarantined act_on_uncertain
  quarantined_keeps r items known =
      Keeps-if h s (is_empty r.provider_id) (unidentified_keeps r items) (
        Keeps-if h s r.recovery_inventory_uncertain
          (observed_keeps r known (observe_exact r items false)) (advance_keeps _ _ known refl))

  live_keeps : (r : Record) (known : Bool) → Keeps h s P (act_on_live h s c r known)
  unfolding act_on_live
  live_keeps r known =
      Keeps-if h s (is_empty r.provider_id) (Keeps-fail h s) (advance_keeps _ _ known refl)

  remote_keeps :
      (r : Record)
      → Tolerates h s P r.provider_id r.git_hub.runner_id
      → (known : Bool) → Keeps h s P (act_on_remote h s c r known)
  unfolding act_on_remote
  remote_keeps r t known =
      Keeps-bind h s
        (Keeps-if h s (not known) (set_aside_keeps r.name _ (runner_removal_keeps h s P c r t))
          (Keeps-pure h s))
        (λ u. advance_keeps _ _ known refl)

  local_keeps :
      (r : Record)
      → Tolerates h s P r.provider_id r.git_hub.runner_id
      → (items : List InventoryItem) (known : Bool) → Keeps h s P (act_on_local h s c r items known)
  unfolding act_on_local
  local_keeps r t items known =
      Keeps-bind h s (set_aside_keeps r.name _ (instance_removal_keeps h s P c r t items))
        (λ u. advance_keeps _ _ known refl)

  act_keeps :
      (p : Phase) (r : Record)
      → Tolerates h s P r.provider_id r.git_hub.runner_id
      → (items : List InventoryItem) (known allow : Bool)
      → Keeps h s P (act h s c p r items known allow)
  unfolding act
  act_keeps Phase.tombstoned r t items known allow = Keeps-pure h s
  act_keeps Phase.reserved r t items known allow = create_keeps r items allow
  act_keeps Phase.creating r t items known allow = create_keeps r items allow
  act_keeps Phase.cleanup_pending r t items known allow = advance_keeps _ _ known refl
  act_keeps Phase.quarantined r t items known allow = quarantined_keeps r items known
  act_keeps Phase.fencing r t items known allow = advance_keeps _ _ known refl
  act_keeps Phase.fenced r t items known allow = advance_keeps _ _ known refl
  act_keeps Phase.remote_reconciling r t items known allow = remote_keeps r t known
  act_keeps Phase.remote_absent r t items known allow = advance_keeps _ _ known refl
  act_keeps Phase.local_removing r t items known allow = local_keeps r t items known
  act_keeps Phase.local_absent r t items known allow = advance_keeps _ _ known refl
  act_keeps Phase.unrecognized r t items known allow = Keeps-fail h s
  act_keeps Phase.created r t items known allow = live_keeps r known
  act_keeps Phase.validating r t items known allow = live_keeps r known
  act_keeps Phase.standby r t items known allow = live_keeps r known
  act_keeps Phase.registering r t items known allow = live_keeps r known
  act_keeps Phase.ready r t items known allow = live_keeps r known
  act_keeps Phase.busy r t items known allow = live_keeps r known
  act_keeps Phase.draining r t items known allow = live_keeps r known

  unleased_keeps :
      (r : Record)
      → Tolerates h s P r.provider_id r.git_hub.runner_id
      → (items : List InventoryItem) (known allow : Bool) (l : Option Lease)
      → Keeps h s P (act_unleased h s c r items known allow l)
  unleased_keeps r t items known allow (some l) = Keeps-fail h s
  unleased_keeps r t items known allow none = act_keeps r.phase r t items known allow

  read_keeps_on :
      (items : List InventoryItem) (known allow : Bool)
      → Keeps h s P (read h s n >>= unless_leased h s c items known allow)
  unfolding unless_leased
  read_keeps_on items known allow =
      Keeps-bind_fact h s (λ r. Tolerates h s P r.provider_id r.git_hub.runner_id)
        (sp.observes.reads n) sp.tolerates
        (λ r t.
          Keeps-bind h s sp.observes.clock
            (λ now. unleased_keeps r t items known allow (active_lifecycle_lease r.leases now)))

  round_keeps :
      (items : List InventoryItem) (allow known : Bool)
      → Keeps h s P (round h s c n items allow known)
  unfolding round
  round_keeps items allow true = read_keeps_on items true allow
  round_keeps items allow false = Keeps-bind h s (sp.observes.reads n) (λ r.
      Keeps-bind h s (reconcile_keeps h s c P sp.observes r)
        (λ absent. Keeps-if h s absent (Keeps-pure h s) (read_keeps_on items false allow)))

  go_on_keeps :
      (rest : Bool → World h s → World h s × Result LoopError (Unit {0}))
      → ((known : Bool) (w : World h s) → P w → P (rest known w).0)
      → (x : Next) (w : World h s) → P w
      → P (go_on h s c rest x w).0
  go_on_keeps rest keeps (Next.again known) w p = keeps known w p
  go_on_keeps rest keeps Next.finished w p = p

  -- The whole loop, however it ends.
  pub cleanup_keeps :
      (fuel : ℕ) (items : List InventoryItem) (allow known : Bool) (w : World h s)
      → P w
      → P (cleanup_record h s c fuel n items allow known w).0
  unfolding cleanup_record
  cleanup_keeps zero items allow known w p = p
  cleanup_keeps (suc fuel) items allow known w p =
      let now = round h s c n items allow known w in
      let after = (round_keeps items allow known).kept w p in
      elim (Result-cases now.1) [
        | inr (e, i) ↦ rw (i, cleanup_record) after
        | inl (x, i) ↦
            rw (i, cleanup_record)
              (go_on_keeps (cleanup_record h s c fuel n items allow)
                (λ known' w' p'. cleanup_keeps fuel items allow known' w' p') x now.0 after)
      ]
