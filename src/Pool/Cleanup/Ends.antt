-- ===== src/Pool/Cleanup/Ends.antt =====
-- What the switch on the phase of a record leaves of it.
use ephemeral_action_runner.Shared.{
  ℕ, ◌<◌, Str, Bool, true, false, not, ◌≡◌, sym, subst, Option, some, ok, err, List, Result,
  is_empty, ◌∙◌,
}
use ephemeral_action_runner.PoolState.Types.{Phase, Action, Record}
use ephemeral_action_runner.Pool.Cleanup.Host.{
  RecordStore, StoreLaws, Host, Settings, InventoryItem, Refusal, World, transition, lift-ok,
  CleanupError,
}
use ephemeral_action_runner.Pool.Cleanup.Driver.{
  bare, move, Next, no_items, advance, abandon, go_on_observed, observe_exact, act_on_create,
  act_on_unidentified, act_on_uncertain, act_on_quarantined, act_on_live, act_on_remote,
  act_on_local, act,
}
use ephemeral_action_runner.Pool.Cleanup.Rank.{rank, IsForward, abandon_buries}
use ephemeral_action_runner.Pool.Cleanup.Triple.{
  On, Gives, Gives-bind, Gives-if, Gives-pure, Gives_of_Keeps, Gives_of_Fails, Fails-bind,
  Fails-fail, Below, Stands, forward_nears,
}
use ephemeral_action_runner.Pool.Cleanup.Tolerance.{
  On-Tolerates, runner_removal_keeps, instance_removal_keeps, set_aside_gives,
}

module _ (h : Host) (s : RecordStore) (view : s.State → Str → Option Record)
    (laws : StoreLaws s view) (n : Str) where
  -- The record of the name is tombstoned.
  pub record Buried (d : s.State) : Type 0 where
    pub of : Record
    pub here : view d n ≡ some of
    pub ended : of.phase ≡ Phase.tombstoned

  -- How the loop goes on: nearer to the end, or knowing now that the runner is gone, or it is done.
  pub data Left (k : ℕ) (known : Bool) : Next → s.State → Type 0 where
    forward :
        {d : s.State} (j : ℕ)
        → j < k
        → Below h s view laws n j d
        → Left k known (Next.again known) d
    noted :
        {d : s.State} → known ≡ false → Below h s view laws n k d → Left k known (Next.again true) d
    done : {d : s.State} → Buried d → Left k known Next.finished d

  module _ (c : Settings) (k : ℕ) (known : Bool) (r : Record) where
    abbrev Here : World h s → Type 0
    Here = On h s (Stands h s view laws n k r)

    abbrev Leaves : Next → World h s → Type 0
    Leaves x w = Left k known x w.records

    -- The record is of the name.
    by_name :
        {Q : Record → World h s → Type 0} (a : Action)
        → Gives h s Here (move h s c n a) Q
        → Gives h s Here (move h s c r.name a) Q
    by_name {Q} a g = record {
      given = λ w v.
          subst (λ m. (q : Record) → (move h s c m a w).1 ≡ ok q → Q q (move h s c m a w).0)
            (sym v.named) (g.given w v);
    }

    nears :
        {a : Action}
        → IsForward a
        → Gives h s Here (move h s c r.name a) (λ q. On h s (Below h s view laws n (rank r)))
    nears f = by_name _ (forward_nears h s view laws n c k r f)

    -- The record stands no further from its end than the bound.
    pub advance_nears :
        rank r < k
        → {a : Action} → IsForward a
        → Gives h s Here (advance h s c r.name a known) Leaves
    advance_nears low f =
        Gives-bind h s (nears f) (λ q. Gives-pure h s (λ d b. Left.forward (rank r) low b))

    buries_named : Gives h s Here (move h s c n Action.abandon_create) (λ q. On h s Buried)
    unfolding transition
    buries_named = record {
      given = λ w v q e.
          let io = (h.meet w.outside).1 in
          let call = s.transition io n (bare Action.abandon_create) w.records in
          let m =
            laws.transition_moves io n (bare Action.abandon_create) w.records
              (lift-ok h s CleanupError.store call.1 e) in
          record {
            of = m.next;
            here = m.is_now;
            ended = m.same.phase ∙ abandon_buries m.from io.now m.applied;
          };
    }

    buries : Gives h s Here (move h s c r.name Action.abandon_create) (λ q. On h s Buried)
    buries = by_name _ buries_named

    abandon_ends : Gives h s Here (abandon h s c r.name) Leaves
    abandon_ends = Gives-bind h s buries (λ q. Gives-pure h s (λ d b. Left.done b))

    create_ends :
        (items : List InventoryItem) (allow : Bool)
        → Gives h s Here (act_on_create h s c r items allow) Leaves
    unfolding act_on_create
    create_ends items allow =
        Gives-if h s (not (no_items items))
          (Gives_of_Fails h s (Fails-bind h s _ (λ u. Fails-bind h s _ (λ v. Fails-fail h s))))
          (Gives-if h s _ (Gives_of_Fails h s (Fails-fail h s)) (
            Gives-if h s (not c.github) abandon_ends (
              Gives-bind h s
                (Gives_of_Keeps h s (
                  (On-Tolerates h s (Stands h s view laws n k r) r.provider_id
                      r.git_hub.runner_id).asks
                    _))
                (λ found.
                  Gives-if h s _ (Gives_of_Fails h s (Fails-bind h s _ (λ u. Fails-fail h s)))
                    abandon_ends))))

    unidentified_ends :
        (items : List InventoryItem) → Gives h s Here (act_on_unidentified h s c r items) Leaves
    unfolding act_on_unidentified
    unidentified_ends items =
        Gives-if h s (not (no_items items))
          (Gives_of_Fails h s (Fails-bind h s _ (λ u. Fails-fail h s)))
          (Gives-if h s _ (Gives_of_Fails h s (Fails-fail h s)) (
            Gives-if h s (not c.github) (Gives_of_Fails h s (Fails-fail h s)) (
              Gives-bind h s
                (Gives_of_Keeps h s (
                  (On-Tolerates h s (Stands h s view laws n k r) r.provider_id
                      r.git_hub.runner_id).asks
                    _))
                (λ found. Gives-if h s _ (Gives_of_Fails h s (Fails-fail h s)) abandon_ends))))

    uncertain_ends :
        rank r < k
        → (answer : Result Refusal Bool)
        → Gives h s Here (go_on_observed h s c r known answer) Leaves
    uncertain_ends low (err e) = Gives_of_Fails h s (Fails-fail h s)
    uncertain_ends low (ok false) = Gives_of_Fails h s (Fails-fail h s)
    uncertain_ends low (ok true) = advance_nears low IsForward.observed

    quarantined_ends :
        rank r < k
        → (items : List InventoryItem)
        → Gives h s Here (act_on_quarantined h s c r items known) Leaves
    unfolding act_on_quarantined act_on_uncertain
    quarantined_ends low items = Gives-if h s (is_empty r.provider_id) (unidentified_ends items) (
        Gives-if h s r.recovery_inventory_uncertain
          (uncertain_ends low (observe_exact r items false)) (advance_nears low IsForward.fence))

    live_ends : rank r < k → Gives h s Here (act_on_live h s c r known) Leaves
    unfolding act_on_live
    live_ends low =
        Gives-if h s (is_empty r.provider_id) (Gives_of_Fails h s (Fails-fail h s))
          (advance_nears low IsForward.fence)

    remote_ends : rank r < k → Gives h s Here (act_on_remote h s c r known) Leaves
    unfolding act_on_remote
    remote_ends low =
        Gives-bind h s
          (Gives-if h s (not known)
            (set_aside_gives h s Here c r.name _
              (runner_removal_keeps h s Here c r (On-Tolerates h s _ _ _)))
            (Gives-pure h s (λ d v. v)))
          (λ u. advance_nears low IsForward.remote)

    local_ends :
        rank r < k
        → (items : List InventoryItem) → Gives h s Here (act_on_local h s c r items known) Leaves
    unfolding act_on_local
    local_ends low items =
        Gives-bind h s
          (set_aside_gives h s Here c r.name _
            (instance_removal_keeps h s Here c r (On-Tolerates h s _ _ _) items))
          (λ u. advance_nears low IsForward.local)

    -- The switch on the phase of a record that stands under the name.
    pub act_ends :
        rank r < k
        → (p : Phase) → r.phase ≡ p
        → (items : List InventoryItem) (allow : Bool)
        → Gives h s Here (act h s c p r items known allow) Leaves
    unfolding act
    act_ends low Phase.tombstoned e items allow =
        Gives-pure h s (λ d v. Left.done (record { of = r; here = v.here; ended = e }))
    act_ends low Phase.reserved e items allow = create_ends items allow
    act_ends low Phase.creating e items allow = create_ends items allow
    act_ends low Phase.cleanup_pending e items allow = advance_nears low IsForward.resume
    act_ends low Phase.quarantined e items allow = quarantined_ends low items
    act_ends low Phase.created e items allow = live_ends low
    act_ends low Phase.validating e items allow = live_ends low
    act_ends low Phase.standby e items allow = live_ends low
    act_ends low Phase.registering e items allow = live_ends low
    act_ends low Phase.ready e items allow = live_ends low
    act_ends low Phase.busy e items allow = live_ends low
    act_ends low Phase.draining e items allow = live_ends low
    act_ends low Phase.fencing e items allow = advance_nears low IsForward.fenced
    act_ends low Phase.fenced e items allow = advance_nears low IsForward.verify
    act_ends low Phase.remote_reconciling e items allow = remote_ends low
    act_ends low Phase.remote_absent e items allow = advance_nears low IsForward.intent
    act_ends low Phase.local_removing e items allow = local_ends low items
    act_ends low Phase.local_absent e items allow = advance_nears low IsForward.tombstone
    act_ends low Phase.unrecognized e items allow = Gives_of_Fails h s (Fails-fail h s)
