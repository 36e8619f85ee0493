-- ===== src/Pool/Cleanup/Unowned.antt =====
-- What the cleanup of an instance without a record may touch.
use ephemeral_action_runner.Shared.{
  ℤ, Str, str_eq, is_empty, true, false, not, if◌then◌else◌, Option, none, some, Result, ok, err,
  ◌≡◌, arith, Result-cases, inl, inr,
}
use ephemeral_action_runner.PoolState.Types.{Phase, Record, Discovery, ◌is◌}
use ephemeral_action_runner.Pool.Cleanup.Host.{
  RecordStore, Host, Settings, Runner, Instance, InventoryItem, Refusal, World, M, ◌>>=◌, pure,
  read, report, runner_by_name, delete_runner, inventory, stop_instance, delete_instance,
}
use ephemeral_action_runner.Pool.Cleanup.Driver.{found_any}
use ephemeral_action_runner.Pool.Cleanup.Logic.{
  Keeps, Keeps-bind, Keeps-if, Keeps-test, Keeps-pure, Keeps-fail,
}
use ephemeral_action_runner.Pool.Cleanup.Orphans.{
  Unowned, has_pool_prefix, is_prepared, check_left, read_any, prepare_orphan, forget, or_retained,
  delete_idle, delete_runner_of, or_refuse, delete_orphan, delete_prepared, unless_live,
  cleanup_orphan,
}

-- A property of the world outside that no call changes but a stop or a delete of another instance.
pub record IsApart (h : Host) (s : RecordStore) (u : Unowned h s) (Inv : h.Outside → Type 0)
    (provider_id : Str) : Type 0 where
  pub meets : (o : h.Outside) → Inv o → Inv (h.meet o).0
  pub asks : (o : h.Outside) (m : Str) → Inv o → Inv (h.runner_by_name o m).0
  pub lists : (o : h.Outside) → Inv o → Inv (h.inventory o).0
  pub prepares : (o : h.Outside) (i : InventoryItem) → Inv o → Inv (u.prepare o i).0
  pub deletes_runner : (o : h.Outside) (id : ℤ) → Inv o → Inv (h.delete_runner o id).0
  pub stops :
      (o : h.Outside) (x : Instance)
      → str_eq x.provider_id provider_id ≡ true
      → is_empty x.provider_id ≡ false
      → Inv o
      → Inv (h.stop_instance o x).0
  pub deletes :
      (o : h.Outside) (x : Instance)
      → str_eq x.provider_id provider_id ≡ true
      → is_empty x.provider_id ≡ false
      → Inv o
      → Inv (h.delete_instance o x).0

module _ (h : Host) (s : RecordStore) (c : Settings) (u : Unowned h s) (i : InventoryItem)
    (Inv : h.Outside → Type 0) (apart : IsApart h s u Inv i.instance_of.provider_id) where
  abbrev P : World h s → Type 0
  P w = Inv w.outside

  asks : (m : Str) → Keeps h s P (runner_by_name h s m)
  unfolding runner_by_name
  asks m = record { kept = λ w p. apart.asks w.outside m p }

  deletes_runner : (id : ℤ) → Keeps h s P (delete_runner h s id)
  unfolding delete_runner
  deletes_runner id = record { kept = λ w p. apart.deletes_runner w.outside id p }

  lists : Keeps h s P (inventory h s)
  unfolding inventory
  lists = record { kept = λ w p. apart.lists w.outside p }

  forgets : (id : Str) → Keeps h s P (forget h s c u id)
  unfolding forget
  forgets id = record { kept = λ w p. apart.meets w.outside p }

  reports : (x : Discovery) → Keeps h s P (report h s x)
  unfolding report
  reports x = record { kept = λ w p. apart.meets w.outside p }

  idle_keeps : (n : Str) (found : Option Runner) → Keeps h s P (delete_idle h s c u n found)
  idle_keeps n none = Keeps-pure h s
  idle_keeps n (some x) = Keeps-if h s x.busy (Keeps-fail h s) (
      Keeps-bind h s (deletes_runner x.id) (λ t.
        Keeps-bind h s (asks n)
          (λ after. Keeps-if h s (found_any after) (Keeps-fail h s) (Keeps-pure h s))))

  runner_keeps : (n : Str) → Keeps h s P (delete_runner_of h s c u n)
  unfolding delete_runner_of
  runner_keeps n = Keeps-if h s c.github (Keeps-bind h s (asks n) (idle_keeps n)) (Keeps-pure h s)

  refuse_keeps : (a : Result Refusal (Unit {0})) → Keeps h s P (or_refuse h s c u a)
  refuse_keeps (ok t) = Keeps-pure h s
  refuse_keeps (err e) = Keeps-fail h s

  prepared_own :
      (x : Instance)
      → is_prepared i x ≡ true
      → (str_eq x.provider_id i.instance_of.provider_id ≡ true) × (is_empty x.provider_id ≡ false)
  unfolding is_prepared
  prepared_own x e = (ground (arith, e), ground (arith, e))

  stops : (x : Instance) → is_prepared i x ≡ true → Keeps h s P (stop_instance h s x)
  unfolding stop_instance
  stops x e = record {
    kept = λ w p. let (same, given) = prepared_own x e in apart.stops w.outside x same given p;
  }

  deletes : (x : Instance) → is_prepared i x ≡ true → Keeps h s P (delete_instance h s x)
  unfolding delete_instance
  deletes x e = record {
    kept = λ w p. let (same, given) = prepared_own x e in apart.deletes w.outside x same given p;
  }

  orphan_keeps : (x : Instance) → is_prepared i x ≡ true → Keeps h s P (delete_orphan h s c u i x)
  unfolding delete_orphan
  orphan_keeps x e = Keeps-bind h s (runner_keeps i.instance_of.name) (λ t.
      Keeps-bind h s (stops x e) (λ t'. Keeps-bind h s (deletes x e) (λ t''.
        Keeps-bind h s lists (λ left.
          Keeps-bind h s (refuse_keeps (check_left x left))
            (λ v. Keeps-bind h s (forgets x.provider_id) (λ v'. Keeps-pure h s))))))

  retained_keeps :
      {A : Type 0} (x : Instance) (m : M h s A)
      → Keeps h s P m
      → Keeps h s P (or_retained h s c u i x m)
  unfolding or_retained
  retained_keeps x m keeps = record {
    kept = λ w p. elim (Result-cases (m w).1) [
      | inl (a, e) ↦ rw (e, or_retained) (keeps.kept w p)
      | inr (y, e) ↦ rw (e, or_retained) ((reports _).kept (m w).0 (keeps.kept w p))
    ];
  }

  prepared_keeps : (found : Option Instance) → Keeps h s P (delete_prepared h s c u i found)
  prepared_keeps none = Keeps-pure h s
  prepared_keeps (some x) =
      Keeps-test h s (is_prepared i x)
        (λ e. retained_keeps x (delete_orphan h s c u i x) (orphan_keeps x e)) (λ e. Keeps-pure h s)

  prepares : Keeps h s P (prepare_orphan h s c u i)
  unfolding prepare_orphan
  prepares = record { kept = λ w p. apart.prepares w.outside i p }

  reads : (n : Str) → Keeps h s P (read_any h s c u n)
  unfolding read_any read
  reads n = record { kept = λ w p. apart.meets w.outside p }

  tried_keeps :
      Keeps h s P
        (if u.prepares then prepare_orphan h s c u i >>= delete_prepared h s c u i else pure false)
  tried_keeps = Keeps-if h s u.prepares (Keeps-bind h s prepares prepared_keeps) (Keeps-pure h s)

  live_keeps : (found : Option Record) → Keeps h s P (unless_live h s c u i found)
  live_keeps none = tried_keeps
  live_keeps (some r) =
      Keeps-if h s (not (r.phase is Phase.tombstoned)) (Keeps-pure h s) tried_keeps

  cleanup_keeps : Keeps h s P (cleanup_orphan h s c u i)
  unfolding cleanup_orphan
  cleanup_keeps =
      Keeps-if h s (not (has_pool_prefix i.instance_of.name u.name_prefix)) (Keeps-pure h s)
        (Keeps-bind h s (reads i.instance_of.name) live_keeps)

  -- A property of the world outside that survives every call but a stop or a delete of an instance
  -- whose provider ID is not that of the inventory item survives the cleanup of that item as an
  -- instance without a record, whatever GitHub and the provider answer and however it ends.
  pub cleanup_orphan-spares :
      (w : World h s) → Inv w.outside → Inv (cleanup_orphan h s c u i w).0.outside
  cleanup_orphan-spares w p = cleanup_keeps.kept w p
