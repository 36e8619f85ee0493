-- ===== src/Pool/Cleanup/Tolerance.antt =====
-- The removal of the runner and of the instance, and what else is outside the store, leave the records as they are.
use ephemeral_action_runner.Shared.{
  ℤ, Str, str_eq, str_eq_refl, ap, true, false, ◌≡◌, refl, arith, Option, none, some, ok, err, List,
  [], ◌∷◌, Result, ◌∙◌, Result-cases, Bool-cases, inl, inr,
}
use ephemeral_action_runner.PoolState.Types.{Record}
use ephemeral_action_runner.Pool.Cleanup.Host.{
  RecordStore, Host, Settings, Runner, InventoryItem, Instance, Refusal, World, M, ◌>>=◌,
  current_time, runner_by_name, delete_runner, inventory, stop_instance, delete_instance,
  finalize_absent,
}
use ephemeral_action_runner.Pool.Cleanup.Driver.{
  same_id, found_any, other_runner, delete_exact, remove_exact_runner, remove_found,
  remove_exact_instance, find_exact, delete_if_found, remove_checked, recorded_instance,
  or_set_aside,
}
use ephemeral_action_runner.Pool.Cleanup.Triple.{
  On, Keeps, Keeps-bind, Keeps-if, Keeps-test, Keeps-fail, Keeps-pure, Gives,
}

-- The last item that the search found is of the recorded identity.
find_exact-own :
    (r : Record) (items : List InventoryItem) (found : Option Instance)
    → ((y : Instance) → found ≡ some y → str_eq y.provider_id r.provider_id ≡ true)
    → (x : Instance) → find_exact r items found ≡ ok (some x)
    → str_eq x.provider_id r.provider_id ≡ true
unfolding find_exact
find_exact-own r [] found own x e = own x (ground (arith, e))
find_exact-own r (i ∷ rest) found own x e =
    let mine : str_eq i.instance_of.provider_id r.provider_id ≡ true
        → (y : Instance) → some i.instance_of ≡ some y
        → str_eq y.provider_id r.provider_id ≡ true =
      λ at y same. ground (arith, at, same) in
    elim (Bool-cases (str_eq i.instance_of.provider_id r.provider_id)) [
      | inl at ↦ find_exact-own r rest (some i.instance_of) (mine at) x (ground (arith, e, at))
      | inr at ↦ find_exact-own r rest found own x (ground (arith, e, at))
    ]

-- What the calls outside the store leave as it was, where the deletes are of one runner and of one
-- instance only.
pub record Tolerates (h : Host) (s : RecordStore) (P : World h s → Type 0) (provider_id : Str)
    (runner_id : ℤ) : Type 0 where
  pub clock : Keeps h s P (current_time h s)
  pub asks : (m : Str) → Keeps h s P (runner_by_name h s m)
  pub lists : Keeps h s P (inventory h s)
  pub deletes_runner : (id : ℤ) → same_id id runner_id ≡ true → Keeps h s P (delete_runner h s id)
  pub stops :
      (x : Instance) → str_eq x.provider_id provider_id ≡ true → Keeps h s P (stop_instance h s x)
  pub deletes :
      (x : Instance) → str_eq x.provider_id provider_id ≡ true → Keeps h s P (delete_instance h s x)
  pub finalizes :
      (x : Instance) → str_eq x.provider_id provider_id ≡ true → Keeps h s P (finalize_absent h s x)

-- All of them leave the records as they were.
pub On-Tolerates :
    (h : Host) (s : RecordStore) (Q : s.State → Type 0) (p : Str) (g : ℤ)
    → Tolerates h s (On h s Q) p g
unfolding current_time runner_by_name inventory delete_runner stop_instance delete_instance
    finalize_absent
On-Tolerates h s Q p g = record {
  clock = record { kept = λ w q. q };
  asks = λ m. record { kept = λ w q. q };
  lists = record { kept = λ w q. q };
  deletes_runner = λ id e. record { kept = λ w q. q };
  stops = λ x e. record { kept = λ w q. q };
  deletes = λ x e. record { kept = λ w q. q };
  finalizes = λ x e. record { kept = λ w q. q };
}

other_runner-same :
    (r : Record) (x : Runner) → other_runner r x ≡ false → same_id x.id r.git_hub.runner_id ≡ true
other_runner-same r x e = ground (arith, e)

module _ (h : Host) (s : RecordStore) (P : World h s → Type 0) (c : Settings) (r : Record)
    (t : Tolerates h s P r.provider_id r.git_hub.runner_id) where
  delete_exact_keeps : (x : Runner) → Keeps h s P (delete_exact h s c r x)
  unfolding delete_exact
  delete_exact_keeps x =
      Keeps-test h s (other_runner r x) (λ bad. Keeps-fail h s)
        (λ good. Keeps-bind h s (t.deletes_runner x.id (other_runner-same r x good)) (λ u.
          Keeps-bind h s (t.asks _)
            (λ y. Keeps-if h s (found_any y) (Keeps-fail h s) (Keeps-pure h s))))

  found_keeps : (found : Option Runner) → Keeps h s P (delete_if_found h s c r found)
  found_keeps none = Keeps-pure h s
  found_keeps (some x) = delete_exact_keeps x

  pub runner_removal_keeps : Keeps h s P (remove_exact_runner h s c r)
  unfolding remove_exact_runner
  runner_removal_keeps =
      Keeps-if h s _ (Keeps-if h s _ (Keeps-fail h s) (Keeps-pure h s))
        (Keeps-bind h s (t.asks _) found_keeps)

  abbrev Own : Option Instance → Type 0
  Own found = (x : Instance) → found ≡ some x → str_eq x.provider_id r.provider_id ≡ true

  remove_found_keeps :
      (found : Option Instance) → Own found → Keeps h s P (remove_found h s c r found)
  unfolding remove_found recorded_instance
  remove_found_keeps none own =
      Keeps-if h s c.finalizes (t.finalizes (recorded_instance h s c r) (str_eq_refl r.provider_id))
        (Keeps-pure h s)
  remove_found_keeps (some x) own = Keeps-bind h s (t.stops _ (own x refl)) (λ u.
      Keeps-bind h s (t.deletes _ (own x refl))
        (λ v. Keeps-bind h s t.lists (λ left. Keeps-if h s _ (Keeps-fail h s) (Keeps-pure h s))))

  checked_keeps :
      (found : Result Refusal (Option Instance))
      → ((o : Option Instance) → found ≡ ok o → Own o)
      → Keeps h s P (remove_checked h s c r found)
  checked_keeps (err e) own = Keeps-fail h s
  checked_keeps (ok o) own = remove_found_keeps o (own o refl)

  pub instance_removal_keeps :
      (items : List InventoryItem) → Keeps h s P (remove_exact_instance h s c r items)
  unfolding remove_exact_instance
  instance_removal_keeps items = checked_keeps (find_exact r items none) (λ o e x same.
      find_exact-own r items none (λ y none_is. absurd (ground (arith, none_is))) x
        (e ∙ ap ok same))

module _ (h : Host) (s : RecordStore) (P : World h s → Type 0) where
  -- A removal that went through was not set aside.
  pub set_aside_gives :
      (c : Settings) (n : Str) (m : M h s (Unit {0}))
      → Keeps h s P m
      → Gives h s P (or_set_aside h s c n m) (λ u. P)
  unfolding or_set_aside ◌>>=◌
  set_aside_gives c n m keeps = record {
    given = λ w p a e. elim (Result-cases (m w).1) [
      | inl (u, i) ↦ rw (i, or_set_aside) (keeps.kept w p)
      | inr (x, i) ↦ absurd (ground (arith, rw (i, or_set_aside, ◌>>=◌) at e))
    ];
  }
