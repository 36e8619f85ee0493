-- ===== src/Storage/Planner/Retention.antt =====
-- internal/storage/planner.go: the policy of retention, and what it makes of the classified artifacts.
-- A candidate's time stands beside its decision, where the source has a map by the artifact's ID; the
-- IDs of the artifacts are different.
use ephemeral_action_runner.Shared.{
  ℕ, ◌+◌, ◌-◌, zero, suc, ◌==◌, ℤ, pos, leb_ℤ, ltb_ℤ, ltb, leb, u64, Str, codes, str_eq, str_lt,
  Bool, true, false, not, ◌&&◌, ◌||◌, if◌then◌else◌, Option, none, some, List, [], ◌∷◌, ◌++◌, map,
  keep, is_some, Result, err, ok,
}
use ephemeral_action_runner.Storage.Types.{
  Artifact, Policy, Budget, Action, Decision, buildkit_cache, go_cache, default_policy,
}
use ephemeral_action_runner.Storage.Planner.{member, automatic_kinds, is_retired, classify_artifact}

-- `sort.Slice`.
module _ {ℓ} {A : Type ℓ} (before : A → A → Bool) where
  insert : A → List A → List A
  insert a [] = a ∷ []
  insert a (x ∷ xs) = let rest = insert a xs in if before x a then x ∷ rest else a ∷ (x ∷ xs)

  sort : List A → List A
  unfolding insert
  sort [] = []
  sort (x ∷ xs) = insert x (sort xs)

pub data PolicyError : Type 0 where
  no_grace_period negative_keep unsupported_kind empty_budget duplicate_budget : PolicyError

abbrev pub is_cache : Str → Bool
is_cache kind = str_eq kind buildkit_cache || str_eq kind go_cache

-- The loop over the budgets, with the kinds that it has seen.
unfoldable pub check_budgets : List Str → List Budget → Result PolicyError (Unit {0})
check_budgets seen [] = ok tt
check_budgets seen (b ∷ bs) =
    let rest = check_budgets (b.kind ∷ seen) bs in
    if not (is_cache b.kind)
    then err PolicyError.unsupported_kind
    else if b.max_bytes == 0
    then err PolicyError.empty_budget
    else if member b.kind seen
    then err PolicyError.duplicate_budget
    else rest

no_budgets : List Budget → Bool
no_budgets [] = true
no_budgets (b ∷ bs) = false

abbrev is_zero : ℤ → Bool
is_zero d = leb_ℤ d (pos 0) && leb_ℤ (pos 0) d

-- The policy that stands in for one that is left empty.
given_policy : Policy → Policy
unfolding no_budgets
given_policy p =
    if is_zero p.grace_period && (is_zero p.keep_previous && no_budgets p.budgets)
    then default_policy
    else p

unfoldable pub normalize_policy : Policy → Result PolicyError Policy
unfolding given_policy sort
normalize_policy policy =
    let p = given_policy policy in
    let budgets = sort (λ (a : Budget) (b : Budget). str_lt a.kind b.kind) p.budgets in
    if leb_ℤ p.grace_period (pos 0)
    then err PolicyError.no_grace_period
    else if ltb_ℤ p.keep_previous (pos 0)
    then err PolicyError.negative_keep
    else (elim (check_budgets [] budgets) [
      | err e ↦ err e
      | ok u ↦ ok (record p { budgets = budgets })
    ])

-- A decision and the time of its candidate, if it is one.
abbrev pub Classified : Type 0
Classified = Decision × Option ℕ

abbrev time : Classified → ℕ
time p = elim p.1 [ none ↦ 0 | some t ↦ t ]

abbrev newer : Classified → Classified → Bool
newer p q =
    if time p == time q then str_lt p.0.artifact.id q.0.artifact.id else ltb (time q) (time p)

abbrev older : Classified → Classified → Bool
older p q =
    if time p == time q then str_lt p.0.artifact.id q.0.artifact.id else ltb (time p) (time q)

-- A candidate that is counted in the group of its kind and its retention group.
abbrev pub counted : Classified → Bool
counted p = is_some p.1 && member p.0.artifact.kind automatic_kinds

abbrev group_key : Artifact → Str
group_key a = a.kind ++ (0 ∷ a.retention_group)

unfoldable pub group_of : Artifact → List Classified → List Classified
unfolding sort
group_of a ps =
    sort newer (keep (λ p. counted p && str_eq (group_key p.0.artifact) (group_key a)) ps)

-- The place of an artifact in its sorted group.
unfoldable pub position : Str → List Classified → ℕ
position id [] = zero
position id (p ∷ ps) =
    let rest = position id ps in if str_eq p.0.artifact.id id then zero else suc rest

removal_reasons : Artifact → List Str
removal_reasons a =
    codes "superseded"
    ∷ ((if is_retired a then codes "immediate-retirement" else codes "grace-period-expired") ∷ [])

unfoldable pub retain : Policy → List Classified → Classified → Classified
unfolding removal_reasons
retain policy all (d, at) =
    let place = position d.artifact.id (group_of d.artifact all) in
    if not (counted (d, at))
    then (d, at)
    else if ltb_ℤ (pos place) policy.keep_previous
    then (record d { action = Action.keep; reasons = codes "keep-previous" ∷ [] }, at)
    else (record d { action = Action.remove; reasons = removal_reasons d.artifact }, at)

unfoldable pub apply_generation_count : Policy → List Classified → List Classified
apply_generation_count policy ps = map (retain policy ps) ps

-- The sum of the sizes of a kind, unless it overflows.
unfoldable pub total_of : Str → List Classified → ℕ → Option ℕ
total_of kind [] total = some total
total_of kind (p ∷ ps) total =
    let next = u64 (total + p.0.artifact.size_bytes) in
    let counting = total_of kind ps next in
    let passing = total_of kind ps total in
    if not (str_eq p.0.artifact.kind kind)
    then passing
    else if ltb next total
    then none
    else counting

unfoldable pub eligible : Str → List Classified → List Classified
eligible kind ps = keep (λ p. str_eq p.0.artifact.kind kind && is_some p.1) ps

-- The IDs of those that go until the rest fits.
unfoldable pub evicted : ℕ → ℕ → List Classified → List Str
evicted maximum total [] = []
evicted maximum total (p ∷ ps) =
    let rest = evicted maximum (total - p.0.artifact.size_bytes) ps in
    if leb total maximum then [] else p.0.artifact.id ∷ rest

unfoldable pub evict : List Str → Classified → Classified
evict ids (d, at) =
    if member d.artifact.id ids
    then (
      record d {
        action = Action.remove;
        reasons = codes "aggregate-budget-exceeded" ∷ (codes "grace-period-expired" ∷ []);
      },
      at,
    )
    else (d, at)

unfoldable pub apply_budget : Budget → List Classified → List Classified
unfolding sort
apply_budget b ps = elim (total_of b.kind ps 0) [
  | none ↦ ps
  | some total ↦
      if leb total b.max_bytes
      then ps
      else map (evict (evicted b.max_bytes total (sort older (eligible b.kind ps)))) ps
]

unfoldable pub apply_cache_budgets : List Budget → List Classified → List Classified
apply_cache_budgets [] ps = ps
apply_cache_budgets (b ∷ bs) ps = apply_cache_budgets bs (apply_budget b ps)

-- The decisions of Preview under a normalized policy.
unfoldable pub preview_decisions : ℕ → Policy → List Artifact → List Classified
preview_decisions now policy artifacts =
    apply_cache_budgets policy.budgets
      (apply_generation_count policy (map (classify_artifact now policy) artifacts))
