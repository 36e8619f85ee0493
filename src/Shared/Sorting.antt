-- ===== src/Shared/Sorting.antt =====
-- `sort.Slice`, as an insertion sort. The keys that the program sorts by differ, or the order of equal
-- ones does not matter.
use mathlib.Core.Bool.{Bool}
use mathlib.Core.List.{List, [], ◌∷◌}
use ephemeral_action_runner.Shared.Tests.{if◌then◌else◌, Bool-cases}
use ephemeral_action_runner.Shared.Lists.{All}
use mathlib.Core.Logic.{inl, inr}

module _ {ℓ} {A : Type ℓ} (before : A → A → Bool) where
  unfoldable pub insert : A → List A → List A
  insert a [] = a ∷ []
  insert a (x ∷ xs) = let rest = insert a xs in if before x a then x ∷ rest else a ∷ (x ∷ xs)

  unfoldable pub sort : List A → List A
  unfolding insert
  sort [] = []
  sort (x ∷ xs) = insert x (sort xs)

  module _ {κ} (P : A → Type κ) where
    All-insert : (a : A) (xs : List A) → P a → All P xs → All P (insert a xs)
    unfolding insert
    All-insert a [] p ps = (p, ps)
    All-insert a (x ∷ xs) p ps = elim (Bool-cases (before x a)) [
      | inl e ↦ rw (e, insert) (ps.0, All-insert a xs p ps.1)
      | inr e ↦ rw (e, insert) (p, ps)
    ]

    -- What holds of every element holds of every element of the sorted list.
    pub All-sort : (xs : List A) → All P xs → All P (sort xs)
    unfolding sort
    All-sort [] ps = ps
    All-sort (x ∷ xs) ps = All-insert x (sort xs) ps.0 (All-sort xs ps.1)
