-- ===== src/PoolState/Lookup.antt =====
-- internal/pool/state/store.go: findRecord, the binary search by name, against a search from the left.
pub mod Search
use ephemeral_action_runner.Shared.{
  ℕ, ◌+◌, ◌/◌, zero, suc, Str, Bool, true, false, not, ◌&&◌, List, [], ◌∷◌, Option, none, some, ltb,
  if◌then◌else◌, length, get_elem?, str_eq, str_lt, ◌≡◌, map, All,
}
use ephemeral_action_runner.PoolState.Types.{Record}

-- The loop of `sort.Search` with fuel; a round at least halves the range, so the length is enough.
unfoldable pub search : ℕ → (ℕ → Bool) → ℕ → ℕ → ℕ
search zero f i j = i
search (suc n) f i j =
    let h = (i + j) / 2 in
    let left = search n f i h in
    let right = search n f (h + 1) j in if ltb i j then (if f h then left else right) else i

-- `records[i].Name >= name`; the search asks only within the list.
unfoldable pub from_name : List Record → Str → ℕ → Bool
from_name records name i = elim (get_elem? records i) [
  | none ↦ true
  | some r ↦ not (str_lt r.name name)
]

unfoldable pub named : List Record → Str → ℕ → Bool
named records name i = elim (get_elem? records i) [ none ↦ false | some r ↦ str_eq r.name name ]

unfoldable pub find_record : List Record → Str → ℕ × Bool
unfolding search from_name named
find_record records name =
    let index = search (length records) (from_name records name) 0 (length records) in
    (index, named records name index)

-- The first record of a name, from the left.
unfoldable pub lookup : Str → List Record → Option Record
lookup name [] = none
lookup name (r ∷ rs) = if str_eq r.name name then some r else lookup name rs

-- The names rise strictly.
abbrev pub Above : Str → List Record → Type 0
Above k rs = All (λ r. str_lt k r.name ≡ true) rs

abbrev pub Rising : List Record → Type 0
Rising [] = Unit {0}
Rising (r ∷ rs) = Above r.name rs × Rising rs
