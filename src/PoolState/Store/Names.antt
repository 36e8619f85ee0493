-- ===== src/PoolState/Store/Names.antt =====
-- How a write to a rising list and a sorted insertion change what the names find.
use ephemeral_action_runner.Shared.{
  ℕ, zero, suc, Str, List, [], ◌∷◌, ◌++◌, Option, none, some, if◌then◌else◌, get_elem?, set, str_eq,
  ◌≡◌, refl, arith, str_eq→≡, str_eq_refl, str_lt→ne, str_lt_irrefl, ap, ◌∙◌,
}
use ephemeral_action_runner.PoolState.Types.{Record}
use ephemeral_action_runner.PoolState.Lookup.{lookup, Rising, Above}
use ephemeral_action_runner.PoolState.Lookup.Search.{Above-get_elem?}
use ephemeral_action_runner.PoolState.Store.{insert, sort}

pub lookup-set :
    (n : Str) (rs : List Record) (i : ℕ) (q : Record) {r : Record}
    → Rising rs
    → get_elem? rs i ≡ some r
    → r.name ≡ q.name
    → lookup n (set rs i q) ≡ (if str_eq q.name n then some q else lookup n rs)
unfolding lookup
lookup-set n [] i q v e h = ground arith
lookup-set n (x ∷ rs) zero q v e h = ground arith
lookup-set n (x ∷ rs) (suc i) q v e h = ground (
  arith,
  Above-get_elem? x.name rs i v.0 e,
  str_lt→ne x.name q.name,
  str_eq→≡ x.name n,
  str_eq→≡ q.name n,
  str_eq_refl n,
  lookup-set n rs i q v.1 e h,
)

lookup-insert :
    (n : Str) (q : Record) (rs : List Record)
    → lookup q.name rs ≡ none
    → lookup n (insert (λ (x : Record). x.name) q rs)
      ≡ (if str_eq q.name n then some q else lookup n rs)
unfolding lookup insert
lookup-insert n q [] h = refl
lookup-insert n q (x ∷ rs) h =
    ground (arith, str_eq→≡ x.name n, str_eq→≡ q.name n, str_eq_refl n, lookup-insert n q rs)

abbrev Distinct : List Record → Type 0
Distinct [] = Unit {0}
Distinct (x ∷ xs) = (lookup x.name xs ≡ none) × Distinct xs

lookup-sort :
    (n : Str) (rs : List Record)
    → Distinct rs
    → lookup n (sort (λ (x : Record). x.name) rs) ≡ lookup n rs
unfolding sort lookup
lookup-sort n [] d = refl
lookup-sort n (x ∷ rs) d =
    lookup-insert n x (sort (λ (y : Record). y.name) rs) (lookup-sort x.name rs d.1 ∙ d.0)
    ∙ ap (λ (o : Option Record). if str_eq x.name n then some x else o) (lookup-sort n rs d.1)

lookup-append :
    (n : Str) (rs : List Record) (q : Record)
    → lookup n (rs ++ q ∷ [])
      ≡ (elim (lookup n rs) [ none ↦ (if str_eq q.name n then some q else none) | some r ↦ some r ])
unfolding lookup
lookup-append n [] q = refl
lookup-append n (x ∷ rs) q = ground (arith, lookup-append n rs q)

Above-absent : (k : Str) (rs : List Record) → Above k rs → lookup k rs ≡ none
unfolding lookup
Above-absent k [] a = refl
Above-absent k (x ∷ rs) a =
    ground (arith, str_eq→≡ x.name k, str_lt_irrefl k, Above-absent k rs a.1)

Rising-Distinct : (rs : List Record) → Rising rs → Distinct rs
Rising-Distinct [] v = tt
Rising-Distinct (x ∷ rs) v = (Above-absent x.name rs v.0, Rising-Distinct rs v.1)

Distinct-append :
    (rs : List Record) (q : Record)
    → Distinct rs
    → lookup q.name rs ≡ none
    → Distinct (rs ++ q ∷ [])
unfolding lookup
Distinct-append [] q d h = (refl, tt)
Distinct-append (x ∷ rs) q d h = (
  ground (arith, lookup-append x.name rs q, str_eq→≡ q.name x.name, str_eq_refl q.name),
  Distinct-append rs q d.1 (ground arith),
)

-- The record of a new name joins the others.
pub lookup-sort_new :
    (n : Str) (rs : List Record) (q : Record)
    → Rising rs
    → lookup q.name rs ≡ none
    → lookup n (sort (λ (x : Record). x.name) (rs ++ q ∷ []))
      ≡ (if str_eq q.name n then some q else lookup n rs)
lookup-sort_new n rs q v h =
    lookup-sort n (rs ++ q ∷ []) (Distinct-append rs q (Rising-Distinct rs v) h)
    ∙ ground (arith, lookup-append n rs q, str_eq→≡ q.name n)
