-- ===== src/PoolState/Lookup/Search.antt =====
-- The binary search finds what the search from the left finds, on a list whose names rise.
use ephemeral_action_runner.Shared.{
  ℕ, ◌+◌, ◌/◌, ◌<◌, ◌≤◌, zero, suc, Str, Bool, true, false, List, [], ◌∷◌, none, some, ltb, length,
  get_elem?, str_eq, str_lt, ◌≡◌, arith, Bool-cases, Option-cases, inl, inr, str_lt→ne, str_eq→≡,
  str_lt_trans, refl, str_lt_connex, str_lt_irrefl, dec_lt,
}
use ephemeral_action_runner.PoolState.Types.{Record}
use ephemeral_action_runner.PoolState.Lookup.{
  search, from_name, named, find_record, lookup, Above, Rising,
}

abbrev Monotone : (ℕ → Bool) → Type 0
Monotone f = (a b : ℕ) → a ≤ b → f a ≡ true → f b ≡ true

-- The least index of the range at which the test holds, or its end.
record IsLeast (f : ℕ → Bool) (i j r : ℕ) : Type 0 where
  lower : i ≤ r
  upper : r ≤ j
  below : (k : ℕ) → i ≤ k → k < r → f k ≡ false
  holds : r < j → f r ≡ true

below_test : (f : ℕ → Bool) → Monotone f → (h k : ℕ) → f h ≡ false → k ≤ h → f k ≡ false
below_test f mono h k e le = elim (Bool-cases (f k)) [ inl t ↦ cc (mono k h le t) | inr e' ↦ e' ]

go_left : (f : ℕ → Bool) (i h j r : ℕ) → h ≤ j → f h ≡ true → IsLeast f i h r → IsLeast f i j r
go_left f i h j r le t l = record {
  lower = l.lower;
  upper = omega (arith, l.upper);
  below = l.below;
  holds = λ _. elim (dec_lt r h) [
    | yes p ↦ l.holds p
    | no p ↦ let e : r ≡ h = omega (arith, l.upper) in rw e t
  ];
}

go_right :
    (f : ℕ → Bool)
    → Monotone f
    → (i h j r : ℕ) → f h ≡ false
    → i ≤ h
    → IsLeast f (h + 1) j r
    → IsLeast f i j r
go_right f mono i h j r e le l = record {
  lower = omega (arith, l.lower);
  upper = l.upper;
  below = λ k a b. elim (dec_lt h k) [
    | yes p ↦ l.below k (omega arith) b
    | no p ↦ below_test f mono h k e (omega arith)
  ];
  holds = l.holds;
}

search-IsLeast :
    (f : ℕ → Bool) → Monotone f → (n i j : ℕ) → j ≤ i + n → i ≤ j → IsLeast f i j (search n f i j)
unfolding search
search-IsLeast f mono zero i j h le = record {
  lower = omega arith;
  upper = le;
  below = λ k a b. absurd (omega arith);
  holds = λ lt. absurd (omega arith);
}
search-IsLeast f mono (suc n) i j h le = elim (Bool-cases (ltb i j)) [
  | inl more ↦ elim (Bool-cases (f ((i + j) / 2))) [
    | inl t ↦
        rw (more, t)
          (go_left f i ((i + j) / 2) j _ (ground arith) t
            (search-IsLeast f mono n i ((i + j) / 2) (ground arith) (ground arith)))
    | inr e ↦
        rw (more, e)
          (go_right f mono i ((i + j) / 2) j _ e (ground arith)
            (search-IsLeast f mono n ((i + j) / 2 + 1) j (ground arith) (ground arith)))
  ]
  | inr done ↦ rw done (record {
    lower = omega arith;
    upper = le;
    below = λ k a b. absurd (omega arith);
    holds = λ lt. absurd (ground arith);
  })
]

pub Above-get_elem? :
    (k : Str) (rs : List Record) (i : ℕ) {r : Record}
    → Above k rs
    → get_elem? rs i ≡ some r
    → str_lt k r.name ≡ true
Above-get_elem? k [] i a e = ground arith
Above-get_elem? k (x ∷ rs) zero a e = ground arith
Above-get_elem? k (x ∷ rs) (suc i) a e = Above-get_elem? k rs i a.1 e

-- The test of the search is monotone on a rising list.
from_name-Monotone : (rs : List Record) (name : Str) → Rising rs → Monotone (from_name rs name)
unfolding from_name
from_name-Monotone [] name v a b le h = refl
from_name-Monotone (r ∷ rs) name v zero zero le h = h
from_name-Monotone (r ∷ rs) name v zero (suc b) le h = elim (Option-cases (get_elem? rs b)) [
  | inl e ↦ rw (e, from_name)
  | inr (x, e) ↦ ground (arith, Above-get_elem? r.name rs b v.0 e, str_lt_trans r.name x.name name)
]
from_name-Monotone (r ∷ rs) name v (suc a) zero le h = absurd (omega arith)
from_name-Monotone (r ∷ rs) name v (suc a) (suc b) le h =
    from_name-Monotone rs name v.1 a b (omega arith) h

-- On a rising list the record at an index of a name is the first of that name.
named-lookup :
    (rs : List Record) (name : Str) (i : ℕ)
    → Rising rs
    → named rs name i ≡ true
    → get_elem? rs i ≡ lookup name rs
unfolding named lookup
named-lookup [] name i v h = ground arith
named-lookup (r ∷ rs) name zero v h = ground arith
named-lookup (r ∷ rs) name (suc i) v h = elim (Option-cases (get_elem? rs i)) [
  | inl e ↦ ground arith
  | inr (x, e) ↦ ground (
    arith,
    Above-get_elem? r.name rs i v.0 e,
    str_eq→≡ x.name name,
    str_lt→ne r.name name,
    named-lookup rs name i v.1,
  )
]

Above-lookup :
    (k name : Str) (rs : List Record) → Above k rs → str_lt name k ≡ true → lookup name rs ≡ none
unfolding lookup
Above-lookup k name [] a h = refl
Above-lookup k name (r ∷ rs) a h = ground (
  arith,
  str_lt_trans name k r.name,
  str_eq→≡ r.name name,
  str_lt→ne name r.name,
  str_lt_irrefl name,
  Above-lookup k name rs a.1 h,
)

-- No record has the name if those before the index come before it and the one there is another.
absent-lookup :
    (rs : List Record) (name : Str) (i : ℕ)
    → Rising rs
    → ((k : ℕ) → k < i → from_name rs name k ≡ false)
    → (i < length rs → from_name rs name i ≡ true)
    → named rs name i ≡ false
    → lookup name rs ≡ none
unfolding named lookup from_name
absent-lookup [] name i v b a h = refl
absent-lookup (r ∷ rs) name zero v b a h =
    ground (arith, a (omega arith), str_lt_connex r.name name, Above-lookup r.name name rs v.0)
absent-lookup (r ∷ rs) name (suc i) v b a h = ground (
  arith,
  b zero,
  str_eq→≡ r.name name,
  str_lt→ne r.name name,
  absent-lookup rs name i v.1 (λ k lt. b (suc k) (omega arith)) (λ lt. a (omega arith)) h,
)

-- In a list of records that rise strictly by name, what `find_record` answers is what the search from
-- the left finds: an index of the first record of the name, or no index if there is none.
pub find_record-lookup :
    (rs : List Record) (name : Str)
    → Rising rs
    → ((find_record rs name).1 ≡ true → get_elem? rs (find_record rs name).0 ≡ lookup name rs)
      × ((find_record rs name).1 ≡ false → lookup name rs ≡ none)
unfolding find_record
find_record-lookup rs name v =
    let l =
      search-IsLeast (from_name rs name) (from_name-Monotone rs name v) (length rs) 0 (length rs)
        (omega arith) (omega arith) in
    (
      named-lookup rs name _ v,
      absent-lookup rs name _ v (λ k lt. l.below k (omega arith) lt) l.holds,
    )

named-some :
    (rs : List Record) (name : Str) (i : ℕ)
    → named rs name i ≡ true
    → (r : Record) × (get_elem? rs i ≡ some r) × (str_eq r.name name ≡ true)
unfolding named
named-some rs name i h = elim (Option-cases (get_elem? rs i)) [
  | inl e ↦ absurd (ground arith)
  | inr (r, e) ↦ (r, e, ground arith)
]

pub find_record-some :
    (rs : List Record) (name : Str)
    → (find_record rs name).1 ≡ true
    → (r : Record) × (get_elem? rs (find_record rs name).0 ≡ some r) × (str_eq r.name name ≡ true)
unfolding find_record
find_record-some rs name h = named-some rs name _ h
