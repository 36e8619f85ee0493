-- ===== src/Storage/Capacity/Sums.antt =====
-- What is charged to the domains of a phase, and what the peaks of the phases become.
use ephemeral_action_runner.Shared.{
  ℕ, ◌+◌, Str, str_eq, str_eq→≡, str_eq_refl, Bool, false, ◌||◌, List, [], ◌∷◌, if◌then◌else◌, ok,
  err, inl, inr, ◌≡◌, refl, subst, arith, Bool-cases,
}
use ephemeral_action_runner.Storage.Capacity.Types.{Surface, Allocation}
use ephemeral_action_runner.Storage.Capacity.Resolve.{
  Usage, used, put, is_used, resolve_allocation_surface,
}

pub used-put :
    (e d : Str) (n : ℕ) (us : Usage) → used e (put d n us) ≡ (if str_eq d e then n else used e us)
unfolding used put
used-put e d n [] = refl
used-put e d n (u ∷ us) = ground (
  arith,
  used-put e d n us,
  str_eq→≡ u.0 d,
  str_eq→≡ u.0 e,
  str_eq→≡ d e,
  str_eq_refl d,
  str_eq_refl e,
)

pub is_used-put :
    (e d : Str) (n : ℕ) (us : Usage) → is_used e (put d n us) ≡ (str_eq d e || is_used e us)
unfolding put
is_used-put e d n [] = refl
is_used-put e d n (u ∷ us) = ground (
  arith,
  is_used-put e d n us,
  str_eq→≡ u.0 d,
  str_eq→≡ u.0 e,
  str_eq→≡ d e,
  str_eq_refl d,
  str_eq_refl e,
)

-- A key that does not stand has no bytes.
pub used-unused : (e : Str) (us : Usage) → is_used e us ≡ false → used e us ≡ 0
unfolding used
used-unused e [] h = refl
used-unused e (u ∷ us) h = ground (arith, used-unused e us)

-- No key stands twice.
abbrev pub Unique : Usage → Type 0
Unique [] = Unit {0}
Unique (u ∷ us) = (is_used u.0 us ≡ false) × Unique us

pub Unique-put : (d : Str) (n : ℕ) (us : Usage) → Unique us → Unique (put d n us)
unfolding put
Unique-put d n [] v = (refl, tt)
Unique-put d n (u ∷ us) v = elim (Bool-cases (str_eq u.0 d)) [
  | inl e ↦ rw (e, put) (subst (λ x. is_used x us ≡ false) (str_eq→≡ u.0 d e) v.0, v.1)
  | inr e ↦
      rw (e, put)
        (
          ground (arith, is_used-put u.0 d n us, v.0, e, str_eq→≡ d u.0, str_eq_refl u.0),
          Unique-put d n us v.1,
        )
]

-- The bytes that a list of allocations takes of a domain.
abbrev pub goes_to : List Surface → Str → Allocation → Bool
goes_to surfaces d a = elim (resolve_allocation_surface a surfaces) [
  | ok s ↦ str_eq s.domain_id d
  | err e ↦ false
]

abbrev pub total : List Surface → Str → List Allocation → ℕ
total surfaces d [] = 0
total surfaces d (a ∷ as') =
    let rest = total surfaces d as' in if goes_to surfaces d a then a.bytes + rest else rest

abbrev pub any_to : List Surface → Str → List Allocation → Bool
any_to surfaces d [] = false
any_to surfaces d (a ∷ as') = goes_to surfaces d a || any_to surfaces d as'
