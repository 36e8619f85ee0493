-- ===== src/PoolState/Store/Leases.antt =====
-- What acquiring and releasing a lease does to the leases of a record.
use ephemeral_action_runner.Shared.{
  ℕ, Str, Bool, true, false, not, ◌&&◌, List, [], ◌∷◌, ◌++◌, ok, keep, str_eq, ◌≡◌, refl, arith,
  All, str_eq_refl, str_eq→≡, ◌∙◌,
}
use mathlib.Core.List.{append-nil}
use ephemeral_action_runner.PoolState.Types.{Lease, Record}
use ephemeral_action_runner.PoolState.Transition.{is_active}
use ephemeral_action_runner.PoolState.Store.{held_by, with_lease, without_lease}

-- The leases of a holder.
abbrev pub of_holder : Str → Str → List Lease → List Lease
of_holder purpose holder = keep (held_by purpose holder)

-- Two filters, of which the second asks for less than what the first one let through.
keep-append {ℓ} :
    {A : Type ℓ} (p : A → Bool) (xs ys : List A) → keep p (xs ++ ys) ≡ keep p xs ++ keep p ys
keep-append p [] ys = refl
keep-append p (x ∷ xs) ys = ground (arith, keep-append p xs ys)

module _ {ℓ κ} {A : Type ℓ} (P : A → Type κ) where
  All-append : (front back : List A) → All P front → All P back → All P (front ++ back)
  All-append [] back none_first all = all
  All-append (l ∷ front) back some_first all =
      (some_first.0, All-append front back some_first.1 all)

abbrev IsLive : ℕ → Lease → Type 0
IsLive now l = is_active now l ≡ true

kept_live :
    (now : ℕ) (b : Lease → Bool) (ls : List Lease)
    → All (IsLive now) (keep (λ l. is_active now l && b l) ls)
kept_live now b [] = tt
kept_live now b (l ∷ ls) = ground (arith, kept_live now b ls)

-- The same with the tests the other way round, as the release writes them.
kept_live' :
    (now : ℕ) (b : Lease → Bool) (ls : List Lease)
    → All (IsLive now) (keep (λ l. b l && is_active now l) ls)
kept_live' now b [] = tt
kept_live' now b (l ∷ ls) = ground (arith, kept_live' now b ls)

-- The holder's own leases are dropped.
dropped :
    (now : ℕ) (p h : Str) (ls : List Lease)
    → of_holder p h (keep (λ l. is_active now l && not (held_by p h l)) ls) ≡ []
dropped now p h [] = refl
dropped now p h (l ∷ ls) = ground (arith, dropped now p h ls)

-- Every other holder's leases stay, if they are active.
others :
    (now : ℕ) (p h p' h' : Str) (ls : List Lease)
    → (str_eq p p' && str_eq h h') ≡ false
    → of_holder p' h' (keep (λ l. is_active now l && not (held_by p h l)) ls)
      ≡ keep (λ l. is_active now l && held_by p' h' l) ls
others now p h p' h' [] e = refl
others now p h p' h' (l ∷ ls) e = ground (
  arith,
  others now p h p' h' ls e,
  str_eq→≡ l.purpose p,
  str_eq→≡ l.purpose p',
  str_eq→≡ l.holder h,
  str_eq→≡ l.holder h',
  str_eq_refl p,
  str_eq_refl h,
)

dropped' :
    (now : ℕ) (p h : Str) (ls : List Lease)
    → of_holder p h (keep (λ l. not (held_by p h l) && is_active now l) ls) ≡ []
dropped' now p h [] = refl
dropped' now p h (l ∷ ls) = ground (arith, dropped' now p h ls)

others' :
    (now : ℕ) (p h p' h' : Str) (ls : List Lease)
    → (str_eq p p' && str_eq h h') ≡ false
    → of_holder p' h' (keep (λ l. not (held_by p h l) && is_active now l) ls)
      ≡ keep (λ l. is_active now l && held_by p' h' l) ls
others' now p h p' h' [] e = refl
others' now p h p' h' (l ∷ ls) e = ground (
  arith,
  others' now p h p' h' ls e,
  str_eq→≡ l.purpose p,
  str_eq→≡ l.purpose p',
  str_eq→≡ l.holder h,
  str_eq→≡ l.holder h',
  str_eq_refl p,
  str_eq_refl h,
)

-- What a holder's leases become, of which only the active ones count.
abbrev pub active_of : ℕ → Str → Str → List Lease → List Lease
active_of now p h = keep (λ l. is_active now l && held_by p h l)

-- After a lease is acquired, every lease of the record is active, its holder has this lease for this
-- purpose and no other, and every other holder keeps exactly its active leases.
pub with_lease-leases :
    (lease : Lease) (now : ℕ) (r : Record) {r' : Record}
    → with_lease lease now r ≡ ok r'
    → All (λ l. is_active now l ≡ true) r'.leases
      × (of_holder lease.purpose lease.holder r'.leases ≡ lease ∷ [])
      × ((p h : Str)
          → (str_eq lease.purpose p && str_eq lease.holder h) ≡ false
          → of_holder p h r'.leases ≡ active_of now p h r.leases)
unfolding with_lease
with_lease-leases lease now r {r'} e =
    let rest = keep (λ l. is_active now l && not (held_by lease.purpose lease.holder l)) r.leases in
    let leases : r'.leases ≡ rest ++ lease ∷ [] = ground arith in
    let live : is_active now lease ≡ true = ground arith in
    (
      rw leases (All-append _ rest (lease ∷ []) (kept_live now _ r.leases) (live, tt)),
      rw (leases, keep-append (held_by lease.purpose lease.holder) rest (lease ∷ []))
          (ground (
            arith,
            dropped now lease.purpose lease.holder r.leases,
            str_eq_refl lease.purpose,
            str_eq_refl lease.holder,
          )),
      λ p h other.
          rw (leases, keep-append (held_by p h) rest (lease ∷ []), other)
            (append-nil _ ∙ others now lease.purpose lease.holder p h r.leases other),
    )

-- After a release, every lease of the record is active, the holder has none for this purpose, and
-- every other holder keeps exactly its active leases.
pub without_lease-leases :
    (purpose holder : Str) (now : ℕ) (r : Record) {r' : Record}
    → without_lease purpose holder now r ≡ ok r'
    → All (λ l. is_active now l ≡ true) r'.leases
      × (of_holder purpose holder r'.leases ≡ [])
      × ((p h : Str)
          → (str_eq purpose p && str_eq holder h) ≡ false
          → of_holder p h r'.leases ≡ active_of now p h r.leases)
unfolding without_lease
without_lease-leases purpose holder now r {r'} e =
    let leases : r'.leases
        ≡ keep (λ l. not (held_by purpose holder l) && is_active now l) r.leases =
      ground arith in
    (
      rw leases (kept_live' now _ r.leases),
      rw leases (dropped' now purpose holder r.leases),
      λ p h other. rw leases (others' now purpose holder p h r.leases other),
    )
