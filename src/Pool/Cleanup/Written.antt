-- ===== src/Pool/Cleanup/Written.antt =====
-- What the operations on a loaded snapshot find and write, for the interface of the cleanup.
use mathlib.Core.Option
use ephemeral_action_runner.Shared.{
  ℕ, Str, str_eq→≡, ◌≡◌, refl, sym, ◌∙◌, subst, arith, Option, none, some, ok, Bool-cases,
  Result-cases, inl, inr, List, [], ◌∷◌,
}
use ephemeral_action_runner.PoolState.Types.{Record, Lease, Discovery}
use ephemeral_action_runner.PoolState.Validate.{DiskState}
use ephemeral_action_runner.PoolState.Transition.{Outcome}
use ephemeral_action_runner.PoolState.Lookup.{Rising, lookup, find_record}
use ephemeral_action_runner.PoolState.Lookup.Search.{find_record-lookup, find_record-some}
use ephemeral_action_runner.PoolState.Store.{
  update_in, write_back, report_unknown_in, with_lease, without_lease,
}
use ephemeral_action_runner.PoolState.Disk.Encoding.{stored_record}
use ephemeral_action_runner.PoolState.Disk.ReadBack.{or_not_found}
use ephemeral_action_runner.Pool.Cleanup.Host.{IsKept, SameLife}

-- What an update found and what it wrote.
pub record IsChanged (f : Record → Outcome) (before after : Option Record) : Type 0 where
  pub old : Record
  pub new : Record
  pub next : Record
  pub was : before ≡ some old
  pub changed : f old ≡ ok new
  pub life : SameLife new next
  pub is_now : after ≡ some next

pub lookup-updated :
    (name : Str) (f : Record → Outcome) (s : DiskState) (now : ℕ) {r : Record} {s' : DiskState}
    → Rising s.records
    → update_in name f s now ≡ ok (r, s')
    → (old : Record) × (new : Record) × (lookup name s.records ≡ some old)
      × (f old ≡ ok new)
      × SameLife new r
unfolding update_in write_back
lookup-updated name f s now v e = elim (Bool-cases (find_record s.records name).1) [
  | inr missed ↦ absurd (ground arith)
  | inl hit ↦
      let (old, at, same) = find_record-some s.records name hit in
      let stands = (find_record-lookup s.records name v).0 hit in
      elim (Result-cases (f old)) [
        | inr (x, bad) ↦ absurd (ground arith)
        | inl (new, good) ↦ (
          old,
          new,
          sym stands ∙ at,
          good,
          record {
            phase = ground arith;
            uncertain = ground arith;
            provider = ground arith;
            runner = ground arith;
          },
        )
      ]
]

pub stored-life : (r : Record) → SameLife r (stored_record r)
unfolding stored_record
stored-life r = record { phase = refl; uncertain = refl; provider = refl; runner = refl }

pub SameLife-trans : {r q t : Record} → SameLife r q → SameLife q t → SameLife r t
SameLife-trans a b = record {
  phase = b.phase ∙ a.phase;
  uncertain = b.uncertain ∙ a.uncertain;
  provider = b.provider ∙ a.provider;
  runner = b.runner ∙ a.runner;
}

pub IsKept-storing : (o : Option Record) → IsKept o (Option.map stored_record o)
IsKept-storing none = record { back = λ q e. absurd (ground (arith, e)) }
IsKept-storing (some r) = record {
  back = λ q e. (r, refl, subst (SameLife r) (ground (arith, e)) (stored-life r));
}

pub lookup-answer : (o : Option Record) {r : Record} → or_not_found o ≡ ok r → o ≡ some r
lookup-answer none e = absurd (ground (arith, e))
lookup-answer (some q) e = ground (arith, e)

pub lookup-name : (n : Str) (rs : List Record) {r : Record} → lookup n rs ≡ some r → r.name ≡ n
unfolding lookup
lookup-name n [] e = absurd (ground (arith, e))
lookup-name n (x ∷ rs) {r} e = ground (arith, lookup-name n rs {r = r}, str_eq→≡ x.name n)

pub with_lease-life :
    (l : Lease) (now : ℕ) (r : Record) {q : Record} → with_lease l now r ≡ ok q → SameLife r q
unfolding with_lease
with_lease-life l now r e = record {
  phase = ground arith;
  uncertain = ground arith;
  provider = ground arith;
  runner = ground arith;
}

pub without_lease-life :
    (p h : Str) (now : ℕ) (r : Record) {q : Record} → without_lease p h now r ≡ ok q → SameLife r q
unfolding without_lease
without_lease-life p h now r e = record {
  phase = ground arith;
  uncertain = ground arith;
  provider = ground arith;
  runner = ground arith;
}

pub report_unknown_in-records :
    (x : Discovery) (s : DiskState) (now : ℕ) {y : Discovery} {s' : DiskState}
    → report_unknown_in x s now ≡ ok (y, s')
    → s'.records ≡ s.records
unfolding report_unknown_in
report_unknown_in-records x s now e = ground arith
