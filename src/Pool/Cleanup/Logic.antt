-- ===== src/Pool/Cleanup/Logic.antt =====
-- What a computation over the world leaves, as a property before it and one after it.
use ephemeral_action_runner.Shared.{
  Bool, true, false, ◌≡◌, inl, inr, refl, subst, arith, ok, Result-cases, if◌then◌else◌,
}
use ephemeral_action_runner.Pool.Cleanup.Host.{
  RecordStore, Host, CleanupError, World, M, ◌>>=◌, pure, fail,
}

module _ (h : Host) (s : RecordStore) where
  -- A computation leaves a property of the world as it was, whether it fails or not.
  pub record Keeps (P : World h s → Type 0) {A : Type 0} (m : M h s A) : Type 0 where
    pub kept : (w : World h s) → P w → P (m w).0

  pub Keeps-bind :
      {P : World h s → Type 0} {A B : Type 0} {m : M h s A} {f : A → M h s B}
      → Keeps P m
      → ((a : A) → Keeps P (f a))
      → Keeps P (m >>= f)
  unfolding ◌>>=◌
  Keeps-bind {P} {m = m} keeps after = record {
    kept = λ w p. elim (Result-cases (m w).1) [
      | inl (a, e) ↦ rw (e, ◌>>=◌) ((after a).kept (m w).0 (keeps.kept w p))
      | inr (x, e) ↦ rw (e, ◌>>=◌) (keeps.kept w p)
    ];
  }

  -- The same, where what follows relies on a fact of the result.
  pub Keeps-bind_fact :
      {P : World h s → Type 0} {A B : Type 0} {m : M h s A} {f : A → M h s B} (F : A → Type 0)
      → Keeps P m
      → ((w : World h s) → P w → (a : A) → (m w).1 ≡ ok a → F a)
      → ((a : A) → F a → Keeps P (f a))
      → Keeps P (m >>= f)
  unfolding ◌>>=◌
  Keeps-bind_fact {P} {m = m} F keeps fact after = record {
    kept = λ w p. elim (Result-cases (m w).1) [
      | inl (a, e) ↦ rw (e, ◌>>=◌) ((after a (fact w p a e)).kept (m w).0 (keeps.kept w p))
      | inr (x, e) ↦ rw (e, ◌>>=◌) (keeps.kept w p)
    ];
  }

  pub Keeps-if :
      {P : World h s → Type 0} {A : Type 0} (b : Bool) {m k : M h s A}
      → Keeps P m
      → Keeps P k
      → Keeps P (if b then m else k)
  Keeps-if true p q = p
  Keeps-if false p q = q

  -- The same, where the test is known in each branch.
  pub Keeps-test :
      {P : World h s → Type 0} {A : Type 0} (b : Bool) {m k : M h s A}
      → (b ≡ true → Keeps P m)
      → (b ≡ false → Keeps P k)
      → Keeps P (if b then m else k)
  Keeps-test true p q = p refl
  Keeps-test false p q = q refl

  pub Keeps-pure : {P : World h s → Type 0} {A : Type 0} {a : A} → Keeps P (pure a)
  Keeps-pure = record { kept = λ w p. p }

  pub Keeps-fail :
      {P : World h s → Type 0} {A : Type 0} {x : CleanupError} → Keeps P {A = A} (fail x)
  Keeps-fail = record { kept = λ w p. p }

  -- A computation that never goes through.
  pub record Fails {A : Type 0} (m : M h s A) : Type 0 where
    pub never : (w : World h s) (a : A) → ¬ ((m w).1 ≡ ok a)

  pub Fails-fail : {A : Type 0} {x : CleanupError} → Fails {A = A} (fail x)
  Fails-fail = record { never = λ w a e. ground arith }

  pub Fails-bind :
      {A B : Type 0} (m : M h s A) {f : A → M h s B} → ((a : A) → Fails (f a)) → Fails (m >>= f)
  unfolding ◌>>=◌
  Fails-bind m after = record {
    never = λ w b e. elim (Result-cases (m w).1) [
      | inl (a, i) ↦ (after a).never (m w).0 b (rw (i, ◌>>=◌) at e)
      | inr (x, i) ↦ ground (arith, rw (i, ◌>>=◌) at e)
    ];
  }

  -- What a computation that went through leaves.
  pub record Gives (P : World h s → Type 0) {A : Type 0} (m : M h s A) (Q : A → World h s → Type 0)
      : Type 0 where
    pub given : (w : World h s) → P w → (a : A) → (m w).1 ≡ ok a → Q a (m w).0

  pub Gives-bind :
      {P : World h s → Type 0} {A B : Type 0} {R : A → World h s → Type 0}
      {Q : B → World h s → Type 0} {m : M h s A} {f : A → M h s B}
      → Gives P m R
      → ((a : A) → Gives (R a) (f a) Q)
      → Gives P (m >>= f) Q
  unfolding ◌>>=◌
  Gives-bind {m = m} first after = record {
    given = λ w p b e. elim (Result-cases (m w).1) [
      | inl (a, i) ↦
          rw (i, ◌>>=◌) ((after a).given (m w).0 (first.given w p a i) b (rw (i, ◌>>=◌) at e))
      | inr (x, i) ↦ absurd (ground (arith, rw (i, ◌>>=◌) at e))
    ];
  }

  pub Gives-if :
      {P : World h s → Type 0} {A : Type 0} {Q : A → World h s → Type 0} (b : Bool) {m k : M h s A}
      → Gives P m Q
      → Gives P k Q
      → Gives P (if b then m else k) Q
  Gives-if true p q = p
  Gives-if false p q = q

  pub Gives_of_Keeps :
      {P : World h s → Type 0} {A : Type 0} {m : M h s A} → Keeps P m → Gives P m (λ a. P)
  Gives_of_Keeps keeps = record { given = λ w p a e. keeps.kept w p }

  pub Gives_of_Fails :
      {P : World h s → Type 0} {A : Type 0} {Q : A → World h s → Type 0} {m : M h s A}
      → Fails m
      → Gives P m Q
  Gives_of_Fails fails = record { given = λ w p a e. absurd (fails.never w a e) }

  pub Gives-pure :
      {P : World h s → Type 0} {A : Type 0} {Q : A → World h s → Type 0} {a : A}
      → ((w : World h s) → P w → Q a w)
      → Gives P (pure a) Q
  Gives-pure {Q = Q} {a = a} follows = record {
    given = λ w p b e. let it : a ≡ b = ground (arith, e) in subst (λ x. Q x w) it (follows w p);
  }

module _ (h : Host) (s : RecordStore) where
  -- A property of the records only.
  abbrev pub On : (s.State → Type 0) → World h s → Type 0
  On Q w = Q w.records
