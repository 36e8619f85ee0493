-- ===== src/Storage/Capacity/Peaks.antt =====
-- The peak of each domain over the phases.
use ephemeral_action_runner.Shared.{
  ℕ, ◌+◌, Str, str_eq, str_eq→≡, Bool, false, not, ◌||◌, ltb, List, [], ◌∷◌, if◌then◌else◌, ok,
  >>=-eq-ok, inl, inr, ◌≡◌, refl, ap, ◌∙◌, subst, arith, Bool-cases,
}
use ephemeral_action_runner.Storage.Capacity.Types.{
  Surface, CapacityDomain, Allocation, OperationPhase, ResolvedAllocation,
}
use ephemeral_action_runner.Storage.Capacity.Resolve.{
  Usage, used, put, is_used, charge, raise_peak, raise_peaks, resolve_allocation_surface,
  known_domain, resolve_allocations, resolve_phases,
}
use ephemeral_action_runner.Storage.Capacity.Sums.{
  used-put, is_used-put, used-unused, Unique, Unique-put, total, any_to,
}

-- What a phase adds to the map of its domains.
record IsCharged (amount : Str → ℕ) (touched : Str → Bool) (us us' : Usage) : Type 0 where
  sums : (e : Str) → used e us' ≡ used e us + amount e
  keys : (e : Str) → is_used e us' ≡ (touched e || is_used e us)
  unique : Unique us → Unique us'

charge-IsCharged :
    (d : Str) (n : ℕ) (us : Usage) {us' : Usage}
    → charge d n us ≡ ok us'
    → IsCharged (λ e. if str_eq d e then n else 0) (λ e. str_eq d e) us us'
unfolding charge
charge-IsCharged d n us {us'} h =
    let it : put d (used d us + n) us ≡ us' = ground (arith, h) in
    subst (IsCharged (λ e. if str_eq d e then n else 0) (λ e. str_eq d e) us) it (record {
      sums = λ e. ground (arith, used-put e d (used d us + n) us, str_eq→≡ d e);
      keys = λ e. is_used-put e d (used d us + n) us;
      unique = Unique-put d (used d us + n) us;
    })

abbrev pub larger : ℕ → ℕ → ℕ
larger a b = if ltb a b then b else a

larger_assoc : (a b c : ℕ) → larger (larger a b) c ≡ larger a (larger b c)
larger_assoc a b c = ground arith

raise_peak-used :
    (e : Str) (u : Str × ℕ) (peaks : Usage)
    → used e (raise_peak u peaks) ≡ larger (used e peaks) (if str_eq u.0 e then u.1 else 0)
unfolding raise_peak
raise_peak-used e u peaks =
    ground (arith, used-put e u.0 u.1 peaks, used-unused u.0 peaks, str_eq→≡ u.0 e)

raise_peak-is_used :
    (e : Str) (u : Str × ℕ) (peaks : Usage)
    → is_used e (raise_peak u peaks) ≡ (str_eq u.0 e || is_used e peaks)
unfolding raise_peak
raise_peak-is_used e u peaks = ground (arith, is_used-put e u.0 u.1 peaks, str_eq→≡ u.0 e)

Unique-raise_peak : (u : Str × ℕ) (peaks : Usage) → Unique peaks → Unique (raise_peak u peaks)
unfolding raise_peak
Unique-raise_peak u peaks v =
    elim (Bool-cases (not (is_used u.0 peaks) || ltb (used u.0 peaks) u.1)) [
      | inl e ↦ rw (e, raise_peak) (Unique-put u.0 u.1 peaks v)
      | inr e ↦ rw (e, raise_peak) v
    ]

-- What the peaks become.
record IsRaised (amount : Str → ℕ) (touched : Str → Bool) (peaks peaks' : Usage) : Type 0 where
  tops : (e : Str) → used e peaks' ≡ larger (used e peaks) (amount e)
  keys : (e : Str) → is_used e peaks' ≡ (touched e || is_used e peaks)
  unique : Unique peaks → Unique peaks'

raise_peaks-IsRaised :
    (us peaks : Usage)
    → Unique us
    → IsRaised (λ e. used e us) (λ e. is_used e us) peaks (raise_peaks us peaks)
unfolding raise_peaks used
raise_peaks-IsRaised [] peaks v = record {
  tops = λ e. ground arith;
  keys = λ e. refl;
  unique = λ q. q;
}
raise_peaks-IsRaised (u ∷ us) peaks v =
    let rest = raise_peaks-IsRaised us (raise_peak u peaks) v.1 in
    record {
      tops = λ e.
          ground
            (arith, rest.tops e, raise_peak-used e u peaks, used-unused u.0 us v.0, str_eq→≡ u.0 e);
      keys = λ e. ground (arith, rest.keys e, raise_peak-is_used e u peaks);
      unique = λ q. rest.unique (Unique-raise_peak u peaks q);
    }

module _ (surfaces : List Surface) where
  -- The most that one phase takes of a domain.
  abbrev pub peak_over : Str → List OperationPhase → ℕ
  peak_over e [] = 0
  peak_over e (p ∷ ps) = larger (total surfaces e p.allocations) (peak_over e ps)

  abbrev pub in_phases : Str → List OperationPhase → Bool
  in_phases e [] = false
  in_phases e (p ∷ ps) = any_to surfaces e p.allocations || in_phases e ps

  pub record ArePeaks (ps : List OperationPhase) (us : Usage) : Type 0 where
    pub tops : (e : Str) → used e us ≡ peak_over e ps
    pub keys : (e : Str) → is_used e us ≡ in_phases e ps
    pub unique : Unique us

module _ (operation : Str) (surfaces : List Surface) (domains : List CapacityDomain) where
  resolve_allocations-IsCharged :
      (phase : Str) (as' : List Allocation) (us : Usage) {r : List ResolvedAllocation × Usage}
      → resolve_allocations operation surfaces domains phase as' us ≡ ok r
      → IsCharged (λ e. total surfaces e as') (λ e. any_to surfaces e as') us r.1
  unfolding resolve_allocations
  resolve_allocations-IsCharged phase [] us {r} h =
      let it : us ≡ r.1 = ground (arith, h) in
      subst (IsCharged (λ e. 0) (λ e. false) us) it
        (record { sums = λ e. omega arith; keys = λ e. refl; unique = λ q. q })
  resolve_allocations-IsCharged phase (a ∷ as') us {r} h =
      let (s, at, h₁) = >>=-eq-ok (resolve_allocation_surface a surfaces) _ h in
      let (u, known, h₂) = >>=-eq-ok (known_domain operation surfaces domains s) _ h₁ in
      let (us', charged, h₃) = >>=-eq-ok (charge s.domain_id a.bytes us) _ h₂ in
      let (q, rest, h₄) =
        >>=-eq-ok (resolve_allocations operation surfaces domains phase as' us') _ h₃ in
      let one = charge-IsCharged s.domain_id a.bytes us charged in
      let more = resolve_allocations-IsCharged phase as' us' rest in
      let it : q.1 ≡ r.1 = ground (arith, h₄) in
      subst (IsCharged (λ e. total surfaces e (a ∷ as')) (λ e. any_to surfaces e (a ∷ as')) us) it
        (record {
          sums = λ e. ground (arith, one.sums e, more.sums e, at);
          keys = λ e. ground (arith, one.keys e, more.keys e, at);
          unique = λ v. more.unique (one.unique v);
        })

  resolve_phases-IsRaised :
      (ps : List OperationPhase) (peaks : Usage) {r : List ResolvedAllocation × Usage}
      → resolve_phases operation surfaces domains ps peaks ≡ ok r
      → IsRaised (λ e. peak_over surfaces e ps) (λ e. in_phases surfaces e ps) peaks r.1
  unfolding resolve_phases used
  resolve_phases-IsRaised [] peaks {r} h =
      let it : peaks ≡ r.1 = ground (arith, h) in
      subst (IsRaised (λ e. 0) (λ e. false) peaks) it
        (record { tops = λ e. ground arith; keys = λ e. refl; unique = λ q. q })
  resolve_phases-IsRaised (p ∷ ps) peaks {r} h =
      let (q, done, h₁) =
        >>=-eq-ok (resolve_allocations operation surfaces domains p.id p.allocations []) _ h in
      let (t, rest, h₂) =
        >>=-eq-ok (resolve_phases operation surfaces domains ps (raise_peaks q.1 peaks)) _ h₁ in
      let one = resolve_allocations-IsCharged p.id p.allocations [] done in
      let raised = raise_peaks-IsRaised q.1 peaks (one.unique tt) in
      let more = resolve_phases-IsRaised ps (raise_peaks q.1 peaks) rest in
      let it : t.1 ≡ r.1 = ground (arith, h₂) in
      subst
        (IsRaised (λ e. peak_over surfaces e (p ∷ ps)) (λ e. in_phases surfaces e (p ∷ ps)) peaks)
        it
        (record {
          tops = λ e.
              let own : used e q.1 ≡ total surfaces e p.allocations = omega (arith, one.sums e) in
              more.tops e
              ∙ (ap (λ x. larger x (peak_over surfaces e ps))
                    (raised.tops e ∙ ap (larger (used e peaks)) own)
                  ∙ larger_assoc (used e peaks) (total surfaces e p.allocations)
                      (peak_over surfaces e ps));
          keys = λ e. ground (arith, one.keys e, raised.keys e, more.keys e);
          unique = λ v. more.unique (raised.unique v);
        })

  pub resolve_phases-ArePeaks :
      (ps : List OperationPhase) {r : List ResolvedAllocation × Usage}
      → resolve_phases operation surfaces domains ps [] ≡ ok r
      → ArePeaks surfaces ps r.1
  unfolding used
  resolve_phases-ArePeaks ps h =
      let raised = resolve_phases-IsRaised ps [] h in
      record {
        tops = λ e. ground (arith, raised.tops e);
        keys = λ e. ground (arith, raised.keys e);
        unique = raised.unique tt;
      }
