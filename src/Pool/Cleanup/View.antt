-- ===== src/Pool/Cleanup/View.antt =====
-- The records that a snapshot file shows, and what the store's reading says of them.
use ephemeral_action_runner.Shared.{
  Str, true, ◌≡◌, ◌≢◌, List, ◌>>=◌, refl, sym, ap, ◌∙◌, arith, Option, none, some, Result, ok, err,
  [], ◌∷◌, >>=-eq-ok,
}
use ephemeral_action_runner.PoolState.Types.{Record, StoreError}
use ephemeral_action_runner.PoolState.Validate.{DiskState, validate_name}
use ephemeral_action_runner.PoolState.Lookup.{lookup}
use ephemeral_action_runner.PoolState.Disk.{Attempt, Io, Disk, with_lock, load, check_loaded, read}
use ephemeral_action_runner.PoolState.Disk.Encoding.{Codec}
use ephemeral_action_runner.PoolState.Disk.Snapshot.{validate_state-Rising, load-valid}
use ephemeral_action_runner.PoolState.Disk.ReadBack.{read_in-lookup, or_not_found}
use ephemeral_action_runner.Pool.Cleanup.Written.{lookup-answer, lookup-name}

module _ (c : Codec) where
  abbrev pub calm : Io
  calm = record {
    attempts = Attempt.taken ∷ [];
    readable = true;
    fault = none;
    removable = true;
    now = 0;
  }

  abbrev found_in : Result StoreError DiskState → Str → Option Record
  found_in (ok s) n = lookup n s.records
  found_in (err e) n = none

  -- The record of a name in the snapshot, if the snapshot is sound.
  unfoldable pub record_of : Disk c → Str → Option Record
  record_of d n = found_in (load c calm d) n

  load-calm : (io : Io) (d : Disk c) {s : DiskState} → load c io d ≡ ok s → load c calm d ≡ ok s
  unfolding load
  load-calm io d e = ground arith

  pub view-loaded :
      (io : Io) (n : Str) (d : Disk c) {s : DiskState}
      → load c io d ≡ ok s
      → record_of d n ≡ lookup n s.records
  unfolding record_of
  view-loaded io n d e = ap (λ l. found_in l n) (load-calm io d e)

  pub record_of-file : (d d' : Disk c) (n : Str) → d'.file ≡ d.file → record_of d' n ≡ record_of d n
  unfolding record_of load
  record_of-file d d' n e = rw e refl

  pub read-found :
      (io : Io) (n : Str) (d : Disk c) {r : Record}
      → read c io n d ≡ ok r
      → (record_of d n ≡ some r) × (r.name ≡ n)
  unfolding read
  read-found io n d {r} e =
      let (u, named, e₁) = >>=-eq-ok (validate_name n) _ e in
      let (v, locked, e₂) = >>=-eq-ok (with_lock io.attempts) _ e₁ in
      let (s, loaded, e₃) = >>=-eq-ok (load c io d) _ e₂ in
      let rising = validate_state-Rising s (load-valid c io d loaded) in
      let stands : lookup n s.records ≡ some r =
        lookup-answer (lookup n s.records) (sym (read_in-lookup n s rising) ∙ e₃) in
      (view-loaded io n d loaded ∙ stands, lookup-name n s.records stands)

  named-found : (n : Str) → validate_name n ≢ err StoreError.not_found
  unfolding validate_name
  named-found n e = ground (arith, e)

  locked-found : (as' : List Attempt) → with_lock as' ≢ err StoreError.not_found
  unfolding with_lock
  locked-found [] e = ground (arith, e)
  locked-found (Attempt.taken ∷ as') e = ground (arith, e)
  locked-found (Attempt.held ∷ as') e = locked-found as' e
  locked-found (Attempt.refused ∷ as') e = ground (arith, e)
  locked-found (Attempt.done ∷ as') e = ground (arith, e)

  loaded-found : (io : Io) (d : Disk c) → load c io d ≢ err StoreError.not_found
  unfolding load check_loaded
  loaded-found io d e = ground (arith, e)

  -- An error that is not the one of the first step is the one of the rest.
  later_err :
      {A B : Type 0} (m : Result StoreError A) (k : A → Result StoreError B) {x : StoreError}
      → m ≢ err x
      → (m >>= k) ≡ err x
      → (a : A) × (m ≡ ok a) × (k a ≡ err x)
  later_err (ok a) k n e = (a, refl, e)
  later_err (err y) k n e = absurd (n (ground (arith, e)))

  no_answer : (o : Option Record) → or_not_found o ≡ err StoreError.not_found → o ≡ none
  no_answer none e = refl
  no_answer (some r) e = absurd (ground (arith, e))

  pub read-missing :
      (io : Io) (n : Str) (d : Disk c)
      → read c io n d ≡ err StoreError.not_found
      → record_of d n ≡ none
  unfolding read
  read-missing io n d e =
      let (u, named, e₁) = later_err (validate_name n) _ (named-found n) e in
      let (v, locked, e₂) = later_err (with_lock io.attempts) _ (locked-found io.attempts) e₁ in
      let (s, loaded, e₃) = later_err (load c io d) _ (loaded-found io d) e₂ in
      let rising = validate_state-Rising s (load-valid c io d loaded) in
      view-loaded io n d loaded
      ∙ no_answer (lookup n s.records) (sym (read_in-lookup n s rising) ∙ e₃)
