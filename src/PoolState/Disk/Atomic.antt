-- ===== src/PoolState/Disk/Atomic.antt =====
-- internal/pool/state/store.go: what `mutate` leaves, whether it succeeds or fails.
use ephemeral_action_runner.Shared.{
  Str, some, ok, err, >>=-eq-ok, Result-cases, Option-cases, Bool-cases, false, ◌+◌, inl, inr, ◌⊎◌,
  ◌≡◌, refl, arith, ◌∙◌, ap, sym,
}
use ephemeral_action_runner.PoolState.Types.{IoError, StoreError}
use ephemeral_action_runner.PoolState.Validate.{DiskState, Check, validate_state}
use ephemeral_action_runner.PoolState.Store.{Operation}
use ephemeral_action_runner.PoolState.Disk.Encoding.{Codec, checksum}
use ephemeral_action_runner.PoolState.Disk.{
  Io, Disk, Stage, abort, with_lock, load, write_file, save, prepare, commit, mutate, answer,
}

module _ (c : Codec) where
  -- A mutation that went through: the loaded state, what the operation made of it, and the bytes that
  -- now stand in the file in place of the old ones.
  pub record IsCommitted {A : Type 0} (io : Io) (op : Operation A) (d : Disk c) (a : A)
      (d' : Disk c) : Type 0 where
    pub before : DiskState
    pub after : DiskState
    pub sum : Str
    pub bytes : c.Bytes
    pub locked : with_lock io.attempts ≡ ok tt
    pub loaded : load c io d ≡ ok before
    pub operated : op before io.now ≡ ok (a, after)
    pub valid : validate_state after ≡ ok tt
    pub summed : checksum c after ≡ some sum
    pub encoded : c.encode (record after { checksum = sum }) ≡ some bytes
    pub written : d' ≡ record d { file = some bytes }

  -- A mutation that failed: the snapshot is as it was, and so are the temporary files, save one that
  -- could not be removed.
  pub record IsUndone (io : Io) (d d' : Disk c) : Type 0 where
    pub file : d'.file ≡ d.file
    pub temps : (d'.temps ≡ d.temps) ⊎ ((io.removable ≡ false) × (d'.temps ≡ d.temps + 1))

  untouched : (io : Io) (d : Disk c) → IsUndone io d d
  untouched io d = record { file = refl; temps = inl refl }

  -- The temporary file was made, and the call failed after that.
  abbrev gave_up : Io → Disk c → IoError → Disk c × Check
  gave_up io d e = abort c io (record d { temps = d.temps + 1 }) e

  aborted : (io : Io) (d : Disk c) (e : IoError) → IsUndone io d (gave_up io d e).0
  aborted io d e = elim (Bool-cases io.removable) [
    | inl can ↦ record { file = ground arith; temps = inl (ground arith) }
    | inr cannot ↦ record { file = ground arith; temps = inr (cannot, ground arith) }
  ]

  -- What a save leaves: it failed and undid what it did, or the bytes stand in the file.
  abbrev Written : Io → c.Bytes → Disk c → Disk c × Check → Type 0
  Written io b d x =
      ((d' : Disk c) × (e : StoreError) × (x ≡ (d', err e)) × IsUndone io d d')
      ⊎ (x ≡ (record d { file = some b }, ok tt))

  undone :
      {io : Io} {b : c.Bytes} {d : Disk c} {x : Disk c × Check} (e : IoError)
      → x ≡ gave_up io d e
      → Written io b d x
  undone {io} {b} {d} e same = inl ((gave_up io d e).0, StoreError.io e, same, aborted io d e)

  write_file-cases : (io : Io) (b : c.Bytes) (d : Disk c) → Written io b d (write_file c io b d)
  unfolding write_file
  write_file-cases io b d = elim (Option-cases io.fault) [
    | inl e ↦ inr (ground arith)
    | inr (Stage.before_temp, e) ↦
        inl (d, StoreError.io IoError.canceled, rw (e, write_file) refl, untouched io d)
    | inr (Stage.create, e) ↦
        inl (d, StoreError.io IoError.cannot_create, rw (e, write_file) refl, untouched io d)
    | inr (Stage.write, e) ↦ undone IoError.cannot_write (rw (e, write_file) refl)
    | inr (Stage.sync, e) ↦ undone IoError.cannot_sync (rw (e, write_file) refl)
    | inr (Stage.close, e) ↦ undone IoError.cannot_close (rw (e, write_file) refl)
    | inr (Stage.before_rename, e) ↦ undone IoError.canceled (rw (e, write_file) refl)
    | inr (Stage.rename, e) ↦ undone IoError.cannot_rename (rw (e, write_file) refl)
  ]

  save-cases :
      (io : Io) (s : DiskState) (d : Disk c)
      → ((d' : Disk c) × (e : StoreError) × (save c io s d ≡ (d', err e)) × IsUndone io d d')
        ⊎ ((sum : Str) × (b : c.Bytes) × (checksum c s ≡ some sum)
            × (c.encode (record s { checksum = sum }) ≡ some b)
            × (save c io s d ≡ (record d { file = some b }, ok tt)))
  unfolding save
  save-cases io s d = elim (Option-cases (checksum c s)) [
    | inl e ↦ inl (d, StoreError.io IoError.cannot_encode, rw (e, save), untouched io d)
    | inr (sum, e) ↦ elim (Option-cases (c.encode (record s { checksum = sum }))) [
      | inl f ↦
          inl (d, StoreError.io IoError.cannot_encode, rw (e, save) (rw (f, save)), untouched io d)
      | inr (b, f) ↦ elim (write_file-cases io b d) [
        | inl (d', x, g, left) ↦ inl (d', x, rw (e, save) (rw (f, save) g), left)
        | inr g ↦ inr (sum, b, e, f, rw (e, save) (rw (f, save) g))
      ]
    ]
  ]

  -- What `prepare` computed stood every check.
  record IsPrepared {A : Type 0} (io : Io) (op : Operation A) (d : Disk c) (a : A)
      (after : DiskState) : Type 0 where
    before : DiskState
    locked : with_lock io.attempts ≡ ok tt
    loaded : load c io d ≡ ok before
    operated : op before io.now ≡ ok (a, after)
    valid : validate_state after ≡ ok tt

  prepare-IsPrepared :
      {A : Type 0} (io : Io) (op : Operation A) (d : Disk c) {a : A} {after : DiskState}
      → prepare c io op d ≡ ok (a, after)
      → IsPrepared io op d a after
  unfolding prepare
  prepare-IsPrepared {A} io op d {a} {after} e =
      let (u, locked, e₁) = >>=-eq-ok (with_lock io.attempts) _ e in
      let (s, loaded, e₂) = >>=-eq-ok (load c io d) _ e₁ in
      let (r, operated, e₃) = >>=-eq-ok (op s io.now) _ e₂ in
      let (v, valid, e₄) = >>=-eq-ok (validate_state r.1) _ e₃ in
      let same : r ≡ (a, after) = ground arith in
      record {
        before = s;
        locked = locked;
        loaded = loaded;
        operated = operated ∙ ap ok same;
        valid = ap (λ (p : A × DiskState). validate_state p.1) (sym same) ∙ valid;
      }

  -- A mutation either returns an error and leaves the snapshot as it was, and the temporary files too
  -- save for one more where the system refused to remove it, or it holds the lock, applied the operation
  -- to the snapshot that it loaded, found the outcome valid, and put exactly its encoding in the place
  -- of the snapshot.
  pub mutate-all_or_nothing :
      {A : Type 0} (io : Io) (op : Operation A) (d : Disk c)
      → ((d' : Disk c) × (e : StoreError) × (mutate c io op d ≡ (d', err e)) × IsUndone io d d')
        ⊎ ((a : A) × (d' : Disk c) × (mutate c io op d ≡ (d', ok a)) × IsCommitted io op d a d')
  unfolding mutate
  mutate-all_or_nothing {A} io op d = elim (Result-cases (prepare c io op d)) [
    | inr (e, p) ↦ inl (d, e, ap (commit c io d) p, untouched io d)
    | inl ((a, s), p) ↦ elim (save-cases io s d) [
      | inl (d', e, f, left) ↦
          inl (
            d',
            e,
            ap (commit c io d) p ∙ ap (λ (o : Disk c × Check). (o.0, answer c a o.1)) f,
            left,
          )
      | inr (sum, b, summed, encoded, f) ↦
          let r = prepare-IsPrepared io op d p in
          inr (
            a,
            record d { file = some b },
            ap (commit c io d) p ∙ ap (λ (o : Disk c × Check). (o.0, answer c a o.1)) f,
            record {
              before = r.before;
              after = s;
              sum = sum;
              bytes = b;
              locked = r.locked;
              loaded = r.loaded;
              operated = r.operated;
              valid = r.valid;
              summed = summed;
              encoded = encoded;
              written = refl;
            },
          )
    ]
  ]
