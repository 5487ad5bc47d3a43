-- ===== src/Storage/Lifecycle/Closing.antt =====
-- src/storage.rs: what `close` leaves behind.
use justdbd.Common.{
  Option, ℕ, ◌≡◌, ◌≢◌, refl, ◌∙◌, true, false, List, [], ◌∷◌, some, ◌==◌, Bool-cases, inl, inr,
  if-true, if-false, if◌then◌else◌,
}
use justdbd.Common.Float.{F64}
use justdbd.Common.Outcome.{Outcome, ok, err, panic, bind-ok}
use justdbd.Error.{StorageError, closed}
use justdbd.MemTable
use justdbd.MemTable.{MemTable, Clock}
use justdbd.Storage.Engine.{Engine, flush_memtable}
use justdbd.Storage.Engine.Flush.{Keeps, NeverPanics, flush_memtable-Keeps, flush_memtable-ne-panic}
use justdbd.Storage.Engine.Writes.{writes-refused, write, when_closed}
use justdbd.Storage.Lifecycle.{flush_at_end, flush_all, close}
use justdbd.Storage.Tables.{Tables}

module _ {f : F64} (t : Tables f) where
  Keeps-trans : (a b c : Engine f t) → Keeps t a b → Keeps t b c → Keeps t a c
  Keeps-trans a b c k l = record {
    memtable_kept = l.memtable_kept ∙ k.memtable_kept;
    immutable_kept = l.immutable_kept ∙ k.immutable_kept;
    closed_kept = l.closed_kept ∙ k.closed_kept;
    tasks_kept = l.tasks_kept ∙ k.tasks_kept;
  }

  flush_at_end-ok :
      (now : ℕ) (m : MemTable) (e : Engine f t)
      → NeverPanics t
      → (e' : Engine f t) × (flush_at_end t (some now) m e ≡ (ok tt, e')) × Keeps t e e'
  unfolding flush_at_end
  flush_at_end-ok now m e h = (
    (flush_memtable t (some now) m e).1,
    go (flush_memtable t (some now) m e) (flush_memtable-ne-panic t now m e h),
    flush_memtable-Keeps t now m e,
  )
    where
      go :
          (c : Outcome StorageError (Unit {0}) × Engine f t)
          → c.0 ≢ panic
          → ◌≡◌ {A = Outcome StorageError (Unit {0}) × Engine f t}
              (elim c.0 [ ok _ ↦ ok tt | err _ ↦ ok tt | panic ↦ panic ], c.1)
              (ok tt, c.1)
      go (ok _, e') h = refl
      go (err _, e') h = refl
      go (panic, e') h = absurd (h refl)

  flush_all-ok :
      (now : ℕ) (ms : List MemTable) (e : Engine f t)
      → NeverPanics t
      → (e' : Engine f t) × (flush_all t (some now) ms e ≡ (ok tt, e')) × Keeps t e e'
  unfolding flush_all
  flush_all-ok now [] e h = (
    e,
    refl,
    record { memtable_kept = refl; immutable_kept = refl; closed_kept = refl; tasks_kept = refl },
  )
  flush_all-ok now (m ∷ ms) e h =
      let (e1, run, kept) = flush_at_end-ok now m e h in
      let (e2, rest, kept') = flush_all-ok now ms e1 h in
      (
        e2,
        bind-ok (flush_at_end t (some now) m) (λ _. flush_all t (some now) ms) e run ∙ rest,
        Keeps-trans e e1 e2 kept kept',
      )

  -- the flush of the current memtable
  flush_last-ok :
      (now : ℕ) (e : Engine f t)
      → NeverPanics t
      → (e' : Engine f t) × ((if e.memtable.count == 0
            then (ok tt, e)
            else flush_at_end t (some now) (MemTable.make_immutable e.memtable) e)
          ≡ (ok tt, e'))
        × Keeps t e e'
  flush_last-ok now e h = elim (Bool-cases (e.memtable.count == 0)) [
    | inl empty ↦ (
      e,
      if-true _ _ empty,
      record { memtable_kept = refl; immutable_kept = refl; closed_kept = refl; tasks_kept = refl },
    )
    | inr full ↦
        let (e', run, kept) = flush_at_end-ok now (MemTable.make_immutable e.memtable) e h in
        (e', if-false _ _ full ∙ run, kept)
  ]

  -- If no creation of a table panics and the clock stands behind the epoch, `close` succeeds, whatever
  -- errors its flushes meet. Then the engine is closed, has no background task and no immutable
  -- memtable, refuses both writes with `Closed`, and a second `close` changes nothing.
  pub close-refuses :
      (now : ℕ) (e : Engine f t)
      → NeverPanics t
      → e.is_closed ≡ false
      → let (r, e') = close t (some now) e in
        (r ≡ ok tt)
        × (e'.is_closed ≡ true)
        × (e'.background_tasks ≡ 0)
        × (e'.immutable_memtables ≡ [])
        × ((clock : Clock) (key : List ℕ) (value : Option (List ℕ))
            → write clock key value e' ≡ (err closed, e'))
        × ((clock : Clock) → close t clock e' ≡ (ok tt, e'))
  unfolding close
  close-refuses now e h is_open =
      let stopped = record e { is_closed = true; background_tasks = 0; immutable_memtables = [] } in
      let (e1, run, kept) = flush_all-ok now e.immutable_memtables stopped h in
      let (e2, last, kept') = flush_last-ok now e1 h in
      let k = Keeps-trans stopped e1 e2 kept kept' in
      let whole : close t (some now) e ≡ (ok tt, e2) =
        if-false _ _ is_open
        ∙ bind-ok (flush_all t (some now) e.immutable_memtables) _ stopped run
        ∙ last in
      rw whole (
        refl,
        k.closed_kept,
        k.tasks_kept,
        k.immutable_kept,
        (λ clock key value. writes-refused clock key value e2 (when_closed k.closed_kept)),
        λ clock. if-true _ _ k.closed_kept,
      )
