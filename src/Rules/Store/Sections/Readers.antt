-- ===== src/Rules/Store/Sections/Readers.antt =====
-- `SkRuleStoreAcquire` and `SkRuleStoreRelease` on the heap.
use shinken_sentinel.Prelude.{
  ℕ, suc, ◌+◌, ◌-◌, ◌%◌, ◌^◌, ◌≤◌, ◌<◌, ◌≡◌, ◌≢◌, refl, sym, subst, List, [], ◌∷◌, Option, none,
  some, Bool, true, false, if◌then◌else◌, ◌==◌, arith, inl, inr, ℕ_discrete, Bool-cases,
  Option-cases, leb, tests,
}
use shinken_sentinel.Runtime.State.{Runtime}
use shinken_sentinel.Runtime.Rundown.{Rundown, stop_bit, acquire, release}
use shinken_sentinel.Rules.Snapshot.{Snapshot}
use shinken_sentinel.Rules.Store.{
  Store, put, acquire_cell, acquire_at, store_acquire, release_cell, store_release,
}
use shinken_sentinel.Rules.Store.Safe.{
  occ, Live, OnSlot, Counted, Safe, SameSide, put_self, put_ne, Kept-put, Kept-slot, Kept-All,
}

-- A heap with the readers of one snapshot changed, and the holders changed to match.
module _ (held held' : List ℕ) (s : Store) (p : ℕ) (old new : Snapshot) (safe : Safe held s)
    (here : s.cells p ≡ some old) (own : Counted new (occ p held'))
    (others : (q : ℕ) → q ≢ p → occ q held' ≡ occ q held) where
  abbrev pub changed : Store
  changed = record s { cells = put p (some new) s.cells }

  pub changed-Counted :
      (q : ℕ) (snap : Snapshot) → changed.cells q ≡ some snap → Counted snap (occ q held')
  changed-Counted q snap h = elim (ℕ_discrete q p) [
    | yes e ↦
        let at : put p (some new) s.cells q ≡ some new = rw e (put_self p (some new) s.cells) in
        let same : new ≡ snap = ground arith in subst (λ t. Counted t (occ q held')) same (rw e own)
    | no other ↦
        let at : s.cells q ≡ some snap = ground (arith, put_ne p q (some new) s.cells other) in
        rw (others q other) (safe.counted q snap at)
  ]

  pub changed-Kept : (q : ℕ) → changed.cells q ≡ none → occ q held' ≡ 0
  changed-Kept q h = elim (ℕ_discrete q p) [
    | yes e ↦
        let at : put p (some new) s.cells q ≡ some new = rw e (put_self p (some new) s.cells) in
        absurd (ground arith)
    | no other ↦
        let at : s.cells q ≡ none = ground (arith, put_ne p q (some new) s.cells other) in
        rw (others q other) (safe.kept q at)
  ]

  pub changed-unused : (q : ℕ) → s.fresh ≤ q → changed.cells q ≡ none
  changed-unused q h = elim (ℕ_discrete q p) [
    | yes e ↦ let gone : s.cells p ≡ none = rw (sym e) (safe.unused q h) in absurd (ground arith)
    | no other ↦ rw (put_ne p q (some new) s.cells other) (safe.unused q h)
  ]

  pub Safe-changed : SameSide old new → Safe held' changed
  Safe-changed side =
      let keep = Kept-put p old new s.cells here side in
      record {
        counted = changed-Counted;
        kept = changed-Kept;
        current_live = Kept-slot s.cells changed.cells s.current (λ q _. keep q) safe.current_live;
        rollback_live =
            Kept-slot s.cells changed.cells s.rollback (λ q _. keep q) safe.rollback_live;
        apart = safe.apart;
        waiting = Kept-All s.cells changed.cells s.retire (λ q _. keep q) safe.waiting;
        once = safe.once;
        unused = changed-unused;
        published = safe.published;
      }

-- The holders after a reader has got `o`.
abbrev pub hold : Option ℕ → List ℕ → List ℕ
hold none held = held
hold (some p) held = p ∷ held

abbrev pub AcquireKeeps : List ℕ → Store → Option (Option ℕ × Store) → Type 0
AcquireKeeps held s result =
    (o : Option ℕ) × (s' : Store) × (result ≡ some (o, s'))
    × Safe (hold o held) s'
    × OnSlot (Live s'.cells) o

more : Snapshot → Snapshot
more snap = record snap { readers = record (snap.readers) { count = snap.readers.count + 1 } }

pub acquire_more :
    (r : Rundown) → r.count < 2 ^ 30 → acquire r ≡ (true, record r { count = r.count + 1 })
unfolding acquire
acquire_more r h = ground arith

pub acquire_full : (r : Rundown) → 2 ^ 30 ≤ r.count → acquire r ≡ (false, r)
unfolding acquire
acquire_full r h = ground arith

pub occ_self : (p : ℕ) (held : List ℕ) → occ p (p ∷ held) ≡ suc (occ p held)
unfolding occ
occ_self p held = ground arith

pub occ_ne : (p q : ℕ) (held : List ℕ) → q ≢ p → occ q (p ∷ held) ≡ occ q held
unfolding occ
occ_ne p q held h = ground arith

acquire_cell_lem :
    (held : List ℕ) (s : Store) (p : ℕ)
    → Safe held s
    → Live s.cells p
    → AcquireKeeps held s (acquire_cell p (s.cells p) s)
unfolding acquire_cell Live more
acquire_cell_lem held s p safe (snap, e, low, good) =
    elim (Bool-cases (leb (2 ^ 30) snap.readers.count)) [
      | inl full ↦ (none, s, rw (e, acquire_full snap.readers (omega tests)) refl, safe, tt)
      | inr room ↦
          let small : snap.readers.count < 2 ^ 30 = ground arith in
          let c = safe.counted p snap e in
          let x = c.exact in
          let side : SameSide snap (more snap) = record {
            content = record { rules = refl; version = refl; policy = refl };
            live = λ h. omega arith;
            stopped = λ h. omega arith;
          } in
          let own : Counted (more snap) (occ p (p ∷ held)) = record {
            exact = omega (arith, occ_self p held);
            width = omega arith;
          } in
          (
            some p,
            record s { cells = put p (some (more snap)) s.cells },
            rw (e, acquire_more snap.readers small) refl,
            Safe-changed held (p ∷ held) s p snap (more snap) safe e own (λ q. occ_ne p q held)
                side,
            (more snap, put_self p (some (more snap)) s.cells, omega arith, good),
          )
    ]

acquire_at_lem :
    (held : List ℕ) (s : Store) (o : Option ℕ)
    → Safe held s
    → OnSlot (Live s.cells) o
    → AcquireKeeps held s (acquire_at o s)
unfolding acquire_at
acquire_at_lem held s none safe live = (none, s, refl, safe, tt)
acquire_at_lem held s (some p) safe live = closed_cases s.closed
  where
    closed_cases :
        (b : Bool)
        → AcquireKeeps held s (if b then some (none, s) else acquire_cell p (s.cells p) s)
    closed_cases true = (none, s, refl, safe, tt)
    closed_cases false = acquire_cell_lem held s p safe live

-- A reader that acquires while the heap is safe touches no freed snapshot, leaves the heap safe, and
-- what it gets is a live snapshot.
pub store_acquire_lem :
    (held : List ℕ) (s : Store) → Safe held s → AcquireKeeps held s (store_acquire s)
unfolding store_acquire
store_acquire_lem held s safe = acquire_at_lem held s s.current safe safe.current_live

-- One holder less.
unfoldable pub drop_one : ℕ → List ℕ → List ℕ
drop_one p [] = []
drop_one p (q ∷ held) = if q == p then held else q ∷ drop_one p held

pub occ-drop_one : (p : ℕ) (held : List ℕ) → occ p (drop_one p held) ≡ occ p held - 1
unfolding occ drop_one
occ-drop_one p [] = omega arith
occ-drop_one p (q ∷ held) = ground (arith, occ-drop_one p held)

pub occ-drop_ne : (p q : ℕ) (held : List ℕ) → q ≢ p → occ q (drop_one p held) ≡ occ q held
unfolding occ drop_one
occ-drop_ne p q [] h = refl
occ-drop_ne p q (x ∷ held) h = ground (arith, occ-drop_ne p q held h)

less : Snapshot → Snapshot
less snap = record snap { readers = record (snap.readers) { count = snap.readers.count - 1 } }

release_less :
    (r : Rundown) (rt : Runtime)
    → 0 < r.count % stop_bit
    → r.count < 2 ^ 32
    → release r rt ≡ (record r { count = r.count - 1 }, rt)
unfolding release
release_less r rt h k =
    let a : (r.count == stop_bit) ≡ false = ground arith in
    let b : (r.count == 0) ≡ false = ground arith in
    let c : (r.count + 2 ^ 32 - 1) % 2 ^ 32 ≡ r.count - 1 = omega arith in rw (a, b, c) refl

abbrev pub ReleaseKeeps : List ℕ → ℕ → Store → Type 0
ReleaseKeeps held p s =
    (s' : Store) × (store_release (some p) s ≡ some s')
    × Safe (drop_one p held) s'
    × (s'.runtime ≡ s.runtime)

-- A holder that releases touches no freed snapshot, leaves the heap safe, and reports no underflow.
pub store_release_lem :
    (held : List ℕ) (s : Store) (p : ℕ) → Safe held s → 0 < occ p held → ReleaseKeeps held p s
unfolding store_release release_cell less
store_release_lem held s p safe h = elim (Option-cases (s.cells p)) [
  | inl gone ↦ let z = safe.kept p gone in absurd (omega arith)
  | inr (snap, e) ↦
      let c = safe.counted p snap e in
      let x = c.exact in
      let w = c.width in
      let side : SameSide snap (less snap) = record {
        content = record { rules = refl; version = refl; policy = refl };
        live = λ k. omega arith;
        stopped = λ k. omega arith;
      } in
      let own : Counted (less snap) (occ p (drop_one p held)) = record {
        exact = omega (arith, occ-drop_one p held);
        width = omega arith;
      } in
      (
        record s { cells = put p (some (less snap)) s.cells },
        rw (e, release_less snap.readers s.runtime (omega arith) w) refl,
        Safe-changed held (drop_one p held) s p snap (less snap) safe e own
            (λ q. occ-drop_ne p q held) side,
        refl,
      )
]
