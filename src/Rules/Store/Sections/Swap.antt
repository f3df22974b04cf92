-- ===== src/Rules/Store/Sections/Swap.antt =====
-- The writer sections on the heap: a snapshot is installed, displaced ones retire, and the pointers
-- are detached.
use shinken_sentinel.Prelude.{
  ℕ, ◌+◌, ◌≡◌, ◌≢◌, refl, sym, ◌∙◌, ap, subst, List, [], ◌∷◌, ◌++◌, Option, none, some, Bool, true,
  false, arith, All, All-append, ℕ_discrete,
}
use shinken_sentinel.Runtime.Rundown.{begin_stop}
use shinken_sentinel.Rules.Snapshot.{Snapshot}
use shinken_sentinel.Rules.Store.{Heap, Store, put, retire_cell, retire_slot}
use shinken_sentinel.Rules.Store.Safe.{
  occ, Live, Waiting, OnSlot, NotIn, NoTwice, Counted, Safe, SameSide-refl, Kept, put_self, put_ne,
  Kept-put_ne, Kept-slot, Kept-All, Live-Waiting,
}
use shinken_sentinel.Rules.Store.Sections.Readers.{changed-Counted, changed-Kept, changed-unused}

pub Live-eq : (cells cells' : Heap) (q : ℕ) → cells' q ≡ cells q → Live cells q → Live cells' q
unfolding Live
Live-eq cells cells' q same (snap, e, low, good) = (snap, same ∙ e, low, good)

-- The slots change, and nothing else.
pub Safe-slots :
    (held : List ℕ) (s : Store) (current rollback : Option ℕ) (closed : Bool)
    → Safe held s
    → OnSlot (Live s.cells) current
    → OnSlot (Live s.cells) rollback
    → ((c r : ℕ) → current ≡ some c → rollback ≡ some r → c ≢ r)
    → (s.inited ≡ true → closed ≡ false → (c : ℕ) × (current ≡ some c))
    → Safe held (record s { current = current; rollback = rollback; closed = closed })
Safe-slots held s current rollback closed safe live live' apart published = record {
  counted = safe.counted;
  kept = safe.kept;
  current_live = live;
  rollback_live = live';
  apart = apart;
  waiting = safe.waiting;
  once = safe.once;
  unused = safe.unused;
  published = published;
}

-- A new snapshot at the fresh address.
module _ (held : List ℕ) (s : Store) (new : Snapshot) (safe : Safe held s)
    (idle : new.readers.count ≡ 0) where
  abbrev pub grown : Store
  grown = record s { cells = put s.fresh (some new) s.cells; fresh = s.fresh + 1 }

  pub grown-Kept : (q : ℕ) → Kept s.cells grown.cells q
  unfolding Kept
  grown-Kept q old e = elim (ℕ_discrete q s.fresh) [
    | yes same ↦ let gone : s.cells q ≡ none = safe.unused q (omega arith) in absurd (ground arith)
    | no other ↦ (old, put_ne s.fresh q (some new) s.cells other ∙ e, SameSide-refl old)
  ]

  grown-Counted : (q : ℕ) (snap : Snapshot) → grown.cells q ≡ some snap → Counted snap (occ q held)
  grown-Counted q snap h = elim (ℕ_discrete q s.fresh) [
    | yes same ↦
        let at : put s.fresh (some new) s.cells q ≡ some new =
          ap (put s.fresh (some new) s.cells) same ∙ put_self s.fresh (some new) s.cells in
        let one : new ≡ snap = ground arith in
        let zero_held = safe.kept q (safe.unused q (omega arith)) in
        subst (λ t. Counted t (occ q held)) one
          (record { exact = rw idle (sym zero_held); width = omega arith })
    | no other ↦ safe.counted q snap (sym (put_ne s.fresh q (some new) s.cells other) ∙ h)
  ]

  grown-Kept_none : (q : ℕ) → grown.cells q ≡ none → occ q held ≡ 0
  grown-Kept_none q h = elim (ℕ_discrete q s.fresh) [
    | yes same ↦ safe.kept q (safe.unused q (omega arith))
    | no other ↦ safe.kept q (sym (put_ne s.fresh q (some new) s.cells other) ∙ h)
  ]

  pub Safe-grown : Safe held grown
  Safe-grown = record {
    counted = grown-Counted;
    kept = grown-Kept_none;
    current_live = Kept-slot s.cells grown.cells s.current (λ q _. grown-Kept q) safe.current_live;
    rollback_live =
        Kept-slot s.cells grown.cells s.rollback (λ q _. grown-Kept q) safe.rollback_live;
    apart = safe.apart;
    waiting = Kept-All s.cells grown.cells s.retire (λ q _. grown-Kept q) safe.waiting;
    once = safe.once;
    unused = λ q h. put_ne s.fresh q (some new) s.cells (omega arith) ∙ safe.unused q (omega arith);
    published = safe.published;
  }

-- A live snapshot that is in no slot any more retires.
NoTwice-append : (p : ℕ) (ps : List ℕ) → NotIn p ps → NoTwice ps → NoTwice (ps ++ p ∷ [])
NoTwice-append p [] h k = (tt, tt)
NoTwice-append p (q ∷ ps) h k =
    (All-append (λ x. x ≢ q) ps (p ∷ []) k.0 ((λ e. h.0 (sym e)), tt), NoTwice-append p ps h.1 k.1)

Waiting-NotIn :
    (cells : Heap) (p : ℕ) (ps : List ℕ) → Live cells p → All (Waiting cells) ps → NotIn p ps
Waiting-NotIn cells p [] live w = tt
Waiting-NotIn cells p (q ∷ ps) live w =
    (Live-Waiting cells p q live w.0, Waiting-NotIn cells p ps live w.1)

abbrev pub NoSlot : ℕ → Option ℕ → Type 0
NoSlot p o = (q : ℕ) → o ≡ some q → q ≢ p

stop : Snapshot → Snapshot
stop snap = record snap { readers = begin_stop snap.readers; retired = true }

abbrev pub RetireKeeps : List ℕ → Store → Option ℕ → Option Store → Type 0
RetireKeeps held s o result =
    (cells : Heap) × (retire : List ℕ) × (result
      ≡ some (record s { cells = cells; retire = retire }))
    × Safe held (record s { cells = cells; retire = retire })
    × ((q : ℕ) → NoSlot q o → cells q ≡ s.cells q)

retire_cell_lem :
    (held : List ℕ) (s : Store) (p : ℕ)
    → Safe held s
    → Live s.cells p
    → NoSlot p s.current
    → NoSlot p s.rollback
    → RetireKeeps held s (some p) (retire_cell p (s.cells p) s)
unfolding retire_cell Live Waiting stop begin_stop
retire_cell_lem held s p safe (snap, e, low, good) apart apart' =
    let live : Live s.cells p = (snap, e, low, good) in
    let x = (safe.counted p snap e).exact in
    let cells : Heap = put p (some (stop snap)) s.cells in
    let own : Counted (stop snap) (occ p held) = record {
      exact = omega arith;
      width = omega arith;
    } in
    let keep : (q : ℕ) → q ≢ p → Kept s.cells cells q =
      λ q. Kept-put_ne p q (some (stop snap)) s.cells in
    (
      cells,
      s.retire ++ p ∷ [],
      rw e refl,
      record {
        counted = changed-Counted held held s p snap (stop snap) safe e own (λ q _. refl);
        kept = changed-Kept held held s p snap (stop snap) safe e own (λ q _. refl);
        current_live =
            Kept-slot s.cells cells s.current (λ q h. keep q (apart q h)) safe.current_live;
        rollback_live =
            Kept-slot s.cells cells s.rollback (λ q h. keep q (apart' q h)) safe.rollback_live;
        apart = safe.apart;
        waiting =
            All-append (Waiting cells) s.retire (p ∷ [])
              (Kept-All s.cells cells s.retire (λ q w. keep q (Live-Waiting s.cells p q live w))
                safe.waiting)
              ((stop snap, put_self p (some (stop snap)) s.cells, omega arith), tt);
        once =
            NoTwice-append p s.retire (Waiting-NotIn s.cells p s.retire live safe.waiting)
              safe.once;
        unused = changed-unused held held s p snap (stop snap) safe e own (λ q _. refl);
        published = safe.published;
      },
      λ q h. put_ne p q (some (stop snap)) s.cells (λ same. h p refl (sym same)),
    )

pub retire_slot_lem :
    (held : List ℕ) (s : Store) (o : Option ℕ)
    → Safe held s
    → OnSlot (Live s.cells) o
    → ((p : ℕ) → o ≡ some p → NoSlot p s.current × NoSlot p s.rollback)
    → RetireKeeps held s o (retire_slot o s)
unfolding retire_slot
retire_slot_lem held s none safe live apart = (s.cells, s.retire, refl, safe, λ q h. refl)
retire_slot_lem held s (some p) safe live apart =
    retire_cell_lem held s p safe live (apart p refl).0 (apart p refl).1
