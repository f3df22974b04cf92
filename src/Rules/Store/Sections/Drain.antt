-- ===== src/Rules/Store/Sections/Drain.antt =====
-- `SkRetireDrain` on the heap: only drained snapshots of the retire list are freed, each once.
use shinken_sentinel.Prelude.{
  ℕ, zero, suc, ◌≤◌, ◌≡◌, ◌≢◌, ◌⊎◌, refl, sym, ◌∙◌, subst, List, [], ◌∷◌, Option, none, some, Bool,
  true, false, if◌then◌else◌, arith, All, All-map, inl, inr, ℕ_discrete, Bool-cases,
}
use shinken_sentinel.Runtime.Rundown.{stop_bit, active_count}
use shinken_sentinel.Rules.Snapshot.{Snapshot}
use shinken_sentinel.Rules.Store.{
  Heap, Store, put, is_drained, sift_one, sift, free_cell, free_all, drain_round, is_empty,
  retire_drain,
}
use shinken_sentinel.Rules.Store.Safe.{
  occ, Live, Waiting, OnSlot, NotIn, NoTwice, Counted, Safe, SameSide-refl, Kept, put_self, put_ne,
  Kept-slot, Kept-Waiting,
}

-- No holder is left.
unfoldable pub Drained : Heap → ℕ → Type 0
Drained cells p = (snap : Snapshot) × (cells p ≡ some snap) × (snap.readers.count ≡ stop_bit)

pub drained-count :
    (snap : Snapshot)
    → is_drained (active_count snap.readers) ≡ true
    → snap.readers.count ≡ stop_bit
unfolding active_count
drained-count snap h = ground arith

pub undrained-count :
    (snap : Snapshot)
    → is_drained (active_count snap.readers) ≡ false
    → snap.readers.count ≢ stop_bit
unfolding active_count
undrained-count snap h = ground arith

-- What the lock section leaves and takes off.
record Sifted (cells : Heap) (ps kept out : List ℕ) : Type 0 where
  stay : All (λ q. Waiting cells q × (Drained cells q → ⊥)) kept
  leave : All (Drained cells) out
  stay_once : NoTwice kept
  leave_once : NoTwice out
  within : (p : ℕ) → NotIn p ps → NotIn p kept × NotIn p out

sift-Sifted :
    (cells : Heap) (ps : List ℕ)
    → All (Waiting cells) ps
    → NoTwice ps
    → (kept out : List ℕ) × (sift cells ps ≡ some (kept, out)) × Sifted cells ps kept out
unfolding sift sift_one Waiting Drained
sift-Sifted cells [] w once = (
  [],
  [],
  refl,
  record { stay = tt; leave = tt; stay_once = tt; leave_once = tt; within = λ p h. (tt, tt) },
)
sift-Sifted cells (p ∷ ps) ((snap, e, high), w) once =
    let (kept, out, same, rest) = sift-Sifted cells ps w once.1 in
    let apart = rest.within p once.0 in
    elim (Bool-cases (is_drained (active_count snap.readers))) [
      | inl empty ↦ (
        kept,
        p ∷ out,
        rw (e, same, empty) refl,
        record {
          stay = rest.stay;
          leave = ((snap, e, drained-count snap empty), rest.leave);
          stay_once = rest.stay_once;
          leave_once = (apart.1, rest.leave_once);
          within = λ q h. ((rest.within q h.1).0, (h.0, (rest.within q h.1).1));
        },
      )
      | inr busy ↦
          let not_yet : Drained cells p → ⊥ = λ (snap', e', c).
            let one : snap ≡ snap' = ground arith in
            undrained-count snap busy (subst (λ t. t.readers.count ≡ stop_bit) (sym one) c) in
          (
            p ∷ kept,
            out,
            rw (e, same, busy) refl,
            record {
              stay = (((snap, e, high), not_yet), rest.stay);
              leave = rest.leave;
              stay_once = (apart.0, rest.stay_once);
              leave_once = rest.leave_once;
              within = λ q h. ((h.0, (rest.within q h.1).0), (rest.within q h.1).1);
            },
          )
    ]

-- Each cell after the snapshots taken off are freed: as before, or free now and drained before.
abbrev Freed : Heap → Heap → ℕ → Type 0
Freed cells cells' q = (cells' q ≡ cells q) ⊎ ((cells' q ≡ none) × Drained cells q)

Drained-put_ne :
    (cells : Heap) (p : ℕ) (v : Option Snapshot) (ps : List ℕ)
    → NotIn p ps
    → All (Drained cells) ps
    → All (Drained (put p v cells)) ps
unfolding Drained
Drained-put_ne cells p v [] h d = tt
Drained-put_ne cells p v (q ∷ ps) h ((snap, e, c), d) =
    ((snap, put_ne p q v cells h.0 ∙ e, c), Drained-put_ne cells p v ps h.1 d)

Freed-put :
    (cells cells' : Heap) (p : ℕ)
    → Drained cells p
    → ((q : ℕ) → Freed (put p none cells) cells' q)
    → (q : ℕ) → Freed cells cells' q
unfolding Drained
Freed-put cells cells' p d f q = elim (ℕ_discrete q p) [
  | yes same ↦ elim (f q) [
    | inl stay ↦
        inr (stay ∙ rw same (put_self p none cells), subst (λ x. Drained cells x) (sym same) d)
    | inr (gone, e) ↦ inr (gone, subst (λ x. Drained cells x) (sym same) d)
  ]
  | no other ↦ elim (f q) [
    | inl stay ↦ inl (stay ∙ put_ne p q none cells other)
    | inr (gone, (snap, e, c)) ↦ inr (gone, (snap, sym (put_ne p q none cells other) ∙ e, c))
  ]
]

free_all_lem :
    (ps : List ℕ) (cells : Heap)
    → All (Drained cells) ps
    → NoTwice ps
    → (cells' : Heap) × (free_all ps cells ≡ some cells') × ((q : ℕ) → Freed cells cells' q)
unfolding free_all free_cell Drained
free_all_lem [] cells d once = (cells, refl, λ q. inl refl)
free_all_lem (p ∷ ps) cells ((snap, e, c), d) once =
    let (cells', same, f) =
      free_all_lem ps (put p none cells) (Drained-put_ne cells p none ps once.0 d) once.1 in
    (cells', rw e same, Freed-put cells cells' p (snap, e, c) f)

undrained-Kept :
    (cells cells' : Heap) (q : ℕ)
    → Freed cells cells' q
    → (Drained cells q → ⊥)
    → Kept cells cells' q
unfolding Kept
undrained-Kept cells cells' q (inl stay) busy old e = (old, stay ∙ e, SameSide-refl old)
undrained-Kept cells cells' q (inr (gone, d)) busy old e = absurd (busy d)

Live-undrained : (cells : Heap) (q : ℕ) → Live cells q → Drained cells q → ⊥
unfolding Live Drained
Live-undrained cells q (snap, e, low, good) (snap', e', c) =
    let one : snap ≡ snap' = ground arith in
    let c' : snap.readers.count ≡ stop_bit = subst (λ t. t.readers.count ≡ stop_bit) (sym one) c in
    omega arith

Live-same : (cells cells' : Heap) (q : ℕ) → Freed cells cells' q → Live cells q → cells' q ≡ cells q
Live-same cells cells' q (inl stay) live = stay
Live-same cells cells' q (inr (gone, d)) live = absurd (Live-undrained cells q live d)

-- What a drain leaves: the store apart from the heap and the list, and every live snapshot.
abbrev pub DrainKeeps : List ℕ → Store → Option Store → Type 0
DrainKeeps held s result =
    (cells : Heap) × (kept : List ℕ) × (result ≡ some (record s { cells = cells; retire = kept }))
    × Safe held (record s { cells = cells; retire = kept })
    × ((q : ℕ) → Live s.cells q → cells q ≡ s.cells q)

module _ (held : List ℕ) (s : Store) (safe : Safe held s) (cells : Heap)
    (freed : (q : ℕ) → Freed s.cells cells q) where
  drained-Counted : (q : ℕ) (snap : Snapshot) → cells q ≡ some snap → Counted snap (occ q held)
  drained-Counted q snap h = elim (freed q) [
    | inl stay ↦ safe.counted q snap (sym stay ∙ h)
    | inr (gone, d) ↦ absurd (ground arith)
  ]

  drained-Kept : (q : ℕ) → cells q ≡ none → occ q held ≡ 0
  unfolding Drained
  drained-Kept q h = elim (freed q) [
    | inl stay ↦ safe.kept q (sym stay ∙ h)
    | inr (gone, (snap, e, c)) ↦ let x = (safe.counted q snap e).exact in omega arith
  ]

  drained-unused : (q : ℕ) → s.fresh ≤ q → cells q ≡ none
  drained-unused q h = elim (freed q) [ inl stay ↦ stay ∙ safe.unused q h | inr (gone, d) ↦ gone ]

  drained-slot : (o : Option ℕ) → OnSlot (Live s.cells) o → OnSlot (Live cells) o
  drained-slot none h = tt
  drained-slot (some q) h =
      Kept-slot s.cells cells (some q)
        (λ x same.
          undrained-Kept s.cells cells x (freed x)
            (Live-undrained s.cells x (subst (OnSlot (Live s.cells)) same h)))
        h

  pub Safe-Freed :
      (kept : List ℕ)
      → All (Waiting cells) kept
      → NoTwice kept
      → Safe held (record s { cells = cells; retire = kept })
  Safe-Freed kept waits once = record {
    counted = drained-Counted;
    kept = drained-Kept;
    current_live = drained-slot s.current safe.current_live;
    rollback_live = drained-slot s.rollback safe.rollback_live;
    apart = safe.apart;
    waiting = waits;
    once = once;
    unused = drained-unused;
    published = safe.published;
  }

  Safe-Drained :
      (kept : List ℕ)
      → All (λ q. Waiting s.cells q × (Drained s.cells q → ⊥)) kept
      → NoTwice kept
      → Safe held (record s { cells = cells; retire = kept })
  Safe-Drained kept stay once =
      Safe-Freed kept
        (All-map kept
          (λ q h. Kept-Waiting s.cells cells q (undrained-Kept s.cells cells q (freed q) h.1) h.0)
          stay)
        once

-- One round of `SkRetireDrain` on a safe heap touches no freed snapshot and frees none twice, leaves
-- the heap safe, and changes no live snapshot.
pub drain_round_lem : (held : List ℕ) (s : Store) → Safe held s → DrainKeeps held s (drain_round s)
unfolding drain_round
drain_round_lem held s safe =
    let (kept, out, same, sifted) = sift-Sifted s.cells s.retire safe.waiting safe.once in
    let (cells, same', freed) = free_all_lem out s.cells sifted.leave sifted.leave_once in
    (
      cells,
      kept,
      rw (same, same') refl,
      Safe-Drained held s safe cells freed kept sifted.stay sifted.stay_once,
      λ q. Live-same s.cells cells q (freed q),
    )

empty-cases :
    (held : List ℕ) (s : Store) (left : ℕ) (cells : Heap) (kept : List ℕ)
    → Safe held (record s { cells = cells; retire = kept })
    → ((q : ℕ) → Live s.cells q → cells q ≡ s.cells q)
    → DrainKeeps held
        (record s { cells = cells; retire = kept })
        (retire_drain left (record s { cells = cells; retire = kept }))
    → (b : Bool)
    → DrainKeeps held s (
        if b
        then some (record s { cells = cells; retire = kept })
        else retire_drain left (record s { cells = cells; retire = kept }))
unfolding Live
empty-cases held s left cells kept safe live ih true = (cells, kept, refl, safe, live)
empty-cases held s left cells kept safe live (cells', kept', same, safe', live') false = (
  cells',
  kept',
  same,
  safe',
  λ q (snap, e, low, good).
      let step = live q (snap, e, low, good) in live' q (snap, step ∙ e, low, good) ∙ step,
)

pub retire_drain_lem :
    (left : ℕ) (held : List ℕ) (s : Store) → Safe held s → DrainKeeps held s (retire_drain left s)
unfolding retire_drain
retire_drain_lem zero held s safe = drain_round_lem held s safe
retire_drain_lem (suc left) held s safe =
    let (cells, kept, same, safe', live) = drain_round_lem held s safe in
    rw same (
      empty-cases held s left cells kept safe' live
        (retire_drain_lem left held (record s { cells = cells; retire = kept }) safe')
        (is_empty kept))
