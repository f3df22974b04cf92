-- ===== src/Rules/Store/Shutdown/Releases.antt =====
-- The polls of a forced drain, with the releases of the readers between them.
use shinken_sentinel.Prelude.{
  ℕ, zero, suc, ◌+◌, ◌≤◌, ◌<◌, ◌≡◌, ◌≢◌, refl, sym, ◌∙◌, ap, ap₂, subst, List, [], ◌∷◌, ◌++◌,
  Option, none, some, Bool, true, ◌==◌, arith, All, inl, inr, ℕ_discrete, Bool-cases, Option-cases,
}
use shinken_sentinel.Runtime.Rundown.{stop_bit}
use shinken_sentinel.Rules.Snapshot.{Snapshot}
use shinken_sentinel.Rules.Store.{Heap, Store, release_cell, store_release}
use shinken_sentinel.Rules.Store.Binds.{some-cancel}
use shinken_sentinel.Rules.Store.Safe.{occ, Waiting, Safe, put_ne}
use shinken_sentinel.Rules.Store.Sections.Readers.{
  drop_one, occ-drop_one, occ-drop_ne, store_release_lem,
}
use shinken_sentinel.Rules.Store.Shutdown.{let_go, poll_cell, poll, drain_polls}

-- The releases are those of holders.
unfoldable pub Allowed : List ℕ → List ℕ → Type 0
Allowed [] held = Unit
Allowed (p ∷ ps) held = (0 < occ p held) × Allowed ps (drop_one p held)

-- The store is safe with `tracked` as its retire list: what is still to be drained, and what is stuck.
abbrev pub Tracks : List ℕ → List ℕ → Store → Type 0
Tracks held tracked s = Safe held (record s { retire = tracked })

-- No holder is new.
abbrev pub Fewer : List ℕ → List ℕ → Type 0
Fewer held' held = (p : ℕ) → occ p held' ≤ occ p held

-- What is freed stays freed.
abbrev pub StayFree : Heap → Heap → Type 0
StayFree cells cells' = (q : ℕ) → cells q ≡ none → cells' q ≡ none

drop-Fewer : (p : ℕ) (held : List ℕ) → 0 < occ p held → Fewer (drop_one p held) held
drop-Fewer p held h q = elim (ℕ_discrete q p) [
  | yes same ↦ rw same (omega (arith, occ-drop_one p held, h))
  | no other ↦ omega (arith, occ-drop_ne p q held other)
]

none-some : (snap : Snapshot) → none ≡ some snap → ⊥
none-some snap h = cc

release_tracked :
    (p : ℕ) (held tracked : List ℕ) (s : Store)
    → Tracks held tracked s
    → 0 < occ p held
    → (cells : Heap) × (store_release (some p) s ≡ some (record s { cells = cells }))
      × StayFree s.cells cells
      × Tracks (drop_one p held) tracked (record s { cells = cells })
unfolding store_release release_cell
release_tracked p held tracked s safe h =
    let (s1, e, safe1, kept) = store_release_lem held (record s { retire = tracked }) p safe h in
    elim (Option-cases (s.cells p)) [
      | inl gone ↦ absurd (omega (arith, safe.kept p gone, h))
      | inr (snap, here) ↦
          let same = sym (ap (λ o. release_cell p o (record s { retire = tracked })) here) ∙ e in
          let x = some-cancel same in
          let cells = ap (λ t. t.cells) x in
          let rt = ap (λ t. t.runtime) x ∙ kept in
          (
            s1.cells,
            rw here (ap₂ (λ c r. some (record s { cells = c; runtime = r })) cells rt),
            (λ q free.
                let other : q ≢ p = λ e. none-some snap (sym free ∙ ap s.cells e ∙ here) in
                sym (ap (λ c. c q) cells) ∙ put_ne p q _ s.cells other ∙ free),
            subst (Safe (drop_one p held))
                (sym x
                  ∙ ap₂ (λ c r. record s { cells = c; runtime = r; retire = tracked }) cells rt)
                safe1,
          )
    ]

-- The releases before a poll.
abbrev pub Released : List ℕ → List ℕ → Store → Option (List ℕ × Store) → Type 0
Released held tracked s r =
    (held' : List ℕ) × (cells : Heap) × (r ≡ some (held', record s { cells = cells }))
    × Fewer held' held
    × Tracks held' tracked (record s { cells = cells })
    × StayFree s.cells cells

let_go_lem :
    (ps held tracked : List ℕ) (s : Store)
    → Tracks held tracked s
    → Allowed ps held
    → Released held tracked s (let_go ps held s)
unfolding let_go Allowed
let_go_lem [] held tracked s safe ok = (held, s.cells, refl, (λ q. omega arith), safe, (λ q e. e))
let_go_lem (p ∷ ps) held tracked s safe (h, ok) =
    let (cells, e, free, safe1) = release_tracked p held tracked s safe h in
    let (held', cells', e', fewer, safe2, free') =
      let_go_lem ps (drop_one p held) tracked (record s { cells = cells }) safe1 ok in
    (
      held',
      cells',
      rw e e',
      (λ q. omega (arith, fewer q, drop-Fewer p held h q)),
      safe2,
      (λ q k. free' q (free q k)),
    )

-- A poll of `p`, which is tracked: what it finds.
abbrev pub Polled : ℕ → List ℕ → List ℕ → Store → Option (Bool × List ℕ × Store) → Type 0
Polled p held tracked s r =
    (b : Bool) × (held' : List ℕ) × (cells : Heap) × (snap : Snapshot) × (r
      ≡ some (b, held', record s { cells = cells }))
    × Fewer held' held
    × Tracks held' tracked (record s { cells = cells })
    × StayFree s.cells cells
    × (cells p ≡ some snap)
    × ((snap.readers.count == stop_bit) ≡ b)

pub waits_at :
    (P : ℕ → Type 0) (before : List ℕ) (p : ℕ) (after : List ℕ) → All P (before ++ p ∷ after) → P p
waits_at P [] p after h = h.0
waits_at P (x ∷ before) p after h = waits_at P before p after h.1

module _ (moves : ℕ → List ℕ → List ℕ) (p : ℕ) (before after : List ℕ)
    (allowed : (i : ℕ) (held : List ℕ) → Allowed (moves i held) held) where
  poll_lem :
      (i : ℕ) (held : List ℕ) (s : Store)
      → Tracks held (before ++ p ∷ after) s
      → Polled p held (before ++ p ∷ after) s (poll (moves i) p held s)
  unfolding poll poll_cell Waiting
  poll_lem i held s safe =
      let (held', cells, e, fewer, safe', free) =
        let_go_lem (moves i held) held (before ++ p ∷ after) s safe (allowed i held) in
      let (snap, here, high) = waits_at (Waiting cells) before p after safe'.waiting in
      (
        snap.readers.count == stop_bit,
        held',
        cells,
        snap,
        rw (e, here) refl,
        fewer,
        safe',
        free,
        here,
        refl,
      )

  pub drain_polls_lem :
      (left i : ℕ) (held : List ℕ) (s : Store)
      → Tracks held (before ++ p ∷ after) s
      → Polled p held (before ++ p ∷ after) s (drain_polls moves p left i held s)
  unfolding drain_polls
  drain_polls_lem zero i held s safe = poll_lem i held s safe
  drain_polls_lem (suc left) i held s safe =
      let (b, held', cells, snap, e, fewer, safe', free, here, found) = poll_lem i held s safe in
      let (b2, held2, cells2, snap2, e2, fewer2, safe2, free2, here2, found2) =
        drain_polls_lem left (i + 1) held' (record s { cells = cells }) safe' in
      elim (Bool-cases b) [
        | inl yes_ ↦
            (true, held', cells, snap, rw (e, yes_) refl, fewer, safe', free, here, found ∙ yes_)
        | inr no_ ↦ (
          b2,
          held2,
          cells2,
          snap2,
          rw (e, no_) e2,
          (λ q. omega (arith, fewer q, fewer2 q)),
          safe2,
          (λ q k. free2 q (free q k)),
          here2,
          found2,
        )
      ]
