-- ===== src/Rules/Store/Shutdown/Drained.antt =====
-- The drain loop of a shutdown on the heap, while readers release.
use shinken_sentinel.Prelude.{
  ℕ, ◌≤◌, ◌<◌, ◌≡◌, ◌≢◌, refl, sym, ◌∙◌, ap, subst, List, [], ◌∷◌, ◌++◌, Option, none, some, Bool,
  true, false, ◌==◌, arith, All, All-map, inl, inr, ℕ_discrete,
}
use mathlib.Core.List.{append_assoc, append-nil}
use shinken_sentinel.Runtime.State.{
  Runtime, unload_blocked, rundown_stuck, record_block, enter_unload_blocked,
}
use shinken_sentinel.Runtime.Rundown.{stop_bit}
use shinken_sentinel.Rules.Snapshot.{Snapshot}
use shinken_sentinel.Rules.Store.{Heap, Store, put}
use shinken_sentinel.Rules.Store.Safe.{occ, Waiting, NotIn, NoTwice, put_self, put_ne}
use shinken_sentinel.Rules.Store.Sections.Drain.{Drained, Safe-Freed}
use shinken_sentinel.Rules.Store.Sections.Publish.{Safe-aside}
use shinken_sentinel.Rules.Store.Shutdown.{
  Moves, shutdown_drain_retries, drain_polls, settle_one, drain_list,
}
use shinken_sentinel.Rules.Store.Shutdown.Releases.{
  Allowed, Tracks, Fewer, StayFree, drain_polls_lem, waits_at,
}

All-without :
    (P : ℕ → Type 0) (before : List ℕ) (p : ℕ) (after : List ℕ)
    → All P (before ++ p ∷ after)
    → All P (before ++ after)
All-without P [] p after h = h.1
All-without P (x ∷ before) p after h = (h.0, All-without P before p after h.1)

-- The list without an entry: it is not there again.
once_without :
    (before : List ℕ) (p : ℕ) (after : List ℕ)
    → NoTwice (before ++ p ∷ after)
    → NoTwice (before ++ after) × NotIn p (before ++ after)
once_without [] p after h = (h.1, h.0)
once_without (x ∷ before) p after h =
    let (once, off) = once_without before p after h.1 in
    let apart : x ≢ p = λ e. waits_at (λ q. q ≢ x) before p after h.0 (sym e) in
    ((All-without (λ q. q ≢ x) before p after h.0, once), (apart, off))

Waiting-put_ne :
    (cells : Heap) (p : ℕ) (ps : List ℕ)
    → NotIn p ps
    → All (Waiting cells) ps
    → All (Waiting (put p none cells)) ps
unfolding Waiting
Waiting-put_ne cells p [] h w = tt
Waiting-put_ne cells p (q ∷ ps) h ((snap, e, high), w) =
    ((snap, put_ne p q none cells h.0 ∙ e, high), Waiting-put_ne cells p ps h.1 w)

free_put : (cells : Heap) (p q : ℕ) → cells q ≡ none → put p none cells q ≡ none
free_put cells p q free = elim (ℕ_discrete q p) [
  | yes same ↦ rw same (put_self p none cells)
  | no other ↦ put_ne p q none cells other ∙ free
]

-- A drained snapshot is freed.
free_lem :
    (held before after : List ℕ) (p : ℕ) (s : Store) (snap : Snapshot)
    → Tracks held (before ++ p ∷ after) s
    → s.cells p ≡ some snap
    → snap.readers.count ≡ stop_bit
    → Tracks held (before ++ after) (record s { cells = put p none s.cells })
unfolding Drained
free_lem held before after p s snap safe here drained =
    let (once, off) = once_without before p after safe.once in
    let waits = All-without (Waiting s.cells) before p after safe.waiting in
    Safe-Freed held (record s { retire = before ++ p ∷ after }) safe (put p none s.cells)
      (λ q. elim (ℕ_discrete q p) [
        | yes same ↦ inr (rw same (put_self p none s.cells), rw same (snap, here, drained))
        | no other ↦ inl (put_ne p q none s.cells other)
      ])
      (before ++ after) (Waiting-put_ne s.cells p (before ++ after) off waits) once

-- A snapshot that a poll found in use has a holder.
busy-held :
    (held tracked : List ℕ) (p : ℕ) (s : Store) (snap : Snapshot)
    → Tracks held tracked s
    → Waiting s.cells p
    → s.cells p ≡ some snap
    → (snap.readers.count == stop_bit) ≡ false
    → 0 < occ p held
unfolding Waiting
busy-held held tracked p s snap safe (snap', e, high) here busy =
    let one : snap' ≡ snap = ground arith in
    let high' : stop_bit ≤ snap.readers.count = subst (λ t. stop_bit ≤ t.readers.count) one high in
    let c = safe.counted p snap here in
    let x = c.exact in
    let w = c.width in let not_it : snap.readers.count ≢ stop_bit = ground arith in omega arith

-- The runtime is blocked exactly where a snapshot is stuck.
pub record Blocks (kept : List ℕ) (before after : Runtime) : Type 0 where
  pub clean : kept ≡ [] → after ≡ before
  pub blocked : (p : ℕ) (ps : List ℕ) → kept ≡ p ∷ ps → after.state ≡ unload_blocked

abbrev pub DrainListEnd :
    List ℕ → List ℕ → Store → List ℕ → Option (List ℕ × Store × List ℕ) → Type 0
DrainListEnd ps held s stuck r =
    (held' : List ℕ) × (cells : Heap) × (kept : List ℕ) × (rt : Runtime) × (r
      ≡ some (held', record s { cells = cells; runtime = rt }, stuck ++ kept))
    × Fewer held' held
    × Tracks held' (stuck ++ kept) (record s { cells = cells; runtime = rt })
    × All (λ p. 0 < occ p held) kept
    × StayFree s.cells cells
    × (kept ≡ [] → All (λ p. cells p ≡ none) ps)
    × (s.runtime.state ≡ unload_blocked → rt.state ≡ unload_blocked)
    × Blocks kept s.runtime rt

blocked_runtime : Runtime → Runtime
blocked_runtime rt = enter_unload_blocked rundown_stuck (record_block rundown_stuck rt)

Fewer-held :
    (held held' ps : List ℕ)
    → Fewer held' held
    → All (λ p. 0 < occ p held') ps
    → All (λ p. 0 < occ p held) ps
Fewer-held held held' ps fewer h = All-map ps (λ p k. omega (arith, fewer p, k)) h

drain_step :
    (moves : Moves) (p : ℕ) (ps held : List ℕ) (s : Store) (stuck : List ℕ)
    → ((held : List ℕ) (s : Store) (stuck : List ℕ)
        → Tracks held (stuck ++ ps) s
        → DrainListEnd ps held s stuck (drain_list moves ps held s stuck))
    → (b : Bool) (held1 : List ℕ) (cells1 : Heap) (snap : Snapshot)
    → drain_polls (moves p) p shutdown_drain_retries 0 held s
      ≡ some (b, held1, record s { cells = cells1 })
    → Fewer held1 held
    → Tracks held1 (stuck ++ p ∷ ps) (record s { cells = cells1 })
    → StayFree s.cells cells1
    → cells1 p ≡ some snap
    → (snap.readers.count == stop_bit) ≡ b
    → DrainListEnd (p ∷ ps) held s stuck (drain_list moves (p ∷ ps) held s stuck)
unfolding drain_list settle_one blocked_runtime enter_unload_blocked
drain_step moves p ps held s stuck ih true held1 cells1 snap e fewer safe1 free here found =
    let drained : snap.readers.count ≡ stop_bit = ground arith in
    let lone = record s { cells = put p none cells1 } in
    let safe2 = free_lem held1 stuck ps p (record s { cells = cells1 }) snap safe1 here drained in
    let (held', cells, kept, rt, same, fewer', safe', holders, free', gone, keeps, blocks) =
      ih held1 lone stuck safe2 in
    (
      held',
      cells,
      kept,
      rt,
      rw e same,
      (λ q. omega (arith, fewer q, fewer' q)),
      safe',
      Fewer-held held held1 kept fewer holders,
      (λ q k. free' q (free_put cells1 p q (free q k))),
      (λ e. (free' p (put_self p none cells1), gone e)),
      keeps,
      blocks,
    )
drain_step moves p ps held s stuck ih false held1 cells1 snap e fewer safe1 free here found =
    let stopped = record s { cells = cells1; runtime = blocked_runtime s.runtime } in
    let waits = waits_at (Waiting cells1) stuck p ps safe1.waiting in
    let holder =
      busy-held held1 (stuck ++ p ∷ ps) p (record s { cells = cells1 }) snap safe1 waits here
        found in
    let moved = append_assoc stuck (p ∷ []) ps in
    let safe2 : Tracks held1 ((stuck ++ p ∷ []) ++ ps) stopped =
      subst (λ l. Tracks held1 l stopped) (sym moved)
        (Safe-aside held1 (record s { cells = cells1; retire = stuck ++ p ∷ ps }) s.table
          (blocked_runtime s.runtime) safe1) in
    let (held', cells, kept, rt, same, fewer', safe', holders, free', gone, keeps, blocks) =
      ih held1 stopped (stuck ++ p ∷ []) safe2 in
    let back = append_assoc stuck (p ∷ []) kept in
    (
      held',
      cells,
      p ∷ kept,
      rt,
      rw e (same ∙ ap (λ l. some (held', record s { cells = cells; runtime = rt }, l)) back),
      (λ q. omega (arith, fewer q, fewer' q)),
      subst (λ l. Tracks held' l (record s { cells = cells; runtime = rt })) back safe',
      (omega (arith, fewer p, holder), Fewer-held held held1 kept fewer holders),
      (λ q k. free' q (free q k)),
      (λ e. absurd (ground arith)),
      (λ h. keeps refl),
      record { clean = λ h. absurd (ground arith); blocked = λ q qs h. keeps refl },
    )

pub drain_list_lem :
    (moves : Moves)
    → ((p i : ℕ) (held : List ℕ) → Allowed (moves p i held) held)
    → (ps held : List ℕ) (s : Store) (stuck : List ℕ) → Tracks held (stuck ++ ps) s
    → DrainListEnd ps held s stuck (drain_list moves ps held s stuck)
unfolding drain_list
drain_list_lem moves allowed [] held s stuck safe = (
  held,
  s.cells,
  [],
  s.runtime,
  ap (λ l. some (held, s, l)) (sym (append-nil stuck)),
  (λ q. omega arith),
  safe,
  tt,
  (λ q e. e),
  (λ e. tt),
  (λ h. h),
  record { clean = λ h. refl; blocked = λ p ps h. absurd (ground arith) },
)
drain_list_lem moves allowed (p ∷ ps) held s stuck safe =
    let (b, held1, cells1, snap, e, fewer, safe1, free, here, found) =
      drain_polls_lem (moves p) p stuck ps (allowed p) shutdown_drain_retries 0 held s safe in
    drain_step moves p ps held s stuck (drain_list_lem moves allowed ps) b held1 cells1 snap e fewer
      safe1 free here found
