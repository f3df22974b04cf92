-- ===== src/Rules/Store/Shutdown/Laws.antt =====
-- What a shutdown and a reinitialization end in.
use shinken_sentinel.Prelude.{
  ℕ, ◌<◌, ◌≡◌, ◌≢◌, refl, ◌∙◌, ap, List, [], ◌∷◌, Option, none, some, Bool, true, false, arith, All,
}
use shinken_sentinel.Runtime.State.{Runtime, unload_blocked, is_blocked}
use shinken_sentinel.Rules.Store.{Heap, Store, ◌>>=◌, detach}
use shinken_sentinel.Rules.Store.View.{view, shown}
use shinken_sentinel.Rules.Store.Safe.{occ, Safe}
use shinken_sentinel.Rules.Store.Sections.Back.{detach_lem}
use shinken_sentinel.Rules.Store.Steps.{Safe-finish}
use shinken_sentinel.Rules.Store.Shutdown.{Moves, drain_list, requeue, shutdown}
use shinken_sentinel.Rules.Store.Shutdown.Releases.{Allowed, Fewer}
use shinken_sentinel.Rules.Store.Shutdown.Drained.{drain_list_lem}

-- The end of a shutdown that had something to do: success with nothing left on the retire list and
-- every snapshot freed that was on it behind the detachment, or
-- failure with every snapshot on it held by a reader when it began, and the driver blocked.
abbrev pub ShutdownEnd : List ℕ → Store → Store → Bool → Type 0
ShutdownEnd held s s' true =
    (s'.inited ≡ false)
    × (s'.retire ≡ [])
    × (s'.runtime ≡ s.runtime)
    × ((s1 : Store) × (detach s ≡ some s1) × All (λ p. s'.cells p ≡ none) s1.retire)
ShutdownEnd held s s' false =
    (s'.inited ≡ s.inited)
    × (s'.retire ≢ [])
    × All (λ p. 0 < occ p held) s'.retire
    × (s'.runtime.state ≡ unload_blocked)

abbrev pub ShutdownResult : List ℕ → Store → Option (Bool × List ℕ × Store) → Type 0
ShutdownResult held s result =
    (b : Bool) × (held' : List ℕ) × (s' : Store) × (result ≡ some (b, held', s'))
    × Fewer held' held
    × Safe held' s'
    × (s'.closed ≡ true)
    × (view s' ≡ record { now = none; previous = none })
    × ShutdownEnd held s s' b

-- The store after the drain loop, with the list of stuck snapshots.
abbrev drained_store : Store → Heap → List ℕ → Runtime → Store
drained_store s cells retire rt = record s {
  cells = cells;
  retire = retire;
  closed = true;
  current = none;
  rollback = none;
  runtime = rt;
}

-- What the last section makes of the loop's result.
abbrev ended : List ℕ × Store × List ℕ → Option (Bool × List ℕ × Store)
ended r = let end_ = requeue r.2 r.1 in some (end_.0, r.0, end_.1)

requeue_lem :
    (held held' : List ℕ) (s : Store) (cells : Heap) (rt : Runtime) (old kept : List ℕ)
    → Fewer held' held
    → Safe held' (drained_store s cells kept rt)
    → All (λ p. 0 < occ p held) kept
    → (kept ≡ [] → rt ≡ s.runtime)
    → ((p : ℕ) (ps : List ℕ) → kept ≡ p ∷ ps → rt.state ≡ unload_blocked)
    → (kept ≡ [] → (s1 : Store) × (detach s ≡ some s1) × All (λ p. cells p ≡ none) s1.retire)
    → ShutdownResult held s (ended (held', drained_store s cells old rt, kept))
unfolding requeue shown
requeue_lem held held' s cells rt old [] fewer safe holders clean blocked gone = (
  true,
  held',
  record (drained_store s cells [] rt) { inited = false },
  refl,
  fewer,
  Safe-finish held' (drained_store s cells [] rt) safe,
  refl,
  refl,
  (refl, refl, clean refl, gone refl),
)
requeue_lem held held' s cells rt old (p ∷ ps) fewer safe holders clean blocked gone = (
  false,
  held',
  drained_store s cells (p ∷ ps) rt,
  refl,
  fewer,
  safe,
  refl,
  refl,
  (refl, (λ h. absurd (ground arith)), holders, blocked p ps refl),
)

shutdown_step :
    (moves : Moves) (held : List ℕ) (s s' : Store)
    → s.inited ≡ true
    → is_blocked s.runtime.state ≡ false
    → detach s ≡ some s'
    → shutdown moves held s ≡ (drain_list moves s'.retire held s' [] >>= ended)
unfolding shutdown
shutdown_step moves held s s' started open_ h = rw (h, open_, started) refl

-- `SkRuleStoreShutdown` of a store that is initialized, in a driver that is not blocked, with readers that
-- release what they hold at any poll of the forced drain, touches no freed snapshot and frees none twice; no
-- release meets one either, and the snapshots that are still held at the end are there. Nothing is shown
-- afterwards and the store stays closed. It returns TRUE with every snapshot freed that the detachment retired or found retired, and the driver
-- as it was, or FALSE with a retire list of snapshots that readers held when it began, and the driver in
-- UNLOAD_BLOCKED.
pub shutdown_lem :
    (moves : Moves)
    → ((p i : ℕ) (held : List ℕ) → Allowed (moves p i held) held)
    → (held : List ℕ) (s : Store) → Safe held s
    → s.inited ≡ true
    → is_blocked s.runtime.state ≡ false
    → ShutdownResult held s (shutdown moves held s)
shutdown_lem moves allowed held s safe started open_ =
    let (cells1, retire1, same1, safe1) = detach_lem held s safe in
    let s1 : Store = drained_store s cells1 retire1 s.runtime in
    let (held', cells, kept, rt, same, fewer, safe2, holders, _, gone, _, blocks) =
      drain_list_lem moves allowed retire1 held s1 [] safe1 in
    let steps = shutdown_step moves held s s1 started open_ same1 ∙ ap (λ m. m >>= ended) same in
    let (b, held2, s', done, fewer', safe', closed, shows, end_) =
      requeue_lem held held' s cells rt retire1 kept fewer safe2 holders blocks.clean blocks.blocked
        (λ e. (s1, same1, gone e)) in
    (b, held2, s', steps ∙ done, fewer', safe', closed, shows, end_)
