-- ===== src/Rules/Store/Shutdown.antt =====
-- `SkRuleStoreShutdown` and `SkRuleStoreInit` of rules/rule_store.c. While a shutdown drains, readers go on
-- releasing: `moves p i` says, for the readers that hold something then, which addresses are released before
-- poll `i` of the drain of `p`, in their order. None acquires, since the store shows nothing, and the
-- writers' lock is held. The list of the holders goes along with the store.
pub mod Releases
pub mod Drained
pub mod Laws
use shinken_sentinel.Prelude.{
  ℕ, zero, suc, ◌+◌, List, [], ◌∷◌, ◌++◌, Option, none, some, Bool, true, false, not, if◌then◌else◌,
  ◌==◌,
}
use shinken_sentinel.Status.{
  NtStatus, status_success, status_device_busy, status_insufficient_resources,
}
use shinken_sentinel.Runtime.State.{is_blocked, rundown_stuck, record_block, enter_unload_blocked}
use shinken_sentinel.Runtime.Rundown.{stop_bit}
use shinken_sentinel.Rules.Snapshot.{Snapshot}
use shinken_sentinel.Rules.Store.{Heap, Store, ◌>>=◌, put, store_release, detach, init_empty}
use shinken_sentinel.Rules.Store.Sections.Readers.{drop_one}

abbrev pub shutdown_drain_retries : ℕ
shutdown_drain_retries = 1000

abbrev pub Moves : Type 0
Moves = ℕ → ℕ → List ℕ → List ℕ

-- The releases between two polls.
unfoldable pub let_go : List ℕ → List ℕ → Store → Option (List ℕ × Store)
let_go [] held s = some (held, s)
let_go (p ∷ ps) held s = store_release (some p) s >>= let_go ps (drop_one p held)

-- What a poll of `ShRundownDrain` finds.
unfoldable pub poll_cell : Option Snapshot → List ℕ → Store → Option (Bool × List ℕ × Store)
poll_cell none held s = none
poll_cell (some snap) held s = some (snap.readers.count == stop_bit, held, s)

unfoldable pub poll : (List ℕ → List ℕ) → ℕ → List ℕ → Store → Option (Bool × List ℕ × Store)
poll move p held s = let_go (move held) held s >>= λ r. poll_cell (r.1.cells p) r.0 r.1

-- `ShRundownDrain` of a snapshot from poll `i` on, with the sleeps that are left.
unfoldable pub drain_polls :
    (ℕ → List ℕ → List ℕ) → ℕ → ℕ → ℕ → List ℕ → Store → Option (Bool × List ℕ × Store)
drain_polls moves p zero i held s = poll (moves i) p held s
drain_polls moves p (suc left) i held s = poll (moves i) p held s >>= λ r.
    let rest = drain_polls moves p left (i + 1) r.1 r.2 in if r.0 then some r else rest

-- One snapshot taken off the retire list and drained: freed, or kept with the block reason recorded.
unfoldable pub settle_one : ℕ → Bool → Store → List ℕ → Store × List ℕ
settle_one p true s stuck = (record s { cells = put p none s.cells }, stuck)
settle_one p false s stuck = (
  record s { runtime = enter_unload_blocked rundown_stuck (record_block rundown_stuck s.runtime) },
  stuck ++ p ∷ [],
)

unfoldable pub drain_list :
    Moves → List ℕ → List ℕ → Store → List ℕ → Option (List ℕ × Store × List ℕ)
drain_list moves [] held s stuck = some (held, s, stuck)
drain_list moves (p ∷ ps) held s stuck =
    drain_polls (moves p) p shutdown_drain_retries 0 held s >>= λ r.
    let next = settle_one p r.0 r.2 stuck in drain_list moves ps r.1 next.0 next.1

-- The stuck snapshots go back to the retire list; without any the store is closed for good.
unfoldable pub requeue : List ℕ → Store → Bool × Store
requeue [] s = (true, record s { retire = []; inited = false })
requeue (p ∷ ps) s = (false, record s { retire = p ∷ ps })

unfoldable pub shutdown : Moves → List ℕ → Store → Option (Bool × List ℕ × Store)
shutdown moves held s =
    if not s.inited
    then some (true, held, s)
    else if is_blocked s.runtime.state
    then some (false, held, s)
    else detach s >>= λ s'. drain_list moves s'.retire held s' [] >>= λ r.
        let end_ = requeue r.2 r.1 in some (end_.0, r.0, end_.1)

-- `SkRuleStoreInit`; `snap_ok` is whether the pool has memory for the empty snapshot.
unfoldable pub init_fresh : Bool → Store → NtStatus × Store
init_fresh true s = (status_success, init_empty s)
init_fresh false s = (status_insufficient_resources, s)

unfoldable pub store_init : Moves → Bool → List ℕ → Store → Option (NtStatus × List ℕ × Store)
store_init moves snap_ok held s =
    let fresh = init_fresh snap_ok s in
    if is_blocked s.runtime.state
    then some (status_device_busy, held, s)
    else if s.inited
    then (shutdown moves held s >>= λ r.
        let again = init_fresh snap_ok r.2 in
        if r.0 then some (again.0, r.1, again.1) else some (status_device_busy, r.1, r.2))
    else some (fresh.0, held, fresh.1)
