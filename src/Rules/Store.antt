-- ===== src/Rules/Store.antt =====
-- rules/rule_store.c: the state of the rule store and its sections under `g_PublishLock`.
-- The heap maps an address to a snapshot, to `none` once it is freed (or not yet allocated).
-- An access to a freed snapshot makes the result `none`.
pub mod Binds
pub mod View
pub mod Safe
pub mod Sections
pub mod Steps
pub mod Api
pub mod Shutdown
use shinken_sentinel.Prelude.{
  ℕ, zero, suc, ◌+◌, List, [], ◌∷◌, ◌++◌, Option, none, some, Bool, true, false, not, ◌&&◌,
  if◌then◌else◌, ◌==◌,
}
use shinken_sentinel.Status.{
  NtStatus, status_success, status_insufficient_resources, status_invalid_device_state,
}
use shinken_sentinel.Runtime.State.{Runtime, is_active}
use shinken_sentinel.Runtime.Rundown.{acquire, release, begin_stop, ActiveCount, active_count}
use shinken_sentinel.Runtime.Rundown
use shinken_sentinel.Rules.Types.{Rule}
use shinken_sentinel.Rules.Rate.{RateTable, rate_reset, u64}
use shinken_sentinel.Rules.Snapshot.{Snapshot, new_snapshot, policy_permit}

abbrev pub Heap : Type 0
Heap = ℕ → Option Snapshot

-- `g_Current`, `g_RollbackSlot`, `g_RetireList`, `g_StoreInited`, `g_StoreClosed`, with the heap, the
-- next address that the allocator gives out, and the rate table and runtime that the store changes.
pub record Store : Type 0 where
  pub cells : Heap
  pub fresh : ℕ
  pub current : Option ℕ
  pub rollback : Option ℕ
  pub retire : List ℕ
  pub inited : Bool
  pub closed : Bool
  pub table : RateTable
  pub runtime : Runtime

infixl 5 ◌>>=◌
abbrev pub ◌>>=◌ {ℓ κ} : {A : Type ℓ} {B : Type κ} → Option A → (A → Option B) → Option B
none >>= f = none
some a >>= f = f a

-- `SkStoreWritableNoLock`
unfoldable pub writable : Store → Bool
writable s = s.inited && (not s.closed && is_active s.runtime.state)

unfoldable pub put : ℕ → Option Snapshot → Heap → Heap
put p v cells q = if q == p then v else cells q

-- Reader section R: `SkRuleStoreAcquire`, which returns the address of the snapshot.
unfoldable pub acquire_cell : ℕ → Option Snapshot → Store → Option (Option ℕ × Store)
acquire_cell p none s = none
acquire_cell p (some snap) s =
    let (held, readers) = acquire snap.readers in
    if held
    then some
        (some p, record s { cells = put p (some (record snap { readers = readers })) s.cells })
    else some (none, s)

unfoldable pub acquire_at : Option ℕ → Store → Option (Option ℕ × Store)
acquire_at none s = some (none, s)
acquire_at (some p) s = if s.closed then some (none, s) else acquire_cell p (s.cells p) s

unfoldable pub store_acquire : Store → Option (Option ℕ × Store)
store_acquire s = acquire_at s.current s

-- `SkRuleStoreRelease`
unfoldable pub release_cell : ℕ → Option Snapshot → Store → Option Store
release_cell p none s = none
release_cell p (some snap) s =
    let (readers, runtime) = release snap.readers s.runtime in
    some (record s {
      cells = put p (some (record snap { readers = readers })) s.cells;
      runtime = runtime;
    })

unfoldable pub store_release : Option ℕ → Store → Option Store
store_release none s = some s
store_release (some p) s = release_cell p (s.cells p) s

-- The lock section of `SkRetireDrain`: what stays on the list, and what is taken off.
abbrev is_drained : ActiveCount → Bool
is_drained ActiveCount.drained = true
is_drained (ActiveCount.holders n) = false

unfoldable pub sift_one : ℕ → Option Snapshot → Option (List ℕ × List ℕ) → Option (List ℕ × List ℕ)
sift_one p none rest = none
sift_one p (some snap) none = none
sift_one p (some snap) (some (kept, out)) =
    if is_drained (active_count snap.readers) then some (kept, p ∷ out) else some (p ∷ kept, out)

unfoldable pub sift : Heap → List ℕ → Option (List ℕ × List ℕ)
sift cells [] = some ([], [])
sift cells (p ∷ ps) = sift_one p (cells p) (sift cells ps)

-- `SkSnapFree`, of each snapshot taken off.
unfoldable pub free_cell : ℕ → Option Snapshot → Heap → Option Heap
free_cell p none cells = none
free_cell p (some snap) cells = some (put p none cells)

unfoldable pub free_all : List ℕ → Heap → Option Heap
free_all [] cells = some cells
free_all (p ∷ ps) cells = free_cell p (cells p) cells >>= free_all ps

-- The detachment under the lock and the frees behind it are one step: nothing refers to what is detached.
unfoldable pub drain_round : Store → Option Store
drain_round s = sift s.cells s.retire >>= λ parts.
    free_all parts.1 s.cells >>= λ cells. some (record s { cells = cells; retire = parts.0 })

-- `SkRetireDrain`, with the rounds that are left after the first.
unfoldable pub is_empty : List ℕ → Bool
is_empty [] = true
is_empty (p ∷ ps) = false

unfoldable pub retire_drain : ℕ → Store → Option Store
retire_drain zero s = drain_round s
retire_drain (suc left) s =
    drain_round s >>= λ s'. if is_empty s'.retire then some s' else retire_drain left s'

abbrev pub retire_drain_retries : ℕ
retire_drain_retries = 50

-- A snapshot is stopped, marked and put on the retire list.
unfoldable pub retire_cell : ℕ → Option Snapshot → Store → Option Store
retire_cell p none s = none
retire_cell p (some snap) s = some (record s {
  cells = put p (some (record snap { readers = begin_stop snap.readers; retired = true })) s.cells;
  retire = s.retire ++ p ∷ [];
})

unfoldable pub retire_slot : Option ℕ → Store → Option Store
retire_slot none s = some s
retire_slot (some p) s = retire_cell p (s.cells p) s

-- `SkRateResetRemoved`
unfoldable pub has_id : ℕ → List Rule → Bool
has_id id [] = false
has_id id (rule ∷ rules) = if rule.rule_id == id then true else has_id id rules

unfoldable pub rate_reset_removed : List Rule → List Rule → RateTable → RateTable
rate_reset_removed [] new table = table
rate_reset_removed (rule ∷ old) new table =
    rate_reset_removed old new
      (if has_id rule.rule_id new then table else rate_reset rule.rule_id table)

-- The snapshot that `SkSnapAlloc` made is written and becomes the current one. It is private to the
-- writer until then, so it enters the heap here.
unfoldable pub install : List Rule → ℕ → ℕ → Store → Store
install rules version policy s = record s {
  cells = put s.fresh (some (new_snapshot rules version policy)) s.cells;
  fresh = s.fresh + 1;
  current = some s.fresh;
}

-- Writer section W of `SkPublish`: `c` is the displaced snapshot, which stays for a rollback.
unfoldable pub swap_cell : List Rule → ℕ → ℕ → Option Snapshot → Store → Option (NtStatus × Store)
swap_cell rules policy c none s = none
swap_cell rules policy c (some old) s =
    retire_slot s.rollback
      (record (install rules (u64 (old.version + 1)) policy s) { rollback = some c })
    >>= λ s'.
        some (status_success, record s' { table = rate_reset_removed old.rules rules s'.table })

unfoldable pub swap_at : List Rule → ℕ → Option ℕ → Store → Option (NtStatus × Store)
swap_at rules policy none s = none
swap_at rules policy (some c) s = swap_cell rules policy c (s.cells c) s

unfoldable pub swap : List Rule → ℕ → Store → Option (NtStatus × Store)
swap rules policy s =
    if writable s then swap_at rules policy s.current s else some (status_invalid_device_state, s)

-- `SkPublish`; `snap_ok` is whether the pool has memory for the snapshot.
unfoldable pub publish : Bool → List Rule → ℕ → Store → Option (NtStatus × Store)
publish false rules policy s = some (status_insufficient_resources, s)
publish true rules policy s = retire_drain retire_drain_retries s >>= swap rules policy

-- The section of `SkRuleStoreRollback`: the content of the slot `r` in a new snapshot; the displaced
-- snapshot `c` and the slot retire.
unfoldable pub back_cells :
    ℕ → ℕ → Option Snapshot → Option Snapshot → Store → Option (NtStatus × Store)
back_cells c r none slot s = none
back_cells c r (some old) none s = none
back_cells c r (some old) (some slot) s =
    retire_slot (some c)
      (record (install slot.rules (u64 (old.version + 1)) slot.default_policy s) {
        rollback = none;
      })
    >>= retire_slot (some r)
    >>= λ s'.
        some
          (status_success, record s' { table = rate_reset_removed old.rules slot.rules s'.table })

unfoldable pub back_at : Option ℕ → ℕ → Store → Option (NtStatus × Store)
back_at none r s = none
back_at (some c) r s = back_cells c r (s.cells c) (s.cells r) s

unfoldable pub swap_back : ℕ → Store → Option (NtStatus × Store)
swap_back r s = if writable s then back_at s.current r s else some (status_invalid_device_state, s)

-- The section of `SkRuleStoreShutdown`: the gate closes, both pointers are detached and retired.
unfoldable pub detach : Store → Option Store
detach s =
    retire_slot s.current (record s { closed = true; current = none; rollback = none })
    >>= retire_slot s.rollback

-- The end of `SkRuleStoreInit`: an empty snapshot of version 0 that permits, in fresh tracking.
unfoldable pub init_empty : Store → Store
unfolding install
init_empty s = record (install [] 0 policy_permit s) {
  rollback = none;
  retire = [];
  inited = true;
  closed = false;
}
