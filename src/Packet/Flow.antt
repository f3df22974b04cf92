-- ===== src/Packet/Flow.antt =====
-- packet/flow_context.c: the table of flow contexts with their reference counts, as interleaved steps.
-- A section under g_SkFlowLock is one step, with the releases of references that directly follow it; so is each
-- access outside it, the removal of the head of a stale list among them. A context is an address in a heap; an
-- operation that reads or writes a freed one has no result. The table is initialized.
pub mod Laws
use shinken_sentinel.Prelude.{
  ℕ, ◌+◌, ◌-◌, ◌%◌, ◌^◌, ◌<◌, ◌≡◌, List, [], ◌∷◌, ◌++◌, Option, none, some, Bool, true, false,
  if◌then◌else◌, ltb, ◌==◌, length,
}
use shinken_sentinel.Rules.Store.{◌>>=◌}
use shinken_sentinel.Rules.Store.Safe.{occ}
use shinken_sentinel.Rules.Store.Sections.Readers.{drop_one}
use shinken_sentinel.Telemetry.Ring.{set_at}

-- `SK_FLOW_CTX`, without the statistics; the link is in the lists below.
pub record FlowCtx : Type 0 where
  pub ref : ℕ
  pub flow_id : ℕ
  pub layer_id : ℕ
  pub callout_id : ℕ

-- The heap of contexts, `g_SkFlowList` and `g_SkFlowEntries`; the `stale` lists of the removals that run,
-- the entries that they have popped off them with the links still set, and those whose links they have
-- cleared; the references of callers, and of the attaches that wait for
-- FwpsFlowAssociateContext0. `slipped` counts the failed attaches that found their context on a stale list.
pub record Flows : Type 0 where
  pub cells : ℕ → Option FlowCtx
  pub table : List ℕ
  pub entries : ℕ
  pub stale : List ℕ
  pub popped : List ℕ
  pub in_hand : List ℕ
  pub callers : List ℕ
  pub attaching : List ℕ
  pub slipped : ℕ

-- `SkFlowInit`
abbrev pub no_flows : Flows
no_flows = record {
  cells = λ p. none;
  table = [];
  entries = 0;
  stale = [];
  popped = [];
  in_hand = [];
  callers = [];
  attaching = [];
  slipped = 0;
}

abbrev pub u32 : ℕ → ℕ
u32 n = n % 2 ^ 32

-- `SkFlowAddRef` and `SkFlowRelease`, on what the heap has at the address.
unfoldable pub add_ref : ℕ → Option FlowCtx → Flows → Option Flows
add_ref p none s = none
add_ref p (some c) s =
    some (record s { cells = set_at p (some (record c { ref = u32 (c.ref + 1) })) s.cells })

unfoldable pub flow_release : ℕ → Option FlowCtx → Flows → Option Flows
flow_release p none s = none
flow_release p (some c) s =
    if c.ref == 1
    then some (record s { cells = set_at p none s.cells })
    else some
        (record s { cells = set_at p (some (record c { ref = u32 (c.ref + 2 ^ 32 - 1) })) s.cells })

-- `skFlowFindLocked`
unfoldable pub flow_find : (ℕ → Option FlowCtx) → ℕ → List ℕ → Option (Option ℕ)
flow_find cells id [] = some none
flow_find cells id (p ∷ ps) =
    cells p >>= λ c. if c.flow_id == id then some (some p) else flow_find cells id ps

-- `SkFlowAttach`, the section under the lock: an entry is used again, or the new context is linked.
unfoldable pub link_or_reuse : Option ℕ → ℕ → FlowCtx → Flows → Option Flows
link_or_reuse (some old) p new s =
    add_ref old (s.cells old) (record s { callers = old ∷ s.callers })
link_or_reuse none p new s = some (record s {
  cells = set_at p (some new) s.cells;
  table = s.table ++ p ∷ [];
  entries = u32 (s.entries + 1);
  attaching = p ∷ s.attaching;
})

unfoldable pub flow_attach : ℕ → ℕ → ℕ → ℕ → Flows → Option Flows
flow_attach p id layer callout s = flow_find s.cells id s.table >>= λ old.
    link_or_reuse old p (record { ref = 2; flow_id = id; layer_id = layer; callout_id = callout }) s

-- The association succeeds: the reference is the caller's.
unfoldable pub attach_done : ℕ → Flows → Flows
attach_done p s = record s { attaching = drop_one p s.attaching; callers = p ∷ s.callers }

abbrev pub is_in : ℕ → List ℕ → Bool
is_in p l = ltb 0 (occ p l)

-- The association fails: where the link is set, the context is unlinked, and both references are given back. A
-- popped context is on no list, but its link is set and its removal still has its address.
unfoldable pub attach_unlink : ℕ → Flows → Option Flows
attach_unlink p s =
    if is_in p s.table
    then flow_release p (s.cells p)
        (record s { table = drop_one p s.table; entries = u32 (s.entries + 2 ^ 32 - 1) })
    else if is_in p s.stale
    then flow_release p (s.cells p) (record s {
      stale = drop_one p s.stale;
      entries = u32 (s.entries + 2 ^ 32 - 1);
      slipped = s.slipped + 1;
    })
    else if is_in p s.popped
    then flow_release p (s.cells p) (record s { entries = u32 (s.entries + 2 ^ 32 - 1) })
    else some s

unfoldable pub attach_failed : ℕ → Flows → Option Flows
attach_failed p s = attach_unlink p s >>= λ s'.
    flow_release p (s'.cells p) (record s' { attaching = drop_one p s'.attaching })

-- The release of a caller's reference.
unfoldable pub caller_release : ℕ → Flows → Option Flows
caller_release p s = flow_release p (s.cells p) (record s { callers = drop_one p s.callers })

-- `SkFlowDeleteNotify`
unfoldable pub delete_notify : ℕ → Flows → Option Flows
delete_notify p s =
    if is_in p s.table
    then flow_release p (s.cells p)
        (record s { table = drop_one p s.table; entries = u32 (s.entries + 2 ^ 32 - 1) })
    else some s

-- `SkFlowRemoveAll`: the walk of the table under the lock, with what it keeps and what it moves.
unfoldable pub split_callout : (ℕ → Option FlowCtx) → ℕ → List ℕ → Option (List ℕ × List ℕ)
split_callout cells callout [] = some ([], [])
split_callout cells callout (p ∷ ps) = cells p >>= λ c. split_callout cells callout ps >>= λ r.
    some (if c.callout_id == callout then (r.0, p ∷ r.1) else (p ∷ r.0, r.1))

unfoldable pub remove_begin : ℕ → Flows → Option Flows
remove_begin callout s = split_callout s.cells callout s.table >>= λ r. some (record s {
  table = r.0;
  stale = s.stale ++ r.1;
  entries = u32 (s.entries + 2 ^ 32 - u32 (length r.1));
})

-- An entry is popped off the stale list, its link is cleared, and FlowRemoveContext answers.
unfoldable pub remove_pop : ℕ → Flows → Flows
remove_pop p s = record s { stale = drop_one p s.stale; popped = p ∷ s.popped }

unfoldable pub remove_clear : ℕ → Flows → Option Flows
remove_clear p s =
    s.cells p >>= λ c. some (record s { popped = drop_one p s.popped; in_hand = p ∷ s.in_hand })

unfoldable pub remove_answer : Bool → ℕ → Flows → Option Flows
remove_answer true p s = flow_release p (s.cells p) (record s { in_hand = drop_one p s.in_hand })
remove_answer false p s = some (record s {
  in_hand = drop_one p s.in_hand;
  table = s.table ++ p ∷ [];
  entries = u32 (s.entries + 1);
})

-- `SkFlowCount`
unfoldable pub flow_count : Flows → ℕ
flow_count s = s.entries

-- `SkFlowDestroy`: what is left on the table is freed, whatever its count.
unfoldable pub free_all : List ℕ → (ℕ → Option FlowCtx) → ℕ → Option FlowCtx
free_all [] cells = cells
free_all (p ∷ ps) cells = free_all ps (set_at p none cells)

unfoldable pub flow_destroy : Flows → Flows
flow_destroy s = record s {
  cells = free_all s.table s.cells;
  table = [];
  entries = u32 (s.entries + 2 ^ 32 - u32 (length s.table));
}

-- All references to a context that the code holds.
unfoldable pub linked : ℕ → Flows → ℕ
linked p s = occ p s.table + occ p s.stale + occ p s.popped + occ p s.in_hand

unfoldable pub refs : ℕ → Flows → ℕ
refs p s = linked p s + occ p s.callers + occ p s.attaching

-- One operation of a callback or a removal; memory is had at an address that is not in use, no context
-- has 2 ^ 32 - 1 references at once, and no association fails between the pop of its context and the
-- clearing of the link.
pub data FlowStep (s : Flows) : Option Flows → Type 0 where
  attach :
      (p id layer callout : ℕ)
      → s.cells p ≡ none
      → ((q : ℕ) → refs q s < 2 ^ 32 - 2)
      → FlowStep s (flow_attach p id layer callout s)
  associated : (p : ℕ) → 0 < occ p s.attaching → FlowStep s (some (attach_done p s))
  not_associated :
      (p : ℕ) → 0 < occ p s.attaching → occ p s.popped ≡ 0 → FlowStep s (attach_failed p s)
  released : (p : ℕ) → 0 < occ p s.callers → FlowStep s (caller_release p s)
  notified : (p : ℕ) → FlowStep s (delete_notify p s)
  begin_removal : (callout : ℕ) → FlowStep s (remove_begin callout s)
  take : (p : ℕ) → 0 < occ p s.stale → FlowStep s (some (remove_pop p s))
  clear : (p : ℕ) → 0 < occ p s.popped → FlowStep s (remove_clear p s)
  answer : (ok : Bool) (p : ℕ) → 0 < occ p s.in_hand → FlowStep s (remove_answer ok p s)

pub data FlowSteps (s : Flows) : Option Flows → Type 0 where
  start : FlowSteps s (some s)
  then_ : {t : Flows} {u : Option Flows} → FlowSteps s (some t) → FlowStep t u → FlowSteps s u
