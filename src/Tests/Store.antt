-- ===== src/Tests/Store.antt =====
-- The rule store: the theorems on a store with one rule.

use shinken_sentinel.Prelude.{List, Option, none, ◌≡◌, refl, [], ◌∷◌, some, true, false, arith}
use shinken_sentinel.Status.{status_success}
use shinken_sentinel.Rules.Types.{has}
use shinken_sentinel.Rules.Validate.{validate}
use shinken_sentinel.Rules.Rate.{empty_table}
use shinken_sentinel.Rules.Snapshot.{new_snapshot}
use shinken_sentinel.Rules.Store.{
  Store, put, install, init_empty, swap, swap_at, swap_cell, retire_slot, writable, has_id, publish,
  store_acquire, acquire_at, acquire_cell,
}
use shinken_sentinel.Rules.Store.View.{shown, view}
use shinken_sentinel.Rules.Store.Safe.{Good}
use shinken_sentinel.Rules.Store.Steps.{Step, Reach, blank, NoFault, Reach-Safe, never_freed_in_use}
use shinken_sentinel.Rules.Store.Api.{add, replace, rollback}
use shinken_sentinel.Rules.Store.Api.Writers.{Ready, Outcome}
use shinken_sentinel.Rules.Store.Api.Calls.{add_refusal, Added, add_outcome}
use shinken_sentinel.Rules.Store.Api.Bulk.{replace_refusal, Replaced, replace_outcome}
use shinken_sentinel.Rules.Store.Api.Rollback.{undone, rollback_undoes_publish}
use shinken_sentinel.Runtime.State.{is_blocked}
use shinken_sentinel.Rules.Store.Shutdown.{Moves, shutdown}
use shinken_sentinel.Rules.Store.Shutdown.Releases.{Allowed}
use shinken_sentinel.Rules.Store.Sections.Readers.{occ_self}
use shinken_sentinel.Runtime.Rundown.{acquire}
use shinken_sentinel.Rules.Store.Shutdown.Laws.{ShutdownResult, shutdown_lem}
use shinken_sentinel.Prelude.{ℕ, ◌+◌, Bool}
use shinken_sentinel.Rules.Types.{Rule}
use shinken_sentinel.Tests.Data.{
  block_rule, slow_rule, running, empty_store, one_rule_store, one_rule_content,
}

one_rule-Good : Good (block_rule ∷ [])
unfolding validate has has_id
one_rule-Good = record {
  in_order = (tt, tt);
  valid = (refl, tt);
  distinct = (refl, tt);
  bounded = omega arith;
}

published_one : swap (block_rule ∷ []) 0 empty_store ≡ some (status_success, one_rule_store)
unfolding swap swap_at swap_cell retire_slot writable init_empty blank install put new_snapshot
published_one = refl

pub one_rule-Reach : Reach empty_table running [] one_rule_store
unfolding blank
one_rule-Reach =
    Reach.step (Reach.step Reach.start (Step.init refl refl))
      (Step.publish (block_rule ∷ []) 0 status_success one_rule_store one_rule-Good published_one)

pub one_rule-Ready : Ready [] one_rule_store one_rule_content
unfolding swap swap_at swap_cell retire_slot writable init_empty blank install put new_snapshot
    shown
one_rule-Ready = record { safe = Reach-Safe one_rule-Reach; open_ = refl; shows = refl }

pub one_rule-inited : one_rule_store.inited ≡ true
unfolding swap swap_at swap_cell retire_slot writable init_empty blank install put new_snapshot
one_rule-inited = refl

never_freed_in_use_example : NoFault [] one_rule_store
never_freed_in_use_example = never_freed_in_use one_rule-Reach

add_outcome_example :
    Outcome [] one_rule_store one_rule_content
      (add_refusal slow_rule one_rule_content)
      true
      (Added slow_rule one_rule_content)
      (add true true slow_rule one_rule_store)
add_outcome_example =
    add_outcome [] one_rule_store one_rule_content one_rule-Ready true true slow_rule

replace_outcome_example :
    Outcome [] one_rule_store one_rule_content
      (replace_refusal (slow_rule ∷ block_rule ∷ []) 1 one_rule_content)
      true
      (Replaced (slow_rule ∷ block_rule ∷ []) one_rule_content)
      (replace true true (slow_rule ∷ block_rule ∷ []) 1 one_rule_store)
replace_outcome_example =
    replace_outcome [] one_rule_store one_rule_content one_rule-Ready true true
      (slow_rule ∷ block_rule ∷ []) 1

rollback_undoes_publish_example :
    (s1 : Store) × (s2 : Store) × (publish true (block_rule ∷ []) 1 one_rule_store
      ≡ some (status_success, s1))
    × (rollback true true s1 ≡ some (status_success, s2))
    × ((view s2).now ≡ some (undone one_rule_content))
rollback_undoes_publish_example =
    rollback_undoes_publish [] one_rule_store one_rule_content (block_rule ∷ []) 1 one_rule-Ready
      one_rule-Good

-- A reader holds the rule set, and lets go of it before the first poll of the drain.
abbrev store_behind : Option (Option ℕ × Store) → Store
store_behind none = one_rule_store
store_behind (some r) = r.1

abbrev held_store : Store
held_store = store_behind (store_acquire one_rule_store)

held_store-Reach : Reach empty_table running (1 ∷ []) held_store
unfolding swap swap_at swap_cell retire_slot writable init_empty blank install put new_snapshot
    store_acquire acquire_at acquire_cell acquire
held_store-Reach = Reach.step one_rule-Reach (Step.acquire (some 1) held_store refl)

held_store-inited : held_store.inited ≡ true
unfolding swap swap_at swap_cell retire_slot writable init_empty blank install put new_snapshot
    store_acquire acquire_at acquire_cell acquire
held_store-inited = refl

held_store-open : is_blocked held_store.runtime.state ≡ false
unfolding swap swap_at swap_cell retire_slot writable init_empty blank install put new_snapshot
    store_acquire acquire_at acquire_cell acquire
held_store-open = refl

abbrev first_lets_go : Moves
first_lets_go p i [] = []
first_lets_go p i (q ∷ held) = q ∷ []

first-Allowed : (p i : ℕ) (held : List ℕ) → Allowed (first_lets_go p i held) held
unfolding Allowed
first-Allowed p i [] = tt
first-Allowed p i (q ∷ held) = (omega (arith, occ_self q held), tt)

shutdown_lem_example :
    ShutdownResult (1 ∷ []) held_store (shutdown first_lets_go (1 ∷ []) held_store)
shutdown_lem_example =
    shutdown_lem first_lets_go first-Allowed (1 ∷ []) held_store (Reach-Safe held_store-Reach)
      held_store-inited held_store-open

-- A callback that counts the rules it is shown.
abbrev count_rule : Rule → ℕ → Bool × ℕ
count_rule rule n = (true, n + 1)
