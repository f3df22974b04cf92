-- ===== src/Rules/Order.antt =====
-- rules/rule_store.c: the verdict order of rules and the insertion sort that puts a new rule array
-- into it (`SkActionRank`, `SkRulePrecedes`, `SkSortRules`).
pub mod Laws
pub mod Insertion
pub mod Sorted
use shinken_sentinel.Prelude.{
  ℕ, zero, suc, ◌+◌, ◌-◌, List, Option, none, some, Bool, true, false, if◌then◌else◌, ltb, ◌==◌,
  get_or, get_elem?, set, length,
}
use shinken_sentinel.Rules.Types.{Rule, action_block, action_rate_limit, action_audit}

-- `SkActionRank`
action_rank : ℕ → ℕ
action_rank action =
    if action == action_block
    then 3
    else if action == action_rate_limit
    then 2
    else if action == action_audit
    then 1
    else 0

-- `SkRulePrecedes`: whether `a` stands before `b`.
unfoldable pub precedes : Rule → Rule → Bool
unfolding action_rank
precedes a b =
    if a.priority == b.priority
    then if action_rank a.action == action_rank b.action
      then ltb a.rule_id b.rule_id
      else ltb (action_rank b.action) (action_rank a.action)
    else ltb b.priority a.priority

module _ {ℓ} {A : Type ℓ} (before : A → A → Bool) where
  -- The inner loop of `SkSortRules` from index `j`, and the write of `t` at the index where it
  -- ends. The read at `j - 1` is in range; `t` stands for a read out of range.
  pub shift : A → List A → ℕ → List A
  shift t a zero = set a 0 t
  shift t a (suc j) = elim (before t (get_or a j t)) [
    | true ↦ shift t (set a (suc j) (get_or a j t)) j
    | false ↦ set a (suc j) t
  ]

  -- The outer loop from index `i`, with the rounds that are left.
  pub sort_loop : ℕ → ℕ → List A → List A
  sort_loop zero i a = a
  sort_loop (suc rounds) i a = elim (get_elem? a i) [
    | none ↦ a
    | some t ↦ sort_loop rounds (i + 1) (shift t a i)
  ]

-- `SkSortRules` of an array of `n` rules: `i` runs from 1 to `n - 1`.
unfoldable pub sort_rules : List Rule → List Rule
unfolding shift sort_loop precedes
sort_rules a = sort_loop precedes (length a - 1) 1 a
