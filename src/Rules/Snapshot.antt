-- ===== src/Rules/Snapshot.antt =====
-- rules/rule_store.h, `SK_RULE_SNAPSHOT`: a published rule set. `count` is the length of the array;
-- the link of the retire list is the store's list of pointers.
use Prim.Native.Nat.{ℕ}
use mathlib.Core.Bool.{Bool, false}
use mathlib.Core.List.{List}
use shinken_sentinel.Runtime.Rundown.{Rundown, rundown_init}
use shinken_sentinel.Rules.Types.{Rule}

pub record Snapshot : Type 0 where
  pub rules : List Rule
  pub version : ℕ
  pub default_policy : ℕ
  pub readers : Rundown
  pub retired : Bool

-- `(UINT32)SkVerdictPermit` and `(UINT32)SkVerdictBlock`
abbrev pub policy_permit : ℕ
policy_permit = 0

abbrev pub policy_block : ℕ
policy_block = 1

-- A snapshot as `SkSnapAlloc` makes it, with the content that the caller writes into it.
unfoldable pub new_snapshot : List Rule → ℕ → ℕ → Snapshot
unfolding rundown_init
new_snapshot rules version policy = record {
  rules = rules;
  version = version;
  default_policy = policy;
  readers = rundown_init;
  retired = false;
}
