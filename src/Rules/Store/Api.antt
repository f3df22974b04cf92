-- ===== src/Rules/Store/Api.antt =====
-- rules/rule_store.c: the writer API, each call under the store lock, and the queries.
-- A call gets as arguments whether the pool has memory for the rule array and for the snapshot.
-- A writer's plan says what it does with the current rule set: refuse, or publish a new one.
pub mod Plans
pub mod Writers
pub mod Edits
pub mod Enable
pub mod Calls
pub mod Bulk
pub mod Rollback
pub mod Queries
use shinken_sentinel.Prelude.{
  ℕ, zero, suc, ◌+◌, ◌-◌, ◌*◌, List, [], ◌∷◌, ◌++◌, Option, none, some, Bool, true, false, not,
  ◌&&◌, ◌||◌, if◌then◌else◌, ltb, leb, ◌==◌, length,
}
use shinken_sentinel.Status.{
  NtStatus, nt_success, status_success, status_insufficient_resources, status_invalid_device_state,
  status_invalid_parameter, status_objectid_exists, status_not_found, status_retry,
}
use shinken_sentinel.Rules.Types.{Rule}
use shinken_sentinel.Rules.Validate.{validate}
use shinken_sentinel.Rules.Order.{sort_rules}
use shinken_sentinel.Rules.Rate.{rate_reset}
use shinken_sentinel.Rules.Snapshot.{Snapshot, policy_permit, policy_block}
use shinken_sentinel.Rules.Store.{
  Store, ◌>>=◌, writable, has_id, publish, retire_drain, retire_drain_retries, swap_back,
}
use shinken_sentinel.Rules.Store.View.{Content}
use shinken_sentinel.Rules.Store.Safe.{rule_max}
use shinken_sentinel.Rules.Store.Sections.Publish.{content_of}

pub data Plan : Type 0 where
  refuse : NtStatus → Plan
  commit : List Rule → ℕ → Plan

unfoldable pub run_plan : Bool → Plan → Store → Option (NtStatus × Store)
run_plan snap_ok (Plan.refuse st) s = some (st, s)
run_plan snap_ok (Plan.commit rules policy) s = publish snap_ok rules policy s

unfoldable pub plan_cell :
    Bool → (Content → Plan) → Option Snapshot → Store → Option (NtStatus × Store)
plan_cell snap_ok plan none s = none
plan_cell snap_ok plan (some cur) s = run_plan snap_ok (plan (content_of cur)) s

unfoldable pub plan_at : Bool → (Content → Plan) → Option ℕ → Store → Option (NtStatus × Store)
plan_at snap_ok plan none s = none
plan_at snap_ok plan (some c) s = plan_cell snap_ok plan (s.cells c) s

-- The frame that the writers share: the lock, the test that the store may be written, `g_Current`.
unfoldable pub writer : Bool → (Content → Plan) → Store → Option (NtStatus × Store)
writer snap_ok plan s =
    if writable s then plan_at snap_ok plan s.current s else some (status_invalid_device_state, s)

-- `SkRuleRateReset` of a rule, where the publication succeeded.
unfoldable pub reset_after : ℕ → NtStatus × Store → Option (NtStatus × Store)
reset_after id r =
    if nt_success r.0 then some (r.0, record (r.1) { table = rate_reset id r.1.table }) else some r

-- `SkRuleStoreAdd`
unfoldable pub add_plan : Bool → Rule → Content → Plan
add_plan array_ok rule cur =
    if leb rule_max (length cur.rules)
    then Plan.refuse status_insufficient_resources
    else if has_id rule.rule_id cur.rules
    then Plan.refuse status_objectid_exists
    else if array_ok
    then Plan.commit (sort_rules (cur.rules ++ rule ∷ [])) cur.policy
    else Plan.refuse status_insufficient_resources

unfoldable pub add : Bool → Bool → Rule → Store → Option (NtStatus × Store)
add array_ok snap_ok rule s =
    if nt_success (validate rule)
    then writer snap_ok (add_plan array_ok rule) s >>= reset_after rule.rule_id
    else some (validate rule, s)

-- The array with the first rule of that identifier replaced by what `f` makes of it.
unfoldable pub edit_first : (Rule → Rule) → ℕ → List Rule → List Rule
edit_first f id [] = []
edit_first f id (r ∷ rules) = if r.rule_id == id then f r ∷ rules else r ∷ edit_first f id rules

-- `SkRuleStoreUpdate`
unfoldable pub update_plan : Bool → Rule → Content → Plan
update_plan array_ok rule cur =
    if has_id rule.rule_id cur.rules
    then (if array_ok
        then Plan.commit (sort_rules (edit_first (λ r. rule) rule.rule_id cur.rules)) cur.policy
        else Plan.refuse status_insufficient_resources)
    else Plan.refuse status_not_found

unfoldable pub update : Bool → Bool → Rule → Store → Option (NtStatus × Store)
update array_ok snap_ok rule s =
    if nt_success (validate rule)
    then writer snap_ok (update_plan array_ok rule) s
    else some (validate rule, s)

-- `SkRuleStoreDelete`: the two copies around the first rule of that identifier. The last rule needs
-- no array.
unfoldable pub delete_first : ℕ → List Rule → List Rule
delete_first id [] = []
delete_first id (r ∷ rules) = if r.rule_id == id then rules else r ∷ delete_first id rules

unfoldable pub delete_plan : Bool → ℕ → Content → Plan
delete_plan array_ok id cur =
    if has_id id cur.rules
    then (if length cur.rules == 1
        then Plan.commit [] cur.policy
        else if array_ok
        then Plan.commit (delete_first id cur.rules) cur.policy
        else Plan.refuse status_insufficient_resources)
    else Plan.refuse status_not_found

unfoldable pub delete : Bool → Bool → ℕ → Store → Option (NtStatus × Store)
delete array_ok snap_ok id s = writer snap_ok (delete_plan array_ok id) s

-- `SkRuleStoreSetEnabled`
unfoldable pub with_enabled : Bool → Rule → Rule
with_enabled on r = record r { enabled = if on then 1 else 0 }

unfoldable pub enable_plan : Bool → ℕ → Bool → Content → Plan
enable_plan array_ok id on cur =
    if has_id id cur.rules
    then (if array_ok
        then Plan.commit (edit_first (with_enabled on) id cur.rules) cur.policy
        else Plan.refuse status_insufficient_resources)
    else Plan.refuse status_not_found

unfoldable pub set_enabled : Bool → Bool → ℕ → Bool → Store → Option (NtStatus × Store)
set_enabled array_ok snap_ok id on s =
    writer snap_ok (enable_plan array_ok id on) s >>= λ r. if on then some r else reset_after id r

-- `SkRuleStoreReplace`, from an array that is there. A rule has 176 bytes under natural alignment.
abbrev pub replace_max_bytes : ℕ
replace_max_bytes = 1024 * 1024

abbrev pub rule_bytes : ℕ
rule_bytes = 176

unfoldable pub first_invalid : List Rule → NtStatus
first_invalid [] = status_success
first_invalid (r ∷ rules) = if nt_success (validate r) then first_invalid rules else validate r

unfoldable pub has_duplicate : List Rule → Bool
has_duplicate [] = false
has_duplicate (r ∷ rules) = if has_id r.rule_id rules then true else has_duplicate rules

unfoldable pub replace_plan : Bool → List Rule → ℕ → Content → Plan
replace_plan array_ok rules expected cur =
    if not (expected == 0) && not (cur.version == expected)
    then Plan.refuse status_retry
    else if length rules == 0
    then Plan.commit [] cur.policy
    else if array_ok
    then Plan.commit (sort_rules rules) cur.policy
    else Plan.refuse status_insufficient_resources

unfoldable pub replace : Bool → Bool → List Rule → ℕ → Store → Option (NtStatus × Store)
replace array_ok snap_ok rules expected s =
    if ltb rule_max (length rules)
    then some (status_invalid_parameter, s)
    else if ltb replace_max_bytes (length rules * rule_bytes)
    then some (status_invalid_parameter, s)
    else if nt_success (first_invalid rules)
    then (if has_duplicate rules
        then some (status_objectid_exists, s)
        else writer snap_ok (replace_plan array_ok rules expected) s)
    else some (first_invalid rules, s)

-- `SkRuleStoreClear`
unfoldable pub clear : Bool → Store → Option (NtStatus × Store)
clear snap_ok s = writer snap_ok (λ cur. Plan.commit [] cur.policy) s

-- `SkRuleStoreSetDefaultPolicy`
unfoldable pub policy_plan : Bool → ℕ → Content → Plan
policy_plan array_ok policy cur =
    if length cur.rules == 0
    then Plan.commit [] policy
    else if array_ok
    then Plan.commit cur.rules policy
    else Plan.refuse status_insufficient_resources

unfoldable pub set_default_policy : Bool → Bool → ℕ → Store → Option (NtStatus × Store)
set_default_policy array_ok snap_ok policy s =
    if not (policy == policy_permit) && not (policy == policy_block)
    then some (status_invalid_parameter, s)
    else writer snap_ok (policy_plan array_ok policy) s

-- `SkRuleStoreRollback`. An empty slot needs no array.
unfoldable pub rollback_cell : Bool → Bool → ℕ → Option Snapshot → Store → Option (NtStatus × Store)
rollback_cell array_ok snap_ok r none s = none
rollback_cell array_ok snap_ok r (some slot) s =
    if not (length slot.rules == 0) && not array_ok
    then some (status_insufficient_resources, s)
    else if snap_ok
    then retire_drain retire_drain_retries s >>= swap_back r
    else some (status_insufficient_resources, s)

unfoldable pub rollback_at : Bool → Bool → Option ℕ → Store → Option (NtStatus × Store)
rollback_at array_ok snap_ok none s = some (status_not_found, s)
rollback_at array_ok snap_ok (some r) s = rollback_cell array_ok snap_ok r (s.cells r) s

unfoldable pub rollback : Bool → Bool → Store → Option (NtStatus × Store)
rollback array_ok snap_ok s =
    if writable s
    then rollback_at array_ok snap_ok s.rollback s
    else some (status_invalid_device_state, s)

-- `SkRuleStoreVersion` and `SkRuleStoreDefaultPolicy`; `none` is an access to a freed snapshot.
unfoldable pub store_version : Store → Option ℕ
store_version s = elim s.current [
  | none ↦ some 0
  | some c ↦ s.cells c >>= λ snap. some snap.version
]

unfoldable pub store_policy : Store → Option ℕ
store_policy s = elim s.current [
  | none ↦ some policy_permit
  | some c ↦ s.cells c >>= λ snap. some snap.default_policy
]

-- `SkRuleStoreFind`, with a place for the copy: the status and the copy.
unfoldable pub find_rule : ℕ → List Rule → NtStatus × Option Rule
find_rule id [] = (status_not_found, none)
find_rule id (r ∷ rules) = if r.rule_id == id then (status_success, some r) else find_rule id rules

unfoldable pub store_find : ℕ → Store → Option (NtStatus × Option Rule)
store_find id s =
    if s.inited
    then elim s.current [
      | none ↦ some (status_invalid_device_state, none)
      | some c ↦ s.cells c >>= λ snap. some (find_rule id snap.rules)
    ]
    else some (status_invalid_device_state, none)

-- `SkRuleStoreEnum` with a callback on the rule and its context: TRUE goes on. The result is the status
-- and the context that the callback leaves.
module _ {ℓ} {C : Type ℓ} (on_rule : Rule → C → Bool × C) where
  unfoldable pub visit : List Rule → C → C
  visit [] ctx = ctx
  visit (r ∷ rules) ctx =
      let (more, ctx') = on_rule r ctx in let rest = visit rules ctx' in if more then rest else ctx'

  unfoldable pub store_enum : C → Store → Option (NtStatus × C)
  store_enum ctx s =
      if s.inited
      then elim s.current [
        | none ↦ some (status_invalid_device_state, ctx)
        | some c ↦ s.cells c >>= λ snap. some (status_success, visit snap.rules ctx)
      ]
      else some (status_invalid_device_state, ctx)
