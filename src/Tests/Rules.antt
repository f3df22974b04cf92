-- ===== src/Tests/Rules.antt =====
-- Validation, matching, order, buckets and evaluation: the theorems on concrete rules.
use mathlib.Core.List.{Perm}
use shinken_sentinel.Prelude.{
  ℕ, ◌+◌, ◌-◌, ◌*◌, ◌/◌, ◌≤◌, ◌≡◌, ◌↔◌, ◌⊎◌, refl, List, [], ◌∷◌, some, true, arith,
}
use shinken_sentinel.Status.{status_success, status_invalid_parameter}
use shinken_sentinel.Packet.Addr.{addr_match, addr_width}
use shinken_sentinel.Packet.Addr.Spec.{IsBytes, SameBits, addr_match_iff}
use shinken_sentinel.Rules.Types.{Rule}
use shinken_sentinel.Rules.Match.{rule_match}
use shinken_sentinel.Rules.Match.Spec.{Matches, rule_match_iff}
use shinken_sentinel.Rules.Validate.{validate}
use shinken_sentinel.Rules.Validate.Spec.{WellFormed, validate_iff}
use shinken_sentinel.Rules.Order.{precedes, sort_rules}
use shinken_sentinel.Rules.Order.Sorted.{InOrder, sort_rules_lem}
use shinken_sentinel.Rules.Rate.{RateEntry, RateTable, free_entry, holds}
use shinken_sentinel.Rules.Rate.Table.{bucket}
use shinken_sentinel.Rules.Rate.Inv.{Distinct}
use shinken_sentinel.Rules.Rate.Run.{Call, passed, passed-le}
use shinken_sentinel.Rules.Snapshot.{Snapshot, new_snapshot}
use shinken_sentinel.Rules.Engine.{Engine, Clock, evaluate, stats_reset}
use shinken_sentinel.Rules.Engine.Spec.{
  NoneMatches, DefaultOf, Decides, VerdictOf, rate_answer, evaluate_verdict,
}
use shinken_sentinel.Tests.Data.{block_rule, slow_rule, web_tuple}

addr_match_iff_example : (addr_match (10 ∷ 1 ∷ 2 ∷ 3 ∷ []) (10 ∷ 1 ∷ 9 ∷ 9 ∷ []) 20 2 ≡ true) ↔ (
    (w : ℕ) × (addr_width 2 ≡ some w)
    × (20 ≤ w * 8)
    × SameBits (10 ∷ 1 ∷ 2 ∷ 3 ∷ []) (10 ∷ 1 ∷ 9 ∷ 9 ∷ []) 20)
addr_match_iff_example =
    addr_match_iff (10 ∷ 1 ∷ 2 ∷ 3 ∷ []) (10 ∷ 1 ∷ 9 ∷ 9 ∷ []) (ground arith) (ground arith) 20 2

web_local-IsBytes : IsBytes web_tuple.local_addr
web_local-IsBytes = ground arith

web_remote-IsBytes : IsBytes web_tuple.remote_addr
web_remote-IsBytes = ground arith

rule_remote-IsBytes : IsBytes block_rule.remote_addr
rule_remote-IsBytes = ground arith

rule_match_iff_example : (rule_match block_rule web_tuple ≡ true) ↔ Matches block_rule web_tuple
rule_match_iff_example =
    rule_match_iff block_rule web_tuple web_local-IsBytes web_remote-IsBytes tt rule_remote-IsBytes

validate_iff_example :
    ((validate block_rule ≡ status_success) ↔ WellFormed block_rule)
    × ((validate block_rule ≡ status_success) ⊎ (validate block_rule ≡ status_invalid_parameter))
validate_iff_example = validate_iff block_rule

sort_rules_lem_example :
    Perm (sort_rules (block_rule ∷ slow_rule ∷ [])) (block_rule ∷ slow_rule ∷ [])
    × InOrder (sort_rules (block_rule ∷ slow_rule ∷ []))
sort_rules_lem_example = sort_rules_lem (block_rule ∷ slow_rule ∷ [])

abbrev full_entry : RateEntry
full_entry = record { rule_id = 9; tokens = 2; last_refill_ms = 500; in_use = true }

abbrev two_entries : RateTable
two_entries = full_entry ∷ free_entry ∷ []

two_entries-bucket : bucket 9 two_entries ≡ some full_entry
unfolding holds
two_entries-bucket = refl

two_entries-Distinct : Distinct two_entries
unfolding holds
two_entries-Distinct = ((λ h. refl), ((λ h. refl), tt))

abbrev three_calls : List Call
three_calls = (700, slow_rule) ∷ (800, slow_rule) ∷ (1600, slow_rule) ∷ []

passed-le_example : passed 9 three_calls two_entries ≤ 2 + (2000 - 500) / 1000 * 1
passed-le_example =
    passed-le slow_rule 2000 (omega arith) three_calls two_entries full_entry (omega arith)
      (omega arith) two_entries-bucket (omega arith)
      ((omega arith, λ h. refl), ((omega arith, λ h. refl), ((omega arith, λ h. refl), tt)))

abbrev web_snapshot : Snapshot
web_snapshot = new_snapshot (slow_rule ∷ block_rule ∷ []) 2 0

abbrev some_clock : Clock
some_clock = record { start = 5000; in_rate = 5001; finish = 5002; freq = 1000 }

abbrev fresh_engine : Engine
fresh_engine = stats_reset (record {
  stats = record {
    classify_calls = 0;
    verdict_permit = 0;
    verdict_block = 0;
    verdict_audit = 0;
    rate_limited = 0;
    rule_hits = 0;
    default_hits = 0;
    match_ns_total = 0;
    match_ns_max = 0;
    match_ns_samples = 0;
  };
  table = two_entries;
  qpc_freq = 0;
})

web_snapshot-InOrder : InOrder web_snapshot.rules
unfolding new_snapshot precedes
web_snapshot-InOrder = ((refl, tt), (tt, tt))

evaluate_verdict_example :
    (NoneMatches web_tuple web_snapshot.rules
      × DefaultOf web_snapshot.default_policy
          (evaluate some_clock (some web_snapshot) web_tuple fresh_engine).0)
    ⊎ ((rule : Rule) × Decides web_tuple web_snapshot.rules rule
        × VerdictOf rule
            (rate_answer some_clock rule fresh_engine)
            (evaluate some_clock (some web_snapshot) web_tuple fresh_engine).0)
evaluate_verdict_example =
    evaluate_verdict some_clock web_snapshot web_tuple fresh_engine web_snapshot-InOrder
