-- ===== src/Rules/Engine.antt =====
-- rules/rule_engine.c: evaluation of a tuple against a snapshot, with the statistics.
pub mod Spec
pub mod Stats
use shinken_sentinel.Prelude.{
  ℕ, zero, suc, ◌+◌, ◌-◌, ◌*◌, ◌/◌, ◌%◌, ◌^◌, List, [], ◌∷◌, Option, none, some, Bool, true, false,
  if◌then◌else◌, ltb, leb, ◌==◌,
}
use shinken_sentinel.Rules.Types.{
  Rule, Tuple, Verdict, VerdictAction, permit, block, audit, VerdictReason, no_match,
  snapshot_unavailable, RuleStats, action_block, action_audit, action_rate_limit,
}
use shinken_sentinel.Rules.Types
use shinken_sentinel.Rules.Match.{rule_match}
use shinken_sentinel.Rules.Rate.{RateTable, rate_allow, u64}
use shinken_sentinel.Rules.Snapshot.{Snapshot, policy_permit, policy_block}

-- `g_SkRuleStats`, `g_RateTable` and the cached `g_QpcFreq` (0 before its first use).
pub record Engine : Type 0 where
  pub stats : RuleStats
  pub table : RateTable
  pub qpc_freq : ℕ

-- What the performance counter answers during one evaluation: its ticks at the start, in
-- `SkRateAllow` and at the end, and its frequency.
pub record Clock : Type 0 where
  pub start : ℕ
  pub in_rate : ℕ
  pub finish : ℕ
  pub freq : ℕ

-- `SkQpcFreq`
pub qpc_freq : Clock → ℕ → ℕ
qpc_freq clock cached = if cached == 0 then (if clock.freq == 0 then 1 else clock.freq) else cached

-- `SkQpcMs` and `SkTicksToNs`, in 64 bits
pub qpc_ms : ℕ → ℕ → ℕ
qpc_ms ticks freq = u64 (ticks * 1000) / freq

pub ticks_to_ns : ℕ → ℕ → ℕ
ticks_to_ns ticks freq = u64 (ticks * 1000000000) / freq

-- The scan of the snapshot: the first rule that matches.
pub first_match : List Rule → Tuple → Option Rule
first_match [] tuple = none
first_match (rule ∷ rules) tuple =
    if rule_match rule tuple then some rule else first_match rules tuple

abbrev find_hit : Option Snapshot → Tuple → Option Rule
find_hit none tuple = none
find_hit (some snap) tuple = first_match snap.rules tuple

abbrev miss_reason : Option Snapshot → VerdictReason
miss_reason none = snapshot_unavailable
miss_reason (some snap) = no_match

-- `snap ? snap->defaultPolicy : SkVerdictPermit`
abbrev policy_of : Option Snapshot → ℕ
policy_of none = policy_permit
policy_of (some snap) = snap.default_policy

verdict_for : Rule → VerdictAction → Bool → Bool → Verdict
verdict_for rule action limited hard = record {
  action = action;
  rule_id = rule.rule_id;
  rate_limited = limited;
  hard_block = hard;
  reason = VerdictReason.rule_match;
}

-- The `switch` on the action of the rule that hit.
decide_hit : Clock → Rule → Engine → Verdict × Engine
decide_hit clock rule e =
    let freq = qpc_freq clock e.qpc_freq in
    let (allowed, table) = rate_allow (qpc_ms clock.in_rate freq) rule e.table in
    let limited = record (e.stats) { rate_limited = u64 (e.stats.rate_limited + 1) } in
    if rule.action == action_block
    then (verdict_for rule block false true, e)
    else if rule.action == action_audit
    then (verdict_for rule audit false false, e)
    else if rule.action == action_rate_limit
    then (if allowed
        then (verdict_for rule audit false false, record e { table = table; qpc_freq = freq })
        else (
          verdict_for rule block true true,
          record { stats = limited; table = table; qpc_freq = freq },
        ))
    else (verdict_for rule permit false false, e)

-- No rule hit: the default policy.
decide_miss : VerdictReason → ℕ → Verdict
decide_miss reason policy = record {
  action = if policy == policy_block then block else permit;
  rule_id = 0;
  rate_limited = false;
  hard_block = policy == policy_block;
  reason = reason;
}

-- `SkAtAdd64` of 1 to the counter of calls, of hits, of defaults and of the verdict.
count_call : Engine → Engine
count_call e = record e {
  stats = record (e.stats) { classify_calls = u64 (e.stats.classify_calls + 1) };
}

count_hit : Engine → Engine
count_hit e = record e { stats = record (e.stats) { rule_hits = u64 (e.stats.rule_hits + 1) } }

count_default : Engine → Engine
count_default e = record e {
  stats = record (e.stats) { default_hits = u64 (e.stats.default_hits + 1) };
}

verdict_stats : VerdictAction → RuleStats → RuleStats
verdict_stats block s = record s { verdict_block = u64 (s.verdict_block + 1) }
verdict_stats audit s = record s { verdict_audit = u64 (s.verdict_audit + 1) }
verdict_stats permit s = record s { verdict_permit = u64 (s.verdict_permit + 1) }

count_verdict : Verdict → Engine → Engine
count_verdict v e = record e { stats = verdict_stats v.action e.stats }

-- The timing statistics; the loop on `matchNsMax` ends with the larger of the two.
count_time : Clock → Engine → Engine
count_time clock e =
    let freq = qpc_freq clock e.qpc_freq in
    let ns = ticks_to_ns (u64 (clock.finish + 2 ^ 64 - clock.start)) freq in
    record {
      stats = record (e.stats) {
        match_ns_total = u64 (e.stats.match_ns_total + ns);
        match_ns_samples = u64 (e.stats.match_ns_samples + 1);
        match_ns_max = if leb ns e.stats.match_ns_max then e.stats.match_ns_max else ns;
      };
      table = e.table;
      qpc_freq = freq;
    }

-- The decision on what the scan found.
decide : Clock → Option Snapshot → Option Rule → Engine → Verdict × Engine
decide clock snap none e = (decide_miss (miss_reason snap) (policy_of snap), count_default e)
decide clock snap (some rule) e = decide_hit clock rule (count_hit e)

-- `SkRuleEvaluate`
unfoldable pub evaluate : Clock → Option Snapshot → Tuple → Engine → Verdict × Engine
unfolding qpc_freq qpc_ms ticks_to_ns first_match verdict_for decide_hit decide_miss count_call
    count_hit count_default verdict_stats count_verdict count_time decide
evaluate clock snap tuple e =
    let (v, e') = decide clock snap (find_hit snap tuple) (count_call e) in
    (v, count_time clock (count_verdict v e'))

-- `SkRuleStatsReset`
unfoldable pub stats_reset : Engine → Engine
stats_reset e = record e {
  stats = record {
    classify_calls = 0;
    verdict_permit = 0;
    verdict_block = 0;
    verdict_audit = 0;
    rate_limited = 0;
    rule_hits = 0;
    default_hits = 0;
    match_ns_total = 0;
    match_ns_max = 0;
    match_ns_samples = 0;
  };
}
