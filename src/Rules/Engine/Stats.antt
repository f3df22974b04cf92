-- ===== src/Rules/Engine/Stats.antt =====
-- The statistics balance: every evaluation is counted once in each of two ways.
use shinken_sentinel.Prelude.{◌+◌, ◌≡◌, List, [], ◌∷◌, Option, none, some, arith, refl}
use shinken_sentinel.Rules.Types.{Rule, Tuple, RuleStats, VerdictAction, permit, block, audit}
use shinken_sentinel.Rules.Rate.{u64}
use shinken_sentinel.Rules.Snapshot.{Snapshot}
use shinken_sentinel.Rules.Engine.{
  Engine, Clock, find_hit, count_call, count_hit, count_default, count_verdict, count_time,
  verdict_stats, decide, decide_hit, evaluate, stats_reset,
}

-- In 64 bits: the verdicts by action are the calls, and so are the hits with the defaults.
pub record Balanced (s : RuleStats) : Type 0 where
  pub by_verdict : u64 (s.verdict_permit + s.verdict_block + s.verdict_audit) ≡ u64 s.classify_calls
  pub by_source : u64 (s.rule_hits + s.default_hits) ≡ u64 s.classify_calls

-- The counters that an evaluation leaves to the decision.
record SameCounts (s s' : RuleStats) : Type 0 where
  calls : s'.classify_calls ≡ s.classify_calls
  permits : s'.verdict_permit ≡ s.verdict_permit
  blocks : s'.verdict_block ≡ s.verdict_block
  audits : s'.verdict_audit ≡ s.verdict_audit
  hits : s'.rule_hits ≡ s.rule_hits
  defaults : s'.default_hits ≡ s.default_hits

decide_hit-counts :
    (clock : Clock) (rule : Rule) (e : Engine)
    → SameCounts e.stats (decide_hit clock rule e).1.stats
unfolding decide_hit
decide_hit-counts clock rule e = record {
  calls = ground arith;
  permits = ground arith;
  blocks = ground arith;
  audits = ground arith;
  hits = ground arith;
  defaults = ground arith;
}

-- Calls counted, and one hit or default, but no verdict yet.
record HalfCounted (s : RuleStats) : Type 0 where
  half_verdict :
      u64 (s.verdict_permit + s.verdict_block + s.verdict_audit + 1) ≡ u64 s.classify_calls
  half_source : u64 (s.rule_hits + s.default_hits) ≡ u64 s.classify_calls

same-half : (s s' : RuleStats) → SameCounts s s' → HalfCounted s → HalfCounted s'
same-half s s' c h = record {
  half_verdict = rw (c.calls, c.permits, c.blocks, c.audits) h.half_verdict;
  half_source = rw (c.calls, c.hits, c.defaults) h.half_source;
}

decide-half :
    (clock : Clock) (snap : Option Snapshot) (hit : Option Rule) (e : Engine)
    → Balanced e.stats
    → HalfCounted (decide clock snap hit (count_call e)).1.stats
unfolding decide count_call count_default count_hit
decide-half clock snap none e b =
    let v = b.by_verdict in
    let s = b.by_source in record { half_verdict = omega arith; half_source = omega arith }
decide-half clock snap (some rule) e b =
    let v = b.by_verdict in
    let s = b.by_source in
    same-half (count_hit (count_call e)).stats
      (decide_hit clock rule (count_hit (count_call e))).1.stats
      (decide_hit-counts clock rule (count_hit (count_call e)))
      (record { half_verdict = omega arith; half_source = omega arith })

verdict_stats-Balanced :
    (a : VerdictAction) (s : RuleStats) → HalfCounted s → Balanced (verdict_stats a s)
unfolding verdict_stats
verdict_stats-Balanced block s h =
    let v = h.half_verdict in
    let k = h.half_source in record { by_verdict = omega arith; by_source = omega arith }
verdict_stats-Balanced audit s h =
    let v = h.half_verdict in
    let k = h.half_source in record { by_verdict = omega arith; by_source = omega arith }
verdict_stats-Balanced permit s h =
    let v = h.half_verdict in
    let k = h.half_source in record { by_verdict = omega arith; by_source = omega arith }

Balanced-evaluate :
    (clock : Clock) (snap : Option Snapshot) (tuple : Tuple) (e : Engine)
    → Balanced e.stats
    → Balanced (evaluate clock snap tuple e).1.stats
unfolding evaluate count_verdict count_time
Balanced-evaluate clock snap tuple e b =
    let d = decide clock snap (find_hit snap tuple) (count_call e) in
    let done =
      verdict_stats-Balanced d.0.action d.1.stats
        (decide-half clock snap (find_hit snap tuple) e b) in
    record { by_verdict = done.by_verdict; by_source = done.by_source }

-- One evaluation: the clock, the snapshot that the reader acquired, and the tuple.
pub record Evaluation : Type 0 where
  pub clock : Clock
  pub snap : Option Snapshot
  pub tuple : Tuple

unfoldable pub evaluate_all : List Evaluation → Engine → Engine
evaluate_all [] e = e
evaluate_all (v ∷ rest) e = evaluate_all rest (evaluate v.clock v.snap v.tuple e).1

evaluate_all-Balanced :
    (evaluations : List Evaluation) (e : Engine)
    → Balanced e.stats
    → Balanced (evaluate_all evaluations e).stats
unfolding evaluate_all
evaluate_all-Balanced [] e b = b
evaluate_all-Balanced (v ∷ rest) e b =
    evaluate_all-Balanced rest (evaluate v.clock v.snap v.tuple e).1
      (Balanced-evaluate v.clock v.snap v.tuple e b)

-- After a reset, whatever evaluations follow, the verdicts counted by action add up to the calls in
-- 64 bits, and so do the rule hits with the default hits.
pub stats_balance :
    (evaluations : List Evaluation) (e : Engine)
    → Balanced (evaluate_all evaluations (stats_reset e)).stats
unfolding stats_reset
stats_balance evaluations e =
    evaluate_all-Balanced evaluations (stats_reset e)
      (record { by_verdict = refl; by_source = refl })
