-- ===== src/Rules/Engine/Spec.antt =====
-- What a verdict says of the rules, and what the statistics count.
use shinken_sentinel.Prelude.{
  ℕ, ◌≡◌, refl, List, [], ◌∷◌, none, some, Bool, true, false, arith, All, Within, Bool-cases,
  Option-cases, inl, inr, ◌⊎◌, ◌≢◌, subst,
}
use shinken_sentinel.Rules.Types.{
  Rule, Tuple, Verdict, permit, block, audit, VerdictReason, no_match, action_block, action_audit,
  action_rate_limit,
}
use shinken_sentinel.Rules.Match.{rule_match}
use shinken_sentinel.Rules.Order.{precedes}
use shinken_sentinel.Rules.Order.Laws.{precedes_asymm}
use shinken_sentinel.Rules.Order.Sorted.{IsFirst, InOrder}
use shinken_sentinel.Rules.Rate.{rate_allow}
use shinken_sentinel.Rules.Snapshot.{Snapshot, policy_block}
use shinken_sentinel.Rules.Engine.{
  Engine, Clock, qpc_freq, qpc_ms, first_match, verdict_for, decide_hit, decide_miss, count_call,
  count_hit, decide, evaluate,
}

-- The rule that decides: it is one of the rules, it matches, and no matching rule precedes it.
pub record Decides (tuple : Tuple) (rules : List Rule) (rule : Rule) : Type 0 where
  pub one_of : Within rule rules
  pub matches : rule_match rule tuple ≡ true
  pub best : All (λ b. rule_match b tuple ≡ true → precedes b rule ≡ false) rules

abbrev pub NoneMatches : Tuple → List Rule → Type 0
NoneMatches tuple = All (λ b. rule_match b tuple ≡ false)

none-matches :
    (tuple : Tuple) (rules : List Rule) → first_match rules tuple ≡ none → NoneMatches tuple rules
unfolding first_match
none-matches tuple [] h = tt
none-matches tuple (rule ∷ rules) h = elim (Bool-cases (rule_match rule tuple)) [
  | inl hit ↦ absurd (ground arith)
  | inr miss ↦ (miss, none-matches tuple rules (ground arith))
]

weaken_first :
    (tuple : Tuple) (a : Rule) (rules : List Rule)
    → IsFirst a rules
    → All (λ b. rule_match b tuple ≡ true → precedes b a ≡ false) rules
weaken_first tuple a [] h = tt
weaken_first tuple a (b ∷ rules) h = ((λ k. h.0), weaken_first tuple a rules h.1)

precedes_irrefl : (a : Rule) → precedes a a ≡ false
precedes_irrefl a = elim (Bool-cases (precedes a a)) [
  | inl up ↦ precedes_asymm a a up
  | inr same ↦ same
]

first-Decides :
    (tuple : Tuple) (rules : List Rule) (rule : Rule)
    → InOrder rules
    → first_match rules tuple ≡ some rule
    → Decides tuple rules rule
unfolding first_match
first-Decides tuple [] rule order h = absurd (ground arith)
first-Decides tuple (a ∷ rules) rule order h = elim (Bool-cases (rule_match a tuple)) [
  | inl hit ↦
      let same : a ≡ rule = ground arith in
      subst (λ r. Decides tuple (a ∷ rules) r) same
        (record {
          one_of = Within.here;
          matches = hit;
          best = ((λ k. precedes_irrefl a), weaken_first tuple a rules order.0);
        })
  | inr miss ↦
      let rest = first-Decides tuple rules rule order.1 (ground arith) in
      record {
        one_of = Within.there rest.one_of;
        matches = rest.matches;
        best = ((λ k. absurd (ground arith)), rest.best);
      }
]

-- The verdict of a rule that hit, by its action; `allowed` is the answer of its token bucket.
pub record VerdictOf (rule : Rule) (allowed : Bool) (v : Verdict) : Type 0 where
  pub rule_id : v.rule_id ≡ rule.rule_id
  pub reason : v.reason ≡ VerdictReason.rule_match
  pub blocks : rule.action ≡ action_block → (v.action ≡ block) × (v.hard_block ≡ true)
  pub audits : rule.action ≡ action_audit → (v.action ≡ audit) × (v.hard_block ≡ false)
  pub within_rate :
      rule.action ≡ action_rate_limit
      → allowed ≡ true
      → (v.action ≡ audit) × (v.hard_block ≡ false) × (v.rate_limited ≡ false)
  pub over_rate :
      rule.action ≡ action_rate_limit
      → allowed ≡ false
      → (v.action ≡ block) × (v.hard_block ≡ true) × (v.rate_limited ≡ true)
  pub permits :
      rule.action ≢ action_block
      → rule.action ≢ action_audit
      → rule.action ≢ action_rate_limit
      → (v.action ≡ permit) × (v.hard_block ≡ false)
  pub unlimited : rule.action ≢ action_rate_limit → v.rate_limited ≡ false

-- The answer of the bucket of `rule` in this evaluation.
abbrev pub rate_answer : Clock → Rule → Engine → Bool
rate_answer clock rule e =
    (rate_allow (qpc_ms clock.in_rate (qpc_freq clock e.qpc_freq)) rule e.table).0

decide_hit_lem :
    (clock : Clock) (rule : Rule) (e : Engine)
    → VerdictOf rule (rate_answer clock rule e) (decide_hit clock rule e).0
unfolding decide_hit verdict_for
decide_hit_lem clock rule e = record {
  rule_id = ground arith;
  reason = ground arith;
  blocks = λ h. ground arith;
  audits = λ h. ground arith;
  within_rate = λ h k. ground arith;
  over_rate = λ h k. ground arith;
  permits = λ h k l. ground arith;
  unlimited = λ h. ground arith;
}

-- The verdict by default, under the policy of the snapshot.
pub record DefaultOf (policy : ℕ) (v : Verdict) : Type 0 where
  pub rule_id : v.rule_id ≡ 0
  pub reason : v.reason ≡ no_match
  pub unlimited : v.rate_limited ≡ false
  pub blocks : policy ≡ policy_block → (v.action ≡ block) × (v.hard_block ≡ true)
  pub permits : policy ≢ policy_block → (v.action ≡ permit) × (v.hard_block ≡ false)

decide_miss_lem : (policy : ℕ) → DefaultOf policy (decide_miss no_match policy)
unfolding decide_miss
decide_miss_lem policy = record {
  rule_id = ground arith;
  reason = ground arith;
  unlimited = ground arith;
  blocks = λ h. ground arith;
  permits = λ h. ground arith;
}

-- Under the current snapshot, whose rules are in verdict order, `SkRuleEvaluate` gives the verdict
-- of the matching rule that no matching rule precedes (for a rule of limited rate, as its token
-- bucket answers), and the default policy's where no rule matches.
pub evaluate_verdict :
    (clock : Clock) (snap : Snapshot) (tuple : Tuple) (e : Engine)
    → InOrder snap.rules
    → (NoneMatches tuple snap.rules
        × DefaultOf snap.default_policy (evaluate clock (some snap) tuple e).0)
      ⊎ ((rule : Rule) × Decides tuple snap.rules rule
          × VerdictOf rule (rate_answer clock rule e) (evaluate clock (some snap) tuple e).0)
unfolding evaluate decide count_call count_hit
evaluate_verdict clock snap tuple e order = elim (Option-cases (first_match snap.rules tuple)) [
  | inl miss ↦
      inl (none-matches tuple snap.rules miss, rw miss (decide_miss_lem snap.default_policy))
  | inr (rule, hit) ↦ inr (
    rule,
    first-Decides tuple snap.rules rule order hit,
    rw hit (decide_hit_lem clock rule (count_hit (count_call e))),
  )
]

-- Without a snapshot the verdict is a permit, and says so.
pub evaluate_unavailable :
    (clock : Clock) (tuple : Tuple) (e : Engine)
    → ((evaluate clock none tuple e).0.action ≡ permit)
      × ((evaluate clock none tuple e).0.reason ≡ VerdictReason.snapshot_unavailable)
unfolding evaluate decide decide_miss
evaluate_unavailable clock tuple e = (refl, refl)
