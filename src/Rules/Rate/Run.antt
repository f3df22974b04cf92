-- ===== src/Rules/Rate/Run.antt =====
-- Calls of `SkRateAllow` in a row, for any rules at any times.
use shinken_sentinel.Prelude.{
  ℕ, ◌+◌, ◌-◌, ◌*◌, ◌/◌, ◌^◌, ◌<◌, ◌≤◌, ◌≡◌, ◌∙◌, refl, sym, true, false, ==_iff, List, [], ◌∷◌,
  some, if◌then◌else◌, ◌==◌, length, All, arith, ℕ_discrete,
}
use shinken_sentinel.Rules.Types.{Rule}
use shinken_sentinel.Rules.Rate.{RateEntry, RateTable, rate_table_size, bucket_step, rate_allow}
use shinken_sentinel.Rules.Rate.Table.{bucket, bucket-holds}
use shinken_sentinel.Rules.Rate.Bucket.{
  count_true, Advance, Advance-refl, Advance-trans, Advance-bound, bucket_step-Advance,
}
use shinken_sentinel.Rules.Rate.Spec.{rate_allow_lem, rate_allow_rest}
use shinken_sentinel.Rules.Rate.Inv.{holds_own}

abbrev pub Call : Type 0
Call = ℕ × Rule

-- How many of the calls for the rule `id` are let through.
pub passed : ℕ → List Call → RateTable → ℕ
passed id [] t = 0
passed id ((now, r) ∷ calls) t =
    (if r.rule_id == id then count_true (rate_allow now r t).0 else 0)
    + passed id calls (rate_allow now r t).1

module _ (rule : Rule) (limit : ℕ) (top : limit < 2 ^ 64) where
  -- Calls up to time `limit`; those for the rule's identifier are with this rule.
  abbrev pub Timely : List Call → Type 0
  Timely = All (λ c. (c.0 ≤ limit) × (c.1.rule_id ≡ rule.rule_id → c.1 ≡ rule))

  run-Advance :
      (calls : List Call) (t : RateTable) (e : RateEntry)
      → length t ≤ rate_table_size
      → bucket rule.rule_id t ≡ some e
      → e.in_use ≡ true
      → e.last_refill_ms ≤ limit
      → Timely calls
      → (e' : RateEntry) × Advance rule limit e (passed rule.rule_id calls t) e'
  unfolding passed
  run-Advance [] t e size h live last timely = (e, Advance-refl rule last)
  run-Advance ((now, r) ∷ calls) t e size h live last timely =
      elim (ℕ_discrete r.rule_id rule.rule_id) [
        | yes same ↦
            let known : r ≡ rule = timely.0.1 same in
            let o = (rate_allow_lem now rule t size).0 e h in
            let step = bucket_step-Advance rule now limit e live timely.0.0 top last in
            let (e', rest) =
              run-Advance calls (rate_allow now rule t).1 (bucket_step now rule e).1
                (omega (arith, o.size)) o.own (step.used ∙ live) step.recent timely.1 in
            let own : (rule.rule_id == rule.rule_id) ≡ true = (==_iff _ _).1 refl in
            (e', rw (known, own, o.answer) (Advance-trans rule step rest))
        | no other ↦
            let (size', others) = rate_allow_rest now r t size in
            let kept = others rule.rule_id (λ q. other (sym q)) in
            let (e', rest) =
              run-Advance calls (rate_allow now r t).1 e (omega (arith, size')) (kept ∙ h) live last
                timely.1 in
            let own : (r.rule_id == rule.rule_id) ≡ false = ground arith in
            (e', rw own (Advance-zero rest))
      ]
    where
      Advance-zero :
          {p : ℕ} {e' : RateEntry} → Advance rule limit e p e' → Advance rule limit e (0 + p) e'
      Advance-zero {p} a = let z : 0 + p ≡ p = omega arith in rw z a

  -- However many calls are made up to time `limit`, for whatever rules and in whatever order, those
  -- for a rule whose bucket is `e` are let through at most as often as the tokens of the bucket and
  -- `rateTokens` for each whole interval since its last refill allow.
  pub passed-le :
      (calls : List Call) (t : RateTable) (e : RateEntry)
      → 0 < rule.rate_interval_ms
      → length t ≤ rate_table_size
      → bucket rule.rule_id t ≡ some e
      → e.last_refill_ms ≤ limit
      → Timely calls
      → passed rule.rule_id calls t
        ≤ e.tokens + (limit - e.last_refill_ms) / rule.rate_interval_ms * rule.rate_tokens
  passed-le calls t e pos size h last timely =
      Advance-bound rule pos
        (run-Advance calls t e size h (holds_own rule.rule_id e (bucket-holds rule.rule_id t e h)).0
          last timely).1
