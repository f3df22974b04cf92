-- ===== src/Rules/Rate/Bucket.antt =====
-- One bucket over time: what `SkRateAllow` lets through.
use native.Mathlib.Nat.{le-div_iff_mul-le, mul-le-mul_right}
use shinken_sentinel.Prelude.{
  ℕ, ◌+◌, ◌-◌, ◌*◌, ◌/◌, ◌^◌, ◌<◌, ◌≤◌, ◌≡◌, inl, inr, refl, Bool, true, false, ltb, ◌==◌, arith,
  Bool-cases, ◌∙◌,
}
use shinken_sentinel.Rules.Types.{Rule}
use shinken_sentinel.Rules.Rate.{RateEntry, claim, refill, take_token, bucket_step}

abbrev pub count_true : Bool → ℕ
count_true true = 1
count_true false = 0

-- From `e` to `e'` a whole number of intervals passes, and what is let through and what is left come
-- from the tokens that were there and those of the intervals.
pub record Advance (rule : Rule) (limit : ℕ) (e : RateEntry) (passed : ℕ) (e' : RateEntry)
    : Type 0 where
  pub intervals : ℕ
  pub last : e'.last_refill_ms ≡ e.last_refill_ms + intervals * rule.rate_interval_ms
  pub recent : e'.last_refill_ms ≤ limit
  pub budget : passed + e'.tokens ≤ e.tokens + intervals * rule.rate_tokens
  pub used : e'.in_use ≡ e.in_use
  pub same : e'.rule_id ≡ e.rule_id

module _ (rule : Rule) where
  refill-Advance :
      (now limit : ℕ) (e : RateEntry)
      → now ≤ limit
      → limit < 2 ^ 64
      → e.last_refill_ms ≤ limit
      → Advance rule limit e 0 (refill now rule e)
  unfolding refill
  refill-Advance now limit e hn hl he =
      let n = (now - e.last_refill_ms) / rule.rate_interval_ms in
      elim (Bool-cases (ltb e.last_refill_ms now)) [
        | inr early ↦ rw early (record {
          intervals = 0;
          last = omega arith;
          recent = he;
          budget = omega arith;
          used = refl;
          same = refl;
        })
        | inl late ↦ elim (Bool-cases (n == 0)) [
          | inl none_passed ↦
              rw (late, none_passed)
                (record {
                  intervals = 0;
                  last = omega arith;
                  recent = he;
                  budget = omega arith;
                  used = refl;
                  same = refl;
                })
          | inr some_passed ↦
              rw (late, some_passed)
                (record {
                  intervals = n;
                  last = ground arith;
                  recent = ground arith;
                  budget = ground arith;
                  used = refl;
                  same = refl;
                })
        ]
      ]

  take_token-Advance :
      (limit : ℕ) (e e' : RateEntry)
      → Advance rule limit e 0 e'
      → Advance rule limit e (count_true (take_token e').0) (take_token e').1
  unfolding take_token
  take_token-Advance limit e e' a = elim (Bool-cases (ltb 0 e'.tokens)) [
    | inl some_left ↦ rw some_left (record {
      intervals = a.intervals;
      last = a.last;
      recent = a.recent;
      budget = ground arith;
      used = a.used;
      same = a.same;
    })
    | inr none_left ↦ rw none_left a
  ]

  claim-used : (now : ℕ) (e : RateEntry) → e.in_use ≡ true → claim now rule e ≡ e
  unfolding claim
  claim-used now e h = rw h

  pub bucket_step-Advance :
      (now limit : ℕ) (e : RateEntry)
      → e.in_use ≡ true
      → now ≤ limit
      → limit < 2 ^ 64
      → e.last_refill_ms ≤ limit
      → Advance rule limit e (count_true (bucket_step now rule e).0) (bucket_step now rule e).1
  unfolding bucket_step
  bucket_step-Advance now limit e live hn hl he =
      rw (claim-used now e live)
        (take_token-Advance limit e (refill now rule e) (refill-Advance now limit e hn hl he))

  pub Advance-trans :
      {limit p q : ℕ} {a b c : RateEntry}
      → Advance rule limit a p b
      → Advance rule limit b q c
      → Advance rule limit a (p + q) c
  Advance-trans f g = record {
    intervals = f.intervals + g.intervals;
    last = grind (arith, f.last, g.last);
    recent = g.recent;
    budget = grind (arith, f.budget, g.budget);
    used = g.used ∙ f.used;
    same = g.same ∙ f.same;
  }

  pub Advance-refl :
      {limit : ℕ} {e : RateEntry} → e.last_refill_ms ≤ limit → Advance rule limit e 0 e
  Advance-refl h = record {
    intervals = 0;
    last = omega arith;
    recent = h;
    budget = omega arith;
    used = refl;
    same = refl;
  }

  -- The tokens of a whole number of intervals, bounded by the time that has passed.
  pub Advance-bound :
      {limit p : ℕ} {a b : RateEntry}
      → 0 < rule.rate_interval_ms
      → Advance rule limit a p b
      → p ≤ a.tokens + (limit - a.last_refill_ms) / rule.rate_interval_ms * rule.rate_tokens
  Advance-bound {limit} {p} {a} {b} pos f =
      let few : f.intervals ≤ (limit - a.last_refill_ms) / rule.rate_interval_ms =
        (le-div_iff_mul-le pos).1 (omega (arith, f.last, f.recent)) in
      omega (arith, f.budget, mul-le-mul_right rule.rate_tokens few)

  pub fresh_step :
      (now : ℕ) (e : RateEntry)
      → e.in_use ≡ false
      → bucket_step now rule e ≡ (
        ltb 0 rule.burst,
        record {
          rule_id = rule.rule_id;
          tokens = rule.burst - 1;
          last_refill_ms = now;
          in_use = true;
        },
      )
  unfolding bucket_step claim refill take_token
  fresh_step now e h = ground arith
