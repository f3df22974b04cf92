-- ===== src/Rules/Rate/Spec.antt =====
-- `SkRateAllow` and `SkRuleRateReset` against the buckets of the table.
use shinken_sentinel.Prelude.{
  ℕ, ◌-◌, ◌≤◌, ◌≡◌, ◌≢◌, refl, Option, none, some, Bool, true, ltb, length, length-set, arith,
}
use shinken_sentinel.Rules.Types.{Rule}
use shinken_sentinel.Rules.Rate.{
  RateEntry, RateTable, rate_table_size, holds, find_slot, bucket_step, rate_allow,
}
use shinken_sentinel.Rules.Rate.Table.{
  bucket, bucket-holds, Slot, find_slot_used, first_free, first_free-free, find_slot_free,
  find_slot_full, get_elem?_past,
}
use shinken_sentinel.Rules.Rate.Bucket.{fresh_step}

-- The call answers `allowed`, gives the rule `id` the bucket `e` and leaves every other bucket.
pub record Outcome (id : ℕ) (t : RateTable) (allowed : Bool) (e : RateEntry) (r : Bool × RateTable)
    : Type 0 where
  pub answer : r.0 ≡ allowed
  pub own : bucket id r.1 ≡ some e
  pub others : (j : ℕ) → j ≢ id → bucket j r.1 ≡ bucket j t
  pub size : length r.1 ≡ length t

module _ (now : ℕ) (rule : Rule) (t : RateTable) where
  abbrev pub id : ℕ
  id = rule.rule_id

  at_slot :
      (e : RateEntry) (allowed : Bool) (e' : RateEntry)
      → bucket_step now rule e ≡ (allowed, e')
      → holds id e' ≡ true
      → Slot id t 0 (find_slot t 0 rate_table_size id) e
      → Outcome id t allowed e' (rate_allow now rule t)
  unfolding rate_allow
  at_slot e allowed e' step h s =
      let at : find_slot t 0 rate_table_size id ≡ s.at = omega (arith, s.slot_at) in
      rw (rate_allow, at, s.reads, step)
        (record {
          answer = refl;
          own = (s.puts e' h).0;
          others = (s.puts e' h).1;
          size = length-set t s.at e';
        })

  pub bucket_step-holds :
      (e : RateEntry) → holds id e ≡ true → holds id (bucket_step now rule e).1 ≡ true
  unfolding holds bucket_step
  bucket_step-holds e h = ground arith

  used_case :
      (e : RateEntry)
      → bucket id t ≡ some e
      → Outcome id t (bucket_step now rule e).0 (bucket_step now rule e).1 (rate_allow now rule t)
  used_case e h =
      at_slot e _ _ refl (bucket_step-holds e (bucket-holds id t e h))
        (find_slot_used id t 0 rate_table_size e h)

  -- A bucket that has just been started, after its first call.
  abbrev pub started : RateEntry
  started = record { rule_id = id; tokens = rule.burst - 1; last_refill_ms = now; in_use = true }

  pub started-holds : holds id started ≡ true
  unfolding holds
  started-holds = ground arith

  free_case :
      (e : RateEntry)
      → length t ≤ rate_table_size
      → bucket id t ≡ none
      → first_free t ≡ some e
      → Outcome id t (ltb 0 rule.burst) started (rate_allow now rule t)
  free_case e size h f =
      at_slot e _ _ (fresh_step rule now e (first_free-free t e f)) started-holds
        (find_slot_free id t 0 e (omega arith) h f)

  full_case :
      length t ≤ rate_table_size
      → bucket id t ≡ none
      → first_free t ≡ none
      → rate_allow now rule t ≡ (true, t)
  unfolding rate_allow
  full_case size h f =
      rw (rate_allow, find_slot_full id t 0 h f, get_elem?_past t rate_table_size size)

  -- `SkRateAllow` on a table of at most 64 entries: a rule that has a bucket takes one step of it; a
  -- rule without one starts a full bucket in a free entry and takes a token from it; where no entry
  -- is free the call is let through and the table stays as it is. No other rule's bucket changes.
  pub rate_allow_lem :
      length t ≤ rate_table_size
      → ((e : RateEntry)
          → bucket id t ≡ some e
          → Outcome id t
              (bucket_step now rule e).0
              (bucket_step now rule e).1
              (rate_allow now rule t))
        × ((e : RateEntry)
            → bucket id t ≡ none
            → first_free t ≡ some e
            → Outcome id t (ltb 0 rule.burst) started (rate_allow now rule t))
        × (bucket id t ≡ none → first_free t ≡ none → rate_allow now rule t ≡ (true, t))
  rate_allow_lem size = (used_case, λ e. free_case e size, full_case size)

  -- In every case the table keeps its size and the other rules' buckets.
  abbrev Rest : Type 0
  Rest =
      (length (rate_allow now rule t).1 ≡ length t)
      × ((j : ℕ) → j ≢ id → bucket j (rate_allow now rule t).1 ≡ bucket j t)

  Rest_of_Outcome :
      {allowed : Bool} {e : RateEntry} → Outcome id t allowed e (rate_allow now rule t) → Rest
  Rest_of_Outcome o = (o.size, o.others)

  pub rate_allow_rest : length t ≤ rate_table_size → Rest
  rate_allow_rest size = go (bucket id t) refl
    where
      free : bucket id t ≡ none → (f : Option RateEntry) → first_free t ≡ f → Rest
      free h none e = rw (full_case size h e) (refl, λ j ne. refl)
      free h (some x) e = Rest_of_Outcome (free_case x size h e)

      go : (o : Option RateEntry) → bucket id t ≡ o → Rest
      go none h = free h (first_free t) refl
      go (some e) h = Rest_of_Outcome (used_case e h)
