-- ===== src/Rules/Rate.antt =====
-- rules/rule_engine.c: the RATE_LIMIT token buckets (`SkRateAllow`, `SkRuleRateReset`).
pub mod Table
pub mod Bucket
pub mod Spec
pub mod Inv
pub mod Run
use shinken_sentinel.Prelude.{
  ℕ, zero, suc, ◌+◌, ◌-◌, ◌*◌, ◌/◌, ◌%◌, ◌^◌, List, [], ◌∷◌, Option, none, some, Bool, true, false,
  not, ◌&&◌, if◌then◌else◌, ltb, ◌==◌, get_elem?, set, replicate,
}
use shinken_sentinel.Rules.Types.{Rule}

abbrev pub rate_table_size : ℕ
rate_table_size = 64

-- `SK_RATE_ENTRY`; `in_use` is 0 or 1.
pub record RateEntry : Type 0 where
  pub rule_id : ℕ
  pub tokens : ℕ
  pub last_refill_ms : ℕ
  pub in_use : Bool

-- `g_RateTable`, an array of `rate_table_size` entries, zeroed in the image.
abbrev pub RateTable : Type 0
RateTable = List RateEntry

abbrev pub free_entry : RateEntry
free_entry = record { rule_id = 0; tokens = 0; last_refill_ms = 0; in_use = false }

abbrev pub empty_table : RateTable
empty_table = replicate rate_table_size free_entry

abbrev pub u64 : ℕ → ℕ
u64 n = n % 2 ^ 64

-- `g_RateTable[i].inUse && g_RateTable[i].ruleId == ruleId`
unfoldable pub holds : ℕ → RateEntry → Bool
holds id e = e.in_use && e.rule_id == id

-- `if (!g_RateTable[i].inUse && slot == SK_RATE_TABLE_SIZE) slot = i`
pub remember : Bool → ℕ → ℕ → ℕ
remember in_use slot i = if not in_use && slot == rate_table_size then i else slot

-- The search loop from index `i`: the entry of the rule, else the first free one, which `slot`
-- remembers, else `rate_table_size`.
pub find_slot : RateTable → ℕ → ℕ → ℕ → ℕ
find_slot [] i slot id = slot
find_slot (e ∷ table) i slot id =
    if holds id e then i else find_slot table (i + 1) (remember e.in_use slot i) id

-- A slot that is taken for the first time starts full.
claim : ℕ → Rule → RateEntry → RateEntry
claim now rule e =
    if not e.in_use
    then record { rule_id = rule.rule_id; tokens = rule.burst; last_refill_ms = now; in_use = true }
    else e

-- `rateTokens` per `rateIntervalMs`, at most `burst`, in 64 bits.
refill : ℕ → Rule → RateEntry → RateEntry
refill now rule e =
    let intervals = (now - e.last_refill_ms) / rule.rate_interval_ms in
    let sum = u64 (e.tokens + u64 (intervals * rule.rate_tokens)) in
    if ltb e.last_refill_ms now
    then (if intervals == 0 then e else record e {
      tokens = if ltb rule.burst sum then rule.burst else sum;
      last_refill_ms = u64 (e.last_refill_ms + u64 (intervals * rule.rate_interval_ms));
    })
    else e

take_token : RateEntry → Bool × RateEntry
take_token e = if ltb 0 e.tokens then (true, record e { tokens = e.tokens - 1 }) else (false, e)

-- What happens to the entry at the slot.
pub bucket_step : ℕ → Rule → RateEntry → Bool × RateEntry
unfolding claim refill take_token
bucket_step now rule e = take_token (refill now rule (claim now rule e))

-- The call with the entry at `slot`; `none`, no slot, is the fail-open branch.
use_slot : ℕ → Rule → RateTable → ℕ → Option RateEntry → Bool × RateTable
use_slot now rule table slot none = (true, table)
use_slot now rule table slot (some e) =
    let (allowed, e') = bucket_step now rule e in (allowed, set table slot e')

-- `SkRateAllow` at time `now`.
unfoldable pub rate_allow : ℕ → Rule → RateTable → Bool × RateTable
unfolding remember find_slot bucket_step holds use_slot
rate_allow now rule table =
    let slot = find_slot table 0 rate_table_size rule.rule_id in
    use_slot now rule table slot (get_elem? table slot)

-- `SkRuleRateReset`: the first entry of the rule is zeroed.
unfoldable pub rate_reset : ℕ → RateTable → RateTable
unfolding holds
rate_reset id [] = []
rate_reset id (e ∷ table) = if holds id e then free_entry ∷ table else e ∷ rate_reset id table
