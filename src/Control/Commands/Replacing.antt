-- ===== src/Control/Commands/Replacing.antt =====
-- Which payloads SkCmdReplaceRuleset hands to the store, and what a bad one leaves.
use shinken_sentinel.Prelude.{
  ℕ, zero, suc, ◌+◌, ◌-◌, ◌*◌, ◌^◌, ◌≤◌, ◌≡◌, ◌⊎◌, refl, sym, List, Option, none, some, true, false,
  arith, length, inl, inr, Option-cases,
}
use shinken_sentinel.Status.{NtStatus, nt_success, status_invalid_parameter}
use shinken_sentinel.Rules.Types.{Rule}
use shinken_sentinel.Rules.Store.{Store}
use shinken_sentinel.Rules.Store.Api.{replace}
use shinken_sentinel.Control.Wire.{Bytes, walk_wires}
use shinken_sentinel.Control.Wire.Laws.{Conforms, Area, Area-of, walk_wires-of}
use shinken_sentinel.Control.Commands.{
  Call, Pools, replace_parsed, replace_count, replace_bytes, replace_expected, replace_check,
  replace_checked, cmd_replace_ruleset,
}

-- A payload that is a replace header and the wires of these rules.
pub record Replaces (c : Call) (rules : List Rule) : Type 0 where
  pub has_header : 16 ≤ c.payload_len
  pub few : replace_count c.m ≤ 4096
  pub small : replace_bytes c.m ≤ 2 ^ 20
  pub exact : 16 + replace_bytes c.m ≡ c.payload_len
  pub number : length rules ≡ replace_count c.m
  pub area : Area c.m 40 (replace_bytes c.m) rules

shape_size :
    (m : Bytes) (cur remaining n : ℕ) → Conforms m cur remaining n → (184 ≤ n) × (n ≤ remaining)
shape_size m cur remaining n h = ground (arith, h.shape)

Area-size :
    (m : Bytes) (cur remaining : ℕ) (rules : List Rule)
    → Area m cur remaining rules
    → 184 * length rules ≤ remaining
Area-size m cur remaining _ (Area.end e) = omega arith
Area-size m cur remaining _ (Area.wire {rules} n ok rest) =
    omega (arith, shape_size m cur remaining n ok, Area-size m (cur + n) (remaining - n) rules rest)

check_passes :
    (pools : Pools) (c : Call) (rules : List Rule)
    → Replaces c rules
    → pools.parsed ≡ true
    → replace_check pools c ≡ none
unfolding replace_check
check_passes pools c rules h got =
    let size : 184 * length rules ≤ replace_bytes c.m =
      Area-size c.m 40 (replace_bytes c.m) rules h.area in
    let room : replace_count c.m * 184 ≤ replace_bytes c.m = omega (arith, h.number) in
    ground (arith, h.has_header, h.few, h.small, h.exact)

check_error :
    (pools : Pools) (c : Call) (st : NtStatus)
    → replace_check pools c ≡ some st
    → nt_success st ≡ false
unfolding replace_check
check_error pools c st h = ground arith

record Framed (c : Call) : Type 0 where
  has_header : 16 ≤ c.payload_len
  few : replace_count c.m ≤ 4096
  small : replace_bytes c.m ≤ 2 ^ 20
  exact : 16 + replace_bytes c.m ≡ c.payload_len

check-Framed : (pools : Pools) (c : Call) → replace_check pools c ≡ none → Framed c
unfolding replace_check
check-Framed pools c h = record {
  has_header = ground arith;
  few = ground arith;
  small = ground arith;
  exact = ground arith;
}

parsed-of :
    (pools : Pools) (expected : ℕ) (walk : Option (List Rule × ℕ)) (s : Store)
    → (replace_parsed pools expected walk s ≡ some (status_invalid_parameter, s))
      ⊎ ((rules : List Rule) × (walk ≡ some (rules, 0))
          × (replace_parsed pools expected walk s
              ≡ replace pools.array pools.snap rules expected s))
unfolding replace_parsed
parsed-of pools expected none s = inl refl
parsed-of pools expected (some (rules, zero)) s = inr (rules, refl, refl)
parsed-of pools expected (some (rules, suc left)) s = inl (ground arith)

-- `SkCmdReplaceRuleset` with memory for the rules hands a payload that is a replace header and the wires
-- of some rules to `SkRuleStoreReplace`, with exactly those rules and the version that the caller
-- expects. Whatever the payload, it does that for such rules or returns an error and leaves the store
-- as it was.
pub cmd_replace_ruleset_lem :
    (pools : Pools) (c : Call) (s : Store)
    → ((rules : List Rule)
        → Replaces c rules
        → pools.parsed ≡ true
        → cmd_replace_ruleset pools c s
          ≡ replace pools.array pools.snap rules (replace_expected c.m) s)
      × (((st : NtStatus) × (nt_success st ≡ false)
            × (cmd_replace_ruleset pools c s ≡ some (st, s)))
          ⊎ ((rules : List Rule) × Replaces c rules
              × (cmd_replace_ruleset pools c s
                  ≡ replace pools.array pools.snap rules (replace_expected c.m) s)))
unfolding cmd_replace_ruleset replace_checked
cmd_replace_ruleset_lem pools c s = (
  (λ rules h got.
      rw
        (
          check_passes pools c rules h got,
          sym h.number,
          walk_wires-of c.m 40 (replace_bytes c.m) rules h.area,
        )
        (unfold replace_parsed in refl)),
  elim (Option-cases (replace_check pools c)) [
    | inr (st, refused) ↦ inl (st, check_error pools c st refused, rw refused refl)
    | inl passed ↦
        rw passed
          (elim (parsed-of pools (replace_expected c.m)
            (walk_wires (replace_count c.m) c.m 40 (replace_bytes c.m)) s) [
              | inl bad ↦ inl (status_invalid_parameter, refl, bad)
              | inr (rules, walked, same) ↦
                  let (area, number) =
                    Area-of (replace_count c.m) c.m 40 (replace_bytes c.m) rules walked in
                  let f = check-Framed pools c passed in
                  inr (
                    rules,
                    record {
                      has_header = f.has_header;
                      few = f.few;
                      small = f.small;
                      exact = f.exact;
                      number = number;
                      area = area;
                    },
                    same,
                  )
            ])
  ],
)
