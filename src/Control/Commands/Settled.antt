-- ===== src/Control/Commands/Settled.antt =====
-- A handler that changes the rules fails and leaves the store, or publishes a rule set.
use shinken_sentinel.Prelude.{
  ℕ, ◌≡◌, ◌⊎◌, refl, List, Option, none, some, Bool, false, not, ◌&&◌, ◌==◌, arith, inl, inr,
  Bool-cases, Option-cases,
}
use shinken_sentinel.Status.{
  NtStatus, nt_success, status_success, status_invalid_parameter, status_insufficient_resources,
}
use shinken_sentinel.Rules.Types.{Rule}
use shinken_sentinel.Rules.Snapshot.{policy_permit, policy_block}
use shinken_sentinel.Rules.Store.{Store}
use shinken_sentinel.Rules.Store.Safe.{Safe}
use shinken_sentinel.Rules.Store.View.{Content, view, published_view}
use shinken_sentinel.Rules.Store.Api.{add, update, replace, clear}
use shinken_sentinel.Rules.Store.Api.Writers.{Ready, Outcome}
use shinken_sentinel.Rules.Store.Api.Calls.{
  add_refusal, update_refusal, absent_refusal, add_outcome, update_outcome, delete_outcome,
}
use shinken_sentinel.Rules.Store.Api.Bulk.{
  replace_refusal, policy_refusal, replace_outcome, clear_outcome, policy_outcome,
}
use shinken_sentinel.Control.Wire.{u32_at, u64_at, validate_wire, convert_wire}
use shinken_sentinel.Control.Commands.{
  Call, Pools, header_bytes, cmd_add_or_update, cmd_delete_rule, cmd_replace_ruleset,
  replace_expected, cmd_set_default_policy,
}
use shinken_sentinel.Control.Commands.Replacing.{cmd_replace_ruleset_lem}

-- A call on the store that failed and left it, or published a rule set over what was shown.
abbrev pub Settled : List ℕ → Store → Content → Option (NtStatus × Store) → Type 0
Settled held s old o =
    ((st : NtStatus) × (nt_success st ≡ false) × (o ≡ some (st, s)))
    ⊎ ((s' : Store) × (rules : List Rule) × (policy : ℕ) × (o ≡ some (status_success, s'))
        × Safe held s'
        × (view s' ≡ published_view rules policy old))

module _ (held : List ℕ) (s : Store) (old : Content) (ready : Ready held s old)
    (pools : Pools) where
  Settled-of :
      (o : Option (NtStatus × Store)) (refused : Option NtStatus) (memory : Bool)
      (Allowed : List Rule → ℕ → Type 0)
      → ((st : NtStatus) → refused ≡ some st → nt_success st ≡ false)
      → Outcome held s old refused memory Allowed o
      → Settled held s old o
  Settled-of o refused memory Allowed bad (inl (st, e, same)) = inl (st, bad st e, same)
  Settled-of o refused memory Allowed bad (inr (inl (e, lacks, same))) =
      inl (status_insufficient_resources, refl, same)
  Settled-of o refused memory Allowed bad
        (inr (inr (e, got, (s', rules, policy, done, safe, seen, a)))) =
      inr (s', rules, policy, done, safe, seen)

  add-Settled : (rule : Rule) → Settled held s old (add pools.array pools.snap rule s)
  add-Settled rule =
      Settled-of _ (add_refusal rule old) _ _ (λ st e. ground arith)
        (add_outcome held s old ready pools.array pools.snap rule)

  update-Settled : (rule : Rule) → Settled held s old (update pools.array pools.snap rule s)
  update-Settled rule =
      Settled-of _ (update_refusal rule old) _ _ (λ st e. ground arith)
        (update_outcome held s old ready pools.array pools.snap rule)

  replace-Settled :
      (rules : List Rule) (expected : ℕ)
      → Settled held s old (replace pools.array pools.snap rules expected s)
  replace-Settled rules expected =
      Settled-of _ (replace_refusal rules expected old) _ _ (λ st e. ground arith)
        (replace_outcome held s old ready pools.array pools.snap rules expected)

  refused-Settled : Settled held s old (some (status_invalid_parameter, s))
  refused-Settled = inl (status_invalid_parameter, refl, refl)

  pub add_or_update-Settled :
      (c : Call) (is_update : Bool) → Settled held s old (cmd_add_or_update pools c is_update s)
  unfolding cmd_add_or_update
  add_or_update-Settled c is_update =
      elim (Option-cases (validate_wire c.m header_bytes c.payload_len)) [
        | inl bad ↦ rw (bad, cmd_add_or_update) refused-Settled
        | inr (n, size) ↦ elim (Bool-cases (not (n == c.payload_len))) [
          | inl more ↦ rw (size, cmd_add_or_update, more) refused-Settled
          | inr exact ↦ elim (Bool-cases is_update) [
            | inl up ↦
                rw (size, cmd_add_or_update, exact, up)
                  (update-Settled (convert_wire c.m header_bytes))
            | inr new ↦
                rw (size, cmd_add_or_update, exact, new)
                  (add-Settled (convert_wire c.m header_bytes))
          ]
        ]
      ]

  pub delete-Settled : (c : Call) → Settled held s old (cmd_delete_rule pools c s)
  unfolding cmd_delete_rule
  delete-Settled c = elim (Bool-cases (not (c.payload_len == 8))) [
    | inl bad ↦ rw bad refused-Settled
    | inr exact ↦
        let id = u64_at c.m header_bytes in
        rw exact (
          Settled-of _ (absent_refusal id old) _ _ (λ st e. ground arith)
            (delete_outcome held s old ready pools.array pools.snap id))
  ]

  pub clear-Settled : Settled held s old (clear pools.snap s)
  clear-Settled =
      Settled-of _ none _ _ (λ st e. cc) (clear_outcome held s old ready pools.array pools.snap)

  pub policy-Settled : (c : Call) → Settled held s old (cmd_set_default_policy pools c s)
  unfolding cmd_set_default_policy
  policy-Settled c = elim (Bool-cases (not (c.payload_len == 4))) [
    | inl bad ↦ rw bad refused-Settled
    | inr exact ↦
        let policy = u32_at c.m header_bytes in
        elim (Bool-cases (not (policy == policy_permit) && not (policy == policy_block))) [
          | inl other ↦ rw (exact, other) refused-Settled
          | inr known ↦
              rw (exact, known)
                (Settled-of _ (policy_refusal policy) _ _ (λ st e. ground arith)
                  (policy_outcome held s old ready pools.array pools.snap policy))
        ]
  ]

  pub cmd_replace-Settled : (c : Call) → Settled held s old (cmd_replace_ruleset pools c s)
  cmd_replace-Settled c = elim (cmd_replace_ruleset_lem pools c s).1 [
    | inl refused ↦ inl refused
    | inr (rules, _, same) ↦ rw same (replace-Settled rules (replace_expected c.m))
  ]
