-- ===== src/Rules/Store/Api/Bulk.antt =====
-- The calls that replace, clear, roll back or keep the whole rule set, on every branch.
use mathlib.Core.List.{Perm}
use mathlib.Core.List.Perm
use shinken_sentinel.Prelude.{
  ℕ, ◌*◌, ◌≡◌, refl, sym, subst, List, [], ◌∷◌, Option, none, some, Bool, true, false,
  if◌then◌else◌, ◌==◌, ltb, arith, length, inl, inr, Bool-cases, not, ◌&&◌, ◌||◌,
}
use shinken_sentinel.Status.{
  NtStatus, nt_success, status_objectid_exists, status_retry, status_invalid_parameter,
}
use shinken_sentinel.Rules.Types.{Rule}
use shinken_sentinel.Rules.Snapshot.{policy_permit, policy_block}
use shinken_sentinel.Rules.Order.{sort_rules}
use shinken_sentinel.Rules.Order.Sorted.{sort_rules_lem}
use shinken_sentinel.Rules.Store.{Store}
use shinken_sentinel.Rules.Store.View.{Content}
use shinken_sentinel.Rules.Store.Safe.{Good, rule_max}
use shinken_sentinel.Rules.Store.Api.{
  Plan, writer, first_invalid, has_duplicate, replace_plan, replace, clear, policy_plan,
  set_default_policy, replace_max_bytes, rule_bytes,
}
use shinken_sentinel.Rules.Store.Api.Plans.{sort-Good}
use shinken_sentinel.Rules.Store.Api.Writers.{Ready, Outcome, Ready-Good, writer_lem}
use shinken_sentinel.Rules.Store.Api.Enable.{replace-Fit}

-- Why an array does not replace the rules: it is too long, a rule is not valid, an identifier stands
-- twice, or the version is not the expected one.
abbrev pub replace_refusal : List Rule → ℕ → Content → Option NtStatus
replace_refusal rules expected old =
    if ltb rule_max (length rules)
    then some status_invalid_parameter
    else if nt_success (first_invalid rules)
    then (if has_duplicate rules
        then some status_objectid_exists
        else if not (expected == 0) && not (old.version == expected)
        then some status_retry
        else none)
    else some (first_invalid rules)

abbrev pub Replaced : List Rule → Content → List Rule → ℕ → Type 0
Replaced given old rules policy = Perm rules given × (policy ≡ old.policy)

-- Why a policy is not set.
abbrev pub policy_refusal : ℕ → Option NtStatus
policy_refusal policy =
    if not (policy == policy_permit) && not (policy == policy_block)
    then some status_invalid_parameter
    else none

Good-empty : Good []
Good-empty = record { in_order = tt; valid = tt; distinct = tt; bounded = omega arith }

empty-list : (rules : List Rule) → (length rules == 0) ≡ true → rules ≡ []
empty-list [] h = refl
empty-list (x ∷ rules) h = absurd (ground arith)

fits_bytes :
    (rules : List Rule)
    → ltb rule_max (length rules) ≡ false
    → ltb replace_max_bytes (length rules * rule_bytes) ≡ false
fits_bytes rules h = ground arith

replace_step :
    (a b : Bool) (rules : List Rule) (expected : ℕ) (s : Store)
    → ltb rule_max (length rules) ≡ false
    → nt_success (first_invalid rules) ≡ true
    → has_duplicate rules ≡ false
    → replace a b rules expected s ≡ writer b (replace_plan a rules expected) s
unfolding replace
replace_step a b rules expected s room v once = rw (room, fits_bytes rules room, v, once) refl

policy_step :
    (a b : Bool) (policy : ℕ) (s : Store)
    → (not (policy == policy_permit) && not (policy == policy_block)) ≡ false
    → set_default_policy a b policy s ≡ writer b (policy_plan a policy) s
unfolding set_default_policy
policy_step a b policy s h = rw h refl

module _ (held : List ℕ) (s : Store) (old : Content) (ready : Ready held s old)
    (array_ok snap_ok : Bool) where
  replaced :
      (rules : List Rule) (expected : ℕ)
      → ltb rule_max (length rules) ≡ false
      → nt_success (first_invalid rules) ≡ true
      → has_duplicate rules ≡ false
      → Outcome held s old
          (replace_refusal rules expected old)
          ((length rules == 0 || array_ok) && snap_ok)
          (Replaced rules old)
          (writer snap_ok (replace_plan array_ok rules expected) s)
  unfolding replace_plan
  replaced rules expected room v once =
      writer_lem held s old ready snap_ok (replace_plan array_ok rules expected)
        (replace_refusal rules expected old) ((length rules == 0 || array_ok) && snap_ok)
        (Replaced rules old)
        (elim (Bool-cases (not (expected == 0) && not (old.version == expected))) [
          | inl stale ↦ inl (status_retry, rw (room, v, once, stale) refl, rw stale refl)
          | inr current ↦ elim (Bool-cases (length rules == 0)) [
            | inl empty ↦ inr (
                inr (
                  rw (room, v, once, current) refl,
                  rw empty refl,
                  (
                    [],
                    old.policy,
                    rw (current, empty) refl,
                    Good-empty,
                    (subst (λ l. Perm [] l) (sym (empty-list rules empty)) (Perm.refl []), refl),
                  ),
                ))
            | inr many ↦ elim (Bool-cases array_ok) [
              | inr lacks ↦ inr (
                  inl (
                    rw (room, v, once, current) refl,
                    rw (many, lacks) refl,
                    rw (current, many, lacks) refl,
                  ))
              | inl got ↦ inr (
                  inr (
                    rw (room, v, once, current) refl,
                    rw (many, got) refl,
                    (
                      sort_rules rules,
                      old.policy,
                      rw (current, many, got) refl,
                      sort-Good rules (replace-Fit rules (ground arith) v once),
                      ((sort_rules_lem rules).0, refl),
                    ),
                  ))
            ]
          ]
        ])

  -- `SkRuleStoreReplace` on a store that may be written: an array that is too long, has an invalid rule
  -- or an identifier twice, and a version other than the expected one, are refused with their status
  -- and change nothing, as does a lack of memory; otherwise the array's rules are published under the
  -- next version and the same policy.
  pub replace_outcome :
      (rules : List Rule) (expected : ℕ)
      → Outcome held s old
          (replace_refusal rules expected old)
          ((length rules == 0 || array_ok) && snap_ok)
          (Replaced rules old)
          (replace array_ok snap_ok rules expected s)
  unfolding replace
  replace_outcome rules expected = elim (Bool-cases (ltb rule_max (length rules))) [
    | inl long ↦ inl (status_invalid_parameter, rw long refl, rw long refl)
    | inr room ↦ elim (Bool-cases (nt_success (first_invalid rules))) [
      | inr bad ↦
          inl (first_invalid rules, rw (room, bad) refl, rw (room, fits_bytes rules room, bad) refl)
      | inl v ↦ elim (Bool-cases (has_duplicate rules)) [
        | inl twice ↦ inl (
          status_objectid_exists,
          rw (room, v, twice) refl,
          rw (room, fits_bytes rules room, v, twice) refl,
        )
        | inr once ↦
            subst
              (Outcome held s old (replace_refusal rules expected old)
                ((length rules == 0 || array_ok) && snap_ok) (Replaced rules old))
              (sym (replace_step array_ok snap_ok rules expected s room v once))
              (replaced rules expected room v once)
      ]
    ]
  ]

  -- `SkRuleStoreClear` on a store that may be written: with memory for a snapshot, no rules are
  -- published, under the next version and the same policy; else nothing changes.
  pub clear_outcome :
      Outcome held s old none snap_ok
        (λ rules policy. (rules ≡ []) × (policy ≡ old.policy))
        (clear snap_ok s)
  unfolding clear
  clear_outcome =
      writer_lem held s old ready snap_ok (λ cur. Plan.commit [] cur.policy) none snap_ok
        (λ rules policy. (rules ≡ []) × (policy ≡ old.policy))
        (inr (inr (refl, refl, ([], old.policy, refl, Good-empty, (refl, refl)))))

  policy_set :
      (policy : ℕ)
      → (not (policy == policy_permit) && not (policy == policy_block)) ≡ false
      → Outcome held s old
          (policy_refusal policy)
          ((length old.rules == 0 || array_ok) && snap_ok)
          (λ rules p. (rules ≡ old.rules) × (p ≡ policy))
          (writer snap_ok (policy_plan array_ok policy) s)
  unfolding policy_plan
  policy_set policy known =
      writer_lem held s old ready snap_ok (policy_plan array_ok policy) (policy_refusal policy)
        ((length old.rules == 0 || array_ok) && snap_ok)
        (λ rules p. (rules ≡ old.rules) × (p ≡ policy))
        (elim (Bool-cases (length old.rules == 0)) [
          | inl empty ↦ inr (
              inr (
                rw known refl,
                rw empty refl,
                ([], policy, rw empty refl, Good-empty, (sym (empty-list old.rules empty), refl)),
              ))
          | inr many ↦ elim (Bool-cases array_ok) [
            | inr lacks ↦ inr (inl (rw known refl, rw (many, lacks) refl, rw (many, lacks) refl))
            | inl got ↦ inr (
                inr (
                  rw known refl,
                  rw (many, got) refl,
                  (
                    old.rules,
                    policy,
                    rw (many, got) refl,
                    Ready-Good held s old ready snap_ok (policy_plan array_ok policy),
                    (refl, refl),
                  ),
                ))
          ]
        ])

  -- `SkRuleStoreSetDefaultPolicy` on a store that may be written: a value other than permit and block
  -- is refused and changes nothing, as does a lack of memory; otherwise the same rules are published
  -- under the next version with the new policy.
  pub policy_outcome :
      (policy : ℕ)
      → Outcome held s old
          (policy_refusal policy)
          ((length old.rules == 0 || array_ok) && snap_ok)
          (λ rules p. (rules ≡ old.rules) × (p ≡ policy))
          (set_default_policy array_ok snap_ok policy s)
  unfolding set_default_policy
  policy_outcome policy =
      elim (Bool-cases (not (policy == policy_permit) && not (policy == policy_block))) [
        | inl other ↦ inl (status_invalid_parameter, rw other refl, rw other refl)
        | inr known ↦
            subst
              (Outcome held s old (policy_refusal policy)
                ((length old.rules == 0 || array_ok) && snap_ok)
                (λ rules p. (rules ≡ old.rules) × (p ≡ policy)))
              (sym (policy_step array_ok snap_ok policy s known)) (policy_set policy known)
      ]
