-- ===== src/Rules/Store/Api/Calls.antt =====
-- The calls of the writer API, on every branch.
use mathlib.Core.List.{Perm}
use mathlib.Core.List.Perm
use shinken_sentinel.Prelude.{
  ℕ, ◌≡◌, refl, sym, subst, List, [], ◌∷◌, ◌++◌, Option, none, some, Bool, true, false,
  if◌then◌else◌, ◌==◌, leb, arith, length, inl, inr, Bool-cases, ◌&&◌, ◌||◌, map,
}
use shinken_sentinel.Status.{
  NtStatus, nt_success, status_insufficient_resources, status_objectid_exists, status_not_found,
}
use shinken_sentinel.Rules.Types.{Rule}
use shinken_sentinel.Rules.Validate.{validate}
use shinken_sentinel.Rules.Order.{sort_rules}
use shinken_sentinel.Rules.Order.Sorted.{sort_rules_lem}
use shinken_sentinel.Rules.Store.{Store, ◌>>=◌, has_id}
use shinken_sentinel.Rules.Store.View.{Content}
use shinken_sentinel.Rules.Store.Safe.{Good, rule_max}
use shinken_sentinel.Rules.Store.Api.{
  writer, reset_after, add_plan, add, update_plan, update, edit_first, delete_first, delete_plan,
  delete, with_enabled, enable_plan, set_enabled,
}
use shinken_sentinel.Rules.Store.Api.Plans.{Good-Fit}
use shinken_sentinel.Rules.Store.Api.Writers.{Ready, Outcome, Ready-Good, writer_lem, Outcome-reset}
use shinken_sentinel.Rules.Store.Api.Edits.{
  add-Good, snoc-Perm, update-Good, edit_first-Perm, delete-Good, delete_first-Perm,
  delete_first-one,
}
use shinken_sentinel.Rules.Store.Api.Enable.{enable-Good, switched, edit_first-map}

-- Why a rule is not added: it is not valid, the set is full, or its identifier is taken.
abbrev pub add_refusal : Rule → Content → Option NtStatus
add_refusal rule old =
    if nt_success (validate rule)
    then (if leb rule_max (length old.rules)
        then some status_insufficient_resources
        else if has_id rule.rule_id old.rules
        then some status_objectid_exists
        else none)
    else some (validate rule)

-- The new set: the same rules and the new one, in any order (a safe store keeps verdict order).
abbrev pub Added : Rule → Content → List Rule → ℕ → Type 0
Added rule old rules policy = Perm rules (rule ∷ old.rules) × (policy ≡ old.policy)

add_refusal-error :
    (rule : Rule) (old : Content) (st : NtStatus)
    → add_refusal rule old ≡ some st
    → nt_success st ≡ false
add_refusal-error rule old st h = ground arith

add_step :
    (a b : Bool) (rule : Rule) (s : Store)
    → nt_success (validate rule) ≡ true
    → add a b rule s ≡ (writer b (add_plan a rule) s >>= reset_after rule.rule_id)
unfolding add
add_step a b rule s v = rw v refl

update_step :
    (a b : Bool) (rule : Rule) (s : Store)
    → nt_success (validate rule) ≡ true
    → update a b rule s ≡ writer b (update_plan a rule) s
unfolding update
update_step a b rule s v = rw v refl

-- Why a rule is not updated: it is not valid, or there is none of its identifier.
abbrev pub update_refusal : Rule → Content → Option NtStatus
update_refusal rule old =
    if nt_success (validate rule)
    then (if has_id rule.rule_id old.rules then none else some status_not_found)
    else some (validate rule)

-- The new set: the rule in the place of the one of its identifier.
abbrev pub Updated : Rule → Content → List Rule → ℕ → Type 0
Updated rule old rules policy =
    ((gone : Rule) × (rest : List Rule) × (gone.rule_id ≡ rule.rule_id)
      × Perm old.rules (gone ∷ rest)
      × Perm rules (rule ∷ rest))
    × (policy ≡ old.policy)

-- Why there is nothing to delete or to switch.
abbrev pub absent_refusal : ℕ → Content → Option NtStatus
absent_refusal id old = if has_id id old.rules then none else some status_not_found

-- The new set: the old one without one rule of that identifier.
abbrev pub Deleted : ℕ → Content → List Rule → ℕ → Type 0
Deleted id old rules policy =
    ((gone : Rule) × (gone.rule_id ≡ id) × Perm old.rules (gone ∷ rules)) × (policy ≡ old.policy)

-- The new set: every rule of that identifier switched, in its place.
abbrev pub Switched : ℕ → Bool → Content → List Rule → ℕ → Type 0
Switched id on old rules policy = (rules ≡ map (switched on id) old.rules) × (policy ≡ old.policy)

absent_refusal-error :
    (id : ℕ) (old : Content) (st : NtStatus)
    → absent_refusal id old ≡ some st
    → nt_success st ≡ false
absent_refusal-error id old st h = ground arith

module _ (held : List ℕ) (s : Store) (old : Content) (ready : Ready held s old)
    (array_ok snap_ok : Bool) where
  added :
      (rule : Rule)
      → nt_success (validate rule) ≡ true
      → Outcome held s old
          (add_refusal rule old)
          (array_ok && snap_ok)
          (Added rule old)
          (writer snap_ok (add_plan array_ok rule) s)
  unfolding add_plan
  added rule v =
      writer_lem held s old ready snap_ok (add_plan array_ok rule) (add_refusal rule old)
        (array_ok && snap_ok) (Added rule old)
        (elim (Bool-cases (leb rule_max (length old.rules))) [
          | inl full ↦ inl (status_insufficient_resources, rw (v, full) refl, rw full refl)
          | inr room ↦ elim (Bool-cases (has_id rule.rule_id old.rules)) [
            | inl taken ↦
                inl (status_objectid_exists, rw (v, room, taken) refl, rw (room, taken) refl)
            | inr new ↦ elim (Bool-cases array_ok) [
              | inr lacks ↦
                  inr (inl (rw (v, room, new) refl, rw lacks refl, rw (room, new, lacks) refl))
              | inl got ↦
                  let sorted = sort_rules_lem (old.rules ++ rule ∷ []) in
                  inr (
                    inr (
                      rw (v, room, new) refl,
                      rw got refl,
                      (
                        sort_rules (old.rules ++ rule ∷ []),
                        old.policy,
                        rw (room, new, got) refl,
                        add-Good rule old.rules
                            (Good-Fit old.rules
                              (Ready-Good held s old ready snap_ok (add_plan array_ok rule)))
                            v new (ground arith),
                        (Perm.trans sorted.0 (snoc-Perm rule old.rules), refl),
                      ),
                    ))
            ]
          ]
        ])

  -- `SkRuleStoreAdd` on a store that may be written: an invalid rule, a full set and a taken
  -- identifier are refused with their status and change nothing, as does a lack of memory; otherwise
  -- the old rules and the new one are published under the next version and the same policy.
  pub add_outcome :
      (rule : Rule)
      → Outcome held s old
          (add_refusal rule old)
          (array_ok && snap_ok)
          (Added rule old)
          (add array_ok snap_ok rule s)
  unfolding add
  add_outcome rule = elim (Bool-cases (nt_success (validate rule))) [
    | inl v ↦
        subst (Outcome held s old (add_refusal rule old) (array_ok && snap_ok) (Added rule old))
          (sym (add_step array_ok snap_ok rule s v))
          (Outcome-reset held s old (add_refusal rule old) (array_ok && snap_ok) (Added rule old)
            (writer snap_ok (add_plan array_ok rule) s) rule.rule_id (add_refusal-error rule old)
            (added rule v))
    | inr bad ↦ inl (validate rule, rw bad refl, rw bad refl)
  ]

  updated :
      (rule : Rule)
      → nt_success (validate rule) ≡ true
      → Outcome held s old
          (update_refusal rule old)
          (array_ok && snap_ok)
          (Updated rule old)
          (writer snap_ok (update_plan array_ok rule) s)
  unfolding update_plan
  updated rule v =
      writer_lem held s old ready snap_ok (update_plan array_ok rule) (update_refusal rule old)
        (array_ok && snap_ok) (Updated rule old)
        (elim (Bool-cases (has_id rule.rule_id old.rules)) [
          | inr new ↦ inl (status_not_found, rw (v, new) refl, rw new refl)
          | inl known ↦ elim (Bool-cases array_ok) [
            | inr lacks ↦ inr (inl (rw (v, known) refl, rw lacks refl, rw (known, lacks) refl))
            | inl got ↦
                let edited = edit_first (λ r. rule) rule.rule_id old.rules in
                let (gone, same, p) = delete_first-Perm rule.rule_id old.rules known in
                let good = Ready-Good held s old ready snap_ok (update_plan array_ok rule) in
                inr (
                  inr (
                    rw (v, known) refl,
                    rw got refl,
                    (
                      sort_rules edited,
                      old.policy,
                      rw (known, got) refl,
                      update-Good rule old.rules (Good-Fit old.rules good) v known,
                      (
                        (
                          gone,
                          delete_first rule.rule_id old.rules,
                          same,
                          p,
                          Perm.trans (sort_rules_lem edited).0
                              (edit_first-Perm rule rule.rule_id old.rules known),
                        ),
                        refl,
                      ),
                    ),
                  ))
          ]
        ])

  -- `SkRuleStoreUpdate` on a store that may be written: an invalid rule and an unknown identifier are
  -- refused with their status and change nothing, as does a lack of memory; otherwise the rule takes
  -- the place of the one of its identifier, under the next version and the same policy.
  pub update_outcome :
      (rule : Rule)
      → Outcome held s old
          (update_refusal rule old)
          (array_ok && snap_ok)
          (Updated rule old)
          (update array_ok snap_ok rule s)
  unfolding update
  update_outcome rule = elim (Bool-cases (nt_success (validate rule))) [
    | inl v ↦
        subst
          (Outcome held s old (update_refusal rule old) (array_ok && snap_ok) (Updated rule old))
          (sym (update_step array_ok snap_ok rule s v)) (updated rule v)
    | inr bad ↦ inl (validate rule, rw bad refl, rw bad refl)
  ]

  -- `SkRuleStoreDelete` on a store that may be written: an unknown identifier is refused and changes
  -- nothing, as does a lack of memory (the last rule needs none for an array); otherwise the rules
  -- less the one of that identifier are published under the next version and the same policy.
  pub delete_outcome :
      (id : ℕ)
      → Outcome held s old
          (absent_refusal id old)
          ((length old.rules == 1 || array_ok) && snap_ok)
          (Deleted id old)
          (delete array_ok snap_ok id s)
  unfolding delete delete_plan
  delete_outcome id =
      writer_lem held s old ready snap_ok (delete_plan array_ok id) (absent_refusal id old)
        ((length old.rules == 1 || array_ok) && snap_ok) (Deleted id old)
        (elim (Bool-cases (has_id id old.rules)) [
          | inr new ↦ inl (status_not_found, rw new refl, rw new refl)
          | inl known ↦
              let (gone, same, p) = delete_first-Perm id old.rules known in
              let good = Ready-Good held s old ready snap_ok (delete_plan array_ok id) in
              let good' = delete-Good id old.rules good known in
              elim (Bool-cases (length old.rules == 1)) [
                | inl one ↦
                    let empty = delete_first-one id old.rules known (ground arith) in
                    inr (
                      inr (
                        rw known refl,
                        rw one refl,
                        (
                          [],
                          old.policy,
                          rw (known, one) refl,
                          subst Good empty good',
                          ((gone, same, subst (λ l. Perm old.rules (gone ∷ l)) empty p), refl),
                        ),
                      ))
                | inr many ↦ elim (Bool-cases array_ok) [
                  | inr lacks ↦
                      inr (inl (rw known refl, rw (many, lacks) refl, rw (known, many, lacks) refl))
                  | inl got ↦ inr (
                      inr (
                        rw known refl,
                        rw (many, got) refl,
                        (
                          delete_first id old.rules,
                          old.policy,
                          rw (known, many, got) refl,
                          good',
                          ((gone, same, p), refl),
                        ),
                      ))
                ]
              ]
        ])

  enabled :
      (id : ℕ) (on : Bool)
      → Outcome held s old
          (absent_refusal id old)
          (array_ok && snap_ok)
          (Switched id on old)
          (writer snap_ok (enable_plan array_ok id on) s)
  unfolding enable_plan
  enabled id on =
      writer_lem held s old ready snap_ok (enable_plan array_ok id on) (absent_refusal id old)
        (array_ok && snap_ok) (Switched id on old)
        (elim (Bool-cases (has_id id old.rules)) [
          | inr new ↦ inl (status_not_found, rw new refl, rw new refl)
          | inl known ↦ elim (Bool-cases array_ok) [
            | inr lacks ↦ inr (inl (rw known refl, rw lacks refl, rw (known, lacks) refl))
            | inl got ↦
                let good = Ready-Good held s old ready snap_ok (enable_plan array_ok id on) in
                inr (
                  inr (
                    rw known refl,
                    rw got refl,
                    (
                      edit_first (with_enabled on) id old.rules,
                      old.policy,
                      rw (known, got) refl,
                      enable-Good on id old.rules good,
                      (edit_first-map on id old.rules good.distinct, refl),
                    ),
                  ))
          ]
        ])

  -- `SkRuleStoreSetEnabled` on a store that may be written: an unknown identifier is refused and
  -- changes nothing, as does a lack of memory; otherwise the rules are published with that one
  -- switched in its place, under the next version and the same policy.
  pub set_enabled_outcome :
      (id : ℕ) (on : Bool)
      → Outcome held s old
          (absent_refusal id old)
          (array_ok && snap_ok)
          (Switched id on old)
          (set_enabled array_ok snap_ok id on s)
  unfolding set_enabled
  set_enabled_outcome id true =
      keep (writer snap_ok (enable_plan array_ok id true) s) (enabled id true)
    where
      keep :
          (r : Option (NtStatus × Store))
          → Outcome held s old
              (absent_refusal id old)
              (array_ok && snap_ok)
              (Switched id true old)
              r
          → Outcome held s old
              (absent_refusal id old)
              (array_ok && snap_ok)
              (Switched id true old)
              (r >>= λ x. some x)
      keep none h = h
      keep (some x) h = h
  set_enabled_outcome id false =
      Outcome-reset held s old (absent_refusal id old) (array_ok && snap_ok) (Switched id false old)
        (writer snap_ok (enable_plan array_ok id false) s) id (absent_refusal-error id old)
        (enabled id false)
