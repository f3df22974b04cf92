-- ===== src/Rules/Store/Api/Queries.antt =====
-- What the queries of the rule store answer.
use shinken_sentinel.Prelude.{
  ℕ, ◌≡◌, ◌⊎◌, refl, sym, ◌∙◌, ap, List, [], ◌∷◌, Option, none, some, Bool, true, false, arith, inl,
  inr, Bool-cases, Option-cases, Within, ==_iff, ◌==◌,
}
use shinken_sentinel.Status.{status_success, status_not_found}
use shinken_sentinel.Rules.Types.{Rule}
use shinken_sentinel.Rules.Snapshot.{Snapshot}
use shinken_sentinel.Rules.Store.{Store, has_id}
use shinken_sentinel.Rules.Store.View.{Content, content, shown, view}
use shinken_sentinel.Rules.Store.Api.{
  store_version, store_policy, find_rule, store_find, visit, store_enum,
}

-- The answer of a search: the rule of that identifier, or that there is none.
abbrev pub Finds : ℕ → List Rule → Option (ℕ × Option Rule) → Type 0
Finds id rules result =
    ((has_id id rules ≡ false) × (result ≡ some (status_not_found, none)))
    ⊎ ((has_id id rules ≡ true)
        × ((r : Rule) × (r.rule_id ≡ id)
            × Within r rules
            × (result ≡ some (status_success, some r))))

find_rule-Finds : (id : ℕ) (rules : List Rule) → Finds id rules (some (find_rule id rules))
unfolding has_id find_rule
find_rule-Finds id [] = inl (refl, refl)
find_rule-Finds id (r ∷ rules) = elim (Bool-cases (r.rule_id == id)) [
  | inl own ↦ inr (rw own refl, (r, (==_iff _ _).0 own, Within.here, rw own refl))
  | inr other ↦ further other (find_rule-Finds id rules)
]
  where
    further :
        (r.rule_id == id) ≡ false
        → Finds id rules (some (find_rule id rules))
        → Finds id (r ∷ rules) (some (find_rule id (r ∷ rules)))
    further other (inl (absent, same)) = inl (rw other absent, rw other same)
    further other (inr (known, (x, own, w, same))) =
        inr (rw other known, (x, own, Within.there w, rw other same))

shown_cell :
    (s : Store) (now : Content)
    → (view s).now ≡ some now
    → (c : ℕ) × (snap : Snapshot) × (s.current ≡ some c)
      × (s.cells c ≡ some snap)
      × (snap.rules ≡ now.rules)
      × (snap.version ≡ now.version)
      × (snap.default_policy ≡ now.policy)
unfolding shown
shown_cell s now h = elim (Option-cases s.current) [
  | inl gone ↦ absurd (ground (arith, ap (shown s.cells) gone))
  | inr (c, at) ↦ elim (Option-cases (s.cells c)) [
    | inl freed ↦ absurd (ground (arith, ap (shown s.cells) at ∙ ap content freed))
    | inr (snap, e) ↦
        let seen : some now ≡ content (some snap) = sym h ∙ ap (shown s.cells) at ∙ ap content e in
        (c, snap, at, e, ground arith, ground arith, ground arith)
  ]
]

-- Of an initialized store that shows a content, SkRuleStoreVersion and SkRuleStoreDefaultPolicy answer
-- that content's version and policy, SkRuleStoreFind finds the rule of an identifier exactly where the
-- content has one, and SkRuleStoreEnum visits the content's rules in their order.
pub queries_lem {ℓ} :
    {C : Type ℓ} (on_rule : Rule → C → Bool × C) (ctx : C) (s : Store) (now : Content) (id : ℕ)
    → s.inited ≡ true
    → (view s).now ≡ some now
    → (store_version s ≡ some now.version)
      × (store_policy s ≡ some now.policy)
      × Finds id now.rules (store_find id s)
      × (store_enum on_rule ctx s ≡ some (status_success, visit on_rule now.rules ctx))
unfolding store_version store_policy store_find store_enum
queries_lem on_rule ctx s now id started h =
    let (c, snap, at, e, rules, version, policy) = shown_cell s now h in
    (
      rw (at, e, version) refl,
      rw (at, e, policy) refl,
      rw (started, at, e, rules) (find_rule-Finds id now.rules),
      rw (started, at, e, rules) refl,
    )
