-- ===== src/Rules/Store/Api/Plans.antt =====
-- Every plan of a writer makes a rule set that may be published from one that may.
use mathlib.Core.List.{Perm, foldr}
use mathlib.Core.List.Perm
use mathlib.Core.HLevel.{hedberg}
use shinken_sentinel.Prelude.{
  ℕ, suc, ◌+◌, ◌≤◌, ◌≡◌, refl, sym, ◌∙◌, ap, subst, List, [], ◌∷◌, Bool, true, false, if◌then◌else◌,
  ◌==◌, arith, All, length, inl, inr, ℕ_discrete, Bool-cases, not, ==_iff,
}
use shinken_sentinel.Status.{status_success}
use shinken_sentinel.Rules.Types.{Rule}
use shinken_sentinel.Rules.Validate.{validate}
use shinken_sentinel.Rules.Order.{sort_rules}
use shinken_sentinel.Rules.Order.Sorted.{InOrder, sort_rules_lem}
use shinken_sentinel.Rules.Store.{has_id}
use shinken_sentinel.Rules.Store.Safe.{Good, DistinctIds, rule_max}

-- The number of rules with a property.
unfoldable tally : (Rule → Bool) → List Rule → ℕ
tally f [] = 0
tally f (r ∷ rules) = (if f r then 1 else 0) + tally f rules

tally-foldr :
    (f : Rule → Bool) (xs : List Rule) → tally f xs ≡ foldr (λ r n. (if f r then 1 else 0) + n) 0 xs
unfolding tally
tally-foldr f [] = refl
tally-foldr f (x ∷ xs) = ap (λ n. (if f x then 1 else 0) + n) (tally-foldr f xs)

tally-Perm : (f : Rule → Bool) {xs ys : List Rule} → Perm xs ys → tally f xs ≡ tally f ys
tally-Perm f {xs} {ys} p =
    tally-foldr f xs
    ∙ Perm.foldr-eq (hedberg ℕ_discrete) (λ r n. (if f r then 1 else 0) + n) (λ a b x. omega arith)
        p 0
    ∙ sym (tally-foldr f ys)

abbrev is_valid : Rule → Bool
is_valid r = validate r == status_success

abbrev has_that : ℕ → Rule → Bool
has_that id r = r.rule_id == id

length-tally : (xs : List Rule) → tally (λ r. true) xs ≡ length xs
unfolding tally
length-tally [] = refl
length-tally (x ∷ xs) = omega (arith, length-tally xs)

tally_hit :
    (f : Rule → Bool) (x : Rule) (xs : List Rule) → f x ≡ true → tally f (x ∷ xs) ≡ suc (tally f xs)
unfolding tally
tally_hit f x xs h = rw h (omega arith)

tally_miss :
    (f : Rule → Bool) (x : Rule) (xs : List Rule) → f x ≡ false → tally f (x ∷ xs) ≡ tally f xs
unfolding tally
tally_miss f x xs h = rw h (omega arith)

tally_nil : (f : Rule → Bool) → tally f [] ≡ 0
unfolding tally
tally_nil f = refl

tally_more : (f : Rule → Bool) (x : Rule) (xs : List Rule) → tally f xs ≤ tally f (x ∷ xs)
unfolding tally
tally_more f x xs = omega arith

tally-none :
    (xs : List Rule)
    → All (λ r. validate r ≡ status_success) xs
    → tally (λ r. not (is_valid r)) xs ≡ 0
unfolding tally
tally-none [] h = refl
tally-none (x ∷ xs) h =
    let own : is_valid x ≡ true = (==_iff _ _).1 h.0 in rw own (omega (arith, tally-none xs h.1))

none-tally :
    (xs : List Rule)
    → tally (λ r. not (is_valid r)) xs ≡ 0
    → All (λ r. validate r ≡ status_success) xs
none-tally [] h = tt
none-tally (x ∷ xs) h = elim (Bool-cases (is_valid x)) [
  | inl own ↦
      let step = tally_miss (λ r. not (is_valid r)) x xs (ap not own) in
      ((==_iff _ _).0 own, none-tally xs (omega arith))
  | inr bad ↦ let step = tally_hit (λ r. not (is_valid r)) x xs (ap not bad) in absurd (omega arith)
]

has_id-tally : (id : ℕ) (xs : List Rule) → has_id id xs ≡ false → tally (has_that id) xs ≡ 0
unfolding tally has_id
has_id-tally id [] h = refl
has_id-tally id (x ∷ xs) h = elim (Bool-cases (x.rule_id == id)) [
  | inl own ↦ absurd (ground arith)
  | inr other ↦
      let rest : has_id id xs ≡ false = ground arith in
      rw other (omega (arith, has_id-tally id xs rest))
]

tally-has_id : (id : ℕ) (xs : List Rule) → tally (has_that id) xs ≡ 0 → has_id id xs ≡ false
unfolding has_id
tally-has_id id [] h = refl
tally-has_id id (x ∷ xs) h = elim (Bool-cases (x.rule_id == id)) [
  | inl own ↦ let step = tally_hit (has_that id) x xs own in absurd (omega arith)
  | inr other ↦
      let step = tally_miss (has_that id) x xs other in rw other (tally-has_id id xs (omega arith))
]

DistinctIds-tally : (xs : List Rule) → DistinctIds xs → (id : ℕ) → tally (has_that id) xs ≤ 1
DistinctIds-tally [] h id = omega (arith, tally_nil (has_that id))
DistinctIds-tally (x ∷ xs) h id = elim (Bool-cases (x.rule_id == id)) [
  | inl own ↦
      let same : x.rule_id ≡ id = (==_iff _ _).0 own in
      let gone : tally (has_that id) xs ≡ 0 =
        has_id-tally id xs (subst (λ i. has_id i xs ≡ false) same h.0) in
      let step = tally_hit (has_that id) x xs own in omega arith
  | inr other ↦
      let step = tally_miss (has_that id) x xs other in omega (arith, DistinctIds-tally xs h.1 id)
]

tally-DistinctIds : (xs : List Rule) → ((id : ℕ) → tally (has_that id) xs ≤ 1) → DistinctIds xs
tally-DistinctIds [] h = tt
tally-DistinctIds (x ∷ xs) h =
    let step = tally_hit (has_that x.rule_id) x xs ((==_iff _ _).1 refl) in
    (
      tally-has_id x.rule_id xs (omega (arith, h x.rule_id)),
      tally-DistinctIds xs (λ id. omega (arith, h id, tally_more (has_that id) x xs)),
    )

-- A rule set that may be published, apart from its order.
pub record Fit (rules : List Rule) : Type 0 where
  pub valid : All (λ rule. validate rule ≡ status_success) rules
  pub distinct : DistinctIds rules
  pub bounded : length rules ≤ rule_max

pub Fit-Good : (rules : List Rule) → Fit rules → InOrder rules → Good rules
Fit-Good rules fit order = record {
  in_order = order;
  valid = fit.valid;
  distinct = fit.distinct;
  bounded = fit.bounded;
}

pub Good-Fit : (rules : List Rule) → Good rules → Fit rules
Good-Fit rules good = record {
  valid = good.valid;
  distinct = good.distinct;
  bounded = good.bounded;
}

-- Whether a rule set is fit does not depend on its order.
pub Fit-Perm : (xs ys : List Rule) → Perm xs ys → Fit ys → Fit xs
Fit-Perm xs ys p fit = record {
  valid = none-tally xs (tally-Perm (λ r. not (is_valid r)) p ∙ tally-none ys fit.valid);
  distinct = tally-DistinctIds xs (λ id.
      subst (λ n. n ≤ 1) (sym (tally-Perm (has_that id) p)) (DistinctIds-tally ys fit.distinct id));
  bounded =
      subst (λ n. n ≤ rule_max)
        (sym (length-tally ys) ∙ sym (tally-Perm (λ r. true) p) ∙ length-tally xs) fit.bounded;
}

-- Sorting a fit rule set makes it good.
pub sort-Good : (rules : List Rule) → Fit rules → Good (sort_rules rules)
sort-Good rules fit =
    let (p, order) = sort_rules_lem rules in
    Fit-Good (sort_rules rules) (Fit-Perm (sort_rules rules) rules p fit) order
