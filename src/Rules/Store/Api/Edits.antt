-- ===== src/Rules/Store/Api/Edits.antt =====
-- What the edits of a rule array do: the one rule of an identifier is replaced or deleted, and the set
-- stays one that may be published.
use mathlib.Core.List.{Perm, perm_middle, append-nil}
use mathlib.Core.List.Perm
use shinken_sentinel.Prelude.{
  ℕ, ◌<◌, ◌≡◌, subst, List, [], ◌∷◌, ◌++◌, true, false, ◌==◌, arith, length, inl, inr, Bool-cases,
  ==_iff,
}
use shinken_sentinel.Status.{status_success, nt_success}
use shinken_sentinel.Rules.Types.{Rule}
use shinken_sentinel.Rules.Validate.{validate}
use shinken_sentinel.Rules.Validate.Spec.{validate_iff}
use shinken_sentinel.Rules.Order.{sort_rules}
use shinken_sentinel.Rules.Order.Sorted.{InOrder, IsFirst}
use shinken_sentinel.Rules.Store.{has_id}
use shinken_sentinel.Rules.Store.Safe.{Good, rule_max}
use shinken_sentinel.Rules.Store.Api.{edit_first, delete_first}
use shinken_sentinel.Rules.Store.Api.Plans.{Fit, Fit-Good, Good-Fit, Fit-Perm, sort-Good}

pub nt_success-validate :
    (rule : Rule) → nt_success (validate rule) ≡ true → validate rule ≡ status_success
nt_success-validate rule h = elim (validate_iff rule).1 [
  | inl fine ↦ fine
  | inr bad ↦ absurd (ground arith)
]

-- The array with a new rule.
pub snoc-Perm : (rule : Rule) (xs : List Rule) → Perm (xs ++ rule ∷ []) (rule ∷ xs)
snoc-Perm rule xs =
    subst (λ l. Perm (xs ++ rule ∷ []) (rule ∷ l)) (append-nil xs) (perm_middle xs [])

pub add-Good :
    (rule : Rule) (xs : List Rule)
    → Fit xs
    → nt_success (validate rule) ≡ true
    → has_id rule.rule_id xs ≡ false
    → length xs < rule_max
    → Good (sort_rules (xs ++ rule ∷ []))
add-Good rule xs fit v new room = sort-Good (xs ++ rule ∷ []) (
    Fit-Perm (xs ++ rule ∷ []) (rule ∷ xs) (snoc-Perm rule xs) (record {
      valid = (nt_success-validate rule v, fit.valid);
      distinct = (new, fit.distinct);
      bounded = omega (arith, fit.bounded);
    }))

-- Deleting takes one rule of that identifier away.
pub delete_first-Perm :
    (id : ℕ) (xs : List Rule)
    → has_id id xs ≡ true
    → (r : Rule) × (r.rule_id ≡ id) × Perm xs (r ∷ delete_first id xs)
unfolding has_id delete_first
delete_first-Perm id [] h = absurd (ground arith)
delete_first-Perm id (x ∷ xs) h = elim (Bool-cases (x.rule_id == id)) [
  | inl own ↦ (x, (==_iff _ _).0 own, rw own (Perm.refl (x ∷ xs)))
  | inr other ↦
      let (r, same, p) = delete_first-Perm id xs (ground arith) in
      (r, same, rw other (Perm.trans (Perm.cons x p) (Perm.swap r x (delete_first id xs))))
]

-- Replacing puts the new rule where that one was.
pub edit_first-Perm :
    (rule : Rule) (id : ℕ) (xs : List Rule)
    → has_id id xs ≡ true
    → Perm (edit_first (λ r. rule) id xs) (rule ∷ delete_first id xs)
unfolding has_id delete_first edit_first
edit_first-Perm rule id [] h = absurd (ground arith)
edit_first-Perm rule id (x ∷ xs) h = elim (Bool-cases (x.rule_id == id)) [
  | inl own ↦ rw own (Perm.refl (rule ∷ xs))
  | inr other ↦
      let p = edit_first-Perm rule id xs (ground arith) in
      rw other (Perm.trans (Perm.cons x p) (Perm.swap rule x (delete_first id xs)))
]

Fit-tail : (r : Rule) (xs : List Rule) → Fit (r ∷ xs) → Fit xs
Fit-tail r xs fit = record {
  valid = fit.valid.1;
  distinct = fit.distinct.1;
  bounded = omega (arith, fit.bounded);
}

pub update-Good :
    (rule : Rule) (xs : List Rule)
    → Fit xs
    → nt_success (validate rule) ≡ true
    → has_id rule.rule_id xs ≡ true
    → Good (sort_rules (edit_first (λ r. rule) rule.rule_id xs))
update-Good rule xs fit v known =
    let id = rule.rule_id in
    let rest = delete_first id xs in
    let (r, same, p) = delete_first-Perm id xs known in
    let fit' : Fit (r ∷ rest) = Fit-Perm (r ∷ rest) xs (Perm.symm p) fit in
    sort-Good (edit_first (λ r. rule) id xs) (
      Fit-Perm (edit_first (λ r. rule) id xs) (rule ∷ rest) (edit_first-Perm rule id xs known)
        (record {
          valid = (nt_success-validate rule v, fit'.valid.1);
          distinct = (subst (λ i. has_id i rest ≡ false) same fit'.distinct.0, fit'.distinct.1);
          bounded = fit'.bounded;
        }))

IsFirst-delete_first :
    (a : Rule) (id : ℕ) (xs : List Rule) → IsFirst a xs → IsFirst a (delete_first id xs)
unfolding delete_first
IsFirst-delete_first a id [] h = tt
IsFirst-delete_first a id (x ∷ xs) h = elim (Bool-cases (x.rule_id == id)) [
  | inl own ↦ rw own h.1
  | inr other ↦ rw other (h.0, IsFirst-delete_first a id xs h.1)
]

InOrder-delete_first : (id : ℕ) (xs : List Rule) → InOrder xs → InOrder (delete_first id xs)
unfolding delete_first
InOrder-delete_first id [] h = tt
InOrder-delete_first id (x ∷ xs) h = elim (Bool-cases (x.rule_id == id)) [
  | inl own ↦ rw own h.1
  | inr other ↦ rw other (IsFirst-delete_first x id xs h.0, InOrder-delete_first id xs h.1)
]

pub delete-Good :
    (id : ℕ) (xs : List Rule) → Good xs → has_id id xs ≡ true → Good (delete_first id xs)
delete-Good id xs good known =
    let (r, same, p) = delete_first-Perm id xs known in
    Fit-Good (delete_first id xs)
      (Fit-tail r (delete_first id xs)
        (Fit-Perm (r ∷ delete_first id xs) xs (Perm.symm p) (Good-Fit xs good)))
      (InOrder-delete_first id xs good.in_order)

pub delete_first-one :
    (id : ℕ) (xs : List Rule) → has_id id xs ≡ true → length xs ≡ 1 → delete_first id xs ≡ []
unfolding has_id delete_first
delete_first-one id [] h k = absurd (ground arith)
delete_first-one id (x ∷ []) h k = ground arith
delete_first-one id (x ∷ y ∷ xs) h k = absurd (omega arith)
