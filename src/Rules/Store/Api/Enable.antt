-- ===== src/Rules/Store/Api/Enable.antt =====
-- Switching a rule on or off, and the checks of a whole array before it replaces the rule set.
use shinken_sentinel.Prelude.{
  ℕ, suc, ◌≤◌, ◌≡◌, refl, sym, ◌∙◌, ap, subst, List, [], ◌∷◌, Bool, true, false, if◌then◌else◌,
  ◌==◌, arith, All, length, inl, inr, Bool-cases, ==_iff, map,
}
use shinken_sentinel.Status.{status_success, nt_success}
use shinken_sentinel.Rules.Types.{Rule}
use shinken_sentinel.Rules.Validate.{validate}
use shinken_sentinel.Rules.Validate.Spec.{validate_iff, WellFormed}
use shinken_sentinel.Rules.Order.{precedes}
use shinken_sentinel.Rules.Order.Sorted.{InOrder, IsFirst}
use shinken_sentinel.Rules.Store.{has_id}
use shinken_sentinel.Rules.Store.Safe.{Good, DistinctIds, rule_max}
use shinken_sentinel.Rules.Store.Api.{edit_first, with_enabled, first_invalid, has_duplicate}
use shinken_sentinel.Rules.Store.Api.Plans.{Fit}
use shinken_sentinel.Rules.Store.Api.Edits.{nt_success-validate}

WellFormed-with_enabled : (on : Bool) (r : Rule) → WellFormed r → WellFormed (with_enabled on r)
unfolding with_enabled
WellFormed-with_enabled on r w = record {
  good_action = record {
    id = w.good_action.id;
    known = w.good_action.known;
    no_if_index = w.good_action.no_if_index;
    no_sid = w.good_action.no_sid;
    enabled = flag on;
    action = w.good_action.action;
    rate = w.good_action.rate;
  };
  good_scalar = record {
    sid_length = w.good_scalar.sid_length;
    family = w.good_scalar.family;
    direction = w.good_scalar.direction;
    layer = w.good_scalar.layer;
    protocol = w.good_scalar.protocol;
  };
  good_range = record {
    local_prefix = w.good_range.local_prefix;
    remote_prefix = w.good_range.remote_prefix;
    local_port = w.good_range.local_port;
    remote_port = w.good_range.remote_port;
    time = w.good_range.time;
  };
}
  where
    flag : (b : Bool) → (if b then 1 else 0) ≤ 1
    flag true = omega arith
    flag false = omega arith

valid-with_enabled :
    (on : Bool) (r : Rule)
    → validate r ≡ status_success
    → validate (with_enabled on r) ≡ status_success
valid-with_enabled on r h =
    (validate_iff (with_enabled on r)).0.1 (WellFormed-with_enabled on r ((validate_iff r).0.0 h))

-- A switch changes neither the verdict order nor the identifier.
precedes-with_enabled : (on : Bool) (a b : Rule) → precedes (with_enabled on a) b ≡ precedes a b
unfolding precedes with_enabled
precedes-with_enabled on a b = refl

with_enabled-precedes : (on : Bool) (a b : Rule) → precedes a (with_enabled on b) ≡ precedes a b
unfolding precedes with_enabled
with_enabled-precedes on a b = refl

module _ (on : Bool) (id : ℕ) where
  IsFirst-enable :
      (a : Rule) (xs : List Rule) → IsFirst a xs → IsFirst a (edit_first (with_enabled on) id xs)
  unfolding edit_first
  IsFirst-enable a [] h = tt
  IsFirst-enable a (x ∷ xs) h = elim (Bool-cases (x.rule_id == id)) [
    | inl own ↦ rw own (precedes-with_enabled on x a ∙ h.0, h.1)
    | inr other ↦ rw other (h.0, IsFirst-enable a xs h.1)
  ]

  IsFirst-head : (x : Rule) (xs : List Rule) → IsFirst x xs → IsFirst (with_enabled on x) xs
  IsFirst-head x [] h = tt
  IsFirst-head x (y ∷ xs) h = (with_enabled-precedes on y x ∙ h.0, IsFirst-head x xs h.1)

  InOrder-enable : (xs : List Rule) → InOrder xs → InOrder (edit_first (with_enabled on) id xs)
  unfolding edit_first
  InOrder-enable [] h = tt
  InOrder-enable (x ∷ xs) h = elim (Bool-cases (x.rule_id == id)) [
    | inl own ↦ rw own (IsFirst-head x xs h.0, h.1)
    | inr other ↦ rw other (IsFirst-enable x xs h.0, InOrder-enable xs h.1)
  ]

  has_id-enable :
      (i : ℕ) (xs : List Rule) → has_id i (edit_first (with_enabled on) id xs) ≡ has_id i xs
  unfolding edit_first has_id with_enabled
  has_id-enable i [] = refl
  has_id-enable i (x ∷ xs) = elim (Bool-cases (x.rule_id == id)) [
    | inl own ↦ rw own refl
    | inr other ↦ rw (other, has_id-enable i xs) refl
  ]

  Distinct-enable :
      (xs : List Rule) → DistinctIds xs → DistinctIds (edit_first (with_enabled on) id xs)
  unfolding edit_first with_enabled
  Distinct-enable [] h = tt
  Distinct-enable (x ∷ xs) h = elim (Bool-cases (x.rule_id == id)) [
    | inl own ↦ rw own h
    | inr other ↦ rw other (has_id-enable x.rule_id xs ∙ h.0, Distinct-enable xs h.1)
  ]

  valid-enable :
      (xs : List Rule)
      → All (λ r. validate r ≡ status_success) xs
      → All (λ r. validate r ≡ status_success) (edit_first (with_enabled on) id xs)
  unfolding edit_first
  valid-enable [] h = tt
  valid-enable (x ∷ xs) h = elim (Bool-cases (x.rule_id == id)) [
    | inl own ↦ rw own (valid-with_enabled on x h.0, h.1)
    | inr other ↦ rw other (h.0, valid-enable xs h.1)
  ]

  length-enable : (xs : List Rule) → length (edit_first (with_enabled on) id xs) ≡ length xs
  unfolding edit_first
  length-enable [] = refl
  length-enable (x ∷ xs) = elim (Bool-cases (x.rule_id == id)) [
    | inl own ↦ rw own refl
    | inr other ↦ rw other (ap suc (length-enable xs))
  ]

  pub enable-Good : (xs : List Rule) → Good xs → Good (edit_first (with_enabled on) id xs)
  enable-Good xs good = record {
    in_order = InOrder-enable xs good.in_order;
    valid = valid-enable xs good.valid;
    distinct = Distinct-enable xs good.distinct;
    bounded = omega (arith, length-enable xs, good.bounded);
  }

  -- With distinct identifiers, the switch of the first rule is the switch of every rule of that
  -- identifier.
  abbrev pub switched : Rule → Rule
  switched r = if r.rule_id == id then with_enabled on r else r

  map-absent : (xs : List Rule) → has_id id xs ≡ false → map switched xs ≡ xs
  unfolding has_id
  map-absent [] h = refl
  map-absent (x ∷ xs) h = elim (Bool-cases (x.rule_id == id)) [
    | inl own ↦ absurd (ground arith)
    | inr other ↦ rw other (ap (λ l. x ∷ l) (map-absent xs (ground arith)))
  ]

  pub edit_first-map :
      (xs : List Rule) → DistinctIds xs → edit_first (with_enabled on) id xs ≡ map switched xs
  unfolding edit_first
  edit_first-map [] h = refl
  edit_first-map (x ∷ xs) h = elim (Bool-cases (x.rule_id == id)) [
    | inl own ↦
        let same : x.rule_id ≡ id = (==_iff _ _).0 own in
        rw own (
          ap (λ l. with_enabled on x ∷ l)
            (sym (map-absent xs (subst (λ i. has_id i xs ≡ false) same h.0))))
    | inr other ↦ rw other (ap (λ l. x ∷ l) (edit_first-map xs h.1))
  ]

-- The checks of `SkRuleStoreReplace` accept the arrays that are fit.
valid-first_invalid :
    (xs : List Rule)
    → nt_success (first_invalid xs) ≡ true
    → All (λ r. validate r ≡ status_success) xs
unfolding first_invalid
valid-first_invalid [] h = tt
valid-first_invalid (x ∷ xs) h = elim (Bool-cases (nt_success (validate x))) [
  | inl fine ↦ (nt_success-validate x fine, valid-first_invalid xs (ground arith))
  | inr bad ↦ absurd (ground arith)
]

distinct-has_duplicate : (xs : List Rule) → has_duplicate xs ≡ false → DistinctIds xs
unfolding has_duplicate
distinct-has_duplicate [] h = tt
distinct-has_duplicate (x ∷ xs) h = elim (Bool-cases (has_id x.rule_id xs)) [
  | inl twice ↦ absurd (ground arith)
  | inr once ↦ (once, distinct-has_duplicate xs (ground arith))
]

pub replace-Fit :
    (xs : List Rule)
    → length xs ≤ rule_max
    → nt_success (first_invalid xs) ≡ true
    → has_duplicate xs ≡ false
    → Fit xs
replace-Fit xs room v d = record {
  valid = valid-first_invalid xs v;
  distinct = distinct-has_duplicate xs d;
  bounded = room;
}
