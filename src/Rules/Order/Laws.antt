-- ===== src/Rules/Order/Laws.antt =====
-- `SkRulePrecedes` is a strict order, total on rules with different identifiers.
use shinken_sentinel.Prelude.{◌≡◌, ◌≢◌, ◌⊎◌, true, false, arith}
use shinken_sentinel.Rules.Types.{Rule}
use shinken_sentinel.Rules.Order.{precedes}

pub precedes_asymm : (a b : Rule) → precedes a b ≡ true → precedes b a ≡ false
unfolding precedes
precedes_asymm a b h = ground arith

pub not-precedes_trans :
    (a b c : Rule) → precedes a b ≡ false → precedes b c ≡ false → precedes a c ≡ false
unfolding precedes
not-precedes_trans a b c h k = ground arith

precedes_total :
    (a b : Rule) → a.rule_id ≢ b.rule_id → (precedes a b ≡ true) ⊎ (precedes b a ≡ true)
unfolding precedes
precedes_total a b h = ground arith

-- `SkRulePrecedes` is a strict order of rules by priority, then strength of action, then identifier:
-- it is never both ways, its failure is transitive, and of two rules with different identifiers one
-- precedes the other.
pub precedes_order :
    (a b c : Rule)
    → (precedes a b ≡ true → precedes b a ≡ false)
      × (precedes a b ≡ false → precedes b c ≡ false → precedes a c ≡ false)
      × (a.rule_id ≢ b.rule_id → (precedes a b ≡ true) ⊎ (precedes b a ≡ true))
precedes_order a b c = (precedes_asymm a b, not-precedes_trans a b c, precedes_total a b)
