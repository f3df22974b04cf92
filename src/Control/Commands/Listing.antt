-- ===== src/Control/Commands/Listing.antt =====
-- What the two passes of SkCmdEnumRules answer, also where the rules change between them and before the
-- version is read.
use shinken_sentinel.Prelude.{
  ℕ, ◌+◌, ◌-◌, ◌*◌, ◌%◌, ◌^◌, ◌≤◌, ◌<◌, ◌≡◌, refl, ap, ap₂, ◌∙◌, List, [], ◌∷◌, ◌++◌, some, true,
  false, ltb, arith, length, inl, inr, Bool-cases,
}
use mathlib.Core.List.{append_assoc, append-nil}
use shinken_sentinel.Status.{status_buffer_too_small}
use shinken_sentinel.Rules.Types.{Rule}
use shinken_sentinel.Rules.Store.{Store}
use shinken_sentinel.Rules.Store.View.{Content, view}
use shinken_sentinel.Rules.Store.Api.{visit}
use shinken_sentinel.Rules.Store.Api.Queries.{queries_lem}
use shinken_sentinel.Control.Wire.{wire_bytes}
use shinken_sentinel.Control.Commands.{
  Call, Fill, rule_list, plain, answered, lacks_room, count_rule, fill_rule, list_bytes,
  fill_answer, cmd_enum_rules,
}
use shinken_sentinel.Control.Commands.Laws.{room-le}

pub visit-count :
    (rules : List Rule) (n : ℕ)
    → n + length rules < 2 ^ 32
    → visit count_rule rules n ≡ n + length rules
unfolding visit count_rule
visit-count [] n h = omega arith
visit-count (r ∷ rules) n h = visit-count rules ((n + 1) % 2 ^ 32) (omega arith) ∙ omega arith

-- The context after one more wire.
unfoldable filled : Rule → Fill → Fill
filled r f = record f {
  wires = f.wires ++ r ∷ [];
  remaining = f.remaining - wire_bytes;
  count = f.count + 1;
}

fill_room : (r : Rule) (f : Fill) → 184 ≤ f.remaining → fill_rule r f ≡ (true, filled r f)
unfolding fill_rule filled
fill_room r f h = ground arith

fill_full :
    (r : Rule) (f : Fill)
    → f.remaining < 184
    → fill_rule r f ≡ (false, record f { overflow = true })
unfolding fill_rule
fill_full r f h = ground arith

visit_on :
    (r : Rule) (rules : List Rule) (f : Fill)
    → 184 ≤ f.remaining
    → visit fill_rule (r ∷ rules) f ≡ visit fill_rule rules (filled r f)
unfolding visit
visit_on r rules f h = rw (fill_room r f h) refl

visit_off :
    (r : Rule) (rules : List Rule) (f : Fill)
    → f.remaining < 184
    → visit fill_rule (r ∷ rules) f ≡ record f { overflow = true }
unfolding visit
visit_off r rules f h = rw (fill_full r f h) refl

unfoldable listed : List Rule → Fill → Fill
listed rules f = record f {
  wires = f.wires ++ rules;
  remaining = f.remaining - 184 * length rules;
  count = f.count + length rules;
}

listed_step :
    (r : Rule) (rules : List Rule) (f : Fill) → listed rules (filled r f) ≡ listed (r ∷ rules) f
unfolding listed filled
listed_step r rules f = ground (arith, append_assoc f.wires (r ∷ []) rules)

visit-fill :
    (rules : List Rule) (f : Fill)
    → 184 * length rules ≤ f.remaining
    → visit fill_rule rules f ≡ listed rules f
unfolding filled
visit-fill [] f h = unfold visit listed in ground (arith, append-nil f.wires)
visit-fill (r ∷ rules) f h =
    visit_on r rules f (omega arith)
    ∙ visit-fill rules (filled r f) (omega arith)
    ∙ listed_step r rules f

visit-overflow :
    (rules : List Rule) (f : Fill)
    → f.remaining < 184 * length rules
    → (visit fill_rule rules f).overflow ≡ true
unfolding filled
visit-overflow [] f h = absurd (omega arith)
visit-overflow (r ∷ rules) f h = elim (Bool-cases (ltb f.remaining 184)) [
  | inl full ↦ ap (λ g. g.overflow) (visit_off r rules f (ground arith))
  | inr room ↦
      ap (λ g. g.overflow) (visit_on r rules f (ground arith))
      ∙ visit-overflow rules (filled r f) (ground arith)
]

abbrev start : Call → Fill
start c = record { wires = []; remaining = c.out_len - 24 - 16; count = 0; overflow = false }

listed_bytes : (n : ℕ) → n ≤ 4096 → list_bytes n ≡ 40 + 184 * n
unfolding list_bytes
listed_bytes n h = omega arith

full_answer :
    (c : Call) (now : Content) (version : ℕ)
    → length now.rules ≤ 4096
    → fill_answer c (listed now.rules (start c)) version
      ≡ answered c (40 + 184 * length now.rules) (rule_list (length now.rules) version now.rules)
unfolding fill_answer listed
full_answer c now version few =
    ap₂ (λ n k. answered c n (rule_list k version now.rules))
      (listed_bytes (0 + length now.rules) (omega arith) ∙ omega arith) (omega arith)

fits_answer :
    (c : Call) (now : Content) (version : ℕ)
    → length now.rules ≤ 4096
    → 40 + 184 * length now.rules ≤ c.out_len
    → fill_answer c (visit fill_rule now.rules (start c)) version
      ≡ answered c (40 + 184 * length now.rules) (rule_list (length now.rules) version now.rules)
fits_answer c now version few le =
    ap (λ f. fill_answer c f version) (visit-fill now.rules (start c) (omega arith))
    ∙ full_answer c now version few

over_answer :
    (c : Call) (now : Content) (version : ℕ)
    → 40 ≤ c.out_len
    → c.out_len < 40 + 184 * length now.rules
    → fill_answer c (visit fill_rule now.rules (start c)) version ≡ plain status_buffer_too_small 0
unfolding fill_answer
over_answer c now version le over = rw (visit-overflow now.rules (start c) (omega arith)) refl

-- `SkCmdEnumRules` where the first pass sees one content, the second pass another, of at most 4096 rules
-- each, and the version is read from a third: too small a buffer for the first is refused with the bytes
-- it takes; else the rules of the second are answered in their order, with their number and bytes and with
-- the version of the third, where they fit, and where they do not the request is refused with no bytes
-- reported.
pub cmd_enum_rules_lem :
    (c : Call) (s1 s2 s3 : Store) (old now later : Content)
    → (s1.inited ≡ true) × ((view s1).now ≡ some old) × (length old.rules ≤ 4096)
    → (s2.inited ≡ true) × ((view s2).now ≡ some now) × (length now.rules ≤ 4096)
    → (s3.inited ≡ true) × ((view s3).now ≡ some later)
    → (lacks_room c (40 + 184 * length old.rules) ≡ true
        → cmd_enum_rules c s1 s2 s3
          ≡ some (plain status_buffer_too_small (40 + 184 * length old.rules)))
      × (lacks_room c (40 + 184 * length old.rules) ≡ false
          → 40 + 184 * length now.rules ≤ c.out_len
          → cmd_enum_rules c s1 s2 s3
            ≡ some (
                answered c
                  (40 + 184 * length now.rules)
                  (rule_list (length now.rules) later.version now.rules)))
      × (lacks_room c (40 + 184 * length old.rules) ≡ false
          → c.out_len < 40 + 184 * length now.rules
          → cmd_enum_rules c s1 s2 s3 ≡ some (plain status_buffer_too_small 0))
unfolding cmd_enum_rules
cmd_enum_rules_lem c s1 s2 s3 old now later (on1, at1, few1) (on2, at2, few2) (on3, at3) =
    let q1 = queries_lem count_rule 0 s1 old 0 on1 at1 in
    let q2 = queries_lem fill_rule (start c) s2 now 0 on2 at2 in
    let q3 = queries_lem count_rule 0 s3 later 0 on3 at3 in
    let counted : visit count_rule old.rules 0 ≡ length old.rules =
      visit-count old.rules 0 (omega arith) ∙ omega arith in
    let size : list_bytes (length old.rules) ≡ 40 + 184 * length old.rules =
      listed_bytes (length old.rules) few1 in
    (
      (λ small. rw (q1.3, counted, size, small) refl),
      (λ room fits.
          rw (q1.3, counted, size, room, q2.3, q3.0)
            (ap some (fits_answer c now later.version few2 fits))),
      (λ room over.
          rw (q1.3, counted, size, room, q2.3, q3.0)
            (ap some (over_answer c now later.version (omega (arith, room-le c _ room)) over))),
    )
