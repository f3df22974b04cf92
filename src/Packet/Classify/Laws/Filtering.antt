-- ===== src/Packet/Classify/Laws/Filtering.antt =====
-- What is written for the filter engine: the rule that decides, the write right, and the records.
use shinken_sentinel.Prelude.{
  ℕ, ◌-◌, ◌^◌, ◌≤◌, ◌<◌, ◌≡◌, ◌≢◌, ◌⊎◌, refl, sym, ap, ◌∙◌, subst, List, Option, none, some, true,
  false, ltb, ◌==◌, arith, tests, inl, inr, Bool-cases,
}
use shinken_sentinel.Prelude.Bits.{bit_and_cleared}
use shinken_sentinel.Rules.Types.{
  Verdict, VerdictAction, permit, block, audit, has, action_block, action_audit, action_rate_limit,
  Rule,
}
use shinken_sentinel.Rules.Types
use shinken_sentinel.Rules.Snapshot.{Snapshot, policy_block}
use shinken_sentinel.Rules.Order.Sorted.{InOrder}
use shinken_sentinel.Rules.Engine.{Engine, Clock, evaluate}
use shinken_sentinel.Rules.Engine.Spec.{
  NoneMatches, Decides, rate_answer, evaluate_verdict, evaluate_unavailable,
}
use shinken_sentinel.Rules.Store.{Store}
use shinken_sentinel.Rules.Store.Binds.{>>=-eq-some, some-cancel}
use shinken_sentinel.Rules.Store.Safe.{Safe, Live, OnSlot}
use shinken_sentinel.Packet.Classify.Tuple.{Incoming, Meta, build_tuple}
use shinken_sentinel.Packet.Classify.{
  ActionType, ClassifyOut, right_action_write, Sensor, write_action, is_block, hard_block_allowed,
  write_verdict, engine_of, verdict_on, apply_verdict, inject_is_self, ale_common,
}
use shinken_sentinel.Packet.Classify.Laws.{
  Unavailable, seen, Acquired, acquired, Judged, Judged-without, Judged-with,
}

-- The write right is gone behind a write.
pub write_action_final :
    (action : ActionType) (out : ClassifyOut)
    → has (write_action action out).rights right_action_write ≡ false
unfolding write_action has
write_action_final action out =
    let gone = bit_and_cleared out.rights (2 ^ 32 - 1 - right_action_write) (omega arith) in
    rw gone refl

write_block :
    (layer : ℕ) (v : Verdict) (out : ClassifyOut)
    → has out.rights right_action_write ≡ true
    → layer < 4
    → v.action ≡ block
    → write_verdict layer v (some out) ≡ some (write_action ActionType.action_block out)
unfolding write_verdict hard_block_allowed
write_block layer v out right low e =
    let hard : ltb layer 4 ≡ true = ground arith in rw (right, ap is_block e, hard) refl

write_permit :
    (layer : ℕ) (v : Verdict) (out : ClassifyOut)
    → has out.rights right_action_write ≡ true
    → is_block v.action ≡ false
    → write_verdict layer v (some out) ≡ some (write_action ActionType.action_permit out)
unfolding write_verdict
write_permit layer v out right e = rw (right, e) refl

write_none :
    (layer : ℕ) (v : Verdict) (out : ClassifyOut)
    → has out.rights right_action_write ≡ false
    → write_verdict layer v (some out) ≡ some out
unfolding write_verdict
write_none layer v out no_right = rw no_right refl

-- What a verdict over the rules of `snap` writes.
pub Decision : Clock → Types.Tuple → Snapshot → Engine → ActionType → Type 0
Decision clock tuple snap e action =
    (NoneMatches tuple snap.rules
      × (snap.default_policy ≡ policy_block → action ≡ ActionType.action_block)
      × (snap.default_policy ≢ policy_block → action ≡ ActionType.action_permit))
    ⊎ ((rule : Rule) × Decides tuple snap.rules rule
        × (rule.action ≡ action_block → action ≡ ActionType.action_block)
        × (rule.action ≡ action_rate_limit
            → rate_answer clock rule e ≡ false
            → action ≡ ActionType.action_block)
        × (rule.action ≡ action_rate_limit
            → rate_answer clock rule e ≡ true
            → action ≡ ActionType.action_permit)
        × (rule.action ≢ action_block
            → rule.action ≢ action_rate_limit
            → action ≡ ActionType.action_permit))

-- The action that the ALE layers write for a verdict.
abbrev action_for : VerdictAction → ActionType
action_for block = ActionType.action_block
action_for permit = ActionType.action_permit
action_for audit = ActionType.action_permit

write_for :
    (layer : ℕ) (v : Verdict) (out : ClassifyOut)
    → has out.rights right_action_write ≡ true
    → layer < 4
    → (a : VerdictAction) → v.action ≡ a
    → write_verdict layer v (some out) ≡ some (write_action (action_for a) out)
write_for layer v out right low block e = write_block layer v out right low e
write_for layer v out right low permit e = write_permit layer v out right (ap is_block e)
write_for layer v out right low audit e = write_permit layer v out right (ap is_block e)

evaluate_decision :
    (clock : Clock) (snap : Snapshot) (tuple : Types.Tuple) (e : Engine)
    → InOrder snap.rules
    → Decision clock tuple snap e (action_for (evaluate clock (some snap) tuple e).0.action)
unfolding Decision
evaluate_decision clock snap tuple e order = elim (evaluate_verdict clock snap tuple e order) [
  | inl (miss, d) ↦
      inl (miss, (λ h. ap action_for (d.blocks h).0), (λ h. ap action_for (d.permits h).0))
  | inr (rule, best, v) ↦ inr (
    rule,
    best,
    (λ h. ap action_for (v.blocks h).0),
    (λ h k. ap action_for (v.over_rate h k).0),
    (λ h k. ap action_for (v.within_rate h k).0),
    (λ h k. elim (Bool-cases (rule.action == action_audit)) [
      | inl yes_ ↦ ap action_for (v.audits (ground arith)).0
      | inr no_ ↦ ap action_for (v.permits h (ground arith) k).0
    ]),
  )
]

-- The theorem's conclusion, for a tuple: what is written, and that the heap stays safe.
pub Callback :
    List ℕ
    → Clock
    → Types.Tuple
    → ClassifyOut
    → Sensor
    → Option (Option ClassifyOut × Sensor)
    → Type 0
Callback held clock tuple out s result =
    (a : ActionType) × (s' : Sensor) × (result ≡ some (some (write_action a out), s'))
    × Safe held s'.store
    × ((Unavailable s.store × (a ≡ ActionType.action_permit))
        ⊎ ((p : ℕ) × (snap : Snapshot) × (s.store.current ≡ some p)
            × (s.store.cells p ≡ some snap)
            × Decision clock tuple snap (engine_of s s.store) a))

current-InOrder :
    (held : List ℕ) (s : Store) (p : ℕ) (snap : Snapshot)
    → Safe held s
    → s.current ≡ some p
    → s.cells p ≡ some snap
    → InOrder snap.rules
unfolding Live
current-InOrder held s p snap safe here e =
    let (other, e', _, good) = subst (OnSlot (Live s.cells)) here safe.current_live in
    let same : other ≡ snap = ground arith in subst (λ x. InOrder x.rules) same good.in_order

seen-Decision :
    (clock : Clock) (tuple : Types.Tuple) (snap : Snapshot) (e : Engine) (a : ActionType)
    → Decision clock tuple (seen snap) e a
    → Decision clock tuple snap e a
unfolding Decision
seen-Decision clock tuple snap e a d = d

apply_verdict_lem :
    (held : List ℕ) (clock : Clock) (layer : ℕ) (tuple : Types.Tuple) (out : ClassifyOut)
    (s : Sensor)
    → Safe held s.store
    → has out.rights right_action_write ≡ true
    → layer < 4
    → Callback held clock tuple out s (apply_verdict clock layer (some tuple) (some out) s)
unfolding Callback apply_verdict Judged
apply_verdict_lem held clock layer tuple out s safe right low = elim (acquired held s.store safe) [
  | Acquired.nothing e gone ↦
      let (s', run, safe', _) = Judged-without held clock tuple s safe e in
      let open_ = evaluate_unavailable clock tuple (engine_of s s.store) in
      (
        ActionType.action_permit,
        s',
        rw
            (
              run,
              write_for layer (evaluate clock none tuple (engine_of s s.store)).0 out right low
                  permit open_.0,
            )
            refl,
        safe',
        inl (gone, refl),
      )
  | Acquired.current p snap here e got ↦
      let (s', run, safe', _) = Judged-with held clock tuple s p snap safe got in
      let v = (evaluate clock (some (seen snap)) tuple (engine_of s s.store)).0 in
      (
        action_for v.action,
        s',
        rw (run, write_for layer v out right low v.action refl) refl,
        safe',
        inr (
          p,
          snap,
          here,
          e,
          seen-Decision clock tuple snap (engine_of s s.store) _ (
              evaluate_decision clock (seen snap) tuple (engine_of s s.store)
                (current-InOrder held s.store p snap safe here e)),
        ),
      )
]

-- On an ALE layer, where the callback holds the write right and the packet is not one of the driver's own:
-- it touches no freed snapshot and leaves the heap safe for the same holders, and it writes an action and
-- gives the write right up. The action is that of the current rule set: of the matching rule that no matching
-- rule precedes, as a block, by the token bucket for a limited rate, else a permit; and of the default policy
-- where no rule matches. Where no reader gets a snapshot the action is a permit.
pub ale_common_lem :
    (held : List ℕ) (clock : Clock) (now layer : ℕ) (values : Option Incoming) (meta : Option Meta)
    (context : ℕ) (out : ClassifyOut) (s : Sensor)
    → Safe held s.store
    → inject_is_self context ≡ false
    → has out.rights right_action_write ≡ true
    → layer < 4
    → Callback held clock
        (build_tuple now layer values meta)
        out
        s
        (ale_common clock now layer values meta context (some out) s)
unfolding ale_common
ale_common_lem held clock now layer values meta context out s safe other right low =
    rw other
      (apply_verdict_lem held clock layer (build_tuple now layer values meta) out s safe right low)

high_layer :
    (layer : ℕ) (v : Verdict) (out : ClassifyOut)
    → has out.rights right_action_write ≡ true
    → 4 ≤ layer
    → write_verdict layer v (some out) ≡ some (write_action ActionType.action_permit out)
unfolding write_verdict hard_block_allowed
high_layer layer v out right high = ground (arith, right, high)

-- What a layer is to write for a verdict: a block only on a layer that has hard blocks.
pub record Written (layer : ℕ) (verdict : VerdictAction) (written : ActionType) : Type 0 where
  pub blocked : layer < 4 → verdict ≡ block → written ≡ ActionType.action_block
  pub passed : layer < 4 → verdict ≢ block → written ≡ ActionType.action_permit
  pub soft : 4 ≤ layer → written ≡ ActionType.action_permit

passed_for : (a : VerdictAction) → a ≢ block → action_for a ≡ ActionType.action_permit
passed_for block h = absurd (h refl)
passed_for permit h = refl
passed_for audit h = refl

written_with_right :
    (layer : ℕ) (v : Verdict) (out : ClassifyOut)
    → has out.rights right_action_write ≡ true
    → (out' : ClassifyOut) × (write_verdict layer v (some out) ≡ some out')
      × (has out'.rights right_action_write ≡ false)
      × Written layer v.action out'.action_type
unfolding write_action
written_with_right layer v out right = elim (Bool-cases (ltb layer 4)) [
  | inl low ↦ (
    write_action (action_for v.action) out,
    write_for layer v out right (omega tests) v.action refl,
    write_action_final (action_for v.action) out,
    record {
      blocked = λ h e. ap action_for e;
      passed = λ h other. passed_for v.action other;
      soft = λ h. absurd (ground arith);
    },
  )
  | inr high ↦ (
    write_action ActionType.action_permit out,
    high_layer layer v out right (ground arith),
    write_action_final ActionType.action_permit out,
    record { blocked = λ h e. absurd (ground arith); passed = λ h other. refl; soft = λ h. refl },
  )
]

-- `SkClassifyApplyVerdict` on every layer: what is written depends on the write right of the caller, and what
-- is evaluated, counted and recorded does not. Without the right nothing is written. With it the right is
-- given up and the action is written that the verdict of the evaluation asks for: on the layers below 4 a
-- block for a block and a permit for the other verdicts, and on the others, which have no hard blocks, a
-- permit. Another caller's output in the same place, or none, leaves the same sensor.
pub rights_gate :
    (clock : Clock) (layer : ℕ) (tuple : Types.Tuple) (out : ClassifyOut) (o : Option ClassifyOut)
    (s s' : Sensor)
    → apply_verdict clock layer (some tuple) (some out) s ≡ some (o, s')
    → (v : Verdict) × (verdict_on clock tuple s ≡ some (v, s'))
      × (has out.rights right_action_write ≡ false → o ≡ some out)
      × (has out.rights right_action_write ≡ true
          → (out' : ClassifyOut) × (o ≡ some out')
            × (has out'.rights right_action_write ≡ false)
            × Written layer v.action out'.action_type)
      × ((other : Option ClassifyOut)
          → (o' : Option ClassifyOut) × (apply_verdict clock layer (some tuple) other s
              ≡ some (o', s')))
unfolding apply_verdict
rights_gate clock layer tuple out o s s' run =
    let (r, judged, end) =
      >>=-eq-some (verdict_on clock tuple s) (λ r. some (write_verdict layer r.0 (some out), r.1))
        run in
    let written : write_verdict layer r.0 (some out) ≡ o = ap (λ x. x.0) (some-cancel end) in
    let sensor : r.1 ≡ s' = ap (λ x. x.1) (some-cancel end) in
    (
      r.0,
      judged ∙ ap (λ x. some (r.0, x)) sensor,
      (λ no_right. sym written ∙ write_none layer r.0 out no_right),
      (λ right.
          let (out', e, gone, right_action) = written_with_right layer r.0 out right in
          (out', sym written ∙ e, gone, right_action)),
      (λ other. (
        write_verdict layer r.0 other,
        rw judged (ap (λ x. some (write_verdict layer r.0 other, x)) sensor),
      )),
    )
