-- ===== src/Packet/Flow/Laws/Race.antt =====
-- A failed association between a removal's pop of its context and the clearing of the link.
use shinken_sentinel.Prelude.{
  ℕ, ◌+◌, ◌-◌, ◌%◌, ◌^◌, ◌<◌, ◌≡◌, refl, Option, none, some, true, false, arith, Option-cases, inl,
  inr,
}
use shinken_sentinel.Rules.Store.Safe.{occ}
use shinken_sentinel.Rules.Store.Sections.Readers.{drop_one}
use shinken_sentinel.Telemetry.Ring.{set_at}
use shinken_sentinel.Telemetry.Ring.Laws.{set_here}
use shinken_sentinel.Packet.Flow.{
  FlowCtx, Flows, no_flows, FlowSteps, flow_release, is_in, attach_unlink, attach_failed,
  remove_clear, linked, refs,
}
use shinken_sentinel.Packet.Flow.Laws.Safety.{run-Owes}

release_first :
    (p : ℕ) (c : FlowCtx) (s : Flows)
    → c.ref ≡ 2
    → flow_release p (some c) s
      ≡ some (record s { cells = set_at p (some (record c { ref = 1 })) s.cells })
unfolding flow_release
release_first p c s two = rw two refl

release_last :
    (p : ℕ) (v : Option FlowCtx) (c : FlowCtx) (s : Flows)
    → v ≡ some c
    → c.ref ≡ 1
    → flow_release p v s ≡ some (record s { cells = set_at p none s.cells })
unfolding flow_release
release_last p v c s here one = rw (here, one) refl

-- The context as the first release leaves it, and the table.
abbrev after_unlink : ℕ → FlowCtx → Flows → Flows
after_unlink p c s = record s {
  entries = (s.entries + 2 ^ 32 - 1) % 2 ^ 32;
  cells = set_at p (some (record c { ref = 1 })) s.cells;
}

module _ (p : ℕ) (s : Flows) (c : FlowCtx) (here : s.cells p ≡ some c) (two : c.ref ≡ 2) where
  unlinked :
      is_in p s.table ≡ false
      → is_in p s.stale ≡ false
      → is_in p s.popped ≡ true
      → attach_unlink p s ≡ some (after_unlink p c s)
  unfolding attach_unlink
  unlinked off_table off_stale on_pop =
      rw (off_table, off_stale, on_pop, here) (release_first p c _ two)

-- In a state that a run reaches, a failed association of a context that a removal has popped and whose link it
-- has not cleared, where no caller has a reference and no other attach waits on it: it frees the context while the removal still has its
-- address, and the removal's next access is to freed memory.
pub popped_failure_frees :
    (p : ℕ) (s : Flows)
    → FlowSteps no_flows (some s)
    → 0 < occ p s.popped
    → occ p s.attaching ≡ 1
    → occ p s.callers ≡ 0
    → (s' : Flows) × (attach_failed p s ≡ some s')
      × (s'.cells p ≡ none)
      × (0 < occ p s'.popped)
      × (remove_clear p s' ≡ none)
unfolding attach_failed remove_clear linked refs occ
popped_failure_frees p s run h one none_ =
    let o = run-Owes run in
    elim (Option-cases (s.cells p)) [
      | inl gone ↦ absurd (omega (arith, o.freed p gone, h))
      | inr (c, here) ↦
          let only = o.one p in
          let two : c.ref ≡ 2 = omega (arith, o.exact p c here, only, h, one, none_) in
          let first =
            unlinked p s c here two (ground (arith, only, h)) (ground (arith, only, h))
              (ground (arith, h)) in
          let s1 = after_unlink p c s in
          let at = set_here p (some (record c { ref = 1 })) s.cells p refl in
          let gone = set_here p none s1.cells p refl in
          (
            record s1 { attaching = drop_one p s1.attaching; cells = set_at p none s1.cells },
            rw first (release_last p (s1.cells p) (record c { ref = 1 }) _ at refl),
            gone,
            h,
            rw gone refl,
          )
    ]
