-- ===== src/Rules/Store/Sections/Back.antt =====
-- What the section of a rollback, and the detachment at shutdown, do to the heap and the view.
use shinken_sentinel.Prelude.{
  ℕ, ◌+◌, ◌≡◌, refl, sym, ◌∙◌, ap, subst, List, Option, none, some, true, arith,
}
use shinken_sentinel.Rules.Rate.{u64}
use shinken_sentinel.Rules.Snapshot.{Snapshot}
use shinken_sentinel.Rules.Store.{
  Heap, Store, writable, install, rate_reset_removed, back_cells, back_at, swap_back, detach,
}
use shinken_sentinel.Rules.Store.View.{shown, rolled_back}
use shinken_sentinel.Rules.Store.Safe.{Good, Live, OnSlot, Safe}
use shinken_sentinel.Rules.Store.Sections.Swap.{Live-eq, Safe-slots, NoSlot, retire_slot_lem}
use shinken_sentinel.Rules.Store.Sections.Publish.{
  Safe-aside, PublishKeeps, Live-ne_fresh, Live-grown, Safe-installed, installed, shown-fresh,
  some_injective, content_of,
}

abbrev pub BackKeeps : List ℕ → Store → Snapshot → Snapshot → ℕ → Type 0
BackKeeps held s old slot r =
    PublishKeeps held s (rolled_back (content_of old) (content_of slot)) (swap_back r s)

module _ (held : List ℕ) (s : Store) (c r : ℕ) (old slot : Snapshot) (safe : Safe held s)
    (w : writable s ≡ true) (at : s.current ≡ some c) (at' : s.rollback ≡ some r)
    (e : s.cells c ≡ some old) (e' : s.cells r ≡ some slot) (good : Good slot.rules) where
  back_step : swap_back r s ≡ back_cells c r (some old) (some slot) s
  unfolding swap_back back_at
  back_step = rw w (
      ap (λ o. back_at o r s) at
      ∙ ap (λ v. back_cells c r v (s.cells r) s) e
      ∙ ap (λ v. back_cells c r (some old) v s) e')

  -- The section of `SkRuleStoreRollback` while the store may be written: the heap stays safe and the
  -- view is the one rolled back.
  pub swap_back_lem : BackKeeps held s old slot r
  unfolding back_cells install installed shown
  swap_back_lem =
      let version = u64 (old.version + 1) in
      let policy = slot.default_policy in
      let live : Live s.cells c = subst (OnSlot (Live s.cells)) at safe.current_live in
      let live' : Live s.cells r = subst (OnSlot (Live s.cells)) at' safe.rollback_live in
      let before = installed held s safe slot.rules good version policy none in
      let new_c = Live-ne_fresh held s safe slot.rules good version policy c live in
      let new_r = Live-ne_fresh held s safe slot.rules good version policy r live' in
      let (cells1, retire1, same1, safe1, others1) =
        retire_slot_lem held before (some c)
          (Safe-installed held s safe slot.rules good version policy none tt)
          (Live-grown held s safe slot.rules good version policy c live)
          (λ p k. (
            (λ q h eq. new_c (some_injective c p k ∙ sym eq ∙ sym (some_injective s.fresh q h))),
            (λ q h eq. absurd (ground arith)),
          )) in
      let step1 : Store = record before { cells = cells1; retire = retire1 } in
      let r_stays : cells1 r ≡ before.cells r =
        others1 r (λ q h eq. safe.apart c r at at' (some_injective c q h ∙ eq)) in
      let (cells2, retire2, same2, safe2, others2) =
        retire_slot_lem held step1 (some r) safe1
          (Live-eq before.cells cells1 r r_stays
            (Live-grown held s safe slot.rules good version policy r live'))
          (λ p k. (
            (λ q h eq. new_r (some_injective r p k ∙ sym eq ∙ sym (some_injective s.fresh q h))),
            (λ q h eq. absurd (ground arith)),
          )) in
      let table = rate_reset_removed old.rules slot.rules s.table in
      (
        record before { cells = cells2; retire = retire2; table = table },
        back_step ∙ rw (same1, same2) refl,
        record {
          safe =
              Safe-aside held (record before { cells = cells2; retire = retire2 }) table s.runtime
                safe2;
          shows =
              ap (λ n. record { now = n; previous = none })
                (shown-fresh held s safe slot.rules good version policy cells2 (
                  others2 s.fresh (λ q h eq. new_r (some_injective r q h ∙ eq))
                  ∙ others1 s.fresh (λ q h eq. new_c (some_injective c q h ∙ eq))));
          runtime = refl;
          inited = refl;
          closed = refl;
        },
      )

-- The detachment at shutdown leaves the heap safe and shows nothing.
abbrev pub DetachKeeps : List ℕ → Store → Type 0
DetachKeeps held s =
    (cells : Heap) × (retire : List ℕ) × (detach s
      ≡ some (record s {
        cells = cells;
        retire = retire;
        closed = true;
        current = none;
        rollback = none;
      }))
    × Safe held (record s {
      cells = cells;
      retire = retire;
      closed = true;
      current = none;
      rollback = none;
    })

pub detach_lem : (held : List ℕ) (s : Store) → Safe held s → DetachKeeps held s
unfolding detach
detach_lem held s safe =
    let bare : Store = record s { closed = true; current = none; rollback = none } in
    let safe0 : Safe held bare =
      Safe-slots held s none none true safe tt tt (λ c r h k. absurd (ground arith))
        (λ h k. absurd (ground arith)) in
    let (cells1, retire1, same1, safe1, others1) =
      retire_slot_lem held bare s.current safe0 safe.current_live
        (λ p k. ((λ q h eq. absurd (ground arith)), (λ q h eq. absurd (ground arith)))) in
    let live : OnSlot (Live cells1) s.rollback =
      slot_stays s.rollback refl cells1 others1 safe.rollback_live in
    let (cells2, retire2, same2, safe2, others2) =
      retire_slot_lem held (record bare { cells = cells1; retire = retire1 }) s.rollback safe1 live
        (λ p k. ((λ q h eq. absurd (ground arith)), (λ q h eq. absurd (ground arith)))) in
    (cells2, retire2, rw (same1, same2) refl, safe2)
  where
    slot_stays :
        (o : Option ℕ)
        → s.rollback ≡ o
        → (cells : Heap) → ((q : ℕ) → NoSlot q s.current → cells q ≡ s.cells q)
        → OnSlot (Live s.cells) o
        → OnSlot (Live cells) o
    slot_stays none k cells others live = tt
    slot_stays (some q) k cells others live =
        Live-eq s.cells cells q (others q (λ p h. safe.apart p q h k)) live
