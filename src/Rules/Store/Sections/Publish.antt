-- ===== src/Rules/Store/Sections/Publish.antt =====
-- What `SkPublish`, the section of a rollback and the detachment at shutdown do to the view.
use shinken_sentinel.Prelude.{
  ℕ, ◌+◌, ◌≡◌, ◌≢◌, refl, sym, ◌∙◌, ap, ap₂, subst, List, Option, none, some, true, arith,
}
use shinken_sentinel.Status.{NtStatus, status_success}
use shinken_sentinel.Runtime.State.{Runtime}
use shinken_sentinel.Runtime.Rundown.{rundown_init}
use shinken_sentinel.Rules.Types.{Rule}
use shinken_sentinel.Rules.Rate.{RateTable, u64}
use shinken_sentinel.Rules.Snapshot.{Snapshot, new_snapshot}
use shinken_sentinel.Rules.Store.{
  Heap, Store, writable, put, retire_drain, retire_drain_retries, install, rate_reset_removed,
  swap_cell, swap_at, swap, publish,
}
use shinken_sentinel.Rules.Store.View.{Content, content, shown, View, view, published_view}
use shinken_sentinel.Rules.Store.Safe.{Good, Live, OnSlot, Safe, put_self, put_ne}
use shinken_sentinel.Rules.Store.Sections.Drain.{retire_drain_lem}
use shinken_sentinel.Rules.Store.Sections.Swap.{Live-eq, Safe-slots, Safe-grown, retire_slot_lem}

-- The table and the runtime are not part of the heap.
pub Safe-aside :
    (held : List ℕ) (s : Store) (table : RateTable) (runtime : Runtime)
    → Safe held s
    → Safe held (record s { table = table; runtime = runtime })
Safe-aside held s table runtime safe = record {
  counted = safe.counted;
  kept = safe.kept;
  current_live = safe.current_live;
  rollback_live = safe.rollback_live;
  apart = safe.apart;
  waiting = safe.waiting;
  once = safe.once;
  unused = safe.unused;
  published = safe.published;
}

-- What a section that publishes leaves.
pub record Published (held : List ℕ) (s s' : Store) (seen : View) : Type 0 where
  pub safe : Safe held s'
  pub shows : view s' ≡ seen
  pub runtime : s'.runtime ≡ s.runtime
  pub inited : s'.inited ≡ s.inited
  pub closed : s'.closed ≡ s.closed

abbrev pub PublishKeeps : List ℕ → Store → View → Option (NtStatus × Store) → Type 0
PublishKeeps held s seen result =
    (s' : Store) × (result ≡ some (status_success, s')) × Published held s s' seen

module _ (held : List ℕ) (s : Store) (safe : Safe held s) (rules : List Rule) (good : Good rules)
    (version policy : ℕ) where
  abbrev fresh_snapshot : Snapshot
  fresh_snapshot = new_snapshot rules version policy

  Safe-fresh :
      Safe held
        (record s { cells = put s.fresh (some fresh_snapshot) s.cells; fresh = s.fresh + 1 })
  unfolding new_snapshot rundown_init
  Safe-fresh = Safe-grown held s fresh_snapshot safe refl

  Live-fresh : Live (put s.fresh (some fresh_snapshot) s.cells) s.fresh
  unfolding Live new_snapshot rundown_init
  Live-fresh = (fresh_snapshot, put_self s.fresh (some fresh_snapshot) s.cells, omega arith, good)

  -- A live snapshot is not at the fresh address.
  pub Live-ne_fresh : (q : ℕ) → Live s.cells q → q ≢ s.fresh
  unfolding Live
  Live-ne_fresh q (snap, e, low, g) same =
      let gone : s.cells q ≡ none = safe.unused q (omega arith) in absurd (ground arith)

  -- Every live snapshot is as before.
  same-fresh : (q : ℕ) → Live s.cells q → put s.fresh (some fresh_snapshot) s.cells q ≡ s.cells q
  same-fresh q live = put_ne s.fresh q (some fresh_snapshot) s.cells (Live-ne_fresh q live)

  pub Live-grown : (q : ℕ) → Live s.cells q → Live (put s.fresh (some fresh_snapshot) s.cells) q
  Live-grown q live =
      Live-eq s.cells (put s.fresh (some fresh_snapshot) s.cells) q (same-fresh q live) live

  pub slot-grown :
      (o : Option ℕ)
      → OnSlot (Live s.cells) o
      → OnSlot (Live (put s.fresh (some fresh_snapshot) s.cells)) o
  slot-grown none live = tt
  slot-grown (some q) live = Live-grown q live

  -- The new snapshot is current, and `o` stays for a rollback.
  unfoldable pub installed : Option ℕ → Store
  installed o = record (install rules version policy s) { rollback = o }

  pub Safe-installed : (o : Option ℕ) → OnSlot (Live s.cells) o → Safe held (installed o)
  unfolding install installed
  Safe-installed o live =
      Safe-slots held
        (record s { cells = put s.fresh (some fresh_snapshot) s.cells; fresh = s.fresh + 1 })
        (some s.fresh) o s.closed Safe-fresh Live-fresh (slot-grown o live)
        (λ c r h k. apart c r h k) (λ h k. (s.fresh, refl))
    where
      apart : (c r : ℕ) → some s.fresh ≡ some c → o ≡ some r → c ≢ r
      apart c r h k same =
          let at : s.fresh ≡ c = ground arith in
          Live-ne_fresh r (subst (OnSlot (Live s.cells)) k live) (sym same ∙ sym at)

  -- What is shown once the retiring snapshots are stopped.
  pub shown-fresh :
      (cells : Heap)
      → cells s.fresh ≡ put s.fresh (some fresh_snapshot) s.cells s.fresh
      → shown cells (some s.fresh)
        ≡ some (record { rules = rules; version = version; policy = policy })
  unfolding shown new_snapshot
  shown-fresh cells h = rw (h, put_self s.fresh (some fresh_snapshot) s.cells) refl

-- What a live current snapshot says.
pub Live-content :
    (cells : Heap) (p : ℕ)
    → Live cells p
    → (snap : Snapshot) × (cells p ≡ some snap) × Good snap.rules
unfolding Live
Live-content cells p (snap, e, low, good) = (snap, e, good)

pub some_injective : (p q : ℕ) → some p ≡ some q → p ≡ q
some_injective p q h = ground arith

module _ (held : List ℕ) (s : Store) (safe : Safe held s) (rules : List Rule) (good : Good rules)
    (policy c : ℕ) (at : s.current ≡ some c) where
  pub swap_cell_lem :
      (old : Snapshot)
      → s.cells c ≡ some old
      → PublishKeeps held s
          (published_view rules policy
            (record { rules = old.rules; version = old.version; policy = old.default_policy }))
          (swap_cell rules policy c (some old) s)
  unfolding swap_cell install installed shown
  swap_cell_lem old e =
      let version = u64 (old.version + 1) in
      let live : Live s.cells c = subst (OnSlot (Live s.cells)) at safe.current_live in
      let before = installed held s safe rules good version policy (some c) in
      let safe1 : Safe held before =
        Safe-installed held s safe rules good version policy (some c) live in
      let (cells, retire, same, safe2, others) =
        retire_slot_lem held before s.rollback safe1
          (slot-grown held s safe rules good version policy s.rollback safe.rollback_live)
          (λ p k. (
            (λ q h eq.
                Live-ne_fresh held s safe rules good version policy p
                  (subst (OnSlot (Live s.cells)) k safe.rollback_live)
                  (sym eq ∙ sym (some_injective s.fresh q h))),
            (λ q h eq. safe.apart c p at k (some_injective c q h ∙ eq)),
          )) in
      (
        record before {
          cells = cells;
          retire = retire;
          table = rate_reset_removed old.rules rules s.table;
        },
        rw same refl,
        record {
          safe =
              Safe-aside held (record before { cells = cells; retire = retire })
                (rate_reset_removed old.rules rules s.table) s.runtime safe2;
          shows =
              ap₂ (λ n p. record { now = n; previous = p })
                (shown-fresh held s safe rules good version policy cells (
                  others s.fresh (λ q h eq.
                    Live-ne_fresh held s safe rules good version policy q
                      (subst (OnSlot (Live s.cells)) h safe.rollback_live) eq)))
                (ap content (
                  others c (λ q h eq. safe.apart c q at h (sym eq))
                  ∙ same-fresh held s safe rules good version policy c live
                  ∙ e));
          runtime = refl;
          inited = refl;
          closed = refl;
        },
      )

pub swap_step :
    (s : Store) (rules : List Rule) (policy c : ℕ) (old : Snapshot)
    → writable s ≡ true
    → s.current ≡ some c
    → s.cells c ≡ some old
    → swap rules policy s ≡ swap_cell rules policy c (some old) s
unfolding swap swap_at
swap_step s rules policy c old w at e =
    rw w (ap (λ o. swap_at rules policy o s) at ∙ ap (λ v. swap_cell rules policy c v s) e)

publish_step :
    (s s' : Store) (rules : List Rule) (policy : ℕ)
    → retire_drain retire_drain_retries s ≡ some s'
    → publish true rules policy s ≡ swap rules policy s'
unfolding publish
publish_step s s' rules policy h = rw h refl

abbrev pub content_of : Snapshot → Content
content_of old = record { rules = old.rules; version = old.version; policy = old.default_policy }

-- `SkPublish` while the store may be written: the heap stays safe and the view is the published one.
pub publish_lem :
    (held : List ℕ) (s : Store) (rules : List Rule) (policy c : ℕ) (old : Snapshot)
    → Safe held s
    → Good rules
    → writable s ≡ true
    → s.current ≡ some c
    → s.cells c ≡ some old
    → PublishKeeps held s
        (published_view rules policy (content_of old))
        (publish true rules policy s)
unfolding writable
publish_lem held s rules policy c old safe good w at e =
    let (cells, kept, same, safe', lives) = retire_drain_lem retire_drain_retries held s safe in
    let live : Live s.cells c = subst (OnSlot (Live s.cells)) at safe.current_live in
    let drained : Store = record s { cells = cells; retire = kept } in
    let e' : cells c ≡ some old = lives c live ∙ e in
    let (s', step, p) = swap_cell_lem held drained safe' rules good policy c at old e' in
    (
      s',
      publish_step s drained rules policy same
          ∙ swap_step drained rules policy c old w at e'
          ∙ step,
      record {
        safe = p.safe;
        shows = p.shows;
        runtime = p.runtime;
        inited = p.inited;
        closed = p.closed;
      },
    )

-- A store that may be written has a current snapshot.
pub writable-current :
    (held : List ℕ) (s : Store)
    → Safe held s
    → writable s ≡ true
    → (c : ℕ) × (old : Snapshot) × (s.current ≡ some c) × (s.cells c ≡ some old) × Good old.rules
unfolding writable
writable-current held s safe w =
    let (c, at) = safe.published (ground arith) (ground arith) in
    let (old, e, good) =
      Live-content s.cells c (subst (OnSlot (Live s.cells)) at safe.current_live) in
    (c, old, at, e, good)
