-- ===== src/Rules/Store/Steps.antt =====
-- Readers and writers interleave freely: every section under `g_PublishLock` is one step, and so is
-- each atomic operation of a reader. The writers' own lock is not assumed.
use shinken_sentinel.Prelude.{
  ℕ, ◌<◌, ◌≡◌, refl, sym, ◌∙◌, ap, subst, List, [], Option, none, some, true, false, arith, inl,
  inr, Bool-cases, Option-cases,
}
use shinken_sentinel.Status.{NtStatus, status_invalid_device_state}
use shinken_sentinel.Runtime.State.{Runtime}
use shinken_sentinel.Rules.Types.{Rule}
use shinken_sentinel.Rules.Rate.{RateTable}
use shinken_sentinel.Rules.Snapshot.{Snapshot, policy_permit}
use shinken_sentinel.Rules.Store.{
  Store, store_acquire, store_release, drain_round, writable, swap, swap_back, detach, init_empty,
}
use shinken_sentinel.Rules.Store.Safe.{Good, occ, Live, OnSlot, Safe}
use shinken_sentinel.Rules.Store.Sections.Readers.{
  hold, drop_one, store_acquire_lem, store_release_lem,
}
use shinken_sentinel.Rules.Store.Sections.Drain.{drain_round_lem}
use shinken_sentinel.Rules.Store.Sections.Publish.{
  Safe-aside, Safe-installed, installed, Live-content, swap_step, swap_cell_lem, writable-current,
}
use shinken_sentinel.Rules.Store.Sections.Back.{swap_back_lem, detach_lem}

-- The holders and the store after a step.
pub data Step (held : List ℕ) (s : Store) : List ℕ → Store → Type 0 where
  acquire :
      (o : Option ℕ) (s' : Store) → store_acquire s ≡ some (o, s') → Step held s (hold o held) s'
  release :
      (p : ℕ) (s' : Store)
      → 0 < occ p held
      → store_release (some p) s ≡ some s'
      → Step held s (drop_one p held) s'
  drain : (s' : Store) → drain_round s ≡ some s' → Step held s held s'
  publish :
      (rules : List Rule) (policy : ℕ) (st : NtStatus) (s' : Store)
      → Good rules
      → swap rules policy s ≡ some (st, s')
      → Step held s held s'
  rollback :
      (r : ℕ) (st : NtStatus) (s' : Store)
      → s.rollback ≡ some r
      → swap_back r s ≡ some (st, s')
      → Step held s held s'
  detach_all : (s' : Store) → detach s ≡ some s' → Step held s held s'
  finish : s.closed ≡ true → Step held s held (record s { inited = false })
  init : s.current ≡ none → s.retire ≡ [] → Step held s held (init_empty s)
  elsewhere :
      (table : RateTable) (runtime : Runtime)
      → Step held s held (record s { table = table; runtime = runtime })

-- The store before its first initialization.
unfoldable pub blank : RateTable → Runtime → Store
blank table runtime = record {
  cells = λ p. none;
  fresh = 0;
  current = none;
  rollback = none;
  retire = [];
  inited = false;
  closed = false;
  table = table;
  runtime = runtime;
}

pub data Reach (table : RateTable) (runtime : Runtime) : List ℕ → Store → Type 0 where
  start : Reach table runtime [] (blank table runtime)
  step :
      {held held' : List ℕ} {s s' : Store}
      → Reach table runtime held s
      → Step held s held' s'
      → Reach table runtime held' s'

some_inj {ℓ} : {A : Type ℓ} {x y : A} → some x ≡ some y → x ≡ y
some_inj {x} h = ap (λ o. elim o [ none ↦ x | some a ↦ a ]) h

-- What a section of a writer promises on a safe heap.
abbrev pub Fine : List ℕ → Option (NtStatus × Store) → Type 0
Fine held result = (st : NtStatus) × (s' : Store) × (result ≡ some (st, s')) × Safe held s'

shut_swap :
    (s : Store) (rules : List Rule) (policy : ℕ)
    → writable s ≡ false
    → swap rules policy s ≡ some (status_invalid_device_state, s)
unfolding swap
shut_swap s rules policy h = rw h refl

shut_back :
    (s : Store) (r : ℕ) → writable s ≡ false → swap_back r s ≡ some (status_invalid_device_state, s)
unfolding swap_back
shut_back s r h = rw h refl

swap-Fine :
    (held : List ℕ) (s : Store) (rules : List Rule) (policy : ℕ)
    → Safe held s
    → Good rules
    → Fine held (swap rules policy s)
swap-Fine held s rules policy safe good = elim (Bool-cases (writable s)) [
  | inl w ↦
      let (c, old, at, e, _) = writable-current held s safe w in
      let (s', h, p) = swap_cell_lem held s safe rules good policy c at old e in
      (_, s', swap_step s rules policy c old w at e ∙ h, p.safe)
  | inr shut ↦ (_, s, shut_swap s rules policy shut, safe)
]

swap_back-Fine :
    (held : List ℕ) (s : Store) (r : ℕ)
    → Safe held s
    → s.rollback ≡ some r
    → Fine held (swap_back r s)
swap_back-Fine held s r safe at' = elim (Bool-cases (writable s)) [
  | inl w ↦
      let (c, old, at, e, _) = writable-current held s safe w in
      let (slot, e', good) =
        Live-content s.cells r (subst (OnSlot (Live s.cells)) at' safe.rollback_live) in
      let (s', h, p) = swap_back_lem held s c r old slot safe w at at' e e' good in
      (_, s', h, p.safe)
  | inr shut ↦ (_, s, shut_back s r shut, safe)
]

Good-none : Good []
Good-none = record { in_order = tt; valid = tt; distinct = tt; bounded = omega arith }

pub Safe-init_empty : (held : List ℕ) (s : Store) → Safe held s → Safe held (init_empty s)
unfolding init_empty installed
Safe-init_empty held s safe =
    let k = Safe-installed held s safe [] Good-none 0 policy_permit none tt in
    record {
      counted = k.counted;
      kept = k.kept;
      current_live = k.current_live;
      rollback_live = tt;
      apart = k.apart;
      waiting = tt;
      once = tt;
      unused = k.unused;
      published = λ h c. (s.fresh, refl);
    }

pub Safe-finish :
    (held : List ℕ) (s : Store) → Safe held s → Safe held (record s { inited = false })
Safe-finish held s safe = record {
  counted = safe.counted;
  kept = safe.kept;
  current_live = safe.current_live;
  rollback_live = safe.rollback_live;
  apart = safe.apart;
  waiting = safe.waiting;
  once = safe.once;
  unused = safe.unused;
  published = λ h c. absurd (ground arith);
}

Safe-blank : (table : RateTable) (runtime : Runtime) → Safe [] (blank table runtime)
unfolding blank occ
Safe-blank table runtime = record {
  counted = λ p snap h. absurd (ground arith);
  kept = λ p h. refl;
  current_live = tt;
  rollback_live = tt;
  apart = λ c r h. absurd (ground arith);
  waiting = tt;
  once = tt;
  unused = λ p h. refl;
  published = λ h c. absurd (ground arith);
}

Step-Safe :
    {held held' : List ℕ} {s s' : Store} → Step held s held' s' → Safe held s → Safe held' s'
Step-Safe {held} {s} (Step.acquire o s' h) safe =
    let (o', s1, e, k, _) = store_acquire_lem held s safe in
    subst (λ t. Safe (hold (t.0) held) (t.1)) (some_inj (sym e ∙ h)) k
Step-Safe {held} {s} (Step.release p s' holds h) safe =
    let (s1, e, k, _) = store_release_lem held s p safe holds in
    subst (Safe (drop_one p held)) (some_inj (sym e ∙ h)) k
Step-Safe {held} {s} (Step.drain s' h) safe =
    let (cells, kept, e, k, _) = drain_round_lem held s safe in
    subst (Safe held) (some_inj (sym e ∙ h)) k
Step-Safe {held} {s} (Step.publish rules policy st s' good h) safe =
    let (st1, s1, e, k) = swap-Fine held s rules policy safe good in
    subst (λ t. Safe held (t.1)) (some_inj (sym e ∙ h)) k
Step-Safe {held} {s} (Step.rollback r st s' at h) safe =
    let (st1, s1, e, k) = swap_back-Fine held s r safe at in
    subst (λ t. Safe held (t.1)) (some_inj (sym e ∙ h)) k
Step-Safe {held} {s} (Step.detach_all s' h) safe =
    let (cells, retire, e, k) = detach_lem held s safe in subst (Safe held) (some_inj (sym e ∙ h)) k
Step-Safe {held} {s} (Step.finish h) safe = Safe-finish held s safe
Step-Safe {held} {s} (Step.init h k) safe = Safe-init_empty held s safe
Step-Safe {held} {s} (Step.elsewhere table runtime) safe = Safe-aside held s table runtime safe

pub Reach-Safe :
    {table : RateTable} {runtime : Runtime} {held : List ℕ} {s : Store}
    → Reach table runtime held s
    → Safe held s
Reach-Safe {table} {runtime} Reach.start = Safe-blank table runtime
Reach-Safe (Reach.step r t) = Step-Safe t (Reach-Safe r)

-- No access to freed memory: each section that may run next has a result.
pub record NoFault (held : List ℕ) (s : Store) : Type 0 where
  pub acquires : (o : Option ℕ) × (s' : Store) × (store_acquire s ≡ some (o, s'))
  pub releases : (p : ℕ) → 0 < occ p held → (s' : Store) × (store_release (some p) s ≡ some s')
  pub drains : (s' : Store) × (drain_round s ≡ some s')
  pub publishes :
      (rules : List Rule) (policy : ℕ)
      → Good rules
      → (st : NtStatus) × (s' : Store) × (swap rules policy s ≡ some (st, s'))
  pub rolls_back :
      (r : ℕ)
      → s.rollback ≡ some r
      → (st : NtStatus) × (s' : Store) × (swap_back r s ≡ some (st, s'))
  pub detaches : (s' : Store) × (detach s ≡ some s')
  pub readable : (p : ℕ) → 0 < occ p held → (snap : Snapshot) × (s.cells p ≡ some snap)

-- However readers, publications, rollbacks, drains and shutdowns interleave from the start, no section
-- accesses a freed snapshot or frees one twice, and every snapshot that a reader holds is still there.
pub never_freed_in_use :
    {table : RateTable} {runtime : Runtime} {held : List ℕ} {s : Store}
    → Reach table runtime held s
    → NoFault held s
never_freed_in_use {held} {s} reach =
    let safe = Reach-Safe reach in
    record {
      acquires = let (o, s', e, _, _) = store_acquire_lem held s safe in (o, s', e);
      releases = λ p h. let (s', e, _, _) = store_release_lem held s p safe h in (s', e);
      drains = let (cells, kept, e, _, _) = drain_round_lem held s safe in (_, e);
      publishes = λ rules policy good.
          let (st, s', e, _) = swap-Fine held s rules policy safe good in (st, s', e);
      rolls_back = λ r at. let (st, s', e, _) = swap_back-Fine held s r safe at in (st, s', e);
      detaches = let (cells, retire, e, _) = detach_lem held s safe in (_, e);
      readable = λ p h. elim (Option-cases (s.cells p)) [
        | inl gone ↦ let z = safe.kept p gone in absurd (omega arith)
        | inr found ↦ found
      ];
    }
