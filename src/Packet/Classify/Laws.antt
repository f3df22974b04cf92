-- ===== src/Packet/Classify/Laws.antt =====
-- A classify callback evaluates the current snapshot where a reader gets one, and gives it back.
pub mod Filtering
pub mod Tracking
use shinken_sentinel.Prelude.{
  ℕ, suc, ◌+◌, ◌-◌, ◌^◌, ◌≤◌, ◌<◌, ◌≡◌, ◌≢◌, ◌⊎◌, refl, sym, ap, ◌∙◌, subst, List, [], ◌∷◌, ◌++◌,
  Option, none, some, Bool, true, false, not, ◌&&◌, if◌then◌else◌, ltb, leb, ◌==◌, arith, tests,
  inl, inr, Bool-cases, Option-cases, bit_and,
}
use shinken_sentinel.Runtime.Rundown.{acquire}
use shinken_sentinel.Rules.Types.{
  Verdict, permit, block, audit, has, action_block, action_audit, action_rate_limit,
}
use shinken_sentinel.Rules.Types
use shinken_sentinel.Rules.Snapshot.{Snapshot, policy_block}
use shinken_sentinel.Rules.Rate.{RateTable}
use shinken_sentinel.Rules.Engine.{Engine, Clock, evaluate}
use shinken_sentinel.Rules.Engine.Spec.{
  NoneMatches, Decides, rate_answer, VerdictOf, DefaultOf, evaluate_verdict,
}
use shinken_sentinel.Rules.Store.{
  Store, put, acquire_cell, acquire_at, store_acquire, store_release, ◌>>=◌,
}
use shinken_sentinel.Rules.Store.Safe.{Safe, Live, OnSlot, occ, put_self}
use shinken_sentinel.Rules.Store.Sections.Readers.{
  hold, AcquireKeeps, store_acquire_lem, store_release_lem, drop_one, acquire_more, acquire_full,
}
use shinken_sentinel.Rules.Store.Sections.Publish.{Safe-aside}
use shinken_sentinel.Packet.Classify.{
  Sensor, snapshot_at, engine_of, judge, verdict_on, events_of, present,
}

-- No snapshot for a reader: there is none, the store is closed, or its counter is full.
pub Unavailable : Store → Type 0
Unavailable s =
    (s.current ≡ none)
    ⊎ (s.closed ≡ true)
    ⊎ ((p : ℕ) × (snap : Snapshot) × (s.current ≡ some p)
        × (s.cells p ≡ some snap)
        × (2 ^ 30 ≤ snap.readers.count))

-- The snapshot with one reader more.
abbrev pub seen : Snapshot → Snapshot
seen snap = record snap { readers = record (snap.readers) { count = snap.readers.count + 1 } }

pub data Acquired (s : Store) : Type 0 where
  nothing : store_acquire s ≡ some (none, s) → Unavailable s → Acquired s
  current :
      (p : ℕ) (snap : Snapshot)
      → s.current ≡ some p
      → s.cells p ≡ some snap
      → store_acquire s ≡ some (some p, record s { cells = put p (some (seen snap)) s.cells })
      → Acquired s

Acquired-cell :
    (s : Store) (p : ℕ) → s.current ≡ some p → s.closed ≡ false → Live s.cells p → Acquired s
unfolding store_acquire acquire_at acquire_cell Live Unavailable
Acquired-cell s p here open_ (snap, e, _, _) = elim (Bool-cases (leb (2 ^ 30) snap.readers.count)) [
  | inl full ↦
      let many : 2 ^ 30 ≤ snap.readers.count = omega tests in
      Acquired.nothing
        (ap (λ o. acquire_at o s) here ∙ rw (open_, e, acquire_full snap.readers many) refl)
        (inr (inr (p, snap, here, e, many)))
  | inr room ↦
      let few : snap.readers.count < 2 ^ 30 = ground arith in
      Acquired.current p snap here e
        (ap (λ o. acquire_at o s) here ∙ rw (open_, e, acquire_more snap.readers few) refl)
]

pub acquired : (held : List ℕ) (s : Store) → Safe held s → Acquired s
unfolding store_acquire acquire_at Unavailable
acquired held s safe = elim (Option-cases s.current) [
  | inl none_ ↦ Acquired.nothing (ap (λ o. acquire_at o s) none_) (inl none_)
  | inr (p, here) ↦ elim (Bool-cases s.closed) [
    | inl shut ↦ Acquired.nothing (ap (λ o. acquire_at o s) here ∙ rw shut refl) (inr (inl shut))
    | inr open_ ↦
        Acquired-cell s p here open_ (subst (OnSlot (Live s.cells)) here safe.current_live)
  ]
]

-- The callback's verdict is the evaluation of `snap`, and behind it the heap is safe for the same holders.
unfoldable pub Judged : List ℕ → Clock → Types.Tuple → Sensor → Option Snapshot → Type 0
Judged held clock tuple s snap =
    (s' : Sensor) × (verdict_on clock tuple s
      ≡ some ((evaluate clock snap tuple (engine_of s s.store)).0, s'))
    × Safe held s'.store
    × (s'.posted ≡ s.posted ++ events_of (evaluate clock snap tuple (engine_of s s.store)).0 tuple)

Held : List ℕ → Option (Option ℕ × Store) → Type 0
Held held none = ⊥
Held held (some (o, s)) = Safe (hold o held) s

acquire-Held : (held : List ℕ) (s : Store) → Safe held s → Held held (store_acquire s)
unfolding Held
acquire-Held held s safe =
    let (o, s', e, safe', live) = store_acquire_lem held s safe in subst (Held held) (sym e) safe'

-- The evaluation changes the bucket table.
Safe-table :
    (held : List ℕ) (s : Store) (t : RateTable) → Safe held s → Safe held (record s { table = t })
Safe-table held s t safe = Safe-aside held s t s.runtime safe

judge_lem :
    (clock : Clock) (tuple : Types.Tuple) (held : Option ℕ) (store store' : Store)
    (snap : Option Snapshot) (s : Sensor)
    → store_release held
        (record store { table = (evaluate clock snap tuple (engine_of s store)).1.table })
      ≡ some store'
    → judge clock tuple held store snap s
      ≡ some (
        (evaluate clock snap tuple (engine_of s store)).0,
        record {
          store = store';
          stats = (evaluate clock snap tuple (engine_of s store)).1.stats;
          qpc_freq = (evaluate clock snap tuple (engine_of s store)).1.qpc_freq;
          posted = s.posted ++ events_of (evaluate clock snap tuple (engine_of s store)).0 tuple;
        },
      )
unfolding judge
judge_lem clock tuple held store store' snap s e = rw e refl

drop_back : (p : ℕ) (held : List ℕ) → drop_one p (p ∷ held) ≡ held
unfolding drop_one
drop_back p held = ground arith

occ_held : (p : ℕ) (held : List ℕ) → 0 < occ p (p ∷ held)
unfolding occ
occ_held p held = ground arith

pub Judged-without :
    (held : List ℕ) (clock : Clock) (tuple : Types.Tuple) (s : Sensor)
    → Safe held s.store
    → store_acquire s.store ≡ some (none, s.store)
    → Judged held clock tuple s none
unfolding Judged verdict_on judge snapshot_at store_release
Judged-without held clock tuple s safe e =
    let r = evaluate clock none tuple (engine_of s s.store) in
    (
      record {
        store = record (s.store) { table = r.1.table };
        stats = r.1.stats;
        qpc_freq = r.1.qpc_freq;
        posted = s.posted ++ events_of r.0 tuple;
      },
      rw e refl,
      Safe-table held s.store r.1.table safe,
      refl,
    )

pub Judged-with :
    (held : List ℕ) (clock : Clock) (tuple : Types.Tuple) (s : Sensor) (p : ℕ) (snap : Snapshot)
    → Safe held s.store
    → store_acquire s.store
      ≡ some (some p, record (s.store) { cells = put p (some (seen snap)) s.store.cells })
    → Judged held clock tuple s (some (seen snap))
unfolding Judged verdict_on snapshot_at engine_of
Judged-with held clock tuple s p snap safe e =
    let r = evaluate clock (some (seen snap)) tuple (engine_of s s.store) in
    let got = record (s.store) { cells = put p (some (seen snap)) s.store.cells } in
    let safe1 : Held held (some (some p, got)) =
      subst (Held held) e (acquire-Held held s.store safe) in
    let safe2 = Safe-table (p ∷ held) got r.1.table (unfold Held in safe1) in
    let (s', back, safe3, _) =
      store_release_lem (p ∷ held) (record got { table = r.1.table }) p safe2 (occ_held p held) in
    (
      record {
        store = s';
        stats = r.1.stats;
        qpc_freq = r.1.qpc_freq;
        posted = s.posted ++ events_of r.0 tuple;
      },
      rw (e, put_self p (some (seen snap)) s.store.cells)
          (judge_lem clock tuple (some p) got s' (some (seen snap)) s back),
      subst (λ h. Safe h s') (drop_back p held) safe3,
      refl,
    )
