-- ===== src/Telemetry/Queue/Gate.antt =====
-- The producer gate against a stop, as interleaved steps. A stop takes no part in the queue lock: its
-- exchange of the flag and its read of the producers may fall between a producer's check of the flag and its
-- registration, and between its second check and its insertion. Each of these accesses is a step.
use shinken_sentinel.Prelude.{
  ℕ, suc, ◌+◌, ◌-◌, ◌≤◌, ◌<◌, ◌≡◌, refl, ap, List, [], ◌∷◌, Bool, true, false, arith, length,
}
use shinken_sentinel.Telemetry.Queue.{
  Event, Queue, queue_init, count_in, producer_leave, is_full, admit, pop_from, pop,
}

-- The queue; the producers that have found the flag clear and are not yet registered; those that are
-- registered and have not yet checked again; those that have, and are about to insert; those that are about to
-- leave; and whether a stop has seen no producer registered.
pub record Gate : Type 0 where
  pub queue : Queue
  pub checked : ℕ
  pub entered : ℕ
  pub writing : ℕ
  pub leaving : ℕ
  pub quiet : Bool

pub data Step (g : Gate) : Gate → Type 0 where
  check : g.queue.stopping ≡ false → Step g (record g { checked = g.checked + 1 })
  count :
      0 < g.checked
      → Step g
          (record g { queue = count_in g.queue; checked = g.checked - 1; entered = g.entered + 1 })
  no_memory :
      0 < g.entered → Step g (record g { queue = producer_leave g.queue; entered = g.entered - 1 })
  turn_away :
      g.queue.stopping ≡ true
      → 0 < g.entered
      → Step g (record g { entered = g.entered - 1; leaving = g.leaving + 1 })
  check_again :
      g.queue.stopping ≡ false
      → 0 < g.entered
      → Step g (record g { entered = g.entered - 1; writing = g.writing + 1 })
  insert :
      (ev : Event)
      → 0 < g.writing
      → Step g (record g {
        queue = (admit ev g.queue).1;
        writing = g.writing - 1;
        leaving = g.leaving + 1;
      })
  leave :
      0 < g.leaving → Step g (record g { queue = producer_leave g.queue; leaving = g.leaving - 1 })
  take_one : Step g (record g { queue = (pop g.queue).1 })
  stop : Step g (record g { queue = record (g.queue) { stopping = true } })
  see_none : g.queue.stopping ≡ true → g.queue.producers ≡ 0 → Step g (record g { quiet = true })

pub data Steps (g : Gate) : Gate → Type 0 where
  done : Steps g g
  more : {h k : Gate} → Steps g h → Step h k → Steps g k

abbrev pub opened : ℕ → Gate
opened capacity = record {
  queue = record (queue_init) { capacity = capacity };
  checked = 0;
  entered = 0;
  writing = 0;
  leaving = 0;
  quiet = false;
}

record Guarded (g : Gate) : Type 0 where
  inside : g.queue.producers ≡ g.entered + g.writing + g.leaving
  closed : g.quiet ≡ true → (g.queue.stopping ≡ true) × (g.writing ≡ 0)

Step-Guarded : {g h : Gate} → Step g h → Guarded g → Guarded h
unfolding producer_leave is_full pop pop_from
Step-Guarded {g} (Step.check e) k = record { inside = k.inside; closed = k.closed }
Step-Guarded {g} (Step.count e) k = record { inside = omega (arith, k.inside); closed = k.closed }
Step-Guarded {g} (Step.no_memory e) k = record {
  inside = omega (arith, k.inside);
  closed = k.closed;
}
Step-Guarded {g} (Step.turn_away s e) k = record {
  inside = omega (arith, k.inside);
  closed = k.closed;
}
Step-Guarded {g} (Step.check_again s e) k = record {
  inside = omega (arith, k.inside);
  closed = λ q. ground (arith, k.closed);
}
Step-Guarded {g} (Step.insert ev e) k = record {
  inside = ground (arith, k.inside);
  closed = λ q. ground (arith, k.closed);
}
Step-Guarded {g} (Step.leave e) k = record { inside = omega (arith, k.inside); closed = k.closed }
Step-Guarded {g} Step.take_one k = record {
  inside = ground (arith, k.inside);
  closed = λ q. ground (arith, k.closed);
}
Step-Guarded {g} Step.stop k = record { inside = k.inside; closed = λ q. (refl, (k.closed q).1) }
Step-Guarded {g} (Step.see_none s e) k = record {
  inside = k.inside;
  closed = λ q. (s, omega (arith, k.inside));
}

Steps-Guarded : {g h : Gate} → Steps g h → Guarded g → Guarded h
Steps-Guarded Steps.done k = k
Steps-Guarded (Steps.more r t) k = Step-Guarded t (Steps-Guarded r k)

-- A step once a stop has seen no producer inside.
Shrinks : Gate → Gate → Type 0
Shrinks g h = (h.quiet ≡ true) × (length h.queue.events ≤ length g.queue.events)

pop-length :
    (events : List Event) (q : Queue)
    → q.events ≡ events
    → length (pop_from events q).1.events ≤ length q.events
unfolding pop_from
pop-length [] q h = omega arith
pop-length (ev ∷ events) q h =
    let size : length q.events ≡ suc (length events) = ap length h in omega arith

Step-Shrinks : {g h : Gate} → Step g h → Guarded g → g.quiet ≡ true → Shrinks g h
unfolding Shrinks producer_leave pop
Step-Shrinks {g} (Step.check e) k q = (q, omega arith)
Step-Shrinks {g} (Step.count e) k q = (q, omega arith)
Step-Shrinks {g} (Step.no_memory e) k q = (q, omega arith)
Step-Shrinks {g} (Step.turn_away s e) k q = (q, omega arith)
Step-Shrinks {g} (Step.check_again s e) k q = (q, omega arith)
Step-Shrinks {g} (Step.insert ev e) k q = absurd (ground (arith, k.closed q))
Step-Shrinks {g} (Step.leave e) k q = (q, omega arith)
Step-Shrinks {g} Step.take_one k q = (q, pop-length g.queue.events g.queue refl)
Step-Shrinks {g} Step.stop k q = (q, omega arith)
Step-Shrinks {g} (Step.see_none s e) k q = (refl, omega arith)

Steps-Shrinks : {g h : Gate} → Steps g h → Guarded g → g.quiet ≡ true → Guarded h × Shrinks g h
unfolding Shrinks
Steps-Shrinks Steps.done k q = (k, (q, omega arith))
Steps-Shrinks (Steps.more r t) k q =
    let (k', (q', le)) = Steps-Shrinks r k q in
    let (q'', le') = Step-Shrinks t k' q' in (Step-Guarded t k', (q'', omega arith))

start_empty : (capacity : ℕ) → (opened capacity).queue.producers ≡ 0 + 0 + 0
unfolding queue_init
start_empty capacity = refl

-- However producers, the consumer and a stop interleave on a queue of any capacity: once the stop has
-- set the flag and then seen no producer registered, no later step makes the queue longer, the flag stays set
-- and no producer gets past its second check. A producer whose first check came before the flag may
-- still be registered.
pub no_enqueue_after_stop :
    {g h : Gate} (capacity : ℕ)
    → Steps (opened capacity) g
    → g.quiet ≡ true
    → Steps g h
    → (h.quiet ≡ true)
      × (length h.queue.events ≤ length g.queue.events)
      × (h.queue.stopping ≡ true)
      × (h.writing ≡ 0)
unfolding Shrinks
no_enqueue_after_stop {g} {h} capacity before q after =
    let k =
      Steps-Guarded before
        (record { inside = start_empty capacity; closed = λ e. absurd (ground arith) }) in
    let (k', (q', le)) = Steps-Shrinks after k q in
    let (flag, none_writing) = k'.closed q' in (q', le, flag, none_writing)
