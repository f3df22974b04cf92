-- ===== src/Control/Consumer/Laws.antt =====
-- Every request is completed once, and the thread is never left asleep.
use shinken_sentinel.Prelude.{
  ℕ, zero, suc, ◌+◌, ◌<◌, ◌≡◌, ◌≢◌, ◌⊎◌, refl, sym, ap, ◌∙◌, List, [], ◌∷◌, ◌++◌, map, Bool, true,
  false, not, arith, length, inl, inr, Bool-cases,
}
use mathlib.Core.List.{append_assoc, append-nil}
use shinken_sentinel.Control.Consumer.{
  Phase, Consumer, started, is_empty, arrival, queue_ready, serve, tell_stop, signal_stop, purge,
  ThreadStep, Step, Steps,
}

record Sound (c : Consumer) : Type 0 where
  served : map (λ x. x.0) c.completed ++ c.queue ≡ c.arrived
  roused :
      c.phase ≢ Phase.draining
      → c.phase ≢ Phase.exited
      → is_empty c.queue ≡ false
      → (c.doorbell ≡ true) ⊎ (c.notify_due ≡ true)
  stopping : c.signalled ≡ true → c.stop ≡ true
  told : c.phase ≡ Phase.waiting → c.signalled ≡ true → c.stop_event ≡ true
  closed : c.purged ≡ true → (c.queue ≡ []) × (c.phase ≡ Phase.exited)

serve_order :
    (done : List (ℕ × Bool)) (r : ℕ) (b : Bool) (rest : List ℕ)
    → map (λ x. x.0) (done ++ (r, b) ∷ []) ++ rest ≡ map (λ x. x.0) done ++ r ∷ rest
serve_order [] r b rest = refl
serve_order (x ∷ done) r b rest = ap (λ l. x.0 ∷ l) (serve_order done r b rest)

purge_order :
    (done : List (ℕ × Bool)) (queue : List ℕ)
    → map (λ x. x.0) (done ++ map (λ r. (r, false)) queue) ++ [] ≡ map (λ x. x.0) done ++ queue
purge_order [] [] = refl
purge_order [] (r ∷ queue) = ap (λ l. r ∷ l) (purge_order [] queue)
purge_order (x ∷ done) queue = ap (λ l. x.0 ∷ l) (purge_order done queue)

ThreadStep-Sound : {c c' : Consumer} → ThreadStep c c' → Sound c → Sound c'
unfolding serve
ThreadStep-Sound {c} (ThreadStep.retrieve r rest p q) s = record {
  served =
      serve_order c.completed r (not c.stop) rest
      ∙ ap (λ l. map (λ x. x.0) c.completed ++ l) (sym q)
      ∙ s.served;
  roused = λ a b e. absurd (a p);
  stopping = s.stopping;
  told = λ w g. s.told w g;
  closed = λ u. let (_, gone) = s.closed u in cc;
}
ThreadStep-Sound {c} (ThreadStep.find_empty p q) s = record {
  served = s.served;
  roused = λ a b e. absurd (ground (arith, ap is_empty q));
  stopping = s.stopping;
  told = λ w g. cc;
  closed = λ u. let (_, gone) = s.closed u in cc;
}
ThreadStep-Sound {c} (ThreadStep.leave p q) s = record {
  served = s.served;
  roused = λ a b e. absurd (b refl);
  stopping = s.stopping;
  told = λ w g. cc;
  closed = λ u. ((s.closed u).0, refl);
}
ThreadStep-Sound {c} (ThreadStep.wait p q) s = record {
  served = s.served;
  roused = λ a b e. s.roused (λ h. cc) (λ h. cc) e;
  stopping = s.stopping;
  told = λ w g. let on = s.stopping g in cc;
  closed = λ u. let (_, gone) = s.closed u in cc;
}
ThreadStep-Sound {c} (ThreadStep.wake_by_doorbell p q) s = record {
  served = s.served;
  roused = λ a b e. absurd (a refl);
  stopping = s.stopping;
  told = λ w g. cc;
  closed = λ u. let (_, gone) = s.closed u in cc;
}
ThreadStep-Sound {c} (ThreadStep.wake_by_stop p q) s = record {
  served = s.served;
  roused = λ a b e. absurd (a refl);
  stopping = s.stopping;
  told = λ w g. cc;
  closed = λ u. let (_, gone) = s.closed u in cc;
}

Step-Sound : {c c' : Consumer} → Step c c' → Sound c → Sound c'
unfolding arrival queue_ready tell_stop signal_stop purge
Step-Sound {c} (Step.thread t) s = ThreadStep-Sound t s
Step-Sound {c} (Step.arrive r live) s = record {
  served =
      sym (append_assoc (map (λ x. x.0) c.completed) c.queue (r ∷ []))
      ∙ ap (λ l. l ++ r ∷ []) s.served;
  roused = λ a b e. elim (Bool-cases (is_empty c.queue)) [
    | inl first ↦ inr (rw first refl)
    | inr more ↦ rw more (s.roused a b more)
  ];
  stopping = s.stopping;
  told = s.told;
  closed = λ u. cc;
}
Step-Sound {c} (Step.notify due) s = record {
  served = s.served;
  roused = λ a b e. inl refl;
  stopping = s.stopping;
  told = s.told;
  closed = s.closed;
}
Step-Sound {c} Step.told s = record {
  served = s.served;
  roused = s.roused;
  stopping = λ g. refl;
  told = s.told;
  closed = s.closed;
}
Step-Sound {c} (Step.signalled on) s = record {
  served = s.served;
  roused = s.roused;
  stopping = λ g. on;
  told = λ w g. refl;
  closed = s.closed;
}
Step-Sound {c} (Step.purged gone) s = record {
  served = purge_order c.completed c.queue ∙ s.served;
  roused = λ a b e. cc;
  stopping = s.stopping;
  told = s.told;
  closed = λ u. (refl, gone);
}

Steps-Sound : {c c' : Consumer} → Steps c c' → Sound c → Sound c'
Steps-Sound Steps.none_yet s = s
Steps-Sound (Steps.then_ r t) s = Step-Sound t (Steps-Sound r s)

started-Sound : Sound started
started-Sound = record {
  served = refl;
  roused = λ a b e. cc;
  stopping = λ g. cc;
  told = λ w g. cc;
  closed = λ u. cc;
}

-- However requests arrive and the thread, its callback and a quiesce interleave: the requests that have been
-- completed, in their order, with those still queued behind them, are the requests that ever arrived, each
-- once and in the order of arrival; and once the queue is purged all of them have been completed.
pub completed_once :
    {c : Consumer}
    → Steps started c
    → (map (λ x. x.0) c.completed ++ c.queue ≡ c.arrived)
      × (c.purged ≡ true → map (λ x. x.0) c.completed ≡ c.arrived)
completed_once {c} r =
    let s = Steps-Sound r started-Sound in
    (
      s.served,
      (λ u.
          sym (append-nil (map (λ x. x.0) c.completed))
          ∙ ap (λ l. map (λ x. x.0) c.completed ++ l) (sym (s.closed u).0)
          ∙ s.served),
    )

-- The thread can take a step, or the callback that wakes it is due.
pub data Awake (c : Consumer) : Type 0 where
  steps : {c' : Consumer} → ThreadStep c c' → Awake c
  rung : c.notify_due ≡ true → Awake c

draining-Awake : (c : Consumer) (q : List ℕ) → c.phase ≡ Phase.draining → c.queue ≡ q → Awake c
draining-Awake c [] e k = Awake.steps (ThreadStep.find_empty e k)
draining-Awake c (r ∷ rest) e k = Awake.steps (ThreadStep.retrieve r rest e k)

Awake-at :
    (c : Consumer) (p : Phase)
    → Sound c
    → c.phase ≡ p
    → p ≢ Phase.exited
    → (is_empty c.queue ≡ false) ⊎ (c.signalled ≡ true)
    → Awake c
Awake-at c Phase.draining s e live work = draining-Awake c c.queue e refl
Awake-at c Phase.checking s e live work = elim (Bool-cases c.stop) [
  | inl on ↦ Awake.steps (ThreadStep.leave e on)
  | inr off ↦ Awake.steps (ThreadStep.wait e off)
]
Awake-at c Phase.waiting s e live (inl some_) = elim (s.roused (λ h. cc) (λ h. cc) some_) [
  | inl bell ↦ Awake.steps (ThreadStep.wake_by_doorbell e bell)
  | inr due ↦ Awake.rung due
]
Awake-at c Phase.waiting s e live (inr sig) = Awake.steps (ThreadStep.wake_by_stop e (s.told e sig))
Awake-at c Phase.exited s e live work = absurd (live refl)

-- In every reachable state in which a request is queued or the stop event was ever set, a thread that has
-- not ended can take a step, or the callback that rings its doorbell is due: it is never left
-- asleep.
pub never_asleep :
    {c : Consumer}
    → Steps started c
    → c.phase ≢ Phase.exited
    → (is_empty c.queue ≡ false) ⊎ (c.signalled ≡ true)
    → Awake c
never_asleep {c} r live work = Awake-at c c.phase (Steps-Sound r started-Sound) refl live work

-- Every run of the thread's own steps is finite.
pub data Halts : Consumer → Type 0 where
  halts : (c : Consumer) → ((c' : Consumer) → ThreadStep c c' → Halts c') → Halts c

rank : Phase → ℕ
rank Phase.waiting = 3
rank Phase.draining = 2
rank Phase.checking = 1
rank Phase.exited = 0

-- A bound on the steps that the thread has left once it is to stop.
measure : Consumer → ℕ
measure c = rank c.phase + length c.queue

ThreadStep-measure :
    {c c' : Consumer}
    → ThreadStep c c'
    → c.stop ≡ true
    → (measure c' < measure c) × (c'.stop ≡ true)
unfolding measure rank serve
ThreadStep-measure {c} (ThreadStep.retrieve r rest p q) on = (rw (p, q) (omega arith), on)
ThreadStep-measure {c} (ThreadStep.find_empty p q) on = (rw p (omega arith), on)
ThreadStep-measure {c} (ThreadStep.leave p q) on = (rw p (omega arith), on)
ThreadStep-measure {c} (ThreadStep.wait p q) on = absurd (ground arith)
ThreadStep-measure {c} (ThreadStep.wake_by_doorbell p q) on = (rw p (omega arith), on)
ThreadStep-measure {c} (ThreadStep.wake_by_stop p q) on = (rw p (omega arith), on)

Halts-within : (n : ℕ) (c : Consumer) → c.stop ≡ true → measure c < n → Halts c
Halts-within zero c on h = absurd (omega arith)
Halts-within (suc n) c on h =
    Halts.halts c
      (λ c' t. let (less, on') = ThreadStep-measure t on in Halts-within n c' on' (omega arith))

-- Once it is to stop, the thread's own steps come to an end, whatever is queued.
pub stop-Halts : (c : Consumer) → c.stop ≡ true → Halts c
stop-Halts c on = Halts-within (suc (measure c)) c on (omega arith)
