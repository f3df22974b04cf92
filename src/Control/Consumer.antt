-- ===== src/Control/Consumer.antt =====
-- control/ioctl.c: the thread that consumes the manual queue, as interleaved steps with the framework,
-- which queues requests, and with SkControlQuiesce.
pub mod Laws
use shinken_sentinel.Prelude.{
  ℕ, ◌≡◌, List, [], ◌∷◌, ◌++◌, map, Bool, true, false, not, if◌then◌else◌,
}

-- Where `skDequeueThreadBody` stands: in the inner loop, behind it, in the wait, or gone.
pub data Phase : Type 0 where
  draining checking waiting exited : Phase

-- The framework's queue and the requests that it ever took; the completions in their order, each with
-- whether it was dispatched (or got STATUS_DEVICE_NOT_READY); whether a ReadyNotify callback is due; the two
-- events, `g_SkDequeueStop`, whether the stop event was ever set, and whether the queue was purged.
pub record Consumer : Type 0 where
  pub queue : List ℕ
  pub arrived : List ℕ
  pub completed : List (ℕ × Bool)
  pub notify_due : Bool
  pub doorbell : Bool
  pub stop_event : Bool
  pub stop : Bool
  pub signalled : Bool
  pub purged : Bool
  pub phase : Phase

abbrev pub started : Consumer
started = record {
  queue = [];
  arrived = [];
  completed = [];
  notify_due = false;
  doorbell = false;
  stop_event = false;
  stop = false;
  signalled = false;
  purged = false;
  phase = Phase.draining;
}

abbrev pub is_empty : List ℕ → Bool
is_empty [] = true
is_empty (x ∷ xs) = false

-- The framework queues a request, and has a callback to make where the queue was empty.
unfoldable pub arrival : ℕ → Consumer → Consumer
arrival r c = record c {
  queue = c.queue ++ r ∷ [];
  arrived = c.arrived ++ r ∷ [];
  notify_due = if is_empty c.queue then true else c.notify_due;
}

-- `skIoctlEvtQueueReady`
unfoldable pub queue_ready : Consumer → Consumer
queue_ready c = record c { notify_due = false; doorbell = true }

-- A request that the thread retrieved is completed: dispatched, or refused once the thread is to stop.
unfoldable pub serve : ℕ → List ℕ → Consumer → Consumer
serve r rest c = record c { queue = rest; completed = c.completed ++ (r, not c.stop) ∷ [] }

-- The two writes of `SkControlQuiesce`, and its purge, which completes what is still queued.
unfoldable pub tell_stop : Consumer → Consumer
tell_stop c = record c { stop = true }

unfoldable pub signal_stop : Consumer → Consumer
signal_stop c = record c { stop_event = true; signalled = true }

unfoldable pub purge : Consumer → Consumer
purge c = record c {
  queue = [];
  completed = c.completed ++ map (λ r. (r, false)) c.queue;
  purged = true;
}

-- The thread's own steps.
pub data ThreadStep (c : Consumer) : Consumer → Type 0 where
  retrieve :
      (r : ℕ) (rest : List ℕ)
      → c.phase ≡ Phase.draining
      → c.queue ≡ r ∷ rest
      → ThreadStep c (serve r rest c)
  find_empty :
      c.phase ≡ Phase.draining → c.queue ≡ [] → ThreadStep c (record c { phase = Phase.checking })
  leave :
      c.phase ≡ Phase.checking → c.stop ≡ true → ThreadStep c (record c { phase = Phase.exited })
  wait :
      c.phase ≡ Phase.checking → c.stop ≡ false → ThreadStep c (record c { phase = Phase.waiting })
  wake_by_doorbell :
      c.phase ≡ Phase.waiting
      → c.doorbell ≡ true
      → ThreadStep c (record c { doorbell = false; phase = Phase.draining })
  wake_by_stop :
      c.phase ≡ Phase.waiting
      → c.stop_event ≡ true
      → ThreadStep c (record c { stop_event = false; phase = Phase.draining })

pub data Step (c : Consumer) : Consumer → Type 0 where
  thread : {c' : Consumer} → ThreadStep c c' → Step c c'
  arrive : (r : ℕ) → c.purged ≡ false → Step c (arrival r c)
  notify : c.notify_due ≡ true → Step c (queue_ready c)
  told : Step c (tell_stop c)
  signalled : c.stop ≡ true → Step c (signal_stop c)
  purged : c.phase ≡ Phase.exited → Step c (purge c)

pub data Steps (c : Consumer) : Consumer → Type 0 where
  none_yet : Steps c c
  then_ : {d e : Consumer} → Steps c d → Step d e → Steps c e
