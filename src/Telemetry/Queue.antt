-- ===== src/Telemetry/Queue.antt =====
-- telemetry/event_queue.c: the bounded event queue with its producer gate, where `onEvent` is not NULL.
-- A queue that is not initialized is refused before any of this. The doorbell and the thread are left out.
pub mod Laws
pub mod Gate
use shinken_sentinel.Prelude.{
  ℕ, ◌+◌, ◌-◌, List, [], ◌∷◌, ◌++◌, Option, none, some, Bool, true, false, ◌&&◌, if◌then◌else◌, ltb,
  leb,
}

-- What a node carries: the references that its consumer gives back.
pub record Event : Type 0 where
  pub kind : ℕ
  pub ctx : ℕ
  pub counter : Option ℕ

-- `SHINKEN_EVENT_QUEUE`; `released` is the sequence of events whose counter was decremented and that
-- were handed to `onEvent`, consumed or dropped.
pub record Queue : Type 0 where
  pub events : List Event
  pub pending : ℕ
  pub capacity : ℕ
  pub stopping : Bool
  pub producers : ℕ
  pub posted : ℕ
  pub consumed : ℕ
  pub dropped : ℕ
  pub overflow_dropped : ℕ
  pub released : List Event

-- `ShEventQueueInit`
unfoldable pub queue_init : Queue
queue_init = record {
  events = [];
  pending = 0;
  capacity = 0;
  stopping = false;
  producers = 0;
  posted = 0;
  consumed = 0;
  dropped = 0;
  overflow_dropped = 0;
  released = [];
}

-- `shEventNodeConsume` and `shEventDropInPlace`
unfoldable pub consume : Event → Queue → Queue
consume ev q = record q { released = q.released ++ ev ∷ []; consumed = q.consumed + 1 }

unfoldable pub drop_in_place : Event → Queue → Queue
drop_in_place ev q = record q { released = q.released ++ ev ∷ []; dropped = q.dropped + 1 }

-- `shEventProducerEnter`, whose check and whose registration a stop may come between, and
-- `shEventProducerLeave`.
abbrev pub count_in : Queue → Queue
count_in q = record q { producers = q.producers + 1 }

unfoldable pub producer_enter : Queue → Bool × Queue
producer_enter q = if q.stopping then (false, q) else (true, count_in q)

unfoldable pub producer_leave : Queue → Queue
producer_leave q = record q { producers = q.producers - 1 }

-- The section of `ShEventPost` under the queue lock.
pub data Admission : Type 0 where
  stopped full admitted : Admission

unfoldable pub is_full : Queue → Bool
is_full q = ltb 0 q.capacity && leb q.capacity q.pending

-- Behind its check of the flag.
abbrev pub admit : Event → Queue → Admission × Queue
admit ev q =
    if is_full q
    then (full, q)
    else (admitted, record q { events = q.events ++ ev ∷ []; pending = q.pending + 1 })

unfoldable pub enqueue : Event → Queue → Admission × Queue
enqueue ev q = if q.stopping then (stopped, q) else admit ev q

-- What `ShEventPost` does after that section.
unfoldable pub finish_post : Admission → Event → Queue → Bool × Queue
finish_post stopped ev q = (false, drop_in_place ev (producer_leave q))
finish_post full ev q =
    let q' = drop_in_place ev (producer_leave q) in
    (false, record q' { overflow_dropped = q'.overflow_dropped + 1 })
finish_post admitted ev q =
    let q' = producer_leave q in (true, record q' { posted = q'.posted + 1 })

-- `ShEventPost`; `node_ok` is whether the pool has memory for the node.
unfoldable pub post : Bool → Event → Queue → Bool × Queue
post node_ok ev q =
    let (inside, q1) = producer_enter q in
    let (admission, q2) = enqueue ev q1 in
    if inside
    then (if node_ok
        then finish_post admission ev q2
        else (false, drop_in_place ev (producer_leave q1)))
    else (false, drop_in_place ev q)

-- `shEventPopLocked`
unfoldable pub pop_from : List Event → Queue → Option Event × Queue
pop_from [] q = (none, q)
pop_from (ev ∷ events) q = (some ev, record q { events = events; pending = q.pending - 1 })

unfoldable pub pop : Queue → Option Event × Queue
pop q = pop_from q.events q

-- `ShEventDrain`: a node is popped and consumed until none is left.
unfoldable pub drain_events : List Event → Queue → Queue
drain_events [] q = q
drain_events (ev ∷ events) q =
    drain_events events (consume ev (record q { events = events; pending = q.pending - 1 }))

unfoldable pub queue_drain : Queue → Queue
queue_drain q = drain_events q.events q
