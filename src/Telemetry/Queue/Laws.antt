-- ===== src/Telemetry/Queue/Laws.antt =====
-- No event is lost: each one is released once, or waits in the queue in its turn.
use shinken_sentinel.Prelude.{
  suc, ◌+◌, ◌-◌, ◌≤◌, ◌<◌, ◌≡◌, ◌⊎◌, refl, sym, ◌∙◌, ap, List, [], ◌∷◌, ◌++◌, Bool, true, false,
  ◌&&◌, arith, length, length-append, inl, inr, Bool-cases, ltb, leb,
}
use mathlib.Core.List.{append_assoc, append-nil}
use shinken_sentinel.Telemetry.Queue.{
  Event, Queue, consume, drop_in_place, producer_enter, producer_leave, is_full, enqueue,
  finish_post, post, drain_events, queue_drain,
}

pub record Sound (q : Queue) : Type 0 where
  pub counted : q.pending ≡ length q.events
  pub bounded : 0 < q.capacity → length q.events ≤ q.capacity

-- The outcome of a post: the event at the end of the queue, or released on the spot.
abbrev pub Posted : Event → Queue → Bool × Queue → Type 0
Posted ev q r =
    ((r.0 ≡ true)
      × (r.1.events ≡ q.events ++ ev ∷ [])
      × (r.1.released ≡ q.released)
      × (r.1.posted ≡ q.posted + 1)
      × (r.1.dropped ≡ q.dropped))
    ⊎ ((r.0 ≡ false)
        × (r.1.events ≡ q.events)
        × (r.1.released ≡ q.released ++ ev ∷ [])
        × (r.1.posted ≡ q.posted)
        × (r.1.dropped ≡ q.dropped + 1))

post_split :
    (node_ok : Bool) (ev : Event) (q : Queue)
    → Posted ev q (post node_ok ev q)
      × ((post node_ok ev q).1.producers ≡ q.producers)
      × ((post node_ok ev q).0 ≡ true → (q.stopping ≡ false) × (is_full q ≡ false))
      × ((post node_ok ev q).1.capacity ≡ q.capacity)
      × ((post node_ok ev q).1.pending + length q.events
          ≡ q.pending + length (post node_ok ev q).1.events)
unfolding post producer_enter producer_leave enqueue finish_post drop_in_place is_full
post_split node_ok ev q = elim (Bool-cases q.stopping) [
  | inl off ↦
      rw off (inr (refl, refl, refl, refl, refl), refl, (λ h. absurd (ground arith)), refl, refl)
  | inr on ↦ elim (Bool-cases node_ok) [
    | inr lacks ↦
        rw (on, lacks)
          (
            inr (refl, refl, refl, refl, refl),
            omega arith,
            (λ h. absurd (ground arith)),
            refl,
            refl,
          )
    | inl got ↦ elim (Bool-cases (ltb 0 q.capacity && leb q.capacity q.pending)) [
      | inl no_room ↦
          rw (on, got, no_room)
            (
              inr (refl, refl, refl, refl, refl),
              omega arith,
              (λ h. absurd (ground arith)),
              refl,
              refl,
            )
      | inr room ↦
          rw (on, got, room)
            (
              inl (refl, refl, refl, refl, refl),
              omega arith,
              (λ h. (refl, refl)),
              refl,
              omega (arith, length-append q.events (ev ∷ [])),
            )
    ]
  ]
]

room_left :
    (q : Queue)
    → Sound q
    → is_full q ≡ false
    → (r : Queue) → r.capacity ≡ q.capacity
    → length r.events ≡ suc (length q.events)
    → 0 < r.capacity
    → length r.events ≤ r.capacity
unfolding is_full
room_left q sound room r cap longer h =
    let size = sound.counted in
    let some_cap : 0 < q.capacity = omega arith in
    let below : q.pending < q.capacity = ground arith in omega arith

post_taken :
    (node_ok : Bool) (ev : Event) (q : Queue)
    → node_ok ≡ true
    → q.stopping ≡ false
    → is_full q ≡ false
    → (post node_ok ev q).0 ≡ true
unfolding post producer_enter enqueue finish_post is_full
post_taken node_ok ev q got on room = rw (on, got, room) refl

-- `ShEventPost` on a sound queue returns TRUE with the event at the end of the queue and counted as
-- posted, or FALSE with the event released on the spot and counted as dropped. It returns TRUE only
-- where the queue is neither stopping nor full, and does so there whenever the pool has memory. The queue stays sound, within its capacity, with as many producers inside.
pub post_lem :
    (node_ok : Bool) (ev : Event) (q : Queue)
    → Sound q
    → Posted ev q (post node_ok ev q)
      × Sound (post node_ok ev q).1
      × ((post node_ok ev q).0 ≡ true → (q.stopping ≡ false) × (is_full q ≡ false))
      × (node_ok ≡ true → q.stopping ≡ false → is_full q ≡ false → (post node_ok ev q).0 ≡ true)
      × ((post node_ok ev q).1.producers ≡ q.producers)
post_lem node_ok ev q sound =
    let (posted, inside, open_, cap, size) = post_split node_ok ev q in
    (posted, stays_sound posted open_ cap size, open_, post_taken node_ok ev q, inside)
  where
    stays_sound :
        Posted ev q (post node_ok ev q)
        → ((post node_ok ev q).0 ≡ true → (q.stopping ≡ false) × (is_full q ≡ false))
        → (post node_ok ev q).1.capacity ≡ q.capacity
        → (post node_ok ev q).1.pending + length q.events
          ≡ q.pending + length (post node_ok ev q).1.events
        → Sound (post node_ok ev q).1
    stays_sound (inl (yes_, events, _, _, _)) open_ cap size =
        let longer : length (post node_ok ev q).1.events ≡ suc (length q.events) =
          ap length events ∙ length-append q.events (ev ∷ []) ∙ omega arith in
        record {
          counted = omega (arith, sound.counted);
          bounded = λ h. room_left q sound (open_ yes_).1 (post node_ok ev q).1 cap longer h;
        }
    stays_sound (inr (no_, events, _, _, _)) open_ cap size =
        let same : length (post node_ok ev q).1.events ≡ length q.events = ap length events in
        record {
          counted = omega (arith, sound.counted);
          bounded = λ h. omega (arith, sound.bounded (omega arith));
        }

drain_events_lem :
    (events : List Event) (q : Queue)
    → q.events ≡ events
    → q.pending ≡ length events
    → ((drain_events events q).events ≡ [])
      × ((drain_events events q).pending ≡ 0)
      × ((drain_events events q).released ≡ q.released ++ events)
      × ((drain_events events q).consumed ≡ q.consumed + length events)
      × ((drain_events events q).dropped ≡ q.dropped)
unfolding drain_events consume
drain_events_lem [] q h k = (h, k, sym (append-nil q.released), omega arith, refl)
drain_events_lem (ev ∷ events) q h k =
    let (empty, none_left, released, consumed, dropped) =
      drain_events_lem events (consume ev (record q { events = events; pending = q.pending - 1 }))
        refl (omega arith) in
    (empty, none_left, released ∙ append_assoc q.released (ev ∷ []) events, omega arith, dropped)

-- `ShEventDrain` of a sound queue empties it and releases its events once each, in their order.
pub queue_drain_lem :
    (q : Queue)
    → Sound q
    → ((queue_drain q).events ≡ [])
      × ((queue_drain q).pending ≡ 0)
      × ((queue_drain q).released ≡ q.released ++ q.events)
      × ((queue_drain q).consumed ≡ q.consumed + length q.events)
      × ((queue_drain q).dropped ≡ q.dropped)
unfolding queue_drain
queue_drain_lem q sound = drain_events_lem q.events q refl sound.counted
