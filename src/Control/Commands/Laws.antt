-- ===== src/Control/Commands/Laws.antt =====
-- What a handler writes fits in the output buffer.
use shinken_sentinel.Prelude.{
  ℕ, ◌+◌, ◌-◌, ◌*◌, ◌/◌, ◌≤◌, ◌≡◌, ◌⊎◌, refl, Option, none, some, true, false, ◌&&◌, if◌then◌else◌,
  ltb, leb, ◌==◌, arith, inl, inr, Bool-cases,
}
use shinken_sentinel.Status.{NtStatus, nt_success, status_buffer_too_small}
use shinken_sentinel.Rules.Types.{RuleStats}
use shinken_sentinel.Telemetry.Queue.{Queue}
use shinken_sentinel.Telemetry.Ring.{Ring, flush, smaller}
use shinken_sentinel.Control.Commands.{
  Call, Completion, Answer, Header, header_bytes, plain, answered, echo_header, echo_if_room,
  lacks_room, cmd_query_capabilities, version_answer, cmd_get_stats, cmd_flush_events, flush_rows,
}

-- Bytes are reported exactly with a header that says how many.
abbrev pub Echoed : Call → ℕ → Option Header → Type 0
Echoed c information header =
    ((header ≡ none) × (information ≡ 0)) ⊎ (header ≡ some (echo_header c information))

-- A completion that succeeds reports no more bytes than the output buffer has.
unfoldable pub Fits : Call → Completion → Type 0
Fits c r =
    nt_success r.status ≡ true → (r.information ≤ c.out_len) × Echoed c r.information r.header

pub plain-Fits : (c : Call) (st : NtStatus) → Fits c (plain st 0)
unfolding Fits plain
plain-Fits c st h = (omega arith, inl (refl, refl))

pub refused-Fits : (c : Call) (st : NtStatus) (n : ℕ) → nt_success st ≡ false → Fits c (plain st n)
unfolding Fits plain
refused-Fits c st n bad h = absurd (ground arith)

pub answered-Fits :
    (c : Call) (total : ℕ) (a : Answer) → total ≤ c.out_len → Fits c (answered c total a)
unfolding Fits answered
answered-Fits c total a le h = (le, inr refl)

pub room-le : (c : Call) (total : ℕ) → lacks_room c total ≡ false → total ≤ c.out_len
unfolding lacks_room
room-le c total h = ground arith

pub too_small-Fits : (c : Call) (n : ℕ) → Fits c (plain status_buffer_too_small n)
too_small-Fits c n = refused-Fits c status_buffer_too_small n refl

-- The frame of the queries: too small, or an answer of as many bytes.
pub sized-Fits :
    (c : Call) (total reported : ℕ) (a : Answer)
    → (lacks_room c total ≡ false → reported ≤ c.out_len)
    → Fits c
        (if lacks_room c total then plain status_buffer_too_small total else answered c reported a)
sized-Fits c total reported a le = elim (Bool-cases (lacks_room c total)) [
  | inl lacks ↦ rw lacks (too_small-Fits c total)
  | inr room ↦ rw room (answered-Fits c reported a (le room))
]

pub capabilities-Fits : (c : Call) → Fits c (cmd_query_capabilities c)
unfolding cmd_query_capabilities
capabilities-Fits c =
    sized-Fits c (header_bytes + 16) (header_bytes + 16) _ (room-le c (header_bytes + 16))

pub version-Fits :
    (c : Call) (count version policy : ℕ)
    → lacks_room c (header_bytes + 16) ≡ false
    → Fits c (version_answer c count version policy)
unfolding version_answer
version-Fits c count version policy room =
    answered-Fits c (header_bytes + 16) _ (room-le c (header_bytes + 16) room)

pub stats-Fits : (c : Call) (stats : RuleStats) (q : Queue) → Fits c (cmd_get_stats c stats q)
unfolding cmd_get_stats
stats-Fits c stats q =
    sized-Fits c (header_bytes + 112) (header_bytes + 112) _ (room-le c (header_bytes + 112))

flush-le : (cap : ℕ) (ring : Ring) (out : ℕ → ℕ → ℕ) → (flush cap 80 ring out).0 ≤ cap
unfolding flush smaller
flush-le cap ring out = ground arith

pub flush-Fits : (c : Call) (ring : Ring) → Fits c (cmd_flush_events c ring)
unfolding cmd_flush_events
flush-Fits c ring =
    sized-Fits c (header_bytes + 8)
      (header_bytes + 8 + (flush (cap c) 80 ring (flush_rows c)).0 * 80) _
      (λ room. fits room (flush-le (cap c) ring (flush_rows c)))
  where
    cap : Call → ℕ
    cap c =
        if ltb 1024 ((c.out_len - (header_bytes + 8)) / 80)
        then 1024
        else (c.out_len - (header_bytes + 8)) / 80

    fits :
        lacks_room c (header_bytes + 8) ≡ false
        → (flush (cap c) 80 ring (flush_rows c)).0 ≤ cap c
        → header_bytes + 8 + (flush (cap c) 80 ring (flush_rows c)).0 * 80 ≤ c.out_len
    fits room le = ground (arith, room-le c (header_bytes + 8))

echoed-Fits :
    (c : Call) (r : Completion) (total : ℕ)
    → total ≤ c.out_len
    → Fits c (record r { information = total; header = some (echo_header c total) })
unfolding Fits
echoed-Fits c r total le h = (le, inr refl)

pub echo-Fits : (c : Call) (r : Completion) → Fits c r → Fits c (echo_if_room c r)
unfolding echo_if_room
echo-Fits c r fits = elim (Bool-cases (nt_success r.status && r.information == 0)) [
  | inr done ↦ rw done fits
  | inl bare ↦ elim (Bool-cases (c.out && leb header_bytes c.out_len)) [
    | inl room ↦ rw (bare, room) (echoed-Fits c r header_bytes (ground arith))
    | inr small ↦ rw (bare, small) fits
  ]
]
