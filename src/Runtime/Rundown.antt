-- ===== src/Runtime/Rundown.antt =====
-- runtime/rundown.c: the stop-bit rundown counter.
-- `count` is the 32-bit pattern of the LONG; a pattern from 2 ^ 31 on is negative.
-- Each operation is one atomic read-modify-write, but for the release that underflows, whose decrement and
-- correction are taken as one: a compare-and-swap of `ShRundownAcquire` that
-- fails is followed by a new round that starts from the value then read.
pub mod Laws
use shinken_sentinel.Prelude.{
  ℕ, zero, suc, ◌+◌, ◌-◌, ◌%◌, ◌^◌, Bool, true, false, ◌||◌, if◌then◌else◌, ltb, leb, ◌==◌,
}
use shinken_sentinel.Status.{NtStatus, status_success, status_timeout}
use shinken_sentinel.Runtime.State.{Runtime, report_underflow}

-- `SHINKEN_RUNDOWN_STOP_BIT`
abbrev pub stop_bit : ℕ
stop_bit = 2 ^ 31

-- `SHINKEN_RUNDOWN`
pub record Rundown : Type 0 where
  pub count : ℕ
  pub underflows : ℕ

-- `ShRundownInit`
unfoldable pub rundown_init : Rundown
rundown_init = record { count = 0; underflows = 0 }

-- `ShRundownAcquire`
unfoldable pub acquire : Rundown → Bool × Rundown
acquire r =
    if leb stop_bit r.count
    then (false, r)
    else if leb (2 ^ 30) r.count
    then (false, r)
    else (true, record r { count = r.count + 1 })

-- `ShRundownBeginStop`: the top bit is set.
unfoldable pub begin_stop : Rundown → Rundown
begin_stop r = record r { count = r.count % stop_bit + stop_bit }

-- `ShRundownRelease`
unfoldable pub release : Rundown → Runtime → Rundown × Runtime
release r rt =
    let before = r.count in
    let after = (r.count + 2 ^ 32 - 1) % 2 ^ 32 in
    if before == stop_bit || before == 0
    then (
      record { count = (after + 1) % 2 ^ 32; underflows = r.underflows + 1 },
      report_underflow rt,
    )
    else (record r { count = after }, rt)

-- What `ShRundownActiveCount` returns: -1, or a number of holders.
pub data ActiveCount : Type 0 where
  drained : ActiveCount
  holders : ℕ → ActiveCount

unfoldable pub active_count : Rundown → ActiveCount
active_count r =
    if r.count == stop_bit
    then drained
    else if leb stop_bit r.count
    then holders (r.count - stop_bit)
    else holders r.count

-- `ShRundownDrain` from poll `i` on, with the sleeps that are left; `reads i` is what poll `i` reads.
drain_from : (ℕ → ℕ) → ℕ → ℕ → NtStatus
drain_from reads zero i = if reads i == stop_bit then status_success else status_timeout
drain_from reads (suc left) i =
    let rest = drain_from reads left (i + 1) in if reads i == stop_bit then status_success else rest

unfoldable pub drain : (ℕ → ℕ) → ℕ → NtStatus
unfolding drain_from
drain reads retries = drain_from reads retries 0
