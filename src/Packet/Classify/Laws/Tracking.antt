-- ===== src/Packet/Classify/Laws/Tracking.antt =====
-- The callback of the flow layers permits, and leaves the references exact.
use shinken_sentinel.Prelude.{ℕ, ◌-◌, ◌^◌, ◌<◌, ◌≡◌, Option, none, some}
use shinken_sentinel.Packet.Flow.{Flows, refs}

-- Memory is had at an address that is not in use, and no context has 2 ^ 32 - 2 references.
abbrev pub Roomy : Option ℕ → Flows → Type 0
Roomy none s = Unit
Roomy (some p) s = (s.cells p ≡ none) × ((q : ℕ) → refs q s < 2 ^ 32 - 2)
