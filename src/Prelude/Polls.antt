-- ===== src/Prelude/Polls.antt =====
-- A bounded wait: a reading is tested, and again after each delay while retries are left.
use Prim.Native.Nat.{ℕ, zero, suc, ◌+◌, ◌≤◌}
use mathlib.Core.Path.{◌≡◌, refl, ◌∙◌, ap}
use mathlib.Core.Logic.{◌↔◌, inl, inr}
use mathlib.Core.Bool.{Bool, true}
use native.Mathlib.Omega.{arith}
use native.Mathlib.Decide.{ℕ_discrete}
use shinken_sentinel.Prelude.Tests.{if◌then◌else◌, Bool-cases}

unfoldable pub poll : (ℕ → Bool) → ℕ → ℕ → Bool
poll reads zero i = reads i
poll reads (suc left) i = let rest = poll reads left (i + 1) in if reads i then true else rest

abbrev Hit : (ℕ → Bool) → ℕ → ℕ → Type 0
Hit reads left i = (j : ℕ) × (i ≤ j) × (j ≤ i + left) × (reads j ≡ true)

poll-Hit : (reads : ℕ → Bool) (left i : ℕ) → poll reads left i ≡ true → Hit reads left i
unfolding poll
poll-Hit reads zero i h = (i, omega arith, omega arith, h)
poll-Hit reads (suc left) i h = elim (Bool-cases (reads i)) [
  | inl hit ↦ (i, omega arith, omega arith, hit)
  | inr miss ↦
      let (j, lo, hi, e) = poll-Hit reads left (i + 1) (ground arith) in
      (j, omega arith, omega arith, e)
]

poll-of : (reads : ℕ → Bool) (left i : ℕ) → Hit reads left i → poll reads left i ≡ true
unfolding poll
poll-of reads zero i (j, lo, hi, e) = let same : i ≡ j = omega arith in ap reads same ∙ e
poll-of reads (suc left) i (j, lo, hi, e) = elim (ℕ_discrete i j) [
  | yes same ↦ let hit : reads i ≡ true = ap reads same ∙ e in rw hit refl
  | no other ↦ elim (Bool-cases (reads i)) [
    | inl hit ↦ rw hit refl
    | inr miss ↦ rw miss (poll-of reads left (i + 1) (j, omega arith, omega arith, e))
  ]
]

-- It succeeds exactly where a reading within the retries does.
pub poll_iff :
    (reads : ℕ → Bool) (retries : ℕ)
    → (poll reads retries 0 ≡ true) ↔ ((i : ℕ) × (i ≤ retries) × (reads i ≡ true))
poll_iff reads retries = (
  (λ h. let (j, _, hi, e) = poll-Hit reads retries 0 h in (j, omega arith, e)),
  (λ h. poll-of reads retries 0 (h.0, omega arith, omega arith, h.2)),
)
