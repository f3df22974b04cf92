-- ===== src/Runtime/Injection/Laws.antt =====
-- What the drain of the injection gate promises.
use shinken_sentinel.Prelude.{
  ℕ, zero, suc, ◌+◌, ◌≤◌, ◌≡◌, ◌↔◌, ◌⊎◌, refl, subst, true, ◌||◌, ◌==◌, arith, inl, inr, Bool-cases,
  ℕ_discrete,
}
use shinken_sentinel.Status.{status_success}
use shinken_sentinel.Runtime.Rundown.{stop_bit}
use shinken_sentinel.Runtime.Injection.{injection_drain_from, injection_drain}

-- A poll that ends the drain.
abbrev pub Idle : ℕ → Type 0
Idle count = (count ≡ stop_bit) ⊎ (count ≡ 0)

Idle-test : (count : ℕ) → ((count == stop_bit || count == 0) ≡ true) ↔ Idle count
Idle-test count = ground arith

polls_found :
    (reads : ℕ → ℕ) (left i : ℕ)
    → injection_drain_from reads left i ≡ status_success
    → (j : ℕ) × (i ≤ j) × (j ≤ i + left) × Idle (reads j)
unfolding injection_drain_from
polls_found reads zero i h = elim (Bool-cases (reads i == stop_bit || reads i == 0)) [
  | inl idle ↦ (i, omega arith, omega arith, (Idle-test (reads i)).0 idle)
  | inr busy ↦ absurd (ground arith)
]
polls_found reads (suc left) i h = elim (Bool-cases (reads i == stop_bit || reads i == 0)) [
  | inl idle ↦ (i, omega arith, omega arith, (Idle-test (reads i)).0 idle)
  | inr busy ↦
      let (j, lo, hi, e) = polls_found reads left (i + 1) (ground arith) in
      (j, omega arith, omega arith, e)
]

polls_find :
    (reads : ℕ → ℕ) (left i j : ℕ)
    → i ≤ j
    → j ≤ i + left
    → Idle (reads j)
    → injection_drain_from reads left i ≡ status_success
unfolding injection_drain_from
polls_find reads zero i j lo hi e =
    let here : j ≡ i = omega arith in
    let idle : (reads i == stop_bit || reads i == 0) ≡ true =
      (Idle-test (reads i)).1 (subst (λ k. Idle (reads k)) here e) in
    rw idle refl
polls_find reads (suc left) i j lo hi e = elim (Bool-cases (reads i == stop_bit || reads i == 0)) [
  | inl idle ↦ rw idle refl
  | inr busy ↦ elim (ℕ_discrete j i) [
    | yes here ↦
        let idle = (Idle-test (reads i)).1 (subst (λ k. Idle (reads k)) here e) in
        absurd (ground arith)
    | no later ↦ rw busy (polls_find reads left (i + 1) j (omega arith) (omega arith) e)
  ]
]

-- `ShInjectionDrain` succeeds exactly when one of its polls, at most `retries` after the first, reads
-- no injection in flight, whether the gate is stopped or not.
pub injection_drain_iff :
    (reads : ℕ → ℕ) (retries : ℕ)
    → (injection_drain reads retries ≡ status_success) ↔ ((j : ℕ) × (j ≤ retries) × Idle (reads j))
unfolding injection_drain
injection_drain_iff reads retries = (forward, backward)
  where
    forward :
        injection_drain_from reads retries 0 ≡ status_success
        → (j : ℕ) × (j ≤ retries) × Idle (reads j)
    forward h = let (j, lo, hi, e) = polls_found reads retries 0 h in (j, omega arith, e)

    backward :
        (j : ℕ) × (j ≤ retries) × Idle (reads j)
        → injection_drain_from reads retries 0 ≡ status_success
    backward (j, hi, e) = polls_find reads retries 0 j (omega arith) (omega arith) e
