-- ===== src/Packet/Addr/Bits.antt =====
-- The bits of a byte, from the high end, and what the masked comparison says of them.
use shinken_sentinel.Prelude.{
  ℕ, zero, suc, ◌+◌, ◌-◌, ◌*◌, ◌/◌, ◌%◌, ◌^◌, ◌<◌, ◌≤◌, ◌≡◌, refl, Bool, true, false, ◌==◌, ==_iff,
  bit_and, arith, ◌↔◌, sym, ap, ◌∙◌, dec_lt, if◌then◌else◌, ℕ_discrete,
}

-- Bit `k` of a byte, counted from the most significant.
unfoldable pub byte_bit : ℕ → ℕ → ℕ
byte_bit x k = x / 2 ^ (7 - k) % 2

-- The number that the first `k` bits of a byte spell.
unfoldable pub high : ℕ → ℕ → ℕ
high x k = x / 2 ^ (8 - k)

byte_bit_lt : (x k : ℕ) → byte_bit x k < 2
unfolding byte_bit
byte_bit_lt x k = omega arith

high-zero : (x : ℕ) → x < 256 → high x 0 ≡ 0
unfolding high
high-zero x h = omega arith

pub high_eight : (x : ℕ) → high x 8 ≡ x
unfolding high
high_eight x = omega arith

pub high-suc : (x k : ℕ) → k < 8 → high x (suc k) ≡ high x k * 2 + byte_bit x k
unfolding high byte_bit
high-suc x zero h = omega arith
high-suc x (suc zero) h = omega arith
high-suc x (suc (suc zero)) h = omega arith
high-suc x (suc (suc (suc zero))) h = omega arith
high-suc x (suc (suc (suc (suc zero)))) h = omega arith
high-suc x (suc (suc (suc (suc (suc zero))))) h = omega arith
high-suc x (suc (suc (suc (suc (suc (suc zero)))))) h = omega arith
high-suc x (suc (suc (suc (suc (suc (suc (suc zero))))))) h = omega arith
high-suc x (suc (suc (suc (suc (suc (suc (suc (suc k)))))))) h = absurd (omega arith)

pub high_of_bits :
    (x y k : ℕ)
    → x < 256
    → y < 256
    → k ≤ 8
    → ((j : ℕ) → j < k → byte_bit x j ≡ byte_bit y j)
    → high x k ≡ high y k
high_of_bits x y zero hx hy hk h = omega (arith, high-zero x, high-zero y)
high_of_bits x y (suc k) hx hy hk h = omega (
  arith,
  high-suc x k,
  high-suc y k,
  h k (omega arith),
  high_of_bits x y k hx hy (omega arith) (λ j hj. h j (omega arith)),
)

pub bits_of_high :
    (x y k : ℕ) → k ≤ 8 → high x k ≡ high y k → (j : ℕ) → j < k → byte_bit x j ≡ byte_bit y j
bits_of_high x y zero hk e j hj = absurd (omega arith)
bits_of_high x y (suc k) hk e j hj = elim (dec_lt j k) [
  | yes below ↦
      bits_of_high x y k (omega arith)
        (omega (arith, high-suc x k, high-suc y k, byte_bit_lt x k, byte_bit_lt y k)) j below
  | no last ↦
      let same : j ≡ k = omega arith in
      rw same (omega (arith, high-suc x k, high-suc y k, byte_bit_lt x k, byte_bit_lt y k))
]

-- Over a small range, every value is checked by evaluation.
-- A test of every number that is smaller than a bound, the largest first.
sweep : (ℕ → Bool) → ℕ → Bool
sweep test zero = true
sweep test (suc top) = if test top then sweep test top else false

sweep_lem : (test : ℕ → Bool) (top k : ℕ) → k < top → sweep test top ≡ true → test k ≡ true
unfolding sweep
sweep_lem test zero k small passed = absurd (omega arith)
sweep_lem test (suc top) k small passed = elim (ℕ_discrete k top) [
  | yes last ↦ rw last (ground arith)
  | no before ↦ sweep_lem test top k (omega arith) (ground arith)
]

abbrev mask_row : ℕ → ℕ → Bool
mask_row k x = bit_and x (0xff * 2 ^ (8 - k) % 256) == high x k * 2 ^ (8 - k)

mask_table : sweep (λ k. sweep (mask_row k) 256) 9 ≡ true
unfolding sweep high
mask_table = refl

bit_and_mask :
    (k x : ℕ) → k < 9 → x < 256 → bit_and x (0xff * 2 ^ (8 - k) % 256) ≡ high x k * 2 ^ (8 - k)
bit_and_mask k x hk hx =
    (==_iff _ _).0
      (sweep_lem (mask_row k) 256 x hx (sweep_lem (λ k. sweep (mask_row k) 256) 9 k hk mask_table))

pow_cancel : (k x y : ℕ) → k < 8 → x * 2 ^ (8 - k) ≡ y * 2 ^ (8 - k) → x ≡ y
pow_cancel zero x y h e = omega arith
pow_cancel (suc zero) x y h e = omega arith
pow_cancel (suc (suc zero)) x y h e = omega arith
pow_cancel (suc (suc (suc zero))) x y h e = omega arith
pow_cancel (suc (suc (suc (suc zero)))) x y h e = omega arith
pow_cancel (suc (suc (suc (suc (suc zero))))) x y h e = omega arith
pow_cancel (suc (suc (suc (suc (suc (suc zero)))))) x y h e = omega arith
pow_cancel (suc (suc (suc (suc (suc (suc (suc zero))))))) x y h e = omega arith
pow_cancel (suc (suc (suc (suc (suc (suc (suc (suc k)))))))) x y h e = absurd (omega arith)

-- The masked comparison of two bytes compares their first `k` bits.
pub masked_iff :
    (k a r : ℕ)
    → k < 8
    → a < 256
    → r < 256
    → (bit_and a (0xff * 2 ^ (8 - k) % 256) ≡ bit_and r (0xff * 2 ^ (8 - k) % 256))
      ↔ (high a k ≡ high r k)
masked_iff k a r hk ha hr = (
  λ e.
      pow_cancel k (high a k) (high r k) hk
        (sym (bit_and_mask k a (omega arith) ha) ∙ (e ∙ bit_and_mask k r (omega arith) hr)),
  λ e.
      bit_and_mask k a (omega arith) ha
      ∙ (ap (λ h. h * 2 ^ (8 - k)) e ∙ sym (bit_and_mask k r (omega arith) hr)),
)
