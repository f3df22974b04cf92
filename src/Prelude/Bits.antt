-- ===== src/Prelude/Bits.antt =====
-- Single bits of a number, and what a test by `&` with one or two of them says.
use Prim.Native.Nat.{
  ℕ, zero, suc, ◌+◌, ◌-◌, ◌*◌, ◌/◌, ◌%◌, ◌≤◌, min, bit_and, digits, bit_and-bitwise,
}
use mathlib.Core.Path.{◌≡◌, refl, ap, ◌∙◌, sym}
use native.Mathlib.Omega.{arith}

-- One digit of the result, and the rest of the recursion that `bit_and` stands for, with its fuel last.
abbrev digit : ℕ → ℕ → ℕ → ℕ
digit rest x y = rest * 2 + min (x % 2) (y % 2)

abbrev common : ℕ → ℕ → ℕ → ℕ
common x y fuel = digits (λ _. zero) min fuel x y

common_none : (y fuel : ℕ) → common 0 y fuel ≡ 0
common_none y zero = refl
common_none y (suc fuel) = refl

-- Spare fuel is not used.
common_spare : (spare fuel x y : ℕ) → x ≤ fuel → common x y (fuel + spare) ≡ common x y fuel
common_spare spare fuel zero y h = common_none y (fuel + spare) ∙ sym (common_none y fuel)
common_spare spare zero (suc x) y h = absurd (omega arith)
common_spare spare (suc fuel) (suc x) y h =
    let one_more : suc fuel + spare ≡ suc (fuel + spare) = omega arith in
    ap (common (suc x) y) one_more
    ∙ ap (λ rest. digit rest (suc x) y) (common_spare spare fuel (suc x / 2) (y / 2) (omega arith))

-- The lowest bit, and the rest.
pub bit_and-halves : (a b : ℕ) → bit_and a b ≡ bit_and (a / 2) (b / 2) * 2 + min (a % 2) (b % 2)
bit_and-halves zero y =
    let whole : bit_and 0 y ≡ 0 = bit_and-bitwise 0 y in
    let rest : bit_and 0 (y / 2) ≡ 0 = bit_and-bitwise 0 (y / 2) in omega arith
bit_and-halves (suc x) y =
    let half = suc x / 2 in
    let spare = x - half in
    let split : half + spare ≡ x = omega arith in
    let fewer : common half (y / 2) x ≡ common half (y / 2) half =
      ap (common half (y / 2)) (sym split) ∙ common_spare spare half half (y / 2) (omega arith) in
    bit_and-bitwise (suc x) y
    ∙ ap (λ rest. digit rest (suc x) y) (fewer ∙ sym (bit_and-bitwise half (y / 2)))

abbrev pub pow2 : ℕ → ℕ
pow2 zero = 1
pow2 (suc k) = 2 * pow2 k

-- `a >> k`
abbrev pub halve : ℕ → ℕ → ℕ
halve zero a = a
halve (suc k) a = halve k (a / 2)

pub bit_and_shifted : (k a c : ℕ) → bit_and a (c * pow2 k) ≡ bit_and (halve k a) c * pow2 k
bit_and_shifted zero a c = let e : c * 1 ≡ c = omega arith in rw e (omega arith)
bit_and_shifted (suc k) a c =
    let half : c * (2 * pow2 k) / 2 ≡ c * pow2 k = omega arith in
    let even : c * (2 * pow2 k) % 2 ≡ 0 = omega arith in
    let step = bit_and-halves a (c * (2 * pow2 k)) in
    let ih = bit_and_shifted k (a / 2) c in
    let step' : bit_and a (c * (2 * pow2 k)) ≡ bit_and (a / 2) (c * pow2 k) * 2 =
      step ∙ rw (half, even) (omega arith) in
    step' ∙ omega (arith, ih)

halve_all : (k a : ℕ) → a ≤ k → halve k a ≡ 0
halve_all zero a h = omega arith
halve_all (suc k) a h = halve_all k (a / 2) (omega arith)

pub bit_and_nothing : (a : ℕ) → bit_and a 0 ≡ 0
bit_and_nothing a =
    let gone : bit_and (halve a a) 0 ≡ 0 =
      ap (λ t. bit_and t 0) (halve_all a a (omega arith)) ∙ bit_and-bitwise 0 0 in
    let zero_times : 0 * pow2 a ≡ 0 = omega arith in
    ap (bit_and a) (sym zero_times) ∙ bit_and_shifted a a 0 ∙ ap (λ t. t * pow2 a) gone ∙ zero_times

pub bit_and_three : (x : ℕ) → bit_and x 3 ≡ bit_and x 1 + bit_and x 2
bit_and_three x =
    let three : bit_and x 3 ≡ bit_and (x / 2) 1 * 2 + min (x % 2) 1 = bit_and-halves x 3 in
    let two : bit_and x 2 ≡ bit_and (x / 2) 1 * 2 + min (x % 2) 0 = bit_and-halves x 2 in
    let one : bit_and x 1 ≡ bit_and (x / 2) 0 * 2 + min (x % 2) 1 = bit_and-halves x 1 in
    omega (arith, bit_and_nothing (x / 2))

-- A test against two neighbouring bits is a test against each.
pub bit_and_pair :
    (k a : ℕ) → bit_and a (3 * pow2 k) ≡ bit_and a (1 * pow2 k) + bit_and a (2 * pow2 k)
bit_and_pair k a = omega (
  arith,
  bit_and_shifted k a 3,
  bit_and_shifted k a 1,
  bit_and_shifted k a 2,
  ap (λ t. t * pow2 k) (bit_and_three (halve k a)),
)

-- A mask that is even clears the lowest bit.
pub bit_and_cleared : (a m : ℕ) → m % 2 ≡ 0 → bit_and (bit_and a m) 1 ≡ 0
bit_and_cleared a m even =
    let one : bit_and (bit_and a m) 1 ≡ bit_and (bit_and a m / 2) 0 * 2 + min (bit_and a m % 2) 1 =
      bit_and-halves (bit_and a m) 1 in
    let none_ = bit_and_nothing (bit_and a m / 2) in
    let low = bit_and-halves a m in omega (arith, one, none_, low, even)
