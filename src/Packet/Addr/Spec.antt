-- ===== src/Packet/Addr/Spec.antt =====
-- `SkPkAddrMatch` against the bits of the two addresses.
use shinken_sentinel.Prelude.{
  ℕ, zero, suc, ◌+◌, ◌-◌, ◌*◌, ◌/◌, ◌%◌, ◌^◌, ◌<◌, ◌≤◌, ◌≡◌, refl, ◌↔◌, Bool, true, List, Option,
  some, none, false, ℕ_discrete, All, get_or, [], ◌∷◌, arith, dec_lt, bit_and,
}
use shinken_sentinel.Packet.Addr.{addr_width, same_bytes, same_tail, match_width, addr_match}
use shinken_sentinel.Packet.Addr.Bits.{byte_bit, high_of_bits, bits_of_high, masked_iff, high_eight}

-- Bit `i` of an address in network order.
abbrev pub addr_bit : List ℕ → ℕ → ℕ
addr_bit addr i = byte_bit (get_or addr (i / 8) 0) (i % 8)

abbrev pub IsBytes : List ℕ → Type 0
IsBytes = All (λ x. x < 256)

-- The first `n` bits of two addresses are the same.
abbrev pub SameBits : List ℕ → List ℕ → ℕ → Type 0
SameBits a r n = (i : ℕ) → i < n → addr_bit a i ≡ addr_bit r i

bytes_get : (xs : List ℕ) (i : ℕ) → IsBytes xs → get_or xs i 0 < 256
bytes_get [] i h = omega arith
bytes_get (x ∷ xs) zero h = h.0
bytes_get (x ∷ xs) (suc i) h = bytes_get xs i h.1

same_tail_zero : (a r : ℕ) → same_tail 0 a r ≡ true
unfolding same_tail
same_tail_zero a r = refl

same_tail-suc :
    (k a r : ℕ)
    → (same_tail (suc k) a r ≡ true)
      ↔ (bit_and a (0xff * 2 ^ (8 - suc k) % 256) ≡ bit_and r (0xff * 2 ^ (8 - suc k) % 256))
unfolding same_tail
same_tail-suc k a r = ground arith

same_tail_iff :
    (k a r : ℕ)
    → k < 8
    → a < 256
    → r < 256
    → (same_tail k a r ≡ true) ↔ ((j : ℕ) → j < k → byte_bit a j ≡ byte_bit r j)
same_tail_iff zero a r hk ha hr = (λ h j hj. absurd (omega arith), λ h. same_tail_zero a r)
same_tail_iff (suc k) a r hk ha hr = (
  λ h.
      bits_of_high a r (suc k) (omega arith)
        ((masked_iff (suc k) a r hk ha hr).0 ((same_tail-suc k a r).0 h)),
  λ h.
      (same_tail-suc k a r).1
        ((masked_iff (suc k) a r hk ha hr).1 (high_of_bits a r (suc k) ha hr (omega arith) h)),
)

module _ (a r : List ℕ) (ba : IsBytes a) (br : IsBytes r) where
  -- The bits of a prefix are those of its whole bytes and of the start of the next byte.
  SameBits-extend :
      (q k : ℕ)
      → k ≤ 8
      → SameBits a r (q * 8)
      → ((j : ℕ) → j < k → byte_bit (get_or a q 0) j ≡ byte_bit (get_or r q 0) j)
      → SameBits a r (q * 8 + k)
  SameBits-extend q k hk whole part i hi = elim (dec_lt i (q * 8)) [
    | yes below ↦ whole i below
    | no above ↦ let at : i / 8 ≡ q = omega arith in rw at (part (i % 8) (omega arith))
  ]

  SameBits-byte :
      (n q k : ℕ)
      → q * 8 + k ≤ n
      → k ≤ 8
      → SameBits a r n
      → (j : ℕ) → j < k
      → byte_bit (get_or a q 0) j ≡ byte_bit (get_or r q 0) j
  SameBits-byte n q k hn hk h j hj =
      let div : (q * 8 + j) / 8 ≡ q = omega arith in
      let rem : (q * 8 + j) % 8 ≡ j = omega arith in
      let at = h (q * 8 + j) (omega arith) in rw (div, rem) at at

  byte_eq_of_SameBits : (n q : ℕ) → q * 8 + 8 ≤ n → SameBits a r n → get_or a q 0 ≡ get_or r q 0
  byte_eq_of_SameBits n q hn h = omega (
    arith,
    high_eight (get_or a q 0),
    high_eight (get_or r q 0),
    high_of_bits (get_or a q 0) (get_or r q 0) 8 (bytes_get a q ba) (bytes_get r q br) (omega arith)
        (SameBits-byte n q 8 hn (omega arith) h),
  )

  same_bytes_sound :
      (n i : ℕ) → same_bytes n i a r ≡ true → SameBits a r (i * 8) → SameBits a r ((i + n) * 8)
  unfolding same_bytes
  same_bytes_sound zero i h done = λ j hj. done j (omega arith)
  same_bytes_sound (suc n) i h done =
      let head : get_or a i 0 ≡ get_or r i 0 = ground arith in
      let rest : same_bytes n (i + 1) a r ≡ true = ground arith in
      let next = SameBits-extend i 8 (omega arith) done (λ j hj. rw head) in
      λ j hj. same_bytes_sound n (i + 1) rest (λ m hm. next m (omega arith)) j (omega arith)

  same_bytes_complete : (n i : ℕ) → SameBits a r ((i + n) * 8) → same_bytes n i a r ≡ true
  unfolding same_bytes
  same_bytes_complete zero i h = refl
  same_bytes_complete (suc n) i h = ground (
    arith,
    byte_eq_of_SameBits ((i + suc n) * 8) i (omega arith) h,
    same_bytes_complete n (i + 1) (λ j hj. h j (omega arith)),
  )

  prefix_forward :
      (p : ℕ)
      → same_bytes (p / 8) 0 a r ≡ true
      → same_tail (p % 8) (get_or a (p / 8) 0) (get_or r (p / 8) 0) ≡ true
      → SameBits a r p
  prefix_forward p whole tail i hi =
      SameBits-extend (p / 8) (p % 8) (omega arith)
        (λ j hj. same_bytes_sound (p / 8) 0 whole (λ m hm. absurd (omega arith)) j (omega arith))
        ((same_tail_iff (p % 8) (get_or a (p / 8) 0) (get_or r (p / 8) 0) (omega arith)
            (bytes_get a (p / 8) ba) (bytes_get r (p / 8) br)).0
          tail)
        i (omega arith)

  prefix_tail :
      (p : ℕ) → SameBits a r p → same_tail (p % 8) (get_or a (p / 8) 0) (get_or r (p / 8) 0) ≡ true
  prefix_tail p h =
      (same_tail_iff (p % 8) (get_or a (p / 8) 0) (get_or r (p / 8) 0) (omega arith)
          (bytes_get a (p / 8) ba) (bytes_get r (p / 8) br)).1
        (SameBits-byte p (p / 8) (p % 8) (omega arith) (omega arith) h)

  match_width_iff : (p w : ℕ) → (match_width a r p w ≡ true) ↔ ((p ≤ w * 8) × SameBits a r p)
  unfolding match_width
  match_width_iff p w = (forward, backward)
    where
      forward : match_width a r p w ≡ true → (p ≤ w * 8) × SameBits a r p
      forward h = elim (ℕ_discrete p 0) [
        | yes none_set ↦ (omega arith, λ i hi. absurd (omega arith))
        | no some_set ↦ (ground arith, prefix_forward p (ground arith) (ground arith))
      ]

      backward : (p ≤ w * 8) × SameBits a r p → match_width a r p w ≡ true
      backward h =
          ground
            (arith, same_bytes_complete (p / 8) 0 (λ j hj. h.1 j (omega arith)), prefix_tail p h.1)

  -- For addresses of bytes, `SkPkAddrMatch` holds exactly when the family is known, the prefix is
  -- no longer than that family's address, and the first `p` bits of the two addresses agree.
  pub addr_match_iff :
      (p family : ℕ)
      → (addr_match a r p family ≡ true)
        ↔ ((w : ℕ) × (addr_width family ≡ some w) × (p ≤ w * 8) × SameBits a r p)
  unfolding addr_match
  addr_match_iff p family = (forward (addr_width family), λ h. backward (addr_width family) h)
    where
      decide : Option ℕ → Bool
      decide o = elim o [ none ↦ false | some w ↦ match_width a r p w ]

      forward :
          (o : Option ℕ) → decide o ≡ true → (w : ℕ) × (o ≡ some w) × (p ≤ w * 8) × SameBits a r p
      forward none h = absurd (ground arith)
      forward (some w) h = let (fits, same) = (match_width_iff p w).0 h in (w, refl, fits, same)

      backward :
          (o : Option ℕ) → (w : ℕ) × (o ≡ some w) × (p ≤ w * 8) × SameBits a r p → decide o ≡ true
      backward o (w, e, fits, same) = rw e ((match_width_iff p w).1 (fits, same))
