-- ===== src/Control/Wire/Laws.antt =====
-- Which buffers the walk over the wires accepts.
use shinken_sentinel.Prelude.{
  ℕ, zero, suc, ◌+◌, ◌-◌, ◌*◌, ◌%◌, ◌≤◌, ◌<◌, ◌≡◌, ◌⊎◌, refl, ap, ◌∙◌, List, [], ◌∷◌, some, arith,
  length,
}
use shinken_sentinel.Rules.Types.{Rule}
use shinken_sentinel.Rules.Store.Binds.{>>=-eq-some}
use shinken_sentinel.Control.Wire.{
  Bytes, path_chars, path_offset, validate_wire, convert_wire, walk_wires,
}

-- A wire of n bytes at an address with `remaining` bytes behind it: without a path it is the bare record, with
-- a path the path is aligned, stands behind the record and ends the wire.
pub record Conforms (m : Bytes) (cur remaining n : ℕ) : Type 0 where
  pub room : 184 ≤ remaining
  pub shape :
      ((path_chars m cur ≡ 0) × (path_offset m cur ≡ 0) × (n ≡ 184))
      ⊎ ((0 < path_chars m cur)
          × (path_chars m cur ≤ 260)
          × (184 ≤ path_offset m cur)
          × (path_offset m cur % 2 ≡ 0)
          × (n ≡ path_offset m cur + 2 * path_chars m cur)
          × (n ≤ remaining))

pub Conforms-of :
    (m : Bytes) (cur remaining n : ℕ)
    → validate_wire m cur remaining ≡ some n
    → Conforms m cur remaining n
unfolding validate_wire
Conforms-of m cur remaining n h = ground arith

pub validate_wire-of :
    (m : Bytes) (cur remaining n : ℕ)
    → Conforms m cur remaining n
    → validate_wire m cur remaining ≡ some n
unfolding validate_wire
validate_wire-of m cur remaining n h = ground (arith, h.shape)

-- These bytes are the wires of these rules, one behind the other and nothing after them.
pub data Area (m : Bytes) : ℕ → ℕ → List Rule → Type 0 where
  end : {cur remaining : ℕ} → remaining ≡ 0 → Area m cur remaining []
  wire :
      {cur remaining : ℕ} {rules : List Rule} (n : ℕ)
      → Conforms m cur remaining n
      → Area m (cur + n) (remaining - n) rules
      → Area m cur remaining (convert_wire m cur ∷ rules)

pub Area-of :
    (count : ℕ) (m : Bytes) (cur remaining : ℕ) (rules : List Rule)
    → walk_wires count m cur remaining ≡ some (rules, 0)
    → Area m cur remaining rules × (length rules ≡ count)
unfolding walk_wires
Area-of zero m cur remaining rules h =
    let none_left : rules ≡ [] = ground arith in rw none_left (Area.end (ground arith), refl)
Area-of (suc count) m cur remaining rules h =
    let (n, valid, h') = >>=-eq-some (validate_wire m cur remaining) _ h in
    let (r, walked, h'') = >>=-eq-some (walk_wires count m (cur + n) (remaining - n)) _ h' in
    let first : rules ≡ convert_wire m cur ∷ r.0 = ground arith in
    let rest : walk_wires count m (cur + n) (remaining - n) ≡ some (r.0, 0) =
      walked ∙ ground arith in
    let (area, size) = Area-of count m (cur + n) (remaining - n) r.0 rest in
    rw first (Area.wire n (Conforms-of m cur remaining n valid) area, ap suc size)

pub walk_wires-of :
    (m : Bytes) (cur remaining : ℕ) (rules : List Rule)
    → Area m cur remaining rules
    → walk_wires (length rules) m cur remaining ≡ some (rules, 0)
unfolding walk_wires
walk_wires-of m cur remaining _ (Area.end e) = rw e refl
walk_wires-of m cur remaining _ (Area.wire n c rest) =
    rw (validate_wire-of m cur remaining n c, walk_wires-of m (cur + n) (remaining - n) _ rest) refl
