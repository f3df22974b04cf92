-- ===== src/Rules/Hash.antt =====
-- rules/rule_match.c, `SkRuleHashAppPath`: FNV-1a 64 over the path with A-Z folded to lower case.
use shinken_sentinel.Prelude.{
  ℕ, ◌+◌, ◌-◌, ◌*◌, ◌%◌, ◌^◌, List, [], ◌∷◌, ◌&&◌, bit_xor, if◌then◌else◌, leb, ◌≡◌, refl, map, sym,
  ap, ap₂, ◌∙◌, arith, ◌<◌,
}

abbrev pub fnv_offset : ℕ
fnv_offset = 14695981039346656037

abbrev pub fnv_prime : ℕ
fnv_prime = 1099511628211

-- `c = (WCHAR)(c + ('a' - 'A'))` for a character of A-Z.
pub fold_case : ℕ → ℕ
fold_case c = if leb b'A' c && leb c b'Z' then (c + (b'a' - b'A')) % 2 ^ 16 else c

-- The body of the loop: `h ^= c; h *= SK_FNV1A64_PRIME`, in 64 bits.
pub hash_step : ℕ → ℕ → ℕ
hash_step h c = bit_xor h (fold_case c) * fnv_prime % 2 ^ 64

hash_loop : ℕ → List ℕ → ℕ
hash_loop h [] = h
hash_loop h (c ∷ path) = hash_loop (hash_step h c) path

-- The path is the `chars` characters at the pointer. NULL and a path of no characters give 0.
pub hash_app_path : List ℕ → ℕ
hash_app_path [] = 0
hash_app_path (c ∷ path) = hash_loop fnv_offset (c ∷ path)

-- The reference: FNV-1a over characters that are taken as they stand.
abbrev pub fnv1a : ℕ → List ℕ → ℕ
fnv1a h [] = h
fnv1a h (c ∷ path) = fnv1a (bit_xor h c * fnv_prime % 2 ^ 64) path

fold_case_twice : (c : ℕ) → fold_case (fold_case c) ≡ fold_case c
unfolding fold_case
fold_case_twice c = ground arith

hash_loop-eq-fnv1a : (h : ℕ) (path : List ℕ) → hash_loop h path ≡ fnv1a h (map fold_case path)
unfolding hash_loop hash_step
hash_loop-eq-fnv1a h [] = refl
hash_loop-eq-fnv1a h (c ∷ path) = hash_loop-eq-fnv1a (hash_step h c) path

hash_loop-lt : (h : ℕ) (path : List ℕ) → h < 2 ^ 64 → hash_loop h path < 2 ^ 64
unfolding hash_loop hash_step
hash_loop-lt h [] lt = lt
hash_loop-lt h (c ∷ path) lt = hash_loop-lt (hash_step h c) path (omega arith)

map_fold_twice : (path : List ℕ) → map fold_case (map fold_case path) ≡ map fold_case path
map_fold_twice [] = refl
map_fold_twice (c ∷ path) = ap₂ ◌∷◌ (fold_case_twice c) (map_fold_twice path)

-- The hash of a path that is not empty is FNV-1a 64 of the path with A-Z folded to lower case, it
-- fits a UINT64, and a path that is folded already has the same hash; the empty path has hash 0.
pub hash_app_path_lem :
    (c : ℕ) (path : List ℕ)
    → (hash_app_path (c ∷ path) ≡ fnv1a fnv_offset (map fold_case (c ∷ path)))
      × (hash_app_path (c ∷ path) < 2 ^ 64)
      × (hash_app_path (map fold_case (c ∷ path)) ≡ hash_app_path (c ∷ path))
      × (hash_app_path [] ≡ 0)
unfolding hash_app_path
hash_app_path_lem c path = (
  hash_loop-eq-fnv1a fnv_offset (c ∷ path),
  hash_loop-lt fnv_offset (c ∷ path) (omega arith),
  hash_loop-eq-fnv1a fnv_offset (map fold_case (c ∷ path))
      ∙ (ap (fnv1a fnv_offset) (map_fold_twice (c ∷ path))
          ∙ sym (hash_loop-eq-fnv1a fnv_offset (c ∷ path))),
  refl,
)
