-- ===== src/Rules/Order/Insertion.antt =====
-- The in-place loops of `SkSortRules` as insertion into the reversed prefix of the array.
use shinken_sentinel.Prelude.{
  ℕ, suc, ◌+◌, ◌-◌, ◌≡◌, refl, List, [], ◌∷◌, some, Bool, true, false, if◌then◌else◌, get_or,
  get_elem?, set, length, arith, Bool-cases, inl, inr,
}
use shinken_sentinel.Rules.Order.{shift, sort_loop}

module _ {ℓ} {A : Type ℓ} where
  -- The list `r` reversed, in front of `ys`.
  abbrev pub rev_onto : List A → List A → List A
  rev_onto [] ys = ys
  rev_onto (x ∷ r) ys = rev_onto r (x ∷ ys)

  get_elem?-rev_onto :
      (r ys : List A) (k : ℕ) → get_elem? (rev_onto r ys) (length r + k) ≡ get_elem? ys k
  get_elem?-rev_onto [] ys k = let e : 0 + k ≡ k = omega arith in rw e
  get_elem?-rev_onto (x ∷ r) ys k =
      let e : suc (length r) + k ≡ length r + suc k = omega arith in
      rw e (get_elem?-rev_onto r (x ∷ ys) (suc k))

  get_or-rev_onto :
      (r ys : List A) (k : ℕ) (d : A) → get_or (rev_onto r ys) (length r + k) d ≡ get_or ys k d
  get_or-rev_onto [] ys k d = let e : 0 + k ≡ k = omega arith in rw e
  get_or-rev_onto (x ∷ r) ys k d =
      let e : suc (length r) + k ≡ length r + suc k = omega arith in
      rw e (get_or-rev_onto r (x ∷ ys) (suc k) d)

  set-rev_onto :
      (r ys : List A) (k : ℕ) (v : A)
      → set (rev_onto r ys) (length r + k) v ≡ rev_onto r (set ys k v)
  set-rev_onto [] ys k v = let e : 0 + k ≡ k = omega arith in rw e
  set-rev_onto (x ∷ r) ys k v =
      let e : suc (length r) + k ≡ length r + suc k = omega arith in
      rw e (set-rev_onto r (x ∷ ys) (suc k) v)

module _ {ℓ} {A : Type ℓ} (before : A → A → Bool) where
  -- Insertion into a prefix that is held in reverse.
  abbrev pub insert_back : A → List A → List A
  insert_back t [] = t ∷ []
  insert_back t (x ∷ r) = if before t x then x ∷ insert_back t r else t ∷ x ∷ r

  length-insert_back : (t : A) (r : List A) → length (insert_back t r) ≡ suc (length r)
  length-insert_back t [] = refl
  length-insert_back t (x ∷ r) = ground (arith, length-insert_back t r)

  shift-insert_back :
      (t c : A) (r post : List A)
      → shift before t (rev_onto r (c ∷ post)) (length r) ≡ rev_onto (insert_back t r) post
  unfolding shift
  shift-insert_back t c [] post = refl
  shift-insert_back t c (x ∷ r) post =
      let zeroth : length r + 0 ≡ length r = omega arith in
      let first : length r + 1 ≡ suc (length r) = omega arith in
      let got : get_or (rev_onto r (x ∷ c ∷ post)) (length r) t ≡ x =
        rw zeroth at (get_or-rev_onto r (x ∷ c ∷ post) 0 t) in
      let put : (v : A)
          → set (rev_onto r (x ∷ c ∷ post)) (suc (length r)) v ≡ rev_onto r (x ∷ v ∷ post) =
        λ v. rw first at (set-rev_onto r (x ∷ c ∷ post) 1 v) in
      elim (Bool-cases (before t x)) [
        | inl up ↦
            let test : before t (get_or (rev_onto r (x ∷ c ∷ post)) (length r) t) ≡ true =
              rw got up in
            rw (test, shift) (rw (got, put x, up) (shift-insert_back t x r (x ∷ post)))
        | inr stay ↦
            let test : before t (get_or (rev_onto r (x ∷ c ∷ post)) (length r) t) ≡ false =
              rw got stay in
            rw (test, shift) (rw (put t, stay))
      ]

  -- The prefix after the rest of the array has been inserted, in reverse.
  abbrev pub insert_rest : List A → List A → List A
  insert_rest r [] = r
  insert_rest r (y ∷ ys) = insert_rest (insert_back y r) ys

  sort_loop-insert_rest :
      (r ys : List A)
      → sort_loop before (length ys) (length r) (rev_onto r ys) ≡ rev_onto (insert_rest r ys) []
  unfolding sort_loop
  sort_loop-insert_rest r [] = refl
  sort_loop-insert_rest r (y ∷ ys) =
      let zeroth : length r + 0 ≡ length r = omega arith in
      let next : length r + 1 ≡ length (insert_back y r) = omega (arith, length-insert_back y r) in
      let got : get_elem? (rev_onto r (y ∷ ys)) (length r) ≡ some y =
        rw zeroth at (get_elem?-rev_onto r (y ∷ ys) 0) in
      rw (got, sort_loop)
        (rw (next, shift-insert_back y y r ys) (sort_loop-insert_rest (insert_back y r) ys))

  -- The whole sort, from index 1 on.
  pub sort_loop_lem :
      (x : A) (xs : List A)
      → sort_loop before (length (x ∷ xs) - 1) 1 (x ∷ xs) ≡ rev_onto (insert_rest (x ∷ []) xs) []
  sort_loop_lem x xs =
      let rounds : length (x ∷ xs) - 1 ≡ length xs = omega arith in
      rw rounds (sort_loop-insert_rest (x ∷ []) xs)
