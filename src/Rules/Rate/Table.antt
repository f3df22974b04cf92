-- ===== src/Rules/Rate/Table.antt =====
-- Which entry of the table the search finds, and what a write to it leaves alone.
use shinken_sentinel.Prelude.{
  ℕ, zero, suc, ◌+◌, ◌≤◌, ◌≡◌, ◌≢◌, refl, [], ◌∷◌, Option, none, some, Bool, true, false,
  if◌then◌else◌, get_elem?, set, length, arith, Bool-cases, inl, inr, ap,
}
use shinken_sentinel.Rules.Rate.{RateEntry, RateTable, rate_table_size, holds, remember, find_slot}

-- The bucket of a rule: its first entry that is in use.
abbrev pub bucket : ℕ → RateTable → Option RateEntry
bucket id [] = none
bucket id (e ∷ table) = if holds id e then some e else bucket id table

pub holds_ne : (id j : ℕ) (e : RateEntry) → holds id e ≡ true → j ≢ id → holds j e ≡ false
unfolding holds
holds_ne id j e h ne = ground arith

pub holds_free : (id : ℕ) (e : RateEntry) → e.in_use ≡ false → holds id e ≡ false
unfolding holds
holds_free id e h = ground arith

pub bucket-holds :
    (id : ℕ) (t : RateTable) (e : RateEntry) → bucket id t ≡ some e → holds id e ≡ true
bucket-holds id [] e h = absurd (ground arith)
bucket-holds id (x ∷ t) e h = elim (Bool-cases (holds id x)) [
  | inl here ↦ let same : x ≡ e = ground arith in rw (← same) here
  | inr past ↦ bucket-holds id t e (rw past at h)
]

-- A write at index `k` gives the rule `id` the bucket `e` and leaves every other rule's.
abbrev pub Puts : ℕ → RateTable → ℕ → Type 0
Puts id t k =
    (e : RateEntry)
    → holds id e ≡ true
    → (bucket id (set t k e) ≡ some e) × ((j : ℕ) → j ≢ id → bucket j (set t k e) ≡ bucket j t)

Puts-head :
    (id : ℕ) (x : RateEntry) (t : RateTable)
    → ((j : ℕ) → j ≢ id → holds j x ≡ false)
    → Puts id (x ∷ t) 0
Puts-head id x t other e h = (rw h, λ j ne. rw (holds_ne id j e h ne, other j ne))

Puts-tail :
    (id : ℕ) (x : RateEntry) (t : RateTable) (k : ℕ)
    → holds id x ≡ false
    → Puts id t k
    → Puts id (x ∷ t) (suc k)
Puts-tail id x t k past puts e h =
    (rw past (puts e h).0, λ j ne. ap (λ o. if holds j x then some x else o) ((puts e h).1 j ne))

-- The slot is index `at` of the table, which holds `e`, and a write there serves the rule.
pub record Slot (id : ℕ) (t : RateTable) (i slot : ℕ) (e : RateEntry) : Type 0 where
  pub at : ℕ
  pub slot_at : slot ≡ i + at
  pub reads : get_elem? t at ≡ some e
  pub puts : Puts id t at

Slot-tail :
    {id : ℕ} (x : RateEntry) {t : RateTable} {i slot : ℕ} {e : RateEntry}
    → holds id x ≡ false
    → Slot id t (i + 1) slot e
    → Slot id (x ∷ t) i slot e
Slot-tail {id} x {t} past s = record {
  at = suc s.at;
  slot_at = omega (arith, s.slot_at);
  reads = s.reads;
  puts = Puts-tail id x t s.at past s.puts;
}

-- A rule with a bucket gets the slot of its bucket.
pub find_slot_used :
    (id : ℕ) (t : RateTable) (i s : ℕ) (e : RateEntry)
    → bucket id t ≡ some e
    → Slot id t i (find_slot t i s id) e
unfolding find_slot
find_slot_used id [] i s e h = absurd (ground arith)
find_slot_used id (x ∷ t) i s e h = elim (Bool-cases (holds id x)) [
  | inl here ↦ rw here (record {
    at = 0;
    slot_at = omega arith;
    reads = rw here at h;
    puts = Puts-head id x t (λ j ne. holds_ne id j x here ne);
  })
  | inr past ↦ rw past (Slot-tail x past (find_slot_used id t (i + 1) _ e (rw past at h)))
]

-- The first entry that is not in use.
abbrev pub first_free : RateTable → Option RateEntry
first_free [] = none
first_free (e ∷ table) = if e.in_use then first_free table else some e

remember_kept : (u : Bool) (s i : ℕ) → s ≢ rate_table_size → remember u s i ≡ s
unfolding remember
remember_kept u s i ne = ground arith

remember_used : (u : Bool) (s i : ℕ) → u ≡ true → remember u s i ≡ s
unfolding remember
remember_used u s i h = ground arith

remember_first : (u : Bool) (i : ℕ) → u ≡ false → remember u rate_table_size i ≡ i
unfolding remember
remember_first u i h = ground arith

-- A rule without a bucket is not in the head of the table, nor in the rest.
bucket-none :
    (id : ℕ) (x : RateEntry) (t : RateTable)
    → bucket id (x ∷ t) ≡ none
    → (holds id x ≡ false) × (bucket id t ≡ none)
bucket-none id x t h = ground arith

-- Once a free slot is remembered, the search keeps it unless the rule has a bucket.
find_slot_kept :
    (id : ℕ) (t : RateTable) (i s : ℕ)
    → s ≢ rate_table_size
    → bucket id t ≡ none
    → find_slot t i s id ≡ s
unfolding find_slot
find_slot_kept id [] i s ne h = refl
find_slot_kept id (x ∷ t) i s ne h =
    let (past, rest) = bucket-none id x t h in
    rw (past, remember_kept x.in_use s i ne) (find_slot_kept id t (i + 1) s ne rest)

first_free_head :
    (x : RateEntry) (t : RateTable) (e : RateEntry)
    → x.in_use ≡ false
    → first_free (x ∷ t) ≡ some e
    → some x ≡ some e
first_free_head x t e free f = ground arith

-- A rule without a bucket gets the first free slot.
pub find_slot_free :
    (id : ℕ) (t : RateTable) (i : ℕ) (e : RateEntry)
    → i + length t ≤ rate_table_size
    → bucket id t ≡ none
    → first_free t ≡ some e
    → Slot id t i (find_slot t i rate_table_size id) e
unfolding find_slot
find_slot_free id [] i e fits h f = absurd (ground arith)
find_slot_free id (x ∷ t) i e fits h f =
    let (past, rest) = bucket-none id x t h in
    elim (Bool-cases x.in_use) [
      | inl used ↦
          rw (past, remember_used x.in_use rate_table_size i used)
            (Slot-tail x past (find_slot_free id t (i + 1) e (omega arith) rest (rw used at f)))
      | inr free ↦
          rw (past, remember_first x.in_use i free)
            (rw (find_slot_kept id t (i + 1) i (omega arith) rest) (record {
              at = 0;
              slot_at = omega arith;
              reads = first_free_head x t e free f;
              puts = Puts-head id x t (λ j ne. holds_free j x free);
            }))
    ]

-- With no bucket and no free entry the slot is past the end of a whole table.
pub find_slot_full :
    (id : ℕ) (t : RateTable) (i : ℕ)
    → bucket id t ≡ none
    → first_free t ≡ none
    → find_slot t i rate_table_size id ≡ rate_table_size
unfolding find_slot
find_slot_full id [] i h f = refl
find_slot_full id (x ∷ t) i h f =
    let (past, rest) = bucket-none id x t h in
    let (used, others) = full_cons x t f in
    rw (past, remember_used x.in_use rate_table_size i used)
      (find_slot_full id t (i + 1) rest others)
  where
    full_cons :
        (x : RateEntry) (t : RateTable)
        → first_free (x ∷ t) ≡ none
        → (x.in_use ≡ true) × (first_free t ≡ none)
    full_cons x t h = ground arith

pub get_elem?_past : (t : RateTable) (k : ℕ) → length t ≤ k → get_elem? t k ≡ none
get_elem?_past [] k h = refl
get_elem?_past (x ∷ t) zero h = absurd (omega arith)
get_elem?_past (x ∷ t) (suc k) h = get_elem?_past t k (omega arith)

pub first_free-free : (t : RateTable) (e : RateEntry) → first_free t ≡ some e → e.in_use ≡ false
first_free-free [] e f = absurd (ground arith)
first_free-free (x ∷ t) e f = elim (Bool-cases x.in_use) [
  | inl used ↦ first_free-free t e (rw used at f)
  | inr free ↦ let same : x ≡ e = ground (arith, first_free_head x t e free f) in rw (← same) free
]
