-- ===== src/Rules/Rate/Inv.antt =====
-- No two entries in use belong to one rule: kept by `SkRateAllow` and `SkRuleRateReset`.
use shinken_sentinel.Prelude.{
  ℕ, zero, suc, ◌≤◌, ◌≡◌, ◌≢◌, refl, [], ◌∷◌, Option, none, some, true, false, get_elem?, set,
  length, arith, Bool-cases, inl, inr, ◌⊎◌, ap, sym, ◌∙◌,
}
use shinken_sentinel.Rules.Types.{Rule}
use shinken_sentinel.Rules.Rate.{
  RateEntry, RateTable, rate_table_size, holds, find_slot, bucket_step, use_slot, rate_allow,
  rate_reset,
}
use shinken_sentinel.Rules.Rate.Table.{
  bucket, bucket-holds, holds_ne, holds_free, find_slot_used, first_free, first_free-free,
  find_slot_free, find_slot_full, get_elem?_past,
}
use shinken_sentinel.Rules.Rate.Spec.{bucket_step-holds, started-holds}
use shinken_sentinel.Rules.Rate.Bucket.{fresh_step}
use mathlib.Core.Bool.{false≢true}

abbrev pub Distinct : RateTable → Type 0
Distinct [] = Unit
Distinct (e ∷ t) = (e.in_use ≡ true → bucket e.rule_id t ≡ none) × Distinct t

pub holds_own : (id : ℕ) (e : RateEntry) → holds id e ≡ true → (e.in_use ≡ true) × (e.rule_id ≡ id)
unfolding holds
holds_own id e h = ground arith

holds_as : (id : ℕ) (e : RateEntry) → e.in_use ≡ true → e.rule_id ≡ id → holds id e ≡ true
unfolding holds
holds_as id e h same = ground arith

-- What a call leaves at the slot it found: an entry of the rule where there was one of the rule or a
-- free one.
abbrev Fits : ℕ → RateTable → RateEntry → Type 0
Fits id t e = (holds id e ≡ true) ⊎ ((e.in_use ≡ false) × (bucket id t ≡ none))

bucket-set_other :
    (id j k : ℕ) (t : RateTable) (e e' : RateEntry)
    → get_elem? t k ≡ some e
    → holds j e ≡ false
    → holds j e' ≡ false
    → bucket j (set t k e') ≡ bucket j t
bucket-set_other id j k [] e e' g h h' = refl
bucket-set_other id j zero (x ∷ t) e e' g h h' = let same : x ≡ e = ground arith in rw (h', same, h)
bucket-set_other id j (suc k) (x ∷ t) e e' g h h' = rw (bucket-set_other id j k t e e' g h h')

-- A rule with an entry in the table has a bucket.
bucket-some :
    (id k : ℕ) (t : RateTable) (e : RateEntry)
    → get_elem? t k ≡ some e
    → holds id e ≡ true
    → bucket id t ≢ none
bucket-some id k [] e g h b = cc
bucket-some id zero (x ∷ t) e g h b =
    let same : x ≡ e = ground arith in let here : holds id x ≡ true = rw same h in ground arith
bucket-some id (suc k) (x ∷ t) e g h b = bucket-some id k t e g h (rest b)
  where
    rest : bucket id (x ∷ t) ≡ none → bucket id t ≡ none
    rest b = ground arith

Fits-tail :
    (id : ℕ) (x : RateEntry) (t : RateTable) (e : RateEntry) → Fits id (x ∷ t) e → Fits id t e
Fits-tail id x t e (inl h) = inl h
Fits-tail id x t e (inr h) = inr (h.0, ground (arith, h.1))

-- An entry that fits belongs to no other rule.
Fits-other : (id j : ℕ) (t : RateTable) (e : RateEntry) → Fits id t e → j ≢ id → holds j e ≡ false
Fits-other id j t e (inl h) ne = holds_ne id j e h ne
Fits-other id j t e (inr h) ne = holds_free j e h.0

Distinct-set :
    (id k : ℕ) (t : RateTable) (e e' : RateEntry)
    → holds id e' ≡ true
    → Distinct t
    → get_elem? t k ≡ some e
    → Fits id t e
    → Distinct (set t k e')
Distinct-set id k [] e e' h d g f = tt
Distinct-set id zero (x ∷ t) e e' h d g f =
    let same : x ≡ e = ground arith in
    let own = holds_own id e' h in (λ live. rw own.1 (tail_none same f), d.1)
  where
    tail_none : x ≡ e → Fits id (x ∷ t) e → bucket id t ≡ none
    tail_none same (inl he) =
        let old : holds id x ≡ true = rw same he in
        let (live, is_id) = holds_own id x old in rw is_id at (d.0 live)
    tail_none same (inr (free, absent)) = ground arith
Distinct-set id (suc k) (x ∷ t) e e' h d g f =
    (head, Distinct-set id k t e e' h d.1 g (Fits-tail id x t e f))
  where
    -- the head is not of the rule: the slot is further down
    head_ne : Fits id (x ∷ t) e → x.in_use ≡ true → x.rule_id ≢ id
    head_ne (inl he) live same = bucket-some id k t e g he (rw same at (d.0 live))
    head_ne (inr (free, absent)) live same =
        let here : holds id x ≡ true = holds_as id x live same in ground arith

    head : x.in_use ≡ true → bucket x.rule_id (set t k e') ≡ none
    head live =
        let ne = head_ne f live in
        rw
          (bucket-set_other id x.rule_id k t e e' g (Fits-other id x.rule_id (x ∷ t) e f ne)
            (holds_ne id x.rule_id e' h ne))
          (d.0 live)

Distinct-use_slot :
    (now : ℕ) (rule : Rule) (t : RateTable) (slot : ℕ) (o : Option RateEntry)
    → Distinct t
    → get_elem? t slot ≡ o
    → ((e : RateEntry)
        → o ≡ some e
        → (holds rule.rule_id (bucket_step now rule e).1 ≡ true) × Fits rule.rule_id t e)
    → Distinct (use_slot now rule t slot o).1
unfolding use_slot
Distinct-use_slot now rule t slot none d g f = d
Distinct-use_slot now rule t slot (some e) d g f =
    Distinct-set rule.rule_id slot t e (bucket_step now rule e).1 (f e refl).0 d g (f e refl).1

module _ (now : ℕ) (rule : Rule) (t : RateTable) (size : length t ≤ rate_table_size) where
  -- The entry at the slot is the rule's, or a free one where the rule has none.
  slot-Fits :
      (e : RateEntry)
      → get_elem? t (find_slot t 0 rate_table_size rule.rule_id) ≡ some e
      → (holds rule.rule_id (bucket_step now rule e).1 ≡ true) × Fits rule.rule_id t e
  slot-Fits e g = go (bucket rule.rule_id t) refl
    where
      read_used : (b : RateEntry) → bucket rule.rule_id t ≡ some b → some e ≡ some b
      read_used b h =
          let s = find_slot_used rule.rule_id t 0 rate_table_size b h in
          let at : find_slot t 0 rate_table_size rule.rule_id ≡ s.at = omega (arith, s.slot_at) in
          sym g ∙ (ap (get_elem? t) at ∙ s.reads)

      read_free :
          (b : RateEntry) → bucket rule.rule_id t ≡ none → first_free t ≡ some b → some e ≡ some b
      read_free b h f =
          let s = find_slot_free rule.rule_id t 0 b (omega arith) h f in
          let at : find_slot t 0 rate_table_size rule.rule_id ≡ s.at = omega (arith, s.slot_at) in
          sym g ∙ (ap (get_elem? t) at ∙ s.reads)

      free_step :
          (b : RateEntry) → b.in_use ≡ false → holds rule.rule_id (bucket_step now rule b).1 ≡ true
      free_step b h = rw (fresh_step rule now b h) (started-holds now rule t)

      split :
          (o : Option RateEntry)
          → bucket rule.rule_id t ≡ none
          → first_free t ≡ o
          → (holds rule.rule_id (bucket_step now rule e).1 ≡ true) × Fits rule.rule_id t e
      split none h f =
          let full = find_slot_full rule.rule_id t 0 h f in
          let out : get_elem? t rate_table_size ≡ some e = rw full at g in
          absurd (false≢true (ground (arith, get_elem?_past t rate_table_size size)))
      split (some b) h f =
          let same : e ≡ b = ground (arith, read_free b h f) in
          let free : e.in_use ≡ false = rw same (first_free-free t b f) in
          (free_step e free, inr (free, h))

      go :
          (o : Option RateEntry)
          → bucket rule.rule_id t ≡ o
          → (holds rule.rule_id (bucket_step now rule e).1 ≡ true) × Fits rule.rule_id t e
      go none h = split (first_free t) h refl
      go (some b) h =
          let same : e ≡ b = ground (arith, read_used b h) in
          let own : holds rule.rule_id e ≡ true = rw same (bucket-holds rule.rule_id t b h) in
          (bucket_step-holds now rule t e own, inl own)

  -- `SkRateAllow` keeps at most one entry in use for each rule, in a table of at most 64 entries.
  pub Distinct-rate_allow : Distinct t → Distinct (rate_allow now rule t).1
  unfolding rate_allow
  Distinct-rate_allow d =
      Distinct-use_slot now rule t (find_slot t 0 rate_table_size rule.rule_id) _ d refl slot-Fits

bucket-rate_reset_other :
    (id j : ℕ) (t : RateTable) → j ≢ id → bucket j (rate_reset id t) ≡ bucket j t
unfolding rate_reset
bucket-rate_reset_other id j [] ne = refl
bucket-rate_reset_other id j (x ∷ t) ne = elim (Bool-cases (holds id x)) [
  | inl here ↦ rw (here, holds_ne id j x here ne)
  | inr past ↦ rw past (rw (bucket-rate_reset_other id j t ne))
]

bucket-rate_reset_self : (id : ℕ) (t : RateTable) → Distinct t → bucket id (rate_reset id t) ≡ none
unfolding rate_reset
bucket-rate_reset_self id [] d = refl
bucket-rate_reset_self id (x ∷ t) d = elim (Bool-cases (holds id x)) [
  | inl here ↦ let (live, is_id) = holds_own id x here in rw here (rw is_id at (d.0 live))
  | inr past ↦ rw past (rw past (bucket-rate_reset_self id t d.1))
]

Distinct-rate_reset : (id : ℕ) (t : RateTable) → Distinct t → Distinct (rate_reset id t)
unfolding rate_reset
Distinct-rate_reset id [] d = tt
Distinct-rate_reset id (x ∷ t) d = elim (Bool-cases (holds id x)) [
  | inl here ↦ rw here (λ live. cc, d.1)
  | inr past ↦ rw past (
    (λ live.
        rw
          (bucket-rate_reset_other id x.rule_id t
            (λ e. false≢true (sym past ∙ holds_as id x live e)))
          (d.0 live)),
    Distinct-rate_reset id t d.1,
  )
]

length-rate_reset : (id : ℕ) (t : RateTable) → length (rate_reset id t) ≡ length t
unfolding rate_reset
length-rate_reset id [] = refl
length-rate_reset id (x ∷ t) = elim (Bool-cases (holds id x)) [
  | inl here ↦ rw here
  | inr past ↦ rw past (ap suc (length-rate_reset id t))
]

-- In a table with at most one entry in use for each rule, `SkRuleRateReset` takes the rule's bucket
-- away and leaves every other bucket, and the table has again at most one entry for each rule.
pub rate_reset_lem :
    (id : ℕ) (t : RateTable)
    → Distinct t
    → (bucket id (rate_reset id t) ≡ none)
      × ((j : ℕ) → j ≢ id → bucket j (rate_reset id t) ≡ bucket j t)
      × Distinct (rate_reset id t)
      × (length (rate_reset id t) ≡ length t)
rate_reset_lem id t d = (
  bucket-rate_reset_self id t d,
  λ j ne. bucket-rate_reset_other id j t ne,
  Distinct-rate_reset id t d,
  length-rate_reset id t,
)
