-- ===== src/Telemetry/Ring/Laws.antt =====
-- What a flush of the ring gives back of the records that went in.
use shinken_sentinel.Prelude.{
  ℕ, zero, suc, ◌+◌, ◌-◌, ◌%◌, ◌^◌, ◌≤◌, ◌<◌, ◌≡◌, refl, ap, ◌∙◌, List, [], ◌∷◌, arith, length,
}
use shinken_sentinel.Telemetry.Ring.{
  Payload, Ring, ring_init, copy_bytes, set_at, is_odd_size, sink, smaller, copy_rows, flush,
}

-- The ring after these records, the newest first.
unfoldable pub after_records : List Payload → Ring
after_records [] = ring_init
after_records (p ∷ ps) = sink p (after_records ps)

pub data At : ℕ → Payload → List Payload → Type 0 where
  newest : {p : Payload} {ps : List Payload} → At 0 p (p ∷ ps)
  older : {k : ℕ} {p q : Payload} {ps : List Payload} → At k p ps → At (suc k) p (q ∷ ps)

pub data AllFit : List Payload → Type 0 where
  no_more : AllFit []
  fits : {p : Payload} {ps : List Payload} → 0 < p.size → p.size ≤ 80 → AllFit ps → AllFit (p ∷ ps)

pub set_here : {A : Type 0} (i : ℕ) (x : A) (f : ℕ → A) (k : ℕ) → k ≡ i → set_at i x f k ≡ x
unfolding set_at
set_here i x f k h = ground arith

pub set_away : {A : Type 0} (i : ℕ) (x : A) (f : ℕ → A) (k : ℕ) → (k ≡ i → ⊥) → set_at i x f k ≡ f k
unfolding set_at
set_away i x f k h = ground arith

copied : (n : ℕ) (from to : ℕ → ℕ) (j : ℕ) → j < n → copy_bytes n from to j ≡ from j
unfolding copy_bytes
copied n from to j h = ground arith

sink_lem :
    (p : Payload) (r : Ring)
    → 0 < p.size
    → p.size ≤ 80
    → sink p r ≡ record {
      slots = set_at r.head (copy_bytes p.size p.byte (r.slots r.head)) r.slots;
      sizes = set_at r.head p.size r.sizes;
      head = (r.head + 1) % 1024;
      total = (r.total + 1) % 2 ^ 64;
    }
unfolding sink is_odd_size
sink_lem p r h k = ground arith

-- The ring holds the last 1024 of these records.
record Holds (ps : List Payload) (r : Ring) : Type 0 where
  head_at : r.head ≡ length ps % 1024
  counted : r.total ≡ length ps
  kept :
      (k : ℕ) (p : Payload)
      → At k p ps
      → k < 1024
      → (j : ℕ) → j < p.size
      → r.slots ((length ps + 1023 - k) % 1024) j ≡ p.byte j

none_At : {k : ℕ} {p : Payload} → At k p [] → ⊥
none_At = elim [ ]

empty-Holds : Holds [] ring_init
unfolding ring_init
empty-Holds = record { head_at = refl; counted = refl; kept = λ k p a le j lt. absurd (none_At a) }

kept_on :
    (p : Payload) (ps : List Payload) (r : Ring)
    → Holds ps r
    → (k : ℕ) (q : Payload) → At k q (p ∷ ps)
    → k < 1024
    → (j : ℕ) → j < q.size
    → set_at r.head
        (copy_bytes p.size p.byte (r.slots r.head))
        r.slots
        ((length (p ∷ ps) + 1023 - k) % 1024)
        j
      ≡ q.byte j
kept_on p ps r h zero q At.newest le j lt =
    ap (λ row. row j)
      (set_here r.head (copy_bytes p.size p.byte (r.slots r.head)) r.slots
        ((length (p ∷ ps) + 1023 - 0) % 1024) (omega (arith, h.head_at)))
    ∙ copied p.size p.byte (r.slots r.head) j lt
kept_on p ps r h (suc k) q (At.older a) le j lt =
    ap (λ row. row j)
      (set_away r.head (copy_bytes p.size p.byte (r.slots r.head)) r.slots
        ((length (p ∷ ps) + 1023 - suc k) % 1024) (λ e. omega (arith, h.head_at)))
    ∙ ap (λ i. r.slots i j) (omega arith)
    ∙ h.kept k q a (omega arith) j lt

sink-Holds :
    (p : Payload) (ps : List Payload) (r : Ring)
    → 0 < p.size
    → p.size ≤ 80
    → length (p ∷ ps) < 2 ^ 64
    → Holds ps r
    → Holds (p ∷ ps) (sink p r)
sink-Holds p ps r some_ small bound h = rw (sink_lem p r some_ small) (record {
  head_at = omega (arith, h.head_at);
  counted = omega (arith, h.counted);
  kept = kept_on p ps r h;
})

after_records-Holds :
    (ps : List Payload) → AllFit ps → length ps < 2 ^ 64 → Holds ps (after_records ps)
unfolding after_records
after_records-Holds [] f bound = empty-Holds
after_records-Holds (p ∷ ps) (AllFit.fits some_ small f) bound =
    sink-Holds p ps (after_records ps) some_ small bound (after_records-Holds ps f (omega arith))

rows_before :
    (left i start size : ℕ) (r : Ring) (out : ℕ → ℕ → ℕ) (t : ℕ)
    → t < i
    → copy_rows left i start size r out t ≡ out t
unfolding copy_rows
rows_before zero i start size r out t h = refl
rows_before (suc left) i start size r out t h =
    rows_before left (i + 1) start size r _ t (omega arith) ∙ set_away i _ out t (λ e. omega arith)

rows_past :
    (left i start size : ℕ) (r : Ring) (out : ℕ → ℕ → ℕ) (t : ℕ)
    → i + left ≤ t
    → copy_rows left i start size r out t ≡ out t
unfolding copy_rows
rows_past zero i start size r out t h = refl
rows_past (suc left) i start size r out t h =
    rows_past left (i + 1) start size r _ t (omega arith) ∙ set_away i _ out t (λ e. omega arith)

rows_at :
    (left i start size : ℕ) (r : Ring) (out : ℕ → ℕ → ℕ) (d t : ℕ)
    → t ≡ i + d
    → d < left
    → (j : ℕ) → j < size
    → copy_rows left i start size r out t j ≡ r.slots ((start + t) % 1024) j
unfolding copy_rows
rows_at zero i start size r out d t e h j lt = absurd (omega arith)
rows_at (suc left) i start size r out zero t e h j lt =
    ap (λ row. row j)
      (rows_before left (i + 1) start size r
          (set_at i (copy_bytes size (r.slots ((start + i) % 1024)) (out i)) out) t (omega arith)
        ∙ set_here i (copy_bytes size (r.slots ((start + i) % 1024)) (out i)) out t (omega arith))
    ∙ copied size (r.slots ((start + i) % 1024)) (out i) j lt
    ∙ ap (λ k. r.slots ((start + k) % 1024) j) (omega arith)
rows_at (suc left) i start size r out (suc d) t e h j lt =
    rows_at left (i + 1) start size r _ d t (omega arith) (omega arith) j lt

flush_split :
    (max_records size : ℕ) (r : Ring) (out : ℕ → ℕ → ℕ)
    → 0 < size
    → size ≤ 80
    → flush max_records size r out ≡ (
      smaller (smaller r.total 1024) max_records,
      copy_rows
          (smaller (smaller r.total 1024) max_records)
          0
          ((r.head + 1024 - smaller (smaller r.total 1024) max_records) % 1024)
          size
          r
          out,
    )
unfolding flush
flush_split max_records size r out some_ small = ground arith

flush_count :
    (max_records size : ℕ) (r : Ring) (out : ℕ → ℕ → ℕ) (n : ℕ)
    → 0 < size
    → size ≤ 80
    → smaller (smaller r.total 1024) max_records ≡ n
    → flush max_records size r out ≡ (n, copy_rows n 0 ((r.head + 1024 - n) % 1024) size r out)
flush_count max_records size r out n some_ small e =
    flush_split max_records size r out some_ small
    ∙ ap (λ m. (m, copy_rows m 0 ((r.head + 1024 - m) % 1024) size r out)) e

count_lem :
    (max_records : ℕ) (total : ℕ)
    → (smaller (smaller total 1024) max_records ≤ 1024)
      × (smaller (smaller total 1024) max_records ≤ total)
unfolding smaller
count_lem max_records total = (ground arith, ground arith)

-- `SkTelemetryFlush` after a sequence of records that `shTelemetrySink` took, fewer than 2 ^ 64 and each
-- of a size from 1 to 80, with a record size from 1 to 80: the count is the least of the number of
-- records, 1024 and `maxRecords`; row i of the output starts with the bytes of the record that is
-- count - 1 - i older than the newest, up to the smaller of its size and the record size; and the rows
-- from the count on are as they were.
pub flush_lem :
    (ps : List Payload) (max_records size : ℕ) (out : ℕ → ℕ → ℕ)
    → AllFit ps
    → length ps < 2 ^ 64
    → 0 < size
    → size ≤ 80
    → ((flush max_records size (after_records ps) out).0
        ≡ smaller (smaller (length ps) 1024) max_records)
      × ((i k : ℕ) (p : Payload)
          → i + 1 + k ≡ smaller (smaller (length ps) 1024) max_records
          → At k p ps
          → (j : ℕ) → j < p.size
          → j < size
          → (flush max_records size (after_records ps) out).1 i j ≡ p.byte j)
      × ((i : ℕ)
          → smaller (smaller (length ps) 1024) max_records ≤ i
          → (flush max_records size (after_records ps) out).1 i ≡ out i)
flush_lem ps max_records size out f bound some_ small =
    let h = after_records-Holds ps f bound in
    rw
      (flush_count max_records size (after_records ps) out
        (smaller (smaller (length ps) 1024) max_records) some_ small
        (ap (λ t. smaller (smaller t 1024) max_records) h.counted))
      (refl, row h, (λ i le. rows_past _ 0 _ size (after_records ps) out i (omega arith)))
  where
    row :
        Holds ps (after_records ps)
        → (i k : ℕ) (p : Payload) → i + 1 + k ≡ smaller (smaller (length ps) 1024) max_records
        → At k p ps
        → (j : ℕ) → j < p.size
        → j < size
        → copy_rows
            (smaller (smaller (length ps) 1024) max_records)
            0
            (((after_records ps).head + 1024 - smaller (smaller (length ps) 1024) max_records)
              % 1024)
            size
            (after_records ps)
            out
            i
            j
          ≡ p.byte j
    row h i k p e a j in_p in_size =
        let (cap, have_) = count_lem max_records (length ps) in
        rows_at _ 0 _ size (after_records ps) out i i (omega arith) (omega arith) j in_size
        ∙ ap (λ x. (after_records ps).slots x j) (omega (arith, h.head_at))
        ∙ h.kept k p a (omega arith) j in_p
